-- ===== src/Channels/Manager.antt =====
-- What the workers of pkg/channels/manager.go do with one outbound message: placeholders, typing and
-- reactions that wait for the answer, the split of a long message, and the sends. Texts are lists of
-- code points, times and waits milliseconds; the closures of the entries are numbers.
use operator_os.Base.{
  ℕ, Bool, false, Option, none, some, List, [], ◌∷◌, ◌++◌, Text, codes, is_empty, ◌&&◌, ltb, lookup,
  insert, delete, length, if◌then◌else◌,
}
use operator_os.Bus.Types.{OutboundMessage, OutboundMediaMessage}
use operator_os.Channels.Sends.{
  SendError, Delivery, edited, context_done, unsupported, empty_log, send_attempts, max_retries,
}
use operator_os.Channels.Split.{chunks, still_running, panicked, split_message}

pub record ClosureEntry : Type 0 where
  pub closure : ℕ
  pub created_at : ℕ

pub record PlaceholderEntry : Type 0 where
  pub id : Text
  pub created_at : ℕ

-- The three maps by "channel:chatID".
pub record Pending : Type 0 where
  pub typing_stops : List (Text × ClosureEntry)
  pub reaction_undos : List (Text × ClosureEntry)
  pub placeholders : List (Text × PlaceholderEntry)

abbrev pub key_of : Text → Text → Text
key_of channel chat_id = channel ++ (codes ":" ++ chat_id)

unfoldable pub record_placeholder : Text → Text → Text → ℕ → Pending → Pending
record_placeholder channel chat_id id now p = record p {
  placeholders =
      insert (key_of channel chat_id) (record { id = id; created_at = now }) p.placeholders;
}

unfoldable pub record_typing_stop : Text → Text → ℕ → ℕ → Pending → Pending
record_typing_stop channel chat_id stop now p = record p {
  typing_stops =
      insert (key_of channel chat_id) (record { closure = stop; created_at = now }) p.typing_stops;
}

unfoldable pub record_reaction_undo : Text → Text → ℕ → ℕ → Pending → Pending
record_reaction_undo channel chat_id undo now p = record p {
  reaction_undos =
      insert (key_of channel chat_id) (record { closure = undo; created_at = now })
        p.reaction_undos;
}

-- A channel and its limiter, and the closures, over the state of the world. `limit` is the limiter's
-- `Wait` (true for its error), `wait` is true when the context is done before the time is over, `edit`
-- is the MessageEditor (true when its error is nil), and a maximum of zero stands for none.
pub record Channel : Type 1 where
  pub World : Type 0
  pub send : OutboundMessage → World → Option SendError × World
  pub send_media : Option (OutboundMediaMessage → World → Option SendError × World)
  pub edit : Option (Text → Text → Text → World → Bool × World)
  pub max_message_length : ℕ
  pub limit : World → Bool × World
  pub wait : ℕ → World → Bool × World
  pub call : ℕ → World → World

module _ (ch : Channel) where
  open ch use {World, send, send_media, edit, max_message_length, limit, wait, call}

  unfoldable pub call_entry : Option ClosureEntry → World → World
  call_entry none w = w
  call_entry (some e) w = call e.closure w

  unfoldable pub edit_placeholder : Option PlaceholderEntry → OutboundMessage → World → Bool × World
  edit_placeholder none msg w = (false, w)
  edit_placeholder (some e) msg w =
      if is_empty e.id
      then (false, w)
      else elim edit [ none ↦ (false, w) | some do_edit ↦ do_edit msg.chat_id e.id msg.content w ]

  unfoldable pub pre_send : Text → OutboundMessage → Pending → World → Bool × Pending × World
  pre_send name msg p w =
      let key = key_of name msg.chat_id in
      let w1 = call_entry (lookup key p.typing_stops) w in
      let w2 = call_entry (lookup key p.reaction_undos) w1 in
      let (done, w3) = edit_placeholder (lookup key p.placeholders) msg w2 in
      (
        done,
        record {
          typing_stops = delete key p.typing_stops;
          reaction_undos = delete key p.reaction_undos;
          placeholders = delete key p.placeholders;
        },
        w3,
      )

  unfoldable pub send_with_retry :
      Text → OutboundMessage → Pending → World → Delivery × Pending × World
  send_with_retry name msg p w =
      let (failed, w1) = limit w in
      if failed
      then (context_done, p, w1)
      else let (done, p', w2) = pre_send name msg p w1 in
        if done
        then (edited, p', w2)
        else let (d, log, w3) = send_attempts (send msg) wait max_retries 0 empty_log w2 in
          (d, p', w3)

  unfoldable pub send_media_with_retry : OutboundMediaMessage → World → Delivery × World
  send_media_with_retry msg w = elim send_media [
    | none ↦ (unsupported, w)
    | some do_send ↦
        let (failed, w1) = limit w in
        if failed
        then (context_done, w1)
        else let (d, log, w2) = send_attempts (do_send msg) wait max_retries 0 empty_log w1 in
          (d, w2)
  ]

  -- The chunks of a message, one after the other, each with how its call ended.
  unfoldable pub send_chunks :
      Text
      → OutboundMessage
      → List Text
      → Pending
      → World
      → List (Text × Delivery) × Pending × World
  send_chunks name msg [] p w = ([], p, w)
  send_chunks name msg (c ∷ cs) p w =
      let (d, p1, w1) = send_with_retry name (record msg { content = c }) p w in
      let (ds, p2, w2) = send_chunks name msg cs p1 w1 in ((c, d) ∷ ds, p2, w2)

  -- One turn of runWorker; `none` when the split goes wrong.
  unfoldable pub run_worker_turn :
      ℕ
      → Text
      → OutboundMessage
      → Pending
      → World
      → Option (List (Text × Delivery) × Pending × World)
  run_worker_turn fuel name msg p w =
      if ltb 0 max_message_length && ltb max_message_length (length msg.content)
      then elim (split_message fuel msg.content max_message_length) [
        | chunks cs ↦ some (send_chunks name msg cs p w)
        | still_running ↦ none
        | panicked ↦ none
      ]
      else some (send_chunks name msg (msg.content ∷ []) p w)
