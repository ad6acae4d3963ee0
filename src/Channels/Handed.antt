-- ===== src/Channels/Handed.antt =====
-- What a worker of pkg/channels/manager.go hands to the channel for the texts of a message.
use operator_os.Base.{
  ℕ, ◌≡◌, refl, ap, Bool, true, false, Option, none, some, List, [], ◌∷◌, Text, lookup, is_empty,
  Bool-cases, Option-cases, inl, inr, arith,
}
use operator_os.Bus.Types.{OutboundMessage}
use operator_os.Channels.Sends.{Delivery, edited, context_done, SendError, max_retries}
use operator_os.Channels.Retries.{IsHistory, send_attempts-IsHistory}
use operator_os.Channels.Manager.{
  Channel, Pending, PlaceholderEntry, key_of, call_entry, edit_placeholder, pre_send,
  send_with_retry, send_chunks,
}

module _ (ch : Channel) where
  open ch use {World, limit, wait, edit}

  -- The recorded placeholder of the chat was edited to the text, and that is how the world came about.
  abbrev pub EditedTo : Text → OutboundMessage → Text → Pending → World → Type 0
  EditedTo name msg text p w' =
      (e : PlaceholderEntry) × (lookup (key_of name msg.chat_id) p.placeholders ≡ some e)
      × ((do_edit : Text → Text → Text → World → Bool × World) × (edit ≡ some do_edit)
          × ((w : World) × (do_edit msg.chat_id e.id text w ≡ (true, w'))))

  -- The calls of a channel for the texts of a message, in order, with how each ended, and the state and
  -- the world before and after: the limiter refuses and there is no call; the placeholder is edited to
  -- the text; or the message with the text is sent, with retries.
  pub data Handed (name : Text) (msg : OutboundMessage)
      : List (Text × Delivery) → Pending → World → Pending → World → Type 0 where
    over : {p : Pending} {w : World} → Handed name msg [] p w p w
    refused :
        {ds : List (Text × Delivery)} {p p1 : Pending} {w w1 w2 : World} (text : Text)
        → limit w ≡ (true, w1)
        → Handed name msg ds p w1 p1 w2
        → Handed name msg ((text, context_done) ∷ ds) p w p1 w2
    edits :
        {ds : List (Text × Delivery)} {p p1 p2 : Pending} {w w1 w2 w3 : World} (text : Text)
        → limit w ≡ (false, w1)
        → EditedTo name msg text p w2
        → Handed name msg ds p1 w2 p2 w3
        → Handed name msg ((text, edited) ∷ ds) p w p2 w3
    sends :
        {ds : List (Text × Delivery)} {p p1 p2 : Pending} {w w1 w2 w3 w4 : World} (text : Text)
        (d : Delivery) (rs : List (Option SendError)) (ws : List ℕ)
        → limit w ≡ (false, w1)
        → IsHistory (ch.send (record msg { content = text })) wait max_retries 0 w2 rs ws d w3
        → Handed name msg ds p1 w3 p2 w4
        → Handed name msg ((text, d) ∷ ds) p w p2 w4

  edit_placeholder-EditedTo :
      (entry : Option PlaceholderEntry) (msg : OutboundMessage) (w : World)
      → (edit_placeholder ch entry msg w).0 ≡ true
      → (e : PlaceholderEntry) × (entry ≡ some e)
        × ((do_edit : Text → Text → Text → World → Bool × World) × (edit ≡ some do_edit)
            × ((w0 : World) × (do_edit msg.chat_id e.id msg.content w0
                  ≡ (true, (edit_placeholder ch entry msg w).1))))
  unfolding edit_placeholder
  edit_placeholder-EditedTo none msg w h = absurd (ground arith)
  edit_placeholder-EditedTo (some e) msg w h = elim (Bool-cases (is_empty e.id)) [
    | inl y ↦ absurd (ground (arith, h, y))
    | inr n ↦ elim (Option-cases edit) [
      | inl f ↦ absurd (ground (arith, h, n, f))
      | inr (do_edit, f) ↦
          let r = do_edit msg.chat_id e.id msg.content w in
          let k : r.0 ≡ true = rw f at (rw n at h) in
          (e, refl, (do_edit, f, (w, rw n (rw f (ap (λ b. (b, r.1)) k)))))
    ]
  ]

  pre_send-EditedTo :
      (name : Text) (msg : OutboundMessage) (text : Text) (p : Pending) (w : World)
      → (pre_send ch name (record msg { content = text }) p w).0 ≡ true
      → EditedTo name msg text p (pre_send ch name (record msg { content = text }) p w).2
  unfolding pre_send
  pre_send-EditedTo name msg text p w h =
      let key = key_of name msg.chat_id in
      edit_placeholder-EditedTo (lookup key p.placeholders) (record msg { content = text })
        (call_entry ch (lookup key p.reaction_undos) (call_entry ch (lookup key p.typing_stops) w))
        h

  send_with_retry-Handed :
      (name : Text) (msg : OutboundMessage) (text : Text) (p : Pending) (w : World)
      {ds : List (Text × Delivery)} {p' : Pending} {w' : World}
      → (let (d, p1, w1) = send_with_retry ch name (record msg { content = text }) p w in
          Handed name msg ds p1 w1 p' w' → Handed name msg ((text, d) ∷ ds) p w p' w')
  unfolding send_with_retry
  send_with_retry-Handed name msg text p w h =
      let m : OutboundMessage = record msg { content = text } in
      let w1 = (limit w).1 in
      let pre = pre_send ch name m p w1 in
      elim (Bool-cases (limit w).0) [
        | inl y ↦
            rw (y, send_with_retry)
              (refused text (ap (λ b. (b, w1)) y) (rw (y, send_with_retry) at h))
        | inr n ↦
            let l : limit w ≡ (false, w1) = ap (λ b. (b, w1)) n in
            elim (Bool-cases pre.0) [
              | inl y ↦
                  rw (n, send_with_retry)
                    (rw y (
                      edits text l (pre_send-EditedTo name msg text p w1 y)
                        (rw y at (rw (n, send_with_retry) at h))))
              | inr k ↦
                  let history = (send_attempts-IsHistory (ch.send m) wait pre.2).0 in
                  rw (n, send_with_retry)
                    (rw k (sends text _ _ _ l history (rw k at (rw (n, send_with_retry) at h))))
            ]
      ]

  pub send_chunks-Handed :
      (name : Text) (msg : OutboundMessage) (cs : List Text) (p : Pending) (w : World)
      → (let (ds, p', w') = send_chunks ch name msg cs p w in Handed name msg ds p w p' w')
  unfolding send_chunks
  send_chunks-Handed name msg [] p w = over
  send_chunks-Handed name msg (c ∷ cs) p w =
      let (d, p1, w1) = send_with_retry ch name (record msg { content = c }) p w in
      send_with_retry-Handed name msg c p w (send_chunks-Handed name msg cs p1 w1)
