-- ===== src/Worker/Process.antt =====
-- The handling of messages by a worker: consumeLoop and processMessage of pkg/worker/worker.go. The
-- bus, the processor and the context are a parameter; logging and the metrics are left out.
use operator_os.Base.{
  ℕ, zero, suc, ◌+◌, Bool, Option, none, some, List, [], ◌∷◌, ◌++◌, Text, codes, is_empty, not,
  ◌&&◌, if◌then◌else◌,
}
use operator_os.Bus.Types.{InboundMessage, OutboundMessage}

-- What a processor returns.
pub data Reply : Type 0 where
  response : Text → Reply
  error : Text → Reply

-- `consume` is ConsumeInbound (`none` for `ok == false`), `publish` is PublishOutbound (an error
-- of it is only logged), `cancelled` tells whether the context of the loop is done.
pub record Env : Type 1 where
  pub World : Type 0
  pub cancelled : World → Bool
  pub consume : World → Option InboundMessage × World
  pub process : InboundMessage → World → Reply × World
  pub publish : OutboundMessage → World → World

-- The counters of a worker, and the messages that it passed to the bus, the oldest first.
pub record Worker (W : Type 0) : Type 0 where
  pub processed : ℕ
  pub failed : ℕ
  pub published : List OutboundMessage
  pub world : W

module _ (env : Env) where
  open env use {World, cancelled, consume, process, publish}

  abbrev answer : InboundMessage → Text → OutboundMessage
  answer msg content = record { channel = msg.channel; chat_id = msg.chat_id; content = content }

  unfoldable pub publish_outbound : OutboundMessage → Worker World → Worker World
  publish_outbound m w = record w { published = w.published ++ m ∷ []; world = publish m w.world }

  unfoldable pub on_reply : InboundMessage → Reply → Worker World → Worker World
  unfolding publish_outbound
  on_reply msg (error e) w =
      let w' = record w { failed = w.failed + 1 } in
      if not (is_empty msg.channel) && not (is_empty msg.chat_id)
      then publish_outbound (answer msg (codes "Error processing message: " ++ e)) w'
      else w'
  on_reply msg (response r) w =
      let w' = record w { processed = w.processed + 1 } in
      if not (is_empty r) then publish_outbound (answer msg r) w' else w'

  unfoldable pub process_message : InboundMessage → Worker World → Worker World
  unfolding on_reply
  process_message msg w =
      let (r, world) = process msg w.world in on_reply msg r (record w { world = world })

  -- The loop, for at most `fuel` messages; `none` when the fuel runs out.
  unfoldable pub consume_loop : ℕ → Worker World → Option (Worker World)
  unfolding process_message
  consume_loop zero w = none
  consume_loop (suc fuel) w =
      if cancelled w.world
      then some w
      else let (received, world) = consume w.world in
        elim received [
          | none ↦ some (record w { world = world })
          | some msg ↦ consume_loop fuel (process_message msg (record w { world = world }))
        ]
