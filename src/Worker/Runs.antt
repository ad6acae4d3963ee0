-- ===== src/Worker/Runs.antt =====
-- What a worker of pkg/worker/worker.go has done when its loop ends.
use mathlib.Core.List.{append_assoc, append-nil}
use operator_os.Base.{
  ℕ, zero, suc, ◌+◌, ◌<◌, ◌≡◌, ap, ◌∙◌, true, false, none, some, List, [], ◌∷◌, ◌++◌, codes,
  is_empty, if◌then◌else◌, length, arith,
}
use operator_os.Bus.Types.{InboundMessage, OutboundMessage}
use operator_os.Worker.Process.{
  Reply, response, error, Env, Worker, on_reply, process_message, consume_loop,
}

-- The answer to a message: none to an empty response, none to a failure that has no address.
abbrev pub replies_to : InboundMessage → Reply → List OutboundMessage
replies_to msg (response []) = []
replies_to msg (response (c ∷ r)) =
    record { channel = msg.channel; chat_id = msg.chat_id; content = c ∷ r } ∷ []
replies_to msg (error e) =
    if is_empty msg.channel
    then []
    else if is_empty msg.chat_id
    then []
    else record {
      channel = msg.channel;
      chat_id = msg.chat_id;
      content = codes "Error processing message: " ++ e;
    }
      ∷ []

-- The messages that a worker received, each with the processor's reply.
abbrev pub Trace : Type 0
Trace = List (InboundMessage × Reply)

abbrev pub succeeded : Trace → ℕ
succeeded [] = 0
succeeded ((m, response r) ∷ t) = suc (succeeded t)
succeeded ((m, error e) ∷ t) = succeeded t

abbrev pub broken : Trace → ℕ
broken [] = 0
broken ((m, response r) ∷ t) = broken t
broken ((m, error e) ∷ t) = suc (broken t)

abbrev pub all_replies : Trace → List OutboundMessage
all_replies [] = []
all_replies ((m, r) ∷ t) = replies_to m r ++ all_replies t

module _ (env : Env) where
  open env use {World, cancelled, consume, process, publish}

  abbrev pub publish_all : List OutboundMessage → World → World
  publish_all [] w = w
  publish_all (m ∷ ms) w = publish_all ms (publish m w)

  -- The world goes from one state to another while a worker receives and answers the messages of a
  -- trace, until the context is done or the bus has no more.
  pub data Serves : World → Trace → World → Type 0 where
    stopped : {w : World} → cancelled w ≡ true → Serves w [] w
    exhausted : {w w' : World} → cancelled w ≡ false → consume w ≡ (none, w') → Serves w [] w'
    served :
        {w w1 w2 w3 : World} {m : InboundMessage} {r : Reply} {t : Trace}
        → cancelled w ≡ false
        → consume w ≡ (some m, w1)
        → process m w1 ≡ (r, w2)
        → Serves (publish_all (replies_to m r) w2) t w3
        → Serves w ((m, r) ∷ t) w3

  abbrev pub after : Worker World → Trace → World → Worker World
  after w t world = record {
    processed = w.processed + succeeded t;
    failed = w.failed + broken t;
    published = w.published ++ all_replies t;
    world = world;
  }

  on_reply_lem :
      (m : InboundMessage) (r : Reply) (w : Worker World)
      → on_reply env m r w ≡ after w ((m, r) ∷ []) (publish_all (replies_to m r) w.world)
  unfolding on_reply
  on_reply_lem m (response []) w = ground (arith, append-nil w.published)
  on_reply_lem m (response (c ∷ r)) w = ground arith
  on_reply_lem m (error e) w = ground (arith, append-nil w.published)

  after-after :
      (w : Worker World) (m : InboundMessage) (r : Reply) (t : Trace) (w1 w2 : World)
      → after (after w ((m, r) ∷ []) w1) t w2 ≡ after w ((m, r) ∷ t) w2
  after-after w m (response r) t w1 w2 = ground (
    arith,
    append_assoc w.published (replies_to m (response r) ++ []) (all_replies t),
    append-nil (replies_to m (response r)),
  )
  after-after w m (error e) t w1 w2 = ground (
    arith,
    append_assoc w.published (replies_to m (error e) ++ []) (all_replies t),
    append-nil (replies_to m (error e)),
  )

  abbrev begin : ℕ → ℕ → List OutboundMessage → World → Worker World
  begin p f ms w = record { processed = p; failed = f; published = ms; world = w }

  consume_loop-begin :
      (fuel p f : ℕ) (ms : List OutboundMessage) {w : World} {t : Trace} {w' : World}
      → Serves w t w'
      → length t < fuel
      → consume_loop env fuel (begin p f ms w) ≡ some (after (begin p f ms w) t w')
  unfolding consume_loop process_message
  consume_loop-begin zero p f ms s h = elim h [ ]
  consume_loop-begin (suc fuel) p f ms (stopped c) h = rw c (ground (arith, append-nil ms))
  consume_loop-begin (suc fuel) p f ms (exhausted c n) h =
      rw c (rw n (ground (arith, append-nil ms)))
  consume_loop-begin (suc fuel) p f ms
        (served {w1 = w1} {w2 = w2} {w3 = w3} {m = m} {r = r} {t = t} c n e s) h =
      let b : Worker World = begin p f ms w2 in
      let w = after b ((m, r) ∷ []) (publish_all (replies_to m r) w2) in
      let one : process_message env m (begin p f ms w1) ≡ w =
        ap (λ x. on_reply env m x.0 (begin p f ms x.1)) e ∙ on_reply_lem m r b in
      let rest = consume_loop-begin fuel w.processed w.failed w.published s (omega arith) in
      rw c (
        rw n (
          rw (ap (λ x. x.1) n) (rw one (rest ∙ ap (λ x. some x) (after-after b m r t w.world w3)))))

  -- A worker that the bus and the context let serve a trace ends with any fuel above the trace's
  -- length, and has counted each message once, as processed if the processor returned a response and
  -- as failed otherwise; what it has published is one answer for each response that is not empty and
  -- for each failure of a message with a channel and a chat, in the order of the messages.
  pub consume_loop-Serves :
      (fuel : ℕ) (w : Worker World) {t : Trace} {w' : World}
      → Serves w.world t w'
      → length t < fuel
      → consume_loop env fuel w ≡ some (after w t w')
  consume_loop-Serves fuel w s h = consume_loop-begin fuel w.processed w.failed w.published s h
