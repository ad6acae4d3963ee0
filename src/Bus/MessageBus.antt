-- ===== src/Bus/MessageBus.antt =====
-- pkg/bus/bus.go: three buffered channels, the flags of closing, and what goroutines do to them one
-- atomic action at a time. A publisher that has passed the two checks waits in its `select`; which
-- ready case a `select` takes is the scheduler's choice.
use operator_os.Base.{
  ℕ, zero, suc, Bool, true, false, Option, none, some, List, [], ◌∷◌, ◌++◌, length, get_elem?, ltb,
  if◌then◌else◌,
}
use operator_os.Bus.Types.{InboundMessage, OutboundMessage, OutboundMediaMessage}

abbrev pub default_bus_buffer_size : ℕ
default_bus_buffer_size = 64

-- Who took a message out of a channel: a consumer, or `Close`.
pub data Removal {ℓ} (M : Type ℓ) : Type ℓ where
  delivered : M → Removal M
  drained : M → Removal M

-- One channel with its buffer and the publishers that wait in their `select`. What happened is
-- recorded with it, the oldest first: the messages whose `Publish` returned nil, and those taken out.
pub record Lane {ℓ} (M : Type ℓ) : Type ℓ where
  pub buffer : List M
  pub waiting : List M
  pub accepted : List M
  pub removed : List (Removal M)

pub data PublishError : Type 0 where
  bus_closed : PublishError
  context_error : PublishError

-- The cases of the `select` statements.
pub data Case : Type 0 where
  channel_case : Case
  done_case : Case
  context_case : Case

module _ {ℓ} {M : Type ℓ} where
  abbrev pub remove_at : ℕ → List M → List M
  remove_at i [] = []
  remove_at zero (x ∷ xs) = xs
  remove_at (suc i) (x ∷ xs) = x ∷ remove_at i xs

  abbrev pub empty_lane : Lane M
  empty_lane = record { buffer = []; waiting = []; accepted = []; removed = [] }

  -- The checks of a publisher: `none` when it goes on to its `select`.
  unfoldable pub publish_checks : Bool → Bool → M → Lane M → Lane M × Option PublishError
  publish_checks closed cancelled m q =
      if closed
      then (q, some bus_closed)
      else if cancelled
      then (q, some context_error)
      else (record q { waiting = q.waiting ++ m ∷ [] }, none)

  -- The publisher of `m`, the one at `i`, leaves its `select` by a case that is ready; the result is
  -- the error that it returns.
  unfoldable pub publish_case :
      Case → Bool → Bool → ℕ → M → Lane M → Option (Lane M × Option PublishError)
  publish_case channel_case done cancelled i m q =
      if ltb (length q.buffer) default_bus_buffer_size
      then some (
        record q {
          waiting = remove_at i q.waiting;
          buffer = q.buffer ++ m ∷ [];
          accepted = q.accepted ++ m ∷ [];
        },
        none,
      )
      else none
  publish_case done_case done cancelled i m q =
      if done then some (record q { waiting = remove_at i q.waiting }, some bus_closed) else none
  publish_case context_case done cancelled i m q =
      if cancelled
      then some (record q { waiting = remove_at i q.waiting }, some context_error)
      else none

  unfoldable pub publish_select :
      Case → Bool → Bool → ℕ → Lane M → Option (Lane M × Option PublishError)
  unfolding publish_case
  publish_select c done cancelled i q = elim (get_elem? q.waiting i) [
    | none ↦ none
    | some m ↦ publish_case c done cancelled i m q
  ]

  -- A receive from the channel, by a consumer or by `Close`; `none` when the buffer is empty.
  unfoldable pub take_head : (M → Removal M) → Lane M → Option (Lane M × M)
  take_head how q = elim q.buffer [
    | [] ↦ none
    | m ∷ rest ↦ some (record q { buffer = rest; removed = q.removed ++ how m ∷ [] }, m)
  ]

  -- A consumer's `select`; its result is the message, or `none` for `ok == false`.
  unfoldable pub consume_select : Case → Bool → Bool → Lane M → Option (Lane M × Option M)
  unfolding take_head
  consume_select channel_case done cancelled q = elim (take_head delivered q) [
    | none ↦ none
    | some (q', m) ↦ some (q', some m)
  ]
  consume_select done_case done cancelled q = if done then some (q, none) else none
  consume_select context_case done cancelled q = if cancelled then some (q, none) else none

-- How far `Close` has come.
pub data Closing : Type 0 where
  idle : Closing
  signalling : Closing
  draining_inbound : Closing
  draining_outbound : Closing
  draining_media : Closing
  finished : Closing

pub record MessageBus : Type 0 where
  pub inbound : Lane InboundMessage
  pub outbound : Lane OutboundMessage
  pub outbound_media : Lane OutboundMediaMessage
  pub done : Bool
  pub closed : Bool
  pub closing : Closing

unfoldable pub new_message_bus : MessageBus
new_message_bus = record {
  inbound = empty_lane;
  outbound = empty_lane;
  outbound_media = empty_lane;
  done = false;
  closed = false;
  closing = idle;
}

-- `CompareAndSwap(false, true)`: only the first call of `Close` goes on.
unfoldable pub begin_close : MessageBus → MessageBus
begin_close b = if b.closed then b else record b { closed = true; closing = signalling }

-- One step of the call of `Close` that goes on.
unfoldable pub close_step : Closing → MessageBus → MessageBus
unfolding take_head
close_step idle b = b
close_step signalling b = record b { done = true; closing = draining_inbound }
close_step draining_inbound b = elim (take_head drained b.inbound) [
  | none ↦ record b { closing = draining_outbound }
  | some (q, m) ↦ record b { inbound = q }
]
close_step draining_outbound b = elim (take_head drained b.outbound) [
  | none ↦ record b { closing = draining_media }
  | some (q, m) ↦ record b { outbound = q }
]
close_step draining_media b = elim (take_head drained b.outbound_media) [
  | none ↦ record b { closing = finished }
  | some (q, m) ↦ record b { outbound_media = q }
]
close_step finished b = b

-- What publishers and consumers of one channel do; the flag says whether the context of the call is
-- done.
pub data LaneAction {ℓ} (M : Type ℓ) : Type ℓ where
  enter : M → Bool → LaneAction M
  leave : Case → ℕ → Bool → LaneAction M
  consume : Case → Bool → LaneAction M

-- A `select` goes on only by a case that is ready.
unfoldable pub lane_step {ℓ} : {M : Type ℓ} → Bool → Bool → LaneAction M → Lane M → Lane M
unfolding publish_checks publish_select consume_select
lane_step closed done (enter m cancelled) q = (publish_checks closed cancelled m q).0
lane_step closed done (leave c i cancelled) q = elim (publish_select c done cancelled i q) [
  | none ↦ q
  | some (q', r) ↦ q'
]
lane_step closed done (consume c cancelled) q = elim (consume_select c done cancelled q) [
  | none ↦ q
  | some (q', r) ↦ q'
]

pub data Action : Type 0 where
  on_inbound : LaneAction InboundMessage → Action
  on_outbound : LaneAction OutboundMessage → Action
  on_outbound_media : LaneAction OutboundMediaMessage → Action
  close_called : Action
  close_continued : Action

unfoldable pub step : Action → MessageBus → MessageBus
unfolding lane_step begin_close close_step
step (on_inbound a) b = record b { inbound = lane_step b.closed b.done a b.inbound }
step (on_outbound a) b = record b { outbound = lane_step b.closed b.done a b.outbound }
step (on_outbound_media a) b = record b {
  outbound_media = lane_step b.closed b.done a b.outbound_media;
}
step close_called b = begin_close b
step close_continued b = close_step b.closing b

abbrev pub run : List Action → MessageBus → MessageBus
run [] b = b
run (a ∷ rest) b = run rest (step a b)
