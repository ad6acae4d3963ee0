-- ===== src/Bus/Late.antt =====
-- Publishers that `Close` of pkg/bus/bus.go overtakes.
use operator_os.Base.{
  ℕ, zero, suc, ◌+◌, ◌≤◌, ◌≡◌, refl, Bool, true, false, Option, none, some, List, [], ◌∷◌, ◌++◌,
  length, length-append, get_elem?, Option-cases, inl, inr, arith,
}
use operator_os.Bus.MessageBus.{
  Lane, Removal, delivered, drained, Case, channel_case, done_case, context_case, PublishError,
  remove_at, publish_case, publish_select, consume_select, LaneAction, enter, leave, consume,
  lane_step, MessageBus, Closing, idle, signalling, draining_inbound, draining_outbound,
  draining_media, finished, Action, on_inbound, on_outbound, on_outbound_media, close_called,
  close_continued, step, run, begin_close, close_step, take_head,
}
use operator_os.Bus.Delivery.{List-cases}
use operator_os.Bus.Types.{InboundMessage}

module _ {ℓ} {M : Type ℓ} where
  -- The messages that were accepted and those whose publishers wait.
  abbrev pub admitted : Lane M → ℕ
  admitted q = length q.accepted + length q.waiting

  length-remove_at :
      (i : ℕ) (l : List M) (m : M)
      → get_elem? l i ≡ some m
      → suc (length (remove_at i l)) ≡ length l
  length-remove_at i [] m h = absurd (ground arith)
  length-remove_at zero (x ∷ l) m h = refl
  length-remove_at (suc i) (x ∷ l) m h = omega (arith, length-remove_at i l m h)

  publish_case-admitted :
      (c : Case) (done cancelled : Bool) (i : ℕ) (m : M) (q q' : Lane M) (r : Option PublishError)
      → get_elem? q.waiting i ≡ some m
      → publish_case c done cancelled i m q ≡ some (q', r)
      → admitted q' ≤ admitted q
  unfolding publish_case
  publish_case-admitted channel_case done cancelled i m q q' r f e =
      ground (arith, length-append q.accepted (m ∷ []), length-remove_at i q.waiting m f)
  publish_case-admitted done_case done cancelled i m q q' r f e =
      ground (arith, length-remove_at i q.waiting m f)
  publish_case-admitted context_case done cancelled i m q q' r f e =
      ground (arith, length-remove_at i q.waiting m f)

  take_head-admitted :
      (how : M → Removal M) (q q' : Lane M) (x : M)
      → take_head how q ≡ some (q', x)
      → admitted q' ≡ admitted q
  unfolding take_head
  take_head-admitted how q q' x e = elim (List-cases q.buffer) [
    | inl f ↦ absurd (ground (arith, f))
    | inr (y, rest, f) ↦ ground (arith, f)
  ]

  admitted-lane_step :
      (done : Bool) (a : LaneAction M) (q : Lane M)
      → admitted (lane_step true done a q) ≤ admitted q
  unfolding lane_step publish_select consume_select
  admitted-lane_step done (enter m cancelled) q = omega arith
  admitted-lane_step done (leave c i cancelled) q = elim (Option-cases (get_elem? q.waiting i)) [
    | inl f ↦ rw (f, lane_step, publish_select) (omega arith)
    | inr (m, f) ↦ elim (Option-cases (publish_case c done cancelled i m q)) [
      | inl e ↦ ground (arith, e, f)
      | inr ((q', r), e) ↦
          ground (arith, e, f, publish_case-admitted c done cancelled i m q q' r f e)
    ]
  ]
  admitted-lane_step done (consume channel_case cancelled) q =
      elim (Option-cases (take_head delivered q)) [
        | inl e ↦ ground (arith, e)
        | inr ((q', x), e) ↦ ground (arith, e, take_head-admitted delivered q q' x e)
      ]
  admitted-lane_step done (consume done_case cancelled) q = ground arith
  admitted-lane_step done (consume context_case cancelled) q = ground arith

abbrev pub AdmitsNoMore : MessageBus → MessageBus → Type 0
AdmitsNoMore b b' =
    (b'.closed ≡ true)
    × (admitted b'.inbound ≤ admitted b.inbound)
    × (admitted b'.outbound ≤ admitted b.outbound)
    × (admitted b'.outbound_media ≤ admitted b.outbound_media)

close_step-AdmitsNoMore :
    (c : Closing) (b : MessageBus) → b.closed ≡ true → AdmitsNoMore b (close_step c b)
unfolding close_step
close_step-AdmitsNoMore idle b h = ground arith
close_step-AdmitsNoMore signalling b h = ground arith
close_step-AdmitsNoMore draining_inbound b h = elim (Option-cases (take_head drained b.inbound)) [
  | inl f ↦ rw (f, close_step) (ground arith)
  | inr ((q, m), f) ↦
      rw (f, close_step) (ground (arith, take_head-admitted drained b.inbound q m f))
]
close_step-AdmitsNoMore draining_outbound b h = elim (Option-cases (take_head drained b.outbound)) [
  | inl f ↦ rw (f, close_step) (ground arith)
  | inr ((q, m), f) ↦
      rw (f, close_step) (ground (arith, take_head-admitted drained b.outbound q m f))
]
close_step-AdmitsNoMore draining_media b h =
    elim (Option-cases (take_head drained b.outbound_media)) [
      | inl f ↦ rw (f, close_step) (ground arith)
      | inr ((q, m), f) ↦
          rw (f, close_step) (ground (arith, take_head-admitted drained b.outbound_media q m f))
    ]
close_step-AdmitsNoMore finished b h = ground arith

step-AdmitsNoMore : (a : Action) (b : MessageBus) → b.closed ≡ true → AdmitsNoMore b (step a b)
unfolding step begin_close
step-AdmitsNoMore (on_inbound a) b h =
    let le = admitted-lane_step b.done a b.inbound in ground (arith, h)
step-AdmitsNoMore (on_outbound a) b h =
    let le = admitted-lane_step b.done a b.outbound in ground (arith, h)
step-AdmitsNoMore (on_outbound_media a) b h =
    let le = admitted-lane_step b.done a b.outbound_media in ground (arith, h)
step-AdmitsNoMore close_called b h = rw (h, begin_close) (ground arith)
step-AdmitsNoMore close_continued b h = close_step-AdmitsNoMore b.closing b h

-- Once `Close` has been called, whatever happens then, the bus stays closed and no channel accepts
-- more messages than those of the publishers that had passed the checks before.
pub closed_bus-AdmitsNoMore :
    (acts : List Action) (b : MessageBus) → b.closed ≡ true → AdmitsNoMore b (run acts b)
closed_bus-AdmitsNoMore [] b h = ground arith
closed_bus-AdmitsNoMore (a ∷ acts) b h =
    let (c, i, o, m) = step-AdmitsNoMore a b h in
    let (c', i', o', m') = closed_bus-AdmitsNoMore acts (step a b) c in
    (c', (omega arith), (omega arith), (omega arith))

-- When `Close` is over, a publisher of an inbound message that passed the checks before can still
-- return nil: its message stays in the channel, another `Close` does not drain it, and a consumer may
-- return without it.
pub late_message_stays :
    (b : MessageBus) (i : ℕ) (m : InboundMessage)
    → b.closed ≡ true
    → b.closing ≡ finished
    → b.done ≡ true
    → b.inbound.buffer ≡ []
    → get_elem? b.inbound.waiting i ≡ some m
    → (q : Lane InboundMessage) × (publish_select channel_case b.done false i b.inbound
        ≡ some (q, none))
      × (q.buffer ≡ m ∷ [])
      × (consume_select done_case b.done false q ≡ some (q, none))
      × ((run
            (on_inbound (leave channel_case i false)
              ∷ close_called
              ∷ close_continued
              ∷ on_inbound (consume done_case false)
              ∷ [])
            b).inbound
          ≡ q)
unfolding publish_select consume_select step begin_close close_step
late_message_stays b i m c f d e g = (
  record {
    buffer = m ∷ [];
    waiting = remove_at i b.inbound.waiting;
    accepted = b.inbound.accepted ++ m ∷ [];
    removed = b.inbound.removed;
  },
  ground (arith, e, g),
  refl,
  ground arith,
  ground (arith, e, g),
)
