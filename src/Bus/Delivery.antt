-- ===== src/Bus/Delivery.antt =====
-- What the channels of pkg/bus/bus.go keep: order, the bound of the buffer, and who takes messages out.
use mathlib.Core.List.{append_assoc, map-append}
use operator_os.Base.{
  ℕ, ◌≤◌, ◌≡◌, refl, sym, ◌∙◌, Bool, Option, some, List, [], ◌∷◌, ◌++◌, map, length, length-append,
  get_elem?, Option-cases, ◌⊎◌, inl, inr, arith,
}
use operator_os.Bus.MessageBus.{
  Lane, Removal, PublishError, delivered, drained, Case, channel_case, done_case, context_case,
  publish_case, publish_select, take_head, consume_select, LaneAction, enter, leave, consume,
  lane_step, default_bus_buffer_size,
}

module _ {ℓ} {M : Type ℓ} where
  abbrev pub message : Removal M → M
  message (delivered m) = m
  message (drained m) = m

  abbrev pub IsDelivery : Removal M → Type 0
  IsDelivery (delivered m) = Unit {0}
  IsDelivery (drained m) = ⊥

  abbrev pub AllDelivered : List (Removal M) → Type 0
  AllDelivered [] = Unit {0}
  AllDelivered (r ∷ rs) = IsDelivery r × AllDelivered rs

  -- The messages that were accepted are those taken out, in the same order, and then the buffer.
  -- The buffer is never longer than the channel's capacity.
  pub record IsLane (q : Lane M) : Type ℓ where
    pub in_order : q.accepted ≡ map message q.removed ++ q.buffer
    pub bounded : length q.buffer ≤ default_bus_buffer_size

  -- `x` is moved from the front of the buffer to the end of what was removed.
  order-removed :
      (how : M → Removal M) (gone : List (Removal M)) (x : M) (rest : List M)
      → message (how x) ≡ x
      → map message gone ++ x ∷ rest ≡ map message (gone ++ how x ∷ []) ++ rest
  order-removed how gone x rest e = simp (map-append, append_assoc, e)

  abbrev pub List-cases : (l : List M) → (l ≡ []) ⊎ ((x : M) × (r : List M) × (l ≡ x ∷ r))
  List-cases [] = inl refl
  List-cases (x ∷ r) = inr (x, r, refl)

  publish_case-IsLane :
      (c : Case) (done cancelled : Bool) (i : ℕ) (m : M) (q q' : Lane M) (r : Option PublishError)
      → publish_case c done cancelled i m q ≡ some (q', r)
      → IsLane q
      → IsLane q'
  unfolding publish_case
  publish_case-IsLane channel_case done cancelled i m q q' r e h = ground (
    arith,
    length-append q.buffer (m ∷ []),
    append_assoc (map message q.removed) q.buffer (m ∷ []),
  )
  publish_case-IsLane done_case done cancelled i m q q' r e h = ground arith
  publish_case-IsLane context_case done cancelled i m q q' r e h = ground arith

  pub take_head-IsLane :
      (how : M → Removal M) (q q' : Lane M) (x : M)
      → ((m : M) → message (how m) ≡ m)
      → take_head how q ≡ some (q', x)
      → IsLane q
      → IsLane q'
  unfolding take_head
  take_head-IsLane how q q' x same e h = elim (List-cases q.buffer) [
    | inl f ↦ absurd (ground (arith, f))
    | inr (y, rest, f) ↦ ground (arith, f, order-removed how q.removed y rest (same y))
  ]

  consume_select-IsLane :
      (c : Case) (done cancelled : Bool) (q q' : Lane M) (r : Option M)
      → consume_select c done cancelled q ≡ some (q', r)
      → IsLane q
      → IsLane q'
  unfolding consume_select
  consume_select-IsLane channel_case done cancelled q q' r e h = elim (List-cases q.buffer) [
    | inl f ↦ absurd (ground (arith, f))
    | inr (y, rest, f) ↦ ground (arith, f, order-removed delivered q.removed y rest refl)
  ]
  consume_select-IsLane done_case done cancelled q q' r e h = ground arith
  consume_select-IsLane context_case done cancelled q q' r e h = ground arith

  publish_select-IsLane :
      (c : Case) (done cancelled : Bool) (i : ℕ) (q q' : Lane M) (r : Option PublishError)
      → publish_select c done cancelled i q ≡ some (q', r)
      → IsLane q
      → IsLane q'
  unfolding publish_select
  publish_select-IsLane c done cancelled i q q' r e h =
      elim (Option-cases (get_elem? q.waiting i)) [
        | inl f ↦ absurd (unfold publish_select in ground (arith, f))
        | inr (m, f) ↦
            publish_case-IsLane c done cancelled i m q q' r (sym (rw (f, publish_select) refl) ∙ e)
              h
      ]

  pub lane_step-IsLane :
      (closed done : Bool) (a : LaneAction M) (q : Lane M)
      → IsLane q
      → IsLane (lane_step closed done a q)
  unfolding lane_step
  lane_step-IsLane closed done (enter m cancelled) q h = ground arith
  lane_step-IsLane closed done (leave c i cancelled) q h =
      elim (Option-cases (publish_select c done cancelled i q)) [
        | inl e ↦ rw (e, lane_step) h
        | inr ((q', r), e) ↦ rw (e, lane_step) (publish_select-IsLane c done cancelled i q q' r e h)
      ]
  lane_step-IsLane closed done (consume c cancelled) q h =
      elim (Option-cases (consume_select c done cancelled q)) [
        | inl e ↦ rw (e, lane_step) h
        | inr ((q', r), e) ↦ rw (e, lane_step) (consume_select-IsLane c done cancelled q q' r e h)
      ]

  AllDelivered-delivered :
      (gone : List (Removal M)) (x : M)
      → AllDelivered gone
      → AllDelivered (gone ++ delivered x ∷ [])
  AllDelivered-delivered [] x h = (tt, tt)
  AllDelivered-delivered (r ∷ gone) x h = (h.0, AllDelivered-delivered gone x h.1)

  consume_select-AllDelivered :
      (c : Case) (done cancelled : Bool) (q q' : Lane M) (r : Option M)
      → consume_select c done cancelled q ≡ some (q', r)
      → AllDelivered q.removed
      → AllDelivered q'.removed
  unfolding consume_select
  consume_select-AllDelivered channel_case done cancelled q q' r e h = elim (List-cases q.buffer) [
    | inl f ↦ absurd (ground (arith, f))
    | inr (y, rest, f) ↦
        let same : q'.removed ≡ q.removed ++ delivered y ∷ [] = ground (arith, f) in
        rw same (AllDelivered-delivered q.removed y h)
  ]
  consume_select-AllDelivered done_case done cancelled q q' r e h =
      let same : q'.removed ≡ q.removed = ground arith in rw same h
  consume_select-AllDelivered context_case done cancelled q q' r e h =
      let same : q'.removed ≡ q.removed = ground arith in rw same h

  publish_select_removed :
      (c : Case) (done cancelled : Bool) (i : ℕ) (q q' : Lane M) (r : Option PublishError)
      → publish_select c done cancelled i q ≡ some (q', r)
      → q'.removed ≡ q.removed
  unfolding publish_select
  publish_select_removed channel_case done cancelled i q q' r e = ground arith
  publish_select_removed done_case done cancelled i q q' r e = ground arith
  publish_select_removed context_case done cancelled i q q' r e = ground arith

  pub lane_step-AllDelivered :
      (closed done : Bool) (a : LaneAction M) (q : Lane M)
      → AllDelivered q.removed
      → AllDelivered (lane_step closed done a q).removed
  unfolding lane_step
  lane_step-AllDelivered closed done (enter m cancelled) q h =
      let same : (lane_step closed done (enter m cancelled) q).removed ≡ q.removed = ground arith in
      rw same h
  lane_step-AllDelivered closed done (leave c i cancelled) q h =
      elim (Option-cases (publish_select c done cancelled i q)) [
        | inl e ↦ rw (e, lane_step) h
        | inr ((q', r), e) ↦
            rw (e, lane_step) (rw (publish_select_removed c done cancelled i q q' r e) h)
      ]
  lane_step-AllDelivered closed done (consume c cancelled) q h =
      elim (Option-cases (consume_select c done cancelled q)) [
        | inl e ↦ rw (e, lane_step) h
        | inr ((q', r), e) ↦
            rw (e, lane_step) (consume_select-AllDelivered c done cancelled q q' r e h)
      ]
