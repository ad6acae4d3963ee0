-- ===== src/Bus/Reached.antt =====
-- The states that a bus of pkg/bus/bus.go can reach, whatever its publishers and consumers do.
use operator_os.Base.{
  ◌≡◌, refl, sym, ap, ◌∙◌, Bool, true, false, List, [], ◌∷◌, ◌++◌, map, Option-cases, ◌⊎◌, inl, inr,
  arith,
}
use operator_os.Bus.MessageBus.{
  Lane, Removal, delivered, drained, take_head, MessageBus, Closing, idle, signalling,
  draining_inbound, draining_outbound, draining_media, finished, begin_close, close_step, Action,
  on_inbound, on_outbound, on_outbound_media, close_called, close_continued, step, run,
  new_message_bus,
}
use operator_os.Bus.Delivery.{
  IsLane, AllDelivered, message, take_head-IsLane, lane_step-IsLane, lane_step-AllDelivered,
}

-- The flags at each point of `Close`.
abbrev pub closed_at : Closing → Bool
closed_at idle = false
closed_at _ = true

abbrev pub done_at : Closing → Bool
done_at idle = false
done_at signalling = false
done_at _ = true

-- The channels are in order and within their capacity, the flags say how far `Close` has come, and
-- nothing is drained before it has closed `done`.
pub record IsBus (b : MessageBus) : Type 0 where
  pub inbound : IsLane b.inbound
  pub outbound : IsLane b.outbound
  pub outbound_media : IsLane b.outbound_media
  pub closed_flag : b.closed ≡ closed_at b.closing
  pub done_flag : b.done ≡ done_at b.closing
  pub undrained :
      (b.done ≡ true)
      ⊎ (AllDelivered b.inbound.removed
          × AllDelivered b.outbound.removed
          × AllDelivered b.outbound_media.removed)

close_step-IsBus : (b : MessageBus) (c : Closing) → b.closing ≡ c → IsBus b → IsBus (close_step c b)
unfolding close_step
close_step-IsBus b idle e v = v
close_step-IsBus b signalling e v = ground arith
close_step-IsBus b draining_inbound e v = elim (Option-cases (take_head drained b.inbound)) [
  | inl f ↦ rw (f, close_step) (ground arith)
  | inr ((q, m), f) ↦
      let l = take_head-IsLane drained b.inbound q m (λ x. refl) f v.inbound in
      rw (f, close_step) (ground arith)
]
close_step-IsBus b draining_outbound e v = elim (Option-cases (take_head drained b.outbound)) [
  | inl f ↦ rw (f, close_step) (ground arith)
  | inr ((q, m), f) ↦
      let l = take_head-IsLane drained b.outbound q m (λ x. refl) f v.outbound in
      rw (f, close_step) (ground arith)
]
close_step-IsBus b draining_media e v = elim (Option-cases (take_head drained b.outbound_media)) [
  | inl f ↦ rw (f, close_step) (ground arith)
  | inr ((q, m), f) ↦
      let l = take_head-IsLane drained b.outbound_media q m (λ x. refl) f v.outbound_media in
      rw (f, close_step) (ground arith)
]
close_step-IsBus b finished e v = v

step-IsBus : (a : Action) (b : MessageBus) → IsBus b → IsBus (step a b)
unfolding step begin_close
step-IsBus (on_inbound a) b v =
    let l = lane_step-IsLane b.closed b.done a b.inbound v.inbound in
    elim v.undrained [
      | inl y ↦ ground arith
      | inr (i, o, m) ↦ let d = lane_step-AllDelivered b.closed b.done a b.inbound i in ground arith
    ]
step-IsBus (on_outbound a) b v =
    let l = lane_step-IsLane b.closed b.done a b.outbound v.outbound in
    elim v.undrained [
      | inl y ↦ ground arith
      | inr (i, o, m) ↦
          let d = lane_step-AllDelivered b.closed b.done a b.outbound o in ground arith
    ]
step-IsBus (on_outbound_media a) b v =
    let l = lane_step-IsLane b.closed b.done a b.outbound_media v.outbound_media in
    elim v.undrained [
      | inl y ↦ ground arith
      | inr (i, o, m) ↦
          let d = lane_step-AllDelivered b.closed b.done a b.outbound_media m in ground arith
    ]
step-IsBus close_called b v = ground arith
step-IsBus close_continued b v = close_step-IsBus b b.closing refl v

run-step-IsBus : (acts : List Action) (b : MessageBus) → IsBus b → IsBus (run acts b)
run-step-IsBus [] b v = v
run-step-IsBus (a ∷ acts) b v = run-step-IsBus acts (step a b) (step-IsBus a b v)

new_message_bus-IsBus : IsBus new_message_bus
unfolding new_message_bus
new_message_bus-IsBus = ground arith

-- Whatever publishers, consumers and `Close` do, in any order: each channel takes messages out in the
-- order in which it accepted them, none twice and none skipped, and holds the rest, at most 64; the
-- flags say how far `Close` has come; and before `Close` has closed `done` only consumers take out.
pub run-IsBus : (acts : List Action) → IsBus (run acts new_message_bus)
run-IsBus acts = run-step-IsBus acts new_message_bus new_message_bus-IsBus

module _ {ℓ} {M : Type ℓ} where
  -- What consumers were given.
  abbrev pub deliveries : List (Removal M) → List M
  deliveries [] = []
  deliveries (delivered m ∷ rs) = m ∷ deliveries rs
  deliveries (drained m ∷ rs) = deliveries rs

  deliveries-AllDelivered :
      (rs : List (Removal M)) → AllDelivered rs → map message rs ≡ deliveries rs
  deliveries-AllDelivered [] h = refl
  deliveries-AllDelivered (delivered m ∷ rs) h =
      ap {B = List M} (λ l. m ∷ l) (deliveries-AllDelivered rs h.1)
  deliveries-AllDelivered (drained m ∷ rs) h = absurd h.0

  -- Everything accepted has been given to consumers, in order, or waits in the buffer.
  abbrev pub LosesNothing : Lane M → Type ℓ
  LosesNothing q = q.accepted ≡ deliveries q.removed ++ q.buffer

  AllDelivered-LosesNothing : (q : Lane M) → IsLane q → AllDelivered q.removed → LosesNothing q
  AllDelivered-LosesNothing q v h =
      v.in_order ∙ ap (λ l. l ++ q.buffer) (deliveries-AllDelivered q.removed h)

-- As long as `Close` has not been called no accepted message is lost: on each channel the accepted
-- messages are those that consumers were given, in the same order, and then the buffer.
pub open_bus-LosesNothing :
    (acts : List Action)
    → (run acts new_message_bus).closed ≡ false
    → LosesNothing (run acts new_message_bus).inbound
      × LosesNothing (run acts new_message_bus).outbound
      × LosesNothing (run acts new_message_bus).outbound_media
open_bus-LosesNothing acts h =
    let b = run acts new_message_bus in
    let v : IsBus b = run-IsBus acts in
    elim v.undrained [
      | inl y ↦ absurd (not_done b.closing (sym v.closed_flag ∙ h) (sym v.done_flag ∙ y))
      | inr (i, o, m) ↦ (
        AllDelivered-LosesNothing b.inbound v.inbound i,
        AllDelivered-LosesNothing b.outbound v.outbound o,
        AllDelivered-LosesNothing b.outbound_media v.outbound_media m,
      )
    ]
  where
    not_done : (c : Closing) → closed_at c ≡ false → done_at c ≡ true → ⊥
    not_done idle p q = cc
    not_done signalling p q = cc
    not_done draining_inbound p q = cc
    not_done draining_outbound p q = cc
    not_done draining_media p q = cc
    not_done finished p q = cc
