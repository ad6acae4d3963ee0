-- ===== src/Billing/PlanChange/Safety.antt =====
-- What a plan change leaves behind: pkg/billing/plan_change.go.
use operator_os.Base.{
  ℕ, ◌≡◌, refl, Bool, true, false, Option, none, some, List, ◌∷◌, Text, is_empty, Bool-cases,
  Option-cases, ◌⊎◌, inl, inr, arith,
}
use operator_os.Billing.Plans.{PlanId, is_free, BillingInterval, valid_plan_id}
use operator_os.Billing.Subscriptions.{
  Subscription, StoreError, Stored, stored, refused, create, update,
}
use operator_os.Billing.PlanChange.Types.{
  PlanChangeDirection, PlanChangeMode, PlanChangeRequest, PlanChangeResult, Stripe, Services, State,
  Changed, ok, err, compare_plans, is_immediate, is_same, is_known, choose_mode, current_plan,
  immediate,
}
use operator_os.Billing.PlanChange.Handlers.{
  managed, finish, after_stripe, handle_downgrade_to_free, handle_upgrade_from_free,
  new_subscription, handle_paid_plan_change, schedule, scheduled, estimate_proration,
}
use operator_os.Billing.PlanChange.Service.{
  dispatch, change_known, change_plan, preview, new_result, current_subscription,
}

pub Stored-cases :
    (s : Stored)
    → ((e : StoreError) × (s ≡ refused e)) ⊎ ((rows : List Subscription) × (s ≡ stored rows))
Stored-cases (refused e) = inl (e, refl)
Stored-cases (stored rows) = inr (rows, refl)

module _ (sv : Services) where
  open sv use {World, exec, now, new_id, catalogue, query}

  -- A failure leaves the rows and the callbacks as they were. A success has the direction and the
  -- plans given, and is what the callback gets, once.
  abbrev pub Ends : State World → PlanChangeDirection → PlanId → PlanId → Changed World → Type 0
  Ends st d old new (ok r st') =
      (r.direction ≡ d)
      × (r.previous_plan ≡ old)
      × (r.new_plan ≡ new)
      × ((user : Text) × (st'.notified ≡ (user, r) ∷ st.notified))
  Ends st d old new (err e st') = (st'.rows ≡ st.rows) × (st'.notified ≡ st.notified)

  module _ (st : State World) (d : PlanChangeDirection) (old new : PlanId) where
    finish-Ends :
        (sub : Subscription) (res : PlanChangeResult) (w : World)
        → res.direction ≡ d
        → res.previous_plan ≡ old
        → res.new_plan ≡ new
        → Ends st d old new (finish sv st sub res w)
    unfolding finish
    finish-Ends sub res w a b c =
        elim (Stored-cases (update (exec w).0 (now (exec w).1) sub st.rows)) [
          | inl (e, h) ↦ rw (h, finish) (refl, refl)
          | inr (rows, h) ↦ rw (h, finish) (a, b, c, (sub.user_id, refl))
        ]

    after_stripe-Ends :
        (r : Bool × World) (k : World → Changed World)
        → ((w : World) → Ends st d old new (k w))
        → Ends st d old new (after_stripe sv st r k)
    after_stripe-Ends (true, w) k h = h w
    after_stripe-Ends (false, w) k h = (refl, refl)

    scheduled-Ends :
        (sub moved : Subscription) (res : PlanChangeResult) (r : Bool × World)
        → res.direction ≡ d
        → res.previous_plan ≡ old
        → res.new_plan ≡ new
        → Ends st d old new (scheduled sv sub moved res st r)
    scheduled-Ends sub moved res (true, w) a b c = finish-Ends sub res w a b c
    scheduled-Ends sub moved res (false, w) a b c = finish-Ends moved res w a b c

    module _ (res : PlanChangeResult) (a : res.direction ≡ d) (b : res.previous_plan ≡ old)
        (c : res.new_plan ≡ new) where
      downgrade-Ends :
          (sub : Option Subscription) (mode : PlanChangeMode) (at : ℕ)
          → Ends st d old new (handle_downgrade_to_free sv st sub mode at res)
      unfolding handle_downgrade_to_free
      downgrade-Ends none mode at = (refl, refl)
      downgrade-Ends (some sub) mode at = elim (Bool-cases (is_immediate mode)) [
        | inl y ↦
            rw y (
              after_stripe-Ends _ _ (λ w. finish-Ends _ (record res { effective_at = at }) w a b c))
        | inr n ↦ rw n (
            after_stripe-Ends _ _
              (λ w. finish-Ends _ (record res { effective_at = sub.current_period_end }) w a b c))
      ]

      upgrade-Ends :
          (user : Text) (p : PlanId) (i : BillingInterval) (at : ℕ)
          → Ends st d old new (handle_upgrade_from_free sv st user p i at res)
      unfolding handle_upgrade_from_free
      upgrade-Ends user p i at =
          let (fresh, w1) = new_id st.world in
          let (going, w) = exec w1 in
          elim (Stored-cases
            (create going (now w) (new_subscription sv fresh user p i at) st.rows)) [
              | inl (e, h) ↦ rw (h, handle_upgrade_from_free) (refl, refl)
              | inr (rows, h) ↦ rw (h, handle_upgrade_from_free) (a, b, c, (user, refl))
            ]

      schedule-Ends :
          (r : Option (Stripe World)) (sub : Subscription) (p : PlanId) (i : BillingInterval)
          (at : ℕ)
          → Ends st d old new (schedule sv r st sub p i at res)
      schedule-Ends none sub p i at =
          finish-Ends _ (record res { effective_at = at; mode = immediate }) st.world a b c
      schedule-Ends (some s) sub p i at =
          scheduled-Ends sub _ (record res { effective_at = sub.current_period_end }) _ a b c

    paid-Ends :
        (sub : Subscription) (p : PlanId) (i : BillingInterval) (mode : PlanChangeMode) (at : ℕ)
        (res : PlanChangeResult)
        → res.direction ≡ d
        → res.previous_plan ≡ old
        → res.new_plan ≡ new
        → Ends st d old new (handle_paid_plan_change sv st sub p i mode at res)
    unfolding handle_paid_plan_change
    paid-Ends sub p i mode at res a b c =
        let res' : PlanChangeResult = record res {
          proration_amount = estimate_proration sv sub p i at;
        } in
        elim (Bool-cases (is_immediate mode)) [
          | inl y ↦ rw y (
              after_stripe-Ends _ _
                (λ w. finish-Ends _ (record res' { effective_at = at }) w a b c))
          | inr n ↦ rw n (schedule-Ends res' a b c (managed sv sub) sub p i at)
        ]

    dispatch-Ends :
        (user : Text) (sub : Option Subscription) (p : PlanId) (i : BillingInterval)
        (mode : PlanChangeMode) (at : ℕ) (res : PlanChangeResult)
        → res.direction ≡ d
        → res.previous_plan ≡ old
        → res.new_plan ≡ new
        → Ends st d old new (dispatch sv st user sub p i mode at res)
    unfolding dispatch
    dispatch-Ends user none p i mode at res a b c = elim (Bool-cases (is_free p)) [
      | inl y ↦ rw y (downgrade-Ends res a b c none mode at)
      | inr n ↦ rw n (upgrade-Ends res a b c user p i at)
    ]
    dispatch-Ends user (some sub) p i mode at res a b c = elim (Bool-cases (is_free p)) [
      | inl y ↦ rw y (downgrade-Ends res a b c (some sub) mode at)
      | inr n ↦ rw n (elim (Bool-cases (is_free sub.plan_id)) [
        | inl y ↦ rw y (upgrade-Ends res a b c user p i at)
        | inr m ↦ rw m (paid-Ends sub p i mode at res a b c)
      ])
    ]

  -- What `ChangePlan` promises of its result, for the plan that the user is on and the one asked for.
  abbrev pub Promised : State World → PlanId → PlanId → Changed World → Type 0
  Promised st old new (ok r st') =
      (r.previous_plan ≡ old)
      × (r.new_plan ≡ new)
      × (r.direction ≡ compare_plans r.previous_plan new)
      × (is_same r.direction ≡ false)
      × ((user : Text) × (st'.notified ≡ (user, r) ∷ st.notified))
  Promised st old new (err e st') = (st'.rows ≡ st.rows) × (st'.notified ≡ st.notified)

  Ends-Promised :
      (st : State World) (old new : PlanId) (c : Changed World)
      → is_same (compare_plans old new) ≡ false
      → Ends st (compare_plans old new) old new c
      → Promised st old new c
  Ends-Promised st old new (ok r st') moves h = (h.1, h.2, rw (h.1) h.0, rw (h.0) moves, h.3)
  Ends-Promised st old new (err e st') moves h = h

  change_known-Promised :
      (st : State World) (user : Text) (sub : Option Subscription) (req : PlanChangeRequest)
      → Promised st (current_plan sub) req.new_plan_id (change_known sv st user sub req)
  unfolding change_known
  change_known-Promised st user sub req =
      let d = compare_plans (current_plan sub) req.new_plan_id in
      elim (Bool-cases (is_same d)) [
        | inl y ↦ rw y (refl, refl)
        | inr n ↦ rw n (elim (Bool-cases (is_known (choose_mode req.mode d))) [
          | inl k ↦ rw k (
              Ends-Promised st (current_plan sub) req.new_plan_id _ n (
                dispatch-Ends st d (current_plan sub) req.new_plan_id user sub _ _ _ _
                  (new_result sv d (choose_mode req.mode d) (current_plan sub) req.new_plan_id) refl
                  refl refl))
          | inr u ↦ rw u (refl, refl)
        ])
      ]

  -- The plan that the user is on when a change or a preview reads the store.
  abbrev pub plan_of : State World → Text → PlanId
  plan_of st user = current_plan (current_subscription sv (query st.world).0 user st.rows)

  -- For every request, whatever Stripe and the database do: a failed `ChangePlan` leaves the
  -- subscriptions and the callbacks as they were; a success is from the user's plan to the plan asked
  -- for, in the direction of their order, which is up or down, and the callback gets this result once.
  pub change_plan-Promised :
      (st : State World) (user : Text) (req : PlanChangeRequest)
      → Promised st (plan_of st user) req.new_plan_id (change_plan sv st user req)
  unfolding change_plan
  change_plan-Promised st user req = elim (Bool-cases (is_empty user)) [
    | inl y ↦ rw y (refl, refl)
    | inr n ↦ rw n (elim (Bool-cases (valid_plan_id req.new_plan_id)) [
      | inr m ↦ rw m (refl, refl)
      | inl y ↦ rw y (elim (Option-cases (catalogue req.new_plan_id)) [
        | inl e ↦ rw (e, change_plan) (refl, refl)
        | inr (plan, e) ↦
            rw (e, change_plan)
              (elim (Bool-cases plan.active) [
                | inl open_plan ↦
                    let (found, w) = query st.world in
                    rw open_plan (
                      change_known-Promised (record st { world = w }) user
                        (current_subscription sv found user st.rows) req)
                | inr shut ↦ rw shut (refl, refl)
              ])
      ])
    ])
  ]

  -- What `Preview` says, for the plan that the user is on and the one asked for.
  abbrev Announced : State World → PlanId → PlanId → Changed World → Type 0
  Announced st old new (ok p st') =
      (p.direction ≡ compare_plans old new)
      × (p.previous_plan ≡ old)
      × (p.new_plan ≡ new)
      × (st'.rows ≡ st.rows)
      × (st'.notified ≡ st.notified)
  Announced st old new (err e st') = Unit {0}

  preview-Announced :
      (st : State World) (user : Text) (req : PlanChangeRequest)
      → Announced st (plan_of st user) req.new_plan_id (preview sv st user req)
  unfolding preview
  preview-Announced st user req = elim (Bool-cases (is_empty user)) [
    | inl y ↦ rw y tt
    | inr n ↦ rw n (elim (Bool-cases (valid_plan_id req.new_plan_id)) [
      | inr m ↦ rw m tt
      | inl y ↦ rw y (elim (Option-cases (catalogue req.new_plan_id)) [
        | inl e ↦ rw (e, preview) tt
        | inr (plan, e) ↦ rw (e, preview) (refl, refl, refl, refl, refl)
      ])
    ])
  ]

  -- A preview that succeeds announces the plans and the direction of the change that succeeds on the
  -- same state, and it changes neither the subscriptions nor the callbacks.
  pub preview_agrees :
      (st : State World) (user : Text) (req : PlanChangeRequest) (p r : PlanChangeResult)
      (sp sr : State World)
      → preview sv st user req ≡ ok p sp
      → change_plan sv st user req ≡ ok r sr
      → (p.direction ≡ r.direction)
        × (p.previous_plan ≡ r.previous_plan)
        × (p.new_plan ≡ r.new_plan)
        × (sp.rows ≡ st.rows)
        × (sp.notified ≡ st.notified)
  preview_agrees st user req p r sp sr a b =
      let v = preview-Announced st user req in
      let c = change_plan-Promised st user req in
      let v' : Announced st (plan_of st user) req.new_plan_id (ok p sp) = rw a at v in
      let c' : Promised st (plan_of st user) req.new_plan_id (ok r sr) = rw b at c in ground arith
