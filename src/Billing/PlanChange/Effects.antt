-- ===== src/Billing/PlanChange/Effects.antt =====
-- What the handlers of pkg/billing/plan_change.go write to the table.
use operator_os.Base.{
  ℕ, ◌≡◌, refl, Bool, true, false, some, List, Text, is_empty, Bool-cases, ◌⊎◌, inl, inr, arith,
}
use operator_os.Billing.Plans.{PlanId, free, BillingInterval, valid_plan_id, Plan}
use operator_os.Billing.Subscriptions.{
  Subscription, SubscriptionStatus, stored, update, find_by_id, get_by_user_id, write_row,
  write_rows, valid_subscription_status, is_found,
}
use operator_os.Billing.Subscriptions.Table.{update_writes}
use operator_os.Billing.PlanChange.Types.{
  PlanChangeMode, PlanChangeRequest, PlanChangeResult, Stripe, Services, State, Changed, ok, err,
  compare_plans, is_immediate, same, at_period_end, already_on_plan, plan_tier_order,
}
use operator_os.Billing.PlanChange.Handlers.{
  managed, finish, after_stripe, cancel_now, cancel_later, handle_downgrade_to_free,
  handle_paid_plan_change, schedule, scheduled, stripe_update_subscription, estimate_proration,
}
use operator_os.Billing.PlanChange.Safety.{Stored-cases}
use operator_os.Billing.PlanChange.Service.{change_known, change_plan}

compare_plans_self : (p : PlanId) → compare_plans p p ≡ same
unfolding compare_plans plan_tier_order
compare_plans_self p = ground arith

update_goes :
    (x : Bool) (t : ℕ) (s : Subscription) (rows : List Subscription)
    → x ≡ true
    → valid_subscription_status s.status ≡ true
    → valid_plan_id s.plan_id ≡ true
    → is_found (find_by_id s.id rows) ≡ true
    → update x t s rows ≡ stored (write_rows s t rows)
unfolding update
update_goes x t s rows a b c d = rw (a, b, c, d)

module _ (sv : Services) where
  open sv use {World, exec, now, catalogue, query}

  -- A row that came from the row before by writing the columns of `sub`.
  abbrev pub Saved : State World → Subscription → State World → Type 0
  Saved st sub st' =
      (old : Subscription) × (at : ℕ) × (find_by_id sub.id st.rows ≡ some old)
      × (find_by_id sub.id st'.rows ≡ some (write_row sub at old))

  finish_saves :
      (st st' : State World) (sub : Subscription) (res r : PlanChangeResult) (w : World)
      → finish sv st sub res w ≡ ok r st'
      → (r.effective_at ≡ res.effective_at) × (r.mode ≡ res.mode) × Saved st sub st'
  unfolding finish
  finish_saves st st' sub res r w h =
      elim (Stored-cases (update (exec w).0 (now (exec w).1) sub st.rows)) [
        | inl (e, u) ↦ absurd (ground arith)
        | inr (rows, u) ↦
            let ((old, f, g), other) =
              update_writes (exec w).0 (now (exec w).1) sub st.rows rows sub.id u in
            (ground arith, ground arith, (old, now (exec w).1, f, ground (arith, g)))
      ]

  after_stripe_ok :
      (st st' : State World) (r : PlanChangeResult) (b : Bool × World) (k : World → Changed World)
      → after_stripe sv st b k ≡ ok r st'
      → (w : World) × (k w ≡ ok r st')
  after_stripe_ok st st' r (true, w) k h = (w, h)
  after_stripe_ok st st' r (false, w) k h = cc

  -- A downgrade to the free plan that succeeds has written the user's row: at once, the row is on
  -- the free plan, canceled, with no cancellation pending, effective now; otherwise the row is marked
  -- to be canceled, keeps its plan and status, and the change is effective at the period's end.
  pub downgrade_to_free_effect :
      (st st' : State World) (sub : Subscription) (mode : PlanChangeMode) (at : ℕ)
      (res r : PlanChangeResult)
      → handle_downgrade_to_free sv st (some sub) mode at res ≡ ok r st'
      → (row : Subscription) × (find_by_id sub.id st'.rows ≡ some row)
        × (((is_immediate mode ≡ true)
              × (row.plan_id ≡ free)
              × (row.status ≡ SubscriptionStatus.canceled)
              × (row.cancel_at_period_end ≡ false)
              × (r.effective_at ≡ at))
            ⊎ ((is_immediate mode ≡ false)
                × (row.plan_id ≡ sub.plan_id)
                × (row.status ≡ sub.status)
                × (row.cancel_at_period_end ≡ true)
                × (r.effective_at ≡ sub.current_period_end)))
  unfolding handle_downgrade_to_free
  downgrade_to_free_effect st st' sub mode at res r h = elim (Bool-cases (is_immediate mode)) [
    | inl y ↦
        let gone : Subscription = record sub {
          status = SubscriptionStatus.canceled;
          plan_id = free;
          cancel_at_period_end = false;
        } in
        let (w, k) =
          after_stripe_ok st st' r (cancel_now sv (managed sv sub) sub.stripe_sub_id st.world)
            (finish sv st gone (record res { effective_at = at })) (rw y at h) in
        let (e, m, (old, t, f, g)) =
          finish_saves st st' gone (record res { effective_at = at }) r w k in
        (write_row gone t old, g, inl (y, refl, refl, refl, e))
    | inr n ↦
        let marked : Subscription = record sub { cancel_at_period_end = true } in
        let (w, k) =
          after_stripe_ok st st' r (cancel_later sv (managed sv sub) sub.stripe_sub_id st.world)
            (finish sv st marked (record res { effective_at = sub.current_period_end }))
            (rw n at h) in
        let (e, m, (old, t, f, g)) =
          finish_saves st st' marked (record res { effective_at = sub.current_period_end }) r w k in
        (write_row marked t old, g, inr (n, refl, refl, refl, e))
  ]

  finish_ok :
      (st : State World) (sub : Subscription) (res : PlanChangeResult) (w : World)
      → (exec w).0 ≡ true
      → valid_subscription_status sub.status ≡ true
      → valid_plan_id sub.plan_id ≡ true
      → is_found (find_by_id sub.id st.rows) ≡ true
      → (r : PlanChangeResult) × (st' : State World) × (finish sv st sub res w ≡ ok r st')
  unfolding finish
  finish_ok st sub res w a b c d =
      rw (update_goes (exec w).0 (now (exec w).1) sub st.rows a b c d, finish) (_, _, refl)

  -- A change that is scheduled for the period's end and that Stripe refuses is reported as effective
  -- at the period's end, yet the stored row is on the new plan at once.
  pub refused_schedule_applies_now :
      (st : State World) (sub : Subscription) (p : PlanId) (i : BillingInterval) (at : ℕ)
      (res : PlanChangeResult) (s : Stripe World) (w : World)
      → managed sv sub ≡ some s
      → stripe_update_subscription sv s sub.stripe_sub_id p i false st.world ≡ (false, w)
      → (exec w).0 ≡ true
      → valid_subscription_status sub.status ≡ true
      → valid_plan_id p ≡ true
      → is_found (find_by_id sub.id st.rows) ≡ true
      → (r : PlanChangeResult) × (st' : State World) × (row : Subscription)
        × (handle_paid_plan_change sv st sub p i at_period_end at res ≡ ok r st')
        × (r.effective_at ≡ sub.current_period_end)
        × (find_by_id sub.id st'.rows ≡ some row)
        × (row.plan_id ≡ p)
  unfolding handle_paid_plan_change
  refused_schedule_applies_now st sub p i at res s w a b c d e f =
      let moved : Subscription = record sub { plan_id = p; billing_interval = i } in
      let res' : PlanChangeResult = record res {
        proration_amount = estimate_proration sv sub p i at;
        effective_at = sub.current_period_end;
      } in
      let (r, st', g) = finish_ok st moved res' w c d e f in
      let (h, m, (old, t, j, k)) = finish_saves st st' moved res' r w g in
      (r, st', write_row moved t old, rw (a, schedule) (rw (b, scheduled) g), h, k, refl)

  known_same :
      (st : State World) (user : Text) (req : PlanChangeRequest) (sub : Subscription)
      → sub.plan_id ≡ req.new_plan_id
      → change_known sv st user (some sub) req ≡ err already_on_plan st
  unfolding change_known
  known_same st user req sub g = rw g (rw (compare_plans_self req.new_plan_id) refl)

  -- A user who asks for the plan of the latest subscription is refused, whatever the status of that
  -- subscription is: also after it was canceled.
  pub same_plan_refused :
      (st : State World) (user : Text) (req : PlanChangeRequest) (sub : Subscription) (plan : Plan)
      → is_empty user ≡ false
      → valid_plan_id req.new_plan_id ≡ true
      → catalogue req.new_plan_id ≡ some plan
      → plan.active ≡ true
      → (query st.world).0 ≡ true
      → get_by_user_id user st.rows ≡ some sub
      → sub.plan_id ≡ req.new_plan_id
      → change_plan sv st user req ≡ err already_on_plan (record st { world = (query st.world).1 })
  unfolding change_plan
  same_plan_refused st user req sub plan a b c d e f g =
      rw (a, b)
        (rw (c, change_plan)
          (rw d
            (rw e (rw f (known_same (record st { world = (query st.world).1 }) user req sub g)))))
