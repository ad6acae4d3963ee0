-- ===== src/Billing/PlanChange/Handlers.antt =====
-- pkg/billing/plan_change.go: proration and the three handlers.
use operator_os.Base.{
  ℕ, ◌-◌, Bool, true, false, Option, none, some, List, [], ◌∷◌, Text, is_empty, leb, if◌then◌else◌,
  ℤ, pos, quotient, ◌-ℤ◌,
}
use operator_os.Billing.Plans.{PlanId, free, BillingInterval, Plan}
use operator_os.Billing.Subscriptions.{
  Subscription, SubscriptionStatus, stored, refused, create, update,
}
use operator_os.Billing.PlanChange.Types.{
  PlanChangeMode, PlanChangeResult, Stripe, Services, State, Changed, is_immediate, is_yearly,
  immediate, no_subscription, stripe_failed, store_failed, ok, err,
}

module _ (sv : Services) where
  open sv use {
    World, now, exec, query, new_id, add_month, add_year, scale, catalogue, price_map, stripe,
  }

  -- `s.stripe != nil && sub.StripeSubID != ""`
  unfoldable pub managed : Subscription → Option (Stripe World)
  managed sub = if is_empty sub.stripe_sub_id then none else stripe

  abbrev pub monthly_price : Plan → BillingInterval → ℤ
  monthly_price p i = if is_yearly i then quotient p.price_yearly 12 else p.price_monthly

  unfoldable pub prorate : Plan → Plan → Subscription → BillingInterval → ℕ → ℤ
  prorate old_plan new_plan sub new_interval at =
      let difference =
        monthly_price new_plan new_interval -ℤ monthly_price old_plan sub.billing_interval in
      if leb sub.current_period_end sub.current_period_start
      then difference
      else if leb sub.current_period_end at
      then pos 0
      else scale difference (sub.current_period_end - at)
          (sub.current_period_end - sub.current_period_start)

  abbrev pub with_both : Option Plan → Option Plan → (Plan → Plan → ℤ) → ℤ
  with_both none q f = pos 0
  with_both (some p) none f = pos 0
  with_both (some p) (some q) f = f p q

  unfoldable pub estimate_proration : Subscription → PlanId → BillingInterval → ℕ → ℤ
  unfolding prorate
  estimate_proration sub new_plan_id new_interval at =
      with_both (catalogue sub.plan_id) (catalogue new_plan_id)
        (λ p q. prorate p q sub new_interval at)

  abbrev pub price_of : Option (PlanId → BillingInterval → Text) → PlanId → BillingInterval → Text
  price_of none p i = []
  price_of (some m) p i = m p i

  abbrev pub update_item :
      Stripe World → Text → Text → Bool → Option (List Text) × World → Bool × World
  update_item st sub_id price pr (none, w) = (false, w)
  update_item st sub_id price pr (some [], w) = (false, w)
  update_item st sub_id price pr (some (item ∷ items), w) = st.post_update sub_id item price pr w

  -- No price map and no price for the plan both fail.
  unfoldable pub stripe_update_subscription :
      Stripe World → Text → PlanId → BillingInterval → Bool → World → Bool × World
  stripe_update_subscription st sub_id new_plan_id interval pr w =
      let price = price_of price_map new_plan_id interval in
      if is_empty price
      then (false, w)
      else update_item st sub_id price pr (st.get_subscription sub_id w)

  -- The end of each handler: store the subscription, then call back.
  unfoldable pub finish : State World → Subscription → PlanChangeResult → World → Changed World
  finish st sub res w0 =
      let (going, w) = exec w0 in
      let at = now w in
      elim (update going at sub st.rows) [
        | refused e ↦ err (store_failed e) (record st { world = w })
        | stored rows ↦
            let res' = record res { subscription = some (record sub { updated_at = at }) } in
            ok res'
              (record st { rows = rows; notified = (sub.user_id, res') ∷ st.notified; world = w })
      ]

  -- Goes on if the call of Stripe succeeded, or if there was none to make.
  abbrev pub after_stripe : State World → Bool × World → (World → Changed World) → Changed World
  after_stripe st (true, w) k = k w
  after_stripe st (false, w) k = err stripe_failed (record st { world = w })

  abbrev pub cancel_now : Option (Stripe World) → Text → World → Bool × World
  cancel_now none i w = (true, w)
  cancel_now (some s) i w = s.cancel_immediately i w

  abbrev pub cancel_later : Option (Stripe World) → Text → World → Bool × World
  cancel_later none i w = (true, w)
  cancel_later (some s) i w = s.cancel_subscription i w

  unfoldable pub handle_downgrade_to_free :
      State World → Option Subscription → PlanChangeMode → ℕ → PlanChangeResult → Changed World
  unfolding managed finish
  handle_downgrade_to_free st none mode at res = err no_subscription st
  handle_downgrade_to_free st (some sub) mode at res =
      if is_immediate mode
      then after_stripe st (cancel_now (managed sub) sub.stripe_sub_id st.world) (
          finish st
            (record sub {
              status = SubscriptionStatus.canceled;
              plan_id = free;
              cancel_at_period_end = false;
            })
            (record res { effective_at = at }))
      else after_stripe st (cancel_later (managed sub) sub.stripe_sub_id st.world) (
          finish st (record sub { cancel_at_period_end = true })
            (record res { effective_at = sub.current_period_end }))

  abbrev pub new_subscription : Text → Text → PlanId → BillingInterval → ℕ → Subscription
  new_subscription fresh user_id new_plan_id interval at = record {
    id = fresh;
    user_id = user_id;
    plan_id = new_plan_id;
    status = SubscriptionStatus.active;
    billing_interval = interval;
    current_period_start = at;
    current_period_end = if is_yearly interval then add_year at else add_month at;
    cancel_at_period_end = false;
    stripe_customer_id = [];
    stripe_sub_id = [];
    created_at = 0;
    updated_at = 0;
  }

  unfoldable pub handle_upgrade_from_free :
      State World → Text → PlanId → BillingInterval → ℕ → PlanChangeResult → Changed World
  handle_upgrade_from_free st user_id new_plan_id interval at res =
      let (fresh, w1) = new_id st.world in
      let (going, w) = exec w1 in
      let sub = new_subscription fresh user_id new_plan_id interval at in
      elim (create going (now w) sub st.rows) [
        | refused e ↦ err (store_failed e) (record st { world = w })
        | stored rows ↦
            let res' = record res {
              effective_at = at;
              mode = immediate;
              subscription = some (record sub { created_at = now w; updated_at = now w });
            } in
            ok res' (record st { rows = rows; notified = (user_id, res') ∷ st.notified; world = w })
      ]

  abbrev pub update_now :
      Option (Stripe World) → Text → PlanId → BillingInterval → World → Bool × World
  update_now none i p v w = (true, w)
  update_now (some s) i p v w = stripe_update_subscription s i p v true w

  -- At the period's end with Stripe: a call that fails falls back to the local row.
  abbrev pub scheduled :
      Subscription → Subscription → PlanChangeResult → State World → Bool × World → Changed World
  scheduled sub moved res st (true, w) = finish st sub res w
  scheduled sub moved res st (false, w) = finish st moved res w

  abbrev pub schedule :
      Option (Stripe World)
      → State World
      → Subscription
      → PlanId
      → BillingInterval
      → ℕ
      → PlanChangeResult
      → Changed World
  schedule none st sub p i at res =
      finish st (record sub { plan_id = p; billing_interval = i })
        (record res { effective_at = at; mode = immediate }) st.world
  schedule (some s) st sub p i at res =
      scheduled sub (record sub { plan_id = p; billing_interval = i })
        (record res { effective_at = sub.current_period_end }) st
        (stripe_update_subscription s sub.stripe_sub_id p i false st.world)

  unfoldable pub handle_paid_plan_change :
      State World
      → Subscription
      → PlanId
      → BillingInterval
      → PlanChangeMode
      → ℕ
      → PlanChangeResult
      → Changed World
  unfolding managed finish stripe_update_subscription
  handle_paid_plan_change st sub p i mode at res0 =
      let res = record res0 { proration_amount = estimate_proration sub p i at } in
      if is_immediate mode
      then after_stripe st (update_now (managed sub) sub.stripe_sub_id p i st.world) (
          finish st (record sub { plan_id = p; billing_interval = i; cancel_at_period_end = false })
            (record res { effective_at = at }))
      else schedule (managed sub) st sub p i at res
