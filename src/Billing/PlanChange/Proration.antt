-- ===== src/Billing/PlanChange/Proration.antt =====
-- The proration estimate of pkg/billing/plan_change.go.
use operator_os.Base.{
  ℕ, ◌≡◌, refl, ◌-◌, ◌≤◌, some, Bool-cases, inl, inr, arith, ℤ, pos, ◌-ℤ◌, ◌≤ℤ◌, leb,
}
use operator_os.Billing.Plans.{PlanId, BillingInterval, Plan}
use operator_os.Billing.Subscriptions.{Subscription}
use operator_os.Billing.PlanChange.Types.{Services}
use operator_os.Billing.PlanChange.Handlers.{monthly_price, prorate, estimate_proration}

module _ (sv : Services) where
  open sv use {catalogue, scale}

  prorate_between :
      (p q : Plan) (sub : Subscription) (i : BillingInterval) (at : ℕ) (d : ℤ)
      → d ≡ monthly_price sv q i -ℤ monthly_price sv p sub.billing_interval
      → ((r t : ℕ) → r ≤ t → (pos 0 ≤ℤ scale d r t) × (scale d r t ≤ℤ d))
      → pos 0 ≤ℤ d
      → sub.current_period_start ≤ at
      → (pos 0 ≤ℤ prorate sv p q sub i at) × (prorate sv p q sub i at ≤ℤ d)
  unfolding prorate
  prorate_between p q sub i at d e law up started =
      rw (← e) (elim (Bool-cases (leb sub.current_period_end sub.current_period_start)) [
        | inl y ↦ rw y (up, omega arith)
        | inr n ↦ rw n (elim (Bool-cases (leb sub.current_period_end at)) [
          | inl y ↦ rw y (omega arith, up)
          | inr m ↦ rw m (
              law (sub.current_period_end - at) (sub.current_period_end - sub.current_period_start)
                (omega arith))
        ])
      ])

  -- If the float product of a price difference that is not negative and a fraction of at most one lies between
  -- zero and the difference, then a change to a plan that costs no less, in a period that has begun, is
  -- prorated to an amount between zero and the difference of the monthly prices.
  pub estimate_proration_bounds :
      (sub : Subscription) (new : PlanId) (i : BillingInterval) (at : ℕ) (p q : Plan)
      → catalogue sub.plan_id ≡ some p
      → catalogue new ≡ some q
      → ((r t : ℕ)
          → r ≤ t
          → (pos 0 ≤ℤ scale (monthly_price sv q i -ℤ monthly_price sv p sub.billing_interval) r t)
            × (scale (monthly_price sv q i -ℤ monthly_price sv p sub.billing_interval) r t
                ≤ℤ monthly_price sv q i -ℤ monthly_price sv p sub.billing_interval))
      → pos 0 ≤ℤ monthly_price sv q i -ℤ monthly_price sv p sub.billing_interval
      → sub.current_period_start ≤ at
      → (pos 0 ≤ℤ estimate_proration sv sub new i at)
        × (estimate_proration sv sub new i at
            ≤ℤ monthly_price sv q i -ℤ monthly_price sv p sub.billing_interval)
  unfolding estimate_proration
  estimate_proration_bounds sub new i at p q a b law up started =
      rw (a, b) (prorate_between p q sub i at _ refl law up started)
