-- ===== src/Billing/PlanChange/Types.antt =====
-- pkg/billing/plan_change.go: requests, results, the order of the plans, and the services that a
-- change calls.
use operator_os.Base.{
  ℕ, Bool, true, false, Option, none, some, List, Text, if◌then◌else◌, ℤ, pos, negsuc, ltb_ℤ,
}
use operator_os.Billing.Plans.{
  PlanId, free, starter, pro, enterprise, other, BillingInterval, monthly, yearly, none_interval,
  unset, other_interval, Catalogue,
}
use operator_os.Billing.Subscriptions.{Subscription, StoreError}

pub data PlanChangeDirection : Type 0 where
  upgrade downgrade same : PlanChangeDirection

pub data PlanChangeMode : Type 0 where
  immediate at_period_end no_mode : PlanChangeMode
  other_mode : Text → PlanChangeMode

pub record PlanChangeRequest : Type 0 where
  pub new_plan_id : PlanId
  pub interval : BillingInterval
  pub mode : PlanChangeMode

pub record PlanChangeResult : Type 0 where
  pub direction : PlanChangeDirection
  pub mode : PlanChangeMode
  pub previous_plan : PlanId
  pub new_plan : PlanId
  pub effective_at : ℕ
  pub subscription : Option Subscription
  pub proration_amount : ℤ

pub data ChangeError : Type 0 where
  user_required invalid_plan_id plan_not_found plan_not_available already_on_plan invalid_mode
        no_subscription stripe_failed :
      ChangeError
  store_failed : StoreError → ChangeError

-- The Stripe client (pkg/billing/stripe.go, HTTP): whether a call succeeds. `get_subscription`
-- gives the ids of the items.
pub record Stripe (W : Type 0) : Type 0 where
  pub cancel_immediately : Text → W → Bool × W
  pub cancel_subscription : Text → W → Bool × W
  pub get_subscription : Text → W → Option (List Text) × W
  pub post_update : Text → Text → Text → Bool → W → Bool × W

pub record Services : Type 1 where
  pub World : Type 0
  pub now : World → ℕ
  pub exec : World → Bool × World
  pub query : World → Bool × World
  pub new_id : World → Text × World
  pub add_month : ℕ → ℕ
  pub add_year : ℕ → ℕ
  pub scale : ℤ → ℕ → ℕ → ℤ
  pub catalogue : Catalogue
  pub price_map : Option (PlanId → BillingInterval → Text)
  pub stripe : Option (Stripe World)

pub record State (W : Type 0) : Type 0 where
  pub rows : List Subscription
  pub notified : List (Text × PlanChangeResult)
  pub world : W

pub data Changed (W : Type 0) : Type 0 where
  ok : PlanChangeResult → State W → Changed W
  err : ChangeError → State W → Changed W

unfoldable pub plan_tier_order : PlanId → ℤ
plan_tier_order free = pos 0
plan_tier_order starter = pos 1
plan_tier_order pro = pos 2
plan_tier_order enterprise = pos 3
plan_tier_order (other t) = negsuc 0

unfoldable pub compare_plans : PlanId → PlanId → PlanChangeDirection
unfolding plan_tier_order
compare_plans old_plan new_plan =
    let old_tier = plan_tier_order old_plan in
    let new_tier = plan_tier_order new_plan in
    if ltb_ℤ old_tier new_tier then upgrade else if ltb_ℤ new_tier old_tier then downgrade else same

unfoldable pub default_change_mode : PlanChangeDirection → PlanChangeMode
default_change_mode upgrade = immediate
default_change_mode downgrade = at_period_end
default_change_mode same = immediate

abbrev pub is_same : PlanChangeDirection → Bool
is_same same = true
is_same _ = false

abbrev pub is_immediate : PlanChangeMode → Bool
is_immediate immediate = true
is_immediate _ = false

abbrev pub is_known : PlanChangeMode → Bool
is_known immediate = true
is_known at_period_end = true
is_known _ = false

abbrev pub is_yearly : BillingInterval → Bool
is_yearly yearly = true
is_yearly _ = false

abbrev pub current_plan : Option Subscription → PlanId
current_plan none = free
current_plan (some sub) = sub.plan_id

abbrev pub choose_mode : PlanChangeMode → PlanChangeDirection → PlanChangeMode
choose_mode no_mode d = default_change_mode d
choose_mode immediate d = immediate
choose_mode at_period_end d = at_period_end
choose_mode (other_mode t) d = other_mode t

abbrev pub or_monthly : BillingInterval → BillingInterval
or_monthly unset = monthly
or_monthly none_interval = monthly
or_monthly monthly = monthly
or_monthly yearly = yearly
or_monthly (other_interval t) = other_interval t

abbrev pub own_interval : BillingInterval → Option Subscription → BillingInterval
own_interval unset (some sub) = sub.billing_interval
own_interval i _ = i

abbrev pub choose_interval : BillingInterval → Option Subscription → BillingInterval
choose_interval i sub = or_monthly (own_interval i sub)
