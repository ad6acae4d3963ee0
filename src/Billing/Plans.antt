-- ===== src/Billing/Plans.antt =====
-- pkg/billing/plans.go. A string type with named constants is a data type with a constructor for
-- each constant and one for any other text; the empty text is `unset` where the code gives it a
-- meaning.
use operator_os.Base.{Bool, true, false, Option, Text, ℤ, is_zero}

pub data PlanId : Type 0 where
  free starter pro enterprise : PlanId
  other : Text → PlanId

pub data BillingInterval : Type 0 where
  monthly yearly none_interval unset : BillingInterval
  other_interval : Text → BillingInterval

unfoldable pub valid_plan_id : PlanId → Bool
valid_plan_id free = true
valid_plan_id starter = true
valid_plan_id pro = true
valid_plan_id enterprise = true
valid_plan_id (other t) = false

abbrev pub is_free : PlanId → Bool
is_free free = true
is_free _ = false

-- The fields that the modelled code reads.
pub record Plan : Type 0 where
  pub id : PlanId
  pub price_monthly : ℤ
  pub price_yearly : ℤ
  pub max_messages_per_month : ℤ
  pub max_tokens_per_month : ℤ
  pub active : Bool

-- `Get`: nil for a plan that the map does not hold.
abbrev pub Catalogue : Type 0
Catalogue = PlanId → Option Plan

unfoldable pub is_unlimited : ℤ → Bool
is_unlimited v = is_zero v
