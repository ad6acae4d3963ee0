-- ===== src/Billing/Subscriptions.antt =====
-- pkg/billing/subscription.go. The table is the list of its rows, newest first; a statement fails
-- where `exec` says so. `created_at DESC LIMIT 1` takes the first row with the latest time.
pub mod Table
use operator_os.Base.{
  ℕ, ◌≡◌, refl, Bool, true, false, ◌||◌, not, Option, none, some, List, [], ◌∷◌, Text, text_eq,
  is_empty, ltb, ◌==◌, if◌then◌else◌,
}
use operator_os.Billing.Plans.{PlanId, BillingInterval, valid_plan_id}

pub data SubscriptionStatus : Type 0 where
  active trialing past_due canceled expired paused unset : SubscriptionStatus
  other_status : Text → SubscriptionStatus

unfoldable pub valid_subscription_status : SubscriptionStatus → Bool
valid_subscription_status active = true
valid_subscription_status trialing = true
valid_subscription_status past_due = true
valid_subscription_status canceled = true
valid_subscription_status expired = true
valid_subscription_status paused = true
valid_subscription_status unset = false
valid_subscription_status (other_status t) = false

pub record Subscription : Type 0 where
  pub id : Text
  pub user_id : Text
  pub plan_id : PlanId
  pub status : SubscriptionStatus
  pub billing_interval : BillingInterval
  pub current_period_start : ℕ
  pub current_period_end : ℕ
  pub cancel_at_period_end : Bool
  pub stripe_customer_id : Text
  pub stripe_sub_id : Text
  pub created_at : ℕ
  pub updated_at : ℕ

abbrev grants_access : SubscriptionStatus → Bool
grants_access active = true
grants_access trialing = true
grants_access past_due = true
grants_access _ = false

unfoldable pub is_active : Subscription → Bool
is_active s = grants_access s.status

pub data StoreError : Type 0 where
  empty_id invalid_plan invalid_status duplicate_id not_found failed : StoreError

pub data Stored : Type 0 where
  stored : List Subscription → Stored
  refused : StoreError → Stored

unfoldable pub find_by_id : Text → List Subscription → Option Subscription
find_by_id i [] = none
find_by_id i (r ∷ rs) = if text_eq r.id i then some r else find_by_id i rs

-- The later of two rows of a user; the first one where the times are equal.
abbrev pub later : Subscription → Option Subscription → Option Subscription
later r none = some r
later r (some s) = if ltb r.created_at s.created_at then some s else some r

unfoldable pub get_by_user_id : Text → List Subscription → Option Subscription
get_by_user_id u [] = none
get_by_user_id u (r ∷ rs) =
    let rest = get_by_user_id u rs in if text_eq r.user_id u then later r rest else rest

-- `if sub.Status == "" { sub.Status = SubStatusActive }`
abbrev default_status : SubscriptionStatus → SubscriptionStatus
default_status unset = active
default_status s = s

abbrev pub is_found : Option Subscription → Bool
is_found none = false
is_found (some s) = true

-- `exec` says whether the INSERT goes through when the key is new.
unfoldable pub create : Bool → ℕ → Subscription → List Subscription → Stored
unfolding valid_subscription_status
create exec now sub rows =
    let status = default_status sub.status in
    if is_empty sub.id
    then refused empty_id
    else if not (valid_plan_id sub.plan_id)
    then refused invalid_plan
    else if not (valid_subscription_status status)
    then refused invalid_status
    else if is_found (find_by_id sub.id rows)
    then refused duplicate_id
    else if not exec
    then refused failed
    else stored (
        record sub {
          status = status;
          created_at = if sub.created_at == 0 then now else sub.created_at;
          updated_at = now;
        }
        ∷ rows)

-- The columns that UPDATE sets, on the row with the id.
abbrev pub write_row : Subscription → ℕ → Subscription → Subscription
write_row sub now r = record r {
  plan_id = sub.plan_id;
  status = sub.status;
  billing_interval = sub.billing_interval;
  current_period_start = sub.current_period_start;
  current_period_end = sub.current_period_end;
  cancel_at_period_end = sub.cancel_at_period_end;
  stripe_customer_id = sub.stripe_customer_id;
  stripe_sub_id = sub.stripe_sub_id;
  updated_at = now;
}

unfoldable pub write_rows : Subscription → ℕ → List Subscription → List Subscription
write_rows sub now [] = []
write_rows sub now (r ∷ rs) =
    (if text_eq r.id sub.id then write_row sub now r else r) ∷ write_rows sub now rs

unfoldable pub update : Bool → ℕ → Subscription → List Subscription → Stored
unfolding valid_subscription_status write_rows
update exec now sub rows =
    if not (valid_subscription_status sub.status)
    then refused invalid_status
    else if not (valid_plan_id sub.plan_id)
    then refused invalid_plan
    else if not exec
    then refused failed
    else if is_found (find_by_id sub.id rows)
    then stored (write_rows sub now rows)
    else refused not_found
