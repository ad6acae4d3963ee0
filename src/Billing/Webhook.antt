-- ===== src/Billing/Webhook.antt =====
-- pkg/billing/webhook.go: what an event of Stripe does to the subscriptions. An event is given decoded;
-- the table is that of pkg/billing/subscription.go, and `created_at DESC` takes the first row with the
-- latest time. The sessions of checkout cannot be resolved to a plan without a client of Stripe.
pub mod Late
pub mod Order
mod Examples
use operator_os.Base.{
  ℕ, zero, suc, Bool, true, false, ◌&&◌, not, Option, none, some, List, [], ◌∷◌, Text, codes,
  text_eq, is_empty, ltb, if◌then◌else◌,
}
use operator_os.Billing.Plans.{PlanId, starter, BillingInterval, monthly, yearly}
use operator_os.Billing.Subscriptions.{
  SubscriptionStatus, active, trialing, past_due, canceled, expired, paused, Subscription,
  StoreError, not_found, Stored, stored, refused, later, get_by_user_id, create, update,
}

pub record StripeCheckoutSession : Type 0 where
  pub mode : Text
  pub customer_id : Text
  pub subscription_id : Text
  pub client_reference_id : Text

-- `price_id` is that of the first item; a time of zero is missing.
pub record StripeSubscription : Type 0 where
  pub id : Text
  pub status : Text
  pub price_id : Option Text
  pub current_period_start : ℕ
  pub current_period_end : ℕ
  pub cancel_at_period_end : Bool

pub data StripeEvent : Type 0 where
  checkout_completed : StripeCheckoutSession → StripeEvent
  subscription_updated subscription_deleted : StripeSubscription → StripeEvent
  payment_failed payment_succeeded : Text → StripeEvent
  malformed unhandled : StripeEvent

pub record PlanPriceMap : Type 0 where
  pub monthly_prices : List (PlanId × Text)
  pub yearly_prices : List (PlanId × Text)

-- An event is processed at one time; `exec` says whether a write goes through, `reads` whether a query
-- does. `add_month` is AddDate(0, 1, 0).
pub record Request : Type 0 where
  pub now : ℕ
  pub new_id : Text
  pub exec : Bool
  pub reads : Bool
  pub add_month : ℕ → ℕ

pub data Outcome : Type 0 where
  done : List Subscription → Outcome
  decode_error missing_reference : Outcome
  store_error : StoreError → Outcome

abbrev pub outcome_of : Stored → Outcome
outcome_of (stored rows) = done rows
outcome_of (refused e) = store_error e

abbrev pub with_price : Text → List (PlanId × Text) → Option PlanId
with_price price [] = none
with_price price ((plan, p) ∷ ps) = if text_eq p price then some plan else with_price price ps

unfoldable pub plan_for_price : PlanPriceMap → Text → Option (PlanId × BillingInterval)
plan_for_price m price = elim (with_price price m.monthly_prices) [
  | some plan ↦ some (plan, monthly)
  | none ↦ elim (with_price price m.yearly_prices) [ some plan ↦ some (plan, yearly) | none ↦ none ]
]

unfoldable pub map_stripe_status : Text → Option SubscriptionStatus
map_stripe_status s =
    if text_eq s (codes "active")
    then some active
    else if text_eq s (codes "trialing")
    then some trialing
    else if text_eq s (codes "past_due")
    then some past_due
    else if text_eq s (codes "canceled")
    then some canceled
    else if text_eq s (codes "unpaid")
    then some canceled
    else if text_eq s (codes "paused")
    then some paused
    else if text_eq s (codes "incomplete_expired")
    then some expired
    else none

abbrev same_status : SubscriptionStatus → SubscriptionStatus → Bool
same_status active active = true
same_status trialing trialing = true
same_status past_due past_due = true
same_status paused paused = true
same_status canceled canceled = true
same_status expired expired = true
same_status _ _ = false

-- The first row of `ListByStatus` with the id of Stripe.
unfoldable pub newest_with : SubscriptionStatus → Text → List Subscription → Option Subscription
newest_with status stripe_id [] = none
newest_with status stripe_id (r ∷ rs) =
    let rest = newest_with status stripe_id rs in
    if same_status r.status status && text_eq r.stripe_sub_id stripe_id then later r rest else rest

abbrev pub or_first : Option Subscription → Option Subscription → Option Subscription
or_first none o = o
or_first (some s) o = some s

unfoldable pub find_by_stripe_sub_id : Bool → Text → List Subscription → Option Subscription
unfolding newest_with
find_by_stripe_sub_id reads stripe_id rows =
    if not reads
    then none
    else or_first (newest_with active stripe_id rows) (
        or_first (newest_with trialing stripe_id rows) (
          or_first (newest_with past_due stripe_id rows) (
            or_first (newest_with paused stripe_id rows) (
              or_first (newest_with canceled stripe_id rows)
                (newest_with expired stripe_id rows)))))

abbrev pub new_subscription : Request → StripeCheckoutSession → Subscription
new_subscription req session = record {
  id = req.new_id;
  user_id = session.client_reference_id;
  plan_id = starter;
  status = active;
  billing_interval = monthly;
  current_period_start = req.now;
  current_period_end = req.add_month req.now;
  cancel_at_period_end = false;
  stripe_customer_id = session.customer_id;
  stripe_sub_id = session.subscription_id;
  created_at = 0;
  updated_at = 0;
}

abbrev pub renewed : StripeCheckoutSession → Subscription → Subscription
renewed session existing = record existing {
  plan_id = starter;
  status = active;
  billing_interval = monthly;
  stripe_customer_id = session.customer_id;
  stripe_sub_id = session.subscription_id;
  cancel_at_period_end = false;
}

unfoldable pub handle_checkout_completed :
    Request → StripeCheckoutSession → List Subscription → Outcome
handle_checkout_completed req session rows =
    let existing = if req.reads then get_by_user_id session.client_reference_id rows else none in
    if not (text_eq session.mode (codes "subscription"))
    then done rows
    else if is_empty session.subscription_id
    then done rows
    else if is_empty session.client_reference_id
    then missing_reference
    else elim existing [
      | some s ↦ outcome_of (update req.exec req.now (renewed session s) rows)
      | none ↦ outcome_of (create req.exec req.now (new_subscription req session) rows)
    ]

abbrev pub with_status : Option SubscriptionStatus → Subscription → Subscription
with_status none sub = sub
with_status (some s) sub = record sub { status = s }

abbrev pub with_plan : Option (PlanId × BillingInterval) → Subscription → Subscription
with_plan none sub = sub
with_plan (some (plan, interval)) sub = record sub { plan_id = plan; billing_interval = interval }

abbrev pub priced_plan : PlanPriceMap → Option Text → Option (PlanId × BillingInterval)
priced_plan prices none = none
priced_plan prices (some price) = plan_for_price prices price

abbrev pub or_time : ℕ → ℕ → ℕ
or_time zero old = old
or_time (suc t) old = suc t

abbrev pub with_period : StripeSubscription → Subscription → Subscription
with_period s sub = record sub {
  current_period_start = or_time s.current_period_start sub.current_period_start;
  current_period_end = or_time s.current_period_end sub.current_period_end;
  cancel_at_period_end = s.cancel_at_period_end;
}

abbrev pub synchronised : PlanPriceMap → StripeSubscription → Subscription → Subscription
synchronised prices s sub =
    with_period s
      (with_plan (priced_plan prices s.price_id) (with_status (map_stripe_status s.status) sub))

-- The handlers that change the row that is found.
abbrev pub on_found : Request → Text → List Subscription → (Subscription → Outcome) → Outcome
on_found req stripe_id rows change = elim (find_by_stripe_sub_id req.reads stripe_id rows) [
  | none ↦ store_error not_found
  | some sub ↦ change sub
]

abbrev pub written : Request → List Subscription → Subscription → Outcome
written req rows sub = outcome_of (update req.exec req.now sub rows)

unfoldable pub handle_subscription_updated :
    PlanPriceMap → Request → StripeSubscription → List Subscription → Outcome
unfolding find_by_stripe_sub_id plan_for_price map_stripe_status
handle_subscription_updated prices req s rows =
    on_found req s.id rows (λ sub. written req rows (synchronised prices s sub))

unfoldable pub handle_subscription_deleted :
    Request → StripeSubscription → List Subscription → Outcome
unfolding find_by_stripe_sub_id
handle_subscription_deleted req s rows =
    on_found req s.id rows
      (λ sub. written req rows (record sub { status = canceled; cancel_at_period_end = false }))

unfoldable pub handle_payment_failed : Request → Text → List Subscription → Outcome
unfolding find_by_stripe_sub_id
handle_payment_failed req stripe_id rows =
    if is_empty stripe_id
    then done rows
    else on_found req stripe_id rows (λ sub. written req rows (record sub { status = past_due }))

unfoldable pub handle_payment_succeeded : Request → Text → List Subscription → Outcome
unfolding find_by_stripe_sub_id
handle_payment_succeeded req stripe_id rows =
    if is_empty stripe_id
    then done rows
    else on_found req stripe_id rows (λ sub.
      if same_status sub.status past_due
      then written req rows (record sub { status = active })
      else done rows)

unfoldable pub process_event : PlanPriceMap → Request → StripeEvent → List Subscription → Outcome
unfolding handle_checkout_completed handle_subscription_updated handle_subscription_deleted
    handle_payment_failed handle_payment_succeeded
process_event prices req (checkout_completed s) rows = handle_checkout_completed req s rows
process_event prices req (subscription_updated s) rows =
    handle_subscription_updated prices req s rows
process_event prices req (subscription_deleted s) rows = handle_subscription_deleted req s rows
process_event prices req (payment_failed id) rows = handle_payment_failed req id rows
process_event prices req (payment_succeeded id) rows = handle_payment_succeeded req id rows
process_event prices req malformed rows = decode_error
process_event prices req unhandled rows = done rows

-- Stripe gets the status 200 in any case: an event that fails changes nothing and does not come again.
abbrev pub rows_after : Outcome → List Subscription → List Subscription
rows_after (done rows) old = rows
rows_after decode_error old = old
rows_after missing_reference old = old
rows_after (store_error e) old = old
