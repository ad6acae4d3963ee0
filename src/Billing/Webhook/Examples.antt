-- ===== src/Billing/Webhook/Examples.antt =====
-- Runs of pkg/billing/webhook.go, and the theorems at concrete inputs.
use operator_os.Base.{◌+◌, ◌≡◌, refl, true, false, some, [], ◌∷◌, codes, text_eq}
use operator_os.Billing.Plans.{starter, pro, monthly, valid_plan_id}
use operator_os.Billing.Subscriptions.{
  active, past_due, canceled, Subscription, is_active, find_by_id, get_by_user_id,
  valid_subscription_status,
}
use operator_os.Billing.Webhook.{
  Request, PlanPriceMap, StripeCheckoutSession, StripeSubscription, payment_failed,
  checkout_completed, subscription_updated, find_by_stripe_sub_id, newest_with, process_event,
  rows_after, plan_for_price, map_stripe_status,
}
use operator_os.Billing.Webhook.Late.{late_failure_revives}
use operator_os.Billing.Webhook.Order.{step, purchase_order}

abbrev prices : PlanPriceMap
prices = record { monthly_prices = (pro, codes "price_pro") ∷ []; yearly_prices = [] }

abbrev request : Request
request = record {
  now = 100;
  new_id = codes "sub_1";
  exec = true;
  reads = true;
  add_month = λ t. t + 30;
}

abbrev session : StripeCheckoutSession
session = record {
  mode = codes "subscription";
  customer_id = codes "cus_1";
  subscription_id = codes "stripe_1";
  client_reference_id = codes "ann";
}

abbrev of_stripe : StripeSubscription
of_stripe = record {
  id = codes "stripe_1";
  status = codes "active";
  price_id = some (codes "price_pro");
  current_period_start = 100;
  current_period_end = 130;
  cancel_at_period_end = false;
}

purchase_order_example :
    ((r : Subscription) × (find_by_id (codes "sub_1") (
          step prices request
            (subscription_updated of_stripe)
            (step prices request (checkout_completed session) []))
        ≡ some r)
      × (r.plan_id ≡ pro)
      × (r.status ≡ active))
    × ((r : Subscription) × (find_by_id (codes "sub_1") (
            step prices request
              (checkout_completed session)
              (step prices request (subscription_updated of_stripe) []))
          ≡ some r)
        × (r.plan_id ≡ starter)
        × (r.status ≡ active))
purchase_order_example =
    purchase_order prices request session of_stripe [] pro monthly active (unfold text_eq in refl)
      refl refl (unfold text_eq in refl) refl refl (unfold get_by_user_id in refl)
      (unfold find_by_stripe_sub_id newest_with in refl) refl (unfold find_by_id in refl)
      (unfold plan_for_price text_eq in refl) (unfold valid_plan_id in refl)
      (unfold map_stripe_status text_eq in refl) (unfold valid_subscription_status in refl)

abbrev left_pro : Subscription
left_pro = record {
  id = codes "sub_1";
  user_id = codes "ann";
  plan_id = pro;
  status = canceled;
  billing_interval = monthly;
  current_period_start = 100;
  current_period_end = 130;
  cancel_at_period_end = false;
  stripe_customer_id = codes "cus_1";
  stripe_sub_id = codes "stripe_1";
  created_at = 90;
  updated_at = 95;
}

late_failure_revives_example :
    (is_active left_pro ≡ false)
    × ((after : Subscription) × (find_by_id (codes "sub_1") (
            rows_after
              (process_event prices request (payment_failed (codes "stripe_1")) (left_pro ∷ []))
              (left_pro ∷ []))
          ≡ some after)
        × (after.status ≡ past_due)
        × (is_active after ≡ true))
late_failure_revives_example =
    late_failure_revives prices request (codes "stripe_1") (left_pro ∷ []) left_pro left_pro refl
      (unfold find_by_stripe_sub_id newest_with text_eq in refl) (unfold find_by_id text_eq in refl)
      (unfold valid_plan_id in refl) refl refl
