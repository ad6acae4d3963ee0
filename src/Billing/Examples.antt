-- ===== src/Billing/Examples.antt =====
-- Runs of pkg/billing, and the theorems at concrete inputs.
use operator_os.Base.{
  ℕ, suc, ◌+◌, ◌*◌, ◌/◌, ◌≤◌, ◌≡◌, refl, true, false, none, some, [], ◌∷◌, codes, text_eq, arith, ℤ,
  pos, negsuc, ◌-ℤ◌, ◌≤ℤ◌,
}
use native.Mathlib.Nat.{div-le_of_le-mul}
use operator_os.Billing.Plans.{
  PlanId, free, starter, pro, other, enterprise, monthly, unset, valid_plan_id, Plan, Catalogue,
}
use operator_os.Billing.Subscriptions.{
  Subscription, SubscriptionStatus, find_by_id, valid_subscription_status,
}
use operator_os.Billing.PlanChange.Types.{
  PlanChangeRequest, PlanChangeResult, Stripe, Services, State, ok, no_mode, at_period_end, upgrade,
  downgrade,
}
use operator_os.Billing.PlanChange.Handlers.{
  managed, handle_paid_plan_change, stripe_update_subscription,
}
use operator_os.Billing.PlanChange.Service.{change_plan}
use operator_os.Billing.PlanChange.Safety.{Promised, plan_of, change_plan-Promised}
use operator_os.Billing.PlanChange.Effects.{refused_schedule_applies_now}

abbrev priced : PlanId → ℕ → Plan
priced p cents = record {
  id = p;
  price_monthly = pos cents;
  price_yearly = pos (10 * cents);
  max_messages_per_month = pos 0;
  max_tokens_per_month = pos 0;
  active = true;
}

abbrev shop : Catalogue
shop free = some (priced free 0)
shop starter = some (priced starter 900)
shop pro = some (priced pro 2900)
shop enterprise = some (priced enterprise 9900)
shop (other t) = none

-- The product, rounded towards 0.
abbrev rounded : ℤ → ℕ → ℕ → ℤ
rounded (pos d) r t = pos (d * r / t)
rounded (negsuc d) r t = pos 0 -ℤ pos (suc d * r / t)

-- Stripe refuses each update.
abbrev refusing : Stripe (Unit {0})
refusing = record {
  cancel_immediately = λ i w. (true, w);
  cancel_subscription = λ i w. (true, w);
  get_subscription = λ i w. (some (codes "si_1" ∷ []), w);
  post_update = λ i item price pr w. (false, w);
}

abbrev outside : Services
outside = record {
  World = Unit {0};
  now = λ w. 150;
  exec = λ w. (true, w);
  query = λ w. (true, w);
  new_id = λ w. (codes "sub_2", w);
  add_month = λ t. t + 30;
  add_year = λ t. t + 365;
  scale = rounded;
  catalogue = shop;
  price_map = some (λ p i. codes "price");
  stripe = some refusing;
}

abbrev row_of : PlanId → SubscriptionStatus → Subscription
row_of p s = record {
  id = codes "sub_1";
  user_id = codes "ann";
  plan_id = p;
  status = s;
  billing_interval = monthly;
  current_period_start = 100;
  current_period_end = 200;
  cancel_at_period_end = false;
  stripe_customer_id = codes "cus_1";
  stripe_sub_id = codes "stripe_1";
  created_at = 100;
  updated_at = 100;
}

abbrev on_starter : Subscription
on_starter = row_of starter SubscriptionStatus.active

abbrev canceled_starter : Subscription
canceled_starter = row_of starter SubscriptionStatus.canceled

abbrev state_with : Subscription → State (Unit {0})
state_with s = record { rows = s ∷ []; notified = []; world = tt }

abbrev request : PlanId → PlanChangeRequest
request p = record { new_plan_id = p; interval = unset; mode = no_mode }

abbrev blank : PlanChangeResult
blank = record {
  direction = upgrade;
  mode = at_period_end;
  previous_plan = starter;
  new_plan = pro;
  effective_at = 0;
  subscription = none;
  proration_amount = pos 0;
}

abbrev on_pro : Subscription
on_pro = record on_starter { plan_id = pro }

change_plan-Promised_example :
    Promised outside
      (state_with on_starter)
      (plan_of outside (state_with on_starter) (codes "ann"))
      free
      (change_plan outside (state_with on_starter) (codes "ann") (request free))
change_plan-Promised_example =
    change_plan-Promised outside (state_with on_starter) (codes "ann") (request free)

refused_schedule_applies_now_example :
    (r : PlanChangeResult) × (st' : State (Unit {0})) × (row : Subscription)
    × (handle_paid_plan_change outside
          (state_with on_pro)
          on_pro
          starter
          monthly
          at_period_end
          150
          blank
        ≡ ok r st')
    × (r.effective_at ≡ 200)
    × (find_by_id (codes "sub_1") st'.rows ≡ some row)
    × (row.plan_id ≡ starter)
refused_schedule_applies_now_example =
    refused_schedule_applies_now outside (state_with on_pro) on_pro starter monthly 150 blank
      refusing tt (unfold managed in refl) (unfold stripe_update_subscription in refl) refl
      (unfold valid_subscription_status in refl) (unfold valid_plan_id in refl)
      (unfold find_by_id text_eq in refl)

abbrev ending : Subscription
ending = record on_pro { cancel_at_period_end = true; updated_at = 150 }

abbrev ending_result : PlanChangeResult
ending_result = record blank { effective_at = 200; subscription = some ending }

abbrev ending_state : State (Unit {0})
ending_state = record {
  rows = ending ∷ [];
  notified = (codes "ann", ending_result) ∷ [];
  world = tt;
}

abbrev to_free : PlanChangeResult
to_free = record {
  direction = downgrade;
  mode = at_period_end;
  previous_plan = pro;
  new_plan = free;
  effective_at = 200;
  subscription = some ending;
  proration_amount = pos 0;
}

abbrev quoted : PlanChangeResult
quoted = record to_free { subscription = none; proration_amount = negsuc 1449 }

abbrev free_state : State (Unit {0})
free_state = record { rows = ending ∷ []; notified = (codes "ann", to_free) ∷ []; world = tt }

-- The product of a price difference of 2000 cents.
rounded_bounds :
    (r t : ℕ) → r ≤ t → (pos 0 ≤ℤ rounded (pos 2000) r t) × (rounded (pos 2000) r t ≤ℤ pos 2000)
rounded_bounds r t h =
    let below : 2000 * r / t ≤ 2000 = div-le_of_le-mul t (omega arith) in (omega arith, omega arith)
