-- ===== src/Billing/PlanChange/Service.antt =====
-- pkg/billing/plan_change.go: `ChangePlan` and `Preview`.
use operator_os.Base.{
  ℕ, Bool, true, false, not, Option, none, some, List, Text, is_empty, if◌then◌else◌, ℤ, pos,
}
use operator_os.Billing.Plans.{PlanId, is_free, BillingInterval, valid_plan_id}
use operator_os.Billing.Subscriptions.{Subscription, get_by_user_id}
use operator_os.Billing.PlanChange.Types.{
  PlanChangeDirection, PlanChangeMode, PlanChangeRequest, PlanChangeResult, Services, State,
  Changed, compare_plans, is_same, is_known, current_plan, choose_mode, choose_interval, immediate,
  user_required, invalid_plan_id, plan_not_found, plan_not_available, already_on_plan, invalid_mode,
  ok, err,
}
use operator_os.Billing.PlanChange.Handlers.{
  estimate_proration, handle_downgrade_to_free, handle_upgrade_from_free, handle_paid_plan_change,
}

module _ (sv : Services) where
  open sv use {
    World, now, exec, query, new_id, add_month, add_year, scale, catalogue, price_map, stripe,
  }

  -- A failed query counts as no subscription.
  abbrev pub current_subscription : Bool → Text → List Subscription → Option Subscription
  current_subscription true user_id rows = get_by_user_id user_id rows
  current_subscription false user_id rows = none

  abbrev pub new_result : PlanChangeDirection → PlanChangeMode → PlanId → PlanId → PlanChangeResult
  new_result direction mode previous new = record {
    direction = direction;
    mode = mode;
    previous_plan = previous;
    new_plan = new;
    effective_at = 0;
    subscription = none;
    proration_amount = pos 0;
  }

  unfoldable pub dispatch :
      State World
      → Text
      → Option Subscription
      → PlanId
      → BillingInterval
      → PlanChangeMode
      → ℕ
      → PlanChangeResult
      → Changed World
  unfolding handle_downgrade_to_free handle_upgrade_from_free handle_paid_plan_change
  dispatch st user_id none p i mode at res =
      if is_free p
      then handle_downgrade_to_free sv st none mode at res
      else handle_upgrade_from_free sv st user_id p i at res
  dispatch st user_id (some sub) p i mode at res =
      if is_free p
      then handle_downgrade_to_free sv st (some sub) mode at res
      else if is_free sub.plan_id
      then handle_upgrade_from_free sv st user_id p i at res
      else handle_paid_plan_change sv st sub p i mode at res

  unfoldable pub change_known :
      State World → Text → Option Subscription → PlanChangeRequest → Changed World
  unfolding dispatch
  change_known st user_id sub req =
      let direction = compare_plans (current_plan sub) req.new_plan_id in
      let mode = choose_mode req.mode direction in
      if is_same direction
      then err already_on_plan st
      else if not (is_known mode)
      then err invalid_mode st
      else dispatch st user_id sub req.new_plan_id (choose_interval req.interval sub) mode
          (now st.world) (new_result direction mode (current_plan sub) req.new_plan_id)

  unfoldable pub change_plan : State World → Text → PlanChangeRequest → Changed World
  unfolding change_known
  change_plan st user_id req =
      if is_empty user_id
      then err user_required st
      else if not (valid_plan_id req.new_plan_id)
      then err invalid_plan_id st
      else elim (catalogue req.new_plan_id) [
        | none ↦ err plan_not_found st
        | some plan ↦
            if not plan.active
            then err plan_not_available st
            else let (found, w) = query st.world in
              change_known (record st { world = w }) user_id
                (current_subscription found user_id st.rows) req
      ]

  abbrev pub preview_time : PlanChangeMode → Option Subscription → ℕ → ℕ
  preview_time immediate sub at = at
  preview_time mode none at = at
  preview_time mode (some sub) at = sub.current_period_end

  abbrev pub preview_proration :
      Option Subscription → PlanChangeDirection → PlanId → BillingInterval → ℕ → ℤ
  preview_proration none d p i at = pos 0
  preview_proration (some sub) d p i at =
      if is_same d then pos 0 else estimate_proration sv sub p i at

  abbrev pub preview_known : Option Subscription → PlanChangeRequest → ℕ → PlanChangeResult
  preview_known sub req at =
      let direction = compare_plans (current_plan sub) req.new_plan_id in
      let mode = choose_mode req.mode direction in
      record (new_result direction mode (current_plan sub) req.new_plan_id) {
        effective_at = preview_time mode sub at;
        proration_amount =
            preview_proration sub direction req.new_plan_id (choose_interval req.interval sub) at;
      }

  unfoldable pub preview : State World → Text → PlanChangeRequest → Changed World
  preview st user_id req =
      if is_empty user_id
      then err user_required st
      else if not (valid_plan_id req.new_plan_id)
      then err invalid_plan_id st
      else elim (catalogue req.new_plan_id) [
        | none ↦ err plan_not_found st
        | some plan ↦
            let (found, w) = query st.world in
            ok (preview_known (current_subscription found user_id st.rows) req (now w))
              (record st { world = w })
      ]
