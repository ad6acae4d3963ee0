-- ===== src/Billing/Overage.antt =====
-- pkg/billing/overage.go: how usage is compared with a plan's limits and what is done about it. The
-- stores of usage and subscriptions, the catalogue and float64 are parameters.
pub mod Levels
mod Examples
use operator_os.Base.{
  ℕ, ◌≡◌, Bool, true, false, ◌&&◌, not, Option, none, some, List, [], ◌∷◌, ◌++◌, Text, codes, ℤ,
  pos, ltb, ltb_ℤ, ◌==◌, is_empty, if◌then◌else◌,
}
use operator_os.Billing.Plans.{PlanId, free, Plan, Catalogue, is_unlimited}
use operator_os.Billing.Subscriptions.{Subscription, is_active}

pub data OverageLevel : Type 0 where
  no_overage warning soft_cap hard_cap blocked : OverageLevel

pub data OverageAction : Type 0 where
  no_action warn downgrade_model throttle block : OverageAction

-- What the code uses of float64: `ratio` is float64(usage) / float64(limit), `ge` is `>=`, and
-- `percent` prints with "%.0f" the value times 100.
pub record Float64 : Type 1 where
  pub Float : Type 0
  pub zero : Float
  pub ratio : ℤ → ℤ → Float
  pub ge : Float → Float → Bool
  pub percent : Float → Text

-- The dash of the messages, in UTF-8.
abbrev dash : Text
dash = 226 ∷ 128 ∷ 148 ∷ []

pub record OverageThresholds (Float : Type 0) : Type 0 where
  pub warning : Float
  pub soft_cap : Float
  pub hard_cap : Float
  pub block_at : Float

pub record ThrottleConfig : Type 0 where
  pub fallback_model : Text
  pub delay_ms : ℤ
  pub reduced_rate_percent : ℤ

unfoldable pub default_throttle_config : ThrottleConfig
default_throttle_config = record {
  fallback_model = codes "gpt-4o-mini";
  delay_ms = pos 500;
  reduced_rate_percent = pos 50;
}

pub record OverageStatus (Float : Type 0) : Type 0 where
  pub resource : Text
  pub usage : ℤ
  pub limit : ℤ
  pub percentage : Float
  pub level : OverageLevel
  pub action : OverageAction
  pub message : Text
  pub fallback_model : Text

unfoldable pub level_severity : OverageLevel → ℕ
level_severity no_overage = 0
level_severity warning = 1
level_severity soft_cap = 2
level_severity hard_cap = 3
level_severity blocked = 4

-- `none` is an error of the store, or no subscription.
pub record Stores : Type 0 where
  pub period_usage : Text → ℕ → Option ℤ
  pub period_messages : Text → ℕ → Option ℤ
  pub subscription : Text → Option Subscription
  pub catalogue : Catalogue

-- What the middleware does with a request.
pub data Verdict : Type 0 where
  served : Verdict
  served_after : ℤ → Verdict
  rejected : Verdict

module _ (fl : Float64) (thresholds : OverageThresholds fl.Float) (config : ThrottleConfig) where
  open fl use {Float, ratio, ge, percent}

  -- Validate: the thresholds rise, and the first lies between 0 and 1.
  unfoldable pub validate : (one : Float) → Bool
  validate one =
      not (ge fl.zero thresholds.warning)
      && (not (ge thresholds.warning one)
          && (not (ge thresholds.warning thresholds.soft_cap)
              && (not (ge thresholds.soft_cap thresholds.hard_cap)
                  && not (ge thresholds.hard_cap thresholds.block_at))))

  abbrev usage_text : Text → Float → Text → Text
  usage_text resource pct rest = resource ++ (codes " usage is " ++ (percent pct ++ rest))

  abbrev status_of : Text → ℤ → ℤ → OverageLevel → OverageAction → Text → Text → OverageStatus Float
  status_of resource usage limit level action message fallback = record {
    resource = resource;
    usage = usage;
    limit = limit;
    percentage = ratio usage limit;
    level = level;
    action = action;
    message = message;
    fallback_model = fallback;
  }

  unfoldable pub evaluate : Text → ℤ → ℤ → OverageStatus Float
  evaluate resource usage limit =
      let pct = ratio usage limit in
      let status = status_of resource usage limit in
      if ge pct thresholds.block_at
      then status blocked block
          (usage_text resource pct
            (codes "% of limit " ++ (dash ++ codes " requests blocked until next billing period")))
          []
      else if ge pct thresholds.hard_cap
      then status hard_cap throttle
          (usage_text resource pct
            (codes "% of limit " ++ (dash ++ codes " service throttled, using fallback model")))
          config.fallback_model
      else if ge pct thresholds.soft_cap
      then status soft_cap downgrade_model
          (usage_text resource pct (
            codes "% of limit "
            ++ (dash ++ codes " approaching hard cap, model may be downgraded")))
          config.fallback_model
      else if ge pct thresholds.warning
      then status warning warn
          (usage_text resource pct
            (codes "% of limit " ++ (dash ++ codes " consider upgrading your plan")))
          []
      else status no_overage no_action [] []

  -- The status of a resource without a limit.
  abbrev pub unlimited : Text → OverageStatus Float
  unlimited resource = record {
    resource = resource;
    usage = pos 0;
    limit = pos 0;
    percentage = fl.zero;
    level = no_overage;
    action = no_action;
    message = [];
    fallback_model = [];
  }

  -- CheckTokens and CheckMessages from the plan's limit and what the store answers.
  unfoldable pub check_resource : Text → ℤ → Option ℤ → Option (OverageStatus Float)
  check_resource resource limit usage =
      if is_unlimited limit
      then some (unlimited resource)
      else elim usage [ none ↦ none | some u ↦ some (evaluate resource u limit) ]

  module _ (stores : Stores) where
    open stores use {period_usage, period_messages, subscription, catalogue}

    unfoldable pub check_tokens : Text → ℕ → Option Plan → Option (OverageStatus Float)
    check_tokens user start none = none
    check_tokens user start (some p) =
        check_resource (codes "tokens") p.max_tokens_per_month (period_usage user start)

    unfoldable pub check_messages : Text → ℕ → Option Plan → Option (OverageStatus Float)
    check_messages user start none = none
    check_messages user start (some p) =
        check_resource (codes "messages") p.max_messages_per_month (period_messages user start)

    abbrev pub more_severe : OverageStatus Float → OverageStatus Float → OverageStatus Float
    more_severe t m = if ltb (level_severity t.level) (level_severity m.level) then m else t

    unfoldable pub check_all : Text → ℕ → Option Plan → Option (OverageStatus Float)
    check_all user start plan = elim (check_tokens user start plan) [
      | none ↦ none
      | some t ↦ elim (check_messages user start plan) [
        | none ↦ none
        | some m ↦ some (more_severe t m)
      ]
    ]

    -- The plan and the start of the period, from the start of the current month.
    abbrev plan_or : Option Plan → Option Plan → Option Plan
    plan_or none default = default
    plan_or (some p) default = some p

    unfoldable pub resolve_plan : Text → ℕ → Option Plan × ℕ
    resolve_plan user month = elim (subscription user) [
      | none ↦ (catalogue free, month)
      | some sub ↦
          if is_active sub
          then (
            plan_or (catalogue sub.plan_id) (catalogue free),
            if sub.current_period_start == 0 then month else sub.current_period_start,
          )
          else (catalogue free, month)
    ]

    unfoldable pub check_user : Text → ℕ → Option (OverageStatus Float)
    check_user user month = let (plan, start) = resolve_plan user month in check_all user start plan

    unfoldable pub get_full_status : Text → ℕ → Option (OverageStatus Float × OverageStatus Float)
    get_full_status user month =
        let (plan, start) = resolve_plan user month in
        elim (check_tokens user start plan) [
          | none ↦ none
          | some t ↦ elim (check_messages user start plan) [ none ↦ none | some m ↦ some (t, m) ]
        ]

    abbrev pub on_action : OverageAction → Verdict
    on_action block = rejected
    on_action throttle =
        if ltb_ℤ (pos 0) config.delay_ms then served_after config.delay_ms else served
    on_action _ = served

    -- OverageMiddleware; without a user, or where the check fails, the request is let through.
    unfoldable pub overage_middleware : Text → ℕ → Verdict
    overage_middleware user month =
        if is_empty user
        then served
        else elim (check_user user month) [ none ↦ served | some s ↦ on_action s.action ]

    abbrev pub overall_step :
        OverageStatus Float → OverageLevel × OverageAction → OverageLevel × OverageAction
    overall_step s (l, a) =
        if ltb (level_severity l) (level_severity s.level) then (s.level, s.action) else (l, a)

    -- The overall level and action of handleGetOverageStatus.
    unfoldable pub overall : Text → ℕ → Option (OverageLevel × OverageAction)
    overall user month = elim (get_full_status user month) [
      | none ↦ none
      | some (t, m) ↦ some (overall_step m (overall_step t (no_overage, no_action)))
    ]
