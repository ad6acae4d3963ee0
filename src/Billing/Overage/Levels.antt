-- ===== src/Billing/Overage/Levels.antt =====
-- What the overage checks of pkg/billing/overage.go come to.
use operator_os.Base.{
  ℕ, ◌≡◌, ◌↔◌, refl, ap, false, Option, none, some, Text, ℤ, is_empty, Bool-cases, Option-cases,
  ◌⊎◌, inl, inr, arith,
}
use operator_os.Billing.Plans.{Plan, is_unlimited}
use operator_os.Billing.Overage.{
  OverageLevel, no_overage, warning, soft_cap, hard_cap, blocked, OverageAction, no_action, warn,
  downgrade_model, throttle, block, Float64, OverageThresholds, ThrottleConfig, OverageStatus,
  level_severity, Stores, rejected, evaluate, check_resource, check_tokens, check_messages,
  check_all, resolve_plan, check_user, get_full_status, overage_middleware, overall, more_severe,
  on_action, overall_step,
}

-- The action that belongs to a level.
abbrev pub action_of : OverageLevel → OverageAction
action_of no_overage = no_action
action_of warning = warn
action_of soft_cap = downgrade_model
action_of hard_cap = throttle
action_of blocked = block

module _ (fl : Float64) (th : OverageThresholds fl.Float) (config : ThrottleConfig) where
  open fl use {Float}

  evaluate_action :
      (r : Text) (u l : ℤ)
      → (evaluate fl th config r u l).action ≡ action_of (evaluate fl th config r u l).level
  unfolding evaluate
  evaluate_action r u l = ground arith

  check_resource_action :
      (r : Text) (l : ℤ) (u : Option ℤ) (s : OverageStatus Float)
      → check_resource fl th config r l u ≡ some s
      → s.action ≡ action_of s.level
  unfolding check_resource
  check_resource_action r l u s h = elim (Bool-cases (is_unlimited l)) [
    | inl y ↦ ground (arith, y)
    | inr n ↦ elim (Option-cases u) [
      | inl e ↦ absurd (ground (arith, n, e))
      | inr (x, e) ↦ ground (arith, n, e, evaluate_action r x l)
    ]
  ]

  -- The action belongs to the level.
  abbrev IsConsistent : OverageStatus Float → Type 0
  IsConsistent s = s.action ≡ action_of s.level

  module _ (stores : Stores) where
    check_tokens-IsConsistent :
        (user : Text) (start : ℕ) (plan : Option Plan) (s : OverageStatus Float)
        → check_tokens fl th config stores user start plan ≡ some s
        → IsConsistent s
    unfolding check_tokens
    check_tokens-IsConsistent user start none s h = absurd (ground arith)
    check_tokens-IsConsistent user start (some p) s h = check_resource_action _ _ _ s h

    check_messages-IsConsistent :
        (user : Text) (start : ℕ) (plan : Option Plan) (s : OverageStatus Float)
        → check_messages fl th config stores user start plan ≡ some s
        → IsConsistent s
    unfolding check_messages
    check_messages-IsConsistent user start none s h = absurd (ground arith)
    check_messages-IsConsistent user start (some p) s h = check_resource_action _ _ _ s h

    abbrev severer : OverageStatus Float → OverageStatus Float → OverageStatus Float
    severer = more_severe fl th config stores

    -- The two statuses of a user, and the one that the check of the user returns.
    statuses :
        (user : Text) (month : ℕ) (s : OverageStatus Float)
        → check_user fl th config stores user month ≡ some s
        → (t : OverageStatus Float) × (m : OverageStatus Float) × (get_full_status fl th config
              stores user month
            ≡ some (t, m))
          × (s ≡ severer t m)
          × IsConsistent t
          × IsConsistent m
    unfolding check_user check_all get_full_status
    statuses user month s h =
        let (plan, start) = resolve_plan fl th config stores user month in
        elim (Option-cases (check_tokens fl th config stores user start plan)) [
          | inl e ↦ absurd (ground (arith, e))
          | inr (t, e) ↦ elim (Option-cases (check_messages fl th config stores user start plan)) [
            | inl f ↦ absurd (ground (arith, e, f))
            | inr (m, f) ↦ (
              t,
              m,
              ground (arith, e, f),
              ground (arith, e, f),
              check_tokens-IsConsistent user start plan t e,
              check_messages-IsConsistent user start plan m f,
            )
          ]
        ]

    abbrev overall_of : OverageStatus Float → OverageStatus Float → OverageLevel × OverageAction
    overall_of t m =
        overall_step fl th config stores m
          (overall_step fl th config stores t (no_overage, no_action))

    -- On levels, whatever else the statuses hold.
    overall_of-severer :
        (lt lm : OverageLevel) (t m : OverageStatus Float)
        → t.level ≡ lt
        → m.level ≡ lm
        → IsConsistent t
        → IsConsistent m
        → overall_of t m ≡ ((severer t m).level, (severer t m).action)
    unfolding level_severity
    overall_of-severer no_overage no_overage t m e f ct cm = ground (arith, e, f, ct, cm)
    overall_of-severer lt lm t m e f ct cm = ground (arith, e, f, ct, cm)

    -- The overall level and action that the API reports are those of the check by which the middleware
    -- decides, whenever that check succeeds.
    pub overall_agrees :
        (user : Text) (month : ℕ) (s : OverageStatus Float)
        → check_user fl th config stores user month ≡ some s
        → overall fl th config stores user month ≡ some (s.level, s.action)
    unfolding overall
    overall_agrees user month s h =
        let (t, m, e, same, ct, cm) = statuses user month s h in
        rw (e, overall)
          (rw same (ap (λ x. some x) (overall_of-severer t.level m.level t m refl refl ct cm)))

    severer_blocked :
        (lt lm : OverageLevel) (t m : OverageStatus Float)
        → t.level ≡ lt
        → m.level ≡ lm
        → IsConsistent t
        → IsConsistent m
        → (on_action fl th config stores (severer t m).action ≡ rejected)
          ↔ ((t.level ≡ blocked) ⊎ (m.level ≡ blocked))
    unfolding level_severity
    severer_blocked blocked blocked t m e f ct cm = ground (arith, e, f, ct, cm)
    severer_blocked lt lm t m e f ct cm = ground (arith, e, f, ct, cm)

    checked :
        (user : Text) (month : ℕ) (t m : OverageStatus Float)
        → get_full_status fl th config stores user month ≡ some (t, m)
        → (check_user fl th config stores user month ≡ some (severer t m))
          × IsConsistent t
          × IsConsistent m
    unfolding check_user check_all get_full_status
    checked user month t m h =
        let (plan, start) = resolve_plan fl th config stores user month in
        elim (Option-cases (check_tokens fl th config stores user start plan)) [
          | inl e ↦ absurd (ground (arith, e))
          | inr (t', e) ↦ elim (Option-cases (check_messages fl th config stores user start plan)) [
            | inl f ↦ absurd (ground (arith, e, f))
            | inr (m', f) ↦
                let ct = check_tokens-IsConsistent user start plan t' e in
                let cm = check_messages-IsConsistent user start plan m' f in
                (ground (arith, e, f), ground (arith, e, f, ct), ground (arith, e, f, cm))
          ]
        ]

    -- A request of a user whose check succeeds is rejected exactly if the tokens or the messages of the
    -- user are at the level `blocked`.
    pub rejected_exact :
        (user : Text) (month : ℕ) (t m : OverageStatus Float)
        → is_empty user ≡ false
        → get_full_status fl th config stores user month ≡ some (t, m)
        → (overage_middleware fl th config stores user month ≡ rejected)
          ↔ ((t.level ≡ blocked) ⊎ (m.level ≡ blocked))
    unfolding overage_middleware
    rejected_exact user month t m given h =
        let (c, ct, cm) = checked user month t m h in
        rw (given, overage_middleware)
          (rw (c, overage_middleware) (severer_blocked t.level m.level t m refl refl ct cm))
