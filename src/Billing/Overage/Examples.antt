-- ===== src/Billing/Overage/Examples.antt =====
-- Runs of pkg/billing/overage.go, and the theorems at concrete inputs, with ratios in thousandths.
use operator_os.Base.{
  ℕ, ◌+◌, ◌*◌, ◌/◌, ◌≡◌, ◌↔◌, refl, true, false, none, some, [], ◌∷◌, Text, codes, pos, pos_part,
  leb, ◌⊎◌,
}
use operator_os.Billing.Plans.{free, Plan, is_unlimited}
use operator_os.Billing.Overage.{
  blocked, Float64, OverageThresholds, OverageStatus, Stores, default_throttle_config, evaluate,
  check_resource, check_tokens, level_severity, check_messages, check_all, check_user, resolve_plan,
  get_full_status, rejected, served_after, overage_middleware, overall,
}
use operator_os.Billing.Overage.Levels.{overall_agrees, rejected_exact}

abbrev thousandths : Float64
thousandths = record {
  Float = ℕ;
  zero = 0;
  ratio = λ u l. pos_part u * 1000 / pos_part l;
  ge = λ a b. leb b a;
  percent = λ a. (48 + a / 1000) ∷ [];
}

abbrev thresholds : OverageThresholds ℕ
thresholds = record { warning = 800; soft_cap = 900; hard_cap = 1000; block_at = 1200 }

abbrev basic : Plan
basic = record {
  id = free;
  price_monthly = pos 0;
  price_yearly = pos 0;
  max_messages_per_month = pos 10;
  max_tokens_per_month = pos 1000;
  active = true;
}

abbrev messages_of : Text → ℕ
messages_of [] = 0
messages_of (c ∷ t) = elim (leb b'b' c) [ true ↦ 20 | false ↦ 3 ]

-- "ann" has used all tokens and a few messages; "bob" sent twice the messages.
abbrev stores : Stores
stores = record {
  period_usage = λ u t. some (pos 1000);
  period_messages = λ u t. some (pos (messages_of u));
  subscription = λ u. none;
  catalogue = λ p. some basic;
}

ann_is_slowed :
    overage_middleware thousandths thresholds default_throttle_config stores (codes "ann") 5
    ≡ served_after (pos 500)
unfolding overage_middleware check_user check_all resolve_plan check_tokens check_messages
    check_resource evaluate is_unlimited default_throttle_config level_severity
ann_is_slowed = refl

abbrev tokens_status : OverageStatus ℕ
tokens_status =
    evaluate thousandths thresholds default_throttle_config (codes "tokens") (pos 1000) (pos 1000)

abbrev messages_status : OverageStatus ℕ
messages_status =
    evaluate thousandths thresholds default_throttle_config (codes "messages") (pos 20) (pos 10)

bob_checked :
    get_full_status thousandths thresholds default_throttle_config stores (codes "bob") 5
    ≡ some (tokens_status, messages_status)
unfolding get_full_status resolve_plan check_tokens check_messages check_resource is_unlimited
bob_checked = refl

rejected_exact_example :
    (overage_middleware thousandths thresholds default_throttle_config stores (codes "bob") 5
      ≡ rejected)
    ↔ ((tokens_status.level ≡ blocked) ⊎ (messages_status.level ≡ blocked))
rejected_exact_example =
    rejected_exact thousandths thresholds default_throttle_config stores (codes "bob") 5
      tokens_status messages_status refl bob_checked

overall_agrees_example :
    overall thousandths thresholds default_throttle_config stores (codes "bob") 5
    ≡ some (messages_status.level, messages_status.action)
overall_agrees_example =
    overall_agrees thousandths thresholds default_throttle_config stores (codes "bob") 5
      messages_status
      (unfold check_user check_all resolve_plan check_tokens check_messages check_resource evaluate
          is_unlimited level_severity in
        refl)

bob_is_blocked : messages_status.level ≡ blocked
unfolding evaluate
bob_is_blocked = refl
