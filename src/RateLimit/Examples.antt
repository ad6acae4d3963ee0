-- ===== src/RateLimit/Examples.antt =====
-- Runs of pkg/ratelimit/ratelimit.go, and the theorems at concrete inputs, with fixed-point numbers of
-- nine decimal places.
use operator_os.Base.{
  ℕ, ◌+◌, ◌-◌, ◌*◌, ◌/◌, ◌≤◌, ◌≡◌, refl, none, some, List, [], ◌∷◌, codes, ltb, lookup, insert,
  text_eq, arith,
}
use operator_os.RateLimit.Bucket.{Float64, Bucket, allow, refilled_tokens}
use operator_os.RateLimit.Limiter.{
  Limiter, TierConfig, allow_at, set_user_plan, new_limiter, invalid_plan,
}
use operator_os.RateLimit.Daily.{allowed, allowed_in_day}

abbrev one : ℕ
one = 1000000000

abbrev fixed_point : Float64
fixed_point = record {
  Float = ℕ;
  of_int = λ n. n * one;
  seconds = λ n. n;
  add = λ a b. a + b;
  multiply = λ a b. a * b / one;
  gt = λ a b. ltb b a;
  minus_one = λ a. a - one;
  lt_one = λ a. ltb a one;
  per_second = λ r. r / 60;
  wait = λ t r. (one - t) * one / r;
  int = λ a. a / one;
}

-- The free tier with a burst of 2 and a daily limit of 3.
abbrev small_tier : TierConfig ℕ
small_tier = record { requests_per_minute = 60 * one; burst_size = 2; daily_limit = 3 }

abbrev limiter : Limiter ℕ
limiter = new_limiter fixed_point (some ((codes "free", small_tier) ∷ []))

abbrev full : Bucket ℕ
full = record {
  tokens = 2 * one;
  last_time = 0;
  rate = one;
  burst = 2;
  daily = 3;
  day_count = 0;
  day_start = 0;
}

-- Two at once, none, one a second later, and none more that day.
abbrev times : List ℕ
times = 1 ∷ 2 ∷ 3 ∷ (2 * one) ∷ (9 * one) ∷ []

three_allowed : allowed fixed_point times full ≡ 3
unfolding allow refilled_tokens
three_allowed = refl

allowed_in_day_example : allowed fixed_point times full ≤ 3 - 0
allowed_in_day_example =
    allowed_in_day fixed_point times full (omega arith)
      ((omega arith), ((omega arith), ((omega arith), ((omega arith), ((omega arith), tt)))))

abbrev two_users : Limiter ℕ
two_users =
    (set_user_plan fixed_point (codes "bob") (codes "free") 8
      (set_user_plan fixed_point (codes "ann") (codes "free") 7 limiter).1).1

unknown_user : (allow_at fixed_point none (codes "eve") 9 two_users).0 ≡ some invalid_plan
unfolding allow_at set_user_plan new_limiter lookup insert text_eq
unknown_user = refl
