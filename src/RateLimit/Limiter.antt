-- ===== src/RateLimit/Limiter.antt =====
-- The limiter of all users: Limiter of pkg/ratelimit/ratelimit.go, with an entry for each user. What
-- the store answers to a load is a parameter; saving and deleting in it are left out.
use operator_os.Base.{
  ℕ, ◌+◌, ◌-◌, Option, none, some, List, [], ◌∷◌, Text, codes, lookup, insert, delete,
  if◌then◌else◌,
}
use operator_os.RateLimit.Bucket.{Float64, Bucket, BucketState, allow, retry_after, truncate, day}

pub data LimitError : Type 0 where
  rate_limited : LimitError
  invalid_plan : LimitError

pub record TierConfig (Float : Type 0) : Type 0 where
  pub requests_per_minute : Float
  pub burst_size : ℕ
  pub daily_limit : ℕ

-- What LoadBucket returns.
pub data Load (Float : Type 0) : Type 0 where
  loaded : Text → BucketState Float → Load Float
  not_found : Load Float
  load_error : Load Float

-- What RestoreUser returns: the error of the store, or one of its own.
pub data Restored : Type 0 where
  restored : Restored
  store_failed : Restored
  plan_unknown : Restored

pub record Limiter (Float : Type 0) : Type 0 where
  pub buckets : List (Text × Bucket Float)
  pub tiers : List (Text × TierConfig Float)
  pub plans : List (Text × Text)

pub record Status : Type 0 where
  pub tier : Text
  pub remaining : ℕ
  pub limit : ℕ
  pub daily_remaining : ℕ
  pub daily_limit : ℕ
  pub retry_after : ℕ
  pub reset_at : ℕ

module _ (fl : Float64) where
  open fl use {Float, of_int, per_second, int}

  unfoldable pub default_tier_configs : List (Text × TierConfig Float)
  default_tier_configs =
      (codes "free", record { requests_per_minute = of_int 10; burst_size = 15; daily_limit = 500 })
      ∷ (
        codes "starter",
        record { requests_per_minute = of_int 30; burst_size = 50; daily_limit = 5000 },
      )
      ∷ (
        codes "pro",
        record { requests_per_minute = of_int 60; burst_size = 100; daily_limit = 50000 },
      )
      ∷ (
        codes "enterprise",
        record { requests_per_minute = of_int 120; burst_size = 200; daily_limit = 0 },
      )
      ∷ []

  unfoldable pub new_limiter : Option (List (Text × TierConfig Float)) → Limiter Float
  unfolding default_tier_configs
  new_limiter none = record { buckets = []; tiers = default_tier_configs; plans = [] }
  new_limiter (some tiers) = record { buckets = []; tiers = tiers; plans = [] }

  abbrev pub fresh_bucket : ℕ → TierConfig Float → Bucket Float
  fresh_bucket now c = record {
    tokens = of_int c.burst_size;
    last_time = now;
    rate = per_second c.requests_per_minute;
    burst = c.burst_size;
    daily = c.daily_limit;
    day_count = 0;
    day_start = truncate now;
  }

  abbrev pub with_bucket : Text → Bucket Float → Limiter Float → Limiter Float
  with_bucket user b l = record l { buckets = insert user b l.buckets }

  unfoldable pub set_user_plan : Text → Text → ℕ → Limiter Float → Option LimitError × Limiter Float
  set_user_plan user tier now l = elim (lookup tier l.tiers) [
    | none ↦ (some invalid_plan, l)
    | some c ↦ (
      none,
      with_bucket user (fresh_bucket now c) (record l { plans = insert user tier l.plans }),
    )
  ]

  -- With a store that answers `load`.
  unfoldable pub restore_user : Load Float → Text → Limiter Float → Restored × Limiter Float
  restore_user not_found user l = (restored, l)
  restore_user load_error user l = (store_failed, l)
  restore_user (loaded tier s) user l = elim (lookup tier l.tiers) [
    | none ↦ (plan_unknown, l)
    | some c ↦ (
      restored,
      with_bucket user
          (record {
            tokens = s.tokens;
            last_time = s.last_time;
            rate = per_second c.requests_per_minute;
            burst = c.burst_size;
            daily = c.daily_limit;
            day_count = s.day_count;
            day_start = s.day_start;
          })
          (record l { plans = insert user tier l.plans }),
    )
  ]

  -- Without a store the load is `none`.
  unfoldable pub get_bucket :
      Option (Load Float) → Text → Limiter Float → Option (Bucket Float) × Limiter Float
  unfolding restore_user
  get_bucket load user l = elim (lookup user l.buckets) [
    | some b ↦ (some b, l)
    | none ↦ elim load [
      | none ↦ (none, l)
      | some found ↦ let (r, l') = restore_user found user l in (lookup user l'.buckets, l')
    ]
  ]

  -- AllowAt; Allow takes the current time.
  unfoldable pub allow_at :
      Option (Load Float) → Text → ℕ → Limiter Float → Option LimitError × Limiter Float
  unfolding get_bucket
  allow_at load user now l =
      let (found, l') = get_bucket load user l in
      elim found [
        | none ↦ (some invalid_plan, l')
        | some b ↦
            let (ok, b') = allow fl now b in
            (if ok then none else some rate_limited, with_bucket user b' l')
      ]

  unfoldable pub remove_user : Text → Limiter Float → Limiter Float
  remove_user user l = record l { buckets = delete user l.buckets; plans = delete user l.plans }

  -- A tier that is gone has the zero value.
  abbrev limits_of : Option (TierConfig Float) → ℕ × ℕ
  limits_of none = (0, 0)
  limits_of (some c) = (c.burst_size, c.daily_limit)

  unfoldable pub get_status : Text → ℕ → Limiter Float → Option Status
  get_status user now l = elim (lookup user l.plans) [
    | none ↦ none
    | some tier ↦ elim (lookup user l.buckets) [
      | none ↦ none
      | some b ↦
          let (burst, daily) = limits_of (lookup tier l.tiers) in
          some (record {
            tier = tier;
            remaining = int b.tokens;
            limit = burst;
            daily_remaining = b.daily - b.day_count;
            daily_limit = daily;
            retry_after = retry_after fl now b;
            reset_at = b.day_start + day;
          })
    ]
  ]
