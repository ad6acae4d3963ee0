-- ===== src/RateLimit/Bucket.antt =====
-- The token bucket of a user: bucket of pkg/ratelimit/ratelimit.go. Times are nanoseconds from a
-- midnight in UTC; a tier's DailyLimit of 0 stands for the negative ones too.
use operator_os.Base.{ℕ, ◌+◌, ◌-◌, ◌%◌, Bool, true, false, not, ◌&&◌, ltb, leb, if◌then◌else◌}

-- What the code uses of float64: `seconds` of a positive duration, `minus_one` for `b.tokens--`,
-- `lt_one` for `tokens < 1`, `per_second` for a rate per minute divided by 60, `wait` for
-- time.Duration((1.0-tokens)/rate*1e9), and `int` for the conversion that truncates.
pub record Float64 : Type 1 where
  pub Float : Type 0
  pub of_int : ℕ → Float
  pub seconds : ℕ → Float
  pub add : Float → Float → Float
  pub multiply : Float → Float → Float
  pub gt : Float → Float → Bool
  pub minus_one : Float → Float
  pub lt_one : Float → Bool
  pub per_second : Float → Float
  pub wait : Float → Float → ℕ
  pub int : Float → ℕ

-- 24*time.Hour
abbrev pub day : ℕ
day = 86400000000000

-- now.Truncate(24 * time.Hour)
abbrev pub truncate : ℕ → ℕ
truncate now = now - now % day

pub record Bucket (Float : Type 0) : Type 0 where
  pub tokens : Float
  pub last_time : ℕ
  pub rate : Float
  pub burst : ℕ
  pub daily : ℕ
  pub day_count : ℕ
  pub day_start : ℕ

pub record BucketState (Float : Type 0) : Type 0 where
  pub tokens : Float
  pub last_time : ℕ
  pub day_count : ℕ
  pub day_start : ℕ

module _ (fl : Float64) where
  open fl use {Float, of_int, seconds, add, multiply, gt, minus_one, lt_one, wait}

  abbrev capped : ℕ → Float → Float
  capped burst t = if gt t (of_int burst) then of_int burst else t

  -- The tokens at a later time.
  unfoldable pub refilled_tokens : ℕ → Bucket Float → Float
  refilled_tokens now b =
      if ltb b.last_time now
      then capped b.burst (add b.tokens (multiply (seconds (now - b.last_time)) b.rate))
      else b.tokens

  unfoldable pub refill : ℕ → Bucket Float → Bucket Float
  refill now b = record b {
    tokens = refilled_tokens now b;
    last_time = if ltb b.last_time now then now else b.last_time;
  }

  unfoldable pub reset_day : ℕ → Bucket Float → Bucket Float
  reset_day now b =
      if ltb 0 b.daily && leb (b.day_start + day) now
      then record b { day_count = 0; day_start = truncate now }
      else b

  abbrev pub is_day_spent : Bucket Float → Bool
  is_day_spent b = ltb 0 b.daily && leb b.daily b.day_count

  unfoldable pub consume : Bucket Float → Bool × Bucket Float
  consume b =
      if is_day_spent b
      then (false, b)
      else if lt_one b.tokens
      then (false, b)
      else (true, record b { tokens = minus_one b.tokens; day_count = b.day_count + 1 })

  unfoldable pub allow : ℕ → Bucket Float → Bool × Bucket Float
  unfolding refill reset_day consume
  allow now b = consume (reset_day now (refill now b))

  unfoldable pub retry_after : ℕ → Bucket Float → ℕ
  unfolding refilled_tokens
  retry_after now b =
      let tokens = refilled_tokens now b in
      if not (lt_one tokens)
      then if is_day_spent b then b.day_start + day - now else 0
      else wait tokens b.rate

  unfoldable pub snapshot : ℕ → Bucket Float → BucketState Float × Bucket Float
  unfolding refill
  snapshot now b =
      let b' = refill now b in
      (
        record {
          tokens = b'.tokens;
          last_time = b'.last_time;
          day_count = b'.day_count;
          day_start = b'.day_start;
        },
        b',
      )
