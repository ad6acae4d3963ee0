-- ===== src/Providers/Fallback.antt =====
-- pkg/providers/fallback.go: the chain that tries one candidate after the other. What the source
-- takes from outside is an `Env`: the context, the clock and the `run` function. A chain runs
-- alone on its tracker: no other goroutine marks a provider meanwhile.
pub mod Skips
pub mod Turns
pub mod Order
pub mod Trackers
pub mod Cooling
use operator_os.Base.{
  ℕ, ◌+◌, ◌-◌, ◌*◌, ◌/◌, ◌≡◌, refl, Bool, true, false, not, ◌||◌, Option, none, some, List, [], ◌∷◌,
  ◌++◌, Text, codes, to_lower, if◌then◌else◌, arith,
}
use operator_os.Providers.Types.{
  FailoverReason, rate_limit, format, GoError, context_canceled, context_deadline_exceeded, message,
  FailoverError, is_retriable,
}
use operator_os.Providers.Cooldown.{
  CooldownTracker, is_available, cooldown_remaining, mark_failure, mark_success,
}
use operator_os.Providers.Classify.{classify_error, is_image_dimension_error, is_image_size_error}

pub record FallbackCandidate : Type 0 where
  pub provider : Text
  pub model : Text

pub data Reply (R : Type 0) : Type 0 where
  response : R → Reply R
  failed : GoError → Reply R

-- `elapse` is what happens before a turn of the loop, such as a cancellation or time going by.
pub record Env : Type 1 where
  pub World : Type 0
  pub Response : Type 0
  pub is_canceled : World → Bool
  pub now : World → ℕ
  pub elapse : World → World
  pub run : Text → Text → World → Reply Response × World

-- The error of an attempt: the wait of a skipped candidate, the provider's, or the classified one.
pub data AttemptError : Type 0 where
  cooling : ℕ → AttemptError
  plain : GoError → AttemptError
  classified : FailoverError → AttemptError

pub record FallbackAttempt : Type 0 where
  pub candidate : FallbackCandidate
  pub error : AttemptError
  pub reason : Option FailoverReason
  pub duration : ℕ
  pub skipped : Bool

-- What the chain returns. The source drops the attempts where this carries none.
pub data Outcome (R : Type 0) : Type 0 where
  success : R → FallbackCandidate → List FallbackAttempt → Outcome R
  no_candidates : Outcome R
  canceled : Outcome R
  unclassified : FallbackCandidate → GoError → Outcome R
  aborted : FailoverError → Outcome R
  exhausted : List FallbackAttempt → Outcome R

-- A turn of the loop returns, or goes on with one more attempt.
pub data Turn (R W : Type 0) : Type 0 where
  stop : Outcome R → CooldownTracker → W → Turn R W
  next : FallbackAttempt → CooldownTracker → W → Turn R W

-- `Round(time.Second)`, in nanoseconds.
abbrev pub rounded_to_seconds : ℕ → ℕ
rounded_to_seconds d = (d + 500000000) / 1000000000 * 1000000000

unfoldable pub skip : FallbackCandidate → ℕ → FallbackAttempt
skip c remaining = record {
  candidate = c;
  error = cooling (rounded_to_seconds remaining);
  reason = some rate_limit;
  duration = 0;
  skipped = true;
}

unfoldable pub attempt :
    FallbackCandidate → AttemptError → Option FailoverReason → ℕ → FallbackAttempt
attempt c e r d = record { candidate = c; error = e; reason = r; duration = d; skipped = false }

module _ (env : Env) where
  open env use {World, Response, is_canceled, now, elapse, run}

  -- An error that has been classified, after `run` came back at `w`, `elapsed` later.
  unfoldable pub on_classified :
      CooldownTracker
      → World
      → ℕ
      → FallbackCandidate
      → GoError
      → Option FailoverError
      → Turn Response World
  unfolding attempt
  on_classified ct w elapsed c err none = stop (unclassified c err) ct w
  on_classified ct w elapsed c err (some fail_err) =
      if is_retriable fail_err
      then next (attempt c (classified fail_err) (some fail_err.reason) elapsed)
          (mark_failure ct c.provider fail_err.reason (now w)) w
      else stop (aborted fail_err) ct w

  unfoldable pub on_reply :
      CooldownTracker
      → List FallbackAttempt
      → FallbackCandidate
      → ℕ
      → Reply Response × World
      → Turn Response World
  unfolding on_classified
  on_reply ct acc c start (response resp, w) =
      stop (success resp c acc) (mark_success ct c.provider) w
  on_reply ct acc c start (failed err, w) =
      if is_canceled w
      then stop canceled ct w
      else on_classified ct w (now w - start) c err (classify_error err c.provider c.model)

  unfoldable pub try_candidate :
      CooldownTracker → World → List FallbackAttempt → FallbackCandidate → Turn Response World
  unfolding on_reply skip
  try_candidate ct w0 acc c =
      let w = elapse w0 in
      if is_canceled w
      then stop canceled ct w
      else if not (is_available ct c.provider (now w))
      then next (skip c (cooldown_remaining ct c.provider (now w))) ct w
      else on_reply ct acc c (now w) (run c.provider c.model w)

  -- A failure of the last candidate returns the same error as the end of the loop.
  unfoldable pub execute_from :
      CooldownTracker
      → World
      → List FallbackAttempt
      → List FallbackCandidate
      → Outcome Response × CooldownTracker × World
  unfolding try_candidate
  execute_from ct w acc [] = (exhausted acc, ct, w)
  execute_from ct w acc (c ∷ cs) = elim (try_candidate ct w acc c) [
    | stop o ct' w' ↦ (o, ct', w')
    | next a ct' w' ↦ execute_from ct' w' (acc ++ a ∷ []) cs
  ]

  unfoldable pub execute :
      CooldownTracker → World → List FallbackCandidate → Outcome Response × CooldownTracker × World
  unfolding execute_from
  execute ct w [] = (no_candidates, ct, w)
  execute ct w (c ∷ cs) = execute_from ct w [] (c ∷ cs)

  abbrev error_text : GoError → Text
  error_text context_canceled = codes "context canceled"
  error_text context_deadline_exceeded = codes "context deadline exceeded"
  error_text (message t) = t

  unfoldable pub is_image_error : GoError → Bool
  is_image_error err =
      let msg = to_lower (error_text err) in is_image_dimension_error msg || is_image_size_error msg

  unfoldable pub on_image_reply :
      CooldownTracker
      → List FallbackAttempt
      → FallbackCandidate
      → ℕ
      → Reply Response × World
      → Turn Response World
  unfolding attempt is_image_error
  on_image_reply ct acc c start (response resp, w) = stop (success resp c acc) ct w
  on_image_reply ct acc c start (failed err, w) =
      if is_canceled w
      then stop canceled ct w
      else if is_image_error err
      then stop
          (aborted (record {
            reason = format;
            provider = c.provider;
            model = c.model;
            status = 0;
            wrapped = err;
          }))
          ct w
      else next (attempt c (plain err) none (now w - start)) ct w

  unfoldable pub try_image :
      CooldownTracker → World → List FallbackAttempt → FallbackCandidate → Turn Response World
  unfolding on_image_reply
  try_image ct w0 acc c =
      let w = elapse w0 in
      if is_canceled w
      then stop canceled ct w
      else on_image_reply ct acc c (now w) (run c.provider c.model w)

  unfoldable pub execute_image_from :
      CooldownTracker
      → World
      → List FallbackAttempt
      → List FallbackCandidate
      → Outcome Response × CooldownTracker × World
  unfolding try_image
  execute_image_from ct w acc [] = (exhausted acc, ct, w)
  execute_image_from ct w acc (c ∷ cs) = elim (try_image ct w acc c) [
    | stop o ct' w' ↦ (o, ct', w')
    | next a ct' w' ↦ execute_image_from ct' w' (acc ++ a ∷ []) cs
  ]

  unfoldable pub execute_image :
      CooldownTracker → World → List FallbackCandidate → Outcome Response × CooldownTracker × World
  unfolding execute_image_from
  execute_image ct w [] = (no_candidates, ct, w)
  execute_image ct w (c ∷ cs) = execute_image_from ct w [] (c ∷ cs)
