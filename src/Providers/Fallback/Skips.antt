-- ===== src/Providers/Fallback/Skips.antt =====
-- What an attempt of pkg/providers/fallback.go says, for a candidate that the chain went past.
use operator_os.Base.{ℕ, ◌+◌, ◌*◌, ◌/◌, ◌≤◌, ◌<◌, ◌≡◌, refl, true, false, some, arith}
use operator_os.Providers.Types.{rate_limit, FailoverError, is_retriable}
use operator_os.Providers.Fallback.{
  FallbackCandidate, FallbackAttempt, cooling, classified, skip, attempt,
}

-- The attempt says that its candidate was skipped, with a wait that is given in nanoseconds, told in
-- whole seconds, to the nearest.
abbrev pub SkippedFor : FallbackCandidate → ℕ → FallbackAttempt → Type 0
SkippedFor c d a =
    (a.candidate ≡ c)
    × (a.skipped ≡ true)
    × (a.reason ≡ some rate_limit)
    × (a.duration ≡ 0)
    × ((seconds : ℕ) × (a.error ≡ cooling (seconds * 1000000000))
        × (seconds * 1000000000 ≤ d + 500000000)
        × (d + 500000000 < (seconds + 1) * 1000000000))

nearest : (d : ℕ) → (d / 1000000000 * 1000000000 ≤ d) × (d < (d / 1000000000 + 1) * 1000000000)
nearest d = omega arith

pub skip-SkippedFor : (c : FallbackCandidate) (d : ℕ) → SkippedFor c d (skip c d)
unfolding skip
skip-SkippedFor c d =
    let (low, high) = nearest (d + 500000000) in
    (refl, refl, refl, refl, ((d + 500000000) / 1000000000, refl, low, high))

-- The attempt says that its candidate failed, with an error that is to be retried.
abbrev pub FailedWith : FallbackCandidate → FailoverError → FallbackAttempt → Type 0
FailedWith c e a =
    (a.candidate ≡ c)
    × (a.skipped ≡ false)
    × (a.reason ≡ some e.reason)
    × (a.error ≡ classified e)
    × (is_retriable e ≡ true)

pub attempt-FailedWith :
    (c : FallbackCandidate) (e : FailoverError) (d : ℕ)
    → is_retriable e ≡ true
    → FailedWith c e (attempt c (classified e) (some e.reason) d)
unfolding attempt
attempt-FailedWith c e d r = (refl, refl, refl, refl, r)
