-- ===== src/Providers/Fallback/Order.antt =====
-- Which candidates the chain of pkg/providers/fallback.go has tried, and in which order.
use operator_os.Base.{ℕ, ◌≡◌, true, false, List, [], ◌∷◌, ◌++◌, map}
use operator_os.Providers.Types.{FailoverError, is_retriable}
use operator_os.Providers.Cooldown.{
  CooldownTracker, is_available, cooldown_remaining, mark_failure, mark_success,
}
use operator_os.Providers.Fallback.{
  FallbackCandidate, FallbackAttempt, Env, Outcome, success, no_candidates, canceled, unclassified,
  aborted, exhausted,
}
use operator_os.Providers.Fallback.Skips.{SkippedFor, FailedWith}

abbrev pub tried : List FallbackAttempt → List FallbackCandidate
tried = map (λ a. a.candidate)

-- What the loop went past, from a tracker to the one it is left with: a candidate whose provider the
-- tracker then held back, for as long as the attempt says, or one whose provider was available and
-- failed with an error to retry, which the tracker then got to know.
pub data Passed (before : CooldownTracker) : List FallbackAttempt → CooldownTracker → Type 0 where
  none_yet : Passed before [] before
  was_skipped :
      {acc : List FallbackAttempt} {ct : CooldownTracker} (a : FallbackAttempt)
      (c : FallbackCandidate) (t : ℕ)
      → Passed before acc ct
      → is_available ct c.provider t ≡ false
      → SkippedFor c (cooldown_remaining ct c.provider t) a
      → Passed before (acc ++ a ∷ []) ct
  was_retriable :
      {acc : List FallbackAttempt} {ct : CooldownTracker} (a : FallbackAttempt)
      (c : FallbackCandidate) (e : FailoverError) (t later : ℕ)
      → Passed before acc ct
      → is_available ct c.provider t ≡ true
      → FailedWith c e a
      → Passed before (acc ++ a ∷ []) (mark_failure ct c.provider e.reason later)

-- The candidates split into those that were passed, one that was available and so was called, and the
-- rest.
abbrev pub StopsAt :
    CooldownTracker
    → List FallbackCandidate
    → List FallbackAttempt
    → FallbackCandidate
    → CooldownTracker
    → Type 0
StopsAt before cs acc c ct =
    (rest : List FallbackCandidate) × (cs ≡ tried acc ++ c ∷ rest)
    × Passed before acc ct
    × ((t : ℕ) × (is_available ct c.provider t ≡ true))

-- What the result, with the tracker that it leaves, says of the candidates.
abbrev pub Accounts :
    {R : Type 0} → CooldownTracker → List FallbackCandidate → Outcome R → CooldownTracker → Type 0
Accounts before cs (success r c acc) after =
    (ct : CooldownTracker) × (after ≡ mark_success ct c.provider) × StopsAt before cs acc c ct
Accounts before cs no_candidates after = (cs ≡ []) × (after ≡ before)
Accounts before cs canceled after =
    (acc : List FallbackAttempt) × (rest : List FallbackCandidate) × (cs ≡ tried acc ++ rest)
    × Passed before acc after
Accounts before cs (unclassified c err) after =
    (acc : List FallbackAttempt) × StopsAt before cs acc c after
Accounts before cs (aborted e) after =
    (acc : List FallbackAttempt) × StopsAt before cs acc
      (record { provider = e.provider; model = e.model }) after
    × (is_retriable e ≡ false)
Accounts before cs (exhausted acc) after = (cs ≡ tried acc) × Passed before acc after

module _ (env : Env) (before : CooldownTracker) (all : List FallbackCandidate) where
  -- The invariant of the loop: the attempts so far and the candidates to come make up the list.
  abbrev Split : CooldownTracker → List FallbackAttempt → List FallbackCandidate → Type 0
  Split ct acc cs = (all ≡ tried acc ++ cs) × Passed before acc ct

  abbrev Promise : Outcome env.Response → CooldownTracker → Type 0
  Promise o ct = Accounts before all o ct
