-- ===== src/Providers/Fallback/Trackers.antt =====
-- What the chain of pkg/providers/fallback.go does to the cooldown tracker.
use operator_os.Base.{ℕ, ◌≡◌, ◌≢◌, refl, ◌∙◌, true, List, [], ◌∷◌, Text, lookup}
use operator_os.Providers.Types.{FailoverReason}
use operator_os.Providers.Cooldown.{CooldownTracker, is_available, error_count}
use operator_os.Providers.Cooldown.Availability.{
  mark_failure_frame, mark_success_frame, mark_success_clears,
}
use operator_os.Providers.Cooldown.Counters.{
  AreCounted, mark_failure-AreCounted, mark_success-AreCounted,
}
use operator_os.Providers.Fallback.{
  FallbackCandidate, FallbackAttempt, Env, Outcome, success, no_candidates, canceled, unclassified,
  aborted, exhausted, execute,
}
use operator_os.Providers.Fallback.Turns.{Cases, try_candidate_cases, After, execute_from_rule}

-- The provider is none of the candidates'.
abbrev pub IsForeign : Text → List FallbackCandidate → Type 0
IsForeign q [] = Unit {0}
IsForeign q (c ∷ cs) = (c.provider ≢ q) × IsForeign q cs

module _ (env : Env) (before : CooldownTracker) (q : Text) where
  abbrev Kept : CooldownTracker → List FallbackAttempt → List FallbackCandidate → Type 0
  Kept ct acc cs = (lookup q ct.entries ≡ lookup q before.entries) × IsForeign q cs

  abbrev SameEntry : Outcome env.Response → CooldownTracker → Type 0
  SameEntry o ct = lookup q ct.entries ≡ lookup q before.entries

  turn_keeps :
      (ct : CooldownTracker) (w : env.World) (acc : List FallbackAttempt) (c : FallbackCandidate)
      (cs : List FallbackCandidate)
      → Kept ct acc (c ∷ cs)
      → Cases env ct acc c w (After env Kept SameEntry cs acc)
  turn_keeps ct w acc c cs j = record {
    at_canceled = λ w'. j.0;
    at_skip = λ busy. (j.0, j.1.1);
    at_success = λ here r w'. mark_success_frame ct c.provider q j.1.0 ∙ j.0;
    at_unclassified = λ here err w'. j.0;
    at_abort = λ here e w' p m stays. j.0;
    at_retry =
        λ here e d w' again. (mark_failure_frame ct c.provider q j.1.0 e.reason _ ∙ j.0, j.1.1);
  }

  -- `Execute` does not touch the entry of a provider that none of the candidates has.
  pub execute_frame :
      (w : env.World) (cs : List FallbackCandidate)
      → IsForeign q cs
      → lookup q (execute env before w cs).1.entries ≡ lookup q before.entries
  unfolding execute
  execute_frame w [] h = refl
  execute_frame w (c ∷ cs) h =
      execute_from_rule env Kept SameEntry (λ ct acc j. j.0)
        (λ ct w' acc c' cs' j.
          try_candidate_cases env ct acc c' w' _ (turn_keeps ct w' acc c' cs' j))
        before w [] (c ∷ cs) (refl, h)

module _ (env : Env) where
  abbrev Counted : CooldownTracker → List FallbackAttempt → List FallbackCandidate → Type 0
  Counted ct acc cs = AreCounted ct

  -- A success clears its provider; no result breaks the counters.
  abbrev pub LeavesTracker : Outcome env.Response → CooldownTracker → Type 0
  LeavesTracker (success r c acc) ct =
      AreCounted ct
      × (error_count ct c.provider ≡ 0)
      × ((t : ℕ) → is_available ct c.provider t ≡ true)
  LeavesTracker no_candidates ct = AreCounted ct
  LeavesTracker canceled ct = AreCounted ct
  LeavesTracker (unclassified c err) ct = AreCounted ct
  LeavesTracker (aborted e) ct = AreCounted ct
  LeavesTracker (exhausted acc) ct = AreCounted ct

  turn_counts :
      (ct : CooldownTracker) (w : env.World) (acc : List FallbackAttempt) (c : FallbackCandidate)
      (cs : List FallbackCandidate)
      → AreCounted ct
      → Cases env ct acc c w (After env Counted LeavesTracker cs acc)
  turn_counts ct w acc c cs j = record {
    at_canceled = λ w'. j;
    at_skip = λ busy. j;
    at_success = λ here r w'. (
      mark_success-AreCounted ct c.provider j,
      (mark_success_clears ct c.provider 0 FailoverReason.auth).1,
      λ t. (mark_success_clears ct c.provider t FailoverReason.auth).0,
    );
    at_unclassified = λ here err w'. j;
    at_abort = λ here e w' p m stays. j;
    at_retry = λ here e d w' again. mark_failure-AreCounted ct c.provider e.reason _ j;
  }

  -- `Execute` keeps the counters of every provider consistent, and a success leaves its provider
  -- with no errors and available at any time.
  pub execute-LeavesTracker :
      (ct : CooldownTracker) (w : env.World) (cs : List FallbackCandidate)
      → AreCounted ct
      → LeavesTracker (execute env ct w cs).0 (execute env ct w cs).1
  unfolding execute
  execute-LeavesTracker ct w [] j = j
  execute-LeavesTracker ct w (c ∷ cs) j =
      execute_from_rule env Counted LeavesTracker (λ ct' acc h. h)
        (λ ct' w' acc c' cs' h.
          try_candidate_cases env ct' acc c' w' _ (turn_counts ct' w' acc c' cs' h))
        ct w [] (c ∷ cs) j
