-- ===== src/Providers/Fallback/Cooling.antt =====
-- The chain of pkg/providers/fallback.go when every provider is cooling down.
use mathlib.Core.List.{append_assoc, append-nil}
use operator_os.Base.{◌≡◌, refl, false, List, [], ◌∷◌, ◌++◌}
use operator_os.Providers.Cooldown.{CooldownTracker, is_available, cooldown_remaining}
use operator_os.Providers.Fallback.{
  FallbackCandidate, FallbackAttempt, Env, exhausted, next, skip, try_candidate, execute_from,
  execute,
}
use operator_os.Providers.Fallback.Skips.{SkippedFor, skip-SkippedFor}

module _ (env : Env) (ct : CooldownTracker) where
  open env use {World, is_canceled, now, elapse}

  -- No candidate's provider is available at the time of its turn, and nobody cancels before it.
  abbrev pub AllBusy : World → List FallbackCandidate → Type 0
  AllBusy w [] = Unit {0}
  AllBusy w (c ∷ cs) =
      (is_canceled (elapse w) ≡ false)
      × (is_available ct c.provider (now (elapse w)) ≡ false)
      × AllBusy (elapse w) cs

  -- One skipped attempt for each candidate, with the wait at its turn.
  abbrev skips : World → List FallbackCandidate → List FallbackAttempt
  skips w [] = []
  skips w (c ∷ cs) =
      skip c (cooldown_remaining ct c.provider (now (elapse w))) ∷ skips (elapse w) cs

  -- The world after as many turns as there are candidates, with no call of `run`.
  abbrev pub elapses : World → List FallbackCandidate → World
  elapses w [] = w
  elapses w (c ∷ cs) = elapses (elapse w) cs

  busy_turn :
      (w : World) (acc : List FallbackAttempt) (c : FallbackCandidate)
      → is_canceled (elapse w) ≡ false
      → is_available ct c.provider (now (elapse w)) ≡ false
      → try_candidate env ct w acc c
        ≡ next (skip c (cooldown_remaining ct c.provider (now (elapse w)))) ct (elapse w)
  unfolding try_candidate
  busy_turn w acc c live busy = rw (live, busy)

  busy_loop :
      (w : World) (acc : List FallbackAttempt) (cs : List FallbackCandidate)
      → AllBusy w cs
      → execute_from env ct w acc cs ≡ (exhausted (acc ++ skips w cs), ct, elapses w cs)
  unfolding execute_from
  busy_loop w acc [] h = rw (append-nil acc)
  busy_loop w acc (c ∷ cs) h =
      rw (busy_turn w acc c h.0 h.1, execute_from)
        (rw (busy_loop (elapse w) (acc ++ _ ∷ []) cs h.2, append_assoc) refl)

  -- One attempt for each candidate, which says that it was skipped, with the wait at its turn.
  abbrev pub AllSkipped : World → List FallbackCandidate → List FallbackAttempt → Type 0
  AllSkipped w [] [] = Unit {0}
  AllSkipped w [] (a ∷ as') = ⊥
  AllSkipped w (c ∷ cs) [] = ⊥
  AllSkipped w (c ∷ cs) (a ∷ as') =
      SkippedFor c (cooldown_remaining ct c.provider (now (elapse w))) a
      × AllSkipped (elapse w) cs as'

  skips-AllSkipped : (w : World) (cs : List FallbackCandidate) → AllSkipped w cs (skips w cs)
  skips-AllSkipped w [] = tt
  skips-AllSkipped w (c ∷ cs) = (
    skip-SkippedFor c (cooldown_remaining ct c.provider (now (elapse w))),
    skips-AllSkipped (elapse w) cs,
  )

  -- If every candidate is cooling down at its turn and nobody cancels, `Execute` calls no provider,
  -- leaves the tracker as it is, and returns that all are exhausted, with one attempt for each
  -- candidate, in order: marked as skipped, for a rate limit, with no duration, and with what the
  -- tracker tells of the wait at its turn, in seconds to the nearest.
  pub execute-AllBusy :
      (w : World) (c : FallbackCandidate) (cs : List FallbackCandidate)
      → AllBusy w (c ∷ cs)
      → (acc : List FallbackAttempt) × (execute env ct w (c ∷ cs)
          ≡ (exhausted acc, ct, elapses w (c ∷ cs)))
        × AllSkipped w (c ∷ cs) acc
  unfolding execute
  execute-AllBusy w c cs h =
      (skips w (c ∷ cs), busy_loop w [] (c ∷ cs) h, skips-AllSkipped w (c ∷ cs))
