-- ===== src/Providers/Fallback/Turns.antt =====
-- A turn of the loop of pkg/providers/fallback.go, case by case.
use operator_os.Base.{
  ℕ, ◌-◌, ◌≡◌, refl, true, false, Option, none, some, List, [], ◌∷◌, ◌++◌, ◌⊎◌, inl, inr,
  Bool-cases,
}
use operator_os.Providers.Types.{GoError, FailoverError, is_retriable}
use operator_os.Providers.Cooldown.{
  CooldownTracker, is_available, cooldown_remaining, mark_failure, mark_success,
}
use operator_os.Providers.Classify.{classify_error}
use operator_os.Providers.Classify.Reasons.{classify_error_names}
use operator_os.Providers.Fallback.{
  FallbackCandidate, FallbackAttempt, Env, Reply, Outcome, exhausted, execute_from, response,
  failed, Turn, stop, next, success, canceled, unclassified, aborted, classified, skip, attempt,
  on_classified, on_reply, try_candidate,
}

-- Whether a turn returns or goes on.
pub Turn-cases :
    {R W : Type 0} (t : Turn R W)
    → ((s : record { o : Outcome R; ct : CooldownTracker; w : W }) × (t ≡ stop s.o s.ct s.w))
      ⊎ ((s : record { a : FallbackAttempt; ct : CooldownTracker; w : W }) × (t
            ≡ next s.a s.ct s.w))
Turn-cases (stop o ct w) = inl (record { o = o; ct = ct; w = w }, refl)
Turn-cases (next a ct w) = inr (record { a = a; ct = ct; w = w }, refl)

module _ (env : Env) (ct : CooldownTracker) (acc : List FallbackAttempt)
    (c : FallbackCandidate) where
  open env use {World, Response, is_canceled, now, elapse, run}

  -- What is to be shown of each way in which a turn can end.
  pub record Cases (w0 : World) (P : Turn Response World → Type 0) : Type 0 where
    pub at_canceled : (w : World) → P (stop canceled ct w)
    pub at_skip :
        is_available ct c.provider (now (elapse w0)) ≡ false
        → P (next (skip c (cooldown_remaining ct c.provider (now (elapse w0)))) ct (elapse w0))
    pub at_success :
        is_available ct c.provider (now (elapse w0)) ≡ true
        → (r : Response) (w : World) → P (stop (success r c acc) (mark_success ct c.provider) w)
    pub at_unclassified :
        is_available ct c.provider (now (elapse w0)) ≡ true
        → (err : GoError) (w : World) → P (stop (unclassified c err) ct w)
    pub at_abort :
        is_available ct c.provider (now (elapse w0)) ≡ true
        → (e : FailoverError) (w : World) → e.provider ≡ c.provider
        → e.model ≡ c.model
        → is_retriable e ≡ false
        → P (stop (aborted e) ct w)
    pub at_retry :
        is_available ct c.provider (now (elapse w0)) ≡ true
        → (e : FailoverError) (d : ℕ) (w : World) → is_retriable e ≡ true
        → P (
            next
              (attempt c (classified e) (some e.reason) d)
              (mark_failure ct c.provider e.reason (now w))
              w)

  module _ (w0 : World) (P : Turn Response World → Type 0) (k : Cases w0 P)
      (here : is_available ct c.provider (now (elapse w0)) ≡ true) where
    on_classified_cases :
        (w : World) (d : ℕ) (err : GoError) (r : Option FailoverError)
        → classify_error err c.provider c.model ≡ r
        → P (on_classified env ct w d c err r)
    unfolding on_classified
    on_classified_cases w d err none h = k.at_unclassified here err w
    on_classified_cases w d err (some e) h = elim (Bool-cases (is_retriable e)) [
      | inl y ↦ rw y (k.at_retry here e d w y)
      | inr n ↦
          let v = classify_error_names err c.provider c.model e h in
          rw n (k.at_abort here e w v.0 v.1 n)
    ]

    on_reply_cases :
        (start : ℕ) (reply : Reply Response × World) → P (on_reply env ct acc c start reply)
    unfolding on_reply
    on_reply_cases start (response r, w) = k.at_success here r w
    on_reply_cases start (failed err, w) = elim (Bool-cases (is_canceled w)) [
      | inl y ↦ rw y (k.at_canceled w)
      | inr n ↦ rw n (on_classified_cases w (now w - start) err _ refl)
    ]

  pub try_candidate_cases :
      (w0 : World) (P : Turn Response World → Type 0)
      → Cases w0 P
      → P (try_candidate env ct w0 acc c)
  unfolding try_candidate
  try_candidate_cases w0 P k = elim (Bool-cases (is_canceled (elapse w0))) [
    | inl y ↦ rw y (k.at_canceled (elapse w0))
    | inr n ↦ rw n (elim (Bool-cases (is_available ct c.provider (now (elapse w0)))) [
      | inl y ↦
          rw y (on_reply_cases w0 P k y (now (elapse w0)) (run c.provider c.model (elapse w0)))
      | inr m ↦ rw m (k.at_skip m)
    ])
  ]

module _ (env : Env) (J : CooldownTracker → List FallbackAttempt → List FallbackCandidate → Type 0)
    (Q : Outcome env.Response → CooldownTracker → Type 0) where
  open env use {World, Response}

  -- After a turn, what is promised of the result or what the rest of the loop starts from.
  abbrev pub After : List FallbackCandidate → List FallbackAttempt → Turn Response World → Type 0
  After cs acc (stop o ct w) = Q o ct
  After cs acc (next a ct w) = J ct (acc ++ a ∷ []) cs

  -- The rule for the loop of `Execute`: an invariant of each turn gives what holds of the result.
  pub execute_from_rule :
      ((ct : CooldownTracker) (acc : List FallbackAttempt) → J ct acc [] → Q (exhausted acc) ct)
      → ((ct : CooldownTracker) (w : World) (acc : List FallbackAttempt) (c : FallbackCandidate)
            (cs : List FallbackCandidate)
          → J ct acc (c ∷ cs)
          → After cs acc (try_candidate env ct w acc c))
      → (ct : CooldownTracker) (w : World) (acc : List FallbackAttempt)
        (cs : List FallbackCandidate)
      → J ct acc cs
      → Q (execute_from env ct w acc cs).0 (execute_from env ct w acc cs).1
  unfolding execute_from
  execute_from_rule fin turn ct w acc [] j = fin ct acc j
  execute_from_rule fin turn ct w acc (c ∷ cs) j =
      let after = turn ct w acc c cs j in
      elim (Turn-cases (try_candidate env ct w acc c)) [
        | inl (s, e) ↦ rw (e, execute_from) (rw e at after)
        | inr (s, e) ↦
            rw (e, execute_from)
              (execute_from_rule fin turn s.ct s.w (acc ++ s.a ∷ []) cs (rw e at after))
      ]
