-- ===== src/Agent/Sanitized.antt =====
-- The histories that pkg/agent/context.go lets through.
use operator_os.Base.{◌≡◌, refl, ap, true, List, [], ◌∷◌, ◌++◌, Bool-cases, ◌⊎◌, inl, inr, arith}
use operator_os.Providers.Messages.{Message}
use operator_os.Agent.Context.{
  Kind, prompt, result, calling, reply, asking, other_kind, kind, fits, answers, may_call,
  sanitize_from, sanitize_history_for_provider,
}

abbrev pub AllResults : List Message → Type 0
AllResults [] = Unit {0}
AllResults (m ∷ ms) = (kind m ≡ result) × AllResults ms

-- A message in its place, behind the messages `before`, newest first.
pub data Placed (before : List Message) (m : Message) : Type 0 where
  spoken : (kind m ≡ reply) ⊎ ((kind m ≡ asking) ⊎ (kind m ≡ other_kind)) → Placed before m
  answering :
      (results older : List Message) (c : Message)
      → kind m ≡ result
      → before ≡ results ++ c ∷ older
      → AllResults results
      → kind c ≡ calling
      → Placed before m
  called :
      (older : List Message) (p : Message)
      → kind m ≡ calling
      → before ≡ p ∷ older
      → (kind p ≡ asking) ⊎ (kind p ≡ result)
      → Placed before m

-- A history of which every message is in its place.
abbrev pub PlacedFrom : List Message → List Message → Type 0
PlacedFrom before [] = Unit {0}
PlacedFrom before (m ∷ ms) = Placed before m × PlacedFrom (m ∷ before) ms

abbrev Answered : List Message → Type 0
Answered before =
    (results : List Message) × (older : List Message) × (c : Message) × (before
      ≡ results ++ c ∷ older)
    × AllResults results
    × (kind c ≡ calling)

kind_cases :
    (k : Kind)
    → ((k ≡ result) ⊎ (k ≡ calling))
      ⊎ ((k ≡ prompt) ⊎ ((k ≡ reply) ⊎ ((k ≡ asking) ⊎ (k ≡ other_kind))))
kind_cases prompt = inr (inl refl)
kind_cases result = inl (inl refl)
kind_cases calling = inl (inr refl)
kind_cases reply = inr (inr (inl refl))
kind_cases asking = inr (inr (inr (inl refl)))
kind_cases other_kind = inr (inr (inr (inr refl)))

answers-Answered : (before : List Message) → answers before ≡ true → Answered before
answers-Answered [] h = absurd (ground arith)
answers-Answered (m ∷ ms) h = elim (kind_cases (kind m)) [
  | inl (inl r) ↦
      let (rs, older, c, e, all, k) = answers-Answered ms (rw (answers, r) at h) in
      (m ∷ rs, older, c, ap (λ t. m ∷ t) e, (r, all), k)
  | inl (inr k) ↦ ([], ms, m, refl, tt, k)
  | inr other ↦ absurd (ground arith)
]

Answered-answers :
    (results older : List Message) (c : Message)
    → AllResults results
    → kind c ≡ calling
    → answers (results ++ c ∷ older) ≡ true
Answered-answers [] older c all k = rw (answers, k) refl
Answered-answers (r ∷ rs) older c (e, all) k = rw (answers, e) (Answered-answers rs older c all k)

fits-Placed : (before : List Message) (m : Message) → fits (kind m) before ≡ true → Placed before m
fits-Placed before m h = elim (kind_cases (kind m)) [
  | inl (inl r) ↦
      let (rs, older, c, e, all, k) = answers-Answered before (rw r at h) in
      answering rs older c r e all k
  | inl (inr k) ↦ after_call before (rw k at h) k
  | inr (inl p) ↦ absurd (ground arith)
  | inr (inr s) ↦ spoken s
]
  where
    after_call : (ms : List Message) → may_call ms ≡ true → kind m ≡ calling → Placed ms m
    after_call [] e k = absurd (ground arith)
    after_call (p ∷ older) e k = called older p k refl (ground arith)

Placed-fits : (before : List Message) (m : Message) → Placed before m → fits (kind m) before ≡ true
Placed-fits before m (spoken s) = ground arith
Placed-fits before m (answering rs older c r e all k) =
    rw r (rw e (Answered-answers rs older c all k))
Placed-fits before m (called older p k e s) = rw k (rw e (ground arith))

sanitize_from-PlacedFrom : (before ms : List Message) → PlacedFrom before (sanitize_from before ms)
unfolding sanitize_from
sanitize_from-PlacedFrom before [] = tt
sanitize_from-PlacedFrom before (m ∷ ms) = elim (Bool-cases (fits (kind m) before)) [
  | inl y ↦ rw y (fits-Placed before m y, sanitize_from-PlacedFrom (m ∷ before) ms)
  | inr n ↦ rw n (sanitize_from-PlacedFrom before ms)
]

sanitize_from-all : (before ms : List Message) → PlacedFrom before ms → sanitize_from before ms ≡ ms
unfolding sanitize_from
sanitize_from-all before [] h = refl
sanitize_from-all before (m ∷ ms) (p, h) =
    rw (Placed-fits before m p) (ap (λ t. m ∷ t) (sanitize_from-all (m ∷ before) ms h))

-- Of every history, what is sent has no system message, no tool result that does not follow a tool
-- call and results of tools, and no tool call that does not follow the user or a tool; and a history
-- that is so already is sent as it is.
pub sanitize_history_exact :
    (ms placed : List Message)
    → PlacedFrom [] placed
    → PlacedFrom [] (sanitize_history_for_provider ms)
      × (sanitize_history_for_provider placed ≡ placed)
unfolding sanitize_history_for_provider
sanitize_history_exact ms placed h = (sanitize_from-PlacedFrom [] ms, sanitize_from-all [] placed h)
