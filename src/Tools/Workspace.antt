-- ===== src/Tools/Workspace.antt =====
-- Clean paths and isWithinWorkspace of pkg/tools/filesystem.go.
use mathlib.Core.List.{append-nil}
use operator_os.Base.{
  ℕ, zero, suc, ◌≡◌, refl, sym, ap, ◌∙◌, subst, true, false, List, [], ◌∷◌, ◌++◌, Text, text_eq,
  text_eq_sound, text_eq_refl, length, replicate, Bool-cases, inl, inr, arith,
}
use operator_os.Tools.Paths.{
  FilePath, dot_dot, is_dropped, pop, clean_onto, reversed, clean, rel, is_local,
  is_within_workspace,
}

-- No element is empty, "." or "..".
abbrev pub IsPlain : FilePath → Type 0
IsPlain [] = Unit {0}
IsPlain (s ∷ ss) = (is_dropped s ≡ false) × (text_eq s dot_dot ≡ false) × IsPlain ss

pop-IsPlain : (p : FilePath) → IsPlain p → IsPlain (pop p)
pop-IsPlain [] h = tt
pop-IsPlain (s ∷ p) h = h.2

clean_onto-IsPlain :
    (ss : List Text) (kept : FilePath) → IsPlain kept → IsPlain (clean_onto kept ss)
unfolding clean_onto
clean_onto-IsPlain [] kept h = h
clean_onto-IsPlain (s ∷ ss) kept h = elim (Bool-cases (is_dropped s)) [
  | inl y ↦ rw (y, clean_onto) (clean_onto-IsPlain ss kept h)
  | inr n ↦ elim (Bool-cases (text_eq s dot_dot)) [
    | inl d ↦ rw (n, clean_onto) (rw d (clean_onto-IsPlain ss (pop kept) (pop-IsPlain kept h)))
    | inr u ↦ rw (n, clean_onto) (rw u (clean_onto-IsPlain ss (s ∷ kept) (n, u, h)))
  ]
]

pub reversed-IsPlain : (p acc : FilePath) → IsPlain p → IsPlain acc → IsPlain (reversed acc p)
unfolding reversed
reversed-IsPlain [] acc h g = g
reversed-IsPlain (s ∷ p) acc (a, b, h) g = reversed-IsPlain p (s ∷ acc) h (a, b, g)

pub clean-IsPlain : (ss : List Text) → IsPlain (clean ss)
unfolding clean
clean-IsPlain ss = reversed-IsPlain (clean_onto [] ss) [] (clean_onto-IsPlain ss [] tt) tt

clean_onto_plain : (p kept : FilePath) → IsPlain p → clean_onto kept p ≡ reversed kept p
unfolding clean_onto reversed
clean_onto_plain [] kept h = refl
clean_onto_plain (s ∷ p) kept (a, b, h) = rw a (rw b (clean_onto_plain p (s ∷ kept) h))

pub reversed-reversed : (p a b : FilePath) → reversed a (reversed b p) ≡ reversed (p ++ a) b
unfolding reversed
reversed-reversed [] a b = refl
reversed-reversed (x ∷ p) a b = reversed-reversed p a (x ∷ b)

pub clean_plain : (p : FilePath) → IsPlain p → clean p ≡ p
unfolding clean
clean_plain p h =
    ap (reversed []) (clean_onto_plain p [] h)
    ∙ reversed-reversed p [] []
    ∙ unfold reversed in append-nil p

-- The path is the directory, or lies below it.
abbrev pub IsInside : FilePath → FilePath → Type 0
IsInside p w = (rest : FilePath) × (p ≡ w ++ rest)

not_local : (ss : List Text) → is_local 0 (dot_dot ∷ ss) ≡ false
unfolding is_local text_eq
not_local ss = refl

rel-IsInside : (w p : FilePath) → is_local 0 (rel w p) ≡ true → IsInside p w
unfolding rel
rel-IsInside [] p h = (p, refl)
rel-IsInside (b ∷ w) [] h =
    let no : false ≡ true = sym (not_local (replicate (length w) dot_dot)) ∙ h in
    absurd (ground arith)
rel-IsInside (b ∷ w) (t ∷ p) h = elim (Bool-cases (text_eq b t)) [
  | inl y ↦
      let (rest, e) = rel-IsInside w p (rw (y, rel) at h) in
      let same : b ≡ t = text_eq_sound b t y in
      (rest, rw (sym same) (ap {B = FilePath} (λ l. b ∷ l) e))
  | inr n ↦
      let no : false ≡ true =
        sym (not_local (replicate (length w) dot_dot ++ (t ∷ p))) ∙ (rw (n, rel) at h) in
      absurd (ground arith)
]

pub is_within_workspace-IsInside :
    (p w : FilePath) → is_within_workspace p w ≡ true → IsInside (clean p) (clean w)
unfolding is_within_workspace
is_within_workspace-IsInside p w h = rel-IsInside (clean w) (clean p) h

plain_is_local : (p : FilePath) (d : ℕ) → IsPlain p → is_local d p ≡ true
unfolding is_local
plain_is_local [] d h = refl
plain_is_local (s ∷ p) zero (a, b, h) = rw b (plain_is_local p 1 h)
plain_is_local (s ∷ p) (suc d) (a, b, h) = rw b (plain_is_local p (suc (suc d)) h)

rel-append : (w p : FilePath) → rel w (w ++ p) ≡ p
unfolding rel
rel-append [] p = refl
rel-append (b ∷ w) p = rw (text_eq_refl b) (rel-append w p)

pub IsPlain-drop : (w p : FilePath) → IsPlain (w ++ p) → IsPlain p
IsPlain-drop [] p h = h
IsPlain-drop (b ∷ w) p (x, y, h) = IsPlain-drop w p h

pub IsInside-is_within_workspace :
    (p w : FilePath) → IsPlain p → IsPlain w → IsInside p w → is_within_workspace p w ≡ true
unfolding is_within_workspace
IsInside-is_within_workspace p w hp hw (rest, e) =
    let r : rel (clean w) (clean p) ≡ rest =
      ap (rel (clean w)) (clean_plain p hp ∙ e)
      ∙ ap (λ x. rel x (w ++ rest)) (clean_plain w hw)
      ∙ rel-append w rest in
    rw r (plain_is_local rest 0 (IsPlain-drop w rest (subst IsPlain e hp)))
