-- ===== src/Tools/Links.antt =====
-- What validatePath of pkg/tools/filesystem.go lets through.
use operator_os.Base.{
  ◌≡◌, refl, ◌⊎◌, subst, true, Option, none, some, List, [], ◌∷◌, ◌++◌, Text, is_empty,
  if◌then◌else◌, Bool-cases, Option-cases, inl, inr, arith,
}
use operator_os.Tools.Paths.{
  FilePath, pop, reversed, clean, split_slash, is_within_workspace, Resolved, resolved, not_exist,
  failed, ok, resolve_ancestor, check_parent, check_links, real_workspace, restricted, abs, is_abs,
  validate_path,
}
use operator_os.Tools.Workspace.{
  IsPlain, IsInside, clean-IsPlain, clean_plain, is_within_workspace-IsInside,
}

pub abs_is_clean :
    (cwd : Option FilePath) (t : Text) (w : FilePath)
    → abs cwd t ≡ some w
    → (ws : List Text) × (w ≡ clean ws)
abs_is_clean cwd t w h = elim (Bool-cases (is_abs t)) [
  | inl y ↦ (split_slash t, ground (arith, y))
  | inr n ↦ elim (Option-cases cwd) [
    | inl f ↦ absurd (ground (arith, n, f))
    | inr (d, f) ↦ (d ++ split_slash t, ground (arith, n, f))
  ]
]

-- What the nearest ancestor that exists leads to, the path's elements in reverse: every longer one does
-- not exist; if not even the root does, there is none.
pub data Ancestor (eval : FilePath → Resolved) : FilePath → Resolved → Type 0 where
  at_root : Ancestor eval [] (eval [])
  exists :
      {x : Text} {above : FilePath} (p : FilePath)
      → eval (reversed [] (x ∷ above)) ≡ resolved p
      → Ancestor eval (x ∷ above) (resolved p)
  fails :
      {x : Text} {above : FilePath}
      → eval (reversed [] (x ∷ above)) ≡ failed
      → Ancestor eval (x ∷ above) failed
  goes_up :
      {x : Text} {above : FilePath} {r : Resolved}
      → eval (reversed [] (x ∷ above)) ≡ not_exist
      → Ancestor eval above r
      → Ancestor eval (x ∷ above) r

Resolved-cases :
    (r : Resolved) → ((p : FilePath) × (r ≡ resolved p)) ⊎ ((r ≡ not_exist) ⊎ (r ≡ failed))
Resolved-cases (resolved p) = inl (p, refl)
Resolved-cases not_exist = inr (inl refl)
Resolved-cases failed = inr (inr refl)

resolve_ancestor-Ancestor :
    (eval : FilePath → Resolved) (path : FilePath) → Ancestor eval path (resolve_ancestor eval path)
unfolding resolve_ancestor
resolve_ancestor-Ancestor eval [] = at_root
resolve_ancestor-Ancestor eval (x ∷ above) =
    elim (Resolved-cases (eval (reversed [] (x ∷ above)))) [
      | inl (p, e) ↦ rw (e, resolve_ancestor) (exists p e)
      | inr (inl e) ↦ rw (e, resolve_ancestor) (goes_up e (resolve_ancestor-Ancestor eval above))
      | inr (inr e) ↦ rw (e, resolve_ancestor) (fails e)
    ]

-- What is known of a path, of its links or of those of its nearest ancestor that exists.
abbrev pub ParentStays : FilePath → Resolved → Type 0
ParentStays real (resolved p) = IsInside (clean p) (clean real)
ParentStays real not_exist = Unit {0}
ParentStays real failed = ⊥

abbrev pub LinksStay : (FilePath → Resolved) → FilePath → FilePath → Resolved → Type 0
LinksStay eval real path (resolved p) = IsInside (clean p) (clean real)
LinksStay eval real path not_exist =
    (r : Resolved) × Ancestor eval (pop (reversed [] path)) r × ParentStays real r
LinksStay eval real path failed = ⊥

module _ (eval : FilePath → Resolved) where
  check_parent-ParentStays :
      (real : FilePath) (r : Resolved) → check_parent eval real r ≡ none → ParentStays real r
  unfolding check_parent
  check_parent-ParentStays real (resolved p) h = is_within_workspace-IsInside p real (ground arith)
  check_parent-ParentStays real not_exist h = tt
  check_parent-ParentStays real failed h = absurd (ground arith)

  check_links-LinksStay :
      (real path : FilePath) (r : Resolved)
      → check_links eval real path r ≡ none
      → LinksStay eval real path r
  unfolding check_links
  check_links-LinksStay real path (resolved p) h =
      is_within_workspace-IsInside p real (ground arith)
  check_links-LinksStay real path not_exist h =
      let above = pop (reversed [] path) in
      let r = resolve_ancestor eval above in
      (r, resolve_ancestor-Ancestor eval above, check_parent-ParentStays real r h)
  check_links-LinksStay real path failed h = absurd (ground arith)

  restricted_ok :
      (w path p : FilePath)
      → restricted eval w path ≡ ok p
      → (path ≡ p)
        × (is_within_workspace path w ≡ true)
        × (check_links eval (real_workspace eval w (eval w)) path (eval path) ≡ none)
  unfolding restricted
  restricted_ok w path p h = elim (Bool-cases (is_within_workspace path w)) [
    | inr n ↦ absurd (ground (arith, n))
    | inl y ↦
        elim (Option-cases (check_links eval (real_workspace eval w (eval w)) path (eval path))) [
          | inr (e, f) ↦ absurd (ground (arith, y, f))
          | inl f ↦ (ground (arith, y, f), y, f)
        ]
  ]

  abbrev pub IsSafe : FilePath → FilePath → Type 0
  IsSafe w p = IsPlain p × IsInside p w × LinksStay eval (real_workspace eval w (eval w)) p (eval p)

  restricted-IsSafe :
      (ws path : List Text) (p : FilePath)
      → restricted eval (clean ws) (clean path) ≡ ok p
      → IsSafe (clean ws) p
  restricted-IsSafe ws path p h =
      let w = clean ws in
      let q = clean path in
      let (same, inside, links) = restricted_ok w q p h in
      let i = is_within_workspace-IsInside q w inside in
      let i' = subst (λ x. IsInside x (clean w)) (clean_plain q (clean-IsPlain path)) i in
      let i2 = subst (IsInside q) (clean_plain w (clean-IsPlain ws)) i' in
      subst (IsSafe w) same (
        clean-IsPlain path,
        i2,
        check_links-LinksStay (real_workspace eval w (eval w)) q (eval q) links,
      )

  accepted-IsSafe :
      (w : FilePath) (t : Text) (p : FilePath)
      → ((ws : List Text) × (w ≡ clean ws))
      → restricted eval w (if is_abs t then clean (split_slash t) else clean (w ++ split_slash t))
        ≡ ok p
      → IsSafe w p
  accepted-IsSafe w t p (ws, e) h = elim (Bool-cases (is_abs t)) [
    | inl y ↦ rw e (restricted-IsSafe ws (split_slash t) p (rw e at (rw y at h)))
    | inr n ↦ rw e (restricted-IsSafe ws (clean ws ++ split_slash t) p (rw e at (rw n at h)))
  ]

  -- A restricted path that is accepted has no element "", "." or "..", is the workspace or below it;
  -- and if it exists, what its links lead to is the real workspace or below it, else what those of the
  -- nearest ancestor that exists lead to, if there is one.
  pub validate_path-IsSafe :
      (cwd : Option FilePath) (path workspace : Text) (p : FilePath)
      → validate_path eval cwd path workspace true ≡ ok p
      → (w : FilePath) × (abs cwd workspace ≡ some w) × IsSafe w p
  unfolding validate_path
  validate_path-IsSafe cwd path workspace p h = elim (Bool-cases (is_empty workspace)) [
    | inl y ↦ absurd (ground (arith, y))
    | inr n ↦ elim (Option-cases (abs cwd workspace)) [
      | inl f ↦ absurd (ground (arith, n, f))
      | inr (w, f) ↦ (
        w,
        f,
        accepted-IsSafe w path p (abs_is_clean cwd workspace w f)
            (rw (f, validate_path) at (rw n at h)),
      )
    ]
  ]
