-- ===== src/Tools/Unlinked.antt =====
-- What validatePath of pkg/tools/filesystem.go accepts where no path has links.
use mathlib.Core.List.{append-nil, append_assoc}
use operator_os.Base.{
  ◌≡◌, refl, sym, ap, ◌∙◌, subst, true, false, Option, none, some, [], ◌∷◌, ◌++◌, Text, is_empty,
  if◌then◌else◌, Bool-cases, ◌⊎◌, inl, inr, arith,
}
use operator_os.Tools.Paths.{
  FilePath, pop, reversed, clean, split_slash, Resolved, resolved, not_exist, ok, resolve_ancestor,
  check_parent, check_links, restricted, abs, is_abs, validate_path,
}
use operator_os.Tools.Workspace.{
  IsPlain, IsInside, clean-IsPlain, reversed-IsPlain, reversed-reversed, IsPlain-drop,
  IsInside-is_within_workspace,
}
use operator_os.Tools.Links.{abs_is_clean}

reversed-append : (xs ys acc : FilePath) → reversed acc (xs ++ ys) ≡ reversed (reversed acc xs) ys
unfolding reversed
reversed-append [] ys acc = refl
reversed-append (x ∷ xs) ys acc = reversed-append xs ys (x ∷ acc)

reversed-twice : (xs : FilePath) → reversed [] (reversed [] xs) ≡ xs
reversed-twice xs = reversed-reversed xs [] [] ∙ unfold reversed in append-nil xs

reversed_onto : (acc xs : FilePath) → reversed acc xs ≡ reversed [] xs ++ acc
reversed_onto acc xs =
    ap (reversed acc) (sym (reversed-twice xs))
    ∙ reversed-reversed (reversed [] xs) acc []
    ∙ unfold reversed in refl

IsInside-below :
    (w acc : FilePath) (x : Text)
    → IsInside (reversed [] acc) w
    → IsInside (reversed [] (x ∷ acc)) w
unfolding reversed
IsInside-below w acc x (rest, e) = (
  rest ++ x ∷ [],
  reversed_onto (x ∷ []) acc
      ∙ ap {B = FilePath} (λ l. l ++ x ∷ []) e
      ∙ append_assoc w rest (x ∷ []),
)

module _ (eval : FilePath → Resolved) where
  -- The path that is asked for, from the workspace if it is relative.
  abbrev pub target : FilePath → Text → FilePath
  target w path = if is_abs path then clean (split_slash path) else clean (w ++ split_slash path)

  target-IsPlain : (w : FilePath) (path : Text) → IsPlain (target w path)
  target-IsPlain w path = elim (Bool-cases (is_abs path)) [
    | inl y ↦ rw y (clean-IsPlain (split_slash path))
    | inr n ↦ rw n (clean-IsPlain (w ++ split_slash path))
  ]

  resolve_ancestor-resolved :
      (acc p : FilePath)
      → eval (reversed [] acc) ≡ resolved p
      → resolve_ancestor eval acc ≡ resolved p
  unfolding resolve_ancestor reversed
  resolve_ancestor-resolved [] p h = h
  resolve_ancestor-resolved (x ∷ acc) p h = rw (h, resolve_ancestor) refl

  resolve_ancestor-above :
      (acc : FilePath) (x : Text)
      → eval (reversed [] (x ∷ acc)) ≡ not_exist
      → resolve_ancestor eval (x ∷ acc) ≡ resolve_ancestor eval acc
  unfolding resolve_ancestor
  resolve_ancestor-above acc x h = rw (h, resolve_ancestor) refl

  -- No path has links: what a path leads to is itself, or it does not exist.
  abbrev pub Unlinked : Type 0
  Unlinked = (q : FilePath) → (eval q ≡ resolved q) ⊎ (eval q ≡ not_exist)

  module _ (plain_disk : Unlinked) (w : FilePath) (exists : eval w ≡ resolved w)
      (pw : IsPlain w) where
    -- A path below the workspace, in reverse, has an ancestor that exists in the workspace.
    record HasAncestor (acc : FilePath) : Type 0 where
      plain : IsPlain acc
      inside : IsInside (reversed [] acc) w
      ancestor : FilePath
      leads : resolve_ancestor eval acc ≡ resolved ancestor
      ancestor_plain : IsPlain ancestor
      ancestor_inside : IsInside ancestor w

    workspace-HasAncestor : HasAncestor (reversed [] w)
    workspace-HasAncestor = record {
      plain = reversed-IsPlain w [] pw tt;
      inside = ([], reversed-twice w ∙ sym (append-nil w));
      ancestor = w;
      leads = resolve_ancestor-resolved (reversed [] w) w (ap eval (reversed-twice w) ∙ exists);
      ancestor_plain = pw;
      ancestor_inside = ([], sym (append-nil w));
    }

    below-HasAncestor :
        (acc : FilePath) (x : Text) → IsPlain (x ∷ acc) → HasAncestor acc → HasAncestor (x ∷ acc)
    below-HasAncestor acc x px v =
        let p = reversed [] (x ∷ acc) in
        let inside = IsInside-below w acc x v.inside in
        elim (plain_disk p) [
          | inl e ↦ record {
            plain = px;
            inside = inside;
            ancestor = p;
            leads = resolve_ancestor-resolved (x ∷ acc) p e;
            ancestor_plain = reversed-IsPlain (x ∷ acc) [] px tt;
            ancestor_inside = inside;
          }
          | inr e ↦ record {
            plain = px;
            inside = inside;
            ancestor = v.ancestor;
            leads = resolve_ancestor-above acc x e ∙ v.leads;
            ancestor_plain = v.ancestor_plain;
            ancestor_inside = v.ancestor_inside;
          }
        ]

    parent-HasAncestor :
        (acc : FilePath) (x : Text) (rest : FilePath)
        → IsPlain (x ∷ rest)
        → HasAncestor acc
        → HasAncestor (pop (reversed acc (x ∷ rest)))
    unfolding reversed
    parent-HasAncestor acc x [] p v = v
    parent-HasAncestor acc x (y ∷ rest) (a, b, p) v =
        parent-HasAncestor (x ∷ acc) y rest p (below-HasAncestor acc x (a, b, v.plain) v)

    new_path_checks :
        (rest : FilePath)
        → IsPlain (w ++ rest)
        → eval (w ++ rest) ≡ not_exist
        → check_links eval w (w ++ rest) not_exist ≡ none
    unfolding check_links check_parent
    new_path_checks [] p h =
        let gone : eval w ≡ not_exist = ap eval (sym (append-nil w)) ∙ h in
        absurd (ground (arith, exists, gone))
    new_path_checks (x ∷ rest) p h =
        let v =
          parent-HasAncestor (reversed [] w) x rest (IsPlain-drop w (x ∷ rest) p)
            workspace-HasAncestor in
        let above : pop (reversed [] (w ++ x ∷ rest)) ≡ pop (reversed (reversed [] w) (x ∷ rest)) =
          ap pop (reversed-append w (x ∷ rest) []) in
        let within =
          IsInside-is_within_workspace v.ancestor w v.ancestor_plain pw v.ancestor_inside in
        rw above (rw v.leads (rw within refl))

  -- Where no path has links and the workspace exists, every path that is the workspace or below it is
  -- accepted, and cleaned, whether it exists or not.
  pub inside_is_accepted :
      (cwd : Option FilePath) (path workspace : Text) (w : FilePath)
      → is_empty workspace ≡ false
      → abs cwd workspace ≡ some w
      → Unlinked
      → eval w ≡ resolved w
      → IsInside (target w path) w
      → validate_path eval cwd path workspace true ≡ ok (target w path)
  unfolding validate_path restricted check_links
  inside_is_accepted cwd path workspace w given f plain exists inside =
      let (ws, e) = abs_is_clean cwd workspace w f in
      let pw : IsPlain w = rw e (clean-IsPlain ws) in
      let p = target w path in
      let pp = target-IsPlain w path in
      let within = IsInside-is_within_workspace p w pp pw inside in
      elim (plain p) [
        | inl r ↦ ground (arith, given, f, exists, r, within)
        | inr r ↦
            let (rest, same) = inside in
            let links : check_links eval w p not_exist ≡ none =
              subst (λ x. check_links eval w x not_exist ≡ none) (sym same)
                (new_path_checks plain w exists pw rest (subst IsPlain same pp)
                  (ap eval (sym same) ∙ r)) in
            ground (arith, given, f, exists, r, within, links)
      ]
