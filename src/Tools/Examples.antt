-- ===== src/Tools/Examples.antt =====
-- Runs of validatePath of pkg/tools/filesystem.go, and the theorems at concrete inputs.
use operator_os.Base.{
  ◌≡◌, refl, true, none, some, [], ◌∷◌, codes, text_eq, if◌then◌else◌, Bool-cases, inl, inr,
}
use operator_os.Tools.Paths.{
  FilePath, Resolved, resolved, not_exist, ok, err, symlink_outside, outside_workspace, abs,
  validate_path, split_slash, clean,
}
use operator_os.Tools.Links.{IsSafe, validate_path-IsSafe}
use operator_os.Tools.Unlinked.{Unlinked, inside_is_accepted, target}

-- "/w/out" is a link to "/etc", and there is no "/w/new".
abbrev disk : FilePath → Resolved
disk [] = resolved []
disk (x ∷ []) = resolved (x ∷ [])
disk (x ∷ y ∷ r) =
    if text_eq y (codes "out")
    then resolved (codes "etc" ∷ r)
    else if text_eq y (codes "new")
    then not_exist
    else resolved (x ∷ y ∷ r)

new_file :
    validate_path disk none (codes "a/.././new") (codes "/w/") true
    ≡ ok (codes "w" ∷ codes "new" ∷ [])
unfolding validate_path text_eq
new_file = refl

through_link : validate_path disk none (codes "out/passwd") (codes "/w") true ≡ err symlink_outside
unfolding validate_path text_eq
through_link = refl

above : validate_path disk none (codes "/w/../etc") (codes "/w") true ≡ err outside_workspace
unfolding validate_path text_eq
above = refl

validate_path-IsSafe_example :
    (w : FilePath) × (abs none (codes "/w/") ≡ some w)
    × IsSafe disk w (codes "w" ∷ codes "new" ∷ [])
validate_path-IsSafe_example =
    validate_path-IsSafe disk none (codes "a/.././new") (codes "/w/") (codes "w" ∷ codes "new" ∷ [])
      new_file

-- A disk with a root and "/w" only.
abbrev bare : FilePath → Resolved
bare [] = resolved []
bare (x ∷ []) = if text_eq x (codes "w") then resolved (x ∷ []) else not_exist
bare (x ∷ y ∷ r) = not_exist

bare-Unlinked : Unlinked bare
bare-Unlinked [] = inl refl
bare-Unlinked (x ∷ []) = elim (Bool-cases (text_eq x (codes "w"))) [
  | inl y ↦ inl (rw y refl)
  | inr n ↦ inr (rw n refl)
]
bare-Unlinked (x ∷ y ∷ r) = inr refl

inside_is_accepted_example :
    validate_path bare (some []) (codes "b/../c/d") (codes "w") true
    ≡ ok (target bare (codes "w" ∷ []) (codes "b/../c/d"))
inside_is_accepted_example =
    inside_is_accepted bare (some []) (codes "b/../c/d") (codes "w") (codes "w" ∷ []) refl
      (unfold split_slash clean text_eq in refl) bare-Unlinked (unfold text_eq in refl)
      (codes "c" ∷ codes "d" ∷ [], (unfold split_slash clean text_eq in refl))
