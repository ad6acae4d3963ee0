-- ===== src/Tools/Paths.antt =====
-- validatePath of pkg/tools/filesystem.go, on Unix. An absolute path is the list of its elements; the
-- working directory of the process and EvalSymlinks, on one state of the file system, are parameters.
use operator_os.Base.{
  ℕ, zero, suc, Bool, true, false, ◌||◌, Option, none, some, List, [], ◌∷◌, ◌++◌, Text, codes,
  text_eq, is_empty, length, replicate, ◌==◌, if◌then◌else◌,
}

abbrev pub FilePath : Type 0
FilePath = List Text

abbrev pub dot_dot : Text
dot_dot = b'.' ∷ b'.' ∷ []

abbrev add_front : ℕ → List Text → List Text
add_front c [] = (c ∷ []) ∷ []
add_front c (s ∷ ss) = (c ∷ s) ∷ ss

-- The elements between the slashes.
unfoldable pub split_slash : Text → List Text
split_slash [] = [] ∷ []
split_slash (c ∷ s) = let rest = split_slash s in if c == b'/' then [] ∷ rest else add_front c rest

-- `filepath.IsAbs`
abbrev pub is_abs : Text → Bool
is_abs [] = false
is_abs (c ∷ s) = c == b'/'

abbrev pub is_dropped : Text → Bool
is_dropped s = is_empty s || text_eq s (codes ".")

abbrev pub pop : FilePath → FilePath
pop [] = []
pop (x ∷ xs) = xs

-- `filepath.Clean` of an absolute path: the elements that are kept, the last one first.
unfoldable pub clean_onto : FilePath → List Text → FilePath
clean_onto kept [] = kept
clean_onto kept (s ∷ ss) =
    clean_onto (if is_dropped s then kept else if text_eq s dot_dot then pop kept else s ∷ kept) ss

unfoldable pub reversed : FilePath → FilePath → FilePath
reversed acc [] = acc
reversed acc (x ∷ xs) = reversed (x ∷ acc) xs

unfoldable pub clean : List Text → FilePath
unfolding clean_onto reversed
clean ss = reversed [] (clean_onto [] ss)

-- `filepath.Rel` of two clean absolute paths.
unfoldable pub rel : FilePath → FilePath → List Text
rel [] target = target
rel (b ∷ base) [] = replicate (suc (length base)) dot_dot
rel (b ∷ base) (t ∷ target) =
    if text_eq b t then rel base target else replicate (suc (length base)) dot_dot ++ (t ∷ target)

-- `filepath.IsLocal`: the path never leaves where it starts, so many elements below which it is.
unfoldable pub is_local : ℕ → List Text → Bool
is_local depth [] = true
is_local zero (s ∷ ss) = if text_eq s dot_dot then false else is_local 1 ss
is_local (suc depth) (s ∷ ss) = is_local (if text_eq s dot_dot then depth else suc (suc depth)) ss

unfoldable pub is_within_workspace : FilePath → FilePath → Bool
unfolding rel is_local
is_within_workspace candidate workspace = is_local 0 (rel (clean workspace) (clean candidate))

-- `filepath.Abs`; `none` when there is no working directory.
abbrev pub abs : Option FilePath → Text → Option FilePath
abs cwd t =
    if is_abs t
    then some (clean (split_slash t))
    else elim cwd [ none ↦ none | some d ↦ some (clean (d ++ split_slash t)) ]

-- What EvalSymlinks returns.
pub data Resolved : Type 0 where
  resolved : FilePath → Resolved
  not_exist : Resolved
  failed : Resolved

pub data PathError : Type 0 where
  workspace_undefined : PathError
  workspace_unresolved : PathError
  outside_workspace : PathError
  symlink_outside : PathError
  path_unresolved : PathError

pub data Result : Type 0 where
  ok : FilePath → Result
  err : PathError → Result

module _ (eval_symlinks : FilePath → Resolved) where
  -- The loop of resolveExistingAncestor, on the elements with the last one first.
  unfoldable pub resolve_ancestor : FilePath → Resolved
  resolve_ancestor [] = eval_symlinks []
  resolve_ancestor (x ∷ above) =
      let rest = resolve_ancestor above in
      elim (eval_symlinks (reversed [] (x ∷ above))) [
        | resolved p ↦ resolved p
        | failed ↦ failed
        | not_exist ↦ rest
      ]

  -- The checks that follow links, with the real workspace.
  unfoldable pub check_parent : FilePath → Resolved → Option PathError
  check_parent real (resolved p) = if is_within_workspace p real then none else some symlink_outside
  check_parent real not_exist = none
  check_parent real failed = some path_unresolved

  unfoldable pub check_links : FilePath → FilePath → Resolved → Option PathError
  unfolding check_parent resolve_ancestor
  check_links real path (resolved p) =
      if is_within_workspace p real then none else some symlink_outside
  check_links real path not_exist = check_parent real (resolve_ancestor (pop (reversed [] path)))
  check_links real path failed = some path_unresolved

  abbrev pub real_workspace : FilePath → Resolved → FilePath
  real_workspace workspace (resolved p) = p
  real_workspace workspace not_exist = workspace
  real_workspace workspace failed = workspace

  unfoldable pub restricted : FilePath → FilePath → Result
  unfolding check_links is_within_workspace
  restricted workspace path =
      if is_within_workspace path workspace
      then elim (check_links (real_workspace workspace (eval_symlinks workspace)) path
          (eval_symlinks path)) [ some e ↦ err e | none ↦ ok path ]
      else err outside_workspace

  unfoldable pub validate_path : Option FilePath → Text → Text → Bool → Result
  unfolding restricted clean split_slash
  validate_path cwd path workspace restrict =
      if is_empty workspace then err workspace_undefined else elim (abs cwd workspace) [
        | none ↦ err workspace_unresolved
        | some w ↦
            let p =
              if is_abs path then clean (split_slash path) else clean (w ++ split_slash path) in
            if restrict then restricted w p else ok p
      ]
