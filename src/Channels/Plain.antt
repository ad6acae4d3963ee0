-- ===== src/Channels/Plain.antt =====
-- pkg/channels/split.go on texts without a code block.
use operator_os.Base.{
  ℕ, zero, suc, ◌-◌, ◌≤◌, ◌<◌, ◌≡◌, refl, ap, ◌∙◌, Bool, true, false, List, [], ◌∷◌, ◌++◌,
  if◌then◌else◌, length, length-drop, take, drop, leb, is_empty, Bool-cases, inl, inr, ◌⊎◌, arith,
}
use mathlib.Core.List.{append-nil}
use operator_os.Channels.Split.{
  Runes, is_newline, is_blank, is_skipped, last_newline, last_space, natural_end, or_else,
  effective_limit, skip_space, last_chunks, next_chunk, split_step, Splitting, chunks, split_loop,
  split_message, before_rest,
}
use operator_os.Channels.Scans.{
  none_of, is_tick, none_of-take, none_of-drop, none_of-unclosed_from, find_last-within,
  or_else-within, effective_limit-within, cut_at-positive, split_loop-last, split_loop-next,
}

-- What a text holds besides white space.
abbrev pub squeezed : Runes → Runes
squeezed [] = []
squeezed (c ∷ cs) = if is_skipped c then squeezed cs else c ∷ squeezed cs

abbrev pub joined : List Runes → Runes
joined [] = []
joined (c ∷ cs) = c ++ joined cs

abbrev pub AllWithin : ℕ → List Runes → Type 0
AllWithin n [] = Unit {0}
AllWithin n (c ∷ cs) = (length c ≤ n) × AllWithin n cs

squeezed-append : (xs ys : Runes) → squeezed (xs ++ ys) ≡ squeezed xs ++ squeezed ys
squeezed-append [] ys = refl
squeezed-append (x ∷ xs) ys = ground (arith, squeezed-append xs ys)

squeezed-take : (n : ℕ) (cs : Runes) → squeezed (take n cs) ++ squeezed (drop n cs) ≡ squeezed cs
squeezed-take zero cs = refl
squeezed-take (suc n) [] = refl
squeezed-take (suc n) (c ∷ cs) = ground (arith, squeezed-take n cs)

squeezed-skip_space : (cs : Runes) → squeezed (skip_space cs) ≡ squeezed cs
unfolding skip_space
squeezed-skip_space [] = refl
squeezed-skip_space (c ∷ cs) = ground (arith, squeezed-skip_space cs)

length-skip_space : (cs : Runes) → length (skip_space cs) ≤ length cs
unfolding skip_space
length-skip_space [] = omega arith
length-skip_space (c ∷ cs) = ground (arith, length-skip_space cs)

none_of-skip_space :
    (p : ℕ → Bool) (cs : Runes) → none_of p cs ≡ true → none_of p (skip_space cs) ≡ true
unfolding skip_space
none_of-skip_space p [] h = refl
none_of-skip_space p (c ∷ cs) h = ground (arith, none_of-skip_space p cs)

length-take : (n : ℕ) (cs : Runes) → length (take n cs) ≤ n
length-take zero cs = omega arith
length-take (suc n) [] = omega arith
length-take (suc n) (c ∷ cs) = let h = length-take n cs in omega arith

natural_end-within :
    (rest : Runes) (limit : ℕ)
    → 0 < limit
    → (natural_end rest limit ≤ limit) × (0 < natural_end rest limit)
natural_end-within rest limit h =
    let (a, b) =
      or_else-within (last_space rest limit) limit limit
        (λ j. find_last-within is_blank (limit - 100) limit 0 j rest) (omega arith) h in
    or_else-within (last_newline rest limit) (or_else (last_space rest limit) limit) limit
      (λ j. find_last-within is_newline (limit - 200) limit 0 j rest) a b

-- The step is the last, or it cuts at an index within the limit.
split_step_cases :
    (max_len : ℕ) (rest : Runes)
    → none_of is_tick rest ≡ true
    → ((leb (length rest) (suc max_len) ≡ true)
        × (split_step (suc max_len) rest ≡ last_chunks (if is_empty rest then [] else rest ∷ [])))
      ⊎ ((e : ℕ) × (0 < e)
          × (e ≤ suc max_len)
          × (suc max_len < length rest)
          × (split_step (suc max_len) rest ≡ next_chunk (take e rest) (skip_space (drop e rest))))
unfolding split_step
split_step_cases max_len rest h =
    let limit = effective_limit (suc max_len) in
    let (a, b) = effective_limit-within max_len in
    let (c, d) = natural_end-within rest limit b in
    let u =
      none_of-unclosed_from false 0 0 (take (natural_end rest limit) rest)
        (none_of-take is_tick (natural_end rest limit) rest h) in
    elim (Bool-cases (leb (length rest) (suc max_len))) [
      | inl y ↦ inl (y, rw (y, split_step) refl)
      | inr n ↦ inr (
        natural_end rest limit,
        d,
        omega arith,
        ground arith,
        rw (n, split_step)
            (rw (u, split_step) (cut_at-positive limit (natural_end rest limit) rest d)),
      )
    ]

only-AllWithin :
    (n : ℕ) (rest : Runes) → length rest ≤ n → AllWithin n (if is_empty rest then [] else rest ∷ [])
only-AllWithin n [] h = tt
only-AllWithin n (c ∷ cs) h = (h, tt)

squeezed-only :
    (rest : Runes) → squeezed (joined (if is_empty rest then [] else rest ∷ [])) ≡ squeezed rest
squeezed-only [] = refl
squeezed-only (c ∷ cs) = squeezed-append (c ∷ cs) [] ∙ append-nil (squeezed (c ∷ cs))

abbrev IsSplit : ℕ → Runes → Splitting → Type 0
IsSplit max_len content r =
    (cs : List Runes) × (r ≡ chunks cs)
    × AllWithin max_len cs
    × (squeezed (joined cs) ≡ squeezed content)

split_loop-IsSplit :
    (fuel max_len : ℕ) (rest : Runes)
    → none_of is_tick rest ≡ true
    → length rest < fuel
    → IsSplit (suc max_len) rest (split_loop fuel (suc max_len) rest)
unfolding split_loop
split_loop-IsSplit zero max_len rest h f = absurd (omega arith)
split_loop-IsSplit (suc fuel) max_len rest h f = elim (split_step_cases max_len rest h) [
  | inl (y, e) ↦
      let cs = if is_empty rest then [] else rest ∷ [] in
      (
        cs,
        split_loop-last fuel (suc max_len) rest cs e,
        only-AllWithin (suc max_len) rest (ground arith),
        squeezed-only rest,
      )
  | inr (e, pos, small, long, s) ↦
      let rest' = skip_space (drop e rest) in
      let short : length rest' < fuel =
        omega (arith, length-skip_space (drop e rest), length-drop e rest) in
      let (cs, r, w, q) =
        split_loop-IsSplit fuel max_len rest'
          (none_of-skip_space is_tick (drop e rest) (none_of-drop is_tick e rest h)) short in
      (
        take e rest ∷ cs,
        split_loop-next fuel (suc max_len) rest (take e rest) rest' s
            ∙ ap (before_rest (take e rest)) r,
        (omega (arith, length-take e rest), w),
        squeezed-append (take e rest) (joined cs)
            ∙ ap (λ t. squeezed (take e rest) ++ t) (q ∙ squeezed-skip_space (drop e rest))
            ∙ squeezed-take e rest,
      )
]

-- A text without a backtick is split in as many steps as it has code points, and one more, into chunks
-- that are not longer than the limit, and which joined hold the same text but for white space.
pub split_message-AllWithin :
    (fuel max_len : ℕ) (content : Runes)
    → none_of is_tick content ≡ true
    → 0 < max_len
    → length content < fuel
    → (cs : List Runes) × (split_message fuel content max_len ≡ chunks cs)
      × AllWithin max_len cs
      × (squeezed (joined cs) ≡ squeezed content)
unfolding split_message
split_message-AllWithin fuel zero content h m f = absurd (omega arith)
split_message-AllWithin fuel (suc max_len) content h m f =
    split_loop-IsSplit fuel max_len content h f
