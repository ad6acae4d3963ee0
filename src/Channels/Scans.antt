-- ===== src/Channels/Scans.antt =====
-- The searches of pkg/channels/split.go.
use operator_os.Base.{
  ℕ, zero, suc, ◌≤◌, ◌<◌, ◌≡◌, refl, ◌∙◌, Bool, true, false, ◌&&◌, not, Option, none, some, List,
  [], ◌∷◌, ◌==◌, if◌then◌else◌, take, drop, Option-cases, inl, inr, arith,
}
use operator_os.Channels.Split.{
  Runes, backtick, is_fence, find_last, unclosed_from, closing_from, skip_space, effective_limit,
  code_block_buffer, or_else, cut_at, next_chunk, split_step, last_chunks, chunks, split_loop,
  before_rest,
}

abbrev pub none_of : (ℕ → Bool) → Runes → Bool
none_of p [] = true
none_of p (c ∷ cs) = not (p c) && none_of p cs

abbrev pub is_tick : ℕ → Bool
is_tick c = c == backtick

pub none_of-take :
    (p : ℕ → Bool) (n : ℕ) (cs : Runes) → none_of p cs ≡ true → none_of p (take n cs) ≡ true
none_of-take p zero cs h = refl
none_of-take p (suc n) [] h = refl
none_of-take p (suc n) (c ∷ cs) h = ground (arith, none_of-take p n cs)

pub none_of-drop :
    (p : ℕ → Bool) (n : ℕ) (cs : Runes) → none_of p cs ≡ true → none_of p (drop n cs) ≡ true
none_of-drop p zero cs h = h
none_of-drop p (suc n) [] h = refl
none_of-drop p (suc n) (c ∷ cs) h = none_of-drop p n cs (ground arith)

none_of-is_fence : (cs : Runes) → none_of is_tick cs ≡ true → is_fence cs ≡ false
none_of-is_fence [] h = refl
none_of-is_fence (a ∷ []) h = refl
none_of-is_fence (a ∷ b ∷ []) h = refl
none_of-is_fence (a ∷ b ∷ c ∷ cs) h = ground arith

pub none_of-unclosed_from :
    (is_open : Bool) (opened i : ℕ) (cs : Runes)
    → none_of is_tick cs ≡ true
    → unclosed_from 0 is_open opened i cs ≡ (if is_open then some opened else none)
unfolding unclosed_from
none_of-unclosed_from is_open opened i [] h = refl
none_of-unclosed_from is_open opened i (c ∷ cs) h =
    rw (none_of-is_fence (c ∷ cs) h)
      (none_of-unclosed_from is_open opened (suc i) cs (ground arith))

pub none_of-closing_from :
    (i : ℕ) (cs : Runes) → none_of is_tick cs ≡ true → closing_from i cs ≡ none
unfolding closing_from
none_of-closing_from i [] h = refl
none_of-closing_from i (c ∷ cs) h =
    rw (none_of-is_fence (c ∷ cs) h) (none_of-closing_from (suc i) cs (ground arith))

pub find_last-beyond :
    (p : ℕ → Bool) (low high i : ℕ) (cs : Runes) → high ≤ i → find_last p low high i cs ≡ none
unfolding find_last
find_last-beyond p low high i [] h = refl
find_last-beyond p low high i (c ∷ cs) h =
    rw (find_last-beyond p low high (suc i) cs (omega arith)) (ground arith)

pub find_last-within :
    (p : ℕ → Bool) (low high i j : ℕ) (cs : Runes) → find_last p low high i cs ≡ some j → j < high
unfolding find_last
find_last-within p low high i j [] h = absurd (ground arith)
find_last-within p low high i j (c ∷ cs) h = elim (Option-cases (find_last p low high (suc i) cs)) [
  | inl e ↦ ground arith
  | inr (k, e) ↦ find_last-within p low high (suc i) j cs (e ∙ (rw (find_last, e) at h))
]

pub or_else-within :
    (o : Option ℕ) (d limit : ℕ)
    → ((j : ℕ) → o ≡ some j → j < limit)
    → d ≤ limit
    → 0 < d
    → (or_else o d ≤ limit) × (0 < or_else o d)
or_else-within none d limit h e f = (e, f)
or_else-within (some zero) d limit h e f = (e, f)
or_else-within (some (suc j)) d limit h e f = let k = h (suc j) refl in (omega arith, omega arith)

pub effective_limit-within :
    (max_len : ℕ)
    → (effective_limit (suc max_len) ≤ suc max_len) × (0 < effective_limit (suc max_len))
unfolding effective_limit code_block_buffer
effective_limit-within max_len = (omega arith, omega arith)

pub cut_at-positive :
    (limit e : ℕ) (rest : Runes)
    → 0 < e
    → cut_at limit rest e ≡ next_chunk (take e rest) (skip_space (drop e rest))
cut_at-positive limit e rest h = let f : (e == 0) ≡ false = ground arith in rw f refl

pub split_loop-last :
    (fuel max_len : ℕ) (rest : Runes) (cs : List Runes)
    → split_step max_len rest ≡ last_chunks cs
    → split_loop (suc fuel) max_len rest ≡ chunks cs
unfolding split_loop
split_loop-last fuel max_len rest cs e = rw (e, split_loop) refl

pub split_loop-next :
    (fuel max_len : ℕ) (rest c rest' : Runes)
    → split_step max_len rest ≡ next_chunk c rest'
    → split_loop (suc fuel) max_len rest ≡ before_rest c (split_loop fuel max_len rest')
unfolding split_loop
split_loop-next fuel max_len rest c rest' e = rw (e, split_loop) refl
