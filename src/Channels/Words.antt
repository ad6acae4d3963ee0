-- ===== src/Channels/Words.antt =====
-- Runes without white space and backticks, for the proofs about pkg/channels/split.go.
use operator_os.Base.{
  ℕ, zero, suc, ◌+◌, ◌-◌, ◌≤◌, ◌≡◌, refl, ap, Bool, true, false, ◌&&◌, not, none, some, [], ◌∷◌,
  ◌++◌, ◌==◌, length, take, drop, arith, trim_space, trim_right, is_space,
}
use operator_os.Channels.Split.{
  Runes, backtick, newline, fence, is_newline, is_blank, find_last, unclosed_from, newline_from,
}
use operator_os.Channels.Scans.{none_of, is_tick, none_of-unclosed_from, find_last-beyond}

-- White space, for `TrimSpace`, and a backtick.
abbrev pub is_word : ℕ → Bool
is_word c = not (is_space c) && not (c == backtick)

abbrev pub all_word : Runes → Bool
all_word [] = true
all_word (c ∷ cs) = is_word c && all_word cs

pub none_of-append :
    (p : ℕ → Bool) (xs ys : Runes)
    → none_of p xs ≡ true
    → none_of p ys ≡ true
    → none_of p (xs ++ ys) ≡ true
none_of-append p [] ys h k = k
none_of-append p (x ∷ xs) ys h k = ground (arith, none_of-append p xs ys)

pub word-ticks : (xs : Runes) → all_word xs ≡ true → none_of is_tick xs ≡ true
word-ticks [] h = refl
word-ticks (x ∷ xs) h = ground (arith, word-ticks xs)

pub word-newlines : (xs : Runes) → all_word xs ≡ true → none_of is_newline xs ≡ true
unfolding is_space
word-newlines [] h = refl
word-newlines (x ∷ xs) h = ground (arith, word-newlines xs)

pub word-blanks : (xs : Runes) → all_word xs ≡ true → none_of is_blank xs ≡ true
unfolding is_space
word-blanks [] h = refl
word-blanks (x ∷ xs) h = ground (arith, word-blanks xs)

-- A search that ends within runes that fail the test.
pub find_last-none :
    (p : ℕ → Bool) (low high i : ℕ) (xs ys : Runes)
    → none_of p xs ≡ true
    → high ≤ i + length xs
    → find_last p low high i (xs ++ ys) ≡ none
unfolding find_last
find_last-none p low high i [] ys h k = find_last-beyond p low high i ys (omega arith)
find_last-none p low high i (x ∷ xs) ys h k =
    rw (find_last-none p low high (suc i) xs ys (ground arith) (omega arith)) (ground arith)

pub newline_from-append :
    (i : ℕ) (xs ys : Runes)
    → none_of is_newline xs ≡ true
    → newline_from i (xs ++ newline ∷ ys) ≡ some (i + length xs)
unfolding newline_from
newline_from-append i [] ys h = ap some (omega arith)
newline_from-append i (x ∷ xs) ys h =
    rw (newline_from-append (suc i) xs ys (ground arith)) (ground arith)

abbrev pub is_nil : Runes → Bool
is_nil [] = true
is_nil (c ∷ cs) = false

pub trim_right-cons :
    (x : ℕ) (ys : Runes) → is_nil ys ≡ false → trim_right ys ≡ ys → trim_right (x ∷ ys) ≡ x ∷ ys
unfolding trim_right
trim_right-cons x [] n h = absurd (ground arith)
trim_right-cons x (y ∷ ys) n h = rw (h, trim_right) refl

pub is_nil-append : (xs ys : Runes) → is_nil ys ≡ false → is_nil (xs ++ ys) ≡ false
is_nil-append [] ys h = h
is_nil-append (x ∷ xs) ys h = refl

pub trim_right-append :
    (xs ys : Runes) → is_nil ys ≡ false → trim_right ys ≡ ys → trim_right (xs ++ ys) ≡ xs ++ ys
trim_right-append [] ys n h = h
trim_right-append (x ∷ xs) ys n h =
    trim_right-cons x (xs ++ ys) (is_nil-append xs ys n) (trim_right-append xs ys n h)

pub trim_right-word : (xs : Runes) → all_word xs ≡ true → trim_right xs ≡ xs
unfolding trim_right
trim_right-word [] h = refl
trim_right-word (x ∷ []) h = ground arith
trim_right-word (x ∷ y ∷ ys) h =
    trim_right-cons x (y ∷ ys) refl (trim_right-word (y ∷ ys) (ground arith))

pub trim_space-fence :
    (zs : Runes) → trim_right (fence ++ zs) ≡ fence ++ zs → trim_space (fence ++ zs) ≡ fence ++ zs
unfolding trim_space
trim_space-fence zs h = h

pub unclosed_from-fence :
    (zs : Runes) → none_of is_tick zs ≡ true → unclosed_from 0 false 0 0 (fence ++ zs) ≡ some 0
unfolding unclosed_from
unclosed_from-fence zs h = none_of-unclosed_from true 0 3 zs h

pub take-fence : (e : ℕ) (zs : Runes) → 3 ≤ e → take e (fence ++ zs) ≡ fence ++ take (e - 3) zs
take-fence zero zs h = absurd (omega arith)
take-fence (suc zero) zs h = absurd (omega arith)
take-fence (suc (suc zero)) zs h = absurd (omega arith)
take-fence (suc (suc (suc e))) zs h =
    let f : e ≡ suc (suc (suc e)) - 3 = omega arith in ap (λ n. fence ++ take n zs) f

pub drop-fence : (e : ℕ) (zs : Runes) → 3 ≤ e → drop e (fence ++ zs) ≡ drop (e - 3) zs
drop-fence zero zs h = absurd (omega arith)
drop-fence (suc zero) zs h = absurd (omega arith)
drop-fence (suc (suc zero)) zs h = absurd (omega arith)
drop-fence (suc (suc (suc e))) zs h =
    let f : e ≡ suc (suc (suc e)) - 3 = omega arith in ap (λ n. drop n zs) f

pub drop-within : (k : ℕ) (xs ys : Runes) → k ≤ length xs → drop k (xs ++ ys) ≡ drop k xs ++ ys
drop-within zero xs ys h = refl
drop-within (suc k) [] ys h = absurd (omega arith)
drop-within (suc k) (x ∷ xs) ys h = drop-within k xs ys (omega arith)
