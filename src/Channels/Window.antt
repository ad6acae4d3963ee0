-- ===== src/Channels/Window.antt =====
-- The window of pkg/channels/wecom/dedupe.go: how long a message is remembered.
use operator_os.Base.{
  ℕ, zero, suc, ◌+◌, ◌-◌, ◌%◌, ◌≤◌, ◌<◌, ◌≡◌, ◌≢◌, refl, sym, ap, subst, ◌∙◌, Bool, true, false,
  Option, none, some, List, [], ◌∷◌, Text, length, get_elem?, replicate, ltb, ◌==◌, if◌then◌else◌,
  inl, inr, arith,
}
use operator_os.Channels.Dedupe.{
  MessageDeduplicator, entries_or_default, mark_message_processed, new_message_deduplicator,
}
use operator_os.Channels.Ring.{IsRing, get-set, advance, after_mark, mark_cases, after_mark-IsRing}

-- The messages one after the other; none once one of them panics.
unfoldable pub mark_all : MessageDeduplicator → List Text → Option MessageDeduplicator
unfolding mark_message_processed
mark_all d [] = some d
mark_all d (x ∷ xs) = elim (mark_message_processed d x) [
  | none ↦ none
  | some (b, d') ↦ mark_all d' xs
]

-- How many new messages go by before the position is written again.
abbrev gap : ℕ → ℕ → ℕ → ℕ
gap idx max p = if ltb p idx then p + max - idx else p - idx

Remembered : MessageDeduplicator → Text → ℕ → Type 0
Remembered d id n = (p : ℕ) × (p < d.max) × (get_elem? d.ring p ≡ some id) × (n ≤ gap d.idx d.max p)

gap-advance :
    (i m p n : ℕ) → i < m → p < m → suc n ≤ gap i m p → (i ≢ p) × (n ≤ gap ((i + 1) % m) m p)
gap-advance i m p n h k g = elim (advance i m h) [
  | inl (e, z) ↦ rw z (ground arith, ground arith)
  | inr (e, z) ↦ rw z (ground arith, ground arith)
]

gap_full : (i m : ℕ) → i < m → m - 1 ≤ gap ((i + 1) % m) m i
gap_full i m h = elim (advance i m h) [
  | inl (e, z) ↦ rw z (ground arith)
  | inr (e, z) ↦ rw z (ground arith)
]

after_mark-Remembered :
    (d : MessageDeduplicator) (id oldest : Text)
    → IsRing d
    → Remembered (after_mark d id oldest) id (d.max - 1)
unfolding Remembered
after_mark-Remembered d id oldest v = (
  d.idx,
  v.inside,
  get-set d.ring d.idx d.idx id (let a = v.size in let b = v.inside in omega arith)
      ∙ (ground arith),
  gap_full d.idx d.max v.inside,
)

ne_test : (i j : ℕ) → i ≢ j → (i == j) ≡ false
ne_test i j h = ground arith

after_other-Remembered :
    (d : MessageDeduplicator) (id x oldest : Text) (n : ℕ)
    → IsRing d
    → Remembered d id (suc n)
    → Remembered (after_mark d x oldest) id n
unfolding Remembered
after_other-Remembered d id x oldest n v (p, below, here, g) =
    let (ne, g') = gap-advance d.idx d.max p n v.inside below g in
    (
      p,
      below,
      get-set d.ring d.idx p x (let a = v.size in let b = v.inside in omega arith)
          ∙ rw (ne_test d.idx p ne) here,
      g',
    )

fewer-Remembered :
    (d : MessageDeduplicator) (id : Text) (n : ℕ) → Remembered d id (suc n) → Remembered d id n
unfolding Remembered
fewer-Remembered d id n (p, below, here, g) = (p, below, here, omega arith)

Remembered-duplicate :
    (d : MessageDeduplicator) (id : Text) (n : ℕ)
    → IsRing d
    → id ≢ []
    → Remembered d id n
    → mark_message_processed d id ≡ some (false, d)
unfolding Remembered
Remembered-duplicate d id n v full (p, below, here, g) = elim (mark_cases d id v) [
  | inl (m, e) ↦ e
  | inr (fresh, rest) ↦ elim (v.marked p id here) [
    | inl empty ↦ absurd (full empty)
    | inr m ↦ absurd (ground arith)
  ]
]

all_refused :
    (d : MessageDeduplicator) (id : Text) (xs : List Text) (n : ℕ)
    → IsRing d
    → id ≢ []
    → Remembered d id n
    → length xs ≤ n
    → (d' : MessageDeduplicator) × (mark_all d xs ≡ some d')
      × (mark_message_processed d' id ≡ some (false, d'))
unfolding mark_all
all_refused d id [] n v full r h = (d, refl, Remembered-duplicate d id n v full r)
all_refused d id (x ∷ xs) zero v full r h = absurd (omega arith)
all_refused d id (x ∷ xs) (suc n) v full r h = elim (mark_cases d x v) [
  | inl (m, e) ↦
      let (d', f, g) = all_refused d id xs n v full (fewer-Remembered d id n r) (omega arith) in
      (d', rw (e, mark_all) f, g)
  | inr (fresh, (o, at_idx, e)) ↦
      let (d', f, g) =
        all_refused (after_mark d x o) id xs n (after_mark-IsRing d x o v fresh at_idx) full
          (after_other-Remembered d id x o n v r) (omega arith) in
      (d', rw (e, mark_all) f, g)
]

-- An id that is not empty and is accepted is refused as a duplicate after any further messages that
-- are fewer than the capacity, and none of these calls panics.
pub accepted_refused :
    (d d' : MessageDeduplicator) (id : Text) (xs : List Text)
    → IsRing d
    → id ≢ []
    → mark_message_processed d id ≡ some (true, d')
    → length xs < d.max
    → (d'' : MessageDeduplicator) × (mark_all d' xs ≡ some d'')
      × (mark_message_processed d'' id ≡ some (false, d''))
accepted_refused d d' id xs v full h short = elim (mark_cases d id v) [
  | inl (m, e) ↦ absurd (two_answers (mark_message_processed d id) e h)
  | inr (fresh, (o, at_idx, e)) ↦
      let same : after_mark d id o ≡ d' = ap (state d) (sym e ∙ h) in
      subst
        (λ s.
          (d'' : MessageDeduplicator) × (mark_all s xs ≡ some d'')
          × (mark_message_processed d'' id ≡ some (false, d'')))
        same
        (all_refused (after_mark d id o) id xs (d.max - 1) (after_mark-IsRing d id o v fresh at_idx)
          full (after_mark-Remembered d id o v) (omega arith))
]
  where
    two_answers :
        (o : Option (Bool × MessageDeduplicator)) → o ≡ some (false, d) → o ≡ some (true, d') → ⊥
    two_answers o e f = cc

    state : MessageDeduplicator → Option (Bool × MessageDeduplicator) → MessageDeduplicator
    state d none = d
    state d (some (b, s)) = s

get-replicate : (n i : ℕ) (x : Text) → get_elem? (replicate n []) i ≡ some x → x ≡ []
get-replicate zero i x h = absurd (ground arith)
get-replicate (suc n) zero x h = ground arith
get-replicate (suc n) (suc i) x h = get-replicate n i x h

length-replicate : (n : ℕ) → length {A = Text} (replicate n []) ≡ n
length-replicate zero = refl
length-replicate (suc n) = ap suc (length-replicate n)

pub new-IsRing : (n : ℕ) → IsRing (new_message_deduplicator n)
unfolding new_message_deduplicator
new-IsRing n = record {
  size = length-replicate (entries_or_default n);
  inside = ground arith;
  marked = λ i x h. inl (get-replicate (entries_or_default n) i x h);
  once = λ i j x h k. inl (get-replicate (entries_or_default n) i x h);
}

mark_all-IsRing :
    (d : MessageDeduplicator) (xs : List Text)
    → IsRing d
    → (d' : MessageDeduplicator) × (mark_all d xs ≡ some d') × IsRing d'
unfolding mark_all
mark_all-IsRing d [] v = (d, refl, v)
mark_all-IsRing d (x ∷ xs) v = elim (mark_cases d x v) [
  | inl (m, e) ↦ let (d', f, g) = mark_all-IsRing d xs v in (d', rw (e, mark_all) f, g)
  | inr (fresh, (o, at_idx, e)) ↦
      let (d', f, g) =
        mark_all-IsRing (after_mark d x o) xs (after_mark-IsRing d x o v fresh at_idx) in
      (d', rw (e, mark_all) f, g)
]

-- Whatever the capacity asked for and the messages are, none of the calls on a new deduplicator
-- panics, and after them the ring is as long as the capacity, its ids are in the map, and no id
-- stands in it twice.
pub reachable-IsRing :
    (n : ℕ) (xs : List Text)
    → (d : MessageDeduplicator) × (mark_all (new_message_deduplicator n) xs ≡ some d) × IsRing d
reachable-IsRing n xs = mark_all-IsRing (new_message_deduplicator n) xs (new-IsRing n)
