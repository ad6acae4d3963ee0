-- ===== src/Providers/Regex.antt =====
-- What pkg/providers/error_classifier.go uses of Go's `regexp` on ASCII text: sequences of byte
-- classes, optional or repeated, the word boundary, and one group of three digits. Matching is
-- leftmost, and a repetition is greedy, so the match found is Go's.
use operator_os.Base.{
  ℕ, ◌≡◌, refl, Bool, true, false, not, ◌&&◌, ◌||◌, Option, none, some, List, [], ◌∷◌, ◌++◌, map,
  Text, codes, ◌==◌, leb, if◌then◌else◌, is_some,
}

pub data Atom : Type 0 where
  one opt star plus : (ℕ → Bool) → Atom
  boundary : Atom  -- \b
  group : Atom  -- where the group `(\d{3})` begins

abbrev pub Regex : Type 0
Regex = List Atom

unfoldable pub is_digit : ℕ → Bool
is_digit c = leb b'0' c && leb c b'9'

-- \s
unfoldable pub is_blank : ℕ → Bool
is_blank c = (c == 9) || (c == 10) || (c == 12) || (c == 13) || (c == 32)

-- .
unfoldable pub is_dot : ℕ → Bool
is_dot c = not (c == 10)

unfoldable pub is_word : ℕ → Bool
is_word c =
    (leb b'0' c && leb c b'9')
    || (leb b'A' c && leb c b'Z')
    || (leb b'a' c && leb c b'z')
    || (c == b'_')

abbrev pub word_before : Option ℕ → Bool
word_before none = false
word_before (some c) = is_word c

abbrev pub word_after : Text → Bool
word_after [] = false
word_after (c ∷ s) = is_word c

abbrev differ : Bool → Bool → Bool
differ true b = not b
differ false b = b

abbrev pub or_else {ℓ} : {A : Type ℓ} → Option A → Option A → Option A
or_else none b = b
or_else (some a) b = some a

-- `match_here prev s r` matches `r` at the beginning of `s`, after the byte `prev`: the text from
-- the group on, or from the end of the match if there is no group.
unfoldable pub match_here : Option ℕ → Text → Regex → Option Text
unfolding is_word
match_here prev s [] = some s
match_here prev s (boundary ∷ r) =
    let rest = match_here prev s r in
    if differ (word_before prev) (word_after s) then rest else none
match_here prev s (group ∷ r) = elim (match_here prev s r) [ none ↦ none | some t ↦ some s ]
match_here prev [] (one p ∷ r) = none
match_here prev (c ∷ s) (one p ∷ r) =
    let rest = match_here (some c) s r in if p c then rest else none
match_here prev [] (opt p ∷ r) = match_here prev [] r
match_here prev (c ∷ s) (opt p ∷ r) =
    let took = match_here (some c) s r in
    let skipped = match_here prev (c ∷ s) r in if p c then or_else took skipped else skipped
match_here prev [] (star p ∷ r) = match_here prev [] r
match_here prev (c ∷ s) (star p ∷ r) =
    let took = match_here (some c) s (star p ∷ r) in
    let skipped = match_here prev (c ∷ s) r in if p c then or_else took skipped else skipped
match_here prev [] (plus p ∷ r) = none
match_here prev (c ∷ s) (plus p ∷ r) =
    let more = match_here (some c) s (plus p ∷ r) in
    let last = match_here (some c) s r in if p c then or_else more last else none

-- The leftmost match.
unfoldable pub find_after : Option ℕ → Text → Regex → Option Text
unfolding match_here
find_after prev [] r = match_here prev [] r
find_after prev (c ∷ s) r =
    let later = find_after (some c) s r in or_else (match_here prev (c ∷ s) r) later

-- `re.FindStringSubmatch`, cut at the group; `re.MatchString`.
unfoldable pub find : Regex → Text → Option Text
unfolding find_after
find r s = find_after none s r

unfoldable pub matches : Regex → Text → Bool
unfolding find
matches r s = is_some (find r s)

-- A literal part of a pattern.
abbrev pub literal : Text → Regex
literal = map (λ c. one (λ d. d == c))

abbrev pub digit3 : Regex
digit3 = one is_digit ∷ one is_digit ∷ one is_digit ∷ []

dotted : matches (literal (codes "a") ++ star is_dot ∷ literal (codes "b")) (codes "xxacdb") ≡ true
unfolding matches is_dot
dotted = refl

bounded :
    find (boundary ∷ group ∷ digit3 ++ boundary ∷ []) (codes "a1234 567.") ≡ some (codes "567.")
unfolding find is_digit
bounded = refl
