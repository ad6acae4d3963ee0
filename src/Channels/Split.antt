-- ===== src/Channels/Split.antt =====
-- pkg/channels/split.go: long messages in chunks. A text is the list of its code points, `rest` is
-- runes[start:totalLen], and indices count from `start`; a limit of zero stands for the negative ones too.
use operator_os.Base.{
  ℕ, zero, suc, ◌+◌, ◌-◌, ◌/◌, min, max, Bool, false, ◌&&◌, ◌||◌, not, Option, none, some, List, [],
  ◌∷◌, ◌++◌, ◌==◌, if◌then◌else◌, length, take, drop, ltb, leb, is_empty, trim_space,
}

abbrev pub Runes : Type 0
Runes = List ℕ

abbrev pub backtick : ℕ
backtick = 96

abbrev pub newline : ℕ
newline = 10

abbrev pub is_newline : ℕ → Bool
is_newline c = c == newline

abbrev pub is_blank : ℕ → Bool
is_blank c = (c == 32) || (c == 9)

-- ' ', '\t', '\n', '\r'
abbrev pub is_skipped : ℕ → Bool
is_skipped c = (c == 32) || (c == 9) || (c == newline) || (c == 13)

abbrev pub fence : Runes
fence = backtick ∷ backtick ∷ backtick ∷ []

abbrev pub is_fence : Runes → Bool
is_fence [] = false
is_fence (a ∷ []) = false
is_fence (a ∷ b ∷ []) = false
is_fence (a ∷ b ∷ c ∷ r) = (a == backtick) && (b == backtick) && (c == backtick)

-- The last index in [low, high) of a rune that passes the test; `i` is the index of the head.
unfoldable pub find_last : (ℕ → Bool) → ℕ → ℕ → ℕ → Runes → Option ℕ
find_last p low high i [] = none
find_last p low high i (c ∷ cs) = elim (find_last p low high (suc i) cs) [
  | some j ↦ some j
  | none ↦ if leb low i && ltb i high && p c then some i else none
]

abbrev pub last_newline : Runes → ℕ → Option ℕ
last_newline rest end = find_last is_newline (end - 200) end 0 rest

abbrev pub last_space : Runes → ℕ → Option ℕ
last_space rest end = find_last is_blank (end - 100) end 0 rest

-- The runes still to be skipped, whether a block is open, and the index of its fence.
unfoldable pub unclosed_from : ℕ → Bool → ℕ → ℕ → Runes → Option ℕ
unclosed_from skip is_open opened i [] = if is_open then some opened else none
unclosed_from (suc skip) is_open opened i (c ∷ cs) = unclosed_from skip is_open opened (suc i) cs
unclosed_from zero is_open opened i (c ∷ cs) =
    let past_fence = unclosed_from 2 (not is_open) (if is_open then opened else i) (suc i) cs in
    let past = unclosed_from zero is_open opened (suc i) cs in
    if is_fence (c ∷ cs) then past_fence else past

abbrev pub find_last_unclosed : Runes → ℕ → Option ℕ
find_last_unclosed rest end = unclosed_from 0 false 0 0 (take end rest)

unfoldable pub closing_from : ℕ → Runes → Option ℕ
closing_from i [] = none
closing_from i (c ∷ cs) =
    let later = closing_from (suc i) cs in if is_fence (c ∷ cs) then some (i + 3) else later

abbrev pub next_closing : Runes → ℕ → Option ℕ
next_closing rest from = closing_from from (drop from rest)

unfoldable pub newline_from : ℕ → Runes → Option ℕ
newline_from i [] = none
newline_from i (c ∷ cs) =
    let later = newline_from (suc i) cs in if is_newline c then some i else later

abbrev pub find_newline : Runes → ℕ → Option ℕ
find_newline rest from = newline_from from (drop from rest)

-- `strings.TrimRight(s, " \t\n\r")`
unfoldable pub trim_end : Runes → Runes
trim_end [] = []
trim_end (c ∷ cs) = elim (trim_end cs) [
  | [] ↦ if is_skipped c then [] else c ∷ []
  | d ∷ ds ↦ c ∷ d ∷ ds
]

unfoldable pub skip_space : Runes → Runes
skip_space [] = []
skip_space (c ∷ cs) = let further = skip_space cs in if is_skipped c then further else c ∷ cs

-- An index is of use when it lies behind the start.
abbrev pub or_else : Option ℕ → ℕ → ℕ
or_else none d = d
or_else (some zero) d = d
or_else (some (suc i)) d = suc i

unfoldable pub code_block_buffer : ℕ → ℕ
code_block_buffer max_len = min (max (max_len / 10) 50) (max_len / 2)

unfoldable pub effective_limit : ℕ → ℕ
unfolding code_block_buffer
effective_limit max_len = max (max_len - code_block_buffer max_len) (max_len / 2)

abbrev pub natural_end : Runes → ℕ → ℕ
natural_end rest limit = or_else (last_newline rest limit) (or_else (last_space rest limit) limit)

-- One turn of the loop: the last chunks, a chunk and what is left, or a slice out of range.
pub data Step : Type 0 where
  last_chunks : List Runes → Step
  next_chunk : Runes → Runes → Step
  slice_panics : Step

abbrev pub cut_at : ℕ → Runes → ℕ → Step
cut_at limit rest end =
    let e = if end == 0 then limit else end in next_chunk (take e rest) (skip_space (drop e rest))

-- The block is closed here and opened again.
abbrev pub cut_inside : Runes → Runes → ℕ → Step
cut_inside header rest at =
    next_chunk (trim_end (take at rest) ++ newline ∷ fence)
      (trim_space (header ++ newline ∷ drop at rest))

abbrev pub header_of : Runes → ℕ → Option ℕ → Runes
header_of rest opened none = trim_space (take 3 (drop opened rest))
header_of rest opened (some end) = trim_space (take (end - opened) (drop opened rest))

abbrev pub header_end : Runes → ℕ → Option ℕ → ℕ
header_end rest opened none = opened + length (header_of rest opened none)
header_end rest opened (some end) = end

abbrev pub better_end : Option ℕ → ℕ → ℕ → ℕ
better_end none low limit = limit
better_end (some e) low limit = if ltb low e then e else limit

-- A block opened at `opened` cannot be closed within the limit.
unfoldable pub cut_block : ℕ → Runes → ℕ → ℕ → Step
unfolding find_last newline_from effective_limit trim_end skip_space
cut_block max_len rest msg_end opened =
    let line = find_newline rest opened in
    let header = header_of rest opened line in
    let inner_limit = min (max_len - 5) (length rest) in
    let inner =
      better_end (last_newline rest inner_limit) (header_end rest opened line) inner_limit in
    let before = or_else (last_newline rest opened) (or_else (last_space rest opened) 0) in
    if ltb (header_end rest opened line + 20) msg_end
    then cut_inside header rest inner
    else if ltb 0 before
    then cut_at (effective_limit max_len) rest before
    else if ltb 20 opened
    then cut_at (effective_limit max_len) rest opened
    else if ltb max_len 5
    then slice_panics
    else cut_inside header rest inner_limit

unfoldable pub split_step : ℕ → Runes → Step
unfolding cut_block unclosed_from closing_from
split_step max_len rest =
    let limit = effective_limit max_len in
    let msg_end = natural_end rest limit in
    if leb (length rest) max_len
    then last_chunks (if is_empty rest then [] else rest ∷ [])
    else elim (find_last_unclosed rest msg_end) [
      | none ↦ cut_at limit rest msg_end
      | some opened ↦
          if not (ltb msg_end (length rest))
          then cut_at limit rest msg_end
          else elim (next_closing rest msg_end) [
            | none ↦ cut_block max_len rest msg_end opened
            | some e ↦
                if leb e max_len then cut_at limit rest e else cut_block max_len rest msg_end opened
          ]
    ]

-- What the function comes to with some fuel.
pub data Splitting : Type 0 where
  chunks : List Runes → Splitting
  still_running panicked : Splitting

abbrev pub before_rest : Runes → Splitting → Splitting
before_rest c (chunks cs) = chunks (c ∷ cs)
before_rest c still_running = still_running
before_rest c panicked = panicked

unfoldable pub split_loop : ℕ → ℕ → Runes → Splitting
unfolding split_step
split_loop zero max_len rest = still_running
split_loop (suc fuel) max_len rest = elim (split_step max_len rest) [
  | last_chunks cs ↦ chunks cs
  | next_chunk c rest' ↦ before_rest c (split_loop fuel max_len rest')
  | slice_panics ↦ panicked
]

unfoldable pub split_message : ℕ → Runes → ℕ → Splitting
unfolding split_loop
split_message fuel content zero = chunks (if is_empty content then [] else content ∷ [])
split_message fuel content (suc max_len) = split_loop fuel (suc max_len) content
