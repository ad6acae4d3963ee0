-- ===== src/Channels/Endless.antt =====
-- pkg/channels/split.go on a code block whose first line is longer than the limit.
use operator_os.Base.{
  ℕ, zero, suc, ◌+◌, ◌-◌, ◌≤◌, ◌≡◌, refl, ap, ◌∙◌, min, true, false, none, some, [], ◌∷◌, ◌++◌,
  length, length-append, take, drop, take-append, ltb, leb, arith, trim_space, trim_right,
}
use operator_os.Channels.Split.{
  Runes, newline, fence, is_newline, is_blank, unclosed_from, closing_from, natural_end,
  effective_limit, code_block_buffer, trim_end, split_step, cut_block, cut_inside, header_of,
  next_chunk, find_newline, find_last_unclosed, next_closing, still_running, split_loop,
  split_message, before_rest,
}
use operator_os.Channels.Scans.{
  none_of, is_tick, none_of-take, none_of-drop, none_of-closing_from, find_last-beyond,
  split_loop-next,
}
use operator_os.Channels.Words.{
  all_word, none_of-append, word-ticks, word-newlines, word-blanks, find_last-none,
  newline_from-append, is_nil, trim_right-cons, is_nil-append, trim_right-append, trim_right-word,
  trim_space-fence, unclosed_from-fence, take-fence, drop-fence, drop-within,
}

is_nil-long : (xs : Runes) (n : ℕ) → 8 ≤ n → n ≤ length xs → is_nil xs ≡ false
is_nil-long [] n h k = absurd (omega arith)
is_nil-long (x ∷ xs) n h k = refl

-- A block with a long first line `xs`, which is a word, and `ws` on the further lines.
module _ (max_len : ℕ) (xs : Runes) (least : 8 ≤ max_len) (long : max_len ≤ length xs)
    (word : all_word xs ≡ true) where
  abbrev header : Runes
  header = fence ++ xs

  abbrev block : Runes → Runes
  block ws = header ++ newline ∷ ws

  -- The further lines hold no backtick and end without white space.
  abbrev Tail : Runes → Type 0
  Tail ws = (none_of is_tick ws ≡ true) × (is_nil ws ≡ false) × (trim_right ws ≡ ws)

  abbrev limit : ℕ
  limit = effective_limit max_len

  limit-within : (limit ≤ max_len) × (3 ≤ limit)
  unfolding effective_limit code_block_buffer
  limit-within = (omega arith, omega arith)

  no_newline : none_of is_newline header ≡ true
  no_newline = word-newlines xs word

  no_blank : none_of is_blank header ≡ true
  no_blank = word-blanks xs word

  length-header : length header ≡ 3 + length xs
  length-header = omega arith

  natural_end-block : (ws : Runes) → natural_end (block ws) limit ≡ limit
  natural_end-block ws =
      let a =
        find_last-none is_newline (limit - 200) limit 0 header (newline ∷ ws) no_newline
          (omega (arith, limit-within)) in
      let b =
        find_last-none is_blank (limit - 100) limit 0 header (newline ∷ ws) no_blank
          (omega (arith, limit-within)) in
      rw (a, b) refl

  after_fence : (ws : Runes) → Tail ws → none_of is_tick (xs ++ newline ∷ ws) ≡ true
  after_fence ws (t, _, _) = none_of-append is_tick xs (newline ∷ ws) (word-ticks xs word) t

  unclosed-block : (ws : Runes) → Tail ws → find_last_unclosed (block ws) limit ≡ some 0
  unclosed-block ws t =
      ap (λ l. unclosed_from 0 false 0 0 l) (take-fence limit (xs ++ newline ∷ ws) (limit-within.1))
      ∙ unclosed_from-fence (take (limit - 3) (xs ++ newline ∷ ws))
          (none_of-take is_tick (limit - 3) (xs ++ newline ∷ ws) (after_fence ws t))

  closing-block : (ws : Runes) → Tail ws → next_closing (block ws) limit ≡ none
  closing-block ws t =
      ap (λ l. closing_from limit l) (drop-fence limit (xs ++ newline ∷ ws) (limit-within.1))
      ∙ none_of-closing_from limit (drop (limit - 3) (xs ++ newline ∷ ws))
          (none_of-drop is_tick (limit - 3) (xs ++ newline ∷ ws) (after_fence ws t))

  line-block : (ws : Runes) → find_newline (block ws) 0 ≡ some (length header)
  line-block ws = newline_from-append 0 header ws no_newline ∙ ap some (omega arith)

  trimmed_header : trim_space header ≡ header
  trimmed_header =
      trim_space-fence xs
        (trim_right-append fence xs (is_nil-long xs max_len least long) (trim_right-word xs word))

  header-block : (ws : Runes) → header_of (block ws) 0 (some (length header)) ≡ header
  header-block ws =
      let e : length header - 0 ≡ length header = omega arith in
      ap (λ n. trim_space (take n (block ws))) e
      ∙ ap trim_space (take-append header (newline ∷ ws))
      ∙ trimmed_header

  abbrev at : Runes → ℕ
  at ws = min (max_len - 5) (length (block ws))

  at-block : (ws : Runes) → at ws ≡ max_len - 5
  at-block ws = omega (arith, length-append header (newline ∷ ws))

  cut_block-block :
      (ws : Runes) → cut_block max_len (block ws) limit 0 ≡ cut_inside header (block ws) (at ws)
  unfolding cut_block
  cut_block-block ws =
      let a = line-block ws in
      let b = header-block ws in
      let c : ltb (length header + 20) limit ≡ false = ground (arith, limit-within) in
      let d : ltb max_len 5 ≡ false = ground arith in
      let n = find_last-beyond is_newline (0 - 200) 0 0 (block ws) (omega arith) in
      let s = find_last-beyond is_blank (0 - 100) 0 0 (block ws) (omega arith) in
      rw (a, cut_block) (rw (c, cut_block) (rw (n, s, d, b, cut_block) refl))

  split_step-block :
      (ws : Runes) → Tail ws → split_step max_len (block ws) ≡ cut_inside header (block ws) (at ws)
  unfolding split_step
  split_step-block ws t =
      let e = natural_end-block ws in
      let n : leb (length (block ws)) max_len ≡ false =
        ground (arith, length-append header (newline ∷ ws)) in
      let m : ltb limit (length (block ws)) ≡ true =
        ground (arith, length-append header (newline ∷ ws), limit-within) in
      rw (n, split_step)
        (rw (e, split_step)
          (rw (unclosed-block ws t, split_step)
            (rw (e, m, split_step)
              (rw (closing-block ws t, split_step) (rw e (cut_block-block ws))))))

  Tail-next : (ws : Runes) → Tail ws → Tail (drop (at ws) (block ws))
  Tail-next ws (t, n, r) =
      let k : at ws ≡ max_len - 5 = at-block ws in
      let e : drop (at ws) (block ws) ≡ drop (max_len - 5 - 3) xs ++ newline ∷ ws =
        ap (λ i. drop i (block ws)) k
        ∙ drop-fence (max_len - 5) (xs ++ newline ∷ ws) (omega arith)
        ∙ drop-within (max_len - 5 - 3) xs (newline ∷ ws) (omega arith) in
      rw e (
        none_of-append is_tick (drop (max_len - 5 - 3) xs) (newline ∷ ws)
            (none_of-drop is_tick (max_len - 5 - 3) xs (word-ticks xs word)) t,
        is_nil-append (drop (max_len - 5 - 3) xs) (newline ∷ ws) refl,
        trim_right-append (drop (max_len - 5 - 3) xs) (newline ∷ ws) refl
            (trim_right-cons newline ws n r),
      )

  -- What is left after a chunk is such a block again.
  split_loop-block :
      (fuel : ℕ) (ws : Runes) → Tail ws → split_loop fuel max_len (block ws) ≡ still_running
  unfolding split_loop
  split_loop-block zero ws t = refl
  split_loop-block (suc fuel) ws t =
      let ws' = drop (at ws) (block ws) in
      let (a, n, r) = Tail-next ws t in
      let whole : trim_space (block ws') ≡ block ws' =
        trim_space-fence (xs ++ newline ∷ ws')
          (trim_right-append header (newline ∷ ws') refl (trim_right-cons newline ws' n r)) in
      split_loop-next fuel max_len (block ws)
        (trim_end (take (at ws) (block ws)) ++ newline ∷ fence) (block ws')
        (split_step-block ws t
          ∙ ap (next_chunk (trim_end (take (at ws) (block ws)) ++ newline ∷ fence)) whole)
      ∙ ap (before_rest (trim_end (take (at ws) (block ws)) ++ newline ∷ fence))
          (split_loop-block fuel ws' (a, n, r))

-- With a limit of eight or more: a code block whose first line is a word that is at least as long as
-- the limit, and whose further lines are not empty, hold no backtick and do not end in white space, is
-- split for ever: with no fuel does the loop end,
-- although each of its turns appends a chunk.
pub split_message-endless :
    (fuel max_len : ℕ) (xs ws : Runes)
    → 8 ≤ max_len
    → max_len ≤ length xs
    → all_word xs ≡ true
    → none_of is_tick ws ≡ true
    → is_nil ws ≡ false
    → trim_right ws ≡ ws
    → split_message fuel (fence ++ xs ++ newline ∷ ws) max_len ≡ still_running
unfolding split_message
split_message-endless fuel zero xs ws least long word t n r = absurd (omega arith)
split_message-endless fuel (suc max_len) xs ws least long word t n r =
    split_loop-block (suc max_len) xs least long word fuel ws (t, n, r)
