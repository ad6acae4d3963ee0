-- ===== src/Channels/Examples.antt =====
-- Runs of pkg/channels, and the theorems at concrete inputs.
use operator_os.Base.{
  ◌≡◌, refl, true, false, some, List, [], ◌∷◌, Text, codes, text_eq, lookup, insert, arith, ◌++◌,
  replicate, is_space, trim_right,
}
use operator_os.Channels.Dedupe.{
  MessageDeduplicator, mark_message_processed, new_message_deduplicator, is_marked,
}
use operator_os.Channels.Split.{
  Runes, fence, newline, chunks, still_running, split_message, effective_limit, code_block_buffer,
  find_last, unclosed_from, skip_space,
}
use operator_os.Channels.Plain.{AllWithin, joined, squeezed, split_message-AllWithin}
use operator_os.Channels.Endless.{split_message-endless}
use operator_os.Channels.Window.{new-IsRing, mark_all, accepted_refused}

abbrev three : List Text
three = codes "a" ∷ codes "b" ∷ codes "a" ∷ []

abbrev with_a : MessageDeduplicator
with_a = record { msgs = (codes "a", true) ∷ []; ring = codes "a" ∷ [] ∷ []; idx = 1; max = 2 }

accepted_refused_example :
    (d : MessageDeduplicator) × (mark_all with_a (codes "b" ∷ []) ≡ some d)
    × (mark_message_processed d (codes "a") ≡ some (false, d))
accepted_refused_example =
    accepted_refused (new_message_deduplicator 2) with_a (codes "a") (codes "b" ∷ []) (new-IsRing 2)
      (λ e. cc)
      (unfold mark_message_processed new_message_deduplicator is_marked lookup insert text_eq in
        refl)
      (unfold new_message_deduplicator in (omega arith))

abbrev two_words : Runes
two_words = codes "hello world"

split_message-AllWithin_example :
    (cs : List Runes) × (split_message 20 two_words 8 ≡ chunks cs)
    × AllWithin 8 cs
    × (squeezed (joined cs) ≡ squeezed two_words)
split_message-AllWithin_example =
    split_message-AllWithin 20 8 two_words refl (omega arith) (omega arith)

split_words : split_message 20 two_words 8 ≡ chunks (codes "hell" ∷ codes "o world" ∷ [])
unfolding split_message effective_limit code_block_buffer find_last unclosed_from skip_space
split_words = refl

abbrev long_line : Runes
long_line = replicate 8 b'x'

split_message-endless_example :
    split_message 100 (fence ++ long_line ++ newline ∷ codes "y") 8 ≡ still_running
split_message-endless_example =
    split_message-endless 100 8 long_line (codes "y") (omega arith) (omega arith)
      (unfold is_space in refl) refl refl (unfold trim_right is_space in refl)
