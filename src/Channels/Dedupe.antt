-- ===== src/Channels/Dedupe.antt =====
-- pkg/channels/wecom/dedupe.go: the ids of the messages that were processed, in a ring and a map.
use operator_os.Base.{
  ℕ, ◌+◌, ◌%◌, Bool, true, false, Option, none, some, List, [], Text, is_empty, lookup, insert,
  delete, get_elem?, set, replicate, ◌==◌, if◌then◌else◌,
}

pub record MessageDeduplicator : Type 0 where
  pub msgs : List (Text × Bool)
  pub ring : List Text
  pub idx : ℕ
  pub max : ℕ

abbrev pub wecom_max_processed_messages : ℕ
wecom_max_processed_messages = 1000

-- A number of entries that is not positive is 0.
abbrev pub entries_or_default : ℕ → ℕ
entries_or_default n = if n == 0 then wecom_max_processed_messages else n

unfoldable pub new_message_deduplicator : ℕ → MessageDeduplicator
new_message_deduplicator max_entries = record {
  msgs = [];
  ring = replicate (entries_or_default max_entries) [];
  idx = 0;
  max = entries_or_default max_entries;
}

-- `d.msgs[msgID]`
unfoldable pub is_marked : MessageDeduplicator → Text → Bool
is_marked d msg_id = elim (lookup msg_id d.msgs) [ none ↦ false | some b ↦ b ]

-- The map without the oldest message at this position of the ring.
abbrev pub evict : Text → List (Text × Bool) → List (Text × Bool)
evict oldest msgs = if is_empty oldest then msgs else delete oldest msgs

-- None is the panic of an index out of range.
unfoldable pub mark_message_processed :
    MessageDeduplicator → Text → Option (Bool × MessageDeduplicator)
unfolding is_marked
mark_message_processed d msg_id =
    if is_marked d msg_id then some (false, d) else elim (get_elem? d.ring d.idx) [
      | none ↦ none
      | some oldest ↦ some (
        true,
        record d {
          msgs = insert msg_id true (evict oldest d.msgs);
          ring = set d.ring d.idx msg_id;
          idx = (d.idx + 1) % d.max;
        },
      )
    ]
