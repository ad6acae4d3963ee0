-- ===== src/Channels/Placeholders.antt =====
-- What a turn of a worker of pkg/channels/manager.go sends, and when it edits a placeholder.
use operator_os.Base.{ℕ, ◌+◌, ◌≤◌, ◌≡◌, Option, none, some, List, [], ◌∷◌, Text, lookup, ◌⊎◌}
use operator_os.Bus.Types.{OutboundMessage}
use operator_os.Channels.Sends.{Delivery, edited}
use operator_os.Channels.Plain.{squeezed, joined, AllWithin}
use operator_os.Channels.Handed.{Handed}
use operator_os.Channels.Manager.{Channel, Pending, PlaceholderEntry, key_of}

abbrev is_edit : Delivery → ℕ
is_edit edited = 1
is_edit _ = 0

-- How many of the calls edited a placeholder.
abbrev pub edits : List (Text × Delivery) → ℕ
edits [] = 0
edits ((c, d) ∷ ds) = is_edit d + edits ds

abbrev pub texts : List (Text × Delivery) → List Text
texts [] = []
texts ((c, d) ∷ ds) = c ∷ texts ds

module _ (ch : Channel) where
  open ch use {World}

  abbrev placeholder : Text → Text → Pending → Option PlaceholderEntry
  placeholder name chat_id p = lookup (key_of name chat_id) p.placeholders

  abbrev pub budget : Option PlaceholderEntry → ℕ
  budget none = 0
  budget (some e) = 1

  -- The texts of a turn are within the channel's limit, if it has one, and hold the same text as the
  -- message but for white space; at most one of the calls edits a placeholder; and the texts are what
  -- the channel is called with.
  abbrev pub Delivers :
      Text → OutboundMessage → Pending → World → List (Text × Delivery) → Pending → World → Type 0
  Delivers name msg p w ds p' w' =
      ((ch.max_message_length ≡ 0) ⊎ AllWithin ch.max_message_length (texts ds))
      × (squeezed (joined (texts ds)) ≡ squeezed msg.content)
      × (edits ds ≤ budget (placeholder name msg.chat_id p))
      × Handed ch name msg ds p w p' w'
