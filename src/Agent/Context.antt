-- ===== src/Agent/Context.antt =====
-- pkg/agent/context.go: the messages for the language model, from the history of a session.
use operator_os.Base.{
  Bool, true, false, List, [], ◌∷◌, ◌++◌, Text, is_empty, trim_space, if◌then◌else◌,
}
use operator_os.Providers.Messages.{
  Role, system, user, assistant, tool, other_role, Message, plain_message,
}

abbrev pub has_calls : Message → Bool
has_calls m = elim (m.tool_calls) [ [] ↦ false | c ∷ cs ↦ true ]

-- The kinds of message that `sanitizeHistoryForProvider` tells apart.
pub data Kind : Type 0 where
  prompt result calling reply asking other_kind : Kind

abbrev pub kind_of : Role → Bool → Kind
kind_of system calls = prompt
kind_of tool calls = result
kind_of assistant true = calling
kind_of assistant false = reply
kind_of user calls = asking
kind_of (other_role t) calls = other_kind

abbrev pub kind : Message → Kind
kind m = kind_of m.role (has_calls m)

-- The messages kept so far, newest first. Walking back over tool results leads to a tool call.
abbrev pub answers : List Message → Bool
answers [] = false
answers (m ∷ ms) = elim (kind m) [
  | result ↦ answers ms
  | calling ↦ true
  | prompt ↦ false
  | reply ↦ false
  | asking ↦ false
  | other_kind ↦ false
]

-- The last message kept is of the user or a tool.
abbrev pub may_call : List Message → Bool
may_call [] = false
may_call (m ∷ ms) = elim (kind m) [
  | asking ↦ true
  | result ↦ true
  | prompt ↦ false
  | reply ↦ false
  | calling ↦ false
  | other_kind ↦ false
]

-- Whether the message may follow those kept, newest first.
abbrev pub fits : Kind → List Message → Bool
fits prompt ms = false
fits result ms = answers ms
fits calling ms = may_call ms
fits reply ms = true
fits asking ms = true
fits other_kind ms = true

unfoldable pub sanitize_from : List Message → List Message → List Message
sanitize_from kept [] = []
sanitize_from kept (m ∷ ms) =
    let with_it = m ∷ sanitize_from (m ∷ kept) ms in
    let without = sanitize_from kept ms in if fits (kind m) kept then with_it else without

unfoldable pub sanitize_history_for_provider : List Message → List Message
unfolding sanitize_from
sanitize_history_for_provider history = sanitize_from [] history

abbrev pub current : Text → List Message
current message = if is_empty (trim_space message) then [] else plain_message user message ∷ []

-- `prompt` is the text of the system message, which holds the summary.
unfoldable pub build_messages : (Text → Text) → List Message → Text → Text → List Message
unfolding sanitize_history_for_provider
build_messages system_prompt history summary current_message =
    plain_message system (system_prompt summary) ∷ sanitize_history_for_provider history
    ++ current current_message
