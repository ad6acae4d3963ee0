-- ===== src/Agent/Compression.antt =====
-- pkg/agent/loop.go: the errors of a model call, and emergency compression of a history.
use operator_os.Base.{
  ℕ, ◌/◌, Bool, false, ◌&&◌, ◌||◌, not, Option, none, some, List, [], ◌∷◌, ◌++◌, Text, codes,
  text_eq, to_lower, contains, length, drop, leb, if◌then◌else◌,
}
use operator_os.Providers.Messages.{Message, LlmResponse}

-- An error of a model call: `errors.Is(err, context.DeadlineExceeded)`, and its text.
pub record ChatError : Type 0 where
  pub is_deadline : Bool
  pub text : Text

pub data Chat : Type 0 where
  answered : LlmResponse → Chat
  failed : ChatError → Chat

abbrev any_of : Text → List Text → Bool
any_of s [] = false
any_of s (p ∷ ps) = contains s p || any_of s ps

unfoldable pub is_timeout_error : ChatError → Bool
is_timeout_error e =
    e.is_deadline
    || any_of (to_lower e.text) (
        codes "deadline exceeded"
        ∷ codes "client.timeout"
        ∷ codes "timed out"
        ∷ codes "timeout exceeded"
        ∷ [])

unfoldable pub is_context_error : ChatError → Bool
unfolding is_timeout_error
is_context_error e =
    not (is_timeout_error e)
    && any_of (to_lower e.text) (
        codes "context_length_exceeded"
        ∷ codes "context window"
        ∷ codes "maximum context length"
        ∷ codes "token limit"
        ∷ codes "too many tokens"
        ∷ codes "max_tokens"
        ∷ codes "invalidparameter"
        ∷ codes "prompt is too long"
        ∷ codes "request too large"
        ∷ [])

-- pkg/constants/channels.go
unfoldable pub is_internal_channel : Text → Bool
is_internal_channel c =
    text_eq c (codes "cli") || text_eq c (codes "system") || text_eq c (codes "subagent")

abbrev pub last_of : Message → List Message → Message
last_of m [] = m
last_of m (x ∷ xs) = last_of x xs

abbrev pub without_last : Message → List Message → List Message
without_last m [] = []
without_last m (x ∷ xs) = m ∷ without_last x xs

-- `none` where nothing is to be dropped. The head is `history[0]`, the tail `history[1:]`.
unfoldable pub compressed : (ℕ → Text) → List Message → Option (List Message)
compressed show_number [] = none
compressed show_number (m ∷ []) = none
compressed show_number (m ∷ x ∷ xs) =
    let conversation = without_last x xs in
    let mid = length conversation / 2 in
    let note =
      codes "\n\n[System Note: Emergency compression dropped "
      ++ show_number mid
      ++ codes " oldest messages due to context limit]" in
    if leb (length (m ∷ x ∷ xs)) 4
    then none
    else some
        (record m { content = m.content ++ note } ∷ drop mid conversation ++ last_of x xs ∷ [])
