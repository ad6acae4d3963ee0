-- ===== src/Providers/Types.antt =====
-- pkg/providers/types.go. A `FailoverReason` is an enum; the empty string, which the code uses for
-- "no reason", is `none`. A Go `error` from a provider is one of the two sentinel errors of
-- `context`, or any other with its text.
use operator_os.Base.{ℕ, ◌≡◌, Bool, true, not, List, Text, ◌==◌, arith}

pub data FailoverReason : Type 0 where
  auth rate_limit billing timeout format overloaded unknown : FailoverReason

-- The place of a constant in the source's list, to compare two reasons.
abbrev pub reason_index : FailoverReason → ℕ
reason_index auth = 0
reason_index rate_limit = 1
reason_index billing = 2
reason_index timeout = 3
reason_index format = 4
reason_index overloaded = 5
reason_index unknown = 6

abbrev pub reason_eq : FailoverReason → FailoverReason → Bool
reason_eq r s = reason_index r == reason_index s

pub data GoError : Type 0 where
  context_canceled : GoError
  context_deadline_exceeded : GoError
  message : Text → GoError

pub record FailoverError : Type 0 where
  pub reason : FailoverReason
  pub provider : Text
  pub model : Text
  pub status : ℕ
  pub wrapped : GoError

unfoldable pub is_retriable : FailoverError → Bool
is_retriable e = not (reason_eq e.reason format)

pub record ModelConfig : Type 0 where
  pub primary : Text
  pub fallbacks : List Text

pub reason_eq_sound : (r s : FailoverReason) → reason_eq r s ≡ true → r ≡ s
reason_eq_sound r s h = ground arith
