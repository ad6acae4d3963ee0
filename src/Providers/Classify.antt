-- ===== src/Providers/Classify.antt =====
-- pkg/providers/error_classifier.go.
pub mod Reasons
use operator_os.Base.{
  ℕ, zero, suc, ◌+◌, ◌-◌, ◌*◌, ◌<◌, ◌≡◌, refl, Bool, true, false, not, ◌&&◌, ◌||◌, Option, none,
  some, List, [], ◌∷◌, ◌++◌, Text, codes, to_lower, contains, is_empty, take, ◌==◌, leb, ltb,
  if◌then◌else◌,
}
use operator_os.Providers.Types.{
  FailoverReason, auth, rate_limit, billing, timeout, format, GoError, context_canceled,
  context_deadline_exceeded, message, FailoverError,
}
use operator_os.Providers.Regex.{
  Regex, one, opt, star, plus, boundary, group, is_digit, is_blank, is_dot, find, matches, literal,
  digit3,
}

abbrev in_set : Text → ℕ → Bool
in_set [] c = false
in_set (d ∷ ds) c = (c == d) || in_set ds c

abbrev leading_digit : ℕ → Bool
leading_digit c = leb b'3' c && leb c b'5'

-- status[:\s]+(\d{3})
-- http[/\s]+\d*\.?\d*\s+(\d{3})
-- \b([3-5]\d{2})\b
abbrev pub http_status_patterns : List Regex
http_status_patterns =
    (literal (codes "status") ++ plus (λ c. (c == b':') || is_blank c) ∷ group ∷ digit3)
    ∷ (literal (codes "http")
        ++ plus (λ c. (c == b'/') || is_blank c)
          ∷ star is_digit
          ∷ opt (λ c. c == b'.')
          ∷ star is_digit
          ∷ plus is_blank
          ∷ group
          ∷ digit3)
    ∷ (boundary ∷ group ∷ one leading_digit ∷ one is_digit ∷ one is_digit ∷ boundary ∷ [])
    ∷ []

pub data ErrorPattern : Type 0 where
  substr : Text → ErrorPattern
  rxp : Regex → ErrorPattern

abbrev pub rate_limit_patterns : List ErrorPattern
rate_limit_patterns =
    rxp (literal (codes "rate") ++ one (in_set (codes "_ ")) ∷ literal (codes "limit"))
    ∷ substr (codes "too many requests")
    ∷ substr (codes "429")
    ∷ substr (codes "exceeded your current quota")
    ∷ rxp (literal (codes "exceeded") ++ star is_dot ∷ literal (codes "quota"))
    ∷ rxp (literal (codes "resource has been exhausted"))
    ∷ rxp (literal (codes "resource") ++ star is_dot ∷ literal (codes "exhausted"))
    ∷ substr (codes "resource_exhausted")
    ∷ substr (codes "quota exceeded")
    ∷ substr (codes "usage limit")
    ∷ []

abbrev pub overloaded_patterns : List ErrorPattern
overloaded_patterns =
    rxp (literal (codes "overloaded_error"))
    ∷ rxp (
        one (λ c. c == 34) ∷ literal (codes "type")
        ++ one (λ c. c == 34)
          ∷ star is_blank
          ∷ one (λ c. c == b':')
          ∷ star is_blank
          ∷ one (λ c. c == 34)
          ∷ literal (codes "overloaded_error")
        ++ one (λ c. c == 34) ∷ [])
    ∷ substr (codes "overloaded")
    ∷ []

abbrev pub timeout_patterns : List ErrorPattern
timeout_patterns =
    substr (codes "timeout")
    ∷ substr (codes "timed out")
    ∷ substr (codes "deadline exceeded")
    ∷ substr (codes "context deadline exceeded")
    ∷ []

abbrev pub billing_patterns : List ErrorPattern
billing_patterns =
    rxp (boundary ∷ literal (codes "402") ++ boundary ∷ [])
    ∷ substr (codes "payment required")
    ∷ substr (codes "insufficient credits")
    ∷ substr (codes "credit balance")
    ∷ substr (codes "plans & billing")
    ∷ substr (codes "insufficient balance")
    ∷ []

abbrev pub auth_patterns : List ErrorPattern
auth_patterns =
    rxp (
      literal (codes "invalid")
      ++ opt (in_set (codes "_ ")) ∷ literal (codes "api")
      ++ opt (in_set (codes "_ ")) ∷ literal (codes "key"))
    ∷ substr (codes "incorrect api key")
    ∷ substr (codes "invalid token")
    ∷ substr (codes "authentication")
    ∷ substr (codes "re-authenticate")
    ∷ substr (codes "oauth token refresh failed")
    ∷ substr (codes "unauthorized")
    ∷ substr (codes "forbidden")
    ∷ substr (codes "access denied")
    ∷ substr (codes "expired")
    ∷ substr (codes "token has expired")
    ∷ rxp (boundary ∷ literal (codes "401") ++ boundary ∷ [])
    ∷ rxp (boundary ∷ literal (codes "403") ++ boundary ∷ [])
    ∷ substr (codes "no credentials found")
    ∷ substr (codes "no api key found")
    ∷ []

abbrev pub format_patterns : List ErrorPattern
format_patterns =
    substr (codes "string should match pattern")
    ∷ substr (codes "tool_use.id")
    ∷ substr (codes "tool_use_id")
    ∷ substr (codes "messages.1.content.1.tool_use.id")
    ∷ substr (codes "invalid request format")
    ∷ []

abbrev pub image_dimension_patterns : List ErrorPattern
image_dimension_patterns = rxp (literal (codes "image dimensions exceed max")) ∷ []

abbrev pub image_size_patterns : List ErrorPattern
image_size_patterns =
    rxp (literal (codes "image exceeds") ++ star is_dot ∷ literal (codes "mb")) ∷ []

-- The regexes carry the flag (?i): every text that comes here is in lower case already.
unfoldable pub matches_pattern : Text → ErrorPattern → Bool
unfolding matches contains
matches_pattern msg (substr s) = if is_empty s then false else contains msg s
matches_pattern msg (rxp r) = matches r msg

unfoldable pub matches_any : Text → List ErrorPattern → Bool
unfolding matches_pattern
matches_any msg [] = false
matches_any msg (p ∷ ps) = matches_pattern msg p || matches_any msg ps

unfoldable pub parse_digits_from : ℕ → Text → ℕ
unfolding is_digit
parse_digits_from n [] = n
parse_digits_from n (c ∷ s) = parse_digits_from (if is_digit c then n * 10 + (c - b'0') else n) s

unfoldable pub parse_digits : Text → ℕ
unfolding parse_digits_from
parse_digits = parse_digits_from 0

unfoldable pub extract_from : List Regex → Text → ℕ
unfolding find parse_digits
extract_from [] msg = 0
extract_from (p ∷ ps) msg =
    let rest = extract_from ps msg in
    elim (find p msg) [ none ↦ rest | some s ↦ parse_digits (take 3 s) ]

unfoldable pub extract_http_status : Text → ℕ
unfolding extract_from is_blank
extract_http_status = extract_from http_status_patterns

unfoldable pub is_transient_status : ℕ → Bool
is_transient_status s =
    (s == 500)
    || (s == 502)
    || (s == 503)
    || (s == 521)
    || (s == 522)
    || (s == 523)
    || (s == 524)
    || (s == 529)

unfoldable pub classify_by_status : ℕ → Option FailoverReason
unfolding is_transient_status
classify_by_status s =
    if (s == 401) || (s == 403)
    then some auth
    else if s == 402
    then some billing
    else if s == 408
    then some timeout
    else if s == 429
    then some rate_limit
    else if s == 400
    then some format
    else if is_transient_status s
    then some timeout
    else none

unfoldable pub classify_by_message : Text → Option FailoverReason
classify_by_message msg =
    if matches_any msg rate_limit_patterns
    then some rate_limit
    else if matches_any msg overloaded_patterns
    then some rate_limit
    else if matches_any msg billing_patterns
    then some billing
    else if matches_any msg timeout_patterns
    then some timeout
    else if matches_any msg auth_patterns
    then some auth
    else if matches_any msg format_patterns
    then some format
    else none

unfoldable pub is_image_dimension_error : Text → Bool
is_image_dimension_error msg = matches_any msg image_dimension_patterns

unfoldable pub is_image_size_error : Text → Bool
is_image_size_error msg = matches_any msg image_size_patterns

-- The status is tried first, if there is one and it has a reason; then the text.
unfoldable pub classify_message : Text → Option (FailoverReason × ℕ)
classify_message msg =
    if is_image_dimension_error msg || is_image_size_error msg
    then some (format, 0)
    else let status = extract_http_status msg in
      let by_message : Option (FailoverReason × ℕ) = elim (classify_by_message msg) [
        | none ↦ none
        | some r ↦ some (r, 0)
      ] in
      if ltb 0 status
      then elim (classify_by_status status) [ none ↦ by_message | some r ↦ some (r, status) ]
      else by_message

-- `none` is a nil result: the error is not classified.
unfoldable pub classify_error : GoError → Text → Text → Option FailoverError
classify_error context_canceled provider model = none
classify_error context_deadline_exceeded provider model = some (record {
  reason = timeout;
  provider = provider;
  model = model;
  status = 0;
  wrapped = context_deadline_exceeded;
})
classify_error (message text) provider model = elim (classify_message (to_lower text)) [
  | none ↦ none
  | some (r, status) ↦ some (record {
    reason = r;
    provider = provider;
    model = model;
    status = status;
    wrapped = message text;
  })
]
