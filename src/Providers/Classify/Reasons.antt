-- ===== src/Providers/Classify/Reasons.antt =====
-- What a classified error says, from pkg/providers/error_classifier.go.
use operator_os.Base.{
  ℕ, ◌+◌, ◌-◌, ◌*◌, ◌≤◌, ◌≡◌, sym, ◌⊎◌, inl, inr, true, false, Option, none, some, ltb, Bool-cases,
  List, [], ◌∷◌, Text, to_lower, take, if◌then◌else◌, Option-cases, arith,
}
use operator_os.Providers.Types.{
  FailoverReason, auth, rate_limit, billing, timeout, format, GoError, context_canceled,
  context_deadline_exceeded, message, FailoverError,
}
use operator_os.Providers.Regex.{Regex, find, is_digit}
use operator_os.Providers.Classify.{
  parse_digits_from, parse_digits, extract_from, extract_http_status, http_status_patterns,
  classify_by_status, classify_by_message, is_transient_status, is_image_dimension_error,
  is_image_size_error, classify_message, classify_error,
}

digit_step : (n c : ℕ) → (if is_digit c then n * 10 + (c - b'0') else n) ≤ n * 10 + 9
unfolding is_digit
digit_step n c = ground arith

digits1 : (n : ℕ) (s : Text) → parse_digits_from n (take 1 s) ≤ n * 10 + 9
unfolding parse_digits_from
digits1 n [] = omega arith
digits1 n (c ∷ s) = digit_step n c

digits2 : (n : ℕ) (s : Text) → parse_digits_from n (take 2 s) ≤ n * 100 + 99
unfolding parse_digits_from
digits2 n [] = omega arith
digits2 n (c ∷ s) =
    omega (arith, digit_step n c, digits1 (if is_digit c then n * 10 + (c - b'0') else n) s)

digits3 : (n : ℕ) (s : Text) → parse_digits_from n (take 3 s) ≤ n * 1000 + 999
unfolding parse_digits_from
digits3 n [] = omega arith
digits3 n (c ∷ s) =
    omega (arith, digit_step n c, digits2 (if is_digit c then n * 10 + (c - b'0') else n) s)

extract_from-le : (ps : List Regex) (msg : Text) → extract_from ps msg ≤ 999
unfolding extract_from parse_digits
extract_from-le [] msg = omega arith
extract_from-le (p ∷ ps) msg = elim (Option-cases (find p msg)) [
  | inl e ↦ rw (e, extract_from) (extract_from-le ps msg)
  | inr (s, e) ↦ rw (e, extract_from) (digits3 0 s)
]

-- The status that is read out of an error's text has three digits at most.
pub extract_http_status-le : (msg : Text) → extract_http_status msg ≤ 999
unfolding extract_http_status
extract_http_status-le msg = extract_from-le http_status_patterns msg

-- A request that took too long, and the failures of a server that pass.
abbrev pub IsTransient : ℕ → Type 0
IsTransient s =
    (s ≡ 408)
    ⊎ ((s ≡ 500)
        ⊎ ((s ≡ 502)
            ⊎ ((s ≡ 503) ⊎ ((s ≡ 521) ⊎ ((s ≡ 522) ⊎ ((s ≡ 523) ⊎ ((s ≡ 524) ⊎ (s ≡ 529))))))))

-- The statuses that have a reason, and which.
abbrev pub StatusReason : ℕ → FailoverReason → Type 0
StatusReason s r =
    (((s ≡ 401) ⊎ (s ≡ 403)) × (r ≡ auth))
    ⊎ (((s ≡ 402) × (r ≡ billing))
        ⊎ (((s ≡ 429) × (r ≡ rate_limit))
            ⊎ (((s ≡ 400) × (r ≡ format)) ⊎ ((r ≡ timeout) × IsTransient s))))

-- Why an error has a reason and a status: a deadline is a timeout; an image that is too large is a format
-- error; else the status in the text decides, if it is one that has a reason; else the text does.
pub data Verdict : GoError → FailoverReason → ℕ → Type 0 where
  deadline : Verdict context_deadline_exceeded timeout 0
  image :
      (text : Text)
      → (is_image_dimension_error (to_lower text) ≡ true)
        ⊎ (is_image_size_error (to_lower text) ≡ true)
      → Verdict (message text) format 0
  by_status :
      (text : Text) (r : FailoverReason)
      → is_image_dimension_error (to_lower text) ≡ false
      → is_image_size_error (to_lower text) ≡ false
      → StatusReason (extract_http_status (to_lower text)) r
      → Verdict (message text) r (extract_http_status (to_lower text))
  by_text :
      (text : Text) (r : FailoverReason)
      → is_image_dimension_error (to_lower text) ≡ false
      → is_image_size_error (to_lower text) ≡ false
      → ((r' : FailoverReason) → ¬ StatusReason (extract_http_status (to_lower text)) r')
      → classify_by_message (to_lower text) ≡ some r
      → Verdict (message text) r 0

Verdict-le : {err : GoError} {r : FailoverReason} {s : ℕ} → Verdict err r s → s ≤ 999
Verdict-le deadline = omega arith
Verdict-le (image text h) = omega arith
Verdict-le (by_status text r a b h) = extract_http_status-le (to_lower text)
Verdict-le (by_text text r a b n h) = omega arith

status-StatusReason :
    (s : ℕ) (r : FailoverReason) → classify_by_status s ≡ some r → StatusReason s r
unfolding classify_by_status is_transient_status
status-StatusReason s r h = ground arith

no_StatusReason : (s : ℕ) (r : FailoverReason) → classify_by_status s ≡ none → ¬ StatusReason s r
unfolding classify_by_status is_transient_status
no_StatusReason s r h v = ground arith

some_pair :
    (r' r : FailoverReason) (s' s : ℕ)
    → ◌≡◌ {A = Option (FailoverReason × ℕ)} (some (r', s')) (some (r, s))
    → (r' ≡ r) × (s' ≡ s)
some_pair r' r s' s h = ground arith

-- The text of an error decides when its status does not.
abbrev from_text : Text → Option (FailoverReason × ℕ)
from_text m = elim (classify_by_message m) [ none ↦ none | some r ↦ some (r, 0) ]

from_text-Verdict :
    (text : Text) (r : FailoverReason) (s : ℕ)
    → is_image_dimension_error (to_lower text) ≡ false
    → is_image_size_error (to_lower text) ≡ false
    → classify_by_status (extract_http_status (to_lower text)) ≡ none
    → from_text (to_lower text) ≡ some (r, s)
    → Verdict (message text) r s
from_text-Verdict text r s a b n h = elim (Option-cases (classify_by_message (to_lower text))) [
  | inl e ↦ absurd (ground (arith, h, e))
  | inr (r', e) ↦
      let same : some (r', 0) ≡ some (r, s) = rw (e, from_text) at h in
      let (fst, snd) = some_pair r' r 0 s same in
      rw (sym fst, sym snd)
        (by_text text r' a b (λ q. no_StatusReason (extract_http_status (to_lower text)) q n) e)
]

status_zero : (s : ℕ) → ltb 0 s ≡ false → classify_by_status s ≡ none
unfolding classify_by_status is_transient_status
status_zero s h = ground arith

text-Verdict :
    (text : Text) (r : FailoverReason) (s : ℕ)
    → classify_message (to_lower text) ≡ some (r, s)
    → Verdict (message text) r s
unfolding classify_message
text-Verdict text r s h =
    let m = to_lower text in
    let status = extract_http_status m in
    elim (Bool-cases (is_image_dimension_error m)) [
      | inl y ↦
          let (p, q) : (r ≡ format) × (s ≡ 0) = ground (arith, h, y) in
          rw (p, q) (image text (inl y))
      | inr a ↦ elim (Bool-cases (is_image_size_error m)) [
        | inl y ↦
            let (p, q) : (r ≡ format) × (s ≡ 0) = ground (arith, h, a, y) in
            rw (p, q) (image text (inr y))
        | inr b ↦ elim (Bool-cases (ltb 0 status)) [
          | inr z ↦
              from_text-Verdict text r s a b (status_zero status z) (rw z at (rw b at (rw a at h)))
          | inl p ↦ elim (Option-cases (classify_by_status status)) [
            | inl e ↦ from_text-Verdict text r s a b e (rw e at (rw p at (rw b at (rw a at h))))
            | inr (r', e) ↦
                let same : some (r', status) ≡ some (r, s) =
                  rw e at (rw p at (rw b at (rw a at h))) in
                let (fst, snd) = some_pair r' r status s same in
                rw (sym fst, sym snd) (by_status text r' a b (status-StatusReason status r' e))
          ]
        ]
      ]
    ]

pub classify_error_faithful :
    (err : GoError) (provider model : Text) (e : FailoverError)
    → classify_error err provider model ≡ some e
    → (e.provider ≡ provider)
      × (e.model ≡ model)
      × (e.wrapped ≡ err)
      × (e.status ≤ 999)
      × Verdict err e.reason e.status
unfolding classify_error
classify_error_faithful context_canceled provider model e h = absurd (ground arith)
classify_error_faithful context_deadline_exceeded provider model e h =
    let (r, s) : (e.reason ≡ timeout) × (e.status ≡ 0) = ground arith in
    let v : Verdict context_deadline_exceeded e.reason e.status = rw (r, s) deadline in ground arith
classify_error_faithful (message text) provider model e h =
    elim (Option-cases (classify_message (to_lower text))) [
      | inl nothing ↦ absurd (ground arith)
      | inr ((r, s), found) ↦
          let (p, q) : (e.reason ≡ r) × (e.status ≡ s) = ground arith in
          let v : Verdict (message text) e.reason e.status =
            rw (p, q) (text-Verdict text r s found) in
          let b = Verdict-le v in ground arith
    ]

-- Every classified error names the provider and the model it was classified for, and wraps the error.
pub classify_error_names :
    (err : GoError) (provider model : Text) (e : FailoverError)
    → classify_error err provider model ≡ some e
    → (e.provider ≡ provider) × (e.model ≡ model) × (e.wrapped ≡ err)
classify_error_names err provider model e h =
    let v = classify_error_faithful err provider model e h in (v.0, v.1, v.2)
