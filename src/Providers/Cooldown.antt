-- ===== src/Providers/Cooldown.antt =====
-- pkg/providers/cooldown.go. A time is a number of nanoseconds after Go's zero time, so that
-- `IsZero` is a test for 0; a duration is a number of nanoseconds. Each method takes the value that
-- `nowFunc` returns. Counters are unbounded. `a.Sub(b) > d` is written without a subtraction.
pub mod Backoff
pub mod Availability
pub mod Counters
use operator_os.Base.{
  ℕ, ◌+◌, ◌-◌, ◌*◌, ◌^◌, ◌≡◌, refl, Bool, true, false, not, ◌&&◌, ◌||◌, Option, none, some, List,
  [], ◌∷◌, min, max, Text, codes, text_eq, lookup, insert, ltb, leb, ◌==◌, if◌then◌else◌, arith,
}
use operator_os.Providers.Types.{FailoverReason, billing, reason_eq}

abbrev pub millisecond : ℕ
millisecond = 1_000_000

abbrev pub hour : ℕ
hour = 3600 * 1_000_000_000

abbrev pub default_failure_window : ℕ
default_failure_window = 24 * hour

pub record CooldownEntry : Type 0 where
  pub error_count : ℕ
  pub failure_counts : FailoverReason → ℕ
  pub cooldown_end : ℕ
  pub disabled_until : ℕ
  pub disabled_reason : Option FailoverReason
  pub last_failure : ℕ

pub record CooldownTracker : Type 0 where
  pub entries : List (Text × CooldownEntry)
  pub failure_window : ℕ

unfoldable pub new_cooldown_tracker : CooldownTracker
new_cooldown_tracker = record { entries = []; failure_window = default_failure_window }

abbrev pub no_counts : FailoverReason → ℕ
no_counts r = 0

-- `counts[r]++`
abbrev pub increment : FailoverReason → (FailoverReason → ℕ) → FailoverReason → ℕ
increment r counts s = if reason_eq r s then counts s + 1 else counts s

abbrev pub zero_entry : CooldownEntry
zero_entry = record {
  error_count = 0;
  failure_counts = no_counts;
  cooldown_end = 0;
  disabled_until = 0;
  disabled_reason = none;
  last_failure = 0;
}

-- `math.Pow` is exact here: the exponents are at most 3 and 10.
unfoldable pub calculate_standard_cooldown : ℕ → ℕ
calculate_standard_cooldown error_count =
    let n = max 1 error_count in
    let exp = min (n - 1) 3 in min 3_600_000 (60_000 * 5 ^ exp) * millisecond

unfoldable pub calculate_billing_cooldown : ℕ → ℕ
calculate_billing_cooldown billing_error_count =
    let n = max 1 billing_error_count in
    let exp = min (n - 1) 10 in min 86_400_000 (18_000_000 * 2 ^ exp) * millisecond

-- The reset after a quiet window.
unfoldable pub reset_stale : ℕ → ℕ → CooldownEntry → CooldownEntry
reset_stale window now e =
    if not (e.last_failure == 0) && ltb (e.last_failure + window) now
    then record e { error_count = 0; failure_counts = no_counts }
    else e

unfoldable pub fail_entry : ℕ → FailoverReason → ℕ → CooldownEntry → CooldownEntry
unfolding reset_stale
fail_entry window reason now e0 =
    let e = reset_stale window now e0 in
    let counts = increment reason e.failure_counts in
    let e' = record e {
      error_count = e.error_count + 1;
      failure_counts = counts;
      last_failure = now;
    } in
    if reason_eq reason billing
    then record e' {
      disabled_until = now + calculate_billing_cooldown (counts billing);
      disabled_reason = some billing;
    }
    else record e' { cooldown_end = now + calculate_standard_cooldown (e.error_count + 1) }

abbrev pub entry_or_zero : Option CooldownEntry → CooldownEntry
entry_or_zero none = zero_entry
entry_or_zero (some e) = e

unfoldable pub get_or_create : CooldownTracker → Text → CooldownEntry
get_or_create ct provider = entry_or_zero (lookup provider ct.entries)

unfoldable pub mark_failure : CooldownTracker → Text → FailoverReason → ℕ → CooldownTracker
unfolding get_or_create
mark_failure ct provider reason now = record ct {
  entries =
      insert provider (fail_entry ct.failure_window reason now (get_or_create ct provider))
        ct.entries;
}

unfoldable pub succeed_entry : CooldownEntry → CooldownEntry
succeed_entry e = record e {
  error_count = 0;
  failure_counts = no_counts;
  cooldown_end = 0;
  disabled_until = 0;
  disabled_reason = none;
}

unfoldable pub mark_success : CooldownTracker → Text → CooldownTracker
mark_success ct provider = elim (lookup provider ct.entries) [
  | none ↦ ct
  | some e ↦ record ct { entries = insert provider (succeed_entry e) ct.entries }
]

unfoldable pub entry_available : CooldownEntry → ℕ → Bool
entry_available e now =
    if not (e.disabled_until == 0) && ltb now e.disabled_until
    then false
    else if not (e.cooldown_end == 0) && ltb now e.cooldown_end
    then false
    else true

unfoldable pub is_available : CooldownTracker → Text → ℕ → Bool
unfolding entry_available
is_available ct provider now = elim (lookup provider ct.entries) [
  | none ↦ true
  | some e ↦ entry_available e now
]

-- `if d > remaining { remaining = d }`
abbrev raise_to : ℕ → ℕ → ℕ
raise_to remaining d = if ltb remaining d then d else remaining

unfoldable pub entry_remaining : CooldownEntry → ℕ → ℕ
entry_remaining e now =
    let r =
      if not (e.disabled_until == 0) && ltb now e.disabled_until
      then raise_to 0 (e.disabled_until - now)
      else 0 in
    if not (e.cooldown_end == 0) && ltb now e.cooldown_end
    then raise_to r (e.cooldown_end - now)
    else r

unfoldable pub cooldown_remaining : CooldownTracker → Text → ℕ → ℕ
unfolding entry_remaining
cooldown_remaining ct provider now = elim (lookup provider ct.entries) [
  | none ↦ 0
  | some e ↦ entry_remaining e now
]

unfoldable pub error_count : CooldownTracker → Text → ℕ
error_count ct provider = elim (lookup provider ct.entries) [ none ↦ 0 | some e ↦ e.error_count ]

unfoldable pub failure_count : CooldownTracker → Text → FailoverReason → ℕ
failure_count ct provider reason = elim (lookup provider ct.entries) [
  | none ↦ 0
  | some e ↦ e.failure_counts reason
]
