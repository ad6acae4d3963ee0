-- ===== src/Providers/Examples.antt =====
-- Runs of pkg/providers, and the theorems at concrete inputs.
use operator_os.Base.{
  ℕ, ◌+◌, ◌*◌, ◌≤◌, ◌≡◌, refl, ◌↔◌, true, false, some, List, [], ◌∷◌, Text, codes, to_lower, lookup,
  insert, text_eq, if◌then◌else◌,
}
use operator_os.Providers.Types.{rate_limit, billing, message, FailoverError, ModelConfig}
use operator_os.Providers.Cooldown.{
  CooldownTracker, new_cooldown_tracker, mark_failure, is_available, cooldown_remaining, hour,
  millisecond, calculate_standard_cooldown, zero_entry, fail_entry,
}
use operator_os.Providers.Cooldown.Availability.{cooldown_remaining_exact, mark_failure_frame}
use operator_os.Providers.Cooldown.Counters.{
  IsCounted, Call, failure, step, run, run-IsCounted, new-AreCounted,
}
use operator_os.Providers.Classify.{
  extract_http_status, classify_by_message, is_image_size_error, matches_any,
}
use operator_os.Providers.Regex.{is_dot}
use operator_os.Providers.Fallback.{FallbackCandidate, Env, response, failed, exhausted, execute}
use operator_os.Providers.Fallback.{FallbackAttempt}
use operator_os.Providers.Fallback.Trackers.{LeavesTracker, execute-LeavesTracker}
use operator_os.Providers.Fallback.Cooling.{AllSkipped, execute-AllBusy}

abbrev minute : ℕ
minute = 60_000 * millisecond

abbrev openai : Text
openai = codes "openai"

abbrev groq : Text
groq = codes "groq"

-- One rate limit of openai at the hour 1000.
abbrev at_1000 : ℕ
at_1000 = 1000 * hour

limited : CooldownTracker
limited = mark_failure new_cooldown_tracker openai rate_limit at_1000

cooldown_remaining_exact_example :
    (is_available limited openai (at_1000 + 30) ≡ true)
    ↔ (cooldown_remaining limited openai at_1000 ≤ 30)
cooldown_remaining_exact_example = cooldown_remaining_exact limited openai at_1000 30

limited_remaining : cooldown_remaining limited openai at_1000 ≡ minute
unfolding limited mark_failure cooldown_remaining new_cooldown_tracker lookup insert text_eq
    fail_entry calculate_standard_cooldown
limited_remaining = refl

mark_failure_frame_example : lookup groq limited.entries ≡ lookup groq new_cooldown_tracker.entries
unfolding limited
mark_failure_frame_example =
    mark_failure_frame new_cooldown_tracker openai groq (λ e. cc) rate_limit at_1000

abbrev one_failure : List Call
one_failure = failure openai billing at_1000 ∷ []

run-IsCounted_example :
    IsCounted (fail_entry new_cooldown_tracker.failure_window billing at_1000 zero_entry)
unfolding run step mark_failure new_cooldown_tracker lookup insert text_eq
run-IsCounted_example = run-IsCounted one_failure openai _ refl

-- Classification.
abbrev too_many : Text
too_many = codes "API error: Status: 429 Too Many Requests"

too_many_status : extract_http_status (to_lower too_many) ≡ 429
unfolding extract_http_status to_lower
too_many_status = refl

rate_limited_text : classify_by_message (codes "resource is exhausted") ≡ some rate_limit
unfolding classify_by_message matches_any is_dot
rate_limited_text = refl

classified_429 : FailoverError
classified_429 = record {
  reason = rate_limit;
  provider = openai;
  model = codes "m";
  status = 429;
  wrapped = message too_many;
}

abbrev image_text : Text
image_text = codes "429: image exceeds 5 MB"

image_text_is_size : is_image_size_error (to_lower image_text) ≡ true
unfolding is_image_size_error matches_any to_lower is_dot
image_text_is_size = refl

-- A world is a time; openai is rate limited, and all others answer with the time.
abbrev clock : Env
clock = record {
  World = ℕ;
  Response = ℕ;
  is_canceled = λ w. false;
  now = λ w. w;
  elapse = λ w. w + 1;
  run = λ p m w. (if text_eq p openai then failed (message too_many) else response w, w + 10);
}

abbrev candidates : List FallbackCandidate
candidates =
    record { provider = openai; model = codes "a" }
    ∷ record { provider = groq; model = codes "b" }
    ∷ []

execute-LeavesTracker_example :
    LeavesTracker clock
      (execute clock new_cooldown_tracker at_1000 candidates).0
      (execute clock new_cooldown_tracker at_1000 candidates).1
execute-LeavesTracker_example =
    execute-LeavesTracker clock new_cooldown_tracker at_1000 candidates new-AreCounted

abbrev only_openai : FallbackCandidate
only_openai = record { provider = openai; model = codes "a" }

limited_is_busy : is_available limited openai (at_1000 + 1) ≡ false
unfolding limited mark_failure is_available new_cooldown_tracker lookup insert text_eq fail_entry
    calculate_standard_cooldown
limited_is_busy = refl

execute-AllBusy_example :
    (acc : List FallbackAttempt) × (execute clock limited at_1000 (only_openai ∷ [])
      ≡ (exhausted acc, limited, at_1000 + 1))
    × AllSkipped clock limited at_1000 (only_openai ∷ []) acc
execute-AllBusy_example =
    execute-AllBusy clock limited at_1000 only_openai [] (refl, limited_is_busy, tt)

abbrev config : ModelConfig
config = record { primary = codes "gpt/a"; fallbacks = codes "openai/A" ∷ codes "b" ∷ [] }
