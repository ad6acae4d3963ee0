-- ===== src/Channels/Sends.antt =====
-- Sends with retries: pkg/channels/errors.go, errutil.go and the loops of sendWithRetry and
-- sendMediaWithRetry in manager.go. Durations are milliseconds.
use operator_os.Base.{
  ℕ, zero, suc, ◌*◌, ◌^◌, min, Bool, true, false, ◌||◌, Option, none, some, List, [], ◌∷◌, ◌++◌,
  Text, codes, leb, ◌==◌, if◌then◌else◌,
}

pub data Sentinel : Type 0 where
  not_running : Sentinel
  rate_limit : Sentinel
  temporary : Sentinel
  send_failed : Sentinel

-- An error, with the sentinels for which `errors.Is` is true.
pub record SendError : Type 0 where
  pub wraps : Sentinel → Bool
  pub text : Text

abbrev is_same : Sentinel → Sentinel → Bool
is_same not_running not_running = true
is_same rate_limit rate_limit = true
is_same temporary temporary = true
is_same send_failed send_failed = true
is_same _ _ = false

abbrev sentinel_text : Sentinel → Text
sentinel_text not_running = codes "channel not running"
sentinel_text rate_limit = codes "rate limited"
sentinel_text temporary = codes "temporary failure"
sentinel_text send_failed = codes "send failed"

-- fmt.Errorf("%w: %v", sentinel, raw)
abbrev wrapped : Sentinel → SendError → SendError
wrapped s raw = record { wraps = is_same s; text = sentinel_text s ++ (codes ": " ++ raw.text) }

unfoldable pub classify_send_error : ℕ → SendError → SendError
classify_send_error status raw =
    if status == 429
    then wrapped rate_limit raw
    else if leb 500 status
    then wrapped temporary raw
    else if leb 400 status
    then wrapped send_failed raw
    else raw

unfoldable pub classify_net_error : Option SendError → Option SendError
classify_net_error none = none
classify_net_error (some e) = some (wrapped temporary e)

abbrev pub max_retries : ℕ
max_retries = 3

abbrev pub rate_limit_delay : ℕ
rate_limit_delay = 1000

abbrev pub base_backoff : ℕ
base_backoff = 500

abbrev pub max_backoff : ℕ
max_backoff = 8000

abbrev pub is_permanent : SendError → Bool
is_permanent e = e.wraps not_running || e.wraps send_failed

-- How long the loop waits before the next attempt.
unfoldable pub retry_delay : SendError → ℕ → ℕ
retry_delay e attempt =
    if e.wraps rate_limit then rate_limit_delay else min (base_backoff * 2 ^ attempt) max_backoff

-- How a call of sendWithRetry ends.
pub data Delivery : Type 0 where
  sent : Delivery
  edited : Delivery
  gave_up : SendError → Delivery
  context_done : Delivery
  unsupported : Delivery

-- What the loop did: the results of its sends and its waits, the oldest first.
pub record Log : Type 0 where
  pub results : List (Option SendError)
  pub waits : List ℕ

abbrev pub empty_log : Log
empty_log = record { results = []; waits = [] }

abbrev pub with_result : Option SendError → Log → Log
with_result r log = record log { results = log.results ++ r ∷ [] }

abbrev pub with_wait : ℕ → Log → Log
with_wait n log = record log { waits = log.waits ++ n ∷ [] }

module _ {ℓ} {W : Type ℓ} (send : W → Option SendError × W) (wait : ℕ → W → Bool × W) where
  -- The loop from an attempt on, with so many retries left. `wait` is true when the context is done
  -- before the time is over.
  unfoldable pub send_attempts : ℕ → ℕ → Log → W → Delivery × Log × W
  unfolding retry_delay
  send_attempts zero attempt log w =
      let (result, w1) = send w in
      elim result [
        | none ↦ (sent, with_result none log, w1)
        | some e ↦ (gave_up e, with_result (some e) log, w1)
      ]
  send_attempts (suc left) attempt log w =
      let (result, w1) = send w in
      elim result [
        | none ↦ (sent, with_result none log, w1)
        | some e ↦ elim (is_permanent e) [
          | true ↦ (gave_up e, with_result (some e) log, w1)
          | false ↦
              let (over, w2) = wait (retry_delay e attempt) w1 in
              let log' = with_wait (retry_delay e attempt) (with_result (some e) log) in
              elim over [
                | true ↦ (context_done, log', w2)
                | false ↦ send_attempts left (suc attempt) log' w2
              ]
        ]
      ]
