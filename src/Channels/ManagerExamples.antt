-- ===== src/Channels/ManagerExamples.antt =====
-- Runs of pkg/channels/manager.go, and the theorems at concrete inputs.
use operator_os.Base.{
  ℕ, ◌≤◌, ◌≡◌, refl, Bool, true, false, Option, none, some, List, [], ◌∷◌, codes, length, lookup,
  delete, insert, text_eq,
}
use operator_os.Bus.Types.{OutboundMessage}
use operator_os.Channels.Sends.{
  SendError, classify_send_error, sent, edited, max_retries, send_attempts, empty_log, retry_delay,
}
use operator_os.Channels.Retries.{IsHistory, sum, send_attempts-IsHistory}
use operator_os.Channels.Split.{split_message}
use operator_os.Channels.Manager.{
  Channel, Pending, record_placeholder, run_worker_turn, send_chunks, send_with_retry, pre_send,
  call_entry, edit_placeholder,
}

abbrev raw : SendError
raw = record { wraps = λ s. false; text = codes "oops" }

-- A service that answers with the listed codes, and with success when there are no more.
abbrev Service : Type 0
Service = List ℕ

abbrev post : Service → Option SendError × Service
post [] = (none, [])
post (c ∷ cs) = (some (classify_send_error c raw), cs)

abbrev sleep : ℕ → Service → Bool × Service
sleep n s = (false, s)

busy : (send_attempts post sleep max_retries 0 empty_log (429 ∷ 503 ∷ [])).0 ≡ sent
unfolding send_attempts classify_send_error
busy = refl

busy_waits :
    (send_attempts post sleep max_retries 0 empty_log (429 ∷ 503 ∷ [])).1.waits ≡ 1000 ∷ 1000 ∷ []
unfolding send_attempts classify_send_error retry_delay
busy_waits = refl

refused :
    (send_attempts post sleep max_retries 0 empty_log (404 ∷ [])).1.results
    ≡ some (classify_send_error 404 raw) ∷ []
unfolding send_attempts classify_send_error
refused = refl

send_attempts-IsHistory_example :
    IsHistory post sleep max_retries 0
      (429 ∷ 503 ∷ [])
      (send_attempts post sleep max_retries 0 empty_log (429 ∷ 503 ∷ [])).1.results
      (send_attempts post sleep max_retries 0 empty_log (429 ∷ 503 ∷ [])).1.waits
      (send_attempts post sleep max_retries 0 empty_log (429 ∷ 503 ∷ [])).0
      (send_attempts post sleep max_retries 0 empty_log (429 ∷ 503 ∷ [])).2
    × (length (send_attempts post sleep max_retries 0 empty_log (429 ∷ 503 ∷ [])).1.results ≤ 4)
    × (sum (send_attempts post sleep max_retries 0 empty_log (429 ∷ 503 ∷ [])).1.waits ≤ 4000)
send_attempts-IsHistory_example = send_attempts-IsHistory post sleep (429 ∷ 503 ∷ [])

abbrev chat : Channel
chat = record {
  World = Service;
  send = λ m. post;
  send_media = none;
  edit = some (λ chat_id id content w. (true, w));
  max_message_length = 6;
  limit = λ w. (false, w);
  wait = sleep;
  call = λ n w. w;
}

abbrev greeting : OutboundMessage
greeting = record {
  channel = codes "slack";
  chat_id = codes "c1";
  content = codes "good day to you";
}

abbrev thinking : Pending
thinking =
    record_placeholder (codes "slack") (codes "c1") (codes "p1") 5
      (record { typing_stops = []; reaction_undos = []; placeholders = [] })

four_chunks :
    run_worker_turn chat 20 (codes "slack") greeting thinking (503 ∷ [])
    ≡ some (
      (codes "goo", edited) ∷ (codes "d", sent) ∷ (codes "day", sent) ∷ (codes "to you", sent) ∷ [],
      record { typing_stops = []; reaction_undos = []; placeholders = [] },
      [],
    )
unfolding run_worker_turn send_chunks send_with_retry pre_send call_entry edit_placeholder
    record_placeholder split_message send_attempts classify_send_error lookup delete insert text_eq
four_chunks = refl
