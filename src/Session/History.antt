-- ===== src/Session/History.antt =====
-- The sessions of pkg/session/manager.go against their abstract view: a transcript for each key.
use operator_os.Base.{
  ℕ, zero, suc, ◌-◌, ◌≤◌, ◌≡◌, refl, sym, ap, ◌∙◌, Option, none, some, List, [], ◌∷◌, ◌++◌, Text,
  text_eq, text_eq_sound, subst, lookup, lookup-insert, length, drop, leb, if◌then◌else◌,
  Bool-cases, Option-cases, inl, inr, arith,
}
use mathlib.Core.Option
use operator_os.Providers.Messages.{Message}
use operator_os.Session.Manager.{
  Session, SessionManager, put, get_or_create, add_full_message, get_history, set_summary,
  truncate_session, truncate_history, set_history, append_message, empty_session,
}

-- The calls that change sessions, with the time of each.
pub data Call : Type 0 where
  open_session : Text → ℕ → Call
  add : Text → Message → ℕ → Call
  summarize : Text → Text → ℕ → Call
  truncate : Text → ℕ → ℕ → Call
  replace : Text → List Message → ℕ → Call

unfoldable pub call : SessionManager → Call → SessionManager
unfolding get_or_create add_full_message set_summary truncate_history set_history
call sm (open_session k now) = (get_or_create sm k now).0
call sm (add k m now) = add_full_message sm k m now
call sm (summarize k s now) = set_summary sm k s now
call sm (truncate k n now) = truncate_history sm k n now
call sm (replace k ms now) = set_history sm k ms now

abbrev pub calls : SessionManager → List Call → SessionManager
calls sm [] = sm
calls sm (c ∷ cs) = calls (call sm c) cs

-- The abstract view: for a key, its messages, or none when there is no session.
abbrev pub Transcripts : Type 0
Transcripts = Text → Option (List Message)

abbrev pub transcripts : SessionManager → Transcripts
transcripts sm k = Option.map (λ s. s.messages) (lookup k sm.sessions)

abbrev pub or_none : Option (List Message) → List Message
or_none none = []
or_none (some ms) = ms

-- The newest `n` messages: the oldest one goes while there are more.
abbrev pub newest : ℕ → List Message → List Message
newest n [] = []
newest n (m ∷ ms) = if leb (length (m ∷ ms)) n then m ∷ ms else newest n ms

abbrev at_key : Text → (Option (List Message) → Option (List Message)) → Transcripts → Transcripts
at_key k f t j = if text_eq k j then f (t j) else t j

abbrev opened : Option (List Message) → Option (List Message)
opened o = some (or_none o)

abbrev added : Message → Option (List Message) → Option (List Message)
added m o = some (or_none o ++ m ∷ [])

abbrev pub spec_call : Transcripts → Call → Transcripts
spec_call t (open_session k now) = at_key k opened t
spec_call t (add k m now) = at_key k (added m) t
spec_call t (summarize k s now) = t
spec_call t (truncate k n now) = at_key k (Option.map (newest n)) t
spec_call t (replace k ms now) = at_key k (Option.map (λ old. ms)) t

abbrev pub spec_calls : Transcripts → List Call → Transcripts
spec_calls t [] = t
spec_calls t (c ∷ cs) = spec_calls (spec_call t c) cs

newest_all : (n : ℕ) (ms : List Message) → length ms ≤ n → newest n ms ≡ ms
newest_all n [] h = refl
newest_all n (m ∷ ms) h = ground arith

drop-newest : (n : ℕ) (ms : List Message) → n ≤ length ms → drop (length ms - n) ms ≡ newest n ms
drop-newest n [] h = ground arith
drop-newest n (m ∷ ms) h = elim (Bool-cases (leb (length (m ∷ ms)) n)) [
  | inl y ↦ rw y (drop_at 0 (ground arith))
  | inr more ↦
      rw more (drop_at (suc (length ms - n)) (ground arith) ∙ drop-newest n ms (ground arith))
]
  where
    drop_at :
        (d : ℕ) → length (m ∷ ms) - n ≡ d → drop (length (m ∷ ms) - n) (m ∷ ms) ≡ drop d (m ∷ ms)
    drop_at d e = ap (λ i. drop i (m ∷ ms)) e

newest_none : (ms : List Message) → newest 0 ms ≡ []
newest_none [] = refl
newest_none (m ∷ ms) = ground (arith, newest_none ms)

messages-truncate_session :
    (s : Session) (n now : ℕ) → (truncate_session s n now).messages ≡ newest n s.messages
unfolding truncate_session
messages-truncate_session s zero now = sym (newest_none s.messages)
messages-truncate_session s (suc n) now = elim (Bool-cases (leb (length s.messages) (suc n))) [
  | inl y ↦ rw y (sym (newest_all (suc n) s.messages (ground arith)))
  | inr more ↦ rw more (drop-newest (suc n) s.messages (ground arith))
]

edit_view :
    (sm : SessionManager) (k j : Text) (s : Session)
    (f : Option (List Message) → Option (List Message))
    → some s.messages ≡ f (transcripts sm k)
    → transcripts (put sm k s) j ≡ at_key k f (transcripts sm) j
edit_view sm k j s f h = elim (Bool-cases (text_eq k j)) [
  | inl y ↦
      rw (lookup-insert k j s sm.sessions, y)
        (h ∙ ap (λ i. f (transcripts sm i)) (text_eq_sound k j y))
  | inr n ↦ rw (lookup-insert k j s sm.sessions, n) refl
]

idle_view :
    (sm : SessionManager) (k j : Text) (f : Option (List Message) → Option (List Message))
    → transcripts sm k ≡ f (transcripts sm k)
    → transcripts sm j ≡ at_key k f (transcripts sm) j
idle_view sm k j f h = elim (Bool-cases (text_eq k j)) [
  | inl y ↦ rw y (subst (λ i. transcripts sm i ≡ f (transcripts sm i)) (text_eq_sound k j y) h)
  | inr n ↦ rw n refl
]

call_view :
    (sm : SessionManager) (c : Call) (j : Text)
    → transcripts (call sm c) j ≡ spec_call (transcripts sm) c j
unfolding call
call_view sm (open_session k now) j = elim (Option-cases (lookup k sm.sessions)) [
  | inl e ↦
      rw (call, get_or_create, e) (edit_view sm k j (empty_session k now now) opened (rw e refl))
  | inr (s, e) ↦ rw (call, get_or_create, e) (idle_view sm k j opened (rw e refl))
]
call_view sm (add k m now) j = elim (Option-cases (lookup k sm.sessions)) [
  | inl e ↦
      rw (call, add_full_message, e)
        (edit_view sm k j (append_message (empty_session k now 0) m now) (added m) (rw e refl))
  | inr (s, e) ↦
      rw (call, add_full_message, e)
        (edit_view sm k j (append_message s m now) (added m) (rw e refl))
]
call_view sm (summarize k t now) j = elim (Option-cases (lookup k sm.sessions)) [
  | inl e ↦ rw (call, set_summary, e) refl
  | inr (s, e) ↦
      rw (call, set_summary, e)
        (edit_view sm k j (record s { summary = t; updated = now }) (λ o. o) (rw e refl)
          ∙ sym (idle_view sm k j (λ o. o) refl))
]
call_view sm (truncate k n now) j = elim (Option-cases (lookup k sm.sessions)) [
  | inl e ↦ rw (call, truncate_history, e) (idle_view sm k j (Option.map (newest n)) (rw e refl))
  | inr (s, e) ↦
      rw (call, truncate_history, e)
        (edit_view sm k j (truncate_session s n now) (Option.map (newest n))
          (rw e (ap some (messages-truncate_session s n now))))
]
call_view sm (replace k ms now) j = elim (Option-cases (lookup k sm.sessions)) [
  | inl e ↦ rw (call, set_history, e) (idle_view sm k j (Option.map (λ old. ms)) (rw e refl))
  | inr (s, e) ↦
      rw (call, set_history, e)
        (edit_view sm k j (record s { messages = ms; updated = now }) (Option.map (λ old. ms))
          (rw e refl))
]

-- Any sequence of calls changes the transcripts as the abstract calls do: a message is added at the
-- end of its key's transcript and nowhere else, truncation keeps the newest messages, a history is
-- replaced only where a session is, and summaries change no transcript.
pub calls_refine :
    (sm : SessionManager) (cs : List Call)
    → transcripts (calls sm cs) ≡ spec_calls (transcripts sm) cs
calls_refine sm [] = refl
calls_refine sm (c ∷ cs) =
    calls_refine (call sm c) cs ∙ ap (λ t. spec_calls t cs) (λ i j. call_view sm c j i)

-- `GetHistory` shows the transcript, and nothing for a key without a session.
get_history-transcripts :
    (sm : SessionManager) (k : Text) → get_history sm k ≡ or_none (transcripts sm k)
unfolding get_history
get_history-transcripts sm k = elim (Option-cases (lookup k sm.sessions)) [
  | inl e ↦ rw (e, get_history) refl
  | inr (s, e) ↦ rw (e, get_history) refl
]
