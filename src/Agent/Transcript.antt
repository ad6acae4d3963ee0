-- ===== src/Agent/Transcript.antt =====
-- What pkg/agent/loop.go does to the history of its session (pkg/session/manager.go).
use operator_os.Base.{
  ℕ, ◌≡◌, refl, none, some, List, [], ◌∷◌, ◌++◌, Text, text_eq_refl, lookup, lookup-insert,
  Option-cases, inl, inr, ◌⊎◌, arith,
}
use operator_os.Providers.Messages.{Message}
use operator_os.Session.Manager.{
  SessionManager, put, Session, add_full_message, get_history, set_history, append_message,
  session_or_new,
}
use operator_os.Agent.Compression.{compressed}
use operator_os.Agent.Loop.{
  Env, Options, State, call_llm, force_compression, tell_compressing, save_message, with_history,
}

pub put_history :
    (sm : SessionManager) (k : Text) (s : Session) → get_history (put sm k s) k ≡ s.messages
unfolding get_history
put_history sm k s = rw (get_history, lookup-insert k k s sm.sessions, text_eq_refl k) refl

pub history_cases :
    (sm : SessionManager) (k : Text)
    → ((lookup k sm.sessions ≡ none) × (get_history sm k ≡ []))
      ⊎ ((s : Session) × (lookup k sm.sessions ≡ some s) × (get_history sm k ≡ s.messages))
unfolding get_history
history_cases sm k = elim (Option-cases (lookup k sm.sessions)) [
  | inl e ↦ inl (e, rw (get_history, e) refl)
  | inr (s, e) ↦ inr (s, e, rw (get_history, e) refl)
]

pub get_history-add_full_message :
    (sm : SessionManager) (k : Text) (m : Message) (now : ℕ)
    → get_history (add_full_message sm k m now) k ≡ get_history sm k ++ m ∷ []
unfolding add_full_message
get_history-add_full_message sm k m now = elim (history_cases sm k) [
  | inl (e, h) ↦
      rw (add_full_message, e, h)
        (put_history sm k (append_message (session_or_new none k now) m now))
  | inr (s, e, h) ↦ rw (add_full_message, e, h) (put_history sm k (append_message s m now))
]

pub get_history-set_history :
    (sm : SessionManager) (k : Text) (x : Message) (xs ms : List Message) (now : ℕ)
    → get_history sm k ≡ x ∷ xs
    → get_history (set_history sm k ms now) k ≡ ms
unfolding set_history
get_history-set_history sm k x xs ms now h = elim (history_cases sm k) [
  | inl (e, n) ↦ absurd (ground arith)
  | inr (s, e, g) ↦
      rw (set_history, e) (put_history sm k (record s { messages = ms; updated = now }))
]

module _ (env : Env) (opts : Options) where
  open env use {World}

  abbrev pub transcript : State World → List Message
  transcript st = get_history st.sessions opts.session_key

  pub transcript-save_message :
      (st : State World) (m : Message)
      → transcript (save_message env opts st m) ≡ transcript st ++ m ∷ []
  unfolding save_message
  transcript-save_message st m =
      get_history-add_full_message st.sessions opts.session_key m (env.now st.world)

  pub transcript-call_llm :
      (messages : List Message) (st : State World)
      → transcript (call_llm env opts messages st).1 ≡ transcript st
  unfolding call_llm
  transcript-call_llm messages st = refl

  pub transcript-tell_compressing :
      (retry : ℕ) (st : State World)
      → transcript (tell_compressing env opts retry st) ≡ transcript st
  transcript-tell_compressing retry st = ground arith

  transcript-with_history :
      (st : State World) (ms h : List Message)
      → transcript st ≡ ms
      → compressed env.show_number ms ≡ some h
      → transcript (with_history env opts st h) ≡ h
  unfolding compressed
  transcript-with_history st [] h e c = absurd (ground arith)
  transcript-with_history st (x ∷ xs) h e c =
      get_history-set_history st.sessions opts.session_key x xs h (env.now st.world) e

  -- Compression replaces the transcript by the compressed one, or leaves the state as it is.
  pub force_compression-transcript :
      (st : State World)
      → ((compressed env.show_number (transcript st) ≡ none) × (force_compression env opts st ≡ st))
        ⊎ ((h : List Message) × (compressed env.show_number (transcript st) ≡ some h)
            × (transcript (force_compression env opts st) ≡ h))
  unfolding force_compression
  force_compression-transcript st =
      elim (Option-cases (compressed env.show_number (transcript st))) [
        | inl e ↦ inl (e, rw (force_compression, e) refl)
        | inr (h, e) ↦
            inr (
              h,
              e,
              rw (force_compression, e) (transcript-with_history st (transcript st) h refl e),
            )
      ]
