-- ===== src/Agent/Rounds.antt =====
-- The loop of pkg/agent/loop.go against a relation between transcripts.
use operator_os.Base.{
  ℕ, zero, suc, ◌+◌, ◌≡◌, refl, sym, ap, ◌∙◌, subst, some, List, [], ◌∷◌, ◌++◌, Text, inl, inr,
}
use mathlib.Core.List.{append_assoc, append-nil}
use operator_os.Providers.Messages.{tool, Message, ToolCall, LlmResponse, arguments_json}
use operator_os.Session.Manager.{get_history}
use operator_os.Agent.Compression.{compressed}
use operator_os.Agent.Loop.{
  Env, Options, State, call_llm, tell_compressing, attempts, run_tools, save_message, tool_message,
  ran, iterate, max_retries, run_llm_iteration, assistant_message, normalized,
}
use operator_os.Agent.Turns.{
  attempts_rule, iterate_cases, slept, compacted, tool_run, after_call, asked, next_messages,
}
use operator_os.Agent.Transcript.{
  transcript, transcript-save_message, transcript-call_llm, transcript-tell_compressing,
  force_compression-transcript,
}

-- One tool message for each call, in the order of the calls, with its id.
abbrev pub Answers : List ToolCall → List Message → Type 0
Answers [] [] = Unit {0}
Answers [] (m ∷ ms) = ⊥
Answers (c ∷ cs) [] = ⊥
Answers (c ∷ cs) (m ∷ ms) =
    (m.role ≡ tool) × (m.tool_call_id ≡ c.id) × (m.tool_calls ≡ []) × Answers cs ms

-- How a transcript evolves: by compressions, and by rounds, each a message of the assistant that calls
-- tools and the answers to its calls.
pub data Evolves (show_number : ℕ → Text) : List Message → List Message → Type 0 where
  stays : {h : List Message} → Evolves show_number h h
  compresses :
      {h h' h'' : List Message}
      → compressed show_number h ≡ some h'
      → Evolves show_number h' h''
      → Evolves show_number h h''
  adds_round :
      {h h'' : List Message} (content : Text) (calls : List ToolCall) (results : List Message)
      → Answers calls results
      → Evolves show_number (h ++ assistant_message content calls ∷ results) h''
      → Evolves show_number h h''

Evolves-trans :
    {show : ℕ → Text} {h h' h'' : List Message}
    → Evolves show h h'
    → Evolves show h' h''
    → Evolves show h h''
Evolves-trans stays e = e
Evolves-trans (compresses c d) e = compresses c (Evolves-trans d e)
Evolves-trans (adds_round t cs rs a d) e = adds_round t cs rs a (Evolves-trans d e)

module _ (env : Env) (opts : Options) where
  open env use {World, show_number}

  abbrev Follows : State World → State World → Type 0
  Follows st st' = Evolves show_number (transcript env opts st) (transcript env opts st')

  Follows-eq :
      (st st1 st2 : State World)
      → transcript env opts st ≡ transcript env opts st1
      → Follows st1 st2
      → Follows st st2
  Follows-eq st st1 st2 e f = subst (λ h. Evolves show_number h (transcript env opts st2)) (sym e) f

  compacted-Follows : (retry : ℕ) (st : State World) → Follows st (compacted env opts retry st)
  compacted-Follows retry st =
      let told = tell_compressing env opts retry st in
      Follows-eq st told (compacted env opts retry st)
        (sym (transcript-tell_compressing env opts retry st))
        (elim (force_compression-transcript env opts told) [
          | inl (n, e) ↦ rw e stays
          | inr (h, c, e) ↦ rw e (compresses c stays)
        ])

  attempts-Follows :
      (left retry : ℕ) (messages : List Message) (st : State World)
      → Follows st (attempts env opts left retry messages st).2
  attempts-Follows =
      attempts_rule env opts (λ left. Follows)
        (λ left messages st.
          Follows-eq st (call_llm env opts messages st).1 (call_llm env opts messages st).1
            (sym (transcript-call_llm env opts messages st)) stays)
        (λ left retry messages st st' f.
          Follows-eq st (slept env opts retry (call_llm env opts messages st).1) st'
            (sym (transcript-call_llm env opts messages st)) f)
        (λ left retry messages st st' f.
          Follows-eq st (call_llm env opts messages st).1 st'
            (sym (transcript-call_llm env opts messages st))
            (Evolves-trans (compacted-Follows retry (call_llm env opts messages st).1) f))

  run_tools-Answers :
      (tcs : List ToolCall) (st : State World) → Answers tcs (run_tools env opts tcs st).0
  unfolding run_tools
  run_tools-Answers [] st = tt
  run_tools-Answers (tc ∷ tcs) st = (refl, refl, refl, run_tools-Answers tcs _)

  transcript-run_tools :
      (tcs : List ToolCall) (st : State World)
      → transcript env opts (run_tools env opts tcs st).1
        ≡ transcript env opts st ++ (run_tools env opts tcs st).0
  unfolding run_tools
  transcript-run_tools [] st = sym (append-nil (transcript env opts st))
  transcript-run_tools (tc ∷ tcs) st =
      let (r, w) = env.execute tc.name (arguments_json tc.arguments) st.world in
      let saved = save_message env opts (ran env opts tc r w st) (tool_message tc r) in
      transcript-run_tools tcs saved
      ∙ ap (λ h. h ++ (run_tools env opts tcs saved).0)
          (transcript-save_message env opts (ran env opts tc r w st) (tool_message tc r))
      ∙ append_assoc (transcript env opts st) (tool_message tc r ∷ [])
          (run_tools env opts tcs saved).0

  transcript-tool_run :
      (messages : List Message) (st : State World) (resp : LlmResponse)
      → transcript env opts (tool_run env opts messages st resp).1
        ≡ transcript env opts (after_call env opts messages st)
          ++ asked env opts messages st resp ∷ (tool_run env opts messages st resp).0
  transcript-tool_run messages st resp =
      let before = after_call env opts messages st in
      let m = asked env opts messages st resp in
      let calls = normalized env opts resp.tool_calls in
      transcript-run_tools calls (save_message env opts before m)
      ∙ ap (λ h. h ++ (tool_run env opts messages st resp).0)
          (transcript-save_message env opts before m)
      ∙ append_assoc (transcript env opts before) (m ∷ []) (tool_run env opts messages st resp).0

  round-Follows :
      (messages : List Message) (st st' : State World) (resp : LlmResponse)
      → Follows (tool_run env opts messages st resp).1 st'
      → Follows (after_call env opts messages st) st'
  round-Follows messages st st' resp f =
      let calls = normalized env opts resp.tool_calls in
      adds_round resp.content calls (tool_run env opts messages st resp).0
        (run_tools-Answers calls (
          save_message env opts (after_call env opts messages st)
            (asked env opts messages st resp)))
        (subst (λ h. Evolves show_number h (transcript env opts st'))
          (transcript-tool_run messages st resp) f)

  iterate-Follows :
      (left n : ℕ) (messages : List Message) (st : State World)
      → Follows st (iterate env opts left n messages st).2
  unfolding iterate
  iterate-Follows zero n messages st = stays
  iterate-Follows (suc left) n messages st =
      let c = attempts-Follows max_retries 0 messages st in
      elim (iterate_cases env opts messages st left n) [
        | inl (e, f) ↦ rw f c
        | inr (inl (resp, a, b, f)) ↦ rw f c
        | inr (inr (resp, a, b, f)) ↦ rw f (
            Evolves-trans c (
              round-Follows messages st
                (iterate env opts left (n + 1) (next_messages env opts messages st resp)
                  (tool_run env opts messages st resp).1).2
                resp
                (iterate-Follows left (n + 1) (next_messages env opts messages st resp)
                  (tool_run env opts messages st resp).1)))
      ]

  -- Whatever the model, the tools and the clock do, the loop changes the transcript of its session only
  -- by compressions and by whole rounds: a message of the assistant with its calls, and after it one
  -- tool message for each call, in the order of the calls and with the call's id.
  pub run_llm_iteration-Evolves :
      (max_iterations : ℕ) (messages : List Message) (st : State World)
      → Evolves show_number (get_history st.sessions opts.session_key) (
          get_history
            (run_llm_iteration env opts max_iterations messages st).2.sessions
            opts.session_key)
  unfolding run_llm_iteration
  run_llm_iteration-Evolves max_iterations messages st =
      iterate-Follows max_iterations 0 messages st
