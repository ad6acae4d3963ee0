-- ===== src/Agent/Bounds.antt =====
-- How long the loop of pkg/agent/loop.go can go on.
use operator_os.Base.{ℕ, zero, suc, ◌+◌, ◌*◌, ◌≤◌, ◌≡◌, refl, ◌∙◌, List, [], ◌∷◌, inl, inr, arith}
use operator_os.Providers.Messages.{Message, ToolCall}
use operator_os.Agent.Turns.{
  attempts_rule, iterate_cases, compacted, tool_run, after_call, asked, next_messages,
}
use operator_os.Agent.Loop.{
  Env, Options, State, Outcome, call_llm, force_compression, attempts, run_tools, save_message,
  iterate, max_retries, run_llm_iteration, normalized,
}

module _ (env : Env) (opts : Options) where
  open env use {World}

  compacted_calls : (retry : ℕ) (st : State World) → (compacted env opts retry st).calls ≡ st.calls
  unfolding force_compression
  compacted_calls retry st = ground arith

  call_calls :
      (messages : List Message) (st : State World)
      → (call_llm env opts messages st).1.calls ≡ st.calls + 1
  unfolding call_llm
  call_calls messages st = refl

  -- One to `left + 1` calls.
  abbrev Calls : ℕ → State World → State World → Type 0
  Calls left st st' = (st.calls + 1 ≤ st'.calls) × (st'.calls ≤ st.calls + 1 + left)

  attempts-Calls :
      (left retry : ℕ) (messages : List Message) (st : State World)
      → Calls left st (attempts env opts left retry messages st).2
  attempts-Calls =
      attempts_rule env opts Calls (λ left messages st. omega (arith, call_calls messages st))
        (λ left retry messages st st' h. omega (arith, call_calls messages st, h))
        (λ left retry messages st st' h. omega (
          arith,
          call_calls messages st,
          compacted_calls retry (call_llm env opts messages st).1,
          h,
        ))

  save_calls : (st : State World) (m : Message) → (save_message env opts st m).calls ≡ st.calls
  unfolding save_message
  save_calls st m = refl

  tools_calls :
      (tcs : List ToolCall) (st : State World) → (run_tools env opts tcs st).1.calls ≡ st.calls
  unfolding run_tools save_message
  tools_calls [] st = refl
  tools_calls (tc ∷ tcs) st = tools_calls tcs _

  -- At most three calls of the model in each round, at least one, and no more rounds than are left.
  abbrev Within : ℕ → ℕ → State World → Outcome × ℕ × State World → Type 0
  Within left n st (o, n', st') =
      (n ≤ n')
      × (n' ≤ n + left)
      × (st.calls + n' ≤ st'.calls + n)
      × (st'.calls + 3 * n ≤ st.calls + 3 * n')

  iterate-Within :
      (left n : ℕ) (messages : List Message) (st : State World)
      → Within left n st (iterate env opts left n messages st)
  unfolding iterate
  iterate-Within zero n messages st = omega arith
  iterate-Within (suc left) n messages st =
      let c = attempts-Calls max_retries 0 messages st in
      elim (iterate_cases env opts messages st left n) [
        | inl (e, f) ↦ rw f (omega arith)
        | inr (inl (resp, a, b, f)) ↦ rw f (omega arith)
        | inr (inr (resp, a, b, f)) ↦
            let st2 = (tool_run env opts messages st resp).1 in
            let ih = iterate-Within left (n + 1) (next_messages env opts messages st resp) st2 in
            let t : st2.calls ≡ (after_call env opts messages st).calls =
              tools_calls (normalized env opts resp.tool_calls) (
                save_message env opts (after_call env opts messages st)
                  (asked env opts messages st resp))
              ∙ save_calls (after_call env opts messages st) (asked env opts messages st resp) in
            rw f (omega arith)
      ]

  -- The loop ends after at most `max` rounds, and in all it calls the model at least as often as there
  -- are rounds and at most three times as often.
  pub run_llm_iteration_bounds :
      (max : ℕ) (messages : List Message) (st : State World)
      → ((run_llm_iteration env opts max messages st).1 ≤ max)
        × (st.calls + (run_llm_iteration env opts max messages st).1
            ≤ (run_llm_iteration env opts max messages st).2.calls)
        × ((run_llm_iteration env opts max messages st).2.calls
            ≤ st.calls + 3 * (run_llm_iteration env opts max messages st).1)
  unfolding run_llm_iteration
  run_llm_iteration_bounds max messages st =
      let v = iterate-Within max 0 messages st in (omega arith, omega arith, omega arith)
