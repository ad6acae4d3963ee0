-- ===== src/Agent/Turns.antt =====
-- One turn of the loops of pkg/agent/loop.go, by cases.
use operator_os.Base.{ℕ, zero, suc, ◌+◌, ◌*◌, ◌≡◌, refl, List, [], ◌∷◌, ◌++◌, ◌⊎◌, inl, inr}
use operator_os.Providers.Messages.{Message, LlmResponse, ToolCall}
use operator_os.Agent.Compression.{Chat, answered, failed, ChatError}
use operator_os.Agent.Loop.{
  Env, Options, State, done, llm_failed, Retry, wait_and_retry, compress_and_retry, give_up,
  retry_for, call_llm, force_compression, tell_compressing, attempts, run_tools, save_message,
  iterate, max_retries, rebuilt, assistant_message, normalized, five_seconds,
}

pub Chat-cases :
    (c : Chat) → ((r : LlmResponse) × (c ≡ answered r)) ⊎ ((e : ChatError) × (c ≡ failed e))
Chat-cases (answered r) = inl (r, refl)
Chat-cases (failed e) = inr (e, refl)

Retry-cases : (r : Retry) → (r ≡ wait_and_retry) ⊎ ((r ≡ compress_and_retry) ⊎ (r ≡ give_up))
Retry-cases wait_and_retry = inl refl
Retry-cases compress_and_retry = inr (inl refl)
Retry-cases give_up = inr (inr refl)

pub List-cases {ℓ} :
    {A : Type ℓ} (l : List A) → (l ≡ []) ⊎ ((a : A) × (as_rest : List A) × (l ≡ a ∷ as_rest))
List-cases [] = inl refl
List-cases (x ∷ xs) = inr (x, xs, refl)

module _ (env : Env) (opts : Options) where
  open env use {World, sleep}

  abbrev pub slept : ℕ → State World → State World
  slept retry st = record st { world = sleep ((retry + 1) * five_seconds) st.world }

  abbrev pub compacted : ℕ → State World → State World
  compacted retry st = force_compression env opts (tell_compressing env opts retry st)

  -- A try is the last one, or another follows after a wait or after a compression.
  pub attempts_cases :
      (left retry : ℕ) (messages : List Message) (st : State World)
      → (attempts env opts (suc left) retry messages st
          ≡ ((call_llm env opts messages st).0, messages, (call_llm env opts messages st).1))
        ⊎ ((attempts env opts (suc left) retry messages st
              ≡ attempts env opts left
                  (retry + 1)
                  messages
                  (slept retry (call_llm env opts messages st).1))
            ⊎ (attempts env opts (suc left) retry messages st
                ≡ attempts env opts left
                    (retry + 1)
                    (rebuilt env opts (compacted retry (call_llm env opts messages st).1))
                    (compacted retry (call_llm env opts messages st).1)))
  unfolding attempts
  attempts_cases left retry messages st = elim (Chat-cases (call_llm env opts messages st).0) [
    | inl (r, e) ↦ inl (rw (e, attempts) refl)
    | inr (e, f) ↦ elim (Retry-cases (retry_for e)) [
      | inl w ↦ inr (inl (rw (f, attempts) (rw (w, attempts) refl)))
      | inr (inl c) ↦ inr (inr (rw (f, attempts) (rw (c, attempts) refl)))
      | inr (inr g) ↦ inl (rw (f, attempts) (rw (g, attempts) refl))
    ]
  ]

  -- What a rule for `attempts` needs of a relation between states.
  pub attempts_rule :
      (P : ℕ → State World → State World → Type 0)
      → ((left : ℕ) (messages : List Message) (st : State World)
          → P left st (call_llm env opts messages st).1)
      → ((left retry : ℕ) (messages : List Message) (st st' : State World)
          → P left (slept retry (call_llm env opts messages st).1) st'
          → P (suc left) st st')
      → ((left retry : ℕ) (messages : List Message) (st st' : State World)
          → P left (compacted retry (call_llm env opts messages st).1) st'
          → P (suc left) st st')
      → (left retry : ℕ) (messages : List Message) (st : State World)
      → P left st (attempts env opts left retry messages st).2
  unfolding attempts
  attempts_rule P call wait compress zero retry messages st = call zero messages st
  attempts_rule P call wait compress (suc left) retry messages st =
      let st' = (call_llm env opts messages st).1 in
      elim (attempts_cases left retry messages st) [
        | inl e ↦ rw e (call (suc left) messages st)
        | inr (inl e) ↦ rw e (
            wait left retry messages st _
              (attempts_rule P call wait compress left (retry + 1) messages (slept retry st')))
        | inr (inr e) ↦ rw e (
            compress left retry messages st _ (
              attempts_rule P call wait compress left (retry + 1)
                (rebuilt env opts (compacted retry st')) (compacted retry st')))
      ]

  module _ (messages : List Message) (st : State World) where
    abbrev pub reply_of : Chat
    reply_of = (attempts env opts max_retries 0 messages st).0

    abbrev pub after_call : State World
    after_call = (attempts env opts max_retries 0 messages st).2

    abbrev pub asked : LlmResponse → Message
    asked resp = assistant_message resp.content (normalized env opts resp.tool_calls)

    abbrev pub tool_run : LlmResponse → List Message × State World
    tool_run resp =
        run_tools env opts (normalized env opts resp.tool_calls)
          (save_message env opts after_call (asked resp))

    abbrev pub next_messages : LlmResponse → List Message
    next_messages resp =
        (attempts env opts max_retries 0 messages st).1 ++ asked resp ∷ (tool_run resp).0

    -- A round ends the loop with an error, ends it with an answer, or runs the tools and goes on.
    pub iterate_cases :
        (left n : ℕ)
        → ((e : ChatError) × (iterate env opts (suc left) n messages st
              ≡ (llm_failed e, n + 1, after_call)))
          ⊎ (((resp : LlmResponse) × (reply_of ≡ answered resp)
                × (resp.tool_calls ≡ [])
                × (iterate env opts (suc left) n messages st
                    ≡ (done resp.content, n + 1, after_call)))
              ⊎ ((resp : LlmResponse) × (reply_of ≡ answered resp)
                  × ((c : ToolCall) × (cs : List ToolCall) × (resp.tool_calls ≡ c ∷ cs))
                  × (iterate env opts (suc left) n messages st
                      ≡ iterate env opts left (n + 1) (next_messages resp) (tool_run resp).1)))
    unfolding iterate
    iterate_cases left n = elim (Chat-cases reply_of) [
      | inr (e, f) ↦ inl (e, rw (f, iterate) refl)
      | inl (resp, e) ↦ inr (elim (List-cases resp.tool_calls) [
        | inl g ↦ inl (resp, e, g, rw (e, iterate) (rw (g, iterate) refl))
        | inr (c, cs, g) ↦ inr (resp, e, (c, cs, g), rw (e, iterate) (rw (g, iterate) refl))
      ])
    ]
