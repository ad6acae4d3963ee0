-- ===== src/Agent/Answer.antt =====
-- What an answer of pkg/agent/loop.go leaves behind.
use operator_os.Base.{
  ℕ, ◌≡◌, refl, sym, ap, ◌∙◌, subst, false, List, [], ◌∷◌, ◌++◌, Text, is_empty, if◌then◌else◌, inl,
  inr, ◌⊎◌, arith,
}
use operator_os.Providers.Messages.{user, assistant, Message, plain_message}
use operator_os.Session.Manager.{get_history, add_message, save}
use operator_os.Agent.Compression.{ChatError}
use operator_os.Agent.Loop.{
  Env, Options, State, Outcome, done, llm_failed, Outbound, text_out, run_llm_iteration,
}
use operator_os.Agent.Transcript.{get_history-add_full_message}
use operator_os.Agent.Rounds.{Evolves, run_llm_iteration-Evolves}
use operator_os.Agent.Summary.{Agent, maybe_summarize}
use operator_os.Agent.Run.{
  run_agent_loop, first_messages, with_user_message, with_answer, final_content, summarized, sent,
}

Outcome-cases : (o : Outcome) → ((e : ChatError) × (o ≡ llm_failed e)) ⊎ ((c : Text) × (o ≡ done c))
Outcome-cases (done c) = inr (c, refl)
Outcome-cases (llm_failed e) = inl (e, refl)

module _ (env : Env) (agent : Agent) (opts : Options) where
  open env use {World, show_number}

  abbrev history : State World → List Message
  history st = get_history st.sessions opts.session_key

  sent_sessions : (c : Text) (st : State World) → (sent env agent opts c st).sessions ≡ st.sessions
  sent_sessions c st = ground arith

  sent_saves : (c : Text) (st : State World) → (sent env agent opts c st).saves ≡ st.saves
  sent_saves c st = ground arith

  summarized_sessions : (st : State World) → (summarized env agent opts st).sessions ≡ st.sessions
  unfolding maybe_summarize
  summarized_sessions st = ground arith

  summarized_saves : (st : State World) → (summarized env agent opts st).saves ≡ st.saves
  unfolding maybe_summarize
  summarized_saves st = ground arith

  summarized_outbound : (st : State World) → (summarized env agent opts st).outbound ≡ st.outbound
  unfolding maybe_summarize
  summarized_outbound st = ground arith

  history-with_answer :
      (c : Text) (st : State World)
      → history (with_answer env agent opts c st) ≡ history st ++ plain_message assistant c ∷ []
  unfolding with_answer add_message
  history-with_answer c st =
      get_history-add_full_message st.sessions opts.session_key (plain_message assistant c)
        (env.now st.world)

  history-with_user_message :
      (st : State World)
      → history (with_user_message env agent opts st)
        ≡ history st ++ plain_message user opts.user_message ∷ []
  unfolding with_user_message add_message
  history-with_user_message st =
      get_history-add_full_message st.sessions opts.session_key
        (plain_message user opts.user_message) (env.now st.world)

  abbrev pub after_loop : State World → Outcome × ℕ × State World
  after_loop st =
      run_llm_iteration env opts agent.max_iterations (first_messages env agent opts st)
        (with_user_message env agent opts st)

  abbrev answer_state : Text → State World → State World
  answer_state c st =
      sent env agent opts c (summarized env agent opts (with_answer env agent opts c st))

  run_agent_loop_cases :
      (st : State World)
      → ((e : ChatError) × ((after_loop st).0 ≡ llm_failed e)
          × (run_agent_loop env agent opts st ≡ (llm_failed e, (after_loop st).2)))
        ⊎ ((c : Text) × ((after_loop st).0 ≡ done c)
            × (run_agent_loop env agent opts st ≡ (
              done (final_content env agent opts c),
              answer_state (final_content env agent opts c) (after_loop st).2,
            )))
  unfolding run_agent_loop
  run_agent_loop_cases st = elim (Outcome-cases (after_loop st).0) [
    | inl (e, f) ↦ inl (e, f, rw (run_agent_loop, f) refl)
    | inr (c, f) ↦ inr (c, f, rw (run_agent_loop, f) refl)
  ]

  -- What is sent for an answer.
  abbrev pub answer_out : Text → List Outbound
  answer_out c = if opts.send_response then text_out opts.channel opts.chat_id c ∷ [] else []

  final_content_cases :
      (c : Text)
      → (is_empty (final_content env agent opts c) ≡ false)
        ⊎ (final_content env agent opts c ≡ opts.default_response)
  final_content_cases c = ground arith

  -- After the loop left a state: its session and the answer, one more save, of that session, and the
  -- answer sent last.
  abbrev pub AnsweredWith : Text → State World → State World → Type 0
  AnsweredWith c left st =
      (get_history st.sessions opts.session_key
        ≡ get_history left.sessions opts.session_key ++ plain_message assistant c ∷ [])
      × (st.outbound ≡ answer_out c ++ left.outbound)
      × (st.saves ≡ save st.sessions opts.session_key ∷ left.saves)

  sent_outbound :
      (c : Text) (st : State World)
      → (sent env agent opts c st).outbound ≡ answer_out c ++ st.outbound
  sent_outbound c st = ground arith

  with_answer_saves :
      (c : Text) (st : State World)
      → (with_answer env agent opts c st).saves
        ≡ save (with_answer env agent opts c st).sessions opts.session_key ∷ st.saves
  unfolding with_answer
  with_answer_saves c st = refl

  with_answer_outbound :
      (c : Text) (st : State World) → (with_answer env agent opts c st).outbound ≡ st.outbound
  unfolding with_answer
  with_answer_outbound c st = refl

  answer_state-AnsweredWith : (c : Text) (st : State World) → AnsweredWith c st (answer_state c st)
  answer_state-AnsweredWith c st =
      let a = with_answer env agent opts c st in
      let b = summarized env agent opts a in
      let same : (answer_state c st).sessions ≡ a.sessions =
        sent_sessions c b ∙ summarized_sessions a in
      (
        ap (λ s. get_history s opts.session_key) same ∙ history-with_answer c st,
        sent_outbound c b
            ∙ ap (λ l. answer_out c ++ l) (summarized_outbound a ∙ with_answer_outbound c st),
        sent_saves c b
            ∙ summarized_saves a
            ∙ with_answer_saves c st
            ∙ ap (λ s. save s opts.session_key ∷ st.saves) (sym same),
      )

  abbrev pub AnswerEffects : State World → Type 0
  AnswerEffects st =
      let (o, st') = run_agent_loop env agent opts st in
      let (r, _, left) = after_loop st in
      Evolves show_number
        (get_history st.sessions opts.session_key ++ plain_message user opts.user_message ∷ [])
        (get_history left.sessions opts.session_key)
      × (((e : ChatError) × (r ≡ llm_failed e) × (o ≡ llm_failed e) × (st' ≡ left))
          ⊎ ((a : Text) × (c : Text) × (r ≡ done a)
              × (o ≡ done c)
              × (c ≡ (if is_empty a then opts.default_response else a))
              × ((is_empty c ≡ false) ⊎ (c ≡ opts.default_response))
              × AnsweredWith c left st'))

  -- Whatever the model, the tools and the clock do: the message of the user is added to the session,
  -- and the loop adds rounds and compresses. Then either the loop ended with an error of the model,
  -- which is returned, and everything stays as the loop left it, with no further message, save or
  -- send; or it ended with an answer, and the answer is returned, or the default response if it is
  -- empty; it is added to the session, the session is saved once more, and it is sent last if the
  -- options ask for it.
  pub run_agent_loop_effects : (st : State World) → AnswerEffects st
  run_agent_loop_effects st =
      let st' = (after_loop st).2 in
      let evolves =
        run_llm_iteration-Evolves env opts agent.max_iterations (first_messages env agent opts st)
          (with_user_message env agent opts st) in
      (
        subst (λ h. Evolves show_number h (history st')) (history-with_user_message st) evolves,
        elim (run_agent_loop_cases st) [
          | inl (e, g, f) ↦ inl (e, g, ap (λ r. r.0) f, ap (λ r. r.1) f)
          | inr (c, g, f) ↦
              let content = final_content env agent opts c in
              inr (
                c,
                content,
                g,
                ap (λ r. r.0) f,
                refl,
                final_content_cases c,
                subst (λ r. AnsweredWith content st' r.1) (sym f)
                    (answer_state-AnsweredWith content st'),
              )
        ],
      )
