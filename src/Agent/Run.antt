-- ===== src/Agent/Run.antt =====
-- pkg/agent/loop.go: `runAgentLoop`, the answer to one message. The record of the last channel and the
-- tools' own contexts are left out.
use operator_os.Base.{List, [], ◌∷◌, Text, is_empty, if◌then◌else◌}
use operator_os.Providers.Messages.{user, assistant, Message}
use operator_os.Session.Manager.{add_message, get_history, get_summary, save}
use operator_os.Agent.Context.{build_messages}
use operator_os.Agent.Loop.{
  Env, Options, State, text_out, Outcome, done, llm_failed, run_llm_iteration,
}
use operator_os.Agent.Summary.{Agent, maybe_summarize}

module _ (env : Env) (agent : Agent) (opts : Options) where
  open env use {World, now, system_prompt}

  abbrev pub first_messages : State World → List Message
  first_messages st =
      if opts.no_history
      then build_messages system_prompt [] [] opts.user_message
      else build_messages system_prompt (get_history st.sessions opts.session_key)
          (get_summary st.sessions opts.session_key) opts.user_message

  unfoldable pub with_user_message : State World → State World
  with_user_message st = record st {
    sessions = add_message st.sessions opts.session_key user opts.user_message (now st.world);
  }

  abbrev pub final_content : Text → Text
  final_content c = if is_empty c then opts.default_response else c

  unfoldable pub with_answer : Text → State World → State World
  with_answer c st =
      let sessions' = add_message st.sessions opts.session_key assistant c (now st.world) in
      record st { sessions = sessions'; saves = save sessions' opts.session_key ∷ st.saves }

  abbrev pub summarized : State World → State World
  summarized st = if opts.enable_summary then maybe_summarize env agent opts.session_key st else st

  abbrev pub sent : Text → State World → State World
  sent c st =
      if opts.send_response
      then record st { outbound = text_out opts.channel opts.chat_id c ∷ st.outbound }
      else st

  unfoldable pub run_agent_loop : State World → Outcome × State World
  unfolding with_user_message with_answer
  run_agent_loop st =
      let (o, n, st') =
        run_llm_iteration env opts agent.max_iterations (first_messages st)
          (with_user_message st) in
      elim o [
        | llm_failed e ↦ (llm_failed e, st')
        | done c ↦ (
          done (final_content c),
          sent (final_content c) (summarized (with_answer (final_content c) st')),
        )
      ]
