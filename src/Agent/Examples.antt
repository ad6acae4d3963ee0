-- ===== src/Agent/Examples.antt =====
-- Runs of pkg/agent and pkg/tools, and the theorems at concrete inputs.
use operator_os.Base.{
  ℕ, zero, suc, ◌+◌, ◌*◌, ◌≤◌, ◌≡◌, refl, true, false, none, some, List, [], ◌∷◌, ◌++◌, map, Text,
  codes, length, lookup, text_eq, contains, to_lower, insert, inl, inr,
}
use operator_os.Providers.Messages.{
  user, assistant, tool, ToolCall, Message, plain_message, normalize_tool_call,
}
use operator_os.Providers.StoredCalls.{
  resolve_codex_tool_call, normalize_stored_tool_call, tool_use_block, reloaded,
}
use operator_os.Session.Manager.{get_history, add_message}
use operator_os.Agent.Context.{sanitize_history_for_provider}
use operator_os.Agent.Sanitized.{PlacedFrom, spoken, answering, called, sanitize_history_exact}
use operator_os.Agent.Compression.{Chat, answered, failed, compressed, is_internal_channel}
use operator_os.Agent.Loop.{
  Env, Options, State, done, tool_message, stored_call, assistant_message, run_llm_iteration,
  retry_for,
}
use operator_os.Agent.Bounds.{run_llm_iteration_bounds}
use operator_os.Agent.Rounds.{Evolves, run_llm_iteration-Evolves}
use operator_os.Agent.Summary.{Agent, maybe_summarize}
use operator_os.Agent.Answer.{AnswerEffects, run_agent_loop_effects}
use operator_os.Agent.ToolLoop.{kept_call}
use operator_os.Agent.Replay.{stored_call_replay}
use operator_os.Agent.Run.{run_agent_loop}

abbrev read_call : ToolCall
read_call = record {
  id = codes "call_1";
  name = codes "read_file";
  arguments = some (codes "{\"path\":\"a\"}");
  function = none;
}

-- A context error, then a tool call, then an answer.
abbrev script : List Message → ℕ → Chat × ℕ
script messages zero =
    (failed (record { is_deadline = false; text = codes "context window exceeded" }), 1)
script messages (suc zero) = (answered (record { content = []; tool_calls = read_call ∷ [] }), 2)
script messages (suc (suc n)) =
    (answered (record { content = codes "hello"; tool_calls = [] }), n + 3)

abbrev scripted : Env
scripted = record {
  World = ℕ;
  chat = script;
  execute = λ name args w. (
    record { for_llm = args; for_user = codes "reading"; silent = false; media = []; error = none },
    w,
  );
  now = λ w. w;
  sleep = λ n w. w;
  parsed = some;
  show_number = λ n. (n + 48) ∷ [];
  rune_count = length;
  system_prompt = λ s. codes "You are an agent." ++ s;
}

abbrev options : Options
options = record {
  session_key = codes "agent:main:main";
  channel = codes "telegram";
  chat_id = codes "7";
  user_message = codes "read a";
  default_response = codes "Done.";
  enable_summary = true;
  send_response = true;
  no_history = false;
}

abbrev main_agent : Agent
main_agent = record { id = codes "main"; max_iterations = 10; context_window = 8000 }

abbrev idle_at : ℕ → State ℕ
idle_at w = record {
  sessions = record { sessions = []; storage = [] };
  outbound = [];
  saves = [];
  calls = 0;
  summarizing = [];
  world = w;
}

abbrev question : List Message
question = plain_message user (codes "read a") ∷ []

run_llm_iteration_bounds_example :
    ((run_llm_iteration scripted options 10 question (idle_at 0)).1 ≤ 10)
    × (0 + (run_llm_iteration scripted options 10 question (idle_at 0)).1
        ≤ (run_llm_iteration scripted options 10 question (idle_at 0)).2.calls)
    × ((run_llm_iteration scripted options 10 question (idle_at 0)).2.calls
        ≤ 0 + 3 * (run_llm_iteration scripted options 10 question (idle_at 0)).1)
run_llm_iteration_bounds_example = run_llm_iteration_bounds scripted options 10 question (idle_at 0)

run_llm_iteration-Evolves_example : Evolves scripted.show_number [] (
    get_history
      (run_llm_iteration scripted options 10 question (idle_at 0)).2.sessions
      (codes "agent:main:main"))
unfolding get_history lookup
run_llm_iteration-Evolves_example =
    run_llm_iteration-Evolves scripted options 10 question (idle_at 0)

run_agent_loop_effects_example : AnswerEffects scripted main_agent options (idle_at 0)
run_agent_loop_effects_example = run_agent_loop_effects scripted main_agent options (idle_at 0)

-- The error, the tool call and the answer are three calls; the session has four messages.
answer_run :
    ((run_agent_loop scripted main_agent options (idle_at 0)).0 ≡ done (codes "hello"))
    × ((run_agent_loop scripted main_agent options (idle_at 0)).1.calls ≡ 3)
    × (map
          (λ m. m.role)
          (get_history
            (run_agent_loop scripted main_agent options (idle_at 0)).1.sessions
            (codes "agent:main:main"))
        ≡ user ∷ assistant ∷ tool ∷ assistant ∷ [])
unfolding run_agent_loop run_llm_iteration retry_for contains to_lower compressed get_history lookup
    is_internal_channel text_eq add_message insert maybe_summarize normalize_tool_call
answer_run = (refl, refl, refl)

stored_call_replay_example :
    ((resolve_codex_tool_call (stored_call read_call)
        ≡ some (codes "read_file", codes "{\"path\":\"a\"}"))
      × (resolve_codex_tool_call (reloaded (stored_call read_call))
          ≡ some (codes "read_file", codes "{\"path\":\"a\"}")))
    × ((normalize_stored_tool_call some (stored_call read_call)
          ≡ (codes "read_file", codes "{\"path\":\"a\"}"))
        × (normalize_stored_tool_call some (reloaded (stored_call read_call))
            ≡ (codes "read_file", codes "{\"path\":\"a\"}")))
    × ((tool_use_block (stored_call read_call)).input ≡ none)
    × ((tool_use_block (reloaded (stored_call read_call))).name ≡ [])
    × ((tool_use_block (kept_call read_call)).input ≡ some (codes "{\"path\":\"a\"}"))
stored_call_replay_example =
    stored_call_replay some read_call (codes "{\"path\":\"a\"}") refl refl refl refl

abbrev called_it : Message
called_it = assistant_message [] (read_call ∷ [])

abbrev result_of_it : Message
result_of_it =
    tool_message read_call
      (record { for_llm = codes "a"; for_user = []; silent = true; media = []; error = none })

abbrev exchange : List Message
exchange = question ++ called_it ∷ result_of_it ∷ []

exchange-PlacedFrom : PlacedFrom [] exchange
exchange-PlacedFrom = (
  spoken (inr (inl refl)),
  (
    called [] (plain_message user (codes "read a")) refl refl (inl refl),
    (answering [] question called_it refl refl tt refl, tt),
  ),
)

-- A history that begins with a tool result.
sanitize_history_exact_example :
    PlacedFrom [] (sanitize_history_for_provider (result_of_it ∷ exchange))
    × (sanitize_history_for_provider exchange ≡ exchange)
sanitize_history_exact_example =
    sanitize_history_exact (result_of_it ∷ exchange) exchange exchange-PlacedFrom

orphan_dropped : sanitize_history_for_provider (result_of_it ∷ exchange) ≡ exchange
unfolding sanitize_history_for_provider
orphan_dropped = refl

abbrev talk : Text → List Message
talk t = plain_message user t ∷ plain_message assistant t ∷ []

abbrev kept_talk : List Message
kept_talk = talk (codes "b") ++ talk (codes "c")

abbrev added_talk : List Message
added_talk = talk (codes "d") ++ talk (codes "e")

abbrev busy : State ℕ
busy = record (idle_at 9) {
  sessions = record {
    sessions =
        (
          codes "k",
          record {
            key = codes "k";
            messages = (talk (codes "a") ++ kept_talk) ++ added_talk;
            summary = [];
            created = 1;
            updated = 8;
          },
        )
        ∷ [];
    storage = [];
  };
}
