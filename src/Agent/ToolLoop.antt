-- ===== src/Agent/ToolLoop.antt =====
-- pkg/tools/toolloop.go: the loop of sub-agents, without sessions and retries.
use operator_os.Base.{
  ℕ, zero, suc, ◌+◌, Bool, false, List, [], ◌∷◌, ◌++◌, map, Text, codes, none, some, if◌then◌else◌,
}
use operator_os.Providers.Messages.{
  assistant, ToolCall, Message, arguments_json, normalize_tool_call,
}
use operator_os.Agent.Compression.{answered, failed}
use operator_os.Agent.Loop.{Env, ToolResult, tool_message, Outcome, done, llm_failed}

-- The call as this loop stores it: with its arguments.
abbrev pub kept_call : ToolCall → ToolCall
kept_call tc = record {
  id = tc.id;
  name = tc.name;
  arguments = tc.arguments;
  function = some (record { name = tc.name; arguments = arguments_json tc.arguments });
}

abbrev pub calls_message : Text → List ToolCall → Message
calls_message content calls = record {
  role = assistant;
  content = content;
  tool_calls = map kept_call calls;
  tool_call_id = [];
}

-- `ErrorResult("No tools available")`
abbrev pub no_tools : ToolResult
no_tools = record {
  for_llm = codes "No tools available";
  for_user = [];
  silent = false;
  media = [];
  error = none;
}

-- `has_tools` is `config.Tools != nil`.
module _ (env : Env) (has_tools : Bool) where
  open env use {World, chat, execute, parsed}

  abbrev pub execute_call : ToolCall → World → ToolResult × World
  execute_call tc w =
      if has_tools then execute tc.name (arguments_json tc.arguments) w else (no_tools, w)

  unfoldable pub execute_calls : List ToolCall → World → List Message × World
  execute_calls [] w = ([], w)
  execute_calls (tc ∷ tcs) w =
      let (r, w1) = execute_call tc w in
      let (results, w2) = execute_calls tcs w1 in (tool_message tc r ∷ results, w2)

  -- The rounds left and those done; the result is the content or the error, and the rounds done.
  unfoldable pub tool_rounds : ℕ → ℕ → List Message → World → Outcome × ℕ × World
  unfolding execute_calls
  tool_rounds zero n messages w = (done [], n, w)
  tool_rounds (suc left) n messages w =
      let (r, w1) = chat messages w in
      elim r [
        | failed e ↦ (llm_failed e, n + 1, w1)
        | answered resp ↦ elim (resp.tool_calls) [
          | [] ↦ (done resp.content, n + 1, w1)
          | c ∷ cs ↦
              let calls = map (normalize_tool_call parsed) (c ∷ cs) in
              let (results, w2) = execute_calls calls w1 in
              tool_rounds left (n + 1) (messages ++ calls_message resp.content calls ∷ results) w2
        ]
      ]

  unfoldable pub run_tool_loop : ℕ → List Message → World → Outcome × ℕ × World
  unfolding tool_rounds
  run_tool_loop max_iterations messages w = tool_rounds max_iterations 0 messages w
