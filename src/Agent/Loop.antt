-- ===== src/Agent/Loop.antt =====
-- pkg/agent/loop.go: the loop of model calls and tool calls. One message is processed at a time.
use operator_os.Base.{
  ℕ, zero, suc, ◌+◌, ◌*◌, Bool, ◌&&◌, not, Option, none, some, List, [], ◌∷◌, ◌++◌, map, Text,
  codes, is_empty, ◌==◌, if◌then◌else◌,
}
use operator_os.Providers.Messages.{
  assistant, tool, ToolCall, Message, normalize_tool_call, arguments_json,
}
use operator_os.Session.Manager.{
  SessionManager, SaveAction, add_full_message, get_history, get_summary, set_history, save,
}
use operator_os.Agent.Context.{build_messages}
use operator_os.Agent.Compression.{
  ChatError, Chat, answered, failed, is_timeout_error, is_context_error, is_internal_channel,
  compressed,
}

-- The fields of pkg/tools/result.go that the loop reads; an error is its text.
pub record ToolResult : Type 0 where
  pub for_llm : Text
  pub for_user : Text
  pub silent : Bool
  pub media : List Text
  pub error : Option Text

pub data Outbound : Type 0 where
  text_out : Text → Text → Text → Outbound
  media_out : Text → Text → List Text → Outbound

-- The calls that leave the loop: the model (through the fallback chain or not), a tool, the clock, a
-- wait, the codec of arguments, decimal numbers, the length in code points, and the text of the system message.
pub record Env : Type 1 where
  pub World : Type 0
  pub chat : List Message → World → Chat × World
  pub execute : Text → Text → World → ToolResult × World
  pub now : World → ℕ
  pub sleep : ℕ → World → World
  pub parsed : Text → Option Text
  pub show_number : ℕ → Text
  pub rune_count : Text → ℕ
  pub system_prompt : Text → Text

pub record Options : Type 0 where
  pub session_key : Text
  pub channel : Text
  pub chat_id : Text
  pub user_message : Text
  pub default_response : Text
  pub enable_summary : Bool
  pub send_response : Bool
  pub no_history : Bool

-- `calls` counts the calls of the model in the loop; `outbound` and `saves` are newest first. The keys in
-- `summarizing` are of sessions with a summary under way.
pub record State (W : Type 0) : Type 0 where
  pub sessions : SessionManager
  pub outbound : List Outbound
  pub saves : List SaveAction
  pub calls : ℕ
  pub summarizing : List Text
  pub world : W

-- What the retry loop does about an error.
pub data Retry : Type 0 where
  wait_and_retry compress_and_retry give_up : Retry

unfoldable pub retry_for : ChatError → Retry
unfolding is_context_error
retry_for e =
    if is_timeout_error e
    then wait_and_retry
    else if is_context_error e
    then compress_and_retry
    else give_up

abbrev pub max_retries : ℕ
max_retries = 2

abbrev pub five_seconds : ℕ
five_seconds = 5_000_000_000

abbrev pub error_text : Option Text → Text
error_text none = []
error_text (some t) = t

abbrev pub content_for_llm : ToolResult → Text
content_for_llm r = if is_empty r.for_llm then error_text r.error else r.for_llm

-- The message with the calls, as it is stored.
abbrev pub stored_call : ToolCall → ToolCall
stored_call tc = record {
  id = tc.id;
  name = tc.name;
  arguments = none;
  function = some (record { name = tc.name; arguments = arguments_json tc.arguments });
}

abbrev pub assistant_message : Text → List ToolCall → Message
assistant_message content calls = record {
  role = assistant;
  content = content;
  tool_calls = map stored_call calls;
  tool_call_id = [];
}

abbrev pub tool_message : ToolCall → ToolResult → Message
tool_message tc r = record {
  role = tool;
  content = content_for_llm r;
  tool_calls = [];
  tool_call_id = tc.id;
}

abbrev pub user_part : Options → ToolResult → List Outbound
user_part opts r =
    if not r.silent && not (is_empty r.for_user) && opts.send_response
    then text_out opts.channel opts.chat_id r.for_user ∷ []
    else []

abbrev pub media_part : Options → ToolResult → List Outbound
media_part opts r = elim (r.media) [
  | [] ↦ []
  | m ∷ ms ↦ if opts.send_response then media_out opts.channel opts.chat_id (m ∷ ms) ∷ [] else []
]

pub data Outcome : Type 0 where
  done : Text → Outcome
  llm_failed : ChatError → Outcome

module _ (env : Env) (opts : Options) where
  open env use {World, chat, execute, now, sleep, parsed, show_number, system_prompt}

  unfoldable pub save_message : State World → Message → State World
  save_message st m = record st {
    sessions = add_full_message st.sessions opts.session_key m (now st.world);
  }

  abbrev pub with_history : State World → List Message → State World
  with_history st h =
      let sessions' = set_history st.sessions opts.session_key h (now st.world) in
      record st { sessions = sessions'; saves = save sessions' opts.session_key ∷ st.saves }

  unfoldable pub force_compression : State World → State World
  force_compression st = elim (compressed show_number (get_history st.sessions opts.session_key)) [
    | none ↦ st
    | some h ↦ with_history st h
  ]

  unfoldable pub call_llm : List Message → State World → Chat × State World
  call_llm messages st =
      let (r, w) = chat messages st.world in (r, record st { calls = st.calls + 1; world = w })

  abbrev pub tell_compressing : ℕ → State World → State World
  tell_compressing retry st =
      if retry == 0 && not (is_internal_channel opts.channel)
      then record st {
        outbound =
            text_out opts.channel opts.chat_id
              (codes "Context window exceeded. Compressing history and retrying...")
            ∷ st.outbound;
      }
      else st

  abbrev pub rebuilt : State World → List Message
  rebuilt st =
      build_messages system_prompt (get_history st.sessions opts.session_key)
        (get_summary st.sessions opts.session_key) []

  -- The retries left, the number of the try, and the messages and state of the last one.
  unfoldable pub attempts : ℕ → ℕ → List Message → State World → Chat × List Message × State World
  unfolding call_llm force_compression
  attempts zero retry messages st = let (r, st') = call_llm messages st in (r, messages, st')
  attempts (suc left) retry messages st =
      let (r, st') = call_llm messages st in
      let compact = force_compression (tell_compressing retry st') in
      elim r [
        | answered resp ↦ (answered resp, messages, st')
        | failed e ↦ elim (retry_for e) [
          | wait_and_retry ↦
              attempts left (retry + 1) messages
                (record st' { world = sleep ((retry + 1) * five_seconds) st'.world })
          | compress_and_retry ↦ attempts left (retry + 1) (rebuilt compact) compact
          | give_up ↦ (failed e, messages, st')
        ]
      ]

  abbrev pub ran : ToolCall → ToolResult → World → State World → State World
  ran tc r w st = record st {
    outbound = media_part opts r ++ user_part opts r ++ st.outbound;
    world = w;
  }

  -- The results of the calls, in their order.
  unfoldable pub run_tools : List ToolCall → State World → List Message × State World
  unfolding save_message
  run_tools [] st = ([], st)
  run_tools (tc ∷ tcs) st =
      let (r, w) = execute tc.name (arguments_json tc.arguments) st.world in
      let (results, st') = run_tools tcs (save_message (ran tc r w st) (tool_message tc r)) in
      (tool_message tc r ∷ results, st')

  abbrev pub normalized : List ToolCall → List ToolCall
  normalized = map (normalize_tool_call parsed)

  -- The rounds left and those done.
  unfoldable pub iterate : ℕ → ℕ → List Message → State World → Outcome × ℕ × State World
  unfolding attempts run_tools
  iterate zero n messages st = (done [], n, st)
  iterate (suc left) n messages st =
      let (r, ms, st1) = attempts max_retries 0 messages st in
      elim r [
        | failed e ↦ (llm_failed e, n + 1, st1)
        | answered resp ↦ elim (resp.tool_calls) [
          | [] ↦ (done resp.content, n + 1, st1)
          | c ∷ cs ↦
              let calls = normalized (c ∷ cs) in
              let asked = assistant_message resp.content calls in
              let (results, st2) = run_tools calls (save_message st1 asked) in
              iterate left (n + 1) (ms ++ asked ∷ results) st2
        ]
      ]

  unfoldable pub run_llm_iteration : ℕ → List Message → State World → Outcome × ℕ × State World
  unfolding iterate
  run_llm_iteration max_iterations messages st = iterate max_iterations 0 messages st
