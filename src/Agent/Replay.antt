-- ===== src/Agent/Replay.antt =====
-- The tool calls of pkg/agent/loop.go as the clients of pkg/providers replay them.
use operator_os.Base.{◌≡◌, refl, false, Option, none, some, Text, is_empty, [], arith}
use operator_os.Providers.Messages.{ToolCall, arguments_json}
use operator_os.Providers.StoredCalls.{
  resolve_codex_tool_call, normalize_stored_tool_call, tool_use_block, reloaded,
}
use operator_os.Agent.Loop.{stored_call}
use operator_os.Agent.ToolLoop.{kept_call}

stored_arguments :
    (tc : ToolCall) (a : Text) → tc.arguments ≡ some a → arguments_json tc.arguments ≡ a
stored_arguments tc a e = rw e refl

-- Of a call with a name and arguments, stored by the agent and perhaps reloaded from a file, the clients
-- of Codex and of Antigravity send the name and the arguments, but the client of Anthropic sends no
-- input, and after a reload no name; of a call stored by a sub-agent it sends the input.
pub stored_call_replay :
    (parsed : Text → Option Text) (tc : ToolCall) (a : Text)
    → is_empty tc.name ≡ false
    → tc.arguments ≡ some a
    → is_empty a ≡ false
    → parsed a ≡ some a
    → ((resolve_codex_tool_call (stored_call tc) ≡ some (tc.name, a))
        × (resolve_codex_tool_call (reloaded (stored_call tc)) ≡ some (tc.name, a)))
      × ((normalize_stored_tool_call parsed (stored_call tc) ≡ (tc.name, a))
          × (normalize_stored_tool_call parsed (reloaded (stored_call tc)) ≡ (tc.name, a)))
      × ((tool_use_block (stored_call tc)).input ≡ none)
      × ((tool_use_block (reloaded (stored_call tc))).name ≡ [])
      × ((tool_use_block (kept_call tc)).input ≡ some a)
unfolding resolve_codex_tool_call normalize_stored_tool_call tool_use_block reloaded
stored_call_replay parsed tc a n e f p =
    let j = stored_arguments tc a e in
    ((ground (arith, j), ground (arith, j)), (ground (arith, j), ground (arith, j)), refl, refl, e)
