-- ===== src/Providers/StoredCalls.antt =====
-- How the clients in pkg/providers read a tool call out of a message of the history.
use operator_os.Base.{◌&&◌, not, Option, none, some, Text, is_empty, [], if◌then◌else◌}
use operator_os.Providers.Messages.{
  ToolCall, FunctionCall, or_text, function_name, no_arguments, arguments_json, empty_object,
}

abbrev pub function_arguments : Option FunctionCall → Text
function_arguments none = []
function_arguments (some f) = f.arguments

-- pkg/providers/codex_provider.go: the name and the text of the arguments.
unfoldable pub resolve_codex_tool_call : ToolCall → Option (Text × Text)
resolve_codex_tool_call tc =
    let name = or_text tc.name (function_name tc.function) in
    if is_empty name
    then none
    else if not (no_arguments tc.arguments)
    then some (name, arguments_json tc.arguments)
    else if not (is_empty (function_arguments tc.function))
    then some (name, function_arguments tc.function)
    else some (name, empty_object)

-- pkg/providers/antigravity_provider.go, without the signature of the thought: the name and the map.
unfoldable pub normalize_stored_tool_call : (Text → Option Text) → ToolCall → Text × Text
normalize_stored_tool_call parsed tc =
    let args = arguments_json tc.arguments in
    (
      or_text tc.name (function_name tc.function),
      if no_arguments tc.arguments && not (is_empty (function_arguments tc.function))
          then elim (parsed (function_arguments tc.function)) [ none ↦ args | some a ↦ a ]
          else args,
    )

pub record ToolUseBlock : Type 0 where
  pub id : Text
  pub input : Option Text
  pub name : Text

-- pkg/providers/anthropic/provider.go: the block of a call; the input `none` is the nil map.
unfoldable pub tool_use_block : ToolCall → ToolUseBlock
tool_use_block tc = record { id = tc.id; input = tc.arguments; name = tc.name }

-- A call written to a file and read again: `Name` and `Arguments` have the tag `json:"-"`.
unfoldable pub reloaded : ToolCall → ToolCall
reloaded tc = record tc { name = []; arguments = none }
