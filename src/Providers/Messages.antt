-- ===== src/Providers/Messages.antt =====
-- pkg/providers/protocoltypes/types.go and pkg/providers/toolcall_utils.go: messages and tool calls.
-- The arguments of a call are a JSON object, given by its text; `none` is the nil map.
use operator_os.Base.{
  Bool, true, ◌&&◌, not, Option, none, some, List, [], Text, codes, text_eq, is_empty,
  if◌then◌else◌,
}

pub data Role : Type 0 where
  system user assistant tool : Role
  other_role : Text → Role

pub record FunctionCall : Type 0 where
  pub name : Text
  pub arguments : Text

pub record ToolCall : Type 0 where
  pub id : Text
  pub name : Text
  pub arguments : Option Text
  pub function : Option FunctionCall

pub record Message : Type 0 where
  pub role : Role
  pub content : Text
  pub tool_calls : List ToolCall
  pub tool_call_id : Text

pub record LlmResponse : Type 0 where
  pub content : Text
  pub tool_calls : List ToolCall

abbrev pub plain_message : Role → Text → Message
plain_message role content = record {
  role = role;
  content = content;
  tool_calls = [];
  tool_call_id = [];
}

-- `json.Marshal` of the empty map.
abbrev pub empty_object : Text
empty_object = codes "{}"

abbrev pub no_arguments : Option Text → Bool
no_arguments none = true
no_arguments (some a) = text_eq a empty_object

abbrev pub arguments_json : Option Text → Text
arguments_json none = empty_object
arguments_json (some a) = a

abbrev pub or_text : Text → Text → Text
or_text s t = if is_empty s then t else s

abbrev pub function_name : Option FunctionCall → Text
function_name none = []
function_name (some f) = f.name

-- `parsed` is `json.Unmarshal` into a map and `json.Marshal` of it: none when the text is no object.
module _ (parsed : Text → Option Text) where
  abbrev pub reparsed : Option Text → Option FunctionCall → Option Text
  reparsed args none = some (arguments_json args)
  reparsed args (some f) =
      if no_arguments args && not (is_empty f.arguments)
      then elim (parsed f.arguments) [ none ↦ some (arguments_json args) | some a ↦ some a ]
      else some (arguments_json args)

  abbrev pub filled_function : Text → Text → Option FunctionCall → FunctionCall
  filled_function name args none = record { name = name; arguments = args }
  filled_function name args (some f) = record {
    name = or_text f.name name;
    arguments = or_text f.arguments args;
  }

  unfoldable pub normalize_tool_call : ToolCall → ToolCall
  normalize_tool_call tc =
      let name = or_text tc.name (function_name tc.function) in
      let args = reparsed tc.arguments tc.function in
      record {
        id = tc.id;
        name = name;
        arguments = args;
        function = some (filled_function name (arguments_json args) tc.function);
      }
