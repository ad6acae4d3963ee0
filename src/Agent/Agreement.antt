-- ===== src/Agent/Agreement.antt =====
-- The loop of pkg/tools/toolloop.go against that of pkg/agent/loop.go.
use operator_os.Base.{ℕ, ◌+◌, ◌≡◌, none, List, ◌∷◌, ◌++◌, map}
use operator_os.Providers.Messages.{Message, ToolCall, LlmResponse}
use operator_os.Agent.Loop.{
  Env, Options, State, Outcome, run_tools, save_message, iterate, normalized, assistant_message,
}

-- What is encoded of a call and of a message: `Arguments` has the tag `json:"-"`, and `Function` holds
-- their text.
abbrev pub wire_call : ToolCall → ToolCall
wire_call tc = record tc { arguments = none }

abbrev pub wire : Message → Message
wire m = record m { tool_calls = map wire_call m.tool_calls }

module _ (env : Env) (opts : Options) where
  open env use {World, chat}

  abbrev next_round :
      ℕ
      → ℕ
      → LlmResponse
      → ToolCall
      → List ToolCall
      → List Message
      → State World
      → Outcome × ℕ × State World
  next_round left n resp c cs messages st =
      let asked = assistant_message resp.content (normalized env opts (c ∷ cs)) in
      let (results, st2) =
        run_tools env opts (normalized env opts (c ∷ cs)) (save_message env opts st asked) in
      iterate env opts left (n + 1) (messages ++ asked ∷ results) st2

  abbrev Agrees : Outcome × ℕ × World → Outcome × ℕ × State World → Type 0
  Agrees (o, n, w) (o', n', st) = (o' ≡ o) × (n' ≡ n) × (st.world ≡ w)
