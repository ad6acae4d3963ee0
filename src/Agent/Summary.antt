-- ===== src/Agent/Summary.antt =====
-- pkg/agent/loop.go: the summary of a session, which is made in the background.
use operator_os.Base.{
  ℕ, ◌+◌, ◌*◌, ◌-◌, ◌/◌, Bool, true, false, ◌&&◌, ◌||◌, not, List, [], ◌∷◌, ◌++◌, Text, codes,
  is_empty, if◌then◌else◌, length, drop, take, ltb, leb, text_eq,
}
use operator_os.Providers.Messages.{
  Role, system, user, assistant, tool, other_role, Message, plain_message,
}
use operator_os.Session.Manager.{get_history, get_summary, set_summary, truncate_history, save}
use operator_os.Agent.Compression.{Chat, answered, failed}
use operator_os.Agent.Loop.{Env, State}

pub record Agent : Type 0 where
  pub id : Text
  pub max_iterations : ℕ
  pub context_window : ℕ

abbrev pub kept_messages : ℕ
kept_messages = 4

-- `history[:len(history)-4]`
abbrev pub to_summarize : List Message → List Message
to_summarize history = take (length history - kept_messages) history

abbrev pub is_talk : Role → Bool
is_talk user = true
is_talk assistant = true
is_talk system = false
is_talk tool = false
is_talk (other_role t) = false

abbrev pub is_oversized : ℕ → Message → Bool
is_oversized max_tokens m = ltb max_tokens (length m.content / 2)

-- The valid messages, and whether one was omitted.
unfoldable pub valid_messages : ℕ → List Message → List Message × Bool
valid_messages max_tokens [] = ([], false)
valid_messages max_tokens (m ∷ ms) =
    let (valid, omitted) = valid_messages max_tokens ms in
    if not (is_talk m.role)
    then (valid, omitted)
    else if is_oversized max_tokens m
    then (valid, true)
    else (m ∷ valid, omitted)

abbrev pub role_text : Role → Text
role_text system = codes "system"
role_text user = codes "user"
role_text assistant = codes "assistant"
role_text tool = codes "tool"
role_text (other_role t) = t

abbrev pub lines : List Message → Text
lines [] = []
lines (m ∷ ms) = role_text m.role ++ codes ": " ++ m.content ++ codes "\n" ++ lines ms

unfoldable pub batch_prompt : List Message → Text → Text
batch_prompt batch existing =
    codes
      "Provide a concise summary of this conversation segment, preserving core context and key points.\n"
    ++ (if is_empty existing then [] else codes "Existing context: " ++ existing ++ codes "\n")
    ++ codes "\nCONVERSATION:\n"
    ++ lines batch

abbrev merge_prompt : Text → Text → Text
merge_prompt s1 s2 =
    codes "Merge these two conversation summaries into one cohesive summary:\n\n1: "
    ++ s1
    ++ codes "\n\n2: "
    ++ s2

abbrev omitted_note : Text
omitted_note =
    codes "\n[Note: Some oversized messages were omitted from this summary for efficiency.]"

abbrev pub content_or : Text → Chat → Text
content_or otherwise (answered r) = r.content
content_or otherwise (failed e) = otherwise

module _ (env : Env) (agent : Agent) (key : Text) where
  open env use {World, chat, now, rune_count}

  -- The content, or no text on an error.
  unfoldable pub summarize_batch : List Message → Text → World → Text × World
  unfolding batch_prompt
  summarize_batch batch existing w =
      let (r, w') = chat (plain_message user (batch_prompt batch existing) ∷ []) w in
      (content_or [] r, w')

  unfoldable pub summarize_parts : List Message → Text → World → Text × World
  unfolding summarize_batch
  summarize_parts valid summary w =
      if ltb 10 (length valid)
      then (let mid = length valid / 2 in
          let (s1, w1) = summarize_batch (take mid valid) [] w in
          let (s2, w2) = summarize_batch (drop mid valid) [] w1 in
          let (r, w3) = chat (plain_message user (merge_prompt s1 s2) ∷ []) w2 in
          (content_or (s1 ++ codes " " ++ s2) r, w3))
      else summarize_batch valid summary w

  -- The new summary from the history and the summary that were read: no text where there is none.
  unfoldable pub final_summary : List Message → Text → World → Text × World
  unfolding valid_messages summarize_parts
  final_summary history summary w =
      let (valid, omitted) = valid_messages (agent.context_window / 2) (to_summarize history) in
      let (s, w') = summarize_parts valid summary w in
      if leb (length history) kept_messages then ([], w) else elim valid [
        | [] ↦ ([], w)
        | m ∷ ms ↦ (if omitted && not (is_empty s) then s ++ omitted_note else s, w')
      ]

  -- What is done with it, to the sessions as they are by then.
  unfoldable pub store_summary : Text → State World → State World
  store_summary s st =
      let summarized = set_summary st.sessions key s (now st.world) in
      let sessions' = truncate_history summarized key kept_messages (now st.world) in
      if is_empty s
      then st
      else record st { sessions = sessions'; saves = save sessions' key ∷ st.saves }

  -- With nothing in between.
  unfoldable pub summarize_session : State World → State World
  unfolding final_summary store_summary
  summarize_session st =
      let (s, w) =
        final_summary (get_history st.sessions key) (get_summary st.sessions key) st.world in
      store_summary s (record st { world = w })

  abbrev pub total_chars : List Message → ℕ
  total_chars [] = 0
  total_chars (m ∷ ms) = rune_count m.content + total_chars ms

  unfoldable pub estimate_tokens : List Message → ℕ
  estimate_tokens ms = total_chars ms * 2 / 5

  abbrev pub summarize_key : Text
  summarize_key = agent.id ++ codes ":" ++ key

  abbrev pub is_summarizing : List Text → Bool
  is_summarizing [] = false
  is_summarizing (k ∷ ks) = text_eq k summarize_key || is_summarizing ks

  -- Marks the session, and starts `summarize_session` in the background, if none is under way.
  unfoldable pub maybe_summarize : State World → State World
  unfolding estimate_tokens
  maybe_summarize st =
      let history = get_history st.sessions key in
      if (ltb 20 (length history)
          || ltb (agent.context_window * 75 / 100) (estimate_tokens history))
        && not (is_summarizing st.summarizing)
      then record st { summarizing = summarize_key ∷ st.summarizing }
      else st
