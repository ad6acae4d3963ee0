-- ===== src/Routing/AgentId.antt =====
-- pkg/routing/agent_id.go: the ids of agents and accounts, over ASCII texts. The regular expressions
-- are functions on texts.
use operator_os.Base.{
  ℕ, Bool, true, false, ◌&&◌, ◌||◌, not, [], ◌∷◌, Text, codes, is_empty, trim_space, to_lower,
  length, take, leb, ◌==◌, if◌then◌else◌,
}

abbrev pub default_agent_id : Text
default_agent_id = codes "main"

abbrev pub default_account_id : Text
default_account_id = codes "default"

abbrev pub max_agent_id_length : ℕ
max_agent_id_length = 64

-- `[a-z0-9]`
unfoldable pub is_alnum : ℕ → Bool
is_alnum c = (leb b'a' c && leb c b'z') || (leb b'0' c && leb c b'9')

-- `[a-z0-9_-]`
unfoldable pub is_id_byte : ℕ → Bool
unfolding is_alnum
is_id_byte c = is_alnum c || (c == b'_') || (c == b'-')

abbrev pub all_id_bytes : Text → Bool
all_id_bytes [] = true
all_id_bytes (c ∷ s) = is_id_byte c && all_id_bytes s

-- `validIDRe.MatchString`
unfoldable pub valid_id : Text → Bool
unfolding is_id_byte
valid_id [] = false
valid_id (c ∷ s) = is_alnum c && (all_id_bytes s && leb (length s) 63)

-- `invalidCharsRe.ReplaceAllString(s, "-")`; the flag says that the byte before was replaced.
unfoldable pub replace_invalid : Bool → Text → Text
unfolding is_id_byte
replace_invalid in_run [] = []
replace_invalid in_run (c ∷ s) =
    let good = is_id_byte c in
    let rest = replace_invalid (not good) s in
    if good then c ∷ rest else if in_run then rest else b'-' ∷ rest

-- `leadingDashRe.ReplaceAllString(s, "")`
unfoldable pub strip_leading : Text → Text
strip_leading [] = []
strip_leading (c ∷ s) = if c == b'-' then strip_leading s else c ∷ s

-- `trailingDashRe.ReplaceAllString(s, "")`
unfoldable pub strip_trailing : Text → Text
strip_trailing [] = []
strip_trailing (c ∷ s) = elim (strip_trailing s) [
  | [] ↦ if c == b'-' then [] else c ∷ []
  | d ∷ r ↦ c ∷ d ∷ r
]

abbrev pub or_default : Text → Text → Text
or_default d s = if is_empty s then d else s

unfoldable pub sanitize_id : Text → Text
unfolding replace_invalid strip_leading strip_trailing
sanitize_id lower =
    take max_agent_id_length (strip_trailing (strip_leading (replace_invalid false lower)))

-- The two functions differ in the default.
unfoldable pub normalize_id : Text → Text → Text
unfolding valid_id sanitize_id
normalize_id default_id id =
    let lower = to_lower (trim_space id) in
    if is_empty (trim_space id)
    then default_id
    else if valid_id lower
    then lower
    else or_default default_id (sanitize_id lower)

unfoldable pub normalize_agent_id : Text → Text
unfolding normalize_id
normalize_agent_id = normalize_id default_agent_id

unfoldable pub normalize_account_id : Text → Text
unfolding normalize_id
normalize_account_id = normalize_id default_account_id
