-- ===== src/Routing/SessionKey.antt =====
-- pkg/routing/session_key.go, over ASCII texts. A map of identity links is the list of its entries in
-- the order in which the loop meets them, which Go leaves open.
use operator_os.Base.{
  Bool, true, false, ◌&&◌, ◌||◌, not, Option, none, some, List, [], ◌∷◌, ◌++◌, Text, codes, text_eq,
  is_empty, trim_space, to_lower, has_prefix, cut, if◌then◌else◌,
}
use operator_os.Routing.AgentId.{normalize_agent_id, normalize_account_id, or_default}

pub data DmScope : Type 0 where
  main_scope per_peer per_channel_peer per_account_channel_peer no_scope : DmScope
  other_scope : Text → DmScope

pub record RoutePeer : Type 0 where
  pub kind : Text
  pub id : Text

abbrev pub IdentityLinks : Type 0
IdentityLinks = List (Text × List Text)

pub record SessionKeyParams : Type 0 where
  pub agent_id : Text
  pub channel : Text
  pub account_id : Text
  pub peer : Option RoutePeer
  pub dm_scope : DmScope
  pub identity_links : IdentityLinks

pub record ParsedSessionKey : Type 0 where
  pub agent_id : Text
  pub rest : Text

abbrev pub agent_word : Text
agent_word = codes "agent"

abbrev pub direct_word : Text
direct_word = codes "direct"

-- `"%s:%s"`
abbrev pub colon : Text → Text → Text
colon a b = a ++ b':' ∷ b

unfoldable pub build_agent_main_session_key : Text → Text
build_agent_main_session_key agent_id =
    colon agent_word (colon (normalize_agent_id agent_id) (codes "main"))

unfoldable pub normalize_channel : Text → Text
normalize_channel channel = or_default (codes "unknown") (trim_space (to_lower channel))

abbrev pub one_of : Text → List Text → Bool
one_of t [] = false
one_of t (u ∷ us) = text_eq t u || one_of t us

-- The id behind the colon in "platform:id", when both parts are there.
abbrev pub bare_id : Option (Text × Text) → List Text
bare_id none = []
bare_id (some (p, i)) = if is_empty p || is_empty i then [] else i ∷ []

abbrev pub scoped_id : Text → Text → List Text
scoped_id channel raw = if is_empty channel then [] else colon channel raw ∷ []

unfoldable pub candidate_ids : Text → Text → List Text
candidate_ids channel peer_id =
    let raw = to_lower peer_id in
    raw ∷ scoped_id (to_lower (trim_space channel)) raw ++ bare_id (cut b':' raw)

abbrev pub any_linked : List Text → List Text → Bool
any_linked candidates [] = false
any_linked candidates (i ∷ ids) =
    let normalized = to_lower (trim_space i) in
    (not (is_empty normalized) && one_of normalized candidates) || any_linked candidates ids

unfoldable pub find_linked : List Text → IdentityLinks → Text
find_linked candidates [] = []
find_linked candidates ((canonical, ids) ∷ links) =
    let rest = find_linked candidates links in
    if not (is_empty (trim_space canonical)) && any_linked candidates ids
    then trim_space canonical
    else rest

unfoldable pub resolve_linked_peer_id : IdentityLinks → Text → Text → Text
unfolding candidate_ids find_linked
resolve_linked_peer_id links channel peer_id =
    if is_empty (trim_space peer_id)
    then []
    else find_linked (candidate_ids channel (trim_space peer_id)) links

abbrev pub is_main_scope : DmScope → Bool
is_main_scope main_scope = true
is_main_scope no_scope = true
is_main_scope _ = false

-- The id of a direct peer, after the identity links and in lower case.
unfoldable pub direct_peer_id : SessionKeyParams → Text → Text
unfolding resolve_linked_peer_id
direct_peer_id params peer_id =
    if is_main_scope params.dm_scope || is_empty peer_id
    then to_lower peer_id
    else to_lower
        (or_default peer_id (resolve_linked_peer_id params.identity_links params.channel peer_id))

-- The part of the key between the agent and the peer, for a scope that has one.
abbrev pub direct_scope : SessionKeyParams → DmScope → Option Text
direct_scope params per_account_channel_peer = some (
    colon (normalize_channel params.channel)
      (colon (normalize_account_id params.account_id) direct_word))
direct_scope params per_channel_peer = some (colon (normalize_channel params.channel) direct_word)
direct_scope params per_peer = some direct_word
direct_scope params main_scope = none
direct_scope params no_scope = none
direct_scope params (other_scope t) = none

-- What follows "agent:<agentId>:" for a direct peer.
abbrev pub direct_rest : Option Text → Text → Text
direct_rest none peer_id = codes "main"
direct_rest (some scope) peer_id = if is_empty peer_id then codes "main" else colon scope peer_id

abbrev pub peer_or_direct : Option RoutePeer → RoutePeer
peer_or_direct none = record { kind = direct_word; id = [] }
peer_or_direct (some peer) = peer

unfoldable pub key_rest : SessionKeyParams → Text
unfolding direct_peer_id normalize_channel
key_rest params =
    let peer = peer_or_direct params.peer in
    let peer_kind = or_default direct_word (trim_space peer.kind) in
    let peer_id = trim_space peer.id in
    if text_eq peer_kind direct_word
    then direct_rest (direct_scope params params.dm_scope) (direct_peer_id params peer_id)
    else colon (normalize_channel params.channel)
        (colon peer_kind (or_default (codes "unknown") (to_lower peer_id)))

unfoldable pub build_agent_peer_session_key : SessionKeyParams → Text
unfolding key_rest
build_agent_peer_session_key params =
    colon agent_word (colon (normalize_agent_id params.agent_id) (key_rest params))

abbrev pub parse_rest : Option (Text × Text) → Option ParsedSessionKey
parse_rest none = none
parse_rest (some (agent, rest)) =
    if is_empty (trim_space agent) || is_empty rest
    then none
    else some (record { agent_id = trim_space agent; rest = rest })

abbrev pub parse_parts : Option (Text × Text) → Option ParsedSessionKey
parse_parts none = none
parse_parts (some (word, tail)) =
    let parsed = parse_rest (cut b':' tail) in if text_eq word agent_word then parsed else none

unfoldable pub parse_agent_session_key : Text → Option ParsedSessionKey
parse_agent_session_key session_key = parse_parts (cut b':' (trim_space session_key))

abbrev pub parsed_subagent : Option ParsedSessionKey → Bool
parsed_subagent none = false
parsed_subagent (some p) = has_prefix (to_lower p.rest) (codes "subagent:")

unfoldable pub is_subagent_session_key : Text → Bool
unfolding parse_agent_session_key
is_subagent_session_key session_key =
    let raw = trim_space session_key in
    if is_empty raw
    then false
    else has_prefix (to_lower raw) (codes "subagent:")
      || parsed_subagent (parse_agent_session_key raw)
