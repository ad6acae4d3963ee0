-- ===== src/Routing/Route.antt =====
-- pkg/routing/route.go: the agent and the session keys of a message, from the bindings of the
-- configuration (pkg/config/config.go).
use operator_os.Base.{
  Bool, true, false, ◌&&◌, ◌||◌, not, Option, none, some, List, [], ◌∷◌, Text, codes, text_eq,
  is_empty, trim_space, to_lower, is_some, if◌then◌else◌,
}
use operator_os.Routing.AgentId.{
  normalize_agent_id, normalize_account_id, default_agent_id, default_account_id,
}
use operator_os.Routing.SessionKey.{
  RoutePeer, IdentityLinks, DmScope, main_scope, per_peer, per_channel_peer,
  per_account_channel_peer, no_scope, other_scope, build_agent_main_session_key,
  build_agent_peer_session_key,
}

pub record PeerMatch : Type 0 where
  pub kind : Text
  pub id : Text

pub record BindingMatch : Type 0 where
  pub channel : Text
  pub account_id : Text
  pub peer : Option PeerMatch
  pub guild_id : Text
  pub team_id : Text

pub record AgentBinding : Type 0 where
  pub agent_id : Text
  pub match_on : BindingMatch

-- The fields of an agent that the routing reads.
pub record AgentConfig : Type 0 where
  pub id : Text
  pub is_default : Bool

pub record Config : Type 0 where
  pub agents : List AgentConfig
  pub bindings : List AgentBinding
  pub dm_scope : DmScope
  pub identity_links : IdentityLinks

pub record RouteInput : Type 0 where
  pub channel : Text
  pub account_id : Text
  pub peer : Option RoutePeer
  pub parent_peer : Option RoutePeer
  pub guild_id : Text
  pub team_id : Text

pub data Level : Type 0 where
  by_peer by_parent by_guild by_team by_account by_channel by_default : Level

pub record ResolvedRoute : Type 0 where
  pub agent_id : Text
  pub channel : Text
  pub account_id : Text
  pub session_key : Text
  pub main_session_key : Text
  pub matched_by : Level

unfoldable pub matches_account_id : Text → Text → Bool
matches_account_id match_account_id actual =
    let trimmed = trim_space match_account_id in
    if is_empty trimmed
    then text_eq actual default_account_id
    else text_eq trimmed (codes "*") || text_eq (to_lower trimmed) (to_lower actual)

unfoldable pub applies : Text → Text → AgentBinding → Bool
unfolding matches_account_id
applies channel account_id b =
    let match_channel = to_lower (trim_space b.match_on.channel) in
    not (is_empty match_channel)
    && text_eq match_channel channel
    && matches_account_id b.match_on.account_id account_id

-- The first binding that passes a test.
unfoldable pub find : (AgentBinding → Bool) → List AgentBinding → Option AgentBinding
find p [] = none
find p (b ∷ bs) = let rest = find p bs in if p b then some b else rest

unfoldable pub filter_bindings : Text → Text → List AgentBinding → List AgentBinding
unfolding applies
filter_bindings channel account_id [] = []
filter_bindings channel account_id (b ∷ bs) =
    let rest = filter_bindings channel account_id bs in
    if applies channel account_id b then b ∷ rest else rest

abbrev pub peer_matches : RoutePeer → Option PeerMatch → Bool
peer_matches peer none = false
peer_matches peer (some m) =
    not (is_empty (trim_space m.kind))
    && not (is_empty (trim_space m.id))
    && text_eq (to_lower (trim_space m.kind)) (to_lower peer.kind)
    && text_eq (trim_space m.id) peer.id

-- `input.Peer != nil && strings.TrimSpace(peer.ID) != ""` with `findPeerMatch`
abbrev pub find_peer_match : Option RoutePeer → List AgentBinding → Option AgentBinding
find_peer_match none bs = none
find_peer_match (some peer) bs =
    if is_empty (trim_space peer.id) then none else find (λ b. peer_matches peer b.match_on.peer) bs

abbrev pub id_matches : Text → Text → Bool
id_matches given wanted = not (is_empty (trim_space given)) && text_eq (trim_space given) wanted

abbrev pub find_id_match : (AgentBinding → Text) → Text → List AgentBinding → Option AgentBinding
find_id_match field wanted bs =
    if is_empty wanted then none else find (λ b. id_matches (field b) wanted) bs

abbrev pub has_star : AgentBinding → Bool
has_star b = text_eq (trim_space b.match_on.account_id) (codes "*")

-- Neither a peer nor a guild nor a team.
abbrev pub is_plain : AgentBinding → Bool
is_plain b =
    not (is_some b.match_on.peer) && is_empty b.match_on.guild_id && is_empty b.match_on.team_id

unfoldable pub find_default : List AgentConfig → Option Text
find_default [] = none
find_default (a ∷ others) =
    let rest = find_default others in
    if a.is_default && not (is_empty (trim_space a.id)) then some (trim_space a.id) else rest

abbrev pub first_agent : List AgentConfig → Text
first_agent [] = default_agent_id
first_agent (a ∷ others) =
    if is_empty (trim_space a.id) then default_agent_id else normalize_agent_id (trim_space a.id)

unfoldable pub resolve_default_agent_id : List AgentConfig → Text
unfolding find_default
resolve_default_agent_id agents = elim (find_default agents) [
  | some i ↦ normalize_agent_id i
  | none ↦ first_agent agents
]

unfoldable pub is_configured : Text → List AgentConfig → Bool
is_configured normalized [] = false
is_configured normalized (a ∷ others) =
    text_eq (normalize_agent_id a.id) normalized || is_configured normalized others

abbrev pub no_agents : List AgentConfig → Bool
no_agents [] = true
no_agents (a ∷ others) = false

unfoldable pub pick_agent_id : List AgentConfig → Text → Text
unfolding resolve_default_agent_id is_configured
pick_agent_id agents agent_id =
    let normalized = normalize_agent_id (trim_space agent_id) in
    if is_empty (trim_space agent_id)
    then normalize_agent_id (resolve_default_agent_id agents)
    else if no_agents agents || is_configured normalized agents
    then normalized
    else normalize_agent_id (resolve_default_agent_id agents)

-- The binding of each level, among those that apply to the channel and the account.
unfoldable pub level_match : List AgentBinding → RouteInput → Level → Option AgentBinding
unfolding find
level_match bs input by_peer = find_peer_match input.peer bs
level_match bs input by_parent = find_peer_match input.parent_peer bs
level_match bs input by_guild =
    find_id_match (λ b. b.match_on.guild_id) (trim_space input.guild_id) bs
level_match bs input by_team = find_id_match (λ b. b.match_on.team_id) (trim_space input.team_id) bs
level_match bs input by_account = find (λ b. not (has_star b) && is_plain b) bs
level_match bs input by_channel = find (λ b. has_star b && is_plain b) bs
level_match bs input by_default = none

abbrev pub scope_or_main : DmScope → DmScope
scope_or_main no_scope = main_scope
scope_or_main main_scope = main_scope
scope_or_main per_peer = per_peer
scope_or_main per_channel_peer = per_channel_peer
scope_or_main per_account_channel_peer = per_account_channel_peer
scope_or_main (other_scope t) = other_scope t

module _ (cfg : Config) (input : RouteInput) where
  abbrev pub route_channel : Text
  route_channel = to_lower (trim_space input.channel)

  abbrev pub route_account : Text
  route_account = normalize_account_id input.account_id

  abbrev pub route_bindings : List AgentBinding
  route_bindings = filter_bindings route_channel route_account cfg.bindings

  unfoldable pub choose : Text → Level → ResolvedRoute
  unfolding pick_agent_id
  choose agent_id level =
      let resolved = pick_agent_id cfg.agents agent_id in
      record {
        agent_id = resolved;
        channel = route_channel;
        account_id = route_account;
        session_key = to_lower (
            build_agent_peer_session_key (record {
              agent_id = resolved;
              channel = route_channel;
              account_id = route_account;
              peer = input.peer;
              dm_scope = scope_or_main cfg.dm_scope;
              identity_links = cfg.identity_links;
            }));
        main_session_key = to_lower (build_agent_main_session_key resolved);
        matched_by = level;
      }

  abbrev pub at_level : Level → Option AgentBinding → ResolvedRoute → ResolvedRoute
  at_level level none rest = rest
  at_level level (some b) rest = choose b.agent_id level

  unfoldable pub resolve_route : ResolvedRoute
  unfolding choose level_match filter_bindings
  resolve_route = at_level by_peer (level_match route_bindings input by_peer) (
      at_level by_parent (level_match route_bindings input by_parent) (
        at_level by_guild (level_match route_bindings input by_guild) (
          at_level by_team (level_match route_bindings input by_team) (
            at_level by_account (level_match route_bindings input by_account) (
              at_level by_channel (level_match route_bindings input by_channel)
                (choose (resolve_default_agent_id cfg.agents) by_default))))))
