-- ===== src/Routing/Examples.antt =====
-- Runs of pkg/routing, and the theorems at concrete inputs.
use mathlib.Core.List.{Memᴰ}
use operator_os.Base.{
  ◌≡◌, refl, true, false, none, some, [], ◌∷◌, codes, text_eq, trim_space, to_lower, cut, ◌⊎◌,
  arith,
}
use operator_os.Routing.AgentId.{
  normalize_agent_id, normalize_id, valid_id, is_id_byte, sanitize_id,
}
use operator_os.Routing.SessionKey.{
  RoutePeer, SessionKeyParams, per_peer, main_scope, build_agent_main_session_key,
  build_agent_peer_session_key, parse_agent_session_key, key_rest, direct_peer_id,
  resolve_linked_peer_id, candidate_ids, find_linked,
}
use operator_os.Routing.Keys.{parse-build}
use operator_os.Routing.Route.{
  AgentBinding, Config, RouteInput, by_peer, by_channel, by_default, resolve_route, choose,
  level_match, filter_bindings, applies, matches_account_id, find, pick_agent_id,
  resolve_default_agent_id,
}
use operator_os.Routing.Matches.{IsFor, applies-IsFor, Fits}
use operator_os.Routing.Levels.{IsAskedFor, resolve_route_priority, resolve_route_sound}

normalized : normalize_agent_id (codes "  My Agent!! ") ≡ codes "my-agent"
unfolding normalize_agent_id normalize_id valid_id sanitize_id trim_space to_lower is_id_byte
normalized = refl

underscored : normalize_agent_id (codes "_x") ≡ codes "_x"
unfolding normalize_agent_id normalize_id valid_id sanitize_id trim_space to_lower is_id_byte
underscored = refl

abbrev direct_peer : RoutePeer
direct_peer = record { kind = codes "direct"; id = codes "123" }

abbrev linked_params : SessionKeyParams
linked_params = record {
  agent_id = codes "Main";
  channel = codes "telegram";
  account_id = codes "default";
  peer = some direct_peer;
  dm_scope = per_peer;
  identity_links = (codes "Ann", codes "telegram:123" ∷ []) ∷ [];
}

linked_key : build_agent_peer_session_key linked_params ≡ codes "agent:main:direct:ann"
unfolding build_agent_peer_session_key key_rest direct_peer_id resolve_linked_peer_id candidate_ids
    find_linked normalize_agent_id normalize_id valid_id sanitize_id trim_space to_lower is_id_byte
    text_eq cut
linked_key = refl

parse-build_example :
    (parse_agent_session_key (build_agent_peer_session_key linked_params)
      ≡ some
          (record { agent_id = normalize_agent_id (codes "Main"); rest = key_rest linked_params }))
    × (parse_agent_session_key (build_agent_main_session_key (codes "Bot"))
        ≡ some (record { agent_id = normalize_agent_id (codes "Bot"); rest = codes "main" }))
parse-build_example = parse-build linked_params (codes "Bot")

abbrev peer_binding : AgentBinding
peer_binding = record {
  agent_id = codes "support";
  match_on = record {
    channel = codes "Telegram";
    account_id = codes "*";
    guild_id = [];
    team_id = [];
    peer = some (record { kind = codes "direct"; id = codes "123" });
  };
}

abbrev star_binding : AgentBinding
star_binding = record {
  agent_id = codes "main";
  match_on = record {
    channel = codes "telegram";
    account_id = codes "*";
    guild_id = [];
    team_id = [];
    peer = none;
  };
}

abbrev setup : Config
setup = record {
  agents =
      record { id = codes "main"; is_default = true }
      ∷ record { id = codes "support"; is_default = false }
      ∷ [];
  bindings = star_binding ∷ peer_binding ∷ [];
  dm_scope = main_scope;
  identity_links = [];
}

abbrev from : RoutePeer → RouteInput
from peer = record {
  channel = codes "telegram";
  account_id = [];
  peer = some peer;
  parent_peer = none;
  guild_id = [];
  team_id = [];
}

abbrev stranger : RoutePeer
stranger = record { kind = codes "direct"; id = codes "9" }

peer_wins : (resolve_route setup (from direct_peer)).matched_by ≡ by_peer
unfolding resolve_route choose level_match filter_bindings applies matches_account_id find
    trim_space to_lower text_eq
peer_wins = refl

star_serves : (resolve_route setup (from stranger)).matched_by ≡ by_channel
unfolding resolve_route choose level_match filter_bindings applies matches_account_id find
    trim_space to_lower text_eq
star_serves = refl

resolve_route_priority_example : ¬ Fits (from stranger) peer_binding by_peer
resolve_route_priority_example =
    resolve_route_priority setup (from stranger) by_peer peer_binding (rw star_serves (omega arith))
      (Memᴰ.tail (Memᴰ.head refl))
      (applies-IsFor (from stranger) peer_binding
        (unfold applies matches_account_id trim_space to_lower text_eq in refl))

resolve_route_sound_example :
    (((resolve_route setup (from direct_peer)).matched_by ≡ by_default)
      × ((resolve_route setup (from direct_peer)).agent_id
          ≡ pick_agent_id setup.agents (resolve_default_agent_id setup.agents)))
    ⊎ ((b : AgentBinding) × Memᴰ b setup.bindings
        × IsFor (from direct_peer) b
        × Fits (from direct_peer) b (resolve_route setup (from direct_peer)).matched_by
        × IsAskedFor setup.agents b.agent_id (resolve_route setup (from direct_peer)).agent_id)
resolve_route_sound_example = resolve_route_sound setup (from direct_peer)
