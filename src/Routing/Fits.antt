-- ===== src/Routing/Fits.antt =====
-- What the searches of pkg/routing/route.go test for at a level is what fits.
use operator_os.Base.{
  ◌≡◌, refl, Bool, true, false, not, ◌&&◌, Option, none, some, Text, codes, text_eq, text_eq_sound,
  is_empty, is_some, trim_space, to_lower, arith,
}
use operator_os.Routing.SessionKey.{RoutePeer}
use operator_os.Routing.Route.{
  PeerMatch, AgentBinding, RouteInput, Level, by_peer, by_parent, by_guild, by_team, by_account,
  by_channel, by_default, peer_matches, id_matches, has_star, is_plain,
}
use operator_os.Routing.Matches.{
  two_hold, three_hold, negated, is_empty-nil, equal_texts, other_texts, NamesPeer, NamesId,
  NamesNothing, Fits, fits_peer, fits_parent, fits_guild, fits_team, fits_account, fits_channel,
}

-- What a search is told to find at a level.
abbrev pub peer_test : Option RoutePeer → AgentBinding → Bool
peer_test none b = false
peer_test (some peer) b = not (is_empty (trim_space peer.id)) && peer_matches peer b.match_on.peer

abbrev pub id_test : Text → Text → Bool
id_test wanted named = not (is_empty wanted) && id_matches named wanted

abbrev pub level_test : RouteInput → Level → AgentBinding → Bool
level_test input by_peer b = peer_test input.peer b
level_test input by_parent b = peer_test input.parent_peer b
level_test input by_guild b = id_test (trim_space input.guild_id) b.match_on.guild_id
level_test input by_team b = id_test (trim_space input.team_id) b.match_on.team_id
level_test input by_account b = not (has_star b) && is_plain b
level_test input by_channel b = has_star b && is_plain b
level_test input by_default b = false

peer_fields :
    (peer : RoutePeer) (b : AgentBinding) (o : Option PeerMatch)
    → b.match_on.peer ≡ o
    → is_empty (trim_space peer.id) ≡ false
    → peer_matches peer o ≡ true
    → NamesPeer peer b
peer_fields peer b none e n h = absurd (ground arith)
peer_fields peer b (some m) e n h =
    let (three, i) =
      two_hold
        (not (is_empty (trim_space m.kind))
          && not (is_empty (trim_space m.id))
          && text_eq (to_lower (trim_space m.kind)) (to_lower peer.kind))
        (text_eq (trim_space m.id) peer.id) h in
    let (k, d, t) =
      three_hold (not (is_empty (trim_space m.kind))) (not (is_empty (trim_space m.id)))
        (text_eq (to_lower (trim_space m.kind)) (to_lower peer.kind)) three in
    (n, (m, e, negated _ k, negated _ d, text_eq_sound _ _ t, text_eq_sound _ _ i))

peer_test-NamesPeer :
    (o : Option RoutePeer) (b : AgentBinding)
    → peer_test o b ≡ true
    → (peer : RoutePeer) × (o ≡ some peer) × NamesPeer peer b
peer_test-NamesPeer none b h = absurd (ground arith)
peer_test-NamesPeer (some peer) b h =
    let (n, p) =
      two_hold (not (is_empty (trim_space peer.id))) (peer_matches peer b.match_on.peer) h in
    (peer, refl, peer_fields peer b b.match_on.peer refl (negated _ n) p)

NamesPeer-peer_test :
    (peer : RoutePeer) (b : AgentBinding) → NamesPeer peer b → peer_test (some peer) b ≡ true
NamesPeer-peer_test peer b (n, (m, e, k, i, t, u)) =
    let t' = equal_texts _ _ t in let u' = equal_texts _ _ u in rw (n, e, k, i, t', u') refl

id_test-NamesId : (wanted named : Text) → id_test wanted named ≡ true → NamesId named wanted
id_test-NamesId wanted named h =
    let (n, p) = two_hold (not (is_empty wanted)) (id_matches named wanted) h in
    let (_, t) =
      two_hold (not (is_empty (trim_space named))) (text_eq (trim_space named) wanted) p in
    (negated _ n, text_eq_sound _ _ t)

NamesId-id_test : (wanted named : Text) → NamesId named wanted → id_test wanted named ≡ true
NamesId-id_test wanted named (n, e) =
    let t = equal_texts _ _ e in
    let n' : is_empty (trim_space named) ≡ false = rw e n in rw (n, n', t) refl

no_value : {A : Type 0} (o : Option A) → not (is_some o) ≡ true → o ≡ none
no_value none h = refl
no_value (some x) h = absurd (ground arith)

is_plain-NamesNothing : (b : AgentBinding) → is_plain b ≡ true → NamesNothing b
is_plain-NamesNothing b h =
    let (p, g, t) =
      three_hold (not (is_some b.match_on.peer)) (is_empty b.match_on.guild_id)
        (is_empty b.match_on.team_id) h in
    (
      no_value b.match_on.peer p,
      is_empty-nil b.match_on.guild_id g,
      is_empty-nil b.match_on.team_id t,
    )

NamesNothing-is_plain : (b : AgentBinding) → NamesNothing b → is_plain b ≡ true
NamesNothing-is_plain b (p, g, t) = rw (p, g, t) refl

module _ (input : RouteInput) (b : AgentBinding) where
  pub level_test-Fits : (l : Level) → level_test input l b ≡ true → Fits input b l
  level_test-Fits by_peer h =
      let (peer, e, n) = peer_test-NamesPeer input.peer b h in fits_peer peer e n
  level_test-Fits by_parent h =
      let (peer, e, n) = peer_test-NamesPeer input.parent_peer b h in fits_parent peer e n
  level_test-Fits by_guild h =
      fits_guild (id_test-NamesId (trim_space input.guild_id) b.match_on.guild_id h)
  level_test-Fits by_team h =
      fits_team (id_test-NamesId (trim_space input.team_id) b.match_on.team_id h)
  level_test-Fits by_account h =
      let (s, p) = two_hold (not (has_star b)) (is_plain b) h in
      fits_account
        (λ e.
          let y = equal_texts (trim_space b.match_on.account_id) (codes "*") e in
          absurd (ground (arith, s, y)))
        (is_plain-NamesNothing b p)
  level_test-Fits by_channel h =
      let (s, p) = two_hold (has_star b) (is_plain b) h in
      fits_channel (text_eq_sound _ _ s) (is_plain-NamesNothing b p)
  level_test-Fits by_default h = absurd (ground arith)

  pub Fits-level_test : {l : Level} → Fits input b l → level_test input l b ≡ true
  Fits-level_test (fits_peer peer e n) = rw e (NamesPeer-peer_test peer b n)
  Fits-level_test (fits_parent peer e n) = rw e (NamesPeer-peer_test peer b n)
  Fits-level_test (fits_guild n) = NamesId-id_test _ b.match_on.guild_id n
  Fits-level_test (fits_team n) = NamesId-id_test _ b.match_on.team_id n
  Fits-level_test (fits_account s n) =
      rw (other_texts (trim_space b.match_on.account_id) (codes "*") s) (NamesNothing-is_plain b n)
  Fits-level_test (fits_channel s n) =
      rw (equal_texts (trim_space b.match_on.account_id) (codes "*") s) (NamesNothing-is_plain b n)
