-- ===== src/Routing/Matches.antt =====
-- What the bindings of pkg/routing/route.go are for: the predicates behind the searches of the cascade.
use operator_os.Base.{
  ◌≡◌, refl, subst, Bool, true, false, not, ◌&&◌, none, some, [], ◌∷◌, Text, codes, text_eq,
  text_eq_sound, text_eq_refl, is_empty, trim_space, to_lower, Bool-cases, ◌⊎◌, inl, inr, arith,
}
use operator_os.Routing.AgentId.{normalize_account_id, default_account_id}
use operator_os.Routing.SessionKey.{RoutePeer}
use operator_os.Routing.Route.{
  PeerMatch, AgentBinding, RouteInput, Level, by_peer, by_parent, by_guild, by_team, by_account,
  by_channel, matches_account_id, applies,
}

pub two_hold : (a b : Bool) → (a && b) ≡ true → (a ≡ true) × (b ≡ true)
two_hold a b h = ground arith

pub three_hold : (a b c : Bool) → (a && b && c) ≡ true → (a ≡ true) × (b ≡ true) × (c ≡ true)
three_hold a b c h = ground arith

pub negated : (a : Bool) → not a ≡ true → a ≡ false
negated a h = ground arith

pub is_empty-nil : (t : Text) → is_empty t ≡ true → t ≡ []
is_empty-nil [] h = refl
is_empty-nil (x ∷ t) h = absurd (ground arith)

pub equal_texts : (a b : Text) → a ≡ b → text_eq a b ≡ true
equal_texts a b e = subst (λ x. text_eq a x ≡ true) e (text_eq_refl a)

pub other_texts : (a b : Text) → ¬ (a ≡ b) → text_eq a b ≡ false
other_texts a b h = elim (Bool-cases (text_eq a b)) [
  | inl y ↦ absurd (h (text_eq_sound a b y))
  | inr n ↦ n
]

-- The account that a binding names: none for the default one, a star for any, or the message's.
abbrev pub IsForAccount : Text → Text → Type 0
IsForAccount named account =
    ((named ≡ []) × (account ≡ default_account_id))
    ⊎ ((named ≡ codes "*") ⊎ ((is_empty named ≡ false) × (to_lower named ≡ to_lower account)))

-- A binding is for the channel and the account of a message.
abbrev pub IsFor : RouteInput → AgentBinding → Type 0
IsFor input b =
    (is_empty (to_lower (trim_space b.match_on.channel)) ≡ false)
    × (to_lower (trim_space b.match_on.channel) ≡ to_lower (trim_space input.channel))
    × IsForAccount (trim_space b.match_on.account_id) (normalize_account_id input.account_id)

-- A binding names this very peer.
abbrev pub NamesPeer : RoutePeer → AgentBinding → Type 0
NamesPeer peer b =
    (is_empty (trim_space peer.id) ≡ false)
    × ((m : PeerMatch) × (b.match_on.peer ≡ some m)
        × (is_empty (trim_space m.kind) ≡ false)
        × (is_empty (trim_space m.id) ≡ false)
        × (to_lower (trim_space m.kind) ≡ to_lower peer.kind)
        × (trim_space m.id ≡ peer.id))

-- A binding names a guild or a team, and this very one.
abbrev pub NamesId : Text → Text → Type 0
NamesId named wanted = (is_empty wanted ≡ false) × (trim_space named ≡ wanted)

-- A binding names neither a peer nor a guild nor a team.
abbrev pub NamesNothing : AgentBinding → Type 0
NamesNothing b = (b.match_on.peer ≡ none) × (b.match_on.guild_id ≡ []) × (b.match_on.team_id ≡ [])

-- A binding fits a message at a level.
pub data Fits (input : RouteInput) (b : AgentBinding) : Level → Type 0 where
  fits_peer : (peer : RoutePeer) → input.peer ≡ some peer → NamesPeer peer b → Fits input b by_peer
  fits_parent :
      (peer : RoutePeer) → input.parent_peer ≡ some peer → NamesPeer peer b → Fits input b by_parent
  fits_guild : NamesId b.match_on.guild_id (trim_space input.guild_id) → Fits input b by_guild
  fits_team : NamesId b.match_on.team_id (trim_space input.team_id) → Fits input b by_team
  fits_account :
      ¬ (trim_space b.match_on.account_id ≡ codes "*") → NamesNothing b → Fits input b by_account
  fits_channel :
      trim_space b.match_on.account_id ≡ codes "*" → NamesNothing b → Fits input b by_channel

applies-IsForAccount :
    (named account : Text)
    → matches_account_id named account ≡ true
    → IsForAccount (trim_space named) account
unfolding matches_account_id
applies-IsForAccount named account h = elim (Bool-cases (is_empty (trim_space named))) [
  | inl y ↦
      inl (is_empty-nil (trim_space named) y, text_eq_sound account default_account_id (rw y at h))
  | inr n ↦ elim (Bool-cases (text_eq (trim_space named) (codes "*"))) [
    | inl y ↦ inr (inl (text_eq_sound (trim_space named) (codes "*") y))
    | inr m ↦ inr (
        inr (
          n,
          text_eq_sound (to_lower (trim_space named)) (to_lower account) (ground (arith, h, n, m)),
        ))
  ]
]

IsForAccount-matches :
    (named account : Text)
    → IsForAccount (trim_space named) account
    → matches_account_id named account ≡ true
unfolding matches_account_id
IsForAccount-matches named account (inl (e, d)) = rw e (equal_texts account default_account_id d)
IsForAccount-matches named account (inr (inl e)) =
    let t = equal_texts (trim_space named) (codes "*") e in
    let n : is_empty (trim_space named) ≡ false = rw e refl in ground (arith, n, t)
IsForAccount-matches named account (inr (inr (n, e))) =
    let t = equal_texts (to_lower (trim_space named)) (to_lower account) e in ground (arith, n, t)

pub applies-IsFor :
    (input : RouteInput) (b : AgentBinding)
    → applies (to_lower (trim_space input.channel)) (normalize_account_id input.account_id) b ≡ true
    → IsFor input b
unfolding applies
applies-IsFor input b h =
    let (n, t, m) =
      three_hold (not (is_empty (to_lower (trim_space b.match_on.channel))))
        (text_eq (to_lower (trim_space b.match_on.channel)) (to_lower (trim_space input.channel)))
        (matches_account_id b.match_on.account_id (normalize_account_id input.account_id)) h in
    (
      negated _ n,
      text_eq_sound _ _ t,
      applies-IsForAccount b.match_on.account_id (normalize_account_id input.account_id) m,
    )

pub IsFor-applies :
    (input : RouteInput) (b : AgentBinding)
    → IsFor input b
    → applies (to_lower (trim_space input.channel)) (normalize_account_id input.account_id) b ≡ true
unfolding applies
IsFor-applies input b (n, e, a) =
    let t = equal_texts _ _ e in
    let m = IsForAccount-matches b.match_on.account_id _ a in ground (arith, n, t, m)
