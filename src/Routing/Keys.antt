-- ===== src/Routing/Keys.antt =====
-- The session keys of pkg/routing/session_key.go, and what reading one gives back.
use operator_os.Base.{
  ℕ, ◌≡◌, refl, ap, ◌∙◌, Bool, true, false, ◌&&◌, ◌||◌, not, Option, none, some, List, [], ◌∷◌,
  ◌++◌, Text, codes, text_eq, is_empty, trim_space, trim_left, trim_right, is_space, to_lower,
  lower_byte, cut, if◌then◌else◌, Bool-cases, ◌⊎◌, inl, inr, arith,
}
use operator_os.Routing.AgentId.{normalize_agent_id, all_id_bytes, is_id_byte, is_alnum, or_default}
use operator_os.Routing.Ids.{normalize_ids-IsId}
use operator_os.Routing.SessionKey.{
  SessionKeyParams, IdentityLinks, find_linked, any_linked, resolve_linked_peer_id, candidate_ids,
  direct_peer_id, is_main_scope, direct_rest, direct_scope, direct_word, peer_or_direct,
  normalize_channel, agent_word, colon, build_agent_main_session_key, build_agent_peer_session_key,
  key_rest, parse_parts, parse_agent_session_key,
}

id_no_space : (c : ℕ) → is_id_byte c ≡ true → is_space c ≡ false
unfolding is_id_byte is_alnum is_space
id_no_space c h = ground arith

-- A text that ends in no space.
abbrev ends_clean : Text → Bool
ends_clean [] = false
ends_clean (c ∷ []) = not (is_space c)
ends_clean (c ∷ d ∷ s) = ends_clean (d ∷ s)

trim_right_clean : (s : Text) → ends_clean s ≡ true → trim_right s ≡ s
unfolding trim_right
trim_right_clean [] h = refl
trim_right_clean (c ∷ []) h = ground arith
trim_right_clean (c ∷ d ∷ s) h = rw (trim_right_clean (d ∷ s) h) refl

cut_id : (a b : Text) → all_id_bytes a ≡ true → cut b':' (a ++ b':' ∷ b) ≡ some (a, b)
unfolding cut is_id_byte is_alnum
cut_id [] b h = refl
cut_id (c ∷ a) b h = rw (cut_id a b (ground arith)) (ground arith)

trim_left_id : (s : Text) → all_id_bytes s ≡ true → trim_left s ≡ s
unfolding trim_left
trim_left_id [] h = refl
trim_left_id (c ∷ s) h = rw (id_no_space c (ground arith)) refl

trim_right_id : (s : Text) → all_id_bytes s ≡ true → trim_right s ≡ s
unfolding trim_right
trim_right_id [] h = refl
trim_right_id (c ∷ s) h =
    rw (trim_right_id s (ground arith), trim_right) (one c s (id_no_space c (ground arith)))
  where
    one :
        (c : ℕ) (s : Text)
        → is_space c ≡ false
        → (elim s [ [] ↦ (if is_space c then [] else c ∷ []) | d ∷ r ↦ c ∷ d ∷ r ]) ≡ c ∷ s
    one c [] h = rw h refl
    one c (d ∷ r) h = refl

trim_space-id : (s : Text) → all_id_bytes s ≡ true → trim_space s ≡ s
unfolding trim_space
trim_space-id s h = rw (trim_left_id s h) (trim_right_id s h)

-- Empty, or with no space at the end.
abbrev IsTrimmed : Text → Type 0
IsTrimmed s = (is_empty s ≡ true) ⊎ (ends_clean s ≡ true)

trim_right-IsTrimmed : (s : Text) → IsTrimmed (trim_right s)
unfolding trim_right
trim_right-IsTrimmed [] = inl refl
trim_right-IsTrimmed (c ∷ s) = step (trim_right s) (trim_right-IsTrimmed s)
  where
    step :
        (t : Text)
        → IsTrimmed t
        → IsTrimmed (elim t [ [] ↦ (if is_space c then [] else c ∷ []) | d ∷ r ↦ c ∷ d ∷ r ])
    step [] h = elim (Bool-cases (is_space c)) [
      | inl y ↦ rw y (inl refl)
      | inr n ↦ rw n (inr (rw n refl))
    ]
    step (d ∷ r) (inl h) = absurd (ground arith)
    step (d ∷ r) (inr h) = inr h

trim_space-IsTrimmed : (s : Text) → IsTrimmed (trim_space s)
unfolding trim_space
trim_space-IsTrimmed s = trim_right-IsTrimmed (trim_left s)

lower_no_space : (c : ℕ) → is_space (lower_byte c) ≡ is_space c
unfolding is_space lower_byte
lower_no_space c = ground arith

lower_clean : (s : Text) → ends_clean s ≡ true → ends_clean (to_lower s) ≡ true
unfolding to_lower
lower_clean [] h = h
lower_clean (c ∷ []) h = rw (lower_no_space c) h
lower_clean (c ∷ d ∷ s) h = lower_clean (d ∷ s) h

to_lower-IsTrimmed : (s : Text) → IsTrimmed s → IsTrimmed (to_lower s)
unfolding to_lower
to_lower-IsTrimmed [] h = inl refl
to_lower-IsTrimmed (c ∷ s) (inl h) = absurd (ground arith)
to_lower-IsTrimmed (c ∷ s) (inr h) = inr (lower_clean (c ∷ s) h)

colon_clean : (a b : Text) → ends_clean b ≡ true → ends_clean (colon a b) ≡ true
colon_clean [] [] h = absurd (ground arith)
colon_clean [] (d ∷ b) h = h
colon_clean (c ∷ []) b h = colon_clean [] b h
colon_clean (c ∷ e ∷ a) b h = colon_clean (e ∷ a) b h

default_clean :
    (d s : Text) → ends_clean d ≡ true → IsTrimmed s → ends_clean (or_default d s) ≡ true
default_clean d [] h t = h
default_clean d (c ∷ s) h (inl t) = absurd (ground arith)
default_clean d (c ∷ s) h (inr t) = t

find_linked-IsTrimmed : (cs : List Text) (links : IdentityLinks) → IsTrimmed (find_linked cs links)
unfolding find_linked
find_linked-IsTrimmed cs [] = inl refl
find_linked-IsTrimmed cs ((k, ids) ∷ links) =
    either-IsTrimmed (not (is_empty (trim_space k)) && any_linked cs ids) (trim_space k)
      (find_linked cs links) (trim_space-IsTrimmed k) (find_linked-IsTrimmed cs links)
  where
    either-IsTrimmed :
        (b : Bool) (s t : Text) → IsTrimmed s → IsTrimmed t → IsTrimmed (if b then s else t)
    either-IsTrimmed true s t h k = h
    either-IsTrimmed false s t h k = k

linked-IsTrimmed :
    (links : IdentityLinks) (channel peer : Text)
    → IsTrimmed (resolve_linked_peer_id links channel peer)
unfolding resolve_linked_peer_id
linked-IsTrimmed links channel peer = elim (Bool-cases (is_empty (trim_space peer))) [
  | inl y ↦ rw y (inl refl)
  | inr n ↦ rw n (find_linked-IsTrimmed (candidate_ids channel (trim_space peer)) links)
]

default-IsTrimmed : (d s : Text) → IsTrimmed d → IsTrimmed s → IsTrimmed (or_default d s)
default-IsTrimmed d [] h t = h
default-IsTrimmed d (c ∷ s) h t = t

direct_peer_id-IsTrimmed :
    (params : SessionKeyParams) (peer : Text)
    → IsTrimmed peer
    → IsTrimmed (direct_peer_id params peer)
unfolding direct_peer_id
direct_peer_id-IsTrimmed params peer h =
    elim (Bool-cases (is_main_scope params.dm_scope || is_empty peer)) [
      | inl y ↦ rw y (to_lower-IsTrimmed peer h)
      | inr n ↦
          let linked = resolve_linked_peer_id params.identity_links params.channel peer in
          rw n (
            to_lower-IsTrimmed (or_default peer linked) (
              default-IsTrimmed peer linked h
                (linked-IsTrimmed params.identity_links params.channel peer)))
    ]

direct_rest_clean :
    (scope : Option Text) (peer : Text)
    → IsTrimmed peer
    → ends_clean (direct_rest scope peer) ≡ true
unfolding is_space
direct_rest_clean none peer h = refl
direct_rest_clean (some scope) [] h = refl
direct_rest_clean (some scope) (c ∷ s) (inl h) = absurd (ground arith)
direct_rest_clean (some scope) (c ∷ s) (inr h) = colon_clean scope (c ∷ s) h

key_rest_clean : (params : SessionKeyParams) → ends_clean (key_rest params) ≡ true
unfolding key_rest is_space
key_rest_clean params =
    let peer = peer_or_direct params.peer in
    let peer_kind = or_default direct_word (trim_space peer.kind) in
    let peer_id = trim_space peer.id in
    elim (Bool-cases (text_eq peer_kind direct_word)) [
      | inl y ↦ rw y (
          direct_rest_clean (direct_scope params params.dm_scope) (direct_peer_id params peer_id)
            (direct_peer_id-IsTrimmed params peer_id (trim_space-IsTrimmed peer.id)))
      | inr n ↦ rw n (
          colon_clean (normalize_channel params.channel) _ (
            colon_clean peer_kind _ (
              default_clean (codes "unknown") (to_lower peer_id) refl
                (to_lower-IsTrimmed peer_id (trim_space-IsTrimmed peer.id)))))
    ]

clean_full : (s : Text) → ends_clean s ≡ true → is_empty s ≡ false
clean_full [] h = absurd (ground arith)
clean_full (c ∷ s) h = refl

agent_trimmed :
    (tail : Text)
    → ends_clean tail ≡ true
    → trim_space (colon agent_word tail) ≡ colon agent_word tail
unfolding trim_space is_space
agent_trimmed tail c = trim_right_clean (colon agent_word tail) (colon_clean agent_word tail c)

agent_parts :
    (id rest : Text)
    → all_id_bytes id ≡ true
    → is_empty id ≡ false
    → is_empty rest ≡ false
    → parse_parts (cut b':' (colon agent_word (colon id rest)))
      ≡ some (record { agent_id = id; rest = rest })
unfolding text_eq
agent_parts id rest a b c =
    rw (cut_id agent_word (colon id rest) (unfold is_id_byte is_alnum in refl))
      (rw (cut_id id rest a) (rw (trim_space-id id a) (rw (b, c) refl)))

parse-colon :
    (id rest : Text)
    → all_id_bytes id ≡ true
    → is_empty id ≡ false
    → ends_clean rest ≡ true
    → parse_agent_session_key (colon agent_word (colon id rest))
      ≡ some (record { agent_id = id; rest = rest })
unfolding parse_agent_session_key
parse-colon id rest a b c =
    ap (λ t. parse_parts (cut b':' t)) (agent_trimmed (colon id rest) (colon_clean id rest c))
    ∙ agent_parts id rest a b (clean_full rest c)

-- A session key for a peer, read back, gives the normalized id of the agent and the part of the key
-- behind it, whatever the channel, the account, the peer, the scope and the identity links are; the
-- same holds of the main key of an agent.
pub parse-build :
    (params : SessionKeyParams) (agent : Text)
    → (parse_agent_session_key (build_agent_peer_session_key params)
        ≡ some (record { agent_id = normalize_agent_id params.agent_id; rest = key_rest params }))
      × (parse_agent_session_key (build_agent_main_session_key agent)
          ≡ some (record { agent_id = normalize_agent_id agent; rest = codes "main" }))
unfolding build_agent_peer_session_key build_agent_main_session_key is_space
parse-build params agent =
    let v = (normalize_ids-IsId params.agent_id).0 in
    let w = (normalize_ids-IsId agent).0 in
    (
      parse-colon (normalize_agent_id params.agent_id) (key_rest params) v.bytes v.full
          (key_rest_clean params),
      parse-colon (normalize_agent_id agent) (codes "main") w.bytes w.full refl,
    )
