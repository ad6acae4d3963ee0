-- ===== src/Routing/Searches.antt =====
-- The searches of pkg/routing/route.go find what fits at a level, and miss nothing that does.
use mathlib.Core.List.{Memᴰ}
use operator_os.Base.{
  ◌≡◌, refl, sym, ap, ◌∙◌, subst, Bool, true, false, not, ◌&&◌, Option, none, some, List, [], ◌∷◌,
  Text, is_empty, trim_space, Bool-cases, inl, inr, arith,
}
use operator_os.Routing.SessionKey.{RoutePeer}
use operator_os.Routing.Route.{
  AgentBinding, RouteInput, Level, by_peer, by_parent, by_guild, by_team, by_account, by_channel,
  by_default, applies, find, filter_bindings, peer_matches, id_matches, level_match,
  find_peer_match, find_id_match,
}
use operator_os.Routing.Matches.{Fits}
use operator_os.Routing.Fits.{peer_test, id_test, level_test, level_test-Fits, Fits-level_test}

nothing_found :
    (p : AgentBinding → Bool) (bs : List AgentBinding)
    → ((b : AgentBinding) → p b ≡ false)
    → find p bs ≡ none
unfolding find
nothing_found p [] h = refl
nothing_found p (b ∷ bs) h = rw (h b) (nothing_found p bs h)

find_same :
    (p q : AgentBinding → Bool) (bs : List AgentBinding)
    → ((b : AgentBinding) → p b ≡ q b)
    → find p bs ≡ find q bs
unfolding find
find_same p q [] h = refl
find_same p q (b ∷ bs) h = rw (h b, find_same p q bs h) refl

peer_match_find :
    (o : Option RoutePeer) (bs : List AgentBinding) → find_peer_match o bs ≡ find (peer_test o) bs
peer_match_find none bs = sym (nothing_found (λ b. false) bs (λ b. refl))
peer_match_find (some peer) bs = elim (Bool-cases (is_empty (trim_space peer.id))) [
  | inl y ↦ rw y (sym (nothing_found (peer_test (some peer)) bs (λ b. rw y refl)))
  | inr n ↦ rw n (
      find_same (λ b. peer_matches peer b.match_on.peer) (peer_test (some peer)) bs
        (λ b. rw n refl))
]

id_match_find :
    (field : AgentBinding → Text) (wanted : Text) (bs : List AgentBinding)
    → find_id_match field wanted bs ≡ find (λ b. id_test wanted (field b)) bs
id_match_find field wanted bs = elim (Bool-cases (is_empty wanted)) [
  | inl y ↦ rw y (sym (nothing_found (λ b. not true && id_matches (field b) wanted) bs (λ b. refl)))
  | inr n ↦ rw n (
      find_same (λ b. id_matches (field b) wanted) (λ b. not false && id_matches (field b) wanted)
        bs (λ b. refl))
]

level_match_lem :
    (bs : List AgentBinding) (input : RouteInput) (l : Level)
    → level_match bs input l ≡ find (level_test input l) bs
unfolding level_match
level_match_lem bs input by_peer = peer_match_find input.peer bs
level_match_lem bs input by_parent = peer_match_find input.parent_peer bs
level_match_lem bs input by_guild =
    id_match_find (λ b. b.match_on.guild_id) (trim_space input.guild_id) bs
level_match_lem bs input by_team =
    id_match_find (λ b. b.match_on.team_id) (trim_space input.team_id) bs
level_match_lem bs input by_account = refl
level_match_lem bs input by_channel = refl
level_match_lem bs input by_default = sym (nothing_found (λ b. false) bs (λ b. refl))

abbrev value : AgentBinding → Option AgentBinding → AgentBinding
value d none = d
value d (some b) = b

-- What is found stands in the list, applies and passes the test.
find_sound :
    (p : AgentBinding → Bool) (channel account : Text) (bs : List AgentBinding) (b : AgentBinding)
    → find p (filter_bindings channel account bs) ≡ some b
    → Memᴰ b bs × (applies channel account b ≡ true) × (p b ≡ true)
unfolding find filter_bindings
find_sound p channel account [] b h = absurd (ground arith)
find_sound p channel account (x ∷ bs) b h = elim (Bool-cases (applies channel account x)) [
  | inr n ↦ let (m, a, t) = find_sound p channel account bs b (rw n at h) in (Memᴰ.tail m, a, t)
  | inl y ↦
      let g = rw y at h in
      elim (Bool-cases (p x)) [
        | inl z ↦
            let e : x ≡ b = ap (value x) (rw z at g) in
            (
              Memᴰ.head (sym e),
              subst (λ c. applies channel account c ≡ true) e y,
              subst (λ c. p c ≡ true) e z,
            )
        | inr n ↦
            let (m, a, t) = find_sound p channel account bs b (rw n at g) in (Memᴰ.tail m, a, t)
      ]
]

-- If nothing is found, nothing in the list that applies passes the test.
find_complete :
    (p : AgentBinding → Bool) (channel account : Text) (bs : List AgentBinding) (b : AgentBinding)
    → find p (filter_bindings channel account bs) ≡ none
    → Memᴰ b bs
    → applies channel account b ≡ true
    → p b ≡ true
    → ⊥
unfolding find filter_bindings
find_complete p channel account [] b h m a t = elim m [ ]
find_complete p channel account (x ∷ bs) b h (Memᴰ.head e) a t =
    let a' : applies channel account x ≡ true = subst (λ c. applies channel account c ≡ true) e a in
    let t' : p x ≡ true = subst (λ c. p c ≡ true) e t in absurd (ground (arith, h, a', t'))
find_complete p channel account (x ∷ bs) b h (Memᴰ.tail m) a t =
    elim (Bool-cases (applies channel account x)) [
      | inr n ↦ find_complete p channel account bs b (rw n at h) m a t
      | inl y ↦
          let g = rw y at h in
          elim (Bool-cases (p x)) [
            | inl z ↦ absurd (ground (arith, g, z))
            | inr n ↦ find_complete p channel account bs b (rw n at g) m a t
          ]
    ]

module _ (channel account : Text) (bs : List AgentBinding) (input : RouteInput) (l : Level)
    (b : AgentBinding) where
  pub level_match_sound :
      level_match (filter_bindings channel account bs) input l ≡ some b
      → Memᴰ b bs × (applies channel account b ≡ true) × Fits input b l
  level_match_sound h =
      let (m, a, t) =
        find_sound (level_test input l) channel account bs b
          (sym (level_match_lem (filter_bindings channel account bs) input l) ∙ h) in
      (m, a, level_test-Fits input b l t)

  pub level_match_complete :
      level_match (filter_bindings channel account bs) input l ≡ none
      → Memᴰ b bs
      → applies channel account b ≡ true
      → ¬ Fits input b l
  level_match_complete h m a f =
      find_complete (level_test input l) channel account bs b
        (sym (level_match_lem (filter_bindings channel account bs) input l) ∙ h) m a
        (Fits-level_test input b f)
