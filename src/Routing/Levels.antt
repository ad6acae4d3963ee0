-- ===== src/Routing/Levels.antt =====
-- The cascade of pkg/routing/route.go: which level decides, and by which binding.
use mathlib.Core.List.{Memᴰ}
use operator_os.Base.{
  ℕ, ◌+◌, ◌≤◌, ◌<◌, ◌==◌, ◌≡◌, refl, sym, ap, ◌∙◌, subst, true, false, Option, none, some, List, [],
  ◌∷◌, Text, text_eq, text_eq_sound, is_empty, trim_space, Bool-cases, Option-cases, if◌then◌else◌,
  ◌⊎◌, inl, inr, arith,
}
use operator_os.Routing.AgentId.{normalize_agent_id}
use operator_os.Routing.Route.{
  AgentBinding, AgentConfig, Config, RouteInput, Level, by_peer, by_parent, by_guild, by_team,
  by_account, by_channel, by_default, ResolvedRoute, level_match, route_bindings, route_channel,
  route_account, pick_agent_id, is_configured, no_agents, resolve_default_agent_id, choose,
  at_level, resolve_route,
}
use operator_os.Routing.Matches.{equal_texts, IsFor, applies-IsFor, IsFor-applies, Fits}
use operator_os.Routing.Searches.{level_match_sound, level_match_complete}

-- A higher priority has a lower rank.
abbrev pub rank : Level → ℕ
rank by_peer = 0
rank by_parent = 1
rank by_guild = 2
rank by_team = 3
rank by_account = 4
rank by_channel = 5
rank by_default = 6

abbrev of_rank : ℕ → Level
of_rank n =
    if n == 0
    then by_peer
    else if n == 1
    then by_parent
    else if n == 2
    then by_guild
    else if n == 3
    then by_team
    else if n == 4
    then by_account
    else if n == 5
    then by_channel
    else by_default

of_rank-rank : (l : Level) → of_rank (rank l) ≡ l
of_rank-rank by_peer = refl
of_rank-rank by_parent = refl
of_rank-rank by_guild = refl
of_rank-rank by_team = refl
of_rank-rank by_account = refl
of_rank-rank by_channel = refl
of_rank-rank by_default = refl

-- The agent that a binding asks for: its own, if it names one that is configured or none is; else the
-- default agent.
abbrev pub IsAskedFor : List AgentConfig → Text → Text → Type 0
IsAskedFor agents asked out =
    ((is_empty (trim_space asked) ≡ false)
      × (out ≡ normalize_agent_id (trim_space asked))
      × ((agents ≡ []) ⊎ ((a : AgentConfig) × Memᴰ a agents × (normalize_agent_id a.id ≡ out))))
    ⊎ (((is_empty (trim_space asked) ≡ true)
          ⊎ ((a : AgentConfig)
              → Memᴰ a agents
              → ¬ (normalize_agent_id a.id ≡ normalize_agent_id (trim_space asked))))
        × (out ≡ normalize_agent_id (resolve_default_agent_id agents)))

configured :
    (n : Text) (agents : List AgentConfig)
    → is_configured n agents ≡ true
    → (a : AgentConfig) × Memᴰ a agents × (normalize_agent_id a.id ≡ n)
unfolding is_configured
configured n [] h = absurd (ground arith)
configured n (a ∷ rest) h = elim (Bool-cases (text_eq (normalize_agent_id a.id) n)) [
  | inl y ↦ (a, Memᴰ.head refl, text_eq_sound (normalize_agent_id a.id) n y)
  | inr m ↦ let (b, i, e) = configured n rest (ground (arith, h, m)) in (b, Memᴰ.tail i, e)
]

not_configured :
    (n : Text) (agents : List AgentConfig) (a : AgentConfig)
    → is_configured n agents ≡ false
    → Memᴰ a agents
    → ¬ (normalize_agent_id a.id ≡ n)
unfolding is_configured
not_configured n [] a h m e = elim m [ ]
not_configured n (b ∷ rest) a h (Memᴰ.head s) e =
    let t : text_eq (normalize_agent_id b.id) n ≡ true =
      equal_texts (normalize_agent_id b.id) n (ap (λ x. normalize_agent_id x.id) (sym s) ∙ e) in
    absurd (ground (arith, h, t))
not_configured n (b ∷ rest) a h (Memᴰ.tail m) e = not_configured n rest a (ground (arith, h)) m e

no_agents-nil : (agents : List AgentConfig) → no_agents agents ≡ true → agents ≡ []
no_agents-nil [] h = refl
no_agents-nil (a ∷ rest) h = absurd (ground arith)

pick_agent_id-IsAskedFor :
    (agents : List AgentConfig) (asked : Text)
    → IsAskedFor agents asked (pick_agent_id agents asked)
unfolding pick_agent_id
pick_agent_id-IsAskedFor agents asked =
    let n = normalize_agent_id (trim_space asked) in
    elim (Bool-cases (is_empty (trim_space asked))) [
      | inl y ↦ rw y (inr (inl refl, refl))
      | inr y ↦ elim (Bool-cases (no_agents agents)) [
        | inl z ↦ rw y (rw z (inl (refl, refl, inl (no_agents-nil agents z))))
        | inr z ↦ elim (Bool-cases (is_configured n agents)) [
          | inl c ↦ rw y (rw z (rw c (inl (refl, refl, inr (configured n agents c)))))
          | inr c ↦ rw y (rw z (rw c (inr (inr (λ a m. not_configured n agents a c m), refl))))
        ]
      ]
    ]

module _ (cfg : Config) (input : RouteInput) where
  -- What the bindings of the message offer at a level.
  abbrev offer : Level → Option AgentBinding
  offer l = level_match (route_bindings cfg input) input l

  -- The route from the binding of its level, or from the default.
  abbrev FromLevel : ResolvedRoute → Type 0
  FromLevel r =
      ((r.matched_by ≡ by_default)
        × (r.agent_id ≡ pick_agent_id cfg.agents (resolve_default_agent_id cfg.agents)))
      ⊎ ((b : AgentBinding) × (offer r.matched_by ≡ some b)
          × (r.agent_id ≡ pick_agent_id cfg.agents b.agent_id))

  -- From the rank `k` on, no level before that of the route offers a binding.
  record Explained (k : ℕ) (r : ResolvedRoute) : Type 0 where
    within : k ≤ rank r.matched_by
    passed : (l : Level) → k ≤ rank l → rank l < rank r.matched_by → offer l ≡ none
    from : FromLevel r

  step-Explained :
      (l : Level) (rest : ResolvedRoute)
      → Explained (rank l + 1) rest
      → Explained (rank l) (at_level cfg input l (offer l) rest)
  unfolding choose
  step-Explained l rest v = elim (Option-cases (offer l)) [
    | inl e ↦ rw e (record {
      within = let w = v.within in omega arith;
      passed = λ m a b. elim (Nat_cases (rank l) (rank m) a) [
        | inl same ↦ same_level m same e
        | inr later ↦ v.passed m later b
      ];
      from = v.from;
    })
    | inr (b, e) ↦
        rw (e, choose)
          (record {
            within = omega arith;
            passed = λ m a b. absurd (omega arith);
            from = inr (b, e, refl);
          })
  ]
    where
      Nat_cases : (a b : ℕ) → a ≤ b → (a ≡ b) ⊎ (a + 1 ≤ b)
      Nat_cases a b h = ground arith

      same_level : (m : Level) → rank l ≡ rank m → offer l ≡ none → offer m ≡ none
      same_level m same e =
          subst (λ x. offer x ≡ none) (sym (of_rank-rank l) ∙ ap of_rank same ∙ of_rank-rank m) e

  resolve_route-Explained : Explained 0 (resolve_route cfg input)
  unfolding resolve_route choose
  resolve_route-Explained = step-Explained by_peer _ (
      step-Explained by_parent _ (
        step-Explained by_guild _ (
          step-Explained by_team _ (
            step-Explained by_account _ (
              step-Explained by_channel _ (record {
                within = omega arith;
                passed = λ l a b. absurd (omega arith);
                from = inl (refl, refl);
              }))))))

  -- No binding of a higher priority is passed over: no binding of the configuration that is for the
  -- channel and the account of the message fits it at a level before the one that a route reports.
  pub resolve_route_priority :
      (l : Level) (b : AgentBinding)
      → rank l < rank (resolve_route cfg input).matched_by
      → Memᴰ b cfg.bindings
      → IsFor input b
      → ¬ Fits input b l
  resolve_route_priority l b h m f =
      level_match_complete (route_channel cfg input) (route_account cfg input) cfg.bindings input l
        b ((resolve_route-Explained).passed l (omega arith) h) m (IsFor-applies input b f)

  -- Every route reports the default, with the default agent, or it follows a binding of the
  -- configuration that is for the channel and the account of the message and fits it at the level
  -- reported: the agent is the one that the binding asks for.
  pub resolve_route_sound :
      (((resolve_route cfg input).matched_by ≡ by_default)
        × ((resolve_route cfg input).agent_id
            ≡ pick_agent_id cfg.agents (resolve_default_agent_id cfg.agents)))
      ⊎ ((b : AgentBinding) × Memᴰ b cfg.bindings
          × IsFor input b
          × Fits input b (resolve_route cfg input).matched_by
          × IsAskedFor cfg.agents b.agent_id (resolve_route cfg input).agent_id)
  resolve_route_sound = elim ((resolve_route-Explained).from) [
    | inl d ↦ inl d
    | inr (b, e, a) ↦
        let l = (resolve_route cfg input).matched_by in
        let (m, f, fits) =
          level_match_sound (route_channel cfg input) (route_account cfg input) cfg.bindings input l
            b e in
        inr (
          b,
          m,
          applies-IsFor input b f,
          fits,
          rw a (pick_agent_id-IsAskedFor cfg.agents b.agent_id),
        )
  ]
