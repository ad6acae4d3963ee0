-- ===== src/Providers/Candidates/Distinct.antt =====
-- The candidates of pkg/providers/fallback.go have different keys, and none is lost.
use mathlib.Core.List.{Memᴰ, append-nil, append_assoc}
use operator_os.Base.{
  ◌≡◌, refl, sym, ◌∙◌, Bool, true, false, ◌||◌, inl, inr, Option, none, some, List, [], ◌∷◌, ◌++◌,
  Text, text_eq, text_eq_iff, text_eq_refl, lookup, lookup-insert, ap, is_some, Bool-cases, arith,
}
use operator_os.Providers.Types.{ModelConfig}
use operator_os.Providers.ModelRef.{ModelRef, parse_model_ref, model_key}
use operator_os.Providers.Fallback.{FallbackCandidate}
use operator_os.Providers.Candidates.{
  Candidates, candidate_key, add_ref, add_candidate, add_all, resolve_raw,
  resolve_candidates_with_lookup,
}

-- Some candidate has the key.
abbrev pub has_key : Text → List FallbackCandidate → Bool
has_key k [] = false
has_key k (c ∷ cs) = text_eq (candidate_key c) k || has_key k cs

-- No two candidates have one key.
abbrev pub AreDistinct : List FallbackCandidate → Type 0
AreDistinct [] = Unit {0}
AreDistinct (c ∷ cs) = (has_key (candidate_key c) cs ≡ false) × AreDistinct cs

has_key-append :
    (k : Text) (cs : List FallbackCandidate) (c : FallbackCandidate)
    → has_key k (cs ++ c ∷ []) ≡ (has_key k cs || text_eq (candidate_key c) k)
has_key-append k [] c = ground arith
has_key-append k (x ∷ cs) c = ground (arith, has_key-append k cs c)

append-AreDistinct :
    (cs : List FallbackCandidate) (c : FallbackCandidate)
    → AreDistinct cs
    → has_key (candidate_key c) cs ≡ false
    → AreDistinct (cs ++ c ∷ [])
append-AreDistinct [] c d h = (refl, tt)
append-AreDistinct (x ∷ cs) c d h = (
  ground (
    arith,
    has_key-append (candidate_key x) cs c,
    text_eq_iff (candidate_key x) (candidate_key c),
    text_eq_iff (candidate_key c) (candidate_key x),
  ),
  append-AreDistinct cs c d.1 (ground arith),
)

-- The keys seen are those of the candidates, which differ.
record IsConsistent (s : Candidates) : Type 0 where
  same : (k : Text) → is_some (lookup k s.seen) ≡ has_key k s.candidates
  distinct : AreDistinct s.candidates

add_ref-IsConsistent :
    (r : Option ModelRef) (s : Candidates) → IsConsistent s → IsConsistent (add_ref r s)
unfolding add_ref
add_ref-IsConsistent none s v = v
add_ref-IsConsistent (some r) s v =
    let key = model_key r.provider r.model in
    elim (Bool-cases (is_some (lookup key s.seen))) [
      | inl old ↦ rw old v
      | inr new ↦ rw new (record {
        same = λ k. ground (
          arith,
          v.same k,
          lookup-insert key k true s.seen,
          has_key-append k s.candidates (record { provider = r.provider; model = r.model }),
        );
        distinct = append-AreDistinct s.candidates _ v.distinct (sym (v.same key) ∙ new);
      })
    ]

nothing_seen : (k : Text) → is_some {A = Bool} (lookup k []) ≡ false
unfolding lookup
nothing_seen k = refl

module _ (lookup_name : Text → Option Text) (default_provider : Text) where
  abbrev pub ref_of : Text → Option ModelRef
  ref_of raw = parse_model_ref (resolve_raw lookup_name raw) default_provider

  add_all-IsConsistent :
      (raws : List Text) (s : Candidates)
      → IsConsistent s
      → IsConsistent (add_all lookup_name default_provider raws s)
  unfolding add_all add_candidate
  add_all-IsConsistent [] s v = v
  add_all-IsConsistent (raw ∷ raws) s v =
      add_all-IsConsistent raws _ (add_ref-IsConsistent (ref_of raw) s v)

  -- The candidates of a configuration have different keys.
  pub resolve_candidates-AreDistinct :
      (cfg : ModelConfig)
      → AreDistinct (resolve_candidates_with_lookup lookup_name default_provider cfg)
  unfolding resolve_candidates_with_lookup add_candidate
  resolve_candidates-AreDistinct cfg =
      (add_all-IsConsistent cfg.fallbacks _ (
        add_ref-IsConsistent (ref_of cfg.primary) _
          (record { same = nothing_seen; distinct = tt }))).distinct

  -- A reference just added has a candidate.
  add_ref_has :
      (r : ModelRef) (s : Candidates)
      → IsConsistent s
      → has_key (model_key r.provider r.model) (add_ref (some r) s).candidates ≡ true
  unfolding add_ref
  add_ref_has r s v =
      let key = model_key r.provider r.model in
      ground (
        arith,
        v.same key,
        text_eq_refl key,
        has_key-append key s.candidates (record { provider = r.provider; model = r.model }),
      )

  add_ref_keeps :
      (r : Option ModelRef) (s : Candidates) (k : Text)
      → has_key k s.candidates ≡ true
      → has_key k (add_ref r s).candidates ≡ true
  unfolding add_ref
  add_ref_keeps none s k h = h
  add_ref_keeps (some r) s k h =
      ground
        (arith, has_key-append k s.candidates (record { provider = r.provider; model = r.model }))

  add_all_keeps :
      (raws : List Text) (s : Candidates) (k : Text)
      → has_key k s.candidates ≡ true
      → has_key k (add_all lookup_name default_provider raws s).candidates ≡ true
  unfolding add_all add_candidate
  add_all_keeps [] s k h = h
  add_all_keeps (raw ∷ raws) s k h = add_all_keeps raws _ k (add_ref_keeps (ref_of raw) s k h)

  add_all_has :
      (raws : List Text) (s : Candidates) (raw : Text) (r : ModelRef)
      → IsConsistent s
      → Memᴰ raw raws
      → ref_of raw ≡ some r
      → has_key
          (model_key r.provider r.model)
          (add_all lookup_name default_provider raws s).candidates
        ≡ true
  unfolding add_all add_candidate
  add_all_has [] s raw r v m h = elim m [ ]
  add_all_has (x ∷ raws) s raw r v (Memᴰ.head e) h =
      add_all_keeps raws _ _ (rw (sym (ap ref_of e) ∙ h) (add_ref_has r s v))
  add_all_has (x ∷ raws) s raw r v (Memᴰ.tail m) h =
      add_all_has raws _ raw r (add_ref-IsConsistent (ref_of x) s v) m h

  start_IsConsistent : IsConsistent (record { seen = []; candidates = [] })
  start_IsConsistent = record { same = nothing_seen; distinct = tt }

  -- Every entry of the configuration that parses has a candidate with its key.
  pub resolve_candidates_complete :
      (cfg : ModelConfig) (raw : Text) (r : ModelRef)
      → Memᴰ raw (cfg.primary ∷ cfg.fallbacks)
      → ref_of raw ≡ some r
      → has_key
          (model_key r.provider r.model)
          (resolve_candidates_with_lookup lookup_name default_provider cfg)
        ≡ true
  unfolding resolve_candidates_with_lookup
  resolve_candidates_complete cfg raw r m h =
      add_all_has (cfg.primary ∷ cfg.fallbacks) _ raw r start_IsConsistent m h

  add_ref_prefix :
      (r : Option ModelRef) (s : Candidates)
      → (more : List FallbackCandidate) × ((add_ref r s).candidates ≡ s.candidates ++ more)
  unfolding add_ref
  add_ref_prefix none s = ([], sym (append-nil s.candidates))
  add_ref_prefix (some r) s =
      elim (Bool-cases (is_some (lookup (model_key r.provider r.model) s.seen))) [
        | inl old ↦ ([], rw old (sym (append-nil s.candidates)))
        | inr new ↦ (record { provider = r.provider; model = r.model } ∷ [], rw new refl)
      ]

  add_all_prefix :
      (raws : List Text) (s : Candidates)
      → (more : List FallbackCandidate) × ((add_all lookup_name default_provider raws s).candidates
          ≡ s.candidates ++ more)
  unfolding add_all add_candidate
  add_all_prefix [] s = ([], sym (append-nil s.candidates))
  add_all_prefix (raw ∷ raws) s =
      let (m, e) = add_ref_prefix (ref_of raw) s in
      let (n, f) = add_all_prefix raws (add_ref (ref_of raw) s) in
      (m ++ n, f ∙ ap (λ l. l ++ n) e ∙ append_assoc s.candidates m n)

  add_candidate_of :
      (raw : Text) (r : ModelRef) (s : Candidates)
      → ref_of raw ≡ some r
      → add_candidate lookup_name default_provider raw s ≡ add_ref (some r) s
  unfolding add_candidate
  add_candidate_of raw r s h = ap (λ o. add_ref o s) h

  add_ref_first :
      (r : ModelRef)
      → (add_ref (some r) (record { seen = []; candidates = [] })).candidates
        ≡ record { provider = r.provider; model = r.model } ∷ []
  unfolding add_ref lookup
  add_ref_first r = refl

  -- The primary model, if it parses, is the first candidate.
  pub resolve_candidates_primary :
      (cfg : ModelConfig) (r : ModelRef)
      → ref_of cfg.primary ≡ some r
      → (more : List FallbackCandidate) × (resolve_candidates_with_lookup lookup_name
            default_provider cfg
          ≡ record { provider = r.provider; model = r.model } ∷ more)
  unfolding resolve_candidates_with_lookup
  resolve_candidates_primary cfg r h =
      let (more, e) =
        add_all_prefix cfg.fallbacks (add_ref (some r) (record { seen = []; candidates = [] })) in
      (
        more,
        ap (λ s. (add_all lookup_name default_provider cfg.fallbacks s).candidates)
              (add_candidate_of cfg.primary r _ h)
            ∙ e
            ∙ ap (λ l. l ++ more) (add_ref_first r),
      )
