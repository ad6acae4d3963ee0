-- ===== src/Providers/Candidates.antt =====
-- pkg/providers/fallback.go: the list of candidates of a model configuration.
pub mod Distinct
use operator_os.Base.{
  Bool, true, ◌≡◌, Option, none, some, List, [], ◌∷◌, ◌++◌, Text, trim_space, lookup, insert,
  is_some, if◌then◌else◌,
}
use operator_os.Providers.Types.{ModelConfig}
use operator_os.Providers.ModelRef.{ModelRef, parse_model_ref, model_key}
use operator_os.Providers.Fallback.{FallbackCandidate}

-- The variables that `addCandidate` closes over.
pub record Candidates : Type 0 where
  pub seen : List (Text × Bool)
  pub candidates : List FallbackCandidate

abbrev pub candidate_key : FallbackCandidate → Text
candidate_key c = model_key c.provider c.model

unfoldable pub add_ref : Option ModelRef → Candidates → Candidates
add_ref none s = s
add_ref (some ref) s =
    let key = model_key ref.provider ref.model in
    if is_some (lookup key s.seen) then s else record {
      seen = insert key true s.seen;
      candidates = s.candidates ++ record { provider = ref.provider; model = ref.model } ∷ [];
    }

-- `lookup` is nil or a function that resolves some names; a nil one resolves none.
unfoldable pub resolve_raw : (Text → Option Text) → Text → Text
resolve_raw lookup_name raw =
    let candidate_raw = trim_space raw in
    elim (lookup_name candidate_raw) [ none ↦ candidate_raw | some resolved ↦ resolved ]

module _ (lookup_name : Text → Option Text) (default_provider : Text) where
  unfoldable pub add_candidate : Text → Candidates → Candidates
  unfolding add_ref resolve_raw
  add_candidate raw s = add_ref (parse_model_ref (resolve_raw lookup_name raw) default_provider) s

  unfoldable pub add_all : List Text → Candidates → Candidates
  unfolding add_candidate
  add_all [] s = s
  add_all (raw ∷ raws) s = add_all raws (add_candidate raw s)

  unfoldable pub resolve_candidates_with_lookup : ModelConfig → List FallbackCandidate
  unfolding add_all
  resolve_candidates_with_lookup cfg =
      (add_all cfg.fallbacks
        (add_candidate cfg.primary (record { seen = []; candidates = [] }))).candidates

unfoldable pub resolve_candidates : ModelConfig → Text → List FallbackCandidate
unfolding resolve_candidates_with_lookup
resolve_candidates cfg default_provider =
    resolve_candidates_with_lookup (λ raw. none) default_provider cfg
