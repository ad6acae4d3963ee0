-- ===== src/Routing/Ids.antt =====
-- The shape of the ids that pkg/routing/agent_id.go gives.
use operator_os.Base.{
  ℕ, suc, zero, ◌≤◌, ◌≡◌, refl, Bool, true, false, [], ◌∷◌, Text, is_empty, trim_space, to_lower,
  lower_byte, length, take, ◌==◌, Bool-cases, inl, inr, arith,
}
use mathlib.Core.Path.{ap₂}
use operator_os.Routing.AgentId.{
  is_alnum, is_id_byte, all_id_bytes, valid_id, replace_invalid, strip_leading, strip_trailing,
  sanitize_id, normalize_id, normalize_agent_id, normalize_account_id, default_agent_id,
  default_account_id,
}

abbrev pub starts_with_dash : Text → Bool
starts_with_dash [] = false
starts_with_dash (c ∷ s) = c == b'-'

-- One to 64 bytes of `[a-z0-9_-]`, the first of which is no dash.
pub record IsId (s : Text) : Type 0 where
  pub bytes : all_id_bytes s ≡ true
  pub start : starts_with_dash s ≡ false
  pub full : is_empty s ≡ false
  pub short : length s ≤ 64

replace_invalid-bytes : (r : Bool) (s : Text) → all_id_bytes (replace_invalid r s) ≡ true
unfolding replace_invalid is_id_byte is_alnum
replace_invalid-bytes r [] = refl
replace_invalid-bytes r (c ∷ s) =
    ground (arith, replace_invalid-bytes true s, replace_invalid-bytes false s)

strip_leading-bytes : (s : Text) → all_id_bytes s ≡ true → all_id_bytes (strip_leading s) ≡ true
unfolding strip_leading
strip_leading-bytes [] h = refl
strip_leading-bytes (c ∷ s) h = ground (arith, strip_leading-bytes s)

strip_leading_start : (s : Text) → starts_with_dash (strip_leading s) ≡ false
unfolding strip_leading
strip_leading_start [] = refl
strip_leading_start (c ∷ s) = ground (arith, strip_leading_start s)

strip_trailing-bytes : (s : Text) → all_id_bytes s ≡ true → all_id_bytes (strip_trailing s) ≡ true
unfolding strip_trailing
strip_trailing-bytes [] h = refl
strip_trailing-bytes (c ∷ s) h = ground (arith, strip_trailing-bytes s)

strip_trailing_start :
    (s : Text) → starts_with_dash s ≡ false → starts_with_dash (strip_trailing s) ≡ false
unfolding strip_trailing
strip_trailing_start [] h = refl
strip_trailing_start (c ∷ s) h = ground arith

take-bytes : (n : ℕ) (s : Text) → all_id_bytes s ≡ true → all_id_bytes (take n s) ≡ true
take-bytes zero s h = refl
take-bytes (suc n) [] h = refl
take-bytes (suc n) (c ∷ s) h = ground (arith, take-bytes n s)

take_start : (n : ℕ) (s : Text) → starts_with_dash s ≡ false → starts_with_dash (take n s) ≡ false
take_start zero s h = refl
take_start (suc n) [] h = refl
take_start (suc n) (c ∷ s) h = h

length-take_le : (n : ℕ) (s : Text) → length (take n s) ≤ n
length-take_le zero s = omega arith
length-take_le (suc n) [] = omega arith
length-take_le (suc n) (c ∷ s) = let ih = length-take_le n s in omega arith

sanitize_id-IsId : (s : Text) → is_empty (sanitize_id s) ≡ false → IsId (sanitize_id s)
unfolding sanitize_id
sanitize_id-IsId s full =
    let bare = strip_leading (replace_invalid false s) in
    let kept = strip_trailing bare in
    record {
      bytes = take-bytes 64 kept (
          strip_trailing-bytes bare
            (strip_leading-bytes (replace_invalid false s) (replace_invalid-bytes false s)));
      start =
          take_start 64 kept
            (strip_trailing_start bare (strip_leading_start (replace_invalid false s)));
      full = full;
      short = length-take_le 64 kept;
    }

valid_id-IsId : (s : Text) → valid_id s ≡ true → IsId s
unfolding valid_id is_id_byte is_alnum
valid_id-IsId [] h = absurd (ground arith)
valid_id-IsId (c ∷ s) h = record {
  bytes = ground arith;
  start = ground arith;
  full = refl;
  short = ground arith;
}

normalize_id-IsId : (d id : Text) → IsId d → IsId (normalize_id d id)
unfolding normalize_id
normalize_id-IsId d id v =
    let lower = to_lower (trim_space id) in
    elim (Bool-cases (is_empty (trim_space id))) [
      | inl y ↦ rw y v
      | inr n ↦ rw n (elim (Bool-cases (valid_id lower)) [
        | inl y ↦ rw y (valid_id-IsId lower y)
        | inr m ↦ rw m (elim (Bool-cases (is_empty (sanitize_id lower))) [
          | inl y ↦ rw y v
          | inr full ↦ rw full (sanitize_id-IsId lower full)
        ])
      ])
    ]

main-IsId : IsId default_agent_id
unfolding is_id_byte is_alnum
main-IsId = record { bytes = refl; start = refl; full = refl; short = omega arith }

default-IsId : IsId default_account_id
unfolding is_id_byte is_alnum
default-IsId = record { bytes = refl; start = refl; full = refl; short = omega arith }

-- Whatever the text is, the normalized id of an agent, and of an account, has between one and 64
-- bytes, all of them in "[a-z0-9_-]", and the first is no dash.
pub normalize_ids-IsId : (id : Text) → IsId (normalize_agent_id id) × IsId (normalize_account_id id)
unfolding normalize_agent_id normalize_account_id
normalize_ids-IsId id = (
  normalize_id-IsId default_agent_id id main-IsId,
  normalize_id-IsId default_account_id id default-IsId,
)

lower_id_byte : (c : ℕ) → is_id_byte c ≡ true → lower_byte c ≡ c
unfolding is_id_byte is_alnum lower_byte
lower_id_byte c h = ground arith

-- An id is in lower case.
pub to_lower_id : (s : Text) → all_id_bytes s ≡ true → to_lower s ≡ s
unfolding to_lower
to_lower_id [] h = refl
to_lower_id (c ∷ s) h =
    ap₂ (λ x y. x ∷ y) (lower_id_byte c (ground arith)) (to_lower_id s (ground arith))
