-- ===== src/Routing/Accounts.antt =====
-- The accounts of bindings and messages in pkg/routing/route.go.
use operator_os.Base.{
  ◌≡◌, true, false, [], ◌∷◌, Text, codes, text_eq, text_ne, is_empty, trim_space, to_lower,
  Bool-cases, inl, inr,
}
use operator_os.Routing.AgentId.{all_id_bytes, normalize_account_id}
use operator_os.Routing.Ids.{normalize_ids-IsId, to_lower_id}
use operator_os.Routing.Route.{matches_account_id}

-- A binding whose account has a byte outside "[A-Za-z0-9_-]", such as "bot#1", matches no message:
-- the account of a message is normalized before the comparison and that of the binding is not.
pub odd_account_unmatched :
    (bound account : Text)
    → all_id_bytes (to_lower (trim_space bound)) ≡ false
    → text_eq (trim_space bound) (codes "*") ≡ false
    → matches_account_id bound (normalize_account_id account) ≡ false
unfolding matches_account_id to_lower
odd_account_unmatched bound account odd star =
    let v = (normalize_ids-IsId account).1 in
    elim (Bool-cases (is_empty (trim_space bound))) [
      | inl y ↦ absurd (empty_fine (trim_space bound) y odd)
      | inr n ↦ rw n (
          rw star (
            rw (to_lower_id (normalize_account_id account) v.bytes) (
              text_ne (to_lower (trim_space bound)) (normalize_account_id account)
                (differs v.bytes))))
    ]
  where
    empty_fine : (s : Text) → is_empty s ≡ true → all_id_bytes (to_lower s) ≡ false → ⊥
    empty_fine [] e h = cc
    empty_fine (c ∷ s) e h = cc

    differs :
        all_id_bytes (normalize_account_id account) ≡ true
        → to_lower (trim_space bound) ≡ normalize_account_id account
        → ⊥
    differs a e = let h : all_id_bytes (normalize_account_id account) ≡ false = rw e at odd in cc
