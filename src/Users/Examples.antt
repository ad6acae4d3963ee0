-- ===== src/Users/Examples.antt =====
-- Runs of pkg/users/token_blacklist.go, and the theorems at concrete inputs.
use operator_os.Base.{
  ◌≡◌, refl, true, false, List, [], ◌∷◌, codes, text_eq, lookup, insert, inl, arith,
}
use operator_os.Users.TokenBlacklist.{revoke, is_revoked, sweep}
use operator_os.Users.Revocation.{
  Event, revoked, user_revoked, swept, event, events, revoked_until_expiry,
}

abbrev one_day : List Event
one_day = user_revoked (codes "bob") 40 50 ∷ swept 90 ∷ revoked (codes "eve") 95 ∷ swept 100 ∷ []

revoked_until_expiry_example :
    is_revoked (events (revoke [] (codes "ann-access") 100) one_day) (codes "ann-access") ≡ true
revoked_until_expiry_example = revoked_until_expiry [] (codes "ann-access") 100 one_day tt (
  (inl (unfold text_eq in refl), inl (unfold text_eq in refl)),
  (omega arith, (inl (unfold text_eq in refl), (omega arith, tt))),
)

gone_later :
    is_revoked
      (sweep (events (revoke [] (codes "ann-access") 100) one_day) 101)
      (codes "ann-access")
    ≡ false
unfolding is_revoked revoke event sweep lookup insert text_eq
gone_later = refl
