-- ===== src/Users/TokenBlacklist.antt =====
-- pkg/users/token_blacklist.go. A sweep of the background loop is a function of the time of its tick.
use operator_os.Base.{
  ℕ, Bool, List, [], ◌∷◌, ◌++◌, Text, codes, lookup, insert, length, ltb, is_some, if◌then◌else◌,
}

-- The ids of the revoked tokens, with the time when each expires.
abbrev pub TokenBlacklist : Type 0
TokenBlacklist = List (Text × ℕ)

unfoldable pub revoke : TokenBlacklist → Text → ℕ → TokenBlacklist
revoke entries jti expires_at = insert jti expires_at entries

unfoldable pub is_revoked : TokenBlacklist → Text → Bool
is_revoked entries jti = is_some (lookup jti entries)

unfoldable pub revoke_user : TokenBlacklist → Text → ℕ → ℕ → TokenBlacklist
revoke_user entries jti_base access_expiry refresh_expiry =
    insert (jti_base ++ codes "-refresh") refresh_expiry
      (insert (jti_base ++ codes "-access") access_expiry entries)

unfoldable pub size : TokenBlacklist → ℕ
size entries = length entries

unfoldable pub sweep : TokenBlacklist → ℕ → TokenBlacklist
sweep [] now = []
sweep ((jti, exp) ∷ entries) now =
    let rest = sweep entries now in if ltb exp now then rest else (jti, exp) ∷ rest
