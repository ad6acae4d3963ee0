-- ===== src/Users/Revocation.antt =====
-- How long a revocation lasts: pkg/users/token_blacklist.go.
use operator_os.Base.{
  ℕ, ◌≤◌, ◌≡◌, refl, sym, ap, ◌∙◌, true, false, Option, none, some, List, [], ◌∷◌, ◌++◌, Text,
  codes, text_eq, text_eq_iff, lookup, insert, lookup-insert, lookup-insert_self, ltb, ◌↔◌, is_some,
  if◌then◌else◌, Bool-cases, ◌⊎◌, inl, inr, arith,
}
use operator_os.Users.TokenBlacklist.{TokenBlacklist, revoke, is_revoked, revoke_user, sweep}

-- No id has two entries.
abbrev pub HasOneEach : TokenBlacklist → Type 0
HasOneEach [] = Unit {0}
HasOneEach ((j, e) ∷ m) = (lookup j m ≡ none) × HasOneEach m

abbrev unexpired : ℕ → Option ℕ → Option ℕ
unexpired now none = none
unexpired now (some e) = if ltb e now then none else some e

lookup-sweep :
    (m : TokenBlacklist) (now : ℕ) (k : Text)
    → HasOneEach m
    → lookup k (sweep m now) ≡ unexpired now (lookup k m)
unfolding lookup sweep
lookup-sweep [] now k h = refl
lookup-sweep ((j, e) ∷ m) now k (fresh, h) = elim (Bool-cases (text_eq j k)) [
  | inr n ↦ ground (arith, lookup-sweep m now k h)
  | inl y ↦
      let gone : lookup k m ≡ none = ap (λ i. lookup i m) (sym ((text_eq_iff j k).0 y)) ∙ fresh in
      ground (arith, lookup-sweep m now k h, gone)
]

sweep-HasOneEach : (m : TokenBlacklist) (now : ℕ) → HasOneEach m → HasOneEach (sweep m now)
unfolding sweep
sweep-HasOneEach [] now h = tt
sweep-HasOneEach ((j, e) ∷ m) now (fresh, h) = elim (Bool-cases (ltb e now)) [
  | inl y ↦ rw y (sweep-HasOneEach m now h)
  | inr n ↦ rw n (lookup-sweep m now j h ∙ ap (unexpired now) fresh, sweep-HasOneEach m now h)
]

insert-HasOneEach :
    (m : TokenBlacklist) (k : Text) (t : ℕ) → HasOneEach m → HasOneEach (insert k t m)
unfolding insert
insert-HasOneEach [] k t h = (unfold lookup in refl, tt)
insert-HasOneEach ((j, e) ∷ m) k t (fresh, h) = elim (Bool-cases (text_eq j k)) [
  | inl y ↦ rw y (ap (λ i. lookup i m) (sym ((text_eq_iff j k).0 y)) ∙ fresh, h)
  | inr n ↦ rw n (
    rw (lookup-insert k j t m) (ground (arith, text_eq_iff j k, text_eq_iff k j)),
    insert-HasOneEach m k t h,
  )
]

-- The calls of a blacklist, and the ticks of its background loop.
pub data Event : Type 0 where
  revoked : Text → ℕ → Event
  user_revoked : Text → ℕ → ℕ → Event
  swept : ℕ → Event

unfoldable pub event : TokenBlacklist → Event → TokenBlacklist
unfolding revoke revoke_user sweep
event m (revoked j t) = revoke m j t
event m (user_revoked b t u) = revoke_user m b t u
event m (swept now) = sweep m now

abbrev pub events : TokenBlacklist → List Event → TokenBlacklist
events m [] = m
events m (e ∷ es) = events (event m e) es

-- The event keeps a revocation of `jti` until `exp`: a sweep comes no later, and a revocation of the
-- same id lasts as long.
abbrev Spares : Text → ℕ → Event → Type 0
Spares jti exp (revoked j t) = (text_eq j jti ≡ false) ⊎ (exp ≤ t)
Spares jti exp (user_revoked b t u) =
    ((text_eq (b ++ codes "-access") jti ≡ false) ⊎ (exp ≤ t))
    × ((text_eq (b ++ codes "-refresh") jti ≡ false) ⊎ (exp ≤ u))
Spares jti exp (swept now) = now ≤ exp

abbrev pub AllSpare : Text → ℕ → List Event → Type 0
AllSpare jti exp [] = Unit {0}
AllSpare jti exp (e ∷ es) = Spares jti exp e × AllSpare jti exp es

-- Revoked until `exp` or later.
abbrev IsHeld : Text → ℕ → TokenBlacklist → Type 0
IsHeld jti exp m = (t : ℕ) × (lookup jti m ≡ some t) × (exp ≤ t)

insert-IsHeld :
    (m : TokenBlacklist) (jti j : Text) (exp t : ℕ)
    → (text_eq j jti ≡ false) ⊎ (exp ≤ t)
    → IsHeld jti exp m
    → IsHeld jti exp (insert j t m)
insert-IsHeld m jti j exp t safe (u, found, le) = elim (Bool-cases (text_eq j jti)) [
  | inr n ↦ (u, rw (lookup-insert j jti t m, n) found, le)
  | inl y ↦ (t, rw (lookup-insert j jti t m, y) refl, ground arith)
]

event-HasOneEach : (m : TokenBlacklist) (e : Event) → HasOneEach m → HasOneEach (event m e)
unfolding event
event-HasOneEach m (revoked j t) h = insert-HasOneEach m j t h
event-HasOneEach m (user_revoked b t u) h =
    insert-HasOneEach (insert (b ++ codes "-access") t m) (b ++ codes "-refresh") u
      (insert-HasOneEach m (b ++ codes "-access") t h)
event-HasOneEach m (swept now) h = sweep-HasOneEach m now h

event-IsHeld :
    (m : TokenBlacklist) (e : Event) (jti : Text) (exp : ℕ)
    → HasOneEach m
    → Spares jti exp e
    → IsHeld jti exp m
    → IsHeld jti exp (event m e)
unfolding event
event-IsHeld m (revoked j t) jti exp h safe v = insert-IsHeld m jti j exp t safe v
event-IsHeld m (user_revoked b t u) jti exp h (a, c) v =
    insert-IsHeld (insert (b ++ codes "-access") t m) jti (b ++ codes "-refresh") exp u c
      (insert-IsHeld m jti (b ++ codes "-access") exp t a v)
event-IsHeld m (swept now) jti exp h early (u, found, le) =
    (u, lookup-sweep m now jti h ∙ ap (unexpired now) found ∙ ground arith, le)

events-IsHeld :
    (m : TokenBlacklist) (es : List Event) (jti : Text) (exp : ℕ)
    → HasOneEach m
    → AllSpare jti exp es
    → IsHeld jti exp m
    → IsHeld jti exp (events m es)
events-IsHeld m [] jti exp h s v = v
events-IsHeld m (e ∷ es) jti exp h s v =
    events-IsHeld (event m e) es jti exp (event-HasOneEach m e h) s.1
      (event-IsHeld m e jti exp h s.0 v)

-- A token that is revoked stays revoked until its expiry, whatever other tokens are revoked: through
-- any events in which each sweep comes no later than the expiry, and each later revocation of the
-- same id, on its own or with its user, lasts at least as long.
pub revoked_until_expiry :
    (m : TokenBlacklist) (jti : Text) (exp : ℕ) (es : List Event)
    → HasOneEach m
    → AllSpare jti exp es
    → is_revoked (events (revoke m jti exp) es) jti ≡ true
unfolding revoke is_revoked
revoked_until_expiry m jti exp es h s =
    let (t, found, le) =
      events-IsHeld (insert jti exp m) es jti exp (insert-HasOneEach m jti exp h) s
        (exp, lookup-insert_self jti exp m, (omega arith)) in
    rw (is_revoked, found) refl

-- A sweep frees exactly the ids that have expired: afterwards an id is revoked if and only if it was
-- revoked with an expiry that is not before the sweep.
pub sweep_exact :
    (m : TokenBlacklist) (now : ℕ) (jti : Text)
    → HasOneEach m
    → (is_revoked (sweep m now) jti ≡ true) ↔ ((t : ℕ) × (lookup jti m ≡ some t) × (now ≤ t))
unfolding is_revoked
sweep_exact m now jti h =
    let e = lookup-sweep m now jti h in
    (
      λ r. left (lookup jti m) refl (sym (ap (λ o. is_some o) e) ∙ r),
      λ (t, found, le). ap (λ o. is_some o) (e ∙ ap (unexpired now) found) ∙ ground arith,
    )
  where
    left :
        (o : Option ℕ)
        → lookup jti m ≡ o
        → is_some (unexpired now o) ≡ true
        → (t : ℕ) × (lookup jti m ≡ some t) × (now ≤ t)
    left none f r = absurd (ground arith)
    left (some t) f r = (t, f, ground arith)
