-- ===== src/RateLimit/Daily.antt =====
-- What pkg/ratelimit/ratelimit.go promises of the daily limit.
use operator_os.Base.{
  ℕ, ◌+◌, ◌-◌, ◌≤◌, ◌<◌, ◌≡◌, ◌↔◌, ◌≢◌, refl, ◌∙◌, true, false, Option, none, some, List, [], ◌∷◌,
  Text, lookup, lookup-insert_self, lookup-insert_ne, ltb, leb, if◌then◌else◌, Option-cases, inl,
  inr, arith,
}
use operator_os.RateLimit.Bucket.{
  Float64, Bucket, allow, refill, reset_day, refilled_tokens, retry_after, day, truncate,
}
use operator_os.RateLimit.Limiter.{
  Limiter, TierConfig, Load, allow_at, get_bucket, set_user_plan, fresh_bucket, loaded, not_found,
  load_error, restore_user,
}

module _ (fl : Float64) where
  open fl use {Float, of_int, lt_one}

  -- How many of the requests at these times are allowed.
  abbrev pub allowed : List ℕ → Bucket Float → ℕ
  allowed [] b = 0
  allowed (t ∷ ts) b =
      let (ok, b') = allow fl t b in let rest = allowed ts b' in (if ok then 1 else 0) + rest

  abbrev pub AllBefore : ℕ → List ℕ → Type 0
  AllBefore end [] = Unit {0}
  AllBefore end (t ∷ ts) = (t < end) × AllBefore end ts

  allow_in_day :
      (t : ℕ) (b : Bucket Float)
      → 0 < b.daily
      → t < b.day_start + day
      → ((allow fl t b).1.daily ≡ b.daily)
        × ((allow fl t b).1.day_start ≡ b.day_start)
        × ((allow fl t b).1.day_count ≡ b.day_count + (if (allow fl t b).0 then 1 else 0))
        × (((allow fl t b).0 ≡ true) → b.day_count < b.daily)
  unfolding allow
  allow_in_day t b d before = ground arith

  -- Until a day after the start of a bucket's day, whatever the tokens, at most as many requests are
  -- allowed as the daily limit, if there is one, leaves.
  pub allowed_in_day :
      (ts : List ℕ) (b : Bucket Float)
      → 0 < b.daily
      → AllBefore (b.day_start + day) ts
      → allowed ts b ≤ b.daily - b.day_count
  allowed_in_day [] b d before = omega arith
  allowed_in_day (t ∷ ts) b d before =
      let b' = (allow fl t b).1 in
      let (same, start, count, room) = allow_in_day t b d before.0 in
      let rest = allowed_in_day ts b' (rw same d) (rw start before.1) in ground arith

  -- When the refilled bucket has a token, the time to wait is zero exactly if a request is allowed.
  pub retry_after_exact :
      (now : ℕ) (b : Bucket Float)
      → lt_one (refilled_tokens fl now b) ≡ false
      → (retry_after fl now b ≡ 0) ↔ ((allow fl now b).0 ≡ true)
  unfolding allow retry_after
  retry_after_exact now b token = (λ h. ground arith, λ h. ground arith)

  restore_user-frame :
      (load : Load Float) (user other : Text) (l : Limiter Float)
      → user ≢ other
      → lookup other (restore_user fl load user l).1.buckets ≡ lookup other l.buckets
  unfolding restore_user
  restore_user-frame not_found user other l ne = refl
  restore_user-frame load_error user other l ne = refl
  restore_user-frame (loaded tier s) user other l ne = elim (Option-cases (lookup tier l.tiers)) [
    | inl e ↦ rw (e, restore_user) refl
    | inr (c, e) ↦ rw (e, restore_user) (lookup-insert_ne user other _ l.buckets ne)
  ]

  get_bucket-frame :
      (load : Option (Load Float)) (user other : Text) (l : Limiter Float)
      → user ≢ other
      → lookup other (get_bucket fl load user l).1.buckets ≡ lookup other l.buckets
  unfolding get_bucket
  get_bucket-frame load user other l ne = elim (Option-cases (lookup user l.buckets)) [
    | inr (b, e) ↦ rw (e, get_bucket) refl
    | inl e ↦ rw (e, get_bucket) (loading load)
  ]
    where
      loading :
          (o : Option (Load Float))
          → lookup other
              (elim o as (λ x. Option (Bucket Float) × Limiter Float) [
                | none ↦ (none, l)
                | some found ↦ (
                  lookup user (restore_user fl found user l).1.buckets,
                  (restore_user fl found user l).1,
                )
              ]).1.buckets
            ≡ lookup other l.buckets
      loading none = refl
      loading (some found) = restore_user-frame found user other l ne

  -- A request of one user leaves the bucket of every other user as it was.
  pub allow_at_frame :
      (load : Option (Load Float)) (user other : Text) (now : ℕ) (l : Limiter Float)
      → user ≢ other
      → lookup other (allow_at fl load user now l).1.buckets ≡ lookup other l.buckets
  unfolding allow_at
  allow_at_frame load user other now l ne =
      let g = get_bucket-frame load user other l ne in
      let l' = (get_bucket fl load user l).1 in
      elim (Option-cases (get_bucket fl load user l).0) [
        | inl e ↦ rw (e, allow_at) g
        | inr (b, e) ↦
            rw (e, allow_at) (lookup-insert_ne user other (allow fl now b).1 l'.buckets ne ∙ g)
      ]

  fresh_bucket_allows :
      (now : ℕ) (c : TierConfig Float)
      → lt_one (of_int c.burst_size) ≡ false
      → (allow fl now (fresh_bucket fl now c)).0 ≡ true
  unfolding allow refilled_tokens
  fresh_bucket_allows now c burst =
      let b = fresh_bucket fl now c in
      let stays : ltb now now ≡ false = ground arith in
      let same : refill fl now b ≡ b = rw stays refl in
      let day_goes_on : leb (truncate now + day) now ≡ false = ground arith in
      let kept : reset_day fl now b ≡ b = ground (arith, day_goes_on) in
      rw same (rw kept (ground (arith, burst)))

  -- Setting the plan that a user already has, or any other, gives a new bucket: whatever was used
  -- before, a request at the same time is allowed, if the tier's burst is at least one token.
  pub set_user_plan_renews :
      (user tier : Text) (now : ℕ) (l : Limiter Float) (c : TierConfig Float)
      → lookup tier l.tiers ≡ some c
      → lt_one (of_int c.burst_size) ≡ false
      → (allow_at fl none user now (set_user_plan fl user tier now l).1).0 ≡ none
  unfolding allow_at set_user_plan
  set_user_plan_renews user tier now l c known burst =
      let b : Bucket Float = fresh_bucket fl now c in
      let got = lookup-insert_self user b l.buckets in
      rw (known, set_user_plan)
        (rw (got, allow_at, get_bucket) (rw (fresh_bucket_allows now c burst) refl))
