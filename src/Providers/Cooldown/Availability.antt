-- ===== src/Providers/Cooldown/Availability.antt =====
-- When a provider may be used, from pkg/providers/cooldown.go.
use operator_os.Base.{
  ℕ, ◌+◌, ◌≤◌, ◌<◌, ◌≡◌, refl, ◌≢◌, ◌↔◌, Bool, true, false, Option-cases, Text, lookup,
  lookup-insert_self, lookup-insert_ne, if◌then◌else◌, arith, inl, inr, leb,
}
use operator_os.Providers.Types.{FailoverReason, billing, reason_eq}
use operator_os.Providers.Cooldown.{
  CooldownEntry, CooldownTracker, entry_available, entry_remaining, is_available,
  cooldown_remaining, mark_failure, mark_success, fail_entry, succeed_entry, get_or_create,
  error_count, failure_count, calculate_standard_cooldown, calculate_billing_cooldown,
}

entry_wait :
    (e : CooldownEntry) (now d : ℕ) → entry_available e (now + d) ≡ leb (entry_remaining e now) d
unfolding entry_available entry_remaining
entry_wait e now d = ground arith

wait_exact : (b : ℕ) (d : ℕ) (t : Bool) → t ≡ leb b d → (t ≡ true) ↔ (b ≤ d)
wait_exact b d t h = ground arith

-- `CooldownRemaining` is exactly the time to wait: with the tracker unchanged, the provider is
-- available after `d` nanoseconds if and only if the remaining time at `now` is at most `d`.
pub cooldown_remaining_exact :
    (ct : CooldownTracker) (p : Text) (now d : ℕ)
    → (is_available ct p (now + d) ≡ true) ↔ (cooldown_remaining ct p now ≤ d)
unfolding is_available cooldown_remaining
cooldown_remaining_exact ct p now d = elim (Option-cases (lookup p ct.entries)) [
  | inl e ↦ rw (e, is_available, cooldown_remaining) ((λ h. omega arith), (λ h. refl))
  | inr (x, e) ↦
      rw (e, is_available, cooldown_remaining)
        (wait_exact (entry_remaining x now) d (entry_available x (now + d)) (entry_wait x now d))
]

-- The wait that a provider's present counts call for after a failure with the reason given.
abbrev pub penalty : CooldownTracker → Text → FailoverReason → ℕ
penalty ct p r =
    if reason_eq r billing
    then calculate_billing_cooldown (failure_count ct p billing)
    else calculate_standard_cooldown (error_count ct p)

abbrev entry_penalty : CooldownEntry → FailoverReason → ℕ
entry_penalty e r =
    if reason_eq r billing
    then calculate_billing_cooldown (e.failure_counts billing)
    else calculate_standard_cooldown e.error_count

fail_entry_blocks :
    (window : ℕ) (r : FailoverReason) (now t : ℕ) (e : CooldownEntry)
    → t < now + entry_penalty (fail_entry window r now e) r
    → entry_available (fail_entry window r now e) t ≡ false
unfolding fail_entry entry_available
fail_entry_blocks window r now t e h = ground arith

-- After `MarkFailure` the provider is unavailable until the cooldown of its new count is over: the
-- billing cooldown of the billing count for a billing failure, else the standard cooldown of the
-- error count.
pub mark_failure_blocks :
    (ct : CooldownTracker) (p : Text) (r : FailoverReason) (now t : ℕ)
    → t < now + penalty (mark_failure ct p r now) p r
    → is_available (mark_failure ct p r now) p t ≡ false
unfolding mark_failure is_available error_count failure_count
mark_failure_blocks ct p r now t =
    rw
      (
        lookup-insert_self p (fail_entry ct.failure_window r now (get_or_create ct p)) ct.entries,
        is_available,
        error_count,
        failure_count,
      )
      (fail_entry_blocks ct.failure_window r now t (get_or_create ct p))

module _ (ct : CooldownTracker) (p q : Text) (other : p ≢ q) where
  -- `MarkFailure` and `MarkSuccess` leave the entry of every other provider as it was.
  pub mark_failure_frame :
      (r : FailoverReason) (now : ℕ)
      → lookup q (mark_failure ct p r now).entries ≡ lookup q ct.entries
  unfolding mark_failure
  mark_failure_frame r now = lookup-insert_ne p q _ ct.entries other

  pub mark_success_frame : lookup q (mark_success ct p).entries ≡ lookup q ct.entries
  unfolding mark_success
  mark_success_frame = elim (Option-cases (lookup p ct.entries)) [
    | inl e ↦ rw (e, mark_success)
    | inr (x, e) ↦ rw (e, mark_success) (lookup-insert_ne p q (succeed_entry x) ct.entries other)
  ]

succeed_entry_clears :
    (e : CooldownEntry) (t : ℕ) (r : FailoverReason)
    → (entry_available (succeed_entry e) t ≡ true)
      × ((succeed_entry e).error_count ≡ 0)
      × ((succeed_entry e).failure_counts r ≡ 0)
unfolding succeed_entry entry_available
succeed_entry_clears e t r = ground arith

-- `MarkSuccess` makes the provider available at once and clears its counters.
pub mark_success_clears :
    (ct : CooldownTracker) (p : Text) (t : ℕ) (r : FailoverReason)
    → (is_available (mark_success ct p) p t ≡ true)
      × (error_count (mark_success ct p) p ≡ 0)
      × (failure_count (mark_success ct p) p r ≡ 0)
unfolding mark_success is_available error_count failure_count
mark_success_clears ct p t r = elim (Option-cases (lookup p ct.entries)) [
  | inl e ↦
      rw (e, mark_success) (rw (e, is_available, error_count, failure_count) (refl, refl, refl))
  | inr (x, e) ↦
      rw (e, mark_success)
        (rw
          (
            lookup-insert_self p (succeed_entry x) ct.entries,
            is_available,
            error_count,
            failure_count,
          )
          (succeed_entry_clears x t r))
]
