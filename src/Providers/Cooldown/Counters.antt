-- ===== src/Providers/Cooldown/Counters.antt =====
-- The counters of pkg/providers/cooldown.go.
use operator_os.Base.{
  ℕ, ◌+◌, ◌≤◌, ◌≡◌, refl, ◌⊎◌, some, Option-cases, List, [], ◌∷◌, Text, text_eq, lookup, insert,
  lookup-insert, subst, sym, ◌∙◌, length, lookup-insert_self, arith, Bool-cases, inl, inr,
}
use operator_os.Providers.Types.{
  FailoverReason, auth, rate_limit, billing, timeout, format, overloaded, unknown,
}
use operator_os.Providers.Cooldown.{
  CooldownEntry, CooldownTracker, zero_entry, increment, reset_stale, mark_failure, mark_success,
  fail_entry, succeed_entry, get_or_create, error_count, new_cooldown_tracker,
}

abbrev total : (FailoverReason → ℕ) → ℕ
total f = f auth + f rate_limit + f billing + f timeout + f format + f overloaded + f unknown

-- The error count is the number of failures with all reasons, and a disabled provider is one with
-- a billing failure as its reason.
pub record IsCounted (e : CooldownEntry) : Type 0 where
  pub summed : e.error_count ≡ total e.failure_counts
  pub disabled : (e.disabled_until ≡ 0) ⊎ (e.disabled_reason ≡ some billing)

zero_entry-IsCounted : IsCounted zero_entry
zero_entry-IsCounted = record { summed = refl; disabled = inl refl }

total-increment :
    (r : FailoverReason) (f : FailoverReason → ℕ) → total (increment r f) ≡ total f + 1
total-increment r f = ground arith

reset_stale-IsCounted :
    (window now : ℕ) (e : CooldownEntry) → IsCounted e → IsCounted (reset_stale window now e)
unfolding reset_stale
reset_stale-IsCounted window now e v = ground arith

fail_entry-IsCounted :
    (window : ℕ) (r : FailoverReason) (now : ℕ) (e : CooldownEntry)
    → IsCounted e
    → IsCounted (fail_entry window r now e)
unfolding fail_entry
fail_entry-IsCounted window r now e v =
    let e' = reset_stale window now e in
    let w = reset_stale-IsCounted window now e v in
    ground (arith, w, total-increment r e'.failure_counts)

succeed_entry-IsCounted : (e : CooldownEntry) → IsCounted (succeed_entry e)
unfolding succeed_entry
succeed_entry-IsCounted e = record { summed = refl; disabled = inl refl }

-- Every entry of the tracker is counted.
pub AreCounted : CooldownTracker → Type 0
AreCounted ct = (p : Text) (e : CooldownEntry) → lookup p ct.entries ≡ some e → IsCounted e

insert-AreCounted :
    (ct : CooldownTracker) (p : Text) (e : CooldownEntry)
    → IsCounted e
    → AreCounted ct
    → AreCounted (record ct { entries = insert p e ct.entries })
unfolding AreCounted
insert-AreCounted ct p e v all q x h = elim (Bool-cases (text_eq p q)) [
  | inl same ↦
      let found : lookup q (insert p e ct.entries) ≡ some e =
        rw (lookup-insert p q e ct.entries, same) in
      let agree : e ≡ x = cc in subst IsCounted agree v
  | inr other ↦
      let kept : lookup q (insert p e ct.entries) ≡ lookup q ct.entries =
        rw (lookup-insert p q e ct.entries, other) in
      all q x (sym kept ∙ h)
]

get_or_create-IsCounted :
    (ct : CooldownTracker) (p : Text) → AreCounted ct → IsCounted (get_or_create ct p)
unfolding get_or_create AreCounted
get_or_create-IsCounted ct p all = elim (Option-cases (lookup p ct.entries)) [
  | inl e ↦ rw (e, get_or_create) zero_entry-IsCounted
  | inr (x, e) ↦ rw (e, get_or_create) (all p x e)
]

pub mark_failure-AreCounted :
    (ct : CooldownTracker) (p : Text) (r : FailoverReason) (now : ℕ)
    → AreCounted ct
    → AreCounted (mark_failure ct p r now)
unfolding mark_failure
mark_failure-AreCounted ct p r now all =
    insert-AreCounted ct p _
      (fail_entry-IsCounted ct.failure_window r now (get_or_create ct p)
        (get_or_create-IsCounted ct p all))
      all

pub mark_success-AreCounted :
    (ct : CooldownTracker) (p : Text) → AreCounted ct → AreCounted (mark_success ct p)
unfolding mark_success
mark_success-AreCounted ct p all = elim (Option-cases (lookup p ct.entries)) [
  | inl e ↦ rw (e, mark_success) all
  | inr (x, e) ↦
      rw (e, mark_success)
        (insert-AreCounted ct p (succeed_entry x) (succeed_entry-IsCounted x) all)
]

-- One call of a method that changes the tracker.
pub data Call : Type 0 where
  failure : Text → FailoverReason → ℕ → Call
  success : Text → Call

unfoldable pub step : CooldownTracker → Call → CooldownTracker
step ct (failure p r now) = mark_failure ct p r now
step ct (success p) = mark_success ct p

unfoldable pub run : CooldownTracker → List Call → CooldownTracker
run ct [] = ct
run ct (c ∷ cs) = run (step ct c) cs

run-AreCounted : (ct : CooldownTracker) (cs : List Call) → AreCounted ct → AreCounted (run ct cs)
unfolding run step
run-AreCounted ct [] all = all
run-AreCounted ct (failure p r now ∷ cs) all =
    run-AreCounted (mark_failure ct p r now) cs (mark_failure-AreCounted ct p r now all)
run-AreCounted ct (success p ∷ cs) all =
    run-AreCounted (mark_success ct p) cs (mark_success-AreCounted ct p all)

pub new-AreCounted : AreCounted new_cooldown_tracker
unfolding AreCounted new_cooldown_tracker lookup
new-AreCounted p e h = cc

-- After any calls on a new tracker, every provider's error count is the sum of its counts by
-- reason, and a provider that is disabled has the reason `billing`.
pub run-IsCounted :
    (cs : List Call) (p : Text) (e : CooldownEntry)
    → lookup p (run new_cooldown_tracker cs).entries ≡ some e
    → IsCounted e
unfolding AreCounted
run-IsCounted cs p e h = run-AreCounted new_cooldown_tracker cs new-AreCounted p e h

-- Each failure comes at most a window after the last one.
abbrev pub IsBurst : ℕ → ℕ → List ℕ → Type 0
IsBurst window last [] = Unit {0}
IsBurst window last (t ∷ ts) = (t ≤ last + window) × IsBurst window t ts

abbrev pub failures : Text → FailoverReason → List ℕ → List Call
failures p r [] = []
failures p r (t ∷ ts) = failure p r t ∷ failures p r ts

fail_entry_counts :
    (window : ℕ) (r : FailoverReason) (now : ℕ) (e : CooldownEntry)
    → now ≤ e.last_failure + window
    → ((fail_entry window r now e).error_count ≡ e.error_count + 1)
      × ((fail_entry window r now e).last_failure ≡ now)
unfolding fail_entry
fail_entry_counts window r now e h = ground arith

failed_entry :
    (ct : CooldownTracker) (p : Text) (r : FailoverReason) (t : ℕ) (e : CooldownEntry)
    → lookup p ct.entries ≡ some e
    → lookup p (mark_failure ct p r t).entries ≡ some (fail_entry ct.failure_window r t e)
unfolding mark_failure
failed_entry ct p r t e h = rw h (lookup-insert_self p _ ct.entries)

-- Failures of a provider that follow one another within the window add up: none is forgotten.
pub burst_counts :
    (ct : CooldownTracker) (p : Text) (r : FailoverReason) (ts : List ℕ) (e : CooldownEntry)
    → lookup p ct.entries ≡ some e
    → IsBurst ct.failure_window e.last_failure ts
    → error_count (run ct (failures p r ts)) p ≡ e.error_count + length ts
unfolding run step error_count mark_failure
burst_counts ct p r [] e h b = rw (h, error_count) (omega arith)
burst_counts ct p r (t ∷ ts) e h b =
    let e' = fail_entry ct.failure_window r t e in
    let (counted, seen) = fail_entry_counts ct.failure_window r t e b.0 in
    let rest =
      burst_counts (mark_failure ct p r t) p r ts e' (failed_entry ct p r t e h) (rw seen b.1) in
    omega (arith, rest, counted)
