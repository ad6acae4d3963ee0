-- ===== src/Billing/Webhook/Late.antt =====
-- pkg/billing/webhook.go on events that come late.
use operator_os.Base.{
  ℕ, ◌≡◌, refl, ap, ◌∙◌, true, false, none, some, List, [], ◌∷◌, Text, text_eq, is_empty,
  Bool-cases, inl, inr, arith,
}
use operator_os.Billing.Plans.{valid_plan_id}
use operator_os.Billing.Subscriptions.{
  past_due, canceled, Subscription, is_active, find_by_id, update, write_row, write_rows,
  valid_subscription_status,
}
use operator_os.Billing.Webhook.{
  Request, PlanPriceMap, payment_failed, Outcome, done, find_by_stripe_sub_id, process_event,
  written, rows_after, on_found,
}

pub find_by_id-write_rows :
    (sub : Subscription) (now : ℕ) (rows : List Subscription) (r : Subscription)
    → find_by_id sub.id rows ≡ some r
    → find_by_id sub.id (write_rows sub now rows) ≡ some (write_row sub now r)
unfolding find_by_id write_rows
find_by_id-write_rows sub now [] r h = absurd (ground arith)
find_by_id-write_rows sub now (x ∷ xs) r h = elim (Bool-cases (text_eq x.id sub.id)) [
  | inl y ↦
      let e : some x ≡ some r = rw y at h in
      rw (y, y) (ap (λ o. elim o [ none ↦ none | some i ↦ some (write_row sub now i) ]) e)
  | inr n ↦ rw (n) (rw n (find_by_id-write_rows sub now xs r (rw n at h)))
]

pub on_found-some :
    (req : Request) (stripe_id : Text) (rows : List Subscription) (change : Subscription → Outcome)
    (sub : Subscription)
    → find_by_stripe_sub_id req.reads stripe_id rows ≡ some sub
    → on_found req stripe_id rows change ≡ change sub
on_found-some req stripe_id rows change sub f = rw (f, on_found) refl

pub written-done :
    (req : Request) (rows : List Subscription) (sub r : Subscription)
    → valid_subscription_status sub.status ≡ true
    → valid_plan_id sub.plan_id ≡ true
    → req.exec ≡ true
    → find_by_id sub.id rows ≡ some r
    → written req rows sub ≡ done (write_rows sub req.now rows)
unfolding update
written-done req rows sub r v p x i = rw (v, p, x, i) refl

-- A canceled subscription, of a plan that is known, that is the one found by its id of Stripe: when the
-- news of a failed payment arrives after the cancellation, and the write goes through, the subscription
-- is past due, which grants access again.
pub late_failure_revives :
    (prices : PlanPriceMap) (req : Request) (stripe_id : Text) (rows : List Subscription)
    (sub r : Subscription)
    → is_empty stripe_id ≡ false
    → find_by_stripe_sub_id req.reads stripe_id rows ≡ some sub
    → find_by_id sub.id rows ≡ some r
    → valid_plan_id sub.plan_id ≡ true
    → req.exec ≡ true
    → sub.status ≡ canceled
    → (is_active sub ≡ false)
      × ((after : Subscription) × (find_by_id sub.id
              (rows_after (process_event prices req (payment_failed stripe_id) rows) rows)
            ≡ some after)
          × (after.status ≡ past_due)
          × (is_active after ≡ true))
unfolding process_event is_active valid_subscription_status
late_failure_revives prices req stripe_id rows sub r n f i p x c =
    let late = record sub { status = past_due } in
    let e : process_event prices req (payment_failed stripe_id) rows
        ≡ done (write_rows late req.now rows) =
      rw n (
        on_found-some req stripe_id rows (λ s. written req rows (record s { status = past_due }))
          sub f
        ∙ written-done req rows late r refl p x i) in
    (
      rw c refl,
      (
        write_row late req.now r,
        ap (λ o. find_by_id sub.id (rows_after o rows)) e
            ∙ find_by_id-write_rows late req.now rows r i,
        refl,
        refl,
      ),
    )
