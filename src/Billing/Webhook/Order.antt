-- ===== src/Billing/Webhook/Order.antt =====
-- pkg/billing/webhook.go on the two events of a purchase, in both orders.
use operator_os.Base.{
  ◌≡◌, refl, sym, ap, ◌∙◌, true, false, Option, none, some, List, ◌∷◌, codes, text_eq, text_eq_refl,
  is_empty, arith,
}
use operator_os.Billing.Plans.{PlanId, starter, BillingInterval, valid_plan_id}
use operator_os.Billing.Subscriptions.{
  SubscriptionStatus, active, trialing, past_due, paused, canceled, expired, Subscription,
  not_found, find_by_id, get_by_user_id, create, write_rows, write_row, valid_subscription_status,
}
use operator_os.Billing.Webhook.{
  Request, PlanPriceMap, StripeEvent, StripeCheckoutSession, StripeSubscription, checkout_completed,
  subscription_updated, done, store_error, find_by_stripe_sub_id, newest_with, or_first,
  process_event, handle_checkout_completed, handle_subscription_updated, written, rows_after,
  on_found, new_subscription, synchronised, priced_plan, map_stripe_status,
}
use operator_os.Billing.Webhook.Late.{find_by_id-write_rows, on_found-some, written-done}

-- The table after an event.
abbrev pub step : PlanPriceMap → Request → StripeEvent → List Subscription → List Subscription
step prices req e rows = rows_after (process_event prices req e rows) rows

or_first-none : (a b : Option Subscription) → or_first a b ≡ none → a ≡ none
or_first-none none b h = refl
or_first-none (some x) b h = absurd (ground arith)

module _ (prices : PlanPriceMap) (req : Request) (session : StripeCheckoutSession)
    (s : StripeSubscription) (rows : List Subscription) (plan : PlanId) (interval : BillingInterval)
    (status : SubscriptionStatus)
    (is_subscription : text_eq session.mode (codes "subscription") ≡ true)
    (has_subscription : is_empty session.subscription_id ≡ false)
    (has_user : is_empty session.client_reference_id ≡ false)
    (same_id : text_eq session.subscription_id s.id ≡ true) (reads : req.reads ≡ true)
    (writes : req.exec ≡ true) (new_user : get_by_user_id session.client_reference_id rows ≡ none)
    (new_stripe_id : find_by_stripe_sub_id true s.id rows ≡ none)
    (has_id : is_empty req.new_id ≡ false) (fresh_id : find_by_id req.new_id rows ≡ none)
    (paid : priced_plan prices s.price_id ≡ some (plan, interval))
    (valid_plan : valid_plan_id plan ≡ true) (known : map_stripe_status s.status ≡ some status)
    (valid_status : valid_subscription_status status ≡ true) where
  abbrev bought : Subscription
  bought = record (new_subscription req session) { created_at = req.now; updated_at = req.now }

  checkout_stores :
      process_event prices req (checkout_completed session) rows ≡ done (bought ∷ rows)
  unfolding process_event handle_checkout_completed create valid_plan_id valid_subscription_status
  checkout_stores =
      rw (is_subscription, has_subscription, has_user, reads, new_user, has_id, fresh_id, writes)
        refl

  update_misses : process_event prices req (subscription_updated s) rows ≡ store_error not_found
  unfolding process_event handle_subscription_updated
  update_misses = rw (reads, new_stripe_id, on_found) refl

  found_again : find_by_stripe_sub_id req.reads s.id (bought ∷ rows) ≡ some bought
  unfolding find_by_stripe_sub_id newest_with
  found_again =
      let n : newest_with active s.id rows ≡ none =
        or_first-none (newest_with active s.id rows)
          (or_first (newest_with trialing s.id rows) (
            or_first (newest_with past_due s.id rows) (
              or_first (newest_with paused s.id rows)
                (or_first (newest_with canceled s.id rows) (newest_with expired s.id rows)))))
          new_stripe_id in
      rw (reads, same_id, n) refl

  abbrev sub' : Subscription
  sub' = synchronised prices s bought

  sub'-plan : (sub'.plan_id ≡ plan) × (sub'.status ≡ status) × (sub'.id ≡ req.new_id)
  sub'-plan = (rw paid refl, rw paid (rw known refl), rw paid (rw known refl))

  found_by_id : find_by_id sub'.id (bought ∷ rows) ≡ some bought
  unfolding find_by_id
  found_by_id = rw (sub'-plan.2, text_eq_refl req.new_id) refl

  update_finds :
      process_event prices req (subscription_updated s) (bought ∷ rows)
      ≡ done (write_rows sub' req.now (bought ∷ rows))
  unfolding process_event handle_subscription_updated
  update_finds =
      on_found-some req s.id (bought ∷ rows)
        (λ x. written req (bought ∷ rows) (synchronised prices s x)) bought found_again
      ∙ written-done req (bought ∷ rows) sub' bought
          (ap valid_subscription_status (sub'-plan.1) ∙ valid_status)
          (ap valid_plan_id (sub'-plan.0) ∙ valid_plan) writes found_by_id

  -- A new user buys a plan; the queries and the writes go through. When the checkout is reported before
  -- the subscription, the user's row has the plan that was bought and the status of Stripe; in the other
  -- order the report of the subscription is lost, and the row has the starter plan.
  pub purchase_order :
      ((r : Subscription) × (find_by_id req.new_id (
            step prices req
              (subscription_updated s)
              (step prices req (checkout_completed session) rows))
          ≡ some r)
        × (r.plan_id ≡ plan)
        × (r.status ≡ status))
      × ((r : Subscription) × (find_by_id req.new_id (
              step prices req
                (checkout_completed session)
                (step prices req (subscription_updated s) rows))
            ≡ some r)
          × (r.plan_id ≡ starter)
          × (r.status ≡ active))
  purchase_order =
      let chk : step prices req (checkout_completed session) rows ≡ bought ∷ rows =
        ap (λ o. rows_after o rows) checkout_stores in
      let upd : step prices req (subscription_updated s) rows ≡ rows =
        ap (λ o. rows_after o rows) update_misses in
      (
        (
          write_row sub' req.now bought,
          ap (λ rs. find_by_id req.new_id (step prices req (subscription_updated s) rs)) chk
              ∙ ap (λ o. find_by_id req.new_id (rows_after o (bought ∷ rows))) update_finds
              ∙ ap (λ i. find_by_id i (write_rows sub' req.now (bought ∷ rows))) (sym (sub'-plan.2))
              ∙ find_by_id-write_rows sub' req.now (bought ∷ rows) bought found_by_id,
          sub'-plan.0,
          sub'-plan.1,
        ),
        (
          bought,
          ap (λ rs. find_by_id req.new_id (step prices req (checkout_completed session) rs)) upd
              ∙ ap (find_by_id req.new_id) chk
              ∙ ap (λ i. find_by_id i (bought ∷ rows)) (sym (sub'-plan.2))
              ∙ found_by_id,
          refl,
          refl,
        ),
      )
