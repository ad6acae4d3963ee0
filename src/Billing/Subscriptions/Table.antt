-- ===== src/Billing/Subscriptions/Table.antt =====
-- The table of pkg/billing/subscription.go: what a statement changes and what it keeps.
use operator_os.Base.{
  ℕ, ◌≡◌, refl, ap, ◌∙◌, Bool, true, false, none, some, List, [], ◌∷◌, Text, text_eq, text_eq_iff,
  text_eq_refl, if◌then◌else◌, Bool-cases, Option-cases, ◌⊎◌, inl, inr, arith,
}
use mathlib.Core.Option
use operator_os.Billing.Subscriptions.{
  Subscription, stored, find_by_id, get_by_user_id, create, write_row, write_rows, update, is_found,
}

-- No two rows have one id.
abbrev pub UniqueIds : List Subscription → Type 0
UniqueIds [] = Unit {0}
UniqueIds (r ∷ rs) = (find_by_id r.id rs ≡ none) × UniqueIds rs

-- What UPDATE does to a row.
abbrev rewrite_row : Subscription → ℕ → Subscription → Subscription
rewrite_row sub now r = if text_eq r.id sub.id then write_row sub now r else r

find-write_rows :
    (sub : Subscription) (now : ℕ) (i : Text) (rows : List Subscription)
    → find_by_id i (write_rows sub now rows) ≡ Option.map (rewrite_row sub now) (find_by_id i rows)
unfolding find_by_id write_rows
find-write_rows sub now i [] = refl
find-write_rows sub now i (r ∷ rs) = ground (arith, find-write_rows sub now i rs)

user-write_rows :
    (sub : Subscription) (now : ℕ) (u : Text) (rows : List Subscription)
    → get_by_user_id u (write_rows sub now rows)
      ≡ Option.map (rewrite_row sub now) (get_by_user_id u rows)
unfolding get_by_user_id write_rows
user-write_rows sub now u [] = refl
user-write_rows sub now u (r ∷ rs) = ground (arith, user-write_rows sub now u rs)

update_stored :
    (exec : Bool) (now : ℕ) (sub : Subscription) (rows rows' : List Subscription)
    → update exec now sub rows ≡ stored rows'
    → (rows' ≡ write_rows sub now rows) × (is_found (find_by_id sub.id rows) ≡ true)
unfolding update
update_stored exec now sub rows rows' h = ground arith

found_row :
    (i : Text) (rows : List Subscription) (r : Subscription) → find_by_id i rows ≡ some r → r.id ≡ i
unfolding find_by_id
found_row i [] r h = cc
found_row i (x ∷ rs) r h = ground (arith, text_eq_iff x.id i, found_row i rs r)

rewritten :
    (sub r : Subscription) (now : ℕ) → r.id ≡ sub.id → rewrite_row sub now r ≡ write_row sub now r
rewritten sub r now e = rw (e, text_eq_refl sub.id) refl

-- An UPDATE that goes through finds the row with the id, sets its columns and keeps its id, its user
-- and its creation time; the row of every other id stays as it was.
pub update_writes :
    (exec : Bool) (now : ℕ) (sub : Subscription) (rows rows' : List Subscription) (i : Text)
    → update exec now sub rows ≡ stored rows'
    → ((r : Subscription) × (find_by_id sub.id rows ≡ some r)
        × (find_by_id sub.id rows' ≡ some (write_row sub now r)))
      × ((sub.id ≡ i) ⊎ (find_by_id i rows' ≡ find_by_id i rows))
update_writes exec now sub rows rows' i h =
    let (e, f) = update_stored exec now sub rows rows' h in
    (
      written e f,
      elim (Bool-cases (text_eq sub.id i)) [
        | inl y ↦ inl ((text_eq_iff sub.id i).0 y)
        | inr n ↦ inr (ap (find_by_id i) e ∙ find-write_rows sub now i rows ∙ untouched n)
      ],
    )
  where
    written :
        rows' ≡ write_rows sub now rows
        → is_found (find_by_id sub.id rows) ≡ true
        → (r : Subscription) × (find_by_id sub.id rows ≡ some r)
          × (find_by_id sub.id rows' ≡ some (write_row sub now r))
    written e f = elim (Option-cases (find_by_id sub.id rows)) [
      | inl nothing ↦ absurd (ground arith)
      | inr (r, found) ↦ (
        r,
        found,
        ap (find_by_id sub.id) e
            ∙ find-write_rows sub now sub.id rows
            ∙ ap (Option.map (rewrite_row sub now)) found
            ∙ ap some (rewritten sub r now (found_row sub.id rows r found)),
      )
    ]

    untouched :
        text_eq sub.id i ≡ false
        → Option.map (rewrite_row sub now) (find_by_id i rows) ≡ find_by_id i rows
    untouched n = elim (Option-cases (find_by_id i rows)) [
      | inl nothing ↦ rw nothing
      | inr (r, found) ↦ rw found (ap some (kept r (found_row i rows r found) n))
    ]
      where
        kept : (r : Subscription) → r.id ≡ i → text_eq sub.id i ≡ false → rewrite_row sub now r ≡ r
        kept r e m = ground (arith, text_eq_iff r.id sub.id, text_eq_iff sub.id i)

write_rows-UniqueIds :
    (sub : Subscription) (now : ℕ) (rows : List Subscription)
    → UniqueIds rows
    → UniqueIds (write_rows sub now rows)
unfolding write_rows
write_rows-UniqueIds sub now [] u = tt
write_rows-UniqueIds sub now (r ∷ rs) u = (
  rw (same_id (text_eq r.id sub.id))
      (find-write_rows sub now r.id rs ∙ ap (Option.map (rewrite_row sub now)) u.0),
  write_rows-UniqueIds sub now rs u.1,
)
  where
    same_id : (b : Bool) → (if b then write_row sub now r else r).id ≡ r.id
    same_id true = refl
    same_id false = refl

create_stored :
    (exec : Bool) (now : ℕ) (sub : Subscription) (rows rows' : List Subscription)
    → create exec now sub rows ≡ stored rows'
    → (r : Subscription) × (rows' ≡ r ∷ rows) × (r.id ≡ sub.id) × (find_by_id sub.id rows ≡ none)
unfolding create
create_stored exec now sub rows rows' h = ground arith

-- INSERT and UPDATE keep the ids of the rows distinct.
pub table-UniqueIds :
    (exec : Bool) (now : ℕ) (sub : Subscription) (rows rows' : List Subscription)
    → UniqueIds rows
    → (create exec now sub rows ≡ stored rows') ⊎ (update exec now sub rows ≡ stored rows')
    → UniqueIds rows'
table-UniqueIds exec now sub rows rows' u (inl h) =
    let (r, e, same, fresh) = create_stored exec now sub rows rows' h in rw e (rw same fresh, u)
table-UniqueIds exec now sub rows rows' u (inr h) =
    rw ((update_stored exec now sub rows rows' h).0) (write_rows-UniqueIds sub now rows u)
