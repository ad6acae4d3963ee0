-- ===== src/Channels/Ring.antt =====
-- The ring of pkg/channels/wecom/dedupe.go and its invariant.
use native.Mathlib.Nat.{mod-eq_of_lt, mod_self}
use operator_os.Base.{
  ℕ, zero, suc, ◌+◌, ◌%◌, ◌<◌, ◌≡◌, ◌≢◌, refl, sym, ap, ◌∙◌, Bool, true, false, Option, none, some,
  List, [], ◌∷◌, Text, text_eq, text_eq_iff, lookup, insert, lookup-insert, lookup-insert_self,
  lookup-delete, length, get_elem?, set, ◌==◌, if◌then◌else◌, Bool-cases, Option-cases, ◌⊎◌, inl,
  inr, arith,
}
use operator_os.Channels.Dedupe.{MessageDeduplicator, is_marked, evict, mark_message_processed}

pub get-set :
    (l : List Text) (i j : ℕ) (a : Text)
    → i < length l
    → get_elem? (set l i a) j ≡ (if i == j then some a else get_elem? l j)
get-set [] i j a h = absurd (omega arith)
get-set (x ∷ l) zero zero a h = refl
get-set (x ∷ l) zero (suc j) a h = ground arith
get-set (x ∷ l) (suc i) zero a h = ground arith
get-set (x ∷ l) (suc i) (suc j) a h = ground (arith, get-set l i j a (omega arith))

pub length-set : (l : List Text) (i : ℕ) (a : Text) → length (set l i a) ≡ length l
length-set [] i a = refl
length-set (x ∷ l) zero a = refl
length-set (x ∷ l) (suc i) a = ap suc (length-set l i a)

-- The next index is one more, or 0 at the end.
pub advance :
    (i m : ℕ) → i < m → ((i + 1 ≡ m) × ((i + 1) % m ≡ 0)) ⊎ ((i + 1 < m) × ((i + 1) % m ≡ i + 1))
advance i m h = elim (Bool-cases (i + 1 == m)) [
  | inl y ↦ let e : i + 1 ≡ m = ground arith in inl (e, ap (λ k. k % m) e ∙ mod_self m)
  | inr n ↦ let l : i + 1 < m = ground arith in inr (l, mod-eq_of_lt l)
]

-- The ring is as long as `max`, its ids are in the map, and no id stands in it twice.
pub record IsRing (d : MessageDeduplicator) : Type 0 where
  pub size : length d.ring ≡ d.max
  pub inside : d.idx < d.max
  pub marked : (i : ℕ) (x : Text) → get_elem? d.ring i ≡ some x → (x ≡ []) ⊎ (is_marked d x ≡ true)
  pub once :
      (i j : ℕ) (x : Text)
      → get_elem? d.ring i ≡ some x
      → get_elem? d.ring j ≡ some x
      → (x ≡ []) ⊎ (i ≡ j)

-- The state after a new message, where `oldest` stood at the index.
abbrev pub after_mark : MessageDeduplicator → Text → Text → MessageDeduplicator
after_mark d id oldest = record d {
  msgs = insert id true (evict oldest d.msgs);
  ring = set d.ring d.idx id;
  idx = (d.idx + 1) % d.max;
}

after_mark_id :
    (d : MessageDeduplicator) (id oldest : Text) → is_marked (after_mark d id oldest) id ≡ true
unfolding is_marked
after_mark_id d id oldest = rw (is_marked, lookup-insert_self id true (evict oldest d.msgs)) refl

after_mark_other :
    (d : MessageDeduplicator) (id oldest x : Text)
    → is_marked d x ≡ true
    → (oldest ≡ []) ⊎ (text_eq oldest x ≡ false)
    → is_marked (after_mark d id oldest) x ≡ true
unfolding is_marked
after_mark_other d id oldest x h free =
    rw (is_marked, lookup-insert id x true (evict oldest d.msgs))
      (elim (Bool-cases (text_eq id x)) [
        | inl y ↦ rw y refl
        | inr n ↦ rw n (ap found (stays oldest free) ∙ h)
      ])
  where
    found : Option Bool → Bool
    found none = false
    found (some b) = b

    stays :
        (o : Text) → (o ≡ []) ⊎ (text_eq o x ≡ false) → lookup x (evict o d.msgs) ≡ lookup x d.msgs
    stays [] e = refl
    stays (c ∷ o) (inl e) = absurd (ground arith)
    stays (c ∷ o) (inr e) = rw (lookup-delete (c ∷ o) x d.msgs, e) refl

pub mark_cases :
    (d : MessageDeduplicator) (id : Text)
    → IsRing d
    → ((is_marked d id ≡ true) × (mark_message_processed d id ≡ some (false, d)))
      ⊎ ((is_marked d id ≡ false)
          × ((oldest : Text) × (get_elem? d.ring d.idx ≡ some oldest)
              × (mark_message_processed d id ≡ some (true, after_mark d id oldest))))
unfolding mark_message_processed
mark_cases d id v = elim (Bool-cases (is_marked d id)) [
  | inl y ↦ inl (y, rw y refl)
  | inr n ↦ elim (Option-cases (get_elem? d.ring d.idx)) [
    | inl e ↦ absurd (in_range d.ring d.idx e (let a = v.size in let b = v.inside in omega arith))
    | inr (o, e) ↦ inr (n, (o, e, rw (n, mark_message_processed) (rw e refl)))
  ]
]
  where
    in_range : (l : List Text) (i : ℕ) → get_elem? l i ≡ none → i < length l → ⊥
    in_range [] i e h = absurd (omega arith)
    in_range (x ∷ l) zero e h = cc
    in_range (x ∷ l) (suc i) e h = in_range l i e (omega arith)

put_get :
    (d : MessageDeduplicator) (id oldest : Text) (i : ℕ) (x : Text)
    → IsRing d
    → get_elem? (after_mark d id oldest).ring i ≡ some x
    → ((d.idx ≡ i) × (x ≡ id)) ⊎ ((d.idx ≢ i) × (get_elem? d.ring i ≡ some x))
put_get d id oldest i x v h =
    let size = v.size in
    let inside = v.inside in
    let g : (if d.idx == i then some id else get_elem? d.ring i) ≡ some x =
      sym (get-set d.ring d.idx i id (omega arith)) ∙ h in
    elim (Bool-cases (d.idx == i)) [
      | inl y ↦ inl (ground arith, ap (λ o. or_id o) (sym (rw y at g)))
      | inr n ↦ inr (ground arith, rw n at g)
    ]
  where
    or_id : Option Text → Text
    or_id none = id
    or_id (some t) = t

pub after_mark-IsRing :
    (d : MessageDeduplicator) (id oldest : Text)
    → IsRing d
    → is_marked d id ≡ false
    → get_elem? d.ring d.idx ≡ some oldest
    → IsRing (after_mark d id oldest)
after_mark-IsRing d id oldest v fresh at_idx = record {
  size = length-set d.ring d.idx id ∙ v.size;
  inside = elim (advance d.idx d.max v.inside) [
    | inl (a, b) ↦ let i = v.inside in omega arith
    | inr (a, b) ↦ omega arith
  ];
  marked = λ i x h. elim (put_get d id oldest i x v h) [
    | inl (e, same) ↦ inr (rw same (after_mark_id d id oldest))
    | inr (ne, g) ↦ elim (v.marked i x g) [
      | inl empty ↦ inl empty
      | inr m ↦ elim (Bool-cases (text_eq oldest x)) [
        | inr n ↦ inr (after_mark_other d id oldest x m (inr n))
        | inl y ↦
            let o : oldest ≡ x = (text_eq_iff oldest x).0 y in
            elim (v.once d.idx i x (at_idx ∙ ap some o) g) [
              | inl empty ↦ inl empty
              | inr same ↦ absurd (ne same)
            ]
      ]
    ]
  ];
  once = λ i j x h k. elim (put_get d id oldest i x v h) [
    | inl (e, same) ↦ elim (put_get d id oldest j x v k) [
      | inl (f, same') ↦ inr (sym e ∙ f)
      | inr (ne, g) ↦ not_there j x same g
    ]
    | inr (ne, g) ↦ elim (put_get d id oldest j x v k) [
      | inl (f, same') ↦ not_there i x same' g
      | inr (ne', g') ↦ v.once i j x g g'
    ]
  ];
}
  where
    not_there :
        {P : Type 0} (i : ℕ) (x : Text) → x ≡ id → get_elem? d.ring i ≡ some x → (x ≡ []) ⊎ P
    not_there i x same g = elim (v.marked i x g) [
      | inl empty ↦ inl empty
      | inr m ↦ let h : is_marked d id ≡ true = rw same at m in absurd (ground arith)
    ]
