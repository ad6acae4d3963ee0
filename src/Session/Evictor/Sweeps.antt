-- ===== src/Session/Evictor/Sweeps.antt =====
-- The sweep of pkg/session/eviction.go over the SQLite store.
use operator_os.Base.{
  ℕ, zero, suc, ◌+◌, ◌-◌, ◌≤◌, ◌≡◌, refl, false, none, some, List, [], ◌∷◌, ltb, leb, length,
  Bool-cases, Option-cases, ◌⊎◌, inl, inr, arith,
}
use operator_os.Session.Evictor.{EvictorConfig, Sweep, run_once, after_lru, sweep_lru}
use operator_os.Session.Evictor.Sqlite.{
  SessionRow, Database, fresh_rows, oldest, delete_at, delete_one, delete_oldest, evict_expired,
  evict_lru, sqlite_store, next_fails, after_statement,
}

-- Every row was updated at the cutoff or later.
abbrev pub AreFresh : ℕ → List SessionRow → Type 0
AreFresh cutoff [] = Unit {0}
AreFresh cutoff (r ∷ rs) = (cutoff ≤ r.updated_at) × AreFresh cutoff rs

fresh_rows-AreFresh : (c : ℕ) (rs : List SessionRow) → AreFresh c (fresh_rows c rs)
unfolding fresh_rows
fresh_rows-AreFresh c [] = tt
fresh_rows-AreFresh c (r ∷ rs) = elim (Bool-cases (ltb r.updated_at c)) [
  | inl y ↦ rw y (fresh_rows-AreFresh c rs)
  | inr n ↦ rw n (ground arith, fresh_rows-AreFresh c rs)
]

length-fresh_rows : (c : ℕ) (rs : List SessionRow) → length (fresh_rows c rs) ≤ length rs
unfolding fresh_rows
length-fresh_rows c [] = omega arith
length-fresh_rows c (r ∷ rs) = ground (arith, length-fresh_rows c rs)

length-delete_at :
    (t from : ℕ) (rs : List SessionRow)
    → oldest from rs ≤ t
    → (from ≤ t) ⊎ (length rs ≡ suc (length (delete_at t rs)))
unfolding oldest delete_at
length-delete_at t from [] h = inl h
length-delete_at t from (r ∷ rs) h =
    ground (arith, length-delete_at t from rs, length-delete_at t r.updated_at rs)

delete_at_shorter :
    (t : ℕ) (r : SessionRow) (rs : List SessionRow)
    → oldest r.updated_at rs ≤ t
    → length rs ≡ length (delete_at t (r ∷ rs))
unfolding delete_at
delete_at_shorter t r rs h = ground (arith, length-delete_at t r.updated_at rs h)

length-delete_one : (rs : List SessionRow) → length (delete_one rs) ≡ length rs - 1
length-delete_one [] = refl
length-delete_one (r ∷ rs) =
    let shorter = delete_at_shorter (oldest r.updated_at rs) r rs (omega arith) in omega arith

length-delete_oldest : (n : ℕ) (rs : List SessionRow) → length (delete_oldest n rs) ≡ length rs - n
unfolding delete_oldest
length-delete_oldest zero rs = omega arith
length-delete_oldest (suc n) rs =
    let ih = length-delete_oldest n (delete_one rs) in let one = length-delete_one rs in omega arith

delete_at-AreFresh : (c t : ℕ) (rs : List SessionRow) → AreFresh c rs → AreFresh c (delete_at t rs)
unfolding delete_at
delete_at-AreFresh c t [] f = tt
delete_at-AreFresh c t (r ∷ rs) f = elim (Bool-cases (leb r.updated_at t)) [
  | inl y ↦ rw y (f.1)
  | inr n ↦ rw n (f.0, delete_at-AreFresh c t rs f.1)
]

delete_oldest-AreFresh :
    (c n : ℕ) (rs : List SessionRow) → AreFresh c rs → AreFresh c (delete_oldest n rs)
unfolding delete_oldest
delete_oldest-AreFresh c zero rs f = f
delete_oldest-AreFresh c (suc n) [] f = delete_oldest-AreFresh c n [] f
delete_oldest-AreFresh c (suc n) (r ∷ rs) f =
    delete_oldest-AreFresh c n (delete_one (r ∷ rs))
      (delete_at-AreFresh c (oldest r.updated_at rs) (r ∷ rs) f)

-- What one call that goes through leaves: no more rows than the limit, unless there is none.
abbrev pub IsWithin : ℕ → List SessionRow → Type 0
IsWithin zero rs = Unit {0}
IsWithin (suc m) rs = length rs ≤ suc m

evict_lru_ok :
    (m n : ℕ) (db : Database)
    → (evict_lru m db).0 ≡ some n
    → IsWithin m (evict_lru m db).1.rows × (length (evict_lru m db).1.rows + n ≡ length db.rows)
unfolding evict_lru
evict_lru_ok zero n db h = ground arith
evict_lru_ok (suc m) n db h =
    let len = length-delete_oldest (length db.rows - suc m) db.rows in ground arith

evict_lru-AreFresh :
    (m c : ℕ) (db : Database) → AreFresh c db.rows → AreFresh c (evict_lru m db).1.rows
unfolding evict_lru
evict_lru-AreFresh zero c db f = f
evict_lru-AreFresh (suc m) c db f =
    let g = delete_oldest-AreFresh c (length db.rows - suc m) db.rows f in
    elim (Bool-cases (next_fails db.fails)) [
      | inl y ↦ rw y f
      | inr goes ↦ rw goes (elim (Bool-cases (leb (length db.rows) (suc m))) [
        | inl y ↦ rw y f
        | inr over ↦ rw over (elim (Bool-cases (next_fails (after_statement db).fails)) [
          | inl y ↦ rw y f
          | inr works ↦ rw works g
        ])
      ])
    ]

evict_expired_ok :
    (t n : ℕ) (db : Database)
    → (evict_expired t db).0 ≡ some n
    → AreFresh (db.clock - t) (evict_expired t db).1.rows
      × (length (evict_expired t db).1.rows + n ≡ length db.rows)
unfolding evict_expired
evict_expired_ok t n db h = elim (Bool-cases (next_fails db.fails)) [
  | inl y ↦ absurd (ground arith)
  | inr goes ↦
      let le = length-fresh_rows (db.clock - t) db.rows in
      rw goes (fresh_rows-AreFresh (db.clock - t) db.rows, ground arith)
]

-- What a part of a sweep leaves of the rows before it, when it reports no error.
abbrev Trims : EvictorConfig → ℕ → Database → Sweep Database → Type 0
Trims c n db out =
    IsWithin c.max_sessions out.store.rows
    × (length out.store.rows + out.total ≡ length db.rows + n)

unlimited : (m : ℕ) (rs : List SessionRow) → ltb 0 m ≡ false → IsWithin m rs
unlimited zero rs h = tt
unlimited (suc m) rs h = absurd (ground arith)

after_lru_ok :
    (c : EvictorConfig) (n : ℕ) (db : Database)
    → (after_lru sqlite_store n (evict_lru c.max_sessions db)).error ≡ none
    → Trims c n db (after_lru sqlite_store n (evict_lru c.max_sessions db))
after_lru_ok c n db h = elim (Option-cases (evict_lru c.max_sessions db).0) [
  | inl e ↦ absurd (ground (arith, e))
  | inr (k, e) ↦ let (w, l) = evict_lru_ok c.max_sessions k db e in rw e (w, (omega arith))
]

sweep_lru_ok :
    (c : EvictorConfig) (n : ℕ) (db : Database)
    → (sweep_lru sqlite_store c n db).error ≡ none
    → Trims c n db (sweep_lru sqlite_store c n db)
sweep_lru_ok c n db h = elim (Bool-cases (ltb 0 c.max_sessions)) [
  | inl y ↦ rw y (after_lru_ok c n db (rw y at h))
  | inr none_set ↦ rw none_set (unlimited c.max_sessions db.rows none_set, refl)
]

sweep_lru-AreFresh :
    (c : EvictorConfig) (n cut : ℕ) (db : Database)
    → AreFresh cut db.rows
    → AreFresh cut (sweep_lru sqlite_store c n db).store.rows
sweep_lru-AreFresh c n cut db f = elim (Bool-cases (ltb 0 c.max_sessions)) [
  | inl y ↦ rw y (elim (Option-cases (evict_lru c.max_sessions db).0) [
    | inl e ↦ rw e (evict_lru-AreFresh c.max_sessions cut db f)
    | inr (k, e) ↦ rw e (evict_lru-AreFresh c.max_sessions cut db f)
  ])
  | inr none_set ↦ rw none_set f
]

-- A sweep that reports no error leaves at most the maximum number of sessions (no maximum is set
-- as 0), none of them updated longer ago than the TTL unless the TTL is 0, and its total is the
-- number of sessions that are gone.
pub run_once_sweeps :
    (c : EvictorConfig) (db : Database)
    → (run_once sqlite_store c db).error ≡ none
    → IsWithin c.max_sessions (run_once sqlite_store c db).store.rows
      × ((c.ttl ≡ 0) ⊎ AreFresh (db.clock - c.ttl) (run_once sqlite_store c db).store.rows)
      × (length (run_once sqlite_store c db).store.rows + (run_once sqlite_store c db).total
          ≡ length db.rows)
unfolding run_once
run_once_sweeps c db h = elim (Bool-cases (ltb 0 c.ttl)) [
  | inr no_ttl ↦
      let (w, l) = sweep_lru_ok c 0 db (rw no_ttl at h) in
      rw no_ttl (w, inl (ground arith), ground arith)
  | inl y ↦ elim (Option-cases (evict_expired c.ttl db).0) [
    | inl e ↦ absurd (ground (arith, e))
    | inr (k, e) ↦
        let (f, l) = evict_expired_ok c.ttl k db e in
        let db' = (evict_expired c.ttl db).1 in
        let (w, l') = sweep_lru_ok c k db' (rw e at (rw y at h)) in
        rw y (rw e (w, inr (sweep_lru-AreFresh c k (db.clock - c.ttl) db' f), (omega arith)))
  ]
]
