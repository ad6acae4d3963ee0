-- ===== src/Session/Evictor/Sqlite.antt =====
-- pkg/session/sqlite_store.go, the calls of the evictor: the table `sessions` is the list of its
-- rows, and `fails` says which of the coming statements the database refuses. The stored times are
-- numbers, where the code compares their RFC3339Nano texts, whose order can differ from that of the
-- times within one second. Rows with equal times are taken in the order of the table.
use operator_os.Base.{
  ℕ, zero, suc, ◌-◌, Bool, false, Option, none, some, List, [], ◌∷◌, Text, ltb, leb, length,
  if◌then◌else◌,
}
use operator_os.Session.Evictor.{EvictableStore}

pub record SessionRow : Type 0 where
  pub key : Text
  pub updated_at : ℕ

pub record Database : Type 0 where
  pub rows : List SessionRow
  pub clock : ℕ
  pub fails : List Bool

-- Whether the next statement is refused, and the database after it.
abbrev pub next_fails : List Bool → Bool
next_fails [] = false
next_fails (b ∷ bs) = b

abbrev pub later_fails : List Bool → List Bool
later_fails [] = []
later_fails (b ∷ bs) = bs

abbrev pub after_statement : Database → Database
after_statement db = record db { fails = later_fails db.fails }

-- `DELETE FROM sessions WHERE updated_at < ?`
unfoldable pub fresh_rows : ℕ → List SessionRow → List SessionRow
fresh_rows cutoff [] = []
fresh_rows cutoff (r ∷ rs) =
    let rest = fresh_rows cutoff rs in if ltb r.updated_at cutoff then rest else r ∷ rest

unfoldable pub evict_expired : ℕ → Database → Option ℕ × Database
unfolding fresh_rows
evict_expired ttl db =
    let left = fresh_rows (db.clock - ttl) db.rows in
    if next_fails db.fails
    then (none, after_statement db)
    else (some (length db.rows - length left), record (after_statement db) { rows = left })

-- The time of the oldest row.
unfoldable pub oldest : ℕ → List SessionRow → ℕ
oldest t [] = t
oldest t (r ∷ rs) = if ltb r.updated_at t then oldest r.updated_at rs else oldest t rs

-- Deletes the first row with the time `t`.
unfoldable pub delete_at : ℕ → List SessionRow → List SessionRow
delete_at t [] = []
delete_at t (r ∷ rs) = let rest = delete_at t rs in if leb r.updated_at t then rs else r ∷ rest

abbrev pub delete_one : List SessionRow → List SessionRow
delete_one [] = []
delete_one (r ∷ rs) = delete_at (oldest r.updated_at rs) (r ∷ rs)

-- `DELETE ... WHERE key IN (SELECT key ... ORDER BY updated_at ASC LIMIT ?)`
unfoldable pub delete_oldest : ℕ → List SessionRow → List SessionRow
unfolding oldest delete_at
delete_oldest zero rows = rows
delete_oldest (suc n) rows = delete_oldest n (delete_one rows)

abbrev pub lru_delete : ℕ → Database → Option ℕ × Database
lru_delete excess db =
    let left = delete_oldest excess db.rows in
    if next_fails db.fails
    then (none, after_statement db)
    else (some (length db.rows - length left), record (after_statement db) { rows = left })

unfoldable pub evict_lru : ℕ → Database → Option ℕ × Database
unfolding delete_oldest
evict_lru zero db = (some 0, db)
evict_lru (suc m) db =
    if next_fails db.fails
    then (none, after_statement db)
    else if leb (length db.rows) (suc m)
    then (some 0, after_statement db)
    else lru_delete (length db.rows - suc m) (after_statement db)

abbrev pub sqlite_store : EvictableStore
sqlite_store = record { Store = Database; evict_expired = evict_expired; evict_lru = evict_lru }
