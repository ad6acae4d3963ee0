-- ===== src/Session/Evictor.antt =====
-- pkg/session/eviction.go: one sweep, over any store with the two eviction calls. A duration or a
-- limit that is not positive is `zero`.
pub mod Sqlite
pub mod Sweeps
use operator_os.Base.{
  ℕ, ◌+◌, ◌*◌, ◌≡◌, refl, Bool, true, false, Option, none, some, ltb, if◌then◌else◌,
}

pub record EvictorConfig : Type 0 where
  pub ttl : ℕ
  pub max_sessions : ℕ
  pub interval : ℕ

abbrev pub second : ℕ
second = 1_000_000_000

unfoldable pub default_evictor_config : EvictorConfig
default_evictor_config = record {
  ttl = 24 * 3600 * second;
  max_sessions = 10000;
  interval = 300 * second;
}

-- The number of sessions evicted, or an error; the store may change in both cases.
pub record EvictableStore : Type 1 where
  pub Store : Type 0
  pub evict_expired : ℕ → Store → Option ℕ × Store
  pub evict_lru : ℕ → Store → Option ℕ × Store

-- `NewEvictor` replaces an interval that is not positive.
unfoldable pub new_evictor : EvictorConfig → EvictorConfig
new_evictor c = if ltb 0 c.interval then c else record c { interval = 300 * second }

pub data SweepError : Type 0 where
  expired_failed lru_failed : SweepError

-- The total so far comes with the error too.
pub record Sweep (S : Type 0) : Type 0 where
  pub total : ℕ
  pub error : Option SweepError
  pub store : S

module _ (es : EvictableStore) where
  open es use {Store, evict_expired, evict_lru}

  abbrev pub after_lru : ℕ → Option ℕ × Store → Sweep Store
  after_lru total (none, s) = record { total = total; error = some lru_failed; store = s }
  after_lru total (some n, s) = record { total = total + n; error = none; store = s }

  abbrev pub sweep_lru : EvictorConfig → ℕ → Store → Sweep Store
  sweep_lru c total s =
      if ltb 0 c.max_sessions
      then after_lru total (evict_lru c.max_sessions s)
      else record { total = total; error = none; store = s }

  abbrev pub after_expired : EvictorConfig → Option ℕ × Store → Sweep Store
  after_expired c (none, s) = record { total = 0; error = some expired_failed; store = s }
  after_expired c (some n, s) = sweep_lru c n s

  unfoldable pub run_once : EvictorConfig → Store → Sweep Store
  run_once c s = if ltb 0 c.ttl then after_expired c (evict_expired c.ttl s) else sweep_lru c 0 s
