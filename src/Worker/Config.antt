-- ===== src/Worker/Config.antt =====
-- pkg/worker/config.go and the checks of New and NewPool (worker.go, pool.go). Durations are
-- nanoseconds.
use operator_os.Base.{
  ℕ, zero, suc, ◌*◌, Bool, true, false, List, [], ◌∷◌, ◌++◌, Text, is_empty, if◌then◌else◌, ℤ, pos,
  negsuc,
}

abbrev pub second : ℕ
second = 1000000000

pub record Config : Type 0 where
  pub id : Text
  pub concurrency : ℤ
  pub shutdown_timeout : ℤ
  pub max_retries : ℤ
  pub process_timeout : ℤ
  pub heartbeat_interval : ℤ

unfoldable pub default_config : Text → Config
default_config id = record {
  id = id;
  concurrency = pos 1;
  shutdown_timeout = pos (30 * second);
  max_retries = pos 3;
  process_timeout = pos (300 * second);
  heartbeat_interval = pos (30 * second);
}

-- `n < 1` and `n <= 0`
abbrev below_one : ℤ → Bool
below_one (pos zero) = true
below_one (pos (suc n)) = false
below_one (negsuc n) = true

abbrev below_zero : ℤ → Bool
below_zero (pos n) = false
below_zero (negsuc n) = true

unfoldable pub validate : Config → Config
validate c = record c {
  concurrency = if below_one c.concurrency then pos 1 else c.concurrency;
  shutdown_timeout = if below_one c.shutdown_timeout then pos (30 * second) else c.shutdown_timeout;
  max_retries = if below_zero c.max_retries then pos 0 else c.max_retries;
  process_timeout = if below_one c.process_timeout then pos (300 * second) else c.process_timeout;
}

pub data NewError : Type 0 where
  id_required : NewError
  bus_required : NewError
  processor_required : NewError
  pool_size : ℤ → NewError

pub data Result {ℓ} (A : Type ℓ) : Type ℓ where
  ok : A → Result A
  err : NewError → Result A

-- New: the configuration that the worker runs with.
unfoldable pub new_worker : Config → Bool → Bool → Result Config
unfolding validate
new_worker c has_bus has_processor =
    if is_empty c.id
    then err id_required
    else if has_bus
    then if has_processor then ok (validate c) else err processor_required
    else err bus_required

-- The loop of NewPool from worker `i`, `n` to go; `suffix i` is "-" and the decimal digits of i.
unfoldable pub new_workers : (ℕ → Text) → Config → ℕ → ℕ → Result (List Config)
unfolding new_worker
new_workers suffix c zero i = ok []
new_workers suffix c (suc n) i =
    let rest = new_workers suffix c n (suc i) in
    elim (new_worker (record c { id = c.id ++ suffix i }) true true) [
      | err e ↦ err e
      | ok w ↦ elim rest [ err e ↦ err e | ok ws ↦ ok (w ∷ ws) ]
    ]

unfoldable pub new_pool : (ℕ → Text) → ℤ → Config → Bool → Bool → Result (List Config)
unfolding new_workers
new_pool suffix size c has_bus has_processor = elim size [
  | negsuc n ↦ err (pool_size (negsuc n))
  | pos zero ↦ err (pool_size (pos 0))
  | pos (suc n) ↦
      if has_bus
      then if has_processor then new_workers suffix c (suc n) 0 else err processor_required
      else err bus_required
]
