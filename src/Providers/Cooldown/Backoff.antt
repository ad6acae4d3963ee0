-- ===== src/Providers/Cooldown/Backoff.antt =====
-- The two backoff formulas of pkg/providers/cooldown.go.
use operator_os.Base.{ℕ, zero, suc, ◌-◌, ◌*◌, ◌^◌, ◌≤◌, ◌<◌, ◌≡◌, refl, min, max, arith}
use operator_os.Providers.Cooldown.{
  millisecond, hour, calculate_standard_cooldown, calculate_billing_cooldown,
}

-- The table in the comment above the formula, in minutes.
abbrev pub standard_minutes : ℕ → ℕ
standard_minutes zero = 1
standard_minutes (suc zero) = 1
standard_minutes (suc (suc zero)) = 5
standard_minutes (suc (suc (suc zero))) = 25
standard_minutes (suc (suc (suc (suc n)))) = 60

-- The table of the billing formula, in hours.
abbrev pub billing_hours : ℕ → ℕ
billing_hours zero = 5
billing_hours (suc zero) = 5
billing_hours (suc (suc zero)) = 10
billing_hours (suc (suc (suc zero))) = 20
billing_hours (suc (suc (suc (suc n)))) = 24

standard_tail : (n : ℕ) → min (max 1 (suc (suc (suc (suc n)))) - 1) 3 ≡ 3
standard_tail n = omega arith

standard_table :
    (n : ℕ) → calculate_standard_cooldown n ≡ standard_minutes n * (60_000 * millisecond)
unfolding calculate_standard_cooldown
standard_table zero = refl
standard_table (suc zero) = refl
standard_table (suc (suc zero)) = refl
standard_table (suc (suc (suc zero))) = refl
standard_table (suc (suc (suc (suc n)))) = rw (standard_tail n)

billing_small : (e : ℕ) → e ≤ 10 → 3 ≤ e → min 86_400_000 (18_000_000 * 2 ^ e) ≡ 86_400_000
billing_small zero h k = absurd (omega arith)
billing_small (suc zero) h k = absurd (omega arith)
billing_small (suc (suc zero)) h k = absurd (omega arith)
billing_small (suc (suc (suc zero))) h k = refl
billing_small (suc (suc (suc (suc zero)))) h k = refl
billing_small (suc (suc (suc (suc (suc zero))))) h k = refl
billing_small (suc (suc (suc (suc (suc (suc zero)))))) h k = refl
billing_small (suc (suc (suc (suc (suc (suc (suc zero))))))) h k = refl
billing_small (suc (suc (suc (suc (suc (suc (suc (suc zero)))))))) h k = refl
billing_small (suc (suc (suc (suc (suc (suc (suc (suc (suc zero))))))))) h k = refl
billing_small (suc (suc (suc (suc (suc (suc (suc (suc (suc (suc zero)))))))))) h k = refl
billing_small (suc (suc (suc (suc (suc (suc (suc (suc (suc (suc (suc e))))))))))) h k =
    absurd (omega arith)

billing_table : (n : ℕ) → calculate_billing_cooldown n ≡ billing_hours n * hour
unfolding calculate_billing_cooldown
billing_table zero = refl
billing_table (suc zero) = refl
billing_table (suc (suc zero)) = refl
billing_table (suc (suc (suc zero))) = refl
billing_table (suc (suc (suc (suc n)))) =
    rw (billing_small (min (max 1 (suc (suc (suc (suc n)))) - 1) 10) (omega arith) (omega arith))

-- Both formulas compute the tables of their comments for every count: 1, 5, 25, then 60 minutes,
-- and 5, 10, 20, then 24 hours; a count of 0 is read as 1.
pub backoff_tables :
    (n : ℕ)
    → (calculate_standard_cooldown n ≡ standard_minutes n * (60_000 * millisecond))
      × (calculate_billing_cooldown n ≡ billing_hours n * hour)
backoff_tables n = (standard_table n, billing_table n)

minutes_mono : (m n : ℕ) → m ≤ n → standard_minutes m ≤ standard_minutes n
minutes_mono m n h = ground arith

hours_mono : (m n : ℕ) → m ≤ n → billing_hours m ≤ billing_hours n
hours_mono m n h = ground arith

pub standard_pos : (n : ℕ) → 0 < calculate_standard_cooldown n
standard_pos n = ground (arith, standard_table n)

pub billing_pos : (n : ℕ) → 0 < calculate_billing_cooldown n
billing_pos n = ground (arith, billing_table n)

-- A further failure never shortens either wait, and a billing failure waits longer than any
-- standard cooldown.
pub backoff_monotone :
    (m n k : ℕ)
    → m ≤ n
    → (calculate_standard_cooldown m ≤ calculate_standard_cooldown n)
      × (calculate_billing_cooldown m ≤ calculate_billing_cooldown n)
      × (calculate_standard_cooldown k < calculate_billing_cooldown m)
backoff_monotone m n k h = (
  omega (arith, standard_table m, standard_table n, minutes_mono m n h),
  omega (arith, billing_table m, billing_table n, hours_mono m n h),
  ground (arith, standard_table k, billing_table m),
)
