-- ===== src/Jobs/Retry/Delays.antt =====
-- `automatic_retry_delay` of packages/db/encodr_db/repositories/jobs.py.
use encodr.Prelude.{ℕ, zero, suc, ◌+◌, ◌-◌, ◌*◌, ◌^◌, ◌≤◌, ◌≡◌, arith, ◌==◌, Bool-cases, inl, inr}
use encodr.Jobs.Policies.{automatic_retry_delay, lesser, microseconds_per_second}

pow_pos : (k : ℕ) → 1 ≤ 2 ^ k
pow_pos zero = omega arith
pow_pos (suc k) = omega (arith, pow_pos k)

pow_mono : (k m : ℕ) → k ≤ m → 2 ^ k ≤ 2 ^ m
pow_mono k zero h = let same : k ≡ 0 = omega arith in rw same (omega arith)
pow_mono k (suc m) h = elim (Bool-cases (k == suc m)) [
  | inl e ↦ let same : k ≡ suc m = ground arith in rw same (omega arith)
  | inr e ↦ let less : k ≤ m = ground arith in omega (arith, pow_mono k m less)
]

lesser_mono :
    (p q : ℕ)
    → p ≤ q
    → lesser (60 * p) 900 * microseconds_per_second ≤ lesser (60 * q) 900 * microseconds_per_second
lesser_mono p q h = ground arith

-- The delay is a minute at least and a quarter of an hour at most, and a later attempt does not wait less.
pub automatic_retry_delay-bounds :
    (attempt later : ℕ)
    → (60 * microseconds_per_second ≤ automatic_retry_delay attempt)
      × (automatic_retry_delay attempt ≤ 900 * microseconds_per_second)
      × (automatic_retry_delay attempt ≤ automatic_retry_delay (attempt + later))
unfolding automatic_retry_delay
automatic_retry_delay-bounds attempt later =
    let one = pow_pos (attempt - 2) in
    (
      low (2 ^ (attempt - 2)) one,
      high (2 ^ (attempt - 2)),
      lesser_mono (2 ^ (attempt - 2)) (2 ^ (attempt + later - 2))
          (pow_mono (attempt - 2) (attempt + later - 2) (omega arith)),
    )
  where
    low :
        (p : ℕ)
        → 1 ≤ p
        → 60 * microseconds_per_second ≤ lesser (60 * p) (15 * 60) * microseconds_per_second
    low p h = ground arith

    high :
        (p : ℕ)
        → lesser (60 * p) (15 * 60) * microseconds_per_second ≤ 900 * microseconds_per_second
    high p = ground arith
