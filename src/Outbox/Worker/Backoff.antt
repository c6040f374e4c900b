-- ===== src/Outbox/Worker/Backoff.antt =====
-- The delays of computeRetryDelaySeconds of src/worker/outbox-worker.ts.
use taller_mecario_b.Base.{ℕ, zero, suc, ◌-◌, ◌*◌, ◌^◌, ◌≤◌, min, arith, ◌≡◌}
use taller_mecario_b.Outbox.Worker.{compute_retry_delay_seconds}

pow_positive : (n : ℕ) → 1 ≤ 2 ^ n
pow_positive zero = omega arith
pow_positive (suc n) = omega (arith, pow_positive n)

pow_mono : (m n : ℕ) → m ≤ n → 2 ^ m ≤ 2 ^ n
pow_mono zero n h = pow_positive n
pow_mono (suc m) zero h = absurd (omega (arith, h))
pow_mono (suc m) (suc n) h = omega (arith, pow_mono m n (omega (arith, h)))

mul_mono : (b m n : ℕ) → m ≤ n → b * m ≤ b * n
mul_mono zero m n h = omega arith
mul_mono (suc b) m n h = omega (arith, mul_mono b m n h)

-- A delay is never above the maximum nor below the smaller of the base and the maximum, and a later
-- attempt never waits less than an earlier one.
pub compute_retry_delay_seconds-bounds :
    (attempts later base max_delay : ℕ)
    → attempts ≤ later
    → (compute_retry_delay_seconds attempts base max_delay ≤ max_delay)
      × (min base max_delay ≤ compute_retry_delay_seconds attempts base max_delay)
      × (compute_retry_delay_seconds attempts base max_delay
          ≤ compute_retry_delay_seconds later base max_delay)
unfolding compute_retry_delay_seconds
compute_retry_delay_seconds-bounds attempts later base max_delay h = (
  omega arith,
  omega (arith, at_least, mul_mono base 1 (2 ^ (attempts - 1)) (pow_positive (attempts - 1))),
  omega (
    arith,
    mul_mono base (2 ^ (attempts - 1)) (2 ^ (later - 1))
        (pow_mono (attempts - 1) (later - 1) (omega (arith, h))),
  ),
)
  where
    at_least : base * 1 ≡ base
    at_least = omega arith
