-- ===== src/Jobs/Job/Delay.antt =====
-- The delay before the next attempt, for every strategy.
use arcana_cloud_go.Base.{ℕ, ◌≤◌, arith}
use arcana_cloud_go.Jobs.Job.{
  Scale, RetryPolicy, RetryStrategy, exponential, linear, fixed, other, calculate_delay, raw_delay,
}

raw_delay_mono :
    (scale : Scale) (p : RetryPolicy) (strategy : RetryStrategy) (m n : ℕ)
    → ((a b : ℕ)
        → a ≤ b
        → scale p.initial_delay p.multiplier a ≤ scale p.initial_delay p.multiplier b)
    → m ≤ n
    → raw_delay scale p strategy m ≤ raw_delay scale p strategy n
unfolding raw_delay
raw_delay_mono scale p exponential m n grows h = grows m n h
raw_delay_mono scale p linear m n grows h = grind arith
raw_delay_mono scale p fixed m n grows h = omega arith
raw_delay_mono scale p (other name) m n grows h = omega arith

-- No strategy waits longer than the policy's maximum, and, where the floating-point power does not
-- fall with the attempt, no strategy waits less after a later attempt.
pub calculate_delay_mono :
    (scale : Scale) (p : RetryPolicy) (m n : ℕ)
    → ((a b : ℕ)
        → a ≤ b
        → scale p.initial_delay p.multiplier a ≤ scale p.initial_delay p.multiplier b)
    → m ≤ n
    → (calculate_delay scale p m ≤ calculate_delay scale p n)
      × (calculate_delay scale p n ≤ p.max_delay)
unfolding calculate_delay
calculate_delay_mono scale p m n grows h =
    let mono = raw_delay_mono scale p p.strategy m n grows h in (ground arith, ground arith)
