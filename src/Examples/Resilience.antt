-- ===== src/Examples/Resilience.antt =====
-- The retry loops and the sliding window limiter of internal/resilience at concrete inputs.
use arcana_cloud_go.Base.{
  ℕ, zero, suc, ◌≡◌, refl, ◌⊎◌, true, false, Option, none, some, [], ◌∷◌, arith, ◌≤◌, ◌<◌, length,
  keep,
}
use arcana_cloud_go.Resilience.Retry.{RetryConfig, Env, retry, is_retryable_error}
use arcana_cloud_go.Resilience.Retry.Attempts.{Uncancelled, Retried, retry_bounded}
use arcana_cloud_go.Resilience.RateLimiter.{RateLimiterConfig, in_window}
use arcana_cloud_go.Resilience.RateLimiter.Sliding.{code_run, granted_times, allow-bounded}

-- Error 7 is retried.
abbrev thrice : RetryConfig
thrice = record {
  max_attempts = 3;
  initial_interval = 100;
  max_interval = 1000;
  randomized = false;
  retryable_errors = 7 ∷ [];
}

abbrev fails_first : ℕ → Option ℕ
fails_first zero = none
fails_first (suc zero) = some 7
fails_first (suc (suc n)) = none

abbrev flaky : Env
flaky = record {
  done_before = λ n. none;
  done_in_sleep = λ n. none;
  fn = fails_first;
  multiply = λ d. d;
  spread = λ n d. d;
}

abbrev broken : Env
broken = record flaky { fn = λ n. some 7 }

Uncancelled-always :
    {env : Env}
    → ((n : ℕ) → env.done_before n ≡ none)
    → ((n : ℕ) → env.done_in_sleep n ≡ none)
    → Uncancelled env
Uncancelled-always b s = record { before = b; in_sleep = s }

Retried-first : (j : ℕ) → 0 < j → j < 2 → Retried thrice flaky j
unfolding is_retryable_error
Retried-first zero p q = elim p [ ]
Retried-first (suc zero) p q = (7, refl, refl)
Retried-first (suc (suc j)) p q = absurd (omega arith)

Retried-broken : (j : ℕ) → 0 < j → j ≤ 3 → Retried thrice broken j
unfolding is_retryable_error
Retried-broken j p q = (7, refl, refl)

retry_bounded_example :
    ((retry thrice broken).calls ≤ 3)
    × (length (retry thrice broken).slept ≤ 2)
    × (((retry thrice broken).error ≡ none)
        → (thrice.max_attempts ≡ 0)
          ⊎ ((0 < (retry thrice broken).calls) × (broken.fn (retry thrice broken).calls ≡ none)))
retry_bounded_example = retry_bounded thrice broken

-- Two requests in ten nanoseconds.
abbrev two_in_ten : RateLimiterConfig
two_in_ten = record {
  name = "two";
  rate = 2;
  period = 10;
  burst_size = 0;
  wait_timeout = 0;
  fairness_enabled = true;
}

allow-bounded_example :
    length (
      keep
        (in_window 10 21)
        (granted_times (15 ∷ 12 ∷ 11 ∷ []) (code_run two_in_ten (15 ∷ 12 ∷ 11 ∷ [])).1))
    ≤ 2
allow-bounded_example = allow-bounded two_in_ten 21 (15 ∷ 12 ∷ 11 ∷ []) (omega arith)
