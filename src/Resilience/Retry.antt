-- ===== src/Resilience/Retry.antt =====
-- internal/resilience/retry.go: the retry loops. An error is compared by identity in Go, so it is a
-- number here. What the loops call is an argument: the context, which may be done before an attempt
-- or during a sleep; the function, by the number of the attempt; and the float64 arithmetic on
-- durations, which has no model here.
use arcana_cloud_go.Base.{
  ℕ, zero, suc, ◌+◌, Bool, true, false, Option, none, some, List, [], ◌∷◌, ltb, ◌==◌, if◌then◌else◌,
}
pub mod Attempts

pub record RetryConfig : Type 0 where
  pub max_attempts : ℕ
  pub initial_interval : ℕ
  pub max_interval : ℕ
  pub randomized : Bool  -- RandomizationFactor != 0
  pub retryable_errors : List ℕ

-- What the loop meets at each attempt; `none` is a nil error, or a context that is not done.
pub record Env : Type 0 where
  pub done_before : ℕ → Option ℕ
  pub done_in_sleep : ℕ → Option ℕ
  pub fn : ℕ → Option ℕ
  pub multiply : ℕ → ℕ  -- time.Duration(float64(d) * Multiplier)
  pub spread : ℕ → ℕ → ℕ  -- the random interval round d, at an attempt

-- What the caller sees, with the calls that were made and the sleeps between them.
pub record Outcome : Type 0 where
  pub error : Option ℕ
  pub calls : ℕ
  pub slept : List ℕ

mem : ℕ → List ℕ → Bool
mem e [] = false
mem e (x ∷ xs) = if e == x then true else mem e xs

unfoldable pub is_retryable_error : ℕ → List ℕ → Bool
unfolding mem
is_retryable_error err [] = true
is_retryable_error err (x ∷ xs) = mem err (x ∷ xs)

unfoldable pub calculate_interval : RetryConfig → Env → ℕ → ℕ → ℕ
calculate_interval config env attempt base =
    if config.randomized then env.spread attempt base else base

unfoldable pub next_backoff_interval : RetryConfig → Env → ℕ → ℕ → ℕ × ℕ
unfolding calculate_interval
next_backoff_interval config env attempt current =
    let next = env.multiply current in
    (
      calculate_interval config env attempt current,
      if ltb config.max_interval next then config.max_interval else next,
    )

abbrev pub stop : Option ℕ → ℕ → Outcome
stop error calls = record { error = error; calls = calls; slept = [] }

abbrev pub after_call : Outcome → Outcome
after_call o = record o { calls = o.calls + 1 }

abbrev pub after_sleep : ℕ → Outcome → Outcome
after_sleep d o = record o { slept = d ∷ o.slept }

-- The wait before the next attempt. `go_on` is the rest of the loop, from an interval.
unfoldable pub back_off : RetryConfig → Env → ℕ → ℕ → (ℕ → Outcome) → Outcome
unfolding next_backoff_interval
back_off config env attempt interval go_on =
    let (sleep, next) = next_backoff_interval config env attempt interval in
    if ltb attempt config.max_attempts
    then (elim (env.done_in_sleep attempt) [
      | some e ↦ stop (some e) 0
      | none ↦ after_sleep sleep (go_on next)
    ])
    else go_on interval

-- One round of the loop of `Retry`.
unfoldable pub attempt_once : RetryConfig → Env → ℕ → ℕ → (ℕ → Option ℕ → Outcome) → Outcome
unfolding back_off is_retryable_error
attempt_once config env attempt interval go_on = elim (env.done_before attempt) [
  | some e ↦ stop (some e) 0
  | none ↦ elim (env.fn attempt) [
    | none ↦ stop none 1
    | some e ↦
        if is_retryable_error e config.retryable_errors
        then after_call (back_off config env attempt interval (λ next. go_on next (some e)))
        else stop (some e) 1
  ]
]

-- The first number counts the rounds that are left.
unfoldable pub retry_loop : RetryConfig → Env → ℕ → ℕ → ℕ → Option ℕ → Outcome
unfolding attempt_once
retry_loop config env zero attempt interval last_err = stop last_err 0
retry_loop config env (suc rounds) attempt interval last_err =
    attempt_once config env attempt interval
      (λ next e. retry_loop config env rounds (attempt + 1) next e)

unfoldable pub retry : RetryConfig → Env → Outcome
unfolding retry_loop
retry config env = retry_loop config env config.max_attempts 1 config.initial_interval none

-- `RetryWithResult`: the same loop, which does not look at `RetryableErrors`. The result value of the
-- last call goes with its error, and is left out.
unfoldable pub attempt_with_result : RetryConfig → Env → ℕ → ℕ → (ℕ → Option ℕ → Outcome) → Outcome
unfolding back_off
attempt_with_result config env attempt interval go_on = elim (env.done_before attempt) [
  | some e ↦ stop (some e) 0
  | none ↦ elim (env.fn attempt) [
    | none ↦ stop none 1
    | some e ↦ after_call (back_off config env attempt interval (λ next. go_on next (some e)))
  ]
]

unfoldable pub retry_with_result_loop : RetryConfig → Env → ℕ → ℕ → ℕ → Option ℕ → Outcome
unfolding attempt_with_result
retry_with_result_loop config env zero attempt interval last_err = stop last_err 0
retry_with_result_loop config env (suc rounds) attempt interval last_err =
    attempt_with_result config env attempt interval
      (λ next e. retry_with_result_loop config env rounds (attempt + 1) next e)

unfoldable pub retry_with_result : RetryConfig → Env → Outcome
unfolding retry_with_result_loop
retry_with_result config env =
    retry_with_result_loop config env config.max_attempts 1 config.initial_interval none
