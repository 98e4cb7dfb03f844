-- ===== src/Resilience/Retry/Attempts.antt =====
-- How often the function is called, and what comes back.
use mathlib.Core.Path.{fun_ext}
use arcana_cloud_go.Base.{
  ℕ, zero, suc, ◌+◌, ◌-◌, ◌≤◌, ◌<◌, ◌≡◌, refl, sym, ap, ◌∙◌, ltb, if◌then◌else◌, true, false, ◌⊎◌,
  inl, inr, Option, none, some, [], arith, length, Option-cases,
}
use arcana_cloud_go.Resilience.Retry.{
  RetryConfig, Env, Outcome, stop, is_retryable_error, next_backoff_interval, attempt_once,
  retry_loop, retry, attempt_with_result, retry_with_result_loop, retry_with_result,
}

-- The context is never done.
pub record Uncancelled (env : Env) : Type 0 where
  pub before : (n : ℕ) → env.done_before n ≡ none
  pub in_sleep : (n : ℕ) → env.done_in_sleep n ≡ none

-- The attempt fails with an error that is retried.
abbrev pub Retried : RetryConfig → Env → ℕ → Type 0
Retried config env n =
    (e : ℕ) × (env.fn n ≡ some e) × (is_retryable_error e config.retryable_errors ≡ true)

-- The attempt ends the loop: it succeeds, or its error is not retried.
abbrev pub Ends : RetryConfig → Env → ℕ → Type 0
Ends config env n =
    (env.fn n ≡ none)
    ⊎ ((e : ℕ) × (env.fn n ≡ some e) × (is_retryable_error e config.retryable_errors ≡ false))

module _ (config : RetryConfig) (env : Env) (u : Uncancelled env) where
  Retried-round :
      (rounds attempt interval : ℕ) (last : Option ℕ)
      → Retried config env attempt
      → (next : ℕ) × ((retry_loop config env (suc rounds) attempt interval last).error
          ≡ (retry_loop config env rounds (attempt + 1) next (env.fn attempt)).error)
        × ((retry_loop config env (suc rounds) attempt interval last).calls
            ≡ (retry_loop config env rounds (attempt + 1) next (env.fn attempt)).calls + 1)
  unfolding retry_loop
  Retried-round rounds attempt interval last (e, fe, re) = (
    if ltb attempt config.max_attempts
        then (next_backoff_interval config env attempt interval).1
        else interval,
    ground (arith, u.before attempt, u.in_sleep attempt),
    ground (arith, u.before attempt, u.in_sleep attempt),
  )

  Ends-round :
      (rounds attempt interval : ℕ) (last : Option ℕ)
      → Ends config env attempt
      → ((retry_loop config env (suc rounds) attempt interval last).error ≡ env.fn attempt)
        × ((retry_loop config env (suc rounds) attempt interval last).calls ≡ 1)
  unfolding retry_loop
  Ends-round rounds attempt interval last h = ground (arith, u.before attempt)

  loop_stops :
      (rounds attempt interval k : ℕ) (last : Option ℕ)
      → k < rounds
      → ((j : ℕ) → attempt ≤ j → j < attempt + k → Retried config env j)
      → Ends config env (attempt + k)
      → let o = retry_loop config env rounds attempt interval last in
        (o.error ≡ env.fn (attempt + k)) × (o.calls ≡ k + 1)
  loop_stops zero attempt interval k last lt retried ends = elim lt [ ]
  loop_stops (suc rounds) attempt interval zero last lt retried ends =
      let here : attempt + 0 ≡ attempt = omega arith in
      let (e, c) = Ends-round rounds attempt interval last (rw here at ends) in
      (rw here e, omega arith)
  loop_stops (suc rounds) attempt interval (suc k) last lt retried ends =
      let (next, e, c) =
        Retried-round rounds attempt interval last (retried attempt (omega arith) (omega arith)) in
      let shift : attempt + suc k ≡ attempt + 1 + k = omega arith in
      let (e', c') =
        loop_stops rounds (attempt + 1) next k (env.fn attempt) (omega arith)
          (λ j lo hi. retried j (omega arith) (omega arith)) (rw shift at ends) in
      (e ∙ e' ∙ ap env.fn (sym shift), omega arith)

  loop_done :
      (attempt interval : ℕ) (last : Option ℕ)
      → retry_loop config env 0 attempt interval last ≡ stop last 0
  unfolding retry_loop
  loop_done attempt interval last = refl

  loop_exhausts :
      (rounds attempt interval : ℕ) (last : Option ℕ)
      → ((j : ℕ) → attempt ≤ j → j < attempt + suc rounds → Retried config env j)
      → let o = retry_loop config env (suc rounds) attempt interval last in
        (o.error ≡ env.fn (attempt + rounds)) × (o.calls ≡ suc rounds)
  loop_exhausts zero attempt interval last retried =
      let here : attempt + 0 ≡ attempt = omega arith in
      let (next, e, c) =
        Retried-round zero attempt interval last (retried attempt (omega arith) (omega arith)) in
      let done = loop_done (attempt + 1) next (env.fn attempt) in
      (
        rw here (e ∙ ap (λ (o : Outcome). o.error) done),
        omega (arith, ap (λ (o : Outcome). o.calls) done),
      )
  loop_exhausts (suc rounds) attempt interval last retried =
      let (next, e, c) =
        Retried-round (suc rounds) attempt interval last
          (retried attempt (omega arith) (omega arith)) in
      let shift : attempt + suc rounds ≡ attempt + 1 + rounds = omega arith in
      let (e', c') =
        loop_exhausts rounds (attempt + 1) next (env.fn attempt)
          (λ j lo hi. retried j (omega arith) (omega arith)) in
      (e ∙ e' ∙ ap env.fn (sym shift), omega arith)

  -- With a context that is never done, `Retry` calls the function up to and including the first
  -- attempt that succeeds or fails with an error that is not retried, and returns its result.
  pub retry_stops :
      (k : ℕ)
      → 0 < k
      → k ≤ config.max_attempts
      → ((j : ℕ) → 0 < j → j < k → Retried config env j)
      → Ends config env k
      → ((retry config env).error ≡ env.fn k) × ((retry config env).calls ≡ k)
  unfolding retry
  retry_stops zero pos le retried ends = elim pos [ ]
  retry_stops (suc k) pos le retried ends =
      let shift : suc k ≡ 1 + k = omega arith in
      let (e, c) =
        loop_stops config.max_attempts 1 config.initial_interval k none (omega arith)
          (λ j lo hi. retried j lo (omega arith)) (rw shift at ends) in
      (e ∙ ap env.fn (sym shift), omega arith)

  -- If every attempt fails with an error that is retried, `Retry` makes all `MaxAttempts` attempts and
  -- returns the error of the last.
  pub retry_exhausts :
      0 < config.max_attempts
      → ((j : ℕ) → 0 < j → j ≤ config.max_attempts → Retried config env j)
      → ((retry config env).error ≡ env.fn config.max_attempts)
        × ((retry config env).calls ≡ config.max_attempts)
  unfolding retry
  retry_exhausts pos retried = go config.max_attempts refl pos
    where
      go :
          (m : ℕ)
          → m ≡ config.max_attempts
          → 0 < m
          → let o = retry_loop config env m 1 config.initial_interval none in
            (o.error ≡ env.fn m) × (o.calls ≡ m)
      go zero e pos = elim pos [ ]
      go (suc m) e pos =
          let (er, c) =
            loop_exhausts m 1 config.initial_interval none
              (λ j lo hi. retried j lo (omega arith)) in
          (er ∙ ap env.fn (omega arith), c)

module _ (config : RetryConfig) (env : Env) where
  -- What a run of `rounds` rounds from an attempt on returns.
  Post : ℕ → ℕ → Option ℕ → Outcome → Type 0
  Post rounds attempt last o =
      (o.calls ≤ rounds)
      × (length o.slept ≤ rounds - 1)
      × ((o.error ≡ none)
          → ((rounds ≡ 0) × (last ≡ none))
            ⊎ ((0 < o.calls) × (env.fn (attempt + o.calls - 1) ≡ none)))

  loop-Post :
      (rounds attempt interval : ℕ) (last : Option ℕ)
      → attempt + rounds ≡ config.max_attempts + 1
      → Post rounds attempt last (retry_loop config env rounds attempt interval last)
  unfolding retry_loop Post
  loop-Post zero attempt interval last h = (omega arith, omega arith, λ e. inl (refl, e))
  loop-Post (suc rounds) attempt interval last h = elim (Option-cases (env.fn attempt)) [
    | inl fe ↦ ground arith
    | inr (e, fe) ↦
        let next = (next_backoff_interval config env attempt interval).1 in
        let (c1, s1, n1) = loop-Post rounds (attempt + 1) next (some e) (omega arith) in
        let (c2, s2, n2) = loop-Post rounds (attempt + 1) interval (some e) (omega arith) in
        ground arith
  ]

  -- Whatever the context does, the function is called at most `MaxAttempts` times, with fewer sleeps,
  -- and a nil error means that the last call that was made succeeded, or that `MaxAttempts` is 0.
  pub retry_bounded :
      ((retry config env).calls ≤ config.max_attempts)
      × (length (retry config env).slept ≤ config.max_attempts - 1)
      × (((retry config env).error ≡ none)
          → (config.max_attempts ≡ 0)
            ⊎ ((0 < (retry config env).calls) × (env.fn (retry config env).calls ≡ none)))
  unfolding retry Post
  retry_bounded =
      ground (arith, loop-Post config.max_attempts 1 config.initial_interval none (omega arith))

attempt_with_result-attempt_once :
    (config : RetryConfig) (env : Env) (attempt interval : ℕ) (go_on : ℕ → Option ℕ → Outcome)
    → attempt_with_result config env attempt interval go_on
      ≡ attempt_once (record config { retryable_errors = [] }) env attempt interval go_on
unfolding attempt_with_result attempt_once
attempt_with_result-attempt_once config env attempt interval go_on = ground arith

-- `RetryWithResult` retries every error: it is `Retry` with an empty list of retryable errors,
-- whatever list the configuration holds.
pub retry_with_result-retry :
    (config : RetryConfig) (env : Env)
    → retry_with_result config env ≡ retry (record config { retryable_errors = [] }) env
unfolding retry retry_with_result
retry_with_result-retry config env = go config.max_attempts 1 config.initial_interval none
  where
    go :
        (rounds attempt interval : ℕ) (last : Option ℕ)
        → retry_with_result_loop config env rounds attempt interval last
          ≡ retry_loop (record config { retryable_errors = [] }) env rounds attempt interval last
    go zero attempt interval last = refl
    go (suc rounds) attempt interval last =
        attempt_with_result-attempt_once config env attempt interval
          (λ next e. retry_with_result_loop config env rounds (attempt + 1) next e)
        ∙ ap (attempt_once (record config { retryable_errors = [] }) env attempt interval)
            (fun_ext λ next. fun_ext λ e. go rounds (attempt + 1) next e)
