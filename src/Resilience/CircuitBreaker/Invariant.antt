-- ===== src/Resilience/CircuitBreaker/Invariant.antt =====
-- What holds of a breaker between two events.
use arcana_cloud_go.Base.{
  ℕ, ◌+◌, ◌≤◌, ◌<◌, ◌≡◌, ◌≢◌, refl, Bool, true, false, ◌⊎◌, some, List, [], ◌∷◌, arith,
}
use arcana_cloud_go.Resilience.SlidingWindow.{SlidingWindow}
use arcana_cloud_go.Resilience.SlidingWindow.Bounds.{
  IsValid, record_call-IsValid, new_sliding_window-IsValid,
}
use arcana_cloud_go.Resilience.CircuitBreaker.{
  CircuitBreaker, CircuitBreakerConfig, closed, half_open, new_circuit_breaker, allow_request,
  record_outcome, recorded, record_rejection, reset,
}
use arcana_cloud_go.Resilience.CircuitBreaker.Events.{
  Event, arrives, returns, resets, arrive, step, run,
}

pub record IsConfig (c : CircuitBreakerConfig) : Type 0 where
  pub failure_pos : 0 < c.failure_threshold
  pub success_pos : 0 < c.success_threshold
  pub requests_pos : 0 < c.max_half_open_requests
  pub window_pos : 0 < c.sliding_window_size

pub record Inv (c : CircuitBreakerConfig) (cb : CircuitBreaker) : Type 0 where
  pub same_config : cb.config ≡ c
  pub closed_failures : cb.failures < c.failure_threshold
  pub open_failures : (cb.state ≡ closed) ⊎ (cb.failures ≡ 0)
  pub successes_below : cb.successes < c.success_threshold
  pub half_open_successes : (cb.state ≡ half_open) ⊎ (cb.successes ≡ 0)
  pub requests_capped : cb.half_open_requests ≤ c.max_half_open_requests
  pub half_open_requests_only :
      ((cb.state ≡ half_open) × (0 < cb.half_open_requests))
      ⊎ ((cb.state ≢ half_open) × (cb.half_open_requests ≡ 0))
  pub calls_add_up : cb.metrics.total_calls ≡ cb.metrics.successful_calls + cb.metrics.failed_calls
  pub slow_calls_in : cb.metrics.slow_calls ≤ cb.metrics.total_calls
  pub window : IsValid cb.sliding_window

pub new-Inv : (c : CircuitBreakerConfig) → IsConfig c → Inv c (new_circuit_breaker c)
unfolding new_circuit_breaker
new-Inv c h = ground (arith, new_sliding_window-IsValid c.sliding_window_size)

arrive-Inv :
    (c : CircuitBreakerConfig) (now : ℕ) (cb : CircuitBreaker)
    → IsConfig c
    → Inv c cb
    → Inv c (arrive now cb)
unfolding arrive allow_request record_rejection
arrive-Inv c now cb h v = ground arith

recorded-Inv :
    (c : CircuitBreakerConfig) (sw : SlidingWindow) (b : Bool) (d now : ℕ) (cb : CircuitBreaker)
    → IsConfig c
    → Inv c cb
    → IsValid sw
    → Inv c (recorded sw b d now cb)
unfolding recorded
recorded-Inv c sw true d now cb h v w = ground arith
recorded-Inv c sw false d now cb h v w = ground arith

-- Every event of every goroutine runs without a panic and keeps the invariant.
pub step-Inv :
    (c : CircuitBreakerConfig) (e : Event) (cb : CircuitBreaker)
    → IsConfig c
    → Inv c cb
    → (cb' : CircuitBreaker) × (step e cb ≡ some cb') × Inv c cb'
unfolding step record_outcome reset
step-Inv c (arrives now) cb h v = (arrive now cb, refl, arrive-Inv c now cb h v)
step-Inv c (returns b d now) cb h v =
    let (sw, e, w) = record_call-IsValid b d cb.sliding_window v.window in
    (recorded sw b d now cb, rw e refl, recorded-Inv c sw b d now cb h v w)
step-Inv c resets cb h v = (reset cb, refl, ground arith)

-- With a usable configuration, any interleaving of events from a new breaker on runs without a panic
-- and keeps the breaker well formed: each counter is within its limit and counts only in its own state,
-- the half-open state has at least one admitted request and at most the allowed number, the successful
-- and failed calls add up to all calls, and the window is valid.
pub run-Inv :
    (c : CircuitBreakerConfig) (es : List Event)
    → IsConfig c
    → (cb : CircuitBreaker) × (run es (new_circuit_breaker c) ≡ some cb) × Inv c cb
unfolding run
run-Inv c [] h = (new_circuit_breaker c, refl, new-Inv c h)
run-Inv c (e ∷ es) h =
    let (cb, r, v) = run-Inv c es h in let (cb', s, v') = step-Inv c e cb h v in (cb', rw r s, v')
