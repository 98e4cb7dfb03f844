-- ===== src/Examples/Breaker.antt =====
-- The circuit breaker of internal/resilience at concrete inputs.
use arcana_cloud_go.Base.{
  ◌≡◌, refl, ◌⊎◌, not, true, false, none, some, [], ◌∷◌, arith, ◌≤◌, ◌<◌, ◌+◌, ltb, min, take,
}
use arcana_cloud_go.Resilience.SlidingWindow.{
  SlidingWindow, Rate, new_sliding_window, failure_rate, slow_call_rate, record_call,
}
use arcana_cloud_go.Resilience.SlidingWindow.Bounds.{rates_in_range, new_sliding_window-IsValid}
use arcana_cloud_go.Resilience.SlidingWindow.History.{replay, replay-rates, hits}
use arcana_cloud_go.Resilience.CircuitBreaker.{
  CircuitBreaker, CircuitBreakerConfig, Call, closed, open_, half_open, Err, too_many_requests,
  new_circuit_breaker, allow_request, record_outcome,
}
use arcana_cloud_go.Resilience.CircuitBreaker.Events.{arrives, returns, resets, arrive, step, run}
use arcana_cloud_go.Resilience.CircuitBreaker.Invariant.{Inv, IsConfig, run-Inv}
use arcana_cloud_go.Resilience.CircuitBreaker.Transitions.{failures_trip, failures_at, step-⟶, ◌⟶◌}
use arcana_cloud_go.Resilience.CircuitBreaker.Recovery.{
  arrive_n, half_open_capped, relapse_admits, half_open_wedged,
}

-- Two failures trip it, one success closes it, two half-open requests.
abbrev small : CircuitBreakerConfig
small = record {
  name = "small";
  failure_threshold = 2;
  success_threshold = 3;
  timeout = 10;
  max_half_open_requests = 2;
  sliding_window_size = 2;
  sliding_window_type = "count";
  slow_call_duration_threshold = 5;
}

small-IsConfig : IsConfig small
small-IsConfig = omega arith

-- Tripped by failures at times 100 and 101.
abbrev tripped : CircuitBreaker
tripped = record {
  config = small;
  failures = 0;
  successes = 0;
  half_open_requests = 0;
  state = open_;
  last_failure = 101;
  metrics = record {
    total_calls = 2;
    successful_calls = 0;
    failed_calls = 2;
    rejected_calls = 0;
    slow_calls = 0;
    state_transitions = 1;
  };
  sliding_window = record {
    size = 2;
    outcomes = false ∷ false ∷ [];
    durations = 1 ∷ 1 ∷ [];
    index = 0;
    count = 2;
  };
}

fresh_trips :
    run (returns false 1 101 ∷ returns false 1 100 ∷ []) (new_circuit_breaker small) ≡ some tripped
unfolding run step new_circuit_breaker new_sliding_window record_call record_outcome
fresh_trips = refl

-- The breaker after the timeout and one probe.
abbrev probing : CircuitBreaker
probing = record tripped {
  state = half_open;
  half_open_requests = 1;
  metrics = record {
    total_calls = 2;
    successful_calls = 0;
    failed_calls = 2;
    rejected_calls = 0;
    slow_calls = 0;
    state_transitions = 2;
  };
}

probe_admitted : arrive 112 tripped ≡ probing
unfolding arrive allow_request
probe_admitted = refl

replay-rates_example :
    (sw : SlidingWindow) × (replay 2 ((false, 9) ∷ (true, 1) ∷ (false, 1) ∷ []) ≡ some sw)
    × (failure_rate sw
        ≡ some (record { num = hits not (take 2 (false ∷ true ∷ false ∷ [])); den = min 2 3 }))
    × (slow_call_rate 5 sw
        ≡ some (record { num = hits (λ d. ltb 5 d) (take 2 (9 ∷ 1 ∷ 1 ∷ [])); den = min 2 3 }))
replay-rates_example = replay-rates 2 5 (false, 9) ((true, 1) ∷ (false, 1) ∷ []) (omega arith)

run-Inv_example :
    (cb : CircuitBreaker) × (run
        (resets ∷ arrives 112 ∷ returns false 1 101 ∷ [])
        (new_circuit_breaker small)
      ≡ some cb)
    × Inv small cb
run-Inv_example = run-Inv small (resets ∷ arrives 112 ∷ returns false 1 101 ∷ []) small-IsConfig

failures_trip_example :
    (cb : CircuitBreaker) × (run
        (failures_at ((1, 101) ∷ (1, 100) ∷ []))
        (new_circuit_breaker small)
      ≡ some cb)
    × ((2 < 2) × (cb.state ≡ closed) × (cb.failures ≡ 2) ⊎ (2 ≤ 2) × (cb.state ≡ open_))
failures_trip_example = failures_trip small ((1, 101) ∷ (1, 100) ∷ []) small-IsConfig

step-⟶_example :
    ((probing.state ≡ tripped.state)
      × (probing.metrics.state_transitions ≡ tripped.metrics.state_transitions))
    ⊎ ((tripped.state ⟶ probing.state)
        × (probing.metrics.state_transitions ≡ tripped.metrics.state_transitions + 1))
unfolding step arrive allow_request
step-⟶_example = step-⟶ (arrives 112) tripped probing (λ e. cc) refl

abbrev refused : CircuitBreaker
refused = record tripped {
  metrics = record {
    total_calls = 2;
    successful_calls = 0;
    failed_calls = 2;
    rejected_calls = 1;
    slow_calls = 0;
    state_transitions = 1;
  };
}

half_open_capped_example :
    let cb' = arrive_n (115 ∷ 114 ∷ 113 ∷ []) probing in
    (cb'.state ≡ half_open)
    × (cb'.config ≡ small)
    × (cb'.half_open_requests ≡ min 2 (1 + 3))
    × (cb'.half_open_requests + cb'.metrics.rejected_calls ≡ 1 + 0 + 3)
half_open_capped_example = half_open_capped (115 ∷ 114 ∷ 113 ∷ []) probing refl (omega arith)

abbrev reopened : CircuitBreaker
reopened = record tripped {
  metrics = record {
    total_calls = 3;
    successful_calls = 0;
    failed_calls = 3;
    rejected_calls = 0;
    slow_calls = 0;
    state_transitions = 3;
  };
  sliding_window = record {
    size = 2;
    outcomes = false ∷ false ∷ [];
    durations = 1 ∷ 1 ∷ [];
    index = 1;
    count = 2;
  };
}

relapse_admits_example :
    (reopened.state ≡ open_)
    × ((allow_request 113 reopened).1 ≡ none)
    × ((arrive 113 reopened).state ≡ half_open)
unfolding step record_outcome record_call
relapse_admits_example =
    relapse_admits 1 113 113 probing reopened refl (omega arith) (omega arith) refl

-- Both slots of the half-open state are used up.
abbrev full : CircuitBreaker
full = record probing { half_open_requests = 2 }

abbrev wedged : CircuitBreaker
wedged = record full {
  successes = 2;
  metrics = record {
    total_calls = 4;
    successful_calls = 2;
    failed_calls = 2;
    rejected_calls = 0;
    slow_calls = 0;
    state_transitions = 2;
  };
  sliding_window = record {
    size = 2;
    outcomes = true ∷ true ∷ [];
    durations = 1 ∷ 1 ∷ [];
    index = 0;
    count = 2;
  };
}

half_open_wedged_example :
    (wedged.state ≡ half_open) × (allow_request 1000 wedged ≡ (wedged, some too_many_requests))
unfolding run step record_outcome record_call
half_open_wedged_example =
    half_open_wedged small (returns true 1 115 ∷ returns true 1 114 ∷ []) full wedged 1000 refl refl
      (omega arith) (refl, (refl, tt)) (omega arith) refl

abbrev failing_call : Call
failing_call = record { error = some (Err.failed 7); finished_at = 103; meanwhile = λ cb. cb }

rates_in_range_example :
    ((r : Rate) × (failure_rate (new_sliding_window 2) ≡ some r) × (r.num ≤ r.den) × (0 < r.den))
    × ((r : Rate) × (slow_call_rate 5 (new_sliding_window 2) ≡ some r)
        × (r.num ≤ r.den)
        × (0 < r.den))
rates_in_range_example =
    rates_in_range 5 (new_sliding_window 2) (new_sliding_window-IsValid 2 (omega arith))
