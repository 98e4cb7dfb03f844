-- ===== src/Resilience/CircuitBreaker.antt =====
-- internal/resilience/circuitbreaker.go. A method that mutates `*CircuitBreaker` returns the new
-- record; `none` is a panic. Times and durations are nanoseconds, and each call takes the clock's
-- reading as an argument. The mutexes make every method atomic, so a method is one step.
pub mod Events
pub mod Invariant
pub mod Transitions
pub mod Recovery
use arcana_cloud_go.Base.{
  ℕ, ◌+◌, ◌-◌, ◌*◌, String, Bool, true, false, Option, none, some, ltb, leb, if◌then◌else◌,
}
use arcana_cloud_go.Resilience.SlidingWindow.{SlidingWindow, new_sliding_window, record_call}

pub data State : Type 0 where
  closed open_ half_open : State

unfoldable pub state_string : State → String
state_string closed = "CLOSED"
state_string open_ = "OPEN"
state_string half_open = "HALF_OPEN"

pub data Err : Type 0 where
  circuit_open too_many_requests : Err
  failed : ℕ → Err  -- an error of the protected function

-- `SlowCallRateThreshold` is a float that no code reads, and is left out.
pub record CircuitBreakerConfig : Type 0 where
  pub name : String
  pub failure_threshold : ℕ
  pub success_threshold : ℕ
  pub timeout : ℕ
  pub max_half_open_requests : ℕ
  pub sliding_window_size : ℕ
  pub sliding_window_type : String
  pub slow_call_duration_threshold : ℕ

abbrev pub second : ℕ
second = 1_000_000_000

unfoldable pub default_circuit_breaker_config : String → CircuitBreakerConfig
default_circuit_breaker_config name = record {
  name = name;
  failure_threshold = 5;
  success_threshold = 3;
  timeout = 30 * second;
  max_half_open_requests = 3;
  sliding_window_size = 10;
  sliding_window_type = "count";
  slow_call_duration_threshold = 2 * second;
}

pub record CircuitBreakerMetrics : Type 0 where
  pub total_calls : ℕ
  pub successful_calls : ℕ
  pub failed_calls : ℕ
  pub rejected_calls : ℕ
  pub slow_calls : ℕ
  pub state_transitions : ℕ

pub record CircuitBreaker : Type 0 where
  pub config : CircuitBreakerConfig
  pub state : State
  pub failures : ℕ
  pub successes : ℕ
  pub half_open_requests : ℕ
  pub last_failure : ℕ
  pub metrics : CircuitBreakerMetrics
  pub sliding_window : SlidingWindow

unfoldable pub new_circuit_breaker : CircuitBreakerConfig → CircuitBreaker
new_circuit_breaker config = record {
  config = config;
  state = closed;
  failures = 0;
  successes = 0;
  half_open_requests = 0;
  last_failure = 0;
  metrics = record {
    total_calls = 0;
    successful_calls = 0;
    failed_calls = 0;
    rejected_calls = 0;
    slow_calls = 0;
    state_transitions = 0;
  };
  sliding_window = new_sliding_window config.sliding_window_size;
}

abbrev same_state : State → State → Bool
same_state closed closed = true
same_state open_ open_ = true
same_state half_open half_open = true
same_state _ _ = false

unfoldable pub transition_to : State → CircuitBreaker → CircuitBreaker
transition_to new_state cb = if same_state cb.state new_state then cb else record cb {
  state = new_state;
  failures = 0;
  successes = 0;
  half_open_requests = 0;
  metrics = record m { state_transitions = m.state_transitions + 1 };
}
  where
    m : CircuitBreakerMetrics
    m = cb.metrics

-- The switch of `allowRequest`; `none` in the second place is a nil error.
admit : State → ℕ → CircuitBreaker → CircuitBreaker × Option Err
unfolding transition_to
admit closed now cb = (cb, none)
admit open_ now cb =
    if ltb cb.config.timeout (now - cb.last_failure)
    then (record (transition_to half_open cb) { half_open_requests = 1 }, none)
    else (cb, some circuit_open)
admit half_open now cb =
    if leb cb.config.max_half_open_requests cb.half_open_requests
    then (cb, some too_many_requests)
    else (record cb { half_open_requests = cb.half_open_requests + 1 }, none)

unfoldable pub allow_request : ℕ → CircuitBreaker → CircuitBreaker × Option Err
unfolding admit
allow_request now cb = admit cb.state now cb

unfoldable pub update_metrics : Bool → ℕ → CircuitBreaker → CircuitBreaker
update_metrics success duration cb = record cb {
  metrics = record m {
    total_calls = m.total_calls + 1;
    successful_calls = if success then m.successful_calls + 1 else m.successful_calls;
    failed_calls = if success then m.failed_calls else m.failed_calls + 1;
    slow_calls =
        if ltb cb.config.slow_call_duration_threshold duration
        then m.slow_calls + 1
        else m.slow_calls;
  };
}
  where
    m : CircuitBreakerMetrics
    m = cb.metrics

unfoldable pub update_state_closed : Bool → ℕ → CircuitBreaker → CircuitBreaker
unfolding transition_to
update_state_closed true now cb = record cb { failures = 0 }
update_state_closed false now cb =
    let cb' = record cb { failures = cb.failures + 1; last_failure = now } in
    if leb cb.config.failure_threshold (cb.failures + 1) then transition_to open_ cb' else cb'

unfoldable pub update_state_half_open : Bool → CircuitBreaker → CircuitBreaker
unfolding transition_to
update_state_half_open true cb =
    let cb' = record cb { successes = cb.successes + 1 } in
    if leb cb.config.success_threshold (cb.successes + 1) then transition_to closed cb' else cb'
update_state_half_open false cb = transition_to open_ cb

-- The switch of `recordOutcome`: a result that arrives in the open state changes no state.
update_state : State → Bool → ℕ → CircuitBreaker → CircuitBreaker
unfolding update_state_closed update_state_half_open
update_state closed success now cb = update_state_closed success now cb
update_state half_open success now cb = update_state_half_open success cb
update_state open_ success now cb = cb

-- What `recordOutcome` does once the window has taken the call.
pub recorded : SlidingWindow → Bool → ℕ → ℕ → CircuitBreaker → CircuitBreaker
unfolding update_state update_metrics
recorded sw success duration now cb =
    update_state cb.state success now
      (update_metrics success duration (record cb { sliding_window = sw }))

record_in : Option SlidingWindow → Bool → ℕ → ℕ → CircuitBreaker → Option CircuitBreaker
unfolding recorded
record_in none success duration now cb = none
record_in (some sw) success duration now cb = some (recorded sw success duration now cb)

unfoldable pub record_outcome : Bool → ℕ → ℕ → CircuitBreaker → Option CircuitBreaker
unfolding record_in
record_outcome success duration now cb =
    record_in (record_call success duration cb.sliding_window) success duration now cb

unfoldable pub record_rejection : CircuitBreaker → CircuitBreaker
record_rejection cb = record cb { metrics = record m { rejected_calls = m.rejected_calls + 1 } }
  where
    m : CircuitBreakerMetrics
    m = cb.metrics

-- `Reset` leaves the window, the metrics and the time of the last failure alone.
unfoldable pub reset : CircuitBreaker → CircuitBreaker
reset cb = record cb { state = closed; failures = 0; successes = 0; half_open_requests = 0 }

-- A call of the protected function: what it returns, when it returns, and what other goroutines do
-- to the breaker in between, since no lock is held then.
pub record Call : Type 0 where
  pub error : Option Err
  pub finished_at : ℕ
  pub meanwhile : CircuitBreaker → CircuitBreaker

abbrev pub succeeded : Option Err → Bool
succeeded none = true
succeeded (some e) = false

finish : Option CircuitBreaker → Option Err → Option (CircuitBreaker × Option Err)
finish none e = none
finish (some cb) e = some (cb, e)

execute_if : CircuitBreaker × Option Err → ℕ → Call → Option (CircuitBreaker × Option Err)
unfolding record_rejection finish
execute_if (cb, some e) now call = some (record_rejection cb, some e)
execute_if (cb, none) now call =
    finish
      (record_outcome (succeeded call.error) (call.finished_at - now) call.finished_at
        (call.meanwhile cb))
      call.error

unfoldable pub execute : ℕ → Call → CircuitBreaker → Option (CircuitBreaker × Option Err)
unfolding execute_if
execute now call cb = execute_if (allow_request now cb) now call

-- `ExecuteWithFallback`: the fallback turns an error into its own result.
fall_back :
    (Err → Option Err) → Option (CircuitBreaker × Option Err) → Option (CircuitBreaker × Option Err)
fall_back fallback (some (cb, some e)) = some (cb, fallback e)
fall_back fallback (some (cb, none)) = some (cb, none)
fall_back fallback none = none

unfoldable pub execute_with_fallback :
    ℕ → Call → (Err → Option Err) → CircuitBreaker → Option (CircuitBreaker × Option Err)
unfolding fall_back
execute_with_fallback now call fallback cb = fall_back fallback (execute now call cb)
