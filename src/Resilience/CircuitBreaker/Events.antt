-- ===== src/Resilience/CircuitBreaker/Events.antt =====
-- Many goroutines share one breaker: what they do to it is a sequence of atomic events, and
-- `Execute` is an arrival that is followed, if it was admitted, by a return.
use arcana_cloud_go.Base.{ℕ, ◌-◌, ◌≡◌, Bool, Option, none, some, List, [], ◌∷◌, arith}
use arcana_cloud_go.Resilience.CircuitBreaker.{
  CircuitBreaker, Call, Err, allow_request, record_outcome, record_rejection, reset, execute,
  succeeded,
}

pub data Event : Type 0 where
  arrives : ℕ → Event  -- at this time
  returns : Bool → ℕ → ℕ → Event  -- success, duration, time
  resets : Event

reject_if : CircuitBreaker × Option Err → CircuitBreaker
reject_if (cb, none) = cb
reject_if (cb, some e) = record_rejection cb

-- The first half of `Execute`.
unfoldable pub arrive : ℕ → CircuitBreaker → CircuitBreaker
unfolding reject_if
arrive now cb = reject_if (allow_request now cb)

unfoldable pub step : Event → CircuitBreaker → Option CircuitBreaker
step (arrives now) cb = some (arrive now cb)
step (returns success duration now) cb = record_outcome success duration now cb
step resets cb = some (reset cb)

abbrev pub then_step : Event → Option CircuitBreaker → Option CircuitBreaker
then_step e none = none
then_step e (some cb) = step e cb

-- The oldest event is the last of the list.
unfoldable pub run : List Event → CircuitBreaker → Option CircuitBreaker
run [] cb = some cb
run (e ∷ es) cb = then_step e (run es cb)

abbrev pub with_error : Option CircuitBreaker → Option Err → Option (CircuitBreaker × Option Err)
with_error none e = none
with_error (some cb) e = some (cb, e)

abbrev pub after_arrival :
    Option Err → ℕ → Call → CircuitBreaker → Option (CircuitBreaker × Option Err)
after_arrival (some e) now call cb = some (cb, some e)
after_arrival none now call cb =
    with_error
      (step (returns (succeeded call.error) (call.finished_at - now) call.finished_at)
        (call.meanwhile cb))
      call.error

-- `Execute` is an arrival; a refused call returns the refusal, and an admitted one is, after what
-- the other goroutines did meanwhile, a return with the function's own result and duration.
pub execute-events :
    (now : ℕ) (call : Call) (cb : CircuitBreaker)
    → execute now call cb ≡ after_arrival (allow_request now cb).1 now call (arrive now cb)
unfolding execute arrive step
execute-events now call cb = ground arith
