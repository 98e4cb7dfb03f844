-- ===== src/Resilience/CircuitBreaker/Recovery.antt =====
-- The open and the half-open state: rejections, probes, and what can go wrong with them.
use arcana_cloud_go.Base.{
  ℕ, ◌+◌, ◌-◌, ◌≤◌, ◌<◌, ◌≡◌, refl, true, false, ◌⊎◌, Option, none, some, List, [], ◌∷◌, arith, min,
  All, length,
}
use arcana_cloud_go.Resilience.CircuitBreaker.{
  CircuitBreaker, CircuitBreakerConfig, open_, half_open, allow_request, record_outcome, recorded,
  record_rejection, circuit_open, too_many_requests,
}
use arcana_cloud_go.Resilience.CircuitBreaker.Events.{
  Event, arrives, returns, resets, arrive, step, run, then_step,
}

-- Within the timeout, an open breaker refuses every arrival with `ErrCircuitOpen`; after it, the
-- first arrival is let through and is the first request of the half-open state.
pub open_arrival :
    (now : ℕ) (cb : CircuitBreaker)
    → cb.state ≡ open_
    → ((now - cb.last_failure ≤ cb.config.timeout)
        × (allow_request now cb ≡ (cb, some circuit_open)))
      ⊎ ((cb.config.timeout < now - cb.last_failure)
          × ((allow_request now cb).1 ≡ none)
          × ((arrive now cb).state ≡ half_open)
          × ((arrive now cb).half_open_requests ≡ 1))
unfolding allow_request arrive
open_arrival now cb h = ground arith

-- Nothing but time opens the breaker again: late returns and arrivals within the timeout.
abbrev pub Quiet : CircuitBreakerConfig → ℕ → Event → Type 0
Quiet c failed_at (arrives now) = now - failed_at ≤ c.timeout
Quiet c failed_at (returns b d now) = Unit
Quiet c failed_at resets = ⊥

abbrev pub arrivals : List Event → ℕ
arrivals [] = 0
arrivals (arrives now ∷ es) = arrivals es + 1
arrivals (returns b d now ∷ es) = arrivals es
arrivals (resets ∷ es) = arrivals es

Quiet-step :
    (c : CircuitBreakerConfig) (t : ℕ) (e : Event) (cb cb' : CircuitBreaker)
    → cb.config ≡ c
    → cb.state ≡ open_
    → cb.last_failure ≡ t
    → Quiet c t e
    → step e cb ≡ some cb'
    → (cb'.config ≡ c)
      × (cb'.state ≡ open_)
      × (cb'.last_failure ≡ t)
      × (cb'.metrics.rejected_calls ≡ cb.metrics.rejected_calls + arrivals (e ∷ []))
unfolding step arrive allow_request record_rejection record_outcome recorded
Quiet-step c t (arrives now) cb cb' ec s l q h = ground arith
Quiet-step c t (returns true d now) cb cb' ec s l q h = ground arith
Quiet-step c t (returns false d now) cb cb' ec s l q h = ground arith
Quiet-step c t resets cb cb' ec s l q h = absurd q

arrivals_cons : (e : Event) (es : List Event) → arrivals (e ∷ es) ≡ arrivals es + arrivals (e ∷ [])
arrivals_cons (arrives now) es = omega arith
arrivals_cons (returns b d now) es = omega arith
arrivals_cons resets es = omega arith

-- An open breaker stays open under late returns and under arrivals within the timeout after the
-- failure that opened it, and counts each arrival as rejected.
pub open_stays :
    (c : CircuitBreakerConfig) (es : List Event) (cb cb' : CircuitBreaker)
    → cb.config ≡ c
    → cb.state ≡ open_
    → All (Quiet c cb.last_failure) es
    → run es cb ≡ some cb'
    → (cb'.config ≡ c)
      × (cb'.state ≡ open_)
      × (cb'.last_failure ≡ cb.last_failure)
      × (cb'.metrics.rejected_calls ≡ cb.metrics.rejected_calls + arrivals es)
unfolding run
open_stays c [] cb cb' ec s q h = ground arith
open_stays c (e ∷ es) cb cb' ec s (q, qs) h =
    go (λ mid. open_stays c es cb mid ec s qs) (run es cb) refl h
  where
    go :
        ((mid : CircuitBreaker)
          → run es cb ≡ some mid
          → (mid.config ≡ c)
            × (mid.state ≡ open_)
            × (mid.last_failure ≡ cb.last_failure)
            × (mid.metrics.rejected_calls ≡ cb.metrics.rejected_calls + arrivals es))
        → (o : Option CircuitBreaker) → run es cb ≡ o
        → then_step e o ≡ some cb'
        → (cb'.config ≡ c)
          × (cb'.state ≡ open_)
          × (cb'.last_failure ≡ cb.last_failure)
          × (cb'.metrics.rejected_calls ≡ cb.metrics.rejected_calls + arrivals (e ∷ es))
    go ih none eo h = cc
    go ih (some mid) eo h =
        let (c1, s1, l1, r1) = ih mid eo in
        let (c2, s2, l2, r2) = Quiet-step c cb.last_failure e mid cb' c1 s1 l1 q h in
        (c2, s2, l2, omega (arith, arrivals_cons e es))

-- Arrivals in a row, the last of them at the head.
pub arrive_n : List ℕ → CircuitBreaker → CircuitBreaker
arrive_n [] cb = cb
arrive_n (now ∷ times) cb = arrive now (arrive_n times cb)

arrive_half_open :
    (now : ℕ) (cb : CircuitBreaker)
    → cb.state ≡ half_open
    → cb.half_open_requests ≤ cb.config.max_half_open_requests
    → let cb' = arrive now cb in
      (cb'.state ≡ half_open)
      × (cb'.config ≡ cb.config)
      × (cb'.half_open_requests ≡ min cb.config.max_half_open_requests (cb.half_open_requests + 1))
      × (cb'.half_open_requests + cb'.metrics.rejected_calls
          ≡ cb.half_open_requests + cb.metrics.rejected_calls + 1)
unfolding arrive allow_request record_rejection
arrive_half_open now cb s h = ground arith

-- In the half-open state, n arrivals in a row let through what is left of
-- `MaxHalfOpenRequests`, and reject the rest.
pub half_open_capped :
    (times : List ℕ) (cb : CircuitBreaker)
    → cb.state ≡ half_open
    → cb.half_open_requests ≤ cb.config.max_half_open_requests
    → let cb' = arrive_n times cb in
      (cb'.state ≡ half_open)
      × (cb'.config ≡ cb.config)
      × (cb'.half_open_requests
          ≡ min cb.config.max_half_open_requests (cb.half_open_requests + length times))
      × (cb'.half_open_requests + cb'.metrics.rejected_calls
          ≡ cb.half_open_requests + cb.metrics.rejected_calls + length times)
unfolding arrive_n
half_open_capped [] cb s h = ground arith
half_open_capped (now ∷ times) cb s h =
    ground (arith, half_open_capped times cb s h, arrive_half_open now (arrive_n times cb))

-- A half-open breaker that fails opens without noting the time: the timeout is still counted from
-- the failure that opened it first, so the next arrival is let through at once.
pub relapse_admits :
    (d now later : ℕ) (cb cb' : CircuitBreaker)
    → cb.state ≡ half_open
    → cb.config.timeout < now - cb.last_failure
    → now ≤ later
    → step (returns false d now) cb ≡ some cb'
    → (cb'.state ≡ open_)
      × ((allow_request later cb').1 ≡ none)
      × ((arrive later cb').state ≡ half_open)
unfolding step record_outcome recorded allow_request arrive
relapse_admits d now later cb cb' s t le h = ground arith

-- A half-open breaker whose requests are used up, fed with successes that are too few.
abbrev pub OnlySuccesses : Event → Type 0
OnlySuccesses (arrives now) = Unit
OnlySuccesses (returns b d now) = b ≡ true
OnlySuccesses resets = ⊥

abbrev pub return_count : List Event → ℕ
return_count [] = 0
return_count (arrives now ∷ es) = return_count es
return_count (returns b d now ∷ es) = return_count es + 1
return_count (resets ∷ es) = return_count es

abbrev Full : CircuitBreakerConfig → CircuitBreaker → Type 0
Full c cb =
    (cb.config ≡ c) × (cb.state ≡ half_open) × (c.max_half_open_requests ≤ cb.half_open_requests)

Full-step :
    (c : CircuitBreakerConfig) (e : Event) (cb cb' : CircuitBreaker)
    → Full c cb
    → OnlySuccesses e
    → cb.successes + return_count (e ∷ []) < c.success_threshold
    → step e cb ≡ some cb'
    → Full c cb' × (cb'.successes ≡ cb.successes + return_count (e ∷ []))
unfolding step arrive allow_request record_rejection record_outcome recorded
Full-step c (arrives now) cb cb' f o lt h = ground arith
Full-step c (returns true d now) cb cb' f o lt h = ground arith
Full-step c (returns false d now) cb cb' f o lt h = cc
Full-step c resets cb cb' f o lt h = absurd o

return_count_cons :
    (e : Event) (es : List Event) → return_count (e ∷ es) ≡ return_count es + return_count (e ∷ [])
return_count_cons (arrives now) es = omega arith
return_count_cons (returns b d now) es = omega arith
return_count_cons resets es = omega arith

successes_keep-Full :
    (c : CircuitBreakerConfig) (es : List Event) (cb cb' : CircuitBreaker)
    → Full c cb
    → All OnlySuccesses es
    → cb.successes + return_count es < c.success_threshold
    → run es cb ≡ some cb'
    → Full c cb' × (cb'.successes ≡ cb.successes + return_count es)
unfolding run
successes_keep-Full c [] cb cb' f o lt h = ground arith
successes_keep-Full c (e ∷ es) cb cb' f (o, os) lt h =
    go (run es cb)
      (λ mid. successes_keep-Full c es cb mid f os (omega (arith, return_count_cons e es))) h
  where
    go :
        (o : Option CircuitBreaker)
        → ((mid : CircuitBreaker)
            → o ≡ some mid
            → Full c mid × (mid.successes ≡ cb.successes + return_count es))
        → then_step e o ≡ some cb'
        → Full c cb' × (cb'.successes ≡ cb.successes + return_count (e ∷ es))
    go none ih h = cc
    go (some mid) ih h =
        let (f1, s1) = ih mid refl in
        let (f2, s2) = Full-step c e mid cb' f1 o (omega (arith, return_count_cons e es)) h in
        (f2, omega (arith, return_count_cons e es))

-- Slots of the half-open state are never given back: once they are used up and the calls that hold
-- them have all succeeded, but are fewer than the threshold, the breaker stays half-open and
-- refuses every later arrival, at any time.
pub half_open_wedged :
    (c : CircuitBreakerConfig) (es : List Event) (cb cb' : CircuitBreaker) (now : ℕ)
    → cb.config ≡ c
    → cb.state ≡ half_open
    → c.max_half_open_requests ≤ cb.half_open_requests
    → All OnlySuccesses es
    → cb.successes + return_count es < c.success_threshold
    → run es cb ≡ some cb'
    → (cb'.state ≡ half_open) × (allow_request now cb' ≡ (cb', some too_many_requests))
unfolding allow_request
half_open_wedged c es cb cb' now ec s m os lt h =
    let (f, _) = successes_keep-Full c es cb cb' (ec, s, m) os lt h in ground arith
