-- ===== src/Resilience/CircuitBreaker/Transitions.antt =====
-- Which transitions happen, and when the breaker trips.
use arcana_cloud_go.Base.{
  ℕ, ◌+◌, ◌≤◌, ◌<◌, ◌≡◌, ◌≢◌, refl, true, false, ◌⊎◌, inl, inr, some, List, [], ◌∷◌, map, arith,
  length,
}
use arcana_cloud_go.Resilience.SlidingWindow.Bounds.{record_call-IsValid}
use arcana_cloud_go.Resilience.CircuitBreaker.{
  CircuitBreaker, CircuitBreakerConfig, State, closed, open_, half_open, new_circuit_breaker,
  allow_request, record_outcome, recorded, record_rejection,
}
use arcana_cloud_go.Resilience.CircuitBreaker.Events.{
  Event, arrives, returns, resets, arrive, step, run,
}
use arcana_cloud_go.Resilience.CircuitBreaker.Invariant.{Inv, IsConfig, step-Inv, new-Inv}

-- The diagram, without `Reset`.
infix 40 ◌⟶◌
pub data ◌⟶◌ : State → State → Type 0 where
  trip : closed ⟶ open_
  probe : open_ ⟶ half_open
  recover : half_open ⟶ closed
  relapse : half_open ⟶ open_

-- An event other than `Reset` keeps the state and the count of transitions, or follows an edge of
-- the diagram and adds one to the count.
pub step-⟶ :
    (e : Event) (cb cb' : CircuitBreaker)
    → e ≢ resets
    → step e cb ≡ some cb'
    → ((cb'.state ≡ cb.state) × (cb'.metrics.state_transitions ≡ cb.metrics.state_transitions))
      ⊎ ((cb.state ⟶ cb'.state)
          × (cb'.metrics.state_transitions ≡ cb.metrics.state_transitions + 1))
unfolding step arrive allow_request record_outcome record_rejection recorded
step-⟶ (arrives now) cb cb' ne h = grind (arith, trip, probe, recover, relapse)
step-⟶ (returns true d now) cb cb' ne h = grind (arith, trip, probe, recover, relapse)
step-⟶ (returns false d now) cb cb' ne h = grind (arith, trip, probe, recover, relapse)
step-⟶ resets cb cb' ne h = absurd (ne refl)

abbrev failure_at : ℕ → Event
failure_at now = returns false 0 now

-- One failure of a closed breaker.
fails_once :
    (c : CircuitBreakerConfig) (d now : ℕ) (cb : CircuitBreaker)
    → Inv c cb
    → cb.state ≡ closed
    → (cb' : CircuitBreaker) × (step (returns false d now) cb ≡ some cb')
      × (cb'.last_failure ≡ now)
      × ((cb.failures + 1 < c.failure_threshold)
            × (cb'.state ≡ closed)
            × (cb'.failures ≡ cb.failures + 1)
          ⊎ (c.failure_threshold ≤ cb.failures + 1) × (cb'.state ≡ open_))
unfolding step record_outcome recorded
fails_once c d now cb v h =
    let (sw, e, w) = record_call-IsValid false d cb.sliding_window v.window in
    (recorded sw false d now cb, rw e refl, ground arith, ground arith)

fails_open :
    (c : CircuitBreakerConfig) (d now : ℕ) (cb : CircuitBreaker)
    → Inv c cb
    → cb.state ≡ open_
    → (cb' : CircuitBreaker) × (step (returns false d now) cb ≡ some cb') × (cb'.state ≡ open_)
unfolding step record_outcome recorded
fails_open c d now cb v h =
    let (sw, e, w) = record_call-IsValid false d cb.sliding_window v.window in
    (recorded sw false d now cb, rw e refl, ground arith)

abbrev pub failures_at : List (ℕ × ℕ) → List Event
failures_at = map λ f. returns false f.0 f.1

abbrev Counting : CircuitBreakerConfig → ℕ → CircuitBreaker → Type 0
Counting c n cb =
    (n < c.failure_threshold) × (cb.state ≡ closed) × (cb.failures ≡ n)
    ⊎ (c.failure_threshold ≤ n) × (cb.state ≡ open_)

new-Counting : (c : CircuitBreakerConfig) → IsConfig c → Counting c 0 (new_circuit_breaker c)
unfolding new_circuit_breaker
new-Counting c k = inl (k.failure_pos, refl, refl)

fails_next :
    (c : CircuitBreakerConfig) (n d now : ℕ) (cb cb' : CircuitBreaker)
    → IsConfig c
    → Inv c cb
    → Counting c n cb
    → step (returns false d now) cb ≡ some cb'
    → Counting c (n + 1) cb'
fails_next c n d now cb cb' k v (inl (lt, s, f)) e =
    let (cb'', e'', _, r) = fails_once c d now cb v s in ground arith
fails_next c n d now cb cb' k v (inr (le, s)) e =
    let (cb'', e'', r) = fails_open c d now cb v s in ground arith

-- From a fresh breaker, calls that all fail leave it closed, with their number counted, while they
-- are fewer than the threshold, and open from the threshold on.
pub failures_trip :
    (c : CircuitBreakerConfig) (calls : List (ℕ × ℕ))
    → IsConfig c
    → (cb : CircuitBreaker) × (run (failures_at calls) (new_circuit_breaker c) ≡ some cb)
      × ((length calls < c.failure_threshold) × (cb.state ≡ closed) × (cb.failures ≡ length calls)
          ⊎ (c.failure_threshold ≤ length calls) × (cb.state ≡ open_))
unfolding run
failures_trip c calls k = let (cb, e, v, r) = go calls in (cb, e, r)
  where
    go :
        (calls : List (ℕ × ℕ))
        → (cb : CircuitBreaker) × (run (failures_at calls) (new_circuit_breaker c) ≡ some cb)
          × Inv c cb
          × Counting c (length calls) cb
    go [] = (new_circuit_breaker c, refl, new-Inv c k, new-Counting c k)
    go ((d, now) ∷ calls) =
        let (cb, e, v, r) = go calls in
        let (cb', s, v') = step-Inv c (returns false d now) cb k v in
        (cb', rw e s, v', ground (arith, fails_next c (length calls) d now cb cb' k v r s))
