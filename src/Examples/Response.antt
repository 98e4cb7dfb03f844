-- ===== src/Examples/Response.antt =====
-- Two goroutines that both miss a breaker, and a third that comes in between.
use arcana_cloud_go.Base.{ℕ, ◌==◌, str_eq, ◌≡◌, refl, List, [], ◌∷◌}
use arcana_cloud_go.Resilience.CircuitBreaker.{
  CircuitBreaker, default_circuit_breaker_config, new_circuit_breaker,
}
use arcana_cloud_go.Resilience.Registry.{
  new_circuit_breaker_registry, register_config, begin_get, finish_get, reset_all,
}
use arcana_cloud_go.Resilience.Registry.Goroutines.{Event, registers, resets, begins, finishes}
use arcana_cloud_go.Resilience.Registry.Shared.{one_breaker}

abbrev fresh_heap : ℕ → CircuitBreaker
fresh_heap p = new_circuit_breaker (default_circuit_breaker_config "mail")

-- Both have left the read section before the first of them writes.
abbrev race : List Event
race =
    begins "mail"
    ∷ begins "mail"
    ∷ finishes 1
    ∷ registers (default_circuit_breaker_config "mail")
    ∷ begins "mail"
    ∷ resets
    ∷ finishes 0
    ∷ begins "sms"
    ∷ finishes 0
    ∷ []

-- The last to return, which asks for another name, and the first.
one_breaker_example : (1 == 0) ≡ str_eq "sms" "mail"
unfolding new_circuit_breaker_registry register_config begin_get finish_get reset_all
one_breaker_example = one_breaker fresh_heap race 0 3 "sms" "mail" 1 0 refl refl
