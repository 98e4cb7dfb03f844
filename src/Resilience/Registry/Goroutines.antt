-- ===== src/Resilience/Registry/Goroutines.antt =====
-- The goroutines that share a registry, as sequences of the sections that they run under its locks.
use arcana_cloud_go.Base.{ℕ, String, List, [], ◌∷◌}
use arcana_cloud_go.Resilience.CircuitBreaker.{CircuitBreakerConfig}
use arcana_cloud_go.Resilience.Registry.{
  CircuitBreakerRegistry, Callers, register_config, begin_get, finish_get, reset_all,
}

-- A goroutine runs one section of `Get`, `RegisterConfig` or `Reset`.
pub data Event : Type 0 where
  registers : CircuitBreakerConfig → Event
  resets : Event
  begins : String → Event
  finishes : ℕ → Event

abbrev pub take_event : Event → Callers → Callers
take_event (registers config) c = record c { registry = register_config config c.registry }
take_event resets c = record c { registry = reset_all c.registry }
take_event (begins name) c = begin_get name c
take_event (finishes n) c = finish_get n c

abbrev pub run : List Event → Callers → Callers
run [] c = c
run (e ∷ events) c = run events (take_event e c)

-- Nobody is inside `Get`, and nothing has been returned.
abbrev pub at_rest : CircuitBreakerRegistry → Callers
at_rest r = record { registry = r; waiting = []; returned = [] }
