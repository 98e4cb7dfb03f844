-- ===== src/Resilience/Registry.antt =====
-- CircuitBreakerRegistry of internal/resilience/registry.go. A pointer to a breaker is a number: that
-- of its creation. The maps are lists of entries.
pub mod Apart
pub mod Goroutines
pub mod Shared
use arcana_cloud_go.Base.{
  ℕ, ◌+◌, ◌≡◌, String, Bool, true, false, Option, none, some, List, [], ◌∷◌, ◌==◌, str_eq,
  if◌then◌else◌, option_map, zero, suc,
}
use arcana_cloud_go.Table.{find?}
use arcana_cloud_go.Resilience.CircuitBreaker.{
  CircuitBreaker, CircuitBreakerConfig, default_circuit_breaker_config, new_circuit_breaker, reset,
}

pub record CircuitBreakerRegistry : Type 0 where
  pub breakers : List (String × ℕ)
  pub configs : List (String × CircuitBreakerConfig)
  pub heap : ℕ → CircuitBreaker
  pub created : ℕ

unfoldable pub new_circuit_breaker_registry : (ℕ → CircuitBreaker) → CircuitBreakerRegistry
new_circuit_breaker_registry heap = record { breakers = []; configs = []; heap = heap; created = 0 }

-- The latest configuration of a name stands first.
unfoldable pub register_config :
    CircuitBreakerConfig → CircuitBreakerRegistry → CircuitBreakerRegistry
register_config config r = record r { configs = (config.name, config) ∷ r.configs }

config_for : Option CircuitBreakerConfig → String → CircuitBreakerConfig
config_for none name = default_circuit_breaker_config name
config_for (some config) name = config

-- What `Get` does under the write lock, after it has looked the name up there again.
get_locked : Option ℕ → String → CircuitBreakerRegistry → CircuitBreakerRegistry × ℕ
unfolding config_for
get_locked (some cb) name r = (r, cb)
get_locked none name r = (
  record r {
    breakers = (name, r.created) ∷ r.breakers;
    heap = λ p.
        if p == r.created
        then new_circuit_breaker (config_for (find? name r.configs) name)
        else r.heap p;
    created = r.created + 1;
  },
  r.created,
)

-- The goroutines that call `Get`: the registry they share, the names of those that have left the read
-- section without a breaker and wait for the write lock, and the results returned so far, the latest
-- first.
pub record Callers : Type 0 where
  pub registry : CircuitBreakerRegistry
  pub waiting : List String
  pub returned : List (String × ℕ)

read_section : Option ℕ → String → Callers → Callers
read_section (some cb) name c = record c { returned = (name, cb) ∷ c.returned }
read_section none name c = record c { waiting = name ∷ c.waiting }

-- `Get` up to the end of its read section.
unfoldable pub begin_get : String → Callers → Callers
unfolding read_section
begin_get name c = read_section (find? name c.registry.breakers) name c

-- One of the goroutines that wait, and the others.
unfoldable pub pick : ℕ → List String → Option (String × List String)
pick n [] = none
pick zero (name ∷ names) = some (name, names)
pick (suc n) (name ∷ names) = option_map (λ p. (p.0, name ∷ p.1)) (pick n names)

write_section : Option (String × List String) → Callers → Callers
unfolding get_locked
write_section none c = c
write_section (some (name, others)) c =
    let out = get_locked (find? name c.registry.breakers) name c.registry in
    record { registry = out.0; waiting = others; returned = (name, out.1) ∷ c.returned }

-- The rest of `Get` for one of the goroutines that wait, under the write lock.
unfoldable pub finish_get : ℕ → Callers → Callers
unfolding pick write_section
finish_get n c = write_section (pick n c.waiting) c

reset_each : List (String × ℕ) → (ℕ → CircuitBreaker) → ℕ → CircuitBreaker
reset_each [] heap = heap
reset_each ((name, p) ∷ t) heap = reset_each t (λ q. if q == p then reset (heap p) else heap q)

-- `Reset`
unfoldable pub reset_all : CircuitBreakerRegistry → CircuitBreakerRegistry
unfolding reset_each
reset_all r = record r { heap = reset_each r.breakers r.heap }
