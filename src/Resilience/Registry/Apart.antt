-- ===== src/Resilience/Registry/Apart.antt =====
-- The registry has one breaker for each name, and no breaker for two names.
use mathlib.Core.Option.{some-injective}
use arcana_cloud_go.Base.{
  ℕ, ◌+◌, ◌<◌, ◌==◌, ◌≡◌, ◌⊎◌, true, false, arith, refl, sym, ap, ◌∙◌, String, none, some, Option,
  List, [], ◌∷◌, str_eq, str_eq_iff, Bool-cases, inl, inr, subst,
}
use arcana_cloud_go.Table.{find?}
use arcana_cloud_go.Resilience.CircuitBreaker.{CircuitBreaker}
use arcana_cloud_go.Resilience.Registry.{
  CircuitBreakerRegistry, new_circuit_breaker_registry, Callers, register_config, get_locked,
  read_section, begin_get, pick, write_section, finish_get, reset_all,
}
use arcana_cloud_go.Resilience.Registry.Goroutines.{
  Event, registers, resets, begins, finishes, take_event, run,
}

-- The breakers held are made, and no two names share one.
pub record Apart (r : CircuitBreakerRegistry) : Type 0 where
  pub below : (a : String) (p : ℕ) → find? a r.breakers ≡ some p → p < r.created
  pub own :
      (a b : String) (p : ℕ) → find? a r.breakers ≡ some p → find? b r.breakers ≡ some p → a ≡ b

pub none_yet : (heap : ℕ → CircuitBreaker) → Apart (new_circuit_breaker_registry heap)
unfolding new_circuit_breaker_registry
none_yet heap = record { below = λ a p e. cc; own = λ a b p e e'. cc }

-- What is found once a name has a new breaker.
find-new :
    (name a : String) (new p : ℕ) (breakers : List (String × ℕ))
    → find? a ((name, new) ∷ breakers) ≡ some p
    → ((name ≡ a) × (p ≡ new)) ⊎ (find? a breakers ≡ some p)
find-new name a new p breakers e = elim (Bool-cases (str_eq name a)) [
  | inl same ↦ inl ((str_eq_iff name a).0 same, sym (at_name same))
  | inr other ↦ inr (elsewhere other ∙ e)
]
  where
    at_name : str_eq name a ≡ true → new ≡ p
    at_name same = some-injective new p (sym (rw same refl) ∙ e)

    elsewhere : str_eq name a ≡ false → find? a breakers ≡ find? a ((name, new) ∷ breakers)
    elsewhere other = rw other refl

new-Apart :
    (name : String) (r r' : CircuitBreakerRegistry)
    → r'.breakers ≡ (name, r.created) ∷ r.breakers
    → r'.created ≡ r.created + 1
    → Apart r
    → Apart r'
new-Apart name r r' held made h = record {
  below = λ a p e. elim (find-new name a r.created p r.breakers (found a p e)) [
    | inl (same, is) ↦ ground (arith, made, is)
    | inr old ↦ ground (arith, made, h.below a p old)
  ];
  own = λ a b p e e'. elim (find-new name a r.created p r.breakers (found a p e)) [
    | inl (same, is) ↦ elim (find-new name b r.created p r.breakers (found b p e')) [
      | inl (same', is') ↦ sym same ∙ same'
      | inr old' ↦ ground (arith, is, h.below b p old')
    ]
    | inr old ↦ elim (find-new name b r.created p r.breakers (found b p e')) [
      | inl (same', is') ↦ ground (arith, is', h.below a p old)
      | inr old' ↦ h.own a b p old old'
    ]
  ];
}
  where
    found :
        (a : String) (p : ℕ)
        → find? a r'.breakers ≡ some p
        → find? a ((name, r.created) ∷ r.breakers) ≡ some p
    found a p e = subst (λ l. find? a l ≡ some p) held e

get_locked-Apart :
    (name : String) (o : Option ℕ) (r : CircuitBreakerRegistry)
    → Apart r
    → Apart (get_locked o name r).0
unfolding get_locked
get_locked-Apart name (some p) r h = h
get_locked-Apart name none r h = new-Apart name r (get_locked none name r).0 refl refl h

write_section-Apart :
    (o : Option (String × List String)) (c : Callers)
    → Apart c.registry
    → Apart (write_section o c).registry
unfolding write_section
write_section-Apart none c h = h
write_section-Apart (some (name, others)) c h =
    get_locked-Apart name (find? name c.registry.breakers) c.registry h

read_section-Apart :
    (o : Option ℕ) (name : String) (c : Callers)
    → Apart c.registry
    → Apart (read_section o name c).registry
unfolding read_section
read_section-Apart none name c h = h
read_section-Apart (some p) name c h = h

take_event-Apart : (e : Event) (c : Callers) → Apart c.registry → Apart (take_event e c).registry
unfolding register_config reset_all begin_get finish_get
take_event-Apart (registers config) c h = record { below = h.below; own = h.own }
take_event-Apart resets c h = record { below = h.below; own = h.own }
take_event-Apart (begins name) c h = read_section-Apart (find? name c.registry.breakers) name c h
take_event-Apart (finishes n) c h = write_section-Apart (pick n c.waiting) c h

pub run-Apart :
    (events : List Event) (c : Callers) → Apart c.registry → Apart (run events c).registry
run-Apart [] c h = h
run-Apart (e ∷ events) c h = run-Apart events (take_event e c) (take_event-Apart e c h)

pub one_each :
    (r : CircuitBreakerRegistry) (a b : String) (p q : ℕ)
    → Apart r
    → find? a r.breakers ≡ some p
    → find? b r.breakers ≡ some q
    → (p == q) ≡ str_eq a b
one_each r a b p q apart e e' = elim (Bool-cases (str_eq a b)) [
  | inl same ↦
      let found : find? a r.breakers ≡ some q =
        ap (λ n. find? n r.breakers) ((str_eq_iff a b).0 same) ∙ e' in
      let shared : p ≡ q = some-injective p q (sym e ∙ found) in ground (arith, same, shared)
  | inr other ↦ elim (Bool-cases (p == q)) [
    | inl shared ↦
        let is : q ≡ p = ground (arith, shared) in
        let same : a ≡ b = apart.own a b p e (e' ∙ ap some is) in
        absurd (clash (sym ((str_eq_iff a b).1 same) ∙ other))
    | inr distinct ↦ distinct ∙ sym other
  ]
]
  where
    clash : true ≡ false → ⊥
    clash x = cc
