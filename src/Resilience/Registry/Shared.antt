-- ===== src/Resilience/Registry/Shared.antt =====
-- Goroutines that ask for a name get the same breaker, however their locks interleave.
use text.Mathlib.TextPositions.{eq_refl}
use arcana_cloud_go.Base.{
  ℕ, ◌==◌, ◌≡◌, refl, sym, ap, ◌∙◌, String, none, some, Option, List, [], ◌∷◌, str_eq, str_eq_iff,
  Bool-cases, Option-cases, inl, inr, All, get_elem?, zero, suc, subst,
}
use arcana_cloud_go.Table.{find?}
use arcana_cloud_go.Resilience.CircuitBreaker.{CircuitBreaker}
use arcana_cloud_go.Resilience.Registry.{
  CircuitBreakerRegistry, new_circuit_breaker_registry, Callers, register_config, get_locked,
  read_section, begin_get, pick, write_section, finish_get, reset_all,
}
use arcana_cloud_go.Resilience.Registry.Goroutines.{
  Event, registers, resets, begins, finishes, take_event, run, at_rest,
}
use arcana_cloud_go.Resilience.Registry.Apart.{none_yet, run-Apart, one_each}

-- The breaker returned is the one that the registry holds under the name.
abbrev Held : List (String × ℕ) → String × ℕ → Type 0
Held breakers e = find? e.0 breakers ≡ some e.1

find-get_locked :
    (name other : String) (p : ℕ) (r : CircuitBreakerRegistry)
    → find? name r.breakers ≡ some p
    → find? name (get_locked (find? other r.breakers) other r).0.breakers ≡ some p
unfolding get_locked
find-get_locked name other p r e = elim (Option-cases (find? other r.breakers)) [
  | inr (q, known) ↦ rw known e
  | inl unknown ↦ elim (Bool-cases (str_eq other name)) [
    | inl same ↦
        let none_here : find? name r.breakers ≡ none =
          ap (λ n. find? n r.breakers) (sym ((str_eq_iff other name).0 same)) ∙ unknown in
        absurd (none_some (sym none_here ∙ e))
    | inr apart ↦ rw (unknown, apart) e
  ]
]
  where
    none_some : none ≡ some p → ⊥
    none_some = λ h. cc

get_locked-Held :
    (name : String) (r : CircuitBreakerRegistry)
    → let out = get_locked (find? name r.breakers) name r in Held out.0.breakers (name, out.1)
unfolding get_locked
get_locked-Held name r = elim (Option-cases (find? name r.breakers)) [
  | inr (p, known) ↦ rw known known
  | inl unknown ↦ rw (unknown, eq_refl name) refl
]

get_locked-All-Held :
    (name : String) (r : CircuitBreakerRegistry) (l : List (String × ℕ))
    → All (Held r.breakers) l
    → All (Held (get_locked (find? name r.breakers) name r).0.breakers) l
get_locked-All-Held name r [] h = tt
get_locked-All-Held name r ((other, p) ∷ l) (h, rest) =
    (find-get_locked other name p r h, get_locked-All-Held name r l rest)

abbrev Inv : Callers → Type 0
Inv c = All (Held c.registry.breakers) c.returned

write_section-Inv :
    (o : Option (String × List String)) (c : Callers) → Inv c → Inv (write_section o c)
unfolding write_section
write_section-Inv none c h = h
write_section-Inv (some (name, others)) c h =
    (get_locked-Held name c.registry, get_locked-All-Held name c.registry c.returned h)

read_section-Inv :
    (o : Option ℕ) (name : String) (c : Callers)
    → find? name c.registry.breakers ≡ o
    → Inv c
    → Inv (read_section o name c)
unfolding read_section
read_section-Inv none name c e h = h
read_section-Inv (some p) name c e h = (e, h)

take_event-Inv : (e : Event) (c : Callers) → Inv c → Inv (take_event e c)
unfolding register_config reset_all begin_get finish_get
take_event-Inv (registers config) c h = h
take_event-Inv resets c h = h
take_event-Inv (begins name) c h = read_section-Inv (find? name c.registry.breakers) name c refl h
take_event-Inv (finishes n) c h = write_section-Inv (pick n c.waiting) c h

run-Inv : (events : List Event) (c : Callers) → Inv c → Inv (run events c)
run-Inv [] c h = h
run-Inv (e ∷ events) c h = run-Inv events (take_event e c) (take_event-Inv e c h)

All-get_elem? :
    (b l : List (String × ℕ)) (i : ℕ) (e : String × ℕ)
    → All (Held b) l
    → get_elem? l i ≡ some e
    → Held b e
All-get_elem? b [] i e h found = absurd (none_some found)
  where
    none_some : none ≡ some e → ⊥
    none_some = λ x. cc
All-get_elem? b (x ∷ l) zero e h found = subst (Held b) same h.0
  where
    same : x ≡ e
    same = cc
All-get_elem? b (x ∷ l) (suc i) e h found = All-get_elem? b l i e h.1 found

-- However the read sections and the write sections of any number of calls of `Get` interleave with each
-- other, with registrations and with resets, from a new registry, two calls that have returned have
-- returned the same breaker if they were for the same name, and different breakers if they were not.
pub one_breaker :
    (heap : ℕ → CircuitBreaker) (events : List Event) (i j : ℕ) (a b : String) (p q : ℕ)
    → let returned = (run events (at_rest (new_circuit_breaker_registry heap))).returned in
      get_elem? returned i ≡ some (a, p)
      → get_elem? returned j ≡ some (b, q)
      → (p == q) ≡ str_eq a b
unfolding new_circuit_breaker_registry
one_breaker heap events i j a b p q m m' =
    let start = at_rest (new_circuit_breaker_registry heap) in
    let c = run events start in
    let inv = run-Inv events start tt in
    let apart = run-Apart events start (none_yet heap) in
    let held : find? a c.registry.breakers ≡ some p =
      All-get_elem? c.registry.breakers c.returned i (a, p) inv m in
    let held' : find? b c.registry.breakers ≡ some q =
      All-get_elem? c.registry.breakers c.returned j (b, q) inv m' in
    one_each c.registry a b p q apart held held'
