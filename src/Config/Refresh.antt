-- ===== src/Config/Refresh.antt =====
-- What the client has after it asked the server.
use package.text.Mathlib.TextPositions.{eq_refl}
use arcana_cloud_go.Base.{
  ℕ, zero, suc, ◌+◌, ◌≤◌, ◌≡◌, ◌≢◌, refl, sym, ap, subst, ◌∙◌, ◌⊎◌, String, Bool, true, false,
  Option, none, some, List, [], ◌∷◌, ==_refl, str_eq, str_eq_iff, Bool-cases, inl, inr, arith,
}
use arcana_cloud_go.Base.Int.{ℤ}
use arcana_cloud_go.Config.{
  Value, null, text, boolean, int, float, array, object, Fields, end, field, lookup, or_else, put,
  lookup-put, size,
}
use arcana_cloud_go.Config.Client.{
  PropertySource, Answer, no_connection, status, undecodable, sources, Outcome, fetched, failed,
  panicked, ConfigClient, copy_into, merge_property_sources, same_value, same_entry, entries_equal,
  config_equal, noted, update_cache, fetch_config_once, sent, decided, after_try, fetch_rounds,
  rounds, fetch_config,
}

-- The names of a map differ.
abbrev pub Unique : Fields → Type 0
Unique end = Unit {0}
Unique (field k v rest) = (lookup k rest ≡ none) × Unique rest

lookup-copy_into :
    (k : String) (m f : Fields)
    → Unique f
    → lookup k (copy_into m f) ≡ or_else (lookup k f) (lookup k m)
unfolding copy_into
lookup-copy_into k m end u = refl
lookup-copy_into k m (field j v rest) (fresh, u) =
    let ih = lookup-copy_into k (put j v m) rest u in
    elim (Bool-cases (str_eq j k)) [
      | inl same ↦
          let here : j ≡ k = ground (arith, str_eq_iff j k) in
          ih ∙ rw (lookup-put k j v m, same, sym here, fresh) refl
      | inr other ↦ ih ∙ rw (lookup-put k j v m, other) refl
    ]

-- The first source that has a name.
abbrev pub first_source : String → List PropertySource → Option Value
first_source k [] = none
first_source k (s ∷ rest) = or_else (lookup k s.source) (first_source k rest)

abbrev pub AllUnique : List PropertySource → Type 0
AllUnique [] = Unit {0}
AllUnique (s ∷ rest) = Unique s.source × AllUnique rest

-- Where the names of each source differ, the merged map has for each name the value of the first source
-- that has the name.
pub lookup-merge_property_sources :
    (k : String) (l : List PropertySource)
    → AllUnique l
    → lookup k (merge_property_sources l) ≡ first_source k l
unfolding merge_property_sources
lookup-merge_property_sources k [] u = refl
lookup-merge_property_sources k (s ∷ rest) (us, u) =
    lookup-copy_into k (merge_property_sources rest) s.source us
    ∙ rw (lookup-merge_property_sources k rest u) refl

module _ (same_float : ℕ → ℕ → Bool) (same_int : ℤ → ℤ → Bool) where
  abbrev Once : Outcome × ConfigClient → ConfigClient → Type 0
  Once out c =
      ((out.0 ≡ failed) × (out.1 ≡ c))
      ⊎ (((out.0 ≡ fetched) ⊎ (out.0 ≡ panicked)) × (out.1.requests ≡ c.requests))

  noted_once :
      (o : Option Bool) (config : Fields) (c : ConfigClient)
      → let out = noted same_float same_int o config c in
        ((out.0 ≡ fetched) ⊎ (out.0 ≡ panicked)) × (out.1.requests ≡ c.requests)
  unfolding noted
  noted_once none config c = (inr refl, refl)
  noted_once (some true) config c = (inl refl, refl)
  noted_once (some false) config c = (inl refl, refl)

  once : (a : Answer) (c : ConfigClient) → Once (fetch_config_once same_float same_int a c) c
  unfolding fetch_config_once update_cache
  once no_connection c = inl (refl, refl)
  once (status n) c = inl (refl, refl)
  once undecodable c = inl (refl, refl)
  once (sources l) c = inr (
      noted_once (config_equal same_float same_int c.cache (merge_property_sources l))
        (merge_property_sources l) (record c { cache = merge_property_sources l }))

  abbrev Bounded : Outcome × ConfigClient → ConfigClient → ℕ → Type 0
  Bounded out c most =
      ((out.0 ≡ failed) × (out.1 ≡ record c { requests = most }))
      ⊎ ((out.0 ≢ failed) × (out.1.requests ≤ most))

  rounds-Bounded :
      (answers : ℕ → Answer) (n : ℕ) (c : ConfigClient)
      → Bounded (fetch_rounds same_float same_int answers n failed c) c (c.requests + n)
  unfolding fetch_rounds sent after_try
  rounds-Bounded answers zero c =
      let same : c.requests ≡ c.requests + 0 = omega arith in
      inl (refl, λ i. record c { requests = same i })
  rounds-Bounded answers (suc n) c =
      let a = answers c.requests in
      let next = record c { requests = c.requests + 1 } in
      let more : c.requests + 1 + n ≡ c.requests + suc n = omega arith in
      elim (once a next) [
        | inl (fails, same) ↦
            rw (fails, same)
              (subst (Bounded (fetch_rounds same_float same_int answers n failed next) c) more
                (rounds-Bounded answers n next))
        | inr (inl done, same) ↦ rw (done, done) (inr (distinct_fetched, within n same))
        | inr (inr panic, same) ↦ rw (panic, panic) (inr (distinct_panicked, within n same))
      ]
    where
      distinct_fetched : fetched ≢ failed
      distinct_fetched e = cc

      distinct_panicked : panicked ≢ failed
      distinct_panicked e = cc

      within : {m : ℕ} (k : ℕ) → m ≡ c.requests + 1 → m ≤ c.requests + suc k
      within k e = omega arith

  -- A fetch either fails, and then it has sent a request in each of its rounds, retry_count + 1 or none for
  -- a negative count, and changed nothing else; or it does not fail, and has sent at most as many.
  pub fetch_bounded :
      (answers : ℕ → Answer) (c : ConfigClient)
      → let out = fetch_config same_float same_int answers c in
        let most = c.requests + rounds c.retry_count in
        ((out.0 ≡ failed) × (out.1 ≡ record c { requests = most }))
        ⊎ ((out.0 ≢ failed) × (out.1.requests ≤ most))
  unfolding fetch_config
  fetch_bounded answers c = first_rounds (rounds c.retry_count)
    where
      distinct : fetched ≢ failed
      distinct e = cc

      first_rounds :
          (n : ℕ)
          → Bounded (fetch_rounds same_float same_int answers n fetched c) c (c.requests + n)
      first_rounds zero = inr (distinct, omega arith)
      first_rounds (suc n) = rounds-Bounded answers (suc n) c

  -- A map or a slice among the values.
  abbrev pub Nested : Fields → Type 0
  Nested f =
      (k : String) × (v : Value) × (lookup k f ≡ some v)
      × (same_value same_float same_int v v ≡ none)

  -- Where every number equals itself, a value compared with itself is equal or cannot be compared.
  same_itself :
      ((n : ℕ) → same_float n n ≡ true)
      → ((n : ℤ) → same_int n n ≡ true)
      → (v : Value)
      → (same_value same_float same_int v v ≡ none)
        ⊎ (same_value same_float same_int v v ≡ some true)
  unfolding same_value
  same_itself floats ints null = inr refl
  same_itself floats ints (text s) = inr (ap some (eq_refl s))
  same_itself floats ints (boolean true) = inr refl
  same_itself floats ints (boolean false) = inr refl
  same_itself floats ints (int n) = inr (ap some (ints n))
  same_itself floats ints (float n) = inr (ap some (floats n))
  same_itself floats ints (array l) = inl refl
  same_itself floats ints (object f) = inl refl

  -- The second map has the entries of the first.
  abbrev Has : Fields → Fields → Type 0
  Has f g = (k : String) (v : Value) → lookup k g ≡ some v → lookup k f ≡ some v

  Has-rest :
      (f rest : Fields) (j : String) (w : Value)
      → lookup j rest ≡ none
      → Has f (field j w rest)
      → Has f rest
  Has-rest f rest j w fresh has k v e = elim (Bool-cases (str_eq j k)) [
    | inl same ↦
        let here : j ≡ k = ground (arith, str_eq_iff j k) in
        absurd (clash (sym fresh ∙ ap (λ x. lookup x rest) here ∙ e))
    | inr other ↦ has k v (rw other e)
  ]
    where
      clash : none ≡ some v → ⊥
      clash h = cc

  entries_panic :
      ((n : ℕ) → same_float n n ≡ true)
      → ((n : ℤ) → same_int n n ≡ true)
      → (f g : Fields) → Unique g
      → Has f g
      → Nested g
      → entries_equal same_float same_int g f ≡ none
  unfolding entries_equal same_entry decided
  entries_panic floats ints f end u has (k, v, e, n) = absurd (clash e)
    where
      clash : none ≡ some v → ⊥
      clash h = cc
  entries_panic floats ints f (field j w rest) (fresh, u) has (k, v, e, n) =
      let there : lookup j f ≡ some w = has j w (rw (eq_refl j) refl) in
      elim (same_itself floats ints w) [
        | inl cannot ↦ rw (there, cannot) refl
        | inr equal ↦ elim (Bool-cases (str_eq j k)) [
          | inl same ↦ absurd (
              clash
                (sym n ∙ ap (λ x. same_value same_float same_int x x) (sym (taken same)) ∙ equal))
          | inr other ↦
              rw (there, equal)
                (entries_panic floats ints f rest u (Has-rest f rest j w fresh has)
                  (k, v, sym (beyond other) ∙ e, n))
        ]
      ]
    where
      clash : none ≡ some true → ⊥
      clash h = cc

      some_inj : some w ≡ some v → w ≡ v
      some_inj h = ground arith

      taken : str_eq j k ≡ true → w ≡ v
      taken h = some_inj (sym (rw h refl) ∙ e)

      beyond : str_eq j k ≡ false → lookup k (field j w rest) ≡ lookup k rest
      beyond h = rw h refl

  -- Where every number equals itself, a fetch panics that is answered with property sources whose merged
  -- map the cache has already, if a value of it is a map or a slice: so a configuration that is nested is
  -- fetched once and not again.
  pub refresh_panics :
      (answers : ℕ → Answer) (l : List PropertySource) (n : ℕ) (c : ConfigClient)
      → ((m : ℕ) → same_float m m ≡ true)
      → ((m : ℤ) → same_int m m ≡ true)
      → Unique c.cache
      → Nested c.cache
      → rounds c.retry_count ≡ suc n
      → answers c.requests ≡ sources l
      → merge_property_sources l ≡ c.cache
      → (fetch_config same_float same_int answers c).0 ≡ panicked
  unfolding fetch_config fetch_rounds after_try fetch_config_once update_cache config_equal noted
      sent
  refresh_panics answers l n c floats ints u nested some_round answer again =
      let panics : config_equal same_float same_int c.cache c.cache ≡ none =
        rw (==_refl (size c.cache))
          (entries_panic floats ints c.cache c.cache u (λ k v e. e) nested) in
      rw (some_round, answer, again, panics) refl
