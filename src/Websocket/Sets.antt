-- ===== src/Websocket/Sets.antt =====
-- A Go `map[*Client]bool` is a list of client references, and a map of such maps is an association
-- list. The order of a list is the order in which `range` visits the map.
use arcana_cloud_go.Base.{
  ℕ, ◌≡◌, refl, Bool, true, false, not, ◌&&◌, ◌||◌, List, [], ◌∷◌, ◌==◌, All, if◌then◌else◌, arith,
  Bool-cases, inl, inr,
}

abbrev pub has : ℕ → List ℕ → Bool
has x [] = false
has x (c ∷ cs) = (c == x) || has x cs

abbrev pub add : ℕ → List ℕ → List ℕ
add x cs = if has x cs then cs else x ∷ cs

abbrev pub remove : ℕ → List ℕ → List ℕ
remove x [] = []
remove x (c ∷ cs) = let rest = remove x cs in if c == x then rest else c ∷ rest

abbrev pub Distinct : List ℕ → Type 0
Distinct [] = Unit {0}
Distinct (c ∷ cs) = (has c cs ≡ false) × Distinct cs

pub has-remove : (x y : ℕ) (cs : List ℕ) → has x (remove y cs) ≡ (has x cs && not (x == y))
has-remove x y [] = refl
has-remove x y (c ∷ cs) = let ih = has-remove x y cs in ground arith

pub has-remove_self : (x : ℕ) (cs : List ℕ) → has x (remove x cs) ≡ false
has-remove_self x [] = refl
has-remove_self x (c ∷ cs) = let ih = has-remove_self x cs in ground arith

pub Distinct-remove : (x : ℕ) (cs : List ℕ) → Distinct cs → Distinct (remove x cs)
Distinct-remove x [] d = tt
Distinct-remove x (c ∷ cs) (new, d) =
    let ih = Distinct-remove x cs d in
    elim (Bool-cases (c == x)) [
      | inl same ↦ rw same ih
      | inr other ↦ rw other (rw (has-remove c x cs, new) refl, ih)
    ]

pub Distinct-add : (x : ℕ) (cs : List ℕ) → Distinct cs → Distinct (add x cs)
Distinct-add x cs d = elim (Bool-cases (has x cs)) [
  | inl old ↦ rw old d
  | inr new ↦ rw new (new, d)
]

module _ (P : ℕ → Type 0) where
  pub All-add : (x : ℕ) (cs : List ℕ) → P x → All P cs → All P (add x cs)
  All-add x cs p h = elim (Bool-cases (has x cs)) [ inl old ↦ rw old h | inr new ↦ rw new (p, h) ]

  pub All-remove : (x : ℕ) (cs : List ℕ) → All P cs → All P (remove x cs)
  All-remove x [] h = tt
  All-remove x (c ∷ cs) (p, h) = elim (Bool-cases (c == x)) [
    | inl same ↦ rw same (All-remove x cs h)
    | inr other ↦ rw other (p, All-remove x cs h)
  ]

abbrev pub is_nil : List ℕ → Bool
is_nil [] = true
is_nil (c ∷ cs) = false

module _ {K : Type 0} where
  -- The set under the key that the test finds; a missing key has the nil map.
  abbrev pub members : (K → Bool) → List (K × List ℕ) → List ℕ
  members test [] = []
  members test ((k, cs) ∷ m) = if test k then cs else members test m

  -- Adds to the set under `k`, which the test finds, and makes the set if there is none.
  abbrev pub add_under : (K → Bool) → K → ℕ → List (K × List ℕ) → List (K × List ℕ)
  add_under test k x [] = (k, x ∷ []) ∷ []
  add_under test k x ((k', cs) ∷ m) =
      let rest = add_under test k x m in if test k' then (k', add x cs) ∷ m else (k', cs) ∷ rest

  abbrev keep_set : K → List ℕ → List (K × List ℕ) → List (K × List ℕ)
  keep_set k cs m = if is_nil cs then m else (k, cs) ∷ m

  -- Deletes from every set whose key the test finds, and drops such a set when it becomes empty.
  abbrev pub remove_under : (K → Bool) → ℕ → List (K × List ℕ) → List (K × List ℕ)
  remove_under test x [] = []
  remove_under test x ((k, cs) ∷ m) =
      let rest = remove_under test x m in
      if test k then keep_set k (remove x cs) rest else (k, cs) ∷ rest

  abbrev pub Every : (K → List ℕ → Type 0) → List (K × List ℕ) → Type 0
  Every Q m = All (λ e. Q e.0 e.1) m

  pub members-Every :
      (Q : List ℕ → Type 0) (test : K → Bool) (m : List (K × List ℕ))
      → Q []
      → Every (λ k cs. Q cs) m
      → Q (members test m)
  members-Every Q test [] nil h = nil
  members-Every Q test ((k, cs) ∷ m) nil (q, h) = elim (Bool-cases (test k)) [
    | inl found ↦ rw found q
    | inr other ↦ rw other (members-Every Q test m nil h)
  ]

  pub add_under-Every :
      (Q : K → List ℕ → Type 0) (test : K → Bool) (k : K) (x : ℕ) (m : List (K × List ℕ))
      → Q k (x ∷ [])
      → ((j : K) (cs : List ℕ) → test j ≡ true → Q j cs → Q j (add x cs))
      → Every Q m
      → Every Q (add_under test k x m)
  add_under-Every Q test k x [] fresh old h = (fresh, tt)
  add_under-Every Q test k x ((j, cs) ∷ m) fresh old (q, h) = elim (Bool-cases (test j)) [
    | inl found ↦ rw found (old j cs found q, h)
    | inr other ↦ rw other (q, add_under-Every Q test k x m fresh old h)
  ]

  keep_set-Every :
      (Q : K → List ℕ → Type 0) (k : K) (cs : List ℕ) (m : List (K × List ℕ))
      → Q k cs
      → Every Q m
      → Every Q (keep_set k cs m)
  keep_set-Every Q k [] m q h = h
  keep_set-Every Q k (c ∷ cs) m q h = (q, h)

  pub remove_under-Every :
      (Q R : K → List ℕ → Type 0) (test : K → Bool) (x : ℕ) (m : List (K × List ℕ))
      → ((j : K) (cs : List ℕ) → test j ≡ true → Q j cs → R j (remove x cs))
      → ((j : K) (cs : List ℕ) → test j ≡ false → Q j cs → R j cs)
      → Every Q m
      → Every R (remove_under test x m)
  remove_under-Every Q R test x [] here there h = tt
  remove_under-Every Q R test x ((j, cs) ∷ m) here there (q, h) =
      let ih = remove_under-Every Q R test x m here there h in
      elim (Bool-cases (test j)) [
        | inl found ↦
            rw found
              (keep_set-Every R j (remove x cs) (remove_under test x m) (here j cs found q) ih)
        | inr other ↦ rw other (there j cs other q, ih)
      ]
