-- ===== src/Config/Merge.antt =====
-- `deepMerge`: what a merged configuration has at each path.
use arcana_cloud_go.Base.{
  ◌≡◌, refl, sym, ap, ◌∙◌, subst, ◌⊎◌, String, Bool, true, false, Option, none, some, List, [], ◌∷◌,
  str_eq, str_eq_iff, Bool-cases, Option-cases, inl, inr, arith,
}
use arcana_cloud_go.Config.{
  Value, null, text, boolean, int, float, array, object, Fields, end, field, lookup, put,
  lookup-put, Distinct, DistinctFields,
}

unfoldable mutual
  pub deep_merge : Fields → Fields → Fields
  deep_merge base end = base
  deep_merge base (field k v rest) = deep_merge (put k (override (lookup k base) v) base) rest

  -- The value of a name that both or only the second map has.
  pub override : Option Value → Value → Value
  override none v = v
  override (some b) null = null
  override (some b) (text s) = text s
  override (some b) (boolean c) = boolean c
  override (some b) (int n) = int n
  override (some b) (float n) = float n
  override (some b) (array l) = array l
  override (some (object base)) (object o) = object (deep_merge base o)
  override (some null) (object o) = object o
  override (some (text s)) (object o) = object o
  override (some (boolean c)) (object o) = object o
  override (some (int n)) (object o) = object o
  override (some (float n)) (object o) = object o
  override (some (array l)) (object o) = object o

abbrev merged : Option Value → Option Value → Option Value
merged b none = b
merged b (some v) = some (override b v)

-- A merged map has at each name what the second has there merged into what the first has; the names of
-- the second differ.
pub deep_merge_lem :
    (k : String) (base o : Fields)
    → DistinctFields o
    → lookup k (deep_merge base o) ≡ merged (lookup k base) (lookup k o)
unfolding deep_merge Distinct
deep_merge_lem k base end d = refl
deep_merge_lem k base (field j v rest) (fresh, dv, dr) =
    let b = override (lookup j base) v in
    let ih = deep_merge_lem k (put j b base) rest dr in
    elim (Bool-cases (str_eq j k)) [
      | inl same ↦
          let here : j ≡ k = ground (arith, str_eq_iff j k) in
          ih ∙ rw (lookup-put k j b base, same, sym here, fresh) refl
      | inr other ↦ ih ∙ rw (lookup-put k j b base, other) refl
    ]

-- The value under a name, and at the end of a path of names.
abbrev pub child : String → Value → Option Value
child k null = none
child k (text s) = none
child k (boolean c) = none
child k (int n) = none
child k (float n) = none
child k (array l) = none
child k (object f) = lookup k f

abbrev pub at : List String → Option Value → Option Value
at p none = none
at [] (some v) = some v
at (k ∷ p) (some v) = at p (child k v)

abbrev pub is_object : Value → Bool
is_object null = false
is_object (text s) = false
is_object (boolean c) = false
is_object (int n) = false
is_object (float n) = false
is_object (array l) = false
is_object (object f) = true

-- On the way along the path there are maps only, and then a name is missing.
abbrev pub Misses : List String → Option Value → Type 0
Misses p none = Unit {0}
Misses [] (some v) = ⊥
Misses (k ∷ p) (some v) = (is_object v ≡ true) × Misses p (child k v)

lookup-Distinct :
    (k : String) (f : Fields) (v : Value) → DistinctFields f → lookup k f ≡ some v → Distinct v
unfolding Distinct
lookup-Distinct k end v d e = absurd (clash e)
  where
    clash : none ≡ some v → ⊥
    clash h = cc
lookup-Distinct k (field j w rest) v (fresh, dw, dr) e = elim (Bool-cases (str_eq j k)) [
  | inl same ↦ subst Distinct (some_inj (sym (if_here same) ∙ e)) dw
  | inr other ↦ lookup-Distinct k rest v dr (sym (if_other other) ∙ e)
]
  where
    some_inj : some w ≡ some v → w ≡ v
    some_inj h = ground arith

    if_here : str_eq j k ≡ true → lookup k (field j w rest) ≡ some w
    if_here h = rw h refl

    if_other : str_eq j k ≡ false → lookup k (field j w rest) ≡ lookup k rest
    if_other h = rw h refl

abbrev MaybeDistinct : Option Value → Type 0
MaybeDistinct none = Unit {0}
MaybeDistinct (some v) = Distinct v

child-Distinct : (k : String) (v : Value) → Distinct v → MaybeDistinct (child k v)
unfolding Distinct
child-Distinct k null d = tt
child-Distinct k (text s) d = tt
child-Distinct k (boolean c) d = tt
child-Distinct k (int n) d = tt
child-Distinct k (float n) d = tt
child-Distinct k (array l) d = tt
child-Distinct k (object f) d = elim (Option-cases (lookup k f)) [
  | inl missing ↦ rw missing tt
  | inr (v, e) ↦ rw e (lookup-Distinct k f v d e)
]

object-cases : (v : Value) → ((f : Fields) × (v ≡ object f)) ⊎ (is_object v ≡ false)
object-cases null = inr refl
object-cases (text s) = inr refl
object-cases (boolean c) = inr refl
object-cases (int n) = inr refl
object-cases (float n) = inr refl
object-cases (array l) = inr refl
object-cases (object f) = inl (f, refl)

override_leaf : (b : Option Value) (v : Value) → is_object v ≡ false → override b v ≡ v
unfolding override
override_leaf none v h = refl
override_leaf (some b) null h = refl
override_leaf (some b) (text s) h = refl
override_leaf (some b) (boolean c) h = refl
override_leaf (some b) (int n) h = refl
override_leaf (some b) (float n) h = refl
override_leaf (some b) (array l) h = refl
override_leaf (some b) (object f) h = absurd (clash h)
  where
    clash : true ≡ false → ⊥
    clash e = cc

child_leaf : (k : String) (v : Value) → is_object v ≡ false → child k v ≡ none
child_leaf k v h = ground arith

override_onto_leaf :
    (b : Value) (f : Fields) → is_object b ≡ false → override (some b) (object f) ≡ object f
unfolding override
override_onto_leaf b f h = ground arith

-- A value of the second, other than a map, is at its path in the merged value.
override_wins :
    (p : List String) (b : Option Value) (v leaf : Value)
    → Distinct v
    → is_object leaf ≡ false
    → at p (some v) ≡ some leaf
    → at p (some (override b v)) ≡ some leaf
unfolding Distinct override
override_wins p none v leaf d l e = e
override_wins [] (some b) v leaf d l e =
    let same : v ≡ leaf = ground arith in
    subst (λ w. some (override (some b) w) ≡ some leaf) (sym same)
      (ap some (override_leaf (some b) leaf l))
override_wins (k ∷ p) (some b) v leaf d l e = elim (object-cases v) [
  | inr flat ↦ absurd (clash (ap (at p) (sym (child_leaf k v flat)) ∙ e))
  | inl (o, vo) ↦ elim (object-cases b) [
    | inr flat ↦
        subst (λ x. at p (child k x) ≡ some leaf)
          (sym (ap (override (some b)) vo ∙ override_onto_leaf b o flat ∙ sym vo)) e
    | inl (base, bo) ↦
        let distinct : DistinctFields o = subst Distinct vo d in
        let reached : at p (lookup k o) ≡ some leaf =
          subst (λ x. at p (child k x) ≡ some leaf) vo e in
        subst (λ x. at p (child k x) ≡ some leaf) (sym (λ i. override (some (bo i)) (vo i)))
          (ap (at p) (deep_merge_lem k base o distinct) ∙ elim (Option-cases (lookup k o)) [
            | inl missing ↦ absurd (clash (ap (at p) (sym missing) ∙ reached))
            | inr (w, q) ↦
                ap (λ x. at p (merged (lookup k base) x)) q
                ∙ override_wins p (lookup k base) w leaf (lookup-Distinct k o w distinct q) l
                    (ap (at p) (sym q) ∙ reached)
          ])
  ]
]
  where
    clash : at p none ≡ some leaf → ⊥
    clash h = cc

missed : (p : List String) (o : Option Value) → Misses p o → at p o ≡ none
missed p none m = refl
missed [] (some v) m = absurd m
missed (k ∷ p) (some v) (is, m) = missed p (child k v) m

-- Where the second misses a path, the merged value has there what the first has.
override_fills :
    (p : List String) (b o : Option Value)
    → MaybeDistinct o
    → Misses p o
    → at p (merged b o) ≡ at p b
unfolding Distinct override
override_fills p b none d m = refl
override_fills [] b (some v) d m = absurd m
override_fills (k ∷ p) none (some v) d m = missed (k ∷ p) (some v) m
override_fills (k ∷ p) (some b) (some v) d (is, m) = elim (object-cases v) [
  | inr flat ↦ absurd (clash (sym is ∙ flat))
  | inl (o, vo) ↦
      let distinct : DistinctFields o = subst Distinct vo d in
      let missing : Misses p (lookup k o) = subst (λ x. Misses p (child k x)) vo m in
      elim (object-cases b) [
        | inr flat ↦
            ap (λ x. at p (child k x)) (ap (override (some b)) vo ∙ override_onto_leaf b o flat)
            ∙ missed p (lookup k o) missing
            ∙ ap (at p) (sym (child_leaf k b flat))
        | inl (base, bo) ↦
            (λ i. at p (child k (override (some (bo i)) (vo i))))
            ∙ ap (at p) (deep_merge_lem k base o distinct)
            ∙ override_fills p (lookup k base) (lookup k o) (child-Distinct k (object o) distinct)
                missing
            ∙ ap (λ x. at p (child k x)) (sym bo)
      ]
]
  where
    clash : true ≡ false → ⊥
    clash h = cc

-- Where the names of the second configuration differ, a value of it other than a map is at the same
-- path in the merged configuration, whatever the first has there.
pub deep_merge_wins :
    (p : List String) (base o : Fields) (leaf : Value)
    → DistinctFields o
    → is_object leaf ≡ false
    → at p (some (object o)) ≡ some leaf
    → at p (some (object (deep_merge base o))) ≡ some leaf
unfolding Distinct override
deep_merge_wins p base o leaf d flat e =
    override_wins p (some (object base)) (object o) leaf d flat e

-- Where the names of the second configuration differ, and maps lead along the path until a name is
-- missing in it, the merged configuration has at the path what the first has there, or none like it.
pub deep_merge_fills :
    (p : List String) (base o : Fields)
    → DistinctFields o
    → Misses p (some (object o))
    → at p (some (object (deep_merge base o))) ≡ at p (some (object base))
unfolding Distinct override
deep_merge_fills p base o d m = override_fills p (some (object base)) (some (object o)) d m
