-- ===== src/Table.antt =====
-- A Go map with string keys, as a list of its entries in the order in which `range` visits them.
use arcana_cloud_go.Base.{
  ◌≡◌, refl, sym, ◌∙◌, String, true, false, Option, none, some, List, [], ◌∷◌, str_eq, All,
  if◌then◌else◌, Bool-cases, inl, inr,
}

module _ {A : Type 0} where
  abbrev pub find? : String → List (String × A) → Option A
  find? k [] = none
  find? k ((j, a) ∷ t) = if str_eq j k then some a else find? k t

  abbrev pub replace : String → A → List (String × A) → List (String × A)
  replace k b [] = []
  replace k b ((j, a) ∷ t) =
      let rest = replace k b t in if str_eq j k then (j, b) ∷ rest else (j, a) ∷ rest

  abbrev pub delete : String → List (String × A) → List (String × A)
  delete k [] = []
  delete k ((j, a) ∷ t) = let rest = delete k t in if str_eq j k then rest else (j, a) ∷ rest

  -- No two entries have the same key.
  abbrev pub Absent : String → List (String × A) → Type 0
  Absent k t = All (λ e. str_eq e.0 k ≡ false) t

  abbrev pub Unique : List (String × A) → Type 0
  Unique [] = Unit {0}
  Unique ((k, a) ∷ t) = Absent k t × Unique t

  pub find?-Absent : (k : String) (t : List (String × A)) → find? k t ≡ none → Absent k t
  find?-Absent k [] e = tt
  find?-Absent k ((j, a) ∷ t) e = elim (Bool-cases (str_eq j k)) [
    | inl same ↦ absurd (some_none (sym (if_some same) ∙ e))
    | inr other ↦ (other, find?-Absent k t (sym (if_other other) ∙ e))
  ]
    where
      some_none : some a ≡ none → ⊥
      some_none = λ h. cc

      if_some : str_eq j k ≡ true → find? k ((j, a) ∷ t) ≡ some a
      if_some h = rw h refl

      if_other : str_eq j k ≡ false → find? k ((j, a) ∷ t) ≡ find? k t
      if_other h = rw h refl

  Absent-replace :
      (i k : String) (b : A) (t : List (String × A)) → Absent i t → Absent i (replace k b t)
  Absent-replace i k b [] h = tt
  Absent-replace i k b ((j, a) ∷ t) (e, h) = elim (Bool-cases (str_eq j k)) [
    | inl same ↦ rw same (e, Absent-replace i k b t h)
    | inr other ↦ rw other (e, Absent-replace i k b t h)
  ]

  pub Unique-replace :
      (k : String) (b : A) (t : List (String × A)) → Unique t → Unique (replace k b t)
  Unique-replace k b [] u = tt
  Unique-replace k b ((j, a) ∷ t) (h, u) = elim (Bool-cases (str_eq j k)) [
    | inl same ↦ rw same (Absent-replace j k b t h, Unique-replace k b t u)
    | inr other ↦ rw other (Absent-replace j k b t h, Unique-replace k b t u)
  ]

  Absent-delete : (i k : String) (t : List (String × A)) → Absent i t → Absent i (delete k t)
  Absent-delete i k [] h = tt
  Absent-delete i k ((j, a) ∷ t) (e, h) = elim (Bool-cases (str_eq j k)) [
    | inl same ↦ rw same (Absent-delete i k t h)
    | inr other ↦ rw other (e, Absent-delete i k t h)
  ]

  pub Unique-delete : (k : String) (t : List (String × A)) → Unique t → Unique (delete k t)
  Unique-delete k [] u = tt
  Unique-delete k ((j, a) ∷ t) (h, u) = elim (Bool-cases (str_eq j k)) [
    | inl same ↦ rw same (Unique-delete k t u)
    | inr other ↦ rw other (Absent-delete j k t h, Unique-delete k t u)
  ]

  pub find?-delete : (k : String) (t : List (String × A)) → find? k (delete k t) ≡ none
  find?-delete k [] = refl
  find?-delete k ((j, a) ∷ t) = elim (Bool-cases (str_eq j k)) [
    | inl same ↦ rw same (find?-delete k t)
    | inr other ↦ rw (other, other) (find?-delete k t)
  ]
