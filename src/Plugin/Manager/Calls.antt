-- ===== src/Plugin/Manager/Calls.antt =====
-- Which calls of a plugin's functions are in order, and whether a plugin runs.
use arcana_cloud_go.Base.{
  ◌≡◌, refl, sym, ap, subst, String, Bool, true, false, Option, none, some, List, [], ◌∷◌, str_eq,
  str_eq_iff, if◌then◌else◌, Bool-cases, inl, inr,
}
use arcana_cloud_go.Table.{find?, replace, delete, Absent}
use arcana_cloud_go.Plugin.Manager.{ManagedPlugin, Call, inits, starts, stops, is_started}

-- Whether a plugin runs, by the calls of its functions.
abbrev pub active : String → List Call → Bool
active k [] = false
active k (inits j ∷ cs) = active k cs
active k (starts j succeeded ∷ cs) = if str_eq j k then succeeded else active k cs
active k (stops j ∷ cs) = if str_eq j k then false else active k cs

-- Start comes directly after Init of the same plugin.
abbrev pub just_initialized : String → List Call → Bool
just_initialized k (inits j ∷ cs) = str_eq j k
just_initialized k _ = false

-- Init is called on a plugin that does not run, Start directly after it, and Stop on one that runs.
abbrev pub Legal : List Call → Type 0
Legal [] = Unit {0}
Legal (inits k ∷ cs) = (active k cs ≡ false) × Legal cs
Legal (starts k succeeded ∷ cs) = (just_initialized k cs ≡ true) × Legal cs
Legal (stops k ∷ cs) = (active k cs ≡ true) × Legal cs

abbrev pub started_at : String → List (String × ManagedPlugin) → Bool
started_at k [] = false
started_at k ((j, p) ∷ t) = if str_eq j k then is_started p.state else started_at k t

pub started_at_found :
    (k : String) (t : List (String × ManagedPlugin)) (p : ManagedPlugin)
    → find? k t ≡ some p
    → started_at k t ≡ is_started p.state
started_at_found k [] p e = cc
started_at_found k ((j, q) ∷ t) p e = elim (Bool-cases (str_eq j k)) [
  | inl same ↦ let own : some q ≡ some p = rw same at e in rw same (ap is_started_of own)
  | inr other ↦
      let rest : find? k t ≡ some p = rw other at e in rw other (started_at_found k t p rest)
]
  where
    is_started_of : Option ManagedPlugin → Bool
    is_started_of none = false
    is_started_of (some r) = is_started r.state

pub started_at-Absent :
    (k : String) (t : List (String × ManagedPlugin)) → Absent k t → started_at k t ≡ false
started_at-Absent k [] h = refl
started_at-Absent k ((j, p) ∷ t) (e, h) = rw e (started_at-Absent k t h)

pub started_at-replace :
    (i k : String) (p old : ManagedPlugin) (t : List (String × ManagedPlugin))
    → find? k t ≡ some old
    → started_at i (replace k p t) ≡ (if str_eq k i then is_started p.state else started_at i t)
started_at-replace i k p old t e = elim (Bool-cases (str_eq k i)) [
  | inl same ↦ rw same (
      subst (λ j. started_at j (replace k p t) ≡ is_started p.state) ((str_eq_iff k i).0 same)
        (own t e))
  | inr other ↦ rw other (apart t other)
]
  where
    own :
        (t : List (String × ManagedPlugin))
        → find? k t ≡ some old
        → started_at k (replace k p t) ≡ is_started p.state
    own [] e = cc
    own ((j, q) ∷ t) e = elim (Bool-cases (str_eq j k)) [
      | inl here ↦ rw (here, here) refl
      | inr there ↦ rw (there, there) (own t (rw there at e))
    ]

    apart :
        (t : List (String × ManagedPlugin))
        → str_eq k i ≡ false
        → started_at i (replace k p t) ≡ started_at i t
    apart [] other = refl
    apart ((j, q) ∷ t) other = elim (Bool-cases (str_eq j k)) [
      | inl here ↦
          let not_i : str_eq j i ≡ false =
            subst (λ l. str_eq l i ≡ false) (sym ((str_eq_iff j k).0 here)) other in
          rw (here, not_i) (apart t other)
      | inr there ↦ rw (there, apart t other) refl
    ]

pub started_at-deleted :
    (k : String) (t : List (String × ManagedPlugin)) → started_at k (delete k t) ≡ false
started_at-deleted k [] = refl
started_at-deleted k ((j, p) ∷ t) = elim (Bool-cases (str_eq j k)) [
  | inl same ↦ rw same (started_at-deleted k t)
  | inr other ↦ rw (other, other) (started_at-deleted k t)
]

pub started_at-delete :
    (i k : String) (t : List (String × ManagedPlugin))
    → str_eq k i ≡ false
    → started_at i (delete k t) ≡ started_at i t
started_at-delete i k [] other = refl
started_at-delete i k ((j, p) ∷ t) other = elim (Bool-cases (str_eq j k)) [
  | inl here ↦
      let not_i : str_eq j i ≡ false =
        subst (λ l. str_eq l i ≡ false) (sym ((str_eq_iff j k).0 here)) other in
      rw (here, not_i) (started_at-delete i k t other)
  | inr there ↦ rw (there, started_at-delete i k t other) refl
]
