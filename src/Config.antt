-- ===== src/Config.antt =====
-- internal/configserver: the configuration server and its client. A configuration is a decoded YAML or
-- JSON object, a Go map from names to values of any type.
pub mod Merge
pub mod Server
pub mod Handlers
pub mod Loading
pub mod Client
pub mod Refresh
use arcana_cloud_go.Base.{
  ◌≡◌, refl, String, Bool, true, false, Option, none, some, str_eq, if◌then◌else◌, Bool-cases, inl,
  inr, str_eq_iff, arith, ℕ, suc,
}
use arcana_cloud_go.Base.Int.{ℤ}

-- A float64 is its bits. YAML gives the numbers without a point as int.
mutual
  pub data Value : Type 0 where
    null : Value
    text : String → Value
    boolean : Bool → Value
    int : ℤ → Value
    float : ℕ → Value
    array : Items → Value
    object : Fields → Value

  pub data Items : Type 0 where
    nil : Items
    cons : Value → Items → Items

  pub data Fields : Type 0 where
    end : Fields
    field : String → Value → Fields → Fields

-- m[k]
abbrev pub lookup : String → Fields → Option Value
lookup k end = none
lookup k (field j v rest) = if str_eq j k then some v else lookup k rest

-- m[k] = v
abbrev pub put : String → Value → Fields → Fields
put k v end = field k v end
put k v (field j w rest) =
    let changed = put k v rest in if str_eq j k then field j v rest else field j w changed

abbrev pub or_else : {A : Type 0} → Option A → Option A → Option A
or_else none b = b
or_else (some a) b = some a

-- len(m)
abbrev pub size : Fields → ℕ
size end = 0
size (field k v rest) = suc (size rest)

pub lookup-put :
    (k j : String) (v : Value) (f : Fields)
    → lookup k (put j v f) ≡ (if str_eq j k then some v else lookup k f)
lookup-put k j v end = refl
lookup-put k j v (field i w rest) =
    let ih = lookup-put k j v rest in ground (arith, str_eq_iff i j, str_eq_iff j k, str_eq_iff i k)

-- Names differ, at every depth.
unfoldable mutual
  pub Distinct : Value → Type 0
  Distinct null = Unit {0}
  Distinct (text s) = Unit {0}
  Distinct (boolean b) = Unit {0}
  Distinct (int n) = Unit {0}
  Distinct (float n) = Unit {0}
  Distinct (array l) = Unit {0}
  Distinct (object f) = DistinctFields f

  pub DistinctFields : Fields → Type 0
  DistinctFields end = Unit {0}
  DistinctFields (field k v rest) = (lookup k rest ≡ none) × Distinct v × DistinctFields rest
