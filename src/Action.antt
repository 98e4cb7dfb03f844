-- ===== src/Action.antt =====
-- Methods that change a state and may fail. What was written before a failure stays written, so the
-- state comes back beside the error too.
use arcana_cloud_go.Base.{Option, none, some, Bool, if◌then◌else◌, ◌≡◌, refl, ◌⊎◌, inl, inr}

pub data Result (E A : Type 0) : Type 0 where
  ok : A → Result E A
  err : E → Result E A

-- To split on a result and keep the equation.
pub Result-cases :
    {E A : Type 0} (x : Result E A) → ((a : A) × (x ≡ ok a)) ⊎ ((e : E) × (x ≡ err e))
Result-cases (ok a) = inl (a, refl)
Result-cases (err e) = inr (e, refl)

abbrev pub Action : Type 0 → Type 0 → Type 0 → Type 0
Action E S A = S → Result E A × S

-- A command of a client library: `none` is an error of the connection or the server.
abbrev pub Command : Type 0 → Type 0 → Type 0
Command S A = S → Option A × S

abbrev pub answer : {E A : Type 0} → Option A → E → Result E A
answer none e = err e
answer (some a) e = ok a

module _ {E S A : Type 0} where
  abbrev pub pure : A → Action E S A
  pure a s = (ok a, s)

  abbrev pub raise : E → Action E S A
  raise e s = (err e, s)

  -- if err := …; err != nil { return e }
  abbrev pub try_or : E → Command S A → Action E S A
  try_or e c s = (answer (c s).0 e, (c s).1)

  -- The reply and the error are dropped.
  abbrev pub ignore : Command S A → Action E S (Unit {0})
  ignore c s = (ok tt, (c s).1)

  -- The same for a method.
  abbrev pub attempt : Action E S A → Action E S (Unit {0})
  attempt m s = (ok tt, (m s).1)

  abbrev pub or_raise : Option A → E → Action E S A
  or_raise o e s = (answer o e, s)

module _ {E S A B : Type 0} where
  abbrev continue : Result E A → (A → Action E S B) → Action E S B
  continue (ok a) f s = f a s
  continue (err e) f s = (err e, s)

  infixl 5 ◌>>=◌ ◌>>◌
  abbrev pub ◌>>=◌ : Action E S A → (A → Action E S B) → Action E S B
  ◌>>=◌ m f s = continue (m s).0 f (m s).1

  abbrev pub ◌>>◌ : Action E S A → Action E S B → Action E S B
  ◌>>◌ m k s = continue (m s).0 (λ _. k) (m s).1

abbrev pub when : {E S : Type 0} → Bool → Action E S (Unit {0}) → Action E S (Unit {0})
when b m = if b then m else pure tt

-- Commands in a row, where the first error is the result.
module _ {S A B : Type 0} where
  abbrev follow : Option A → (A → Command S B) → Command S B
  follow none f s = (none, s)
  follow (some a) f s = f a s

  abbrev pub chain : Command S A → (A → Command S B) → Command S B
  chain c f s = follow (c s).0 f (c s).1

abbrev pub reply : {S A : Type 0} → A → Command S A
reply a s = (some a, s)
