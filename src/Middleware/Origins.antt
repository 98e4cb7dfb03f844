-- ===== src/Middleware/Origins.antt =====
-- Which origins the CORS handler reflects.
use arcana_cloud_go.Base.{
  ◌≡◌, refl, String, false, ◌||◌, List, [], ◌∷◌, str_eq, if◌then◌else◌, arith,
}
use arcana_cloud_go.Domain.Repository.{any}
use arcana_cloud_go.Middleware.{reflects, first_is_star, resolve_allowed_origin}

reflects-any :
    (origin : String) (l : List String)
    → reflects origin l ≡ any (λ o. str_eq o "*" || str_eq o origin) l
unfolding reflects
reflects-any origin [] = refl
reflects-any origin (o ∷ l) = ground (arith, reflects-any origin l)

star : (origin : String) (l : List String) → reflects origin l ≡ false → first_is_star l ≡ false
unfolding reflects first_is_star
star origin [] h = refl
star origin (o ∷ l) h = ground arith

-- The answer is the request's own origin if the list has it or a star, and else the empty text: the
-- branch that answers a star is never taken.
pub resolve_reflects :
    (origin : String) (allowed : List String)
    → resolve_allowed_origin origin allowed
      ≡ (if any (λ o. str_eq o "*" || str_eq o origin) allowed then origin else "")
unfolding resolve_allowed_origin
resolve_reflects origin allowed = ground (arith, reflects-any origin allowed, star origin allowed)
