-- ===== src/Grpc/Validation.antt =====
-- ValidateToken of the service layer against the middleware of the controllers.
use arcana_cloud_go.Base.{◌≡◌, ℕ, String, true, false, some, ◌⊎◌, inl, inr}
use arcana_cloud_go.Action.{Result-cases}
use arcana_cloud_go.Jobs.RedisQueue.{is_empty}
use arcana_cloud_go.Security.{
  Jwt, JwtProvider, invalid_token, expired_token, UserClaims, validate_access_token,
}
use arcana_cloud_go.Middleware.{
  Context, next, aborted, authenticate, bearer_token, set_current_claims,
}
use arcana_cloud_go.Grpc.ServiceServer.{Validation, validate_token}

-- The claims that a reply tells of.
abbrev pub Tells : Validation → UserClaims → Type 0
Tells v claims =
    (v.valid ≡ true)
    × (v.user_id ≡ claims.user_id)
    × (v.username ≡ claims.username)
    × (v.role ≡ claims.role)

-- For a request whose Authorization header carries the bearer token `t`, ValidateToken and Authenticate
-- agree at every time: either the reply is valid, and the request passes with claims of the id, the name
-- and the role that the reply tells; or the reply is not valid, and the request is aborted with 401.
pub validates_as_authenticated :
    (jwt : Jwt) (p : JwtProvider) (now : ℕ) (t : String) (c : Context)
    → is_empty c.authorization ≡ false
    → bearer_token c.authorization ≡ some t
    → let v = validate_token jwt p now t in
      ((claims : UserClaims) × Tells v claims
        × (authenticate jwt p now c ≡ next (set_current_claims claims c)))
      ⊎ ((v.valid ≡ false)
          × (message : String) × (authenticate jwt p now c ≡ aborted 401 message c))
unfolding authenticate validate_token
validates_as_authenticated jwt p now t c given bearer =
    elim (Result-cases (validate_access_token jwt p now t)) [
      | inl (claims, v) ↦ inl (claims, (simp v, simp v, simp v, simp v), simp (given, bearer, v))
      | inr (invalid_token, v) ↦ inr (simp v, "invalid token", simp (given, bearer, v))
      | inr (expired_token, v) ↦ inr (simp v, "token has expired", simp (given, bearer, v))
    ]
