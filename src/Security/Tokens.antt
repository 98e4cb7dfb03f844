-- ===== src/Security/Tokens.antt =====
-- What the two kinds of token say when they are read back.
use arcana_cloud_go.Base.{ℕ, ◌+◌, ◌<◌, ◌≡◌, refl, String, some}
use arcana_cloud_go.Action.{ok}
use arcana_cloud_go.Domain.Entity.{User}
use arcana_cloud_go.Security.{
  Jwt, JwtProvider, ParsesSigned, UserClaims, as_user, numeric_date, access_claims, refresh_claims,
  generate_access_token, generate_refresh_token, validate_access_token,
}

module _ (jwt : Jwt) (p : JwtProvider) (law : ParsesSigned jwt) where
  -- An access token, until it expires, is read as the user that it was signed for: id, username, email
  -- and role.
  pub generate-validate :
      (now later : ℕ) (user : User) (t : String)
      → generate_access_token jwt p now user ≡ some t
      → later < numeric_date (now + p.access_token_duration)
      → (c : UserClaims) × (validate_access_token jwt p later t ≡ ok c)
        × (c.user_id ≡ user.id)
        × (c.username ≡ user.username)
        × (c.email ≡ user.email)
        × (c.role ≡ user.role)
  unfolding generate_access_token validate_access_token
  generate-validate now later user t signed alive = (
    as_user (access_claims jwt p now user),
    rw (law p.secret later (access_claims jwt p now user) t signed alive) refl,
    refl,
    refl,
    refl,
    refl,
  )

  -- A refresh token, until it expires, is accepted as an access token too, with the user id 0 and an
  -- empty username, email and role.
  pub refresh_as_access :
      (now later : ℕ) (uuid : String) (user : User) (t : String)
      → generate_refresh_token jwt p now uuid user ≡ some t
      → later < numeric_date (now + p.refresh_token_duration)
      → (c : UserClaims) × (validate_access_token jwt p later t ≡ ok c)
        × (c.user_id ≡ 0)
        × (c.username ≡ "")
        × (c.email ≡ "")
        × (c.role ≡ "")
  unfolding generate_refresh_token validate_access_token
  refresh_as_access now later uuid user t signed alive = (
    as_user (refresh_claims jwt p now uuid user),
    rw (law p.secret later (refresh_claims jwt p now uuid user) t signed alive) refl,
    refl,
    refl,
    refl,
    refl,
  )
