-- ===== src/Domain/AuthService.antt =====
-- internal/domain/service/impl/auth_service_impl.go. The clock's reading and new UUIDs are arguments.
pub mod Rotation
pub mod Refusals
use arcana_cloud_go.Base.{ℕ, ◌+◌, String, Bool, true, false, not, Option, none, some, if◌then◌else◌}
use arcana_cloud_go.Action.{
  Action, Command, Result, ok, err, pure, raise, try_or, or_raise, ◌>>=◌, ◌>>◌, when,
}
use arcana_cloud_go.Domain.Entity.{User, RefreshToken, is_valid, role_user}
use arcana_cloud_go.Domain.Repository.{Repositories}
use arcana_cloud_go.Security.{
  Jwt, JwtProvider, PasswordHasher, JwtErr, RegisteredClaims, generate_access_token,
  generate_refresh_token, validate_refresh_token, get_access_token_duration,
}

-- The errors of the service; `unavailable` is any error of a repository, `not_signed` one of the JWT
-- library, `not_hashed` one of bcrypt.
pub data AuthErr : Type 0 where
  user_not_found invalid_credentials user_already_exists invalid_token user_inactive : AuthErr
  unavailable not_signed not_hashed : AuthErr

pub record RegisterRequest : Type 0 where
  pub username : String
  pub email : String
  pub password : String
  pub first_name : String
  pub last_name : String

pub record LoginRequest : Type 0 where
  pub username_or_email : String
  pub password : String

pub record UserResponse : Type 0 where
  pub id : ℕ
  pub username : String
  pub email : String
  pub first_name : String
  pub last_name : String
  pub role : String
  pub is_active : Bool
  pub is_verified : Bool

unfoldable pub to_user_response : User → UserResponse
to_user_response u = record {
  id = u.id;
  username = u.username;
  email = u.email;
  first_name = u.first_name;
  last_name = u.last_name;
  role = u.role;
  is_active = u.is_active;
  is_verified = u.is_verified;
}

pub record AuthResponse : Type 0 where
  pub access_token : String
  pub refresh_token : String
  pub token_type : String
  pub expires_in : ℕ
  pub user : UserResponse

unfoldable pub new_user : RegisterRequest → String → User
new_user req hashed = record {
  id = 0;
  username = req.username;
  email = req.email;
  password = hashed;
  first_name = req.first_name;
  last_name = req.last_name;
  role = role_user;
  is_active = true;
  is_verified = false;
}

module _ (r : Repositories) (jwt : Jwt) (provider : JwtProvider) (hasher : PasswordHasher) where
  abbrev pub Auth : Type 0 → Type 0
  Auth A = Action AuthErr r.State A

  abbrev pub ask : {A : Type 0} → Command r.State A → Auth A
  ask c = try_or unavailable c

  unfoldable pub auth_response : String → String → User → AuthResponse
  unfolding to_user_response get_access_token_duration
  auth_response access refresh user = record {
    access_token = access;
    refresh_token = refresh;
    token_type = "Bearer";
    expires_in = get_access_token_duration jwt provider;
    user = to_user_response user;
  }

  unfoldable pub new_token : ℕ → String → User → RefreshToken
  new_token now t user = record {
    user_id = user.id;
    token = t;
    expires_at = now + provider.refresh_token_duration;
    revoked = false;
  }

  unfoldable pub generate_auth_response : ℕ → String → User → Auth AuthResponse
  unfolding auth_response new_token
  generate_auth_response now uuid user = do
    access ← or_raise (generate_access_token jwt provider now user) not_signed
    refresh ← or_raise (generate_refresh_token jwt provider now uuid user) not_signed
    ask (r.create_token (new_token now refresh user))
    pure (auth_response access refresh user)

  unfoldable pub register : ℕ → String → RegisterRequest → Auth AuthResponse
  unfolding new_user generate_auth_response
  register now uuid req = do
    taken ← ask (r.exists_by_username req.username)
    when taken (raise user_already_exists)
    used ← ask (r.exists_by_email req.email)
    when used (raise user_already_exists)
    hashed ← or_raise (hasher.hash req.password) not_hashed
    user ← ask (r.create_user (new_user req hashed))
    generate_auth_response now uuid user

  unfoldable pub login_as : ℕ → String → LoginRequest → Option User → Auth AuthResponse
  unfolding generate_auth_response
  login_as now uuid req none = raise invalid_credentials
  login_as now uuid req (some user) = do
    when (not user.is_active) (raise user_inactive)
    when (not (hasher.verify req.password user.password)) (raise invalid_credentials)
    generate_auth_response now uuid user

  unfoldable pub login : ℕ → String → LoginRequest → Auth AuthResponse
  unfolding login_as
  login now uuid req = do
    found ← ask (r.get_by_username_or_email req.username_or_email)
    login_as now uuid req found

  renew_for : ℕ → String → Option User → Auth AuthResponse
  unfolding generate_auth_response
  renew_for now uuid none = raise user_not_found
  renew_for now uuid (some user) = do
    when (not user.is_active) (raise user_inactive)
    generate_auth_response now uuid user

  renew : ℕ → String → String → Option RefreshToken → Auth AuthResponse
  unfolding renew_for
  renew now uuid t none = raise invalid_token
  renew now uuid t (some rt) = do
    when (not (is_valid now rt)) (raise invalid_token)
    ask (r.revoke_token t)
    user ← ask (r.get_user rt.user_id)
    renew_for now uuid user

  validated : ℕ → String → String → Result JwtErr RegisteredClaims → Auth AuthResponse
  unfolding renew
  validated now uuid t (err e) = raise invalid_token
  validated now uuid t (ok claims) = do stored ← ask (r.get_token t); renew now uuid t stored

  -- `RefreshToken`
  unfoldable pub refresh_token : ℕ → String → String → Auth AuthResponse
  unfolding validated
  refresh_token now uuid t = validated now uuid t (validate_refresh_token jwt provider now t)

  unfoldable pub logout : String → Auth (Unit {0})
  logout t = ask (r.revoke_token t)

  unfoldable pub logout_all : ℕ → Auth (Unit {0})
  logout_all user_id = ask (r.revoke_all user_id)
