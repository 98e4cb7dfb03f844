-- ===== src/Http/AuthController.antt =====
-- internal/controller/http/auth_controller.go, over the authentication service, with what stands before
-- its routes.
pub mod Sessions
use Prim.Native.String.{◌∷◌ as cons, [] as empty_text}
use Prim.Native.Char.{code}
use arcana_cloud_go.Base.{
  ℕ, String, Bool, Option, none, some, List, [], ◌∷◌, ◌==◌, ltb, if◌then◌else◌,
}
use arcana_cloud_go.Action.{Result, ok, err}
use arcana_cloud_go.Domain.Repository.{Repositories}
use arcana_cloud_go.Domain.AuthService.{
  AuthErr, user_not_found, invalid_credentials, user_already_exists, invalid_token, user_inactive,
  unavailable, not_signed, not_hashed, AuthResponse, RegisterRequest, LoginRequest,
}
use arcana_cloud_go.Domain.AuthService as Auth
use arcana_cloud_go.Security.{Jwt, JwtProvider, PasswordHasher}
use arcana_cloud_go.Middleware.{
  Context, Passage, ◌then◌, get_current_user_id, request_id_handler, cors, default_cors_config,
}
use arcana_cloud_go.Http.{ApiResponse, failure, success, behind}

unfoldable pub register_failure : AuthErr → ApiResponse AuthResponse
register_failure user_not_found = failure 500 "registration failed"
register_failure invalid_credentials = failure 500 "registration failed"
register_failure user_already_exists = failure 409 "user already exists"
register_failure invalid_token = failure 500 "registration failed"
register_failure user_inactive = failure 500 "registration failed"
register_failure unavailable = failure 500 "registration failed"
register_failure not_signed = failure 500 "registration failed"
register_failure not_hashed = failure 500 "registration failed"

unfoldable pub login_failure : AuthErr → ApiResponse AuthResponse
login_failure user_not_found = failure 500 "login failed"
login_failure invalid_credentials = failure 401 "invalid credentials"
login_failure user_already_exists = failure 500 "login failed"
login_failure invalid_token = failure 500 "login failed"
login_failure user_inactive = failure 401 "account is inactive"
login_failure unavailable = failure 500 "login failed"
login_failure not_signed = failure 500 "login failed"
login_failure not_hashed = failure 500 "login failed"

unfoldable pub refresh_failure : AuthErr → ApiResponse AuthResponse
refresh_failure user_not_found = failure 500 "token refresh failed"
refresh_failure invalid_credentials = failure 500 "token refresh failed"
refresh_failure user_already_exists = failure 500 "token refresh failed"
refresh_failure invalid_token = failure 401 "invalid or expired refresh token"
refresh_failure user_inactive = failure 500 "token refresh failed"
refresh_failure unavailable = failure 500 "token refresh failed"
refresh_failure not_signed = failure 500 "token refresh failed"
refresh_failure not_hashed = failure 500 "token refresh failed"

abbrev pub answered_by :
    (AuthErr → ApiResponse AuthResponse)
    → ℕ
    → String
    → Result AuthErr AuthResponse
    → ApiResponse AuthResponse
answered_by failed status message (ok resp) = success status message (some resp)
answered_by failed status message (err e) = failed e

-- What follows a prefix of codes, where the text has the prefix.
unfoldable pub after_prefix : List ℕ → String → Option String
after_prefix [] s = some s
after_prefix (n ∷ prefix) empty_text = none
after_prefix (n ∷ prefix) (cons c s) =
    let rest = after_prefix prefix s in if code c == n then rest else none

-- "Bearer "
abbrev bearer_prefix : List ℕ
bearer_prefix = 66 ∷ 101 ∷ 97 ∷ 114 ∷ 101 ∷ 114 ∷ 32 ∷ []

pub data AuthRoute : Type 0 where
  post_register : Option RegisterRequest → AuthRoute
  post_login : Option LoginRequest → AuthRoute
  post_refresh : Option String → AuthRoute
  post_logout : AuthRoute
  post_logout_all : AuthRoute

-- provideGinEngine of internal/di/server.go: what stands before every route. Recovery and Logger leave
-- the context.
unfoldable pub global_middleware : (ℕ → String) → String → Context → Passage
unfolding request_id_handler cors
global_middleware itoa request_id = request_id_handler request_id then cors itoa default_cors_config

-- A POST request with these headers, before any handler.
abbrev pub post_request : String → String → String → Context
post_request authorization origin given_id = record {
  method = "POST";
  authorization = authorization;
  origin = origin;
  given_id = given_id;
  claims = none;
  request_id = none;
  written = [];
}

module _ (r : Repositories) (jwt : Jwt) (p : JwtProvider) (hasher : PasswordHasher) where
  abbrev pub Handler : Type 0
  Handler = r.State → ApiResponse AuthResponse × r.State

  -- `none` is a body that the binding refuses.
  unfoldable pub register : ℕ → String → Option RegisterRequest → Handler
  unfolding register_failure
  register now uuid none s = (failure 400 "validation failed", s)
  register now uuid (some req) s =
      let out = Auth.register r jwt p hasher now uuid req s in
      (answered_by register_failure 201 "User registered successfully" out.0, out.1)

  unfoldable pub login : ℕ → String → Option LoginRequest → Handler
  unfolding login_failure
  login now uuid none s = (failure 400 "validation failed", s)
  login now uuid (some req) s =
      let out = Auth.login r jwt p hasher now uuid req s in
      (answered_by login_failure 200 "Login successful" out.0, out.1)

  unfoldable pub refresh_token : ℕ → String → Option String → Handler
  unfolding refresh_failure
  refresh_token now uuid none s = (failure 400 "validation failed", s)
  refresh_token now uuid (some t) s =
      let out = Auth.refresh_token r jwt p hasher now uuid t s in
      (answered_by refresh_failure 200 "Token refreshed successfully" out.0, out.1)

  -- The error of the service is dropped.
  unfoldable pub logged_out : Option String → r.State → r.State
  logged_out none s = s
  logged_out (some t) s = (Auth.logout r jwt p hasher t s).1

  unfoldable pub logout : Context → Handler
  unfolding logged_out after_prefix
  logout c s = (
    success 200 "Logged out successfully" none,
    logged_out (after_prefix bearer_prefix c.authorization) s,
  )

  unfoldable pub logout_all : Context → Handler
  logout_all c s = (
    success 200 "All sessions logged out successfully" none,
    if ltb 0 (get_current_user_id c)
        then (Auth.logout_all r jwt p hasher (get_current_user_id c) s).1
        else s,
  )

  -- The routes of RegisterRoutes; `none` is a body that the binding refuses.
  unfoldable pub handle : ℕ → String → AuthRoute → Context → Handler
  unfolding register login refresh_token logout logout_all
  handle now uuid (post_register req) c = register now uuid req
  handle now uuid (post_login req) c = login now uuid req
  handle now uuid (post_refresh t) c = refresh_token now uuid t
  handle now uuid post_logout c = logout c
  handle now uuid post_logout_all c = logout_all c

  -- The group has no middleware of its own.
  unfoldable pub serve : (ℕ → String) → String → ℕ → String → AuthRoute → Context → Handler
  unfolding global_middleware handle
  serve itoa request_id now uuid route c =
      behind (global_middleware itoa request_id c) (handle now uuid route)
