-- ===== src/Middleware.antt =====
-- internal/middleware and internal/security/security_service.go: the handlers in front of a route. A
-- gin.Context is what they read and write of it; a handler passes on, or aborts with a status.
pub mod Access
pub mod Global
pub mod Origins
use Prim.Native.String.{◌∷◌ as cons, [] as empty_text, ◌++◌ as append}
use Prim.Native.Char.{Char, code}
use arcana_cloud_go.Base.{
  ℕ, ◌+◌, ◌*◌, ◌/◌, String, Bool, true, false, not, ◌&&◌, ◌||◌, Option, none, some, List, [], ◌∷◌,
  ◌==◌, str_eq, leb, if◌then◌else◌,
}
use arcana_cloud_go.Action.{Result, ok, err}
use arcana_cloud_go.Table.{find?}
use arcana_cloud_go.Jobs.Job.{second}
use arcana_cloud_go.Jobs.RedisQueue.{is_empty}
use arcana_cloud_go.Domain.Entity.{role_admin}
use arcana_cloud_go.Security.{
  Jwt, JwtProvider, JwtErr, invalid_token, expired_token, UserClaims, validate_access_token,
}

pub record Context : Type 0 where
  pub method : String
  pub authorization : String  -- "" where the header is absent, like the next two
  pub origin : String
  pub given_id : String  -- X-Request-ID
  pub claims : Option UserClaims
  pub request_id : Option String
  pub written : List (String × String)  -- the response's headers, the latest first

pub data Passage : Type 0 where
  next : Context → Passage
  aborted : ℕ → String → Context → Passage

abbrev pub Handler : Type 0
Handler = Context → Passage

-- A handler behind another.
infixl 5 ◌then◌
abbrev pub ◌then◌ : Handler → Handler → Handler
(h then g) c = elim (h c) [ next c' ↦ g c' | aborted status message c' ↦ aborted status message c' ]

-- strings.SplitN(s, " ", 2), where there is a space.
unfoldable pub split_at_space : String → Option (String × String)
split_at_space empty_text = none
split_at_space (cons c s) =
    let rest = split_at_space s in
    if code c == 32
    then some ("", s)
    else elim rest [ none ↦ none | some (a, b) ↦ some (cons c a, b) ]

abbrev lower : ℕ → ℕ
lower n = if leb 65 n && leb n 90 then n + 32 else n

-- strings.ToLower(s) == t, for a t of small ASCII letters none of which any other letter has as its own
-- small letter.
unfoldable pub lower_eq : String → String → Bool
lower_eq empty_text empty_text = true
lower_eq empty_text (cons d t) = false
lower_eq (cons c s) empty_text = false
lower_eq (cons c s) (cons d t) = (lower (code c) == code d) && lower_eq s t

-- The token of "Bearer <token>".
unfoldable pub bearer_token : String → Option String
unfolding split_at_space lower_eq
bearer_token header = elim (split_at_space header) [
  | none ↦ none
  | some (scheme, t) ↦ if lower_eq scheme "bearer" then some t else none
]

-- SetCurrentClaims and GetCurrentClaims
unfoldable pub set_current_claims : UserClaims → Context → Context
set_current_claims claims c = record c { claims = some claims }

unfoldable pub get_current_user_id : Context → ℕ
get_current_user_id c = elim c.claims [ none ↦ 0 | some claims ↦ claims.user_id ]

unfoldable pub is_authenticated : Context → Bool
is_authenticated c = elim c.claims [ none ↦ false | some claims ↦ true ]

unfoldable pub has_role : Context → String → Bool
has_role c role = elim c.claims [ none ↦ false | some claims ↦ str_eq claims.role role ]

unfoldable pub is_admin : Context → Bool
unfolding has_role
is_admin c = has_role c role_admin

module _ (jwt : Jwt) (p : JwtProvider) (now : ℕ) where
  admit : Context → Result JwtErr UserClaims → Passage
  unfolding set_current_claims
  admit c (ok claims) = next (set_current_claims claims c)
  admit c (err expired_token) = aborted 401 "token has expired" c
  admit c (err invalid_token) = aborted 401 "invalid token" c

  check_token : Context → Option String → Passage
  unfolding admit
  check_token c none = aborted 401 "invalid authorization header format" c
  check_token c (some t) = admit c (validate_access_token jwt p now t)

  unfoldable pub authenticate : Handler
  unfolding check_token bearer_token
  authenticate c =
      if is_empty c.authorization
      then aborted 401 "authorization header required" c
      else check_token c (bearer_token c.authorization)

  welcome : Context → Result JwtErr UserClaims → Passage
  unfolding set_current_claims
  welcome c (ok claims) = next (set_current_claims claims c)
  welcome c (err e) = next c

  unfoldable pub optional_auth : Handler
  unfolding welcome bearer_token
  optional_auth c =
      if is_empty c.authorization then next c else elim (bearer_token c.authorization) [
        | none ↦ next c
        | some t ↦ welcome c (validate_access_token jwt p now t)
      ]

unfoldable pub one_of : String → List String → Bool
one_of role [] = false
one_of role (wanted ∷ roles) = if str_eq role wanted then true else one_of role roles

require_of : List String → Context → Option UserClaims → Passage
unfolding one_of
require_of roles c none = aborted 401 "authentication required" c
require_of roles c (some claims) =
    if one_of claims.role roles then next c else aborted 403 "insufficient permissions" c

unfoldable pub require_role : List String → Handler
unfolding require_of
require_role roles c = require_of roles c c.claims

unfoldable pub require_admin : Handler
unfolding require_role
require_admin = require_role (role_admin ∷ [])

-- cors.go. The decimal text of the seconds is the argument `itoa` (strconv.Itoa).
pub record CorsConfig : Type 0 where
  pub allow_origins : List String
  pub allow_methods : List String
  pub allow_headers : List String
  pub expose_headers : List String
  pub allow_credentials : Bool
  pub max_age : ℕ

abbrev pub default_cors_config : CorsConfig
default_cors_config = record {
  allow_origins = "*" ∷ [];
  allow_methods = "GET" ∷ "POST" ∷ "PUT" ∷ "PATCH" ∷ "DELETE" ∷ "OPTIONS" ∷ "HEAD" ∷ [];
  allow_headers =
      "Origin" ∷ "Content-Type" ∷ "Accept" ∷ "Authorization" ∷ "X-Requested-With" ∷ "X-Request-ID"
      ∷ [];
  expose_headers = "Content-Length" ∷ "X-Request-ID" ∷ [];
  allow_credentials = true;
  max_age = 43200 * second;
}

reflects : String → List String → Bool
reflects origin [] = false
reflects origin (o ∷ l) = if str_eq o "*" || str_eq o origin then true else reflects origin l

first_is_star : List String → Bool
first_is_star [] = false
first_is_star (o ∷ l) = str_eq o "*"

unfoldable pub resolve_allowed_origin : String → List String → String
unfolding reflects first_is_star
resolve_allowed_origin origin allowed =
    if reflects origin allowed then origin else if first_is_star allowed then "*" else ""

join_onto : String → List String → String
join_onto text [] = text
join_onto text (s ∷ l) = join_onto (append text (append ", " s)) l

unfoldable pub join_strings : List String → String
unfolding join_onto
join_strings [] = ""
join_strings (s ∷ l) = join_onto s l

unfoldable pub header : String → String → Context → Context
header name value c = record c { written = (name, value) ∷ c.written }

module _ (itoa : ℕ → String) (config : CorsConfig) where
  unfoldable pub apply_preflight_headers : Context → Passage
  unfolding header join_strings
  apply_preflight_headers c = aborted 204 "" (
      header "Access-Control-Max-Age" (itoa (config.max_age / second)) (
        header "Access-Control-Allow-Headers" (join_strings config.allow_headers)
          (header "Access-Control-Allow-Methods" (join_strings config.allow_methods) c)))

  allow_origin : Context → Context
  unfolding resolve_allowed_origin header
  allow_origin c =
      let allowed = resolve_allowed_origin c.origin config.allow_origins in
      if is_empty allowed then c else header "Access-Control-Allow-Origin" allowed c

  allow_credentials_header : Context → Context
  unfolding header
  allow_credentials_header c =
      if config.allow_credentials then header "Access-Control-Allow-Credentials" "true" c else c

  expose : List String → Context → Context
  unfolding header join_strings
  expose [] c = c
  expose (h ∷ l) c = header "Access-Control-Expose-Headers" (join_strings (h ∷ l)) c

  unfoldable pub cors : Handler
  unfolding allow_origin allow_credentials_header apply_preflight_headers expose
  cors c =
      let c' = allow_credentials_header (allow_origin c) in
      if str_eq c.method "OPTIONS"
      then apply_preflight_headers c'
      else next (expose config.expose_headers c')

-- request_id.go. The new UUID is an argument.
unfoldable pub request_id_handler : String → Handler
unfolding header
request_id_handler uuid c =
    let id = if is_empty c.given_id then uuid else c.given_id in
    next (header "X-Request-ID" id (record c { request_id = some id }))

unfoldable pub get_request_id : Context → String
get_request_id c = elim c.request_id [ none ↦ "" | some id ↦ id ]
