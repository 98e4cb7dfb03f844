-- ===== src/Security.antt =====
-- internal/security/jwt.go and the password hasher, over the JWT and bcrypt libraries.
pub mod Tokens
use arcana_cloud_go.Base.{ℕ, ◌+◌, ◌/◌, ◌*◌, ◌<◌, ◌≡◌, String, Bool, true, false, Option, none, some}
use arcana_cloud_go.Action.{Result, ok, err}
use arcana_cloud_go.Domain.Entity.{User}
use arcana_cloud_go.Jobs.Job.{second}

pub data JwtErr : Type 0 where
  invalid_token expired_token : JwtErr

pub record RegisteredClaims : Type 0 where
  pub id : String
  pub issuer : String
  pub subject : String
  pub issued_at : ℕ
  pub expires_at : ℕ

pub record UserClaims : Type 0 where
  pub user_id : ℕ
  pub username : String
  pub email : String
  pub role : String
  pub registered : RegisteredClaims

-- jwt.NewNumericDate keeps whole seconds.
abbrev pub numeric_date : ℕ → ℕ
numeric_date t = t / second * second

-- The JSON that a token carries: one of the two records that the code signs.
pub data Claims : Type 0 where
  of_user : UserClaims → Claims
  bare : RegisteredClaims → Claims

-- Reading that JSON into either record. encoding/json leaves a field that is absent at its zero value.
abbrev pub as_user : Claims → UserClaims
as_user (of_user c) = c
as_user (bare r) = record { user_id = 0; username = ""; email = ""; role = ""; registered = r }

abbrev pub as_registered : Claims → RegisteredClaims
as_registered (of_user c) = c.registered
as_registered (bare r) = r

-- What jwt.ParseWithClaims says of a text, where the key is asked for only under an HMAC method.
pub data Parsed : Type 0 where
  valid : Claims → Parsed
  expired refused : Parsed

-- github.com/golang-jwt/jwt: signing with HS256, and parsing at a time, with a secret.
pub record Jwt : Type 0 where
  pub sign : String → Claims → Option String
  pub parse : String → ℕ → String → Parsed

-- A signed text is parsed to what was signed, before the time at which it expires.
abbrev pub ParsesSigned : Jwt → Type 0
ParsesSigned jwt =
    (secret : String) (now : ℕ) (c : Claims) (t : String)
    → jwt.sign secret c ≡ some t
    → now < (as_registered c).expires_at
    → jwt.parse secret now t ≡ valid c

-- golang.org/x/crypto/bcrypt at the default cost.
pub record PasswordHasher : Type 0 where
  pub hash : String → Option String
  pub verify : String → String → Bool

pub record JwtProvider : Type 0 where
  pub secret : String
  pub access_token_duration : ℕ
  pub refresh_token_duration : ℕ
  pub issuer : String

module _ (jwt : Jwt) (p : JwtProvider) where
  unfoldable pub access_claims : ℕ → User → Claims
  access_claims now user = of_user (record {
    user_id = user.id;
    username = user.username;
    email = user.email;
    role = user.role;
    registered = record {
      id = "";
      issuer = p.issuer;
      subject = user.username;
      issued_at = numeric_date now;
      expires_at = numeric_date (now + p.access_token_duration);
    };
  })

  unfoldable pub generate_access_token : ℕ → User → Option String
  unfolding access_claims
  generate_access_token now user = jwt.sign p.secret (access_claims now user)

  unfoldable pub refresh_claims : ℕ → String → User → Claims
  refresh_claims now uuid user = bare (record {
    id = uuid;
    issuer = p.issuer;
    subject = user.username;
    issued_at = numeric_date now;
    expires_at = numeric_date (now + p.refresh_token_duration);
  })

  -- The time of expiry, which the code returns too, is `now + p.refresh_token_duration`.
  unfoldable pub generate_refresh_token : ℕ → String → User → Option String
  unfolding refresh_claims
  generate_refresh_token now uuid user = jwt.sign p.secret (refresh_claims now uuid user)

  read_claims : {C : Type 0} → (Claims → C) → Parsed → Result JwtErr C
  read_claims f (valid c) = ok (f c)
  read_claims f expired = err expired_token
  read_claims f refused = err invalid_token

  unfoldable pub validate_access_token : ℕ → String → Result JwtErr UserClaims
  unfolding read_claims
  validate_access_token now t = read_claims as_user (jwt.parse p.secret now t)

  unfoldable pub validate_refresh_token : ℕ → String → Result JwtErr RegisteredClaims
  unfolding read_claims
  validate_refresh_token now t = read_claims as_registered (jwt.parse p.secret now t)

  unfoldable pub get_access_token_duration : ℕ
  get_access_token_duration = p.access_token_duration / second
