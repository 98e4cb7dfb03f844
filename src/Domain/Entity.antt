-- ===== src/Domain/Entity.antt =====
-- internal/domain/entity/user.go: users and refresh tokens. Times are nanoseconds.
use arcana_cloud_go.Base.{ℕ, String, Bool, not, ◌&&◌, ltb}

-- Roles are texts; these two are declared.
abbrev pub role_user : String
role_user = "USER"

abbrev pub role_admin : String
role_admin = "ADMIN"

pub record User : Type 0 where
  pub id : ℕ
  pub username : String
  pub email : String
  pub password : String
  pub first_name : String
  pub last_name : String
  pub role : String
  pub is_active : Bool
  pub is_verified : Bool

pub record RefreshToken : Type 0 where
  pub user_id : ℕ
  pub token : String
  pub expires_at : ℕ
  pub revoked : Bool

unfoldable pub is_expired : ℕ → RefreshToken → Bool
is_expired now rt = ltb rt.expires_at now

unfoldable pub is_valid : ℕ → RefreshToken → Bool
unfolding is_expired
is_valid now rt = not rt.revoked && not (is_expired now rt)
