-- ===== src/Domain/UserService.antt =====
-- internal/domain/service/impl/user_service_impl.go
pub mod Profile
use arcana_cloud_go.Base.{
  ℕ, String, Bool, true, false, not, ◌&&◌, ◌||◌, Option, none, some, List, map, ltb, str_eq,
  if◌then◌else◌,
}
use arcana_cloud_go.Action.{Action, ok, err, pure, raise, try_or, or_raise, ◌>>=◌, ◌>>◌, when}
use arcana_cloud_go.Jobs.RedisQueue.{is_empty}
use arcana_cloud_go.Domain.Entity.{User}
use arcana_cloud_go.Domain.Repository.{Repositories}
use arcana_cloud_go.Domain.AuthService.{
  AuthErr, user_not_found, invalid_credentials, user_already_exists, unavailable, not_hashed,
  UserResponse, to_user_response,
}
use arcana_cloud_go.Response.{PagedResponse, new_paged_response}
use arcana_cloud_go.Security.{PasswordHasher}

pub record UpdateProfileRequest : Type 0 where
  pub first_name : String
  pub last_name : String
  pub email : String

pub record ChangePasswordRequest : Type 0 where
  pub old_password : String
  pub new_password : String

-- The names of the profile, where the request has any.
unfoldable pub renamed : UpdateProfileRequest → User → User
renamed req u = record u {
  first_name = if is_empty req.first_name then u.first_name else req.first_name;
  last_name = if is_empty req.last_name then u.last_name else req.last_name;
}

-- The page and the size that `List` asks for.
unfoldable pub list_page : ℕ → ℕ
list_page page = if ltb page 1 then 1 else page

unfoldable pub list_size : ℕ → ℕ
list_size size = if ltb size 1 || ltb 100 size then 10 else size

module _ (r : Repositories) (hasher : PasswordHasher) where
  unfoldable pub found : Option User → Action AuthErr r.State User
  found none = raise user_not_found
  found (some u) = pure u

  unfoldable pub user_by_id : ℕ → Action AuthErr r.State User
  unfolding found
  user_by_id id = do u ← try_or unavailable (r.get_user id); found u

  unfoldable pub get_by_id : ℕ → Action AuthErr r.State UserResponse
  unfolding user_by_id to_user_response
  get_by_id id = do u ← user_by_id id; pure (to_user_response u)

  unfoldable pub get_by_username : String → Action AuthErr r.State UserResponse
  unfolding found to_user_response
  get_by_username name = do
    o ← try_or unavailable (r.get_by_username name)
    u ← found o
    pure (to_user_response u)

  unfoldable pub get_by_email : String → Action AuthErr r.State UserResponse
  unfolding found to_user_response
  get_by_email email = do
    o ← try_or unavailable (r.get_by_email email)
    u ← found o
    pure (to_user_response u)

  -- A new email must not be in use.
  unfoldable pub free_email : UpdateProfileRequest → User → Action AuthErr r.State (Unit {0})
  free_email req u = when (not (is_empty req.email) && not (str_eq req.email u.email)) (do
    used ← try_or unavailable (r.exists_by_email req.email)
    when used (raise user_already_exists))

  unfoldable pub profiled : UpdateProfileRequest → User → User
  unfolding renamed
  profiled req u = record (renamed req u) {
    email =
        if not (is_empty req.email) && not (str_eq req.email u.email) then req.email else u.email;
  }

  -- `Update`
  unfoldable pub update_profile : ℕ → UpdateProfileRequest → Action AuthErr r.State UserResponse
  unfolding user_by_id free_email profiled to_user_response
  update_profile id req = do
    u ← user_by_id id
    free_email req u
    try_or unavailable (r.update_user (profiled req u))
    pure (to_user_response (profiled req u))

  unfoldable pub change_password : ℕ → ChangePasswordRequest → Action AuthErr r.State (Unit {0})
  unfolding user_by_id
  change_password id req = do
    u ← user_by_id id
    when (not (hasher.verify req.old_password u.password)) (raise invalid_credentials)
    hashed ← or_raise (hasher.hash req.new_password) not_hashed
    try_or unavailable (r.update_user (record u { password = hashed }))

  -- `List`; `none` is the panic of a division by a size of 0.
  unfoldable pub list : ℕ → ℕ → Action AuthErr r.State (Option (PagedResponse UserResponse))
  unfolding to_user_response list_page list_size
  list page size = do
    users ← try_or unavailable (r.list_users (list_page page) (list_size size))
    pure (
        new_paged_response (map to_user_response users.0) (list_page page) (list_size size) users.1)

  unfoldable pub exists_by_username : String → Action AuthErr r.State Bool
  exists_by_username name = try_or unavailable (r.exists_by_username name)

  unfoldable pub exists_by_email : String → Action AuthErr r.State Bool
  exists_by_email email = try_or unavailable (r.exists_by_email email)

  unfoldable pub delete : ℕ → Action AuthErr r.State (Unit {0})
  delete id = try_or unavailable (r.delete_user id)
