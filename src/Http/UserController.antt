-- ===== src/Http/UserController.antt =====
-- internal/controller/http/user_controller.go, over the user service. The binding of a body, strconv's
-- numbers and the parts of a path are arguments; none is what they refuse.
pub mod Rows
use arcana_cloud_go.Base.{
  ℕ, String, Bool, true, false, Option, none, some, ◌+◌, ◌==◌, if◌then◌else◌,
}
use arcana_cloud_go.Action.{Result, ok, err}
use arcana_cloud_go.Jobs.RedisQueue.{is_empty}
use arcana_cloud_go.Response.{PagedResponse}
use arcana_cloud_go.Domain.Repository.{Repositories}
use arcana_cloud_go.Domain.AuthService.{
  AuthErr, user_not_found, invalid_credentials, user_already_exists, invalid_token, user_inactive,
  unavailable, not_signed, not_hashed, UserResponse,
}
use arcana_cloud_go.Domain.UserService.{UpdateProfileRequest, ChangePasswordRequest}
use arcana_cloud_go.Domain.UserService as Users
use arcana_cloud_go.Security.{Jwt, JwtProvider, PasswordHasher}
use arcana_cloud_go.Middleware.{
  Context, Passage, authenticate, require_admin, ◌then◌, get_current_user_id,
}
use arcana_cloud_go.Http.{ApiResponse, failure, success, behind}

pub data UserData : Type 0 where
  one_user : UserResponse → UserData
  user_page : Option (PagedResponse UserResponse) → UserData

-- The responses to the errors of a lookup, an update and a change of password.
unfoldable pub lookup_failure : AuthErr → ApiResponse UserData
lookup_failure user_not_found = failure 404 "user not found"
lookup_failure invalid_credentials = failure 500 "failed to fetch user"
lookup_failure user_already_exists = failure 500 "failed to fetch user"
lookup_failure invalid_token = failure 500 "failed to fetch user"
lookup_failure user_inactive = failure 500 "failed to fetch user"
lookup_failure unavailable = failure 500 "failed to fetch user"
lookup_failure not_signed = failure 500 "failed to fetch user"
lookup_failure not_hashed = failure 500 "failed to fetch user"

unfoldable pub update_failure : AuthErr → ApiResponse UserData
update_failure user_not_found = failure 404 "user not found"
update_failure invalid_credentials = failure 500 "failed to update user"
update_failure user_already_exists = failure 409 "email already in use"
update_failure invalid_token = failure 500 "failed to update user"
update_failure user_inactive = failure 500 "failed to update user"
update_failure unavailable = failure 500 "failed to update user"
update_failure not_signed = failure 500 "failed to update user"
update_failure not_hashed = failure 500 "failed to update user"

unfoldable pub password_failure : AuthErr → ApiResponse UserData
password_failure user_not_found = failure 404 "user not found"
password_failure invalid_credentials = failure 400 "current password is incorrect"
password_failure user_already_exists = failure 500 "failed to change password"
password_failure invalid_token = failure 500 "failed to change password"
password_failure user_inactive = failure 500 "failed to change password"
password_failure unavailable = failure 500 "failed to change password"
password_failure not_signed = failure 500 "failed to change password"
password_failure not_hashed = failure 500 "failed to change password"

abbrev pub responded :
    {X : Type 0}
    → (AuthErr → ApiResponse UserData)
    → (X → ApiResponse UserData)
    → Result AuthErr X
    → ApiResponse UserData
responded failed done (ok x) = done x
responded failed done (err e) = failed e

pub data UserRoute : Type 0 where
  get_users : ℕ → ℕ → UserRoute
  get_me : UserRoute
  put_me : Option UpdateProfileRequest → UserRoute
  put_password : Option ChangePasswordRequest → UserRoute
  get_number : Option ℕ → UserRoute
  get_name : String → UserRoute
  delete_number : Option ℕ → UserRoute

module _ (r : Repositories) (hasher : PasswordHasher) where
  abbrev pub Handler : Type 0
  Handler = r.State → ApiResponse UserData × r.State

  shown : UserResponse → ApiResponse UserData
  shown u = success 200 "" (some (one_user u))

  -- The current user's id, which is not 0.
  abbrev pub as_user : Context → (ℕ → Handler) → Handler
  as_user c handler s =
      if get_current_user_id c == 0
      then (failure 401 "not authenticated", s)
      else handler (get_current_user_id c) s

  unfoldable pub list_users : ℕ → ℕ → Handler
  list_users page size s =
      let out = Users.list r hasher page size s in
      (
        responded (λ e. failure 500 "failed to fetch users")
            (λ l. success 200 "" (some (user_page l))) out.0,
        out.1,
      )

  fetch : ℕ → Handler
  unfolding lookup_failure shown
  fetch id s =
      let out = Users.get_by_id r hasher id s in (responded lookup_failure shown out.0, out.1)

  unfoldable pub get_current_user : Context → Handler
  unfolding fetch
  get_current_user c = as_user c fetch

  unfoldable pub update_current_user : Context → Option UpdateProfileRequest → Handler
  unfolding update_failure
  update_current_user c none = as_user c (λ id s. (failure 400 "validation failed", s))
  update_current_user c (some req) = as_user c (λ id s.
      let out = Users.update_profile r hasher id req s in
      (
        responded update_failure
            (λ u. success 200 "Profile updated successfully" (some (one_user u))) out.0,
        out.1,
      ))

  unfoldable pub change_password : Context → Option ChangePasswordRequest → Handler
  unfolding password_failure
  change_password c none = as_user c (λ id s. (failure 400 "validation failed", s))
  change_password c (some req) = as_user c (λ id s.
      let out = Users.change_password r hasher id req s in
      (
        responded password_failure (λ u. success 200 "Password changed successfully" none) out.0,
        out.1,
      ))

  unfoldable pub get_by_number : Option ℕ → Handler
  unfolding fetch
  get_by_number none s = (failure 400 "invalid user ID", s)
  get_by_number (some id) s = fetch id s

  unfoldable pub get_by_name : String → Handler
  unfolding lookup_failure shown
  get_by_name name s =
      let out = Users.get_by_username r hasher name s in
      if is_empty name
      then (failure 400 "username is required", s)
      else (responded lookup_failure shown out.0, out.1)

  unfoldable pub delete_user : Option ℕ → Handler
  delete_user none s = (failure 400 "invalid user ID", s)
  delete_user (some id) s =
      let out = Users.delete r hasher id s in
      (
        responded (λ e. failure 500 "failed to delete user")
            (λ u. success 200 "User deleted successfully" none) out.0,
        out.1,
      )

  unfoldable pub handle : UserRoute → Context → Handler
  unfolding list_users get_current_user update_current_user change_password get_by_number
      get_by_name delete_user
  handle (get_users page size) c = list_users page size
  handle get_me c = get_current_user c
  handle (put_me req) c = update_current_user c req
  handle (put_password req) c = change_password c req
  handle (get_number id) c = get_by_number id
  handle (get_name name) c = get_by_name name
  handle (delete_number id) c = delete_user id

  unfoldable pub serve : Jwt → JwtProvider → ℕ → UserRoute → Context → Handler
  unfolding handle
  serve jwt p now (get_users page size) c =
      behind ((authenticate jwt p now then require_admin) c) (handle (get_users page size))
  serve jwt p now (delete_number id) c =
      behind ((authenticate jwt p now then require_admin) c) (handle (delete_number id))
  serve jwt p now get_me c = behind (authenticate jwt p now c) (handle get_me)
  serve jwt p now (put_me req) c = behind (authenticate jwt p now c) (handle (put_me req))
  serve jwt p now (put_password req) c =
      behind (authenticate jwt p now c) (handle (put_password req))
  serve jwt p now (get_number id) c = behind (authenticate jwt p now c) (handle (get_number id))
  serve jwt p now (get_name name) c = behind (authenticate jwt p now c) (handle (get_name name))
