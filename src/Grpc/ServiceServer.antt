-- ===== src/Grpc/ServiceServer.antt =====
-- internal/controller/grpc/service: the service layer's servers, over the services of Domain.
use arcana_cloud_go.Base.{
  ℕ, ◌%◌, ◌^◌, String, Bool, true, false, Option, map, option_map, if◌then◌else◌,
}
use arcana_cloud_go.Action.{Result, Action, ok, err, raise}
use arcana_cloud_go.Domain.Repository.{Repositories}
use arcana_cloud_go.Domain.AuthService.{
  AuthErr, user_not_found, invalid_credentials, user_already_exists, invalid_token, user_inactive,
  unavailable, not_signed, not_hashed, AuthResponse, UserResponse, RegisterRequest, LoginRequest,
}
use arcana_cloud_go.Domain.AuthService as Auth
use arcana_cloud_go.Domain.UserService as Users
use arcana_cloud_go.Response.{PagedResponse}
use arcana_cloud_go.Security.{
  Jwt, JwtProvider, PasswordHasher, JwtErr, UserClaims, validate_access_token,
}
use arcana_cloud_go.Grpc.{
  Code, not_found, unauthenticated, already_exists, permission_denied, unimplemented, internal,
  ProtoUser, CreateUserRequest, UpdateUserRequest, ListUsersRequest, ListUsersResponse, Call,
}
use arcana_cloud_go.Grpc.RepositoryServer.{given, not_positive}

-- auth_service.go
pub record ProtoAuth : Type 0 where
  pub access_token : String
  pub refresh_token : String
  pub token_type : String
  pub expires_in : ℕ
  pub user : ProtoUser

pub record ProtoRegister : Type 0 where
  pub username : String
  pub email : String
  pub password : String
  pub first_name : Option String
  pub last_name : Option String

pub record Validation : Type 0 where
  pub valid : Bool
  pub user_id : ℕ
  pub username : String
  pub role : String

unfoldable pub to_proto_user : UserResponse → ProtoUser
to_proto_user u = record {
  id = u.id;
  username = u.username;
  email = u.email;
  first_name = u.first_name;
  last_name = u.last_name;
  role = u.role;
  is_active = u.is_active;
  is_verified = u.is_verified;
}

unfoldable pub to_proto_auth_response : AuthResponse → ProtoAuth
unfolding to_proto_user
to_proto_auth_response resp = record {
  access_token = resp.access_token;
  refresh_token = resp.refresh_token;
  token_type = resp.token_type;
  expires_in = resp.expires_in;
  user = to_proto_user resp.user;
}

unfoldable pub auth_code : AuthErr → Code
auth_code user_not_found = not_found
auth_code invalid_credentials = unauthenticated
auth_code user_already_exists = already_exists
auth_code invalid_token = unauthenticated
auth_code user_inactive = permission_denied
auth_code unavailable = internal
auth_code not_signed = internal
auth_code not_hashed = internal

unfoldable pub user_code : AuthErr → Code
user_code user_not_found = not_found
user_code invalid_credentials = internal
user_code user_already_exists = already_exists
user_code invalid_token = internal
user_code user_inactive = internal
user_code unavailable = internal
user_code not_signed = internal
user_code not_hashed = internal

abbrev pub status : {A B : Type 0} → (AuthErr → Code) → (A → B) → Result AuthErr A → Result Code B
status code f (ok a) = ok (f a)
status code f (err e) = err (code e)

-- A call that passes on what a service returns.
abbrev pub passed : {S A B : Type 0} → (AuthErr → Code) → (A → B) → Action AuthErr S A → Call S B
passed code f m s = (status code f (m s).0, (m s).1)

abbrev pub empty : Unit {0} → Unit {0}
empty u = u

module _ (r : Repositories) (jwt : Jwt) (p : JwtProvider) (hasher : PasswordHasher) where
  unfoldable pub register : ℕ → String → ProtoRegister → Call r.State ProtoAuth
  unfolding auth_code to_proto_auth_response
  register now uuid req = passed auth_code to_proto_auth_response (
      Auth.register r jwt p hasher now uuid (record {
        username = req.username;
        email = req.email;
        password = req.password;
        first_name = given req.first_name "";
        last_name = given req.last_name "";
      }))

  unfoldable pub login : ℕ → String → LoginRequest → Call r.State ProtoAuth
  unfolding auth_code to_proto_auth_response
  login now uuid req =
      passed auth_code to_proto_auth_response (Auth.login r jwt p hasher now uuid req)

  unfoldable pub refresh_token : ℕ → String → String → Call r.State ProtoAuth
  unfolding auth_code to_proto_auth_response
  refresh_token now uuid t =
      passed auth_code to_proto_auth_response (Auth.refresh_token r jwt p hasher now uuid t)

  unfoldable pub logout : String → Call r.State (Unit {0})
  unfolding auth_code
  logout t = passed auth_code empty (Auth.logout r jwt p hasher t)

  unfoldable pub logout_all : ℕ → Call r.State (Unit {0})
  unfolding auth_code
  logout_all user_id = passed auth_code empty (Auth.logout_all r jwt p hasher user_id)

-- A token that is refused is a reply too.
unfoldable pub validation : Result JwtErr UserClaims → Validation
validation (err e) = record { valid = false; user_id = 0; username = ""; role = "" }
validation (ok claims) = record {
  valid = true;
  user_id = claims.user_id;
  username = claims.username;
  role = claims.role;
}

unfoldable pub validate_token : Jwt → JwtProvider → ℕ → String → Validation
unfolding validation
validate_token jwt p now t = validation (validate_access_token jwt p now t)

-- user_service.go
unfoldable pub profile_of : UpdateUserRequest → Users.UpdateProfileRequest
profile_of req = record {
  first_name = given req.first_name "";
  last_name = given req.last_name "";
  email = given req.email "";
}

unfoldable pub to_page : PagedResponse UserResponse → ListUsersResponse
unfolding to_proto_user
to_page result = record {
  users = map to_proto_user result.items;
  page_info = record {
    page = result.page_info.page % 2 ^ 32;
    size = result.page_info.size % 2 ^ 32;
    total_items = result.page_info.total_items;
    total_pages = result.page_info.total_pages % 2 ^ 32;
  };
}

module _ (r : Repositories) (hasher : PasswordHasher) where
  unfoldable pub get_user : ℕ → Call r.State ProtoUser
  unfolding user_code to_proto_user
  get_user id = passed user_code to_proto_user (Users.get_by_id r hasher id)

  unfoldable pub create_user : CreateUserRequest → Call r.State ProtoUser
  create_user req = raise unimplemented

  unfoldable pub update_user : UpdateUserRequest → Call r.State ProtoUser
  unfolding user_code to_proto_user profile_of
  update_user req =
      passed user_code to_proto_user (Users.update_profile r hasher req.id (profile_of req))

  unfoldable pub delete_user : ℕ → Call r.State (Unit {0})
  unfolding user_code
  delete_user id = passed user_code empty (Users.delete r hasher id)

  unfoldable pub get_user_by_username : String → Call r.State ProtoUser
  unfolding user_code to_proto_user
  get_user_by_username name = passed user_code to_proto_user (Users.get_by_username r hasher name)

  unfoldable pub get_user_by_email : String → Call r.State ProtoUser
  unfolding user_code to_proto_user
  get_user_by_email email = passed user_code to_proto_user (Users.get_by_email r hasher email)

  unfoldable pub exists_by_username : String → Call r.State Bool
  unfolding user_code
  exists_by_username name = passed user_code (λ b. b) (Users.exists_by_username r hasher name)

  unfoldable pub exists_by_email : String → Call r.State Bool
  unfolding user_code
  exists_by_email email = passed user_code (λ b. b) (Users.exists_by_email r hasher email)

  -- int(req.Page), where `List` takes a number below zero as it takes zero.
  abbrev signed : ℕ → ℕ
  signed bits = if not_positive bits then 0 else bits

  -- `none` is the panic of `Users.list`.
  unfoldable pub list_users : ListUsersRequest → Call r.State (Option ListUsersResponse)
  unfolding user_code to_page
  list_users req =
      passed user_code (option_map to_page)
        (Users.list r hasher (signed req.page) (signed req.size))
