-- ===== src/Grpc/RepositoryServer.antt =====
-- internal/controller/grpc/repository/user_service.go: the repository layer's server, over a repository.
use arcana_cloud_go.Base.{
  ℕ, ◌+◌, ◌-◌, ◌/◌, ◌%◌, ◌^◌, String, Bool, true, false, ◌||◌, Option, none, some, List, map, ltb,
  leb, ◌==◌, if◌then◌else◌,
}
use arcana_cloud_go.Action.{Command, pure, raise, try_or, ◌>>=◌, ◌>>◌}
use arcana_cloud_go.Domain.Entity.{User, role_user}
use arcana_cloud_go.Domain.Repository.{Repositories}
use arcana_cloud_go.Grpc.{
  not_found, internal, ProtoUser, CreateUserRequest, UpdateUserRequest, ListUsersRequest,
  ListUsersResponse, Call, UserServiceClient,
}

-- It has no password.
unfoldable pub to_proto_user : User → ProtoUser
to_proto_user u = record {
  id = u.id;
  username = u.username;
  email = u.email;
  first_name = u.first_name;
  last_name = u.last_name;
  role = u.role;
  is_active = u.is_active;
  is_verified = u.is_verified;
}

-- A field that a request may leave out.
abbrev pub given : {A : Type 0} → Option A → A → A
given none old = old
given (some new) old = new

unfoldable pub user_to_create : CreateUserRequest → User
user_to_create req = record {
  id = 0;
  username = req.username;
  email = req.email;
  password = req.password;
  first_name = given req.first_name "";
  last_name = given req.last_name "";
  role = role_user;
  is_active = true;
  is_verified = false;
}

unfoldable pub user_to_update : UpdateUserRequest → User → User
user_to_update req u = record u {
  email = given req.email u.email;
  first_name = given req.first_name u.first_name;
  last_name = given req.last_name u.last_name;
  password = given req.password u.password;
  is_active = given req.is_active u.is_active;
  is_verified = given req.is_verified u.is_verified;
}

-- An int32 below 1: zero, or the sign bit is set.
abbrev pub not_positive : ℕ → Bool
not_positive bits = (bits == 0) || leb (2 ^ 31) bits

unfoldable pub asked_page : ListUsersRequest → ℕ
asked_page req = if not_positive req.page then 1 else req.page

unfoldable pub asked_size : ListUsersRequest → ℕ
asked_size req = if not_positive req.size || ltb 100 req.size then 10 else req.size

unfoldable pub proto_page : ℕ → ℕ → List User × ℕ → ListUsersResponse
unfolding to_proto_user
proto_page page size (users, total) = record {
  users = map to_proto_user users;
  page_info = record {
    page = page;
    size = size;
    total_items = total;
    total_pages = ((total + size - 1) / size) % 2 ^ 32;
  };
}

module _ (r : Repositories) where
  unfoldable pub user_or_not_found : Option User → Call r.State User
  user_or_not_found none = raise not_found
  user_or_not_found (some u) = pure u

  -- The part that the three lookups share.
  unfoldable pub looked_up : Command r.State (Option User) → Call r.State ProtoUser
  unfolding user_or_not_found to_proto_user
  looked_up c = do o ← try_or internal c; u ← user_or_not_found o; pure (to_proto_user u)

  unfoldable pub get_user : ℕ → Call r.State ProtoUser
  unfolding looked_up
  get_user id = looked_up (r.get_user id)

  unfoldable pub create_user : CreateUserRequest → Call r.State ProtoUser
  unfolding user_to_create to_proto_user
  create_user req = do
    u ← try_or internal (r.create_user (user_to_create req))
    pure (to_proto_user u)

  unfoldable pub update_user : UpdateUserRequest → Call r.State ProtoUser
  unfolding user_or_not_found user_to_update to_proto_user
  update_user req = do
    o ← try_or internal (r.get_user req.id)
    u ← user_or_not_found o
    try_or internal (r.update_user (user_to_update req u))
    pure (to_proto_user (user_to_update req u))

  unfoldable pub delete_user : ℕ → Call r.State (Unit {0})
  delete_user id = try_or internal (r.delete_user id)

  unfoldable pub list_users : ListUsersRequest → Call r.State ListUsersResponse
  unfolding asked_page asked_size proto_page
  list_users req = do
    users ← try_or internal (r.list_users (asked_page req) (asked_size req))
    pure (proto_page (asked_page req) (asked_size req) users)

  unfoldable pub get_user_by_username : String → Call r.State ProtoUser
  unfolding looked_up
  get_user_by_username name = looked_up (r.get_by_username name)

  unfoldable pub get_user_by_email : String → Call r.State ProtoUser
  unfolding looked_up
  get_user_by_email email = looked_up (r.get_by_email email)

  unfoldable pub exists_by_username : String → Call r.State Bool
  exists_by_username name = try_or internal (r.exists_by_username name)

  unfoldable pub exists_by_email : String → Call r.State Bool
  exists_by_email email = try_or internal (r.exists_by_email email)

  -- The server behind a connection that does not fail.
  abbrev pub served : UserServiceClient r.State
  served = record {
    get_user = get_user;
    create_user = create_user;
    update_user = update_user;
    delete_user = delete_user;
    list_users = list_users;
    get_user_by_username = get_user_by_username;
    get_user_by_email = get_user_by_email;
    exists_by_username = exists_by_username;
    exists_by_email = exists_by_email;
  }
