-- ===== src/Grpc/UserRepository.antt =====
-- internal/domain/repository/grpc/user_repository.go: the repository of users whose calls go to the
-- repository layer. The service layer keeps its own repository of tokens.
use arcana_cloud_go.Base.{ℕ, ◌%◌, ◌^◌, String, Bool, Option, none, some, List, map, if◌then◌else◌}
use arcana_cloud_go.Action.{Result, Command, ok, err}
use arcana_cloud_go.Jobs.RedisQueue.{is_empty}
use arcana_cloud_go.Domain.Entity.{User}
use arcana_cloud_go.Domain.Repository.{Repositories}
use arcana_cloud_go.Grpc.{
  Code, not_found, unauthenticated, already_exists, permission_denied, unimplemented, internal,
  other, ProtoUser, CreateUserRequest, UpdateUserRequest, ListUsersRequest, ListUsersResponse,
  UserServiceClient,
}

unfoldable pub to_entity : ProtoUser → User
to_entity resp = record {
  id = resp.id;
  username = resp.username;
  email = resp.email;
  password = "";
  first_name = resp.first_name;
  last_name = resp.last_name;
  role = resp.role;
  is_active = resp.is_active;
  is_verified = resp.is_verified;
}

unfoldable pub unless_empty : String → Option String
unless_empty text = if is_empty text then none else some text

unfoldable pub create_request : User → CreateUserRequest
unfolding unless_empty
create_request u = record {
  username = u.username;
  email = u.email;
  password = u.password;
  first_name = unless_empty u.first_name;
  last_name = unless_empty u.last_name;
}

-- Pointers to the fields are never nil.
unfoldable pub update_request : User → UpdateUserRequest
update_request u = record {
  id = u.id;
  email = some u.email;
  first_name = some u.first_name;
  last_name = some u.last_name;
  password = some u.password;
  is_active = some u.is_active;
  is_verified = some u.is_verified;
}

unfoldable pub list_request : ℕ → ℕ → ListUsersRequest
list_request page size = record { page = page % 2 ^ 32; size = size % 2 ^ 32 }

-- What becomes of a reply, of an error that is not looked at, and of a user who may not exist.
unfoldable pub replied : {A B : Type 0} → (A → B) → Result Code A → Option B
replied f (ok a) = some (f a)
replied f (err e) = none

unfoldable pub user_reply : Result Code ProtoUser → Option (Option User)
unfolding to_entity
user_reply (ok resp) = some (some (to_entity resp))
user_reply (err not_found) = some none
user_reply (err unauthenticated) = none
user_reply (err already_exists) = none
user_reply (err permission_denied) = none
user_reply (err unimplemented) = none
user_reply (err internal) = none
user_reply (err (other n)) = none

unfoldable pub listed : ListUsersResponse → List User × ℕ
unfolding to_entity
listed resp = (map to_entity resp.users, resp.page_info.total_items)

module _ {S : Type 0} (client : UserServiceClient S) where
  unfoldable pub create : User → Command S User
  unfolding create_request replied
  create u s =
      let out = client.create_user (create_request u) s in
      (replied (λ resp. record u { id = resp.id }) out.0, out.1)

  unfoldable pub get_by_id : ℕ → Command S (Option User)
  unfolding user_reply
  get_by_id id s = let out = client.get_user id s in (user_reply out.0, out.1)

  unfoldable pub get_by_username : String → Command S (Option User)
  unfolding user_reply
  get_by_username name s = let out = client.get_user_by_username name s in (user_reply out.0, out.1)

  unfoldable pub get_by_email : String → Command S (Option User)
  unfolding user_reply
  get_by_email email s = let out = client.get_user_by_email email s in (user_reply out.0, out.1)

  unfoldable pub or_by_email : String → Option (Option User) → Command S (Option User)
  unfolding get_by_email
  or_by_email name none s = (none, s)
  or_by_email name (some (some u)) s = (some (some u), s)
  or_by_email name (some none) s = get_by_email name s

  unfoldable pub get_by_username_or_email : String → Command S (Option User)
  unfolding get_by_username or_by_email
  get_by_username_or_email name s =
      or_by_email name (get_by_username name s).0 (get_by_username name s).1

  unfoldable pub update : User → Command S (Unit {0})
  unfolding update_request replied
  update u s =
      let out = client.update_user (update_request u) s in (replied (λ resp. tt) out.0, out.1)

  unfoldable pub delete : ℕ → Command S (Unit {0})
  unfolding replied
  delete id s = let out = client.delete_user id s in (replied (λ resp. tt) out.0, out.1)

  unfoldable pub list : ℕ → ℕ → Command S (List User × ℕ)
  unfolding list_request listed replied
  list page size s =
      let out = client.list_users (list_request page size) s in (replied listed out.0, out.1)

  unfoldable pub exists_by_username : String → Command S Bool
  unfolding replied
  exists_by_username name s =
      let out = client.exists_by_username name s in (replied (λ b. b) out.0, out.1)

  unfoldable pub exists_by_email : String → Command S Bool
  unfolding replied
  exists_by_email email s =
      let out = client.exists_by_email email s in (replied (λ b. b) out.0, out.1)

-- `NewUserRepositoryGRPC` beside the repository of tokens of `r`.
abbrev pub remote : (r : Repositories) → UserServiceClient r.State → Repositories
remote r client = record {
  State = r.State;
  exists_by_username = exists_by_username client;
  exists_by_email = exists_by_email client;
  create_user = create client;
  update_user = update client;
  delete_user = delete client;
  list_users = list client;
  get_user = get_by_id client;
  get_by_username = get_by_username client;
  get_by_email = get_by_email client;
  get_by_username_or_email = get_by_username_or_email client;
  create_token = r.create_token;
  get_token = r.get_token;
  revoke_token = r.revoke_token;
  revoke_all = r.revoke_all;
}
