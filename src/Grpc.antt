-- ===== src/Grpc.antt =====
-- The gRPC layer between the deployment's layers: the calls and messages of api/proto, as the servers
-- and clients of internal/controller/grpc and internal/domain/repository/grpc use them. Integers of the
-- messages are the numbers of their 32 or 64 bits.
pub mod RepositoryServer
pub mod UserRepository
pub mod ServiceServer
pub mod Validation
pub mod Layered
pub mod Accounts
use arcana_cloud_go.Base.{ℕ, String, Bool, Option, List}
use arcana_cloud_go.Action.{Action}

-- google.golang.org/grpc/codes, where the code names them; a call may come back with any other.
pub data Code : Type 0 where
  not_found unauthenticated already_exists permission_denied unimplemented internal : Code
  other : ℕ → Code

pub record ProtoUser : Type 0 where
  pub id : ℕ
  pub username : String
  pub email : String
  pub first_name : String
  pub last_name : String
  pub role : String
  pub is_active : Bool
  pub is_verified : Bool

pub record CreateUserRequest : Type 0 where
  pub username : String
  pub email : String
  pub password : String
  pub first_name : Option String
  pub last_name : Option String

pub record UpdateUserRequest : Type 0 where
  pub id : ℕ
  pub email : Option String
  pub first_name : Option String
  pub last_name : Option String
  pub password : Option String
  pub is_active : Option Bool
  pub is_verified : Option Bool

pub record ListUsersRequest : Type 0 where
  pub page : ℕ
  pub size : ℕ

pub record ProtoPageInfo : Type 0 where
  pub page : ℕ
  pub size : ℕ
  pub total_items : ℕ
  pub total_pages : ℕ

pub record ListUsersResponse : Type 0 where
  pub users : List ProtoUser
  pub page_info : ProtoPageInfo

abbrev pub Call : Type 0 → Type 0 → Type 0
Call S A = Action Code S A

-- pb.UserServiceClient: what a server and the connection to it do together, on the state of both.
pub record UserServiceClient (S : Type 0) : Type 0 where
  pub get_user : ℕ → Call S ProtoUser
  pub create_user : CreateUserRequest → Call S ProtoUser
  pub update_user : UpdateUserRequest → Call S ProtoUser
  pub delete_user : ℕ → Call S (Unit {0})
  pub list_users : ListUsersRequest → Call S ListUsersResponse
  pub get_user_by_username : String → Call S ProtoUser
  pub get_user_by_email : String → Call S ProtoUser
  pub exists_by_username : String → Call S Bool
  pub exists_by_email : String → Call S Bool
