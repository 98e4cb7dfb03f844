-- ===== src/Domain/Mongo.antt =====
-- internal/domain/dao/impl/mongo: documents, mappers and what the DAOs share. A collection of the MongoDB
-- driver is a record of commands. A filter is the test that it makes of a document and an update is what
-- it makes of one; `IsCollection` states what MongoDB documents of its commands.
pub mod Users
pub mod RefreshTokens
pub mod Delegation
pub mod Reads
pub mod Writes
use arcana_cloud_go.Base.{
  ℕ, suc, ◌*◌, ◌≡◌, String, Bool, true, false, not, ◌&&◌, Option, none, some, List, [], ◌∷◌, ◌++◌,
  map, ltb, str_eq, if◌then◌else◌,
}
use arcana_cloud_go.Base.Int.{ℤ, sub_ℕ}
use arcana_cloud_go.Action.{Command, chain, reply}
use arcana_cloud_go.Jobs.RedisQueue.{is_empty}
use arcana_cloud_go.Domain.Entity.{User, RefreshToken}
use arcana_cloud_go.Domain.Repository.{first}

pub record Collection (S D : Type 0) : Type 0 where
  pub find_one : (D → Bool) → Command S (Option D)  -- `some none` is ErrNoDocuments
  pub find_page : (D → Bool) → ℤ → ℕ → Command S (List D)  -- skip and limit, sorted
  pub count_documents : (D → Bool) → Command S ℕ
  pub insert_one : D → Command S (Unit {0})
  pub update_one : (D → Bool) → (D → D) → Command S (Unit {0})
  pub update_many : (D → Bool) → (D → D) → Command S (Unit {0})
  pub delete_many : (D → Bool) → Command S (Unit {0})

module _ {D : Type 0} where
  abbrev pub count_of : (D → Bool) → List D → ℕ
  count_of test [] = 0
  count_of test (d ∷ l) = let rest = count_of test l in if test d then suc rest else rest

  abbrev pub update_first : (D → Bool) → (D → D) → List D → List D
  update_first test f [] = []
  update_first test f (d ∷ l) =
      let rest = update_first test f l in if test d then f d ∷ l else d ∷ rest

  abbrev pub update_all : (D → Bool) → (D → D) → List D → List D
  update_all test f [] = []
  update_all test f (d ∷ l) = (if test d then f d else d) ∷ update_all test f l

  abbrev pub without : (D → Bool) → List D → List D
  without test [] = []
  without test (d ∷ l) = let rest = without test l in if test d then rest else d ∷ rest

pub record IsCollection {S D : Type 0} (c : Collection S D) (docs : S → List D) : Type 0 where
  pub find_one_reply :
      (test : D → Bool) (s : S) → (c.find_one test s).0 ≡ some (first test (docs s))
  pub find_one_leaves : (test : D → Bool) (s : S) → docs (c.find_one test s).1 ≡ docs s
  pub count_documents_reply :
      (test : D → Bool) (s : S) → (c.count_documents test s).0 ≡ some (count_of test (docs s))
  pub count_documents_leaves :
      (test : D → Bool) (s : S) → docs (c.count_documents test s).1 ≡ docs s
  pub update_one_leaves :
      (test : D → Bool) (f : D → D) (s : S)
      → docs (c.update_one test f s).1 ≡ update_first test f (docs s)
  pub update_many_leaves :
      (test : D → Bool) (f : D → D) (s : S)
      → docs (c.update_many test f s).1 ≡ update_all test f (docs s)
  pub delete_many_leaves :
      (test : D → Bool) (s : S) → docs (c.delete_many test s).1 ≡ without test (docs s)

-- `deleted` is a deleted_at other than nil.
pub record UserDocument : Type 0 where
  pub numeric_id : ℕ
  pub username : String
  pub email : String
  pub password : String
  pub first_name : String
  pub last_name : String
  pub role : String
  pub is_active : Bool
  pub is_verified : Bool
  pub deleted : Bool

pub record RefreshTokenDocument : Type 0 where
  pub numeric_id : ℕ
  pub user_id : ℕ
  pub token : String
  pub expires_at : ℕ
  pub revoked : Bool
  pub deleted : Bool

-- Entities that are written are not deleted ones.
unfoldable pub user_to_document : User → UserDocument
user_to_document u = record {
  numeric_id = u.id;
  username = u.username;
  email = u.email;
  password = u.password;
  first_name = u.first_name;
  last_name = u.last_name;
  role = u.role;
  is_active = u.is_active;
  is_verified = u.is_verified;
  deleted = false;
}

unfoldable pub user_to_entity : UserDocument → User
user_to_entity d = record {
  id = d.numeric_id;
  username = d.username;
  email = d.email;
  password = d.password;
  first_name = d.first_name;
  last_name = d.last_name;
  role = d.role;
  is_active = d.is_active;
  is_verified = d.is_verified;
}

unfoldable pub users_to_entities : List UserDocument → List User
unfolding user_to_entity
users_to_entities l = map user_to_entity l

unfoldable pub token_to_document : ℕ → RefreshToken → RefreshTokenDocument
token_to_document id rt = record {
  numeric_id = id;
  user_id = rt.user_id;
  token = rt.token;
  expires_at = rt.expires_at;
  revoked = rt.revoked;
  deleted = false;
}

unfoldable pub token_to_entity : RefreshTokenDocument → RefreshToken
token_to_entity d = record {
  user_id = d.user_id;
  token = d.token;
  expires_at = d.expires_at;
  revoked = d.revoked;
}

-- A field of $set that is marked omitempty.
unfoldable pub omitempty : String → String → String
omitempty new old = if is_empty new then old else new

-- {"$set": doc}: empty names and an absent deleted_at are not sent.
unfoldable pub set_user_document : UserDocument → UserDocument → UserDocument
unfolding omitempty
set_user_document doc old = record doc {
  first_name = omitempty doc.first_name old.first_name;
  last_name = omitempty doc.last_name old.last_name;
  deleted = old.deleted;
}

-- The collections of a database and its counters.
pub record Mongo : Type 1 where
  pub State : Type 0
  pub users : Collection State UserDocument
  pub refresh_tokens : Collection State RefreshTokenDocument
  pub next_id : String → Command State ℕ

-- base_dao_impl.go
module _ {S D : Type 0} (c : Collection S D) (deleted : D → Bool) where
  unfoldable pub with_not_deleted : (D → Bool) → D → Bool
  with_not_deleted test d = test d && not (deleted d)

  unfoldable pub exists_by : (D → Bool) → Command S Bool
  unfolding with_not_deleted
  exists_by test = chain (c.count_documents (with_not_deleted test)) (λ n. reply (ltb 0 n))

  unfoldable pub count : Command S ℕ
  unfolding with_not_deleted
  count = c.count_documents (with_not_deleted (λ d. true))

-- (page - 1) * size
unfoldable pub skip_of : ℕ → ℕ → ℤ
skip_of page size = sub_ℕ (page * size) size
