-- ===== src/Domain/Mongo/Users.antt =====
-- internal/domain/dao/impl/mongo/user_dao_impl.go
use arcana_cloud_go.Base.{ℕ, String, Bool, true, ◌||◌, Option, List, option_map, ◌==◌, str_eq}
use arcana_cloud_go.Action.{Command, chain, reply}
use arcana_cloud_go.Domain.Entity.{User}
use arcana_cloud_go.Domain.Mongo.{
  Mongo, UserDocument, user_to_document, user_to_entity, users_to_entities, set_user_document,
  with_not_deleted, exists_by, count, skip_of,
}

module _ (m : Mongo) where
  abbrev pub is_deleted : UserDocument → Bool
  is_deleted d = d.deleted

  -- The part that the lookups share: no document is no user.
  unfoldable pub find_user : (UserDocument → Bool) → Command m.State (Option User)
  unfolding with_not_deleted user_to_entity
  find_user test =
      chain (m.users.find_one (with_not_deleted m.users is_deleted test))
        (λ d. reply (option_map user_to_entity d))

  -- The user with the id that it was given.
  unfoldable pub create : User → Command m.State User
  unfolding user_to_document
  create u = chain (m.next_id "users") (λ id.
      let new = record u { id = id } in
      chain (m.users.insert_one (user_to_document new)) (λ done. reply new))

  unfoldable pub find_by_id : ℕ → Command m.State (Option User)
  unfolding find_user
  find_by_id id = find_user (λ d. d.numeric_id == id)

  unfoldable pub update : User → Command m.State (Unit {0})
  unfolding user_to_document set_user_document
  update u = m.users.update_one (λ d. d.numeric_id == u.id) (set_user_document (user_to_document u))

  unfoldable pub delete : ℕ → Command m.State (Unit {0})
  delete id = m.users.update_one (λ d. d.numeric_id == id) (λ d. record d { deleted = true })

  unfoldable pub find_all : ℕ → ℕ → Command m.State (List User × ℕ)
  unfolding with_not_deleted users_to_entities count skip_of
  find_all page size = chain (count m.users is_deleted) (λ total.
      chain
        (m.users.find_page (with_not_deleted m.users is_deleted (λ d. true)) (skip_of page size)
          size)
        (λ docs. reply (users_to_entities docs, total)))

  unfoldable pub find_by_username : String → Command m.State (Option User)
  unfolding find_user
  find_by_username name = find_user (λ d. str_eq d.username name)

  unfoldable pub find_by_email : String → Command m.State (Option User)
  unfolding find_user
  find_by_email email = find_user (λ d. str_eq d.email email)

  unfoldable pub find_by_username_or_email : String → Command m.State (Option User)
  unfolding find_user
  find_by_username_or_email text = find_user (λ d. str_eq d.username text || str_eq d.email text)

  unfoldable pub exists_by_username : String → Command m.State Bool
  unfolding exists_by
  exists_by_username name = exists_by m.users is_deleted (λ d. str_eq d.username name)

  unfoldable pub exists_by_email : String → Command m.State Bool
  unfolding exists_by
  exists_by_email email = exists_by m.users is_deleted (λ d. str_eq d.email email)
