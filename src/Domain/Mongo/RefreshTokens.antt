-- ===== src/Domain/Mongo/RefreshTokens.antt =====
-- internal/domain/dao/impl/mongo/refresh_token_dao_impl.go. The user that a token is given is not read
-- by any caller, so only the lookup is there.
use arcana_cloud_go.Base.{ℕ, String, Bool, true, not, ◌&&◌, Option, none, some, ◌==◌, str_eq, ltb}
use arcana_cloud_go.Action.{Command, chain}
use arcana_cloud_go.Domain.Entity.{RefreshToken}
use arcana_cloud_go.Domain.Mongo.{
  Mongo, RefreshTokenDocument, token_to_document, token_to_entity, with_not_deleted,
}
use arcana_cloud_go.Domain.Mongo.Users as Users

module _ (m : Mongo) where
  abbrev pub token_deleted : RefreshTokenDocument → Bool
  token_deleted d = d.deleted

  unfoldable pub create : RefreshToken → Command m.State (Unit {0})
  unfolding token_to_document
  create rt =
      chain (m.next_id "refresh_tokens")
        (λ id. m.refresh_tokens.insert_one (token_to_document id rt))

  -- The user is looked up, and an error of that is dropped.
  unfoldable pub with_user : Option RefreshTokenDocument → Command m.State (Option RefreshToken)
  unfolding token_to_entity
  with_user none s = (some none, s)
  with_user (some d) s = (some (some (token_to_entity d)), (Users.find_by_id m d.user_id s).1)

  unfoldable pub find_by_token : String → Command m.State (Option RefreshToken)
  unfolding with_user with_not_deleted
  find_by_token t =
      chain
        (m.refresh_tokens.find_one (
          with_not_deleted m.refresh_tokens token_deleted (λ d. str_eq d.token t && not d.revoked)))
        with_user

  unfoldable pub revoke_by_token : String → Command m.State (Unit {0})
  revoke_by_token t =
      m.refresh_tokens.update_one (λ d. str_eq d.token t) (λ d. record d { revoked = true })

  unfoldable pub revoke_all_by_user_id : ℕ → Command m.State (Unit {0})
  revoke_all_by_user_id user_id =
      m.refresh_tokens.update_many (λ d. d.user_id == user_id) (λ d. record d { revoked = true })

  unfoldable pub delete_expired : ℕ → Command m.State (Unit {0})
  delete_expired now = m.refresh_tokens.delete_many (λ d. ltb d.expires_at now)
