-- ===== src/Domain/Mongo/Delegation.antt =====
-- internal/domain/repository/impl: the repositories over the DAOs of MongoDB.
use arcana_cloud_go.Domain.Repository.{Repositories}
use arcana_cloud_go.Domain.Mongo.{Mongo}
use arcana_cloud_go.Domain.Mongo.Users as Users
use arcana_cloud_go.Domain.Mongo.RefreshTokens as RefreshTokens

abbrev pub mongo_repositories : Mongo → Repositories
mongo_repositories m = record {
  State = m.State;
  exists_by_username = Users.exists_by_username m;
  exists_by_email = Users.exists_by_email m;
  create_user = Users.create m;
  update_user = Users.update m;
  delete_user = Users.delete m;
  list_users = Users.find_all m;
  get_user = Users.find_by_id m;
  get_by_username = Users.find_by_username m;
  get_by_email = Users.find_by_email m;
  get_by_username_or_email = Users.find_by_username_or_email m;
  create_token = RefreshTokens.create m;
  get_token = RefreshTokens.find_by_token m;
  revoke_token = RefreshTokens.revoke_by_token m;
  revoke_all = RefreshTokens.revoke_all_by_user_id m;
}
