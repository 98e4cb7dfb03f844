-- ===== src/Examples/Grpc.antt =====
-- The layers on the database in memory.
use arcana_cloud_go.Jobs.Job.{second}
use arcana_cloud_go.Base.{
  ◌≡◌, ◌*◌, refl, String, false, option_map, str_eq, ◌⊎◌, Bool-cases, inl, inr,
}
use arcana_cloud_go.Action.{ok, err}
use arcana_cloud_go.Domain.Repository.{set_user}
use arcana_cloud_go.Domain.AuthService.{
  invalid_credentials, user_inactive, unavailable, login, to_user_response,
}
use arcana_cloud_go.Domain.UserService.{UpdateProfileRequest, profiled, update_profile}
use arcana_cloud_go.Middleware.{next, aborted, bearer_token, authenticate, set_current_claims}
use arcana_cloud_go.Security.{UserClaims}
use arcana_cloud_go.Grpc.ServiceServer.{validate_token}
use arcana_cloud_go.Grpc.Validation.{Tells, validates_as_authenticated}
use arcana_cloud_go.Grpc.Layered.{layered, stripped, name_then_email, layered_reads}
use arcana_cloud_go.Grpc.Accounts.{profile_update_wipes, login_refused}
use arcana_cloud_go.Examples.Auth.{with_token}
use arcana_cloud_go.Examples.Memory.{
  ann, memory, itself, memory-IsDb, provider, two_tokens, tables, marks,
}

layered_reads_example :
    ((layered memory).get_user 1 tables
      ≡ (option_map (option_map stripped) (memory.get_user 1 tables).0, tables))
    × ((layered memory).get_by_username "ann" tables
        ≡ (option_map (option_map stripped) (memory.get_by_username "ann" tables).0, tables))
    × ((layered memory).get_by_email "ann" tables
        ≡ (option_map (option_map stripped) (memory.get_by_email "ann" tables).0, tables))
    × ((layered memory).exists_by_username "ann" tables ≡ memory.exists_by_username "ann" tables)
    × ((layered memory).exists_by_email "ann" tables ≡ memory.exists_by_email "ann" tables)
    × ((layered memory).get_by_username_or_email "ann" tables
        ≡ (option_map (option_map stripped) (name_then_email memory "ann" tables).0, tables))
layered_reads_example = layered_reads memory 1 "ann" tables

marks_nothing : (text : String) → marks.verify text "" ≡ false
marks_nothing text = elim (Bool-cases (str_eq text "pw")) [
  | inl same ↦ rw same refl
  | inr other ↦ rw other refl
]

login_refused_example :
    let reply =
      (login
        (layered memory)
        two_tokens
        provider
        marks
        (10 * second)
        "u2"
        (record { username_or_email = "ann"; password = "pw" })
        tables).0 in
    (reply ≡ err invalid_credentials) ⊎ ((reply ≡ err user_inactive) ⊎ (reply ≡ err unavailable))
login_refused_example =
    login_refused memory two_tokens provider marks (10 * second) "u2"
      (record { username_or_email = "ann"; password = "pw" }) tables marks_nothing

profile_update_wipes_example :
    let req : UpdateProfileRequest = record { first_name = "Anna"; last_name = ""; email = "" } in
    let out = update_profile (layered memory) marks 1 req tables in
    let new = profiled (layered memory) marks req ann in
    (out.0 ≡ ok (to_user_response new))
    × (out.1 ≡ record tables { users = set_user (record new { password = "" }) tables.users })
profile_update_wipes_example =
    profile_update_wipes memory itself memory-IsDb marks 1
      (record { first_name = "Anna"; last_name = ""; email = "" }) ann tables refl refl

validates_as_authenticated_example :
    let v = validate_token two_tokens provider (30 * second) "a" in
    let c = with_token "bearer a" in
    ((claims : UserClaims) × Tells v claims
      × (authenticate two_tokens provider (30 * second) c ≡ next (set_current_claims claims c)))
    ⊎ ((v.valid ≡ false)
        × (message : String) × (authenticate two_tokens provider (30 * second) c
            ≡ aborted 401 message c))
unfolding bearer_token
validates_as_authenticated_example =
    validates_as_authenticated two_tokens provider (30 * second) "a" (with_token "bearer a") refl
      refl
