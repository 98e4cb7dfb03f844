-- ===== src/Examples/Auth.antt =====
-- Authentication, users and middleware on the database in memory.
use arcana_cloud_go.Base.{◌*◌, ◌≡◌, refl, String, true, none, some, [], if◌then◌else◌, arith}
use arcana_cloud_go.Jobs.Job.{second}
use arcana_cloud_go.Action.{ok, err}
use arcana_cloud_go.Domain.Entity.{is_valid, User}
use arcana_cloud_go.Domain.AuthService.{
  invalid_token, auth_response, to_user_response, login, refresh_token,
}
use arcana_cloud_go.Domain.AuthService.Rotation.{rotated, refresh_once}
use arcana_cloud_go.Domain.AuthService.Refusals.{login_only_verified}
use arcana_cloud_go.Middleware.{
  Context, next, aborted, ◌then◌, bearer_token, set_current_claims, get_current_user_id,
  authenticate, require_admin,
}
use arcana_cloud_go.Middleware.Access.{admin_passes, refresh_authenticates}
use arcana_cloud_go.Security.{
  validate_refresh_token, validate_access_token, generate_access_token, generate_refresh_token,
  as_user, as_registered, UserClaims, access_claims,
}
use arcana_cloud_go.Examples.Memory.{
  ann, stored, memory, itself, memory-IsDb, provider, access, renewed, two_tokens,
  two_tokens-ParsesSigned, tables, marks,
}

refresh_once_example :
    let one = refresh_token memory two_tokens provider marks (10 * second) "u2" "r1" tables in
    let two = refresh_token memory two_tokens provider marks (20 * second) "u3" "r1" one.1 in
    (one.0 ≡ ok (auth_response memory two_tokens provider marks "a" "r2" ann))
    × (one.1
        ≡ rotated memory two_tokens provider marks itself memory-IsDb
            (10 * second)
            "r1"
            "r2"
            ann
            tables)
    × (two.0 ≡ err invalid_token)
    × (two.1 ≡ one.1)
unfolding validate_refresh_token generate_access_token generate_refresh_token is_valid
refresh_once_example =
    refresh_once memory two_tokens provider marks itself memory-IsDb (10 * second) (20 * second)
      "u2" "u3" "r1" "a" "r2" (as_registered renewed) stored ann tables refl refl refl refl refl
      refl refl refl

login_only_verified_example :
    (user : User) × ((memory.get_by_username_or_email "ann" tables).0 ≡ some (some user))
    × (user.is_active ≡ true)
    × (marks.verify "pw" user.password ≡ true)
    × ((auth_response memory two_tokens provider marks "a" "r2" ann).user ≡ to_user_response user)
unfolding login auth_response generate_access_token generate_refresh_token
login_only_verified_example =
    login_only_verified memory two_tokens provider marks (10 * second) "u2"
      (record { username_or_email = "ann"; password = "pw" }) tables
      (auth_response memory two_tokens provider marks "a" "r2" ann) refl

abbrev pub with_token : String → Context
with_token header = record {
  method = "GET";
  authorization = header;
  origin = "";
  given_id = "";
  claims = none;
  request_id = none;
  written = [];
}

admin_passes_example :
    (t : String) × (claims : UserClaims) × (bearer_token "bearer a" ≡ some t)
    × (validate_access_token two_tokens provider (30 * second) t ≡ ok claims)
    × (claims.role ≡ "ADMIN")
    × ((set_current_claims (as_user access) (with_token "bearer a")).claims ≡ some claims)
unfolding authenticate require_admin validate_access_token access_claims
admin_passes_example =
    admin_passes two_tokens provider (30 * second) (with_token "bearer a")
      (set_current_claims (as_user access) (with_token "bearer a")) refl

refresh_authenticates_example :
    let c = with_token "Bearer r2" in
    (c' : Context) × (authenticate two_tokens provider (30 * second) c ≡ next c')
    × (get_current_user_id c' ≡ 0)
    × ((authenticate two_tokens provider (30 * second) then require_admin) c
        ≡ aborted 403 "insufficient permissions" c')
unfolding generate_refresh_token bearer_token access_claims
refresh_authenticates_example =
    refresh_authenticates two_tokens provider two_tokens-ParsesSigned (10 * second) (30 * second)
      "u2" ann "r2" (with_token "Bearer r2") refl (omega arith) refl refl
