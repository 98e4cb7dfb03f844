-- ===== src/Middleware/Access.antt =====
-- Whom the authentication and role handlers let through.
use arcana_cloud_go.Base.{
  ℕ, ◌+◌, ◌<◌, ◌≡◌, refl, sym, ap, ◌∙◌, String, true, false, none, some, str_eq_iff, if◌then◌else◌,
  Bool-cases, Option-cases, inl, inr, arith,
}
use arcana_cloud_go.Action.{ok, err, Result-cases}
use arcana_cloud_go.Jobs.RedisQueue.{is_empty}
use arcana_cloud_go.Domain.Entity.{User}
use arcana_cloud_go.Security.{
  Jwt, JwtProvider, ParsesSigned, numeric_date, UserClaims, JwtErr, validate_access_token,
  generate_refresh_token,
}
use arcana_cloud_go.Security.Tokens.{refresh_as_access}
use arcana_cloud_go.Middleware.{
  Context, Handler, next, aborted, ◌then◌, bearer_token, authenticate, require_admin,
  set_current_claims, get_current_user_id, optional_auth,
}

then_passes :
    (h g : Handler) (c c' : Context)
    → (h then g) c ≡ next c'
    → (c1 : Context) × (h c ≡ next c1) × (g c1 ≡ next c')
then_passes h g c c' e = ground arith

then_next : (h g : Handler) (c c1 : Context) → h c ≡ next c1 → (h then g) c ≡ g c1
then_next h g c c1 e = ground arith

admin_role :
    (c c' : Context) (claims : UserClaims)
    → require_admin (set_current_claims claims c) ≡ next c'
    → (claims.role ≡ "ADMIN") × (c'.claims ≡ some claims)
unfolding require_admin set_current_claims
admin_role c c' claims e = ground (arith, str_eq_iff claims.role "ADMIN")

module _ (jwt : Jwt) (p : JwtProvider) where
  authenticate_passes :
      (now : ℕ) (c c' : Context)
      → authenticate jwt p now c ≡ next c'
      → (t : String) × (claims : UserClaims) × (bearer_token c.authorization ≡ some t)
        × (validate_access_token jwt p now t ≡ ok claims)
        × (c' ≡ set_current_claims claims c)
  unfolding authenticate
  authenticate_passes now c c' e = ground arith

  -- Behind Authenticate and RequireAdmin a request comes only with a bearer token that is valid at the time
  -- and whose role is ADMIN, and its context has the claims of that token.
  pub admin_passes :
      (now : ℕ) (c c' : Context)
      → (authenticate jwt p now then require_admin) c ≡ next c'
      → (t : String) × (claims : UserClaims) × (bearer_token c.authorization ≡ some t)
        × (validate_access_token jwt p now t ≡ ok claims)
        × (claims.role ≡ "ADMIN")
        × (c'.claims ≡ some claims)
  admin_passes now c c' e =
      let (c1, passed, admitted) = then_passes (authenticate jwt p now) require_admin c c' e in
      let (t, claims, bearer, v, same) = authenticate_passes now c c1 passed in
      let (role, kept) = admin_role c c' claims (rw (sym same) admitted) in
      (t, claims, bearer, v, role, kept)

  -- With a JWT library that parses what it signed, a bearer token that is a refresh token, before the second
  -- in which it expires, passes Authenticate as the user id 0, and is then refused by RequireAdmin with
  -- status 403.
  pub refresh_authenticates :
      (law : ParsesSigned jwt) (now later : ℕ) (uuid : String) (user : User) (t : String)
      (c : Context)
      → generate_refresh_token jwt p now uuid user ≡ some t
      → later < numeric_date (now + p.refresh_token_duration)
      → is_empty c.authorization ≡ false
      → bearer_token c.authorization ≡ some t
      → (c' : Context) × (authenticate jwt p later c ≡ next c')
        × (get_current_user_id c' ≡ 0)
        × ((authenticate jwt p later then require_admin) c
            ≡ aborted 403 "insufficient permissions" c')
  unfolding authenticate get_current_user_id require_admin
  refresh_authenticates law now later uuid user t c signed alive given bearer =
      let (claims, v, i, n, m, r) =
        refresh_as_access jwt p law now later uuid user t signed alive in
      let passed : authenticate jwt p later c ≡ next (set_current_claims claims c) =
        rw (given, bearer, v) refl in
      (
        set_current_claims claims c,
        passed,
        i,
        then_next (authenticate jwt p later) require_admin c (set_current_claims claims c) passed
            ∙ (rw r refl),
      )

  optional_without :
      (now : ℕ) (c : Context) → is_empty c.authorization ≡ true → optional_auth jwt p now c ≡ next c
  unfolding optional_auth
  optional_without now c h = ground arith

  optional_none :
      (now : ℕ) (c : Context)
      → bearer_token c.authorization ≡ none
      → optional_auth jwt p now c ≡ next c
  unfolding optional_auth
  optional_none now c h = ground arith

  optional_ok :
      (now : ℕ) (c : Context) (t : String) (claims : UserClaims)
      → is_empty c.authorization ≡ false
      → bearer_token c.authorization ≡ some t
      → validate_access_token jwt p now t ≡ ok claims
      → optional_auth jwt p now c ≡ next (set_current_claims claims c)
  unfolding optional_auth
  optional_ok now c t claims given bearer v = rw (given, bearer, v) refl

  optional_err :
      (now : ℕ) (c : Context) (t : String) (e : JwtErr)
      → bearer_token c.authorization ≡ some t
      → validate_access_token jwt p now t ≡ err e
      → optional_auth jwt p now c ≡ next c
  unfolding optional_auth
  optional_err now c t e bearer v = elim (Bool-cases (is_empty c.authorization)) [
    | inl nothing ↦ optional_without now c nothing
    | inr given ↦ rw (given, bearer, v) refl
  ]

  kept :
      (c : Context) (claims claims' : UserClaims)
      → (set_current_claims claims c).claims ≡ some claims'
      → claims ≡ claims'
  unfolding set_current_claims
  kept c claims claims' e = ground arith

  -- OptionalAuth never stops a request, and gives it claims only if it has a valid bearer token.
  pub optional_passes :
      (now : ℕ) (c : Context)
      → (c' : Context) × (optional_auth jwt p now c ≡ next c')
        × ((claims : UserClaims)
            → c.claims ≡ none
            → c'.claims ≡ some claims
            → (t : String) × (bearer_token c.authorization ≡ some t)
              × (validate_access_token jwt p now t ≡ ok claims))
  optional_passes now c = elim (Bool-cases (is_empty c.authorization)) [
    | inl nothing ↦ (c, optional_without now c nothing, λ claims fresh got. cc)
    | inr given ↦ elim (Option-cases (bearer_token c.authorization)) [
      | inl other ↦ (c, optional_none now c other, λ claims fresh got. cc)
      | inr (t, bearer) ↦ elim (Result-cases (validate_access_token jwt p now t)) [
        | inl (claims', v) ↦ (
          set_current_claims claims' c,
          optional_ok now c t claims' given bearer v,
          λ claims fresh got. (t, bearer, v ∙ ap ok (kept c claims' claims got)),
        )
        | inr (e, v) ↦ (c, optional_err now c t e bearer v, λ claims fresh got. cc)
      ]
    ]
  ]
