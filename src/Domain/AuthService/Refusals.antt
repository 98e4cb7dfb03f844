-- ===== src/Domain/AuthService/Refusals.antt =====
-- Whom the authentication service refuses.
use arcana_cloud_go.Base.{
  ℕ, ◌≡◌, refl, sym, String, Bool, true, not, ◌||◌, none, some, List, [], ◌∷◌, ◌==◌, str_eq,
  Bool-cases, All, inl, inr, arith,
}
use arcana_cloud_go.Action.{ok, err}
use arcana_cloud_go.Domain.Entity.{User, RefreshToken}
use arcana_cloud_go.Domain.Repository.{Repositories, Tables, IsDb, any, first, usable, revoke_if}
use arcana_cloud_go.Domain.AuthService.{
  invalid_token, user_already_exists, RegisterRequest, LoginRequest, AuthResponse, to_user_response,
  generate_auth_response, register, login, refresh_token, logout, logout_all,
}
use arcana_cloud_go.Domain.AuthService.Rotation.{of_text, refresh_spent}
use arcana_cloud_go.Security.{Jwt, JwtProvider, PasswordHasher}

-- Rows of `t` that are all revoked leave none that is usable.
revoked_rows :
    (t : String) (p : RefreshToken → Bool) (l : List RefreshToken)
    → All (λ rt. (not (str_eq rt.token t) || p rt) ≡ true) l
    → first (usable t) (revoke_if p l) ≡ none
revoked_rows t p [] h = refl
revoked_rows t p (rt ∷ l) (h, rest) = elim (Bool-cases (str_eq rt.token t)) [
  | inl same ↦
      let there : p rt ≡ true = ground arith in rw (there, same, revoked_rows t p l rest) refl
  | inr other ↦ elim (Bool-cases (p rt)) [
    | inl there ↦ rw (there, other, revoked_rows t p l rest) refl
    | inr gone ↦ rw (gone, other, revoked_rows t p l rest) refl
  ]
]

module _ (r : Repositories) (jwt : Jwt) (provider : JwtProvider) (hasher : PasswordHasher) where
  response_of :
      (now : ℕ) (uuid : String) (user : User) (s : r.State) (resp : AuthResponse)
      → (generate_auth_response r jwt provider hasher now uuid user s).0 ≡ ok resp
      → resp.user ≡ to_user_response user
  unfolding generate_auth_response
  response_of now uuid user s resp e = ground arith

  -- Whatever the repositories answer, a login brings tokens only if the lookup gave a user who is active
  -- and whose stored hash the password matches, and the answer describes that user.
  pub login_only_verified :
      (now : ℕ) (uuid : String) (req : LoginRequest) (s : r.State) (resp : AuthResponse)
      → (login r jwt provider hasher now uuid req s).0 ≡ ok resp
      → (user : User) × ((r.get_by_username_or_email req.username_or_email s).0 ≡ some (some user))
        × (user.is_active ≡ true)
        × (hasher.verify req.password user.password ≡ true)
        × (resp.user ≡ to_user_response user)
  unfolding login
  login_only_verified now uuid req s resp e = ground (arith, response_of now uuid)

module _ (r : Repositories) (jwt : Jwt) (provider : JwtProvider) (hasher : PasswordHasher)
    (tables : r.State → Tables) (db : IsDb r tables) where
  -- On a database that answers, a registration whose username or email a user has already is refused and
  -- changes nothing.
  pub register_refuses :
      (now : ℕ) (uuid : String) (req : RegisterRequest) (s : r.State)
      → (any (λ u. str_eq u.username req.username) (tables s).users
          || any (λ u. str_eq u.email req.email) (tables s).users)
        ≡ true
      → let out = register r jwt provider hasher now uuid req s in
        (out.0 ≡ err user_already_exists) × (tables out.1 ≡ tables s)
  unfolding register
  register_refuses now uuid req s taken =
      elim (Bool-cases (any (λ u. str_eq u.username req.username) (tables s).users)) [
        | inl name ↦ (
          simp (db.exists_by_username_reply, name),
          simp (db.exists_by_username_reply, name, db.exists_by_username_leaves),
        )
        | inr free ↦
            let used : any (λ u. str_eq u.email req.email) (tables s).users ≡ true =
              rw (sym taken, free) refl in
            (
              simp (
                db.exists_by_username_reply, free, db.exists_by_username_leaves,
                db.exists_by_email_reply, used,
              ),
              simp (
                db.exists_by_username_reply, free, db.exists_by_username_leaves,
                db.exists_by_email_reply, used, db.exists_by_email_leaves,
              ),
            )
      ]

  -- On a database that answers, a refresh token is refused at every time after its logout.
  pub logout-refresh_token :
      (now : ℕ) (uuid t : String) (s : r.State)
      → let left = logout r jwt provider hasher t s in
        let out = refresh_token r jwt provider hasher now uuid t left.1 in
        (left.0 ≡ ok tt) × (out.0 ≡ err invalid_token) × (tables out.1 ≡ tables left.1)
  unfolding logout
  logout-refresh_token now uuid t s =
      let gone = revoked_rows t (of_text t) (tables s).tokens (every (tables s).tokens) in
      let (e, c) =
        refresh_spent r jwt provider hasher tables db now uuid t (r.revoke_token t s).1
          (rw (db.revoke_token_leaves t s) gone) in
      (rw (db.revoke_token_reply t s) refl, e, c)
    where
      every :
          (l : List RefreshToken) → All (λ rt. (not (str_eq rt.token t) || of_text t rt) ≡ true) l
      every [] = tt
      every (rt ∷ l) = (ground arith, every l)

  -- On a database that answers, a refresh token whose rows all belong to a user is refused at every time
  -- after that user's logout from all devices.
  pub logout_all-refresh_token :
      (now id : ℕ) (uuid t : String) (s : r.State)
      → All (λ rt. (not (str_eq rt.token t) || (rt.user_id == id)) ≡ true) (tables s).tokens
      → let left = logout_all r jwt provider hasher id s in
        let out = refresh_token r jwt provider hasher now uuid t left.1 in
        (left.0 ≡ ok tt) × (out.0 ≡ err invalid_token) × (tables out.1 ≡ tables left.1)
  unfolding logout_all
  logout_all-refresh_token now id uuid t s owned =
      let gone = revoked_rows t (λ rt. rt.user_id == id) (tables s).tokens owned in
      let (e, c) =
        refresh_spent r jwt provider hasher tables db now uuid t (r.revoke_all id s).1
          (rw (db.revoke_all_leaves id s) gone) in
      (rw (db.revoke_all_reply id s) refl, e, c)
