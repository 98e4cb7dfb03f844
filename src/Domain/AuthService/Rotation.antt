-- ===== src/Domain/AuthService/Rotation.antt =====
-- Refresh tokens are spent once, on a database that answers.
use arcana_cloud_go.Base.{
  ℕ, ◌≡◌, refl, ◌∙◌, String, Bool, true, false, none, some, List, [], ◌∷◌, ◌++◌, ◌==◌, str_eq,
  str_eq_iff, Bool-cases, inl, inr, arith,
}
use arcana_cloud_go.Action.{ok, err, Result-cases}
use arcana_cloud_go.Domain.Entity.{User, RefreshToken, is_valid}
use arcana_cloud_go.Domain.Repository.{Repositories, Tables, IsDb, any, first, usable, revoke_if}
use arcana_cloud_go.Domain.AuthService.{
  invalid_token, auth_response, new_token, generate_auth_response, refresh_token,
}
use arcana_cloud_go.Security.{
  Jwt, JwtProvider, PasswordHasher, RegisteredClaims, generate_access_token, generate_refresh_token,
  validate_refresh_token,
}

abbrev pub of_text : String → RefreshToken → Bool
of_text t rt = str_eq rt.token t

any-revoke_if :
    (t : String) (p : RefreshToken → Bool) (l : List RefreshToken)
    → any (of_text t) (revoke_if p l) ≡ any (of_text t) l
any-revoke_if t p [] = refl
any-revoke_if t p (rt ∷ l) = elim (Bool-cases (p rt)) [
  | inl same ↦ rw (same, any-revoke_if t p l) refl
  | inr other ↦ rw (other, any-revoke_if t p l) refl
]

-- A text that no row of the table has differs from one that a usable row has.
other_text :
    (t t' : String) (rt : RefreshToken) (l : List RefreshToken)
    → first (usable t) l ≡ some rt
    → any (of_text t') l ≡ false
    → str_eq t' t ≡ false
other_text t t' rt [] e h = cc
other_text t t' rt (o ∷ l) e h = elim (Bool-cases (str_eq o.token t)) [
  | inl same ↦ ground (arith, str_eq_iff o.token t, str_eq_iff o.token t', str_eq_iff t' t)
  | inr different ↦ other_text t t' rt l (rest different ∙ e) (ground arith)
]
  where
    rest : str_eq o.token t ≡ false → first (usable t) l ≡ first (usable t) (o ∷ l)
    rest different = rw different refl

pub spent_row :
    (t : String) (l : List RefreshToken) (rt : RefreshToken)
    → str_eq rt.token t ≡ false
    → first (usable t) (revoke_if (of_text t) l ++ rt ∷ []) ≡ none
spent_row t [] rt h = rw h refl
spent_row t (o ∷ l) rt h = elim (Bool-cases (str_eq o.token t)) [
  | inl same ↦ rw (same, same, spent_row t l rt h) refl
  | inr other ↦ rw (other, other, spent_row t l rt h) refl
]

module _ (r : Repositories) (jwt : Jwt) (provider : JwtProvider) (hasher : PasswordHasher)
    (tables : r.State → Tables) (db : IsDb r tables) where
  -- The tables once the row of `t` is spent for a row of `t'`.
  abbrev pub rotated : ℕ → String → String → User → Tables → Tables
  rotated now t t' user d = record d {
    tokens = revoke_if (of_text t) d.tokens ++ new_token r jwt provider hasher now t' user ∷ [];
  }

  pub generate_up :
      (now : ℕ) (uuid access t' : String) (user : User) (s : r.State)
      → generate_access_token jwt provider now user ≡ some access
      → generate_refresh_token jwt provider now uuid user ≡ some t'
      → any (of_text t') (tables s).tokens ≡ false
      → let out = generate_auth_response r jwt provider hasher now uuid user s in
        (out.0 ≡ ok (auth_response r jwt provider hasher access t' user))
        × (tables out.1 ≡ record (tables s) {
          tokens = (tables s).tokens ++ new_token r jwt provider hasher now t' user ∷ [];
        })
  unfolding generate_auth_response new_token
  generate_up now uuid access t' user s signed signed' fresh = (
    simp (signed, signed', db.create_token_reply, fresh),
    simp (signed, signed', db.create_token_reply, db.create_token_leaves, fresh),
  )

  refresh_up :
      (now : ℕ) (uuid t access t' : String) (claims : RegisteredClaims) (rt : RefreshToken)
      (user : User) (s : r.State)
      → validate_refresh_token jwt provider now t ≡ ok claims
      → first (usable t) (tables s).tokens ≡ some rt
      → is_valid now rt ≡ true
      → first (λ u. u.id == rt.user_id) (tables s).users ≡ some user
      → user.is_active ≡ true
      → generate_access_token jwt provider now user ≡ some access
      → generate_refresh_token jwt provider now uuid user ≡ some t'
      → any (of_text t') (tables s).tokens ≡ false
      → let out = refresh_token r jwt provider hasher now uuid t s in
        (out.0 ≡ ok (auth_response r jwt provider hasher access t' user))
        × (tables out.1 ≡ rotated now t t' user (tables s))
  unfolding refresh_token
  refresh_up now uuid t access t' claims rt user s v found valid known active a b fresh =
      let s1 = (r.get_token t s).1 in
      let s2 = (r.revoke_token t s1).1 in
      let s3 = (r.get_user rt.user_id s2).1 in
      let at_s3 : tables s3
          ≡ record (tables s) { tokens = revoke_if (of_text t) (tables s).tokens } =
        rw (db.get_user_leaves rt.user_id s2, db.revoke_token_leaves t s1, db.get_token_leaves t s)
          refl in
      let (e, c) =
        generate_up now uuid access t' user s3 a b
          (rw at_s3 (any-revoke_if t' (of_text t) (tables s).tokens ∙ fresh)) in
      let same : refresh_token r jwt provider hasher now uuid t s
          ≡ generate_auth_response r jwt provider hasher now uuid user s3 =
        simp (
          v, db.get_token_reply, found, valid, db.revoke_token_reply, db.get_user_reply,
          db.revoke_token_leaves, db.get_token_leaves, known, active,
        ) in
      (rw same e, rw (same, c, at_s3) refl)

  -- Whatever its JWT says, a text without a usable row is refused.
  pub refresh_spent :
      (now : ℕ) (uuid t : String) (s : r.State)
      → first (usable t) (tables s).tokens ≡ none
      → let out = refresh_token r jwt provider hasher now uuid t s in
        (out.0 ≡ err invalid_token) × (tables out.1 ≡ tables s)
  unfolding refresh_token
  refresh_spent now uuid t s none_there =
      elim (Result-cases (validate_refresh_token jwt provider now t)) [
        | inl (claims, v) ↦ (
          simp (v, db.get_token_reply, none_there),
          simp (v, db.get_token_reply, none_there, db.get_token_leaves),
        )
        | inr (e, v) ↦ (simp v, simp v)
      ]

  -- On a database that answers, a refresh token that has a usable, unexpired row, whose owner is known
  -- and active, brings new tokens, provided the new refresh token's text is in no row; its row is revoked
  -- and one for the new text added. After that the same text is refused at every time and changes
  -- nothing.
  pub refresh_once :
      (now later : ℕ) (uuid uuid' t access t' : String) (claims : RegisteredClaims)
      (rt : RefreshToken) (user : User) (s : r.State)
      → validate_refresh_token jwt provider now t ≡ ok claims
      → first (usable t) (tables s).tokens ≡ some rt
      → is_valid now rt ≡ true
      → first (λ u. u.id == rt.user_id) (tables s).users ≡ some user
      → user.is_active ≡ true
      → generate_access_token jwt provider now user ≡ some access
      → generate_refresh_token jwt provider now uuid user ≡ some t'
      → any (of_text t') (tables s).tokens ≡ false
      → let one = refresh_token r jwt provider hasher now uuid t s in
        let two = refresh_token r jwt provider hasher later uuid' t one.1 in
        (one.0 ≡ ok (auth_response r jwt provider hasher access t' user))
        × (tables one.1 ≡ rotated now t t' user (tables s))
        × (two.0 ≡ err invalid_token)
        × (tables two.1 ≡ tables one.1)
  unfolding new_token
  refresh_once now later uuid uuid' t access t' claims rt user s v found valid known active a b
        fresh =
      let (e, c) =
        refresh_up now uuid t access t' claims rt user s v found valid known active a b fresh in
      let gone =
        spent_row t (tables s).tokens (new_token r jwt provider hasher now t' user)
          (other_text t t' rt (tables s).tokens found fresh) in
      let one = (refresh_token r jwt provider hasher now uuid t s).1 in
      let (e', c') = refresh_spent later uuid' t one (rw c gone) in (e, c, e', c')
