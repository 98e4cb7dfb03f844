-- ===== src/Http/UserController/Rows.antt =====
-- Whose row a user may change.
use arcana_cloud_go.Base.{
  ℕ, ◌≡◌, refl, sym, ap, ◌∙◌, subst, false, Option, none, some, List, [], ◌∷◌, ◌==◌, if◌then◌else◌,
  Bool-cases, Option-cases, inl, inr, arith,
}
use arcana_cloud_go.Domain.Entity.{User}
use arcana_cloud_go.Domain.Repository.{Repositories, Tables, IsDb, first, set_user}
use arcana_cloud_go.Domain.UserService.{
  UpdateProfileRequest, ChangePasswordRequest, profiled, renamed, user_by_id, found,
}
use arcana_cloud_go.Domain.UserService as Users
use arcana_cloud_go.Domain.UserService.Profile.{first_is, taken_email, update_profile_checks}
use arcana_cloud_go.Security.{PasswordHasher}
use arcana_cloud_go.Middleware.{Context, get_current_user_id}
use arcana_cloud_go.Http.UserController.{
  put_me, put_password, handle, update_current_user, change_password,
}

abbrev pub row : ℕ → Tables → Option User
row k d = first (λ u. u.id == k) d.users

set_user_elsewhere :
    (k : ℕ) (u : User) (l : List User)
    → (u.id == k) ≡ false
    → first (λ v. v.id == k) (set_user u l) ≡ first (λ v. v.id == k) l
set_user_elsewhere k u [] h = refl
set_user_elsewhere k u (v ∷ l) h =
    let ih = set_user_elsewhere k u l h in
    elim (Bool-cases (v.id == u.id)) [
      | inl same ↦ let apart : (v.id == k) ≡ false = ground arith in simp (same, h, apart, ih)
      | inr differs ↦ elim (Bool-cases (v.id == k)) [
        | inl here ↦ simp (differs, here)
        | inr there ↦ simp (differs, there, ih)
      ]
    ]

module _ (r : Repositories) (hasher : PasswordHasher) (tables : r.State → Tables)
    (db : IsDb r tables) where
  -- The state after a write of a row of the id.
  written_elsewhere :
      (k id : ℕ) (user new : User) (d d' : Tables)
      → (id == k) ≡ false
      → row id d ≡ some user
      → new.id ≡ user.id
      → d' ≡ record d { users = set_user new d.users }
      → row k d' ≡ row k d
  written_elsewhere k id user new d d' other known same wrote =
      let own : (new.id == k) ≡ false =
        subst (λ n. (n == k) ≡ false) (sym (same ∙ first_is id user d.users known)) other in
      ap (row k) wrote ∙ set_user_elsewhere k new d.users own

  update_elsewhere :
      (k id : ℕ) (req : UpdateProfileRequest) (s : r.State)
      → (id == k) ≡ false
      → row k (tables (Users.update_profile r hasher id req s).1) ≡ row k (tables s)
  unfolding Users.update_profile user_by_id found
  update_elsewhere k id req s other = elim (Option-cases (row id (tables s))) [
    | inl missing ↦
        let untouched : tables (Users.update_profile r hasher id req s).1 ≡ tables s =
          simp (db.get_user_reply, missing, db.get_user_leaves) in
        ap (row k) untouched
    | inr (user, known) ↦
        let (answer, changed, kept) =
          update_profile_checks r hasher tables db id req user s known in
        elim (Bool-cases (taken_email req user (tables s))) [
          | inl taken ↦ ap (row k) (
              changed
              ∙ ap
                  (λ b. if b then tables s else record (tables s) {
                    users = set_user (profiled r hasher req user) (tables s).users;
                  })
                  taken)
          | inr free ↦
              written_elsewhere k id user (profiled r hasher req user) (tables s)
                (tables (Users.update_profile r hasher id req s).1) other known
                (ap (λ u. u.id) kept)
                (changed
                  ∙ ap
                      (λ b. if b then tables s else record (tables s) {
                        users = set_user (profiled r hasher req user) (tables s).users;
                      })
                      free)
        ]
  ]

  password_elsewhere :
      (k id : ℕ) (req : ChangePasswordRequest) (s : r.State)
      → (id == k) ≡ false
      → row k (tables (Users.change_password r hasher id req s).1) ≡ row k (tables s)
  unfolding Users.change_password user_by_id found
  password_elsewhere k id req s other = elim (Option-cases (row id (tables s))) [
    | inl missing ↦
        let untouched : tables (Users.change_password r hasher id req s).1 ≡ tables s =
          simp (db.get_user_reply, missing, db.get_user_leaves) in
        ap (row k) untouched
    | inr (user, known) ↦ elim (Bool-cases (hasher.verify req.old_password user.password)) [
      | inr wrong ↦
          let untouched : tables (Users.change_password r hasher id req s).1 ≡ tables s =
            simp (db.get_user_reply, known, wrong, db.get_user_leaves) in
          ap (row k) untouched
      | inl match ↦ elim (Option-cases (hasher.hash req.new_password)) [
        | inl unhashed ↦
            let untouched : tables (Users.change_password r hasher id req s).1 ≡ tables s =
              simp (db.get_user_reply, known, match, unhashed, db.get_user_leaves) in
            ap (row k) untouched
        | inr (hashed, hash) ↦
            let new : User = record user { password = hashed } in
            written_elsewhere k id user new (tables s)
              (tables (Users.change_password r hasher id req s).1) other known refl
              (simp
                (db.get_user_reply, known, match, hash, db.update_user_leaves, db.get_user_leaves))
      ]
    ]
  ]

  put_me_elsewhere :
      (k : ℕ) (asked : Option UpdateProfileRequest) (c : Context) (s : r.State)
      → (get_current_user_id c == k) ≡ false
      → row k (tables (update_current_user r hasher c asked s).1) ≡ row k (tables s)
  unfolding update_current_user
  put_me_elsewhere k none c s other = elim (Bool-cases (get_current_user_id c == 0)) [
    | inl nobody ↦ rw nobody refl
    | inr somebody ↦ rw somebody refl
  ]
  put_me_elsewhere k (some req) c s other = elim (Bool-cases (get_current_user_id c == 0)) [
    | inl nobody ↦ rw nobody refl
    | inr somebody ↦ rw somebody (update_elsewhere k (get_current_user_id c) req s other)
  ]

  put_password_elsewhere :
      (k : ℕ) (asked : Option ChangePasswordRequest) (c : Context) (s : r.State)
      → (get_current_user_id c == k) ≡ false
      → row k (tables (change_password r hasher c asked s).1) ≡ row k (tables s)
  unfolding change_password
  put_password_elsewhere k none c s other = elim (Bool-cases (get_current_user_id c == 0)) [
    | inl nobody ↦ rw nobody refl
    | inr somebody ↦ rw somebody refl
  ]
  put_password_elsewhere k (some req) c s other = elim (Bool-cases (get_current_user_id c == 0)) [
    | inl nobody ↦ rw nobody refl
    | inr somebody ↦ rw somebody (password_elsewhere k (get_current_user_id c) req s other)
  ]

  -- On a database that answers, a request to update the profile or to change the password leaves every
  -- row as it was but the one of the user whose claims the context has, whatever the request asks.
  pub own_row_only :
      (k : ℕ) (profile : Option UpdateProfileRequest) (password : Option ChangePasswordRequest)
      (c : Context) (s : r.State)
      → (get_current_user_id c == k) ≡ false
      → (row k (tables (handle r hasher (put_me profile) c s).1) ≡ row k (tables s))
        × (row k (tables (handle r hasher (put_password password) c s).1) ≡ row k (tables s))
  unfolding handle
  own_row_only k profile password c s other =
      (put_me_elsewhere k profile c s other, put_password_elsewhere k password c s other)
