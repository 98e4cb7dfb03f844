-- ===== src/Domain/UserService/Profile.antt =====
-- What the user service changes in the table of users, on a database that answers.
use arcana_cloud_go.Base.{
  ℕ, List, [], ◌∷◌, none, arith, ◌≡◌, refl, String, Bool, not, ◌&&◌, some, ◌==◌, str_eq,
  if◌then◌else◌, Bool-cases, inl, inr,
}
use arcana_cloud_go.Action.{ok, err}
use arcana_cloud_go.Jobs.RedisQueue.{is_empty}
use arcana_cloud_go.Domain.Entity.{User}
use arcana_cloud_go.Domain.Repository.{Repositories, Tables, IsDb, any, first, set_user}
use arcana_cloud_go.Domain.AuthService.{user_already_exists, invalid_credentials, to_user_response}
use arcana_cloud_go.Domain.UserService.{
  UpdateProfileRequest, ChangePasswordRequest, profiled, update_profile, change_password,
}
use arcana_cloud_go.Security.{PasswordHasher}

pub first_is :
    (id : ℕ) (user : User) (l : List User) → first (λ v. v.id == id) l ≡ some user → user.id ≡ id
first_is id user [] h = absurd (clash h)
  where
    clash : none ≡ some user → ⊥
    clash e = cc
first_is id user (v ∷ l) h = elim (Bool-cases (v.id == id)) [
  | inl here ↦ ground arith
  | inr away ↦ first_is id user l (ground arith)
]

-- The request asks for an email other than the user's, which somebody has already.
abbrev pub taken_email : UpdateProfileRequest → User → Tables → Bool
taken_email req user d =
    (not (is_empty req.email) && not (str_eq req.email user.email))
    && any (λ u. str_eq u.email req.email) d.users

module _ (r : Repositories) (hasher : PasswordHasher) (tables : r.State → Tables)
    (db : IsDb r tables) where
  -- On a database that answers, and where bcrypt hashes the new password, the password of a known user
  -- changes exactly if the old one matches its hash: then the user's row has the new hash and all else
  -- as before, otherwise the call fails with `ErrInvalidCredentials` and changes nothing.
  pub change_password_checks :
      (id : ℕ) (req : ChangePasswordRequest) (user : User) (hashed : String) (s : r.State)
      → first (λ u. u.id == id) (tables s).users ≡ some user
      → hasher.hash req.new_password ≡ some hashed
      → let out = change_password r hasher id req s in
        let matches = hasher.verify req.old_password user.password in
        (out.0 ≡ (if matches then ok tt else err invalid_credentials))
        × (tables out.1 ≡ (
            if matches
            then record (tables s) {
              users = set_user (record user { password = hashed }) (tables s).users;
            }
            else tables s))
  unfolding change_password
  change_password_checks id req user hashed s known hash =
      elim (Bool-cases (hasher.verify req.old_password user.password)) [
        | inl match ↦ (
          simp (db.get_user_reply, known, match, hash, db.update_user_reply),
          simp (db.get_user_reply, known, match, hash, db.update_user_leaves, db.get_user_leaves),
        )
        | inr wrong ↦ (
          simp (db.get_user_reply, known, wrong),
          simp (db.get_user_reply, known, wrong, db.get_user_leaves),
        )
      ]

  -- On a database that answers, an update of a known user fails with `ErrUserAlreadyExists` and changes
  -- nothing if it asks for another email that is in use; otherwise it sets the user's row to the new
  -- profile, which keeps the id, username, password, role and both flags.
  pub update_profile_checks :
      (id : ℕ) (req : UpdateProfileRequest) (user : User) (s : r.State)
      → first (λ u. u.id == id) (tables s).users ≡ some user
      → let out = update_profile r hasher id req s in
        let new = profiled r hasher req user in
        (out.0 ≡ (
          if taken_email req user (tables s)
          then err user_already_exists
          else ok (to_user_response new)))
        × (tables out.1 ≡ (
            if taken_email req user (tables s)
            then tables s
            else record (tables s) { users = set_user new (tables s).users }))
        × (new ≡ record user {
          first_name = new.first_name;
          last_name = new.last_name;
          email = new.email;
        })
  unfolding update_profile profiled
  update_profile_checks id req user s known =
      elim (Bool-cases (not (is_empty req.email) && not (str_eq req.email user.email))) [
        | inl asks ↦ elim (Bool-cases (any (λ u. str_eq u.email req.email) (tables s).users)) [
          | inl used ↦ (
            simp (
              db.get_user_reply, known, asks, db.exists_by_email_reply, db.get_user_leaves, used,
            ),
            simp (
              db.get_user_reply, known, asks, db.exists_by_email_reply, db.get_user_leaves, used,
              db.exists_by_email_leaves,
            ),
            refl,
          )
          | inr free ↦ (
            simp (
              db.get_user_reply, known, asks, db.exists_by_email_reply, db.get_user_leaves, free,
              db.update_user_reply,
            ),
            simp (
              db.get_user_reply, known, asks, db.exists_by_email_reply, db.get_user_leaves, free,
              db.exists_by_email_leaves, db.update_user_leaves, db.update_user_reply,
            ),
            refl,
          )
        ]
        | inr keeps ↦ (
          simp (db.get_user_reply, known, keeps, db.update_user_reply),
          simp (
            db.get_user_reply, known, keeps, db.get_user_leaves, db.update_user_leaves,
            db.update_user_reply,
          ),
          refl,
        )
      ]
