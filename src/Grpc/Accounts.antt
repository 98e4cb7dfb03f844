-- ===== src/Grpc/Accounts.antt =====
-- The services of the service layer over the repository of Layered, on a database that answers.
use arcana_cloud_go.Base.{
  ℕ, ◌≡◌, String, false, not, ◌&&◌, none, sym, subst, arith, some, ◌==◌, str_eq, ◌⊎◌, inl, inr,
  Option-cases, Bool-cases,
}
use arcana_cloud_go.Action.{ok, err}
use arcana_cloud_go.Jobs.RedisQueue.{is_empty}
use arcana_cloud_go.Domain.Entity.{User}
use arcana_cloud_go.Domain.Repository.{Repositories, Tables, IsDb, any, first, set_user}
use arcana_cloud_go.Domain.AuthService.{
  LoginRequest, invalid_credentials, user_inactive, unavailable, login, login_as, to_user_response,
}
use arcana_cloud_go.Domain.UserService.{
  UpdateProfileRequest, renamed, found, free_email, user_by_id, profiled, update_profile,
}
use arcana_cloud_go.Domain.UserService.Profile.{taken_email, first_is}
use arcana_cloud_go.Security.{Jwt, JwtProvider, PasswordHasher}
use arcana_cloud_go.Grpc.RepositoryServer.{
  to_proto_user, user_or_not_found, looked_up, user_to_update, get_user,
}
use arcana_cloud_go.Grpc.RepositoryServer as Server
use arcana_cloud_go.Grpc.UserRepository.{get_by_id, update_request, to_entity, replied, user_reply}
use arcana_cloud_go.Grpc.UserRepository as Client
use arcana_cloud_go.Grpc.Layered.{layered, layered-NoHash, stripped}

-- What an update sends: the stored row keeps its name and its role.
abbrev pub overwritten : User → User → User
overwritten u old = record old {
  email = u.email;
  first_name = u.first_name;
  last_name = u.last_name;
  password = u.password;
  is_active = u.is_active;
  is_verified = u.is_verified;
}

module _ (r : Repositories) (tables : r.State → Tables) (db : IsDb r tables) where
  -- On a database that answers, an update through the repository layer of a user whose id is not there
  -- fails and changes nothing; of one who is there it succeeds, and overwrites the email, the names, the
  -- password and the flags of the stored row, which keeps its username and role whatever the caller's
  -- user has.
  pub layered_update :
      (u : User) (s : r.State)
      → let found = first (λ v. v.id == u.id) (tables s).users in
        let out = (layered r).update_user u s in
        ((found ≡ none) × (out.0 ≡ none) × (tables out.1 ≡ tables s))
        ⊎ ((old : User) × (found ≡ some old)
            × (out.0 ≡ some tt)
            × (tables out.1
                ≡ record (tables s) { users = set_user (overwritten u old) (tables s).users }))
  unfolding Client.update update_request replied Server.update_user user_or_not_found user_to_update
  layered_update u s = elim (Option-cases (first (λ v. v.id == u.id) (tables s).users)) [
    | inl missing ↦ inl (
      missing,
      simp (db.get_user_reply, missing),
      simp (db.get_user_reply, missing, db.get_user_leaves),
    )
    | inr (old, found) ↦ inr (
      old,
      found,
      simp (db.get_user_reply, found, db.update_user_reply),
      simp (
        db.get_user_reply, found, db.update_user_reply, db.update_user_leaves, db.get_user_leaves,
      ),
    )
  ]

  -- On a database that answers, a profile that is updated through the repository layer, its email kept
  -- or not in use, is stored with an empty password: the hash that the row had is lost.
  pub profile_update_wipes :
      (hasher : PasswordHasher) (id : ℕ) (req : UpdateProfileRequest) (user : User) (s : r.State)
      → first (λ v. v.id == id) (tables s).users ≡ some user
      → taken_email req user (tables s) ≡ false
      → let out = update_profile (layered r) hasher id req s in
        let new = profiled (layered r) hasher req user in
        (out.0 ≡ ok (to_user_response new))
        × (tables out.1 ≡ record (tables s) {
          users = set_user (record new { password = "" }) (tables s).users;
        })
  unfolding update_profile profiled renamed user_by_id found free_email get_by_id get_user
      Client.update update_request replied Server.update_user user_or_not_found user_to_update
      user_reply to_proto_user to_entity Client.exists_by_email Server.exists_by_email
      to_user_response looked_up
  profile_update_wipes hasher id req user s known free =
      let again : first (λ v. v.id == user.id) (tables s).users ≡ some user =
        subst (λ n. first (λ v. v.id == n) (tables s).users ≡ some user)
          (sym (first_is id user (tables s).users known)) known in
      elim (Bool-cases (not (is_empty req.email) && not (str_eq req.email user.email))) [
        | inl asks ↦
            let unused : any (λ u. str_eq u.email req.email) (tables s).users ≡ false =
              ground arith in
            (
              simp (
                db.get_user_reply, known, again, asks, unused, db.exists_by_email_reply,
                db.get_user_leaves, db.exists_by_email_leaves, db.update_user_reply,
              ),
              simp (
                db.get_user_reply, known, again, asks, unused, db.exists_by_email_reply,
                db.get_user_leaves, db.exists_by_email_leaves, db.update_user_reply,
                db.update_user_leaves,
              ),
            )
        | inr keeps ↦ (
          simp (db.get_user_reply, known, again, keeps, db.get_user_leaves, db.update_user_reply),
          simp (
            db.get_user_reply, known, again, keeps, db.get_user_leaves, db.update_user_reply,
            db.update_user_leaves,
          ),
        )
      ]

module _ (r : Repositories) (jwt : Jwt) (provider : JwtProvider) (hasher : PasswordHasher) where
  -- With a hasher that matches no text with an empty hash, no login over the repository layer succeeds,
  -- whatever the database holds and the request gives: it fails with `ErrInvalidCredentials`, with
  -- `ErrUserInactive` or with an error of the repository.
  pub login_refused :
      (now : ℕ) (uuid : String) (req : LoginRequest) (s : r.State)
      → ((text : String) → hasher.verify text "" ≡ false)
      → let reply = (login (layered r) jwt provider hasher now uuid req s).0 in
        (reply ≡ err invalid_credentials)
        ⊎ ((reply ≡ err user_inactive) ⊎ (reply ≡ err unavailable))
  unfolding login login_as stripped
  login_refused now uuid req s empty = elim (layered-NoHash r req.username_or_email s) [
    | inl fails ↦ inr (inr (simp fails))
    | inr (inl missing) ↦ inl (simp missing)
    | inr (inr (u, found)) ↦ elim (Bool-cases u.is_active) [
      | inl active ↦ inl (simp (found, active, empty))
      | inr inactive ↦ inr (inl (simp (found, inactive)))
    ]
  ]
