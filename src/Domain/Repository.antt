-- ===== src/Domain/Repository.antt =====
-- internal/domain/repository: the repositories of users and refresh tokens, as the services use them.
-- Behind them stand the DAOs of internal/domain/dao, over GORM or the MongoDB driver and a database, so
-- they are a record of commands; `IsDb` states the effect of the queries that those send.
use arcana_cloud_go.Base.{
  ℕ, ◌≡◌, String, Bool, true, false, not, ◌&&◌, ◌||◌, Option, none, some, List, [], ◌∷◌, ◌++◌, ◌==◌,
  str_eq, map, if◌then◌else◌,
}
use arcana_cloud_go.Action.{Command}
use arcana_cloud_go.Domain.Entity.{User, RefreshToken}

pub record Repositories : Type 1 where
  pub State : Type 0
  pub exists_by_username : String → Command State Bool
  pub exists_by_email : String → Command State Bool
  pub create_user : User → Command State User  -- with the id that it was given
  pub update_user : User → Command State (Unit {0})
  pub delete_user : ℕ → Command State (Unit {0})
  pub list_users : ℕ → ℕ → Command State (List User × ℕ)  -- a page, and how many users there are
  pub get_user : ℕ → Command State (Option User)
  pub get_by_username : String → Command State (Option User)
  pub get_by_email : String → Command State (Option User)
  pub get_by_username_or_email : String → Command State (Option User)
  pub create_token : RefreshToken → Command State (Unit {0})
  pub get_token : String → Command State (Option RefreshToken)
  pub revoke_token : String → Command State (Unit {0})
  pub revoke_all : ℕ → Command State (Unit {0})

pub record Tables : Type 0 where
  pub users : List User
  pub tokens : List RefreshToken

abbrev pub any : {A : Type 0} → (A → Bool) → List A → Bool
any test [] = false
any test (a ∷ l) = test a || any test l

abbrev pub first : {A : Type 0} → (A → Bool) → List A → Option A
first test [] = none
first test (a ∷ l) = if test a then some a else first test l

-- WHERE token = ? AND revoked = false
abbrev pub usable : String → RefreshToken → Bool
usable t rt = str_eq rt.token t && not rt.revoked

abbrev pub revoke_if : (RefreshToken → Bool) → List RefreshToken → List RefreshToken
revoke_if test [] = []
revoke_if test (rt ∷ l) = (if test rt then record rt { revoked = true } else rt) ∷ revoke_if test l

abbrev pub set_user : User → List User → List User
set_user u l = map (λ v. if v.id == u.id then u else v) l

module _ (r : Repositories) (tables : r.State → Tables) where
  abbrev pub Replies : {A : Type 0} → Command r.State A → (Tables → A) → Type 0
  Replies c reply = (s : r.State) → (c s).0 ≡ some (reply (tables s))

  abbrev pub Leaves : {A : Type 0} → Command r.State A → (Tables → Tables) → Type 0
  Leaves c effect = (s : r.State) → tables (c s).1 ≡ effect (tables s)

  -- The database answers. Tokens are unique, so a token that is there is not created again.
  pub record IsDb : Type 0 where
    pub exists_by_username_reply :
        (n : String)
        → Replies (r.exists_by_username n) (λ d. any (λ u. str_eq u.username n) d.users)
    pub exists_by_username_leaves : (n : String) → Leaves (r.exists_by_username n) (λ d. d)
    pub exists_by_email_reply :
        (e : String) → Replies (r.exists_by_email e) (λ d. any (λ u. str_eq u.email e) d.users)
    pub exists_by_email_leaves : (e : String) → Leaves (r.exists_by_email e) (λ d. d)
    pub update_user_reply : (u : User) → Replies (r.update_user u) (λ d. tt)
    pub update_user_leaves :
        (u : User) → Leaves (r.update_user u) (λ d. record d { users = set_user u d.users })
    pub get_user_reply : (id : ℕ) → Replies (r.get_user id) (λ d. first (λ u. u.id == id) d.users)
    pub get_user_leaves : (id : ℕ) → Leaves (r.get_user id) (λ d. d)
    pub get_by_username_reply :
        (n : String) → Replies (r.get_by_username n) (λ d. first (λ u. str_eq u.username n) d.users)
    pub get_by_username_leaves : (n : String) → Leaves (r.get_by_username n) (λ d. d)
    pub get_by_email_reply :
        (e : String) → Replies (r.get_by_email e) (λ d. first (λ u. str_eq u.email e) d.users)
    pub get_by_email_leaves : (e : String) → Leaves (r.get_by_email e) (λ d. d)
    pub get_by_username_or_email_reply :
        (n : String)
        → Replies
            (r.get_by_username_or_email n)
            (λ d. first (λ u. str_eq u.username n || str_eq u.email n) d.users)
    pub get_by_username_or_email_leaves :
        (n : String) → Leaves (r.get_by_username_or_email n) (λ d. d)
    pub create_token_reply :
        (rt : RefreshToken) (s : r.State)
        → any (λ o. str_eq o.token rt.token) (tables s).tokens ≡ false
        → (r.create_token rt s).0 ≡ some tt
    pub create_token_leaves :
        (rt : RefreshToken) (s : r.State)
        → any (λ o. str_eq o.token rt.token) (tables s).tokens ≡ false
        → tables (r.create_token rt s).1
          ≡ record (tables s) { tokens = (tables s).tokens ++ rt ∷ [] }
    pub get_token_reply : (t : String) → Replies (r.get_token t) (λ d. first (usable t) d.tokens)
    pub get_token_leaves : (t : String) → Leaves (r.get_token t) (λ d. d)
    pub revoke_token_reply : (t : String) → Replies (r.revoke_token t) (λ d. tt)
    pub revoke_token_leaves :
        (t : String)
        → Leaves
            (r.revoke_token t)
            (λ d. record d { tokens = revoke_if (λ rt. str_eq rt.token t) d.tokens })
    pub revoke_all_reply : (id : ℕ) → Replies (r.revoke_all id) (λ d. tt)
    pub revoke_all_leaves :
        (id : ℕ)
        → Leaves
            (r.revoke_all id)
            (λ d. record d { tokens = revoke_if (λ rt. rt.user_id == id) d.tokens })
