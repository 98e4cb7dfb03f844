-- ===== src/Domain/Mongo/Reads.antt =====
-- The repositories over MongoDB answer as the tables of users and tokens that are not deleted.
use arcana_cloud_go.Base.{
  ℕ, suc, ◌≡◌, refl, String, Bool, true, not, ◌&&◌, ◌||◌, Option, none, some, List, [], ◌∷◌,
  option_map, ◌==◌, str_eq, ltb, if◌then◌else◌, Bool-cases, inl, inr, arith,
}
use arcana_cloud_go.Domain.Entity.{User}
use arcana_cloud_go.Domain.Repository.{Tables, any, first, usable, Replies}
use arcana_cloud_go.Domain.Mongo.{
  Mongo, IsCollection, UserDocument, RefreshTokenDocument, user_to_entity, token_to_entity,
  with_not_deleted, exists_by, count_of,
}
use arcana_cloud_go.Domain.Mongo.Users.{
  find_user, find_by_id, find_by_username, find_by_email, find_by_username_or_email,
  exists_by_username, exists_by_email,
}
use arcana_cloud_go.Domain.Mongo.RefreshTokens.{with_user, find_by_token}
use arcana_cloud_go.Domain.Mongo.Delegation.{mongo_repositories}

-- The entities of the documents that are not deleted.
abbrev pub live : {D A : Type 0} → (D → Bool) → (D → A) → List D → List A
live deleted f [] = []
live deleted f (d ∷ l) = let rest = live deleted f l in if deleted d then rest else f d ∷ rest

first-live :
    {D A : Type 0} (deleted : D → Bool) (f : D → A) (test : D → Bool) (wanted : A → Bool)
    (l : List D)
    → ((d : D) → wanted (f d) ≡ test d)
    → first wanted (live deleted f l) ≡ option_map f (first (λ d. test d && not (deleted d)) l)
first-live deleted f test wanted [] same = refl
first-live deleted f test wanted (d ∷ l) same =
    let ih = first-live deleted f test wanted l same in
    elim (Bool-cases (deleted d)) [
      | inl gone ↦ elim (Bool-cases (test d)) [
        | inl fits ↦ simp (gone, fits, ih)
        | inr not_it ↦ simp (gone, not_it, ih)
      ]
      | inr stays ↦ elim (Bool-cases (test d)) [
        | inl fits ↦ simp (stays, same d, fits)
        | inr not_it ↦ simp (stays, same d, not_it, ih)
      ]
    ]

positive : (n : ℕ) → true ≡ ltb 0 (suc n)
positive n = ground arith

any-live :
    {D A : Type 0} (deleted : D → Bool) (f : D → A) (test : D → Bool) (wanted : A → Bool)
    (l : List D)
    → ((d : D) → wanted (f d) ≡ test d)
    → any wanted (live deleted f l) ≡ ltb 0 (count_of (λ d. test d && not (deleted d)) l)
any-live deleted f test wanted [] same = refl
any-live deleted f test wanted (d ∷ l) same =
    let ih = any-live deleted f test wanted l same in
    elim (Bool-cases (deleted d)) [
      | inl gone ↦ elim (Bool-cases (test d)) [
        | inl fits ↦ simp (gone, fits, ih)
        | inr not_it ↦ simp (gone, not_it, ih)
      ]
      | inr stays ↦ elim (Bool-cases (test d)) [
        | inl fits ↦
            simp (stays, same d, fits) (positive (count_of (λ e. test e && not (deleted e)) l))
        | inr not_it ↦ simp (stays, same d, not_it, ih)
      ]
    ]

-- The tables that a database of documents stands for.
abbrev pub tables_of : List UserDocument × List RefreshTokenDocument → Tables
tables_of (users, tokens) = record {
  users = live (λ d. d.deleted) user_to_entity users;
  tokens = live (λ d. d.deleted) token_to_entity tokens;
}

module _ (m : Mongo) (users : m.State → List UserDocument)
    (tokens : m.State → List RefreshTokenDocument) (users_law : IsCollection m.users users)
    (tokens_law : IsCollection m.refresh_tokens tokens) where
  abbrev pub tables : m.State → Tables
  tables s = tables_of (users s, tokens s)

  find_user_lem :
      (test : UserDocument → Bool) (wanted : User → Bool)
      → ((d : UserDocument) → wanted (user_to_entity d) ≡ test d)
      → Replies (mongo_repositories m) tables (find_user m test) (λ d. first wanted d.users)
  unfolding find_user with_not_deleted
  find_user_lem test wanted same s =
      rw
        (
          users_law.find_one_reply (with_not_deleted m.users (λ d. d.deleted) test) s,
          first-live (λ d. d.deleted) user_to_entity test wanted (users s) same,
        )
        refl

  exists_by_lem :
      (test : UserDocument → Bool) (wanted : User → Bool)
      → ((d : UserDocument) → wanted (user_to_entity d) ≡ test d)
      → Replies
          (mongo_repositories m)
          tables
          (exists_by m.users (λ d. d.deleted) test)
          (λ d. any wanted d.users)
  unfolding exists_by with_not_deleted
  exists_by_lem test wanted same s =
      rw
        (
          users_law.count_documents_reply (with_not_deleted m.users (λ d. d.deleted) test) s,
          any-live (λ d. d.deleted) user_to_entity test wanted (users s) same,
        )
        refl

  with_user_lem :
      (o : Option RefreshTokenDocument) (s : m.State)
      → (with_user m o s).0 ≡ some (option_map token_to_entity o)
  unfolding with_user
  with_user_lem none s = refl
  with_user_lem (some d) s = refl

  find_by_token_lem :
      (t : String)
      → Replies (mongo_repositories m) tables (find_by_token m t) (λ d. first (usable t) d.tokens)
  unfolding find_by_token with_not_deleted token_to_entity
  find_by_token_lem t s =
      let test : RefreshTokenDocument → Bool = λ d. str_eq d.token t && not d.revoked in
      let live_one =
        first-live (λ d. d.deleted) token_to_entity test (usable t) (tokens s) (λ d. refl) in
      rw (tokens_law.find_one_reply (λ d. test d && not d.deleted) s, live_one)
        (with_user_lem (first (λ d. test d && not d.deleted) (tokens s))
          (m.refresh_tokens.find_one (λ d. test d && not d.deleted) s).1)

  -- On collections that do what MongoDB documents, the lookups of the repositories over it give what the
  -- tables of the entities that are not deleted hold: users by id, name, email and either, whether a name
  -- or an email is in use, and the token that is not revoked.
  pub mongo_reads :
      (id : ℕ) (n : String)
      → let r = mongo_repositories m in
        Replies r tables (r.get_user id) (λ d. first (λ u. u.id == id) d.users)
        × Replies r tables (r.get_by_username n) (λ d. first (λ u. str_eq u.username n) d.users)
        × Replies r tables (r.get_by_email n) (λ d. first (λ u. str_eq u.email n) d.users)
        × Replies r tables
            (r.get_by_username_or_email n)
            (λ d. first (λ u. str_eq u.username n || str_eq u.email n) d.users)
        × Replies r tables (r.exists_by_username n) (λ d. any (λ u. str_eq u.username n) d.users)
        × Replies r tables (r.exists_by_email n) (λ d. any (λ u. str_eq u.email n) d.users)
        × Replies r tables (r.get_token n) (λ d. first (usable n) d.tokens)
  unfolding find_by_id find_by_username find_by_email find_by_username_or_email exists_by_username
      exists_by_email user_to_entity token_to_entity
  mongo_reads id n = (
    find_user_lem (λ d. d.numeric_id == id) (λ u. u.id == id) (λ d. refl),
    find_user_lem (λ d. str_eq d.username n) (λ u. str_eq u.username n) (λ d. refl),
    find_user_lem (λ d. str_eq d.email n) (λ u. str_eq u.email n) (λ d. refl),
    find_user_lem (λ d. str_eq d.username n || str_eq d.email n)
        (λ u. str_eq u.username n || str_eq u.email n) (λ d. refl),
    exists_by_lem (λ d. str_eq d.username n) (λ u. str_eq u.username n) (λ d. refl),
    exists_by_lem (λ d. str_eq d.email n) (λ u. str_eq u.email n) (λ d. refl),
    find_by_token_lem n,
  )
