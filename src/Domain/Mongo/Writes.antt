-- ===== src/Domain/Mongo/Writes.antt =====
-- What updates and revocations over MongoDB change in the tables.
use arcana_cloud_go.Base.{
  ℕ, suc, ◌≤◌, ◌≡◌, refl, sym, ap, ◌∙◌, String, Bool, true, List, [], ◌∷◌, ◌==◌, str_eq,
  if◌then◌else◌, Bool-cases, inl, inr, arith,
}
use arcana_cloud_go.Domain.Entity.{User, RefreshToken}
use arcana_cloud_go.Domain.Repository.{Tables, revoke_if}
use arcana_cloud_go.Domain.Mongo.{
  Mongo, IsCollection, UserDocument, RefreshTokenDocument, user_to_document, user_to_entity,
  token_to_entity, set_user_document, omitempty, count_of, update_first, update_all,
}
use arcana_cloud_go.Domain.Mongo.Users.{update}
use arcana_cloud_go.Domain.Mongo.RefreshTokens.{revoke_by_token, revoke_all_by_user_id}
use arcana_cloud_go.Domain.Mongo.Delegation.{mongo_repositories}
use arcana_cloud_go.Domain.Mongo.Reads.{live, tables_of}

abbrev pub set_where : {A : Type 0} → (A → Bool) → (A → A) → List A → List A
set_where wanted h [] = []
set_where wanted h (a ∷ l) = (if wanted a then h a else a) ∷ set_where wanted h l

revoke_if-set_where :
    (wanted : RefreshToken → Bool) (l : List RefreshToken)
    → set_where wanted (λ rt. record rt { revoked = true }) l ≡ revoke_if wanted l
revoke_if-set_where wanted [] = refl
revoke_if-set_where wanted (rt ∷ l) =
    ap (λ rest. (if wanted rt then record rt { revoked = true } else rt) ∷ rest)
      (revoke_if-set_where wanted l)

module _ {D A : Type 0} (deleted : D → Bool) (g : D → A) (test : D → Bool) (wanted : A → Bool)
    (f : D → D) (h : A → A) (same : (d : D) → wanted (g d) ≡ test d)
    (stays : (d : D) → deleted (f d) ≡ deleted d) (fits : (d : D) → g (f d) ≡ h (g d)) where
  live-update_all :
      (l : List D) → live deleted g (update_all test f l) ≡ set_where wanted h (live deleted g l)
  live-update_all [] = refl
  live-update_all (d ∷ l) =
      let ih = live-update_all l in
      elim (Bool-cases (test d)) [
        | inl here ↦ elim (Bool-cases (deleted d)) [
          | inl gone ↦ simp (here, stays d, gone, ih)
          | inr is ↦ simp (here, stays d, is, same d, fits d, ih)
        ]
        | inr other ↦ elim (Bool-cases (deleted d)) [
          | inl gone ↦ simp (other, gone, ih)
          | inr is ↦ simp (other, is, same d, ih)
        ]
      ]

  none_left :
      (l : List D) → count_of test l ≡ 0 → set_where wanted h (live deleted g l) ≡ live deleted g l
  none_left [] e = refl
  none_left (d ∷ l) e = elim (Bool-cases (test d)) [
    | inl here ↦ absurd (clash (count_of test l) (sym (rw here refl) ∙ e))
    | inr other ↦
        let ih = none_left l (sym (rw other refl) ∙ e) in
        elim (Bool-cases (deleted d)) [
          | inl gone ↦ simp (gone, ih)
          | inr is ↦ simp (is, same d, other, ih)
        ]
  ]
    where
      clash : (n : ℕ) → suc n ≡ 0 → ⊥
      clash n h = omega arith

  -- Where at most one document is meant, the first one is all.
  live-update_first :
      (l : List D)
      → count_of test l ≤ 1
      → live deleted g (update_first test f l) ≡ set_where wanted h (live deleted g l)
  live-update_first [] e = refl
  live-update_first (d ∷ l) e = elim (Bool-cases (test d)) [
    | inl here ↦
        let ih = none_left l (ground arith) in
        elim (Bool-cases (deleted d)) [
          | inl gone ↦ simp (here, stays d, gone, ih)
          | inr is ↦ simp (here, stays d, is, same d, fits d, ih)
        ]
    | inr other ↦
        let ih = live-update_first l (ground arith) in
        elim (Bool-cases (deleted d)) [
          | inl gone ↦ simp (other, gone, ih)
          | inr is ↦ simp (other, is, same d, ih)
        ]
  ]

-- A user's row after an update: empty names do not replace those that are there.
unfoldable pub kept_names : User → User → User
unfolding omitempty
kept_names u old = record u {
  first_name = omitempty u.first_name old.first_name;
  last_name = omitempty u.last_name old.last_name;
}

module _ (m : Mongo) (users : m.State → List UserDocument)
    (tokens : m.State → List RefreshTokenDocument) (users_law : IsCollection m.users users)
    (tokens_law : IsCollection m.refresh_tokens tokens) where
  -- On collections that do what MongoDB documents, where at most one document has the text of a token,
  -- its revocation revokes the token of the tables, and where at most one has the id of a user, an update
  -- overwrites that user's row with what it is given, except for names that are empty, which stay as they
  -- were; the revocation of all tokens of a user revokes them all.
  pub mongo_writes :
      (t : String) (user_id : ℕ) (u : User) (s : m.State)
      → count_of (λ d. str_eq d.token t) (tokens s) ≤ 1
      → count_of (λ d. d.numeric_id == u.id) (users s) ≤ 1
      → let r = mongo_repositories m in
        let now : m.State → Tables = λ x. tables_of (users x, tokens x) in
        ((now (r.revoke_token t s).1).tokens ≡ revoke_if (λ rt. str_eq rt.token t) (now s).tokens)
        × ((now (r.revoke_all user_id s).1).tokens
            ≡ revoke_if (λ rt. rt.user_id == user_id) (now s).tokens)
        × ((now (r.update_user u s).1).users
            ≡ set_where (λ v. v.id == u.id) (kept_names u) (now s).users)
  unfolding revoke_by_token revoke_all_by_user_id update token_to_entity user_to_entity kept_names
      user_to_document set_user_document
  mongo_writes t user_id u s one_token one_user = (
    rw (tokens_law.update_one_leaves (λ d. str_eq d.token t) (λ d. record d { revoked = true }) s) (
        live-update_first (λ d. d.deleted) token_to_entity (λ d. str_eq d.token t)
          (λ rt. str_eq rt.token t) (λ d. record d { revoked = true })
          (λ rt. record rt { revoked = true }) (λ d. refl) (λ d. refl) (λ d. refl) (tokens s)
          one_token
        ∙ revoke_if-set_where (λ rt. str_eq rt.token t)
            (live (λ d. d.deleted) token_to_entity (tokens s))),
    rw
        (tokens_law.update_many_leaves (λ d. d.user_id == user_id)
          (λ d. record d { revoked = true }) s)
        (live-update_all (λ d. d.deleted) token_to_entity (λ d. d.user_id == user_id)
            (λ rt. rt.user_id == user_id) (λ d. record d { revoked = true })
            (λ rt. record rt { revoked = true }) (λ d. refl) (λ d. refl) (λ d. refl) (tokens s)
          ∙ revoke_if-set_where (λ rt. rt.user_id == user_id)
              (live (λ d. d.deleted) token_to_entity (tokens s))),
    rw
        (users_law.update_one_leaves (λ d. d.numeric_id == u.id)
          (set_user_document (user_to_document u)) s)
        (live-update_first (λ d. d.deleted) user_to_entity (λ d. d.numeric_id == u.id)
          (λ v. v.id == u.id) (set_user_document (user_to_document u)) (kept_names u) (λ d. refl)
          (λ d. refl) (λ d. refl) (users s) one_user),
  )
