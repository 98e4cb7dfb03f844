-- ===== src/Examples/Mongo.antt =====
-- Documents in memory.
use arcana_cloud_go.Base.{◌≡◌, refl, ◌||◌, some, List, [], ◌∷◌, ◌++◌, ◌==◌, str_eq, arith}
use arcana_cloud_go.Domain.Repository.{Tables, Replies, first, any, usable, revoke_if}
use arcana_cloud_go.Domain.Mongo.{
  Mongo, Collection, IsCollection, UserDocument, RefreshTokenDocument, user_to_document,
  token_to_document, count_of, update_first, update_all, without,
}
use arcana_cloud_go.Domain.Mongo.Delegation.{mongo_repositories}
use arcana_cloud_go.Domain.Mongo.Reads.{tables, tables_of, mongo_reads}
use arcana_cloud_go.Domain.Mongo.Writes.{set_where, kept_names, mongo_writes}
use arcana_cloud_go.Examples.Memory.{ann}
use arcana_cloud_go.Examples.Memory as Memory

abbrev Docs : Type 0
Docs = List UserDocument × List RefreshTokenDocument

abbrev user_docs : Docs → List UserDocument
user_docs d = d.0

abbrev token_docs : Docs → List RefreshTokenDocument
token_docs d = d.1

-- A collection at a place of the state. Its pages are empty.
abbrev collection_at :
    {D : Type 0} → (Docs → List D) → ((List D → List D) → Docs → Docs) → Collection Docs D
collection_at at change = record {
  find_one = λ test s. (some (first test (at s)), s);
  find_page = λ test skip limit s. (some [], s);
  count_documents = λ test s. (some (count_of test (at s)), s);
  insert_one = λ d s. (some tt, change (λ l. l ++ d ∷ []) s);
  update_one = λ test f s. (some tt, change (update_first test f) s);
  update_many = λ test f s. (some tt, change (update_all test f) s);
  delete_many = λ test s. (some tt, change (without test) s);
}

abbrev documents : Mongo
documents = record {
  State = Docs;
  users = collection_at user_docs (λ f s. (f s.0, s.1));
  refresh_tokens = collection_at token_docs (λ f s. (s.0, f s.1));
  next_id = λ name s. (some 2, s);
}

users-IsCollection : IsCollection documents.users user_docs
users-IsCollection = record {
  find_one_reply = λ test s. refl;
  find_one_leaves = λ test s. refl;
  count_documents_reply = λ test s. refl;
  count_documents_leaves = λ test s. refl;
  update_one_leaves = λ test f s. refl;
  update_many_leaves = λ test f s. refl;
  delete_many_leaves = λ test s. refl;
}

tokens-IsCollection : IsCollection documents.refresh_tokens token_docs
tokens-IsCollection = record {
  find_one_reply = λ test s. refl;
  find_one_leaves = λ test s. refl;
  count_documents_reply = λ test s. refl;
  count_documents_leaves = λ test s. refl;
  update_one_leaves = λ test f s. refl;
  update_many_leaves = λ test f s. refl;
  delete_many_leaves = λ test s. refl;
}

abbrev docs : Docs
docs = (user_to_document ann ∷ [], token_to_document 1 Memory.stored ∷ [])

mongo_reads_example :
    let r = mongo_repositories documents in
    let at = tables documents user_docs token_docs users-IsCollection tokens-IsCollection in
    Replies r at (r.get_user 1) (λ d. first (λ u. u.id == 1) d.users)
    × Replies r at (r.get_by_username "ann") (λ d. first (λ u. str_eq u.username "ann") d.users)
    × Replies r at (r.get_by_email "ann") (λ d. first (λ u. str_eq u.email "ann") d.users)
    × Replies r at
        (r.get_by_username_or_email "ann")
        (λ d. first (λ u. str_eq u.username "ann" || str_eq u.email "ann") d.users)
    × Replies r at (r.exists_by_username "ann") (λ d. any (λ u. str_eq u.username "ann") d.users)
    × Replies r at (r.exists_by_email "ann") (λ d. any (λ u. str_eq u.email "ann") d.users)
    × Replies r at (r.get_token "ann") (λ d. first (usable "ann") d.tokens)
mongo_reads_example =
    mongo_reads documents user_docs token_docs users-IsCollection tokens-IsCollection 1 "ann"

mongo_writes_example :
    let r = mongo_repositories documents in
    let now : Docs → Tables = λ x. tables_of (user_docs x, token_docs x) in
    ((now (r.revoke_token "r1" docs).1).tokens
      ≡ revoke_if (λ rt. str_eq rt.token "r1") (now docs).tokens)
    × ((now (r.revoke_all 1 docs).1).tokens ≡ revoke_if (λ rt. rt.user_id == 1) (now docs).tokens)
    × ((now (r.update_user ann docs).1).users
        ≡ set_where (λ v. v.id == ann.id) (kept_names ann) (now docs).users)
unfolding user_to_document token_to_document
mongo_writes_example =
    mongo_writes documents user_docs token_docs users-IsCollection tokens-IsCollection "r1" 1 ann
      docs (omega arith) (omega arith)
