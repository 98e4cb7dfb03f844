-- ===== src/Grpc/Layered.antt =====
-- The repository of users that a service layer has: the client of UserRepository over the server of
-- RepositoryServer.
use arcana_cloud_go.Base.{
  ℕ, ◌^◌, ◌≤◌, ◌<◌, ◌≡◌, refl, ap, sym, ◌∙◌, String, Bool, Option, option_map, none, some, List, [],
  ◌∷◌, map, Option-cases, inl, inr, ◌⊎◌, subst, arith,
}
use arcana_cloud_go.Action.{Command, answer, try_or}
use arcana_cloud_go.Domain.Entity.{User}
use arcana_cloud_go.Domain.Repository.{Repositories}
use arcana_cloud_go.Grpc.{Code, internal}
use arcana_cloud_go.Grpc.RepositoryServer.{
  to_proto_user, user_or_not_found, looked_up, asked_page, asked_size, proto_page, get_user,
  get_user_by_username, get_user_by_email, list_users, exists_by_username, exists_by_email, served,
}
use arcana_cloud_go.Grpc.UserRepository as R
use arcana_cloud_go.Grpc.UserRepository.{
  to_entity, get_by_id, get_by_username, get_by_email, list, listed, list_request,
  get_by_username_or_email, or_by_email, replied, user_reply, remote,
}

abbrev pub layered : Repositories → Repositories
layered r = remote r (served r)

-- A user without the hash of the password.
unfoldable pub stripped : User → User
stripped u = record u { password = "" }

module _ (r : Repositories) where
  looked_up_lem :
      (c : Command r.State (Option User)) (s : r.State)
      → let out = looked_up r c s in
        ◌≡◌ {A = Option (Option User) × r.State}
          (user_reply out.0, out.1)
          (option_map (option_map stripped) (c s).0, (c s).1)
  unfolding looked_up user_reply to_entity to_proto_user user_or_not_found stripped
  looked_up_lem c s = elim (Option-cases (c s).0) [
    | inl fails ↦ simp fails
    | inr (o, e) ↦ elim (Option-cases o) [
      | inl missing ↦ simp (e, missing)
      | inr (u, found) ↦ simp (e, found)
    ]
  ]

  exists_reply : (o : Option Bool) → replied {A = Bool} (λ b. b) (answer {E = Code} o internal) ≡ o
  unfolding replied
  exists_reply none = refl
  exists_reply (some b) = refl

  exists_lem :
      (c : Command r.State Bool) (s : r.State)
      → ◌≡◌ {A = Option Bool × r.State} (replied (λ b. b) (try_or internal c s).0, (c s).1) (c s)
  exists_lem c s = λ i. (exists_reply (c s).0 i, (c s).1)

  -- The email is asked for only when nobody has the name.
  abbrev pub or_email : String → Option (Option User) → Command r.State (Option User)
  or_email name none s = (none, s)
  or_email name (some none) s = r.get_by_email name s
  or_email name (some (some u)) s = (some (some u), s)

  -- Who has the name as a username, and who has it as an email where nobody does.
  abbrev pub name_then_email : String → Command r.State (Option User)
  name_then_email name s = or_email name (r.get_by_username name s).0 (r.get_by_username name s).1

  or_by_email_lem :
      (name : String) (o : Option (Option User)) (s : r.State)
      → let out = or_email name o s in
        or_by_email (served r) name (option_map (option_map stripped) o) s
        ≡ (option_map (option_map stripped) out.0, out.1)
  unfolding or_by_email get_by_email get_user_by_email
  or_by_email_lem name none s = refl
  or_by_email_lem name (some none) s = looked_up_lem (r.get_by_email name) s
  or_by_email_lem name (some (some u)) s = refl

  -- Through the repository layer a lookup by id, by username or by email and each check of a name or an
  -- email leaves the state and gives the answer, the failure included, that the repository behind it
  -- gives, except that the password of a user found is empty. A lookup by username or email does not use
  -- that of the repository behind: it asks for the username and, when that succeeds and nobody has it,
  -- for the email in the state after, and gives the user found with an empty password.
  pub layered_reads :
      (id : ℕ) (name : String) (s : r.State)
      → ((layered r).get_user id s
          ≡ (option_map (option_map stripped) (r.get_user id s).0, (r.get_user id s).1))
        × ((layered r).get_by_username name s ≡ (
          option_map (option_map stripped) (r.get_by_username name s).0,
          (r.get_by_username name s).1,
        ))
        × ((layered r).get_by_email name s ≡ (
          option_map (option_map stripped) (r.get_by_email name s).0,
          (r.get_by_email name s).1,
        ))
        × ((layered r).exists_by_username name s ≡ r.exists_by_username name s)
        × ((layered r).exists_by_email name s ≡ r.exists_by_email name s)
        × ((layered r).get_by_username_or_email name s ≡ (
          option_map (option_map stripped) (name_then_email name s).0,
          (name_then_email name s).1,
        ))
  unfolding get_by_id get_by_username get_by_email R.exists_by_username R.exists_by_email get_user
      get_user_by_username get_user_by_email exists_by_username exists_by_email
      get_by_username_or_email
  layered_reads id name s = (
    looked_up_lem (r.get_user id) s,
    looked_up_lem (r.get_by_username name) s,
    looked_up_lem (r.get_by_email name) s,
    exists_lem (r.exists_by_username name) s,
    exists_lem (r.exists_by_email name) s,
    ap (λ out. or_by_email (served r) name out.0 out.1) (looked_up_lem (r.get_by_username name) s)
        ∙ or_by_email_lem name (r.get_by_username name s).0 (r.get_by_username name s).1,
  )

-- A lookup's reply has no password.
abbrev pub NoHash : Option (Option User) → Type 0
NoHash o = (o ≡ none) ⊎ ((o ≡ some none) ⊎ ((u : User) × (o ≡ some (some (stripped u)))))

stripped-NoHash : (o : Option (Option User)) → NoHash (option_map (option_map stripped) o)
stripped-NoHash none = inl refl
stripped-NoHash (some none) = inr (inl refl)
stripped-NoHash (some (some u)) = inr (inr (u, refl))

module _ (r : Repositories) where
  by_email-NoHash : (n : String) (s : r.State) → NoHash (get_by_email (served r) n s).0
  by_email-NoHash n s =
      subst NoHash (ap (λ p. p.0) (sym (layered_reads r 0 n s).2))
        (stripped-NoHash (r.get_by_email n s).0)

  or_by_email-NoHash :
      (n : String) (o : Option (Option User)) (s : r.State)
      → NoHash (or_by_email (served r) n (option_map (option_map stripped) o) s).0
  unfolding or_by_email
  or_by_email-NoHash n none s = inl refl
  or_by_email-NoHash n (some none) s = by_email-NoHash n s
  or_by_email-NoHash n (some (some u)) s = inr (inr (u, refl))

  pub layered-NoHash :
      (n : String) (s : r.State) → NoHash ((layered r).get_by_username_or_email n s).0
  unfolding get_by_username_or_email
  layered-NoHash n s =
      let out = get_by_username (served r) n s in
      subst (λ o. NoHash (or_by_email (served r) n o out.1).0)
        (ap (λ p. p.0) (sym (layered_reads r 0 n s).1))
        (or_by_email-NoHash n (r.get_by_username n s).0 out.1)

stripped_each : (l : List User) → map to_entity (map to_proto_user l) ≡ map stripped l
unfolding to_entity to_proto_user stripped
stripped_each [] = refl
stripped_each (u ∷ l) = ap (λ rest. stripped u ∷ rest) (stripped_each l)

asked_same :
    (page size : ℕ)
    → 1 ≤ page
    → page < 2 ^ 31
    → 1 ≤ size
    → size ≤ 100
    → let req = list_request page size in (asked_page req ≡ page) × (asked_size req ≡ size)
unfolding list_request asked_page asked_size
asked_same page size a b c d = (ground arith, ground arith)

abbrev pub stripped_page : List User × ℕ → List User × ℕ
stripped_page (users, total) = (map stripped users, total)

-- For a page from 1 to 2 ^ 31 - 1 and a size from 1 to 100, a page of users through the repository layer
-- is the page of the repository behind it, with empty passwords, and its failure is a failure.
pub layered_list :
    (r : Repositories) (page size : ℕ) (s : r.State)
    → 1 ≤ page
    → page < 2 ^ 31
    → 1 ≤ size
    → size ≤ 100
    → (layered r).list_users page size s
      ≡ (option_map stripped_page (r.list_users page size s).0, (r.list_users page size s).1)
unfolding list list_users proto_page listed replied
layered_list r page size s a b c d =
    let (same_page, same_size) = asked_same page size a b c d in
    elim (Option-cases (r.list_users page size s).0) [
      | inl fails ↦ simp (same_page, same_size, fails)
      | inr ((users, total), e) ↦ simp (same_page, same_size, e, stripped_each users)
    ]
