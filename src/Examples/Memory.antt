-- ===== src/Examples/Memory.antt =====
-- A database in memory, and a JWT library that signs two texts.
use arcana_cloud_go.Jobs.Job.{second}
use arcana_cloud_go.Base.{
  ℕ, suc, List, ◌*◌, ◌<◌, ◌≡◌, refl, ap, sym, ◌∙◌, String, Bool, true, false, ◌&&◌, ◌||◌, none,
  some, [], ◌∷◌, ◌++◌, ◌==◌, ltb, str_eq, str_eq_iff, if◌then◌else◌, Bool-cases, inl, inr, lt→ltb,
  arith,
}
use arcana_cloud_go.Domain.Entity.{User, RefreshToken, role_admin}
use arcana_cloud_go.Domain.Repository.{
  Repositories, Tables, IsDb, any, first, usable, revoke_if, set_user,
}
use arcana_cloud_go.Middleware.{◌then◌}
use arcana_cloud_go.Security.{
  Jwt, JwtProvider, PasswordHasher, ParsesSigned, Claims, of_user, bare, as_registered,
  RegisteredClaims, Parsed, valid, expired, refused, access_claims, refresh_claims,
}

abbrev pub ann : User
ann = record {
  id = 1;
  username = "ann";
  email = "ann@x";
  password = "pw#";
  first_name = "Ann";
  last_name = "";
  role = role_admin;
  is_active = true;
  is_verified = false;
}

abbrev pub stored : RefreshToken
stored = record { user_id = 1; token = "r1"; expires_at = 70 * second; revoked = false }

abbrev users_count : List User → ℕ
users_count [] = 0
users_count (u ∷ l) = suc (users_count l)

-- It has one page.
abbrev pub memory : Repositories
memory = record {
  State = Tables;
  exists_by_username = λ n d. (some (any (λ u. str_eq u.username n) d.users), d);
  exists_by_email = λ e d. (some (any (λ u. str_eq u.email e) d.users), d);
  create_user = λ u d. (some u, record d { users = d.users ++ u ∷ [] });
  update_user = λ u d. (some tt, record d { users = set_user u d.users });
  delete_user = λ id d. (some tt, d);
  list_users = λ page size d. (some (d.users, users_count d.users), d);
  get_user = λ id d. (some (first (λ u. u.id == id) d.users), d);
  get_by_username = λ n d. (some (first (λ u. str_eq u.username n) d.users), d);
  get_by_email = λ e d. (some (first (λ u. str_eq u.email e) d.users), d);
  get_by_username_or_email =
      λ n d. (some (first (λ u. str_eq u.username n || str_eq u.email n) d.users), d);
  create_token = λ rt d.
      if any (λ o. str_eq o.token rt.token) d.tokens
      then (none, d)
      else (some tt, record d { tokens = d.tokens ++ rt ∷ [] });
  get_token = λ t d. (some (first (usable t) d.tokens), d);
  revoke_token =
      λ t d. (some tt, record d { tokens = revoke_if (λ rt. str_eq rt.token t) d.tokens });
  revoke_all = λ id d. (some tt, record d { tokens = revoke_if (λ rt. rt.user_id == id) d.tokens });
}

abbrev pub itself : Tables → Tables
itself d = d

pub memory-IsDb : IsDb memory itself
memory-IsDb = record {
  exists_by_username_reply = λ n s. refl;
  exists_by_username_leaves = λ n s. refl;
  exists_by_email_reply = λ e s. refl;
  exists_by_email_leaves = λ e s. refl;
  update_user_reply = λ u s. refl;
  update_user_leaves = λ u s. refl;
  get_user_reply = λ id s. refl;
  get_user_leaves = λ id s. refl;
  get_by_username_reply = λ n s. refl;
  get_by_username_leaves = λ n s. refl;
  get_by_email_reply = λ e s. refl;
  get_by_email_leaves = λ e s. refl;
  get_by_username_or_email_reply = λ n s. refl;
  get_by_username_or_email_leaves = λ n s. refl;
  create_token_reply = λ rt s h. rw h refl;
  create_token_leaves = λ rt s h. rw h refl;
  get_token_reply = λ t s. refl;
  get_token_leaves = λ t s. refl;
  revoke_token_reply = λ t s. refl;
  revoke_token_leaves = λ t s. refl;
  revoke_all_reply = λ id s. refl;
  revoke_all_leaves = λ id s. refl;
}

abbrev same_registered : RegisteredClaims → RegisteredClaims → Bool
same_registered a b =
    str_eq a.id b.id
    && str_eq a.issuer b.issuer
    && str_eq a.subject b.subject
    && (a.issued_at == b.issued_at)
    && (a.expires_at == b.expires_at)

abbrev same_claims : Claims → Claims → Bool
same_claims (of_user a) (of_user b) =
    (a.user_id == b.user_id)
    && str_eq a.username b.username
    && str_eq a.email b.email
    && str_eq a.role b.role
    && same_registered a.registered b.registered
same_claims (of_user a) (bare b) = false
same_claims (bare a) (of_user b) = false
same_claims (bare a) (bare b) = same_registered a b

same_registered-path : (a b : RegisteredClaims) → same_registered a b ≡ true → a ≡ b
same_registered-path a b h =
    let id : a.id ≡ b.id = ground (arith, str_eq_iff a.id b.id) in
    let issuer : a.issuer ≡ b.issuer = ground (arith, str_eq_iff a.issuer b.issuer) in
    let subject : a.subject ≡ b.subject = ground (arith, str_eq_iff a.subject b.subject) in
    let issued : a.issued_at ≡ b.issued_at = ground arith in
    let expires : a.expires_at ≡ b.expires_at = ground arith in
    λ i. record {
      id = id i;
      issuer = issuer i;
      subject = subject i;
      issued_at = issued i;
      expires_at = expires i;
    }

same_claims-path : (a b : Claims) → same_claims a b ≡ true → a ≡ b
same_claims-path (of_user a) (of_user b) h =
    let id : a.user_id ≡ b.user_id = ground arith in
    let name : a.username ≡ b.username = ground (arith, str_eq_iff a.username b.username) in
    let email : a.email ≡ b.email = ground (arith, str_eq_iff a.email b.email) in
    let role : a.role ≡ b.role = ground (arith, str_eq_iff a.role b.role) in
    let rest : a.registered ≡ b.registered =
      same_registered-path a.registered b.registered (ground arith) in
    λ i. of_user (record {
      user_id = id i;
      username = name i;
      email = email i;
      role = role i;
      registered = rest i;
    })
same_claims-path (of_user a) (bare b) h = cc
same_claims-path (bare a) (of_user b) h = cc
same_claims-path (bare a) (bare b) h = ap bare (same_registered-path a b h)

abbrev pub provider : JwtProvider
provider = record {
  secret = "k";
  access_token_duration = 40 * second;
  refresh_token_duration = 60 * second;
  issuer = "arcana";
}

abbrev no_jwt : Jwt
no_jwt = record { sign = λ secret c. none; parse = λ secret now t. refused }

-- The access token of ann at second 10, and her refresh tokens of that time.
abbrev pub access : Claims
access = access_claims no_jwt provider (10 * second) ann

abbrev pub renewed : Claims
renewed = refresh_claims no_jwt provider (10 * second) "u2" ann

abbrev until : ℕ → Claims → Parsed
until now c = if ltb now (as_registered c).expires_at then valid c else expired

-- It also reads "r1", the text of the stored row.
abbrev pub two_tokens : Jwt
two_tokens = record {
  sign = λ secret c.
      if same_claims c access then some "a" else if same_claims c renewed then some "r2" else none;
  parse = λ secret now t.
      if str_eq t "a"
      then until now access
      else if str_eq t "r2"
      then until now renewed
      else if str_eq t "r1"
      then until now renewed
      else refused;
}

until_alive : (now : ℕ) (c : Claims) → now < (as_registered c).expires_at → until now c ≡ valid c
until_alive now c alive = rw (lt→ltb now (as_registered c).expires_at alive) refl

-- A text that is read as `d` until `d` expires is read as `c`, where `c` is `d`.
reads :
    (secret text : String) (now : ℕ) (c d : Claims) (t : String)
    → two_tokens.parse secret now text ≡ until now d
    → c ≡ d
    → t ≡ text
    → now < (as_registered c).expires_at
    → two_tokens.parse secret now t ≡ valid c
reads secret text now c d t read same is alive =
    ap (two_tokens.parse secret now) is ∙ read ∙ ap (until now) (sym same) ∙ until_alive now c alive

pub two_tokens-ParsesSigned : ParsesSigned two_tokens
two_tokens-ParsesSigned secret now c t signed alive = elim (Bool-cases (same_claims c access)) [
  | inl same ↦
      reads secret "a" now c access t refl (same_claims-path c access same)
        (text "a" (when_access same) signed) alive
  | inr other ↦ elim (Bool-cases (same_claims c renewed)) [
    | inl same ↦
        reads secret "r2" now c renewed t refl (same_claims-path c renewed same)
          (text "r2" (when_renewed other same) signed) alive
    | inr neither ↦ absurd (unsigned other neither signed)
  ]
]
  where
    none_some : none ≡ some t → ⊥
    none_some h = cc

    some_inj : {u : String} → some t ≡ some u → t ≡ u
    some_inj h = ground arith

    when_access : same_claims c access ≡ true → two_tokens.sign secret c ≡ some "a"
    when_access h = rw h refl

    when_renewed :
        same_claims c access ≡ false
        → same_claims c renewed ≡ true
        → two_tokens.sign secret c ≡ some "r2"
    when_renewed h k = rw (h, k) refl

    unsigned :
        same_claims c access ≡ false
        → same_claims c renewed ≡ false
        → two_tokens.sign secret c ≡ some t
        → ⊥
    unsigned h k e = none_some (sym (rw (h, k) refl) ∙ e)

    text :
        (u : String) → two_tokens.sign secret c ≡ some u → two_tokens.sign secret c ≡ some t → t ≡ u
    text u h k = some_inj (sym k ∙ h)

abbrev pub tables : Tables
tables = record { users = ann ∷ []; tokens = stored ∷ [] }

-- It hashes by a mark at the end of "pw" and "new".
abbrev pub marks : PasswordHasher
marks = record {
  hash = λ text. if str_eq text "pw" then some "pw#" else some "new#";
  verify = λ text hashed. str_eq text "pw" && str_eq hashed "pw#";
}
