-- ===== src/Http/AuthController/Sessions.antt =====
-- What becomes of a session when its user logs out.
use arcana_cloud_go.Base.{
  ℕ, ◌≡◌, refl, ap, ◌∙◌, String, false, none, some, List, [], ◌∷◌, str_eq, str_eq_iff, Bool-cases,
  inl, inr, arith,
}
use arcana_cloud_go.Domain.Entity.{RefreshToken}
use arcana_cloud_go.Domain.Repository.{Repositories, Tables, IsDb, first, usable, revoke_if}
use arcana_cloud_go.Domain.AuthService as Auth
use arcana_cloud_go.Domain.AuthService.Rotation.{of_text}
use arcana_cloud_go.Security.{Jwt, JwtProvider, PasswordHasher}
use arcana_cloud_go.Middleware.{Context, get_current_user_id}
use arcana_cloud_go.Middleware.Global.{global_passes}
use arcana_cloud_go.Http.{behind}
use arcana_cloud_go.Http.AuthController.{
  AuthRoute, after_prefix, bearer_prefix, post_request, post_logout, post_logout_all,
  global_middleware, logged_out, logout, logout_all, handle, serve,
}

-- Revoking one text leaves the usable row of another.
first-revoke_other :
    (t t' : String) (l : List RefreshToken)
    → str_eq t t' ≡ false
    → first (usable t') (revoke_if (of_text t) l) ≡ first (usable t') l
first-revoke_other t t' [] h = refl
first-revoke_other t t' (o ∷ l) h = elim (Bool-cases (str_eq o.token t)) [
  | inl same ↦
      let different : str_eq o.token t' ≡ false =
        ground (arith, str_eq_iff o.token t, str_eq_iff o.token t', str_eq_iff t t') in
      rw (same, different) (first-revoke_other t t' l h)
  | inr other ↦ rw (other, first-revoke_other t t' l h) refl
]

-- Revoking a text leaves no usable row of it.
first-revoke :
    (t : String) (l : List RefreshToken) → first (usable t) (revoke_if (of_text t) l) ≡ none
first-revoke t [] = refl
first-revoke t (o ∷ l) = elim (Bool-cases (str_eq o.token t)) [
  | inl same ↦ rw (same, same) (first-revoke t l)
  | inr other ↦ rw (other, other) (first-revoke t l)
]

module _ (r : Repositories) (jwt : Jwt) (p : JwtProvider) (hasher : PasswordHasher)
    (tables : r.State → Tables) (db : IsDb r tables) where
  logged_out_lem :
      (t : String) (s : r.State)
      → (tables (logged_out r jwt p hasher (some t) s)).tokens
        ≡ revoke_if (of_text t) (tables s).tokens
  unfolding logged_out Auth.logout
  logged_out_lem t s = rw (db.revoke_token_leaves t s) refl

  -- A POST reaches its handler with its header and without claims.
  serve-handle :
      (itoa : ℕ → String) (request_id uuid : String) (now : ℕ) (route : AuthRoute)
      (authorization origin given_id : String) (s : r.State)
      → (c : Context) × (serve r jwt p hasher itoa request_id now uuid route
            (post_request authorization origin given_id)
            s
          ≡ handle r jwt p hasher now uuid route c s)
        × (c.claims ≡ none)
        × (c.authorization ≡ authorization)
  unfolding serve global_middleware
  serve-handle itoa request_id uuid now route authorization origin given_id s =
      let request = post_request authorization origin given_id in
      let (c, through, anonymous, kept) = global_passes itoa request_id request refl in
      (
        c,
        ap (λ passage. behind passage (handle r jwt p hasher now uuid route) s) through,
        anonymous,
        kept,
      )

  logout_lem :
      (now : ℕ) (uuid : String) (c : Context) (header t : String) (s : r.State)
      → c.authorization ≡ header
      → after_prefix bearer_prefix header ≡ some t
      → let out = handle r jwt p hasher now uuid post_logout c s in
        (out.0.status ≡ 200) × ((tables out.1).tokens ≡ revoke_if (of_text t) (tables s).tokens)
  unfolding handle logout
  logout_lem now uuid c header t s kept bearer = (refl, rw (kept, bearer) (logged_out_lem t s))

  logout_all_lem :
      (now : ℕ) (uuid : String) (c : Context) (s : r.State)
      → c.claims ≡ none
      → let out = handle r jwt p hasher now uuid post_logout_all c s in
        (out.0.status ≡ 200) × (out.1 ≡ s)
  unfolding handle logout_all get_current_user_id
  logout_all_lem now uuid c s anonymous = (refl, rw anonymous refl)

  -- On a database that answers, with what stands before every route: a POST to the route of Logout whose
  -- Authorization header is a bearer token of another text than a usable refresh token, as that of an
  -- access token is, is answered with 200 and leaves the refresh token usable, and so does a POST to the
  -- route of LogoutAll with that header. A POST to the route of Logout whose header is a bearer token of
  -- the text of the refresh token itself is answered with 200 and leaves no usable row of that text.
  pub logout_keeps_session :
      (itoa : ℕ → String) (request_id uuid : String) (now : ℕ) (header own origin given_id : String)
      (t refresh : String) (rt : RefreshToken) (s : r.State)
      → after_prefix bearer_prefix header ≡ some t
      → str_eq t refresh ≡ false
      → after_prefix bearer_prefix own ≡ some refresh
      → first (usable refresh) (tables s).tokens ≡ some rt
      → let post = λ (route : AuthRoute) (authorization : String).
        serve r jwt p hasher itoa request_id now uuid route
          (post_request authorization origin given_id)
          s in
        let out = post post_logout header in
        let all = post post_logout_all header in
        let spent = post post_logout own in
        ((out.0.status ≡ 200) × (first (usable refresh) (tables out.1).tokens ≡ some rt))
        × ((all.0.status ≡ 200) × (first (usable refresh) (tables all.1).tokens ≡ some rt))
        × ((spent.0.status ≡ 200) × (first (usable refresh) (tables spent.1).tokens ≡ none))
  logout_keeps_session itoa request_id uuid now header own origin given_id t refresh rt s bearer
        another bearer' live =
      let (c, reached, anonymous, kept) =
        serve-handle itoa request_id uuid now post_logout header origin given_id s in
      let (d, reached_all, nobody, same) =
        serve-handle itoa request_id uuid now post_logout_all header origin given_id s in
      let (e, reached', anonymous', kept') =
        serve-handle itoa request_id uuid now post_logout own origin given_id s in
      let (fine, revoked) = logout_lem now uuid c header t s kept bearer in
      let (fine_all, untouched) = logout_all_lem now uuid d s nobody in
      let (fine', revoked') = logout_lem now uuid e own refresh s kept' bearer' in
      (
        (
          rw reached fine,
          rw (reached, revoked) (first-revoke_other t refresh (tables s).tokens another ∙ live),
        ),
        (rw reached_all fine_all, rw (reached_all, untouched) live),
        (rw reached' fine', rw (reached', revoked') (first-revoke refresh (tables s).tokens)),
      )
