-- ===== src/Middleware/Global.antt =====
-- The handlers that stand before every route.
use arcana_cloud_go.Base.{
  ℕ, ◌≡◌, refl, String, false, some, if◌then◌else◌, [], ◌∷◌, str_eq, Bool-cases, inl, inr,
}
use arcana_cloud_go.Jobs.RedisQueue.{is_empty}
use arcana_cloud_go.Middleware.{
  Context, next, ◌then◌, default_cors_config, resolve_allowed_origin, allow_origin,
  allow_credentials_header, expose, cors, request_id_handler, header,
}

abbrev at_routes : (ℕ → String) → String → Context → Context
at_routes itoa request_id c =
    let id = if is_empty c.given_id then request_id else c.given_id in
    expose itoa default_cors_config default_cors_config.expose_headers (
      allow_credentials_header itoa default_cors_config (
        allow_origin itoa default_cors_config
          (header "X-Request-ID" id (record c { request_id = some id }))))

-- A request that is no preflight passes, with the claims and the header it has.
pub global_passes :
    (itoa : ℕ → String) (request_id : String) (c : Context)
    → str_eq c.method "OPTIONS" ≡ false
    → (c' : Context) × ((request_id_handler request_id then cors itoa default_cors_config) c
        ≡ next c')
      × (c'.claims ≡ c.claims)
      × (c'.authorization ≡ c.authorization)
unfolding request_id_handler cors allow_origin allow_credentials_header expose header
global_passes itoa request_id c post =
    let c' = at_routes itoa request_id c in
    elim (Bool-cases (is_empty (resolve_allowed_origin c.origin ("*" ∷ [])))) [
      | inl refused ↦ (c', rw post refl, rw refused refl, rw refused refl)
      | inr allowed ↦ (c', rw post refl, rw allowed refl, rw allowed refl)
    ]
