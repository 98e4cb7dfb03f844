-- ===== src/Http/JobController/Admission.antt =====
-- Which requests reach the jobs, and how a job that was posted is read back.
use arcana_cloud_go.Base.{
  ℕ, List, ◌≡◌, refl, sym, String, true, false, none, some, ◌⊎◌, Bool-cases, Option-cases, inl, inr,
}
use arcana_cloud_go.Action.{ok, Result-cases}
use arcana_cloud_go.Jobs.Job.{JobOption, JobPayload, new_job_payload}
use arcana_cloud_go.Jobs.Redis.{Redis, Db, IsUp, unique}
use arcana_cloud_go.Jobs.RedisQueue.Enqueue.{enqueue-get_job}
use arcana_cloud_go.Jobs.JobService as Service
use arcana_cloud_go.Jobs.RedisQueue
use arcana_cloud_go.Jobs.RedisQueue.{Codec, is_empty}
use arcana_cloud_go.Security.{
  Jwt, JwtProvider, UserClaims, invalid_token, expired_token, validate_access_token,
}
use arcana_cloud_go.Middleware.{Context, bearer_token, authenticate}
use arcana_cloud_go.Http.{success}
use arcana_cloud_go.Http.JobController.Asked.{
  Timely, asked_job, asked_response, asked_lem, response_lem,
}
use arcana_cloud_go.Http.JobController.{
  EnqueueJobRequest, options_of, schedule_options, enqueue_with, enqueue_job, get_job,
  to_job_response, enqueued, one_job, Texts, Route, serve,
}

-- The request has a bearer token that is valid at the time.
abbrev pub Admitted : Jwt → JwtProvider → ℕ → Context → Type 0
Admitted jwt p now c =
    (t : String) × (claims : UserClaims) × (bearer_token c.authorization ≡ some t)
    × (validate_access_token jwt p now t ≡ ok claims)

-- A request to a protected route of the jobs either has a bearer token that is valid at the time, or is
-- answered with 401 and changes nothing, whatever the route and the job.
pub unauthorized_untouched :
    {D : Type 0} (r : Redis D) (codec : Codec D) (texts : Texts) (jwt : Jwt) (p : JwtProvider)
    (now : ℕ) (uuid : String) (c : Context) (route : Route) (s : r.State)
    → let out = serve r codec texts jwt p now uuid c route s in
      Admitted jwt p now c ⊎ ((out.0.status ≡ 401) × (out.1 ≡ s))
unfolding serve authenticate
unauthorized_untouched r codec texts jwt p now uuid c route s =
    elim (Bool-cases (is_empty c.authorization)) [
      | inl bare ↦ inr (rw bare refl, rw bare refl)
      | inr given ↦ elim (Option-cases (bearer_token c.authorization)) [
        | inl odd ↦ inr (rw (given, odd) refl, rw (given, odd) refl)
        | inr (t, bearer) ↦ elim (Result-cases (validate_access_token jwt p now t)) [
          | inl (claims, valid) ↦ inl (t, claims, bearer, valid)
          | inr (invalid_token, bad) ↦
              inr (rw (given, bearer, bad) refl, rw (given, bearer, bad) refl)
          | inr (expired_token, bad) ↦
              inr (rw (given, bearer, bad) refl, rw (given, bearer, bad) refl)
        ]
      ]
    ]

posted_job_lem :
    {D : Type 0} (r : Redis D) (contents : r.State → Db D) (up : IsUp r contents) (codec : Codec D)
    (texts : Texts) (now : ℕ) (uuid : String) (req : EnqueueJobRequest) (opts : List JobOption)
    (text : String) (j : JobPayload) (bytes : D) (s : r.State)
    → schedule_options texts.parse_time now req ≡ some opts
    → texts.valid_json req.payload ≡ true
    → texts.marshalled req.payload ≡ some text
    → new_job_payload now uuid req.job_type text (options_of texts req opts) ≡ j
    → codec.marshal j ≡ some bytes
    → codec.unmarshal bytes ≡ some j
    → is_empty j.id ≡ false
    → (is_empty j.unique_key ≡ true) ⊎ ((contents s).strings (unique j.unique_key) ≡ none)
    → let posted = enqueue_job r codec texts now uuid (some req) s in
      (posted.0 ≡ success 201 "Job enqueued" (some (enqueued j.id)))
      × ((RedisQueue.get_job r codec j.id posted.1).0 ≡ ok j)
      × ((get_job r codec texts j.id posted.1).0
          ≡ success 200 "" (some (one_job (to_job_response j))))
unfolding enqueue_job enqueue_with get_job Service.enqueue Service.get_job
posted_job_lem r contents up codec texts now uuid req opts text j bytes s time valid payload made m
      m' id free =
    let (stored, found) = enqueue-get_job r contents up codec now j bytes s m m' free in
    let state : (enqueue_job r codec texts now uuid (some req) s).1
        ≡ (RedisQueue.enqueue r codec now j s).1 =
      simp (time, valid, payload, made, stored) in
    (simp (time, valid, payload, made, stored), rw state found, rw (state, id, found) refl)

-- On a server that answers and a codec that reads back what it wrote: a request without a time or with
-- one that is read, with a delay below 2 ^ 63 nanoseconds, whose payload is JSON and whose unique key is
-- free, is answered with 201 and the id of the new job. A request for that id is then answered with 200
-- and the job that was asked for: the job stored and the answer have the priority of the name in small
-- letters, which is normal where the name is no other, the time given, or else that of the delay, and the
-- tags, and the job stored has the payload and the unique key too.
pub post-get :
    {D : Type 0} (r : Redis D) (contents : r.State → Db D) (up : IsUp r contents) (codec : Codec D)
    (texts : Texts) (now : ℕ) (uuid : String) (req : EnqueueJobRequest) (text : String) (bytes : D)
    (s : r.State)
    → Timely texts req
    → texts.valid_json req.payload ≡ true
    → texts.marshalled req.payload ≡ some text
    → let j = asked_job texts now uuid req text in
      codec.marshal j ≡ some bytes
      → codec.unmarshal bytes ≡ some j
      → is_empty uuid ≡ false
      → (is_empty req.unique_key ≡ true) ⊎ ((contents s).strings (unique req.unique_key) ≡ none)
      → let posted = enqueue_job r codec texts now uuid (some req) s in
        (posted.0 ≡ success 201 "Job enqueued" (some (enqueued uuid)))
        × ((RedisQueue.get_job r codec uuid posted.1).0 ≡ ok j)
        × ((get_job r codec texts uuid posted.1).0
            ≡ success 200 "" (some (one_job (asked_response texts now uuid req))))
post-get r contents up codec texts now uuid req text bytes s timely valid payload m m' id free =
    let (opts, time, made) = asked_lem texts now uuid req text timely in
    rw (sym (response_lem texts now uuid req text)) (
      posted_job_lem r contents up codec texts now uuid req opts text
        (asked_job texts now uuid req text) bytes s time valid payload made m m' id free)
