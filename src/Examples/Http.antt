-- ===== src/Examples/Http.antt =====
-- Requests to the jobs, on the server of Server.
use arcana_cloud_go.Base.{
  ℕ, ◌+◌, ◌≡◌, ◌*◌, refl, inl, arith, String, true, none, some, [], ◌∷◌, inr,
}
use arcana_cloud_go.Base.Int.{pos}
use arcana_cloud_go.Jobs.Job.{JobPayload, high, second}
use arcana_cloud_go.Jobs.RedisQueue
use arcana_cloud_go.Action.{ok}
use arcana_cloud_go.Http.{success}
use arcana_cloud_go.Http.JobController.{
  EnqueueJobRequest, Texts, enqueued, one_job, enqueue_job, get_job,
}
use arcana_cloud_go.Http.JobController.Asked.{Timely, asked_job, asked_response}
use arcana_cloud_go.Http.JobController.Admission.{post-get}
use arcana_cloud_go.Domain.Entity.{User}
use arcana_cloud_go.Domain.Repository.{Tables, first, usable}
use arcana_cloud_go.Domain.UserService.{UpdateProfileRequest, ChangePasswordRequest}
use arcana_cloud_go.Middleware.{Context, get_current_user_id}
use arcana_cloud_go.Security.{as_user}
use arcana_cloud_go.Http.UserController.{put_me, put_password, handle}
use arcana_cloud_go.Http.UserController.Rows.{row, own_row_only}
use arcana_cloud_go.Http.AuthController.{
  AuthRoute, post_logout, post_logout_all, post_request, after_prefix, serve as serve_auth,
}
use arcana_cloud_go.Http.AuthController.Sessions.{logout_keeps_session}
use arcana_cloud_go.Examples.Auth.{with_token}
use arcana_cloud_go.Examples.Memory.{
  two_tokens, provider, ann, access, memory, itself, memory-IsDb, tables, marks, stored,
}
use arcana_cloud_go.Examples.Server.{ideal, ideal-IsUp, same, empty}
use arcana_cloud_go.Examples.Queue.{verbatim}

abbrev plain_texts : Texts
plain_texts = record {
  to_lower = λ s. s;
  parse_time = λ s. none;
  valid_json = λ s. true;
  marshalled = λ s. some s;
}

abbrev mail_request : EnqueueJobRequest
mail_request = record {
  job_type = "email";
  payload = "{}";
  priority = "high";
  scheduled_at = "";
  delay_seconds = pos 3;
  unique_key = "k";
  tags = "news" ∷ [];
}

mail_Timely : Timely plain_texts mail_request
mail_Timely = (inl refl, λ n e. ground (arith, seconds n e))
  where
    seconds : (n : ℕ) → pos 3 ≡ pos n → 3 ≡ n
    seconds n e = cc

-- The job that mail_request asks for at 100, with the fields that the request sets written out.
abbrev posted_job : JobPayload
posted_job = record (asked_job plain_texts 100 "j1" mail_request "{}") {
  priority = high;
  scheduled_at = some (100 + 3 * second);
  unique_key = "k";
  tags = "news" ∷ [];
}

post-get_example :
    let posted = enqueue_job ideal verbatim plain_texts 100 "j1" (some mail_request) empty in
    (posted.0 ≡ success 201 "Job enqueued" (some (enqueued "j1")))
    × ((RedisQueue.get_job ideal verbatim "j1" posted.1).0 ≡ ok posted_job)
    × ((get_job ideal verbatim plain_texts "j1" posted.1).0
        ≡ success 200 "" (
            some (
              one_job (record (asked_response plain_texts 100 "j1" mail_request) {
                priority = "high";
                scheduled_at = some (100 + 3 * second);
              }))))
post-get_example =
    post-get ideal same ideal-IsUp verbatim plain_texts 100 "j1" mail_request "{}" posted_job empty
      mail_Timely refl refl refl refl refl (inr refl)

-- The request of ann, whose id is 1, and a table with another row.
abbrev of_ann : Context
of_ann = record (with_token "bearer a") { claims = some (as_user access) }

abbrev bob : User
bob = record ann { id = 2; username = "bob"; email = "bob@x" }

abbrev both : Tables
both = record tables { users = ann ∷ bob ∷ [] }

abbrev new_name : UpdateProfileRequest
new_name = record { first_name = "Anna"; last_name = ""; email = "" }

abbrev new_password : ChangePasswordRequest
new_password = record { old_password = "pw"; new_password = "new" }

own_row_only_example :
    (row 2 (handle memory marks (put_me (some new_name)) of_ann both).1 ≡ row 2 both)
    × (row 2 (handle memory marks (put_password (some new_password)) of_ann both).1 ≡ row 2 both)
unfolding get_current_user_id arcana_cloud_go.Security.access_claims
own_row_only_example =
    own_row_only memory marks itself memory-IsDb 2 (some new_name) (some new_password) of_ann both
      refl

-- The header of ann's access token, and one of her refresh token.
logout_keeps_session_example :
    let post = λ (route : AuthRoute) (authorization : String).
      serve_auth memory two_tokens provider marks
        (λ n. "43200")
        "q1"
        (30 * second)
        "u2"
        route
        (post_request authorization "" "")
        tables in
    let out = post post_logout "Bearer a" in
    let all = post post_logout_all "Bearer a" in
    let spent = post post_logout "Bearer r1" in
    ((out.0.status ≡ 200) × (first (usable "r1") out.1.tokens ≡ some stored))
    × ((all.0.status ≡ 200) × (first (usable "r1") all.1.tokens ≡ some stored))
    × ((spent.0.status ≡ 200) × (first (usable "r1") spent.1.tokens ≡ none))
unfolding after_prefix
logout_keeps_session_example =
    logout_keeps_session memory two_tokens provider marks itself memory-IsDb (λ n. "43200") "q1"
      "u2" (30 * second) "Bearer a" "Bearer r1" "" "" "a" "r1" stored tables refl refl refl refl
