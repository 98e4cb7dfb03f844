-- ===== src/Http/JobController.antt =====
-- internal/controller/http/job_controller.go, over the job service.
pub mod Admission
pub mod Asked
use arcana_cloud_go.Base.{
  ℕ, suc, ◌+◌, ◌-◌, ◌*◌, ◌%◌, ◌^◌, String, Bool, true, false, not, Option, none, some, List, [],
  ◌∷◌, ◌++◌, ltb, ◌==◌, str_eq, if◌then◌else◌,
}
use arcana_cloud_go.Base.Int.{ℤ, pos, negsuc}
use arcana_cloud_go.Action.{Result, ok, err}
use arcana_cloud_go.Jobs.Job.{
  second, Priority, low, normal, high, critical, JobPayload, JobOption, with_priority,
  with_scheduled_at, with_delay, with_unique_key, with_tags, JobStatus, priority_string,
}
use arcana_cloud_go.Jobs.JobService as Service
use arcana_cloud_go.Jobs.Redis.{Redis}
use arcana_cloud_go.Jobs.RedisQueue.{Codec, is_empty}
use arcana_cloud_go.Security.{Jwt, JwtProvider}
use arcana_cloud_go.Middleware.{Context, authenticate}
use arcana_cloud_go.Http.{ApiResponse, failure, success, by_result, behind}

pub record EnqueueJobRequest : Type 0 where
  pub job_type : String
  pub payload : String
  pub priority : String
  pub scheduled_at : String
  pub delay_seconds : ℤ
  pub unique_key : String
  pub tags : List String

pub record JobResponse : Type 0 where
  pub id : String
  pub job_type : String
  pub priority : String
  pub status : JobStatus
  pub attempts : ℕ
  pub max_retries : ℕ
  pub scheduled_at : Option ℕ
  pub created_at : ℕ
  pub started_at : Option ℕ
  pub completed_at : Option ℕ
  pub last_error : String
  pub correlation_id : String
  pub tags : List String

unfoldable pub to_job_response : JobPayload → JobResponse
to_job_response j = record {
  id = j.id;
  job_type = j.job_type;
  priority = priority_string j.priority;
  status = j.status;
  attempts = j.attempts;
  max_retries = j.max_retries;
  scheduled_at = j.scheduled_at;
  created_at = j.created_at;
  started_at = j.started_at;
  completed_at = j.completed_at;
  last_error = j.last_error;
  correlation_id = j.correlation_id;
  tags = j.tags;
}

-- What a response of these handlers holds.
pub data JobData : Type 0 where
  enqueued : String → JobData
  one_job : JobResponse → JobData

-- The priority of a text in small letters.
unfoldable pub priority_of : String → Priority
priority_of text =
    if str_eq text "low"
    then low
    else if str_eq text "high"
    then high
    else if str_eq text "critical"
    then critical
    else normal

-- time.Duration(n) * time.Second in 64 bits. A delay that wraps below zero lies before `now`.
unfoldable pub delay_option : ℕ → ℤ → List JobOption
delay_option now (pos n) =
    let d = (n * second) % 2 ^ 64 in
    if n == 0
    then []
    else if ltb d (2 ^ 63)
    then with_delay d ∷ []
    else with_scheduled_at (now + d - 2 ^ 64) ∷ []
delay_option now (negsuc n) = []

unfoldable pub key_option : String → List JobOption
key_option key = if is_empty key then [] else with_unique_key key ∷ []

unfoldable pub tags_option : List String → List JobOption
tags_option [] = []
tags_option (t ∷ tags) = with_tags (t ∷ tags) ∷ []

-- `parse_time` is time.Parse with RFC 3339; none is a time that is refused.
unfoldable pub schedule_options :
    (String → Option ℕ) → ℕ → EnqueueJobRequest → Option (List JobOption)
unfolding delay_option
schedule_options parse_time now req =
    if is_empty req.scheduled_at
    then some (delay_option now req.delay_seconds)
    else elim (parse_time req.scheduled_at) [
      | none ↦ none
      | some t ↦ some (with_scheduled_at t ∷ [])
    ]

-- What the controller uses of the standard library: strings.ToLower, time.Parse, and the payload that is
-- read by encoding/json and written again by the service.
pub record Texts : Type 0 where
  pub to_lower : String → String
  pub parse_time : String → Option ℕ
  pub valid_json : String → Bool
  pub marshalled : String → Option String

unfoldable pub options_of : Texts → EnqueueJobRequest → List JobOption → List JobOption
unfolding priority_of key_option tags_option
options_of texts req schedule =
    with_priority (priority_of (texts.to_lower req.priority)) ∷ schedule
    ++ key_option req.unique_key
    ++ tags_option req.tags

-- The routes behind Authenticate that these handlers serve.
pub data Route : Type 0 where
  post_job : Option EnqueueJobRequest → Route
  get_one : String → Route
  delete_one : String → Route
  post_retry : String → Route
  post_dlq_retry : String → Route

module _ {D : Type 0} (r : Redis D) (codec : Codec D) (texts : Texts) where
  abbrev pub Handler : Type 0
  Handler = r.State → ApiResponse JobData × r.State

  unfoldable pub enqueue_with : ℕ → String → EnqueueJobRequest → Option (List JobOption) → Handler
  unfolding options_of
  enqueue_with now uuid req none s = (failure 400 "invalid scheduled_at format, use RFC3339", s)
  enqueue_with now uuid req (some schedule) s =
      if not (texts.valid_json req.payload)
      then (failure 400 "invalid payload JSON", s)
      else by_result (failure 500 "failed to enqueue job")
          (λ id. success 201 "Job enqueued" (some (enqueued id)))
          (Service.enqueue r codec now uuid req.job_type (texts.marshalled req.payload)
            (options_of texts req schedule) s)

  -- `none` is a body that the binding refuses.
  unfoldable pub enqueue_job : ℕ → String → Option EnqueueJobRequest → Handler
  unfolding enqueue_with schedule_options
  enqueue_job now uuid none s = (failure 400 "validation failed", s)
  enqueue_job now uuid (some req) s =
      enqueue_with now uuid req (schedule_options texts.parse_time now req) s

  -- An id is required.
  abbrev pub with_id : String → Handler → Handler
  with_id id handler s = if is_empty id then (failure 400 "job ID required", s) else handler s

  unfoldable pub get_job : String → Handler
  unfolding to_job_response
  get_job id = with_id id (λ s.
      by_result (failure 404 "job not found")
        (λ j. success 200 "" (some (one_job (to_job_response j)))) (Service.get_job r codec id s))

  unfoldable pub cancel_job : String → Handler
  cancel_job id = with_id id (λ s.
      by_result (failure 500 "failed to cancel job") (λ u. success 200 "Job cancelled" none)
        (Service.cancel_job r codec id s))

  unfoldable pub retry_job : ℕ → String → Handler
  retry_job now id = with_id id (λ s.
      by_result (failure 500 "failed to retry job") (λ u. success 200 "Job retry initiated" none)
        (Service.retry_job r codec now id s))

  unfoldable pub retry_dlq_job : ℕ → String → String → Handler
  retry_dlq_job now uuid id = with_id id (λ s.
      by_result (failure 500 "failed to retry DLQ job")
        (λ u. success 200 "DLQ job retry initiated" none)
        (Service.retry_dlq_job r codec now uuid id s))

  unfoldable pub handle : ℕ → String → Route → Handler
  unfolding enqueue_job get_job cancel_job retry_job retry_dlq_job
  handle now uuid (post_job req) = enqueue_job now uuid req
  handle now uuid (get_one id) = get_job id
  handle now uuid (delete_one id) = cancel_job id
  handle now uuid (post_retry id) = retry_job now id
  handle now uuid (post_dlq_retry id) = retry_dlq_job now uuid id

  unfoldable pub serve : Jwt → JwtProvider → ℕ → String → Context → Route → Handler
  unfolding handle
  serve jwt p now uuid c route = behind (authenticate jwt p now c) (λ passed. handle now uuid route)
