-- ===== src/Jobs/Job.antt =====
-- internal/jobs/job.go: priorities, the payload of a job and its retry policy. Times and durations are
-- nanoseconds. A float64 is kept as its bit pattern, and the arithmetic on it is an argument.
pub mod Delay
use arcana_cloud_go.Base.{
  ℕ, ◌+◌, ◌*◌, ◌/◌, ◌≤◌, ◌≡◌, String, Bool, false, true, Option, none, some, List, [], ◌∷◌, ◌++◌,
  ltb, if◌then◌else◌, arith,
}

-- Any other `Priority` prints as "unknown".
pub data Priority : Type 0 where
  low normal high critical unknown : Priority

unfoldable pub priority_string : Priority → String
priority_string low = "low"
priority_string normal = "normal"
priority_string high = "high"
priority_string critical = "critical"
priority_string unknown = "unknown"

pub data JobStatus : Type 0 where
  pending running completed failed retrying dead : JobStatus

pub data RetryStrategy : Type 0 where
  exponential linear fixed : RetryStrategy
  other : String → RetryStrategy

pub record RetryPolicy : Type 0 where
  pub max_retries : ℕ
  pub strategy : RetryStrategy
  pub initial_delay : ℕ
  pub max_delay : ℕ
  pub multiplier : ℕ  -- the bits of a float64
  pub jitter_enabled : Bool

abbrev pub second : ℕ
second = 1_000_000_000

abbrev pub minute : ℕ
minute = 60_000_000_000

abbrev pub day : ℕ
day = 86_400_000_000_000

-- 2.0 is 0x4000000000000000.
unfoldable pub default_retry_policy : RetryPolicy
default_retry_policy = record {
  max_retries = 3;
  strategy = exponential;
  initial_delay = second;
  max_delay = 5 * minute;
  multiplier = 0x4000000000000000;
  jitter_enabled = true;
}

-- time.Duration(float64(initial) * pow(multiplier, float64(attempt-1))), by the initial delay, the
-- multiplier and the attempt.
abbrev pub Scale : Type 0
Scale = ℕ → ℕ → ℕ → ℕ

unfoldable pub raw_delay : Scale → RetryPolicy → RetryStrategy → ℕ → ℕ
raw_delay scale p exponential attempt = scale p.initial_delay p.multiplier attempt
raw_delay scale p linear attempt = p.initial_delay * attempt
raw_delay scale p fixed attempt = p.initial_delay
raw_delay scale p (other name) attempt = p.initial_delay

unfoldable pub calculate_delay : Scale → RetryPolicy → ℕ → ℕ
unfolding raw_delay
calculate_delay scale p attempt =
    let delay = raw_delay scale p p.strategy attempt in
    if ltb p.max_delay delay then p.max_delay else delay

pub record JobPayload : Type 0 where
  pub id : String
  pub job_type : String
  pub payload : String
  pub priority : Priority
  pub status : JobStatus
  pub attempts : ℕ
  pub max_retries : ℕ
  pub retry_policy : RetryPolicy
  pub timeout : ℕ
  pub scheduled_at : Option ℕ
  pub created_at : ℕ
  pub started_at : Option ℕ
  pub completed_at : Option ℕ
  pub last_error : String
  pub correlation_id : String
  pub unique_key : String
  pub tags : List String

-- The functional options.
pub data JobOption : Type 0 where
  with_priority : Priority → JobOption
  with_retry_policy : RetryPolicy → JobOption
  with_timeout : ℕ → JobOption
  with_scheduled_at : ℕ → JobOption
  with_delay : ℕ → JobOption
  with_correlation_id : String → JobOption
  with_unique_key : String → JobOption
  with_tags : List String → JobOption

unfoldable pub apply_option : ℕ → JobOption → JobPayload → JobPayload
apply_option now (with_priority p) jp = record jp { priority = p }
apply_option now (with_retry_policy p) jp = record jp {
  retry_policy = p;
  max_retries = p.max_retries;
}
apply_option now (with_timeout d) jp = record jp { timeout = d }
apply_option now (with_scheduled_at t) jp = record jp { scheduled_at = some t }
apply_option now (with_delay d) jp = record jp { scheduled_at = some (now + d) }
apply_option now (with_correlation_id c) jp = record jp { correlation_id = c }
apply_option now (with_unique_key k) jp = record jp { unique_key = k }
apply_option now (with_tags ts) jp = record jp { tags = jp.tags ++ ts }

unfoldable pub apply_options : ℕ → List JobOption → JobPayload → JobPayload
unfolding apply_option
apply_options now [] jp = jp
apply_options now (o ∷ os) jp = apply_options now os (apply_option now o jp)

-- `NewJobPayload`, after the payload was marshalled; the id is a new UUID.
unfoldable pub new_job_payload : ℕ → String → String → String → List JobOption → JobPayload
unfolding apply_options default_retry_policy
new_job_payload now uuid job_type bytes opts = apply_options now opts (record {
  id = uuid;
  job_type = job_type;
  payload = bytes;
  priority = normal;
  status = pending;
  attempts = 0;
  max_retries = 3;
  retry_policy = default_retry_policy;
  timeout = 5 * minute;
  scheduled_at = none;
  created_at = now;
  started_at = none;
  completed_at = none;
  last_error = "";
  correlation_id = "";
  unique_key = "";
  tags = [];
})
