-- ===== src/Jobs/JobService.antt =====
-- internal/jobs/job_service.go, over the queue of this library. The clock, new UUIDs and the marshalled
-- payload are arguments.
pub mod Retries
use arcana_cloud_go.Base.{ℕ, String, Option, none, some, List, [], ◌∷◌, ◌++◌}
use arcana_cloud_go.Jobs.Exec.{Exec, pure, or_raise, not_serialized, ◌>>=◌, ◌>>◌}
use arcana_cloud_go.Jobs.Job.{
  JobPayload, JobOption, pending, new_job_payload, with_scheduled_at, with_delay,
}
use arcana_cloud_go.Jobs.Redis.{Redis}
use arcana_cloud_go.Jobs.RedisQueue
use arcana_cloud_go.Jobs.RedisQueue.{Codec}

-- What `RetryJob` resets.
abbrev pub afresh : JobPayload → JobPayload
afresh j = record j { status = pending; attempts = 0; last_error = ""; scheduled_at = none }

module _ {D : Type 0} (r : Redis D) (codec : Codec D) where
  unfoldable pub enqueue :
      ℕ → String → String → Option String → List JobOption → Exec r.State String
  enqueue now uuid job_type payload opts = do
    bytes ← or_raise payload not_serialized
    RedisQueue.enqueue r codec now (new_job_payload now uuid job_type bytes opts)
    pure (new_job_payload now uuid job_type bytes opts).id

  unfoldable pub enqueue_at :
      ℕ → String → String → Option String → ℕ → List JobOption → Exec r.State String
  unfolding enqueue
  enqueue_at now uuid job_type payload at opts =
      enqueue now uuid job_type payload (opts ++ with_scheduled_at at ∷ [])

  unfoldable pub enqueue_in :
      ℕ → String → String → Option String → ℕ → List JobOption → Exec r.State String
  unfolding enqueue
  enqueue_in now uuid job_type payload delay opts =
      enqueue now uuid job_type payload (opts ++ with_delay delay ∷ [])

  unfoldable pub get_job : String → Exec r.State JobPayload
  get_job id = RedisQueue.get_job r codec id

  unfoldable pub cancel_job : String → Exec r.State (Unit {0})
  cancel_job id = RedisQueue.delete_job r codec id

  unfoldable pub retry_job : ℕ → String → Exec r.State (Unit {0})
  retry_job now id = do j ← RedisQueue.get_job r codec id; RedisQueue.enqueue r codec now (afresh j)

  unfoldable pub retry_dlq_job : ℕ → String → String → Exec r.State (Unit {0})
  retry_dlq_job now uuid id = RedisQueue.retry_dlq_job r codec now uuid id
