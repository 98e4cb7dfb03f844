-- ===== src/Jobs/Exec.antt =====
-- The errors of internal/jobs, and its methods as actions that raise them.
use arcana_cloud_go.Action.{Action, Command, try_or}
pub use arcana_cloud_go.Action.{
  Command, Result, ok, err, pure, raise, ignore, attempt, or_raise, ◌>>=◌, ◌>>◌, when,
}

-- The errors that callers tell apart; `unavailable` is any error of the Redis client, wrapped or not.
pub data Err : Type 0 where
  job_not_found duplicate_job queue_empty not_serialized not_deserialized unavailable : Err
  lock_not_acquired : Err

abbrev pub Exec : Type 0 → Type 0 → Type 0
Exec S A = Action Err S A

abbrev pub try : {S A : Type 0} → Command S A → Exec S A
try c = try_or unavailable c
