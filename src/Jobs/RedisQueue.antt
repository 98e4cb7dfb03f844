-- ===== src/Jobs/RedisQueue.antt =====
-- internal/jobs/queue/redis_queue.go. A method takes the server's state and returns the new one beside
-- its result. The clock's reading and new UUIDs are arguments; so is the JSON codec.
pub mod Enqueue
pub mod Dequeue
pub mod Fail
pub mod Release
use arcana_cloud_go.Base.{
  ℕ, ◌+◌, ◌-◌, ◌/◌, String, Bool, true, false, not, Option, none, some, List, [], ◌∷◌, ltb, str_eq,
  if◌then◌else◌,
}
use arcana_cloud_go.Base.Int.{ℤ, pos, negsuc}
use arcana_cloud_go.Jobs.Exec.{
  Err, job_not_found, duplicate_job, queue_empty, not_serialized, not_deserialized, unavailable,
  Result, ok, err, Exec, pure, raise, try, ignore, or_raise, when, ◌>>=◌, ◌>>◌,
}
use arcana_cloud_go.Jobs.Job.{
  JobPayload, Priority, low, normal, high, critical, pending, running, completed, retrying, dead,
  Scale, calculate_delay, second, day,
}
use arcana_cloud_go.Jobs.Redis.{
  Redis, Value, blob, plain, stamped, Key, queue, job, scheduled, unique, dlq, stats,
}

-- json.Marshal and json.Unmarshal of a job.
pub record Codec (D : Type 0) : Type 0 where
  pub marshal : JobPayload → Option D
  pub unmarshal : D → Option JobPayload

abbrev pub unix : ℕ → ℕ
unix t = t / second

abbrev pub is_empty : String → Bool
is_empty s = str_eq s ""

abbrev pub all_priorities : List Priority
all_priorities = critical ∷ high ∷ normal ∷ low ∷ []

-- job.Status = Running; job.StartedAt = &now; job.Attempts++
abbrev pub started : ℕ → JobPayload → JobPayload
started now j = record j { status = running; started_at = some now; attempts = j.attempts + 1 }

module _ {D : Type 0} (r : Redis D) (codec : Codec D) where
  pub check_duplicate : String → Exec r.State (Unit {0})
  check_duplicate unique_key = do
    exists ← try (r.exists (unique unique_key))
    if exists then raise duplicate_job else pure tt

  enqueue_at : Option ℕ → ℕ → JobPayload → Exec r.State (Unit {0})
  enqueue_at none now j = try (r.lpush (queue j.priority) j.id)
  enqueue_at (some t) now j =
      if ltb now t
      then try (r.zadd scheduled (unix t) j.id)
      else try (r.lpush (queue j.priority) j.id)

  unfoldable pub schedule_or_enqueue : ℕ → JobPayload → Exec r.State (Unit {0})
  unfolding enqueue_at
  schedule_or_enqueue now j = enqueue_at j.scheduled_at now j

  -- time.Until(at) + 24h; a key that must already have expired is not modelled, so the sum is cut at 0.
  pub unique_ttl : Option ℕ → ℕ → ℕ
  unique_ttl none now = day
  unique_ttl (some t) now = t + day - now

  unfoldable pub set_unique_key : ℕ → JobPayload → Exec r.State (Unit {0})
  unfolding unique_ttl
  set_unique_key now j =
      try (r.set (unique j.unique_key) (plain j.id) (unique_ttl j.scheduled_at now))

  pub store : JobPayload → Exec r.State (Unit {0})
  store j = do
    bytes ← or_raise (codec.marshal j) not_serialized
    try (r.set (job j.id) (blob bytes) day)

  unfoldable pub enqueue : ℕ → JobPayload → Exec r.State (Unit {0})
  unfolding check_duplicate schedule_or_enqueue set_unique_key store
  enqueue now j = do
    when (not (is_empty j.unique_key)) (check_duplicate j.unique_key)
    store j
    schedule_or_enqueue now j
    when (not (is_empty j.unique_key)) (set_unique_key now j)
    ignore (r.hincrby stats "enqueued_total" (pos 1))
    ignore (r.hincrby stats "pending" (pos 1))

  decode : Option (Value D) → Exec r.State JobPayload
  decode none = raise job_not_found
  decode (some (blob bytes)) = or_raise (codec.unmarshal bytes) not_deserialized
  decode (some (plain s)) = raise not_deserialized
  decode (some (stamped w t)) = raise not_deserialized

  unfoldable pub get_job : String → Exec r.State JobPayload
  unfolding decode
  get_job id = do found ← try (r.get (job id)); decode found

  unfoldable pub update_job : JobPayload → Exec r.State (Unit {0})
  unfolding store
  update_job j = store j

  -- The part of the loop body after the job was read.
  pub take_job : ℕ → JobPayload → Exec r.State JobPayload
  unfolding update_job
  take_job now j = do
    update_job (started now j)
    ignore (r.hincrby stats "pending" (negsuc 0))
    pure (started now j)

  -- A job that cannot be read is skipped, and so is the rest of its queue.
  read_or_skip : ℕ → Exec r.State JobPayload → Result Err JobPayload → Exec r.State JobPayload
  unfolding take_job
  read_or_skip now go_on (ok j) s = take_job now j s
  read_or_skip now go_on (err e) s = go_on s

  pop_or_skip : ℕ → Exec r.State JobPayload → Option (Option String) → Exec r.State JobPayload
  unfolding get_job read_or_skip
  pop_or_skip now go_on none s = (err unavailable, s)
  pop_or_skip now go_on (some none) s = go_on s
  pop_or_skip now go_on (some (some id)) s =
      let (found, s') = get_job id s in read_or_skip now go_on found s'

  unfoldable pub dequeue_from : ℕ → List Priority → Exec r.State JobPayload
  unfolding pop_or_skip
  dequeue_from now [] s = (err queue_empty, s)
  dequeue_from now (p ∷ ps) s =
      let (popped, s') = r.rpop (queue p) s in pop_or_skip now (dequeue_from now ps) popped s'

  -- No priorities means all of them.
  unfoldable pub dequeue : ℕ → List Priority → Exec r.State JobPayload
  unfolding dequeue_from
  dequeue now [] = dequeue_from now all_priorities
  dequeue now (p ∷ ps) = dequeue_from now (p ∷ ps)

  pub delete_unique_key : JobPayload → Exec r.State (Unit {0})
  delete_unique_key j = when (not (is_empty j.unique_key)) (ignore (r.del (unique j.unique_key)))

  unfoldable pub complete : ℕ → String → Exec r.State (Unit {0})
  unfolding get_job update_job delete_unique_key
  complete now id = do
    j ← get_job id
    update_job (record j { status = completed; completed_at = some now })
    delete_unique_key j
    ignore (r.hincrby stats "completed_total" (pos 1))

  module _ (scale : Scale) where
    -- A failure with attempts left: back to the scheduled set, after the policy's delay.
    pub retry_later : ℕ → JobPayload → Exec r.State (Unit {0})
    unfolding update_job
    retry_later now j = do
      let at = now + calculate_delay scale j.retry_policy j.attempts
      update_job (record j { status = retrying; scheduled_at = some at })
      try (r.zadd scheduled (unix at) j.id)
      ignore (r.hincrby stats "retries_total" (pos 1))

    pub bury : JobPayload → Exec r.State (Unit {0})
    unfolding update_job delete_unique_key
    bury j = do
      update_job (record j { status = dead })
      try (r.lpush dlq j.id)
      delete_unique_key j
      ignore (r.hincrby stats "dead_total" (pos 1))

    unfoldable pub fail : ℕ → String → String → Exec r.State (Unit {0})
    unfolding get_job retry_later bury
    fail now id message = do
      j ← get_job id
      let failed_job = record j { last_error = message }
      if ltb j.attempts j.max_retries then retry_later now failed_job else bury failed_job
      ignore (r.hincrby stats "failed_total" (pos 1))

  -- The loop body of `ProcessScheduled`; an error leads to the next id.
  pub release_due : String → Exec r.State (Unit {0})
  unfolding get_job update_job
  release_due id = do
    j ← get_job id
    try (r.zrem scheduled id)
    update_job (record j { scheduled_at = none; status = pending })
    try (r.lpush (queue j.priority) j.id)

  count_ok : Result Err (Unit {0}) → ℕ → ℕ
  count_ok (ok _) n = n + 1
  count_ok (err e) n = n

  release_all : List String → ℕ → Exec r.State ℕ
  unfolding release_due count_ok
  release_all [] processed s = (ok processed, s)
  release_all (id ∷ ids) processed s =
      let (result, s') = release_due id s in release_all ids (count_ok result processed) s'

  unfoldable pub process_scheduled : ℕ → Exec r.State ℕ
  unfolding release_all
  process_scheduled now = do ids ← try (r.zrange_by_score scheduled (unix now)); release_all ids 0

  -- `RetryDLQJob`; the new id is a fresh UUID.
  unfoldable pub retry_dlq_job : ℕ → String → String → Exec r.State (Unit {0})
  unfolding get_job enqueue
  retry_dlq_job now uuid id = do
    j ← get_job id
    try (r.lrem_first dlq id)
    enqueue now (record j { status = pending; attempts = 0; last_error = ""; id = uuid })

  unfoldable pub delete_job : String → Exec r.State (Unit {0})
  unfolding get_job delete_unique_key
  delete_job id = do
    j ← get_job id
    ignore (r.del (job id))
    ignore (r.lrem_all (queue j.priority) id)
    ignore (r.zrem scheduled id)
    ignore (r.lrem_all dlq id)
    delete_unique_key j

  unfoldable pub requeue_job : String → Priority → Exec r.State (Unit {0})
  requeue_job id p = try (r.lpush (queue p) id)
