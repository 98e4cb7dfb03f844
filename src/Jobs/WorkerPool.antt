-- ===== src/Jobs/WorkerPool.antt =====
-- internal/jobs/worker/pool.go: what one worker does at one tick, and the life of the pool. The pool
-- uses the queue and the lock manager through their methods, so both are records of operations here;
-- they, the handlers and all else that they reach share the state `outside`.
pub mod Counts
pub mod Balance
pub mod Interface
use arcana_cloud_go.Base.{
  ℕ, ◌+◌, ◌-◌, String, Bool, true, false, not, ◌&&◌, ◌||◌, Option, none, some, List, [], ◌∷◌, ltb,
  if◌then◌else◌,
}
use arcana_cloud_go.Base.Int.{ℤ, pos, negsuc, ◌+ℤ◌}
use arcana_cloud_go.Jobs.Exec.{Err, lock_not_acquired, Exec, Result, ok, err, pure, ◌>>=◌, ◌>>◌}
use arcana_cloud_go.Jobs.Job.{JobPayload, Priority, pending}
use arcana_cloud_go.Jobs.RedisQueue.{is_empty}
use arcana_cloud_go.Jobs.Metrics.{
  Metrics, record_job_started, record_job_completed, record_job_failed,
}

-- Of jobs.Queue, what a worker calls.
pub record Queue (S : Type 0) : Type 0 where
  pub dequeue : Exec S JobPayload
  pub update_job : JobPayload → Exec S (Unit {0})
  pub complete : String → Exec S (Unit {0})
  pub fail : String → String → Exec S (Unit {0})
  pub requeue_job : String → Priority → Exec S (Unit {0})

-- Of lock.LockManager, what a worker calls.
pub record Locks (S L : Type 0) : Type 0 where
  pub acquire_lock : String → Exec S L
  pub release_lock : L → Exec S (Unit {0})
  pub check_idempotency : String → Exec S Bool
  pub mark_completed : String → String → Exec S (Unit {0})

-- A handler may do anything; `none` is a nil error.
abbrev pub JobHandler : Type 0 → Type 0
JobHandler S = String → S → Option String × S

pub record WorkerPoolConfig : Type 0 where
  pub concurrency : ℕ
  pub poll_interval : ℕ
  pub shutdown_timeout : ℕ
  pub enable_locking : Bool
  pub enable_idempotency : Bool
  pub stale_job_cleanup : ℕ
  pub stale_job_threshold : ℕ

unfoldable pub default_worker_pool_config : WorkerPoolConfig
default_worker_pool_config = record {
  concurrency = 8;
  poll_interval = 100_000_000;
  shutdown_timeout = 30_000_000_000;
  enable_locking = true;
  enable_idempotency = true;
  stale_job_cleanup = 60_000_000_000;
  stale_job_threshold = 600_000_000_000;
}

pub record WorkerPool (S : Type 0) : Type 0 where
  pub active_workers : ℤ
  pub processed_jobs : ℕ
  pub failed_jobs : ℕ
  pub skipped_jobs : ℕ
  pub metrics : Metrics
  pub outside : S

abbrev pub at : {S : Type 0} → WorkerPool S → S → WorkerPool S
at p s = record p { outside = s }

abbrev pub skipped : {S : Type 0} → WorkerPool S → WorkerPool S
skipped p = record p { skipped_jobs = p.skipped_jobs + 1 }

-- The lock that `acquireLock` returns, which is nil without locking, or acquired=false.
pub data Acquired (L : Type 0) : Type 0 where
  no_locking : Acquired L
  locked : L → Acquired L
  not_acquired : Acquired L

module _ {S L : Type 0} (config : WorkerPoolConfig) (q : Queue S) (lm : Option (Locks S L))
    (handlers : String → Option (JobHandler S)) where
  idempotency_checked : JobPayload → Result Err Bool → WorkerPool S → Bool × WorkerPool S
  idempotency_checked job (err e) p = (false, p)
  idempotency_checked job (ok false) p = (false, p)
  idempotency_checked job (ok true) p = (true, skipped (at p (q.complete job.id p.outside).1))

  idempotency_with : Option (Locks S L) → JobPayload → WorkerPool S → Bool × WorkerPool S
  unfolding idempotency_checked
  idempotency_with none job p = (false, p)
  idempotency_with (some l) job p =
      let (completed, s) = l.check_idempotency job.unique_key p.outside in
      if not config.enable_idempotency || is_empty job.unique_key
      then (false, p)
      else idempotency_checked job completed (at p s)

  -- `checkIdempotency` of the pool: whether the job is to be skipped.
  unfoldable pub should_skip : JobPayload → WorkerPool S → Bool × WorkerPool S
  unfolding idempotency_with
  should_skip job p = idempotency_with lm job p

  -- `requeueJob`; a job that was dequeued has at least one attempt.
  unfoldable pub requeue : JobPayload → Exec S (Unit {0})
  requeue job = do
    q.update_job (record job { status = pending; started_at = none; attempts = job.attempts - 1 })
    q.requeue_job job.id job.priority

  lock_answered : JobPayload → Result Err L → WorkerPool S → Acquired L × WorkerPool S
  lock_answered job (ok l) p = (locked l, p)
  lock_answered job (err lock_not_acquired) p =
      (not_acquired, skipped (at p (requeue job p.outside).1))
  lock_answered job (err e) p = (not_acquired, skipped p)

  lock_with : Option (Locks S L) → JobPayload → WorkerPool S → Acquired L × WorkerPool S
  unfolding lock_answered
  lock_with none job p = (no_locking, p)
  lock_with (some l) job p =
      let (answer, s) = l.acquire_lock job.id p.outside in
      if config.enable_locking then lock_answered job answer (at p s) else (no_locking, p)

  -- `acquireLock` of the pool
  unfoldable pub acquire : JobPayload → WorkerPool S → Acquired L × WorkerPool S
  unfolding lock_with
  acquire job p = lock_with lm job p

  mark : Option (Locks S L) → JobPayload → S → S
  mark none job s = s
  mark (some l) job s =
      if config.enable_idempotency && not (is_empty job.unique_key)
      then (l.mark_completed job.unique_key job.id s).1
      else s

  handled : ℕ → JobPayload → Option String → WorkerPool S → WorkerPool S
  unfolding mark
  handled duration job (some e) p = record p {
    failed_jobs = p.failed_jobs + 1;
    metrics = record_job_failed (ltb job.attempts job.max_retries) p.metrics;
    outside = (q.fail job.id e p.outside).1;
  }
  handled duration job none p = record p {
    processed_jobs = p.processed_jobs + 1;
    metrics = record_job_completed duration p.metrics;
    outside = mark lm job (q.complete job.id p.outside).1;
  }

  -- `executeJob`, by how long the handler takes.
  unfoldable pub execute_job : ℕ → JobPayload → JobHandler S → WorkerPool S → WorkerPool S
  unfolding handled
  execute_job duration job handler p =
      let (error, s) = handler job.payload p.outside in handled duration job error (at p s)

  run_handler : ℕ → JobPayload → Option (JobHandler S) → WorkerPool S → WorkerPool S
  unfolding execute_job
  run_handler duration job none p = record p {
    failed_jobs = p.failed_jobs + 1;
    metrics = record_job_failed false p.metrics;
    outside = (q.fail job.id "no handler for job type" p.outside).1;
  }
  run_handler duration job (some handler) p = execute_job duration job handler p

  -- From `activeWorkers.Add(1)` to the deferred `Add(-1)`.
  unfoldable pub work : ℕ → JobPayload → WorkerPool S → WorkerPool S
  unfolding run_handler
  work duration job p =
      let begun = record p {
        active_workers = p.active_workers +ℤ pos 1;
        metrics = record_job_started p.metrics;
      } in
      let done = run_handler duration job (handlers job.job_type) begun in
      record done { active_workers = done.active_workers +ℤ negsuc 0 }

  release : Option (Locks S L) → L → WorkerPool S → WorkerPool S
  release none lock p = p
  release (some l) lock p = at p (l.release_lock lock p.outside).1

  -- Work under the lock; the deferred release comes last.
  under_lock : ℕ → JobPayload → Acquired L → WorkerPool S → WorkerPool S
  unfolding work release
  under_lock duration job not_acquired p = p
  under_lock duration job no_locking p = work duration job p
  under_lock duration job (locked lock) p = release lm lock (work duration job p)

  unless_skipped : ℕ → JobPayload → Bool → WorkerPool S → WorkerPool S
  unfolding acquire under_lock
  unless_skipped duration job true p = p
  unless_skipped duration job false p =
      let (lock, p') = acquire job p in under_lock duration job lock p'

  dequeued : ℕ → Result Err JobPayload → WorkerPool S → WorkerPool S
  unfolding should_skip unless_skipped
  dequeued duration (err e) p = p
  dequeued duration (ok job) p =
      let (skip, p') = should_skip job p in unless_skipped duration job skip p'

  -- `processNextJob`
  unfoldable pub process_next_job : ℕ → WorkerPool S → WorkerPool S
  unfolding dequeued
  process_next_job duration p = let (job, s) = q.dequeue p.outside in dequeued duration job (at p s)
