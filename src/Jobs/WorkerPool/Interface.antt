-- ===== src/Jobs/WorkerPool/Interface.antt =====
-- The worker pool over the real queue, and the jobs that it puts back or loses.
use text.Mathlib.TextPositions.{eq_refl}
use arcana_cloud_go.Base.{
  ℕ, ◌+◌, ◌-◌, ◌≡◌, refl, String, Bool, true, false, ◌||◌, Option, none, some, [], ◌∷◌, arith,
}
use arcana_cloud_go.Jobs.Exec.{unavailable, ok, err}
use arcana_cloud_go.Jobs.Job.{JobPayload, Scale, pending, day}
use arcana_cloud_go.Jobs.Redis.{
  Redis, IsUp, Db, Value, blob, Key, queue, job, put, read, push, same_priority_refl,
}
use arcana_cloud_go.Jobs.RedisQueue.{
  Codec, is_empty, dequeue, update_job, store, complete, fail, requeue_job, started,
}
use arcana_cloud_go.Jobs.RedisQueue.Enqueue.{store_up}
use arcana_cloud_go.Jobs.WorkerPool.{
  Queue, Locks, JobHandler, WorkerPoolConfig, WorkerPool, should_skip, acquire, requeue,
  process_next_job, at, skipped, idempotency_with, lock_with, lock_answered, unless_skipped,
  under_lock, dequeued,
}

-- queue.RedisQueue, as jobs.Queue.
unfoldable pub redis_queue : {D : Type 0} (r : Redis D) → Codec D → Scale → ℕ → Queue r.State
redis_queue r codec scale now = record {
  dequeue = dequeue r codec now [];
  update_job = update_job r codec;
  complete = complete r codec now;
  fail = fail r codec scale now;
  requeue_job = requeue_job r codec;
}

-- The job as it was before it was dequeued, but pending.
abbrev pub put_back : JobPayload → JobPayload
put_back j = record j { status = pending; started_at = none }

or-true : (b : Bool) → (b || true) ≡ true
or-true true = refl
or-true false = refl

read_pushed :
    {D : Type 0} (i : String) (k : Key) (v : Value D) (d : Db D)
    → read (job i) (push k i (put (job i) v day d)) ≡ some v
read_pushed i k v d = ground (arith, eq_refl i)

module _ {D : Type 0} (r : Redis D) (contents : r.State → Db D) (u : IsUp r contents)
    (codec : Codec D) where
  -- On a server that answers, a dequeued job that `requeueJob` puts back is stored with the attempts that
  -- it had before the dequeue, as pending and not started, if it can be serialized, and stands at the
  -- left end of its priority's queue.
  pub requeue_undoes :
      {L : Type 0} (config : WorkerPoolConfig) (lm : Option (Locks r.State L))
      (handlers : String → Option (JobHandler r.State)) (scale : Scale) (now : ℕ) (j : JobPayload)
      (bytes : D) (s : r.State)
      → codec.marshal (put_back j) ≡ some bytes
      → let out = requeue config (redis_queue r codec scale now) lm handlers (started now j) s in
        (out.0 ≡ ok tt)
        × (read (job j.id) (contents out.1) ≡ some (blob bytes))
        × ((contents out.1).lists (queue j.priority) ≡ j.id ∷ (contents s).lists (queue j.priority))
  unfolding requeue redis_queue update_job requeue_job
  requeue_undoes config lm handlers scale now j bytes s m =
      let undone : j.attempts + 1 - 1 ≡ j.attempts = omega arith in
      let (e, c) = store_up r contents u codec (put_back j) s m in
      let last = u.lpush_leaves (queue j.priority) j.id (store r codec (put_back j) s).1 in
      rw undone (
        simp (e, u.lpush_reply),
        simp (e, last, c) (read_pushed j.id (queue j.priority) (blob bytes) (contents s)),
        simp (e, last, c) (rw (same_priority_refl j.priority) refl),
      )

module _ {S L : Type 0} (config : WorkerPoolConfig) (q : Queue S) (l : Locks S L)
    (handlers : String → Option (JobHandler S)) where
  -- With locking on, a job that was dequeued, that has no unique key, and whose lock cannot be asked for
  -- because of an error of Redis, is dropped: after the failed `AcquireLock` the tick touches nothing
  -- outside the pool, so the job is neither completed, failed nor put back, and counts as skipped.
  pub lock_error_drops :
      (duration : ℕ) (p : WorkerPool S) (j : JobPayload)
      → config.enable_locking ≡ true
      → is_empty j.unique_key ≡ true
      → (q.dequeue p.outside).0 ≡ ok j
      → (l.acquire_lock j.id (q.dequeue p.outside).1).0 ≡ err unavailable
      → let p' = process_next_job config q (some l) handlers duration p in
        (p'.outside ≡ (l.acquire_lock j.id (q.dequeue p.outside).1).1)
        × (p'.skipped_jobs ≡ p.skipped_jobs + 1)
        × (p'.processed_jobs ≡ p.processed_jobs)
        × (p'.failed_jobs ≡ p.failed_jobs)
  unfolding process_next_job dequeued should_skip idempotency_with unless_skipped acquire lock_with
      lock_answered under_lock
  lock_error_drops duration p j on no_key got refused =
      let whole : process_next_job config q (some l) handlers duration p
          ≡ skipped (at p (l.acquire_lock j.id (q.dequeue p.outside).1).1) =
        simp (got, no_key, or-true, refused, on) in
      rw whole (refl, refl, refl, refl)
