-- ===== src/Jobs/WorkerPool/Balance.antt =====
-- What a tick does to the counters, whatever the queue, the locks and the handlers answer.
use arcana_cloud_go.Base.{
  ℕ, refl, ◌∙◌, String, Bool, true, false, not, ◌||◌, Option, none, some, arith, inl, inr,
}
use arcana_cloud_go.Base.Int.{pos, ◌+ℤ◌}
use arcana_cloud_go.Jobs.Exec.{Err, lock_not_acquired, Result, ok, err}
use arcana_cloud_go.Jobs.Job.{JobPayload}
use arcana_cloud_go.Jobs.RedisQueue.{is_empty}
use arcana_cloud_go.Jobs.Metrics.{record_job_started, record_job_completed, record_job_failed}
use arcana_cloud_go.Jobs.WorkerPool.{
  Queue, Locks, JobHandler, WorkerPoolConfig, WorkerPool, Acquired, no_locking, locked,
  not_acquired, should_skip, acquire, work, process_next_job, at, idempotency_with,
  idempotency_checked, lock_with, lock_answered, handled, execute_job, run_handler, release,
  under_lock, unless_skipped, dequeued,
}
use arcana_cloud_go.Jobs.WorkerPool.Counts.{
  up_down, Balanced, if_dequeued, if_skipped, if_refused, Result-cases, Balanced-refl,
  Balanced-trans, if-Balanced, Balanced-at, Balanced-at_start, one_skipped, Settled,
}

module _ {S L : Type 0} (config : WorkerPoolConfig) (q : Queue S) (lm : Option (Locks S L))
    (handlers : String → Option (JobHandler S)) where
  handled-Settled :
      (duration : ℕ) (job : JobPayload) (e : Option String) (p : WorkerPool S)
      → Settled p (handled config q lm handlers duration job e p)
  unfolding handled record_job_failed record_job_completed
  handled-Settled duration job (some e) p = record {
    finished_more = omega arith;
    same_active = refl;
    less_running = refl;
    less_workers = refl;
  }
  handled-Settled duration job none p = record {
    finished_more = omega arith;
    same_active = refl;
    less_running = refl;
    less_workers = refl;
  }

  run_handler-Settled :
      (duration : ℕ) (job : JobPayload) (h : Option (JobHandler S)) (p : WorkerPool S)
      → Settled p (run_handler config q lm handlers duration job h p)
  unfolding run_handler execute_job record_job_failed
  run_handler-Settled duration job none p = record {
    finished_more = omega arith;
    same_active = refl;
    less_running = refl;
    less_workers = refl;
  }
  run_handler-Settled duration job (some h) p =
      let (error, s) = h job.payload p.outside in
      let b = handled-Settled duration job error (at p s) in
      record {
        finished_more = b.finished_more;
        same_active = b.same_active;
        less_running = b.less_running;
        less_workers = b.less_workers;
      }

  work-Balanced :
      (duration : ℕ) (job : JobPayload) (p : WorkerPool S)
      → Balanced 1 p (work config q lm handlers duration job p)
  unfolding work record_job_started
  work-Balanced duration job p =
      let begun = record p {
        active_workers = p.active_workers +ℤ pos 1;
        metrics = record_job_started p.metrics;
      } in
      let b = run_handler-Settled duration job (handlers job.job_type) begun in
      record {
        finished_more = b.finished_more;
        same_active = rw b.same_active (up_down p.active_workers);
        same_running = b.less_running ∙ up_down p.metrics.jobs_running;
        same_workers = b.less_workers ∙ up_down p.metrics.workers_active;
      }

  release-Balanced :
      (o : Option (Locks S L)) (lock : L) (n : ℕ) (p p' : WorkerPool S)
      → Balanced n p p'
      → Balanced n p (release config q lm handlers o lock p')
  unfolding release
  release-Balanced none lock n p p' b = b
  release-Balanced (some l) lock n p p' b = Balanced-at n p p' (l.release_lock lock p'.outside).1 b

  under_lock-Balanced :
      (duration : ℕ) (job : JobPayload) (lock : Acquired L) (p p' : WorkerPool S)
      → Balanced (if_refused lock) p p'
      → Balanced 1 p (under_lock config q lm handlers duration job lock p')
  unfolding under_lock
  under_lock-Balanced duration job not_acquired p p' b = b
  under_lock-Balanced duration job no_locking p p' b =
      Balanced-trans 1 p p' (work config q lm handlers duration job p') b
        (work-Balanced duration job p')
  under_lock-Balanced duration job (locked lock) p p' b =
      let worked = work config q lm handlers duration job p' in
      release-Balanced lm lock 1 p worked
        (Balanced-trans 1 p p' worked b (work-Balanced duration job p'))

  lock_answered-Balanced :
      (job : JobPayload) (answer : Result Err L) (p : WorkerPool S)
      → let out = lock_answered config q lm handlers job answer p in
        Balanced (if_refused out.0) p out.1
  unfolding lock_answered
  lock_answered-Balanced job (ok l) p = Balanced-refl p
  lock_answered-Balanced job (err lock_not_acquired) p = one_skipped p _
  lock_answered-Balanced job (err e) p = one_skipped p p.outside

  lock_with-Balanced :
      (o : Option (Locks S L)) (job : JobPayload) (p : WorkerPool S)
      → let out = lock_with config q lm handlers o job p in Balanced (if_refused out.0) p out.1
  unfolding lock_with
  lock_with-Balanced none job p = Balanced-refl p
  lock_with-Balanced (some l) job p =
      let (answer, s) = l.acquire_lock job.id p.outside in
      let out = lock_answered config q lm handlers job answer (at p s) in
      if-Balanced if_refused config.enable_locking p out (no_locking, p)
        (Balanced-at_start (if_refused out.0) p out.1 s
          (lock_answered-Balanced job answer (at p s)))
        (Balanced-refl p)

  idempotency_checked-Balanced :
      (job : JobPayload) (answer : Result Err Bool) (p : WorkerPool S)
      → let out = idempotency_checked config q lm handlers job answer p in
        Balanced (if_skipped out.0) p out.1
  unfolding idempotency_checked
  idempotency_checked-Balanced job (err e) p = Balanced-refl p
  idempotency_checked-Balanced job (ok false) p = Balanced-refl p
  idempotency_checked-Balanced job (ok true) p = one_skipped p _

  idempotency_with-Balanced :
      (o : Option (Locks S L)) (job : JobPayload) (p : WorkerPool S)
      → let out = idempotency_with config q lm handlers o job p in
        Balanced (if_skipped out.0) p out.1
  unfolding idempotency_with
  idempotency_with-Balanced none job p = Balanced-refl p
  idempotency_with-Balanced (some l) job p =
      let (answer, s) = l.check_idempotency job.unique_key p.outside in
      let out = idempotency_checked config q lm handlers job answer (at p s) in
      if-Balanced if_skipped (not config.enable_idempotency || is_empty job.unique_key) p (false, p)
        out (Balanced-refl p)
        (Balanced-at_start (if_skipped out.0) p out.1 s
          (idempotency_checked-Balanced job answer (at p s)))

  unless_skipped-Balanced :
      (duration : ℕ) (job : JobPayload) (skip : Bool) (p p' : WorkerPool S)
      → Balanced (if_skipped skip) p p'
      → Balanced 1 p (unless_skipped config q lm handlers duration job skip p')
  unfolding unless_skipped acquire
  unless_skipped-Balanced duration job true p p' b = b
  unless_skipped-Balanced duration job false p p' b =
      let out = lock_with config q lm handlers lm job p' in
      under_lock-Balanced duration job out.0 p out.1
        (Balanced-trans (if_refused out.0) p p' out.1 b (lock_with-Balanced lm job p'))

  dequeued-Balanced :
      (duration : ℕ) (job : JobPayload) (p : WorkerPool S)
      → Balanced 1 p (dequeued config q lm handlers duration (ok job) p)
  unfolding dequeued should_skip
  dequeued-Balanced duration job p =
      let out = idempotency_with config q lm handlers lm job p in
      unless_skipped-Balanced duration job out.0 p out.1 (idempotency_with-Balanced lm job p)

  -- Whatever the queue, the lock manager and the handlers answer, `processNextJob` counts a job that it
  -- takes exactly once, as processed, failed or skipped, counts none if the queue gives none, and
  -- leaves the gauges of active workers and running jobs as they were.
  pub process_next_job-Balanced :
      (duration : ℕ) (p : WorkerPool S)
      → Balanced
          (if_dequeued (q.dequeue p.outside).0)
          p
          (process_next_job config q lm handlers duration p)
  unfolding process_next_job
  process_next_job-Balanced duration p = elim (Result-cases (q.dequeue p.outside).0) [
    | inl (e, nothing) ↦ rw nothing (Balanced-at 0 p p (q.dequeue p.outside).1 (Balanced-refl p))
    | inr (job, something) ↦ rw something (
        Balanced-at_start 1 p _ (q.dequeue p.outside).1
          (dequeued-Balanced duration job (at p (q.dequeue p.outside).1)))
  ]
