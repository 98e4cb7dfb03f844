-- ===== src/Examples/Lock.antt =====
-- Locks of internal/jobs/lock on a server that answers every command, and the worker pool.
use arcana_cloud_go.Base.{ℕ, ◌+◌, ◌≡◌, refl, String, true, false, none, some, [], ◌∷◌, All, arith}
use arcana_cloud_go.Base.Int.{pos}
use arcana_cloud_go.Jobs.Exec.{ok, err, lock_not_acquired, unavailable}
use arcana_cloud_go.Jobs.Job.{JobPayload}
use arcana_cloud_go.Jobs.Metrics.{new_metrics}
use arcana_cloud_go.Jobs.Redis.{Db, Value, stamped, lock, running_jobs, put, set_field}
use arcana_cloud_go.Jobs.Lock.{LockManager, JobLock, Site, acquire_lock, cleanup_stale_jobs}
use arcana_cloud_go.Jobs.Lock.Exclusion.{acquire_exclusive}
use arcana_cloud_go.Jobs.Lock.Cleanup.{cleanup_takes_every}
use arcana_cloud_go.Jobs.WorkerPool.{
  Queue, Locks, WorkerPool, default_worker_pool_config, process_next_job,
}
use arcana_cloud_go.Jobs.WorkerPool.Counts.{Balanced}
use arcana_cloud_go.Jobs.WorkerPool.Balance.{process_next_job-Balanced}
use arcana_cloud_go.Examples.Server.{ideal, ideal-IsUp, same, empty}
use arcana_cloud_go.Examples.Queue.{mail}

abbrev mine : JobLock
mine = record { job_id = "a"; worker_id = "w1"; ttl = 300; held = true }

abbrev worker : String → LockManager
worker id = record {
  worker_id = id;
  config = record { lock_ttl = 300; heartbeat_rate = 30; idempotency_ttl = 900 };
  active_locks = [];
  locks = λ p. mine;
  created = 0;
}

abbrev site : Db JobPayload → Site (Db JobPayload)
site d = record { manager = worker "w1"; server = d }

-- The lock of job a is in the hands of worker w2.
abbrev taken_over : Db JobPayload
taken_over = put (lock "a") (stamped "w2" 7) 300 empty

acquire_exclusive_example :
    let first = acquire_lock ideal 5 "a" (site empty) in
    let second =
      acquire_lock ideal 9 "a" (record { manager = worker "w2"; server = first.1.server }) in
    (first.0 ≡ ok 0)
    × (second.0 ≡ err lock_not_acquired)
    × (second.1.manager ≡ worker "w2")
    × (second.1.server ≡ first.1.server)
acquire_exclusive_example =
    acquire_exclusive ideal same ideal-IsUp 5 9 "a" (site empty) (worker "w2") refl

-- Job a was started one second before 1000.
abbrev just_started : Db JobPayload
just_started = set_field running_jobs "a" (stamped "w2" 999) taken_over

cleanup_takes_every_example :
    let out = cleanup_stale_jobs ideal 600 1000 just_started in
    (out.0 ≡ ok ("a" ∷ []))
    × All
        (λ (e : String × Value JobPayload). out.1.strings (lock e.0) ≡ none)
        (("a", stamped "w2" 999) ∷ [])
cleanup_takes_every_example =
    cleanup_takes_every ideal same ideal-IsUp 600 1000 just_started (omega arith)

-- A queue that always gives the same job and counts what is asked of it, and a lock manager that fails.
abbrev one_job : Queue ℕ
one_job = record {
  dequeue = λ n. (ok (record mail { unique_key = "" }), n + 1);
  update_job = λ j n. (ok tt, n + 1);
  complete = λ id n. (ok tt, n + 1);
  fail = λ id e n. (ok tt, n + 1);
  requeue_job = λ id p n. (ok tt, n + 1);
}

abbrev failing : Locks ℕ ℕ
failing = record {
  acquire_lock = λ id n. (err unavailable, n);
  release_lock = λ p n. (ok tt, n);
  check_idempotency = λ k n. (ok false, n);
  mark_completed = λ k id n. (ok tt, n);
}

abbrev idle_pool : WorkerPool ℕ
idle_pool = record {
  active_workers = pos 0;
  processed_jobs = 0;
  failed_jobs = 0;
  skipped_jobs = 0;
  metrics = new_metrics;
  outside = 0;
}

process_next_job-Balanced_example : Balanced 1 idle_pool (
    process_next_job default_worker_pool_config one_job
      (some failing)
      (λ t. some (λ bytes n. (none, n)))
      20
      idle_pool)
process_next_job-Balanced_example =
    process_next_job-Balanced default_worker_pool_config one_job (some failing)
      (λ t. some (λ bytes n. (none, n))) 20 idle_pool
