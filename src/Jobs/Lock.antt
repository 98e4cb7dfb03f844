-- ===== src/Jobs/Lock.antt =====
-- internal/jobs/lock/distributed_lock.go. A site is one process: its lock manager, with the locks that
-- it handed out, beside the Redis server that all share. A pointer to a lock is the number of its
-- creation. The clock's readings are arguments, in nanoseconds or seconds as the code reads them.
pub mod Exclusion
pub mod Release
pub mod Cleanup
use arcana_cloud_go.Base.{
  ℕ, ◌+◌, ◌-◌, ◌/◌, String, Bool, true, false, not, ◌||◌, Option, none, some, List, [], ◌∷◌, map,
  ltb, ◌==◌, if◌then◌else◌,
}
use arcana_cloud_go.Table.{delete, find?}
use arcana_cloud_go.Jobs.Exec.{
  Err, lock_not_acquired, Exec, Command, ok, pure, raise, try, ignore, attempt, ◌>>=◌, ◌>>◌, when,
}
use arcana_cloud_go.Jobs.Job.{second, minute, day}
use arcana_cloud_go.Jobs.RedisQueue.{is_empty}
use arcana_cloud_go.Jobs.Redis.{
  Redis, Key, Value, stamped, lock, running_jobs, worker_jobs, idempotency,
}

pub record LockManagerConfig : Type 0 where
  pub lock_ttl : ℕ
  pub heartbeat_rate : ℕ
  pub idempotency_ttl : ℕ

unfoldable pub default_lock_manager_config : LockManagerConfig
default_lock_manager_config = record {
  lock_ttl = 300_000_000_000;
  heartbeat_rate = 30_000_000_000;
  idempotency_ttl = day;
}

pub record JobLock : Type 0 where
  pub job_id : String
  pub worker_id : String
  pub ttl : ℕ
  pub held : Bool

pub record LockManager : Type 0 where
  pub worker_id : String
  pub config : LockManagerConfig
  pub active_locks : List (String × ℕ)
  pub locks : ℕ → JobLock
  pub created : ℕ

-- The worker's id is a new UUID.
unfoldable pub new_lock_manager : String → LockManagerConfig → (ℕ → JobLock) → LockManager
new_lock_manager uuid config locks = record {
  worker_id = uuid;
  config = config;
  active_locks = [];
  locks = locks;
  created = 0;
}

pub record Site (S : Type 0) : Type 0 where
  pub manager : LockManager
  pub server : S

abbrev pub set_lock : ℕ → JobLock → (ℕ → JobLock) → ℕ → JobLock
set_lock p l locks q = if q == p then l else locks q

module _ {S : Type 0} where
  abbrev pub on_server : {A : Type 0} → Command S A → Command (Site S) A
  on_server c w = ((c w.server).0, record w { server = (c w.server).1 })

  abbrev pub modify : (LockManager → LockManager) → Exec (Site S) (Unit {0})
  modify f w = (ok tt, record w { manager = f w.manager })

-- The lock object of an acquired lock, stored under its job.
abbrev pub add_lock : String → LockManager → LockManager
add_lock job m = record m {
  active_locks = (job, m.created) ∷ delete job m.active_locks;
  locks =
      set_lock m.created
        (record { job_id = job; worker_id = m.worker_id; ttl = m.config.lock_ttl; held = true })
        m.locks;
  created = m.created + 1;
}

abbrev pub drop_lock : String → LockManager → LockManager
drop_lock job m = record m { active_locks = delete job m.active_locks }

abbrev pub unheld : ℕ → LockManager → LockManager
unheld p m = record m { locks = set_lock p (record (m.locks p) { held = false }) m.locks }

module _ {D : Type 0} (r : Redis D) where
  pub track_running_job : ℕ → String → String → Exec (Site r.State) (Unit {0})
  track_running_job seconds worker job_id = do
    ignore (on_server (r.hset running_jobs job_id (stamped worker seconds)))
    ignore (on_server (r.sadd (worker_jobs worker) job_id))

  pub untrack_running_job : String → String → Exec (Site r.State) (Unit {0})
  untrack_running_job worker job_id = do
    ignore (on_server (r.hdel running_jobs job_id))
    ignore (on_server (r.srem (worker_jobs worker) job_id))

  pub got_lock : ℕ → String → LockManager → Exec (Site r.State) ℕ
  unfolding track_running_job
  got_lock nanos job_id m = do
    track_running_job (nanos / second) m.worker_id job_id
    modify (add_lock job_id)
    pure m.created

  pub no_lock : String → Exec (Site r.State) ℕ
  no_lock job_id = do found ← try (on_server (r.get (lock job_id))); raise lock_not_acquired

  pub acquire_by : LockManager → ℕ → String → Exec (Site r.State) ℕ
  unfolding got_lock no_lock
  acquire_by m nanos job_id = do
    acquired ← try (on_server (r.setnx (lock job_id) (stamped m.worker_id nanos) m.config.lock_ttl))
    if acquired then got_lock nanos job_id m else no_lock job_id

  -- `AcquireLock`; the goroutine that it starts is `heartbeat_tick`, over and over.
  unfoldable pub acquire_lock : ℕ → String → Exec (Site r.State) ℕ
  unfolding acquire_by
  acquire_lock nanos job_id w = acquire_by w.manager nanos job_id w

  pub release_held : String → ℕ → JobLock → Exec (Site r.State) (Unit {0})
  unfolding untrack_running_job
  release_held worker p l = do
    modify (unheld p)
    deleted ← try (on_server (r.del_if_owner (lock l.job_id) worker))
    untrack_running_job worker l.job_id
    modify (drop_lock l.job_id)

  -- `ReleaseLock`; `none` is a nil lock.
  unfoldable pub release_lock : Option ℕ → Exec (Site r.State) (Unit {0})
  unfolding release_held
  release_lock none w = (ok tt, w)
  release_lock (some p) w =
      let l = w.manager.locks p in
      if l.held then release_held w.manager.worker_id p l w else (ok tt, w)

  after_renewal : ℕ → Option Bool → Site r.State → Site r.State × Bool
  after_renewal p none w = (record w { manager = unheld p w.manager }, false)
  after_renewal p (some false) w = (record w { manager = unheld p w.manager }, false)
  after_renewal p (some true) w = (w, true)

  -- One tick of `heartbeat`, and whether the loop goes on.
  unfoldable pub heartbeat_tick : ℕ → Site r.State → Site r.State × Bool
  unfolding after_renewal
  heartbeat_tick p w =
      let l = w.manager.locks p in
      let (renewed, w') = on_server (r.expire_if_owner (lock l.job_id) l.worker_id l.ttl) w in
      if l.held then after_renewal p renewed w' else (w, false)

  unfoldable pub check_idempotency : String → Exec r.State Bool
  check_idempotency unique_key =
      if is_empty unique_key then pure false else try (r.exists (idempotency unique_key))

  -- By the time to live of the configuration.
  unfoldable pub mark_completed : ℕ → ℕ → String → String → Exec r.State (Unit {0})
  mark_completed ttl seconds unique_key job_id =
      if is_empty unique_key
      then pure tt
      else try (r.set (idempotency unique_key) (stamped job_id seconds) ttl)

  -- What fmt.Sscanf with "%s:%d" stores in `timestamp`: %s takes everything up to white space, so it
  -- takes the whole text, the colon does not match, and `timestamp` keeps its zero value.
  pub scanned_timestamp : Value D → ℕ
  scanned_timestamp value = 0

  -- The ids whose locks were removed.
  pub clean : ℕ → ℕ → List (String × Value D) → r.State → List String × r.State
  unfolding scanned_timestamp
  clean stale now [] s = ([], s)
  clean stale now ((job_id, value) ∷ jobs) s =
      let is_stale = ltb stale (now - scanned_timestamp value) in
      let removed = (r.hdel running_jobs job_id (r.del (lock job_id) s).1).1 in
      let (rest, s') = clean stale now jobs (if is_stale then removed else s) in
      (if is_stale then job_id ∷ rest else rest, s')

  -- `CleanupStaleJobs`, in the order in which the running jobs are visited.
  unfoldable pub cleanup_stale_jobs : ℕ → ℕ → Exec r.State (List String)
  unfolding clean
  cleanup_stale_jobs stale now = do
    running ← try (r.hgetall running_jobs)
    λ s. (ok (clean stale now running s).0, (clean stale now running s).1)

  release_each : List (String × ℕ) → Exec (Site r.State) (Unit {0})
  unfolding release_lock
  release_each [] = pure tt
  release_each ((job_id, p) ∷ locks) = do attempt (release_lock (some p)); release_each locks

  -- `ReleaseAllLocks`
  unfoldable pub release_all_locks : Exec (Site r.State) (Unit {0})
  unfolding release_each
  release_all_locks w =
      (do
        release_each w.manager.active_locks
        ignore (on_server (r.del (worker_jobs w.manager.worker_id))))
        w
