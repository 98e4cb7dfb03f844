-- ===== src/Jobs/Lock/Exclusion.antt =====
-- One lock of a job at a time, on a server that answers.
use text.Mathlib.TextPositions.{eq_refl}
use arcana_cloud_go.Base.{ℕ, ◌/◌, ◌≡◌, String, true, none, ◌∷◌, arith}
use arcana_cloud_go.Jobs.Exec.{lock_not_acquired, ok, err}
use arcana_cloud_go.Jobs.Job.{second}
use arcana_cloud_go.Jobs.Redis.{
  Redis, IsUp, Db, stamped, lock, running_jobs, worker_jobs, put, set_field, set_set, remove_all,
  is_some,
}
use arcana_cloud_go.Jobs.Lock.{LockManager, Site, add_lock, acquire_lock}

module _ {D : Type 0} (r : Redis D) (contents : r.State → Db D) (u : IsUp r contents) where
  -- What an acquired lock leaves on the server.
  abbrev pub locked : ℕ → String → LockManager → Db D → Db D
  locked nanos job_id m d =
      let d1 = put (lock job_id) (stamped m.worker_id nanos) m.config.lock_ttl d in
      let d2 = set_field running_jobs job_id (stamped m.worker_id (nanos / second)) d1 in
      set_set (worker_jobs m.worker_id)
        (job_id ∷ remove_all job_id (d2.sets (worker_jobs m.worker_id))) d2

  pub acquire_free :
      (nanos : ℕ) (job_id : String) (w : Site r.State)
      → (contents w.server).strings (lock job_id) ≡ none
      → let out = acquire_lock r nanos job_id w in
        (out.0 ≡ ok w.manager.created)
        × (out.1.manager ≡ add_lock job_id w.manager)
        × (contents out.1.server ≡ locked nanos job_id w.manager (contents w.server))
  unfolding acquire_lock
  acquire_free nanos job_id w free = (
    simp (u.setnx_reply, free),
    simp (u.setnx_reply, free),
    simp (u.setnx_reply, free, u.sadd_leaves, u.hset_leaves, u.setnx_leaves),
  )

  pub acquire_taken :
      (nanos : ℕ) (job_id : String) (w : Site r.State)
      → is_some ((contents w.server).strings (lock job_id)) ≡ true
      → let out = acquire_lock r nanos job_id w in
        (out.0 ≡ err lock_not_acquired)
        × (out.1.manager ≡ w.manager)
        × (contents out.1.server ≡ contents w.server)
  unfolding acquire_lock
  acquire_taken nanos job_id w taken = (
    simp (u.setnx_reply, taken, u.get_reply),
    simp (u.setnx_reply, taken, u.get_reply),
    simp (u.setnx_reply, taken, u.get_reply, u.get_leaves, u.setnx_leaves),
  )

  -- On a server that answers and where no lock expires meanwhile, a free lock of a job is acquired, and
  -- after that every process, the same or another, is refused with `ErrLockNotAcquired` and leaves its
  -- own locks and the server as they are.
  pub acquire_exclusive :
      (nanos later : ℕ) (job_id : String) (w : Site r.State) (other : LockManager)
      → (contents w.server).strings (lock job_id) ≡ none
      → let first = acquire_lock r nanos job_id w in
        let second =
          acquire_lock r later job_id (record { manager = other; server = first.1.server }) in
        (first.0 ≡ ok w.manager.created)
        × (second.0 ≡ err lock_not_acquired)
        × (second.1.manager ≡ other)
        × (contents second.1.server ≡ contents first.1.server)
  acquire_exclusive nanos later job_id w other free =
      let (e, m, c) = acquire_free nanos job_id w free in
      let server = (acquire_lock r nanos job_id w).1.server in
      let taken : is_some ((contents server).strings (lock job_id)) ≡ true =
        rw c (ground (arith, eq_refl job_id)) in
      let (e', m', c') =
        acquire_taken later job_id (record { manager = other; server = server }) taken in
      (e, e', m', c')
