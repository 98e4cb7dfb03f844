-- ===== src/Jobs/Lock/Release.antt =====
-- Who may release and renew a lock, on a server that answers.
use text.Mathlib.TextPositions.{eq_refl}
use arcana_cloud_go.Base.{
  ℕ, ◌/◌, ◌≡◌, refl, ap, String, true, false, none, some, ◌∷◌, str_eq, if◌then◌else◌, arith,
  ==_refl, All, Bool-cases, inl, inr,
}
use arcana_cloud_go.Table.{find?, find?-delete}
use arcana_cloud_go.Jobs.Job.{second}
use arcana_cloud_go.Jobs.Exec.{ok}
use arcana_cloud_go.Jobs.Redis.{
  Redis, IsUp, Db, stamped, lock, running_jobs, worker_jobs, put, erase, set_hash, set_field,
  set_set, without, without-None, remove_all, is_owned, touch,
}
use arcana_cloud_go.Jobs.Lock.{
  LockManager, JobLock, Site, drop_lock, unheld, acquire_lock, release_lock, heartbeat_tick,
}
use arcana_cloud_go.Jobs.Lock.Exclusion.{locked, acquire_free}

module _ {D : Type 0} (r : Redis D) (contents : r.State → Db D) (u : IsUp r contents) where
  -- What is left when a job is no longer tracked.
  abbrev untracked : String → String → Db D → Db D
  untracked worker job_id d =
      let d1 = set_hash running_jobs (without job_id (d.hashes running_jobs)) d in
      set_set (worker_jobs worker) (remove_all job_id (d1.sets (worker_jobs worker))) d1

  abbrev released : String → String → Db D → Db D
  released worker job_id d =
      untracked worker job_id
        (if is_owned worker (d.strings (lock job_id)) then erase (lock job_id) d else d)

  release_up :
      (p : ℕ) (w : Site r.State)
      → (w.manager.locks p).held ≡ true
      → let job_id = (w.manager.locks p).job_id in
        let out = release_lock r (some p) w in
        (out.0 ≡ ok tt)
        × (out.1.manager ≡ drop_lock job_id (unheld p w.manager))
        × (contents out.1.server ≡ released w.manager.worker_id job_id (contents w.server))
  unfolding release_lock
  release_up p w held = (
    simp (held, u.del_if_owner_reply),
    simp (held, u.del_if_owner_reply),
    simp (held, u.del_if_owner_reply, u.srem_leaves, u.hdel_leaves, u.del_if_owner_leaves),
  )

  -- On a server that answers, a process that releases a lock which it holds by its own record, but whose
  -- key belongs to another by now or is gone, changes no string on the server, so no lock of anyone.
  pub release_foreign :
      (p : ℕ) (w : Site r.State)
      → (w.manager.locks p).held ≡ true
      → is_owned w.manager.worker_id ((contents w.server).strings (lock (w.manager.locks p).job_id))
        ≡ false
      → let out = release_lock r (some p) w in
        (out.0 ≡ ok tt)
        × ((out.1.manager.locks p).held ≡ false)
        × ((contents out.1.server).strings ≡ (contents w.server).strings)
  release_foreign p w held foreign =
      let (e, m, c) = release_up p w held in (e, rw m (rw (==_refl p) refl), rw (c, foreign) refl)

  release_again :
      (p : ℕ) (w : Site r.State)
      → (w.manager.locks p).held ≡ false
      → release_lock r (some p) w ≡ (ok tt, w)
  unfolding release_lock
  release_again p w e = rw e refl

  free_again :
      (worker job_id : String) (nanos ttl : ℕ) (d : Db D)
      → (released worker job_id (
            set_set
              (worker_jobs worker)
              (job_id ∷ remove_all job_id (d.sets (worker_jobs worker)))
              (set_field running_jobs job_id
                (stamped worker (nanos / second))
                (put (lock job_id) (stamped worker nanos) ttl d)))).strings
          (lock job_id)
        ≡ none
  free_again worker job_id nanos ttl d = ground (arith, eq_refl job_id, eq_refl worker)

  -- On a server that answers, a free lock that is acquired and then released leaves the lock free, the
  -- job out of the running jobs and of the process's table, the lock object not held; a second release
  -- then does nothing.
  pub acquire-release :
      (nanos : ℕ) (job_id : String) (w : Site r.State)
      → (contents w.server).strings (lock job_id) ≡ none
      → let p = w.manager.created in
        let out = release_lock r (some p) (acquire_lock r nanos job_id w).1 in
        (out.0 ≡ ok tt)
        × ((contents out.1.server).strings (lock job_id) ≡ none)
        × All (λ e. str_eq e.0 job_id ≡ false) ((contents out.1.server).hashes running_jobs)
        × (find? job_id out.1.manager.active_locks ≡ none)
        × ((out.1.manager.locks p).held ≡ false)
        × (release_lock r (some p) out.1 ≡ (ok tt, out.1))
  acquire-release nanos job_id w free =
      let p = w.manager.created in
      let (e, m, c) = acquire_free r contents u nanos job_id w free in
      let w' = (acquire_lock r nanos job_id w).1 in
      let fresh : JobLock = record {
        job_id = job_id;
        worker_id = w.manager.worker_id;
        ttl = w.manager.config.lock_ttl;
        held = true;
      } in
      let mine : w'.manager.locks p ≡ fresh = rw m (rw (==_refl p) refl) in
      let of_job : (w'.manager.locks p).job_id ≡ job_id = ap (λ (l : JobLock). l.job_id) mine in
      let (e', m', c') = release_up p w' (ap (λ (l : JobLock). l.held) mine) in
      let worker : w'.manager.worker_id ≡ w.manager.worker_id =
        ap (λ (n : LockManager). n.worker_id) m in
      let left : contents (release_lock r (some p) w').1.server
          ≡ released w.manager.worker_id job_id
              (locked r contents u nanos job_id w.manager (contents w.server)) =
        rw (c', of_job, worker, c) refl in
      let unheld_now : ((release_lock r (some p) w').1.manager.locks p).held ≡ false =
        rw m' (rw (==_refl p) refl) in
      (
        e',
        rw left (
            free_again w.manager.worker_id job_id nanos w.manager.config.lock_ttl
              (contents w.server)),
        rw left (without-None job_id _),
        rw (m', of_job) (find?-delete job_id w'.manager.active_locks),
        unheld_now,
        release_again p (release_lock r (some p) w').1 unheld_now,
      )

  -- On a server that answers, a tick of the heartbeat of a held lock goes on exactly if the key still
  -- belongs to the lock's worker: then it renews the time to live and keeps the lock held; otherwise it
  -- stops, marks the lock as not held and changes nothing on the server.
  pub heartbeat_renews :
      (p : ℕ) (w : Site r.State)
      → (w.manager.locks p).held ≡ true
      → let l = w.manager.locks p in
        let mine = is_owned l.worker_id ((contents w.server).strings (lock l.job_id)) in
        let out = heartbeat_tick r p w in
        (out.1 ≡ mine)
        × ((out.0.manager.locks p).held ≡ mine)
        × (contents out.0.server
            ≡ (if mine then touch (lock l.job_id) l.ttl (contents w.server) else contents w.server))
  unfolding heartbeat_tick
  heartbeat_renews p w held =
      let l = w.manager.locks p in
      elim (Bool-cases (is_owned l.worker_id ((contents w.server).strings (lock l.job_id)))) [
        | inl mine ↦ (
          simp (u.expire_if_owner_reply, held, mine),
          simp (u.expire_if_owner_reply, held, mine),
          simp (u.expire_if_owner_reply, held, mine, u.expire_if_owner_leaves),
        )
        | inr foreign ↦ (
          simp (u.expire_if_owner_reply, held, foreign),
          simp (u.expire_if_owner_reply, held, foreign, ==_refl),
          simp (u.expire_if_owner_reply, held, foreign, u.expire_if_owner_leaves),
        )
      ]
