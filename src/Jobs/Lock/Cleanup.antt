-- ===== src/Jobs/Lock/Cleanup.antt =====
-- What the cleanup of stale jobs removes, on a server that answers.
use text.Mathlib.TextPositions.{eq_refl}
use arcana_cloud_go.Base.{
  ℕ, ◌-◌, ◌<◌, ◌≡◌, refl, sym, ap, ◌∙◌, String, true, none, List, [], ◌∷◌, map, ltb, str_eq, All,
  subst, if◌then◌else◌, arith, Bool-cases, inl, inr,
}
use arcana_cloud_go.Jobs.Exec.{ok}
use arcana_cloud_go.Jobs.Redis.{Redis, IsUp, Db, Value, lock, running_jobs}
use arcana_cloud_go.Jobs.Lock.{clean, scanned_timestamp, cleanup_stale_jobs}

module _ {D : Type 0} (r : Redis D) (contents : r.State → Db D) (u : IsUp r contents) where
  -- The state after one job was taken for stale.
  abbrev one_removed : String → r.State → r.State
  one_removed job_id s = (r.hdel running_jobs job_id (r.del (lock job_id) s).1).1

  lock_after :
      (other job_id : String) (s : r.State)
      → (contents (one_removed job_id s)).strings (lock other)
        ≡ (if str_eq job_id other then none else (contents s).strings (lock other))
  lock_after other job_id s = rw (u.hdel_leaves, u.del_leaves) refl

  stays_gone :
      (stale now : ℕ) (other : String) (jobs : List (String × Value D)) (s : r.State)
      → (contents s).strings (lock other) ≡ none
      → (contents (clean r stale now jobs s).1).strings (lock other) ≡ none
  unfolding clean
  stays_gone stale now other [] s gone = gone
  stays_gone stale now other ((job_id, value) ∷ jobs) s gone =
      elim (Bool-cases (ltb stale (now - scanned_timestamp r value))) [
        | inl old ↦ rw old (
            stays_gone stale now other jobs (one_removed job_id s) (
              lock_after other job_id s ∙ elim (Bool-cases (str_eq job_id other)) [
                | inl same ↦ rw same refl
                | inr apart ↦ rw apart gone
              ]))
        | inr fresh ↦ rw fresh (stays_gone stale now other jobs s gone)
      ]

  clean_old :
      (stale now : ℕ) (job_id : String) (value : Value D) (jobs : List (String × Value D))
      (s : r.State)
      → stale < now
      → clean r stale now ((job_id, value) ∷ jobs) s ≡ (
        job_id ∷ (clean r stale now jobs (one_removed job_id s)).0,
        (clean r stale now jobs (one_removed job_id s)).1,
      )
  unfolding clean scanned_timestamp
  clean_old stale now job_id value jobs s late =
      let old : ltb stale (now - 0) ≡ true = ground arith in rw old refl

  Cleaned : List (String × Value D) → List String × r.State → Type 0
  Cleaned jobs c =
      (c.0 ≡ map (λ e. e.0) jobs) × All (λ e. (contents c.1).strings (lock e.0) ≡ none) jobs

  clean_all :
      (stale now : ℕ) (jobs : List (String × Value D)) (s : r.State)
      → stale < now
      → Cleaned jobs (clean r stale now jobs s)
  unfolding clean Cleaned
  clean_all stale now [] s late = (refl, tt)
  clean_all stale now ((job_id, value) ∷ jobs) s late =
      let s' = one_removed job_id s in
      let (ids, gone) = clean_all stale now jobs s' late in
      subst (Cleaned ((job_id, value) ∷ jobs)) (sym (clean_old stale now job_id value jobs s late))
        (
          ap (λ l. job_id ∷ l) ids,
          (
            stays_gone stale now job_id jobs s'
                (lock_after job_id job_id s ∙ rw (eq_refl job_id) refl),
            gone,
          ),
        )

  -- On a server that answers, `CleanupStaleJobs` at any time later than its threshold, in seconds since
  -- 1970, takes every running job for stale, whenever it started: it returns all their ids, and none of
  -- them has a lock any more.
  pub cleanup_takes_every :
      (stale now : ℕ) (s : r.State)
      → stale < now
      → let jobs = (contents s).hashes running_jobs in
        let out = cleanup_stale_jobs r stale now s in
        (out.0 ≡ ok (map (λ e. e.0) jobs))
        × All (λ e. (contents out.1).strings (lock e.0) ≡ none) jobs
  unfolding cleanup_stale_jobs Cleaned
  cleanup_takes_every stale now s late =
      let jobs = (contents s).hashes running_jobs in
      let (ids, gone) = clean_all stale now jobs (r.hgetall running_jobs s).1 late in
      rw (u.hgetall_reply running_jobs s) (ap ok ids, gone)
