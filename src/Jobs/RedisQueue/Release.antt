-- ===== src/Jobs/RedisQueue/Release.antt =====
-- Jobs that leave the scheduled set, and jobs that are deleted, on a server that answers.
use text.Mathlib.TextPositions.{eq_refl}
use arcana_cloud_go.Base.{
  ◌≡◌, refl, String, false, none, some, List, [], ◌∷◌, All, str_eq, if◌then◌else◌, Bool-cases, inl,
  inr, arith,
}
use arcana_cloud_go.Jobs.Exec.{ok}
use arcana_cloud_go.Jobs.Job.{JobPayload, pending, day}
use arcana_cloud_go.Jobs.Redis.{
  Redis, IsUp, Db, blob, queue, job, scheduled, unique, dlq, put, erase, read, push, set_list,
  set_zset, without, without-None, remove_all, same_priority_refl,
}
use arcana_cloud_go.Jobs.RedisQueue.{
  Codec, is_empty, release_due, get_job, update_job, delete_unique_key, delete_job,
}
use arcana_cloud_go.Jobs.RedisQueue.Enqueue.{store_up, get_job_up}

-- The job as it is stored when it has become due.
abbrev pub due : JobPayload → JobPayload
due j = record j { scheduled_at = none; status = pending }

module _ {D : Type 0} (r : Redis D) (contents : r.State → Db D) (u : IsUp r contents)
    (codec : Codec D) where
  release_up :
      (id : String) (j : JobPayload) (bytes bytes' : D) (s : r.State)
      → read (job id) (contents s) ≡ some (blob bytes)
      → codec.unmarshal bytes ≡ some j
      → codec.marshal (due j) ≡ some bytes'
      → let out = release_due r codec id s in
        (out.0 ≡ ok tt)
        × (contents out.1
            ≡ push (queue j.priority) j.id (
                put
                  (job j.id)
                  (blob bytes')
                  day
                  (set_zset scheduled (without id ((contents s).zsets scheduled)) (contents s))))
  unfolding release_due update_job
  release_up id j bytes bytes' s found decoded encoded =
      let (e, c) = get_job_up r contents u codec id bytes j s found decoded in
      let s1 = (get_job r codec id s).1 in
      let s2 = (r.zrem scheduled id s1).1 in
      let (e', c') = store_up r contents u codec (due j) s2 encoded in
      (
        simp (e, u.zrem_reply, e', u.lpush_reply),
        simp (e, u.zrem_reply, e', u.lpush_leaves, c', u.zrem_leaves, c),
      )

  -- On a server that answers, a readable due job that can be serialized is moved by the loop body of
  -- `ProcessScheduled`: it is stored as pending with no time, it leaves the scheduled set and stands
  -- at the left end of its priority's queue. The pending count stays as it is, although `Dequeue`
  -- will lower it again for this job.
  pub release_moves :
      (id : String) (j : JobPayload) (bytes bytes' : D) (s : r.State)
      → read (job id) (contents s) ≡ some (blob bytes)
      → codec.unmarshal bytes ≡ some j
      → codec.marshal (due j) ≡ some bytes'
      → let d = contents s in
        let d' = contents (release_due r codec id s).1 in
        ((release_due r codec id s).0 ≡ ok tt)
        × (read (job j.id) d' ≡ some (blob bytes'))
        × (d'.zsets scheduled ≡ without id (d.zsets scheduled))
        × (d'.lists (queue j.priority) ≡ j.id ∷ d.lists (queue j.priority))
        × (d'.counters ≡ d.counters)
  release_moves id j bytes bytes' s found decoded encoded =
      let (e, c) = release_up id j bytes bytes' s found decoded encoded in
      rw c (
        e,
        ground (arith, eq_refl j.id),
        ground arith,
        rw (same_priority_refl j.priority) refl,
        refl,
      )

  remove_all-None : (m : String) (l : List String) → All (λ x. str_eq x m ≡ false) (remove_all m l)
  remove_all-None m [] = tt
  remove_all-None m (x ∷ l) = elim (Bool-cases (str_eq x m)) [
    | inl same ↦ rw same (remove_all-None m l)
    | inr other ↦ rw other (other, remove_all-None m l)
  ]

  abbrev deleted : String → JobPayload → Db D → Db D
  deleted id j d =
      let d1 = erase (job id) d in
      let d2 = set_list (queue j.priority) (remove_all id (d1.lists (queue j.priority))) d1 in
      let d3 = set_zset scheduled (without id (d2.zsets scheduled)) d2 in
      let d4 = set_list dlq (remove_all id (d3.lists dlq)) d3 in
      if is_empty j.unique_key then d4 else erase (unique j.unique_key) d4

  delete_job_up :
      (id : String) (j : JobPayload) (bytes : D) (s : r.State)
      → read (job id) (contents s) ≡ some (blob bytes)
      → codec.unmarshal bytes ≡ some j
      → ((delete_job r codec id s).0 ≡ ok tt)
        × (contents (delete_job r codec id s).1 ≡ deleted id j (contents s))
  unfolding delete_job delete_unique_key
  delete_job_up id j bytes s found decoded =
      let (e, c) = get_job_up r contents u codec id bytes j s found decoded in
      elim (Bool-cases (is_empty j.unique_key)) [
        | inl no_key ↦
            (simp (e, no_key), simp (e, no_key, u.lrem_all_leaves, u.zrem_leaves, u.del_leaves, c))
        | inr has_key ↦ (
          simp (e, has_key),
          simp (e, has_key, u.lrem_all_leaves, u.zrem_leaves, u.del_leaves, c),
        )
      ]

  queue-deleted :
      (id : String) (j : JobPayload) (d : Db D)
      → (deleted id j d).lists (queue j.priority) ≡ remove_all id (d.lists (queue j.priority))
  queue-deleted id j d = ground (arith, same_priority_refl j.priority)

  scheduled-deleted :
      (id : String) (j : JobPayload) (d : Db D)
      → (deleted id j d).zsets scheduled ≡ without id (d.zsets scheduled)
  scheduled-deleted id j d = ground arith

  dlq-deleted :
      (id : String) (j : JobPayload) (d : Db D)
      → (deleted id j d).lists dlq ≡ remove_all id (d.lists dlq)
  dlq-deleted id j d = ground arith

  -- On a server that answers, `DeleteJob` of a readable job leaves no trace of its id in the job
  -- records, in the queue of its priority, in the scheduled set and in the dead letter queue, and
  -- frees its unique key if it has one.
  pub delete_job_removes :
      (id : String) (j : JobPayload) (bytes : D) (s : r.State)
      → read (job id) (contents s) ≡ some (blob bytes)
      → codec.unmarshal bytes ≡ some j
      → let d' = contents (delete_job r codec id s).1 in
        ((delete_job r codec id s).0 ≡ ok tt)
        × (read (job id) d' ≡ none)
        × All (λ x. str_eq x id ≡ false) (d'.lists (queue j.priority))
        × All (λ e. str_eq e.0 id ≡ false) (d'.zsets scheduled)
        × All (λ x. str_eq x id ≡ false) (d'.lists dlq)
        × (is_empty j.unique_key ≡ false → d'.strings (unique j.unique_key) ≡ none)
  delete_job_removes id j bytes s found decoded =
      let d = contents s in
      let (e, c) = delete_job_up id j bytes s found decoded in
      rw c (
        e,
        ground (arith, eq_refl id),
        rw (queue-deleted id j d) (remove_all-None id (d.lists (queue j.priority))),
        rw (scheduled-deleted id j d) (without-None id (d.zsets scheduled)),
        rw (dlq-deleted id j d) (remove_all-None id (d.lists dlq)),
        λ has_key. ground (arith, eq_refl j.unique_key),
      )
