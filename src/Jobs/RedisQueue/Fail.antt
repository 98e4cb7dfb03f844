-- ===== src/Jobs/RedisQueue/Fail.antt =====
-- A failed job, on a server that answers: it waits for another attempt or is buried in the dead letter
-- queue, from where it may come back under a new id.
use text.Mathlib.TextPositions.{eq_refl}
use arcana_cloud_go.Base.{
  ℕ, ◌+◌, ◌≡◌, refl, String, true, false, none, some, ◌∷◌, ltb, if◌then◌else◌, Bool-cases, inl, inr,
  arith,
}
use arcana_cloud_go.Base.Int.{pos}
use arcana_cloud_go.Jobs.Exec.{duplicate_job, ok, err}
use arcana_cloud_go.Jobs.Job.{JobPayload, Scale, calculate_delay, pending, retrying, dead, day}
use arcana_cloud_go.Jobs.Redis.{
  Redis, IsUp, Db, blob, queue, job, scheduled, unique, dlq, stats, put, erase, read, push,
  add_scored, count, set_list, is_some, remove_first,
}
use arcana_cloud_go.Jobs.RedisQueue.{
  Codec, unix, is_empty, fail, retry_later, bury, get_job, update_job, delete_unique_key,
  retry_dlq_job,
}
use arcana_cloud_go.Jobs.RedisQueue.Enqueue.{store_up, get_job_up, enqueue_taken}

abbrev failed_with : String → JobPayload → JobPayload
failed_with message j = record j { last_error = message }

-- The failed job as it is stored when it is to be tried again, and when it is not.
abbrev pub to_retry : Scale → ℕ → String → JobPayload → JobPayload
to_retry scale now message j = record j {
  last_error = message;
  status = retrying;
  scheduled_at = some (now + calculate_delay scale j.retry_policy j.attempts);
}

abbrev pub to_bury : String → JobPayload → JobPayload
to_bury message j = record j { last_error = message; status = dead }

-- The dead job as it is enqueued again.
abbrev pub revived : String → JobPayload → JobPayload
revived uuid j = record j { status = pending; attempts = 0; last_error = ""; id = uuid }

module _ {D : Type 0} (r : Redis D) (contents : r.State → Db D) (u : IsUp r contents)
    (codec : Codec D) where
  retry_later_up :
      (scale : Scale) (now : ℕ) (message : String) (j : JobPayload) (bytes : D) (s : r.State)
      → codec.marshal (to_retry scale now message j) ≡ some bytes
      → let at = now + calculate_delay scale j.retry_policy j.attempts in
        let out = retry_later r codec scale now (failed_with message j) s in
        (out.0 ≡ ok tt)
        × (contents out.1
            ≡ count stats "retries_total" (pos 1) (
                add_scored scheduled j.id (unix at) (put (job j.id) (blob bytes) day (contents s))))
  unfolding retry_later update_job
  retry_later_up scale now message j bytes s m =
      let (e, c) = store_up r contents u codec (to_retry scale now message j) s m in
      (simp (e, u.zadd_reply), simp (e, u.zadd_reply, u.hincrby_leaves, u.zadd_leaves, c))

  abbrev freed : JobPayload → Db D → Db D
  freed j d = if is_empty j.unique_key then d else erase (unique j.unique_key) d

  bury_up :
      (scale : Scale) (message : String) (j : JobPayload) (bytes : D) (s : r.State)
      → codec.marshal (to_bury message j) ≡ some bytes
      → let out = bury r codec scale (failed_with message j) s in
        (out.0 ≡ ok tt)
        × (contents out.1
            ≡ count stats "dead_total"
                (pos 1)
                (freed j (push dlq j.id (put (job j.id) (blob bytes) day (contents s)))))
  unfolding bury update_job delete_unique_key
  bury_up scale message j bytes s m =
      let (e, c) = store_up r contents u codec (to_bury message j) s m in
      elim (Bool-cases (is_empty j.unique_key)) [
        | inl no_key ↦ (
          simp (e, u.lpush_reply, no_key),
          simp (e, u.lpush_reply, no_key, u.hincrby_leaves, u.lpush_leaves, c),
        )
        | inr has_key ↦ (
          simp (e, u.lpush_reply, has_key),
          simp (e, u.lpush_reply, has_key, u.hincrby_leaves, u.del_leaves, u.lpush_leaves, c),
        )
      ]

  fail-retry_later :
      (scale : Scale) (now : ℕ) (id message : String) (j : JobPayload) (bytes bytes' : D)
      (s : r.State)
      → read (job id) (contents s) ≡ some (blob bytes)
      → codec.unmarshal bytes ≡ some j
      → ltb j.attempts j.max_retries ≡ true
      → codec.marshal (to_retry scale now message j) ≡ some bytes'
      → let at = now + calculate_delay scale j.retry_policy j.attempts in
        let out = fail r codec scale now id message s in
        (out.0 ≡ ok tt)
        × (contents out.1
            ≡ count stats "failed_total" (pos 1) (
                count stats "retries_total" (pos 1) (
                  add_scored scheduled j.id
                    (unix at)
                    (put (job j.id) (blob bytes') day (contents s)))))
  unfolding fail
  fail-retry_later scale now id message j bytes bytes' s found decoded left encoded =
      let (e, c) = get_job_up r contents u codec id bytes j s found decoded in
      let s1 = (get_job r codec id s).1 in
      let (e', c') = retry_later_up scale now message j bytes' s1 encoded in
      (simp (e, left, e'), simp (e, left, e', u.hincrby_leaves, c', c))

  fail-bury :
      (scale : Scale) (now : ℕ) (id message : String) (j : JobPayload) (bytes bytes' : D)
      (s : r.State)
      → read (job id) (contents s) ≡ some (blob bytes)
      → codec.unmarshal bytes ≡ some j
      → ltb j.attempts j.max_retries ≡ false
      → codec.marshal (to_bury message j) ≡ some bytes'
      → let out = fail r codec scale now id message s in
        (out.0 ≡ ok tt)
        × (contents out.1
            ≡ count stats "failed_total" (pos 1) (
                count stats "dead_total"
                  (pos 1)
                  (freed j (push dlq j.id (put (job j.id) (blob bytes') day (contents s))))))
  unfolding fail
  fail-bury scale now id message j bytes bytes' s found decoded left encoded =
      let (e, c) = get_job_up r contents u codec id bytes j s found decoded in
      let s1 = (get_job r codec id s).1 in
      let (e', c') = bury_up scale message j bytes' s1 encoded in
      (simp (e, left, e'), simp (e, left, e', u.hincrby_leaves, c', c))

  -- On a server that answers, `Fail` of a readable job with attempts left, if the changed job can be
  -- serialized, stores it as retrying with the message and the time of its next attempt, which the
  -- policy's delay gives, puts it into the scheduled set under that time in seconds, and leaves every
  -- list, every other job and the pending count as they are.
  pub fail_retries :
      (scale : Scale) (now : ℕ) (id message : String) (j : JobPayload) (bytes bytes' : D)
      (s : r.State)
      → read (job id) (contents s) ≡ some (blob bytes)
      → codec.unmarshal bytes ≡ some j
      → ltb j.attempts j.max_retries ≡ true
      → codec.marshal (to_retry scale now message j) ≡ some bytes'
      → let at = now + calculate_delay scale j.retry_policy j.attempts in
        let d' = contents (fail r codec scale now id message s).1 in
        ((fail r codec scale now id message s).0 ≡ ok tt)
        × (read (job j.id) d' ≡ some (blob bytes'))
        × (d'.zsets scheduled ≡ (add_scored scheduled j.id (unix at) (contents s)).zsets scheduled)
        × (d'.lists ≡ (contents s).lists)
        × (d'.counters stats "pending" ≡ (contents s).counters stats "pending")
  fail_retries scale now id message j bytes bytes' s found decoded left encoded =
      let (e, c) =
        fail-retry_later scale now id message j bytes bytes' s found decoded left encoded in
      rw c (e, ground (arith, eq_refl j.id), ground arith, refl, ground arith)

  -- On a server that answers, `Fail` of a readable job without attempts left, if the changed job can be
  -- serialized, stores it as dead with the message, puts it at the left end of the dead letter queue,
  -- deletes its unique key if it has one, and leaves the scheduled set and the job queues as they are.
  pub fail_buries :
      (scale : Scale) (now : ℕ) (id message : String) (j : JobPayload) (bytes bytes' : D)
      (s : r.State)
      → read (job id) (contents s) ≡ some (blob bytes)
      → codec.unmarshal bytes ≡ some j
      → ltb j.attempts j.max_retries ≡ false
      → codec.marshal (to_bury message j) ≡ some bytes'
      → let d' = contents (fail r codec scale now id message s).1 in
        ((fail r codec scale now id message s).0 ≡ ok tt)
        × (read (job j.id) d' ≡ some (blob bytes'))
        × (d'.lists dlq ≡ j.id ∷ (contents s).lists dlq)
        × (is_empty j.unique_key ≡ false → d'.strings (unique j.unique_key) ≡ none)
        × (d'.zsets ≡ (contents s).zsets)
        × (d'.lists (queue j.priority) ≡ (contents s).lists (queue j.priority))
  fail_buries scale now id message j bytes bytes' s found decoded left encoded =
      let (e, c) = fail-bury scale now id message j bytes bytes' s found decoded left encoded in
      rw c (
        e,
        ground (arith, eq_refl j.id),
        ground arith,
        λ has_key. ground (arith, eq_refl j.unique_key),
        ground arith,
        ground arith,
      )

  -- `RetryDLQJob` of a readable dead job whose unique key another job holds by now: it returns
  -- `ErrDuplicateJob`, and all that it did is to take the job out of the dead letter queue, so no
  -- queue has the job any more.
  pub retry_dlq_loses :
      (now : ℕ) (uuid id : String) (j : JobPayload) (bytes : D) (s : r.State)
      → read (job id) (contents s) ≡ some (blob bytes)
      → codec.unmarshal bytes ≡ some j
      → is_empty j.unique_key ≡ false
      → is_some ((contents s).strings (unique j.unique_key)) ≡ true
      → ((retry_dlq_job r codec now uuid id s).0 ≡ err duplicate_job)
        × (contents (retry_dlq_job r codec now uuid id s).1
            ≡ set_list dlq (remove_first id ((contents s).lists dlq)) (contents s))
  unfolding retry_dlq_job
  retry_dlq_loses now uuid id j bytes s found decoded has_key held =
      let (e, c) = get_job_up r contents u codec id bytes j s found decoded in
      let s1 = (get_job r codec id s).1 in
      let s2 = (r.lrem_first dlq id s1).1 in
      let left : contents s2
          ≡ set_list dlq (remove_first id ((contents s).lists dlq)) (contents s) =
        rw (u.lrem_first_leaves dlq id s1, c) refl in
      let (e', c') =
        enqueue_taken r contents u codec now (revived uuid j) s2 has_key (rw left held) in
      (simp (e, u.lrem_first_reply, e'), simp (e, u.lrem_first_reply, c', left))
