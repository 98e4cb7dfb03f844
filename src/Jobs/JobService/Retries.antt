-- ===== src/Jobs/JobService/Retries.antt =====
-- What a retry leaves, on a server that answers.
use arcana_cloud_go.Base.{ℕ, ◌≡◌, refl, ap, ◌∙◌, String, true, some, ◌∷◌, inl}
use arcana_cloud_go.Base.Int.{pos, ◌+ℤ◌}
use arcana_cloud_go.Jobs.Exec.{ok}
use arcana_cloud_go.Jobs.Job.{JobPayload}
use arcana_cloud_go.Jobs.Redis.{
  Redis, IsUp, Db, blob, queue, job, dlq, stats, read, same_priority_refl,
}
use arcana_cloud_go.Jobs.RedisQueue
use arcana_cloud_go.Jobs.RedisQueue.{Codec, is_empty}
use arcana_cloud_go.Jobs.RedisQueue.Enqueue.{enqueue_up, get_job_up}
use arcana_cloud_go.Jobs.JobService.{afresh, retry_job}

module _ {D : Type 0} (r : Redis D) (contents : r.State → Db D) (u : IsUp r contents)
    (codec : Codec D) where
  -- On a server that answers, `RetryJob` of a readable job without a unique key, which can be serialized
  -- again, puts its id into its priority's list once more, whatever the job's status, also if it stands
  -- there already, and leaves the dead letter list as it is, also if the id stands there.
  pub retry_job_again :
      (now : ℕ) (id : String) (j : JobPayload) (bytes bytes' : D) (s : r.State)
      → read (job id) (contents s) ≡ some (blob bytes)
      → codec.unmarshal bytes ≡ some j
      → codec.marshal (afresh j) ≡ some bytes'
      → is_empty j.unique_key ≡ true
      → let out = retry_job r codec now id s in
        let d = contents s in
        let d' = contents out.1 in
        (out.0 ≡ ok tt)
        × (d'.lists (queue j.priority) ≡ j.id ∷ d.lists (queue j.priority))
        × (d'.lists dlq ≡ d.lists dlq)
        × (d'.counters stats "pending" ≡ d.counters stats "pending" +ℤ pos 1)
  unfolding retry_job
  retry_job_again now id j bytes bytes' s there decoded encoded no_key =
      let (e, c) = get_job_up r contents u codec id bytes j s there decoded in
      let s1 = (RedisQueue.get_job r codec id s).1 in
      let (e', c') = enqueue_up r contents u codec now (afresh j) bytes' s1 encoded (inl no_key) in
      let ran : retry_job r codec now id s ≡ RedisQueue.enqueue r codec now (afresh j) s1 =
        simp e in
      let left = ap (λ w. contents w.1) ran ∙ c' in
      (
        ap (λ w. w.0) ran ∙ e',
        rw (left, no_key, c, same_priority_refl j.priority) refl,
        rw (left, no_key, c) refl,
        rw (left, no_key, c) refl,
      )
