-- ===== src/Jobs/RedisQueue/Dequeue.antt =====
-- Dequeueing, on a server that answers: by priority, and within a priority the oldest first.
use text.Mathlib.TextPositions.{eq_refl}
use arcana_cloud_go.Base.{
  ℕ, ◌≡◌, refl, String, some, List, [], ◌∷◌, ◌++◌, All, arith, sym, subst, ◌∙◌, Bool-cases, inl,
  inr,
}
use arcana_cloud_go.Base.Int.{ℤ, negsuc, ◌+ℤ◌}
use arcana_cloud_go.Jobs.Exec.{queue_empty, ok, err}
use arcana_cloud_go.Jobs.Job.{JobPayload, Priority, day}
use arcana_cloud_go.Jobs.Redis.{
  Redis, IsUp, Db, Value, blob, Key, queue, job, stats, put, read, set_list, count, last?,
  drop_last, same_priority, same_priority_refl, same_priority_eq,
}
use arcana_cloud_go.Jobs.RedisQueue.{
  Codec, dequeue_from, dequeue, take_job, started, get_job, update_job, all_priorities,
}
use arcana_cloud_go.Jobs.RedisQueue.Enqueue.{store_up, get_job_up}

pub last?-snoc : (l : List String) (x : String) → last? (l ++ x ∷ []) ≡ some x
last?-snoc [] x = refl
last?-snoc (y ∷ []) x = refl
last?-snoc (y ∷ z ∷ l) x = last?-snoc (z ∷ l) x

pub drop_last-snoc : (l : List String) (x : String) → drop_last (l ++ x ∷ []) ≡ l
drop_last-snoc [] x = refl
drop_last-snoc (y ∷ []) x = refl
drop_last-snoc (y ∷ z ∷ l) x = rw (drop_last-snoc (z ∷ l) x) refl

module _ {D : Type 0} (r : Redis D) (contents : r.State → Db D) (u : IsUp r contents)
    (codec : Codec D) where
  take_job_up :
      (now : ℕ) (j : JobPayload) {bytes : D} (s : r.State)
      → codec.marshal (started now j) ≡ some bytes
      → ((take_job r codec now j s).0 ≡ ok (started now j))
        × (contents (take_job r codec now j s).1
            ≡ count stats "pending" (negsuc 0) (put (job j.id) (blob bytes) day (contents s)))
  unfolding take_job update_job
  take_job_up now j s m =
      let (e, c) = store_up r contents u codec (started now j) s m in
      (simp e, simp (e, u.hincrby_leaves, c))

  -- What passing over an empty queue leaves as it was.
  record Same (d d' : Db D) : Type 0 where
    strings : d'.strings ≡ d.strings
    counters : d'.counters ≡ d.counters
    queues : (p : Priority) → d'.lists (queue p) ≡ d.lists (queue p)

  popped-Same :
      (p : Priority) (d : Db D) → d.lists (queue p) ≡ [] → Same d (set_list (queue p) [] d)
  popped-Same p d e = record {
    strings = refl;
    counters = refl;
    queues = λ q. elim (Bool-cases (same_priority p q)) [
      | inl same ↦
          let at_p : d.lists (queue q) ≡ [] =
            subst (λ k. d.lists (queue k) ≡ []) (same_priority_eq p q same) e in
          rw same (sym at_p)
      | inr other ↦ rw other refl
    ];
  }

  skip_up :
      (now : ℕ) (p : Priority) (ps : List Priority) (s : r.State)
      → (contents s).lists (queue p) ≡ []
      → let s' = (r.rpop (queue p) s).1 in
        (dequeue_from r codec now (p ∷ ps) s ≡ dequeue_from r codec now ps s')
        × Same (contents s) (contents s')
  unfolding dequeue_from
  skip_up now p ps s e = (
    simp (u.rpop_reply (queue p) s, e),
    rw (u.rpop_leaves (queue p) s, e) (popped-Same p (contents s) e),
  )

  All-queues :
      (ps : List Priority) (d d' : Db D)
      → ((p : Priority) → d'.lists (queue p) ≡ d.lists (queue p))
      → All (λ q. d.lists (queue q) ≡ []) ps
      → All (λ q. d'.lists (queue q) ≡ []) ps
  All-queues [] d d' same h = tt
  All-queues (p ∷ ps) d d' same (e, es) = (same p ∙ e, All-queues ps d d' same es)

  read_same : (k : Key) (d d' : Db D) → d'.strings ≡ d.strings → read k d' ≡ read k d
  read_same k d d' e = rw e refl

  read-count :
      (i f : String) (n : ℤ) (v : Value D) (ttl : ℕ) (d : Db D)
      → read (job i) (count stats f n (put (job i) v ttl d)) ≡ some v
  read-count i f n v ttl d = ground (arith, eq_refl i)

  -- The first queue that is not empty gives its oldest job.
  first_up :
      (now : ℕ) (before : List Priority) (p : Priority) (ps : List Priority) (l : List String)
      (id : String) (bytes bytes' : D) (j : JobPayload) (s : r.State)
      → All (λ q. (contents s).lists (queue q) ≡ []) before
      → (contents s).lists (queue p) ≡ l ++ id ∷ []
      → read (job id) (contents s) ≡ some (blob bytes)
      → codec.unmarshal bytes ≡ some j
      → codec.marshal (started now j) ≡ some bytes'
      → let out = dequeue_from r codec now (before ++ p ∷ ps) s in
        (out.0 ≡ ok (started now j))
        × ((contents out.1).lists (queue p) ≡ l)
        × (read (job j.id) (contents out.1) ≡ some (blob bytes'))
        × ((contents out.1).counters stats "pending"
            ≡ (contents s).counters stats "pending" +ℤ negsuc 0)
  unfolding dequeue_from
  first_up now [] p ps l id bytes bytes' j s none_before at_p found decoded encoded =
      let s1 = (r.rpop (queue p) s).1 in
      let popped = u.rpop_leaves (queue p) s in
      let got = get_job_up r contents u codec id bytes j s1 (rw popped found) decoded in
      let s2 = (get_job r codec id s1).1 in
      let taken = take_job_up now j s2 encoded in
      let out : dequeue_from r codec now (p ∷ ps) s ≡ take_job r codec now j s2 =
        simp (u.rpop_reply (queue p) s, at_p, last?-snoc l id, got.0) in
      rw out (
        taken.0,
        rw (taken.1, got.1, popped, at_p, drop_last-snoc l id, same_priority_refl p) refl,
        rw taken.1 (read-count j.id "pending" (negsuc 0) (blob bytes') day (contents s2)),
        rw (taken.1, got.1, popped) refl,
      )
  first_up now (q ∷ before) p ps l id bytes bytes' j s (e, es) at_p found decoded encoded =
      let s' = (r.rpop (queue q) s).1 in
      let (skipped, same) = skip_up now q (before ++ p ∷ ps) s e in
      let counters : (contents s').counters ≡ (contents s).counters = same.counters in
      rw (skipped, ← counters)
        (first_up now before p ps l id bytes bytes' j s'
          (All-queues before (contents s) (contents s') same.queues es) (same.queues p ∙ at_p)
          (read_same (job id) (contents s) (contents s') same.strings ∙ found) decoded encoded)

  emptied_up :
      (now : ℕ) (ps : List Priority) (s : r.State)
      → All (λ q. (contents s).lists (queue q) ≡ []) ps
      → (dequeue_from r codec now ps s).0 ≡ err queue_empty
  unfolding dequeue_from
  emptied_up now [] s h = refl
  emptied_up now (p ∷ ps) s (e, es) =
      let s' = (r.rpop (queue p) s).1 in
      let (skipped, same) = skip_up now p ps s e in
      rw skipped (emptied_up now ps s' (All-queues ps (contents s) (contents s') same.queues es))

  abbrev or_all : List Priority → List Priority
  or_all [] = all_priorities
  or_all (p ∷ ps) = p ∷ ps

  dequeue-or_all :
      (now : ℕ) (ps : List Priority) (s : r.State)
      → dequeue r codec now ps s ≡ dequeue_from r codec now (or_all ps) s
  unfolding dequeue
  dequeue-or_all now [] s = refl
  dequeue-or_all now (p ∷ ps) s = refl

  -- On a server that answers, `Dequeue` takes the oldest id of the first asked priority whose queue is
  -- not empty, where no priorities stand for all four from critical to low: if that id's record can be
  -- read and the started job can be serialized, it returns the job as running, with one attempt more
  -- and its start time, the same is stored, the id leaves the queue and the others of that queue stay
  -- in order, and the pending count falls by one.
  pub dequeue_oldest :
      (now : ℕ) (ps before : List Priority) (p : Priority) (after : List Priority) (l : List String)
      (id : String) (bytes bytes' : D) (j : JobPayload) (s : r.State)
      → or_all ps ≡ before ++ p ∷ after
      → All (λ q. (contents s).lists (queue q) ≡ []) before
      → (contents s).lists (queue p) ≡ l ++ id ∷ []
      → read (job id) (contents s) ≡ some (blob bytes)
      → codec.unmarshal bytes ≡ some j
      → codec.marshal (started now j) ≡ some bytes'
      → let out = dequeue r codec now ps s in
        (out.0 ≡ ok (started now j))
        × ((contents out.1).lists (queue p) ≡ l)
        × (read (job j.id) (contents out.1) ≡ some (blob bytes'))
        × ((contents out.1).counters stats "pending"
            ≡ (contents s).counters stats "pending" +ℤ negsuc 0)
  dequeue_oldest now ps before p after l id bytes bytes' j s asked none_before at_p found decoded
        encoded =
      rw (dequeue-or_all now ps s, asked)
        (first_up now before p after l id bytes bytes' j s none_before at_p found decoded encoded)

  -- If every asked queue is empty, `Dequeue` returns `ErrQueueEmpty`.
  pub dequeue_empty :
      (now : ℕ) (ps : List Priority) (s : r.State)
      → All (λ q. (contents s).lists (queue q) ≡ []) (or_all ps)
      → (dequeue r codec now ps s).0 ≡ err queue_empty
  dequeue_empty now ps s h = rw (dequeue-or_all now ps s) (emptied_up now (or_all ps) s h)
