-- ===== src/Jobs/RedisQueue/Enqueue.antt =====
-- Enqueueing, on a server that answers: the job can be read back, stands where it belongs, and its
-- unique key keeps others out.
use text.Mathlib.TextPositions.{eq_refl}
use arcana_cloud_go.Base.{
  ℕ, ◌≤◌, ◌<◌, ◌≡◌, refl, String, true, false, Option, none, some, ◌∷◌, ltb, tests, if◌then◌else◌,
  arith, Bool-cases, Option-cases, inl, inr, ◌⊎◌,
}
use arcana_cloud_go.Base.Int.{pos, ◌+ℤ◌}
use arcana_cloud_go.Jobs.Exec.{duplicate_job, ok, err}
use arcana_cloud_go.Jobs.Job.{JobPayload, day}
use arcana_cloud_go.Jobs.Redis.{
  Redis, IsUp, Db, blob, plain, queue, job, scheduled, unique, stats, put, read, push,
  same_priority_refl, add_scored, count, is_some,
}
use arcana_cloud_go.Jobs.RedisQueue.{
  Codec, unix, is_empty, enqueue, get_job, store, schedule_or_enqueue, set_unique_key,
  check_duplicate, unique_ttl,
}

module _ {D : Type 0} (r : Redis D) (contents : r.State → Db D) (u : IsUp r contents)
    (codec : Codec D) where
  -- Storing a job that can be serialized.
  pub store_up :
      (j : JobPayload) {bytes : D} (s : r.State)
      → codec.marshal j ≡ some bytes
      → ((store r codec j s).0 ≡ ok tt)
        × (contents (store r codec j s).1 ≡ put (job j.id) (blob bytes) day (contents s))
  unfolding store
  store_up j s m = (simp (m, u.set_reply), simp (m, u.set_leaves))

  check_up :
      (k : String) (s : r.State)
      → ((check_duplicate r codec k s).0
          ≡ (if is_some ((contents s).strings (unique k)) then err duplicate_job else ok tt))
        × (contents (check_duplicate r codec k s).1 ≡ contents s)
  unfolding check_duplicate
  check_up k s = elim (Bool-cases (is_some ((contents s).strings (unique k)))) [
    | inl held ↦ (simp (u.exists_reply, held), simp (u.exists_reply, held, u.exists_leaves))
    | inr not_held ↦
        (simp (u.exists_reply, not_held), simp (u.exists_reply, not_held, u.exists_leaves))
  ]

  -- What an enqueued job leaves on the server, before the statistics.
  abbrev placed_at : Option ℕ → ℕ → JobPayload → Db D → Db D
  placed_at none now j d = push (queue j.priority) j.id d
  placed_at (some t) now j d =
      if ltb now t then add_scored scheduled j.id (unix t) d else push (queue j.priority) j.id d

  abbrev pub placed : ℕ → JobPayload → Db D → Db D
  placed now j d = placed_at j.scheduled_at now j d

  schedule_up :
      (now : ℕ) (j : JobPayload) (s : r.State)
      → ((schedule_or_enqueue r codec now j s).0 ≡ ok tt)
        × (contents (schedule_or_enqueue r codec now j s).1 ≡ placed now j (contents s))
  unfolding schedule_or_enqueue
  schedule_up now j s = elim (Option-cases j.scheduled_at) [
    | inl now_due ↦ (simp (now_due, u.lpush_reply), simp (now_due, u.lpush_leaves))
    | inr (t, later) ↦ elim (Bool-cases (ltb now t)) [
      | inl future ↦ (simp (later, future, u.zadd_reply), simp (later, future, u.zadd_leaves))
      | inr past ↦ (simp (later, past, u.lpush_reply), simp (later, past, u.lpush_leaves))
    ]
  ]

  abbrev pub counted : Db D → Db D
  counted d = count stats "pending" (pos 1) (count stats "enqueued_total" (pos 1) d)

  abbrev pub keyed : ℕ → JobPayload → Db D → Db D
  keyed now j d =
      if is_empty j.unique_key
      then d
      else put (unique j.unique_key) (plain j.id) (unique_ttl r codec j.scheduled_at now) d

  enqueue_no_key_up :
      (now : ℕ) (j : JobPayload) (bytes : D) (s : r.State)
      → codec.marshal j ≡ some bytes
      → is_empty j.unique_key ≡ true
      → ((enqueue r codec now j s).0 ≡ ok tt)
        × (contents (enqueue r codec now j s).1
            ≡ counted (keyed now j (placed now j (put (job j.id) (blob bytes) day (contents s)))))
  unfolding enqueue set_unique_key
  enqueue_no_key_up now j bytes s m no_key = (
    simp (no_key, (store_up j s m).0, (schedule_up now j (store r codec j s).1).0),
    simp (
      no_key,
      (store_up j s m).0,
      (schedule_up now j (store r codec j s).1).0,
      u.hincrby_leaves,
      (schedule_up now j (store r codec j s).1).1,
      (store_up j s m).1,
    ),
  )

  -- The whole of an enqueue that is not refused.
  pub enqueue_up :
      (now : ℕ) (j : JobPayload) (bytes : D) (s : r.State)
      → codec.marshal j ≡ some bytes
      → (is_empty j.unique_key ≡ true) ⊎ ((contents s).strings (unique j.unique_key) ≡ none)
      → ((enqueue r codec now j s).0 ≡ ok tt)
        × (contents (enqueue r codec now j s).1
            ≡ counted (keyed now j (placed now j (put (job j.id) (blob bytes) day (contents s)))))
  unfolding enqueue set_unique_key
  enqueue_up now j bytes s m (inl no_key) = enqueue_no_key_up now j bytes s m no_key
  enqueue_up now j bytes s m (inr free) = elim (Bool-cases (is_empty j.unique_key)) [
    | inl no_key ↦ enqueue_no_key_up now j bytes s m no_key
    | inr has_key ↦
        let c = check_up j.unique_key s in
        let s1 = (check_duplicate r codec j.unique_key s).1 in
        let s2 = (store r codec j s1).1 in
        (
          simp (has_key, c.0, free, (store_up j s1 m).0, (schedule_up now j s2).0, u.set_reply),
          simp (
            has_key,
            c.0,
            free,
            (store_up j s1 m).0,
            (schedule_up now j s2).0,
            u.set_reply,
            u.set_leaves,
            u.hincrby_leaves,
            (schedule_up now j s2).1,
            (store_up j s1 m).1,
            c.1,
          ),
        )
  ]

  pub get_job_up :
      (id : String) (bytes : D) (j : JobPayload) (s : r.State)
      → read (job id) (contents s) ≡ some (blob bytes)
      → codec.unmarshal bytes ≡ some j
      → ((get_job r codec id s).0 ≡ ok j) × (contents (get_job r codec id s).1 ≡ contents s)
  unfolding get_job
  get_job_up id bytes j s found m =
      (simp (u.get_reply, found, m), simp (u.get_reply, found, u.get_leaves))

  read-enqueued :
      (now : ℕ) (j : JobPayload) (bytes : D) (d : Db D)
      → read (job j.id) (counted (keyed now j (placed now j (put (job j.id) (blob bytes) day d))))
        ≡ some (blob bytes)
  read-enqueued now j bytes d = ground (arith, eq_refl j.id)

  -- On a server that answers, a job that was enqueued, and whose unique key was free, is read back as
  -- it was, if decoding undoes encoding.
  pub enqueue-get_job :
      (now : ℕ) (j : JobPayload) (bytes : D) (s : r.State)
      → codec.marshal j ≡ some bytes
      → codec.unmarshal bytes ≡ some j
      → (is_empty j.unique_key ≡ true) ⊎ ((contents s).strings (unique j.unique_key) ≡ none)
      → ((enqueue r codec now j s).0 ≡ ok tt)
        × ((get_job r codec j.id (enqueue r codec now j s).1).0 ≡ ok j)
  enqueue-get_job now j bytes s m m' free =
      let e = enqueue_up now j bytes s m free in
      (
        e.0,
        (get_job_up j.id bytes j (enqueue r codec now j s).1
            (rw e.1 (read-enqueued now j bytes (contents s))) m').0,
      )

  Places : ℕ → JobPayload → Db D → Db D → Type 0
  Places now j d d' =
      (((j.scheduled_at ≡ none) ⊎ ((t : ℕ) × (j.scheduled_at ≡ some t) × (t ≤ now)))
        × (d'.lists (queue j.priority) ≡ j.id ∷ d.lists (queue j.priority))
        × (d'.zsets scheduled ≡ d.zsets scheduled))
      ⊎ ((t : ℕ) × (j.scheduled_at ≡ some t)
          × (now < t)
          × (d'.zsets scheduled ≡ (add_scored scheduled j.id (unix t) d).zsets scheduled)
          × (d'.lists ≡ d.lists))

  placed_cases :
      (now : ℕ) (j : JobPayload) (d : Db D) (o : Option ℕ)
      → j.scheduled_at ≡ o
      → Places now j d (placed_at o now j d)
  unfolding Places
  placed_cases now j d none e = inl (inl e, rw (same_priority_refl j.priority) refl, refl)
  placed_cases now j d (some t) e = elim (Bool-cases (ltb now t)) [
    | inl future ↦ rw future (inr (t, e, omega tests, refl, refl))
    | inr past ↦
        rw past (inl (inr (t, e, ground arith), rw (same_priority_refl j.priority) refl, refl))
  ]

  -- A job that is due stands at the left end of its priority's list, and nothing else of the lists
  -- and of the scheduled set changes; a job for later stands in the scheduled set under its time in
  -- seconds, and no list changes. Either way the pending count grows by one.
  pub enqueue_places :
      (now : ℕ) (j : JobPayload) (bytes : D) (s : r.State)
      → codec.marshal j ≡ some bytes
      → (is_empty j.unique_key ≡ true) ⊎ ((contents s).strings (unique j.unique_key) ≡ none)
      → let d = contents s in
        let d' = contents (enqueue r codec now j s).1 in
        ((((j.scheduled_at ≡ none) ⊎ ((t : ℕ) × (j.scheduled_at ≡ some t) × (t ≤ now)))
            × (d'.lists (queue j.priority) ≡ j.id ∷ d.lists (queue j.priority))
            × (d'.zsets scheduled ≡ d.zsets scheduled))
          ⊎ ((t : ℕ) × (j.scheduled_at ≡ some t)
              × (now < t)
              × (d'.zsets scheduled ≡ (add_scored scheduled j.id (unix t) d).zsets scheduled)
              × (d'.lists ≡ d.lists)))
        × (d'.counters stats "pending" ≡ d.counters stats "pending" +ℤ pos 1)
  unfolding Places
  enqueue_places now j bytes s m free = rw (enqueue_up now j bytes s m free).1 (
    elim (Bool-cases (is_empty j.unique_key)) [
      | inl no_key ↦
          rw no_key
            (placed_cases now j (put (job j.id) (blob bytes) day (contents s)) j.scheduled_at refl)
      | inr has_key ↦
          rw has_key
            (placed_cases now j (put (job j.id) (blob bytes) day (contents s)) j.scheduled_at refl)
    ],
    ground arith,
  )

  pub enqueue_taken :
      (now : ℕ) (j : JobPayload) (s : r.State)
      → is_empty j.unique_key ≡ false
      → is_some ((contents s).strings (unique j.unique_key)) ≡ true
      → ((enqueue r codec now j s).0 ≡ err duplicate_job)
        × (contents (enqueue r codec now j s).1 ≡ contents s)
  unfolding enqueue
  enqueue_taken now j s has_key taken =
      let c = check_up j.unique_key s in
      (simp (has_key, c.0, taken), simp (has_key, c.0, taken, c.1))

  -- Of two jobs with one nonempty unique key, which was free and the first of which can be serialized,
  -- enqueued one after the other, the second is refused with `ErrDuplicateJob`, and the server keeps
  -- what it holds.
  pub enqueue_twice :
      (now later : ℕ) (j other : JobPayload) (bytes : D) (s : r.State)
      → codec.marshal j ≡ some bytes
      → (contents s).strings (unique j.unique_key) ≡ none
      → is_empty j.unique_key ≡ false
      → other.unique_key ≡ j.unique_key
      → let s' = (enqueue r codec now j s).1 in
        ((enqueue r codec later other s').0 ≡ err duplicate_job)
        × (contents (enqueue r codec later other s').1 ≡ contents s')
  enqueue_twice now later j other bytes s m free has_key same =
      let s' = (enqueue r codec now j s).1 in
      let taken : is_some ((contents s').strings (unique j.unique_key)) ≡ true =
        rw (enqueue_up now j bytes s m (inr free)).1 (ground (arith, eq_refl j.unique_key)) in
      enqueue_taken later other s' (rw same has_key) (rw same taken)
