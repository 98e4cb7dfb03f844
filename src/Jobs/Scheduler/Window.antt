-- ===== src/Jobs/Scheduler/Window.antt =====
-- A window of a cron job is used once, on a server that answers.
use text.Mathlib.TextPositions.{eq_refl}
use arcana_cloud_go.Base.{
  ℕ, ◌≡◌, refl, sym, ap, ◌∙◌, String, Bool, true, false, not, none, ◌⊎◌, Bool-cases, Option-cases,
  inl, inr, arith,
}
use arcana_cloud_go.Jobs.Exec.{Err, Result, Exec, ok, err, when, ◌>>=◌, or_raise, not_serialized}
use arcana_cloud_go.Jobs.Job.{JobPayload, day}
use arcana_cloud_go.Jobs.Redis.{
  Redis, IsUp, Db, plain, cron_execution, unique, job, blob, put, is_some,
}
use arcana_cloud_go.Jobs.RedisQueue.{Codec, is_empty, enqueue}
use arcana_cloud_go.Jobs.RedisQueue.Enqueue.{counted, keyed, placed, enqueue_up, enqueue_taken}
use arcana_cloud_go.Jobs.Calendar.{Calendar, get_execution_window}
use arcana_cloud_go.Jobs.Scheduler.{
  Scheduler, ScheduledJob, Encoders, execute_scheduled_job, in_window, enqueue_scheduled, as_leader,
  singleton_checked, is_singleton_job_running, acquire_cron_execution_lock, scheduled_payload,
}

module _ {D P : Type 0} (r : Redis D) (contents : r.State → Db D) (u : IsUp r contents)
    (codec : Codec D) (enc : Encoders P) where
  abbrev used : String → String → r.State → Bool
  used name window server = is_some ((contents server).strings (cron_execution name window))

  free_or_taken :
      (j : JobPayload) (s : r.State)
      → ((is_empty j.unique_key ≡ true) ⊎ ((contents s).strings (unique j.unique_key) ≡ none))
        ⊎ ((is_empty j.unique_key ≡ false)
            × (is_some ((contents s).strings (unique j.unique_key)) ≡ true))
  free_or_taken j s = elim (Bool-cases (is_empty j.unique_key)) [
    | inl no_key ↦ inl (inl no_key)
    | inr has_key ↦ elim (Option-cases ((contents s).strings (unique j.unique_key))) [
      | inl free ↦ inl (inr free)
      | inr (e, taken) ↦ inr (has_key, rw taken refl)
    ]
  ]

  enqueue_unmarshalled :
      (now : ℕ) (j : JobPayload) (s : r.State)
      → codec.marshal j ≡ none
      → contents (enqueue r codec now j s).1 ≡ contents s
  unfolding enqueue
  enqueue_unmarshalled now j s m = elim (Bool-cases (is_empty j.unique_key)) [
    | inl no_key ↦ simp (no_key, m)
    | inr has_key ↦ elim (Bool-cases (is_some ((contents s).strings (unique j.unique_key)))) [
      | inl taken ↦ simp (has_key, m, u.exists_reply, taken, u.exists_leaves)
      | inr free ↦ simp (has_key, m, u.exists_reply, free, u.exists_leaves)
    ]
  ]

  kept_up :
      (now : ℕ) (j : JobPayload) (bytes : D) (s : r.State) (name window : String)
      → is_some (
          (counted r contents u codec (
              keyed r contents u codec now j (
                placed r contents u codec now j
                  (put (job j.id) (blob bytes) day (contents s))))).strings
            (cron_execution name window))
        ≡ used name window s
  kept_up now j bytes s name window = ground arith

  -- Enqueueing never touches a key of a window.
  pub enqueue-used :
      (now : ℕ) (j : JobPayload) (s : r.State) (name window : String)
      → used name window (enqueue r codec now j s).1 ≡ used name window s
  enqueue-used now j s name window = elim (Option-cases (codec.marshal j)) [
    | inl m ↦ rw (enqueue_unmarshalled now j s m) refl
    | inr (bytes, m) ↦ elim (free_or_taken j s) [
      | inl free ↦
          rw (enqueue_up r contents u codec now j bytes s m free).1
            (kept_up now j bytes s name window)
      | inr (has_key, taken) ↦ rw (enqueue_taken r contents u codec now j s has_key taken).1 refl
    ]
  ]

  abbrev Keeps : {A : Type 0} → String → String → Exec r.State A → Type 0
  Keeps name w m = (s : r.State) → used name w (m s).1 ≡ used name w s

  bind-Keeps :
      {A B : Type 0} (name w : String) (m : Exec r.State A) (f : A → Exec r.State B)
      → Keeps name w m
      → ((a : A) → Keeps name w (f a))
      → Keeps name w (m >>= f)
  bind-Keeps {A = A} {B = B} name w m f h k s = rest (m s).0 ∙ h s
    where
      rest :
          (x : Result Err A)
          → used name w ((◌>>=◌ {B = B} (λ z. (x, (m z).1)) f) s).1 ≡ used name w (m s).1
      rest (ok a) = k a (m s).1
      rest (err e) = refl

  singleton-Keeps :
      (name w : String) (task : ScheduledJob P) → Keeps name w (singleton_checked r codec enc task)
  unfolding singleton_checked is_singleton_job_running
  singleton-Keeps name w task s = elim (Bool-cases task.singleton) [
    | inl single ↦ simp (single, u.exists_leaves)
    | inr many ↦ simp many
  ]

  when-Keeps :
      (name w : String) (b : Bool) (m : Exec r.State (Unit {0}))
      → Keeps name w m
      → Keeps name w (when b m)
  when-Keeps name w true m h s = h s
  when-Keeps name w false m h s = refl

  enqueue_scheduled-Keeps :
      (now : ℕ) (uuid window : String) (task : ScheduledJob P) (name w : String)
      → Keeps name w (enqueue_scheduled r codec enc now uuid window task)
  unfolding enqueue_scheduled
  enqueue_scheduled-Keeps now uuid window task name w =
      bind-Keeps {A = String} {B = Unit {0}} name w
        (or_raise (enc.marshal_payload task.payload) not_serialized)
        (λ bytes. enqueue r codec now (scheduled_payload r codec enc now uuid window task bytes))
        (λ s. refl)
        (λ bytes s.
          enqueue-used now (scheduled_payload r codec enc now uuid window task bytes) s name w)

  in_window-Keeps :
      (now : ℕ) (uuid window : String) (task : ScheduledJob P) (name w : String)
      → Keeps name w (in_window r codec enc now uuid window task)
  unfolding in_window
  in_window-Keeps now uuid window task name w =
      bind-Keeps {A = Bool} {B = Unit {0}} name w (singleton_checked r codec enc task)
        (λ running. when (not running) (enqueue_scheduled r codec enc now uuid window task))
        (singleton-Keeps name w task)
        (λ running.
          when-Keeps name w (not running) (enqueue_scheduled r codec enc now uuid window task)
            (enqueue_scheduled-Keeps now uuid window task name w))

  used_idle :
      (now : ℕ) (uuid window : String) (task : ScheduledJob P) (s : Scheduler P) (server : r.State)
      → used task.name window server ≡ true
      → contents (as_leader r codec enc now uuid window task s server).1 ≡ contents server
  unfolding as_leader acquire_cron_execution_lock
  used_idle now uuid window task s server h = simp (u.setnx_reply, h, u.setnx_leaves)

  -- A leader's turn uses the window, whatever else comes of it.
  turn :
      (now : ℕ) (uuid window : String) (task : ScheduledJob P) (s : Scheduler P) (server : r.State)
      → used task.name window server ≡ false
      → (as_leader r codec enc now uuid window task s server).1
        ≡ (in_window r codec enc now uuid window task
            (acquire_cron_execution_lock r codec enc task.name window s server).1).1
  unfolding as_leader acquire_cron_execution_lock
  turn now uuid window task s server free = simp (u.setnx_reply, free)

  taken :
      (window : String) (task : ScheduledJob P) (s : Scheduler P) (server : r.State)
      → used task.name window server ≡ false
      → used task.name window (acquire_cron_execution_lock r codec enc task.name window s server).1
        ≡ true
  unfolding acquire_cron_execution_lock
  taken window task s server free =
      let key = cron_execution task.name window in
      let after : contents (acquire_cron_execution_lock r codec enc task.name window s server).1
          ≡ put key (plain s.instance_id) s.config.cron_deduplication_ttl (contents server) =
        u.setnx_leaves key (plain s.instance_id) s.config.cron_deduplication_ttl server
        ∙ rw free refl in
      ap (λ (d : Db D). is_some (d.strings key)) after ∙ rw (eq_refl task.name, eq_refl window) refl

  as_leader-used :
      (now : ℕ) (uuid window : String) (task : ScheduledJob P) (s : Scheduler P) (server : r.State)
      → used task.name window (as_leader r codec enc now uuid window task s server).1 ≡ true
  as_leader-used now uuid window task s server = elim (Bool-cases (used task.name window server)) [
    | inl before ↦ rw (used_idle now uuid window task s server before) before
    | inr free ↦
        let server' = (acquire_cron_execution_lock r codec enc task.name window s server).1 in
        ap (used task.name window) (turn now uuid window task s server free)
        ∙ in_window-Keeps now uuid window task task.name window server'
        ∙ taken window task s server free
  ]

  again :
      (later : ℕ) (w w' uuid' : String) (task : ScheduledJob P) (other : Scheduler P)
      (one : r.State)
      → w' ≡ w
      → used task.name w one ≡ true
      → contents (as_leader r codec enc later uuid' w' task other one).1 ≡ contents one
  again later w w' uuid' task other one same spent =
      used_idle later uuid' w' task other one (ap (λ x. used task.name x one) same ∙ spent)

  -- On a server that answers, once an instance that leads has executed a job in a window, and whatever came
  -- of it, its payload not serialized, a singleton still running, or the queue refusing it, no instance
  -- changes the server by executing that job in that window again, at any time and as long as the key of the window does
  -- not expire.
  pub window_once :
      (now later : ℕ) (t t' : Calendar) (uuid uuid' : String) (task : ScheduledJob P)
      (s other : Scheduler P) (server : r.State)
      → s.is_leader ≡ true
      → get_execution_window t' task.schedule ≡ get_execution_window t task.schedule
      → let once = execute_scheduled_job r codec enc now t uuid task s server in
        contents (execute_scheduled_job r codec enc later t' uuid' task other once) ≡ contents once
  unfolding execute_scheduled_job
  window_once now later t t' uuid uuid' task s other server leads same =
      let w = get_execution_window t task.schedule in
      let one = (as_leader r codec enc now uuid w task s server).1 in
      let ran : execute_scheduled_job r codec enc now t uuid task s server ≡ one = rw leads refl in
      elim (Bool-cases other.is_leader) [
        | inl leader_too ↦
            let spent = as_leader-used now uuid w task s server in
            ap (λ x. contents (execute_scheduled_job r codec enc later t' uuid' task other x)) ran
            ∙ rw leader_too (
                again later w (get_execution_window t' task.schedule) uuid' task other one same
                  spent)
            ∙ sym (ap contents ran)
        | inr not_leading ↦ rw not_leading refl
      ]
