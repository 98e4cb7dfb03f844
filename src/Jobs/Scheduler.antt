-- ===== src/Jobs/Scheduler.antt =====
-- internal/jobs/scheduler/scheduler.go: cron jobs, enqueued by one leader, over the Redis server and
-- the queue of this library. The clock, new UUIDs, the cron parser, the digest and the encoding of a payload are
-- arguments; P is the type of the payloads.
pub mod Leader
pub mod Election
pub mod Window
pub mod Setup
use arcana_cloud_go.Jobs.Calendar.{Calendar, get_execution_window}
use Prim.Native.String.{◌++◌ as append}
use arcana_cloud_go.Base.{
  ℕ, ◌*◌, ◌/◌, ◌%◌, String, Bool, true, false, not, Option, none, some, List, [], ◌∷◌, ◌++◌, str_eq,
  get_elem?, if◌then◌else◌,
}
use arcana_cloud_go.Table.{find?}
use arcana_cloud_go.Jobs.Exec.{
  Err, duplicate_job, not_serialized, Exec, Result, ok, err, pure, try, ignore, or_raise, when,
  ◌>>=◌, ◌>>◌,
}
use arcana_cloud_go.Jobs.Job.{
  JobPayload, Priority, new_job_payload, with_priority, with_tags, with_unique_key, priority_string,
  second, day,
}
use arcana_cloud_go.Jobs.Redis.{
  Redis, Value, plain, blob, stamped, leader, cron_execution, cron_singleton,
}
use arcana_cloud_go.Jobs.RedisQueue.{Codec, is_empty, enqueue}

pub record SchedulerConfig : Type 0 where
  pub leader_lock_ttl : ℕ
  pub cron_execution_lock_ttl : ℕ
  pub cron_deduplication_ttl : ℕ

unfoldable pub default_scheduler_config : SchedulerConfig
default_scheduler_config = record {
  leader_lock_ttl = 30 * second;
  cron_execution_lock_ttl = 60 * second;
  cron_deduplication_ttl = day;
}

pub record ScheduledJob (P : Type 0) : Type 0 where
  pub name : String
  pub schedule : String
  pub job_type : String
  pub payload : P
  pub priority : Priority
  pub unique_key : String
  pub tags : List String
  pub singleton : Bool

-- github.com/robfig/cron: which texts a parser accepts. `standard` is cron.NewParser(Minute | Hour | Dom
-- | Month | Dow), of five fields; `with_seconds` is that of cron.New(cron.WithSeconds()), of six.
pub record CronParsers : Type 0 where
  pub standard : String → Bool
  pub with_seconds : String → Bool

-- A scheduler with the entries of its cron, apart from the server.
pub record Scheduler (P : Type 0) : Type 0 where
  pub config : SchedulerConfig
  pub jobs : List (String × ScheduledJob P)
  pub entries : List (ScheduledJob P)
  pub instance_id : String
  pub is_leader : Bool
  pub running : Bool

unfoldable pub new_scheduler : {P : Type 0} → SchedulerConfig → String → Scheduler P
new_scheduler config uuid = record {
  config = config;
  jobs = [];
  entries = [];
  instance_id = uuid;
  is_leader = false;
  running = false;
}

pub data RegisterErr : Type 0 where
  already_registered invalid_cron : RegisterErr

module _ {P : Type 0} (cron : CronParsers) where
  pub register_new :
      ScheduledJob P
      → Scheduler P
      → Option (ScheduledJob P)
      → Result RegisterErr (Unit {0}) × Scheduler P
  register_new job s (some old) = (err already_registered, s)
  register_new job s none =
      if cron.standard job.schedule
      then (ok tt, record s { jobs = (job.name, job) ∷ s.jobs })
      else (err invalid_cron, s)

  unfoldable pub register_job :
      ScheduledJob P → Scheduler P → Result RegisterErr (Unit {0}) × Scheduler P
  unfolding register_new
  register_job job s = register_new job s (find? job.name s.jobs)

  add_each : List (String × ScheduledJob P) → List (ScheduledJob P)
  add_each [] = []
  add_each ((name, job) ∷ l) =
      let rest = add_each l in if cron.with_seconds job.schedule then job ∷ rest else rest

  unfoldable pub setup_cron_jobs : Scheduler P → Scheduler P
  unfolding add_each
  setup_cron_jobs s = record s { entries = s.entries ++ add_each s.jobs }

  -- `Start`, apart from the election, which is a loop of `try_acquire_leadership`; false is the error
  -- "scheduler already running".
  unfoldable pub start : Scheduler P → Bool × Scheduler P
  unfolding setup_cron_jobs
  start s = if s.running then (false, s) else (true, setup_cron_jobs (record s { running = true }))

-- The first eight bytes of a SHA-256 sum in hexadecimal, "%v" of a payload, and its JSON.
pub record Encoders (P : Type 0) : Type 0 where
  pub digest : String → String
  pub show : P → String
  pub marshal_payload : P → Option String

unfoldable pub generate_job_unique_key :
    {P : Type 0} → Encoders P → ScheduledJob P → String → String
generate_job_unique_key enc job window =
    let base = if is_empty job.unique_key then job.name else job.unique_key in
    let data_text = append base (
      append ":"
        (append job.job_type (append ":" (append window (append ":" (enc.show job.payload)))))) in
    append "cron:" (append job.name (append ":" (enc.digest data_text)))

module _ {D P : Type 0} (r : Redis D) (codec : Codec D) (enc : Encoders P) where
  abbrev pub Place : Type 0
  Place = Scheduler P × r.State

  unfoldable pub acquire_cron_execution_lock : String → String → Scheduler P → Exec r.State Bool
  acquire_cron_execution_lock name window s =
      try
        (r.setnx (cron_execution name window) (plain s.instance_id) s.config.cron_deduplication_ttl)

  unfoldable pub is_singleton_job_running : String → Exec r.State Bool
  is_singleton_job_running name = try (r.exists (cron_singleton name))

  unfoldable pub acquire_singleton_lock : String → ℕ → Scheduler P → Exec r.State Bool
  acquire_singleton_lock name ttl s = try (r.setnx (cron_singleton name) (plain s.instance_id) ttl)

  unfoldable pub release_singleton_lock : String → Scheduler P → Exec r.State Bool
  release_singleton_lock name s = try (r.del_if_text (cron_singleton name) s.instance_id)

  -- An error of the check is logged, and the job goes on.
  or_not : Result Err Bool → Bool
  or_not (ok b) = b
  or_not (err e) = false

  singleton_checked : ScheduledJob P → Exec r.State Bool
  unfolding is_singleton_job_running or_not
  singleton_checked job s =
      if job.singleton
      then (
        ok (or_not (is_singleton_job_running job.name s).0),
        (is_singleton_job_running job.name s).1,
      )
      else (ok false, s)

  unfoldable pub scheduled_payload : ℕ → String → String → ScheduledJob P → String → JobPayload
  unfolding generate_job_unique_key
  scheduled_payload now uuid window job bytes = new_job_payload now uuid job.job_type bytes (
      with_priority job.priority
      ∷ with_tags (job.tags ++ "scheduled" ∷ append "cron:" job.name ∷ [])
      ∷ with_unique_key (generate_job_unique_key enc job window)
      ∷ [])

  enqueue_scheduled : ℕ → String → String → ScheduledJob P → Exec r.State (Unit {0})
  unfolding scheduled_payload
  enqueue_scheduled now uuid window job = do
    bytes ← or_raise (enc.marshal_payload job.payload) not_serialized
    enqueue r codec now (scheduled_payload now uuid window job bytes)

  in_window : ℕ → String → String → ScheduledJob P → Exec r.State (Unit {0})
  unfolding singleton_checked enqueue_scheduled
  in_window now uuid window job = do
    running ← singleton_checked job
    when (not running) (enqueue_scheduled now uuid window job)

  as_leader : ℕ → String → String → ScheduledJob P → Scheduler P → Exec r.State (Unit {0})
  unfolding acquire_cron_execution_lock in_window
  as_leader now uuid window job s = do
    acquired ← acquire_cron_execution_lock job.name window s
    when acquired (in_window now uuid window job)

  -- Every error ends in the log.
  unfoldable pub execute_scheduled_job :
      ℕ → Calendar → String → ScheduledJob P → Scheduler P → r.State → r.State
  unfolding as_leader get_execution_window
  execute_scheduled_job now t uuid job s server =
      if s.is_leader
      then (as_leader now uuid (get_execution_window t job.schedule) job s server).1
      else server

  abbrev lead : Bool → Place → Place
  lead b (s, server) = (record s { is_leader = b }, server)

  -- The reply of GET to the leader's key, which holds a text.
  renewed_by : String → Option (Option (Value D)) → Bool
  renewed_by id (some (some (plain t))) = str_eq t id
  renewed_by id _ = false

  contest : Option Bool → Place → Place
  unfolding renewed_by
  contest none w = lead false w
  contest (some true) w = lead true w
  contest (some false) (s, server) =
      let (reply, server') = r.get leader server in
      if renewed_by s.instance_id reply
      then lead true (s, (r.expire leader s.config.leader_lock_ttl server').1)
      else lead false (s, server')

  -- `tryAcquireLeadership`
  unfoldable pub try_acquire_leadership : Place → Place
  unfolding contest
  try_acquire_leadership (s, server) =
      let (set, server') = r.setnx leader (plain s.instance_id) s.config.leader_lock_ttl server in
      contest set (s, server')

  -- `releaseLeadership`
  unfoldable pub release_leadership : Place → Place
  unfolding renewed_by
  release_leadership (s, server) =
      if s.is_leader
      then (let (reply, server') = r.get leader server in
          if renewed_by s.instance_id reply
          then lead false (s, (r.del leader server').1)
          else lead false (s, server'))
      else (s, server)
