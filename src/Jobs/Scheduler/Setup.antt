-- ===== src/Jobs/Scheduler/Setup.antt =====
-- What a started scheduler will run.
use arcana_cloud_go.Base.{
  ◌≡◌, refl, ◌∙◌, String, true, false, Option, none, some, List, [], ◌∷◌, All, Bool-cases, inl, inr,
  arith,
}
use arcana_cloud_go.Table.{find?, Unique, find?-Absent}
use arcana_cloud_go.Jobs.Scheduler.{
  CronParsers, ScheduledJob, Scheduler, add_each, register_new, register_job, new_scheduler,
  SchedulerConfig, start,
}

module _ {P : Type 0} (cron : CronParsers) where
  -- Jobs registered one after the other, errors ignored.
  abbrev pub register_each : List (ScheduledJob P) → Scheduler P → Scheduler P
  register_each [] s = s
  register_each (job ∷ l) s = register_each l (register_job cron job s).1

  abbrev pub Accepted : List (String × ScheduledJob P) → Type 0
  Accepted l = All (λ e. cron.standard e.1.schedule ≡ true) l

  -- A registered job stays one of the registered jobs' names once, with a schedule that the parser of
  -- five fields accepts.
  pub register_job-Accepted :
      (job : ScheduledJob P) (s : Scheduler P)
      → Unique s.jobs
      → Accepted s.jobs
      → let s' = (register_job cron job s).1 in Unique s'.jobs × Accepted s'.jobs
  unfolding register_job register_new
  register_job-Accepted job s u a = registered (find? job.name s.jobs) refl
    where
      registered :
          (o : Option (ScheduledJob P))
          → find? job.name s.jobs ≡ o
          → let s' = (register_new cron job s o).1 in Unique s'.jobs × Accepted s'.jobs
      registered (some old) e = (u, a)
      registered none e = elim (Bool-cases (cron.standard job.schedule)) [
        | inl good ↦ rw good ((find?-Absent job.name s.jobs e, u), (good, a))
        | inr bad ↦ rw bad (u, a)
      ]

  kept : (job : ScheduledJob P) (s : Scheduler P) → (register_job cron job s).1.entries ≡ s.entries
  unfolding register_job register_new
  kept job s = registered (find? job.name s.jobs)
    where
      registered : (o : Option (ScheduledJob P)) → (register_new cron job s o).1.entries ≡ s.entries
      registered (some old) = refl
      registered none = ground arith

  register_each-entries :
      (l : List (ScheduledJob P)) (s : Scheduler P)
      → Unique s.jobs
      → Accepted s.jobs
      → s.entries ≡ []
      → (Accepted (register_each l s).jobs) × ((register_each l s).entries ≡ [])
  register_each-entries [] s u a e = (a, e)
  register_each-entries (job ∷ l) s u a e =
      let (u', a') = register_job-Accepted job s u a in
      register_each-entries l (register_job cron job s).1 u' a' (kept job s ∙ e)

  none_added :
      (l : List (String × ScheduledJob P))
      → ((x : String) → cron.standard x ≡ true → cron.with_seconds x ≡ false)
      → Accepted l
      → add_each cron l ≡ []
  unfolding add_each
  none_added [] apart a = refl
  none_added ((name, job) ∷ l) apart (h, a) = rw (apart job.schedule h) (none_added l apart a)

  -- If no text is accepted both by the parser of five fields and by that of six, then whatever jobs are
  -- registered with a new scheduler, once it is started its cron has no entry.
  pub start_adds_none :
      (config : SchedulerConfig) (uuid : String) (l : List (ScheduledJob P))
      → ((x : String) → cron.standard x ≡ true → cron.with_seconds x ≡ false)
      → (start cron (register_each l (new_scheduler config uuid))).1.entries ≡ []
  unfolding start new_scheduler
  start_adds_none config uuid l apart =
      let (a, e) = register_each-entries l (new_scheduler config uuid) tt tt refl in
      let s = register_each l (new_scheduler config uuid) in
      elim (Bool-cases s.running) [
        | inl before ↦ rw (before, e) refl
        | inr now ↦ rw (now, e, none_added s.jobs apart a) refl
      ]
