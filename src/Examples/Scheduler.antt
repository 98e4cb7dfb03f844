-- ===== src/Examples/Scheduler.antt =====
-- The scheduler on a server that answers every command.
use Prim.Native.String.{◌∷◌ as cons, [] as empty_text}
use arcana_cloud_go.Base.{
  ℕ, zero, suc, ◌≡◌, refl, sym, ap, ◌∙◌, String, Bool, true, false, some, [], ◌∷◌, ◌==◌, str_eq,
  if◌then◌else◌, arith,
}
use arcana_cloud_go.Jobs.Job.{high}
use arcana_cloud_go.Jobs.Calendar.{Calendar, get_execution_window}
use arcana_cloud_go.Jobs.Scheduler.{
  CronParsers, Encoders, ScheduledJob, Scheduler, default_scheduler_config, execute_scheduled_job,
  new_scheduler, start, try_acquire_leadership,
}
use arcana_cloud_go.Jobs.Scheduler.Election.{World, begin, elects, acts, Distinct, one_leader}
use arcana_cloud_go.Jobs.Scheduler.Setup.{register_each, start_adds_none}
use arcana_cloud_go.Jobs.Scheduler.Window.{window_once}
use arcana_cloud_go.Examples.Server.{ideal, ideal-IsUp, same, empty}
use arcana_cloud_go.Examples.Queue.{verbatim}

abbrev plainly : Encoders String
plainly = record { digest = λ t. t; show = λ p. p; marshal_payload = λ p. some p }

abbrev report : ScheduledJob String
report = record {
  name = "report";
  schedule = "*/5 * * * *";
  job_type = "mail";
  payload = "{}";
  priority = high;
  unique_key = "";
  tags = [];
  singleton = false;
}

abbrev noon : ℕ → Calendar
noon m = record {
  year = 2024;
  month = 2;
  day_of_month = 29;
  hour = 12;
  minute = m;
  iso_year = 2024;
  iso_week = 9;
}

five_minutes : get_execution_window (noon 17) "*/5 * * * *" ≡ "2024-02-29T12:15"
unfolding get_execution_window
five_minutes = refl

weekly : get_execution_window (noon 17) "0 0 * * 1" ≡ "2024-W09"
unfolding get_execution_window
weekly = refl

abbrev led : String → Bool → Scheduler String
led id leads = record {
  config = record {
    leader_lock_ttl = 30;
    cron_execution_lock_ttl = 60;
    cron_deduplication_ttl = 86400;
  };
  jobs = [];
  entries = [];
  instance_id = id;
  is_leader = leads;
  running = true;
}

window_once_example :
    let once =
      execute_scheduled_job ideal verbatim plainly 5 (noon 16) "u1" report (led "s1" true) empty in
    execute_scheduled_job ideal verbatim plainly 9 (noon 19) "u2" report (led "s2" true) once ≡ once
unfolding get_execution_window
window_once_example =
    window_once ideal same ideal-IsUp verbatim plainly 5 9 (noon 16) (noon 19) "u1" "u2" report
      (led "s1" true) (led "s2" true) empty refl refl

-- One text for each number.
abbrev names : ℕ → String
names zero = empty_text
names (suc n) = cons "a" (names n)

abbrev size : String → ℕ
size empty_text = 0
size (cons c s) = suc (size s)

size-names : (n : ℕ) → size (names n) ≡ n
size-names zero = refl
size-names (suc n) = ap suc (size-names n)

names-Distinct : Distinct ideal same ideal-IsUp verbatim plainly names
names-Distinct i j e = sym (size-names i) ∙ ap size e ∙ size-names j

abbrev at_first : World ideal same ideal-IsUp verbatim plainly
at_first = record { server = empty; instances = λ i. led (names i) false }

one_leader_example : zero ≡ zero
unfolding try_acquire_leadership
one_leader_example =
    one_leader ideal same ideal-IsUp verbatim plainly names
      (acts ideal same ideal-IsUp verbatim plainly (try_acquire_leadership ideal verbatim plainly) 0
        at_first)
      0 0 names-Distinct (elects {w = at_first} 0 (begin (λ i. refl) (λ i. refl))) refl refl

abbrev spaces : String → ℕ
spaces empty_text = 0
spaces (cons c s) = let rest = spaces s in if str_eq (cons c empty_text) " " then suc rest else rest

-- Parsers that only count the fields.
abbrev by_fields : CronParsers
by_fields = record { standard = λ t. spaces t == 4; with_seconds = λ t. spaces t == 5 }

four_not_five : (t : String) → (spaces t == 4) ≡ true → (spaces t == 5) ≡ false
four_not_five t h = ground arith

start_adds_none_example :
    (start by_fields (
      register_each by_fields
        (report ∷ [])
        (new_scheduler default_scheduler_config "s1"))).1.entries
    ≡ []
start_adds_none_example =
    start_adds_none by_fields default_scheduler_config "s1" (report ∷ []) four_not_five
