-- ===== src/Jobs/Metrics.antt =====
-- internal/jobs/metrics.go: the counters and gauges of the job system, and its health.
use arcana_cloud_go.Base.{ℕ, ◌+◌, String, Bool, List, [], ◌∷◌, ◌++◌, ltb, if◌then◌else◌}
use arcana_cloud_go.Base.Int.{ℤ, pos, negsuc, ◌+ℤ◌, pos_part}

pub record Metrics : Type 0 where
  pub jobs_enqueued : ℕ
  pub jobs_completed : ℕ
  pub jobs_failed : ℕ
  pub jobs_retried : ℕ
  pub jobs_dead : ℕ
  pub jobs_pending : ℤ
  pub jobs_running : ℤ
  pub workers_active : ℤ
  pub job_durations : List ℕ

unfoldable pub new_metrics : Metrics
new_metrics = record {
  jobs_enqueued = 0;
  jobs_completed = 0;
  jobs_failed = 0;
  jobs_retried = 0;
  jobs_dead = 0;
  jobs_pending = pos 0;
  jobs_running = pos 0;
  workers_active = pos 0;
  job_durations = [];
}

unfoldable pub record_job_enqueued : Metrics → Metrics
record_job_enqueued m = record m {
  jobs_enqueued = m.jobs_enqueued + 1;
  jobs_pending = m.jobs_pending +ℤ pos 1;
}

unfoldable pub record_job_started : Metrics → Metrics
record_job_started m = record m {
  jobs_pending = m.jobs_pending +ℤ negsuc 0;
  jobs_running = m.jobs_running +ℤ pos 1;
  workers_active = m.workers_active +ℤ pos 1;
}

unfoldable pub record_job_completed : ℕ → Metrics → Metrics
record_job_completed duration m = record m {
  jobs_completed = m.jobs_completed + 1;
  jobs_running = m.jobs_running +ℤ negsuc 0;
  workers_active = m.workers_active +ℤ negsuc 0;
  job_durations = m.job_durations ++ duration ∷ [];
}

unfoldable pub record_job_failed : Bool → Metrics → Metrics
record_job_failed will_retry m = record m {
  jobs_failed = m.jobs_failed + 1;
  jobs_running = m.jobs_running +ℤ negsuc 0;
  workers_active = m.workers_active +ℤ negsuc 0;
  jobs_retried = if will_retry then m.jobs_retried + 1 else m.jobs_retried;
}

unfoldable pub record_job_dead : Metrics → Metrics
record_job_dead m = record m { jobs_dead = m.jobs_dead + 1 }

pub record HealthCheck : Type 0 where
  pub status : String
  pub workers_active : ℤ
  pub jobs_pending : ℤ
  pub is_leader : Bool

unfoldable pub get_health_check : Bool → Metrics → HealthCheck
get_health_check is_leader m = record {
  status = if ltb 1000 (pos_part m.jobs_pending) then "degraded" else "healthy";
  workers_active = m.workers_active;
  jobs_pending = m.jobs_pending;
  is_leader = is_leader;
}
