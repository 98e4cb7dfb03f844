-- ===== src/Jobs/WorkerPool/Counts.antt =====
-- How the counters of the worker pool move.
use arcana_cloud_go.Base.{
  ℕ, ◌+◌, ◌≡◌, refl, ◌∙◌, Bool, true, false, if◌then◌else◌, arith, inl, inr, ◌⊎◌,
}
use arcana_cloud_go.Base.Int.{ℤ, pos, negsuc, ◌+ℤ◌, +ℤ_parts, eq_of_parts}
use arcana_cloud_go.Jobs.Exec.{Err, Result, ok, err}
use arcana_cloud_go.Jobs.WorkerPool.{WorkerPool, Acquired, not_acquired, at, skipped}

pub up_down : (a : ℤ) → a +ℤ pos 1 +ℤ negsuc 0 ≡ a
up_down a = omega (arith, +ℤ_parts, eq_of_parts)

abbrev pub finished : {S : Type 0} → WorkerPool S → ℕ
finished p = p.processed_jobs + p.failed_jobs + p.skipped_jobs

-- One job more is finished, and the gauges of running work are as before.
pub record Balanced {S : Type 0} (n : ℕ) (p p' : WorkerPool S) : Type 0 where
  pub finished_more : finished p' ≡ finished p + n
  pub same_active : p'.active_workers ≡ p.active_workers
  pub same_running : p'.metrics.jobs_running ≡ p.metrics.jobs_running
  pub same_workers : p'.metrics.workers_active ≡ p.metrics.workers_active

abbrev pub if_dequeued : {A : Type 0} → Result Err A → ℕ
if_dequeued (ok a) = 1
if_dequeued (err e) = 0

abbrev pub if_skipped : Bool → ℕ
if_skipped true = 1
if_skipped false = 0

abbrev pub if_refused : {L : Type 0} → Acquired L → ℕ
if_refused not_acquired = 1
if_refused _ = 0

pub Result-cases :
    {A : Type 0} (r : Result Err A) → ((e : Err) × (r ≡ err e)) ⊎ ((a : A) × (r ≡ ok a))
Result-cases (ok a) = inr (a, refl)
Result-cases (err e) = inl (e, refl)

module _ {S : Type 0} where
  pub Balanced-refl : (p : WorkerPool S) → Balanced 0 p p
  Balanced-refl p = record {
    finished_more = omega arith;
    same_active = refl;
    same_running = refl;
    same_workers = refl;
  }

  pub Balanced-trans :
      (n : ℕ) (p p' p'' : WorkerPool S) → Balanced 0 p p' → Balanced n p' p'' → Balanced n p p''
  Balanced-trans n p p' p'' b c = record {
    finished_more = omega (arith, b.finished_more, c.finished_more);
    same_active = c.same_active ∙ b.same_active;
    same_running = c.same_running ∙ b.same_running;
    same_workers = c.same_workers ∙ b.same_workers;
  }

  pub if-Balanced :
      {X : Type 0} (weight : X → ℕ) (b : Bool) (p : WorkerPool S) (x y : X × WorkerPool S)
      → Balanced (weight x.0) p x.1
      → Balanced (weight y.0) p y.1
      → Balanced (weight (if b then x else y).0) p (if b then x else y).1
  if-Balanced weight true p x y t f = t
  if-Balanced weight false p x y t f = f

  -- What is outside the pool does not count.
  pub Balanced-at : (n : ℕ) (p p' : WorkerPool S) (s : S) → Balanced n p p' → Balanced n p (at p' s)
  Balanced-at n p p' s b = record {
    finished_more = b.finished_more;
    same_active = b.same_active;
    same_running = b.same_running;
    same_workers = b.same_workers;
  }

  pub Balanced-at_start :
      (n : ℕ) (p p' : WorkerPool S) (s : S) → Balanced n (at p s) p' → Balanced n p p'
  Balanced-at_start n p p' s b = record {
    finished_more = b.finished_more;
    same_active = b.same_active;
    same_running = b.same_running;
    same_workers = b.same_workers;
  }

  pub one_skipped : (p : WorkerPool S) (s : S) → Balanced 1 p (skipped (at p s))
  one_skipped p s = record {
    finished_more = omega arith;
    same_active = refl;
    same_running = refl;
    same_workers = refl;
  }

-- The same, with one running job less in the gauges.
pub record Settled {S : Type 0} (p p' : WorkerPool S) : Type 0 where
  pub finished_more : finished p' ≡ finished p + 1
  pub same_active : p'.active_workers ≡ p.active_workers
  pub less_running : p'.metrics.jobs_running ≡ p.metrics.jobs_running +ℤ negsuc 0
  pub less_workers : p'.metrics.workers_active ≡ p.metrics.workers_active +ℤ negsuc 0
