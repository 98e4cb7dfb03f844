-- ===== src/Resilience/RateLimiter.antt =====
-- internal/resilience/ratelimiter.go: the two limiters. Times are nanoseconds, and each call takes
-- the clock's reading. `ts.After(now.Add(-period))` is written `now < ts + period`. The mutexes make
-- each method one step.
use arcana_cloud_go.Base.{
  ℕ, ◌+◌, Bool, true, false, List, [], ◌∷◌, ◌++◌, length, keep, ltb, if◌then◌else◌, String,
}
pub mod Sliding

pub record RateLimiterConfig : Type 0 where
  pub name : String
  pub rate : ℕ
  pub period : ℕ
  pub burst_size : ℕ
  pub wait_timeout : ℕ
  pub fairness_enabled : Bool

pub record RateLimiterMetrics : Type 0 where
  pub total_requests : ℕ
  pub allowed_requests : ℕ
  pub rejected_requests : ℕ
  pub waited_requests : ℕ

abbrev pub no_requests : RateLimiterMetrics
no_requests = record {
  total_requests = 0;
  allowed_requests = 0;
  rejected_requests = 0;
  waited_requests = 0;
}

abbrev pub count_allowed : RateLimiterMetrics → RateLimiterMetrics
count_allowed m = record m {
  total_requests = m.total_requests + 1;
  allowed_requests = m.allowed_requests + 1;
}

abbrev pub count_rejected : RateLimiterMetrics → RateLimiterMetrics
count_rejected m = record m {
  total_requests = m.total_requests + 1;
  rejected_requests = m.rejected_requests + 1;
}

-- `SlidingWindowLimiter`: the times of the requests that it let through, the oldest first.
pub record SlidingWindowLimiter : Type 0 where
  pub config : RateLimiterConfig
  pub timestamps : List ℕ
  pub metrics : RateLimiterMetrics

unfoldable pub new_sliding_window_limiter : RateLimiterConfig → SlidingWindowLimiter
new_sliding_window_limiter config = record {
  config = config;
  timestamps = [];
  metrics = no_requests;
}

-- ts.After(windowStart)
abbrev pub in_window : ℕ → ℕ → ℕ → Bool
in_window period now ts = ltb now (ts + period)

-- `Allow` of the sliding window
unfoldable pub allow : ℕ → SlidingWindowLimiter → SlidingWindowLimiter × Bool
allow now l =
    let recent = keep (in_window l.config.period now) l.timestamps in
    if ltb (length recent) l.config.rate
    then (record l { timestamps = recent ++ now ∷ []; metrics = count_allowed l.metrics }, true)
    else (record l { timestamps = recent; metrics = count_rejected l.metrics }, false)
