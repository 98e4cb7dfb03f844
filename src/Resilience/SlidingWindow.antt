-- ===== src/Resilience/SlidingWindow.antt =====
-- The `SlidingWindow` of internal/resilience/circuitbreaker.go: two arrays written round and round.
-- An index out of range panics in Go, which is `none` here. A rate is kept as a fraction, since the
-- code divides two integers into a float64 at the very end.
use arcana_cloud_go.Base.{
  ℕ, zero, suc, ◌+◌, ◌%◌, Bool, false, not, Option, none, some, List, [], ◌∷◌, length, set,
  replicate, ltb, ◌==◌, ◌&&◌, if◌then◌else◌,
}
pub mod Bounds
pub mod History

pub record SlidingWindow : Type 0 where
  pub size : ℕ
  pub outcomes : List Bool  -- true is a success
  pub durations : List ℕ
  pub index : ℕ
  pub count : ℕ

pub record Rate : Type 0 where
  pub num : ℕ
  pub den : ℕ

unfoldable pub new_sliding_window : ℕ → SlidingWindow
new_sliding_window size = record {
  size = size;
  outcomes = replicate size false;
  durations = replicate size 0;
  index = 0;
  count = 0;
}

pub recorded : Bool → ℕ → SlidingWindow → SlidingWindow
recorded success duration sw = record {
  size = sw.size;
  outcomes = set sw.outcomes sw.index success;
  durations = set sw.durations sw.index duration;
  index = (sw.index + 1) % sw.size;
  count = if ltb sw.count sw.size then sw.count + 1 else sw.count;
}

-- `Record`
unfoldable pub record_call : Bool → ℕ → SlidingWindow → Option SlidingWindow
unfolding recorded
record_call success duration sw =
    if ltb sw.index (length sw.outcomes) && ltb sw.index (length sw.durations)
    then some (recorded success duration sw)
    else none

-- for i := 0; i < n; i++ { if hit(xs[i]) { hits++ } }
unfoldable pub count_hits {ℓ} : {A : Type ℓ} → (A → Bool) → ℕ → List A → Option ℕ
count_hits hit zero xs = some 0
count_hits hit (suc n) [] = none
count_hits hit (suc n) (x ∷ xs) = elim (count_hits hit n xs) [
  | none ↦ none
  | some hits ↦ some (if hit x then hits + 1 else hits)
]

rate_of : ℕ → Option ℕ → Option Rate
rate_of n none = none
rate_of n (some hits) = some (record { num = hits; den = n })

-- `FailureRate`; an empty window has the rate 0.
unfoldable pub failure_rate : SlidingWindow → Option Rate
unfolding rate_of
failure_rate sw =
    if sw.count == 0
    then some (record { num = 0; den = 1 })
    else rate_of sw.count (count_hits not sw.count sw.outcomes)

-- `SlowCallRate`
unfoldable pub slow_call_rate : ℕ → SlidingWindow → Option Rate
unfolding rate_of
slow_call_rate threshold sw =
    if sw.count == 0
    then some (record { num = 0; den = 1 })
    else rate_of sw.count (count_hits (λ d. ltb threshold d) sw.count sw.durations)
