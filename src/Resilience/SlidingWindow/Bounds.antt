-- ===== src/Resilience/SlidingWindow/Bounds.antt =====
-- The arrays keep their sizes and the indices stay inside them, so no operation panics.
use arcana_cloud_go.Base.{
  ℕ, zero, suc, ◌+◌, ◌≤◌, ◌<◌, ◌≡◌, refl, Bool, not, some, List, [], ◌∷◌, length, ltb, ◌==◌,
  if◌then◌else◌, arith, length-set, length-replicate,
}
use arcana_cloud_go.Resilience.SlidingWindow.{
  SlidingWindow, Rate, new_sliding_window, rate_of, recorded, record_call, count_hits, failure_rate,
  slow_call_rate,
}

pub record IsValid (sw : SlidingWindow) : Type 0 where
  pub size_pos : 0 < sw.size
  pub outcomes_size : length sw.outcomes ≡ sw.size
  pub durations_size : length sw.durations ≡ sw.size
  pub index_in : sw.index < sw.size
  pub count_in : sw.count ≤ sw.size

pub new_sliding_window-IsValid : (n : ℕ) → 0 < n → IsValid (new_sliding_window n)
unfolding new_sliding_window
new_sliding_window-IsValid n h = omega (arith, length-replicate {0} n, length-replicate {0} n)

pub recorded-IsValid :
    (b : Bool) (d : ℕ) (sw : SlidingWindow) → IsValid sw → IsValid (recorded b d sw)
unfolding recorded
recorded-IsValid b d sw v =
    ground (arith, length-set sw.outcomes sw.index b, length-set sw.durations sw.index d)

-- Recording does not panic, and leaves the window valid.
pub record_call-IsValid :
    (b : Bool) (d : ℕ) (sw : SlidingWindow)
    → IsValid sw
    → (sw' : SlidingWindow) × (record_call b d sw ≡ some sw') × IsValid sw'
unfolding record_call
record_call-IsValid b d sw v = (recorded b d sw, ground arith, recorded-IsValid b d sw v)

count_hits_total {ℓ} :
    {A : Type ℓ} (hit : A → Bool) (n : ℕ) (xs : List A)
    → n ≤ length xs
    → (k : ℕ) × (count_hits hit n xs ≡ some k) × (k ≤ n)
unfolding count_hits
count_hits_total hit zero xs h = (0, refl, omega arith)
count_hits_total hit (suc n) [] h = elim h [ ]
count_hits_total hit (suc n) (x ∷ xs) h =
    let (k, e, le) = count_hits_total hit n xs (omega arith) in
    (if hit x then k + 1 else k, ground arith, ground arith)

rate_lem {ℓ} :
    {A : Type ℓ} (hit : A → Bool) (n : ℕ) (xs : List A)
    → n ≤ length xs
    → (r : Rate) × ((if n == 0
          then some (record { num = 0; den = 1 })
          else rate_of n (count_hits hit n xs))
        ≡ some r)
      × (r.num ≤ r.den)
      × (0 < r.den)
unfolding rate_of
rate_lem hit zero xs h = (record { num = 0; den = 1 }, refl, omega arith, omega arith)
rate_lem hit (suc n) xs h =
    let (k, e, le) = count_hits_total hit (suc n) xs h in
    (record { num = k; den = suc n }, ground arith, le, omega arith)

-- In a valid window both rates can be read, and are fractions between 0 and 1.
pub rates_in_range :
    (threshold : ℕ) (sw : SlidingWindow)
    → IsValid sw
    → ((r : Rate) × (failure_rate sw ≡ some r) × (r.num ≤ r.den) × (0 < r.den))
      × ((r : Rate) × (slow_call_rate threshold sw ≡ some r) × (r.num ≤ r.den) × (0 < r.den))
unfolding failure_rate slow_call_rate
rates_in_range threshold sw v = (
  rate_lem not sw.count sw.outcomes (omega arith),
  rate_lem (λ d. ltb threshold d) sw.count sw.durations (omega arith),
)
