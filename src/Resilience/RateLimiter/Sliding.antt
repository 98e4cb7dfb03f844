-- ===== src/Resilience/RateLimiter/Sliding.antt =====
-- The sliding window against the history of all requests that were let through.
use mathlib.Core.Path.{ap₂}
use arcana_cloud_go.Base.{
  ℕ, ◌≤◌, ◌≡◌, refl, ap, Bool, true, false, List, [], ◌∷◌, ◌++◌, length, keep, ltb, if◌then◌else◌,
  arith, length-append, length-keep-le, tests, Bool-cases, inl, inr,
}
use arcana_cloud_go.Resilience.RateLimiter.{
  RateLimiterConfig, SlidingWindowLimiter, new_sliding_window_limiter, in_window, allow,
}

-- The specification keeps every time that was ever granted, the oldest first, and looks at those
-- within the period before `now`.
pub spec_allow : RateLimiterConfig → ℕ → List ℕ → List ℕ × Bool
spec_allow c now granted =
    if ltb (length (keep (in_window c.period now) granted)) c.rate
    then (granted ++ now ∷ [], true)
    else (granted, false)

-- The answers to a list of requests, the last of them at the head.
pub code_run : RateLimiterConfig → List ℕ → SlidingWindowLimiter × List Bool
code_run c [] = (new_sliding_window_limiter c, [])
code_run c (now ∷ times) =
    let (l, answers) = code_run c times in let (l', answer) = allow now l in (l', answer ∷ answers)

pub spec_run : RateLimiterConfig → List ℕ → List ℕ × List Bool
spec_run c [] = ([], [])
spec_run c (now ∷ times) =
    let (granted, answers) = spec_run c times in
    let (granted', answer) = spec_allow c now granted in (granted', answer ∷ answers)

-- The clock does not run backwards.
abbrev pub Rising : List ℕ → Type 0
Rising [] = Unit {0}
Rising (now ∷ []) = Unit {0}
Rising (now ∷ before ∷ times) = (before ≤ now) × Rising (before ∷ times)

Rising-tail : (now : ℕ) (times : List ℕ) → Rising (now ∷ times) → Rising times
Rising-tail now [] up = tt
Rising-tail now (before ∷ times) up = up.1

module _ (period : ℕ) where
  keep-append :
      (now : ℕ) (xs ys : List ℕ)
      → keep (in_window period now) (xs ++ ys)
        ≡ keep (in_window period now) xs ++ keep (in_window period now) ys
  keep-append now [] ys = refl
  keep-append now (x ∷ xs) ys = ground (arith, keep-append now xs ys)

  -- What is out of the window at a time stays out of it later.
  keep-keep :
      (before now : ℕ) (xs : List ℕ)
      → before ≤ now
      → keep (in_window period now) (keep (in_window period before) xs)
        ≡ keep (in_window period now) xs
  keep-keep before now [] h = refl
  keep-keep before now (x ∷ xs) h = ground (arith, keep-keep before now xs h)

-- The limiter after a run holds the granted times that the last request could still see.
record Agrees (c : RateLimiterConfig) (times : List ℕ) (l : SlidingWindowLimiter) (granted : List ℕ)
    : Type 0 where
  same_config : l.config ≡ c
  pruned :
      (now : ℕ)
      → Rising (now ∷ times)
      → keep (in_window c.period now) l.timestamps ≡ keep (in_window c.period now) granted

keep-granted :
    (period now later : ℕ) (granted : List ℕ)
    → now ≤ later
    → keep (in_window period later) (keep (in_window period now) granted ++ now ∷ [])
      ≡ keep (in_window period later) (granted ++ now ∷ [])
keep-granted period now later granted h = rw (
  keep-append period later (keep (in_window period now) granted) (now ∷ []),
  keep-append period later granted (now ∷ []),
  keep-keep period now later granted h,
)

Agrees-step :
    (c : RateLimiterConfig) (now : ℕ) (times : List ℕ) (l : SlidingWindowLimiter) (granted : List ℕ)
    → Rising (now ∷ times)
    → Agrees c times l granted
    → Agrees c (now ∷ times) (allow now l).0 (spec_allow c now granted).0
      × ((allow now l).1 ≡ (spec_allow c now granted).1)
unfolding allow spec_allow
Agrees-step c now times l granted up a =
    let same = a.pruned now up in
    elim (Bool-cases (ltb (length (keep (in_window c.period now) granted)) c.rate)) [
      | inl room ↦ (
        record {
          same_config = ground (arith, a.same_config);
          pruned = λ later u.
              rw room
                (rw (a.same_config, same, room) (keep-granted c.period now later granted u.0));
        },
        ground (arith, a.same_config),
      )
      | inr no_room ↦ (
        record {
          same_config = ground (arith, a.same_config);
          pruned = λ later u.
              rw no_room
                (rw (a.same_config, same, no_room) (keep-keep c.period now later granted u.0));
        },
        ground (arith, a.same_config),
      )
    ]

run-Agrees :
    (c : RateLimiterConfig) (times : List ℕ)
    → Rising times
    → Agrees c times (code_run c times).0 (spec_run c times).0
      × ((code_run c times).1 ≡ (spec_run c times).1)
unfolding code_run spec_run new_sliding_window_limiter
run-Agrees c [] up = (record { same_config = refl; pruned = λ now u. refl }, refl)
run-Agrees c (now ∷ times) up =
    let (a, same) = run-Agrees c times (Rising-tail now times up) in
    let (a', answer) = Agrees-step c now times (code_run c times).0 (spec_run c times).0 up a in
    (a', ap₂ ◌∷◌ answer same)

-- On every run of a clock that does not go backwards, the limiter gives the answers of the
-- specification, which never forgets a granted time: a request is let through exactly when fewer
-- than `Rate` of the requests granted so far lie within the period before it.
pub code_run-spec_run :
    (c : RateLimiterConfig) (times : List ℕ)
    → Rising times
    → (code_run c times).1 ≡ (spec_run c times).1
code_run-spec_run c times up = (run-Agrees c times up).1

-- The times of the requests that were answered by true, the oldest first.
pub granted_times : List ℕ → List Bool → List ℕ
granted_times (now ∷ times) (true ∷ answers) = granted_times times answers ++ now ∷ []
granted_times (now ∷ times) (false ∷ answers) = granted_times times answers
granted_times times answers = []

spec_run-granted_times :
    (c : RateLimiterConfig) (times : List ℕ)
    → granted_times times (spec_run c times).1 ≡ (spec_run c times).0
unfolding spec_run granted_times spec_allow
spec_run-granted_times c [] = refl
spec_run-granted_times c (now ∷ times) =
    elim (Bool-cases (ltb (length (keep (in_window c.period now) (spec_run c times).0)) c.rate)) [
      | inl room ↦ rw room (ap (λ (l : List ℕ). l ++ now ∷ []) (spec_run-granted_times c times))
      | inr no_room ↦ rw no_room (spec_run-granted_times c times)
    ]

spec_run-bounded :
    (c : RateLimiterConfig) (later : ℕ) (times : List ℕ)
    → Rising (later ∷ times)
    → length (keep (in_window c.period later) (spec_run c times).0) ≤ c.rate
unfolding spec_run spec_allow
spec_run-bounded c later [] up = omega arith
spec_run-bounded c later (now ∷ times) up =
    let granted = (spec_run c times).0 in
    let test = in_window c.period later in
    let fewer = length-keep-le test (keep (in_window c.period now) granted) in
    let pruned = ap (length {A = ℕ}) (keep-keep c.period now later granted up.0) in
    elim (Bool-cases (ltb (length (keep (in_window c.period now) granted)) c.rate)) [
      | inl room ↦ rw room (
          omega (
            tests,
            fewer,
            pruned,
            room,
            ap (length {A = ℕ}) (keep-append c.period later granted (now ∷ [])),
            length-append (keep test granted) (keep test (now ∷ [])),
            length-keep-le test (now ∷ []),
          ))
      | inr no_room ↦ rw no_room (omega (arith, fewer, pruned, spec_run-bounded c now times up.1))
    ]

-- However the requests arrive, at no time have more than `Rate` of the requests within the period
-- before it been let through.
pub allow-bounded :
    (c : RateLimiterConfig) (later : ℕ) (times : List ℕ)
    → Rising (later ∷ times)
    → length (keep (in_window c.period later) (granted_times times (code_run c times).1)) ≤ c.rate
allow-bounded c later times up =
    rw (code_run-spec_run c times (Rising-tail later times up), spec_run-granted_times c times)
      (spec_run-bounded c later times up)
