-- ===== src/Resilience/SlidingWindow/History.antt =====
-- The arrays against the history: the rates are those of the last `size` calls.
use mathlib.Core.List.{reverse, append-nil, append_assoc, reverse-append, reverse-cons}
use native.Mathlib.Nat.{mod-eq_of_lt, mod_self}
use arcana_cloud_go.Base.{
  ℕ, zero, suc, ◌+◌, ◌%◌, ◌<◌, ◌≡◌, refl, sym, ap, ◌∙◌, Bool, false, not, Option, none, some, List,
  [], ◌∷◌, ◌++◌, map, length, set, take, replicate, min, ltb, ◌==◌, if◌then◌else◌, arith,
  length-append, length-map, length-replicate, length-take, take_all, length-reverse,
}
use arcana_cloud_go.Resilience.SlidingWindow.{
  SlidingWindow, new_sliding_window, rate_of, recorded, record_call, count_hits, failure_rate,
  slow_call_rate,
}
use arcana_cloud_go.Resilience.SlidingWindow.Bounds.{
  IsValid, recorded-IsValid, new_sliding_window-IsValid,
}

module _ {ℓ} {A : Type ℓ} where
  -- How many members pass the test.
  pub hits : (A → Bool) → List A → ℕ
  hits p [] = 0
  hits p (x ∷ xs) = (if p x then 1 else 0) + hits p xs

  hits-append : (p : A → Bool) (xs ys : List A) → hits p (xs ++ ys) ≡ hits p xs + hits p ys
  unfolding hits
  hits-append p [] ys = omega arith
  hits-append p (x ∷ xs) ys = omega (arith, hits-append p xs ys)

  hits-reverse : (p : A → Bool) (xs : List A) → hits p (reverse xs) ≡ hits p xs
  unfolding hits
  hits-reverse p [] = refl
  hits-reverse p (x ∷ xs) =
      rw (reverse-cons x xs, hits-append p (reverse xs) (x ∷ []), hits-reverse p xs) (omega arith)

  count_hits-append :
      (p : A → Bool) (xs ys : List A) → count_hits p (length xs) (xs ++ ys) ≡ some (hits p xs)
  unfolding hits count_hits
  count_hits-append p [] ys = refl
  count_hits-append p (x ∷ xs) ys = ground (arith, count_hits-append p xs ys)

  count_hits_all : (p : A → Bool) (xs : List A) → count_hits p (length xs) xs ≡ some (hits p xs)
  count_hits_all p xs = rw append-nil at (count_hits-append p xs [])

  set-append :
      (front : List A) (o : A) (back : List A) (v : A)
      → set (front ++ o ∷ back) (length front) v ≡ (front ++ v ∷ []) ++ back
  set-append [] o back v = refl
  set-append (x ∷ front) o back v = ap (◌∷◌ x) (set-append front o back v)

  -- Dropping the last of a full prefix.
  take_shorter :
      (n : ℕ) (hs xs : List A) (o : A)
      → take (suc n) hs ≡ xs ++ o ∷ []
      → length xs ≡ n
      → take n hs ≡ xs
  take_shorter zero hs [] o e l = refl
  take_shorter zero hs (x ∷ xs) o e l = absurd (omega arith)
  take_shorter (suc n) [] [] o e l = absurd (omega arith)
  take_shorter (suc n) [] (x ∷ xs) o e l = cc
  take_shorter (suc n) (h ∷ hs) [] o e l = absurd (omega arith)
  take_shorter (suc n) (h ∷ hs) (x ∷ xs) o e l = ground (arith, take_shorter n hs xs o)

  -- Where the next write goes: `front` holds the newest entries, and `back` what is to be overwritten,
  -- the oldest first. Until the array is full, `back` is still padding.
  pub data Ring (n : ℕ) (xs : List A) (index count : ℕ) (hs : List A) : Type ℓ where
    filling :
        (front back : List A)
        → xs ≡ front ++ back
        → index ≡ length front
        → count ≡ length front
        → length front < n
        → length front + length back ≡ n
        → hs ≡ reverse front
        → Ring n xs index count hs
    full :
        (front back : List A)
        → xs ≡ front ++ back
        → index ≡ length front
        → count ≡ n
        → length front < n
        → length front + length back ≡ n
        → take n hs ≡ reverse front ++ reverse back
        → Ring n xs index count hs

  Ring-start : (n : ℕ) (d : A) → 0 < n → Ring n (replicate n d) 0 0 []
  Ring-start n d h =
      filling [] (replicate n d) refl refl refl h (omega (arith, length-replicate n d)) refl

  -- The hits among the slots in use are those of the last `n` entries of the history.
  Ring-hits :
      (p : A → Bool) {n : ℕ} {xs : List A} {index count : ℕ} {hs : List A}
      → Ring n xs index count hs
      → (count_hits p count xs ≡ some (hits p (take n hs))) × (count ≡ min n (length hs))
  Ring-hits p {n = n} {hs = hs} (filling front back ex ei ec lt el eh) = (
    rw
        (
          ec,
          ex,
          count_hits-append p front back,
          take_all n hs (omega (arith, ap length eh, length-reverse front)),
          eh,
          hits-reverse p front,
        )
        refl,
    omega (arith, ap length eh, length-reverse front),
  )
  Ring-hits p {n = n} {hs = hs} (full front back ex ei ec lt el eh) = (
    rw (ec, ex, eh)
        (let whole : n ≡ length (front ++ back) = omega (arith, length-append front back) in
          rw (whole, count_hits_all p (front ++ back))
            (ap some (
              omega (
                arith,
                hits-append p front back,
                hits-append p (reverse front) (reverse back),
                hits-reverse p front,
                hits-reverse p back,
              )))),
    omega (
      arith,
      ap length eh,
      length-take n hs,
      length-append (reverse front) (reverse back),
      length-reverse front,
      length-reverse back,
    ),
  )

  reverse_snoc : (front : List A) (v : A) → reverse (front ++ v ∷ []) ≡ v ∷ reverse front
  reverse_snoc front v = reverse-append front (v ∷ [])

  set_slot :
      (v o : A) (front back : List A) {xs : List A} {index : ℕ}
      → xs ≡ front ++ o ∷ back
      → index ≡ length front
      → set xs index v ≡ (front ++ v ∷ []) ++ back
  set_slot v o front back ex ei = rw (ex, ei) (set-append front o back v)

  -- The slot after the last is the first.
  Ring-wrap :
      (front back : List A) {n : ℕ} {xs hs : List A} {index count : ℕ}
      → 0 < n
      → xs ≡ front ++ back
      → index ≡ length front % n
      → count ≡ n
      → length front + length back ≡ n
      → take n hs ≡ reverse front ++ reverse back
      → Ring n xs index count hs
  Ring-wrap front [] {n = n} pos ex ei ec el eh =
      let round : length front ≡ n = omega arith in
      full [] front (ex ∙ append-nil front) (ei ∙ (rw (round, mod_self n))) ec pos (omega arith)
        (eh ∙ append-nil (reverse front))
  Ring-wrap front (b ∷ back) pos ex ei ec el eh =
      full front (b ∷ back) ex (ei ∙ mod-eq_of_lt (omega arith)) ec (omega arith) el eh

  Ring-step :
      (v : A) {n : ℕ} {xs : List A} {index count : ℕ} {hs : List A}
      → Ring n xs index count hs
      → Ring n
          (set xs index v)
          ((index + 1) % n)
          (if ltb count n then count + 1 else count)
          (v ∷ hs)
  Ring-step v (filling front [] ex ei ec lt el eh) = absurd (omega arith)
  Ring-step v (full front [] ex ei ec lt el eh) = absurd (omega arith)
  Ring-step v {n = n} {index = index} {hs = hs} (filling front (o ∷ []) ex ei ec lt el eh) =
      let step : index + 1 ≡ length (front ++ v ∷ []) =
        omega (arith, length-append front (v ∷ [])) in
      Ring-wrap (front ++ v ∷ []) [] (omega arith) (set_slot v o front [] ex ei)
        (ap (λ k. k % n) step) (ground arith) (omega arith)
        (take_all n (v ∷ hs) (omega (arith, ap length eh, length-reverse front))
          ∙ ap (◌∷◌ v) eh
          ∙ sym (reverse_snoc front v)
          ∙ sym (append-nil (reverse (front ++ v ∷ []))))
  Ring-step v {n = n} {index = index} (filling front (o ∷ b ∷ back) ex ei ec lt el eh) =
      let step : index + 1 ≡ length (front ++ v ∷ []) =
        omega (arith, length-append front (v ∷ [])) in
      filling (front ++ v ∷ []) (b ∷ back) (set_slot v o front (b ∷ back) ex ei)
        (mod-eq_of_lt (omega arith) ∙ step) (ground arith) (omega arith) (omega arith)
        (ap (◌∷◌ v) eh ∙ sym (reverse_snoc front v))
  Ring-step v {n = zero} (full front (o ∷ back) ex ei ec lt el eh) = elim lt [ ]
  Ring-step v {n = suc m} {index = index} {hs = hs} (full front (o ∷ back) ex ei ec lt el eh) =
      let step : index + 1 ≡ length (front ++ v ∷ []) =
        omega (arith, length-append front (v ∷ [])) in
      Ring-wrap (front ++ v ∷ []) back (omega arith) (set_slot v o front back ex ei)
        (ap (λ k. k % suc m) step) (ground arith) (omega arith)
        (rw (reverse_snoc front v) (
          ap (◌∷◌ v) (
            take_shorter m hs (reverse front ++ reverse back) o
              (eh
                ∙ ap (◌++◌ (reverse front)) (reverse-cons o back)
                ∙ sym (append_assoc (reverse front) (reverse back) (o ∷ [])))
              (omega (
                arith,
                length-append (reverse front) (reverse back),
                length-reverse front,
                length-reverse back,
              )))))

abbrev record_next : Bool × ℕ → Option SlidingWindow → Option SlidingWindow
record_next call none = none
record_next (success, duration) (some sw) = record_call success duration sw

-- The window after a history of calls, the newest first.
pub replay : ℕ → List (Bool × ℕ) → Option SlidingWindow
replay size [] = some (new_sliding_window size)
replay size (call ∷ calls) = record_next call (replay size calls)

abbrev outcomes_of : List (Bool × ℕ) → List Bool
outcomes_of = map λ c. c.0

abbrev durations_of : List (Bool × ℕ) → List ℕ
durations_of = map λ c. c.1

record Tracks (n : ℕ) (calls : List (Bool × ℕ)) (sw : SlidingWindow) : Type 0 where
  valid : IsValid sw
  same_size : sw.size ≡ n
  ring : Ring n sw.outcomes sw.index sw.count (outcomes_of calls)
  ring_durations : Ring n sw.durations sw.index sw.count (durations_of calls)

recorded-Tracks :
    (n : ℕ) (b : Bool) (d : ℕ) (calls : List (Bool × ℕ)) (sw : SlidingWindow)
    → Tracks n calls sw
    → (sw' : SlidingWindow) × (record_call b d sw ≡ some sw') × Tracks n ((b, d) ∷ calls) sw'
unfolding record_call
recorded-Tracks n b d calls sw t =
    let v = t.valid in
    (
      recorded b d sw,
      ground arith,
      record {
        valid = recorded-IsValid b d sw v;
        same_size = t.same_size;
        ring = rw t.same_size (Ring-step b t.ring);
        ring_durations = rw t.same_size (Ring-step d t.ring_durations);
      },
    )

replay-Tracks :
    (n : ℕ) (calls : List (Bool × ℕ))
    → 0 < n
    → (sw : SlidingWindow) × (replay n calls ≡ some sw) × Tracks n calls sw
unfolding replay new_sliding_window
replay-Tracks n [] h = (
  new_sliding_window n,
  refl,
  record {
    valid = new_sliding_window-IsValid n h;
    same_size = refl;
    ring = Ring-start n false h;
    ring_durations = Ring-start n 0 h;
  },
)
replay-Tracks n ((b, d) ∷ calls) h =
    let (sw, e, t) = replay-Tracks n calls h in
    let (sw', e', t') = recorded-Tracks n b d calls sw t in (sw', rw e e', t')

rate_read {ℓ} :
    {A : Type ℓ} (hit : A → Bool) (n : ℕ) (xs : List A) (k d : ℕ)
    → count_hits hit n xs ≡ some k
    → n ≡ d
    → 0 < n
    → (if n == 0 then some (record { num = 0; den = 1 }) else rate_of n (count_hits hit n xs))
      ≡ some (record { num = k; den = d })
unfolding rate_of
rate_read hit n xs k d e ed h = ground arith

-- The rates are those of the last `size` calls: however many calls came before, the window never
-- panics, and each rate counts the hits among the newest `size` entries of the history over their
-- number.
pub replay-rates :
    (n threshold : ℕ) (call : Bool × ℕ) (calls : List (Bool × ℕ))
    → 0 < n
    → (sw : SlidingWindow) × (replay n (call ∷ calls) ≡ some sw)
      × (failure_rate sw
          ≡ some (record {
            num = hits not (take n (outcomes_of (call ∷ calls)));
            den = min n (length (call ∷ calls));
          }))
      × (slow_call_rate threshold sw
          ≡ some (record {
            num = hits (λ d. ltb threshold d) (take n (durations_of (call ∷ calls)));
            den = min n (length (call ∷ calls));
          }))
unfolding failure_rate slow_call_rate
replay-rates n threshold call calls h =
    let (sw, e, t) = replay-Tracks n (call ∷ calls) h in
    let (eo, ec) = Ring-hits not t.ring in
    let (ed, _) = Ring-hits (λ d. ltb threshold d) t.ring_durations in
    let in_use : sw.count ≡ min n (length (call ∷ calls)) =
      omega (arith, length-map (λ (c : Bool × ℕ). c.0) calls) in
    (
      sw,
      e,
      rate_read not sw.count sw.outcomes _ _ eo in_use (omega arith),
      rate_read (λ d. ltb threshold d) sw.count sw.durations _ _ ed in_use (omega arith),
    )
