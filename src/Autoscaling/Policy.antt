-- ===== src/Autoscaling/Policy.antt =====
-- The policy moves one step at a time, inside the window, and never without data.
use inferna_next.Base.{
  Bool, Option, arith, false, if◌then◌else◌, inl, inr, leb→le, le→leb, ltb, ltb→lt, lt→ltb, max,
  min, none, refl, some, some-injective, subst, sym, true, ℕ, ◌&&◌, ◌*◌, ◌+◌, ◌-◌, ◌<◌, ◌||◌, ◌↔◌,
  ◌≡◌, ◌≤◌, ◌⊎◌,
}
use inferna_next.Autoscaling.{
  AutoscaleSettings, Signal, desired_replicas, is_above, is_absent, is_busy, is_idle, is_low,
  no_data,
}

-- A measured value is above its target.
abbrev pub IsOver : Option ℕ → ℕ → Type 0
IsOver o target = (v : ℕ) × (o ≡ some v) × (target < v)

-- A value that was measured is below the ratio of its target.
abbrev pub IsUnder : AutoscaleSettings → Option ℕ → ℕ → Type 0
IsUnder cfg o target = (v : ℕ) → o ≡ some v → v * cfg.ratio_den < target * cfg.ratio_num

-- One of the two signals is above its target.
abbrev pub IsBusy : AutoscaleSettings → Signal → Type 0
IsBusy cfg signal =
    IsOver signal.ttft_p95_ms cfg.target_ttft_ms ⊎ IsOver signal.queue_per_replica cfg.target_queue

-- Both signals are low, and at least the minimum serves.
abbrev pub IsIdle : AutoscaleSettings → ℕ → Signal → Type 0
IsIdle cfg minimum signal =
    IsUnder cfg signal.ttft_p95_ms cfg.target_ttft_ms
    × IsUnder cfg signal.queue_per_replica cfg.target_queue
    × (minimum ≤ signal.serving_replicas)

abbrev pub IsSilent : Signal → Type 0
IsSilent signal = (signal.ttft_p95_ms ≡ none) × (signal.queue_per_replica ≡ none)

-- What the policy may answer for `current` units.
pub data IsStep (cfg : AutoscaleSettings) (current minimum maximum : ℕ) (signal : Signal)
    : ℕ → Type 0 where
  grow :
      ¬ IsSilent signal
      → IsBusy cfg signal
      → current < maximum
      → IsStep cfg current minimum maximum signal (current + 1)
  shrink :
      ¬ IsSilent signal
      → (IsBusy cfg signal → maximum ≤ current)
      → IsIdle cfg minimum signal
      → minimum < current
      → IsStep cfg current minimum maximum signal (current - 1)
  stay :
      IsSilent signal
        ⊎ ((IsBusy cfg signal → maximum ≤ current)
            × (IsIdle cfg minimum signal → current ≤ minimum))
      → IsStep cfg current minimum maximum signal current

is_above_iff : (o : Option ℕ) (target : ℕ) → (is_above o target ≡ true) ↔ IsOver o target
is_above_iff none target = ((λ h. cc), (λ h. let e = h.1 in cc))
is_above_iff (some v) target = (
  (λ h. (v, refl, ltb→lt _ _ h)),
  (λ h. lt→ltb _ _ (subst (λ n. target < n) (sym (some-injective h.1)) h.2)),
)

is_low_iff :
    (cfg : AutoscaleSettings) (o : Option ℕ) (target : ℕ)
    → (is_low cfg o target ≡ true) ↔ IsUnder cfg o target
is_low_iff cfg none target = ((λ h v e. cc), (λ h. refl))
is_low_iff cfg (some v) target = (
  (λ h w e.
      subst (λ n. n * cfg.ratio_den < target * cfg.ratio_num) (some-injective e) (ltb→lt _ _ h)),
  (λ h. lt→ltb _ _ (h v refl)),
)

is_absent_iff : (o : Option ℕ) → (is_absent o ≡ true) ↔ (o ≡ none)
is_absent_iff none = ((λ h. refl), (λ h. refl))
is_absent_iff (some v) = ((λ h. cc), (λ h. cc))

is_busy_iff :
    (cfg : AutoscaleSettings) (signal : Signal) → (is_busy cfg signal ≡ true) ↔ IsBusy cfg signal
unfolding is_busy
is_busy_iff cfg signal =
    let slow = is_above_iff signal.ttft_p95_ms cfg.target_ttft_ms in
    let full = is_above_iff signal.queue_per_replica cfg.target_queue in
    ((λ h. either (or_true _ _ h) slow.0 full.0), (λ h. or_either h slow.1 full.1))
  where
    either : {A B C D : Type 0} → A ⊎ B → (A → C) → (B → D) → C ⊎ D
    either (inl a) f g = inl (f a)
    either (inr b) f g = inr (g b)

    or_true : (a b : Bool) → (a || b) ≡ true → (a ≡ true) ⊎ (b ≡ true)
    or_true true b h = inl refl
    or_true false b h = inr h

    or_either :
        {C D : Type 0} {a b : Bool} → C ⊎ D → (C → a ≡ true) → (D → b ≡ true) → (a || b) ≡ true
    or_either (inl c) f g = let e = f c in ground arith
    or_either (inr d) f g = let e = g d in ground arith

both_true : (a b : Bool) → (a && b) ≡ true → (a ≡ true) × (b ≡ true)
both_true a b h = ground arith

and_true : (a b : Bool) → a ≡ true → b ≡ true → (a && b) ≡ true
and_true a b h k = ground arith

is_idle_iff :
    (cfg : AutoscaleSettings) (minimum : ℕ) (signal : Signal)
    → (is_idle cfg minimum signal ≡ true) ↔ IsIdle cfg minimum signal
unfolding is_idle
is_idle_iff cfg minimum signal =
    let quick = is_low_iff cfg signal.ttft_p95_ms cfg.target_ttft_ms in
    let short = is_low_iff cfg signal.queue_per_replica cfg.target_queue in
    (
      (λ h.
          let (low, rest) = both_true _ _ h in
          let (empty, serves) = both_true _ _ rest in
          (quick.0 low, short.0 empty, leb→le _ _ serves)),
      (λ h. and_true _ _ (quick.1 h.0) (and_true _ _ (short.1 h.1) (le→leb _ _ h.2))),
    )

no_data_iff : (signal : Signal) → (no_data signal ≡ true) ↔ IsSilent signal
unfolding no_data
no_data_iff signal =
    let slow = is_absent_iff signal.ttft_p95_ms in
    let full = is_absent_iff signal.queue_per_replica in
    (
      (λ h. let (a, b) = both_true _ _ h in (slow.0 a, full.0 b)),
      (λ h. and_true _ _ (slow.1 h.0) (full.1 h.1)),
    )

min_next : (current maximum : ℕ) → current < maximum → current + 1 ≡ min maximum (current + 1)
min_next current maximum h = omega arith

max_previous : (current minimum : ℕ) → minimum < current → current - 1 ≡ max minimum (current - 1)
max_previous current minimum h = omega arith

module _ (cfg : AutoscaleSettings) (current minimum maximum : ℕ) (signal : Signal) where
  not_both : (a : Bool) (n m : ℕ) → (a && ltb n m) ≡ false → a ≡ true → m ≤ n
  not_both a n m h e = ground arith

  speaks : no_data signal ≡ false → ¬ IsSilent signal
  speaks h silent = let e = (no_data_iff signal).1 silent in cc

  not_grown :
      (is_busy cfg signal && ltb current maximum) ≡ false → IsBusy cfg signal → maximum ≤ current
  not_grown h busy = not_both _ current maximum h ((is_busy_iff cfg signal).1 busy)

  not_shrunk :
      (is_idle cfg minimum signal && ltb minimum current) ≡ false
      → IsIdle cfg minimum signal
      → current ≤ minimum
  not_shrunk h idle = not_both _ minimum current h ((is_idle_iff cfg minimum signal).1 idle)

  IsStep-by_tests :
      (absent more less : Bool)
      → no_data signal ≡ absent
      → (is_busy cfg signal && ltb current maximum) ≡ more
      → (is_idle cfg minimum signal && ltb minimum current) ≡ less
      → IsStep cfg current minimum maximum signal (
          if absent
          then current
          else if more
          then min maximum (current + 1)
          else if less
          then max minimum (current - 1)
          else current)
  IsStep-by_tests true more less e1 e2 e3 = stay (inl ((no_data_iff signal).0 e1))
  IsStep-by_tests false true less e1 e2 e3 =
      let (busy, below) = both_true _ _ e2 in
      subst (IsStep cfg current minimum maximum signal)
        (min_next current maximum (ltb→lt _ _ below))
        (grow (speaks e1) ((is_busy_iff cfg signal).0 busy) (ltb→lt _ _ below))
  IsStep-by_tests false false true e1 e2 e3 =
      let (idle, over) = both_true _ _ e3 in
      subst (IsStep cfg current minimum maximum signal)
        (max_previous current minimum (ltb→lt _ _ over))
        (shrink (speaks e1) (not_grown e2) ((is_idle_iff cfg minimum signal).0 idle)
          (ltb→lt _ _ over))
  IsStep-by_tests false false false e1 e2 e3 = stay (inr (not_grown e2, not_shrunk e3))

-- `desired_replicas` adds one unit exactly if a signal is above its target and the count below the
-- window's end; else it takes one away exactly if each signal that has data is below the ratio of
-- its target, at least the minimum serves and the count is above the window's start; else, and
-- whenever neither signal has data, it keeps the count.
pub desired_replicas-IsStep :
    (cfg : AutoscaleSettings) (current minimum maximum : ℕ) (signal : Signal)
    → IsStep cfg current minimum maximum signal
        (desired_replicas cfg current minimum maximum signal)
unfolding desired_replicas
desired_replicas-IsStep cfg current minimum maximum signal =
    IsStep-by_tests cfg current minimum maximum signal _ _ _ refl refl refl

-- The three cases of an answer, by its number.
pub IsStep-cases :
    (cfg : AutoscaleSettings) (current minimum maximum : ℕ) (signal : Signal) (n : ℕ)
    → IsStep cfg current minimum maximum signal n
    → ((n ≡ current)
        × (IsSilent signal
            ⊎ ((IsBusy cfg signal → maximum ≤ current)
                × (IsIdle cfg minimum signal → current ≤ minimum))))
      ⊎ ((n ≡ current + 1) × (n ≤ maximum) × IsBusy cfg signal)
      ⊎ ((current ≡ n + 1) × (minimum ≤ n) × IsIdle cfg minimum signal)
IsStep-cases cfg current minimum maximum signal n (grow heard busy below) =
    inr (inl (refl, omega arith, busy))
IsStep-cases cfg current minimum maximum signal n (shrink heard calm idle over) =
    inr (inr (omega arith, omega arith, idle))
IsStep-cases cfg current minimum maximum signal n (stay why) = inl (refl, why)

-- From inside the window the policy stays inside the window, and moves by at most one unit.
pub desired_replicas-InWindow :
    (cfg : AutoscaleSettings) (current minimum maximum : ℕ) (signal : Signal)
    → minimum ≤ current
    → current ≤ maximum
    → let n = desired_replicas cfg current minimum maximum signal in
      (minimum ≤ n) × (n ≤ maximum) × (n ≤ current + 1) × (current ≤ n + 1)
unfolding desired_replicas
desired_replicas-InWindow cfg current minimum maximum signal low high = ground arith
