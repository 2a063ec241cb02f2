-- ===== src/Engine/Probes/Ends.antt =====
-- The health probe: when it ends, and what its end says.
use inferna_next.Base.{
  ==_iff, Bool-cases, arith, false, inl, inr, ltb, refl, some, subst, suc, sym, true, zero, ℕ, ◌*◌,
  ◌+◌, ◌<◌, ◌==◌, ◌∙◌, ◌≡◌, ◌≤◌, ◌⊎◌,
}
use inferna_next.Base.Text.{codes}
use inferna_next.Base.Strings.{or_text}
use inferna_next.Engine.Probes.{
  ProbeEnd, Round, broken, exit_detail, has_ended, health_deadline, health_probe,
  health_probe_interval, healthy, is_ok,
}

-- Between two rounds the loop sleeps at least that long, and the first round is not before `now`.
abbrev pub IsPaced : ℕ → (ℕ → Round) → ℕ → Type 0
IsPaced pause rounds now =
    (now ≤ (rounds 0).time) × ((k : ℕ) → (rounds k).time + pause ≤ (rounds (k + 1)).time)

paced-time :
    (rounds : ℕ → Round) (now pause k : ℕ)
    → IsPaced (suc pause) rounds now
    → now + k * suc pause ≤ (rounds k).time
paced-time rounds now pause zero p = omega (arith, p.0)
paced-time rounds now pause (suc k) p =
    let before_it = paced-time rounds now pause k p in
    let next : (rounds k).time + suc pause ≤ (rounds (suc k)).time =
      subst (λ n. (rounds k).time + suc pause ≤ (rounds n).time) (omega arith) (p.1 k) in
    let product : suc k * suc pause ≡ k * suc pause + suc pause = grind arith in
    omega (arith, before_it, next, product)

-- The round that ends the probe: the earlier rounds were in time and saw nothing, and it is late, sees
-- that the container has ended, or sees an answer of the engine.
abbrev pub IsIdle : ℕ → Round → Type 0
IsIdle deadline r =
    (r.time < deadline)
    × (has_ended r.before_status ≡ false)
    × (is_ok r.response ≡ false)
    × (has_ended r.after_status ≡ false)

abbrev pub IsEndOf : ℕ → Round → ProbeEnd → Type 0
IsEndOf deadline r healthy =
    (r.time < deadline) × (has_ended r.before_status ≡ false) × (is_ok r.response ≡ true)
IsEndOf deadline r (broken detail) =
    (deadline ≤ r.time) ⊎ ((has_ended r.before_status ≡ true) ⊎ (has_ended r.after_status ≡ true))

health_step :
    (rounds : ℕ → Round) (deadline fuel k : ℕ)
    → ((e : ProbeEnd) × (health_probe rounds deadline (suc fuel) k ≡ some e)
        × IsEndOf deadline (rounds k) e)
      ⊎ (IsIdle deadline (rounds k)
          × (health_probe rounds deadline (suc fuel) k ≡ health_probe rounds deadline fuel (k + 1)))
unfolding health_probe
health_step rounds deadline fuel k = elim (Bool-cases (ltb (rounds k).time deadline)) [
  | inr late ↦ inl (
    broken (or_text (rounds k).tail (codes "health probe timed out")),
    rw (health_probe, late) refl,
    inl (ground arith),
  )
  | inl early ↦
      let in_time : (rounds k).time < deadline = ground arith in
      elim (Bool-cases (has_ended (rounds k).before_status)) [
        | inl a ↦ inl (
          broken (exit_detail (rounds k).tail (rounds k).before_status),
          rw (health_probe, early, a) refl,
          inr (inl a),
        )
        | inr a ↦ elim (Bool-cases (is_ok (rounds k).response)) [
          | inl b ↦ inl (healthy, rw (health_probe, early, a, b) refl, (in_time, a, b))
          | inr b ↦ elim (Bool-cases (has_ended (rounds k).after_status)) [
            | inl c ↦ inl (
              broken (exit_detail (rounds k).tail (rounds k).after_status),
              rw (health_probe, early, a, b, c) refl,
              inr (inr c),
            )
            | inr c ↦ inr ((in_time, a, b, c), rw (health_probe, early, a, b, c) refl)
          ]
        ]
      ]
]

-- The probe ends in round `n` with `e`, after rounds that saw nothing.
abbrev pub IsEndAt : (ℕ → Round) → ℕ → ℕ → ℕ → ProbeEnd → Type 0
IsEndAt rounds deadline k n e =
    IsEndOf deadline (rounds n) e × ((j : ℕ) → k ≤ j → j < n → IsIdle deadline (rounds j))

health_ends :
    (rounds : ℕ → Round) (deadline left k fuel : ℕ)
    → left < fuel
    → deadline ≤ (rounds (k + left)).time
    → (n : ℕ) × (e : ProbeEnd) × (n ≤ k + left)
      × (health_probe rounds deadline fuel k ≡ some e)
      × IsEndAt rounds deadline k n e
health_ends rounds deadline left k zero enough late = absurd (omega arith)
health_ends rounds deadline zero k (suc fuel) enough late =
    elim (health_step rounds deadline fuel k) [
      | inl (e, h, end) ↦ (k, e, omega arith, h, (end, (λ j le lt. absurd (omega arith))))
      | inr (idle, h) ↦
          let late_k : deadline ≤ (rounds k).time =
            subst (λ n. deadline ≤ (rounds n).time) (omega arith) late in
          absurd (omega (arith, idle.0, late_k))
    ]
health_ends rounds deadline (suc left) k (suc fuel) enough late =
    elim (health_step rounds deadline fuel k) [
      | inl (e, h, end) ↦ (k, e, omega arith, h, (end, (λ j le lt. absurd (omega arith))))
      | inr (idle, h) ↦
          let late_next : deadline ≤ (rounds (k + 1 + left)).time =
            subst (λ n. deadline ≤ (rounds n).time) (omega arith) late in
          let (n, e, le, run_on, ended) =
            health_ends rounds deadline left (k + 1) fuel (omega arith) late_next in
          (
            n,
            e,
            omega (arith, le),
            h ∙ run_on,
            (
              ended.0,
              (λ j from lt. elim (Bool-cases (j == k)) [
                | inl same ↦
                    subst (λ m. IsIdle deadline (rounds m)) (sym ((==_iff j k).0 same)) idle
                | inr other ↦ ended.1 j (after_k j from other) lt
              ]),
            ),
          )
    ]
  where
    after_k : (j : ℕ) → k ≤ j → (j == k) ≡ false → k + 1 ≤ j
    after_k j from other = ground arith

-- A health probe that sleeps the interval between its rounds ends after at most 240 of them, with any
-- fuel for more rounds: it ends in the first round that is past the deadline, sees the container
-- ended, or is answered with 200, and marks the instance as running only in the last case.
pub health_probe-IsEndAt :
    (rounds : ℕ → Round) (now fuel : ℕ)
    → IsPaced health_probe_interval rounds now
    → 240 < fuel
    → (n : ℕ) × (e : ProbeEnd) × (n ≤ 240)
      × (health_probe rounds (health_deadline now) fuel 0 ≡ some e)
      × IsEndAt rounds (health_deadline now) 0 n e
health_probe-IsEndAt rounds now fuel paced enough =
    let late = paced-time rounds now 9 240 paced in
    let (n, e, le, h, end) =
      health_ends rounds (health_deadline now) 240 0 fuel enough (omega (arith, late)) in
    (n, e, omega (arith, le), h, end)
