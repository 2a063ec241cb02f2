-- ===== src/Scheduler/Ports.antt =====
-- The port search: the least port of the range that no reserved instance and no earlier replica
-- of the call holds.
use inferna_next.Base.{
  Bool-cases, List, Option, arith, dec_lt, false, inl, inr, none, refl, some, subst, suc, true,
  zero, ℕ, ◌++◌, ◌+◌, ◌-◌, ◌<◌, ◌≡◌, ◌≤◌,
}
use inferna_next.Base.Member.{elem, elem-append}
use inferna_next.Base.Results.{Result, err, ok, or_raise}
use inferna_next.Models.{ModelInstance, Settings}
use inferna_next.Scheduler.{AllocError, alloc_port, first_free, no_free_port, ports_of}

-- The answer `p` of a search of `count` ports from `start` on.
abbrev pub IsFirstFree : List ℕ → ℕ → ℕ → ℕ → Type 0
IsFirstFree used count start p =
    (start ≤ p)
    × (p < start + count)
    × (elem p used ≡ false)
    × ((q : ℕ) → start ≤ q → q < p → elem q used ≡ true)

first_free-some :
    (used : List ℕ) (count start p : ℕ)
    → first_free used count start ≡ some p
    → IsFirstFree used count start p
unfolding first_free
first_free-some used zero start p h = cc
first_free-some used (suc count) start p h = elim (Bool-cases (elem start used)) [
  | inl taken ↦
      let r = first_free-some used count (start + 1) p (rw taken at h) in
      (omega arith, omega arith, r.2, λ q lo hi. below q lo hi taken (r.3 q))
  | inr free ↦
      let e : start ≡ p = some_eq (rw free at h) in
      (omega arith, omega arith, rw (← e) free, λ q lo hi. absurd (omega arith))
]
  where
    some_eq : some start ≡ some p → start ≡ p
    some_eq e = cc

    below :
        (q : ℕ)
        → start ≤ q
        → q < p
        → elem start used ≡ true
        → (start + 1 ≤ q → q < p → elem q used ≡ true)
        → elem q used ≡ true
    below q lo hi taken later = elim (dec_lt start q) [
      | yes l ↦ later (omega arith) hi
      | no n ↦ let e : q ≡ start = omega arith in rw e taken
    ]

first_free-none :
    (used : List ℕ) (count start : ℕ)
    → first_free used count start ≡ none
    → (q : ℕ) → start ≤ q
    → q < start + count
    → elem q used ≡ true
unfolding first_free
first_free-none used zero start h q lo hi = absurd (omega arith)
first_free-none used (suc count) start h q lo hi = elim (Bool-cases (elem start used)) [
  | inl taken ↦ elim (dec_lt start q) [
    | yes l ↦ first_free-none used count (start + 1) (rw taken at h) q (omega arith) (omega arith)
    | no n ↦ let e : q ≡ start = omega arith in rw e taken
  ]
  | inr free ↦ absurd (some_none (rw free at h))
]
  where
    some_none : some start ≡ none → ⊥
    some_none e = cc

module _ (cfg : Settings) (is : List ModelInstance) (extra : List ℕ) where
  abbrev pub taken_ports : List ℕ
  taken_ports = ports_of is ++ extra

  -- How `_alloc_port` ends: a port, or the error.
  abbrev pub PortOutcome : Result AllocError ℕ → Type 0
  PortOutcome (ok p) =
      (cfg.instance_port_range_start ≤ p)
      × (p ≤ cfg.instance_port_range_end)
      × (elem p taken_ports ≡ false)
      × ((q : ℕ) → cfg.instance_port_range_start ≤ q → q < p → elem q taken_ports ≡ true)
  PortOutcome (err e) =
      (e ≡ no_free_port)
      × ((q : ℕ)
          → cfg.instance_port_range_start ≤ q
          → q ≤ cfg.instance_port_range_end
          → elem q taken_ports ≡ true)

  abbrev count_ports : ℕ
  count_ports = cfg.instance_port_range_end + 1 - cfg.instance_port_range_start

  outcome_of :
      (r : Option ℕ)
      → first_free taken_ports count_ports cfg.instance_port_range_start ≡ r
      → PortOutcome (or_raise r no_free_port)
  outcome_of none h = (
    refl,
    λ q lo hi.
        first_free-none taken_ports count_ports cfg.instance_port_range_start h q lo (omega arith),
  )
  outcome_of (some p) h =
      let r = first_free-some taken_ports count_ports cfg.instance_port_range_start p h in
      (r.0, omega arith, r.2, r.3)

  -- `_alloc_port` returns the least port of the configured range that neither a reserved instance
  -- nor an earlier replica of the call holds, and raises "no free host port" exactly when every
  -- port of the range is held.
  pub alloc_port-PortOutcome : PortOutcome (alloc_port cfg is extra)
  unfolding alloc_port
  alloc_port-PortOutcome =
      outcome_of (first_free taken_ports count_ports cfg.instance_port_range_start) refl

  pub alloc_port-err : (e : AllocError) → alloc_port cfg is extra ≡ err e → e ≡ no_free_port
  alloc_port-err e h = (subst PortOutcome h alloc_port-PortOutcome).0

  pub alloc_port-ok :
      (p : ℕ)
      → alloc_port cfg is extra ≡ ok p
      → (cfg.instance_port_range_start ≤ p)
        × (p ≤ cfg.instance_port_range_end)
        × (elem p (ports_of is) ≡ false)
        × (elem p extra ≡ false)
  alloc_port-ok p h =
      let r = subst PortOutcome h alloc_port-PortOutcome in
      let apart = elem-append p (ports_of is) extra in
      (r.0, r.1, ground (arith, apart, r.2), ground (arith, apart, r.2))
