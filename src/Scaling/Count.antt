-- ===== src/Scaling/Count.antt =====
-- How many live units a deployment has after `apply_scale`.
use inferna_next.Base.{
  Bool, List, [], all, any, arith, false, filter, if◌then◌else◌, inl, inr, length, length-append,
  length-take, not, refl, suc, take, true, zero, ℕ, ◌&&◌, ◌++◌, ◌+◌, ◌∷◌, ◌≡◌, ◌≤◌,
}
use inferna_next.Base.Member.{Distinct, In, In-append_cases, In-of_filter, elem}
use inferna_next.Base.Keys.{Distinct-filter, Distinct-sort_by, Distinct-take, keys}
use inferna_next.Base.Sorting.{In-of_sort_by, length-sort_by, sort_by}
use inferna_next.Models.{ModelInstance, is_error, is_live, is_running}
use inferna_next.Scaling.{
  ReplicaUnit, all_running, is_broken, is_live_unit, is_pending, is_serving, stops_before,
}
use inferna_next.Scaling.Apply.{effective_capacity, to_stop}
use inferna_next.Scaling.Counting.{
  Distinct-filters, count, count-spared, elem-filter_dropped, length-filter-count, spared, unit_id,
}

-- A live unit that is neither serving, pending nor broken: some rank has stopped by itself.
abbrev pub is_limbo : ReplicaUnit → Bool
is_limbo u = is_live_unit u && (not (is_serving u) && (not (is_pending u) && not (is_broken u)))

running_not_error :
    (is : List ModelInstance)
    → all (λ i. is_running i.state) is ≡ true
    → any (λ i. is_error i.state) is ≡ false
running_not_error [] h = refl
running_not_error (i ∷ is) h = ground (arith, running_not_error is)

live_not_error :
    (is : List ModelInstance)
    → all (λ i. is_live i.state) is ≡ true
    → any (λ i. is_error i.state) is ≡ false
live_not_error [] h = refl
live_not_error (i ∷ is) h = ground (arith, live_not_error is)

serving_not_broken : (u : ReplicaUnit) → is_serving u ≡ true → is_broken u ≡ false
serving_not_broken u h = ground (arith, running_not_error u.members)

pending_not_broken : (u : ReplicaUnit) → is_pending u ≡ true → is_broken u ≡ false
pending_not_broken u h = ground (arith, live_not_error u.members)

serving_not_pending : (u : ReplicaUnit) → is_serving u ≡ true → is_pending u ≡ false
serving_not_pending u h = ground arith

one_kind :
    (live run_all live_all failed : Bool)
    → ((live && run_all) ≡ true → (live && failed) ≡ false)
    → ((live && (not run_all && live_all)) ≡ true → (live && failed) ≡ false)
    → (if live then 1 else 0)
      ≡ (if live && run_all then 1 else 0)
        + (if live && (not run_all && live_all) then 1 else 0)
        + (if live && failed then 1 else 0)
        + (if live
              && (not (live && run_all)
                  && (not (live && (not run_all && live_all)) && not (live && failed)))
            then 1
            else 0)
one_kind live run_all live_all failed h k = ground arith

-- A live unit is of exactly one kind.
pub count-kinds :
    (us : List ReplicaUnit)
    → count is_live_unit us
      ≡ count is_serving us + count is_pending us + count is_broken us + count is_limbo us
count-kinds [] = refl
count-kinds (u ∷ us) = omega (
  arith,
  count-kinds us,
  one_kind (is_live_unit u) (all_running u) (all (λ i. is_live i.state) u.members)
      (any (λ i. is_error i.state) u.members) (serving_not_broken u) (pending_not_broken u),
)

module _ (us : List ReplicaUnit) (distinct : Distinct (keys unit_id us)) where
  abbrev broken_keys : List ℕ
  broken_keys = keys unit_id (filter is_broken us)

  abbrev usable : List ReplicaUnit
  usable = filter is_serving us ++ filter is_pending us

  broken_live : (u : ReplicaUnit) → is_broken u ≡ true → is_live_unit u ≡ true
  broken_live u h = ground arith

  -- Once the broken units are stopped, the capacity and the limbo units are left.
  pub count-unbroken :
      count (spared is_live_unit broken_keys) us ≡ effective_capacity us + count is_limbo us
  unfolding effective_capacity
  count-unbroken = omega (
    arith,
    count-kinds us,
    count-spared is_live_unit us (filter is_broken us) distinct
        (Distinct-filter unit_id is_broken us distinct)
        (λ u m. let (k, b) = In-of_filter is_broken u us m in (k, broken_live u b)),
    length-filter-count is_serving us,
    length-filter-count is_pending us,
    length-filter-count is_broken us,
  )

  -- A unit that is serving or pending is live and not broken.
  usable_ok : (u : ReplicaUnit) → In u usable → In u us × (spared is_live_unit broken_keys u ≡ true)
  usable_ok u m = elim (In-append_cases u (filter is_serving us) (filter is_pending us) m) [
    | inl s ↦
        let (k, h) = In-of_filter is_serving u us s in
        (
          k,
          keep (elem-filter_dropped is_broken us u distinct k (serving_not_broken u h)) (live_s h),
        )
    | inr p ↦
        let (k, h) = In-of_filter is_pending u us p in
        (
          k,
          keep (elem-filter_dropped is_broken us u distinct k (pending_not_broken u h)) (live_p h),
        )
  ]
    where
      live_s : is_serving u ≡ true → is_live_unit u ≡ true
      live_s h = ground arith

      live_p : is_pending u ≡ true → is_live_unit u ≡ true
      live_p h = ground arith

      keep :
          elem u.key broken_keys ≡ false
          → is_live_unit u ≡ true
          → spared is_live_unit broken_keys u ≡ true
      keep a b = ground arith

  In-take : (n : ℕ) (u : ReplicaUnit) (vs : List ReplicaUnit) → In u (take n vs) → In u vs
  In-take zero u vs m = absurd m
  In-take (suc n) u [] m = absurd m
  In-take (suc n) u (v ∷ vs) (inl e) = inl e
  In-take (suc n) u (v ∷ vs) (inr m) = inr (In-take n u vs m)

  length-usable : length usable ≡ effective_capacity us
  unfolding effective_capacity
  length-usable = length-append (filter is_serving us) (filter is_pending us)

  -- A scale-in of `n` units leaves the rest of the capacity and the limbo units.
  pub count-scale_in :
      (n : ℕ)
      → n ≤ effective_capacity us
      → count (spared (spared is_live_unit broken_keys) (keys unit_id (to_stop us n))) us + n
        ≡ effective_capacity us + count is_limbo us
  unfolding to_stop
  count-scale_in n h = omega (
    arith,
    count-unbroken,
    count-spared (spared is_live_unit broken_keys) us (take n (sort_by stops_before usable))
        distinct
        (Distinct-take unit_id n _ (
          Distinct-sort_by unit_id stops_before usable
            (Distinct-filters is_serving is_pending us distinct serving_not_pending)))
        (λ u m. usable_ok u (In-of_sort_by stops_before u usable (In-take n u _ m))),
    length-take n (sort_by stops_before usable),
    length-sort_by stops_before usable,
    length-usable,
  )
