-- ===== src/Scaling/Outcome.antt =====
-- The outcome of `apply_scale`: scale-in and steady calls of any deployment, and all calls of a
-- single-node deployment.
use inferna_next.Base.{
  Bool, Bool-cases, List, [], ap, arith, dec_lt, false, if◌then◌else◌, inl, inr, length, ltb,
  lt→ltb, map, refl, some, subst, sym, true, ℕ, ◌++◌, ◌+◌, ◌-◌, ◌<◌, ◌∙◌, ◌∷◌, ◌≡◌, ◌≤◌,
}
use inferna_next.Base.Member.{Distinct}
use inferna_next.Base.Keys.{keys}
use inferna_next.Base.Results.{ok, ok-injective, returned_by, ◌>>=◌}
use inferna_next.Models.{Db, ModelInstance, Settings}
use inferna_next.Scheduler.{Allocation}
use inferna_next.Scheduler.Replicas.Capacity.{allocate_replicas-ArePlaced}
use inferna_next.Scaling.{
  Deployment, ReplicaUnit, is_live_unit, is_single, replica_units, single_units, stop_keys,
  unit_keys, units_of,
}
use inferna_next.Scaling.Apply.{
  apply_scale, effective_capacity, resize, scale_out, single_rows, target_of, to_stop,
}
use inferna_next.Scaling.Counting.{count, count-append}
use inferna_next.Scaling.Stops.{stop_unit, units_of-stop}
use inferna_next.Scaling.Capacity.{
  broken_of, count-own, count-surplus, limbo_units, live_units, own, row_id, surplus_of, units-own,
  us,
}

-- The deployment with new rows, and its window as the call leaves it.
abbrev pub scaled : Deployment → List ModelInstance → ℕ → Bool → ℕ → Deployment
scaled d rows target set_range now = record d {
  instances = rows;
  min_replicas = if set_range then target else d.min_replicas;
  max_replicas = if set_range then target else d.max_replicas;
  last_scaled_at = some now;
}

map-stop_none : (us : List ReplicaUnit) → map (stop_unit []) us ≡ us
unfolding stop_unit
map-stop_none [] = refl
map-stop_none (u ∷ us) = ap (◌∷◌ u) (map-stop_none us)

surplus-none :
    (d : Deployment) (target : ℕ)
    → effective_capacity (replica_units d) - target ≡ 0
    → surplus_of d target ≡ []
unfolding to_stop unit_keys
surplus-none d target e = rw e

-- The rows of a call that adds nothing.
abbrev pub rows_in : Deployment → ℕ → List ModelInstance
rows_in d target =
    if ltb target (effective_capacity (replica_units d))
    then stop_keys (is_single d) (surplus_of d target) (own d)
    else own d

pub replica_units-eq : (e : Deployment) → replica_units e ≡ units_of (is_single e) e.instances
unfolding replica_units
replica_units-eq e = refl

not_less : (n m : ℕ) → m ≤ n → ltb n m ≡ false
not_less n m h = ground arith

-- The call on `d` left `e` the window and the live units that it was to give it.
abbrev pub IsScaled : Deployment → ℕ → Bool → Deployment → Type 0
IsScaled d target set_range e =
    (live_units e ≡ target + limbo_units d)
    × (e.min_replicas ≡ (if set_range then target else d.min_replicas))
    × (e.max_replicas ≡ (if set_range then target else d.max_replicas))

module _ (cfg : Settings) (uuid4 : ℕ → ℕ) (now : ℕ) (db : Db) (d : Deployment)
    (unique : Distinct (keys row_id d.instances)) where
  resize-in :
      (target : ℕ)
      → target ≤ effective_capacity (replica_units d)
      → resize cfg uuid4 now db d (replica_units d) target ≡ ok (rows_in d target)
  unfolding resize
  resize-in target h =
      rw (not_less (effective_capacity (replica_units d)) target h)
        (elim (Bool-cases (ltb target (effective_capacity (replica_units d)))) [
          | inl less ↦ rw less
          | inr same ↦ rw same
        ])

  units-in :
      (target : ℕ)
      → target ≤ effective_capacity (replica_units d)
      → units_of (is_single d) (rows_in d target)
        ≡ map (stop_unit (surplus_of d target)) (map (stop_unit (broken_of d)) (replica_units d))
  units-in target h = elim (Bool-cases (ltb target (effective_capacity (replica_units d)))) [
    | inl less ↦
        rw (less, units_of-stop (is_single d) (surplus_of d target) (own d), units-own d unique)
    | inr same ↦ rw (
      same,
      units-own d unique,
      surplus-none d target (ground arith),
      map-stop_none (map (stop_unit (broken_of d)) (replica_units d)),
    )
  ]

  -- A call for no more units than the deployment's capacity, the serving and the pending ones,
  -- succeeds. It stops whole units: the broken ones, and the surplus that `to_stop` names. All other
  -- units keep their rows as they were. The live units are then as many as the target, and the units
  -- in limbo.
  pub apply_scale-in :
      (replicas : ℕ) (set_range : Bool)
      → target_of d replicas set_range ≤ effective_capacity (replica_units d)
      → let target = target_of d replicas set_range in
        let e = scaled d (rows_in d target) target set_range now in
        (apply_scale cfg uuid4 now db d replicas set_range ≡ ok e)
        × (replica_units e
            ≡ map
                (stop_unit (surplus_of d target))
                (map (stop_unit (broken_of d)) (replica_units d)))
        × (live_units e ≡ target + limbo_units d)
  unfolding apply_scale
  apply_scale-in replicas set_range h =
      let target = target_of d replicas set_range in
      let units = units_eq target h in
      (
        rw (resize-in target h),
        units,
        ap (count is_live_unit) units ∙ count-surplus d unique target h,
      )
    where
      units_eq :
          (target : ℕ)
          → target ≤ effective_capacity (replica_units d)
          → replica_units (scaled d (rows_in d target) target set_range now)
            ≡ map
                (stop_unit (surplus_of d target))
                (map (stop_unit (broken_of d)) (replica_units d))
      units_eq target h =
          replica_units-eq (scaled d (rows_in d target) target set_range now) ∙ units-in target h

  single_units-append :
      (is js : List ModelInstance) → single_units (is ++ js) ≡ single_units is ++ single_units js
  unfolding single_units
  single_units-append [] js = refl
  single_units-append (i ∷ is) js =
      ap (◌∷◌ (record { key = i.id; members = i ∷ [] })) (single_units-append is js)

  units_of-single : (is : List ModelInstance) → units_of true is ≡ single_units is
  unfolding units_of
  units_of-single is = refl

  -- Every new row is a live unit of its own.
  count-single_rows :
      (k : ℕ) (xs : List Allocation)
      → count is_live_unit (single_units (single_rows uuid4 now d k xs)) ≡ length xs
  unfolding single_units single_rows
  count-single_rows k [] = refl
  count-single_rows k (a ∷ xs) = omega (arith, count-single_rows (k + 1) xs)

  -- The rows of a call that adds single instances.
  abbrev pub rows_out : List Allocation → List ModelInstance
  rows_out xs = own d ++ single_rows uuid4 now d 0 xs

  scale_out-single :
      (n : ℕ) (rows : List ModelInstance)
      → is_single d ≡ true
      → scale_out cfg uuid4 now db d (replica_units d) (own d) n ≡ ok rows
      → (xs : List Allocation) × (rows ≡ rows_out xs) × (length xs ≡ n)
  unfolding scale_out
  scale_out-single n rows single e =
      let one : ltb 1 d.nodes_per_replica ≡ false = ground arith in
      let (xs, e1, e2) = returned_by _ _ (rw one at e) in
      let fits = allocate_replicas-ArePlaced cfg _ _ _ _ n _ xs e1 in
      (xs, sym (ok-injective e2), fits.complete)

  count-added :
      (single : Bool) (is : List ModelInstance) (xs : List Allocation)
      → single ≡ true
      → count is_live_unit (units_of single (is ++ single_rows uuid4 now d 0 xs))
        ≡ count is_live_unit (units_of single is) + length xs
  count-added false is xs e = cc
  count-added true is xs e = rw (
    units_of-single,
    units_of-single is,
    single_units-append is (single_rows uuid4 now d 0 xs),
    count-append is_live_unit (single_units is) _,
    count-single_rows 0 xs,
  )

  count-out :
      (xs : List Allocation)
      → is_single d ≡ true
      → count is_live_unit (units_of (is_single d) (rows_out xs))
        ≡ effective_capacity (replica_units d) + limbo_units d + length xs
  count-out xs single =
      omega (arith, count-added (is_single d) (own d) xs single, count-own d unique)

  resize-out :
      (target : ℕ)
      → effective_capacity (replica_units d) < target
      → resize cfg uuid4 now db d (replica_units d) target
        ≡ scale_out cfg uuid4 now db d
            (replica_units d)
            (own d)
            (target - effective_capacity (replica_units d))
  unfolding resize
  resize-out target h = rw (lt→ltb _ _ h)

  out-IsScaled :
      (target : ℕ) (set_range : Bool) (e : Deployment)
      → is_single d ≡ true
      → effective_capacity (replica_units d) < target
      → (resize cfg uuid4 now db d (replica_units d) target >>= λ rows.
          ok (scaled d rows target set_range now))
        ≡ ok e
      → IsScaled d target set_range e
  out-IsScaled target set_range e single more done =
      let (rows, e1, e2) = returned_by _ _ done in
      let (xs, er, n) =
        scale_out-single (target - effective_capacity (replica_units d)) rows single
          (sym (resize-out target more) ∙ e1) in
      subst (IsScaled d target set_range) (ok-injective e2) (live rows xs er n, refl, refl)
    where
      replica_units-live :
          (rows : List ModelInstance)
          → live_units (scaled d rows target set_range now)
            ≡ count is_live_unit (units_of (is_single d) rows)
      replica_units-live rows =
          ap (count is_live_unit) (replica_units-eq (scaled d rows target set_range now))

      live :
          (rows : List ModelInstance) (xs : List Allocation)
          → rows ≡ rows_out xs
          → length xs ≡ target - effective_capacity (replica_units d)
          → live_units (scaled d rows target set_range now) ≡ target + limbo_units d
      live rows xs er n =
          let shape = ap (λ r. count is_live_unit (units_of (is_single d) r)) er in
          omega (arith, replica_units-live rows, shape, count-out xs single, n)

  -- If `apply_scale` succeeds on a single-node deployment, its live units are as many as the target,
  -- which is the count that was asked for, clamped into the window unless the call sets the window,
  -- and the units in limbo: desired to run, stopped by themselves, neither capacity nor broken. The
  -- window is the target if the call sets it, and is unchanged if not.
  pub apply_scale-IsScaled :
      (replicas : ℕ) (set_range : Bool) (e : Deployment)
      → is_single d ≡ true
      → apply_scale cfg uuid4 now db d replicas set_range ≡ ok e
      → IsScaled d (target_of d replicas set_range) set_range e
  unfolding apply_scale
  apply_scale-IsScaled replicas set_range e single done =
      elim (dec_lt (effective_capacity (replica_units d)) (target_of d replicas set_range)) [
        | yes more ↦
            out-IsScaled (target_of d replicas set_range) set_range e single more (step done)
        | no fewer ↦
            let r = apply_scale-in replicas set_range (omega arith) in
            subst (IsScaled d (target_of d replicas set_range) set_range)
              (ok-injective (sym r.0 ∙ done)) (r.2, refl, refl)
      ]
    where
      step :
          apply_scale cfg uuid4 now db d replicas set_range ≡ ok e
          → (resize cfg uuid4 now db d (replica_units d) (target_of d replicas set_range)
              >>= λ rows. ok (scaled d rows (target_of d replicas set_range) set_range now))
            ≡ ok e
      step h = h
