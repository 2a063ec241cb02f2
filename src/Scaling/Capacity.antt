-- ===== src/Scaling/Capacity.antt =====
-- What `apply_scale` makes of a deployment: its live units against the count that was asked for.
use inferna_next.Base.{
  Bool, List, [], ap, arith, false, filter, map, refl, subst, sym, true, ℕ, ◌+◌, ◌-◌, ◌==◌, ◌||◌,
  ◌∙◌, ◌∷◌, ◌≡◌, ◌≤◌,
}
use inferna_next.Base.Member.{Distinct, elem}
use inferna_next.Base.Keys.{keys}
use inferna_next.Models.{ModelInstance}
use inferna_next.Scaling.{
  Deployment, ReplicaUnit, group_add, group_from, is_broken, is_live_unit, is_single, replica_units,
  single_units, stop_keys, unit_key, unit_keys, units_of,
}
use inferna_next.Scaling.Apply.{effective_capacity, to_stop}
use inferna_next.Scaling.Counting.{count, count-ext, spared, unit_id}
use inferna_next.Scaling.Stops.{count-stopped, stop_unit, units_of-stop}
use inferna_next.Scaling.Count.{count-scale_in, count-unbroken, is_limbo}

abbrev pub row_id : ModelInstance → ℕ
row_id i = i.id

-- The live units of a deployment, and those of them in limbo.
abbrev pub live_units : Deployment → ℕ
live_units d = count is_live_unit (replica_units d)

abbrev pub limbo_units : Deployment → ℕ
limbo_units d = count is_limbo (replica_units d)

pub unit_keys-eq : (us : List ReplicaUnit) → unit_keys us ≡ keys unit_id us
unfolding unit_keys
unit_keys-eq [] = refl
unit_keys-eq (u ∷ us) = ap (◌∷◌ u.key) (unit_keys-eq us)

elem-group_add :
    (j k : ℕ) (i : ModelInstance) (us : List ReplicaUnit)
    → elem j (keys unit_id (group_add k i us)) ≡ (elem j (keys unit_id us) || j == k)
unfolding group_add
elem-group_add j k i [] = ground arith
elem-group_add j k i (u ∷ us) = ground (arith, elem-group_add j k i us)

group_add-Distinct :
    (k : ℕ) (i : ModelInstance) (us : List ReplicaUnit)
    → Distinct (keys unit_id us)
    → Distinct (keys unit_id (group_add k i us))
unfolding group_add
group_add-Distinct k i [] d = (refl, tt)
group_add-Distinct k i (u ∷ us) d =
    ground (arith, group_add-Distinct k i us d.1, elem-group_add u.key k i us)

group_from-Distinct :
    (is : List ModelInstance) (us : List ReplicaUnit)
    → Distinct (keys unit_id us)
    → Distinct (keys unit_id (group_from us is))
unfolding group_from
group_from-Distinct [] us d = d
group_from-Distinct (i ∷ is) us d =
    group_from-Distinct is (group_add (unit_key false i) i us)
      (group_add-Distinct (unit_key false i) i us d)

keys-single_units : (is : List ModelInstance) → keys unit_id (single_units is) ≡ keys row_id is
unfolding single_units
keys-single_units [] = refl
keys-single_units (i ∷ is) = ap (◌∷◌ i.id) (keys-single_units is)

units_of-Distinct :
    (single : Bool) (is : List ModelInstance)
    → Distinct (keys row_id is)
    → Distinct (keys unit_id (units_of single is))
unfolding units_of
units_of-Distinct true is d = subst Distinct (sym (keys-single_units is)) d
units_of-Distinct false is d = group_from-Distinct is [] tt

-- The units that a call stops: the broken ones, and in a scale-in the surplus.
abbrev pub broken_of : Deployment → List ℕ
broken_of d = unit_keys (filter is_broken (replica_units d))

abbrev pub surplus_of : Deployment → ℕ → List ℕ
surplus_of d target =
    unit_keys (to_stop (replica_units d) (effective_capacity (replica_units d) - target))

-- The rows once the broken units are stopped.
abbrev pub own : Deployment → List ModelInstance
own d = stop_keys (is_single d) (broken_of d) d.instances

module _ (d : Deployment) (unique : Distinct (keys row_id d.instances)) where
  abbrev pub us : List ReplicaUnit
  us = replica_units d

  pub us-Distinct : Distinct (keys unit_id us)
  unfolding replica_units
  us-Distinct = units_of-Distinct (is_single d) d.instances unique

  pub units-own : units_of (is_single d) (own d) ≡ map (stop_unit (broken_of d)) us
  unfolding replica_units
  units-own = units_of-stop (is_single d) (broken_of d) d.instances

  spare_nothing :
      (vs : List ReplicaUnit) → count is_live_unit vs ≡ count (spared is_live_unit []) vs
  spare_nothing vs = count-ext is_live_unit (spared is_live_unit []) vs (λ u. ground arith)

  pub count-own :
      count is_live_unit (units_of (is_single d) (own d))
      ≡ effective_capacity us + count is_limbo us
  count-own =
      rw
        (
          units-own,
          spare_nothing,
          count-stopped [] (broken_of d) us,
          unit_keys-eq (filter is_broken us),
        )
        (count-ext _ (spared is_live_unit (keys unit_id (filter is_broken us))) us
            (λ u. ground arith)
          ∙ count-unbroken us us-Distinct)

  pub count-surplus :
      (target : ℕ)
      → target ≤ effective_capacity us
      → count is_live_unit
          (map (stop_unit (surplus_of d target)) (map (stop_unit (broken_of d)) us))
        ≡ target + count is_limbo us
  count-surplus target h =
      let n = effective_capacity us - target in
      let kept = count-scale_in us us-Distinct n (omega arith) in
      rw
        (
          spare_nothing,
          count-stopped [] (surplus_of d target) (map (stop_unit (broken_of d)) us),
          count-ext (spared (spared is_live_unit (surplus_of d target)) [])
              (spared is_live_unit (surplus_of d target)) (map (stop_unit (broken_of d)) us)
              (λ u. ground arith),
          count-stopped (surplus_of d target) (broken_of d) us,
          unit_keys-eq (filter is_broken us),
          unit_keys-eq (to_stop us n),
        )
        (omega (arith, kept))
