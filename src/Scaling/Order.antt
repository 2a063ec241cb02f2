-- ===== src/Scaling/Order.antt =====
-- Which units a scale-in stops.
use inferna_next.Base.{
  Bool, List, [], ap, arith, drop, false, filter, inl, inr, length, length-append, length-take, map,
  refl, subst, suc, sym, take, take-append-drop, true, ℕ, ◌+◌, ◌-◌, ◌∙◌, ◌∷◌, ◌≡◌, ◌≤◌,
}
use inferna_next.Base.Member.{Distinct, In, In-append_cases, elem, in_of_All}
use inferna_next.Base.Keys.{Distinct-sort_by, Distinct-take, elem-keys_of_In, keys}
use inferna_next.Base.Sorting.{
  In-of_sort_by, In-sort_by, IsSorted, length-sort_by, sort_by, sort_by-IsSorted,
}
use inferna_next.Base.Results.{ok}
use inferna_next.Models.{Db, Settings}
use inferna_next.Scaling.{
  Deployment, ReplicaUnit, is_broken, is_pending, is_serving, is_single, replica_units,
  stops_before,
}
use inferna_next.Scaling.Apply.{apply_scale, effective_capacity, target_of, to_stop}
use inferna_next.Scaling.Counting.{Distinct-filters, count, length-filter-count, unit_id}
use inferna_next.Scaling.Stops.{stop_unit}
use inferna_next.Scaling.Capacity.{
  limbo_units, live_units, row_id, surplus_of, unit_keys-eq, us-Distinct,
}
use inferna_next.Scaling.Outcome.{apply_scale-in}
use inferna_next.Scaling.Before.{
  GoesFirst, GoesFirst-of_before, stops_before_total, stops_before_trans, units_of-HaveMembers,
}
use inferna_next.Scaling.Candidates.{
  In-candidates, In-of_candidates, In-taken, candidates, capacity-count, count-usable, elem-keys-In,
  is_usable, one_of_key, sorted_parts,
}

-- What a scale-in to `n` units leaves of `d`: beside the broken units it stops as many usable ones as
-- there are more than `n`, and each of them goes before each usable one that it keeps.
pub record IsScaleIn (d : Deployment) (n : ℕ) (e : Deployment) : Type 0 where
  pub stopped_keys : List ℕ
  pub distinct : Distinct stopped_keys
  pub many : length stopped_keys + n ≡ count is_usable (replica_units d)
  pub usable_only :
      (k : ℕ)
      → elem k stopped_keys ≡ true
      → (u : ReplicaUnit) × (In u (replica_units d) × (u.key ≡ k) × (is_usable u ≡ true))
  pub units :
      replica_units e
      ≡ map
          (stop_unit stopped_keys)
          (map (stop_unit (keys unit_id (filter is_broken (replica_units d)))) (replica_units d))
  pub order :
      (u v : ReplicaUnit)
      → In u (replica_units d)
      → In v (replica_units d)
      → is_usable u ≡ true
      → is_usable v ≡ true
      → elem u.key stopped_keys ≡ true
      → elem v.key stopped_keys ≡ false
      → GoesFirst u v

module _ (d : Deployment) (unique : Distinct (keys row_id d.instances)) (n : ℕ) where
  abbrev all_units : List ReplicaUnit
  all_units = replica_units d

  abbrev ordered : List ReplicaUnit
  ordered = sort_by stops_before (candidates all_units)

  abbrev surplus : ℕ
  surplus = effective_capacity all_units - n

  ordered-IsSorted : IsSorted stops_before ordered
  ordered-IsSorted =
      sort_by-IsSorted stops_before stops_before_total stops_before_trans (candidates all_units)

  surplus_of-eq : surplus_of d n ≡ keys unit_id (take surplus ordered)
  unfolding to_stop
  surplus_of-eq = unit_keys-eq (take surplus ordered)

  taken : (u : ReplicaUnit) → In u (take surplus ordered) → In u all_units × (is_usable u ≡ true)
  taken u m =
      In-of_candidates u all_units
        (In-of_sort_by stops_before u (candidates all_units) (In-taken surplus u ordered m))

  taken_key :
      (k : ℕ)
      → elem k (surplus_of d n) ≡ true
      → (u : ReplicaUnit) × (In u (take surplus ordered) × (u.key ≡ k))
  taken_key k h = elem-keys-In k (take surplus ordered) (ap (elem k) (sym surplus_of-eq) ∙ h)

  stopped-In :
      (u : ReplicaUnit)
      → In u all_units
      → elem u.key (surplus_of d n) ≡ true
      → In u (take surplus ordered)
  stopped-In u m h =
      let (v, (k, same)) = taken_key u.key h in
      subst (λ x. In x (take surplus ordered))
        (one_of_key all_units v u (us-Distinct d unique) (taken v k).0 m same) k

  kept-In :
      (v : ReplicaUnit)
      → In v all_units
      → is_usable v ≡ true
      → elem v.key (surplus_of d n) ≡ false
      → In v (drop surplus ordered)
  kept-In v m fit h =
      let found =
        In-sort_by stops_before v (candidates all_units) (In-candidates v all_units m fit) in
      elim (In-append_cases v (take surplus ordered) (drop surplus ordered)
        (subst (In v) (sym (take-append-drop surplus ordered)) found)) [
          | inr rest ↦ rest
          | inl first ↦
              let hit =
                ap (elem v.key) surplus_of-eq
                ∙ elem-keys_of_In unit_id v (take surplus ordered) first in
              cc
        ]

  length-surplus :
      n ≤ effective_capacity all_units → length (surplus_of d n) + n ≡ count is_usable all_units
  length-surplus le = omega (
    arith,
    ap length surplus_of-eq,
    length-keys (take surplus ordered),
    length-take surplus ordered,
    length-sort_by stops_before (candidates all_units),
    length-append (filter is_serving all_units) (filter is_pending all_units),
    capacity-count all_units,
    length-filter-count is_serving all_units,
    length-filter-count is_pending all_units,
    count-usable all_units,
  )
    where
      length-keys : (ws : List ReplicaUnit) → length (keys unit_id ws) ≡ length ws
      length-keys [] = refl
      length-keys (u ∷ ws) = ap suc (length-keys ws)

  surplus-Distinct : Distinct (surplus_of d n)
  surplus-Distinct = subst Distinct (sym surplus_of-eq) (
      Distinct-take unit_id surplus ordered (
        Distinct-sort_by unit_id stops_before (candidates all_units) (
          Distinct-filters is_serving is_pending all_units (us-Distinct d unique)
            (λ u h. ground arith))))

  some_member : (u : ReplicaUnit) → In u all_units → 1 ≤ length u.members
  unfolding replica_units
  some_member u m =
      in_of_All (λ v. 1 ≤ length v.members) all_units
        (units_of-HaveMembers (is_single d) d.instances) u m

-- The rows of the deployment have distinct ids. A call for no more units than its usable ones, those
-- that are desired to run with every rank scheduled, starting or running, succeeds. Beside the broken units it stops as many
-- usable ones as there are too many, whole units, and each that it stops goes before each usable
-- one that it keeps: a unit that is not all running before one that is, and of one kind the older
-- before the younger. All other units keep their rows. The live units are then the target and the
-- units in limbo.
pub apply_scale-IsScaleIn :
    (cfg : Settings) (uuid4 : ℕ → ℕ) (now : ℕ) (db : Db) (d : Deployment) (replicas : ℕ)
    (set_range : Bool)
    → Distinct (keys row_id d.instances)
    → target_of d replicas set_range ≤ count is_usable (replica_units d)
    → (e : Deployment) × ((apply_scale cfg uuid4 now db d replicas set_range ≡ ok e)
        × IsScaleIn d (target_of d replicas set_range) e
        × (live_units e ≡ target_of d replicas set_range + limbo_units d))
apply_scale-IsScaleIn cfg uuid4 now db d replicas set_range unique le =
    let n = target_of d replicas set_range in
    let fits = subst (λ m. n ≤ m) (sym (capacity-count (replica_units d))) le in
    let r = apply_scale-in cfg uuid4 now db d unique replicas set_range fits in
    (
      _,
      (
        r.0,
        record {
          stopped_keys = surplus_of d n;
          distinct = surplus-Distinct d unique n;
          many = length-surplus d unique n fits;
          usable_only = λ k h.
              let (u, (m, e)) = taken_key d unique n k h in
              let (i, fit) = taken d unique n u m in (u, (i, e, fit));
          units =
              r.1
              ∙ ap (λ ks. map (stop_unit (surplus_of d n)) (map (stop_unit ks) (replica_units d)))
                  (unit_keys-eq (filter is_broken (replica_units d)));
          order = λ u v m k a b s t. GoesFirst-of_before u v (some_member d unique n u m) (
              sorted_parts (effective_capacity (replica_units d) - n) (ordered d unique n) u v
                (ordered-IsSorted d unique n) (stopped-In d unique n u m s)
                (kept-In d unique n v k b t));
        },
        r.2,
      ),
    )
