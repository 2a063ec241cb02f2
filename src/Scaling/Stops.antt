-- ===== src/Scaling/Stops.antt =====
-- A stop takes whole units: grouping the rows after it gives the units before it, some of them
-- stopped in all their instances and the others as they were.
use inferna_next.Base.{
  ==_iff, Bool, Bool-cases, List, [], any, ap, ap₂, arith, false, if◌then◌else◌, inl, inr, map,
  refl, true, ℕ, ◌++◌, ◌==◌, ◌∷◌, ◌≡◌,
}
use inferna_next.Base.Member.{elem}
use inferna_next.Models.{ModelInstance, is_run}
use inferna_next.Scaling.{
  ReplicaUnit, group_add, group_from, is_live_unit, single_units, stop_keys, stop_row, unit_key,
  units_of,
}
use inferna_next.Scaling.Counting.{count, spared}

-- A unit with every instance stopped, if its key is listed.
unfoldable pub stop_unit : List ℕ → ReplicaUnit → ReplicaUnit
unfolding stop_row
stop_unit ks u = record {
  key = u.key;
  members = if elem u.key ks then map stop_row u.members else u.members;
}

abbrev row_after : List ℕ → ℕ → ModelInstance → ModelInstance
row_after ks k i = if elem k ks then stop_row i else i

map-append_one :
    (is : List ModelInstance) (i : ModelInstance)
    → map stop_row (is ++ i ∷ []) ≡ map stop_row is ++ stop_row i ∷ []
map-append_one [] i = refl
map-append_one (j ∷ is) i = ap (◌∷◌ (stop_row j)) (map-append_one is i)

-- Adding a row to its unit and stopping commute.
stopped-add :
    (ks : List ℕ) (k : ℕ) (u : ReplicaUnit) (i : ModelInstance)
    → u.key ≡ k
    → (if elem u.key ks then map stop_row u.members else u.members) ++ row_after ks k i ∷ []
      ≡ (if elem u.key ks then map stop_row (u.members ++ i ∷ []) else u.members ++ i ∷ [])
stopped-add ks k u i q = rw (← q) (elim (Bool-cases (elem u.key ks)) [
  | inl e ↦ rw (e, map-append_one u.members i)
  | inr e ↦ rw e
])

group_add-stopped :
    (ks : List ℕ) (k : ℕ) (i : ModelInstance) (us : List ReplicaUnit)
    → group_add k (row_after ks k i) (map (stop_unit ks) us) ≡ map (stop_unit ks) (group_add k i us)
unfolding group_add stop_unit
group_add-stopped ks k i [] = elim (Bool-cases (elem k ks)) [ inl e ↦ rw e | inr e ↦ rw e ]
group_add-stopped ks k i (u ∷ us) = elim (Bool-cases (u.key == k)) [
  | inl e ↦ rw e (
      ap (λ (ms : List ModelInstance). record { key = u.key; members = ms } ∷ map (stop_unit ks) us)
        (stopped-add ks k u i ((==_iff _ _).0 e)))
  | inr e ↦ rw e (ap (◌∷◌ (stop_unit ks u)) (group_add-stopped ks k i us))
]

unit_key-row_after :
    (ks : List ℕ) (k : ℕ) (i : ModelInstance) → unit_key false (row_after ks k i) ≡ unit_key false i
unfolding unit_key stop_row
unit_key-row_after ks k i = elim (Bool-cases (elem k ks)) [ inl e ↦ rw e | inr e ↦ rw e ]

group_from-nil : (us : List ReplicaUnit) → group_from us [] ≡ us
unfolding group_from
group_from-nil us = refl

group_from-cons :
    (us : List ReplicaUnit) (i : ModelInstance) (is : List ModelInstance)
    → group_from us (i ∷ is) ≡ group_from (group_add (unit_key false i) i us) is
unfolding group_from
group_from-cons us i is = refl

stop_keys-cons :
    (ks : List ℕ) (i : ModelInstance) (is : List ModelInstance)
    → stop_keys false ks (i ∷ is) ≡ row_after ks (unit_key false i) i ∷ stop_keys false ks is
unfolding stop_keys
stop_keys-cons ks i is = refl

stop_keys-nil : (ks : List ℕ) → stop_keys false ks [] ≡ []
unfolding stop_keys
stop_keys-nil ks = refl

group_from-stopped :
    (ks : List ℕ) (is : List ModelInstance) (us : List ReplicaUnit)
    → group_from (map (stop_unit ks) us) (stop_keys false ks is)
      ≡ map (stop_unit ks) (group_from us is)
group_from-stopped ks [] us = simp (stop_keys-nil, group_from-nil)
group_from-stopped ks (i ∷ is) us =
    rw
      (
        stop_keys-cons ks i is,
        group_from-cons us i is,
        group_from-cons (map (stop_unit ks) us) (row_after ks (unit_key false i) i)
            (stop_keys false ks is),
        unit_key-row_after ks (unit_key false i) i,
        group_add-stopped ks (unit_key false i) i us,
      )
      (group_from-stopped ks is (group_add (unit_key false i) i us))

single_units-stopped :
    (ks : List ℕ) (is : List ModelInstance)
    → single_units (stop_keys true ks is) ≡ map (stop_unit ks) (single_units is)
unfolding single_units stop_keys unit_key stop_unit
single_units-stopped ks [] = refl
single_units-stopped ks (i ∷ is) = elim (Bool-cases (elem i.id ks)) [
  | inl e ↦ rw e (ap₂ ◌∷◌ refl (single_units-stopped ks is))
  | inr e ↦ rw e (ap₂ ◌∷◌ refl (single_units-stopped ks is))
]

-- After a stop of the units with the listed keys, the units of the rows are the units before it,
-- the listed ones stopped in all their instances and the others unchanged.
pub units_of-stop :
    (single : Bool) (ks : List ℕ) (is : List ModelInstance)
    → units_of single (stop_keys single ks is) ≡ map (stop_unit ks) (units_of single is)
unfolding units_of
units_of-stop true ks is = single_units-stopped ks is
units_of-stop false ks is = group_from-stopped ks is []

no_run : (is : List ModelInstance) → any (λ i. is_run i.desired_state) (map stop_row is) ≡ false
unfolding stop_row
no_run [] = refl
no_run (i ∷ is) = no_run is

-- The live units after a stop are those that were live and are not listed.
pub count-stopped :
    (more ks : List ℕ) (us : List ReplicaUnit)
    → count (spared is_live_unit more) (map (stop_unit ks) us)
      ≡ count (spared (spared is_live_unit ks) more) us
unfolding stop_unit
count-stopped more ks [] = refl
count-stopped more ks (u ∷ us) = elim (Bool-cases (elem u.key ks)) [
  | inl e ↦ rw (e, no_run u.members) (ground (arith, e, count-stopped more ks us))
  | inr e ↦ rw e (ground (arith, e, count-stopped more ks us))
]
