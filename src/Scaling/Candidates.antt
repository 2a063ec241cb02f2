-- ===== src/Scaling/Candidates.antt =====
-- The units that a scale-in may stop, and parts of a sorted list of them.
use inferna_next.Base.{
  ==_iff, Bool, Bool-cases, List, [], all, ap, arith, drop, false, filter, if◌then◌else◌, inl, inr,
  not, refl, subst, suc, sym, take, take-append-drop, true, zero, ℕ, ◌&&◌, ◌++◌, ◌+◌, ◌==◌, ◌∙◌,
  ◌∷◌, ◌≡◌,
}
use inferna_next.Base.Member.{
  Distinct, In, In-append_cases, In-append_left, In-append_right, In-filter, In-of_filter, elem,
  in_of_All,
}
use inferna_next.Base.Keys.{elem-keys_of_In, keys}
use inferna_next.Base.Sorting.{IsSorted}
use inferna_next.Models.{ModelInstance, is_live, is_running}
use inferna_next.Scaling.{
  ReplicaUnit, all_running, is_live_unit, is_pending, is_serving, stops_before,
}
use inferna_next.Scaling.Apply.{effective_capacity}
use inferna_next.Scaling.Counting.{count, length-filter-count, unit_id}

-- Desired to run, and every rank scheduled, starting or running.
abbrev pub is_usable : ReplicaUnit → Bool
is_usable u = is_live_unit u && all (λ i. is_live i.state) u.members

-- The first part of a sorted list goes before the rest.
pub sorted_parts :
    (n : ℕ) (ws : List ReplicaUnit) (u v : ReplicaUnit)
    → IsSorted stops_before ws
    → In u (take n ws)
    → In v (drop n ws)
    → stops_before u v ≡ true
sorted_parts zero ws u v s m k = absurd m
sorted_parts (suc n) [] u v s m k = absurd m
sorted_parts (suc n) (x ∷ ws) u v s (inl e) k =
    subst (λ y. stops_before y v ≡ true) (sym e)
      (in_of_All (λ y. stops_before x y ≡ true) ws s.0 v (within n ws k))
  where
    within : (n : ℕ) (ws : List ReplicaUnit) → In v (drop n ws) → In v ws
    within zero ws m = m
    within (suc n) [] m = absurd m
    within (suc n) (x ∷ xs) m = inr (within n xs m)
sorted_parts (suc n) (x ∷ ws) u v s (inr m) k = sorted_parts n ws u v s.1 m k

pub elem-keys-In :
    (k : ℕ) (ws : List ReplicaUnit)
    → elem k (keys unit_id ws) ≡ true
    → (u : ReplicaUnit) × (In u ws × (u.key ≡ k))
elem-keys-In k [] h = cc
elem-keys-In k (u ∷ ws) h = elim (Bool-cases (k == u.key)) [
  | inl e ↦ (u, (inl refl, sym ((==_iff k u.key).0 e)))
  | inr e ↦ let (v, (m, same)) = elem-keys-In k ws (rw e at h) in (v, (inr m, same))
]

pub one_of_key :
    (ws : List ReplicaUnit) (u v : ReplicaUnit)
    → Distinct (keys unit_id ws)
    → In u ws
    → In v ws
    → u.key ≡ v.key
    → u ≡ v
one_of_key [] u v d m n e = absurd m
one_of_key (x ∷ ws) u v d (inl a) (inl b) e = a ∙ sym b
one_of_key (x ∷ ws) u v d (inl a) (inr n) e =
    let there = elem-keys_of_In unit_id v ws n in
    let same : x.key ≡ v.key = ap unit_id (sym a) ∙ e in
    let here : elem v.key (keys unit_id ws) ≡ false =
      subst (λ k. elem k (keys unit_id ws) ≡ false) same d.0 in
    cc
one_of_key (x ∷ ws) u v d (inr m) (inl b) e =
    let there = elem-keys_of_In unit_id u ws m in
    let same : x.key ≡ u.key = ap unit_id (sym b) ∙ sym e in
    let here : elem u.key (keys unit_id ws) ≡ false =
      subst (λ k. elem k (keys unit_id ws) ≡ false) same d.0 in
    cc
one_of_key (x ∷ ws) u v d (inr m) (inr n) e = one_of_key ws u v d.1 m n e

usable_kinds :
    (live up usable : Bool)
    → (up ≡ true → usable ≡ true)
    → (if live && usable then 1 else 0)
      ≡ (if live && up then 1 else 0) + (if live && (not up && usable) then 1 else 0)
usable_kinds live up usable h = ground arith

running_live :
    (is : List ModelInstance)
    → all (λ i. is_running i.state) is ≡ true
    → all (λ i. is_live i.state) is ≡ true
running_live [] h = refl
running_live (i ∷ is) h = ground (arith, running_live is)

pub count-usable :
    (ws : List ReplicaUnit) → count is_usable ws ≡ count is_serving ws + count is_pending ws
count-usable [] = refl
count-usable (u ∷ ws) = omega (
  arith,
  count-usable ws,
  usable_kinds (is_live_unit u) (all_running u) (all (λ i. is_live i.state) u.members)
      (running_live u.members),
)

-- The capacity is the number of the usable units.
pub capacity-count : (ws : List ReplicaUnit) → effective_capacity ws ≡ count is_usable ws
unfolding effective_capacity
capacity-count ws =
    omega
      (arith, count-usable ws, length-filter-count is_serving ws, length-filter-count is_pending ws)

abbrev pub candidates : List ReplicaUnit → List ReplicaUnit
candidates ws = filter is_serving ws ++ filter is_pending ws

pub In-candidates :
    (u : ReplicaUnit) (ws : List ReplicaUnit) → In u ws → is_usable u ≡ true → In u (candidates ws)
In-candidates u ws m h = elim (Bool-cases (all_running u)) [
  | inl up ↦
      In-append_left u (filter is_serving ws) (filter is_pending ws)
        (In-filter is_serving u ws m (ground arith))
  | inr part ↦
      In-append_right u (filter is_serving ws) (filter is_pending ws)
        (In-filter is_pending u ws m (ground arith))
]

pub In-of_candidates :
    (u : ReplicaUnit) (ws : List ReplicaUnit)
    → In u (candidates ws)
    → In u ws × (is_usable u ≡ true)
In-of_candidates u ws m = elim (In-append_cases u (filter is_serving ws) (filter is_pending ws) m) [
  | inl s ↦ let (k, h) = In-of_filter is_serving u ws s in (k, serving h)
  | inr p ↦ let (k, h) = In-of_filter is_pending u ws p in (k, pending h)
]
  where
    serving : is_serving u ≡ true → is_usable u ≡ true
    serving h = ground (arith, running_live u.members)

    pending : is_pending u ≡ true → is_usable u ≡ true
    pending h = ground arith

pub In-taken : (n : ℕ) (u : ReplicaUnit) (ws : List ReplicaUnit) → In u (take n ws) → In u ws
In-taken n u ws m =
    subst (In u) (take-append-drop n ws) (In-append_left u (take n ws) (drop n ws) m)
