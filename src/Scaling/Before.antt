-- ===== src/Scaling/Before.antt =====
-- The order in which a scale-in stops units, against a description of its own.
use inferna_next.Base.{
  Bool, Bool-cases, List, [], all, ap, arith, dec_lt, false, if◌then◌else◌, inl, inr, leb, length,
  refl, suc, sym, true, ℕ, ◌&&◌, ◌++◌, ◌==◌, ◌||◌, ◌↔◌, ◌∙◌, ◌∷◌, ◌≡◌, ◌≤◌, ◌⊎◌,
}
use inferna_next.Base.Member.{All, In}
use inferna_next.Models.{
  InstanceState, ModelInstance, error, is_running, running, scheduled, starting, stopped,
}
use inferna_next.Scaling.{
  ReplicaUnit, all_running, group_add, group_from, oldest, single_units, stops_before, unit_key,
  units_of,
}

abbrev pub IsUp : ReplicaUnit → Type 0
IsUp u = All (λ i. i.state ≡ running) u.members

-- No member of `v` is older than every member of `u`.
abbrev pub IsAsOld : ReplicaUnit → ReplicaUnit → Type 0
IsAsOld u v =
    (j : ModelInstance)
    → In j v.members
    → (i : ModelInstance) × (In i u.members × (i.created_at ≤ j.created_at))

-- `u` is stopped rather than `v`: it is not all running and `v` is, or both are of one kind and it is
-- as old.
abbrev pub GoesFirst : ReplicaUnit → ReplicaUnit → Type 0
GoesFirst u v = (¬ IsUp u × IsUp v) ⊎ ((IsUp u ↔ IsUp v) × IsAsOld u v)

abbrev before : Bool → Bool → ℕ → ℕ → Bool
before r s a b = if r then s && leb a b else s || leb a b

stops_before-eq :
    (u v : ReplicaUnit)
    → stops_before u v
      ≡ before (all_running u) (all_running v) (oldest u.members) (oldest v.members)
unfolding stops_before
stops_before-eq u v = refl

before_total : (r s : Bool) (a b : ℕ) → (before r s a b ≡ true) ⊎ (before s r b a ≡ true)
before_total true true a b = elim (dec_lt b a) [
  | yes h ↦ inr (ground arith)
  | no h ↦ inl (ground arith)
]
before_total false false a b = elim (dec_lt b a) [
  | yes h ↦ inr (ground arith)
  | no h ↦ inl (ground arith)
]
before_total true false a b = inr refl
before_total false true a b = inl refl

before_trans :
    (r s t : Bool) (a b c : ℕ)
    → before r s a b ≡ true
    → before s t b c ≡ true
    → before r t a c ≡ true
before_trans r s t a b c h k = ground arith

pub stops_before_total : (u v : ReplicaUnit) → (stops_before u v ≡ true) ⊎ (stops_before v u ≡ true)
stops_before_total u v =
    rw (stops_before-eq u v, stops_before-eq v u)
      (before_total (all_running u) (all_running v) (oldest u.members) (oldest v.members))

pub stops_before_trans :
    (u v w : ReplicaUnit)
    → stops_before u v ≡ true
    → stops_before v w ≡ true
    → stops_before u w ≡ true
stops_before_trans u v w h k =
    stops_before-eq u w
    ∙ before_trans (all_running u) (all_running v) (all_running w) (oldest u.members)
        (oldest v.members) (oldest w.members) (sym (stops_before-eq u v) ∙ h)
        (sym (stops_before-eq v w) ∙ k)

oldest-In :
    (is : List ModelInstance)
    → 1 ≤ length is
    → (i : ModelInstance) × (In i is × (i.created_at ≡ oldest is))
unfolding oldest
oldest-In [] h = elim h [ ]
oldest-In (i ∷ []) h = (i, (inl refl, refl))
oldest-In (i ∷ j ∷ is) h =
    let (k, (m, e)) = oldest-In (j ∷ is) (omega arith) in
    elim (dec_lt (oldest (j ∷ is)) i.created_at) [
      | yes less ↦ (k, (inr m, omega (arith, e)))
      | no more ↦ (i, (inl refl, omega arith))
    ]

oldest-le : (is : List ModelInstance) (j : ModelInstance) → In j is → oldest is ≤ j.created_at
unfolding oldest
oldest-le [] j m = absurd m
oldest-le (i ∷ []) j (inl e) = rw e (omega arith)
oldest-le (i ∷ []) j (inr m) = absurd m
oldest-le (i ∷ k ∷ is) j (inl e) = rw e (omega arith)
oldest-le (i ∷ k ∷ is) j (inr m) = omega (arith, oldest-le (k ∷ is) j m)

all_running_iff :
    (is : List ModelInstance)
    → (all (λ i. is_running i.state) is ≡ true) ↔ All (λ i. i.state ≡ running) is
all_running_iff [] = ((λ h. tt), (λ h. refl))
all_running_iff (i ∷ is) =
    let rest = all_running_iff is in
    (
      (λ h. let (e, f) = parts _ _ h in (up i.state e, rest.0 f)),
      (λ h. let e = rest.1 h.1 in rw (h.0, e) refl),
    )
  where
    up : (s : InstanceState) → is_running s ≡ true → s ≡ running
    up scheduled h = cc
    up starting h = cc
    up running h = refl
    up stopped h = cc
    up error h = cc

    parts : (a b : Bool) → (a && b) ≡ true → (a ≡ true) × (b ≡ true)
    parts a b h = ground arith

pub GoesFirst-of_before :
    (u v : ReplicaUnit) → 1 ≤ length u.members → stops_before u v ≡ true → GoesFirst u v
GoesFirst-of_before u v some_member h =
    by_kind (all_running u) (all_running v) refl refl (sym (stops_before-eq u v) ∙ h)
  where
    old : oldest u.members ≤ oldest v.members → IsAsOld u v
    old le j m =
        let (i, (n, e)) = oldest-In u.members some_member in
        (i, (n, omega (arith, e, oldest-le v.members j m)))

    refuted : (w : ReplicaUnit) → all_running w ≡ false → ¬ IsUp w
    refuted w e up = let t = (all_running_iff w.members).1 up in cc

    by_kind :
        (r s : Bool)
        → all_running u ≡ r
        → all_running v ≡ s
        → before r s (oldest u.members) (oldest v.members) ≡ true
        → GoesFirst u v
    by_kind true true e f k =
        let a = (all_running_iff u.members).0 e in
        let b = (all_running_iff v.members).0 f in inr (((λ x. b), (λ x. a)), old (ground arith))
    by_kind true false e f k = cc
    by_kind false true e f k = inl (refuted u e, (all_running_iff v.members).0 f)
    by_kind false false e f k =
        inr (((λ x. absurd (refuted u e x)), (λ x. absurd (refuted v f x))), old (ground arith))

abbrev pub HaveMembers : List ReplicaUnit → Type 0
HaveMembers us = All (λ u. 1 ≤ length u.members) us

single_units-HaveMembers : (is : List ModelInstance) → HaveMembers (single_units is)
unfolding single_units
single_units-HaveMembers [] = tt
single_units-HaveMembers (i ∷ is) = (omega arith, single_units-HaveMembers is)

length-snoc :
    (is : List ModelInstance) (i : ModelInstance) → length (is ++ i ∷ []) ≡ suc (length is)
length-snoc [] i = refl
length-snoc (j ∷ is) i = ap suc (length-snoc is i)

group_add-HaveMembers :
    (k : ℕ) (i : ModelInstance) (us : List ReplicaUnit)
    → HaveMembers us
    → HaveMembers (group_add k i us)
unfolding group_add
group_add-HaveMembers k i [] h = (omega arith, tt)
group_add-HaveMembers k i (u ∷ us) h = elim (Bool-cases (u.key == k)) [
  | inl e ↦ rw e (omega (arith, length-snoc u.members i), h.1)
  | inr e ↦ rw e (h.0, group_add-HaveMembers k i us h.1)
]

group_from-HaveMembers :
    (is : List ModelInstance) (us : List ReplicaUnit)
    → HaveMembers us
    → HaveMembers (group_from us is)
unfolding group_from
group_from-HaveMembers [] us h = h
group_from-HaveMembers (i ∷ is) us h =
    group_from-HaveMembers is _ (group_add-HaveMembers (unit_key false i) i us h)

pub units_of-HaveMembers :
    (single : Bool) (is : List ModelInstance) → HaveMembers (units_of single is)
unfolding units_of
units_of-HaveMembers true is = single_units-HaveMembers is
units_of-HaveMembers false is = group_from-HaveMembers is [] tt
