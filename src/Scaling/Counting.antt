-- ===== src/Scaling/Counting.antt =====
-- Counting the units of a deployment through stops and additions.
use inferna_next.Base.{
  Bool, List, [], ap, arith, false, filter, if◌then◌else◌, inl, inr, length, not, refl, subst, sym,
  true, ℕ, ◌&&◌, ◌++◌, ◌+◌, ◌∙◌, ◌∷◌, ◌≡◌,
}
use inferna_next.Base.Member.{Distinct, In, In-of_filter, elem, elem-append}
use inferna_next.Base.Keys.{Distinct-filter, elem-keys_of_In, keys}
use inferna_next.Scaling.{ReplicaUnit}

abbrev pub unit_id : ReplicaUnit → ℕ
unit_id u = u.key

-- How many units pass the test.
abbrev pub count : (ReplicaUnit → Bool) → List ReplicaUnit → ℕ
count p [] = 0
count p (u ∷ us) = (if p u then 1 else 0) + count p us

-- The units whose key is not listed.
abbrev pub spared : (ReplicaUnit → Bool) → List ℕ → ReplicaUnit → Bool
spared p ks u = p u && not (elem u.key ks)

pub count-append :
    (p : ReplicaUnit → Bool) (us vs : List ReplicaUnit)
    → count p (us ++ vs) ≡ count p us + count p vs
count-append p [] vs = omega arith
count-append p (u ∷ us) vs = omega (arith, count-append p us vs)

-- Sparing one key costs at most the unit that has it.
spare_none :
    (p : ReplicaUnit → Bool) (k : ℕ) (ks : List ℕ) (us : List ReplicaUnit)
    → elem k (keys unit_id us) ≡ false
    → count (spared p (k ∷ ks)) us ≡ count (spared p ks) us
spare_none p k ks [] h = refl
spare_none p k ks (u ∷ us) h = ground (arith, spare_none p k ks us)

spare_one :
    (p : ReplicaUnit → Bool) (k : ℕ) (ks : List ℕ) (us : List ReplicaUnit) (u : ReplicaUnit)
    → Distinct (keys unit_id us)
    → In u us
    → u.key ≡ k
    → p u ≡ true
    → elem k ks ≡ false
    → count (spared p (k ∷ ks)) us + 1 ≡ count (spared p ks) us
spare_one p k ks [] u d m e q new = absurd m
spare_one p k ks (v ∷ us) u d (inl same) e q new =
    let ev : v.key ≡ k = ap unit_id (sym same) ∙ e in
    let qv : p v ≡ true = subst (λ x. p x ≡ true) same q in ground (arith, spare_none p k ks us)
spare_one p k ks (v ∷ us) u d (inr m) e q new =
    let apart = elem-keys_of_In unit_id u us m in
    ground (arith, spare_one p k ks us u d.1 m e q new)

pub count-ext :
    (p q : ReplicaUnit → Bool) (us : List ReplicaUnit)
    → ((u : ReplicaUnit) → p u ≡ q u)
    → count p us ≡ count q us
count-ext p q [] h = refl
count-ext p q (u ∷ us) h = rw (h u, count-ext p q us h)

-- Stopping a list of distinct units that all pass the test takes exactly these from the count.
pub count-spared :
    (p : ReplicaUnit → Bool) (us ts : List ReplicaUnit)
    → Distinct (keys unit_id us)
    → Distinct (keys unit_id ts)
    → ((u : ReplicaUnit) → In u ts → In u us × (p u ≡ true))
    → count (spared p (keys unit_id ts)) us + length ts ≡ count p us
count-spared p us [] d e all_in =
    rw (count-ext (spared p []) p us (λ u. ground arith)) (omega arith)
count-spared p us (t ∷ ts) d e all_in = omega (
  arith,
  count-spared p us ts d e.1 (λ u m. all_in u (inr m)),
  spare_one p t.key (keys unit_id ts) us t d (all_in t (inl refl)).0 refl (all_in t (inl refl)).1
      e.0,
)

pub length-filter-count :
    (p : ReplicaUnit → Bool) (us : List ReplicaUnit) → length (filter p us) ≡ count p us
length-filter-count p [] = refl
length-filter-count p (u ∷ us) = ground (arith, length-filter-count p us)

elem-filter_none :
    (p : ReplicaUnit → Bool) (k : ℕ) (us : List ReplicaUnit)
    → elem k (keys unit_id us) ≡ false
    → elem k (keys unit_id (filter p us)) ≡ false
elem-filter_none p k [] h = refl
elem-filter_none p k (u ∷ us) h = ground (arith, elem-filter_none p k us)

-- A unit that the filter drops has a key of its own.
pub elem-filter_dropped :
    (p : ReplicaUnit → Bool) (us : List ReplicaUnit) (u : ReplicaUnit)
    → Distinct (keys unit_id us)
    → In u us
    → p u ≡ false
    → elem u.key (keys unit_id (filter p us)) ≡ false
elem-filter_dropped p [] u d m h = absurd m
elem-filter_dropped p (v ∷ us) u d (inl same) h =
    let pv : p v ≡ false = subst (λ x. p x ≡ false) same h in
    rw (pv, same) (elem-filter_none p v.key us d.0)
elem-filter_dropped p (v ∷ us) u d (inr m) h =
    let apart = elem-keys_of_In unit_id u us m in ground (arith, elem-filter_dropped p us u d.1 m h)

abbrev Apart : List ℕ → List ℕ → Type 0
Apart [] ys = Unit
Apart (x ∷ xs) ys = (elem x ys ≡ false) × Apart xs ys

keys-append :
    (us vs : List ReplicaUnit) → keys unit_id (us ++ vs) ≡ keys unit_id us ++ keys unit_id vs
keys-append [] vs = refl
keys-append (u ∷ us) vs = ap (◌∷◌ u.key) (keys-append us vs)

Distinct-append : (xs ys : List ℕ) → Distinct xs → Distinct ys → Apart xs ys → Distinct (xs ++ ys)
Distinct-append [] ys d e a = e
Distinct-append (x ∷ xs) ys d e a =
    (elem-append x xs ys ∙ ground arith, Distinct-append xs ys d.1 e a.1)

Apart-filters :
    (p q : ReplicaUnit → Bool) (us vs : List ReplicaUnit)
    → Distinct (keys unit_id us)
    → ((u : ReplicaUnit) → p u ≡ true → q u ≡ false)
    → ((u : ReplicaUnit) → In u vs → In u us × (p u ≡ true))
    → Apart (keys unit_id vs) (keys unit_id (filter q us))
Apart-filters p q us [] d h all_in = tt
Apart-filters p q us (v ∷ vs) d h all_in =
    let (m, pv) = all_in v (inl refl) in
    (elem-filter_dropped q us v d m (h v pv), Apart-filters p q us vs d h (λ u k. all_in u (inr k)))

-- Two disjoint selections have distinct keys together.
pub Distinct-filters :
    (p q : ReplicaUnit → Bool) (us : List ReplicaUnit)
    → Distinct (keys unit_id us)
    → ((u : ReplicaUnit) → p u ≡ true → q u ≡ false)
    → Distinct (keys unit_id (filter p us ++ filter q us))
Distinct-filters p q us d h = subst Distinct (sym (keys-append (filter p us) (filter q us))) (
    Distinct-append (keys unit_id (filter p us)) (keys unit_id (filter q us))
      (Distinct-filter unit_id p us d) (Distinct-filter unit_id q us d)
      (Apart-filters p q us (filter p us) d h (λ u m. In-of_filter p u us m)))
