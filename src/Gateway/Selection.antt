-- ===== src/Gateway/Selection.antt =====
-- Which instance the gateway chooses.
use inferna_next.Base.{
  ==_iff, Bool, Bool-cases, List, Option, [], ap, arith, false, filter, if◌then◌else◌, inl, inr,
  leb, ltb, max, none, refl, some, subst, sym, true, ℕ, ◌&&◌, ◌==◌, ◌||◌, ◌∙◌, ◌∷◌, ◌≡◌, ◌≤◌, ◌⊎◌,
}
use inferna_next.Base.Text.{Text}
use inferna_next.Base.Member.{All, In, In-filter, In-of_filter, in_of_All}
use inferna_next.Base.Sorting.{In-of_sort_by}
use inferna_next.Models.{Db, ModelInstance}
use inferna_next.PrefixCache.{PrefixCacheIndex, overlap}
use inferna_next.Gateway.{
  Gateway, best_overlap, has_worker, is_before, is_routable, least_loaded, load_of, min_from,
  overlaps, pool_of, reserve, reserve_for, routable, rows_of, stamp_of,
}

-- `m` is one of the instances, and none of them comes before it in the order of (load, stamp).
abbrev IsFirst : Gateway → ModelInstance → List ModelInstance → ModelInstance → Type 0
IsFirst g best is m =
    ((m ≡ best) ⊎ In m is) × (is_before g best m ≡ false) × All (λ j. is_before g j m ≡ false) is

not_after :
    (g : Gateway) (i best least : ModelInstance)
    → is_before g i best ≡ true
    → is_before g i least ≡ false
    → is_before g best least ≡ false
unfolding is_before
not_after g i best least e h = ground arith

no_later :
    (g : Gateway) (i best least : ModelInstance)
    → is_before g i best ≡ false
    → is_before g best least ≡ false
    → is_before g i least ≡ false
unfolding is_before
no_later g i best least e h = ground arith

not_self : (g : Gateway) (i : ModelInstance) → is_before g i i ≡ false
unfolding is_before
not_self g i = ground arith

IsFirst-cons :
    (g : Gateway) (best i m : ModelInstance) (is : List ModelInstance) (b : Bool)
    → is_before g i best ≡ b
    → IsFirst g (if b then i else best) is m
    → IsFirst g best (i ∷ is) m
IsFirst-cons g best i m is true e (found, least, others) =
    (inr found, not_after g i best m e least, (least, others))
IsFirst-cons g best i m is false e (inl same, least, others) =
    (inl same, least, (no_later g i best m e least, others))
IsFirst-cons g best i m is false e (inr found, least, others) =
    (inr (inr found), least, (no_later g i best m e least, others))

min_from-IsFirst :
    (g : Gateway) (best : ModelInstance) (is : List ModelInstance)
    → IsFirst g best is (min_from g best is)
unfolding min_from
min_from-IsFirst g best [] = (inl refl, not_self g best, tt)
min_from-IsFirst g best (i ∷ is) =
    IsFirst-cons g best i _ is (is_before g i best) refl
      (min_from-IsFirst g (if is_before g i best then i else best) is)

abbrev Scored : Type 0
Scored = List (ModelInstance × ℕ)

best_overlap-largest :
    (scored : Scored) → All (λ (p : ModelInstance × ℕ). p.1 ≤ best_overlap scored) scored
unfolding best_overlap
best_overlap-largest [] = tt
best_overlap-largest ((i, n) ∷ scored) = (
  omega arith,
  weaken scored (best_overlap scored) (max n (best_overlap scored)) (omega arith)
      (best_overlap-largest scored),
)
  where
    weaken :
        (xs : Scored) (a b : ℕ)
        → a ≤ b
        → All (λ (p : ModelInstance × ℕ). p.1 ≤ a) xs
        → All (λ (p : ModelInstance × ℕ). p.1 ≤ b) xs
    weaken [] a b le h = tt
    weaken (x ∷ xs) a b le h = ((let h0 = h.0 in omega arith), weaken xs a b le h.1)

abbrev is_best : ℕ → ModelInstance × ℕ → Bool
is_best best p = p.1 == best

filter-zero :
    (xs : Scored) → All (λ (p : ModelInstance × ℕ). p.1 ≤ 0) xs → filter (is_best 0) xs ≡ xs
filter-zero [] h = refl
filter-zero (x ∷ xs) h =
    let zero_is : (x.1 == 0) ≡ true = (==_iff x.1 0).1 (omega (arith, h.0)) in
    rw (zero_is, filter-zero xs h.1)

-- If nothing overlaps, every row has the best overlap, which is 0.
pool_of-best :
    (scored : Scored) → pool_of scored ≡ rows_of (filter (is_best (best_overlap scored)) scored)
unfolding pool_of
pool_of-best scored = elim (Bool-cases (best_overlap scored == 0)) [
  | inr some_best ↦ rw some_best
  | inl e ↦
      let none_best = (==_iff (best_overlap scored) 0).0 e in
      rw e (
        ap rows_of (
          sym (
            subst (λ b. filter (is_best b) scored ≡ scored) (sym none_best)
              (filter-zero scored (
                subst (λ b. All (λ (p : ModelInstance × ℕ). p.1 ≤ b) scored) none_best
                  (best_overlap-largest scored))))))
]

In-of_rows :
    (i : ModelInstance) (scored : Scored) → In i (rows_of scored) → (n : ℕ) × In (i, n) scored
unfolding rows_of
In-of_rows i [] m = absurd m
In-of_rows i ((j, n) ∷ scored) (inl e) = (n, inl (ap (λ x. (x, n)) e))
In-of_rows i ((j, n) ∷ scored) (inr m) = let (k, r) = In-of_rows i scored m in (k, inr r)

In-rows : (i : ModelInstance) (n : ℕ) (scored : Scored) → In (i, n) scored → In i (rows_of scored)
unfolding rows_of
In-rows i n [] m = absurd m
In-rows i n ((j, k) ∷ scored) (inl e) = inl (ap (λ p. p.0) e)
In-rows i n ((j, k) ∷ scored) (inr m) = inr (In-rows i n scored m)

-- `i` has the best overlap, `n`, and of the rows with that overlap none has a smaller load, or the
-- same load and an older stamp.
pub record IsChosen (g : Gateway) (scored : List (ModelInstance × ℕ)) (i : ModelInstance)
    : Type 0 where
  pub shared : ℕ
  pub listed : In (i, shared) scored
  pub best : (j : ModelInstance) (m : ℕ) → In (j, m) scored → m ≤ shared
  pub first :
      (j : ModelInstance)
      → In (j, shared) scored
      → (load_of g i ≤ load_of g j) × (load_of g i ≡ load_of g j → stamp_of g i ≤ stamp_of g j)

some_eq : {a b : ModelInstance} → some a ≡ some b → a ≡ b
some_eq e = cc

least_of_pool :
    (g : Gateway) (i : ModelInstance) (pool : List ModelInstance)
    → least_loaded g pool ≡ some i
    → In i pool × All (λ j. is_before g j i ≡ false) pool
unfolding least_loaded
least_of_pool g i [] e = cc
least_of_pool g i (x ∷ xs) e =
    let (found, least, others) = min_from-IsFirst g x xs in
    subst (λ m. In m (x ∷ xs) × All (λ j. is_before g j m ≡ false) (x ∷ xs)) (some_eq e)
      (found, (least, others))

in_order : (a b c e : ℕ) → (ltb a b || (a == b && ltb c e)) ≡ false → (b ≤ a) × (b ≡ a → e ≤ c)
in_order a b c e h = (ground arith, (λ same. ground arith))

not_before :
    (g : Gateway) (i j : ModelInstance)
    → is_before g j i ≡ false
    → (load_of g i ≤ load_of g j) × (load_of g i ≡ load_of g j → stamp_of g i ≤ stamp_of g j)
unfolding is_before
not_before g i j h = in_order (load_of g j) (load_of g i) (stamp_of g j) (stamp_of g i) h

least_loaded-IsChosen :
    (g : Gateway) (scored : Scored) (i : ModelInstance)
    → least_loaded g (rows_of (filter (is_best (best_overlap scored)) scored)) ≡ some i
    → IsChosen g scored i
least_loaded-IsChosen g scored i e =
    let best = best_overlap scored in
    let (found, others) = least_of_pool g i (rows_of (filter (is_best best) scored)) e in
    let (n, m) = In-of_rows i (filter (is_best best) scored) found in
    let (listed, top) = In-of_filter (is_best best) (i, n) scored m in
    let same : n ≡ best = (==_iff n best).0 top in
    record {
      shared = n;
      listed = listed;
      best = λ j k h. rw same (in_of_All _ scored (best_overlap-largest scored) (j, k) h);
      first = λ j h. not_before g i j (
          in_of_All _ (rows_of (filter (is_best best) scored)) others j (
            In-rows j n (filter (is_best best) scored)
              (In-filter (is_best best) (j, n) scored h top)));
    }

rows_of-overlaps :
    (clock : ℕ → ℕ) (s : PrefixCacheIndex) (digests : List Text) (is : List ModelInstance)
    → rows_of (overlaps clock s digests is).0 ≡ is
unfolding overlaps rows_of
rows_of-overlaps clock s digests [] = refl
rows_of-overlaps clock s digests (i ∷ is) =
    ap (◌∷◌ i) (rows_of-overlaps clock (overlap clock s i.id digests).1 digests is)

reserve_for-some :
    (db : Db) (g : Gateway) (o : Option ModelInstance) (i : ModelInstance)
    → (reserve_for db g o).0 ≡ some i
    → (o ≡ some i) × (has_worker db i ≡ true)
reserve_for-some db g none i e = cc
reserve_for-some db g (some j) i e = elim (Bool-cases (has_worker db j)) [
  | inl h ↦
      let same = some_eq (kept h) in (ap some same, subst (λ x. has_worker db x ≡ true) same h)
  | inr h ↦ absurd (gone h)
]
  where
    kept : has_worker db j ≡ true → some j ≡ some i
    kept h = cc

    gone : has_worker db j ≡ false → ⊥
    gone h = cc

routable-In :
    (db : Db) (model_id : ℕ) (i : ModelInstance)
    → In i (routable db model_id)
    → In i db.instances × (is_routable model_id i ≡ true)
unfolding routable
routable-In db model_id i m = In-of_filter (is_routable model_id) i db.instances (
    In-of_sort_by (λ i j. leb i.created_at j.created_at) i
      (filter (is_routable model_id) db.instances) m)

-- The instance that the gateway reserves is a live row of the model with a port, at the head of its
-- group if it has one, on a worker that exists. No routable row has a larger overlap with the prompt,
-- and of those with the same overlap none has fewer active requests, or as many and an older stamp.
pub reserve-IsChosen :
    (clock : ℕ → ℕ) (db : Db) (model_id : ℕ) (digests : List Text) (g : Gateway) (i : ModelInstance)
    → (reserve clock db model_id digests g).0 ≡ some i
    → In i db.instances
      × (is_routable model_id i ≡ true)
      × (has_worker db i ≡ true)
      × IsChosen g (overlaps clock g.index digests (routable db model_id)).0 i
unfolding reserve
reserve-IsChosen clock db model_id digests g i e =
    let scored = (overlaps clock g.index digests (routable db model_id)).0 in
    let (o, worker) = reserve_for-some db _ (least_loaded g (pool_of scored)) i e in
    let chosen =
      least_loaded-IsChosen g scored i (ap (least_loaded g) (sym (pool_of-best scored)) ∙ o) in
    let listed = In-rows i chosen.shared scored chosen.listed in
    let row =
      routable-In db model_id i
        (subst (In i) (rows_of-overlaps clock g.index digests (routable db model_id)) listed) in
    (row.0, row.1, worker, chosen)
