-- ===== src/Usage/Occupancy.antt =====
-- The occupancy sample (`sample_occupancy`): seconds are whole numbers.
use inferna_next.Base.{
  ==_iff, Bool, Bool-cases, List, [], ap, arith, false, filter, if◌then◌else◌, inl, inr, length,
  refl, true, ℕ, ◌&&◌, ◌*◌, ◌+◌, ◌==◌, ◌∙◌, ◌∷◌, ◌≡◌,
}
use inferna_next.Models.{ModelInstance, is_live}

-- `(model_id, cluster_id)`, which with the day is the key of a `gpu_usage_records` row.
pub record OccupancyKey : Type 0 where
  pub model_id : ℕ
  pub cluster_id : ℕ

unfoldable pub same_occupancy : OccupancyKey → OccupancyKey → Bool
same_occupancy k j = k.model_id == j.model_id && k.cluster_id == j.cluster_id

abbrev pub Seconds : Type 0
Seconds = List (OccupancyKey × ℕ)

-- `d[key] = d.get(key, 0.0) + seconds`, and the update of a row.
unfoldable pub add_seconds : OccupancyKey → ℕ → Seconds → Seconds
unfolding same_occupancy
add_seconds k n [] = (k, n) ∷ []
add_seconds k n ((j, m) ∷ rows) =
    if same_occupancy k j then (j, m + n) ∷ rows else (j, m) ∷ add_seconds k n rows

-- The loop over the live instances.
unfoldable pub occupancy : ℕ → Seconds → List ModelInstance → Seconds
unfolding add_seconds
occupancy interval d [] = d
occupancy interval d (i ∷ is) =
    let count = length i.gpu_indexes in
    let next =
      if count == 0
      then d
      else add_seconds (record { model_id = i.model.id; cluster_id = i.cluster_id })
          (interval * count) d in
    occupancy interval next is

unfoldable pub add_all_seconds : Seconds → Seconds → Seconds
unfolding add_seconds
add_all_seconds [] rows = rows
add_all_seconds ((k, n) ∷ more) rows = add_all_seconds more (add_seconds k n rows)

-- `sample_occupancy` on the rows of the day.
unfoldable pub sample_occupancy : ℕ → List ModelInstance → Seconds → Seconds × ℕ
unfolding occupancy add_all_seconds
sample_occupancy interval is rows =
    let d = occupancy interval [] (filter (λ i. is_live i.state) is) in
    (add_all_seconds d rows, length d)

-- The seconds of one model on one cluster.
unfoldable pub seconds_of : OccupancyKey → Seconds → ℕ
unfolding same_occupancy
seconds_of k [] = 0
seconds_of k ((j, n) ∷ rows) = (if same_occupancy k j then n else 0) + seconds_of k rows

-- The GPUs that the live instances of the model hold there.
unfoldable pub gpus_held : OccupancyKey → List ModelInstance → ℕ
unfolding same_occupancy
gpus_held k [] = 0
gpus_held k (i ∷ is) =
    (if is_live i.state
        && same_occupancy k (record { model_id = i.model.id; cluster_id = i.cluster_id })
      then length i.gpu_indexes
      else 0)
    + gpus_held k is

seconds_of-add_seconds :
    (k j : OccupancyKey) (n : ℕ) (rows : Seconds)
    → seconds_of k (add_seconds j n rows)
      ≡ seconds_of k rows + (if same_occupancy k j then n else 0)
unfolding seconds_of add_seconds same_occupancy
seconds_of-add_seconds k j n [] = ground arith
seconds_of-add_seconds k j n ((i, m) ∷ rows) = ground (arith, seconds_of-add_seconds k j n rows)

seconds_of-add_all :
    (k : OccupancyKey) (more rows : Seconds)
    → seconds_of k (add_all_seconds more rows) ≡ seconds_of k rows + seconds_of k more
unfolding seconds_of add_all_seconds
seconds_of-add_all k [] rows = omega arith
seconds_of-add_all k ((j, n) ∷ more) rows =
    omega
      (arith, seconds_of-add_all k more (add_seconds j n rows), seconds_of-add_seconds k j n rows)

mul_add : (n a b : ℕ) → n * (a + b) ≡ n * a + n * b
mul_add n a b = omega arith

mul_if : (n a : ℕ) (b : Bool) → (if b then n * a else 0) ≡ n * (if b then a else 0)
mul_if n a true = refl
mul_if n a false = omega arith

seconds_of-one :
    (k j : OccupancyKey) (interval count : ℕ) (d : Seconds)
    → seconds_of k (if count == 0 then d else add_seconds j (interval * count) d)
      ≡ seconds_of k d + interval * (if same_occupancy k j then count else 0)
seconds_of-one k j interval count d = elim (Bool-cases (count == 0)) [
  | inl e ↦
      rw (e, (==_iff count 0).0 e)
        (elim (Bool-cases (same_occupancy k j)) [
          | inl h ↦ rw h (omega arith)
          | inr h ↦ rw h (omega arith)
        ])
  | inr e ↦ rw e (
      seconds_of-add_seconds k j (interval * count) d
      ∙ ap (λ x. seconds_of k d + x) (mul_if interval count (same_occupancy k j)))
]

seconds_of-occupancy :
    (k : OccupancyKey) (interval : ℕ) (d : Seconds) (is : List ModelInstance)
    → seconds_of k (occupancy interval d (filter (λ i. is_live i.state) is))
      ≡ seconds_of k d + interval * gpus_held k is
unfolding occupancy gpus_held
seconds_of-occupancy k interval d [] = omega arith
seconds_of-occupancy k interval d (i ∷ is) = elim (Bool-cases (is_live i.state)) [
  | inr h ↦ rw h (omega (arith, seconds_of-occupancy k interval d is))
  | inl h ↦
      let j : OccupancyKey = record { model_id = i.model.id; cluster_id = i.cluster_id } in
      let next =
        if length i.gpu_indexes == 0
        then d
        else add_seconds j (interval * length i.gpu_indexes) d in
      rw h (
        seconds_of-occupancy k interval next is
        ∙ ap (λ x. x + interval * gpus_held k is)
            (seconds_of-one k j interval (length i.gpu_indexes) d)
        ∙ regroup (seconds_of k d) interval _ (gpus_held k is))
]
  where
    regroup : (a n x y : ℕ) → a + n * x + n * y ≡ a + n * (x + y)
    regroup a n x y = omega (arith, mul_add n x y)

-- A sample adds to each model and cluster the interval, once for every GPU that the model's live
-- instances hold on the cluster; an instance that is not live adds nothing.
pub sample_occupancy-seconds :
    (interval : ℕ) (is : List ModelInstance) (rows : Seconds) (k : OccupancyKey)
    → seconds_of k (sample_occupancy interval is rows).0
      ≡ seconds_of k rows + interval * gpus_held k is
unfolding sample_occupancy seconds_of
sample_occupancy-seconds interval is rows k = omega (
  arith,
  seconds_of-add_all k (occupancy interval [] (filter (λ i. is_live i.state) is)) rows,
  seconds_of-occupancy k interval [] is,
)
