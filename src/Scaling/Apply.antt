-- ===== src/Scaling/Apply.antt =====
-- `apply_scale`, and the rows that it adds.
use inferna_next.Base.{
  Bool, List, [], filter, if◌then◌else◌, length, ltb, max, min, none, some, suc, take, zero, ℕ,
  ◌++◌, ◌+◌, ◌-◌, ◌∷◌,
}
use inferna_next.Base.Text.{Text, codes}
use inferna_next.Base.Strings.{str_nat}
use inferna_next.Base.Sorting.{sort_by}
use inferna_next.Base.Results.{Result, err, ok, ◌>>=◌}
use inferna_next.Models.{Db, ModelInstance, Settings}
use inferna_next.Scheduler.{AllocError, Allocation}
use inferna_next.Scheduler.Replicas.{allocate_replicas}
use inferna_next.Scheduler.Parallel.{
  ParallelAllocation, allocate_parallel_replicas, rendezvous_host,
}
use inferna_next.Scaling.{
  Deployment, ReplicaUnit, gpu_pairs, is_broken, is_pending, is_serving, is_single, members_of,
  new_row, replica_units, stop_keys, stops_before, unit_keys, worker_ids,
}

-- `f"{rendezvous_host(...)}:{head.rendezvous_port}"` of the first rank
unfoldable pub rendezvous_of : List ParallelAllocation → Text
unfolding rendezvous_host str_nat
rendezvous_of [] = []
rendezvous_of (head ∷ rest) =
    rendezvous_host head.worker.address head.worker.hostname
    ++ (b':' ∷ elim head.rendezvous_port [ none ↦ codes "None" | some p ↦ str_nat p ])

-- The rows of one group, from the `k`-th drawn id on.
unfoldable pub group_rows :
    (ℕ → ℕ) → ℕ → Deployment → ℕ → Text → ℕ → List ParallelAllocation → List ModelInstance
group_rows uuid4 now d group rendezvous k [] = []
group_rows uuid4 now d group rendezvous k (a ∷ xs) =
    new_row d (uuid4 k) now a.worker a.gpu_indexes a.instance_port (some group) (some a.node_rank)
      (some d.nodes_per_replica) d.parallel_mode (some rendezvous)
    ∷ group_rows uuid4 now d group rendezvous (k + 1) xs

unfoldable pub rank_workers : List ParallelAllocation → List ℕ
rank_workers [] = []
rank_workers (a ∷ xs) = a.worker.id ∷ rank_workers xs

-- What the loop over the new groups changes.
pub record Growth : Type 0 where
  pub instances : List ModelInstance
  pub occupied : List ℕ
  pub draws : ℕ

-- The database as a query of the call sees it.
abbrev pub seen : Db → List ModelInstance → Db
seen db own = record db { instances = db.instances ++ own }

unfoldable pub add_group :
    Settings → (ℕ → ℕ) → ℕ → Db → Deployment → Growth → Result AllocError Growth
unfolding rendezvous_of group_rows rank_workers
add_group cfg uuid4 now db d gr = do
  ranks ←
      allocate_parallel_replicas cfg (seen db gr.instances) d.cluster_id d.model.vram_required_mb
        d.engine d.nodes_per_replica gr.occupied
  ok (record {
    instances =
        gr.instances
        ++ group_rows uuid4 now d (uuid4 gr.draws) (rendezvous_of ranks) (gr.draws + 1) ranks;
    occupied = rank_workers ranks ++ gr.occupied;
    draws = gr.draws + 1 + length ranks;
  })

unfoldable pub add_groups :
    Settings → (ℕ → ℕ) → ℕ → Db → Deployment → ℕ → Growth → Result AllocError Growth
unfolding add_group
add_groups cfg uuid4 now db d zero gr = ok gr
add_groups cfg uuid4 now db d (suc n) gr = do
  gr' ← add_group cfg uuid4 now db d gr
  add_groups cfg uuid4 now db d n gr'

unfoldable pub single_rows : (ℕ → ℕ) → ℕ → Deployment → ℕ → List Allocation → List ModelInstance
single_rows uuid4 now d k [] = []
single_rows uuid4 now d k (a ∷ xs) =
    new_row d (uuid4 k) now a.worker a.gpu_indexes (some a.port) none none none none none
    ∷ single_rows uuid4 now d (k + 1) xs

-- The scale-out branch: `count` more units beside the instances `own`.
unfoldable pub scale_out :
    Settings
    → (ℕ → ℕ)
    → ℕ
    → Db
    → Deployment
    → List ReplicaUnit
    → List ModelInstance
    → ℕ
    → Result AllocError (List ModelInstance)
unfolding add_groups single_rows members_of worker_ids gpu_pairs
scale_out cfg uuid4 now db d units own count =
    if ltb 1 d.nodes_per_replica
    then (do
      gr ←
          add_groups cfg uuid4 now db d count
            (record { instances = own; occupied = worker_ids (members_of units); draws = 0 })
      ok gr.instances)
    else (do
      let used =
          gpu_pairs (members_of (filter is_serving units) ++ members_of (filter is_pending units))
      xs ←
          allocate_replicas cfg (seen db own) d.cluster_id d.model.vram_required_mb d.engine count
            used
      ok (own ++ single_rows uuid4 now d 0 xs))

-- The units that a scale-in stops.
unfoldable pub to_stop : List ReplicaUnit → ℕ → List ReplicaUnit
unfolding stops_before sort_by
to_stop units count =
    take count (sort_by stops_before (filter is_serving units ++ filter is_pending units))

-- `len(serving) + len(pending)`
unfoldable pub effective_capacity : List ReplicaUnit → ℕ
effective_capacity units = length (filter is_serving units) + length (filter is_pending units)

-- The clamp of an autoscaler's proposal into the window.
unfoldable pub target_of : Deployment → ℕ → Bool → ℕ
target_of d replicas set_range =
    if set_range then replicas else max d.min_replicas (min d.max_replicas replicas)

-- The rows after the scaling branch.
unfoldable pub resize :
    Settings
    → (ℕ → ℕ)
    → ℕ
    → Db
    → Deployment
    → List ReplicaUnit
    → ℕ
    → Result AllocError (List ModelInstance)
resize cfg uuid4 now db d units target =
    let own = stop_keys (is_single d) (unit_keys (filter is_broken units)) d.instances in
    let capacity = effective_capacity units in
    if ltb capacity target
    then scale_out cfg uuid4 now db d units own (target - capacity)
    else if ltb target capacity
    then ok (stop_keys (is_single d) (unit_keys (to_stop units (capacity - target))) own)
    else ok own

unfoldable pub apply_scale :
    Settings → (ℕ → ℕ) → ℕ → Db → Deployment → ℕ → Bool → Result AllocError Deployment
apply_scale cfg uuid4 now db d replicas set_range = do
  let target = target_of d replicas set_range
  rows ← resize cfg uuid4 now db d (replica_units d) target
  ok (record d {
    instances = rows;
    min_replicas = if set_range then target else d.min_replicas;
    max_replicas = if set_range then target else d.max_replicas;
    last_scaled_at = some now;
  })

-- The groups that the loop had added when one of them could not be placed.
unfoldable pub add_groups_until : Settings → (ℕ → ℕ) → ℕ → Db → Deployment → ℕ → Growth → Growth
unfolding add_group
add_groups_until cfg uuid4 now db d zero gr = gr
add_groups_until cfg uuid4 now db d (suc n) gr = elim (add_group cfg uuid4 now db d gr) [
  | err e ↦ gr
  | ok gr' ↦ add_groups_until cfg uuid4 now db d n gr'
]

-- The deployment as a call of `apply_scale` that raises leaves it in the session: the broken units are
-- stopped, and the groups before the one that failed are added. Nothing of this is undone.
unfoldable pub failed_scale : Settings → (ℕ → ℕ) → ℕ → Db → Deployment → ℕ → Bool → Deployment
unfolding add_groups_until members_of worker_ids
failed_scale cfg uuid4 now db d replicas set_range =
    let units = replica_units d in
    let own = stop_keys (is_single d) (unit_keys (filter is_broken units)) d.instances in
    let new_units = target_of d replicas set_range - effective_capacity units in
    let grown =
      add_groups_until cfg uuid4 now db d new_units
        (record { instances = own; occupied = worker_ids (members_of units); draws = 0 }) in
    record d { instances = if ltb 1 d.nodes_per_replica then grown.instances else own }
