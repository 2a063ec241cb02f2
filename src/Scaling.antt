-- ===== src/Scaling.antt =====
-- Scaling of a deployment (server/inferna_server/services/scaling.py). `apply_scale` reads the rows
-- of other deployments from `db` and those of its own from the deployment, whose changes the
-- session flushes before each query. `uuid4 k` is the k-th id that the call draws, and `now` the
-- time of the commit.
pub mod Apply
pub mod Counting
pub mod Stops
pub mod Count
pub mod Capacity
pub mod Outcome
pub mod Before
pub mod Candidates
pub mod Order
use inferna_next.Base.{
  Bool, List, Option, [], all, any, false, if◌then◌else◌, leb, length, min, none, not, some, true,
  ℕ, ◌&&◌, ◌++◌, ◌+◌, ◌==◌, ◌||◌, ◌∷◌,
}
use inferna_next.Base.Text.{Text}
use inferna_next.Base.Member.{elem}
use inferna_next.Models.{
  Model, ModelInstance, Worker, halt, is_error, is_live, is_run, is_running, run, scheduled,
}

pub record Deployment : Type 0 where
  pub model : Model
  pub cluster_id : ℕ
  pub engine : Text
  pub profile : Text
  pub min_replicas : ℕ
  pub max_replicas : ℕ
  pub nodes_per_replica : ℕ
  pub parallel_mode : Option Text
  pub last_scaled_at : Option ℕ
  pub instances : List ModelInstance

-- A replica unit with the key under which `_replica_units` groups it.
pub record ReplicaUnit : Type 0 where
  pub key : ℕ
  pub members : List ModelInstance

-- `inst.parallel_group_id or inst.id`, or the instance itself in a single-node deployment
unfoldable pub unit_key : Bool → ModelInstance → ℕ
unit_key true i = i.id
unit_key false i = elim i.parallel_group_id [ none ↦ i.id | some g ↦ g ]

unfoldable pub single_units : List ModelInstance → List ReplicaUnit
single_units [] = []
single_units (i ∷ is) = record { key = i.id; members = i ∷ [] } ∷ single_units is

-- `groups.setdefault(key, []).append(inst)`
unfoldable pub group_add : ℕ → ModelInstance → List ReplicaUnit → List ReplicaUnit
group_add k i [] = record { key = k; members = i ∷ [] } ∷ []
group_add k i (u ∷ us) =
    if u.key == k then record u { members = u.members ++ i ∷ [] } ∷ us else u ∷ group_add k i us

unfoldable pub group_from : List ReplicaUnit → List ModelInstance → List ReplicaUnit
unfolding group_add unit_key
group_from us [] = us
group_from us (i ∷ is) = group_from (group_add (unit_key false i) i us) is

-- `deployment.nodes_per_replica <= 1`
abbrev pub is_single : Deployment → Bool
is_single d = leb d.nodes_per_replica 1

unfoldable pub units_of : Bool → List ModelInstance → List ReplicaUnit
unfolding single_units group_from
units_of true is = single_units is
units_of false is = group_from [] is

-- `_replica_units`
unfoldable pub replica_units : Deployment → List ReplicaUnit
unfolding units_of
replica_units d = units_of (is_single d) d.instances

-- `replica_unit_count`
unfoldable pub replica_unit_count : Deployment → ℕ
unfolding replica_units
replica_unit_count d = length (replica_units d)

abbrev pub all_running : ReplicaUnit → Bool
all_running u = all (λ i. is_running i.state) u.members

-- The four lists of `apply_scale`, as tests on a unit.
abbrev pub is_live_unit : ReplicaUnit → Bool
is_live_unit u = any (λ i. is_run i.desired_state) u.members

abbrev pub is_serving : ReplicaUnit → Bool
is_serving u = is_live_unit u && all_running u

abbrev pub is_pending : ReplicaUnit → Bool
is_pending u = is_live_unit u && (not (all_running u) && all (λ i. is_live i.state) u.members)

abbrev pub is_broken : ReplicaUnit → Bool
is_broken u = is_live_unit u && any (λ i. is_error i.state) u.members

unfoldable pub unit_keys : List ReplicaUnit → List ℕ
unit_keys [] = []
unit_keys (u ∷ us) = u.key ∷ unit_keys us

-- The three assignments of a stop.
unfoldable pub stop_row : ModelInstance → ModelInstance
stop_row i = record i { desired_state = halt; generation = i.generation + 1; error_detail = none }

-- `for unit in units: for inst in unit: ...`: a unit's instances are those of its key.
unfoldable pub stop_keys : Bool → List ℕ → List ModelInstance → List ModelInstance
unfolding stop_row
stop_keys single ks [] = []
stop_keys single ks (i ∷ is) =
    (if elem (unit_key single i) ks then stop_row i else i) ∷ stop_keys single ks is

unfoldable pub oldest : List ModelInstance → ℕ
oldest [] = 0
oldest (i ∷ []) = i.created_at
oldest (i ∷ j ∷ is) = min i.created_at (oldest (j ∷ is))

-- The order of scale-in: units that are not all running first, then the oldest.
unfoldable pub stops_before : ReplicaUnit → ReplicaUnit → Bool
unfolding oldest
stops_before u v =
    if all_running u
    then all_running v && leb (oldest u.members) (oldest v.members)
    else all_running v || leb (oldest u.members) (oldest v.members)

-- The pairs `(worker_id, index)` that the instances hold.
unfoldable pub pairs_with : ℕ → List ℕ → List (ℕ × ℕ)
pairs_with w [] = []
pairs_with w (i ∷ is) = (w, i) ∷ pairs_with w is

unfoldable pub gpu_pairs : List ModelInstance → List (ℕ × ℕ)
unfolding pairs_with
gpu_pairs [] = []
gpu_pairs (i ∷ is) = elim i.worker_id [
  | none ↦ gpu_pairs is
  | some w ↦ pairs_with w i.gpu_indexes ++ gpu_pairs is
]

unfoldable pub members_of : List ReplicaUnit → List ModelInstance
members_of [] = []
members_of (u ∷ us) = u.members ++ members_of us

unfoldable pub worker_ids : List ModelInstance → List ℕ
worker_ids [] = []
worker_ids (i ∷ is) = elim i.worker_id [ none ↦ worker_ids is | some w ↦ w ∷ worker_ids is ]

-- The row of a new instance; the arguments are what the two branches set differently.
abbrev pub new_row :
    Deployment
    → ℕ
    → ℕ
    → Worker
    → List ℕ
    → Option ℕ
    → Option ℕ
    → Option ℕ
    → Option ℕ
    → Option Text
    → Option Text
    → ModelInstance
new_row d id now w gpus port group rank world mode rendezvous = record {
  id = id;
  model = d.model;
  cluster_id = d.cluster_id;
  worker_id = some w.id;
  engine = d.engine;
  profile = d.profile;
  gpu_indexes = gpus;
  state = scheduled;
  desired_state = run;
  generation = 1;
  port = port;
  error_detail = none;
  log_tail = none;
  parallel_group_id = group;
  node_rank = rank;
  world_size = world;
  parallel_mode = mode;
  rendezvous = rendezvous;
  created_at = now;
}
