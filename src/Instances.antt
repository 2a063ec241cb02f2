-- ===== src/Instances.antt =====
-- The life of model instances by the API (server/inferna_server/api/instances.py): deploy, stop, restart
-- and delete. A deployment holds its rows; `loose` are the rows without one. The commit of a handler is
-- its last step and raises if it violates the index on worker and port: `deploy` answers this with
-- `allocation_conflict`, and from the other handlers the IntegrityError escapes.
pub mod Life
pub mod Places
pub mod Commands
use inferna_next.Base.{
  Bool, List, Option, [], any, false, if◌then◌else◌, leb, length, ltb, none, not, some, true, ℕ,
  ◌&&◌, ◌++◌, ◌+◌, ◌==◌, ◌||◌, ◌∷◌,
}
use inferna_next.Base.Text.{Text, codes, text_eq}
use inferna_next.Base.Results.{Result, err, ok, or_raise, raise_if, ◌>>=◌, ◌>>◌}
use inferna_next.Models.{
  Db, Model, ModelInstance, Settings, Worker, halt, is_run, port_reserved, run,
}
use inferna_next.Scheduler.{AllocError}
use inferna_next.Scheduler.Manual.{allocate_manual}
use inferna_next.Scheduler.Replicas.{allocate_replicas}
use inferna_next.Scheduler.Parallel.{allocate_parallel_replicas}
use inferna_next.Scaling.{Deployment}
use inferna_next.Scaling.Apply.{group_rows, rendezvous_of, single_rows}
use inferna_next.PrefixCache.{text_in}
use inferna_next.Workers.Register.{Cluster}

-- `manual` is the worker and the GPUs of a manual selection.
pub record DeployRequest : Type 0 where
  pub model_id : ℕ
  pub cluster_id : ℕ
  pub engine : Text
  pub profile : Text
  pub replicas : ℕ
  pub nodes_per_replica : ℕ
  pub parallel_mode : Text
  pub manual : Option (ℕ × List ℕ)

-- The tables that the handlers read and write.
pub record Store : Type 0 where
  pub models : List Model
  pub clusters : List Cluster
  pub workers : List Worker
  pub deployments : List Deployment
  pub loose : List ModelInstance

-- `invalid_body` is the answer of the request schema, `no_ranks` the IndexError of `allocations[0]`,
-- and `integrity_error` the IntegrityError of a commit that no handler catches.
pub data ApiError : Type 0 where
  invalid_body model_not_found unknown_cluster engine_not_supported : ApiError
  manual_single_replica mode_required mode_forbidden single_group no_ranks : ApiError
  no_allocation : AllocError → ApiError
  allocation_conflict instance_not_found integrity_error : ApiError

unfoldable pub rows_of_all : List Deployment → List ModelInstance
rows_of_all [] = []
rows_of_all (d ∷ ds) = d.instances ++ rows_of_all ds

abbrev pub store_rows : Store → List ModelInstance
store_rows s = rows_of_all s.deployments ++ s.loose

abbrev pub db_of : Store → Db
db_of s = record { workers = s.workers; instances = store_rows s }

abbrev pub same_number : Option ℕ → Option ℕ → Bool
same_number none j = false
same_number (some a) none = false
same_number (some a) (some b) = a == b

-- Two rows that uq_model_instances_worker_port_active forbids.
unfoldable pub share_port : ModelInstance → ModelInstance → Bool
share_port i j =
    port_reserved i
    && port_reserved j
    && same_number i.worker_id j.worker_id
    && same_number i.port j.port

unfoldable pub has_conflict : List ModelInstance → Bool
unfolding share_port
has_conflict [] = false
has_conflict (i ∷ is) = any (share_port i) is || has_conflict is

-- The commit, which raises `refusal` on a conflict.
unfoldable pub commit_store : ApiError → Store → Result ApiError Store
unfolding rows_of_all has_conflict
commit_store refusal s = if has_conflict (store_rows s) then err refusal else ok s

unfoldable pub model_by_id : ℕ → List Model → Option Model
model_by_id id [] = none
model_by_id id (m ∷ ms) = if m.id == id then some m else model_by_id id ms

-- The bounds of the numbers in the schema `DeployRequest`.
unfoldable pub has_valid_counts : DeployRequest → Bool
has_valid_counts body =
    leb 1 body.replicas
    && leb body.replicas 8
    && (leb 1 body.nodes_per_replica && leb body.nodes_per_replica 8)

-- Its Literal fields, and the GPUs of a manual selection.
unfoldable pub has_valid_words : DeployRequest → Bool
unfolding text_in text_eq
has_valid_words body =
    text_in body.engine (codes "vllm" ∷ codes "sglang" ∷ [])
    && text_in body.profile (codes "latency" ∷ codes "throughput" ∷ [])
    && text_in body.parallel_mode
        (codes "single" ∷ codes "dp" ∷ codes "pp" ∷ codes "tp" ∷ codes "pd" ∷ [])
    && elim body.manual [ none ↦ true | some m ↦ leb 1 (length m.1) ]

abbrev pub is_valid_body : DeployRequest → Bool
is_valid_body body = has_valid_counts body && has_valid_words body

abbrev pub is_manual : DeployRequest → Bool
is_manual body = elim body.manual [ none ↦ false | some m ↦ true ]

abbrev pub deployment_of : Model → DeployRequest → Deployment
deployment_of model body = record {
  model = model;
  cluster_id = body.cluster_id;
  engine = body.engine;
  profile = body.profile;
  min_replicas = body.replicas;
  max_replicas = body.replicas;
  nodes_per_replica = body.nodes_per_replica;
  parallel_mode = some body.parallel_mode;
  last_scaled_at = none;
  instances = [];
}

-- The checks of `deploy` and the schema, which return the model.
unfoldable pub check_deploy : DeployRequest → Store → Result ApiError Model
unfolding model_by_id has_valid_counts has_valid_words text_in text_eq
check_deploy body s = do
  let multi = ltb 1 body.nodes_per_replica
  let single = text_eq body.parallel_mode (codes "single")
  raise_if (not (is_valid_body body)) invalid_body
  model ← or_raise (model_by_id body.model_id s.models) model_not_found
  raise_if (not (any (λ c. c.id == body.cluster_id) s.clusters)) unknown_cluster
  raise_if (not (text_in body.engine model.supported_engines)) engine_not_supported
  raise_if (is_manual body && (not (body.replicas == 1) || multi)) manual_single_replica
  raise_if (multi && single) mode_required
  raise_if (not multi && not single) mode_forbidden
  raise_if (multi && not (body.replicas == 1)) single_group
  ok model

abbrev pub raising : {A : Type 0} → Result AllocError A → Result ApiError A
raising (err e) = err (no_allocation e)
raising (ok a) = ok a

module _ (cfg : Settings) (uuid4 : ℕ → ℕ) (now : ℕ) where
  -- The ranks of one group, head first.
  unfoldable pub group_instances : Db → Deployment → Result ApiError (List ModelInstance)
  unfolding allocate_parallel_replicas group_rows rendezvous_of
  group_instances db d = do
    ranks ← raising (
        allocate_parallel_replicas cfg db d.cluster_id d.model.vram_required_mb d.engine
          d.nodes_per_replica [])
    raise_if (elim ranks [ [] ↦ true | r ∷ rs ↦ false ]) no_ranks
    ok (group_rows uuid4 now d (uuid4 0) (rendezvous_of ranks) 1 ranks)

  unfoldable pub single_instances :
      Db → Deployment → Option (ℕ × List ℕ) → ℕ → Result ApiError (List ModelInstance)
  unfolding allocate_manual allocate_replicas single_rows
  single_instances db d (some (worker, gpus)) replicas = do
    a ← raising (allocate_manual cfg db d.cluster_id worker gpus d.model.vram_required_mb d.engine)
    ok (single_rows uuid4 now d 0 (a ∷ []))
  single_instances db d none replicas = do
    xs ←
        raising
          (allocate_replicas cfg db d.cluster_id d.model.vram_required_mb d.engine replicas [])
    ok (single_rows uuid4 now d 0 xs)

  unfoldable pub new_instances :
      Db → Deployment → DeployRequest → Result ApiError (List ModelInstance)
  unfolding group_instances single_instances
  new_instances db d body =
      if ltb 1 body.nodes_per_replica
      then group_instances db d
      else single_instances db d body.manual body.replicas

  -- `deploy`
  unfoldable pub deploy : DeployRequest → Store → Result ApiError Store
  unfolding check_deploy new_instances commit_store
  deploy body s = do
    model ← check_deploy body s
    rows ← new_instances (db_of s) (deployment_of model body) body
    commit_store allocation_conflict (record s {
      deployments = s.deployments ++ record (deployment_of model body) { instances = rows } ∷ [];
    })

abbrev pub has_row : ℕ → List ModelInstance → Bool
has_row id rows = any (λ i. i.id == id) rows

-- The row of an id is changed, wherever it stands.
unfoldable pub change_row :
    ℕ → (ModelInstance → ModelInstance) → List ModelInstance → List ModelInstance
change_row id f [] = []
change_row id f (i ∷ is) = (if i.id == id then f i else i) ∷ change_row id f is

unfoldable pub change_in : ℕ → (ModelInstance → ModelInstance) → List Deployment → List Deployment
unfolding change_row
change_in id f [] = []
change_in id f (d ∷ ds) = record d { instances = change_row id f d.instances } ∷ change_in id f ds

unfoldable pub change_instance : ℕ → (ModelInstance → ModelInstance) → Store → Result ApiError Store
unfolding change_in commit_store
change_instance id f s = do
  raise_if (not (has_row id (store_rows s))) instance_not_found
  commit_store integrity_error
      (record s { deployments = change_in id f s.deployments; loose = change_row id f s.loose })

-- What `stop_instance` and `restart_instance` make of a row.
unfoldable pub stopped_row : ModelInstance → ModelInstance
stopped_row i =
    if is_run i.desired_state
    then record i { desired_state = halt; generation = i.generation + 1; error_detail = none }
    else i

unfoldable pub restarted_row : ModelInstance → ModelInstance
restarted_row i = record i {
  desired_state = run;
  generation = i.generation + 1;
  error_detail = none;
}

unfoldable pub stop_instance : ℕ → Store → Result ApiError Store
unfolding change_instance stopped_row
stop_instance id s = change_instance id stopped_row s

unfoldable pub restart_instance : ℕ → Store → Result ApiError Store
unfolding change_instance restarted_row
restart_instance id s = change_instance id restarted_row s

unfoldable pub remove_row : ℕ → List ModelInstance → List ModelInstance
remove_row id [] = []
remove_row id (i ∷ is) = if i.id == id then is else i ∷ remove_row id is

-- The last row of a deployment takes the deployment with it.
unfoldable pub remove_in : ℕ → List Deployment → List Deployment
unfolding remove_row
remove_in id [] = []
remove_in id (d ∷ ds) =
    if has_row id d.instances
    then (if leb (length d.instances) 1
        then ds
        else record d { instances = remove_row id d.instances } ∷ ds)
    else d ∷ remove_in id ds

-- `delete_instance`
unfoldable pub delete_instance : ℕ → Store → Result ApiError Store
unfolding remove_in commit_store
delete_instance id s = do
  raise_if (not (has_row id (store_rows s))) instance_not_found
  commit_store integrity_error (
      if has_row id (rows_of_all s.deployments)
      then record s { deployments = remove_in id s.deployments }
      else record s { loose = remove_row id s.loose })

pub data ApiCall : Type 0 where
  deploying : DeployRequest → ApiCall
  stopping restarting deleting : ℕ → ApiCall

-- One call; `draws` are the ids that it draws, and one that raises leaves the tables as they were.
unfoldable pub answer_call : Settings → (ℕ → ℕ) → ℕ → ApiCall → Store → Result ApiError Store
unfolding deploy stop_instance restart_instance delete_instance
answer_call cfg uuid4 now (deploying body) s = deploy cfg uuid4 now body s
answer_call cfg uuid4 now (stopping id) s = stop_instance id s
answer_call cfg uuid4 now (restarting id) s = restart_instance id s
answer_call cfg uuid4 now (deleting id) s = delete_instance id s

unfoldable pub run_calls : Settings → (ℕ → ℕ → ℕ) → ℕ → List ApiCall → Store → Store
unfolding answer_call
run_calls cfg uuid4 now [] s = s
run_calls cfg uuid4 now (c ∷ cs) s = elim (answer_call cfg (uuid4 now) now c s) [
  | err e ↦ run_calls cfg uuid4 (now + 1) cs s
  | ok s' ↦ run_calls cfg uuid4 (now + 1) cs s'
]
