-- ===== src/Tests/Engine.antt =====
-- A worker with a recorded daemon: the calls of the daemon that succeeded are its state.
use inferna_next.Base.{
  List, Option, [], false, filter, if◌then◌else◌, map, none, not, refl, some, ℕ, ◌==◌, ◌∷◌, ◌≡◌,
}
use inferna_next.Base.Text.{codes, text_eq}
use inferna_next.Base.Sorting.{sort_by}
use inferna_next.Base.Results.{ok}
use inferna_next.Models.{Db, InstanceState, halt, running, starting}
use inferna_next.Scheduler.Parallel.{ParallelAllocation}
use inferna_next.Scaling.Apply.{group_rows, rendezvous_of}
use inferna_next.Workers.Config.{EngineConfig, config_of}
use inferna_next.Workers.Config.Topology.{TellsAll, group_rows-TellsAll}
use inferna_next.Workers.Sync.{
  Command, InstanceStatus, SyncRequest, delete, start, stop, sync_rows, sync_system, sync_worker,
}
use inferna_next.Engine.{WorkerSettings}
use inferna_next.Engine.Manager.{Docker, Info, Manager, start_sync}
use inferna_next.Engine.Manager.Effects.{IsStartOf, start_sync-IsStartOf}
use inferna_next.Engine.Reconcile.{apply_commands, ordered, run_batch, statuses}
use inferna_next.Engine.Reconcile.Loop.{IsQuietAfter, sync_worker-settles}
use inferna_next.Engine.Reconcile.Order.{IsRun, run_batch-IsRun}
use inferna_next.Tests.Placement.{worker_a, worker_b, instance_on}
use inferna_next.Tests.Scaling.{deployed, draw}

-- The state of the daemon: its containers.
abbrev daemon : Docker (List ℕ)
daemon = record {
  remove = λ id s. (ok tt, filter (λ k. not (k == id)) s);
  stop_container = λ id s. (ok tt, s);
  pull = λ image s. (ok tt, s);
  create = λ spec s. (ok tt, spec.instance_id ∷ s);
  start_container = λ id s. (ok tt, s);
  managed = λ s. s;
  log_tail = λ id s. codes "ready";
}

abbrev settings : WorkerSettings
settings = record {
  hf_token = [];
  vllm_image = codes "vllm:1";
  sglang_image = codes "sglang:1";
  worker_hostname = codes "a";
  netif = codes "eth0";
  models_dir = codes "/models";
}

abbrev info : InstanceState → ℕ → Option ℕ → Info
info state generation rank = record {
  state = state;
  port = 8010;
  detail = [];
  started_at = 0;
  generation = generation;
  node_rank = rank;
  log_tail = [];
}

-- Instances 2 and 3 are ranks 0 and 1 of a group, 9 has no row.
abbrev manager : Manager (List ℕ)
manager = record {
  instances =
      (2, info running 1 (some 0)) ∷ (3, info running 1 (some 1)) ∷ (9, info running 1 none) ∷ [];
  pulled_images = [];
  probes = [];
  pending_probes = [];
  batch = false;
  pending = [];
  docker = 2 ∷ 3 ∷ 9 ∷ [];
}

-- Instance 1 is to run, 2 and 3 are to stop.
abbrev fleet : Db
fleet = record {
  workers = worker_a ∷ [];
  instances =
      instance_on 1 11 8010
      ∷ record (instance_on 2 11 8011) { desired_state = halt }
      ∷ record (instance_on 3 11 8012) { desired_state = halt }
      ∷ [];
}

abbrev report : List InstanceStatus → SyncRequest
report instances = record {
  worker_id = some 11;
  worker_token = [];
  os = [];
  hostname = [];
  cpu_cores = 0;
  memory_mb = 0;
  gpus = [];
  instances = instances;
}

abbrev request : SyncRequest
request = report (statuses daemon settings 7 manager).0

abbrev reported_status : ℕ → InstanceStatus
reported_status id = record {
  instance_id = some id;
  state = running;
  generation = 1;
  detail = [];
  log_tail = codes "ready";
  port = 8010;
}

reported : request.instances ≡ reported_status 2 ∷ reported_status 3 ∷ reported_status 9 ∷ []
unfolding statuses
reported = refl

abbrev first_commands : List Command
first_commands =
    start 1 1 (config_of (instance_on 1 11 8010)) ∷ stop 2 ∷ stop 3 ∷ delete (some 9) ∷ []

abbrev after_first : Db
after_first = record {
  workers = sync_system (λ t. t) 100 request worker_a ∷ [];
  instances = sync_rows 11 request.instances fleet.instances;
}

first_call : sync_worker (λ t. t) 100 request fleet ≡ ok (after_first, first_commands)
unfolding sync_worker statuses text_eq
first_call = refl

-- The stop of rank 1 comes before the stop of rank 0.
run_order :
    sort_by (ordered manager.instances) first_commands
    ≡ start 1 1 (config_of (instance_on 1 11 8010)) ∷ stop 3 ∷ stop 2 ∷ delete (some 9) ∷ []
unfolding sort_by ordered
run_order = refl

-- A restart of the group starts rank 1 before rank 0, against the order of the server.
restart_order :
    (c : EngineConfig)
    → sort_by (ordered manager.instances) (start 2 2 c ∷ start 3 2 c ∷ [])
      ≡ start 3 2 c ∷ start 2 2 c ∷ []
unfolding sort_by ordered
restart_order c = refl

states : List (ℕ × Info) → List (ℕ × InstanceState)
states rows = map (λ r. (r.0, r.1.state)) rows

batch_test :
    states (run_batch daemon settings 7 first_commands manager).instances
    ≡ (2, InstanceState.stopped) ∷ (3, InstanceState.stopped) ∷ (1, starting) ∷ []
unfolding states run_batch text_eq config_of
batch_test = refl

sync_worker-settles_example :
    IsQuietAfter daemon settings 7 (λ t. t) 105 request manager (after_first, first_commands)
sync_worker-settles_example =
    sync_worker-settles daemon settings 7 (λ t. t) 100 105 request fleet after_first first_commands
      manager refl (refl, (refl, (refl, tt))) (refl, (refl, (refl, tt))) first_call

run_batch-IsRun_example :
    (ran : List Command) × IsRun manager.instances first_commands ran
    × ((run_batch daemon settings 7 first_commands manager).instances
        ≡ (apply_commands daemon settings 7 ran manager).instances)
run_batch-IsRun_example = run_batch-IsRun daemon settings 7 first_commands manager

start_sync-IsStartOf_example :
    IsStartOf 1 1 manager.instances
      (start_sync daemon settings 7 1 1 (config_of (instance_on 1 11 8010)) manager).instances
start_sync-IsStartOf_example =
    start_sync-IsStartOf daemon settings 7 1 1 (config_of (instance_on 1 11 8010)) manager

abbrev rank : ℕ → Option ℕ → ParallelAllocation
rank k port = record {
  worker = if k == 0 then worker_a else worker_b;
  gpu_indexes = 0 ∷ [];
  node_rank = k;
  instance_port = port;
  rendezvous_port = port;
}

group_rows-TellsAll_example :
    TellsAll (rank 0 (some 8110)) 8110 (rank 0 (some 8110) ∷ rank 1 none ∷ []) (
      group_rows draw 50 deployed 7
        (rendezvous_of (rank 0 (some 8110) ∷ rank 1 none ∷ []))
        1
        (rank 0 (some 8110) ∷ rank 1 none ∷ []))
group_rows-TellsAll_example =
    group_rows-TellsAll draw 50 deployed 7 8110 (rank 0 (some 8110)) 1 (rank 1 none ∷ []) refl
