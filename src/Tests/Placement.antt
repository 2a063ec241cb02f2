-- ===== src/Tests/Placement.antt =====
-- A cluster of three workers for the scheduler.
use inferna_next.Base.{List, Option, [], arith, false, none, refl, some, ℕ, ◌↔◌, ◌∷◌, ◌≡◌}
use inferna_next.Base.Text.{Text, codes, text_eq, text_leb}
use inferna_next.Base.Member.{elem}
use inferna_next.Base.Results.{ok}
use inferna_next.Models.{
  Db, Gpu, Model, ModelInstance, Worker, connected, default_settings, run, running,
}
use inferna_next.Scheduler.{
  Allocation, alloc_port, connected_workers, engine_supports, gpu_usage, live_instances,
  port_instances, usage_get,
}
use inferna_next.Scheduler.Usage.{gpu_usage-sums, reserved_mb}
use inferna_next.Scheduler.Ports.{PortOutcome, alloc_port-PortOutcome}
use inferna_next.Scheduler.BestFit.{best_fit}
use inferna_next.Scheduler.Auto.{AutoOutcome, allocate_auto, allocate_auto-AutoOutcome}
use inferna_next.Scheduler.Manual.{allocate_manual}
use inferna_next.Scheduler.Manual.Outcome.{Ascending, IsManual, allocate_manual_iff}
use inferna_next.Scheduler.Replicas.{allocate_replicas, choose, start}
use inferna_next.Scheduler.Replicas.Spread.{Spreads, choose-Spreads}
use inferna_next.Scheduler.Replicas.Capacity.{ArePlaced, allocate_replicas-ArePlaced}
use inferna_next.Scheduler.Parallel.{
  ParallelAllocation, allocate_parallel_replicas, rendezvous_host,
}
use inferna_next.Scheduler.Parallel.Group.{IsGroup, allocate_parallel_replicas-IsGroup}

abbrev pub mock_gpu : ℕ → ℕ → Gpu
mock_gpu index vram = record {
  index = index;
  vendor = codes "mock";
  name = codes "Mock GPU";
  vram_mb = vram;
  used_vram_mb = 0;
  utilization_pct = 0;
  uuid = none;
  driver_version = none;
}

abbrev host : ℕ → Text → Option Text → List Gpu → Worker
host id name address gpus = record {
  id = id;
  cluster_id = 1;
  name = name;
  hostname = name;
  state = connected;
  version = none;
  os = none;
  cpu_cores = none;
  memory_mb = none;
  token_hash = [];
  address = address;
  last_seen_at = some 0;
  gpus = gpus;
}

abbrev pub small_model : Model
small_model = record {
  id = 5;
  name = codes "m";
  vram_required_mb = 6000;
  requires_hf_token = false;
  supported_engines = codes "vllm" ∷ [];
}

abbrev pub instance_on : ℕ → ℕ → ℕ → ModelInstance
instance_on id worker port = record {
  id = id;
  model = small_model;
  cluster_id = 1;
  worker_id = some worker;
  engine = codes "vllm";
  profile = codes "latency";
  gpu_indexes = 0 ∷ [];
  state = running;
  desired_state = run;
  generation = 1;
  port = some port;
  error_detail = none;
  log_tail = none;
  parallel_group_id = none;
  node_rank = none;
  world_size = none;
  parallel_mode = none;
  rendezvous = some (codes "10.0.0.1:8110");
  created_at = 0;
}

abbrev pub worker_a : Worker
worker_a =
    host 11 (codes "a") (some (codes "http://10.0.0.1")) (mock_gpu 0 16000 ∷ mock_gpu 1 24000 ∷ [])

abbrev pub worker_b : Worker
worker_b = host 12 (codes "b") none (mock_gpu 0 12000 ∷ [])

abbrev db : Db
db = record { workers = worker_b ∷ worker_a ∷ []; instances = instance_on 1 11 8010 ∷ [] }

-- GPU 0 of worker 11 holds one model of 6000 MB, so 10000 MB are free: the best fit for 8000.
auto_test :
    allocate_auto default_settings db 1 8000 (codes "vllm")
    ≡ ok (record { worker = worker_a; gpu_indexes = 0 ∷ []; port = 8011 })
unfolding allocate_auto connected_workers best_fit live_instances port_instances gpu_usage usage_get
    engine_supports text_eq text_leb alloc_port
auto_test = refl

abbrev pub vllm : Text
vllm = codes "vllm"

abbrev three : List Allocation
three =
    record { worker = worker_a; gpu_indexes = 0 ∷ []; port = 8011 }
    ∷ record { worker = worker_b; gpu_indexes = 0 ∷ []; port = 8010 }
    ∷ record { worker = worker_a; gpu_indexes = 1 ∷ []; port = 8012 }
    ∷ []

three_replicas : allocate_replicas default_settings db 1 7000 vllm 3 [] ≡ ok three
unfolding allocate_replicas connected_workers best_fit live_instances port_instances gpu_usage
    usage_get engine_supports text_eq text_leb alloc_port
three_replicas = refl

allocate_replicas-ArePlaced_example : ArePlaced default_settings db 1 7000 vllm 3 three
allocate_replicas-ArePlaced_example =
    allocate_replicas-ArePlaced default_settings db 1 7000 vllm 3 [] three three_replicas

abbrev manual : Allocation
manual = record { worker = worker_a; gpu_indexes = 0 ∷ 1 ∷ []; port = 8011 }

abbrev pair : List ParallelAllocation
pair =
    record {
      worker = worker_a;
      gpu_indexes = 1 ∷ [];
      node_rank = 0;
      instance_port = some 8011;
      rendezvous_port = some 8111;
    }
    ∷ record {
      worker = worker_b;
      gpu_indexes = 0 ∷ [];
      node_rank = 1;
      instance_port = none;
      rendezvous_port = none;
    }
    ∷ []

pair_test : allocate_parallel_replicas default_settings db 1 7000 vllm 2 [] ≡ ok pair
unfolding allocate_parallel_replicas connected_workers live_instances port_instances gpu_usage
    usage_get engine_supports text_eq text_leb alloc_port
pair_test = refl

allocate_parallel_replicas-IsGroup_example : IsGroup default_settings db 1 7000 vllm 2 [] pair
allocate_parallel_replicas-IsGroup_example =
    allocate_parallel_replicas-IsGroup default_settings db 1 7000 vllm 2 [] pair (omega arith)
      (refl, (refl, tt)) pair_test

allocate_manual_iff_example :
    ((allocate_manual default_settings db 1 11 (1 ∷ 0 ∷ 1 ∷ []) 6000 vllm ≡ ok manual)
      ↔ IsManual default_settings db 1 11 (1 ∷ 0 ∷ 1 ∷ []) 6000 vllm manual)
    × (IsManual default_settings db 1 11 (1 ∷ 0 ∷ 1 ∷ []) 6000 vllm manual → Ascending (0 ∷ 1 ∷ []))
    × (IsManual default_settings db 1 11 (1 ∷ 0 ∷ 1 ∷ []) 6000 vllm manual
        → (k : ℕ) → elem k (0 ∷ 1 ∷ []) ≡ elem k (1 ∷ 0 ∷ 1 ∷ []))
allocate_manual_iff_example =
    allocate_manual_iff default_settings db 1 11 (1 ∷ 0 ∷ 1 ∷ []) 6000 vllm manual

manual_test : allocate_manual default_settings db 1 11 (1 ∷ 0 ∷ 1 ∷ []) 6000 vllm ≡ ok manual
unfolding allocate_manual live_instances port_instances gpu_usage usage_get engine_supports text_eq
    alloc_port
manual_test = refl

gpu_usage-sums_example : usage_get (gpu_usage db.instances) 0 ≡ reserved_mb 0 db.instances
gpu_usage-sums_example = gpu_usage-sums db.instances 0

alloc_port-PortOutcome_example :
    PortOutcome default_settings db.instances [] (alloc_port default_settings db.instances [])
alloc_port-PortOutcome_example = alloc_port-PortOutcome default_settings db.instances []

allocate_auto-AutoOutcome_example :
    AutoOutcome default_settings db 1 8000 vllm (allocate_auto default_settings db 1 8000 vllm)
allocate_auto-AutoOutcome_example = allocate_auto-AutoOutcome default_settings db 1 8000 vllm

choose-Spreads_example :
    Spreads db
      (worker_a ∷ worker_b ∷ [])
      7000
      vllm
      (start ((11, 0) ∷ []))
      (choose db (worker_a ∷ worker_b ∷ []) 7000 vllm (start ((11, 0) ∷ [])))
choose-Spreads_example =
    choose-Spreads db (worker_a ∷ worker_b ∷ []) 7000 vllm (start ((11, 0) ∷ []))

rendezvous_host_test : rendezvous_host (some (codes " HTTP://[::1]:8110/x ")) [] ≡ codes "::1"
unfolding rendezvous_host
rendezvous_host_test = refl
