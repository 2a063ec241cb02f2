-- ===== src/Models.antt =====
-- The rows of the database (server/inferna_server/models.py) and the settings that the services
-- read (server/inferna_server/config.py). Ids and times are numbers, which the code only compares.
use inferna_next.Base.{Bool, List, Option, false, none, some, true, ℕ, ◌==◌, ◌||◌}
use inferna_next.Base.Text.{Text}

pub data InstanceState : Type 0 where
  scheduled starting running stopped error : InstanceState

-- `LIVE_STATES`
abbrev pub is_live : InstanceState → Bool
is_live scheduled = true
is_live starting = true
is_live running = true
is_live stopped = false
is_live error = false

abbrev pub is_running : InstanceState → Bool
is_running running = true
is_running _ = false

abbrev pub is_error : InstanceState → Bool
is_error error = true
is_error _ = false

abbrev pub is_stopped : InstanceState → Bool
is_stopped stopped = true
is_stopped _ = false

pub data DesiredState : Type 0 where
  run halt : DesiredState

abbrev pub is_run : DesiredState → Bool
is_run run = true
is_run halt = false

pub data WorkerState : Type 0 where
  connected disconnected : WorkerState

abbrev pub is_connected : WorkerState → Bool
is_connected connected = true
is_connected disconnected = false

pub record Gpu : Type 0 where
  pub index : ℕ
  pub vendor : Text
  pub name : Text
  pub vram_mb : ℕ
  pub used_vram_mb : ℕ
  pub utilization_pct : ℕ
  pub uuid : Option Text
  pub driver_version : Option Text

pub record Worker : Type 0 where
  pub id : ℕ
  pub cluster_id : ℕ
  pub name : Text
  pub hostname : Text
  pub state : WorkerState
  pub version : Option Text
  pub os : Option Text
  pub cpu_cores : Option ℕ
  pub memory_mb : Option ℕ
  pub token_hash : Text
  pub address : Option Text
  pub last_seen_at : Option ℕ
  pub gpus : List Gpu

pub record Model : Type 0 where
  pub id : ℕ
  pub name : Text
  pub vram_required_mb : ℕ
  pub requires_hf_token : Bool
  pub supported_engines : List Text

-- `model` is the loaded relationship of `model_id`.
pub record ModelInstance : Type 0 where
  pub id : ℕ
  pub model : Model
  pub cluster_id : ℕ
  pub worker_id : Option ℕ
  pub engine : Text
  pub profile : Text
  pub gpu_indexes : List ℕ
  pub state : InstanceState
  pub desired_state : DesiredState
  pub generation : ℕ
  pub port : Option ℕ
  pub error_detail : Option Text
  pub log_tail : Option Text
  pub parallel_group_id : Option ℕ
  pub node_rank : Option ℕ
  pub world_size : Option ℕ
  pub parallel_mode : Option Text
  pub rendezvous : Option Text
  pub created_at : ℕ

pub record Db : Type 0 where
  pub workers : List Worker
  pub instances : List ModelInstance

pub record Settings : Type 0 where
  pub instance_port_range_start : ℕ
  pub instance_port_range_end : ℕ
  pub rendezvous_port_range_start : ℕ
  pub rendezvous_port_range_end : ℕ

-- The defaults of `Settings`.
abbrev pub default_settings : Settings
default_settings = record {
  instance_port_range_start = 8010;
  instance_port_range_end = 8100;
  rendezvous_port_range_start = 8110;
  rendezvous_port_range_end = 8199;
}

-- `column == k` on a nullable column.
abbrev pub is_id : Option ℕ → ℕ → Bool
is_id none k = false
is_id (some j) k = j == k

-- `PORT_RESERVED`, and the predicate of the index uq_model_instances_worker_port_active
abbrev pub port_reserved : ModelInstance → Bool
port_reserved i = is_run i.desired_state || is_live i.state
