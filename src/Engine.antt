-- ===== src/Engine.antt =====
-- The command line of an engine container (worker/inferna_worker/engines/base.py). A text that the
-- program formats is built from its parts.
pub mod Manager
pub mod Reconcile
pub mod Probes
use inferna_next.Base.{
  List, Option, [], drop, if◌then◌else◌, length, ltb, max, none, some, ℕ, ◌*◌, ◌++◌, ◌||◌, ◌∷◌,
}
use inferna_next.Base.Text.{Text, codes, text_eq}
use inferna_next.Base.Strings.{is_empty, str_nat}
use inferna_next.Workers.Config.{EngineConfig}

-- The settings that the engines read (worker/inferna_worker/config.py).
pub record WorkerSettings : Type 0 where
  pub hf_token : Text
  pub vllm_image : Text
  pub sglang_image : Text
  pub worker_hostname : Text
  pub netif : Text
  pub models_dir : Text

pub record MultiNodeSpec : Type 0 where
  pub mode : Text
  pub world_size : ℕ
  pub node_rank : ℕ
  pub master_host : Text
  pub master_port : ℕ

-- `MultiNodeSpec.from_config`
unfoldable pub from_config : EngineConfig → Option MultiNodeSpec
unfolding text_eq
from_config c = elim c.topology [
  | none ↦ none
  | some (p, r) ↦
      if text_eq p.mode [] || text_eq p.mode (codes "single")
      then none
      else some (record {
        mode = p.mode;
        world_size = max 1 p.world_size;
        node_rank = r.node_rank;
        master_host = r.master_address;
        master_port = r.master_port;
      })
]

abbrev pub Environment : Type 0
Environment = List (Text × Text)

-- `env[key] = value`
unfoldable pub set_env : Text → Text → Environment → Environment
unfolding text_eq
set_env k v [] = (k, v) ∷ []
set_env k v ((j, w) ∷ env) = if text_eq k j then (j, v) ∷ env else (j, w) ∷ set_env k v env

-- `multi_node_env`, for a spec that is there
unfoldable pub multi_node_env : Text → Text → Environment
multi_node_env host netif =
    (codes "NCCL_SOCKET_IFNAME", netif)
    ∷ (if is_empty host then [] else (codes "VLLM_HOST_IP", host) ∷ [])

pub data Engine : Type 0 where
  vllm sglang : Engine

-- The engine of a name; other names raise a ValueError.
unfoldable pub engine_of : Text → Option Engine
unfolding text_eq
engine_of name =
    if text_eq name (codes "vllm")
    then some vllm
    else if text_eq name (codes "sglang")
    then some sglang
    else none

-- `VLLM_BASE` and `SGLANG_BASE`, formatted
unfoldable pub base_command : Engine → Text → ℕ → List Text
unfolding str_nat
base_command vllm model tp =
    codes "vllm"
    ∷ codes "serve"
    ∷ model
    ∷ codes "--port"
    ∷ codes "8000"
    ∷ codes "--gpu-memory-utilization"
    ∷ codes "0.9"
    ∷ codes "--tensor-parallel-size"
    ∷ str_nat tp
    ∷ []
base_command sglang model tp =
    codes "python3"
    ∷ codes "-m"
    ∷ codes "sglang.launch_server"
    ∷ codes "--model-path"
    ∷ model
    ∷ codes "--port"
    ∷ codes "8000"
    ∷ codes "--tp"
    ∷ str_nat tp
    ∷ codes "--mem-fraction-static"
    ∷ codes "0.85"
    ∷ []

-- `PROFILE_FLAGS`
unfoldable pub profile_flags : Engine → Text → List Text
unfolding text_eq
profile_flags engine profile =
    let flag : Text = elim engine [
      | vllm ↦ codes "--max-num-seqs"
      | sglang ↦ codes "--max-running-requests"
    ] in
    if text_eq profile (codes "latency")
    then flag ∷ codes "32" ∷ []
    else if text_eq profile (codes "throughput")
    then flag ∷ codes "256" ∷ []
    else []

-- `_multinode_flags`
unfoldable pub multinode_flags : Engine → MultiNodeSpec → List Text
unfolding text_eq str_nat
multinode_flags engine spec =
    let world = str_nat (max 1 spec.world_size) in
    let tp = text_eq spec.mode (codes "tp") in
    let stages = codes "--pipeline-parallel-size" ∷ world ∷ [] in
    let ranks = codes "--nnodes" ∷ world ∷ codes "--node-rank" ∷ str_nat spec.node_rank ∷ [] in
    elim engine [
      | vllm ↦
          (if tp then codes "--distributed-executor-backend" ∷ codes "mp" ∷ [] else stages)
          ++ ranks
          ++ (codes "--master-addr"
              ∷ spec.master_host
              ∷ codes "--master-port"
              ∷ str_nat spec.master_port
              ∷ [])
      | sglang ↦
          (if tp then [] else stages)
          ++ ranks
          ++ (codes "--dist-init-addr"
              ∷ (spec.master_host ++ (b':' ∷ str_nat spec.master_port))
              ∷ [])
    ]

-- `del command[i : i + 2]` at the first place of the flag
unfoldable pub drop_flag : Text → List Text → List Text
unfolding text_eq
drop_flag flag [] = []
drop_flag flag (x ∷ xs) = if text_eq x flag then drop 1 xs else x ∷ drop_flag flag xs

-- `command[i + 1] = value` at the first place of the flag
unfoldable pub set_flag : Text → Text → List Text → List Text
unfolding text_eq
set_flag flag value [] = []
set_flag flag value (x ∷ xs) =
    if text_eq x flag then x ∷ value ∷ drop 1 xs else x ∷ set_flag flag value xs

-- What a rank of a group changes of the command.
unfoldable pub for_rank : Engine → MultiNodeSpec → ℕ → ℕ → List Text → List Text
unfolding drop_flag set_flag multinode_flags
for_rank engine spec tp serve_port command =
    let served =
      if ltb 0 spec.node_rank
      then drop_flag (codes "--port") command
      else set_flag (codes "--port") (str_nat serve_port) command in
    let tp_flag : Text = elim engine [
      | vllm ↦ codes "--tensor-parallel-size"
      | sglang ↦ codes "--tp"
    ] in
    (if text_eq spec.mode (codes "tp")
      then set_flag tp_flag (str_nat (tp * max 1 spec.world_size)) served
      else served)
    ++ multinode_flags engine spec

-- `build_command`; nothing is the ValueError of an unknown engine.
unfoldable pub build_command : EngineConfig → Option MultiNodeSpec → ℕ → Option (List Text)
unfolding engine_of base_command profile_flags for_rank
build_command c spec serve_port = elim (engine_of c.engine) [
  | none ↦ none
  | some engine ↦
      let tp = max 1 (length c.gpu_indexes) in
      let command = base_command engine c.model_name tp ++ profile_flags engine c.profile in
      some (elim spec [ none ↦ command | some s ↦ for_rank engine s tp serve_port command ])
]

-- `image_for`
unfoldable pub image_for : Text → WorkerSettings → Option Text
unfolding engine_of
image_for name settings = elim (engine_of name) [
  | none ↦ none
  | some vllm ↦ some settings.vllm_image
  | some sglang ↦ some settings.sglang_image
]
