-- ===== src/Workers/Config.antt =====
-- The configuration that a start command carries (`_apply_parallelism` of
-- server/inferna_server/services/workers_svc.py, and the messages of proto/cluster.proto).
pub mod Topology
use inferna_next.Base.{
  Bool, List, Option, [], if◌then◌else◌, length, none, some, ℕ, ◌++◌, ◌==◌, ◌∷◌,
}
use inferna_next.Base.Text.{Text, codes, text_eq}
use inferna_next.Base.Strings.{int_from, isdigit, or_text, rpartition}
use inferna_next.Models.{ModelInstance}

pub record Parallelism : Type 0 where
  pub mode : Text
  pub tensor_parallel : ℕ
  pub pipeline_parallel : ℕ
  pub world_size : ℕ

pub record Rendezvous : Type 0 where
  pub master_address : Text
  pub master_port : ℕ
  pub node_rank : ℕ
  pub num_nodes : ℕ
  pub env : List Text

-- `topology` is there if `_apply_parallelism` fills the two messages.
pub record EngineConfig : Type 0 where
  pub engine : Text
  pub model_name : Text
  pub profile : Text
  pub gpu_indexes : List ℕ
  pub vram_required_mb : ℕ
  pub port : ℕ
  pub requires_hf_token : Bool
  pub topology : Option (Parallelism × Rendezvous)

-- `value or default`, for a number and a text that may be null
abbrev pub number_or : Option ℕ → ℕ → ℕ
number_or none default = default
number_or (some n) default = if n == 0 then default else n

abbrev pub optional_text : Option Text → Text
optional_text none = []
optional_text (some t) = t

-- The two messages of a rank: the address of the group is split at its last colon.
unfoldable pub rank_messages : ModelInstance → Text → Parallelism × Rendezvous
unfolding rpartition isdigit int_from text_eq
rank_messages i address =
    let (host, port) = rpartition b':' address in
    let world = number_or i.world_size 1 in
    (
      record {
        mode = or_text (optional_text i.parallel_mode) (codes "single");
        tensor_parallel = length i.gpu_indexes;
        pipeline_parallel =
            if text_eq (optional_text i.parallel_mode) (codes "pp") then world else 1;
        world_size = world;
      },
      record {
        master_address = host;
        master_port = if isdigit port then int_from 0 port else 0;
        node_rank = number_or i.node_rank 0;
        num_nodes = world;
        env = (codes "MASTER_ADDR=" ++ host) ∷ (codes "MASTER_PORT=" ++ port) ∷ [];
      },
    )

-- `_apply_parallelism`: nothing for an instance without a group or an address.
unfoldable pub apply_parallelism : ModelInstance → Option (Parallelism × Rendezvous)
unfolding rank_messages
apply_parallelism i = elim i.parallel_group_id [
  | none ↦ none
  | some group ↦ elim i.rendezvous [ none ↦ none | some address ↦ some (rank_messages i address) ]
]

unfoldable pub config_of : ModelInstance → EngineConfig
unfolding apply_parallelism
config_of i = record {
  engine = i.engine;
  model_name = i.model.name;
  profile = i.profile;
  gpu_indexes = i.gpu_indexes;
  vram_required_mb = i.model.vram_required_mb;
  port = number_or i.port 0;
  requires_hf_token = i.model.requires_hf_token;
  topology = apply_parallelism i;
}
