-- ===== src/Engine/Manager.antt =====
-- The engine manager of a worker (worker/inferna_worker/engines/manager.py), with the Docker daemon as
-- a parameter: each call returns a value or the text of its exception, and the daemon's next state.
-- Ids of instances are numbers. A record of an instance holds what the dict of the program holds.
pub mod Effects
use inferna_next.Base.{
  Bool, List, Option, [], drop, false, filter, if◌then◌else◌, leb, length, ltb, none, not, some,
  true, ℕ, ◌&&◌, ◌++◌, ◌+◌, ◌==◌, ◌||◌, ◌∷◌,
}
use inferna_next.Base.Text.{Text, codes, text_eq}
use inferna_next.Base.Strings.{before, contains_char, is_empty}
use inferna_next.Base.Dict.{dict_get, dict_pop, dict_set}
use inferna_next.Base.Results.{Result, err, ok}
use inferna_next.Models.{InstanceState, error, running, starting, stopped}
use inferna_next.Workers.Config.{EngineConfig}
use inferna_next.Workers.Sync.{Command, delete, start, stop}
use inferna_next.Engine.{
  Environment, MultiNodeSpec, WorkerSettings, build_command, from_config, image_for, multi_node_env,
  set_env,
}

-- What `containers.create` is called with.
pub record ContainerSpec : Type 0 where
  pub image : Text
  pub instance_id : ℕ
  pub generation : ℕ
  pub port : ℕ
  pub gpu_indexes : List ℕ
  pub host_network : Bool
  pub published : Option ℕ
  pub environment : Environment
  pub models_dir : Text
  pub command : List Text

pub data PullError : Type 0 where
  timed_out : PullError
  raised : Text → PullError

-- `remove` and `stop_container` stand for a lookup by name and the call on the container.
pub record Docker (St : Type 0) : Type 0 where
  pub remove : ℕ → St → Result Text (Unit {0}) × St
  pub stop_container : ℕ → St → Result Text (Unit {0}) × St
  pub pull : Text → St → Result PullError (Unit {0}) × St
  pub create : ContainerSpec → St → Result Text (Unit {0}) × St
  pub start_container : ℕ → St → Result Text (Unit {0}) × St
  pub managed : St → List ℕ
  pub log_tail : ℕ → St → Text

pub record Info : Type 0 where
  pub state : InstanceState
  pub port : ℕ
  pub detail : Text
  pub started_at : ℕ
  pub generation : ℕ
  pub node_rank : Option ℕ
  pub log_tail : Text

-- `probes` are the instances with a probe task; `batch` says whether one runs.
pub record Manager (St : Type 0) : Type 0 where
  pub instances : List (ℕ × Info)
  pub pulled_images : List Text
  pub probes : List ℕ
  pub pending_probes : List (ℕ × ℕ)
  pub batch : Bool
  pub pending : List (ℕ × Command)
  pub docker : St

-- A fresh record of an instance.
abbrev pub info_of : InstanceState → ℕ → Text → ℕ → ℕ → Option ℕ → Info
info_of state port detail now generation rank = record {
  state = state;
  port = port;
  detail = detail;
  started_at = now;
  generation = generation;
  node_rank = rank;
  log_tail = [];
}

-- `docker unavailable: {exc}` of the ValueError of an unknown engine
abbrev pub unknown_engine : Text → Text
unknown_engine name = codes "docker unavailable: unknown engine: " ++ name

abbrev pub is_active : InstanceState → Bool
is_active starting = true
is_active running = true
is_active _ = false

abbrev pub is_ended : InstanceState → Bool
is_ended stopped = true
is_ended error = true
is_ended _ = false

unfoldable pub image_pulled : Text → List Text → Bool
unfolding text_eq
image_pulled image [] = false
image_pulled image (x ∷ xs) = text_eq image x || image_pulled image xs

-- `key, _, value = entry.partition("=")`, for the entries with a key
unfoldable pub add_env : List Text → Environment → Environment
unfolding before contains_char set_env
add_env [] env = env
add_env (e ∷ es) env =
    let key = before b'=' e in
    add_env es (if is_empty key then env else set_env key (drop (length key + 1) e) env)

unfoldable pub environment_of : WorkerSettings → EngineConfig → Option MultiNodeSpec → Environment
unfolding add_env multi_node_env
environment_of settings c spec =
    let token =
      if is_empty settings.hf_token then [] else (codes "HF_HUB_TOKEN", settings.hf_token) ∷ [] in
    elim spec [
      | none ↦ token
      | some s ↦
          add_env (elim c.topology [ none ↦ [] | some (p, r) ↦ r.env ])
            (token ++ multi_node_env settings.worker_hostname settings.netif)
    ]

module _ {St : Type 0} (docker : Docker St) (settings : WorkerSettings) (now : ℕ) where
  abbrev pub put_info : ℕ → Info → Manager St → Manager St
  put_info id i m = record m { instances = dict_set id i m.instances }

  -- `if image not in self._pulled_images: ...`
  unfoldable pub pull_image : Text → Manager St → Result PullError (Unit {0}) × Manager St
  unfolding image_pulled
  pull_image image m =
      if image_pulled image m.pulled_images
      then (ok tt, m)
      else let r = docker.pull image m.docker in
        (
          r.0,
          elim r.0 [
            | err e ↦ record m { docker = r.1 }
            | ok u ↦ record m { docker = r.1; pulled_images = image ∷ m.pulled_images }
          ],
        )

  abbrev pub container_spec :
      ℕ → ℕ → EngineConfig → Option MultiNodeSpec → Text → List Text → ContainerSpec
  container_spec id generation c spec image command = record {
    image = image;
    instance_id = id;
    generation = generation;
    port = c.port;
    gpu_indexes = c.gpu_indexes;
    host_network = elim spec [ none ↦ false | some s ↦ true ];
    published = elim spec [ none ↦ some c.port | some s ↦ none ];
    environment = environment_of settings c spec;
    models_dir = settings.models_dir;
    command = command;
  }

  -- The container is created and started; the result is the text of the first exception.
  unfoldable pub run_container : ContainerSpec → Manager St → Result Text (Unit {0}) × Manager St
  run_container spec m =
      let r = docker.create spec m.docker in
      elim r.0 [
        | err e ↦ (err e, record m { docker = r.1 })
        | ok u ↦
            let s = docker.start_container spec.instance_id r.1 in (s.0, record m { docker = s.1 })
      ]

  -- The record of a start that failed.
  abbrev pub failed_start : ℕ → ℕ → EngineConfig → Text → Manager St → Manager St
  failed_start id generation c detail m =
      put_info id (info_of error c.port detail now generation none) m

  -- The end of the `try` block, once the image is there.
  unfoldable pub launch : ℕ → ℕ → EngineConfig → Text → Manager St → Manager St
  unfolding run_container from_config build_command environment_of
  launch id generation c image m =
      let spec = from_config c in
      elim (build_command c spec c.port) [
        | none ↦ failed_start id generation c (unknown_engine c.engine) m
        | some command ↦
            let r = run_container (container_spec id generation c spec image command) m in
            elim r.0 [
              | err e ↦ failed_start id generation c (codes "docker unavailable: " ++ e) r.1
              | ok u ↦
                  let rank : Option ℕ = elim spec [ none ↦ none | some s ↦ some s.node_rank ] in
                  let started = put_info id (info_of starting c.port [] now generation rank) r.1 in
                  record started { pending_probes = started.pending_probes ++ (id, c.port) ∷ [] }
            ]
      ]

  -- The `try` block of `_start_sync`.
  unfoldable pub create_and_start : ℕ → ℕ → EngineConfig → Manager St → Manager St
  unfolding image_for pull_image launch
  create_and_start id generation c m' =
      let m = record m' { probes = filter (λ k. not (k == id)) m'.probes } in
      elim (image_for c.engine settings) [
        | none ↦ failed_start id generation c (unknown_engine c.engine) m
        | some image ↦
            let r = pull_image image m in
            elim r.0 [
              | err timed_out ↦ failed_start id generation c (codes "image pull timed out") r.1
              | err (raised e) ↦
                  failed_start id generation c (codes "docker unavailable: " ++ e) r.1
              | ok u ↦ launch id generation c image r.1
            ]
      ]

  -- `tracked is not None and ...`: the instance is already there.
  unfoldable pub is_applied : ℕ → Option Info → Bool
  is_applied generation none = false
  is_applied generation (some t) = is_active t.state && leb generation t.generation

  unfoldable pub is_replaced : ℕ → Option Info → Bool
  is_replaced generation none = false
  is_replaced generation (some t) = ltb t.generation generation || is_ended t.state

  -- `_start_sync`
  unfoldable pub start_sync : ℕ → ℕ → EngineConfig → Manager St → Manager St
  unfolding is_applied is_replaced create_and_start dict_get
  start_sync id generation c m =
      let tracked = dict_get id m.instances in
      let cleared =
        if is_replaced generation tracked
        then record m { docker = (docker.remove id m.docker).1 }
        else m in
      if is_applied generation tracked
      then m
      else if c.requires_hf_token && is_empty settings.hf_token
      then failed_start id generation c (codes "model requires HF token") cleared
      else create_and_start id generation c cleared

  -- `_stop_sync`
  unfoldable pub stop_sync : ℕ → Manager St → Manager St
  unfolding dict_get dict_set
  stop_sync id m' =
      let m = record m' {
        probes = filter (λ k. not (k == id)) m'.probes;
        docker = (docker.stop_container id m'.docker).1;
      } in
      elim (dict_get id m.instances) [
        | none ↦ m
        | some t ↦ put_info id (record t { state = InstanceState.stopped; detail = [] }) m
      ]

  -- `_delete_sync`
  unfoldable pub delete_sync : ℕ → Manager St → Manager St
  unfolding dict_pop
  delete_sync id m = record m {
    probes = filter (λ k. not (k == id)) m.probes;
    docker = (docker.remove id m.docker).1;
    instances = dict_pop id m.instances;
  }

  -- `_apply_docker_command`: the exceptions of the daemon are all caught further in.
  unfoldable pub apply_command : Command → Manager St → Manager St
  unfolding start_sync stop_sync delete_sync
  apply_command (start id generation c) m = start_sync id generation c m
  apply_command (stop id) m = stop_sync id m
  apply_command (delete (some id)) m = delete_sync id m
  apply_command (delete none) m = m
