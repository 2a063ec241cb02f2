-- ===== src/Scheduler.antt =====
-- The scheduler (server/inferna_server/services/scheduler.py): what every allocation reads from
-- the database, the GPU usage of a worker, and the port allocation. The row locks taken by
-- `_connected_workers` make an allocation see one database, its argument `db`.
pub mod Usage
pub mod Ports
pub mod BestFit
pub mod Auto
pub mod Manual
pub mod Replicas
pub mod Parallel
use inferna_next.Base.{
  Bool, List, Option, [], filter, if◌then◌else◌, none, some, suc, zero, ℕ, ◌&&◌, ◌++◌, ◌+◌, ◌-◌,
  ◌==◌, ◌||◌, ◌∷◌,
}
use inferna_next.Base.Text.{Text, codes, text_eq, text_leb}
use inferna_next.Base.Member.{elem}
use inferna_next.Base.Sorting.{sort_by}
use inferna_next.Base.Results.{Result, or_raise}
use inferna_next.Models.{
  Db, ModelInstance, Settings, Worker, is_connected, is_id, is_live, port_reserved,
}

-- The reasons of the HTTP 400 answers.
pub data AllocError : Type 0 where
  no_connected_workers no_gpu_fits no_free_port worker_not_connected wrong_cluster : AllocError
  no_gpu_index unsupported_gpu gpu_too_small : ℕ → AllocError
  replica_unplaced : ℕ → ℕ → AllocError
  no_free_hosts no_routable_head not_enough_hosts no_rendezvous_port : AllocError

-- `ENGINE_VENDORS` (services/compatibility.py): both engines take the same vendors, and an engine
-- that is not listed takes none.
unfoldable pub engine_supports : Text → Text → Bool
engine_supports engine vendor =
    (text_eq engine (codes "vllm") || text_eq engine (codes "sglang"))
    && (text_eq vendor (codes "nvidia") || text_eq vendor (codes "mock"))

-- `_live_instances`
unfoldable pub live_instances : Db → ℕ → List ModelInstance
live_instances db worker_id =
    filter (λ i. is_id i.worker_id worker_id && is_live i.state) db.instances

-- `_port_instances`
unfoldable pub port_instances : Db → ℕ → List ModelInstance
port_instances db worker_id =
    filter (λ i. is_id i.worker_id worker_id && port_reserved i) db.instances

-- A dict from GPU indexes to MB, as an association list in insertion order.
abbrev pub Usage : Type 0
Usage = List (ℕ × ℕ)

-- `usage.get(index, 0)`
unfoldable pub usage_get : Usage → ℕ → ℕ
usage_get [] k = 0
usage_get ((j, v) ∷ u) k = if j == k then v else usage_get u k

-- `usage[index] = usage.get(index, 0) + mb`
unfoldable pub usage_add : Usage → ℕ → ℕ → Usage
usage_add [] k mb = (k, mb) ∷ []
usage_add ((j, v) ∷ u) k mb = if j == k then (j, v + mb) ∷ u else (j, v) ∷ usage_add u k mb

unfoldable pub usage_add_all : Usage → List ℕ → ℕ → Usage
unfolding usage_add
usage_add_all u [] mb = u
usage_add_all u (i ∷ is) mb = usage_add_all (usage_add u i mb) is mb

unfoldable pub gpu_usage_from : Usage → List ModelInstance → Usage
unfolding usage_add_all
gpu_usage_from u [] = u
gpu_usage_from u (i ∷ is) =
    gpu_usage_from (usage_add_all u i.gpu_indexes i.model.vram_required_mb) is

-- `_gpu_usage`
unfoldable pub gpu_usage : List ModelInstance → Usage
unfolding gpu_usage_from
gpu_usage is = gpu_usage_from [] is

-- `{i.port for i in instances if i.port}`: a null or zero port is no port.
unfoldable pub ports_of : List ModelInstance → List ℕ
ports_of [] = []
ports_of (i ∷ is) = elim i.port [
  | none ↦ ports_of is
  | some p ↦ if p == 0 then ports_of is else p ∷ ports_of is
]

-- The first of the `count` ports from `start` on that is not used.
unfoldable pub first_free : List ℕ → ℕ → ℕ → Option ℕ
first_free used zero start = none
first_free used (suc count) start =
    let rest = first_free used count (start + 1) in if elem start used then rest else some start

-- `_alloc_port`
unfoldable pub alloc_port : Settings → List ModelInstance → List ℕ → Result AllocError ℕ
unfolding ports_of first_free
alloc_port cfg is extra =
    or_raise
      (first_free (ports_of is ++ extra)
        (cfg.instance_port_range_end + 1 - cfg.instance_port_range_start)
        cfg.instance_port_range_start)
      no_free_port

-- `_connected_workers`: ordered by name.
unfoldable pub connected_workers : Db → ℕ → List Worker
unfolding sort_by
connected_workers db cluster_id =
    sort_by (λ v w. text_leb v.name w.name)
      (filter (λ w. w.cluster_id == cluster_id && is_connected w.state) db.workers)

-- The live usage that an allocation reads for one GPU of a worker.
abbrev pub held : Db → ℕ → ℕ → ℕ
held db worker_id index = usage_get (gpu_usage (live_instances db worker_id)) index

-- `(worker, gpu_indexes, port)`
pub record Allocation : Type 0 where
  pub worker : Worker
  pub gpu_indexes : List ℕ
  pub port : ℕ
