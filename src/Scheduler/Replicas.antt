-- ===== src/Scheduler/Replicas.antt =====
-- `allocate_replicas`: one GPU and one port for each replica, spread over workers first, then over
-- GPUs. The snapshots that the source takes before its loop are the calls of `held` on the same
-- `db`: the loop writes nothing to the database.
pub mod Spread
pub mod Capacity
use inferna_next.Base.{
  Bool, List, Option, [], false, if◌then◌else◌, none, not, some, suc, zero, ℕ, ◌&&◌, ◌++◌, ◌+◌, ◌-◌,
  ◌==◌, ◌||◌, ◌∷◌,
}
use inferna_next.Base.Int.{sub_ℕ, ℤ}
use inferna_next.Base.Text.{Text}
use inferna_next.Base.Member.{elem}
use inferna_next.Base.Results.{Result, ok, or_raise, ◌>>=◌}
use inferna_next.Models.{Db, Gpu, Settings, Worker}
use inferna_next.Scheduler.{
  AllocError, Allocation, alloc_port, connected_workers, engine_supports, held,
  no_connected_workers, port_instances, replica_unplaced,
}
use inferna_next.Scheduler.BestFit.{Candidate, best_fit}
use inferna_next.Scheduler.Auto.{require_workers, vendor_allowed}

-- `(worker_id, index) in used`
abbrev pub pair_elem : ℕ → ℕ → List (ℕ × ℕ) → Bool
pair_elem w i [] = false
pair_elem w i ((v, j) ∷ ps) = (w == v && i == j) || pair_elem w i ps

-- The variables that the loop of `allocate_replicas` changes.
pub record Progress : Type 0 where
  pub used : List (ℕ × ℕ)
  pub used_workers : List ℕ
  pub pending_vram : ℕ → ℕ → ℕ
  pub call_ports : List ℕ
  pub allocations : List Allocation

-- `{worker_id for worker_id, _ in used}`
unfoldable pub workers_of : List (ℕ × ℕ) → List ℕ
workers_of [] = []
workers_of ((w, i) ∷ ps) = w ∷ workers_of ps

unfoldable pub start : List (ℕ × ℕ) → Progress
unfolding workers_of
start used = record {
  used = used;
  used_workers = workers_of used;
  pending_vram = λ w i. 0;
  call_ports = [];
  allocations = [];
}

-- Free VRAM, less what this call has committed so far.
abbrev pub free_after : Db → Progress → Worker → Gpu → ℤ
free_after db p w g = sub_ℕ g.vram_mb (held db w.id g.index + p.pending_vram w.id g.index)

abbrev pub fresh_worker : Text → Progress → Worker → Gpu → Bool
fresh_worker engine p w g = engine_supports engine g.vendor && not (elem w.id p.used_workers)

abbrev pub fresh_gpu : Text → Progress → Worker → Gpu → Bool
fresh_gpu engine p w g = engine_supports engine g.vendor && not (pair_elem w.id g.index p.used)

-- `if best is None: best = ...`
abbrev pub or_try {ℓ} : {A : Type ℓ} → Option A → Option A → Option A
or_try none r = r
or_try (some a) r = some a

-- Passes 1a, 1b and 2.
unfoldable pub choose : Db → List Worker → ℕ → Text → Progress → Option Candidate
choose db workers need engine p =
    or_try (best_fit need (fresh_worker engine p) (free_after db p) workers) (
      or_try (best_fit need (fresh_gpu engine p) (free_after db p) workers)
        (best_fit need (vendor_allowed engine) (free_after db p) workers))

unfoldable pub commit : ℕ → Candidate → ℕ → Progress → Progress
commit need c port p = record {
  used = (c.worker.id, c.gpu_index) ∷ p.used;
  used_workers = c.worker.id ∷ p.used_workers;
  pending_vram = λ w i.
      if w == c.worker.id && i == c.gpu_index
      then p.pending_vram w i + need
      else p.pending_vram w i;
  call_ports = p.call_ports ++ port ∷ [];
  allocations =
      p.allocations
      ++ record { worker = c.worker; gpu_indexes = c.gpu_index ∷ []; port = port } ∷ [];
}

-- One round of the loop, for replica `i` of `count`.
unfoldable pub place_replica :
    Settings → Db → List Worker → ℕ → Text → ℕ → ℕ → Progress → Result AllocError Progress
unfolding choose commit
place_replica cfg db workers need engine i count p = do
  c ← or_raise (choose db workers need engine p) (replica_unplaced i count)
  port ← alloc_port cfg (port_instances db c.worker.id) p.call_ports
  ok (commit need c port p)

-- The rounds that are left of `for i in range(1, count + 1)`.
unfoldable pub place_replicas :
    Settings → Db → List Worker → ℕ → Text → ℕ → ℕ → Progress → Result AllocError Progress
unfolding place_replica
place_replicas cfg db workers need engine count zero p = ok p
place_replicas cfg db workers need engine count (suc left) p = do
  q ← place_replica cfg db workers need engine (count - left) count p
  place_replicas cfg db workers need engine count left q

unfoldable pub allocate_replicas :
    Settings → Db → ℕ → ℕ → Text → ℕ → List (ℕ × ℕ) → Result AllocError (List Allocation)
unfolding place_replicas require_workers start
allocate_replicas cfg db cluster_id need engine count used = do
  workers ← require_workers (connected_workers db cluster_id) no_connected_workers
  p ← place_replicas cfg db workers need engine count count (start used)
  ok p.allocations
