-- ===== src/Scheduler/Manual.antt =====
-- `allocate_manual`: the worker and the GPUs that the caller names, checked one by one.
pub mod Outcome
use inferna_next.Base.{List, Option, [], if◌then◌else◌, ltb, none, not, some, ℕ, ◌==◌, ◌∷◌}
use inferna_next.Base.Int.{ltb_ℤ, pos, sub_ℕ}
use inferna_next.Base.Text.{Text}
use inferna_next.Base.Results.{Result, ok, or_raise, raise_if, ◌>>=◌, ◌>>◌}
use inferna_next.Models.{Db, Gpu, Settings, Worker, is_connected}
use inferna_next.Scheduler.{
  AllocError, Allocation, alloc_port, engine_supports, gpu_too_small, held, no_gpu_index,
  port_instances, unsupported_gpu, worker_not_connected, wrong_cluster,
}

-- The row with the id; ids are primary keys.
unfoldable pub find_worker : List Worker → ℕ → Option Worker
find_worker [] k = none
find_worker (w ∷ ws) k = if w.id == k then some w else find_worker ws k

-- `{g.index: g for g in worker.gpus}`: a later GPU of the same index wins.
unfoldable pub gpu_at : List Gpu → ℕ → Option Gpu
gpu_at [] k = none
gpu_at (g ∷ gs) k = elim (gpu_at gs k) [
  | some h ↦ some h
  | none ↦ if g.index == k then some g else none
]

-- A loop over the indexes that raises at the first bad one.
unfoldable pub check_each :
    (ℕ → Result AllocError (Unit {0})) → List ℕ → Result AllocError (Unit {0})
check_each check [] = ok tt
check_each check (i ∷ is) = check i >>= λ _. check_each check is

-- `sorted(set(xs))`
unfoldable pub insert_once : ℕ → List ℕ → List ℕ
insert_once i [] = i ∷ []
insert_once i (j ∷ js) =
    if ltb i j then i ∷ j ∷ js else if i == j then j ∷ js else j ∷ insert_once i js

unfoldable pub sorted_set : List ℕ → List ℕ
unfolding insert_once
sorted_set [] = []
sorted_set (i ∷ is) = insert_once i (sorted_set is)

unfoldable pub check_index : Worker → ℕ → Result AllocError (Unit {0})
unfolding gpu_at
check_index w i = or_raise (gpu_at w.gpus i) (no_gpu_index i) >>= λ _. ok tt

unfoldable pub check_vendor : Worker → Text → ℕ → Result AllocError (Unit {0})
unfolding gpu_at
check_vendor w engine i = do
  g ← or_raise (gpu_at w.gpus i) (no_gpu_index i)
  raise_if (not (engine_supports engine g.vendor)) (unsupported_gpu i)

unfoldable pub check_room : Db → Worker → ℕ → ℕ → Result AllocError (Unit {0})
unfolding gpu_at
check_room db w need i = do
  g ← or_raise (gpu_at w.gpus i) (no_gpu_index i)
  raise_if (ltb_ℤ (sub_ℕ g.vram_mb (held db w.id i)) (pos need)) (gpu_too_small i)

unfoldable pub allocate_manual :
    Settings → Db → ℕ → ℕ → List ℕ → ℕ → Text → Result AllocError Allocation
unfolding find_worker check_index check_vendor check_room check_each sorted_set
allocate_manual cfg db cluster_id worker_id gpu_indexes need engine = do
  w ← or_raise (find_worker db.workers worker_id) worker_not_connected
  raise_if (not (is_connected w.state)) worker_not_connected
  raise_if (not (w.cluster_id == cluster_id)) wrong_cluster
  check_each (check_index w) gpu_indexes
  check_each (check_vendor w engine) gpu_indexes
  check_each (check_room db w need) gpu_indexes
  port ← alloc_port cfg (port_instances db w.id) []
  ok (record { worker = w; gpu_indexes = sorted_set gpu_indexes; port = port })
