-- ===== src/Scheduler/Parallel.antt =====
-- `allocate_parallel_replicas`: one rank of a parallel group on each of several hosts, with the
-- ports of the group on the head only.
pub mod Hosts
pub mod Group
use inferna_next.Base.{
  Bool, List, Option, [], false, filter, if◌then◌else◌, length, ltb, none, not, some, take, true, ℕ,
  ◌&&◌, ◌++◌, ◌+◌, ◌-◌, ◌==◌, ◌∷◌,
}
use inferna_next.Base.Int.{leb_ℤ, ltb_ℤ, pos, ℤ}
use inferna_next.Base.Text.{Text, codes, text_leb}
use inferna_next.Base.Strings.{
  before, contains_char, drop_prefix, int_from, is_empty, isdigit, or_text, rpartition, strip,
}
use inferna_next.Base.Member.{elem}
use inferna_next.Base.Sorting.{sort_by}
use inferna_next.Base.Results.{Result, err, ok, or_raise, raise_if, ◌>>=◌, ◌>>◌}
use inferna_next.Models.{Db, Gpu, ModelInstance, Settings, Worker}
use inferna_next.Scheduler.{
  AllocError, alloc_port, connected_workers, engine_supports, first_free, no_connected_workers,
  no_free_hosts, no_rendezvous_port, no_routable_head, not_enough_hosts, port_instances, ports_of,
}
use inferna_next.Scheduler.BestFit.{Candidate}
use inferna_next.Scheduler.Auto.{free_now, require_workers}

pub record ParallelAllocation : Type 0 where
  pub worker : Worker
  pub gpu_indexes : List ℕ
  pub node_rank : ℕ
  pub instance_port : Option ℕ
  pub rendezvous_port : Option ℕ

abbrev pub no_prefix : Text → Text → Text
no_prefix prefix raw = elim (drop_prefix prefix raw) [ some rest ↦ rest | none ↦ raw ]

-- The last part of `rendezvous_host`: an IPv6 literal in brackets, `host:port`, or a bare host.
unfoldable pub bare_host : Text → Text
unfolding before rpartition isdigit contains_char
bare_host [] = []
bare_host (c ∷ raw) =
    if c == b'['
    then before b']' raw
    else let (host, port) = rpartition b':' (c ∷ raw) in
      if isdigit port && not (is_empty host) && not (contains_char b':' host) then host else c ∷ raw

-- `rendezvous_host`; a null address reads as the empty text.
unfoldable pub rendezvous_host : Option Text → Text → Text
unfolding strip drop_prefix before bare_host
rendezvous_host address fallback =
    let stripped : Text = elim address [ none ↦ [] | some a ↦ strip a ] in
    let raw = or_text stripped (strip fallback) in
    let raw' = no_prefix (codes "https://") (no_prefix (codes "http://") raw) in
    bare_host (before b'#' (before b'?' (before b'/' raw')))

-- The ports in the rendezvous addresses of the instances.
unfoldable pub rendezvous_ports_of : List ModelInstance → List ℕ
unfolding contains_char rpartition isdigit int_from
rendezvous_ports_of [] = []
rendezvous_ports_of (i ∷ is) = elim i.rendezvous [
  | none ↦ rendezvous_ports_of is
  | some r ↦
      let port = (rpartition b':' r).1 in
      if contains_char b':' r && isdigit port
      then int_from 0 port ∷ rendezvous_ports_of is
      else rendezvous_ports_of is
]

-- `_alloc_rendezvous_port`, which `allocate_parallel_replicas` calls with no extra ports
unfoldable pub alloc_rendezvous_port : Settings → List ModelInstance → Result AllocError ℕ
unfolding ports_of rendezvous_ports_of first_free
alloc_rendezvous_port cfg is =
    or_raise
      (first_free (ports_of is ++ rendezvous_ports_of is)
        (cfg.rendezvous_port_range_end + 1 - cfg.rendezvous_port_range_start)
        cfg.rendezvous_port_range_start)
      no_rendezvous_port

-- `free >= vram_required_mb and (best is None or free > best[0])`
unfoldable pub larger : ℕ → ℤ → Option Candidate → Bool
larger need f none = leb_ℤ (pos need) f
larger need f (some b) = leb_ℤ (pos need) f && ltb_ℤ b.free f

-- `_best_fitting_gpu`, from the best so far on.
unfoldable pub largest_gpu : Db → ℕ → Text → Worker → List Gpu → Option Candidate → Option Candidate
unfolding larger
largest_gpu db need engine w [] best = best
largest_gpu db need engine w (g ∷ gs) best = largest_gpu db need engine w gs (
    if engine_supports engine g.vendor && larger need (free_now db w g) best
    then some (record { free = free_now db w g; worker = w; gpu_index = g.index })
    else best)

-- The workers that can take a rank, each with its best GPU.
unfoldable pub fitting : Db → ℕ → Text → List Worker → List Candidate
unfolding largest_gpu
fitting db need engine [] = []
fitting db need engine (w ∷ ws) = elim (largest_gpu db need engine w w.gpus none) [
  | none ↦ fitting db need engine ws
  | some c ↦ c ∷ fitting db need engine ws
]

-- `if entry[1].address`
unfoldable pub has_address : Worker → Bool
has_address w = elim w.address [ none ↦ false | some a ↦ not (is_empty a) ]

-- `_order`: the most free VRAM first, then by name.
unfoldable pub ordered_before : Candidate → Candidate → Bool
ordered_before a b =
    if ltb_ℤ b.free a.free
    then true
    else if ltb_ℤ a.free b.free
    then false
    else text_leb a.worker.name b.worker.name

unfoldable pub ranks_from : ℕ → Option ℕ → Option ℕ → List Candidate → List ParallelAllocation
ranks_from rank instance_port rendezvous_port [] = []
ranks_from rank instance_port rendezvous_port (c ∷ cs) =
    record {
      worker = c.worker;
      gpu_indexes = c.gpu_index ∷ [];
      node_rank = rank;
      instance_port = if rank == 0 then instance_port else none;
      rendezvous_port = if rank == 0 then rendezvous_port else none;
    }
    ∷ ranks_from (rank + 1) instance_port rendezvous_port cs

-- The connected workers that are not excluded; an empty exclusion is none at all.
unfoldable pub candidate_workers : Db → ℕ → List ℕ → Result AllocError (List Worker)
unfolding require_workers
candidate_workers db cluster_id excluded = do
  workers ← require_workers (connected_workers db cluster_id) no_connected_workers
  elim excluded [
    | [] ↦ ok workers
    | x ∷ xs ↦ require_workers (filter (λ w. not (elem w.id (x ∷ xs))) workers) no_free_hosts
  ]

-- `sorted(heads, key=_order)[0]`, or the error that there is none
unfoldable pub head_of : List Candidate → Result AllocError Candidate
head_of [] = err no_routable_head
head_of (c ∷ cs) = ok c

unfoldable pub allocate_parallel_replicas :
    Settings → Db → ℕ → ℕ → Text → ℕ → List ℕ → Result AllocError (List ParallelAllocation)
unfolding candidate_workers fitting has_address ordered_before sort_by head_of ranks_from
    alloc_rendezvous_port
allocate_parallel_replicas cfg db cluster_id need engine nodes excluded = do
  workers ← candidate_workers db cluster_id excluded
  let fit = fitting db need engine workers
  head ← head_of (sort_by ordered_before (filter (λ c. has_address c.worker) fit))
  raise_if (ltb (length fit) nodes) not_enough_hosts
  let others = sort_by ordered_before (filter (λ c. not (c.worker.id == head.worker.id)) fit)
  let chosen = head ∷ take (nodes - 1) others
  instance_port ← alloc_port cfg (port_instances db head.worker.id) []
  rendezvous_port ← alloc_rendezvous_port cfg (port_instances db head.worker.id)
  ok (ranks_from 0 (some instance_port) (some rendezvous_port) chosen)
