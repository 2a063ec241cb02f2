-- ===== src/Scheduler/Parallel/Group.antt =====
-- The ranks of a parallel group stand on distinct hosts, and only the head has ports.
use inferna_next.Base.{
  List, [], ap, arith, false, filter, inl, inr, length, length-take, ltb, none, not, refl, some,
  subst, suc, sym, take, true, zero, ℕ, ◌-◌, ◌==◌, ◌∙◌, ◌∷◌, ◌≡◌, ◌≤◌,
}
use inferna_next.Base.Text.{Text}
use inferna_next.Base.Member.{All, Distinct, In, In-of_filter, elem}
use inferna_next.Base.Sorting.{In-of_sort_by, length-sort_by, sort_by}
use inferna_next.Base.Keys.{
  Distinct-filter, Distinct-sort_by, Distinct-take, elem-filter_other, elem-sort_by,
  elem-take_of_none, keys, length-filter_key,
}
use inferna_next.Base.Results.{ok, ok-injective, raise_if, returned_by}
use inferna_next.Models.{Db, Settings, Worker}
use inferna_next.Scheduler.{
  alloc_port, connected_workers, no_free_hosts, not_enough_hosts, port_instances,
}
use inferna_next.Scheduler.BestFit.{Candidate}
use inferna_next.Scheduler.Auto.{require_workers, require_workers-eq-ok}
use inferna_next.Scheduler.Parallel.{
  ParallelAllocation, alloc_rendezvous_port, allocate_parallel_replicas, candidate_workers, fitting,
  has_address, head_of, ordered_before, ranks_from,
}
use inferna_next.Scheduler.Parallel.Hosts.{
  Distinct-fitting, HasGpu, In-of_ranks_from, fitting-In, followers, host_of, keys-ranks_from,
  length-ranks_from, ranks, ranks-ranks_from, upto,
}

abbrev pub rank_host : ParallelAllocation → ℕ
rank_host a = a.worker.id

abbrev pub worker_key : Worker → ℕ
worker_key w = w.id

-- What a rank of the group has: a connected host that is not excluded, and one GPU with room.
abbrev pub IsRank : Db → ℕ → ℕ → Text → List ℕ → ParallelAllocation → Type 0
IsRank db cluster_id need engine excluded a =
    (i : ℕ) × (a.gpu_indexes ≡ i ∷ [])
    × In a.worker (connected_workers db cluster_id)
    × (elem a.worker.id excluded ≡ false)
    × HasGpu db need engine a.worker i

-- The head has an address, an instance port and a rendezvous port.
abbrev pub IsHead : Settings → Db → ParallelAllocation → Type 0
IsHead cfg db a =
    (p : ℕ) × (r : ℕ) × (has_address a.worker ≡ true)
    × (a.instance_port ≡ some p)
    × (a.rendezvous_port ≡ some r)
    × (alloc_port cfg (port_instances db a.worker.id) [] ≡ ok p)
    × (alloc_rendezvous_port cfg (port_instances db a.worker.id) ≡ ok r)

abbrev pub IsFollower : ParallelAllocation → Type 0
IsFollower a = (a.instance_port ≡ none) × (a.rendezvous_port ≡ none)

-- The first is the head, and the others are followers.
abbrev pub OneHead : Settings → Db → List ParallelAllocation → Type 0
OneHead cfg db [] = ⊥
OneHead cfg db (a ∷ xs) = IsHead cfg db a × All IsFollower xs

pub record IsGroup (cfg : Settings) (db : Db) (cluster_id need : ℕ) (engine : Text) (nodes : ℕ)
    (excluded : List ℕ) (xs : List ParallelAllocation) : Type 0 where
  pub complete : length xs ≡ nodes
  pub ranked : ranks xs ≡ upto 0 nodes
  pub hosts_apart : Distinct (keys rank_host xs)
  pub one_head : OneHead cfg db xs
  pub placed : (a : ParallelAllocation) → In a xs → IsRank db cluster_id need engine excluded a

In-take : {A : Type 0} (n : ℕ) (a : A) (xs : List A) → In a (take n xs) → In a xs
In-take zero a xs m = absurd m
In-take (suc n) a [] m = absurd m
In-take (suc n) a (x ∷ xs) (inl e) = inl e
In-take (suc n) a (x ∷ xs) (inr m) = inr (In-take n a xs m)

connected_workers-Distinct :
    (db : Db) (cluster_id : ℕ)
    → Distinct (keys worker_key db.workers)
    → Distinct (keys worker_key (connected_workers db cluster_id))
unfolding connected_workers
connected_workers-Distinct db cluster_id d =
    Distinct-sort_by worker_key _ _ (Distinct-filter worker_key _ db.workers d)

candidate_workers-In :
    (db : Db) (cluster_id : ℕ) (excluded : List ℕ) (ws : List Worker)
    → candidate_workers db cluster_id excluded ≡ ok ws
    → Distinct (keys worker_key db.workers)
    → ((w : Worker)
        → In w ws
        → In w (connected_workers db cluster_id) × (elem w.id excluded ≡ false))
      × Distinct (keys worker_key ws)
unfolding candidate_workers
candidate_workers-In db cluster_id excluded ws e d =
    let (vs, e1, e2) = returned_by _ _ e in go excluded vs (require_workers-eq-ok _ _ vs e1) e2
  where
    Goal : List ℕ → Type 0
    Goal xs =
        ((w : Worker) → In w ws → In w (connected_workers db cluster_id) × (elem w.id xs ≡ false))
        × Distinct (keys worker_key ws)

    all_distinct :
        (vs : List Worker) → connected_workers db cluster_id ≡ vs → Distinct (keys worker_key vs)
    all_distinct vs e = rw (← e) (connected_workers-Distinct db cluster_id d)

    go :
        (xs : List ℕ) (vs : List Worker)
        → connected_workers db cluster_id ≡ vs
        → (elim xs [
          | [] ↦ ok vs
          | y ∷ ys ↦ require_workers (filter (λ w. not (elem w.id (y ∷ ys))) vs) no_free_hosts
        ])
          ≡ ok ws
        → Goal xs
    go [] vs e1 e2 =
        let same = ok-injective e2 in
        (λ w m. (rw e1 (rw same m), refl), rw (← same) (all_distinct vs e1))
    go (y ∷ ys) vs e1 e2 =
        let same = require_workers-eq-ok _ _ ws e2 in
        (
          λ w m.
              let (k, kept) =
                In-of_filter (λ v. not (elem v.id (y ∷ ys))) w vs (subst (In w) (sym same) m) in
              (rw e1 k, ground arith),
          rw (← same) (Distinct-filter worker_key _ vs (all_distinct vs e1)),
        )

module _ (cfg : Settings) (db : Db) (cluster_id need : ℕ) (engine : Text) (nodes : ℕ)
    (excluded : List ℕ) where
  abbrev fit_of : List Worker → List Candidate
  fit_of ws = fitting db need engine ws

  abbrev heads_of : List Worker → List Candidate
  heads_of ws = sort_by ordered_before (filter (λ c. has_address c.worker) (fit_of ws))

  abbrev others_of : List Worker → Candidate → List Candidate
  others_of ws head =
      sort_by ordered_before (filter (λ c. not (c.worker.id == head.worker.id)) (fit_of ws))

  abbrev chosen_of : List Worker → Candidate → List Candidate
  chosen_of ws head = head ∷ take (nodes - 1) (others_of ws head)

  module _ (ws : List Worker) (head : Candidate) (p r : ℕ)
      (usable : (w : Worker)
        → In w ws
        → In w (connected_workers db cluster_id) × (elem w.id excluded ≡ false))
      (distinct : Distinct (keys worker_key ws)) (is_head : In head (heads_of ws)) where
    abbrev group : List ParallelAllocation
    group = ranks_from 0 (some p) (some r) (chosen_of ws head)

    head-In : In head (fit_of ws) × (has_address head.worker ≡ true)
    head-In = In-of_filter _ head (fit_of ws) (In-of_sort_by ordered_before head _ is_head)

    chosen-In : (c : Candidate) → In c (chosen_of ws head) → In c (fit_of ws)
    chosen-In c (inl e) = rw e head-In.0
    chosen-In c (inr m) =
        (In-of_filter _ c (fit_of ws)
          (In-of_sort_by ordered_before c _ (In-take (nodes - 1) c _ m))).0

    chosen-Distinct : Distinct (keys host_of (chosen_of ws head))
    chosen-Distinct = (
      elem-take_of_none host_of (nodes - 1) head.worker.id (others_of ws head) (
          elem-sort_by host_of ordered_before head.worker.id _
          ∙ elem-filter_other host_of _ head.worker.id (fit_of ws) (λ x h. ground arith)),
      Distinct-take host_of (nodes - 1) (others_of ws head) (
          Distinct-sort_by host_of ordered_before _
            (Distinct-filter host_of _ (fit_of ws) (Distinct-fitting db need engine ws distinct))),
    )

    group-placed :
        (a : ParallelAllocation) → In a group → IsRank db cluster_id need engine excluded a
    group-placed a m =
        let (c, k, ew, ei) = In-of_ranks_from (some p) (some r) 0 (chosen_of ws head) a m in
        let (inw, gpu) = fitting-In db need engine ws c (chosen-In c k) in
        let (conn, kept) = usable c.worker inw in
        (c.gpu_index, ei, rw ew conn, rw ew kept, rw ew gpu)

    length-chosen : 1 ≤ nodes → nodes ≤ length (fit_of ws) → length (chosen_of ws head) ≡ nodes
    length-chosen some_nodes enough = omega (
      arith,
      length-take (nodes - 1) (others_of ws head),
      length-sort_by ordered_before (filter (λ c. not (c.worker.id == head.worker.id)) (fit_of ws)),
      length-filter_key host_of head.worker.id (fit_of ws)
          (Distinct-fitting db need engine ws distinct),
    )

    group-OneHead :
        alloc_port cfg (port_instances db head.worker.id) [] ≡ ok p
        → alloc_rendezvous_port cfg (port_instances db head.worker.id) ≡ ok r
        → OneHead cfg db group
    unfolding ranks_from
    group-OneHead e1 e2 = (
      (p, r, head-In.1, refl, refl, e1, e2),
      followers (some p) (some r) 1 (take (nodes - 1) (others_of ws head)) (omega arith),
    )

    group-IsGroup :
        1 ≤ nodes
        → nodes ≤ length (fit_of ws)
        → alloc_port cfg (port_instances db head.worker.id) [] ≡ ok p
        → alloc_rendezvous_port cfg (port_instances db head.worker.id) ≡ ok r
        → IsGroup cfg db cluster_id need engine nodes excluded group
    group-IsGroup some_nodes enough e1 e2 = record {
      complete =
          length-ranks_from (some p) (some r) 0 (chosen_of ws head)
          ∙ length-chosen some_nodes enough;
      ranked =
          ranks-ranks_from (some p) (some r) 0 (chosen_of ws head)
          ∙ ap (upto 0) (length-chosen some_nodes enough);
      hosts_apart =
          subst Distinct (sym (keys-ranks_from (some p) (some r) 0 (chosen_of ws head)))
            chosen-Distinct;
      one_head = group-OneHead e1 e2;
      placed = group-placed;
    }

  head_of-In : (cs : List Candidate) (h : Candidate) → head_of cs ≡ ok h → In h cs
  unfolding head_of
  head_of-In [] h e = cc
  head_of-In (c ∷ cs) h e = inl (sym (ok-injective e))

  enough_of : (n : ℕ) → raise_if (ltb n nodes) not_enough_hosts ≡ ok tt → nodes ≤ n
  enough_of n e = ground arith

  -- If `allocate_parallel_replicas` succeeds for at least one node, and worker ids are unique in
  -- the database, it returns `nodes` ranks, numbered from 0, on as many distinct hosts. Each host
  -- is a connected worker of the cluster that is not excluded, with one GPU of a supported vendor
  -- that has the required VRAM free. Rank 0 has an address, an instance port and a rendezvous port,
  -- those that the two port allocations give for its worker; no other rank has a port.
  pub allocate_parallel_replicas-IsGroup :
      (xs : List ParallelAllocation)
      → 1 ≤ nodes
      → Distinct (keys worker_key db.workers)
      → allocate_parallel_replicas cfg db cluster_id need engine nodes excluded ≡ ok xs
      → IsGroup cfg db cluster_id need engine nodes excluded xs
  unfolding allocate_parallel_replicas
  allocate_parallel_replicas-IsGroup xs some_nodes unique e =
      let (ws, e1, r1) = returned_by _ _ e in
      let (head, e2, r2) = returned_by _ _ r1 in
      let (u, e3, r3) = returned_by _ _ r2 in
      let (p, e4, r4) = returned_by _ _ r3 in
      let (r, e5, r5) = returned_by _ _ r4 in
      let (usable, distinct) = candidate_workers-In db cluster_id excluded ws e1 unique in
      subst (IsGroup cfg db cluster_id need engine nodes excluded) (ok-injective r5) (
        group-IsGroup ws head p r usable distinct (head_of-In _ head e2) some_nodes (enough_of _ e3)
          e4 e5)
