-- ===== src/Scheduler/Replicas/Capacity.antt =====
-- What the allocations of one `allocate_replicas` call are worth together: no GPU is promised more
-- than it has, and no port twice.
use inferna_next.Base.{
  Bool-cases, List, [], ap, arith, false, if◌then◌else◌, inl, inr, length, length-append, refl,
  subst, suc, sym, true, zero, ℕ, ◌&&◌, ◌*◌, ◌++◌, ◌+◌, ◌-◌, ◌==◌, ◌∙◌, ◌∷◌, ◌≡◌, ◌≤◌,
}
use inferna_next.Base.Int.{pos, sub_ℕ, ◌≤ℤ◌}
use inferna_next.Base.Text.{Text}
use inferna_next.Base.Member.{Distinct, In, In-append_cases, elem, elem-append}
use inferna_next.Base.Results.{ok, ok-injective, or_raise-eq-ok, returned_by}
use inferna_next.Models.{Db, Gpu, Settings, Worker}
use inferna_next.Scheduler.{
  Allocation, alloc_port, connected_workers, engine_supports, held, port_instances, ports_of,
}
use inferna_next.Scheduler.Ports.{alloc_port-ok}
use inferna_next.Scheduler.BestFit.{Candidate, From, candidate}
use inferna_next.Scheduler.Auto.{require_workers-eq-ok, vendor_allowed}
use inferna_next.Scheduler.Replicas.{
  Progress, allocate_replicas, commit, free_after, place_replica, place_replicas, start,
}
use inferna_next.Scheduler.Replicas.Spread.{HasRoom, Spreads, choose-Spreads}

-- How many of the allocations hold GPU `i` of the worker with id `w`.
abbrev pub placed : ℕ → ℕ → List Allocation → ℕ
placed w i [] = 0
placed w i (a ∷ xs) = (if w == a.worker.id && elem i a.gpu_indexes then 1 else 0) + placed w i xs

abbrev pub ports : List Allocation → List ℕ
ports [] = []
ports (a ∷ xs) = a.port ∷ ports xs

placed-append :
    (w i : ℕ) (xs ys : List Allocation) → placed w i (xs ++ ys) ≡ placed w i xs + placed w i ys
placed-append w i [] ys = omega arith
placed-append w i (a ∷ xs) ys = omega (arith, placed-append w i xs ys)

ports-append : (xs ys : List Allocation) → ports (xs ++ ys) ≡ ports xs ++ ports ys
ports-append [] ys = refl
ports-append (a ∷ xs) ys = ap (◌∷◌ a.port) (ports-append xs ys)

Distinct-snoc : (xs : List ℕ) (p : ℕ) → Distinct xs → elem p xs ≡ false → Distinct (xs ++ p ∷ [])
Distinct-snoc [] p d e = (refl, tt)
Distinct-snoc (x ∷ xs) p d e =
    let split = elem-append x xs (p ∷ []) in
    (ground (arith, split, d.0), Distinct-snoc xs p d.1 (ground arith))

fits_sub : (need vram taken : ℕ) → pos need ≤ℤ sub_ℕ vram taken → taken + need ≤ vram
fits_sub need vram taken h = ground arith

module _ (cfg : Settings) (db : Db) (workers : List Worker) (need : ℕ) (engine : Text) where
  -- GPU `i` of the worker with id `wid` is there, supports the engine, and has room for its live
  -- instances and `extra` MB more.
  abbrev pub Holds : ℕ → ℕ → ℕ → Type 0
  Holds wid i extra =
      (w : Worker) × (g : Gpu) × In w workers
      × In g w.gpus
      × (w.id ≡ wid)
      × (g.index ≡ i)
      × (engine_supports engine g.vendor ≡ true)
      × (held db wid i + extra ≤ g.vram_mb)

  -- The port of an allocation is in the range, and no reserved instance of the worker has it.
  abbrev pub HasPort : Allocation → Type 0
  HasPort a =
      (cfg.instance_port_range_start ≤ a.port)
      × (a.port ≤ cfg.instance_port_range_end)
      × (elem a.port (ports_of (port_instances db a.worker.id)) ≡ false)

  record Inv (p : Progress) : Type 0 where
    counted : (w i : ℕ) → p.pending_vram w i ≡ placed w i p.allocations * need
    same_ports : p.call_ports ≡ ports p.allocations
    apart : Distinct p.call_ports
    roomy :
        (a : Allocation)
        → In a p.allocations
        → (i : ℕ) × (a.gpu_indexes ≡ i ∷ [])
          × In a.worker workers
          × Holds a.worker.id i (p.pending_vram a.worker.id i)
          × HasPort a

  start-Inv : (used : List (ℕ × ℕ)) → Inv (start used)
  unfolding start
  start-Inv used = record {
    counted = λ w i. omega arith;
    same_ports = refl;
    apart = tt;
    roomy = λ a m. absurd m;
  }

  module _ (p : Progress) (w : Worker) (g : Gpu) (port : ℕ) where
    abbrev chosen : Candidate
    chosen = candidate need (vendor_allowed engine) (free_after db p) w g

    abbrev added : Allocation
    added = record { worker = w; gpu_indexes = g.index ∷ []; port = port }

    abbrev after : Progress
    after = commit need chosen port p

    counted-commit :
        Inv p → (v i : ℕ) → after.pending_vram v i ≡ placed v i after.allocations * need
    unfolding commit
    counted-commit inv v i = elim (Bool-cases (v == w.id && i == g.index)) [
      | inl e ↦
          rw (e, placed-append v i p.allocations (added ∷ []), one_more e)
            (omega (arith, inv.counted v i))
      | inr e ↦
          rw (e, placed-append v i p.allocations (added ∷ []), no_more e)
            (omega (arith, inv.counted v i))
    ]
      where
        one_more : (v == w.id && i == g.index) ≡ true → placed v i (added ∷ []) ≡ 1
        one_more e = ground arith

        no_more : (v == w.id && i == g.index) ≡ false → placed v i (added ∷ []) ≡ 0
        no_more e = ground arith

    here : (v i : ℕ) → (v == w.id && i == g.index) ≡ true → (v ≡ w.id) × (i ≡ g.index)
    here v i e = ground arith

    module _ (m : In w workers) (n : In g w.gpus) (room : HasRoom db workers need engine p w g)
        (found : alloc_port cfg (port_instances db w.id) p.call_ports ≡ ok port) where
      Holds-chosen :
          (v i : ℕ) → (v == w.id && i == g.index) ≡ true → Holds v i (p.pending_vram v i + need)
      Holds-chosen v i e =
          let (ev, ei) = here v i e in
          (
            w,
            g,
            m,
            n,
            sym ev,
            sym ei,
            room.0,
            rw (ev, ei) (omega (arith, fits_sub need g.vram_mb _ room.1)),
          )

      Holds-commit : (v i : ℕ) → Holds v i (p.pending_vram v i) → Holds v i (after.pending_vram v i)
      unfolding commit
      Holds-commit v i old = elim (Bool-cases (v == w.id && i == g.index)) [
        | inl e ↦ rw e (Holds-chosen v i e)
        | inr e ↦ rw e old
      ]

      roomy-new :
          (i : ℕ) × (g.index ∷ [] ≡ i ∷ [])
          × In w workers
          × Holds w.id i (after.pending_vram w.id i)
          × HasPort added
      unfolding commit
      roomy-new =
          let same : (w.id == w.id && g.index == g.index) ≡ true = ground arith in
          let r = alloc_port-ok cfg (port_instances db w.id) p.call_ports port found in
          (g.index, refl, m, rw same (Holds-chosen w.id g.index same), (r.0, r.1, r.2))

      commit-Inv : Inv p → Inv after
      unfolding commit
      commit-Inv inv = record {
        counted = counted-commit inv;
        same_ports =
            ap (λ (xs : List ℕ). xs ++ port ∷ []) inv.same_ports
            ∙ sym (ports-append p.allocations _);
        apart =
            Distinct-snoc p.call_ports port inv.apart
              (alloc_port-ok cfg (port_instances db w.id) p.call_ports port found).3;
        roomy = λ a k. elim (In-append_cases a p.allocations _ k) [
          | inl old ↦
              let (i, e, inw, h, q) = inv.roomy a old in
              (i, e, inw, Holds-commit a.worker.id i h, q)
          | inr (inl e) ↦ rw e roomy-new
          | inr (inr impossible) ↦ absurd impossible
        ];
      }

  place_replica-Inv :
      (i count : ℕ) (p q : Progress)
      → place_replica cfg db workers need engine i count p ≡ ok q
      → Inv p
      → Inv q × (length q.allocations ≡ length p.allocations + 1)
  unfolding place_replica
  place_replica-Inv i count p q e inv =
      let (c, e1, e2) = returned_by _ _ e in
      let (port, e3, e4) = returned_by _ _ e2 in
      let spread =
        subst (Spreads db workers need engine p) (or_raise-eq-ok _ _ c e1)
          (choose-Spreads db workers need engine p) in
      go c port spread.0 e3 (ok-injective e4)
    where
      go :
          (c : Candidate) (port : ℕ)
          → From need (vendor_allowed engine) (free_after db p) workers c
          → alloc_port cfg (port_instances db c.worker.id) p.call_ports ≡ ok port
          → commit need c port p ≡ q
          → Inv q × (length q.allocations ≡ length p.allocations + 1)
      go c port (w, g, m, n, room, d) e3 e4 =
          let found =
            subst (λ x. alloc_port cfg (port_instances db x.worker.id) p.call_ports ≡ ok port) d
              e3 in
          let done : commit need (chosen p w g port) port p ≡ q = cc in
          (
            subst Inv done (commit-Inv p w g port m n room found inv),
            rw (← done) (length-append p.allocations _),
          )

  place_replicas-Inv :
      (count left : ℕ) (p q : Progress)
      → place_replicas cfg db workers need engine count left p ≡ ok q
      → Inv p
      → Inv q × (length q.allocations ≡ length p.allocations + left)
  unfolding place_replicas
  place_replicas-Inv count zero p q e inv =
      let same : p ≡ q = cc in (subst Inv same inv, rw (← same) (omega arith))
  place_replicas-Inv count (suc left) p q e inv =
      let (r, e1, e2) = returned_by _ _ e in
      let (inv', n) = place_replica-Inv (count - left) count p r e1 inv in
      let (inv'', k) = place_replicas-Inv count left r q e2 inv' in (inv'', omega (arith, n, k))

-- What a list of placed replicas is worth.
pub record ArePlaced (cfg : Settings) (db : Db) (cluster_id need : ℕ) (engine : Text) (count : ℕ)
    (xs : List Allocation) : Type 0 where
  -- one allocation for each replica
  pub complete : length xs ≡ count
  -- each on one GPU of a connected worker that supports the engine, where the live instances and
  -- all the replicas of the call on that GPU fit together, with a port that is free on the worker
  pub roomy :
      (a : Allocation)
      → In a xs
      → (i : ℕ) × (a.gpu_indexes ≡ i ∷ [])
        × In a.worker (connected_workers db cluster_id)
        × Holds cfg db
            (connected_workers db cluster_id)
            need
            engine
            a.worker.id
            i
            (placed a.worker.id i xs * need)
        × HasPort cfg db (connected_workers db cluster_id) need engine a
  -- no two with the same port
  pub ports_apart : Distinct (ports xs)

-- If `allocate_replicas` succeeds, it returns one allocation for each of the `count` replicas. Each
-- is on one GPU of a connected worker of the cluster whose vendor supports the engine; the VRAM
-- reserved there by live instances and the VRAM of all the call's replicas on that GPU together do
-- not exceed the GPU's VRAM. Each port is in the configured range and held by no port-reserving
-- instance of the worker, and no two allocations have the same port.
pub allocate_replicas-ArePlaced :
    (cfg : Settings) (db : Db) (cluster_id need : ℕ) (engine : Text) (count : ℕ)
    (used : List (ℕ × ℕ)) (xs : List Allocation)
    → allocate_replicas cfg db cluster_id need engine count used ≡ ok xs
    → ArePlaced cfg db cluster_id need engine count xs
unfolding allocate_replicas start
allocate_replicas-ArePlaced cfg db cluster_id need engine count used xs e =
    let (ws, e1, e2) = returned_by _ _ e in
    let (p, e3, e4) = returned_by _ _ e2 in
    go ws p (require_workers-eq-ok _ _ ws e1) e3 (ok-injective e4)
  where
    go :
        (ws : List Worker) (p : Progress)
        → connected_workers db cluster_id ≡ ws
        → place_replicas cfg db ws need engine count count (start used) ≡ ok p
        → p.allocations ≡ xs
        → ArePlaced cfg db cluster_id need engine count xs
    go ws p e1 e3 e4 =
        let located =
          subst (λ v. place_replicas cfg db v need engine count count (start used) ≡ ok p) (sym e1)
            e3 in
        let (inv, n) =
          place_replicas-Inv cfg db (connected_workers db cluster_id) need engine count count
            (start used) p located
            (start-Inv cfg db (connected_workers db cluster_id) need engine used) in
        subst (ArePlaced cfg db cluster_id need engine count) e4 (record {
          complete = omega (arith, n);
          roomy = λ a m.
              let (i, e, inw, h, q) = inv.roomy a m in
              (i, e, inw, rw (← inv.counted a.worker.id i) h, q);
          ports_apart = subst Distinct inv.same_ports inv.apart;
        })
