-- ===== src/Scheduler/Manual/Outcome.antt =====
-- When `allocate_manual` succeeds, and with what.
use inferna_next.Base.{
  ==_iff, Bool, List, Option-cases, [], arith, false, inl, inr, none, not, refl, some, subst, true,
  ℕ, ◌+◌, ◌<◌, ◌==◌, ◌||◌, ◌↔◌, ◌∷◌, ◌≡◌, ◌≤◌,
}
use inferna_next.Base.Text.{Text}
use inferna_next.Base.Member.{All, elem}
use inferna_next.Base.Results.{Result, ok, ok-injective, or_raise-eq-ok, raise_if, returned_by}
use inferna_next.Models.{Db, Gpu, Settings, Worker, is_connected}
use inferna_next.Scheduler.{
  AllocError, Allocation, alloc_port, engine_supports, held, port_instances,
}
use inferna_next.Scheduler.Manual.{
  allocate_manual, check_each, check_index, check_room, check_vendor, find_worker, gpu_at,
  insert_once, sorted_set,
}

-- Ascending, with no number twice.
abbrev pub Ascending : List ℕ → Type 0
Ascending [] = Unit
Ascending (i ∷ is) = All (λ j. i < j) is × Ascending is

All-insert_once :
    (k i : ℕ) (xs : List ℕ) → k < i → All (λ j. k < j) xs → All (λ j. k < j) (insert_once i xs)
unfolding insert_once
All-insert_once k i [] h a = (h, tt)
All-insert_once k i (x ∷ xs) h a = ground (arith, All-insert_once k i xs h a.1)

All-lt_trans : (k i : ℕ) (xs : List ℕ) → k < i → All (λ j. i < j) xs → All (λ j. k < j) xs
All-lt_trans k i [] h a = tt
All-lt_trans k i (x ∷ xs) h a = (omega arith, All-lt_trans k i xs h a.1)

insert_once-Ascending : (i : ℕ) (xs : List ℕ) → Ascending xs → Ascending (insert_once i xs)
unfolding insert_once
insert_once-Ascending i [] a = (tt, tt)
insert_once-Ascending i (x ∷ xs) a =
    ground (arith, insert_once-Ascending i xs a.1, All-lt_trans i x xs, All-insert_once x i xs)

elem-insert_once : (k i : ℕ) (xs : List ℕ) → elem k (insert_once i xs) ≡ (k == i || elem k xs)
unfolding insert_once
elem-insert_once k i [] = refl
elem-insert_once k i (x ∷ xs) = ground (arith, elem-insert_once k i xs)

sorted_set-Ascending : (xs : List ℕ) → Ascending (sorted_set xs)
unfolding sorted_set
sorted_set-Ascending [] = tt
sorted_set-Ascending (x ∷ xs) = insert_once-Ascending x (sorted_set xs) (sorted_set-Ascending xs)

elem-sorted_set : (k : ℕ) (xs : List ℕ) → elem k (sorted_set xs) ≡ elem k xs
unfolding sorted_set
elem-sorted_set k [] = refl
elem-sorted_set k (x ∷ xs) =
    ground (arith, elem-insert_once k x (sorted_set xs), elem-sorted_set k xs)

check_each-All :
    (check : ℕ → Result AllocError (Unit {0})) (xs : List ℕ)
    → check_each check xs ≡ ok tt
    → All (λ i. check i ≡ ok tt) xs
unfolding check_each
check_each-All check [] e = tt
check_each-All check (i ∷ xs) e =
    let (u, e1, e2) = returned_by (check i) _ e in (e1, check_each-All check xs e2)

check_each_of_All :
    (check : ℕ → Result AllocError (Unit {0})) (xs : List ℕ)
    → All (λ i. check i ≡ ok tt) xs
    → check_each check xs ≡ ok tt
unfolding check_each
check_each_of_All check [] a = refl
check_each_of_All check (i ∷ xs) a = rw a.0 (check_each_of_All check xs a.1)

module _ (cfg : Settings) (db : Db) (cluster_id worker_id : ℕ) (gpu_indexes : List ℕ) (need : ℕ)
    (engine : Text) where
  -- GPU `i` of the worker is there, supports the engine and has the VRAM free.
  abbrev pub GpuFits : Worker → ℕ → Type 0
  GpuFits w i =
      (g : Gpu) × (gpu_at w.gpus i ≡ some g)
      × (engine_supports engine g.vendor ≡ true)
      × (held db w.id i + need ≤ g.vram_mb)

  abbrev Passes : Worker → ℕ → Type 0
  Passes w i =
      (check_index w i ≡ ok tt)
      × (check_vendor w engine i ≡ ok tt)
      × (check_room db w need i ≡ ok tt)

  Passes-GpuFits : (w : Worker) (i : ℕ) → Passes w i → GpuFits w i
  unfolding check_index check_vendor check_room
  Passes-GpuFits w i (a, b, c) = elim (Option-cases (gpu_at w.gpus i)) [
    | inl e ↦ absurd (missing e)
    | inr (g, e) ↦ (g, e, vendor g e, room g e)
  ]
    where
      missing : gpu_at w.gpus i ≡ none → ⊥
      missing e = ground arith

      vendor : (g : Gpu) → gpu_at w.gpus i ≡ some g → engine_supports engine g.vendor ≡ true
      vendor g e = ground arith

      room : (g : Gpu) → gpu_at w.gpus i ≡ some g → held db w.id i + need ≤ g.vram_mb
      room g e = ground arith

  GpuFits-Passes : (w : Worker) (i : ℕ) → GpuFits w i → Passes w i
  unfolding check_index check_vendor check_room
  GpuFits-Passes w i (g, e, v, r) = (rw e, rw (e, v), rw e (ground arith))

  -- The call's conditions, and its result.
  pub record IsManual (a : Allocation) : Type 0 where
    pub found : find_worker db.workers worker_id ≡ some a.worker
    pub worker_connected : is_connected a.worker.state ≡ true
    pub in_cluster : a.worker.cluster_id ≡ cluster_id
    pub fit : All (GpuFits a.worker) gpu_indexes
    pub port_free : alloc_port cfg (port_instances db a.worker.id) [] ≡ ok a.port
    pub listed : a.gpu_indexes ≡ sorted_set gpu_indexes

  raise_if-eq-ok : (b : Bool) (e : AllocError) → raise_if b e ≡ ok tt → b ≡ false
  raise_if-eq-ok true e h = cc
  raise_if-eq-ok false e h = refl

  not-false : (b : Bool) → not b ≡ false → b ≡ true
  not-false true h = refl
  not-false false h = cc

  zip_All :
      (w : Worker) (xs : List ℕ)
      → All (λ i. check_index w i ≡ ok tt) xs
      → All (λ i. check_vendor w engine i ≡ ok tt) xs
      → All (λ i. check_room db w need i ≡ ok tt) xs
      → All (GpuFits w) xs
  zip_All w [] a b c = tt
  zip_All w (i ∷ xs) a b c = (Passes-GpuFits w i (a.0, b.0, c.0), zip_All w xs a.1 b.1 c.1)

  map_All {ℓ κ} :
      (P : ℕ → Type ℓ) (Q : ℕ → Type κ) (f : (i : ℕ) → P i → Q i) (xs : List ℕ)
      → All P xs
      → All Q xs
  map_All P Q f [] a = tt
  map_All P Q f (i ∷ xs) a = (f i a.0, map_All P Q f xs a.1)

  ok-IsManual :
      (a : Allocation)
      → allocate_manual cfg db cluster_id worker_id gpu_indexes need engine ≡ ok a
      → IsManual a
  unfolding allocate_manual
  ok-IsManual a e =
      let (w, e1, r1) = returned_by _ _ e in
      let (u2, e2, r2) = returned_by _ _ r1 in
      let (u3, e3, r3) = returned_by _ _ r2 in
      let (u4, e4, r4) = returned_by _ _ r3 in
      let (u5, e5, r5) = returned_by _ _ r4 in
      let (u6, e6, r6) = returned_by _ _ r5 in
      let (port, e7, r7) = returned_by _ _ r6 in
      let up = raise_if-eq-ok _ _ e2 in
      let here = raise_if-eq-ok _ _ e3 in
      subst IsManual (ok-injective r7) (record {
        found = or_raise-eq-ok _ _ w e1;
        worker_connected = not-false _ up;
        in_cluster = (==_iff _ _).0 (not-false _ here);
        fit =
            zip_All w gpu_indexes (check_each-All _ _ e4) (check_each-All _ _ e5)
              (check_each-All _ _ e6);
        port_free = e7;
        listed = refl;
      })

  IsManual-ok :
      (a : Allocation)
      → IsManual a
      → allocate_manual cfg db cluster_id worker_id gpu_indexes need engine ≡ ok a
  unfolding allocate_manual
  IsManual-ok a m =
      let same : (a.worker.cluster_id == cluster_id) ≡ true = (==_iff _ _).1 m.in_cluster in
      rw (
        m.found,
        m.worker_connected,
        same,
        check_each_of_All (check_index a.worker) gpu_indexes
            (map_All _ _ (λ i h. (GpuFits-Passes a.worker i h).0) gpu_indexes m.fit),
        check_each_of_All (check_vendor a.worker engine) gpu_indexes
            (map_All _ _ (λ i h. (GpuFits-Passes a.worker i h).1) gpu_indexes m.fit),
        check_each_of_All (check_room db a.worker need) gpu_indexes
            (map_All _ _ (λ i h. (GpuFits-Passes a.worker i h).2) gpu_indexes m.fit),
        m.port_free,
        ← m.listed,
      )

  -- `allocate_manual` succeeds with an allocation exactly when the named worker exists, is
  -- connected and is of the cluster, each named GPU exists, is of a supported vendor and has the
  -- required VRAM free, and `_alloc_port` gives the allocation's port; the allocation's GPU list is
  -- then the named indexes, ascending and each once.
  pub allocate_manual_iff :
      (a : Allocation)
      → ((allocate_manual cfg db cluster_id worker_id gpu_indexes need engine ≡ ok a) ↔ IsManual a)
        × (IsManual a → Ascending a.gpu_indexes)
        × (IsManual a → (k : ℕ) → elem k a.gpu_indexes ≡ elem k gpu_indexes)
  allocate_manual_iff a = (
    (ok-IsManual a, IsManual-ok a),
    λ m. rw m.listed (sorted_set-Ascending gpu_indexes),
    λ m k. rw m.listed (elem-sorted_set k gpu_indexes),
  )
