-- ===== src/Scheduler/Parallel/Hosts.antt =====
-- The parts of `allocate_parallel_replicas`: the fitting workers and their GPUs, one for each host,
-- and the ranks of a list of candidates.
use inferna_next.Base.{
  Bool-cases, List, Option, Option-cases, [], ap, arith, false, if◌then◌else◌, inl, inr, length,
  none, refl, some, subst, suc, true, zero, ℕ, ◌&&◌, ◌+◌, ◌<◌, ◌∷◌, ◌≡◌, ◌≤◌, ◌⊎◌,
}
use inferna_next.Base.Int.{leb_ℤ, pos, sub_ℕ}
use inferna_next.Base.Text.{Text}
use inferna_next.Base.Member.{All, Distinct, In, elem}
use inferna_next.Base.Keys.{keys}
use inferna_next.Models.{Db, Gpu, Worker}
use inferna_next.Scheduler.{engine_supports, held}
use inferna_next.Scheduler.BestFit.{Candidate}
use inferna_next.Scheduler.Auto.{free_now}
use inferna_next.Scheduler.Parallel.{ParallelAllocation, fitting, larger, largest_gpu, ranks_from}

abbrev pub host_of : Candidate → ℕ
host_of c = c.worker.id

-- The candidate is a GPU of its worker with the VRAM free and a supported vendor.
abbrev pub HasGpu : Db → ℕ → Text → Worker → ℕ → Type 0
HasGpu db need engine w i =
    (g : Gpu) × In g w.gpus
    × (g.index ≡ i)
    × (engine_supports engine g.vendor ≡ true)
    × (held db w.id i + need ≤ g.vram_mb)

-- `count` numbers from `start` on.
abbrev pub upto : ℕ → ℕ → List ℕ
upto start zero = []
upto start (suc count) = start ∷ upto (start + 1) count

abbrev pub ranks : List ParallelAllocation → List ℕ
ranks [] = []
ranks (a ∷ xs) = a.node_rank ∷ ranks xs

module _ (db : Db) (need : ℕ) (engine : Text) where
  fits_sub : (vram taken : ℕ) → leb_ℤ (pos need) (sub_ℕ vram taken) ≡ true → taken + need ≤ vram
  fits_sub vram taken h = ground arith

  -- Where the best GPU of a worker comes from.
  abbrev IsOf : Worker → List Gpu → Candidate → Type 0
  IsOf w gs c =
      (c.worker ≡ w)
      × (g : Gpu) × In g gs
      × (g.index ≡ c.gpu_index)
      × (engine_supports engine g.vendor ≡ true)
      × (held db w.id g.index + need ≤ g.vram_mb)

  largest_gpu-from :
      (w : Worker) (gs : List Gpu) (best : Option Candidate) (c : Candidate)
      → largest_gpu db need engine w gs best ≡ some c
      → (best ≡ some c) ⊎ IsOf w gs c
  unfolding largest_gpu
  largest_gpu-from w [] best c e = inl e
  largest_gpu-from w (g ∷ gs) best c e = elim (largest_gpu-from w gs _ c e) [
    | inl now ↦
        step (Bool-cases (engine_supports engine g.vendor && larger need (free_now db w g) best))
          now
    | inr (of_w, h, m, i, v, r) ↦ inr (of_w, h, inr m, i, v, r)
  ]
    where
      taken : Candidate
      taken = record { free = free_now db w g; worker = w; gpu_index = g.index }

      fits :
          (b : Option Candidate)
          → larger need (free_now db w g) b ≡ true
          → leb_ℤ (pos need) (free_now db w g) ≡ true
      fits none h = h
      fits (some b) h = ground arith

      some_eq : some taken ≡ some c → taken ≡ c
      some_eq h = cc

      step :
          ((engine_supports engine g.vendor && larger need (free_now db w g) best) ≡ true)
            ⊎ ((engine_supports engine g.vendor && larger need (free_now db w g) best) ≡ false)
          → (if engine_supports engine g.vendor && larger need (free_now db w g) best
              then some taken
              else best)
            ≡ some c
          → (best ≡ some c) ⊎ IsOf w (g ∷ gs) c
      step (inl b) now =
          let same : taken ≡ c = some_eq (rw b at now) in
          let vendor : engine_supports engine g.vendor ≡ true = ground arith in
          let room : larger need (free_now db w g) best ≡ true = ground arith in
          inr (
            subst (IsOf w (g ∷ gs)) same
              (refl, g, inl refl, refl, vendor, fits_sub _ _ (fits best room)))
      step (inr b) now = inl (rw b at now)

  IsOf-HasGpu :
      (w : Worker) (c : Candidate) → IsOf w w.gpus c → HasGpu db need engine c.worker c.gpu_index
  IsOf-HasGpu w c (e, g, m, i, v, r) = rw e (g, m, i, v, rw (← i) r)

  pub fitting-In :
      (ws : List Worker) (c : Candidate)
      → In c (fitting db need engine ws)
      → In c.worker ws × HasGpu db need engine c.worker c.gpu_index
  unfolding fitting
  fitting-In [] c m = absurd m
  fitting-In (w ∷ ws) c m = go (largest_gpu db need engine w w.gpus none) refl m (fitting-In ws c)
    where
      Goal : Type 0
      Goal = In c.worker (w ∷ ws) × HasGpu db need engine c.worker c.gpu_index

      later :
          (In c (fitting db need engine ws)
            → In c.worker ws × HasGpu db need engine c.worker c.gpu_index)
          → In c (fitting db need engine ws)
          → Goal
      later ih k = (inr (ih k).0, (ih k).1)

      go :
          (r : Option Candidate)
          → largest_gpu db need engine w w.gpus none ≡ r
          → In c
              (elim r [ none ↦ fitting db need engine ws | some d ↦ d ∷ fitting db need engine ws ])
          → (In c (fitting db need engine ws)
              → In c.worker ws × HasGpu db need engine c.worker c.gpu_index)
          → Goal
      go none e k ih = later ih k
      go (some d) e (inl same) ih = elim (largest_gpu-from w w.gpus none d e) [
        | inl never ↦ cc
        | inr of_w ↦ rw same (inl of_w.0, IsOf-HasGpu w d of_w)
      ]
      go (some d) e (inr k) ih = later ih k

  largest_gpu-worker :
      (w : Worker) (c : Candidate)
      → largest_gpu db need engine w w.gpus none ≡ some c
      → c.worker ≡ w
  largest_gpu-worker w c e = elim (largest_gpu-from w w.gpus none c e) [
    | inl never ↦ cc
    | inr of_w ↦ of_w.0
  ]

  elem-fitting_none :
      (k : ℕ) (ws : List Worker)
      → elem k (keys (λ w. w.id) ws) ≡ false
      → elem k (keys host_of (fitting db need engine ws)) ≡ false
  unfolding fitting
  elem-fitting_none k [] h = refl
  elem-fitting_none k (w ∷ ws) h = elim (Option-cases (largest_gpu db need engine w w.gpus none)) [
    | inl e ↦ rw (e, fitting) (elem-fitting_none k ws (ground arith))
    | inr (c, e) ↦
        rw (e, fitting, largest_gpu-worker w c e) (ground (arith, elem-fitting_none k ws))
  ]

  pub Distinct-fitting :
      (ws : List Worker)
      → Distinct (keys (λ w. w.id) ws)
      → Distinct (keys host_of (fitting db need engine ws))
  unfolding fitting
  Distinct-fitting [] d = tt
  Distinct-fitting (w ∷ ws) d = elim (Option-cases (largest_gpu db need engine w w.gpus none)) [
    | inl e ↦ rw (e, fitting) (Distinct-fitting ws d.1)
    | inr (c, e) ↦
        rw (e, fitting, largest_gpu-worker w c e)
          (elem-fitting_none w.id ws d.0, Distinct-fitting ws d.1)
  ]

module _ (p r : Option ℕ) where
  pub length-ranks_from : (n : ℕ) (cs : List Candidate) → length (ranks_from n p r cs) ≡ length cs
  unfolding ranks_from
  length-ranks_from n [] = refl
  length-ranks_from n (c ∷ cs) = ap suc (length-ranks_from (n + 1) cs)

  pub keys-ranks_from :
      (n : ℕ) (cs : List Candidate)
      → keys (λ (a : ParallelAllocation). a.worker.id) (ranks_from n p r cs) ≡ keys host_of cs
  unfolding ranks_from
  keys-ranks_from n [] = refl
  keys-ranks_from n (c ∷ cs) = ap (◌∷◌ c.worker.id) (keys-ranks_from (n + 1) cs)

  pub ranks-ranks_from :
      (n : ℕ) (cs : List Candidate) → ranks (ranks_from n p r cs) ≡ upto n (length cs)
  unfolding ranks_from
  ranks-ranks_from n [] = refl
  ranks-ranks_from n (c ∷ cs) = ap (◌∷◌ n) (ranks-ranks_from (n + 1) cs)

  pub In-of_ranks_from :
      (n : ℕ) (cs : List Candidate) (a : ParallelAllocation)
      → In a (ranks_from n p r cs)
      → (c : Candidate) × In c cs × (a.worker ≡ c.worker) × (a.gpu_indexes ≡ c.gpu_index ∷ [])
  unfolding ranks_from
  In-of_ranks_from n [] a m = absurd m
  In-of_ranks_from n (c ∷ cs) a (inl e) = (c, inl refl, rw e, rw e)
  In-of_ranks_from n (c ∷ cs) a (inr m) =
      let (d, k, x, y) = In-of_ranks_from (n + 1) cs a m in (d, inr k, x, y)

  -- No follower publishes a port.
  pub followers :
      (n : ℕ) (cs : List Candidate)
      → 0 < n
      → All
          (λ (a : ParallelAllocation). (a.instance_port ≡ none) × (a.rendezvous_port ≡ none))
          (ranks_from n p r cs)
  unfolding ranks_from
  followers n [] h = tt
  followers n (c ∷ cs) h = ((ground arith, ground arith), followers (n + 1) cs (omega arith))
