-- ===== src/Scheduler/Auto.antt =====
-- `allocate_auto`: the best fit over the connected workers of the cluster.
use inferna_next.Base.{
  Bool, List, Option, [], ap, inl, inr, none, refl, some, subst, ℕ, ◌∙◌, ◌∷◌, ◌≡◌, ◌⊎◌,
}
use inferna_next.Base.Int.{sub_ℕ, ℤ, ◌≤ℤ◌}
use inferna_next.Base.Text.{Text}
use inferna_next.Base.Member.{In}
use inferna_next.Base.Results.{Result, err, ok, or_raise, ◌>>=◌}
use inferna_next.Models.{Db, Gpu, Settings, Worker}
use inferna_next.Scheduler.{
  AllocError, Allocation, alloc_port, connected_workers, engine_supports, held,
  no_connected_workers, no_free_port, no_gpu_fits, port_instances,
}
use inferna_next.Scheduler.BestFit.{Candidate, FitOutcome, Fits, best_fit, best_fit-FitOutcome}
use inferna_next.Scheduler.Ports.{alloc_port-err}

abbrev pub free_now : Db → Worker → Gpu → ℤ
free_now db w g = sub_ℕ g.vram_mb (held db w.id g.index)

abbrev pub vendor_allowed : Text → Worker → Gpu → Bool
vendor_allowed engine w g = engine_supports engine g.vendor

-- `if not workers: raise`
unfoldable pub require_workers : List Worker → AllocError → Result AllocError (List Worker)
require_workers [] e = err e
require_workers (w ∷ ws) e = ok (w ∷ ws)

pub require_workers-eq-ok :
    (ws : List Worker) (e : AllocError) (vs : List Worker) → require_workers ws e ≡ ok vs → ws ≡ vs
unfolding require_workers
require_workers-eq-ok [] e vs h = cc
require_workers-eq-ok (w ∷ ws) e vs h = cc

unfoldable pub allocate_auto : Settings → Db → ℕ → ℕ → Text → Result AllocError Allocation
unfolding require_workers
allocate_auto cfg db cluster_id need engine = do
  workers ← require_workers (connected_workers db cluster_id) no_connected_workers
  best ← or_raise (best_fit need (vendor_allowed engine) (free_now db) workers) no_gpu_fits
  port ← alloc_port cfg (port_instances db best.worker.id) []
  ok (record { worker = best.worker; gpu_indexes = best.gpu_index ∷ []; port = port })

module _ (cfg : Settings) (db : Db) (cluster_id need : ℕ) (engine : Text) where
  abbrev pub pool : List Worker
  pool = connected_workers db cluster_id

  abbrev pub FitsNow : Worker → Gpu → Type 0
  FitsNow = Fits need (vendor_allowed engine) (free_now db)

  -- What a successful call returns.
  abbrev pub IsBestFit : Allocation → Type 0
  IsBestFit a =
      (g : Gpu) × In a.worker pool
      × In g a.worker.gpus
      × FitsNow a.worker g
      × (a.gpu_indexes ≡ g.index ∷ [])
      × (alloc_port cfg (port_instances db a.worker.id) [] ≡ ok a.port)
      × ((w : Worker) (h : Gpu)
          → In w pool
          → In h w.gpus
          → FitsNow w h
          → free_now db a.worker g ≤ℤ free_now db w h)

  abbrev pub NoneFits : Type 0
  NoneFits = (w : Worker) (g : Gpu) → In w pool → In g w.gpus → ¬ FitsNow w g

  abbrev pub AutoOutcome : Result AllocError Allocation → Type 0
  AutoOutcome (ok a) = IsBestFit a
  AutoOutcome (err e) =
      ((e ≡ no_connected_workers) × (pool ≡ []))
      ⊎ ((e ≡ no_gpu_fits) × NoneFits)
      ⊎ ((e ≡ no_free_port)
          × (w : Worker) × In w pool
          × (alloc_port cfg (port_instances db w.id) [] ≡ err no_free_port))

  abbrev finish : Candidate → ℕ → Allocation
  finish best port = record { worker = best.worker; gpu_indexes = best.gpu_index ∷ []; port = port }

  port-AutoOutcome :
      (c : Candidate) (r : Result AllocError ℕ)
      → alloc_port cfg (port_instances db c.worker.id) [] ≡ r
      → FitOutcome need (vendor_allowed engine) (free_now db) pool (some c)
      → AutoOutcome (r >>= λ port. ok (finish c port))
  port-AutoOutcome c (ok p) e ((w, g, m, n, fits, d), least) = rw d (
    g,
    m,
    n,
    fits,
    refl,
    subst (λ x. alloc_port cfg (port_instances db x.worker.id) [] ≡ ok p) d e,
    λ v h i j k. rw d at (least v h i j k),
  )
  port-AutoOutcome c (err e') e ((w, g, m, n, fits, d), least) =
      let same : e' ≡ no_free_port = alloc_port-err cfg (port_instances db c.worker.id) [] e' e in
      inr (
        inr (
          same,
          w,
          m,
          subst (λ x. alloc_port cfg (port_instances db x.worker.id) [] ≡ err no_free_port) d
              (e ∙ ap err same),
        ))

  fit-AutoOutcome :
      (r : Option Candidate)
      → FitOutcome need (vendor_allowed engine) (free_now db) pool r
      → AutoOutcome (
          or_raise r no_gpu_fits >>= λ c.
          alloc_port cfg (port_instances db c.worker.id) [] >>= λ port. ok (finish c port))
  fit-AutoOutcome none none_fits = inr (inl (refl, none_fits))
  fit-AutoOutcome (some c) fit =
      port-AutoOutcome c (alloc_port cfg (port_instances db c.worker.id) []) refl fit

  workers-AutoOutcome :
      (ws : List Worker)
      → pool ≡ ws
      → AutoOutcome (
          require_workers ws no_connected_workers >>= λ v.
          or_raise (best_fit need (vendor_allowed engine) (free_now db) v) no_gpu_fits >>= λ c.
          alloc_port cfg (port_instances db c.worker.id) [] >>= λ port. ok (finish c port))
  unfolding require_workers
  workers-AutoOutcome [] e = inl (refl, e)
  workers-AutoOutcome (w ∷ ws) e =
      subst
        (λ v. AutoOutcome (
          or_raise (best_fit need (vendor_allowed engine) (free_now db) v) no_gpu_fits >>= λ c.
          alloc_port cfg (port_instances db c.worker.id) [] >>= λ port. ok (finish c port)))
        e
        (fit-AutoOutcome (best_fit need (vendor_allowed engine) (free_now db) pool)
          (best_fit-FitOutcome need (vendor_allowed engine) (free_now db) pool))

  -- `allocate_auto` returns a GPU of a connected worker of the cluster, of a supported vendor, with
  -- the required VRAM free and the least free VRAM of all such GPUs, and the port that
  -- `_alloc_port` gives for that worker. It raises "no connected workers" only when the cluster has
  -- none, "no GPU with enough free VRAM" only when no GPU fits, and "no free host port" only when
  -- the port allocation of one of the workers does.
  pub allocate_auto-AutoOutcome : AutoOutcome (allocate_auto cfg db cluster_id need engine)
  unfolding allocate_auto
  allocate_auto-AutoOutcome = workers-AutoOutcome pool refl
