-- ===== src/Scheduler/Replicas/Spread.antt =====
-- Anti-affinity of one round of `allocate_replicas`.
use inferna_next.Base.{Bool-cases, List, Option, arith, inl, inr, none, some, subst, true, ℕ, ◌≡◌}
use inferna_next.Base.Text.{Text}
use inferna_next.Base.Member.{In, elem}
use inferna_next.Models.{Db, Gpu, Worker}
use inferna_next.Scheduler.BestFit.{
  Candidate, FitOutcome, Fits, From, best_fit, best_fit-FitOutcome,
}
use inferna_next.Scheduler.Auto.{vendor_allowed}
use inferna_next.Scheduler.Replicas.{
  Progress, choose, free_after, fresh_gpu, fresh_worker, or_try, pair_elem,
}

module _ (db : Db) (workers : List Worker) (need : ℕ) (engine : Text) (p : Progress) where
  -- A GPU of a supported vendor that has the VRAM left for one more replica.
  abbrev pub HasRoom : Worker → Gpu → Type 0
  HasRoom = Fits need (vendor_allowed engine) (free_after db p)

  -- What `choose` has found, or why it found nothing.
  abbrev pub Spreads : Option Candidate → Type 0
  Spreads none = (w : Worker) (g : Gpu) → In w workers → In g w.gpus → ¬ HasRoom w g
  Spreads (some c) =
      From need (vendor_allowed engine) (free_after db p) workers c
      × (elem c.worker.id p.used_workers ≡ true
          → (w : Worker) (g : Gpu) → In w workers
          → In g w.gpus
          → HasRoom w g
          → elem w.id p.used_workers ≡ true)
      × (elem c.worker.id p.used_workers ≡ true
          → pair_elem c.worker.id c.gpu_index p.used ≡ true
          → (w : Worker) (g : Gpu) → In w workers
          → In g w.gpus
          → HasRoom w g
          → pair_elem w.id g.index p.used ≡ true)

  abbrev NoFresh : Type 0
  NoFresh =
      (w : Worker) (g : Gpu)
      → In w workers
      → In g w.gpus
      → HasRoom w g
      → elem w.id p.used_workers ≡ true

  no_fresh : FitOutcome need (fresh_worker engine p) (free_after db p) workers none → NoFresh
  no_fresh h w g m n room = elim (Bool-cases (elem w.id p.used_workers)) [
    | inl old ↦ old
    | inr new ↦ absurd (h w g m n (rw new (ground arith), room.1))
  ]

  pass2 :
      (r : Option Candidate)
      → NoFresh
      → FitOutcome need (fresh_gpu engine p) (free_after db p) workers none
      → FitOutcome need (vendor_allowed engine) (free_after db p) workers r
      → Spreads r
  pass2 none no1 no2 fit = fit
  pass2 (some c) no1 no2 (from, least) = (
    from,
    λ _. no1,
    λ _ _ w g m n room. elim (Bool-cases (pair_elem w.id g.index p.used)) [
      | inl old ↦ old
      | inr new ↦ absurd (no2 w g m n (rw new (ground arith), room.1))
    ],
  )

  pass1b :
      (r : Option Candidate)
      → NoFresh
      → FitOutcome need (fresh_gpu engine p) (free_after db p) workers r
      → Spreads (or_try r (best_fit need (vendor_allowed engine) (free_after db p) workers))
  pass1b none no1 fit =
      pass2 (best_fit need (vendor_allowed engine) (free_after db p) workers) no1 fit
        (best_fit-FitOutcome need (vendor_allowed engine) (free_after db p) workers)
  pass1b (some c) no1 ((w, g, m, n, fits, e), least) =
      ((w, g, m, n, (ground arith, fits.1), e), λ _. no1, λ _ old. absurd (clash old))
    where
      clash : pair_elem c.worker.id c.gpu_index p.used ≡ true → ⊥
      clash old =
          let old' = subst (λ d. pair_elem d.worker.id d.gpu_index p.used ≡ true) e old in
          ground arith

  pass1a :
      (r : Option Candidate)
      → FitOutcome need (fresh_worker engine p) (free_after db p) workers r
      → Spreads (
          or_try r (
            or_try
              (best_fit need (fresh_gpu engine p) (free_after db p) workers)
              (best_fit need (vendor_allowed engine) (free_after db p) workers)))
  pass1a none fit =
      pass1b (best_fit need (fresh_gpu engine p) (free_after db p) workers) (no_fresh fit)
        (best_fit-FitOutcome need (fresh_gpu engine p) (free_after db p) workers)
  pass1a (some c) ((w, g, m, n, fits, e), least) = (
    (w, g, m, n, (ground arith, fits.1), e),
    λ old. absurd (clash old),
    λ old. absurd (clash old),
  )
    where
      clash : elem c.worker.id p.used_workers ≡ true → ⊥
      clash old =
          let old' = subst (λ d. elem d.worker.id p.used_workers ≡ true) e old in ground arith

  -- A round of `allocate_replicas` takes a GPU with room for the replica. It takes one of a worker
  -- that is already used only if every GPU with room is on a used worker, and an already used GPU
  -- only if every GPU with room is used. It takes none only if no GPU has room.
  pub choose-Spreads : Spreads (choose db workers need engine p)
  unfolding choose
  choose-Spreads =
      pass1a (best_fit need (fresh_worker engine p) (free_after db p) workers)
        (best_fit-FitOutcome need (fresh_worker engine p) (free_after db p) workers)
