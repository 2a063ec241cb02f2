-- ===== src/Scheduler/BestFit.antt =====
-- The search that `allocate_auto` and `_best` in `allocate_replicas` share: the fitting GPU with
-- the least free VRAM, in the order of the workers and of their GPUs. Free VRAM is an integer: what
-- is reserved may exceed what a GPU reports.
use inferna_next.Base.{
  Bool, List, Option, [], arith, if◌then◌else◌, inl, inr, none, refl, some, subst, sym, true, ℕ,
  ◌&&◌, ◌∙◌, ◌∷◌, ◌≡◌, ◌⊎◌,
}
use inferna_next.Base.Int.{leb_ℤ, ltb_ℤ, pos, ℤ, ◌≤ℤ◌}
use inferna_next.Base.Member.{In}
use inferna_next.Models.{Gpu, Worker}

-- `(free_mb, worker, gpu_index)`
pub record Candidate : Type 0 where
  pub free : ℤ
  pub worker : Worker
  pub gpu_index : ℕ

-- `free >= vram_required_mb and (best is None or free < best[0])`
unfoldable pub improves : ℕ → ℤ → Option Candidate → Bool
improves need f none = leb_ℤ (pos need) f
improves need f (some b) = leb_ℤ (pos need) f && ltb_ℤ f b.free

module _ (need : ℕ) (allowed : Worker → Gpu → Bool) (free : Worker → Gpu → ℤ) where
  abbrev pub candidate : Worker → Gpu → Candidate
  candidate w g = record { free = free w g; worker = w; gpu_index = g.index }

  abbrev pub next_best : Worker → Gpu → Option Candidate → Option Candidate
  next_best w g best =
      if allowed w g && improves need (free w g) best then some (candidate w g) else best

  unfoldable pub scan_gpus : Worker → List Gpu → Option Candidate → Option Candidate
  unfolding improves
  scan_gpus w [] best = best
  scan_gpus w (g ∷ gs) best = scan_gpus w gs (next_best w g best)

  unfoldable pub scan_workers : List Worker → Option Candidate → Option Candidate
  unfolding scan_gpus
  scan_workers [] best = best
  scan_workers (w ∷ ws) best = scan_workers ws (scan_gpus w w.gpus best)

  unfoldable pub best_fit : List Worker → Option Candidate
  unfolding scan_workers
  best_fit ws = scan_workers ws none

  abbrev pub Fits : Worker → Gpu → Type 0
  Fits w g = (allowed w g ≡ true) × (pos need ≤ℤ free w g)

  -- A candidate is at hand that leaves at most `f` free.
  abbrev AtMost : ℤ → Option Candidate → Type 0
  AtMost f none = ⊥
  AtMost f (some b) = b.free ≤ℤ f

  next_best-AtMost :
      (f : ℤ) (w : Worker) (g : Gpu) (best : Option Candidate)
      → AtMost f best
      → AtMost f (next_best w g best)
  unfolding improves
  next_best-AtMost f w g none h = absurd h
  next_best-AtMost f w g (some b) h = ground arith

  next_best-Fits :
      (w : Worker) (g : Gpu) (best : Option Candidate)
      → Fits w g
      → AtMost (free w g) (next_best w g best)
  unfolding improves
  next_best-Fits w g none h = ground arith
  next_best-Fits w g (some b) h = ground arith

  scan_gpus-AtMost :
      (f : ℤ) (w : Worker) (gs : List Gpu) (best : Option Candidate)
      → AtMost f best
      → AtMost f (scan_gpus w gs best)
  unfolding scan_gpus
  scan_gpus-AtMost f w [] best h = h
  scan_gpus-AtMost f w (g ∷ gs) best h =
      scan_gpus-AtMost f w gs (next_best w g best) (next_best-AtMost f w g best h)

  scan_gpus-Fits :
      (w : Worker) (g : Gpu) (gs : List Gpu) (best : Option Candidate)
      → In g gs
      → Fits w g
      → AtMost (free w g) (scan_gpus w gs best)
  unfolding scan_gpus
  scan_gpus-Fits w g [] best m h = absurd m
  scan_gpus-Fits w g (x ∷ gs) best (inl e) h =
      scan_gpus-AtMost (free w g) w gs (next_best w x best)
        (subst (λ y. AtMost (free w g) (next_best w y best)) e (next_best-Fits w g best h))
  scan_gpus-Fits w g (x ∷ gs) best (inr m) h = scan_gpus-Fits w g gs (next_best w x best) m h

  scan_workers-AtMost :
      (f : ℤ) (ws : List Worker) (best : Option Candidate)
      → AtMost f best
      → AtMost f (scan_workers ws best)
  unfolding scan_workers
  scan_workers-AtMost f [] best h = h
  scan_workers-AtMost f (w ∷ ws) best h =
      scan_workers-AtMost f ws (scan_gpus w w.gpus best) (scan_gpus-AtMost f w w.gpus best h)

  scan_workers-Fits :
      (w : Worker) (g : Gpu) (ws : List Worker) (best : Option Candidate)
      → In w ws
      → In g w.gpus
      → Fits w g
      → AtMost (free w g) (scan_workers ws best)
  unfolding scan_workers
  scan_workers-Fits w g [] best m n h = absurd m
  scan_workers-Fits w g (x ∷ ws) best (inl e) n h =
      scan_workers-AtMost (free w g) ws (scan_gpus x x.gpus best) (
        subst (λ y. AtMost (free w g) (scan_gpus y y.gpus best)) e
          (scan_gpus-Fits w g w.gpus best n h))
  scan_workers-Fits w g (x ∷ ws) best (inr m) n h =
      scan_workers-Fits w g ws (scan_gpus x x.gpus best) m n h

  -- Where a candidate comes from.
  abbrev pub From : List Worker → Candidate → Type 0
  From ws c = (w : Worker) × (g : Gpu) × In w ws × In g w.gpus × Fits w g × (c ≡ candidate w g)

  abbrev FromGpus : Worker → List Gpu → Candidate → Type 0
  FromGpus w gs c = (g : Gpu) × In g gs × Fits w g × (c ≡ candidate w g)

  next_best-cases :
      (w : Worker) (g : Gpu) (best : Option Candidate)
      → (next_best w g best ≡ best) ⊎ ((next_best w g best ≡ some (candidate w g)) × Fits w g)
  unfolding improves
  next_best-cases w g none = ground arith
  next_best-cases w g (some b) = ground arith

  scan_gpus-from :
      (w : Worker) (gs : List Gpu) (best : Option Candidate) (c : Candidate)
      → scan_gpus w gs best ≡ some c
      → (best ≡ some c) ⊎ FromGpus w gs c
  unfolding scan_gpus
  scan_gpus-from w [] best c e = inl e
  scan_gpus-from w (g ∷ gs) best c e = elim (scan_gpus-from w gs (next_best w g best) c e) [
    | inl now ↦ elim (next_best-cases w g best) [
      | inl same ↦ inl (sym same ∙ now)
      | inr (new, fits) ↦ inr (g, inl refl, fits, cc)
    ]
    | inr (x, m, fits, d) ↦ inr (x, inr m, fits, d)
  ]

  scan_workers-From :
      (ws : List Worker) (best : Option Candidate) (c : Candidate)
      → scan_workers ws best ≡ some c
      → (best ≡ some c) ⊎ From ws c
  unfolding scan_workers
  scan_workers-From [] best c e = inl e
  scan_workers-From (w ∷ ws) best c e = elim (scan_workers-From ws (scan_gpus w w.gpus best) c e) [
    | inl now ↦ elim (scan_gpus-from w w.gpus best c now) [
      | inl old ↦ inl old
      | inr (g, m, fits, d) ↦ inr (w, g, inl refl, m, fits, d)
    ]
    | inr (v, g, n, m, fits, d) ↦ inr (v, g, inr n, m, fits, d)
  ]

  -- How the search ends.
  abbrev pub FitOutcome : List Worker → Option Candidate → Type 0
  FitOutcome ws none = (w : Worker) (g : Gpu) → In w ws → In g w.gpus → ¬ Fits w g
  FitOutcome ws (some c) =
      From ws c × ((w : Worker) (g : Gpu) → In w ws → In g w.gpus → Fits w g → c.free ≤ℤ free w g)

  outcome_at : (ws : List Worker) (r : Option Candidate) → best_fit ws ≡ r → FitOutcome ws r
  unfolding best_fit
  outcome_at ws none e =
      λ w g m n fits. subst (AtMost (free w g)) e (scan_workers-Fits w g ws none m n fits)
  outcome_at ws (some c) e = (
    elim (scan_workers-From ws none c e) [ inl old ↦ cc | inr from ↦ from ],
    λ w g m n fits. subst (AtMost (free w g)) e (scan_workers-Fits w g ws none m n fits),
  )

  -- The search finds a fitting GPU with the least free VRAM among all that fit, and finds none
  -- exactly when no allowed GPU of the workers has the VRAM free.
  pub best_fit-FitOutcome : (ws : List Worker) → FitOutcome ws (best_fit ws)
  best_fit-FitOutcome ws = outcome_at ws (best_fit ws) refl
