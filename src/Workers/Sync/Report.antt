-- ===== src/Workers/Sync/Report.antt =====
-- The GPU rows after a synchronisation, and when it has no command for the worker.
use inferna_next.Base.{
  ==_iff, Bool, Bool-cases, List, Option, Option-cases, [], ap, arith, false, filter, if◌then◌else◌,
  inl, inr, none, refl, some, subst, sym, true, ℕ, ◌++◌, ◌==◌, ◌||◌, ◌∙◌, ◌∷◌, ◌≡◌,
}
use inferna_next.Base.Member.{All, All-of_In, In, in_of_All}
use inferna_next.Models.{Gpu}
use inferna_next.Workers.Sync.{
  GpuReport, gpu_of, has_gpu, is_reported, put_gpu, put_gpus, sync_gpus,
}

unfoldable pub gpu_row : ℕ → List Gpu → Option Gpu
gpu_row k [] = none
gpu_row k (g ∷ gs) = if g.index == k then some g else gpu_row k gs

-- The last report of an index, as a row.
unfoldable pub reported_gpu : ℕ → List GpuReport → Option Gpu
reported_gpu k [] = none
reported_gpu k (r ∷ rs) = elim (reported_gpu k rs) [
  | some g ↦ some g
  | none ↦ if r.index == k then some (gpu_of r) else none
]

abbrev first_of : Option Gpu → Option Gpu → Option Gpu
first_of none o = o
first_of (some g) o = some g

-- Of the reports, no two are about one index that has no row yet.
abbrev pub AreNewOnce : List Gpu → List GpuReport → Type 0
AreNewOnce existing [] = Unit
AreNewOnce existing (r ∷ rs) =
    (is_reported r.index rs ≡ true → has_gpu r.index existing ≡ true) × AreNewOnce existing rs

-- The reports about an index without a row before the loop find none in it either.
abbrev AreAbsent : List Gpu → List GpuReport → List Gpu → Type 0
AreAbsent existing rs gs =
    All (λ r. has_gpu r.index existing ≡ false → has_gpu r.index gs ≡ false) rs

gpu_row-absent : (k : ℕ) (gs : List Gpu) → has_gpu k gs ≡ false → gpu_row k gs ≡ none
unfolding gpu_row
gpu_row-absent k [] h = refl
gpu_row-absent k (g ∷ gs) h = ground (arith, gpu_row-absent k gs)

gpu_row-append :
    (k : ℕ) (r : GpuReport) (gs : List Gpu)
    → has_gpu r.index gs ≡ false
    → gpu_row k (gs ++ gpu_of r ∷ []) ≡ (if r.index == k then some (gpu_of r) else gpu_row k gs)
unfolding gpu_row
gpu_row-append k r [] h = refl
gpu_row-append k r (g ∷ gs) h = ground (arith, gpu_row-append k r gs)

gpu_row-put_gpu :
    (k : ℕ) (r : GpuReport) (gs : List Gpu)
    → has_gpu r.index gs ≡ true
    → gpu_row k (put_gpu r gs) ≡ (if r.index == k then some (gpu_of r) else gpu_row k gs)
unfolding gpu_row put_gpu
gpu_row-put_gpu k r [] h = cc
gpu_row-put_gpu k r (g ∷ gs) h = ground (arith, gpu_row-put_gpu k r gs)

has_gpu-put_gpu : (k : ℕ) (r : GpuReport) (gs : List Gpu) → has_gpu k (put_gpu r gs) ≡ has_gpu k gs
unfolding put_gpu
has_gpu-put_gpu k r [] = refl
has_gpu-put_gpu k r (g ∷ gs) = ground (arith, has_gpu-put_gpu k r gs)

has_gpu-append :
    (k : ℕ) (r : GpuReport) (gs : List Gpu)
    → has_gpu k (gs ++ gpu_of r ∷ []) ≡ (has_gpu k gs || r.index == k)
has_gpu-append k r [] = ground arith
has_gpu-append k r (g ∷ gs) = ground (arith, has_gpu-append k r gs)

-- A loop that has every index with a row, and none that it still is to add.
record IsUnderWay (existing : List Gpu) (rs : List GpuReport) (gs : List Gpu) : Type 0 where
  present : (k : ℕ) → has_gpu k existing ≡ true → has_gpu k gs ≡ true
  absent : AreAbsent existing rs gs

abbrev put_one : List Gpu → GpuReport → List Gpu → List Gpu
put_one existing r gs = if has_gpu r.index existing then put_gpu r gs else gs ++ gpu_of r ∷ []

module _ (existing : List Gpu) where
  is_reported-In : (r : GpuReport) (rs : List GpuReport) → In r rs → is_reported r.index rs ≡ true
  is_reported-In r [] m = absurd m
  is_reported-In r (s ∷ rs) (inl e) =
      let same = (==_iff s.index r.index).1 (ap (λ x. x.index) (sym e)) in rw same refl
  is_reported-In r (s ∷ rs) (inr m) = let rest = is_reported-In r rs m in ground arith

  reported-again :
      (k : ℕ) (s : GpuReport) (rs : List GpuReport)
      → In s rs
      → s.index ≡ k
      → is_reported k rs ≡ true
  reported-again k s rs m e = subst (λ n. is_reported n rs ≡ true) e (is_reported-In s rs m)

  put_one-IsUnderWay :
      (r : GpuReport) (rs : List GpuReport) (gs : List Gpu)
      → AreNewOnce existing (r ∷ rs)
      → IsUnderWay existing (r ∷ rs) gs
      → IsUnderWay existing rs (put_one existing r gs)
  put_one-IsUnderWay r rs gs once h = elim (Bool-cases (has_gpu r.index existing)) [
    | inl e ↦ rw e (record {
      present = λ k m. has_gpu-put_gpu k r gs ∙ h.present k m;
      absent =
          All-of_In _ rs (λ s m f. has_gpu-put_gpu s.index r gs ∙ in_of_All _ rs h.absent.1 s m f);
    })
    | inr e ↦ rw e (record {
      present = λ k m. has_gpu-append k r gs ∙ rw (h.present k m) refl;
      absent = All-of_In _ rs (λ s m f.
          has_gpu-append s.index r gs ∙ rw (in_of_All _ rs h.absent.1 s m f) (other s m e));
    })
  ]
    where
      other :
          (s : GpuReport)
          → In s rs
          → has_gpu r.index existing ≡ false
          → (r.index == s.index) ≡ false
      other s m new = elim (Bool-cases (r.index == s.index)) [
        | inr e ↦ e
        | inl e ↦
            let old = once.0 (reported-again r.index s rs m (sym ((==_iff r.index s.index).0 e))) in
            cc
      ]

  gpu_row-put_one :
      (k : ℕ) (r : GpuReport) (rs : List GpuReport) (gs : List Gpu)
      → IsUnderWay existing (r ∷ rs) gs
      → gpu_row k (put_one existing r gs) ≡ (if r.index == k then some (gpu_of r) else gpu_row k gs)
  gpu_row-put_one k r rs gs h = elim (Bool-cases (has_gpu r.index existing)) [
    | inl e ↦ rw e (gpu_row-put_gpu k r gs (h.present r.index e))
    | inr e ↦ rw e (gpu_row-append k r gs (h.absent.0 e))
  ]

  gpu_row-put_gpus :
      (k : ℕ) (rs : List GpuReport) (gs : List Gpu)
      → AreNewOnce existing rs
      → IsUnderWay existing rs gs
      → gpu_row k (put_gpus existing rs gs) ≡ first_of (reported_gpu k rs) (gpu_row k gs)
  unfolding put_gpus reported_gpu
  gpu_row-put_gpus k [] gs once h = refl
  gpu_row-put_gpus k (r ∷ rs) gs once h =
      gpu_row-put_gpus k rs (put_one existing r gs) once.1 (put_one-IsUnderWay r rs gs once h)
      ∙ elim (Option-cases (reported_gpu k rs)) [
        | inr (g, e) ↦ rw e
        | inl e ↦
            rw (e, gpu_row-put_one k r rs gs h)
              (elim (Bool-cases (r.index == k)) [ inl h ↦ rw h | inr h ↦ rw h ])
      ]

gpu_row-filter :
    (k : ℕ) (p : ℕ → Bool) (gs : List Gpu)
    → gpu_row k (filter (λ g. p g.index) gs) ≡ (if p k then gpu_row k gs else none)
unfolding gpu_row
gpu_row-filter k p [] = elim (Bool-cases (p k)) [ inl h ↦ rw h | inr h ↦ rw h ]
gpu_row-filter k p (g ∷ gs) = elim (Bool-cases (g.index == k)) [
  | inl e ↦ rw ((==_iff g.index k).0 e) (elim (Bool-cases (p k)) [
    | inl h ↦ rw h (ground arith)
    | inr h ↦ rw h (gpu_row-filter k p gs ∙ rw h refl)
  ])
  | inr e ↦ elim (Bool-cases (p g.index)) [
    | inl h ↦ rw (h, e) (gpu_row-filter k p gs)
    | inr h ↦ rw (h, e) (gpu_row-filter k p gs)
  ]
]

reported_or_not :
    (k : ℕ) (rs : List GpuReport) (o : Option Gpu)
    → (if is_reported k rs then first_of (reported_gpu k rs) o else none) ≡ reported_gpu k rs
unfolding reported_gpu
reported_or_not k [] o = refl
reported_or_not k (r ∷ rs) o = elim (Bool-cases (r.index == k)) [
  | inl e ↦ rw e (elim (Option-cases (reported_gpu k rs)) [ inl n ↦ rw (n, e) | inr (g, h) ↦ rw h ])
  | inr e ↦ rw e (elim (Option-cases (reported_gpu k rs)) [
    | inl n ↦ let rest = reported_or_not k rs o in rw (n, e) (rw n at rest)
    | inr (g, h) ↦ let rest = reported_or_not k rs o in rw h (rw h at rest)
  ])
]

-- After a synchronisation the worker's GPU rows are those that it reported, by index, each with the
-- figures of the last report of that index, and no other row is left, if no index without a row was
-- reported twice.
pub sync_gpus-reported :
    (rs : List GpuReport) (gs : List Gpu) (k : ℕ)
    → AreNewOnce gs rs
    → gpu_row k (sync_gpus rs gs) ≡ reported_gpu k rs
unfolding sync_gpus
sync_gpus-reported rs gs k once =
    gpu_row-filter k (λ j. is_reported j rs) (put_gpus gs rs gs)
    ∙ ap (λ o. if is_reported k rs then o else none)
        (gpu_row-put_gpus gs k rs gs once
          (record { present = λ j h. h; absent = All-of_In _ rs (λ r m h. h) }))
    ∙ reported_or_not k rs (gpu_row k gs)
