-- ===== src/Workers/Register/Registered.antt =====
-- What a registration leaves of the table of workers.
use inferna_next.Base.{
  ==_iff, Bool, Bool-cases, List, [], ap, false, inl, inr, not, refl, subst, sym, true, ℕ, ◌&&◌,
  ◌++◌, ◌==◌, ◌||◌, ◌∙◌, ◌∷◌, ◌≡◌, ◌≢◌, ◌⊎◌,
}
use inferna_next.Base.Text.{Text, text_eq, text_eq_iff}
use inferna_next.Base.Member.{In, In-append_cases, In-append_left, In-append_right}
use inferna_next.Base.Results.{ok}
use inferna_next.Models.{Worker}
use inferna_next.Workers.Sync.{put_worker}
use inferna_next.Workers.Register.{commit_worker, is_conflict}
use inferna_next.Workers.Register.Unique.{AreUnique, IsFree, any-all_false}

-- No row has the id.
abbrev pub IsUnusedId : ℕ → List Worker → Type 0
IsUnusedId id workers = (v : Worker) → In v workers → v.id ≢ id

-- The table has the row, and of the other rows those of before.
abbrev pub AreRowsWith : Worker → List Worker → List Worker → Type 0
AreRowsWith w rows workers =
    In w rows
    × ((v : Worker) → In v rows → (v ≡ w) ⊎ (In v workers × (v.id ≢ w.id)))
    × ((v : Worker) → In v workers → v.id ≢ w.id → In v rows)

pub put_worker-AreRowsWith :
    (w : Worker) (old : Worker) (workers : List Worker)
    → In old workers
    → old.id ≡ w.id
    → AreRowsWith w (put_worker w workers) workers
unfolding put_worker
put_worker-AreRowsWith w old [] m e = absurd m
put_worker-AreRowsWith w old (u ∷ us) m e = (here m, from, (λ v n other. kept v n other))
  where
    from_tail :
        (us : List Worker) (v : Worker)
        → In v (put_worker w us)
        → (v ≡ w) ⊎ (In v us × (v.id ≢ w.id))
    from_tail [] v n = absurd n
    from_tail (x ∷ xs) v (inl same) = elim (Bool-cases (x.id == w.id)) [
      | inl hit ↦ inl (rw (put_worker, hit) at same)
      | inr miss ↦
          let kept_row : v ≡ x = rw (put_worker, miss) at same in
          inr (
            inl kept_row,
            (λ f. let hit = (==_iff x.id w.id).1 (sym (ap (λ r. r.id) kept_row) ∙ f) in cc),
          )
    ]
    from_tail (x ∷ xs) v (inr n) = elim (from_tail xs v n) [
      | inl same ↦ inl same
      | inr old_row ↦ inr (inr old_row.0, old_row.1)
    ]

    from : (v : Worker) → In v (put_worker w (u ∷ us)) → (v ≡ w) ⊎ (In v (u ∷ us) × (v.id ≢ w.id))
    from v n = from_tail (u ∷ us) v n

    kept_tail : (us : List Worker) (v : Worker) → In v us → v.id ≢ w.id → In v (put_worker w us)
    kept_tail [] v n other = absurd n
    kept_tail (x ∷ xs) v (inl same) other = elim (Bool-cases (x.id == w.id)) [
      | inl hit ↦ absurd (other (ap (λ r. r.id) same ∙ (==_iff x.id w.id).0 hit))
      | inr miss ↦ inl (same ∙ rw miss refl)
    ]
    kept_tail (x ∷ xs) v (inr n) other = inr (kept_tail xs v n other)

    kept : (v : Worker) → In v (u ∷ us) → v.id ≢ w.id → In v (put_worker w (u ∷ us))
    kept v n other = kept_tail (u ∷ us) v n other

    here_tail : (us : List Worker) → In old us → In w (put_worker w us)
    here_tail [] n = absurd n
    here_tail (x ∷ xs) (inl same) =
        let hit = (==_iff x.id w.id).1 (ap (λ r. r.id) (sym same) ∙ e) in inl (rw hit refl)
    here_tail (x ∷ xs) (inr n) = inr (here_tail xs n)

    here : In old (u ∷ us) → In w (put_worker w (u ∷ us))
    here n = here_tail (u ∷ us) n

pub append-AreRowsWith :
    (w : Worker) (workers : List Worker)
    → IsUnusedId w.id workers
    → AreRowsWith w (workers ++ w ∷ []) workers
append-AreRowsWith w workers fresh = (
  In-append_right w workers (w ∷ []) (inl refl),
  (λ v m. elim (In-append_cases v workers (w ∷ []) m) [
    | inl old ↦ inr (old, fresh v old)
    | inr new ↦ elim new [ inl same ↦ inl same | inr nowhere ↦ absurd nowhere ]
  ]),
  (λ v m other. In-append_left v workers (w ∷ []) m),
)

-- A free row keeps the table unique.
pub rows-AreUnique :
    (w : Worker) (rows workers : List Worker)
    → AreUnique workers
    → IsFree w workers
    → AreRowsWith w rows workers
    → AreUnique rows
rows-AreUnique w rows workers unique free with_w x mx v mv other cluster = elim (with_w.1 x mx) [
  | inl x_new ↦ elim (with_w.1 v mv) [
    | inl v_new ↦ absurd (other (ap (λ r. r.id) (v_new ∙ sym x_new)))
    | inr v_old ↦
        subst (λ r. v.cluster_id ≡ r.cluster_id → (v.name ≢ r.name) × (v.hostname ≢ r.hostname))
          (sym x_new) (free v v_old.0 v_old.1) cluster
  ]
  | inr x_old ↦ elim (with_w.1 v mv) [
    | inl v_new ↦
        let apart = free x x_old.0 x_old.1 (sym cluster ∙ ap (λ r. r.cluster_id) v_new) in
        (
          (λ e. apart.0 (sym e ∙ ap (λ r. r.name) v_new)),
          (λ e. apart.1 (sym e ∙ ap (λ r. r.hostname) v_new)),
        )
    | inr v_old ↦ unique x x_old.0 v v_old.0 other cluster
  ]
]

-- A free row violates no constraint.
pub free-commit :
    (w : Worker) (rows workers : List Worker)
    → IsFree w workers
    → commit_worker w rows workers ≡ ok (rows, w)
unfolding commit_worker is_conflict
free-commit w rows workers free =
    rw (commit_worker, any-all_false (is_conflict w) workers quiet) refl
  where
    test_false :
        (a b c d : Bool)
        → (a ≡ false → b ≡ true → (c ≡ false) × (d ≡ false))
        → (not a && b && (c || d)) ≡ false
    test_false true b c d h = refl
    test_false false false c d h = refl
    test_false false true c d h = let r = h refl refl in rw (r.0, r.1) refl

    text_false : (s t : Text) → s ≢ t → text_eq s t ≡ false
    text_false s t apart = elim (Bool-cases (text_eq s t)) [
      | inl e ↦ absurd (apart ((text_eq_iff s t).0 e))
      | inr e ↦ e
    ]

    quiet : (v : Worker) → In v workers → is_conflict w v ≡ false
    quiet v m =
        test_false (v.id == w.id) (v.cluster_id == w.cluster_id) (text_eq v.name w.name)
          (text_eq v.hostname w.hostname)
          (λ other cluster.
            let apart =
              free v m (λ e. let hit = (==_iff v.id w.id).1 e in cc)
                ((==_iff v.cluster_id w.cluster_id).0 cluster) in
            (text_false v.name w.name apart.0, text_false v.hostname w.hostname apart.1))
