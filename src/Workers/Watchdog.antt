-- ===== src/Workers/Watchdog.antt =====
-- What the watchdog leaves: each row of the workers and of the instances, before and after.
use inferna_next.Base.{
  ==_iff, Bool, Bool-cases, List, Option, [], any, ap, ap₂, arith, false, filter, if◌then◌else◌,
  inl, inr, ltb, ltb→lt, lt→ltb, map, none, refl, some, some-injective, subst, sym, true, ℕ, ◌&&◌,
  ◌+◌, ◌<◌, ◌==◌, ◌↔◌, ◌∙◌, ◌∷◌, ◌≡◌, ◌≢◌, ◌⊎◌,
}
use inferna_next.Base.Text.{codes}
use inferna_next.Base.Member.{In, In-filter, In-of_filter}
use inferna_next.Models.{
  Db, DesiredState, InstanceState, ModelInstance, Worker, WorkerState, connected, disconnected,
  error, halt, is_connected, is_live, is_run, run, running, scheduled, starting, stopped,
}
use inferna_next.Workers.{
  disconnect, disconnect_after_seconds, disconnect_row, is_stale, is_stranded, mark_all,
  mark_disconnected, strand, strand_rows,
}

-- The rows of two lists are related one by one.
abbrev pub ArePaired : {A : Type 0} → (A → A → Type 0) → List A → List A → Type 0
ArePaired R [] [] = Unit
ArePaired R [] (y ∷ ys) = ⊥
ArePaired R (x ∷ xs) [] = ⊥
ArePaired R (x ∷ xs) (y ∷ ys) = R x y × ArePaired R xs ys

ArePaired-map :
    {A : Type 0} (R : A → A → Type 0) (f : A → A) (xs : List A)
    → ((x : A) → R x (f x))
    → ArePaired R xs (map f xs)
ArePaired-map R f [] h = tt
ArePaired-map R f (x ∷ xs) h = (h x, ArePaired-map R f xs h)

-- A connected worker that was last seen more than 30 seconds ago.
abbrev pub IsSilentSince : ℕ → Worker → Type 0
IsSilentSince now w = (w.state ≡ connected) × ((t : ℕ) × (w.last_seen_at ≡ some t) × (t + 30 < now))

-- A row that is desired to run and live, on the worker.
abbrev pub IsLostWith : Worker → ModelInstance → Type 0
IsLostWith w i =
    (i.worker_id ≡ some w.id)
    × (i.desired_state ≡ run)
    × ((i.state ≡ scheduled) ⊎ (i.state ≡ starting) ⊎ (i.state ≡ running))

-- The worker's row after the pass, by the rows before it.
abbrev pub IsWorkerAfter : ℕ → List Worker → Worker → Worker → Type 0
IsWorkerAfter now ws w w' =
    ((v : Worker)
      → In v ws
      → IsSilentSince now v
      → v.id ≡ w.id
      → w' ≡ record w { state = disconnected })
    × (((v : Worker) → In v ws → IsSilentSince now v → v.id ≢ w.id) → w' ≡ w)

-- The instance's row after the pass.
abbrev pub IsInstanceAfter : ℕ → List Worker → ModelInstance → ModelInstance → Type 0
IsInstanceAfter now ws i i' =
    ((v : Worker)
      → In v ws
      → IsSilentSince now v
      → IsLostWith v i
      → i' ≡ record i { state = error; error_detail = some (codes "worker disconnected") })
    × (((v : Worker) → In v ws → IsSilentSince now v → ¬ IsLostWith v i) → i' ≡ i)

is_stale_iff : (now : ℕ) (w : Worker) → (is_stale now w ≡ true) ↔ IsSilentSince now w
unfolding is_stale
is_stale_iff now w = by_fields w.state w.last_seen_at
  where
    by_fields :
        (s : WorkerState) (seen : Option ℕ)
        → (is_connected s
              && elim seen [ none ↦ false | some t ↦ ltb (t + disconnect_after_seconds) now ]
            ≡ true)
          ↔ ((s ≡ connected) × ((t : ℕ) × (seen ≡ some t) × (t + 30 < now)))
    by_fields disconnected seen = ((λ h. cc), (λ h. let e = h.0 in cc))
    by_fields connected none = ((λ h. cc), (λ h. let e = h.1.1 in cc))
    by_fields connected (some t) = (
      (λ h. (refl, (t, refl, ltb→lt _ _ h))),
      (λ h. lt→ltb _ _ (subst (λ n. n + 30 < now) (sym (some-injective h.1.1)) h.1.2)),
    )

is_stranded_iff : (w : Worker) (i : ModelInstance) → (is_stranded w.id i ≡ true) ↔ IsLostWith w i
is_stranded_iff w i = by_fields i.worker_id i.desired_state i.state
  where
    by_state :
        (s : InstanceState)
        → (is_live s ≡ true) ↔ ((s ≡ scheduled) ⊎ (s ≡ starting) ⊎ (s ≡ running))
    by_state scheduled = ((λ h. inl refl), (λ h. refl))
    by_state starting = ((λ h. inr (inl refl)), (λ h. refl))
    by_state running = ((λ h. inr (inr refl)), (λ h. refl))
    by_state stopped =
        ((λ h. cc), (λ h. elim h [ inl e ↦ cc | inr (inl e) ↦ cc | inr (inr e) ↦ cc ]))
    by_state error = ((λ h. cc), (λ h. elim h [ inl e ↦ cc | inr (inl e) ↦ cc | inr (inr e) ↦ cc ]))

    by_fields :
        (o : Option ℕ) (d : DesiredState) (s : InstanceState)
        → (elim o [ none ↦ false | some v ↦ v == w.id ] && (is_run d && is_live s) ≡ true)
          ↔ ((o ≡ some w.id) × (d ≡ run) × ((s ≡ scheduled) ⊎ (s ≡ starting) ⊎ (s ≡ running)))
    by_fields none d s = ((λ h. cc), (λ h. let e = h.0 in cc))
    by_fields (some v) halt s =
        ((λ h. let e : false ≡ true = ground arith in cc), (λ h. let e = h.1 in cc))
    by_fields (some v) run s = (
      (λ h.
          let same : (v == w.id) ≡ true = ground arith in
          let live : is_live s ≡ true = ground arith in
          (ap some ((==_iff v w.id).0 same), refl, (by_state s).0 live)),
      (λ h.
          let same : (v == w.id) ≡ true = (==_iff v w.id).1 (some-injective h.0) in
          let live : is_live s ≡ true = (by_state s).1 h.2 in rw (same, live) refl),
    )

any-true :
    (p : Worker → Bool) (ws : List Worker) (w : Worker) → In w ws → p w ≡ true → any p ws ≡ true
any-true p [] w m h = absurd m
any-true p (v ∷ vs) w (inl e) h = rw (← e, h) refl
any-true p (v ∷ vs) w (inr m) h = let rest = any-true p vs w m h in ground arith

any-false :
    (p : Worker → Bool) (ws : List Worker)
    → ((w : Worker) → In w ws → p w ≡ false)
    → any p ws ≡ false
any-false p [] h = refl
any-false p (v ∷ vs) h = rw (h v (inl refl)) (any-false p vs (λ w m. h w (inr m)))

-- What the loop over some workers makes of one row.
abbrev after_workers : List Worker → Worker → Worker
after_workers vs w = if any (λ v. w.id == v.id) vs then disconnect w else w

abbrev after_instances : List Worker → ModelInstance → ModelInstance
after_instances vs i = if any (λ v. is_stranded v.id i) vs then strand i else i

map_self : {A : Type 0} (xs : List A) → map (λ x. x) xs ≡ xs
map_self [] = refl
map_self (x ∷ xs) = ap (◌∷◌ x) (map_self xs)

disconnect_row-map :
    (v : Worker) (vs ws : List Worker)
    → map (after_workers vs) (disconnect_row v.id ws) ≡ map (after_workers (v ∷ vs)) ws
unfolding disconnect_row
disconnect_row-map v vs [] = refl
disconnect_row-map v vs (w ∷ ws) = ap₂ ◌∷◌ row (disconnect_row-map v vs ws)
  where
    row : after_workers vs (if w.id == v.id then disconnect w else w) ≡ after_workers (v ∷ vs) w
    row = elim (Bool-cases (w.id == v.id)) [
      | inr e ↦ rw e refl
      | inl e ↦
          rw e (elim (Bool-cases (any (λ u. w.id == u.id) vs)) [
            | inl h ↦ rw h refl
            | inr h ↦ rw h refl
          ])
    ]

strand-free : (id : ℕ) (i : ModelInstance) → is_stranded id (strand i) ≡ false
strand-free id i = ground arith

strand_rows-map :
    (v : Worker) (vs : List Worker) (is : List ModelInstance)
    → map (after_instances vs) (strand_rows v.id is) ≡ map (after_instances (v ∷ vs)) is
unfolding strand_rows
strand_rows-map v vs [] = refl
strand_rows-map v vs (i ∷ is) = ap₂ ◌∷◌ row (strand_rows-map v vs is)
  where
    row :
        after_instances vs (if is_stranded v.id i then strand i else i) ≡ after_instances (v ∷ vs) i
    row = elim (Bool-cases (is_stranded v.id i)) [
      | inr e ↦ rw e refl
      | inl e ↦
          rw (e, any-false (λ u. is_stranded u.id (strand i)) vs (λ u m. strand-free u.id i)) refl
    ]

mark_all-rows :
    (vs : List Worker) (db : Db)
    → ((mark_all vs db).workers ≡ map (after_workers vs) db.workers)
      × ((mark_all vs db).instances ≡ map (after_instances vs) db.instances)
unfolding mark_all
mark_all-rows [] db = (sym (map_self db.workers), sym (map_self db.instances))
mark_all-rows (v ∷ vs) db =
    let rest = mark_all-rows vs (record db {
      workers = disconnect_row v.id db.workers;
      instances = strand_rows v.id db.instances;
    }) in
    (rest.0 ∙ disconnect_row-map v vs db.workers, rest.1 ∙ strand_rows-map v vs db.instances)

not_true : (b : Bool) → ¬ (b ≡ true) → b ≡ false
not_true true h = absurd (h refl)
not_true false h = refl

module _ (now : ℕ) (ws : List Worker) where
  listed : (v : Worker) → In v ws → IsSilentSince now v → In v (filter (is_stale now) ws)
  listed v m h = In-filter (is_stale now) v ws m ((is_stale_iff now v).1 h)

  unlisted : (v : Worker) → In v (filter (is_stale now) ws) → In v ws × IsSilentSince now v
  unlisted v m = let r = In-of_filter (is_stale now) v ws m in (r.0, (is_stale_iff now v).0 r.1)

  after_workers-IsWorkerAfter :
      (w : Worker) → IsWorkerAfter now ws w (after_workers (filter (is_stale now) ws) w)
  after_workers-IsWorkerAfter w = (
    (λ v m h e.
        let hit =
          any-true (λ u. w.id == u.id) (filter (is_stale now) ws) v (listed v m h)
            ((==_iff w.id v.id).1 (sym e)) in
        rw hit refl),
    (λ h.
        let miss =
          any-false (λ u. w.id == u.id) (filter (is_stale now) ws)
            (λ v m.
              not_true _
                (λ e. h v (unlisted v m).0 (unlisted v m).1 (sym ((==_iff w.id v.id).0 e)))) in
        rw miss refl),
  )

  after_instances-IsInstanceAfter :
      (i : ModelInstance) → IsInstanceAfter now ws i (after_instances (filter (is_stale now) ws) i)
  after_instances-IsInstanceAfter i = (
    (λ v m h lost.
        let hit =
          any-true (λ u. is_stranded u.id i) (filter (is_stale now) ws) v (listed v m h)
            ((is_stranded_iff v i).1 lost) in
        rw hit refl),
    (λ h.
        let miss =
          any-false (λ u. is_stranded u.id i) (filter (is_stale now) ws)
            (λ v m.
              not_true _
                (λ e. h v (unlisted v m).0 (unlisted v m).1 ((is_stranded_iff v i).0 e))) in
        rw miss refl),
  )

-- A pass of the watchdog gives each worker's row the state `disconnected`, and changes nothing else
-- of it, if it is connected and was last seen more than 30 seconds ago (or shares its id with such a
-- row), and keeps every other worker. Each instance that is desired to run and scheduled, starting
-- or running on such a worker becomes `error` with the detail "worker disconnected", with its other
-- fields kept, and every other instance stays as it was.
pub mark_disconnected-AreMarked :
    (now : ℕ) (db : Db)
    → ArePaired (IsWorkerAfter now db.workers) db.workers (mark_disconnected now db).workers
      × ArePaired (IsInstanceAfter now db.workers) db.instances (mark_disconnected now db).instances
unfolding mark_disconnected
mark_disconnected-AreMarked now db =
    let stale = filter (is_stale now) db.workers in
    let rows = mark_all-rows stale db in
    (
      subst (ArePaired (IsWorkerAfter now db.workers) db.workers) (sym rows.0) (
          ArePaired-map (IsWorkerAfter now db.workers) (after_workers stale) db.workers
            (after_workers-IsWorkerAfter now db.workers)),
      subst (ArePaired (IsInstanceAfter now db.workers) db.instances) (sym rows.1) (
          ArePaired-map (IsInstanceAfter now db.workers) (after_instances stale) db.instances
            (after_instances-IsInstanceAfter now db.workers)),
    )
