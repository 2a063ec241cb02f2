-- ===== src/Engine/Reconcile/Loop.antt =====
-- Two calls of `sync_worker` with the batch of the first call's commands between them.
use inferna_next.Base.{
  ==_iff, Bool-cases, List, Option-cases, [], ap, false, inl, inr, none, not, refl, some, subst,
  sym, true, ℕ, ◌++◌, ◌==◌, ◌∙◌, ◌∷◌, ◌≡◌,
}
use inferna_next.Base.Text.{Text, text_eq}
use inferna_next.Base.Dict.{dict_keys}
use inferna_next.Base.Member.{Distinct}
use inferna_next.Base.Results.{ok, ok-injective}
use inferna_next.Models.{Db, Worker}
use inferna_next.Workers.Sync.{
  Command, SyncRequest, delete_commands, put_worker, row_commands, sync_rows, sync_system,
  sync_worker, worker_by_id,
}
use inferna_next.Workers.Sync.Sources.{row_ids}
use inferna_next.Engine.{WorkerSettings}
use inferna_next.Engine.Manager.{Docker, Manager}
use inferna_next.Engine.Reconcile.{refresh_logs, run_batch, statuses}
use inferna_next.Engine.Reconcile.Reports.{keys-refresh_logs}
use inferna_next.Engine.Reconcile.Rounds.{commands-settle, kept_ids, sync_rows-AreKept}

module _ (sha : Text → Text) (now : ℕ) (q : SyncRequest) (db : Db) where
  -- What a call that succeeds has found.
  abbrev IsCall : ℕ → Worker → Type 0
  IsCall id w =
      (q.worker_id ≡ some id)
      × (worker_by_id id db.workers ≡ some w)
      × (not (text_eq w.token_hash (sha q.worker_token)) ≡ false)

  -- What the call of the worker answers.
  abbrev answer : Worker → Db × List Command
  answer w =
      let rows = sync_rows w.id q.instances db.instances in
      (
        record db { workers = put_worker (sync_system sha now q w) db.workers; instances = rows },
        row_commands w.id q.instances rows ++ delete_commands w.id rows q.instances,
      )

  sync_worker-IsCall :
      (out : Db × List Command)
      → sync_worker sha now q db ≡ ok out
      → (id : ℕ) × (w : Worker) × IsCall id w × (answer w ≡ out)
  unfolding sync_worker
  sync_worker-IsCall out h = elim (Option-cases q.worker_id) [
    | inl e ↦ let failed = rw e at h in cc
    | inr (id, e) ↦ elim (Option-cases (worker_by_id id db.workers)) [
      | inl f ↦ let failed = rw (e, f) at h in cc
      | inr (w, f) ↦ elim (Bool-cases (not (text_eq w.token_hash (sha q.worker_token)))) [
        | inl g ↦ let failed = rw (e, f, g) at h in cc
        | inr g ↦ (id, w, (e, f, g), ok-injective (rw (e, f, g) at h))
      ]
    ]
  ]

  sync_worker-answer :
      (id : ℕ) (w : Worker) → IsCall id w → sync_worker sha now q db ≡ ok (answer w)
  unfolding sync_worker
  sync_worker-answer id w (e, f, g) = rw (e, f, g) refl

by_id-IsId : (id : ℕ) (w : Worker) (ws : List Worker) → worker_by_id id ws ≡ some w → w.id ≡ id
unfolding worker_by_id
by_id-IsId id w [] h = cc
by_id-IsId id w (v ∷ ws) h = elim (Bool-cases (v.id == id)) [
  | inl e ↦
      let found : some v ≡ some w = rw e at h in
      sym (ap (λ o. elim o [ none ↦ v.id | some x ↦ x.id ]) found) ∙ (==_iff v.id id).0 e
  | inr e ↦ by_id-IsId id w ws (rw e at h)
]

-- The row that was written is found again.
by_id-put_worker :
    (id : ℕ) (v w : Worker) (ws : List Worker)
    → v.id ≡ id
    → worker_by_id id ws ≡ some w
    → worker_by_id id (put_worker v ws) ≡ some v
unfolding worker_by_id put_worker
by_id-put_worker id v w [] same h = cc
by_id-put_worker id v w (u ∷ ws) same h = elim (Bool-cases (u.id == id)) [
  | inl e ↦
      let self = (==_iff v.id id).1 same in
      let hit : (u.id == v.id) ≡ true = rw same e in rw (hit, self) refl
  | inr e ↦
      let miss : (u.id == v.id) ≡ false = rw same e in
      rw (miss, e) (by_id-put_worker id v w ws same (rw e at h))
]

module _ {St : Type 0} (docker : Docker St) (settings : WorkerSettings) (now : ℕ) where
  -- The first call leaves the second one nothing to ask for.
  second_answer :
      (sha : Text → Text) (first second : ℕ) (q : SyncRequest) (db : Db) (id : ℕ) (w : Worker)
      (m : Manager St)
      → w.id ≡ id
      → q.instances ≡ (statuses docker settings now m).0
      → Distinct (dict_keys m.instances)
      → Distinct (row_ids db.instances)
      → let out = answer sha first q db w in
        let after = run_batch docker settings now out.1 (statuses docker settings now m).1 in
        (answer sha second
          (record q { instances = (statuses docker settings now after).0 })
          out.0
          (sync_system sha first q w)).1
        ≡ []
  unfolding statuses
  second_answer sha first second q db id w m same said keys ids =
      let rows = sync_rows w.id q.instances db.instances in
      let kept = kept_ids db.instances rows (sync_rows-AreKept w.id q.instances db.instances) in
      commands-settle docker settings now w.id rows q.instances
        (record m { instances = refresh_logs docker settings now m.docker m.instances }) said
        (subst Distinct (sym (keys-refresh_logs docker settings now m.docker m.instances)) keys)
        (subst Distinct (sym kept) ids)

  -- The next call of the worker has no command.
  abbrev pub IsQuietAfter :
      (Text → Text) → ℕ → SyncRequest → Manager St → Db × List Command → Type 0
  IsQuietAfter sha second q m out =
      let after = run_batch docker settings now out.1 (statuses docker settings now m).1 in
      (db : Db) × (sync_worker sha second
          (record q { instances = (statuses docker settings now after).0 }) out.0
        ≡ ok (db, []))

  call-IsQuietAfter :
      (sha : Text → Text) (first second : ℕ) (q : SyncRequest) (db : Db) (id : ℕ) (w : Worker)
      (m : Manager St)
      → IsCall sha first q db id w
      → q.instances ≡ (statuses docker settings now m).0
      → Distinct (dict_keys m.instances)
      → Distinct (row_ids db.instances)
      → IsQuietAfter sha second q m (answer sha first q db w)
  call-IsQuietAfter sha first second q db id w m (e, f, g) said keys ids =
      let out = answer sha first q db w in
      let after = run_batch docker settings now out.1 (statuses docker settings now m).1 in
      let next = record q { instances = (statuses docker settings now after).0 } in
      let known = sync_system sha first q w in
      let same = by_id-IsId id w db.workers f in
      let answered =
        sync_worker-answer sha second next out.0 id known
          (e, by_id-put_worker id known w db.workers same f, g) in
      let quiet = second_answer sha first second q db id w m same said keys ids in
      (
        (answer sha second next out.0 known).0,
        answered ∙ ap (λ cs. ok ((answer sha second next out.0 known).0, cs)) quiet,
      )

  -- If the worker reports its records and runs the commands of a synchronisation in one batch, the
  -- next synchronisation succeeds and has no command, whatever the daemon answers. The records and the
  -- rows have distinct ids.
  pub sync_worker-settles :
      (sha : Text → Text) (first second : ℕ) (q : SyncRequest) (db db' : Db) (cs : List Command)
      (m : Manager St)
      → q.instances ≡ (statuses docker settings now m).0
      → Distinct (dict_keys m.instances)
      → Distinct (row_ids db.instances)
      → sync_worker sha first q db ≡ ok (db', cs)
      → IsQuietAfter sha second q m (db', cs)
  sync_worker-settles sha first second q db db' cs m said keys ids h =
      let call = sync_worker-IsCall sha first q db (db', cs) h in
      subst (IsQuietAfter sha second q m) call.3
        (call-IsQuietAfter sha first second q db call.0 call.1 m call.2 said keys ids)
