-- ===== src/Instances/Places.antt =====
-- What the calls of the API other than `deploy` leave of the rows: no instance moves.
use inferna_next.Base.{
  Bool, Bool-cases, List, [], ap, false, if◌then◌else◌, inl, inr, leb, length, not, refl, subst,
  sym, true, ℕ, ◌++◌, ◌+◌, ◌==◌, ◌∙◌, ◌∷◌, ◌≡◌,
}
use inferna_next.Base.Member.{All, In, In-append_cases, In-append_left, In-append_right}
use inferna_next.Base.Results.{Result-cases, ok}
use inferna_next.Models.{ModelInstance, Settings, is_run}
use inferna_next.Scaling.{Deployment}
use inferna_next.Instances.{
  ApiCall, Store, answer_call, change_in, change_instance, change_row, delete_instance, deleting,
  deploying, has_row, integrity_error, remove_in, remove_row, restart_instance, restarted_row,
  restarting, rows_of_all, run_calls, stop_instance, stopped_row, stopping, store_rows,
}
use inferna_next.Instances.Life.{commit_store-ok}

-- The same instance in the same place.
abbrev pub IsSamePlace : ModelInstance → ModelInstance → Type 0
IsSamePlace j i =
    (j.id ≡ i.id)
    × (j.worker_id ≡ i.worker_id)
    × (j.gpu_indexes ≡ i.gpu_indexes)
    × (j.port ≡ i.port)
    × (j.parallel_group_id ≡ i.parallel_group_id)
    × (j.state ≡ i.state)

-- Each row of the second list is a row of the first, as the same instance in the same place.
abbrev pub AreRowsOf : List ModelInstance → List ModelInstance → Type 0
AreRowsOf xs ys = (i : ModelInstance) → In i ys → (j : ModelInstance) × (In j xs × IsSamePlace j i)

abbrev pub IsDeploy : ApiCall → Type 0
IsDeploy (deploying body) = Unit
IsDeploy (stopping id) = ⊥
IsDeploy (restarting id) = ⊥
IsDeploy (deleting id) = ⊥

AreRowsOf-self : (xs : List ModelInstance) → AreRowsOf xs xs
AreRowsOf-self xs i m = (i, (m, (refl, refl, refl, refl, refl, refl)))

AreRowsOf-within :
    (xs ys : List ModelInstance) → ((i : ModelInstance) → In i ys → In i xs) → AreRowsOf xs ys
AreRowsOf-within xs ys h i m = (i, (h i m, (refl, refl, refl, refl, refl, refl)))

AreRowsOf-trans :
    (xs ys zs : List ModelInstance) → AreRowsOf xs ys → AreRowsOf ys zs → AreRowsOf xs zs
AreRowsOf-trans xs ys zs h k i m =
    let (j, (n, p)) = k i m in
    let (l, (o, q)) = h j n in
    (l, (o, (q.0 ∙ p.0, q.1 ∙ p.1, q.2 ∙ p.2, q.3 ∙ p.3, q.4 ∙ p.4, q.5 ∙ p.5)))

AreRowsOf-change_row :
    (id : ℕ) (f : ModelInstance → ModelInstance) (is : List ModelInstance)
    → ((i : ModelInstance) → IsSamePlace i (f i))
    → AreRowsOf is (change_row id f is)
unfolding change_row
AreRowsOf-change_row id f [] kept i m = absurd m
AreRowsOf-change_row id f (j ∷ is) kept i (inr m) =
    let (k, (n, p)) = AreRowsOf-change_row id f is kept i m in (k, (inr n, p))
AreRowsOf-change_row id f (j ∷ is) kept i (inl e) = elim (Bool-cases (j.id == id)) [
  | inl hit ↦
      let same : i ≡ f j = rw hit at e in (j, (inl refl, subst (IsSamePlace j) (sym same) (kept j)))
  | inr miss ↦
      let same : i ≡ j = rw miss at e in (i, (inl same, (refl, refl, refl, refl, refl, refl)))
]

change_row-append :
    (id : ℕ) (f : ModelInstance → ModelInstance) (xs ys : List ModelInstance)
    → change_row id f (xs ++ ys) ≡ change_row id f xs ++ change_row id f ys
unfolding change_row
change_row-append id f [] ys = refl
change_row-append id f (x ∷ xs) ys =
    ap (◌∷◌ (if x.id == id then f x else x)) (change_row-append id f xs ys)

rows_of_all-change_in :
    (id : ℕ) (f : ModelInstance → ModelInstance) (ds : List Deployment)
    → rows_of_all (change_in id f ds) ≡ change_row id f (rows_of_all ds)
unfolding change_in rows_of_all
rows_of_all-change_in id f [] = refl
rows_of_all-change_in id f (d ∷ ds) =
    ap (λ rows. change_row id f d.instances ++ rows) (rows_of_all-change_in id f ds)
    ∙ sym (change_row-append id f d.instances (rows_of_all ds))

In-remove_row :
    (id : ℕ) (is : List ModelInstance) (i : ModelInstance) → In i (remove_row id is) → In i is
unfolding remove_row
In-remove_row id [] i m = absurd m
In-remove_row id (j ∷ is) i m = elim (Bool-cases (j.id == id)) [
  | inl e ↦ inr (rw e at m)
  | inr e ↦ elim (rw e at m) [ inl same ↦ inl same | inr rest ↦ inr (In-remove_row id is i rest) ]
]

In-remove_in :
    (id : ℕ) (ds : List Deployment) (i : ModelInstance)
    → In i (rows_of_all (remove_in id ds))
    → In i (rows_of_all ds)
unfolding remove_in rows_of_all
In-remove_in id [] i m = absurd m
In-remove_in id (d ∷ ds) i m = elim (Bool-cases (has_row id d.instances)) [
  | inl e ↦ elim (Bool-cases (leb (length d.instances) 1)) [
    | inl last ↦ In-append_right i d.instances (rows_of_all ds) (rw (e, last) at m)
    | inr more ↦
        elim (In-append_cases i (remove_row id d.instances) (rows_of_all ds) (rw (e, more) at m)) [
          | inl here ↦
              In-append_left i d.instances (rows_of_all ds) (In-remove_row id d.instances i here)
          | inr there ↦ In-append_right i d.instances (rows_of_all ds) there
        ]
  ]
  | inr e ↦ elim (In-append_cases i d.instances (rows_of_all (remove_in id ds)) (rw e at m)) [
    | inl here ↦ In-append_left i d.instances (rows_of_all ds) here
    | inr there ↦ In-append_right i d.instances (rows_of_all ds) (In-remove_in id ds i there)
  ]
]

change_instance-AreRowsOf :
    (id : ℕ) (f : ModelInstance → ModelInstance) (s s' : Store)
    → ((i : ModelInstance) → IsSamePlace i (f i))
    → change_instance id f s ≡ ok s'
    → AreRowsOf (store_rows s) (store_rows s')
unfolding change_instance
change_instance-AreRowsOf id f s s' kept h = elim (Bool-cases (not (has_row id (store_rows s)))) [
  | inl a ↦ let refused = rw (change_instance, a) at h in cc
  | inr a ↦
      let after : Store = record s {
        deployments = change_in id f s.deployments;
        loose = change_row id f s.loose;
      } in
      let same = commit_store-ok integrity_error after s' (rw (change_instance, a) at h) in
      let rows : store_rows after ≡ change_row id f (store_rows s) =
        ap (λ r. r ++ change_row id f s.loose) (rows_of_all-change_in id f s.deployments)
        ∙ sym (change_row-append id f (rows_of_all s.deployments) s.loose) in
      subst (λ t. AreRowsOf (store_rows s) (store_rows t)) same
        (subst (AreRowsOf (store_rows s)) (sym rows)
          (AreRowsOf-change_row id f (store_rows s) kept))
]

delete_instance-AreRowsOf :
    (id : ℕ) (s s' : Store)
    → delete_instance id s ≡ ok s'
    → AreRowsOf (store_rows s) (store_rows s')
unfolding delete_instance
delete_instance-AreRowsOf id s s' h = elim (Bool-cases (not (has_row id (store_rows s)))) [
  | inl a ↦ let refused = rw (delete_instance, a) at h in cc
  | inr a ↦
      let after : Store =
        (if has_row id (rows_of_all s.deployments)
          then record s { deployments = remove_in id s.deployments }
          else record s { loose = remove_row id s.loose }) in
      let same = commit_store-ok integrity_error after s' (rw (delete_instance, a) at h) in
      subst (λ t. AreRowsOf (store_rows s) (store_rows t)) same
        (kept (has_row id (rows_of_all s.deployments)))
]
  where
    kept :
        (b : Bool)
        → AreRowsOf (store_rows s) (
            store_rows (
              if b
              then record s { deployments = remove_in id s.deployments }
              else record s { loose = remove_row id s.loose }))
    kept true = AreRowsOf-within _ _ (λ i m.
        elim (In-append_cases i (rows_of_all (remove_in id s.deployments)) s.loose m) [
          | inl here ↦
              In-append_left i (rows_of_all s.deployments) s.loose
                (In-remove_in id s.deployments i here)
          | inr there ↦ In-append_right i (rows_of_all s.deployments) s.loose there
        ])
    kept false = AreRowsOf-within _ _ (λ i m.
        elim (In-append_cases i (rows_of_all s.deployments) (remove_row id s.loose) m) [
          | inl here ↦ In-append_left i (rows_of_all s.deployments) s.loose here
          | inr there ↦
              In-append_right i (rows_of_all s.deployments) s.loose
                (In-remove_row id s.loose i there)
        ])

stopped_row-IsSamePlace : (i : ModelInstance) → IsSamePlace i (stopped_row i)
unfolding stopped_row
stopped_row-IsSamePlace i = elim (Bool-cases (is_run i.desired_state)) [
  | inl e ↦ rw e (refl, refl, refl, refl, refl, refl)
  | inr e ↦ rw e (refl, refl, refl, refl, refl, refl)
]

restarted_row-IsSamePlace : (i : ModelInstance) → IsSamePlace i (restarted_row i)
unfolding restarted_row
restarted_row-IsSamePlace i = (refl, refl, refl, refl, refl, refl)

answer_call-AreRowsOf :
    (cfg : Settings) (uuid4 : ℕ → ℕ) (now : ℕ) (c : ApiCall) (s s' : Store)
    → ¬ IsDeploy c
    → answer_call cfg uuid4 now c s ≡ ok s'
    → AreRowsOf (store_rows s) (store_rows s')
unfolding answer_call stop_instance restart_instance
answer_call-AreRowsOf cfg uuid4 now (deploying body) s s' n h = absurd (n tt)
answer_call-AreRowsOf cfg uuid4 now (stopping id) s s' n h =
    change_instance-AreRowsOf id stopped_row s s' stopped_row-IsSamePlace h
answer_call-AreRowsOf cfg uuid4 now (restarting id) s s' n h =
    change_instance-AreRowsOf id restarted_row s s' restarted_row-IsSamePlace h
answer_call-AreRowsOf cfg uuid4 now (deleting id) s s' n h = delete_instance-AreRowsOf id s s' h

-- Whatever stops, restarts and deletions follow each other, with their errors, no instance moves:
-- each row that is left was there before, with the same id, worker, GPUs, port, parallel group and
-- observed state.
pub run_calls-AreRowsOf :
    (cfg : Settings) (uuid4 : ℕ → ℕ → ℕ) (now : ℕ) (cs : List ApiCall) (s : Store)
    → All (λ c. ¬ IsDeploy c) cs
    → AreRowsOf (store_rows s) (store_rows (run_calls cfg uuid4 now cs s))
unfolding run_calls
run_calls-AreRowsOf cfg uuid4 now [] s h = AreRowsOf-self (store_rows s)
run_calls-AreRowsOf cfg uuid4 now (c ∷ cs) s h =
    elim (Result-cases (answer_call cfg (uuid4 now) now c s)) [
      | inl (e, k) ↦ rw (run_calls, k) (run_calls-AreRowsOf cfg uuid4 (now + 1) cs s h.1)
      | inr (s', k) ↦
          rw (run_calls, k)
            (AreRowsOf-trans (store_rows s) (store_rows s')
              (store_rows (run_calls cfg uuid4 (now + 1) cs s'))
              (answer_call-AreRowsOf cfg (uuid4 now) now c s s' h.0 k)
              (run_calls-AreRowsOf cfg uuid4 (now + 1) cs s' h.1))
    ]
