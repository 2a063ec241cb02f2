-- ===== src/Instances/Life.antt =====
-- What the API keeps of the deployments: no deployment is left without an instance.
use inferna_next.Base.{
  Bool, Bool-cases, List, Option, [], ap, arith, false, if◌then◌else◌, inl, inr, leb, length, ltb,
  none, not, refl, some, subst, suc, sym, true, ℕ, ◌++◌, ◌+◌, ◌<◌, ◌==◌, ◌∙◌, ◌∷◌, ◌≡◌, ◌≤◌,
}
use inferna_next.Base.Member.{All}
use inferna_next.Base.Results.{Result, Result-cases, err, ok, ok-injective, raise_if, ◌>>=◌}
use inferna_next.Models.{Db, Model, ModelInstance, Settings}
use inferna_next.Scheduler.{AllocError, Allocation}
use inferna_next.Scheduler.Manual.{allocate_manual}
use inferna_next.Scheduler.Replicas.{allocate_replicas}
use inferna_next.Scheduler.Replicas.Capacity.{allocate_replicas-ArePlaced}
use inferna_next.Scheduler.Parallel.{ParallelAllocation, allocate_parallel_replicas}
use inferna_next.Scaling.{Deployment}
use inferna_next.Scaling.Apply.{group_rows, rendezvous_of, single_rows}
use inferna_next.Instances.{
  ApiCall, ApiError, DeployRequest, Store, answer_call, change_in, change_instance, change_row,
  check_deploy, commit_store, db_of, delete_instance, deleting, deploy, deploying, deployment_of,
  group_instances, has_conflict, has_row, has_valid_counts, is_valid_body, new_instances, no_ranks,
  raising, remove_in, remove_row, restart_instance, restarted_row, restarting, rows_of_all,
  run_calls, single_instances, stop_instance, stopped_row, stopping, store_rows,
}

-- Each deployment has an instance.
abbrev pub AreInhabited : List Deployment → Type 0
AreInhabited ds = All (λ d. 1 ≤ length d.instances) ds

-- A commit that succeeds leaves the tables as they were written.
pub commit_store-ok : (refusal : ApiError) (s s' : Store) → commit_store refusal s ≡ ok s' → s ≡ s'
unfolding commit_store
commit_store-ok refusal s s' h = elim (Bool-cases (has_conflict (store_rows s))) [
  | inl e ↦ let refused = rw (commit_store, e) at h in cc
  | inr e ↦ ok-injective (rw (commit_store, e) at h)
]

commit-AreInhabited :
    (refusal : ApiError) (s s' : Store)
    → AreInhabited s.deployments
    → commit_store refusal s ≡ ok s'
    → AreInhabited s'.deployments
commit-AreInhabited refusal s s' inhabited h =
    subst (λ t. AreInhabited t.deployments) (commit_store-ok refusal s s' h) inhabited

length-single_rows :
    (uuid4 : ℕ → ℕ) (now : ℕ) (d : Deployment) (k : ℕ) (xs : List Allocation)
    → length (single_rows uuid4 now d k xs) ≡ length xs
unfolding single_rows
length-single_rows uuid4 now d k [] = refl
length-single_rows uuid4 now d k (a ∷ xs) = ap suc (length-single_rows uuid4 now d (k + 1) xs)

check_deploy-valid :
    (body : DeployRequest) (s : Store) (model : Model)
    → check_deploy body s ≡ ok model
    → is_valid_body body ≡ true
unfolding check_deploy
check_deploy-valid body s model h = elim (Bool-cases (is_valid_body body)) [
  | inl e ↦ e
  | inr e ↦ let refused = rw (check_deploy, e) at h in cc
]

module _ (cfg : Settings) (uuid4 : ℕ → ℕ) (now : ℕ) where
  group_instances-inhabited :
      (db : Db) (d : Deployment) (rows : List ModelInstance)
      → group_instances cfg uuid4 now db d ≡ ok rows
      → 1 ≤ length rows
  unfolding group_instances group_rows
  group_instances-inhabited db d rows h =
      first_of
        (allocate_parallel_replicas cfg db d.cluster_id d.model.vram_required_mb d.engine
          d.nodes_per_replica [])
        h
    where
      first_of :
          (r : Result AllocError (List ParallelAllocation))
          → (raising r >>= (λ ranks.
              raise_if (elim ranks [ [] ↦ true | x ∷ xs ↦ false ]) no_ranks
              >>= (λ u. ok (group_rows uuid4 now d (uuid4 0) (rendezvous_of ranks) 1 ranks))))
            ≡ ok rows
          → 1 ≤ length rows
      first_of (err e) k = cc
      first_of (ok []) k = cc
      first_of (ok (x ∷ xs)) k = subst (λ is. 1 ≤ length is) (ok-injective k) (omega arith)

  single_instances-inhabited :
      (db : Db) (d : Deployment) (manual : Option (ℕ × List ℕ)) (replicas : ℕ)
      (rows : List ModelInstance)
      → 1 ≤ replicas
      → single_instances cfg uuid4 now db d manual replicas ≡ ok rows
      → 1 ≤ length rows
  unfolding single_instances single_rows
  single_instances-inhabited db d (some (worker, gpus)) replicas rows le h =
      one_of (allocate_manual cfg db d.cluster_id worker gpus d.model.vram_required_mb d.engine) h
    where
      one_of :
          (r : Result AllocError Allocation)
          → (raising r >>= (λ a. ok (single_rows uuid4 now d 0 (a ∷ [])))) ≡ ok rows
          → 1 ≤ length rows
      one_of (err e) k = cc
      one_of (ok a) k = subst (λ is. 1 ≤ length is) (ok-injective k) (omega arith)
  single_instances-inhabited db d none replicas rows le h =
      elim (Result-cases
        (allocate_replicas cfg db d.cluster_id d.model.vram_required_mb d.engine replicas [])) [
          | inl (e, k) ↦ let refused = rw (single_instances, k) at h in cc
          | inr (xs, k) ↦
              let all_there =
                allocate_replicas-ArePlaced cfg db d.cluster_id d.model.vram_required_mb d.engine
                  replicas [] xs k in
              let same = ok-injective (rw (single_instances, k) at h) in
              let count : length (single_rows uuid4 now d 0 xs) ≡ replicas =
                length-single_rows uuid4 now d 0 xs ∙ all_there.complete in
              subst (λ is. 1 ≤ length is) same (omega (arith, count))
        ]

  at_least_one : (body : DeployRequest) → is_valid_body body ≡ true → 1 ≤ body.replicas
  unfolding has_valid_counts
  at_least_one body valid = ground arith

  new_instances-inhabited :
      (db : Db) (d : Deployment) (body : DeployRequest) (rows : List ModelInstance)
      → is_valid_body body ≡ true
      → new_instances cfg uuid4 now db d body ≡ ok rows
      → 1 ≤ length rows
  unfolding new_instances
  new_instances-inhabited db d body rows valid h =
      elim (Bool-cases (ltb 1 body.nodes_per_replica)) [
        | inl multi ↦ group_instances-inhabited db d rows (rw (new_instances, multi) at h)
        | inr single ↦
            single_instances-inhabited db d body.manual body.replicas rows (at_least_one body valid)
              (rw (new_instances, single) at h)
      ]

  All-append_one :
      (ds : List Deployment) (d : Deployment)
      → AreInhabited ds
      → 1 ≤ length d.instances
      → AreInhabited (ds ++ d ∷ [])
  All-append_one [] d h le = (le, tt)
  All-append_one (e ∷ ds) d h le = (h.0, All-append_one ds d h.1 le)

  deploy-AreInhabited :
      (body : DeployRequest) (s s' : Store)
      → AreInhabited s.deployments
      → deploy cfg uuid4 now body s ≡ ok s'
      → AreInhabited s'.deployments
  unfolding deploy
  deploy-AreInhabited body s s' inhabited h = elim (Result-cases (check_deploy body s)) [
    | inl (e, a) ↦ let refused = rw (deploy, a) at h in cc
    | inr (model, a) ↦
        elim (Result-cases
          (new_instances cfg uuid4 now (db_of s) (deployment_of model body) body)) [
            | inl (e, b) ↦ let refused = rw (deploy, a, b) at h in cc
            | inr (rows, b) ↦
                let le =
                  new_instances-inhabited (db_of s) (deployment_of model body) body rows
                    (check_deploy-valid body s model a) b in
                commit-AreInhabited _ _ s'
                  (All-append_one s.deployments
                    (record (deployment_of model body) { instances = rows }) inhabited le)
                  (rw (deploy, a, b) at h)
          ]
  ]

length-change_row :
    (id : ℕ) (f : ModelInstance → ModelInstance) (is : List ModelInstance)
    → length (change_row id f is) ≡ length is
unfolding change_row
length-change_row id f [] = refl
length-change_row id f (i ∷ is) = ap suc (length-change_row id f is)

change_in-AreInhabited :
    (id : ℕ) (f : ModelInstance → ModelInstance) (ds : List Deployment)
    → AreInhabited ds
    → AreInhabited (change_in id f ds)
unfolding change_in
change_in-AreInhabited id f [] h = tt
change_in-AreInhabited id f (d ∷ ds) h = (
  subst (λ n. 1 ≤ n) (sym (length-change_row id f d.instances)) h.0,
  change_in-AreInhabited id f ds h.1,
)

length-remove_row : (id : ℕ) (is : List ModelInstance) → length is ≤ length (remove_row id is) + 1
unfolding remove_row
length-remove_row id [] = omega arith
length-remove_row id (i ∷ is) = elim (Bool-cases (i.id == id)) [
  | inl e ↦ rw e (omega arith)
  | inr e ↦ let rest = length-remove_row id is in rw e (omega arith)
]

remove_in-AreInhabited :
    (id : ℕ) (ds : List Deployment) → AreInhabited ds → AreInhabited (remove_in id ds)
unfolding remove_in
remove_in-AreInhabited id [] h = tt
remove_in-AreInhabited id (d ∷ ds) h = elim (Bool-cases (has_row id d.instances)) [
  | inr e ↦ rw e (h.0, remove_in-AreInhabited id ds h.1)
  | inl e ↦ elim (Bool-cases (leb (length d.instances) 1)) [
    | inl last ↦ rw (e, last) h.1
    | inr more ↦
        let left = length-remove_row id d.instances in
        let several : 1 < length d.instances = ground arith in rw (e, more) (omega arith, h.1)
  ]
]

change_instance-AreInhabited :
    (id : ℕ) (f : ModelInstance → ModelInstance) (s s' : Store)
    → AreInhabited s.deployments
    → change_instance id f s ≡ ok s'
    → AreInhabited s'.deployments
unfolding change_instance
change_instance-AreInhabited id f s s' inhabited h =
    elim (Bool-cases (not (has_row id (store_rows s)))) [
      | inl e ↦ let refused = rw (change_instance, e) at h in cc
      | inr e ↦
          commit-AreInhabited _
            (record s {
              deployments = change_in id f s.deployments;
              loose = change_row id f s.loose;
            })
            s' (change_in-AreInhabited id f s.deployments inhabited) (rw (change_instance, e) at h)
    ]

delete_instance-AreInhabited :
    (id : ℕ) (s s' : Store)
    → AreInhabited s.deployments
    → delete_instance id s ≡ ok s'
    → AreInhabited s'.deployments
unfolding delete_instance
delete_instance-AreInhabited id s s' inhabited h =
    elim (Bool-cases (not (has_row id (store_rows s)))) [
      | inl e ↦ let refused = rw (delete_instance, e) at h in cc
      | inr e ↦
          commit-AreInhabited _ _ s' (kept (has_row id (rows_of_all s.deployments)))
            (rw (delete_instance, e) at h)
    ]
  where
    kept :
        (b : Bool)
        → AreInhabited
            (if b
              then record s { deployments = remove_in id s.deployments }
              else record s { loose = remove_row id s.loose }).deployments
    kept true = remove_in-AreInhabited id s.deployments inhabited
    kept false = inhabited

answer_call-AreInhabited :
    (cfg : Settings) (uuid4 : ℕ → ℕ) (now : ℕ) (c : ApiCall) (s s' : Store)
    → AreInhabited s.deployments
    → answer_call cfg uuid4 now c s ≡ ok s'
    → AreInhabited s'.deployments
unfolding answer_call stop_instance restart_instance
answer_call-AreInhabited cfg uuid4 now (deploying body) s s' i h =
    deploy-AreInhabited cfg uuid4 now body s s' i h
answer_call-AreInhabited cfg uuid4 now (stopping id) s s' i h =
    change_instance-AreInhabited id stopped_row s s' i h
answer_call-AreInhabited cfg uuid4 now (restarting id) s s' i h =
    change_instance-AreInhabited id restarted_row s s' i h
answer_call-AreInhabited cfg uuid4 now (deleting id) s s' i h =
    delete_instance-AreInhabited id s s' i h

-- Whatever calls of the API follow each other, with their errors, each deployment keeps at least one
-- instance, if each has one at first.
pub run_calls-AreInhabited :
    (cfg : Settings) (uuid4 : ℕ → ℕ → ℕ) (now : ℕ) (cs : List ApiCall) (s : Store)
    → AreInhabited s.deployments
    → AreInhabited (run_calls cfg uuid4 now cs s).deployments
unfolding run_calls
run_calls-AreInhabited cfg uuid4 now [] s h = h
run_calls-AreInhabited cfg uuid4 now (c ∷ cs) s h =
    elim (Result-cases (answer_call cfg (uuid4 now) now c s)) [
      | inl (e, k) ↦ rw (run_calls, k) (run_calls-AreInhabited cfg uuid4 (now + 1) cs s h)
      | inr (s', k) ↦
          rw (run_calls, k)
            (run_calls-AreInhabited cfg uuid4 (now + 1) cs s'
              (answer_call-AreInhabited cfg (uuid4 now) now c s s' h k))
    ]
