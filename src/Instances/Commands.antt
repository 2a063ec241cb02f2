-- ===== src/Instances/Commands.antt =====
-- What a stop and a restart by the API make the next synchronisation ask of the worker.
use inferna_next.Base.{
  ==_iff, Bool-cases, List, Option, [], ap, arith, false, inl, inr, ltb, none, not, refl, some,
  subst, sym, true, ℕ, ◌++◌, ◌+◌, ◌==◌, ◌∙◌, ◌∷◌, ◌≡◌, ◌≤◌, ◌⊎◌,
}
use inferna_next.Base.Member.{In, In-append_cases, In-append_left, In-append_right}
use inferna_next.Base.Results.{ok}
use inferna_next.Models.{ModelInstance, is_run, running, starting}
use inferna_next.Scaling.{Deployment}
use inferna_next.Workers.Config.{config_of}
use inferna_next.Workers.Sync.{InstanceStatus, command_for, start, stop}
use inferna_next.Instances.{
  Store, change_in, change_instance, change_row, has_row, restart_instance, restarted_row,
  rows_of_all, stop_instance, stopped_row, store_rows,
}
use inferna_next.Instances.Life.{commit_store-ok}

In-change_row :
    (id : ℕ) (f : ModelInstance → ModelInstance) (i : ModelInstance) (is : List ModelInstance)
    → In i is
    → i.id ≡ id
    → In (f i) (change_row id f is)
unfolding change_row
In-change_row id f i [] m e = absurd m
In-change_row id f i (j ∷ is) (inl same) e =
    let hit : (j.id == id) ≡ true = (==_iff j.id id).1 (ap (λ r. r.id) (sym same) ∙ e) in
    inl (ap f same ∙ rw hit refl)
In-change_row id f i (j ∷ is) (inr m) e = inr (In-change_row id f i is m e)

In-change_in :
    (id : ℕ) (f : ModelInstance → ModelInstance) (i : ModelInstance) (ds : List Deployment)
    → In i (rows_of_all ds)
    → i.id ≡ id
    → In (f i) (rows_of_all (change_in id f ds))
unfolding rows_of_all change_in
In-change_in id f i [] m e = absurd m
In-change_in id f i (d ∷ ds) m e = elim (In-append_cases i d.instances (rows_of_all ds) m) [
  | inl here ↦
      In-append_left (f i) (change_row id f d.instances) (rows_of_all (change_in id f ds))
        (In-change_row id f i d.instances here e)
  | inr there ↦
      In-append_right (f i) (change_row id f d.instances) (rows_of_all (change_in id f ds))
        (In-change_in id f i ds there e)
]

In-change_instance :
    (id : ℕ) (f : ModelInstance → ModelInstance) (i : ModelInstance) (s s' : Store)
    → change_instance id f s ≡ ok s'
    → In i (store_rows s)
    → i.id ≡ id
    → In (f i) (store_rows s')
unfolding change_instance
In-change_instance id f i s s' h m e = elim (Bool-cases (not (has_row id (store_rows s)))) [
  | inl a ↦ let refused = rw (change_instance, a) at h in cc
  | inr a ↦
      let after : Store = record s {
        deployments = change_in id f s.deployments;
        loose = change_row id f s.loose;
      } in
      let same = commit_store-ok _ after s' (rw (change_instance, a) at h) in
      subst (λ t. In (f i) (store_rows t)) same
        (changed (In-append_cases i (rows_of_all s.deployments) s.loose m))
]
  where
    changed :
        In i (rows_of_all s.deployments) ⊎ In i s.loose
        → In (f i) (rows_of_all (change_in id f s.deployments) ++ change_row id f s.loose)
    changed (inl here) =
        In-append_left (f i) (rows_of_all (change_in id f s.deployments)) (change_row id f s.loose)
          (In-change_in id f i s.deployments here e)
    changed (inr there) =
        In-append_right (f i) (rows_of_all (change_in id f s.deployments)) (change_row id f s.loose)
          (In-change_row id f i s.loose there e)

-- The worker reports nothing of the row, or a generation that is not newer than it.
abbrev pub IsOldReport : Option InstanceStatus → ModelInstance → Type 0
IsOldReport none i = Unit
IsOldReport (some r) i = r.generation ≤ i.generation

restart_command :
    (o : Option InstanceStatus) (i : ModelInstance)
    → IsOldReport o i
    → command_for o (restarted_row i)
      ≡ start i.id (i.generation + 1) (config_of (restarted_row i)) ∷ []
unfolding command_for restarted_row
restart_command none i h = refl
restart_command (some r) i h =
    let newer : ltb r.generation (i.generation + 1) ≡ true = ground arith in rw newer refl

-- After a restart the row of the instance is in the tables with the next generation, and whatever the
-- worker reports of it that is not newer than the row was, the synchronisation answers with a start
-- command of that generation.
pub restart_instance-start :
    (id : ℕ) (s s' : Store) (i : ModelInstance)
    → restart_instance id s ≡ ok s'
    → In i (store_rows s)
    → i.id ≡ id
    → In (restarted_row i) (store_rows s')
      × ((o : Option InstanceStatus)
          → IsOldReport o i
          → command_for o (restarted_row i)
            ≡ start id (i.generation + 1) (config_of (restarted_row i)) ∷ [])
unfolding restart_instance
restart_instance-start id s s' i h m e = (
  In-change_instance id restarted_row i s s' h m e,
  (λ o old.
      restart_command o i old
      ∙ ap (λ k. start k (i.generation + 1) (config_of (restarted_row i)) ∷ []) e),
)

-- The row is desired to stop, with a generation that is newer unless it was to stop before.
abbrev pub IsStopped : ModelInstance → ModelInstance → Type 0
IsStopped i j =
    (j.id ≡ i.id)
    × (is_run j.desired_state ≡ false)
    × (is_run i.desired_state ≡ true → j.generation ≡ i.generation + 1)
    × (is_run i.desired_state ≡ false → j ≡ i)

stopped_row-IsStopped : (i : ModelInstance) → IsStopped i (stopped_row i)
unfolding stopped_row
stopped_row-IsStopped i = elim (Bool-cases (is_run i.desired_state)) [
  | inl e ↦ rw e (refl, refl, (λ h. refl), (λ h. cc))
  | inr e ↦ rw e (refl, e, (λ h. cc), (λ h. refl))
]

stop_command :
    (r : InstanceStatus) (j : ModelInstance)
    → is_run j.desired_state ≡ false
    → (r.state ≡ starting) ⊎ (r.state ≡ running)
    → command_for (some r) j ≡ stop j.id ∷ []
unfolding command_for
stop_command r j e (inl s) = rw (command_for, e, s) refl
stop_command r j e (inr s) = rw (command_for, e, s) refl

-- After a stop the row of the instance is in the tables and is desired to stop, with the next
-- generation if it was to run and else as it was, and to a report that it is starting or running the
-- synchronisation answers with the stop command alone.
pub stop_instance-stop :
    (id : ℕ) (s s' : Store) (i : ModelInstance)
    → stop_instance id s ≡ ok s'
    → In i (store_rows s)
    → i.id ≡ id
    → In (stopped_row i) (store_rows s')
      × IsStopped i (stopped_row i)
      × ((r : InstanceStatus)
          → (r.state ≡ starting) ⊎ (r.state ≡ running)
          → command_for (some r) (stopped_row i) ≡ stop id ∷ [])
unfolding stop_instance
stop_instance-stop id s s' i h m e =
    let shown = stopped_row-IsStopped i in
    (
      In-change_instance id stopped_row i s s' h m e,
      shown,
      (λ r live. stop_command r (stopped_row i) shown.1 live ∙ ap (λ k. stop k ∷ []) (shown.0 ∙ e)),
    )
