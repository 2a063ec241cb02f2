-- ===== src/Engine/Reconcile/Rounds.antt =====
-- Two rounds of `sync_worker` with the batch of the first round between them.
use inferna_next.Base.{
  Bool, Bool-cases, List, Option, [], ap, false, if◌then◌else◌, inl, inr, none, refl, some, subst,
  sym, true, ℕ, ◌++◌, ◌==◌, ◌∙◌, ◌∷◌, ◌≡◌, ◌≢◌, ◌≤◌,
}
use inferna_next.Base.Dict.{dict_get, dict_keys}
use inferna_next.Base.Member.{All-of_In, Distinct, In}
use inferna_next.Models.{ModelInstance, is_run}
use inferna_next.Workers.{on_worker}
use inferna_next.Workers.Sync.{
  Command, InstanceStatus, apply_status, apply_statuses, delete_commands, is_about, is_known,
  row_commands, sync_rows,
}
use inferna_next.Workers.Sync.Commands.{IsQuiet, commands_iff}
use inferna_next.Workers.Sync.Sources.{row_ids}
use inferna_next.Engine.{WorkerSettings}
use inferna_next.Engine.Manager.{Docker, Info, Manager}
use inferna_next.Engine.Reconcile.{refresh_logs, reports, run_batch, statuses}
use inferna_next.Engine.Reconcile.Reports.{
  IsSettledInfo, dict_get-refresh_logs, reports-get, statuses_iff,
}
use inferna_next.Engine.Reconcile.Settle.{commands-Distinct, run_batch-instances}
use inferna_next.Engine.Reconcile.Converge.{known_row, row_settled, unknown_gone}

-- A synchronisation keeps what the server decides of a row.
abbrev pub Keeps : ModelInstance → ModelInstance → Type 0
Keeps i j =
    (j.id ≡ i.id)
    × (j.worker_id ≡ i.worker_id)
    × (j.generation ≡ i.generation)
    × (j.desired_state ≡ i.desired_state)

apply_statuses-Keeps :
    (ss : List InstanceStatus) (i j : ModelInstance) → Keeps i j → Keeps i (apply_statuses ss j)
unfolding apply_statuses apply_status
apply_statuses-Keeps [] i j k = k
apply_statuses-Keeps (s ∷ ss) i j k = apply_statuses-Keeps ss i _ (one (is_about j.id s))
  where
    one : (b : Bool) → Keeps i (if b then apply_status s j else j)
    one true = k
    one false = k

-- The rows before and after, one by one.
abbrev pub AreKept : List ModelInstance → List ModelInstance → Type 0
AreKept [] [] = Unit
AreKept (i ∷ is) (j ∷ js) = Keeps i j × AreKept is js
AreKept [] (j ∷ js) = ⊥
AreKept (i ∷ is) [] = ⊥

pub sync_rows-AreKept :
    (worker : ℕ) (ss : List InstanceStatus) (is : List ModelInstance)
    → AreKept is (sync_rows worker ss is)
unfolding sync_rows
sync_rows-AreKept worker ss [] = tt
sync_rows-AreKept worker ss (i ∷ is) = (row (on_worker worker i), sync_rows-AreKept worker ss is)
  where
    row : (b : Bool) → Keeps i (if b then apply_statuses ss i else i)
    row true = apply_statuses-Keeps ss i i (refl, refl, refl, refl)
    row false = (refl, refl, refl, refl)

kept_row :
    (is js : List ModelInstance) (j : ModelInstance)
    → AreKept is js
    → In j js
    → (i : ModelInstance) × In i is × Keeps i j
kept_row [] [] j k m = absurd m
kept_row [] (b ∷ js) j k m = absurd k
kept_row (i ∷ is) [] j k m = absurd m
kept_row (i ∷ is) (b ∷ js) j k (inl e) = (i, inl refl, subst (Keeps i) (sym e) k.0)
kept_row (i ∷ is) (b ∷ js) j k (inr m) = let r = kept_row is js j k.1 m in (r.0, inr r.1, r.2)

row_kept :
    (is js : List ModelInstance) (i : ModelInstance)
    → AreKept is js
    → In i is
    → (j : ModelInstance) × In j js × Keeps i j
row_kept [] [] i k m = absurd m
row_kept [] (b ∷ js) i k m = absurd m
row_kept (a ∷ is) [] i k m = absurd k
row_kept (a ∷ is) (b ∷ js) i k (inl e) = (b, inl refl, subst (λ r. Keeps r b) (sym e) k.0)
row_kept (a ∷ is) (b ∷ js) i k (inr m) = let r = row_kept is js i k.1 m in (r.0, inr r.1, r.2)

pub kept_ids : (is js : List ModelInstance) → AreKept is js → row_ids js ≡ row_ids is
kept_ids [] [] k = refl
kept_ids [] (b ∷ js) k = absurd k
kept_ids (a ∷ is) [] k = absurd k
kept_ids (a ∷ is) (b ∷ js) k = ap2 k.0.0 (kept_ids is js k.1)
  where
    ap2 : {x y : ℕ} {xs ys : List ℕ} → x ≡ y → xs ≡ ys → x ∷ xs ≡ y ∷ ys
    ap2 e h = cc

kept_worker :
    (worker : ℕ) (i j : ModelInstance) → Keeps i j → on_worker worker j ≡ on_worker worker i
kept_worker worker i j k = ap (λ o. elim o [ none ↦ false | some w ↦ w == worker ]) k.1

kept_settled :
    (o : Option Info) (i j : ModelInstance) → Keeps i j → IsSettledInfo o i → IsSettledInfo o j
kept_settled none i j k h = ap is_run k.3 ∙ h
kept_settled (some t) i j k h = (
  (λ r.
      let s = h.0 (sym (ap is_run k.3) ∙ r) in (subst (λ g. g ≤ t.generation) (sym k.2) s.0, s.1)),
  (λ r. h.1 (sym (ap is_run k.3) ∙ r)),
)

module _ {St : Type 0} (docker : Docker St) (settings : WorkerSettings) (now : ℕ) where
  module _ (worker : ℕ) (is : List ModelInstance) (after : Manager St)
      (keys : Distinct (dict_keys after.instances))
      (settled : (i : ModelInstance)
        → In i is
        → on_worker worker i ≡ true
        → IsSettledInfo (dict_get i.id after.instances) i)
      (gone : (id : ℕ)
        → ((i : ModelInstance) → In i is → on_worker worker i ≡ true → i.id ≢ id)
        → dict_get id after.instances ≡ none) where
    settled-IsQuiet :
        (j : ModelInstance)
        → In j (sync_rows worker (statuses docker settings now after).0 is)
        → IsQuiet worker (statuses docker settings now after).0 j
    settled-IsQuiet j m on =
        let k =
          kept_row is _ j (sync_rows-AreKept worker (statuses docker settings now after).0 is) m in
        (statuses_iff docker settings now after j keys).1 (
          subst (λ id. IsSettledInfo (dict_get id after.instances) j) (sym k.2.0)
            (kept_settled _ k.0 j k.2 (settled k.0 k.1 (sym (kept_worker worker k.0 j k.2) ∙ on))))

    unreported :
        (id : ℕ)
        → dict_get id after.instances ≡ none
        → dict_get id (refresh_logs docker settings now after.docker after.instances) ≡ none
    unreported id e =
        rw (dict_get-refresh_logs docker settings now id after.docker after.instances, e) refl

    settled_known :
        (s : InstanceStatus)
        → In s (statuses docker settings now after).0
        → is_known worker (sync_rows worker (statuses docker settings now after).0 is) s ≡ true
    unfolding statuses
    settled_known s m =
        let ss = (statuses docker settings now after).0 in
        let rows = sync_rows worker ss is in
        let r =
          reports-get docker settings now s
            (refresh_logs docker settings now after.docker after.instances) m in
        elim (Bool-cases (is_known worker rows s)) [
          | inl e ↦ e
          | inr unknown ↦ absurd (
              r.2 (
                unreported r.0 (
                  gone r.0 (λ i there on same.
                    let k = row_kept is rows i (sync_rows-AreKept worker ss is) there in
                    let told = r.1 ∙ ap some (sym same) ∙ ap some (sym k.2.0) in
                    let found =
                      known_row worker k.0 rows s k.1 (kept_worker worker i k.0 k.2 ∙ on) told in
                    false_is_true (sym unknown ∙ found)))))
        ]
      where
        false_is_true : false ≡ true → ⊥
        false_is_true h = cc

    -- A worker that is settled is asked for nothing.
    settled-commands :
        row_commands worker
            (statuses docker settings now after).0
            (sync_rows worker (statuses docker settings now after).0 is)
          ++ delete_commands worker
              (sync_rows worker (statuses docker settings now after).0 is)
              (statuses docker settings now after).0
        ≡ []
    settled-commands =
        (commands_iff worker _ _).1 (All-of_In _ _ settled-IsQuiet, All-of_In _ _ settled_known)

  batch-Distinct :
      (cs : List Command) (m : Manager St)
      → Distinct (dict_keys m.instances)
      → Distinct (dict_keys (run_batch docker settings now cs m).instances)
  batch-Distinct cs m d =
      subst (λ r. Distinct (dict_keys r)) (sym (run_batch-instances docker settings now cs m))
        (commands-Distinct docker settings now _ m d)

  -- After the batch of the commands, the next synchronisation has no command.
  pub commands-settle :
      (worker : ℕ) (is : List ModelInstance) (ss : List InstanceStatus) (m : Manager St)
      → ss ≡ reports docker settings now m.instances
      → Distinct (dict_keys m.instances)
      → Distinct (row_ids is)
      → let after =
          run_batch docker settings now
            (row_commands worker ss is ++ delete_commands worker is ss)
            m in
        let next = (statuses docker settings now after).0 in
        row_commands worker next (sync_rows worker next is)
          ++ delete_commands worker (sync_rows worker next is) next
        ≡ []
  commands-settle worker is ss m said keys ids =
      settled-commands worker is _ (batch-Distinct _ m keys)
        (row_settled docker settings now worker is ss m said keys ids)
        (unknown_gone docker settings now worker is ss m said keys ids)
