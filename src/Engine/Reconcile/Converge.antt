-- ===== src/Engine/Reconcile/Converge.antt =====
-- One round between the server and a worker: after the batch of its commands, the next
-- synchronisation has no command.
use inferna_next.Base.{
  ==_iff, Bool, Bool-cases, List, Option, Option-cases, [], ap, false, inl, inr, none, refl, some,
  subst, sym, true, ℕ, ◌++◌, ◌==◌, ◌||◌, ◌∙◌, ◌∷◌, ◌≡◌, ◌≢◌, ◌≤◌, ◌⊎◌,
}
use inferna_next.Base.Dict.{dict_get, dict_keys}
use inferna_next.Base.Member.{Distinct, In, In-append_cases, In-append_left, In-append_right}
use inferna_next.Models.{ModelInstance}
use inferna_next.Workers.{on_worker}
use inferna_next.Workers.Sync.{
  Command, InstanceStatus, command_for, delete, delete_commands, is_known, report_of, row_commands,
  start, stop,
}
use inferna_next.Workers.Sync.Commands.{IsSettled, command_for_iff}
use inferna_next.Workers.Sync.Sources.{
  IsOfRow, IsRowOf-row_commands, IsUnknown, IsUnknown-delete_commands, command_for-IsOfRow,
  delete_commands-IsUnknown, row_commands-IsRowOf, row_ids, row_ids-injective,
}
use inferna_next.Engine.{WorkerSettings}
use inferna_next.Engine.Manager.{Docker, Info, Manager, apply_command, start_sync, stop_sync}
use inferna_next.Engine.Manager.Effects.{
  IsHalted, IsStarted, delete_sync-none, start_sync-IsStartOf, stop_sync-IsHalted,
}
use inferna_next.Engine.Reconcile.{reports, run_batch}
use inferna_next.Engine.Reconcile.Reports.{IsSettledInfo, get-reports, reports_iff, status_of}
use inferna_next.Engine.Reconcile.Settle.{about, batch-brings}

pub known_row :
    (worker : ℕ) (i : ModelInstance) (is : List ModelInstance) (s : InstanceStatus)
    → In i is
    → on_worker worker i ≡ true
    → s.instance_id ≡ some i.id
    → is_known worker is s ≡ true
known_row worker i [] s m on e = absurd m
known_row worker i (j ∷ is) s (inl h) on e =
    let self = (==_iff i.id i.id).1 refl in rw (← h, on, e, self) refl
known_row worker i (j ∷ is) s (inr m) on e = rw (known_row worker i is s m on e) (or_true _)
  where
    or_true : (b : Bool) → (b || true) ≡ true
    or_true true = refl
    or_true false = refl

module _ {St : Type 0} (docker : Docker St) (settings : WorkerSettings) (now : ℕ) where
  module _ (worker : ℕ) (is : List ModelInstance) (ss : List InstanceStatus) where
    abbrev pub commands : List Command
    commands = row_commands worker ss is ++ delete_commands worker is ss

    -- A command of the synchronisation is for a row of the worker, or deletes what has no row.
    commands-cases :
        (c : Command)
        → In c commands
        → ((i : ModelInstance) × In i is × (on_worker worker i ≡ true) × IsOfRow i c)
          ⊎ ((s : InstanceStatus) × IsUnknown worker ss is c s)
    commands-cases c m = elim (In-append_cases c (row_commands worker ss is) _ m) [
      | inl r ↦
          let row = row_commands-IsRowOf worker ss is c r in
          inl (row.0, row.1.0, row.1.1, command_for-IsOfRow (report_of row.0.id ss) row.0 c row.1.2)
      | inr d ↦ inr (delete_commands-IsUnknown worker is ss c d)
    ]

    -- A command for a row brings the row to what it asks for.
    row-Brings :
        (i : ModelInstance) (c : Command)
        → IsOfRow i c
        → (m : Manager St)
        → IsSettledInfo (dict_get i.id (apply_command docker settings now c m).instances) i
    unfolding apply_command
    row-Brings i (start k g config) (e, h, on) m = started _ (
        subst
          (λ x. IsStarted g (dict_get x (start_sync docker settings now k g config m).instances)) e
          (start_sync-IsStartOf docker settings now k g config m).0)
      where
        started : (o : Option Info) → IsStarted g o → IsSettledInfo o i
        started none s = absurd s
        started (some t) s =
            ((λ r. (subst (λ x. x ≤ t.generation) h s.0, s.1)), (λ r. absurd (let off = r in cc)))
    row-Brings i (stop k) (e, off) m = halted _ (
        subst (λ x. IsHalted (dict_get x (stop_sync docker settings now k m).instances)) e
          (stop_sync-IsHalted docker settings now k m).0)
      where
        halted : (o : Option Info) → IsHalted o → IsSettledInfo o i
        halted none s = off
        halted (some t) s = ((λ r. absurd (let on = r in cc)), (λ r. ((λ a. cc), (λ b. cc))))
    row-Brings i (delete k) h m = absurd h

    about-IsOfRow : (i : ModelInstance) (c : Command) → IsOfRow i c → about i.id c ≡ true
    about-IsOfRow i (start k g config) (e, h, on) = (==_iff k i.id).1 e
    about-IsOfRow i (stop k) (e, off) = (==_iff k i.id).1 e
    about-IsOfRow i (delete k) h = absurd h

    IsOfRow-about :
        (i : ModelInstance) (id : ℕ) (c : Command) → IsOfRow i c → about id c ≡ true → i.id ≡ id
    IsOfRow-about i id (start k g config) (e, h, on) a = sym e ∙ (==_iff k id).0 a
    IsOfRow-about i id (stop k) (e, off) a = sym e ∙ (==_iff k id).0 a
    IsOfRow-about i id (delete k) h a = absurd h

    about-delete : (o : Option ℕ) (id : ℕ) → about id (delete o) ≡ true → o ≡ some id
    about-delete none id a = cc
    about-delete (some k) id a = ap some ((==_iff k id).0 a)

    -- No row of the worker has the id.
    abbrev HasNoRow : ℕ → Type 0
    HasNoRow id = (i : ModelInstance) → In i is → on_worker worker i ≡ true → i.id ≢ id

    module _ (m : Manager St) (said : ss ≡ reports docker settings now m.instances)
        (keys : Distinct (dict_keys m.instances)) (ids : Distinct (row_ids is)) where
      row_brings :
          (i : ModelInstance)
          → In i is
          → on_worker worker i ≡ true
          → (c : Command) → In c commands
          → about i.id c ≡ true
          → (m' : Manager St)
          → IsSettledInfo (dict_get i.id (apply_command docker settings now c m').instances) i
      row_brings i there on c given a m' = elim (commands-cases c given) [
        | inl row ↦
            let same =
              row_ids-injective row.0 i is ids row.1 there (IsOfRow-about row.0 i.id c row.3 a) in
            row-Brings i c (subst (λ r. IsOfRow r c) same row.3) m'
        | inr unknown ↦
            let s = unknown.0 in
            let told =
              about-delete s.instance_id i.id (subst (λ b. about i.id b ≡ true) unknown.1.2 a) in
            unequal (sym (known_row worker i is s there on told)) unknown.1.1
      ]
        where
          unequal : {A : Type 0} {b : Bool} → true ≡ b → b ≡ false → A
          unequal h k = cc

      row_begun :
          (i : ModelInstance)
          → In i is
          → on_worker worker i ≡ true
          → (cs : List Command) → command_for (report_of i.id ss) i ≡ cs
          → IsSettledInfo (dict_get i.id m.instances) i
            ⊎ ((c : Command) × In c commands × (about i.id c ≡ true))
      row_begun i there on [] e =
          let settled = (command_for_iff (report_of i.id ss) i).0 e in
          inl (
            (reports_iff docker settings now m.instances i keys).0
              (subst (λ r. IsSettled (report_of i.id r) i) said settled))
      row_begun i there on (c ∷ cs) e =
          let given : In c (command_for (report_of i.id ss) i) = rw e (inl refl) in
          inr (
            c,
            In-append_left c (row_commands worker ss is) _
                (IsRowOf-row_commands worker ss is c i (there, on, given)),
            about-IsOfRow i c (command_for-IsOfRow (report_of i.id ss) i c given),
          )

      -- After the batch each row of the worker is settled.
      pub row_settled :
          (i : ModelInstance)
          → In i is
          → on_worker worker i ≡ true
          → IsSettledInfo (dict_get i.id (run_batch docker settings now commands m).instances) i
      row_settled i there on =
          batch-brings docker settings now (λ o. IsSettledInfo o i) i.id commands m
            (row_brings i there on) (row_begun i there on _ refl)

      unknown_brings :
          (id : ℕ)
          → HasNoRow id
          → (c : Command) → In c commands
          → about id c ≡ true
          → (m' : Manager St)
          → dict_get id (apply_command docker settings now c m').instances ≡ none
      unfolding apply_command
      unknown_brings id no_row c given a m' = elim (commands-cases c given) [
        | inl row ↦ absurd (no_row row.0 row.1 row.2 (IsOfRow-about row.0 id c row.3 a))
        | inr unknown ↦
            let deleted = unknown.1.2 in
            let told =
              about-delete (unknown.0).instance_id id (subst (λ b. about id b ≡ true) deleted a) in
            subst (λ b. dict_get id (apply_command docker settings now b m').instances ≡ none)
              (sym (deleted ∙ ap delete told)) (delete_sync-none docker settings now id m').0
      ]

      unknown_row :
          (id : ℕ) (s : InstanceStatus) (js : List ModelInstance)
          → ((i : ModelInstance) → In i js → on_worker worker i ≡ true → i.id ≢ id)
          → s.instance_id ≡ some id
          → is_known worker js s ≡ false
      unknown_row id s [] no_row e = refl
      unknown_row id s (j ∷ js) no_row e =
          let rest = unknown_row id s js (λ i there. no_row i (inr there)) e in
          elim (Bool-cases (on_worker worker j)) [
            | inr off ↦ rw (off, rest) refl
            | inl on ↦ elim (Bool-cases (id == j.id)) [
              | inl same ↦ absurd (no_row j (inl refl) on (sym ((==_iff id j.id).0 same)))
              | inr other ↦ rw (on, e, other, rest) refl
            ]
          ]

      -- After the batch an instance without a row is not tracked.
      pub unknown_gone :
          (id : ℕ)
          → HasNoRow id
          → dict_get id (run_batch docker settings now commands m).instances ≡ none
      unknown_gone id no_row =
          batch-brings docker settings now (λ o. o ≡ none) id commands m (unknown_brings id no_row)
            (elim (Option-cases (dict_get id m.instances)) [
              | inl e ↦ inl e
              | inr (t, e) ↦
                  let told =
                    subst (λ r. In (status_of id t) r) (sym said)
                      (get-reports docker settings now id t m.instances e) in
                  inr (
                    delete (some id),
                    In-append_right (delete (some id)) (row_commands worker ss is) _ (
                        IsUnknown-delete_commands worker is ss (delete (some id)) (status_of id t)
                          (told, unknown_row id (status_of id t) is no_row refl, refl)),
                    (==_iff id id).1 refl,
                  )
            ])
