-- ===== src/Workers/Sync/Commands.antt =====
-- When a synchronisation has no command for the worker.
use inferna_next.Base.{
  Bool-cases, List, Option, [], arith, false, if◌then◌else◌, inl, inr, ltb, none, not, refl, some,
  true, ℕ, ◌&&◌, ◌++◌, ◌||◌, ◌↔◌, ◌∷◌, ◌≡◌, ◌≢◌, ◌≤◌,
}
use inferna_next.Base.Member.{All}
use inferna_next.Models.{
  InstanceState, ModelInstance, error, is_live, is_run, is_stopped, running, scheduled, starting,
  stopped,
}
use inferna_next.Workers.{on_worker}
use inferna_next.Workers.Config.{config_of}
use inferna_next.Workers.Sync.{
  Command, InstanceStatus, command_for, delete_commands, is_known, is_scheduled, report_of,
  row_commands, start, stop,
}

-- The worker reports of the row what the row asks for.
abbrev pub IsSettled : Option InstanceStatus → ModelInstance → Type 0
IsSettled none i = is_run i.desired_state ≡ false
IsSettled (some s) i =
    (is_run i.desired_state ≡ true → (i.generation ≤ s.generation) × (s.state ≢ stopped))
    × (is_run i.desired_state ≡ false → (s.state ≢ starting) × (s.state ≢ running))

run_settled :
    (n m : ℕ) (st : InstanceState) (i : ModelInstance)
    → ((if ltb n m || is_stopped st then start i.id i.generation (config_of i) ∷ [] else []) ≡ [])
      ↔ ((m ≤ n) × (st ≢ stopped))
run_settled n m scheduled i = ground arith
run_settled n m starting i = ground arith
run_settled n m running i = ground arith
run_settled n m stopped i = ground arith
run_settled n m error i = ground arith

false_true : {A : Type 0} → true ≡ false → A
false_true h = cc

true_false : {A : Type 0} → false ≡ true → A
true_false h = cc

halt_settled :
    (st : InstanceState) (id : ℕ)
    → ((if is_live st && not (is_scheduled st) then stop id ∷ [] else []) ≡ [])
      ↔ ((st ≢ starting) × (st ≢ running))
halt_settled scheduled id = ground arith
halt_settled starting id = ground arith
halt_settled running id = ground arith
halt_settled stopped id = ground arith
halt_settled error id = ground arith

pub command_for_iff :
    (o : Option InstanceStatus) (i : ModelInstance) → (command_for o i ≡ []) ↔ IsSettled o i
unfolding command_for
command_for_iff none i = elim (Bool-cases (is_run i.desired_state)) [
  | inl e ↦ rw e ((λ h. cc), (λ h. cc))
  | inr e ↦ rw e ((λ h. refl), (λ h. refl))
]
command_for_iff (some s) i = elim (Bool-cases (is_run i.desired_state)) [
  | inl e ↦
      let settled = run_settled s.generation i.generation s.state i in
      rw e ((λ h. ((λ t. settled.0 h), false_true)), (λ h. settled.1 (h.0 refl)))
  | inr e ↦
      let settled = halt_settled s.state i.id in
      rw e ((λ h. (true_false, (λ t. settled.0 h))), (λ h. settled.1 (h.1 refl)))
]

append-nil_iff : (xs ys : List Command) → (xs ++ ys ≡ []) ↔ ((xs ≡ []) × (ys ≡ []))
append-nil_iff [] ys = ((λ h. (refl, h)), (λ h. h.1))
append-nil_iff (x ∷ xs) ys = ((λ h. cc), (λ h. let first = h.0 in cc))

-- A row of the worker that is settled, or a row of another one.
abbrev pub IsQuiet : ℕ → List InstanceStatus → ModelInstance → Type 0
IsQuiet worker ss i = on_worker worker i ≡ true → IsSettled (report_of i.id ss) i

row_commands_iff :
    (worker : ℕ) (ss : List InstanceStatus) (is : List ModelInstance)
    → (row_commands worker ss is ≡ []) ↔ All (IsQuiet worker ss) is
unfolding row_commands
row_commands_iff worker ss [] = ((λ h. tt), (λ h. refl))
row_commands_iff worker ss (i ∷ is) = elim (Bool-cases (on_worker worker i)) [
  | inl e ↦
      let both = append-nil_iff (command_for (report_of i.id ss) i) (row_commands worker ss is) in
      let one = command_for_iff (report_of i.id ss) i in
      let rest = row_commands_iff worker ss is in
      rw e (
        (λ h. ((λ t. one.0 (both.0 h).0), rest.0 (both.0 h).1)),
        (λ h. both.1 (one.1 (h.0 refl), rest.1 h.1)),
      )
  | inr e ↦
      let rest = row_commands_iff worker ss is in
      rw e ((λ h. (true_false, rest.0 h)), (λ h. rest.1 h.1))
]

delete_commands_iff :
    (worker : ℕ) (is : List ModelInstance) (ss : List InstanceStatus)
    → (delete_commands worker is ss ≡ []) ↔ All (λ s. is_known worker is s ≡ true) ss
unfolding delete_commands
delete_commands_iff worker is [] = ((λ h. tt), (λ h. refl))
delete_commands_iff worker is (s ∷ ss) = elim (Bool-cases (is_known worker is s)) [
  | inl e ↦
      let rest = delete_commands_iff worker is ss in
      rw e ((λ h. (refl, rest.0 h)), (λ h. rest.1 h.1))
  | inr e ↦ rw e ((λ h. cc), (λ h. true_false h.0))
]

-- A synchronisation has no command exactly if each row of the worker is settled and the worker runs
-- nothing else: a row that is desired to run is reported with its generation and is not stopped, any
-- other row is not reported as starting or running, and every report is about a row of the worker.
pub commands_iff :
    (worker : ℕ) (ss : List InstanceStatus) (is : List ModelInstance)
    → (row_commands worker ss is ++ delete_commands worker is ss ≡ [])
      ↔ (All (IsQuiet worker ss) is × All (λ s. is_known worker is s ≡ true) ss)
commands_iff worker ss is =
    let both = append-nil_iff (row_commands worker ss is) (delete_commands worker is ss) in
    let rows = row_commands_iff worker ss is in
    let deletes = delete_commands_iff worker is ss in
    (
      (λ h. (rows.0 (both.0 h).0, deletes.0 (both.0 h).1)),
      (λ h. both.1 (rows.1 h.0, deletes.1 h.1)),
    )
