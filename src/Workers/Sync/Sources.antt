-- ===== src/Workers/Sync/Sources.antt =====
-- Which rows and reports the commands of a synchronisation come from.
use inferna_next.Base.{
  Bool-cases, List, Option, [], ap, arith, false, if◌then◌else◌, inl, inr, ltb, none, not, refl,
  some, subst, sym, true, ℕ, ◌&&◌, ◌||◌, ◌∙◌, ◌∷◌, ◌≡◌,
}
use inferna_next.Base.Member.{Distinct, In, In-append_cases, In-append_left, In-append_right, elem}
use inferna_next.Models.{ModelInstance, is_live, is_run, is_stopped}
use inferna_next.Workers.{on_worker}
use inferna_next.Workers.Sync.{
  Command, InstanceStatus, command_for, delete, delete_commands, is_known, is_scheduled, report_of,
  row_commands, start, stop,
}

abbrev pub row_ids : List ModelInstance → List ℕ
row_ids [] = []
row_ids (i ∷ is) = i.id ∷ row_ids is

row_ids-elem :
    (i : ModelInstance) (is : List ModelInstance) → In i is → elem i.id (row_ids is) ≡ true
row_ids-elem i [] m = absurd m
row_ids-elem i (j ∷ is) (inl e) = let same : i.id ≡ j.id = ap (λ r. r.id) e in ground arith
row_ids-elem i (j ∷ is) (inr m) = let there = row_ids-elem i is m in ground arith

unequal : {A : Type 0} → true ≡ false → A
unequal h = cc

-- A row is determined by its id.
pub row_ids-injective :
    (i j : ModelInstance) (is : List ModelInstance)
    → Distinct (row_ids is)
    → In i is
    → In j is
    → i.id ≡ j.id
    → i ≡ j
row_ids-injective i j [] d a b e = absurd a
row_ids-injective i j (k ∷ is) d (inl a) (inl b) e = a ∙ sym b
row_ids-injective i j (k ∷ is) d (inr a) (inr b) e = row_ids-injective i j is d.1 a b e
row_ids-injective i j (k ∷ is) d (inl a) (inr b) e =
    let there = row_ids-elem j is b in
    let same : j.id ≡ k.id = sym e ∙ ap (λ r. r.id) a in unequal (sym there ∙ rw same d.0)
row_ids-injective i j (k ∷ is) d (inr a) (inl b) e =
    let there = row_ids-elem i is a in
    let same : i.id ≡ k.id = e ∙ ap (λ r. r.id) b in unequal (sym there ∙ rw same d.0)

-- The row is the worker's, and the command is for what is reported of it.
abbrev pub IsRowOf : ℕ → List InstanceStatus → List ModelInstance → Command → ModelInstance → Type 0
IsRowOf worker ss is c i =
    In i is × (on_worker worker i ≡ true) × In c (command_for (report_of i.id ss) i)

pub row_commands-IsRowOf :
    (worker : ℕ) (ss : List InstanceStatus) (is : List ModelInstance) (c : Command)
    → In c (row_commands worker ss is)
    → (i : ModelInstance) × IsRowOf worker ss is c i
unfolding row_commands
row_commands-IsRowOf worker ss [] c m = absurd m
row_commands-IsRowOf worker ss (i ∷ is) c m =
    elim (In-append_cases c (if on_worker worker i then command_for (report_of i.id ss) i else []) _
      m) [
        | inl here ↦ elim (Bool-cases (on_worker worker i)) [
          | inl e ↦ (i, (inl refl, e, rw e at here))
          | inr e ↦ absurd (rw e at here)
        ]
        | inr there ↦
            let r = row_commands-IsRowOf worker ss is c there in (r.0, (inr r.1.0, r.1.1, r.1.2))
      ]

pub IsRowOf-row_commands :
    (worker : ℕ) (ss : List InstanceStatus) (is : List ModelInstance) (c : Command)
    (i : ModelInstance)
    → IsRowOf worker ss is c i
    → In c (row_commands worker ss is)
unfolding row_commands
IsRowOf-row_commands worker ss [] c i (m, e, h) = absurd m
IsRowOf-row_commands worker ss (j ∷ is) c i (inr m, e, h) =
    In-append_right c (if on_worker worker j then command_for (report_of j.id ss) j else []) _
      (IsRowOf-row_commands worker ss is c i (m, e, h))
IsRowOf-row_commands worker ss (j ∷ is) c i (inl m, e, h) =
    In-append_left c (if on_worker worker j then command_for (report_of j.id ss) j else []) _
      (rw (← m, e) h)

-- The report is about no row of the worker.
abbrev pub IsUnknown :
    ℕ → List InstanceStatus → List ModelInstance → Command → InstanceStatus → Type 0
IsUnknown worker ss is c s = In s ss × (is_known worker is s ≡ false) × (c ≡ delete s.instance_id)

pub delete_commands-IsUnknown :
    (worker : ℕ) (is : List ModelInstance) (ss : List InstanceStatus) (c : Command)
    → In c (delete_commands worker is ss)
    → (s : InstanceStatus) × IsUnknown worker ss is c s
unfolding delete_commands
delete_commands-IsUnknown worker is [] c m = absurd m
delete_commands-IsUnknown worker is (s ∷ ss) c m =
    elim (In-append_cases c (if is_known worker is s then [] else delete s.instance_id ∷ []) _ m) [
      | inl here ↦ elim (Bool-cases (is_known worker is s)) [
        | inl e ↦ absurd (rw e at here)
        | inr e ↦ elim (rw e at here) [ inl h ↦ (s, (inl refl, e, h)) | inr h ↦ absurd h ]
      ]
      | inr there ↦
          let r = delete_commands-IsUnknown worker is ss c there in (r.0, (inr r.1.0, r.1.1, r.1.2))
    ]

pub IsUnknown-delete_commands :
    (worker : ℕ) (is : List ModelInstance) (ss : List InstanceStatus) (c : Command)
    (s : InstanceStatus)
    → IsUnknown worker ss is c s
    → In c (delete_commands worker is ss)
unfolding delete_commands
IsUnknown-delete_commands worker is [] c s (m, e, h) = absurd m
IsUnknown-delete_commands worker is (t ∷ ss) c s (inr m, e, h) =
    In-append_right c (if is_known worker is t then [] else delete t.instance_id ∷ []) _
      (IsUnknown-delete_commands worker is ss c s (m, e, h))
IsUnknown-delete_commands worker is (t ∷ ss) c s (inl m, e, h) =
    In-append_left c (if is_known worker is t then [] else delete t.instance_id ∷ []) _
      (rw (← m, e) (inl h))

-- A command for a row starts it with its generation, or stops it.
abbrev pub IsOfRow : ModelInstance → Command → Type 0
IsOfRow i (start k generation config) =
    (k ≡ i.id) × (generation ≡ i.generation) × (is_run i.desired_state ≡ true)
IsOfRow i (stop k) = (k ≡ i.id) × (is_run i.desired_state ≡ false)
IsOfRow i (delete k) = ⊥

pub command_for-IsOfRow :
    (o : Option InstanceStatus) (i : ModelInstance) (c : Command)
    → In c (command_for o i)
    → IsOfRow i c
unfolding command_for
command_for-IsOfRow none i c m = elim (Bool-cases (is_run i.desired_state)) [
  | inl e ↦ elim (rw e at m) [
    | inl h ↦ subst (IsOfRow i) (sym h) (refl, refl, e)
    | inr h ↦ absurd h
  ]
  | inr e ↦ absurd (rw e at m)
]
command_for-IsOfRow (some s) i c m = elim (Bool-cases (is_run i.desired_state)) [
  | inl e ↦ elim (Bool-cases (ltb s.generation i.generation || is_stopped s.state)) [
    | inl go ↦ elim (rw (e, go) at m) [
      | inl h ↦ subst (IsOfRow i) (sym h) (refl, refl, e)
      | inr h ↦ absurd h
    ]
    | inr idle ↦ absurd (rw (e, idle) at m)
  ]
  | inr e ↦ elim (Bool-cases (is_live s.state && not (is_scheduled s.state))) [
    | inl go ↦ elim (rw (e, go) at m) [
      | inl h ↦ subst (IsOfRow i) (sym h) (refl, e)
      | inr h ↦ absurd h
    ]
    | inr idle ↦ absurd (rw (e, idle) at m)
  ]
]
