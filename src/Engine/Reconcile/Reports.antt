-- ===== src/Engine/Reconcile/Reports.antt =====
-- The reports of the manager, by instance.
use inferna_next.Base.{
  ==_iff, Bool-cases, Option, [], ap, arith, false, if◌then◌else◌, inl, inr, none, not, refl, some,
  subst, sym, true, ℕ, ◌&&◌, ◌==◌, ◌||◌, ◌↔◌, ◌∙◌, ◌∷◌, ◌≡◌, ◌≢◌, ◌≤◌,
}
use inferna_next.Base.Strings.{is_empty}
use inferna_next.Base.Dict.{dict_get, dict_keys}
use inferna_next.Base.Member.{Distinct, In, elem}
use inferna_next.Models.{InstanceState, ModelInstance, is_error, is_run, running, starting}
use inferna_next.Workers.Sync.{InstanceStatus, report_of}
use inferna_next.Workers.Sync.Commands.{IsSettled}
use inferna_next.Engine.{WorkerSettings}
use inferna_next.Engine.Manager.{Docker, Info, Manager, is_active}
use inferna_next.Engine.Manager.Effects.{Records}
use inferna_next.Engine.Reconcile.{refresh_logs, refreshed, reports, statuses}

-- The report of a record.
abbrev pub status_of : ℕ → Info → InstanceStatus
status_of id i = record {
  instance_id = some id;
  state = i.state;
  generation = i.generation;
  detail = i.detail;
  log_tail = i.log_tail;
  port = i.port;
}

abbrev pub map_option : {A B : Type 0} → (A → B) → Option A → Option B
map_option f none = none
map_option f (some a) = some (f a)

-- The record asks for no command for the row.
abbrev pub IsSettledInfo : Option Info → ModelInstance → Type 0
IsSettledInfo none row = is_run row.desired_state ≡ false
IsSettledInfo (some t) row =
    (is_run row.desired_state ≡ true
      → (row.generation ≤ t.generation) × (t.state ≢ InstanceState.stopped))
    × (is_run row.desired_state ≡ false → (t.state ≢ starting) × (t.state ≢ running))

module _ {St : Type 0} (docker : Docker St) (settings : WorkerSettings) (now : ℕ) where
  report_none :
      (id : ℕ) (rows : Records)
      → elem id (dict_keys rows) ≡ false
      → report_of id (reports docker settings now rows) ≡ none
  unfolding report_of reports
  report_none id [] h = refl
  report_none id ((j, i) ∷ rows) h =
      let ne : (j == id) ≡ false = ground arith in rw (report_none id rows (ground arith), ne)

  pub report_of-reports :
      (id : ℕ) (rows : Records)
      → Distinct (dict_keys rows)
      → report_of id (reports docker settings now rows)
        ≡ map_option (status_of id) (dict_get id rows)
  unfolding report_of reports dict_get
  report_of-reports id [] d = refl
  report_of-reports id ((j, i) ∷ rows) d = elim (Bool-cases (j == id)) [
    | inl e ↦
        let same = (==_iff j id).0 e in
        let swap : (id == j) ≡ true = ground arith in
        rw (report_none id rows (subst (λ k. elem k (dict_keys rows) ≡ false) same d.0), e, swap)
          (ap (λ k. some (status_of k i)) same)
    | inr e ↦
        let swap : (id == j) ≡ false = ground arith in
        rw (swap, report_of-reports id rows d.1) (plain (dict_get id rows) e)
  ]
    where
      plain :
          (o : Option Info)
          → (j == id) ≡ false
          → elim (map_option (status_of id) o) [
            | some last ↦ some last
            | none ↦ if j == id then some (status_of j i) else none
          ]
            ≡ map_option (status_of id) o
      plain none e = rw e
      plain (some s) e = refl

  pub dict_get-refresh_logs :
      (id : ℕ) (s : St) (rows : Records)
      → dict_get id (refresh_logs docker settings now s rows)
        ≡ map_option (refreshed docker settings now s id) (dict_get id rows)
  unfolding refresh_logs dict_get
  dict_get-refresh_logs id s [] = refl
  dict_get-refresh_logs id s ((j, i) ∷ rows) = elim (Bool-cases (id == j)) [
    | inl e ↦ rw e (ap (λ k. some (refreshed docker settings now s k i)) (sym ((==_iff id j).0 e)))
    | inr e ↦ rw e (dict_get-refresh_logs id s rows)
  ]

  pub keys-refresh_logs :
      (s : St) (rows : Records)
      → dict_keys (refresh_logs docker settings now s rows) ≡ dict_keys rows
  unfolding refresh_logs
  keys-refresh_logs s [] = refl
  keys-refresh_logs s ((j, i) ∷ rows) = ap (◌∷◌ j) (keys-refresh_logs s rows)

  refreshed-keeps :
      (s : St) (id : ℕ) (t : Info)
      → ((refreshed docker settings now s id t).state ≡ t.state)
        × ((refreshed docker settings now s id t).generation ≡ t.generation)
  refreshed-keeps s id t =
      elim (Bool-cases
        ((is_active t.state || is_error t.state) && not (is_empty (docker.log_tail id s)))) [
          | inl e ↦ rw e (refl, refl)
          | inr e ↦ rw e (refl, refl)
        ]

  -- The reports of records say what the records say.
  pub reports_iff :
      (rows : Records) (row : ModelInstance)
      → Distinct (dict_keys rows)
      → IsSettled (report_of row.id (reports docker settings now rows)) row
        ↔ IsSettledInfo (dict_get row.id rows) row
  reports_iff rows row d = rw (report_of-reports row.id rows d) (same (dict_get row.id rows))
    where
      same :
          (o : Option Info) → IsSettled (map_option (status_of row.id) o) row ↔ IsSettledInfo o row
      same none = ((λ h. h), (λ h. h))
      same (some t) = ((λ h. h), (λ h. h))

  -- The reports of a manager say what its records say.
  pub statuses_iff :
      (m : Manager St) (row : ModelInstance)
      → Distinct (dict_keys m.instances)
      → IsSettled (report_of row.id (statuses docker settings now m).0) row
        ↔ IsSettledInfo (dict_get row.id m.instances) row
  unfolding statuses
  statuses_iff m row d =
      let rows = refresh_logs docker settings now m.docker m.instances in
      let keys = subst Distinct (sym (keys-refresh_logs m.docker m.instances)) d in
      rw (report_of-reports row.id rows keys, dict_get-refresh_logs row.id m.docker m.instances)
        (same (dict_get row.id m.instances))
    where
      same :
          (o : Option Info)
          → IsSettled
              (map_option
                (status_of row.id)
                (map_option (refreshed docker settings now m.docker row.id) o))
              row
            ↔ IsSettledInfo o row
      same none = ((λ h. h), (λ h. h))
      same (some t) =
          let kept = refreshed-keeps m.docker row.id t in
          (
            (λ h. (
              (λ r. (
                subst (λ g. row.generation ≤ g) kept.1 (h.0 r).0,
                subst (λ x. x ≢ InstanceState.stopped) kept.0 (h.0 r).1,
              )),
              (λ r. (
                subst (λ x. x ≢ starting) kept.0 (h.1 r).0,
                subst (λ x. x ≢ running) kept.0 (h.1 r).1,
              )),
            )),
            (λ h. (
              (λ r. (
                subst (λ g. row.generation ≤ g) (sym kept.1) (h.0 r).0,
                subst (λ x. x ≢ InstanceState.stopped) (sym kept.0) (h.0 r).1,
              )),
              (λ r. (
                subst (λ x. x ≢ starting) (sym kept.0) (h.1 r).0,
                subst (λ x. x ≢ running) (sym kept.0) (h.1 r).1,
              )),
            )),
          )

  -- A report is of a record.
  pub reports-get :
      (s : InstanceStatus) (rows : Records)
      → In s (reports docker settings now rows)
      → (id : ℕ) × (s.instance_id ≡ some id) × (dict_get id rows ≢ none)
  unfolding reports dict_get
  reports-get s [] m = absurd m
  reports-get s ((j, i) ∷ rows) (inl e) =
      (j, ap (λ r. r.instance_id) e, (λ h. let none_some = rw ((==_iff j j).1 refl) at h in cc))
  reports-get s ((j, i) ∷ rows) (inr m) =
      let r = reports-get s rows m in
      (
        r.0,
        r.1,
        (λ h. elim (Bool-cases (r.0 == j)) [
          | inl e ↦ let none_some = rw e at h in cc
          | inr e ↦ r.2 (rw e at h)
        ]),
      )

  -- Every record is reported.
  pub get-reports :
      (id : ℕ) (t : Info) (rows : Records)
      → dict_get id rows ≡ some t
      → In (status_of id t) (reports docker settings now rows)
  unfolding reports dict_get
  get-reports id t [] h = cc
  get-reports id t ((j, i) ∷ rows) h = elim (Bool-cases (id == j)) [
    | inl e ↦
        let found : some i ≡ some t = rw e at h in
        inl (
          ap (λ k. status_of k t) ((==_iff id j).0 e)
          ∙ ap (status_of j) (sym (ap (λ o. elim o [ none ↦ t | some x ↦ x ]) found)))
    | inr e ↦ inr (get-reports id t rows (rw e at h))
  ]
