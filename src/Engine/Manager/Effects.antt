-- ===== src/Engine/Manager/Effects.antt =====
-- What one command leaves of the records of the instances, whatever the daemon answers.
use inferna_next.Base.{
  ==_iff, Bool, Bool-cases, List, Option, Option-cases, [], arith, false, filter, if◌then◌else◌,
  inl, inr, leb, none, not, refl, some, subst, sym, true, ℕ, ◌&&◌, ◌==◌, ◌∙◌, ◌≡◌, ◌≢◌, ◌≤◌,
}
use inferna_next.Base.Text.{Text}
use inferna_next.Base.Strings.{is_empty}
use inferna_next.Base.Dict.{
  dict_get, dict_get-dict_pop, dict_get-dict_set, dict_keys, dict_pop-Distinct, dict_set,
  dict_set-Distinct,
}
use inferna_next.Base.Member.{Distinct}
use inferna_next.Base.Results.{Result-cases}
use inferna_next.Models.{InstanceState, error, starting}
use inferna_next.Workers.Config.{EngineConfig}
use inferna_next.Engine.{WorkerSettings, build_command, from_config, image_for}
use inferna_next.Engine.Manager.{
  ContainerSpec, Docker, Info, Manager, container_spec, create_and_start, delete_sync, image_pulled,
  info_of, is_active, is_applied, is_replaced, launch, pull_image, raised, run_container,
  start_sync, stop_sync, timed_out,
}

-- The instance is tracked with at least this generation, and is not stopped.
abbrev pub IsStarted : ℕ → Option Info → Type 0
IsStarted generation none = ⊥
IsStarted generation (some i) = (generation ≤ i.generation) × (i.state ≢ InstanceState.stopped)

abbrev pub Records : Type 0
Records = List (ℕ × Info)

-- Nothing but the record of `id` differs, and keys stay unique.
abbrev pub IsOnly : ℕ → Records → Records → Type 0
IsOnly id rows rows' =
    ((j : ℕ) → (j == id) ≡ false → dict_get j rows' ≡ dict_get j rows)
    × (Distinct (dict_keys rows) → Distinct (dict_keys rows'))

-- A start command was carried out for `id` alone.
abbrev pub IsStartOf : ℕ → ℕ → Records → Records → Type 0
IsStartOf id generation rows rows' = IsStarted generation (dict_get id rows') × IsOnly id rows rows'

put_self : (id : ℕ) (i : Info) (rows : Records) → dict_get id (dict_set id i rows) ≡ some i
put_self id i rows = dict_get-dict_set id id i rows ∙ rw ((==_iff id id).1 refl) refl

put_other : (id : ℕ) (i : Info) (rows : Records) → IsOnly id rows (dict_set id i rows)
put_other id i rows =
    ((λ j other. dict_get-dict_set id j i rows ∙ rw other refl), dict_set-Distinct id i rows)

put-IsStartOf :
    (id generation : ℕ) (i : Info) (rows rows' : Records)
    → generation ≤ i.generation
    → i.state ≢ InstanceState.stopped
    → rows' ≡ rows
    → IsStartOf id generation rows (dict_set id i rows')
put-IsStartOf id generation i rows rows' le alive same = (
  subst (IsStarted generation) (sym (put_self id i rows')) (le, alive),
  subst (λ r. IsOnly id r (dict_set id i rows')) same (put_other id i rows'),
)

-- The instance is not tracked, or it is stopped.
abbrev pub IsHalted : Option Info → Type 0
IsHalted none = Unit
IsHalted (some i) = i.state ≡ InstanceState.stopped

module _ {St : Type 0} (docker : Docker St) (settings : WorkerSettings) (now : ℕ) where
  error_alive : error ≢ InstanceState.stopped
  error_alive e = cc

  starting_alive : starting ≢ InstanceState.stopped
  starting_alive e = cc

  failed-IsStartOf :
      (id generation : ℕ) (c : EngineConfig) (detail : Text) (rows rows' : Records)
      → rows' ≡ rows
      → IsStartOf id generation rows
          (dict_set id (info_of error c.port detail now generation none) rows')
  failed-IsStartOf id generation c detail rows rows' same =
      put-IsStartOf id generation (info_of error c.port detail now generation none) rows rows'
        (omega arith) error_alive same

  run_container-instances :
      (spec : ContainerSpec) (m : Manager St)
      → (run_container docker settings now spec m).1.instances ≡ m.instances
  unfolding run_container
  run_container-instances spec m = elim (Result-cases (docker.create spec m.docker).0) [
    | inl (e, h) ↦ rw (run_container, h)
    | inr (u, h) ↦ rw (run_container, h)
  ]

  pull_image-instances :
      (image : Text) (m : Manager St)
      → (pull_image docker settings now image m).1.instances ≡ m.instances
  unfolding pull_image
  pull_image-instances image m = elim (Bool-cases (image_pulled image m.pulled_images)) [
    | inl there ↦ rw (pull_image, there)
    | inr new ↦ elim (Result-cases (docker.pull image m.docker).0) [
      | inl (e, h) ↦ rw (pull_image, new, h)
      | inr (u, h) ↦ rw (pull_image, new, h)
    ]
  ]

  launch-IsStartOf :
      (id generation : ℕ) (c : EngineConfig) (image : Text) (rows : Records) (m' : Manager St)
      → m'.instances ≡ rows
      → IsStartOf id generation rows (launch docker settings now id generation c image m').instances
  unfolding launch
  launch-IsStartOf id generation c image rows m' same =
      elim (Option-cases (build_command c (from_config c) c.port)) [
        | inl e ↦ rw (launch, e) (failed-IsStartOf id generation c _ rows _ same)
        | inr (command, e) ↦
            let spec =
              container_spec docker settings now id generation c (from_config c) image command in
            let kept = run_container-instances spec m' ∙ same in
            elim (Result-cases (run_container docker settings now spec m').0) [
              | inl (text, h) ↦ rw (launch, e, h) (failed-IsStartOf id generation c _ rows _ kept)
              | inr (u, h) ↦
                  rw (launch, e, h)
                    (put-IsStartOf id generation _ rows _ (omega arith) starting_alive kept)
            ]
      ]

  create-IsStartOf :
      (id generation : ℕ) (c : EngineConfig) (rows : Records) (m' : Manager St)
      → m'.instances ≡ rows
      → IsStartOf id generation rows
          (create_and_start docker settings now id generation c m').instances
  unfolding create_and_start
  create-IsStartOf id generation c rows m' same =
      let m1 = record m' { probes = filter (λ k. not (k == id)) m'.probes } in
      elim (Option-cases (image_for c.engine settings)) [
        | inl e ↦ rw (create_and_start, e) (failed-IsStartOf id generation c _ rows _ same)
        | inr (image, e) ↦
            let kept = pull_image-instances image m1 ∙ same in
            elim (Result-cases (pull_image docker settings now image m1).0) [
              | inr (u, h) ↦
                  rw (create_and_start, e, h)
                    (launch-IsStartOf id generation c image rows
                      (pull_image docker settings now image m1).1 kept)
              | inl (timed_out, h) ↦
                  rw (create_and_start, e, h) (failed-IsStartOf id generation c _ rows _ kept)
              | inl (raised text, h) ↦
                  rw (create_and_start, e, h) (failed-IsStartOf id generation c _ rows _ kept)
            ]
      ]

  applied-IsStarted :
      (generation : ℕ) (o : Option Info)
      → is_applied docker settings now generation o ≡ true
      → IsStarted generation o
  unfolding is_applied
  applied-IsStarted generation none h = cc
  applied-IsStarted generation (some t) h = (ground arith, alive t.state (active_of t.state h))
    where
      active_of :
          (s : InstanceState)
          → (is_active s && leb generation t.generation) ≡ true
          → is_active s ≡ true
      active_of s h = ground arith

      alive : (s : InstanceState) → is_active s ≡ true → s ≢ InstanceState.stopped
      alive s h e = cc

  cleared_instances :
      (id generation : ℕ) (m : Manager St) (b : Bool)
      → (if b then record m { docker = (docker.remove id m.docker).1 } else m).instances
        ≡ m.instances
  cleared_instances id generation m true = refl
  cleared_instances id generation m false = refl

  -- A start command leaves its instance tracked with at least the command's generation and not
  -- stopped, whatever the daemon answers, and touches the record of no other instance.
  pub start_sync-IsStartOf :
      (id generation : ℕ) (c : EngineConfig) (m : Manager St)
      → IsStartOf id generation m.instances
          (start_sync docker settings now id generation c m).instances
  unfolding start_sync
  start_sync-IsStartOf id generation c m =
      let tracked = dict_get id m.instances in
      let kept =
        cleared_instances id generation m (is_replaced docker settings now generation tracked) in
      elim (Bool-cases (is_applied docker settings now generation tracked)) [
        | inl done ↦
            rw (start_sync, done)
              (applied-IsStarted generation tracked done, ((λ j other. refl), (λ d. d)))
        | inr todo ↦ elim (Bool-cases (c.requires_hf_token && is_empty settings.hf_token)) [
          | inl no_token ↦
              rw (start_sync, todo, no_token)
                (failed-IsStartOf id generation c _ m.instances _ kept)
          | inr token ↦
              rw (start_sync, todo, token) (create-IsStartOf id generation c m.instances _ kept)
        ]
      ]

  pub stop_sync-IsHalted :
      (id : ℕ) (m : Manager St)
      → IsHalted (dict_get id (stop_sync docker settings now id m).instances)
        × IsOnly id m.instances (stop_sync docker settings now id m).instances
  unfolding stop_sync
  stop_sync-IsHalted id m = elim (Option-cases (dict_get id m.instances)) [
    | inl e ↦ rw (stop_sync, e) (rw e tt, ((λ j other. refl), (λ d. d)))
    | inr (t, e) ↦
        rw (stop_sync, e)
          (
            subst IsHalted
                (sym (
                  put_self id (record t { state = InstanceState.stopped; detail = [] })
                    m.instances))
                refl,
            put_other id (record t { state = InstanceState.stopped; detail = [] }) m.instances,
          )
  ]

  pub delete_sync-none :
      (id : ℕ) (m : Manager St)
      → (dict_get id (delete_sync docker settings now id m).instances ≡ none)
        × IsOnly id m.instances (delete_sync docker settings now id m).instances
  unfolding delete_sync
  delete_sync-none id m = (
    dict_get-dict_pop id id m.instances ∙ rw ((==_iff id id).1 refl) refl,
    (
      (λ j other. dict_get-dict_pop id j m.instances ∙ rw other refl),
      dict_pop-Distinct id m.instances,
    ),
  )
