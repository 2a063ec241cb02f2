-- ===== src/Engine/Reconcile/Settle.antt =====
-- The loop between the server and a worker: the commands of one synchronisation settle the worker.
use inferna_next.Base.{
  Bool, Bool-cases, List, Option, Option-cases, [], ap, arith, false, inl, inr, none, refl, some,
  subst, sym, true, ℕ, ◌==◌, ◌∷◌, ◌≡◌, ◌⊎◌,
}
use inferna_next.Base.Dict.{dict_get, dict_keys}
use inferna_next.Base.Member.{Distinct, In}
use inferna_next.Base.Sorting.{In-of_sort_by, In-sort_by, sort_by}
use inferna_next.Base.Results.{Result-cases}
use inferna_next.Workers.Sync.{Command, delete, start, stop}
use inferna_next.Engine.{WorkerSettings}
use inferna_next.Engine.Manager.{Docker, Info, Manager, apply_command}
use inferna_next.Engine.Manager.Effects.{delete_sync-none, start_sync-IsStartOf, stop_sync-IsHalted}
use inferna_next.Engine.Reconcile.{apply_commands, command_id, ordered, remove_stale, run_batch}

abbrev pub about : ℕ → Command → Bool
about id c = elim (command_id c) [ none ↦ false | some k ↦ k == id ]

flip : (a b : ℕ) (v : Bool) → (a == b) ≡ v → (b == a) ≡ v
flip a b true e = ground arith
flip a b false e = ground arith

module _ {St : Type 0} (docker : Docker St) (settings : WorkerSettings) (now : ℕ) where
  -- Only the record that the command is about changes.
  command-Only :
      (c : Command) (m : Manager St) (id : ℕ)
      → about id c ≡ false
      → dict_get id (apply_command docker settings now c m).instances ≡ dict_get id m.instances
  unfolding apply_command
  command-Only (start k g c) m id e =
      (start_sync-IsStartOf docker settings now k g c m).1.0 id (flip k id false e)
  command-Only (stop k) m id e =
      (stop_sync-IsHalted docker settings now k m).1.0 id (flip k id false e)
  command-Only (delete (some k)) m id e =
      (delete_sync-none docker settings now k m).1.0 id (flip k id false e)
  command-Only (delete none) m id e = refl

  command-Distinct :
      (c : Command) (m : Manager St)
      → Distinct (dict_keys m.instances)
      → Distinct (dict_keys (apply_command docker settings now c m).instances)
  unfolding apply_command
  command-Distinct (start k g c) m d = (start_sync-IsStartOf docker settings now k g c m).1.1 d
  command-Distinct (stop k) m d = (stop_sync-IsHalted docker settings now k m).1.1 d
  command-Distinct (delete (some k)) m d = (delete_sync-none docker settings now k m).1.1 d
  command-Distinct (delete none) m d = d

  pub commands-Distinct :
      (cs : List Command) (m : Manager St)
      → Distinct (dict_keys m.instances)
      → Distinct (dict_keys (apply_commands docker settings now cs m).instances)
  unfolding apply_commands
  commands-Distinct [] m d = d
  commands-Distinct (c ∷ cs) m d = commands-Distinct cs _ (command-Distinct c m d)

  -- The command brings the record of `id` to `Q` from any state.
  abbrev Brings : (Option Info → Type 0) → ℕ → Command → Type 0
  Brings Q id c =
      about id c ≡ true
      → (m : Manager St) → Q (dict_get id (apply_command docker settings now c m).instances)

  pub commands-bring :
      (Q : Option Info → Type 0) (id : ℕ) (cs : List Command) (m : Manager St)
      → ((c : Command) → In c cs → Brings Q id c)
      → Q (dict_get id m.instances) ⊎ ((c : Command) × In c cs × (about id c ≡ true))
      → Q (dict_get id (apply_commands docker settings now cs m).instances)
  unfolding apply_commands
  commands-bring Q id [] m h (inl q) = q
  commands-bring Q id [] m h (inr (c, i, e)) = absurd i
  commands-bring Q id (c ∷ cs) m h begun = elim (Bool-cases (about id c)) [
    | inl e ↦ commands-bring Q id cs _ (λ b i. h b (inr i)) (inl (h c (inl refl) e m))
    | inr e ↦ commands-bring Q id cs _ (λ b i. h b (inr i)) (passed begun e)
  ]
    where
      unequal : {x y : Bool} → x ≡ y → x ≡ true → y ≡ false → ⊥
      unequal a b c = cc

      passed :
          Q (dict_get id m.instances) ⊎ ((b : Command) × In b (c ∷ cs) × (about id b ≡ true))
          → about id c ≡ false
          → Q (dict_get id (apply_command docker settings now c m).instances)
            ⊎ ((b : Command) × In b cs × (about id b ≡ true))
      passed (inl q) e = inl (subst Q (sym (command-Only c m id e)) q)
      passed (inr (b, inl i, k)) e = absurd (unequal (ap (about id) i) k e)
      passed (inr (b, inr i, k)) e = inr (b, i, k)

  remove_stale-instances :
      (ids : List ℕ) (m : Manager St)
      → (remove_stale docker settings now ids m).instances ≡ m.instances
  unfolding remove_stale
  remove_stale-instances [] m = refl
  remove_stale-instances (id ∷ ids) m = elim (Option-cases (dict_get id m.instances)) [
    | inr (i, e) ↦ rw (remove_stale, e) (remove_stale-instances ids m)
    | inl e ↦ elim (Result-cases (docker.remove id m.docker).0) [
      | inl (x, h) ↦ rw (remove_stale, e, h)
      | inr (u, h) ↦
          rw (remove_stale, e, h)
            (remove_stale-instances ids (record m { docker = (docker.remove id m.docker).1 }))
    ]
  ]

  pub run_batch-instances :
      (cs : List Command) (m : Manager St)
      → (run_batch docker settings now cs m).instances
        ≡ (apply_commands docker settings now (sort_by (ordered m.instances) cs) m).instances
  unfolding run_batch
  run_batch-instances cs m = remove_stale-instances _ _

  -- A batch brings a record to `Q` if its commands about the instance do, in any order.
  pub batch-brings :
      (Q : Option Info → Type 0) (id : ℕ) (cs : List Command) (m : Manager St)
      → ((c : Command) → In c cs → Brings Q id c)
      → Q (dict_get id m.instances) ⊎ ((c : Command) × In c cs × (about id c ≡ true))
      → Q (dict_get id (run_batch docker settings now cs m).instances)
  batch-brings Q id cs m h begun =
      subst (λ r. Q (dict_get id r)) (sym (run_batch-instances cs m))
        (commands-bring Q id (sort_by (ordered m.instances) cs) m
          (λ c i. h c (In-of_sort_by (ordered m.instances) c cs i)) (sorted begun))
    where
      sorted :
          Q (dict_get id m.instances) ⊎ ((c : Command) × In c cs × (about id c ≡ true))
          → Q (dict_get id m.instances)
            ⊎ ((c : Command) × In c (sort_by (ordered m.instances) cs) × (about id c ≡ true))
      sorted (inl q) = inl q
      sorted (inr (c, i, e)) = inr (c, In-sort_by (ordered m.instances) c cs i, e)
