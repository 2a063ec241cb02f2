-- ===== src/Autoscaling/Pass.antt =====
-- The pass for one single-node deployment: when it acts, and what it leaves.
use inferna_next.Base.{
  ==_iff, List, Option, ap, arith, false, refl, some, true, ℕ, ◌+◌, ◌<◌, ◌==◌, ◌∙◌, ◌≡◌, ◌≢◌, ◌≤◌,
  ◌⊎◌,
}
use inferna_next.Base.Member.{Distinct}
use inferna_next.Base.Keys.{keys}
use inferna_next.Base.Results.{ok}
use inferna_next.Base.Dict.{dict_get, dict_get-dict_set, dict_set}
use inferna_next.Models.{Db, Settings}
use inferna_next.Scaling.{Deployment, is_single, replica_units}
use inferna_next.Scaling.Apply.{apply_scale, effective_capacity, target_of}
use inferna_next.Scaling.Capacity.{limbo_units, live_units, row_id}
use inferna_next.Scaling.Outcome.{apply_scale-IsScaled}
use inferna_next.Autoscaling.{
  Action, AutoscaleSettings, Signal, desired_replicas, down, failed, nothing, unit_count, up,
}
use inferna_next.Autoscaling.Policy.{IsBusy, IsIdle, IsSilent}

-- The unit count that the pass wants for the deployment.
abbrev pub wanted : AutoscaleSettings → Signal → Deployment → ℕ
wanted auto signal d = desired_replicas auto (unit_count d) d.min_replicas d.max_replicas signal

-- The last action is at least a cooldown ago, if there was one.
abbrev pub IsWarm : AutoscaleSettings → ℕ → Option ℕ → Type 0
IsWarm auto now last = (t : ℕ) → last ≡ some t → t + auto.cooldown_seconds ≤ now

-- The deployment `e` and the cooldowns `c` after a scale to `n` units that succeeded.
pub record IsMoved (now : ℕ) (cooldown : List (ℕ × ℕ)) (id : ℕ) (d : Deployment) (n : ℕ)
    (e : Deployment) (c : List (ℕ × ℕ)) : Type 0 where
  pub live : live_units e ≡ n + limbo_units d
  pub low : e.min_replicas ≡ d.min_replicas
  pub high : e.max_replicas ≡ d.max_replicas
  pub noted : dict_get id c ≡ some now
  pub others : (k : ℕ) → k ≢ id → dict_get k c ≡ dict_get k cooldown

-- What the pass may do with a deployment in its window.
pub data IsPass (auto : AutoscaleSettings) (now : ℕ) (signal : Signal) (cooldown : List (ℕ × ℕ))
    (id : ℕ) (d : Deployment) : Deployment → List (ℕ × ℕ) → Action → Type 0 where
  content :
      IsSilent signal
        ⊎ ((IsBusy auto signal → d.max_replicas ≤ unit_count d)
            × (IsIdle auto d.min_replicas signal → unit_count d ≤ d.min_replicas))
      → IsPass auto now signal cooldown id d d cooldown nothing
  cooling :
      (t : ℕ)
      → dict_get id cooldown ≡ some t
      → now < t + auto.cooldown_seconds
      → IsPass auto now signal cooldown id d d cooldown nothing
  refused :
      (e : Deployment)
      → IsWarm auto now (dict_get id cooldown)
      → live_units e ≡ effective_capacity (replica_units d) + limbo_units d
      → e.min_replicas ≡ d.min_replicas
      → e.max_replicas ≡ d.max_replicas
      → IsPass auto now signal cooldown id d e cooldown failed
  grew :
      (n : ℕ) (e : Deployment) (c : List (ℕ × ℕ))
      → IsWarm auto now (dict_get id cooldown)
      → IsBusy auto signal
      → n ≡ unit_count d + 1
      → n ≤ d.max_replicas
      → IsMoved now cooldown id d n e c
      → IsPass auto now signal cooldown id d e c (up n)
  shrank :
      (n : ℕ) (e : Deployment) (c : List (ℕ × ℕ))
      → IsWarm auto now (dict_get id cooldown)
      → IsIdle auto d.min_replicas signal
      → unit_count d ≡ n + 1
      → d.min_replicas ≤ n
      → IsMoved now cooldown id d n e c
      → IsPass auto now signal cooldown id d e c (down n)

module _ (auto : AutoscaleSettings) (cfg : Settings) (uuid4 : ℕ → ℕ) (now : ℕ) (db : Db)
    (signal : Signal) (cooldown : List (ℕ × ℕ)) (id : ℕ) (d : Deployment)
    (unique : Distinct (keys row_id d.instances)) (single : is_single d ≡ true)
    (low : d.min_replicas ≤ unit_count d) (high : unit_count d ≤ d.max_replicas) where
  abbrev Passed : Deployment × List (ℕ × ℕ) × Action → Type 0
  Passed r = IsPass auto now signal cooldown id d r.0 r.1 r.2

  clamped : (n : ℕ) → d.min_replicas ≤ n → n ≤ d.max_replicas → target_of d n false ≡ n
  unfolding target_of
  clamped n a b = omega arith

  moved :
      (n : ℕ) (e : Deployment)
      → d.min_replicas ≤ n
      → n ≤ d.max_replicas
      → apply_scale cfg uuid4 now db d n false ≡ ok e
      → IsMoved now cooldown id d n e (dict_set id now cooldown)
  moved n e a b done =
      let r = apply_scale-IsScaled cfg uuid4 now db d unique n false e single done in
      record {
        live = r.0 ∙ ap (λ m. m + limbo_units d) (clamped n a b);
        low = r.1;
        high = r.2;
        noted = dict_get-dict_set id id now cooldown ∙ rw ((==_iff id id).1 refl) refl;
        others = λ k h. dict_get-dict_set id k now cooldown ∙ rw (apart k h) refl;
      }
    where
      apart : (k : ℕ) → k ≢ id → (k == id) ≡ false
      apart k h = ground arith
