-- ===== src/Autoscaling.antt =====
-- The autoscaler's policy and its pass (server/inferna_server/services/autoscaling.py). Signals and
-- targets are whole numbers of one unit, and the scale-down ratio is a fraction. `read_signal`, which
-- reads the metrics of the process, is a parameter of the pass.
pub mod Policy
pub mod Pass
use inferna_next.Base.{
  Bool, List, Option, [], false, filter, if◌then◌else◌, leb, length, ltb, max, min, none, some, suc,
  true, ℕ, ◌&&◌, ◌*◌, ◌+◌, ◌-◌, ◌==◌, ◌||◌, ◌∷◌,
}
use inferna_next.Base.Member.{elem}
use inferna_next.Base.Results.{err, ok}
use inferna_next.Base.Dict.{dict_get, dict_set}
use inferna_next.Models.{Db, ModelInstance, Settings, is_run}
use inferna_next.Scaling.{Deployment, is_single, unit_key}
use inferna_next.Scaling.Apply.{apply_scale, failed_scale}

pub record Signal : Type 0 where
  pub ttft_p95_ms : Option ℕ
  pub queue_per_replica : Option ℕ
  pub serving_replicas : ℕ

-- The settings of the policy; the ratio is `ratio_num / ratio_den`.
pub record AutoscaleSettings : Type 0 where
  pub cooldown_seconds : ℕ
  pub target_ttft_ms : ℕ
  pub target_queue : ℕ
  pub ratio_num : ℕ
  pub ratio_den : ℕ

-- `value is not None and value > target`
abbrev pub is_above : Option ℕ → ℕ → Bool
is_above none target = false
is_above (some value) target = ltb target value

-- `value is None or value < target * ratio`
abbrev pub is_low : AutoscaleSettings → Option ℕ → ℕ → Bool
is_low cfg none target = true
is_low cfg (some value) target = ltb (value * cfg.ratio_den) (target * cfg.ratio_num)

abbrev pub is_absent : Option ℕ → Bool
is_absent none = true
is_absent (some value) = false

unfoldable pub is_busy : AutoscaleSettings → Signal → Bool
is_busy cfg signal =
    is_above signal.ttft_p95_ms cfg.target_ttft_ms
    || is_above signal.queue_per_replica cfg.target_queue

unfoldable pub is_idle : AutoscaleSettings → ℕ → Signal → Bool
is_idle cfg minimum signal =
    is_low cfg signal.ttft_p95_ms cfg.target_ttft_ms
    && (is_low cfg signal.queue_per_replica cfg.target_queue && leb minimum signal.serving_replicas)

unfoldable pub no_data : Signal → Bool
no_data signal = is_absent signal.ttft_p95_ms && is_absent signal.queue_per_replica

unfoldable pub desired_replicas : AutoscaleSettings → ℕ → ℕ → ℕ → Signal → ℕ
unfolding is_busy is_idle no_data
desired_replicas cfg current minimum maximum signal =
    if no_data signal
    then current
    else if is_busy cfg signal && ltb current maximum
    then min maximum (current + 1)
    else if is_idle cfg minimum signal && ltb minimum current
    then max minimum (current - 1)
    else current

-- The number of different keys.
unfoldable pub distinct_count : List ℕ → ℕ
distinct_count [] = 0
distinct_count (k ∷ ks) = if elem k ks then distinct_count ks else suc (distinct_count ks)

unfoldable pub keys_of : List ModelInstance → List ℕ
unfolding unit_key
keys_of [] = []
keys_of (i ∷ is) = unit_key false i ∷ keys_of is

-- `_unit_count`
unfoldable pub unit_count : Deployment → ℕ
unfolding distinct_count keys_of
unit_count d =
    let live = filter (λ i. is_run i.desired_state) d.instances in
    if is_single d then length live else distinct_count (keys_of live)

-- `now - last < settings.autoscale_cooldown_seconds`, when there was a last action.
abbrev pub is_cooling : AutoscaleSettings → ℕ → Option ℕ → Bool
is_cooling cfg now none = false
is_cooling cfg now (some last) = ltb now (last + cfg.cooldown_seconds)

pub data Action : Type 0 where
  nothing failed : Action
  up down : ℕ → Action

-- The body of the loop for one deployment with the id `id`: the deployment as the session has it, the
-- cooldown dict and what was done. A failed scale is noted, and is not rolled back.
unfoldable pub tick_one :
    AutoscaleSettings
    → Settings
    → (ℕ → ℕ)
    → ℕ
    → Db
    → Signal
    → List (ℕ × ℕ)
    → ℕ
    → Deployment
    → Deployment × List (ℕ × ℕ) × Action
unfolding desired_replicas unit_count apply_scale failed_scale dict_get dict_set
tick_one auto cfg uuid4 now db signal cooldown id d =
    let units = unit_count d in
    let target = desired_replicas auto units d.min_replicas d.max_replicas signal in
    if target == units || is_cooling auto now (dict_get id cooldown)
    then (d, cooldown, nothing)
    else elim (apply_scale cfg uuid4 now db d target false) [
      | err e ↦ (failed_scale cfg uuid4 now db d target false, cooldown, failed)
      | ok scaled_d ↦
          (scaled_d, dict_set id now cooldown, if ltb units target then up target else down target)
    ]
