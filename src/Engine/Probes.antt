-- ===== src/Engine/Probes.antt =====
-- The probes of a started container in real mode (`_health_probe` and `_follower_probe` of
-- worker/inferna_worker/engines/manager.py). What a round of the loop sees is a parameter: the readings
-- of the clock, the answers of the daemon and the answer of the engine. Times are whole seconds.
pub mod Ends
use inferna_next.Base.{
  Bool, List, Option, [], false, if◌then◌else◌, leb, ltb, max, none, not, some, suc, zero, ℕ, ◌&&◌,
  ◌*◌, ◌++◌, ◌+◌, ◌==◌, ◌||◌,
}
use inferna_next.Base.Text.{Text, codes, text_eq}
use inferna_next.Base.Strings.{or_text}
use inferna_next.Base.Dict.{dict_get, dict_set}
use inferna_next.Models.{error, running}
use inferna_next.Engine.Manager.{Info}

-- One round. `before` and `after` are the status of the container, nothing if the call raises;
-- `response` is the HTTP status of the engine, nothing if there is none; `tail` is the end of the logs.
pub record Round : Type 0 where
  pub time : ℕ
  pub seen_at : ℕ
  pub before_status : Option Text
  pub response : Option ℕ
  pub after_status : Option Text
  pub tail : Text

-- What a probe leaves of the record.
pub data ProbeEnd : Type 0 where
  healthy : ProbeEnd
  broken : Text → ProbeEnd

abbrev pub health_probe_interval : ℕ
health_probe_interval = 10

abbrev pub health_probe_timeout : ℕ
health_probe_timeout = 2400

-- `status in ("exited", "dead")`
unfoldable pub has_ended : Option Text → Bool
unfolding text_eq
has_ended none = false
has_ended (some s) = text_eq s (codes "exited") || text_eq s (codes "dead")

-- `tail or f"container {status}"`
abbrev pub exit_detail : Text → Option Text → Text
exit_detail tail status =
    or_text tail (codes "container " ++ elim status [ none ↦ [] | some s ↦ s ])

abbrev pub is_ok : Option ℕ → Bool
is_ok none = false
is_ok (some code) = code == 200

-- The loop of `_health_probe` from round `k` on, with fuel.
unfoldable pub health_probe : (ℕ → Round) → ℕ → ℕ → ℕ → Option ProbeEnd
unfolding has_ended
health_probe rounds deadline zero k = none
health_probe rounds deadline (suc fuel) k =
    let r = rounds k in
    let next = health_probe rounds deadline fuel (k + 1) in
    if not (ltb r.time deadline)
    then some (broken (or_text r.tail (codes "health probe timed out")))
    else if has_ended r.before_status
    then some (broken (exit_detail r.tail r.before_status))
    else if is_ok r.response
    then some healthy
    else if has_ended r.after_status
    then some (broken (exit_detail r.tail r.after_status))
    else next

-- `status == "running"`
unfoldable pub is_up : Option Text → Bool
unfolding text_eq
is_up none = false
is_up (some s) = text_eq s (codes "running")

-- The time since which the container was first seen up, after a round.
abbrev pub stable_from : Option ℕ → Round → Option ℕ
stable_from stable r =
    if is_up r.before_status
    then elim stable [ none ↦ some r.seen_at | some t ↦ some t ]
    else stable

-- The container was seen up before, for long enough.
abbrev pub is_ready : ℕ → Option ℕ → Round → Bool
is_ready ready_after stable r =
    is_up r.before_status && elim stable [ none ↦ false | some t ↦ leb (t + ready_after) r.seen_at ]

-- The loop of `_follower_probe`.
unfoldable pub follower_probe : ℕ → (ℕ → Round) → ℕ → ℕ → ℕ → Option ℕ → Option ProbeEnd
unfolding has_ended is_up
follower_probe ready_after rounds deadline zero k stable = none
follower_probe ready_after rounds deadline (suc fuel) k stable =
    let r = rounds k in
    let next = follower_probe ready_after rounds deadline fuel (k + 1) (stable_from stable r) in
    if not (ltb r.time deadline)
    then some (broken (codes "follower rank did not become ready"))
    else if has_ended r.before_status
    then some (broken (exit_detail r.tail r.before_status))
    else if is_ready ready_after stable r
    then some healthy
    else next

-- `info["state"] = ...; info["detail"] = ...`, for an instance that is still tracked
unfoldable pub end_probe : ℕ → ProbeEnd → List (ℕ × Info) → List (ℕ × Info)
unfolding dict_get dict_set
end_probe id e instances = elim (dict_get id instances) [
  | none ↦ instances
  | some i ↦ elim e [
    | healthy ↦ dict_set id (record i { state = running; detail = [] }) instances
    | broken detail ↦ dict_set id (record i { state = error; detail = detail }) instances
  ]
]

-- The deadlines, from the reading `now` before the loop.
abbrev pub health_deadline : ℕ → ℕ
health_deadline now = now + health_probe_timeout

abbrev pub follower_deadline : ℕ → ℕ → ℕ
follower_deadline ready_after now = now + max (ready_after * 4) health_probe_timeout
