-- ===== src/Engine/Reconcile.antt =====
-- The batches of the engine manager, its reports and its start-up sweep (`reconcile`, `_apply_batch`,
-- `statuses` and the sweep of worker/inferna_worker/engines/manager.py).
pub mod Reports
pub mod Settle
pub mod Converge
pub mod Rounds
pub mod Loop
pub mod Order
use inferna_next.Base.{
  Bool, List, Option, [], false, if◌then◌else◌, leb, ltb, map, none, not, some, true, ℕ, ◌&&◌, ◌++◌,
  ◌||◌, ◌∷◌,
}
use inferna_next.Base.Strings.{is_empty}
use inferna_next.Base.Dict.{dict_get, dict_set}
use inferna_next.Base.Sorting.{sort_by}
use inferna_next.Base.Results.{err, ok}
use inferna_next.Models.{is_error}
use inferna_next.Workers.Sync.{Command, InstanceStatus, delete, start, stop}
use inferna_next.Engine.{WorkerSettings}
use inferna_next.Engine.Manager.{Docker, Info, Manager, apply_command, is_active}

abbrev pub is_start : Command → Bool
is_start (start id generation c) = true
is_start _ = false

-- The instance that a command is about.
abbrev pub command_id : Command → Option ℕ
command_id (start id generation c) = some id
command_id (stop id) = some id
command_id (delete id) = id

abbrev pub rank_of : Option Info → ℕ
rank_of none = 0
rank_of (some i) = elim i.node_rank [ none ↦ 0 | some rank ↦ rank ]

-- `(info.get("node_rank") or 0)` of the manager's own record
unfoldable pub tracked_rank : List (ℕ × Info) → Command → ℕ
unfolding dict_get
tracked_rank instances c = elim (command_id c) [
  | none ↦ 0
  | some id ↦ rank_of (dict_get id instances)
]

-- `_order`: starts before the others, and among each the larger rank first.
unfoldable pub ordered : List (ℕ × Info) → Command → Command → Bool
unfolding tracked_rank
ordered instances a b =
    if is_start a
    then not (is_start b) || leb (tracked_rank instances b) (tracked_rank instances a)
    else not (is_start b) && leb (tracked_rank instances b) (tracked_rank instances a)

module _ {St : Type 0} (docker : Docker St) (settings : WorkerSettings) (now : ℕ) where
  unfoldable pub apply_commands : List Command → Manager St → Manager St
  unfolding apply_command
  apply_commands [] m = m
  apply_commands (c ∷ cs) m = apply_commands cs (apply_command docker settings now c m)

  -- `_remove_stale_containers_sync`: an exception ends the sweep.
  unfoldable pub remove_stale : List ℕ → Manager St → Manager St
  unfolding dict_get
  remove_stale [] m = m
  remove_stale (id ∷ ids) m = elim (dict_get id m.instances) [
    | some i ↦ remove_stale ids m
    | none ↦
        let r = docker.remove id m.docker in
        let next = record m { docker = r.1 } in
        let rest = remove_stale ids next in elim r.0 [ err e ↦ next | ok u ↦ rest ]
  ]

  -- `_schedule_pending_probes`: a follower has its own probe, and a port 0 none.
  unfoldable pub probes_for : List (ℕ × Info) → List (ℕ × ℕ) → List ℕ
  unfolding dict_get
  probes_for instances [] = []
  probes_for instances ((id, port) ∷ ps) =
      let rest = probes_for instances ps in
      if ltb 0 (rank_of (dict_get id instances)) || ltb 0 port then id ∷ rest else rest

  abbrev pub schedule_probes : Manager St → Manager St
  schedule_probes m = record m {
    probes = m.probes ++ probes_for m.instances m.pending_probes;
    pending_probes = [];
  }

  -- One run of `_apply_batch`, up to its `finally`.
  unfoldable pub run_batch : List Command → Manager St → Manager St
  unfolding ordered sort_by apply_commands remove_stale probes_for
  run_batch cs m =
      let applied = apply_commands (sort_by (ordered m.instances) cs) m in
      schedule_probes (remove_stale (docker.managed applied.docker) applied)

  -- What the `finally` block leaves: the pending commands are the next batch.
  unfoldable pub end_batch : Manager St → Manager St × List Command
  end_batch m = elim m.pending [
    | [] ↦ (record m { batch = false }, [])
    | p ∷ ps ↦ (record m { batch = true; pending = [] }, map (λ q. q.1) (p ∷ ps))
  ]

  -- `self._pending[cmd.instance_id] = cmd`
  unfoldable pub put_pending : List Command → List (ℕ × Command) → List (ℕ × Command)
  unfolding dict_set
  put_pending [] pending = pending
  put_pending (c ∷ cs) pending = elim (command_id c) [
    | none ↦ put_pending cs pending
    | some id ↦ put_pending cs (dict_set id c pending)
  ]

  -- `reconcile` in real mode: the commands wait while a batch runs, and else are the next batch.
  unfoldable pub reconcile : List Command → Manager St → Manager St × List Command
  unfolding put_pending
  reconcile cs m =
      if m.batch
      then (record m { pending = put_pending cs m.pending }, [])
      else (record m { batch = true }, cs)

  -- The log tail is read anew for an instance that is not stopped; an empty one keeps the old.
  abbrev pub refreshed : St → ℕ → Info → Info
  refreshed s id i =
      if (is_active i.state || is_error i.state) && not (is_empty (docker.log_tail id s))
      then record i { log_tail = docker.log_tail id s }
      else i

  unfoldable pub refresh_logs : St → List (ℕ × Info) → List (ℕ × Info)
  refresh_logs s [] = []
  refresh_logs s ((id, i) ∷ rows) = (id, refreshed s id i) ∷ refresh_logs s rows

  unfoldable pub reports : List (ℕ × Info) → List InstanceStatus
  reports [] = []
  reports ((id, i) ∷ rows) =
      record {
        instance_id = some id;
        state = i.state;
        generation = i.generation;
        detail = i.detail;
        log_tail = i.log_tail;
        port = i.port;
      }
      ∷ reports rows

  -- `statuses` in real mode
  unfoldable pub statuses : Manager St → List InstanceStatus × Manager St
  unfolding refresh_logs reports
  statuses m =
      let rows = refresh_logs m.docker m.instances in (reports rows, record m { instances = rows })
