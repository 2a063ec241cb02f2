-- ===== src/Workers/Sync.antt =====
-- One synchronisation of a worker (`sync_worker` of server/inferna_server/services/workers_svc.py).
-- `sha` is sha256_hex. An id that the worker sends is a number if it is the text of an id, and an
-- empty text or the number 0 is a field that it left out.
pub mod Report
pub mod Commands
pub mod Sources
use inferna_next.Base.{
  Bool, List, Option, [], any, drop, false, filter, if◌then◌else◌, length, ltb, none, not, some,
  true, ℕ, ◌&&◌, ◌++◌, ◌-◌, ◌==◌, ◌||◌, ◌∷◌,
}
use inferna_next.Base.Text.{Text, text_eq}
use inferna_next.Base.Results.{Result, ok, or_raise, raise_if, ◌>>=◌, ◌>>◌}
use inferna_next.Models.{
  Db, Gpu, InstanceState, ModelInstance, Worker, connected, is_live, is_run, scheduled, stopped,
}
use inferna_next.Workers.{on_worker}
use inferna_next.Workers.Config.{EngineConfig, config_of}

pub record GpuReport : Type 0 where
  pub index : ℕ
  pub vendor : Text
  pub name : Text
  pub vram_mb : ℕ
  pub used_vram_mb : ℕ
  pub utilization_pct : ℕ
  pub uuid : Text
  pub driver_version : Text

pub record InstanceStatus : Type 0 where
  pub instance_id : Option ℕ
  pub state : InstanceState
  pub generation : ℕ
  pub detail : Text
  pub log_tail : Text
  pub port : ℕ

pub record SyncRequest : Type 0 where
  pub worker_id : Option ℕ
  pub worker_token : Text
  pub os : Text
  pub hostname : Text
  pub cpu_cores : ℕ
  pub memory_mb : ℕ
  pub gpus : List GpuReport
  pub instances : List InstanceStatus

pub data SyncError : Type 0 where
  invalid_worker_id invalid_worker_token : SyncError

pub data Command : Type 0 where
  start : ℕ → ℕ → EngineConfig → Command
  stop : ℕ → Command
  delete : Option ℕ → Command

-- `text or None` and `number or None`
abbrev pub text_or_none : Text → Option Text
text_or_none [] = none
text_or_none (c ∷ t) = some (c ∷ t)

abbrev pub number_or_none : ℕ → Option ℕ
number_or_none n = if n == 0 then none else some n

abbrev pub gpu_of : GpuReport → Gpu
gpu_of r = record {
  index = r.index;
  vendor = r.vendor;
  name = r.name;
  vram_mb = r.vram_mb;
  used_vram_mb = r.used_vram_mb;
  utilization_pct = r.utilization_pct;
  uuid = text_or_none r.uuid;
  driver_version = text_or_none r.driver_version;
}

abbrev pub has_gpu : ℕ → List Gpu → Bool
has_gpu k gs = any (λ g. g.index == k) gs

-- The row of the report's index is written.
unfoldable pub put_gpu : GpuReport → List Gpu → List Gpu
put_gpu r [] = []
put_gpu r (g ∷ gs) = if g.index == r.index then gpu_of r ∷ gs else g ∷ put_gpu r gs

-- The loop over the reports. `existing` are the rows before it: a report of another index adds a row,
-- each time that it occurs.
unfoldable pub put_gpus : List Gpu → List GpuReport → List Gpu → List Gpu
unfolding put_gpu
put_gpus existing [] gs = gs
put_gpus existing (r ∷ rs) gs =
    put_gpus existing rs (if has_gpu r.index existing then put_gpu r gs else gs ++ gpu_of r ∷ [])

abbrev pub is_reported : ℕ → List GpuReport → Bool
is_reported k rs = any (λ r. r.index == k) rs

-- The upsert, and the deletion of the rows that are not reported. With a new index reported twice
-- these are the rows that the commit refuses.
unfoldable pub sync_gpus : List GpuReport → List Gpu → List Gpu
unfolding put_gpus
sync_gpus rs gs = filter (λ g. is_reported g.index rs) (put_gpus gs rs gs)

-- `text[-n:]`
abbrev pub last_chars : ℕ → Text → Text
last_chars n t = drop (length t - n) t

abbrev pub is_about : ℕ → InstanceStatus → Bool
is_about id s = elim s.instance_id [ none ↦ false | some k ↦ k == id ]

unfoldable pub apply_status : InstanceStatus → ModelInstance → ModelInstance
apply_status s i = record i {
  state = s.state;
  error_detail = text_or_none s.detail;
  log_tail = elim (text_or_none s.log_tail) [
    | none ↦ i.log_tail
    | some t ↦ some (last_chars 8192 t)
  ];
  port = elim (number_or_none s.port) [ none ↦ i.port | some p ↦ some p ];
}

-- The statuses about one row, in order.
unfoldable pub apply_statuses : List InstanceStatus → ModelInstance → ModelInstance
unfolding apply_status
apply_statuses [] i = i
apply_statuses (s ∷ ss) i = apply_statuses ss (if is_about i.id s then apply_status s i else i)

unfoldable pub sync_rows : ℕ → List InstanceStatus → List ModelInstance → List ModelInstance
unfolding apply_statuses
sync_rows worker ss [] = []
sync_rows worker ss (i ∷ is) =
    (if on_worker worker i then apply_statuses ss i else i) ∷ sync_rows worker ss is

-- `reported.get(id)`: of several statuses the last one.
unfoldable pub report_of : ℕ → List InstanceStatus → Option InstanceStatus
report_of id [] = none
report_of id (s ∷ ss) = elim (report_of id ss) [
  | some last ↦ some last
  | none ↦ if is_about id s then some s else none
]

abbrev pub is_stopped : InstanceState → Bool
is_stopped stopped = true
is_stopped _ = false

abbrev pub is_scheduled : InstanceState → Bool
is_scheduled scheduled = true
is_scheduled _ = false

-- The command for a row, given what the worker reports of it.
-- A start command carries the instance, its generation and its configuration.
unfoldable pub command_for : Option InstanceStatus → ModelInstance → List Command
unfolding config_of
command_for none i =
    if is_run i.desired_state then start i.id i.generation (config_of i) ∷ [] else []
command_for (some s) i =
    if is_run i.desired_state
    then (if ltb s.generation i.generation || is_stopped s.state
        then start i.id i.generation (config_of i) ∷ []
        else [])
    else (if is_live s.state && not (is_scheduled s.state) then stop i.id ∷ [] else [])

unfoldable pub row_commands : ℕ → List InstanceStatus → List ModelInstance → List Command
unfolding command_for report_of
row_commands worker ss [] = []
row_commands worker ss (i ∷ is) =
    (if on_worker worker i then command_for (report_of i.id ss) i else [])
    ++ row_commands worker ss is

-- `status.instance_id in known`
abbrev pub is_known : ℕ → List ModelInstance → InstanceStatus → Bool
is_known worker is s = any (λ i. on_worker worker i && is_about i.id s) is

unfoldable pub delete_commands : ℕ → List ModelInstance → List InstanceStatus → List Command
delete_commands worker is [] = []
delete_commands worker is (s ∷ ss) =
    (if is_known worker is s then [] else delete s.instance_id ∷ []) ++ delete_commands worker is ss

abbrev pub sync_system : (Text → Text) → ℕ → SyncRequest → Worker → Worker
sync_system sha now q w = record w {
  state = connected;
  last_seen_at = some now;
  os = text_or_none q.os;
  hostname = elim (text_or_none q.hostname) [ none ↦ w.hostname | some h ↦ h ];
  cpu_cores = number_or_none q.cpu_cores;
  memory_mb = number_or_none q.memory_mb;
  gpus = sync_gpus q.gpus w.gpus;
}

unfoldable pub worker_by_id : ℕ → List Worker → Option Worker
worker_by_id id [] = none
worker_by_id id (w ∷ ws) = if w.id == id then some w else worker_by_id id ws

unfoldable pub put_worker : Worker → List Worker → List Worker
put_worker v [] = []
put_worker v (w ∷ ws) = (if w.id == v.id then v else w) ∷ put_worker v ws

-- The call with a commit that goes through. The commit raises IntegrityError, and nothing is kept,
-- if a new GPU index was reported twice, or another worker of the cluster has the reported hostname,
-- or a reported port is reserved by another row of the worker: this is outside of the definition.
unfoldable pub sync_worker :
    (Text → Text) → ℕ → SyncRequest → Db → Result SyncError (Db × List Command)
unfolding worker_by_id put_worker sync_rows row_commands delete_commands
sync_worker sha now q db = do
  id ← or_raise q.worker_id invalid_worker_id
  w ← or_raise (worker_by_id id db.workers) invalid_worker_token
  raise_if (not (text_eq w.token_hash (sha q.worker_token))) invalid_worker_token
  let rows = sync_rows w.id q.instances db.instances
  ok (
    record db { workers = put_worker (sync_system sha now q w) db.workers; instances = rows },
    row_commands w.id q.instances rows ++ delete_commands w.id rows q.instances,
  )
