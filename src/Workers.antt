-- ===== src/Workers.antt =====
-- The watchdog over workers (`mark_disconnected` of server/inferna_server/services/workers_svc.py).
-- Times are whole seconds; a worker that was never seen is not older than any time, as a comparison
-- with NULL in SQL.
pub mod Watchdog
pub mod Sync
pub mod Config
pub mod Register
use inferna_next.Base.{
  Bool, List, [], false, filter, if◌then◌else◌, ltb, none, some, ℕ, ◌&&◌, ◌+◌, ◌==◌, ◌∷◌,
}
use inferna_next.Base.Text.{codes}
use inferna_next.Models.{
  Db, ModelInstance, Worker, disconnected, error, is_connected, is_live, is_run,
}

-- `DISCONNECT_AFTER_SECONDS`
abbrev pub disconnect_after_seconds : ℕ
disconnect_after_seconds = 30

-- `Worker.state == "connected", Worker.last_seen_at < cutoff`
unfoldable pub is_stale : ℕ → Worker → Bool
is_stale now w =
    is_connected w.state
    && elim w.last_seen_at [ none ↦ false | some t ↦ ltb (t + disconnect_after_seconds) now ]

abbrev pub on_worker : ℕ → ModelInstance → Bool
on_worker id i = elim i.worker_id [ none ↦ false | some w ↦ w == id ]

-- An instance that is desired to run and live, on the worker.
abbrev pub is_stranded : ℕ → ModelInstance → Bool
is_stranded id i = on_worker id i && (is_run i.desired_state && is_live i.state)

abbrev pub strand : ModelInstance → ModelInstance
strand i = record i { state = error; error_detail = some (codes "worker disconnected") }

unfoldable pub strand_rows : ℕ → List ModelInstance → List ModelInstance
strand_rows id [] = []
strand_rows id (i ∷ is) = (if is_stranded id i then strand i else i) ∷ strand_rows id is

abbrev pub disconnect : Worker → Worker
disconnect w = record w { state = disconnected }

unfoldable pub disconnect_row : ℕ → List Worker → List Worker
disconnect_row id [] = []
disconnect_row id (w ∷ ws) = (if w.id == id then disconnect w else w) ∷ disconnect_row id ws

-- The loop over the stale workers.
unfoldable pub mark_all : List Worker → Db → Db
unfolding strand_rows disconnect_row
mark_all [] db = db
mark_all (w ∷ ws) db = mark_all ws (record db {
  workers = disconnect_row w.id db.workers;
  instances = strand_rows w.id db.instances;
})

unfoldable pub mark_disconnected : ℕ → Db → Db
unfolding is_stale mark_all
mark_disconnected now db = mark_all (filter (is_stale now) db.workers) db
