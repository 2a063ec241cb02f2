-- ===== src/Tests/Workers.antt =====
-- A cluster of which one worker was last seen at 0.
use inferna_next.Base.{[], refl, some, true, ℕ, ◌++◌, ◌↔◌, ◌∷◌, ◌≡◌}
use inferna_next.Base.Text.{codes, text_eq}
use inferna_next.Base.Member.{All}
use inferna_next.Models.{Db, InstanceState, running}
use inferna_next.Workers.{disconnect, mark_disconnected, strand}
use inferna_next.Workers.Watchdog.{
  ArePaired, IsInstanceAfter, IsWorkerAfter, mark_disconnected-AreMarked,
}
use inferna_next.Base.Results.{ok}
use inferna_next.Workers.Sync.{
  GpuReport, InstanceStatus, SyncRequest, delete, delete_commands, gpu_of, is_known, row_commands,
  sync_gpus, sync_worker,
}
use inferna_next.Workers.Sync.Report.{gpu_row, reported_gpu, sync_gpus-reported}
use inferna_next.Workers.Sync.Commands.{IsQuiet, commands_iff}
use inferna_next.Tests.Placement.{instance_on, mock_gpu, worker_a, worker_b}

abbrev cluster : Db
cluster = record {
  workers = worker_a ∷ record worker_b { last_seen_at = some 80 } ∷ [];
  instances = instance_on 1 11 8010 ∷ instance_on 2 12 8010 ∷ [];
}

watchdog_test : mark_disconnected 100 cluster ≡ record {
  workers = disconnect worker_a ∷ record worker_b { last_seen_at = some 80 } ∷ [];
  instances = strand (instance_on 1 11 8010) ∷ instance_on 2 12 8010 ∷ [];
}
unfolding mark_disconnected
watchdog_test = refl

mark_disconnected-AreMarked_example :
    ArePaired
      (IsWorkerAfter 100 cluster.workers)
      cluster.workers
      (mark_disconnected 100 cluster).workers
    × ArePaired
        (IsInstanceAfter 100 cluster.workers)
        cluster.instances
        (mark_disconnected 100 cluster).instances
mark_disconnected-AreMarked_example = mark_disconnected-AreMarked 100 cluster

abbrev gpu_report : ℕ → ℕ → GpuReport
gpu_report index used = record {
  index = index;
  vendor = codes "mock";
  name = codes "Mock GPU";
  vram_mb = 16000;
  used_vram_mb = used;
  utilization_pct = 0;
  uuid = [];
  driver_version = [];
}

abbrev status : ℕ → ℕ → InstanceState → InstanceStatus
status id generation state = record {
  instance_id = some id;
  state = state;
  generation = generation;
  detail = [];
  log_tail = [];
  port = 0;
}

-- Worker 11 reports one of its two GPUs, its instance, and one that it should not have.
abbrev request : SyncRequest
request = record {
  worker_id = some 11;
  worker_token = [];
  os = [];
  hostname = [];
  cpu_cores = 0;
  memory_mb = 0;
  gpus = gpu_report 1 300 ∷ [];
  instances = status 1 1 running ∷ status 9 1 running ∷ [];
}

sync_test :
    sync_worker (λ t. t) 100 request cluster
    ≡ ok (
      record cluster {
        workers =
            record worker_a {
              last_seen_at = some 100;
              gpus = record (mock_gpu 1 16000) { used_vram_mb = 300 } ∷ [];
            }
            ∷ record worker_b { last_seen_at = some 80 }
            ∷ [];
      },
      delete (some 9) ∷ [],
    )
unfolding sync_worker sync_gpus text_eq
sync_test = refl

-- A new index that is reported twice is added twice.
twice_test :
    sync_gpus (gpu_report 1 300 ∷ gpu_report 1 400 ∷ []) []
    ≡ gpu_of (gpu_report 1 300) ∷ gpu_of (gpu_report 1 400) ∷ []
unfolding sync_gpus
twice_test = refl

sync_gpus-reported_example :
    gpu_row 1 (
      sync_gpus
        (gpu_report 1 200 ∷ gpu_report 1 300 ∷ [])
        (mock_gpu 0 16000 ∷ mock_gpu 1 24000 ∷ []))
    ≡ reported_gpu 1 (gpu_report 1 200 ∷ gpu_report 1 300 ∷ [])
sync_gpus-reported_example =
    sync_gpus-reported (gpu_report 1 200 ∷ gpu_report 1 300 ∷ [])
      (mock_gpu 0 16000 ∷ mock_gpu 1 24000 ∷ []) 1 ((λ h. refl), ((λ h. refl), tt))

commands_iff_example :
    (row_commands 11 (status 1 1 running ∷ []) cluster.instances
        ++ delete_commands 11 cluster.instances (status 1 1 running ∷ [])
      ≡ [])
    ↔ (All (IsQuiet 11 (status 1 1 running ∷ [])) cluster.instances
        × All (λ s. is_known 11 cluster.instances s ≡ true) (status 1 1 running ∷ []))
commands_iff_example = commands_iff 11 (status 1 1 running ∷ []) cluster.instances
