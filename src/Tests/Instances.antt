-- ===== src/Tests/Instances.antt =====
-- A deployment of one instance, and the calls of the API on it.
use inferna_next.Base.{Option, [], arith, inl, none, refl, some, ◌+◌, ◌∷◌, ◌≡◌, ◌⊎◌}
use inferna_next.Base.Text.{codes, text_eq}
use inferna_next.Base.Member.{In}
use inferna_next.Base.Results.{err, ok}
use inferna_next.Models.{InstanceState, default_settings, halt, running, starting}
use inferna_next.Workers.Config.{config_of}
use inferna_next.Workers.Sync.{InstanceStatus, command_for, start, stop}
use inferna_next.Instances.{
  DeployRequest, Store, delete_instance, deleting, deploy, deploying, deployment_of,
  integrity_error, invalid_body, mode_forbidden, restart_instance, restarted_row, restarting,
  rows_of_all, run_calls, stop_instance, stopped_row, stopping, store_rows,
}
use inferna_next.Instances.Life.{AreInhabited, run_calls-AreInhabited}
use inferna_next.Instances.Places.{AreRowsOf, run_calls-AreRowsOf}
use inferna_next.Instances.Commands.{
  IsOldReport, IsStopped, restart_instance-start, stop_instance-stop,
}
use inferna_next.Tests.Placement.{worker_a, worker_b, instance_on, small_model}

abbrev body : DeployRequest
body = record {
  model_id = 5;
  cluster_id = 1;
  engine = codes "vllm";
  profile = codes "latency";
  replicas = 1;
  nodes_per_replica = 1;
  parallel_mode = codes "single";
  manual = none;
}

abbrev one_deployment : Store
one_deployment = record {
  models = small_model ∷ [];
  clusters = record { id = 1; name = codes "default" } ∷ [];
  workers = worker_a ∷ worker_b ∷ [];
  deployments =
      record (deployment_of small_model body) { instances = instance_on 1 11 8010 ∷ [] } ∷ [];
  loose = [];
}

mode_test :
    deploy default_settings (λ k. k) 0 (record body { parallel_mode = codes "pp" }) one_deployment
    ≡ err mode_forbidden
unfolding deploy text_eq
mode_test = refl

-- A manual selection has at least one GPU, and the engine is one of two words.
words_test :
    (deploy default_settings (λ k. k) 0 (record body { manual = some (11, []) }) one_deployment
      ≡ err invalid_body)
    × (deploy default_settings (λ k. k) 0 (record body { engine = codes "tgi" }) one_deployment
        ≡ err invalid_body)
unfolding deploy
words_test = (refl, refl)

-- The last instance takes its deployment along.
last_test : delete_instance 1 one_deployment ≡ ok (record one_deployment { deployments = [] })
unfolding delete_instance
last_test = refl

-- An instance that was stopped and whose port another one got cannot be started again.
taken_test :
    restart_instance 2 (record one_deployment {
      loose =
          record (instance_on 2 11 8010) { desired_state = halt; state = InstanceState.stopped }
          ∷ [];
    })
    ≡ err integrity_error
unfolding restart_instance
taken_test = refl

run_calls-AreInhabited_example :
    AreInhabited
      (run_calls default_settings
        (λ now k. now + k)
        50
        (deploying body ∷ stopping 1 ∷ restarting 1 ∷ deleting 1 ∷ [])
        one_deployment).deployments
run_calls-AreInhabited_example =
    run_calls-AreInhabited default_settings (λ now k. now + k) 50
      (deploying body ∷ stopping 1 ∷ restarting 1 ∷ deleting 1 ∷ []) one_deployment
      (omega arith, tt)

run_calls-AreRowsOf_example : AreRowsOf (store_rows one_deployment) (
    store_rows (
      run_calls default_settings
        (λ now k. now + k)
        50
        (stopping 1 ∷ restarting 1 ∷ [])
        one_deployment))
run_calls-AreRowsOf_example =
    run_calls-AreRowsOf default_settings (λ now k. now + k) 50 (stopping 1 ∷ restarting 1 ∷ [])
      one_deployment ((λ h. h), ((λ h. h), tt))

restarted :
    restart_instance 1 one_deployment
    ≡ ok (record one_deployment {
      deployments =
          record (deployment_of small_model body) {
            instances = restarted_row (instance_on 1 11 8010) ∷ [];
          }
          ∷ [];
    })
unfolding restart_instance
restarted = refl

restart_instance-start_example :
    In (restarted_row (instance_on 1 11 8010)) (
      store_rows (record one_deployment {
        deployments =
            record (deployment_of small_model body) {
              instances = restarted_row (instance_on 1 11 8010) ∷ [];
            }
            ∷ [];
      }))
    × ((o : Option InstanceStatus)
        → IsOldReport o (instance_on 1 11 8010)
        → command_for o (restarted_row (instance_on 1 11 8010))
          ≡ start 1 2 (config_of (restarted_row (instance_on 1 11 8010))) ∷ [])
unfolding rows_of_all
restart_instance-start_example =
    restart_instance-start 1 one_deployment _ (instance_on 1 11 8010) restarted (inl refl) refl

halted :
    stop_instance 1 one_deployment
    ≡ ok (record one_deployment {
      deployments =
          record (deployment_of small_model body) {
            instances = stopped_row (instance_on 1 11 8010) ∷ [];
          }
          ∷ [];
    })
unfolding stop_instance
halted = refl

stop_instance-stop_example :
    In (stopped_row (instance_on 1 11 8010)) (
      store_rows (record one_deployment {
        deployments =
            record (deployment_of small_model body) {
              instances = stopped_row (instance_on 1 11 8010) ∷ [];
            }
            ∷ [];
      }))
    × IsStopped (instance_on 1 11 8010) (stopped_row (instance_on 1 11 8010))
    × ((r : InstanceStatus)
        → (r.state ≡ starting) ⊎ (r.state ≡ running)
        → command_for (some r) (stopped_row (instance_on 1 11 8010)) ≡ stop 1 ∷ [])
unfolding rows_of_all
stop_instance-stop_example =
    stop_instance-stop 1 one_deployment _ (instance_on 1 11 8010) halted (inl refl) refl
