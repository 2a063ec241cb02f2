-- ===== src/Tests/Autoscaling.antt =====
-- A busy and an idle deployment, and one that cools down.
use inferna_next.Base.{[], arith, none, refl, some, ◌+◌, ◌∷◌, ◌≡◌, ◌≤◌}
use inferna_next.Base.Text.{text_eq, text_leb}
use inferna_next.Base.Dict.{dict_set}
use inferna_next.Models.{InstanceState, default_settings, error}
use inferna_next.Scheduler.{
  alloc_port, connected_workers, engine_supports, gpu_usage, live_instances, port_instances,
  usage_get,
}
use inferna_next.Scheduler.BestFit.{best_fit}
use inferna_next.Scheduler.Replicas.{allocate_replicas}
use inferna_next.Scaling.{Deployment, new_row, replica_units, stop_keys, stop_row, unit_keys}
use inferna_next.Scaling.Apply.{effective_capacity, failed_scale, resize, scale_out, target_of}
use inferna_next.Autoscaling.{AutoscaleSettings, Signal, desired_replicas, failed, tick_one, up}
use inferna_next.Autoscaling.Policy.{IsStep, desired_replicas-InWindow, desired_replicas-IsStep}
use inferna_next.Tests.Placement.{instance_on, worker_a}
use inferna_next.Tests.Scaling.{deployed, draw, no_others}

abbrev policy : AutoscaleSettings
policy = record {
  cooldown_seconds = 300;
  target_ttft_ms = 1000;
  target_queue = 4;
  ratio_num = 1;
  ratio_den = 2;
}

abbrev slow : Signal
slow = record { ttft_p95_ms = some 1500; queue_per_replica = none; serving_replicas = 2 }

-- Half the target is not yet low.
policy_test :
    (desired_replicas policy 2 1 3 slow ≡ 3)
    × (desired_replicas policy 2 1 3 (record slow { ttft_p95_ms = some 500 }) ≡ 2)
    × (desired_replicas policy 2 1 3 (record slow { ttft_p95_ms = some 499 }) ≡ 1)
    × (desired_replicas policy 2 1 3 (record slow { ttft_p95_ms = none }) ≡ 2)
unfolding desired_replicas
policy_test = (refl, refl, refl, refl)

-- The policy takes what it is given: a count below the window stays there without load.
below_window : desired_replicas policy 0 1 3 (record slow { ttft_p95_ms = some 10 }) ≡ 0
unfolding desired_replicas
below_window = refl

desired_replicas-IsStep_example : IsStep policy 2 1 3 slow (desired_replicas policy 2 1 3 slow)
desired_replicas-IsStep_example = desired_replicas-IsStep policy 2 1 3 slow

desired_replicas-InWindow_example :
    (1 ≤ desired_replicas policy 2 1 3 slow)
    × (desired_replicas policy 2 1 3 slow ≤ 3)
    × (desired_replicas policy 2 1 3 slow ≤ 2 + 1)
    × (2 ≤ desired_replicas policy 2 1 3 slow + 1)
desired_replicas-InWindow_example =
    desired_replicas-InWindow policy 2 1 3 slow (omega arith) (omega arith)

-- The deployment with its two serving instances only.
abbrev serving_two : Deployment
serving_two = record deployed { instances = instance_on 1 11 8010 ∷ instance_on 2 12 8010 ∷ [] }

abbrev serving_three : Deployment
serving_three = record serving_two {
  last_scaled_at = some 900;
  instances =
      instance_on 1 11 8010
      ∷ instance_on 2 12 8010
      ∷ new_row deployed 100 900 worker_a (1 ∷ []) (some 8011) none none none none none
      ∷ [];
}

tick_test :
    tick_one policy default_settings draw 900 no_others slow ((7, 500) ∷ []) 7 serving_two
    ≡ (serving_three, (7, 900) ∷ [], up 3)
unfolding tick_one engine_supports text_eq text_leb best_fit dict_set resize effective_capacity
    replica_units target_of scale_out allocate_replicas connected_workers usage_get gpu_usage
    live_instances stop_keys unit_keys alloc_port port_instances
tick_test = refl

-- A scale that finds no place stops the broken unit, and does not put it back.
failed_test :
    tick_one policy default_settings draw 900
      (record no_others { workers = [] })
      slow
      []
      7
      (record deployed { max_replicas = 5 })
    ≡ (
      record deployed {
        max_replicas = 5;
        instances =
            instance_on 1 11 8010
            ∷ record (instance_on 2 12 8010) { created_at = 3 }
            ∷ stop_row (record (instance_on 3 11 8011) { state = error })
            ∷ record (instance_on 4 11 8012) { state = InstanceState.stopped }
            ∷ [];
      },
      [],
      failed,
    )
unfolding tick_one stop_row failed_scale resize effective_capacity replica_units target_of scale_out
    allocate_replicas connected_workers stop_keys unit_keys
failed_test = refl
