-- ===== src/Tests/Scaling.antt =====
-- Deployments on the cluster of the scheduler's tests.
use inferna_next.Base.{[], arith, none, refl, some, true, ℕ, ◌+◌, ◌∷◌, ◌≡◌, ◌≤◌}
use inferna_next.Base.Text.{codes, text_eq, text_leb}
use inferna_next.Base.Member.{Distinct}
use inferna_next.Base.Keys.{keys}
use inferna_next.Base.Results.{ok}
use inferna_next.Models.{Db, InstanceState, default_settings, error}
use inferna_next.Scheduler.{
  alloc_port, connected_workers, engine_supports, gpu_usage, live_instances, port_instances,
  usage_get,
}
use inferna_next.Scheduler.BestFit.{best_fit}
use inferna_next.Scheduler.Replicas.{allocate_replicas}
use inferna_next.Scaling.{Deployment, new_row, replica_units, stop_keys, stop_row, unit_keys}
use inferna_next.Scaling.Apply.{
  apply_scale, effective_capacity, resize, scale_out, target_of, to_stop,
}
use inferna_next.Scaling.Counting.{count}
use inferna_next.Scaling.Capacity.{limbo_units, live_units, row_id}
use inferna_next.Scaling.Outcome.{IsScaled, apply_scale-IsScaled}
use inferna_next.Scaling.Candidates.{is_usable}
use inferna_next.Scaling.Order.{IsScaleIn, apply_scale-IsScaleIn}
use inferna_next.Tests.Placement.{instance_on, small_model, vllm, worker_a, worker_b}

-- Two instances serve, one has failed, and one has stopped by itself.
abbrev pub deployed : Deployment
deployed = record {
  model = small_model;
  cluster_id = 1;
  engine = vllm;
  profile = codes "latency";
  min_replicas = 1;
  max_replicas = 3;
  nodes_per_replica = 1;
  parallel_mode = none;
  last_scaled_at = none;
  instances =
      instance_on 1 11 8010
      ∷ record (instance_on 2 12 8010) { created_at = 3 }
      ∷ record (instance_on 3 11 8011) { state = error }
      ∷ record (instance_on 4 11 8012) { state = InstanceState.stopped }
      ∷ [];
}

abbrev pub no_others : Db
no_others = record { workers = worker_b ∷ worker_a ∷ []; instances = [] }

abbrev pub draw : ℕ → ℕ
draw k = 100 + k

rows-Distinct : Distinct (keys row_id deployed.instances)
rows-Distinct = (refl, (refl, (refl, (refl, tt))))

-- Three units are asked for: one more is placed, and the stopped one stays beside them.
abbrev grown : Deployment
grown = record deployed {
  min_replicas = 3;
  max_replicas = 3;
  last_scaled_at = some 7;
  instances =
      instance_on 1 11 8010
      ∷ record (instance_on 2 12 8010) { created_at = 3 }
      ∷ stop_row (record (instance_on 3 11 8011) { state = error })
      ∷ record (instance_on 4 11 8012) { state = InstanceState.stopped }
      ∷ new_row deployed 100 7 worker_a (1 ∷ []) (some 8011) none none none none none
      ∷ [];
}

apply_scale_test : apply_scale default_settings draw 7 no_others deployed 3 true ≡ ok grown
unfolding apply_scale resize replica_units target_of effective_capacity unit_keys stop_keys
    scale_out to_stop allocate_replicas connected_workers best_fit live_instances port_instances
    gpu_usage usage_get engine_supports text_eq text_leb alloc_port
apply_scale_test = refl

apply_scale-IsScaled_example : IsScaled deployed (target_of deployed 3 true) true grown
apply_scale-IsScaled_example =
    apply_scale-IsScaled default_settings draw 7 no_others deployed rows-Distinct 3 true grown refl
      apply_scale_test

one_fits : target_of deployed 1 true ≤ count is_usable (replica_units deployed)
unfolding target_of replica_units
one_fits = omega arith

-- One unit is asked for: of the two that serve, the older one is stopped.
apply_scale-IsScaleIn_example :
    (e : Deployment) × ((apply_scale default_settings draw 7 no_others deployed 1 true ≡ ok e)
      × IsScaleIn deployed (target_of deployed 1 true) e
      × (live_units e ≡ target_of deployed 1 true + limbo_units deployed))
apply_scale-IsScaleIn_example =
    apply_scale-IsScaleIn default_settings draw 7 no_others deployed 1 true rows-Distinct one_fits
