-- ===== src/Tests/Probes.antt =====
-- Probes of an engine that answers in its fourth round, and of a container that ends.
use inferna_next.Base.{[], arith, if◌then◌else◌, none, refl, some, ℕ, ◌*◌, ◌==◌, ◌≡◌, ◌≤◌}
use inferna_next.Base.Text.{codes}
use inferna_next.Engine.Probes.{
  ProbeEnd, Round, broken, follower_deadline, follower_probe, health_deadline, health_probe,
  healthy,
}
use inferna_next.Engine.Probes.Ends.{IsEndAt, health_probe-IsEndAt}

abbrev slow_start : ℕ → Round
slow_start k = record {
  time = k * 10;
  seen_at = k * 10;
  before_status = some (codes "running");
  response = if k == 3 then some 200 else none;
  after_status = some (codes "running");
  tail = [];
}

abbrev exiting : ℕ → Round
exiting k = record {
  time = k * 10;
  seen_at = k * 10;
  before_status = if k == 2 then some (codes "exited") else some (codes "running");
  response = none;
  after_status = none;
  tail = [];
}

healthy_test : health_probe slow_start (health_deadline 0) 5 0 ≡ some healthy
unfolding health_probe
healthy_test = refl

exited_test :
    health_probe exiting (health_deadline 0) 5 0 ≡ some (broken (codes "container exited"))
unfolding health_probe
exited_test = refl

late_test :
    health_probe (λ k. record (exiting k) { before_status = none }) 20 5 0
    ≡ some (broken (codes "health probe timed out"))
unfolding health_probe
late_test = refl

-- A rank is ready once its container was seen up 20 seconds ago.
follower_test : follower_probe 20 slow_start (follower_deadline 20 0) 5 0 none ≡ some healthy
unfolding follower_probe
follower_test = refl

health_probe-IsEndAt_example :
    (n : ℕ) × (e : ProbeEnd) × (n ≤ 240)
    × (health_probe slow_start (health_deadline 0) 241 0 ≡ some e)
    × IsEndAt slow_start (health_deadline 0) 0 n e
health_probe-IsEndAt_example =
    health_probe-IsEndAt slow_start 0 241 (omega arith, (λ k. omega arith)) (omega arith)
