-- ===== src/Tests/Gateway.antt =====
-- Two replicas of a model, one of them with a slot in use.
use inferna_next.Base.{[], refl, some, true, ℕ, ◌∷◌, ◌≡◌}
use inferna_next.Base.Member.{In}
use inferna_next.Models.{Db, ModelInstance}
use inferna_next.PrefixCache.{new_index}
use inferna_next.Gateway.{Gateway, has_worker, is_routable, overlaps, release, reserve, routable}
use inferna_next.Gateway.Selection.{IsChosen, reserve-IsChosen}
use inferna_next.Gateway.Slots.{
  IsHistory, active_of, history-counts, occurrences, opened, released, reserved, without,
}
use inferna_next.Tests.Placement.{instance_on, worker_a, worker_b}

abbrev pub first_replica : ModelInstance
first_replica = instance_on 1 11 8010

abbrev pub second_replica : ModelInstance
second_replica = record (instance_on 2 12 8010) { created_at = 3 }

abbrev pub two_replicas : Db
two_replicas = record {
  workers = worker_b ∷ worker_a ∷ [];
  instances = second_replica ∷ first_replica ∷ [];
}

abbrev pub closed : Gateway
closed = record { active = []; last_assigned = []; assign_seq = 1; index = new_index 600 64 }

abbrev pub still : ℕ → ℕ
still k = 0

abbrev after_one : Gateway
after_one = (reserve still two_replicas 5 [] closed).1

chooses_first : (reserve still two_replicas 5 [] closed).0 ≡ some first_replica
unfolding reserve
chooses_first = refl

chooses_second : (reserve still two_replicas 5 [] after_one).0 ≡ some second_replica
unfolding reserve
chooses_second = refl

reserve-IsChosen_example :
    In second_replica two_replicas.instances
    × (is_routable 5 second_replica ≡ true)
    × (has_worker two_replicas second_replica ≡ true)
    × IsChosen after_one
        (overlaps still after_one.index [] (routable two_replicas 5)).0
        second_replica
reserve-IsChosen_example =
    reserve-IsChosen still two_replicas 5 [] after_one second_replica chooses_second

abbrev after_two : Gateway
after_two = (reserve still two_replicas 5 [] after_one).1

two_held : IsHistory still (new_index 600 64) (release after_two 1) (without 1 (2 ∷ 1 ∷ []))
two_held =
    released 1
      (reserved two_replicas 5 [] second_replica
        (reserved two_replicas 5 [] first_replica opened chooses_first) chooses_second)
      refl

history-counts_example : active_of (release after_two 1) 2 ≡ occurrences 2 (without 1 (2 ∷ 1 ∷ []))
history-counts_example = history-counts still two_held 2
