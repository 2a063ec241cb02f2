-- ===== src/Tests/Usage.antt =====
-- Requests of two users around a flush that fails and one that is cancelled.
use inferna_next.Base.{List, [], none, refl, some, ℕ, ◌*◌, ◌+◌, ◌↔◌, ◌∷◌, ◌≡◌}
use inferna_next.Base.Int.{negsuc, pos}
use inferna_next.Usage.{
  Event, Usage, UsageKey, User, begin, cancel, check_quota, commit, fail, flush_begin, flush_commit,
  flush_fail, increment, request, requests_of, run_events, sum_by, tokens_of, usage_today,
}
use inferna_next.Usage.Sums.{all_brought, all_lost, total, total-run_events}
use inferna_next.Usage.Quota.{IsBelow, check_quota_iff, tokens_of-IsFigure, usage_today-flush}
use inferna_next.Usage.Occupancy.{
  OccupancyKey, gpus_held, sample_occupancy, sample_occupancy-seconds, seconds_of,
}
use inferna_next.Tests.Placement.{instance_on}

abbrev key_of : ℕ → UsageKey
key_of user = record { user_id = user; api_key_id = 1; model_id = 5; period_start = 20 }

abbrev idle : Usage
idle = record {
  pending = [];
  in_flight = none;
  rows = (key_of 1, increment (pos 1) (pos 2) (pos 3)) ∷ [];
  dropped = 0;
}

-- The second key finds no room in a buffer for one key.
abbrev events : List Event
events =
    request (key_of 1) (pos 10) (pos 5) (pos 100)
    ∷ request (key_of 2) (pos 7) (negsuc 3) (pos 100)
    ∷ begin
    ∷ request (key_of 1) (pos 2) (pos 2) (pos 50)
    ∷ fail
    ∷ begin
    ∷ commit
    ∷ request (key_of 1) (pos 1) (pos 1) (pos 50)
    ∷ begin
    ∷ cancel
    ∷ []

events_test :
    (usage_today (run_events 1 events idle) 1 20 ≡ (3, 22))
    × ((run_events 1 events idle).dropped ≡ 1)
unfolding usage_today run_events
events_test = (refl, refl)

total-run_events_example :
    total (tokens_of 1 20) (tokens_of-IsFigure 1 20) (run_events 1 events idle)
      + all_lost (tokens_of 1 20) (tokens_of-IsFigure 1 20) 1 events idle
    ≡ total (tokens_of 1 20) (tokens_of-IsFigure 1 20) idle
      + all_brought (tokens_of 1 20) (tokens_of-IsFigure 1 20) 1 events idle
total-run_events_example = total-run_events (tokens_of 1 20) (tokens_of-IsFigure 1 20) 1 events idle

abbrev flushing : Usage
flushing = record idle { in_flight = some ((key_of 1, increment (pos 4) (pos 4) (pos 1)) ∷ []) }

abbrev buffered : Usage
buffered = record idle { pending = (key_of 1, increment (pos 4) (pos 4) (pos 1)) ∷ [] }

hidden_test :
    (usage_today buffered 1 20 ≡ (2, 11)) × (usage_today (flush_begin buffered) 1 20 ≡ (1, 3))
unfolding usage_today flush_begin
hidden_test = (refl, refl)

usage_today-flush_example :
    ((usage_today (flush_begin buffered) 1 20).0 + sum_by (requests_of 1 20) buffered.pending
      ≡ (usage_today buffered 1 20).0)
    × ((usage_today (flush_begin buffered) 1 20).1 + sum_by (tokens_of 1 20) buffered.pending
        ≡ (usage_today buffered 1 20).1)
    × (usage_today (flush_commit (flush_begin buffered)) 1 20 ≡ usage_today buffered 1 20)
    × (usage_today (flush_fail (flush_begin buffered)) 1 20 ≡ usage_today buffered 1 20)
usage_today-flush_example = usage_today-flush buffered 1 20 refl

abbrev limited : User
limited = record { id = 1; token_limit = some 3; request_limit = some 2 }

quota_test : check_quota flushing 20 limited ≡ some (3, 3)
unfolding check_quota
quota_test = refl

check_quota_iff_example : (check_quota flushing 20 limited ≡ none) ↔ (
    IsBelow (usage_today flushing 1 20).0 (some 2) × IsBelow (usage_today flushing 1 20).1 (some 3))
check_quota_iff_example = check_quota_iff flushing 20 limited

abbrev model_on_cluster : OccupancyKey
model_on_cluster = record { model_id = 5; cluster_id = 1 }

sample_occupancy-seconds_example :
    seconds_of model_on_cluster
      (sample_occupancy 30 (instance_on 1 11 8010 ∷ instance_on 2 12 8010 ∷ []) []).0
    ≡ seconds_of model_on_cluster []
      + 30 * gpus_held model_on_cluster (instance_on 1 11 8010 ∷ instance_on 2 12 8010 ∷ [])
sample_occupancy-seconds_example =
    sample_occupancy-seconds 30 (instance_on 1 11 8010 ∷ instance_on 2 12 8010 ∷ []) []
      model_on_cluster
