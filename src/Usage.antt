-- ===== src/Usage.antt =====
-- Usage accounting (server/inferna_server/services/usage.py). Ids and days are numbers; the rows of
-- a table stand in the order of their insertion, one row for a key. The state names the aggregates
-- of a flush under way, which are a local variable of `flush_usage`.
pub mod Sums
pub mod Quota
pub mod Occupancy
use inferna_next.Base.{
  Bool, List, Option, [], false, if◌then◌else◌, leb, length, none, not, some, ℕ, ◌&&◌, ◌+◌, ◌==◌,
  ◌||◌, ◌∷◌,
}
use inferna_next.Base.Int.{pos_part, ℤ}

-- The key of the buffer, and of a row of `usage_records`.
pub record UsageKey : Type 0 where
  pub user_id : ℕ
  pub api_key_id : ℕ
  pub model_id : ℕ
  pub period_start : ℕ

pub record Accum : Type 0 where
  pub requests : ℕ
  pub tokens_in : ℕ
  pub tokens_out : ℕ
  pub latency_ms_sum : ℕ

unfoldable pub key_eq : UsageKey → UsageKey → Bool
key_eq k j =
    k.user_id == j.user_id
    && (k.api_key_id == j.api_key_id
        && (k.model_id == j.model_id && k.period_start == j.period_start))

-- `_Accum.add`
unfoldable pub accum_add : Accum → Accum → Accum
accum_add a b = record {
  requests = a.requests + b.requests;
  tokens_in = a.tokens_in + b.tokens_in;
  tokens_out = a.tokens_out + b.tokens_out;
  latency_ms_sum = a.latency_ms_sum + b.latency_ms_sum;
}

abbrev pub Aggregates : Type 0
Aggregates = List (UsageKey × Accum)

-- Adds to the entry of a key, or makes it: the update of a buffer entry, of a row and of the merge.
unfoldable pub upsert : UsageKey → Accum → Aggregates → Aggregates
unfolding key_eq accum_add
upsert k a [] = (k, a) ∷ []
upsert k a ((j, b) ∷ rows) =
    if key_eq k j then (j, accum_add b a) ∷ rows else (j, b) ∷ upsert k a rows

unfoldable pub upsert_all : Aggregates → Aggregates → Aggregates
unfolding upsert
upsert_all [] rows = rows
upsert_all ((k, a) ∷ more) rows = upsert_all more (upsert k a rows)

-- `key in _PENDING`
unfoldable pub has_key : UsageKey → Aggregates → Bool
unfolding key_eq
has_key k [] = false
has_key k ((j, b) ∷ rows) = key_eq k j || has_key k rows

-- `dropped` is the counter `inferna_usage_events_total` with the outcome "dropped".
pub record Usage : Type 0 where
  pub pending : Aggregates
  pub in_flight : Option Aggregates
  pub rows : Aggregates
  pub dropped : ℕ

abbrev pub max_pending_keys : ℕ
max_pending_keys = 10000

-- What one request adds: `max(n, 0)` of each figure.
abbrev pub increment : ℤ → ℤ → ℤ → Accum
increment tokens_in tokens_out latency_ms = record {
  requests = 1;
  tokens_in = pos_part tokens_in;
  tokens_out = pos_part tokens_out;
  latency_ms_sum = pos_part latency_ms;
}

-- `accum is None and len(_PENDING) >= MAX_PENDING_KEYS`
unfoldable pub is_full : ℕ → UsageKey → Usage → Bool
unfolding has_key
is_full limit k s = not (has_key k s.pending) && leb limit (length s.pending)

unfoldable pub record_request : ℕ → UsageKey → Accum → Usage → Usage
unfolding is_full upsert
record_request limit k a s =
    if is_full limit k s
    then record s { dropped = s.dropped + 1 }
    else record s { pending = upsert k a s.pending }

-- `pending, _PENDING = _PENDING, {}`, up to the first await.
unfoldable pub flush_begin : Usage → Usage
flush_begin s = elim s.in_flight [
  | some flying ↦ s
  | none ↦ record s { pending = []; in_flight = some s.pending }
]

-- The flush commits: one upsert for each aggregate.
unfoldable pub flush_commit : Usage → Usage
unfolding upsert_all
flush_commit s = elim s.in_flight [
  | none ↦ s
  | some flying ↦ record s { in_flight = none; rows = upsert_all flying s.rows }
]

-- An exception: the rollback leaves the rows, and the aggregates are merged back.
unfoldable pub flush_fail : Usage → Usage
unfolding upsert_all
flush_fail s = elim s.in_flight [
  | none ↦ s
  | some flying ↦ record s { in_flight = none; pending = upsert_all flying s.pending }
]

-- A cancellation: `CancelledError` is no `Exception`, so the aggregates are not merged back.
unfoldable pub flush_cancel : Usage → Usage
flush_cancel s = record s { in_flight = none }

-- `flush_usage` with nothing between its steps, and its return value.
unfoldable pub flush_usage : Usage → Usage × ℕ
unfolding flush_begin flush_commit
flush_usage s = (flush_commit (flush_begin s), length s.pending)

-- What happens on the event loop, in order. A request carries its key and its figures.
pub data Event : Type 0 where
  request : UsageKey → ℤ → ℤ → ℤ → Event
  begin commit fail cancel : Event

unfoldable pub handle : ℕ → Event → Usage → Usage
unfolding record_request flush_begin flush_commit flush_fail flush_cancel
handle limit (request k ti to ms) s = record_request limit k (increment ti to ms) s
handle limit begin s = flush_begin s
handle limit commit s = flush_commit s
handle limit fail s = flush_fail s
handle limit cancel s = flush_cancel s

unfoldable pub run_events : ℕ → List Event → Usage → Usage
unfolding handle
run_events limit [] s = s
run_events limit (e ∷ es) s = run_events limit es (handle limit e s)

-- The sum over the entries of one user and day.
unfoldable pub requests_of : ℕ → ℕ → UsageKey → Accum → ℕ
requests_of user day k a = if k.user_id == user && k.period_start == day then a.requests else 0

unfoldable pub tokens_of : ℕ → ℕ → UsageKey → Accum → ℕ
tokens_of user day k a =
    if k.user_id == user && k.period_start == day then a.tokens_in + a.tokens_out else 0

unfoldable pub sum_by : (UsageKey → Accum → ℕ) → Aggregates → ℕ
sum_by f [] = 0
sum_by f ((k, a) ∷ rows) = f k a + sum_by f rows

-- `usage_today`: the rows in the database, and the buffer.
unfoldable pub usage_today : Usage → ℕ → ℕ → ℕ × ℕ
unfolding sum_by requests_of tokens_of
usage_today s user day = (
  sum_by (requests_of user day) s.rows + sum_by (requests_of user day) s.pending,
  sum_by (tokens_of user day) s.rows + sum_by (tokens_of user day) s.pending,
)

pub record User : Type 0 where
  pub id : ℕ
  pub token_limit : Option ℕ
  pub request_limit : Option ℕ

-- `limit is not None and used >= limit`
abbrev pub exhausted : ℕ → Option ℕ → Option (ℕ × ℕ)
exhausted used none = none
exhausted used (some limit) = if leb limit used then some (used, limit) else none

abbrev pub or_else : Option (ℕ × ℕ) → Option (ℕ × ℕ) → Option (ℕ × ℕ)
or_else none second = second
or_else (some hit) second = some hit

-- `check_quota`; without limits the counts are not read.
unfoldable pub check_quota : Usage → ℕ → User → Option (ℕ × ℕ)
unfolding usage_today
check_quota s day user =
    let used = usage_today s user.id day in
    or_else (exhausted used.0 user.request_limit) (exhausted used.1 user.token_limit)
