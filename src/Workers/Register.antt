-- ===== src/Workers/Register.antt =====
-- The registration of a worker (`register_worker` of server/inferna_server/services/workers_svc.py).
-- `int_of` is int() on a part of a version, `sha` sha256_hex, `token` the new token and `new_id` the id
-- of a new row. Nothing for `int_of` is the ValueError.
pub mod Unique
pub mod Registered
pub mod Outcome
use inferna_next.Base.{
  Bool, List, Option, [], any, false, if◌then◌else◌, none, not, some, suc, true, zero, ℕ, ◌&&◌,
  ◌++◌, ◌==◌, ◌||◌, ◌∷◌,
}
use inferna_next.Base.Int.{ltb_ℤ, pos, ℤ}
use inferna_next.Base.Text.{Text, codes, text_eq}
use inferna_next.Base.Strings.{is_empty, or_text, strip}
use inferna_next.Base.Results.{Result, err, ok, or_raise, raise_if, ◌>>=◌, ◌>>◌}
use inferna_next.Models.{Worker, connected}
use inferna_next.Workers.Sync.{put_worker, text_or_none}
use inferna_next.Upstream.{GuardError, Platform, Policy, validate_worker_address}

pub record Cluster : Type 0 where
  pub id : ℕ
  pub name : Text

pub record RegisterRequest : Type 0 where
  pub cluster_token : Text
  pub protocol_version : ℕ
  pub version : Text
  pub cluster_name : Text
  pub address : Text
  pub worker_name : Text
  pub hostname : Text

pub data RegisterError : Type 0 where
  invalid_cluster_token unsupported_protocol too_old cluster_not_found : RegisterError
  invalid_worker_address : GuardError → RegisterError
  already_exists : RegisterError

-- `s.split(".")`: the parts between the dots.
unfoldable pub split_dots : Text → Text → List Text
split_dots part [] = part ∷ []
split_dots part (c ∷ s) =
    let rest = split_dots [] s in
    let longer = split_dots (part ++ c ∷ []) s in if c == b'.' then part ∷ rest else longer

-- The first three parts as numbers, filled up with 0; a part that is no number makes all of them 0.
unfoldable pub numbers_of : (Text → Option ℤ) → ℕ → List Text → Option (List ℤ)
numbers_of int_of zero parts = some []
numbers_of int_of (suc n) [] = (elim (numbers_of int_of n []) [
  | none ↦ none
  | some rest ↦ some (pos 0 ∷ rest)
])
numbers_of int_of (suc n) (p ∷ parts) =
    let rest = numbers_of int_of n parts in
    elim (int_of p) [ none ↦ none | some k ↦ elim rest [ none ↦ none | some ks ↦ some (k ∷ ks) ] ]

-- `a < b` of tuples
unfoldable pub tuple_before : List ℤ → List ℤ → Bool
tuple_before [] [] = false
tuple_before [] (b ∷ ys) = true
tuple_before (a ∷ xs) [] = false
tuple_before (a ∷ xs) (b ∷ ys) = ltb_ℤ a b || (not (ltb_ℤ b a) && tuple_before xs ys)

abbrev pub protocol : ℕ
protocol = 1

-- `MIN_WORKER_VERSION`
abbrev pub min_worker_version : List ℤ
min_worker_version = pos 0 ∷ pos 2 ∷ pos 0 ∷ []

unfoldable pub is_too_old : (Text → Option ℤ) → Text → Bool
unfolding split_dots numbers_of tuple_before
is_too_old int_of version =
    elim (numbers_of int_of 3 (split_dots [] (or_text version (codes "0.0.0")))) [
      | none ↦ tuple_before (pos 0 ∷ pos 0 ∷ pos 0 ∷ []) min_worker_version
      | some numbers ↦ tuple_before numbers min_worker_version
    ]

unfoldable pub cluster_by_name : Text → List Cluster → Option Cluster
unfolding text_eq
cluster_by_name name [] = none
cluster_by_name name (c ∷ cs) = if text_eq c.name name then some c else cluster_by_name name cs

-- The row of a query with at most one row.
unfoldable pub one_worker : (Worker → Bool) → List Worker → Option Worker
one_worker p [] = none
one_worker p (w ∷ ws) = if p w then some w else one_worker p ws

abbrev pub has_name : ℕ → Text → Worker → Bool
has_name cluster name w = w.cluster_id == cluster && text_eq w.name name

abbrev pub has_hostname : ℕ → Text → Worker → Bool
has_hostname cluster hostname w = w.cluster_id == cluster && text_eq w.hostname hostname

-- How the row of a worker was found.
pub data Match : Type 0 where
  by_both by_hostname by_name : Worker → Match
  by_none : Match

unfoldable pub match_worker : ℕ → Text → Text → List Worker → Match
unfolding one_worker text_eq
match_worker cluster name hostname workers =
    elim (one_worker (λ w. has_name cluster name w && text_eq w.hostname hostname) workers) [
      | some w ↦ by_both w
      | none ↦ elim (one_worker (has_hostname cluster hostname) workers) [
        | some w ↦ by_hostname w
        | none ↦ elim (one_worker (has_name cluster name) workers) [
          | some w ↦ by_name w
          | none ↦ by_none
        ]
      ]
    ]

-- `_available`: no other row of the cluster satisfies the test.
unfoldable pub is_available : (Worker → Bool) → ℕ → List Worker → Bool
is_available p id workers = not (any (λ v. p v && not (v.id == id)) workers)

-- What a request gives a row: its token, the time and its address.
pub record Facts : Type 0 where
  pub token_hash : Text
  pub now : ℕ
  pub address : Option Text

unfoldable pub new_worker : ℕ → ℕ → Facts → RegisterRequest → Worker
new_worker new_id cluster facts q = record {
  id = new_id;
  cluster_id = cluster;
  name = or_text q.worker_name q.hostname;
  hostname = q.hostname;
  state = connected;
  version = text_or_none q.version;
  os = none;
  cpu_cores = none;
  memory_mb = none;
  token_hash = facts.token_hash;
  address = facts.address;
  last_seen_at = some facts.now;
  gpus = [];
}

-- The name of a row that was found again: the requested one, unless another row has it.
unfoldable pub renamed : ℕ → RegisterRequest → List Worker → Worker → Text
unfolding is_available text_eq
renamed cluster q workers w =
    if not (is_empty q.worker_name)
      && not (text_eq q.worker_name w.name)
      && is_available (has_name cluster q.worker_name) w.id workers
    then q.worker_name
    else w.name

-- The hostname follows a machine that was found by its name.
unfoldable pub moved : ℕ → RegisterRequest → List Worker → Bool → Worker → Text
unfolding is_available text_eq
moved cluster q workers found_by_name w =
    if found_by_name && is_available (has_hostname cluster q.hostname) w.id workers
    then q.hostname
    else w.hostname

unfoldable pub refreshed_worker : ℕ → Facts → RegisterRequest → List Worker → Bool → Worker → Worker
unfolding renamed moved
refreshed_worker cluster facts q workers found_by_name w = record w {
  token_hash = facts.token_hash;
  state = connected;
  last_seen_at = some facts.now;
  address = facts.address;
  hostname = moved cluster q workers found_by_name w;
  name = renamed cluster q workers w;
  version = elim (text_or_none q.version) [ none ↦ w.version | some v ↦ some v ];
}

-- Two rows that the unique constraints of the table forbid.
unfoldable pub is_conflict : Worker → Worker → Bool
unfolding text_eq
is_conflict w v =
    not (v.id == w.id)
    && v.cluster_id == w.cluster_id
    && (text_eq v.name w.name || text_eq v.hostname w.hostname)

-- The commit of one changed or new row; a violated constraint rolls back.
unfoldable pub commit_worker :
    Worker → List Worker → List Worker → Result RegisterError (List Worker × Worker)
unfolding is_conflict
commit_worker w rows workers =
    if any (is_conflict w) workers then err already_exists else ok (rows, w)

module _ (platform : Platform) (policy : Policy) (registration_token : Text)
    (int_of : Text → Option ℤ) (sha : Text → Text) (token : Text) (new_id now : ℕ) where
  unfoldable pub registered_address : Text → Result RegisterError (Option Text)
  unfolding validate_worker_address strip
  registered_address raw =
      if is_empty (strip raw)
      then ok none
      else elim (validate_worker_address platform policy (strip raw)) [
        | err e ↦ err (invalid_worker_address e)
        | ok address ↦ ok (some address)
      ]

  -- The row of the worker, and the table with it.
  unfoldable pub write_worker :
      ℕ
      → Facts
      → RegisterRequest
      → List Worker
      → Match
      → Result RegisterError (List Worker × Worker)
  unfolding refreshed_worker new_worker commit_worker put_worker
  write_worker cluster facts q workers (by_both w) =
      let v = refreshed_worker cluster facts q workers false w in
      commit_worker v (put_worker v workers) workers
  write_worker cluster facts q workers (by_hostname w) =
      let v = refreshed_worker cluster facts q workers false w in
      commit_worker v (put_worker v workers) workers
  write_worker cluster facts q workers (by_name w) =
      let v = refreshed_worker cluster facts q workers true w in
      commit_worker v (put_worker v workers) workers
  write_worker cluster facts q workers by_none =
      let v = new_worker new_id cluster facts q in commit_worker v (workers ++ v ∷ []) workers

  unfoldable pub register_worker :
      RegisterRequest → List Cluster → List Worker → Result RegisterError (List Worker × Worker)
  unfolding text_eq is_too_old cluster_by_name registered_address match_worker write_worker
  register_worker q clusters workers = do
    raise_if (not (text_eq q.cluster_token registration_token)) invalid_cluster_token
    raise_if (not (q.protocol_version == protocol)) unsupported_protocol
    raise_if (is_too_old int_of q.version) too_old
    c ←
        or_raise (cluster_by_name (or_text q.cluster_name (codes "default")) clusters)
          cluster_not_found
    address ← registered_address q.address
    let facts : Facts = record { token_hash = sha token; now = now; address = address }
    write_worker c.id facts q workers
        (match_worker c.id (or_text q.worker_name q.hostname) q.hostname workers)
