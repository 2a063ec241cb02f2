-- ===== src/Gateway.antt =====
-- The gateway's choice of an instance and its active slots (`_resolve_target` up to the end of its
-- critical section, and `_release_instance`, of server/inferna_server/api/gateway.py). The lock makes
-- each of the two one step; `clock` is the clock of the prefix index.
pub mod Selection
pub mod Slots
pub mod Target
use inferna_next.Base.{
  Bool, List, Option, [], any, false, filter, if◌then◌else◌, leb, ltb, max, none, some, true, ℕ,
  ◌&&◌, ◌+◌, ◌-◌, ◌==◌, ◌||◌, ◌∷◌,
}
use inferna_next.Base.Text.{Text}
use inferna_next.Base.Dict.{dict_get, dict_pop, dict_set}
use inferna_next.Base.Sorting.{sort_by}
use inferna_next.Models.{Db, ModelInstance, is_live}
use inferna_next.PrefixCache.{PrefixCacheIndex, note_lookup, overlap}

-- The module's globals: the active slots, the stamps of the last assignment, and the next stamp.
pub record Gateway : Type 0 where
  pub active : List (ℕ × ℕ)
  pub last_assigned : List (ℕ × ℕ)
  pub assign_seq : ℕ
  pub index : PrefixCacheIndex

-- `d.get(key, default)`
abbrev pub value_or : Option ℕ → ℕ → ℕ
value_or none default = default
value_or (some n) default = n

-- `port is not None`, and the head of a group or no group at all.
unfoldable pub is_routable : ℕ → ModelInstance → Bool
is_routable model_id i =
    i.model.id == model_id
    && (is_live i.state
        && (elim i.port [ none ↦ false | some p ↦ true ] && elim i.parallel_group_id [
          | none ↦ true
          | some g ↦ elim i.node_rank [ none ↦ false | some rank ↦ rank == 0 ]
        ]))

unfoldable pub routable : Db → ℕ → List ModelInstance
unfolding is_routable sort_by
routable db model_id =
    sort_by (λ i j. leb i.created_at j.created_at) (filter (is_routable model_id) db.instances)

-- `{row.id: prefix_cache.overlap(row.id, prompt_digests) for row in rows}`, next to the rows.
unfoldable pub overlaps :
    (ℕ → ℕ)
    → PrefixCacheIndex
    → List Text
    → List ModelInstance
    → List (ModelInstance × ℕ) × PrefixCacheIndex
unfolding overlap
overlaps clock s digests [] = ([], s)
overlaps clock s digests (i ∷ is) =
    let here = overlap clock s i.id digests in
    let rest = overlaps clock here.1 digests is in ((i, here.0) ∷ rest.0, rest.1)

-- `max(overlaps.values(), default=0)`
unfoldable pub best_overlap : List (ModelInstance × ℕ) → ℕ
best_overlap [] = 0
best_overlap ((i, n) ∷ scored) = max n (best_overlap scored)

unfoldable pub rows_of : List (ModelInstance × ℕ) → List ModelInstance
rows_of [] = []
rows_of ((i, n) ∷ scored) = i ∷ rows_of scored

-- The rows with the best overlap, or all rows if there is none.
unfoldable pub pool_of : List (ModelInstance × ℕ) → List ModelInstance
unfolding best_overlap rows_of
pool_of scored =
    let best = best_overlap scored in
    if best == 0 then rows_of scored else rows_of (filter (λ p. p.1 == best) scored)

unfoldable pub load_of : Gateway → ModelInstance → ℕ
unfolding dict_get
load_of g i = value_or (dict_get i.id g.active) 0

unfoldable pub stamp_of : Gateway → ModelInstance → ℕ
unfolding dict_get
stamp_of g i = value_or (dict_get i.id g.last_assigned) 0

-- The order of the pairs (load, stamp).
unfoldable pub is_before : Gateway → ModelInstance → ModelInstance → Bool
unfolding load_of stamp_of
is_before g i j =
    ltb (load_of g i) (load_of g j)
    || (load_of g i == load_of g j && ltb (stamp_of g i) (stamp_of g j))

-- `min`, which keeps the first of equal ones.
unfoldable pub min_from : Gateway → ModelInstance → List ModelInstance → ModelInstance
unfolding is_before
min_from g best [] = best
min_from g best (i ∷ is) = min_from g (if is_before g i best then i else best) is

unfoldable pub least_loaded : Gateway → List ModelInstance → Option ModelInstance
unfolding min_from
least_loaded g [] = none
least_loaded g (i ∷ is) = some (min_from g i is)

-- The worker of the row is there.
unfoldable pub has_worker : Db → ModelInstance → Bool
has_worker db i = elim i.worker_id [
  | none ↦ false
  | some w ↦ any (λ worker. worker.id == w) db.workers
]

-- The stamp and the slot of the chosen instance.
unfoldable pub assign : Gateway → ModelInstance → Gateway
unfolding dict_get dict_set
assign g i = record g {
  last_assigned = dict_set i.id g.assign_seq g.last_assigned;
  assign_seq = g.assign_seq + 1;
  active = dict_set i.id (value_or (dict_get i.id g.active) 0 + 1) g.active;
}

abbrev pub reserve_for : Db → Gateway → Option ModelInstance → Option ModelInstance × Gateway
reserve_for db g none = (none, g)
reserve_for db g (some i) = if has_worker db i then (some i, assign g i) else (none, g)

-- The critical section; nothing is the 404 of a model without a running instance.
unfoldable pub reserve : (ℕ → ℕ) → Db → ℕ → List Text → Gateway → Option ModelInstance × Gateway
unfolding routable overlaps pool_of least_loaded assign note_lookup has_worker
reserve clock db model_id digests g =
    let scored = overlaps clock g.index digests (routable db model_id) in
    let chosen = least_loaded g (pool_of scored.0) in
    let index' = note_lookup scored.1 (ltb 0 (best_overlap scored.0)) in
    reserve_for db (record g { index = index' }) chosen

-- `_release_instance`
unfoldable pub release : Gateway → ℕ → Gateway
unfolding dict_get dict_set dict_pop
release g id =
    let n = value_or (dict_get id g.active) 1 - 1 in
    record g { active = if n == 0 then dict_pop id g.active else dict_set id n g.active }
