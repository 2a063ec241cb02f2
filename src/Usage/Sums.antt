-- ===== src/Usage/Sums.antt =====
-- Any additive figure, summed over the buffer, the flush under way and the rows, is kept.
use inferna_next.Base.{
  Bool-cases, List, Option, Option-cases, [], arith, if◌then◌else◌, inl, inr, none, refl, some,
  true, ℕ, ◌+◌, ◌∷◌, ◌≡◌,
}
use inferna_next.Usage.{
  Accum, Aggregates, Event, Usage, UsageKey, accum_add, begin, cancel, commit, fail, flush_begin,
  flush_cancel, flush_commit, flush_fail, handle, increment, is_full, key_eq, record_request,
  request, run_events, sum_by, upsert, upsert_all,
}

key_eq_eq : (k j : UsageKey) → key_eq k j ≡ true → k ≡ j
unfolding key_eq
key_eq_eq k j h = ground arith

-- A figure of an aggregate that adds up.
pub record IsFigure (f : UsageKey → Accum → ℕ) : Type 0 where
  pub adds : (k : UsageKey) (a b : Accum) → f k (accum_add a b) ≡ f k a + f k b

module _ (f : UsageKey → Accum → ℕ) (figure : IsFigure f) where
  sum_by-upsert :
      (k : UsageKey) (a : Accum) (rows : Aggregates)
      → sum_by f (upsert k a rows) ≡ sum_by f rows + f k a
  unfolding sum_by upsert
  sum_by-upsert k a [] = omega arith
  sum_by-upsert k a ((j, b) ∷ rows) = elim (Bool-cases (key_eq k j)) [
    | inl same ↦ rw (same, key_eq_eq k j same) (omega (arith, figure.adds j b a))
    | inr other ↦ rw other (omega (arith, sum_by-upsert k a rows))
  ]

  pub sum_by-upsert_all :
      (more rows : Aggregates) → sum_by f (upsert_all more rows) ≡ sum_by f rows + sum_by f more
  unfolding sum_by upsert_all
  sum_by-upsert_all [] rows = omega arith
  sum_by-upsert_all ((k, a) ∷ more) rows =
      omega (arith, sum_by-upsert_all more (upsert k a rows), sum_by-upsert k a rows)

  abbrev pub flying_sum : Option Aggregates → ℕ
  flying_sum none = 0
  flying_sum (some flying) = sum_by f flying

  -- Everything that is accounted for, wherever it is.
  unfoldable pub total : Usage → ℕ
  total s = sum_by f s.rows + flying_sum s.in_flight + sum_by f s.pending

  -- What an event brings: a request that finds room.
  abbrev pub brought : ℕ → Event → Usage → ℕ
  brought limit (request k ti to ms) s = if is_full limit k s then 0 else f k (increment ti to ms)
  brought limit begin s = 0
  brought limit commit s = 0
  brought limit fail s = 0
  brought limit cancel s = 0

  -- What an event loses: a flush that is cancelled under way.
  abbrev pub lost : Event → Usage → ℕ
  lost (request k ti to ms) s = 0
  lost begin s = 0
  lost commit s = 0
  lost fail s = 0
  lost cancel s = flying_sum s.in_flight

  total-handle :
      (limit : ℕ) (e : Event) (s : Usage)
      → total (handle limit e s) + lost e s ≡ total s + brought limit e s
  unfolding total handle record_request flush_begin flush_commit flush_fail flush_cancel sum_by
  total-handle limit (request k ti to ms) s = elim (Bool-cases (is_full limit k s)) [
    | inl full ↦ rw full (omega arith)
    | inr room ↦ rw room (omega (arith, sum_by-upsert k (increment ti to ms) s.pending))
  ]
  total-handle limit begin s = elim (Option-cases s.in_flight) [
    | inl e ↦ rw e (omega arith)
    | inr (flying, e) ↦ rw e (omega arith)
  ]
  total-handle limit commit s = elim (Option-cases s.in_flight) [
    | inl e ↦ rw e (omega arith)
    | inr (flying, e) ↦ rw e (omega (arith, sum_by-upsert_all flying s.rows))
  ]
  total-handle limit fail s = elim (Option-cases s.in_flight) [
    | inl e ↦ rw e (omega arith)
    | inr (flying, e) ↦ rw e (omega (arith, sum_by-upsert_all flying s.pending))
  ]
  total-handle limit cancel s = omega arith

  unfoldable pub all_brought : ℕ → List Event → Usage → ℕ
  all_brought limit [] s = 0
  all_brought limit (e ∷ es) s = brought limit e s + all_brought limit es (handle limit e s)

  unfoldable pub all_lost : ℕ → List Event → Usage → ℕ
  all_lost limit [] s = 0
  all_lost limit (e ∷ es) s = lost e s + all_lost limit es (handle limit e s)

  -- Over any order of requests and of the steps of flushes, an additive figure of the rows, the
  -- buffer and the flush under way grows by exactly what the requests that found room brought, less
  -- what the cancelled flushes held: a commit or a failure neither loses nor repeats an aggregate.
  pub total-run_events :
      (limit : ℕ) (es : List Event) (s : Usage)
      → total (run_events limit es s) + all_lost limit es s ≡ total s + all_brought limit es s
  unfolding run_events all_brought all_lost
  total-run_events limit [] s = refl
  total-run_events limit (e ∷ es) s =
      omega (arith, total-run_events limit es (handle limit e s), total-handle limit e s)
