-- ===== src/Usage/Quota.antt =====
-- The quota test, and what it counts.
use inferna_next.Base.{Option, [], ap₂, arith, none, refl, some, ℕ, ◌+◌, ◌<◌, ◌↔◌, ◌≡◌}
use inferna_next.Usage.{
  Accum, Usage, UsageKey, User, accum_add, check_quota, exhausted, flush_begin, flush_commit,
  flush_fail, or_else, requests_of, sum_by, tokens_of, usage_today,
}
use inferna_next.Usage.Sums.{IsFigure, sum_by-upsert_all}

pub requests_of-IsFigure : (user day : ℕ) → IsFigure (requests_of user day)
unfolding requests_of accum_add
requests_of-IsFigure user day = record { adds = λ k a b. ground arith }

pub tokens_of-IsFigure : (user day : ℕ) → IsFigure (tokens_of user day)
unfolding tokens_of accum_add
tokens_of-IsFigure user day = record { adds = λ k a b. ground arith }

-- A figure of the buffer while a flush is under way, and once it has committed or failed.
module _ (f : UsageKey → Accum → ℕ) (figure : IsFigure f) (s : Usage)
    (quiet : s.in_flight ≡ none) where
  abbrev visible : Usage → ℕ
  visible t = sum_by f t.rows + sum_by f t.pending

  visible-begin : visible (flush_begin s) + sum_by f s.pending ≡ visible s
  unfolding flush_begin sum_by
  visible-begin = rw quiet (omega arith)

  visible-commit : visible (flush_commit (flush_begin s)) ≡ visible s
  unfolding flush_commit flush_begin sum_by
  visible-commit = rw quiet (omega (arith, sum_by-upsert_all f figure s.pending s.rows))

  visible-fail : visible (flush_fail (flush_begin s)) ≡ visible s
  unfolding flush_fail flush_begin sum_by
  visible-fail = rw quiet (omega (arith, sum_by-upsert_all f figure s.pending []))

-- While a flush is under way the two counts of a user's day miss exactly what the buffer held of
-- them when the flush began, and once it has committed, or failed, both are again what they were
-- before it, if no other flush was under way.
pub usage_today-flush :
    (s : Usage) (user day : ℕ)
    → s.in_flight ≡ none
    → ((usage_today (flush_begin s) user day).0 + sum_by (requests_of user day) s.pending
        ≡ (usage_today s user day).0)
      × ((usage_today (flush_begin s) user day).1 + sum_by (tokens_of user day) s.pending
          ≡ (usage_today s user day).1)
      × (usage_today (flush_commit (flush_begin s)) user day ≡ usage_today s user day)
      × (usage_today (flush_fail (flush_begin s)) user day ≡ usage_today s user day)
unfolding usage_today
usage_today-flush s user day quiet =
    let requests = requests_of-IsFigure user day in
    let tokens = tokens_of-IsFigure user day in
    (
      visible-begin (requests_of user day) requests s quiet,
      visible-begin (tokens_of user day) tokens s quiet,
      ap₂ pair (visible-commit (requests_of user day) requests s quiet)
          (visible-commit (tokens_of user day) tokens s quiet),
      ap₂ pair (visible-fail (requests_of user day) requests s quiet)
          (visible-fail (tokens_of user day) tokens s quiet),
    )
  where
    pair : ℕ → ℕ → ℕ × ℕ
    pair n m = (n, m)

-- A limit that is set is not reached.
abbrev pub IsBelow : ℕ → Option ℕ → Type 0
IsBelow used none = Unit
IsBelow used (some limit) = used < limit

exhausted_iff : (used : ℕ) (limit : Option ℕ) → (exhausted used limit ≡ none) ↔ IsBelow used limit
exhausted_iff used none = ((λ h. tt), (λ h. refl))
exhausted_iff used (some limit) = ground arith

or_else-none :
    (first second : Option (ℕ × ℕ))
    → (or_else first second ≡ none) ↔ ((first ≡ none) × (second ≡ none))
or_else-none none second = ((λ h. (refl, h)), (λ h. h.1))
or_else-none (some hit) second = ((λ h. cc), (λ h. let first = h.0 in cc))

-- `check_quota` returns nothing exactly if the user's counts of the day are below both limits that
-- are set.
pub check_quota_iff :
    (s : Usage) (day : ℕ) (user : User)
    → (check_quota s day user ≡ none) ↔ (
        IsBelow (usage_today s user.id day).0 user.request_limit
        × IsBelow (usage_today s user.id day).1 user.token_limit)
unfolding check_quota
check_quota_iff s day user =
    let both =
      or_else-none (exhausted (usage_today s user.id day).0 user.request_limit)
        (exhausted (usage_today s user.id day).1 user.token_limit) in
    let asked = exhausted_iff (usage_today s user.id day).0 user.request_limit in
    let spent = exhausted_iff (usage_today s user.id day).1 user.token_limit in
    ((λ h. (asked.0 (both.0 h).0, spent.0 (both.0 h).1)), (λ h. both.1 (asked.1 h.0, spent.1 h.1)))
