-- ===== src/PrefixCache/Choice.antt =====
-- What `best_instance` returns, between its first and its last reading of the clock.
use inferna_next.Base.{
  ==_iff, Bool-cases, List, Option, Option-cases, [], ap, arith, filter, inl, inr, ltb, max, none,
  refl, some, true, ℕ, ◌+◌, ◌<◌, ◌==◌, ◌∙◌, ◌∷◌, ◌≡◌, ◌≤◌, ◌⊎◌,
}
use inferna_next.Base.Text.{Text}
use inferna_next.Base.Dict.{dict_get, dict_get-dict_set, dict_set}
use inferna_next.Base.Member.{In}
use inferna_next.PrefixCache.{
  PrefixCacheIndex, Ring, best_instance, better, expire, overlap, overlap_in, scan_candidates,
}
use inferna_next.PrefixCache.Residency.{
  IsValid, expire-filter, filter-fresh, is_fresh, longest, overlap-IsLongest, resident,
  resident-nil, resident_in,
}
use inferna_next.PrefixCache.History.{overlap-IsValid}

longest-filter-le :
    (ds : List Text) (ttl now later : ℕ) (ring : Ring)
    → now ≤ later
    → longest ds (filter (is_fresh ttl later) ring) ≤ longest ds (filter (is_fresh ttl now) ring)
unfolding longest
longest-filter-le ds ttl now later [] le = omega arith
longest-filter-le ds ttl now later (p ∷ ring) le = elim (Bool-cases (ltb (p.0 + ttl) now)) [
  | inl old ↦
      let old' : ltb (p.0 + ttl) later ≡ true = ground arith in
      rw (old, old') (longest-filter-le ds ttl now later ring le)
  | inr young ↦ elim (Bool-cases (ltb (p.0 + ttl) later)) [
    | inl gone ↦ rw (young, gone) (omega (arith, longest-filter-le ds ttl now later ring le))
    | inr stays ↦ rw (young, stays) (omega (arith, longest-filter-le ds ttl now later ring le))
  ]
]

-- Residency only falls with time.
resident-le :
    (now later : ℕ) (s : PrefixCacheIndex) (id : ℕ) (ds : List Text)
    → now ≤ later
    → resident later s id ds ≤ resident now s id ds
unfolding resident
resident-le now later s id ds le = elim (Option-cases (dict_get id s.seen)) [
  | inl e ↦ rw e (omega arith)
  | inr (ring, e) ↦ rw e (longest-filter-le ds s.ttl_seconds now later ring le)
]

abbrev pub score : Option (ℕ × ℕ) → ℕ
score none = 0
score (some (c, n)) = n

-- The result `r` of a scan that began with `best`: at least every candidate's residency at the end,
-- and the residency of a candidate at the start.
pub record IsBest (clock : ℕ → ℕ) (s s' : PrefixCacheIndex) (ds : List Text)
    (best r : Option (ℕ × ℕ)) (cs : List ℕ) : Type 0 where
  pub no_less : score best ≤ score r
  pub largest : (c : ℕ) → In c cs → resident (clock s'.reads) s c ds ≤ score r
  pub resided :
      (r ≡ best)
      ⊎ ((c : ℕ) × (n : ℕ) × (r ≡ some (c, n))
          × In c cs
          × (0 < n)
          × (n ≤ resident (clock s.reads) s c ds))
  pub passed : clock s.reads ≤ clock s'.reads

module _ (clock : ℕ → ℕ) (monotone : (k : ℕ) → clock k ≤ clock (k + 1)) where
  resident-set :
      (later : ℕ) (s : PrefixCacheIndex) (id j : ℕ) (es : List Text) (left ring : Ring)
      → dict_get id s.seen ≡ some ring
      → filter (is_fresh s.ttl_seconds later) left ≡ filter (is_fresh s.ttl_seconds later) ring
      → resident later (record s { seen = dict_set id left s.seen; reads = s.reads + 1 }) j es
        ≡ resident later s j es
  unfolding resident
  resident-set later s id j es left ring e same =
      ap (resident_in s.ttl_seconds later es) (dict_get-dict_set id j left s.seen)
      ∙ elim (Bool-cases (j == id)) [
        | inr other ↦ rw other
        | inl here ↦ rw (here, (==_iff j id).0 here, e) (ap (longest es) same)
      ]

  kept_in :
      (later : ℕ) (s : PrefixCacheIndex) (id j : ℕ) (ds es : List Text) (o : Option Ring)
      → IsValid clock s
      → clock s.reads ≤ later
      → dict_get id s.seen ≡ o
      → resident later (overlap_in clock s id ds o).1 j es ≡ resident later s j es
  unfolding overlap_in
  kept_in later s id j ds es none v le e = refl
  kept_in later s id j ds es (some []) v le e = refl
  kept_in later s id j ds es (some (p ∷ ring)) v le e =
      let now = clock s.reads in
      resident-set later s id j es (expire s.ttl_seconds now (p ∷ ring)) (p ∷ ring) e (
        ap (filter (is_fresh s.ttl_seconds later))
          (expire-filter s.ttl_seconds now now (p ∷ ring) (v id (p ∷ ring) e).0)
        ∙ filter-fresh s.ttl_seconds now later (p ∷ ring) le)

  -- A call of `overlap` changes nothing that a later time can see, and time goes on.
  overlap-kept :
      (later : ℕ) (s : PrefixCacheIndex) (id j : ℕ) (ds es : List Text)
      → IsValid clock s
      → clock s.reads ≤ later
      → resident later (overlap clock s id ds).1 j es ≡ resident later s j es
  unfolding overlap
  overlap-kept later s id j [] es v le = refl
  overlap-kept later s id j (d ∷ ds) es v le =
      kept_in later s id j (d ∷ ds) es (dict_get id s.seen) v le refl

  reads_in :
      (s : PrefixCacheIndex) (id : ℕ) (ds : List Text) (o : Option Ring)
      → clock s.reads ≤ clock (overlap_in clock s id ds o).1.reads
  unfolding overlap_in
  reads_in s id ds none = omega arith
  reads_in s id ds (some []) = omega arith
  reads_in s id ds (some (p ∷ ring)) = monotone s.reads

  reads_on :
      (s : PrefixCacheIndex) (id : ℕ) (ds : List Text)
      → clock s.reads ≤ clock (overlap clock s id ds).1.reads
  unfolding overlap
  reads_on s id [] = omega arith
  reads_on s id (d ∷ ds) = reads_in s id (d ∷ ds) (dict_get id s.seen)

  better-score :
      (best : Option (ℕ × ℕ)) (c n : ℕ)
      → (score (better best c n) ≡ max (score best) n)
        × ((better best c n ≡ best) ⊎ ((better best c n ≡ some (c, n)) × (0 < n)))
  unfolding better
  better-score none c n = ground arith
  better-score (some (b, m)) c n = ground arith

  module _ (s s1 s' : PrefixCacheIndex) (ds : List Text) (best r : Option (ℕ × ℕ)) (c n : ℕ)
      (cs : List ℕ) (rest : IsBest clock s1 s' ds (better best c n) r cs)
      (value : n ≡ resident (clock s.reads) s c ds)
      (kept : (later j : ℕ)
        → clock s.reads ≤ later
        → resident later s1 j ds ≡ resident later s j ds)
      (on : clock s.reads ≤ clock s1.reads) where
    to_end : clock s.reads ≤ clock s'.reads
    to_end = omega (arith, rest.passed, on)

    largest_of : (x : ℕ) → In x (c ∷ cs) → resident (clock s'.reads) s x ds ≤ score r
    largest_of x (inl e) =
        let falls = resident-le (clock s.reads) (clock s'.reads) s c ds to_end in
        rw e (omega (arith, falls, value, (better-score best c n).0, rest.no_less))
    largest_of x (inr m) = omega (arith, rest.largest x m, kept (clock s'.reads) x to_end)

    resided_of :
        (r ≡ better best c n)
          ⊎ ((d : ℕ) × (m : ℕ) × (r ≡ some (d, m))
              × In d cs
              × (0 < m)
              × (m ≤ resident (clock s1.reads) s1 d ds))
        → (r ≡ best)
          ⊎ ((d : ℕ) × (m : ℕ) × (r ≡ some (d, m))
              × In d (c ∷ cs)
              × (0 < m)
              × (m ≤ resident (clock s.reads) s d ds))
    resided_of (inl e) = elim (better-score best c n).1 [
      | inl same ↦ inl (e ∙ same)
      | inr (won, more) ↦ inr (c, n, e ∙ won, inl refl, more, omega (arith, value))
    ]
    resided_of (inr (d, m, e, i, more, le)) =
        let falls = resident-le (clock s.reads) (clock s1.reads) s d ds on in
        inr (d, m, e, inr i, more, omega (arith, le, kept (clock s1.reads) d on, falls))

    scan-step : IsBest clock s s' ds best r (c ∷ cs)
    scan-step = record {
      no_less = omega (arith, (better-score best c n).0, rest.no_less);
      largest = largest_of;
      resided = resided_of rest.resided;
      passed = to_end;
    }

  scan_candidates-IsBest :
      (s : PrefixCacheIndex) (ds : List Text) (best : Option (ℕ × ℕ)) (cs : List ℕ)
      → IsValid clock s
      → IsBest clock s
          (scan_candidates clock s ds best cs).1
          ds
          best
          (scan_candidates clock s ds best cs).0
          cs
  unfolding scan_candidates
  scan_candidates-IsBest s ds best [] v = record {
    no_less = omega arith;
    largest = λ c m. absurd m;
    resided = inl refl;
    passed = omega arith;
  }
  scan_candidates-IsBest s ds best (c ∷ cs) v =
      let s1 = (overlap clock s c ds).1 in
      let n = (overlap clock s c ds).0 in
      scan-step s s1 (scan_candidates clock s1 ds (better best c n) cs).1 ds best
        (scan_candidates clock s1 ds (better best c n) cs).0 c n cs
        (scan_candidates-IsBest s1 ds (better best c n) cs
          (overlap-IsValid clock monotone s c ds v))
        (overlap-IsLongest clock s v c ds) (λ later j le. overlap-kept later s c j ds ds v le)
        (reads_on s c ds)

  -- In a valid index, with a clock that never goes back: the instance that `best_instance` returns is
  -- a candidate, and its count is positive and was resident when the call began; no candidate has a
  -- longer resident prefix when the call ends, and if the call returns nothing, none has any.
  pub best_instance-IsBest :
      (s : PrefixCacheIndex) (ds : List Text) (cs : List ℕ)
      → IsValid clock s
      → IsBest clock s (best_instance clock s ds cs).1 ds none (best_instance clock s ds cs).0 cs
  unfolding best_instance
  best_instance-IsBest s [] cs v = record {
    no_less = omega arith;
    largest = λ c m. omega (arith, resident-nil (clock s.reads) s c);
    resided = inl refl;
    passed = omega arith;
  }
  best_instance-IsBest s (d ∷ ds) [] v = nothing_to_scan s (d ∷ ds) none v
    where
      nothing_to_scan :
          (s : PrefixCacheIndex) (ds : List Text) (best : Option (ℕ × ℕ))
          → IsValid clock s
          → IsBest clock s s ds best best []
      nothing_to_scan s ds best v = record {
        no_less = omega arith;
        largest = λ c m. absurd m;
        resided = inl refl;
        passed = omega arith;
      }
  best_instance-IsBest s (d ∷ ds) (c ∷ cs) v = scan_candidates-IsBest s (d ∷ ds) none (c ∷ cs) v
