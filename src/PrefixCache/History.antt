-- ===== src/PrefixCache/History.antt =====
-- The index over a sequence of operations: what they keep, and what `best_instance` returns.
use inferna_next.Base.{
  Bool, Bool-cases, List, Option, Option-cases, [], arith, false, if◌then◌else◌, inl, inr, length,
  length-drop, none, refl, some, subst, sym, true, ℕ, ◌++◌, ◌+◌, ◌-◌, ◌==◌, ◌∙◌, ◌∷◌, ◌≡◌, ◌≤◌, ◌⊎◌,
}
use inferna_next.Base.Text.{Text}
use inferna_next.Base.Dict.{dict_get, dict_get-dict_pop, dict_get-dict_set, dict_set}
use inferna_next.PrefixCache.{
  PrefixCacheIndex, Ring, best_instance, better, forget, new_index, note_lookup, overlap,
  overlap_in, record_prefix, ring_append, ring_or_new, scan_candidates,
}
use inferna_next.PrefixCache.Residency.{
  IsRing, IsValid, ascend-drop, ascend-expire, ascend-later, ascend-snoc, length-expire-le,
}

-- One call of a method of the index.
pub data Step (clock : ℕ → ℕ) : PrefixCacheIndex → PrefixCacheIndex → Type 0 where
  recorded :
      (s : PrefixCacheIndex) (id : ℕ) (ds : List Text) → Step clock s (record_prefix clock s id ds)
  looked : (s : PrefixCacheIndex) (id : ℕ) (ds : List Text) → Step clock s (overlap clock s id ds).1
  selected :
      (s : PrefixCacheIndex) (ds : List Text) (cs : List ℕ)
      → Step clock s (best_instance clock s ds cs).1
  noted : (s : PrefixCacheIndex) (matched : Bool) → Step clock s (note_lookup s matched)
  forgotten : (s : PrefixCacheIndex) (id : ℕ) → Step clock s (forget s id)

pub data IsReachable (clock : ℕ → ℕ) (ttl size : ℕ) : PrefixCacheIndex → Type 0 where
  created : IsReachable clock ttl size (new_index ttl size)
  after :
      {s s' : PrefixCacheIndex}
      → IsReachable clock ttl size s
      → Step clock s s'
      → IsReachable clock ttl size s'

module _ (clock : ℕ → ℕ) (monotone : (k : ℕ) → clock k ≤ clock (k + 1)) where
  -- Writing a good ring, with one more reading of the clock, keeps the index valid.
  set-IsValid :
      (s : PrefixCacheIndex) (id : ℕ) (ring : Ring)
      → IsValid clock s
      → IsRing (clock s.reads) s.max_per_instance ring
      → IsValid clock (record s { seen = dict_set id ring s.seen; reads = s.reads + 1 })
  set-IsValid s id ring v r j other e = elim (Bool-cases (j == id)) [
    | inl same ↦ later (
        elim_some (j == id) (dict_get j s.seen) same (sym (dict_get-dict_set id j ring s.seen) ∙ e))
    | inr ne ↦
        v' (
          elim_other (j == id) (dict_get j s.seen) ne
            (sym (dict_get-dict_set id j ring s.seen) ∙ e))
  ]
    where
      elim_some :
          (b : Bool) (o : Option Ring)
          → b ≡ true
          → (if b then some ring else o) ≡ some other
          → ring ≡ other
      elim_some b o h k = cc

      elim_other :
          (b : Bool) (o : Option Ring)
          → b ≡ false
          → (if b then some ring else o) ≡ some other
          → o ≡ some other
      elim_other b o h k = cc

      later : ring ≡ other → IsRing (clock (s.reads + 1)) s.max_per_instance other
      later same =
          subst (IsRing (clock (s.reads + 1)) s.max_per_instance) same
            (ascend-later (clock s.reads) (clock (s.reads + 1)) ring (monotone s.reads) r.0, r.1)

      v' : dict_get j s.seen ≡ some other → IsRing (clock (s.reads + 1)) s.max_per_instance other
      v' h =
          let old = v j other h in
          (ascend-later (clock s.reads) (clock (s.reads + 1)) other (monotone s.reads) old.0, old.1)

  ring_append-IsRing :
      (now size : ℕ) (ds : List Text) (ring : Ring)
      → IsRing now size ring
      → IsRing now size (ring_append size (now, ds) ring)
  unfolding ring_append
  ring_append-IsRing now size ds ring r = (
    ascend-drop now (length (ring ++ (now, ds) ∷ []) - size) _ (ascend-snoc now ds ring r.0),
    omega (arith, length-drop (length (ring ++ (now, ds) ∷ []) - size) (ring ++ (now, ds) ∷ [])),
  )

  record_prefix-IsValid :
      (s : PrefixCacheIndex) (id : ℕ) (ds : List Text)
      → IsValid clock s
      → IsValid clock (record_prefix clock s id ds)
  unfolding record_prefix
  record_prefix-IsValid s id [] v = v
  record_prefix-IsValid s id (d ∷ ds) v = set-IsValid s id _ v (
      ring_append-IsRing (clock s.reads) s.max_per_instance (d ∷ ds) _
        (old (Option-cases (dict_get id s.seen))))
    where
      old :
          (dict_get id s.seen ≡ none) ⊎ ((ring : Ring) × (dict_get id s.seen ≡ some ring))
          → IsRing (clock s.reads) s.max_per_instance (ring_or_new (dict_get id s.seen))
      old (inl e) = rw e (tt, omega arith)
      old (inr (ring, e)) = rw e (v id ring e)

  overlap_in-IsValid :
      (s : PrefixCacheIndex) (id : ℕ) (ds : List Text) (o : Option Ring)
      → IsValid clock s
      → dict_get id s.seen ≡ o
      → IsValid clock (overlap_in clock s id ds o).1
  unfolding overlap_in
  overlap_in-IsValid s id ds none v e = v
  overlap_in-IsValid s id ds (some []) v e = v
  overlap_in-IsValid s id ds (some (p ∷ ring)) v e =
      let old = v id (p ∷ ring) e in
      set-IsValid s id _ v (
        ascend-expire s.ttl_seconds (clock s.reads) (clock s.reads) (p ∷ ring) old.0,
        omega (arith, old.1, length-expire-le s.ttl_seconds (clock s.reads) (p ∷ ring)),
      )

  pub overlap-IsValid :
      (s : PrefixCacheIndex) (id : ℕ) (ds : List Text)
      → IsValid clock s
      → IsValid clock (overlap clock s id ds).1
  unfolding overlap
  overlap-IsValid s id [] v = v
  overlap-IsValid s id (d ∷ ds) v = overlap_in-IsValid s id (d ∷ ds) (dict_get id s.seen) v refl

  scan_candidates-IsValid :
      (s : PrefixCacheIndex) (ds : List Text) (best : Option (ℕ × ℕ)) (cs : List ℕ)
      → IsValid clock s
      → IsValid clock (scan_candidates clock s ds best cs).1
  unfolding scan_candidates
  scan_candidates-IsValid s ds best [] v = v
  scan_candidates-IsValid s ds best (c ∷ cs) v =
      scan_candidates-IsValid (overlap clock s c ds).1 ds (better best c (overlap clock s c ds).0)
        cs (overlap-IsValid s c ds v)

  best_instance-IsValid :
      (s : PrefixCacheIndex) (ds : List Text) (cs : List ℕ)
      → IsValid clock s
      → IsValid clock (best_instance clock s ds cs).1
  unfolding best_instance
  best_instance-IsValid s [] cs v = v
  best_instance-IsValid s (d ∷ ds) [] v = v
  best_instance-IsValid s (d ∷ ds) (c ∷ cs) v = scan_candidates-IsValid s (d ∷ ds) none (c ∷ cs) v

  forget-IsValid : (s : PrefixCacheIndex) (id : ℕ) → IsValid clock s → IsValid clock (forget s id)
  unfolding forget
  forget-IsValid s id v j ring e =
      v j ring (kept (j == id) (sym (dict_get-dict_pop id j s.seen) ∙ e))
    where
      kept : (b : Bool) {o : Option Ring} → (if b then none else o) ≡ some ring → o ≡ some ring
      kept true h = cc
      kept false h = h

  Step-IsValid : {s s' : PrefixCacheIndex} → Step clock s s' → IsValid clock s → IsValid clock s'
  unfolding note_lookup
  Step-IsValid (recorded s id ds) v = record_prefix-IsValid s id ds v
  Step-IsValid (looked s id ds) v = overlap-IsValid s id ds v
  Step-IsValid (selected s ds cs) v = best_instance-IsValid s ds cs v
  Step-IsValid (noted s matched) v = v
  Step-IsValid (forgotten s id) v = forget-IsValid s id v

  new_index-IsValid : (ttl size : ℕ) → IsValid clock (new_index ttl size)
  unfolding dict_get
  new_index-IsValid ttl size id ring e = cc

  -- If the clock never goes back, then in every index that the methods reach from an empty one each
  -- instance has at most `max_per_instance` entries, in the order of their times, and none from
  -- after the present.
  pub reachable-IsValid :
      {ttl size : ℕ} {s : PrefixCacheIndex} → IsReachable clock ttl size s → IsValid clock s
  reachable-IsValid {ttl = ttl} {size = size} created = new_index-IsValid ttl size
  reachable-IsValid {ttl = ttl} {size = size} (after r step) =
      Step-IsValid step (reachable-IsValid r)
