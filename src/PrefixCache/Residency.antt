-- ===== src/PrefixCache/Residency.antt =====
-- What `overlap` returns, on rings whose entries stand in the order of their times.
use inferna_next.Base.{
  Bool, Bool-cases, List, Option, Option-cases, [], ap, arith, drop, false, filter, inl, inr,
  length, ltb, max, none, not, refl, some, suc, sym, true, zero, ℕ, ◌++◌, ◌+◌, ◌∙◌, ◌∷◌, ◌≡◌, ◌≤◌,
}
use inferna_next.Base.Text.{Text}
use inferna_next.Base.Dict.{dict_get}
use inferna_next.Base.Member.{All}
use inferna_next.PrefixCache.{
  PrefixCacheIndex, Ring, expire, leading, overlap, overlap_in, scan_ring,
}

abbrev pub is_fresh : ℕ → ℕ → ℕ × List Text → Bool
is_fresh ttl now p = not (ltb (p.0 + ttl) now)

-- The longest leading run of the digests over all entries.
unfoldable pub longest : List Text → Ring → ℕ
longest digests [] = 0
longest digests (p ∷ ring) = max (leading digests p.1) (longest digests ring)

-- The entries' times ascend, up to `now`.
abbrev pub AscendTo : ℕ → Ring → Type 0
AscendTo now [] = Unit
AscendTo now (p ∷ ring) =
    (p.0 ≤ now) × (All (λ (q : ℕ × List Text). p.0 ≤ q.0) ring) × AscendTo now ring

leading-le-length : (ds resident : List Text) → leading ds resident ≤ length ds
unfolding leading
leading-le-length [] resident = omega arith
leading-le-length (d ∷ ds) resident = ground (arith, leading-le-length ds resident)

longest-le-length : (ds : List Text) (ring : Ring) → longest ds ring ≤ length ds
unfolding longest
longest-le-length ds [] = omega arith
longest-le-length ds (p ∷ ring) = omega (arith, leading-le-length ds p.1, longest-le-length ds ring)

scan_ring-longest :
    (ds : List Text) (best : ℕ) (ring : Ring) → scan_ring ds best ring ≡ max best (longest ds ring)
unfolding scan_ring longest
scan_ring-longest ds best [] = omega arith
scan_ring-longest ds best ((t, resident) ∷ ring) = ground (
  arith,
  scan_ring-longest ds best ring,
  scan_ring-longest ds (leading ds resident) ring,
  longest-le-length ds ring,
)

filter-All :
    (p : ℕ × List Text → Bool) (ring : Ring) → All (λ q. p q ≡ true) ring → filter p ring ≡ ring
filter-All p [] h = refl
filter-All p (q ∷ ring) h = rw (h.0, filter-All p ring h.1)

later-fresh :
    (ttl now t : ℕ) (ring : Ring)
    → ltb (t + ttl) now ≡ false
    → All (λ (q : ℕ × List Text). t ≤ q.0) ring
    → All (λ q. is_fresh ttl now q ≡ true) ring
later-fresh ttl now t [] e h = tt
later-fresh ttl now t (q ∷ ring) e h =
    ((let h0 = h.0 in ground arith), later-fresh ttl now t ring e h.1)

-- On such a ring `_expire` drops exactly the entries that are too old.
pub expire-filter :
    (ttl now now' : ℕ) (ring : Ring)
    → AscendTo now' ring
    → expire ttl now ring ≡ filter (is_fresh ttl now) ring
unfolding expire
expire-filter ttl now now' [] h = refl
expire-filter ttl now now' ((t, ds) ∷ ring) h = elim (Bool-cases (ltb (t + ttl) now)) [
  | inl old ↦ rw old (expire-filter ttl now now' ring h.2)
  | inr young ↦
      rw (young, filter-All (is_fresh ttl now) ring (later-fresh ttl now t ring young h.1))
]

pub ascend-later :
    (now now' : ℕ) (ring : Ring) → now ≤ now' → AscendTo now ring → AscendTo now' ring
ascend-later now now' [] le h = tt
ascend-later now now' (p ∷ ring) le h =
    ((let h0 = h.0 in omega arith), h.1, ascend-later now now' ring le h.2)

All-drop {κ} : (P : ℕ × List Text → Type κ) (n : ℕ) (ring : Ring) → All P ring → All P (drop n ring)
All-drop P zero ring h = h
All-drop P (suc n) [] h = tt
All-drop P (suc n) (p ∷ ring) h = All-drop P n ring h.1

pub ascend-drop : (now n : ℕ) (ring : Ring) → AscendTo now ring → AscendTo now (drop n ring)
ascend-drop now zero ring h = h
ascend-drop now (suc n) [] h = tt
ascend-drop now (suc n) (p ∷ ring) h = ascend-drop now n ring h.2

All-snoc :
    (t now : ℕ) (ds : List Text) (ring : Ring)
    → t ≤ now
    → All (λ (q : ℕ × List Text). t ≤ q.0) ring
    → All (λ (q : ℕ × List Text). t ≤ q.0) (ring ++ (now, ds) ∷ [])
All-snoc t now ds [] le h = (le, tt)
All-snoc t now ds (p ∷ ring) le h = (h.0, All-snoc t now ds ring le h.1)

pub ascend-snoc :
    (now : ℕ) (ds : List Text) (ring : Ring)
    → AscendTo now ring
    → AscendTo now (ring ++ (now, ds) ∷ [])
ascend-snoc now ds [] h = (omega arith, tt, tt)
ascend-snoc now ds (p ∷ ring) h =
    (h.0, All-snoc p.0 now ds ring h.0 h.1, ascend-snoc now ds ring h.2)

All-expire :
    (t ttl now : ℕ) (ring : Ring)
    → All (λ (q : ℕ × List Text). t ≤ q.0) ring
    → All (λ (q : ℕ × List Text). t ≤ q.0) (expire ttl now ring)
unfolding expire
All-expire t ttl now [] h = tt
All-expire t ttl now (p ∷ ring) h = elim (Bool-cases (ltb (p.0 + ttl) now)) [
  | inl old ↦ rw old (All-expire t ttl now ring h.1)
  | inr young ↦ rw young h
]

pub ascend-expire :
    (ttl now now' : ℕ) (ring : Ring) → AscendTo now' ring → AscendTo now' (expire ttl now ring)
unfolding expire
ascend-expire ttl now now' [] h = tt
ascend-expire ttl now now' (p ∷ ring) h = elim (Bool-cases (ltb (p.0 + ttl) now)) [
  | inl old ↦ rw old (ascend-expire ttl now now' ring h.2)
  | inr young ↦ rw young h
]

pub length-expire-le : (ttl now : ℕ) (ring : Ring) → length (expire ttl now ring) ≤ length ring
unfolding expire
length-expire-le ttl now [] = omega arith
length-expire-le ttl now (p ∷ ring) = ground (arith, length-expire-le ttl now ring)

pub filter-fresh :
    (ttl now later : ℕ) (ring : Ring)
    → now ≤ later
    → filter (is_fresh ttl later) (filter (is_fresh ttl now) ring)
      ≡ filter (is_fresh ttl later) ring
filter-fresh ttl now later [] le = refl
filter-fresh ttl now later (p ∷ ring) le = elim (Bool-cases (ltb (p.0 + ttl) now)) [
  | inl old ↦
      let old' : ltb (p.0 + ttl) later ≡ true = ground arith in
      rw (old, old') (filter-fresh ttl now later ring le)
  | inr young ↦ rw (young, filter-fresh ttl now later ring le)
]

-- What the index holds of the digests for one instance at the time `now`.
abbrev pub resident_in : ℕ → ℕ → List Text → Option Ring → ℕ
resident_in ttl now digests none = 0
resident_in ttl now digests (some ring) = longest digests (filter (is_fresh ttl now) ring)

unfoldable pub resident : ℕ → PrefixCacheIndex → ℕ → List Text → ℕ
resident now s id digests = resident_in s.ttl_seconds now digests (dict_get id s.seen)

-- Every ring is in the order of time, and within its bound.
abbrev pub IsRing : ℕ → ℕ → Ring → Type 0
IsRing now size ring = AscendTo now ring × (length ring ≤ size)

abbrev pub IsValid : (ℕ → ℕ) → PrefixCacheIndex → Type 0
IsValid clock s =
    (id : ℕ) (ring : Ring)
    → dict_get id s.seen ≡ some ring
    → IsRing (clock s.reads) s.max_per_instance ring

longest-nil : (ring : Ring) → longest [] ring ≡ 0
unfolding longest leading
longest-nil [] = refl
longest-nil (p ∷ ring) = omega (arith, longest-nil ring)

pub resident-nil : (now : ℕ) (s : PrefixCacheIndex) (id : ℕ) → resident now s id [] ≡ 0
unfolding resident
resident-nil now s id = elim (Option-cases (dict_get id s.seen)) [
  | inl e ↦ rw e
  | inr (ring, e) ↦ rw e (longest-nil (filter (is_fresh s.ttl_seconds now) ring))
]

module _ (clock : ℕ → ℕ) (s : PrefixCacheIndex) (ok : IsValid clock s) where
  overlap_in-longest :
      (id : ℕ) (ds : List Text) (o : Option Ring)
      → dict_get id s.seen ≡ o
      → (overlap_in clock s id ds o).0 ≡ resident_in s.ttl_seconds (clock s.reads) ds o
  unfolding overlap_in longest
  overlap_in-longest id ds none e = refl
  overlap_in-longest id ds (some []) e = refl
  overlap_in-longest id ds (some (p ∷ ring)) e =
      let now = clock s.reads in
      scan_ring-longest ds 0 (expire s.ttl_seconds now (p ∷ ring))
      ∙ ap (λ r. max 0 (longest ds r))
          (expire-filter s.ttl_seconds now now (p ∷ ring) (ok id (p ∷ ring) e).0)
      ∙ omega arith

  overlap_in-resident :
      (id : ℕ) (ds : List Text)
      → (overlap_in clock s id ds (dict_get id s.seen)).0 ≡ resident (clock s.reads) s id ds
  unfolding resident
  overlap_in-resident id ds = overlap_in-longest id ds (dict_get id s.seen) refl

  -- In a valid index `overlap` returns the longest leading run of the digests that one entry of the
  -- instance, not older than the time to live, holds. An entry that has expired never counts, and
  -- the early exit on a full match loses nothing.
  pub overlap-IsLongest :
      (id : ℕ) (ds : List Text) → (overlap clock s id ds).0 ≡ resident (clock s.reads) s id ds
  unfolding overlap
  overlap-IsLongest id [] = sym (resident-nil (clock s.reads) s id)
  overlap-IsLongest id (d ∷ ds) = overlap_in-resident id (d ∷ ds)
