-- ===== src/PrefixCache.antt =====
-- The prefix-cache index of the gateway (server/inferna_server/services/prefix_cache.py). `sha` is
-- `hashlib.sha256(text.encode()).hexdigest()`, and `clock k` the k-th reading of the index's clock:
-- times are whole ticks. Instance ids are numbers, and a set of digests is the list that it was
-- built from.
pub mod Blocks
pub mod Residency
pub mod History
pub mod Choice
use inferna_next.Base.{
  Bool, List, Option, [], drop, false, if◌then◌else◌, length, ltb, none, some, suc, take, zero, ℕ,
  ◌&&◌, ◌*◌, ◌++◌, ◌+◌, ◌-◌, ◌==◌, ◌||◌, ◌∷◌,
}
use inferna_next.Base.Text.{Text, text_eq}
use inferna_next.Base.Dict.{dict_get, dict_pop, dict_set}

-- `PREFIX_BLOCK_CHARS`
abbrev pub prefix_block_chars : ℕ
prefix_block_chars = 128 * 4

-- `f"{previous}|{chunk}"`
unfoldable pub chained : Text → Text → Text
chained previous chunk = previous ++ (b'|' ∷ chunk)

-- The loop of `blocks`, with the rest of the text in place of the slices' start.
unfoldable pub blocks_from : (Text → Text) → ℕ → ℕ → Text → Text → List Text
unfolding chained
blocks_from sha zero size previous text = []
blocks_from sha (suc fuel) size previous [] = []
blocks_from sha (suc fuel) size previous (c ∷ text) =
    let digest = take 16 (sha (chained previous (take size (c ∷ text)))) in
    digest ∷ blocks_from sha fuel size digest (drop size (c ∷ text))

-- `blocks`, for a positive block size: every round takes a character, so the text's length is
-- enough fuel.
unfoldable pub blocks : (Text → Text) → ℕ → Text → List Text
unfolding blocks_from
blocks sha size text = blocks_from sha (length text) size [] text

abbrev pub Ring : Type 0
Ring = List (ℕ × List Text)

-- `reads` counts the readings of the clock.
pub record PrefixCacheIndex : Type 0 where
  pub ttl_seconds : ℕ
  pub max_per_instance : ℕ
  pub seen : List (ℕ × Ring)
  pub matches : ℕ
  pub lookups : ℕ
  pub reads : ℕ

-- `PrefixCacheIndex(...)`
abbrev pub new_index : ℕ → ℕ → PrefixCacheIndex
new_index ttl size = record {
  ttl_seconds = ttl;
  max_per_instance = size;
  seen = [];
  matches = 0;
  lookups = 0;
  reads = 0;
}

-- `ring.append(item)` of a `deque(maxlen=size)`
unfoldable pub ring_append {ℓ} : {A : Type ℓ} → ℕ → A → List A → List A
ring_append size x ring = drop (length (ring ++ x ∷ []) - size) (ring ++ x ∷ [])

abbrev pub ring_or_new : Option Ring → Ring
ring_or_new none = []
ring_or_new (some ring) = ring

-- `record`
unfoldable pub record_prefix : (ℕ → ℕ) → PrefixCacheIndex → ℕ → List Text → PrefixCacheIndex
unfolding ring_append dict_set dict_get
record_prefix clock s id [] = s
record_prefix clock s id (d ∷ ds) =
    let ring = ring_or_new (dict_get id s.seen) in
    record s {
      seen = dict_set id (ring_append s.max_per_instance (clock s.reads, d ∷ ds) ring) s.seen;
      reads = s.reads + 1;
    }

-- `_expire`: an entry is dropped if it is older than `clock() - ttl_seconds`.
unfoldable pub expire : ℕ → ℕ → Ring → Ring
expire ttl now [] = []
expire ttl now ((t, ds) ∷ ring) = if ltb (t + ttl) now then expire ttl now ring else (t, ds) ∷ ring

-- `digest in resident`
unfoldable pub text_in : Text → List Text → Bool
unfolding text_eq
text_in d [] = false
text_in d (e ∷ es) = text_eq d e || text_in d es

-- The length of the leading run of the digests that are resident.
unfoldable pub leading : List Text → List Text → ℕ
unfolding text_in
leading [] resident = 0
leading (d ∷ ds) resident =
    let rest = leading ds resident in if text_in d resident then suc rest else 0

-- The loop over the ring, with its early exit on a full match.
unfoldable pub scan_ring : List Text → ℕ → Ring → ℕ
unfolding leading
scan_ring digests best [] = best
scan_ring digests best ((t, resident) ∷ ring) =
    let shared = leading digests resident in
    let next = if ltb best shared then shared else best in
    let rest = scan_ring digests next ring in
    if ltb best shared && (shared == length digests) then next else rest

unfoldable pub overlap_in :
    (ℕ → ℕ) → PrefixCacheIndex → ℕ → List Text → Option Ring → ℕ × PrefixCacheIndex
unfolding scan_ring expire dict_set
overlap_in clock s id digests none = (0, s)
overlap_in clock s id digests (some []) = (0, s)
overlap_in clock s id digests (some (p ∷ ring)) =
    let left = expire s.ttl_seconds (clock s.reads) (p ∷ ring) in
    (scan_ring digests 0 left, record s { seen = dict_set id left s.seen; reads = s.reads + 1 })

unfoldable pub overlap : (ℕ → ℕ) → PrefixCacheIndex → ℕ → List Text → ℕ × PrefixCacheIndex
unfolding overlap_in dict_get
overlap clock s id [] = (0, s)
overlap clock s id (d ∷ ds) = overlap_in clock s id (d ∷ ds) (dict_get id s.seen)

-- `if shared and (best is None or shared > best[1]): best = (candidate, shared)`
unfoldable pub better : Option (ℕ × ℕ) → ℕ → ℕ → Option (ℕ × ℕ)
better none candidate shared = if shared == 0 then none else some (candidate, shared)
better (some (c, n)) candidate shared =
    if ltb n shared then some (candidate, shared) else some (c, n)

unfoldable pub scan_candidates :
    (ℕ → ℕ)
    → PrefixCacheIndex
    → List Text
    → Option (ℕ × ℕ)
    → List ℕ
    → Option (ℕ × ℕ) × PrefixCacheIndex
unfolding overlap better
scan_candidates clock s digests best [] = (best, s)
scan_candidates clock s digests best (c ∷ cs) =
    let r = overlap clock s c digests in scan_candidates clock r.1 digests (better best c r.0) cs

unfoldable pub best_instance :
    (ℕ → ℕ) → PrefixCacheIndex → List Text → List ℕ → Option (ℕ × ℕ) × PrefixCacheIndex
unfolding scan_candidates
best_instance clock s [] cs = (none, s)
best_instance clock s (d ∷ ds) [] = (none, s)
best_instance clock s (d ∷ ds) (c ∷ cs) = scan_candidates clock s (d ∷ ds) none (c ∷ cs)

unfoldable pub note_lookup : PrefixCacheIndex → Bool → PrefixCacheIndex
note_lookup s matched = record s {
  lookups = s.lookups + 1;
  matches = if matched then s.matches + 1 else s.matches;
}

unfoldable pub forget : PrefixCacheIndex → ℕ → PrefixCacheIndex
unfolding dict_pop
forget s id = record s { seen = dict_pop id s.seen }
