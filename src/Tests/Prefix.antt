-- ===== src/Tests/Prefix.antt =====
-- An index with two entries of one instance and one of another.
use inferna_next.Base.{
  List, [], arith, get_elem?, length, length-append, length-replicate, length-take, none, refl,
  replicate, some, take, ℕ, ◌*◌, ◌++◌, ◌+◌, ◌∷◌, ◌≡◌, ◌≤◌, ◌⊎◌,
}
use inferna_next.Base.Text.{Text, codes, text_eq}
use inferna_next.PrefixCache.{
  PrefixCacheIndex, best_instance, blocks, new_index, overlap, record_prefix,
}
use inferna_next.PrefixCache.Blocks.{Collision, blocks-IsPrefix, hashed}
use inferna_next.PrefixCache.Residency.{IsValid, overlap-IsLongest, resident}
use inferna_next.PrefixCache.History.{IsReachable, after, created, reachable-IsValid, recorded}
use inferna_next.PrefixCache.Choice.{IsBest, best_instance-IsBest}

-- A digest for tests: the text itself.
abbrev no_hash : Text → Text
no_hash t = t

abbrev ticking : ℕ → ℕ
ticking k = k * 4

ticking-monotone : (k : ℕ) → ticking k ≤ ticking (k + 1)
ticking-monotone k = omega arith

abbrev prompt : List Text
prompt = blocks no_hash 3 (codes "abcdefgh")

prompt_test : prompt ≡ codes "|abc" ∷ codes "|abc|def" ∷ codes "|abc|def|gh" ∷ []
unfolding blocks
prompt_test = refl

-- A digest of 64 characters for tests: the text, filled up.
abbrev filled : Text → Text
filled t = take 64 (t ++ replicate 64 b'0')

length-filled : (t : Text) → length (filled t) ≡ 64
length-filled t = omega (
  arith,
  length-take 64 (t ++ replicate 64 b'0'),
  length-append t (replicate 64 b'0'),
  length-replicate {A = ℕ} 64 b'0',
)

blocks-IsPrefix_example :
    (take (1 * 3) (codes "abcdefgh") ≡ take (1 * 3) (codes "abcdefxy")
      → take 1 (blocks filled 3 (codes "abcdefgh")) ≡ take 1 (blocks filled 3 (codes "abcdefxy")))
    × ((digest : Text)
        → get_elem? (blocks filled 3 (codes "abcdefgh")) 1 ≡ some digest
        → get_elem? (blocks filled 3 (codes "abcdefxy")) 1 ≡ some digest
        → (take 6 (codes "abcdefgh") ≡ take 6 (codes "abcdefxy"))
          ⊎ Collision filled
              (hashed filled 3 (codes "abcdefgh"))
              (hashed filled 3 (codes "abcdefxy")))
blocks-IsPrefix_example =
    blocks-IsPrefix filled 2 length-filled 1 (codes "abcdefgh") (codes "abcdefxy")

abbrev other_prompt : List Text
other_prompt = blocks no_hash 3 (codes "abcxyz")

abbrev index : PrefixCacheIndex
index =
    record_prefix ticking
      (record_prefix ticking (record_prefix ticking (new_index 9 2) 1 other_prompt) 2 prompt) 1
      other_prompt

index-IsReachable : IsReachable ticking 9 2 index
index-IsReachable =
    after (after (after created (recorded _ 1 other_prompt)) (recorded _ 2 prompt))
      (recorded _ 1 other_prompt)

reachable-IsValid_example : IsValid ticking index
reachable-IsValid_example = reachable-IsValid ticking ticking-monotone index-IsReachable

-- At 12 the first entry of instance 1, from 0, has expired, and at 16 that of instance 2, from 4.
best_test : (best_instance ticking index prompt (1 ∷ 2 ∷ [])).0 ≡ some (1, 1)
unfolding best_instance blocks record_prefix text_eq
best_test = refl

overlap-IsLongest_example :
    (overlap ticking index 1 prompt).0 ≡ resident (ticking index.reads) index 1 prompt
overlap-IsLongest_example =
    overlap-IsLongest ticking index (reachable-IsValid ticking ticking-monotone index-IsReachable) 1
      prompt

best_instance-IsBest_example :
    IsBest ticking index
      (best_instance ticking index prompt (1 ∷ 2 ∷ [])).1
      prompt
      none
      (best_instance ticking index prompt (1 ∷ 2 ∷ [])).0
      (1 ∷ 2 ∷ [])
best_instance-IsBest_example =
    best_instance-IsBest ticking ticking-monotone index prompt (1 ∷ 2 ∷ [])
      (reachable-IsValid ticking ticking-monotone index-IsReachable)
