-- ===== src/PrefixCache/Blocks.antt =====
-- The block digests of two texts, against the texts themselves.
use inferna_next.Base.{
  Bool-cases, List, [], ap, ap₂, arith, drop, get_elem?, inl, inr, length, length-drop, length-take,
  refl, some, some-injective, suc, sym, take, zero, ℕ, ◌*◌, ◌++◌, ◌+◌, ◌∙◌, ◌∷◌, ◌≡◌, ◌≢◌, ◌≤◌, ◌⊎◌,
}
use inferna_next.Base.Text.{Text, text_eq, text_eq_iff}
use inferna_next.Base.Member.{In}
use inferna_next.PrefixCache.{blocks, blocks_from, chained}

zero_plus : (n : ℕ) → 0 + n ≡ n
zero_plus n = omega arith

suc_plus : (m n : ℕ) → suc m + n ≡ suc (m + n)
suc_plus m n = omega arith

zero_times : (n : ℕ) → 0 * n ≡ 0
zero_times n = omega arith

module _ {A : Type 0} where
  take_nil : (n : ℕ) → take {A = A} n [] ≡ []
  take_nil zero = refl
  take_nil (suc n) = refl

  take_add : (m n : ℕ) (xs : List A) → take (m + n) xs ≡ take m xs ++ take n (drop m xs)
  take_add zero n xs = ap (λ k. take k xs) (zero_plus n)
  take_add (suc m) n [] = take_nil (suc m + n) ∙ sym (take_nil n)
  take_add (suc m) n (x ∷ xs) =
      ap (λ k. take k (x ∷ xs)) (suc_plus m n) ∙ ap (◌∷◌ x) (take_add m n xs)

  take-take : (m n : ℕ) (xs : List A) → take m (take (m + n) xs) ≡ take m xs
  take-take zero n xs = refl
  take-take (suc m) n [] = rw (take_nil (suc m + n))
  take-take (suc m) n (x ∷ xs) =
      ap (λ k. take (suc m) (take k (x ∷ xs))) (suc_plus m n) ∙ ap (◌∷◌ x) (take-take m n xs)

  drop-take : (m n : ℕ) (xs : List A) → drop m (take (m + n) xs) ≡ take n (drop m xs)
  drop-take zero n xs = ap (λ k. take k xs) (zero_plus n)
  drop-take (suc m) n [] = rw (take_nil (suc m + n), take_nil n)
  drop-take (suc m) n (x ∷ xs) =
      ap (λ k. drop (suc m) (take k (x ∷ xs))) (suc_plus m n) ∙ drop-take m n xs

-- Two texts that are hashed, one of each list, are different and have the same 16 characters of hash.
abbrev pub Collision : (Text → Text) → List Text → List Text → Type 0
Collision sha xs ys =
    (x : Text) × (y : Text) × (In x xs × In y ys × (x ≢ y) × (take 16 (sha x) ≡ take 16 (sha y)))

-- What is hashed for a text: for each block the previous digest, a bar and the block.
abbrev pub hashed_from : (Text → Text) → ℕ → ℕ → Text → Text → List Text
hashed_from sha zero size previous text = []
hashed_from sha (suc fuel) size previous [] = []
hashed_from sha (suc fuel) size previous (c ∷ text) =
    let input = previous ++ (b'|' ∷ take size (c ∷ text)) in
    input ∷ hashed_from sha fuel size (take 16 (sha input)) (drop size (c ∷ text))

abbrev pub hashed : (Text → Text) → ℕ → Text → List Text
hashed sha size text = hashed_from sha (length text) size [] text

split-injective :
    (p q s t : Text) → length p ≡ length q → p ++ (b'|' ∷ s) ≡ q ++ (b'|' ∷ t) → (p ≡ q) × (s ≡ t)
split-injective [] [] s t n h = (refl, ap tail h)
  where
    tail : Text → Text
    tail [] = []
    tail (c ∷ t) = t
split-injective [] (d ∷ q) s t n h = absurd (omega arith)
split-injective (c ∷ p) [] s t n h = absurd (omega arith)
split-injective (c ∷ p) (d ∷ q) s t n h =
    let first : c ≡ d = cc in
    let r = split-injective p q s t (omega arith) (ap tail h) in (ap₂ ◌∷◌ first r.0, r.1)
  where
    tail : Text → Text
    tail [] = []
    tail (c ∷ t) = t

module _ (sha : Text → Text) (size : ℕ) where
  abbrev digest_of : Text → Text → Text
  digest_of p chunk = take 16 (sha (chained p chunk))

  blocks_from-cons :
      (f : ℕ) (p : Text) (c : ℕ) (t : Text)
      → blocks_from sha (suc f) (suc size) p (c ∷ t)
        ≡ digest_of p (take (suc size) (c ∷ t))
          ∷ blocks_from sha f
              (suc size)
              (digest_of p (take (suc size) (c ∷ t)))
              (drop (suc size) (c ∷ t))
  unfolding blocks_from
  blocks_from-cons f p c t = refl

  blocks_from-nil : (f : ℕ) (p : Text) → blocks_from sha f (suc size) p [] ≡ []
  unfolding blocks_from
  blocks_from-nil zero p = refl
  blocks_from-nil (suc f) p = refl

  first_chunk :
      (k : ℕ) (s t : Text)
      → take (suc k * suc size) s ≡ take (suc k * suc size) t
      → (take (suc size) s ≡ take (suc size) t)
        × (take (k * suc size) (drop (suc size) s) ≡ take (k * suc size) (drop (suc size) t))
  first_chunk k s t e =
      let sum : suc k * suc size ≡ suc size + k * suc size = omega arith in
      let e' = ap (λ m. take m s) (sym sum) ∙ e ∙ ap (λ m. take m t) sum in
      (
        sym (take-take (suc size) (k * suc size) s)
            ∙ ap (take (suc size)) e'
            ∙ take-take (suc size) (k * suc size) t,
        sym (drop-take (suc size) (k * suc size) s)
            ∙ ap (drop (suc size)) e'
            ∙ drop-take (suc size) (k * suc size) t,
      )

  rest_fits : (f c : ℕ) (t : Text) → length (c ∷ t) ≤ suc f → length (drop (suc size) (c ∷ t)) ≤ f
  rest_fits f c t h = omega (arith, length-drop size t)

  blocks_from-same :
      (k f g : ℕ) (p s t : Text)
      → length s ≤ f
      → length t ≤ g
      → take (k * suc size) s ≡ take (k * suc size) t
      → take k (blocks_from sha f (suc size) p s) ≡ take k (blocks_from sha g (suc size) p t)
  blocks_from-same zero f g p s t hf hg e = refl
  blocks_from-same (suc k) f g p [] [] hf hg e = rw (blocks_from-nil f p, blocks_from-nil g p)
  blocks_from-same (suc k) f g p [] (c ∷ t) hf hg e = let e1 = (first_chunk k _ _ e).0 in cc
  blocks_from-same (suc k) f g p (c ∷ s) [] hf hg e = let e1 = (first_chunk k _ _ e).0 in cc
  blocks_from-same (suc k) zero g p (c ∷ s) (d ∷ t) hf hg e = elim hf [ ]
  blocks_from-same (suc k) (suc f) zero p (c ∷ s) (d ∷ t) hf hg e = elim hg [ ]
  blocks_from-same (suc k) (suc f) (suc g) p (c ∷ s) (d ∷ t) hf hg e =
      let (chunk, rest) = first_chunk k (c ∷ s) (d ∷ t) e in
      let q = digest_of p (take (suc size) (d ∷ t)) in
      let same = ap (digest_of p) chunk in
      rw (blocks_from-cons f p c s, blocks_from-cons g p d t)
        (ap₂ ◌∷◌ same (
          ap (λ r. take k (blocks_from sha f (suc size) r (drop (suc size) (c ∷ s)))) same
          ∙ blocks_from-same k f g q (drop (suc size) (c ∷ s)) (drop (suc size) (d ∷ t))
              (rest_fits f c s hf) (rest_fits g d t hg) rest))

  collide :
      (p q s t : Text)
      → length p ≡ length q
      → digest_of p s ≡ digest_of q t
      → ((p ≡ q) × (s ≡ t))
        ⊎ ((p ++ (b'|' ∷ s) ≢ q ++ (b'|' ∷ t))
            × (take 16 (sha (p ++ (b'|' ∷ s))) ≡ take 16 (sha (q ++ (b'|' ∷ t)))))
  unfolding chained
  collide p q s t n e = elim (Bool-cases (text_eq (p ++ (b'|' ∷ s)) (q ++ (b'|' ∷ t)))) [
    | inl same ↦ inl (split-injective p q s t n ((text_eq_iff _ _).0 same))
    | inr other ↦ inr ((λ h. let same = (text_eq_iff _ _).1 h in cc), e)
  ]

  widened :
      (f g : ℕ) (p q : Text) (c d : ℕ) (s t : Text)
      → Collision sha
          (hashed_from sha f
            (suc size)
            (digest_of p (take (suc size) (c ∷ s)))
            (drop (suc size) (c ∷ s)))
          (hashed_from sha g
            (suc size)
            (digest_of q (take (suc size) (d ∷ t)))
            (drop (suc size) (d ∷ t)))
      → Collision sha
          (hashed_from sha (suc f) (suc size) p (c ∷ s))
          (hashed_from sha (suc g) (suc size) q (d ∷ t))
  unfolding chained
  widened f g p q c d s t (x, y, (m, n, e, h)) = (x, y, (inr m, inr n, e, h))

  joined :
      (k : ℕ) (s t : Text)
      → take (suc size) s ≡ take (suc size) t
      → take (k * suc size) (drop (suc size) s) ≡ take (k * suc size) (drop (suc size) t)
      → take (suc k * suc size) s ≡ take (suc k * suc size) t
  joined k s t e1 e2 =
      let sum : suc k * suc size ≡ suc size + k * suc size = omega arith in
      ap (λ m. take m s) sum
      ∙ take_add (suc size) (k * suc size) s
      ∙ ap₂ ◌++◌ e1 e2
      ∙ sym (take_add (suc size) (k * suc size) t)
      ∙ ap (λ m. take m t) (sym sum)

  module _ (sized : (t : Text) → length (sha t) ≡ 64) where
    length-digest_of : (p t : Text) → length (digest_of p t) ≡ 16
    length-digest_of p t = omega (arith, length-take 16 (sha (chained p t)), sized (chained p t))

    -- Equal digests at one position come from equal texts up to the end of the block.
    blocks_from-differ :
        (k f g : ℕ) (p q s t e : Text)
        → length p ≡ length q
        → length s ≤ f
        → length t ≤ g
        → get_elem? (blocks_from sha f (suc size) p s) k ≡ some e
        → get_elem? (blocks_from sha g (suc size) q t) k ≡ some e
        → ((p ≡ q) × (take (suc k * suc size) s ≡ take (suc k * suc size) t))
          ⊎ Collision sha (hashed_from sha f (suc size) p s) (hashed_from sha g (suc size) q t)
    blocks_from-differ k f g p q [] t e n hf hg a b = let x = rw (blocks_from-nil f p) at a in cc
    blocks_from-differ k f g p q (c ∷ s) [] e n hf hg a b =
        let x = rw (blocks_from-nil g q) at b in cc
    blocks_from-differ k zero g p q (c ∷ s) (d ∷ t) e n hf hg a b = elim hf [ ]
    blocks_from-differ k (suc f) zero p q (c ∷ s) (d ∷ t) e n hf hg a b = elim hg [ ]
    blocks_from-differ zero (suc f) (suc g) p q (c ∷ s) (d ∷ t) e n hf hg a b =
        let x = some-injective (rw (blocks_from-cons f p c s) at a) in
        let y = some-injective (rw (blocks_from-cons g q d t) at b) in
        elim (collide p q (take (suc size) (c ∷ s)) (take (suc size) (d ∷ t)) n (x ∙ sym y)) [
          | inl same ↦
              inl (same.0, joined zero (c ∷ s) (d ∷ t) same.1 (rw (zero_times (suc size)) refl))
          | inr bad ↦ inr (_, _, (inl refl, inl refl, bad.0, bad.1))
        ]
    blocks_from-differ (suc k) (suc f) (suc g) p q (c ∷ s) (d ∷ t) e n hf hg a b =
        let p' = digest_of p (take (suc size) (c ∷ s)) in
        let q' = digest_of q (take (suc size) (d ∷ t)) in
        elim (blocks_from-differ k f g p' q' (drop (suc size) (c ∷ s)) (drop (suc size) (d ∷ t)) e
          (length-digest_of p (take (suc size) (c ∷ s))
            ∙ sym (length-digest_of q (take (suc size) (d ∷ t))))
          (rest_fits f c s hf) (rest_fits g d t hg) (rw (blocks_from-cons f p c s) at a)
          (rw (blocks_from-cons g q d t) at b)) [
            | inr bad ↦ inr (widened f g p q c d s t bad)
            | inl (digests, rest) ↦
                elim (collide p q (take (suc size) (c ∷ s)) (take (suc size) (d ∷ t)) n digests) [
                  | inl same ↦ inl (same.0, joined (suc k) (c ∷ s) (d ∷ t) same.1 rest)
                  | inr bad ↦ inr (_, _, (inl refl, inl refl, bad.0, bad.1))
                ]
          ]

    -- Two texts that agree on their first `k` blocks have the same first `k` digests. For a hash of 64
    -- characters, one digest that two texts have at the same position `k` tells that they agree up to
    -- the end of block `k`, unless two of the inputs that are hashed for the two texts are different
    -- and collide.
    pub blocks-IsPrefix :
        (k : ℕ) (s t : Text)
        → (take (k * suc size) s ≡ take (k * suc size) t
            → take k (blocks sha (suc size) s) ≡ take k (blocks sha (suc size) t))
          × ((digest : Text)
              → get_elem? (blocks sha (suc size) s) k ≡ some digest
              → get_elem? (blocks sha (suc size) t) k ≡ some digest
              → (take (suc k * suc size) s ≡ take (suc k * suc size) t)
                ⊎ Collision sha (hashed sha (suc size) s) (hashed sha (suc size) t))
    unfolding blocks
    blocks-IsPrefix k s t = (
      blocks_from-same k (length s) (length t) [] s t (omega arith) (omega arith),
      (λ e a b.
          elim (blocks_from-differ k (length s) (length t) [] [] s t e refl (omega arith)
            (omega arith) a b) [ inl same ↦ inl same.1 | inr bad ↦ inr bad ]),
    )
