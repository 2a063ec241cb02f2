-- ===== src/Base/Keys.antt =====
-- Lists whose elements have distinct numeric keys, such as rows with a primary key.
use inferna_next.Base.{
  Bool, List, [], arith, false, filter, inl, inr, length, not, refl, suc, take, true, zero, ℕ, ◌+◌,
  ◌==◌, ◌||◌, ◌∙◌, ◌∷◌, ◌≡◌, ◌≤◌,
}
use inferna_next.Base.Member.{Distinct, In, elem}
use inferna_next.Base.Sorting.{insert_by, sort_by}

module _ {A : Type 0} (key : A → ℕ) where
  abbrev pub keys : List A → List ℕ
  keys [] = []
  keys (x ∷ xs) = key x ∷ keys xs

  pub elem-keys_of_In : (a : A) (xs : List A) → In a xs → elem (key a) (keys xs) ≡ true
  elem-keys_of_In a [] m = absurd m
  elem-keys_of_In a (x ∷ xs) (inl e) = rw e (ground arith)
  elem-keys_of_In a (x ∷ xs) (inr m) = ground (arith, elem-keys_of_In a xs m)

  elem-filter_none :
      (p : A → Bool) (k : ℕ) (xs : List A)
      → elem k (keys xs) ≡ false
      → elem k (keys (filter p xs)) ≡ false
  elem-filter_none p k [] h = refl
  elem-filter_none p k (x ∷ xs) h = ground (arith, elem-filter_none p k xs)

  pub Distinct-filter :
      (p : A → Bool) (xs : List A) → Distinct (keys xs) → Distinct (keys (filter p xs))
  Distinct-filter p [] d = tt
  Distinct-filter p (x ∷ xs) d =
      ground (arith, Distinct-filter p xs d.1, elem-filter_none p (key x) xs d.0)

  elem-take_none :
      (n : ℕ) (k : ℕ) (xs : List A) → elem k (keys xs) ≡ false → elem k (keys (take n xs)) ≡ false
  elem-take_none zero k xs h = refl
  elem-take_none (suc n) k [] h = refl
  elem-take_none (suc n) k (x ∷ xs) h = ground (arith, elem-take_none n k xs)

  pub Distinct-take : (n : ℕ) (xs : List A) → Distinct (keys xs) → Distinct (keys (take n xs))
  Distinct-take zero xs d = tt
  Distinct-take (suc n) [] d = tt
  Distinct-take (suc n) (x ∷ xs) d = (elem-take_none n (key x) xs d.0, Distinct-take n xs d.1)

  -- Nothing with the key `k` passes a filter that drops it.
  pub elem-filter_other :
      (p : A → Bool) (k : ℕ) (xs : List A)
      → ((x : A) → p x ≡ true → (key x == k) ≡ false)
      → elem k (keys (filter p xs)) ≡ false
  elem-filter_other p k [] h = refl
  elem-filter_other p k (x ∷ xs) h = ground (arith, elem-filter_other p k xs h, h x)

  pub elem-take_of_none :
      (n k : ℕ) (xs : List A) → elem k (keys xs) ≡ false → elem k (keys (take n xs)) ≡ false
  elem-take_of_none n k xs h = elem-take_none n k xs h

  -- Dropping one key from distinct ones drops one element at most.
  length-filter_none :
      (k : ℕ) (xs : List A)
      → elem k (keys xs) ≡ false
      → length (filter (λ x. not (key x == k)) xs) ≡ length xs
  length-filter_none k [] h = refl
  length-filter_none k (x ∷ xs) h = ground (arith, length-filter_none k xs)

  pub length-filter_key :
      (k : ℕ) (xs : List A)
      → Distinct (keys xs)
      → length xs ≤ length (filter (λ x. not (key x == k)) xs) + 1
  length-filter_key k [] d = omega arith
  length-filter_key k (x ∷ xs) d =
      ground (arith, length-filter_none k xs, length-filter_key k xs d.1)

  module _ (leq : A → A → Bool) where
    elem-insert_by :
        (k : ℕ) (x : A) (xs : List A)
        → elem k (keys (insert_by leq x xs)) ≡ (k == key x || elem k (keys xs))
    unfolding insert_by
    elem-insert_by k x [] = refl
    elem-insert_by k x (y ∷ ys) = ground (arith, elem-insert_by k x ys)

    pub elem-sort_by : (k : ℕ) (xs : List A) → elem k (keys (sort_by leq xs)) ≡ elem k (keys xs)
    unfolding sort_by
    elem-sort_by k [] = refl
    elem-sort_by k (x ∷ xs) = ground (arith, elem-insert_by k x (sort_by leq xs), elem-sort_by k xs)

    Distinct-insert_by :
        (x : A) (xs : List A)
        → elem (key x) (keys xs) ≡ false
        → Distinct (keys xs)
        → Distinct (keys (insert_by leq x xs))
    unfolding insert_by
    Distinct-insert_by x [] e d = (refl, tt)
    Distinct-insert_by x (y ∷ ys) e d =
        ground (arith, Distinct-insert_by x ys, elem-insert_by (key y) x ys)

    pub Distinct-sort_by : (xs : List A) → Distinct (keys xs) → Distinct (keys (sort_by leq xs))
    unfolding sort_by
    Distinct-sort_by [] d = tt
    Distinct-sort_by (x ∷ xs) d =
        Distinct-insert_by x (sort_by leq xs) (elem-sort_by (key x) xs ∙ d.0)
          (Distinct-sort_by xs d.1)
