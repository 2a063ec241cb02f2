-- ===== src/Base/Sorting.antt =====
-- `sorted(xs, key=...)`: a stable sort by a test "at most".
use inferna_next.Base.{
  Bool, Bool-cases, List, [], ap, arith, false, if◌then◌else◌, inl, inr, length, refl, suc, true,
  ◌∙◌, ◌∷◌, ◌≡◌, ◌⊎◌,
}
use inferna_next.Base.Member.{All, In}

module _ {A : Type 0} (leq : A → A → Bool) where
  unfoldable pub insert_by : A → List A → List A
  insert_by x [] = x ∷ []
  insert_by x (y ∷ ys) = if leq x y then x ∷ y ∷ ys else y ∷ insert_by x ys

  unfoldable pub sort_by : List A → List A
  unfolding insert_by
  sort_by [] = []
  sort_by (x ∷ xs) = insert_by x (sort_by xs)

  length-insert_by : (x : A) (xs : List A) → length (insert_by x xs) ≡ suc (length xs)
  unfolding insert_by
  length-insert_by x [] = refl
  length-insert_by x (y ∷ ys) = ground (arith, length-insert_by x ys)

  pub length-sort_by : (xs : List A) → length (sort_by xs) ≡ length xs
  unfolding sort_by
  length-sort_by [] = refl
  length-sort_by (x ∷ xs) = length-insert_by x (sort_by xs) ∙ ap suc (length-sort_by xs)

  In-of_insert_by : (a x : A) (xs : List A) → In a (insert_by x xs) → (a ≡ x) ⊎ In a xs
  unfolding insert_by
  In-of_insert_by a x [] m = m
  In-of_insert_by a x (y ∷ ys) m = elim (Bool-cases (leq x y)) [
    | inl here ↦ rw here at m
    | inr later ↦ skip (rw later at m) (In-of_insert_by a x ys)
  ]
    where
      skip :
          (a ≡ y) ⊎ In a (insert_by x ys)
          → (In a (insert_by x ys) → (a ≡ x) ⊎ In a ys)
          → (a ≡ x) ⊎ ((a ≡ y) ⊎ In a ys)
      skip (inl e) rest = inr (inl e)
      skip (inr n) rest = elim (rest n) [ inl e ↦ inl e | inr k ↦ inr (inr k) ]

  In-insert_by_self : (x : A) (xs : List A) → In x (insert_by x xs)
  unfolding insert_by
  In-insert_by_self x [] = inl refl
  In-insert_by_self x (y ∷ ys) = elim (Bool-cases (leq x y)) [
    | inl here ↦ rw here (inl refl)
    | inr later ↦ rw later (inr (In-insert_by_self x ys))
  ]

  In-insert_by : (a x : A) (xs : List A) → In a xs → In a (insert_by x xs)
  unfolding insert_by
  In-insert_by a x [] m = inr m
  In-insert_by a x (y ∷ ys) m = elim (Bool-cases (leq x y)) [
    | inl here ↦ rw here (inr m)
    | inr later ↦ rw later (elim m [ inl e ↦ inl e | inr n ↦ inr (In-insert_by a x ys n) ])
  ]

  pub In-of_sort_by : (a : A) (xs : List A) → In a (sort_by xs) → In a xs
  unfolding sort_by
  In-of_sort_by a [] m = m
  In-of_sort_by a (x ∷ xs) m = elim (In-of_insert_by a x (sort_by xs) m) [
    | inl e ↦ inl e
    | inr n ↦ inr (In-of_sort_by a xs n)
  ]

  pub In-sort_by : (a : A) (xs : List A) → In a xs → In a (sort_by xs)
  unfolding sort_by
  In-sort_by a [] m = m
  In-sort_by a (x ∷ xs) (inl e) = rw e (In-insert_by_self x (sort_by xs))
  In-sort_by a (x ∷ xs) (inr m) = In-insert_by a x (sort_by xs) (In-sort_by a xs m)

  -- Each element is at most those behind it.
  abbrev pub IsSorted : List A → Type 0
  IsSorted [] = Unit
  IsSorted (x ∷ xs) = All (λ y. leq x y ≡ true) xs × IsSorted xs

  module _ (total : (x y : A) → (leq x y ≡ true) ⊎ (leq y x ≡ true))
      (trans : (x y z : A) → leq x y ≡ true → leq y z ≡ true → leq x z ≡ true) where
    below-All :
        (x y : A) (ys : List A)
        → leq x y ≡ true
        → All (λ z. leq y z ≡ true) ys
        → All (λ z. leq x z ≡ true) ys
    below-All x y [] h k = tt
    below-All x y (z ∷ zs) h k = (trans x y z h k.0, below-All x y zs h k.1)

    above : (y x : A) → leq x y ≡ false → leq y x ≡ true
    above y x e = elim (total x y) [ inl h ↦ cc | inr h ↦ h ]

    All-insert_by {κ} :
        (P : A → Type κ) (x : A) (xs : List A) → P x → All P xs → All P (insert_by x xs)
    unfolding insert_by
    All-insert_by P x [] p h = (p, tt)
    All-insert_by P x (y ∷ ys) p h = elim (Bool-cases (leq x y)) [
      | inl here ↦ rw here (p, h)
      | inr later ↦ rw later (h.0, All-insert_by P x ys p h.1)
    ]

    insert_by-IsSorted : (x : A) (xs : List A) → IsSorted xs → IsSorted (insert_by x xs)
    unfolding insert_by
    insert_by-IsSorted x [] s = (tt, tt)
    insert_by-IsSorted x (y ∷ ys) s = elim (Bool-cases (leq x y)) [
      | inl here ↦ rw here ((here, below-All x y ys here s.0), s)
      | inr later ↦ rw later (
        All-insert_by (λ z. leq y z ≡ true) x ys (above y x later) s.0,
        insert_by-IsSorted x ys s.1,
      )
    ]

    pub sort_by-IsSorted : (xs : List A) → IsSorted (sort_by xs)
    unfolding sort_by
    sort_by-IsSorted [] = tt
    sort_by-IsSorted (x ∷ xs) = insert_by-IsSorted x (sort_by xs) (sort_by-IsSorted xs)
