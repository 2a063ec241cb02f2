-- ===== src/Base/Member.antt =====
-- Membership and "for all" on lists, by recursion, and lists of distinct numbers.
use inferna_next.Base.{
  Bool, Bool-cases, List, [], arith, false, filter, inl, inr, refl, subst, sym, true, ℕ, ◌++◌, ◌==◌,
  ◌||◌, ◌∷◌, ◌≡◌, ◌⊎◌,
}

-- `a in xs`
abbrev pub elem : ℕ → List ℕ → Bool
elem a [] = false
elem a (x ∷ xs) = a == x || elem a xs

-- No number stands twice.
abbrev pub Distinct : List ℕ → Type 0
Distinct [] = Unit
Distinct (x ∷ xs) = (elem x xs ≡ false) × Distinct xs

pub elem-append : (a : ℕ) (xs ys : List ℕ) → elem a (xs ++ ys) ≡ (elem a xs || elem a ys)
elem-append a [] ys = refl
elem-append a (x ∷ xs) ys = ground (arith, elem-append a xs ys)

abbrev pub In : {A : Type 0} → A → List A → Type 0
In a [] = ⊥
In a (x ∷ xs) = (a ≡ x) ⊎ In a xs

abbrev pub All {ℓ κ} : {A : Type ℓ} → (A → Type κ) → List A → Type κ
All P [] = Unit
All P (x ∷ xs) = P x × All P xs

module _ {A : Type 0} where
  pub in_of_All {κ} : (P : A → Type κ) (xs : List A) → All P xs → (a : A) → In a xs → P a
  in_of_All P (x ∷ xs) h a (inl e) = subst P (sym e) h.0
  in_of_All P (x ∷ xs) h a (inr m) = in_of_All P xs h.1 a m
  in_of_All P [] h a m = absurd m

  pub All-of_In {κ} : (P : A → Type κ) (xs : List A) → ((a : A) → In a xs → P a) → All P xs
  All-of_In P [] h = tt
  All-of_In P (x ∷ xs) h = (h x (inl refl), All-of_In P xs (λ a m. h a (inr m)))

  pub In-append_left : (a : A) (xs ys : List A) → In a xs → In a (xs ++ ys)
  In-append_left a (x ∷ xs) ys (inl e) = inl e
  In-append_left a (x ∷ xs) ys (inr m) = inr (In-append_left a xs ys m)
  In-append_left a [] ys m = absurd m

  pub In-append_right : (a : A) (xs ys : List A) → In a ys → In a (xs ++ ys)
  In-append_right a [] ys m = m
  In-append_right a (x ∷ xs) ys m = inr (In-append_right a xs ys m)

  pub In-append_cases : (a : A) (xs ys : List A) → In a (xs ++ ys) → In a xs ⊎ In a ys
  In-append_cases a [] ys m = inr m
  In-append_cases a (x ∷ xs) ys (inl e) = inl (inl e)
  In-append_cases a (x ∷ xs) ys (inr m) = elim (In-append_cases a xs ys m) [
    | inl l ↦ inl (inr l)
    | inr r ↦ inr r
  ]

  pub In-filter : (p : A → Bool) (a : A) (xs : List A) → In a xs → p a ≡ true → In a (filter p xs)
  In-filter p a [] m h = absurd m
  In-filter p a (x ∷ xs) (inl e) h = rw (← e, h) (inl refl)
  In-filter p a (x ∷ xs) (inr m) h = elim (Bool-cases (p x)) [
    | inl kept ↦ rw kept (inr (In-filter p a xs m h))
    | inr dropped ↦ rw dropped (In-filter p a xs m h)
  ]

  pub In-of_filter :
      (p : A → Bool) (a : A) (xs : List A) → In a (filter p xs) → In a xs × (p a ≡ true)
  In-of_filter p a [] m = absurd m
  In-of_filter p a (x ∷ xs) m = elim (Bool-cases (p x)) [
    | inl kept ↦ head (rw kept at m) kept (In-of_filter p a xs)
    | inr dropped ↦ let r = In-of_filter p a xs (rw dropped at m) in (inr r.0, r.1)
  ]
    where
      head :
          (a ≡ x) ⊎ In a (filter p xs)
          → p x ≡ true
          → (In a (filter p xs) → In a xs × (p a ≡ true))
          → In a (x ∷ xs) × (p a ≡ true)
      head (inl e) kept rest = (inl e, rw e kept)
      head (inr n) kept rest = (inr (rest n).0, (rest n).1)
