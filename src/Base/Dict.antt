-- ===== src/Base/Dict.antt =====
-- A dict with numeric keys, as the list of its items in insertion order.
use inferna_next.Base.{
  List, Option, [], arith, false, if◌then◌else◌, none, refl, some, ℕ, ◌==◌, ◌||◌, ◌∷◌, ◌≡◌,
}
use inferna_next.Base.Member.{Distinct, elem}

module _ {A : Type 0} where
  -- `d.get(key)`
  unfoldable pub dict_get : ℕ → List (ℕ × A) → Option A
  dict_get k [] = none
  dict_get k ((j, a) ∷ d) = if k == j then some a else dict_get k d

  -- `d[key] = value`
  unfoldable pub dict_set : ℕ → A → List (ℕ × A) → List (ℕ × A)
  dict_set k v [] = (k, v) ∷ []
  dict_set k v ((j, a) ∷ d) = if k == j then (j, v) ∷ d else (j, a) ∷ dict_set k v d

  -- `d.pop(key, None)`
  unfoldable pub dict_pop : ℕ → List (ℕ × A) → List (ℕ × A)
  dict_pop k [] = []
  dict_pop k ((j, a) ∷ d) = if k == j then dict_pop k d else (j, a) ∷ dict_pop k d

  pub dict_get-dict_set :
      (k j : ℕ) (v : A) (d : List (ℕ × A))
      → dict_get j (dict_set k v d) ≡ (if j == k then some v else dict_get j d)
  unfolding dict_get dict_set
  dict_get-dict_set k j v [] = refl
  dict_get-dict_set k j v ((i, a) ∷ d) = ground (arith, dict_get-dict_set k j v d)

  pub dict_get-dict_pop :
      (k j : ℕ) (d : List (ℕ × A))
      → dict_get j (dict_pop k d) ≡ (if j == k then none else dict_get j d)
  unfolding dict_get dict_pop
  dict_get-dict_pop k j [] = ground arith
  dict_get-dict_pop k j ((i, a) ∷ d) = ground (arith, dict_get-dict_pop k j d)

  -- The keys, in order.
  abbrev pub dict_keys : List (ℕ × A) → List ℕ
  dict_keys [] = []
  dict_keys ((j, a) ∷ d) = j ∷ dict_keys d

  elem-dict_set :
      (k j : ℕ) (v : A) (d : List (ℕ × A))
      → elem j (dict_keys (dict_set k v d)) ≡ (elem j (dict_keys d) || j == k)
  unfolding dict_set
  elem-dict_set k j v [] = ground arith
  elem-dict_set k j v ((i, a) ∷ d) = ground (arith, elem-dict_set k j v d)

  pub dict_set-Distinct :
      (k : ℕ) (v : A) (d : List (ℕ × A))
      → Distinct (dict_keys d)
      → Distinct (dict_keys (dict_set k v d))
  unfolding dict_set
  dict_set-Distinct k v [] h = (refl, tt)
  dict_set-Distinct k v ((i, a) ∷ d) h =
      ground (arith, dict_set-Distinct k v d h.1, elem-dict_set k i v d)

  elem-dict_pop :
      (k j : ℕ) (d : List (ℕ × A))
      → elem j (dict_keys d) ≡ false
      → elem j (dict_keys (dict_pop k d)) ≡ false
  unfolding dict_pop
  elem-dict_pop k j [] h = refl
  elem-dict_pop k j ((i, a) ∷ d) h = ground (arith, elem-dict_pop k j d)

  pub dict_pop-Distinct :
      (k : ℕ) (d : List (ℕ × A)) → Distinct (dict_keys d) → Distinct (dict_keys (dict_pop k d))
  unfolding dict_pop
  dict_pop-Distinct k [] h = tt
  dict_pop-Distinct k ((i, a) ∷ d) h =
      ground (arith, dict_pop-Distinct k d h.1, elem-dict_pop k i d h.0)
