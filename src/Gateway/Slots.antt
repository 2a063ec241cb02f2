-- ===== src/Gateway/Slots.antt =====
-- The active slots over any sequence of reservations and releases.
use inferna_next.Base.{
  ==_iff, Bool-cases, List, Option, [], ap, arith, if◌then◌else◌, inl, inr, none, refl, some, true,
  ℕ, ◌+◌, ◌-◌, ◌<◌, ◌==◌, ◌∙◌, ◌∷◌, ◌≡◌,
}
use inferna_next.Base.Text.{Text}
use inferna_next.Base.Dict.{dict_get, dict_get-dict_pop, dict_get-dict_set, dict_pop, dict_set}
use inferna_next.Base.Member.{elem}
use inferna_next.Models.{Db, ModelInstance}
use inferna_next.Scheduler.{held}
use inferna_next.PrefixCache.{PrefixCacheIndex}
use inferna_next.Gateway.{Gateway, assign, has_worker, release, reserve, reserve_for, value_or}

-- How often an id stands in the list.
unfoldable pub occurrences : ℕ → List ℕ → ℕ
occurrences id [] = 0
occurrences id (k ∷ ks) = (if id == k then 1 else 0) + occurrences id ks

-- The list without the first occurrence.
unfoldable pub without : ℕ → List ℕ → List ℕ
without id [] = []
without id (k ∷ ks) = if id == k then ks else k ∷ without id ks

abbrev pub active_of : Gateway → ℕ → ℕ
active_of g id = value_or (dict_get id g.active) 0

-- A history of the gateway with the slots that requests hold: each request that got an instance
-- holds a slot of it until it releases it, once.
pub data IsHistory (clock : ℕ → ℕ) (index : PrefixCacheIndex) : Gateway → List ℕ → Type 0 where
  opened :
      IsHistory clock index
        (record { active = []; last_assigned = []; assign_seq = 1; index = index })
        []
  reserved :
      {g : Gateway} {held : List ℕ} (db : Db) (model_id : ℕ) (digests : List Text)
      (i : ModelInstance)
      → IsHistory clock index g held
      → (reserve clock db model_id digests g).0 ≡ some i
      → IsHistory clock index (reserve clock db model_id digests g).1 (i.id ∷ held)
  rejected :
      {g : Gateway} {held : List ℕ} (db : Db) (model_id : ℕ) (digests : List Text)
      → IsHistory clock index g held
      → (reserve clock db model_id digests g).0 ≡ none
      → IsHistory clock index (reserve clock db model_id digests g).1 held
  released :
      {g : Gateway} {held : List ℕ} (id : ℕ)
      → IsHistory clock index g held
      → elem id held ≡ true
      → IsHistory clock index (release g id) (without id held)

occurrences-without :
    (id j : ℕ) (held : List ℕ)
    → elem id held ≡ true
    → occurrences j held ≡ occurrences j (without id held) + (if j == id then 1 else 0)
unfolding occurrences without
occurrences-without id j [] h = cc
occurrences-without id j (k ∷ ks) h = ground (arith, occurrences-without id j ks)

occurrences-held : (id : ℕ) (held : List ℕ) → elem id held ≡ true → 0 < occurrences id held
unfolding occurrences
occurrences-held id [] h = cc
occurrences-held id (k ∷ ks) h = ground (arith, occurrences-held id ks)

active_of-set :
    (k j n : ℕ) (d : List (ℕ × ℕ))
    → value_or (dict_get j (dict_set k n d)) 0 ≡ (if j == k then n else value_or (dict_get j d) 0)
active_of-set k j n d =
    ap (λ o. value_or o 0) (dict_get-dict_set k j n d)
    ∙ elim (Bool-cases (j == k)) [ inl e ↦ rw e | inr e ↦ rw e ]

active_of-pop :
    (k j : ℕ) (d : List (ℕ × ℕ))
    → value_or (dict_get j (dict_pop k d)) 0 ≡ (if j == k then 0 else value_or (dict_get j d) 0)
active_of-pop k j d =
    ap (λ o. value_or o 0) (dict_get-dict_pop k j d)
    ∙ elim (Bool-cases (j == k)) [ inl e ↦ rw e | inr e ↦ rw e ]

same_default : (o : Option ℕ) → 0 < value_or o 0 → value_or o 1 ≡ value_or o 0
same_default none h = omega arith
same_default (some n) h = refl

active_of-assign :
    (g : Gateway) (i : ModelInstance) (j : ℕ)
    → active_of (assign g i) j ≡ active_of g j + (if j == i.id then 1 else 0)
unfolding assign
active_of-assign g i j =
    active_of-set i.id j (active_of g i.id + 1) g.active ∙ elim (Bool-cases (j == i.id)) [
      | inl e ↦ rw (e, (==_iff j i.id).0 e)
      | inr e ↦ rw e (omega arith)
    ]

pub active_of-release :
    (g : Gateway) (id j : ℕ)
    → 0 < active_of g id
    → active_of g j ≡ active_of (release g id) j + (if j == id then 1 else 0)
unfolding release
active_of-release g id j h =
    rw (same_default (dict_get id g.active) h) (elim (Bool-cases (active_of g id - 1 == 0)) [
      | inl last ↦ rw last (
          rw (active_of-pop id j g.active) (elim (Bool-cases (j == id)) [
            | inl e ↦ rw (e, (==_iff j id).0 e) (let l = last in ground arith)
            | inr e ↦ rw e (omega arith)
          ]))
      | inr more ↦ rw more (
          rw (active_of-set id j (active_of g id - 1) g.active) (elim (Bool-cases (j == id)) [
            | inl e ↦ rw (e, (==_iff j id).0 e) (omega arith)
            | inr e ↦ rw e (omega arith)
          ]))
    ])

abbrev pub taken : Option ModelInstance → ℕ → ℕ
taken none j = 0
taken (some i) j = if j == i.id then 1 else 0

reserve_for-active :
    (db : Db) (g : Gateway) (o : Option ModelInstance) (j : ℕ)
    → active_of (reserve_for db g o).1 j ≡ active_of g j + taken (reserve_for db g o).0 j
reserve_for-active db g none j = omega arith
reserve_for-active db g (some i) j = elim (Bool-cases (has_worker db i)) [
  | inl e ↦ rw e (active_of-assign g i j)
  | inr e ↦ rw e (omega arith)
]

module _ (clock : ℕ → ℕ) where
  pub reserve-active :
      (db : Db) (model_id : ℕ) (digests : List Text) (g : Gateway) (j : ℕ)
      → active_of (reserve clock db model_id digests g).1 j
        ≡ active_of g j + taken (reserve clock db model_id digests g).0 j
  unfolding reserve
  reserve-active db model_id digests g j = reserve_for-active db (record g { index = _ }) _ j

  -- Whatever requests come and go, the active count of each instance is the number of slots that
  -- requests hold of it: a slot is taken once for each choice, and a release gives back one.
  pub history-counts :
      {index : PrefixCacheIndex} {g : Gateway} {held : List ℕ}
      → IsHistory clock index g held
      → (id : ℕ) → active_of g id ≡ occurrences id held
  unfolding occurrences dict_get
  history-counts opened id = refl
  history-counts (reserved {g = g} {held = held} db model_id digests i h e) id =
      let counted = ap (λ o. taken o id) e in
      reserve-active db model_id digests g id ∙ omega (arith, counted, history-counts h id)
  history-counts (rejected {g = g} {held = held} db model_id digests h e) id =
      let counted = ap (λ o. taken o id) e in
      reserve-active db model_id digests g id ∙ omega (arith, counted, history-counts h id)
  history-counts (released {g = g} {held = held} k h m) id =
      let positive : 0 < active_of g k =
        omega (arith, history-counts h k, occurrences-held k held m) in
      omega (
        arith,
        active_of-release g k id positive,
        occurrences-without k id held m,
        history-counts h id,
      )
