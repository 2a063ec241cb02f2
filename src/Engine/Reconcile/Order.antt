-- ===== src/Engine/Reconcile/Order.antt =====
-- The order in which a batch runs its commands.
use inferna_next.Base.{
  Bool, List, [], arith, false, if◌then◌else◌, inl, inr, leb, length, not, refl, true, ℕ, ◌&&◌,
  ◌||◌, ◌↔◌, ◌∷◌, ◌≡◌, ◌≤◌, ◌⊎◌,
}
use inferna_next.Base.Member.{All, All-of_In, In, in_of_All}
use inferna_next.Base.Sorting.{
  In-of_sort_by, In-sort_by, IsSorted, length-sort_by, sort_by, sort_by-IsSorted,
}
use inferna_next.Workers.Sync.{Command}
use inferna_next.Engine.{WorkerSettings}
use inferna_next.Engine.Manager.{Docker, Manager}
use inferna_next.Engine.Manager.Effects.{Records}
use inferna_next.Engine.Reconcile.{apply_commands, is_start, ordered, run_batch, tracked_rank}
use inferna_next.Engine.Reconcile.Settle.{run_batch-instances}

-- `a` may come before `b`: no start after another command, and of two of a kind the larger rank first.
abbrev pub MayPrecede : Records → Command → Command → Type 0
MayPrecede rows a b =
    (is_start b ≡ true → is_start a ≡ true)
    × (is_start a ≡ is_start b → tracked_rank rows b ≤ tracked_rank rows a)

abbrev pub AreInOrder : Records → List Command → Type 0
AreInOrder rows [] = Unit
AreInOrder rows (c ∷ cs) = All (MayPrecede rows c) cs × AreInOrder rows cs

module _ (rows : Records) where
  test_precedes :
      (p q : Bool) (j k : ℕ)
      → (if p then not q || leb k j else not q && leb k j) ≡ true
      → (q ≡ true → p ≡ true) × (p ≡ q → k ≤ j)
  test_precedes true true j k h = ((λ e. refl), (λ e. ground arith))
  test_precedes true false j k h = ((λ e. refl), (λ e. cc))
  test_precedes false true j k h = cc
  test_precedes false false j k h = ((λ e. e), (λ e. ground arith))

  ordered-MayPrecede : (a b : Command) → ordered rows a b ≡ true → MayPrecede rows a b
  unfolding ordered
  ordered-MayPrecede a b h = test_precedes (is_start a) (is_start b) _ _ h

  test_total :
      (p q : Bool) (j k : ℕ)
      → ((if p then not q || leb k j else not q && leb k j) ≡ true)
        ⊎ ((if q then not p || leb j k else not p && leb j k) ≡ true)
  test_total true true j k = ground arith
  test_total true false j k = inl refl
  test_total false true j k = inr refl
  test_total false false j k = ground arith

  test_trans :
      (p q r : Bool) (i j k : ℕ)
      → (if p then not q || leb j i else not q && leb j i) ≡ true
      → (if q then not r || leb k j else not r && leb k j) ≡ true
      → (if p then not r || leb k i else not r && leb k i) ≡ true
  test_trans true true true i j k h g = ground arith
  test_trans true true false i j k h g = refl
  test_trans true false true i j k h g = cc
  test_trans true false false i j k h g = refl
  test_trans false true r i j k h g = cc
  test_trans false false true i j k h g = cc
  test_trans false false false i j k h g = ground arith

  sorted-AreInOrder : (cs : List Command) → IsSorted (ordered rows) cs → AreInOrder rows cs
  sorted-AreInOrder [] s = tt
  sorted-AreInOrder (c ∷ cs) s = (
    All-of_In (MayPrecede rows c) cs
        (λ b m. ordered-MayPrecede c b (in_of_All (λ y. ordered rows c y ≡ true) cs s.0 b m)),
    sorted-AreInOrder cs s.1,
  )

  order-AreInOrder : (cs : List Command) → AreInOrder rows (sort_by (ordered rows) cs)
  unfolding ordered
  order-AreInOrder cs = sorted-AreInOrder _ (
      sort_by-IsSorted (ordered rows) (λ a b. test_total (is_start a) (is_start b) _ _)
        (λ a b c. test_trans (is_start a) (is_start b) (is_start c) _ _ _) cs)

-- `ran` holds the same commands as `cs`, with every start before the other commands and,
-- among each, the larger rank of the manager's records first.
abbrev pub IsRun : Records → List Command → List Command → Type 0
IsRun rows cs ran =
    AreInOrder rows ran × (length ran ≡ length cs) × ((c : Command) → In c ran ↔ In c cs)

module _ {St : Type 0} (docker : Docker St) (settings : WorkerSettings) (now : ℕ) where
  -- The records after a batch are those of its commands one after the other, in an order in
  -- which no start comes after another command and, of two commands of a kind, the one whose instance
  -- has the larger rank in the manager's records comes first.
  pub run_batch-IsRun :
      (cs : List Command) (m : Manager St)
      → (ran : List Command) × IsRun m.instances cs ran
        × ((run_batch docker settings now cs m).instances
            ≡ (apply_commands docker settings now ran m).instances)
  run_batch-IsRun cs m =
      let leq = ordered m.instances in
      (
        sort_by leq cs,
        (
          order-AreInOrder m.instances cs,
          length-sort_by leq cs,
          (λ c. (In-of_sort_by leq c cs, In-sort_by leq c cs)),
        ),
        run_batch-instances docker settings now cs m,
      )
