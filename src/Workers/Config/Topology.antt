-- ===== src/Workers/Config/Topology.antt =====
-- The address of a group, as the server writes it and as the ranks receive it.
use inferna_next.Base.{
  Bool-cases, List, Option, [], all, ap, arith, false, inl, inr, ltb, ltb→lt, none, refl, some, suc,
  true, zero, ℕ, ◌%◌, ◌*◌, ◌++◌, ◌+◌, ◌-◌, ◌/◌, ◌<◌, ◌||◌, ◌∙◌, ◌∷◌, ◌≡◌, ◌≤◌,
}
use inferna_next.Base.Text.{Text, codes}
use inferna_next.Base.Strings.{
  contains_char, digits_from, int_from, is_digit, isdigit, rpartition, str_nat,
}
use inferna_next.Base.Member.{All}
use inferna_next.Models.{ModelInstance}
use inferna_next.Scheduler.Parallel.{ParallelAllocation, rendezvous_host}
use inferna_next.Scaling.{Deployment}
use inferna_next.Scaling.Apply.{group_rows, rendezvous_of}
use inferna_next.Workers.Config.{
  Parallelism, Rendezvous, apply_parallelism, number_or, rank_messages,
}

contains_char-append :
    (c : ℕ) (s t : Text) → contains_char c (s ++ t) ≡ (contains_char c s || contains_char c t)
unfolding contains_char
contains_char-append c [] t = refl
contains_char-append c (d ∷ s) t = ground (arith, contains_char-append c s t)

rpartition-none : (c : ℕ) (s : Text) → contains_char c s ≡ false → (rpartition c s).1 ≡ s
unfolding rpartition contains_char
rpartition-none c [] h = refl
rpartition-none c (d ∷ s) h = ground arith

-- The last separator splits, so what stands behind it must be free of it.
rpartition-append :
    (c : ℕ) (s t : Text) → contains_char c t ≡ false → rpartition c (s ++ (c ∷ t)) ≡ (s, t)
unfolding rpartition contains_char
rpartition-append c [] t h = ground arith
rpartition-append c (d ∷ s) t h =
    let there : contains_char c (s ++ (c ∷ t)) ≡ true =
      contains_char-append c s (c ∷ t) ∙ ground arith in
    rw (there, rpartition-append c s t h)

int_from-append : (n : ℕ) (s t : Text) → int_from n (s ++ t) ≡ int_from (int_from n s) t
unfolding int_from
int_from-append n [] t = refl
int_from-append n (c ∷ s) t = int_from-append (n * 10 + (c - b'0')) s t

-- Each digit is one.
abbrev IsDigits : Text → Type 0
IsDigits s = All (λ c. is_digit c ≡ true) s

IsDigits-append : (s t : Text) → IsDigits s → IsDigits t → IsDigits (s ++ t)
IsDigits-append [] t h k = k
IsDigits-append (c ∷ s) t h k = (h.0, IsDigits-append s t h.1 k)

digits_from-IsDigits : (fuel n : ℕ) → IsDigits (digits_from fuel n)
unfolding digits_from
digits_from-IsDigits zero n = tt
digits_from-IsDigits (suc fuel) n = elim (Bool-cases (ltb n 10)) [
  | inl small ↦ rw small ((let h = ltb→lt n 10 small in ground arith), tt)
  | inr large ↦ rw large (
      IsDigits-append (digits_from fuel (n / 10)) ((b'0' + n % 10) ∷ [])
        (digits_from-IsDigits fuel (n / 10))
        ((let h : n % 10 < 10 = omega arith in ground arith), tt))
]

int_from-digits_from : (fuel n : ℕ) → n < fuel → int_from 0 (digits_from fuel n) ≡ n
unfolding digits_from int_from
int_from-digits_from zero n h = absurd (omega arith)
int_from-digits_from (suc fuel) n h = elim (Bool-cases (ltb n 10)) [
  | inl small ↦ rw small (omega arith)
  | inr large ↦
      let big : 10 ≤ n = ground arith in
      rw
        (
          large,
          int_from-append 0 (digits_from fuel (n / 10)) ((b'0' + n % 10) ∷ []),
          int_from-digits_from fuel (n / 10) (omega arith),
        )
        (omega arith)
]

no_colon : (s : Text) → IsDigits s → contains_char b':' s ≡ false
unfolding contains_char
no_colon [] h = refl
no_colon (c ∷ s) h = let d = h.0 in ground (arith, no_colon s h.1)

isdigit-append_one :
    (s : Text) (c : ℕ) → IsDigits s → is_digit c ≡ true → isdigit (s ++ (c ∷ [])) ≡ true
unfolding isdigit
isdigit-append_one [] c h d = ground arith
isdigit-append_one (b ∷ s) c h d =
    let b' = h.0 in
    ground (arith, all_digits (s ++ (c ∷ [])) (IsDigits-append s (c ∷ []) h.1 (d, tt)))
  where
    all_digits : (t : Text) → IsDigits t → all is_digit t ≡ true
    all_digits [] k = refl
    all_digits (e ∷ t) k = let e' = k.0 in ground (arith, all_digits t k.1)

isdigit-digits_from : (fuel n : ℕ) → isdigit (digits_from (suc fuel) n) ≡ true
unfolding digits_from
isdigit-digits_from fuel n = elim (Bool-cases (ltb n 10)) [
  | inl small ↦
      rw small (isdigit-append_one [] (b'0' + n) tt (let h = ltb→lt n 10 small in ground arith))
  | inr large ↦ rw large (
      isdigit-append_one (digits_from fuel (n / 10)) (b'0' + n % 10)
        (digits_from-IsDigits fuel (n / 10)) (let h : n % 10 < 10 = omega arith in ground arith))
]

isdigit-str_nat : (n : ℕ) → isdigit (str_nat n) ≡ true
unfolding str_nat
isdigit-str_nat n = ap (λ f. isdigit (digits_from f n)) sum ∙ isdigit-digits_from n n
  where
    sum : n + 1 ≡ suc n
    sum = omega arith

no_colon-str_nat : (n : ℕ) → contains_char b':' (str_nat n) ≡ false
unfolding str_nat
no_colon-str_nat n = no_colon _ (digits_from-IsDigits (n + 1) n)

-- `int(str(n))` is `n`.
pub int_from-str_nat : (n : ℕ) → int_from 0 (str_nat n) ≡ n
unfolding str_nat
int_from-str_nat n = int_from-digits_from (n + 1) n (omega arith)

rank_messages-split :
    (i : ModelInstance) (host : Text) (port : ℕ)
    → ((rank_messages i (host ++ (b':' ∷ str_nat port))).1.master_address ≡ host)
      × ((rank_messages i (host ++ (b':' ∷ str_nat port))).1.master_port ≡ port)
unfolding rank_messages
rank_messages-split i host port =
    rw (rpartition-append b':' host (str_nat port) (no_colon-str_nat port), isdigit-str_nat port)
      (refl, int_from-str_nat port)

-- What a rank is told: the address of the head's worker without its port, the head's rendezvous port
-- and the rank's own number.
abbrev pub IsTold : ParallelAllocation → ℕ → ParallelAllocation → ModelInstance → Type 0
IsTold head port a i =
    (messages : Parallelism × Rendezvous) × (apply_parallelism i ≡ some messages)
    × (messages.1.master_address ≡ rendezvous_host head.worker.address head.worker.hostname)
    × (messages.1.master_port ≡ port)
    × (messages.1.node_rank ≡ a.node_rank)

-- The rows in the order of the allocations.
abbrev pub TellsAll : ParallelAllocation → ℕ → List ParallelAllocation → List ModelInstance → Type 0
TellsAll head port [] [] = Unit
TellsAll head port [] (i ∷ is) = ⊥
TellsAll head port (a ∷ xs) [] = ⊥
TellsAll head port (a ∷ xs) (i ∷ is) = IsTold head port a i × TellsAll head port xs is

number_or_self : (n : ℕ) → number_or (some n) 0 ≡ n
number_or_self n = ground arith

row-IsTold :
    (head a : ParallelAllocation) (group port : ℕ) (i : ModelInstance)
    → i.parallel_group_id ≡ some group
    → i.rendezvous
      ≡ some (rendezvous_host head.worker.address head.worker.hostname ++ (b':' ∷ str_nat port))
    → i.node_rank ≡ some a.node_rank
    → IsTold head port a i
unfolding apply_parallelism rank_messages
row-IsTold head a group port i eg er en =
    let host = rendezvous_host head.worker.address head.worker.hostname in
    let split = rank_messages-split i host port in
    (
      rank_messages i (host ++ (b':' ∷ str_nat port)),
      rw (eg, er),
      split.0,
      split.1,
      rw en (number_or_self a.node_rank),
    )

module _ (uuid4 : ℕ → ℕ) (now : ℕ) (d : Deployment) (group port : ℕ)
    (head : ParallelAllocation) where
  rows_told :
      (k : ℕ) (address : Text) (xs : List ParallelAllocation)
      → address ≡ rendezvous_host head.worker.address head.worker.hostname ++ (b':' ∷ str_nat port)
      → TellsAll head port xs (group_rows uuid4 now d group address k xs)
  unfolding group_rows
  rows_told k address [] e = tt
  rows_told k address (a ∷ xs) e =
      (row-IsTold head a group port _ refl (ap some e) refl, rows_told (k + 1) address xs e)

  -- Of the rows that a new group of ranks gets, each tells its rank, in the start command, the host of
  -- the head's worker, the head's rendezvous port, if it has one, and its own number: what the server
  -- writes as one text with a colon, it reads back, also for a host that has colons itself.
  pub group_rows-TellsAll :
      (k : ℕ) (rest : List ParallelAllocation)
      → head.rendezvous_port ≡ some port
      → TellsAll head port
          (head ∷ rest)
          (group_rows uuid4 now d group (rendezvous_of (head ∷ rest)) k (head ∷ rest))
  unfolding rendezvous_of
  group_rows-TellsAll k rest e =
      let host = rendezvous_host head.worker.address head.worker.hostname in
      rows_told k (rendezvous_of (head ∷ rest)) (head ∷ rest) (
        ap (λ (o : Option ℕ). host ++ (b':' ∷ elim o [ none ↦ codes "None" | some p ↦ str_nat p ]))
          e)
