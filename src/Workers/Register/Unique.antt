-- ===== src/Workers/Register/Unique.antt =====
-- A registration keeps the unique constraints of the workers, and never runs into them.
use inferna_next.Base.{
  ==_iff, Bool, Bool-cases, List, Option-cases, [], any, ap, arith, false, inl, inr, none, not,
  refl, some, subst, sym, true, ℕ, ◌&&◌, ◌==◌, ◌∙◌, ◌∷◌, ◌≡◌, ◌≢◌,
}
use inferna_next.Base.Text.{Text, text_eq, text_eq_iff}
use inferna_next.Base.Member.{In}
use inferna_next.Models.{Worker}
use inferna_next.Workers.Register.{
  Match, by_both, by_hostname, by_name, by_none, has_hostname, has_name, is_available, match_worker,
  one_worker,
}

-- No other row of the table has the cluster and the name, or the cluster and the hostname, of the row.
abbrev pub IsFree : Worker → List Worker → Type 0
IsFree w workers =
    (v : Worker)
    → In v workers
    → v.id ≢ w.id
    → v.cluster_id ≡ w.cluster_id
    → (v.name ≢ w.name) × (v.hostname ≢ w.hostname)

-- The unique constraints (cluster, name) and (cluster, hostname).
abbrev pub AreUnique : List Worker → Type 0
AreUnique workers = (w : Worker) → In w workers → IsFree w workers

pub any-all_false :
    {A : Type 0} (p : A → Bool) (xs : List A) → ((x : A) → In x xs → p x ≡ false) → any p xs ≡ false
any-all_false p [] h = refl
any-all_false p (x ∷ xs) h = rw (h x (inl refl)) (any-all_false p xs (λ y m. h y (inr m)))

each_false :
    {A : Type 0} (p : A → Bool) (xs : List A) → any p xs ≡ false → (x : A) → In x xs → p x ≡ false
each_false p [] h x m = absurd m
each_false p (y ∷ xs) h x (inl e) = ap p e ∙ ground arith
each_false p (y ∷ xs) h x (inr m) = each_false p xs (ground arith) x m

one_worker-some :
    (p : Worker → Bool) (ws : List Worker) (w : Worker)
    → one_worker p ws ≡ some w
    → In w ws × (p w ≡ true)
unfolding one_worker
one_worker-some p [] w h = cc
one_worker-some p (v ∷ ws) w h = elim (Bool-cases (p v)) [
  | inl e ↦
      let found : some v ≡ some w = rw e at h in
      let same : v ≡ w = ap (λ o. elim o [ none ↦ v | some x ↦ x ]) found in
      (inl (sym same), subst (λ x. p x ≡ true) same e)
  | inr e ↦ let r = one_worker-some p ws w (rw e at h) in (inr r.0, r.1)
]

one_worker-none :
    (p : Worker → Bool) (ws : List Worker)
    → one_worker p ws ≡ none
    → (w : Worker) → In w ws
    → p w ≡ false
unfolding one_worker
one_worker-none p [] h w m = absurd m
one_worker-none p (v ∷ ws) h w m = elim (Bool-cases (p v)) [
  | inl e ↦ let found = rw e at h in cc
  | inr e ↦ elim m [
    | inl same ↦ ap p same ∙ e
    | inr later ↦ one_worker-none p ws (rw e at h) w later
  ]
]

-- The row that a request matches, as the three queries find it.
abbrev pub IsMatch : ℕ → Text → Text → List Worker → Match → Type 0
IsMatch cluster name hostname workers (by_both w) =
    In w workers × (w.cluster_id ≡ cluster) × (w.hostname ≡ hostname)
IsMatch cluster name hostname workers (by_hostname w) =
    In w workers × (w.cluster_id ≡ cluster) × (w.hostname ≡ hostname)
IsMatch cluster name hostname workers (by_name w) =
    In w workers
    × (w.cluster_id ≡ cluster)
    × ((v : Worker) → In v workers → has_hostname cluster hostname v ≡ false)
IsMatch cluster name hostname workers by_none =
    ((v : Worker) → In v workers → has_hostname cluster hostname v ≡ false)
    × ((v : Worker) → In v workers → has_name cluster name v ≡ false)

and_both : (a b : Bool) → (a && b) ≡ true → (a ≡ true) × (b ≡ true)
and_both true b h = (refl, h)
and_both false b h = cc

pub match_worker-IsMatch :
    (cluster : ℕ) (name hostname : Text) (workers : List Worker)
    → IsMatch cluster name hostname workers (match_worker cluster name hostname workers)
unfolding match_worker
match_worker-IsMatch cluster name hostname workers =
    elim (Option-cases
      (one_worker (λ w. has_name cluster name w && text_eq w.hostname hostname) workers)) [
        | inr (w, e) ↦
            let found = one_worker-some _ workers w e in
            let parts = and_both (has_name cluster name w) (text_eq w.hostname hostname) found.1 in
            let own = and_both (w.cluster_id == cluster) (text_eq w.name name) parts.0 in
            rw (match_worker, e)
              (
                found.0,
                (==_iff w.cluster_id cluster).0 own.0,
                (text_eq_iff w.hostname hostname).0 parts.1,
              )
        | inl e ↦ elim (Option-cases (one_worker (has_hostname cluster hostname) workers)) [
          | inr (w, f) ↦
              let found = one_worker-some _ workers w f in
              let parts =
                and_both (w.cluster_id == cluster) (text_eq w.hostname hostname) found.1 in
              rw (match_worker, e, f)
                (
                  found.0,
                  (==_iff w.cluster_id cluster).0 parts.0,
                  (text_eq_iff w.hostname hostname).0 parts.1,
                )
          | inl f ↦ elim (Option-cases (one_worker (has_name cluster name) workers)) [
            | inr (w, g) ↦
                let found = one_worker-some _ workers w g in
                let parts = and_both (w.cluster_id == cluster) (text_eq w.name name) found.1 in
                rw (match_worker, e, f, g)
                  (found.0, (==_iff w.cluster_id cluster).0 parts.0, one_worker-none _ workers f)
            | inl g ↦
                rw (match_worker, e, f, g)
                  (one_worker-none _ workers f, one_worker-none _ workers g)
          ]
        ]
      ]

pub has_text_false :
    (k cluster : ℕ) (s t : Text) → (k == cluster && text_eq s t) ≡ false → k ≡ cluster → s ≢ t
has_text_false k cluster s t h e same =
    let a = (==_iff k cluster).1 e in
    let b = (text_eq_iff s t).1 same in
    let both : (k == cluster && text_eq s t) ≡ true = rw (a, b) refl in cc

-- A text that is available is one that no other row has.
pub available_lem :
    (p : Worker → Bool) (id : ℕ) (workers : List Worker) (v : Worker)
    → is_available p id workers ≡ true
    → In v workers
    → v.id ≢ id
    → p v ≡ false
unfolding is_available
available_lem p id workers v h m other =
    let quiet : any (λ u. p u && not (u.id == id)) workers ≡ false = ground arith in
    let here = each_false (λ u. p u && not (u.id == id)) workers quiet v m in
    let apart : (v.id == id) ≡ false = not_true (v.id == id) (λ e. other ((==_iff v.id id).0 e)) in
    last (p v) (rw apart at here)
  where
    not_true : (b : Bool) → (b ≡ true → ⊥) → b ≡ false
    not_true true k = absurd (k refl)
    not_true false k = refl

    last : (b : Bool) → (b && true) ≡ false → b ≡ false
    last true k = k
    last false k = refl
