-- ===== src/Workers/Register/Outcome.antt =====
-- The outcome of a registration on a table that keeps its constraints.
use inferna_next.Base.{
  Bool, Bool-cases, List, Option, Option-cases, [], arith, false, inl, inr, not, refl, some, true,
  ℕ, ◌&&◌, ◌++◌, ◌==◌, ◌∙◌, ◌∷◌, ◌≡◌, ◌≢◌,
}
use inferna_next.Base.Int.{ℤ}
use inferna_next.Base.Text.{Text, codes, text_eq}
use inferna_next.Base.Strings.{is_empty, or_text, strip}
use inferna_next.Base.Member.{In}
use inferna_next.Base.Results.{Result, Result-cases, err, ok, ◌>>=◌}
use inferna_next.Models.{Worker, connected}
use inferna_next.Workers.Sync.{put_worker}
use inferna_next.Upstream.{Platform, Policy, validate_worker_address}
use inferna_next.Workers.Register.{
  Cluster, Facts, Match, RegisterError, RegisterRequest, already_exists, by_both, by_hostname,
  by_name, by_none, cluster_by_name, has_hostname, has_name, is_available, is_too_old, match_worker,
  moved, new_worker, protocol, refreshed_worker, register_worker, registered_address, renamed,
  write_worker,
}
use inferna_next.Workers.Register.Unique.{
  AreUnique, IsFree, IsMatch, any-all_false, available_lem, has_text_false, match_worker-IsMatch,
}
use inferna_next.Workers.Register.Registered.{
  AreRowsWith, IsUnusedId, append-AreRowsWith, free-commit, put_worker-AreRowsWith, rows-AreUnique,
}

-- The name and the hostname that a row found again gets are free.
refreshed-IsFree :
    (cluster : ℕ) (facts : Facts) (q : RegisterRequest) (workers : List Worker) (found : Bool)
    (w : Worker)
    → AreUnique workers
    → In w workers
    → w.cluster_id ≡ cluster
    → IsFree (refreshed_worker cluster facts q workers found w) workers
unfolding refreshed_worker renamed moved
refreshed-IsFree cluster facts q workers found w unique there home v m other same =
    (name_apart, hostname_apart)
  where
    v_home : v.cluster_id ≡ cluster
    v_home = same ∙ home

    name_apart : v.name ≢ renamed cluster q workers w
    name_apart e =
        elim (Bool-cases (
          not (is_empty q.worker_name)
          && not (text_eq q.worker_name w.name)
          && is_available (has_name cluster q.worker_name) w.id workers)) [
            | inr kept ↦ (unique w there v m other same).0 (e ∙ rw (renamed, kept) refl)
            | inl new ↦
                let free : is_available (has_name cluster q.worker_name) w.id workers ≡ true =
                  ground arith in
                let apart =
                  available_lem (has_name cluster q.worker_name) w.id workers v free m other in
                has_text_false v.cluster_id cluster v.name q.worker_name apart v_home
                  (e ∙ rw (renamed, new) refl)
          ]

    hostname_apart : v.hostname ≢ moved cluster q workers found w
    hostname_apart e =
        elim (Bool-cases (found && is_available (has_hostname cluster q.hostname) w.id workers)) [
          | inr kept ↦ (unique w there v m other same).1 (e ∙ rw (moved, kept) refl)
          | inl new ↦
              let free : is_available (has_hostname cluster q.hostname) w.id workers ≡ true =
                ground arith in
              let apart =
                available_lem (has_hostname cluster q.hostname) w.id workers v free m other in
              has_text_false v.cluster_id cluster v.hostname q.hostname apart v_home
                (e ∙ rw (moved, new) refl)
        ]

-- The row has the hostname and the cluster of the request, the new token and the address, and is
-- connected; the table keeps its constraints and its other rows.
abbrev pub IsRegistered : ℕ → Facts → RegisterRequest → List Worker → List Worker × Worker → Type 0
IsRegistered cluster facts q workers out =
    AreUnique out.0
    × AreRowsWith out.1 out.0 workers
    × (out.1.hostname ≡ q.hostname)
    × (out.1.cluster_id ≡ cluster)
    × (out.1.token_hash ≡ facts.token_hash)
    × (out.1.state ≡ connected)
    × (out.1.address ≡ facts.address)

refreshed-IsRegistered :
    (cluster : ℕ) (facts : Facts) (q : RegisterRequest) (workers : List Worker) (found : Bool)
    (w : Worker)
    → AreUnique workers
    → In w workers
    → w.cluster_id ≡ cluster
    → moved cluster q workers found w ≡ q.hostname
    → let v = refreshed_worker cluster facts q workers found w in
      IsRegistered cluster facts q workers (put_worker v workers, v)
unfolding refreshed_worker
refreshed-IsRegistered cluster facts q workers found w unique there home host =
    let v = refreshed_worker cluster facts q workers found w in
    let rows = put_worker-AreRowsWith v w workers there refl in
    (
      rows-AreUnique v (put_worker v workers) workers unique
          (refreshed-IsFree cluster facts q workers found w unique there home) rows,
      rows,
      host,
      home,
      refl,
      refl,
      refl,
    )

-- A machine that no row has is followed.
moved-free :
    (cluster : ℕ) (q : RegisterRequest) (workers : List Worker) (w : Worker)
    → ((v : Worker) → In v workers → has_hostname cluster q.hostname v ≡ false)
    → moved cluster q workers true w ≡ q.hostname
unfolding moved is_available
moved-free cluster q workers w none_has =
    let quiet =
      any-all_false (λ v. has_hostname cluster q.hostname v && not (v.id == w.id)) workers
        (λ v m. rw (none_has v m) refl) in
    rw quiet refl

module _ (platform : Platform) (policy : Policy) (registration_token : Text)
    (int_of : Text → Option ℤ) (sha : Text → Text) (token : Text) (new_id now : ℕ) where
  -- The write succeeds for the row that the queries find.
  write_worker-IsRegistered :
      (cluster : ℕ) (facts : Facts) (q : RegisterRequest) (workers : List Worker) (found : Match)
      → AreUnique workers
      → IsUnusedId new_id workers
      → IsMatch cluster (or_text q.worker_name q.hostname) q.hostname workers found
      → (out : List Worker × Worker) × (write_worker platform policy registration_token int_of sha
            token new_id now cluster facts q workers found
          ≡ ok out)
        × IsRegistered cluster facts q workers out
  unfolding write_worker moved new_worker
  write_worker-IsRegistered cluster facts q workers (by_both w) unique fresh (m, home, host) =
      let v = refreshed_worker cluster facts q workers false w in
      (
        (put_worker v workers, v),
        free-commit v _ workers (refreshed-IsFree cluster facts q workers false w unique m home),
        refreshed-IsRegistered cluster facts q workers false w unique m home host,
      )
  write_worker-IsRegistered cluster facts q workers (by_hostname w) unique fresh (m, home, host) =
      let v = refreshed_worker cluster facts q workers false w in
      (
        (put_worker v workers, v),
        free-commit v _ workers (refreshed-IsFree cluster facts q workers false w unique m home),
        refreshed-IsRegistered cluster facts q workers false w unique m home host,
      )
  write_worker-IsRegistered cluster facts q workers (by_name w) unique fresh (m, home, no_host) =
      let v = refreshed_worker cluster facts q workers true w in
      (
        (put_worker v workers, v),
        free-commit v _ workers (refreshed-IsFree cluster facts q workers true w unique m home),
        refreshed-IsRegistered cluster facts q workers true w unique m home
            (moved-free cluster q workers w no_host),
      )
  write_worker-IsRegistered cluster facts q workers by_none unique fresh (no_host, no_name) =
      let v = new_worker new_id cluster facts q in
      let free : IsFree v workers = λ u m other same. (
        has_text_false u.cluster_id cluster u.name (or_text q.worker_name q.hostname) (no_name u m)
            same,
        has_text_false u.cluster_id cluster u.hostname q.hostname (no_host u m) same,
      ) in
      let rows = append-AreRowsWith v workers fresh in
      (
        (workers ++ v ∷ [], v),
        free-commit v _ workers free,
        (
          rows-AreUnique v (workers ++ v ∷ []) workers unique free rows,
          rows,
          refl,
          refl,
          refl,
          refl,
          refl,
        ),
      )

  registered_address-err :
      (raw : Text) (e : RegisterError)
      → registered_address platform policy registration_token int_of sha token new_id now raw
        ≡ err e
      → e ≢ already_exists
  unfolding registered_address
  registered_address-err raw e h same = elim (Bool-cases (is_empty (strip raw))) [
    | inl a ↦ let passed = rw (registered_address, a) at h in cc
    | inr a ↦ elim (Result-cases (validate_worker_address platform policy (strip raw))) [
      | inl (x, b) ↦ let raised_by = rw (registered_address, a, b) at h in cc
      | inr (x, b) ↦ let passed = rw (registered_address, a, b) at h in cc
    ]
  ]

  -- What a registration answers.
  abbrev pub RegisterOutcome :
      RegisterRequest
      → List Cluster
      → List Worker
      → Result RegisterError (List Worker × Worker)
      → Type 0
  RegisterOutcome q clusters workers (err e) = e ≢ already_exists
  RegisterOutcome q clusters workers (ok out) =
      (c : Cluster) × (address : Option Text) × (cluster_by_name
          (or_text q.cluster_name (codes "default")) clusters
        ≡ some c)
      × (registered_address platform policy registration_token int_of sha token new_id now q.address
          ≡ ok address)
      × IsRegistered c.id (record { token_hash = sha token; now = now; address = address }) q
          workers out

  -- On a table that keeps its unique constraints, and with an id that no row has, a registration
  -- never fails for a name or a hostname that is taken. If it succeeds, the row of the worker is in
  -- the cluster of the request, has its hostname, the new token and the validated address, and is
  -- connected; the table keeps its constraints, and every other row stands as before.
  pub register_worker-RegisterOutcome :
      (q : RegisterRequest) (clusters : List Cluster) (workers : List Worker)
      → AreUnique workers
      → IsUnusedId new_id workers
      → RegisterOutcome q clusters workers (
          register_worker platform policy registration_token int_of sha token new_id now q clusters
            workers)
  unfolding register_worker
  register_worker-RegisterOutcome q clusters workers unique fresh =
      elim (Bool-cases (not (text_eq q.cluster_token registration_token))) [
        | inl a ↦ rw (register_worker, a) (λ e. cc)
        | inr a ↦ elim (Bool-cases (not (q.protocol_version == protocol))) [
          | inl b ↦ rw (register_worker, a, b) (λ e. cc)
          | inr b ↦ elim (Bool-cases (is_too_old int_of q.version)) [
            | inl c ↦ rw (register_worker, a, b, c) (λ e. cc)
            | inr c ↦
                elim (Option-cases
                  (cluster_by_name (or_text q.cluster_name (codes "default")) clusters)) [
                    | inl d ↦ rw (register_worker, a, b, c, d) (λ e. cc)
                    | inr (k, d) ↦ rw (register_worker, a, b, c, d) (registered k d)
                  ]
          ]
        ]
      ]
    where
      registered :
          (k : Cluster)
          → cluster_by_name (or_text q.cluster_name (codes "default")) clusters ≡ some k
          → RegisterOutcome q clusters workers (
              registered_address platform policy registration_token int_of sha token new_id now
                q.address
              >>= (λ address.
                  write_worker platform policy registration_token int_of sha token new_id now k.id
                    (record { token_hash = sha token; now = now; address = address })
                    q
                    workers
                    (match_worker k.id (or_text q.worker_name q.hostname) q.hostname workers)))
      registered k d =
          elim (Result-cases (
            registered_address platform policy registration_token int_of sha token new_id now
              q.address)) [
                | inl (x, e) ↦ rw e (registered_address-err q.address x e)
                | inr (address, e) ↦
                    let facts : Facts = record {
                      token_hash = sha token;
                      now = now;
                      address = address;
                    } in
                    let matched =
                      match_worker-IsMatch k.id (or_text q.worker_name q.hostname) q.hostname
                        workers in
                    let written =
                      write_worker-IsRegistered k.id facts q workers _ unique fresh matched in
                    rw (e, written.1) (k, address, d, e, written.2)
              ]
