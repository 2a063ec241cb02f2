-- ===== src/Gateway/Target/Safety.antt =====
-- The slots of a call, and where its request goes.
use inferna_next.Base.{
  ==_iff, Bool, Bool-cases, List, Option, Option-cases, arith, false, if◌then◌else◌, inl, inr, none,
  refl, some, subst, sym, true, ℕ, ◌+◌, ◌<◌, ◌==◌, ◌||◌, ◌∙◌, ◌≡◌, ◌⊎◌,
}
use inferna_next.Base.Text.{Text, codes, text_eq, text_eq_iff}
use inferna_next.Base.Results.{Result, Result-cases, err, ok, ok-injective}
use inferna_next.Models.{Db, Model, ModelInstance, Worker}
use inferna_next.Workers.Sync.{worker_by_id}
use inferna_next.Upstream.{
  Platform, Policy, extract_host, hostname_in_allowlist, is_development, resolve_and_validate,
}
use inferna_next.Upstream.Addresses.{IsNamed, IsSafe, names_host-IsNamed}
use inferna_next.Upstream.Safety.{resolve_and_validate-IsSafe}
use inferna_next.Gateway.{Gateway, reserve}
use inferna_next.Gateway.Slots.{active_of, active_of-release, reserve-active, taken}
use inferna_next.Gateway.Target.{
  RequestUrl, TargetError, authority_of, fallback_authority, finish_target, model_by_name,
  raw_host_of, resolve_target, scheme_of, target_url, upstream_target,
}

-- The slots of an instance that the call takes over to its caller: one of the instance that it
-- returns, none if it raises.
abbrev pub slots_of : Result TargetError (Text × ModelInstance) → ℕ → ℕ
slots_of (err e) j = 0
slots_of (ok (target, i)) j = if j == i.id then 1 else 0

module _ (platform : Platform) (policy : Policy) where
  finish_target-active :
      (db : Db) (url : RequestUrl) (o : Option ModelInstance) (g g' : Gateway)
      → ((j : ℕ) → active_of g' j ≡ active_of g j + taken o j)
      → (j : ℕ)
      → active_of (finish_target platform policy db url (o, g')).1 j
        ≡ active_of g j + slots_of (finish_target platform policy db url (o, g')).0 j
  unfolding finish_target
  finish_target-active db url none g g' h j = h j
  finish_target-active db url (some i) g g' h j =
      elim (Result-cases (upstream_target platform policy db i url)) [
        | inr (target, e) ↦ rw (finish_target, e) (h j)
        | inl (x, e) ↦
            let self = (==_iff i.id i.id).1 refl in
            let one : active_of g' i.id ≡ active_of g i.id + 1 = h i.id ∙ rw self refl in
            let positive : 0 < active_of g' i.id = omega arith in
            let freed = active_of-release g' i.id j positive in
            rw (finish_target, e) (omega (arith, freed, h j))
      ]

  -- A call that raises leaves the active count of every instance as it was, and one that returns an
  -- instance leaves one slot more of it and of no other instance.
  pub resolve_target-active :
      (clock : ℕ → ℕ) (models : List Model) (db : Db) (name : Text) (digests : List Text)
      (url : RequestUrl) (g : Gateway) (j : ℕ)
      → active_of (resolve_target platform policy clock models db name digests url g).1 j
        ≡ active_of g j
          + slots_of (resolve_target platform policy clock models db name digests url g).0 j
  unfolding resolve_target
  resolve_target-active clock models db name digests url g j =
      elim (Option-cases (model_by_name name models)) [
        | inl e ↦ rw (resolve_target, e) (omega arith)
        | inr (m, e) ↦
            let r = reserve clock db m.id digests g in
            rw (resolve_target, e)
              (finish_target-active db url r.0 g r.1 (reserve-active clock db m.id digests g) j)
      ]

  -- The host of an https URL stands for itself in development, or by its name on the allowlist.
  abbrev pub IsTrusted : Text → Text → Text → Type 0
  IsTrusted scheme host authority =
      (scheme ≡ codes "https")
      × (authority ≡ fallback_authority platform policy host)
      × ((is_development policy ≡ true) ⊎ IsNamed platform policy host)

  -- The URL goes to what the guard returned for the worker, or to a trusted host.
  abbrev pub IsGuarded : Db → ModelInstance → RequestUrl → Text → Type 0
  IsGuarded db i url target =
      (id : ℕ) × (w : Worker) × (host : Text) × (authority : Text) × (i.worker_id ≡ some id)
      × (worker_by_id id db.workers ≡ some w)
      × (extract_host platform (raw_host_of w) ≡ ok host)
      × (target ≡ target_url (scheme_of (raw_host_of w)) authority i url)
      × (IsSafe platform policy host authority
          ⊎ IsTrusted (scheme_of (raw_host_of w)) host authority)

  or_split : (a b : Bool) → (a || b) ≡ true → (a ≡ true) ⊎ (b ≡ true)
  or_split true b h = inl refl
  or_split false b h = inr h

  authority_of-IsTrusted :
      (raw_host host validated authority : Text)
      → extract_host platform raw_host ≡ ok host
      → IsSafe platform policy host validated
      → authority_of platform policy raw_host validated ≡ ok authority
      → IsSafe platform policy host authority ⊎ IsTrusted (scheme_of raw_host) host authority
  unfolding authority_of
  authority_of-IsTrusted raw_host host validated authority e safe h =
      elim (Bool-cases (text_eq (scheme_of raw_host) (codes "https"))) [
        | inr plain ↦ inl (
            subst (IsSafe platform policy host) (ok-injective (rw (authority_of, plain) at h)) safe)
        | inl tls ↦ elim (Bool-cases (text_eq validated host)) [
          | inl same ↦ inl (
              subst (IsSafe platform policy host)
                (ok-injective (rw (authority_of, tls, e, same) at h)) safe)
          | inr other ↦
              elim (Bool-cases
                (is_development policy || hostname_in_allowlist platform host policy.allowlist)) [
                  | inr nobody ↦ let refused = rw (authority_of, tls, e, other, nobody) at h in cc
                  | inl trusted ↦ inr (
                    (text_eq_iff (scheme_of raw_host) (codes "https")).0 tls,
                    sym (ok-injective (rw (authority_of, tls, e, other, trusted) at h)),
                    elim (or_split (is_development policy) _ trusted) [
                      | inl dev ↦ inl dev
                      | inr named ↦ inr (names_host-IsNamed platform policy host named)
                    ],
                  )
                ]
        ]
      ]

  upstream_target-IsGuarded :
      (db : Db) (i : ModelInstance) (url : RequestUrl) (target : Text)
      → upstream_target platform policy db i url ≡ ok target
      → IsGuarded db i url target
  unfolding upstream_target
  upstream_target-IsGuarded db i url target h = elim (Option-cases i.worker_id) [
    | inl e ↦ let refused = rw (upstream_target, e) at h in cc
    | inr (id, e) ↦ elim (Option-cases (worker_by_id id db.workers)) [
      | inl f ↦ let refused = rw (upstream_target, e, f) at h in cc
      | inr (w, f) ↦ elim (Result-cases (resolve_and_validate platform policy (raw_host_of w))) [
        | inl (x, k) ↦ let refused = rw (upstream_target, e, f, k) at h in cc
        | inr (validated, k) ↦
            elim (Result-cases (authority_of platform policy (raw_host_of w) validated)) [
              | inl (x, l) ↦ let refused = rw (upstream_target, e, f, k, l) at h in cc
              | inr (authority, l) ↦
                  let guarded =
                    resolve_and_validate-IsSafe platform policy (raw_host_of w) validated k in
                  (
                    id,
                    w,
                    guarded.0,
                    authority,
                    e,
                    f,
                    guarded.1,
                    sym (ok-injective (rw (upstream_target, e, f, k, l) at h)),
                    authority_of-IsTrusted (raw_host_of w) guarded.0 validated authority guarded.1
                        guarded.2 l,
                  )
            ]
      ]
    ]
  ]

  finish_target-IsGuarded :
      (db : Db) (url : RequestUrl) (o : Option ModelInstance) (g : Gateway) (target : Text)
      (i : ModelInstance)
      → (finish_target platform policy db url (o, g)).0 ≡ ok (target, i)
      → IsGuarded db i url target
  unfolding finish_target
  finish_target-IsGuarded db url none g target i h = let refused = h in cc
  finish_target-IsGuarded db url (some j) g target i h =
      elim (Result-cases (upstream_target platform policy db j url)) [
        | inl (x, e) ↦ let refused = rw (finish_target, e) at h in cc
        | inr (t, e) ↦
            let pair = ok-injective (rw (finish_target, e) at h) in
            subst (λ p. IsGuarded db p.1 url p.0) pair (upstream_target-IsGuarded db j url t e)
      ]

  -- The URL of a request goes to an address that the guard lets through for the host of the worker of
  -- the chosen instance, or, with https, to the host itself, in development or if it is on the
  -- allowlist by its name.
  pub resolve_target-IsGuarded :
      (clock : ℕ → ℕ) (models : List Model) (db : Db) (name : Text) (digests : List Text)
      (url : RequestUrl) (g : Gateway) (target : Text) (i : ModelInstance)
      → (resolve_target platform policy clock models db name digests url g).0 ≡ ok (target, i)
      → IsGuarded db i url target
  unfolding resolve_target
  resolve_target-IsGuarded clock models db name digests url g target i h =
      elim (Option-cases (model_by_name name models)) [
        | inl e ↦ let refused = rw (resolve_target, e) at h in cc
        | inr (m, e) ↦
            let r = reserve clock db m.id digests g in
            finish_target-IsGuarded db url r.0 r.1 target i (rw (resolve_target, e) at h)
      ]
