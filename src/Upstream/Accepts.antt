-- ===== src/Upstream/Accepts.antt =====
-- Which targets the guard lets through.
use inferna_next.Base.{
  Bool, Bool-cases, List, Option-cases, [], all, any, false, inl, inr, refl, subst, true, ◌∷◌, ◌≡◌,
}
use inferna_next.Base.Text.{Text}
use inferna_next.Base.Member.{In}
use inferna_next.Base.Results.{Result, ok}
use inferna_next.Upstream.{
  GuardError, Ip, Platform, Policy, extract_host, hostname_in_allowlist, ip_allowed_by_allowlist,
  ip_is_blocked, ip_to_pin, is_development, null, pin_or, prefer_ipv4, resolve_and_validate,
  resolve_host_ips, unwrap_ipv4_mapped, validate_host, validate_literal,
}
use inferna_next.Upstream.Blocked.{ip_is_blocked_iff}
use inferna_next.Upstream.Addresses.{
  IsAddressOf, IsListed-entry_allows, IsPermitted, null-cons, null-nil, resolved_iff, unwrap_twice,
}

In-all :
    {A : Type 0} (p : A → Bool) (xs : List A) → ((x : A) → In x xs → p x ≡ true) → all p xs ≡ true
In-all p [] h = refl
In-all p (x ∷ xs) h = rw (h x (inl refl)) (In-all p xs (λ y m. h y (inr m)))

In-any-false :
    {A : Type 0} (p : A → Bool) (xs : List A) → ((x : A) → In x xs → p x ≡ false) → any p xs ≡ false
In-any-false p [] h = refl
In-any-false p (x ∷ xs) h = rw (h x (inl refl)) (In-any-false p xs (λ y m. h y (inr m)))

In-null : {A : Type 0} (x : A) (xs : List A) → In x xs → null xs ≡ false
In-null x [] m = absurd m
In-null x (y ∷ xs) m = refl

not_true : (b : Bool) → (b ≡ true → ⊥) → b ≡ false
not_true true h = absurd (h refl)
not_true false h = refl

module _ (platform : Platform) where
  -- The guard returns a text.
  abbrev pub IsAccepted : Result GuardError Text → Type 0
  IsAccepted r = (pinned : Text) × (r ≡ ok pinned)

  pin-IsAccepted :
      (ip : Ip) (ips : List Ip) (other : Result GuardError Text)
      → In ip ips
      → IsAccepted (pin_or platform ips other)
  pin-IsAccepted ip [] other m = absurd m
  pin-IsAccepted ip (j ∷ ips) other m = (ip_to_pin platform (prefer_ipv4 j (j ∷ ips)), refl)

  permitted-free :
      (policy : Policy) (ip : Ip)
      → policy.allowlist ≡ []
      → is_development policy ≡ false
      → IsPermitted platform policy ip
      → ip_is_blocked ip ≡ false
  permitted-free policy ip empty settled p =
      not_true (ip_is_blocked ip) (λ h. p.1 empty settled ((ip_is_blocked_iff ip).0 h))

  validate_literal-IsAccepted :
      (policy : Policy) (ip : Ip)
      → IsPermitted platform policy ip
      → IsAccepted (validate_literal platform policy ip)
  unfolding validate_literal
  validate_literal-IsAccepted policy ip p = elim (Bool-cases (null policy.allowlist)) [
    | inr full ↦
        let listed =
          IsListed-entry_allows platform policy ip (p.0 (null-cons policy.allowlist full)) in
        (ip_to_pin platform ip, rw (validate_literal, full, listed) refl)
    | inl empty ↦ elim (Bool-cases (is_development policy)) [
      | inl dev ↦ (ip_to_pin platform ip, rw (validate_literal, empty, dev) refl)
      | inr settled ↦
          let free = permitted-free policy ip (null-nil policy.allowlist empty) settled p in
          (ip_to_pin platform ip, rw (validate_literal, empty, settled, free) refl)
    ]
  ]

  validate_host-IsAccepted :
      (policy : Policy) (host : Text) (ip : Ip)
      → In ip (resolve_host_ips platform host)
      → ((j : Ip)
          → In j (resolve_host_ips platform host)
          → IsPermitted platform policy (unwrap_ipv4_mapped j))
      → IsAccepted (validate_host platform policy host)
  unfolding validate_host
  validate_host-IsAccepted policy host ip m p =
      let ips = resolve_host_ips platform host in
      let there = In-null ip ips m in
      elim (Bool-cases (null policy.allowlist)) [
        | inr full ↦ elim (Bool-cases (hostname_in_allowlist platform host policy.allowlist)) [
          | inl named ↦ rw (validate_host, full, named) (pin-IsAccepted ip ips _ m)
          | inr unnamed ↦
              let listed =
                In-all
                  (λ j. ip_allowed_by_allowlist platform (unwrap_ipv4_mapped j) policy.allowlist)
                  ips
                  (λ j n.
                    IsListed-entry_allows platform policy (unwrap_ipv4_mapped j)
                      ((p j n).0 (null-cons policy.allowlist full))) in
              rw (validate_host, full, unnamed, there, listed) (pin-IsAccepted ip ips _ m)
        ]
        | inl empty ↦ elim (Bool-cases (is_development policy)) [
          | inl dev ↦ rw (validate_host, empty, dev) (pin-IsAccepted ip ips _ m)
          | inr settled ↦
              let free =
                In-any-false (λ j. ip_is_blocked (unwrap_ipv4_mapped j)) ips
                  (λ j n.
                    permitted-free policy (unwrap_ipv4_mapped j) (null-nil policy.allowlist empty)
                      settled (p j n)) in
              rw (validate_host, empty, settled, there, free) (pin-IsAccepted ip ips _ m)
        ]
      ]

  -- A target is accepted if its host has an address and each of its addresses, taken out of a mapped
  -- one, is permitted: on the allowlist, or, with no allowlist and outside of development, in no
  -- reserved range.
  pub resolve_and_validate-IsAccepted :
      (policy : Policy) (target host : Text) (ip : Ip)
      → extract_host platform target ≡ ok host
      → IsAddressOf platform host ip
      → ((j : Ip)
          → IsAddressOf platform host j
          → IsPermitted platform policy (unwrap_ipv4_mapped j))
      → IsAccepted (resolve_and_validate platform policy target)
  unfolding resolve_and_validate
  resolve_and_validate-IsAccepted policy target host ip f a p =
      elim (Option-cases (platform.parse_ip host)) [
        | inl name ↦
            rw (resolve_and_validate, f, name)
              (validate_host-IsAccepted policy host ip ((resolved_iff platform host ip name).1 a)
                (λ j m. p j ((resolved_iff platform host j name).0 m)))
        | inr (literal, e) ↦
            let literal_ip = unwrap_ipv4_mapped literal in
            rw (resolve_and_validate, f, e)
              (validate_literal-IsAccepted policy literal_ip (
                subst (IsPermitted platform policy) (unwrap_twice literal)
                  (p literal_ip (inl (literal, e, refl)))))
      ]
