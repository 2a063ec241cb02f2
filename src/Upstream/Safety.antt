-- ===== src/Upstream/Safety.antt =====
-- What an address that the guard lets through is.
use inferna_next.Base.{
  Bool, Bool-cases, List, Option-cases, [], all, any, ap, false, if◌then◌else◌, inl, inr, none, not,
  refl, some, subst, sym, true, ◌∙◌, ◌∷◌, ◌≡◌, ◌≢◌, ◌⊎◌,
}
use inferna_next.Base.Text.{Text}
use inferna_next.Base.Member.{In}
use inferna_next.Base.Results.{Result, Result-cases, err, ok, ok-injective}
use inferna_next.Upstream.{
  GuardError, Ip, Platform, Policy, blocked_address, extract_host, hostname_in_allowlist,
  ip_allowed_by_allowlist, ip_is_blocked, ip_to_pin, is_development, is_production,
  not_allowlisted_address, not_in_allowlist, null, pin_or, prefer_ipv4, resolve_and_validate,
  resolve_host_ips, unresolvable, unwrap_ipv4_mapped, validate_host, validate_literal,
}
use inferna_next.Upstream.Blocked.{ip_is_blocked_iff}
use inferna_next.Upstream.Addresses.{
  IsAddressOf, IsNamed, IsPermitted, IsSafe, all-In, any-In_false, entry_allows-IsListed,
  names_host-IsNamed, not_both, null-cons, null-nil, prefer_ipv4-In, resolved_iff, unwrap_twice,
}

module _ (platform : Platform) where
  -- The pin of the first IPv4 address, or of the first one.
  pin_of :
      (ips : List Ip) (other : Result GuardError Text) (pinned : Text)
      → pin_or platform ips other ≡ ok pinned
      → ((ip : Ip) × In ip ips × (pinned ≡ ip_to_pin platform ip))
        ⊎ ((ips ≡ []) × (other ≡ ok pinned))
  pin_of [] other pinned h = inr (refl, h)
  pin_of (ip ∷ ips) other pinned h = inl (
    prefer_ipv4 ip (ip ∷ ips),
    prefer_ipv4-In ip (ip ∷ ips) (ip ∷ ips) (inl refl) (λ j m. m),
    sym (ok-injective h),
  )

  module _ (policy : Policy) (host pinned : Text) where
    -- A text of `pin_or` is safe if what is known of the host makes each of its addresses so.
    pin-IsSafe :
        (other : Result GuardError Text)
        → platform.parse_ip host ≡ none
        → IsNamed platform policy host
          ⊎ ((j : Ip)
              → IsAddressOf platform host j
              → IsPermitted platform policy (unwrap_ipv4_mapped j))
        → (other ≡ ok pinned → (pinned ≡ host) × (is_production policy ≡ false))
        → pin_or platform (resolve_host_ips platform host) other ≡ ok pinned
        → IsSafe platform policy host pinned
    pin-IsSafe other name trust rest h =
        elim (pin_of (resolve_host_ips platform host) other pinned h) [
          | inl (ip, m, e) ↦ inl (ip, (resolved_iff platform host ip name).0 m, e, trust)
          | inr (none_left, o) ↦ let r = rest o in inr (r.0, none_left, r.1)
        ]

    literal-IsSafe :
        (literal : Ip)
        → platform.parse_ip host ≡ some literal
        → IsPermitted platform policy (unwrap_ipv4_mapped literal)
        → ip_to_pin platform (unwrap_ipv4_mapped literal) ≡ pinned
        → IsSafe platform policy host pinned
    literal-IsSafe literal e permitted h = inl (
      unwrap_ipv4_mapped literal,
      inl (literal, e, refl),
      sym h,
      inr (λ j a. elim a [
        | inl (l, f, g) ↦
            let same : l ≡ literal = ap (λ o. elim o [ none ↦ l | some x ↦ x ]) (sym f ∙ e) in
            let once =
              ap unwrap_ipv4_mapped (g ∙ ap unwrap_ipv4_mapped same) ∙ unwrap_twice literal in
            subst (IsPermitted platform policy) (sym once) permitted
        | inr (addresses, t, f, g, m, k) ↦ let clash = sym f ∙ e in cc
      ]),
    )

    empty-IsPermitted :
        (ip : Ip)
        → policy.allowlist ≡ []
        → (is_development policy ≡ true) ⊎ (ip_is_blocked ip ≡ false)
        → IsPermitted platform policy ip
    empty-IsPermitted ip e reason = (
      (λ full. absurd (full e)),
      (λ empty settled reserved. elim reason [
        | inl dev ↦ let clash = sym dev ∙ settled in cc
        | inr free ↦ let clash = sym free ∙ (ip_is_blocked_iff ip).1 reserved in cc
      ]),
    )

    listed-IsPermitted :
        (ip : Ip)
        → policy.allowlist ≢ []
        → ip_allowed_by_allowlist platform ip policy.allowlist ≡ true
        → IsPermitted platform policy ip
    listed-IsPermitted ip full h =
        ((λ same. entry_allows-IsListed platform policy ip h), (λ empty. absurd (full empty)))

    validate_literal-IsSafe :
        (literal : Ip)
        → platform.parse_ip host ≡ some literal
        → validate_literal platform policy (unwrap_ipv4_mapped literal) ≡ ok pinned
        → IsSafe platform policy host pinned
    unfolding validate_literal
    validate_literal-IsSafe literal e h =
        let ip = unwrap_ipv4_mapped literal in
        elim (Bool-cases (null policy.allowlist)) [
          | inr full ↦ elim (Bool-cases (ip_allowed_by_allowlist platform ip policy.allowlist)) [
            | inl yes_listed ↦
                literal-IsSafe literal e
                  (listed-IsPermitted ip (null-cons policy.allowlist full) yes_listed)
                  (ok-injective (rw (validate_literal, full, yes_listed) at h))
            | inr unlisted ↦ let refused = rw (validate_literal, full, unlisted) at h in cc
          ]
          | inl empty ↦ elim (Bool-cases (is_development policy)) [
            | inl dev ↦
                literal-IsSafe literal e
                  (empty-IsPermitted ip (null-nil policy.allowlist empty) (inl dev))
                  (ok-injective (rw (validate_literal, empty, dev) at h))
            | inr settled ↦ elim (Bool-cases (ip_is_blocked ip)) [
              | inl blocked ↦
                  let refused = rw (validate_literal, empty, settled, blocked) at h in cc
              | inr free ↦
                  literal-IsSafe literal e
                    (empty-IsPermitted ip (null-nil policy.allowlist empty) (inr free))
                    (ok-injective (rw (validate_literal, empty, settled, free) at h))
            ]
          ]
        ]

    validate_host-IsSafe :
        platform.parse_ip host ≡ none
        → validate_host platform policy host ≡ ok pinned
        → IsSafe platform policy host pinned
    unfolding validate_host
    validate_host-IsSafe name h =
        let ips = resolve_host_ips platform host in
        elim (Bool-cases (null policy.allowlist)) [
          | inr full ↦ elim (Bool-cases (hostname_in_allowlist platform host policy.allowlist)) [
            | inl named ↦
                pin-IsSafe _ name (inl (names_host-IsNamed platform policy host named)) named_rest
                  (rw (validate_host, full, named) at h)
            | inr unnamed ↦ elim (Bool-cases (null ips)) [
              | inl gone ↦ let refused = rw (validate_host, full, unnamed, gone) at h in cc
              | inr there ↦
                  listed (null-cons policy.allowlist full)
                    (rw (validate_host, full, unnamed, there) at h)
            ]
          ]
          | inl empty ↦ elim (Bool-cases (is_development policy)) [
            | inl dev ↦
                pin-IsSafe _ name
                  (inr (λ j a.
                    empty-IsPermitted (unwrap_ipv4_mapped j) (null-nil policy.allowlist empty)
                      (inl dev)))
                  (λ o. (sym (ok-injective o), not_both policy dev))
                  (rw (validate_host, empty, dev) at h)
            | inr settled ↦ elim (Bool-cases (null ips)) [
              | inl gone ↦ let refused = rw (validate_host, empty, settled, gone) at h in cc
              | inr there ↦
                  unblocked (null-nil policy.allowlist empty)
                    (rw (validate_host, empty, settled, there) at h)
            ]
          ]
        ]
      where
        named_rest :
            (if is_production policy then err unresolvable else ok host) ≡ ok pinned
            → (pinned ≡ host) × (is_production policy ≡ false)
        named_rest o = elim (Bool-cases (is_production policy)) [
          | inl e ↦ let refused = rw e at o in cc
          | inr e ↦ (sym (ok-injective (rw e at o)), e)
        ]

        listed :
            policy.allowlist ≢ []
            → (if not (
                  all
                    (λ ip.
                      ip_allowed_by_allowlist platform (unwrap_ipv4_mapped ip) policy.allowlist)
                    (resolve_host_ips platform host))
                then err not_allowlisted_address
                else pin_or platform (resolve_host_ips platform host) (err not_in_allowlist))
              ≡ ok pinned
            → IsSafe platform policy host pinned
        listed full k =
            let test : Ip → Bool =
              λ ip. ip_allowed_by_allowlist platform (unwrap_ipv4_mapped ip) policy.allowlist in
            elim (Bool-cases (all test (resolve_host_ips platform host))) [
              | inr some_out ↦ let refused = rw some_out at k in cc
              | inl each ↦
                  pin-IsSafe (err not_in_allowlist) name
                    (inr (λ j a. listed-IsPermitted (unwrap_ipv4_mapped j) full (
                      all-In test (resolve_host_ips platform host) each j
                        ((resolved_iff platform host j name).1 a))))
                    (λ o. cc) (rw each at k)
            ]

        unblocked :
            policy.allowlist ≡ []
            → (if any (λ ip. ip_is_blocked (unwrap_ipv4_mapped ip)) (resolve_host_ips platform host)
                then err blocked_address
                else pin_or platform (resolve_host_ips platform host) (err unresolvable))
              ≡ ok pinned
            → IsSafe platform policy host pinned
        unblocked empty k =
            let test : Ip → Bool = λ ip. ip_is_blocked (unwrap_ipv4_mapped ip) in
            elim (Bool-cases (any test (resolve_host_ips platform host))) [
              | inl some_in ↦ let refused = rw some_in at k in cc
              | inr clear ↦
                  pin-IsSafe (err unresolvable) name
                    (inr (λ j a. empty-IsPermitted (unwrap_ipv4_mapped j) empty (
                      inr (
                        any-In_false test (resolve_host_ips platform host) clear j
                          ((resolved_iff platform host j name).1 a)))))
                    (λ o. cc) (rw clear at k)
            ]

  -- A text that the guard returns pins an address of the host that stands in the target, and the
  -- host is on the allowlist by its name, or each of its addresses, taken out of a mapped one, is
  -- permitted: on the allowlist, or, with no allowlist and outside of development, in no reserved
  -- range. Or the text is the host itself, which does not resolve, outside of production.
  pub resolve_and_validate-IsSafe :
      (policy : Policy) (target pinned : Text)
      → resolve_and_validate platform policy target ≡ ok pinned
      → (host : Text) × (extract_host platform target ≡ ok host)
        × IsSafe platform policy host pinned
  unfolding resolve_and_validate
  resolve_and_validate-IsSafe policy target pinned h =
      elim (Result-cases (extract_host platform target)) [
        | inl (e, f) ↦ let refused = rw (resolve_and_validate, f) at h in cc
        | inr (host, f) ↦ elim (Option-cases (platform.parse_ip host)) [
          | inr (literal, e) ↦ (
            host,
            f,
            validate_literal-IsSafe policy host pinned literal e
                (rw (resolve_and_validate, f, e) at h),
          )
          | inl name ↦ (
            host,
            f,
            validate_host-IsSafe policy host pinned name (rw (resolve_and_validate, f, name) at h),
          )
        ]
      ]
