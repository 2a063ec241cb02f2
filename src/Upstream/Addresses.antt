-- ===== src/Upstream/Addresses.antt =====
-- The addresses of a host, and what permits one.
use inferna_next.Base.{
  ==_iff, Bool, Bool-cases, List, Option-cases, [], all, any, ap, arith, false, inl, inr, none,
  refl, some, subst, sym, true, ℕ, ◌/◌, ◌==◌, ◌^◌, ◌↔◌, ◌∙◌, ◌∷◌, ◌≡◌, ◌≢◌, ◌⊎◌,
}
use inferna_next.Base.Text.{Text, codes, text_eq, text_eq_iff}
use inferna_next.Base.Strings.{contains_char}
use inferna_next.Base.Member.{In}
use inferna_next.Upstream.{
  Ip, Network, Platform, Policy, entry_allows, host_norm, hostname_in_allowlist, in_network,
  ip_allowed_by_allowlist, ip_eq, ip_to_pin, is_development, is_literal, is_production, names_host,
  null, prefer_ipv4, resolve_host_ips, unique_ips, unwrap_ipv4_mapped, v4, v6,
}
use inferna_next.Upstream.Blocked.{IsReserved}

any-In :
    {A : Type 0} (p : A → Bool) (xs : List A) → any p xs ≡ true → (x : A) × In x xs × (p x ≡ true)
any-In p [] h = cc
any-In p (x ∷ xs) h = elim (Bool-cases (p x)) [
  | inl e ↦ (x, inl refl, e)
  | inr e ↦ let r = any-In p xs (rw e at h) in (r.0, inr r.1, r.2)
]

pub any-In_false :
    {A : Type 0} (p : A → Bool) (xs : List A) → any p xs ≡ false → (x : A) → In x xs → p x ≡ false
any-In_false p [] h x m = absurd m
any-In_false p (y ∷ xs) h x (inl e) = ap p e ∙ ground arith
any-In_false p (y ∷ xs) h x (inr m) = any-In_false p xs (ground arith) x m

pub all-In :
    {A : Type 0} (p : A → Bool) (xs : List A) → all p xs ≡ true → (x : A) → In x xs → p x ≡ true
all-In p [] h x m = absurd m
all-In p (y ∷ xs) h x (inl e) = ap p e ∙ ground arith
all-In p (y ∷ xs) h x (inr m) = all-In p xs (ground arith) x m

ip_eq_iff : (a b : Ip) → (ip_eq a b ≡ true) → a ≡ b
unfolding ip_eq
ip_eq_iff (v4 n) (v4 k) h = ap v4 ((==_iff n k).0 h)
ip_eq_iff (v6 n) (v6 k) h = ap v6 ((==_iff n k).0 h)
ip_eq_iff (v4 n) (v6 k) h = cc
ip_eq_iff (v6 n) (v4 k) h = cc

ip_eq_self : (a : Ip) → ip_eq a a ≡ true
unfolding ip_eq
ip_eq_self (v4 n) = (==_iff n n).1 refl
ip_eq_self (v6 n) = (==_iff n n).1 refl

In-any : {A : Type 0} (p : A → Bool) (xs : List A) (x : A) → In x xs → p x ≡ true → any p xs ≡ true
In-any p [] x m h = absurd m
In-any p (y ∷ xs) x (inl e) h = rw (← e, h) refl
In-any p (y ∷ xs) x (inr m) h = rw (In-any p xs x m h) (ground arith)

pub unwrap_twice : (ip : Ip) → unwrap_ipv4_mapped (unwrap_ipv4_mapped ip) ≡ unwrap_ipv4_mapped ip
unfolding unwrap_ipv4_mapped
unwrap_twice (v4 n) = refl
unwrap_twice (v6 n) = elim (Bool-cases (n / 2 ^ 32 == 0xffff)) [
  | inl e ↦ rw e refl
  | inr e ↦ rw (e, e) refl
]

pub prefer_ipv4-In :
    (first : Ip) (ips js : List Ip)
    → In first js
    → ((ip : Ip) → In ip ips → In ip js)
    → In (prefer_ipv4 first ips) js
unfolding prefer_ipv4
prefer_ipv4-In first [] js m h = m
prefer_ipv4-In first (v4 n ∷ ips) js m h = h (v4 n) (inl refl)
prefer_ipv4-In first (v6 n ∷ ips) js m h = prefer_ipv4-In first ips js m (λ ip k. h ip (inr k))

-- The settings of one environment are not those of the other.
pub not_both : (policy : Policy) → is_development policy ≡ true → is_production policy ≡ false
unfolding is_development is_production
not_both policy h = elim (Bool-cases (text_eq policy.environment (codes "production"))) [
  | inl e ↦
      let a = (text_eq_iff policy.environment (codes "development")).0 h in
      let b = (text_eq_iff policy.environment (codes "production")).0 e in
      absurd (differ_by b (sym b ∙ a))
  | inr e ↦ e
]
  where
    letters : (a : ℕ) → a ≡ 112 → a ≡ 100 → ⊥
    letters a e f = omega arith

    differ_by :
        policy.environment ≡ codes "production" → codes "production" ≡ codes "development" → ⊥
    differ_by b e = letters 112 refl (ap (λ (t : Text). elim t [ [] ↦ 0 | c ∷ r ↦ c ]) e)

pub null-nil : {A : Type 0} (xs : List A) → null xs ≡ true → xs ≡ []
null-nil [] h = refl
null-nil (x ∷ xs) h = cc

pub null-cons : {A : Type 0} (xs : List A) → null xs ≡ false → xs ≢ []
null-cons [] h e = cc
null-cons (x ∷ xs) h e = cc

module _ (platform : Platform) where
  -- An address of the host: the host itself, if it is one, or one that it resolves to.
  abbrev pub IsAddressOf : Text → Ip → Type 0
  IsAddressOf host ip =
      ((literal : Ip) × (platform.parse_ip host ≡ some literal) × (ip ≡ unwrap_ipv4_mapped literal))
      ⊎ ((addresses : List Text) × (t : Text) × (platform.parse_ip host ≡ none)
          × (platform.getaddrinfo host ≡ some addresses)
          × In t addresses
          × (platform.parse_ip t ≡ some ip))

  -- An entry of the allowlist is the name of the host.
  abbrev pub IsNamed : Policy → Text → Type 0
  IsNamed policy host =
      (entry : Text) × In entry policy.allowlist
      × (contains_char b'/' entry ≡ false)
      × (platform.parse_ip entry ≡ none)
      × (host_norm host ≡ host_norm entry)

  -- An entry of the allowlist is the address, or a network that has it.
  abbrev pub IsListed : Policy → Ip → Type 0
  IsListed policy ip =
      (entry : Text) × In entry policy.allowlist
      × (((contains_char b'/' entry ≡ false) × (platform.parse_ip entry ≡ some ip))
          ⊎ ((net : Network) × (contains_char b'/' entry ≡ true)
              × (platform.parse_network entry ≡ some net)
              × (in_network ip net ≡ true)))

  -- With an allowlist the address is on it; without one it is not reserved, outside of development.
  abbrev pub IsPermitted : Policy → Ip → Type 0
  IsPermitted policy ip =
      (policy.allowlist ≢ [] → IsListed policy ip)
      × (policy.allowlist ≡ [] → is_development policy ≡ false → ¬ IsReserved ip)

  -- The text pins an address of the host, and the host is on the allowlist by its name or all its
  -- addresses are permitted; or it is the host, which does not resolve, outside of production.
  abbrev pub IsSafe : Policy → Text → Text → Type 0
  IsSafe policy host pinned =
      ((ip : Ip) × IsAddressOf host ip
        × (pinned ≡ ip_to_pin platform ip)
        × (IsNamed policy host
            ⊎ ((j : Ip) → IsAddressOf host j → IsPermitted policy (unwrap_ipv4_mapped j))))
      ⊎ ((pinned ≡ host) × (resolve_host_ips platform host ≡ []) × (is_production policy ≡ false))

  pub entry_allows-IsListed :
      (policy : Policy) (ip : Ip)
      → ip_allowed_by_allowlist platform ip policy.allowlist ≡ true
      → IsListed policy ip
  unfolding entry_allows
  entry_allows-IsListed policy ip h =
      let found = any-In (entry_allows platform ip) policy.allowlist h in
      (found.0, found.1, allowed found.0 found.2)
    where
      allowed :
          (entry : Text)
          → entry_allows platform ip entry ≡ true
          → ((contains_char b'/' entry ≡ false) × (platform.parse_ip entry ≡ some ip))
            ⊎ ((net : Network) × (contains_char b'/' entry ≡ true)
                × (platform.parse_network entry ≡ some net)
                × (in_network ip net ≡ true))
      allowed entry k = elim (Bool-cases (contains_char b'/' entry)) [
        | inl e ↦ elim (Option-cases (platform.parse_network entry)) [
          | inl f ↦ let no_net = rw (e, f) at k in cc
          | inr (net, f) ↦ inr (net, e, f, rw (e, f) at k)
        ]
        | inr e ↦ elim (Option-cases (platform.parse_ip entry)) [
          | inl f ↦ let no_ip = rw (e, f) at k in cc
          | inr (literal, f) ↦ inl (e, f ∙ ap some (sym (ip_eq_iff ip literal (rw (e, f) at k))))
        ]
      ]

  pub IsListed-entry_allows :
      (policy : Policy) (ip : Ip)
      → IsListed policy ip
      → ip_allowed_by_allowlist platform ip policy.allowlist ≡ true
  unfolding entry_allows
  IsListed-entry_allows policy ip (entry, m, inl (e, f)) =
      In-any (entry_allows platform ip) policy.allowlist entry m
        (rw (entry_allows, e, f) (ip_eq_self ip))
  IsListed-entry_allows policy ip (entry, m, inr (net, e, f, g)) =
      In-any (entry_allows platform ip) policy.allowlist entry m (rw (entry_allows, e, f) g)

  pub names_host-IsNamed :
      (policy : Policy) (host : Text)
      → hostname_in_allowlist platform host policy.allowlist ≡ true
      → IsNamed policy host
  unfolding names_host
  names_host-IsNamed policy host h =
      let found = any-In (names_host platform host) policy.allowlist h in
      (
        found.0,
        found.1,
        (named found.0 found.2).0,
        (named found.0 found.2).1,
        (named found.0 found.2).2,
      )
    where
      named :
          (entry : Text)
          → names_host platform host entry ≡ true
          → (contains_char b'/' entry ≡ false)
            × (platform.parse_ip entry ≡ none)
            × (host_norm host ≡ host_norm entry)
      named entry k = elim (Bool-cases (contains_char b'/' entry)) [
        | inl e ↦ let slash = rw (names_host, e) at k in cc
        | inr e ↦ elim (Option-cases (platform.parse_ip entry)) [
          | inl f ↦ (
            e,
            f,
            (text_eq_iff (host_norm host) (host_norm entry)).0
                (rw (names_host, is_literal, e, f) at k),
          )
          | inr (ip, f) ↦ let literal = rw (names_host, is_literal, e, f) at k in cc
        ]
      ]

  -- The addresses of `resolve_host_ips` are those that the host resolves to.
  In-unique_ips :
      (ip : Ip) (seen : List Ip) (ts : List Text)
      → In ip (unique_ips platform seen ts)
      → (t : Text) × In t ts × (platform.parse_ip t ≡ some ip)
  unfolding unique_ips
  In-unique_ips ip seen [] m = absurd m
  In-unique_ips ip seen (t ∷ ts) m = elim (Option-cases (platform.parse_ip t)) [
    | inl e ↦ let r = In-unique_ips ip seen ts (rw (unique_ips, e) at m) in (r.0, inr r.1, r.2)
    | inr (j, e) ↦ elim (Bool-cases (any (ip_eq j) seen)) [
      | inl f ↦ let r = In-unique_ips ip seen ts (rw (unique_ips, e, f) at m) in (r.0, inr r.1, r.2)
      | inr f ↦ elim (rw (unique_ips, e, f) at m) [
        | inl same ↦ (t, inl refl, e ∙ ap some (sym same))
        | inr later ↦ let r = In-unique_ips ip (j ∷ seen) ts later in (r.0, inr r.1, r.2)
      ]
    ]
  ]

  unique_ips-In :
      (ip : Ip) (t : Text) (seen : List Ip) (ts : List Text)
      → In t ts
      → platform.parse_ip t ≡ some ip
      → In ip seen ⊎ In ip (unique_ips platform seen ts)
  unfolding unique_ips
  unique_ips-In ip t seen [] m e = absurd m
  unique_ips-In ip t seen (u ∷ ts) (inl same) e =
      let here : platform.parse_ip u ≡ some ip = ap platform.parse_ip (sym same) ∙ e in
      elim (Bool-cases (any (ip_eq ip) seen)) [
        | inl f ↦
            let old = any-In (ip_eq ip) seen f in
            inl (subst (λ j. In j seen) (sym (ip_eq_iff ip old.0 old.2)) old.1)
        | inr f ↦ rw (unique_ips, here, f) (inr (inl refl))
      ]
  unique_ips-In ip t seen (u ∷ ts) (inr m) e = elim (Option-cases (platform.parse_ip u)) [
    | inl f ↦ rw (unique_ips, f) (unique_ips-In ip t seen ts m e)
    | inr (j, f) ↦ elim (Bool-cases (any (ip_eq j) seen)) [
      | inl g ↦ rw (unique_ips, f, g) (unique_ips-In ip t seen ts m e)
      | inr g ↦ rw (unique_ips, f, g) (swap j (unique_ips-In ip t (j ∷ seen) ts m e))
    ]
  ]
    where
      swap :
          (j : Ip)
          → In ip (j ∷ seen) ⊎ In ip (unique_ips platform (j ∷ seen) ts)
          → In ip seen ⊎ In ip (j ∷ unique_ips platform (j ∷ seen) ts)
      swap j (inl (inl same)) = inr (inl same)
      swap j (inl (inr old)) = inl old
      swap j (inr late) = inr (inr late)

  -- The addresses of a name.
  pub resolved_iff :
      (host : Text) (ip : Ip)
      → platform.parse_ip host ≡ none
      → In ip (resolve_host_ips platform host) ↔ IsAddressOf host ip
  unfolding resolve_host_ips
  resolved_iff host ip name = elim (Option-cases (platform.getaddrinfo host)) [
    | inl e ↦
        rw (resolve_host_ips, e)
          (
            (λ m. absurd m),
            (λ a. elim a [
              | inl (literal, f, g) ↦ let clash = sym name ∙ f in cc
              | inr (addresses, t, f, g, m, k) ↦ let clash = g in cc
            ]),
          )
    | inr (ts, e) ↦
        rw (resolve_host_ips, e)
          (
            (λ m. let r = In-unique_ips ip [] ts m in inr (ts, r.0, name, refl, r.1, r.2)),
            (λ a. elim a [
              | inl (literal, f, g) ↦ let clash = sym name ∙ f in cc
              | inr (addresses, t, f, g, m, k) ↦
                  let same : addresses ≡ ts = ap (λ o. elim o [ none ↦ ts | some x ↦ x ]) (sym g) in
                  elim (unique_ips-In ip t [] ts (subst (In t) same m) k) [
                    | inl old ↦ absurd old
                    | inr late ↦ late
                  ]
            ]),
          )
  ]
