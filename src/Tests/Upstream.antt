-- ===== src/Tests/Upstream.antt =====
-- The guard on a platform that knows two addresses and two names.
use inferna_next.Base.{
  List, Option, [], ap, false, if◌then◌else◌, inl, inr, none, refl, some, subst, sym, true, ◌*◌,
  ◌+◌, ◌^◌, ◌∙◌, ◌∷◌, ◌≡◌,
}
use inferna_next.Base.Text.{Text, codes, text_eq}
use inferna_next.Base.Member.{In}
use inferna_next.Base.Results.{err, ok}
use inferna_next.Models.{Model}
use inferna_next.Upstream.{
  Ip, Platform, Policy, Split, after_scheme, blocked_address, extract_host, ip_eq, ip_is_blocked,
  quad, resolve_and_validate, unresolvable, unwrap_ipv4_mapped, v4, v6, validate_worker_address,
}
use inferna_next.Upstream.Blocked.{ip_is_blocked_iff}
use inferna_next.Upstream.Addresses.{IsAddressOf, IsPermitted, IsSafe}
use inferna_next.Upstream.Safety.{resolve_and_validate-IsSafe}
use inferna_next.Upstream.Accepts.{IsAccepted, resolve_and_validate-IsAccepted}
use inferna_next.Gateway.{reserve}
use inferna_next.Gateway.Slots.{active_of}
use inferna_next.Gateway.Target.{RequestUrl, before_scheme, resolve_target, upstream_not_allowed}
use inferna_next.Gateway.Target.Safety.{
  IsGuarded, resolve_target-IsGuarded, resolve_target-active, slots_of,
}
use inferna_next.Tests.Placement.{small_model}
use inferna_next.Tests.Gateway.{two_replicas, first_replica, closed, still}

abbrev public_ip : Ip
public_ip = v4 (quad 8 8 8 8)

abbrev private_ip : Ip
private_ip = v4 (quad 10 0 0 1)

pub known_ip : Text → Option Ip
unfolding text_eq
known_ip t =
    if text_eq t (codes "8.8.8.8")
    then some public_ip
    else if text_eq t (codes "10.0.0.1")
    then some private_ip
    else none

pub known_name : Text → Option (List Text)
unfolding text_eq
known_name t =
    if text_eq t (codes "public")
    then some (codes "8.8.8.8" ∷ [])
    else if text_eq t (codes "rebound")
    then some (codes "8.8.8.8" ∷ codes "10.0.0.1" ∷ [])
    else none

pub shown_ip : Ip → Text
shown_ip ip = if ip_eq ip private_ip then codes "10.0.0.1" else codes "8.8.8.8"

pub plain_split : Text → Option Split
unfolding before_scheme after_scheme
plain_split t = elim (after_scheme t) [
  | none ↦ none
  | some rest ↦ some (record {
    scheme = before_scheme t;
    hostname = rest;
    username = [];
    password = [];
    path = [];
    query = [];
    fragment = [];
    port = some none;
  })
]

abbrev pub small_platform : Platform
small_platform = record {
  parse_ip = known_ip;
  parse_network = λ t. none;
  show_ip = shown_ip;
  urlsplit = plain_split;
  getaddrinfo = known_name;
}

abbrev pub production : Policy
production = record { environment = codes "production"; allowlist = [] }

abbrev listed : Policy
listed = record { environment = codes "production"; allowlist = codes "10.0.0.1" ∷ [] }

public_test :
    resolve_and_validate small_platform production (codes "http://public") ≡ ok (codes "8.8.8.8")
unfolding resolve_and_validate known_ip known_name shown_ip plain_split ip_eq
public_test = refl

rebound_test :
    resolve_and_validate small_platform production (codes "rebound") ≡ err blocked_address
unfolding resolve_and_validate known_ip known_name shown_ip plain_split ip_eq
rebound_test = refl

unresolvable_test :
    resolve_and_validate small_platform production (codes "http://gone") ≡ err unresolvable
unfolding resolve_and_validate known_ip known_name shown_ip plain_split ip_eq
unresolvable_test = refl

-- The metadata address of a cloud, also inside of an IPv6 address.
metadata_test : ip_is_blocked (v6 (0xffff * 2 ^ 32 + quad 169 254 169 254)) ≡ true
unfolding ip_is_blocked
metadata_test = refl

address_test :
    validate_worker_address small_platform production (codes " HTTPS://public ")
    ≡ ok (codes "https://public")
unfolding validate_worker_address known_ip known_name shown_ip plain_split ip_eq
address_test = refl

resolve_and_validate-IsSafe_example :
    (host : Text) × (extract_host small_platform (codes "http://public") ≡ ok host)
    × IsSafe small_platform production host (codes "8.8.8.8")
resolve_and_validate-IsSafe_example =
    resolve_and_validate-IsSafe small_platform production (codes "http://public") (codes "8.8.8.8")
      public_test

public_host : extract_host small_platform (codes "http://public") ≡ ok (codes "public")
unfolding extract_host known_ip plain_split
public_host = refl

public_address : IsAddressOf small_platform (codes "public") public_ip
unfolding known_ip known_name
public_address = inr (codes "8.8.8.8" ∷ [], codes "8.8.8.8", refl, refl, inl refl, refl)

free_IsPermitted : (ip : Ip) → ip_is_blocked ip ≡ false → IsPermitted small_platform production ip
free_IsPermitted ip free = (
  (λ full. absurd (full refl)),
  (λ empty settled taken_range. let clash = sym free ∙ (ip_is_blocked_iff ip).1 taken_range in cc),
)

public_addresses :
    (j : Ip)
    → IsAddressOf small_platform (codes "public") j
    → IsPermitted small_platform production (unwrap_ipv4_mapped j)
unfolding known_ip known_name unwrap_ipv4_mapped ip_is_blocked
public_addresses j (inl (literal, e, f)) = cc
public_addresses j (inr (addresses, t, e, f, m, g)) =
    let same : addresses ≡ codes "8.8.8.8" ∷ [] =
      ap (λ o. elim o [ none ↦ [] | some x ↦ x ]) (sym f) in
    elim (subst (In t) same m) [
      | inr none_left ↦ absurd none_left
      | inl here ↦
          let parsed : some public_ip ≡ some j = sym (ap known_ip here) ∙ g in
          let found : public_ip ≡ j = ap (λ o. elim o [ none ↦ public_ip | some x ↦ x ]) parsed in
          subst (λ ip. IsPermitted small_platform production (unwrap_ipv4_mapped ip)) found
            (free_IsPermitted public_ip refl)
    ]

resolve_and_validate-IsAccepted_example :
    IsAccepted small_platform
      (resolve_and_validate small_platform production (codes "http://public"))
resolve_and_validate-IsAccepted_example =
    resolve_and_validate-IsAccepted small_platform production (codes "http://public")
      (codes "public") public_ip public_host public_address public_addresses

abbrev chat : RequestUrl
chat = record { path = codes "/v1/chat/completions"; query = codes "a=1" }

abbrev models : List Model
models = small_model ∷ []

goes_to_first :
    (resolve_target small_platform listed still models two_replicas (codes "m") [] chat closed).0
    ≡ ok (codes "http://10.0.0.1:8010/v1/chat/completions?a=1", first_replica)
unfolding resolve_target reserve known_ip known_name shown_ip plain_split ip_eq
goes_to_first = refl

refused_slot :
    (resolve_target small_platform production still models two_replicas
      (codes "m")
      []
      chat
      closed).0
    ≡ err upstream_not_allowed
unfolding resolve_target reserve known_ip known_name shown_ip plain_split ip_eq
refused_slot = refl

resolve_target-IsGuarded_example :
    IsGuarded small_platform listed two_replicas first_replica chat
      (codes "http://10.0.0.1:8010/v1/chat/completions?a=1")
resolve_target-IsGuarded_example =
    resolve_target-IsGuarded small_platform listed still models two_replicas (codes "m") [] chat
      closed (codes "http://10.0.0.1:8010/v1/chat/completions?a=1") first_replica goes_to_first

resolve_target-active_example :
    active_of
      (resolve_target small_platform production still models two_replicas
        (codes "m")
        []
        chat
        closed).1
      1
    ≡ active_of closed 1
      + slots_of
          (resolve_target small_platform production still models two_replicas
            (codes "m")
            []
            chat
            closed).0
          1
resolve_target-active_example =
    resolve_target-active small_platform production still models two_replicas (codes "m") [] chat
      closed 1
