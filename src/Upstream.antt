-- ===== src/Upstream.antt =====
-- The SSRF guard (server/inferna_server/services/upstream_guard.py). What the standard library parses
-- and resolves is a parameter: `parse_ip` is ipaddress.ip_address, `parse_network`
-- ipaddress.ip_network, `show_ip` str of an address, `urlsplit` the parts of a URL and `getaddrinfo` the
-- addresses of a host; nothing stands for the exception that the source catches.
pub mod Blocked
pub mod Addresses
pub mod Safety
pub mod Accepts
use inferna_next.Base.{
  Bool, List, Option, [], all, any, false, if◌then◌else◌, none, not, some, true, ℕ, ◌%◌, ◌&&◌, ◌*◌,
  ◌++◌, ◌+◌, ◌-◌, ◌/◌, ◌==◌, ◌^◌, ◌||◌, ◌∷◌,
}
use inferna_next.Base.Text.{Text, codes, text_eq}
use inferna_next.Base.Strings.{
  before, contains_char, drop_prefix, is_empty, isdigit, lower, rpartition, strip,
}
use inferna_next.Base.Results.{Result, err, ok, or_raise, raise_if, ◌>>=◌, ◌>>◌}

pub data Ip : Type 0 where
  v4 v6 : ℕ → Ip

-- A network address and the length of its prefix.
pub data Network : Type 0 where
  net4 net6 : ℕ → ℕ → Network

-- A text that the parser leaves out is empty, and `port` is nothing if reading the port raises.
pub record Split : Type 0 where
  pub scheme : Text
  pub hostname : Text
  pub username : Text
  pub password : Text
  pub path : Text
  pub query : Text
  pub fragment : Text
  pub port : Option (Option ℕ)

pub record Platform : Type 0 where
  pub parse_ip : Text → Option Ip
  pub parse_network : Text → Option Network
  pub show_ip : Ip → Text
  pub urlsplit : Text → Option Split
  pub getaddrinfo : Text → Option (List Text)

-- The settings that the guard reads.
pub record Policy : Type 0 where
  pub environment : Text
  pub allowlist : List Text

pub data GuardError : Type 0 where
  empty_target invalid_target missing_hostname : GuardError
  invalid_address unsupported_scheme no_hostname has_userinfo has_path has_query has_fragment :
      GuardError
  invalid_port has_port : GuardError
  not_in_allowlist blocked_address unresolvable not_allowlisted_address : GuardError

-- `ip in net`; an address of the other version is in no network.
unfoldable pub in_network : Ip → Network → Bool
in_network (v4 n) (net4 a prefix) = n / 2 ^ (32 - prefix) == a / 2 ^ (32 - prefix)
in_network (v6 n) (net6 a prefix) = n / 2 ^ (128 - prefix) == a / 2 ^ (128 - prefix)
in_network (v4 n) (net6 a prefix) = false
in_network (v6 n) (net4 a prefix) = false

-- The address of four bytes.
abbrev pub quad : ℕ → ℕ → ℕ → ℕ → ℕ
quad a b c d = ((a * 256 + b) * 256 + c) * 256 + d

-- `_BLOCKED_NETWORKS`
abbrev pub blocked_networks : List Network
blocked_networks =
    net4 (quad 127 0 0 0) 8
    ∷ net6 1 128
    ∷ net4 (quad 169 254 0 0) 16
    ∷ net6 (0xfe80 * 2 ^ 112) 10
    ∷ net4 (quad 10 0 0 0) 8
    ∷ net4 (quad 172 16 0 0) 12
    ∷ net4 (quad 192 168 0 0) 16
    ∷ net6 (0xfc00 * 2 ^ 112) 7
    ∷ net4 0 8
    ∷ net6 0 128
    ∷ net4 (quad 255 255 255 255) 32
    ∷ net4 (quad 224 0 0 0) 4
    ∷ net6 (0xff00 * 2 ^ 112) 8
    ∷ []

-- `_unwrap_ipv4_mapped`: an address of ::ffff:0:0/96 holds an IPv4 address.
unfoldable pub unwrap_ipv4_mapped : Ip → Ip
unwrap_ipv4_mapped (v4 n) = v4 n
unwrap_ipv4_mapped (v6 n) = if n / 2 ^ 32 == 0xffff then v4 (n % 2 ^ 32) else v6 n

-- `_ip_is_blocked`
unfoldable pub ip_is_blocked : Ip → Bool
unfolding in_network unwrap_ipv4_mapped
ip_is_blocked ip = any (in_network (unwrap_ipv4_mapped ip)) blocked_networks

unfoldable pub ip_eq : Ip → Ip → Bool
ip_eq (v4 n) (v4 k) = n == k
ip_eq (v6 n) (v6 k) = n == k
ip_eq (v4 n) (v6 k) = false
ip_eq (v6 n) (v4 k) = false

-- The text behind the first `://`.
unfoldable pub after_scheme : Text → Option Text
unfolding drop_prefix
after_scheme [] = none
after_scheme (c ∷ s) =
    let rest = after_scheme s in
    if c == b':'
    then (elim (drop_prefix (b'/' ∷ b'/' ∷ []) s) [ some t ↦ some t | none ↦ rest ])
    else rest

unfoldable pub count_char : ℕ → Text → ℕ
count_char c [] = 0
count_char c (d ∷ s) = (if d == c then 1 else 0) + count_char c s

-- `s.rstrip(".")`
unfoldable pub rstrip_dots : Text → Text
rstrip_dots [] = []
rstrip_dots (c ∷ s) =
    let rest = rstrip_dots s in if c == b'.' && is_empty rest then [] else c ∷ rest

-- `host.lower().rstrip(".")`
unfoldable pub host_norm : Text → Text
unfolding lower rstrip_dots
host_norm host = rstrip_dots (lower host)

unfoldable pub is_development : Policy → Bool
unfolding text_eq
is_development policy = text_eq policy.environment (codes "development")

unfoldable pub is_production : Policy → Bool
unfolding text_eq
is_production policy = text_eq policy.environment (codes "production")

-- `_prefer_ipv4`, for a list that is not empty
unfoldable pub prefer_ipv4 : Ip → List Ip → Ip
prefer_ipv4 first [] = first
prefer_ipv4 first (v4 n ∷ ips) = v4 n
prefer_ipv4 first (v6 n ∷ ips) = prefer_ipv4 first ips

-- `not xs`
abbrev pub null {ℓ} : {A : Type ℓ} → List A → Bool
null [] = true
null (x ∷ xs) = false

module _ (platform : Platform) where
  abbrev pub is_literal : Text → Bool
  is_literal t = elim (platform.parse_ip t) [ none ↦ false | some ip ↦ true ]

  -- `_ip_to_pin`
  unfoldable pub ip_to_pin : Ip → Text
  ip_to_pin (v4 n) = platform.show_ip (v4 n)
  ip_to_pin (v6 n) = (b'[' ∷ platform.show_ip (v6 n)) ++ b']' ∷ []

  -- The last part of `_extract_host`: a bare address, in brackets, alone or with a port.
  unfoldable pub bare_literal : Text → Result GuardError Text
  unfolding count_char rpartition isdigit
  bare_literal candidate =
      if is_literal candidate
      then ok candidate
      else let (host_part, port_part) = rpartition b':' candidate in
        if count_char b':' candidate == 1 && isdigit port_part
        then ok host_part
        else err missing_hostname

  unfoldable pub bracketed_literal : Text → Result GuardError Text
  unfolding bare_literal contains_char before
  bracketed_literal [] = bare_literal []
  bracketed_literal (c ∷ s) =
      if c == b'[' && contains_char b']' s && is_literal (before b']' s)
      then ok (before b']' s)
      else bare_literal (c ∷ s)

  -- `_extract_host`
  unfoldable pub extract_host : Text → Result GuardError Text
  unfolding bracketed_literal after_scheme strip before
  extract_host target =
      let raw = strip target in
      let schemed : Text = elim (after_scheme raw) [
        | none ↦ codes "http://" ++ raw
        | some rest ↦ raw
      ] in
      let candidate : Text = elim (after_scheme raw) [
        | none ↦ raw
        | some rest ↦ before b'#' (before b'?' (before b'/' rest))
      ] in
      if is_empty raw then err empty_target else elim (platform.urlsplit schemed) [
        | none ↦ err invalid_target
        | some parsed ↦
            if not (is_empty parsed.hostname)
            then ok parsed.hostname
            else bracketed_literal (strip candidate)
      ]

  -- `resolve_host_ips`: the addresses that parse, each once. `none` is socket.gaierror, the exception
  -- that the source catches; that getaddrinfo raises no other is part of the parameter.
  unfoldable pub unique_ips : List Ip → List Text → List Ip
  unfolding ip_eq
  unique_ips seen [] = []
  unique_ips seen (t ∷ ts) = elim (platform.parse_ip t) [
    | none ↦ unique_ips seen ts
    | some ip ↦ if any (ip_eq ip) seen then unique_ips seen ts else ip ∷ unique_ips (ip ∷ seen) ts
  ]

  unfoldable pub resolve_host_ips : Text → List Ip
  unfolding unique_ips
  resolve_host_ips host = elim (platform.getaddrinfo host) [
    | none ↦ []
    | some addresses ↦ unique_ips [] addresses
  ]

  -- One entry of the allowlist: a network if it has a slash, else an address.
  unfoldable pub entry_allows : Ip → Text → Bool
  unfolding contains_char in_network ip_eq
  entry_allows ip entry =
      if contains_char b'/' entry
      then (elim (platform.parse_network entry) [ none ↦ false | some net ↦ in_network ip net ])
      else elim (platform.parse_ip entry) [ none ↦ false | some literal ↦ ip_eq ip literal ]

  -- `_ip_allowed_by_allowlist`
  abbrev pub ip_allowed_by_allowlist : Ip → List Text → Bool
  ip_allowed_by_allowlist ip allowlist = any (entry_allows ip) allowlist

  -- An entry that is a name and equals the host.
  unfoldable pub names_host : Text → Text → Bool
  unfolding contains_char host_norm text_eq
  names_host host entry =
      not (contains_char b'/' entry)
      && not (is_literal entry)
      && text_eq (host_norm host) (host_norm entry)

  -- `hostname_in_allowlist`
  abbrev pub hostname_in_allowlist : Text → List Text → Bool
  hostname_in_allowlist host allowlist = any (names_host host) allowlist

  -- The literal addresses of `resolve_and_validate`.
  unfoldable pub validate_literal : Policy → Ip → Result GuardError Text
  unfolding ip_to_pin ip_is_blocked is_development entry_allows
  validate_literal policy ip =
      if not (null policy.allowlist)
      then (if ip_allowed_by_allowlist ip policy.allowlist
          then ok (ip_to_pin ip)
          else err not_in_allowlist)
      else if is_development policy
      then ok (ip_to_pin ip)
      else if ip_is_blocked ip
      then err blocked_address
      else ok (ip_to_pin ip)

  -- The pin of the addresses of a host, or what stands for it if there is none.
  abbrev pub pin_or : List Ip → Result GuardError Text → Result GuardError Text
  pin_or [] other = other
  pin_or (ip ∷ ips) other = ok (ip_to_pin (prefer_ipv4 ip (ip ∷ ips)))

  unfoldable pub validate_host : Policy → Text → Result GuardError Text
  unfolding ip_to_pin prefer_ipv4 ip_is_blocked is_development is_production entry_allows names_host
      resolve_host_ips unwrap_ipv4_mapped
  validate_host policy host =
      let ips = resolve_host_ips host in
      if not (null policy.allowlist)
      then (if hostname_in_allowlist host policy.allowlist
          then pin_or ips (if is_production policy then err unresolvable else ok host)
          else if null ips
          then err not_in_allowlist
          else if not
              (all (λ ip. ip_allowed_by_allowlist (unwrap_ipv4_mapped ip) policy.allowlist) ips)
          then err not_allowlisted_address
          else pin_or ips (err not_in_allowlist))
      else if is_development policy
      then pin_or ips (ok host)
      else if null ips
      then err unresolvable
      else if any (λ ip. ip_is_blocked (unwrap_ipv4_mapped ip)) ips
      then err blocked_address
      else pin_or ips (err unresolvable)

  -- `resolve_and_validate`
  unfoldable pub resolve_and_validate : Policy → Text → Result GuardError Text
  unfolding extract_host validate_literal validate_host unwrap_ipv4_mapped
  resolve_and_validate policy target = do
    host ← extract_host target
    elim (platform.parse_ip host) [
      | some literal_ip ↦ validate_literal policy (unwrap_ipv4_mapped literal_ip)
      | none ↦ validate_host policy host
    ]

  -- `normalize_worker_address`
  unfoldable pub normalize_worker_address : Text → Result GuardError Text
  unfolding after_scheme strip lower text_eq
  normalize_worker_address raw =
      let s = strip raw in
      if is_empty s then ok [] else do
        parsed ←
            or_raise
              (platform.urlsplit
                (elim (after_scheme s) [ none ↦ codes "http://" ++ s | some rest ↦ s ]))
              invalid_address
        let scheme = lower parsed.scheme
        raise_if (not (text_eq scheme (codes "http") || text_eq scheme (codes "https")))
            unsupported_scheme
        raise_if (is_empty parsed.hostname) no_hostname
        raise_if (not (is_empty parsed.username) || not (is_empty parsed.password)) has_userinfo
        raise_if (not (is_empty parsed.path || text_eq parsed.path (codes "/"))) has_path
        raise_if (not (is_empty parsed.query)) has_query
        raise_if (not (is_empty parsed.fragment)) has_fragment
        port ← or_raise parsed.port invalid_port
        raise_if (elim port [ none ↦ false | some n ↦ true ]) has_port
        ok (scheme ++ codes "://" ++ parsed.hostname)

  -- `validate_worker_address`
  unfoldable pub validate_worker_address : Policy → Text → Result GuardError Text
  unfolding normalize_worker_address resolve_and_validate
  validate_worker_address policy raw = do
    normalized ← normalize_worker_address raw
    if is_empty normalized
        then ok normalized
        else (resolve_and_validate policy normalized >>= (λ pinned. ok normalized))
