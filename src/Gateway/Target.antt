-- ===== src/Gateway/Target.antt =====
-- The whole of `_resolve_target` of server/inferna_server/api/gateway.py: the model, the chosen instance
-- with its slot, the guard, and the URL of the upstream. A path that fails gives the slot back.
pub mod Safety
use inferna_next.Base.{
  List, Option, [], false, if◌then◌else◌, none, some, true, ℕ, ◌&&◌, ◌++◌, ◌==◌, ◌||◌, ◌∷◌,
}
use inferna_next.Base.Text.{Text, codes, text_eq}
use inferna_next.Base.Strings.{contains_char, drop_prefix, is_empty, lower, or_text, str_nat}
use inferna_next.Base.Results.{Result, err, ok, or_raise, ◌>>=◌}
use inferna_next.Models.{Db, Model, ModelInstance, Worker}
use inferna_next.Workers.Sync.{worker_by_id}
use inferna_next.Upstream.{
  Platform, Policy, after_scheme, extract_host, hostname_in_allowlist, is_development, is_literal,
  names_host, resolve_and_validate,
}
use inferna_next.Gateway.{Gateway, release, reserve}

-- `failed` stands for an exception that the gateway does not turn into an answer of its own.
pub data TargetError : Type 0 where
  unknown_model no_instance upstream_not_allowed no_trust_anchor failed : TargetError

-- The path and the query of the request.
pub record RequestUrl : Type 0 where
  pub path : Text
  pub query : Text

unfoldable pub model_by_name : Text → List Model → Option Model
unfolding text_eq
model_by_name name [] = none
model_by_name name (m ∷ ms) = if text_eq m.name name then some m else model_by_name name ms

-- The text before the first `://`.
unfoldable pub before_scheme : Text → Text
unfolding drop_prefix
before_scheme [] = []
before_scheme (c ∷ s) =
    let rest = before_scheme s in
    if c == b':' && (elim (drop_prefix (b'/' ∷ b'/' ∷ []) s) [ none ↦ false | some t ↦ true ])
    then []
    else c ∷ rest

-- `raw_host.split("://", 1)[0].lower() if "://" in raw_host else "http"`
unfoldable pub scheme_of : Text → Text
unfolding after_scheme before_scheme lower
scheme_of raw_host = elim (after_scheme raw_host) [
  | none ↦ codes "http"
  | some rest ↦ lower (before_scheme raw_host)
]

unfoldable pub port_text : Option ℕ → Text
unfolding str_nat
port_text none = codes "None"
port_text (some p) = str_nat p

-- `f"{scheme}://{validated}:{instance.port}{request.url.path}"`, and the query
unfoldable pub target_url : Text → Text → ModelInstance → RequestUrl → Text
unfolding port_text
target_url scheme authority i url =
    scheme
    ++ codes "://"
    ++ authority
    ++ codes ":"
    ++ port_text i.port
    ++ url.path
    ++ (if is_empty url.query then [] else b'?' ∷ url.query)

-- `worker.address or worker.hostname`
abbrev pub raw_host_of : Worker → Text
raw_host_of w = elim w.address [ none ↦ w.hostname | some a ↦ or_text a w.hostname ]

module _ (platform : Platform) (policy : Policy) where
  -- The host of an https URL that cannot be pinned, in brackets if it is an IPv6 address.
  unfoldable pub fallback_authority : Text → Text
  unfolding contains_char
  fallback_authority host =
      if is_literal platform host && contains_char b':' host
      then (b'[' ∷ host) ++ b']' ∷ []
      else host

  -- What the URL has in the place of the host.
  unfoldable pub authority_of : Text → Text → Result TargetError Text
  unfolding scheme_of extract_host fallback_authority names_host text_eq is_development
  authority_of raw_host validated =
      if text_eq (scheme_of raw_host) (codes "https")
      then (elim (extract_host platform raw_host) [
        | err e ↦ err failed
        | ok host ↦
            if text_eq validated host
            then ok validated
            else if is_development policy || hostname_in_allowlist platform host policy.allowlist
            then ok (fallback_authority host)
            else err no_trust_anchor
      ])
      else ok validated

  -- The part that runs outside of the lock.
  unfoldable pub upstream_target : Db → ModelInstance → RequestUrl → Result TargetError Text
  unfolding authority_of resolve_and_validate worker_by_id target_url
  upstream_target db i url = do
    id ← or_raise i.worker_id failed
    w ← or_raise (worker_by_id id db.workers) failed
    validated ← elim (resolve_and_validate platform policy (raw_host_of w)) [
      | err e ↦ err upstream_not_allowed
      | ok v ↦ ok v
    ]
    authority ← authority_of (raw_host_of w) validated
    ok (target_url (scheme_of (raw_host_of w)) authority i url)

  -- `except BaseException: await _release_instance(...); raise`
  unfoldable pub finish_target :
      Db
      → RequestUrl
      → Option ModelInstance × Gateway
      → Result TargetError (Text × ModelInstance) × Gateway
  unfolding upstream_target release
  finish_target db url (none, g) = (err no_instance, g)
  finish_target db url (some i, g) = elim (upstream_target db i url) [
    | err e ↦ (err e, release g i.id)
    | ok target ↦ (ok (target, i), g)
  ]

  -- `_resolve_target`
  unfoldable pub resolve_target :
      (ℕ → ℕ)
      → List Model
      → Db
      → Text
      → List Text
      → RequestUrl
      → Gateway
      → Result TargetError (Text × ModelInstance) × Gateway
  unfolding model_by_name reserve finish_target
  resolve_target clock models db model_name digests url g = elim (model_by_name model_name models) [
    | none ↦ (err unknown_model, g)
    | some m ↦ finish_target db url (reserve clock db m.id digests g)
  ]
