-- ===== src/Security/EgressPolicy.antt =====
-- backend/app/security/egress_policy.py: the check of a URL that the platform is about to call. What
-- `urllib`, `idna`, `ipaddress` and the resolver of the system answer is an argument.
pub mod Hosts
pub mod Targets
pub mod Passes
use aegis_flow.Base.{
  ℕ, String, Bool, true, false, not, ◌&&◌, ◌||◌, Option, none, some, List, [], ◌∷◌, ◌++◌, any, take,
  is_empty, is_some, ltb, leb, eqb, if◌then◌else◌, Result, ok, err, raise_if, ◌>>=◌, ◌>>◌, ◌+◌,
}
use aegis_flow.Base.Texts.{
  Text, codes, text_eq, elem_text, starts_with, ends_with, contains, lower, strip, rstrip_dots,
}
use aegis_flow.Base.Decimals.{show}

-- An address of `ipaddress`: its number, and the scope of a version 6 address.
pub data IpAddress : Type 0 where
  v4 : ℕ → IpAddress
  v6 : ℕ → Text → IpAddress

-- The exceptions: a violation with its reason code, host and scheme (the message goes with the reason
-- code), or a `ValueError` of the library, which is not caught.
pub data Reason : Type 0 where
  scheme_not_allowed : Reason
  plain_http_not_allowed : Reason
  url_credentials_not_allowed : Reason
  missing_hostname : Reason
  invalid_port : Reason
  host_not_allowlisted : Reason
  dns_resolution_failed : Reason
  unsafe_ip_address : Reason
  invalid_allowlist_host : Reason

pub data Raised : Type 0 where
  violation : Reason → Text → Text → Raised
  value_error : Raised

abbrev pub Resolver : Type 0
Resolver = Text → ℕ → Result Raised (List IpAddress)

pub record EgressPolicy : Type 0 where
  pub allow_plain_http : Bool
  pub allow_loopback : Bool
  pub allow_private_networks : Bool
  pub allow_link_local : Bool
  pub allow_reserved : Bool
  pub resolver : Option Resolver

abbrev pub default_policy : EgressPolicy
default_policy = record {
  allow_plain_http = false;
  allow_loopback = false;
  allow_private_networks = false;
  allow_link_local = false;
  allow_reserved = false;
  resolver = none;
}

pub record ValidatedEgressTarget : Type 0 where
  pub normalized_url : Text
  pub scheme : Text
  pub hostname : Text
  pub port : ℕ
  pub resolved_addresses : List IpAddress

-- `parts.port`, which may raise.
pub data SplitPort : Type 0 where
  no_port : SplitPort
  bad_port : SplitPort
  port_number : ℕ → SplitPort

pub record SplitUrl : Type 0 where
  pub scheme : Text
  pub username : Option Text
  pub password : Option Text
  pub hostname : Option Text
  pub port : SplitPort
  pub path : Text
  pub query : Text

-- What the libraries and the system answer. `none` is a `ValueError`, for `getaddrinfo` a `gaierror`;
-- of an entry of `getaddrinfo` it is the first part of `sockaddr`, or `none` where that is empty.
pub record Platform : Type 0 where
  pub urlsplit : Text → Option SplitUrl
  pub urlunsplit : Text → Text → Text → Text → Text
  pub encode_idna : Text → Option Text
  pub ip_address : Text → Option IpAddress
  pub getaddrinfo : Text → ℕ → Option (List (Option Text))
  pub is_unspecified : IpAddress → Bool
  pub is_multicast : IpAddress → Bool
  pub is_loopback : IpAddress → Bool
  pub is_link_local : IpAddress → Bool
  pub is_private : IpAddress → Bool
  pub is_reserved : IpAddress → Bool

abbrev pub same_address : IpAddress → IpAddress → Bool
same_address (v4 a) (v4 b) = eqb a b
same_address (v6 a s) (v6 b t) = eqb a b && text_eq s t
same_address _ _ = false

-- `_METADATA_ADDRESSES`: 169.254.169.254 and fd00:ec2::254
abbrev pub metadata_addresses : List IpAddress
metadata_addresses = v4 2852039166 ∷ v6 336294982257581694735330614659971547732 [] ∷ []

-- `isinstance(address, IPv4Address) and address in _SHARED_ADDRESS_SPACE`: 100.64.0.0/10
abbrev pub in_shared_space : IpAddress → Bool
in_shared_space (v4 a) = leb 1681915904 a && ltb a 1686110208
in_shared_space (v6 _ _) = false

-- `_is_unsafe_address`
unfoldable pub is_unsafe_address : Platform → IpAddress → EgressPolicy → Bool
is_unsafe_address p address policy =
    if any (same_address address) metadata_addresses
    then true
    else if p.is_unspecified address || p.is_multicast address
    then true
    else if p.is_loopback address && not policy.allow_loopback
    then true
    else if p.is_link_local address && not policy.allow_link_local
    then true
    else if p.is_loopback address || p.is_link_local address
    then false
    else if p.is_private address && not policy.allow_private_networks
    then true
    else if p.is_reserved address && not policy.allow_reserved
    then true
    else in_shared_space address

-- What a call of the library returned, or its `ValueError`.
abbrev pub or_value_error {ℓ} : {A : Type ℓ} → Option A → Result Raised A
or_value_error none = err value_error
or_value_error (some a) = ok a

-- `_normalize_hostname`
unfoldable pub normalize_hostname : Platform → Text → Result Raised Text
normalize_hostname p hostname =
    or_value_error (p.encode_idna (rstrip_dots (lower (strip hostname))))

abbrev pub drop_two : Text → Text
drop_two (_ ∷ _ ∷ s) = s
drop_two _ = []

abbrev pub is_wildcard : Text → Bool
is_wildcard host = starts_with host (codes "*.")

-- The host of an entry of the allowlist, after the wildcard.
abbrev pub without_wildcard : Text → Text
without_wildcard candidate = if is_wildcard candidate then drop_two candidate else candidate

abbrev pub is_malformed : Text → Bool
is_malformed host =
    contains host (codes "/")
    || (contains host (codes ":") || (contains host (codes "@") || contains host (codes "://")))

-- The body of the loop of `normalize_allowed_hosts` for an entry that is not blank.
unfoldable pub normalize_entry : Platform → Text → Result Raised Text
normalize_entry p candidate =
    let host = without_wildcard candidate in
    do
      raise_if (is_malformed host) (violation invalid_allowlist_host host [])
      normalized ← normalize_hostname p host
      raise_if (is_empty normalized || not (contains normalized (codes ".")))
          (violation invalid_allowlist_host host [])
      ok (if is_wildcard candidate then codes "*." ++ normalized else normalized)

-- The loop over the entries, with `normalized`, which is `seen` in order.
unfoldable pub normalize_from : Platform → List Text → List Text → Result Raised (List Text)
normalize_from p [] normalized = ok normalized
normalize_from p (value ∷ values) normalized =
    let candidate = rstrip_dots (lower (strip value)) in
    let skip = normalize_from p values normalized in
    let enter = normalize_entry p candidate >>= λ entry.
    normalize_from p values
      (if elem_text entry normalized then normalized else normalized ++ (entry ∷ [])) in
    if is_empty candidate then skip else enter

unfoldable pub normalize_allowed_hosts : Platform → List Text → Result Raised (List Text)
unfolding normalize_from
normalize_allowed_hosts p values = normalize_from p values []

abbrev pub entry_matches : Text → Text → Bool
entry_matches hostname allowed_host =
    if is_wildcard allowed_host
    then (let suffix = drop_two allowed_host in
        ends_with hostname (codes "." ++ suffix) && not (text_eq hostname suffix))
    else text_eq hostname allowed_host

-- `_host_matches_allowlist`
unfoldable pub host_matches_allowlist : Text → List Text → Bool
host_matches_allowlist hostname allowed_hosts = any (entry_matches hostname) allowed_hosts

-- The loop over the answers of the system, with `addresses`, which is `seen` in order.
unfoldable pub collect_addresses :
    Platform → List (Option Text) → List IpAddress → Result Raised (List IpAddress)
collect_addresses p [] addresses = ok addresses
collect_addresses p (none ∷ infos) addresses = collect_addresses p infos addresses
collect_addresses p (some host ∷ infos) addresses =
    or_value_error (p.ip_address host) >>= λ address.
    collect_addresses p infos
      (if any (same_address address) addresses then addresses else addresses ++ (address ∷ []))

unfoldable pub resolve_hostname_addresses : Platform → Resolver
unfolding collect_addresses
resolve_hostname_addresses p hostname port = elim (p.getaddrinfo hostname port) [
  | none ↦ err (violation dns_resolution_failed hostname [])
  | some infos ↦ collect_addresses p infos []
]

-- `_resolve_hostname`
unfoldable pub resolve_hostname : Platform → Text → ℕ → Resolver → Result Raised (List IpAddress)
resolve_hostname p hostname port resolver = elim (p.ip_address hostname) [
  | none ↦ resolver hostname port
  | some literal ↦ ok (literal ∷ [])
]

abbrev pub default_port : Text → ℕ
default_port scheme = if text_eq scheme (codes "https") then 443 else 80

-- `_normalized_netloc`
unfoldable pub normalized_netloc : Text → ℕ → Text → Text
normalized_netloc hostname port scheme =
    let host =
      if contains hostname (codes ":") && not (starts_with hostname (codes "["))
      then codes "[" ++ hostname ++ codes "]"
      else hostname in
    if eqb port (default_port scheme) then host else host ++ codes ":" ++ codes (show port)

-- A text that is there and not empty.
abbrev pub is_given : Option Text → Bool
is_given none = false
is_given (some s) = not (is_empty s)

abbrev pub required_hostname : Platform → Text → Option Text → Result Raised Text
required_hostname p scheme none = err (violation missing_hostname [] scheme)
required_hostname p scheme (some raw_hostname) = normalize_hostname p raw_hostname

-- `parts.port or (443 if scheme == "https" else 80)`: port 0 counts as none.
abbrev pub select_port : Text → Text → SplitPort → Result Raised ℕ
select_port hostname scheme no_port = ok (default_port scheme)
select_port hostname scheme bad_port = err (violation invalid_port hostname scheme)
select_port hostname scheme (port_number n) = ok (if eqb n 0 then default_port scheme else n)

abbrev pub or_else {ℓ} : {A : Type ℓ} → Option A → A → A
or_else none a = a
or_else (some b) _ = b

-- `resolver or resolved_policy.resolver or resolve_hostname_addresses`
abbrev pub select_resolver : Platform → EgressPolicy → Option Resolver → Resolver
select_resolver p policy resolver =
    or_else resolver (or_else policy.resolver (resolve_hostname_addresses p))

abbrev pub validated :
    Platform → SplitUrl → Text → Text → ℕ → List IpAddress → ValidatedEgressTarget
validated p parts scheme hostname port addresses = record {
  normalized_url =
      p.urlunsplit scheme (normalized_netloc hostname port scheme) parts.path parts.query;
  scheme = scheme;
  hostname = hostname;
  port = port;
  resolved_addresses = addresses;
}

-- The end of `validate_egress_url`, where the host and the port are accepted.
unfoldable pub validate_addresses :
    Platform
    → EgressPolicy
    → Resolver
    → SplitUrl
    → Text
    → Text
    → ℕ
    → Result Raised ValidatedEgressTarget
validate_addresses p policy resolver parts scheme hostname port = do
  addresses ← resolve_hostname p hostname port resolver
  raise_if (is_empty addresses) (violation dns_resolution_failed hostname scheme)
  raise_if (any (λ a. is_unsafe_address p a policy) addresses)
      (violation unsafe_ip_address hostname scheme)
  ok (validated p parts scheme hostname port addresses)

-- The body of `validate_egress_url` after the URL is split.
unfoldable pub validate_parts :
    Platform → EgressPolicy → List Text → Resolver → SplitUrl → Result Raised ValidatedEgressTarget
validate_parts p policy allowed_hosts resolver parts =
    let scheme = lower parts.scheme in
    do
      raise_if (not (elem_text scheme (codes "http" ∷ codes "https" ∷ [])))
          (violation scheme_not_allowed [] scheme)
      raise_if (text_eq scheme (codes "http") && not policy.allow_plain_http)
          (violation plain_http_not_allowed [] scheme)
      raise_if (is_given parts.username || is_given parts.password)
          (violation url_credentials_not_allowed [] scheme)
      hostname ← required_hostname p scheme parts.hostname
      port ← select_port hostname scheme parts.port
      hosts ← normalize_allowed_hosts p allowed_hosts
      raise_if (not (is_empty hosts) && not (host_matches_allowlist hostname hosts))
          (violation host_not_allowlisted hostname scheme)
      validate_addresses p policy resolver parts scheme hostname port

unfoldable pub validate_egress_url :
    Platform
    → Text
    → Option EgressPolicy
    → Option (List Text)
    → Option Resolver
    → Result Raised ValidatedEgressTarget
unfolding validate_parts
validate_egress_url p url policy allowed_hosts resolver =
    let resolved_policy = or_else policy default_policy in
    or_value_error (p.urlsplit url)
    >>= validate_parts p resolved_policy (or_else allowed_hosts [])
        (select_resolver p resolved_policy resolver)
