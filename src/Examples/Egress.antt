-- ===== src/Examples/Egress.antt =====
-- The theorems on requests that leave the platform at one host that resolves to one address.
use aegis_flow.Base.{
  true, false, none, some, List, [], ◌∷◌, ◌++◌, ◌≡◌, refl, ◌⊎◌, ◌≤◌, In, ok, err, arith,
  if◌then◌else◌,
}
use aegis_flow.Base.Texts.{
  Text, codes, text_eq, lower, strip, rstrip_dots, starts_with, ends_with, contains,
}
use aegis_flow.Base.Decimals.{show}
use aegis_flow.Security.EgressPolicy.{
  IpAddress, v4, violation, Reason, default_policy, ValidatedEgressTarget, port_number, SplitUrl,
  Platform, is_unsafe_address, normalize_hostname, normalize_entry, normalize_from,
  normalize_allowed_hosts, host_matches_allowlist, collect_addresses, resolve_hostname_addresses,
  resolve_hostname, normalized_netloc, select_resolver, validate_addresses, validate_parts,
  validate_egress_url,
}
use aegis_flow.Security.EgressPolicy.Targets.{PortsInRange, IsSafeTarget}
use aegis_flow.Security.EgressProxy.{
  EgressProxyMode, EgressProxyPolicy, EgressProxyPlan, planned, validate_docker_network,
  proxy_metadata, select_route, build_egress_proxy_plan,
}
use aegis_flow.Security.EgressProxy.Routes.{IsRoute}
use aegis_flow.Security.EgressProxy.Plans.{IsPlanned, build_egress_proxy_plan_lem}

abbrev url : Text
url = codes "https://api.example.com:8443/v1"

abbrev parts : SplitUrl
parts = record {
  scheme = codes "HTTPS";
  username = none;
  password = none;
  hostname = some (codes "api.example.com");
  port = port_number 8443;
  path = codes "/v1";
  query = [];
}

-- A platform that knows one URL, and one host at the address given.
abbrev platform : IpAddress → Platform
platform address = record {
  urlsplit = λ u. if text_eq u url then some parts else none;
  urlunsplit = λ scheme netloc path query. scheme ++ codes "://" ++ netloc ++ path;
  encode_idna = λ host. some host;
  ip_address = λ host. if text_eq host (codes "@") then some address else none;
  getaddrinfo = λ host port. some (some (codes "@") ∷ []);
  is_unspecified = λ a. false;
  is_multicast = λ a. false;
  is_loopback = λ a. false;
  is_link_local = λ a. false;
  is_private = λ a. false;
  is_reserved = λ a. false;
}

abbrev public : Platform
public = platform (v4 1572395042)

abbrev target : ValidatedEgressTarget
target = record {
  normalized_url = codes "https://api.example.com:8443/v1";
  scheme = codes "https";
  hostname = codes "api.example.com";
  port = 8443;
  resolved_addresses = v4 1572395042 ∷ [];
}

abbrev hosts : List Text
hosts = codes "*.Example.com." ∷ []

passes : validate_egress_url public url none (some hosts) none ≡ ok target
unfolding validate_egress_url validate_parts validate_addresses text_eq lower strip rstrip_dots
    starts_with ends_with contains normalize_hostname normalize_entry normalize_from
    normalize_allowed_hosts host_matches_allowlist collect_addresses resolve_hostname_addresses
    resolve_hostname normalized_netloc is_unsafe_address show
passes = refl

-- The service of the metadata of a cloud is refused, whatever the policy.
metadata_refused :
    validate_egress_url (platform (v4 2852039166)) url none (some hosts) none
    ≡ err (violation Reason.unsafe_ip_address (codes "api.example.com") (codes "https"))
unfolding validate_egress_url validate_parts validate_addresses text_eq lower strip rstrip_dots
    starts_with ends_with contains normalize_hostname normalize_entry normalize_from
    normalize_allowed_hosts host_matches_allowlist collect_addresses resolve_hostname_addresses
    resolve_hostname normalized_netloc is_unsafe_address show
metadata_refused = refl

abbrev isolated : EgressProxyPolicy
isolated = record {
  mode = EgressProxyMode.docker_network;
  proxy_url = [];
  network = codes "aegis-egress-tools";
  allowed_hosts = hosts;
  allowed_ports = 443 ∷ 8443 ∷ [];
  dns_pinning_required = true;
}

abbrev plan : EgressProxyPlan
plan = planned isolated target ([], codes "aegis-egress-tools") ([], 0)

public-PortsInRange : PortsInRange public
unfolding PortsInRange
public-PortsInRange u split n e q = ground arith

built : build_egress_proxy_plan public url (some isolated) none ≡ ok plan
unfolding build_egress_proxy_plan select_route proxy_metadata validate_docker_network
    validate_egress_url validate_parts validate_addresses text_eq lower strip rstrip_dots
    starts_with ends_with contains normalize_hostname normalize_entry normalize_from
    normalize_allowed_hosts host_matches_allowlist collect_addresses resolve_hostname_addresses
    resolve_hostname normalized_netloc is_unsafe_address show
built = refl

build_egress_proxy_plan_lem_example :
    (normalized : List Text) × (split : SplitUrl) × (normalize_allowed_hosts public hosts
      ≡ ok normalized)
    × (public.urlsplit url ≡ some split)
    × IsSafeTarget public default_policy normalized
        (select_resolver public default_policy none)
        split
        target
    × ((isolated.allowed_ports ≡ []) ⊎ In 8443 isolated.allowed_ports)
    × (1 ≤ 8443)
    × (8443 ≤ 65535)
    × IsRoute public isolated EgressProxyMode.docker_network [] (codes "aegis-egress-tools")
    × IsPlanned isolated plan
build_egress_proxy_plan_lem_example =
    build_egress_proxy_plan_lem public url (some isolated) none plan public-PortsInRange built
