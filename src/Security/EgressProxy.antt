-- ===== src/Security/EgressProxy.antt =====
-- backend/app/security/egress_proxy.py: the plan of a request that leaves the platform, through a proxy
-- or a network of its own where the environment asks for one. The enumeration of the modes is closed, so
-- `invalid_proxy_mode` is not reached.
pub mod Routes
pub mod Plans
use aegis_flow.Base.{
  ℕ, String, Bool, true, false, not, ◌&&◌, ◌||◌, Option, none, some, List, [], ◌∷◌, ◌++◌, any,
  length, is_empty, eqb, if◌then◌else◌, Result, ok, err, raise_if, ◌>>=◌, ◌>>◌,
}
use aegis_flow.Base.Texts.{Text, codes, elem_text, text_eq, starts_with, lower}
use aegis_flow.Base.Decimals.{show}
use aegis_flow.Security.EgressPolicy.{
  Raised, EgressPolicy, ValidatedEgressTarget, SplitPort, no_port, bad_port, port_number, SplitUrl,
  Platform, normalize_allowed_hosts, default_port, is_given, or_else, or_value_error,
  validate_egress_url,
}

pub data EgressProxyMode : Type 0 where
  direct : EgressProxyMode
  http_proxy : EgressProxyMode
  docker_network : EgressProxyMode

pub record EgressProxyPolicy : Type 0 where
  pub mode : EgressProxyMode
  pub proxy_url : Text
  pub network : Text
  pub allowed_hosts : List Text
  pub allowed_ports : List ℕ
  pub dns_pinning_required : Bool

abbrev pub default_proxy_policy : EgressProxyPolicy
default_proxy_policy = record {
  mode = direct;
  proxy_url = [];
  network = [];
  allowed_hosts = [];
  allowed_ports = [];
  dns_pinning_required = false;
}

pub record AuditMetadata : Type 0 where
  pub egress_mode : EgressProxyMode
  pub target_host : Text
  pub target_port : ℕ
  pub proxy_host : Text
  pub proxy_port : ℕ
  pub network : Text
  pub dns_pinning_required : Bool
  pub resolved_ip_count : ℕ

pub record EgressProxyPlan : Type 0 where
  pub mode : EgressProxyMode
  pub target : ValidatedEgressTarget
  pub httpx_proxy_url : Text
  pub network : Text
  pub dns_pinning_required : Bool
  pub audit_metadata : AuditMetadata

-- The violations of the proxy policy by their reason codes, and the exceptions of the egress policy.
pub data ProxyRaised : Type 0 where
  egress : Raised → ProxyRaised
  port_not_allowlisted : ProxyRaised
  proxy_url_required : ProxyRaised
  proxy_scheme_not_allowed : ProxyRaised
  proxy_hostname_required : ProxyRaised
  proxy_credentials_not_allowed : ProxyRaised
  invalid_docker_network : ProxyRaised

-- A call of the egress policy, whose exceptions pass.
abbrev pub passing : {A : Type 0} → Result Raised A → Result ProxyRaised A
passing (ok a) = ok a
passing (err e) = err (egress e)

abbrev pub is_port_refused : ℕ → List ℕ → Bool
is_port_refused port allowed_ports =
    not (is_empty allowed_ports) && not (any (eqb port) allowed_ports)

-- `parts.port or default`, which raises a `ValueError` on a bad port.
abbrev pub proxy_port_of : SplitPort → ℕ → Result Raised ℕ
proxy_port_of no_port default = ok default
proxy_port_of bad_port default = err Raised.value_error
proxy_port_of (port_number n) default = ok (if eqb n 0 then default else n)

abbrev pub proxy_netloc : Text → Text → ℕ → Text
proxy_netloc scheme host port =
    scheme ++ codes "://" ++ lower host ++ codes ":" ++ codes (show port)

abbrev pub text_or_empty : Option Text → Text
text_or_empty none = []
text_or_empty (some s) = s

-- `_validate_proxy_url` after the URL is split.
unfoldable pub proxy_url_of : SplitUrl → Result ProxyRaised Text
proxy_url_of parts = do
  raise_if (not (elem_text (lower parts.scheme) (codes "http" ∷ codes "https" ∷ [])))
      proxy_scheme_not_allowed
  raise_if (not (is_given parts.hostname)) proxy_hostname_required
  raise_if (is_given parts.username || is_given parts.password) proxy_credentials_not_allowed
  port ← passing (proxy_port_of parts.port (default_port (lower parts.scheme)))
  ok (proxy_netloc (lower parts.scheme) (text_or_empty parts.hostname) port)

-- `_validate_proxy_url`
unfoldable pub validate_proxy_url : Platform → Text → Result ProxyRaised Text
validate_proxy_url p proxy_url = do
  raise_if (is_empty proxy_url) proxy_url_required
  parts ← passing (or_value_error (p.urlsplit proxy_url))
  proxy_url_of parts

-- `_validate_docker_network`
unfoldable pub validate_docker_network : Text → Result ProxyRaised Text
validate_docker_network network =
    if is_empty network || not (starts_with network (codes "aegis-egress-"))
    then err invalid_docker_network
    else ok network

-- `_proxy_metadata`
unfoldable pub proxy_metadata : Platform → Text → Result ProxyRaised (Text × ℕ)
proxy_metadata p [] = ok ([], 0)
proxy_metadata p (c ∷ s) = do
  parts ← passing (or_value_error (p.urlsplit (c ∷ s)))
  port ← passing (proxy_port_of parts.port (default_port parts.scheme))
  ok (text_or_empty parts.hostname, port)

-- The proxy URL and the network that a mode gives.
unfoldable pub select_route :
    Platform → EgressProxyPolicy → EgressProxyMode → Result ProxyRaised (Text × Text)
select_route p policy direct = ok ([], [])
select_route p policy http_proxy = do url ← validate_proxy_url p policy.proxy_url; ok (url, [])
select_route p policy docker_network = do
  network ← validate_docker_network policy.network
  ok ([], network)

abbrev pub planned :
    EgressProxyPolicy → ValidatedEgressTarget → Text × Text → Text × ℕ → EgressProxyPlan
planned policy target route proxy = record {
  mode = policy.mode;
  target = target;
  httpx_proxy_url = route.0;
  network = route.1;
  dns_pinning_required = policy.dns_pinning_required;
  audit_metadata = record {
    egress_mode = policy.mode;
    target_host = target.hostname;
    target_port = target.port;
    proxy_host = proxy.0;
    proxy_port = proxy.1;
    network = route.1;
    dns_pinning_required = policy.dns_pinning_required;
    resolved_ip_count = length target.resolved_addresses;
  };
}

unfoldable pub build_egress_proxy_plan :
    Platform
    → Text
    → Option EgressProxyPolicy
    → Option EgressPolicy
    → Result ProxyRaised EgressProxyPlan
build_egress_proxy_plan p target_url proxy_policy egress_policy =
    let resolved_policy = or_else proxy_policy default_proxy_policy in
    do
      hosts ← passing (normalize_allowed_hosts p resolved_policy.allowed_hosts)
      target ← passing (validate_egress_url p target_url egress_policy (some hosts) none)
      raise_if (is_port_refused target.port resolved_policy.allowed_ports) port_not_allowlisted
      route ← select_route p resolved_policy resolved_policy.mode
      proxy ← proxy_metadata p route.0
      ok (planned resolved_policy target route proxy)
