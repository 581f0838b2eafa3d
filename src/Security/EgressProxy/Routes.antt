-- ===== src/Security/EgressProxy/Routes.antt =====
-- The way out that a mode gives: the URL of a proxy, or a network of the platform.
use aegis_flow.Base.{
  ℕ, Bool, true, false, not, ◌||◌, Option, none, some, [], ◌∷◌, ◌++◌, is_empty, Result, ok, err,
  raise_if, ◌>>=◌, ◌>>◌, Bool-cases, >>=-eq-ok, ◌≡◌, refl, sym, ◌∙◌, ◌⊎◌, inl, inr, arith, subst,
}
use aegis_flow.Base.Texts.{Text, codes, elem_text, text_eq_iff, starts_with, starts_with_iff, lower}
use aegis_flow.Security.EgressPolicy.{
  Raised, SplitUrl, Platform, default_port, is_given, or_value_error,
}
use aegis_flow.Security.EgressProxy.{
  EgressProxyMode, direct, http_proxy, docker_network, EgressProxyPolicy, ProxyRaised,
  proxy_url_required, proxy_scheme_not_allowed, proxy_hostname_required,
  proxy_credentials_not_allowed, passing, proxy_port_of, proxy_netloc, text_or_empty, proxy_url_of,
  validate_proxy_url, validate_docker_network, select_route,
}

-- A URL of a proxy: its scheme is `http` or `https`, it has a host, and no user and no password.
pub record IsProxyUrl (p : Platform) (source url : Text) (parts : SplitUrl) : Type 0 where
  pub splits : p.urlsplit source ≡ some parts
  pub scheme : (lower parts.scheme ≡ codes "http") ⊎ (lower parts.scheme ≡ codes "https")
  pub hostname : is_given parts.hostname ≡ true
  pub no_username : is_given parts.username ≡ false
  pub no_password : is_given parts.password ≡ false
  pub built :
      (port : ℕ) × (proxy_port_of parts.port (default_port (lower parts.scheme)) ≡ ok port)
      × (url ≡ proxy_netloc (lower parts.scheme) (text_or_empty parts.hostname) port)

-- The way out that a mode asks for: neither a proxy nor a network, the proxy of the policy, or a network
-- of the platform.
unfoldable pub IsRoute : Platform → EgressProxyPolicy → EgressProxyMode → Text → Text → Type 0
IsRoute p policy direct url network = (url ≡ []) × (network ≡ [])
IsRoute p policy http_proxy url network =
    (network ≡ []) × ((parts : SplitUrl) × IsProxyUrl p policy.proxy_url url parts)
IsRoute p policy docker_network url network =
    (url ≡ [])
    × (network ≡ policy.network)
    × ((name : Text) × (network ≡ codes "aegis-egress-" ++ name))

pub passing_elim : {A : Type 0} (r : Result Raised A) {a : A} → passing r ≡ ok a → r ≡ ok a
passing_elim (ok x) h = ground arith
passing_elim (err e) h = cc

or_value_error_elim : {A : Type 0} (o : Option A) {a : A} → or_value_error o ≡ ok a → o ≡ some a
or_value_error_elim none h = cc
or_value_error_elim (some x) h = ground arith

web_scheme_elim :
    (scheme : Text)
    → not (elem_text scheme (codes "http" ∷ codes "https" ∷ [])) ≡ false
    → (scheme ≡ codes "http") ⊎ (scheme ≡ codes "https")
web_scheme_elim scheme h =
    ground (arith, text_eq_iff scheme (codes "http"), text_eq_iff scheme (codes "https"))

parts_elim :
    {A : Type 0} (a b c : Bool) (e f g : ProxyRaised) (port : Result ProxyRaised ℕ) (make : ℕ → A)
    {u : A}
    → (do raise_if a e; raise_if b f; raise_if c g; n ← port; ok (make n)) ≡ ok u
    → (n : ℕ) × (a ≡ false) × (b ≡ false) × (c ≡ false) × (port ≡ ok n) × (make n ≡ u)
parts_elim true b c e f g port make h = cc
parts_elim false true c e f g port make h = cc
parts_elim false false true e f g port make h = cc
parts_elim false false false e f g (err x) make h = cc
parts_elim false false false e f g (ok n) make h = (n, refl, refl, refl, refl, ground arith)

pub call_elim :
    {A : Type 0} {B : Type 0} (a : Bool) (e : ProxyRaised) (call : Result ProxyRaised A)
    (next : A → Result ProxyRaised B) {u : B}
    → (do raise_if a e; x ← call; next x) ≡ ok u
    → (x : A) × (call ≡ ok x) × (next x ≡ ok u)
call_elim true e call next h = cc
call_elim false e (err x) next h = cc
call_elim false e (ok x) next h = (x, refl, h)

proxy_url_of_lem :
    (p : Platform) (source url : Text) (parts : SplitUrl)
    → p.urlsplit source ≡ some parts
    → proxy_url_of parts ≡ ok url
    → IsProxyUrl p source url parts
unfolding proxy_url_of
proxy_url_of_lem p source url parts splits h =
    let scheme = lower parts.scheme in
    let (n, web, host, bare, port, made) =
      parts_elim (not (elem_text scheme (codes "http" ∷ codes "https" ∷ [])))
        (not (is_given parts.hostname)) (is_given parts.username || is_given parts.password)
        proxy_scheme_not_allowed proxy_hostname_required proxy_credentials_not_allowed
        (passing (proxy_port_of parts.port (default_port scheme)))
        (proxy_netloc scheme (text_or_empty parts.hostname)) h in
    record {
      splits = splits;
      scheme = web_scheme_elim scheme web;
      hostname = ground (arith, host);
      no_username = ground (arith, bare);
      no_password = ground (arith, bare);
      built = (n, passing_elim _ port, sym made);
    }

validate_proxy_url_lem :
    (p : Platform) (source url : Text)
    → validate_proxy_url p source ≡ ok url
    → (parts : SplitUrl) × IsProxyUrl p source url parts
unfolding validate_proxy_url
validate_proxy_url_lem p source url h =
    let (parts, split, rest) =
      call_elim (is_empty source) proxy_url_required (passing (or_value_error (p.urlsplit source)))
        proxy_url_of h in
    (parts, proxy_url_of_lem p source url parts (or_value_error_elim _ (passing_elim _ split)) rest)

docker_network_elim :
    (network result : Text)
    → validate_docker_network network ≡ ok result
    → (result ≡ network) × ((name : Text) × (result ≡ codes "aegis-egress-" ++ name))
unfolding validate_docker_network
docker_network_elim network result h =
    elim (Bool-cases (starts_with network (codes "aegis-egress-"))) [
      | inl s ↦
          let same : result ≡ network = ground (arith, h, s) in
          let (name, e) = (starts_with_iff network (codes "aegis-egress-")).0 s in
          (same, (name, same ∙ e))
      | inr s ↦ absurd (ground (arith, h, s))
    ]

pub select_route_lem :
    (p : Platform) (policy : EgressProxyPolicy) (mode : EgressProxyMode) (route : Text × Text)
    → select_route p policy mode ≡ ok route
    → IsRoute p policy mode route.0 route.1
unfolding select_route IsRoute
select_route_lem p policy direct route h = (ground arith, ground arith)
select_route_lem p policy http_proxy route h =
    let (url, e, q) =
      >>=-eq-ok {B = Text × Text} (validate_proxy_url p policy.proxy_url) (λ url. ok (url, [])) h in
    let same : url ≡ route.0 = ground arith in
    let (parts, s) = validate_proxy_url_lem p policy.proxy_url url e in
    (ground arith, (parts, subst (λ (x : Text). IsProxyUrl p policy.proxy_url x parts) same s))
select_route_lem p policy docker_network route h =
    let (network, e, q) =
      >>=-eq-ok {B = Text × Text} (validate_docker_network policy.network) (λ n. ok ([], n)) h in
    let same : route.1 ≡ network = ground arith in
    let (given, (name, made)) = docker_network_elim policy.network network e in
    (ground arith, same ∙ given, (name, same ∙ made))
