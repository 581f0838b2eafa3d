-- ===== src/Security/EgressPolicy/Targets.antt =====
-- What a URL that passes the check is: its scheme, host, port and addresses.
use aegis_flow.Base.{
  ℕ, Bool, true, false, not, ◌&&◌, some, List, [], ◌∷◌, any, is_empty, Result, ok, err, raise_if,
  ◌>>=◌, ◌>>◌, >>=-eq-ok, ◌≡◌, ◌≢◌, refl, subst, ◌⊎◌, inl, inr, arith, In, All, ◌≤◌,
}
use aegis_flow.Base.Texts.{Text, codes, text_eq, text_eq_iff, elem_text, lower}
use aegis_flow.Security.EgressPolicy.{
  IpAddress, Raised, Resolver, EgressPolicy, ValidatedEgressTarget, SplitPort, no_port, bad_port,
  port_number, SplitUrl, Platform, is_unsafe_address, normalize_allowed_hosts,
  host_matches_allowlist, resolve_hostname, normalized_netloc, is_given, required_hostname,
  select_port, validate_addresses, validate_parts,
}
use aegis_flow.Security.EgressPolicy.Hosts.{
  Matches, host_matches_allowlist_iff, IsSafeAddress, is_unsafe_address_iff,
}

-- A number of a port that a URL gives is at most 65535, which `urllib` documents.
unfoldable pub PortsInRange : Platform → Type 0
PortsInRange p =
    (url : Text) (parts : SplitUrl) (n : ℕ)
    → p.urlsplit url ≡ some parts
    → parts.port ≡ port_number n
    → n ≤ 65535

unfoldable pub IsListed : Platform → List Text → Text → Type 0
IsListed p allowed_hosts hostname =
    (hosts : List Text) × (normalize_allowed_hosts p allowed_hosts ≡ ok hosts)
    × ((hosts ≡ []) ⊎ ((entry : Text) × In entry hosts × Matches hostname entry))

-- A target that may be called under a policy, an allowlist and a resolver.
pub record IsSafeTarget (p : Platform) (policy : EgressPolicy) (allowed_hosts : List Text)
    (resolver : Resolver) (parts : SplitUrl) (t : ValidatedEgressTarget) : Type 0 where
  pub lowered : t.scheme ≡ lower parts.scheme
  pub scheme :
      (t.scheme ≡ codes "https") ⊎ ((t.scheme ≡ codes "http") × (policy.allow_plain_http ≡ true))
  pub no_username : is_given parts.username ≡ false
  pub no_password : is_given parts.password ≡ false
  pub hostname : required_hostname p t.scheme parts.hostname ≡ ok t.hostname
  pub port : select_port t.hostname t.scheme parts.port ≡ ok t.port
  pub listed : IsListed p allowed_hosts t.hostname
  pub resolved : resolve_hostname p t.hostname t.port resolver ≡ ok t.resolved_addresses
  pub some_address : t.resolved_addresses ≢ []
  pub addresses : All (IsSafeAddress p policy) t.resolved_addresses
  pub url :
      t.normalized_url
      ≡ p.urlunsplit t.scheme (normalized_netloc t.hostname t.port t.scheme) parts.path parts.query

no_unsafe :
    (p : Platform) (policy : EgressPolicy) (xs : List IpAddress)
    → any (λ a. is_unsafe_address p a policy) xs ≡ false
    → All (IsSafeAddress p policy) xs
no_unsafe p policy [] h = tt
no_unsafe p policy (a ∷ xs) h =
    ((is_unsafe_address_iff p a policy).0 (ground arith), no_unsafe p policy xs (ground arith))

web_scheme :
    (scheme : Text) (plain : Bool)
    → not (elem_text scheme (codes "http" ∷ codes "https" ∷ [])) ≡ false
    → (text_eq scheme (codes "http") && not plain) ≡ false
    → (scheme ≡ codes "https") ⊎ ((scheme ≡ codes "http") × (plain ≡ true))
web_scheme scheme plain h k =
    ground (arith, text_eq_iff scheme (codes "http"), text_eq_iff scheme (codes "https"))

is_listed :
    (p : Platform) (allowed_hosts hosts : List Text) (hostname : Text)
    → normalize_allowed_hosts p allowed_hosts ≡ ok hosts
    → (not (is_empty hosts) && not (host_matches_allowlist hostname hosts)) ≡ false
    → IsListed p allowed_hosts hostname
unfolding IsListed
is_listed p allowed_hosts [] hostname n h = ([], n, inl refl)
is_listed p allowed_hosts (host ∷ hosts) hostname n h =
    (host ∷ hosts, n, inr ((host_matches_allowlist_iff hostname (host ∷ hosts)).0 (ground arith)))

-- What the checks before the addresses leave, where none of them raises.
checks_elim :
    {A : Type 0} (a b c : Bool) (e f g : Raised) (host : Result Raised Text)
    (port : Text → Result Raised ℕ) (allowed : Result Raised (List Text))
    (unlisted : Text → List Text → Bool) (refuse : Text → Raised)
    (rest : Text → ℕ → Result Raised A) {t : A}
    → (do
      raise_if a e
      raise_if b f
      raise_if c g
      hostname ← host
      n ← port hostname
      hosts ← allowed
      raise_if (unlisted hostname hosts) (refuse hostname)
      rest hostname n)
      ≡ ok t
    → (hostname : Text) × (n : ℕ) × (hosts : List Text) × (a ≡ false)
      × (b ≡ false)
      × (c ≡ false)
      × (host ≡ ok hostname)
      × (port hostname ≡ ok n)
      × (allowed ≡ ok hosts)
      × (unlisted hostname hosts ≡ false)
      × (rest hostname n ≡ ok t)
checks_elim true b c e f g host port allowed unlisted refuse rest h = cc
checks_elim false true c e f g host port allowed unlisted refuse rest h = cc
checks_elim false false true e f g host port allowed unlisted refuse rest h = cc
checks_elim false false false e f g (err x) port allowed unlisted refuse rest h = cc
checks_elim false false false e f g (ok hostname) port (err x) unlisted refuse rest h =
    let (n, _, k) = >>=-eq-ok (port hostname) (λ n. err x) h in absurd (ground (arith, k))
checks_elim false false false e f g (ok hostname) port (ok hosts) unlisted refuse rest h =
    let (n, q, k) =
      >>=-eq-ok (port hostname)
        (λ n. raise_if (unlisted hostname hosts) (refuse hostname) >> rest hostname n) h in
    (hostname, n, hosts, refl, refl, refl, refl, q, refl, ground (arith, k), ground (arith, k))

addresses_elim :
    {A : Type 0} (call : Result Raised (List IpAddress)) (unsafe : List IpAddress → Bool)
    (e f : Raised) (make : List IpAddress → A) {t : A}
    → (do
      addresses ← call
      raise_if (is_empty addresses) e
      raise_if (unsafe addresses) f
      ok (make addresses))
      ≡ ok t
    → (addresses : List IpAddress) × (call ≡ ok addresses)
      × (addresses ≢ [])
      × (unsafe addresses ≡ false)
      × (make addresses ≡ t)
addresses_elim (err x) unsafe e f make h = cc
addresses_elim (ok []) unsafe e f make h = cc
addresses_elim (ok (a ∷ as')) unsafe e f make h =
    (a ∷ as', refl, λ q. cc, ground arith, ground arith)

pub port_bounds :
    (hostname scheme : Text) (port : SplitPort) (n : ℕ)
    → select_port hostname scheme port ≡ ok n
    → ((m : ℕ) → port ≡ port_number m → m ≤ 65535)
    → (1 ≤ n) × (n ≤ 65535)
port_bounds hostname scheme no_port n h k = ground arith
port_bounds hostname scheme bad_port n h k = ground arith
port_bounds hostname scheme (port_number m) n h k = let b = k m refl in ground arith

pub validate_parts_lem :
    (p : Platform) (policy : EgressPolicy) (allowed_hosts : List Text) (resolver : Resolver)
    (parts : SplitUrl) (t : ValidatedEgressTarget)
    → validate_parts p policy allowed_hosts resolver parts ≡ ok t
    → IsSafeTarget p policy allowed_hosts resolver parts t
unfolding validate_parts validate_addresses
validate_parts_lem p policy allowed_hosts resolver parts t h =
    let scheme = lower parts.scheme in
    let (hostname, port, hosts, web, plain, bare, e, f, g, listed, rest) =
      checks_elim _ _ _ _ _ _ (required_hostname p scheme parts.hostname)
        (λ hostname. select_port hostname scheme parts.port)
        (normalize_allowed_hosts p allowed_hosts)
        (λ hostname hosts. not (is_empty hosts) && not (host_matches_allowlist hostname hosts)) _
        (validate_addresses p policy resolver parts scheme) h in
    let (addresses, q, given, safe, made) =
      addresses_elim (resolve_hostname p hostname port resolver)
        (any (λ a. is_unsafe_address p a policy)) _ _ _ rest in
    subst
      (λ (made : ValidatedEgressTarget). IsSafeTarget p policy allowed_hosts resolver parts made)
      made
      (record {
        lowered = refl;
        scheme = web_scheme scheme policy.allow_plain_http web plain;
        no_username = ground (arith, bare);
        no_password = ground (arith, bare);
        hostname = e;
        port = f;
        listed = is_listed p allowed_hosts hosts hostname g listed;
        resolved = q;
        some_address = given;
        addresses = no_unsafe p policy addresses safe;
        url = refl;
      })
