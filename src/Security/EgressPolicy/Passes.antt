-- ===== src/Security/EgressPolicy/Passes.antt =====
-- Which URLs pass the check.
use aegis_flow.Base.{
  ℕ, Bool, true, false, not, ◌&&◌, Option, some, List, [], ◌∷◌, any, is_empty, Result, ok, raise_if,
  ◌>>=◌, ◌>>◌, Option-cases, ◌≡◌, ◌≢◌, refl, sym, subst, ap, ◌∙◌, ◌↔◌, ◌⊎◌, inl, inr, arith, All,
}
use aegis_flow.Base.Texts.{Text, codes, text_eq, elem_text, lower}
use aegis_flow.Security.EgressPolicy.{
  IpAddress, Raised, Resolver, EgressPolicy, default_policy, ValidatedEgressTarget, SplitUrl,
  Platform, is_unsafe_address, normalize_allowed_hosts, host_matches_allowlist, resolve_hostname,
  required_hostname, select_port, select_resolver, or_else, validated, validate_addresses,
  validate_parts, validate_egress_url,
}
use aegis_flow.Security.EgressPolicy.Hosts.{
  host_matches_allowlist_iff, IsSafeAddress, is_unsafe_address_iff,
}
use aegis_flow.Security.EgressPolicy.Targets.{IsListed, IsSafeTarget, validate_parts_lem}

checks_intro :
    {A : Type 0} (a b c : Bool) (e f g : Raised) (host : Result Raised Text)
    (port : Text → Result Raised ℕ) (allowed : Result Raised (List Text))
    (unlisted : Text → List Text → Bool) (refuse : Text → Raised)
    (rest : Text → ℕ → Result Raised A) (hostname : Text) (n : ℕ) (hosts : List Text)
    → a ≡ false
    → b ≡ false
    → c ≡ false
    → host ≡ ok hostname
    → port hostname ≡ ok n
    → allowed ≡ ok hosts
    → unlisted hostname hosts ≡ false
    → (do
      raise_if a e
      raise_if b f
      raise_if c g
      hostname ← host
      n ← port hostname
      hosts ← allowed
      raise_if (unlisted hostname hosts) (refuse hostname)
      rest hostname n)
      ≡ rest hostname n
checks_intro a b c e f g host port allowed unlisted refuse rest hostname n hosts h1 h2 h3 h4 h5 h6
      h7 =
    rw h1 (rw h2 (rw h3 (rw h4 (rw h5 (rw h6 (rw h7 refl))))))

addresses_intro :
    {A : Type 0} (call : Result Raised (List IpAddress)) (unsafe : List IpAddress → Bool)
    (e f : Raised) (make : List IpAddress → A) (addresses : List IpAddress)
    → call ≡ ok addresses
    → addresses ≢ []
    → unsafe addresses ≡ false
    → (do
      addresses ← call
      raise_if (is_empty addresses) e
      raise_if (unsafe addresses) f
      ok (make addresses))
      ≡ ok (make addresses)
addresses_intro call unsafe e f make [] h1 h2 h3 = absurd (h2 refl)
addresses_intro call unsafe e f make (a ∷ as') h1 h2 h3 = rw h1 (rw h3 refl)

web_scheme_intro :
    (scheme : Text) (plain : Bool)
    → (scheme ≡ codes "https") ⊎ ((scheme ≡ codes "http") × (plain ≡ true))
    → (not (elem_text scheme (codes "http" ∷ codes "https" ∷ [])) ≡ false)
      × ((text_eq scheme (codes "http") && not plain) ≡ false)
unfolding text_eq
web_scheme_intro scheme plain (inl e) = (rw e refl, rw e refl)
web_scheme_intro scheme plain (inr (e, q)) = (rw e refl, rw e (rw q refl))

IsListed-intro :
    (p : Platform) (allowed_hosts : List Text) (hostname : Text)
    → IsListed p allowed_hosts hostname
    → (hosts : List Text) × (normalize_allowed_hosts p allowed_hosts ≡ ok hosts)
      × ((not (is_empty hosts) && not (host_matches_allowlist hostname hosts)) ≡ false)
unfolding IsListed
IsListed-intro p allowed_hosts hostname (hosts, n, inl e) = (hosts, n, rw e refl)
IsListed-intro p allowed_hosts hostname (hosts, n, inr m) =
    let k = (host_matches_allowlist_iff hostname hosts).1 m in (hosts, n, ground (arith, k))

All-safe :
    (p : Platform) (policy : EgressPolicy) (xs : List IpAddress)
    → All (IsSafeAddress p policy) xs
    → any (λ a. is_unsafe_address p a policy) xs ≡ false
All-safe p policy [] h = refl
All-safe p policy (a ∷ xs) h =
    let s = (is_unsafe_address_iff p a policy).1 h.0 in ground (arith, s, All-safe p policy xs h.1)

pub validate_parts_passes :
    (p : Platform) (policy : EgressPolicy) (allowed_hosts : List Text) (resolver : Resolver)
    (parts : SplitUrl) (t : ValidatedEgressTarget)
    → IsSafeTarget p policy allowed_hosts resolver parts t
    → validate_parts p policy allowed_hosts resolver parts ≡ ok t
unfolding validate_parts validate_addresses
validate_parts_passes p policy allowed_hosts resolver parts t s =
    let scheme = lower parts.scheme in
    let (web, plain) = web_scheme_intro scheme policy.allow_plain_http (
      subst
        (λ (x : Text).
          (x ≡ codes "https") ⊎ ((x ≡ codes "http") × (policy.allow_plain_http ≡ true)))
        s.lowered s.scheme) in
    let (hosts, g, listed) = IsListed-intro p allowed_hosts t.hostname s.listed in
    let host : required_hostname p scheme parts.hostname ≡ ok t.hostname =
      cc (s.lowered, s.hostname) in
    let port : select_port t.hostname scheme parts.port ≡ ok t.port = cc (s.lowered, s.port) in
    let made =
      λ (addresses : List IpAddress). validated p parts scheme t.hostname t.port addresses in
    let tail : validate_addresses p policy resolver parts scheme t.hostname t.port ≡ ok t =
      addresses_intro (resolve_hostname p t.hostname t.port resolver)
        (any (λ a. is_unsafe_address p a policy)) _ _ made t.resolved_addresses s.resolved
        s.some_address (All-safe p policy t.resolved_addresses s.addresses)
      ∙ ap (λ (x : Text). ok (validated p parts x t.hostname t.port t.resolved_addresses))
          (sym s.lowered)
      ∙ ap (λ (u : Text). ok (record t { normalized_url = u })) (sym s.url) in
    checks_intro _ _ _ _ _ _ _ (λ hostname. select_port hostname scheme parts.port) _
      (λ hostname hosts. not (is_empty hosts) && not (host_matches_allowlist hostname hosts)) _
      (validate_addresses p policy resolver parts scheme) t.hostname t.port hosts web plain
      (ground (arith, s.no_username, s.no_password)) host port g listed
    ∙ tail

pub validate_egress_url_iff :
    (p : Platform) (url : Text) (policy : Option EgressPolicy) (allowed_hosts : Option (List Text))
    (resolver : Option Resolver) (t : ValidatedEgressTarget)
    → (validate_egress_url p url policy allowed_hosts resolver ≡ ok t) ↔ (
        let resolved_policy = or_else policy default_policy in
        (parts : SplitUrl) × (p.urlsplit url ≡ some parts)
        × IsSafeTarget p resolved_policy
            (or_else allowed_hosts [])
            (select_resolver p resolved_policy resolver)
            parts
            t)
unfolding validate_egress_url
validate_egress_url_iff p url policy allowed_hosts resolver t =
    let resolved_policy = or_else policy default_policy in
    let selected = select_resolver p resolved_policy resolver in
    (
      λ h. elim (Option-cases (p.urlsplit url)) [
        | inl n ↦ absurd (ground (arith, n, h))
        | inr (parts, e) ↦ (
          parts,
          e,
          validate_parts_lem p resolved_policy (or_else allowed_hosts []) selected parts t
              (ground (arith, e, h)),
        )
      ],
      λ (parts, e, s).
          let k =
            validate_parts_passes p resolved_policy (or_else allowed_hosts []) selected parts t s in
          rw e k,
    )
