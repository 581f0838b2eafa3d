-- ===== src/Security/EgressProxy/Plans.antt =====
-- What a plan that is built allows.
use aegis_flow.Base.{
  ℕ, Bool, true, false, Option, none, some, List, [], ◌∷◌, any, eqb, length, Result, ok, err,
  raise_if, ◌>>=◌, ◌>>◌, Bool-cases, >>=-eq-ok, ◌≡◌, refl, ◌⊎◌, inl, inr, arith, In, any_elim, ◌≤◌,
  subst,
}
use aegis_flow.Base.Texts.{Text}
use aegis_flow.Security.EgressPolicy.{
  EgressPolicy, default_policy, ValidatedEgressTarget, SplitUrl, Platform, normalize_allowed_hosts,
  or_else, select_resolver, validate_egress_url,
}
use aegis_flow.Security.EgressPolicy.Targets.{PortsInRange, IsSafeTarget, port_bounds}
use aegis_flow.Security.EgressPolicy.Passes.{validate_egress_url_iff}
use aegis_flow.Security.EgressProxy.{
  EgressProxyPolicy, default_proxy_policy, EgressProxyPlan, ProxyRaised, port_not_allowlisted,
  passing, is_port_refused, proxy_metadata, select_route, planned, build_egress_proxy_plan,
}
use aegis_flow.Security.EgressProxy.Routes.{IsRoute, passing_elim, call_elim, select_route_lem}

port_allowed :
    (port : ℕ) (ports : List ℕ) → is_port_refused port ports ≡ false → (ports ≡ []) ⊎ In port ports
port_allowed port [] h = inl refl
port_allowed port (n ∷ ns) h =
    let found : any (eqb port) (n ∷ ns) ≡ true = ground arith in
    let (m, q, e) = any_elim (eqb port) (n ∷ ns) found in
    let same : m ≡ port = ground arith in inr (subst (λ (x : ℕ). In x (n ∷ ns)) same q)

plan_elim :
    {H R S : Type 0} (hosts : Result ProxyRaised H)
    (check : H → Result ProxyRaised ValidatedEgressTarget) (refused : ValidatedEgressTarget → Bool)
    (e : ProxyRaised) (route : Result ProxyRaised R) (proxy : R → Result ProxyRaised S)
    (make : ValidatedEgressTarget → R → S → EgressProxyPlan) {plan : EgressProxyPlan}
    → (do
      h ← hosts
      target ← check h
      raise_if (refused target) e
      r ← route
      s ← proxy r
      ok (make target r s))
      ≡ ok plan
    → (h : H) × (target : ValidatedEgressTarget) × (r : R) × (s : S) × (hosts ≡ ok h)
      × (check h ≡ ok target)
      × (refused target ≡ false)
      × (route ≡ ok r)
      × (make target r s ≡ plan)
plan_elim (err x) check refused e route proxy make h = cc
plan_elim (ok hosts) check refused e (err x) proxy make h =
    let (target, k, rest) = >>=-eq-ok (check hosts) (λ t. raise_if (refused t) e >> err x) h in
    absurd (elim (Bool-cases (refused target)) [
      | inl b ↦ ground (arith, b, rest)
      | inr b ↦ ground (arith, b, rest)
    ])
plan_elim (ok hosts) check refused e (ok r) proxy make h =
    let (target, k, rest) =
      >>=-eq-ok (check hosts) (λ t. raise_if (refused t) e >> (proxy r >>= λ s. ok (make t r s)))
        h in
    let (s, q, made) = call_elim (refused target) e (proxy r) (λ s. ok (make target r s)) rest in
    (hosts, target, r, s, refl, k, ground (arith, rest), refl, ground (arith, made))

-- What a plan says beside its target: the mode of the policy, the target in the record of the audit, and
-- the number of its addresses.
pub record IsPlanned (policy : EgressProxyPolicy) (plan : EgressProxyPlan) : Type 0 where
  pub mode : plan.mode ≡ policy.mode
  pub pinning : plan.dns_pinning_required ≡ policy.dns_pinning_required
  pub audited_host : plan.audit_metadata.target_host ≡ plan.target.hostname
  pub audited_port : plan.audit_metadata.target_port ≡ plan.target.port
  pub audited_network : plan.audit_metadata.network ≡ plan.network
  pub audited_count : plan.audit_metadata.resolved_ip_count ≡ length plan.target.resolved_addresses

-- Where a plan is built, its target passes the egress policy with the normalized hosts of the proxy
-- policy for allowlist and the resolver of the policy or the system; its port is one of the allowed ports,
-- if any are given, and between 1 and 65535 where the ports of split URLs are at most 65535; it leaves as
-- the mode of the proxy policy says, directly, through the proxy, whose URL is of `http` or `https` and
-- gives no user and no password, or on the network of the policy, whose name begins with `aegis-egress-`;
-- and the audit record names the host, the port and the network of the plan.
pub build_egress_proxy_plan_lem :
    (p : Platform) (target_url : Text) (proxy_policy : Option EgressProxyPolicy)
    (egress_policy : Option EgressPolicy) (plan : EgressProxyPlan)
    → PortsInRange p
    → build_egress_proxy_plan p target_url proxy_policy egress_policy ≡ ok plan
    → let policy = or_else proxy_policy default_proxy_policy in
      let egress_rules = or_else egress_policy default_policy in
      (hosts : List Text) × (parts : SplitUrl) × (normalize_allowed_hosts p policy.allowed_hosts
        ≡ ok hosts)
      × (p.urlsplit target_url ≡ some parts)
      × IsSafeTarget p egress_rules hosts (select_resolver p egress_rules none) parts plan.target
      × ((policy.allowed_ports ≡ []) ⊎ In plan.target.port policy.allowed_ports)
      × (1 ≤ plan.target.port)
      × (plan.target.port ≤ 65535)
      × IsRoute p policy policy.mode plan.httpx_proxy_url plan.network
      × IsPlanned policy plan
unfolding build_egress_proxy_plan PortsInRange
build_egress_proxy_plan_lem p target_url proxy_policy egress_policy plan in_range h =
    let policy = or_else proxy_policy default_proxy_policy in
    let egress_rules = or_else egress_policy default_policy in
    let (hosts, target, route, proxy, e, q, allowed, r, made) =
      plan_elim (passing (normalize_allowed_hosts p policy.allowed_hosts))
        (λ hosts. passing (validate_egress_url p target_url egress_policy (some hosts) none))
        (λ target. is_port_refused target.port policy.allowed_ports) port_not_allowlisted
        (select_route p policy policy.mode) (λ route. proxy_metadata p route.0) (planned policy)
        h in
    let (parts, s, safe) =
      (validate_egress_url_iff p target_url egress_policy (some hosts) none target).0
        (passing_elim _ q) in
    let (low, high) =
      port_bounds target.hostname target.scheme parts.port target.port safe.port
        (λ n. in_range target_url parts n s) in
    subst
      (λ (x : EgressProxyPlan).
        (hosts : List Text) × (parts : SplitUrl) × (normalize_allowed_hosts p policy.allowed_hosts
          ≡ ok hosts)
        × (p.urlsplit target_url ≡ some parts)
        × IsSafeTarget p egress_rules hosts (select_resolver p egress_rules none) parts x.target
        × ((policy.allowed_ports ≡ []) ⊎ In x.target.port policy.allowed_ports)
        × (1 ≤ x.target.port)
        × (x.target.port ≤ 65535)
        × IsRoute p policy policy.mode x.httpx_proxy_url x.network
        × IsPlanned policy x)
      made
      (
        hosts,
        parts,
        passing_elim _ e,
        s,
        safe,
        port_allowed target.port policy.allowed_ports allowed,
        low,
        high,
        select_route_lem p policy policy.mode route r,
        record {
          mode = refl;
          pinning = refl;
          audited_host = refl;
          audited_port = refl;
          audited_network = refl;
          audited_count = refl;
        },
      )
