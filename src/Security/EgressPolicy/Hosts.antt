-- ===== src/Security/EgressPolicy/Hosts.antt =====
-- Which hosts an allowlist lets through, and which addresses are safe to call.
use aegis_flow.Base.{
  ℕ, true, false, not, List, [], ◌∷◌, ◌++◌, any, ◌≡◌, sym, ap, ◌∙◌, ◌↔◌, ◌⊎◌, inl, inr, arith, In,
  Bool-cases, any_elim, any_intro, ◌&&◌, length, length-append, ◌≢◌, subst,
}
use mathlib.Core.List.{reverse, reverse-append, reverse-reverse}
use aegis_flow.Base.Texts.{
  Text, codes, text_eq, text_eq_iff, starts_with, starts_with_iff, ends_with,
}
use aegis_flow.Security.EgressPolicy.{
  IpAddress, v4, v6, EgressPolicy, Platform, same_address, metadata_addresses, in_shared_space,
  is_unsafe_address, drop_two, is_wildcard, entry_matches, host_matches_allowlist,
}

ends_with_iff : (s t : Text) → (ends_with s t ≡ true) ↔ ((front : Text) × (s ≡ front ++ t))
unfolding ends_with
ends_with_iff s t = (
  λ h.
      let (rest, e) = (starts_with_iff (reverse s) (reverse t)).0 h in
      (
        reverse rest,
        sym (reverse-reverse s)
            ∙ ap reverse e
            ∙ reverse-append (reverse t) rest
            ∙ ap (λ (x : Text). reverse rest ++ x) (reverse-reverse t),
      ),
  λ (front, e).
      (starts_with_iff (reverse s) (reverse t)).1
        (reverse front, ap reverse e ∙ reverse-append front t),
)

-- The host is the entry, or the entry is `*.` with a domain that the host is under.
unfoldable pub Matches : Text → Text → Type 0
Matches hostname entry =
    (hostname ≡ entry)
    ⊎ ((front : Text) × (domain : Text) × (entry ≡ codes "*." ++ domain)
        × (hostname ≡ front ++ (codes "." ++ domain)))

wildcard_elim : (entry : Text) → is_wildcard entry ≡ true → entry ≡ codes "*." ++ drop_two entry
unfolding starts_with
wildcard_elim [] h = cc
wildcard_elim (c ∷ []) h = ground arith
wildcard_elim (c ∷ d ∷ s) h = ground arith

longer : (front s : Text) (c : ℕ) → front ++ (c ∷ s) ≢ s
longer front s c e =
    let n : length (front ++ (c ∷ s)) ≡ length s = ap length e in
    let m = length-append front (c ∷ s) in ground (arith, n, m)

under_iff :
    (hostname suffix : Text)
    → ((ends_with hostname (codes "." ++ suffix) && not (text_eq hostname suffix)) ≡ true)
      ↔ ((front : Text) × (hostname ≡ front ++ (codes "." ++ suffix)))
under_iff hostname suffix = (
  λ h. (ends_with_iff hostname (codes "." ++ suffix)).0 (ground arith),
  λ (front, e).
      let ends = (ends_with_iff hostname (codes "." ++ suffix)).1 (front, e) in
      let differs : text_eq hostname suffix ≢ true =
        λ q. longer front suffix 46 (sym e ∙ (text_eq_iff hostname suffix).0 q) in
      ground (arith, ends, differs),
)

entry_matches_elim :
    (hostname entry : Text) → entry_matches hostname entry ≡ true → Matches hostname entry
unfolding Matches
entry_matches_elim hostname entry h = elim (Bool-cases (is_wildcard entry)) [
  | inl w ↦
      let (front, e) = (under_iff hostname (drop_two entry)).0 (ground (arith, w, h)) in
      inr (front, drop_two entry, wildcard_elim entry w, e)
  | inr w ↦ inl ((text_eq_iff hostname entry).0 (ground (arith, w, h)))
]

wildcard_matches :
    (hostname domain front : Text)
    → hostname ≡ front ++ (codes "." ++ domain)
    → entry_matches hostname (codes "*." ++ domain) ≡ true
unfolding starts_with
wildcard_matches hostname domain front e = (under_iff hostname domain).1 (front, e)

entry_matches_intro :
    (hostname entry : Text) → Matches hostname entry → entry_matches hostname entry ≡ true
unfolding Matches
entry_matches_intro hostname entry (inl e) = elim (Bool-cases (is_wildcard entry)) [
  | inl w ↦
      let q = wildcard_elim entry w in
      let m = wildcard_matches hostname (drop_two entry) (codes "*") (e ∙ q) in
      subst (λ (x : Text). entry_matches hostname x ≡ true) (sym q) m
  | inr w ↦ let q = (text_eq_iff hostname entry).1 e in ground (arith, w, q)
]
entry_matches_intro hostname entry (inr (front, domain, q, e)) =
    subst (λ (x : Text). entry_matches hostname x ≡ true) (sym q)
      (wildcard_matches hostname domain front e)

pub host_matches_allowlist_iff :
    (hostname : Text) (hosts : List Text)
    → (host_matches_allowlist hostname hosts ≡ true)
      ↔ ((entry : Text) × In entry hosts × Matches hostname entry)
unfolding host_matches_allowlist
host_matches_allowlist_iff hostname hosts = (
  λ h.
      let (entry, m, e) = any_elim (entry_matches hostname) hosts h in
      (entry, m, entry_matches_elim hostname entry e),
  λ (entry, m, e).
      any_intro (entry_matches hostname) entry hosts m (entry_matches_intro hostname entry e),
)

-- An address that may be called: no metadata service, not unspecified, not multicast; and a loopback or a
-- link-local address where the policy allows its kind, or one outside the shared space that is private
-- or reserved only where the policy allows it.
pub record IsSafeAddress (p : Platform) (policy : EgressPolicy) (a : IpAddress) : Type 0 where
  pub no_metadata : ¬ In a metadata_addresses
  pub specified : p.is_unspecified a ≡ false
  pub unicast : p.is_multicast a ≡ false
  pub loopback : p.is_loopback a ≡ true → policy.allow_loopback ≡ true
  pub link_local : p.is_link_local a ≡ true → policy.allow_link_local ≡ true
  pub other :
      ((p.is_loopback a ≡ true) ⊎ (p.is_link_local a ≡ true))
      ⊎ ((p.is_private a ≡ true → policy.allow_private_networks ≡ true)
          × ((p.is_reserved a ≡ true → policy.allow_reserved ≡ true) × (in_shared_space a ≡ false)))

same_address_iff : (a b : IpAddress) → (same_address a b ≡ true) ↔ (a ≡ b)
same_address_iff (v4 a) (v4 b) = ground arith
same_address_iff (v4 a) (v6 b t) = ground arith
same_address_iff (v6 a s) (v4 b) = ground arith
same_address_iff (v6 a s) (v6 b t) = ground (arith, text_eq_iff s t)

is_metadata_iff :
    (a : IpAddress) → (any (same_address a) metadata_addresses ≡ true) ↔ In a metadata_addresses
is_metadata_iff a = ground (
  arith,
  same_address_iff a (v4 2852039166),
  same_address_iff a (v6 336294982257581694735330614659971547732 []),
)

pub is_unsafe_address_iff :
    (p : Platform) (a : IpAddress) (policy : EgressPolicy)
    → (is_unsafe_address p a policy ≡ false) ↔ IsSafeAddress p policy a
unfolding is_unsafe_address
is_unsafe_address_iff p a policy = ground (arith, is_metadata_iff a)
