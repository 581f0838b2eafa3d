-- ===== src/Workflows/Graph/Outgoing.antt =====
-- The dict `outgoing` of `_validate_reachability`: under each node, the targets of its edges.
use mathlib.Core.Option
use aegis_flow.Base.{
  String, true, List, [], ◌∷◌, ◌++◌, ◌≡◌, refl, sym, ◌↔◌, ◌⊎◌, inl, inr, arith, In, In-append,
  eq_iff, ◌==◌, if◌then◌else◌, is_some, Option-cases, ⊎_elim, ◌∙◌, ap,
}
use aegis_flow.Base.Dicts.{Dict, get}
use aegis_flow.Workflows.Types.{EdgeDefinition}
use aegis_flow.Workflows.Graph.{append_at, link_edges, no_targets, outgoing, targets_of}

-- Some edge of the list goes from `u` to `v`.
abbrev pub Links : List EdgeDefinition → String → String → Type 0
Links es u v = (e : EdgeDefinition) × In e es × (e.source ≡ u) × (e.target ≡ v)

get-append_at :
    (u k t : String) (d : Dict (List String))
    → get u (append_at k t d)
      ≡ (if k == u then Option.map (λ ts. ts ++ t ∷ []) (get u d) else get u d)
unfolding get append_at
get-append_at u k t [] = ground arith
get-append_at u k t ((j, ts) ∷ d) =
    ground (arith, eq_iff j u, eq_iff j k, eq_iff k u, get-append_at u k t d)

known-append_at :
    (u k t : String) (d : Dict (List String))
    → is_some (get u (append_at k t d)) ≡ is_some (get u d)
known-append_at u k t d = ground (arith, get-append_at u k t d)

In-append_at :
    (v u k t : String) (d : Dict (List String))
    → In v (targets_of (append_at k t d) u)
      ↔ (In v (targets_of d u) ⊎ (k ≡ u) × (v ≡ t) × (is_some (get u d) ≡ true))
unfolding targets_of
In-append_at v u k t d = elim (Option-cases (get u d)) [
  | inl e ↦ ground (arith, get-append_at u k t d, eq_iff k u)
  | inr (ts, e) ↦ ground (arith, get-append_at u k t d, eq_iff k u, In-append v ts (t ∷ []))
]

-- Every target found under `u` is that of an edge, or was there before.
targets_sound :
    (v u : String) (es : List EdgeDefinition) (d : Dict (List String))
    → In v (targets_of (link_edges es d) u)
    → In v (targets_of d u) ⊎ Links es u v
unfolding link_edges
targets_sound v u [] d m = inl m
targets_sound v u (e ∷ es) d m = elim (targets_sound v u es (append_at e.source e.target d) m) [
  | inr (f, later, s, t) ↦ inr (f, inr later, s, t)
  | inl now ↦ elim ((In-append_at v u e.source e.target d).0 now) [
    | inl old ↦ inl old
    | inr (s, t, known) ↦ inr (e, inl refl, s, sym t)
  ]
]

-- The edges out of a known node all add their targets.
targets_complete :
    (v u : String) (es : List EdgeDefinition) (d : Dict (List String))
    → is_some (get u d) ≡ true
    → In v (targets_of d u) ⊎ Links es u v
    → In v (targets_of (link_edges es d) u)
unfolding link_edges
targets_complete v u [] d k (inl m) = m
targets_complete v u [] d k (inr (f, m, s, t)) = absurd m
targets_complete v u (e ∷ es) d k h =
    targets_complete v u es (append_at e.source e.target d)
      (known-append_at u e.source e.target d ∙ k) (step h)
  where
    step :
        In v (targets_of d u) ⊎ Links (e ∷ es) u v
        → In v (targets_of (append_at e.source e.target d) u) ⊎ Links es u v
    step (inl m) = inl ((In-append_at v u e.source e.target d).1 (inl m))
    step (inr (f, inl now, s, t)) = inl (
        (In-append_at v u e.source e.target d).1 (
          inr (
            ap (λ (g : EdgeDefinition). g.source) (sym now) ∙ s,
            sym t ∙ ap (λ (g : EdgeDefinition). g.target) now,
            k,
          )))
    step (inr (f, inr later, s, t)) = inr (f, later, s, t)

targets_of-no_targets : (v u : String) (ks : List String) → In v (targets_of (no_targets ks) u) → ⊥
unfolding targets_of no_targets get
targets_of-no_targets v u [] m = m
targets_of-no_targets v u (k ∷ ks) m = ground (arith, targets_of-no_targets v u ks)

known-no_targets :
    (u : String) (ks : List String) → In u ks → is_some (get u (no_targets ks)) ≡ true
unfolding no_targets get
known-no_targets u [] m = absurd m
known-no_targets u (k ∷ ks) m = ground (arith, eq_iff k u, known-no_targets u ks)

pub outgoing_sound :
    (v u : String) (ks : List String) (es : List EdgeDefinition)
    → In v (targets_of (outgoing ks es) u)
    → Links es u v
unfolding outgoing
outgoing_sound v u ks es m =
    ⊎_elim (λ old. absurd (targets_of-no_targets v u ks old)) (λ l. l)
      (targets_sound v u es (no_targets ks) m)

-- Under a known node `outgoing` holds exactly the targets of the edges that leave it.
pub outgoing_iff :
    (v u : String) (ks : List String) (es : List EdgeDefinition)
    → In u ks
    → In v (targets_of (outgoing ks es) u) ↔ Links es u v
unfolding outgoing
outgoing_iff v u ks es known = (
  outgoing_sound v u ks es,
  λ l. targets_complete v u es (no_targets ks) (known-no_targets u ks known) (inr l),
)
