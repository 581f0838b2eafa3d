-- ===== src/Workflows/Graph/Search.antt =====
-- The `while frontier` loop of `_validate_reachability`: it ends, and what it returns.
use aegis_flow.Base.{
  ℕ, zero, suc, ◌+◌, ◌≤◌, String, false, not, some, List, [], ◌∷◌, ◌≡◌, refl, ◌↔◌, ◌⊎◌, inl, inr,
  arith, length, keep, In, elem, elem_iff, sym, subst, ⊎_elim, eq_iff, ap, List-cases,
}
use aegis_flow.Workflows.Graph.{SearchState, visit, visit_all, explore}

-- The nodes that `targets` leads to from `start`, step by step.
pub data Reach (targets : String → List String) (start : String) : String → Type 0 where
  here : Reach targets start start
  step : {u v : String} → Reach targets start u → In v (targets u) → Reach targets start v

-- How many of `ids` are not reached yet.
abbrev unseen : List String → List String → ℕ
unseen reached ids = length (keep (λ k. not (elem k reached)) ids)

unseen-cons_le : (t : String) (rs ids : List String) → unseen (t ∷ rs) ids ≤ unseen rs ids
unseen-cons_le t rs [] = omega arith
unseen-cons_le t rs (k ∷ ids) = ground (arith, unseen-cons_le t rs ids)

unseen-cons_lt :
    (t : String) (rs ids : List String)
    → In t ids
    → elem t rs ≡ false
    → unseen (t ∷ rs) ids + 1 ≤ unseen rs ids
unseen-cons_lt t rs [] m h = absurd m
unseen-cons_lt t rs (k ∷ ids) (inl e) h =
    let h' : elem k rs ≡ false = cc in ground (arith, eq_iff k t, unseen-cons_le t rs ids)
unseen-cons_lt t rs (k ∷ ids) (inr m) h = ground (arith, eq_iff k t, unseen-cons_lt t rs ids m h)

unseen-nil : (ids : List String) → unseen [] ids ≡ length ids
unseen-nil [] = refl
unseen-nil (k ∷ ids) = ap suc (unseen-nil ids)

abbrev work : List String → SearchState → ℕ
work ids s = unseen s.reachable ids + length s.frontier

visit-work :
    (t : String) (ids : List String) (s : SearchState)
    → In t ids
    → work ids (visit t s) ≤ work ids s
unfolding visit
visit-work t ids s m = ground (arith, unseen-cons_lt t s.reachable ids)

visit_all-work :
    (ts ids : List String) (s : SearchState)
    → ((t : String) → In t ts → In t ids)
    → work ids (visit_all ts s) ≤ work ids s
unfolding visit_all
visit_all-work [] ids s h = omega arith
visit_all-work (t ∷ ts) ids s h = omega (
  arith,
  visit-work t ids s (h t (inl refl)),
  visit_all-work ts ids (visit t s) (λ u m. h u (inr m)),
)

-- One unit of fuel for each node that is queued or not yet seen is enough.
pub explore_ends :
    (targets : String → List String) (ids : List String)
    → ((u t : String) → In t (targets u) → In t ids)
    → (fuel : ℕ) (s : SearchState) → work ids s ≤ fuel
    → (r : List String) × (explore targets fuel s ≡ some r)
unfolding explore
explore_ends targets ids known zero s h = (s.reachable, ground arith)
explore_ends targets ids known (suc fuel) s h = elim (List-cases s.frontier) [
  | inl empty ↦ (s.reachable, rw (empty, explore))
  | inr (u, rest, e) ↦
      let s' : SearchState = record s { frontier = rest } in
      let fits = visit_all-work (targets u) ids s' (known u) in
      let (r, ends) =
        explore_ends targets ids known fuel (visit_all (targets u) s')
          (omega (arith, ap length e)) in
      (r, ground arith)
]

In-visit :
    (v t : String) (s : SearchState) → In v (visit t s).reachable ↔ (In v s.reachable ⊎ (v ≡ t))
unfolding visit
In-visit v t s = ground (arith, elem_iff t s.reachable)

In-visit_all :
    (v : String) (ts : List String) (s : SearchState)
    → In v (visit_all ts s).reachable ↔ (In v s.reachable ⊎ In v ts)
unfolding visit_all
In-visit_all v [] s = ground arith
In-visit_all v (t ∷ ts) s = ground (arith, In-visit v t s, In-visit_all v ts (visit t s))

visit_queues : (t : String) (s : SearchState) → In t s.reachable ⊎ In t (visit t s).frontier
unfolding visit
visit_queues t s = ground (arith, elem_iff t s.reachable)

visit_keeps : (v t : String) (s : SearchState) → In v s.frontier → In v (visit t s).frontier
unfolding visit
visit_keeps v t s m = ground arith

visit_all_keeps :
    (v : String) (ts : List String) (s : SearchState)
    → In v s.frontier
    → In v (visit_all ts s).frontier
unfolding visit_all
visit_all_keeps v [] s m = m
visit_all_keeps v (t ∷ ts) s m = visit_all_keeps v ts (visit t s) (visit_keeps v t s m)

-- What the loop over the targets newly reaches stands in the frontier.
visit_all_queues :
    (v : String) (ts : List String) (s : SearchState)
    → In v (visit_all ts s).reachable
    → In v s.reachable ⊎ In v (visit_all ts s).frontier
unfolding visit_all
visit_all_queues v [] s m = inl m
visit_all_queues v (t ∷ ts) s m = ground (
  arith,
  visit_all_queues v ts (visit t s) m,
  In-visit v t s,
  visit_queues t s,
  visit_all_keeps t ts (visit t s),
)

queued-visit :
    (v t : String) (s : SearchState) → In v (visit t s).frontier → In v s.frontier ⊎ (v ≡ t)
unfolding visit
queued-visit v t s m = ground arith

queued-visit_all :
    (v : String) (ts : List String) (s : SearchState)
    → In v (visit_all ts s).frontier
    → In v s.frontier ⊎ In v ts
unfolding visit_all
queued-visit_all v [] s m = inl m
queued-visit_all v (t ∷ ts) s m =
    ground (arith, queued-visit_all v ts (visit t s) m, queued-visit v t s)

module _ (targets : String → List String) (start : String) where
  record Inv (s : SearchState) : Type 0 where
    started : In start s.reachable
    queued : (v : String) → In v s.frontier → In v s.reachable
    sound : (v : String) → In v s.reachable → Reach targets start v
    closed :
        (u v : String) → In u s.reachable → In v (targets u) → In u s.frontier ⊎ In v s.reachable

  abbrev expand : SearchState → String → List String → SearchState
  expand s u rest = visit_all (targets u) (record s { frontier = rest })

  Inv-expand :
      (s : SearchState) (u : String) (rest : List String)
      → s.frontier ≡ u ∷ rest
      → Inv s
      → Inv (expand s u rest)
  Inv-expand s u rest e h =
      let s' : SearchState = record s { frontier = rest } in
      let flags = λ (v : String). In-visit_all v (targets u) s' in
      let to_u = h.sound u (h.queued u (subst (In u) (sym e) (inl refl))) in
      record {
        started = (flags start).1 (inl h.started);
        queued = λ v q.
            ground (arith, flags v, queued-visit_all v (targets u) s' q, h.queued v, ap (In v) e);
        sound = λ v m. ⊎_elim (h.sound v) (Reach.step to_u) ((flags v).0 m);
        closed = λ x v m t. elim (visit_all_queues x (targets u) s' m) [
          | inr q ↦ inl q
          | inl old ↦ elim (h.closed x v old t) [
            | inr r ↦ inr ((flags v).1 (inl r))
            | inl waiting ↦ elim (subst (In x) e waiting) [
              | inl xu ↦ inr ((flags v).1 (inr (subst (λ w. In v (targets w)) xu t)))
              | inr later ↦ inl (visit_all_keeps x (targets u) s' later)
            ]
          ]
        ];
      }

  -- When the loop ends, the frontier is empty and the invariant holds.
  explore-Inv :
      (fuel : ℕ) (s : SearchState) (r : List String)
      → Inv s
      → explore targets fuel s ≡ some r
      → (t : SearchState) × Inv t × (t.frontier ≡ []) × (t.reachable ≡ r)
  unfolding explore
  explore-Inv zero s r h e = elim (List-cases s.frontier) [
    | inl empty ↦ (s, h, empty, ground arith)
    | inr (u, rest, q) ↦ absurd (ground arith)
  ]
  explore-Inv (suc fuel) s r h e = elim (List-cases s.frontier) [
    | inl empty ↦ (s, h, empty, ground arith)
    | inr (u, rest, q) ↦
        explore-Inv fuel (expand s u rest) r (Inv-expand s u rest q h) (ground arith)
  ]

  complete :
      (t : SearchState)
      → Inv t
      → t.frontier ≡ []
      → {v : String} → Reach targets start v
      → In v t.reachable
  complete t h e Reach.here = h.started
  complete t h e (Reach.step {u} {v} p edge) = elim (h.closed u v (complete t h e p) edge) [
    | inl waiting ↦ absurd (subst (In u) e waiting)
    | inr m ↦ m
  ]

  abbrev from_start : SearchState
  from_start = record { reachable = start ∷ []; frontier = start ∷ [] }

  Inv-from_start : Inv from_start
  Inv-from_start = record {
    started = inl refl;
    queued = λ v q. q;
    sound = λ v m. ⊎_elim (λ e. subst (Reach targets start) (sym e) Reach.here) (λ m. absurd m) m;
    closed = λ u v m t. inl m;
  }

  -- What the loop returns from the start is what the start leads to.
  pub explore_reaches :
      (fuel : ℕ) (r : List String) (v : String)
      → explore targets fuel from_start ≡ some r
      → In v r ↔ Reach targets start v
  explore_reaches fuel r v e =
      let (t, h, empty, same) = explore-Inv fuel from_start r Inv-from_start e in
      (λ m. h.sound v (subst (In v) (sym same) m), λ p. subst (In v) same (complete t h empty p))

  -- With one unit of fuel for each node, the loop ends.
  pub explore_total :
      (ids : List String)
      → In start ids
      → ((u t : String) → In t (targets u) → In t ids)
      → (r : List String) × (explore targets (length ids) from_start ≡ some r)
  explore_total ids m known =
      explore_ends targets ids known (length ids) from_start
        (omega (arith, unseen-cons_lt start [] ids m refl, unseen-nil ids))
