-- ===== src/Workflows/YamlIo/Diff.antt =====
-- The diff of an import against the workflow that it replaces.
use aegis_flow.Base.{
  String, Bool, true, false, not, ◌||◌, some, List, [], ◌∷◌, ◌≡◌, refl, sym, ◌↔◌, inl, inr, arith,
  In, In-keep, keep, elem, elem_iff, is_empty, subst, Bool-cases, List-cases,
}
use aegis_flow.Base.Sorted.{In-sorted_set}
use aegis_flow.Workflows.Types.{WorkflowDefinition, NodeDefinition}
use aegis_flow.Workflows.YamlIo.{minus, node_ids, edge_keys, build_workflow_import_diff}

In-minus : (x : String) (xs ys : List String) → In x (minus xs ys) ↔ (In x xs × (¬ In x ys))
In-minus x xs ys = ground (
  arith,
  In-keep (λ x. not (elem x ys)) x xs,
  In-sorted_set x (keep (λ x. not (elem x ys)) xs),
  elem_iff x ys,
)

-- Nothing is left of `xs` exactly when `ys` holds all of it.
is_empty-minus :
    (xs ys : List String) → (is_empty (minus xs ys) ≡ true) ↔ ((x : String) → In x xs → In x ys)
is_empty-minus xs ys = (
  λ h x m. elim (Bool-cases (elem x ys)) [
    | inl e ↦ (elem_iff x ys).0 e
    | inr e ↦
        absurd
          (none_in (minus xs ys) h x ((In-minus x xs ys).1 (m, λ q. cc (e, (elem_iff x ys).1 q))))
  ],
  λ all. elim (List-cases (minus xs ys)) [
    | inl e ↦ rw e
    | inr (x, rest, e) ↦
        let (m, out) = (In-minus x xs ys).0 (subst (In x) (sym e) (inl refl)) in
        absurd (out (all x m))
  ],
)
  where
    none_in : (zs : List String) → is_empty zs ≡ true → (x : String) → In x zs → ⊥
    none_in [] h x m = m
    none_in (z ∷ zs) h x m = cc

-- Against an existing workflow, the diff names as added and removed exactly the nodes and edge keys
-- that only one of the two has, and is not breaking exactly when every old node id and every old
-- edge key is kept.
pub import_diff_iff :
    (differs : NodeDefinition → NodeDefinition → Bool) (w old : WorkflowDefinition)
    → let d = build_workflow_import_diff differs w (some old) in
      ((x : String) → In x d.added_nodes ↔ (In x (node_ids w) × (¬ In x (node_ids old))))
      × ((x : String) → In x d.removed_nodes ↔ (In x (node_ids old) × (¬ In x (node_ids w))))
      × ((x : String) → In x d.added_edges ↔ (In x (edge_keys w) × (¬ In x (edge_keys old))))
      × ((x : String) → In x d.removed_edges ↔ (In x (edge_keys old) × (¬ In x (edge_keys w))))
      × ((d.has_breaking_changes ≡ false) ↔ (
          ((x : String) → In x (node_ids old) → In x (node_ids w))
          × ((x : String) → In x (edge_keys old) → In x (edge_keys w))))
unfolding build_workflow_import_diff
import_diff_iff differs w old = (
  λ x. In-minus x (node_ids w) (node_ids old),
  λ x. In-minus x (node_ids old) (node_ids w),
  λ x. In-minus x (edge_keys w) (edge_keys old),
  λ x. In-minus x (edge_keys old) (edge_keys w),
  breaking (minus (node_ids old) (node_ids w)) (minus (edge_keys old) (edge_keys w))
      (is_empty-minus (node_ids old) (node_ids w)) (is_empty-minus (edge_keys old) (edge_keys w)),
)
  where
    breaking :
        (xs ys : List String) {P Q : Type 0}
        → (is_empty xs ≡ true) ↔ P
        → (is_empty ys ≡ true) ↔ Q
        → ((not (is_empty xs) || not (is_empty ys)) ≡ false) ↔ (P × Q)
    breaking xs ys p q = ground arith
