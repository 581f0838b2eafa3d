-- ===== src/Workflows/YamlIo/Missing.antt =====
-- The missing references of an import.
use aegis_flow.Base.{
  String, Bool, true, not, Option, some, List, [], ◌∷◌, ◌++◌, map, ◌≡◌, refl, sym, ◌↔◌, ◌⊎◌, inl,
  inr, arith, In, In-append, In-keep, keep, elem, elem_iff, is_empty, subst, Bool-cases, List-cases,
}
use aegis_flow.Base.Sorted.{sorted_set, In-sorted_set}
use aegis_flow.Workflows.Types.{WorkflowDefinition, NodeDefinition}
use aegis_flow.Workflows.Impact.{PermissionImpact, permission_impact}
use aegis_flow.Workflows.YamlIo.{
  ResourceReferenceType, tool_group, mcp_server, shell_template, environment,
  ProjectResourceCatalog, MissingResourceReference, missing_for, find_missing_references,
  analyze_workflow_import,
}

-- The names of one kind in an impact, and in a catalog.
abbrev pub required : PermissionImpact → ResourceReferenceType → List String
required p tool_group = p.tool_groups
required p mcp_server = p.mcp_servers
required p shell_template = p.shell_templates
required p environment = p.environments

abbrev pub available : ProjectResourceCatalog → ResourceReferenceType → List String
available c tool_group = c.tool_groups
available c mcp_server = c.mcp_servers
available c shell_template = c.shell_templates
available c environment = c.environments

abbrev pub reference : ResourceReferenceType → String → MissingResourceReference
reference kind r = record { reference_type = kind; reference = r }

In-map_reference :
    (k j : ResourceReferenceType) (r : String) (xs : List String)
    → In (reference k r) (map (reference j) xs) ↔ ((k ≡ j) × In r xs)
In-map_reference k j r [] = (λ m. absurd m, λ m. absurd m.1)
In-map_reference k j r (x ∷ xs) = ground (arith, In-map_reference k j r xs)

In-missing_for :
    (k j : ResourceReferenceType) (r : String) (xs ys : List String)
    → In (reference k r) (missing_for j xs ys) ↔ ((k ≡ j) × In r xs × (¬ In r ys))
unfolding missing_for
In-missing_for k j r xs ys =
    let kept = keep (λ x. not (elem x ys)) (sorted_set xs) in
    ground (
      arith,
      In-map_reference k j r kept,
      In-keep (λ x. not (elem x ys)) r (sorted_set xs),
      In-sorted_set r xs,
      elem_iff r ys,
    )

-- The four lists, one after another.
In-four :
    {A : Type 0} (x : A) (es ms ss ts : List A)
    → In x (es ++ (ms ++ (ss ++ ts))) ↔ (In x es ⊎ (In x ms ⊎ (In x ss ⊎ In x ts)))
In-four x es ms ss ts =
    ground (arith, In-append x es (ms ++ (ss ++ ts)), In-append x ms (ss ++ ts), In-append x ss ts)

module _ (p : PermissionImpact) (c : ProjectResourceCatalog) (r : String) where
  Missing : ResourceReferenceType → ResourceReferenceType → Type 0
  Missing k j = (k ≡ j) × In r (required p j) × (¬ In r (available c j))

  any_missing :
      (k : ResourceReferenceType)
      → (Missing k environment
          ⊎ (Missing k mcp_server ⊎ (Missing k shell_template ⊎ Missing k tool_group)))
        ↔ (In r (required p k) × (¬ In r (available c k)))
  unfolding Missing
  any_missing tool_group = ground arith
  any_missing mcp_server = ground arith
  any_missing shell_template = ground arith
  any_missing environment = ground arith

  In-find_missing :
      (k : ResourceReferenceType)
      → In (reference k r) (find_missing_references p (some c))
        ↔ (In r (required p k) × (¬ In r (available c k)))
  unfolding find_missing_references Missing
  In-find_missing k = ground (
    arith,
    In-four (reference k r) (missing_for environment p.environments c.environments)
        (missing_for mcp_server p.mcp_servers c.mcp_servers)
        (missing_for shell_template p.shell_templates c.shell_templates)
        (missing_for tool_group p.tool_groups c.tool_groups),
    In-missing_for k environment r p.environments c.environments,
    In-missing_for k mcp_server r p.mcp_servers c.mcp_servers,
    In-missing_for k shell_template r p.shell_templates c.shell_templates,
    In-missing_for k tool_group r p.tool_groups c.tool_groups,
    any_missing k,
  )

In-empty : {A : Type 0} (x : A) (xs : List A) → is_empty xs ≡ true → In x xs → ⊥
In-empty x [] h m = m
In-empty x (y ∷ xs) h m = cc

all_available :
    (p : PermissionImpact) (c : ProjectResourceCatalog)
    → (is_empty (find_missing_references p (some c)) ≡ true)
      ↔ ((k : ResourceReferenceType) (r : String) → In r (required p k) → In r (available c k))
all_available p c = (
  λ h k r m. elim (Bool-cases (elem r (available c k))) [
    | inl e ↦ (elem_iff r (available c k)).0 e
    | inr e ↦ absurd (
        In-empty (reference k r) (find_missing_references p (some c)) h
          ((In-find_missing p c r k).1 (m, λ q. cc (e, (elem_iff r (available c k)).1 q))))
  ],
  λ all. elim (List-cases (find_missing_references p (some c))) [
    | inl e ↦ rw e
    | inr (m, rest, e) ↦
        let (named, absent) =
          (In-find_missing p c m.reference m.reference_type).0 (subst (In m) (sym e) (inl refl)) in
        absurd (absent (all m.reference_type m.reference named))
  ],
)

-- A resource is reported missing exactly when the workflow names it and the catalog of the project
-- does not hold it; with a catalog, the workflow may be published or run exactly when the catalog
-- holds every resource that it names.
pub missing_references_iff :
    (differs : NodeDefinition → NodeDefinition → Bool) (w : WorkflowDefinition)
    (c : ProjectResourceCatalog) (existing : Option WorkflowDefinition)
    → let a = analyze_workflow_import differs w (some c) existing in
      ((k : ResourceReferenceType) (r : String)
        → In (reference k r) a.missing_references
          ↔ (In r (required (permission_impact w) k) × (¬ In r (available c k))))
      × ((a.can_publish_or_run ≡ true) ↔ (
          (k : ResourceReferenceType) (r : String)
          → In r (required (permission_impact w) k)
          → In r (available c k)))
unfolding analyze_workflow_import
missing_references_iff differs w c existing =
    let p = permission_impact w in (λ k r. In-find_missing p c r k, all_available p c)
