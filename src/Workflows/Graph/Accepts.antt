-- ===== src/Workflows/Graph/Accepts.antt =====
-- What the checks of a graph before the search accept, and where the search leads.
use aegis_flow.Base.{
  String, true, false, some, List, [], ◌∷◌, ◌≡◌, refl, sym, ◌↔◌, inl, arith, In, any, any_elim,
  any_intro, length, ok, ap, In-keep, subst, ◌∙◌,
}
use aegis_flow.Base.Dicts.{Dict, keys}
use aegis_flow.Workflows.Types.{
  NodeDefinition, EdgeDefinition, WorkflowDefinition, is_start, is_end, is_condition,
}
use aegis_flow.Workflows.Graph.{
  nodes_by_id, validate_edges, validate_structure, start_nodes, only_start, outgoing, targets_of,
  explore,
}
use aegis_flow.Workflows.Graph.Search.{Reach, explore_total}
use aegis_flow.Workflows.Graph.Index.{
  Distinct, In-ids, length-nodes_by_id_iff, get-nodes_by_id_sound, get-nodes_by_id_self,
  In-keys-nodes_by_id,
}
use aegis_flow.Workflows.Graph.Outgoing.{Links, outgoing_iff, outgoing_sound}
use aegis_flow.Workflows.Graph.Edges.{Declares, Accepted, validate_edges_elim, validate_edges_intro}

-- The nodes that the edges lead to from `start`.
pub data Leads (es : List EdgeDefinition) (start : String) : String → Type 0 where
  here : Leads es start start
  follow : {u v : String} → Leads es start u → Links es u v → Leads es start v

-- An edge joins two nodes of the workflow, enters no start node, leaves no end node, and takes a
-- declared case if it leaves a condition node.
pub record IsValidEdge (nodes : List NodeDefinition) (e : EdgeDefinition) : Type 0 where
  pub source : NodeDefinition
  pub target : NodeDefinition
  pub source_in : In source nodes
  pub source_named : source.id ≡ e.source
  pub target_in : In target nodes
  pub target_named : target.id ≡ e.target
  pub no_start : is_start target.type ≡ false
  pub no_end : is_end source.type ≡ false
  pub declared : is_condition source.type ≡ true → Declares source e

-- All but the reachability.
pub record IsWellFormed (w : WorkflowDefinition) (start_id : String) : Type 0 where
  pub distinct : Distinct w.nodes
  pub root : NodeDefinition
  pub only_root : start_nodes w.nodes ≡ root ∷ []
  pub root_named : root.id ≡ start_id
  pub last : NodeDefinition
  pub last_in : In last w.nodes
  pub last_end : is_end last.type ≡ true
  pub valid_edges : (e : EdgeDefinition) → In e w.edges → IsValidEdge w.nodes e

only_start_elim :
    (ns : List NodeDefinition) (k : String)
    → only_start ns ≡ ok k
    → (n : NodeDefinition) × (ns ≡ n ∷ []) × (n.id ≡ k)
unfolding only_start
only_start_elim [] k h = cc
only_start_elim (n ∷ []) k h = (n, refl, ground arith)
only_start_elim (n ∷ m ∷ ns) k h = cc

module _ (w : WorkflowDefinition) where
  abbrev pub by_id : Dict NodeDefinition
  by_id = nodes_by_id w.nodes

  record Parts (start_id : String) : Type 0 where
    size : length by_id ≡ length w.nodes
    only : only_start (start_nodes w.nodes) ≡ ok start_id
    some_end : any (λ n. is_end n.type) w.nodes ≡ true
    edges : validate_edges by_id w.edges ≡ ok tt

  structure_elim : (start_id : String) → validate_structure w ≡ ok start_id → Parts start_id
  unfolding validate_structure
  structure_elim start_id h = ground arith

  structure_intro : (start_id : String) → Parts start_id → validate_structure w ≡ ok start_id
  unfolding validate_structure
  structure_intro start_id p = ground arith

  edge_elim : (e : EdgeDefinition) → Accepted by_id e → IsValidEdge w.nodes e
  edge_elim e a =
      let (s, sn) = get-nodes_by_id_sound e.source a.source w.nodes a.source_known in
      let (t, tn) = get-nodes_by_id_sound e.target a.target w.nodes a.target_known in
      record {
        source = a.source;
        target = a.target;
        source_in = s;
        source_named = sn;
        target_in = t;
        target_named = tn;
        no_start = a.no_start;
        no_end = a.no_end;
        declared = a.declared;
      }

  edge_intro : Distinct w.nodes → (e : EdgeDefinition) → IsValidEdge w.nodes e → Accepted by_id e
  edge_intro d e v = record {
    source = v.source;
    target = v.target;
    source_known = rw (← v.source_named) (get-nodes_by_id_self v.source w.nodes d v.source_in);
    target_known = rw (← v.target_named) (get-nodes_by_id_self v.target w.nodes d v.target_in);
    no_start = v.no_start;
    no_end = v.no_end;
    declared = v.declared;
  }

  -- The checks before the search give a start node exactly when the ids of the nodes are distinct, that
  -- node is the only start node, there is an end node, and every edge is valid.
  pub validate_structure_iff :
      (start_id : String) → (validate_structure w ≡ ok start_id) ↔ IsWellFormed w start_id
  validate_structure_iff start_id = (
    λ h.
        let p = structure_elim start_id h in
        let (root, only, named) = only_start_elim (start_nodes w.nodes) start_id p.only in
        let (last, m, e) = any_elim (λ (n : NodeDefinition). is_end n.type) w.nodes p.some_end in
        record {
          distinct = (length-nodes_by_id_iff w.nodes).0 p.size;
          root = root;
          only_root = only;
          root_named = named;
          last = last;
          last_in = m;
          last_end = e;
          valid_edges = λ e m. edge_elim e (validate_edges_elim by_id w.edges p.edges e m);
        },
    λ v. structure_intro start_id (record {
      size = (length-nodes_by_id_iff w.nodes).1 v.distinct;
      only = rw v.only_root (unfold only_start in ap ok v.root_named);
      some_end = any_intro (λ n. is_end n.type) v.last w.nodes v.last_in v.last_end;
      edges =
          validate_edges_intro by_id w.edges (λ e m. edge_intro v.distinct e (v.valid_edges e m));
    }),
  )

  abbrev pub targets : String → List String
  targets = targets_of (outgoing (keys by_id) w.edges)

  module _ (start_id : String) (v : IsWellFormed w start_id) where
    pub In-keys : (n : NodeDefinition) → In n w.nodes → In n.id (keys by_id)
    In-keys n m = (In-keys-nodes_by_id n.id w.nodes).1 (In-ids n w.nodes m)

    pub start-In-keys : In start_id (keys by_id)
    start-In-keys =
        let root_in =
          ((In-keep (λ (n : NodeDefinition). is_start n.type) v.root w.nodes).0
            (subst (In v.root) (sym v.only_root) (inl refl))).0 in
        subst (λ k. In k (keys by_id)) v.root_named (In-keys v.root root_in)

    pub target-In-keys : (u t : String) → Links w.edges u t → In t (keys by_id)
    target-In-keys u t (e, m, s, q) =
        let a = v.valid_edges e m in
        subst (λ k. In k (keys by_id)) (a.target_named ∙ q) (In-keys a.target a.target_in)

    pub Leads-In-keys : {u : String} → Leads w.edges start_id u → In u (keys by_id)
    Leads-In-keys Leads.here = start-In-keys
    Leads-In-keys (Leads.follow {u} {v = t} p l) = target-In-keys u t l

    pub Reach-Leads : {u : String} → Reach targets start_id u → Leads w.edges start_id u
    Reach-Leads Reach.here = Leads.here
    Reach-Leads (Reach.step {u} {v = t} p m) =
        Leads.follow (Reach-Leads p) (outgoing_sound t u (keys by_id) w.edges m)

    pub Leads-Reach : {u : String} → Leads w.edges start_id u → Reach targets start_id u
    Leads-Reach Leads.here = Reach.here
    Leads-Reach (Leads.follow {u} {v = t} p l) =
        Reach.step (Leads-Reach p) ((outgoing_iff t u (keys by_id) w.edges (Leads-In-keys p)).1 l)

    pub explored :
        (r : List String) × (explore targets
            (length (keys by_id))
            (record { reachable = start_id ∷ []; frontier = start_id ∷ [] })
          ≡ some r)
    explored =
        explore_total targets start_id (keys by_id) start-In-keys
          (λ u t m. target-In-keys u t (outgoing_sound t u (keys by_id) w.edges m))
