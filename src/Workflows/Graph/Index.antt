-- ===== src/Workflows/Graph/Index.antt =====
-- The dict `nodes_by_id` of `validate_graph`: its size shows duplicates, its lookups find the nodes.
use aegis_flow.Base.{
  ◌+◌, ◌≤◌, String, none, some, List, [], ◌∷◌, map, ◌≡◌, refl, sym, ◌↔◌, ◌⊎◌, inl, inr, arith,
  length, In, All, eq_iff, eq_refl, ap, ◌∙◌, ⊎_elim,
}
use aegis_flow.Base.Dicts.{Dict, get, put, keys, get-put, length-put}
use aegis_flow.Workflows.Types.{NodeDefinition}
use aegis_flow.Workflows.Graph.{index_from, nodes_by_id}

abbrev pub ids : List NodeDefinition → List String
ids = map (λ n. n.id)

-- No two nodes of the list have one id.
abbrev pub Distinct : List NodeDefinition → Type 0
Distinct [] = Unit
Distinct (n ∷ ns) = (¬ In n.id (ids ns)) × Distinct ns

abbrev Fresh : Dict NodeDefinition → List NodeDefinition → Type 0
Fresh d = All (λ n. get n.id d ≡ none)

Fresh-nil : (ns : List NodeDefinition) → Fresh [] ns
unfolding get
Fresh-nil [] = tt
Fresh-nil (n ∷ ns) = (refl, Fresh-nil ns)

length-index_from_le :
    (d : Dict NodeDefinition) (ns : List NodeDefinition)
    → length (index_from d ns) ≤ length d + length ns
unfolding index_from
length-index_from_le d [] = omega arith
length-index_from_le d (n ∷ ns) =
    ground (arith, length-index_from_le (put n.id n d) ns, length-put n.id n d)

Fresh-put :
    (n : NodeDefinition) (d : Dict NodeDefinition) (ns : List NodeDefinition)
    → Fresh (put n.id n d) ns ↔ ((¬ In n.id (ids ns)) × Fresh d ns)
Fresh-put n d [] = (λ _. (λ m. m, tt), λ _. tt)
Fresh-put n d (m ∷ ns) = ground (arith, get-put m.id n.id n d, eq_iff n.id m.id, Fresh-put n d ns)

length-index_from_iff :
    (d : Dict NodeDefinition) (ns : List NodeDefinition)
    → (length (index_from d ns) ≡ length d + length ns) ↔ (Distinct ns × Fresh d ns)
unfolding index_from
length-index_from_iff d [] = (λ _. (tt, tt), λ _. omega arith)
length-index_from_iff d (n ∷ ns) = ground (
  arith,
  length-index_from_iff (put n.id n d) ns,
  length-index_from_le (put n.id n d) ns,
  length-put n.id n d,
  Fresh-put n d ns,
)

get-index_from_absent :
    (k : String) (d : Dict NodeDefinition) (ns : List NodeDefinition)
    → (¬ In k (ids ns))
    → get k (index_from d ns) ≡ get k d
unfolding index_from
get-index_from_absent k d [] h = refl
get-index_from_absent k d (n ∷ ns) h =
    ground (arith, get-index_from_absent k (put n.id n d) ns, get-put k n.id n d, eq_iff n.id k)

-- What a lookup finds is a node with that id, or an entry of the dict before.
get-index_from_sound :
    (k : String) (n : NodeDefinition) (d : Dict NodeDefinition) (ns : List NodeDefinition)
    → get k (index_from d ns) ≡ some n
    → In n ns × (n.id ≡ k) ⊎ (get k d ≡ some n)
unfolding index_from
get-index_from_sound k n d [] h = inr h
get-index_from_sound k n d (m ∷ ns) h =
    ground (arith, get-index_from_sound k n (put m.id m d) ns h, get-put k m.id m d, eq_iff m.id k)

pub In-ids : (n : NodeDefinition) (ns : List NodeDefinition) → In n ns → In n.id (ids ns)
In-ids n [] m = m
In-ids n (k ∷ ns) (inl e) = inl (ap (λ (x : NodeDefinition). x.id) e)
In-ids n (k ∷ ns) (inr m) = inr (In-ids n ns m)

pub In-ids_elim :
    (k : String) (ns : List NodeDefinition)
    → In k (ids ns)
    → (n : NodeDefinition) × In n ns × (n.id ≡ k)
In-ids_elim k [] m = absurd m
In-ids_elim k (n ∷ ns) (inl e) = (n, inl refl, sym e)
In-ids_elim k (n ∷ ns) (inr m) =
    let (found, here, named) = In-ids_elim k ns m in (found, inr here, named)

get-index_from_self :
    (n : NodeDefinition) (d : Dict NodeDefinition) (ns : List NodeDefinition)
    → Distinct ns
    → In n ns
    → get n.id (index_from d ns) ≡ some n
unfolding index_from
get-index_from_self n d [] h m = absurd m
get-index_from_self n d (k ∷ ns) h (inl e) = rw e (
    get-index_from_absent k.id (put k.id k d) ns h.0
    ∙ ground (arith, get-put k.id k.id k d, eq_refl k.id))
get-index_from_self n d (k ∷ ns) h (inr m) = get-index_from_self n (put k.id k d) ns h.1 m

In-keys-put :
    (j k : String) (v : NodeDefinition) (d : Dict NodeDefinition)
    → In j (keys (put k v d)) ↔ ((j ≡ k) ⊎ In j (keys d))
unfolding put
In-keys-put j k v [] = ground arith
In-keys-put j k v ((i, w) ∷ d) = ground (arith, eq_iff i k, In-keys-put j k v d)

In-keys-index_from :
    (j : String) (d : Dict NodeDefinition) (ns : List NodeDefinition)
    → In j (keys (index_from d ns)) ↔ (In j (keys d) ⊎ In j (ids ns))
unfolding index_from
In-keys-index_from j d [] = ground arith
In-keys-index_from j d (n ∷ ns) =
    ground (arith, In-keys-index_from j (put n.id n d) ns, In-keys-put j n.id n d)

-- The dict has as many entries as the list has nodes exactly when no id stands twice.
pub length-nodes_by_id_iff :
    (ns : List NodeDefinition) → (length (nodes_by_id ns) ≡ length ns) ↔ Distinct ns
unfolding nodes_by_id
length-nodes_by_id_iff ns = (
  λ h. ((length-index_from_iff [] ns).0 (h ∙ omega arith)).0,
  λ h. (length-index_from_iff [] ns).1 (h, Fresh-nil ns) ∙ omega arith,
)

pub get-nodes_by_id_sound :
    (k : String) (n : NodeDefinition) (ns : List NodeDefinition)
    → get k (nodes_by_id ns) ≡ some n
    → In n ns × (n.id ≡ k)
unfolding nodes_by_id get
get-nodes_by_id_sound k n ns h = ⊎_elim (λ m. m) (λ e. cc) (get-index_from_sound k n [] ns h)

pub get-nodes_by_id_self :
    (n : NodeDefinition) (ns : List NodeDefinition)
    → Distinct ns
    → In n ns
    → get n.id (nodes_by_id ns) ≡ some n
unfolding nodes_by_id
get-nodes_by_id_self n = get-index_from_self n []

pub In-keys-nodes_by_id :
    (j : String) (ns : List NodeDefinition) → In j (keys (nodes_by_id ns)) ↔ In j (ids ns)
unfolding nodes_by_id
In-keys-nodes_by_id j ns = (
  λ m. ⊎_elim (λ q. absurd q) (λ q. q) ((In-keys-index_from j [] ns).0 m),
  λ m. (In-keys-index_from j [] ns).1 (inr m),
)
