-- ===== src/Engine/SubGraph/Extracted.antt =====
-- The nodes and edges of the definition that extractSubGraph returns.
use Prim.Native.String.{◌++◌ as concat}
use nsw_core.Common.{
  String, ◌≡◌, ◌≢◌, refl, some, ◌⊎◌, ◌↔◌, inl, inr, List, [], ◌∷◌, arith, In, In-append,
  In-append_left, In-append_right, str_eq, str_eq→eq, str_eq→ne, eq→str_eq, ne→str_eq, Bool-cases,
}
use nsw_core.Engine.Dsl.{NodeType, Node, Edge, WorkflowDefinition}
use nsw_core.Engine.SubGraph.{
  reachable_ids, walk_fuel, batch_start_id, batch_end_id, bare_node, kept_nodes, kept_edges,
  sub_graph_of, extract_sub_graph,
}
use nsw_core.Engine.SubGraph.Reach.{Reach, Reach-end, walk_from-Reach}
use nsw_core.Engine.SubGraph.Total.{reachable_ids_total}
use nsw_core.Engine.SubGraph.Closed.{
  HasNode, IsClosed, kept_nodes-In, In-kept_nodes, IsKept, In-kept_edges, kept_edges-In,
}

-- The edge that enters the branch.
abbrev entering : String → Edge
entering target = record {
  id = "_batch_e_start";
  source_id = batch_start_id;
  target_id = target;
  condition = "";
}

-- An edge to the join, with the END in its place.
abbrev leaving : Edge → Edge
leaving d = record {
  id = concat d.id "_to_end";
  source_id = d.source_id;
  target_id = batch_end_id;
  condition = d.condition;
}

module _ (def : WorkflowDefinition) (start stop : String) where
  -- START, END, and the nodes that a path reaches before the join.
  abbrev pub IsNode : Node → Type 0
  IsNode n =
      (n ≡ bare_node batch_start_id NodeType.start)
      ⊎ ((n ≡ bare_node batch_end_id NodeType.end)
          ⊎ (In n def.nodes × Reach def.edges stop start n.id))

  -- The edge that enters at the start, or at the END where the start is the join; and the edges of
  -- reached nodes, those to the join with the END in its place.
  abbrev pub IsEdge : Edge → Type 0
  IsEdge e =
      (((start ≢ stop) × (e ≡ entering start)) ⊎ ((start ≡ stop) × (e ≡ entering batch_end_id)))
      ⊎ ((d : Edge) × In d def.edges
          × Reach def.edges stop start d.source_id
          × (((d.target_id ≢ stop) × (e ≡ d)) ⊎ ((d.target_id ≡ stop) × (e ≡ leaving d))))

  -- What a branch runs.
  pub record IsSubGraph (sub : WorkflowDefinition) : Type 0 where
    pub nodes : (n : Node) → In n sub.nodes ↔ IsNode n
    pub edges : (e : Edge) → In e sub.edges ↔ IsEdge e

module _ (def : WorkflowDefinition) (start stop : String) (reachable : List String) where
  abbrev sub : WorkflowDefinition
  sub = sub_graph_of def start stop reachable

  sub_graph_of-nodes :
      ((x : String) → In x reachable ↔ Reach def.edges stop start x)
      → (n : Node) → In n sub.nodes ↔ IsNode def start stop n
  unfolding sub_graph_of
  sub_graph_of-nodes r n = (
    λ i. elim i [
      | inl e ↦ inl e
      | inr j ↦
          elim (In-append n (kept_nodes reachable def.nodes)
            (bare_node batch_end_id NodeType.end ∷ []) j) [
              | inl k ↦
                  let (l, x) = In-kept_nodes reachable n def.nodes k in inr (inr (l, (r n.id).0 x))
              | inr (inl e) ↦ inr (inl e)
              | inr (inr none_left) ↦ absurd none_left
            ]
    ],
    λ h. elim h [
      | inl e ↦ inl e
      | inr (inl e) ↦ inr (
          In-append_right n (kept_nodes reachable def.nodes)
            (bare_node batch_end_id NodeType.end ∷ []) (inl e))
      | inr (inr (i, p)) ↦ inr (
          In-append_left n (kept_nodes reachable def.nodes)
            (bare_node batch_end_id NodeType.end ∷ [])
            (kept_nodes-In reachable n def.nodes i ((r n.id).1 p)))
    ],
  )

  kept_edges-IsEdge :
      ((x : String) → In x reachable ↔ Reach def.edges stop start x)
      → (e : Edge) → IsKept reachable stop def.edges e
      → IsEdge def start stop e
  kept_edges-IsEdge r e (d, i, s, inl (same, t)) =
      inr (d, i, (r d.source_id).0 s, inl (Reach-end def.edges stop ((r d.target_id).0 t), same))
  kept_edges-IsEdge r e (d, i, s, inr (same, t)) = inr (d, i, (r d.source_id).0 s, inr (t, same))

  IsEdge-kept :
      ((x : String) → In x reachable ↔ Reach def.edges stop start x)
      → (e d : Edge) → In d def.edges
      → Reach def.edges stop start d.source_id
      → ((d.target_id ≢ stop) × (e ≡ d)) ⊎ ((d.target_id ≡ stop) × (e ≡ leaving d))
      → In e (kept_edges reachable stop def.edges)
  IsEdge-kept r e d i p t =
      let (inner, last) = kept_edges-In reachable stop def.edges d i ((r d.source_id).1 p) in
      elim t [
        | inl (ne, same) ↦ rw same (inner (ne, (r d.target_id).1 (Reach.step d p i ne)))
        | inr (join, same) ↦ rw same (last join)
      ]

  sub_graph_of-edges :
      ((x : String) → In x reachable ↔ Reach def.edges stop start x)
      → (e : Edge) → In e sub.edges ↔ IsEdge def start stop e
  unfolding sub_graph_of
  sub_graph_of-edges r e = (
    λ i. elim i [
      | inr j ↦ kept_edges-IsEdge r e (In-kept_edges reachable stop def.edges e j)
      | inl same ↦ elim (Bool-cases (str_eq start stop)) [
        | inl direct ↦ inl (inr (str_eq→eq start stop direct, rw direct at same))
        | inr inner ↦ inl (inl (str_eq→ne start stop inner, rw inner at same))
      ]
    ],
    λ h. elim h [
      | inl (inl (ne, same)) ↦ inl (rw (ne→str_eq start stop ne) same)
      | inl (inr (join, same)) ↦ inl (rw (eq→str_eq start stop join) same)
      | inr (d, i, p, t) ↦ inr (IsEdge-kept r e d i p t)
    ],
  )

  extract_some :
      reachable_ids def.edges start stop ≡ some reachable
      → extract_sub_graph def start stop ≡ some sub
  unfolding extract_sub_graph
  extract_some h = ground arith

  reachable-Reach :
      reachable_ids def.edges start stop ≡ some reachable
      → (x : String) → In x reachable ↔ Reach def.edges stop start x
  unfolding reachable_ids
  reachable-Reach h x = walk_from-Reach def.edges stop (walk_fuel def.edges) start reachable h x

-- The edges of a branch run between its nodes.
IsSubGraph-IsClosed :
    (def : WorkflowDefinition) (start stop : String) (sub' : WorkflowDefinition)
    → IsSubGraph def start stop sub'
    → IsClosed def.nodes def.edges
    → HasNode start def.nodes
    → IsClosed sub'.nodes sub'.edges
IsSubGraph-IsClosed def start stop sub' b c h e i =
    let first : HasNode batch_start_id sub'.nodes =
      (bare_node batch_start_id NodeType.start, (b.nodes _).1 (inl refl), refl) in
    let last : HasNode batch_end_id sub'.nodes =
      (bare_node batch_end_id NodeType.end, (b.nodes _).1 (inr (inl refl)), refl) in
    let inner : (id : String)
        → HasNode id def.nodes
        → Reach def.edges stop start id
        → HasNode id sub'.nodes =
      λ id k p. (k.0, (b.nodes k.0).1 (inr (inr (k.1, rw k.2 p))), k.2) in
    elim ((b.edges e).0 i) [
      | inl (inl (ne, same)) ↦ rw same (first, inner start h (Reach.here ne))
      | inl (inr (join, same)) ↦ rw same (first, last)
      | inr (d, j, p, inl (ne, same)) ↦
          rw same (inner d.source_id (c d j).0 p, inner d.target_id (c d j).1 (Reach.step d p j ne))
      | inr (d, j, p, inr (join, same)) ↦ rw same (inner d.source_id (c d j).0 p, last)
    ]

-- Without a condition on the definition.
pub extract_sub_graph_total :
    (def : WorkflowDefinition) (start stop : String)
    → (sub : WorkflowDefinition) × (extract_sub_graph def start stop ≡ some sub)
      × IsSubGraph def start stop sub
extract_sub_graph_total def start stop =
    let (ids, found) = reachable_ids_total def.edges stop start in
    let r = reachable-Reach def start stop ids found in
    (
      sub_graph_of def start stop ids,
      extract_some def start stop ids found,
      record {
        nodes = sub_graph_of-nodes def start stop ids r;
        edges = sub_graph_of-edges def start stop ids r;
      },
    )

-- For a definition whose edges all run between its nodes, and a start node of it, extractSubGraph
-- gives a definition whose nodes are the synthetic START and END and exactly the nodes of the
-- definition that a path from the start reaches without passing the join; whose edges are exactly
-- the one from START to the start, or to END where the start is the join, the edges of these
-- reached nodes to other nodes than the join, and their edges to the join with END in its place and
-- their condition kept; and whose edges all run between its own nodes.
pub extract_sub_graph-IsSubGraph :
    (def : WorkflowDefinition) (start stop : String)
    → IsClosed def.nodes def.edges
    → HasNode start def.nodes
    → (sub : WorkflowDefinition) × (extract_sub_graph def start stop ≡ some sub)
      × IsSubGraph def start stop sub
      × IsClosed sub.nodes sub.edges
extract_sub_graph-IsSubGraph def start stop c h =
    let (sub', found, b) = extract_sub_graph_total def start stop in
    (sub', found, b, IsSubGraph-IsClosed def start stop sub' b c h)
