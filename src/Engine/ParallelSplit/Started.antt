-- ===== src/Engine/ParallelSplit/Started.antt =====
-- The starts of the branches' child workflows.
use nsw_core.Common.{
  String, ◌≡◌, refl, sym, subst, arith, ◌∙◌, some, inl, inr, List, [], ◌∷◌, In, str_eq, str_eq→eq,
  eq→str_eq, Option-cases, Bool-cases,
}
use nsw_core.Shared.Value.{Fields, copy_map}
use nsw_core.Engine.Dsl.{Node, Edge, WorkflowDefinition}
use nsw_core.Engine.SubGraph.{extract_sub_graph}
use nsw_core.Engine.SubGraph.Extracted.{IsSubGraph, extract_sub_graph_total}
use nsw_core.Engine.Ids.{format_child_workflow_id}
use nsw_core.Engine.State.{Interp}
use nsw_core.Engine.Runtime.{Runtime}
use nsw_core.Engine.Exec.{done, State, ◌>>=◌, pure, gets, perform}
use nsw_core.Engine.Nodes.{case_id}
use nsw_core.Engine.ParallelSplit.{Branch, edge_by_id, spawn_child, start_branch, start_branches}

-- An edge of the list has the ID.
abbrev pub HasEdge : List Edge → String → Type 0
HasEdge out id = (e : Edge) × In e out × (e.id ≡ id)

edge_by_id-In :
    (id : String) (out : List Edge) (e : Edge) → edge_by_id id out ≡ some e → In e out × (e.id ≡ id)
unfolding edge_by_id
edge_by_id-In id [] e h = absurd (ground arith)
edge_by_id-In id (x ∷ out) e h = elim (Option-cases (edge_by_id id out)) [
  | inr (d, found) ↦ let (i, p) = edge_by_id-In id out e (found ∙ (rw found at h)) in (inr i, p)
  | inl gone ↦ elim (Bool-cases (str_eq x.id id)) [
    | inl same ↦
        let q : x ≡ e = ground arith in
        (inl (sym q), subst (λ (y : Edge). y.id ≡ id) q (str_eq→eq x.id id same))
    | inr other ↦ absurd (ground arith)
  ]
]

edge_by_id-HasEdge :
    (id : String) (out : List Edge) → HasEdge out id → (e : Edge) × (edge_by_id id out ≡ some e)
unfolding edge_by_id
edge_by_id-HasEdge id [] (d, i, p) = elim i [ ]
edge_by_id-HasEdge id (x ∷ out) (d, inl same, p) = elim (Option-cases (edge_by_id id out)) [
  | inr (e, found) ↦ (e, rw found refl)
  | inl gone ↦
      let q = eq→str_eq x.id id (subst (λ (y : Edge). y.id ≡ id) same p) in (x, rw (gone, q) refl)
]
edge_by_id-HasEdge id (x ∷ out) (d, inr i, p) =
    let (e, found) = edge_by_id-HasEdge id out (d, i, p) in (e, rw found refl)

module _ (rt : Runtime) (out : List Edge) (node_id join : String) (vars : Fields) (g : Interp) where
  abbrev pub child_of : String → String
  child_of id = format_child_workflow_id rt.hash_hex (case_id g) g.instance.id node_id id

  -- For each edge in its order, one child runs the part of the definition between the target of the
  -- edge and the join, on a copy of the variables.
  pub data Started : List String → rt.World → List Branch → rt.World → Type 0 where
    all_started : (w : rt.World) → Started [] w [] w
    next_started :
        (id : String) (ids : List String) (e : Edge) (sub : WorkflowDefinition) (w v : rt.World)
        (bs : List Branch)
        → In e out
        → e.id ≡ id
        → IsSubGraph g.def e.target_id join sub
        → Started ids
            (rt.start_child
              (record { workflow_id = child_of id; definition = sub; variables = copy_map vars })
              w)
            bs
            v
        → Started (id ∷ ids) w ((id, child_of id) ∷ bs) v

module _ {rt : Runtime} where
  start_branch_done :
      (node_id edge_id target : String) (vars : Fields) (join : String) (s : State rt)
      (sub : WorkflowDefinition)
      → extract_sub_graph s.g.def target join ≡ some sub
      → start_branch node_id edge_id target vars join s ≡ (
        done (format_child_workflow_id rt.hash_hex (case_id s.g) s.g.instance.id node_id edge_id),
        record s {
          world =
              rt.start_child
                (record {
                  workflow_id =
                      format_child_workflow_id rt.hash_hex
                        (case_id s.g)
                        s.g.instance.id
                        node_id
                        edge_id;
                  definition = sub;
                  variables = vars;
                })
                s.world;
        },
      )
  unfolding start_branch spawn_child gets perform ◌>>=◌
  start_branch_done node_id edge_id target vars join s sub found = rw found refl

  -- Where each of the given edge IDs is the ID of an outgoing edge, the start of the branches of a
  -- PARALLEL_SPLIT ends without an error, with one branch for each ID in their order, and has
  -- changed nothing but the world, in which one child after the other was started: under the ID
  -- that FormatChildWorkflowID makes of the edge, with a copy of the variables, over a definition
  -- whose nodes are START, END and exactly those that a path from the target of the edge reaches
  -- before the join, and whose edges are exactly the entry and the edges of these nodes, with END
  -- in place of the join.
  pub start_branches-Started :
      (node : Node) (out : List Edge) (join : String) (vars : Fields) (ids : List String)
      (s : State rt)
      → ((id : String) → In id ids → HasEdge out id)
      → (bs : List Branch) × (w : rt.World) × (start_branches node out join vars ids s
          ≡ (done bs, record s { world = w }))
        × Started rt out node.id join vars s.g ids s.world bs w
  unfolding start_branches pure ◌>>=◌
  start_branches-Started node out join vars [] s named =
      ([], s.world, refl, Started.all_started s.world)
  start_branches-Started node out join vars (id ∷ ids) s named =
      let (e, at_id) = edge_by_id-HasEdge id out (named id (inl refl)) in
      let (i, same) = edge_by_id-In id out e at_id in
      let (sub, found, b) = extract_sub_graph_total s.g.def e.target_id join in
      let one = start_branch_done node.id id e.target_id (copy_map vars) join s sub found in
      let s' : State rt = record s {
        world =
            rt.start_child
              (record {
                workflow_id = child_of rt out node.id join vars s.g id;
                definition = sub;
                variables = copy_map vars;
              })
              s.world;
      } in
      let (bs, w, rest, t) =
        start_branches-Started node out join vars ids s' (λ x j. named x (inr j)) in
      (
        (id, child_of rt out node.id join vars s.g id) ∷ bs,
        w,
        rw (at_id, one, rest) refl,
        Started.next_started id ids e sub s.world w bs i same b t,
      )
