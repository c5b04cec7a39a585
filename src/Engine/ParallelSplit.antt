-- ===== src/Engine/ParallelSplit.antt =====
-- handleParallelSplitGateway of workflow/parallel_gateway.go.
pub mod Started
use nsw_core.Common.{
  String, Bool, Option, none, some, List, [], ◌∷◌, map, str_eq, if◌then◌else◌, length, sort_texts,
}
use nsw_core.Shared.Value.{Fields, copy_map}
use nsw_core.Engine.Dsl.{Mapping, Node, Edge, WorkflowDefinition}
use nsw_core.Engine.Park.{
  wrap, gateway_condition, definition_error, child_failure, split_data, child_failed,
  missing_child_output, invalid_definition, invalid_items, Result, ok, err, tagged,
}
use nsw_core.Engine.Items.{evaluate_condition}
use nsw_core.Engine.BatchResults.{ChildOutput, failed, no_output, output}
use nsw_core.Engine.ParallelMerge.{merge_parallel_branches}
use nsw_core.Engine.SubGraph.{find_paired_parallel_join, extract_sub_graph}
use nsw_core.Engine.Ids.{format_child_workflow_id}
use nsw_core.Engine.State.{parallel_merged, find_node}
use nsw_core.Engine.Runtime.{Runtime}
use nsw_core.Engine.Exec.{
  Exec, exhausted, ◌>>=◌, ◌>>◌, pure, raise, throw, lift, gets, perform, set_info, log,
  set_variables, variables,
}
use nsw_core.Engine.Nodes.{case_id, complete_node}
use nsw_core.Engine.Gateways.{skip_to_join_out_edge}

-- edgeByID[id]: the last edge of that ID.
unfoldable pub edge_by_id : String → List Edge → Option Edge
edge_by_id id [] = none
edge_by_id id (e ∷ es) = elim (edge_by_id id es) [
  | some d ↦ some d
  | none ↦ if str_eq e.id id then some e else none
]

-- The edges' conditions in the variables before the split: the IDs of those that hold.
unfoldable pub matched_edges :
    (String → Fields → Result Bool) → Fields → List Edge → Result (List String)
matched_edges expr vars [] = ok []
matched_edges expr vars (e ∷ es) = elim (evaluate_condition expr e.condition vars) [
  | err f ↦ err (tagged gateway_condition f)
  | ok matched ↦ elim (matched_edges expr vars es) [
    | err f ↦ err f
    | ok ids ↦ ok (if matched then e.id ∷ ids else ids)
  ]
]

abbrev pub merge_by_id_of : Option Node → Mapping
merge_by_id_of none = []
merge_by_id_of (some n) = elim n.parallel_join [ none ↦ [] | some c ↦ c.merge_by_id ]

-- parallelBranch: an edge and the ID of the workflow that runs it.
abbrev pub Branch : Type 0
Branch = String × String

abbrev pub workflow_of : Branch → String
workflow_of b = b.1

abbrev pub target_of : Option Edge → String
target_of none = ""
target_of (some e) = e.target_id

module _ {rt : Runtime} where
  unfoldable pub spawn_child : String → Fields → Option WorkflowDefinition → Exec rt String
  unfolding perform exhausted
  spawn_child id vars none = exhausted
  spawn_child id vars (some sub) = perform (λ w.
      (id, rt.start_child (record { workflow_id = id; definition = sub; variables = vars }) w))

  -- A child workflow over the sub-graph from the target of an edge up to the join. The walk of the
  -- sub-graph has the fuel that `extract_sub_graph` gives it.
  unfoldable pub start_branch : String → String → String → Fields → String → Exec rt String
  unfolding gets spawn_child
  start_branch node_id edge_id target vars join = do
    g ← gets (λ g. g)
    let id = format_child_workflow_id rt.hash_hex (case_id g) g.instance.id node_id edge_id
    spawn_child id vars (extract_sub_graph g.def target join)

  unfoldable pub start_branches :
      Node → List Edge → String → Fields → List String → Exec rt (List Branch)
  unfolding start_branch pure
  start_branches node out join base [] = pure []
  start_branches node out join base (id ∷ ids) = do
    child ← start_branch node.id id (target_of (edge_by_id id out)) (copy_map base) join
    rest ← start_branches node out join base ids
    pure ((id, child) ∷ rest)

  unfoldable pub branch_variables : String → ChildOutput → Exec rt Fields
  unfolding pure raise throw
  branch_variables edge_id (failed f) = raise (tagged child_failure (wrap (child_failed edge_id) f))
  branch_variables edge_id no_output = throw child_failure (missing_child_output edge_id)
  branch_variables edge_id (output vars) = pure vars

  -- Waits for the branches in their order.
  unfoldable pub await_branches : List Branch → Exec rt (List Fields)
  unfolding perform pure branch_variables
  await_branches [] = pure []
  await_branches ((edge_id, child) ∷ bs) = do
    result ← perform (rt.await_child child)
    vars ← branch_variables edge_id result
    rest ← await_branches bs
    pure (vars ∷ rest)

  unfoldable pub merge_result : String → Result Fields → Exec rt Fields
  unfolding pure raise
  merge_result id (ok vars) = pure vars
  merge_result id (err f) = raise (tagged split_data (wrap (invalid_items id) f))

  -- Spawns the branches of the matched edges, waits for all of them, and merges their variables.
  unfoldable pub run_branches : Node → List Edge → String → List String → Exec rt (Unit {0})
  unfolding variables gets start_branches set_info await_branches merge_result
      merge_parallel_branches set_variables log
  run_branches node out join ids = do
    vars ← variables
    let base = copy_map vars
    by_id ← gets (λ g. merge_by_id_of (find_node join g.def.nodes))
    branches ← start_branches node out join base ids
    set_info node.id (λ i. record i { child_workflow_ids = sort_texts (map workflow_of branches) })
    results ← await_branches branches
    merged ← merge_result node.id (merge_parallel_branches rt.sprint base results by_id)
    set_variables merged
    log (parallel_merged node.id (length branches))

  -- The paired join, which has to be there.
  unfoldable pub require_join : Node → String → Exec rt (Unit {0})
  unfolding throw pure
  require_join node join =
      if str_eq join "" then throw definition_error (invalid_definition node.id) else pure tt

  unfoldable pub run_matched : Node → List Edge → String → List String → Exec rt (Unit {0})
  unfolding run_branches pure
  run_matched node out join [] = pure tt
  run_matched node out join (id ∷ ids) = run_branches node out join (sort_texts (id ∷ ids))

  unfoldable pub handle_parallel_split_gateway :
      (String → Exec rt (Unit {0})) → Node → List Edge → Exec rt (Unit {0})
  unfolding gets variables lift matched_edges require_join run_matched complete_node
      skip_to_join_out_edge
  handle_parallel_split_gateway next node out = do
    join ← gets (λ g. find_paired_parallel_join g.def.nodes node.id)
    require_join node join
    vars ← variables
    ids ← lift (matched_edges rt.expr vars out)
    run_matched node out join ids
    complete_node node.id
    skip_to_join_out_edge next join
