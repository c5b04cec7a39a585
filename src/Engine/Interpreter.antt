-- ===== src/Engine/Interpreter.antt =====
-- GraphInterpreterWorkflow, executeNode and dispatchNodeHandler of workflow/workflow.go.
pub mod Contained
use nsw_core.Common.{
  ℕ, zero, suc, ◌+◌, String, Bool, true, false, ◌||◌, Option, none, some, List, [], ◌∷◌, str_eq,
  if◌then◌else◌,
}
use nsw_core.Shared.Value.{Value, str, Fields, find, put}
use nsw_core.Engine.Dsl.{
  NodeType, start, end, task, gateway, split_task, timer, signaling, GatewayType, exclusive_split,
  parallel_split, exclusive_join, parallel_join, batch_split, batch_join, Node, Edge,
  WorkflowDefinition, var_case_id,
}
use nsw_core.Engine.Park.{
  ParkCategory, Failure, plain, definition_error, invalid_definition, node_not_found,
  is_terminal_admin_error, Result, ok, err,
}
use nsw_core.Engine.State.{
  NodeStatus, ExecutionStatus, NodeInfo, WorkflowInstance, Interp, find_node, find_info, out_edges,
}
use nsw_core.Engine.Runtime.{Runtime}
use nsw_core.Engine.Exec.{
  Exec, exhausted, ◌>>=◌, ◌>>◌, pure, raise, throw, gets, observe, set_info, attempt,
}
use nsw_core.Engine.Nodes.{case_id_of, mint_activation}
use nsw_core.Engine.Nodes.Handlers.{handle_start, handle_timer, handle_end, handle_task}
use nsw_core.Engine.Gateways.{
  exclusive_split_gateway, exclusive_join_gateway, handle_batch_join_gateway,
  handle_parallel_join_gateway,
}
use nsw_core.Engine.ParallelSplit.{handle_parallel_split_gateway}
use nsw_core.Engine.BatchSplit.Handler.{handle_batch_split_gateway}
use nsw_core.Engine.Signaling.{handle_signaling}
use nsw_core.Engine.SplitTask.Monitor.{handle_split_task_node}
use nsw_core.Engine.Admin.{park_node_for_admin}

module _ {rt : Runtime} where
  module _ (next : String → Exec rt (Unit {0})) (fuel : ℕ) where
    unfoldable pub handle_gateway_node : GatewayType → Node → List Edge → Exec rt (Unit {0})
    unfolding throw
    handle_gateway_node exclusive_split node out = exclusive_split_gateway next node out
    handle_gateway_node parallel_split node out = handle_parallel_split_gateway next node out
    handle_gateway_node exclusive_join node out = exclusive_join_gateway next node out
    handle_gateway_node parallel_join node out = handle_parallel_join_gateway next node out
    handle_gateway_node batch_split node out = handle_batch_split_gateway next node out
    handle_gateway_node batch_join node out = handle_batch_join_gateway next node out
    handle_gateway_node (GatewayType.other text) node out =
        throw definition_error (invalid_definition node.id)

    unfoldable pub handler_of : NodeType → Node → List Edge → Exec rt (Unit {0})
    unfolding handle_gateway_node throw
    handler_of start node out = handle_start next node out
    handler_of end node out = handle_end node
    handler_of task node out = handle_task next node out
    handler_of gateway node out = handle_gateway_node node.gateway_type node out
    handler_of split_task node out = handle_split_task_node next fuel node out
    handler_of timer node out = handle_timer next node out
    handler_of signaling node out = handle_signaling next node out
    handler_of (NodeType.other text) node out = throw definition_error (invalid_definition node.id)

    unfoldable pub dispatch_node_handler : Node → List Edge → Exec rt (Unit {0})
    unfolding handler_of
    dispatch_node_handler node out = handler_of node.type node out

    -- An error parks the node, unless the workflow is cancelled or the error is terminal.
    unfoldable pub handle_error : Node → List Edge → Bool → Result (Unit {0}) → Exec rt (Unit {0})
    unfolding pure raise park_node_for_admin
    handle_error node out stopped (ok u) = pure tt
    handle_error node out stopped (err e) =
        if stopped || is_terminal_admin_error e
        then raise e
        else park_node_for_admin next dispatch_node_handler fuel node out e

    unfoldable pub enter : String → Exec rt (Unit {0})
    unfolding observe set_info mint_activation
    enter id = do
      t ← observe rt.now
      set_info id (λ i. record i { status = NodeStatus.running; updated_at = t })
      mint_activation id

    unfoldable pub run_node : Node → Exec rt (Unit {0})
    unfolding enter gets attempt observe handle_error
    run_node node = do
      out ← gets (λ g. out_edges node.id g.def.edges)
      enter node.id
      result ← attempt (dispatch_node_handler node out)
      stopped ← observe rt.is_cancelled
      handle_error node out stopped result

    unfoldable pub run_found : String → Option Node → Option NodeInfo → Exec rt (Unit {0})
    unfolding raise run_node
    run_found id (some node) (some info) = run_node node
    run_found id _ _ = raise (plain (node_not_found id))

  -- One unit of fuel for each node on the path, for each round of a park and for each event of a split.
  unfoldable pub execute_node : ℕ → String → Exec rt (Unit {0})
  unfolding exhausted gets run_found
  execute_node zero id = exhausted
  execute_node (suc n) id = do
    g ← gets (λ g. g)
    run_found (execute_node n) n id (find_node id g.def.nodes) (find_info id g.instance.node_info)
