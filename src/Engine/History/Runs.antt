-- ===== src/Engine/History/Runs.antt =====
-- Parks, dispatch and executeNode.
use nsw_core.Common.{ℕ, zero, suc, String, Bool, ◌||◌, Option, none, some, List}
use nsw_core.Shared.Value.{Value}
use nsw_core.Engine.Dsl.{
  NodeType, start, end, task, gateway, split_task, timer, signaling, GatewayType, exclusive_split,
  parallel_split, exclusive_join, parallel_join, batch_split, batch_join, Node, Edge,
}
use nsw_core.Engine.Park.{Failure, is_terminal_admin_error, Result, ok, err}
use nsw_core.Engine.State.{
  NodeStatus, AdminAction, retry, abort, other, AdminResolutionSignal, NodeInfo, find_node,
  find_info,
}
use nsw_core.Engine.Runtime.{Runtime}
use nsw_core.Engine.Exec.{State, Exec}
use nsw_core.Engine.Admin.{
  patch_variables, unpark, begin_park, log_notification, await_admin_resolution, give_up,
  prepare_retry, complete_parked_node, after_retry, resolve, act_on, park_node_for_admin,
}
use nsw_core.Engine.Interpreter.{
  handle_gateway_node, handler_of, dispatch_node_handler, handle_error, enter, run_node, run_found,
  execute_node,
}
use nsw_core.Engine.History.{
  Extends, History, history, bind-History, exhausted-History, gets-History, if-History,
  raise-History,
}
use nsw_core.Engine.History.Handlers.{
  mark_failed-History, mint_activation-History, follow_first-History, handle_start-History,
  handle_timer-History, handle_end-History, handle_task-History,
}
use nsw_core.Engine.History.Routes.{
  handle_signaling-History, exclusive_split_gateway-History, exclusive_join_gateway-History,
  batch_join-History, parallel_join-History,
}
use nsw_core.Engine.History.Splits.{parallel_split-History, batch_split-History}
use nsw_core.Engine.History.SplitTasks.{split_task-History}

module _ {rt : Runtime} where
  patch_variables-History : (p : List (String × Value)) → History (patch_variables {rt = rt} p)
  unfolding patch_variables
  patch_variables-History p = search history

  unpark-History : (id : String) (s : NodeStatus) → History (unpark {rt = rt} id s)
  unfolding unpark
  unpark-History id s = search history

  begin_park-History : (node : Node) (e : Failure) → History (begin_park {rt = rt} node e)
  unfolding begin_park
  begin_park-History node e = search history depth 10

  log_notification-History :
      (node : Node) (o : Option Failure) → History (log_notification {rt = rt} node o)
  unfolding log_notification
  log_notification-History node none = search history
  log_notification-History node (some f) = search history

  await_resolution-History :
      (node : Node) (e : Failure) → History (await_admin_resolution {rt = rt} node e)
  unfolding await_admin_resolution
  await_resolution-History node e = search (history, log_notification-History) depth 14

  give_up-History : (node : Node) (e : Failure) → History (give_up {rt = rt} node e)
  unfolding give_up
  give_up-History node e = search (history, mark_failed-History)

  prepare_retry-History :
      (node : Node) (p : List (String × Value)) → History (prepare_retry {rt = rt} node p)
  unfolding prepare_retry
  prepare_retry-History node p =
      search (history, patch_variables-History, unpark-History, mint_activation-History)

  module _ (next : String → Exec rt (Unit {0})) (h : (id : String) → History (next id)) where
    complete_parked-History :
        (node : Node) (es : List Edge) (p : List (String × Value))
        → History (complete_parked_node next node es p)
    unfolding complete_parked_node
    complete_parked-History node es p =
        search (history, patch_variables-History, unpark-History, follow_first-History next h)

    module _ (dispatch : Node → List Edge → Exec rt (Unit {0}))
        (d : (node : Node) (es : List Edge) → History (dispatch node es)) where
      after_retry-History :
          (again : Failure → Exec rt (Unit {0})) (r : Result (Unit {0}))
          → ((e : Failure) → History (again e))
          → History (after_retry next dispatch again r)
      unfolding after_retry
      after_retry-History again (ok u) k = search history
      after_retry-History again (err e) k =
          if-History (is_terminal_admin_error e) _ _ (raise-History e) (k e)

      resolve-History :
          (node : Node) (es : List Edge) (e : Failure) (again : Failure → Exec rt (Unit {0}))
          (action : AdminAction) (p : List (String × Value))
          → ((e : Failure) → History (again e))
          → History (resolve next dispatch node es e again action p)
      unfolding resolve
      resolve-History node es e again abort p k = give_up-History node e
      resolve-History node es e again (other text) p k = k e
      resolve-History node es e again AdminAction.complete p k =
          search (history, k, complete_parked-History)
      resolve-History node es e again retry p k =
          bind-History (prepare_retry-History node p)
            (λ u. bind-History (search (history, d)) (λ r. after_retry-History again r k))

      act_on-History :
          (node : Node) (es : List Edge) (e : Failure) (again : Failure → Exec rt (Unit {0}))
          (r : Result AdminResolutionSignal)
          → ((e : Failure) → History (again e))
          → History (act_on next dispatch node es e again r)
      unfolding act_on
      act_on-History node es e again (err f) k = give_up-History node f
      act_on-History node es e again (ok sig) k =
          bind-History (search history)
            (λ u. resolve-History node es e again sig.action sig.patch k)

      park-History :
          (n : ℕ) (node : Node) (es : List Edge) (e : Failure)
          → History (park_node_for_admin next dispatch n node es e)
      unfolding park_node_for_admin
      park-History zero node es e = exhausted-History _
      park-History (suc n) node es e = bind-History (begin_park-History node e) (λ u.
          bind-History (await_resolution-History node e) (λ r.
            act_on-History node es e (park_node_for_admin next dispatch n node es) r
              (park-History n node es)))

    module _ (n : ℕ) where
      gateway-History :
          (t : GatewayType) (node : Node) (es : List Edge)
          → History (handle_gateway_node next n t node es)
      unfolding handle_gateway_node
      gateway-History exclusive_split node es = exclusive_split_gateway-History next h node es
      gateway-History parallel_split node es = parallel_split-History next h node es
      gateway-History exclusive_join node es = exclusive_join_gateway-History next h node es
      gateway-History parallel_join node es = parallel_join-History next h node es
      gateway-History batch_split node es = batch_split-History next h node es
      gateway-History batch_join node es = batch_join-History next h node es
      gateway-History (GatewayType.other text) node es = search history

      handler_of-History :
          (t : NodeType) (node : Node) (es : List Edge) → History (handler_of next n t node es)
      unfolding handler_of
      handler_of-History start node es = handle_start-History next h node es
      handler_of-History end node es = handle_end-History node
      handler_of-History task node es = handle_task-History next h node es
      handler_of-History gateway node es = gateway-History node.gateway_type node es
      handler_of-History split_task node es = split_task-History next h n node es
      handler_of-History timer node es = handle_timer-History next h node es
      handler_of-History signaling node es = handle_signaling-History next h node es
      handler_of-History (NodeType.other text) node es = search history

      dispatch-History :
          (node : Node) (es : List Edge) → History (dispatch_node_handler next n node es)
      unfolding dispatch_node_handler
      dispatch-History node es = handler_of-History node.type node es

      handle_error-History :
          (node : Node) (es : List Edge) (b : Bool) (r : Result (Unit {0}))
          → History (handle_error next n node es b r)
      unfolding handle_error
      handle_error-History node es b (ok u) = search history
      handle_error-History node es b (err e) =
          if-History (b || is_terminal_admin_error e) _ _ (raise-History e)
            (park-History (dispatch_node_handler next n) dispatch-History n node es e)

      enter-History : (id : String) → History (enter next n id)
      unfolding enter
      enter-History id = search (history, mint_activation-History)

      run_node-History : (node : Node) → History (run_node next n node)
      unfolding run_node
      run_node-History node =
          search (history, enter-History, dispatch-History, handle_error-History) depth 10

      run_found-History :
          (id : String) (o : Option Node) (i : Option NodeInfo) → History (run_found next n id o i)
      unfolding run_found
      run_found-History id (some node) (some info) = run_node-History node
      run_found-History id none i = search history
      run_found-History id (some node) none = search history

  execute_node-History : (n : ℕ) (id : String) → History (execute_node {rt = rt} n id)
  unfolding execute_node
  execute_node-History zero id = exhausted-History _
  execute_node-History (suc n) id = bind-History (gets-History _) (λ g.
      run_found-History (execute_node n) (execute_node-History n) n id (find_node id g.def.nodes)
        (find_info id g.instance.node_info))

  -- For every runtime, fuel, node and state, and however executeNode ends: the definition and the
  -- ID of the execution stay, the step counter does not go down, the audit trail is only added to,
  -- and where no node had a step number above the counter before, none has one after.
  pub execute_node-Extends :
      (n : ℕ) (id : String) (s : State rt) → Extends s.g (execute_node n id s).1.g
  execute_node-Extends n id s = (execute_node-History n id).at s
