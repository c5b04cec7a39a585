-- ===== src/Engine/History/SplitTasks.antt =====
-- The handler of SPLIT_TASK nodes.
use nsw_core.Common.{ℕ, zero, suc, String, Option, none, some, List, [], ◌∷◌, is_empty}
use nsw_core.Shared.Value.{Value, Items, Fields}
use nsw_core.Engine.Dsl.{FailureMode, SplitTaskConfig, Node, Edge, WorkflowDefinition}
use nsw_core.Engine.Park.{Failure, Result, ok, err}
use nsw_core.Engine.Runtime.{Runtime, BroadcastMessage, ChildEvent, finished, broadcast}
use nsw_core.Engine.Exec.{Exec}
use nsw_core.Engine.SplitTask.{
  ActiveBranch, PreparedBranch, Definitions, fetched_definition, fetch_definitions, start_defined,
  start_split_child, start_split_children, await_starts,
}
use nsw_core.Engine.SplitTask.Monitor.{
  Progress, send_all, cancel_all, on_event, stop_early, monitor, write_results, report_failures,
  monitor_child_workflows, spawn_child_workflows, run_split, items_value, split_items, split_config,
  handle_split_task_node,
}
use nsw_core.Engine.History.{
  History, history, bind-History, perform-History, pure-History, gets-History, if-History,
  exhausted-History,
}
use nsw_core.Engine.History.Handlers.{
  check-History, complete_node-History, mark_failed-History, follow_first-History,
}

module _ {rt : Runtime} where
  fetched-History :
      (id : String) (r : Result WorkflowDefinition) → History (fetched_definition {rt = rt} id r)
  unfolding fetched_definition
  fetched-History id (ok d) = search history
  fetched-History id (err f) = search history

  fetch_definitions-History : (ids : List String) → History (fetch_definitions {rt = rt} ids)
  unfolding fetch_definitions
  fetch_definitions-History [] = search history
  fetch_definitions-History (id ∷ ids) = bind-History (gets-History _) (λ version.
      bind-History (perform-History _) (λ r.
        bind-History (fetched-History id r)
          (λ d. bind-History (fetch_definitions-History ids) (λ rest. pure-History _))))

  start_defined-History :
      (a : ActiveBranch) (vars : Fields) (t : String) (o : Option WorkflowDefinition)
      → History (start_defined {rt = rt} a vars t o)
  unfolding start_defined
  start_defined-History a vars t none = search history
  start_defined-History a vars t (some d) = search history

  start_split_child-History :
      (node : Node) (key : String) (defs : Definitions) (b : PreparedBranch)
      → History (start_split_child {rt = rt} node key defs b)
  unfolding start_split_child
  start_split_child-History node key defs b = search (history, start_defined-History)

  start_split_children-History :
      (node : Node) (key : String) (defs : Definitions) (bs : List PreparedBranch)
      → History (start_split_children {rt = rt} node key defs bs)
  unfolding start_split_children
  start_split_children-History node key defs [] = search history
  start_split_children-History node key defs (b ∷ bs) =
      bind-History (start_split_child-History node key defs b)
        (λ a. bind-History (start_split_children-History node key defs bs) (λ rest. pure-History _))

  await_starts-History : (bs : List ActiveBranch) → History (await_starts {rt = rt} bs)
  unfolding await_starts
  await_starts-History [] = search history
  await_starts-History (b ∷ bs) =
      bind-History (perform-History _)
        (λ r. bind-History (await_starts-History bs) (λ rest. pure-History _))

  send_all-History :
      (ids : List String) (msg : BroadcastMessage) → History (send_all {rt = rt} ids msg)
  unfolding send_all
  send_all-History [] msg = search history
  send_all-History (id ∷ ids) msg = bind-History (perform-History _) (λ u. send_all-History ids msg)

  cancel_all-History : (ids : List String) → History (cancel_all {rt = rt} ids)
  unfolding cancel_all
  cancel_all-History [] = search history
  cancel_all-History (id ∷ ids) = bind-History (perform-History _) (λ u. cancel_all-History ids)

  on_event-History : (e : ChildEvent) (p : Progress) → History (on_event {rt = rt} e p)
  unfolding on_event
  on_event-History (finished id r) p = search history
  on_event-History (broadcast msg) p = bind-History (send_all-History _ msg) (λ u. pure-History p)

  stop_early-History :
      (node : Node) (mode : FailureMode) (p : Progress) (fs : List Failure)
      → History (stop_early {rt = rt} node mode p fs)
  unfolding stop_early
  stop_early-History node mode p [] = search history
  stop_early-History node mode p (f ∷ fs) =
      search (history, mark_failed-History, cancel_all-History)

  monitor-History :
      (n : ℕ) (node : Node) (mode : FailureMode) (p : Progress)
      → History (monitor {rt = rt} n node mode p)
  unfolding monitor
  monitor-History zero node mode p =
      if-History (is_empty p.active) _ _ (pure-History p) (exhausted-History _)
  monitor-History (suc n) node mode p = if-History (is_empty p.active) _ _ (pure-History p) (
      bind-History (perform-History _) (λ e. bind-History (on_event-History e p) (λ p'.
        bind-History (stop_early-History node mode p' p'.failures)
          (λ u. monitor-History n node mode p'))))

  write_results-History :
      (name : String) (rs : List Fields) → History (write_results {rt = rt} name rs)
  unfolding write_results
  write_results-History name rs = search history

  report_failures-History :
      (node : Node) (mode : FailureMode) (fs : List Failure)
      → History (report_failures {rt = rt} node mode fs)
  unfolding report_failures
  report_failures-History node mode [] = search history
  report_failures-History node mode (f ∷ fs) = search (history, mark_failed-History)

  monitor_child-History :
      (n : ℕ) (node : Node) (c : SplitTaskConfig) (bs : List ActiveBranch)
      → History (monitor_child_workflows {rt = rt} n node c bs)
  unfolding monitor_child_workflows
  monitor_child-History n node c bs =
      search (history, monitor-History, write_results-History, report_failures-History)

  spawn-History :
      (node : Node) (c : SplitTaskConfig) (xs : Items)
      → History (spawn_child_workflows {rt = rt} node c xs)
  unfolding spawn_child_workflows
  spawn-History node c xs =
      search (history, fetch_definitions-History, start_split_children-History)

  run_split-History :
      (n : ℕ) (node : Node) (c : SplitTaskConfig) (xs : Items)
      → History (run_split {rt = rt} n node c xs)
  unfolding run_split
  run_split-History n node c xs =
      search (history, spawn-History, await_starts-History, check-History, monitor_child-History)
        depth 14

  items_value-History :
      (c : SplitTaskConfig) (o : Option Value) → History (items_value {rt = rt} c o)
  unfolding items_value
  items_value-History c none = search history
  items_value-History c (some v) = search history

  split_items-History : (c : SplitTaskConfig) → History (split_items {rt = rt} c)
  unfolding split_items
  split_items-History c = search (history, items_value-History)

  split_config-History :
      (node : Node) (o : Option SplitTaskConfig) → History (split_config {rt = rt} node o)
  unfolding split_config
  split_config-History node none = search history
  split_config-History node (some c) = search history

  pub split_task-History :
      (next : String → Exec rt (Unit {0})) (h : (id : String) → History (next id)) (n : ℕ)
      (node : Node) (es : List Edge)
      → History (handle_split_task_node next n node es)
  unfolding handle_split_task_node
  split_task-History next h n node es =
      search
        (
          history,
          split_config-History,
          split_items-History,
          run_split-History,
          complete_node-History,
          follow_first-History next h,
        )
        depth 14
