-- ===== src/Engine/SplitTask/Monitor.antt =====
-- handleSplitTaskNode and monitorChildWorkflows of workflow/dynamic_split.go.
use nsw_core.Common.{
  ℕ, zero, suc, String, Bool, true, false, Option, none, some, List, [], ◌∷◌, ◌++◌, map, str_eq,
  if◌then◌else◌, sort_texts, is_empty,
}
use nsw_core.Shared.Value.{Value, str, maps, Items, Maps, no_maps, cons_map, Fields, end, field}
use nsw_core.Shared.MapUtil.{get_nested_key, set_nested_key}
use nsw_core.Engine.Dsl.{
  FailureMode, fail_fast, collect_all, SplitTaskConfig, Node, Edge, default_iteration_key,
}
use nsw_core.Engine.Park.{
  Failure, plain, wrap, split_data, definition_error, child_failure, child_failed, missing_inputs,
  invalid_definition, Result, ok, err, tagged,
}
use nsw_core.Engine.BatchResults.{ChildOutput, failed, no_output, output}
use nsw_core.Engine.Runtime.{Runtime, BroadcastMessage, ChildEvent, finished, broadcast}
use nsw_core.Engine.Exec.{
  Exec, exhausted, ◌>>=◌, ◌>>◌, pure, raise, throw, lift, perform, set_info, set_variables,
  variables, attempt,
}
use nsw_core.Engine.Nodes.{complete_node, mark_failed, check, follow_first}
use nsw_core.Engine.Signaling.{child_broadcast_signal}
use nsw_core.Engine.SplitTask.{
  ActiveBranch, resolve_branches_data, prepare_branches, unique_templates, fetch_definitions,
  start_split_children, await_starts,
}

abbrev pub is_fail_fast : FailureMode → Bool
is_fail_fast fail_fast = true
is_fail_fast _ = false

abbrev pub is_collect_all : FailureMode → Bool
is_collect_all collect_all = true
is_collect_all _ = false

abbrev pub workflow_id_of : ActiveBranch → String
workflow_id_of a = a.workflow_id

unfoldable pub find_active : String → List ActiveBranch → Option ActiveBranch
find_active id [] = none
find_active id (a ∷ others) =
    let rest = find_active id others in if str_eq id a.workflow_id then some a else rest

-- delete(activeBranches, id)
unfoldable pub remove_active : String → List ActiveBranch → List ActiveBranch
remove_active id [] = []
remove_active id (a ∷ others) =
    let rest = remove_active id others in if str_eq id a.workflow_id then rest else a ∷ rest

-- aggregatedResults[i] = m
unfoldable pub set_at : ℕ → Fields → List Fields → List Fields
set_at n m [] = []
set_at zero m (x ∷ xs) = m ∷ xs
set_at (suc n) m (x ∷ xs) = x ∷ set_at n m xs

-- make([]map[string]any, n): nil maps.
abbrev pub blank_results : List ActiveBranch → List Fields
blank_results [] = []
blank_results (a ∷ others) = end ∷ blank_results others

unfoldable pub result_maps : List Fields → Maps
result_maps [] = no_maps
result_maps (m ∷ ms) = cons_map m (result_maps ms)

-- What the loop has so far: the branches that run, the results by index, and the failures in order.
pub record Progress : Type 0 where
  pub active : List ActiveBranch
  pub results : List Fields
  pub failures : List Failure

module _ (error_text : Failure → String) where
  -- The callback of one child's future.
  unfoldable pub record_result : ActiveBranch → ChildOutput → Progress → Progress
  unfolding remove_active set_at
  record_result a (failed f) p = record {
    active = remove_active a.workflow_id p.active;
    results =
        set_at a.index
          (field "error" (str (error_text f)) (field "branch_id" (str a.branch_id) end)) p.results;
    failures = p.failures ++ tagged child_failure (wrap (child_failed a.branch_id) f) ∷ [];
  }
  record_result a no_output p = record p { active = remove_active a.workflow_id p.active }
  record_result a (output vars) p = record p {
    active = remove_active a.workflow_id p.active;
    results = set_at a.index vars p.results;
  }

abbrev pub finished_branch :
    (Failure → String) → ChildOutput → Progress → Option ActiveBranch → Progress
finished_branch error_text result p none = p
finished_branch error_text result p (some a) = record_result error_text a result p

-- The siblings of the sender that still run.
unfoldable pub receivers : String → List String → List ActiveBranch → List String
unfolding find_active
receivers sender [] active = []
receivers sender (id ∷ ids) active =
    let rest = receivers sender ids active in
    elim (find_active id active) [
      | none ↦ rest
      | some a ↦ if str_eq a.branch_id sender then rest else id ∷ rest
    ]

-- The failed starts are told in a text alone, so their categories do not reach the error.
abbrev pub start_error : Node → List Failure → Option Failure
start_error node [] = none
start_error node (f ∷ fs) = some (tagged child_failure (plain (child_failed node.id)))

abbrev pub spawned : Result (List ActiveBranch) → List ActiveBranch
spawned (ok bs) = bs
spawned (err f) = []

abbrev pub spawn_error : Result (List ActiveBranch) → Option Failure
spawn_error (ok bs) = none
spawn_error (err f) = some f

module _ {rt : Runtime} where
  unfoldable pub send_all : List String → BroadcastMessage → Exec rt (Unit {0})
  unfolding pure perform
  send_all [] msg = pure tt
  send_all (id ∷ ids) msg = do
    perform (λ w. (tt, rt.signal_child id msg.signal_name msg.payload w))
    send_all ids msg

  unfoldable pub cancel_all : List String → Exec rt (Unit {0})
  unfolding pure perform
  cancel_all [] = pure tt
  cancel_all (id ∷ ids) = do perform (λ w. (tt, rt.cancel_child id w)); cancel_all ids

  unfoldable pub on_event : ChildEvent → Progress → Exec rt Progress
  unfolding pure record_result receivers send_all find_active
  on_event (finished id result) p =
      pure (finished_branch rt.error_text result p (find_active id p.active))
  on_event (broadcast msg) p = do
    send_all (receivers msg.sender_branch_id (sort_texts (map workflow_id_of p.active)) p.active)
        msg
    pure p

  -- Under FAIL_FAST a failure cancels the branches that still run.
  unfoldable pub stop_early : Node → FailureMode → Progress → List Failure → Exec rt (Unit {0})
  unfolding pure mark_failed cancel_all raise
  stop_early node mode p [] = pure tt
  stop_early node mode p (f ∷ fs) =
      if is_fail_fast mode
      then (do mark_failed node.id; cancel_all (sort_texts (map workflow_id_of p.active)); raise f)
      else pure tt

  -- The loop over the events, until every branch has finished.
  unfoldable pub monitor : ℕ → Node → FailureMode → Progress → Exec rt Progress
  unfolding pure exhausted perform on_event stop_early
  monitor zero node mode p = if is_empty p.active then pure p else exhausted
  monitor (suc n) node mode p = if is_empty p.active then pure p else (do
    event ← perform (rt.select_child (map workflow_id_of p.active) (child_broadcast_signal node.id))
    p' ← on_event event p
    stop_early node mode p' p'.failures
    monitor n node mode p')

  unfoldable pub write_results : String → List Fields → Exec rt (Unit {0})
  unfolding pure variables set_variables result_maps
  write_results name results = if str_eq name "" then pure tt else (do
    vars ← variables
    set_variables (set_nested_key vars name (maps (result_maps results))))

  unfoldable pub report_failures : Node → FailureMode → List Failure → Exec rt (Unit {0})
  unfolding pure mark_failed throw
  report_failures node mode [] = pure tt
  report_failures node mode (f ∷ fs) =
      if is_collect_all mode
      then (do mark_failed node.id; throw child_failure (child_failed node.id))
      else pure tt

  unfoldable pub monitor_child_workflows :
      ℕ → Node → SplitTaskConfig → List ActiveBranch → Exec rt (Unit {0})
  unfolding monitor write_results report_failures
  monitor_child_workflows fuel node config active = do
    p ←
        monitor fuel node config.failure_mode
          (record { active = active; results = blank_results active; failures = [] })
    write_results config.results_variable p.results
    report_failures node config.failure_mode p.failures

  -- spawnChildWorkflows up to the first child: the branches, and the definitions that they run.
  unfoldable pub spawn_child_workflows :
      Node → SplitTaskConfig → Items → Exec rt (List ActiveBranch)
  unfolding lift prepare_branches fetch_definitions start_split_children unique_templates
  spawn_child_workflows node config items = do
    branches ← lift (prepare_branches rt.sprint node config.mode 0 items [])
    defs ← fetch_definitions (unique_templates branches [])
    start_split_children node
        (if str_eq config.iteration_key "" then default_iteration_key else config.iteration_key)
        defs branches

  -- The IDs of the children are recorded before an error is looked at.
  unfoldable pub run_split : ℕ → Node → SplitTaskConfig → Items → Exec rt (Unit {0})
  unfolding attempt spawn_child_workflows await_starts set_info check monitor_child_workflows
  run_split fuel node config items = do
    started ← attempt (spawn_child_workflows node config items)
    errors ← await_starts (spawned started)
    set_info node.id
        (λ i. record i { child_workflow_ids = sort_texts (map workflow_id_of (spawned started)) })
    check (spawn_error started)
    check (start_error node errors)
    monitor_child_workflows fuel node config (spawned started)

  unfoldable pub items_value : SplitTaskConfig → Option Value → Exec rt Items
  unfolding throw lift resolve_branches_data
  items_value config none = throw split_data (missing_inputs (config.items_variable ∷ []))
  items_value config (some raw) = lift (resolve_branches_data raw config.items_variable)

  unfoldable pub split_items : SplitTaskConfig → Exec rt Items
  unfolding variables items_value
  split_items config = do
    vars ← variables
    items_value config (get_nested_key vars config.items_variable)

  unfoldable pub split_config : Node → Option SplitTaskConfig → Exec rt SplitTaskConfig
  unfolding pure throw
  split_config node none = throw definition_error (invalid_definition node.id)
  split_config node (some c) = pure c

  unfoldable pub handle_split_task_node :
      (String → Exec rt (Unit {0})) → ℕ → Node → List Edge → Exec rt (Unit {0})
  unfolding split_config split_items run_split complete_node follow_first
  handle_split_task_node next fuel node out = do
    config ← split_config node node.split_task
    items ← split_items config
    run_split fuel node config items
    complete_node node.id
    follow_first next out
