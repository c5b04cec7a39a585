-- ===== src/Engine/BatchSplit/Handler.antt =====
-- handleBatchSplitGateway, spawnBatchChildren and setBatchOutputs of workflow/batch_gateway.go.
use Prim.Native.Nat.{◌/◌}
use Prim.Native.String.{◌++◌ as concat}
use nsw_core.Common.{
  String, Option, none, some, List, [], ◌∷◌, ◌++◌, map, leb, if◌then◌else◌, length, sort_texts,
}
use nsw_core.Shared.Value.{Value, str, list, nil, Fields, find, put}
use nsw_core.Shared.MapUtil.{get_nested_key, set_nested_key}
use nsw_core.Engine.Dsl.{Mapping, Node, Edge, default_max_batch_depth, var_scope_path}
use nsw_core.Engine.Park.{
  wrap, definition_error, split_data, invalid_items, missing_inputs, depth_exceeded, Result, ok,
  err, tagged,
}
use nsw_core.Engine.Mapping.{parse_mapping_key, mapped, sorted_keys}
use nsw_core.Engine.Items.{to_item_slice, to_any_slice}
use nsw_core.Engine.Batch.{Partitions, partition_items}
use nsw_core.Engine.BatchResults.{
  BatchChild, ById, collect_children, collect_and_merge_batch_results,
}
use nsw_core.Engine.SubGraph.{find_paired_batch_join}
use nsw_core.Engine.State.{batch_merged}
use nsw_core.Engine.Runtime.{Runtime}
use nsw_core.Engine.Exec.{
  Exec, ◌>>=◌, ◌>>◌, pure, raise, throw, lift, gets, perform, set_info, log, set_variables,
  variables,
}
use nsw_core.Engine.Nodes.{check, complete_node}
use nsw_core.Engine.Gateways.{skip_to_join_out_edge}
use nsw_core.Engine.ParallelSplit.{Branch, workflow_of, start_branch, require_join}
use nsw_core.Engine.BatchSplit.{
  items_variable_of, id_field_of, check_ids, count_slashes, scope_path_of, partition_by_id,
  partition_id, batch_child_variables, gather,
}

module _ {rt : Runtime} where
  unfoldable pub write_outputs : List String → Mapping → List Fields → Exec rt (Unit {0})
  unfolding pure lift gather variables set_variables parse_mapping_key mapped
  write_outputs [] m children = pure tt
  write_outputs (raw ∷ raws) m children = do
    (values, seen) ← lift (gather rt.encode (parse_mapping_key raw).0 children (nil, []))
    vars ← variables
    set_variables (set_nested_key vars (mapped raw m) (list values))
    write_outputs raws m children

  unfoldable pub set_batch_outputs : Node → List Fields → Exec rt (Unit {0})
  unfolding write_outputs sorted_keys
  set_batch_outputs node children =
      write_outputs (sorted_keys node.output_mapping) node.output_mapping children

  unfoldable pub start_partition :
      Node → String → String → String → Fields → Edge × List Fields → Exec rt Branch
  unfolding start_branch pure
  start_partition node join scope_path items_var base (e, items) = do
    child ←
        start_branch node.id e.id e.target_id
          (put var_scope_path
            (str (concat scope_path (concat "/" (concat node.id (concat "/" e.id)))))
            (set_nested_key base items_var (list (to_any_slice items))))
          join
    pure (e.id, child)

  unfoldable pub start_found :
      Node → String → String → String → Fields → Option (Edge × List Fields) → Exec rt (List Branch)
  unfolding start_partition pure
  start_found node join scope_path items_var base none = pure []
  start_found node join scope_path items_var base (some p) = do
    child ← start_partition node join scope_path items_var base p
    pure (child ∷ [])

  -- The partitions in the order of their edge IDs.
  unfoldable pub spawn_batch_children :
      Node → String → String → String → Fields → Partitions → List String → Exec rt (List Branch)
  unfolding start_found pure partition_by_id
  spawn_batch_children node join scope_path items_var base ps [] = pure []
  spawn_batch_children node join scope_path items_var base ps (id ∷ ids) = do
    child ← start_found node join scope_path items_var base (partition_by_id id ps)
    rest ← spawn_batch_children node join scope_path items_var base ps ids
    pure (child ++ rest)

  -- The wait ends at the first child that the merge refuses.
  unfoldable pub unless_refused :
      List BatchChild
      → Exec rt (List BatchChild)
      → Result (ById × List Fields)
      → Exec rt (List BatchChild)
  unfolding pure
  unless_refused done rest (err f) = pure done
  unless_refused done rest (ok merged) = rest

  -- Waits for the children in their order; `done` are those that have ended.
  unfoldable pub await_children :
      String → String → List Branch → List BatchChild → Exec rt (List BatchChild)
  unfolding perform pure collect_children unless_refused
  await_children items_var id_field [] done = pure done
  await_children items_var id_field ((edge_id, child) ∷ bs) done = do
    result ← perform (rt.await_child child)
    let done' = done ++ record { edge_id = edge_id; result = result } ∷ []
    unless_refused done' (await_children items_var id_field bs done')
        (collect_children items_var id_field done' ([], []))

  unfoldable pub items_result : Node → Result (List Fields) → Exec rt (List Fields)
  unfolding raise pure
  items_result node (err f) = raise (tagged split_data (wrap (invalid_items node.id) f))
  items_result node (ok items) = pure items

  unfoldable pub items_in : Node → Option Value → Exec rt (List Fields)
  unfolding throw items_result
  items_in node none = throw split_data (missing_inputs (items_variable_of node ∷ []))
  items_in node (some raw) = items_result node (to_item_slice raw)

  unfoldable pub read_items : Node → Exec rt (List Fields)
  unfolding variables items_in
  read_items node = do
    vars ← variables
    items_in node (get_nested_key vars (items_variable_of node))

  unfoldable pub require_ids : String → List Fields → Exec rt (Unit {0})
  unfolding check check_ids
  require_ids id_field items = check (check_ids id_field items [])

  unfoldable pub require_depth : Node → String → Exec rt (Unit {0})
  unfolding throw pure count_slashes
  require_depth node scope_path =
      if leb default_max_batch_depth (count_slashes scope_path / 2)
      then throw definition_error (depth_exceeded node.id)
      else pure tt

  -- Runs the partitions of the items and merges what they return.
  unfoldable pub run_partitions : Node → List Edge → String → List Fields → Exec rt (Unit {0})
  unfolding require_ids variables scope_path_of require_depth lift batch_child_variables
      spawn_batch_children set_info await_children set_variables set_batch_outputs log
  run_partitions node out join items = do
    require_ids (id_field_of node) items
    vars ← variables
    let scope_path = scope_path_of (find var_scope_path vars)
    require_depth node scope_path
    ps ← lift (partition_items rt.expr rt.sprint items out vars (id_field_of node))
    base ← lift (batch_child_variables node vars)
    children ←
        spawn_batch_children node join scope_path (items_variable_of node) base ps
          (sort_texts (map partition_id ps))
    set_info node.id (λ i. record i { child_workflow_ids = sort_texts (map workflow_of children) })
    results ← await_children (items_variable_of node) (id_field_of node) children []
    (merged, child_vars) ←
        lift (
          collect_and_merge_batch_results results items (items_variable_of node) (id_field_of node))
    vars' ← variables
    set_variables (set_nested_key vars' (items_variable_of node) (list (to_any_slice merged)))
    set_batch_outputs node child_vars
    log (batch_merged node.id (length items) (length ps))

  unfoldable pub run_batch : Node → List Edge → String → List Fields → Exec rt (Unit {0})
  unfolding run_partitions set_batch_outputs
  run_batch node out join [] = set_batch_outputs node []
  run_batch node out join (item ∷ items) = run_partitions node out join (item ∷ items)

  unfoldable pub handle_batch_split_gateway :
      (String → Exec rt (Unit {0})) → Node → List Edge → Exec rt (Unit {0})
  unfolding read_items gets require_join run_batch complete_node skip_to_join_out_edge
  handle_batch_split_gateway next node out = do
    items ← read_items node
    join ← gets (λ g. find_paired_batch_join g.def.nodes node.id)
    require_join node join
    run_batch node out join items
    complete_node node.id
    skip_to_join_out_edge next join
