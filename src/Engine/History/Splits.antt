-- ===== src/Engine/History/Splits.antt =====
-- The handlers of the splits: PARALLEL_SPLIT and BATCH_SPLIT.
use nsw_core.Common.{String, Option, none, some, List, [], ◌∷◌}
use nsw_core.Shared.Value.{Value, Fields}
use nsw_core.Engine.Dsl.{Mapping, Node, Edge, WorkflowDefinition}
use nsw_core.Engine.Park.{Result, ok, err}
use nsw_core.Engine.Batch.{Partitions}
use nsw_core.Engine.BatchResults.{BatchChild, ById, ChildOutput, failed, no_output, output}
use nsw_core.Engine.Runtime.{Runtime}
use nsw_core.Engine.Exec.{Exec}
use nsw_core.Engine.ParallelSplit.{
  Branch, spawn_child, start_branch, start_branches, branch_variables, await_branches, merge_result,
  run_branches, require_join, run_matched, handle_parallel_split_gateway,
}
use nsw_core.Engine.BatchSplit.{partition_by_id}
use nsw_core.Engine.BatchSplit.Handler.{
  write_outputs, set_batch_outputs, start_partition, start_found, spawn_batch_children,
  unless_refused, await_children, items_result, items_in, read_items, require_ids, require_depth,
  run_partitions, run_batch, handle_batch_split_gateway,
}
use nsw_core.Engine.History.{
  History, history, bind-History, perform-History, pure-History, lift-History, variables-History,
  set_variables-History,
}
use nsw_core.Engine.History.Handlers.{check-History, complete_node-History}
use nsw_core.Engine.History.Routes.{skip_to_join-History}

module _ {rt : Runtime} where
  spawn_child-History :
      (id : String) (vars : Fields) (o : Option WorkflowDefinition)
      → History (spawn_child {rt = rt} id vars o)
  unfolding spawn_child
  spawn_child-History id vars none = search history
  spawn_child-History id vars (some d) = search history

  start_branch-History :
      (node_id edge_id target : String) (vars : Fields) (join : String)
      → History (start_branch {rt = rt} node_id edge_id target vars join)
  unfolding start_branch
  start_branch-History n e t vars join = search (history, spawn_child-History)

  start_branches-History :
      (node : Node) (out : List Edge) (join : String) (base : Fields) (ids : List String)
      → History (start_branches {rt = rt} node out join base ids)
  unfolding start_branches
  start_branches-History node out join base [] = search history
  start_branches-History node out join base (id ∷ ids) =
      bind-History (start_branch-History _ _ _ _ _) (λ child.
        bind-History (start_branches-History node out join base ids) (λ rest. pure-History _))

  branch_variables-History :
      (id : String) (o : ChildOutput) → History (branch_variables {rt = rt} id o)
  unfolding branch_variables
  branch_variables-History id (failed f) = search history
  branch_variables-History id no_output = search history
  branch_variables-History id (output vars) = search history

  await_branches-History : (bs : List Branch) → History (await_branches {rt = rt} bs)
  unfolding await_branches
  await_branches-History [] = search history
  await_branches-History ((id, child) ∷ bs) = bind-History (perform-History _) (λ result.
      bind-History (branch_variables-History id result)
        (λ vars. bind-History (await_branches-History bs) (λ rest. pure-History _)))

  merge_result-History : (id : String) (r : Result Fields) → History (merge_result {rt = rt} id r)
  unfolding merge_result
  merge_result-History id (ok m) = search history
  merge_result-History id (err f) = search history

  run_branches-History :
      (node : Node) (out : List Edge) (join : String) (ids : List String)
      → History (run_branches {rt = rt} node out join ids)
  unfolding run_branches
  run_branches-History node out join ids =
      search (history, start_branches-History, await_branches-History, merge_result-History) depth
        20

  run_matched-History :
      (node : Node) (out : List Edge) (join : String) (ids : List String)
      → History (run_matched {rt = rt} node out join ids)
  unfolding run_matched
  run_matched-History node out join [] = search history
  run_matched-History node out join (id ∷ ids) = run_branches-History node out join _

  require_join-History : (node : Node) (join : String) → History (require_join {rt = rt} node join)
  unfolding require_join
  require_join-History node join = search history

  write_outputs-History :
      (raws : List String) (m : Mapping) (cs : List Fields)
      → History (write_outputs {rt = rt} raws m cs)
  unfolding write_outputs
  write_outputs-History [] m cs = search history
  write_outputs-History (raw ∷ raws) m cs = bind-History (lift-History _) (λ gathered.
      bind-History variables-History
        (λ vars. bind-History (set_variables-History _) (λ u. write_outputs-History raws m cs)))

  set_batch_outputs-History :
      (node : Node) (cs : List Fields) → History (set_batch_outputs {rt = rt} node cs)
  unfolding set_batch_outputs
  set_batch_outputs-History node cs = write_outputs-History _ _ cs

  start_partition-History :
      (node : Node) (join path var : String) (base : Fields) (p : Edge × List Fields)
      → History (start_partition {rt = rt} node join path var base p)
  unfolding start_partition
  start_partition-History node join path var base (e, items) =
      search (history, start_branch-History)

  start_found-History :
      (node : Node) (join path var : String) (base : Fields) (o : Option (Edge × List Fields))
      → History (start_found {rt = rt} node join path var base o)
  unfolding start_found
  start_found-History node join path var base none = search history
  start_found-History node join path var base (some p) = search (history, start_partition-History)

  spawn_batch_children-History :
      (node : Node) (join path var : String) (base : Fields) (ps : Partitions) (ids : List String)
      → History (spawn_batch_children {rt = rt} node join path var base ps ids)
  unfolding spawn_batch_children
  spawn_batch_children-History node join path var base ps [] = search history
  spawn_batch_children-History node join path var base ps (id ∷ ids) =
      bind-History (start_found-History node join path var base (partition_by_id id ps)) (λ child.
        bind-History (spawn_batch_children-History node join path var base ps ids)
          (λ rest. pure-History _))

  unless_refused-History :
      (d : List BatchChild) (m : Exec rt (List BatchChild)) (r : Result (ById × List Fields))
      → History m
      → History (unless_refused d m r)
  unfolding unless_refused
  unless_refused-History d m (ok merged) h = h
  unless_refused-History d m (err f) h = search history

  await_children-History :
      (v f : String) (bs : List Branch) (d : List BatchChild)
      → History (await_children {rt = rt} v f bs d)
  unfolding await_children
  await_children-History v f [] d = search history
  await_children-History v f ((id, child) ∷ bs) d =
      bind-History (perform-History _)
        (λ result. unless_refused-History _ _ _ (await_children-History v f bs _))

  items_result-History :
      (node : Node) (r : Result (List Fields)) → History (items_result {rt = rt} node r)
  unfolding items_result
  items_result-History node (ok items) = search history
  items_result-History node (err f) = search history

  items_in-History : (node : Node) (o : Option Value) → History (items_in {rt = rt} node o)
  unfolding items_in
  items_in-History node none = search history
  items_in-History node (some v) = items_result-History node _

  read_items-History : (node : Node) → History (read_items {rt = rt} node)
  unfolding read_items
  read_items-History node = search (history, items_in-History)

  require_ids-History : (f : String) (items : List Fields) → History (require_ids {rt = rt} f items)
  unfolding require_ids
  require_ids-History f items = check-History _

  require_depth-History :
      (node : Node) (path : String) → History (require_depth {rt = rt} node path)
  unfolding require_depth
  require_depth-History node path = search history

  run_partitions-History :
      (node : Node) (out : List Edge) (join : String) (items : List Fields)
      → History (run_partitions {rt = rt} node out join items)
  unfolding run_partitions
  run_partitions-History node out join items =
      search
        (
          history, require_ids-History, require_depth-History, spawn_batch_children-History,
          await_children-History, set_batch_outputs-History,
        )
        depth 30

  run_batch-History :
      (node : Node) (out : List Edge) (join : String) (items : List Fields)
      → History (run_batch {rt = rt} node out join items)
  unfolding run_batch
  run_batch-History node out join [] = set_batch_outputs-History node []
  run_batch-History node out join (i ∷ items) = run_partitions-History node out join (i ∷ items)

  module _ (next : String → Exec rt (Unit {0})) (h : (id : String) → History (next id)) where
    pub parallel_split-History :
        (node : Node) (es : List Edge) → History (handle_parallel_split_gateway next node es)
    unfolding handle_parallel_split_gateway
    parallel_split-History node es =
        search
          (
            history,
            require_join-History,
            run_matched-History,
            complete_node-History,
            skip_to_join-History next h,
          )
          depth 20

    pub batch_split-History :
        (node : Node) (es : List Edge) → History (handle_batch_split_gateway next node es)
    unfolding handle_batch_split_gateway
    batch_split-History node es =
        search
          (
            history,
            read_items-History,
            require_join-History,
            run_batch-History,
            complete_node-History,
            skip_to_join-History next h,
          )
          depth 20
