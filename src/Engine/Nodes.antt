-- ===== src/Engine/Nodes.antt =====
-- What the node handlers of workflow/workflow.go share. A handler takes `next`, the run of executeNode on
-- the node after it.
pub mod Handlers
use Prim.Native.String.{◌++◌ as concat}
use nsw_core.Common.{
  ℕ, zero, suc, ◌+◌, String, Bool, true, false, Option, none, some, List, [], ◌∷◌, str_eq,
  if◌then◌else◌, ◌==◌,
}
use nsw_core.Shared.Value.{ℤ, pos, negsuc, Value, int, float, str, Fields, end, find}
use nsw_core.Shared.MapUtil.{get_nested_key, set_nested_key}
use nsw_core.Engine.Dsl.{Node, Edge, TimerConfig, var_case_id, var_manifest_version}
use nsw_core.Engine.Park.{
  Failure, wrap, definition_error, task_failure, invalid_definition, activity_failed, Result, ok,
  err, tagged,
}
use nsw_core.Engine.Mapping.{map_task_inputs, map_task_outputs}
use nsw_core.Engine.State.{
  NodeStatus, timer_waiting, Interp, find_info, update_info, add_token, without_text,
}
use nsw_core.Engine.Runtime.{Runtime, TaskResult}
use nsw_core.Engine.Exec.{
  Exec, ◌>>=◌, ◌>>◌, pure, raise, throw, lift, gets, perform, observe, modify, on_instance,
  set_info, log, set_variables, variables,
}

unfoldable pub manifest_version_of : Option Value → ℕ
manifest_version_of (some (int (pos n))) = n
manifest_version_of (some (float (pos n) zero)) = n
manifest_version_of _ = 0

abbrev pub manifest_version : Interp → ℕ
manifest_version g = manifest_version_of (find var_manifest_version g.instance.variables)

unfoldable pub case_id_of : String → Option Value → String
case_id_of id (some (str s)) = if str_eq s "" then id else s
case_id_of id _ = id

abbrev pub case_id : Interp → String
case_id g = case_id_of g.instance.id (find var_case_id g.instance.variables)

-- nodeInfo.ActivationID and nodeInfo.Seq; executeNode has checked that the entry is there.
abbrev pub activation_of : String → Interp → String
activation_of id g = elim (find_info id g.instance.node_info) [
  | none ↦ ""
  | some i ↦ i.activation_id
]

abbrev pub seq_of : String → Interp → ℕ
seq_of id g = elim (find_info id g.instance.node_info) [ none ↦ 0 | some i ↦ i.seq ]

abbrev pub output_of : Option Fields → Fields
output_of none = end
output_of (some m) = m

module _ {rt : Runtime} where
  -- if err != nil { return err }
  unfoldable pub check : Option Failure → Exec rt (Unit {0})
  unfolding pure raise
  check none = pure tt
  check (some e) = raise e

  -- nodeInfo.Status = NodeStatusCompleted; nodeInfo.UpdatedAt = workflow.Now(ctx)
  unfoldable pub complete_node : String → Exec rt (Unit {0})
  unfolding observe set_info
  complete_node id = do
    t ← observe rt.now
    set_info id (λ i. record i { status = NodeStatus.completed; updated_at = t })

  -- nodeInfo.Status = NodeStatusFailed
  unfoldable pub mark_failed : String → Exec rt (Unit {0})
  unfolding set_info
  mark_failed id = set_info id (λ i. record i { status = NodeStatus.failed })

  unfoldable pub mint_activation : String → Exec rt (Unit {0})
  unfolding modify
  mint_activation id = modify (λ g.
      record (on_instance
        (λ w. record w {
          node_info =
              update_info id
                (λ i. record i {
                  activation_id = rt.activation_uuid w.id id (g.seq + 1);
                  seq = g.seq + 1;
                })
                w.node_info;
        })
        g) { seq = g.seq + 1 })

  -- mapTaskOutputs into the workflow variables, after which the cached result is dropped.
  unfoldable pub store_outputs : Node → Fields → Exec rt (Unit {0})
  unfolding set_info variables lift set_variables map_task_outputs
  store_outputs node output = do
    vars ← variables
    vars' ← lift (map_task_outputs vars node.output_mapping output)
    set_variables vars'
    set_info node.id (λ i. record i { cached_task_result = none })

  -- The only outgoing edge.
  unfoldable pub single_edge : Node → List Edge → Exec rt Edge
  unfolding pure throw
  single_edge node (e ∷ []) = pure e
  single_edge node _ = throw definition_error (invalid_definition node.id)

  module _ (next : String → Exec rt (Unit {0})) where
    unfoldable pub transition_to : Edge → Exec rt (Unit {0})
    unfolding modify
    transition_to e = do
      modify (λ g. record g { edge_tokens = add_token e.id g.edge_tokens })
      next e.target_id

    -- if len(outEdges) > 0 { return g.transitionTo(ctx, outEdges[0]) }; return nil
    unfoldable pub follow_first : List Edge → Exec rt (Unit {0})
    unfolding pure transition_to
    follow_first [] = pure tt
    follow_first (e ∷ es) = transition_to e
