-- ===== src/Engine/Signaling.antt =====
-- workflow/signaling.go: a SIGNALING node sends to its sibling branches, or waits for such a signal.
use Prim.Native.String.{◌++◌ as concat}
use nsw_core.Common.{String, Option, none, some, List, str_eq, if◌then◌else◌}
use nsw_core.Shared.Value.{Value, str, Fields, end, find}
use nsw_core.Engine.Dsl.{
  Node, Edge, SignalingConfig, SignalingType, emit, wait, other, var_parent_workflow_id,
  var_branch_id, var_split_node_id, child_broadcast_signal_name,
}
use nsw_core.Engine.Park.{
  Failure, plain, wrap, definition_error, task_failure, invalid_definition, activity_failed,
  cancelled, Result, ok, err, tagged,
}
use nsw_core.Engine.Mapping.{apply_input_mapping}
use nsw_core.Engine.State.{emit_failed, Interp, find_info}
use nsw_core.Engine.Runtime.{Runtime}
use nsw_core.Engine.Exec.{
  Exec, ◌>>=◌, ◌>>◌, pure, raise, throw, gets, perform, observe, set_info, log, variables,
}
use nsw_core.Engine.Nodes.{complete_node, single_edge, transition_to, output_of, store_outputs}

-- vars[k].(string), the empty text where it is none.
unfoldable pub text_of : Option Value → String
text_of (some (str s)) = s
text_of _ = ""

unfoldable pub child_broadcast_signal : String → String
child_broadcast_signal split_node_id =
    if str_eq split_node_id ""
    then child_broadcast_signal_name
    else concat child_broadcast_signal_name (concat ":" split_node_id)

abbrev pub cached_of : String → Interp → Option Fields
cached_of id g = elim (find_info id g.instance.node_info) [
  | none ↦ none
  | some i ↦ i.cached_task_result
]

module _ {rt : Runtime} where
  unfoldable pub report_emit : Node → String → Option Failure → Exec rt (Unit {0})
  unfolding pure log raise
  report_emit node parent none = pure tt
  report_emit node parent (some e) = do
    log (emit_failed parent e)
    raise (tagged task_failure (wrap (activity_failed node.id) e))

  -- The input mapping of an EMIT adds to the configured payload.
  unfoldable pub emit_payload : Node → Fields → Result Fields → Exec rt Fields
  unfolding pure raise
  emit_payload node payload (ok m) = pure m
  emit_payload node payload (err e) = raise (wrap (activity_failed node.id) e)

  unfoldable pub send_to_parent : Node → SignalingConfig → Fields → String → Exec rt (Unit {0})
  unfolding text_of child_broadcast_signal apply_input_mapping emit_payload perform report_emit
  send_to_parent node cfg vars parent = do
    payload ←
        emit_payload node cfg.payload (apply_input_mapping vars cfg.payload node.input_mapping)
    r ← perform (
        rt.signal_parent parent (child_broadcast_signal (text_of (find var_split_node_id vars)))
          (record {
            sender_branch_id = text_of (find var_branch_id vars);
            signal_name = cfg.signal_name;
            payload = payload;
          }))
    report_emit node parent r

  -- Without a parent nothing is sent.
  unfoldable pub handle_signaling_emit : Node → SignalingConfig → Exec rt (Unit {0})
  unfolding variables pure text_of send_to_parent
  handle_signaling_emit node cfg = do
    vars ← variables
    let parent = text_of (find var_parent_workflow_id vars)
    if str_eq parent "" then pure tt else send_to_parent node cfg vars parent

  unfoldable pub keep_signal : Node → Option (Option Fields) → Exec rt Fields
  unfolding pure set_info
  keep_signal node none = pure end
  keep_signal node (some payload) = do
    set_info node.id (λ i. record i { cached_task_result = some (output_of payload) })
    pure (output_of payload)

  -- The signal that was cached before, or the next one.
  unfoldable pub receive : Node → SignalingConfig → Option Fields → Exec rt Fields
  unfolding pure perform keep_signal observe raise
  receive node cfg (some m) = pure m
  receive node cfg none = do
    received ← perform (rt.receive_signal cfg.signal_name)
    m ← keep_signal node received
    stopped ← observe rt.is_cancelled
    if stopped then raise (plain cancelled) else pure m

  unfoldable pub handle_signaling_wait : Node → SignalingConfig → Exec rt (Unit {0})
  unfolding gets receive store_outputs
  handle_signaling_wait node cfg = do
    cached ← gets (cached_of node.id)
    m ← receive node cfg cached
    store_outputs node m

  -- The configuration has to be there, with a name for the signal.
  unfoldable pub named_signal : Node → Option SignalingConfig → Exec rt SignalingConfig
  unfolding pure throw
  named_signal node none = throw definition_error (invalid_definition node.id)
  named_signal node (some cfg) =
      if str_eq cfg.signal_name ""
      then throw definition_error (invalid_definition node.id)
      else pure cfg

  unfoldable pub signaling_config : Node → Exec rt SignalingConfig
  unfolding named_signal
  signaling_config node = named_signal node node.signaling

  unfoldable pub run_signaling : Node → SignalingConfig → SignalingType → Exec rt (Unit {0})
  unfolding handle_signaling_emit handle_signaling_wait throw
  run_signaling node cfg emit = handle_signaling_emit node cfg
  run_signaling node cfg wait = handle_signaling_wait node cfg
  run_signaling node cfg (other s) = throw definition_error (invalid_definition node.id)

  unfoldable pub handle_signaling :
      (String → Exec rt (Unit {0})) → Node → List Edge → Exec rt (Unit {0})
  unfolding single_edge signaling_config run_signaling complete_node transition_to
  handle_signaling next node out = do
    e ← single_edge node out
    cfg ← signaling_config node
    run_signaling node cfg cfg.type
    complete_node node.id
    transition_to next e
