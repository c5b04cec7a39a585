-- ===== src/Engine/History/Routes.antt =====
-- The handlers of SIGNALING nodes, of the routing gateways and of the joins.
use nsw_core.Common.{String, Bool, true, false, Option, none, some, List, [], ◌∷◌}
use nsw_core.Shared.Value.{Fields}
use nsw_core.Engine.Dsl.{Node, Edge, SignalingConfig, SignalingType, emit, wait, other}
use nsw_core.Engine.Park.{Failure, Result, ok, err}
use nsw_core.Engine.Items.{evaluate_condition}
use nsw_core.Engine.Runtime.{Runtime}
use nsw_core.Engine.Exec.{Exec}
use nsw_core.Engine.Gateways.{
  take_from, consume_token, choose_matching, choose_exclusive, require_split,
  exclusive_split_gateway, exclusive_join_gateway, handle_batch_join_gateway,
  handle_parallel_join_gateway, skip_to_join_out_edge,
}
use nsw_core.Engine.Signaling.{
  report_emit, emit_payload, send_to_parent, handle_signaling_emit, keep_signal, receive,
  handle_signaling_wait, named_signal, signaling_config, run_signaling, handle_signaling,
}
use nsw_core.Engine.History.{History, history, bind-History, variables-History}
use nsw_core.Engine.History.Handlers.{
  store_outputs-History, single_edge-History, transition_to-History, complete_node-History,
  follow_first-History,
}

module _ {rt : Runtime} where
  take_from-History : (node : Node) (o : Option String) → History (take_from {rt = rt} node o)
  unfolding take_from
  take_from-History node none = search history
  take_from-History node (some id) = search history

  consume_token-History : (node : Node) → History (consume_token {rt = rt} node)
  unfolding consume_token
  consume_token-History node = search (history, take_from-History)

  choose_matching-History :
      (e : Edge) (m : Exec rt Edge) (r : Result Bool) → History m → History (choose_matching e m r)
  unfolding choose_matching
  choose_matching-History e m (err f) h = search history
  choose_matching-History e m (ok true) h = search history
  choose_matching-History e m (ok false) h = h

  choose_exclusive-History :
      (node : Node) (es : List Edge) → History (choose_exclusive {rt = rt} node es)
  unfolding choose_exclusive
  choose_exclusive-History node [] = search history
  choose_exclusive-History node (e ∷ es) = bind-History variables-History (λ vars.
      choose_matching-History e (choose_exclusive node es)
        (evaluate_condition rt.expr e.condition vars) (choose_exclusive-History node es))

  require_split-History :
      (node : Node) (split : String) → History (require_split {rt = rt} node split)
  unfolding require_split
  require_split-History node split = search history

  report_emit-History :
      (node : Node) (parent : String) (o : Option Failure)
      → History (report_emit {rt = rt} node parent o)
  unfolding report_emit
  report_emit-History node parent none = search history
  report_emit-History node parent (some e) = search history

  emit_payload-History :
      (node : Node) (m : Fields) (r : Result Fields) → History (emit_payload {rt = rt} node m r)
  unfolding emit_payload
  emit_payload-History node m (ok p) = search history
  emit_payload-History node m (err e) = search history

  send_to_parent-History :
      (node : Node) (cfg : SignalingConfig) (vars : Fields) (parent : String)
      → History (send_to_parent {rt = rt} node cfg vars parent)
  unfolding send_to_parent
  send_to_parent-History node cfg vars parent =
      search (history, emit_payload-History, report_emit-History) depth 10

  keep_signal-History :
      (node : Node) (o : Option (Option Fields)) → History (keep_signal {rt = rt} node o)
  unfolding keep_signal
  keep_signal-History node none = search history
  keep_signal-History node (some p) = search history

  receive-History :
      (node : Node) (cfg : SignalingConfig) (o : Option Fields)
      → History (receive {rt = rt} node cfg o)
  unfolding receive
  receive-History node cfg none = search (history, keep_signal-History) depth 10
  receive-History node cfg (some m) = search history

  run_signaling-History :
      (node : Node) (cfg : SignalingConfig) (t : SignalingType)
      → History (run_signaling {rt = rt} node cfg t)
  unfolding run_signaling handle_signaling_emit handle_signaling_wait
  run_signaling-History node cfg emit = search (history, send_to_parent-History) depth 10
  run_signaling-History node cfg wait =
      search (history, receive-History, store_outputs-History) depth 10
  run_signaling-History node cfg (other s) = search history

  named_signal-History :
      (node : Node) (o : Option SignalingConfig) → History (named_signal {rt = rt} node o)
  unfolding named_signal
  named_signal-History node none = search history
  named_signal-History node (some c) = search history

  signaling_config-History : (node : Node) → History (signaling_config {rt = rt} node)
  unfolding signaling_config
  signaling_config-History node = named_signal-History node node.signaling

  module _ (next : String → Exec rt (Unit {0})) (h : (id : String) → History (next id)) where
    pub handle_signaling-History :
        (node : Node) (es : List Edge) → History (handle_signaling next node es)
    unfolding handle_signaling
    handle_signaling-History node es =
        search
          (
            history, single_edge-History, signaling_config-History, run_signaling-History,
            complete_node-History, transition_to-History,
          )
          depth 14

    pub exclusive_split_gateway-History :
        (node : Node) (es : List Edge) → History (exclusive_split_gateway next node es)
    unfolding exclusive_split_gateway
    exclusive_split_gateway-History node es =
        search (history, choose_exclusive-History, complete_node-History, transition_to-History)

    pub exclusive_join_gateway-History :
        (node : Node) (es : List Edge) → History (exclusive_join_gateway next node es)
    unfolding exclusive_join_gateway
    exclusive_join_gateway-History node es =
        search
          (
            history, consume_token-History, single_edge-History, complete_node-History,
            transition_to-History,
          )
          depth 10

    pub batch_join-History :
        (node : Node) (es : List Edge) → History (handle_batch_join_gateway next node es)
    unfolding handle_batch_join_gateway
    batch_join-History node es =
        search (history, require_split-History, complete_node-History, follow_first-History) depth
          10

    pub parallel_join-History :
        (node : Node) (es : List Edge) → History (handle_parallel_join_gateway next node es)
    unfolding handle_parallel_join_gateway
    parallel_join-History node es =
        search (history, require_split-History, complete_node-History, follow_first-History) depth
          10

    pub skip_to_join-History : (join : String) → History (skip_to_join_out_edge next join)
    unfolding skip_to_join_out_edge
    skip_to_join-History join =
        search (history, complete_node-History, follow_first-History) depth 10
