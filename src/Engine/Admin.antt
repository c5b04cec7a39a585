-- ===== src/Engine/Admin.antt =====
-- workflow/admin_recovery.go: a node whose handler fails is parked until an admin resolves it.
pub mod Resolved
use nsw_core.Common.{
  ℕ, zero, suc, String, Bool, true, false, Option, none, some, List, [], ◌∷◌, str_eq, if◌then◌else◌,
  map, sort_texts,
}
use nsw_core.Shared.Value.{Value, null, Fields}
use nsw_core.Shared.MapUtil.{set_nested_key}
use nsw_core.Engine.Dsl.{Mapping, Node, Edge, is_gateway}
use nsw_core.Engine.Park.{
  ParkCategory, Failure, terminal, category_of, is_terminal_admin_error, Result, ok, err,
}
use nsw_core.Engine.State.{
  NodeStatus, awaiting_admin, Audit, parked, park_notification_failed, resolved, AdminAction, retry,
  abort, other, AdminResolutionSignal, LastError, NodeInfo, Interp, find_info, without_text,
}
use nsw_core.Engine.Runtime.{Runtime, AdminParkPayload}
use nsw_core.Engine.Exec.{
  Exec, exhausted, ◌>>=◌, ◌>>◌, pure, raise, gets, perform, observe, modify, set_info, log,
  set_variables, variables, attempt,
}
use nsw_core.Engine.Nodes.{
  case_id, manifest_version, activation_of, seq_of, mark_failed, mint_activation, follow_first,
}
use nsw_core.Engine.Signaling.{cached_of}

abbrev pub is_there : Option Fields → Bool
is_there none = false
is_there (some m) = true

-- parkedErrorMessage: an Activity whose result is cached has already run.
abbrev pub parked_error : Failure → Option Fields → LastError
parked_error cause cached = record { cause = cause; already_ran = is_there cached }

abbrev pub patch_key : String × Value → String
patch_key e = e.0

unfoldable pub patch_value : String → List (String × Value) → Value
patch_value k [] = null
patch_value k ((j, v) ∷ m) = let rest = patch_value k m in if str_eq k j then v else rest

unfoldable pub apply_keys : List String → List (String × Value) → Fields → Fields
unfolding patch_value
apply_keys [] patch vars = vars
apply_keys (k ∷ ks) patch vars = apply_keys ks patch (set_nested_key vars k (patch_value k patch))

-- applyVariablesPatch: in sorted key order.
unfoldable pub apply_variables_patch : List (String × Value) → Fields → Fields
unfolding apply_keys
apply_variables_patch patch vars = apply_keys (sort_texts (map patch_key patch)) patch vars

abbrev pub park_payload : Node → Failure → Interp → AdminParkPayload
park_payload node cause g = record {
  workflow_id = g.instance.id;
  case_id = case_id g;
  manifest_version = manifest_version g;
  node_id = node.id;
  activation_id = activation_of node.id g;
  seq = seq_of node.id g;
  node_type = node.type;
  task_template_id = node.task_template_id;
  cause = parked_error cause (cached_of node.id g);
  park_category = category_of cause;
  input_mapping = node.input_mapping;
  output_mapping = node.output_mapping;
  cached_task_result = cached_of node.id g;
}

module _ {rt : Runtime} where
  unfoldable pub patch_variables : List (String × Value) → Exec rt (Unit {0})
  unfolding variables set_variables apply_variables_patch
  patch_variables patch = do vars ← variables; set_variables (apply_variables_patch patch vars)

  -- LastError and the fields beside it are dropped, with the status of what comes next.
  unfoldable pub unpark : String → NodeStatus → Exec rt (Unit {0})
  unfolding observe set_info
  unpark id status = do
    t ← observe rt.now
    set_info id (λ i. record i {
      status = status;
      last_error = none;
      park_category = none;
      input_mapping = [];
      output_mapping = [];
      cached_task_result = none;
      updated_at = t;
    })

  unfoldable pub begin_park : Node → Failure → Exec rt (Unit {0})
  unfolding observe gets set_info log
  begin_park node cause = do
    t ← observe rt.now
    cached ← gets (cached_of node.id)
    set_info node.id (λ i. record i {
      status = awaiting_admin;
      last_error = some (parked_error cause cached);
      park_category = some (category_of cause);
      input_mapping = node.input_mapping;
      output_mapping = node.output_mapping;
      updated_at = t;
    })
    log (parked node.id (parked_error cause cached))

  unfoldable pub log_notification : Node → Option Failure → Exec rt (Unit {0})
  unfolding pure log
  log_notification node none = pure tt
  log_notification node (some f) = log (park_notification_failed node.id f)

  -- The resolution is registered before anything is waited for; the notification runs beside it and
  -- has ended when the resolution is acted on.
  unfoldable pub await_admin_resolution : Node → Failure → Exec rt (Result AdminResolutionSignal)
  unfolding gets modify perform log_notification pure
  await_admin_resolution node cause = do
    g ← gets (λ g. g)
    let id = activation_of node.id g
    modify (λ g. record g {
      pending_admin_resolutions = id ∷ without_text id g.pending_admin_resolutions;
    })
    notified ← perform (rt.notify_park (park_payload node cause g))
    signal ← perform (rt.await_resolution id)
    modify
        (λ g. record g { pending_admin_resolutions = without_text id g.pending_admin_resolutions })
    log_notification node notified
    pure signal

  -- The node fails for good.
  unfoldable pub give_up : Node → Failure → Exec rt (Unit {0})
  unfolding mark_failed raise
  give_up node cause = do mark_failed node.id; raise (terminal cause)

  unfoldable pub prepare_retry : Node → List (String × Value) → Exec rt (Unit {0})
  unfolding patch_variables unpark mint_activation
  prepare_retry node patch = do
    patch_variables patch
    unpark node.id NodeStatus.running
    mint_activation node.id

  module _ (next : String → Exec rt (Unit {0})) where
    unfoldable pub complete_parked_node :
        Node → List Edge → List (String × Value) → Exec rt (Unit {0})
    unfolding patch_variables unpark follow_first
    complete_parked_node node out patch = do
      patch_variables patch
      unpark node.id NodeStatus.completed
      follow_first next out

    module _ (dispatch : Node → List Edge → Exec rt (Unit {0})) where
      -- What a retry's result leads to; `again` parks the node once more.
      unfoldable pub after_retry :
          (Failure → Exec rt (Unit {0})) → Result (Unit {0}) → Exec rt (Unit {0})
      unfolding pure raise
      after_retry again (ok u) = pure tt
      after_retry again (err e) = if is_terminal_admin_error e then raise e else again e

      unfoldable pub resolve :
          Node
          → List Edge
          → Failure
          → (Failure → Exec rt (Unit {0}))
          → AdminAction
          → List (String × Value)
          → Exec rt (Unit {0})
      unfolding give_up complete_parked_node prepare_retry attempt after_retry
      resolve node out cause again abort patch = give_up node cause
      resolve node out cause again AdminAction.complete patch =
          if is_gateway node.type then again cause else complete_parked_node node out patch
      resolve node out cause again retry patch = do
        prepare_retry node patch
        result ← attempt (dispatch node out)
        after_retry again result
      resolve node out cause again (other text) patch = again cause

      -- The verdict of awaitAdminResolution.
      unfoldable pub act_on :
          Node
          → List Edge
          → Failure
          → (Failure → Exec rt (Unit {0}))
          → Result AdminResolutionSignal
          → Exec rt (Unit {0})
      unfolding give_up log resolve
      act_on node out cause again (err e) = give_up node e
      act_on node out cause again (ok sig) = do
        log (resolved node.id sig.action sig.reason)
        resolve node out cause again sig.action sig.patch

      -- The loop of parkNodeForAdmin: one round of it for each unit of fuel.
      unfoldable pub park_node_for_admin : ℕ → Node → List Edge → Failure → Exec rt (Unit {0})
      unfolding exhausted begin_park await_admin_resolution act_on
      park_node_for_admin zero node out cause = exhausted
      park_node_for_admin (suc n) node out cause = do
        begin_park node cause
        signal ← await_admin_resolution node cause
        act_on node out cause (park_node_for_admin n node out) signal
