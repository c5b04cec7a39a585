-- ===== src/Engine/State.antt =====
-- The state of one workflow execution: NodeInfo and WorkflowInstance of workflow/manager.go, the
-- graphInterpreter of workflow/workflow.go and the admin signals of workflow/admin_recovery.go.
use nsw_core.Common.{
  ℕ, ◌+◌, ◌-◌, String, Bool, Option, none, some, List, [], ◌∷◌, str_eq, if◌then◌else◌,
}
use nsw_core.Shared.Value.{ℤ, Value, Fields}
use nsw_core.Engine.Dsl.{NodeType, GatewayType, Mapping, Node, Edge, WorkflowDefinition}
use nsw_core.Engine.Park.{ParkCategory, Failure}

pub data NodeStatus : Type 0 where
  not_started running completed failed awaiting_admin : NodeStatus

pub data ExecutionStatus : Type 0 where
  running completed failed : ExecutionStatus

pub data AdminAction : Type 0 where
  retry complete abort : AdminAction
  other : String → AdminAction

pub record AdminResolutionSignal : Type 0 where
  pub node_id : String
  pub activation_id : String
  pub action : AdminAction
  pub patch : List (String × Value)
  pub reason : String

-- parkedErrorMessage: the error, and whether the text warns that the Activity already completed.
pub record LastError : Type 0 where
  pub cause : Failure
  pub already_ran : Bool

pub record NodeInfo : Type 0 where
  pub id : String
  pub type : NodeType
  pub gateway_type : GatewayType
  pub task_template_id : String
  pub created_at : ℕ
  pub updated_at : ℕ
  pub status : NodeStatus
  pub activation_id : String
  pub seq : ℕ
  pub last_error : Option LastError
  pub park_category : Option ParkCategory
  pub input_mapping : Mapping
  pub output_mapping : Mapping
  pub cached_task_result : Option Fields
  pub child_workflow_ids : List String

-- The entries of the audit trail, in place of their texts.
pub data Audit : Type 0 where
  timer_waiting : String → ℕ → ℤ → Audit
  parallel_merged : String → ℕ → Audit
  parallel_joined : String → String → Audit
  batch_merged : String → ℕ → ℕ → Audit
  batch_joined : String → String → Audit
  parked : String → LastError → Audit
  park_notification_failed : String → Failure → Audit
  resolved : String → AdminAction → String → Audit
  emit_failed : String → Failure → Audit

pub record WorkflowInstance : Type 0 where
  pub id : String
  pub status : ExecutionStatus
  pub variables : Fields
  pub audit_trail : List Audit
  pub node_info : List (String × NodeInfo)
  pub edges : List Edge

-- graphInterpreter. `seq` is an int64 that a run would have to pass 2^63 times to wrap. A pending map
-- holds the activation IDs that are waited for; whether the execution has a Temporal parent is kept
-- beside.
pub record Interp : Type 0 where
  pub def : WorkflowDefinition
  pub instance : WorkflowInstance
  pub edge_tokens : String → ℕ
  pub seq : ℕ
  pub pending_admin_resolutions : List String
  pub pending_completions : List String
  pub has_parent : Bool

-- g.nodes[id], the last node of that ID; g.outEdges[id]; g.inEdges[id].
unfoldable pub find_node : String → List Node → Option Node
find_node id [] = none
find_node id (n ∷ ns) = elim (find_node id ns) [
  | some m ↦ some m
  | none ↦ if str_eq n.id id then some n else none
]

unfoldable pub out_edges : String → List Edge → List Edge
out_edges id [] = []
out_edges id (e ∷ es) =
    let rest = out_edges id es in if str_eq e.source_id id then e ∷ rest else rest

unfoldable pub in_edges : String → List Edge → List Edge
in_edges id [] = []
in_edges id (e ∷ es) = let rest = in_edges id es in if str_eq e.target_id id then e ∷ rest else rest

unfoldable pub find_info : String → List (String × NodeInfo) → Option NodeInfo
find_info id [] = none
find_info id ((j, i) ∷ m) = let rest = find_info id m in if str_eq id j then some i else rest

-- A write through the pointer that the map holds.
unfoldable pub update_info :
    String → (NodeInfo → NodeInfo) → List (String × NodeInfo) → List (String × NodeInfo)
update_info id f [] = []
update_info id f ((j, i) ∷ m) =
    let rest = update_info id f m in if str_eq id j then (j, f i) ∷ m else (j, i) ∷ rest

-- edgeTokens[id]++ and edgeTokens[id]--, on a map whose missing keys read as 0.
abbrev pub add_token : String → (String → ℕ) → String → ℕ
add_token id tokens k = if str_eq id k then tokens k + 1 else tokens k

abbrev pub take_token : String → (String → ℕ) → String → ℕ
take_token id tokens k = if str_eq id k then tokens k - 1 else tokens k

-- delete(pending, id)
unfoldable pub without_text : String → List String → List String
without_text id [] = []
without_text id (j ∷ js) = let rest = without_text id js in if str_eq id j then rest else j ∷ rest
