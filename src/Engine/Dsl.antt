-- ===== src/Engine/Dsl.antt =====
-- workflow/dsl.go: the parsed workflow definition. A Go string type with named constants is a data
-- type with one more constructor for any other text; an absent pointer is `none`.
use nsw_core.Common.{ℕ, String, Bool, true, false, Option, List}
use nsw_core.Shared.Value.{Fields}

pub data NodeType : Type 0 where
  start end task gateway split_task timer signaling : NodeType
  other : String → NodeType

pub data SignalingType : Type 0 where
  emit wait : SignalingType
  other : String → SignalingType

pub data SplitMode : Type 0 where
  same_template different_templates : SplitMode
  other : String → SplitMode

pub data FailureMode : Type 0 where
  fail_fast collect_all : FailureMode
  other : String → FailureMode

pub data GatewayType : Type 0 where
  exclusive_split parallel_split exclusive_join parallel_join batch_split batch_join : GatewayType
  other : String → GatewayType

-- map[string]string: each key once.
abbrev pub Mapping : Type 0
Mapping = List (String × String)

pub record SplitTaskConfig : Type 0 where
  pub mode : SplitMode
  pub items_variable : String
  pub results_variable : String
  pub failure_mode : FailureMode
  pub iteration_key : String

pub record SplitTaskItem : Type 0 where
  pub template_id : String
  pub branch_id : String
  pub payload : Option Fields

pub record TimerConfig : Type 0 where
  pub duration : String
  pub counter_key : String

pub record SignalingConfig : Type 0 where
  pub type : SignalingType
  pub signal_name : String
  pub payload : Fields

pub record BatchGatewayConfig : Type 0 where
  pub items_variable : String
  pub id_field : String

pub record BatchJoinConfig : Type 0 where
  pub gateway_node_id : String
  pub items_variable : String
  pub id_field : String

pub record ParallelJoinConfig : Type 0 where
  pub gateway_node_id : String
  pub merge_by_id : Mapping

pub record Node : Type 0 where
  pub id : String
  pub type : NodeType
  pub gateway_type : GatewayType
  pub task_template_id : String
  pub input_mapping : Mapping
  pub output_mapping : Mapping
  pub split_task : Option SplitTaskConfig
  pub timer : Option TimerConfig
  pub signaling : Option SignalingConfig
  pub batch_gateway : Option BatchGatewayConfig
  pub batch_join : Option BatchJoinConfig
  pub parallel_join : Option ParallelJoinConfig

pub record Edge : Type 0 where
  pub id : String
  pub source_id : String
  pub target_id : String
  pub condition : String

pub record WorkflowDefinition : Type 0 where
  pub id : String
  pub name : String
  pub version : ℕ
  pub nodes : List Node
  pub edges : List Edge

abbrev pub var_split_node_id : String
var_split_node_id = "_split_node_id"

abbrev pub var_parent_workflow_id : String
var_parent_workflow_id = "_parent_workflow_id"

abbrev pub var_case_id : String
var_case_id = "_case_id"

abbrev pub var_manifest_version : String
var_manifest_version = "_manifest_version"

abbrev pub var_branch_id : String
var_branch_id = "_branch_id"

abbrev pub var_scope_path : String
var_scope_path = "_scope_path"

abbrev pub default_iteration_key : String
default_iteration_key = "_iter"

abbrev pub iter_index_key : String
iter_index_key = "index"

abbrev pub iter_branch_id_key : String
iter_branch_id_key = "branch_id"

abbrev pub iter_input_key : String
iter_input_key = "input"

abbrev pub child_broadcast_signal_name : String
child_broadcast_signal_name = "child_broadcast_signal"

abbrev pub default_items_variable : String
default_items_variable = "_items"

abbrev pub default_id_field : String
default_id_field = "id"

abbrev pub default_max_batch_depth : ℕ
default_max_batch_depth = 4

abbrev pub default_max_children_per_gateway : ℕ
default_max_children_per_gateway = 20

abbrev pub is_gateway : NodeType → Bool
is_gateway gateway = true
is_gateway _ = false
