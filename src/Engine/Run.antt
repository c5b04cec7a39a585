-- ===== src/Engine/Run.antt =====
-- GraphInterpreterWorkflow of workflow/workflow.go after the validation of the gateways: the instance
-- that it builds, and the run from the START node.
pub mod Reports
use nsw_core.Common.{
  ℕ, String, Bool, true, false, Option, none, some, List, [], ◌∷◌, str_eq, if◌then◌else◌,
}
use nsw_core.Shared.Value.{Value, str, Fields, find, put}
use nsw_core.Engine.Dsl.{NodeType, start, Node, Edge, WorkflowDefinition, var_case_id}
use nsw_core.Engine.Park.{Cause, Failure, plain, invalid_definition}
use nsw_core.Engine.State.{
  NodeStatus, ExecutionStatus, NodeInfo, WorkflowInstance, Interp, find_info,
}
use nsw_core.Engine.Runtime.{Runtime}
use nsw_core.Engine.Exec.{Outcome, done, raised, out_of_fuel, State}
use nsw_core.Engine.Nodes.{case_id_of}
use nsw_core.Engine.Interpreter.{execute_node}

-- A top-level workflow without a case is its own case.
unfoldable pub with_case_id : String → Fields → Fields
unfolding case_id_of
with_case_id id vars = put var_case_id (str (case_id_of id (find var_case_id vars))) vars

abbrev pub initial_info : ℕ → Node → NodeInfo
initial_info now n = record {
  id = n.id;
  type = n.type;
  gateway_type = n.gateway_type;
  task_template_id = n.task_template_id;
  created_at = now;
  updated_at = now;
  status = NodeStatus.not_started;
  activation_id = "";
  seq = 0;
  last_error = none;
  park_category = none;
  input_mapping = [];
  output_mapping = [];
  cached_task_result = none;
  child_workflow_ids = [];
}

-- NodeInfo[id] = info
unfoldable pub put_info : String → NodeInfo → List (String × NodeInfo) → List (String × NodeInfo)
put_info id i [] = (id, i) ∷ []
put_info id i ((j, k) ∷ m) =
    let rest = put_info id i m in if str_eq id j then (j, i) ∷ m else (j, k) ∷ rest

unfoldable pub initial_infos : ℕ → List Node → List (String × NodeInfo) → List (String × NodeInfo)
unfolding put_info
initial_infos now [] m = m
initial_infos now (n ∷ ns) m = initial_infos now ns (put_info n.id (initial_info now n) m)

abbrev pub is_known : String → List (String × NodeInfo) → Bool
is_known id m = elim (find_info id m) [ none ↦ false | some i ↦ true ]

-- Both ends of every edge have to be nodes.
unfoldable pub check_edges : List Edge → List (String × NodeInfo) → Option Failure
check_edges [] m = none
check_edges (e ∷ es) m = elim (is_known e.source_id m) [
  | false ↦ some (plain (invalid_definition e.id))
  | true ↦ elim (is_known e.target_id m) [
    | false ↦ some (plain (invalid_definition e.id))
    | true ↦ check_edges es m
  ]
]

abbrev pub is_start : NodeType → Bool
is_start start = true
is_start _ = false

unfoldable pub find_start_node : List Node → Option Node
find_start_node [] = none
find_start_node (n ∷ ns) = let rest = find_start_node ns in if is_start n.type then some n else rest

abbrev pub initial_interp : WorkflowDefinition → Fields → String → Bool → ℕ → Interp
initial_interp def vars id has_parent now = record {
  def = def;
  instance = record {
    id = id;
    status = ExecutionStatus.running;
    variables = with_case_id id vars;
    audit_trail = [];
    node_info = initial_infos now def.nodes [];
    edges = def.edges;
  };
  edge_tokens = λ e. 0;
  seq = 0;
  pending_admin_resolutions = [];
  pending_completions = [];
  has_parent = has_parent;
}

-- What the workflow function returns: no instance, or an instance and an error or none.
pub data RunResult : Type 0 where
  rejected : Failure → RunResult
  ended : WorkflowInstance → Option Failure → RunResult
  cut_off : RunResult

abbrev pub with_status : ExecutionStatus → Interp → WorkflowInstance
with_status status g = record g.instance { status = status }

unfoldable pub finish : {rt : Runtime} → Outcome (Unit {0}) × State rt → RunResult
finish (done u, s) = ended (with_status ExecutionStatus.completed s.g) none
finish (raised e, s) = ended (with_status ExecutionStatus.failed s.g) (some e)
finish (out_of_fuel, s) = cut_off

module _ (rt : Runtime) where
  unfoldable pub run_from : ℕ → Option Node → State rt → RunResult
  unfolding execute_node finish
  run_from fuel none s =
      ended (with_status ExecutionStatus.failed s.g) (some (plain (invalid_definition "")))
  run_from fuel (some n) s = finish (execute_node fuel n.id s)

  unfoldable pub graph_interpreter_workflow :
      ℕ → WorkflowDefinition → Fields → String → Bool → rt.World → RunResult
  unfolding check_edges run_from initial_infos find_start_node with_case_id
  graph_interpreter_workflow fuel def vars id has_parent w =
      let g = initial_interp def vars id has_parent (rt.now w) in
      elim (check_edges def.edges g.instance.node_info) [
        | some f ↦ rejected f
        | none ↦ run_from fuel (find_start_node def.nodes) (record { g = g; world = w })
      ]
