-- ===== src/Engine/Run/Reports.antt =====
-- What GraphInterpreterWorkflow returns.
use nsw_core.Common.{ℕ, String, ◌≡◌, refl, Bool, Option, none, some}
use nsw_core.Shared.Value.{Fields}
use nsw_core.Engine.Dsl.{Node, WorkflowDefinition}
use nsw_core.Engine.Park.{Failure}
use nsw_core.Engine.State.{ExecutionStatus}
use nsw_core.Engine.Runtime.{Runtime}
use nsw_core.Engine.Exec.{Outcome, done, raised, out_of_fuel, State}
use nsw_core.Engine.Interpreter.{execute_node}
use nsw_core.Engine.History.Runs.{execute_node-Extends}
use nsw_core.Engine.Run.{
  RunResult, rejected, ended, cut_off, finish, run_from, check_edges, find_start_node,
  initial_interp, graph_interpreter_workflow,
}

-- The instance belongs to the execution, and its status says whether an error came with it.
abbrev pub IsReport : String → RunResult → Type 0
IsReport id (rejected f) = Unit
IsReport id (ended w none) = (w.id ≡ id) × (w.status ≡ ExecutionStatus.completed)
IsReport id (ended w (some f)) = (w.id ≡ id) × (w.status ≡ ExecutionStatus.failed)
IsReport id cut_off = Unit

module _ (rt : Runtime) where
  finish-IsReport :
      (id : String) (o : Outcome (Unit {0}) × State rt)
      → o.1.g.instance.id ≡ id
      → IsReport id (finish o)
  unfolding finish
  finish-IsReport id (done u, s) h = (h, refl)
  finish-IsReport id (raised e, s) h = (h, refl)
  finish-IsReport id (out_of_fuel, s) h = tt

  run_from-IsReport :
      (n : ℕ) (o : Option Node) (s : State rt) → IsReport s.g.instance.id (run_from rt n o s)
  unfolding run_from
  run_from-IsReport n none s = (refl, refl)
  run_from-IsReport n (some node) s =
      finish-IsReport s.g.instance.id (execute_node n node.id s)
        (execute_node-Extends n node.id s).same_id

  checked-IsReport :
      (id : String) (o : Option Failure) (r : RunResult)
      → IsReport id r
      → IsReport id (elim o [ some f ↦ rejected f | none ↦ r ])
  checked-IsReport id none r h = h
  checked-IsReport id (some f) r h = tt

  -- Where GraphInterpreterWorkflow returns an instance, the instance has the ID of the execution,
  -- and its status is completed where no error comes with it and failed where one does.
  pub workflow-IsReport :
      (n : ℕ) (def : WorkflowDefinition) (vars : Fields) (id : String) (parent : Bool)
      (w : rt.World)
      → IsReport id (graph_interpreter_workflow rt n def vars id parent w)
  unfolding graph_interpreter_workflow
  workflow-IsReport n def vars id parent w =
      let g = initial_interp def vars id parent (rt.now w) in
      let s : State rt = record { g = g; world = w } in
      checked-IsReport id (check_edges def.edges g.instance.node_info)
        (run_from rt n (find_start_node def.nodes) s)
        (run_from-IsReport n (find_start_node def.nodes) s)
