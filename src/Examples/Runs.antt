-- ===== src/Examples/Runs.antt =====
-- Runs of the interpreter on small definitions, with a world that answers every call.
use nsw_core.Common.{
  ℕ, zero, suc, ◌*◌, ◌≤◌, ◌<◌, String, ◌≡◌, refl, true, false, none, some, [], ◌∷◌, arith,
}
use nsw_core.Shared.Value.{pos, end}
use nsw_core.Engine.Dsl.{NodeType, Node, Edge, WorkflowDefinition}
use nsw_core.Engine.Park.{
  Failure, plain, terminal, categorized, wrap, task_failure, activity_failed, cancelled, Result, ok,
  err,
}
use nsw_core.Engine.BatchResults.{output}
use nsw_core.Engine.SubGraph.{bare_node}
use nsw_core.Engine.State.{AdminAction, abort, NodeInfo, Interp, find_info}
use nsw_core.Engine.Runtime.{Runtime, finished}
use nsw_core.Engine.Exec.{State, done, raised}
use nsw_core.Engine.Exec.Escapes.{Escapes}
use nsw_core.Engine.Ids.{text_length, max_workflow_id_len, format_child_workflow_id}
use nsw_core.Engine.Ids.Bounds.{format_child_workflow_id-le}
use nsw_core.Engine.Nodes.{case_id, activation_of, mint_activation}
use nsw_core.Engine.Nodes.Handlers.{run_task}
use nsw_core.Engine.Nodes.Handlers.Closed.{run_task_closed}
use nsw_core.Engine.ParallelSplit.{Branch, start_branches}
use nsw_core.Engine.ParallelSplit.Started.{HasEdge, Started, start_branches-Started}
use nsw_core.Engine.Interpreter.{execute_node}
use nsw_core.Engine.Interpreter.Contained.{execute_node-Escapes}
use nsw_core.Engine.History.{Extends, Minted}
use nsw_core.Engine.History.Fresh.{mint_activation-IsFresh}
use nsw_core.Engine.History.Runs.{execute_node-Extends}
use nsw_core.Engine.Run.{initial_info, initial_interp, graph_interpreter_workflow}
use nsw_core.Engine.Run.Reports.{IsReport, workflow-IsReport}
use nsw_core.Engine.Completion.{complete, force_park, handle_all}
use nsw_core.Engine.Completion.Once.{accepted_for, once, is_called, handle_all-once}
use nsw_core.Common.{mem_text, if◌then◌else◌, List, In, sym, inl, inr}

zeros : ℕ → String
zeros zero = ""
zeros (suc n) = String.◌∷◌ "0" (zeros n)

text_length-zeros : (n : ℕ) → text_length (zeros n) ≡ n
unfolding zeros text_length
text_length-zeros zero = refl
text_length-zeros (suc n) = omega (arith, text_length-zeros n)

-- Activities fail, and the admin aborts.
abbrev failing : Runtime
failing = record {
  World = Unit;
  now = λ w. 0;
  is_cancelled = λ w. false;
  expr = λ c m. ok true;
  sprint = λ v. "";
  error_text = λ e. "";
  encode = λ v. ok "";
  parse_duration = λ s. some (pos 1);
  activation_uuid = λ w id n. id;
  hash_hex = λ n s. zeros (2 * n);
  sleep = λ n w. (none, w);
  execute_task = λ c w. (err (plain (activity_failed "a")), w);
  completion_ready = λ id w. false;
  await_completion = λ id w. (ok none, w);
  notify_completed = λ id m n w. (some (plain (activity_failed "a")), w);
  start_child = λ c w. w;
  await_child = λ id w. (output end, w);
  child_started = λ id w. (none, w);
  fetch_definition = λ id n w. (err (plain (activity_failed id)), w);
  select_child = λ ids c w. (finished "" (output end), w);
  signal_child = λ id s m w. w;
  cancel_child = λ id w. w;
  notify_park = λ p w. (none, w);
  await_resolution = λ id w. (
    ok (record { node_id = ""; activation_id = id; action = abort; patch = []; reason = "" }),
    w,
  );
  signal_parent = λ a b m w. (none, w);
  receive_signal = λ s w. (none, w);
}

-- START, then END.
abbrev short : WorkflowDefinition
short = record {
  id = "w";
  name = "short";
  version = 1;
  nodes = bare_node "a" NodeType.start ∷ bare_node "b" NodeType.end ∷ [];
  edges = record { id = "e"; source_id = "a"; target_id = "b"; condition = "" } ∷ [];
}

abbrev first : State failing
first = record { g = initial_interp short end "run" false 0; world = tt }

execute_node-Extends_example : Extends first.g (execute_node 5 "a" first).1.g
execute_node-Extends_example = execute_node-Extends 5 "a" first

workflow-IsReport_example :
    IsReport "run" (graph_interpreter_workflow failing 5 short end "run" false tt)
workflow-IsReport_example = workflow-IsReport failing 5 short end "run" false tt

-- What END fails with, and the admin gives up on.
abbrev given_up : Failure
given_up =
    terminal (categorized task_failure (wrap (activity_failed "b") (plain (activity_failed "a"))))

execute_node-Escapes_example : Escapes {rt = failing} (execute_node 5 "a" first).1 given_up
unfolding execute_node nsw_core.Engine.Exec.◌>>=◌ nsw_core.Engine.State.find_node find_info
    nsw_core.Engine.Run.initial_infos nsw_core.Engine.Interpreter.dispatch_node_handler
    nsw_core.Engine.Nodes.Handlers.handle_start nsw_core.Engine.State.out_edges
    nsw_core.Engine.State.update_info nsw_core.Engine.Nodes.Handlers.handle_end
    nsw_core.Engine.Park.is_terminal_admin_error nsw_core.Engine.Park.tagged
execute_node-Escapes_example =
    execute_node-Escapes 5 "a" first (execute_node 5 "a" first).1 given_up refl

-- A node that was never run.
abbrev start_info : NodeInfo
start_info = initial_info 0 (bare_node "a" NodeType.start)

first-Minted : Minted first.g
unfolding find_info nsw_core.Engine.Run.initial_infos
first-Minted id i h = ground arith

mint_activation-IsFresh_example :
    (k : NodeInfo) × (find_info "a"
        (mint_activation {rt = failing} "a" first).1.g.instance.node_info
      ≡ some k)
    × (k.activation_id ≡ failing.activation_uuid "run" "a" k.seq)
    × ((j : String) (old : NodeInfo)
        → find_info j first.g.instance.node_info ≡ some old
        → old.seq < k.seq)
unfolding find_info nsw_core.Engine.Run.initial_infos
mint_activation-IsFresh_example = mint_activation-IsFresh "a" start_info first first-Minted refl

handle_all-once_example :
    accepted_for "s"
      (complete "s" none ∷ force_park "s" "late" ∷ [])
      (handle_all (complete "s" none ∷ force_park "s" "late" ∷ []) ("s" ∷ [])).0
    ≡ (if mem_text "s" ("s" ∷ [])
        then once (is_called "s" (complete "s" none ∷ force_park "s" "late" ∷ []))
        else 0)
handle_all-once_example =
    handle_all-once "s" (complete "s" none ∷ force_park "s" "late" ∷ []) ("s" ∷ [])

format_child_workflow_id-le_example :
    text_length (format_child_workflow_id (λ n s. zeros (2 * n)) "case" "run" "split" "e")
    ≤ max_workflow_id_len
format_child_workflow_id-le_example =
    format_child_workflow_id-le (λ n s. zeros (2 * n)) (λ n s. text_length-zeros (2 * n)) "case"
      "run" "split" "e"

-- A task whose Activity fails.
abbrev task_node : Node
task_node = bare_node "t" NodeType.task

run_task_closed_example :
    mem_text (activation_of "t" first.g) (run_task task_node first).1.g.pending_completions ≡ false
unfolding mem_text find_info nsw_core.Engine.Run.initial_infos
run_task_closed_example = run_task_closed task_node first refl

abbrev split_edges : List Edge
split_edges =
    record { id = "e1"; source_id = "s"; target_id = "a"; condition = "" }
    ∷ record { id = "e2"; source_id = "s"; target_id = "b"; condition = "" }
    ∷ []

split_edges-HasEdge : (id : String) → In id ("e1" ∷ "e2" ∷ []) → HasEdge split_edges id
split_edges-HasEdge id (inl p) = (_, inl refl, sym p)
split_edges-HasEdge id (inr (inl p)) = (_, inr (inl refl), sym p)
split_edges-HasEdge id (inr (inr i)) = elim i [ ]

start_branches-Started_example :
    (bs : List Branch) × (w : failing.World) × (start_branches {rt = failing}
        (bare_node "s" NodeType.gateway)
        split_edges
        "b"
        end
        ("e1" ∷ "e2" ∷ [])
        first
      ≡ (done bs, record first { world = w }))
    × Started failing split_edges "s" "b" end first.g ("e1" ∷ "e2" ∷ []) first.world bs w
start_branches-Started_example =
    start_branches-Started (bare_node "s" NodeType.gateway) split_edges "b" end ("e1" ∷ "e2" ∷ [])
      first split_edges-HasEdge
