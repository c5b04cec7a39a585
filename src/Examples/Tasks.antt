-- ===== src/Examples/Tasks.antt =====
-- The store of tasks and the TaskManager at one task with an open step.
use nsw_core.Common.{
  ◌≡◌, ◌↔◌, refl, true, false, not, none, some, List, [], ◌∷◌, inl, arith, str_eq→ne, In, mem_text,
}
use nsw_core.Shared.Value.{str, end, field}
use nsw_core.Taskflow.Failure.{
  Sentinel, plain, wrap, permanent, is_permanent, is_retried, surface_permanent,
}
use nsw_core.Taskflow.Failure.Surfaced.{surface_permanent-retried}
use nsw_core.Taskflow.Record.{TaskRecord, TaskFilter, state_cancelled}
use nsw_core.Taskflow.Store.{
  Row, Db, to_domain, row_of, init_task, get_task, get_task_by_workflow_id, get_tasks,
}
use nsw_core.Taskflow.Store.Writes.{Op, run_op}
use nsw_core.Taskflow.Store.Rows.{AtMostOnce}
use nsw_core.Taskflow.Store.Holding.{Lock, LockRun, IsLock, run_ops}
use nsw_core.Taskflow.Store.Lock.{run_ops-LockRun, run_ops-keeps_claim}
use nsw_core.Taskflow.Store.Reads.Origins.{Started}
use nsw_core.Taskflow.Store.Reads.Tracked.{ListedAs, get_tasks-Matches}
use nsw_core.Taskflow.Store.Finality.{System, Steps, Step, here, then_step}
use nsw_core.Taskflow.Store.Finality.Kept.{IsSound, LaterRow, Steps-LaterRow}
use nsw_core.Taskflow.Host.{ok, err, Host, StepTemplate, State}
use nsw_core.Taskflow.Host.Adds.{Adds, Ensures}
use nsw_core.Taskflow.Manager.{TaskPayload, WorkflowCompletion}
use nsw_core.Taskflow.Manager.Start.{start_task_step}
use nsw_core.Taskflow.Manager.Start.Claimed.{StepDone, start_task_step-StepDone}
use nsw_core.Taskflow.Manager.Complete.{complete_task_step}
use nsw_core.Taskflow.Manager.Complete.Once.{Completed, complete_task_step-Completed}
use nsw_core.Taskflow.Manager.Claims.{claim_task}
use nsw_core.Taskflow.Manager.Claims.Attempts.{IsStore, claim_answer}
use nsw_core.Taskflow.Manager.Claims.Answers.{claim_task-answer}

abbrev task_row : Row
task_row = record {
  task_id = "t";
  task_type = "APPLICATION";
  state = "SHOWN";
  task_template_id = "form";
  parent_workflow_id = "parent";
  case_id = "case";
  manifest_version = 1;
  parent_step_id = "t";
  task_workflow_id = "task-wf-t";
  active_task_template_id = "step";
  active_step_id = some "s";
  seq = 3;
  payload = end;
  claimed_by = some "ann";
  claimed_at = some 5;
}

abbrev tables : Db
tables = record { tasks = task_row ∷ []; roles = [] }

only_row : AtMostOnce "t" tables.tasks
unfolding row_of
only_row = (λ p. refl, tt)

abbrev calls_made : List Op
calls_made =
    Op.claim_task "bob" 8 ∷ Op.release_task "ann" ∷ Op.claim_task "bob" 9 ∷ Op.complete_task 4 ∷ []

run_ops-LockRun_example :
    (k : Lock) × LockRun (run_ops "t" calls_made tables).0 (some ("ann", 5)) k
    × IsLock (row_of "t" (run_ops "t" calls_made tables).1.tasks) k
unfolding row_of
run_ops-LockRun_example =
    run_ops-LockRun "t" calls_made tables (some ("ann", 5)) only_row (refl, refl)

abbrev kept_calls : List Op
kept_calls = Op.claim_task "bob" 8 ∷ Op.cancel_task ∷ []

run_ops-keeps_claim_example :
    IsLock (row_of "t" (run_ops "t" kept_calls tables).1.tasks) (some ("ann", 5))
unfolding row_of
run_ops-keeps_claim_example =
    run_ops-keeps_claim "t" "ann" 5 kept_calls tables only_row (refl, refl)
      ((λ p. ground arith), ((λ p. ground arith), tt))

-- A call reads the step, the task is cancelled, and the late write of the call arrives.
abbrev before_calls : System
before_calls = record { db = tables; in_flight = [] }

abbrev step_read : System
step_read = record before_calls { in_flight = ("s", 3) ∷ [] }

abbrev task_closed : System
task_closed = record step_read { db = (run_op "t" Op.cancel_task tables).1 }

abbrev write_landed : System
write_landed = record task_closed {
  db = (run_op "t" (Op.persist_submission "s" 3 end) task_closed.db).1;
}

late_write : Steps "t" before_calls write_landed
unfolding row_of mem_text
late_write =
    then_step
      (then_step (then_step here (Step.reads before_calls task_row "s" refl refl))
        (Step.runs step_read Op.cancel_task tt))
      (Step.runs task_closed (Op.persist_submission "s" 3 end) (inl refl))

before-IsSound : IsSound "t" before_calls
unfolding row_of
before-IsSound = record { once = only_row; sound = λ f i. elim i [ ] }

Steps-LaterRow_example :
    IsSound "t" write_landed × LaterRow (row_of "t" tables.tasks) (row_of "t" write_landed.db.tasks)
Steps-LaterRow_example =
    Steps-LaterRow {id = "t"} {s = before_calls} {t = write_landed} before-IsSound late_write

-- The world of the TaskManager is the tables, and everything else answers at once.
abbrev step_template : StepTemplate
step_template = record {
  id = "step";
  plugin_type = "USER_INPUT";
  plugin_properties = "{}";
  output_namespace = "form";
  extensions = [];
  draft_command = none;
}

abbrev host : Host
host = record {
  World = Db;
  init_task = λ r w. (none, init_task r w);
  get_task = λ id w. (get_task id w, w);
  get_task_by_workflow_id = λ id w. (get_task_by_workflow_id id w, w);
  get_tasks = λ f w. (get_tasks f w, w);
  write = λ id op w. (ok (run_op id op w).0, (run_op id op w).1);
  registry = λ v w. (none, w);
  load_task_template = λ v id w. (err (plain Sentinel.artifact_not_found), w);
  load_workflow = λ v id w. (err (plain Sentinel.artifact_not_found), w);
  load_render_config = λ v id w. (ok "{}", w);
  load_step_template = λ v id w. (ok step_template, w);
  has_plugin = λ kind. true;
  execute_plugin = λ kind r inputs space properties w. ((none, r), w);
  has_extensions = false;
  has_extension = λ id. false;
  execute_extension = λ c r payload w. (none, w);
  start_workflow = λ id def variables w. (none, w);
  complete_activation = λ wf step payload w. (none, w);
  can_terminate = true;
  terminate_workflow = λ id reason w. (none, w);
  on_task_completed = λ wf step variables w. (none, w);
  render = λ config state values w. (ok "{}", w);
  decode_token = λ token. some (token, "s");
  now = λ w. 8;
  required_pre_resume = [];
}

abbrev first : State host
first = record { world = tables; calls = [] }

abbrev next_step : TaskPayload
next_step = record {
  workflow_id = "task-wf-t";
  activation_id = "s2";
  seq = 5;
  task_template_id = "step";
  inputs = field "name" (str "ann") end;
  case_id = "case";
  manifest_version = 1;
}

start_task_step-StepDone_example : Ensures (start_task_step host next_step) (StepDone next_step)
start_task_step-StepDone_example = start_task_step-StepDone host next_step

complete_task_step-Completed_example :
    Adds
      (Completed host "t" "s" (field "name" (str "ann") end) (to_domain task_row))
      first
      (complete_task_step host "t" "s" (field "name" (str "ann") end) first)
unfolding get_task row_of
complete_task_step-Completed_example =
    complete_task_step-Completed host "t" "s" (field "name" (str "ann") end) first
      (to_domain task_row) (str_eq→ne "s" "" refl) refl

host-IsStore : IsStore host (λ w. w)
host-IsStore = record {
  write_answer = λ id op w. refl;
  write_effect = λ id op w. refl;
  get_answer = λ id w. refl;
  get_effect = λ id w. refl;
}

claim_task-answer_example :
    (claim_task host "t" "bob" first).0 ≡ claim_answer "bob" (row_of "t" tables.tasks)
unfolding row_of
claim_task-answer_example =
    claim_task-answer host (λ w. w) "t" "bob" first host-IsStore only_row
      (λ p. ground (arith, str_eq→ne "ann" "" refl)) (str_eq→ne "bob" "" refl)

-- A cancelled task that is free is never refused as ended.
closed_answer :
    claim_answer "bob" (some (record task_row { state = state_cancelled; claimed_by = none }))
    ≡ err (plain Sentinel.claim_unsettled)
closed_answer = refl

abbrev started_record : TaskRecord
started_record = record (to_domain task_row) { read_roles = "officer" ∷ [] }

abbrev by_officers : TaskFilter
by_officers = record { case_id = "case"; roles = "officer" ∷ [] }

abbrev one_started : Db
one_started =
    (run_op "t" Op.cancel_task (init_task started_record (record { tasks = []; roles = [] }))).1

get_tasks-Matches_example :
    In (to_domain (record task_row { active_step_id = none })) (get_tasks by_officers one_started)
    ↔ ListedAs by_officers
        (started_record ∷ [])
        one_started
        (to_domain (record task_row { active_step_id = none }))
get_tasks-Matches_example =
    get_tasks-Matches (started_record ∷ []) one_started by_officers
      (to_domain (record task_row { active_step_id = none }))
      (Started.writes "t" Op.cancel_task
        (Started.first started_record Started.empty (λ o i. elim i [ ])))

surface_permanent-retried_example :
    is_retried (surface_permanent (wrap (permanent "InvalidInput" (plain Sentinel.outside))))
    ≡ not (is_permanent (wrap (permanent "InvalidInput" (plain Sentinel.outside))))
surface_permanent-retried_example =
    surface_permanent-retried (wrap (permanent "InvalidInput" (plain Sentinel.outside))) refl

abbrev task_end : WorkflowCompletion
task_end = record { workflow_id = "task-wf-t"; seq = 6; final_variables = end }
