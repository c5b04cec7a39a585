-- ===== src/Taskflow/Manager/Start.antt =====
-- taskflow/orchestrator/manager.go: StartTask, StartTaskStep, HandleTaskCompletion, HoldTask.
pub mod Claimed
pub mod Woken
use Prim.Native.String.{◌++◌ as concat}
use nsw_core.Common.{
  ℕ, String, Bool, true, false, not, ◌&&◌, ◌||◌, Option, none, some, List, [], ◌∷◌, str_eq, ◌==◌,
  if◌then◌else◌,
}
use nsw_core.Shared.Value.{str, int, pos, Fields, end, put}
use nsw_core.Engine.Dsl.{
  NodeType, GatewayType, parallel_split, Node, WorkflowDefinition, is_gateway, var_manifest_version,
}
use nsw_core.Engine.Runtime.{AdminParkPayload}
use nsw_core.Taskflow.Failure.{
  Sentinel, Failure, plain, wrap, permanent, application, is_caused_by, artifact_error,
  error_type_config, error_type_input, surface_permanent,
}
use nsw_core.Taskflow.Record.{
  TaskRecord, StepClaim, state_starting, state_starting_step, state_cancelled,
}
use nsw_core.Taskflow.Store.Writes.{Op}
use nsw_core.Taskflow.Host.{
  TaskTemplate, StepTemplate, Host, created, started, executed, woke, is_none, M, ◌>>=◌, ◌>>◌, pure,
  raise, lift, checked, require, found, ask, call, write, deferred,
}
use nsw_core.Taskflow.Manager.{
  TaskPayload, WorkflowCompletion, is_zero, set_inputs, registry_for, load_step_template,
}

abbrev pub is_parallel_split : GatewayType → Bool
is_parallel_split parallel_split = true
is_parallel_split _ = false

unfoldable pub has_parallel_split : List Node → Bool
has_parallel_split [] = false
has_parallel_split (n ∷ ns) =
    (is_gateway n.type && is_parallel_split n.gateway_type) || has_parallel_split ns

unfoldable pub initial_data : TaskPayload → Fields
unfolding set_inputs put
initial_data p =
    put var_manifest_version (int (pos p.manifest_version))
      (put "_task_id" (str p.activation_id) (set_inputs end p.inputs))

unfoldable pub task_workflow_id_of : String → String
task_workflow_id_of id = concat "task-wf-" id

unfoldable pub new_record : TaskPayload → TaskTemplate → TaskRecord
unfolding initial_data task_workflow_id_of
new_record p t = record {
  task_id = p.activation_id;
  task_type = t.type;
  state = state_starting;
  task_template_id = t.id;
  parent_workflow_id = p.workflow_id;
  parent_step_id = p.activation_id;
  case_id = p.case_id;
  read_roles = t.read_roles;
  manifest_version = p.manifest_version;
  task_workflow_id = task_workflow_id_of p.activation_id;
  active_task_template_id = "";
  active_step_id = "";
  seq = 0;
  payload = initial_data p;
  claimed_by = "";
  claimed_at = none;
}

-- fmt.Errorf("… %v", err), which keeps no chain
abbrev pub unchained : Failure → Failure
unchained e = plain Sentinel.outside

abbrev pub loading : Failure → Failure
loading e = wrap (artifact_error e)

-- The record of the plugin's run: what the claim has stored.
unfoldable pub claimed_record : TaskPayload → Fields → TaskRecord → TaskRecord
claimed_record p values r = record r {
  active_step_id = p.activation_id;
  seq = p.seq;
  active_task_template_id = p.task_template_id;
  state = state_starting_step;
  payload = values;
}

abbrev pub step_claim : TaskPayload → StepClaim
step_claim p = record {
  step_id = p.activation_id;
  seq = p.seq;
  active_task_template_id = p.task_template_id;
  state = state_starting_step;
  payload = set_inputs end p.inputs;
}

abbrev pub is_suspended : Option Failure → Bool
is_suspended none = false
is_suspended (some e) = is_caused_by Sentinel.suspended e

-- An error of the plugin other than a suspension.
abbrev pub plugin_error : Option Failure → Option Failure
plugin_error none = none
plugin_error (some e) = if is_caused_by Sentinel.suspended e then none else some e

-- An answer that the parent step is not pending any more is no error.
abbrev pub unresumed : Option Failure → Option Failure
unresumed none = none
unresumed (some e) = if is_caused_by Sentinel.activation_not_pending e then none else some e

abbrev pub is_cancelled : Option TaskRecord → Bool
is_cancelled none = false
is_cancelled (some r) = str_eq r.state state_cancelled

module _ (h : Host) where
  unfoldable pub run_task_workflow : TaskPayload → TaskTemplate → WorkflowDefinition → M h Fields
  run_task_workflow p t def = do
    require (not (has_parallel_split def.nodes))
        (permanent error_type_config (plain Sentinel.outside))
    made ← call (λ _. created p.activation_id) (h.init_task (new_record p t))
    checked wrap made
    running ←
        call (λ _. started (task_workflow_id_of p.activation_id))
          (h.start_workflow (task_workflow_id_of p.activation_id) def (initial_data p))
    checked unchained running
    raise (plain Sentinel.result_pending)

  unfoldable pub start_task : TaskPayload → M h Fields
  start_task p = deferred surface_permanent (do
    registry_for h p.manifest_version
    template ← ask (h.load_task_template p.manifest_version p.task_template_id)
    t ← lift loading template
    definition ← ask (h.load_workflow p.manifest_version t.workflow_id)
    def ← lift loading definition
    config ← ask (h.load_render_config p.manifest_version t.render_config_id)
    loaded ← lift loading config
    require (not (str_eq p.activation_id "")) (permanent error_type_input (plain Sentinel.outside))
    run_task_workflow p t def)

  -- From the claim on: the plugin, and the write of what it shows.
  unfoldable pub show_step : TaskPayload → Option Failure → TaskRecord → M h Fields
  show_step p failed r = do
    checked wrap (plugin_error failed)
    answer ← write r.task_id (Op.write_render_state p.activation_id p.seq r.state r.payload)
    rows ← lift wrap answer
    if is_suspended failed then raise (plain Sentinel.result_pending) else pure r.payload

  unfoldable pub run_step : TaskPayload → TaskRecord → StepTemplate → M h Fields
  run_step p r t = do
    answer ← write r.task_id (Op.claim_step (step_claim p))
    rows ← lift wrap answer
    require (not (is_zero rows)) (application true "StaleStep" (plain Sentinel.stale_step))
    result ←
        call (λ a. executed t.plugin_type (claimed_record p (set_inputs end p.inputs) r))
          (h.execute_plugin t.plugin_type (claimed_record p (set_inputs end p.inputs) r) p.inputs
            t.output_namespace t.plugin_properties)
    show_step p result.0 result.1

  unfoldable pub start_task_step : TaskPayload → M h Fields
  start_task_step p = deferred surface_permanent (do
    require (not (str_eq p.activation_id "")) (permanent error_type_input (plain Sentinel.outside))
    known ← ask (h.get_task_by_workflow_id p.workflow_id)
    r ← found known (plain Sentinel.outside)
    registry_for h r.manifest_version
    t ← load_step_template h r.manifest_version p.task_template_id loading
    require (h.has_plugin t.plugin_type) (permanent error_type_config (plain Sentinel.outside))
    run_step p r t)

  unfoldable pub wake_parent : TaskRecord → Fields → M h (Unit {0})
  wake_parent r variables = do
    answer ←
        call (λ a. woke r.parent_workflow_id r.parent_step_id variables a)
          (h.on_task_completed r.parent_workflow_id r.parent_step_id variables)
    checked (λ e. e) (unresumed answer)

  unfoldable pub after_completion : TaskRecord → Fields → ℕ → M h (Unit {0})
  after_completion r variables rows =
      if is_zero rows
      then (do
        current ← ask (h.get_task r.task_id)
        if is_cancelled current then pure tt else wake_parent r variables)
      else wake_parent r variables

  unfoldable pub complete_known : TaskRecord → WorkflowCompletion → M h (Unit {0})
  complete_known r c = if str_eq r.state state_cancelled then pure tt else (do
    answer ← write r.task_id (Op.complete_task c.seq)
    rows ← lift wrap answer
    after_completion r c.final_variables rows)

  unfoldable pub complete_found : Option TaskRecord → WorkflowCompletion → M h (Unit {0})
  complete_found none c = pure tt
  complete_found (some r) c = complete_known r c

  unfoldable pub handle_task_completion : WorkflowCompletion → M h (Unit {0})
  handle_task_completion c = do
    known ← ask (h.get_task_by_workflow_id c.workflow_id)
    complete_found known c

  unfoldable pub hold_found : Option TaskRecord → ℕ → M h (Unit {0})
  hold_found none seq = pure tt
  hold_found (some r) seq = do
    answer ← write r.task_id (Op.hold_task seq)
    rows ← lift wrap answer
    pure tt

  unfoldable pub hold_task : AdminParkPayload → M h (Unit {0})
  hold_task p = do known ← ask (h.get_task_by_workflow_id p.workflow_id); hold_found known p.seq
