-- ===== src/Taskflow/Manager/Complete.antt =====
-- taskflow/orchestrator: CompleteTaskStep, CompleteTaskStepByToken, CancelTask (manager.go) and
-- SaveDraft (draft.go).
pub mod Once
use nsw_core.Common.{
  ℕ, zero, suc, ◌+◌, String, Bool, true, false, not, ◌&&◌, ◌||◌, Option, none, some, List, [], ◌∷◌,
  str_eq, ◌==◌, if◌then◌else◌, mem_text, is_empty,
}
use nsw_core.Shared.Value.{str, obj, Fields, put, copy_map}
use nsw_core.Taskflow.Failure.{Sentinel, Failure, plain, wrap, is_caused_by}
use nsw_core.Taskflow.Record.{
  TaskRecord, deep_copy, state_advancing, state_completed, undraftable_states,
}
use nsw_core.Taskflow.Store.Writes.{Op}
use nsw_core.Taskflow.Host.{
  Result, ok, err, StepTemplate, pre_resume, post_resume, Host, activated, terminated, is_none, M,
  ◌>>=◌, ◌>>◌, pure, raise, lift, checked, require, found, ask, call, write, deferred,
}
use nsw_core.Taskflow.Manager.{
  is_zero, without_system_vars, submission_data, registry_for, load_step_template,
  check_required_pre_resume, run_extensions, known_task, has_ended,
}

abbrev stale : Failure
stale = wrap (plain Sentinel.stale_step)

-- An activity that is not pending is a stale step.
abbrev pub not_resumed : Failure → Failure
not_resumed e = if is_caused_by Sentinel.activation_not_pending e then stale else wrap e

-- The record that the post-resume extensions get a copy of.
unfoldable pub submitted_record : TaskRecord → Fields → Result ℕ → TaskRecord
submitted_record r values (err e) = record r { payload = values }
submitted_record r values (ok zero) = record r { payload = values }
submitted_record r values (ok (suc n)) = record r {
  payload = values;
  state = state_advancing;
  seq = r.seq + 1;
}

-- A missing workflow has been closed already.
abbrev pub unterminated : Option Failure → Option Failure
unterminated none = none
unterminated (some e) = if is_caused_by Sentinel.workflow_not_found e then none else some e

abbrev pub draft_command_var : String
draft_command_var = "__command"

module _ (h : Host) where
  -- In the background, where every error is logged alone.
  unfoldable pub run_post_resume : TaskRecord → StepTemplate → Fields → M h (Unit {0})
  run_post_resume r t payload =
      if h.has_extensions && not (is_empty t.extensions)
      then run_extensions h (deep_copy r) post_resume t.extensions (copy_map payload) false
      else pure tt

  -- From the arbiter on: the activity, the row, the extensions.
  unfoldable pub submit : String → String → Fields → TaskRecord → StepTemplate → M h (Unit {0})
  submit id step payload r t = do
    answer ←
        call (λ a. activated r.task_workflow_id step payload (is_none a))
          (h.complete_activation r.task_workflow_id step payload)
    checked not_resumed answer
    rows ← write id (Op.persist_submission step r.seq (submission_data r t payload))
    run_post_resume (submitted_record r (submission_data r t payload) rows) t payload

  -- The pre-check of the row, and the pre-resume extensions.
  unfoldable pub complete_open : String → String → Fields → TaskRecord → M h (Unit {0})
  complete_open id step payload r = do
    require (not (has_ended r)) stale
    require (str_eq r.active_step_id step) stale
    deferred wrap (registry_for h r.manifest_version)
    t ← load_step_template h r.manifest_version r.active_task_template_id wrap
    check_required_pre_resume h t
    run_extensions h (deep_copy r) pre_resume t.extensions (copy_map payload) true
    submit id step payload r t

  unfoldable pub complete_task_step : String → String → Fields → M h (Unit {0})
  complete_task_step id step payload = do
    require (not (str_eq step "")) (plain Sentinel.step_id_required)
    r ← known_task h id
    complete_open id step payload r

  unfoldable pub complete_task_step_by_token : String → Fields → M h (Unit {0})
  complete_task_step_by_token token payload = do
    names ← found (h.decode_token token) (wrap (plain Sentinel.invalid_token))
    complete_task_step names.0 names.1 payload

  unfoldable pub cancel_task : String → String → M h (Unit {0})
  cancel_task id reason = do
    require h.can_terminate (plain Sentinel.outside)
    answer ← ask (h.get_task id)
    r ← found answer (wrap (plain Sentinel.task_not_open))
    require (not (str_eq r.state state_completed)) (wrap (plain Sentinel.task_not_open))
    closed ←
        call (λ a. terminated r.task_workflow_id) (h.terminate_workflow r.task_workflow_id reason)
    checked wrap (unterminated closed)
    result ← write id Op.cancel_task
    rows ← lift wrap result
    require (not (is_zero rows)) (wrap (plain Sentinel.task_not_open))

  -- The write of a draft that has passed every check.
  unfoldable pub store_draft : String → String → Fields → TaskRecord → StepTemplate → M h (Unit {0})
  store_draft id step payload r t = do
    answer ← write id (
        Op.write_draft step r.seq
          (put t.output_namespace (obj (without_system_vars payload)) (copy_map r.payload)))
    rows ← lift wrap answer
    require (not (is_zero rows)) stale

  unfoldable pub draft_shown : String → String → Fields → TaskRecord → M h (Unit {0})
  draft_shown id step payload r = do
    require (str_eq r.active_step_id step) stale
    require (not (mem_text r.state undraftable_states)) stale
    deferred wrap (registry_for h r.manifest_version)
    t ← load_step_template h r.manifest_version r.active_task_template_id wrap
    command ← found t.draft_command (wrap (plain Sentinel.draft_not_enabled))
    check_required_pre_resume h t
    run_extensions h (deep_copy r) pre_resume t.extensions
        (put draft_command_var (str command) (copy_map payload)) true
    store_draft id step payload r t

  unfoldable pub save_draft : String → String → Fields → M h (Unit {0})
  save_draft id step payload = do
    require (not (str_eq step "")) (plain Sentinel.step_id_required)
    r ← known_task h id
    draft_shown id step payload r
