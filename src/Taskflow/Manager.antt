-- ===== src/Taskflow/Manager.antt =====
-- taskflow/orchestrator/manager.go: what the methods of TaskManager share.
pub mod Quietly
pub mod Start
pub mod Complete
pub mod Claims
pub mod View
use Prim.Native.Char.{Char, code}
use nsw_core.Common.{
  ℕ, zero, suc, ◌+◌, String, Bool, true, false, not, ◌&&◌, ◌||◌, Option, none, some, List, [], ◌∷◌,
  str_eq, ◌==◌, if◌then◌else◌, mem_text, is_empty,
}
use nsw_core.Shared.Value.{Value, obj, str, int, pos, Fields, end, field, put, copy_map}
use nsw_core.Shared.MapUtil.{set_nested_key}
use nsw_core.Taskflow.Failure.{
  Sentinel, Failure, plain, wrap, permanent, application, artifact_error,
}
use nsw_core.Taskflow.Record.{TaskRecord, ended_states}
use nsw_core.Taskflow.Host.{
  StepTemplate, ExtensionConfig, ExecutionPhase, pre_resume, post_resume, other_phase, Host,
  extended, M, ◌>>=◌, ◌>>◌, pure, raise, lift, checked, require, found, ask, call,
}

-- workflow/manager.go
pub record TaskPayload : Type 0 where
  pub workflow_id : String
  pub activation_id : String
  pub seq : ℕ
  pub task_template_id : String
  pub inputs : Fields
  pub case_id : String
  pub manifest_version : ℕ

pub record WorkflowCompletion : Type 0 where
  pub workflow_id : String
  pub seq : ℕ
  pub final_variables : Fields

abbrev pub is_zero : ℕ → Bool
is_zero n = n == 0

-- The loop that sets each input in a new map.
unfoldable pub set_inputs : Fields → Fields → Fields
unfolding set_nested_key
set_inputs acc end = acc
set_inputs acc (field k v m) = set_inputs (set_nested_key acc k v) m

-- strings.HasPrefix(k, "__")
unfoldable pub is_system_var : String → Bool
is_system_var String.[] = false
is_system_var (String.◌∷◌ c String.[]) = false
is_system_var (String.◌∷◌ c (String.◌∷◌ d s)) = (code c == b'_') && (code d == b'_')

unfoldable pub without_system_vars : Fields → Fields
unfolding is_system_var
without_system_vars end = end
without_system_vars (field k v m) =
    let rest = without_system_vars m in if is_system_var k then rest else field k v rest

abbrev pub is_empty_map : Fields → Bool
is_empty_map end = true
is_empty_map (field k v m) = false

unfoldable pub submission_data : TaskRecord → StepTemplate → Fields → Fields
unfolding without_system_vars copy_map put
submission_data r t payload =
    if is_empty_map payload
    then copy_map r.payload
    else if str_eq t.output_namespace ""
    then copy_map r.payload
    else put t.output_namespace (obj (without_system_vars payload)) (copy_map r.payload)

abbrev pub same_phase : ExecutionPhase → ExecutionPhase → Bool
same_phase pre_resume pre_resume = true
same_phase post_resume post_resume = true
same_phase (other_phase s) (other_phase t) = str_eq s t
same_phase _ _ = false

unfoldable pub declares_extension : List ExtensionConfig → String → ExecutionPhase → Bool
declares_extension [] id phase = false
declares_extension (e ∷ es) id phase =
    (str_eq e.id id && same_phase e.phase phase) || declares_extension es id phase

unfoldable pub declares_all : List ExtensionConfig → List String → Bool
unfolding declares_extension
declares_all es [] = true
declares_all es (id ∷ ids) = declares_extension es id pre_resume && declares_all es ids

module _ (h : Host) where
  -- The manifest version has to be there; an unloaded one may come up later.
  unfoldable pub registry_for : ℕ → M h (Unit {0})
  registry_for v = do
    require (not (is_zero v))
        (application true "NoManifestVersion" (plain Sentinel.unknown_manifest_version))
    answer ← ask (h.registry v)
    checked wrap answer

  unfoldable pub load_step_template : ℕ → String → (Failure → Failure) → M h StepTemplate
  load_step_template v id f = do answer ← ask (h.load_step_template v id); lift f answer

  unfoldable pub is_guarded : StepTemplate → Bool
  unfolding declares_all
  is_guarded t =
      is_empty h.required_pre_resume
      || (h.has_extensions && declares_all t.extensions h.required_pre_resume)

  unfoldable pub check_required_pre_resume : StepTemplate → M h (Unit {0})
  check_required_pre_resume t = require (is_guarded t) (wrap (plain Sentinel.step_not_guarded))

  unfoldable pub run_extension : TaskRecord → Fields → Bool → ExtensionConfig → M h (Unit {0})
  run_extension r payload stop c =
      if h.has_extension c.id
      then (do
        answer ← call (λ _. extended c.id) (h.execute_extension c r payload)
        if stop then checked wrap answer else pure tt)
      else if stop
      then raise (plain Sentinel.extension_not_registered)
      else pure tt

  unfoldable pub run_extension_list :
      TaskRecord → ExecutionPhase → Fields → Bool → List ExtensionConfig → M h (Unit {0})
  run_extension_list r phase payload stop [] = pure tt
  run_extension_list r phase payload stop (c ∷ cs) =
      (if same_phase c.phase phase then run_extension r payload stop c else pure tt)
      >> run_extension_list r phase payload stop cs

  unfoldable pub run_extensions :
      TaskRecord → ExecutionPhase → List ExtensionConfig → Fields → Bool → M h (Unit {0})
  run_extensions r phase es payload stop =
      if h.has_extensions then run_extension_list r phase payload stop es else pure tt

  -- GetTask, where an unknown task is an error.
  unfoldable pub known_task : String → M h TaskRecord
  known_task id = do
    answer ← ask (h.get_task id)
    found answer (wrap (plain Sentinel.task_not_found))

abbrev pub has_ended : TaskRecord → Bool
has_ended r = mem_text r.state ended_states
