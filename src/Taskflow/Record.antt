-- ===== src/Taskflow/Record.antt =====
-- taskflow/store/db.go: the record of a task, its states and the filter of a listing. A time is a
-- number; the columns created_at and updated_at, which the database sets, are left out.
use nsw_core.Common.{
  ℕ, String, Bool, false, ◌&&◌, ◌||◌, Option, List, [], ◌∷◌, str_eq, mem_text, is_empty,
}
use nsw_core.Shared.Value.{Fields, copy_map}

pub record TaskRecord : Type 0 where
  pub task_id : String
  pub task_type : String
  pub state : String
  pub task_template_id : String
  pub parent_workflow_id : String
  pub parent_step_id : String
  pub case_id : String
  pub read_roles : List String
  pub manifest_version : ℕ
  pub task_workflow_id : String
  pub active_task_template_id : String
  pub active_step_id : String
  pub seq : ℕ
  pub payload : Fields
  pub claimed_by : String
  pub claimed_at : Option ℕ

-- A copy shares no map with the record; the other fields are values.
unfoldable pub deep_copy : TaskRecord → TaskRecord
unfolding copy_map
deep_copy r = record r { payload = copy_map r.payload }

abbrev pub state_starting : String
state_starting = "STARTING"

abbrev pub state_starting_step : String
state_starting_step = "STARTING_STEP"

abbrev pub state_completed : String
state_completed = "COMPLETED"

abbrev pub state_advancing : String
state_advancing = "ADVANCING"

abbrev pub state_cancelled : String
state_cancelled = "CANCELLED"

abbrev pub state_on_hold : String
state_on_hold = "ON_HOLD"

-- The states in which a task has ended, and those in which its step takes no draft.
abbrev pub ended_states : List String
ended_states = state_completed ∷ state_cancelled ∷ []

abbrev pub undraftable_states : List String
undraftable_states =
    state_starting_step ∷ state_advancing ∷ state_completed ∷ state_cancelled ∷ state_on_hold ∷ []

pub record StepClaim : Type 0 where
  pub step_id : String
  pub seq : ℕ
  pub active_task_template_id : String
  pub state : String
  pub payload : Fields

pub record TaskFilter : Type 0 where
  pub case_id : String
  pub roles : List String

-- slices.ContainsFunc(roles, …slices.Contains(held, role))
unfoldable pub any_mem : List String → List String → Bool
unfolding mem_text
any_mem [] held = false
any_mem (r ∷ rs) held = mem_text r held || any_mem rs held

-- TaskFilter.Matches
unfoldable pub matches : TaskFilter → TaskRecord → Bool
unfolding any_mem
matches f r =
    (str_eq f.case_id "" || str_eq r.case_id f.case_id)
    && (is_empty f.roles || any_mem r.read_roles f.roles)
