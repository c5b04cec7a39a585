-- ===== src/Taskflow/Store.antt =====
-- taskflow/store/gorm: the tables of tasks and of the roles that may read them, and the statements on
-- them. A statement is one transition; a failure of the database is no part of this model.
pub mod Writes
pub mod Rows
pub mod Holding
pub mod Lock
pub mod Listing
pub mod Reads
pub mod Finality
use nsw_core.Common.{
  ℕ, zero, suc, ◌+◌, String, Bool, true, false, not, ◌&&◌, ◌||◌, Option, none, some, List, [], ◌∷◌,
  ◌++◌, map, str_eq, leb, ltb, ◌==◌, if◌then◌else◌, mem_text, is_empty,
}
use nsw_core.Shared.Value.{
  ℤ, Value, null, bool, int, float, str, list, maps, obj, Items, nil, cons, Maps, no_maps, cons_map,
  Fields, end, field,
}
use nsw_core.Taskflow.Record.{
  TaskRecord, state_completed, state_advancing, state_cancelled, state_on_hold, ended_states,
  undraftable_states, StepClaim, TaskFilter,
}

-- A document after json.Marshal and json.Unmarshal: each number is a float64, each map a
-- map[string]any. Integers are taken to be below 2^53.
unfoldable mutual
  pub reload_value : Value → Value
  reload_value (int n) = float n 0
  reload_value (maps ms) = list (reload_maps ms)
  reload_value (obj m) = obj (reload m)
  reload_value (list xs) = list (reload_items xs)
  reload_value null = null
  reload_value (bool b) = bool b
  reload_value (float n r) = float n r
  reload_value (str s) = str s

  pub reload_items : Items → Items
  reload_items nil = nil
  reload_items (cons v xs) = cons (reload_value v) (reload_items xs)

  pub reload_maps : Maps → Items
  reload_maps no_maps = nil
  reload_maps (cons_map m ms) = cons (obj (reload m)) (reload_maps ms)

  pub reload : Fields → Fields
  reload end = end
  reload (field k v m) = field k (reload_value v) (reload m)

-- TaskRecordModel; NULL is `none`.
pub record Row : Type 0 where
  pub task_id : String
  pub task_type : String
  pub state : String
  pub task_template_id : String
  pub parent_workflow_id : String
  pub case_id : String
  pub manifest_version : ℕ
  pub parent_step_id : String
  pub task_workflow_id : String
  pub active_task_template_id : String
  pub active_step_id : Option String
  pub seq : ℕ
  pub payload : Fields
  pub claimed_by : Option String
  pub claimed_at : Option ℕ

pub record RoleRow : Type 0 where
  pub task_id : String
  pub role : String
  pub case_id : String

pub record Db : Type 0 where
  pub tasks : List Row
  pub roles : List RoleRow

abbrev pub text_or_empty : Option String → String
text_or_empty none = ""
text_or_empty (some s) = s

unfoldable pub to_domain : Row → TaskRecord
to_domain m = record {
  task_id = m.task_id;
  task_type = m.task_type;
  state = m.state;
  task_template_id = m.task_template_id;
  parent_workflow_id = m.parent_workflow_id;
  parent_step_id = m.parent_step_id;
  case_id = m.case_id;
  read_roles = [];
  manifest_version = m.manifest_version;
  task_workflow_id = m.task_workflow_id;
  active_task_template_id = m.active_task_template_id;
  active_step_id = text_or_empty m.active_step_id;
  seq = m.seq;
  payload = m.payload;
  claimed_by = text_or_empty m.claimed_by;
  claimed_at = m.claimed_at;
}

-- What InitTask inserts: FromDomain, with the omitted columns at their defaults.
unfoldable pub new_row : TaskRecord → Row
unfolding reload
new_row r = record {
  task_id = r.task_id;
  task_type = r.task_type;
  state = r.state;
  task_template_id = r.task_template_id;
  parent_workflow_id = r.parent_workflow_id;
  case_id = r.case_id;
  manifest_version = r.manifest_version;
  parent_step_id = r.parent_step_id;
  task_workflow_id = r.task_workflow_id;
  active_task_template_id = r.active_task_template_id;
  active_step_id = none;
  seq = 0;
  payload = reload r.payload;
  claimed_by = none;
  claimed_at = none;
}

unfoldable pub row_of : String → List Row → Option Row
row_of id [] = none
row_of id (r ∷ rs) = let rest = row_of id rs in if str_eq r.task_id id then some r else rest

-- INSERT … ON CONFLICT (task_id) DO NOTHING
unfoldable pub insert_task : Row → List Row → List Row
insert_task r [] = r ∷ []
insert_task r (s ∷ rs) =
    let rest = insert_task r rs in if str_eq s.task_id r.task_id then s ∷ rs else s ∷ rest

-- INSERT … ON CONFLICT (task_id, role) DO NOTHING
unfoldable pub insert_role : RoleRow → List RoleRow → List RoleRow
insert_role r [] = r ∷ []
insert_role r (s ∷ rs) =
    let rest = insert_role r rs in
    if str_eq s.task_id r.task_id && str_eq s.role r.role then s ∷ rs else s ∷ rest

unfoldable pub insert_roles : TaskRecord → List String → List RoleRow → List RoleRow
unfolding insert_role
insert_roles r [] rows = rows
insert_roles r (role ∷ roles) rows =
    insert_roles r roles
      (insert_role (record { task_id = r.task_id; role = role; case_id = r.case_id }) rows)

unfoldable pub init_task : TaskRecord → Db → Db
unfolding insert_task insert_roles new_row
init_task r db = record {
  tasks = insert_task (new_row r) db.tasks;
  roles = insert_roles r r.read_roles db.roles;
}

unfoldable pub get_task : String → Db → Option TaskRecord
unfolding row_of to_domain
get_task id db = elim (row_of id db.tasks) [ none ↦ none | some r ↦ some (to_domain r) ]

unfoldable pub row_of_workflow : String → List Row → Option Row
row_of_workflow id [] = none
row_of_workflow id (r ∷ rs) =
    let rest = row_of_workflow id rs in if str_eq r.task_workflow_id id then some r else rest

unfoldable pub get_task_by_workflow_id : String → Db → Option TaskRecord
unfolding row_of_workflow to_domain
get_task_by_workflow_id id db = elim (row_of_workflow id db.tasks) [
  | none ↦ none
  | some r ↦ some (to_domain r)
]

-- The subquery on taskflow_task_roles: some row of the task has one of the roles, and the case.
unfoldable pub has_role : TaskFilter → String → List RoleRow → Bool
unfolding mem_text
has_role f id [] = false
has_role f id (r ∷ rs) =
    (str_eq r.task_id id
      && (mem_text r.role f.roles && (str_eq f.case_id "" || str_eq r.case_id f.case_id)))
    || has_role f id rs

unfoldable pub is_selected : TaskFilter → List RoleRow → Row → Bool
unfolding has_role
is_selected f roles r =
    (str_eq f.case_id "" || str_eq r.case_id f.case_id)
    && (is_empty f.roles || has_role f r.task_id roles)

unfoldable pub select_tasks : TaskFilter → List RoleRow → List Row → List TaskRecord
unfolding is_selected to_domain
select_tasks f roles [] = []
select_tasks f roles (r ∷ rs) =
    let rest = select_tasks f roles rs in if is_selected f roles r then to_domain r ∷ rest else rest

unfoldable pub get_tasks : TaskFilter → Db → List TaskRecord
unfolding select_tasks
get_tasks f db = select_tasks f db.roles db.tasks
