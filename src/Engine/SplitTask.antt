-- ===== src/Engine/SplitTask.antt =====
-- workflow/dynamic_split.go: a SPLIT_TASK node runs one child workflow for each item of a variable.
-- Also ParseSplitTaskItem of workflow/utils.go.
pub mod Monitor
use Prim.Native.String.{◌++◌ as concat}
use nsw_core.Common.{
  ℕ, ◌+◌, String, Bool, true, false, ◌||◌, Option, none, some, List, [], ◌∷◌, ◌++◌, str_eq,
  if◌then◌else◌, mem_text,
}
use nsw_core.Shared.Value.{
  pos, Value, null, bool, int, float, str, list, maps, obj, Items, nil, cons, Maps, no_maps,
  cons_map, Fields, end, field, find, put,
}
use nsw_core.Engine.Dsl.{
  SplitMode, same_template, different_templates, other, SplitTaskConfig, SplitTaskItem, Node,
  WorkflowDefinition, var_parent_workflow_id, var_case_id, var_manifest_version, var_split_node_id,
  var_branch_id, iter_index_key, iter_branch_id_key, iter_input_key, default_iteration_key,
}
use nsw_core.Engine.Park.{
  ParkCategory, Failure, plain, wrap, split_data, definition_error, child_failure, invalid_items,
  duplicate_id, missing_id, invalid_definition, child_failed, Result, ok, err, tagged, fail,
}
use nsw_core.Engine.Ids.{format_child_workflow_id}
use nsw_core.Engine.State.{Interp}
use nsw_core.Engine.Runtime.{Runtime, ChildStart}
use nsw_core.Engine.Exec.{Exec, ◌>>=◌, ◌>>◌, pure, raise, throw, lift, gets, perform}
use nsw_core.Engine.Nodes.{case_id, manifest_version}
use nsw_core.Engine.Signaling.{text_of}

-- A slice of maps becomes a list of them.
unfoldable pub map_items : Maps → Items
map_items no_maps = nil
map_items (cons_map m ms) = cons (obj m) (map_items ms)

unfoldable pub resolve_branches_data : Value → String → Result Items
unfolding map_items
resolve_branches_data null name = ok nil
resolve_branches_data (list xs) name = ok xs
resolve_branches_data (maps ms) name = ok (map_items ms)
resolve_branches_data _ name = fail split_data (invalid_items name)

unfoldable pub payload_of : Option Value → Option Fields
payload_of (some (obj m)) = some m
payload_of _ = none

unfoldable pub parse_split_task_item : Value → Result SplitTaskItem
unfolding payload_of text_of
parse_split_task_item (obj m) = ok (record {
  template_id = text_of (find "template_id" m);
  branch_id = text_of (find "branch_id" m);
  payload = payload_of (find "payload" m);
})
parse_split_task_item _ = err (plain (invalid_items "item"))

pub record PreparedBranch : Type 0 where
  pub template_id : String
  pub branch_id : String
  pub payload : Option Fields
  pub index : ℕ

abbrev pub template_for : SplitMode → String → String → String
template_for different_templates static dynamic = dynamic
template_for _ static dynamic = static

-- In the mode of one template a branch ID is made unique by its index.
abbrev pub branch_for : SplitMode → String → String → String
branch_for same_template id index = concat id (concat "-" index)
branch_for _ id index = id

module _ (sprint : Value → String) where
  -- The item at an index as a branch; both IDs are required, and the branch ID is new.
  unfoldable pub prepare_branch : Node → SplitMode → ℕ → Value → List String → Result PreparedBranch
  unfolding parse_split_task_item
  prepare_branch node mode index raw seen = elim (parse_split_task_item raw) [
    | err f ↦ err (tagged split_data (wrap (invalid_items node.id) f))
    | ok item ↦
        let template = template_for mode node.task_template_id item.template_id in
        let branch = branch_for mode item.branch_id (sprint (int (pos index))) in
        elim (str_eq template "" || str_eq branch "") [
          | true ↦ fail split_data (missing_id node.id)
          | false ↦ elim (mem_text branch seen) [
            | true ↦ fail split_data (duplicate_id branch)
            | false ↦ ok (record {
              template_id = template;
              branch_id = branch;
              payload = item.payload;
              index = index;
            })
          ]
        ]
  ]

  unfoldable pub prepare_branches :
      Node → SplitMode → ℕ → Items → List String → Result (List PreparedBranch)
  unfolding prepare_branch
  prepare_branches node mode index nil seen = ok []
  prepare_branches node mode index (cons raw xs) seen =
      elim (prepare_branch node mode index raw seen) [
        | err f ↦ err f
        | ok b ↦ elim (prepare_branches node mode (index + 1) xs (b.branch_id ∷ seen)) [
          | err f ↦ err f
          | ok bs ↦ ok (b ∷ bs)
        ]
      ]

-- The template IDs in the order in which they are first seen.
unfoldable pub unique_templates : List PreparedBranch → List String → List String
unique_templates [] seen = []
unique_templates (b ∷ bs) seen = elim (mem_text b.template_id seen) [
  | true ↦ unique_templates bs seen
  | false ↦ b.template_id ∷ unique_templates bs (b.template_id ∷ seen)
]

abbrev pub Definitions : Type 0
Definitions = List (String × WorkflowDefinition)

unfoldable pub find_definition : String → Definitions → Option WorkflowDefinition
find_definition id [] = none
find_definition id ((j, d) ∷ ds) =
    let rest = find_definition id ds in if str_eq id j then some d else rest

-- activeBranch, with the child's workflow ID that it stands under.
pub record ActiveBranch : Type 0 where
  pub workflow_id : String
  pub branch_id : String
  pub index : ℕ

abbrev pub payload_value : Option Fields → Value
payload_value none = null
payload_value (some m) = obj m

abbrev pub branch_input : PreparedBranch → Value
branch_input b = obj (
    field iter_index_key (int (pos b.index)) (
      field iter_branch_id_key (str b.branch_id)
        (field iter_input_key (payload_value b.payload) end)))

abbrev pub split_child_variables : Interp → Node → String → PreparedBranch → Fields
split_child_variables g node iter_key b = put iter_key (branch_input b) (
    field var_parent_workflow_id (str g.instance.id) (
      field var_case_id (str (case_id g)) (
        field var_manifest_version (int (pos (manifest_version g)))
          (field var_split_node_id (str node.id) (field var_branch_id (str b.branch_id) end)))))

abbrev pub with_start_error : ActiveBranch → Option Failure → List Failure → List Failure
with_start_error a none rest = rest
with_start_error a (some f) rest = wrap (child_failed a.workflow_id) f ∷ rest

module _ {rt : Runtime} where
  unfoldable pub fetched_definition :
      String → Result WorkflowDefinition → Exec rt WorkflowDefinition
  unfolding pure raise
  fetched_definition id (err f) = raise (tagged definition_error (wrap (invalid_definition id) f))
  fetched_definition id (ok d) = pure d

  -- The definitions of the templates, in order; ten at a time are asked for at once.
  unfoldable pub fetch_definitions : List String → Exec rt Definitions
  unfolding pure gets perform fetched_definition
  fetch_definitions [] = pure []
  fetch_definitions (id ∷ ids) = do
    version ← gets manifest_version
    fetched ← perform (rt.fetch_definition id version)
    d ← fetched_definition id fetched
    rest ← fetch_definitions ids
    pure ((id, d) ∷ rest)

  unfoldable pub start_defined :
      ActiveBranch → Fields → String → Option WorkflowDefinition → Exec rt ActiveBranch
  unfolding perform throw
  start_defined a vars template none = throw definition_error (invalid_definition template)
  start_defined a vars template (some d) = perform (λ w. (
    a,
    rt.start_child (record { workflow_id = a.workflow_id; definition = d; variables = vars }) w,
  ))

  unfoldable pub start_split_child :
      Node → String → Definitions → PreparedBranch → Exec rt ActiveBranch
  unfolding gets start_defined find_definition
  start_split_child node iter_key defs b = do
    g ← gets (λ g. g)
    let id = format_child_workflow_id rt.hash_hex (case_id g) g.instance.id node.id b.branch_id
    start_defined (record { workflow_id = id; branch_id = b.branch_id; index = b.index })
        (split_child_variables g node iter_key b) b.template_id (find_definition b.template_id defs)

  unfoldable pub start_split_children :
      Node → String → Definitions → List PreparedBranch → Exec rt (List ActiveBranch)
  unfolding start_split_child pure
  start_split_children node iter_key defs [] = pure []
  start_split_children node iter_key defs (b ∷ bs) = do
    a ← start_split_child node iter_key defs b
    rest ← start_split_children node iter_key defs bs
    pure (a ∷ rest)

  -- Whether every child has started; all are asked.
  unfoldable pub await_starts : List ActiveBranch → Exec rt (List Failure)
  unfolding pure perform
  await_starts [] = pure []
  await_starts (a ∷ others) = do
    r ← perform (rt.child_started a.workflow_id)
    rest ← await_starts others
    pure (with_start_error a r rest)
