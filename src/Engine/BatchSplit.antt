-- ===== src/Engine/BatchSplit.antt =====
-- The parts of handleBatchSplitGateway, batchChildVariables and setBatchOutputs of
-- workflow/batch_gateway.go that only read the variables and the children.
pub mod Handler
use Prim.Native.Char.{code}
use Prim.Native.Nat.{◌/◌}
use Prim.Native.String.{◌++◌ as concat}
use nsw_core.Common.{
  ℕ, ◌+◌, String, Bool, true, false, Option, none, some, List, [], ◌∷◌, ◌++◌, map, ◌==◌, leb,
  str_eq, if◌then◌else◌, length, sort_texts, mem_text,
}
use nsw_core.Shared.Value.{Value, null, str, list, Items, nil, cons, Fields, end, field, find, put}
use nsw_core.Shared.MapUtil.{get_nested_key, set_nested_key}
use nsw_core.Engine.Dsl.{
  Mapping, Node, Edge, default_items_variable, default_id_field, default_max_batch_depth,
  var_scope_path,
}
use nsw_core.Engine.Park.{
  Failure, plain, wrap, output_mapping, definition_error, split_data, missing_id, duplicate_id,
  invalid_items, missing_inputs, depth_exceeded, Result, ok, err, tagged,
}
use nsw_core.Engine.Mapping.{parse_mapping_key, mapped, sorted_keys, apply_input_mapping}
use nsw_core.Engine.Items.{get_item_id, to_item_slice, to_any_slice}
use nsw_core.Engine.Batch.{Partitions, partition_items}
use nsw_core.Engine.BatchResults.{BatchChild, collect_and_merge_batch_results}
use nsw_core.Engine.SubGraph.{find_paired_batch_join}
use nsw_core.Engine.State.{batch_merged}
use nsw_core.Engine.Runtime.{Runtime}
use nsw_core.Engine.Exec.{
  Exec, ◌>>=◌, ◌>>◌, pure, raise, throw, lift, gets, perform, set_info, log, set_variables,
  variables,
}
use nsw_core.Engine.Nodes.{check, complete_node}
use nsw_core.Engine.Gateways.{skip_to_join_out_edge}
use nsw_core.Engine.ParallelSplit.{Branch, workflow_of, start_branch, require_join}

-- The settings of a BATCH_SPLIT, with their defaults.
abbrev pub or_default : String → String → String
or_default d s = if str_eq s "" then d else s

abbrev pub items_variable_of : Node → String
items_variable_of n = elim n.batch_gateway [
  | none ↦ default_items_variable
  | some c ↦ or_default default_items_variable c.items_variable
]

abbrev pub id_field_of : Node → String
id_field_of n = elim n.batch_gateway [
  | none ↦ default_id_field
  | some c ↦ or_default default_id_field c.id_field
]

-- Each item's ID: a string, not empty, and not seen before.
unfoldable pub check_ids : String → List Fields → List String → Option Failure
check_ids id_field [] seen = none
check_ids id_field (item ∷ items) seen = elim (get_item_id item id_field) [
  | null ↦ some (tagged split_data (plain (missing_id id_field)))
  | str id ↦
      if str_eq id ""
      then some (tagged split_data (plain (missing_id id_field)))
      else elim (mem_text id seen) [
        | true ↦ some (tagged split_data (plain (duplicate_id id)))
        | false ↦ check_ids id_field items (id ∷ seen)
      ]
  | _ ↦ some (tagged split_data (plain (invalid_items id_field)))
]

-- strings.Count(s, "/")
unfoldable pub count_slashes : String → ℕ
count_slashes String.[] = 0
count_slashes (String.◌∷◌ c s) =
    let rest = count_slashes s in if code c == b'/' then rest + 1 else rest

unfoldable pub scope_path_of : Option Value → String
scope_path_of (some (str s)) = or_default "root" s
scope_path_of _ = "root"

unfoldable pub partition_by_id : String → Partitions → Option (Edge × List Fields)
partition_by_id id [] = none
partition_by_id id ((e, items) ∷ ps) =
    let rest = partition_by_id id ps in if str_eq id e.id then some (e, items) else rest

abbrev pub partition_id : Edge × List Fields → String
partition_id p = let (e, items) = p in e.id

-- strings.HasPrefix(k, "_")
unfoldable pub is_engine_name : String → Bool
is_engine_name String.[] = false
is_engine_name (String.◌∷◌ c s) = code c == b'_'

unfoldable pub engine_variables : Fields → Fields
unfolding is_engine_name
engine_variables end = end
engine_variables (field k v m) =
    let rest = engine_variables m in if is_engine_name k then field k v rest else rest

unfoldable pub batch_child_variables : Node → Fields → Result Fields
unfolding engine_variables apply_input_mapping
batch_child_variables node vars =
    apply_input_mapping vars (engine_variables vars) node.input_mapping

-- A list contributes its elements, any other value itself.
unfoldable pub contributions : Value → Items
contributions (list xs) = xs
contributions v = cons v nil

unfoldable pub append_item : Items → Value → Items
append_item nil v = cons v nil
append_item (cons w xs) v = cons w (append_item xs v)

-- The values so far, and their encodings.
abbrev pub Unique : Type 0
Unique = Items × List String

module _ (encode : Value → Result String) where
  unfoldable pub add_values : Items → Unique → Result Unique
  unfolding append_item
  add_values nil acc = ok acc
  add_values (cons v xs) (values, seen) = elim (encode v) [
    | err f ↦ err (tagged output_mapping (wrap (invalid_items "output") f))
    | ok text ↦ elim (mem_text text seen) [
      | true ↦ add_values xs (values, seen)
      | false ↦ add_values xs (append_item values v, text ∷ seen)
    ]
  ]

  unfoldable pub gather : String → List Fields → Unique → Result Unique
  unfolding add_values contributions
  gather source [] acc = ok acc
  gather source (vars ∷ rest) acc = elim (get_nested_key vars source) [
    | none ↦ gather source rest acc
    | some v ↦ elim (add_values (contributions v) acc) [
      | err f ↦ err f
      | ok acc' ↦ gather source rest acc'
    ]
  ]
