-- ===== src/Engine/Mapping.antt =====
-- The mappings between workflow variables and task data: parseMappingKey of workflow/utils.go, and
-- applyInputMapping, mapTaskInputs and mapTaskOutputs of workflow/workflow.go.
pub mod Outputs
pub mod Writes
use Prim.Native.Char.{code}
use nsw_core.Common.{
  String, Bool, true, false, Option, none, some, List, [], ◌∷◌, ◌++◌, map, ◌==◌, str_eq,
  if◌then◌else◌, sort_texts, is_empty,
}
use nsw_core.Shared.Value.{Value, Fields, end}
use nsw_core.Shared.MapUtil.{get_nested_key, set_nested_key}
use nsw_core.Engine.Dsl.{Mapping}
use nsw_core.Engine.Park.{
  Result, ok, err, fail, input_mapping, output_mapping, missing_inputs, missing_outputs,
}

-- A trailing "?" is cut off and marks the entry as optional.
unfoldable pub parse_mapping_key : String → String × Bool
parse_mapping_key String.[] = ("", false)
parse_mapping_key (String.◌∷◌ c String.[]) =
    if code c == b'?' then ("", true) else (String.◌∷◌ c String.[], false)
parse_mapping_key (String.◌∷◌ c (String.◌∷◌ d s)) =
    let (key, optional) = parse_mapping_key (String.◌∷◌ d s) in (String.◌∷◌ c key, optional)

-- mapping[key], the empty text where the key is not there.
unfoldable pub mapped : String → Mapping → String
mapped k [] = ""
mapped k ((j, v) ∷ m) = let rest = mapped k m in if str_eq k j then v else rest

abbrev pub key : String × String → String
key e = e.0

-- slices.Sorted(maps.Keys(mapping))
unfoldable pub sorted_keys : Mapping → List String
unfolding sort_texts
sorted_keys m = sort_texts (map key m)

-- The body of the loop of applyInputMapping: `dst` as far as it is written, and the missing
-- required variables.
unfoldable pub note_input :
    Bool → String → String → Option Value → Fields × List String → Fields × List String
note_input optional global_key dst_key (some v) (dst, missing) =
    (set_nested_key dst dst_key v, missing)
note_input true global_key dst_key none (dst, missing) = (dst, missing)
note_input false global_key dst_key none (dst, missing) = (dst, missing ++ global_key ∷ [])

unfoldable pub map_inputs :
    List String → Mapping → Fields → Fields × List String → Fields × List String
unfolding parse_mapping_key mapped note_input
map_inputs [] m vars acc = acc
map_inputs (raw ∷ ks) m vars acc =
    let (global_key, optional) = parse_mapping_key raw in
    map_inputs ks m vars
      (note_input optional global_key (mapped raw m) (get_nested_key vars global_key) acc)

unfoldable pub apply_input_mapping : Fields → Fields → Mapping → Result Fields
unfolding map_inputs sorted_keys
apply_input_mapping vars dst m =
    let (dst', missing) = map_inputs (sorted_keys m) m vars (dst, []) in
    if is_empty missing then ok dst' else fail input_mapping (missing_inputs missing)

unfoldable pub map_task_inputs : Fields → Mapping → Result Fields
unfolding apply_input_mapping
map_task_inputs vars m = apply_input_mapping vars end m

-- The body of the first loop of mapTaskOutputs: a write to make, a missing required field, or neither.
unfoldable pub note_output :
    Bool
    → String
    → String
    → Option Value
    → List (String × Value) × List String
    → List (String × Value) × List String
note_output optional task_key global_key (some v) (writes, missing) =
    ((global_key, v) ∷ writes, missing)
note_output true task_key global_key none (writes, missing) = (writes, missing)
note_output false task_key global_key none (writes, missing) = (writes, task_key ∷ missing)

unfoldable pub collect_outputs :
    List String → Mapping → Fields → List (String × Value) × List String
unfolding parse_mapping_key mapped note_output
collect_outputs [] m result = ([], [])
collect_outputs (raw ∷ ks) m result =
    let (task_key, optional) = parse_mapping_key raw in
    note_output optional task_key (mapped raw m) (get_nested_key result task_key)
      (collect_outputs ks m result)

-- The second loop.
unfoldable pub write_all : List (String × Value) → Fields → Fields
write_all [] vars = vars
write_all ((k, v) ∷ ws) vars = write_all ws (set_nested_key vars k v)

unfoldable pub map_task_outputs : Fields → Mapping → Fields → Result Fields
unfolding collect_outputs write_all sorted_keys
map_task_outputs vars [] result = ok vars
map_task_outputs vars (e ∷ m) result =
    let (writes, missing) = collect_outputs (sorted_keys (e ∷ m)) (e ∷ m) result in
    if is_empty missing
    then ok (write_all writes vars)
    else fail output_mapping (missing_outputs missing)
