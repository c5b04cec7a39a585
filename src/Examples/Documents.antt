-- ===== src/Examples/Documents.antt =====
-- Paths, mappings and park categories at concrete inputs.
use nsw_core.Common.{◌≡◌, refl, inl, inr, some, [], ◌∷◌, segments, str_eq→ne, sort_texts}
use nsw_core.Shared.Value.{pos, int, str, obj, Fields, end, field, find, put, copy_value}
use nsw_core.Shared.MapUtil.{
  get_path, get_nested_key, set_path, set_nested_key, leaf_value, sub_map, merge_maps,
}
use nsw_core.Shared.MapUtil.Merge.{find-merge_maps, merged_at}
use nsw_core.Shared.MapUtil.Paths.{get_nested_key-set_nested_key, get_nested_key-set_nested_key_ne}
use nsw_core.Engine.Dsl.{Mapping}
use nsw_core.Engine.Mapping.{
  parse_mapping_key, mapped, sorted_keys, note_output, collect_outputs, write_all, map_task_outputs,
}
use nsw_core.Engine.Mapping.Writes.{Reports, map_task_outputs-Reports, map_task_outputs_writes}

abbrev review : Fields
review = field "review" (obj (field "state" (str "open") (field "round" (int (pos 1)) end))) end

abbrev updated : Fields
updated = field "review" (obj (field "state" (str "closed") (field "round" (int (pos 1)) end))) end

get_nested_key-set_nested_key_example :
    get_nested_key (set_nested_key review "review.state" (str "closed")) "review.state"
    ≡ some (leaf_value (get_nested_key review "review.state") (str "closed"))
unfolding segments
get_nested_key-set_nested_key_example =
    get_nested_key-set_nested_key review "review.state" (str "closed") refl

get_nested_key-set_nested_key_ne_example :
    get_nested_key (set_nested_key review "review.state" (str "closed")) "review.round"
    ≡ get_nested_key review "review.round"
unfolding segments
get_nested_key-set_nested_key_ne_example =
    get_nested_key-set_nested_key_ne review "review.state" "review.round" (str "closed")
      (inr (refl, inl (str_eq→ne "state" "round" refl)))

find-merge_maps_example :
    find "review" (merge_maps review updated)
    ≡ merged_at (find "review" review) (find "review" updated)
unfolding find
find-merge_maps_example = find-merge_maps updated review "review" (refl, tt)

abbrev outputs : Mapping
outputs = ("state", "review.state") ∷ ("note?", "review.note") ∷ []

abbrev task_result : Fields
task_result = field "state" (str "closed") end

map_task_outputs-Reports_example : Reports outputs end (map_task_outputs review outputs end)
map_task_outputs-Reports_example = map_task_outputs-Reports review outputs end

map_task_outputs_writes_example :
    get_nested_key updated (mapped "state" outputs)
    ≡ some (leaf_value (get_nested_key review (mapped "state" outputs)) (str "closed"))
unfolding map_task_outputs sorted_keys sort_texts collect_outputs parse_mapping_key mapped
    note_output write_all get_nested_key set_nested_key get_path set_path segments leaf_value
    sub_map find put copy_value
map_task_outputs_writes_example =
    map_task_outputs_writes review outputs task_result updated "state" (str "closed") refl
      ((
        (
          (
            inr (refl, inl (str_eq→ne "note" "state" refl)),
            inr (refl, inl (str_eq→ne "state" "note" refl)),
          ),
          tt,
        ),
        (tt, tt),
      ))
      (inl refl) refl refl
