-- ===== src/Examples/Merges.antt =====
-- Batches and parallel branches at concrete inputs.
use nsw_core.Common.{String, ◌≡◌, refl, true, false, Bool, none, some, [], ◌∷◌, segments, mem_text}
use nsw_core.Shared.Value.{
  pos, Value, bool, int, str, list, obj, nil, cons, Fields, end, field, find, put, copy_value,
}
use nsw_core.Shared.MapUtil.{get_path, get_nested_key, merge_maps}
use nsw_core.Engine.Dsl.{Edge}
use nsw_core.Engine.Park.{Result, ok}
use nsw_core.Engine.Items.{any_slice, to_item_slice, get_item_id, string_id, evaluate_condition}
use nsw_core.Engine.Batch.{Partitions, choose_edge, add_item, partition_loop, partition_items}
use nsw_core.Engine.Batch.Partition.{IsChoice, choose_edge-IsChoice}
use nsw_core.Engine.Batch.Division.{IsDivision, partition_items-IsDivision}
use nsw_core.Engine.BatchResults.{
  BatchChild, output, lookup, absorb_items, child_items, collect_children, pick_items,
  collect_and_merge_batch_results,
}
use nsw_core.Engine.BatchResults.Collected.{returned_items}
use nsw_core.Engine.BatchResults.Merged.{Restored, collect_and_merge-Restored}
use nsw_core.Engine.ParallelMerge.{
  overlay, absorb_item, lacks_id, absorb_all, absorb_raw, absorb_sources, merge_below,
  merge_branches,
}
use nsw_core.Engine.ParallelMerge.Keys.{
  merge_below-eq-merge_maps, folded_key, find-merge_branches, merge_branches_last,
  merge_branches_last_field,
}
use nsw_core.Engine.ParallelMerge.United.{
  field_of, last_field, source_items, field_of-absorb_sources,
}

-- A condition names a field of the item that has to be true.
abbrev flag : String → Fields → Result Bool
flag c scope = elim (find "item" scope) [
  | some (obj item) ↦ elim (find c item) [ some (bool b) ↦ ok b | _ ↦ ok false ]
  | _ ↦ ok false
]

abbrev text : Value → String
text (str s) = s
text _ = "?"

abbrev risky : Edge
risky = record { id = "e1"; source_id = "split"; target_id = "inspect"; condition = "risk" }

abbrev usual : Edge
usual = record { id = "e2"; source_id = "split"; target_id = "release"; condition = "" }

abbrev item : String → Bool → Fields
item id risk = field "id" (str id) (field "risk" (bool risk) end)

abbrev divided : Partitions
divided = (usual, item "a" false ∷ item "c" false ∷ []) ∷ (risky, item "b" true ∷ []) ∷ []

choose_edge-IsChoice_example :
    IsChoice flag (usual ∷ risky ∷ []) none (put "item" (obj (item "b" true)) end) (some risky)
unfolding choose_edge evaluate_condition find put
choose_edge-IsChoice_example =
    choose_edge-IsChoice flag (usual ∷ risky ∷ []) none (put "item" (obj (item "b" true)) end)
      (some risky) refl

partition_items-IsDivision_example :
    IsDivision flag text
      (usual ∷ risky ∷ [])
      end
      "id"
      (item "a" false ∷ item "b" true ∷ item "c" false ∷ [])
      divided
unfolding partition_items partition_loop choose_edge add_item evaluate_condition find put
partition_items-IsDivision_example =
    partition_items-IsDivision flag text (usual ∷ risky ∷ []) end "id"
      (item "a" false ∷ item "b" true ∷ item "c" false ∷ []) divided refl

abbrev returned : Fields
returned = field "_items" (list (cons (obj (item "b" false)) nil)) end

abbrev child : BatchChild
child = record { edge_id = "e1"; result = output returned }

collect_and_merge-Restored_example :
    Restored "id"
      (returned_items "_items" (child ∷ []))
      (item "a" false ∷ item "b" true ∷ [])
      (item "a" false ∷ item "b" false ∷ [])
unfolding collect_and_merge_batch_results collect_children child_items absorb_items pick_items
    lookup get_nested_key get_path segments to_item_slice any_slice get_item_id string_id find
collect_and_merge-Restored_example =
    collect_and_merge-Restored (child ∷ []) (item "a" false ∷ item "b" true ∷ []) "_items" "id"
      (item "a" false ∷ item "b" false ∷ []) (returned ∷ []) refl

-- Two branches that start with the fee 1 and the state "open"; the first closes it.
abbrev start : Fields
start = field "fee" (int (pos 1)) (field "state" (str "open") end)

abbrev closing : Fields
closing = field "fee" (int (pos 1)) (field "state" (str "closed") end)

abbrev charging : Fields
charging = field "fee" (int (pos 9)) (field "state" (str "open") end)

merge_below-eq-merge_maps_example : merge_below start closing ≡ merge_maps start closing
merge_below-eq-merge_maps_example = merge_below-eq-merge_maps start closing

find-merge_branches_example :
    find "state" (merge_branches [] (closing ∷ charging ∷ []) start)
    ≡ folded_key (mem_text "state" []) "state" (closing ∷ charging ∷ []) (find "state" start)
unfolding find
find-merge_branches_example =
    find-merge_branches [] (closing ∷ charging ∷ []) start "state"
      ((refl, (refl, tt)), ((refl, (refl, tt)), tt))

-- The write of the first branch is lost.
merge_branches_last_example :
    find "state" (merge_branches [] (closing ∷ charging ∷ []) start) ≡ some (str "open")
unfolding find mem_text
merge_branches_last_example =
    merge_branches_last [] (closing ∷ []) charging start "state" (str "open") (refl, (refl, tt))
      refl refl refl

merge_branches_last_field_example :
    (m : Fields) × (find "order" (
        merge_branches []
          (field "order" (obj closing) end ∷ field "order" (obj charging) end ∷ [])
          (field "order" (obj start) end))
      ≡ some (obj m))
    × (find "state" m ≡ some (str "open"))
unfolding find mem_text
merge_branches_last_field_example =
    merge_branches_last_field [] (field "order" (obj closing) end ∷ [])
      (field "order" (obj charging) end) (field "order" (obj start) end) "order" "state" charging
      (str "open") (refl, tt) (refl, (refl, tt)) refl refl refl refl

abbrev one_item : Fields
one_item = field "xs" (list (cons (obj (item "b" true)) nil)) end

field_of-absorb_sources_example :
    field_of "b" "risk" (("b", item "b" true) ∷ [])
    ≡ last_field text "id" "b" "risk"
        (source_items text "xs" (one_item ∷ one_item ∷ []))
        (field_of "b" "risk" [])
unfolding absorb_sources absorb_raw absorb_all absorb_item overlay lacks_id get_nested_key get_path
    segments to_item_slice any_slice get_item_id find put copy_value source_items
field_of-absorb_sources_example =
    field_of-absorb_sources text "xs" "id" "b" "risk" (one_item ∷ one_item ∷ []) []
      (("b", item "b" true) ∷ []) ((refl, (refl, tt)), ((refl, (refl, tt)), tt)) refl
