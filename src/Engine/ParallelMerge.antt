-- ===== src/Engine/ParallelMerge.antt =====
-- workflow/parallel_gateway.go: how the branches of a PARALLEL_SPLIT are reconciled.
pub mod Keys
pub mod United
use nsw_core.Common.{
  String, Bool, true, false, ◌||◌, Option, none, some, List, [], ◌∷◌, ◌++◌, map, str_eq,
  if◌then◌else◌, mem_text,
}
use nsw_core.Shared.Value.{
  Value, null, bool, int, float, str, list, maps, obj, Items, nil, cons, Fields, end, field, find,
  put, copy_value, copy_map,
}
use nsw_core.Shared.MapUtil.{get_nested_key, set_nested_key}
use nsw_core.Engine.Dsl.{Mapping}
use nsw_core.Engine.Park.{
  Cause, Failure, plain, wrap, missing_id, invalid_items, split_data, Result, ok, err, ◌>>=◌,
  tagged, fail,
}
use nsw_core.Engine.Items.{get_item_id, to_item_slice, to_any_slice}

-- mergeVariablesInto below the top level, where no key is skipped.
unfoldable mutual
  pub merge_below : Fields → Fields → Fields
  merge_below dst end = dst
  merge_below dst (field k v src) = merge_below (put k (merge_variable (find k dst) v) dst) src

  pub merge_variable : Option Value → Value → Value
  merge_variable (some (obj sub)) (obj m) = obj (merge_below sub m)
  merge_variable _ (obj m) = obj (copy_map m)
  merge_variable _ v = copy_value v

-- mergeVariablesInto at the top level: the keys in `skip` are left alone.
unfoldable pub merge_variables_into : List String → Fields → Fields → Fields
unfolding merge_below
merge_variables_into skip dst end = dst
merge_variables_into skip dst (field k v src) =
    merge_variables_into skip
      (if mem_text k skip then dst else put k (merge_variable (find k dst) v) dst) src

-- The merged items by ID, in the order in which the IDs are first seen.
abbrev pub Merged : Type 0
Merged = List (String × Fields)

-- for k, v := range item { existing[k] = deepcopy.Value(v) }
unfoldable pub overlay : Fields → Fields → Fields
overlay existing end = existing
overlay existing (field k v item) = overlay (put k (copy_value v) existing) item

-- The item joins the one of its ID, or is appended.
unfoldable pub absorb_item : String → Fields → Merged → Merged
unfolding overlay
absorb_item id item [] = (id, copy_map item) ∷ []
absorb_item id item ((j, existing) ∷ m) =
    let rest = absorb_item id item m in
    if str_eq id j then (j, overlay existing item) ∷ m else (j, existing) ∷ rest

-- idVal == nil || idVal == "" || idStr == "" || idStr == "<nil>"
unfoldable pub lacks_id : Value → String → Bool
lacks_id null text = true
lacks_id (str s) text = str_eq s "" || (str_eq text "" || str_eq text "<nil>")
lacks_id _ text = str_eq text "" || str_eq text "<nil>"

module _ (sprint : Value → String) where
  unfoldable pub absorb_all : String → List Fields → Merged → Result Merged
  unfolding absorb_item lacks_id
  absorb_all id_field [] m = ok m
  absorb_all id_field (item ∷ items) m =
      let id = get_item_id item id_field in
      elim (lacks_id id (sprint id)) [
        | true ↦ fail split_data (missing_id id_field)
        | false ↦ absorb_all id_field items (absorb_item (sprint id) item m)
      ]

  -- absorb(raw, origin), for a variable that is there.
  unfoldable pub absorb_raw : String → Value → Merged → Result Merged
  unfolding absorb_all
  absorb_raw id_field raw m = elim (to_item_slice raw) [
    | err f ↦ err (tagged split_data (wrap (invalid_items id_field) f))
    | ok items ↦ absorb_all id_field items m
  ]

  unfoldable pub absorb_sources : String → String → List Fields → Merged → Result Merged
  unfolding absorb_raw
  absorb_sources var_path id_field [] m = ok m
  absorb_sources var_path id_field (vars ∷ rest) m = elim (get_nested_key vars var_path) [
    | none ↦ absorb_sources var_path id_field rest m
    | some raw ↦ elim (absorb_raw id_field raw m) [
      | err f ↦ err f
      | ok m' ↦ absorb_sources var_path id_field rest m'
    ]
  ]

  -- The base state first, then the branches in their order.
  unfoldable pub merge_items_by_id : Fields → List Fields → String → String → Result (List Fields)
  unfolding absorb_sources
  merge_items_by_id base branches var_path id_field = do
    m ← absorb_sources var_path id_field (base ∷ branches) []
    ok (map (λ (e : String × Fields). e.1) m)

  -- The loop over mergeByID.
  unfoldable pub merge_listed : Mapping → List Fields → Fields → Result Fields
  unfolding merge_items_by_id
  merge_listed [] branches result = ok result
  merge_listed ((var_path, id_field) ∷ rest) branches result =
      elim (merge_items_by_id result branches var_path id_field) [
        | err f ↦ err f
        | ok items ↦
            merge_listed rest branches (set_nested_key result var_path (list (to_any_slice items)))
      ]

-- The loop over the branches.
unfoldable pub merge_branches : List String → List Fields → Fields → Fields
unfolding merge_variables_into
merge_branches skip [] result = result
merge_branches skip (b ∷ bs) result = merge_branches skip bs (merge_variables_into skip result b)

abbrev pub listed : Mapping → List String
listed m = map (λ (e : String × String). e.0) m

unfoldable pub merge_parallel_branches :
    (Value → String) → Fields → List Fields → Mapping → Result Fields
unfolding merge_listed merge_branches
merge_parallel_branches sprint base branches merge_by_id = do
  result ← merge_listed sprint merge_by_id branches (copy_map base)
  ok (merge_branches (listed merge_by_id) branches result)
