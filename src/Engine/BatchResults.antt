-- ===== src/Engine/BatchResults.antt =====
-- collectAndMergeBatchResults of workflow/batch_gateway.go: the partitions' items merged back by ID.
pub mod Collected
pub mod Merged
use nsw_core.Common.{
  String, Bool, true, false, Option, none, some, List, [], ◌∷◌, ◌++◌, str_eq, if◌then◌else◌,
}
use nsw_core.Shared.Value.{Value, Fields, null, bool, int, float, str, list, maps, obj}
use nsw_core.Shared.MapUtil.{get_nested_key}
use nsw_core.Engine.Park.{
  Cause, Failure, plain, wrap, child_failed, missing_child_output, missing_id, duplicate_id,
  invalid_items, child_failure, split_data, Result, ok, err, ◌>>=◌, tagged, fail,
}
use nsw_core.Engine.Items.{get_item_id, string_id, to_item_slice}

-- What a child's future gives: an error, no instance, or the variables it ended with.
pub data ChildOutput : Type 0 where
  failed : Failure → ChildOutput
  no_output : ChildOutput
  output : Fields → ChildOutput

pub record BatchChild : Type 0 where
  pub edge_id : String
  pub result : ChildOutput

-- mergedItems: the items that the children returned, by their IDs.
abbrev pub ById : Type 0
ById = List (String × Fields)

unfoldable pub lookup : String → ById → Option Fields
lookup id [] = none
lookup id ((j, item) ∷ m) = let rest = lookup id m in if str_eq id j then some item else rest

-- The loop over one child's items.
unfoldable pub absorb_items : String → String → List Fields → ById → Result ById
unfolding lookup
absorb_items edge_id id_field [] merged = ok merged
absorb_items edge_id id_field (item ∷ items) merged =
    elim (string_id (missing_id edge_id) (get_item_id item id_field)) [
      | err f ↦ err (tagged split_data f)
      | ok id ↦ elim (lookup id merged) [
        | some _ ↦ fail split_data (duplicate_id id)
        | none ↦ absorb_items edge_id id_field items ((id, item) ∷ merged)
      ]
    ]

-- The variables of one child, and its items.
unfoldable pub child_items : String → BatchChild → Result (Fields × List Fields)
child_items items_var c = elim c.result [
  | failed f ↦ err (tagged child_failure (wrap (child_failed c.edge_id) f))
  | no_output ↦ fail child_failure (missing_child_output c.edge_id)
  | output vars ↦ elim (get_nested_key vars items_var) [
    | none ↦ fail split_data (missing_child_output c.edge_id)
    | some raw ↦ elim (to_item_slice raw) [
      | err f ↦ err (tagged split_data (wrap (invalid_items c.edge_id) f))
      | ok items ↦ ok (vars, items)
    ]
  ]
]

-- The loop over the children: mergedItems, and each child's variables in order.
unfoldable pub collect_children :
    String → String → List BatchChild → ById × List Fields → Result (ById × List Fields)
unfolding child_items absorb_items
collect_children items_var id_field [] acc = ok acc
collect_children items_var id_field (c ∷ cs) (merged, child_vars) = elim (child_items items_var c) [
  | err f ↦ err f
  | ok (vars, items) ↦ elim (absorb_items c.edge_id id_field items merged) [
    | err f ↦ err f
    | ok merged' ↦ collect_children items_var id_field cs (merged', child_vars ++ vars ∷ [])
  ]
]

-- The item that a child returned under the original's ID, else the original.
unfoldable pub pick_items : String → List Fields → ById → Result (List Fields)
unfolding lookup
pick_items id_field [] merged = ok []
pick_items id_field (original ∷ rest) merged = do
  items ← pick_items id_field rest merged
  (elim (get_item_id original id_field) [
    | str id ↦ elim (lookup id merged) [
      | some item ↦ ok (item ∷ items)
      | none ↦ ok (original ∷ items)
    ]
    | _ ↦ fail split_data (missing_id id_field)
  ])

unfoldable pub collect_and_merge_batch_results :
    List BatchChild → List Fields → String → String → Result (List Fields × List Fields)
unfolding collect_children pick_items
collect_and_merge_batch_results children originals items_var id_field = do
  (merged, child_vars) ← collect_children items_var id_field children ([], [])
  result ← pick_items id_field originals merged
  ok (result, child_vars)
