-- ===== src/Engine/Items.antt =====
-- Item slices and their IDs: toItemSlice, toAnySlice and getItemID of workflow/batch_gateway.go, and
-- EvaluateCondition of workflow/evaluator.go.
use nsw_core.Common.{String, Bool, true, none, some, List, [], ◌∷◌, str_eq, if◌then◌else◌}
use nsw_core.Shared.Value.{
  Value, null, str, list, maps, obj, Items, nil, cons, Maps, no_maps, cons_map, Fields, find,
}
use nsw_core.Engine.Park.{Cause, plain, invalid_items, Result, ok, err, ◌>>=◌}

-- []map[string]any as it stands.
unfoldable pub map_slice : Maps → List Fields
map_slice no_maps = []
map_slice (cons_map m ms) = m ∷ map_slice ms

-- []any, each element a map.
unfoldable pub any_slice : Items → Result (List Fields)
any_slice nil = ok []
any_slice (cons (obj m) xs) = do ms ← any_slice xs; ok (m ∷ ms)
any_slice (cons _ xs) = err (plain (invalid_items "item is not a map"))

unfoldable pub to_item_slice : Value → Result (List Fields)
unfolding any_slice map_slice
to_item_slice null = ok []
to_item_slice (maps ms) = ok (map_slice ms)
to_item_slice (list xs) = any_slice xs
to_item_slice _ = err (plain (invalid_items "not a slice"))

unfoldable pub to_any_slice : List Fields → Items
to_any_slice [] = nil
to_any_slice (m ∷ ms) = cons (obj m) (to_any_slice ms)

unfoldable pub get_item_id : Fields → String → Value
get_item_id item id_field = elim (find id_field item) [ some v ↦ v | none ↦ str "" ]

-- The check of an item's ID: present, a string, and not empty.
unfoldable pub string_id : Cause → Value → Result String
string_id c (str s) = if str_eq s "" then err (plain c) else ok s
string_id c _ = err (plain c)

-- An empty condition passes; any other is the expression library's to compile and run.
unfoldable pub evaluate_condition : (String → Fields → Result Bool) → String → Fields → Result Bool
evaluate_condition expr condition scope =
    if str_eq condition "" then ok true else expr condition scope
