-- ===== src/Engine/Batch.antt =====
-- workflow/batch_gateway.go: how a BATCH_SPLIT divides its items over the outgoing edges and merges
-- what the partitions' child workflows return.
pub mod Partition
pub mod Division
use nsw_core.Common.{
  ℕ, String, Bool, true, false, Option, none, some, ◌||◌, List, [], ◌∷◌, ◌++◌, ltb, str_eq,
  if◌then◌else◌, length, is_empty,
}
use nsw_core.Shared.Value.{Value, null, bool, int, float, str, list, maps, obj, Fields, put}
use nsw_core.Shared.MapUtil.{get_nested_key}
use nsw_core.Engine.Dsl.{Edge, default_max_children_per_gateway}
use nsw_core.Engine.Park.{
  Cause, Failure, plain, wrap, unmatched_items, too_many_partitions, condition_failed, child_failed,
  missing_child_output, missing_id, duplicate_id, gateway_condition, definition_error,
  child_failure, split_data, Result, ok, err, ◌>>=◌, tagged, fail,
}
use nsw_core.Engine.Items.{get_item_id, string_id, to_item_slice, evaluate_condition}

-- The partitions in the order of their first item: an edge and its items.
abbrev pub Partitions : Type 0
Partitions = List (Edge × List Fields)

-- e.Condition == "" || e.Condition == "true"
abbrev pub is_default : Edge → Bool
is_default e = str_eq e.condition "" || str_eq e.condition "true"

-- defaultEdge is set once.
abbrev pub first_default : Option Edge → Edge → Option Edge
first_default none e = some e
first_default (some d) e = some d

module _ (expr : String → Fields → Result Bool) where
  -- The loop over the outgoing edges for one item: the first edge whose condition holds, else the
  -- first default edge.
  unfoldable pub choose_edge : List Edge → Option Edge → Fields → Result (Option Edge)
  choose_edge [] default scope = ok default
  choose_edge (e ∷ es) default scope = elim (is_default e) [
    | true ↦ choose_edge es (first_default default e) scope
    | false ↦ elim (evaluate_condition expr e.condition scope) [
      | err f ↦ err (tagged gateway_condition (wrap (condition_failed e.id) f))
      | ok true ↦ ok (some e)
      | ok false ↦ choose_edge es default scope
    ]
  ]

-- Appends the item to the partition of its edge, which its first item opens.
unfoldable pub add_item : Edge → Fields → Partitions → Partitions
add_item e item [] = (e, item ∷ []) ∷ []
add_item e item ((d, items) ∷ ps) =
    let rest = add_item e item ps in
    if str_eq e.id d.id then (d, items ++ item ∷ []) ∷ ps else (d, items) ∷ rest

module _ (expr : String → Fields → Result Bool) (sprint : Value → String) where
  -- The loop over the items: the partitions, and the IDs of the items that no edge takes.
  unfoldable pub partition_loop :
      List Fields
      → List Edge
      → Fields
      → String
      → Partitions
      → List String
      → Result (Partitions × List String)
  unfolding choose_edge add_item
  partition_loop [] edges vars id_field ps unmatched = ok (ps, unmatched)
  partition_loop (item ∷ items) edges vars id_field ps unmatched =
      elim (choose_edge expr edges none (put "item" (obj item) vars)) [
        | err f ↦ err f
        | ok (some e) ↦ partition_loop items edges vars id_field (add_item e item ps) unmatched
        | ok none ↦
            partition_loop items edges vars id_field ps
              (unmatched ++ sprint (get_item_id item id_field) ∷ [])
      ]

  unfoldable pub partition_items : List Fields → List Edge → Fields → String → Result Partitions
  unfolding partition_loop
  partition_items items edges vars id_field = do
    (ps, unmatched) ← partition_loop items edges vars id_field [] []
    if is_empty unmatched
        then if ltb default_max_children_per_gateway (length ps)
          then fail definition_error (too_many_partitions (length ps))
          else ok ps
        else fail gateway_condition (unmatched_items unmatched)
