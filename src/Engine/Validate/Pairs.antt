-- ===== src/Engine/Validate/Pairs.antt =====
-- ValidateBatchGateways of workflow/batch_validate.go: the pairing of splits and joins.
pub mod Nodes
pub mod Contained
pub mod Total
use nsw_core.Common.{
  String, Bool, true, false, not, ◌&&◌, ◌||◌, Option, none, some, List, [], ◌∷◌, str_eq,
  if◌then◌else◌, mem_text, is_empty,
}
use nsw_core.Engine.Dsl.{
  NodeType, GatewayType, Mapping, batch_split, batch_join, Node, Edge, WorkflowDefinition,
  is_gateway,
}
use nsw_core.Engine.Mapping.{mapped, key}
use nsw_core.Engine.Gateways.{batch_join_split}
use nsw_core.Engine.SubGraph.{is_batch_join}
use nsw_core.Engine.State.{out_edges}
use nsw_core.Engine.Validate.{validate_gateway_region}
use nsw_core.Engine.Validate.Mappings.{validate_batch_split_mappings}

abbrev pub is_batch_split : GatewayType → Bool
is_batch_split batch_split = true
is_batch_split _ = false

-- A write to one of the maps from IDs to nodes.
unfoldable pub put_node : Node → List Node → List Node
put_node n [] = n ∷ []
put_node n (m ∷ ms) = let rest = put_node n ms in if str_eq m.id n.id then n ∷ ms else m ∷ rest

abbrev pub Indexed : Type 0
Indexed = List Node × List Node

-- The loop over the nodes: batchSplits and batchJoins.
unfoldable pub index_nodes : List Node → Indexed → Option Indexed
unfolding put_node
index_nodes [] acc = some acc
index_nodes (n ∷ ns) (splits, joins) = elim (is_gateway n.type && is_batch_split n.gateway_type) [
  | true ↦ index_nodes ns (put_node n splits, joins)
  | false ↦ elim (is_gateway n.type && is_batch_join n.gateway_type) [
    | false ↦ index_nodes ns (splits, joins)
    | true ↦ elim (str_eq (batch_join_split n) "") [
      | true ↦ none
      | false ↦ index_nodes ns (splits, put_node n joins)
    ]
  ]
]

unfoldable pub has_id : String → List Node → Bool
has_id id [] = false
has_id id (n ∷ ns) = str_eq n.id id || has_id id ns

unfoldable pub has_key : String → Mapping → Bool
has_key k [] = false
has_key k (e ∷ m) = str_eq (key e) k || has_key k m

-- The loop over the joins that fills pairedJoins.
unfoldable pub pair_joins : List Node → List Node → Mapping → Option Mapping
unfolding has_id has_key
pair_joins splits [] paired = some paired
pair_joins splits (j ∷ js) paired =
    elim (has_id (batch_join_split j) splits && not (has_key (batch_join_split j) paired)) [
      | true ↦ pair_joins splits js ((batch_join_split j, j.id) ∷ paired)
      | false ↦ none
    ]

abbrev pub is_single : List Edge → Bool
is_single (e ∷ []) = true
is_single _ = false

unfoldable pub splits_sound : List Node → Mapping → Bool
unfolding has_key validate_batch_split_mappings
splits_sound [] paired = true
splits_sound (n ∷ ns) paired =
    (has_key n.id paired && validate_batch_split_mappings n) && splits_sound ns paired

unfoldable pub joins_sound : List Edge → List Node → Bool
unfolding out_edges
joins_sound edges [] = true
joins_sound edges (n ∷ ns) =
    ((is_empty n.input_mapping && is_empty n.output_mapping) && is_single (out_edges n.id edges))
    && joins_sound edges ns

-- The loop over the pairs.
unfoldable pub check_regions : List Node → List Edge → Mapping → Mapping → Option Bool
unfolding validate_gateway_region
check_regions nodes edges pairs [] = some true
check_regions nodes edges pairs (e ∷ m) =
    elim (validate_gateway_region nodes edges is_batch_split pairs (key e) e.1) [
      | none ↦ none
      | some ok ↦ elim ok [ true ↦ check_regions nodes edges pairs m | false ↦ some false ]
    ]

unfoldable pub check_pairs : WorkflowDefinition → Indexed → Mapping → Option Bool
unfolding splits_sound joins_sound check_regions
check_pairs def (splits, joins) paired =
    elim (splits_sound splits paired && joins_sound def.edges joins) [
      | true ↦ check_regions def.nodes def.edges paired paired
      | false ↦ some false
    ]

-- An error is the result false.
unfoldable pub validate_batch_gateways : WorkflowDefinition → Option Bool
unfolding index_nodes pair_joins check_pairs
validate_batch_gateways def = elim (index_nodes def.nodes ([], [])) [
  | none ↦ some false
  | some acc ↦ elim (pair_joins acc.0 acc.1 []) [
    | none ↦ some false
    | some paired ↦ check_pairs def acc paired
  ]
]
