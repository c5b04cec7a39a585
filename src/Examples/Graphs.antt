-- ===== src/Examples/Graphs.antt =====
-- The part of a definition that a branch runs, at a concrete one.
use nsw_core.Common.{
  String, Bool, str_eq, true, false, ◌≡◌, refl, inl, inr, ◌↔◌, some, List, [], ◌∷◌, In, mem_text,
}
use nsw_core.Engine.Dsl.{task, gateway, GatewayType, Node, Edge, WorkflowDefinition}
use nsw_core.Engine.State.{find_node, in_edges, out_edges}
use nsw_core.Engine.Mapping.{mapped}
use nsw_core.Engine.Validate.{
  visit_edges, explore, region_nodes, can_reach_join, enters, is_faulty, all_sound,
  region_is_closed, validate_gateway_region,
}
use nsw_core.Engine.Validate.Mappings.{
  inputs_accepted, outputs_accepted, validate_batch_split_mappings, AreSound,
  validate_batch_split_mappings-AreSound,
}
use nsw_core.Engine.Validate.Pairs.{
  put_node, index_nodes, has_id, has_key, pair_joins, splits_sound, joins_sound, check_regions,
  check_pairs, validate_batch_gateways,
}
use nsw_core.Engine.Validate.Pairs.Nodes.{IsJoin}
use nsw_core.Engine.Validate.Pairs.Total.{validate_batch_gateways_total}
use nsw_core.Engine.Validate.Pairs.Contained.{validate_batch_gateways-IsRegion}
use nsw_core.Engine.Gateways.{batch_join_split}
use nsw_core.Engine.Validate.Region.{IsRegion, validate_gateway_region-IsRegion}
use nsw_core.Engine.SubGraph.{bare_node, reachable_ids, extract_sub_graph}
use nsw_core.Engine.SubGraph.Closed.{HasNode, IsClosed}
use nsw_core.Engine.SubGraph.Total.{reachable_ids_total}
use nsw_core.Engine.SubGraph.Extracted.{IsSubGraph, extract_sub_graph-IsSubGraph}

abbrev edge : String → String → Edge
edge a b = record { id = "e"; source_id = a; target_id = b; condition = "" }

-- check and fix are a loop; join is where the branch stops.
abbrev loop : List Edge
loop = edge "check" "fix" ∷ edge "fix" "check" ∷ edge "fix" "join" ∷ []

abbrev looping : WorkflowDefinition
looping = record {
  id = "w";
  name = "loop";
  version = 1;
  nodes = bare_node "check" task ∷ bare_node "fix" task ∷ bare_node "join" task ∷ [];
  edges = loop;
}

has_check : HasNode "check" looping.nodes
has_check = (bare_node "check" task, inl refl, refl)

has_fix : HasNode "fix" looping.nodes
has_fix = (bare_node "fix" task, inr (inl refl), refl)

has_join : HasNode "join" looping.nodes
has_join = (bare_node "join" task, inr (inr (inl refl)), refl)

looping-IsClosed : IsClosed looping.nodes loop
looping-IsClosed e (inl p) = rw p (has_check, has_fix)
looping-IsClosed e (inr (inl p)) = rw p (has_fix, has_check)
looping-IsClosed e (inr (inr (inl p))) = rw p (has_fix, has_join)
looping-IsClosed e (inr (inr (inr p))) = elim p [ ]

extract_sub_graph-IsSubGraph_example :
    (sub : WorkflowDefinition) × (extract_sub_graph looping "check" "join" ≡ some sub)
    × IsSubGraph looping "check" "join" sub
    × IsClosed sub.nodes sub.edges
extract_sub_graph-IsSubGraph_example =
    extract_sub_graph-IsSubGraph looping "check" "join" looping-IsClosed has_check

reachable_ids_total_example : (ids : List String) × (reachable_ids loop "check" "join" ≡ some ids)
reachable_ids_total_example = reachable_ids_total loop "join" "check"

abbrev between_gateways : List Edge
between_gateways =
    edge "split" "check" ∷ edge "split" "fix" ∷ edge "fix" "check" ∷ edge "check" "join" ∷ []

abbrev gateway_nodes : List Node
gateway_nodes =
    bare_node "split" gateway
    ∷ bare_node "check" task
    ∷ bare_node "fix" task
    ∷ bare_node "join" gateway
    ∷ []

abbrev none_nested : GatewayType → Bool
none_nested t = false

accepted :
    validate_gateway_region gateway_nodes between_gateways none_nested [] "split" "join" ≡ some true
unfolding validate_gateway_region region_nodes can_reach_join explore visit_edges region_is_closed
    all_sound is_faulty enters find_node in_edges out_edges mapped mem_text
accepted = refl

validate_gateway_region-IsRegion_example : IsRegion gateway_nodes between_gateways "split" "join"
validate_gateway_region-IsRegion_example =
    validate_gateway_region-IsRegion gateway_nodes between_gateways none_nested [] "split" "join"
      accepted

-- The search goes round the loop and stops at the join.
explored :
    explore (λ y. str_eq y "join") 5 loop ("check" ∷ []) ("check" ∷ [])
    ≡ some ("fix" ∷ "check" ∷ [])
unfolding explore visit_edges mem_text
explored = refl

-- Two results go to two places.
abbrev mapped_split : Node
mapped_split = record (bare_node "split" gateway) {
  input_mapping = ("applicant?", "applicant") ∷ [];
  output_mapping = ("fee", "fees.total") ∷ ("note?", "notes") ∷ [];
}

validate_batch_split_mappings-AreSound_example :
    (validate_batch_split_mappings mapped_split ≡ true) ↔ AreSound mapped_split
validate_batch_split_mappings-AreSound_example = validate_batch_split_mappings-AreSound mapped_split

abbrev batch_split_node : Node
batch_split_node = record (bare_node "split" gateway) { gateway_type = GatewayType.batch_split }

abbrev batch_join_node : Node
batch_join_node = record (bare_node "join" gateway) {
  gateway_type = GatewayType.batch_join;
  batch_join = some (record { gateway_node_id = "split"; items_variable = ""; id_field = "" });
}

abbrev batched : WorkflowDefinition
batched = record {
  id = "w";
  name = "batched";
  version = 1;
  nodes =
      batch_split_node
      ∷ bare_node "check" task
      ∷ bare_node "fix" task
      ∷ batch_join_node
      ∷ bare_node "last" task
      ∷ [];
  edges = edge "join" "last" ∷ between_gateways;
}

batched_accepted : validate_batch_gateways batched ≡ some true
unfolding validate_batch_gateways index_nodes put_node has_id has_key pair_joins splits_sound
    joins_sound check_regions check_pairs validate_batch_split_mappings inputs_accepted
    outputs_accepted validate_gateway_region region_nodes can_reach_join explore visit_edges
    region_is_closed all_sound is_faulty enters find_node in_edges out_edges mapped mem_text
batched_accepted = refl

validate_batch_gateways-IsRegion_example :
    (j : Node) × In j batched.nodes
    × IsJoin j
    × (batch_join_split j ≡ "split")
    × IsRegion batched.nodes batched.edges "split" j.id
validate_batch_gateways-IsRegion_example =
    validate_batch_gateways-IsRegion batched batched_accepted batch_split_node (inl refl) refl

validate_batch_gateways_total_example : (b : Bool) × (validate_batch_gateways looping ≡ some b)
validate_batch_gateways_total_example = validate_batch_gateways_total looping
