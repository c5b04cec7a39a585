-- ===== src/Engine/Validate.antt =====
-- workflow/batch_validate.go: validateGatewayRegion, which both kinds of splits are checked by.
pub mod Explored
pub mod Ends
pub mod Region
pub mod Mappings
pub mod Pairs
use nsw_core.Common.{
  ℕ, zero, suc, ◌+◌, String, Bool, true, false, not, ◌&&◌, ◌||◌, Option, none, some, List, [], ◌∷◌,
  ◌++◌, map, str_eq, if◌then◌else◌, mem_text, is_empty, length,
}
use nsw_core.Engine.Dsl.{NodeType, GatewayType, Mapping, end, other, Node, Edge, is_gateway}
use nsw_core.Engine.Mapping.{mapped}
use nsw_core.Engine.State.{find_node, out_edges, in_edges}

-- An edge taken backwards.
abbrev pub reversed : Edge → Edge
reversed e = record {
  id = e.id;
  source_id = e.target_id;
  target_id = e.source_id;
  condition = e.condition;
}

module _ (stop : String → Bool) where
  -- The loop over the edges of one node: the queue, and the nodes that are seen.
  unfoldable pub visit_edges :
      List Edge → String → List String → List String → List String × List String
  visit_edges [] curr queue seen = (queue, seen)
  visit_edges (e ∷ es) curr queue seen =
      elim (str_eq e.source_id curr && not (stop e.target_id || mem_text e.target_id seen)) [
        | true ↦ visit_edges es curr (queue ++ e.target_id ∷ []) (e.target_id ∷ seen)
        | false ↦ visit_edges es curr queue seen
      ]

  -- The loop over the queue, one node for each unit of fuel.
  unfoldable pub explore : ℕ → List Edge → List String → List String → Option (List String)
  unfolding visit_edges
  explore n edges [] seen = some seen
  explore zero edges (curr ∷ queue) seen = none
  explore (suc n) edges (curr ∷ queue) seen =
      let (queue', seen') = visit_edges edges curr queue seen in explore n edges queue' seen'

-- Each round takes a node from the queue, which joins it once, over some edge or at the start.
abbrev pub explore_fuel : List Edge → ℕ
explore_fuel edges = length edges + 2

-- The nodes from the split on, without passing the join; the nodes that lead to the join.
unfoldable pub region_nodes : List Edge → String → String → Option (List String)
unfolding explore
region_nodes edges split join =
    explore (λ x. str_eq x join) (explore_fuel edges) edges (split ∷ []) (split ∷ [])

unfoldable pub can_reach_join : List Edge → String → Option (List String)
unfolding explore
can_reach_join edges join =
    explore (λ x. false) (explore_fuel (map reversed edges)) (map reversed edges) (join ∷ [])
      (join ∷ [])

abbrev pub is_end : NodeType → Bool
is_end end = true
is_end _ = false

-- Some edge starts outside the region.
unfoldable pub enters : List String → List Edge → Bool
enters region [] = false
enters region (e ∷ es) = not (mem_text e.source_id region) || enters region es

module _ (nodes : List Node) (edges : List Edge) (is_nested : GatewayType → Bool) (pairs : Mapping)
    (split join : String) where
  -- What the loop over the region refuses a node for, in the order of its tests.
  unfoldable pub is_faulty : List String → List String → String → Option Node → Bool
  unfolding enters
  is_faulty region joining id none = true
  is_faulty region joining id (some n) =
      is_end n.type
      || (is_empty (out_edges id edges)
          || (not (mem_text id joining)
              || ((is_gateway n.type
                    && (is_nested n.gateway_type
                        && (not (str_eq id split) && not (mem_text (mapped id pairs) region))))
                  || (not (str_eq id split) && enters region (in_edges id edges)))))

  unfoldable pub all_sound : List String → List String → List String → Bool
  unfolding is_faulty
  all_sound region joining [] = true
  all_sound region joining (id ∷ ids) =
      not (is_faulty region joining id (find_node id nodes)) && all_sound region joining ids

  unfoldable pub region_is_closed : List String → List String → Bool
  unfolding all_sound enters
  region_is_closed region joining =
      not (is_empty (out_edges split edges))
      && (all_sound region joining region && not (enters region (in_edges join edges)))

  -- Whether the region of a split is accepted; `none` where the fuel runs out.
  unfoldable pub validate_gateway_region : Option Bool
  unfolding region_nodes can_reach_join region_is_closed
  validate_gateway_region = elim (region_nodes edges split join) [
    | none ↦ none
    | some region ↦ elim (can_reach_join edges join) [
      | none ↦ none
      | some joining ↦ some (region_is_closed region joining)
    ]
  ]
