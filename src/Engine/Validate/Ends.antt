-- ===== src/Engine/Validate/Ends.antt =====
-- The fuel of the loops of validateGatewayRegion.
use nsw_core.Common.{
  ℕ, zero, suc, ◌+◌, ◌≤◌, ◌<◌, String, ◌≡◌, refl, Bool, false, not, ◌&&◌, ◌||◌, some, inl, inr,
  List, [], ◌∷◌, ◌++◌, map, arith, str_eq, mem_text, In, length, length-append, Bool-cases,
}
use nsw_core.Engine.Dsl.{GatewayType, Mapping, Node, Edge}
use nsw_core.Engine.SubGraph.Total.{
  unvisited, unvisited-visit, unvisited-le-length, targets, In-targets, length-targets,
}
use nsw_core.Engine.Validate.{
  reversed, visit_edges, explore, explore_fuel, region_nodes, can_reach_join, region_is_closed,
  validate_gateway_region,
}
use nsw_core.Engine.Validate.Explored.{taken-parts, visit_taken, visit_left}

module _ (stop : String → Bool) (edges : List Edge) where
  visit_measure :
      (es : List Edge) (curr : String) (queue seen : List String)
      → ((e : Edge) → In e es → In e edges)
      → length (visit_edges stop es curr queue seen).0
          + unvisited (targets edges) (visit_edges stop es curr queue seen).1
        ≤ length queue + unvisited (targets edges) seen
  unfolding visit_edges
  visit_measure [] curr queue seen k = omega arith
  visit_measure (e ∷ es) curr queue seen k =
      elim (Bool-cases
        (str_eq e.source_id curr && not (stop e.target_id || mem_text e.target_id seen))) [
          | inl taken ↦
              let (a, b, c) =
                taken-parts stop (str_eq e.source_id curr) (stop e.target_id)
                  (mem_text e.target_id seen) taken in
              rw (visit_taken stop e es curr queue seen taken) (
                omega (
                  arith,
                  visit_measure es curr (queue ++ e.target_id ∷ []) (e.target_id ∷ seen)
                      (λ d i. k d (inr i)),
                  length-append queue (e.target_id ∷ []),
                  unvisited-visit (targets edges) e.target_id seen
                      (In-targets e edges (k e (inl refl))) c,
                ))
          | inr left ↦
              rw (visit_left stop e es curr queue seen left)
                (visit_measure es curr queue seen (λ d i. k d (inr i)))
        ]

  explore_total :
      (n : ℕ) (queue seen : List String)
      → length queue + unvisited (targets edges) seen < n
      → (ids : List String) × (explore stop n edges queue seen ≡ some ids)
  unfolding explore
  explore_total zero queue seen h = absurd (omega arith)
  explore_total (suc n) [] seen h = (seen, refl)
  explore_total (suc n) (curr ∷ queue) seen h =
      explore_total n (visit_edges stop edges curr queue seen).0
        (visit_edges stop edges curr queue seen).1
        (omega (arith, visit_measure edges curr queue seen (λ e i. i)))

  explore_fuel_total :
      (a : String)
      → (ids : List String) × (explore stop (explore_fuel edges) edges (a ∷ []) (a ∷ []) ≡ some ids)
  explore_fuel_total a =
      explore_total (explore_fuel edges) (a ∷ []) (a ∷ [])
        (omega (arith, unvisited-le-length (targets edges) (a ∷ []), length-targets edges))

-- validateGatewayRegion ends on every definition, cycles included: both of its searches end within
-- the fuel of two more than the number of edges.
pub validate_gateway_region_total :
    (nodes : List Node) (edges : List Edge) (is_nested : GatewayType → Bool) (pairs : Mapping)
    (split join : String)
    → (b : Bool) × (validate_gateway_region nodes edges is_nested pairs split join ≡ some b)
unfolding validate_gateway_region region_nodes can_reach_join
validate_gateway_region_total nodes edges is_nested pairs split join =
    let (region, p) = explore_fuel_total (λ x. str_eq x join) edges split in
    let (joining, q) = explore_fuel_total (λ x. false) (map reversed edges) join in
    (
      region_is_closed nodes edges is_nested pairs split join region joining,
      rw (validate_gateway_region, region_nodes, can_reach_join, p, q) refl,
    )
