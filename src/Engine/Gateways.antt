-- ===== src/Engine/Gateways.antt =====
-- The gateways that route or pass through: handleGatewayNode's exclusive cases of
-- workflow/workflow.go, the joins and skipToJoinOutEdge of workflow/batch_gateway.go and
-- workflow/parallel_gateway.go.
use nsw_core.Common.{
  ℕ, String, Bool, true, false, Option, none, some, List, [], ◌∷◌, ltb, str_eq, if◌then◌else◌,
}
use nsw_core.Engine.Dsl.{Node, Edge}
use nsw_core.Engine.Park.{
  gateway_condition, definition_error, invalid_definition, no_match, Result, ok, err, tagged,
}
use nsw_core.Engine.Items.{evaluate_condition}
use nsw_core.Engine.State.{batch_joined, parallel_joined, out_edges, in_edges, take_token}
use nsw_core.Engine.Runtime.{Runtime}
use nsw_core.Engine.Exec.{Exec, ◌>>=◌, ◌>>◌, pure, raise, throw, gets, modify, log, variables}
use nsw_core.Engine.Nodes.{complete_node, single_edge, transition_to, follow_first}

-- The first incoming edge that holds a token.
unfoldable pub find_token : List Edge → (String → ℕ) → Option String
find_token [] tokens = none
find_token (e ∷ es) tokens =
    let rest = find_token es tokens in if ltb 0 (tokens e.id) then some e.id else rest

abbrev pub batch_join_split : Node → String
batch_join_split n = elim n.batch_join [ none ↦ "" | some c ↦ c.gateway_node_id ]

abbrev pub parallel_join_split : Node → String
parallel_join_split n = elim n.parallel_join [ none ↦ "" | some c ↦ c.gateway_node_id ]

module _ {rt : Runtime} where
  unfoldable pub take_from : Node → Option String → Exec rt (Unit {0})
  unfolding modify throw
  take_from node none = throw definition_error (invalid_definition node.id)
  take_from node (some id) = modify (λ g. record g { edge_tokens = take_token id g.edge_tokens })

  -- One token of the incoming edges is consumed.
  unfoldable pub consume_token : Node → Exec rt (Unit {0})
  unfolding gets take_from find_token
  consume_token node = do
    g ← gets (λ g. g)
    take_from node (find_token (in_edges node.id g.def.edges) g.edge_tokens)

  -- An edge whose condition holds is chosen; `rest` tries the edges after it.
  unfoldable pub choose_matching : Edge → Exec rt Edge → Result Bool → Exec rt Edge
  unfolding raise pure
  choose_matching e rest (err f) = raise (tagged gateway_condition f)
  choose_matching e rest (ok true) = pure e
  choose_matching e rest (ok false) = rest

  -- The first edge whose condition holds in the variables.
  unfoldable pub choose_exclusive : Node → List Edge → Exec rt Edge
  unfolding variables throw choose_matching
  choose_exclusive node [] = throw gateway_condition (no_match node.id)
  choose_exclusive node (e ∷ es) = do
    vars ← variables
    choose_matching e (choose_exclusive node es) (evaluate_condition rt.expr e.condition vars)

  -- gateway_node_id is required on a join.
  unfoldable pub require_split : Node → String → Exec rt (Unit {0})
  unfolding throw pure
  require_split node split =
      if str_eq split "" then throw definition_error (invalid_definition node.id) else pure tt

  module _ (next : String → Exec rt (Unit {0})) where
    unfoldable pub exclusive_split_gateway : Node → List Edge → Exec rt (Unit {0})
    unfolding choose_exclusive complete_node transition_to
    exclusive_split_gateway node out = do
      e ← choose_exclusive node out
      complete_node node.id
      transition_to next e

    unfoldable pub exclusive_join_gateway : Node → List Edge → Exec rt (Unit {0})
    unfolding consume_token single_edge complete_node transition_to
    exclusive_join_gateway node out = do
      consume_token node
      e ← single_edge node out
      complete_node node.id
      transition_to next e

    unfoldable pub handle_batch_join_gateway : Node → List Edge → Exec rt (Unit {0})
    unfolding require_split complete_node log follow_first
    handle_batch_join_gateway node out = do
      require_split node (batch_join_split node)
      complete_node node.id
      log (batch_joined node.id (batch_join_split node))
      follow_first next out

    unfoldable pub handle_parallel_join_gateway : Node → List Edge → Exec rt (Unit {0})
    unfolding require_split complete_node log follow_first
    handle_parallel_join_gateway node out = do
      require_split node (parallel_join_split node)
      complete_node node.id
      log (parallel_joined node.id (parallel_join_split node))
      follow_first next out

    -- The join is marked as completed in the split's stead, and its first edge is followed.
    unfoldable pub skip_to_join_out_edge : String → Exec rt (Unit {0})
    unfolding complete_node gets follow_first
    skip_to_join_out_edge join = do
      complete_node join
      out ← gets (λ g. out_edges join g.def.edges)
      follow_first next out
