-- ===== src/Engine/SubGraph.antt =====
-- extractSubGraph and findPairedBatchJoin of workflow/batch_gateway.go, findPairedParallelJoin of
-- workflow/parallel_gateway.go: the part of a definition that a branch runs.
pub mod Reach
pub mod Total
pub mod Closed
pub mod Extracted
use Prim.Native.String.{◌++◌ as concat}
use nsw_core.Common.{
  ℕ, zero, suc, ◌+◌, String, Bool, true, false, ◌||◌, ◌&&◌, Option, none, some, List, [], ◌∷◌, ◌++◌,
  str_eq, if◌then◌else◌, mem_text, length,
}
use nsw_core.Shared.Value.{Fields}
use nsw_core.Engine.Dsl.{
  NodeType, GatewayType, parallel_join, batch_join, other, Node, Edge, WorkflowDefinition,
  is_gateway,
}

-- The loop over the edges of one node, with the walk of a target passed in.
unfoldable pub walk_edges :
    (String → List String → Option (List String))
    → List Edge
    → String
    → List String
    → Option (List String)
walk_edges walk [] id visited = some visited
walk_edges walk (e ∷ es) id visited = elim (str_eq e.source_id id) [
  | true ↦ elim (walk e.target_id visited) [
    | none ↦ none
    | some visited' ↦ walk_edges walk es id visited'
  ]
  | false ↦ walk_edges walk es id visited
]

-- `walk` of extractSubGraph with fuel for its depth: the visited IDs, `none` where the fuel runs out.
unfoldable pub walk_from : ℕ → List Edge → String → String → List String → Option (List String)
unfolding walk_edges
walk_from zero edges stop id visited = none
walk_from (suc n) edges stop id visited = elim (str_eq id stop || mem_text id visited) [
  | true ↦ some visited
  | false ↦ walk_edges (walk_from n edges stop) edges id (id ∷ visited)
]

-- Each nested call visits one more target, so a depth of two above the number of edges is enough.
abbrev pub walk_fuel : List Edge → ℕ
walk_fuel edges = length edges + 2

unfoldable pub reachable_ids : List Edge → String → String → Option (List String)
unfolding walk_from
reachable_ids edges start stop = walk_from (walk_fuel edges) edges stop start []

abbrev pub batch_start_id : String
batch_start_id = "_batch_start"

abbrev pub batch_end_id : String
batch_end_id = "_batch_end"

abbrev pub bare_node : String → NodeType → Node
bare_node id type = record {
  id = id;
  type = type;
  gateway_type = GatewayType.other "";
  task_template_id = "";
  input_mapping = [];
  output_mapping = [];
  split_task = none;
  timer = none;
  signaling = none;
  batch_gateway = none;
  batch_join = none;
  parallel_join = none;
}

unfoldable pub kept_nodes : List String → List Node → List Node
kept_nodes reachable [] = []
kept_nodes reachable (n ∷ ns) =
    let rest = kept_nodes reachable ns in if mem_text n.id reachable then n ∷ rest else rest

-- An edge to the join leads to the synthetic END.
abbrev pub to_end : Edge → Edge
to_end e = record {
  id = concat e.id "_to_end";
  source_id = e.source_id;
  target_id = batch_end_id;
  condition = e.condition;
}

unfoldable pub kept_edges : List String → String → List Edge → List Edge
kept_edges reachable stop [] = []
kept_edges reachable stop (e ∷ es) =
    let rest = kept_edges reachable stop es in
    if mem_text e.source_id reachable
    then if str_eq e.target_id stop
      then to_end e ∷ rest
      else if mem_text e.target_id reachable
      then e ∷ rest
      else rest
    else rest

-- The definition that extractSubGraph builds from the visited IDs.
unfoldable pub sub_graph_of :
    WorkflowDefinition → String → String → List String → WorkflowDefinition
unfolding kept_nodes kept_edges
sub_graph_of def start stop reachable = record {
  id = concat def.id (concat "_batch_" start);
  name = concat def.name " (batch sub-graph)";
  version = 0;
  nodes =
      bare_node batch_start_id NodeType.start
      ∷ (kept_nodes reachable def.nodes ++ bare_node batch_end_id NodeType.end ∷ []);
  edges =
      record {
        id = "_batch_e_start";
        source_id = batch_start_id;
        target_id = if str_eq start stop then batch_end_id else start;
        condition = "";
      }
      ∷ kept_edges reachable stop def.edges;
}

unfoldable pub extract_sub_graph : WorkflowDefinition → String → String → Option WorkflowDefinition
unfolding reachable_ids sub_graph_of
extract_sub_graph def start stop = elim (reachable_ids def.edges start stop) [
  | none ↦ none
  | some reachable ↦ some (sub_graph_of def start stop reachable)
]

abbrev pub is_batch_join : GatewayType → Bool
is_batch_join batch_join = true
is_batch_join _ = false

abbrev pub is_parallel_join : GatewayType → Bool
is_parallel_join parallel_join = true
is_parallel_join _ = false

abbrev pub batch_join_of : Node → String → Bool
batch_join_of n split = elim n.batch_join [ none ↦ false | some c ↦ str_eq c.gateway_node_id split ]

abbrev pub parallel_join_of : Node → String → Bool
parallel_join_of n split = elim n.parallel_join [
  | none ↦ false
  | some c ↦ str_eq c.gateway_node_id split
]

-- The first BATCH_JOIN that names the split; the empty text where there is none.
unfoldable pub find_paired_batch_join : List Node → String → String
find_paired_batch_join [] split = ""
find_paired_batch_join (n ∷ ns) split =
    let rest = find_paired_batch_join ns split in
    if is_gateway n.type && (is_batch_join n.gateway_type && batch_join_of n split)
    then n.id
    else rest

unfoldable pub find_paired_parallel_join : List Node → String → String
find_paired_parallel_join [] split = ""
find_paired_parallel_join (n ∷ ns) split =
    let rest = find_paired_parallel_join ns split in
    if is_gateway n.type && (is_parallel_join n.gateway_type && parallel_join_of n split)
    then n.id
    else rest
