-- ===== src/Engine/Validate/Pairs/Total.antt =====
-- ValidateBatchGateways ends.
use nsw_core.Common.{
  ◌≡◌, refl, Bool, true, false, ◌&&◌, Option, none, some, inl, inr, List, [], ◌∷◌, Bool-cases,
}
use nsw_core.Engine.Dsl.{Mapping, Node, Edge, WorkflowDefinition}
use nsw_core.Engine.Validate.Ends.{validate_gateway_region_total}
use nsw_core.Engine.Validate.Pairs.{
  is_batch_split, Indexed, index_nodes, pair_joins, splits_sound, joins_sound, check_regions,
  check_pairs, validate_batch_gateways,
}

check_regions_total :
    (nodes : List Node) (edges : List Edge) (pairs m : Mapping)
    → (b : Bool) × (check_regions nodes edges pairs m ≡ some b)
unfolding check_regions
check_regions_total nodes edges pairs [] = (true, refl)
check_regions_total nodes edges pairs ((s, j) ∷ m) =
    let (ok, p) = validate_gateway_region_total nodes edges is_batch_split pairs s j in
    elim (Bool-cases ok) [
      | inl e ↦
          let (b, q) = check_regions_total nodes edges pairs m in
          (b, rw (check_regions, p, e, q) refl)
      | inr e ↦ (false, rw (check_regions, p, e) refl)
    ]

either_total :
    (ok : Bool) (rest : Option Bool)
    → (b : Bool) × (rest ≡ some b)
    → (b : Bool) × (elim ok [ true ↦ rest | false ↦ some false ] ≡ some b)
either_total true rest k = k
either_total false rest k = (false, refl)

check_pairs_total :
    (def : WorkflowDefinition) (acc : Indexed) (paired : Mapping)
    → (b : Bool) × (check_pairs def acc paired ≡ some b)
unfolding check_pairs
check_pairs_total def (splits, joins) paired =
    either_total (splits_sound splits paired && joins_sound def.edges joins)
      (check_regions def.nodes def.edges paired paired)
      (check_regions_total def.nodes def.edges paired paired)

pairs_total :
    (b : Option Mapping) (g : Mapping → Option Bool)
    → ((p : Mapping) → (r : Bool) × (g p ≡ some r))
    → (r : Bool) × (elim b [ none ↦ some false | some p ↦ g p ] ≡ some r)
pairs_total none g k = (false, refl)
pairs_total (some p) g k = k p

index_total :
    (a : Option Indexed) (g : Indexed → Option Bool)
    → ((acc : Indexed) → (r : Bool) × (g acc ≡ some r))
    → (r : Bool) × (elim a [ none ↦ some false | some acc ↦ g acc ] ≡ some r)
index_total none g k = (false, refl)
index_total (some acc) g k = k acc

-- ValidateBatchGateways ends with an answer on every definition, cycles included.
pub validate_batch_gateways_total :
    (def : WorkflowDefinition) → (b : Bool) × (validate_batch_gateways def ≡ some b)
unfolding validate_batch_gateways
validate_batch_gateways_total def = index_total (index_nodes def.nodes ([], [])) _ (λ acc.
    pairs_total (pair_joins acc.0 acc.1 []) (check_pairs def acc) (check_pairs_total def acc))
