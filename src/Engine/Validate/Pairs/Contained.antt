-- ===== src/Engine/Validate/Pairs/Contained.antt =====
-- What ValidateBatchGateways accepts.
use nsw_core.Common.{
  String, ◌≡◌, refl, sym, subst, ap, Bool, true, false, not, ◌&&◌, Option, none, some, inl, inr,
  List, [], ◌∷◌, arith, str_eq, str_eq→eq, In, Bool-cases,
}
use nsw_core.Engine.Dsl.{Mapping, Node, Edge, WorkflowDefinition}
use nsw_core.Engine.Mapping.{key}
use nsw_core.Engine.Gateways.{batch_join_split}
use nsw_core.Engine.Validate.{validate_gateway_region}
use nsw_core.Engine.Validate.Region.{IsRegion, validate_gateway_region-IsRegion}
use nsw_core.Engine.Validate.Pairs.{
  is_batch_split, Indexed, index_nodes, has_id, has_key, pair_joins, splits_sound, joins_sound,
  check_regions, check_pairs, validate_batch_gateways,
}
use nsw_core.Engine.Validate.Pairs.Nodes.{IsSplit, IsJoin, index_nodes-Joins, index_nodes-Splits}

region-parts :
    (r rest : Option Bool)
    → elim r [ none ↦ none | some ok ↦ elim ok [ true ↦ rest | false ↦ some false ] ] ≡ some true
    → (r ≡ some true) × (rest ≡ some true)
region-parts none rest h = absurd (ground arith)
region-parts (some true) rest h = (refl, h)
region-parts (some false) rest h = absurd (ground arith)

check_regions-In :
    (nodes : List Node) (edges : List Edge) (pairs m : Mapping)
    → check_regions nodes edges pairs m ≡ some true
    → (s : String) → has_key s m ≡ true
    → (j : String) × In (s, j) m × IsRegion nodes edges s j
unfolding has_key check_regions
check_regions-In nodes edges pairs [] h s k = absurd (ground arith)
check_regions-In nodes edges pairs ((a, b) ∷ m) h s k =
    let (here, later) =
      region-parts (validate_gateway_region nodes edges is_batch_split pairs a b)
        (check_regions nodes edges pairs m) h in
    elim (Bool-cases (str_eq a s)) [
      | inl p ↦
          let e = str_eq→eq a s p in
          (
            b,
            inl (ap (λ x. (x, b)) (sym e)),
            subst (λ x. IsRegion nodes edges x b) e
                (validate_gateway_region-IsRegion nodes edges is_batch_split pairs a b here),
          )
      | inr p ↦
          let (j, i, r) = check_regions-In nodes edges pairs m later s (rw p at k) in (j, inr i, r)
    ]

splits_sound-In :
    (splits : List Node) (paired : Mapping) (id : String)
    → splits_sound splits paired ≡ true
    → has_id id splits ≡ true
    → has_key id paired ≡ true
unfolding splits_sound has_id
splits_sound-In [] paired id h i = absurd (ground arith)
splits_sound-In (n ∷ ns) paired id h i = elim (Bool-cases (str_eq n.id id)) [
  | inl p ↦ rw (sym (str_eq→eq n.id id p)) (ground arith)
  | inr p ↦ splits_sound-In ns paired id (ground arith) (rw p at i)
]

pair_joins-All :
    (Q : String × String → Type 0) (splits js : List Node) (paired result : Mapping)
    → pair_joins splits js paired ≡ some result
    → ((e : String × String) → In e paired → Q e)
    → ((m : Node) → In m js → Q (batch_join_split m, m.id))
    → (e : String × String) → In e result
    → Q e
unfolding pair_joins
pair_joins-All Q splits [] paired result h k l e i =
    let same : paired ≡ result = ground arith in k e (subst (In e) (sym same) i)
pair_joins-All Q splits (j ∷ js) paired result h k l e i =
    elim (Bool-cases
      (has_id (batch_join_split j) splits && not (has_key (batch_join_split j) paired))) [
        | inl fits ↦
            pair_joins-All Q splits js ((batch_join_split j, j.id) ∷ paired) result (ground arith)
              (λ d o. elim o [ inl p ↦ subst Q (sym p) (l j (inl refl)) | inr n ↦ k d n ])
              (λ m o. l m (inr o)) e i
        | inr other ↦ absurd (ground arith)
      ]

pairs-found :
    (acc : Indexed) (b : Option Mapping) (g : Mapping → Option Bool)
    → elim b [ none ↦ some false | some paired ↦ g paired ] ≡ some true
    → (paired : Mapping) × (b ≡ some paired) × (g paired ≡ some true)
pairs-found acc none g h = absurd (ground arith)
pairs-found acc (some paired) g h = (paired, refl, h)

index-found :
    (a : Option Indexed) (f : Indexed → Option Mapping) (g : Indexed → Mapping → Option Bool)
    → elim a [
      | none ↦ some false
      | some acc ↦ elim (f acc) [ none ↦ some false | some paired ↦ g acc paired ]
    ]
      ≡ some true
    → (acc : Indexed) × (paired : Mapping) × (a ≡ some acc)
      × (f acc ≡ some paired)
      × (g acc paired ≡ some true)
index-found none f g h = absurd (ground arith)
index-found (some acc) f g h =
    let (paired, p, q) = pairs-found acc (f acc) (g acc) h in (acc, paired, refl, p, q)

valid-parts :
    (def : WorkflowDefinition)
    → validate_batch_gateways def ≡ some true
    → (acc : Indexed) × (paired : Mapping) × (index_nodes def.nodes ([], []) ≡ some acc)
      × (pair_joins acc.0 acc.1 [] ≡ some paired)
      × (check_pairs def acc paired ≡ some true)
unfolding validate_batch_gateways
valid-parts def h =
    index-found (index_nodes def.nodes ([], [])) (λ acc. pair_joins acc.0 acc.1 [])
      (check_pairs def) h

check-parts :
    (def : WorkflowDefinition) (acc : Indexed) (paired : Mapping)
    → check_pairs def acc paired ≡ some true
    → (splits_sound acc.0 paired ≡ true)
      × (check_regions def.nodes def.edges paired paired ≡ some true)
unfolding check_pairs
check-parts def (splits, joins) paired h =
    elim (Bool-cases (splits_sound splits paired && joins_sound def.edges joins)) [
      | inl p ↦ (ground arith, ground arith)
      | inr p ↦ absurd (ground arith)
    ]

-- A join of the definition that names the split, its ID second.
abbrev Joins : WorkflowDefinition → String × String → Type 0
Joins def e = (j : Node) × In j def.nodes × IsJoin j × (batch_join_split j ≡ key e) × (j.id ≡ e.1)

-- Where ValidateBatchGateways accepts a definition, each BATCH_SPLIT node of it has a BATCH_JOIN
-- node of the definition that names it, and what runs between the two is closed: every node that a
-- path from the split reaches without passing that join exists, is no END node, has an outgoing
-- edge and leads to the join, and is entered from outside at the split alone; each edge into the
-- join comes from such a node.
pub validate_batch_gateways-IsRegion :
    (def : WorkflowDefinition)
    → validate_batch_gateways def ≡ some true
    → (n : Node) → In n def.nodes
    → IsSplit n
    → (j : Node) × In j def.nodes
      × IsJoin j
      × (batch_join_split j ≡ n.id)
      × IsRegion def.nodes def.edges n.id j.id
validate_batch_gateways-IsRegion def h n i s =
    let (acc, paired, p, q, checked) = valid-parts def h in
    let (sound, regions) = check-parts def acc paired checked in
    let found =
      splits_sound-In acc.0 paired n.id sound (index_nodes-Splits def.nodes [] [] acc n p i s) in
    let (id, at_pair, region) =
      check_regions-In def.nodes def.edges paired paired regions n.id found in
    let joins =
      index_nodes-Joins (λ m. In m def.nodes × IsJoin m) def.nodes [] [] acc p (λ m e. elim e [ ])
        (λ m k j. (k, j)) in
    let (j, k, is_join, names, same) =
      pair_joins-All (Joins def) acc.0 acc.1 [] paired q (λ e o. elim o [ ])
        (λ m o. (m, (joins m o).0, (joins m o).1, refl, refl)) (n.id, id) at_pair in
    (j, k, is_join, names, subst (IsRegion def.nodes def.edges n.id) (sym same) region)
