-- ===== src/Engine/Validate/Region.antt =====
-- What validateGatewayRegion accepts.
use nsw_core.Common.{
  String, ◌≡◌, refl, sym, ap, ◌∙◌, Bool, true, false, Option, none, some, inl, inr, List, [], ◌∷◌,
  map, arith, str_eq, eq→str_eq, eq_iff, mem_text, mem_text→In, In, is_empty, Bool-cases,
}
use nsw_core.Engine.Dsl.{GatewayType, Mapping, Node, Edge}
use nsw_core.Engine.State.{find_node, out_edges, in_edges}
use nsw_core.Engine.Validate.{
  reversed, explore_fuel, region_nodes, can_reach_join, is_end, enters, is_faulty, all_sound,
  region_is_closed, validate_gateway_region,
}
use nsw_core.Engine.Validate.Explored.{Walk, explore-Walk}

module _ (nodes : List Node) (edges : List Edge) (split join : String) where
  -- The node is reached from the split without passing the join.
  abbrev pub Inside : String → Type 0
  Inside = Walk (λ y. str_eq y join) edges split

  abbrev pub IsOpenNode : String → Type 0
  IsOpenNode x =
      (n : Node) × (find_node x nodes ≡ some n)
      × (is_end n.type ≡ false)
      × (is_empty (out_edges x edges) ≡ false)

  pub record IsRegion : Type 0 where
    open_nodes : (x : String) → Inside x → IsOpenNode x
    leads_to_join : (x : String) → Inside x → Walk (λ y. false) (map reversed edges) join x
    entered_at_split :
        (x : String)
        → Inside x
        → ¬ (x ≡ split)
        → (e : Edge) → In e edges
        → e.target_id ≡ x
        → Inside e.source_id
    joined_from_inside : (e : Edge) → In e edges → e.target_id ≡ join → Inside e.source_id

enters-In :
    (region : List String) (es : List Edge) (e : Edge)
    → enters region es ≡ false
    → In e es
    → In e.source_id region
unfolding enters
enters-In region [] e h i = elim i [ ]
enters-In region (d ∷ es) e h (inl p) = rw p (mem_text→In d.source_id region (ground arith))
enters-In region (d ∷ es) e h (inr i) = enters-In region es e (ground arith) i

In-in_edges :
    (es : List Edge) (x : String) (e : Edge) → In e es → e.target_id ≡ x → In e (in_edges x es)
unfolding in_edges
In-in_edges [] x e i p = elim i [ ]
In-in_edges (d ∷ es) x e (inl q) p =
    let here : str_eq d.target_id x ≡ true =
      eq→str_eq d.target_id x (ap (λ (y : Edge). y.target_id) (sym q) ∙ p) in
    rw here (inl q)
In-in_edges (d ∷ es) x e (inr i) p = elim (Bool-cases (str_eq d.target_id x)) [
  | inl h ↦ rw h (inr (In-in_edges es x e i p))
  | inr h ↦ rw h (In-in_edges es x e i p)
]

module _ (nodes : List Node) (edges : List Edge) (is_nested : GatewayType → Bool) (pairs : Mapping)
    (split join : String) where
  all_sound-In :
      (region joining ids : List String) (x : String)
      → all_sound nodes edges is_nested pairs split join region joining ids ≡ true
      → In x ids
      → is_faulty nodes edges is_nested pairs split join region joining x (find_node x nodes)
        ≡ false
  unfolding all_sound
  all_sound-In region joining [] x h i = elim i [ ]
  all_sound-In region joining (id ∷ ids) x h (inl p) = rw p (ground arith)
  all_sound-In region joining (id ∷ ids) x h (inr i) =
      all_sound-In region joining ids x (ground arith) i

  is_faulty-parts :
      (region joining : List String) (x : String) (found : Option Node)
      → is_faulty nodes edges is_nested pairs split join region joining x found ≡ false
      → ((n : Node) × (found ≡ some n)
          × (is_end n.type ≡ false)
          × (is_empty (out_edges x edges) ≡ false))
        × (mem_text x joining ≡ true)
        × (¬ (x ≡ split) → enters region (in_edges x edges) ≡ false)
  unfolding is_faulty
  is_faulty-parts region joining x none h = absurd (ground arith)
  is_faulty-parts region joining x (some n) h =
      ((n, refl, ground arith, ground arith), ground arith, λ ne. ground (arith, eq_iff x split))

  found_both :
      (a b : Option (List String))
      → elim a [
        | none ↦ none
        | some region ↦ elim b [
          | none ↦ none
          | some joining ↦
              some (region_is_closed nodes edges is_nested pairs split join region joining)
        ]
      ]
        ≡ some true
      → (region : List String) × (joining : List String) × (a ≡ some region)
        × (b ≡ some joining)
        × (region_is_closed nodes edges is_nested pairs split join region joining ≡ true)
  found_both none b h = absurd (ground arith)
  found_both (some region) none h = absurd (ground arith)
  found_both (some region) (some joining) h = (region, joining, refl, refl, ground arith)

  closed-parts :
      (region joining : List String)
      → region_is_closed nodes edges is_nested pairs split join region joining ≡ true
      → (all_sound nodes edges is_nested pairs split join region joining region ≡ true)
        × (enters region (in_edges join edges) ≡ false)
  unfolding region_is_closed
  closed-parts region joining h = (ground arith, ground arith)

  -- Where validateGatewayRegion accepts a split and its join, every node that a path from the split
  -- reaches without passing the join exists, is no END node, has an outgoing edge and leads to the
  -- join; each edge into such a node other than the split, and each edge into the join, starts at
  -- such a node.
  pub validate_gateway_region-IsRegion :
      validate_gateway_region nodes edges is_nested pairs split join ≡ some true
      → IsRegion nodes edges split join
  unfolding validate_gateway_region region_nodes can_reach_join
  validate_gateway_region-IsRegion h =
      let (region, joining, p, q, closed) =
        found_both (region_nodes edges split join) (can_reach_join edges join) h in
      let (sound, shut) = closed-parts region joining closed in
      let seen = explore-Walk (λ y. str_eq y join) (explore_fuel edges) edges split region p in
      let leading =
        explore-Walk (λ y. false) (explore_fuel (map reversed edges)) (map reversed edges) join
          joining q in
      let parts = λ (x : String) (i : In x region).
        is_faulty-parts region joining x (find_node x nodes)
          (all_sound-In region joining region x sound i) in
      record {
        open_nodes = λ x i. (parts x ((seen x).1 i)).0;
        leads_to_join = λ x i. (leading x).0 (mem_text→In x joining (parts x ((seen x).1 i)).1);
        entered_at_split = λ x i ne e k to. (seen e.source_id).0 (
            enters-In region (in_edges x edges) e ((parts x ((seen x).1 i)).2 ne)
              (In-in_edges edges x e k to));
        joined_from_inside = λ e k to.
            (seen e.source_id).0
              (enters-In region (in_edges join edges) e shut (In-in_edges edges join e k to));
      }
