-- ===== src/Engine/SubGraph/Closed.antt =====
-- The nodes and edges of a definition that its sub-graph keeps.
use nsw_core.Common.{
  String, ◌≡◌, ◌≢◌, refl, ap, subst, ◌⊎◌, inl, inr, List, [], ◌∷◌, In, str_eq, str_eq→eq, eq→str_eq,
  ne→str_eq, mem_text, mem_text→In, In→mem_text, Bool-cases,
}
use nsw_core.Engine.Dsl.{Node, Edge}
use nsw_core.Engine.SubGraph.{kept_nodes, to_end, kept_edges}

abbrev pub HasNode : String → List Node → Type 0
HasNode id nodes = (n : Node) × In n nodes × (n.id ≡ id)

-- Both ends of every edge are nodes.
abbrev pub IsClosed : List Node → List Edge → Type 0
IsClosed nodes edges =
    (e : Edge) → In e edges → HasNode e.source_id nodes × HasNode e.target_id nodes

pub kept_nodes-In :
    (reachable : List String) (n : Node) (ns : List Node)
    → In n ns
    → In n.id reachable
    → In n (kept_nodes reachable ns)
unfolding kept_nodes
kept_nodes-In reachable n [] i r = elim i [ ]
kept_nodes-In reachable n (m ∷ ns) (inl e) r =
    rw (In→mem_text m.id reachable (subst (λ (x : Node). In x.id reachable) e r)) (inl e)
kept_nodes-In reachable n (m ∷ ns) (inr i) r = elim (Bool-cases (mem_text m.id reachable)) [
  | inl kept ↦ rw kept (inr (kept_nodes-In reachable n ns i r))
  | inr left ↦ rw left (kept_nodes-In reachable n ns i r)
]

pub In-kept_nodes :
    (reachable : List String) (n : Node) (ns : List Node)
    → In n (kept_nodes reachable ns)
    → In n ns × In n.id reachable
unfolding kept_nodes
In-kept_nodes reachable n [] i = elim i [ ]
In-kept_nodes reachable n (m ∷ ns) i = elim (Bool-cases (mem_text m.id reachable)) [
  | inr left ↦ let (j, r) = In-kept_nodes reachable n ns (rw left at i) in (inr j, r)
  | inl kept ↦ elim (let i' : (n ≡ m) ⊎ In n (kept_nodes reachable ns) = rw kept at i in i') [
    | inl e ↦ (inl e, rw e (mem_text→In m.id reachable kept))
    | inr j ↦ let (j', r) = In-kept_nodes reachable n ns j in (inr j', r)
  ]
]

-- A kept edge is one of the definition's between reached nodes, or one of its edges to the join.
abbrev pub IsKept : List String → String → List Edge → Edge → Type 0
IsKept reachable stop edges e =
    (d : Edge) × In d edges
    × In d.source_id reachable
    × (((e ≡ d) × In d.target_id reachable) ⊎ ((e ≡ to_end d) × (d.target_id ≡ stop)))

IsKept-later :
    (reachable : List String) (stop : String) (d : Edge) (edges : List Edge) (e : Edge)
    → IsKept reachable stop edges e
    → IsKept reachable stop (d ∷ edges) e
IsKept-later reachable stop d edges e (x, i, s, t) = (x, inr i, s, t)

pub In-kept_edges :
    (reachable : List String) (stop : String) (edges : List Edge) (e : Edge)
    → In e (kept_edges reachable stop edges)
    → IsKept reachable stop edges e
unfolding kept_edges
In-kept_edges reachable stop [] e i = elim i [ ]
In-kept_edges reachable stop (d ∷ edges) e i = elim (Bool-cases (mem_text d.source_id reachable)) [
  | inr out ↦
      IsKept-later reachable stop d edges e (In-kept_edges reachable stop edges e (rw out at i))
  | inl source ↦ elim (Bool-cases (str_eq d.target_id stop)) [
    | inl join ↦
        elim (let i' : (e ≡ to_end d) ⊎ In e (kept_edges reachable stop edges) =
            rw (source, join) at i in
          i') [
            | inl same ↦ (
              d,
              inl refl,
              mem_text→In d.source_id reachable source,
              inr (same, str_eq→eq d.target_id stop join),
            )
            | inr later ↦
                IsKept-later reachable stop d edges e (In-kept_edges reachable stop edges e later)
          ]
    | inr inner ↦ elim (Bool-cases (mem_text d.target_id reachable)) [
      | inr out ↦
          IsKept-later reachable stop d edges e
            (In-kept_edges reachable stop edges e (rw (source, inner, out) at i))
      | inl target ↦
          elim (let i' : (e ≡ d) ⊎ In e (kept_edges reachable stop edges) =
              rw (source, inner, target) at i in
            i') [
              | inl same ↦ (
                d,
                inl refl,
                mem_text→In d.source_id reachable source,
                inl (same, mem_text→In d.target_id reachable target),
              )
              | inr later ↦
                  IsKept-later reachable stop d edges e (In-kept_edges reachable stop edges e later)
            ]
    ]
  ]
]

kept_edges-later :
    (reachable : List String) (stop : String) (e x : Edge) (edges : List Edge)
    → In x (kept_edges reachable stop edges)
    → In x (kept_edges reachable stop (e ∷ edges))
unfolding kept_edges
kept_edges-later reachable stop e x edges i = elim (Bool-cases (mem_text e.source_id reachable)) [
  | inr out ↦ rw out i
  | inl source ↦ elim (Bool-cases (str_eq e.target_id stop)) [
    | inl join ↦ rw (source, join) (inr i)
    | inr inner ↦ elim (Bool-cases (mem_text e.target_id reachable)) [
      | inr out ↦ rw (source, inner, out) i
      | inl target ↦ rw (source, inner, target) (inr i)
    ]
  ]
]

-- What the definition has as edges between reached nodes and to the join is kept.
pub kept_edges-In :
    (reachable : List String) (stop : String) (edges : List Edge) (d : Edge)
    → In d edges
    → In d.source_id reachable
    → ((d.target_id ≢ stop) × In d.target_id reachable → In d (kept_edges reachable stop edges))
      × (d.target_id ≡ stop → In (to_end d) (kept_edges reachable stop edges))
unfolding kept_edges
kept_edges-In reachable stop [] d i s = elim i [ ]
kept_edges-In reachable stop (e ∷ edges) d (inl same) s =
    let source =
      In→mem_text e.source_id reachable (subst (λ (x : Edge). In x.source_id reachable) same s) in
    (
      λ t.
          let ne : e.target_id ≢ stop = subst (λ (x : Edge). x.target_id ≢ stop) same t.0 in
          let target =
            In→mem_text e.target_id reachable
              (subst (λ (x : Edge). In x.target_id reachable) same t.1) in
          rw (source, ne→str_eq e.target_id stop ne, target) (inl same),
      λ t.
          let join = eq→str_eq e.target_id stop (subst (λ (x : Edge). x.target_id ≡ stop) same t) in
          rw (source, join) (inl (ap to_end same)),
    )
kept_edges-In reachable stop (e ∷ edges) d (inr i) s =
    let (inner, last) = kept_edges-In reachable stop edges d i s in
    (
      λ t. kept_edges-later reachable stop e d edges (inner t),
      λ t. kept_edges-later reachable stop e (to_end d) edges (last t),
    )
