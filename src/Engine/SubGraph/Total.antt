-- ===== src/Engine/SubGraph/Total.antt =====
-- The fuel of the walk of extractSubGraph.
use nsw_core.Common.{
  ℕ, zero, suc, ◌≤◌, ◌<◌, String, ◌≡◌, refl, ap, true, false, ◌||◌, Option, some, inl, inr, List,
  [], ◌∷◌, arith, In, str_eq, eq_iff, if◌then◌else◌, mem_text, mem_text→In, In→mem_text, length,
  Bool-cases,
}
use nsw_core.Engine.Dsl.{Edge}
use nsw_core.Engine.SubGraph.{walk_edges, walk_from, walk_fuel, reachable_ids}
use nsw_core.Engine.SubGraph.Reach.{walk_new, new_cases, walk_from-Walked, edges_skip}

-- How many of the candidates are not visited.
pub unvisited : List String → List String → ℕ
unvisited [] visited = 0
unvisited (c ∷ cs) visited =
    let rest = unvisited cs visited in if mem_text c visited then rest else suc rest

pub unvisited_mono :
    (cs before after : List String)
    → ((x : String) → In x before → In x after)
    → unvisited cs after ≤ unvisited cs before
unfolding unvisited
unvisited_mono [] before after k = omega arith
unvisited_mono (c ∷ cs) before after k = elim (Bool-cases (mem_text c before)) [
  | inl seen ↦
      rw (seen, In→mem_text c after (k c (mem_text→In c before seen)))
        (unvisited_mono cs before after k)
  | inr new ↦ rw new (ground (arith, unvisited_mono cs before after k))
]

pub unvisited-visit :
    (cs : List String) (id : String) (before : List String)
    → In id cs
    → mem_text id before ≡ false
    → unvisited cs (id ∷ before) < unvisited cs before
unfolding unvisited mem_text
unvisited-visit [] id before i f = elim i [ ]
unvisited-visit (c ∷ cs) id before (inl e) f =
    ground (arith, eq_iff c id, unvisited_mono cs before (id ∷ before) (λ x p. inr p))
unvisited-visit (c ∷ cs) id before (inr i) f =
    ground (arith, eq_iff c id, unvisited-visit cs id before i f)

pub unvisited-le-length : (cs before : List String) → unvisited cs before ≤ length cs
unfolding unvisited
unvisited-le-length [] before = omega arith
unvisited-le-length (c ∷ cs) before = ground (arith, unvisited-le-length cs before)

abbrev pub targets : List Edge → List String
targets [] = []
targets (e ∷ es) = e.target_id ∷ targets es

pub In-targets : (e : Edge) (es : List Edge) → In e es → In e.target_id (targets es)
In-targets e [] i = elim i [ ]
In-targets e (d ∷ es) (inl same) = inl (ap (λ (x : Edge). x.target_id) same)
In-targets e (d ∷ es) (inr i) = inr (In-targets e es i)

pub length-targets : (es : List Edge) → length (targets es) ≡ length es
length-targets [] = refl
length-targets (e ∷ es) = ap suc (length-targets es)

module _ (edges : List Edge) (stop start : String) where
  -- Where a walk can go.
  abbrev candidates : List String
  candidates = start ∷ targets edges

  follow_some :
      (walk : String → List String → Option (List String)) (e : Edge) (es : List Edge) (id : String)
      (before mid : List String)
      → str_eq e.source_id id ≡ true
      → walk e.target_id before ≡ some mid
      → walk_edges walk (e ∷ es) id before ≡ walk_edges walk es id mid
  unfolding walk_edges
  follow_some walk e es id before mid own h = ground arith

  walk_edges_total :
      (n : ℕ)
      → ((id : String) (before : List String)
          → In id candidates
          → unvisited candidates before < n
          → (after : List String) × (walk_from n edges stop id before ≡ some after))
      → (es : List Edge) (id : String) (before : List String) → ((e : Edge) → In e es → In e edges)
      → unvisited candidates before < n
      → (after : List String) × (walk_edges (walk_from n edges stop) es id before ≡ some after)
  walk_edges_total n t [] id before sub h = (before, unfold walk_edges in refl)
  walk_edges_total n t (e ∷ es) id before sub h = elim (Bool-cases (str_eq e.source_id id)) [
    | inr other ↦
        rw (edges_skip edges stop (walk_from n edges stop) e es id before other)
          (walk_edges_total n t es id before (λ d i. sub d (inr i)) h)
    | inl own ↦
        let (mid, first) = t e.target_id before (inr (In-targets e edges (sub e (inl refl)))) h in
        let w = walk_from-Walked edges stop n e.target_id before mid first in
        rw (follow_some (walk_from n edges stop) e es id before mid own first) (
          walk_edges_total n t es id mid (λ d i. sub d (inr i))
            (omega (arith, unvisited_mono candidates before mid w.keeps)))
  ]

  walk_from_total :
      (n : ℕ) (id : String) (before : List String)
      → In id candidates
      → unvisited candidates before < n
      → (after : List String) × (walk_from n edges stop id before ≡ some after)
  walk_from_total zero id before i h = absurd (omega arith)
  walk_from_total (suc n) id before i h = elim (Bool-cases (str_eq id stop || mem_text id before)) [
    | inl seen ↦ (before, unfold walk_from in ground arith)
    | inr new ↦ rw (walk_new edges stop n id before new) (
        walk_edges_total n (walk_from_total n) edges id (id ∷ before) (λ d p. p)
          (omega
            (arith, unvisited-visit candidates id before i (new_cases edges stop id before new).1)))
  ]

  -- The walk of extractSubGraph ends within the fuel of two more than the number of edges, on every
  -- list of edges, cycles included.
  pub reachable_ids_total : (ids : List String) × (reachable_ids edges start stop ≡ some ids)
  unfolding reachable_ids
  reachable_ids_total =
      walk_from_total (walk_fuel edges) start [] (inl refl)
        (omega (arith, unvisited-le-length candidates [], length-targets edges))
