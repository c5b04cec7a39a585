-- ===== src/Engine/Validate/Pairs/Nodes.antt =====
-- The nodes that the first loop of ValidateBatchGateways collects.
use nsw_core.Common.{
  String, ◌≡◌, refl, sym, subst, Bool, true, false, ◌&&◌, Option, none, some, inl, inr, ◌⊎◌, List,
  [], ◌∷◌, arith, str_eq, str_eq→eq, eq_iff, In, Bool-cases,
}
use nsw_core.Engine.Dsl.{Node, is_gateway}
use nsw_core.Engine.Gateways.{batch_join_split}
use nsw_core.Engine.SubGraph.{is_batch_join}
use nsw_core.Engine.Validate.Pairs.{is_batch_split, put_node, Indexed, index_nodes, has_id}

abbrev pub IsSplit : Node → Type 0
IsSplit n = (is_gateway n.type && is_batch_split n.gateway_type) ≡ true

abbrev pub IsJoin : Node → Type 0
IsJoin n = (is_gateway n.type && is_batch_join n.gateway_type) ≡ true

has_id-put : (n : Node) (ms : List Node) → has_id n.id (put_node n ms) ≡ true
unfolding has_id put_node
has_id-put n [] = ground (arith, eq_iff n.id n.id)
has_id-put n (m ∷ ms) = ground (arith, eq_iff n.id n.id, has_id-put n ms)

has_id-keep :
    (id : String) (n : Node) (ms : List Node)
    → has_id id ms ≡ true
    → has_id id (put_node n ms) ≡ true
unfolding has_id put_node
has_id-keep id n [] h = absurd (ground arith)
has_id-keep id n (m ∷ ms) h = elim (Bool-cases (str_eq m.id n.id)) [
  | inl same ↦ let e = str_eq→eq m.id n.id same in rw same (rw (sym e) h)
  | inr other ↦ rw other (elim (Bool-cases (str_eq m.id id)) [
    | inl p ↦ rw p refl
    | inr p ↦ rw p (has_id-keep id n ms (rw p at h))
  ])
]

In-put : (x n : Node) (ms : List Node) → In x (put_node n ms) → (x ≡ n) ⊎ In x ms
unfolding put_node
In-put x n [] (inl p) = inl p
In-put x n [] (inr i) = elim i [ ]
In-put x n (m ∷ ms) i = elim (Bool-cases (str_eq m.id n.id)) [
  | inl same ↦ elim (rw same at i) [ inl p ↦ inl p | inr j ↦ inr (inr j) ]
  | inr other ↦ elim (rw other at i) [
    | inl p ↦ inr (inl p)
    | inr j ↦ elim (In-put x n ms j) [ inl p ↦ inl p | inr k ↦ inr (inr k) ]
  ]
]

index-parts :
    (split join blank : Bool) (at_split at_join at_other : Option Indexed) (result : Indexed)
    → elim split [
      | true ↦ at_split
      | false ↦ elim join [ false ↦ at_other | true ↦ elim blank [ true ↦ none | false ↦ at_join ] ]
    ]
      ≡ some result
    → ((split ≡ true) × (at_split ≡ some result))
      ⊎ ((split ≡ false) × (((join ≡ true) × (at_join ≡ some result)) ⊎ (at_other ≡ some result)))
index-parts true join blank a b c result h = inl (refl, h)
index-parts false false blank a b c result h = inr (refl, inr h)
index-parts false true true a b c result h = absurd (ground arith)
index-parts false true false a b c result h = inr (refl, inl (refl, h))

index-step :
    (n : Node) (ns splits joins : List Node) (result : Indexed)
    → index_nodes (n ∷ ns) (splits, joins) ≡ some result
    → (IsSplit n × (index_nodes ns (put_node n splits, joins) ≡ some result))
      ⊎ (((is_gateway n.type && is_batch_split n.gateway_type) ≡ false)
          × ((IsJoin n × (index_nodes ns (splits, put_node n joins) ≡ some result))
              ⊎ (index_nodes ns (splits, joins) ≡ some result)))
unfolding index_nodes
index-step n ns splits joins result h =
    index-parts (is_gateway n.type && is_batch_split n.gateway_type)
      (is_gateway n.type && is_batch_join n.gateway_type) (str_eq (batch_join_split n) "")
      (index_nodes ns (put_node n splits, joins)) (index_nodes ns (splits, put_node n joins))
      (index_nodes ns (splits, joins)) result h

-- The joins of the index are joins of the nodes.
pub index_nodes-Joins :
    (P : Node → Type 0) (ns splits joins : List Node) (result : Indexed)
    → index_nodes ns (splits, joins) ≡ some result
    → ((m : Node) → In m joins → P m)
    → ((m : Node) → In m ns → IsJoin m → P m)
    → (m : Node) → In m result.1
    → P m
unfolding index_nodes
index_nodes-Joins P [] splits joins result h k l m i =
    let same : (splits, joins) ≡ result = ground arith in
    k m (subst (λ (r : Indexed). In m r.1) (sym same) i)
index_nodes-Joins P (n ∷ ns) splits joins result h k l m i =
    let l' = λ (x : Node) (o : In x ns) (j : IsJoin x). l x (inr o) j in
    elim (index-step n ns splits joins result h) [
      | inl (s, g) ↦ index_nodes-Joins P ns (put_node n splits) joins result g k l' m i
      | inr (f, inr g) ↦ index_nodes-Joins P ns splits joins result g k l' m i
      | inr (f, inl (j, g)) ↦
          index_nodes-Joins P ns splits (put_node n joins) result g
            (λ x o. elim (In-put x n joins o) [
              | inl p ↦ subst P (sym p) (l n (inl refl) j)
              | inr q ↦ k x q
            ])
            l' m i
    ]

index_nodes-has_id :
    (ns splits joins : List Node) (result : Indexed) (id : String)
    → index_nodes ns (splits, joins) ≡ some result
    → has_id id splits ≡ true
    → has_id id result.0 ≡ true
unfolding index_nodes
index_nodes-has_id [] splits joins result id h k =
    let same : (splits, joins) ≡ result = ground arith in
    subst (λ (r : Indexed). has_id id r.0 ≡ true) same k
index_nodes-has_id (n ∷ ns) splits joins result id h k =
    elim (index-step n ns splits joins result h) [
      | inl (s, g) ↦
          index_nodes-has_id ns (put_node n splits) joins result id g (has_id-keep id n splits k)
      | inr (f, inr g) ↦ index_nodes-has_id ns splits joins result id g k
      | inr (f, inl (j, g)) ↦ index_nodes-has_id ns splits (put_node n joins) result id g k
    ]

pub index_nodes-Splits :
    (ns splits joins : List Node) (result : Indexed) (x : Node)
    → index_nodes ns (splits, joins) ≡ some result
    → In x ns
    → IsSplit x
    → has_id x.id result.0 ≡ true
index_nodes-Splits [] splits joins result x h i s = elim i [ ]
index_nodes-Splits (n ∷ ns) splits joins result x h (inr i) s =
    elim (index-step n ns splits joins result h) [
      | inl (t, g) ↦ index_nodes-Splits ns (put_node n splits) joins result x g i s
      | inr (f, inr g) ↦ index_nodes-Splits ns splits joins result x g i s
      | inr (f, inl (j, g)) ↦ index_nodes-Splits ns splits (put_node n joins) result x g i s
    ]
index_nodes-Splits (n ∷ ns) splits joins result x h (inl p) s =
    elim (index-step n ns splits joins result h) [
      | inl (t, g) ↦
          rw p (index_nodes-has_id ns (put_node n splits) joins result n.id g (has_id-put n splits))
      | inr (f, g) ↦
          let t : (is_gateway n.type && is_batch_split n.gateway_type) ≡ true = subst IsSplit p s in
          absurd (ground arith)
    ]
