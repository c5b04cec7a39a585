-- ===== src/Engine/Batch/Division.antt =====
-- The division of the items by partitionItems.
use mathlib.Core.List.{append_assoc, append-nil}
use nsw_core.Common.{
  ℕ, ◌+◌, ◌≤◌, String, ◌≡◌, ◌≢◌, refl, sym, ◌∙◌, Bool, Option, none, some, ◌⊎◌, inl, inr, List, [],
  ◌∷◌, ◌++◌, arith, eq_iff, str_eq, if◌then◌else◌, All, length, length-append, Bool-cases,
}
use nsw_core.Shared.Value.{Value, obj, Fields, put}
use nsw_core.Engine.Dsl.{Edge}
use nsw_core.Engine.Park.{Failure, Result, ok, err}
use nsw_core.Engine.Items.{get_item_id}
use nsw_core.Engine.Batch.{Partitions, choose_edge, add_item, partition_loop, partition_items}

-- The items of the partition of an edge ID.
abbrev pub items_of : String → Partitions → List Fields
items_of id [] = []
items_of id ((e, items) ∷ ps) = let rest = items_of id ps in if str_eq id e.id then items else rest

abbrev pub count_items : Partitions → ℕ
count_items [] = 0
count_items ((e, items) ∷ ps) = length items + count_items ps

abbrev pub NoneEmpty : Partitions → Type 0
NoneEmpty ps = All (λ (p : Edge × List Fields). p.1 ≢ []) ps

items_of-add_item :
    (id : String) (e : Edge) (item : Fields) (ps : Partitions)
    → items_of id (add_item e item ps)
      ≡ (if str_eq id e.id then items_of id ps ++ item ∷ [] else items_of id ps)
unfolding add_item
items_of-add_item id e item [] = ground arith
items_of-add_item id e item ((d, items) ∷ ps) =
    ground (arith, items_of-add_item id e item ps, eq_iff id e.id, eq_iff e.id d.id, eq_iff id d.id)

count_items-add_item :
    (e : Edge) (item : Fields) (ps : Partitions)
    → count_items (add_item e item ps) ≡ count_items ps + 1
unfolding add_item
count_items-add_item e item [] = omega arith
count_items-add_item e item ((d, items) ∷ ps) =
    ground (arith, count_items-add_item e item ps, length-append {0} items (item ∷ []))

append-ne-nil : (items : List Fields) (item : Fields) → (items ++ item ∷ []) ≢ []
append-ne-nil [] item p = cc
append-ne-nil (i ∷ items) item p = cc

NoneEmpty-add_item :
    (e : Edge) (item : Fields) (ps : Partitions) → NoneEmpty ps → NoneEmpty (add_item e item ps)
unfolding add_item
NoneEmpty-add_item e item [] h = ((λ p. cc), tt)
NoneEmpty-add_item e item ((d, items) ∷ ps) h = elim (Bool-cases (str_eq e.id d.id)) [
  | inl same ↦ rw same (append-ne-nil items item, h.1)
  | inr new ↦ rw new (h.0, NoneEmpty-add_item e item ps h.1)
]

Choice-cases :
    (r : Result (Option Edge))
    → ((f : Failure) × (r ≡ err f)) ⊎ ((r ≡ ok none) ⊎ ((e : Edge) × (r ≡ ok (some e))))
Choice-cases (err f) = inl (f, refl)
Choice-cases (ok none) = inr (inl refl)
Choice-cases (ok (some e)) = inr (inr (e, refl))

module _ (expr : String → Fields → Result Bool) where
  -- The edge that the loop takes for an item.
  abbrev pub choice : List Edge → Fields → Fields → Result (Option Edge)
  choice edges vars item = choose_edge expr edges none (put "item" (obj item) vars)

  -- The items that go to the edge ID `id`, in their order.
  abbrev pub routed : String → List Edge → Fields → List Fields → List Fields
  routed id edges vars [] = []
  routed id edges vars (item ∷ items) =
      let rest = routed id edges vars items in
      elim (choice edges vars item) [
        | ok (some e) ↦ if str_eq id e.id then item ∷ rest else rest
        | _ ↦ rest
      ]

module _ (expr : String → Fields → Result Bool) (sprint : Value → String) where
  -- One round of the loop over the items.
  loop_failed :
      (item : Fields) (items : List Fields) (edges : List Edge) (vars : Fields) (id_field : String)
      (ps : Partitions) (un : List String) (f : Failure)
      → choice expr edges vars item ≡ err f
      → partition_loop expr sprint (item ∷ items) edges vars id_field ps un ≡ err f
  unfolding partition_loop
  loop_failed item items edges vars id_field ps un f h = ground arith

  loop_taken :
      (item : Fields) (items : List Fields) (edges : List Edge) (vars : Fields) (id_field : String)
      (ps : Partitions) (un : List String) (e : Edge)
      → choice expr edges vars item ≡ ok (some e)
      → partition_loop expr sprint (item ∷ items) edges vars id_field ps un
        ≡ partition_loop expr sprint items edges vars id_field (add_item e item ps) un
  unfolding partition_loop
  loop_taken item items edges vars id_field ps un e h = ground arith

  loop_unmatched :
      (item : Fields) (items : List Fields) (edges : List Edge) (vars : Fields) (id_field : String)
      (ps : Partitions) (un : List String)
      → choice expr edges vars item ≡ ok none
      → partition_loop expr sprint (item ∷ items) edges vars id_field ps un
        ≡ partition_loop expr sprint items edges vars id_field ps
            (un ++ sprint (get_item_id item id_field) ∷ [])
  unfolding partition_loop
  loop_unmatched item items edges vars id_field ps un h = ground arith

  module _ (edges : List Edge) (vars : Fields) (id_field : String) where
    routed_step :
        (id : String) (item : Fields) (items : List Fields) (e : Edge)
        → choice expr edges vars item ≡ ok (some e)
        → routed expr id edges vars (item ∷ items) ≡ (
            if str_eq id e.id
            then item ∷ routed expr id edges vars items
            else routed expr id edges vars items)
    routed_step id item items e h = ground arith

    routed_unmatched :
        (id : String) (item : Fields) (items : List Fields)
        → choice expr edges vars item ≡ ok none
        → routed expr id edges vars (item ∷ items) ≡ routed expr id edges vars items
    routed_unmatched id item items h = ground arith

    loop_nil :
        (ps qs : Partitions) (un un' : List String)
        → partition_loop expr sprint [] edges vars id_field ps un ≡ ok (qs, un')
        → (ps ≡ qs) × (un ≡ un')
    unfolding partition_loop
    loop_nil ps qs un un' h = ground arith

    routed_taken :
        (id : String) (item : Fields) (items : List Fields) (ps : Partitions) (e : Edge)
        → choice expr edges vars item ≡ ok (some e)
        → items_of id (add_item e item ps) ++ routed expr id edges vars items
          ≡ items_of id ps ++ routed expr id edges vars (item ∷ items)
    routed_taken id item items ps e h = elim (Bool-cases (str_eq id e.id)) [
      | inl same ↦
          rw (items_of-add_item, routed_step id item items e h, same)
            (append_assoc (items_of id ps) (item ∷ []) (routed expr id edges vars items))
      | inr other ↦ rw (items_of-add_item, routed_step id item items e h, other)
    ]

    -- The end of the loop, counted from any partitions that it starts with.
    record Divided (items : List Fields) (ps qs : Partitions) (un un' : List String) : Type 0 where
      at_edge : (id : String) → items_of id qs ≡ items_of id ps ++ routed expr id edges vars items
      total : count_items qs + length un' ≡ count_items ps + length un + length items
      none_empty : NoneEmpty ps → NoneEmpty qs

    loop-Divided :
        (items : List Fields) (ps qs : Partitions) (un un' : List String)
        → partition_loop expr sprint items edges vars id_field ps un ≡ ok (qs, un')
        → Divided items ps qs un un'
    loop-Divided [] ps qs un un' h =
        let (same, left) = loop_nil ps qs un un' h in
        rw (← same, ← left)
          (record {
            at_edge = λ id. sym (append-nil (items_of id ps));
            total = omega arith;
            none_empty = λ p. p;
          })
    loop-Divided (item ∷ items) ps qs un un' h = elim (Choice-cases (choice expr edges vars item)) [
      | inl (f, p) ↦ cc (loop_failed item items edges vars id_field ps un f p)
      | inr (inl p) ↦
          let d =
            loop-Divided items ps qs (un ++ sprint (get_item_id item id_field) ∷ []) un'
              (rw (loop_unmatched item items edges vars id_field ps un p) at h) in
          record {
            at_edge = λ id. rw (routed_unmatched id item items p) (d.at_edge id);
            total =
                omega
                  (arith, d.total, length-append {0} un (sprint (get_item_id item id_field) ∷ []));
            none_empty = d.none_empty;
          }
      | inr (inr (e, p)) ↦
          let d =
            loop-Divided items (add_item e item ps) qs un un'
              (rw (loop_taken item items edges vars id_field ps un e p) at h) in
          record {
            at_edge = λ id. d.at_edge id ∙ routed_taken id item items ps e p;
            total = omega (arith, d.total, count_items-add_item e item ps);
            none_empty = λ n. d.none_empty (NoneEmpty-add_item e item ps n);
          }
    ]

    partition_accepted :
        (items : List Fields) (ps : Partitions)
        → partition_items expr sprint items edges vars id_field ≡ ok ps
        → (partition_loop expr sprint items edges vars id_field [] [] ≡ ok (ps, []))
          × (length ps ≤ 20)
    unfolding partition_items
    partition_accepted items ps h = ground arith

    -- The items divided over partitions.
    pub record IsDivision (items : List Fields) (ps : Partitions) : Type 0 where
      pub at_edge : (id : String) → items_of id ps ≡ routed expr id edges vars items
      pub total : count_items ps ≡ length items
      pub none_empty : NoneEmpty ps
      pub bounded : length ps ≤ 20

    -- Where partitionItems succeeds, the partition of each edge ID holds exactly the items whose
    -- edge has that ID, in the order of the items, the partitions together hold as many items as
    -- were given, no partition is empty, and there are at most 20 of them.
    pub partition_items-IsDivision :
        (items : List Fields) (ps : Partitions)
        → partition_items expr sprint items edges vars id_field ≡ ok ps
        → IsDivision items ps
    unfolding partition_items
    partition_items-IsDivision items ps h =
        let (loop, bounded) = partition_accepted items ps h in
        let d = loop-Divided items [] ps [] [] loop in
        record {
          at_edge = d.at_edge;
          total = omega (arith, d.total);
          none_empty = d.none_empty tt;
          bounded = bounded;
        }
