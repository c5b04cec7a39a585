-- ===== src/Engine/BatchResults/Collected.antt =====
-- The index that collectAndMergeBatchResults builds over the children.
use mathlib.Core.List.{append_assoc, append-nil}
use nsw_core.Common.{
  String, ◌≡◌, sym, ap, ◌∙◌, none, some, inl, inr, List, [], ◌∷◌, ◌++◌, arith, eq_iff, str_eq,
  str_eq_refl, str_eq→eq, In, In-append, In-append_left, In-append_right, Bool-cases,
}
use nsw_core.Shared.Value.{Value, Fields, str}
use nsw_core.Engine.Park.{Cause, ok, err, Result-cases, missing_id}
use nsw_core.Engine.Items.{get_item_id, string_id}
use nsw_core.Engine.BatchResults.{
  BatchChild, ById, lookup, absorb_items, child_items, collect_children,
}

-- `m` indexes exactly the items of the list by their IDs.
pub record Indexes (id_field : String) (m : ById) (items : List Fields) : Type 0 where
  pub found :
      (id : String) (item : Fields)
      → lookup id m ≡ some item
      → In item items × (get_item_id item id_field ≡ str id)
  pub kept :
      (id : String) (item : Fields)
      → In item items
      → get_item_id item id_field ≡ str id
      → lookup id m ≡ some item

string_id-eq_ok : (c : Cause) (v : Value) (id : String) → string_id c v ≡ ok id → v ≡ str id
unfolding string_id
string_id-eq_ok c v id h = ground arith

-- One round of the loop over a child's items.
absorb_step :
    (edge_id id_field : String) (item : Fields) (items : List Fields) (m m' : ById)
    → absorb_items edge_id id_field (item ∷ items) m ≡ ok m'
    → (id : String) × (get_item_id item id_field ≡ str id)
      × (lookup id m ≡ none)
      × (absorb_items edge_id id_field items ((id, item) ∷ m) ≡ ok m')
unfolding absorb_items
absorb_step edge_id id_field item items m m' h =
    elim (Result-cases (string_id (missing_id edge_id) (get_item_id item id_field))) [
      | inl (f, p) ↦ absurd (ground arith)
      | inr (id, p) ↦ (
        id,
        string_id-eq_ok (missing_id edge_id) (get_item_id item id_field) id p,
        ground arith,
        ground arith,
      )
    ]

str-injective : (a b : String) → str a ≡ str b → a ≡ b
str-injective a b h = cc

Indexes-cons :
    (id_field id : String) (item : Fields) (m : ById) (items : List Fields)
    → get_item_id item id_field ≡ str id
    → lookup id m ≡ none
    → Indexes id_field m items
    → Indexes id_field ((id, item) ∷ m) (items ++ item ∷ [])
unfolding lookup
Indexes-cons id_field id item m items i n h = record {
  found = λ id' item' f. elim (Bool-cases (str_eq id' id)) [
    | inl same ↦
        let e : item ≡ item' = ground arith in
        (In-append_right item' items (item ∷ []) (inl (sym e)), rw (← e, str_eq→eq id' id same) i)
    | inr other ↦
        let (at, own) = h.found id' item' (rw other at f) in
        (In-append_left item' items (item ∷ []) at, own)
  ];
  kept = λ id' item' at own. elim (In-append item' items (item ∷ []) at) [
    | inl old ↦ ground (arith, h.kept id' item' old own, eq_iff id' id)
    | inr (inl e) ↦
        let same : id' ≡ id =
          str-injective id' id (sym own ∙ ap (λ x. get_item_id x id_field) e ∙ i) in
        rw (same, str_eq_refl id, e)
    | inr (inr none_left) ↦ absurd none_left
  ];
}

absorb_nil :
    (edge_id id_field : String) (m m' : ById) → absorb_items edge_id id_field [] m ≡ ok m' → m ≡ m'
unfolding absorb_items
absorb_nil edge_id id_field m m' h = ground arith

collect_nil :
    (items_var id_field : String) (m m' : ById) (vs vs' : List Fields)
    → collect_children items_var id_field [] (m, vs) ≡ ok (m', vs')
    → m ≡ m'
unfolding collect_children
collect_nil items_var id_field m m' vs vs' h = ground arith

absorb-Indexes :
    (edge_id id_field : String) (items : List Fields) (m m' : ById) (before : List Fields)
    → Indexes id_field m before
    → absorb_items edge_id id_field items m ≡ ok m'
    → Indexes id_field m' (before ++ items)
absorb-Indexes edge_id id_field [] m m' before h p =
    rw (append-nil, ← absorb_nil edge_id id_field m m' p) h
absorb-Indexes edge_id id_field (item ∷ items) m m' before h p =
    let (id, own, new, rest) = absorb_step edge_id id_field item items m m' p in
    rw (← append_assoc before (item ∷ []) items) (
      absorb-Indexes edge_id id_field items ((id, item) ∷ m) m' (before ++ item ∷ [])
        (Indexes-cons id_field id item m before own new h) rest)

-- The items of every child, in the order of the children.
pub returned_items : String → List BatchChild → List Fields
returned_items items_var [] = []
returned_items items_var (c ∷ cs) =
    let rest = returned_items items_var cs in
    elim (child_items items_var c) [ err f ↦ rest | ok (vars, items) ↦ items ++ rest ]

collect_step :
    (items_var id_field : String) (c : BatchChild) (cs : List BatchChild) (m m' : ById)
    (vs vs' : List Fields)
    → collect_children items_var id_field (c ∷ cs) (m, vs) ≡ ok (m', vs')
    → (n : ById) × (items : List Fields) × (vars : Fields) × (child_items items_var c
        ≡ ok (vars, items))
      × (absorb_items c.edge_id id_field items m ≡ ok n)
      × (collect_children items_var id_field cs (n, vs ++ vars ∷ []) ≡ ok (m', vs'))
unfolding collect_children
collect_step items_var id_field c cs m m' vs vs' h = elim (Result-cases (child_items items_var c)) [
  | inl (f, p) ↦ absurd (ground arith)
  | inr ((vars, items), p) ↦ elim (Result-cases (absorb_items c.edge_id id_field items m)) [
    | inl (f, q) ↦ absurd (ground arith)
    | inr (n, q) ↦ (n, items, vars, p, q, ground arith)
  ]
]

pub collect-Indexes :
    (items_var id_field : String) (cs : List BatchChild) (m m' : ById) (vs vs' before : List Fields)
    → Indexes id_field m before
    → collect_children items_var id_field cs (m, vs) ≡ ok (m', vs')
    → Indexes id_field m' (before ++ returned_items items_var cs)
unfolding returned_items
collect-Indexes items_var id_field [] m m' vs vs' before h p =
    rw (append-nil, ← collect_nil items_var id_field m m' vs vs' p) h
collect-Indexes items_var id_field (c ∷ cs) m m' vs vs' before h p =
    let (n, items, vars, own, absorbed, rest) =
      collect_step items_var id_field c cs m m' vs vs' p in
    rw (own, returned_items, ← append_assoc before items (returned_items items_var cs))
      (collect-Indexes items_var id_field cs n m' (vs ++ vars ∷ []) vs' (before ++ items)
        (absorb-Indexes c.edge_id id_field items m n before h absorbed) rest)

pub Indexes-nil : (id_field : String) → Indexes id_field [] []
unfolding lookup
Indexes-nil id_field = record {
  found = λ id item h. absurd (ground arith);
  kept = λ id item h i. elim h [ ];
}
