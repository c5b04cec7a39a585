-- ===== src/Engine/BatchResults/Merged.antt =====
-- The items that collectAndMergeBatchResults returns.
use mathlib.Core.Option.{none-ne-some}
use nsw_core.Common.{
  String, ◌≡◌, ◌≢◌, refl, sym, ap, ◌∙◌, none, some, ◌⊎◌, inl, inr, List, [], ◌∷◌, arith, In,
  Option-cases,
}
use nsw_core.Shared.Value.{Fields, str}
use nsw_core.Engine.Park.{ok, Result-cases}
use nsw_core.Engine.Items.{get_item_id}
use nsw_core.Engine.BatchResults.{
  BatchChild, ById, lookup, collect_children, pick_items, collect_and_merge_batch_results,
}
use nsw_core.Engine.BatchResults.Collected.{Indexes, Indexes-nil, returned_items, collect-Indexes}

-- Each original has its successor in its place, under the same ID: the item that some child returned
-- under that ID, or the original itself where no child returned one.
abbrev pub Restored : String → List Fields → List Fields → List Fields → Type 0
Restored id_field returned [] [] = Unit
Restored id_field returned (o ∷ os) (r ∷ rs) =
    (get_item_id r id_field ≡ get_item_id o id_field)
    × (In r returned
        ⊎ ((r ≡ o)
            × ((i : Fields) → In i returned → get_item_id i id_field ≢ get_item_id o id_field)))
    × Restored id_field returned os rs
Restored _ _ _ _ = ⊥

-- One round of the loop over the originals.
pick_step :
    (id_field id : String) (o : Fields) (os rs : List Fields) (m : ById)
    → get_item_id o id_field ≡ str id
    → pick_items id_field (o ∷ os) m ≡ ok rs
    → (r : Fields) × (rs' : List Fields) × (rs ≡ r ∷ rs')
      × (pick_items id_field os m ≡ ok rs')
      × ((lookup id m ≡ some r) ⊎ ((lookup id m ≡ none) × (r ≡ o)))
unfolding pick_items
pick_step id_field id o os rs m i h = elim (Result-cases (pick_items id_field os m)) [
  | inl (f, p) ↦ absurd (ground arith)
  | inr (rs', p) ↦ elim (Option-cases (lookup id m)) [
    | inl new ↦ (o, rs', ground arith, p, inr (new, refl))
    | inr (r, old) ↦ (r, rs', ground arith, p, inl old)
  ]
]

pick_string :
    (id_field : String) (o : Fields) (os rs : List Fields) (m : ById)
    → pick_items id_field (o ∷ os) m ≡ ok rs
    → (id : String) × (get_item_id o id_field ≡ str id)
unfolding pick_items
pick_string id_field o os rs m h = ground arith

pick_nil :
    (id_field : String) (rs : List Fields) (m : ById) → pick_items id_field [] m ≡ ok rs → [] ≡ rs
unfolding pick_items
pick_nil id_field rs m h = ground arith

pick-Restored :
    (id_field : String) (os rs : List Fields) (m : ById) (returned : List Fields)
    → Indexes id_field m returned
    → pick_items id_field os m ≡ ok rs
    → Restored id_field returned os rs
pick-Restored id_field [] rs m returned x h = rw (← pick_nil id_field rs m h) tt
pick-Restored id_field (o ∷ os) rs m returned x h =
    let (id, own) = pick_string id_field o os rs m h in
    let (r, rs', eq, rest, which) = pick_step id_field id o os rs m own h in
    rw eq (elim which [
      | inl old ↦
          let (at, same) = x.found id r old in
          (same ∙ sym own, inl at, pick-Restored id_field os rs' m returned x rest)
      | inr (new, same) ↦ (
        ap (λ i. get_item_id i id_field) same,
        inr (same, λ i at e. none-ne-some i (sym new ∙ x.kept id i at (e ∙ own))),
        pick-Restored id_field os rs' m returned x rest,
      )
    ])

picked_result :
    (children : List BatchChild) (originals : List Fields) (items_var id_field : String)
    (result child_vars : List Fields) (m : ById) (vs : List Fields)
    → collect_children items_var id_field children ([], []) ≡ ok (m, vs)
    → collect_and_merge_batch_results children originals items_var id_field
      ≡ ok (result, child_vars)
    → pick_items id_field originals m ≡ ok result
unfolding collect_and_merge_batch_results
picked_result children originals items_var id_field result child_vars m vs p h =
    elim (Result-cases (pick_items id_field originals m)) [
      | inl (f, q) ↦ absurd (ground arith)
      | inr (rs, q) ↦ ground arith
    ]

-- Where collectAndMergeBatchResults succeeds, its result has one item for each original, in the
-- order of the originals and with the ID of the original: an item that one of the children
-- returned, or the original itself where no child returned an item of that ID.
pub collect_and_merge-Restored :
    (children : List BatchChild) (originals : List Fields) (items_var id_field : String)
    (result child_vars : List Fields)
    → collect_and_merge_batch_results children originals items_var id_field
      ≡ ok (result, child_vars)
    → Restored id_field (returned_items items_var children) originals result
unfolding collect_and_merge_batch_results
collect_and_merge-Restored children originals items_var id_field result child_vars h =
    elim (Result-cases (collect_children items_var id_field children ([], []))) [
      | inl (f, p) ↦ absurd (ground arith)
      | inr ((m, vs), p) ↦
          pick-Restored id_field originals result m (returned_items items_var children)
            (collect-Indexes items_var id_field children [] m [] vs [] (Indexes-nil id_field) p)
            (picked_result children originals items_var id_field result child_vars m vs p h)
    ]
