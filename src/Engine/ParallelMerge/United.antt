-- ===== src/Engine/ParallelMerge/United.antt =====
-- The items that a PARALLEL_JOIN merges by ID, field by field.
use nsw_core.Common.{
  String, ◌≡◌, refl, sym, ap, ◌∙◌, Option, none, some, inl, inr, List, [], ◌∷◌, ◌++◌, arith, eq_iff,
  str_eq, if◌then◌else◌, All, Option-cases,
}
use nsw_core.Shared.Value.{Value, Fields, end, field, find, put, find-put, copy_value}
use nsw_core.Shared.MapUtil.{get_nested_key}
use nsw_core.Shared.MapUtil.Merge.{IsMap, copy-value, copy-map}
use nsw_core.Engine.Park.{ok, err, Result-cases}
use nsw_core.Engine.Items.{get_item_id, to_item_slice}
use nsw_core.Engine.ParallelMerge.{
  Merged, overlay, absorb_item, absorb_all, absorb_raw, absorb_sources,
}

-- The value of the later map where it has one.
abbrev pub later : Option Value → Option Value → Option Value
later old none = old
later old (some v) = some v

find-overlay :
    (item existing : Fields) (k : String)
    → IsMap item
    → find k (overlay existing item) ≡ later (find k existing) (find k item)
unfolding overlay find
find-overlay end existing k h = refl
find-overlay (field j v item) existing k h = ground (
  arith,
  find-overlay item (put j (copy_value v) existing) k h.1,
  find-put j k (copy_value v) existing,
  copy-value v,
  eq_iff k j,
  eq_iff j k,
)

-- A field of the merged item of an ID.
pub field_of : String → String → Merged → Option Value
field_of id k [] = none
field_of id k ((j, item) ∷ m) =
    let rest = field_of id k m in if str_eq id j then find k item else rest

field_of-absorb_item :
    (id j k : String) (item : Fields) (m : Merged)
    → IsMap item
    → field_of j k (absorb_item id item m)
      ≡ (if str_eq j id then later (field_of j k m) (find k item) else field_of j k m)
unfolding field_of absorb_item
field_of-absorb_item id j k item [] h = ground (arith, eq_iff j id, ap (find k) (copy-map item))
field_of-absorb_item id j k item ((i, existing) ∷ m) h = ground (
  arith,
  field_of-absorb_item id j k item m h,
  find-overlay item existing k h,
  eq_iff j id,
  eq_iff j i,
  eq_iff id i,
)

module _ (sprint : Value → String) where
  -- The last of the items with the ID that carries the field.
  pub last_field : String → String → String → List Fields → Option Value → Option Value
  last_field id_field id k [] acc = acc
  last_field id_field id k (item ∷ items) acc =
      last_field id_field id k items
        (if str_eq id (sprint (get_item_id item id_field)) then later acc (find k item) else acc)

  absorb_round :
      (id_field : String) (item : Fields) (items : List Fields) (m m' : Merged)
      → absorb_all sprint id_field (item ∷ items) m ≡ ok m'
      → absorb_all sprint id_field items (absorb_item (sprint (get_item_id item id_field)) item m)
        ≡ ok m'
  unfolding absorb_all
  absorb_round id_field item items m m' h = ground arith

  absorb_end :
      (id_field : String) (m m' : Merged) → absorb_all sprint id_field [] m ≡ ok m' → m ≡ m'
  unfolding absorb_all
  absorb_end id_field m m' h = ground arith

  field_of-absorb_all :
      (id_field id k : String) (items : List Fields) (m m' : Merged)
      → All IsMap items
      → absorb_all sprint id_field items m ≡ ok m'
      → field_of id k m' ≡ last_field id_field id k items (field_of id k m)
  unfolding last_field
  field_of-absorb_all id_field id k [] m m' hs h =
      ap (field_of id k) (sym (absorb_end id_field m m' h))
  field_of-absorb_all id_field id k (item ∷ items) m m' hs h =
      field_of-absorb_all id_field id k items
        (absorb_item (sprint (get_item_id item id_field)) item m) m' hs.1
        (absorb_round id_field item items m m' h)
      ∙ ap (last_field id_field id k items)
          (field_of-absorb_item (sprint (get_item_id item id_field)) id k item m hs.0)

  -- The items of a variable in every source that has it, in the order of the sources.
  unfoldable pub source_items : String → List Fields → List Fields
  source_items var_path [] = []
  source_items var_path (vars ∷ rest) =
      let later_items = source_items var_path rest in
      elim (get_nested_key vars var_path) [
        | none ↦ later_items
        | some raw ↦ elim (to_item_slice raw) [
          | err f ↦ later_items
          | ok items ↦ items ++ later_items
        ]
      ]

  last_field-append :
      (id_field id k : String) (xs ys : List Fields) (acc : Option Value)
      → last_field id_field id k (xs ++ ys) acc
        ≡ last_field id_field id k ys (last_field id_field id k xs acc)
  unfolding last_field
  last_field-append id_field id k [] ys acc = refl
  last_field-append id_field id k (x ∷ xs) ys acc =
      last_field-append id_field id k xs ys
        (if str_eq id (sprint (get_item_id x id_field)) then later acc (find k x) else acc)

  All-append_parts : (xs ys : List Fields) → All IsMap (xs ++ ys) → All IsMap xs × All IsMap ys
  All-append_parts [] ys h = (tt, h)
  All-append_parts (x ∷ xs) ys h = let (l, r) = All-append_parts xs ys h.1 in ((h.0, l), r)

  sources_end :
      (var_path id_field : String) (m m' : Merged)
      → absorb_sources sprint var_path id_field [] m ≡ ok m'
      → m ≡ m'
  unfolding absorb_sources
  sources_end var_path id_field m m' h = ground arith

  sources_none :
      (var_path id_field : String) (vars : Fields) (rest : List Fields) (m m' : Merged)
      → get_nested_key vars var_path ≡ none
      → absorb_sources sprint var_path id_field (vars ∷ rest) m ≡ ok m'
      → absorb_sources sprint var_path id_field rest m ≡ ok m'
  unfolding absorb_sources
  sources_none var_path id_field vars rest m m' g h = ground arith

  sources_some :
      (var_path id_field : String) (vars : Fields) (rest : List Fields) (m m' : Merged)
      (raw : Value)
      → get_nested_key vars var_path ≡ some raw
      → absorb_sources sprint var_path id_field (vars ∷ rest) m ≡ ok m'
      → (items : List Fields) × (n : Merged) × (to_item_slice raw ≡ ok items)
        × (absorb_all sprint id_field items m ≡ ok n)
        × (absorb_sources sprint var_path id_field rest n ≡ ok m')
  unfolding absorb_sources absorb_raw
  sources_some var_path id_field vars rest m m' raw g h = elim (Result-cases (to_item_slice raw)) [
    | inl (f, p) ↦ absurd (ground arith)
    | inr (items, p) ↦ elim (Result-cases (absorb_all sprint id_field items m)) [
      | inl (f, q) ↦ absurd (ground arith)
      | inr (n, q) ↦ (items, n, p, q, ground arith)
    ]
  ]

  source_none :
      (var_path : String) (vars : Fields) (rest : List Fields)
      → get_nested_key vars var_path ≡ none
      → source_items var_path (vars ∷ rest) ≡ source_items var_path rest
  unfolding source_items
  source_none var_path vars rest g = ground arith

  source_some :
      (var_path : String) (vars : Fields) (rest : List Fields) (raw : Value) (items : List Fields)
      → get_nested_key vars var_path ≡ some raw
      → to_item_slice raw ≡ ok items
      → source_items var_path (vars ∷ rest) ≡ items ++ source_items var_path rest
  unfolding source_items
  source_some var_path vars rest raw items g p = ground arith

  -- Where the sources of mergeItemsByID are absorbed without an error and each of their items has
  -- no key twice, a field of the merged item of an ID is that of the last item, in the order of the
  -- sources, that has the ID and carries the field, or what was there before where no item does.
  pub field_of-absorb_sources :
      (var_path id_field id k : String) (sources : List Fields) (m m' : Merged)
      → All IsMap (source_items var_path sources)
      → absorb_sources sprint var_path id_field sources m ≡ ok m'
      → field_of id k m'
        ≡ last_field id_field id k (source_items var_path sources) (field_of id k m)
  field_of-absorb_sources var_path id_field id k [] m m' hs h =
      rw (← sources_end var_path id_field m m' h) (unfold source_items last_field in refl)
  field_of-absorb_sources var_path id_field id k (vars ∷ rest) m m' hs h =
      elim (Option-cases (get_nested_key vars var_path)) [
        | inl gone ↦
            field_of-absorb_sources var_path id_field id k rest m m'
              (rw (source_none var_path vars rest gone) at hs)
              (sources_none var_path id_field vars rest m m' gone h)
            ∙ ap (λ l. last_field id_field id k l (field_of id k m))
                (sym (source_none var_path vars rest gone))
        | inr (raw, there) ↦
            let (items, n, p, q, later_ok) =
              sources_some var_path id_field vars rest m m' raw there h in
            let split = source_some var_path vars rest raw items there p in
            let (hx, hr) = All-append_parts items (source_items var_path rest) (rw split at hs) in
            field_of-absorb_sources var_path id_field id k rest n m' hr later_ok
            ∙ ap (last_field id_field id k (source_items var_path rest))
                (field_of-absorb_all id_field id k items m n hx q)
            ∙ sym (
                last_field-append id_field id k items (source_items var_path rest)
                  (field_of id k m))
            ∙ ap (λ l. last_field id_field id k l (field_of id k m)) (sym split)
      ]
