-- ===== src/Shared/MapUtil/Paths.antt =====
-- Reading a nested key after writing one.
use nsw_core.Common.{
  String, ◌≡◌, ◌≢◌, ◌⊎◌, inl, inr, refl, ap, false, Option, none, some, List, [], ◌∷◌, arith,
  str_eq, str_eq_refl, ne→str_eq, eq_iff, segments,
}
use nsw_core.Shared.Value.{
  Value, null, bool, int, float, str, list, maps, obj, Fields, end, find, put, find-put,
}
use nsw_core.Shared.MapUtil.{
  get_path, get_nested_key, leaf_value, sub_map, set_path, set_nested_key,
}
use nsw_core.Shared.MapUtil.Merge.{copy-map}

-- A path that names a key: there is a leaf, and it is not empty.
abbrev pub IsPath : List String → Type 0
IsPath [] = ⊥
IsPath (k ∷ []) = str_eq k "" ≡ false
IsPath (k ∷ j ∷ ks) = IsPath (j ∷ ks)

-- Two paths part at some segment, so neither leads to the other.
abbrev pub Diverge : List String → List String → Type 0
Diverge (k ∷ ks) (j ∷ js) = (k ≢ j) ⊎ ((k ≡ j) × Diverge ks js)
Diverge _ _ = ⊥

get_path-end : (ks : List String) → get_path ks end ≡ none
unfolding get_path find
get_path-end [] = refl
get_path-end (k ∷ []) = ground arith
get_path-end (k ∷ j ∷ ks) = refl

-- The maps that a read and a write go on in hold the same at every path.
get_path-sub_map :
    (o : Option Value) (j : String) (ks : List String)
    → get_path (j ∷ ks) (sub_map o) ≡ elim o [ some (obj sub) ↦ get_path (j ∷ ks) sub | _ ↦ none ]
unfolding sub_map
get_path-sub_map none j ks = get_path-end (j ∷ ks)
get_path-sub_map (some (obj m)) j ks = ap (get_path (j ∷ ks)) (copy-map m)
get_path-sub_map (some null) j ks = get_path-end (j ∷ ks)
get_path-sub_map (some (bool b)) j ks = get_path-end (j ∷ ks)
get_path-sub_map (some (int n)) j ks = get_path-end (j ∷ ks)
get_path-sub_map (some (float n r)) j ks = get_path-end (j ∷ ks)
get_path-sub_map (some (str s)) j ks = get_path-end (j ∷ ks)
get_path-sub_map (some (list xs)) j ks = get_path-end (j ∷ ks)
get_path-sub_map (some (maps ms)) j ks = get_path-end (j ∷ ks)

find-put_self : (k : String) (v : Value) (m : Fields) → find k (put k v m) ≡ some v
find-put_self k v m = simp (find-put, str_eq_refl)

find-put_ne : (k j : String) (v : Value) (m : Fields) → k ≢ j → find j (put k v m) ≡ find j m
find-put_ne k j v m h = simp (find-put, ne→str_eq k j h)

get_path-set_path :
    (ks : List String) (v : Value) (m : Fields)
    → IsPath ks
    → get_path ks (set_path ks v m) ≡ some (leaf_value (get_path ks m) v)
unfolding get_path set_path
get_path-set_path [] v m h = elim h [ ]
get_path-set_path (k ∷ []) v m h = rw h (find-put_self k _ m)
get_path-set_path (k ∷ j ∷ ks) v m h = ground (
  arith,
  find-put_self k (obj (set_path (j ∷ ks) v (sub_map (find k m)))) m,
  get_path-set_path (j ∷ ks) v (sub_map (find k m)) h,
  get_path-sub_map (find k m) j ks,
)

get_path-set_path_ne :
    (ks js : List String) (v : Value) (m : Fields)
    → Diverge ks js
    → get_path js (set_path ks v m) ≡ get_path js m
unfolding get_path set_path
get_path-set_path_ne [] js v m h = elim h [ ]
get_path-set_path_ne (k ∷ ks) [] v m h = elim h [ ]
get_path-set_path_ne (k ∷ []) (j ∷ []) v m h =
    ground (arith, find-put k j (leaf_value (find k m) v) m, eq_iff k j)
get_path-set_path_ne (k ∷ []) (j ∷ j' ∷ js) v m h =
    ground (arith, find-put k j (leaf_value (find k m) v) m, eq_iff k j)
get_path-set_path_ne (k ∷ k' ∷ ks) (j ∷ []) v m h =
    ground (arith, find-put k j (obj (set_path (k' ∷ ks) v (sub_map (find k m)))) m, eq_iff k j)
get_path-set_path_ne (k ∷ k' ∷ ks) (j ∷ j' ∷ js) v m h = elim h [
  | inl p ↦ ground (arith, find-put_ne k j (obj (set_path (k' ∷ ks) v (sub_map (find k m)))) m p)
  | inr p ↦ ground (
    arith,
    find-put_self k (obj (set_path (k' ∷ ks) v (sub_map (find k m)))) m,
    get_path-set_path_ne (k' ∷ ks) (j' ∷ js) v (sub_map (find k m)) p.1,
    get_path-sub_map (find k m) j' js,
  )
]

-- GetNestedKey after SetNestedKey at the same path, whose last segment is not empty, finds the leaf
-- value: the new value in place of the old one, or merged into it where both are maps.
pub get_nested_key-set_nested_key :
    (m : Fields) (path : String) (v : Value)
    → IsPath (segments path)
    → get_nested_key (set_nested_key m path v) path ≡ some (leaf_value (get_nested_key m path) v)
unfolding get_nested_key set_nested_key
get_nested_key-set_nested_key m path v h = get_path-set_path (segments path) v m h

-- SetNestedKey at a path leaves what GetNestedKey finds at every other path that parts from it at
-- some segment.
pub get_nested_key-set_nested_key_ne :
    (m : Fields) (path other : String) (v : Value)
    → Diverge (segments path) (segments other)
    → get_nested_key (set_nested_key m path v) other ≡ get_nested_key m other
unfolding get_nested_key set_nested_key
get_nested_key-set_nested_key_ne m path other v h =
    get_path-set_path_ne (segments path) (segments other) v m h
