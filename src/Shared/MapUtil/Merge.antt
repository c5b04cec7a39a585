-- ===== src/Shared/MapUtil/Merge.antt =====
-- mergeMaps and deepcopy, key by key.
use nsw_core.Common.{String, ◌≡◌, refl, ap, Option, none, some, arith, eq_iff}
use nsw_core.Shared.Value.{
  Value, null, bool, int, float, str, list, maps, obj, Items, nil, cons, Fields, end, field, find,
  put, find-put, copy_value, copy_items, copy_map,
}
use nsw_core.Shared.MapUtil.{merge_maps, merge_value}

mutual
  unfolding copy_value

  copy_value_same : (v : Value) → copy_value v ≡ v
  copy_value_same (obj m) = ap obj (copy_map_same m)
  copy_value_same (list xs) = ap list (copy_items_same xs)
  copy_value_same null = refl
  copy_value_same (bool b) = refl
  copy_value_same (int n) = refl
  copy_value_same (float n r) = refl
  copy_value_same (str s) = refl
  copy_value_same (maps ms) = refl

  copy_items_same : (xs : Items) → copy_items xs ≡ xs
  copy_items_same nil = refl
  copy_items_same (cons v xs) = λ i. cons (copy_value_same v i) (copy_items_same xs i)

  copy_map_same : (m : Fields) → copy_map m ≡ m
  copy_map_same end = refl
  copy_map_same (field k v m) = λ i. field k (copy_value_same v i) (copy_map_same m i)

pub copy-value : (v : Value) → copy_value v ≡ v
copy-value = copy_value_same

pub copy-map : (m : Fields) → copy_map m ≡ m
copy-map = copy_map_same

-- No key stands twice, as in every Go map.
abbrev pub IsMap : Fields → Type 0
IsMap end = Unit
IsMap (field k v m) = (find k m ≡ none) × IsMap m

-- What a merge leaves at a key: the old value where `src` has none, else the merged one.
abbrev pub merged_at : Option Value → Option Value → Option Value
merged_at old none = old
merged_at old (some v) = some (merge_value old v)

-- Where the source of mergeMaps has no key twice, the merged map holds at each key the old value
-- where the source has no entry, and else the merge of the old value with that entry alone, so the
-- order in which the entries are visited does not matter.
pub find-merge_maps :
    (src dst : Fields) (k : String)
    → IsMap src
    → find k (merge_maps dst src) ≡ merged_at (find k dst) (find k src)
unfolding merge_maps find
find-merge_maps end dst k h = refl
find-merge_maps (field j v src) dst k h = ground (
  arith,
  find-merge_maps src (put j (merge_value (find j dst) v) dst) k h.1,
  find-put j k (merge_value (find j dst) v) dst,
  eq_iff k j,
  eq_iff j k,
)
