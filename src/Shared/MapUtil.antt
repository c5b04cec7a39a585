-- ===== src/Shared/MapUtil.antt =====
-- shared/maputil/maputil.go: nested maps read and written by dotted paths.
pub mod Paths
pub mod Merge
use nsw_core.Common.{
  String, Bool, Option, none, some, List, [], ◌∷◌, str_eq, if◌then◌else◌, segments,
}
use nsw_core.Shared.Value.{
  Value, null, bool, int, float, str, list, maps, obj, Fields, end, field, find, put, copy_value,
  copy_map,
}

-- The recursion of GetNestedKey over the segments of its path. The leaf is refused where it is empty.
unfoldable pub get_path : List String → Fields → Option Value
get_path [] m = none
get_path (k ∷ []) m = if str_eq k "" then none else find k m
get_path (k ∷ j ∷ ks) m = elim (find k m) [ some (obj sub) ↦ get_path (j ∷ ks) sub | _ ↦ none ]

unfoldable pub get_nested_key : Fields → String → Option Value
get_nested_key m path = get_path (segments path) m

-- mergeMaps(dst, src): `src` is walked entry by entry, and a map over a map is merged in turn.
unfoldable mutual
  pub merge_maps : Fields → Fields → Fields
  merge_maps dst end = dst
  merge_maps dst (field k v src) = merge_maps (put k (merge_value (find k dst) v) dst) src

  pub merge_value : Option Value → Value → Value
  merge_value (some (obj sub)) (obj m) = obj (merge_maps sub m)
  merge_value _ (obj m) = obj (copy_map m)
  merge_value _ v = copy_value v

-- What SetNestedKey writes at its leaf: a map over a map is merged into a copy of the old one, all
-- else is replaced by a copy of the new value.
unfoldable pub leaf_value : Option Value → Value → Value
unfolding merge_maps
leaf_value (some (obj old)) (obj new) = obj (merge_maps (copy_map old) new)
leaf_value _ v = copy_value v

-- The map that SetNestedKey goes on in: a copy of the one that is there, or a new one.
unfoldable pub sub_map : Option Value → Fields
sub_map (some (obj m)) = copy_map m
sub_map _ = end

unfoldable pub set_path : List String → Value → Fields → Fields
unfolding leaf_value sub_map
set_path [] v m = m
set_path (k ∷ []) v m = if str_eq k "" then m else put k (leaf_value (find k m) v) m
set_path (k ∷ j ∷ ks) v m = put k (obj (set_path (j ∷ ks) v (sub_map (find k m)))) m

unfoldable pub set_nested_key : Fields → String → Value → Fields
set_nested_key m path v = set_path (segments path) v m
