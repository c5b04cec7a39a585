-- ===== src/Engine/ParallelMerge/Keys.antt =====
-- The merged variables, key by key.
use nsw_core.Common.{
  String, ◌≡◌, refl, ap, ◌∙◌, Bool, true, false, Option, none, some, List, [], ◌∷◌, ◌++◌, arith,
  eq_iff, mem_text, All,
}
use nsw_core.Shared.Value.{
  Value, null, bool, int, float, str, list, maps, obj, Fields, end, field, find, put, find-put,
}
use nsw_core.Shared.MapUtil.{merge_maps, merge_value}
use nsw_core.Shared.MapUtil.Merge.{IsMap, merged_at, copy-value, copy-map, find-merge_maps}
use nsw_core.Engine.ParallelMerge.{
  merge_below, merge_variable, merge_variables_into, merge_branches,
}

-- The engine's merge of nested maps is maputil's.
mutual
  unfolding merge_below merge_maps

  merge_below_same : (src dst : Fields) → merge_below dst src ≡ merge_maps dst src
  merge_below_same end dst = refl
  merge_below_same (field k v src) dst =
      merge_below_same src (put k (merge_variable (find k dst) v) dst)
      ∙ ap (λ w. merge_maps (put k w dst) src) (merge_variable_same v (find k dst))

  merge_variable_same : (v : Value) (o : Option Value) → merge_variable o v ≡ merge_value o v
  merge_variable_same (obj m) (some (obj sub)) = ap obj (merge_below_same m sub)
  merge_variable_same v o = ground arith

-- The merge of nested maps in mergeVariablesInto gives on every two maps what mergeMaps of maputil
-- gives.
pub merge_below-eq-merge_maps : (dst src : Fields) → merge_below dst src ≡ merge_maps dst src
merge_below-eq-merge_maps dst src = merge_below_same src dst

-- What one branch leaves at a key.
abbrev pub merged_key : Bool → Option Value → Option Value → Option Value
merged_key true old new = old
merged_key false old new = merged_at old new

find-merge_variables_into :
    (skip : List String) (src dst : Fields) (k : String)
    → IsMap src
    → find k (merge_variables_into skip dst src)
      ≡ merged_key (mem_text k skip) (find k dst) (find k src)
unfolding merge_variables_into find
find-merge_variables_into skip end dst k h = ground arith
find-merge_variables_into skip (field j v src) dst k h = ground (
  arith,
  find-merge_variables_into skip src dst k h.1,
  find-merge_variables_into skip src (put j (merge_variable (find j dst) v) dst) k h.1,
  find-put j k (merge_variable (find j dst) v) dst,
  merge_variable_same v (find j dst),
  eq_iff k j,
  eq_iff j k,
)

-- The fold of the branches at one key.
abbrev pub folded_key : Bool → String → List Fields → Option Value → Option Value
folded_key skipped k [] old = old
folded_key skipped k (b ∷ bs) old = folded_key skipped k bs (merged_key skipped old (find k b))

-- Where no branch has a key twice, the variables after the loop over the branches hold at each
-- top-level key the fold of the merges of that key alone over the branches in their order, and a
-- skipped key holds what it held before.
pub find-merge_branches :
    (skip : List String) (bs : List Fields) (dst : Fields) (k : String)
    → All IsMap bs
    → find k (merge_branches skip bs dst) ≡ folded_key (mem_text k skip) k bs (find k dst)
unfolding merge_branches
find-merge_branches skip [] dst k h = refl
find-merge_branches skip (b ∷ bs) dst k h =
    find-merge_branches skip bs (merge_variables_into skip dst b) k h.1
    ∙ ap (folded_key (mem_text k skip) k bs) (find-merge_variables_into skip b dst k h.0)

-- Neither a map nor merged by ID: such a value replaces what is there.
abbrev pub is_plain : Value → Bool
is_plain (obj m) = false
is_plain _ = true

merge_value_plain : (old : Option Value) (v : Value) → is_plain v ≡ true → merge_value old v ≡ v
unfolding merge_maps
merge_value_plain old v h = ground (arith, copy-value v)

-- Where a key is not skipped and the last branch, which has no key twice, holds at it a value that
-- is no map, the variables after the loop over the branches hold that value, whatever the branches
-- before it wrote.
pub merge_branches_last :
    (skip : List String) (bs : List Fields) (last dst : Fields) (k : String) (v : Value)
    → IsMap last
    → mem_text k skip ≡ false
    → find k last ≡ some v
    → is_plain v ≡ true
    → find k (merge_branches skip (bs ++ last ∷ []) dst) ≡ some v
unfolding merge_branches
merge_branches_last skip [] last dst k v h m f p =
    ground (arith, find-merge_variables_into skip last dst k h, merge_value_plain (find k dst) v p)
merge_branches_last skip (b ∷ bs) last dst k v h m f p =
    merge_branches_last skip bs last (merge_variables_into skip dst b) k v h m f p

-- A merge leaves a plain field of the new object as it is there.
merge_value_field :
    (old : Option Value) (sub : Fields) (j : String) (v : Value)
    → IsMap sub
    → find j sub ≡ some v
    → is_plain v ≡ true
    → (m : Fields) × (merge_value old (obj sub) ≡ obj m) × (find j m ≡ some v)
unfolding merge_maps
merge_value_field (some (obj dst)) sub j v h f p = (
  merge_maps dst sub,
  refl,
  ground (arith, find-merge_maps sub dst j h, merge_value_plain (find j dst) v p),
)
merge_value_field none sub j v h f p = (sub, ap obj (copy-map sub), f)
merge_value_field (some null) sub j v h f p = (sub, ap obj (copy-map sub), f)
merge_value_field (some (bool b)) sub j v h f p = (sub, ap obj (copy-map sub), f)
merge_value_field (some (int n)) sub j v h f p = (sub, ap obj (copy-map sub), f)
merge_value_field (some (float n r)) sub j v h f p = (sub, ap obj (copy-map sub), f)
merge_value_field (some (str s)) sub j v h f p = (sub, ap obj (copy-map sub), f)
merge_value_field (some (list xs)) sub j v h f p = (sub, ap obj (copy-map sub), f)
merge_value_field (some (maps ms)) sub j v h f p = (sub, ap obj (copy-map sub), f)

-- Where a key is not skipped and the last branch holds an object at it, whose field is no map, the
-- variables after the loop over the branches hold an object there with that value of the field,
-- whatever the branches before it wrote; neither the last branch nor its object has a key twice.
pub merge_branches_last_field :
    (skip : List String) (bs : List Fields) (last dst : Fields) (k j : String) (sub : Fields)
    (v : Value)
    → IsMap last
    → IsMap sub
    → mem_text k skip ≡ false
    → find k last ≡ some (obj sub)
    → find j sub ≡ some v
    → is_plain v ≡ true
    → (m : Fields) × (find k (merge_branches skip (bs ++ last ∷ []) dst) ≡ some (obj m))
      × (find j m ≡ some v)
unfolding merge_branches
merge_branches_last_field skip [] last dst k j sub v h hs n f g p =
    let (m, e, at) = merge_value_field (find k dst) sub j v hs g p in
    (m, ground (arith, find-merge_variables_into skip last dst k h), at)
merge_branches_last_field skip (b ∷ bs) last dst k j sub v h hs n f g p =
    merge_branches_last_field skip bs last (merge_variables_into skip dst b) k j sub v h hs n f g p
