-- ===== src/Shared/Value.antt =====
-- Decoded JSON documents, Go's `any`, `map[string]any` and `[]any` as the packages use them, and
-- shared/deepcopy/deepcopy.go.
use nsw_core.Common.{ℕ, String, ◌≡◌, Bool, Option, none, some, arith, str_eq, if◌then◌else◌, eq_iff}

-- `negsuc n` is -(n + 1).
pub data ℤ : Type 0 where
  pos : ℕ → ℤ
  negsuc : ℕ → ℤ

-- A `float64` is its integer part (truncated toward zero) and a code of its fraction, 0 for a whole
-- number. `maps` is Go's `[]map[string]any`, a type other than `[]any`. A Go map is a list of its
-- entries; a later entry of the same key is never reached.
mutual
  pub data Value : Type 0 where
    null : Value
    bool : Bool → Value
    int : ℤ → Value
    float : ℤ → ℕ → Value
    str : String → Value
    list : Items → Value
    maps : Maps → Value
    obj : Fields → Value

  pub data Items : Type 0 where
    nil : Items
    cons : Value → Items → Items

  pub data Maps : Type 0 where
    no_maps : Maps
    cons_map : Fields → Maps → Maps

  pub data Fields : Type 0 where
    end : Fields
    field : String → Value → Fields → Fields

-- m[k]
unfoldable pub find : String → Fields → Option Value
find k end = none
find k (field j v m) = let rest = find k m in if str_eq k j then some v else rest

-- m[k] = v
unfoldable pub put : String → Value → Fields → Fields
put k v end = field k v end
put k v (field j w m) = let rest = put k v m in if str_eq k j then field j v m else field j w rest

pub find-put :
    (k j : String) (v : Value) (m : Fields)
    → find j (put k v m) ≡ (if str_eq k j then some v else find j m)
unfolding find put
find-put k j v end = ground (arith, eq_iff k j, eq_iff j k)
find-put k j v (field i w m) =
    ground (arith, eq_iff k j, eq_iff j k, eq_iff k i, eq_iff j i, find-put k j v m)

-- deepcopy.Value and deepcopy.Map: containers are rebuilt, all else is returned as it is.
unfoldable mutual
  pub copy_value : Value → Value
  copy_value (obj m) = obj (copy_map m)
  copy_value (list xs) = list (copy_items xs)
  copy_value null = null
  copy_value (bool b) = bool b
  copy_value (int n) = int n
  copy_value (float n r) = float n r
  copy_value (str s) = str s
  copy_value (maps ms) = maps ms

  pub copy_items : Items → Items
  copy_items nil = nil
  copy_items (cons v xs) = cons (copy_value v) (copy_items xs)

  pub copy_map : Fields → Fields
  copy_map end = end
  copy_map (field k v m) = field k (copy_value v) (copy_map m)
