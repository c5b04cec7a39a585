-- ===== src/Engine/Mapping/Writes.antt =====
-- What mapTaskOutputs leaves in the workflow variables.
use nsw_core.Common.{
  String, ◌≡◌, ◌≢◌, refl, ap, ◌∙◌, Bool, true, false, Option, none, some, ◌↔◌, inl, inr, List, [],
  ◌∷◌, map, arith, All, In, if◌then◌else◌, segments, is_empty, In-sort_texts, sort_texts-In,
}
use nsw_core.Shared.Value.{Value, Fields}
use nsw_core.Shared.MapUtil.{get_nested_key, set_nested_key, leaf_value}
use nsw_core.Shared.MapUtil.Paths.{
  IsPath, Diverge, get_nested_key-set_nested_key, get_nested_key-set_nested_key_ne,
}
use nsw_core.Engine.Dsl.{Mapping}
use nsw_core.Engine.Park.{
  plain, categorized, output_mapping, missing_outputs, Result, ok, err, tagged, fail, find_category,
}
use nsw_core.Engine.Mapping.{
  parse_mapping_key, mapped, key, sorted_keys, note_output, collect_outputs, write_all,
  map_task_outputs,
}
use nsw_core.Engine.Mapping.Outputs.{IsMissing, collect-IsMissing, IsMissing-collect}

-- The paths `k` and `j` lead to different places.
abbrev pub Apart : String → String → Type 0
Apart k j = Diverge (segments k) (segments j) × Diverge (segments j) (segments k)

abbrev pub AllApart : List String → Type 0
AllApart [] = Unit
AllApart (k ∷ ks) = All (Apart k) ks × AllApart ks

abbrev destinations : List (String × Value) → List String
destinations [] = []
destinations ((k, v) ∷ ws) = k ∷ destinations ws

-- Where the entries of the mapping are written.
abbrev pub targets : List String → Mapping → List String
targets [] m = []
targets (raw ∷ raws) m = mapped raw m ∷ targets raws m

write_all-Apart :
    (ws : List (String × Value)) (vars : Fields) (k : String)
    → All (Apart k) (destinations ws)
    → get_nested_key (write_all ws vars) k ≡ get_nested_key vars k
unfolding write_all
write_all-Apart [] vars k h = refl
write_all-Apart ((j, v) ∷ ws) vars k h =
    write_all-Apart ws (set_nested_key vars j v) k h.1
    ∙ get_nested_key-set_nested_key_ne vars j k v h.0.1

Apart-destination :
    (ws : List (String × Value)) (at k : String) (v : Value)
    → All (Apart at) (destinations ws)
    → In (k, v) ws
    → Apart at k
Apart-destination [] at k v h i = elim i [ ]
Apart-destination ((j, w) ∷ ws) at k v h (inl e) =
    let ek : k ≡ j = ap (λ (x : String × Value). x.0) e in rw ek h.0
Apart-destination ((j, w) ∷ ws) at k v h (inr i) = Apart-destination ws at k v h.1 i

write_all_found :
    (ws : List (String × Value)) (vars : Fields) (k : String) (v : Value)
    → In (k, v) ws
    → AllApart (destinations ws)
    → IsPath (segments k)
    → get_nested_key (write_all ws vars) k ≡ some (leaf_value (get_nested_key vars k) v)
unfolding write_all
write_all_found [] vars k v h a p = elim h [ ]
write_all_found ((j, w) ∷ ws) vars k v (inl e) a p =
    let ek : k ≡ j = ap (λ (x : String × Value). x.0) e in
    let ev : v ≡ w = ap (λ (x : String × Value). x.1) e in
    rw (ek, ev)
      (write_all-Apart ws (set_nested_key vars j w) j a.0
        ∙ get_nested_key-set_nested_key vars j w (rw ek at p))
write_all_found ((j, w) ∷ ws) vars k v (inr h) a p =
    write_all_found ws (set_nested_key vars j w) k v h a.1 p
    ∙ ap (λ o. some (leaf_value o v))
        (get_nested_key-set_nested_key_ne vars j k w (Apart-destination ws j k v a.0 h).0)

-- A round of the loop adds at most its own destination.
All-note_output :
    (at : String) (optional : Bool) (task_key dst : String) (found : Option Value)
    (rest : List (String × Value) × List String)
    → Apart at dst
    → All (Apart at) (destinations rest.0)
    → All (Apart at) (destinations (note_output optional task_key dst found rest).0)
unfolding note_output
All-note_output at true t dst none rest p h = h
All-note_output at false t dst none rest p h = h
All-note_output at true t dst (some v) rest p h = (p, h)
All-note_output at false t dst (some v) rest p h = (p, h)

All-collect :
    (at : String) (raws : List String) (m : Mapping) (result : Fields)
    → All (Apart at) (targets raws m)
    → All (Apart at) (destinations (collect_outputs raws m result).0)
unfolding collect_outputs
All-collect at [] m result h = tt
All-collect at (raw ∷ raws) m result h =
    let (t, o) = parse_mapping_key raw in
    All-note_output at o t (mapped raw m) (get_nested_key result t) (collect_outputs raws m result)
      h.0 (All-collect at raws m result h.1)

AllApart-note_output :
    (optional : Bool) (task_key dst : String) (found : Option Value)
    (rest : List (String × Value) × List String)
    → All (Apart dst) (destinations rest.0)
    → AllApart (destinations rest.0)
    → AllApart (destinations (note_output optional task_key dst found rest).0)
unfolding note_output
AllApart-note_output true t dst none rest p h = h
AllApart-note_output false t dst none rest p h = h
AllApart-note_output true t dst (some v) rest p h = (p, h)
AllApart-note_output false t dst (some v) rest p h = (p, h)

AllApart-collect :
    (raws : List String) (m : Mapping) (result : Fields)
    → AllApart (targets raws m)
    → AllApart (destinations (collect_outputs raws m result).0)
unfolding collect_outputs
AllApart-collect [] m result h = tt
AllApart-collect (raw ∷ raws) m result h =
    let (t, o) = parse_mapping_key raw in
    AllApart-note_output o t (mapped raw m) (get_nested_key result t)
      (collect_outputs raws m result) (All-collect (mapped raw m) raws m result h.0)
      (AllApart-collect raws m result h.1)

note_output-In :
    (optional : Bool) (task_key dst : String) (found : Option Value) (w : String × Value)
    (rest : List (String × Value) × List String)
    → In w rest.0
    → In w (note_output optional task_key dst found rest).0
unfolding note_output
note_output-In true t dst none w rest h = h
note_output-In false t dst none w rest h = h
note_output-In true t dst (some v) w rest h = inr h
note_output-In false t dst (some v) w rest h = inr h

note_output_found :
    (optional : Bool) (task_key dst : String) (v : Value)
    (rest : List (String × Value) × List String)
    → In (dst, v) (note_output optional task_key dst (some v) rest).0
unfolding note_output
note_output_found true t dst v rest = inl refl
note_output_found false t dst v rest = inl refl

collect-In :
    (raws : List String) (m : Mapping) (result : Fields) (raw : String) (v : Value)
    → In raw raws
    → get_nested_key result (parse_mapping_key raw).0 ≡ some v
    → In (mapped raw m, v) (collect_outputs raws m result).0
unfolding collect_outputs
collect-In [] m result raw v h f = elim h [ ]
collect-In (first ∷ raws) m result raw v (inl e) f = rw e (
    let (t, o) = parse_mapping_key first in
    let f' : get_nested_key result t ≡ some v = rw e at f in
    rw f' (note_output_found o t (mapped first m) v (collect_outputs raws m result)))
collect-In (first ∷ raws) m result raw v (inr h) f =
    let (t, o) = parse_mapping_key first in
    note_output-In o t (mapped first m) (get_nested_key result t) (mapped raw m, v)
      (collect_outputs raws m result) (collect-In raws m result raw v h f)

-- What a result of mapTaskOutputs says of the task's data: a success, that no required field is
-- missing; an error, which required fields are, with the category of an output mapping.
abbrev pub Reports : Mapping → Fields → Result Fields → Type 0
Reports m result (ok vars) = (k : String) → ¬ IsMissing (map key m) result k
Reports m result (err e) =
    (missing : List String) × (e ≡ categorized output_mapping (plain (missing_outputs missing)))
    × (missing ≢ [])
    × ((k : String) → In k missing ↔ IsMissing (map key m) result k)

sorted-IsMissing :
    (m : Mapping) (result : Fields) (k : String)
    → IsMissing (sorted_keys m) result k ↔ IsMissing (map key m) result k
unfolding sorted_keys
sorted-IsMissing m result k = (
  λ h. record {
    raw = h.raw;
    stands = In-sort_texts h.raw (map key m) h.stands;
    required = h.required;
    absent = h.absent;
  },
  λ h. record {
    raw = h.raw;
    stands = sort_texts-In h.raw (map key m) h.stands;
    required = h.required;
    absent = h.absent;
  },
)

collect-IsMissing_iff :
    (m : Mapping) (result : Fields) (k : String)
    → In k (collect_outputs (sorted_keys m) m result).1 ↔ IsMissing (map key m) result k
collect-IsMissing_iff m result k = (
  λ h. (sorted-IsMissing m result k).0 (collect-IsMissing (sorted_keys m) m result k h),
  λ h. IsMissing-collect (sorted_keys m) m result k ((sorted-IsMissing m result k).1 h),
)

Reports-missing :
    (m : Mapping) (result vars : Fields) (missing : List String)
    → ((k : String) → In k missing ↔ IsMissing (map key m) result k)
    → Reports m result
        (if is_empty missing then ok vars else fail output_mapping (missing_outputs missing))
unfolding tagged find_category
Reports-missing m result vars [] h = λ k g. (h k).1 g
Reports-missing m result vars (k ∷ ks) h = (k ∷ ks, refl, (λ e. cc), h)

-- mapTaskOutputs succeeds exactly where no required field of the mapping is missing from the task
-- result; otherwise its error is categorized OUTPUT_MAPPING and lists the missing required fields,
-- all of them and nothing else, and at least one.
pub map_task_outputs-Reports :
    (vars : Fields) (m : Mapping) (result : Fields)
    → Reports m result (map_task_outputs vars m result)
unfolding map_task_outputs
map_task_outputs-Reports vars [] result = λ k h. h.stands
map_task_outputs-Reports vars (e ∷ m) result =
    Reports-missing (e ∷ m) result
      (write_all (collect_outputs (sorted_keys (e ∷ m)) (e ∷ m) result).0 vars)
      (collect_outputs (sorted_keys (e ∷ m)) (e ∷ m) result).1
      (collect-IsMissing_iff (e ∷ m) result)

ok_vars :
    (missing : List String) (vars vars' : Fields)
    → (if is_empty missing then ok vars else fail output_mapping (missing_outputs missing))
      ≡ ok vars'
    → vars ≡ vars'
ok_vars missing vars vars' h = ground arith

-- Where mapTaskOutputs succeeds and no target path of the mapping leads into another one, each
-- source field that the task result holds is read back at its target, a path with a leaf, as the
-- value that SetNestedKey makes of the old one there and the new one, whatever the order of the
-- writes.
pub map_task_outputs_writes :
    (vars : Fields) (m : Mapping) (result vars' : Fields) (raw : String) (v : Value)
    → map_task_outputs vars m result ≡ ok vars'
    → AllApart (targets (sorted_keys m) m)
    → In raw (map key m)
    → IsPath (segments (mapped raw m))
    → get_nested_key result (parse_mapping_key raw).0 ≡ some v
    → get_nested_key vars' (mapped raw m) ≡ some (leaf_value (get_nested_key vars (mapped raw m)) v)
unfolding map_task_outputs sorted_keys
map_task_outputs_writes vars [] result vars' raw v h a i p f = elim i [ ]
map_task_outputs_writes vars (e ∷ m) result vars' raw v h a i p f =
    rw
      (← ok_vars (collect_outputs (sorted_keys (e ∷ m)) (e ∷ m) result).1
        (write_all (collect_outputs (sorted_keys (e ∷ m)) (e ∷ m) result).0 vars) vars' h)
      (write_all_found (collect_outputs (sorted_keys (e ∷ m)) (e ∷ m) result).0 vars
        (mapped raw (e ∷ m)) v
        (collect-In (sorted_keys (e ∷ m)) (e ∷ m) result raw v
          (sort_texts-In raw (map key (e ∷ m)) i) f)
        (AllApart-collect (sorted_keys (e ∷ m)) (e ∷ m) result a) p)
