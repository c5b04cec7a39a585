-- ===== src/Engine/Mapping/Outputs.antt =====
-- What mapTaskOutputs reports and writes.
use nsw_core.Common.{
  String, ◌≡◌, refl, sym, ap, ◌∙◌, Bool, true, false, Option, none, some, inl, inr, List, [], ◌∷◌,
  In,
}
use nsw_core.Shared.Value.{Value, Fields}
use nsw_core.Shared.MapUtil.{get_nested_key}
use nsw_core.Engine.Dsl.{Mapping}
use nsw_core.Engine.Mapping.{parse_mapping_key, mapped, note_output, collect_outputs}

-- A required source of the mapping that `result` does not hold.
pub record IsMissing (raws : List String) (result : Fields) (k : String) : Type 0 where
  pub raw : String
  pub stands : In raw raws
  pub required : parse_mapping_key raw ≡ (k, false)
  pub absent : get_nested_key result k ≡ none

IsMissing-later :
    {raws : List String} {result : Fields} {k : String} (raw : String)
    → IsMissing raws result k
    → IsMissing (raw ∷ raws) result k
IsMissing-later raw h = record {
  raw = h.raw;
  stands = inr h.stands;
  required = h.required;
  absent = h.absent;
}

-- One round of the loop, at what it found.
note-IsMissing :
    (raw task_key dst k : String) (optional : Bool) (result : Fields) (raws : List String)
    (found : Option Value) (rest : List (String × Value) × List String)
    → parse_mapping_key raw ≡ (task_key, optional)
    → get_nested_key result task_key ≡ found
    → (In k rest.1 → IsMissing raws result k)
    → In k (note_output optional task_key dst found rest).1
    → IsMissing (raw ∷ raws) result k
unfolding note_output
note-IsMissing raw t dst k true result raws none rest p q ih h = IsMissing-later raw (ih h)
note-IsMissing raw t dst k true result raws (some v) rest p q ih h = IsMissing-later raw (ih h)
note-IsMissing raw t dst k false result raws (some v) rest p q ih h = IsMissing-later raw (ih h)
note-IsMissing raw t dst k false result raws none rest p q ih (inl e) = record {
  raw = raw;
  stands = inl refl;
  required = rw e p;
  absent = rw e q;
}
note-IsMissing raw t dst k false result raws none rest p q ih (inr h) = IsMissing-later raw (ih h)

pub collect-IsMissing :
    (raws : List String) (m : Mapping) (result : Fields) (k : String)
    → In k (collect_outputs raws m result).1
    → IsMissing raws result k
unfolding collect_outputs
collect-IsMissing [] m result k h = elim h [ ]
collect-IsMissing (raw ∷ raws) m result k h =
    let (t, o) = parse_mapping_key raw in
    note-IsMissing raw t (mapped raw m) k o result raws (get_nested_key result t)
      (collect_outputs raws m result) refl refl (collect-IsMissing raws m result k) h

-- A missing field stays noted.
note-keeps :
    (task_key dst k : String) (optional : Bool) (found : Option Value)
    (rest : List (String × Value) × List String)
    → In k rest.1
    → In k (note_output optional task_key dst found rest).1
unfolding note_output
note-keeps t dst k true none rest h = h
note-keeps t dst k true (some v) rest h = h
note-keeps t dst k false (some v) rest h = h
note-keeps t dst k false none rest h = inr h

IsMissing-note :
    (raw task_key dst k : String) (optional : Bool) (result : Fields) (raws : List String)
    (found : Option Value) (rest : List (String × Value) × List String)
    → parse_mapping_key raw ≡ (task_key, optional)
    → get_nested_key result task_key ≡ found
    → (IsMissing raws result k → In k rest.1)
    → IsMissing (raw ∷ raws) result k
    → In k (note_output optional task_key dst found rest).1
unfolding note_output
IsMissing-note raw t dst k o result raws found rest p q ih h = elim h.stands [
  | inl e ↦
      let parsed : (t, o) ≡ (k, false) = sym p ∙ ap parse_mapping_key (sym e) ∙ h.required in
      let same : k ≡ t = sym (ap (λ (x : String × Bool). x.0) parsed) in
      let needed : o ≡ false = ap (λ (x : String × Bool). x.1) parsed in
      let gone : found ≡ none = sym q ∙ ap (get_nested_key result) (sym same) ∙ h.absent in
      rw (needed, gone) (inl same)
  | inr later ↦
      note-keeps t dst k o found rest
        (ih (record { raw = h.raw; stands = later; required = h.required; absent = h.absent }))
]

pub IsMissing-collect :
    (raws : List String) (m : Mapping) (result : Fields) (k : String)
    → IsMissing raws result k
    → In k (collect_outputs raws m result).1
unfolding collect_outputs
IsMissing-collect [] m result k h = elim h.stands [ ]
IsMissing-collect (raw ∷ raws) m result k h =
    let (t, o) = parse_mapping_key raw in
    IsMissing-note raw t (mapped raw m) k o result raws (get_nested_key result t)
      (collect_outputs raws m result) refl refl (IsMissing-collect raws m result k) h
