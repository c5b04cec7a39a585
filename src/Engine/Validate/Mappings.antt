-- ===== src/Engine/Validate/Mappings.antt =====
-- workflow/batch_validate.go: validateBatchSplitMappings. An error is the result false.
use nsw_core.Common.{
  String, ◌≡◌, refl, sym, subst, Bool, true, false, not, ◌&&◌, ◌||◌, ◌↔◌, inl, inr, List, [], ◌∷◌,
  map, arith, str_eq, eq_iff, mem_text, mem_text→In, In→mem_text, In, Bool-cases,
}
use nsw_core.Engine.Dsl.{Mapping, Node}
use nsw_core.Engine.Mapping.{parse_mapping_key}
use nsw_core.Engine.BatchSplit.{items_variable_of, is_engine_name}

-- The key of an entry without its mark.
unfoldable pub source_of : String × String → String
unfolding parse_mapping_key
source_of e = (parse_mapping_key e.0).0

abbrev pub destination_of : String × String → String
destination_of e = e.1

-- The checks that both loops begin with.
unfoldable pub is_refused : String → String × String → Bool
is_refused items e =
    (str_eq (source_of e) "" || str_eq (destination_of e) "")
    || (str_eq (source_of e) items || str_eq (destination_of e) items)

unfoldable pub inputs_accepted : String → Mapping → Bool
unfolding is_refused is_engine_name
inputs_accepted items [] = true
inputs_accepted items (e ∷ m) =
    not (is_refused items e || is_engine_name (destination_of e)) && inputs_accepted items m

unfoldable pub outputs_accepted : String → Mapping → List String → Bool
unfolding is_refused
outputs_accepted items [] written = true
outputs_accepted items (e ∷ m) written =
    not (is_refused items e || mem_text (destination_of e) written)
    && outputs_accepted items m (destination_of e ∷ written)

unfoldable pub validate_batch_split_mappings : Node → Bool
unfolding inputs_accepted outputs_accepted
validate_batch_split_mappings split =
    inputs_accepted (items_variable_of split) split.input_mapping
    && outputs_accepted (items_variable_of split) split.output_mapping []

-- Both paths are there, and neither is the items variable.
abbrev pub LeavesItems : String → String × String → Type 0
LeavesItems items e =
    (¬ (source_of e ≡ ""))
    × (¬ (destination_of e ≡ ""))
    × (¬ (source_of e ≡ items))
    × (¬ (destination_of e ≡ items))

abbrev pub AllApart : List String → Type 0
AllApart [] = Unit
AllApart (x ∷ xs) = (¬ (In x xs)) × AllApart xs

pub record AreSound (split : Node) : Type 0 where
  inputs_leave_items :
      (e : String × String)
      → In e split.input_mapping
      → LeavesItems (items_variable_of split) e × (is_engine_name (destination_of e) ≡ false)
  outputs_leave_items :
      (e : String × String) → In e split.output_mapping → LeavesItems (items_variable_of split) e
  outputs_apart : AllApart (map destination_of split.output_mapping)

is_refused→LeavesItems :
    (items : String) (e : String × String) → is_refused items e ≡ false → LeavesItems items e
unfolding is_refused
is_refused→LeavesItems items e h = (
  λ p. ground (arith, eq_iff (source_of e) ""),
  λ p. ground (arith, eq_iff (destination_of e) ""),
  λ p. ground (arith, eq_iff (source_of e) items),
  λ p. ground (arith, eq_iff (destination_of e) items),
)

LeavesItems→is_refused :
    (items : String) (e : String × String) → LeavesItems items e → is_refused items e ≡ false
unfolding is_refused
LeavesItems→is_refused items e (a, b, c, d) = ground (
  arith,
  eq_iff (source_of e) "",
  eq_iff (destination_of e) "",
  eq_iff (source_of e) items,
  eq_iff (destination_of e) items,
)

inputs-Leave :
    (items : String) (m : Mapping) (e : String × String)
    → inputs_accepted items m ≡ true
    → In e m
    → LeavesItems items e × (is_engine_name (destination_of e) ≡ false)
unfolding inputs_accepted
inputs-Leave items [] e h i = elim i [ ]
inputs-Leave items (d ∷ m) e h (inl p) =
    rw p (is_refused→LeavesItems items d (ground arith), ground arith)
inputs-Leave items (d ∷ m) e h (inr i) = inputs-Leave items m e (ground arith) i

Leave-inputs :
    (items : String) (m : Mapping)
    → ((e : String × String)
        → In e m
        → LeavesItems items e × (is_engine_name (destination_of e) ≡ false))
    → inputs_accepted items m ≡ true
unfolding inputs_accepted
Leave-inputs items [] k = refl
Leave-inputs items (d ∷ m) k =
    let rest = Leave-inputs items m (λ e i. k e (inr i)) in
    let fine = LeavesItems→is_refused items d (k d (inl refl)).0 in
    let named = (k d (inl refl)).1 in ground arith

-- The loop over the outputs, from the destinations on that are written.
record Accepted (items : String) (m : Mapping) (written : List String) : Type 0 where
  leave : (e : String × String) → In e m → LeavesItems items e
  apart : AllApart (map destination_of m)
  new : (x : String) → In x (map destination_of m) → ¬ (In {A = String} x written)

Accepted-cons :
    (items : String) (d : String × String) (m : Mapping) (written : List String)
    → LeavesItems items d
    → ¬ (In (destination_of d) written)
    → Accepted items m (destination_of d ∷ written)
    → Accepted items (d ∷ m) written
Accepted-cons items d m written l n a = record {
  leave = λ e i. elim i [ inl p ↦ subst (LeavesItems items) (sym p) l | inr j ↦ a.leave e j ];
  apart = (λ i. a.new (destination_of d) i (inl refl), a.apart);
  new = λ x i w. elim i [
    | inl p ↦ n (subst (λ y. In {A = String} y written) p w)
    | inr j ↦ a.new x j (inr w)
  ];
}

outputs-Accepted :
    (items : String) (m : Mapping) (written : List String)
    → outputs_accepted items m written ≡ true
    → Accepted items m written
unfolding outputs_accepted
outputs-Accepted items [] written h = record {
  leave = λ e i. elim i [ ];
  apart = tt;
  new = λ x i. elim i [ ];
}
outputs-Accepted items (d ∷ m) written h =
    Accepted-cons items d m written (is_refused→LeavesItems items d (ground arith))
      (λ i. ground (arith, In→mem_text (destination_of d) written i))
      (outputs-Accepted items m (destination_of d ∷ written) (ground arith))

Accepted-tail :
    (items : String) (d : String × String) (m : Mapping) (written : List String)
    → Accepted items (d ∷ m) written
    → Accepted items m (destination_of d ∷ written)
Accepted-tail items d m written a = record {
  leave = λ e i. a.leave e (inr i);
  apart = a.apart.1;
  new = λ x i w. elim w [
    | inl p ↦ a.apart.0 (subst (λ y. In {A = String} y (map destination_of m)) p i)
    | inr j ↦ a.new x (inr i) j
  ];
}

Accepted-outputs :
    (items : String) (m : Mapping) (written : List String)
    → Accepted items m written
    → outputs_accepted items m written ≡ true
unfolding outputs_accepted
Accepted-outputs items [] written a = refl
Accepted-outputs items (d ∷ m) written a =
    let rest =
      Accepted-outputs items m (destination_of d ∷ written) (Accepted-tail items d m written a) in
    let fine = LeavesItems→is_refused items d (a.leave d (inl refl)) in
    elim (Bool-cases (mem_text (destination_of d) written)) [
      | inl old ↦
          absurd (a.new (destination_of d) (inl refl) (mem_text→In (destination_of d) written old))
      | inr new ↦ ground arith
    ]

-- validateBatchSplitMappings accepts a BATCH_SPLIT exactly where each entry of both mappings has a
-- source and a destination and neither is the items variable, no destination of the input mapping
-- starts with an underscore, and no two entries of the output mapping have one destination.
pub validate_batch_split_mappings-AreSound :
    (split : Node) → (validate_batch_split_mappings split ≡ true) ↔ AreSound split
unfolding validate_batch_split_mappings
validate_batch_split_mappings-AreSound split = (
  λ h.
      let a = outputs-Accepted (items_variable_of split) split.output_mapping [] (ground arith) in
      record {
        inputs_leave_items =
            λ e i. inputs-Leave (items_variable_of split) split.input_mapping e (ground arith) i;
        outputs_leave_items = a.leave;
        outputs_apart = a.apart;
      },
  λ s.
      let p = Leave-inputs (items_variable_of split) split.input_mapping s.inputs_leave_items in
      let q =
        Accepted-outputs (items_variable_of split) split.output_mapping []
          (record { leave = s.outputs_leave_items; apart = s.outputs_apart; new = λ x i n. n }) in
      ground arith,
)
