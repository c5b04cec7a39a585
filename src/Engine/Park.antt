-- ===== src/Engine/Park.antt =====
-- workflow/park_category.go, and the errors of the engine as chains that `errors.As` walks.
pub mod Category
use nsw_core.Common.{
  ℕ, String, ◌≡◌, refl, ◌⊎◌, inl, inr, Bool, true, false, Option, none, some, List, str_eq,
  if◌then◌else◌,
}

pub data ParkCategory : Type 0 where
  input_mapping output_mapping task_failure gateway_condition split_data child_failure :
      ParkCategory
  definition_error admin_forced unknown : ParkCategory

-- What an error says, in place of its text.
pub data Cause : Type 0 where
  missing_inputs missing_outputs : List String → Cause
  invalid_items missing_id : String → Cause
  duplicate_id : String → Cause
  condition_failed no_match : String → Cause
  unmatched_items : List String → Cause
  too_many_partitions : ℕ → Cause
  depth_exceeded : String → Cause
  invalid_definition : String → Cause
  child_failed missing_child_output : String → Cause
  activity_failed : String → Cause
  cancelled : Cause
  node_not_found : String → Cause
  resolution_failed : Cause
  forced_park : String → Cause

-- An error and what it wraps. `application` is a Temporal ApplicationError, which carries the type
-- name of the error that crossed a workflow boundary.
pub data Failure : Type 0 where
  plain : Cause → Failure
  application : String → Cause → Failure
  wrap : Cause → Failure → Failure
  categorized : ParkCategory → Failure → Failure
  terminal : Failure → Failure

-- errors.As(err, &categorizedError): the outermost tag of the chain.
unfoldable pub find_category : Failure → Option ParkCategory
find_category (plain c) = none
find_category (application t c) = none
find_category (wrap c e) = find_category e
find_category (categorized p e) = some p
find_category (terminal e) = find_category e

unfoldable pub with_category : ParkCategory → Option Failure → Option Failure
unfolding find_category
with_category p none = none
with_category p (some e) = elim (find_category e) [
  | some q ↦ some e
  | none ↦ some (categorized p e)
]

unfoldable pub category_of : Failure → ParkCategory
unfolding find_category
category_of e = elim (find_category e) [ some q ↦ q | none ↦ unknown ]

abbrev pub terminal_admin_error_type : String
terminal_admin_error_type = "terminalAdminError"

-- isTerminalAdminError: the Go type in the chain, or its name on the outermost ApplicationError.
unfoldable pub has_terminal : Failure → Bool
has_terminal (plain c) = false
has_terminal (application t c) = false
has_terminal (wrap c e) = has_terminal e
has_terminal (categorized p e) = has_terminal e
has_terminal (terminal e) = true

unfoldable pub application_type : Failure → Option String
application_type (plain c) = none
application_type (application t c) = some t
application_type (wrap c e) = application_type e
application_type (categorized p e) = application_type e
application_type (terminal e) = application_type e

unfoldable pub is_terminal_admin_error : Failure → Bool
unfolding has_terminal application_type
is_terminal_admin_error e =
    if has_terminal e
    then true
    else elim (application_type e) [ some t ↦ str_eq t terminal_admin_error_type | none ↦ false ]

-- A Go `(value, error)` result, and one that only reports an error.
pub data Result {ℓ} (A : Type ℓ) : Type ℓ where
  ok : A → Result A
  err : Failure → Result A

infixl 5 ◌>>=◌
abbrev pub ◌>>=◌ {ℓ κ} : {A : Type ℓ} {B : Type κ} → Result A → (A → Result B) → Result B
ok a >>= f = f a
err e >>= f = err e

pub Result-cases {ℓ} :
    {A : Type ℓ} (r : Result A) → ((f : Failure) × (r ≡ err f)) ⊎ ((a : A) × (r ≡ ok a))
Result-cases (err f) = inl (f, refl)
Result-cases (ok a) = inr (a, refl)

-- withCategory(p, err) at an error that is there.
unfoldable pub tagged : ParkCategory → Failure → Failure
unfolding find_category
tagged p e = elim (find_category e) [ some q ↦ e | none ↦ categorized p e ]

abbrev pub fail {ℓ} : {A : Type ℓ} → ParkCategory → Cause → Result A
fail p c = err (tagged p (plain c))
