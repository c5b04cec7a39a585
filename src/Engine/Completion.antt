-- ===== src/Engine/Completion.antt =====
-- workflow/completion.go: the Update handlers that complete or park a waiting step, on the steps that
-- pendingCompletions holds.
pub mod Once
use nsw_core.Common.{String, Bool, true, false, Option, List, [], ◌∷◌, mem_text}
use nsw_core.Shared.Value.{Fields}
use nsw_core.Engine.Park.{
  Cause, Failure, plain, application, admin_forced, forced_park, node_not_found, Result, ok, err,
  tagged,
}
use nsw_core.Engine.State.{without_text}

-- CompleteActivation and ForceParkActivation.
pub data Request : Type 0 where
  complete : String → Option Fields → Request
  force_park : String → String → Request

abbrev pub step_of : Request → String
step_of (complete id output) = id
step_of (force_park id reason) = id

-- What the step's future is set to.
abbrev pub delivery : Request → Result (Option Fields)
delivery (complete id output) = ok output
delivery (force_park id reason) = err (tagged admin_forced (plain (forced_park reason)))

abbrev pub activation_not_pending_error_type : String
activation_not_pending_error_type = "ActivationNotPending"

abbrev pub activation_not_pending : String → Failure
activation_not_pending id = application activation_not_pending_error_type (node_not_found id)

-- The validator: the step has to be waiting.
unfoldable pub validate_pending_completion : String → List String → Option Failure
validate_pending_completion id pending = elim (mem_text id pending) [
  | true ↦ Option.none
  | false ↦ Option.some (activation_not_pending id)
]

-- One call: what is delivered, or the error, and the steps that wait after it.
unfoldable pub handle_request :
    Request → List String → Result (Result (Option Fields)) × List String
unfolding validate_pending_completion
handle_request r pending = elim (validate_pending_completion (step_of r) pending) [
  | Option.some f ↦ (err f, pending)
  | Option.none ↦ (ok (delivery r), without_text (step_of r) pending)
]

-- A sequence of calls: which of them are accepted.
abbrev pub is_accepted : Result (Result (Option Fields)) → Bool
is_accepted (ok d) = true
is_accepted (err f) = false

unfoldable pub handle_all : List Request → List String → List Bool × List String
unfolding handle_request
handle_all [] pending = ([], pending)
handle_all (r ∷ rs) pending =
    let (result, left) = handle_request r pending in
    let (accepted, final) = handle_all rs left in (is_accepted result ∷ accepted, final)
