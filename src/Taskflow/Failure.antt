-- ===== src/Taskflow/Failure.antt =====
-- Errors of taskflow as chains of what they wrap, and taskflow/plugins/errors.go: which of them
-- retrying can fix.
pub mod Surfaced
use nsw_core.Common.{
  ℕ, String, Bool, true, false, not, ◌&&◌, ◌||◌, Option, none, some, ◌==◌, leb, if◌then◌else◌,
}

pub data Sentinel : Type 0 where
  stale_step task_not_open step_id_required task_not_found step_not_guarded : Sentinel
  draft_not_enabled holder_required claim_held not_claim_holder task_completed : Sentinel
  claim_unsettled activation_not_pending workflow_not_found result_pending suspended : Sentinel
  invalid_token artifact_not_found artifact_invalid unknown_manifest_version : Sentinel
  extension_not_registered outside : Sentinel

abbrev code_of : Sentinel → ℕ
code_of Sentinel.stale_step = 0
code_of Sentinel.task_not_open = 1
code_of Sentinel.step_id_required = 2
code_of Sentinel.task_not_found = 3
code_of Sentinel.step_not_guarded = 4
code_of Sentinel.draft_not_enabled = 5
code_of Sentinel.holder_required = 6
code_of Sentinel.claim_held = 7
code_of Sentinel.not_claim_holder = 8
code_of Sentinel.task_completed = 9
code_of Sentinel.claim_unsettled = 10
code_of Sentinel.activation_not_pending = 11
code_of Sentinel.workflow_not_found = 12
code_of Sentinel.result_pending = 13
code_of Sentinel.suspended = 14
code_of Sentinel.invalid_token = 15
code_of Sentinel.artifact_not_found = 16
code_of Sentinel.artifact_invalid = 17
code_of Sentinel.unknown_manifest_version = 18
code_of Sentinel.extension_not_registered = 19
code_of Sentinel.outside = 20

-- An error, its text left out. `permanent` is a PermanentError with its type; `application` a Temporal
-- ApplicationError: whether it is non-retryable, its type, its cause. `remote` is a RemoteError with
-- its status.
pub data Failure : Type 0 where
  plain : Sentinel → Failure
  wrap : Failure → Failure
  permanent : String → Failure → Failure
  application : Bool → String → Failure → Failure
  remote : ℕ → Failure

-- errors.Is(err, target)
unfoldable pub is_caused_by : Sentinel → Failure → Bool
is_caused_by s (plain t) = code_of t == code_of s
is_caused_by s (wrap e) = is_caused_by s e
is_caused_by s (permanent t e) = is_caused_by s e
is_caused_by s (application n t e) = is_caused_by s e
is_caused_by s (remote n) = false

-- errors.As to a *PermanentError: its type
unfoldable pub as_permanent : Failure → Option String
as_permanent (permanent t e) = some t
as_permanent (wrap e) = as_permanent e
as_permanent (application n t e) = as_permanent e
as_permanent (plain s) = none
as_permanent (remote n) = none

-- errors.As to a *temporal.ApplicationError: whether it is non-retryable, and its type
unfoldable pub as_application : Failure → Option (Bool × String)
as_application (application n t e) = some (n, t)
as_application (wrap e) = as_application e
as_application (permanent t e) = as_application e
as_application (plain s) = none
as_application (remote n) = none

-- PermanentType
unfoldable pub permanent_type : Failure → Option String
unfolding as_permanent as_application
permanent_type e = elim (as_permanent e) [
  | some t ↦ some t
  | none ↦ elim (as_application e) [ none ↦ none | some (n, t) ↦ if n then some t else none ]
]

abbrev is_there : Option String → Bool
is_there none = false
is_there (some t) = true

-- IsPermanent
unfoldable pub is_permanent : Failure → Bool
unfolding permanent_type
is_permanent e = is_there (permanent_type e)

abbrev pub error_type_config : String
error_type_config = "InvalidConfig"

abbrev pub error_type_input : String
error_type_input = "InvalidInput"

abbrev pub error_type_rejected : String
error_type_rejected = "RemoteRejected"

-- RetryableStatus: 408, 429 and every 5xx
unfoldable pub retryable_status : ℕ → Bool
retryable_status code = (code == 408) || ((code == 429) || leb 500 code)

-- errors.As to a *remote.RemoteError: its status
unfoldable pub as_remote : Failure → Option ℕ
as_remote (remote n) = some n
as_remote (wrap e) = as_remote e
as_remote (permanent t e) = as_remote e
as_remote (application n t e) = as_remote e
as_remote (plain s) = none

-- ClassifyRemote
unfoldable pub classify_remote : Failure → Failure
unfolding as_remote retryable_status
classify_remote e = elim (as_remote e) [
  | none ↦ e
  | some n ↦ if retryable_status n then e else permanent error_type_rejected e
]

-- artifactError
unfoldable pub artifact_error : Failure → Failure
unfolding is_caused_by
artifact_error e =
    if is_caused_by Sentinel.artifact_not_found e || is_caused_by Sentinel.artifact_invalid e
    then permanent error_type_config e
    else e

-- A new error, which keeps nothing of the chain.
abbrev pub surfaced_as : String → Failure
surfaced_as t = application true t (plain Sentinel.outside)

abbrev pub retyped : Option String → Failure → Failure
retyped none e = e
retyped (some t) e = surfaced_as t

-- surfacePermanent
unfoldable pub surface_permanent : Failure → Failure
unfolding permanent_type
surface_permanent (application n t e) = application n t e
surface_permanent (plain s) = retyped (permanent_type (plain s)) (plain s)
surface_permanent (wrap e) = retyped (permanent_type (wrap e)) (wrap e)
surface_permanent (permanent t e) = retyped (permanent_type (permanent t e)) (permanent t e)
surface_permanent (remote n) = retyped (permanent_type (remote n)) (remote n)

-- What Temporal reads: the outermost error alone.
unfoldable pub is_retried : Failure → Bool
is_retried (application n t e) = not n
is_retried _ = true
