-- ===== src/Taskflow/Failure/Surfaced.antt =====
-- Retries as Temporal sees them.
use nsw_core.Common.{String, ◌≡◌, refl, Bool, true, false, not, Option, none, some, arith}
use nsw_core.Taskflow.Failure.{
  Failure, plain, wrap, permanent, application, remote, permanent_type, is_permanent, retyped,
  surface_permanent, is_retried,
}

-- The error is itself an ApplicationError.
abbrev pub is_application : Failure → Bool
is_application (application n t e) = true
is_application _ = false

abbrev is_some : Option String → Bool
is_some none = false
is_some (some t) = true

retyped-retried :
    (t : Option String) (e : Failure)
    → is_application e ≡ false
    → is_retried (retyped t e) ≡ not (is_some t)
unfolding is_retried
retyped-retried (some t) e h = refl
retyped-retried none (application n t e) h = absurd (ground arith)
retyped-retried none (plain s) h = refl
retyped-retried none (wrap e) h = refl
retyped-retried none (permanent t e) h = refl
retyped-retried none (remote n) h = refl

-- For every error that is itself no ApplicationError, Temporal retries what surfacePermanent makes
-- of it exactly where the error is not permanent, however deep in its chain the mark stands.
pub surface_permanent-retried :
    (e : Failure)
    → is_application e ≡ false
    → is_retried (surface_permanent e) ≡ not (is_permanent e)
unfolding surface_permanent is_permanent
surface_permanent-retried (application n t e) h = absurd (ground arith)
surface_permanent-retried (plain s) h = retyped-retried (permanent_type (plain s)) (plain s) h
surface_permanent-retried (wrap e) h = retyped-retried (permanent_type (wrap e)) (wrap e) h
surface_permanent-retried (permanent t e) h =
    retyped-retried (permanent_type (permanent t e)) (permanent t e) h
surface_permanent-retried (remote n) h = retyped-retried (permanent_type (remote n)) (remote n) h
