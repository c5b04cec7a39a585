-- ===== src/Engine/Exec/Escapes.antt =====
-- Actions that raise no error, and the errors that may leave executeNode.
use nsw_core.Common.{String, ◌≡◌, ◌⊎◌, true}
use nsw_core.Shared.Value.{Fields}
use nsw_core.Engine.Park.{Failure, plain, node_not_found, is_terminal_admin_error}
use nsw_core.Engine.State.{NodeInfo, Audit, Interp}
use nsw_core.Engine.Runtime.{Runtime}
use nsw_core.Engine.Exec.{
  Outcome, done, raised, out_of_fuel, State, Exec, resume, ◌>>=◌, pure, gets, perform, observe,
  modify, attempt, caught, set_info, log, set_variables, variables,
}

module _ {rt : Runtime} where
  abbrev pub IsQuiet : {A : Type 0} → Outcome A × State rt → Type 0
  IsQuiet (done a, s) = Unit
  IsQuiet (raised e, s) = ⊥
  IsQuiet (out_of_fuel, s) = Unit

  -- The action raises no error.
  pub record Quiet {A : Type 0} (m : Exec rt A) : Type 0 where
    pub at : (s : State rt) → IsQuiet (m s)

  -- An error that executeNode does not park.
  abbrev pub Escapes : State rt → Failure → Type 0
  Escapes s e =
      (rt.is_cancelled s.world ≡ true)
      ⊎ ((is_terminal_admin_error e ≡ true) ⊎ ((id : String) × (e ≡ plain (node_not_found id))))

  abbrev pub IsContained : {A : Type 0} → Outcome A × State rt → Type 0
  IsContained (done a, s) = Unit
  IsContained (raised e, s) = Escapes s e
  IsContained (out_of_fuel, s) = Unit

  -- The action raises only such errors.
  pub record Contained {A : Type 0} (m : Exec rt A) : Type 0 where
    pub at : (s : State rt) → IsContained (m s)

  resume-Quiet :
      {A B : Type 0} (o : Outcome A × State rt) (f : A → Exec rt B)
      → IsQuiet o
      → ((a : A) → Quiet (f a))
      → IsQuiet (resume o f)
  resume-Quiet (done a, s) f h k = (k a).at s
  resume-Quiet (raised e, s) f h k = h
  resume-Quiet (out_of_fuel, s) f h k = tt

  pub bind-Quiet :
      {A B : Type 0} (m : Exec rt A) (f : A → Exec rt B)
      → Quiet m
      → ((a : A) → Quiet (f a))
      → Quiet (m >>= f)
  unfolding ◌>>=◌
  bind-Quiet m f h k = record { at = λ s. resume-Quiet (m s) f (h.at s) k }

  resume-Contained :
      {A B : Type 0} (o : Outcome A × State rt) (f : A → Exec rt B)
      → IsQuiet o
      → ((a : A) → Contained (f a))
      → IsContained (resume o f)
  resume-Contained (done a, s) f h k = (k a).at s
  resume-Contained (raised e, s) f h k = absurd h
  resume-Contained (out_of_fuel, s) f h k = tt

  pub bind-Contained :
      {A B : Type 0} (m : Exec rt A) (f : A → Exec rt B)
      → Quiet m
      → ((a : A) → Contained (f a))
      → Contained (m >>= f)
  unfolding ◌>>=◌
  bind-Contained m f h k = record { at = λ s. resume-Contained (m s) f (h.at s) k }

  pub pure-Quiet : {A : Type 0} (a : A) → Quiet (pure a)
  unfolding pure
  pure-Quiet a = record { at = λ s. tt }

  pub gets-Quiet : {A : Type 0} (f : Interp → A) → Quiet (gets f)
  unfolding gets
  gets-Quiet f = record { at = λ s. tt }

  pub observe-Quiet : {A : Type 0} (f : rt.World → A) → Quiet (observe f)
  unfolding observe
  observe-Quiet f = record { at = λ s. tt }

  pub perform-Quiet : {A : Type 0} (f : rt.World → A × rt.World) → Quiet (perform f)
  unfolding perform
  perform-Quiet f = record { at = λ s. tt }

  pub modify-Quiet : (f : Interp → Interp) → Quiet (modify f)
  unfolding modify
  modify-Quiet f = record { at = λ s. tt }

  pub set_info-Quiet : (id : String) (f : NodeInfo → NodeInfo) → Quiet (set_info id f)
  unfolding set_info
  set_info-Quiet id f = record { at = λ s. tt }

  pub log-Quiet : (a : Audit) → Quiet (log a)
  unfolding log
  log-Quiet a = record { at = λ s. tt }

  pub variables-Quiet : Quiet variables
  unfolding variables
  variables-Quiet = record { at = λ s. tt }

  pub set_variables-Quiet : (vars : Fields) → Quiet (set_variables vars)
  unfolding set_variables
  set_variables-Quiet vars = record { at = λ s. tt }

  caught-Quiet : {A : Type 0} (o : Outcome A × State rt) → IsQuiet (caught o)
  caught-Quiet (done a, s) = tt
  caught-Quiet (raised e, s) = tt
  caught-Quiet (out_of_fuel, s) = tt

  pub attempt-Quiet : {A : Type 0} (m : Exec rt A) → Quiet (attempt m)
  unfolding attempt
  attempt-Quiet m = record { at = λ s. caught-Quiet (m s) }
