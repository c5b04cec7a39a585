-- ===== src/Engine/Exec.antt =====
-- Handlers as actions on the interpreter and the world. A Go error comes back beside the state that it
-- leaves; `out_of_fuel` marks a run that is cut off, with the state that it has reached.
pub mod Keeps
pub mod Escapes
use nsw_core.Common.{
  ℕ, ◌+◌, String, Bool, true, false, Option, none, some, List, [], ◌∷◌, ◌++◌, if◌then◌else◌,
}
use nsw_core.Shared.Value.{Fields}
use nsw_core.Engine.Park.{ParkCategory, Cause, Failure, plain, Result, ok, err, tagged}
use nsw_core.Engine.State.{NodeInfo, Audit, WorkflowInstance, Interp, update_info}
use nsw_core.Engine.Runtime.{Runtime}

pub data Outcome {ℓ} (A : Type ℓ) : Type ℓ where
  done : A → Outcome A
  raised : Failure → Outcome A
  out_of_fuel : Outcome A

module _ (rt : Runtime) where
  open rt use {World}

  pub record State : Type 0 where
    pub g : Interp
    pub world : World

  abbrev pub Exec : Type 0 → Type 0
  Exec A = State → Outcome A × State

abbrev pub on_instance : (WorkflowInstance → WorkflowInstance) → Interp → Interp
on_instance f g = record g { instance = f g.instance }

module _ {rt : Runtime} where
  abbrev pub resume : {A B : Type 0} → Outcome A × State rt → (A → Exec rt B) → Outcome B × State rt
  resume (done a, s) f = f a s
  resume (raised e, s) f = (raised e, s)
  resume (out_of_fuel, s) f = (out_of_fuel, s)

  infixl 5 ◌>>=◌ ◌>>◌
  unfoldable pub ◌>>=◌ : {A B : Type 0} → Exec rt A → (A → Exec rt B) → Exec rt B
  (m >>= f) s = resume (m s) f

  abbrev pub ◌>>◌ : {B : Type 0} → Exec rt (Unit {0}) → Exec rt B → Exec rt B
  m >> k = m >>= λ _. k

  unfoldable pub pure : {A : Type 0} → A → Exec rt A
  pure a s = (done a, s)

  unfoldable pub exhausted : {A : Type 0} → Exec rt A
  exhausted s = (out_of_fuel, s)

  unfoldable pub raise : {A : Type 0} → Failure → Exec rt A
  raise e s = (raised e, s)

  -- return withCategory(p, ...)
  unfoldable pub throw : {A : Type 0} → ParkCategory → Cause → Exec rt A
  throw p c s = (raised (tagged p (plain c)), s)

  unfoldable pub lift : {A : Type 0} → Result A → Exec rt A
  lift (ok a) s = (done a, s)
  lift (err e) s = (raised e, s)

  unfoldable pub gets : {A : Type 0} → (Interp → A) → Exec rt A
  gets f s = (done (f s.g), s)

  -- A blocking operation of the world.
  unfoldable pub perform : {A : Type 0} → (rt.World → A × rt.World) → Exec rt A
  perform op s = let (a, w) = op s.world in (done a, record s { world = w })

  unfoldable pub observe : {A : Type 0} → (rt.World → A) → Exec rt A
  observe f s = (done (f s.world), s)

  unfoldable pub modify : (Interp → Interp) → Exec rt (Unit {0})
  modify f s = (done tt, record s { g = f s.g })

  abbrev pub caught : {A : Type 0} → Outcome A × State rt → Outcome (Result A) × State rt
  caught (done a, s) = (done (ok a), s)
  caught (raised e, s) = (done (err e), s)
  caught (out_of_fuel, s) = (out_of_fuel, s)

  -- A try at the action, whose error is kept as a value.
  unfoldable pub attempt : {A : Type 0} → Exec rt A → Exec rt (Result A)
  attempt m s = caught (m s)

  -- An assignment through nodeInfo.
  unfoldable pub set_info : String → (NodeInfo → NodeInfo) → Exec rt (Unit {0})
  unfolding modify
  set_info id f = modify (on_instance (λ w. record w { node_info = update_info id f w.node_info }))

  -- AuditTrail = append(AuditTrail, a)
  unfoldable pub log : Audit → Exec rt (Unit {0})
  unfolding modify
  log a = modify (on_instance (λ w. record w { audit_trail = w.audit_trail ++ a ∷ [] }))

  unfoldable pub set_variables : Fields → Exec rt (Unit {0})
  unfolding modify
  set_variables vars = modify (on_instance (λ w. record w { variables = vars }))

  unfoldable pub variables : Exec rt Fields
  unfolding gets
  variables = gets (λ g. g.instance.variables)
