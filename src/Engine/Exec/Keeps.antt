-- ===== src/Engine/Exec/Keeps.antt =====
-- What an action leaves of the interpreter: relations that every part of an action keeps.
use nsw_core.Engine.Park.{ParkCategory, Cause, Failure, Result, ok, err}
use nsw_core.Engine.State.{Interp}
use nsw_core.Engine.Runtime.{Runtime}
use nsw_core.Engine.Exec.{
  Outcome, done, raised, out_of_fuel, State, Exec, resume, ◌>>=◌, ◌>>◌, pure, raise, throw, lift,
  gets, perform, observe, attempt, caught,
}

-- A reflexive and transitive relation between the interpreter before and after.
pub record Preorder (R : Interp → Interp → Type 0) : Type 0 where
  pub same : (g : Interp) → R g g
  pub next : (g h i : Interp) → R g h → R h i → R g i

module _ {rt : Runtime} (R : Interp → Interp → Type 0) where
  -- The action ends in a related state, however it ends.
  pub record Keeps {A : Type 0} (m : Exec rt A) : Type 0 where
    pub at : (s : State rt) → R s.g (m s).1.g

module _ {rt : Runtime} {R : Interp → Interp → Type 0} (P : Preorder R) where
  resume-Keeps :
      {A B : Type 0} (g : Interp) (o : Outcome A × State rt) (f : A → Exec rt B)
      → R g o.1.g
      → ((a : A) → Keeps R (f a))
      → R g (resume o f).1.g
  resume-Keeps g (done a, s) f h k = P.next g s.g (f a s).1.g h ((k a).at s)
  resume-Keeps g (raised e, s) f h k = h
  resume-Keeps g (out_of_fuel, s) f h k = h

  pub bind-Keeps :
      {A B : Type 0} (m : Exec rt A) (f : A → Exec rt B)
      → Keeps R m
      → ((a : A) → Keeps R (f a))
      → Keeps R (m >>= f)
  unfolding ◌>>=◌
  bind-Keeps m f h k = record { at = λ s. resume-Keeps s.g (m s) f (h.at s) k }

  pub then-Keeps :
      {B : Type 0} (m : Exec rt (Unit {0})) (k : Exec rt B)
      → Keeps R m
      → Keeps R k
      → Keeps R (m >> k)
  then-Keeps m k h l = bind-Keeps m (λ _. k) h (λ _. l)

  pub pure-Keeps : {A : Type 0} (a : A) → Keeps R (pure {rt = rt} a)
  unfolding pure
  pure-Keeps a = record { at = λ s. P.same s.g }

  pub raise-Keeps : (A : Type 0) (e : Failure) → Keeps R {A = A} (raise {rt = rt} e)
  unfolding raise
  raise-Keeps A e = record { at = λ s. P.same s.g }

  pub throw-Keeps :
      (A : Type 0) (p : ParkCategory) (c : Cause) → Keeps R {A = A} (throw {rt = rt} p c)
  unfolding throw
  throw-Keeps A p c = record { at = λ s. P.same s.g }

  pub lift-Keeps : {A : Type 0} (r : Result A) → Keeps R (lift {rt = rt} r)
  unfolding lift
  lift-Keeps (ok a) = record { at = λ s. P.same s.g }
  lift-Keeps (err e) = record { at = λ s. P.same s.g }

  pub gets-Keeps : {A : Type 0} (f : Interp → A) → Keeps R (gets {rt = rt} f)
  unfolding gets
  gets-Keeps f = record { at = λ s. P.same s.g }

  pub perform-Keeps : {A : Type 0} (f : rt.World → A × rt.World) → Keeps R (perform {rt = rt} f)
  unfolding perform
  perform-Keeps f = record { at = λ s. P.same s.g }

  pub observe-Keeps : {A : Type 0} (f : rt.World → A) → Keeps R (observe {rt = rt} f)
  unfolding observe
  observe-Keeps f = record { at = λ s. P.same s.g }

  attempt_kept :
      {A : Type 0} (g : Interp) (o : Outcome A × State rt) → R g o.1.g → R g (caught o).1.g
  attempt_kept g (done a, s) h = h
  attempt_kept g (raised e, s) h = h
  attempt_kept g (out_of_fuel, s) h = h

  pub attempt-Keeps : {A : Type 0} (m : Exec rt A) → Keeps R m → Keeps R (attempt m)
  unfolding attempt
  attempt-Keeps m h = record { at = λ s. attempt_kept s.g (m s) (h.at s) }
