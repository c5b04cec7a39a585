-- ===== src/Taskflow/Host/Adds.antt =====
-- What an action adds to the calls, and a rule for each way to make an action.
use nsw_core.Common.{
  ℕ, String, ◌≡◌, refl, sym, ap, ◌∙◌, Bool, true, false, Option, none, some, List, [], ◌∷◌, ◌++◌,
}
use mathlib.Core.List.{append_assoc, append-nil}
use nsw_core.Taskflow.Failure.{Failure}
use nsw_core.Taskflow.Store.Writes.{Op}
use nsw_core.Taskflow.Host.{
  Result, ok, err, Host, Call, State, M, resume, ◌>>=◌, pure, raise, lift, checked, require, found,
  ask, call, write, wrote, map_error, deferred,
}

abbrev pub Claim : Type 0 → Type 1
Claim A = Result A → List Call → Type 0

-- The answer of a call, and its mark alone.
abbrev pub Marked : {A : Type 0} → (A → Call) → Claim A
Marked mark (ok a) xs = xs ≡ mark a ∷ []
Marked mark (err e) xs = ⊥

module _ {h : Host} where
  -- The calls are only added to, and the claim holds of the result and of what is added.
  pub record Adds {A : Type 0} (Q : Claim A) (s : State h) (r : Result A × State h) : Type 0 where
    pub added : List Call
    pub kept : r.1.calls ≡ s.calls ++ added
    pub holds : Q r.0 added

  pub record Ensures {A : Type 0} (m : M h A) (Q : Claim A) : Type 0 where
    pub runs : (s : State h) → Adds Q s (m s)

  pub Adds-done :
      {A : Type 0} (Q : Claim A) (s : State h) (r : Result A × State h)
      → r.1.calls ≡ s.calls
      → Q r.0 []
      → Adds Q s r
  Adds-done Q s r p q = record { added = []; kept = p ∙ sym (append-nil s.calls); holds = q }

  pub Ensures-pure : {A : Type 0} (Q : Claim A) (a : A) → Q (ok a) [] → Ensures (pure a) Q
  unfolding pure
  Ensures-pure Q a q = record { runs = λ s. Adds-done Q s (ok a, s) refl q }

  pub Ensures-raise :
      {A : Type 0} (Q : Claim A) (e : Failure) → Q (err e) [] → Ensures {A = A} (raise e) Q
  unfolding raise
  Ensures-raise Q e q = record { runs = λ s. Adds-done Q s (err e, s) refl q }

  pub Ensures-lift :
      {A : Type 0} (Q : Claim A) (f : Failure → Failure) (r : Result A)
      → ((a : A) → r ≡ ok a → Q (ok a) [])
      → ((e : Failure) → Q (err e) [])
      → Ensures (lift f r) Q
  unfolding lift
  Ensures-lift Q f (ok a) k l = record { runs = λ s. Adds-done Q s (ok a, s) refl (k a refl) }
  Ensures-lift Q f (err e) k l = record { runs = λ s. Adds-done Q s (err (f e), s) refl (l (f e)) }

  pub Ensures-checked :
      (Q : Claim (Unit {0})) (f : Failure → Failure) (o : Option Failure)
      → (o ≡ none → Q (ok tt) [])
      → ((e : Failure) → Q (err e) [])
      → Ensures (checked f o) Q
  unfolding checked
  Ensures-checked Q f none k l = record { runs = λ s. Adds-done Q s (ok tt, s) refl (k refl) }
  Ensures-checked Q f (some e) k l = record {
    runs = λ s. Adds-done Q s (err (f e), s) refl (l (f e));
  }

  pub Ensures-require :
      (Q : Claim (Unit {0})) (b : Bool) (e : Failure)
      → (b ≡ true → Q (ok tt) [])
      → (b ≡ false → Q (err e) [])
      → Ensures (require b e) Q
  unfolding require
  Ensures-require Q true e k l = record { runs = λ s. Adds-done Q s (ok tt, s) refl (k refl) }
  Ensures-require Q false e k l = record { runs = λ s. Adds-done Q s (err e, s) refl (l refl) }

  pub Ensures-found :
      {A : Type 0} (Q : Claim A) (o : Option A) (e : Failure)
      → ((a : A) → o ≡ some a → Q (ok a) [])
      → Q (err e) []
      → Ensures (found o e) Q
  unfolding found
  Ensures-found Q none e k l = record { runs = λ s. Adds-done Q s (err e, s) refl l }
  Ensures-found Q (some a) e k l = record { runs = λ s. Adds-done Q s (ok a, s) refl (k a refl) }

  pub Ensures-ask :
      {A : Type 0} (Q : Claim A) (op : h.World → A × h.World)
      → ((a : A) → Q (ok a) [])
      → Ensures (ask op) Q
  unfolding ask
  Ensures-ask Q op k = record {
    runs = λ s.
        Adds-done Q s (ok (op s.world).0, record s { world = (op s.world).1 }) refl
          (k (op s.world).0);
  }

  pub Ensures-call :
      {A : Type 0} (Q : Claim A) (mark : A → Call) (op : h.World → A × h.World)
      → ((a : A) → Q (ok a) (mark a ∷ []))
      → Ensures (call mark op) Q
  unfolding call
  Ensures-call Q mark op k = record {
    runs = λ s. record { added = mark (op s.world).0 ∷ []; kept = refl; holds = k (op s.world).0 };
  }

  pub Ensures-marked :
      {A : Type 0} (mark : A → Call) (op : h.World → A × h.World)
      → Ensures (call mark op) (Marked mark)
  Ensures-marked mark op = Ensures-call (Marked mark) mark op (λ a. refl)

  pub Ensures-write :
      (id : String) (op : Op) → Ensures {A = Result ℕ} (write id op) (Marked (wrote id op))
  unfolding write
  Ensures-write id op = Ensures-marked (wrote id op) (h.write id op)

  pub Ensures-passed :
      (Q : Claim (Unit {0})) (f : Failure → Failure) → Q (ok tt) [] → Ensures (checked f none) Q
  unfolding checked
  Ensures-passed Q f q = record { runs = λ s. Adds-done Q s (ok tt, s) refl q }

  pub Ensures-refused :
      (Q : Claim (Unit {0})) (f : Failure → Failure) (e : Failure)
      → Q (err (f e)) []
      → Ensures (checked f (some e)) Q
  unfolding checked
  Ensures-refused Q f e q = record { runs = λ s. Adds-done Q s (err (f e), s) refl q }

  Adds-after :
      {A B : Type 0} (Q : Claim A) (T : Claim B) (f : A → M h B) (s : State h)
      (r : Result A × State h)
      → Adds Q s r
      → ((a : A) (xs : List Call) → Q (ok a) xs → Ensures (f a) (λ b ys. T b (xs ++ ys)))
      → ((e : Failure) (xs : List Call) → Q (err e) xs → T (err e) xs)
      → Adds T s (resume r f)
  Adds-after Q T f s (err e, t) d k l = record {
    added = d.added;
    kept = d.kept;
    holds = l e d.added d.holds;
  }
  Adds-after Q T f s (ok a, t) d k l =
      let next = (k a d.added d.holds).runs t in
      record {
        added = d.added ++ next.added;
        kept =
            next.kept
            ∙ ap (λ xs. xs ++ next.added) d.kept
            ∙ append_assoc s.calls d.added next.added;
        holds = next.holds;
      }

  pub Ensures-bind :
      {A B : Type 0} (Q : Claim A) (T : Claim B) (m : M h A) (f : A → M h B)
      → Ensures m Q
      → ((a : A) (xs : List Call) → Q (ok a) xs → Ensures (f a) (λ b ys. T b (xs ++ ys)))
      → ((e : Failure) (xs : List Call) → Q (err e) xs → T (err e) xs)
      → Ensures (m >>= f) T
  unfolding ◌>>=◌
  Ensures-bind Q T m f d k l = record { runs = λ s. Adds-after Q T f s (m s) (d.runs s) k l }

  Adds-mapped :
      {A : Type 0} (Q T : Claim A) (f : Failure → Failure) (s : State h) (r : Result A × State h)
      → Adds Q s r
      → ((a : A) (xs : List Call) → Q (ok a) xs → T (ok a) xs)
      → ((e : Failure) (xs : List Call) → Q (err e) xs → T (err (f e)) xs)
      → Adds T s (map_error f r)
  Adds-mapped Q T f s (ok a, t) d k l = record {
    added = d.added;
    kept = d.kept;
    holds = k a d.added d.holds;
  }
  Adds-mapped Q T f s (err e, t) d k l = record {
    added = d.added;
    kept = d.kept;
    holds = l e d.added d.holds;
  }

  pub Ensures-deferred :
      {A : Type 0} (Q T : Claim A) (f : Failure → Failure) (m : M h A)
      → Ensures m Q
      → ((a : A) (xs : List Call) → Q (ok a) xs → T (ok a) xs)
      → ((e : Failure) (xs : List Call) → Q (err e) xs → T (err (f e)) xs)
      → Ensures (deferred f m) T
  unfolding deferred
  Ensures-deferred Q T f m d k l = record { runs = λ s. Adds-mapped Q T f s (m s) (d.runs s) k l }
