-- ===== src/Taskflow/Host/Ensures.antt =====
-- Rules for actions in sequence, and for actions that make no call or calls of one kind
-- alone.
use nsw_core.Common.{
  ◌≡◌, refl, sym, subst, Bool, true, false, Option, none, some, List, [], ◌∷◌, ◌++◌, All,
  if◌then◌else◌,
}
use nsw_core.Taskflow.Failure.{Failure}
use nsw_core.Taskflow.Host.{
  Result, ok, err, Host, Call, State, M, ◌>>=◌, lift, checked, require, found, ask,
}
use nsw_core.Taskflow.Host.Adds.{
  Claim, Marked, Ensures, Adds-done, Ensures-lift, Ensures-checked, Ensures-require, Ensures-found,
  Ensures-ask, Ensures-bind,
}

module _ {h : Host} where
  pub Ensures-weaken :
      {A : Type 0} (Q T : Claim A) (m : M h A)
      → Ensures m Q
      → ((r : Result A) (xs : List Call) → Q r xs → T r xs)
      → Ensures m T
  Ensures-weaken Q T m d k = record {
    runs = λ s. record {
      added = (d.runs s).added;
      kept = (d.runs s).kept;
      holds = k (m s).0 (d.runs s).added (d.runs s).holds;
    };
  }

  pub Ensures-if :
      {A : Type 0} (Q : Claim A) (b : Bool) (m n : M h A)
      → (b ≡ true → Ensures m Q)
      → (b ≡ false → Ensures n Q)
      → Ensures (if b then m else n) Q
  Ensures-if Q true m n k l = k refl
  Ensures-if Q false m n k l = l refl

  -- What follows a call, which itself is no error.
  pub Ensures-after :
      {A B : Type 0} (mark : A → Call) (T : Claim B) (m : M h A) (f : A → M h B)
      → Ensures m (Marked mark)
      → ((a : A) → Ensures (f a) (λ b ys. T b (mark a ∷ ys)))
      → Ensures (m >>= f) T
  Ensures-after mark T m f d k =
      Ensures-bind (Marked mark) T m f d
        (λ a xs q. subst (λ zs. Ensures (f a) (λ b ys. T b (zs ++ ys))) (sym q) (k a))
        (λ e xs q. elim q [ ])

  pub Ensures-asked :
      {A B : Type 0} (T : Claim B) (op : h.World → A × h.World) (f : A → M h B)
      → ((w : h.World) → Ensures (f (op w).0) T)
      → Ensures (ask op >>= f) T
  unfolding ask ◌>>=◌
  Ensures-asked T op f k = record {
    runs = λ s.
        let d = (k s.world).runs (record s { world = (op s.world).1 }) in
        record { added = d.added; kept = d.kept; holds = d.holds };
  }

  -- An action that is known to go on with a value, or to stop.
  pub Ensures-goes_on :
      {A B : Type 0} (a : A) (T : Claim B) (m : M h A) (f : A → M h B)
      → ((s : State h) → m s ≡ (ok a, s))
      → Ensures (f a) T
      → Ensures (m >>= f) T
  unfolding ◌>>=◌
  Ensures-goes_on a T m f e k = record { runs = λ s. rw (e s) (k.runs s) }

  pub Ensures-stops :
      {A B : Type 0} (x : Failure) (T : Claim B) (m : M h A) (f : A → M h B)
      → ((s : State h) → m s ≡ (err x, s))
      → T (err x) []
      → Ensures (m >>= f) T
  unfolding ◌>>=◌
  Ensures-stops x T m f e q = record { runs = λ s. rw (e s) (Adds-done T s (err x, s) refl q) }

-- Every call is of a kind.
abbrev pub Only : {A : Type 0} → (Call → Type 0) → Claim A
Only P r xs = All P xs

-- No call, and a fact of the answer.
abbrev pub Quiet : {A : Type 0} → (A → Type 0) → Claim A
Quiet P (ok a) xs = (xs ≡ []) × P a
Quiet P (err e) xs = xs ≡ []

module _ {h : Host} where
  -- An action that makes no call, and what follows it.
  pub Ensures-then :
      {A B : Type 0} (P : A → Type 0) (T : Claim B) (m : M h A) (f : A → M h B)
      → Ensures m (Quiet P)
      → ((a : A) → P a → Ensures (f a) T)
      → ((e : Failure) → T (err e) [])
      → Ensures (m >>= f) T
  Ensures-then P T m f d k l =
      Ensures-bind (Quiet P) T m f d
        (λ a xs q. subst (λ ys. Ensures (f a) (λ b zs. T b (ys ++ zs))) (sym q.0) (k a q.1))
        (λ e xs q. subst (T (err e)) (sym q) (l e))

  pub Quiet-require :
      (b : Bool) (e : Failure) → Ensures {h = h} (require b e) (Quiet (λ _. b ≡ true))
  Quiet-require b e = Ensures-require (Quiet (λ _. b ≡ true)) b e (λ p. (refl, p)) (λ p. refl)

  pub Quiet-ask :
      {A : Type 0} (op : h.World → A × h.World) → Ensures {h = h} (ask op) (Quiet (λ _. Unit))
  Quiet-ask op = Ensures-ask (Quiet (λ _. Unit)) op (λ a. (refl, tt))

  pub Quiet-lift :
      {A : Type 0} (f : Failure → Failure) (r : Result A)
      → Ensures {h = h} (lift f r) (Quiet (λ a. r ≡ ok a))
  Quiet-lift f r = Ensures-lift (Quiet (λ a. r ≡ ok a)) f r (λ a p. (refl, p)) (λ e. refl)

  pub Quiet-checked :
      (f : Failure → Failure) (o : Option Failure)
      → Ensures {h = h} (checked f o) (Quiet (λ _. o ≡ none))
  Quiet-checked f o = Ensures-checked (Quiet (λ _. o ≡ none)) f o (λ p. (refl, p)) (λ e. refl)

  pub Quiet-found :
      {A : Type 0} (o : Option A) (e : Failure)
      → Ensures {h = h} (found o e) (Quiet (λ a. o ≡ some a))
  Quiet-found o e = Ensures-found (Quiet (λ a. o ≡ some a)) o e (λ a p. (refl, p)) refl
