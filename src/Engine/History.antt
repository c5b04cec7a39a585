-- ===== src/Engine/History.antt =====
-- The relation between an execution before and after an action: the definition, the ID, the step
-- counter, the audit trail and the step numbers of the nodes.
pub mod Fresh
-- trail is only added to, and no node has a step number above the counter.
pub mod Handlers
pub mod Routes
pub mod Splits
pub mod SplitTasks
pub mod Runs
use mathlib.Core.List.{append_assoc, append-nil}
use nsw_core.Common.{
  ℕ, ◌+◌, ◌≤◌, String, ◌≡◌, refl, sym, ap, subst, ◌⊎◌, ◌∙◌, Bool, true, false, Option, none, some,
  inl, inr, List, [], ◌∷◌, ◌++◌, arith, str_eq, if◌then◌else◌, Bool-cases,
}
use nsw_core.Shared.Value.{Fields}
use nsw_core.Engine.Dsl.{WorkflowDefinition}
use nsw_core.Engine.Park.{ParkCategory, Cause, Failure, Result, ok, err}
use nsw_core.Engine.State.{Audit, NodeInfo, WorkflowInstance, Interp, find_info, update_info}
use nsw_core.Engine.Runtime.{Runtime}
use nsw_core.Engine.Exec.{
  Exec, ◌>>=◌, exhausted, pure, raise, throw, lift, gets, perform, observe, modify, attempt,
  on_instance, set_info, log, set_variables, variables,
}
use nsw_core.Engine.Exec.Keeps.{
  Preorder, Keeps, bind-Keeps, pure-Keeps, raise-Keeps, throw-Keeps, lift-Keeps, gets-Keeps,
  perform-Keeps, observe-Keeps, attempt-Keeps,
}

-- No node's step number is above the counter.
abbrev pub Minted : Interp → Type 0
Minted g = (id : String) (i : NodeInfo) → find_info id g.instance.node_info ≡ some i → i.seq ≤ g.seq

pub record Extends (g h : Interp) : Type 0 where
  pub same_def : h.def ≡ g.def
  pub same_id : h.instance.id ≡ g.instance.id
  pub grows : g.seq ≤ h.seq
  pub trail : (rest : List Audit) × (h.instance.audit_trail ≡ g.instance.audit_trail ++ rest)
  pub minted : Minted g → Minted h

pub Extends-Preorder : Preorder Extends
Extends-Preorder = record {
  same = λ g. record {
    same_def = refl;
    same_id = refl;
    grows = omega arith;
    trail = ([], sym (append-nil _));
    minted = λ m. m;
  };
  next = λ g h i p q. record {
    same_def = q.same_def ∙ p.same_def;
    same_id = q.same_id ∙ p.same_id;
    grows = omega (arith, p.grows, q.grows);
    trail =
        let (a, e) = p.trail in
        let (b, f) = q.trail in (a ++ b, f ∙ cc (e, append_assoc g.instance.audit_trail a b));
    minted = λ m. q.minted (p.minted m);
  };
}

-- A bound of the step numbers stays a bound where a write keeps it.
update_info-bound :
    (id j : String) (f : NodeInfo → NodeInfo) (m : List (String × NodeInfo)) (i : NodeInfo) (n : ℕ)
    → ((k : NodeInfo) → k.seq ≤ n → (f k).seq ≤ n)
    → ((k : NodeInfo) → find_info j m ≡ some k → k.seq ≤ n)
    → find_info j (update_info id f m) ≡ some i
    → i.seq ≤ n
unfolding find_info update_info
update_info-bound id j f [] i n keep old h = old i h
update_info-bound id j f ((l, k) ∷ m) i n keep old h = elim (Bool-cases (str_eq id l)) [
  | inl here ↦ elim (Bool-cases (str_eq j l)) [
    | inl same ↦
        let e : some (f k) ≡ some i = rw (here, same) at h in
        let e' : f k ≡ i = cc (e) in
        subst (λ (x : NodeInfo). x.seq ≤ n) e' (keep k (old k (rw same refl)))
    | inr other ↦ old i (rw other (rw (here, other) at h))
  ]
  | inr there ↦ elim (Bool-cases (str_eq j l)) [
    | inl same ↦ old i (rw same (rw (there, same) at h))
    | inr other ↦
        update_info-bound id j f m i n keep (λ k' p. old k' (rw other p)) (rw (there, other) at h)
  ]
]

-- Tokens and waiting lists are no part of it.
pub plain-Extends :
    (g h : Interp) → h.def ≡ g.def → h.instance ≡ g.instance → h.seq ≡ g.seq → Extends g h
plain-Extends g h d i s = record {
  same_def = d;
  same_id = ap (λ (w : WorkflowInstance). w.id) i;
  grows = omega (arith, s);
  trail = ([], ap (λ (w : WorkflowInstance). w.audit_trail) i ∙ sym (append-nil _));
  minted = λ m j k e.
      omega (arith, s, m j k (ap (λ (w : WorkflowInstance). find_info j w.node_info) (sym i) ∙ e));
}

-- A fresh step number, for a node that keeps its other fields.
pub mint-Extends :
    (id : String) (f : NodeInfo → NodeInfo) (g : Interp)
    → ((k : NodeInfo) → (f k).seq ≡ g.seq + 1)
    → Extends g (record g {
      instance = record g.instance { node_info = update_info id f g.instance.node_info };
      seq = g.seq + 1;
    })
mint-Extends id f g h = record {
  same_def = refl;
  same_id = refl;
  grows = omega arith;
  trail = ([], sym (append-nil _));
  minted = λ m j i e.
      update_info-bound id j f g.instance.node_info i (g.seq + 1) (λ k b. omega (arith, h k))
        (λ k p. omega (arith, m j k p)) e;
}

module _ {rt : Runtime} where
  abbrev pub History : {A : Type 0} → Exec rt A → Type 0
  History m = Keeps Extends m

  pub bind-History :
      {A B : Type 0} {m : Exec rt A} {f : A → Exec rt B}
      → History m
      → ((a : A) → History (f a))
      → History (m >>= f)
  bind-History h k = bind-Keeps Extends-Preorder _ _ h k

  pub pure-History : {A : Type 0} (a : A) → History (pure a)
  pure-History a = pure-Keeps Extends-Preorder _

  pub raise-History : {A : Type 0} (e : Failure) → History {A = A} (raise e)
  raise-History e = raise-Keeps Extends-Preorder _ _

  pub throw-History : {A : Type 0} (p : ParkCategory) (c : Cause) → History {A = A} (throw p c)
  throw-History p c = throw-Keeps Extends-Preorder _ _ _

  pub exhausted-History : (A : Type 0) → History {A = A} exhausted
  unfolding exhausted
  exhausted-History A = record { at = λ s. Extends-Preorder.same s.g }

  pub lift-History : {A : Type 0} (r : Result A) → History (lift r)
  lift-History r = lift-Keeps Extends-Preorder _

  pub gets-History : {A : Type 0} (f : Interp → A) → History (gets f)
  gets-History f = gets-Keeps Extends-Preorder _

  pub perform-History : {A : Type 0} (f : rt.World → A × rt.World) → History (perform f)
  perform-History f = perform-Keeps Extends-Preorder _

  pub observe-History : {A : Type 0} (f : rt.World → A) → History (observe f)
  observe-History f = observe-Keeps Extends-Preorder _

  pub attempt-History : {A : Type 0} {m : Exec rt A} → History m → History (attempt m)
  attempt-History h = attempt-Keeps Extends-Preorder _ h

  pub variables-History : History variables
  unfolding variables
  variables-History = gets-History _

  pub modify-History : {f : Interp → Interp} → ((g : Interp) → Extends g (f g)) → History (modify f)
  unfolding modify
  modify-History h = record { at = λ s. h s.g }

  pub set_info-History :
      (id : String) (f : NodeInfo → NodeInfo)
      → ((k : NodeInfo) → (f k).seq ≡ k.seq)
      → History (set_info id f)
  unfolding set_info modify
  set_info-History id f h = record {
    at = λ s. record {
      same_def = refl;
      same_id = refl;
      grows = omega arith;
      trail = ([], sym (append-nil _));
      minted = λ m j i e.
          update_info-bound id j f s.g.instance.node_info i s.g.seq (λ k b. rw (h k) b) (m j) e;
    };
  }

  pub log-History : (a : Audit) → History (log a)
  unfolding log modify
  log-History a = record {
    at = λ s. record {
      same_def = refl;
      same_id = refl;
      grows = omega arith;
      trail = (a ∷ [], refl);
      minted = λ m. m;
    };
  }

  pub set_variables-History : (vars : Fields) → History (set_variables vars)
  unfolding set_variables modify
  set_variables-History vars = record {
    at = λ s. record {
      same_def = refl;
      same_id = refl;
      grows = omega arith;
      trail = ([], sym (append-nil _));
      minted = λ m. m;
    };
  }

  pub if-History :
      {A : Type 0} (b : Bool) (m k : Exec rt A)
      → History m
      → History k
      → History (if b then m else k)
  if-History true m k h l = h
  if-History false m k h l = l

pub ruleset history = (
  bind-History, pure-History, raise-History, throw-History, exhausted-History, lift-History,
  gets-History, perform-History, observe-History, attempt-History, variables-History, log-History,
  set_variables-History, if-History, modify-History, set_info-History, plain-Extends,
)
