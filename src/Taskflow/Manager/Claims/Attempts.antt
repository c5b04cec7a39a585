-- ===== src/Taskflow/Manager/Claims/Attempts.antt =====
-- One attempt of ClaimTask, by the row before it.
use nsw_core.Common.{
  ℕ, suc, String, ◌≡◌, ◌≢◌, refl, sym, ap, subst, ◌∙◌, Option, none, some, arith, [], ◌∷◌, ◌++◌,
  str_eq, eq_iff, if◌then◌else◌,
}
use nsw_core.Taskflow.Failure.{Sentinel, plain, wrap}
use nsw_core.Taskflow.Record.{TaskRecord, state_completed, state_cancelled}
use nsw_core.Taskflow.Store.{Row, Db, row_of, get_task}
use nsw_core.Taskflow.Store.Writes.{Op, statement, run_op}
use nsw_core.Taskflow.Store.Rows.{applied, map_row, AtMostOnce, row_of-run_op, run_op-AtMostOnce}
use nsw_core.Taskflow.Host.{
  Result, ok, err, Host, State, ◌>>=◌, pure, lift, found, ask, call, write, Call,
}
use nsw_core.Taskflow.Manager.{known_task}
use nsw_core.Taskflow.Manager.Claims.{claim_refusal, now, raise_or, claim_loop}

-- The store of the host is the tables, and answers without a failure.
pub record IsStore (h : Host) (db : h.World → Db) : Type 0 where
  pub write_answer :
      (id : String) (op : Op) (w : h.World) → (h.write id op w).0 ≡ ok (run_op id op (db w)).0
  pub write_effect :
      (id : String) (op : Op) (w : h.World) → db (h.write id op w).1 ≡ (run_op id op (db w)).1
  pub get_answer : (id : String) (w : h.World) → (h.get_task id w).0 ≡ get_task id (db w)
  pub get_effect : (id : String) (w : h.World) → db (h.get_task id w).1 ≡ db w

-- What a claim comes to, by the row.
abbrev pub claim_answer : String → Option Row → Result (Unit {0})
claim_answer holder none = err (wrap (plain Sentinel.task_not_found))
claim_answer holder (some r) =
    if str_eq r.state state_completed
    then err (wrap (plain Sentinel.task_completed))
    else elim r.claimed_by [
      | none ↦
          if str_eq r.state state_cancelled then err (plain Sentinel.claim_unsettled) else ok tt
      | some k ↦
          if str_eq k holder
          then (if str_eq r.state state_cancelled
              then err (plain Sentinel.claim_unsettled)
              else ok tt)
          else err (plain Sentinel.claim_held)
    ]

-- No row is claimed by a holder without a name.
abbrev pub IsNamed : Option Row → Type 0
IsNamed none = Unit
IsNamed (some r) = r.claimed_by ≢ some ""

module _ (h : Host) (db : h.World → Db) (store : IsStore h db) (id holder : String) where
  -- One attempt, by the row before it.
  pub after_write : State h → h.World
  after_write s = (h.write id (Op.claim_task holder (h.now s.world)) s.world).1

  pub attempt_taken :
      (n : ℕ) (s : State h)
      → (run_op id (Op.claim_task holder (h.now s.world)) (db s.world)).0 ≡ 1
      → (claim_loop h (suc n) id holder s).0 ≡ ok tt
  unfolding claim_loop now ask write call lift pure ◌>>=◌
  attempt_taken n s one =
      let a = store.write_answer id (Op.claim_task holder (h.now s.world)) s.world in
      rw (a, one) refl

  pub after_read : State h → State h
  after_read s = record {
    world = (h.get_task id (after_write s)).1;
    calls =
        s.calls
        ++ Call.wrote id (Op.claim_task holder (h.now s.world))
            (h.write id (Op.claim_task holder (h.now s.world)) s.world).0
          ∷ [];
  }

  abbrev pub missed : ℕ → State h → Option TaskRecord → Result (Unit {0})
  missed n t none = err (wrap (plain Sentinel.task_not_found))
  missed n t (some r) = (raise_or h (claim_refusal holder r) (claim_loop h n id holder) t).0

  pub attempt_missed :
      (n : ℕ) (s : State h) (o : Option TaskRecord)
      → (run_op id (Op.claim_task holder (h.now s.world)) (db s.world)).0 ≡ 0
      → get_task id (db (after_write s)) ≡ o
      → (claim_loop h (suc n) id holder s).0 ≡ missed n (after_read s) o
  unfolding claim_loop now ask write call lift pure known_task found ◌>>=◌ after_read after_write
  attempt_missed n s none zero_rows o =
      let a = store.write_answer id (Op.claim_task holder (h.now s.world)) s.world in
      let b = store.get_answer id (after_write s) in rw (a, zero_rows, b, o) refl
  attempt_missed n s (some r) zero_rows o =
      let a = store.write_answer id (Op.claim_task holder (h.now s.world)) s.world in
      let b = store.get_answer id (after_write s) in rw (a, zero_rows, b, o) refl

  -- The row after an attempt.
  pub row_after :
      (s : State h)
      → row_of id (db (after_write s)).tasks
        ≡ map_row
            (applied (statement (Op.claim_task holder (h.now s.world))))
            (row_of id (db s.world).tasks)
  unfolding after_write
  row_after s =
      ap (λ (d : Db). row_of id d.tasks) (store.write_effect id _ s.world)
      ∙ row_of-run_op id id _ (db s.world)
      ∙ ground (arith, eq_iff id id)

  pub row_after_read :
      (s : State h)
      → row_of id (db (after_read s).world).tasks ≡ row_of id (db (after_write s)).tasks
  unfolding after_read
  row_after_read s = ap (λ (d : Db). row_of id d.tasks) (store.get_effect id (after_write s))

  pub once_after :
      (s : State h)
      → AtMostOnce id (db s.world).tasks
      → AtMostOnce id (db (after_read s).world).tasks
  unfolding after_read after_write
  once_after s once =
      subst (λ (d : Db). AtMostOnce id d.tasks)
        (sym (store.get_effect id (after_write s) ∙ store.write_effect id _ s.world))
        (run_op-AtMostOnce id id _ (db s.world) once)
