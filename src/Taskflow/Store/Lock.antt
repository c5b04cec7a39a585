-- ===== src/Taskflow/Store/Lock.antt =====
-- The claim columns of a task as a lock.
use nsw_core.Common.{
  ℕ, String, ◌≡◌, ◌≢◌, refl, sym, ap, subst, ◌∙◌, Bool, true, false, none, some, inl, inr, List, [],
  ◌∷◌, arith, str_eq, str_eq→eq, str_eq→ne, eq_iff, mem_text, Bool-cases, Option-cases,
}
use nsw_core.Taskflow.Record.{ended_states}
use nsw_core.Taskflow.Store.{Row, Db, row_of}
use nsw_core.Taskflow.Store.Writes.{Op, claim_task, release_task, statement, run_op}
use nsw_core.Taskflow.Store.Rows.{
  applied, changed, AtMostOnce, row_of-run_op, run_op-changed, run_op-AtMostOnce,
}
use nsw_core.Taskflow.Store.Holding.{
  Lock, is_lock_op, LockStep, LockRun, IsLock, has_ended, run_ops,
}

abbrev Refined : Op → Row → Lock → Type 0
Refined op r l =
    (k : Lock) × LockStep op (has_ended (some r)) (changed (statement op) (some r)) l k
    × IsLock (some (applied (statement op) r)) k

step_at :
    (op : Op) (e e' : Bool) (n n' : ℕ) (l k : Lock)
    → e ≡ e'
    → n ≡ n'
    → LockStep op e' n' l k
    → LockStep op e n l k
step_at op e e' n n' l k p q s =
    subst (λ x. LockStep op x n l k) (sym p) (subst (λ x. LockStep op e' x l k) (sym q) s)

claim_refines :
    (h : String) (at : ℕ) (r : Row) (l : Lock) → IsLock (some r) l → Refined (claim_task h at) r l
unfolding statement
claim_refines h at r none i = elim (Bool-cases (mem_text r.state ended_states)) [
  | inl over ↦ (
    none,
    step_at _ _ true _ 0 none none over (ground arith) (LockStep.closes h at none),
    ground arith,
  )
  | inr open_task ↦ (
    some (h, at),
    step_at _ _ false _ 1 none _ open_task (ground arith) (LockStep.grants h at),
    (ground arith, ground arith),
  )
]
claim_refines h at r (some (k, t)) (i, j) = elim (Bool-cases (mem_text r.state ended_states)) [
  | inl over ↦ (
    some (k, t),
    step_at _ _ true _ 0 _ _ over (ground arith) (LockStep.closes h at (some (k, t))),
    (ground arith, ground arith),
  )
  | inr open_task ↦ elim (Bool-cases (str_eq k h)) [
    | inl mine ↦
        let e = str_eq→eq k h mine in
        (
          some (k, t),
          step_at _ _ false _ 1 _ _ open_task (ground arith) (
              subst (λ x. LockStep (claim_task h at) false 1 (some (x, t)) (some (x, t))) (sym e)
                (LockStep.repeats h at t)),
          (ground arith, ground arith),
        )
    | inr other ↦ (
      some (k, t),
      step_at _ _ false _ 0 _ _ open_task (ground arith)
          (LockStep.refuses h k at t false (str_eq→ne k h other)),
      (ground arith, ground arith),
    )
  ]
]

release_refines :
    (h : String) (r : Row) (l : Lock) → IsLock (some r) l → Refined (release_task h) r l
unfolding statement
release_refines h r none i = (
  none,
  step_at _ _ _ _ 0 _ _ refl (ground arith) (LockStep.leaves h _ none (λ n. n)),
  ground arith,
)
release_refines h r (some (k, t)) (i, j) = elim (Bool-cases (str_eq k h)) [
  | inl mine ↦
      let e = str_eq→eq k h mine in
      (
        none,
        step_at _ _ _ _ 1 _ _ refl (ground arith) (
            subst (λ x. LockStep (release_task h) (has_ended (some r)) 1 (some (x, t)) none) (sym e)
              (LockStep.frees h t _)),
        ground arith,
      )
  | inr other ↦ (
    some (k, t),
    step_at _ _ _ _ 0 _ _ refl (ground arith)
        (LockStep.leaves h _ (some (k, t)) (str_eq→ne k h other)),
    (ground arith, ground arith),
  )
]

columns_kept :
    (op : Op) (r : Row)
    → is_lock_op op ≡ false
    → ((applied (statement op) r).claimed_by ≡ r.claimed_by)
      × ((applied (statement op) r).claimed_at ≡ r.claimed_at)
unfolding statement
columns_kept (Op.claim_step c) r n = ground arith
columns_kept (Op.write_render_state step seq state payload) r n = ground arith
columns_kept (Op.persist_submission step seq payload) r n = ground arith
columns_kept (Op.write_draft step seq payload) r n = ground arith
columns_kept Op.cancel_task r n = ground arith
columns_kept (Op.hold_task seq) r n = ground arith
columns_kept (Op.complete_task seq) r n = ground arith
columns_kept (Op.claim_task holder at) r n = absurd (ground arith)
columns_kept (Op.release_task holder) r n = absurd (ground arith)

other_refines :
    (op : Op) (r : Row) (l : Lock) → is_lock_op op ≡ false → IsLock (some r) l → Refined op r l
other_refines op r none n i = (none, LockStep.passes op _ _ none n, (columns_kept op r n).0 ∙ i)
other_refines op r (some (h, t)) n (i, j) = (
  some (h, t),
  LockStep.passes op _ _ _ n,
  ((columns_kept op r n).0 ∙ i, (columns_kept op r n).1 ∙ j),
)

op_refines : (op : Op) (r : Row) (l : Lock) → IsLock (some r) l → Refined op r l
op_refines (claim_task h at) r l i = claim_refines h at r l i
op_refines (release_task h) r l i = release_refines h r l i
op_refines (Op.claim_step c) r l i = other_refines _ r l refl i
op_refines (Op.write_render_state step seq state payload) r l i = other_refines _ r l refl i
op_refines (Op.persist_submission step seq payload) r l i = other_refines _ r l refl i
op_refines (Op.write_draft step seq payload) r l i = other_refines _ r l refl i
op_refines Op.cancel_task r l i = other_refines _ r l refl i
op_refines (Op.hold_task seq) r l i = other_refines _ r l refl i
op_refines (Op.complete_task seq) r l i = other_refines _ r l refl i

db_refines :
    (id : String) (op : Op) (db : Db) (l : Lock)
    → AtMostOnce id db.tasks
    → IsLock (row_of id db.tasks) l
    → (k : Lock) × LockStep op (has_ended (row_of id db.tasks)) (run_op id op db).0 l k
      × IsLock (row_of id (run_op id op db).1.tasks) k
db_refines id op db l once i = elim (Option-cases (row_of id db.tasks)) [
  | inl gone ↦ elim (rw gone at i) [ ]
  | inr (r, there) ↦
      let (k, s, j) = op_refines op r l (rw there at i) in
      let rows : (run_op id op db).0 ≡ changed (statement op) (some r) =
        run_op-changed id op db once ∙ ap (changed (statement op)) there in
      let row : row_of id (run_op id op db).1.tasks ≡ some (applied (statement op) r) =
        row_of-run_op id id op db ∙ ground (arith, eq_iff id id) in
      (k, step_at op _ _ _ _ l k (ap has_ended there) rows s, subst (λ x. IsLock x k) (sym row) j)
]

-- Where a task has one row, whose claim columns stand for a lock, every sequence of store
-- operations on the task takes the lock through a run of the abstract one: a claim of a free open
-- task is granted with its time, a repeat by the holder keeps the time, a claim against another
-- holder or on an ended task changes nothing and reports no row, a release frees the lock of its
-- holder alone, and every other operation leaves it; the columns stand for the lock after the run.
pub run_ops-LockRun :
    (id : String) (ops : List Op) (db : Db) (l : Lock)
    → AtMostOnce id db.tasks
    → IsLock (row_of id db.tasks) l
    → (k : Lock) × LockRun (run_ops id ops db).0 l k
      × IsLock (row_of id (run_ops id ops db).1.tasks) k
unfolding run_ops
run_ops-LockRun id [] db l once i = (l, LockRun.idle l, i)
run_ops-LockRun id (op ∷ ops) db l once i =
    let (k, s, j) = db_refines id op db l once i in
    let (m, rest, e) =
      run_ops-LockRun id ops (run_op id op db).1 k (run_op-AtMostOnce id id op db once) j in
    (m, LockRun.next _ _ l k m s rest, e)

abbrev pub NoRelease : String → List Op → Type 0
NoRelease h [] = Unit
NoRelease h (op ∷ ops) = (op ≢ release_task h) × NoRelease h ops

step_stays :
    {op : Op} {ended : Bool} {n : ℕ} {l k : Lock} (h : String) (t : ℕ)
    → LockStep op ended n l k
    → op ≢ release_task h
    → l ≡ some (h, t)
    → k ≡ some (h, t)
step_stays h t (LockStep.grants g at) n p = absurd (ground arith)
step_stays h t (LockStep.repeats g at u) n p = p
step_stays h t (LockStep.refuses g k at u ended d) n p = p
step_stays h t (LockStep.closes g at l) n p = p
step_stays h t (LockStep.frees g u ended) n p = absurd (n (ap release_task (ground arith)))
step_stays h t (LockStep.leaves g ended l d) n p = p
step_stays h t (LockStep.passes op ended r l d) n p = p

-- Where a task has one row, claimed by a holder, it is claimed by that holder, since the same time,
-- after every sequence of store operations on it that has no release by the holder, also where
-- others claim or release it, and where it is completed or cancelled.
pub run_ops-keeps_claim :
    (id h : String) (t : ℕ) (ops : List Op) (db : Db)
    → AtMostOnce id db.tasks
    → IsLock (row_of id db.tasks) (some (h, t))
    → NoRelease h ops
    → IsLock (row_of id (run_ops id ops db).1.tasks) (some (h, t))
unfolding run_ops
run_ops-keeps_claim id h t [] db once i n = i
run_ops-keeps_claim id h t (op ∷ ops) db once i (first, later) =
    let (k, s, j) = db_refines id op db (some (h, t)) once i in
    let same : k ≡ some (h, t) = step_stays h t s first refl in
    run_ops-keeps_claim id h t ops (run_op id op db).1 (run_op-AtMostOnce id id op db once)
      (subst (IsLock (row_of id (run_op id op db).1.tasks)) same j) later
