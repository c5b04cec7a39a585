-- ===== src/Taskflow/Store/Holding.antt =====
-- The claim columns of a task as a lock, and a sequence of operations on a task with what they report.
use nsw_core.Common.{
  ℕ, String, ◌≡◌, ◌≢◌, Bool, true, false, Option, none, some, List, [], ◌∷◌, mem_text,
}
use nsw_core.Taskflow.Record.{ended_states}
use nsw_core.Taskflow.Store.{Row, Db, row_of}
use nsw_core.Taskflow.Store.Writes.{Op, claim_task, release_task, run_op}

-- Who holds the task, and since when.
abbrev pub Lock : Type 0
Lock = Option (String × ℕ)

abbrev pub is_lock_op : Op → Bool
is_lock_op (claim_task holder at) = true
is_lock_op (release_task holder) = true
is_lock_op _ = false

abbrev pub HeldBy : String → Lock → Type 0
HeldBy h none = ⊥
HeldBy h (some (k, t)) = k ≡ h

-- An operation, whether the task has ended before it, and how many rows it reports.
pub record Report : Type 0 where
  pub op : Op
  pub ended : Bool
  pub rows : ℕ

-- What the lock promises: an operation on the lock before it gives the lock after it.
pub data LockStep : Op → Bool → ℕ → Lock → Lock → Type 0 where
  grants : (h : String) (at : ℕ) → LockStep (claim_task h at) false 1 none (some (h, at))
  repeats : (h : String) (at t : ℕ) → LockStep (claim_task h at) false 1 (some (h, t)) (some (h, t))
  refuses :
      (h k : String) (at t : ℕ) (ended : Bool)
      → k ≢ h
      → LockStep (claim_task h at) ended 0 (some (k, t)) (some (k, t))
  closes : (h : String) (at : ℕ) (l : Lock) → LockStep (claim_task h at) true 0 l l
  frees : (h : String) (t : ℕ) (ended : Bool) → LockStep (release_task h) ended 1 (some (h, t)) none
  leaves :
      (h : String) (ended : Bool) (l : Lock)
      → ¬ (HeldBy h l)
      → LockStep (release_task h) ended 0 l l
  passes :
      (op : Op) (ended : Bool) (n : ℕ) (l : Lock) → is_lock_op op ≡ false → LockStep op ended n l l

pub data LockRun : List Report → Lock → Lock → Type 0 where
  idle : (l : Lock) → LockRun [] l l
  next :
      (r : Report) (trace : List Report) (l k m : Lock)
      → LockStep r.op r.ended r.rows l k
      → LockRun trace k m
      → LockRun (r ∷ trace) l m

-- The lock that the columns stand for; a task is there.
abbrev pub IsLock : Option Row → Lock → Type 0
IsLock none l = ⊥
IsLock (some r) none = r.claimed_by ≡ none
IsLock (some r) (some (h, t)) = (r.claimed_by ≡ some h) × (r.claimed_at ≡ some t)

abbrev pub has_ended : Option Row → Bool
has_ended none = false
has_ended (some r) = mem_text r.state ended_states

-- A sequence of operations on a task, with what each reports.
unfoldable pub run_ops : String → List Op → Db → List Report × Db
unfolding run_op row_of mem_text
run_ops id [] db = ([], db)
run_ops id (op ∷ ops) db =
    let (n, db') = run_op id op db in
    let (trace, last) = run_ops id ops db' in
    ((record { op = op; ended = has_ended (row_of id db.tasks); rows = n }) ∷ trace, last)
