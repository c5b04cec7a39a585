-- ===== src/Taskflow/Manager/Start/Woken.antt =====
-- The calls of HandleTaskCompletion: the row is completed first, then the parent is woken.
use nsw_core.Common.{ℕ, ◌≡◌, ◌≢◌, Bool, true, false, Option, none, some, ◌⊎◌, [], ◌∷◌}
use nsw_core.Taskflow.Failure.{Sentinel, Failure, wrap, is_caused_by}
use nsw_core.Taskflow.Record.{TaskRecord, state_cancelled}
use nsw_core.Taskflow.Store.Writes.{complete_task}
use nsw_core.Taskflow.Host.{Result, ok, err, Host, Call, wrote, woke}
use nsw_core.Taskflow.Host.Adds.{Adds, Claim, Ensures}
use nsw_core.Taskflow.Manager.{WorkflowCompletion}
use nsw_core.Taskflow.Manager.Start.{is_cancelled}

-- The answers to the wake of a parent that are no error: it is woken, or waits no more.
abbrev pub IsAwake : Option Failure → Type 0
IsAwake none = Unit
IsAwake (some e) = is_caused_by Sentinel.activation_not_pending e ≡ true

-- An answer that is an error, which is passed on.
abbrev pub IsAsleep : Option Failure → Failure → Type 0
IsAsleep none e = ⊥
IsAsleep (some f) e = (f ≡ e) × (is_caused_by Sentinel.activation_not_pending f ≡ false)

module _ (h : Host) (r : TaskRecord) (c : WorkflowCompletion) where
  -- The task, read again at some moment, is cancelled or not.
  abbrev pub ReadAgain : Bool → Type 0
  ReadAgain b = (w : h.World) × (is_cancelled (h.get_task r.task_id w).0 ≡ b)

  abbrev completed : Result ℕ → Call
  completed answer = wrote r.task_id (complete_task c.seq) answer

  abbrev parent_woken : Option Failure → Call
  parent_woken a = woke r.parent_workflow_id r.parent_step_id c.final_variables a

  -- The write has changed a row, or the task was not found cancelled after it.
  abbrev pub HasEnded : ℕ → Type 0
  HasEnded n = (n ≢ 0) ⊎ ReadAgain false

  -- The parent is woken, with an answer that decides on the result.
  abbrev IsWoken : Claim (Unit {0})
  IsWoken (err e) xs = (a : Option Failure) × (xs ≡ parent_woken a ∷ []) × IsAsleep a e
  IsWoken (ok u) xs = (a : Option Failure) × (xs ≡ parent_woken a ∷ []) × IsAwake a

  -- After the write of the row, which has changed so many rows.
  abbrev Completes : ℕ → Claim (Unit {0})
  Completes n b xs =
      ((b ≡ ok tt) × (xs ≡ []) × (n ≡ 0) × ReadAgain true) ⊎ (HasEnded n × IsWoken b xs)

  -- What HandleTaskCompletion has done for an open task, by its result.
  abbrev pub HasFinished : Claim (Unit {0})
  HasFinished (err e) xs =
      ((f : Failure) × (xs ≡ completed (err f) ∷ []) × (e ≡ wrap f))
      ⊎ ((n : ℕ) × (a : Option Failure) × (xs ≡ completed (ok n) ∷ parent_woken a ∷ [])
          × HasEnded n
          × IsAsleep a e)
  HasFinished (ok u) xs =
      ((xs ≡ completed (ok 0) ∷ []) × ReadAgain true)
      ⊎ ((n : ℕ) × (a : Option Failure) × (xs ≡ completed (ok n) ∷ parent_woken a ∷ [])
          × HasEnded n
          × IsAwake a)

  -- A task that was read as cancelled is left alone, and only such a one.
  abbrev pub HasCompleted : Claim (Unit {0})
  HasCompleted b xs =
      ((r.state ≡ state_cancelled) × (b ≡ ok tt) × (xs ≡ []))
      ⊎ ((r.state ≢ state_cancelled) × HasFinished b xs)
