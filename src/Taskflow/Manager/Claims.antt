-- ===== src/Taskflow/Manager/Claims.antt =====
-- taskflow/orchestrator/claim.go: ClaimTask and ReleaseTask.
pub mod Attempts
pub mod Answers
use nsw_core.Common.{
  ℕ, zero, suc, ◌+◌, String, Bool, true, false, not, ◌&&◌, ◌||◌, Option, none, some, str_eq, ◌==◌,
  if◌then◌else◌,
}
use nsw_core.Taskflow.Failure.{Sentinel, Failure, plain, wrap}
use nsw_core.Taskflow.Record.{TaskRecord, state_completed}
use nsw_core.Taskflow.Store.Writes.{Op}
use nsw_core.Taskflow.Host.{Host, M, ◌>>=◌, ◌>>◌, pure, raise, lift, require, found, ask, write}
use nsw_core.Taskflow.Manager.{is_zero, known_task}

abbrev pub claim_attempts : ℕ
claim_attempts = 3

-- Why a claim has matched no row; nothing, where the row could be claimed by now.
abbrev pub claim_refusal : String → TaskRecord → Option Failure
claim_refusal holder r =
    if str_eq r.state state_completed
    then some (wrap (plain Sentinel.task_completed))
    else if not (str_eq r.claimed_by "") && not (str_eq r.claimed_by holder)
    then some (plain Sentinel.claim_held)
    else none

module _ (h : Host) where
  -- time.Now() stands in the world before the write.
  unfoldable pub now : M h ℕ
  now = ask (λ w. (h.now w, w))

  unfoldable pub raise_or : Option Failure → M h (Unit {0}) → M h (Unit {0})
  raise_or none m = m
  raise_or (some e) m = raise e

  -- The loop over the attempts that are left.
  unfoldable pub claim_loop : ℕ → String → String → M h (Unit {0})
  claim_loop zero id holder = raise (plain Sentinel.claim_unsettled)
  claim_loop (suc n) id holder = do
    at ← now
    answer ← write id (Op.claim_task holder at)
    rows ← lift wrap answer
    let rest = (do r ← known_task h id; raise_or (claim_refusal holder r) (claim_loop n id holder))
    if is_zero rows then rest else pure tt

  unfoldable pub claim_task : String → String → M h (Unit {0})
  claim_task id holder = do
    require (not (str_eq holder "")) (plain Sentinel.holder_required)
    claim_loop claim_attempts id holder

  -- After a release that has matched no row: nothing is claimed, another holds it, or try again.
  unfoldable pub release_again : String → TaskRecord → M h (Unit {0}) → M h (Unit {0})
  release_again holder r rest =
      if str_eq r.claimed_by ""
      then pure tt
      else if not (str_eq r.claimed_by holder)
      then raise (wrap (plain Sentinel.not_claim_holder))
      else rest

  unfoldable pub release_loop : ℕ → String → String → M h (Unit {0})
  release_loop zero id holder = raise (plain Sentinel.claim_unsettled)
  release_loop (suc n) id holder = do
    answer ← write id (Op.release_task holder)
    rows ← lift wrap answer
    let rest = (do r ← known_task h id; release_again holder r (release_loop n id holder))
    if is_zero rows then rest else pure tt

  unfoldable pub release_task : String → String → M h (Unit {0})
  release_task id holder = do
    require (not (str_eq holder "")) (plain Sentinel.holder_required)
    release_loop claim_attempts id holder
