-- ===== src/Taskflow/Manager/Claims/Answers.antt =====
-- ClaimTask over the store of taskflow/store/gorm, with no other call between its own.
use nsw_core.Common.{
  ℕ, zero, suc, String, ◌≡◌, ◌≢◌, refl, sym, ap, ◌∙◌, Bool, true, false, not, ◌&&◌, ◌||◌, none,
  some, inl, inr, arith, str_eq, ne→str_eq, eq_iff, mem_text, Bool-cases, Option-cases,
}
use nsw_core.Taskflow.Failure.{Sentinel, Failure, plain}
use nsw_core.Taskflow.Record.{ended_states}
use nsw_core.Taskflow.Store.{Row, Db, row_of, get_task, to_domain, text_or_empty}
use nsw_core.Taskflow.Store.Writes.{Op, statement, run_op, is_null, holds_text}
use nsw_core.Taskflow.Store.Rows.{AtMostOnce, run_op-changed}
use nsw_core.Taskflow.Host.{ok, err, Host, State, ◌>>=◌, raise, require}
use nsw_core.Taskflow.Manager.Claims.{claim_refusal, raise_or, claim_loop, claim_task}
use nsw_core.Taskflow.Manager.Claims.Attempts.{
  IsStore, claim_answer, IsNamed, after_write, attempt_taken, after_read, missed, attempt_missed,
  row_after, row_after_read, once_after,
}

abbrev guarded : String → Row → Bool
guarded holder r =
    (is_null r.claimed_by || holds_text holder r.claimed_by) && not (mem_text r.state ended_states)

answer_taken :
    (holder : String) (r : Row) → guarded holder r ≡ true → claim_answer holder (some r) ≡ ok tt
unfolding mem_text
answer_taken holder r g = ground arith

answer_refused :
    (holder : String) (r : Row) (e : Failure)
    → guarded holder r ≡ false
    → IsNamed (some r)
    → claim_refusal holder (to_domain r) ≡ some e
    → claim_answer holder (some r) ≡ err e
unfolding mem_text to_domain
answer_refused holder r e g n c = elim (Option-cases r.claimed_by) [
  | inl p ↦
      let q : text_or_empty r.claimed_by ≡ "" = ap text_or_empty p in
      ground (arith, eq_iff (text_or_empty r.claimed_by) "")
  | inr (k, p) ↦
      let q : text_or_empty r.claimed_by ≡ k = ap text_or_empty p in
      let named : k ≢ "" = λ z. n (p ∙ ap some z) in
      ground (
        arith,
        eq_iff k "",
        eq_iff k holder,
        eq_iff (text_or_empty r.claimed_by) "",
        eq_iff (text_or_empty r.claimed_by) holder,
      )
]

answer_stuck :
    (holder : String) (r : Row)
    → guarded holder r ≡ false
    → IsNamed (some r)
    → claim_refusal holder (to_domain r) ≡ none
    → claim_answer holder (some r) ≡ err (plain Sentinel.claim_unsettled)
unfolding mem_text to_domain
answer_stuck holder r g n c = elim (Option-cases r.claimed_by) [
  | inl p ↦
      let q : text_or_empty r.claimed_by ≡ "" = ap text_or_empty p in
      ground (arith, eq_iff (text_or_empty r.claimed_by) "")
  | inr (k, p) ↦
      let q : text_or_empty r.claimed_by ≡ k = ap text_or_empty p in
      let named : k ≢ "" = λ z. n (p ∙ ap some z) in
      ground (
        arith,
        eq_iff k "",
        eq_iff k holder,
        eq_iff (text_or_empty r.claimed_by) "",
        eq_iff (text_or_empty r.claimed_by) holder,
      )
]

module _ (h : Host) (db : h.World → Db) (store : IsStore h db) (id holder : String) where
  claims : State h → Op
  claims s = Op.claim_task holder (h.now s.world)

  no_rows :
      (s : State h) (r : Row)
      → AtMostOnce id (db s.world).tasks
      → row_of id (db s.world).tasks ≡ some r
      → guarded holder r ≡ false
      → ((run_op id (Op.claim_task holder (h.now s.world)) (db s.world)).0 ≡ 0)
        × (row_of id (db (after_write h db store id holder s)).tasks ≡ some r)
  unfolding statement
  no_rows s r once there g = (
    run_op-changed id _ (db s.world) once ∙ rw (there, g) refl,
    row_after h db store id holder s ∙ rw (there, g) refl,
  )

  got :
      (s : State h) (r : Row)
      → row_of id (db (after_write h db store id holder s)).tasks ≡ some r
      → get_task id (db (after_write h db store id holder s)) ≡ some (to_domain r)
  unfolding get_task
  got s r there = rw (get_task, there) refl

  claim_stuck :
      (n : ℕ) (s : State h) (r : Row)
      → AtMostOnce id (db s.world).tasks
      → row_of id (db s.world).tasks ≡ some r
      → guarded holder r ≡ false
      → claim_refusal holder (to_domain r) ≡ none
      → (claim_loop h n id holder s).0 ≡ err (plain Sentinel.claim_unsettled)
  unfolding claim_loop raise raise_or
  claim_stuck zero s r once there g c = refl
  claim_stuck (suc n) s r once there g c =
      let (rows, kept) = no_rows s r once there g in
      attempt_missed h db store id holder n s (some (to_domain r)) rows (got s r kept)
      ∙ rw (missed, c)
          (claim_stuck n (after_read h db store id holder s) r
            (once_after h db store id holder s once) (row_after_read h db store id holder s ∙ kept)
            g c)

  one_row :
      (s : State h) (r : Row)
      → AtMostOnce id (db s.world).tasks
      → row_of id (db s.world).tasks ≡ some r
      → guarded holder r ≡ true
      → (run_op id (Op.claim_task holder (h.now s.world)) (db s.world)).0 ≡ 1
  unfolding statement
  one_row s r once there g = run_op-changed id _ (db s.world) once ∙ rw (there, g) refl

  row_answer :
      (n : ℕ) (s : State h) (r : Row)
      → AtMostOnce id (db s.world).tasks
      → row_of id (db s.world).tasks ≡ some r
      → IsNamed (some r)
      → (claim_loop h (suc n) id holder s).0 ≡ claim_answer holder (some r)
  unfolding raise_or raise
  row_answer n s r once there named = elim (Bool-cases (guarded holder r)) [
    | inl g ↦
        attempt_taken h db store id holder n s (one_row s r once there g)
        ∙ sym (answer_taken holder r g)
    | inr g ↦
        let (rows, kept) = no_rows s r once there g in
        let missed' =
          attempt_missed h db store id holder n s (some (to_domain r)) rows (got s r kept) in
        elim (Option-cases (claim_refusal holder (to_domain r))) [
          | inl c ↦ claim_stuck (suc n) s r once there g c ∙ sym (answer_stuck holder r g named c)
          | inr (e, c) ↦ missed' ∙ rw (missed, c) refl ∙ sym (answer_refused holder r e g named c)
        ]
  ]

  loop-answer :
      (n : ℕ) (s : State h)
      → AtMostOnce id (db s.world).tasks
      → IsNamed (row_of id (db s.world).tasks)
      → (claim_loop h (suc n) id holder s).0 ≡ claim_answer holder (row_of id (db s.world).tasks)
  unfolding get_task
  loop-answer n s once named = elim (Option-cases (row_of id (db s.world).tasks)) [
    | inl gone ↦ rw gone (
        attempt_missed h db store id holder n s none
          (run_op-changed id _ (db s.world) once ∙ rw gone refl)
          (rw (get_task, row_after h db store id holder s, gone) refl))
    | inr (r, there) ↦ rw there (row_answer n s r once there (rw there at named))
  ]

-- Where the store answers without a failure, the task has at most one row, no row is claimed by the
-- empty name, and no other call comes between its own, ClaimTask by a named holder answers by the
-- row alone: not found, completed, held by another, claimed, or, for a cancelled task that is free
-- or claimed by the caller, that the claim kept changing.
pub claim_task-answer :
    (h : Host) (db : h.World → Db) (id holder : String) (s : State h)
    → IsStore h db
    → AtMostOnce id (db s.world).tasks
    → IsNamed (row_of id (db s.world).tasks)
    → holder ≢ ""
    → (claim_task h id holder s).0 ≡ claim_answer holder (row_of id (db s.world).tasks)
unfolding claim_task require ◌>>=◌
claim_task-answer h db id holder s store once named held =
    let e : str_eq holder "" ≡ false = ne→str_eq holder "" held in
    rw e (loop-answer h db store id holder 2 s once named)
