-- ===== src/Taskflow/Manager/Start/Claimed.antt =====
-- The calls of StartTaskStep: a plugin runs only for a step that the row has been claimed for.
use nsw_core.Common.{
  ℕ, zero, suc, String, ◌≡◌, refl, ap, true, not, Option, List, [], ◌∷◌, arith, length,
}
use nsw_core.Shared.Value.{Fields, end}
use nsw_core.Taskflow.Failure.{Sentinel, Failure, plain, wrap, application, surface_permanent}
use nsw_core.Taskflow.Record.{TaskRecord}
use nsw_core.Taskflow.Store.Writes.{claim_step, write_render_state}
use nsw_core.Taskflow.Host.{
  Result, ok, err, StepTemplate, Host, Call, wrote, executed, ◌>>=◌, ◌>>◌, lift, require, call,
}
use nsw_core.Taskflow.Host.Adds.{
  Claim, Ensures, Ensures-pure, Ensures-raise, Ensures-marked, Ensures-write, Ensures-deferred,
}
use nsw_core.Taskflow.Host.Ensures.{
  Ensures-after, Ensures-goes_on, Ensures-stops, Ensures-then, Ensures-if, Quiet-require,
  Quiet-checked, Quiet-lift, Quiet-ask, Quiet-found,
}
use nsw_core.Taskflow.Manager.{TaskPayload, set_inputs, is_zero}
use nsw_core.Taskflow.Manager.Quietly.{Quiet-registry_for, Quiet-load_step_template}
use nsw_core.Taskflow.Manager.Start.{
  step_claim, claimed_record, plugin_error, is_suspended, show_step, run_step, start_task_step,
  loading,
}

abbrev pub NoRow : Result ℕ → Type 0
NoRow (err e) = Unit
NoRow (ok zero) = Unit
NoRow (ok (suc n)) = ⊥

module _ (p : TaskPayload) where
  -- What the plugin is given: a record of the task with the step of the call as the active one.
  abbrev ran : String → TaskRecord → Call
  ran kind r = executed kind (claimed_record p (set_inputs end p.inputs) r)

  abbrev claimed : String → Result ℕ → Call
  claimed id answer = wrote id (claim_step (step_claim p)) answer

  pub data StepCalls : List Call → Type 0 where
    nothing : StepCalls []
    refused : (id : String) (answer : Result ℕ) → NoRow answer → StepCalls (claimed id answer ∷ [])
    failed :
        (kind : String) (r : TaskRecord) (n : ℕ)
        → StepCalls (claimed r.task_id (ok (suc n)) ∷ ran kind r ∷ [])
    shown :
        (kind : String) (r : TaskRecord) (n : ℕ) (id state : String) (values : Fields)
        (answer : Result ℕ)
        → StepCalls (
            claimed r.task_id (ok (suc n))
            ∷ ran kind r
            ∷ wrote id (write_render_state p.activation_id p.seq state values) answer
            ∷ [])

abbrev pub stale_start : Failure
stale_start = application true "StaleStep" (plain Sentinel.stale_step)

-- One write, which has changed no row.
abbrev pub MissedRow : List Call → Type 0
MissedRow (wrote id op (ok zero) ∷ []) = Unit
MissedRow _ = ⊥

abbrev pub StepDone : TaskPayload → Claim Fields
StepDone p (ok values) xs = StepCalls p xs × (length xs ≡ 3)
StepDone p (err e) xs = StepCalls p xs × (MissedRow xs → e ≡ stale_start)

nonzero : (n : ℕ) → not (is_zero (suc n)) ≡ true
nonzero n = ground arith

module _ (h : Host) (p : TaskPayload) where
  show_step-StepDone :
      (kind : String) (r q : TaskRecord) (n : ℕ) (f : Option Failure)
      → Ensures
          (show_step h p f q)
          (λ b ys. StepDone p b (claimed p r.task_id (ok (suc n)) ∷ ran p kind r ∷ ys))
  unfolding show_step
  show_step-StepDone kind r q n f =
      Ensures-then _ _ _ _ (Quiet-checked wrap (plugin_error f))
        (λ u a.
          Ensures-after
            (wrote q.task_id (write_render_state p.activation_id p.seq q.state q.payload)) _ _ _
            (Ensures-write _ _)
            (λ answer.
              let shown' = StepCalls.shown kind r n q.task_id q.state q.payload answer in
              Ensures-then _ _ _ _ (Quiet-lift wrap answer)
                (λ rows b.
                  Ensures-if _ (is_suspended f) _ _
                    (λ c. Ensures-raise _ _ (shown', λ m. elim m [ ]))
                    (λ c. Ensures-pure _ q.payload (shown', refl)))
                (λ e. (shown', λ m. elim m [ ]))))
        (λ e. (StepCalls.failed kind r n, λ m. elim m [ ]))

  after_claim :
      (t : StepTemplate) (r : TaskRecord) (answer : Result ℕ)
      → Ensures {h = h}
          (do
            rows ← lift wrap answer
            require (not (is_zero rows)) stale_start
            result ←
                call
                  (λ a. executed t.plugin_type (claimed_record p (set_inputs end p.inputs) r))
                  (h.execute_plugin t.plugin_type
                    (claimed_record p (set_inputs end p.inputs) r)
                    p.inputs
                    t.output_namespace
                    t.plugin_properties)
            show_step h p result.0 result.1)
          (λ b ys. StepDone p b (claimed p r.task_id answer ∷ ys))
  unfolding lift require
  after_claim t r (err e) =
      Ensures-stops (wrap e) _ _ _ (λ s. refl)
        (StepCalls.refused r.task_id (err e) tt, λ m. elim m [ ])
  after_claim t r (ok zero) =
      Ensures-goes_on {A = ℕ} 0 _ _ _ (λ s. refl)
        (Ensures-stops stale_start _ _ _ (λ s. refl)
          (StepCalls.refused r.task_id (ok 0) tt, λ m. refl))
  after_claim t r (ok (suc n)) =
      Ensures-goes_on {A = ℕ} (suc n) _ _ _ (λ s. refl)
        (Ensures-goes_on {A = Unit {0}} tt _ _ _ (λ s. rw (nonzero n))
          (Ensures-after
            (λ a. executed t.plugin_type (claimed_record p (set_inputs end p.inputs) r)) _ _ _
            (Ensures-marked _ _) (λ a. show_step-StepDone t.plugin_type r a.1 n a.0)))

  run_step-StepDone : (r : TaskRecord) (t : StepTemplate) → Ensures (run_step h p r t) (StepDone p)
  unfolding run_step
  run_step-StepDone r t =
      Ensures-after (wrote r.task_id (claim_step (step_claim p))) _ _ _ (Ensures-write _ _)
        (after_claim t r)

-- StartTaskStep runs a plugin only directly after its claim of the step, on the task that the
-- plugin is given, has changed a row, and with a record that has the step of the call as the active
-- one; it makes at most three calls outside: the claim, the plugin, and one write of what the step
-- shows, under the step and the version of the call. Where it succeeds it has made all three, and
-- where the claim changed no row it returns the non-retryable StaleStep error.
pub start_task_step-StepDone :
    (h : Host) (p : TaskPayload) → Ensures (start_task_step h p) (StepDone p)
unfolding start_task_step surface_permanent
start_task_step-StepDone h p =
    Ensures-deferred (StepDone p) (StepDone p) surface_permanent _
      (Ensures-then _ (StepDone p) _ _ (Quiet-require _ _)
        (λ u a.
          Ensures-then _ (StepDone p) _ _ (Quiet-ask (h.get_task_by_workflow_id p.workflow_id))
            (λ known b.
              Ensures-then _ (StepDone p) _ _ (Quiet-found known _)
                (λ r c.
                  Ensures-then _ (StepDone p) _ _ (Quiet-registry_for h r.manifest_version)
                    (λ v d.
                      Ensures-then _ (StepDone p) _ _
                        (Quiet-load_step_template h r.manifest_version p.task_template_id loading)
                        (λ t g.
                          Ensures-then _ (StepDone p) _ _
                            (Quiet-require (h.has_plugin t.plugin_type) _)
                            (λ w i. run_step-StepDone h p r t)
                            (λ e. (StepCalls.nothing, λ m. elim m [ ])))
                        (λ e. (StepCalls.nothing, λ m. elim m [ ])))
                    (λ e. (StepCalls.nothing, λ m. elim m [ ])))
                (λ e. (StepCalls.nothing, λ m. elim m [ ])))
            (λ e. (StepCalls.nothing, λ m. elim m [ ])))
        (λ e. (StepCalls.nothing, λ m. elim m [ ])))
      (λ values xs q. q) (λ e xs q. (q.0, λ m. ap surface_permanent (q.1 m)))
