-- ===== src/Taskflow/Manager/Complete/Once.antt =====
-- What CompleteTaskStep has done when it returns.
use nsw_core.Common.{
  ℕ, String, ◌≡◌, refl, ap, true, false, not, ◌&&◌, is_empty, Option, none, some, List, [], ◌∷◌,
  ◌++◌, All, arith, str_eq, str_eq→eq, ne→str_eq, ◌≢◌,
}
use nsw_core.Shared.Value.{Fields, copy_map}
use nsw_core.Taskflow.Failure.{Failure}
use nsw_core.Taskflow.Record.{TaskRecord, deep_copy}
use nsw_core.Taskflow.Store.Writes.{persist_submission}
use nsw_core.Taskflow.Host.{
  Result, ok, err, StepTemplate, post_resume, pre_resume, Host, Call, activated, wrote, is_none,
  State, ◌>>=◌, ◌>>◌, checked, write, require, found, ask,
}
use nsw_core.Taskflow.Host.Adds.{
  Claim, Adds, Ensures, Ensures-pure, Ensures-passed, Ensures-marked, Ensures-write, Ensures-bind,
}
use nsw_core.Taskflow.Host.Ensures.{
  Ensures-after, Ensures-then, Ensures-weaken, Ensures-if, Quiet-require, Quiet-checked,
}
use nsw_core.Taskflow.Manager.{submission_data, is_guarded, has_ended, known_task}
use nsw_core.Taskflow.Manager.Quietly.{
  IsExtension, Extends, Loaded, All-append, Quiet-registry_wrapped, Quiet-load_step_template,
  Quiet-check, run_extensions-Extends,
}
use nsw_core.Taskflow.Manager.Complete.{
  not_resumed, submitted_record, run_post_resume, submit, complete_open, complete_task_step,
}

-- Calls that change no task: of extensions, and of an activity that Temporal has refused.
abbrev pub IsHarmless : Call → Type 0
IsHarmless (Call.extended id) = Unit
IsHarmless (Call.activated wf step payload false) = Unit
IsHarmless _ = ⊥

harmless : (xs : List Call) → All IsExtension xs → All IsHarmless xs
harmless [] a = tt
harmless (Call.extended id ∷ xs) (a, as') = (tt, harmless xs as')
harmless (Call.created id ∷ xs) (a, as') = elim a [ ]
harmless (Call.wrote id op r ∷ xs) (a, as') = elim a [ ]
harmless (Call.started id ∷ xs) (a, as') = elim a [ ]
harmless (Call.executed id r ∷ xs) (a, as') = elim a [ ]
harmless (Call.activated id step payload b ∷ xs) (a, as') = elim a [ ]
harmless (Call.terminated id ∷ xs) (a, as') = elim a [ ]
harmless (Call.woke id step values b ∷ xs) (a, as') = elim a [ ]

module _ (h : Host) (id step : String) (payload : Fields) (r : TaskRecord) where
  -- The activity, the row, and then extensions alone.
  abbrev Submitted : StepTemplate → Claim (Unit {0})
  Submitted t (err e) xs = All IsHarmless xs
  Submitted t (ok u) xs =
      (answer : Result ℕ) × (after : List Call) × (xs
        ≡ activated r.task_workflow_id step payload true
          ∷ wrote id (persist_submission step r.seq (submission_data r t payload)) answer
          ∷ after)
      × All IsExtension after

  run_post_resume-Extends :
      (q : TaskRecord) (t : StepTemplate) → Ensures (run_post_resume h q t payload) (Extends false)
  unfolding run_post_resume
  run_post_resume-Extends q t =
      Ensures-if (Extends false) (h.has_extensions && not (is_empty t.extensions)) _ _
        (λ p.
          run_extensions-Extends h (deep_copy q) post_resume t.extensions (copy_map payload) false)
        (λ p. Ensures-pure (Extends false) tt tt)

  row_submitted :
      (t : StepTemplate)
      → Ensures {h = h}
          (do
            rows ← write id (persist_submission step r.seq (submission_data r t payload))
            run_post_resume h (submitted_record r (submission_data r t payload) rows) t payload)
          (λ b ys. Submitted t b (activated r.task_workflow_id step payload true ∷ ys))
  row_submitted t =
      Ensures-after (wrote id (persist_submission step r.seq (submission_data r t payload))) _ _ _
        (Ensures-write _ _)
        (λ a.
          Ensures-weaken (Extends false) _ _
            (run_post_resume-Extends (submitted_record r (submission_data r t payload) a) t)
            (λ b ys q.
              elim b
                  as (λ b.
                    Extends false b ys
                    → Submitted t b (
                        activated r.task_workflow_id step payload true
                        ∷ wrote id (persist_submission step r.seq (submission_data r t payload)) a
                        ∷ ys)) [ ok u ↦ λ q. (a, ys, refl, q) | err e ↦ λ q. absurd (ground arith) ]
                q))

  resumed :
      (t : StepTemplate) (a : Option Failure)
      → Ensures {h = h}
          (do
            checked not_resumed a
            rows ← write id (persist_submission step r.seq (submission_data r t payload))
            run_post_resume h (submitted_record r (submission_data r t payload) rows) t payload)
          (λ b ys. Submitted t b (activated r.task_workflow_id step payload (is_none a) ∷ ys))
  resumed t none =
      Ensures-bind (λ b ys. (ys ≡ []) × (b ≡ ok tt)) _ _ _
        (Ensures-passed _ not_resumed (refl, refl)) (λ u xs q. rw q.0 (row_submitted t))
        (λ e xs q. absurd (ground arith))
  resumed t (some e) =
      Ensures-then (λ u. some e ≡ none) _ _ _ (Quiet-checked not_resumed (some e))
        (λ u p. absurd (ground arith)) (λ f. (tt, tt))

  submit-Submitted : (t : StepTemplate) → Ensures (submit h id step payload r t) (Submitted t)
  unfolding submit
  submit-Submitted t =
      Ensures-after (λ a. activated r.task_workflow_id step payload (is_none a)) (Submitted t) _ _
        (Ensures-marked _ _) (resumed t)

  -- What has been done, by the result: on an error nothing but what changes no task; on success the
  -- activity of this step, and then the guarded write of the row that was read.
  abbrev pub Completed : Claim (Unit {0})
  Completed (err e) xs = All IsHarmless xs
  Completed (ok u) xs =
      (has_ended r ≡ false)
      × (r.active_step_id ≡ step)
      × ((t : StepTemplate) × Loaded h r.manifest_version r.active_task_template_id t
          × (is_guarded h t ≡ true)
          × ((before after : List Call) × (answer : Result ℕ) × (xs
                ≡ before
                  ++ activated r.task_workflow_id step payload true
                    ∷ wrote id (persist_submission step r.seq (submission_data r t payload)) answer
                    ∷ after)
              × All IsExtension before
              × All IsExtension after))

  -- After the extensions that come first.
  complete_guarded :
      (t : StepTemplate) (xs : List Call)
      → has_ended r ≡ false
      → r.active_step_id ≡ step
      → Loaded h r.manifest_version r.active_task_template_id t
      → is_guarded h t ≡ true
      → All IsExtension xs
      → Ensures (submit h id step payload r t) (λ b ys. Completed b (xs ++ ys))
  complete_guarded t xs open_task active loaded guarded q =
      Ensures-weaken (Submitted t) _ _ (submit-Submitted t) (λ b ys p.
        elim b as (λ b. Submitted t b ys → Completed b (xs ++ ys)) [
          | err e ↦ λ p. All-append IsHarmless xs ys (harmless xs q) p
          | ok u ↦ λ p. (
            open_task,
            active,
            (t, loaded, guarded, (xs, p.1, p.0, ap (λ zs. xs ++ zs) p.2, q, p.3)),
          )
        ]
          p)

  complete_open-Completed : Ensures (complete_open h id step payload r) Completed
  unfolding complete_open
  complete_open-Completed =
      Ensures-then _ Completed _ _ (Quiet-require (not (has_ended r)) _)
        (λ u a.
          Ensures-then _ Completed _ _ (Quiet-require (str_eq r.active_step_id step) _)
            (λ v b.
              Ensures-then _ Completed _ _ (Quiet-registry_wrapped h r.manifest_version)
                (λ w c.
                  Ensures-then _ Completed _ _
                    (Quiet-load_step_template h r.manifest_version r.active_task_template_id _)
                    (λ t d.
                      Ensures-then _ Completed _ _ (Quiet-check h t)
                        (λ x guarded.
                          Ensures-bind (Extends true) Completed _ _
                            (run_extensions-Extends h (deep_copy r) pre_resume t.extensions
                              (copy_map payload) true)
                            (λ y xs q.
                              complete_guarded t xs (ground arith)
                                (str_eq→eq r.active_step_id step b) d guarded q)
                            (λ e xs q. harmless xs q.0))
                        (λ e. tt))
                    (λ e. tt))
                (λ e. tt))
            (λ e. tt))
        (λ e. tt)

-- For a step ID that is not empty and a task that the store knows: where CompleteTaskStep fails, it
-- has made no calls outside but those of extensions, and of an activity that Temporal refused;
-- where it succeeds, the task as it was read has not ended and has this step as the active one, its
-- step template, as loaded, declares the required extensions, and the calls are those of
-- extensions, then one completed activity with the whole payload, then one write of the row guarded
-- by the step and the version that was read, then those of extensions.
pub complete_task_step-Completed :
    (h : Host) (id step : String) (payload : Fields) (s : State h) (r : TaskRecord)
    → step ≢ ""
    → (h.get_task id s.world).0 ≡ some r
    → Adds (Completed h id step payload r) s (complete_task_step h id step payload s)
unfolding complete_task_step known_task require ask found ◌>>=◌
complete_task_step-Completed h id step payload s r named there =
    let e : str_eq step "" ≡ false = ne→str_eq step "" named in
    let d =
      (complete_open-Completed h id step payload r).runs
        (record s { world = (h.get_task id s.world).1 }) in
    rw (e, there) (record { added = d.added; kept = d.kept; holds = d.holds })
