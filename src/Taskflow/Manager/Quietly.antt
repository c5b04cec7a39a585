-- ===== src/Taskflow/Manager/Quietly.antt =====
-- The shared parts of the methods make no call, or calls of extensions alone.
use nsw_core.Common.{String, ◌≡◌, refl, Bool, true, List, [], ◌∷◌, ◌++◌, All, if◌then◌else◌, ℕ}
use nsw_core.Shared.Value.{Fields}
use nsw_core.Taskflow.Failure.{Failure, wrap}
use nsw_core.Taskflow.Record.{TaskRecord}
use nsw_core.Taskflow.Host.{
  Result, ok, err, StepTemplate, ExtensionConfig, ExecutionPhase, Host, Call, State, ◌>>=◌, lift,
  pure, checked, ask, call, deferred,
}
use nsw_core.Taskflow.Host.Adds.{
  Claim, Adds, Adds-done, Ensures, Ensures-pure, Ensures-raise, Ensures-checked, Ensures-bind,
  Ensures-deferred, Ensures-marked, Ensures-found,
}
use nsw_core.Taskflow.Host.Ensures.{
  Quiet, Ensures-weaken, Ensures-if, Ensures-after, Ensures-then, Quiet-require, Quiet-ask,
}
use nsw_core.Taskflow.Manager.{
  registry_for, load_step_template, check_required_pre_resume, is_guarded, run_extension,
  run_extension_list, run_extensions, known_task, same_phase,
}

abbrev pub IsExtension : Call → Type 0
IsExtension (Call.extended id) = Unit
IsExtension _ = ⊥

-- Calls of extensions alone; an error is left only where the first one stops the loop.
abbrev pub Extends : Bool → Claim (Unit {0})
Extends stop (ok u) xs = All IsExtension xs
Extends stop (err e) xs = All IsExtension xs × (stop ≡ true)

pub All-append : (P : Call → Type 0) (xs ys : List Call) → All P xs → All P ys → All P (xs ++ ys)
All-append P [] ys a b = b
All-append P (x ∷ xs) ys (a, as') b = (a, All-append P xs ys as' b)

module _ (h : Host) where
  pub Quiet-registry_for : (v : ℕ) → Ensures (registry_for h v) (Quiet (λ _. Unit))
  unfolding registry_for
  Quiet-registry_for v =
      Ensures-then _ (Quiet (λ _. Unit)) _ _ (Quiet-require _ _)
        (λ a p.
          Ensures-then _ (Quiet (λ _. Unit)) _ _ (Quiet-ask (h.registry v))
            (λ b q. Ensures-checked (Quiet (λ _. Unit)) _ b (λ p. (refl, tt)) (λ e. refl))
            (λ e. refl))
        (λ e. refl)

  pub Quiet-registry_wrapped :
      (v : ℕ) → Ensures (deferred wrap (registry_for h v)) (Quiet (λ _. Unit))
  Quiet-registry_wrapped v =
      Ensures-deferred (Quiet (λ _. Unit)) (Quiet (λ _. Unit)) wrap (registry_for h v)
        (Quiet-registry_for v) (λ a xs q. q) (λ e xs q. q)

  -- The template is what the artifacts hold at some moment.
  abbrev pub Loaded : ℕ → String → StepTemplate → Type 0
  Loaded v id t = (w : h.World) × ((h.load_step_template v id w).0 ≡ ok t)

  answered :
      (v : ℕ) (id : String) (f : Failure → Failure) (s : State h) (a : Result StepTemplate)
      → (h.load_step_template v id s.world).0 ≡ a
      → Adds (Quiet (Loaded v id)) s (load_step_template h v id f s)
  unfolding load_step_template ask lift ◌>>=◌
  answered v id f s (ok t) e = rw e (Adds-done _ s _ refl (refl, (s.world, e)))
  answered v id f s (err x) e = rw e (Adds-done _ s _ refl refl)

  pub Quiet-load_step_template :
      (v : ℕ) (id : String) (f : Failure → Failure)
      → Ensures (load_step_template h v id f) (Quiet (Loaded v id))
  Quiet-load_step_template v id f = record {
    runs = λ s. answered v id f s (h.load_step_template v id s.world).0 refl;
  }

  pub Quiet-check :
      (t : StepTemplate)
      → Ensures (check_required_pre_resume h t) (Quiet (λ _. is_guarded h t ≡ true))
  unfolding check_required_pre_resume
  Quiet-check t = Quiet-require (is_guarded h t) _

  run_known-Extends :
      (r : TaskRecord) (payload : Fields) (stop : Bool) (c : ExtensionConfig)
      → Ensures {h = h}
          (do
            answer ← call (λ _. Call.extended c.id) (h.execute_extension c r payload)
            if stop then checked (λ e. wrap e) answer else pure tt)
          (Extends stop)
  run_known-Extends r payload stop c =
      Ensures-after (λ _. Call.extended c.id) (Extends stop) _ _ (Ensures-marked _ _)
        (λ answer.
          Ensures-if _ stop _ _
            (λ p. Ensures-checked _ _ answer (λ q. (tt, tt)) (λ e. ((tt, tt), p)))
            (λ p. Ensures-pure _ tt (tt, tt)))

  run_extension-Extends :
      (r : TaskRecord) (payload : Fields) (stop : Bool) (c : ExtensionConfig)
      → Ensures (run_extension h r payload stop c) (Extends stop)
  unfolding run_extension
  run_extension-Extends r payload stop c =
      Ensures-if (Extends stop) (h.has_extension c.id) _ _ (λ p. run_known-Extends r payload stop c)
        (λ p.
          Ensures-if (Extends stop) stop _ _ (λ q. Ensures-raise (Extends stop) _ (tt, q))
            (λ q. Ensures-pure (Extends stop) tt tt))

  run_extension_list-Extends :
      (r : TaskRecord) (phase : ExecutionPhase) (payload : Fields) (stop : Bool)
      (cs : List ExtensionConfig)
      → Ensures (run_extension_list h r phase payload stop cs) (Extends stop)
  unfolding run_extension_list
  run_extension_list-Extends r phase payload stop [] = Ensures-pure _ tt tt
  run_extension_list-Extends r phase payload stop (c ∷ cs) =
      Ensures-bind (Extends stop) (Extends stop) _ _
        (Ensures-if (Extends stop) (same_phase c.phase phase) _ _
          (λ p. run_extension-Extends r payload stop c) (λ p. Ensures-pure (Extends stop) tt tt))
        (λ u xs q.
          Ensures-weaken (Extends stop) _ _ (run_extension_list-Extends r phase payload stop cs)
            (λ v ys p.
              elim v as (λ v. Extends stop v ys → Extends stop v (xs ++ ys)) [
                | ok w ↦ λ p. All-append IsExtension xs ys q p
                | err e ↦ λ p. (All-append IsExtension xs ys q p.0, p.1)
              ]
                p))
        (λ e xs q. q)

  pub run_extensions-Extends :
      (r : TaskRecord) (phase : ExecutionPhase) (es : List ExtensionConfig) (payload : Fields)
      (stop : Bool)
      → Ensures (run_extensions h r phase es payload stop) (Extends stop)
  unfolding run_extensions
  run_extensions-Extends r phase es payload stop =
      Ensures-if (Extends stop) h.has_extensions _ _
        (λ p. run_extension_list-Extends r phase payload stop es)
        (λ p. Ensures-pure (Extends stop) tt tt)

  pub Quiet-known_task : (id : String) → Ensures (known_task h id) (Quiet (λ _. Unit))
  unfolding known_task
  Quiet-known_task id =
      Ensures-then _ (Quiet (λ _. Unit)) _ _ (Quiet-ask (h.get_task id))
        (λ r q. Ensures-found (Quiet (λ _. Unit)) r _ (λ a p. (refl, tt)) refl) (λ e. refl)
