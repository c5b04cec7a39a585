-- ===== src/Engine/Nodes/Handlers/Closed.antt =====
-- The steps that a TASK node leaves waiting.
use nsw_core.Common.{
  String, ◌≡◌, refl, ◌∙◌, ap, Bool, true, false, Option, inl, inr, mem_text, if◌then◌else◌,
}
use nsw_core.Shared.Value.{Fields}
use nsw_core.Engine.Dsl.{Node}
use nsw_core.Engine.Park.{Result, ok, err, Result-cases}
use nsw_core.Engine.Mapping.{map_task_inputs}
use nsw_core.Engine.State.{NodeInfo, Interp}
use nsw_core.Engine.Runtime.{Runtime, TaskResult}
use nsw_core.Engine.Exec.{
  done, State, Exec, ◌>>=◌, ◌>>◌, pure, lift, gets, perform, observe, modify, set_info,
  set_variables, variables,
}
use nsw_core.Engine.Exec.Keeps.{
  Preorder, Keeps, bind-Keeps, pure-Keeps, raise-Keeps, lift-Keeps, observe-Keeps,
}
use nsw_core.Engine.Completion.Once.{mem_text-without_text_self}
use nsw_core.Engine.Nodes.{activation_of, store_outputs}
use nsw_core.Engine.Nodes.Handlers.{
  expect_completion, unregister, await_output, task_output, run_step, run_task,
}

abbrev SamePending : Interp → Interp → Type 0
SamePending g h = h.pending_completions ≡ g.pending_completions

same-Preorder : Preorder SamePending
same-Preorder = record { same = λ g. refl; next = λ g h i p q. q ∙ p }

module _ {rt : Runtime} where
  -- The action always gives a result.
  record Succeeds {A : Type 0} (m : Exec rt A) : Type 0 where
    result : (s : State rt) → (a : A) × (t : State rt) × (m s ≡ (done a, t))

  -- The step does not wait for its completion after the action.
  record Closes (id : String) {A : Type 0} (m : Exec rt A) : Type 0 where
    closed : (s : State rt) → mem_text id (m s).1.g.pending_completions ≡ false

  bind-Closes :
      {A B : Type 0} {id : String} {m : Exec rt A} {f : A → Exec rt B}
      → Succeeds m
      → ((a : A) → Closes id (f a))
      → Closes id (m >>= f)
  unfolding ◌>>=◌
  bind-Closes h k = record { closed = λ s. let (a, t, e) = h.result s in rw e ((k a).closed t) }

  bind-Succeeds :
      {A B : Type 0} {m : Exec rt A} {f : A → Exec rt B}
      → Succeeds m
      → ((a : A) → Succeeds (f a))
      → Succeeds (m >>= f)
  unfolding ◌>>=◌
  bind-Succeeds h k = record { result = λ s. let (a, t, e) = h.result s in rw e ((k a).result t) }

  pure-Succeeds : {A : Type 0} (a : A) → Succeeds (pure {rt = rt} a)
  unfolding pure
  pure-Succeeds a = record { result = λ s. (a, s, refl) }

  perform-Succeeds : {A : Type 0} (f : rt.World → A × rt.World) → Succeeds (perform {rt = rt} f)
  unfolding perform
  perform-Succeeds f = record { result = λ s. (_, _, refl) }

  observe-Succeeds : {A : Type 0} (f : rt.World → A) → Succeeds (observe {rt = rt} f)
  unfolding observe
  observe-Succeeds f = record { result = λ s. (_, _, refl) }

  gets-Succeeds : {A : Type 0} (f : Interp → A) → Succeeds (gets {rt = rt} f)
  unfolding gets
  gets-Succeeds f = record { result = λ s. (_, _, refl) }

  expect-Succeeds : (id : String) → Succeeds (expect_completion {rt = rt} id)
  unfolding expect_completion modify
  expect-Succeeds id = record { result = λ s. (tt, _, refl) }

  if-Succeeds :
      {A : Type 0} (b : Bool) (m k : Exec rt A)
      → Succeeds m
      → Succeeds k
      → Succeeds (if b then m else k)
  if-Succeeds true m k h l = h
  if-Succeeds false m k h l = l

  await_output-Succeeds :
      (id : String) (r : Result TaskResult) → Succeeds (await_output {rt = rt} id r)
  unfolding await_output
  await_output-Succeeds id (err e) = pure-Succeeds _
  await_output-Succeeds id (ok r) = if-Succeeds r.suspended _ _ (perform-Succeeds _) (
      bind-Succeeds (observe-Succeeds _) (λ ready.
        if-Succeeds ready _ _ (bind-Succeeds (perform-Succeeds _) (λ late. pure-Succeeds _))
          (pure-Succeeds _)))

  unregister-Closes :
      {B : Type 0} (id : String) (k : Exec rt B)
      → Keeps SamePending k
      → Closes id (unregister id >> k)
  unfolding unregister modify ◌>>=◌
  unregister-Closes id k h = record {
    closed = λ s. ap (mem_text id) (h.at _) ∙ mem_text-without_text_self id s.g.pending_completions;
  }

  set_info-Same :
      (id : String) (f : NodeInfo → NodeInfo) → Keeps SamePending (set_info {rt = rt} id f)
  unfolding set_info modify
  set_info-Same id f = record { at = λ s. refl }

  set_variables-Same : (vars : Fields) → Keeps SamePending (set_variables {rt = rt} vars)
  unfolding set_variables modify
  set_variables-Same vars = record { at = λ s. refl }

  variables-Same : Keeps SamePending (variables {rt = rt})
  unfolding variables gets
  variables-Same = record { at = λ s. refl }

  task_output-Same :
      (b : Bool) (r : Result (Option Fields)) → Keeps SamePending (task_output {rt = rt} b r)
  unfolding task_output
  task_output-Same b (ok o) = pure-Keeps same-Preorder _
  task_output-Same true (err e) = raise-Keeps same-Preorder _ _
  task_output-Same false (err e) = raise-Keeps same-Preorder _ _

  store_outputs-Same :
      (node : Node) (o : Fields) → Keeps SamePending (store_outputs {rt = rt} node o)
  unfolding store_outputs
  store_outputs-Same node o = bind-Keeps same-Preorder _ _ variables-Same (λ vars.
      bind-Keeps same-Preorder _ _ (lift-Keeps same-Preorder _) (λ vars'.
        bind-Keeps same-Preorder _ _ (set_variables-Same vars') (λ u. set_info-Same node.id _)))

  run_step-Closes :
      (node : Node) (inputs : Fields) (id : String) → Closes id (run_step {rt = rt} node inputs id)
  unfolding run_step
  run_step-Closes node inputs id = bind-Closes (expect-Succeeds id) (λ u.
      bind-Closes (gets-Succeeds _) (λ g. bind-Closes (perform-Succeeds _) (λ started.
        bind-Closes (await_output-Succeeds id started) (λ result. unregister-Closes id _ (
          bind-Keeps same-Preorder _ _ (observe-Keeps same-Preorder _) (λ stopped.
            bind-Keeps same-Preorder _ _ (task_output-Same stopped result) (λ output.
              bind-Keeps same-Preorder _ _ (set_info-Same node.id _)
                (λ v. store_outputs-Same node output))))))))

  -- Where the step of a TASK node does not wait for a completion before the handler, it does not
  -- wait for one after it, whatever the handler ends with: success, a failed mapping, a failed
  -- Activity or an error of the completion.
  pub run_task_closed :
      (node : Node) (s : State rt)
      → mem_text (activation_of node.id s.g) s.g.pending_completions ≡ false
      → mem_text (activation_of node.id s.g) (run_task node s).1.g.pending_completions ≡ false
  unfolding run_task variables gets lift ◌>>=◌
  run_task_closed node s h =
      elim (Result-cases (map_task_inputs s.g.instance.variables node.input_mapping)) [
        | inl (e, p) ↦ rw p h
        | inr (inputs, p) ↦
            rw p ((run_step-Closes node inputs (activation_of node.id s.g)).closed s)
      ]
