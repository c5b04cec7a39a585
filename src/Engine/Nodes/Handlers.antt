-- ===== src/Engine/Nodes/Handlers.antt =====
-- The handlers of workflow/workflow.go for START, TIMER, END and TASK nodes.
pub mod Closed
use Prim.Native.String.{◌++◌ as concat}
use nsw_core.Common.{
  ℕ, zero, suc, ◌+◌, String, Bool, true, false, Option, none, some, List, [], ◌∷◌, str_eq,
  if◌then◌else◌, ◌==◌,
}
use nsw_core.Shared.Value.{ℤ, pos, negsuc, Value, int, float, Fields}
use nsw_core.Shared.MapUtil.{get_nested_key, set_nested_key}
use nsw_core.Engine.Dsl.{Node, Edge, TimerConfig}
use nsw_core.Engine.Park.{
  Failure, wrap, definition_error, task_failure, invalid_definition, activity_failed, Result, ok,
  err, tagged,
}
use nsw_core.Engine.Mapping.{map_task_inputs}
use nsw_core.Engine.State.{timer_waiting, without_text}
use nsw_core.Engine.Runtime.{Runtime, TaskResult}
use nsw_core.Engine.Exec.{
  Exec, ◌>>=◌, ◌>>◌, pure, raise, throw, lift, gets, perform, observe, modify, set_info, log,
  set_variables, variables,
}
use nsw_core.Engine.Nodes.{
  manifest_version, case_id, activation_of, seq_of, output_of, check, complete_node, store_outputs,
  single_edge, transition_to, follow_first,
}

-- asInt: the counter that a TIMER reads back. A float is truncated.
unfoldable pub as_int : Value → ℤ
as_int (int n) = n
as_int (float n r) = n
as_int _ = pos 0

-- n + 1 on a 64-bit int, which wraps at the largest one.
unfoldable pub increment : ℤ → ℤ
increment (pos n) = if n == 9223372036854775807 then negsuc 9223372036854775807 else pos (n + 1)
increment (negsuc zero) = pos 0
increment (negsuc (suc n)) = negsuc n

unfoldable pub next_iteration : Option Value → ℤ
unfolding as_int increment
next_iteration none = pos 1
next_iteration (some prev) = increment (as_int prev)

-- The output that the Activity gave, unless the completion that is read after it has an error.
abbrev pub kept_output : Option Fields → Result (Option Fields) → Result (Option Fields)
kept_output o (ok _) = ok o
kept_output o (err e) = err e

module _ {rt : Runtime} where
  unfoldable pub expect_completion : String → Exec rt (Unit {0})
  unfolding modify
  expect_completion id =
      modify (λ g. record g { pending_completions = id ∷ without_text id g.pending_completions })

  unfoldable pub unregister : String → Exec rt (Unit {0})
  unfolding modify
  unregister id =
      modify (λ g. record g { pending_completions = without_text id g.pending_completions })

  -- The step's output: the Activity's, or the one that its completion delivers.
  unfoldable pub await_output : String → Result TaskResult → Exec rt (Result (Option Fields))
  unfolding pure perform observe
  await_output id (err e) = pure (err e)
  await_output id (ok r) = if r.suspended then perform (rt.await_completion id) else (do
    ready ← observe (rt.completion_ready id)
    if ready
        then (do late ← perform (rt.await_completion id); pure (kept_output r.output late))
        else pure (ok r.output))

  unfoldable pub task_output : Bool → Result (Option Fields) → Exec rt Fields
  unfolding pure raise
  task_output cancelled (ok o) = pure (output_of o)
  task_output true (err e) = raise e
  task_output false (err e) = raise (tagged task_failure e)

  -- A step from its registration on; it takes no completion once its output is there.
  unfoldable pub run_step : Node → Fields → String → Exec rt (Unit {0})
  unfolding gets perform observe expect_completion unregister await_output task_output set_info
      store_outputs
  run_step node inputs id = do
    expect_completion id
    g ← gets (λ g. g)
    started ← perform (
        rt.execute_task (record {
          activation_id = id;
          template_id = node.task_template_id;
          inputs = inputs;
          case_id = case_id g;
          node_id = node.id;
          seq = seq_of node.id g;
          manifest_version = manifest_version g;
        }))
    result ← await_output id started
    unregister id
    cancelled ← observe rt.is_cancelled
    output ← task_output cancelled result
    set_info node.id (λ i. record i { cached_task_result = some output })
    store_outputs node output

  -- A TASK node up to its completion.
  unfoldable pub run_task : Node → Exec rt (Unit {0})
  unfolding variables lift map_task_inputs gets run_step
  run_task node = do
    vars ← variables
    inputs ← lift (map_task_inputs vars node.input_mapping)
    id ← gets (activation_of node.id)
    run_step node inputs id

  unfoldable pub report_end : Node → Option Failure → Exec rt (Unit {0})
  unfolding pure raise
  report_end node none = pure tt
  report_end node (some e) = raise (tagged task_failure (wrap (activity_failed node.id) e))

  -- WorkflowCompletedActivity runs only for an execution without a parent.
  unfoldable pub notify_end : Node → Exec rt (Unit {0})
  unfolding gets perform pure report_end
  notify_end node = do
    g ← gets (λ g. g)
    if g.has_parent then pure tt else (do
      r ← perform (rt.notify_completed g.instance.id g.instance.variables (seq_of node.id g))
      report_end node r)

  unfoldable pub handle_end : Node → Exec rt (Unit {0})
  unfolding notify_end complete_node
  handle_end node = do notify_end node; complete_node node.id

  -- The TIMER's wait, with its duration in nanoseconds.
  unfoldable pub wait_timer : Node → TimerConfig → ℕ → Exec rt (Unit {0})
  unfolding variables set_variables log perform check next_iteration
  wait_timer node t d = do
    vars ← variables
    let counter = if str_eq t.counter_key "" then concat node.id ".iterations" else t.counter_key
    let iterations = next_iteration (get_nested_key vars counter)
    set_variables (set_nested_key vars counter (int iterations))
    log (timer_waiting node.id d iterations)
    r ← perform (rt.sleep d)
    check r

  -- The duration has to be there, readable and positive.
  unfoldable pub positive_duration : Node → TimerConfig → Option ℤ → Exec rt (TimerConfig × ℕ)
  unfolding pure throw
  positive_duration node t (some (pos (suc n))) = pure (t, suc n)
  positive_duration node t _ = throw definition_error (invalid_definition node.id)

  unfoldable pub configured_duration : Node → Option TimerConfig → Exec rt (TimerConfig × ℕ)
  unfolding throw positive_duration
  configured_duration node none = throw definition_error (invalid_definition node.id)
  configured_duration node (some t) =
      if str_eq t.duration ""
      then throw definition_error (invalid_definition node.id)
      else positive_duration node t (rt.parse_duration t.duration)

  unfoldable pub timer_duration : Node → Exec rt (TimerConfig × ℕ)
  unfolding configured_duration
  timer_duration node = configured_duration node node.timer

  module _ (next : String → Exec rt (Unit {0})) where
    unfoldable pub handle_start : Node → List Edge → Exec rt (Unit {0})
    unfolding throw complete_node transition_to
    handle_start node [] = throw definition_error (invalid_definition node.id)
    handle_start node (e ∷ es) = do complete_node node.id; transition_to next e

    unfoldable pub handle_timer : Node → List Edge → Exec rt (Unit {0})
    unfolding timer_duration single_edge wait_timer complete_node transition_to
    handle_timer node out = do
      (t, d) ← timer_duration node
      e ← single_edge node out
      wait_timer node t d
      complete_node node.id
      transition_to next e

    unfoldable pub handle_task : Node → List Edge → Exec rt (Unit {0})
    unfolding run_task complete_node follow_first
    handle_task node out = do run_task node; complete_node node.id; follow_first next out
