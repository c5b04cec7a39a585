-- ===== src/Engine/History/Handlers.antt =====
-- The handlers of START, TIMER, END and TASK nodes.
use nsw_core.Common.{ℕ, zero, suc, String, Bool, true, false, Option, none, some, List, [], ◌∷◌}
use nsw_core.Shared.Value.{ℤ, pos, negsuc, Fields}
use nsw_core.Engine.Dsl.{Node, Edge, TimerConfig}
use nsw_core.Engine.Park.{Failure, Result, ok, err}
use nsw_core.Engine.Runtime.{Runtime, TaskResult}
use nsw_core.Engine.Exec.{Exec}
use nsw_core.Engine.Nodes.{
  check, complete_node, mark_failed, mint_activation, store_outputs, single_edge, transition_to,
  follow_first,
}
use nsw_core.Engine.Nodes.Handlers.{
  expect_completion, unregister, await_output, task_output, run_step, run_task, report_end,
  notify_end, handle_end, wait_timer, positive_duration, configured_duration, timer_duration,
  handle_start, handle_timer, handle_task,
}
use nsw_core.Engine.History.{History, history, mint-Extends}

module _ {rt : Runtime} where
  pub check-History : (o : Option Failure) → History (check {rt = rt} o)
  unfolding check
  check-History none = search history
  check-History (some e) = search history

  pub complete_node-History : (id : String) → History (complete_node {rt = rt} id)
  unfolding complete_node
  complete_node-History id = search history

  pub mark_failed-History : (id : String) → History (mark_failed {rt = rt} id)
  unfolding mark_failed
  mark_failed-History id = search history

  pub mint_activation-History : (id : String) → History (mint_activation {rt = rt} id)
  unfolding mint_activation
  mint_activation-History id = search (history, mint-Extends)

  pub store_outputs-History : (node : Node) (o : Fields) → History (store_outputs {rt = rt} node o)
  unfolding store_outputs
  store_outputs-History node o = search history

  await_output-History :
      (id : String) (r : Result TaskResult) → History (await_output {rt = rt} id r)
  unfolding await_output
  await_output-History id (err e) = search history
  await_output-History id (ok r) = search history

  task_output-History :
      (stopped : Bool) (r : Result (Option Fields)) → History (task_output {rt = rt} stopped r)
  unfolding task_output
  task_output-History stopped (ok o) = search history
  task_output-History true (err e) = search history
  task_output-History false (err e) = search history

  expect_completion-History : (id : String) → History (expect_completion {rt = rt} id)
  unfolding expect_completion
  expect_completion-History id = search history

  unregister-History : (id : String) → History (unregister {rt = rt} id)
  unfolding unregister
  unregister-History id = search history

  run_step-History :
      (node : Node) (inputs : Fields) (id : String) → History (run_step {rt = rt} node inputs id)
  unfolding run_step
  run_step-History node inputs id =
      search
        (
          history, expect_completion-History, await_output-History, unregister-History,
          task_output-History, store_outputs-History,
        )
        depth 20

  run_task-History : (node : Node) → History (run_task {rt = rt} node)
  unfolding run_task
  run_task-History node = search (history, run_step-History) depth 10

  report_end-History : (node : Node) (o : Option Failure) → History (report_end {rt = rt} node o)
  unfolding report_end
  report_end-History node none = search history
  report_end-History node (some e) = search history

  notify_end-History : (node : Node) → History (notify_end {rt = rt} node)
  unfolding notify_end
  notify_end-History node = search (history, report_end-History) depth 10

  pub handle_end-History : (node : Node) → History (handle_end {rt = rt} node)
  unfolding handle_end
  handle_end-History node = search (history, notify_end-History, complete_node-History)

  wait_timer-History :
      (node : Node) (t : TimerConfig) (d : ℕ) → History (wait_timer {rt = rt} node t d)
  unfolding wait_timer
  wait_timer-History node t d = search (history, check-History) depth 10

  positive_duration-History :
      (node : Node) (t : TimerConfig) (o : Option ℤ)
      → History (positive_duration {rt = rt} node t o)
  unfolding positive_duration
  positive_duration-History node t (some (pos (suc n))) = search history
  positive_duration-History node t (some (pos zero)) = search history
  positive_duration-History node t (some (negsuc n)) = search history
  positive_duration-History node t none = search history

  configured_duration-History :
      (node : Node) (o : Option TimerConfig) → History (configured_duration {rt = rt} node o)
  unfolding configured_duration
  configured_duration-History node none = search history
  configured_duration-History node (some t) = search (history, positive_duration-History)

  timer_duration-History : (node : Node) → History (timer_duration {rt = rt} node)
  unfolding timer_duration
  timer_duration-History node = configured_duration-History node node.timer

  pub single_edge-History : (node : Node) (es : List Edge) → History (single_edge {rt = rt} node es)
  unfolding single_edge
  single_edge-History node [] = search history
  single_edge-History node (e ∷ []) = search history
  single_edge-History node (e ∷ d ∷ es) = search history

  module _ (next : String → Exec rt (Unit {0})) (h : (id : String) → History (next id)) where
    pub transition_to-History : (e : Edge) → History (transition_to next e)
    unfolding transition_to
    transition_to-History e = search (history, h)

    pub follow_first-History : (es : List Edge) → History (follow_first next es)
    unfolding follow_first
    follow_first-History [] = search history
    follow_first-History (e ∷ es) = transition_to-History e

    pub handle_start-History : (node : Node) (es : List Edge) → History (handle_start next node es)
    unfolding handle_start
    handle_start-History node [] = search history
    handle_start-History node (e ∷ es) =
        search (history, complete_node-History, transition_to-History)

    pub handle_timer-History : (node : Node) (es : List Edge) → History (handle_timer next node es)
    unfolding handle_timer
    handle_timer-History node es =
        search
          (
            history, timer_duration-History, single_edge-History, wait_timer-History,
            complete_node-History, transition_to-History,
          )
          depth 14

    pub handle_task-History : (node : Node) (es : List Edge) → History (handle_task next node es)
    unfolding handle_task
    handle_task-History node es =
        search (history, run_task-History, complete_node-History, follow_first-History) depth 10
