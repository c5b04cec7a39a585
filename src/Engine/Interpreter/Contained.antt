-- ===== src/Engine/Interpreter/Contained.antt =====
-- The errors that leave executeNode.
use nsw_core.Common.{
  ℕ, zero, suc, String, ◌≡◌, refl, inl, inr, Bool, true, false, ◌||◌, Option, none, some, List,
  if◌then◌else◌,
}
use nsw_core.Engine.Dsl.{Node, Edge}
use nsw_core.Engine.Park.{Failure, is_terminal_admin_error, Result, ok, err}
use nsw_core.Engine.State.{NodeInfo, find_node, find_info}
use nsw_core.Engine.Runtime.{Runtime}
use nsw_core.Engine.Exec.{raised, State, Exec, exhausted, ◌>>=◌, pure, raise, observe}
use nsw_core.Engine.Exec.Escapes.{
  Quiet, Escapes, IsContained, Contained, bind-Quiet, bind-Contained, gets-Quiet, observe-Quiet,
  set_info-Quiet, attempt-Quiet,
}
use nsw_core.Engine.Admin.{park_node_for_admin}
use nsw_core.Engine.Admin.Resolved.{mint_activation-Quiet, park-Contained}
use nsw_core.Engine.Interpreter.{
  dispatch_node_handler, handle_error, enter, run_node, run_found, execute_node,
}

module _ {rt : Runtime} where
  choice-Contained :
      (stopped given_up : Bool) (e : Failure) (park : Exec rt (Unit {0})) (s : State rt)
      → (stopped ≡ true → Escapes s e)
      → (given_up ≡ true → Escapes s e)
      → IsContained (park s)
      → IsContained ((if stopped || given_up then raise e else park) s)
  unfolding raise
  choice-Contained true given_up e park s h k p = h refl
  choice-Contained false true e park s h k p = k refl
  choice-Contained false false e park s h k p = p

  module _ (next : String → Exec rt (Unit {0})) (fuel : ℕ)
      (h : (id : String) → Contained (next id)) where
    enter-Quiet : (id : String) → Quiet (enter next fuel id)
    unfolding enter
    enter-Quiet id =
        bind-Quiet _ _ (observe-Quiet _)
          (λ t. bind-Quiet _ _ (set_info-Quiet id _) (λ u. mint_activation-Quiet id))

    handle_error-Contained :
        (node : Node) (out : List Edge) (r : Result (Unit {0})) (s : State rt)
        → IsContained (handle_error next fuel node out (rt.is_cancelled s.world) r s)
    unfolding handle_error pure raise
    handle_error-Contained node out (ok u) s = tt
    handle_error-Contained node out (err e) s =
        choice-Contained (rt.is_cancelled s.world) (is_terminal_admin_error e) e
          (park_node_for_admin next (dispatch_node_handler next fuel) fuel node out e) s inl
          (λ given_up. inr (inl given_up))
          ((park-Contained next h (dispatch_node_handler next fuel) fuel node out e).at s)

    checked-Contained :
        (node : Node) (out : List Edge) (r : Result (Unit {0}))
        → Contained
            (observe rt.is_cancelled >>= λ stopped. handle_error next fuel node out stopped r)
    unfolding observe ◌>>=◌
    checked-Contained node out r = record { at = λ s. handle_error-Contained node out r s }

    run_node-Contained : (node : Node) → Contained (run_node next fuel node)
    unfolding run_node
    run_node-Contained node = bind-Contained _ _ (gets-Quiet _) (λ out.
        bind-Contained _ _ (enter-Quiet node.id)
          (λ u. bind-Contained _ _ (attempt-Quiet _) (λ result. checked-Contained node out result)))

    run_found-Contained :
        (id : String) (o : Option Node) (i : Option NodeInfo)
        → Contained (run_found next fuel id o i)
    unfolding run_found raise
    run_found-Contained id (some node) (some info) = run_node-Contained node
    run_found-Contained id none i = record { at = λ s. inr (inr (id, refl)) }
    run_found-Contained id (some node) none = record { at = λ s. inr (inr (id, refl)) }

  execute_node-Contained : (n : ℕ) (id : String) → Contained (execute_node {rt = rt} n id)
  unfolding execute_node exhausted
  execute_node-Contained zero id = record { at = λ s. tt }
  execute_node-Contained (suc n) id = bind-Contained _ _ (gets-Quiet _) (λ g.
      run_found-Contained (execute_node n) n (execute_node-Contained n) id
        (find_node id g.def.nodes) (find_info id g.instance.node_info))

  -- For every runtime, fuel, node and state, an error that executeNode returns is one that it does
  -- not park: the workflow is cancelled in the state it ends in, the error counts as a terminal
  -- admin error, or it says that a node is not found.
  pub execute_node-Escapes :
      (n : ℕ) (id : String) (s s' : State rt) (e : Failure)
      → execute_node n id s ≡ (raised e, s')
      → Escapes s' e
  execute_node-Escapes n id s s' e h = rw h at ((execute_node-Contained n id).at s)
