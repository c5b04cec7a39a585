-- ===== src/Engine/Admin/Resolved.antt =====
-- The errors that leave parkNodeForAdmin.
use nsw_core.Common.{
  ℕ, zero, suc, String, ◌≡◌, refl, inl, inr, true, Option, none, some, List, [], ◌∷◌, Bool-cases,
}
use nsw_core.Shared.Value.{Value}
use nsw_core.Engine.Dsl.{Node, Edge, is_gateway}
use nsw_core.Engine.Park.{Failure, terminal, is_terminal_admin_error, Result, ok, err}
use nsw_core.Engine.State.{NodeStatus, AdminAction, retry, abort, other, AdminResolutionSignal}
use nsw_core.Engine.Runtime.{Runtime}
use nsw_core.Engine.Exec.{Exec, exhausted, pure, raise}
use nsw_core.Engine.Exec.Escapes.{
  Quiet, Contained, bind-Quiet, bind-Contained, pure-Quiet, gets-Quiet, observe-Quiet,
  perform-Quiet, modify-Quiet, set_info-Quiet, log-Quiet, variables-Quiet, set_variables-Quiet,
  attempt-Quiet,
}
use nsw_core.Engine.Nodes.{mark_failed, mint_activation, transition_to, follow_first}
use nsw_core.Engine.Admin.{
  patch_variables, unpark, begin_park, log_notification, await_admin_resolution, give_up,
  prepare_retry, complete_parked_node, after_retry, resolve, act_on, park_node_for_admin,
}

is_terminal-terminal : (e : Failure) → is_terminal_admin_error (terminal e) ≡ true
unfolding is_terminal_admin_error
is_terminal-terminal e = refl

module _ {rt : Runtime} where
  pub mint_activation-Quiet : (id : String) → Quiet (mint_activation {rt = rt} id)
  unfolding mint_activation
  mint_activation-Quiet id = record { at = λ s. tt }

  mark_failed-Quiet : (id : String) → Quiet (mark_failed {rt = rt} id)
  unfolding mark_failed
  mark_failed-Quiet id = set_info-Quiet id _

  patch_variables-Quiet : (patch : List (String × Value)) → Quiet (patch_variables {rt = rt} patch)
  unfolding patch_variables
  patch_variables-Quiet patch = bind-Quiet _ _ variables-Quiet (λ vars. set_variables-Quiet _)

  unpark-Quiet : (id : String) (status : NodeStatus) → Quiet (unpark {rt = rt} id status)
  unfolding unpark
  unpark-Quiet id status = bind-Quiet _ _ (observe-Quiet _) (λ t. set_info-Quiet id _)

  begin_park-Quiet : (node : Node) (cause : Failure) → Quiet (begin_park {rt = rt} node cause)
  unfolding begin_park
  begin_park-Quiet node cause = bind-Quiet _ _ (observe-Quiet _) (λ t.
      bind-Quiet _ _ (gets-Quiet _)
        (λ cached. bind-Quiet _ _ (set_info-Quiet node.id _) (λ u. log-Quiet _)))

  log_notification-Quiet :
      (node : Node) (o : Option Failure) → Quiet (log_notification {rt = rt} node o)
  unfolding log_notification
  log_notification-Quiet node none = pure-Quiet tt
  log_notification-Quiet node (some f) = log-Quiet _

  await_admin_resolution-Quiet :
      (node : Node) (cause : Failure) → Quiet (await_admin_resolution {rt = rt} node cause)
  unfolding await_admin_resolution
  await_admin_resolution-Quiet node cause = bind-Quiet _ _ (gets-Quiet _) (λ g.
      bind-Quiet _ _ (modify-Quiet _) (λ u. bind-Quiet _ _ (perform-Quiet _) (λ notified.
        bind-Quiet _ _ (perform-Quiet _) (λ signal.
          bind-Quiet _ _ (modify-Quiet _) (λ v.
            bind-Quiet _ _ (log_notification-Quiet node notified) (λ w. pure-Quiet signal))))))

  prepare_retry-Quiet :
      (node : Node) (patch : List (String × Value)) → Quiet (prepare_retry {rt = rt} node patch)
  unfolding prepare_retry
  prepare_retry-Quiet node patch = bind-Quiet _ _ (patch_variables-Quiet patch) (λ u.
      bind-Quiet _ _ (unpark-Quiet node.id NodeStatus.running) (λ v. mint_activation-Quiet node.id))

  raise_terminal-Contained :
      {A : Type 0} (e : Failure)
      → is_terminal_admin_error e ≡ true
      → Contained {A = A} (raise {rt = rt} e)
  unfolding raise
  raise_terminal-Contained e h = record { at = λ s. inr (inl h) }

  give_up-Contained : (node : Node) (e : Failure) → Contained (give_up {rt = rt} node e)
  unfolding give_up
  give_up-Contained node e =
      bind-Contained _ _ (mark_failed-Quiet node.id)
        (λ u. raise_terminal-Contained (terminal e) (is_terminal-terminal e))

  module _ (next : String → Exec rt (Unit {0})) (h : (id : String) → Contained (next id)) where
    follow_first-Contained : (out : List Edge) → Contained (follow_first next out)
    unfolding follow_first pure transition_to
    follow_first-Contained [] = record { at = λ s. tt }
    follow_first-Contained (e ∷ es) = bind-Contained _ _ (modify-Quiet _) (λ u. h e.target_id)

    complete_parked_node-Contained :
        (node : Node) (out : List Edge) (patch : List (String × Value))
        → Contained (complete_parked_node next node out patch)
    unfolding complete_parked_node
    complete_parked_node-Contained node out patch =
        bind-Contained _ _ (patch_variables-Quiet patch) (λ u.
          bind-Contained _ _ (unpark-Quiet node.id NodeStatus.completed)
            (λ v. follow_first-Contained out))

    module _ (dispatch : Node → List Edge → Exec rt (Unit {0})) where
      after_retry-Contained :
          (again : Failure → Exec rt (Unit {0})) (r : Result (Unit {0}))
          → ((e : Failure) → Contained (again e))
          → Contained (after_retry next dispatch again r)
      unfolding after_retry pure
      after_retry-Contained again (ok u) k = record { at = λ s. tt }
      after_retry-Contained again (err e) k = elim (Bool-cases (is_terminal_admin_error e)) [
        | inl given_up ↦ rw given_up (raise_terminal-Contained e given_up)
        | inr live ↦ rw live (k e)
      ]

      resolve-Contained :
          (node : Node) (out : List Edge) (cause : Failure) (again : Failure → Exec rt (Unit {0}))
          (action : AdminAction) (patch : List (String × Value))
          → ((e : Failure) → Contained (again e))
          → Contained (resolve next dispatch node out cause again action patch)
      unfolding resolve
      resolve-Contained node out cause again abort p k = give_up-Contained node cause
      resolve-Contained node out cause again (other text) p k = k cause
      resolve-Contained node out cause again retry p k =
          bind-Contained _ _ (prepare_retry-Quiet node p) (λ u.
            bind-Contained _ _ (attempt-Quiet (dispatch node out))
              (λ result. after_retry-Contained again result k))
      resolve-Contained node out cause again AdminAction.complete p k =
          elim (Bool-cases (is_gateway node.type)) [
            | inl gate ↦ rw gate (k cause)
            | inr plain ↦ rw plain (complete_parked_node-Contained node out p)
          ]

      act_on-Contained :
          (node : Node) (out : List Edge) (cause : Failure) (again : Failure → Exec rt (Unit {0}))
          (sig : Result AdminResolutionSignal)
          → ((e : Failure) → Contained (again e))
          → Contained (act_on next dispatch node out cause again sig)
      unfolding act_on
      act_on-Contained node out cause again (err e) k = give_up-Contained node e
      act_on-Contained node out cause again (ok sig) k =
          bind-Contained _ _ (log-Quiet _)
            (λ u. resolve-Contained node out cause again sig.action sig.patch k)

      pub park-Contained :
          (n : ℕ) (node : Node) (out : List Edge) (cause : Failure)
          → Contained (park_node_for_admin next dispatch n node out cause)
      unfolding park_node_for_admin exhausted
      park-Contained zero node out cause = record { at = λ s. tt }
      park-Contained (suc n) node out cause = bind-Contained _ _ (begin_park-Quiet node cause) (λ u.
          bind-Contained _ _ (await_admin_resolution-Quiet node cause) (λ signal.
            act_on-Contained node out cause (park_node_for_admin next dispatch n node out) signal
              (park-Contained n node out)))
