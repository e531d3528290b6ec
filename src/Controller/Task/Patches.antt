-- ===== src/Controller/Task/Patches.antt =====
-- How often the reconciler of Tasks patches a status.
use rufio.Prelude.{◌≡◌, ◌+◌, ◌≤◌, refl, not, Option, none, some, ℕ}
use rufio.Prelude.Text.{Text}
use rufio.Api.Meta.{Time, NamespacedName, is_zero}
use rufio.Api.Task.{Task}
use rufio.Controller.Error.{Error, ok, err}
use rufio.Controller.Env.{Env, CtrlResult}
use rufio.Controller.Exec.{State, Reconciled}
use rufio.Controller.Exec.Keeps.{is_patch, calls_of, quiet_rules}
use rufio.Controller.Exec.Patches.{
  AtMost, AtMost-bind, AtMost-pure, AtMost-perform_with, AtMost-Quiet-bind, AtMost-if,
  AtMost-finally,
}
use rufio.Controller.Login.Calls.{login-Quiet}
use rufio.Controller.Client.Calls.{new_client_func-Quiet}
use rufio.Controller.Client.{new_client_func}
use rufio.Controller.Task.{
  patch_status, fail_task, complete_task, finish_task, follow_task, start_task, use_client, login,
  connected_task, is_settled, do_reconcile, reconcile_found, reconcile,
}
use rufio.Controller.Task.Calls.{check_task_status-Quiet, run_task-Quiet}

-- At most one patch.
module _ (env : Env) where
  open env use {World, Bmc}

  patch_status-AtMost : (task original : Task) → AtMost 1 is_patch (patch_status env task original)
  unfolding patch_status
  patch_status-AtMost task original =
      AtMost-bind 1 0 _ _ (AtMost-perform_with 0 _ _)
        (elim [ none ↦ AtMost-pure 0 _ | some e ↦ AtMost-pure 0 _ ])

  fail_task-AtMost :
      (task original : Task) (text : Text) (e : Error)
      → AtMost 1 is_patch (fail_task env task original text e)
  unfolding fail_task
  fail_task-AtMost task original text e =
      AtMost-bind 1 0 _ _ (patch_status-AtMost _ _)
        (elim [ none ↦ AtMost-pure 0 _ | some e ↦ AtMost-pure 0 _ ])

  complete_task-AtMost :
      (task : Task) (r : CtrlResult) → AtMost 1 is_patch (complete_task env task r)
  unfolding complete_task
  complete_task-AtMost task r =
      AtMost-Quiet-bind 1 _ _ (search quiet_rules)
        λ now. AtMost-bind 1 0 _ _ (patch_status-AtMost _ _) (λ patched. AtMost-pure 0 _)

  finish_task-AtMost : (task : Task) (r : Reconciled) → AtMost 1 is_patch (finish_task env task r)
  unfolding finish_task
  finish_task-AtMost task r = go r.error refl
    where
      go : (e : Option Error) → r.error ≡ e → AtMost 1 is_patch (finish_task env task r)
      go none e =
          rw (e, finish_task) (AtMost-if 1 _ _ _ (AtMost-pure 1 _) (complete_task-AtMost _ _))
      go (some x) e = rw (e, finish_task) (AtMost-pure 1 _)

  follow_task-AtMost :
      (task : Task) (t : Time) (b : Bmc) → AtMost 1 is_patch (follow_task env task t b)
  unfolding follow_task
  follow_task-AtMost task t b = AtMost-Quiet-bind 1 _ _ (search quiet_rules) λ now.
      AtMost-if 1 _ _ _ (fail_task-AtMost _ _ _ _) (
        AtMost-Quiet-bind 1 _ _ (check_task_status-Quiet env is_patch (λ b. refl) _ b)
          (finish_task-AtMost task))

  start_task-AtMost : (task : Task) (b : Bmc) → AtMost 1 is_patch (start_task env task b)
  unfolding start_task
  start_task-AtMost task b = AtMost-Quiet-bind 1 _ _ (search quiet_rules) λ now.
      AtMost-Quiet-bind 1 _ _
        (run_task-Quiet env is_patch (λ x b. refl) (λ d x y b. refl) (λ k u b. refl) _ b)
        (elim [
          | some e ↦ fail_task-AtMost _ _ _ _
          | none ↦ AtMost-bind 1 0 _ _ (patch_status-AtMost _ _) (λ patched. AtMost-pure 0 _)
        ])

  use_client-AtMost : (task : Task) (b : Bmc) → AtMost 1 is_patch (use_client env task b)
  unfolding use_client
  use_client-AtMost task b =
      AtMost-if 1 _ _ _ (follow_task-AtMost task _ b) (start_task-AtMost task b)

module _ (env : Env) (timeout : ℕ) where
  open env use {World, Bmc}

  do_reconcile-AtMost :
      (task : Task) → AtMost 1 is_patch (do_reconcile env (new_client_func env timeout) task)
  unfolding do_reconcile login connected_task
  do_reconcile-AtMost task =
      AtMost-Quiet-bind 1 _ _ (login-Quiet env is_patch (λ k. refl) _ _) (elim [
        | err e ↦ AtMost-pure 1 _
        | ok (u, w, o) ↦
            AtMost-Quiet-bind 1 _ _
              (new_client_func-Quiet env timeout is_patch _ u w _ (λ b e. refl))
              (elim [
                | err e ↦ fail_task-AtMost env _ _ _ _
                | ok b ↦ AtMost-finally 1 _ _ (use_client-AtMost env task b) (search quiet_rules)
              ])
      ])

  reconcile_found-AtMost :
      (task : Task) → AtMost 1 is_patch (reconcile_found env (new_client_func env timeout) task)
  unfolding reconcile_found
  reconcile_found-AtMost task =
      AtMost-if 1 (not (is_zero task.object_meta.deletion_timestamp)) _ _ (AtMost-pure 1 _)
        (AtMost-if 1 (is_settled task) _ _ (AtMost-pure 1 _) (do_reconcile-AtMost task))

  reconcile-AtMost :
      (req : NamespacedName) → AtMost 1 is_patch (reconcile env (new_client_func env timeout) req)
  unfolding reconcile
  reconcile-AtMost req =
      AtMost-Quiet-bind 1 _ _ (search quiet_rules)
        (elim [ err e ↦ AtMost-pure 1 _ | ok task ↦ reconcile_found-AtMost task ])

  -- A reconciliation of a Task, with NewClientFunc's function, makes at most one status patch,
  -- whatever the calls return, and also where it panics.
  pub reconcile-one_patch :
      (req : NamespacedName) (s : State World Bmc)
      → calls_of is_patch (reconcile env (new_client_func env timeout) req s).1
        ≤ 1 + calls_of is_patch s
  reconcile-one_patch req = (reconcile-AtMost req).at
