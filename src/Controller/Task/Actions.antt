-- ===== src/Controller/Task/Actions.antt =====
-- When the reconciler of Tasks runs an action on a machine.
use rufio.Prelude.{◌≡◌, refl, false, not, ℕ}
use rufio.Api.Meta.{NamespacedName, is_zero}
use rufio.Api.Task.{Task}
use rufio.Controller.Error.{ok, err}
use rufio.Controller.Env.{Env}
use rufio.Controller.Exec.{State, ◌>>=◌}
use rufio.Controller.Exec.Keeps.{
  is_action, calls_of, Quiet, Quiet-pure, Quiet-bind, Quiet-if, Quiet-finally, quiet_rules,
}
use rufio.Controller.Login.Calls.{login-Quiet}
use rufio.Controller.Client.Calls.{new_client_func-Quiet}
use rufio.Controller.Client.{new_client_func}
use rufio.Controller.Task.{
  use_client, login, connected_task, is_settled, do_reconcile, reconcile_found, reconcile,
}
use rufio.Controller.Task.Calls.{fail_task-Quiet, follow_task-Quiet}

module _ (env : Env) (timeout : ℕ) where
  open env use {World, Bmc}

  use_client-no_action :
      (task : Task) (b : Bmc)
      → is_zero task.status.start_time ≡ false
      → Quiet is_action (use_client env task b)
  unfolding use_client
  use_client-no_action task b started =
      rw started
        (follow_task-Quiet env is_action task refl (λ m. refl) (λ now. refl) (λ b. refl) _ b)

  do_reconcile-no_action :
      (task : Task)
      → is_zero task.status.start_time ≡ false
      → Quiet is_action (do_reconcile env (new_client_func env timeout) task)
  unfolding do_reconcile login connected_task
  do_reconcile-no_action task started =
      Quiet-bind _ _ (login-Quiet env is_action (λ k. refl) _ _) (elim [
        | err e ↦ Quiet-pure _
        | ok (u, w, o) ↦
            Quiet-bind _ _ (new_client_func-Quiet env timeout is_action _ u w _ (λ b e. refl))
              (elim [
                | err e ↦ fail_task-Quiet env is_action _ _ _ _ refl
                | ok b ↦
                    Quiet-finally _ _ (use_client-no_action task b started) (search quiet_rules)
              ])
      ])

  reconcile_found-no_action :
      (task : Task)
      → is_zero task.status.start_time ≡ false
      → Quiet is_action (reconcile_found env (new_client_func env timeout) task)
  unfolding reconcile_found
  reconcile_found-no_action task started =
      Quiet-if (not (is_zero task.object_meta.deletion_timestamp)) _ _ (Quiet-pure _)
        (Quiet-if (is_settled task) _ _ (Quiet-pure _) (do_reconcile-no_action task started))

  -- A reconciliation of a Task that has a start time makes no call of an action on the machine: an
  -- action is run only where no start was recorded.
  pub reconcile-no_action :
      (req : NamespacedName) (s : State World Bmc) (task : Task)
      → (env.get_task req s.world).0 ≡ ok task
      → is_zero task.status.start_time ≡ false
      → calls_of is_action (reconcile env (new_client_func env timeout) req s).1
        ≡ calls_of is_action s
  unfolding reconcile ◌>>=◌
  reconcile-no_action req s task got started =
      rw got ((reconcile_found-no_action task started).at _)
