-- ===== src/Controller/Task/Closes.antt =====
-- The bmclib clients that the reconciler of Tasks opens and closes.
use rufio.Prelude.{◌≡◌, refl, not, arith, ℕ}
use rufio.Prelude.Text.{Text}
use rufio.Api.Meta.{NamespacedName, is_zero}
use rufio.Api.Task.{Task}
use rufio.Controller.Error.{ok, err}
use rufio.Controller.Env.{Env}
use rufio.Controller.Exec.{State}
use rufio.Controller.Exec.Keeps.{is_opened, is_closed, calls_of, quiet_rules}
use rufio.Controller.Exec.Balance.{
  Balanced, Balanced-Quiet, Balanced-pure, Balanced-bind, Balanced-if,
}
use rufio.Controller.Login.Calls.{login-Quiet}
use rufio.Controller.Client.Calls.{with_client-Balanced, finally-Closes}
use rufio.Controller.Client.{BmcOptions, new_client_func}
use rufio.Controller.Task.{
  login, connected_task, is_settled, do_reconcile, reconcile_found, reconcile,
}
use rufio.Controller.Task.Calls.{fail_task-Quiet, use_client-Quiet}

module _ (env : Env) (timeout : ℕ) where
  open env use {World, Bmc}

  connected-Balanced :
      (task : Task) (u w : Text) (o : BmcOptions)
      → Balanced (connected_task env (new_client_func env timeout) task u w o)
  unfolding connected_task
  connected-Balanced task u w o =
      with_client-Balanced env timeout _ u w _ _
        (λ e.
          Balanced-Quiet _ (fail_task-Quiet env is_opened _ _ _ _ refl)
            (fail_task-Quiet env is_closed _ _ _ _ refl))
        (λ b.
          finally-Closes env timeout _ b
            (use_client-Quiet env is_opened task b refl (λ t. refl) (λ x b. refl) (λ d x y b. refl)
              (λ k u b. refl) (λ b. refl))
            (use_client-Quiet env is_closed task b refl (λ t. refl) (λ x b. refl) (λ d x y b. refl)
              (λ k u b. refl) (λ b. refl)))

  do_reconcile-Balanced :
      (task : Task) → Balanced (do_reconcile env (new_client_func env timeout) task)
  unfolding do_reconcile login
  do_reconcile-Balanced task =
      Balanced-bind _ _
        (Balanced-Quiet _ (login-Quiet env is_opened (λ k. refl) _ _)
          (login-Quiet env is_closed (λ k. refl) _ _))
        (elim [ err e ↦ Balanced-pure _ | ok (u, w, o) ↦ connected-Balanced task u w o ])

  reconcile_found-Balanced :
      (task : Task) → Balanced (reconcile_found env (new_client_func env timeout) task)
  unfolding reconcile_found
  reconcile_found-Balanced task =
      Balanced-if (not (is_zero task.object_meta.deletion_timestamp)) _ _ (Balanced-pure _)
        (Balanced-if (is_settled task) _ _ (Balanced-pure _) (do_reconcile-Balanced task))

  reconcile-Balanced :
      (req : NamespacedName) → Balanced (reconcile env (new_client_func env timeout) req)
  unfolding reconcile
  reconcile-Balanced req =
      Balanced-bind _ _ (Balanced-Quiet _ (search quiet_rules) (search quiet_rules))
        (elim [ err e ↦ Balanced-pure _ | ok task ↦ reconcile_found-Balanced task ])

  -- A reconciliation of a Task, with NewClientFunc's function, closes exactly as many bmclib
  -- clients as it has opened, whatever the calls return, and also where it panics on a boot device
  -- action with no device.
  pub reconcile-closes_task :
      (req : NamespacedName) (s : State World Bmc)
      → calls_of is_opened s ≡ calls_of is_closed s
      → let s' = (reconcile env (new_client_func env timeout) req s).1 in
        calls_of is_opened s' ≡ calls_of is_closed s'
  reconcile-closes_task req s h = omega (arith, (reconcile-Balanced req).at s)
