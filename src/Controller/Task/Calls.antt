-- ===== src/Controller/Task/Calls.antt =====
-- Which calls the reconciler of Tasks makes.
use rufio.Prelude.{◌≡◌, refl, Bool, false, true, ◌⊎◌, Option, none, some, ◌∷◌, arith}
use rufio.Prelude.Text.{Text}
use rufio.Api.Meta.{Time, NamespacedName, is_zero}
use rufio.Api.Action.{Action, BootDevice, PowerAction}
use rufio.Api.Machine.{condition_true}
use rufio.Api.Task.{Task, has_condition, task_failed, task_completed}
use rufio.Controller.Error.{Error, ok}
use rufio.Controller.Env.{Env, CtrlResult}
use rufio.Controller.Exec.{Call, State, ◌>>=◌, Reconciled, done, stop}
use rufio.Controller.Exec.Keeps.{
  Quiet, Quiet-pure, Quiet-perform_with, Quiet-bind, Quiet-if, quiet_rules,
}
use rufio.Controller.Exec.Always.{SameCalls-IsPreorder, Always-Quiet, Quiet-Always}
use rufio.Controller.Task.Effects.{run_task-Always, check_task_status-Always}
use rufio.Controller.Client.{ClientFunc}
use rufio.Controller.Task.{
  mark_failed, mark_completed, mark_started, run_task, check_task_status, patch_status, fail_task,
  complete_task, finish_task, follow_task, start_task, use_client, is_settled, reconcile_found,
  reconcile,
}

module _ (env : Env) (p : Call env.Bmc → Bool) where
  open env use {World, Bmc}

  -- The test passes no action.
  module _ (hp : (x : PowerAction) (b : Bmc) → p (Call.set_power_state x b) ≡ false)
      (hb : (d : BootDevice) (x y : Bool) (b : Bmc) → p (Call.set_boot_device d x y b) ≡ false)
      (hm : (k u : Text) (b : Bmc) → p (Call.set_virtual_media k u b) ≡ false) where
    pub run_task-Quiet : (a : Action) (b : Bmc) → Quiet p (run_task env a b)
    run_task-Quiet a b = Always-Quiet p _ (
        run_task-Always env (SameCalls-IsPreorder p)
          (λ x b. Quiet-Always p _ (Quiet-perform_with _ _ (λ r. hp x b)))
          (λ d x y b. Quiet-Always p _ (Quiet-perform_with _ _ (λ r. hb d x y b)))
          (λ k u b. Quiet-Always p _ (Quiet-perform_with _ _ (λ r. hm k u b))) a b)

  module _ (hg : (b : Bmc) → p (Call.get_power_state b) ≡ false) where
    pub check_task_status-Quiet : (a : Action) (b : Bmc) → Quiet p (check_task_status env a b)
    check_task_status-Quiet a b = Always-Quiet p _ (
        check_task_status-Always env (SameCalls-IsPreorder p)
          (λ b. Quiet-Always p _ (Quiet-perform_with _ _ (λ r. hg b))) a b)

  pub patch_status-Quiet :
      (task original : Task)
      → p (Call.patch_task_status task) ≡ false
      → Quiet p (patch_status env task original)
  unfolding patch_status
  patch_status-Quiet task original ht =
      Quiet-bind _ _ (search (quiet_rules, ht))
        (elim [ none ↦ Quiet-pure _ | some e ↦ Quiet-pure _ ])

  pub fail_task-Quiet :
      (task original : Task) (text : Text) (e : Error)
      → p (Call.patch_task_status (mark_failed task text)) ≡ false
      → Quiet p (fail_task env task original text e)
  unfolding fail_task
  fail_task-Quiet task original text e ht =
      Quiet-bind _ _ (patch_status-Quiet _ _ ht)
        (elim [ none ↦ Quiet-pure _ | some e ↦ Quiet-pure _ ])

  module _ (task : Task) (hc : p Call.read_clock ≡ false)
      (hf : (m : Text) → p (Call.patch_task_status (mark_failed task m)) ≡ false)
      (ht : (now : Time) → p (Call.patch_task_status (mark_completed task now)) ≡ false)
      (hg : (b : Bmc) → p (Call.get_power_state b) ≡ false) where
    complete_task-Quiet : (r : CtrlResult) → Quiet p (complete_task env task r)
    unfolding complete_task
    complete_task-Quiet r =
        Quiet-bind _ _ (search (quiet_rules, hc))
          λ now. Quiet-bind _ _ (patch_status-Quiet _ _ (ht now)) (λ patched. Quiet-pure _)

    finish_task-Quiet : (r : Reconciled) → Quiet p (finish_task env task r)
    unfolding finish_task
    finish_task-Quiet r = go r.error refl
      where
        go : (e : Option Error) → r.error ≡ e → Quiet p (finish_task env task r)
        go none e = rw (e, finish_task) (Quiet-if _ _ _ (Quiet-pure _) (complete_task-Quiet _))
        go (some x) e = rw (e, finish_task) (Quiet-pure _)

    pub follow_task-Quiet : (t : Time) (b : Bmc) → Quiet p (follow_task env task t b)
    unfolding follow_task
    follow_task-Quiet t b = Quiet-bind _ _ (search (quiet_rules, hc)) λ now.
        Quiet-if _ _ _ (fail_task-Quiet _ _ _ _ (hf _))
          (Quiet-bind _ _ (check_task_status-Quiet hg _ b) finish_task-Quiet)

  module _ (task : Task) (hc : p Call.read_clock ≡ false)
      (hs : (now : Time) → p (Call.patch_task_status (mark_started task now)) ≡ false)
      (hf : (now : Time) (m : Text)
        → p (Call.patch_task_status (mark_failed (mark_started task now) m)) ≡ false)
      (hp : (x : PowerAction) (b : Bmc) → p (Call.set_power_state x b) ≡ false)
      (hb : (d : BootDevice) (x y : Bool) (b : Bmc) → p (Call.set_boot_device d x y b) ≡ false)
      (hm : (k u : Text) (b : Bmc) → p (Call.set_virtual_media k u b) ≡ false) where
    pub start_task-Quiet : (b : Bmc) → Quiet p (start_task env task b)
    unfolding start_task
    start_task-Quiet b = Quiet-bind _ _ (search (quiet_rules, hc)) λ now.
        Quiet-bind _ _ (run_task-Quiet hp hb hm _ b) (elim [
          | some e ↦ fail_task-Quiet _ _ _ _ (hf now _)
          | none ↦ Quiet-bind _ _ (patch_status-Quiet _ _ (hs now)) (λ patched. Quiet-pure _)
        ])

  pub use_client-Quiet :
      (task : Task) (b : Bmc)
      → p Call.read_clock ≡ false
      → ((t : Task) → p (Call.patch_task_status t) ≡ false)
      → ((x : PowerAction) (b : Bmc) → p (Call.set_power_state x b) ≡ false)
      → ((d : BootDevice) (x y : Bool) (b : Bmc) → p (Call.set_boot_device d x y b) ≡ false)
      → ((k u : Text) (b : Bmc) → p (Call.set_virtual_media k u b) ≡ false)
      → ((b : Bmc) → p (Call.get_power_state b) ≡ false)
      → Quiet p (use_client env task b)
  unfolding use_client
  use_client-Quiet task b hc ht hp hb hm hg =
      Quiet-if _ _ _ (follow_task-Quiet task hc (λ m. ht _) (λ now. ht _) hg _ b)
        (start_task-Quiet task hc (λ now. ht _) (λ now m. ht _) hp hb hm b)

module _ (env : Env) where
  open env use {World, Bmc}

  -- A reconciliation of a Task that is being deleted, or has the condition Failed or Completed,
  -- makes no call but the one that reads the task, and ends with no error and no requeue.
  pub reconcile-settled_task :
      (factory : ClientFunc env) (req : NamespacedName) (s : State World Bmc) (task : Task)
      → (env.get_task req s.world).0 ≡ ok task
      → (is_zero task.object_meta.deletion_timestamp ≡ false)
        ⊎ (has_condition task task_failed condition_true ≡ true)
        ⊎ (has_condition task task_completed condition_true ≡ true)
      → reconcile env factory req s ≡ (
        done (stop none),
        record { world = (env.get_task req s.world).1; calls = Call.get_task req ∷ s.calls },
      )
  unfolding reconcile reconcile_found is_settled ◌>>=◌
  reconcile-settled_task factory req s task got settled = rw got (ground arith)
