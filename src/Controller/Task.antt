-- ===== src/Controller/Task.antt =====
-- controller/task.go: the reconciler of Tasks. Objects are values, so `task.DeepCopy()` is the task
-- as it was read, and the task that is changed and patched is another. Logging is left out.
pub mod Effects
pub mod Calls
pub mod Patches
pub mod Closes
pub mod Actions
pub mod Status
pub mod Outcomes
pub mod Recorded
use rufio.Prelude.{
  ℕ, ◌-◌, ◌*◌, min, Bool, false, not, ◌||◌, Option, none, some, List, [], ◌∷◌, ◌++◌, leb,
  if◌then◌else◌,
}
use rufio.Prelude.Int.{ℤ, pos, negsuc, leb_ℤ, max_int64}
use rufio.Prelude.Text.{Text, codes, text_eq}
use rufio.Prelude.Decimal.{itoa}
use rufio.Api.Meta.{Time, is_zero, NamespacedName}
use rufio.Api.Action.{
  Action, PowerAction, power_on, power_hard_off, power_soft_off, BootDevice,
  OneTimeBootDeviceAction, VirtualMediaAction,
}
use rufio.Api.Machine.{PowerState, on, off, condition_true}
use rufio.Api.Task.{
  Task, task_completed, task_failed, set_condition, has_condition, with_task_condition_message,
}
use rufio.Controller.Error.{Error, errorf, wrapf, message, Result, ok, err}
use rufio.Controller.Env.{Env, CtrlResult}
use rufio.Controller.Exec.{
  Exec, Call, pure, fault, perform, ◌>>=◌, finally, Reconciled, no_requeue, requeue_in, stop,
}
use rufio.Controller.Kube.{to_power_state}
use rufio.Controller.Client.{BmcOptions, ClientFunc}
use rufio.Controller.Login

-- Durations in nanoseconds.
abbrev pub second : ℕ
second = 1_000_000_000

abbrev pub power_action_requeue_after : ℕ
power_action_requeue_after = 3 * second

abbrev pub task_timeout : ℕ
task_timeout = 10 * 60 * second

-- `time.Since(start)` at the time `now`: a `time.Duration`, which stops at the ends of int64.
unfoldable pub since : Time → Time → ℤ
since start now =
    if leb start now
    then pos (min (now - start) max_int64)
    else negsuc (min (start - now - 1) max_int64)

-- `fmt.Errorf("bmc task timeout: %d", d)`.
unfoldable pub timeout_error : ℤ → Error
unfolding itoa
timeout_error d = errorf (codes "bmc task timeout: " ++ itoa d)

-- The text `kind namespace/name` that the errors of the reconciler name their object by.
abbrev pub object_name : Text → Text → Text → Text
object_name kind namespace name = kind ++ (namespace ++ (codes "/" ++ name))

-- The switch of checkTaskStatus.
unfoldable pub await_state : PowerAction → PowerState → CtrlResult
await_state action state =
    if text_eq action power_on
    then (if not (text_eq state on) then requeue_in power_action_requeue_after else no_requeue)
    else if text_eq action power_hard_off || text_eq action power_soft_off
    then (if not (text_eq off state) then requeue_in power_action_requeue_after else no_requeue)
    else no_requeue

-- The test for a noop in Reconcile.
unfoldable pub is_settled : Task → Bool
is_settled task =
    has_condition task task_failed condition_true
    || has_condition task task_completed condition_true

-- The task with its failure recorded.
unfoldable pub mark_failed : Task → Text → Task
mark_failed task m =
    set_condition task task_failed condition_true (with_task_condition_message m ∷ [])

unfoldable pub mark_completed : Task → Time → Task
mark_completed task now =
    set_condition (record task { status = record task.status { completion_time = some now } })
      task_completed condition_true []

unfoldable pub mark_started : Task → Time → Task
mark_started task now = record task { status = record task.status { start_time = some now } }

-- `task.Status.StartTime.Time`, where the pointer is not nil.
abbrev pub time_of : Option Time → Time
time_of none = 0
time_of (some t) = t

abbrev pub error_of : {A : Type 0} → Text → Result A → Option Error
error_of what (ok a) = none
error_of what (err e) = some (wrapf what e)

module _ (env : Env) where
  open env use {World, Bmc, new_aggregate, result_is_zero}

  abbrev read_clock : Exec World Bmc Time
  read_clock = perform Call.read_clock env.now

  unfoldable pub set_power : Option PowerAction → Bmc → Exec World Bmc (Option Error)
  set_power none bmc = pure none
  set_power (some p) bmc = do
    r ← perform (Call.set_power_state p bmc) (env.set_power_state p bmc)
    pure (error_of (codes "failed to perform PowerAction: ") r)

  -- `Devices[0]` panics where there is no device.
  unfoldable pub boot_first : List BootDevice → Bool → Bmc → Exec World Bmc (Option Error)
  boot_first [] efi_boot bmc = fault
  boot_first (device ∷ _) efi_boot bmc = do
    r ←
        perform (Call.set_boot_device device false efi_boot bmc)
          (env.set_boot_device device false efi_boot bmc)
    pure (error_of (codes "failed to perform OneTimeBootDeviceAction: ") r)

  unfoldable pub set_boot : Option OneTimeBootDeviceAction → Bmc → Exec World Bmc (Option Error)
  set_boot none bmc = pure none
  set_boot (some a) bmc = boot_first a.devices a.efi_boot bmc

  unfoldable pub set_media : Option VirtualMediaAction → Bmc → Exec World Bmc (Option Error)
  set_media none bmc = pure none
  set_media (some a) bmc = do
    r ←
        perform (Call.set_virtual_media a.kind a.media_url bmc)
          (env.set_virtual_media a.kind a.media_url bmc)
    pure (error_of (codes "failed to perform SetVirtualMedia: ") r)

  unfoldable pub run_task : Action → Bmc → Exec World Bmc (Option Error)
  run_task task bmc = do
    powered ← set_power task.power_action bmc
    elim powered [
      | some e ↦ pure (some e)
      | none ↦ do
        booted ← set_boot task.one_time_boot_device_action bmc
        elim booted [ some e ↦ pure (some e) | none ↦ set_media task.virtual_media_action bmc ]
    ]

  unfoldable pub check_power : Option PowerAction → Bmc → Exec World Bmc Reconciled
  check_power none bmc = pure (stop none)
  check_power (some action) bmc = do
    raw_state ← perform (Call.get_power_state bmc) (env.get_power_state bmc)
    elim raw_state [
      | err e ↦ pure (stop (some (wrapf (codes "failed to get power state: ") e)))
      | ok raw ↦ pure (record { result = await_state action (to_power_state raw); error = none })
    ]

  -- Only a power action has a status that can be checked.
  unfoldable pub check_task_status : Action → Bmc → Exec World Bmc Reconciled
  check_task_status task bmc = check_power task.power_action bmc

  unfoldable pub patch_status : Task → Task → Exec World Bmc (Option Error)
  patch_status task original = do
    failed ← perform (Call.patch_task_status task) (env.patch_task_status task original)
    elim failed [
      | none ↦ pure none
      | some e ↦ pure (
          some (
            wrapf
              (object_name (codes "failed to patch Task ") task.object_meta.namespace
                (task.object_meta.name ++ codes " status: "))
              e))
    ]

  -- The failure is recorded with its text and returned, with the error of the patch if that fails.
  unfoldable pub fail_task : Task → Task → Text → Error → Exec World Bmc Reconciled
  fail_task task original text e = do
    patched ← patch_status (mark_failed task text) original
    elim patched [
      | some patch_err ↦ pure (stop (some (new_aggregate (patch_err ∷ e ∷ []))))
      | none ↦ pure (stop (some e))
    ]

  unfoldable pub complete_task : Task → CtrlResult → Exec World Bmc Reconciled
  complete_task task result = do
    now ← read_clock
    patched ← patch_status (mark_completed task now) task
    pure (record { result = result; error = patched })

  -- What follows from the status of the action: an error, another round, or completion.
  unfoldable pub finish_task : Task → Reconciled → Exec World Bmc Reconciled
  finish_task task checked = elim checked.error [
    | some e ↦ pure (record checked { error = some (wrapf (codes "bmc task status check: ") e) })
    | none ↦
        if not (result_is_zero checked.result)
        then pure (record checked { error = none })
        else complete_task task checked.result
  ]

  -- A task with a start time: it has run too long, or its status is checked.
  unfoldable pub follow_task : Task → Time → Bmc → Exec World Bmc Reconciled
  follow_task task start bmc = do
    now ← read_clock
    let running_time = since start now
    let timed_out = timeout_error running_time
    if leb_ℤ (pos task_timeout) running_time
        then fail_task task task (message timed_out) timed_out
        else (do checked ← check_task_status task.spec.task bmc; finish_task task checked)

  -- A new task: its action is run.
  unfoldable pub start_task : Task → Bmc → Exec World Bmc Reconciled
  start_task task bmc = do
    now ← read_clock
    let started = mark_started task now
    failed ← run_task task.spec.task bmc
    elim failed [
      | some e ↦ fail_task started task (message e) e
      | none ↦ do patched ← patch_status started task; pure (stop patched)
    ]

  unfoldable pub use_client : Task → Bmc → Exec World Bmc Reconciled
  use_client task bmc =
      if not (is_zero task.status.start_time)
      then follow_task task (time_of task.status.start_time) bmc
      else start_task task bmc

  unfoldable pub login : Task → Exec World Bmc (Result (Text × Text × BmcOptions))
  login task =
      Login.login env
        (wrapf (
          object_name (codes "resolving connection secret for task ") task.object_meta.namespace
            (task.object_meta.name ++ codes ": ")))
        task.spec.connection

  -- doReconcile with the credentials: the client is made, used and closed.
  unfoldable pub connected_task :
      ClientFunc env → Task → Text → Text → BmcOptions → Exec World Bmc Reconciled
  connected_task bmc_client_factory task username password opts = do
    connected ← bmc_client_factory task.spec.connection.host username password (some opts)
    elim connected [
      | err e ↦ fail_task task task (codes "Failed to connect to BMC: " ++ message e) e
      | ok bmc ↦
          finally (use_client task bmc) (perform (Call.close_client bmc) (env.close_client bmc))
    ]

  unfoldable pub do_reconcile : ClientFunc env → Task → Exec World Bmc Reconciled
  do_reconcile bmc_client_factory task = do
    logged_in ← login task
    elim logged_in [
      | err e ↦ pure (stop (some e))
      | ok (username, password, opts) ↦
          connected_task bmc_client_factory task username password opts
    ]

  -- Reconcile with the task that was read.
  unfoldable pub reconcile_found : ClientFunc env → Task → Exec World Bmc Reconciled
  reconcile_found bmc_client_factory task =
      if not (is_zero task.object_meta.deletion_timestamp)
      then pure (stop none)
      else if is_settled task
      then pure (stop none)
      else do_reconcile bmc_client_factory task

  unfoldable pub reconcile : ClientFunc env → NamespacedName → Exec World Bmc Reconciled
  reconcile bmc_client_factory req = do
    found ← perform (Call.get_task req) (env.get_task req)
    elim found [
      | err e ↦ pure (stop (if env.is_not_found e then none else some e))
      | ok task ↦ reconcile_found bmc_client_factory task
    ]
