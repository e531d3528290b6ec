-- ===== src/Controller/Machine.antt =====
-- controller/machine.go: the reconciler of Machines. Objects are values, so `machine.DeepCopy()` is
-- the machine as it was read. Logging is left out.
pub mod Calls
pub mod Status
use rufio.Prelude.{ℕ, ◌*◌, not, Option, none, some, List, [], ◌∷◌, ◌++◌, if◌then◌else◌}
use rufio.Prelude.Text.{Text, codes}
use rufio.Api.Meta.{Time, is_zero, NamespacedName}
use rufio.Api.Machine.{
  Machine, PowerState, unknown, ConditionStatus, contactable, condition_true, condition_false,
  set_condition, has_status, with_machine_condition_message,
}
use rufio.Controller.Error.{Error, wrapf, message, Result, ok, err}
use rufio.Controller.Env.{Env}
use rufio.Controller.Exec.{
  Exec, Call, pure, perform, ◌>>=◌, ◌>>◌, finally, Reconciled, requeue_in, stop,
}
use rufio.Controller.Kube.{to_power_state}
use rufio.Controller.Client.{BmcOptions, ClientFunc}
use rufio.Controller.Login

-- Three minutes, in nanoseconds.
abbrev pub machine_requeue_interval : ℕ
machine_requeue_interval = 3 * 60 * 1_000_000_000

abbrev pub object_name : Text → Text → Text → Text
object_name kind namespace name = kind ++ (namespace ++ (codes "/" ++ name))

abbrev pub set_power : Machine → PowerState → Machine
set_power bm power = record bm { status = record bm.status { power = power } }

-- The status and the message of the condition Contactable, after the power state was read.
abbrev pub contactable_status : Option Error → ConditionStatus
contactable_status none = condition_true
contactable_status (some e) = condition_false

abbrev pub contactable_message : Option Error → Text
contactable_message none = []
contactable_message (some e) = message e

abbrev pub errors_of : Option Error → List Error
errors_of none = []
errors_of (some e) = e ∷ []

module _ (env : Env) where
  open env use {World, Bmc, new_aggregate}

  unfoldable pub patch_status : Machine → Machine → Exec World Bmc (Option Error)
  patch_status bm original = do
    failed ← perform (Call.patch_machine_status bm) (env.patch_machine_status bm original)
    elim failed [
      | none ↦ pure none
      | some e ↦ pure (
          some (
            wrapf
              (object_name (codes "failed to patch Machine ") bm.object_meta.namespace
                (bm.object_meta.name ++ codes " status: "))
              e))
    ]

  -- The machine with its power state, and the error.
  unfoldable pub update_power_state : Machine → Bmc → Exec World Bmc (Machine × Option Error)
  update_power_state bm bmc = do
    raw_state ← perform (Call.get_power_state bmc) (env.get_power_state bmc)
    elim raw_state [
      | ok raw ↦ pure (set_power bm (to_power_state raw), none)
      | err e ↦ do
        let bm' = set_power bm unknown
        let reason = codes "GetPowerStateFailed"
        let text = codes "get power state: " ++ message e
        perform (Call.eventf (codes "Warning") reason text)
            (env.eventf bm' (codes "Warning") reason text)
        pure (bm', some (wrapf (codes "get power state: ") e))
    ]

  -- SetCondition reads the clock only where the status changes; otherwise it uses no time.
  unfoldable pub set_contactable : Machine → ConditionStatus → Text → Exec World Bmc Machine
  set_contactable bm status text =
      let options = with_machine_condition_message text ∷ [] in
      if has_status bm contactable status
      then pure (set_condition bm contactable status 0 options)
      else (do
        now ← perform Call.read_clock env.now
        pure (set_condition bm contactable status now options))

  -- doReconcile after the power state was read, with the error of reading it.
  unfoldable pub report_power : Machine → Machine → Option Error → Exec World Bmc Reconciled
  report_power original bm power_err = do
    bm' ← set_contactable bm (contactable_status power_err) (contactable_message power_err)
    patched ← patch_status bm' original
    elim patched [
      | some e ↦ pure (stop (some (new_aggregate (errors_of power_err ++ e ∷ []))))
      | none ↦ pure (record { result = requeue_in machine_requeue_interval; error = none })
    ]

  unfoldable pub use_client : Machine → Bmc → Exec World Bmc Reconciled
  use_client original bmc = do
    updated ← update_power_state original bmc
    report_power original updated.0 updated.1

  -- The status after a connection that could not be opened.
  unfoldable pub not_contacted : Machine → Error → Exec World Bmc Reconciled
  not_contacted original e = do
    bm ← set_contactable original condition_false (message e)
    patched ← patch_status (set_power bm unknown) original
    elim patched [
      | some patch_err ↦ pure (stop (some (new_aggregate (patch_err ∷ e ∷ []))))
      | none ↦ pure (record { result = requeue_in machine_requeue_interval; error = none })
    ]

  unfoldable pub login : Machine → Exec World Bmc (Result (Text × Text × BmcOptions))
  login bm =
      Login.login env
        (wrapf (
          object_name (codes "resolving Machine ") bm.object_meta.namespace
            (bm.object_meta.name ++ codes " SecretReference: ")))
        bm.spec.connection

  -- doReconcile with the credentials: the client is made, used and closed.
  unfoldable pub connected_machine :
      ClientFunc env → Machine → Text → Text → BmcOptions → Exec World Bmc Reconciled
  connected_machine bmc_client bm username password opts = do
    connected ← bmc_client bm.spec.connection.host username password (some opts)
    elim connected [
      | err e ↦ not_contacted bm e
      | ok bmc ↦
          finally (use_client bm bmc) (perform (Call.close_client bmc) (env.close_client bmc))
    ]

  unfoldable pub do_reconcile : ClientFunc env → Machine → Exec World Bmc Reconciled
  do_reconcile bmc_client bm = do
    logged_in ← login bm
    elim logged_in [
      | err e ↦ pure (stop (some e))
      | ok (username, password, opts) ↦ connected_machine bmc_client bm username password opts
    ]

  -- Reconcile with the machine that was read.
  unfoldable pub reconcile_found : ClientFunc env → Machine → Exec World Bmc Reconciled
  reconcile_found bmc_client machine =
      if not (is_zero machine.object_meta.deletion_timestamp)
      then pure (stop none)
      else do_reconcile bmc_client machine

  unfoldable pub reconcile : ClientFunc env → NamespacedName → Exec World Bmc Reconciled
  reconcile bmc_client req = do
    found ← perform (Call.get_machine req) (env.get_machine req)
    elim found [
      | err e ↦ pure (stop (if env.is_not_found e then none else some e))
      | ok machine ↦ reconcile_found bmc_client machine
    ]
