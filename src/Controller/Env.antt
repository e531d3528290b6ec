-- ===== src/Controller/Env.antt =====
-- What the package controller calls and does not implement: the Kubernetes client and its helpers,
-- the clock, the event recorder, bmclib, safecast and mergo. The world is whatever their calls
-- change; between two calls other controllers may have changed it too, which is part of what an
-- operation does to it.
use rufio.Prelude.{ℕ, Bool, Option, List}
use rufio.Prelude.Int.{ℤ}
use rufio.Prelude.Text.{Text}
use rufio.Api.Meta.{Time, NamespacedName, OwnerReference}
use rufio.Api.Machine.{Machine}
use rufio.Api.Job.{Job}
use rufio.Api.Task.{Task}
use rufio.Controller.Error.{Error, Result}
use rufio.Controller.Bmc.{BmcOption, Provider}

-- `ctrl.Result`; a duration is in nanoseconds.
pub record CtrlResult : Type 0 where
  pub requeue : Bool
  pub requeue_after : ℕ

pub record Env : Type 1 where
  pub World : Type 0
  -- `client.Client`; a status patch is given the object and the copy that it is a patch from
  pub get_machine : NamespacedName → World → Result Machine × World
  pub get_job : NamespacedName → World → Result Job × World
  pub get_task : NamespacedName → World → Result Task × World
  -- the `Data` of the secret
  pub get_secret : NamespacedName → World → Result (List (Text × Text)) × World
  -- the tasks whose index entry is the first text, in the namespace of the second
  pub list_tasks : Text → Text → World → Result (List Task) × World
  pub create_task : Task → World → Option Error × World
  pub patch_machine_status : Machine → Machine → World → Option Error × World
  pub patch_job_status : Job → Job → World → Option Error × World
  pub patch_task_status : Task → Task → World → Option Error × World
  -- `apierrors.IsNotFound`, `utilerrors.NewAggregate`, `NamespacedName.String`, `Result.IsZero`,
  -- `metav1.GetControllerOf`, `GroupVersion.String`
  pub is_not_found : Error → Bool
  pub new_aggregate : List Error → Error
  pub namespaced_name_string : NamespacedName → Text
  pub result_is_zero : CtrlResult → Bool
  pub get_controller_of : Task → Option OwnerReference
  pub group_version_string : Text → Text → Text
  -- `metav1.Now` and the clock of `time.Since`; `EventRecorder.Eventf`
  pub now : World → Time × World
  pub eventf : Machine → Text → Text → Text → World → Unit {0} × World
  -- bmclib: a client is made, told which drivers to prefer, opened within a time, used and closed
  pub Bmc : Type 0
  pub new_client : Text → Text → Text → List BmcOption → Bmc
  pub prefer_driver : List Text → Bmc → Bmc
  pub open_client : ℕ → Bmc → World → Option Error × World
  pub close_client : Bmc → World → Option Error × World
  pub get_power_state : Bmc → World → Result Text × World
  pub set_power_state : Text → Bmc → World → Result Bool × World
  pub set_boot_device : Text → Bool → Bool → Bmc → World → Result Bool × World
  pub set_virtual_media : Text → Text → Bmc → World → Result Bool × World
  -- `safecast.ToUint32`; `mergo.Merge` into its first argument, with its error dropped
  pub to_uint32 : ℤ → Result ℕ
  pub merge : Provider → Provider → Provider
