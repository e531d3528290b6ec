-- ===== src/System/Tasks.antt =====
-- The tasks of a job under the reconciler of Tasks, controller/task.go: what a cluster does with a
-- task that is read or patched, and what one reconciliation of a task does to the view.
pub mod Leads
pub mod Gives
pub mod Steady
pub mod Moves
pub mod Both
pub mod Runs
pub mod Obedient
pub mod Advances
pub mod Ends
pub mod Drives
pub mod Begun
pub mod Begins
pub mod Once
use rufio.Prelude.{ℕ, ◌≡◌, ◌⊎◌, Bool, Option, none, List, ◌∷◌, ◌++◌}
use rufio.Prelude.Text.{Text}
use rufio.Api.Meta.{NamespacedName}
use rufio.Api.Task.{Task}
use rufio.Controller.Error.{ok}
use rufio.Controller.Env.{Env}
use rufio.Controller.Exec.{State}
use rufio.System.{View, IsFresh, IsLawful}

abbrev pub key_of : Task → NamespacedName
key_of t = record { namespace = t.object_meta.namespace; name = t.object_meta.name }

-- The list is `before`, `t` and `after`, and no other task has the name of `t`.
pub record IsAt (tasks before : List Task) (t : Task) (after : List Task) : Type 0 where
  pub split : tasks ≡ before ++ t ∷ after
  pub fresh_before : IsFresh t.object_meta.name before
  pub fresh_after : IsFresh t.object_meta.name after

-- A task of the job is read as it is. A patch, where its base is the task that is stored, changes
-- the status of the task or, where it fails, nothing; the calls of secrets and of the machine leave
-- the job and its tasks alone.
pub record IsTaskLawful (env : Env) (req : NamespacedName) (law : IsLawful env req) : Type 0 where
  pub get_task_result :
      (w : env.World) (before : List Task) (t : Task) (after : List Task)
      → IsAt (law.view w).tasks before t after
      → (env.get_task (key_of t) w).0 ≡ ok t
  pub patch_task_status_view :
      (u : Task) (w : env.World) (before : List Task) (t : Task) (after : List Task)
      → IsAt (law.view w).tasks before t after
      → u.object_meta ≡ t.object_meta
      → (law.view (env.patch_task_status u t w).1 ≡ law.view w)
        ⊎ (law.view (env.patch_task_status u t w).1
            ≡ record (law.view w) { tasks = before ++ record t { status = u.status } ∷ after })
  pub get_task_view :
      (k : NamespacedName) (w : env.World) → law.view (env.get_task k w).1 ≡ law.view w
  pub get_secret_view :
      (k : NamespacedName) (w : env.World) → law.view (env.get_secret k w).1 ≡ law.view w
  pub open_client_view :
      (timeout : ℕ) (b : env.Bmc) (w : env.World)
      → law.view (env.open_client timeout b w).1 ≡ law.view w
  pub close_client_view :
      (b : env.Bmc) (w : env.World) → law.view (env.close_client b w).1 ≡ law.view w
  pub get_power_state_view :
      (b : env.Bmc) (w : env.World) → law.view (env.get_power_state b w).1 ≡ law.view w
  pub set_power_state_view :
      (p : Text) (b : env.Bmc) (w : env.World) → law.view (env.set_power_state p b w).1 ≡ law.view w
  pub set_boot_device_view :
      (d : Text) (persistent efi : Bool) (b : env.Bmc) (w : env.World)
      → law.view (env.set_boot_device d persistent efi b w).1 ≡ law.view w
  pub set_virtual_media_view :
      (kind url : Text) (b : env.Bmc) (w : env.World)
      → law.view (env.set_virtual_media kind url b w).1 ≡ law.view w
