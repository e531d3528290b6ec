-- ===== src/System/Tasks/Obedient.antt =====
-- A cluster in which the machine can be reached and does what it is told.
use rufio.Prelude.{ℕ, ◌+◌, ◌<◌, ◌≡◌, ◌∙◌, Bool, true, none, some, List, [], ◌∷◌, ◌++◌}
use rufio.Prelude.Text.{Text}
use rufio.Api.Meta.{NamespacedName, Time, is_zero}
use rufio.Api.Action.{PowerAction}
use rufio.Api.ProviderOpts.{Connection}
use rufio.Api.Task.{Task}
use rufio.Controller.Error.{Error, ok, err}
use rufio.Controller.Env.{Env}
use rufio.Controller.Exec.{no_requeue}
use rufio.Controller.Kube.{credentials, to_power_state}
use rufio.Controller.Login.{login}
use rufio.Controller.Task.{task_timeout}
use rufio.Controller.Task.Outcomes.{reached}
use rufio.System.{View, running, phase_of_task, IsLawful}
use rufio.System.Tasks.{IsAt, IsTaskLawful}
use rufio.System.Tasks.Gives.{IsOk, GivesSame, Gives-weaken, Gives-perform}
use rufio.System.Logins.{login-Gives}

-- Secrets can be read and hold credentials; the machine takes every action; when it is polled and
-- the last task is running, it is in the state that this task's action asks for, and the clock is
-- short of ten minutes from the start of the task; no task is being deleted; and patches succeed.
pub record IsObedient (env : Env) (req : NamespacedName) (law : IsLawful env req) : Type 0 where
  pub result_is_zero : env.result_is_zero no_requeue ≡ true
  pub get_secret_result :
      (k : NamespacedName) (w : env.World)
      → (secret : List (Text × Text)) × (username : Text) × (password : Text) × ((env.get_secret k
            w).0
          ≡ ok secret)
        × (credentials secret ≡ ok (username, password))
  pub open_client_result :
      (timeout : ℕ) (b : env.Bmc) (w : env.World) → (env.open_client timeout b w).0 ≡ none
  pub set_power_state_result :
      (p : Text) (b : env.Bmc) (w : env.World) → IsOk (env.set_power_state p b w).0
  pub set_boot_device_result :
      (d : Text) (persistent efi : Bool) (b : env.Bmc) (w : env.World)
      → IsOk (env.set_boot_device d persistent efi b w).0
  pub set_virtual_media_result :
      (kind url : Text) (b : env.Bmc) (w : env.World) → IsOk (env.set_virtual_media kind url b w).0
  pub get_power_state_result :
      (b : env.Bmc) (w : env.World) (before : List Task) (t : Task) (p : PowerAction)
      → (law.view w).tasks ≡ before ++ t ∷ []
      → phase_of_task t ≡ running
      → t.spec.task.power_action ≡ some p
      → (raw : Text) × ((env.get_power_state b w).0 ≡ ok raw)
        × (reached env b p (to_power_state raw) ≡ true)
  pub now_positive : (w : env.World) → 0 < (env.now w).0
  pub now_prompt :
      (w : env.World) (before : List Task) (t : Task) (start : Time)
      → (law.view w).tasks ≡ before ++ t ∷ []
      → phase_of_task t ≡ running
      → t.status.start_time ≡ some start
      → (env.now w).0 < start + task_timeout
  pub not_deleted :
      (w : env.World) (before : List Task) (t : Task) (after : List Task)
      → (law.view w).tasks ≡ before ++ t ∷ after
      → is_zero t.object_meta.deletion_timestamp ≡ true
  pub patch_task_status_lem :
      (u : Task) (w : env.World) (before : List Task) (t : Task) (after : List Task)
      → IsAt (law.view w).tasks before t after
      → u.object_meta ≡ t.object_meta
      → ((env.patch_task_status u t w).0 ≡ none)
        × (law.view (env.patch_task_status u t w).1
            ≡ record (law.view w) { tasks = before ++ record t { status = u.status } ∷ after })

module _ (env : Env) (req : NamespacedName) (law : IsLawful env req)
    (tasks_law : IsTaskLawful env req law) (obedient : IsObedient env req law) (v : View) where
  open law use {view}

  pub login_succeeds :
      (failed : Error → Error) (conn : Connection) → GivesSame view v IsOk (login env failed conn)
  login_succeeds failed conn =
      Gives-weaken view _ (elim [ ok a ↦ λ v' h. h | err e ↦ λ v' h. h ])
        (login-Gives env view v true
          (λ k. Gives-perform view _ _ (λ w e.
            let (d, u, p, g, c) = obedient.get_secret_result k w in
            (rw (g, c) tt, tasks_law.get_secret_view k w ∙ e)))
          failed conn)
