-- ===== src/System/Tasks/Steady.antt =====
-- What the reconciler of Tasks may write, and which of its calls leave the view as it is.
use rufio.Prelude.{◌≡◌, ◌⊎◌, refl, true, List, ◌∷◌, ◌++◌}
use rufio.Prelude.Text.{Text}
use rufio.Api.Meta.{NamespacedName, Time, is_zero}
use rufio.Api.Task.{Task, TaskStatus, set_condition}
use rufio.Controller.Env.{Env}
use rufio.Controller.Exec.{Call, perform_with}
use rufio.Controller.Exec.Always.{IsPreorder, Always}
use rufio.Controller.Login.Calls.{login-Always}
use rufio.Controller.Task.{
  mark_failed, mark_completed, mark_started, login, run_task, check_task_status,
}
use rufio.Controller.Task.Effects.{run_task-Always, check_task_status-Always}
use rufio.System.{View, IsLawful}
use rufio.System.Tasks.{IsAt, IsTaskLawful}
use rufio.System.Tasks.Leads.{SameView, SameView-IsPreorder}

-- The statuses of a task that its reconciler may write.
pub record MayWrite (t : Task) (P : TaskStatus → Type 0) : Type 0 where
  pub failing : (m : Text) → P (mark_failed t m).status
  pub start_failing :
      is_zero t.status.start_time ≡ true
      → (now : Time) (m : Text) → P (mark_failed (mark_started t now) m).status
  pub starting : is_zero t.status.start_time ≡ true → (now : Time) → P (mark_started t now).status
  pub completing : (now : Time) → P (mark_completed t now).status

pub IsAt-status :
    (tasks before : List Task) (t : Task) (after : List Task) (status : TaskStatus)
    → IsAt tasks before t after
    → IsAt
        (before ++ record t { status = status } ∷ after)
        before
        (record t { status = status })
        after
IsAt-status tasks before t after status placed = record {
  split = refl;
  fresh_before = placed.fresh_before;
  fresh_after = placed.fresh_after;
}

-- The view is as before, or the task has a new status, with `P`.
abbrev pub IsStep :
    (P : TaskStatus → Type 0) (v : View) (before : List Task) (t : Task) (after : List Task)
    → View
    → Type 0
IsStep P v before t after v' =
    (v' ≡ v)
    ⊎ ((status : TaskStatus) × P status
        × (v' ≡ record v { tasks = before ++ record t { status = status } ∷ after }))

pub mark_failed-object_meta : (t : Task) (m : Text) → (mark_failed t m).object_meta ≡ t.object_meta
unfolding mark_failed set_condition
mark_failed-object_meta t m = refl

pub mark_completed-object_meta :
    (t : Task) (now : Time) → (mark_completed t now).object_meta ≡ t.object_meta
unfolding mark_completed set_condition
mark_completed-object_meta t now = refl

pub mark_started-object_meta :
    (t : Task) (now : Time) → (mark_started t now).object_meta ≡ t.object_meta
unfolding mark_started
mark_started-object_meta t now = refl

module _ (env : Env) (req : NamespacedName) (law : IsLawful env req)
    (tasks_law : IsTaskLawful env req law) where
  open env use {World, Bmc}
  open law use {view}

  pub perform-steady :
      {A : Type 0} (c : A → Call Bmc) (op : World → A × World)
      → ((w : World) → view (op w).1 ≡ view w)
      → Always (SameView view) (perform_with c op)
  unfolding perform_with
  perform-steady c op h = record { at = λ s. h s.world }

  pub steady : IsPreorder (SameView {B = Bmc} view)
  steady = SameView-IsPreorder view

  pub login-steady : (t : Task) → Always (SameView view) (login env t)
  unfolding login
  login-steady t =
      login-Always env steady (λ k. perform-steady _ _ (tasks_law.get_secret_view k)) _ _

  pub run_task-steady : (t : Task) (b : Bmc) → Always (SameView view) (run_task env t.spec.task b)
  run_task-steady t b =
      run_task-Always env steady (λ x b. perform-steady _ _ (tasks_law.set_power_state_view x b))
        (λ d x y b. perform-steady _ _ (tasks_law.set_boot_device_view d x y b))
        (λ k u b. perform-steady _ _ (tasks_law.set_virtual_media_view k u b)) t.spec.task b

  pub check_task_status-steady :
      (t : Task) (b : Bmc) → Always (SameView view) (check_task_status env t.spec.task b)
  check_task_status-steady t b =
      check_task_status-Always env steady
        (λ b. perform-steady _ _ (tasks_law.get_power_state_view b)) t.spec.task b
