-- ===== src/System/Tasks/Begun.antt =====
-- The start of a Task's action: how many calls it makes, and what is recorded of it in a cluster that
-- keeps what is patched.
use rufio.Prelude.{
  ℕ, ◌+◌, ◌<◌, ◌≡◌, refl, ap, ◌∙◌, Bool, false, Option, none, some, List, [], ◌∷◌, arith,
}
use rufio.Prelude.Text.{Text}
use rufio.Api.Meta.{NamespacedName, Time, is_zero}
use rufio.Api.Action.{Action, PowerAction, OneTimeBootDeviceAction, VirtualMediaAction, BootDevice}
use rufio.Api.Task.{Task, TaskStatus, set_condition}
use rufio.Controller.Error.{message}
use rufio.Controller.Env.{Env}
use rufio.Controller.Exec.{Call, Exec}
use rufio.Controller.Exec.Keeps.{is_action, Quiet-bind, Quiet-pure, Quiet-fault, quiet_rules}
use rufio.Controller.Exec.Patches.{
  AtMost, AtMost-Quiet, AtMost-bind, AtMost-pure, AtMost-perform_with, AtMost-Quiet-bind,
}
use rufio.Controller.Task.{
  set_power, boot_first, set_boot, set_media, run_task, mark_failed, mark_started, patch_status,
  fail_task, start_task,
}
use rufio.Controller.Task.Calls.{patch_status-Quiet, fail_task-Quiet}
use rufio.System.{View, IsLawful}
use rufio.System.Tasks.{IsAt, IsTaskLawful}
use rufio.System.Tasks.Gives.{Gives, GivesSame, Gives-pure, Gives-bind, Gives-then, Gives-perform}
use rufio.System.Tasks.Steady.{mark_started-object_meta, mark_failed-object_meta}
use rufio.System.Tasks.Runs.{HasDevice, run_task-Gives}
use rufio.System.Tasks.Advances.{with_task}

-- A patch against the task that is stored is written, whatever it returns, and the clock does not
-- stand at the zero time.
pub record IsKept (env : Env) (req : NamespacedName) (law : IsLawful env req) : Type 0 where
  pub patch_task_status_written :
      (u : Task) (w : env.World) (before : List Task) (t : Task) (after : List Task)
      → IsAt (law.view w).tasks before t after
      → u.object_meta ≡ t.object_meta
      → law.view (env.patch_task_status u t w).1 ≡ with_task (law.view w) before t after u.status
  pub now_positive : (w : env.World) → 0 < (env.now w).0

-- The number of parts of an action.
abbrev pub part : {A : Type 0} → Option A → ℕ
part none = 0
part (some a) = 1

abbrev pub parts : Action → ℕ
parts a = part a.power_action + (part a.one_time_boot_device_action + part a.virtual_media_action)

abbrev pub IsBegun : TaskStatus → Type 0
IsBegun status = is_zero status.start_time ≡ false

mark_started-IsBegun : (t : Task) (now : Time) → 0 < now → IsBegun (mark_started t now).status
unfolding mark_started
mark_started-IsBegun t now l = ground arith

pub mark_failed-start_time :
    (t : Task) (m : Text) → (mark_failed t m).status.start_time ≡ t.status.start_time
unfolding mark_failed set_condition
mark_failed-start_time t m = refl

AtMost-exact :
    {W B A : Type 0}
    → {p : Call B → Bool} → (n : ℕ) (m : Exec W B A) → AtMost (n + 0) p m
    → AtMost n p m
AtMost-exact n m h = record { at = λ s. omega (arith, h.at s) }

module _ (env : Env) where
  open env use {World, Bmc}

  set_power-AtMost :
      (a : Option PowerAction) (b : Bmc) → AtMost (part a) is_action (set_power env a b)
  unfolding set_power
  set_power-AtMost none b = AtMost-pure 0 _
  set_power-AtMost (some x) b =
      AtMost-bind 1 0 _ _ (AtMost-perform_with 0 _ _) (λ r. AtMost-pure 0 _)

  boot_first-AtMost :
      (l : List BootDevice) (e : Bool) (b : Bmc) → AtMost 1 is_action (boot_first env l e b)
  unfolding boot_first
  boot_first-AtMost [] e b = AtMost-Quiet 1 _ Quiet-fault
  boot_first-AtMost (d ∷ l) e b =
      AtMost-bind 1 0 _ _ (AtMost-perform_with 0 _ _) (λ r. AtMost-pure 0 _)

  set_boot-AtMost :
      (a : Option OneTimeBootDeviceAction) (b : Bmc) → AtMost (part a) is_action (set_boot env a b)
  unfolding set_boot
  set_boot-AtMost none b = AtMost-pure 0 _
  set_boot-AtMost (some x) b = boot_first-AtMost x.devices x.efi_boot b

  set_media-AtMost :
      (a : Option VirtualMediaAction) (b : Bmc) → AtMost (part a) is_action (set_media env a b)
  unfolding set_media
  set_media-AtMost none b = AtMost-pure 0 _
  set_media-AtMost (some x) b =
      AtMost-bind 1 0 _ _ (AtMost-perform_with 0 _ _) (λ r. AtMost-pure 0 _)

  run_task-AtMost : (a : Action) (b : Bmc) → AtMost (parts a) is_action (run_task env a b)
  unfolding run_task
  run_task-AtMost a b =
      AtMost-bind (part a.power_action) _ _ _ (set_power-AtMost a.power_action b) (elim [
        | some e ↦ AtMost-pure _ _
        | none ↦
            AtMost-bind (part a.one_time_boot_device_action) _ _ _
              (set_boot-AtMost a.one_time_boot_device_action b)
              (elim [ some e ↦ AtMost-pure _ _ | none ↦ set_media-AtMost a.virtual_media_action b ])
      ])

  pub start_task-AtMost :
      (t : Task) (b : Bmc) → AtMost (parts t.spec.task) is_action (start_task env t b)
  unfolding start_task
  start_task-AtMost t b = AtMost-Quiet-bind _ _ _ (search quiet_rules) λ now. AtMost-exact _ _ (
      AtMost-bind (parts t.spec.task) 0 _ _ (run_task-AtMost t.spec.task b) (elim [
        | some e ↦ AtMost-Quiet 0 _ (fail_task-Quiet env is_action _ _ _ e refl)
        | none ↦
            AtMost-Quiet 0 _
              (Quiet-bind _ _ (patch_status-Quiet env is_action _ t refl) (λ patched. Quiet-pure _))
      ]))

module _ (env : Env) (req : NamespacedName) (law : IsLawful env req)
    (tasks_law : IsTaskLawful env req law) (kept : IsKept env req law) (v : View) where
  open env use {World, Bmc}
  open law use {view}

  run_task_passes :
      (a : Action) (b : Bmc)
      → HasDevice a.one_time_boot_device_action
      → GivesSame view v (λ _. Unit {0}) (run_task env a b)
  run_task_passes a b h =
      run_task-Gives env view v (λ _. Unit {0}) (λ _. Unit {0}) tt (λ what r k. tt)
        (λ p b. Gives-perform view _ _ (λ w e. (tt, tasks_law.set_power_state_view p b w ∙ e)))
        (λ d x y b.
          Gives-perform view _ _ (λ w e. (tt, tasks_law.set_boot_device_view d x y b w ∙ e)))
        (λ k u b.
          Gives-perform view _ _ (λ w e. (tt, tasks_law.set_virtual_media_view k u b w ∙ e)))
        a b h

  module _ (before : List Task) (t : Task) (after : List Task)
      (placed : IsAt v.tasks before t after) where
    -- The task has a status with a start time.
    abbrev pub BeginsView : View → Type 0
    BeginsView v' =
        (status : TaskStatus) × IsBegun status × (v' ≡ with_task v before t after status)

    patch_status-Begins :
        (u : Task)
        → u.object_meta ≡ t.object_meta
        → IsBegun u.status
        → Gives view v (λ _ v'. BeginsView v') (patch_status env u t)
    unfolding patch_status
    patch_status-Begins u m g =
        Gives-then view _ _
          (Gives-perform view _ _ (λ w e. (
            u.status,
            g,
            kept.patch_task_status_written u w before t after (rw e placed) m
                ∙ ap (λ (x : View). with_task x before t after u.status) e,
          )))
          (elim [
            | none ↦ λ v'. Gives-pure view _ (tt, refl)
            | some e ↦ λ v'. Gives-pure view _ (tt, refl)
          ])

    pub start_task-Begins :
        (b : Bmc)
        → HasDevice t.spec.task.one_time_boot_device_action
        → Gives view v (λ _ v'. BeginsView v') (start_task env t b)
    unfolding start_task fail_task
    start_task-Begins b h =
        Gives-bind view {P = λ now. 0 < now} _ _
          (Gives-perform view _ _ (λ w e. (kept.now_positive w, law.now_view w ∙ e)))
          λ now l. Gives-bind view {P = λ _. Unit {0}} _ _ (run_task_passes t.spec.task b h) (elim [
            | some e ↦ λ g.
                Gives-then view _ _
                  (patch_status-Begins _
                    (mark_failed-object_meta _ _ ∙ mark_started-object_meta t now)
                    (rw (mark_failed-start_time (mark_started t now) (message e))
                      (mark_started-IsBegun t now l)))
                  (elim [
                    | none ↦ λ v'. Gives-pure view _ (tt, refl)
                    | some e ↦ λ v'. Gives-pure view _ (tt, refl)
                  ])
            | none ↦ λ g.
                Gives-then view _ _
                  (patch_status-Begins _ (mark_started-object_meta t now)
                    (mark_started-IsBegun t now l))
                  (λ p v'. Gives-pure view _ (tt, refl))
          ])
