-- ===== src/Controller/Task/Effects.antt =====
-- What running an action, and checking its status, do to the state, from what the calls of the
-- machine do to it.
use rufio.Prelude.{Bool, Option, none, some, List, [], ◌∷◌}
use rufio.Prelude.Text.{Text}
use rufio.Api.Action.{Action, BootDevice, PowerAction, OneTimeBootDeviceAction, VirtualMediaAction}
use rufio.Controller.Error.{ok, err}
use rufio.Controller.Env.{Env}
use rufio.Controller.Exec.{Call, State, perform}
use rufio.Controller.Exec.Always.{IsPreorder, Always, Always-pure, Always-fault, Always-bind}
use rufio.Controller.Task.{
  set_power, boot_first, set_boot, set_media, run_task, check_power, check_task_status,
}

module _ (env : Env) {R : State env.World env.Bmc → State env.World env.Bmc → Type 0}
    (pre : IsPreorder R) where
  open env use {World, Bmc}

  module _
      (hp : (x : PowerAction) (b : Bmc)
        → Always R (perform (Call.set_power_state x b) (env.set_power_state x b)))
      (hb : (d : BootDevice) (x y : Bool) (b : Bmc)
        → Always R (perform (Call.set_boot_device d x y b) (env.set_boot_device d x y b)))
      (hm : (k u : Text) (b : Bmc)
        → Always R (perform (Call.set_virtual_media k u b) (env.set_virtual_media k u b))) where
    set_power-Always : (a : Option PowerAction) (b : Bmc) → Always R (set_power env a b)
    unfolding set_power
    set_power-Always none b = Always-pure pre _
    set_power-Always (some x) b = Always-bind pre _ _ (hp x b) (λ r. Always-pure pre _)

    boot_first-Always : (l : List BootDevice) (e : Bool) (b : Bmc) → Always R (boot_first env l e b)
    unfolding boot_first
    boot_first-Always [] e b = Always-fault pre
    boot_first-Always (d ∷ l) e b = Always-bind pre _ _ (hb _ _ _ b) (λ r. Always-pure pre _)

    set_boot-Always : (a : Option OneTimeBootDeviceAction) (b : Bmc) → Always R (set_boot env a b)
    unfolding set_boot
    set_boot-Always none b = Always-pure pre _
    set_boot-Always (some x) b = boot_first-Always x.devices x.efi_boot b

    set_media-Always : (a : Option VirtualMediaAction) (b : Bmc) → Always R (set_media env a b)
    unfolding set_media
    set_media-Always none b = Always-pure pre _
    set_media-Always (some x) b = Always-bind pre _ _ (hm _ _ b) (λ r. Always-pure pre _)

    pub run_task-Always : (a : Action) (b : Bmc) → Always R (run_task env a b)
    unfolding run_task
    run_task-Always a b = Always-bind pre _ _ (set_power-Always _ _) (elim [
      | some e ↦ Always-pure pre _
      | none ↦
          Always-bind pre _ _ (set_boot-Always _ _)
            (elim [ some e ↦ Always-pure pre _ | none ↦ set_media-Always _ _ ])
    ])

  module _
      (hg : (b : Bmc) → Always R (perform (Call.get_power_state b) (env.get_power_state b))) where
    check_power-Always : (a : Option PowerAction) (b : Bmc) → Always R (check_power env a b)
    unfolding check_power
    check_power-Always none b = Always-pure pre _
    check_power-Always (some a) b =
        Always-bind pre _ _ (hg b) (elim [ ok r ↦ Always-pure pre _ | err e ↦ Always-pure pre _ ])

    pub check_task_status-Always : (a : Action) (b : Bmc) → Always R (check_task_status env a b)
    unfolding check_task_status
    check_task_status-Always a b = check_power-Always _ b
