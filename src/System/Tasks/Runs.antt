-- ===== src/System/Tasks/Runs.antt =====
-- An action that is run on a machine whose calls leave the view as it is.
use rufio.Prelude.{◌≡◌, refl, Bool, Option, none, some, List, [], ◌∷◌}
use rufio.Prelude.Text.{Text}
use rufio.Api.Action.{Action, PowerAction, BootDevice, OneTimeBootDeviceAction, VirtualMediaAction}
use rufio.Controller.Error.{Error, Result}
use rufio.Controller.Env.{Env}
use rufio.Controller.Exec.{Call, perform}
use rufio.Controller.Task.{error_of, set_power, boot_first, set_boot, set_media, run_task}
use rufio.System.Tasks.Gives.{GivesSame, Gives-pure, Gives-bind}

-- A boot action names a device.
abbrev pub HasDevice : Option OneTimeBootDeviceAction → Type 0
HasDevice none = Unit
HasDevice (some a) = ¬ (a.devices ≡ [])

-- What is known of the answers of the machine carries over to the error of the action.
module _ (env : Env) {V : Type 0} (view : env.World → V) (v : V) (P : Result Bool → Type 0)
    (Q : Option Error → Type 0) (q : Q none)
    (to_error : (what : Text) (r : Result Bool) → P r → Q (error_of what r))
    (hp : (p : PowerAction) (b : env.Bmc)
      → GivesSame view v P (perform (Call.set_power_state p b) (env.set_power_state p b)))
    (hb : (d : BootDevice) (persistent efi : Bool) (b : env.Bmc)
      → GivesSame view v P (
          perform
            (Call.set_boot_device d persistent efi b)
            (env.set_boot_device d persistent efi b)))
    (hm : (kind url : Text) (b : env.Bmc)
      → GivesSame view v P
          (perform (Call.set_virtual_media kind url b) (env.set_virtual_media kind url b))) where
  open env use {Bmc}

  set_power-Gives : (a : Option PowerAction) (b : Bmc) → GivesSame view v Q (set_power env a b)
  unfolding set_power
  set_power-Gives none b = Gives-pure view _ (q, refl)
  set_power-Gives (some p) b =
      Gives-bind view {P = P} _ _ (hp p b) (λ r h. Gives-pure view _ (to_error _ r h, refl))

  boot_first-Gives :
      (l : List BootDevice) (efi : Bool) (b : Bmc)
      → ¬ (l ≡ [])
      → GivesSame view v Q (boot_first env l efi b)
  unfolding boot_first
  boot_first-Gives [] efi b h = absurd (h refl)
  boot_first-Gives (d ∷ l) efi b h =
      Gives-bind view {P = P} _ _ (hb _ _ _ b) (λ r h. Gives-pure view _ (to_error _ r h, refl))

  set_boot-Gives :
      (a : Option OneTimeBootDeviceAction) (b : Bmc)
      → HasDevice a
      → GivesSame view v Q (set_boot env a b)
  unfolding set_boot
  set_boot-Gives none b h = Gives-pure view _ (q, refl)
  set_boot-Gives (some a) b h = boot_first-Gives a.devices a.efi_boot b h

  set_media-Gives :
      (a : Option VirtualMediaAction) (b : Bmc) → GivesSame view v Q (set_media env a b)
  unfolding set_media
  set_media-Gives none b = Gives-pure view _ (q, refl)
  set_media-Gives (some a) b =
      Gives-bind view {P = P} _ _ (hm _ _ b) (λ r h. Gives-pure view _ (to_error _ r h, refl))

  pub run_task-Gives :
      (a : Action) (b : Bmc)
      → HasDevice a.one_time_boot_device_action
      → GivesSame view v Q (run_task env a b)
  unfolding run_task
  run_task-Gives a b h = Gives-bind view {P = Q} _ _ (set_power-Gives a.power_action b) (elim [
    | some e ↦ λ g. Gives-pure view _ (g, refl)
    | none ↦ λ g.
        Gives-bind view {P = Q} _ _ (set_boot-Gives a.one_time_boot_device_action b h) (elim [
          | some e ↦ λ k. Gives-pure view _ (k, refl)
          | none ↦ λ k. set_media-Gives a.virtual_media_action b
        ])
  ])
