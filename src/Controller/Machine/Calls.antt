-- ===== src/Controller/Machine/Calls.antt =====
-- Which calls the reconciler of Machines makes, and how often.
use rufio.Prelude.{ℕ, ◌≡◌, ◌≤◌, ◌+◌, refl, Bool, false, not, Option, none, some, arith}
use rufio.Prelude.Text.{Text}
use rufio.Api.Meta.{NamespacedName, is_zero}
use rufio.Api.Machine.{Machine, ConditionStatus}
use rufio.Controller.Error.{Error, ok, err}
use rufio.Controller.Env.{Env}
use rufio.Controller.Exec.{Call, State}
use rufio.Controller.Exec.Keeps.{
  is_opened, is_closed, is_patch, calls_of, Quiet, Quiet-pure, Quiet-bind, quiet_rules,
}
use rufio.Controller.Exec.Balance.{
  Balanced, Balanced-Quiet, Balanced-pure, Balanced-bind, Balanced-if,
}
use rufio.Controller.Exec.Patches.{
  AtMost, AtMost-bind, AtMost-pure, AtMost-perform_with, AtMost-Quiet-bind, AtMost-if,
  AtMost-finally,
}
use rufio.Controller.Client.{BmcOptions, new_client_func}
use rufio.Controller.Client.Calls.{new_client_func-Quiet, with_client-Balanced, finally-Closes}
use rufio.Controller.Login.Calls.{login-Quiet}
use rufio.Controller.Machine.{
  patch_status, update_power_state, set_contactable, report_power, use_client, not_contacted, login,
  connected_machine, do_reconcile, reconcile_found, reconcile,
}

module _ (env : Env) (p : Call env.Bmc → Bool) (hc : p Call.read_clock ≡ false)
    (hg : (b : env.Bmc) → p (Call.get_power_state b) ≡ false)
    (he : (x y z : Text) → p (Call.eventf x y z) ≡ false) where
  open env use {World, Bmc}

  pub update_power_state-Quiet : (bm : Machine) (b : Bmc) → Quiet p (update_power_state env bm b)
  unfolding update_power_state
  update_power_state-Quiet bm b =
      Quiet-bind _ _ (search (quiet_rules, hg))
        (elim [ ok r ↦ Quiet-pure _ | err e ↦ search (quiet_rules, he) ])

  pub set_contactable-Quiet :
      (bm : Machine) (s : ConditionStatus) (m : Text) → Quiet p (set_contactable env bm s m)
  unfolding set_contactable
  set_contactable-Quiet bm s m = search (quiet_rules, hc)

  pub patch_status-Quiet :
      (bm original : Machine)
      → p (Call.patch_machine_status bm) ≡ false
      → Quiet p (patch_status env bm original)
  unfolding patch_status
  patch_status-Quiet bm original h =
      Quiet-bind _ _ (search (quiet_rules, h))
        (elim [ none ↦ Quiet-pure _ | some e ↦ Quiet-pure _ ])

  module _ (ht : (m : Machine) → p (Call.patch_machine_status m) ≡ false) where
    report_power-Quiet :
        (original bm : Machine) (e : Option Error) → Quiet p (report_power env original bm e)
    unfolding report_power
    report_power-Quiet original bm e = Quiet-bind _ _ (set_contactable-Quiet _ _ _) λ bm'.
        Quiet-bind _ _ (patch_status-Quiet _ _ (ht _))
          (elim [ none ↦ Quiet-pure _ | some x ↦ Quiet-pure _ ])

    pub use_client-Quiet : (bm : Machine) (b : Bmc) → Quiet p (use_client env bm b)
    unfolding use_client
    use_client-Quiet bm b =
        Quiet-bind _ _ (update_power_state-Quiet bm b) (λ r. report_power-Quiet bm r.0 r.1)

    pub not_contacted-Quiet : (bm : Machine) (e : Error) → Quiet p (not_contacted env bm e)
    unfolding not_contacted
    not_contacted-Quiet bm e = Quiet-bind _ _ (set_contactable-Quiet _ _ _) λ bm'.
        Quiet-bind _ _ (patch_status-Quiet _ _ (ht _))
          (elim [ none ↦ Quiet-pure _ | some x ↦ Quiet-pure _ ])

module _ (env : Env) where
  open env use {World, Bmc}

  patch_status-AtMost : (bm original : Machine) → AtMost 1 is_patch (patch_status env bm original)
  unfolding patch_status
  patch_status-AtMost bm original =
      AtMost-bind 1 0 _ _ (AtMost-perform_with 0 _ _)
        (elim [ none ↦ AtMost-pure 0 _ | some e ↦ AtMost-pure 0 _ ])

  report_power-AtMost :
      (original bm : Machine) (e : Option Error)
      → AtMost 1 is_patch (report_power env original bm e)
  unfolding report_power
  report_power-AtMost original bm e =
      AtMost-Quiet-bind 1 _ _
        (set_contactable-Quiet env is_patch refl (λ b. refl) (λ x y z. refl) _ _ _)
        λ bm'.
          AtMost-bind 1 0 _ _ (patch_status-AtMost _ _)
            (elim [ none ↦ AtMost-pure 0 _ | some x ↦ AtMost-pure 0 _ ])

  use_client-AtMost : (bm : Machine) (b : Bmc) → AtMost 1 is_patch (use_client env bm b)
  unfolding use_client
  use_client-AtMost bm b =
      AtMost-Quiet-bind 1 _ _
        (update_power_state-Quiet env is_patch refl (λ b. refl) (λ x y z. refl) bm b)
        (λ r. report_power-AtMost bm r.0 r.1)

  not_contacted-AtMost : (bm : Machine) (e : Error) → AtMost 1 is_patch (not_contacted env bm e)
  unfolding not_contacted
  not_contacted-AtMost bm e =
      AtMost-Quiet-bind 1 _ _
        (set_contactable-Quiet env is_patch refl (λ b. refl) (λ x y z. refl) _ _ _)
        λ bm'.
          AtMost-bind 1 0 _ _ (patch_status-AtMost _ _)
            (elim [ none ↦ AtMost-pure 0 _ | some x ↦ AtMost-pure 0 _ ])

module _ (env : Env) (timeout : ℕ) where
  open env use {World, Bmc}

  connected-Balanced :
      (bm : Machine) (u w : Text) (o : BmcOptions)
      → Balanced (connected_machine env (new_client_func env timeout) bm u w o)
  unfolding connected_machine
  connected-Balanced bm u w o =
      with_client-Balanced env timeout _ u w _ _
        (λ e.
          Balanced-Quiet _
            (not_contacted-Quiet env is_opened refl (λ b. refl) (λ x y z. refl) (λ m. refl) bm e)
            (not_contacted-Quiet env is_closed refl (λ b. refl) (λ x y z. refl) (λ m. refl) bm e))
        (λ b.
          finally-Closes env timeout _ b
            (use_client-Quiet env is_opened refl (λ b. refl) (λ x y z. refl) (λ m. refl) bm b)
            (use_client-Quiet env is_closed refl (λ b. refl) (λ x y z. refl) (λ m. refl) bm b))

  reconcile_found-Balanced :
      (bm : Machine) → Balanced (reconcile_found env (new_client_func env timeout) bm)
  unfolding reconcile_found do_reconcile login
  reconcile_found-Balanced bm =
      Balanced-if (not (is_zero bm.object_meta.deletion_timestamp)) _ _ (Balanced-pure _) (
        Balanced-bind _ _
          (Balanced-Quiet _ (login-Quiet env is_opened (λ k. refl) _ _)
            (login-Quiet env is_closed (λ k. refl) _ _))
          (elim [ err e ↦ Balanced-pure _ | ok (u, w, o) ↦ connected-Balanced bm u w o ]))

  reconcile-Balanced :
      (req : NamespacedName) → Balanced (reconcile env (new_client_func env timeout) req)
  unfolding reconcile
  reconcile-Balanced req =
      Balanced-bind _ _ (Balanced-Quiet _ (search quiet_rules) (search quiet_rules))
        (elim [ err e ↦ Balanced-pure _ | ok bm ↦ reconcile_found-Balanced bm ])

  connected-AtMost :
      (bm : Machine) (u w : Text) (o : BmcOptions)
      → AtMost 1 is_patch (connected_machine env (new_client_func env timeout) bm u w o)
  unfolding connected_machine
  connected-AtMost bm u w o =
      AtMost-Quiet-bind 1 _ _ (new_client_func-Quiet env timeout is_patch _ u w _ (λ b e. refl))
        (elim [
          | err e ↦ not_contacted-AtMost env bm e
          | ok b ↦ AtMost-finally 1 _ _ (use_client-AtMost env bm b) (search quiet_rules)
        ])

  reconcile_found-AtMost :
      (bm : Machine) → AtMost 1 is_patch (reconcile_found env (new_client_func env timeout) bm)
  unfolding reconcile_found do_reconcile login
  reconcile_found-AtMost bm =
      AtMost-if 1 (not (is_zero bm.object_meta.deletion_timestamp)) _ _ (AtMost-pure 1 _) (
        AtMost-Quiet-bind 1 _ _ (login-Quiet env is_patch (λ k. refl) _ _)
          (elim [ err e ↦ AtMost-pure 1 _ | ok (u, w, o) ↦ connected-AtMost bm u w o ]))

  reconcile-AtMost :
      (req : NamespacedName) → AtMost 1 is_patch (reconcile env (new_client_func env timeout) req)
  unfolding reconcile
  reconcile-AtMost req =
      AtMost-Quiet-bind 1 _ _ (search quiet_rules)
        (elim [ err e ↦ AtMost-pure 1 _ | ok bm ↦ reconcile_found-AtMost bm ])

  -- A reconciliation of a Machine, with NewClientFunc's function, closes exactly as many bmclib
  -- clients as it has opened, and makes at most one status patch, whatever the calls return.
  pub reconcile-closes_machine :
      (req : NamespacedName) (s : State World Bmc)
      → calls_of is_opened s ≡ calls_of is_closed s
      → let s' = (reconcile env (new_client_func env timeout) req s).1 in
        (calls_of is_opened s' ≡ calls_of is_closed s')
        × (calls_of is_patch s' ≤ 1 + calls_of is_patch s)
  reconcile-closes_machine req s h =
      (omega (arith, (reconcile-Balanced req).at s), (reconcile-AtMost req).at s)
