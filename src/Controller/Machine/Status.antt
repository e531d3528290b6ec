-- ===== src/Controller/Machine/Status.antt =====
-- The status that the reconciler of Machines writes.
use rufio.Prelude.{ℕ, ◌≡◌, refl, Bool, true, false, not, ◌&&◌, ◌||◌, Option, none, some, [], ◌∷◌}
use rufio.Prelude.Text.{Text, text_eq}
use rufio.Api.Meta.{Time, NamespacedName, is_zero}
use rufio.Api.Conditions.Laws.{holds_of}
use rufio.Api.Machine.{
  Machine, MachineCondition, ConditionStatus, unknown, contactable, condition_true, condition_false,
  set_condition, has_status, with_machine_condition_message,
}
use rufio.Api.Machine.Laws.{get_condition, get_condition-set_condition}
use rufio.Controller.Error.{Error, ok, err, message}
use rufio.Controller.Env.{Env}
use rufio.Controller.Exec.{Call, State}
use rufio.Controller.Exec.Keeps.{
  calls_of, Quiet, Quiet-pure, Quiet-bind, Quiet-bind-Returns, Quiet-if, Quiet-finally, Returns,
  Returns-pure, Returns-if, Returns-bind, quiet_rules,
}
use rufio.Controller.Client.{BmcOptions, new_client_func}
use rufio.Controller.Client.Calls.{new_client_func-Quiet}
use rufio.Controller.Login.Calls.{login-Quiet}
use rufio.Controller.Machine.{
  set_power, patch_status, update_power_state, set_contactable, report_power, use_client,
  not_contacted, login, connected_machine, do_reconcile, reconcile_found, reconcile,
}
use rufio.Controller.Machine.Calls.{
  update_power_state-Quiet, set_contactable-Quiet, patch_status-Quiet,
}

-- The status of a machine is coherent: it has the condition Contactable, which is True or False, and
-- where it is False the power state is unknown.
unfoldable pub is_coherent : Machine → Bool
is_coherent bm =
    holds_of
      (λ c.
        text_eq c.status condition_true
        || (text_eq c.status condition_false && text_eq bm.status.power unknown))
      (get_condition bm contactable)

-- The machine has the condition Contactable with a status, and a power state.
pub record HasContact (status : ConditionStatus) (power : Text) (bm : Machine) : Type 0 where
  pub condition : MachineCondition
  pub found : get_condition bm contactable ≡ some condition
  pub at_status : condition.status ≡ status
  pub at_power : bm.status.power ≡ power

is_coherent_contacted :
    (bm : Machine) (power : Text) → HasContact condition_true power bm → is_coherent bm ≡ true
unfolding is_coherent text_eq
is_coherent_contacted bm power h = rw (h.found, h.at_status)

is_coherent_lost : (bm : Machine) → HasContact condition_false unknown bm → is_coherent bm ≡ true
unfolding is_coherent text_eq
is_coherent_lost bm h = rw (h.found, h.at_status, h.at_power)

power-set_condition :
    (bm : Machine) (status : ConditionStatus) (now : Time) (text : Text)
    → (set_condition bm contactable status now
        (with_machine_condition_message text ∷ [])).status.power
      ≡ bm.status.power
unfolding set_condition
power-set_condition bm status now text = refl

set_condition-HasContact :
    (bm : Machine) (status : ConditionStatus) (now : Time) (text : Text)
    → HasContact status bm.status.power
        (set_condition bm contactable status now (with_machine_condition_message text ∷ []))
set_condition-HasContact bm status now text =
    let law = get_condition-set_condition bm contactable status now (text ∷ []) in
    record {
      condition = law.0.0;
      found = law.0.1;
      at_status = law.0.2;
      at_power = power-set_condition bm status now text;
    }

module _ {B : Type 0} where
  -- A patch of a Machine to a status that is not coherent.
  abbrev pub is_incoherent : Call B → Bool
  is_incoherent (Call.patch_machine_status bm) = not (is_coherent bm)
  is_incoherent _ = false

module _ (env : Env) where
  open env use {World, Bmc}

  set_contactable-Returns :
      (bm : Machine) (status : ConditionStatus) (text : Text)
      → Returns (HasContact status bm.status.power) (set_contactable env bm status text)
  unfolding set_contactable
  set_contactable-Returns bm status text =
      Returns-if _ (has_status bm contactable status) _ _
        (Returns-pure _ _ (set_condition-HasContact bm status 0 text))
        (Returns-bind _ _ _ λ now. Returns-pure _ _ (set_condition-HasContact bm status now text))

  -- Where the power state could not be read, it is unknown.
  abbrev IsRead : Machine × Option Error → Type 0
  IsRead (bm, none) = Unit
  IsRead (bm, some e) = bm.status.power ≡ unknown

  update_power_state-Returns :
      (bm : Machine) (b : Bmc) → Returns IsRead (update_power_state env bm b)
  unfolding update_power_state
  update_power_state-Returns bm b = Returns-bind _ _ _ (elim [
    | ok raw ↦ Returns-pure _ _ tt
    | err e ↦ Returns-bind _ _ _ λ u. Returns-pure _ _ refl
  ])

  module _ (original : Machine) where
    patch_coherent :
        (bm : Machine) → is_coherent bm ≡ true → Quiet is_incoherent (patch_status env bm original)
    patch_coherent bm h =
        patch_status-Quiet env is_incoherent refl (λ b. refl) (λ x y z. refl) bm original (rw h)

    report_power-coherent :
        (bm : Machine) (e : Option Error)
        → IsRead (bm, e)
        → Quiet is_incoherent (report_power env original bm e)
    unfolding report_power
    report_power-coherent bm none h =
        Quiet-bind-Returns _ _ _
          (set_contactable-Quiet env is_incoherent refl (λ b. refl) (λ x y z. refl) _ _ _)
          (set_contactable-Returns bm condition_true [])
          λ bm' k.
            Quiet-bind _ _ (patch_coherent bm' (is_coherent_contacted bm' _ k))
              (elim [ none ↦ Quiet-pure _ | some x ↦ Quiet-pure _ ])
    report_power-coherent bm (some e) h =
        Quiet-bind-Returns _ _ _
          (set_contactable-Quiet env is_incoherent refl (λ b. refl) (λ x y z. refl) _ _ _)
          (set_contactable-Returns bm condition_false (message e))
          λ bm' k.
            Quiet-bind _ _ (patch_coherent bm' (is_coherent_lost bm' (rw h at k)))
              (elim [ none ↦ Quiet-pure _ | some x ↦ Quiet-pure _ ])

    use_client-coherent : (b : Bmc) → Quiet is_incoherent (use_client env original b)
    unfolding use_client
    use_client-coherent b =
        Quiet-bind-Returns _ _ _
          (update_power_state-Quiet env is_incoherent refl (λ b. refl) (λ x y z. refl) original b)
          (update_power_state-Returns original b) (λ r h. report_power-coherent r.0 r.1 h)

    not_contacted-coherent : (e : Error) → Quiet is_incoherent (not_contacted env original e)
    unfolding not_contacted
    not_contacted-coherent e =
        Quiet-bind-Returns _ _ _
          (set_contactable-Quiet env is_incoherent refl (λ b. refl) (λ x y z. refl) _ _ _)
          (set_contactable-Returns original condition_false (message e))
          λ bm' k.
            Quiet-bind _ _
              (patch_coherent (set_power bm' unknown) (
                is_coherent_lost (set_power bm' unknown) (record {
                  condition = k.condition;
                  found = k.found;
                  at_status = k.at_status;
                  at_power = refl;
                })))
              (elim [ none ↦ Quiet-pure _ | some x ↦ Quiet-pure _ ])

module _ (env : Env) (timeout : ℕ) where
  open env use {World, Bmc}

  connected-coherent :
      (bm : Machine) (u w : Text) (o : BmcOptions)
      → Quiet is_incoherent (connected_machine env (new_client_func env timeout) bm u w o)
  unfolding connected_machine
  connected-coherent bm u w o =
      Quiet-bind _ _ (new_client_func-Quiet env timeout is_incoherent _ u w _ (λ b e. refl)) (elim [
        | err e ↦ not_contacted-coherent env bm e
        | ok b ↦ Quiet-finally _ _ (use_client-coherent env bm b) (search quiet_rules)
      ])

  reconcile_found-coherent :
      (bm : Machine) → Quiet is_incoherent (reconcile_found env (new_client_func env timeout) bm)
  unfolding reconcile_found do_reconcile login
  reconcile_found-coherent bm =
      Quiet-if (not (is_zero bm.object_meta.deletion_timestamp)) _ _ (Quiet-pure _) (
        Quiet-bind _ _ (login-Quiet env is_incoherent (λ k. refl) _ _)
          (elim [ err e ↦ Quiet-pure _ | ok (u, w, o) ↦ connected-coherent bm u w o ]))

  reconcile-Quiet :
      (req : NamespacedName) → Quiet is_incoherent (reconcile env (new_client_func env timeout) req)
  unfolding reconcile
  reconcile-Quiet req =
      Quiet-bind _ _ (search quiet_rules)
        (elim [ err e ↦ Quiet-pure _ | ok bm ↦ reconcile_found-coherent bm ])

  -- Every status of a Machine that its reconciliation writes is coherent: it has the condition
  -- Contactable, True or False, and where it is False the power state is unknown. Nothing is assumed
  -- of the machine that was read, nor of what the calls return.
  pub reconcile-coherent_machine :
      (req : NamespacedName) (s : State World Bmc)
      → calls_of is_incoherent (reconcile env (new_client_func env timeout) req s).1
        ≡ calls_of is_incoherent s
  reconcile-coherent_machine req s = (reconcile-Quiet req).at s
