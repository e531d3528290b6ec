-- ===== src/System/Machines.antt =====
-- What a reconciliation of a Machine comes to: whatever the calls return, it returns, and the machine
-- is looked at again.
use rufio.Prelude.{
  Bool-cases, ℕ, ◌≡◌, ◌⊎◌, inl, inr, refl, true, false, Option, none, some, List, ◌∷◌,
}
use rufio.Prelude.Text.{Text}
use rufio.Api.Meta.{NamespacedName, is_zero}
use rufio.Api.Machine.{Machine, ConditionStatus, contactable, has_status}
use rufio.Controller.Error.{Error, Result, ok, err}
use rufio.Controller.Env.{Env}
use rufio.Controller.Exec.{
  Call, State, Exec, done, Reconciled, requeue_in, stop, ◌>>=◌, pure, perform_with,
}
use rufio.Controller.Exec.Keeps.{
  is_action, calls_of, Quiet, Quiet-pure, Quiet-bind, Quiet-finally, quiet_rules,
}
use rufio.Controller.Login.Calls.{login-Quiet}
use rufio.Controller.Client.Calls.{new_client_func-Quiet}
use rufio.Controller.Machine.Calls.{use_client-Quiet, not_contacted-Quiet}
use rufio.Controller.Client.{BmcOptions, new_client_func, open_in_time}
use rufio.Controller.Kube.{credentials}
use rufio.Controller.Machine.{
  machine_requeue_interval, patch_status, update_power_state, set_contactable, report_power,
  use_client, not_contacted, login, connected_machine, do_reconcile, reconcile_found, reconcile,
}
use rufio.System.Tasks.Gives.{GivesSame, Gives-pure, Gives-perform, Gives-bind, Gives-finally}
use rufio.System.Logins.{Allowed, Readable, login-Gives}

-- The machine is looked at again: there is an error, which controller-runtime retries, or a time.
abbrev pub IsPolled : Reconciled → Type 0
IsPolled r =
    ((e : Error) × (r ≡ stop (some e)))
    ⊎ (r ≡ record { result = requeue_in machine_requeue_interval; error = none })

Allowed-MayFail : {A : Type 0} (r : Result A) → Allowed false r
Allowed-MayFail (ok a) = tt
Allowed-MayFail (err e) = tt

Readable-MayFail : (r : Result (List (Text × Text))) → Readable false r
Readable-MayFail (ok d) = Allowed-MayFail (credentials d)
Readable-MayFail (err e) = tt

module _ (env : Env) where
  open env use {World, Bmc}

  abbrev blank : World → Unit {0}
  blank w = tt

  -- It returns, with a value of `P`.
  abbrev Ends : {A : Type 0} → (A → Type 0) → Exec World Bmc A → Type 0
  Ends P m = GivesSame {B = Bmc} blank tt P m

  Ends-perform :
      {A : Type 0} (c : A → Call Bmc) (op : World → A × World)
      → Ends (λ _. Unit {0}) (perform_with c op)
  Ends-perform c op = Gives-perform blank _ _ (λ w e. (tt, refl))

  Ends-pure : {A : Type 0} → {P : A → Type 0} → (a : A) → P a → Ends P (pure a)
  Ends-pure a p = Gives-pure blank _ (p, refl)

  Ends-bind :
      {A C : Type 0}
      → {P : C → Type 0} → (m : Exec World Bmc A) (f : A → Exec World Bmc C)
      → Ends (λ _. Unit {0}) m
      → ((a : A) → Ends P (f a))
      → Ends P (m >>= f)
  Ends-bind m f hm hf = Gives-bind blank {P = λ _. Unit {0}} _ _ hm (λ a g. hf a)

  patch_status-Ends : (bm original : Machine) → Ends (λ _. Unit {0}) (patch_status env bm original)
  unfolding patch_status
  patch_status-Ends bm original =
      Ends-bind _ _ (Ends-perform _ _) (elim [ none ↦ Ends-pure _ tt | some e ↦ Ends-pure _ tt ])

  set_contactable-Ends :
      (bm : Machine) (status : ConditionStatus) (text : Text)
      → Ends (λ _. Unit {0}) (set_contactable env bm status text)
  unfolding set_contactable
  set_contactable-Ends bm status text = elim (Bool-cases (has_status bm contactable status)) [
    | inl e ↦ rw e (Ends-pure _ tt)
    | inr e ↦ rw e (Ends-bind _ _ (Ends-perform _ _) (λ now. Ends-pure _ tt))
  ]

  report_power-Ends :
      (original bm : Machine) (e : Option Error) → Ends IsPolled (report_power env original bm e)
  unfolding report_power
  report_power-Ends original bm e = Ends-bind _ _ (set_contactable-Ends _ _ _) λ bm'.
      Ends-bind _ _ (patch_status-Ends _ _)
        (elim [ some x ↦ Ends-pure _ (inl (_, refl)) | none ↦ Ends-pure _ (inr refl) ])

  use_client-Ends : (bm : Machine) (b : Bmc) → Ends IsPolled (use_client env bm b)
  unfolding use_client update_power_state
  use_client-Ends bm b =
      Ends-bind _ _
        (Ends-bind _ _ (Ends-perform _ _) (elim [
          | ok raw ↦ Ends-pure _ tt
          | err e ↦ Ends-bind _ _ (Ends-perform _ _) (λ u. Ends-pure _ tt)
        ]))
        (λ r. report_power-Ends bm r.0 r.1)

  not_contacted-Ends : (bm : Machine) (e : Error) → Ends IsPolled (not_contacted env bm e)
  unfolding not_contacted
  not_contacted-Ends bm e = Ends-bind _ _ (set_contactable-Ends _ _ _) λ bm'.
      Ends-bind _ _ (patch_status-Ends _ _)
        (elim [ some x ↦ Ends-pure _ (inl (_, refl)) | none ↦ Ends-pure _ (inr refl) ])

  connected-Ends :
      (timeout : ℕ) (bm : Machine) (username password : Text) (opts : BmcOptions)
      → Ends IsPolled
          (connected_machine env (new_client_func env timeout) bm username password opts)
  unfolding connected_machine new_client_func open_in_time
  connected-Ends timeout bm username password opts =
      Ends-bind _ _
        (Ends-bind _ _ (Ends-perform _ _)
          (elim [ none ↦ Ends-pure _ tt | some e ↦ Ends-pure _ tt ]))
        (elim [
          | err e ↦ not_contacted-Ends bm e
          | ok b ↦ Gives-finally blank _ _ (use_client-Ends bm b) (record { at = λ s. refl })
        ])

  do_reconcile-Ends :
      (timeout : ℕ) (bm : Machine)
      → Ends IsPolled (do_reconcile env (new_client_func env timeout) bm)
  unfolding do_reconcile login
  do_reconcile-Ends timeout bm =
      Gives-bind blank {P = Allowed false} _ _
        (login-Gives env blank tt false
          (λ k. Gives-perform blank _ _ (λ w e. (Readable-MayFail _, refl))) _ _)
        (elim [
          | err e ↦ λ g. Ends-pure _ (inl (_, refl))
          | ok (u, p, o) ↦ λ g. connected-Ends timeout bm u p o
        ])

  do_reconcile-no_action :
      (timeout : ℕ) (bm : Machine)
      → Quiet is_action (do_reconcile env (new_client_func env timeout) bm)
  unfolding do_reconcile login connected_machine
  do_reconcile-no_action timeout bm =
      Quiet-bind _ _ (login-Quiet env is_action (λ k. refl) _ _) (elim [
        | err e ↦ Quiet-pure _
        | ok (u, p, o) ↦
            Quiet-bind _ _ (new_client_func-Quiet env timeout is_action _ u p _ (λ b e. refl))
              (elim [
                | err e ↦
                    not_contacted-Quiet env is_action refl (λ b. refl) (λ x y z. refl) (λ m. refl)
                      bm e
                | ok b ↦
                    Quiet-finally _ _
                      (use_client-Quiet env is_action refl (λ b. refl) (λ x y z. refl) (λ m. refl)
                        bm b)
                      (search quiet_rules)
              ])
      ])

  -- A reconciliation of a Machine that can be read and is not being deleted returns, whatever its
  -- calls return, with an error, or with no error and a requeue after three minutes, also where the
  -- client could not be opened or the power state not be read; and it makes no call of an action on
  -- the machine.
  pub reconcile_polls :
      (timeout : ℕ) (req : NamespacedName) (s : State World Bmc) (bm : Machine)
      → (env.get_machine req s.world).0 ≡ ok bm
      → is_zero bm.object_meta.deletion_timestamp ≡ true
      → let (outcome, s') = reconcile env (new_client_func env timeout) req s in
        ((r : Reconciled) × (outcome ≡ done r) × IsPolled r)
        × (calls_of is_action s' ≡ calls_of is_action s)
  unfolding reconcile reconcile_found ◌>>=◌
  reconcile_polls timeout req s bm got live =
      let read : State World Bmc = record {
        world = (env.get_machine req s.world).1;
        calls = Call.get_machine req ∷ s.calls;
      } in
      let (r, d, (p, _)) = (do_reconcile-Ends timeout bm).at read refl in
      rw (got, live) ((r, d, p), (do_reconcile-no_action timeout bm).at read)
