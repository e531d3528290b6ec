-- ===== src/Controller/Client/Calls.antt =====
-- The client that NewClientFunc's function returns is open, and no client is open where it fails.
use rufio.Prelude.{
  ◌≡◌, ◌+◌, refl, Bool, false, Option, none, some, arith, Option-cases, inl, inr, ℕ, ◌⊎◌,
}
use rufio.Prelude.Text.{Text, codes}
use rufio.Controller.Error.{Error, Result, ok, err, wrapf}
use rufio.Controller.Env.{Env}
use rufio.Controller.Exec.{Call, State, Exec, done, resume, perform, perform_with, finally, ◌>>=◌}
use rufio.Controller.Exec.Keeps.{is_opened, is_closed, calls_of, Quiet, Quiet-perform_with}
use rufio.Controller.Exec.Always.{
  IsPreorder, Always, Always-pure, Always-bind, SameCalls-IsPreorder, Always-Quiet, Quiet-Always,
}
use rufio.Controller.Exec.Balance.{Balanced}
use rufio.Controller.Client.{BmcOptions, configured_client, open_in_time, new_client_func}

module _ (env : Env) (timeout : ℕ) where
  open env use {World, Bmc}

  -- What NewClientFunc's function does to the state is what opening a client does to it.
  pub new_client_func-Always :
      {R : State World Bmc → State World Bmc → Type 0} (pre : IsPreorder R)
      → ((b : Bmc) → Always R (perform_with (Call.open_client b) (env.open_client timeout b)))
      → (host username password : Text) (opts : Option BmcOptions)
      → Always R (new_client_func env timeout host username password opts)
  unfolding new_client_func open_in_time
  new_client_func-Always pre h host username password opts =
      Always-bind pre _ _ (h _) (elim [ none ↦ Always-pure pre _ | some e ↦ Always-pure pre _ ])

  -- What NewClientFunc's function does passes no test that opening a client does not pass.
  pub new_client_func-Quiet :
      (p : Call Bmc → Bool) (host username password : Text) (opts : Option BmcOptions)
      → ((b : Bmc) (e : Option Error) → p (Call.open_client b e) ≡ false)
      → Quiet p (new_client_func env timeout host username password opts)
  new_client_func-Quiet p host username password opts h = Always-Quiet p _ (
      new_client_func-Always (SameCalls-IsPreorder p)
        (λ b. Quiet-Always p _ (Quiet-perform_with _ _ (λ e. h b e))) host username password opts)

  -- The open call has failed, or the client is open.
  open_in_time-cases :
      (b : Bmc) (s : State World Bmc)
      → let (r, s') = open_in_time env timeout b s in
        ((e : Error) × (r ≡ done (err e)) × (calls_of is_opened s' ≡ calls_of is_opened s))
        ⊎ ((r ≡ done (ok b)) × (calls_of is_opened s' ≡ 1 + calls_of is_opened s))
  unfolding open_in_time ◌>>=◌
  open_in_time-cases b s = elim (Option-cases (env.open_client timeout b s.world).0) [
    | inl e ↦ rw e (inr (refl, omega arith))
    | inr (x, e) ↦ rw e (inl (wrapf (codes "failed to open connection to BMC: ") x, refl, refl))
  ]

  module _ {A : Type 0} where
    -- It closes one client more than it opens.
    abbrev pub Closes : Exec World Bmc A → Type 0
    Closes m =
        (s : State World Bmc)
        → calls_of is_opened (m s).1 + calls_of is_closed s + 1
          ≡ calls_of is_closed (m s).1 + calls_of is_opened s

    -- A use of a client, with a deferred close, closes it whether the use returns or panics.
    pub finally-Closes :
        (m : Exec World Bmc A) (b : Bmc)
        → Quiet is_opened m
        → Quiet is_closed m
        → Closes (finally m (perform (Call.close_client b) (env.close_client b)))
    unfolding finally perform_with
    finally-Closes m b ho hc s = omega (arith, ho.at s, hc.at s)

    -- What goes on with a client of NewClientFunc closes as many clients as are opened, if it
    -- closes the client that it is given, and none where none is given.
    pub with_client-Balanced :
        (host username password : Text) (opts : Option BmcOptions)
        (f : Result Bmc → Exec World Bmc A)
        → ((e : Error) → Balanced (f (err e)))
        → ((b : Bmc) → Closes (f (ok b)))
        → Balanced (new_client_func env timeout host username password opts >>= f)
    unfolding new_client_func ◌>>=◌
    with_client-Balanced host username password opts f hf hc = record {
      at = λ s.
          let b = configured_client env host username password opts in
          let closed =
            (new_client_func-Quiet is_closed host username password opts (λ b e. refl)).at s in
          elim (open_in_time-cases b s) [
            | inl (e, r, o) ↦
                rw (r, resume) (omega (arith, (hf e).at (open_in_time env timeout b s).1))
            | inr (r, o) ↦ rw (r, resume) (omega (arith, hc b (open_in_time env timeout b s).1))
          ];
    }
