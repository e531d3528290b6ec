-- ===== src/Startup/Order.antt =====
-- The calls that main makes, in their order, up to the first that fails.
use rufio.Prelude.{
  ℕ, zero, suc, ◌+◌, ◌≡◌, ◌<◌, ◌⊎◌, inl, inr, Bool, true, false, Option, none, some, List, [], ◌∷◌,
  ◌++◌, length, refl, sym, ap, length-append, ◌∙◌, arith, Option-cases,
}
use rufio.Prelude.Text.{codes}
use rufio.Controller.Error.{Error, Result, ok, err}
use rufio.Controller.Env.{Env}
use rufio.Controller.Client.{new_client_func}
use rufio.Controller.Job.{task_owner_index_func}
use rufio.Startup.{
  Flags, Runtime, pure, Step, load_config, make_manager, add_index, register, check_health,
  check_ready, start_manager, task_objects, job_owner_key, options_of, new_client_config, Ended,
  returned, exited, State, Start, perform, resume, ◌>>=◌, value_or_exit, or_exit, is_ok, is_nil,
  machine_registration, job_registration, task_registration, setup_with_manager,
  setup_job_with_manager, setup_reconcilers, main,
}

-- The calls of a list when the one of the index fails, or when none fails.
abbrev pub attempts : {S : Type 0} → List S → ℕ → List (S × Bool)
attempts [] n = []
attempts (x ∷ xs) zero = (x, false) ∷ []
attempts (x ∷ xs) (suc n) = (x, true) ∷ attempts xs n

-- They are made one by one, newest first.
abbrev pub push : {A : Type 0} → List A → List A → List A
push [] ys = ys
push (x ∷ xs) ys = push xs (x ∷ ys)

-- All calls of the list were made and the step has returned, or they were made up to one that failed
-- and the process has ended with code 1.
abbrev pub IsRun : {W S A : Type 0} → List S → List (S × Bool) → Ended A × State W S → Type 0
IsRun {A = A} xs before r =
    ((a : A) × (r.0 ≡ returned a) × (r.1.steps ≡ push (attempts xs (length xs)) before))
    ⊎ ((n : ℕ) × (n < length xs) × (r.0 ≡ exited 1) × (r.1.steps ≡ push (attempts xs n) before))

Result-cases : {A : Type 0} (r : Result A) → ((a : A) × (r ≡ ok a)) ⊎ ((e : Error) × (r ≡ err e))
Result-cases (ok a) = inl (a, refl)
Result-cases (err e) = inr (e, refl)

abbrev pub Runs : {W S A : Type 0} → List S → Start W S A → Type 0
Runs xs m = (s : State _ _) → IsRun xs s.steps (m s)

push-append : {A : Type 0} → (xs ys zs : List A) → push (xs ++ ys) zs ≡ push ys (push xs zs)
push-append [] ys zs = refl
push-append (x ∷ xs) ys zs = push-append xs ys (x ∷ zs)

module _ {S : Type 0} where
  attempts-append_add :
      (xs ys : List S) (m n : ℕ)
      → m ≡ length xs + n
      → attempts (xs ++ ys) m ≡ attempts xs (length xs) ++ attempts ys n
  attempts-append_add [] ys m n h = ap (attempts ys) (omega (arith, h))
  attempts-append_add (x ∷ xs) ys zero n h = absurd (omega arith)
  attempts-append_add (x ∷ xs) ys (suc m) n h =
      ap (λ t. (x, true) ∷ t) (attempts-append_add xs ys m n (omega (arith, h)))

  attempts-append_lt :
      (xs ys : List S) (n : ℕ) → n < length xs → attempts (xs ++ ys) n ≡ attempts xs n
  attempts-append_lt [] ys n h = absurd (omega arith)
  attempts-append_lt (x ∷ xs) ys zero h = refl
  attempts-append_lt (x ∷ xs) ys (suc n) h =
      ap (λ t. (x, true) ∷ t) (attempts-append_lt xs ys n (omega arith))

  -- The second list begins where the first ends.
  append_steps :
      (xs ys : List S) (n : ℕ) (before middle after : List (S × Bool))
      → middle ≡ push (attempts xs (length xs)) before
      → after ≡ push (attempts ys n) middle
      → after ≡ push (attempts (xs ++ ys) (length xs + n)) before
  append_steps xs ys n before middle after h g =
      g
      ∙ ap (push (attempts ys n)) h
      ∙ sym (push-append (attempts xs (length xs)) (attempts ys n) before)
      ∙ ap (λ t. push t before) (sym (attempts-append_add xs ys (length xs + n) n refl))

module _ {W S : Type 0} where
  then-IsRun :
      {A C : Type 0} (xs ys : List S) (before : List (S × Bool)) (f : A → Start W S C)
      (r : Ended A × State W S)
      → IsRun xs before r
      → ((a : A) → Runs ys (f a))
      → IsRun (xs ++ ys) before (resume f r.0 r.1)
  then-IsRun xs ys before f r (inl h) g =
      let len = length-append xs ys in
      rw h.1 (elim (g h.0 r.1) [
        | inl k ↦ inl (
          k.0,
          k.1,
          append_steps xs ys (length ys) before r.1.steps _ h.2 k.2
              ∙ ap (λ n. push (attempts (xs ++ ys) n) before) (sym len),
        )
        | inr k ↦
            let lt = k.1 in
            inr (
              length xs + k.0,
              rw len (omega (arith, lt)),
              k.2,
              append_steps xs ys k.0 before r.1.steps _ h.2 k.3,
            )
      ])
  then-IsRun xs ys before f r (inr h) g =
      let len = length-append xs ys in
      let lt = h.1 in
      rw h.2 (
        inr (
          h.0,
          omega (arith, len),
          refl,
          h.3 ∙ ap (λ t. push t before) (sym (attempts-append_lt xs ys h.0 lt)),
        ))

  bind-Runs :
      {A C : Type 0} (xs ys : List S) (m : Start W S A) (f : A → Start W S C)
      → Runs xs m
      → ((a : A) → Runs ys (f a))
      → Runs (xs ++ ys) (m >>= f)
  unfolding ◌>>=◌
  bind-Runs xs ys m f h g s = then-IsRun xs ys s.steps f (m s) (h s) g

  value_or_exit-Runs :
      {A : Type 0} (step : S) (op : W → Result A × W)
      → Runs (step ∷ []) (value_or_exit (perform is_ok step op))
  unfolding value_or_exit perform ◌>>=◌
  value_or_exit-Runs step op s = elim (Result-cases (op s.world).0) [
    | inl h ↦ rw h.1 (inl (h.0, refl, refl))
    | inr h ↦ rw h.1 (inr (0, omega arith, refl, refl))
  ]

  or_exit-Runs :
      (step : S) (op : W → Option Error × W) → Runs (step ∷ []) (or_exit (perform is_nil step op))
  unfolding or_exit perform ◌>>=◌
  or_exit-Runs step op s = elim (Option-cases (op s.world).0) [
    | inl h ↦ rw h (inl (tt, refl, refl))
    | inr h ↦ rw h.1 (inr (0, omega arith, refl, refl))
  ]

  or_exit-resume :
      (k : Start W S (Option Error)) (r : Ended (Option Error)) (s s' : State W S)
      → or_exit (λ _. resume (λ e. elim e [ some e ↦ pure (some e) | none ↦ k ]) r s') s
        ≡ (or_exit (λ _. (r, s')) >>= λ _. or_exit k) s
  unfolding or_exit ◌>>=◌
  or_exit-resume k (returned none) s s' = refl
  or_exit-resume k (returned (some e)) s s' = refl
  or_exit-resume k (exited code) s s' = refl

  or_exit-bind :
      (m k : Start W S (Option Error)) (s : State W S)
      → or_exit (m >>= λ e. elim e [ some e ↦ pure (some e) | none ↦ k ]) s
        ≡ (or_exit m >>= λ _. or_exit k) s
  unfolding or_exit ◌>>=◌
  or_exit-bind m k s = or_exit-resume k (m s).0 s (m s).1

  -- An error that is returned early, and then tested.
  both-or_exit-Runs :
      (xs ys : List S) (m k : Start W S (Option Error))
      → Runs xs (or_exit m)
      → Runs ys (or_exit k)
      → Runs (xs ++ ys) (or_exit (m >>= λ e. elim e [ some e ↦ pure (some e) | none ↦ k ]))
  both-or_exit-Runs xs ys m k h g s =
      rw (or_exit-bind m k s) (bind-Runs xs ys (or_exit m) (λ _. or_exit k) h (λ _. g) s)

module _ (env : Env) where
  -- The calls of setupReconcilers.
  abbrev pub registrations : Flags → List (Step env)
  registrations flags =
      let factory = new_client_func env flags.bmc_connect_timeout in
      let max = flags.max_concurrent_reconciles in
      register (machine_registration env factory max)
      ∷ add_index task_objects job_owner_key (task_owner_index_func env)
      ∷ register (job_registration env max)
      ∷ register (task_registration env factory max)
      ∷ []

  -- All calls of main.
  abbrev pub all_steps : Flags → List (Step env)
  all_steps flags =
      load_config (new_client_config flags.kube_api_server flags.kubeconfig)
      ∷ make_manager (options_of flags)
      ∷ (registrations flags
          ++ check_health (codes "healthz") ∷ check_ready (codes "readyz") ∷ start_manager ∷ [])

module _ (env : Env) (runtime : Runtime env) where
  setup_reconcilers-Runs :
      (mgr : runtime.Manager) (flags : Flags)
      → Runs (registrations env flags) (
          setup_reconcilers env runtime mgr
            (new_client_func env flags.bmc_connect_timeout)
            flags.max_concurrent_reconciles)
  unfolding setup_reconcilers setup_job_with_manager setup_with_manager
  setup_reconcilers-Runs mgr flags =
      bind-Runs (_ ∷ []) (_ ∷ _ ∷ _ ∷ []) _ _ (or_exit-Runs _ _) (λ _.
        bind-Runs (_ ∷ _ ∷ []) (_ ∷ []) _ _
          (both-or_exit-Runs (_ ∷ []) (_ ∷ []) _ _ (or_exit-Runs _ _) (or_exit-Runs _ _))
          (λ _. or_exit-Runs _ _))

  -- main makes its calls in a fixed order: it loads the configuration, makes the manager, registers
  -- the machine reconciler, the index of tasks by owner, the job reconciler and the task reconciler,
  -- adds the two checks and starts the manager. Either all of them succeed and main returns, or they
  -- are made up to the first that fails, and the process ends with code 1.
  pub main-IsRun :
      (flags : Flags) (s : State runtime.World (Step env))
      → IsRun (all_steps env flags) s.steps (main env runtime flags s)
  unfolding main
  main-IsRun flags =
      bind-Runs (_ ∷ []) (_ ∷ (registrations env flags ++ _ ∷ _ ∷ _ ∷ [])) _ _
        (value_or_exit-Runs _ _)
        (λ cfg.
          bind-Runs (_ ∷ []) (registrations env flags ++ _ ∷ _ ∷ _ ∷ []) _ _
            (value_or_exit-Runs _ _)
            (λ mgr.
              bind-Runs (registrations env flags) (_ ∷ _ ∷ _ ∷ []) _ _
                (setup_reconcilers-Runs mgr flags)
                (λ _. bind-Runs (_ ∷ []) (_ ∷ _ ∷ []) _ _ (or_exit-Runs _ _) (λ _.
                  bind-Runs (_ ∷ []) (_ ∷ []) _ _ (or_exit-Runs _ _) (λ _. or_exit-Runs _ _)))))
