-- ===== src/System/Tasks/Begins.antt =====
-- One reconciliation of a Task that has no start time: it makes no call of an action, or it makes the
-- calls of one run of the action and the start is recorded.
use rufio.Prelude.{
  ℕ, ◌+◌, ◌≤◌, ◌≡◌, ◌⊎◌, inl, inr, refl, ◌∙◌, subst, sym, Bool, true, false, not, List,
  if◌then◌else◌, arith,
}
use rufio.Prelude.Text.{Text}
use rufio.Api.Meta.{NamespacedName, is_zero}
use rufio.Api.Task.{Task}
use rufio.Controller.Error.{ok, err}
use rufio.Controller.Env.{Env}
use rufio.Controller.Exec.{State, Exec, Outcome, done, panic, resume, finally, ◌>>=◌}
use rufio.Controller.Exec.Keeps.{is_action, calls_of, Quiet, Quiet-pure, Quiet-perform_with}
use rufio.Controller.Exec.Always.{Always}
use rufio.Controller.Login.Calls.{login-Quiet}
use rufio.Controller.Client.{BmcOptions, new_client_func}
use rufio.Controller.Client.Calls.{new_client_func-Always, new_client_func-Quiet}
use rufio.Controller.Task.{
  use_client, login, connected_task, is_settled, do_reconcile, reconcile_found, reconcile,
}
use rufio.Controller.Task.Calls.{fail_task-Quiet}
use rufio.System.{View, IsLawful}
use rufio.System.Tasks.{key_of, IsAt, IsTaskLawful}
use rufio.System.Tasks.Leads.{SameView}
use rufio.System.Tasks.Runs.{HasDevice}
use rufio.System.Tasks.Steady.{perform-steady, steady, login-steady}
use rufio.System.Tasks.Moves.{found_state, reconcile_is}
use rufio.System.Tasks.Begun.{IsKept, parts, BeginsView, start_task-AtMost, start_task-Begins}

module _ {W B V : Type 0} (view : W → V) (n : ℕ) (Q : V → Type 0) where
  -- From the view `v` it makes no call of an action, or at most `n` and ends with a view of `Q`.
  pub record Begins {A : Type 0} (v : V) (m : Exec W B A) : Type 0 where
    pub at :
        (s : State W B)
        → view s.world ≡ v
        → (calls_of is_action (m s).1 ≡ calls_of is_action s)
          ⊎ ((calls_of is_action (m s).1 ≤ n + calls_of is_action s) × Q (view (m s).1.world))

  module _ {v : V} where
    pub Begins-Quiet : {A : Type 0} (m : Exec W B A) → Quiet is_action m → Begins v m
    Begins-Quiet m h = record { at = λ s e. inl (h.at s) }

    Begins-resume :
        {A C : Type 0} (f : A → Exec W B C) (r : Outcome A) (s t : State W B)
        → calls_of is_action t ≡ calls_of is_action s
        → view t.world ≡ v
        → ((a : A) → Begins v (f a))
        → (calls_of is_action (resume f r t).1 ≡ calls_of is_action s)
          ⊎ ((calls_of is_action (resume f r t).1 ≤ n + calls_of is_action s)
              × Q (view (resume f r t).1.world))
    Begins-resume f (done a) s t c e h = elim ((h a).at t e) [
      | inl k ↦ inl (k ∙ c)
      | inr (k, q) ↦ inr (omega (arith, c, k), q)
    ]
    Begins-resume f panic s t c e h = inl c

    pub Begins-bind :
        {A C : Type 0} (m : Exec W B A) (f : A → Exec W B C)
        → Quiet is_action m
        → Always (SameView view) m
        → ((a : A) → Begins v (f a))
        → Begins v (m >>= f)
    unfolding ◌>>=◌
    Begins-bind m f hq hm hf = record {
      at = λ s e. Begins-resume f (m s).0 s (m s).1 (hq.at s) (hm.at s ∙ e) hf;
    }

    pub Begins-finally :
        {A C : Type 0} (m : Exec W B A) (cleanup : Exec W B C)
        → Begins v m
        → Quiet is_action cleanup
        → Always (SameView view) cleanup
        → Begins v (finally m cleanup)
    unfolding finally
    Begins-finally m cleanup hm hq hc = record {
      at = λ s e. elim (hm.at s e) [
        | inl k ↦ inl (hq.at (m s).1 ∙ k)
        | inr (k, q) ↦ inr (omega (arith, k, hq.at (m s).1), subst Q (sym (hc.at (m s).1)) q)
      ];
    }

    pub Begins-if :
        {A : Type 0} (b : Bool) (m k : Exec W B A)
        → Begins v m
        → Begins v k
        → Begins v (if b then m else k)
    Begins-if true m k hm hk = hm
    Begins-if false m k hm hk = hk

module _ (env : Env) (req : NamespacedName) (law : IsLawful env req)
    (tasks_law : IsTaskLawful env req law) (kept : IsKept env req law) (v : View)
    (before : List Task) (t : Task) (after : List Task) (placed : IsAt v.tasks before t after)
    (boots : HasDevice t.spec.task.one_time_boot_device_action)
    (new : is_zero t.status.start_time ≡ true) where
  open env use {World, Bmc}
  open law use {view}

  abbrev ThisBegins : {A : Type 0} → Exec World Bmc A → Type 0
  ThisBegins m =
      Begins view (parts t.spec.task)
        (BeginsView env req law tasks_law kept v before t after placed) v m

  use_client-Begins : (b : Bmc) → ThisBegins (use_client env t b)
  unfolding use_client
  use_client-Begins b = rw new (record {
    at = λ s e.
        let (_, _, q) =
          (start_task-Begins env req law tasks_law kept v before t after placed b boots).at s e in
        inr ((start_task-AtMost env t b).at s, q);
  })

  connected_task-Begins :
      (timeout : ℕ) (username password : Text) (opts : BmcOptions)
      → ThisBegins (connected_task env (new_client_func env timeout) t username password opts)
  unfolding connected_task
  connected_task-Begins timeout username password opts =
      Begins-bind view _ _ _ _
        (new_client_func-Quiet env timeout is_action _ username password _ (λ b e. refl))
        (new_client_func-Always env timeout (steady env req law tasks_law)
          (λ b. perform-steady env req law tasks_law _ _ (tasks_law.open_client_view timeout b)) _
          username password _)
        (elim [
          | err e ↦ Begins-Quiet view _ _ _ (fail_task-Quiet env is_action _ _ _ _ refl)
          | ok b ↦
              Begins-finally view _ _ _ _ (use_client-Begins b) (Quiet-perform_with _ _ (λ a. refl))
                (perform-steady env req law tasks_law _ _ (tasks_law.close_client_view b))
        ])

  reconcile_found-Begins :
      (timeout : ℕ) → ThisBegins (reconcile_found env (new_client_func env timeout) t)
  unfolding reconcile_found do_reconcile login
  reconcile_found-Begins timeout =
      Begins-if view _ _ (not (is_zero t.object_meta.deletion_timestamp)) _ _
        (Begins-Quiet view _ _ _ (Quiet-pure _))
        (Begins-if view _ _ (is_settled t) _ _ (Begins-Quiet view _ _ _ (Quiet-pure _)) (
          Begins-bind view _ _ _ _ (login-Quiet env is_action (λ k. refl) _ _)
            (login-steady env req law tasks_law t)
            (elim [
              | err e ↦ Begins-Quiet view _ _ _ (Quiet-pure _)
              | ok (u, p, o) ↦ connected_task-Begins timeout u p o
            ])))

  pub reconcile_begins :
      (timeout : ℕ) (s : State World Bmc)
      → view s.world ≡ v
      → let s' = (reconcile env (new_client_func env timeout) (key_of t) s).1 in
        (calls_of is_action s' ≡ calls_of is_action s)
        ⊎ ((calls_of is_action s' ≤ parts t.spec.task + calls_of is_action s)
            × BeginsView env req law tasks_law kept v before t after placed (view s'.world))
  reconcile_begins timeout s e =
      rw
        (reconcile_is env req law tasks_law (λ _. Unit) v before t after placed timeout s.world e
          s.calls)
        ((reconcile_found-Begins timeout).at
          (found_state env req law tasks_law (λ _. Unit) v before t after placed timeout s.world e
            s.calls)
          (tasks_law.get_task_view _ s.world ∙ e))
