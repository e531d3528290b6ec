-- ===== src/Controller/Task/Status.antt =====
-- The status that the reconciler of Tasks writes.
use rufio.Prelude.{
  ◌≡◌, refl, Bool, true, false, not, ◌&&◌, Option, none, some, [], ◌∷◌, ℕ, arith, Bool-cases, inl,
  inr,
}
use rufio.Prelude.Text.{Text, text_eq}
use rufio.Api.Meta.{Time, NamespacedName, is_zero}
use rufio.Api.Machine.{condition_true}
use rufio.Api.Task.{Task, has_condition, set_condition, task_failed, task_completed}
use rufio.Api.Task.Laws.{has_condition-set_condition_task}
use rufio.Controller.Error.{ok, err}
use rufio.Controller.Env.{Env}
use rufio.Controller.Exec.{Call, State, ◌>>=◌}
use rufio.Controller.Exec.Keeps.{
  calls_of, Quiet, Quiet-pure, Quiet-bind, Quiet-if, Quiet-finally, quiet_rules,
}
use rufio.Controller.Client.{new_client_func}
use rufio.Controller.Client.Calls.{new_client_func-Quiet}
use rufio.Controller.Login.Calls.{login-Quiet}
use rufio.Controller.Task.Calls.{fail_task-Quiet, follow_task-Quiet, start_task-Quiet}
use rufio.Controller.Task.{
  is_settled, mark_failed, mark_completed, mark_started, use_client, login, connected_task,
  do_reconcile, reconcile_found, reconcile,
}

abbrev pub is_some : {A : Type 0} → Option A → Bool
is_some none = false
is_some (some a) = true

abbrev pub same : Bool → Bool → Bool
same true b = b
same false b = not b

-- The status of a task is coherent: it is not both Completed and Failed, and it has a completion
-- time exactly if it is Completed.
unfoldable pub is_coherent : Task → Bool
is_coherent t =
    not
      (has_condition t task_completed condition_true && has_condition t task_failed condition_true)
    && same (has_condition t task_completed condition_true) (is_some t.status.completion_time)

mark_failed-failed :
    (t : Task) (m : Text) → has_condition (mark_failed t m) task_failed condition_true ≡ true
unfolding mark_failed text_eq
mark_failed-failed t m =
    has_condition-set_condition_task t task_failed task_failed condition_true condition_true
      (m ∷ [])

mark_failed-completed :
    (t : Task) (m : Text)
    → has_condition (mark_failed t m) task_completed condition_true
      ≡ has_condition t task_completed condition_true
unfolding mark_failed text_eq
mark_failed-completed t m =
    has_condition-set_condition_task t task_failed task_completed condition_true condition_true
      (m ∷ [])

mark_completed-completed :
    (t : Task) (now : Time)
    → has_condition (mark_completed t now) task_completed condition_true ≡ true
unfolding mark_completed text_eq
mark_completed-completed t now =
    has_condition-set_condition_task _ task_completed task_completed condition_true condition_true
      []

mark_completed-failed :
    (t : Task) (now : Time)
    → has_condition (mark_completed t now) task_failed condition_true
      ≡ has_condition t task_failed condition_true
unfolding mark_completed text_eq has_condition
mark_completed-failed t now =
    has_condition-set_condition_task _ task_completed task_failed condition_true condition_true []

completion_time-mark_failed :
    (t : Task) (m : Text) → (mark_failed t m).status.completion_time ≡ t.status.completion_time
unfolding mark_failed set_condition
completion_time-mark_failed t m = refl

completion_time-mark_completed :
    (t : Task) (now : Time) → (mark_completed t now).status.completion_time ≡ some now
unfolding mark_completed set_condition
completion_time-mark_completed t now = refl

-- A task that is not settled and has no completion time.
pub record IsPending (t : Task) : Type 0 where
  pub not_completed : has_condition t task_completed condition_true ≡ false
  pub not_failed : has_condition t task_failed condition_true ≡ false
  pub not_timed : t.status.completion_time ≡ none

mark_failed-is_coherent : (t : Task) (m : Text) → IsPending t → is_coherent (mark_failed t m) ≡ true
unfolding is_coherent
mark_failed-is_coherent t m h = rw (
  mark_failed-completed, mark_failed-failed, completion_time-mark_failed, h.not_completed,
  h.not_timed,
)

mark_completed-is_coherent :
    (t : Task) (now : Time) → IsPending t → is_coherent (mark_completed t now) ≡ true
unfolding is_coherent
mark_completed-is_coherent t now h =
    rw (
      mark_completed-completed, mark_completed-failed, completion_time-mark_completed, h.not_failed,
    )

mark_started-IsPending : (t : Task) (now : Time) → IsPending t → IsPending (mark_started t now)
unfolding mark_started has_condition
mark_started-IsPending t now h = record {
  not_completed = h.not_completed;
  not_failed = h.not_failed;
  not_timed = h.not_timed;
}

mark_started-is_coherent :
    (t : Task) (now : Time) → IsPending t → is_coherent (mark_started t now) ≡ true
unfolding is_coherent
mark_started-is_coherent t now h =
    let k = mark_started-IsPending t now h in rw (k.not_completed, k.not_timed)

module _ {B : Type 0} where
  -- A patch of a Task to a status that is not coherent.
  abbrev pub is_incoherent : Call B → Bool
  is_incoherent (Call.patch_task_status t) = not (is_coherent t)
  is_incoherent _ = false

module _ (env : Env) (timeout : ℕ) where
  open env use {World, Bmc}

  use_client-coherent :
      (t : Task) (b : Bmc) → IsPending t → Quiet is_incoherent (use_client env t b)
  unfolding use_client
  use_client-coherent t b h =
      Quiet-if _ _ _
        (follow_task-Quiet env is_incoherent t refl (λ m. rw (mark_failed-is_coherent t m h))
          (λ now. rw (mark_completed-is_coherent t now h)) (λ b. refl) _ b)
        (start_task-Quiet env is_incoherent t refl (λ now. rw (mark_started-is_coherent t now h))
          (λ now m.
            rw (mark_failed-is_coherent (mark_started t now) m (mark_started-IsPending t now h)))
          (λ x b. refl) (λ d x y b. refl) (λ k u b. refl) b)

  do_reconcile-coherent :
      (t : Task)
      → IsPending t
      → Quiet is_incoherent (do_reconcile env (new_client_func env timeout) t)
  unfolding do_reconcile login connected_task
  do_reconcile-coherent t h = Quiet-bind _ _ (login-Quiet env is_incoherent (λ k. refl) _ _) (elim [
    | err e ↦ Quiet-pure _
    | ok (u, w, o) ↦
        Quiet-bind _ _ (new_client_func-Quiet env timeout is_incoherent _ u w _ (λ b e. refl))
          (elim [
            | err e ↦ fail_task-Quiet env is_incoherent _ _ _ _ (rw (mark_failed-is_coherent t _ h))
            | ok b ↦ Quiet-finally _ _ (use_client-coherent t b h) (search quiet_rules)
          ])
  ])

  reconcile_found-coherent :
      (t : Task)
      → t.status.completion_time ≡ none
      → Quiet is_incoherent (reconcile_found env (new_client_func env timeout) t)
  unfolding reconcile_found
  reconcile_found-coherent t h =
      Quiet-if (not (is_zero t.object_meta.deletion_timestamp)) _ _ (Quiet-pure _)
        (elim (Bool-cases (is_settled t)) [
          | inl e ↦ rw e (Quiet-pure _)
          | inr e ↦ rw e (
              do_reconcile-coherent t (
                unfold is_settled in
                record { not_completed = ground arith; not_failed = ground arith; not_timed = h }))
        ])

  -- Every status of a Task that its reconciliation writes is coherent: never both Completed and
  -- Failed, with a completion time exactly where it is Completed. The Task that was read has no
  -- completion time; nothing is assumed of what the calls return.
  pub reconcile-coherent_task :
      (req : NamespacedName) (s : State World Bmc) (t : Task)
      → (env.get_task req s.world).0 ≡ ok t
      → t.status.completion_time ≡ none
      → calls_of is_incoherent (reconcile env (new_client_func env timeout) req s).1
        ≡ calls_of is_incoherent s
  unfolding reconcile ◌>>=◌
  reconcile-coherent_task req s t got h = rw got ((reconcile_found-coherent t h).at _)
