-- ===== src/Controller/Task/Recorded.antt =====
-- What the start of a Task's action writes of it, field by field.
use rufio.Prelude.{◌≡◌, refl, Option, none, some, [], ◌∷◌, ◌++◌, if◌then◌else◌}
use rufio.Prelude.Text.{Text, text_eq, text_eq_refl}
use rufio.Api.Meta.{Time}
use rufio.Api.Conditions.{apply_options}
use rufio.Api.Conditions.Laws.{find_if, or_fresh, find_if-update_self}
use rufio.Api.Machine.{condition_true, ConditionStatus}
use rufio.Api.Task.{
  Task, TaskCondition, TaskConditionType, task_failed, has_condition, set_condition,
  fresh_condition,
}
use rufio.Api.Task.Laws.{has_condition-set_condition_task}
use rufio.Controller.Error.{Error, message}
use rufio.Controller.Env.{Env}
use rufio.Controller.Exec.{State, Call, Outcome, done, panic, stop, ◌>>=◌}
use rufio.Controller.Task.{mark_failed, mark_started, run_task, start_task}
use rufio.Controller.Task.Outcomes.{
  power_calls, boot_calls, media_calls, at_start, run_task-order, start_task_starts,
  start_task_fails,
}

-- The task `after` is `task`, started at a time and failed with a text.
pub record IsFailedFrom (task : Task) (now : Time) (text : Text) (after : Task) : Type 0 where
  pub object_meta : after.object_meta ≡ task.object_meta
  pub spec : after.spec ≡ task.spec
  pub start_time : after.status.start_time ≡ some now
  pub completion_time : after.status.completion_time ≡ task.status.completion_time
  pub condition : TaskCondition
  pub found : find_if (λ c. text_eq c.type task_failed) after.status.conditions ≡ some condition
  pub at_status : condition.status ≡ condition_true
  pub at_message : condition.message ≡ text
  pub conditions :
      (u : TaskConditionType) (v : ConditionStatus)
      → has_condition after u v
        ≡ (if text_eq task_failed u then text_eq condition_true v else has_condition task u v)

failed-IsFailedFrom :
    (task : Task) (now : Time) (text : Text)
    → IsFailedFrom task now text (mark_failed (mark_started task now) text)
unfolding mark_failed mark_started set_condition has_condition apply_options
failed-IsFailedFrom task now text = record {
  object_meta = refl;
  spec = refl;
  start_time = refl;
  completion_time = refl;
  condition =
      record (or_fresh
        (find_if (λ (c : TaskCondition). text_eq c.type task_failed) task.status.conditions)
        (fresh_condition task_failed)) { status = condition_true; message = text };
  found =
      find_if-update_self (λ c. text_eq c.type task_failed) (fresh_condition task_failed)
        (λ c. record c { status = condition_true; message = text }) task.status.conditions
        (text_eq_refl task_failed) (λ c. refl);
  at_status = refl;
  at_message = refl;
  conditions = λ u v.
      has_condition-set_condition_task (mark_started task now) task_failed u condition_true v
        (text ∷ []);
}

module _ (env : Env) (b : env.Bmc) (task : Task) (s : State env.World env.Bmc) where
  open env use {World, Bmc}

  -- The state after the action was run, once the clock was read.
  abbrev pub after_run : Outcome (Option Error) × State World Bmc
  after_run = run_task env task.spec.task b (at_start env b s)

  -- What the start of the task comes to, by what the action comes to.
  abbrev pub StartOutcome : Outcome (Option Error) → Type 0
  StartOutcome (done none) =
      (start_task env task b s).1.calls
      ≡ Call.patch_task_status
          (record task { status = record task.status { start_time = some (env.now s.world).0 } })
        ∷ (media_calls b task.spec.task.virtual_media_action
            ++ (boot_calls b task.spec.task.one_time_boot_device_action
                ++ (power_calls b task.spec.task.power_action ++ Call.read_clock ∷ s.calls)))
  StartOutcome (done (some e)) =
      ((x : Error) × ((start_task env task b s).0 ≡ done (stop (some x))))
      × ((after : Task) × ((start_task env task b s).1.calls
            ≡ Call.patch_task_status after ∷ after_run.1.calls)
          × IsFailedFrom task (env.now s.world).0 (message e) after)
  StartOutcome panic =
      ((start_task env task b s).0 ≡ panic)
      × ((start_task env task b s).1.calls ≡ after_run.1.calls)

  started_calls : after_run.0 ≡ done none → StartOutcome (done none)
  unfolding mark_started
  started_calls ran =
      rw
        (
          start_task_starts env b task s ran,
          run_task-order env b task.spec.task (at_start env b s) ran,
        )
        refl

  start_outcome : (r : Outcome (Option Error)) → after_run.0 ≡ r → StartOutcome r
  unfolding start_task ◌>>=◌
  start_outcome (done none) ran = started_calls ran
  start_outcome (done (some e)) ran =
      let (x, calls) = start_task_fails env b task s e ran in
      (x, (_, calls, failed-IsFailedFrom task (env.now s.world).0 (message e)))
  start_outcome panic ran = rw ran (refl, refl)

  -- The start of a Task, for each outcome of its action. Where the action returns no error, the calls
  -- are those of the clock, of the power, boot device and virtual media parts of the action, in this
  -- order, and one patch of the task, with only its start time changed, to the time of the clock.
  -- Where the action returns an error, the calls are those of the clock and of the action, and one
  -- patch of the task, with that start time and the condition Failed with the text of the error, and
  -- else as it was; an error is returned, with no requeue. Where the action panics, the start does
  -- too, and nothing is patched.
  pub start_task_lem : StartOutcome after_run.0
  start_task_lem = start_outcome after_run.0 refl
