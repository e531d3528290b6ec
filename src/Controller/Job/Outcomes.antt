-- ===== src/Controller/Job/Outcomes.antt =====
-- What a Job's reconciliation does next, from the tasks that the job owns.
use rufio.Prelude.{
  ℕ, ◌≡◌, ◌<◌, ◌==◌, ◌∙◌, refl, true, false, Option, none, some, List, ◌∷◌, ◌++◌, length, All,
  arith, get_elem?, get_elem?-lt, get_elem?-none, Option-cases, inl, inr,
}
use native.Mathlib.Nat.{zero-add}
use rufio.Prelude.Text.{codes}
use rufio.Api.Action.{Action}
use rufio.Api.Machine.{Machine}
use rufio.Api.Task.{Task}
use rufio.Api.Job.{Job}
use rufio.Controller.Error.{Error, errorf, wrapf, message}
use rufio.Controller.Env.{Env}
use rufio.Controller.Exec.{Call, State, done, panic, pure, ◌>>=◌, stop}
use rufio.Controller.Exec.Keeps.{calls-bind_pure}
use rufio.Controller.Job.{
  scan_tasks, object_name, mark_failed, mark_completed, owned_task, patch_status, fail_job,
  create_task, create_task_with_owner, task_created, next_task, advance,
}
use rufio.Controller.Job.Scan.{
  IsCompleted, IsOpen, HasFailed, scan_tasks-completed, scan_tasks-first_open,
}

-- The job that is patched after the call that creates a task, by the error of that call.
abbrev pub job_after_create : Job → Task → Option Error → Job
job_after_create job task none = job
job_after_create job task (some e) = mark_failed job (
    message (
      wrapf
        (object_name (codes "failed to create Task ") task.object_meta.namespace
          (task.object_meta.name ++ codes ": "))
        e))

module _ (env : Env) (job original : Job) (machine : Machine) where
  open env use {World, Bmc}

  patch_status_calls :
      (j : Job) (s : State World Bmc)
      → (patch_status env j original s).1.calls ≡ Call.patch_job_status j ∷ s.calls
  unfolding patch_status ◌>>=◌
  patch_status_calls j s = elim (Option-cases (env.patch_job_status j original s.world).0) [
    | inl p ↦ rw p
    | inr (x, p) ↦ rw p
  ]

  patched_calls :
      (j : Job) (s : State World Bmc)
      → ((patch_status env j original >>= λ patched. pure (stop patched)) s).1.calls
        ≡ Call.patch_job_status j ∷ s.calls
  patched_calls j s = calls-bind_pure (patch_status env j original) stop s ∙ patch_status_calls j s

  -- A failure is patched once, and returned or aggregated.
  fail_job_lem :
      (e : Error) (s : State World Bmc)
      → ((x : Error) × ((fail_job env job original e s).0 ≡ done (stop (some x))))
        × ((fail_job env job original e s).1.calls
            ≡ Call.patch_job_status (mark_failed job (message e)) ∷ s.calls)
  unfolding fail_job patch_status ◌>>=◌
  fail_job_lem e s =
      elim (Option-cases (env.patch_job_status (mark_failed job (message e)) original s.world).0) [
        | inl p ↦ rw p ((e, refl), refl)
        | inr (x, p) ↦ rw p ((_, refl), refl)
      ]

  create_and_patch :
      (n : ℕ) (action : Action) (s : State World Bmc)
      → let task = owned_task job n action machine.spec.connection in
        ((create_task env job n machine.spec.connection (some action)
            >>= task_created env job original)
          s).1.calls
        ≡ Call.patch_job_status (job_after_create job task (env.create_task task s.world).0)
          ∷ Call.create_task task
          ∷ s.calls
  unfolding create_task task_created ◌>>=◌
  create_and_patch n action s =
      let task = owned_task job n action machine.spec.connection in
      elim (Option-cases (env.create_task task s.world).0) [
        | inl p ↦ rw p (patched_calls job _)
        | inr (e, p) ↦ rw p (fail_job_lem _ _).1
      ]

  module _ (items : List Task) (s : State World Bmc) (completed : All IsCompleted items) where
    -- Where the job owns as many tasks as it lists actions, and all are completed, the job is
    -- patched once, as completed at the time of the clock, and no task is created.
    pub advance_completes :
        length items ≡ length job.spec.tasks
        → (advance env job original machine (scan_tasks 0 items) s).1.calls
          ≡ Call.patch_job_status (mark_completed job (env.now s.world).0)
            ∷ Call.read_clock
            ∷ s.calls
    unfolding advance next_task
    advance_completes e =
        let full : (length items == length job.spec.tasks) ≡ true = ground arith in
        rw (scan_tasks-completed 0 items completed, zero-add, full)
          (unfold ◌>>=◌ in patched_calls (mark_completed job (env.now s.world).0) _)

    -- Where it owns fewer, one task is created, for the action whose index is the number of tasks
    -- that it owns, and then the job is patched once: as it is, or as failed with the text of the
    -- error where the creation fails.
    pub advance_creates :
        length items < length job.spec.tasks
        → (action : Action) × (get_elem? job.spec.tasks (length items) ≡ some action)
          × (let task = owned_task job (length items) action machine.spec.connection in
              (advance env job original machine (scan_tasks 0 items) s).1.calls
              ≡ Call.patch_job_status (job_after_create job task (env.create_task task s.world).0)
                ∷ Call.create_task task
                ∷ s.calls)
    unfolding advance next_task create_task_with_owner create_task
    advance_creates h =
        let partial : (length items == length job.spec.tasks) ≡ false = ground arith in
        let (action, found) = get_elem?-lt job.spec.tasks (length items) h in
        (
          action,
          found,
          rw (scan_tasks-completed 0 items completed, zero-add, partial, found)
              (create_and_patch (length items) action s),
        )

    -- Where it owns more, the reconciliation panics: the index of the next action is out of range.
    pub advance_panics :
        length job.spec.tasks < length items
        → advance env job original machine (scan_tasks 0 items) s ≡ (panic, s)
    unfolding advance next_task create_task_with_owner create_task ◌>>=◌
    advance_panics h =
        let more : (length items == length job.spec.tasks) ≡ false = ground arith in
        rw (
          scan_tasks-completed 0 items completed,
          zero-add,
          more,
          get_elem?-none job.spec.tasks (length items) h,
        )

  module _ (before : List Task) (task : Task) (after : List Task) (s : State World Bmc)
      (completed : All IsCompleted before) (open_task : IsOpen task) where
    -- Where the first task that is not completed has failed, the job is patched once, as failed with
    -- the name of that task, and the reconciliation returns an error. No task is created.
    pub advance_fails :
        HasFailed task true
        → let e = errorf (
            object_name
              (codes "task ")
              task.object_meta.namespace
              (task.object_meta.name ++ codes " failed")) in
          let r = advance env job original machine (scan_tasks 0 (before ++ task ∷ after)) s in
          ((x : Error) × (r.0 ≡ done (stop (some x))))
          × (r.1.calls ≡ Call.patch_job_status (mark_failed job (message e)) ∷ s.calls)
    unfolding advance
    advance_fails failed =
        rw (scan_tasks-first_open 0 before task after completed open_task, failed)
          (fail_job_lem _ s)

    -- Where it has not failed, nothing is called: the tasks run one after the other.
    pub advance_waits :
        HasFailed task false
        → advance env job original machine (scan_tasks 0 (before ++ task ∷ after)) s
          ≡ (done (stop none), s)
    unfolding advance pure
    advance_waits running =
        rw (scan_tasks-first_open 0 before task after completed open_task, running)
