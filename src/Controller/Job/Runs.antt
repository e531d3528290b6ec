-- ===== src/Controller/Job/Runs.antt =====
-- Whole reconciliations of a Job, from the read of the job to the patch of its status.
use rufio.Prelude.{
  ◌≡◌, ◌<◌, sym, ap, ◌∙◌, true, false, none, some, List, ◌∷◌, ◌++◌, length, get_elem?, All,
  if◌then◌else◌, Bool-cases, inl, inr,
}
use rufio.Prelude.Text.{codes}
use rufio.Api.Meta.{NamespacedName, is_zero}
use rufio.Api.Action.{Action}
use rufio.Api.Machine.{Machine, condition_true}
use rufio.Api.Task.{Task}
use rufio.Api.Job.{Job, JobSpec, job_running, has_condition, set_condition}
use rufio.Controller.Error.{Error, errorf, message, ok}
use rufio.Controller.Env.{Env}
use rufio.Controller.Exec.{Call, State, done, panic, stop, ◌>>=◌}
use rufio.Controller.Job.{
  is_settled, mark_running, mark_completed, mark_failed, object_name, owned_task, scan_tasks,
  get_machine, advance, reconcile_tasks, reconcile_started, do_reconcile, reconcile_found,
  reconcile,
}
use rufio.Controller.Job.Scan.{IsCompleted, HasFailed, FirstOpen}
use rufio.Controller.Job.Outcomes.{
  job_after_create, advance_creates, advance_completes, advance_fails, advance_waits,
  advance_panics,
}

module _ (env : Env) where
  open env use {World, Bmc}

  -- The key of the machine that a job is for.
  abbrev pub machine_key : Job → NamespacedName
  machine_key job = record {
    namespace = job.spec.machine_ref.namespace;
    name = job.spec.machine_ref.name;
  }

  -- The job with its start recorded, and the state after that.
  abbrev pub started : Job → State World Bmc → Job × State World Bmc
  started job s = if has_condition job job_running condition_true then (job, s) else (
    mark_running job (env.now s.world).0,
    record { world = (env.now s.world).1; calls = Call.read_clock ∷ s.calls },
  )

  -- The states after the reads of the job, of the machine and of the tasks.
  abbrev pub read_job : NamespacedName → State World Bmc → State World Bmc
  read_job req s = record {
    world = (env.get_job req s.world).1;
    calls = Call.get_job req ∷ s.calls;
  }

  abbrev pub read_machine : Job → State World Bmc → State World Bmc
  read_machine job s = record {
    world = (env.get_machine (machine_key job) s.world).1;
    calls = Call.get_machine (machine_key job) ∷ s.calls;
  }

  abbrev pub read_tasks : Job → State World Bmc → State World Bmc
  read_tasks job s = record {
    world = (env.list_tasks job.object_meta.name job.object_meta.namespace s.world).1;
    calls = Call.list_tasks job.object_meta.name job.object_meta.namespace ∷ s.calls;
  }

  do_reconcile-started :
      (job : Job) (s : State World Bmc)
      → do_reconcile env job s ≡ reconcile_started env (started job s).0 job (started job s).1
  unfolding do_reconcile ◌>>=◌
  do_reconcile-started job s = elim (Bool-cases (has_condition job job_running condition_true)) [
    | inl e ↦ rw e
    | inr e ↦ rw e
  ]

  pub started-spec : (job : Job) (s : State World Bmc) → (started job s).0.spec ≡ job.spec
  unfolding mark_running set_condition
  started-spec job s = elim (Bool-cases (has_condition job job_running condition_true)) [
    | inl e ↦ rw e
    | inr e ↦ rw e
  ]

  reconcile_started_lem :
      (job original : Job) (machine : Machine) (items : List Task) (s : State World Bmc)
      → (env.get_machine (machine_key job) s.world).0 ≡ ok machine
      → (env.list_tasks job.object_meta.name job.object_meta.namespace (read_machine job s).world).0
        ≡ ok items
      → reconcile_started env job original s
        ≡ advance env job original machine
            (scan_tasks 0 items)
            (read_tasks job (read_machine job s))
  unfolding reconcile_started reconcile_tasks get_machine ◌>>=◌
  reconcile_started_lem job original machine items s found listed = rw found (rw listed)

  -- The job after the start, the state in which its machine is read, and that in which its tasks
  -- have been listed.
  abbrev pub running_job : NamespacedName → State World Bmc → Job → Job
  running_job req s job = (started job (read_job req s)).0

  abbrev pub prepared : NamespacedName → State World Bmc → Job → State World Bmc
  prepared req s job = (started job (read_job req s)).1

  abbrev pub listing : NamespacedName → State World Bmc → Job → State World Bmc
  listing req s job =
      read_tasks (running_job req s job) (read_machine (running_job req s job) (prepared req s job))

  -- A job that is neither being deleted nor settled, whose machine and tasks can be read.
  module _ (req : NamespacedName) (s : State World Bmc) (job : Job) (machine : Machine)
      (items : List Task) (got : (env.get_job req s.world).0 ≡ ok job)
      (live : is_zero job.object_meta.deletion_timestamp ≡ true)
      (unsettled : is_settled job ≡ false) where
    module _
        (found : (env.get_machine
            (machine_key (running_job req s job))
            (prepared req s job).world).0
          ≡ ok machine)
        (listed : (env.list_tasks
            (running_job req s job).object_meta.name
            (running_job req s job).object_meta.namespace
            (read_machine (running_job req s job) (prepared req s job)).world).0
          ≡ ok items) where
      pub reconcile-advance :
          reconcile env req s
          ≡ advance env (running_job req s job) job machine (scan_tasks 0 items) (
              read_tasks
                (running_job req s job)
                (read_machine (running_job req s job) (prepared req s job)))
      unfolding reconcile reconcile_found ◌>>=◌
      reconcile-advance =
          rw (got, live, unsettled)
            (do_reconcile-started job (read_job req s)
              ∙ reconcile_started_lem (running_job req s job) job machine items (prepared req s job)
                  found listed)

      -- A reconciliation of a Job that is neither being deleted nor settled, and whose machine and
      -- tasks can be read: where all owned tasks are completed and there are fewer than the job
      -- lists actions, it reads the job, records the start if the job was not running, reads the
      -- machine and the tasks, creates the task for the next action, and patches the job once, as
      -- it is or as failed with the text of the error where the creation fails. It makes no other
      -- call.
      pub reconcile_creates :
          All IsCompleted items
          → length items < length job.spec.tasks
          → (action : Action) × (get_elem? job.spec.tasks (length items) ≡ some action)
            × (let task =
                  owned_task
                    (running_job req s job)
                    (length items)
                    action
                    machine.spec.connection in
                (reconcile env req s).1.calls
                ≡ Call.patch_job_status (
                    job_after_create
                      (running_job req s job)
                      task
                      (env.create_task task (listing req s job).world).0)
                  ∷ Call.create_task task
                  ∷ (listing req s job).calls)
      reconcile_creates completed fewer =
          let same = started-spec job (read_job req s) in
          let (action, found_action, calls) =
            advance_creates env (running_job req s job) job machine items (listing req s job)
              completed (rw same fewer) in
          (
            action,
            ap (λ (spec : JobSpec). get_elem? spec.tasks (length items)) (sym same) ∙ found_action,
            rw reconcile-advance calls,
          )

      -- A reconciliation of a Job that is neither being deleted nor settled, and whose machine and
      -- tasks can be read: where all owned tasks are completed and there are as many as the job
      -- lists actions, it reads the job, records the start if the job was not running, reads the
      -- machine and the tasks, and patches the job once, as completed at the time of the clock. It
      -- makes no other call.
      pub reconcile_completes :
          All IsCompleted items
          → length items ≡ length job.spec.tasks
          → (reconcile env req s).1.calls
            ≡ Call.patch_job_status
                (mark_completed (running_job req s job) (env.now (listing req s job).world).0)
              ∷ Call.read_clock
              ∷ (listing req s job).calls
      reconcile_completes completed same_number =
          let same = started-spec job (read_job req s) in
          rw reconcile-advance (
            advance_completes env (running_job req s job) job machine items (listing req s job)
              completed (rw same same_number))

      -- A reconciliation of a Job that is neither being deleted nor settled, and whose machine and
      -- tasks can be read: where the first owned task that is not completed has failed, it makes
      -- the reads of the job, of its machine, of its tasks, and of the clock if the job was not
      -- running, patches the job once, as failed with the name of that task, and returns an error.
      -- It makes no other call.
      pub reconcile_fails :
          (task : Task)
          → FirstOpen items task
          → HasFailed task true
          → let e = errorf (
              object_name
                (codes "task ")
                task.object_meta.namespace
                (task.object_meta.name ++ codes " failed")) in
            ((x : Error) × ((reconcile env req s).0 ≡ done (stop (some x))))
            × ((reconcile env req s).1.calls
                ≡ Call.patch_job_status (mark_failed (running_job req s job) (message e))
                  ∷ (listing req s job).calls)
      reconcile_fails task (before, after, e, completed, open_task) failed =
          rw (reconcile-advance, e)
            (advance_fails env (running_job req s job) job machine before task after
              (listing req s job) completed open_task failed)

      -- A reconciliation of a Job that is neither being deleted nor settled, and whose machine and
      -- tasks can be read: where the first owned task that is not completed has not failed, it
      -- makes the reads of the job, of its machine, of its tasks, and of the clock if the job was
      -- not running, and no other call, and ends with no error and no requeue.
      pub reconcile_waits :
          (task : Task)
          → FirstOpen items task
          → HasFailed task false
          → reconcile env req s ≡ (done (stop none), (listing req s job))
      reconcile_waits task (before, after, e, completed, open_task) running =
          rw (reconcile-advance, e)
            (advance_waits env (running_job req s job) job machine before task after
              (listing req s job) completed open_task running)

      -- A reconciliation of a Job that is neither being deleted nor settled, and whose machine and
      -- tasks can be read: where all owned tasks are completed and there are more than the job
      -- lists actions, it panics after the reads of the job, of its machine, of its tasks, and of
      -- the clock if the job was not running, and makes no other call, so that the status of the
      -- job is not patched.
      pub reconcile_panics :
          All IsCompleted items
          → length job.spec.tasks < length items
          → reconcile env req s ≡ (panic, (listing req s job))
      reconcile_panics completed more =
          let same = started-spec job (read_job req s) in
          rw reconcile-advance (
            advance_panics env (running_job req s job) job machine items (listing req s job)
              completed (rw same more))
