-- ===== src/Controller/Job/Recorded.antt =====
-- The status of a completed Job, field by field.
use rufio.Prelude.{
  ◌≡◌, ◌∙◌, refl, true, false, some, List, ◌∷◌, length, if◌then◌else◌, Bool-cases, inl, inr, All,
}
use rufio.Api.Meta.{Time, NamespacedName, is_zero}
use rufio.Api.Machine.{Machine, condition_true}
use rufio.Api.Task.{Task}
use rufio.Api.Job.{Job, job_completed, job_failed, job_running, has_condition, set_condition}
use rufio.Controller.Error.{ok}
use rufio.Controller.Env.{Env}
use rufio.Controller.Exec.{State, Call}
use rufio.Controller.Job.{mark_completed, mark_running, is_settled, reconcile}
use rufio.Controller.Job.Scan.{IsCompleted}
use rufio.Controller.Job.Status.{
  mark_completed-completed, mark_completed-failed, mark_completed-running, mark_running-running,
  mark_running-failed,
}
use rufio.Controller.Job.Runs.{
  machine_key, started, read_job, read_machine, running_job, prepared, listing, reconcile_completes,
}

-- The job `after` is `job`, running and completed: started at `first` if it was not running before,
-- and completed at `last`.
pub record IsCompletedFrom (job : Job) (first last : Time) (after : Job) : Type 0 where
  pub object_meta : after.object_meta ≡ job.object_meta
  pub spec : after.spec ≡ job.spec
  pub is_completed : has_condition after job_completed condition_true ≡ true
  pub is_running : has_condition after job_running condition_true ≡ true
  pub is_failed :
      has_condition after job_failed condition_true ≡ has_condition job job_failed condition_true
  pub start_time :
      after.status.start_time
      ≡ (if has_condition job job_running condition_true then job.status.start_time else some first)
  pub completion_time : after.status.completion_time ≡ some last

completed-running :
    (job : Job) (first last : Time)
    → has_condition job job_running condition_true ≡ true
    → IsCompletedFrom job first last (mark_completed job last)
unfolding mark_completed set_condition
completed-running job first last e = record {
  object_meta = refl;
  spec = refl;
  is_completed = mark_completed-completed job last;
  is_running = mark_completed-running job last ∙ e;
  is_failed = mark_completed-failed job last;
  start_time = rw e refl;
  completion_time = refl;
}

completed-started :
    (job : Job) (first last : Time)
    → has_condition job job_running condition_true ≡ false
    → IsCompletedFrom job first last (mark_completed (mark_running job first) last)
unfolding mark_completed mark_running set_condition
completed-started job first last e = record {
  object_meta = refl;
  spec = refl;
  is_completed = mark_completed-completed (mark_running job first) last;
  is_running =
      mark_completed-running (mark_running job first) last ∙ mark_running-running job first;
  is_failed = mark_completed-failed (mark_running job first) last ∙ mark_running-failed job first;
  start_time = rw e refl;
  completion_time = refl;
}

module _ (env : Env) where
  open env use {World, Bmc}

  completed-IsCompletedFrom :
      (job : Job) (s : State World Bmc) (last : Time)
      → IsCompletedFrom job (env.now s.world).0 last (mark_completed (started env job s).0 last)
  completed-IsCompletedFrom job s last =
      elim (Bool-cases (has_condition job job_running condition_true)) [
        | inl e ↦ rw e (completed-running job (env.now s.world).0 last e)
        | inr e ↦ rw e (completed-started job (env.now s.world).0 last e)
      ]

  module _ (req : NamespacedName) (s : State World Bmc) (job : Job) (machine : Machine)
      (items : List Task) (got : (env.get_job req s.world).0 ≡ ok job)
      (live : is_zero job.object_meta.deletion_timestamp ≡ true)
      (unsettled : is_settled job ≡ false)
      (found : (env.get_machine
          (machine_key env (running_job env req s job))
          (prepared env req s job).world).0
        ≡ ok machine)
      (listed : (env.list_tasks
          (running_job env req s job).object_meta.name
          (running_job env req s job).object_meta.namespace
          (read_machine env (running_job env req s job) (prepared env req s job)).world).0
        ≡ ok items) where
    -- A reconciliation of a Job that is neither being deleted nor settled, and whose machine and
    -- tasks can be read: where all owned tasks are completed and there are as many as the job lists
    -- actions, it reads the job, the clock if the job was not running, the machine, the tasks and
    -- the clock, and patches the job once, and makes no other call. The job that it patches has the
    -- metadata and the spec that were read, the conditions Completed and Running, Failed as before,
    -- the time of that clock as its completion time, and as its start time the one before if the
    -- job was running, and else the time of the first clock.
    pub reconcile-IsCompletedFrom :
        All IsCompleted items
        → length items ≡ length job.spec.tasks
        → (after : Job) × ((reconcile env req s).1.calls
            ≡ Call.patch_job_status after ∷ Call.read_clock ∷ (listing env req s job).calls)
          × IsCompletedFrom job
              (env.now (read_job env req s).world).0
              (env.now (listing env req s job).world).0
              after
    reconcile-IsCompletedFrom completed same_number = (
      _,
      reconcile_completes env req s job machine items got live unsettled found listed completed
          same_number,
      completed-IsCompletedFrom job (read_job env req s) _,
    )
