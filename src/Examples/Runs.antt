-- ===== src/Examples/Runs.antt =====
-- Whole reconciliations of the job of Examples/Objects.antt, on clusters that differ in its tasks.
use rufio.Prelude.{◌≡◌, refl, none, some, List, [], ◌∷◌, get_elem?, arith}
use rufio.Prelude.Text.{Text, codes, text_eq}
use rufio.Api.Meta.{NamespacedName}
use rufio.Api.Action.{Action}
use rufio.Api.Conditions.{check_condition}
use rufio.Api.Task.{Task}
use rufio.Api.Task
use rufio.Api.Job.{Job, has_condition}
use rufio.Controller.Error.{Error, errorf, message}
use rufio.Controller.Exec.{Call, State, done, panic, stop}
use rufio.Controller.Job.{is_settled, mark_running, mark_failed, owned_task, reconcile}
use rufio.Controller.Job.Outcomes.{job_after_create}
use rufio.Controller.Job.Runs.{
  listing, reconcile_creates, reconcile_fails, reconcile_waits, reconcile_panics,
}
use rufio.Controller.Job.Recorded.{IsCompletedFrom, reconcile-IsCompletedFrom}
use rufio.Examples.Objects.{
  object_key, machine, connection, new_job, completed_task, failed_task, started_task,
}
use rufio.Examples.Cluster.{Cluster, env, state}

abbrev lab : List Task → State Cluster Text
lab tasks = state (record {
  machine = machine;
  job = new_job;
  task = started_task;
  tasks = tasks;
  secret = [];
  clock = 200;
  power = codes "On";
})

abbrev req : NamespacedName
req = object_key (codes "provision")

abbrev one : List Task
one = completed_task ∷ []

abbrev two : List Task
two = completed_task ∷ one

abbrev three : List Task
three = completed_task ∷ two

abbrev with_failed : List Task
with_failed = completed_task ∷ failed_task ∷ []

abbrev with_started : List Task
with_started = started_task ∷ []

reconcile_creates_example :
    (action : Action) × (get_elem? new_job.spec.tasks 1 ≡ some action)
    × (let task = owned_task (mark_running new_job 200) 1 action connection in
        (reconcile env req (lab one)).1.calls
        ≡ Call.patch_job_status (
            job_after_create
              (mark_running new_job 200)
              task
              (env.create_task task (listing env req (lab one) new_job).world).0)
          ∷ Call.create_task task
          ∷ (listing env req (lab one) new_job).calls)
unfolding Task.has_condition is_settled has_condition check_condition text_eq
reconcile_creates_example =
    reconcile_creates env req (lab one) new_job machine one refl refl refl refl refl (refl, tt)
      (omega arith)

reconcile-IsCompletedFrom_example :
    (after : Job) × ((reconcile env req (lab two)).1.calls
      ≡ Call.patch_job_status after ∷ Call.read_clock ∷ (listing env req (lab two) new_job).calls)
    × IsCompletedFrom new_job 200 201 after
unfolding Task.has_condition is_settled has_condition check_condition text_eq
reconcile-IsCompletedFrom_example =
    reconcile-IsCompletedFrom env req (lab two) new_job machine two refl refl refl refl refl
      (refl, (refl, tt)) refl

reconcile_panics_example :
    reconcile env req (lab three) ≡ (panic, listing env req (lab three) new_job)
unfolding Task.has_condition is_settled has_condition check_condition text_eq
reconcile_panics_example =
    reconcile_panics env req (lab three) new_job machine three refl refl refl refl refl
      (refl, (refl, (refl, tt))) (omega arith)

reconcile_fails_example :
    let e = errorf (codes "task lab/provision-task-1 failed") in
    ((x : Error) × ((reconcile env req (lab with_failed)).0 ≡ done (stop (some x))))
    × ((reconcile env req (lab with_failed)).1.calls
        ≡ Call.patch_job_status (mark_failed (mark_running new_job 200) (message e))
          ∷ (listing env req (lab with_failed) new_job).calls)
unfolding Task.has_condition is_settled has_condition check_condition text_eq
reconcile_fails_example =
    reconcile_fails env req (lab with_failed) new_job machine with_failed refl refl refl refl refl
      failed_task (one, [], refl, (refl, tt), refl) refl

reconcile_waits_example :
    reconcile env req (lab with_started)
    ≡ (done (stop none), listing env req (lab with_started) new_job)
unfolding Task.has_condition is_settled has_condition check_condition text_eq
reconcile_waits_example =
    reconcile_waits env req (lab with_started) new_job machine with_started refl refl refl refl refl
      started_task ([], [], refl, tt, refl) refl
