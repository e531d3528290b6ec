-- ===== src/Examples/Lawful.antt =====
-- The cluster of Examples/Cluster.antt, with a client that names the type of what it reads and
-- patches the status only, is lawful; a new job is run in it.
use rufio.Prelude.{◌≡◌, refl, true, none, List, [], ◌∷◌, map, arith, length, count_if}
use rufio.Prelude.Text.{codes}
use rufio.Api.Meta.{NamespacedName, TypeMeta, Time}
use rufio.Api.Conditions.{check_condition}
use rufio.Api.Machine.{condition_true}
use rufio.Api.Task.{Task, set_condition}
use rufio.Api.Job.{Job, job_completed}
use rufio.Api.Job
use rufio.Controller.Error.{ok}
use rufio.Controller.Env.{Env}
use rufio.Controller.Job.{reconcile}
use rufio.Controller.Task.{mark_completed}
use rufio.System.{Phase, running, completed, failed, phase_of_task, plan_of, IsNamed, IsLawful}
use rufio.System.Scan.{is_open}
use rufio.System.Plans.{IsOrdered}
use rufio.System.Refines.{reconcile_refines}
use rufio.System.Refines.Ready.{at}
use rufio.System.Refines.Cases.{IsRefined}
use rufio.System.Reach.{IsNew, IsNew-IsSound, Reach, Move, Reach-IsOrdered}
use rufio.System.Rounds.Plans.{finished, Finishes}
use rufio.System.Rounds.{rounds, rounds_complete_job}
use rufio.System.Tasks.Ends.{phase-mark_completed_task}
use rufio.Examples.Objects.{object_key, machine, new_job, started_task}
use rufio.Examples.Cluster.{Cluster, env, get_controller_of-IsGetControllerOf}

abbrev job_type : TypeMeta
job_type = record { kind = codes "Job"; api_version = codes "bmc.tinkerbell.org/v1alpha1" }

abbrev pub read_job : Cluster → Job
read_job w = record w.job { type_meta = job_type }

abbrev pub typed_env : Env
typed_env = record env {
  get_job = λ k w. (ok (read_job w), w);
  patch_job_status = λ j original w. (none, record w { job = record w.job { status = j.status } });
}

abbrev pub req : NamespacedName
req = object_key (codes "provision")

abbrev lawful : IsLawful typed_env req
lawful = record {
  view = λ w. record { job = read_job w; tasks = w.tasks };
  controller_of = get_controller_of-IsGetControllerOf;
  kind = λ w. refl;
  api_version = λ w. refl;
  get_job_result = λ w. refl;
  get_job_view = λ w. refl;
  get_machine_result = λ k w. (w.machine, refl);
  get_machine_view = λ k w. refl;
  now_view = λ w. refl;
  list_tasks_result = λ name namespace w e f. (w.tasks, refl, λ p. refl);
  list_tasks_view = λ name namespace w. refl;
  create_task_lem = λ t w fresh indexed placed alive. (refl, refl);
  patch_job_status_lem = λ j original w base. (refl, refl);
}

abbrev pub start : Cluster
start = record {
  machine = machine;
  job = new_job;
  task = started_task;
  tasks = [];
  secret = [];
  clock = 200;
  power = codes "On";
}

pub start-IsNew : IsNew (lawful.view start)
unfolding Job.has_condition check_condition
start-IsNew = record { alive = refl; no_tasks = refl; not_settled = refl }

reconcile_refines_example :
    IsRefined typed_env req lawful
      (lawful.view start)
      (reconcile typed_env req (at typed_env req lawful start))
reconcile_refines_example =
    reconcile_refines typed_env req lawful start refl tt (IsNew-IsSound _ start-IsNew).ordered

abbrev first_task : Cluster
first_task = (reconcile typed_env req (at typed_env req lawful start)).1.world

Reach-IsOrdered_example :
    IsNamed (lawful.view first_task).job 0 (lawful.view first_task).tasks
    × IsOrdered (plan_of (lawful.view first_task))
Reach-IsOrdered_example =
    Reach-IsOrdered typed_env req lawful {w = start}
      (Reach.later Reach.here (Move.reconciles start)) start-IsNew

-- A running task is completed at a time.
abbrev finish_in : Phase → Time → Task → Task
finish_in running now t = mark_completed t now
finish_in completed now t = t
finish_in failed now t = t

abbrev complete_running : Time → Task → Task
complete_running now t = finish_in (phase_of_task t) now t

abbrev finish : Cluster → Cluster
finish w = record w { tasks = map (complete_running w.clock) w.tasks }

finish_in_lem :
    (ph : Phase) (now : Time) (t : Task)
    → phase_of_task t ≡ ph
    → ((finish_in ph now t).object_meta ≡ t.object_meta)
      × ((finish_in ph now t).spec ≡ t.spec)
      × (phase_of_task (finish_in ph now t) ≡ finished ph)
unfolding mark_completed set_condition
finish_in_lem running now t e = (refl, refl, phase-mark_completed_task t now)
finish_in_lem completed now t e = (refl, refl, e)
finish_in_lem failed now t e = (refl, refl, e)

finish-Finishes :
    (now : Time) (tasks : List Task) → Finishes tasks (map (complete_running now) tasks)
finish-Finishes now [] = tt
finish-Finishes now (t ∷ tasks) =
    let (m, s, p) = finish_in_lem (phase_of_task t) now t refl in
    (m, s, p, finish-Finishes now tasks)

rounds_complete_job_example :
    let v = lawful.view (rounds typed_env req lawful finish 4 start) in
    (Job.has_condition v.job job_completed condition_true ≡ true)
    × (length v.tasks ≡ length v.job.spec.tasks)
    × (count_if is_open v.tasks ≡ 0)
rounds_complete_job_example =
    rounds_complete_job typed_env req lawful (λ l. Unit) finish (λ w h fit. refl)
      (λ w h fit. finish-Finishes w.clock w.tasks) 4 start (IsNew-IsSound _ start-IsNew) tt
      start-IsNew.not_settled refl (omega arith)
