-- ===== src/Examples/Driven.antt =====
-- A new job in the cluster of Examples/Obedient.antt, under both reconcilers.
use rufio.Prelude.{◌≡◌, refl, ap, true, List, [], ◌∷◌, length, count_if, arith}
use rufio.Api.Action.{Action}
use rufio.Api.Machine.{condition_true}
use rufio.Api.Task.{Task}
use rufio.Api.Conditions.{check_condition}
use rufio.Api.Job.{job_completed, has_condition}
use rufio.Controller.Client.{new_client_func}
use rufio.Controller.Task.{reconcile}
use rufio.Controller.Job
use rufio.System.{Plan, Phase, running, steps_of, plan_of, IsNamed}
use rufio.System.Refines.{reconcile_refines}
use rufio.System.Plans.{IsOrdered}
use rufio.System.Scan.{is_open}
use rufio.System.Reach.{IsNew-IsSound}
use rufio.System.Rounds.{rounds}
use rufio.System.Refines.Ready.{at}
use rufio.System.Tasks.{key_of}
use rufio.System.Tasks.Both.{Act, Acts, Acts-IsOrdered}
use rufio.System.Tasks.Ends.{serve_all}
use rufio.System.Tasks.Drives.{both_complete_job}
use rufio.Examples.Objects.{turn_on}
use rufio.Examples.Cluster.{Cluster}
use rufio.Examples.Lawful.{req, start, start-IsNew}
use rufio.Examples.Obedient.{obedient_env, obeys, obeys-IsTaskLawful, obeys-IsObedient}

both_complete_job_example :
    let v = obeys.view (
      rounds obedient_env req obeys
        (serve_all obedient_env req obeys obeys-IsTaskLawful obeys-IsObedient 30)
        4
        start) in
    (has_condition v.job job_completed condition_true ≡ true)
    × (length v.tasks ≡ length v.job.spec.tasks)
    × (count_if is_open v.tasks ≡ 0)
both_complete_job_example =
    both_complete_job obedient_env req obeys obeys-IsTaskLawful obeys-IsObedient 30 4 start
      start-IsNew (tt, ((λ e. cc), tt)) (omega arith)

-- The job is reconciled, and creates its first task.
abbrev created : Cluster
created = (Job.reconcile obedient_env req (at obedient_env req obeys start)).1.world

one_task :
    (tasks : List Task) (x : Action × Phase)
    → steps_of tasks ≡ x ∷ []
    → (t : Task) × (tasks ≡ t ∷ [])
one_task [] x h = cc
one_task (t ∷ []) x h = (t, refl)
one_task (t ∷ u ∷ tasks) x h = cc

created-tasks : (t : Task) × ((obeys.view created).tasks ≡ t ∷ [])
unfolding has_condition check_condition
created-tasks =
    let r =
      reconcile_refines obedient_env req obeys start refl tt
        (IsNew-IsSound _ start-IsNew).ordered in
    one_task (obeys.view created).tasks (turn_on, running) (ap (λ (p : Plan). p.tasks) r.refined)

-- The job is reconciled, then the task that it has created, and then the job again.
abbrev driven : Cluster
driven =
    (Job.reconcile obedient_env req (
      at obedient_env req obeys
        (reconcile obedient_env (new_client_func obedient_env 30) (key_of created-tasks.0)
          (at obedient_env req obeys created)).1.world)).1.world

drives : Acts obedient_env req obeys obeys-IsTaskLawful start driven
drives =
    Acts.later
      (Acts.later (Acts.later Acts.here (Act.job_reconciled start))
        (Act.task_reconciled 30 created [] created-tasks.0 [] created-tasks.1))
      (Act.job_reconciled _)

Acts-IsOrdered_example :
    IsNamed (obeys.view driven).job 0 (obeys.view driven).tasks
    × IsOrdered (plan_of (obeys.view driven))
Acts-IsOrdered_example =
    Acts-IsOrdered obedient_env req obeys obeys-IsTaskLawful {w = start} drives start-IsNew
