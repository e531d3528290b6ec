-- ===== src/Examples/Life.antt =====
-- A task in the cluster of Examples/Obedient.antt, reconciled twice.
use rufio.Prelude.{◌≤◌, ◌≡◌, refl, sym, subst, inl, inr, [], ◌∷◌}
use rufio.Prelude.Text.{Text}
use rufio.Api.Task.{Task}
use rufio.Controller.Client.{new_client_func}
use rufio.Controller.Task.{reconcile}
use rufio.System.Tasks.{key_of, IsAt}
use rufio.System.Tasks.Both.{anything}
use rufio.Examples.Objects.{new_task}
use rufio.System.Tasks.Steady.{IsAt-status}
use rufio.System.Tasks.Once.{Life, reconciled-IsStep, Life-at_most_once}
use rufio.Controller.Exec.{State}
use rufio.Controller.Exec.Keeps.{is_action, calls_of}
use rufio.Examples.Cluster.{state, Cluster}
use rufio.Examples.Lawful.{req, start}
use rufio.Examples.Obedient.{alive_all, obedient_env, obeys, obeys-IsTaskLawful, obeys-IsKept}

-- A state of the task after a reconciliation.
abbrev Next : State Cluster Text → Task → Type 0
Next s u =
    (u' : Task) × (u'.object_meta ≡ u.object_meta)
    × IsAt
        (alive_all
          (reconcile obedient_env (new_client_func obedient_env 30) (key_of u) s).1.world.tasks)
        [] u' []

next_of : (s : State Cluster Text) (u : Task) → IsAt (alive_all s.world.tasks) [] u [] → Next s u
next_of s u h =
    elim (reconciled-IsStep obedient_env req obeys obeys-IsTaskLawful obeys-IsKept (λ _. Unit) 30 u
      s [] [] h (anything obedient_env req obeys obeys-IsTaskLawful u)) [
        | inl e ↦ (u, refl, subst (λ v. IsAt v.tasks [] u []) (sym e) h)
        | inr (status, _, e) ↦ (
          record u { status = status },
          refl,
          subst (λ v. IsAt v.tasks [] (record u { status = status }) []) (sym e)
              (IsAt-status _ [] u [] status h),
        )
      ]

-- A cluster with a task that has not started.
abbrev before_life : State Cluster Text
before_life = state (record start { tasks = new_task ∷ [] })

before_life-IsAt : IsAt (alive_all before_life.world.tasks) [] new_task []
before_life-IsAt = record { split = refl; fresh_before = tt; fresh_after = tt }

abbrev first : Next before_life new_task
first = next_of before_life new_task before_life-IsAt

abbrev between : State Cluster Text
between = (reconcile obedient_env (new_client_func obedient_env 30) (key_of new_task) before_life).1

abbrev second : Next between first.0
second = next_of between first.0 first.2

-- Two reconciliations of the task.
abbrev two :
    Life obedient_env req obeys obeys-IsTaskLawful obeys-IsKept new_task before_life second.0
      (reconcile obedient_env (new_client_func obedient_env 30) (key_of first.0) between).1
two =
    Life.reconciled (Life.reconciled Life.begin 30 first.0 first.1 ([], [], first.2)) 30 second.0
      second.1 ([], [], second.2)

Life-at_most_once_example :
    calls_of is_action
      (reconcile obedient_env (new_client_func obedient_env 30) (key_of first.0) between).1
    ≤ 3
Life-at_most_once_example =
    Life-at_most_once obedient_env req obeys obeys-IsTaskLawful obeys-IsKept new_task before_life
      ([], [], before_life-IsAt) (λ e. cc) two
