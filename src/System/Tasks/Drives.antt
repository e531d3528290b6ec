-- ===== src/System/Tasks/Drives.antt =====
-- A Job driven by both reconcilers, in an obedient cluster, until it is completed.
use rufio.Prelude.{ℕ, ◌+◌, ◌<◌, ◌≡◌, refl, true, length, count_if, All}
use rufio.Api.Meta.{NamespacedName}
use rufio.Api.Machine.{condition_true}
use rufio.Api.Job.{job_completed, has_condition}
use rufio.Controller.Env.{Env}
use rufio.System.{IsLawful}
use rufio.System.Scan.{is_open}
use rufio.System.Reach.{IsNew, IsNew-IsSound}
use rufio.System.Rounds.{rounds, rounds_complete_job}
use rufio.System.Tasks.{IsTaskLawful}
use rufio.System.Tasks.Obedient.{IsObedient}
use rufio.System.Tasks.Ends.{CanBoot, serve_all, serve_all-Finishes}

module _ (env : Env) (req : NamespacedName) (law : IsLawful env req)
    (tasks_law : IsTaskLawful env req law) (obedient : IsObedient env req law) (timeout : ℕ) where
  open env use {World}
  open law use {view}

  -- In a lawful and obedient cluster, a new job each of whose boot actions names a device is driven
  -- by the two reconcilers alone: in a round the job is reconciled, and then each of its tasks
  -- twice. After two rounds more than the job has actions, and after any greater number, the job has
  -- the condition Completed, it has as many tasks as actions, and all are completed.
  pub both_complete_job :
      (n : ℕ) (w : World)
      → IsNew (view w)
      → All CanBoot (view w).job.spec.tasks
      → length (view w).job.spec.tasks + 1 < n
      → let v = view (rounds env req law (serve_all env req law tasks_law obedient timeout) n w) in
        (has_condition v.job job_completed condition_true ≡ true)
        × (length v.tasks ≡ length v.job.spec.tasks)
        × (count_if is_open v.tasks ≡ 0)
  both_complete_job n w new boots l =
      rounds_complete_job env req law (All CanBoot)
        (serve_all env req law tasks_law obedient timeout)
        (λ w h fit. (serve_all-Finishes env req law tasks_law obedient timeout w h fit).0)
        (λ w h fit. (serve_all-Finishes env req law tasks_law obedient timeout w h fit).1) n w
        (IsNew-IsSound _ new) boots new.not_settled (rw new.no_tasks refl) l
