-- ===== src/Controller/Job/Ownership.antt =====
-- The tasks that a Job owns: how TaskOwnerIndexFunc of controller/job.go files them.
use rufio.Prelude.{ℕ, ◌≡◌, refl, true, Option, some, [], ◌∷◌}
use rufio.Prelude.Text.{codes, text_eq, text_eq_refl}
use rufio.Api.Meta.{OwnerReference}
use rufio.Api.Action.{Action}
use rufio.Api.ProviderOpts.{Connection}
use rufio.Api.Job.{Job, format_task_name}
use rufio.Api.Task.{Task}
use rufio.Controller.Env.{Env}
use rufio.Controller.Job.{task_object, owned_task, task_owner_index_func}

-- What metav1 documents of GetControllerOf, for a task with one owner.
pub record IsGetControllerOf (get_controller_of : Task → Option OwnerReference) : Type 0 where
  pub only_owner :
      (task : Task) (r : OwnerReference)
      → task.object_meta.owner_references ≡ r ∷ []
      → r.controller ≡ some true
      → get_controller_of task ≡ some r

module _ (env : Env) (h : IsGetControllerOf env.get_controller_of) where
  -- The tasks that createTaskWithOwner makes are filed under the name of their job, which is the key
  -- that doReconcile lists them by, if the type of the job as read names it as a Job of this API.
  pub task_owner_index_func-owned_task :
      (job : Job) (n : ℕ) (action : Action) (conn : Connection)
      → job.type_meta.kind ≡ codes "Job"
      → job.type_meta.api_version
        ≡ env.group_version_string (codes "bmc.tinkerbell.org") (codes "v1alpha1")
      → task_owner_index_func env (task_object (owned_task job n action conn))
        ≡ job.object_meta.name ∷ []
  unfolding task_owner_index_func owned_task format_task_name text_eq
  task_owner_index_func-owned_task job n action conn k v =
      rw
        (
          task_owner_index_func,
          h.only_owner (owned_task job n action conn) _ refl refl,
          k,
          v,
          text_eq_refl (env.group_version_string (codes "bmc.tinkerbell.org") (codes "v1alpha1")),
        )
        refl
