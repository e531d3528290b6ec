-- ===== src/System.antt =====
-- A Job and its Tasks in a cluster that behaves as documented: what controller/job.go promises, said
-- without conditions, names and calls, and the moves of the reconcilers in such a cluster. A Machine
-- under its reconciler is in Machines.
pub mod Plans
pub mod Scan
pub mod Effects
pub mod Refines
pub mod Reach
pub mod Rounds
pub mod Logins
pub mod Machines
pub mod Tasks
use rufio.Prelude.{
  ℕ, suc, ◌+◌, ◌≡◌, ◌≤◌, Bool, true, false, not, ◌&&◌, ◌==◌, Option, none, some, List, [], ◌∷◌,
  ◌++◌, map, length, All, get_elem?, count_if, if◌then◌else◌,
}
use rufio.Prelude.Text.{Text, codes}
use rufio.Api.Meta.{NamespacedName}
use rufio.Api.Action.{Action}
use rufio.Api.Machine.{Machine, condition_true}
use rufio.Api.Task.{Task, task_completed, task_failed}
use rufio.Api.Task
use rufio.Api.Job.{Job, job_completed, job_failed, has_condition, format_task_name}
use rufio.Controller.Error.{ok}
use rufio.Controller.Env.{Env}
use rufio.Controller.Job.{Object, task_object, task_owner_index_func}
use rufio.Controller.Job.Ownership.{IsGetControllerOf}

pub data Phase : Type 0 where
  running : Phase
  completed : Phase
  failed : Phase

abbrev pub is_unfinished : Phase → Bool
is_unfinished completed = false
is_unfinished running = true
is_unfinished failed = true

abbrev pub is_failed : Phase → Bool
is_failed failed = true
is_failed running = false
is_failed completed = false

-- The actions of a job, those that were started, in order, with how far they are, and the job's
-- phase.
pub record Plan : Type 0 where
  pub actions : List Action
  pub tasks : List (Action × Phase)
  pub phase : Phase

abbrev pub unfinished : List (Action × Phase) → ℕ
unfinished = count_if (λ t. is_unfinished t.1)

abbrev pub failures : List (Action × Phase) → ℕ
failures = count_if (λ t. is_failed t.1)

-- What the job does when all started actions are completed.
abbrev pub start_next : Plan → Option Action → Plan
start_next p none = record p { phase = completed }
start_next p (some action) = record p { tasks = p.tasks ++ (action, running) ∷ [] }

abbrev pub go_on : Plan → Plan
go_on p =
    if unfinished p.tasks == 0
    then start_next p (get_elem? p.actions (length p.tasks))
    else if failures p.tasks == 0
    then p
    else record p { phase = failed }

-- What one reconciliation of a Job promises: a job that has completed or failed stays as it is.
-- Otherwise it fails if a started action has failed, waits if one is running, starts the next action
-- if all are completed, and is completed if there is none.
abbrev pub next_in : Phase → Plan → Plan
next_in completed p = p
next_in failed p = p
next_in running p = go_on p

abbrev pub next : Plan → Plan
next p = next_in p.phase p

-- The phase that two conditions say.
abbrev pub phase_of : Bool → Bool → Phase
phase_of true _ = completed
phase_of false true = failed
phase_of false false = running

abbrev pub phase_of_task : Task → Phase
phase_of_task t =
    phase_of (Task.has_condition t task_completed condition_true)
      (Task.has_condition t task_failed condition_true)

abbrev pub phase_of_job : Job → Phase
phase_of_job j =
    phase_of (has_condition j job_completed condition_true)
      (has_condition j job_failed condition_true)

-- What a cluster holds of one job: the job, and the tasks that it owns in the order of creation.
pub record View : Type 0 where
  pub job : Job
  pub tasks : List Task

abbrev pub steps_of : List Task → List (Action × Phase)
steps_of [] = []
steps_of (t ∷ tasks) = (t.spec.task, phase_of_task t) ∷ steps_of tasks

abbrev pub plan_of : View → Plan
plan_of v = record {
  actions = v.job.spec.tasks;
  tasks = steps_of v.tasks;
  phase = phase_of_job v.job;
}

-- The tasks have the names that FormatTaskName gives to a job's tasks from an index on.
abbrev pub IsNamed : Job → ℕ → List Task → Type 0
IsNamed job i [] = Unit
IsNamed job i (t ∷ ts) = (t.object_meta.name ≡ format_task_name job i) × IsNamed job (suc i) ts

-- No task has the name.
abbrev pub IsFresh : Text → List Task → Type 0
IsFresh name = All (λ u. ¬ (u.object_meta.name ≡ name))

-- A cluster in which the job, its machine and its tasks can be read, tasks of a new name can be
-- created, and the status of the job can be patched. A patch is the difference from its base
-- (client.MergeFrom), so what it writes is known only where the base is the job that is stored. A
-- created task is among those of the job if the index that the reconciler registers files it under
-- the job's name. The tasks may be listed in any order.
pub record IsLawful (env : Env) (req : NamespacedName) : Type 0 where
  pub view : env.World → View
  pub controller_of : IsGetControllerOf env.get_controller_of
  pub kind : (w : env.World) → (view w).job.type_meta.kind ≡ codes "Job"
  pub api_version :
      (w : env.World)
      → (view w).job.type_meta.api_version
        ≡ env.group_version_string (codes "bmc.tinkerbell.org") (codes "v1alpha1")
  pub get_job_result : (w : env.World) → (env.get_job req w).0 ≡ ok (view w).job
  pub get_job_view : (w : env.World) → view (env.get_job req w).1 ≡ view w
  pub get_machine_result :
      (k : NamespacedName) (w : env.World) → (m : Machine) × ((env.get_machine k w).0 ≡ ok m)
  pub get_machine_view :
      (k : NamespacedName) (w : env.World) → view (env.get_machine k w).1 ≡ view w
  pub now_view : (w : env.World) → view (env.now w).1 ≡ view w
  pub list_tasks_result :
      (name namespace : Text) (w : env.World)
      → name ≡ (view w).job.object_meta.name
      → namespace ≡ (view w).job.object_meta.namespace
      → (items : List Task) × ((env.list_tasks name namespace w).0 ≡ ok items)
        × ((p : Task → Bool) → count_if p items ≡ count_if p (view w).tasks)
  pub list_tasks_view :
      (name namespace : Text) (w : env.World) → view (env.list_tasks name namespace w).1 ≡ view w
  pub create_task_lem :
      (t : Task) (w : env.World)
      → IsFresh t.object_meta.name (view w).tasks
      → task_owner_index_func env (task_object t) ≡ (view w).job.object_meta.name ∷ []
      → t.object_meta.namespace ≡ (view w).job.object_meta.namespace
      → t.object_meta.deletion_timestamp ≡ none
      → ((env.create_task t w).0 ≡ none)
        × (view (env.create_task t w).1 ≡ record (view w) { tasks = (view w).tasks ++ t ∷ [] })
  pub patch_job_status_lem :
      (j original : Job) (w : env.World)
      → original ≡ (view w).job
      → ((env.patch_job_status j original w).0 ≡ none)
        × (view (env.patch_job_status j original w).1
            ≡ record (view w) { job = record (view w).job { status = j.status } })
