-- ===== src/Examples/Jobs.antt =====
-- The reconciler of Jobs, run on the jobs of Examples/Objects.antt.
use rufio.Prelude.{ℕ, ◌≡◌, ◌≤◌, ◌+◌, refl, [], ◌∷◌}
use rufio.Prelude.Text.{Text, codes, text_eq}
use rufio.Api.Conditions.{check_condition}
use rufio.Api.Task.{Task}
use rufio.Api.Task
use rufio.Api.Job.{set_condition, has_condition, format_task_name}
use rufio.Api.Job.Names.{format_task_name-injective}
use rufio.Controller.Exec.{State, ◌>>=◌}
use rufio.Controller.Exec.Keeps.{calls_of, is_create, is_patch}
use rufio.Controller.Job.{
  owned_task, mark_running, scan_tasks, advance, reconcile, reconcile_found, do_reconcile,
  reconcile_started, reconcile_tasks, get_machine, next_task, create_task_with_owner, create_task,
  task_created, patch_status, is_settled, task_object, task_owner_index_func,
}
use rufio.Controller.Job.Scan.{Meaning, scan_tasks_sound}
use rufio.Controller.Job.Calls.{reconcile-one_each}
use rufio.Controller.Job.Status.{is_incoherent, reconcile-coherent_job}
use rufio.Controller.Job.Ownership.{task_owner_index_func-owned_task}
use rufio.Examples.Objects.{
  object_key, machine, netboot, connection, new_job, running_job, deleted_job, completed_task,
  failed_task, started_task,
}
use rufio.Examples.Cluster.{Cluster, env, state, get_controller_of-IsGetControllerOf}

abbrev lab : State Cluster Text
lab = state (record {
  machine = machine;
  job = new_job;
  task = started_task;
  tasks = completed_task ∷ [];
  secret = [];
  clock = 200;
  power = codes "On";
})

abbrev being_deleted : State Cluster Text
being_deleted = record lab { world = record lab.world { job = deleted_job } }

scan_tasks_sound_example :
    Meaning 0 (completed_task ∷ failed_task ∷ []) (scan_tasks 0 (completed_task ∷ failed_task ∷ []))
scan_tasks_sound_example = scan_tasks_sound 0 (completed_task ∷ failed_task ∷ [])

reconcile-one_each_example :
    (calls_of is_create (reconcile env (object_key (codes "provision")) lab).1
      ≤ 1 + calls_of is_create lab)
    × (calls_of is_patch (reconcile env (object_key (codes "provision")) lab).1
        ≤ 1 + calls_of is_patch lab)
reconcile-one_each_example = reconcile-one_each env (object_key (codes "provision")) lab

reconcile-coherent_job_example :
    calls_of is_incoherent (reconcile env (object_key (codes "provision")) lab).1
    ≡ calls_of is_incoherent lab
reconcile-coherent_job_example =
    reconcile-coherent_job env (object_key (codes "provision")) lab new_job refl refl

task_owner_index_func-owned_task_example :
    task_owner_index_func env (task_object (owned_task running_job 1 netboot connection))
    ≡ codes "provision" ∷ []
task_owner_index_func-owned_task_example =
    task_owner_index_func-owned_task env get_controller_of-IsGetControllerOf running_job 1 netboot
      connection refl refl

abbrev task_index : ℕ
task_index = 11

format_task_name-injective_example :
    (new_job.object_meta.name ≡ running_job.object_meta.name) × (task_index ≡ 11)
unfolding format_task_name
format_task_name-injective_example =
    format_task_name-injective new_job running_job task_index 11 refl

-- A job that has not started, whose first task is completed: the job is patched as running, and its
-- second task is created.
reconcile_run :
    (reconcile env (object_key (codes "provision")) lab).1.world.tasks
    ≡ completed_task ∷ owned_task (mark_running new_job 200) 1 netboot connection ∷ []
unfolding reconcile reconcile_found do_reconcile reconcile_started reconcile_tasks get_machine
    advance next_task create_task_with_owner create_task task_created patch_status is_settled
    has_condition check_condition text_eq ◌>>=◌ mark_running scan_tasks Task.has_condition
    set_condition
reconcile_run = refl
