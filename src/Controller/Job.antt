-- ===== src/Controller/Job.antt =====
-- controller/job.go: the reconciler of Jobs. Objects are values, so `job.DeepCopy()` is the job as
-- it was read. Logging and the registration with the manager are left out.
pub mod Scan
pub mod Outcomes
pub mod Calls
pub mod Status
pub mod Runs
pub mod Recorded
pub mod Ownership
use rufio.Prelude.{
  ℕ, suc, Bool, true, not, ◌||◌, ◌==◌, Option, none, some, List, [], ◌∷◌, ◌++◌, length, get_elem?,
  if◌then◌else◌,
}
use rufio.Prelude.Text.{Text, codes, text_eq}
use rufio.Api.Meta.{Time, is_zero, NamespacedName, OwnerReference, ObjectMeta}
use rufio.Api.Action.{Action}
use rufio.Api.ProviderOpts.{Connection}
use rufio.Api.Machine.{Machine, condition_true}
use rufio.Api.Task.{Task, task_completed, task_failed}
use rufio.Api.Task
use rufio.Api.Job.{
  Job, MachineRef, job_completed, job_failed, job_running, set_condition, has_condition,
  with_job_condition_message, format_task_name,
}
use rufio.Controller.Error.{Error, errorf, wrapf, message, Result, ok, err}
use rufio.Controller.Env.{Env}
use rufio.Controller.Exec.{Exec, Call, pure, fault, perform, ◌>>=◌, Reconciled, stop}

-- What the loop over the owned tasks comes to: each is completed, and how many there are; or the
-- first that is not completed has failed; or it is still to be waited for.
pub data Progress : Type 0 where
  all_completed : ℕ → Progress
  task_has_failed : Task → Progress
  in_progress : Progress

unfoldable pub scan_tasks : ℕ → List Task → Progress
scan_tasks completed [] = all_completed completed
scan_tasks completed (task ∷ items) =
    if Task.has_condition task task_completed condition_true
    then scan_tasks (suc completed) items
    else if Task.has_condition task task_failed condition_true
    then task_has_failed task
    else in_progress

abbrev pub object_name : Text → Text → Text → Text
object_name kind namespace name = kind ++ (namespace ++ (codes "/" ++ name))

-- The test for a noop in Reconcile.
unfoldable pub is_settled : Job → Bool
is_settled job =
    has_condition job job_completed condition_true || has_condition job job_failed condition_true

unfoldable pub mark_running : Job → Time → Job
mark_running job now =
    set_condition (record job { status = record job.status { start_time = some now } }) job_running
      condition_true []

unfoldable pub mark_failed : Job → Text → Job
mark_failed job m = set_condition job job_failed condition_true (with_job_condition_message m ∷ [])

unfoldable pub mark_completed : Job → Time → Job
mark_completed job now =
    let completed = set_condition job job_completed condition_true [] in
    record completed { status = record completed.status { completion_time = some now } }

-- The task that createTaskWithOwner makes for the action at an index.
unfoldable pub owned_task : Job → ℕ → Action → Connection → Task
unfolding format_task_name
owned_task job task_index action conn = record {
  type_meta = record { kind = []; api_version = [] };
  object_meta = record {
    name = format_task_name job task_index;
    namespace = job.object_meta.namespace;
    uid = [];
    deletion_timestamp = none;
    owner_references =
        record {
          api_version = job.type_meta.api_version;
          kind = job.type_meta.kind;
          name = job.object_meta.name;
          uid = job.object_meta.uid;
          controller = some true;
        }
        ∷ [];
  };
  spec = record { task = action; connection = conn };
  status = record { conditions = []; start_time = none; completion_time = none };
}

-- A `client.Object`: a Task, or an object of another type.
pub data Object : Type 0 where
  task_object : Task → Object
  other_object : Object

module _ (env : Env) where
  open env use {World, Bmc, new_aggregate, namespaced_name_string}

  abbrev read_clock : Exec World Bmc Time
  read_clock = perform Call.read_clock env.now

  unfoldable pub patch_status : Job → Job → Exec World Bmc (Option Error)
  patch_status job original = do
    failed ← perform (Call.patch_job_status job) (env.patch_job_status job original)
    elim failed [
      | none ↦ pure none
      | some e ↦ pure (
          some (
            wrapf
              (object_name (codes "failed to patch Job ") job.object_meta.namespace
                (job.object_meta.name ++ codes " status: "))
              e))
    ]

  -- The failure is recorded with its text and returned, with the error of the patch if that fails.
  unfoldable pub fail_job : Job → Job → Error → Exec World Bmc Reconciled
  fail_job job original e = do
    patched ← patch_status (mark_failed job (message e)) original
    elim patched [
      | some patch_err ↦ pure (stop (some (new_aggregate (patch_err ∷ e ∷ []))))
      | none ↦ pure (stop (some e))
    ]

  unfoldable pub get_machine : MachineRef → Exec World Bmc (Result Machine)
  get_machine reference = do
    let key : NamespacedName = record { namespace = reference.namespace; name = reference.name }
    found ← perform (Call.get_machine key) (env.get_machine key)
    elim found [
      | ok machine ↦ pure (ok machine)
      | err e ↦ pure (
          err (
            if env.is_not_found e
            then wrapf (codes "machine " ++ (namespaced_name_string key ++ codes " not found: ")) e
            else wrapf
                (codes "failed to get Machine " ++ (namespaced_name_string key ++ codes ": ")) e))
    ]

  -- `job.Spec.Tasks[taskIndex]` panics where the index is out of range.
  unfoldable pub create_task : Job → ℕ → Connection → Option Action → Exec World Bmc (Option Error)
  create_task job task_index conn none = fault
  create_task job task_index conn (some action) = do
    let task = owned_task job task_index action conn
    failed ← perform (Call.create_task task) (env.create_task task)
    elim failed [
      | none ↦ pure none
      | some e ↦ pure (
          some (
            wrapf
              (object_name (codes "failed to create Task ") task.object_meta.namespace
                (task.object_meta.name ++ codes ": "))
              e))
    ]

  unfoldable pub create_task_with_owner : Job → ℕ → Connection → Exec World Bmc (Option Error)
  create_task_with_owner job task_index conn =
      create_task job task_index conn (get_elem? job.spec.tasks task_index)

  -- After the next task was created, or its creation has failed.
  unfoldable pub task_created : Job → Job → Option Error → Exec World Bmc Reconciled
  task_created job original (some e) = fail_job job original e
  task_created job original none = do patched ← patch_status job original; pure (stop patched)

  -- What follows when each owned task is completed.
  unfoldable pub next_task : Job → Job → Machine → ℕ → Exec World Bmc Reconciled
  next_task job original machine completed =
      if completed == length job.spec.tasks
      then (do
        now ← read_clock
        patched ← patch_status (mark_completed job now) original
        pure (stop patched))
      else (do
        failed ← create_task_with_owner job completed machine.spec.connection
        task_created job original failed)

  -- What follows from the owned tasks.
  unfoldable pub advance : Job → Job → Machine → Progress → Exec World Bmc Reconciled
  advance job original machine (all_completed n) = next_task job original machine n
  advance job original machine (task_has_failed task) = fail_job job original (
      errorf (
        object_name (codes "task ") task.object_meta.namespace
          (task.object_meta.name ++ codes " failed")))
  advance job original machine in_progress = pure (stop none)

  -- doReconcile from the list of the owned tasks on.
  unfoldable pub reconcile_tasks : Job → Job → Machine → Exec World Bmc Reconciled
  reconcile_tasks job original machine = do
    let name = job.object_meta.name
    let namespace = job.object_meta.namespace
    tasks ← perform (Call.list_tasks name namespace) (env.list_tasks name namespace)
    elim tasks [
      | err e ↦ pure (
          stop (
            some (
              wrapf
                (object_name (codes "failed to list owned Tasks for Job ") namespace
                  (name ++ codes ": "))
                e)))
      | ok items ↦ advance job original machine (scan_tasks 0 items)
    ]

  -- doReconcile from the read of the machine on.
  unfoldable pub reconcile_started : Job → Job → Exec World Bmc Reconciled
  reconcile_started job original = do
    got ← get_machine job.spec.machine_ref
    elim got [
      | err e ↦ pure (
          stop (
            some (
              wrapf
                (object_name (codes "get Job ") job.object_meta.namespace
                  (job.object_meta.name ++ codes " MachineRef: "))
                e)))
      | ok machine ↦ reconcile_tasks job original machine
    ]

  -- The start of the job is recorded where it is not running.
  unfoldable pub do_reconcile : Job → Exec World Bmc Reconciled
  do_reconcile original =
      if not (has_condition original job_running condition_true)
      then (do now ← read_clock; reconcile_started (mark_running original now) original)
      else reconcile_started original original

  -- Reconcile with the job that was read.
  unfoldable pub reconcile_found : Job → Exec World Bmc Reconciled
  reconcile_found job =
      if not (is_zero job.object_meta.deletion_timestamp)
      then pure (stop none)
      else if is_settled job
      then pure (stop none)
      else do_reconcile job

  unfoldable pub reconcile : NamespacedName → Exec World Bmc Reconciled
  reconcile req = do
    found ← perform (Call.get_job req) (env.get_job req)
    elim found [
      | err e ↦ pure (stop (if env.is_not_found e then none else some e))
      | ok job ↦ reconcile_found job
    ]

  -- A nil slice is the empty list.
  unfoldable pub task_owner_index_func : Object → List Text
  task_owner_index_func other_object = []
  task_owner_index_func (task_object task) = elim (env.get_controller_of task) [
    | none ↦ []
    | some owner ↦
        if not (text_eq owner.kind (codes "Job"))
          || not (
              text_eq owner.api_version
                (env.group_version_string (codes "bmc.tinkerbell.org") (codes "v1alpha1")))
        then []
        else owner.name ∷ []
  ]
