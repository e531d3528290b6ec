-- ===== src/Examples/Memory.antt =====
-- Copies and changes of objects in memory.
use rufio.Prelude.{◌≤◌, ◌<◌, [], refl, arith}
use rufio.Api.Machine.{
  Machine, contactable, condition_true, condition_false, on, with_machine_condition_message,
}
use rufio.Api.Machine
use rufio.Api.Job.{Job, job_running, job_completed}
use rufio.Api.Job
use rufio.Api.Memory.{
  one, array_of, write, rpc_at, job_conditions, task_conditions, machine_conditions,
}
use rufio.Api.Memory.Stands.{IsValue, IsSlice}
use rufio.Api.DeepCopy.{deep_copy_job, deep_copy_task, deep_copy_machine}
use rufio.Api.DeepCopy.Represents.{IsJob, IsTask, IsMachine, IsAction, IsConnection, IsRpcOptions}
use rufio.Api.DeepCopy.Objects.{deep_copy_task_apart}
use rufio.Api.DeepCopy.Bases.{
  set_condition_job_at, set_condition_machine_at, set_condition-deep_copy_job,
  set_condition-deep_copy_machine,
}
use rufio.Examples.Stored.{
  copies, stored_action, stored, memory, action, rpc, connection, stored_connection, stored_job,
  job, stored_task, task, stored_machine, machine,
}

action-IsAction : IsAction 0 5 memory stored_action action
action-IsAction = (
  (
    (omega arith, omega arith, refl),
    (omega arith, omega arith, (refl, (omega arith, omega arith, omega arith, (refl, tt)))),
  ),
  (omega arith, omega arith, refl),
)

slice_in : (0 ≤ 3) × (3 < 5) × (1 ≤ 2)
slice_in = (omega arith, omega arith, omega arith)

rpc-IsRpcOptions : IsRpcOptions 0 5 memory (stored (one rpc_at)) rpc
rpc-IsRpcOptions =
    let (l, g, n) = slice_in in
    (
      (
        (
          (
            (refl, refl),
            (
              omega arith,
              omega arith,
              (
                (refl, refl, refl, refl),
                (omega arith, omega arith, ((refl, (l, g, n, (refl, tt))), ((refl, refl), tt))),
              ),
            ),
          ),
          tt,
        ),
        (
          omega arith,
          omega arith,
          (refl, (omega arith, omega arith, ((refl, (l, g, n, (refl, tt))), ((refl, refl), tt)))),
        ),
      ),
      tt,
    )

connection-IsConnection : IsConnection 0 5 memory stored_connection connection
connection-IsConnection =
    let (l, g, n) = slice_in in
    (
      (refl, refl, refl, refl),
      (
        omega arith,
        omega arith,
        (
          ((((l, g, n, (refl, tt)), tt), (omega arith, omega arith, refl)), tt),
          (omega arith, omega arith, rpc-IsRpcOptions),
        ),
      ),
    )

job-IsJob : IsJob copies 0 5 memory stored_job job
job-IsJob = (
  ((refl, refl), (refl, (omega arith, omega arith, omega arith, (action-IsAction, tt)))),
  (((omega arith, omega arith, omega arith, (refl, tt)), (omega arith, omega arith, refl)), tt),
)

task-IsTask : IsTask copies 0 5 memory stored_task task
task-IsTask = (
  ((refl, refl), (action-IsAction, connection-IsConnection)),
  (((omega arith, omega arith, omega arith, (refl, tt)), (omega arith, omega arith, refl)), tt),
)

machine-IsMachine : IsMachine copies 0 5 memory stored_machine machine
machine-IsMachine = (
  ((refl, refl), connection-IsConnection),
  (refl, (omega arith, omega arith, omega arith, (refl, tt))),
)

deep_copy_task_apart_example :
    let (h, y) = deep_copy_task copies memory stored_task in
    IsTask copies 5 h.next (write (array_of task_conditions) 3 [] h) y task
    × IsTask copies 0 5 (write (one rpc_at) 9 (stored (one rpc_at)) h) stored_task task
deep_copy_task_apart_example =
    deep_copy_task_apart copies memory stored_task task task-IsTask (array_of task_conditions) 3 []
      (omega arith) (one rpc_at) 9 (stored (one rpc_at)) (omega arith)

set_condition-deep_copy_job_example :
    let (h, base) = deep_copy_job copies memory stored_job in
    let (h', y) = set_condition_job_at (λ n. []) h stored_job job_completed condition_true [] in
    IsSlice job_conditions IsValue 0 h'.next h' y.status.conditions
      (Job.set_condition job job_completed condition_true []).status.conditions
    × IsJob copies 5 h.next h' base job
set_condition-deep_copy_job_example =
    set_condition-deep_copy_job copies memory stored_job job job-IsJob (λ n. []) job_completed
      condition_true []

set_condition-deep_copy_machine_example :
    let (h, base) = deep_copy_machine copies memory stored_machine in
    let (h', y) =
      set_condition_machine_at (λ n. []) h stored_machine contactable condition_true 9 [] in
    IsSlice machine_conditions IsValue 0 h'.next h' y.status.conditions
      (Machine.set_condition machine contactable condition_true 9 []).status.conditions
    × IsMachine copies 5 h.next h' base machine
set_condition-deep_copy_machine_example =
    set_condition-deep_copy_machine copies memory stored_machine machine machine-IsMachine (λ n. [])
      contactable condition_true 9 []
