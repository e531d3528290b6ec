-- ===== src/Examples/Tasks.antt =====
-- The reconciler of Tasks, run on the tasks of Examples/Objects.antt.
use rufio.Prelude.{◌≡◌, ◌≤◌, ◌+◌, refl, inr, none, some, [], ◌∷◌, ◌++◌, arith}
use rufio.Prelude.Text.{Text, codes, text_eq, contains, to_lower}
use rufio.Api.Meta.{NamespacedName}
use rufio.Api.Action.{power_on}
use rufio.Api.Conditions.{check_condition}
use rufio.Api.Task.{has_condition}
use rufio.Controller.Error.{Error, message}
use rufio.Controller.Exec.{Call, State, done, stop, ◌>>=◌, requeue_in}
use rufio.Controller.Exec.Keeps.{calls_of, is_opened, is_closed, is_action, is_patch}
use rufio.Controller.Kube.{to_power_state}
use rufio.Controller.Client.{new_client_func}
use rufio.Controller.Task.{
  since, timeout_error, task_timeout, mark_completed, mark_failed, set_power, boot_first, set_boot,
  set_media, run_task, follow_task, reconcile, power_action_requeue_after,
}
use rufio.Controller.Task.Calls.{reconcile-settled_task}
use rufio.Controller.Task.Patches.{reconcile-one_patch}
use rufio.Controller.Task.Closes.{reconcile-closes_task}
use rufio.Controller.Task.Actions.{reconcile-no_action}
use rufio.Controller.Task.Status.{is_incoherent, reconcile-coherent_task}
use rufio.Controller.Task.Outcomes.{
  power_calls, boot_calls, media_calls, run_task-order, polled, follow_task_timed_out,
  follow_task_waits, follow_task_completes,
}
use rufio.Controller.Task.Recorded.{after_run, StartOutcome, start_task_lem}
use rufio.Examples.Objects.{
  object_key, machine, netboot, new_task, running_job, completed_task, started_task,
}
use rufio.Examples.Cluster.{Cluster, env, state}

abbrev lab : State Cluster Text
lab = state (record {
  machine = machine;
  job = running_job;
  task = started_task;
  tasks = [];
  secret = (codes "username", codes "root") ∷ (codes "password", codes "calvin") ∷ [];
  clock = 200;
  power = codes "Off";
})

abbrev settled : State Cluster Text
settled = record lab { world = record lab.world { task = completed_task } }

abbrev powered : State Cluster Text
powered = record lab { world = record lab.world { power = codes "On" } }

abbrev late : State Cluster Text
late = record lab { world = record lab.world { clock = 100 + task_timeout } }

abbrev req : NamespacedName
req = object_key (codes "provision-task-0")

reconcile-one_patch_example :
    calls_of is_patch (reconcile env (new_client_func env 30) req lab).1 ≤ 1 + calls_of is_patch lab
reconcile-one_patch_example = reconcile-one_patch env 30 req lab

reconcile-closes_task_example :
    calls_of is_opened (reconcile env (new_client_func env 30) req lab).1
    ≡ calls_of is_closed (reconcile env (new_client_func env 30) req lab).1
reconcile-closes_task_example = reconcile-closes_task env 30 req lab refl

reconcile-no_action_example :
    calls_of is_action (reconcile env (new_client_func env 30) req lab).1 ≡ calls_of is_action lab
reconcile-no_action_example = reconcile-no_action env 30 req lab started_task refl refl

reconcile-settled_task_example :
    reconcile env (new_client_func env 30) req settled
    ≡ (done (stop none), record settled { calls = Call.get_task req ∷ [] })
unfolding has_condition check_condition text_eq
reconcile-settled_task_example =
    reconcile-settled_task env (new_client_func env 30) req settled completed_task refl
      (inr (inr refl))

reconcile-coherent_task_example :
    calls_of is_incoherent (reconcile env (new_client_func env 30) req lab).1
    ≡ calls_of is_incoherent lab
reconcile-coherent_task_example = reconcile-coherent_task env 30 req lab started_task refl refl

run_task-order_example :
    (run_task env netboot (codes "10.0.0.7") lab).1.calls
    ≡ media_calls (codes "10.0.0.7") netboot.virtual_media_action
      ++ (boot_calls (codes "10.0.0.7") netboot.one_time_boot_device_action
          ++ (power_calls (codes "10.0.0.7") netboot.power_action ++ []))
unfolding run_task set_power set_boot boot_first set_media ◌>>=◌
run_task-order_example = run_task-order env (codes "10.0.0.7") netboot lab refl

start_task_lem_example :
    StartOutcome env
      (codes "10.0.0.7")
      new_task
      lab
      (after_run env (codes "10.0.0.7") new_task lab).0
start_task_lem_example = start_task_lem env (codes "10.0.0.7") new_task lab

follow_task_timed_out_example :
    let timed_out = timeout_error (since 100 (100 + task_timeout)) in
    ((e : Error) × ((follow_task env started_task 100 (codes "10.0.0.7") late).0
        ≡ done (stop (some e))))
    × ((follow_task env started_task 100 (codes "10.0.0.7") late).1.calls
        ≡ Call.patch_task_status (mark_failed started_task (message timed_out))
          ∷ Call.read_clock
          ∷ [])
follow_task_timed_out_example =
    follow_task_timed_out env (codes "10.0.0.7") started_task 100 late (omega arith)

follow_task_waits_example : follow_task env started_task 100 (codes "10.0.0.7") lab ≡ (
  done (record { result = requeue_in power_action_requeue_after; error = none }),
  polled env (codes "10.0.0.7") lab,
)
unfolding to_power_state contains to_lower text_eq
follow_task_waits_example =
    follow_task_waits env (codes "10.0.0.7") started_task 100 lab power_on (codes "Off")
      (omega arith) refl refl refl refl

follow_task_completes_example :
    (follow_task env started_task 100 (codes "10.0.0.7") powered).1.calls
    ≡ Call.patch_task_status (mark_completed started_task 201)
      ∷ Call.read_clock
      ∷ Call.get_power_state (codes "10.0.0.7")
      ∷ Call.read_clock
      ∷ []
unfolding to_power_state contains to_lower text_eq
follow_task_completes_example =
    follow_task_completes env (codes "10.0.0.7") started_task 100 powered power_on (codes "On")
      (omega arith) refl refl refl refl
