-- ===== src/Examples/Machines.antt =====
-- The reconciler of Machines, run on the machine of Examples/Objects.antt.
use rufio.Prelude.{◌≡◌, ◌≤◌, ◌+◌, refl, some, List, [], ◌∷◌, if◌then◌else◌, map}
use rufio.Prelude.Text.{Text, codes, text_eq}
use rufio.Api.Meta.{NamespacedName}
use rufio.Api.Machine.{
  MachineCondition, contactable, condition_true, fresh_condition, set_condition,
  with_machine_condition_message,
}
use rufio.Api.Machine.Laws.{get_condition, get_condition-set_condition_machine}
use rufio.Api.Conditions.Laws.{or_fresh}
use rufio.Controller.Exec.{State, Reconciled, done}
use rufio.Controller.Exec.Keeps.{calls_of, is_action, is_opened, is_closed, is_patch}
use rufio.Controller.Client.{new_client_func}
use rufio.Controller.Machine.{reconcile}
use rufio.Controller.Machine.Calls.{reconcile-closes_machine}
use rufio.Controller.Machine.Status.{is_incoherent, reconcile-coherent_machine}
use rufio.System.Machines.{IsPolled, reconcile_polls}
use rufio.Examples.Objects.{object_key, machine, running_job, started_task}
use rufio.Examples.Cluster.{Cluster, env, state}

abbrev login_data : List (Text × Text)
login_data = (codes "username", codes "root") ∷ (codes "password", codes "calvin") ∷ []

abbrev lab : State Cluster Text
lab = state (record {
  machine = machine;
  job = running_job;
  task = started_task;
  tasks = [];
  secret = login_data;
  clock = 200;
  power = codes "Off";
})

abbrev req : NamespacedName
req = object_key (codes "node")

reconcile-closes_machine_example :
    let s' = (reconcile env (new_client_func env 30) req lab).1 in
    (calls_of is_opened s' ≡ calls_of is_closed s')
    × (calls_of is_patch s' ≤ 1 + calls_of is_patch lab)
reconcile-closes_machine_example = reconcile-closes_machine env 30 req lab refl

reconcile-coherent_machine_example :
    calls_of is_incoherent (reconcile env (new_client_func env 30) req lab).1
    ≡ calls_of is_incoherent lab
reconcile-coherent_machine_example = reconcile-coherent_machine env 30 req lab

get_condition-set_condition_machine_example :
    let bm' =
      set_condition machine contactable condition_true 200
        (map with_machine_condition_message (codes "" ∷ [])) in
    let old = or_fresh (get_condition machine contactable) (fresh_condition contactable) in
    (c : MachineCondition) × (get_condition bm' contactable
      ≡ (if text_eq contactable contactable then some c else get_condition machine contactable))
    × (c.status ≡ condition_true)
    × (c.last_update_time
        ≡ (if text_eq old.status condition_true then old.last_update_time else 200))
get_condition-set_condition_machine_example =
    get_condition-set_condition_machine machine contactable contactable condition_true 200
      (codes "" ∷ [])

reconcile_polls_example :
    let (outcome, s') = reconcile env (new_client_func env 30) req lab in
    ((r : Reconciled) × (outcome ≡ done r) × IsPolled r)
    × (calls_of is_action s' ≡ calls_of is_action lab)
reconcile_polls_example = reconcile_polls env 30 req lab machine refl refl
