-- ===== src/Examples/Starts.antt =====
-- main with a namespace to watch, where the ready check cannot be added.
use rufio.Prelude.{none, some, []}
use rufio.Prelude.Text.{codes}
use rufio.Controller.Error.{external, ok}
use rufio.Startup.{Flags, default_flags, Runtime, State, Step, main}
use rufio.Startup.Order.{IsRun, all_steps, main-IsRun}
use rufio.Examples.Cluster.{env}

abbrev flags : Flags
flags = record default_flags { kube_namespace = codes "tink-system" }

abbrev runtime : Runtime env
runtime = record {
  World = Unit;
  Config = Unit;
  Manager = Unit;
  client_config = λ config w. (ok tt, w);
  new_manager = λ config options w. (ok tt, w);
  index_field = λ mgr kind key index w. (none, w);
  complete = λ mgr registration w. (none, w);
  add_healthz_check = λ mgr name w. (none, w);
  add_readyz_check = λ mgr name w. (some (external (codes "closed")), w);
  start = λ mgr w. (none, w);
}

abbrev before : State Unit (Step env)
before = record { world = tt; steps = [] }

main-IsRun_example : IsRun (all_steps env flags) [] (main env runtime flags before)
main-IsRun_example = main-IsRun env runtime flags before
