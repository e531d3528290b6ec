-- ===== src/Startup.antt =====
-- main.go, and the functions SetupWithManager of controller/{job,task,machine}.go, which main calls:
-- the reconcilers are registered with a manager of controller-runtime, which is then started.
pub mod Order
use rufio.Prelude.{ℕ, Bool, true, false, not, Option, none, some, List, [], ◌∷◌, if◌then◌else◌}
use rufio.Prelude.Int.{ℤ, pos}
use rufio.Prelude.Text.{Text, codes, text_eq}
use rufio.Api.Meta.{NamespacedName}
use rufio.Controller.Error.{Error, Result, ok, err}
use rufio.Controller.Env.{Env}
use rufio.Controller.Exec.{Exec, Reconciled}
use rufio.Controller.Client.{ClientFunc, new_client_func}
use rufio.Controller.Machine
use rufio.Controller.Task
use rufio.Controller.Job.{Object, task_owner_index_func}
use rufio.Controller.Job

-- What the flags set; the timeout is in nanoseconds.
pub record Flags : Type 0 where
  pub metrics_addr : Text
  pub probe_addr : Text
  pub enable_leader_election : Bool
  pub kube_api_server : Text
  pub kubeconfig : Text
  pub kube_namespace : Text
  pub bmc_connect_timeout : ℕ
  pub max_concurrent_reconciles : ℤ

abbrev pub default_flags : Flags
default_flags = record {
  metrics_addr = codes ":8080";
  probe_addr = codes ":8081";
  enable_leader_election = false;
  kube_api_server = [];
  kubeconfig = [];
  kube_namespace = [];
  bmc_connect_timeout = 60000000000;
  max_concurrent_reconciles = pos 1;
}

-- What `newClientConfig` gives to client-go: the path of the kubeconfig, and the server.
pub record ClientConfig : Type 0 where
  pub explicit_path : Text
  pub server : Text

unfoldable pub new_client_config : Text → Text → ClientConfig
new_client_config kube_api_server kubeconfig = record {
  explicit_path = kubeconfig;
  server = kube_api_server;
}

-- `ctrl.Options`, without the scheme; no namespace stands for all.
pub record Options : Type 0 where
  pub bind_address : Text
  pub health_probe_bind_address : Text
  pub leader_election : Bool
  pub leader_election_id : Text
  pub default_namespaces : List Text

unfoldable pub options_of : Flags → Options
options_of flags = record {
  bind_address = flags.metrics_addr;
  health_probe_bind_address = flags.probe_addr;
  leader_election = flags.enable_leader_election;
  leader_election_id = codes "e74dec1a.tinkerbell.org";
  default_namespaces =
      if not (text_eq flags.kube_namespace []) then flags.kube_namespace ∷ [] else [];
}

pub data ObjectKind : Type 0 where
  machine_objects : ObjectKind
  job_objects : ObjectKind
  task_objects : ObjectKind

abbrev pub job_owner_key : Text
job_owner_key = codes ".metadata.controller"

-- What a call of the builder describes: the objects, those watched for the objects that control
-- them, the number of reconciliations at a time, the event recorder, and the function Reconcile.
pub record Registration (env : Env) : Type 0 where
  pub for_objects : ObjectKind
  pub watches : Option ObjectKind
  pub max_concurrent : ℤ
  pub recorder : Option Text
  pub reconcile : NamespacedName → Exec env.World env.Bmc Reconciled

-- The calls of controller-runtime and client-go that main makes, in a world of their own.
pub record Runtime (env : Env) : Type 1 where
  pub World : Type 0
  pub Config : Type 0
  pub Manager : Type 0
  pub client_config : ClientConfig → World → Result Config × World
  pub new_manager : Config → Options → World → Result Manager × World
  pub index_field :
      Manager → ObjectKind → Text → (Object → List Text) → World → Option Error × World
  pub complete : Manager → Registration env → World → Option Error × World
  pub add_healthz_check : Manager → Text → World → Option Error × World
  pub add_readyz_check : Manager → Text → World → Option Error × World
  pub start : Manager → World → Option Error × World

-- A call, with its arguments.
pub data Step (env : Env) : Type 0 where
  load_config : ClientConfig → Step env
  make_manager : Options → Step env
  add_index : ObjectKind → Text → (Object → List Text) → Step env
  register : Registration env → Step env
  check_health : Text → Step env
  check_ready : Text → Step env
  start_manager : Step env

-- A step has returned, or has ended the process.
pub data Ended (A : Type 0) : Type 0 where
  returned : A → Ended A
  exited : ℕ → Ended A

-- The world, and the calls made, newest first, with whether they succeeded.
pub record State (W S : Type 0) : Type 0 where
  pub world : W
  pub steps : List (S × Bool)

abbrev pub Start : Type 0 → Type 0 → Type 0 → Type 0
Start W S A = State W S → Ended A × State W S

abbrev pub is_ok : {A : Type 0} → Result A → Bool
is_ok (ok a) = true
is_ok (err e) = false

abbrev pub is_nil : Option Error → Bool
is_nil none = true
is_nil (some e) = false

module _ {W S : Type 0} where
  abbrev pub pure : {A : Type 0} → A → Start W S A
  pure a s = (returned a, s)

  -- `os.Exit`
  abbrev pub exit : {A : Type 0} → ℕ → Start W S A
  exit code s = (exited code, s)

  unfoldable pub perform : {A : Type 0} → (A → Bool) → S → (W → A × W) → Start W S A
  perform good step op s =
      let (a, w) = op s.world in
      (returned a, record { world = w; steps = (step, good a) ∷ s.steps })

  abbrev pub resume : {A C : Type 0} → (A → Start W S C) → Ended A → Start W S C
  resume f (returned a) s = f a s
  resume f (exited code) s = (exited code, s)

  infixl 5 ◌>>=◌
  unfoldable pub ◌>>=◌ : {A C : Type 0} → Start W S A → (A → Start W S C) → Start W S C
  ◌>>=◌ m f s = let (r, s') = m s in resume f r s'

  -- `if err != nil { os.Exit(1) }`, after a call that returns a value or an error
  unfoldable pub value_or_exit : {A : Type 0} → Start W S (Result A) → Start W S A
  value_or_exit m = do r ← m; elim r [ ok a ↦ pure a | err e ↦ exit 1 ]

  -- the same, after a call that returns an error only
  unfoldable pub or_exit : Start W S (Option Error) → Start W S (Unit {0})
  or_exit m = do e ← m; elim e [ none ↦ pure tt | some e ↦ exit 1 ]

module _ (env : Env) where
  -- `NewMachineReconciler(...)` with its SetupWithManager.
  unfoldable pub machine_registration : ClientFunc env → ℤ → Registration env
  machine_registration bmc_client max = record {
    for_objects = machine_objects;
    watches = none;
    max_concurrent = max;
    recorder = some (codes "machine-controller");
    reconcile = Machine.reconcile env bmc_client;
  }

  unfoldable pub job_registration : ℤ → Registration env
  job_registration max = record {
    for_objects = job_objects;
    watches = some task_objects;
    max_concurrent = max;
    recorder = none;
    reconcile = Job.reconcile env;
  }

  unfoldable pub task_registration : ClientFunc env → ℤ → Registration env
  task_registration bmc_client_factory max = record {
    for_objects = task_objects;
    watches = none;
    max_concurrent = max;
    recorder = none;
    reconcile = Task.reconcile env bmc_client_factory;
  }

module _ (env : Env) (runtime : Runtime env) where
  abbrev Setup : Type 0 → Type 0
  Setup A = Start runtime.World (Step env) A

  -- `Complete(r)` of the builder.
  unfoldable pub setup_with_manager : runtime.Manager → Registration env → Setup (Option Error)
  setup_with_manager mgr r = perform is_nil (register r) (runtime.complete mgr r)

  -- SetupWithManager of the job reconciler: first the index of tasks by their owner.
  unfoldable pub setup_job_with_manager : runtime.Manager → ℤ → Setup (Option Error)
  setup_job_with_manager mgr max = do
    e ←
        perform is_nil (add_index task_objects job_owner_key (task_owner_index_func env))
          (runtime.index_field mgr task_objects job_owner_key (task_owner_index_func env))
    elim e [ some e ↦ pure (some e) | none ↦ setup_with_manager mgr (job_registration env max) ]

  unfoldable pub setup_reconcilers : runtime.Manager → ClientFunc env → ℤ → Setup (Unit {0})
  setup_reconcilers mgr bmc_client_factory max = do
    _ ← or_exit (setup_with_manager mgr (machine_registration env bmc_client_factory max))
    _ ← or_exit (setup_job_with_manager mgr max)
    or_exit (setup_with_manager mgr (task_registration env bmc_client_factory max))

  -- main, after its flags have been parsed.
  unfoldable pub main : Flags → Setup (Unit {0})
  main flags = do
    cfg ← value_or_exit (
        perform is_ok (load_config (new_client_config flags.kube_api_server flags.kubeconfig))
          (runtime.client_config (new_client_config flags.kube_api_server flags.kubeconfig)))
    mgr ← value_or_exit (
        perform is_ok (make_manager (options_of flags))
          (runtime.new_manager cfg (options_of flags)))
    _ ←
        setup_reconcilers mgr (new_client_func env flags.bmc_connect_timeout)
          flags.max_concurrent_reconciles
    _ ← or_exit (
        perform is_nil (check_health (codes "healthz"))
          (runtime.add_healthz_check mgr (codes "healthz")))
    _ ← or_exit (
        perform is_nil (check_ready (codes "readyz"))
          (runtime.add_readyz_check mgr (codes "readyz")))
    or_exit (perform is_nil start_manager (runtime.start mgr))
