-- ===== src/Examples/Cluster.antt =====
-- A cluster with one machine, one job and one task to read, a list of the job's tasks, a secret, a
-- clock that a call moves on by a nanosecond, and a machine that can be reached and does as it is
-- told. The calls are concrete functions of it.
use rufio.Prelude.{
  ℕ, suc, ◌≡◌, refl, Bool, true, false, not, ◌&&◌, ◌==◌, Option, none, some, List, [], ◌∷◌, ◌++◌,
  leb, if◌then◌else◌, arith,
}
use rufio.Prelude.Int.{ℤ, pos, negsuc, max_uint32}
use rufio.Prelude.Text.{Text, codes}
use rufio.Api.Meta.{OwnerReference}
use rufio.Api.Machine.{Machine}
use rufio.Api.Task.{Task}
use rufio.Api.Job.{Job}
use rufio.Controller.Error.{external, Result, ok, err}
use rufio.Controller.Bmc.{Provider}
use rufio.Controller.Env.{Env}
use rufio.Controller.Exec.{State}
use rufio.Controller.Client.Options.{IsToUint32, override, IsOverride}
use rufio.Controller.Job.Ownership.{IsGetControllerOf}

pub record Cluster : Type 0 where
  pub machine : Machine
  pub job : Job
  pub task : Task
  pub tasks : List Task
  pub secret : List (Text × Text)
  pub clock : ℕ
  pub power : Text

abbrev pub to_uint32 : ℤ → Result ℕ
to_uint32 (pos n) = if leb n max_uint32 then ok n else err (external (codes "overflow"))
to_uint32 (negsuc n) = err (external (codes "negative value"))

abbrev pub merge : Provider → Provider → Provider
merge d s = record {
  consumer_url = override d.consumer_url s.consumer_url;
  host = override d.host s.host;
  opts = record {
    request = record d.opts.request {
      timestamp_header = override d.opts.request.timestamp_header s.opts.request.timestamp_header;
    };
    signature = record d.opts.signature {
      header_name = override d.opts.signature.header_name s.opts.signature.header_name;
      included_payload_headers =
          override d.opts.signature.included_payload_headers
            s.opts.signature.included_payload_headers;
    };
    hmac = record d.opts.hmac { secrets = override d.opts.hmac.secrets s.opts.hmac.secrets };
    experimental = d.opts.experimental;
  };
}

abbrev is_controller : OwnerReference → Bool
is_controller r = elim r.controller [ none ↦ false | some b ↦ b ]

abbrev find_controller : List OwnerReference → Option OwnerReference
find_controller [] = none
find_controller (r ∷ refs) = if is_controller r then some r else find_controller refs

abbrev pub get_controller_of : Task → Option OwnerReference
get_controller_of task = find_controller task.object_meta.owner_references

abbrev pub env : Env
env = record {
  World = Cluster;
  get_machine = λ k w. (ok w.machine, w);
  get_job = λ k w. (ok w.job, w);
  get_task = λ k w. (ok w.task, w);
  get_secret = λ k w. (ok w.secret, w);
  list_tasks = λ name namespace w. (ok w.tasks, w);
  create_task = λ t w. (none, record w { tasks = w.tasks ++ t ∷ [] });
  patch_machine_status = λ m original w. (none, record w { machine = m });
  patch_job_status = λ j original w. (none, record w { job = j });
  patch_task_status = λ t original w. (none, record w { task = t });
  is_not_found = λ e. false;
  new_aggregate = λ es. external (codes "several errors");
  namespaced_name_string = λ k. k.namespace ++ codes "/" ++ k.name;
  result_is_zero = λ r. not r.requeue && r.requeue_after == 0;
  get_controller_of = get_controller_of;
  group_version_string = λ group version. group ++ codes "/" ++ version;
  now = λ w. (w.clock, record w { clock = suc w.clock });
  eventf = λ m kind reason text w. (tt, w);
  Bmc = Text;
  new_client = λ host username password opts. host;
  prefer_driver = λ order b. b;
  open_client = λ timeout b w. (none, w);
  close_client = λ b w. (none, w);
  get_power_state = λ b w. (ok w.power, w);
  set_power_state = λ p b w. (ok true, record w { power = p });
  set_boot_device = λ device persistent efi b w. (ok true, w);
  set_virtual_media = λ kind url b w. (ok true, w);
  to_uint32 = to_uint32;
  merge = merge;
}

abbrev pub state : Cluster → State Cluster Text
state w = record { world = w; calls = [] }

pub to_uint32-IsToUint32 : IsToUint32 to_uint32
to_uint32-IsToUint32 = record {
  in_range = λ n h. let e : leb n max_uint32 ≡ true = ground arith in rw e;
  too_large =
      λ n h. let e : leb n max_uint32 ≡ false = ground arith in (external (codes "overflow"), rw e);
  negative = λ n. (external (codes "negative value"), refl);
}

pub merge-IsOverride : IsOverride merge
merge-IsOverride = record {
  consumer_url = λ d s. refl;
  host = λ d s. refl;
  timestamp_header = λ d s. refl;
  header_name = λ d s. refl;
  included_payload_headers = λ d s. refl;
  secrets = λ d s. refl;
}

pub get_controller_of-IsGetControllerOf : IsGetControllerOf get_controller_of
get_controller_of-IsGetControllerOf = record { only_owner = λ task r e c. rw (e, c) }
