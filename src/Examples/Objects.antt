-- ===== src/Examples/Objects.antt =====
-- A machine, a job of two actions, and its tasks, as a cluster may hold them.
use rufio.Prelude.{true, false, Option, none, some, List, [], ◌∷◌}
use rufio.Prelude.Int.{pos, negsuc}
use rufio.Prelude.Text.{Text, codes}
use rufio.Api.Meta.{NamespacedName, SecretReference, ObjectMeta, Time}
use rufio.Api.Action.{Action, power_on, power_soft_off, pxe, virtual_media_cd}
use rufio.Api.ProviderOpts.{Connection, RpcOptions, HmacSecrets, IntelAmtOptions}
use rufio.Api.Machine.{Machine, condition_true, unknown}
use rufio.Api.Task.{Task, TaskCondition, task_completed, task_failed}
use rufio.Api.Job.{Job, JobCondition, job_running}

abbrev pub secret_reference : SecretReference
secret_reference = record { name = codes "bmc-login"; namespace = codes "lab" }

abbrev pub connection : Connection
connection = record {
  host = codes "10.0.0.7";
  port = pos 623;
  auth_secret_ref = secret_reference;
  insecure_tls = true;
  provider_options = none;
}

abbrev pub meta_named : Text → Option Time → ObjectMeta
meta_named name deleted = record {
  name = name;
  namespace = codes "lab";
  uid = codes "7d1f";
  deletion_timestamp = deleted;
  owner_references = [];
}

abbrev pub object_key : Text → NamespacedName
object_key name = record { namespace = codes "lab"; name = name }

abbrev pub machine : Machine
machine = record {
  type_meta = record { kind = codes "Machine"; api_version = codes "bmc.tinkerbell.org/v1alpha1" };
  object_meta = meta_named (codes "node") none;
  spec = record { connection = connection };
  status = record { power = unknown; conditions = [] };
}

-- Power on.
abbrev pub turn_on : Action
turn_on = record {
  power_action = some power_on;
  one_time_boot_device_action = none;
  virtual_media_action = none;
}

-- Power off softly, boot once from the network, and insert a medium.
abbrev pub netboot : Action
netboot = record {
  power_action = some power_soft_off;
  one_time_boot_device_action = some (record { devices = pxe ∷ []; efi_boot = true });
  virtual_media_action =
      some (record { media_url = codes "http://10.0.0.1/os.iso"; kind = virtual_media_cd });
}

abbrev pub job_with : List JobCondition → Option Time → Job
job_with conditions deleted = record {
  type_meta = record { kind = codes "Job"; api_version = codes "bmc.tinkerbell.org/v1alpha1" };
  object_meta = meta_named (codes "provision") deleted;
  spec = record {
    machine_ref = record { name = codes "node"; namespace = codes "lab" };
    tasks = turn_on ∷ netboot ∷ [];
  };
  status = record { conditions = conditions; start_time = none; completion_time = none };
}

abbrev pub running : JobCondition
running = record { type = job_running; status = condition_true; message = [] }

abbrev pub new_job : Job
new_job = job_with [] none

abbrev pub running_job : Job
running_job = job_with (running ∷ []) none

abbrev pub deleted_job : Job
deleted_job = job_with [] (some 5)

abbrev pub task_with : Text → Action → List TaskCondition → Option Time → Task
task_with name action conditions start = record {
  type_meta = record { kind = codes "Task"; api_version = codes "bmc.tinkerbell.org/v1alpha1" };
  object_meta = meta_named name none;
  spec = record { task = action; connection = connection };
  status = record { conditions = conditions; start_time = start; completion_time = none };
}

abbrev pub completed_task : Task
completed_task =
    task_with (codes "provision-task-0") turn_on
      (record { type = task_completed; status = condition_true; message = [] } ∷ []) (some 100)

abbrev pub failed_task : Task
failed_task =
    task_with (codes "provision-task-1") netboot
      (record { type = task_failed; status = condition_true; message = codes "no medium" } ∷ [])
      (some 100)

abbrev pub started_task : Task
started_task = task_with (codes "provision-task-0") turn_on [] (some 100)

abbrev pub new_task : Task
new_task = task_with (codes "provision-task-1") netboot [] none

abbrev pub hmac_secrets : HmacSecrets
hmac_secrets =
    (codes "sha256", secret_reference ∷ secret_reference ∷ [])
    ∷ (codes "sha512", secret_reference ∷ [])
    ∷ []

abbrev pub rpc : RpcOptions
rpc = record {
  consumer_url = codes "http://10.0.0.1/rpc";
  log_notifications_disabled = false;
  request = none;
  signature = some (record {
    header_name = codes "X-Own-Signature";
    append_algo_to_header_disabled = false;
    included_payload_headers = [];
  });
  hmac = some (record { prefix_sig_disabled = false; secrets = hmac_secrets });
  experimental = none;
}

abbrev pub intel_amt : IntelAmtOptions
intel_amt = record { port = negsuc 0; host_scheme = codes "https" }
