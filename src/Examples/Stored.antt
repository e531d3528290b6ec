-- ===== src/Examples/Stored.antt =====
-- A job, a task and a machine as values and in memory: metadata is held by value, and all cells of a
-- kind hold the same.
use rufio.Prelude.{true, false, Option, none, some, [], ◌∷◌}
use rufio.Prelude.Int.{pos}
use rufio.Prelude.Text.{codes}
use rufio.Api.Meta.{SecretReference, TypeMeta, ObjectMeta}
use rufio.Api.Action.{Action, power_on, pxe, virtual_media_cd}
use rufio.Api.Machine.{Machine, MachineCondition, contactable, condition_true, condition_false, on}
use rufio.Api.Job.{Job, JobCondition, MachineRef, job_running}
use rufio.Api.Task.{Task, TaskCondition, task_completed}
use rufio.Api.Stored.{
  Slice, StoredAction, StoredStatus, StoredConnection, StoredMachine, StoredJob, StoredTask,
}
use rufio.Api.Memory.{
  Kind, Cell, Heap, one, array_of, entries, time_at, power_action_at, boot_action_at,
  media_action_at, provider_options_at, intel_amt_at, ipmitool_at, redfish_at, rpc_at, request_at,
  signature_at, hmac_at, experimental_at, action_at, connection_at, machine_ref_at, machine_spec_at,
  machine_status_at, machine_condition_at, job_spec_at, job_status_at, job_condition_at,
  task_spec_at, task_status_at, task_condition_at, texts, references, actions, job_conditions,
  task_conditions, machine_conditions,
}
use rufio.Api.Memory.Copies.{copy_value, copy_pointer}
use rufio.Api.Memory.Stands.{IsValue}
use rufio.Api.Memory.Copiers.{copy_value-IsCopier, copy_pointer-IsCopier}
use rufio.Api.DeepCopy.{MetaCopies}
use rufio.Examples.Objects.{meta_named}
use rufio.Api.ProviderOpts.{Connection, RpcOptions}

abbrev pub copies : MetaCopies
copies = record {
  Meta = ObjectMeta;
  IsMeta = IsValue;
  copy_meta = copy_value;
  copy_meta-IsCopier = copy_value-IsCopier;
  copy_time = copy_pointer time_at copy_value;
  copy_time-IsCopier = copy_pointer-IsCopier time_at copy_value-IsCopier;
}

abbrev pub reference : SecretReference
reference = record { name = codes "key"; namespace = codes "rufio" }

abbrev pub stored_action : StoredAction
stored_action = record {
  power_action = some 0;
  one_time_boot_device_action = some 1;
  virtual_media_action = some 2;
}

abbrev pub two : Option Slice
two = some (record { array = 3; len = 1 })

abbrev pub stored_connection : StoredConnection
stored_connection = record {
  host = codes "h";
  port = pos 623;
  auth_secret_ref = reference;
  insecure_tls = true;
  provider_options = some 0;
}

abbrev stored_status : StoredStatus
stored_status = record { conditions = two; start_time = some 0; completion_time = none }

abbrev job_condition : JobCondition
job_condition = record { type = job_running; status = condition_true; message = [] }

abbrev task_condition : TaskCondition
task_condition = record { type = task_completed; status = condition_true; message = [] }

abbrev machine_condition : MachineCondition
machine_condition = record {
  type = contactable;
  status = condition_false;
  last_update_time = 3;
  message = [];
}

abbrev machine_ref : MachineRef
machine_ref = record { name = codes "node"; namespace = codes "lab" }

abbrev pub stored : (k : Kind) → Cell k
stored (one time_at) = 5
stored (one power_action_at) = power_on
stored (one boot_action_at) = record { devices = two; efi_boot = true }
stored (one media_action_at) = record { media_url = codes "u"; kind = virtual_media_cd }
stored (one provider_options_at) = record {
  preferred_order = two;
  intel_amt = none;
  ipmitool = some 0;
  redfish = none;
  rpc = some 4;
}
stored (one intel_amt_at) = record { port = pos 1; host_scheme = [] }
stored (one ipmitool_at) = record { port = pos 623; cipher_suite = codes "3" }
stored (one redfish_at) = record { port = pos 1; use_basic_auth = true; system_name = [] }
stored (one rpc_at) = record {
  consumer_url = codes "u";
  log_notifications_disabled = false;
  request = some 1;
  signature = none;
  hmac = some 2;
  experimental = none;
}
stored (one request_at) = record {
  http_content_type = [];
  http_method = codes "POST";
  static_headers = some 0;
  timestamp_format = [];
  timestamp_header = [];
}
stored (one signature_at) = record {
  header_name = [];
  append_algo_to_header_disabled = false;
  included_payload_headers = none;
}
stored (one hmac_at) = record { prefix_sig_disabled = false; secrets = some 0 }
stored (one experimental_at) = record { custom_request_payload = []; dot_path = [] }
stored (array_of texts) = pxe ∷ pxe ∷ []
stored (array_of references) = reference ∷ reference ∷ []
stored (array_of actions) = stored_action ∷ []
stored (array_of job_conditions) = job_condition ∷ []
stored (array_of task_conditions) = task_condition ∷ []
stored (array_of machine_conditions) = machine_condition ∷ []
stored (one action_at) = stored_action
stored (one connection_at) = stored_connection
stored (one machine_ref_at) = machine_ref
stored (one machine_spec_at) = record { connection = stored_connection }
stored (one machine_status_at) = record { power = on; conditions = two }
stored (one machine_condition_at) = machine_condition
stored (one job_spec_at) = record { machine_ref = machine_ref; tasks = two }
stored (one job_status_at) = stored_status
stored (one job_condition_at) = job_condition
stored (one task_spec_at) = record { task = stored_action; connection = stored_connection }
stored (one task_status_at) = stored_status
stored (one task_condition_at) = task_condition
stored entries = (codes "k", two) ∷ (codes "l", none) ∷ []

abbrev pub memory : Heap
memory = record { next = 5; cells = λ k a. stored k }

abbrev pub action : Action
action = record {
  power_action = some power_on;
  one_time_boot_device_action = some (record { devices = pxe ∷ []; efi_boot = true });
  virtual_media_action = some (record { media_url = codes "u"; kind = virtual_media_cd });
}

abbrev pub rpc : RpcOptions
rpc = record {
  consumer_url = codes "u";
  log_notifications_disabled = false;
  request = some (record {
    http_content_type = [];
    http_method = codes "POST";
    static_headers = (codes "k", pxe ∷ []) ∷ (codes "l", []) ∷ [];
    timestamp_format = [];
    timestamp_header = [];
  });
  signature = none;
  hmac = some (record {
    prefix_sig_disabled = false;
    secrets = (codes "k", reference ∷ []) ∷ (codes "l", []) ∷ [];
  });
  experimental = none;
}

abbrev pub connection : Connection
connection = record {
  host = codes "h";
  port = pos 623;
  auth_secret_ref = reference;
  insecure_tls = true;
  provider_options = some (record {
    preferred_order = pxe ∷ [];
    intel_amt = none;
    ipmitool = some (record { port = pos 623; cipher_suite = codes "3" });
    redfish = none;
    rpc = some rpc;
  });
}

abbrev pub type_meta : TypeMeta
type_meta = record { kind = codes "Job"; api_version = codes "v1" }

abbrev pub stored_job : StoredJob ObjectMeta
stored_job = record {
  type_meta = type_meta;
  object_meta = meta_named (codes "j") none;
  spec = record { machine_ref = record { name = codes "m"; namespace = codes "lab" }; tasks = two };
  status = record { conditions = two; start_time = some 0; completion_time = none };
}

abbrev pub job : Job
job = record {
  type_meta = type_meta;
  object_meta = meta_named (codes "j") none;
  spec = record {
    machine_ref = record { name = codes "m"; namespace = codes "lab" };
    tasks = action ∷ [];
  };
  status = record {
    conditions = record { type = job_running; status = condition_true; message = [] } ∷ [];
    start_time = some 5;
    completion_time = none;
  };
}

abbrev pub stored_task : StoredTask ObjectMeta
stored_task = record {
  type_meta = type_meta;
  object_meta = meta_named (codes "t") none;
  spec = record { task = stored_action; connection = stored_connection };
  status = record { conditions = two; start_time = some 0; completion_time = none };
}

abbrev pub task : Task
task = record {
  type_meta = type_meta;
  object_meta = meta_named (codes "t") none;
  spec = record { task = action; connection = connection };
  status = record {
    conditions = record { type = task_completed; status = condition_true; message = [] } ∷ [];
    start_time = some 5;
    completion_time = none;
  };
}

abbrev pub stored_machine : StoredMachine ObjectMeta
stored_machine = record {
  type_meta = type_meta;
  object_meta = meta_named (codes "m") none;
  spec = record { connection = stored_connection };
  status = record { power = on; conditions = two };
}

abbrev pub machine : Machine
machine = record {
  type_meta = type_meta;
  object_meta = meta_named (codes "m") none;
  spec = record { connection = connection };
  status = record {
    power = on;
    conditions =
        record { type = contactable; status = condition_false; last_update_time = 3; message = [] }
        ∷ [];
  };
}
