-- ===== src/Api/DeepCopy/New.antt =====
-- The functions DeepCopy of zz_generated.deepcopy.go of the structs that memory holds: they make a
-- new struct for a pointer that is not nil, and copy into it.
pub mod Laws
use rufio.Prelude.{ℕ, Option, none, some}
use rufio.Api.Stored.{StoredMachine, StoredJob, StoredTask}
use rufio.Api.Memory.{
  Heap, references, boot_action_at, media_action_at, provider_options_at, intel_amt_at, ipmitool_at,
  redfish_at, rpc_at, request_at, signature_at, hmac_at, experimental_at, action_at, connection_at,
  machine_ref_at, machine_spec_at, machine_status_at, machine_condition_at, job_spec_at,
  job_condition_at, task_spec_at, task_condition_at, job_status_at, task_status_at,
}
use rufio.Api.Memory.Copies.{copy_value, copy_pointer, copy_map}
use rufio.Api.DeepCopy.{
  MetaCopies, deep_copy_boot_action, deep_copy_provider_options, deep_copy_rpc_options,
  deep_copy_request_opts, deep_copy_signature_opts, deep_copy_hmac_opts, deep_copy_action,
  deep_copy_connection, deep_copy_machine_spec, deep_copy_machine_status,
  deep_copy_machine_condition, deep_copy_job_spec, deep_copy_task_spec, deep_copy_job_status,
  deep_copy_task_status, deep_copy_machine, deep_copy_job, deep_copy_task,
}

unfoldable pub new_boot_action : Heap → Option ℕ → Heap × Option ℕ
new_boot_action = copy_pointer boot_action_at deep_copy_boot_action

unfoldable pub new_media_action : Heap → Option ℕ → Heap × Option ℕ
new_media_action = copy_pointer media_action_at copy_value

unfoldable pub new_provider_options : Heap → Option ℕ → Heap × Option ℕ
new_provider_options = copy_pointer provider_options_at deep_copy_provider_options

unfoldable pub new_intel_amt_options : Heap → Option ℕ → Heap × Option ℕ
new_intel_amt_options = copy_pointer intel_amt_at copy_value

unfoldable pub new_ipmitool_options : Heap → Option ℕ → Heap × Option ℕ
new_ipmitool_options = copy_pointer ipmitool_at copy_value

unfoldable pub new_redfish_options : Heap → Option ℕ → Heap × Option ℕ
new_redfish_options = copy_pointer redfish_at copy_value

unfoldable pub new_rpc_options : Heap → Option ℕ → Heap × Option ℕ
new_rpc_options = copy_pointer rpc_at deep_copy_rpc_options

unfoldable pub new_request_opts : Heap → Option ℕ → Heap × Option ℕ
new_request_opts = copy_pointer request_at deep_copy_request_opts

unfoldable pub new_signature_opts : Heap → Option ℕ → Heap × Option ℕ
new_signature_opts = copy_pointer signature_at deep_copy_signature_opts

unfoldable pub new_hmac_opts : Heap → Option ℕ → Heap × Option ℕ
new_hmac_opts = copy_pointer hmac_at deep_copy_hmac_opts

unfoldable pub new_experimental_opts : Heap → Option ℕ → Heap × Option ℕ
new_experimental_opts = copy_pointer experimental_at copy_value

unfoldable pub new_action : Heap → Option ℕ → Heap × Option ℕ
new_action = copy_pointer action_at deep_copy_action

unfoldable pub new_connection : Heap → Option ℕ → Heap × Option ℕ
new_connection = copy_pointer connection_at deep_copy_connection

unfoldable pub new_machine_ref : Heap → Option ℕ → Heap × Option ℕ
new_machine_ref = copy_pointer machine_ref_at copy_value

unfoldable pub new_machine_spec : Heap → Option ℕ → Heap × Option ℕ
new_machine_spec = copy_pointer machine_spec_at deep_copy_machine_spec

unfoldable pub new_machine_status : Heap → Option ℕ → Heap × Option ℕ
new_machine_status = copy_pointer machine_status_at deep_copy_machine_status

unfoldable pub new_machine_condition : Heap → Option ℕ → Heap × Option ℕ
new_machine_condition = copy_pointer machine_condition_at deep_copy_machine_condition

unfoldable pub new_job_spec : Heap → Option ℕ → Heap × Option ℕ
new_job_spec = copy_pointer job_spec_at deep_copy_job_spec

unfoldable pub new_job_condition : Heap → Option ℕ → Heap × Option ℕ
new_job_condition = copy_pointer job_condition_at copy_value

unfoldable pub new_task_spec : Heap → Option ℕ → Heap × Option ℕ
new_task_spec = copy_pointer task_spec_at deep_copy_task_spec

unfoldable pub new_task_condition : Heap → Option ℕ → Heap × Option ℕ
new_task_condition = copy_pointer task_condition_at copy_value

unfoldable pub new_hmac_secrets : Heap → Option ℕ → Heap × Option ℕ
new_hmac_secrets = copy_map references

module _ (copies : MetaCopies) where
  unfoldable pub new_job_status : Heap → Option ℕ → Heap × Option ℕ
  new_job_status = copy_pointer job_status_at (deep_copy_job_status copies)

  unfoldable pub new_task_status : Heap → Option ℕ → Heap × Option ℕ
  new_task_status = copy_pointer task_status_at (deep_copy_task_status copies)
