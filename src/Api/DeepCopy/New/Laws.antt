-- ===== src/Api/DeepCopy/New/Laws.antt =====
-- The functions DeepCopy copy all that the pointer leads to.
use rufio.Api.Memory.{
  references, boot_action_at, media_action_at, provider_options_at, intel_amt_at, ipmitool_at,
  redfish_at, rpc_at, request_at, signature_at, hmac_at, experimental_at, action_at, connection_at,
  machine_ref_at, machine_spec_at, machine_status_at, machine_condition_at, job_spec_at,
  job_condition_at, task_spec_at, task_condition_at, job_status_at, task_status_at,
}
use rufio.Api.Memory.Stands.{IsValue, IsPointer, IsMap}
use rufio.Api.Memory.Extends.{IsCopier}
use rufio.Api.Memory.Copiers.{copy_value-IsCopier, copy_pointer-IsCopier, copy_map-IsCopier}
use rufio.Api.DeepCopy.{MetaCopies}
use rufio.Api.DeepCopy.Represents.{
  IsBootAction, IsProviderOptions, IsRpcOptions, IsRequestOpts, IsSignatureOpts, IsHmacOpts,
  IsAction, IsConnection, IsMachineSpec, IsMachineStatus, IsJobSpec, IsTaskSpec, IsJobStatus,
  IsTaskStatus,
}
use rufio.Api.DeepCopy.Laws.{
  deep_copy_boot_action-IsCopier, deep_copy_provider_options-IsCopier,
  deep_copy_rpc_options-IsCopier, deep_copy_request_opts-IsCopier,
  deep_copy_signature_opts-IsCopier, deep_copy_hmac_opts-IsCopier, deep_copy_action-IsCopier,
  deep_copy_connection-IsCopier, deep_copy_machine_spec-IsCopier, deep_copy_machine_status-IsCopier,
  deep_copy_job_spec-IsCopier, deep_copy_task_spec-IsCopier,
}
use rufio.Api.DeepCopy.Objects.{deep_copy_job_status-IsCopier, deep_copy_task_status-IsCopier}
use rufio.Api.DeepCopy.New.{
  new_boot_action, new_media_action, new_provider_options, new_intel_amt_options,
  new_ipmitool_options, new_redfish_options, new_rpc_options, new_request_opts, new_signature_opts,
  new_hmac_opts, new_experimental_opts, new_action, new_connection, new_machine_ref,
  new_machine_spec, new_machine_status, new_machine_condition, new_job_spec, new_job_condition,
  new_task_spec, new_task_condition, new_job_status, new_task_status, new_hmac_secrets,
}

-- DeepCopy of a pointer to each of the structs that hold no metadata and no times, and of a map of
-- HMAC secrets: nil gives nil, and another pointer or map gives one to new memory, all of whose
-- addresses are new, that stands for the same value, with the old memory as it was. It begins with
-- memory in which all addresses that the pointer leads to are in use.
new-IsCopier :
    IsCopier (IsPointer boot_action_at IsBootAction) new_boot_action
    × IsCopier (IsPointer media_action_at IsValue) new_media_action
    × IsCopier (IsPointer provider_options_at IsProviderOptions) new_provider_options
    × IsCopier (IsPointer intel_amt_at IsValue) new_intel_amt_options
    × IsCopier (IsPointer ipmitool_at IsValue) new_ipmitool_options
    × IsCopier (IsPointer redfish_at IsValue) new_redfish_options
    × IsCopier (IsPointer rpc_at IsRpcOptions) new_rpc_options
    × IsCopier (IsPointer request_at IsRequestOpts) new_request_opts
    × IsCopier (IsPointer signature_at IsSignatureOpts) new_signature_opts
    × IsCopier (IsPointer hmac_at IsHmacOpts) new_hmac_opts
    × IsCopier (IsPointer experimental_at IsValue) new_experimental_opts
    × IsCopier (IsPointer action_at IsAction) new_action
    × IsCopier (IsPointer connection_at IsConnection) new_connection
    × IsCopier (IsPointer machine_ref_at IsValue) new_machine_ref
    × IsCopier (IsPointer machine_spec_at IsMachineSpec) new_machine_spec
    × IsCopier (IsPointer machine_status_at IsMachineStatus) new_machine_status
    × IsCopier (IsPointer machine_condition_at IsValue) new_machine_condition
    × IsCopier (IsPointer job_spec_at IsJobSpec) new_job_spec
    × IsCopier (IsPointer job_condition_at IsValue) new_job_condition
    × IsCopier (IsPointer task_spec_at IsTaskSpec) new_task_spec
    × IsCopier (IsPointer task_condition_at IsValue) new_task_condition
    × IsCopier (IsMap references) new_hmac_secrets
unfolding new_boot_action new_media_action new_provider_options new_intel_amt_options
    new_ipmitool_options new_redfish_options new_rpc_options new_request_opts new_signature_opts
    new_hmac_opts new_experimental_opts new_action new_connection new_machine_ref new_machine_spec
    new_machine_status new_machine_condition new_job_spec new_job_condition new_task_spec
    new_task_condition new_hmac_secrets
new-IsCopier = (
  copy_pointer-IsCopier boot_action_at deep_copy_boot_action-IsCopier,
  copy_pointer-IsCopier media_action_at copy_value-IsCopier,
  copy_pointer-IsCopier provider_options_at deep_copy_provider_options-IsCopier,
  copy_pointer-IsCopier intel_amt_at copy_value-IsCopier,
  copy_pointer-IsCopier ipmitool_at copy_value-IsCopier,
  copy_pointer-IsCopier redfish_at copy_value-IsCopier,
  copy_pointer-IsCopier rpc_at deep_copy_rpc_options-IsCopier,
  copy_pointer-IsCopier request_at deep_copy_request_opts-IsCopier,
  copy_pointer-IsCopier signature_at deep_copy_signature_opts-IsCopier,
  copy_pointer-IsCopier hmac_at deep_copy_hmac_opts-IsCopier,
  copy_pointer-IsCopier experimental_at copy_value-IsCopier,
  copy_pointer-IsCopier action_at deep_copy_action-IsCopier,
  copy_pointer-IsCopier connection_at deep_copy_connection-IsCopier,
  copy_pointer-IsCopier machine_ref_at copy_value-IsCopier,
  copy_pointer-IsCopier machine_spec_at deep_copy_machine_spec-IsCopier,
  copy_pointer-IsCopier machine_status_at deep_copy_machine_status-IsCopier,
  copy_pointer-IsCopier machine_condition_at copy_value-IsCopier,
  copy_pointer-IsCopier job_spec_at deep_copy_job_spec-IsCopier,
  copy_pointer-IsCopier job_condition_at copy_value-IsCopier,
  copy_pointer-IsCopier task_spec_at deep_copy_task_spec-IsCopier,
  copy_pointer-IsCopier task_condition_at copy_value-IsCopier,
  copy_map-IsCopier references,
)

module _ (copies : MetaCopies) where
  -- DeepCopy of a pointer to the status of a Job or of a Task does the same, where the function of
  -- Kubernetes that copies a time does.
  new_status-IsCopier :
      IsCopier (IsPointer job_status_at IsJobStatus) (new_job_status copies)
      × IsCopier (IsPointer task_status_at IsTaskStatus) (new_task_status copies)
  unfolding new_job_status new_task_status
  new_status-IsCopier = (
    copy_pointer-IsCopier job_status_at (deep_copy_job_status-IsCopier copies),
    copy_pointer-IsCopier task_status_at (deep_copy_task_status-IsCopier copies),
  )
