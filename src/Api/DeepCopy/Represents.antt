-- ===== src/Api/DeepCopy/Represents.antt =====
-- The value that a stored struct stands for.
use rufio.Prelude.{◌≡◌}
use rufio.Api.Action.{OneTimeBootDeviceAction, Action}
use rufio.Api.ProviderOpts.{
  RequestOpts, SignatureOpts, HmacOpts, RpcOptions, ProviderOptions, Connection,
}
use rufio.Api.Machine.{MachineSpec, MachineStatus, Machine}
use rufio.Api.Job.{JobSpec, JobStatus, Job}
use rufio.Api.Task.{TaskSpec, TaskStatus, Task}
use rufio.Api.Stored.{
  StoredBootAction, StoredAction, StoredRequestOpts, StoredSignatureOpts, StoredHmacOpts,
  StoredRpcOptions, StoredProviderOptions, StoredConnection, StoredMachineSpec, StoredMachineStatus,
  StoredJobSpec, StoredStatus, StoredTaskSpec, StoredMachine, StoredJob, StoredTask,
}
use rufio.Api.Memory.{
  time_at, power_action_at, boot_action_at, media_action_at, provider_options_at, intel_amt_at,
  ipmitool_at, redfish_at, rpc_at, request_at, signature_at, hmac_at, experimental_at, texts,
  references, actions, job_conditions, task_conditions, machine_conditions,
}
use rufio.Api.Memory.Stands.{Stands, IsValue, IsPointer, IsSlice, IsMap}
use rufio.Api.DeepCopy.{MetaCopies}

abbrev pub IsBootAction : Stands StoredBootAction OneTimeBootDeviceAction
IsBootAction lo hi h x v =
    (x.efi_boot ≡ v.efi_boot) × IsSlice texts IsValue lo hi h x.devices v.devices

abbrev pub IsAction : Stands StoredAction Action
IsAction lo hi h x v =
    (IsPointer power_action_at IsValue lo hi h x.power_action v.power_action
      × IsPointer boot_action_at IsBootAction lo hi h x.one_time_boot_device_action
          v.one_time_boot_device_action)
    × IsPointer media_action_at IsValue lo hi h x.virtual_media_action v.virtual_media_action

abbrev pub IsRequestOpts : Stands StoredRequestOpts RequestOpts
IsRequestOpts lo hi h x v =
    ((x.http_content_type ≡ v.http_content_type)
      × (x.http_method ≡ v.http_method)
      × (x.timestamp_format ≡ v.timestamp_format)
      × (x.timestamp_header ≡ v.timestamp_header))
    × IsMap texts lo hi h x.static_headers v.static_headers

abbrev pub IsSignatureOpts : Stands StoredSignatureOpts SignatureOpts
IsSignatureOpts lo hi h x v =
    ((x.header_name ≡ v.header_name)
      × (x.append_algo_to_header_disabled ≡ v.append_algo_to_header_disabled))
    × IsSlice texts IsValue lo hi h x.included_payload_headers v.included_payload_headers

abbrev pub IsHmacOpts : Stands StoredHmacOpts HmacOpts
IsHmacOpts lo hi h x v =
    (x.prefix_sig_disabled ≡ v.prefix_sig_disabled) × IsMap references lo hi h x.secrets v.secrets

abbrev pub IsRpcOptions : Stands StoredRpcOptions RpcOptions
IsRpcOptions lo hi h x v =
    (((((x.consumer_url ≡ v.consumer_url)
            × (x.log_notifications_disabled ≡ v.log_notifications_disabled))
          × IsPointer request_at IsRequestOpts lo hi h x.request v.request)
        × IsPointer signature_at IsSignatureOpts lo hi h x.signature v.signature)
      × IsPointer hmac_at IsHmacOpts lo hi h x.hmac v.hmac)
    × IsPointer experimental_at IsValue lo hi h x.experimental v.experimental

abbrev pub IsProviderOptions : Stands StoredProviderOptions ProviderOptions
IsProviderOptions lo hi h x v =
    (((IsSlice texts IsValue lo hi h x.preferred_order v.preferred_order
          × IsPointer intel_amt_at IsValue lo hi h x.intel_amt v.intel_amt)
        × IsPointer ipmitool_at IsValue lo hi h x.ipmitool v.ipmitool)
      × IsPointer redfish_at IsValue lo hi h x.redfish v.redfish)
    × IsPointer rpc_at IsRpcOptions lo hi h x.rpc v.rpc

abbrev pub IsConnection : Stands StoredConnection Connection
IsConnection lo hi h x v =
    ((x.host ≡ v.host)
      × (x.port ≡ v.port)
      × (x.auth_secret_ref ≡ v.auth_secret_ref)
      × (x.insecure_tls ≡ v.insecure_tls))
    × IsPointer provider_options_at IsProviderOptions lo hi h x.provider_options v.provider_options

abbrev pub IsMachineSpec : Stands StoredMachineSpec MachineSpec
IsMachineSpec lo hi h x v = IsConnection lo hi h x.connection v.connection

abbrev pub IsMachineStatus : Stands StoredMachineStatus MachineStatus
IsMachineStatus lo hi h x v =
    (x.power ≡ v.power) × IsSlice machine_conditions IsValue lo hi h x.conditions v.conditions

abbrev pub IsJobSpec : Stands StoredJobSpec JobSpec
IsJobSpec lo hi h x v =
    (x.machine_ref ≡ v.machine_ref) × IsSlice actions IsAction lo hi h x.tasks v.tasks

abbrev pub IsTaskSpec : Stands StoredTaskSpec TaskSpec
IsTaskSpec lo hi h x v =
    IsAction lo hi h x.task v.task × IsConnection lo hi h x.connection v.connection

abbrev pub IsJobStatus : Stands StoredStatus JobStatus
IsJobStatus lo hi h x v =
    (IsSlice job_conditions IsValue lo hi h x.conditions v.conditions
      × IsPointer time_at IsValue lo hi h x.start_time v.start_time)
    × IsPointer time_at IsValue lo hi h x.completion_time v.completion_time

abbrev pub IsTaskStatus : Stands StoredStatus TaskStatus
IsTaskStatus lo hi h x v =
    (IsSlice task_conditions IsValue lo hi h x.conditions v.conditions
      × IsPointer time_at IsValue lo hi h x.start_time v.start_time)
    × IsPointer time_at IsValue lo hi h x.completion_time v.completion_time

module _ (copies : MetaCopies) where
  abbrev pub IsMachine : Stands (StoredMachine copies.Meta) Machine
  IsMachine lo hi h x v =
      (((x.type_meta ≡ v.type_meta) × copies.IsMeta lo hi h x.object_meta v.object_meta)
        × IsMachineSpec lo hi h x.spec v.spec)
      × IsMachineStatus lo hi h x.status v.status

  abbrev pub IsJob : Stands (StoredJob copies.Meta) Job
  IsJob lo hi h x v =
      (((x.type_meta ≡ v.type_meta) × copies.IsMeta lo hi h x.object_meta v.object_meta)
        × IsJobSpec lo hi h x.spec v.spec)
      × IsJobStatus lo hi h x.status v.status

  abbrev pub IsTask : Stands (StoredTask copies.Meta) Task
  IsTask lo hi h x v =
      (((x.type_meta ≡ v.type_meta) × copies.IsMeta lo hi h x.object_meta v.object_meta)
        × IsTaskSpec lo hi h x.spec v.spec)
      × IsTaskStatus lo hi h x.status v.status
