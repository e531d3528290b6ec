-- ===== src/Api/DeepCopy.antt =====
-- The deep copies of zz_generated.deepcopy.go. Metadata and times are copied by code of Kubernetes.
pub mod Represents
pub mod Laws
pub mod Objects
pub mod Bases
pub mod New
use rufio.Prelude.{ℕ, Option}
use rufio.Api.Meta.{ObjectMeta}
use rufio.Api.Machine.{MachineCondition}
use rufio.Api.Stored.{
  StoredBootAction, StoredAction, StoredRequestOpts, StoredSignatureOpts, StoredHmacOpts,
  StoredRpcOptions, StoredProviderOptions, StoredConnection, StoredMachineSpec, StoredMachineStatus,
  StoredJobSpec, StoredStatus, StoredTaskSpec, StoredMachine, StoredJob, StoredTask,
}
use rufio.Api.Memory.{
  Heap, time_at, power_action_at, boot_action_at, media_action_at, provider_options_at,
  intel_amt_at, ipmitool_at, redfish_at, rpc_at, request_at, signature_at, hmac_at, experimental_at,
  texts, references, actions, job_conditions, task_conditions, machine_conditions,
}
use rufio.Api.Memory.Copies.{copy_value, copy_pointer, copy_slice, copy_map}
use rufio.Api.Memory.Stands.{Stands, IsPointer, IsValue}
use rufio.Api.Memory.Extends.{IsCopier}

-- How the metadata of an object is stored, and the functions of Kubernetes that copy it and that copy
-- a time, which are documented to be deep copies.
pub record MetaCopies : Type 1 where
  pub Meta : Type 0
  pub IsMeta : Stands Meta ObjectMeta
  pub copy_meta : Heap → Meta → Heap × Meta
  pub copy_meta-IsCopier : IsCopier IsMeta copy_meta
  pub copy_time : Heap → Option ℕ → Heap × Option ℕ
  pub copy_time-IsCopier : IsCopier (IsPointer time_at IsValue) copy_time

-- Its time is a value, which Time.DeepCopyInto assigns.
abbrev pub deep_copy_machine_condition : Heap → MachineCondition → Heap × MachineCondition
deep_copy_machine_condition = copy_value

unfoldable pub deep_copy_boot_action : Heap → StoredBootAction → Heap × StoredBootAction
deep_copy_boot_action h x =
    let (h1, devices) = copy_slice texts copy_value h x.devices in
    (h1, record x { devices = devices })

unfoldable pub deep_copy_action : Heap → StoredAction → Heap × StoredAction
deep_copy_action h x =
    let (h1, power_action) = copy_pointer power_action_at copy_value h x.power_action in
    let (h2, one_time_boot_device_action) =
      copy_pointer boot_action_at deep_copy_boot_action h1 x.one_time_boot_device_action in
    let (h3, virtual_media_action) =
      copy_pointer media_action_at copy_value h2 x.virtual_media_action in
    (
      h3,
      record x {
        power_action = power_action;
        one_time_boot_device_action = one_time_boot_device_action;
        virtual_media_action = virtual_media_action;
      },
    )

unfoldable pub deep_copy_request_opts : Heap → StoredRequestOpts → Heap × StoredRequestOpts
deep_copy_request_opts h x =
    let (h1, static_headers) = copy_map texts h x.static_headers in
    (h1, record x { static_headers = static_headers })

unfoldable pub deep_copy_signature_opts : Heap → StoredSignatureOpts → Heap × StoredSignatureOpts
deep_copy_signature_opts h x =
    let (h1, included_payload_headers) = copy_slice texts copy_value h x.included_payload_headers in
    (h1, record x { included_payload_headers = included_payload_headers })

unfoldable pub deep_copy_hmac_opts : Heap → StoredHmacOpts → Heap × StoredHmacOpts
deep_copy_hmac_opts h x =
    let (h1, secrets) = copy_map references h x.secrets in (h1, record x { secrets = secrets })

unfoldable pub deep_copy_rpc_options : Heap → StoredRpcOptions → Heap × StoredRpcOptions
deep_copy_rpc_options h x =
    let (h1, request) = copy_pointer request_at deep_copy_request_opts h x.request in
    let (h2, signature) = copy_pointer signature_at deep_copy_signature_opts h1 x.signature in
    let (h3, hmac) = copy_pointer hmac_at deep_copy_hmac_opts h2 x.hmac in
    let (h4, experimental) = copy_pointer experimental_at copy_value h3 x.experimental in
    (
      h4,
      record x {
        request = request;
        signature = signature;
        hmac = hmac;
        experimental = experimental;
      },
    )

unfoldable pub deep_copy_provider_options :
    Heap → StoredProviderOptions → Heap × StoredProviderOptions
deep_copy_provider_options h x =
    let (h1, preferred_order) = copy_slice texts copy_value h x.preferred_order in
    let (h2, intel_amt) = copy_pointer intel_amt_at copy_value h1 x.intel_amt in
    let (h3, ipmitool) = copy_pointer ipmitool_at copy_value h2 x.ipmitool in
    let (h4, redfish) = copy_pointer redfish_at copy_value h3 x.redfish in
    let (h5, rpc) = copy_pointer rpc_at deep_copy_rpc_options h4 x.rpc in
    (
      h5,
      record x {
        preferred_order = preferred_order;
        intel_amt = intel_amt;
        ipmitool = ipmitool;
        redfish = redfish;
        rpc = rpc;
      },
    )

unfoldable pub deep_copy_connection : Heap → StoredConnection → Heap × StoredConnection
deep_copy_connection h x =
    let (h1, provider_options) =
      copy_pointer provider_options_at deep_copy_provider_options h x.provider_options in
    (h1, record x { provider_options = provider_options })

unfoldable pub deep_copy_machine_spec : Heap → StoredMachineSpec → Heap × StoredMachineSpec
deep_copy_machine_spec h x =
    let (h1, connection) = deep_copy_connection h x.connection in
    (h1, record x { connection = connection })

unfoldable pub deep_copy_machine_status : Heap → StoredMachineStatus → Heap × StoredMachineStatus
deep_copy_machine_status h x =
    let (h1, conditions) =
      copy_slice machine_conditions deep_copy_machine_condition h x.conditions in
    (h1, record x { conditions = conditions })

unfoldable pub deep_copy_job_spec : Heap → StoredJobSpec → Heap × StoredJobSpec
deep_copy_job_spec h x =
    let (h1, tasks) = copy_slice actions deep_copy_action h x.tasks in
    (h1, record x { tasks = tasks })

unfoldable pub deep_copy_task_spec : Heap → StoredTaskSpec → Heap × StoredTaskSpec
deep_copy_task_spec h x =
    let (h1, task) = deep_copy_action h x.task in
    let (h2, connection) = deep_copy_connection h1 x.connection in
    (h2, record x { task = task; connection = connection })

module _ (copies : MetaCopies) where
  unfoldable pub deep_copy_job_status : Heap → StoredStatus → Heap × StoredStatus
  deep_copy_job_status h x =
      let (h1, conditions) = copy_slice job_conditions copy_value h x.conditions in
      let (h2, start_time) = copies.copy_time h1 x.start_time in
      let (h3, completion_time) = copies.copy_time h2 x.completion_time in
      (
        h3,
        record x {
          conditions = conditions;
          start_time = start_time;
          completion_time = completion_time;
        },
      )

  unfoldable pub deep_copy_task_status : Heap → StoredStatus → Heap × StoredStatus
  deep_copy_task_status h x =
      let (h1, conditions) = copy_slice task_conditions copy_value h x.conditions in
      let (h2, start_time) = copies.copy_time h1 x.start_time in
      let (h3, completion_time) = copies.copy_time h2 x.completion_time in
      (
        h3,
        record x {
          conditions = conditions;
          start_time = start_time;
          completion_time = completion_time;
        },
      )

  unfoldable pub deep_copy_machine :
      Heap → StoredMachine copies.Meta → Heap × StoredMachine copies.Meta
  deep_copy_machine h x =
      let (h1, object_meta) = copies.copy_meta h x.object_meta in
      let (h2, spec) = deep_copy_machine_spec h1 x.spec in
      let (h3, status) = deep_copy_machine_status h2 x.status in
      (h3, record x { object_meta = object_meta; spec = spec; status = status })

  unfoldable pub deep_copy_job : Heap → StoredJob copies.Meta → Heap × StoredJob copies.Meta
  deep_copy_job h x =
      let (h1, object_meta) = copies.copy_meta h x.object_meta in
      let (h2, spec) = deep_copy_job_spec h1 x.spec in
      let (h3, status) = deep_copy_job_status h2 x.status in
      (h3, record x { object_meta = object_meta; spec = spec; status = status })

  unfoldable pub deep_copy_task : Heap → StoredTask copies.Meta → Heap × StoredTask copies.Meta
  deep_copy_task h x =
      let (h1, object_meta) = copies.copy_meta h x.object_meta in
      let (h2, spec) = deep_copy_task_spec h1 x.spec in
      let (h3, status) = deep_copy_task_status h2 x.status in
      (h3, record x { object_meta = object_meta; spec = spec; status = status })
