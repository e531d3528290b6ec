-- ===== src/Api/Memory.antt =====
-- The memory that holds the API objects: cells by kind and address, and the first address at which
-- no cell of any kind is in use. A cell holds a struct, the array of a slice, or the entries of a
-- map.
pub mod Writes
pub mod Copies
pub mod Stands
pub mod Extends
pub mod Copiers
pub mod Conditions
use rufio.Prelude.{ℕ, suc, Option, List, ◌==◌, if◌then◌else◌}
use rufio.Prelude.Text.{Text}
use rufio.Api.Meta.{Time, SecretReference}
use rufio.Api.Action.{PowerAction, VirtualMediaAction}
use rufio.Api.ProviderOpts.{RedfishOptions, IpmitoolOptions, IntelAmtOptions, ExperimentalOpts}
use rufio.Api.Machine.{MachineCondition}
use rufio.Api.Job.{JobCondition, MachineRef}
use rufio.Api.Task.{TaskCondition}
use rufio.Api.Stored.{
  Slice, StoredBootAction, StoredAction, StoredRequestOpts, StoredSignatureOpts, StoredHmacOpts,
  StoredRpcOptions, StoredProviderOptions, StoredConnection, StoredMachineSpec, StoredMachineStatus,
  StoredJobSpec, StoredStatus, StoredTaskSpec,
}

-- What a pointer points to.
pub data Struct : Type 0 where
  time_at : Struct
  power_action_at : Struct
  boot_action_at : Struct
  media_action_at : Struct
  provider_options_at : Struct
  intel_amt_at : Struct
  ipmitool_at : Struct
  redfish_at : Struct
  rpc_at : Struct
  request_at : Struct
  signature_at : Struct
  hmac_at : Struct
  experimental_at : Struct
  action_at : Struct
  connection_at : Struct
  machine_ref_at : Struct
  machine_spec_at : Struct
  machine_status_at : Struct
  machine_condition_at : Struct
  job_spec_at : Struct
  job_status_at : Struct
  job_condition_at : Struct
  task_spec_at : Struct
  task_status_at : Struct
  task_condition_at : Struct

abbrev pub Pointee : Struct → Type 0
Pointee time_at = Time
Pointee power_action_at = PowerAction
Pointee boot_action_at = StoredBootAction
Pointee media_action_at = VirtualMediaAction
Pointee provider_options_at = StoredProviderOptions
Pointee intel_amt_at = IntelAmtOptions
Pointee ipmitool_at = IpmitoolOptions
Pointee redfish_at = RedfishOptions
Pointee rpc_at = StoredRpcOptions
Pointee request_at = StoredRequestOpts
Pointee signature_at = StoredSignatureOpts
Pointee hmac_at = StoredHmacOpts
Pointee experimental_at = ExperimentalOpts
Pointee action_at = StoredAction
Pointee connection_at = StoredConnection
Pointee machine_ref_at = MachineRef
Pointee machine_spec_at = StoredMachineSpec
Pointee machine_status_at = StoredMachineStatus
Pointee machine_condition_at = MachineCondition
Pointee job_spec_at = StoredJobSpec
Pointee job_status_at = StoredStatus
Pointee job_condition_at = JobCondition
Pointee task_spec_at = StoredTaskSpec
Pointee task_status_at = StoredStatus
Pointee task_condition_at = TaskCondition

-- What an array is of.
pub data Element : Type 0 where
  texts : Element
  references : Element
  actions : Element
  job_conditions : Element
  task_conditions : Element
  machine_conditions : Element

abbrev pub Item : Element → Type 0
Item texts = Text
Item references = SecretReference
Item actions = StoredAction
Item job_conditions = JobCondition
Item task_conditions = TaskCondition
Item machine_conditions = MachineCondition

pub data Kind : Type 0 where
  one : Struct → Kind
  array_of : Element → Kind
  entries : Kind

abbrev pub Cell : Kind → Type 0
Cell (one s) = Pointee s
Cell (array_of e) = List (Item e)
Cell entries = List (Text × Option Slice)

pub record Heap : Type 0 where
  pub next : ℕ
  pub cells : (k : Kind) → ℕ → Cell k

-- The new cell where the kinds are the same, and the old one where they differ.
unfoldable pub fill_one : (s : Struct) → Pointee s → (s' : Struct) → Pointee s' → Pointee s'
fill_one time_at new time_at old = new
fill_one power_action_at new power_action_at old = new
fill_one boot_action_at new boot_action_at old = new
fill_one media_action_at new media_action_at old = new
fill_one provider_options_at new provider_options_at old = new
fill_one intel_amt_at new intel_amt_at old = new
fill_one ipmitool_at new ipmitool_at old = new
fill_one redfish_at new redfish_at old = new
fill_one rpc_at new rpc_at old = new
fill_one request_at new request_at old = new
fill_one signature_at new signature_at old = new
fill_one hmac_at new hmac_at old = new
fill_one experimental_at new experimental_at old = new
fill_one action_at new action_at old = new
fill_one connection_at new connection_at old = new
fill_one machine_ref_at new machine_ref_at old = new
fill_one machine_spec_at new machine_spec_at old = new
fill_one machine_status_at new machine_status_at old = new
fill_one machine_condition_at new machine_condition_at old = new
fill_one job_spec_at new job_spec_at old = new
fill_one job_status_at new job_status_at old = new
fill_one job_condition_at new job_condition_at old = new
fill_one task_spec_at new task_spec_at old = new
fill_one task_status_at new task_status_at old = new
fill_one task_condition_at new task_condition_at old = new
fill_one s new s' old = old

unfoldable pub fill_array :
    (e : Element) → List (Item e) → (e' : Element) → List (Item e') → List (Item e')
fill_array texts new texts old = new
fill_array references new references old = new
fill_array actions new actions old = new
fill_array job_conditions new job_conditions old = new
fill_array task_conditions new task_conditions old = new
fill_array machine_conditions new machine_conditions old = new
fill_array e new e' old = old

unfoldable pub fill : (k : Kind) → Cell k → (k' : Kind) → Cell k' → Cell k'
unfolding fill_one fill_array
fill (one s) new (one s') old = fill_one s new s' old
fill (array_of e) new (array_of e') old = fill_array e new e' old
fill entries new entries old = new
fill k new k' old = old

unfoldable pub write : (k : Kind) → ℕ → Cell k → Heap → Heap
unfolding fill
write k a new h = record h {
  cells = λ k' b. if b == a then fill k new k' (h.cells k' b) else h.cells k' b;
}

-- `new`, or `make`, with what is written into it.
unfoldable pub allocate : (k : Kind) → Cell k → Heap → Heap
unfolding write
allocate k new h = record (write k h.next new h) { next = suc h.next }
