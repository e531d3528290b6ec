-- ===== src/Api/Stored.antt =====
-- The structs of api/v1alpha1 as Go lays them out in memory: a pointer is an address, a slice is the
-- address of its array with a length, a map is the address of its entries, and nil is `none`. What
-- holds no pointer is stored as the value that it is in the other modules.
use rufio.Prelude.{ℕ, Bool, Option}
use rufio.Prelude.Int.{ℤ}
use rufio.Prelude.Text.{Text}
use rufio.Api.Meta.{SecretReference, TypeMeta}
use rufio.Api.Machine.{PowerState}
use rufio.Api.Job.{MachineRef}

-- A slice that begins where its array does; the length of the array is its capacity.
pub record Slice : Type 0 where
  pub array : ℕ
  pub len : ℕ

pub record StoredBootAction : Type 0 where
  pub devices : Option Slice
  pub efi_boot : Bool

pub record StoredAction : Type 0 where
  pub power_action : Option ℕ
  pub one_time_boot_device_action : Option ℕ
  pub virtual_media_action : Option ℕ

pub record StoredRequestOpts : Type 0 where
  pub http_content_type : Text
  pub http_method : Text
  pub static_headers : Option ℕ
  pub timestamp_format : Text
  pub timestamp_header : Text

pub record StoredSignatureOpts : Type 0 where
  pub header_name : Text
  pub append_algo_to_header_disabled : Bool
  pub included_payload_headers : Option Slice

pub record StoredHmacOpts : Type 0 where
  pub prefix_sig_disabled : Bool
  pub secrets : Option ℕ

pub record StoredRpcOptions : Type 0 where
  pub consumer_url : Text
  pub log_notifications_disabled : Bool
  pub request : Option ℕ
  pub signature : Option ℕ
  pub hmac : Option ℕ
  pub experimental : Option ℕ

pub record StoredProviderOptions : Type 0 where
  pub preferred_order : Option Slice
  pub intel_amt : Option ℕ
  pub ipmitool : Option ℕ
  pub redfish : Option ℕ
  pub rpc : Option ℕ

pub record StoredConnection : Type 0 where
  pub host : Text
  pub port : ℤ
  pub auth_secret_ref : SecretReference
  pub insecure_tls : Bool
  pub provider_options : Option ℕ

pub record StoredMachineSpec : Type 0 where
  pub connection : StoredConnection

pub record StoredMachineStatus : Type 0 where
  pub power : PowerState
  pub conditions : Option Slice

pub record StoredJobSpec : Type 0 where
  pub machine_ref : MachineRef
  pub tasks : Option Slice

-- JobStatus and TaskStatus have the same layout.
pub record StoredStatus : Type 0 where
  pub conditions : Option Slice
  pub start_time : Option ℕ
  pub completion_time : Option ℕ

pub record StoredTaskSpec : Type 0 where
  pub task : StoredAction
  pub connection : StoredConnection

-- An object whose metadata is stored as `M`.
pub record StoredMachine (M : Type 0) : Type 0 where
  pub type_meta : TypeMeta
  pub object_meta : M
  pub spec : StoredMachineSpec
  pub status : StoredMachineStatus

pub record StoredJob (M : Type 0) : Type 0 where
  pub type_meta : TypeMeta
  pub object_meta : M
  pub spec : StoredJobSpec
  pub status : StoredStatus

pub record StoredTask (M : Type 0) : Type 0 where
  pub type_meta : TypeMeta
  pub object_meta : M
  pub spec : StoredTaskSpec
  pub status : StoredStatus
