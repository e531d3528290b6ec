-- ===== src/Api/ProviderOpts.antt =====
-- api/v1alpha1/provider_opts.go, and the types ProviderName, ProviderOptions and Connection of
-- api/v1alpha1/machine.go. A pointer is an Option; a Go map is the list of its entries in the order
-- in which an iteration meets them.
use rufio.Prelude.{Bool, Option, List}
use rufio.Prelude.Int.{ℤ}
use rufio.Prelude.Text.{Text}
use rufio.Api.Meta.{SecretReference}

pub record RedfishOptions : Type 0 where
  pub port : ℤ
  pub use_basic_auth : Bool
  pub system_name : Text

pub record IpmitoolOptions : Type 0 where
  pub port : ℤ
  pub cipher_suite : Text

pub record IntelAmtOptions : Type 0 where
  pub port : ℤ
  pub host_scheme : Text

abbrev pub HmacAlgorithm : Type 0
HmacAlgorithm = Text

abbrev pub HmacSecrets : Type 0
HmacSecrets = List (HmacAlgorithm × List SecretReference)

-- `http.Header`.
abbrev pub Header : Type 0
Header = List (Text × List Text)

pub record RequestOpts : Type 0 where
  pub http_content_type : Text
  pub http_method : Text
  pub static_headers : Header
  pub timestamp_format : Text
  pub timestamp_header : Text

pub record SignatureOpts : Type 0 where
  pub header_name : Text
  pub append_algo_to_header_disabled : Bool
  pub included_payload_headers : List Text

pub record HmacOpts : Type 0 where
  pub prefix_sig_disabled : Bool
  pub secrets : HmacSecrets

pub record ExperimentalOpts : Type 0 where
  pub custom_request_payload : Text
  pub dot_path : Text

pub record RpcOptions : Type 0 where
  pub consumer_url : Text
  pub log_notifications_disabled : Bool
  pub request : Option RequestOpts
  pub signature : Option SignatureOpts
  pub hmac : Option HmacOpts
  pub experimental : Option ExperimentalOpts

abbrev pub ProviderName : Type 0
ProviderName = Text

-- `ProviderName.String`.
abbrev pub provider_name_string : ProviderName → Text
provider_name_string p = p

pub record ProviderOptions : Type 0 where
  pub preferred_order : List ProviderName
  pub intel_amt : Option IntelAmtOptions
  pub ipmitool : Option IpmitoolOptions
  pub redfish : Option RedfishOptions
  pub rpc : Option RpcOptions

pub record Connection : Type 0 where
  pub host : Text
  pub port : ℤ
  pub auth_secret_ref : SecretReference
  pub insecure_tls : Bool
  pub provider_options : Option ProviderOptions
