-- ===== src/Controller/Bmc.antt =====
-- The types of bmclib that controller/client.go fills in: the options of a client, each as the call
-- `bmclib.With…` that makes it, and the configuration of the rpc provider.
use rufio.Prelude.{ℕ, Bool, List}
use rufio.Prelude.Text.{Text}
use rufio.Api.ProviderOpts.{Header}

-- `map[rpc.Algorithm][]string`.
abbrev pub Secrets : Type 0
Secrets = List (Text × List Text)

pub record RpcRequestOpts : Type 0 where
  pub http_content_type : Text
  pub http_method : Text
  pub static_headers : Header
  pub timestamp_format : Text
  pub timestamp_header : Text

pub record RpcSignatureOpts : Type 0 where
  pub header_name : Text
  pub append_algo_to_header_disabled : Bool
  pub included_payload_headers : List Text

pub record RpcHmacOpts : Type 0 where
  pub prefix_sig_disabled : Bool
  pub secrets : Secrets

pub record RpcExperimental : Type 0 where
  pub custom_request_payload : Text
  pub dot_path : Text

pub record RpcOpts : Type 0 where
  pub request : RpcRequestOpts
  pub signature : RpcSignatureOpts
  pub hmac : RpcHmacOpts
  pub experimental : RpcExperimental

pub record Provider : Type 0 where
  pub consumer_url : Text
  pub host : Text
  pub opts : RpcOpts

pub data BmcOption : Type 0 where
  with_redfish_port : Text → BmcOption
  with_redfish_use_basic_auth : Bool → BmcOption
  with_redfish_system_name : Text → BmcOption
  with_ipmitool_port : Text → BmcOption
  with_ipmitool_cipher_suite : Text → BmcOption
  with_intel_amt_port : ℕ → BmcOption
  with_intel_amt_host_scheme : Text → BmcOption
  with_rpc_opt : Provider → BmcOption
  with_logger : BmcOption
