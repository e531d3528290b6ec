-- ===== src/Controller/Client.antt =====
-- controller/client.go: the options of a Machine or Task turned into those of bmclib, and the
-- function that opens a bmclib client.
pub mod Calls
pub mod Options
use rufio.Prelude.{
  ℕ, Bool, false, true, not, Option, none, some, List, [], ◌∷◌, ◌++◌, map, if◌then◌else◌,
}
use rufio.Prelude.Int.{ℤ, pos, eq_ℤ}
use rufio.Prelude.Text.{Text, codes, is_empty}
use rufio.Prelude.Decimal.{itoa}
use rufio.Api.ProviderOpts.{
  RedfishOptions, IpmitoolOptions, IntelAmtOptions, RpcOptions, RequestOpts, SignatureOpts,
  HmacOpts, ExperimentalOpts, ProviderName, ProviderOptions, provider_name_string,
}
use rufio.Controller.Error.{Error, wrapf, Result, ok, err}
use rufio.Controller.Bmc.{
  Secrets, RpcRequestOpts, RpcSignatureOpts, RpcHmacOpts, RpcExperimental, RpcOpts, Provider,
  BmcOption, with_redfish_port, with_redfish_use_basic_auth, with_redfish_system_name,
  with_ipmitool_port, with_ipmitool_cipher_suite, with_intel_amt_port, with_intel_amt_host_scheme,
  with_rpc_opt, with_logger,
}
use rufio.Controller.Env.{Env}
use rufio.Controller.Exec.{Exec, Call, pure, perform_with, ◌>>=◌}

-- `nil` secrets are `none`.
pub record BmcOptions : Type 0 where
  pub provider_options : Option ProviderOptions
  pub rpc_secrets : Option Secrets

-- `len(l) > 0`.
abbrev pub is_filled : {A : Type 0} → List A → Bool
is_filled [] = false
is_filled (x ∷ xs) = true

-- `if c { o = append(o, option) }`.
abbrev pub option_if : Bool → BmcOption → List BmcOption
option_if c o = if c then o ∷ [] else []

unfoldable pub redfish_options : Option RedfishOptions → List BmcOption
unfolding itoa
redfish_options none = []
redfish_options (some r) =
    option_if (not (eq_ℤ r.port (pos 0))) (with_redfish_port (itoa r.port))
    ++ (option_if r.use_basic_auth (with_redfish_use_basic_auth true)
        ++ option_if (not (is_empty r.system_name)) (with_redfish_system_name r.system_name))

unfoldable pub ipmitool_options : Option IpmitoolOptions → List BmcOption
unfolding itoa
ipmitool_options none = []
ipmitool_options (some i) =
    option_if (not (eq_ℤ i.port (pos 0))) (with_ipmitool_port (itoa i.port))
    ++ option_if (not (is_empty i.cipher_suite)) (with_ipmitool_cipher_suite i.cipher_suite)

-- The port when `safecast.ToUint32` fails.
abbrev pub default_intel_amt_port : ℕ
default_intel_amt_port = 16992

abbrev pub or_default : Result ℕ → ℕ
or_default (ok p) = p
or_default (err e) = default_intel_amt_port

unfoldable pub to_request_opts : Option RequestOpts → RpcRequestOpts
to_request_opts none = record {
  http_content_type = [];
  http_method = [];
  static_headers = [];
  timestamp_format = [];
  timestamp_header = [];
}
to_request_opts (some r) = record {
  http_content_type = if not (is_empty r.http_content_type) then r.http_content_type else [];
  http_method = if not (is_empty r.http_method) then r.http_method else [];
  static_headers = if is_filled r.static_headers then r.static_headers else [];
  timestamp_format = if not (is_empty r.timestamp_format) then r.timestamp_format else [];
  timestamp_header = if not (is_empty r.timestamp_header) then r.timestamp_header else [];
}

unfoldable pub to_signature_opts : Option SignatureOpts → RpcSignatureOpts
to_signature_opts none = record {
  header_name = [];
  append_algo_to_header_disabled = false;
  included_payload_headers = [];
}
to_signature_opts (some s) = record {
  header_name = if not (is_empty s.header_name) then s.header_name else [];
  append_algo_to_header_disabled =
      if s.append_algo_to_header_disabled then s.append_algo_to_header_disabled else false;
  included_payload_headers =
      if is_filled s.included_payload_headers then s.included_payload_headers else [];
}

-- The secrets are not taken over here: they are names of Kubernetes secrets.
unfoldable pub to_hmac_opts : Option HmacOpts → RpcHmacOpts
to_hmac_opts none = record { prefix_sig_disabled = false; secrets = [] }
to_hmac_opts (some h) = record {
  prefix_sig_disabled = if h.prefix_sig_disabled then h.prefix_sig_disabled else false;
  secrets = [];
}

unfoldable pub to_experimental_opts : Option ExperimentalOpts → RpcExperimental
to_experimental_opts none = record { custom_request_payload = []; dot_path = [] }
to_experimental_opts (some e) = record {
  custom_request_payload =
      if not (is_empty e.custom_request_payload) then e.custom_request_payload else [];
  dot_path = if not (is_empty e.dot_path) then e.dot_path else [];
}

unfoldable pub to_rpc_opts : Option RpcOptions → RpcOpts
unfolding to_request_opts to_signature_opts to_hmac_opts to_experimental_opts
to_rpc_opts none = record {
  request = to_request_opts none;
  signature = to_signature_opts none;
  hmac = to_hmac_opts none;
  experimental = to_experimental_opts none;
}
to_rpc_opts (some r) = record {
  request = to_request_opts r.request;
  signature = to_signature_opts r.signature;
  hmac = to_hmac_opts r.hmac;
  experimental = to_experimental_opts r.experimental;
}

-- The names of the headers that translateRPC sets.
abbrev pub timestamp_header_name : Text
timestamp_header_name = codes "X-Rufio-Timestamp"

abbrev pub signature_header_name : Text
signature_header_name = codes "X-Rufio-Signature"

-- The `defaults` of translateRPC.
unfoldable pub rpc_defaults : Provider
unfolding to_rpc_opts
rpc_defaults = record {
  consumer_url = [];
  host = [];
  opts = record (to_rpc_opts none) {
    request = record (to_request_opts none) { timestamp_header = timestamp_header_name };
    signature = record (to_signature_opts none) {
      header_name = signature_header_name;
      included_payload_headers = timestamp_header_name ∷ [];
    };
  };
}

abbrev pub secrets_of : Option Secrets → Secrets
secrets_of none = []
secrets_of (some s) = s

-- The provider that translateRPC hands to the merge.
unfoldable pub rpc_configured : Option Secrets → RpcOptions → Text → Provider
unfolding to_rpc_opts
rpc_configured secrets rpc host =
    let s = secrets_of secrets in
    let opts = to_rpc_opts (some rpc) in
    record {
      consumer_url = rpc.consumer_url;
      host = host;
      opts = if is_filled s then record opts { hmac = record opts.hmac { secrets = s } } else opts;
    }

unfoldable pub to_string_slice : List ProviderName → List Text
to_string_slice [] = []
to_string_slice (v ∷ p) = provider_name_string v ∷ to_string_slice p

module _ (env : Env) where
  open env use {World, Bmc}

  unfoldable pub intel_amt_options : Option IntelAmtOptions → List BmcOption
  intel_amt_options none = []
  intel_amt_options (some a) =
      with_intel_amt_port (or_default (env.to_uint32 a.port))
      ∷ with_intel_amt_host_scheme a.host_scheme
      ∷ []

  -- BMCOptions.translateRPC, where the options have an RPC part.
  unfoldable pub translate_rpc : Option Secrets → RpcOptions → Text → Provider
  translate_rpc secrets rpc host = env.merge (rpc_configured secrets rpc host) rpc_defaults

  unfoldable pub rpc_options : Option Secrets → Option RpcOptions → Text → List BmcOption
  rpc_options secrets none host = []
  rpc_options secrets (some rpc) host = with_rpc_opt (translate_rpc secrets rpc host) ∷ []

  unfoldable pub translate : BmcOptions → Text → List BmcOption
  translate b host = elim b.provider_options [
    | none ↦ []
    | some p ↦
        redfish_options p.redfish
        ++ (ipmitool_options p.ipmitool
            ++ (intel_amt_options p.intel_amt ++ rpc_options b.rpc_secrets p.rpc host))
  ]

  -- A nil `*BMCOptions` is `none`.
  abbrev pub ClientFunc : Type 0
  ClientFunc = Text → Text → Text → Option BmcOptions → Exec World Bmc (Result Bmc)

  unfoldable pub translate_all : Option BmcOptions → Text → List BmcOption
  translate_all none host = []
  translate_all (some b) host = translate b host

  unfoldable pub preferred_order : Option BmcOptions → List ProviderName
  preferred_order none = []
  preferred_order (some b) = elim b.provider_options [ none ↦ [] | some p ↦ p.preferred_order ]

  -- The client that NewClientFunc's function makes; its options end with the logger.
  unfoldable pub configured_client : Text → Text → Text → Option BmcOptions → Bmc
  configured_client host_ip username password opts =
      let made =
        env.new_client host_ip username password (translate_all opts host_ip ++ with_logger ∷ []) in
      let order = preferred_order opts in
      if is_filled order then env.prefer_driver (to_string_slice order) made else made

  -- The client is returned if it can be opened in time.
  unfoldable pub open_in_time : ℕ → Bmc → Exec World Bmc (Result Bmc)
  open_in_time timeout client = do
    failed ← perform_with (Call.open_client client) (env.open_client timeout client)
    elim failed [
      | some e ↦ pure (err (wrapf (codes "failed to open connection to BMC: ") e))
      | none ↦ pure (ok client)
    ]

  -- NewClientFunc: the function that it returns.
  unfoldable pub new_client_func : ℕ → ClientFunc
  new_client_func timeout host_ip username password opts =
      open_in_time timeout (configured_client host_ip username password opts)
