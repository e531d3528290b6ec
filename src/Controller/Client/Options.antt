-- ===== src/Controller/Client/Options.antt =====
-- The options that a bmclib client is made with.
use rufio.Prelude.{
  ℕ, ◌≡◌, ◌≤◌, ◌<◌, refl, ◌∙◌, Option, none, some, List, [], ◌∷◌, arith, leb, if◌then◌else◌,
  Bool-cases, inl, inr,
}
use rufio.Prelude.Int.{ℤ, pos, negsuc, max_uint32}
use rufio.Prelude.Text.{Text}
use rufio.Api.ProviderOpts.{HmacOpts, RpcOptions, IntelAmtOptions}
use rufio.Controller.Error.{Error, Result, ok, err}
use rufio.Controller.Bmc.{Secrets, Provider, with_intel_amt_port, with_intel_amt_host_scheme}
use rufio.Controller.Env.{Env}
use rufio.Controller.Client.{
  default_intel_amt_port, timestamp_header_name, signature_header_name, rpc_configured,
  rpc_defaults, translate_rpc, secrets_of, intel_amt_options, to_hmac_opts, to_rpc_opts, or_default,
}

-- What safecast documents of ToUint32: the value where it is in range, and an error elsewhere.
pub record IsToUint32 (to_uint32 : ℤ → Result ℕ) : Type 0 where
  pub in_range : (n : ℕ) → n ≤ max_uint32 → to_uint32 (pos n) ≡ ok n
  pub too_large : (n : ℕ) → max_uint32 < n → (e : Error) × (to_uint32 (pos n) ≡ err e)
  pub negative : (n : ℕ) → (e : Error) × (to_uint32 (negsuc n) ≡ err e)

-- The port that the options ask for, if it is a uint32, and the default otherwise.
abbrev pub port_or_default : ℤ → ℕ
port_or_default (pos n) = if leb n max_uint32 then n else default_intel_amt_port
port_or_default (negsuc n) = default_intel_amt_port

-- What mergo documents of a merge with override, for the fields that translateRPC is about: a field
-- of the destination is overridden by that of the source where the source's is not empty, and is
-- kept where it is.
abbrev pub override : {A : Type 0} → List A → List A → List A
override dst [] = dst
override dst (x ∷ src) = x ∷ src

pub record IsOverride (merge : Provider → Provider → Provider) : Type 0 where
  pub consumer_url :
      (d s : Provider) → (merge d s).consumer_url ≡ override d.consumer_url s.consumer_url
  pub host : (d s : Provider) → (merge d s).host ≡ override d.host s.host
  pub timestamp_header :
      (d s : Provider)
      → (merge d s).opts.request.timestamp_header
        ≡ override d.opts.request.timestamp_header s.opts.request.timestamp_header
  pub header_name :
      (d s : Provider)
      → (merge d s).opts.signature.header_name
        ≡ override d.opts.signature.header_name s.opts.signature.header_name
  pub included_payload_headers :
      (d s : Provider)
      → (merge d s).opts.signature.included_payload_headers
        ≡ override d.opts.signature.included_payload_headers
            s.opts.signature.included_payload_headers
  pub secrets :
      (d s : Provider)
      → (merge d s).opts.hmac.secrets ≡ override d.opts.hmac.secrets s.opts.hmac.secrets

secrets-to_hmac_opts : (h : Option HmacOpts) → (to_hmac_opts h).secrets ≡ []
unfolding to_hmac_opts
secrets-to_hmac_opts none = refl
secrets-to_hmac_opts (some h) = refl

secrets-rpc_configured :
    (secrets : Option Secrets) (rpc : RpcOptions) (host : Text)
    → (rpc_configured secrets rpc host).opts.hmac.secrets ≡ secrets_of secrets
unfolding rpc_configured to_rpc_opts to_hmac_opts
secrets-rpc_configured none rpc host = secrets-to_hmac_opts rpc.hmac
secrets-rpc_configured (some []) rpc host = secrets-to_hmac_opts rpc.hmac
secrets-rpc_configured (some (x ∷ s)) rpc host = refl

or_default-port :
    (to_uint32 : ℤ → Result ℕ) (p : ℤ)
    → IsToUint32 to_uint32
    → (or_default (to_uint32 p) ≡ port_or_default p) × (port_or_default p ≤ max_uint32)
or_default-port f (negsuc n) h = let (e, q) = h.negative n in (rw q, omega arith)
or_default-port f (pos n) h = elim (Bool-cases (leb n max_uint32)) [
  | inl e ↦ rw (e, h.in_range n (ground arith)) (refl, ground arith)
  | inr e ↦ let (x, q) = h.too_large n (ground arith) in rw (e, q) (refl, omega arith)
]

module _ (env : Env) where
  -- The port that the Intel AMT provider is given is the one of the options where that is a uint32,
  -- and 16992 where it is negative or too large; so it is a uint32 in any case. safecast's ToUint32
  -- is taken as documented.
  pub intel_amt_options-port :
      (a : IntelAmtOptions)
      → IsToUint32 env.to_uint32
      → (intel_amt_options env (some a)
          ≡ with_intel_amt_port (port_or_default a.port)
            ∷ with_intel_amt_host_scheme a.host_scheme
            ∷ [])
        × (port_or_default a.port ≤ max_uint32)
  unfolding intel_amt_options
  intel_amt_options-port a h = let (e, b) = or_default-port env.to_uint32 a.port h in (rw e, b)

  -- With mergo's override as documented, the rpc provider signs with the headers X-Rufio-Signature
  -- and X-Rufio-Timestamp, whatever header names the options ask for; the consumer's URL, the host
  -- and the secrets are those of the options.
  pub translate_rpc-overrides :
      (secrets : Option Secrets) (rpc : RpcOptions) (host : Text)
      → IsOverride env.merge
      → let p = translate_rpc env secrets rpc host in
        (p.opts.request.timestamp_header ≡ timestamp_header_name)
        × (p.opts.signature.header_name ≡ signature_header_name)
        × (p.opts.signature.included_payload_headers ≡ timestamp_header_name ∷ [])
        × (p.consumer_url ≡ rpc.consumer_url)
        × (p.host ≡ host)
        × (p.opts.hmac.secrets ≡ secrets_of secrets)
  unfolding translate_rpc
  translate_rpc-overrides secrets rpc host h =
      let d = rpc_configured secrets rpc host in
      (
        unfold rpc_defaults in h.timestamp_header d rpc_defaults,
        unfold rpc_defaults in h.header_name d rpc_defaults,
        unfold rpc_defaults in h.included_payload_headers d rpc_defaults,
        unfold rpc_defaults rpc_configured in h.consumer_url d rpc_defaults,
        unfold rpc_defaults rpc_configured in h.host d rpc_defaults,
        unfold rpc_defaults in (h.secrets d rpc_defaults ∙ secrets-rpc_configured secrets rpc host),
      )
