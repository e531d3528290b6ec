-- ===== src/Examples/Options.antt =====
-- The options of a bmclib client, at the connection options of Examples/Objects.antt.
use rufio.Prelude.{◌≡◌, ◌≤◌, ◌↔◌, refl, some, List, [], ◌∷◌}
use rufio.Prelude.Int.{max_uint32}
use rufio.Prelude.Text.{Text, codes, to_lower}
use rufio.Prelude.Text.Occurs.{Occurs}
use rufio.Api.Machine.{on, off, unknown}
use rufio.Controller.Error.{ok}
use rufio.Controller.Bmc.{Secrets, with_intel_amt_port, with_intel_amt_host_scheme}
use rufio.Controller.Env.{Env}
use rufio.Controller.Exec.{State, done}
use rufio.Controller.Kube.{to_power_state}
use rufio.Controller.Kube.Readings.{to_power_state_iff}
use rufio.Controller.Client.{
  intel_amt_options, translate_rpc, timestamp_header_name, signature_header_name,
}
use rufio.Controller.Client.Options.{
  port_or_default, intel_amt_options-port, translate_rpc-overrides,
}
use rufio.Controller.Login.{retrieve_hmac_secrets}
use rufio.Controller.Login.Retrieved.{secrets_for, values_for, retrieve_hmac_secrets_lem}
use rufio.Examples.Objects.{machine, running_job, started_task, hmac_secrets, rpc, intel_amt}
use rufio.Examples.Cluster.{Cluster, env, state, to_uint32-IsToUint32, merge-IsOverride}

abbrev lab_secret : List (Text × Text)
lab_secret = (codes "secret", codes "s3cr3t") ∷ []

abbrev lab : State Cluster Text
lab = state (record {
  machine = machine;
  job = running_job;
  task = started_task;
  tasks = [];
  secret = lab_secret;
  clock = 200;
  power = codes "Off";
})

-- A cluster whose secrets all hold the same data.
abbrev lab_env : Env
lab_env = record env { get_secret = λ k w. (ok lab_secret, w) }

abbrev rpc_secrets : Secrets
rpc_secrets = (codes "sha256", codes "s3cr3t" ∷ []) ∷ []

intel_amt_options-port_example :
    (intel_amt_options env (some intel_amt)
      ≡ with_intel_amt_port (port_or_default intel_amt.port)
        ∷ with_intel_amt_host_scheme intel_amt.host_scheme
        ∷ [])
    × (port_or_default intel_amt.port ≤ max_uint32)
intel_amt_options-port_example = intel_amt_options-port env intel_amt to_uint32-IsToUint32

translate_rpc-overrides_example :
    let p = translate_rpc env (some rpc_secrets) rpc (codes "10.0.0.7") in
    (p.opts.request.timestamp_header ≡ timestamp_header_name)
    × (p.opts.signature.header_name ≡ signature_header_name)
    × (p.opts.signature.included_payload_headers ≡ timestamp_header_name ∷ [])
    × (p.consumer_url ≡ rpc.consumer_url)
    × (p.host ≡ codes "10.0.0.7")
    × (p.opts.hmac.secrets ≡ rpc_secrets)
translate_rpc-overrides_example =
    translate_rpc-overrides env (some rpc_secrets) rpc (codes "10.0.0.7") merge-IsOverride

retrieve_hmac_secrets_lem_example :
    (sec : Secrets) × ((retrieve_hmac_secrets lab_env hmac_secrets lab).0 ≡ done (ok sec))
    × ((k : Text) → secrets_for k sec ≡ values_for (λ r. lab_secret) k hmac_secrets)
retrieve_hmac_secrets_lem_example =
    retrieve_hmac_secrets_lem (λ r. lab_secret) lab_env (λ k w. refl) hmac_secrets lab

to_power_state_iff_example :
    let raw = codes "On" in
    ((to_power_state raw ≡ on) ↔ Occurs (codes "on") (to_lower raw))
    × ((to_power_state raw ≡ off)
        ↔ (Occurs (codes "off") (to_lower raw) × (¬ Occurs (codes "on") (to_lower raw))))
    × ((to_power_state raw ≡ unknown)
        ↔ ((¬ Occurs (codes "off") (to_lower raw)) × (¬ Occurs (codes "on") (to_lower raw))))
to_power_state_iff_example = to_power_state_iff (codes "On")
