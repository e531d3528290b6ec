-- ===== src/Api/DeepCopy/Laws.antt =====
-- The generated copies of zz_generated.deepcopy.go as copiers.
use rufio.Api.Memory.{
  power_action_at, boot_action_at, media_action_at, provider_options_at, intel_amt_at, ipmitool_at,
  redfish_at, rpc_at, request_at, signature_at, hmac_at, experimental_at, texts, references,
  actions, machine_conditions,
}
use rufio.Api.Memory.Extends.{IsCopier, begin, and_then, both, fixed}
use rufio.Api.Memory.Copiers.{
  copy_value-IsCopier, copy_pointer-IsCopier, copy_slice-IsCopier, copy_map-IsCopier,
}
use rufio.Api.DeepCopy.{
  deep_copy_boot_action, deep_copy_action, deep_copy_request_opts, deep_copy_signature_opts,
  deep_copy_hmac_opts, deep_copy_rpc_options, deep_copy_provider_options, deep_copy_connection,
  deep_copy_machine_spec, deep_copy_machine_status, deep_copy_job_spec, deep_copy_task_spec,
}
use rufio.Api.DeepCopy.Represents.{
  IsBootAction, IsAction, IsRequestOpts, IsSignatureOpts, IsHmacOpts, IsRpcOptions,
  IsProviderOptions, IsConnection, IsMachineSpec, IsMachineStatus, IsJobSpec, IsTaskSpec,
}

pub deep_copy_boot_action-IsCopier : IsCopier IsBootAction deep_copy_boot_action
unfolding deep_copy_boot_action
deep_copy_boot_action-IsCopier =
    let c0 = copy_slice-IsCopier texts copy_value-IsCopier in
    record {
      stable = λ x v. both fixed (c0.stable x.devices v.devices);
      deep = λ h x v r. and_then c0 (fixed) (begin r.0) r.1;
    }

pub deep_copy_action-IsCopier : IsCopier IsAction deep_copy_action
unfolding deep_copy_action
deep_copy_action-IsCopier =
    let c0 = copy_pointer-IsCopier power_action_at copy_value-IsCopier in
    let c1 = copy_pointer-IsCopier boot_action_at deep_copy_boot_action-IsCopier in
    let c2 = copy_pointer-IsCopier media_action_at copy_value-IsCopier in
    record {
      stable = λ x v.
          both
            (both (c0.stable x.power_action v.power_action)
              (c1.stable x.one_time_boot_device_action v.one_time_boot_device_action))
            (c2.stable x.virtual_media_action v.virtual_media_action);
      deep = λ h x v r.
          and_then c2
            (both (c0.stable _ v.power_action) (c1.stable _ v.one_time_boot_device_action))
            (and_then c1 (c0.stable _ v.power_action)
              (c0.deep h x.power_action v.power_action r.0.0) r.0.1)
            r.1;
    }

pub deep_copy_request_opts-IsCopier : IsCopier IsRequestOpts deep_copy_request_opts
unfolding deep_copy_request_opts
deep_copy_request_opts-IsCopier =
    let c0 = copy_map-IsCopier texts in
    record {
      stable = λ x v. both fixed (c0.stable x.static_headers v.static_headers);
      deep = λ h x v r. and_then c0 (fixed) (begin r.0) r.1;
    }

pub deep_copy_signature_opts-IsCopier : IsCopier IsSignatureOpts deep_copy_signature_opts
unfolding deep_copy_signature_opts
deep_copy_signature_opts-IsCopier =
    let c0 = copy_slice-IsCopier texts copy_value-IsCopier in
    record {
      stable = λ x v. both fixed (c0.stable x.included_payload_headers v.included_payload_headers);
      deep = λ h x v r. and_then c0 (fixed) (begin r.0) r.1;
    }

pub deep_copy_hmac_opts-IsCopier : IsCopier IsHmacOpts deep_copy_hmac_opts
unfolding deep_copy_hmac_opts
deep_copy_hmac_opts-IsCopier =
    let c0 = copy_map-IsCopier references in
    record {
      stable = λ x v. both fixed (c0.stable x.secrets v.secrets);
      deep = λ h x v r. and_then c0 (fixed) (begin r.0) r.1;
    }

pub deep_copy_rpc_options-IsCopier : IsCopier IsRpcOptions deep_copy_rpc_options
unfolding deep_copy_rpc_options
deep_copy_rpc_options-IsCopier =
    let c0 = copy_pointer-IsCopier request_at deep_copy_request_opts-IsCopier in
    let c1 = copy_pointer-IsCopier signature_at deep_copy_signature_opts-IsCopier in
    let c2 = copy_pointer-IsCopier hmac_at deep_copy_hmac_opts-IsCopier in
    let c3 = copy_pointer-IsCopier experimental_at copy_value-IsCopier in
    record {
      stable = λ x v.
          both
            (both
              (both (both fixed (c0.stable x.request v.request))
                (c1.stable x.signature v.signature))
              (c2.stable x.hmac v.hmac))
            (c3.stable x.experimental v.experimental);
      deep = λ h x v r.
          and_then c3
            (both (both (both fixed (c0.stable _ v.request)) (c1.stable _ v.signature))
              (c2.stable _ v.hmac))
            (and_then c2 (both (both fixed (c0.stable _ v.request)) (c1.stable _ v.signature))
              (and_then c1 (both fixed (c0.stable _ v.request))
                (and_then c0 (fixed) (begin r.0.0.0.0) r.0.0.0.1) r.0.0.1)
              r.0.1)
            r.1;
    }

pub deep_copy_provider_options-IsCopier : IsCopier IsProviderOptions deep_copy_provider_options
unfolding deep_copy_provider_options
deep_copy_provider_options-IsCopier =
    let c0 = copy_slice-IsCopier texts copy_value-IsCopier in
    let c1 = copy_pointer-IsCopier intel_amt_at copy_value-IsCopier in
    let c2 = copy_pointer-IsCopier ipmitool_at copy_value-IsCopier in
    let c3 = copy_pointer-IsCopier redfish_at copy_value-IsCopier in
    let c4 = copy_pointer-IsCopier rpc_at deep_copy_rpc_options-IsCopier in
    record {
      stable = λ x v.
          both
            (both
              (both
                (both (c0.stable x.preferred_order v.preferred_order)
                  (c1.stable x.intel_amt v.intel_amt))
                (c2.stable x.ipmitool v.ipmitool))
              (c3.stable x.redfish v.redfish))
            (c4.stable x.rpc v.rpc);
      deep = λ h x v r.
          and_then c4
            (both
              (both (both (c0.stable _ v.preferred_order) (c1.stable _ v.intel_amt))
                (c2.stable _ v.ipmitool))
              (c3.stable _ v.redfish))
            (and_then c3
              (both (both (c0.stable _ v.preferred_order) (c1.stable _ v.intel_amt))
                (c2.stable _ v.ipmitool))
              (and_then c2 (both (c0.stable _ v.preferred_order) (c1.stable _ v.intel_amt))
                (and_then c1 (c0.stable _ v.preferred_order)
                  (c0.deep h x.preferred_order v.preferred_order r.0.0.0.0) r.0.0.0.1)
                r.0.0.1)
              r.0.1)
            r.1;
    }

pub deep_copy_connection-IsCopier : IsCopier IsConnection deep_copy_connection
unfolding deep_copy_connection
deep_copy_connection-IsCopier =
    let c0 = copy_pointer-IsCopier provider_options_at deep_copy_provider_options-IsCopier in
    record {
      stable = λ x v. both fixed (c0.stable x.provider_options v.provider_options);
      deep = λ h x v r. and_then c0 (fixed) (begin r.0) r.1;
    }

pub deep_copy_machine_spec-IsCopier : IsCopier IsMachineSpec deep_copy_machine_spec
unfolding deep_copy_machine_spec
deep_copy_machine_spec-IsCopier =
    let c0 = deep_copy_connection-IsCopier in
    record {
      stable = λ x v. c0.stable x.connection v.connection;
      deep = λ h x v r. c0.deep h x.connection v.connection r;
    }

pub deep_copy_machine_status-IsCopier : IsCopier IsMachineStatus deep_copy_machine_status
unfolding deep_copy_machine_status
deep_copy_machine_status-IsCopier =
    let c0 = copy_slice-IsCopier machine_conditions copy_value-IsCopier in
    record {
      stable = λ x v. both fixed (c0.stable x.conditions v.conditions);
      deep = λ h x v r. and_then c0 (fixed) (begin r.0) r.1;
    }

pub deep_copy_job_spec-IsCopier : IsCopier IsJobSpec deep_copy_job_spec
unfolding deep_copy_job_spec
deep_copy_job_spec-IsCopier =
    let c0 = copy_slice-IsCopier actions deep_copy_action-IsCopier in
    record {
      stable = λ x v. both fixed (c0.stable x.tasks v.tasks);
      deep = λ h x v r. and_then c0 (fixed) (begin r.0) r.1;
    }

pub deep_copy_task_spec-IsCopier : IsCopier IsTaskSpec deep_copy_task_spec
unfolding deep_copy_task_spec
deep_copy_task_spec-IsCopier =
    let c0 = deep_copy_action-IsCopier in
    let c1 = deep_copy_connection-IsCopier in
    record {
      stable = λ x v. both (c0.stable x.task v.task) (c1.stable x.connection v.connection);
      deep = λ h x v r. and_then c1 (c0.stable _ v.task) (c0.deep h x.task v.task r.0) r.1;
    }
