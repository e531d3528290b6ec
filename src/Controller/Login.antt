-- ===== src/Controller/Login.antt =====
-- What doReconcile of controller/task.go and of controller/machine.go begin with: the secrets of a
-- connection, and the options of its bmclib client.
pub mod Calls
pub mod Retrieved
use rufio.Prelude.{Bool, Option, none, some, List, [], ◌∷◌, ◌++◌, if◌then◌else◌}
use rufio.Prelude.Text.{Text, codes, text_eq}
use rufio.Api.Meta.{NamespacedName, SecretReference}
use rufio.Api.ProviderOpts.{
  HmacAlgorithm, HmacSecrets, HmacOpts, RpcOptions, ProviderOptions, Connection,
}
use rufio.Controller.Error.{Error, wrapf, Result, ok, err}
use rufio.Controller.Bmc.{Secrets}
use rufio.Controller.Env.{Env}
use rufio.Controller.Exec.{Exec, Call, pure, perform, ◌>>=◌}
use rufio.Controller.Kube.{lookup, get_secret_failed, resolve_auth_secret_ref}
use rufio.Controller.Client.{BmcOptions}

-- `sec[k] = append(sec[k], v)`.
unfoldable pub append_secret : Text → Text → Secrets → Secrets
append_secret k v [] = (k, v ∷ []) ∷ []
append_secret k v ((j, vs) ∷ sec) =
    if text_eq j k then (j, vs ++ v ∷ []) ∷ sec else (j, vs) ∷ append_secret k v sec

-- `string(secret.Data["secret"])`: empty where the key is missing.
unfoldable pub secret_value : List (Text × Text) → Text
unfolding lookup
secret_value secret = elim (lookup (codes "secret") secret) [ none ↦ [] | some v ↦ v ]

-- The RPC part of a connection's options.
abbrev pub rpc_of : Option ProviderOptions → Option RpcOptions
rpc_of none = none
rpc_of (some p) = p.rpc

-- The secrets of the HMAC part of RPC options; none are the empty map.
abbrev pub hmac_secrets_of : Option HmacOpts → HmacSecrets
hmac_secrets_of none = []
hmac_secrets_of (some h) = h.secrets

module _ (env : Env) where
  open env use {World, Bmc}

  -- The inner loop of retrieveHMACSecrets.
  unfoldable pub retrieve_algorithm :
      HmacAlgorithm → List SecretReference → Secrets → Exec World Bmc (Result Secrets)
  retrieve_algorithm k [] sec = pure (ok sec)
  retrieve_algorithm k (s ∷ v) sec = do
    let key : NamespacedName = record { namespace = s.namespace; name = s.name }
    found ← perform (Call.get_secret key) (env.get_secret key)
    elim found [
      | err e ↦ pure (err (get_secret_failed env s key e))
      | ok secret ↦ retrieve_algorithm k v (append_secret k (secret_value secret) sec)
    ]

  unfoldable pub retrieve_from : HmacSecrets → Secrets → Exec World Bmc (Result Secrets)
  retrieve_from [] sec = pure (ok sec)
  retrieve_from ((k, v) ∷ hmac_secrets) sec = do
    retrieved ← retrieve_algorithm k v sec
    elim retrieved [ err e ↦ pure (err e) | ok sec' ↦ retrieve_from hmac_secrets sec' ]

  unfoldable pub retrieve_hmac_secrets : HmacSecrets → Exec World Bmc (Result Secrets)
  retrieve_hmac_secrets hmac_secrets = retrieve_from hmac_secrets []

  -- The options with the secrets of the RPC part, where it names any; no credentials are read.
  unfoldable pub login_hmac :
      Connection → HmacSecrets → Exec World Bmc (Result (Text × Text × BmcOptions))
  login_hmac conn [] =
      pure (ok ([], [], record { provider_options = conn.provider_options; rpc_secrets = none }))
  login_hmac conn (entry ∷ entries) = do
    retrieved ← retrieve_hmac_secrets (entry ∷ entries)
    elim retrieved [
      | err e ↦ pure (err (wrapf (codes "unable to get hmac secrets: ") e))
      | ok se ↦
          pure (
            ok ([], [], record { provider_options = conn.provider_options; rpc_secrets = some se }))
    ]

  -- The options with the credentials of the secret that the connection names.
  unfoldable pub login_secret :
      (Error → Error) → Connection → Exec World Bmc (Result (Text × Text × BmcOptions))
  login_secret failed conn = do
    resolved ← resolve_auth_secret_ref env conn.auth_secret_ref
    elim resolved [
      | err e ↦ pure (err (failed e))
      | ok (username, password) ↦ pure (
          ok (
            username,
            password,
            record { provider_options = conn.provider_options; rpc_secrets = none },
          ))
    ]

  unfoldable pub login_by :
      (Error → Error)
      → Connection
      → Option RpcOptions
      → Exec World Bmc (Result (Text × Text × BmcOptions))
  login_by failed conn (some rpc) = login_hmac conn (hmac_secrets_of rpc.hmac)
  login_by failed conn none = login_secret failed conn

  -- Username, password and options; `failed` is what the caller makes of an error of the secret.
  unfoldable pub login :
      (Error → Error) → Connection → Exec World Bmc (Result (Text × Text × BmcOptions))
  login failed conn = login_by failed conn (rpc_of conn.provider_options)
