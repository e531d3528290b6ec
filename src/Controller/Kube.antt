-- ===== src/Controller/Kube.antt =====
-- controller/kube.go: the credentials in a secret, and the reading of a raw power state.
pub mod Readings
use rufio.Prelude.{Option, none, some, List, [], ◌∷◌, ◌++◌, if◌then◌else◌}
use rufio.Prelude.Text.{Text, codes, text_eq, contains, to_lower}
use rufio.Api.Meta.{NamespacedName, SecretReference}
use rufio.Api.Machine.{PowerState, on, off, unknown}
use rufio.Controller.Error.{Error, errorf, wrapf, Result, ok, err}
use rufio.Controller.Env.{Env}
use rufio.Controller.Exec.{Exec, Call, pure, perform, ◌>>=◌}

-- `m[key]` of a Go map, with whether the key is there.
unfoldable pub lookup : {V : Type 0} → Text → List (Text × V) → Option V
lookup key [] = none
lookup key ((k, v) ∷ m) = if text_eq k key then some v else lookup key m

-- The verb `%s` on a `v1.SecretReference`, a struct with no method `String` on its value.
unfoldable pub secret_reference_string : SecretReference → Text
secret_reference_string ref = codes "{" ++ (ref.name ++ (codes " " ++ (ref.namespace ++ codes "}")))

unfoldable pub credentials : List (Text × Text) → Result (Text × Text)
unfolding lookup
credentials secret = elim (lookup (codes "username") secret) [
  | none ↦ err (errorf (codes "'username' required in Machine secret"))
  | some username ↦ elim (lookup (codes "password") secret) [
    | none ↦ err (errorf (codes "'password' required in Machine secret"))
    | some password ↦ ok (username, password)
  ]
]

module _ (env : Env) where
  open env use {World, Bmc, is_not_found, namespaced_name_string}

  -- `client.Get` of a secret, with the error that both callers in the package make of its failure.
  unfoldable pub get_secret_failed : SecretReference → NamespacedName → Error → Error
  get_secret_failed ref key e =
      if is_not_found e
      then wrapf (codes "secret " ++ (namespaced_name_string key ++ codes " not found: ")) e
      else wrapf
          (codes "failed to retrieve secret " ++ (secret_reference_string ref ++ codes " : ")) e

  unfoldable pub resolve_auth_secret_ref : SecretReference → Exec World Bmc (Result (Text × Text))
  resolve_auth_secret_ref ref = do
    let key : NamespacedName = record { namespace = ref.namespace; name = ref.name }
    found ← perform (Call.get_secret key) (env.get_secret key)
    elim found [
      | err e ↦ pure (err (get_secret_failed ref key e))
      | ok secret ↦ pure (credentials secret)
    ]

unfoldable pub to_power_state : Text → PowerState
unfolding to_lower contains
to_power_state raw =
    let state = to_lower raw in
    if contains state (codes "on")
    then on
    else if contains state (codes "off")
    then off
    else unknown
