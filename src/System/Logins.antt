-- ===== src/System/Logins.antt =====
-- The login that every reconciliation of a Task or a Machine begins with: it returns, and leaves the
-- view as it is; it succeeds where the secrets can be read and hold credentials.
use rufio.Prelude.{refl, Bool, true, false, Option, none, some, List, [], ◌∷◌}
use rufio.Prelude.Text.{Text}
use rufio.Api.Meta.{NamespacedName, SecretReference}
use rufio.Api.ProviderOpts.{HmacSecrets, Connection, RpcOptions}
use rufio.Controller.Error.{Error, Result, ok, err}
use rufio.Controller.Bmc.{Secrets}
use rufio.Controller.Env.{Env}
use rufio.Controller.Exec.{Call, perform}
use rufio.Controller.Kube.{credentials, resolve_auth_secret_ref}
use rufio.Controller.Login.{
  retrieve_algorithm, retrieve_from, retrieve_hmac_secrets, login_hmac, login_secret, login_by,
  login,
}
use rufio.System.Tasks.Gives.{GivesSame, Gives-pure, Gives-bind}

-- Where `strict`, there is no error.
abbrev pub MayFail : (strict : Bool) → Type 0
MayFail true = ⊥
MayFail false = Unit

abbrev pub Allowed : {A : Type 0} → (strict : Bool) → Result A → Type 0
Allowed strict (ok a) = Unit
Allowed strict (err e) = MayFail strict

abbrev pub Readable : (strict : Bool) → Result (List (Text × Text)) → Type 0
Readable strict (ok d) = Allowed strict (credentials d)
Readable strict (err e) = MayFail strict

module _ (env : Env) {V : Type 0} (view : env.World → V) (v : V) (strict : Bool)
    (hs : (k : NamespacedName)
      → GivesSame {B = env.Bmc} view v
          (Readable strict)
          (perform (Call.get_secret k) (env.get_secret k))) where
  retrieve_algorithm-Gives :
      (k : Text) (l : List SecretReference) (sec : Secrets)
      → GivesSame view v (Allowed strict) (retrieve_algorithm env k l sec)
  unfolding retrieve_algorithm
  retrieve_algorithm-Gives k [] sec = Gives-pure view _ (tt, refl)
  retrieve_algorithm-Gives k (r ∷ l) sec =
      let key : NamespacedName = record { namespace = r.namespace; name = r.name } in
      Gives-bind view {P = Readable strict} _ _ (hs key) (elim [
        | ok secret ↦ λ g. retrieve_algorithm-Gives k l _
        | err e ↦ λ g. Gives-pure view _ (g, refl)
      ])

  retrieve_from-Gives :
      (l : HmacSecrets) (sec : Secrets)
      → GivesSame view v (Allowed strict) (retrieve_from env l sec)
  unfolding retrieve_from
  retrieve_from-Gives [] sec = Gives-pure view _ (tt, refl)
  retrieve_from-Gives ((k, r) ∷ l) sec =
      Gives-bind view {P = Allowed strict} _ _ (retrieve_algorithm-Gives k r sec) (elim [
        | ok sec' ↦ λ g. retrieve_from-Gives l sec'
        | err e ↦ λ g. Gives-pure view _ (g, refl)
      ])

  login_hmac-Gives :
      (conn : Connection) (l : HmacSecrets)
      → GivesSame view v (Allowed strict) (login_hmac env conn l)
  unfolding login_hmac retrieve_hmac_secrets
  login_hmac-Gives conn [] = Gives-pure view _ (tt, refl)
  login_hmac-Gives conn (x ∷ l) =
      Gives-bind view {P = Allowed strict} _ _ (retrieve_from-Gives (x ∷ l) []) (elim [
        | ok se ↦ λ g. Gives-pure view _ (tt, refl)
        | err e ↦ λ g. Gives-pure view _ (g, refl)
      ])

  resolve-Gives :
      (ref : SecretReference) → GivesSame view v (Allowed strict) (resolve_auth_secret_ref env ref)
  unfolding resolve_auth_secret_ref
  resolve-Gives ref =
      let key : NamespacedName = record { namespace = ref.namespace; name = ref.name } in
      Gives-bind view {P = Readable strict} _ _ (hs key) (elim [
        | ok secret ↦ λ g. Gives-pure view _ (g, refl)
        | err e ↦ λ g. Gives-pure view _ (g, refl)
      ])

  login_by-Gives :
      (failed : Error → Error) (conn : Connection) (rpc : Option RpcOptions)
      → GivesSame view v (Allowed strict) (login_by env failed conn rpc)
  unfolding login_by login_secret
  login_by-Gives failed conn none =
      Gives-bind view {P = Allowed strict} _ _ (resolve-Gives conn.auth_secret_ref) (elim [
        | ok (u, w) ↦ λ g. Gives-pure view _ (tt, refl)
        | err e ↦ λ g. Gives-pure view _ (g, refl)
      ])
  login_by-Gives failed conn (some rpc) = login_hmac-Gives conn _

  pub login-Gives :
      (failed : Error → Error) (conn : Connection)
      → GivesSame view v (Allowed strict) (login env failed conn)
  unfolding login
  login-Gives failed conn = login_by-Gives failed conn _
