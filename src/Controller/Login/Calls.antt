-- ===== src/Controller/Login/Calls.antt =====
-- The calls that a login makes: it reads secrets and does nothing else.
use rufio.Prelude.{◌≡◌, Bool, false, List, [], ◌∷◌, Option, none, some}
use rufio.Prelude.Text.{Text}
use rufio.Api.Meta.{NamespacedName, SecretReference}
use rufio.Api.ProviderOpts.{HmacSecrets, Connection, RpcOptions}
use rufio.Controller.Error.{Error, ok, err}
use rufio.Controller.Bmc.{Secrets}
use rufio.Controller.Env.{Env}
use rufio.Controller.Exec.{Call, State, perform}
use rufio.Controller.Exec.Keeps.{Quiet, Quiet-perform_with}
use rufio.Controller.Exec.Always.{
  IsPreorder, Always, Always-pure, Always-bind, SameCalls-IsPreorder, Always-Quiet, Quiet-Always,
}
use rufio.Controller.Kube.{resolve_auth_secret_ref}
use rufio.Controller.Login.{
  retrieve_algorithm, retrieve_from, retrieve_hmac_secrets, login_hmac, login_secret, login_by,
  login,
}

module _ (env : Env) {R : State env.World env.Bmc → State env.World env.Bmc → Type 0}
    (pre : IsPreorder R)
    (h : (k : NamespacedName) → Always R (perform (Call.get_secret k) (env.get_secret k))) where
  retrieve_algorithm-Always :
      (k : Text) (v : List SecretReference) (sec : Secrets)
      → Always R (retrieve_algorithm env k v sec)
  unfolding retrieve_algorithm
  retrieve_algorithm-Always k [] sec = Always-pure pre _
  retrieve_algorithm-Always k (r ∷ v) sec =
      Always-bind pre _ _ (h _)
        (elim [ ok secret ↦ retrieve_algorithm-Always k v _ | err e ↦ Always-pure pre _ ])

  retrieve_from-Always : (l : HmacSecrets) (sec : Secrets) → Always R (retrieve_from env l sec)
  unfolding retrieve_from
  retrieve_from-Always [] sec = Always-pure pre _
  retrieve_from-Always ((k, v) ∷ l) sec =
      Always-bind pre _ _ (retrieve_algorithm-Always k v sec)
        (elim [ ok sec' ↦ retrieve_from-Always l sec' | err e ↦ Always-pure pre _ ])

  login_hmac-Always : (conn : Connection) (l : HmacSecrets) → Always R (login_hmac env conn l)
  unfolding login_hmac retrieve_hmac_secrets
  login_hmac-Always conn [] = Always-pure pre _
  login_hmac-Always conn (x ∷ l) =
      Always-bind pre _ _ (retrieve_from-Always (x ∷ l) [])
        (elim [ ok se ↦ Always-pure pre _ | err e ↦ Always-pure pre _ ])

  login_secret-Always :
      (failed : Error → Error) (conn : Connection) → Always R (login_secret env failed conn)
  unfolding login_secret resolve_auth_secret_ref
  login_secret-Always failed conn =
      Always-bind pre _ _
        (Always-bind pre _ _ (h _) (elim [ ok se ↦ Always-pure pre _ | err e ↦ Always-pure pre _ ]))
        (elim [ ok (u, w) ↦ Always-pure pre _ | err e ↦ Always-pure pre _ ])

  login_by-Always :
      (failed : Error → Error) (conn : Connection) (rpc : Option RpcOptions)
      → Always R (login_by env failed conn rpc)
  unfolding login_by
  login_by-Always failed conn none = login_secret-Always failed conn
  login_by-Always failed conn (some rpc) = login_hmac-Always conn _

  pub login-Always : (failed : Error → Error) (conn : Connection) → Always R (login env failed conn)
  unfolding login
  login-Always failed conn = login_by-Always failed conn _

pub login-Quiet :
    (env : Env) (p : Call env.Bmc → Bool)
    → ((k : NamespacedName) → p (Call.get_secret k) ≡ false)
    → (failed : Error → Error) (conn : Connection) → Quiet p (login env failed conn)
login-Quiet env p h failed conn = Always-Quiet p _ (
    login-Always env (SameCalls-IsPreorder p)
      (λ k. Quiet-Always p _ (Quiet-perform_with _ _ (λ a. h k))) failed conn)
