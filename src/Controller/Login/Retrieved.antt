-- ===== src/Controller/Login/Retrieved.antt =====
-- The secrets that retrieveHMACSecrets returns.
use rufio.Prelude.{
  ◌≡◌, refl, ◌∙◌, none, some, sym, ap, true, false, List, [], ◌∷◌, ◌++◌, arith, if◌then◌else◌,
  Bool-cases, inl, inr,
}
use mathlib.Core.List.{append_assoc, append-nil}
use rufio.Prelude.Text.{Text, codes, text_eq, text_eq_refl, eq_of_text_eq}
use rufio.Api.Meta.{NamespacedName, SecretReference}
use rufio.Api.ProviderOpts.{HmacSecrets}
use rufio.Controller.Error.{ok}
use rufio.Controller.Bmc.{Secrets}
use rufio.Controller.Env.{Env}
use rufio.Controller.Exec.{State, Call, done, resume, ◌>>=◌}
use rufio.Controller.Kube.{lookup}
use rufio.Controller.Login.{
  append_secret, secret_value, retrieve_algorithm, retrieve_from, retrieve_hmac_secrets,
}

-- The secrets of an algorithm, none where it has no entry.
abbrev pub secrets_for : Text → Secrets → List Text
secrets_for k [] = []
secrets_for k ((j, vs) ∷ sec) = if text_eq j k then vs else secrets_for k sec

text_eq-differ : (i j k : Text) → text_eq i j ≡ false → text_eq i k ≡ true → text_eq j k ≡ false
text_eq-differ i j k e f = elim (Bool-cases (text_eq j k)) [
  | inl g ↦
      let p = eq_of_text_eq i k f in let q = eq_of_text_eq j k g in let r = text_eq_refl i in cc
  | inr g ↦ g
]

secrets_for-append_secret :
    (k j v : Text) (sec : Secrets)
    → secrets_for k (append_secret j v sec)
      ≡ secrets_for k sec ++ (if text_eq j k then v ∷ [] else [])
unfolding append_secret
secrets_for-append_secret k j v [] = ground arith
secrets_for-append_secret k j v ((i, vs) ∷ sec) = elim (Bool-cases (text_eq i j)) [
  | inl e ↦
      rw (e, sym (eq_of_text_eq i j e))
        (elim (Bool-cases (text_eq i k)) [ inl f ↦ rw f | inr f ↦ rw (f, append-nil) ])
  | inr e ↦ rw e (elim (Bool-cases (text_eq i k)) [
    | inl f ↦ rw (f, text_eq-differ i j k e f, append-nil)
    | inr f ↦ rw f (secrets_for-append_secret k j v sec)
  ])
]

values-none :
    (k j : Text) (sec : Secrets)
    → secrets_for k sec ≡ secrets_for k sec ++ (if text_eq j k then [] else [])
values-none k j sec = elim (Bool-cases (text_eq j k)) [
  | inl e ↦ rw (e, append-nil)
  | inr e ↦ rw (e, append-nil)
]

values-one :
    (k j v : Text) (vs : List Text) (sec : Secrets)
    → secrets_for k (append_secret j v sec) ++ (if text_eq j k then vs else [])
      ≡ secrets_for k sec ++ (if text_eq j k then v ∷ vs else [])
values-one k j v vs sec =
    rw (secrets_for-append_secret k j v sec) (elim (Bool-cases (text_eq j k)) [
      | inl e ↦ rw (e, append_assoc)
      | inr e ↦ rw (e, append-nil, append-nil)
    ])

-- Where each secret can be read, with data that does not change.
module _ (value_of : NamespacedName → List (Text × Text)) where
  abbrev pub key_of : SecretReference → NamespacedName
  key_of r = record { namespace = r.namespace; name = r.name }

  -- The values under the key "secret" of the secrets that are referred to, in order; the empty text
  -- where a secret has no such key.
  abbrev pub values : List SecretReference → List Text
  values [] = []
  values (r ∷ refs) =
      (elim (lookup (codes "secret") (value_of (key_of r))) [ none ↦ [] | some v ↦ v ])
      ∷ values refs

  -- Those of all entries for an algorithm.
  abbrev pub values_for : Text → HmacSecrets → List Text
  values_for k [] = []
  values_for k ((j, refs) ∷ l) = (if text_eq j k then values refs else []) ++ values_for k l

  module _ (env : Env)
      (readable : (key : NamespacedName) (w : env.World)
        → (env.get_secret key w).0 ≡ ok (value_of key)) where
    open env use {World, Bmc}

    retrieve_algorithm_lem :
        (j : Text) (refs : List SecretReference) (sec : Secrets) (s : State World Bmc)
        → (sec' : Secrets) × ((retrieve_algorithm env j refs sec s).0 ≡ done (ok sec'))
          × ((k : Text)
              → secrets_for k sec' ≡ secrets_for k sec ++ (if text_eq j k then values refs else []))
    unfolding retrieve_algorithm secret_value ◌>>=◌
    retrieve_algorithm_lem j [] sec s = (sec, refl, λ k. values-none k j sec)
    retrieve_algorithm_lem j (r ∷ refs) sec s =
        let v = secret_value (value_of (key_of r)) in
        let (sec', e, h) = retrieve_algorithm_lem j refs (append_secret j v sec) (record {
          world = (env.get_secret (key_of r) s.world).1;
          calls = Call.get_secret (key_of r) ∷ s.calls;
        }) in
        (sec', rw (readable (key_of r) s.world) e, λ k. h k ∙ values-one k j v (values refs) sec)

    retrieve_from_lem :
        (l : HmacSecrets) (sec : Secrets) (s : State World Bmc)
        → (sec' : Secrets) × ((retrieve_from env l sec s).0 ≡ done (ok sec'))
          × ((k : Text) → secrets_for k sec' ≡ secrets_for k sec ++ values_for k l)
    unfolding retrieve_from ◌>>=◌
    retrieve_from_lem [] sec s = (sec, refl, λ k. rw append-nil)
    retrieve_from_lem ((j, refs) ∷ ls) sec s =
        let (sec1, e1, h1) = retrieve_algorithm_lem j refs sec s in
        let (sec2, e2, h2) = retrieve_from_lem ls sec1 (retrieve_algorithm env j refs sec s).1 in
        (
          sec2,
          rw (e1, resume) e2,
          λ k. h2 k ∙ ap (λ l. l ++ values_for k ls) (h1 k) ∙ append_assoc (secrets_for k sec) _ _,
        )

    -- Where every secret can be read, with data that does not change from one read to the next,
    -- retrieveHMACSecrets returns, for each algorithm, the values under the key "secret" of its
    -- secrets, in the order of the references, and no other secrets.
    pub retrieve_hmac_secrets_lem :
        (l : HmacSecrets) (s : State World Bmc)
        → (sec : Secrets) × ((retrieve_hmac_secrets env l s).0 ≡ done (ok sec))
          × ((k : Text) → secrets_for k sec ≡ values_for k l)
    unfolding retrieve_hmac_secrets lookup
    retrieve_hmac_secrets_lem l s = retrieve_from_lem l [] s
