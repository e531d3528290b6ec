-- ===== src/Controller/Kube/Readings.antt =====
-- What the readings of controller/kube.go come to: a power state, and credentials.
use rufio.Prelude.{◌≡◌, refl, ◌↔◌, some, List, arith, Bool-cases, inl, inr}
use rufio.Prelude.Text.{Text, codes, contains, to_lower}
use rufio.Prelude.Text.Occurs.{Occurs, contains_iff, to_lower_idem}
use rufio.Api.Machine.{on, off, unknown}
use rufio.Controller.Error.{ok}
use rufio.Controller.Kube.{lookup, credentials, to_power_state}

-- A raw power state is read as on exactly where "on" occurs in its lower case form, as off exactly
-- where "off" does and "on" does not, and as unknown exactly where neither does.
pub to_power_state_iff :
    (raw : Text)
    → ((to_power_state raw ≡ on) ↔ Occurs (codes "on") (to_lower raw))
      × ((to_power_state raw ≡ off)
          ↔ (Occurs (codes "off") (to_lower raw) × (¬ Occurs (codes "on") (to_lower raw))))
      × ((to_power_state raw ≡ unknown)
          ↔ ((¬ Occurs (codes "off") (to_lower raw)) × (¬ Occurs (codes "on") (to_lower raw))))
unfolding to_power_state
to_power_state_iff raw =
    let text = to_lower raw in
    let on_iff = contains_iff text (codes "on") in
    let off_iff = contains_iff text (codes "off") in
    elim (Bool-cases (contains text (codes "on"))) [
      | inl e ↦ rw e (
        (λ h. on_iff.0 e, λ h. refl),
        (λ h. cc, λ h. absurd (h.1 (on_iff.0 e))),
        (λ h. cc, λ h. absurd (h.1 (on_iff.0 e))),
      )
      | inr e ↦
          let no_on : ¬ Occurs (codes "on") text = λ o. let h = on_iff.1 o in cc in
          elim (Bool-cases (contains text (codes "off"))) [
            | inl f ↦
                rw (e, f)
                  (
                    (λ h. cc, λ h. absurd (no_on h)),
                    (λ h. (off_iff.0 f, no_on), λ h. refl),
                    (λ h. cc, λ h. absurd (h.0 (off_iff.0 f))),
                  )
            | inr f ↦
                let no_off : ¬ Occurs (codes "off") text = λ o. let h = off_iff.1 o in cc in
                rw (e, f)
                  (
                    (λ h. cc, λ h. absurd (no_on h)),
                    (λ h. cc, λ h. absurd (no_off h.0)),
                    (λ h. (no_off, no_on), λ h. refl),
                  )
          ]
    ]

-- The reading does not depend on the case of the letters.
pub to_power_state-to_lower : (raw : Text) → to_power_state (to_lower raw) ≡ to_power_state raw
unfolding to_power_state
to_power_state-to_lower raw = rw (to_lower_idem raw)

-- The credentials of a secret are read exactly where it has both keys, and are their values;
-- otherwise there is an error.
credentials_iff :
    (secret : List (Text × Text)) (username password : Text)
    → (credentials secret ≡ ok (username, password)) ↔ (
        (lookup (codes "username") secret ≡ some username)
        × (lookup (codes "password") secret ≡ some password))
unfolding credentials
credentials_iff secret username password = ((λ h. ground arith), (λ h. ground arith))
