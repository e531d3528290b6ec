-- ===== src/Api/Machine/Laws.antt =====
-- The conditions of a Machine as a map from types to conditions with their time of change.
use rufio.Prelude.{
  ◌≡◌, refl, Option, some, List, if◌then◌else◌, map, false, arith, Bool-cases, inl, inr,
}
use rufio.Prelude.Text.{Text, text_eq, text_eq_refl, eq_of_text_eq}
use rufio.Api.Meta.{Time}
use rufio.Api.Conditions.{apply_options}
use rufio.Api.Conditions.Laws.{
  find_if, or_fresh, find_if-update_self, find_if-update_ne, apply_options_keep,
}
use rufio.Api.Machine.{
  Machine, MachineCondition, MachineConditionType, ConditionStatus, set_condition, set_status,
  with_machine_condition_message, fresh_condition,
}

abbrev set_to : ConditionStatus → Time → List Text → MachineCondition → MachineCondition
set_to s now ms c = apply_options (map with_machine_condition_message ms) (set_status s now c)

type_set_status :
    (s : ConditionStatus) (now : Time) (c : MachineCondition) → (set_status s now c).type ≡ c.type
unfolding set_status
type_set_status s now c = ground arith

status_set_status :
    (s : ConditionStatus) (now : Time) (c : MachineCondition) → (set_status s now c).status ≡ s
unfolding set_status
status_set_status s now c = ground (arith, eq_of_text_eq c.status s)

time_set_status :
    (s : ConditionStatus) (now : Time) (c : MachineCondition)
    → (set_status s now c).last_update_time
      ≡ (if text_eq c.status s then c.last_update_time else now)
unfolding set_status
time_set_status s now c = ground arith

module _ (s : ConditionStatus) (now : Time) (ms : List Text) (c : MachineCondition) where
  type_set_to : (set_to s now ms c).type ≡ c.type
  type_set_to =
      rw
        (apply_options_keep (λ c. c.type) with_machine_condition_message (λ m c. refl) ms
          (set_status s now c))
        (type_set_status s now c)

  status_set_to : (set_to s now ms c).status ≡ s
  status_set_to =
      rw
        (apply_options_keep (λ c. c.status) with_machine_condition_message (λ m c. refl) ms
          (set_status s now c))
        (status_set_status s now c)

  time_set_to :
      (set_to s now ms c).last_update_time
      ≡ (if text_eq c.status s then c.last_update_time else now)
  time_set_to =
      rw
        (apply_options_keep (λ c. c.last_update_time) with_machine_condition_message (λ m c. refl)
          ms (set_status s now c))
        (time_set_status s now c)

-- The condition of a type, if the machine has one.
abbrev pub get_condition : Machine → MachineConditionType → Option MachineCondition
get_condition bm t = find_if (λ c. text_eq c.type t) bm.status.conditions

-- The condition of the type that was set, and those of the other types.
pub get_condition-set_condition :
    (bm : Machine) (t : MachineConditionType) (s : ConditionStatus) (now : Time)
    (messages : List Text)
    → let bm' = set_condition bm t s now (map with_machine_condition_message messages) in
      let old = or_fresh (get_condition bm t) (fresh_condition t) in
      ((c : MachineCondition) × (get_condition bm' t ≡ some c)
        × (c.status ≡ s)
        × (c.last_update_time ≡ (if text_eq old.status s then old.last_update_time else now)))
      × ((u : MachineConditionType)
          → text_eq t u ≡ false
          → get_condition bm' u ≡ get_condition bm u)
unfolding set_condition
get_condition-set_condition bm t s now ms =
    let old = or_fresh (get_condition bm t) (fresh_condition t) in
    (
      (
        set_to s now ms old,
        find_if-update_self (λ c. text_eq c.type t) (fresh_condition t) (set_to s now ms)
            bm.status.conditions (text_eq_refl t) (λ c. rw (type_set_to s now ms c)),
        status_set_to s now ms old,
        time_set_to s now ms old,
      ),
      λ u e.
          find_if-update_ne (λ c. text_eq c.type t) (fresh_condition t) (set_to s now ms)
            (λ c. text_eq c.type u) bm.status.conditions (text_eq_refl t)
            (λ c. rw (type_set_to s now ms c)) (λ c h. rw (eq_of_text_eq c.type t h) e),
    )

-- After SetCondition the machine has a condition of the type, with the status that was set; its
-- time is the call's time if the status differs from the one it had (the empty one where there was
-- no condition), and the time it had otherwise. The conditions of other types are as they were.
pub get_condition-set_condition_machine :
    (bm : Machine) (t u : MachineConditionType) (s : ConditionStatus) (now : Time)
    (messages : List Text)
    → let bm' = set_condition bm t s now (map with_machine_condition_message messages) in
      let old = or_fresh (get_condition bm t) (fresh_condition t) in
      (c : MachineCondition) × (get_condition bm' u
        ≡ (if text_eq t u then some c else get_condition bm u))
      × (c.status ≡ s)
      × (c.last_update_time ≡ (if text_eq old.status s then old.last_update_time else now))
get_condition-set_condition_machine bm t u s now ms =
    let ((c, found, at_s, at_time), others) = get_condition-set_condition bm t s now ms in
    (
      c,
      elim (Bool-cases (text_eq t u)) [
        | inl e ↦ rw (e, ← eq_of_text_eq t u e) found
        | inr e ↦ rw e (others u e)
      ],
      at_s,
      at_time,
    )
