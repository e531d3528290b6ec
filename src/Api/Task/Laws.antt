-- ===== src/Api/Task/Laws.antt =====
-- The conditions of a Task as a map from types to statuses.
use rufio.Prelude.{◌≡◌, refl, List, if◌then◌else◌, Bool-cases, inl, inr, map, ◌≤◌, count_if}
use rufio.Prelude.Text.{Text, text_eq, text_eq_refl, eq_of_text_eq}
use rufio.Api.Conditions.{apply_options}
use rufio.Api.Conditions.Laws.{
  check_condition-find_if, find_if-update_self, find_if-update_ne, apply_options_keep,
  count_if-update_self, count_if-update_ne,
}
use rufio.Api.Task.{
  Task, TaskCondition, TaskConditionType, set_condition, has_condition, with_task_condition_message,
  fresh_condition,
}
use rufio.Api.Machine.{ConditionStatus}

abbrev set_to : ConditionStatus → List Text → TaskCondition → TaskCondition
set_to s ms c = apply_options (map with_task_condition_message ms) (record c { status = s })

type_set_to :
    (s : ConditionStatus) (ms : List Text) (c : TaskCondition) → (set_to s ms c).type ≡ c.type
type_set_to s ms c =
    apply_options_keep (λ c. c.type) with_task_condition_message (λ m c. refl) ms
      (record c { status = s })

status_set_to :
    (s : ConditionStatus) (ms : List Text) (c : TaskCondition) → (set_to s ms c).status ≡ s
status_set_to s ms c =
    apply_options_keep (λ c. c.status) with_task_condition_message (λ m c. refl) ms
      (record c { status = s })

-- SetCondition makes HasCondition true of the type exactly at the status that was set, and leaves
-- every other type as it was, for any list of messages given as options.
pub has_condition-set_condition_task :
    (k : Task) (t u : TaskConditionType) (s v : ConditionStatus) (messages : List Text)
    → has_condition (set_condition k t s (map with_task_condition_message messages)) u v
      ≡ (if text_eq t u then text_eq s v else has_condition k u v)
unfolding has_condition set_condition
has_condition-set_condition_task k t u s v ms = elim (Bool-cases (text_eq t u)) [
  | inl e ↦
      rw (e, ← eq_of_text_eq t u e, check_condition-find_if)
        (rw
          (find_if-update_self (λ c. text_eq c.type t) (fresh_condition t) (set_to s ms)
            k.status.conditions (text_eq_refl t) (λ c. rw (type_set_to s ms c)))
          (rw (status_set_to s ms)))
  | inr e ↦
      rw (e, check_condition-find_if, check_condition-find_if)
        (rw (
          find_if-update_ne (λ c. text_eq c.type t) (fresh_condition t) (set_to s ms)
            (λ c. text_eq c.type u) k.status.conditions (text_eq_refl t)
            (λ c. rw (type_set_to s ms c)) (λ c h. rw (eq_of_text_eq c.type t h) e)))
]

-- No type of condition stands in the list twice.
abbrev pub IsUnique : Task → Type 0
IsUnique k = (u : TaskConditionType) → count_if (λ c. text_eq c.type u) k.status.conditions ≤ 1

-- SetCondition keeps the list free of duplicates.
pub set_condition-IsUnique_task :
    (k : Task) (t : TaskConditionType) (s : ConditionStatus) (messages : List Text)
    → IsUnique k
    → IsUnique (set_condition k t s (map with_task_condition_message messages))
unfolding set_condition
set_condition-IsUnique_task k t s ms h u = elim (Bool-cases (text_eq t u)) [
  | inl e ↦ rw (← eq_of_text_eq t u e) (
      count_if-update_self (λ c. text_eq c.type t) (fresh_condition t) (set_to s ms)
        k.status.conditions (λ c. rw (type_set_to s ms c)) (h t))
  | inr e ↦
      rw
        (count_if-update_ne (λ c. text_eq c.type t) (fresh_condition t) (set_to s ms)
          (λ c. text_eq c.type u) k.status.conditions (text_eq_refl t)
          (λ c. rw (type_set_to s ms c)) (λ c same. rw (eq_of_text_eq c.type t same) e))
        (h u)
]
