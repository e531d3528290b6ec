-- ===== src/Api/Job/Laws.antt =====
-- The conditions of a Job as a map from types to statuses.
use rufio.Prelude.{◌≡◌, refl, List, if◌then◌else◌, Bool-cases, inl, inr, map, ◌≤◌, count_if}
use rufio.Prelude.Text.{Text, text_eq, text_eq_refl, eq_of_text_eq}
use rufio.Api.Conditions.{apply_options}
use rufio.Api.Conditions.Laws.{
  check_condition-find_if, find_if-update_self, find_if-update_ne, apply_options_keep,
  count_if-update_self, count_if-update_ne,
}
use rufio.Api.Job.{
  Job, JobCondition, JobConditionType, set_condition, has_condition, with_job_condition_message,
  fresh_condition,
}
use rufio.Api.Machine.{ConditionStatus}

abbrev set_to : ConditionStatus → List Text → JobCondition → JobCondition
set_to s ms c = apply_options (map with_job_condition_message ms) (record c { status = s })

type_set_to :
    (s : ConditionStatus) (ms : List Text) (c : JobCondition) → (set_to s ms c).type ≡ c.type
type_set_to s ms c =
    apply_options_keep (λ c. c.type) with_job_condition_message (λ m c. refl) ms
      (record c { status = s })

status_set_to :
    (s : ConditionStatus) (ms : List Text) (c : JobCondition) → (set_to s ms c).status ≡ s
status_set_to s ms c =
    apply_options_keep (λ c. c.status) with_job_condition_message (λ m c. refl) ms
      (record c { status = s })

-- SetCondition makes HasCondition true of the type exactly at the status that was set, and leaves
-- every other type as it was, for any list of messages given as options.
pub has_condition-set_condition_job :
    (j : Job) (t u : JobConditionType) (s v : ConditionStatus) (messages : List Text)
    → has_condition (set_condition j t s (map with_job_condition_message messages)) u v
      ≡ (if text_eq t u then text_eq s v else has_condition j u v)
unfolding has_condition set_condition
has_condition-set_condition_job j t u s v ms = elim (Bool-cases (text_eq t u)) [
  | inl e ↦
      rw (e, ← eq_of_text_eq t u e, check_condition-find_if)
        (rw
          (find_if-update_self (λ c. text_eq c.type t) (fresh_condition t) (set_to s ms)
            j.status.conditions (text_eq_refl t) (λ c. rw (type_set_to s ms c)))
          (rw (status_set_to s ms)))
  | inr e ↦
      rw (e, check_condition-find_if, check_condition-find_if)
        (rw (
          find_if-update_ne (λ c. text_eq c.type t) (fresh_condition t) (set_to s ms)
            (λ c. text_eq c.type u) j.status.conditions (text_eq_refl t)
            (λ c. rw (type_set_to s ms c)) (λ c h. rw (eq_of_text_eq c.type t h) e)))
]

-- No type of condition stands in the list twice.
abbrev pub IsUnique : Job → Type 0
IsUnique j = (u : JobConditionType) → count_if (λ c. text_eq c.type u) j.status.conditions ≤ 1

-- SetCondition keeps the list free of duplicates.
set_condition-IsUnique_job :
    (j : Job) (t : JobConditionType) (s : ConditionStatus) (messages : List Text)
    → IsUnique j
    → IsUnique (set_condition j t s (map with_job_condition_message messages))
unfolding set_condition
set_condition-IsUnique_job j t s ms h u = elim (Bool-cases (text_eq t u)) [
  | inl e ↦ rw (← eq_of_text_eq t u e) (
      count_if-update_self (λ c. text_eq c.type t) (fresh_condition t) (set_to s ms)
        j.status.conditions (λ c. rw (type_set_to s ms c)) (h t))
  | inr e ↦
      rw
        (count_if-update_ne (λ c. text_eq c.type t) (fresh_condition t) (set_to s ms)
          (λ c. text_eq c.type u) j.status.conditions (text_eq_refl t)
          (λ c. rw (type_set_to s ms c)) (λ c same. rw (eq_of_text_eq c.type t same) e))
        (h u)
]
