-- ===== src/Api/Task.antt =====
-- api/v1alpha1/task.go: the Task object and its conditions.
pub mod Laws
use rufio.Prelude.{Bool, Option, List, []}
use rufio.Prelude.Text.{Text, codes, text_eq}
use rufio.Api.Meta.{Time, TypeMeta, ObjectMeta}
use rufio.Api.Action.{Action}
use rufio.Api.ProviderOpts.{Connection}
use rufio.Api.Machine.{ConditionStatus}
use rufio.Api.Conditions.{apply_options, update_condition, check_condition}

abbrev pub TaskConditionType : Type 0
TaskConditionType = Text

abbrev pub task_completed : TaskConditionType
task_completed = codes "Completed"

abbrev pub task_failed : TaskConditionType
task_failed = codes "Failed"

pub record TaskSpec : Type 0 where
  pub task : Action
  pub connection : Connection

pub record TaskCondition : Type 0 where
  pub type : TaskConditionType
  pub status : ConditionStatus
  pub message : Text

pub record TaskStatus : Type 0 where
  pub conditions : List TaskCondition
  pub start_time : Option Time
  pub completion_time : Option Time

pub record Task : Type 0 where
  pub type_meta : TypeMeta
  pub object_meta : ObjectMeta
  pub spec : TaskSpec
  pub status : TaskStatus

abbrev pub TaskSetConditionOption : Type 0
TaskSetConditionOption = TaskCondition → TaskCondition

abbrev pub fresh_condition : TaskConditionType → TaskCondition
fresh_condition c_type = record { type = c_type; status = []; message = [] }

unfoldable pub set_condition :
    Task → TaskConditionType → ConditionStatus → List TaskSetConditionOption → Task
unfolding update_condition apply_options
set_condition t c_type status opts = record t {
  status = record t.status {
    conditions =
        update_condition (λ c. text_eq c.type c_type) (fresh_condition c_type)
          (λ c. apply_options opts (record c { status = status })) t.status.conditions;
  };
}

abbrev pub with_task_condition_message : Text → TaskSetConditionOption
with_task_condition_message m c = record c { message = m }

unfoldable pub has_condition : Task → TaskConditionType → ConditionStatus → Bool
unfolding check_condition
has_condition t c_type c_status =
    check_condition (λ c. text_eq c.type c_type) (λ c. text_eq c.status c_status)
      t.status.conditions
