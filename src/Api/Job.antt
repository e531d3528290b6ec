-- ===== src/Api/Job.antt =====
-- api/v1alpha1/job.go: the Job object, its conditions, and the names of its tasks.
pub mod Laws
pub mod Names
use rufio.Prelude.{ℕ, Bool, Option, List, [], ◌++◌}
use rufio.Prelude.Text.{Text, codes, text_eq}
use rufio.Prelude.Decimal.{format_ℕ}
use rufio.Api.Meta.{Time, TypeMeta, ObjectMeta}
use rufio.Api.Action.{Action}
use rufio.Api.Machine.{ConditionStatus}
use rufio.Api.Conditions.{apply_options, update_condition, check_condition}

abbrev pub JobConditionType : Type 0
JobConditionType = Text

abbrev pub job_completed : JobConditionType
job_completed = codes "Completed"

abbrev pub job_failed : JobConditionType
job_failed = codes "Failed"

abbrev pub job_running : JobConditionType
job_running = codes "Running"

pub record MachineRef : Type 0 where
  pub name : Text
  pub namespace : Text

pub record JobSpec : Type 0 where
  pub machine_ref : MachineRef
  pub tasks : List Action

pub record JobCondition : Type 0 where
  pub type : JobConditionType
  pub status : ConditionStatus
  pub message : Text

pub record JobStatus : Type 0 where
  pub conditions : List JobCondition
  pub start_time : Option Time
  pub completion_time : Option Time

pub record Job : Type 0 where
  pub type_meta : TypeMeta
  pub object_meta : ObjectMeta
  pub spec : JobSpec
  pub status : JobStatus

abbrev pub JobSetConditionOption : Type 0
JobSetConditionOption = JobCondition → JobCondition

abbrev pub fresh_condition : JobConditionType → JobCondition
fresh_condition c_type = record { type = c_type; status = []; message = [] }

unfoldable pub set_condition :
    Job → JobConditionType → ConditionStatus → List JobSetConditionOption → Job
unfolding update_condition apply_options
set_condition j c_type status opts = record j {
  status = record j.status {
    conditions =
        update_condition (λ c. text_eq c.type c_type) (fresh_condition c_type)
          (λ c. apply_options opts (record c { status = status })) j.status.conditions;
  };
}

abbrev pub with_job_condition_message : Text → JobSetConditionOption
with_job_condition_message m c = record c { message = m }

unfoldable pub has_condition : Job → JobConditionType → ConditionStatus → Bool
unfolding check_condition
has_condition j c_type c_status =
    check_condition (λ c. text_eq c.type c_type) (λ c. text_eq c.status c_status)
      j.status.conditions

-- `fmt.Sprintf("%s-task-%d", job.Name, n)`.
unfoldable pub format_task_name : Job → ℕ → Text
unfolding format_ℕ
format_task_name job n = job.object_meta.name ++ (codes "-task-" ++ format_ℕ n)
