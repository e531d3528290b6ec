-- ===== src/Api/Machine.antt =====
-- api/v1alpha1/machine.go: the Machine object and its conditions. The clock that SetCondition reads
-- is its argument `now`.
pub mod Laws
use rufio.Prelude.{Bool, List, [], ◌∷◌, not, if◌then◌else◌}
use rufio.Prelude.Text.{Text, codes, text_eq}
use rufio.Api.Meta.{Time, TypeMeta, ObjectMeta}
use rufio.Api.ProviderOpts.{Connection}
use rufio.Api.Conditions.{apply_options, update_condition}

abbrev pub PowerState : Type 0
PowerState = Text

abbrev pub on : PowerState
on = codes "on"

abbrev pub off : PowerState
off = codes "off"

abbrev pub unknown : PowerState
unknown = codes "unknown"

abbrev pub MachineConditionType : Type 0
MachineConditionType = Text

abbrev pub contactable : MachineConditionType
contactable = codes "Contactable"

abbrev pub ConditionStatus : Type 0
ConditionStatus = Text

abbrev pub condition_true : ConditionStatus
condition_true = codes "True"

abbrev pub condition_false : ConditionStatus
condition_false = codes "False"

pub record MachineSpec : Type 0 where
  pub connection : Connection

pub record MachineCondition : Type 0 where
  pub type : MachineConditionType
  pub status : ConditionStatus
  pub last_update_time : Time
  pub message : Text

pub record MachineStatus : Type 0 where
  pub power : PowerState
  pub conditions : List MachineCondition

pub record Machine : Type 0 where
  pub type_meta : TypeMeta
  pub object_meta : ObjectMeta
  pub spec : MachineSpec
  pub status : MachineStatus

abbrev pub MachineSetConditionOption : Type 0
MachineSetConditionOption = MachineCondition → MachineCondition

abbrev pub fresh_condition : MachineConditionType → MachineCondition
fresh_condition c_type = record { type = c_type; status = []; last_update_time = 0; message = [] }

-- The condition that SetCondition works on.
unfoldable pub find_condition : MachineConditionType → List MachineCondition → MachineCondition
find_condition c_type [] = fresh_condition c_type
find_condition c_type (c ∷ cs) = if text_eq c.type c_type then c else find_condition c_type cs

-- The time is renewed only if the status changes.
unfoldable pub set_status : ConditionStatus → Time → MachineCondition → MachineCondition
set_status status now c =
    if not (text_eq c.status status)
    then record c { status = status; last_update_time = now }
    else c

unfoldable pub set_condition :
    Machine
    → MachineConditionType
    → ConditionStatus
    → Time
    → List MachineSetConditionOption
    → Machine
unfolding update_condition set_status apply_options
set_condition bm c_type status now opts = record bm {
  status = record bm.status {
    conditions =
        update_condition (λ c. text_eq c.type c_type) (fresh_condition c_type)
          (λ c. apply_options opts (set_status status now c)) bm.status.conditions;
  };
}

-- Whether SetCondition finds the status already there, and does not read the clock; an appended
-- condition has the empty status.
unfoldable pub has_status : Machine → MachineConditionType → ConditionStatus → Bool
unfolding find_condition
has_status bm c_type status = text_eq (find_condition c_type bm.status.conditions).status status

abbrev pub with_machine_condition_message : Text → MachineSetConditionOption
with_machine_condition_message m c = record c { message = m }
