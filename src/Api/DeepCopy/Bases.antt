-- ===== src/Api/DeepCopy/Bases.antt =====
-- A reconciler copies the object that it has read, changes it with SetCondition, and makes a patch
-- against the copy: SetCondition of api/v1alpha1/{job,machine}.go in memory, with the copy beside it.
use rufio.Prelude.{ℕ, List, arith}
use rufio.Prelude.Text.{text_eq}
use rufio.Api.Meta.{Time}
use rufio.Api.Conditions.{apply_options}
use rufio.Api.Machine.{
  Machine, ConditionStatus, MachineConditionType, MachineCondition, MachineSetConditionOption,
  set_status,
}
use rufio.Api.Machine
use rufio.Api.Job.{Job, JobConditionType, JobCondition, JobSetConditionOption}
use rufio.Api.Job
use rufio.Api.Stored.{StoredJob, StoredMachine}
use rufio.Api.Memory.{Heap, job_conditions, machine_conditions}
use rufio.Api.Memory.Stands.{IsSlice, IsValue}
use rufio.Api.Memory.Copiers.{copy_slice-IsCopier, copy_value-IsCopier}
use rufio.Api.Memory.Conditions.{set_condition_at}
use rufio.Api.Memory.Conditions.Laws.{set_condition_at_lem}
use rufio.Api.DeepCopy.{MetaCopies, deep_copy_job, deep_copy_machine}
use rufio.Api.DeepCopy.Represents.{IsJob, IsMachine}
use rufio.Api.DeepCopy.Objects.{deep_copy_job-IsCopier, deep_copy_machine-IsCopier}

unfoldable pub set_condition_job_at :
    {M : Type 0}
    → (ℕ → List JobCondition)
    → Heap
    → StoredJob M
    → JobConditionType
    → ConditionStatus
    → List JobSetConditionOption
    → Heap × StoredJob M
unfolding set_condition_at apply_options
set_condition_job_at spare h j c_type status opts =
    let (h1, conditions) =
      set_condition_at job_conditions spare (λ c. text_eq c.type c_type)
        (Job.fresh_condition c_type) (λ c. apply_options opts (record c { status = status })) h
        j.status.conditions in
    (h1, record j { status = record j.status { conditions = conditions } })

unfoldable pub set_condition_machine_at :
    {M : Type 0}
    → (ℕ → List MachineCondition)
    → Heap
    → StoredMachine M
    → MachineConditionType
    → ConditionStatus
    → Time
    → List MachineSetConditionOption
    → Heap × StoredMachine M
unfolding set_condition_at apply_options set_status
set_condition_machine_at spare h bm c_type status now opts =
    let (h1, conditions) =
      set_condition_at machine_conditions spare (λ c. text_eq c.type c_type)
        (Machine.fresh_condition c_type) (λ c. apply_options opts (set_status status now c)) h
        bm.status.conditions in
    (h1, record bm { status = record bm.status { conditions = conditions } })

module _ (copies : MetaCopies) where
  -- In memory, where a Job is copied and SetCondition is then called on the original: the conditions
  -- of the original become those that set_condition of Api/Job.antt computes, and the copy is still
  -- the job that was read. It begins with a job in memory, all of whose addresses are in use.
  pub set_condition-deep_copy_job :
      (h : Heap) (x : StoredJob copies.Meta) (v : Job)
      → IsJob copies 0 h.next h x v
      → (spare : ℕ → List JobCondition) (c_type : JobConditionType) (status : ConditionStatus)
        (opts : List JobSetConditionOption)
      → let (h1, base) = deep_copy_job copies h x in
        let (h2, y) = set_condition_job_at spare h1 x c_type status opts in
        IsSlice job_conditions IsValue 0 h2.next h2 y.status.conditions
          (Job.set_condition v c_type status opts).status.conditions
        × IsJob copies h.next h1.next h2 base v
  unfolding set_condition_job_at Job.set_condition
  set_condition-deep_copy_job h x v r spare c_type status opts =
      let (h1, base) = deep_copy_job copies h x in
      let copier = deep_copy_job-IsCopier copies in
      let d = copier.deep h x v r in
      let old =
        (copy_slice-IsCopier job_conditions copy_value-IsCopier).stable x.status.conditions
          v.status.conditions in
      let c =
        set_condition_at_lem job_conditions 0 h.next h1 spare (λ c. text_eq c.type c_type)
          (Job.fresh_condition c_type) (λ c. apply_options opts (record c { status = status }))
          x.status.conditions v.status.conditions (omega arith) d.grows
          (old.carry 0 h.next 0 h.next h h1 (omega arith) (omega arith) d.keeps r.1.0.0) in
      (
        c.holds,
        (copier.stable base v).carry h.next h1.next h.next h1.next h1 _ (omega arith) (omega arith)
            c.keeps d.fresh,
      )

  -- In memory, where a Machine is copied and SetCondition is then called on the original: the
  -- conditions of the original become those that set_condition of Api/Machine.antt computes, and the
  -- copy is still the machine that was read. It begins with a machine in memory, all of whose
  -- addresses are in use.
  pub set_condition-deep_copy_machine :
      (h : Heap) (x : StoredMachine copies.Meta) (v : Machine)
      → IsMachine copies 0 h.next h x v
      → (spare : ℕ → List MachineCondition) (c_type : MachineConditionType)
        (status : ConditionStatus) (now : Time) (opts : List MachineSetConditionOption)
      → let (h1, base) = deep_copy_machine copies h x in
        let (h2, y) = set_condition_machine_at spare h1 x c_type status now opts in
        IsSlice machine_conditions IsValue 0 h2.next h2 y.status.conditions
          (Machine.set_condition v c_type status now opts).status.conditions
        × IsMachine copies h.next h1.next h2 base v
  unfolding set_condition_machine_at Machine.set_condition
  set_condition-deep_copy_machine h x v r spare c_type status now opts =
      let (h1, base) = deep_copy_machine copies h x in
      let copier = deep_copy_machine-IsCopier copies in
      let d = copier.deep h x v r in
      let old =
        (copy_slice-IsCopier machine_conditions copy_value-IsCopier).stable x.status.conditions
          v.status.conditions in
      let c =
        set_condition_at_lem machine_conditions 0 h.next h1 spare (λ c. text_eq c.type c_type)
          (Machine.fresh_condition c_type) (λ c. apply_options opts (set_status status now c))
          x.status.conditions v.status.conditions (omega arith) d.grows
          (old.carry 0 h.next 0 h.next h h1 (omega arith) (omega arith) d.keeps r.1.1) in
      (
        c.holds,
        (copier.stable base v).carry h.next h1.next h.next h1.next h1 _ (omega arith) (omega arith)
            c.keeps d.fresh,
      )
