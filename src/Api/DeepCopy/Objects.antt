-- ===== src/Api/DeepCopy/Objects.antt =====
-- The generated copies of statuses and of whole objects as copiers.
use rufio.Prelude.{ℕ, ◌<◌, ◌≤◌}
use rufio.Api.Memory.{Kind, Cell, write}
use rufio.Api.Task.{Task}
use rufio.Api.Stored.{StoredTask}
use rufio.Api.Memory.{Heap, job_conditions, task_conditions}
use rufio.Api.Memory.Extends.{IsCopier, begin, and_then, both, fixed, copy_apart}
use rufio.Api.Memory.Copiers.{copy_value-IsCopier, copy_slice-IsCopier}
use rufio.Api.DeepCopy.{
  MetaCopies, deep_copy_job_status, deep_copy_task_status, deep_copy_machine, deep_copy_job,
  deep_copy_task,
}
use rufio.Api.DeepCopy.Represents.{IsJobStatus, IsTaskStatus, IsMachine, IsJob, IsTask}
use rufio.Api.DeepCopy.Laws.{
  deep_copy_machine_spec-IsCopier, deep_copy_machine_status-IsCopier, deep_copy_job_spec-IsCopier,
  deep_copy_task_spec-IsCopier,
}

module _ (copies : MetaCopies) where
  pub deep_copy_job_status-IsCopier : IsCopier IsJobStatus (deep_copy_job_status copies)
  unfolding deep_copy_job_status
  deep_copy_job_status-IsCopier =
      let c0 = copy_slice-IsCopier job_conditions copy_value-IsCopier in
      let c1 = copies.copy_time-IsCopier in
      let c2 = copies.copy_time-IsCopier in
      record {
        stable = λ x v.
            both (both (c0.stable x.conditions v.conditions) (c1.stable x.start_time v.start_time))
              (c2.stable x.completion_time v.completion_time);
        deep = λ h x v r.
            and_then c2 (both (c0.stable _ v.conditions) (c1.stable _ v.start_time))
              (and_then c1 (c0.stable _ v.conditions) (c0.deep h x.conditions v.conditions r.0.0)
                r.0.1)
              r.1;
      }

  pub deep_copy_task_status-IsCopier : IsCopier IsTaskStatus (deep_copy_task_status copies)
  unfolding deep_copy_task_status
  deep_copy_task_status-IsCopier =
      let c0 = copy_slice-IsCopier task_conditions copy_value-IsCopier in
      let c1 = copies.copy_time-IsCopier in
      let c2 = copies.copy_time-IsCopier in
      record {
        stable = λ x v.
            both (both (c0.stable x.conditions v.conditions) (c1.stable x.start_time v.start_time))
              (c2.stable x.completion_time v.completion_time);
        deep = λ h x v r.
            and_then c2 (both (c0.stable _ v.conditions) (c1.stable _ v.start_time))
              (and_then c1 (c0.stable _ v.conditions) (c0.deep h x.conditions v.conditions r.0.0)
                r.0.1)
              r.1;
      }

  pub deep_copy_machine-IsCopier : IsCopier (IsMachine copies) (deep_copy_machine copies)
  unfolding deep_copy_machine
  deep_copy_machine-IsCopier =
      let c0 = copies.copy_meta-IsCopier in
      let c1 = deep_copy_machine_spec-IsCopier in
      let c2 = deep_copy_machine_status-IsCopier in
      record {
        stable = λ x v.
            both
              (both (both fixed (c0.stable x.object_meta v.object_meta)) (c1.stable x.spec v.spec))
              (c2.stable x.status v.status);
        deep = λ h x v r.
            and_then c2 (both (both fixed (c0.stable _ v.object_meta)) (c1.stable _ v.spec))
              (and_then c1 (both fixed (c0.stable _ v.object_meta))
                (and_then c0 (fixed) (begin r.0.0.0) r.0.0.1) r.0.1)
              r.1;
      }

  pub deep_copy_job-IsCopier : IsCopier (IsJob copies) (deep_copy_job copies)
  unfolding deep_copy_job
  deep_copy_job-IsCopier =
      let c0 = copies.copy_meta-IsCopier in
      let c1 = deep_copy_job_spec-IsCopier in
      let c2 = deep_copy_job_status-IsCopier in
      record {
        stable = λ x v.
            both
              (both (both fixed (c0.stable x.object_meta v.object_meta)) (c1.stable x.spec v.spec))
              (c2.stable x.status v.status);
        deep = λ h x v r.
            and_then c2 (both (both fixed (c0.stable _ v.object_meta)) (c1.stable _ v.spec))
              (and_then c1 (both fixed (c0.stable _ v.object_meta))
                (and_then c0 (fixed) (begin r.0.0.0) r.0.0.1) r.0.1)
              r.1;
      }

  pub deep_copy_task-IsCopier : IsCopier (IsTask copies) (deep_copy_task copies)
  unfolding deep_copy_task
  deep_copy_task-IsCopier =
      let c0 = copies.copy_meta-IsCopier in
      let c1 = deep_copy_task_spec-IsCopier in
      let c2 = deep_copy_task_status-IsCopier in
      record {
        stable = λ x v.
            both
              (both (both fixed (c0.stable x.object_meta v.object_meta)) (c1.stable x.spec v.spec))
              (c2.stable x.status v.status);
        deep = λ h x v r.
            and_then c2 (both (both fixed (c0.stable _ v.object_meta)) (c1.stable _ v.spec))
              (and_then c1 (both fixed (c0.stable _ v.object_meta))
                (and_then c0 (fixed) (begin r.0.0.0) r.0.0.1) r.0.1)
              r.1;
      }

  -- In memory, after DeepCopyInto of a Task: a write of anything to a cell that was there before
  -- leaves the copy as the task that was copied, and a write to a new cell leaves the original so.
  -- It begins with a task in memory, all of whose addresses are in use.
  pub deep_copy_task_apart :
      (h : Heap) (x : StoredTask copies.Meta) (v : Task)
      → IsTask copies 0 h.next h x v
      → (k : Kind) (a : ℕ) (new : Cell k) → a < h.next
      → (k' : Kind) (b : ℕ) (new' : Cell k') → h.next ≤ b
      → let (h', y) = deep_copy_task copies h x in
        IsTask copies h.next h'.next (write k a new h') y v
        × IsTask copies 0 h.next (write k' b new' h') x v
  deep_copy_task_apart h x v r k a new l k' b new' g =
      copy_apart deep_copy_task-IsCopier h x v r k a new l k' b new' g
