-- ===== src/System/Refines.antt =====
-- A reconciliation of a Job does what the plan promises.
pub mod Facts
pub mod Ready
pub mod Cases
use rufio.Prelude.{
  ℕ, ◌≡◌, ◌≤◌, refl, ap, sym, ◌∙◌, Bool, true, false, ◌==◌, ◌||◌, Option, none, some, List, [], ◌∷◌,
  arith, length, get_elem?, count_if, if◌then◌else◌, Bool-cases, Option-cases, inl, inr, ◌⊎◌,
}
use rufio.Api.Meta.{NamespacedName, is_zero}
use rufio.Api.Machine.{condition_true}
use rufio.Api.Job.{Job, job_completed, job_failed, has_condition}
use rufio.Controller.Env.{Env}
use rufio.Controller.Exec.{Call, State, Outcome, Reconciled, done, stop}
use rufio.Controller.Job.{is_settled, scan_tasks, advance, reconcile}
use rufio.Controller.Job.Calls.{reconcile-settled_job}
use rufio.System.{
  Phase, running, completed, failed, Plan, next_in, next, phase_of, phase_of_job, View, plan_of,
  IsNamed, IsLawful,
}
use rufio.System.Scan.{is_open, has_failed, unfinished-steps_of, failures-steps_of}
use rufio.System.Plans.{IsOrdered, unfinished-IsOrdered}
use rufio.System.Refines.Facts.{started-conditions}
use rufio.System.Refines.Ready.{at, job_at, listed_at, job_at-same, view-listed_at, IsReady, ready}
use rufio.System.Refines.Cases.{IsRefined, advance-IsRefined}
use rufio.Controller.Job.Runs.{read_job}

module _ (env : Env) (req : NamespacedName) (law : IsLawful env req) (w : env.World) where
  open env use {World, Bmc}
  open law use {view}

  settled-IsRefined :
      (has_condition (view w).job job_completed condition_true ≡ true)
        ⊎ (has_condition (view w).job job_failed condition_true ≡ true)
      → next (plan_of (view w)) ≡ plan_of (view w)
      → IsNamed (view w).job 0 (view w).tasks
      → IsRefined env req law (view w) (reconcile env req (at env req law w))
  settled-IsRefined settled stays named =
      let e =
        reconcile-settled_job env req (at env req law w) (view w).job (law.get_job_result w)
          (inr settled) in
      let seen = law.get_job_view w in
      rw e (record {
        returned = (_, refl);
        refined = ap plan_of seen ∙ sym stays;
        named = rw seen named;
        kept = rw seen;
      })

  module _ (named : IsNamed (view w).job 0 (view w).tasks) (ordered : IsOrdered (plan_of (view w)))
      (not_completed : has_condition (view w).job job_completed condition_true ≡ false)
      (not_failed : has_condition (view w).job job_failed condition_true ≡ false) where
    ready-IsRefined :
        (r : IsReady env req law w)
        → IsRefined env req law (view w) (
            advance env
              (job_at env req law w)
              (view w).job
              r.machine
              (scan_tasks 0 r.items)
              (listed_at env req law w))
    ready-IsRefined r =
        let (o, t, p) = job_at-same env req law w in
        let (c, f) = started-conditions env (view w).job (read_job env req (at env req law w)) in
        let unsettled : phase_of_job (view w).job ≡ running = rw (not_completed, not_failed) in
        advance-IsRefined env req law (view w) (job_at env req law w) (view w).job r.machine r.items
          (listed_at env req law w) (view-listed_at env req law w) refl r.counts o t p
          (c ∙ not_completed) (f ∙ not_failed) unsettled named ordered

    unsettled-IsRefined :
        is_zero (view w).job.object_meta.deletion_timestamp ≡ true
        → IsRefined env req law (view w) (reconcile env req (at env req law w))
    unfolding is_settled
    unsettled-IsRefined live =
        let r = ready env req law w live (rw (not_completed, not_failed)) in
        rw r.advances (ready-IsRefined r)

  -- In a lawful cluster, a reconciliation of a Job that is not being deleted returns, and does to the
  -- plan what `next` says: it starts the next action when all started ones are completed, completes
  -- the job when there is none left, fails it when one has failed, and else leaves the plan as it
  -- is. The tasks keep the names of FormatTaskName. It begins with an ordered plan and such names.
  pub reconcile_refines :
      is_zero (view w).job.object_meta.deletion_timestamp ≡ true
      → IsNamed (view w).job 0 (view w).tasks
      → IsOrdered (plan_of (view w))
      → IsRefined env req law (view w) (reconcile env req (at env req law w))
  reconcile_refines live named ordered =
      elim (Bool-cases (has_condition (view w).job job_completed condition_true)) [
        | inl c ↦
            let phase : phase_of_job (view w).job ≡ completed = rw c in
            settled-IsRefined (inl c) (ap (λ ph. next_in ph (plan_of (view w))) phase) named
        | inr c ↦ elim (Bool-cases (has_condition (view w).job job_failed condition_true)) [
          | inl f ↦
              let phase : phase_of_job (view w).job ≡ failed = rw (c, f) in
              settled-IsRefined (inr f) (ap (λ ph. next_in ph (plan_of (view w))) phase) named
          | inr f ↦ unsettled-IsRefined named ordered c f live
        ]
      ]
