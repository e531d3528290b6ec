-- ===== src/System/Rounds.antt =====
-- A job whose tasks are finished between its reconciliations.
pub mod Plans
use rufio.Prelude.{
  ℕ, zero, suc, ◌+◌, ◌-◌, ◌≡◌, ◌≤◌, ◌<◌, refl, ap, sym, ◌∙◌, Bool, true, false, ◌==◌, none, List,
  [], ◌∷◌, ◌++◌, length, get_elem?, length-append, count_if, arith, Option-cases, inl, inr,
  Bool-cases,
}
use mathlib.Core.Path.{subst}
use rufio.Api.Meta.{NamespacedName, ObjectMeta, is_zero}
use rufio.Api.Action.{Action}
use rufio.Api.Machine.{condition_true}
use rufio.Api.Task.{Task}
use rufio.Api.Job.{Job, job_completed, job_failed, has_condition}
use rufio.Controller.Env.{Env}
use rufio.Controller.Job.{reconcile}
use rufio.System.{
  Phase, running, completed, failed, is_failed, Plan, unfinished, failures, start_next, next_in,
  next, phase_of, phase_of_task, phase_of_job, plan_of, steps_of, IsNamed, IsLawful,
}
use rufio.System.Plans.{
  IsOrdered, IsPrefix, IsSerial, Says, failures-le-unfinished, count_if-append,
  unfinished-IsOrdered, get_elem?-some,
}
use rufio.System.Scan.{is_open, length-steps_of, unfinished-steps_of}
use rufio.System.Refines.{reconcile_refines}
use rufio.System.Refines.Ready.{at}
use rufio.System.Reach.{IsSound, Move, Move-IsSound}
use rufio.System.Rounds.Plans.{
  finish_all, Finishes, steps_of-Finishes, IsNamed-Finishes, round_of, rounds_of, rounds_complete,
  finish_all-IsOrdered, completed_of_phase, next_in-actions,
}

module _ (env : Env) (req : NamespacedName) (law : IsLawful env req) where
  open env use {World}
  open law use {view}

  -- A reconciliation of the job, and after it what happens to its tasks.
  abbrev pub round : (World → World) → World → World
  round finish w = finish (reconcile env req (at env req law w)).1.world

  abbrev pub rounds : (World → World) → ℕ → World → World
  rounds finish zero w = w
  rounds finish (suc n) w = rounds finish n (round finish w)

  module _ (Fit : List Action → Type 0) (finish : World → World)
      (finish_job : (w : World)
        → IsSound (view w)
        → Fit (view w).job.spec.tasks
        → (view (finish w)).job ≡ (view w).job)
      (finish_tasks : (w : World)
        → IsSound (view w)
        → Fit (view w).job.spec.tasks
        → Finishes (view w).tasks (view (finish w)).tasks) where
    finish-plan_of :
        (w : World)
        → IsSound (view w)
        → Fit (view w).job.spec.tasks
        → plan_of (view (finish w))
          ≡ record (plan_of (view w)) { tasks = finish_all (steps_of (view w).tasks) }
    finish-plan_of w h fit =
        let j = finish_job w h fit in
        let t = steps_of-Finishes (view w).tasks (view (finish w)).tasks (finish_tasks w h fit) in
        λ i. record { actions = (j i).spec.tasks; tasks = t i; phase = phase_of_job (j i) }

    finish-IsSound :
        (w : World) → IsSound (view w) → Fit (view w).job.spec.tasks → IsSound (view (finish w))
    finish-IsSound w h fit = record {
      live =
          ap (λ (j : Job). is_zero j.object_meta.deletion_timestamp) (finish_job w h fit) ∙ h.live;
      named = rw (finish_job w h fit) (
          IsNamed-Finishes (view w).job 0 (view w).tasks (view (finish w)).tasks
            (finish_tasks w h fit) h.named);
      ordered = rw (finish-plan_of w h fit) (finish_all-IsOrdered (plan_of (view w)) h.ordered);
    }

    -- What a round does to a sound job.
    record IsRound (w : World) : Type 0 where
      sound : IsSound (view (round finish w))
      fits : Fit (view (round finish w)).job.spec.tasks
      planned : plan_of (view (round finish w)) ≡ round_of (plan_of (view w))

    round_lem : (w : World) → IsSound (view w) → Fit (view w).job.spec.tasks → IsRound w
    round_lem w h fit =
        let w' = (reconcile env req (at env req law w)).1.world in
        let r = reconcile_refines env req law w h.live h.named h.ordered in
        let h' = Move-IsSound env req law (Move.reconciles w) h in
        let actions =
          ap (λ (p : Plan). p.actions) r.refined
          ∙ next_in-actions (phase_of_job (view w).job) (plan_of (view w)) in
        let fit' = subst Fit (sym actions) fit in
        record {
          sound = finish-IsSound w' h' fit';
          fits = subst Fit (sym (ap (λ (j : Job). j.spec.tasks) (finish_job w' h' fit'))) fit';
          planned =
              finish-plan_of w' h' fit'
              ∙ ap (λ (p : Plan). record p { tasks = finish_all p.tasks }) r.refined;
        }

    rounds_lem :
        (n : ℕ) (w : World)
        → IsSound (view w)
        → Fit (view w).job.spec.tasks
        → IsSound (view (rounds finish n w))
          × (plan_of (view (rounds finish n w)) ≡ rounds_of n (plan_of (view w)))
    rounds_lem zero w h fit = (h, refl)
    rounds_lem (suc n) w h fit =
        let r = round_lem w h fit in
        let (sound, planned) = rounds_lem n (round finish w) r.sound r.fits in
        (sound, planned ∙ ap (rounds_of n) r.planned)

    -- In a lawful cluster in which, between two reconciliations of a sound job whose actions are of
    -- a given kind, the job stays as it is and its running task is completed: a job of such actions
    -- that is not being deleted, has neither completed nor failed, has an ordered plan and tasks of
    -- the right names, and none of whose tasks has failed, has the condition Completed after two
    -- rounds more than it has actions, and after any greater number; then it has as many tasks as
    -- actions, and all are completed.
    pub rounds_complete_job :
        (n : ℕ) (w : World)
        → IsSound (view w)
        → Fit (view w).job.spec.tasks
        → phase_of_job (view w).job ≡ running
        → failures (steps_of (view w).tasks) ≡ 0
        → length (view w).job.spec.tasks + 1 < n
        → let v = view (rounds finish n w) in
          (has_condition v.job job_completed condition_true ≡ true)
          × (length v.tasks ≡ length v.job.spec.tasks)
          × (count_if is_open v.tasks ≡ 0)
    rounds_complete_job n w h fit r f l =
        let v = view (rounds finish n w) in
        let (sound, planned) = rounds_lem n w h fit in
        let phase =
          ap (λ (p : Plan). p.phase) planned
          ∙ rounds_complete n (plan_of (view w)) r f
              (unfinished-IsOrdered (plan_of (view w)) h.ordered).2 l in
        let (all_done, same) = subst (λ ph. Says ph (plan_of v)) phase sound.ordered.says in
        (
          completed_of_phase _ (has_condition v.job job_failed condition_true) phase,
          sym (length-steps_of v.tasks) ∙ same,
          sym (unfinished-steps_of v.tasks) ∙ all_done,
        )
