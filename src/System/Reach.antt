-- ===== src/System/Reach.antt =====
-- A job and its tasks under any interleaving of the reconciler of Jobs, the tasks, and the rest of
-- the cluster.
use rufio.Prelude.{◌≡◌, refl, ap, ◌∙◌, true, List, [], ◌∷◌, ◌++◌, ℕ, suc}
use mathlib.Core.Path.{subst}
use rufio.Api.Meta.{NamespacedName, ObjectMeta, is_zero}
use rufio.Api.Task.{Task}
use rufio.Api.Job.{Job}
use rufio.Controller.Env.{Env}
use rufio.Controller.Job.{reconcile}
use rufio.System.{running, phase_of_task, View, plan_of, steps_of, IsNamed, IsLawful}
use rufio.System.Plans.{IsOrdered, next-IsOrdered, change-IsOrdered}
use rufio.System.Refines.{reconcile_refines}
use rufio.System.Refines.Ready.{at}

-- A job that is not being deleted, with an ordered plan and tasks of the right names.
pub record IsSound (v : View) : Type 0 where
  pub live : is_zero v.job.object_meta.deletion_timestamp ≡ true
  pub named : IsNamed v.job 0 v.tasks
  pub ordered : IsOrdered (plan_of v)

-- A job that has just been created.
pub record IsNew (v : View) : Type 0 where
  pub alive : is_zero v.job.object_meta.deletion_timestamp ≡ true
  pub no_tasks : v.tasks ≡ []
  pub not_settled : (plan_of v).phase ≡ running

pub IsNew-IsSound : (v : View) → IsNew v → IsSound v
IsNew-IsSound v h = record {
  live = h.alive;
  named = rw h.no_tasks tt;
  ordered = record {
    prefix = rw h.no_tasks tt;
    serial = rw h.no_tasks tt;
    says = rw h.not_settled tt;
  };
}

pub steps_of-split :
    (before after : List Task) (t : Task)
    → steps_of (before ++ t ∷ after)
      ≡ steps_of before ++ (t.spec.task, phase_of_task t) ∷ steps_of after
steps_of-split [] after t = refl
steps_of-split (u ∷ before) after t = rw (steps_of-split before after t)

IsNamed-change :
    (j : Job) (i : ℕ) (t t' : Task) (before after : List Task)
    → t'.object_meta ≡ t.object_meta
    → IsNamed j i (before ++ t ∷ after)
    → IsNamed j i (before ++ t' ∷ after)
IsNamed-change j i t t' [] after e h = (ap (λ (m : ObjectMeta). m.name) e ∙ h.0, h.1)
IsNamed-change j i t t' (u ∷ before) after e h =
    (h.0, IsNamed-change j (suc i) t t' before after e h.1)

-- A running task gets another status.
pub change-IsSound :
    (v : View) (t t' : Task) (before after : List Task)
    → v.tasks ≡ before ++ t ∷ after
    → phase_of_task t ≡ running
    → t'.object_meta ≡ t.object_meta
    → t'.spec ≡ t.spec
    → IsSound v
    → IsSound (record v { tasks = before ++ t' ∷ after })
change-IsSound v t t' before after e r m p h =
    let same : steps_of before ++ (t.spec.task, phase_of_task t) ∷ steps_of after
        ≡ steps_of before ++ (t'.spec.task, running) ∷ steps_of after =
      rw (r, p) in
    let shown : steps_of v.tasks ≡ steps_of before ++ (t'.spec.task, running) ∷ steps_of after =
      ap steps_of e ∙ steps_of-split before after t ∙ same in
    let started = subst (λ ts. IsOrdered (record (plan_of v) { tasks = ts })) shown h.ordered in
    record {
      live = h.live;
      named = IsNamed-change v.job 0 t t' before after m (rw e at h.named);
      ordered = rw (steps_of-split before after t') (
          change-IsOrdered v.job.spec.tasks (plan_of v).phase t'.spec.task (phase_of_task t')
            (steps_of before) (steps_of after) started);
    }

module _ (env : Env) (req : NamespacedName) (law : IsLawful env req) where
  open env use {World, Bmc}
  open law use {view}

  -- A step of the cluster: a reconciliation of the job, a new status of a running task, or anything
  -- that leaves the job and its tasks alone.
  pub data Move : World → World → Type 0 where
    reconciles : (w : World) → Move w (reconcile env req (at env req law w)).1.world
    proceeds :
        (w w' : World) (t t' : Task) (before after : List Task)
        → (view w).tasks ≡ before ++ t ∷ after
        → phase_of_task t ≡ running
        → t'.object_meta ≡ t.object_meta
        → t'.spec ≡ t.spec
        → view w' ≡ record (view w) { tasks = before ++ t' ∷ after }
        → Move w w'
    elsewhere : (w w' : World) → view w' ≡ view w → Move w w'

  pub data Reach (s : World) : World → Type 0 where
    here : Reach s s
    later : {t u : World} → Reach s t → Move t u → Reach s u

  pub Move-IsSound : {w w' : World} → Move w w' → IsSound (view w) → IsSound (view w')
  Move-IsSound (reconciles w) h =
      let r = reconcile_refines env req law w h.live h.named h.ordered in
      record {
        live = ap (λ (m : ObjectMeta). is_zero m.deletion_timestamp) r.kept ∙ h.live;
        named = r.named;
        ordered = rw r.refined (next-IsOrdered (plan_of (view w)) h.ordered);
      }
  Move-IsSound (proceeds w w' t t' before after e r m p seen) h =
      rw seen (change-IsSound (view w) t t' before after e r m p h)
  Move-IsSound (elsewhere w w' seen) h = rw seen h

  Reach-IsSound : {w w' : World} → Reach w w' → IsSound (view w) → IsSound (view w')
  Reach-IsSound here h = h
  Reach-IsSound (later r m) h = Move-IsSound m (Reach-IsSound r h)

  -- In a lawful cluster (IsLawful: the job, its machine and its tasks are read fresh, tasks of new
  -- names are created, and patches of the job against the stored job succeed), from a new job, in
  -- any interleaving of reconciliations of the job, new statuses of running tasks and changes
  -- elsewhere: the tasks of the job are for the first of its actions, in their order, and have the
  -- names of FormatTaskName; each but the last is completed; where the job has the condition
  -- Completed, there is a completed task for each action; and where it has only the condition
  -- Failed, one task has failed.
  pub Reach-IsOrdered :
      {w w' : World}
      → Reach w w'
      → IsNew (view w)
      → IsNamed (view w').job 0 (view w').tasks × IsOrdered (plan_of (view w'))
  Reach-IsOrdered {w} r new =
      let h = Reach-IsSound r (IsNew-IsSound (view w) new) in (h.named, h.ordered)
