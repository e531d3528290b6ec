-- ===== src/System/Tasks/Both.antt =====
-- A job in a cluster in which the reconcilers of Jobs and of Tasks both run, on any of the job's
-- tasks and in any order.
use rufio.Prelude.{
  ℕ, suc, ◌+◌, ◌≡◌, ◌<◌, inl, inr, refl, sym, ap, ◌∙◌, false, List, [], ◌∷◌, ◌++◌, length, arith,
  Bool-cases,
}
use rufio.Api.Meta.{NamespacedName}
use rufio.Api.Task.{Task}
use rufio.Api.Job.{Job, format_task_name}
use rufio.Api.Job.Names.{format_task_name-injective}
use rufio.Controller.Env.{Env}
use rufio.Controller.Client.{new_client_func}
use rufio.Controller.Task.{is_settled, reconcile}
use rufio.Controller.Job
use rufio.System.{running, phase_of_task, plan_of, IsNamed, IsFresh, IsLawful}
use rufio.System.Plans.{IsOrdered}
use rufio.System.Refines.Ready.{at}
use rufio.System.Reach.{IsSound, IsNew, IsNew-IsSound, Move, Move-IsSound}
use rufio.System.Tasks.{key_of, IsAt, IsTaskLawful}
use rufio.System.Tasks.Steady.{MayWrite}
use rufio.System.Tasks.Moves.{reconcile-settled_view, reconcile-IsStep}

-- The names of the tasks before a task, and after it, differ from its own.
IsNamed-later :
    (j : Job) (i n : ℕ) (tasks : List Task)
    → IsNamed j i tasks
    → n < i
    → IsFresh (format_task_name j n) tasks
IsNamed-later j i n [] h l = tt
IsNamed-later j i n (t ∷ tasks) h l = (
  λ p. absurd (omega (arith, (format_task_name-injective j j i n (sym h.0 ∙ p)).1)),
  IsNamed-later j (suc i) n tasks h.1 (omega arith),
)

IsNamed-IsFresh :
    (j : Job) (i : ℕ) (before : List Task) (t : Task) (after : List Task)
    → IsNamed j i (before ++ t ∷ after)
    → (t.object_meta.name ≡ format_task_name j (i + length before))
      × IsFresh t.object_meta.name before
      × IsFresh t.object_meta.name after
IsNamed-IsFresh j i [] t after h = (
  h.0 ∙ ap (format_task_name j) (omega arith),
  tt,
  rw h.0 (IsNamed-later j (suc i) i after h.1 (omega arith)),
)
IsNamed-IsFresh j i (u ∷ before) t after h =
    let (name, fresh, later) = IsNamed-IsFresh j (suc i) before t after h.1 in
    (
      name ∙ ap (format_task_name j) (omega arith),
      (
        λ p. absurd (
            omega (
              arith,
              (format_task_name-injective j j i (suc i + length before) (sym h.0 ∙ p ∙ name)).1,
            )),
        fresh,
      ),
      later,
    )

pub IsNamed-IsAt :
    (j : Job) (tasks before : List Task) (t : Task) (after : List Task)
    → tasks ≡ before ++ t ∷ after
    → IsNamed j 0 tasks
    → IsAt tasks before t after
IsNamed-IsAt j tasks before t after e h =
    let (name, fresh, later) = IsNamed-IsFresh j 0 before t after (rw e at h) in
    record { split = e; fresh_before = fresh; fresh_after = later }

-- A task that is not settled is running.
pub running_of : (t : Task) → is_settled t ≡ false → phase_of_task t ≡ running
unfolding is_settled
running_of t h = ground arith

module _ (env : Env) (req : NamespacedName) (law : IsLawful env req)
    (tasks_law : IsTaskLawful env req law) where
  open env use {World, Bmc}
  open law use {view}

  pub anything : (t : Task) → MayWrite t (λ _. Unit)
  anything t = record {
    failing = λ m. tt;
    start_failing = λ z now m. tt;
    starting = λ z now. tt;
    completing = λ now. tt;
  }

  -- A reconciliation of the job, a reconciliation of one of its tasks, or anything that leaves the
  -- job and its tasks alone.
  pub data Act : World → World → Type 0 where
    job_reconciled : (w : World) → Act w (Job.reconcile env req (at env req law w)).1.world
    task_reconciled :
        (timeout : ℕ) (w : World) (before : List Task) (t : Task) (after : List Task)
        → (view w).tasks ≡ before ++ t ∷ after
        → Act w (reconcile env (new_client_func env timeout) (key_of t) (at env req law w)).1.world
    elsewhere : (w w' : World) → view w' ≡ view w → Act w w'

  pub data Acts (s : World) : World → Type 0 where
    here : Acts s s
    later : {t u : World} → Acts s t → Act t u → Acts s u

  task-Move :
      (timeout : ℕ) (w : World) (before : List Task) (t : Task) (after : List Task)
      → (view w).tasks ≡ before ++ t ∷ after
      → IsSound (view w)
      → Move env req law w
          (reconcile env (new_client_func env timeout) (key_of t) (at env req law w)).1.world
  task-Move timeout w before t after e h =
      let placed = IsNamed-IsAt (view w).job (view w).tasks before t after e h.named in
      elim (Bool-cases (is_settled t)) [
        | inl settled ↦ Move.elsewhere w _ (
            reconcile-settled_view env req law tasks_law (λ _. Unit) (view w) before t after placed
              timeout w refl [] settled)
        | inr open_task ↦
            elim (reconcile-IsStep env req law tasks_law (λ _. Unit) (view w) before t after placed
              timeout w refl [] (anything t) open_task) [
                | inl kept ↦ Move.elsewhere w _ kept
                | inr (status, _, seen) ↦
                    Move.proceeds w _ t (record t { status = status }) before after e
                      (running_of t open_task) refl refl seen
              ]
      ]

  Acts-IsSound : {w w' : World} → Acts w w' → IsSound (view w) → IsSound (view w')
  Acts-IsSound here h = h
  Acts-IsSound (later r (job_reconciled w)) h =
      Move-IsSound env req law (Move.reconciles w) (Acts-IsSound r h)
  Acts-IsSound (later r (task_reconciled timeout w before t after e)) h =
      let k = Acts-IsSound r h in
      Move-IsSound env req law (task-Move timeout w before t after e k) k
  Acts-IsSound (later r (elsewhere w w' seen)) h =
      Move-IsSound env req law (Move.elsewhere w w' seen) (Acts-IsSound r h)

  -- In a lawful cluster (IsLawful: the job, its machine and its tasks are read fresh, tasks of new
  -- names are created, and patches of the job against the stored job succeed; IsTaskLawful: tasks
  -- are read fresh, and a patch of a task against the stored task is written or changes nothing),
  -- from a new job, in any interleaving of reconciliations of the job and of its tasks, whatever
  -- the machine and the clock answer, and changes elsewhere: the tasks of the job are for the first
  -- of its actions, in their order, and have the names of FormatTaskName; each but the last is
  -- completed; where the job has the condition Completed, there is a completed task for each
  -- action; and where it has only the condition Failed, one task has failed.
  pub Acts-IsOrdered :
      {w w' : World}
      → Acts w w'
      → IsNew (view w)
      → IsNamed (view w').job 0 (view w').tasks × IsOrdered (plan_of (view w'))
  Acts-IsOrdered {w} r new =
      let h = Acts-IsSound r (IsNew-IsSound (view w) new) in (h.named, h.ordered)
