-- ===== src/System/Tasks/Ends.antt =====
-- Two reconciliations of a Task in an obedient cluster complete it, and so two of each task complete
-- the tasks of a job.
use mathlib.Core.List.{append_assoc}
use rufio.Prelude.{
  ℕ, ◌<◌, ◌≡◌, inl, inr, refl, sym, ap, ◌∙◌, subst, true, false, some, List, [], ◌∷◌, ◌++◌, arith,
  Bool-cases, All,
}
use rufio.Prelude.Text.{text_eq}
use rufio.Api.Meta.{NamespacedName, Time, is_zero}
use rufio.Api.Action.{Action}
use rufio.Api.Machine.{condition_true}
use rufio.Api.Task.{Task, TaskStatus, set_condition, has_condition, task_completed}
use rufio.Api.Task.Laws.{has_condition-set_condition_task}
use rufio.Controller.Env.{Env}
use rufio.Controller.Client.{new_client_func}
use rufio.Controller.Task.{mark_completed, mark_started, is_settled, reconcile}
use rufio.System.{View, running, completed, phase_of_task, plan_of, steps_of, IsLawful}
use rufio.System.Plans.{IsPrefix, IsOrdered, IsSerial-split}
use rufio.System.Refines.Ready.{at}
use rufio.System.Reach.{IsSound, steps_of-split, change-IsSound}
use rufio.System.Rounds.Plans.{finished, Finishes}
use rufio.System.Tasks.{key_of, IsAt, IsTaskLawful}
use rufio.System.Tasks.Steady.{IsAt-status}
use rufio.System.Tasks.Moves.{reconcile-settled_view}
use rufio.System.Tasks.Both.{IsNamed-IsAt, running_of}
use rufio.System.Tasks.Runs.{HasDevice}
use rufio.System.Tasks.Obedient.{IsObedient}
use rufio.System.Tasks.Advances.{with_task, reconcile-IsAdvance}

abbrev pub CanBoot : Action → Type 0
CanBoot a = HasDevice a.one_time_boot_device_action

pub phase-mark_completed_task :
    (t : Task) (now : Time) → phase_of_task (mark_completed t now) ≡ completed
unfolding mark_completed text_eq
phase-mark_completed_task t now = rw (
    has_condition-set_condition_task
      (record t { status = record t.status { completion_time = some now } }) task_completed
      task_completed condition_true condition_true [])

settled_of : (t : Task) → phase_of_task t ≡ completed → is_settled t ≡ true
unfolding is_settled
settled_of t h = ground arith

true_not_false : ¬ (true ≡ false)
true_not_false e = cc

finished-settled : (t : Task) → is_settled t ≡ true → phase_of_task t ≡ finished (phase_of_task t)
unfolding is_settled
finished-settled t h = ground arith

-- The task with the status of another.
abbrev with_status_of : Task → Task → Task
with_status_of t u = record t { status = u.status }

completed_at :
    (t : Task) (now : Time) → phase_of_task (with_status_of t (mark_completed t now)) ≡ completed
unfolding mark_completed set_condition
completed_at t now = phase-mark_completed_task t now

started_lem :
    (t : Task) (now : Time)
    → 0 < now
    → is_settled t ≡ false
    → let u = with_status_of t (mark_started t now) in
      (is_settled u ≡ false) × (is_zero u.status.start_time ≡ false)
unfolding mark_started is_settled has_condition
started_lem t now l h = (h, ground arith)

IsPrefix-All :
    (before after : List Task) (t : Task) (actions : List Action)
    → IsPrefix (steps_of (before ++ t ∷ after)) actions
    → All CanBoot actions
    → CanBoot t.spec.task
IsPrefix-All [] after t (a ∷ actions) h k = rw h.0 k.0
IsPrefix-All [] after t [] h k = absurd h
IsPrefix-All (u ∷ before) after t (a ∷ actions) h k = IsPrefix-All before after t actions h.1 k.1
IsPrefix-All (u ∷ before) after t [] h k = absurd h

no_steps : (after : List Task) → steps_of after ≡ [] → after ≡ []
no_steps [] h = refl
no_steps (t ∷ after) h = cc

running_last :
    (v : View) (before : List Task) (t : Task) (after : List Task)
    → v.tasks ≡ before ++ t ∷ after
    → phase_of_task t ≡ running
    → IsOrdered (plan_of v)
    → after ≡ []
running_last v before t after e r h =
    let shown : steps_of v.tasks ≡ steps_of before ++ (t.spec.task, running) ∷ steps_of after =
      ap steps_of e ∙ steps_of-split before after t ∙ rw r refl in
    no_steps after
      (IsSerial-split t.spec.task (steps_of before) (steps_of after) (rw shown at h.serial)).0

module _ (env : Env) (req : NamespacedName) (law : IsLawful env req)
    (tasks_law : IsTaskLawful env req law) (obedient : IsObedient env req law) (timeout : ℕ) where
  open env use {World}
  open law use {view}

  -- The task is reconciled.
  abbrev pub serve : Task → World → World
  serve t w = (reconcile env (new_client_func env timeout) (key_of t) (at env req law w)).1.world

  -- The view has a status of the task in which it is finished.
  abbrev IsFinished : View → List Task → Task → List Task → View → Type 0
  IsFinished v before t after v' =
      (status : TaskStatus) × (phase_of_task (record t { status = status })
        ≡ finished (phase_of_task t))
      × (v' ≡ record v { tasks = before ++ record t { status = status } ∷ after })

  serve-settled :
      (w : World) (before : List Task) (t : Task) (after : List Task)
      → IsAt (view w).tasks before t after
      → is_settled t ≡ true
      → view (serve t w) ≡ view w
  serve-settled w before t after placed h =
      reconcile-settled_view env req law tasks_law (λ _. Unit) (view w) before t after placed
        timeout w refl [] h

  serve-running :
      (w : World) (before : List Task) (t : Task)
      → IsAt (view w).tasks before t []
      → is_settled t ≡ false
      → CanBoot t.spec.task
      → IsFinished (view w) before t [] (view (serve t (serve t w)))
  serve-running w before t placed open_task boots =
      let r = running_of t open_task in
      elim (reconcile-IsAdvance env req law tasks_law obedient (view w) before t placed r timeout w
        refl boots open_task) [
          | inl (z, (now, positive, e)) ↦
              let t1 = with_status_of t (mark_started t now) in
              let (open1, started) = started_lem t now positive open_task in
              let placed1 : IsAt (view (serve t w)).tasks before t1 [] =
                rw e (IsAt-status _ before t [] _ placed) in
              elim (reconcile-IsAdvance env req law tasks_law obedient (view (serve t w)) before t1
                placed1 (running_of t1 open1) timeout (serve t w) refl boots open1) [
                  | inl (z1, _) ↦ absurd (true_not_false (sym z1 ∙ started))
                  | inr (now1, e1) ↦ (
                    (mark_completed t1 now1).status,
                    completed_at t1 now1 ∙ ap finished (sym r),
                    e1
                        ∙ ap
                            (λ (x : View). with_task x before t1 [] (mark_completed t1 now1).status)
                            e,
                  )
                ]
          | inr (now, e) ↦
              let t1 = with_status_of t (mark_completed t now) in
              let placed1 : IsAt (view (serve t w)).tasks before t1 [] =
                rw e (IsAt-status _ before t [] _ placed) in
              (
                (mark_completed t now).status,
                completed_at t now ∙ ap finished (sym r),
                serve-settled (serve t w) before t1 [] placed1 (settled_of t1 (completed_at t now))
                    ∙ e,
              )
        ]

  -- Two reconciliations of any task of the job.
  serve-twice :
      (w : World) (before : List Task) (t : Task) (after : List Task)
      → (view w).tasks ≡ before ++ t ∷ after
      → IsSound (view w)
      → All CanBoot (view w).job.spec.tasks
      → IsFinished (view w) before t after (view (serve t (serve t w)))
        × IsSound (view (serve t (serve t w)))
  serve-twice w before t after e h boots =
      let placed = IsNamed-IsAt (view w).job (view w).tasks before t after e h.named in
      elim (Bool-cases (is_settled t)) [
        | inl settled ↦
            let kept = serve-settled w before t after placed settled in
            let same = serve-settled (serve t w) before t after (rw kept placed) settled ∙ kept in
            (
              (
                t.status,
                finished-settled t settled,
                same ∙ ap (λ l. record (view w) { tasks = l }) e,
              ),
              rw same h,
            )
        | inr open_task ↦
            let r = running_of t open_task in
            let last = running_last (view w) before t after e r h.ordered in
            let boot =
              IsPrefix-All before after t (view w).job.spec.tasks (rw e at h.ordered.prefix)
                boots in
            let (status, p, seen) =
              subst (λ l. IsFinished (view w) before t l (view (serve t (serve t w)))) (sym last)
                (serve-running w before t (rw last at placed) open_task boot) in
            (
              (status, p, seen),
              rw seen (
                  change-IsSound (view w) t (record t { status = status }) before after e r refl
                    refl h),
            )
      ]

  -- Each of the tasks is reconciled twice.
  abbrev pub serve_each : List Task → World → World
  serve_each [] w = w
  serve_each (t ∷ tasks) w = serve_each tasks (serve t (serve t w))

  -- The tasks of the job are reconciled, each twice.
  abbrev pub serve_all : World → World
  serve_all w = serve_each (view w).tasks w

  serve_each-Finishes :
      (w : World) (before tasks : List Task)
      → (view w).tasks ≡ before ++ tasks
      → IsSound (view w)
      → All CanBoot (view w).job.spec.tasks
      → ((view (serve_each tasks w)).job ≡ (view w).job)
        × ((us : List Task) × Finishes tasks us
            × ((view (serve_each tasks w)).tasks ≡ before ++ us))
  serve_each-Finishes w before [] e h boots = (refl, ([], tt, e))
  serve_each-Finishes w before (t ∷ tasks) e h boots =
      let ((status, p, seen), sound) = serve-twice w before t tasks e h boots in
      let t' = record t { status = status } in
      let same_job = ap (λ (x : View). x.job) seen in
      let shown = ap (λ (x : View). x.tasks) seen ∙ sym (append_assoc before (t' ∷ []) tasks) in
      let (kept, (us, f, u)) =
        serve_each-Finishes (serve t (serve t w)) (before ++ t' ∷ []) tasks shown sound
          (rw same_job boots) in
      (kept ∙ same_job, (t' ∷ us, (refl, refl, p, f), u ∙ append_assoc before (t' ∷ []) us))

  -- Two reconciliations of each task of a job with an ordered plan, whose boot actions name a
  -- device, in an obedient cluster: the job is as it was, and its running task is completed.
  pub serve_all-Finishes :
      (w : World)
      → IsSound (view w)
      → All CanBoot (view w).job.spec.tasks
      → ((view (serve_all w)).job ≡ (view w).job)
        × Finishes (view w).tasks (view (serve_all w)).tasks
  serve_all-Finishes w h boots =
      let (kept, (us, f, u)) = serve_each-Finishes w [] (view w).tasks refl h boots in
      (kept, rw u f)
