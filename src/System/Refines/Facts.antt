-- ===== src/System/Refines/Facts.antt =====
-- What a change of a job's status or a new task is in the plan.
use rufio.Prelude.{
  ℕ, suc, ◌+◌, ◌≡◌, ◌≤◌, refl, ap, sym, ◌∙◌, false, List, [], ◌∷◌, ◌++◌, arith, length, Bool-cases,
  inl, inr,
}
use rufio.Prelude.Text.{Text}
use rufio.Api.Meta.{Time}
use rufio.Api.Action.{Action}
use rufio.Api.Conditions.{check_condition}
use rufio.Api.ProviderOpts.{Connection}
use rufio.Api.Machine.{condition_true}
use rufio.Api.Task.{Task, task_completed, task_failed}
use rufio.Api.Task
use rufio.Api.Job.{Job, job_completed, job_failed, job_running, has_condition, format_task_name}
use rufio.Api.Job.Names.{format_task_name-injective}
use rufio.Controller.Env.{Env}
use rufio.Controller.Exec.{State}
use rufio.Controller.Job.{mark_completed, mark_failed, owned_task}
use rufio.Controller.Job.Runs.{started}
use rufio.Controller.Job.Status.{
  mark_failed-failed, mark_failed-completed, mark_completed-completed, mark_running-completed,
  mark_running-failed,
}
use rufio.System.{
  running, completed, failed, phase_of_job, phase_of_task, View, plan_of, steps_of, IsNamed,
  IsFresh,
}
use rufio.System.Scan.{steps_of-append}
use rufio.System.Effects.{with_status}

pub plan_of-with_status :
    (v : View) (j : Job) → plan_of (with_status v j) ≡ record (plan_of v) { phase = phase_of_job j }
unfolding has_condition
plan_of-with_status v j = refl

pub phase-mark_completed : (j : Job) (now : Time) → phase_of_job (mark_completed j now) ≡ completed
phase-mark_completed j now = rw (mark_completed-completed j now)

pub phase-mark_failed :
    (j : Job) (m : Text)
    → has_condition j job_completed condition_true ≡ false
    → phase_of_job (mark_failed j m) ≡ failed
phase-mark_failed j m h = rw (mark_failed-failed j m, mark_failed-completed j m, h)

-- The start of a job changes neither condition.
pub started-conditions :
    (env : Env) (job : Job) (s : State env.World env.Bmc)
    → (has_condition (started env job s).0 job_completed condition_true
        ≡ has_condition job job_completed condition_true)
      × (has_condition (started env job s).0 job_failed condition_true
          ≡ has_condition job job_failed condition_true)
started-conditions env job s = elim (Bool-cases (has_condition job job_running condition_true)) [
  | inl e ↦ rw e (refl, refl)
  | inr e ↦ rw e (mark_running-completed job _, mark_running-failed job _)
]

pub phase-owned_task :
    (j : Job) (n : ℕ) (a : Action) (c : Connection) → phase_of_task (owned_task j n a c) ≡ running
unfolding owned_task Task.has_condition check_condition
phase-owned_task j n a c = refl

pub IsNamed-same :
    (j k : Job) (i : ℕ) (tasks : List Task)
    → j.object_meta.name ≡ k.object_meta.name
    → IsNamed j i tasks
    → IsNamed k i tasks
unfolding format_task_name
IsNamed-same j k i [] e h = tt
IsNamed-same j k i (t ∷ tasks) e h = (rw (← e) h.0, IsNamed-same j k (suc i) tasks e h.1)

pub IsNamed-append :
    (j : Job) (i n : ℕ) (tasks : List Task) (t : Task)
    → IsNamed j i tasks
    → i + length tasks ≡ n
    → t.object_meta.name ≡ format_task_name j n
    → IsNamed j i (tasks ++ t ∷ [])
IsNamed-append j i n [] t h e k = let e' : i ≡ n = omega arith in (rw e' k, tt)
IsNamed-append j i n (u ∷ tasks) t h e k =
    (h.0, IsNamed-append j (suc i) n tasks t h.1 (omega arith) k)

-- The name of the next task is not taken.
pub IsFresh-IsNamed :
    (j : Job) (i n : ℕ) (tasks : List Task)
    → IsNamed j i tasks
    → i + length tasks ≤ n
    → IsFresh (format_task_name j n) tasks
IsFresh-IsNamed j i n [] h e = tt
IsFresh-IsNamed j i n (t ∷ tasks) h e = (
  λ p. absurd (omega (arith, (format_task_name-injective j j i n (sym h.0 ∙ p)).1)),
  IsFresh-IsNamed j (suc i) n tasks h.1 (omega arith),
)

-- Two jobs of one name give their tasks the same names.
pub format_task_name-same :
    (j k : Job) (n : ℕ)
    → j.object_meta.name ≡ k.object_meta.name
    → format_task_name j n ≡ format_task_name k n
unfolding format_task_name
format_task_name-same j k n e = rw e

pub steps_of-owned_task :
    (j : Job) (n : ℕ) (a : Action) (c : Connection) (tasks : List Task)
    → steps_of (tasks ++ owned_task j n a c ∷ []) ≡ steps_of tasks ++ (a, running) ∷ []
unfolding owned_task
steps_of-owned_task j n a c tasks =
    steps_of-append tasks (owned_task j n a c)
    ∙ ap (λ ph. steps_of tasks ++ (a, ph) ∷ []) (phase-owned_task j n a c)
