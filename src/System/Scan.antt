-- ===== src/System/Scan.antt =====
-- What the loop over a Job's tasks comes to does not depend on the order in which they are listed,
-- where at most one is not completed.
use rufio.Prelude.{
  ℕ, suc, ◌≡◌, ◌≤◌, refl, Bool, true, false, not, ◌&&◌, List, [], ◌∷◌, ◌++◌, All, arith, count_if,
  length, Bool-cases, inl, inr,
}
use rufio.Api.Machine.{condition_true}
use rufio.Api.Task.{Task, task_completed, task_failed, has_condition}
use rufio.Controller.Job.{task_has_failed, in_progress, scan_tasks}
use rufio.Controller.Job.Scan.{IsCompleted}
use rufio.System.{is_unfinished, is_failed, unfinished, failures, phase_of, phase_of_task, steps_of}

abbrev pub is_done : Task → Bool
is_done t = has_condition t task_completed condition_true

abbrev pub is_open : Task → Bool
is_open t = is_unfinished (phase_of_task t)

abbrev pub has_failed : Task → Bool
has_failed t = is_failed (phase_of_task t)

is_unfinished-phase_of : (a b : Bool) → is_unfinished (phase_of a b) ≡ not a
is_unfinished-phase_of true b = refl
is_unfinished-phase_of false true = refl
is_unfinished-phase_of false false = refl

is_failed-phase_of : (a b : Bool) → is_failed (phase_of a b) ≡ not a && b
is_failed-phase_of true b = refl
is_failed-phase_of false true = refl
is_failed-phase_of false false = refl

pub All-IsCompleted : (items : List Task) → count_if is_open items ≡ 0 → All IsCompleted items
All-IsCompleted [] h = tt
All-IsCompleted (t ∷ items) h =
    let e = is_unfinished-phase_of (is_done t) (has_condition t task_failed condition_true) in
    elim (Bool-cases (is_done t)) [
      | inl d ↦ (d, All-IsCompleted items (ground arith))
      | inr d ↦ ground arith
    ]

has_failed-le-is_open : (items : List Task) → count_if has_failed items ≤ count_if is_open items
has_failed-le-is_open [] = omega arith
has_failed-le-is_open (t ∷ items) = ground (arith, has_failed-le-is_open items)

-- The first task that is not completed is the only one: it is still running.
pub scan-waits :
    (n : ℕ) (items : List Task)
    → count_if is_open items ≡ 1
    → count_if has_failed items ≡ 0
    → scan_tasks n items ≡ in_progress
unfolding scan_tasks
scan-waits n [] h k = ground arith
scan-waits n (t ∷ items) h k = elim (Bool-cases (is_done t)) [
  | inl d ↦ rw d (scan-waits (suc n) items (ground arith) (ground arith))
  | inr d ↦ rw d (ground arith)
]

-- Or it has failed.
pub scan-fails :
    (n : ℕ) (items : List Task)
    → count_if is_open items ≡ 1
    → count_if has_failed items ≡ 1
    → (t : Task) × (scan_tasks n items ≡ task_has_failed t)
unfolding scan_tasks
scan-fails n [] h k = absurd (omega arith)
scan-fails n (t ∷ items) h k = elim (Bool-cases (is_done t)) [
  | inl d ↦ rw d (scan-fails (suc n) items (ground arith) (ground arith))
  | inr d ↦ (t, rw d (ground (arith, has_failed-le-is_open items)))
]

-- The counts of a plan are those of its tasks.
pub unfinished-steps_of : (tasks : List Task) → unfinished (steps_of tasks) ≡ count_if is_open tasks
unfinished-steps_of [] = refl
unfinished-steps_of (t ∷ tasks) = ground (arith, unfinished-steps_of tasks)

pub failures-steps_of : (tasks : List Task) → failures (steps_of tasks) ≡ count_if has_failed tasks
failures-steps_of [] = refl
failures-steps_of (t ∷ tasks) = ground (arith, failures-steps_of tasks)

pub length-steps_of : (tasks : List Task) → length (steps_of tasks) ≡ length tasks
length-steps_of [] = refl
length-steps_of (t ∷ tasks) = omega (arith, length-steps_of tasks)

pub steps_of-append :
    (tasks : List Task) (t : Task)
    → steps_of (tasks ++ t ∷ []) ≡ steps_of tasks ++ (t.spec.task, phase_of_task t) ∷ []
steps_of-append [] t = refl
steps_of-append (u ∷ tasks) t = rw (steps_of-append tasks t)

-- The number of tasks is a count too.
pub length-count_if : (tasks : List Task) → count_if (λ t. true) tasks ≡ length tasks
length-count_if [] = refl
length-count_if (t ∷ tasks) = omega (arith, length-count_if tasks)
