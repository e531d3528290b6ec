-- ===== src/Controller/Job/Scan.antt =====
-- What the loop over a Job's tasks finds.
use rufio.Prelude.{
  ℕ, suc, ◌+◌, ◌≡◌, refl, Bool, true, false, List, [], ◌∷◌, ◌++◌, length, All, arith, Bool-cases,
  inl, inr, if◌then◌else◌,
}
use rufio.Api.Machine.{condition_true}
use rufio.Api.Task.{Task, task_completed, task_failed, has_condition}
use rufio.Controller.Job.{Progress, all_completed, task_has_failed, in_progress, scan_tasks}

abbrev pub IsCompleted : Task → Type 0
IsCompleted t = has_condition t task_completed condition_true ≡ true

abbrev pub IsOpen : Task → Type 0
IsOpen t = has_condition t task_completed condition_true ≡ false

abbrev pub HasFailed : Task → Bool → Type 0
HasFailed t b = has_condition t task_failed condition_true ≡ b

-- `t` is the first task of the list that is not completed.
abbrev pub FirstOpen : List Task → Task → Type 0
FirstOpen items t =
    (before : List Task) × (after : List Task) × (items ≡ before ++ t ∷ after)
    × All IsCompleted before
    × IsOpen t

-- What each outcome of the loop says of the tasks, after `completed` tasks before them.
abbrev pub Meaning : ℕ → List Task → Progress → Type 0
Meaning completed items (all_completed n) = All IsCompleted items × (n ≡ completed + length items)
Meaning completed items (task_has_failed t) = FirstOpen items t × HasFailed t true
Meaning completed items in_progress = (t : Task) × FirstOpen items t × HasFailed t false

FirstOpen-cons :
    (x t : Task) (items : List Task) → IsCompleted x → FirstOpen items t → FirstOpen (x ∷ items) t
FirstOpen-cons x t items hx (before, after, e, h, o) = (x ∷ before, after, rw e, (hx, h), o)

Meaning-cons :
    (x : Task) (n : ℕ) (items : List Task) (p : Progress)
    → IsCompleted x
    → Meaning (suc n) items p
    → Meaning n (x ∷ items) p
Meaning-cons x n items (all_completed m) hx (h, e) = ((hx, h), omega arith)
Meaning-cons x n items (task_has_failed t) hx (o, f) = (FirstOpen-cons x t items hx o, f)
Meaning-cons x n items in_progress hx (t, o, f) = (t, FirstOpen-cons x t items hx o, f)

-- The loop over the owned tasks says that all are completed only if they are, and counts them; it
-- says that a task has failed only of the first that is not completed, and only if that one has
-- failed; and it waits only if the first that is not completed has not failed.
pub scan_tasks_sound :
    (completed : ℕ) (items : List Task) → Meaning completed items (scan_tasks completed items)
unfolding scan_tasks
scan_tasks_sound n [] = (tt, omega arith)
scan_tasks_sound n (x ∷ items) = elim (Bool-cases (has_condition x task_completed condition_true)) [
  | inl e ↦
      rw e (Meaning-cons x n items (scan_tasks (suc n) items) e (scan_tasks_sound (suc n) items))
  | inr e ↦ rw e (elim (Bool-cases (has_condition x task_failed condition_true)) [
    | inl f ↦ rw f (([], items, refl, tt, e), f)
    | inr f ↦ rw f (x, ([], items, refl, tt, e), f)
  ])
]

-- The other way round: where all are completed the loop says so, with their number.
pub scan_tasks-completed :
    (completed : ℕ) (items : List Task)
    → All IsCompleted items
    → scan_tasks completed items ≡ all_completed (completed + length items)
unfolding scan_tasks
scan_tasks-completed n [] h = ground arith
scan_tasks-completed n (x ∷ items) h =
    rw h.0 (rw (scan_tasks-completed (suc n) items h.1) (ground arith))

-- And the first that is not completed decides, whatever follows it.
pub scan_tasks-first_open :
    (completed : ℕ) (before : List Task) (t : Task) (after : List Task)
    → All IsCompleted before
    → IsOpen t
    → scan_tasks completed (before ++ t ∷ after)
      ≡ (if has_condition t task_failed condition_true then task_has_failed t else in_progress)
unfolding scan_tasks
scan_tasks-first_open n [] t after h o = rw o
scan_tasks-first_open n (x ∷ before) t after h o =
    rw h.0 (scan_tasks-first_open (suc n) before t after h.1 o)
