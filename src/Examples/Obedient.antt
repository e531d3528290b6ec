-- ===== src/Examples/Obedient.antt =====
-- A cluster whose machine can be reached and does what it is told: its tasks are found and patched by
-- name, and the power state that it reports is the one that the last task asks for.
use rufio.Prelude.{
  ◌≡◌, refl, sym, ap, ◌∙◌, subst, inl, inr, true, false, ◌||◌, Option, none, some, List, [], ◌∷◌,
  ◌++◌, if◌then◌else◌, All, arith, Bool-cases,
}
use rufio.Prelude.Text.{Text, codes, text_eq, text_eq_refl, eq_of_text_eq}
use rufio.Api.Meta.{is_zero}
use rufio.Api.Action.{PowerAction, power_on, power_hard_off, power_soft_off}
use rufio.Api.Machine.{on, off}
use rufio.Api.Task.{Task, TaskStatus}
use rufio.Controller.Error.{external, Result, ok, err}
use rufio.Controller.Env.{Env}
use rufio.Controller.Kube.{credentials, to_power_state}
use rufio.Controller.Task.Outcomes.{reached}
use rufio.System.{IsFresh, IsLawful}
use rufio.System.Tasks.{IsAt, IsTaskLawful}
use rufio.System.Tasks.Obedient.{IsObedient}
use rufio.System.Tasks.Begun.{IsKept}
use rufio.Examples.Cluster.{Cluster, get_controller_of-IsGetControllerOf}
use rufio.Examples.Lawful.{read_job, typed_env, req}

-- A task that is not being deleted.
abbrev alive : Task → Task
alive t = record t { object_meta = record t.object_meta { deletion_timestamp = none } }

abbrev pub alive_all : List Task → List Task
alive_all [] = []
alive_all (t ∷ tasks) = alive t ∷ alive_all tasks

abbrev with_new_status : Text → TaskStatus → List Task → List Task
with_new_status name status [] = []
with_new_status name status (t ∷ tasks) =
    (if text_eq t.object_meta.name name then record t { status = status } else t)
    ∷ with_new_status name status tasks

abbrev find_task : Text → List Task → Result Task
find_task name [] = err (external (codes "not found"))
find_task name (t ∷ tasks) = if text_eq t.object_meta.name name then ok t else find_task name tasks

-- The power state that an action asks for.
abbrev answer : Option PowerAction → Text
answer none = codes "on"
answer (some p) =
    if text_eq p power_hard_off || text_eq p power_soft_off then codes "off" else codes "on"

abbrev last_answer : List Task → Text
last_answer [] = codes "on"
last_answer (t ∷ []) = answer t.spec.task.power_action
last_answer (t ∷ u ∷ tasks) = last_answer (u ∷ tasks)

abbrev root_login : List (Text × Text)
root_login = (codes "username", codes "root") ∷ (codes "password", codes "calvin") ∷ []

abbrev pub obedient_env : Env
obedient_env = record typed_env {
  get_task = λ k w. (find_task k.name (alive_all w.tasks), w);
  get_secret = λ k w. (ok root_login, w);
  list_tasks = λ name namespace w. (ok (alive_all w.tasks), w);
  patch_task_status = λ t original w.
      (none, record w { tasks = with_new_status t.object_meta.name t.status w.tasks });
  now = λ w. (200, w);
  get_power_state = λ b w. (ok (last_answer (alive_all w.tasks)), w);
}

text_eq-false : (s t : Text) → ¬ (s ≡ t) → text_eq s t ≡ false
text_eq-false s t h = elim (Bool-cases (text_eq s t)) [
  | inl e ↦ absurd (h (eq_of_text_eq s t e))
  | inr e ↦ e
]

alive_lem : (t : Task) → t.object_meta.deletion_timestamp ≡ none → alive t ≡ t
alive_lem t e =
    λ i. record t { object_meta = record t.object_meta { deletion_timestamp = sym e i } }

pub alive_all-append :
    (tasks : List Task) (t : Task)
    → t.object_meta.deletion_timestamp ≡ none
    → alive_all (tasks ++ t ∷ []) ≡ alive_all tasks ++ t ∷ []
alive_all-append [] t e = ap (λ u. u ∷ []) (alive_lem t e)
alive_all-append (u ∷ tasks) t e = ap (λ l. alive u ∷ l) (alive_all-append tasks t e)

alive_all-with_new_status :
    (name : Text) (status : TaskStatus) (tasks : List Task)
    → alive_all (with_new_status name status tasks) ≡ with_new_status name status (alive_all tasks)
alive_all-with_new_status name status [] = refl
alive_all-with_new_status name status (t ∷ tasks) =
    elim (Bool-cases (text_eq t.object_meta.name name)) [
      | inl e ↦ rw e (
          ap (λ l. record (alive t) { status = status } ∷ l)
            (alive_all-with_new_status name status tasks))
      | inr e ↦ rw e (ap (λ l. alive t ∷ l) (alive_all-with_new_status name status tasks))
    ]

with_new_status-fresh :
    (name : Text) (status : TaskStatus) (tasks : List Task)
    → IsFresh name tasks
    → with_new_status name status tasks ≡ tasks
with_new_status-fresh name status [] h = refl
with_new_status-fresh name status (t ∷ tasks) h =
    rw (text_eq-false t.object_meta.name name h.0)
      (ap (λ l. t ∷ l) (with_new_status-fresh name status tasks h.1))

with_new_status-split :
    (status : TaskStatus) (before : List Task) (t : Task) (after : List Task)
    → IsFresh t.object_meta.name before
    → IsFresh t.object_meta.name after
    → with_new_status t.object_meta.name status (before ++ t ∷ after)
      ≡ before ++ record t { status = status } ∷ after
with_new_status-split status [] t after h k =
    rw (text_eq_refl t.object_meta.name)
      (ap (λ l. record t { status = status } ∷ l) (with_new_status-fresh _ status after k))
with_new_status-split status (u ∷ before) t after h k =
    rw (text_eq-false u.object_meta.name t.object_meta.name h.0)
      (ap (λ l. u ∷ l) (with_new_status-split status before t after h.1 k))

find_task-split :
    (before : List Task) (t : Task) (after : List Task)
    → IsFresh t.object_meta.name before
    → find_task t.object_meta.name (before ++ t ∷ after) ≡ ok t
find_task-split [] t after h = rw (text_eq_refl t.object_meta.name) refl
find_task-split (u ∷ before) t after h =
    rw (text_eq-false u.object_meta.name t.object_meta.name h.0)
      (find_task-split before t after h.1)

abbrev IsAlive : Task → Type 0
IsAlive t = is_zero t.object_meta.deletion_timestamp ≡ true

alive_all-IsAlive : (tasks : List Task) → All IsAlive (alive_all tasks)
alive_all-IsAlive [] = tt
alive_all-IsAlive (t ∷ tasks) = (refl, alive_all-IsAlive tasks)

All-split :
    (before : List Task) (t : Task) (after : List Task)
    → All IsAlive (before ++ t ∷ after)
    → IsAlive t
All-split [] t after h = h.0
All-split (u ∷ before) t after h = All-split before t after h.1

last_answer-append :
    (before : List Task) (t : Task)
    → last_answer (before ++ t ∷ []) ≡ answer t.spec.task.power_action
last_answer-append [] t = refl
last_answer-append (u ∷ []) t = refl
last_answer-append (u ∷ v ∷ before) t = last_answer-append (v ∷ before) t

reads_on : to_power_state (codes "on") ≡ on
unfolding to_power_state
reads_on = refl

reads_off : to_power_state (codes "off") ≡ off
unfolding to_power_state
reads_off = refl

power_on-is_on :
    (p : PowerAction)
    → text_eq p power_on ≡ true
    → text_eq p power_hard_off || text_eq p power_soft_off ≡ false
unfolding text_eq
power_on-is_on p e = rw (eq_of_text_eq p power_on e) refl

reached-answer :
    (b : Text) (p : PowerAction)
    → reached obedient_env b p (to_power_state (answer (some p))) ≡ true
reached-answer b p = elim (Bool-cases (text_eq p power_on)) [
  | inl e ↦ rw (e, power_on-is_on p e, reads_on) (text_eq_refl on)
  | inr e ↦ elim (Bool-cases (text_eq p power_hard_off || text_eq p power_soft_off)) [
    | inl o ↦ rw (e, o, reads_off) (text_eq_refl off)
    | inr o ↦ rw (e, o) refl
  ]
]

abbrev pub obeys : IsLawful obedient_env req
obeys = record {
  view = λ w. record { job = read_job w; tasks = alive_all w.tasks };
  controller_of = get_controller_of-IsGetControllerOf;
  kind = λ w. refl;
  api_version = λ w. refl;
  get_job_result = λ w. refl;
  get_job_view = λ w. refl;
  get_machine_result = λ k w. (w.machine, refl);
  get_machine_view = λ k w. refl;
  now_view = λ w. refl;
  list_tasks_result = λ name namespace w e f. (alive_all w.tasks, refl, λ p. refl);
  list_tasks_view = λ name namespace w. refl;
  create_task_lem = λ t w fresh indexed placed e.
      (refl, ap (λ l. record { job = read_job w; tasks = l }) (alive_all-append w.tasks t e));
  patch_job_status_lem = λ j original w base. (refl, refl);
}

patched_lem :
    (u : Task) (w : Cluster) (before : List Task) (t : Task) (after : List Task)
    → IsAt (alive_all w.tasks) before t after
    → u.object_meta ≡ t.object_meta
    → alive_all (with_new_status u.object_meta.name u.status w.tasks)
      ≡ before ++ record t { status = u.status } ∷ after
patched_lem u w before t after h m =
    alive_all-with_new_status u.object_meta.name u.status w.tasks
    ∙ rw (m, h.split) (with_new_status-split u.status before t after h.fresh_before h.fresh_after)

pub obeys-IsTaskLawful : IsTaskLawful obedient_env req obeys
obeys-IsTaskLawful = record {
  get_task_result =
      λ w before t after h. rw h.split (find_task-split before t after h.fresh_before);
  patch_task_status_view = λ u w before t after h m.
      inr (ap (λ l. record { job = read_job w; tasks = l }) (patched_lem u w before t after h m));
  get_task_view = λ k w. refl;
  get_secret_view = λ k w. refl;
  open_client_view = λ timeout b w. refl;
  close_client_view = λ b w. refl;
  get_power_state_view = λ b w. refl;
  set_power_state_view = λ p b w. refl;
  set_boot_device_view = λ d persistent efi b w. refl;
  set_virtual_media_view = λ kind url b w. refl;
}

read_credentials : credentials root_login ≡ ok (codes "root", codes "calvin")
unfolding credentials text_eq
read_credentials = refl

pub obeys-IsObedient : IsObedient obedient_env req obeys
obeys-IsObedient = record {
  result_is_zero = refl;
  get_secret_result = λ k w. (root_login, codes "root", codes "calvin", refl, read_credentials);
  open_client_result = λ timeout b w. refl;
  set_power_state_result = λ p b w. tt;
  set_boot_device_result = λ d persistent efi b w. tt;
  set_virtual_media_result = λ kind url b w. tt;
  get_power_state_result = λ b w before t p e r a. (
    last_answer (alive_all w.tasks),
    refl,
    rw (e, last_answer-append before t, a) (reached-answer b p),
  );
  now_positive = λ w. omega arith;
  now_prompt = λ w before t s e r h. omega arith;
  not_deleted = λ w before t after e.
      All-split before t after (subst (All IsAlive) e (alive_all-IsAlive w.tasks));
  patch_task_status_lem = λ u w before t after h m.
      (refl, ap (λ l. record { job = read_job w; tasks = l }) (patched_lem u w before t after h m));
}

pub obeys-IsKept : IsKept obedient_env req obeys
obeys-IsKept = record {
  patch_task_status_written = λ u w before t after h m.
      ap (λ l. record { job = read_job w; tasks = l }) (patched_lem u w before t after h m);
  now_positive = λ w. omega arith;
}
