-- ===== src/System/Tasks/Once.antt =====
-- The life of a Task in a cluster that keeps what is patched: its action is run at most once.
use rufio.Prelude.{
  ℕ, ◌+◌, ◌≤◌, ◌≡◌, ◌⊎◌, inl, inr, refl, sym, ap, ◌∙◌, subst, true, false, List, arith, Bool-cases,
}
use rufio.Api.Meta.{NamespacedName, ObjectMeta, is_zero}
use rufio.Api.Task.{Task, TaskStatus, set_condition}
use rufio.Controller.Error.{Result, ok}
use rufio.Controller.Env.{Env}
use rufio.Controller.Exec.{State}
use rufio.Controller.Exec.Keeps.{is_action, calls_of}
use rufio.Controller.Client.{new_client_func}
use rufio.Controller.Task.{mark_completed, is_settled, reconcile}
use rufio.Controller.Task.Actions.{reconcile-no_action}
use rufio.System.{IsLawful}
use rufio.System.Tasks.{key_of, IsAt, IsTaskLawful}
use rufio.System.Tasks.Runs.{HasDevice}
use rufio.System.Tasks.Steady.{MayWrite, IsStep, IsAt-status}
use rufio.System.Tasks.Moves.{reconcile-settled_view, reconcile-IsStep}
use rufio.System.Tasks.Both.{anything}
use rufio.System.Tasks.Begun.{IsKept, IsBegun, parts, mark_failed-start_time}
use rufio.System.Tasks.Begins.{reconcile_begins}

mark_completed-start_time :
    (t : Task) (now : ℕ) → (mark_completed t now).status.start_time ≡ t.status.start_time
unfolding mark_completed set_condition
mark_completed-start_time t now = refl

true_not_false : ¬ (true ≡ false)
true_not_false e = cc

-- What may be written of a task with a start time has it too.
IsBegun-MayWrite : (t : Task) → IsBegun t.status → MayWrite t IsBegun
IsBegun-MayWrite t b = record {
  failing = λ m. rw (mark_failed-start_time t m) b;
  start_failing = λ z now m. absurd (true_not_false (sym z ∙ b));
  starting = λ z now. absurd (true_not_false (sym z ∙ b));
  completing = λ now. rw (mark_completed-start_time t now) b;
}

ok-injective : {A : Type 0} (a b : A) → Path (Result A) (ok a) (ok b) → a ≡ b
ok-injective a b e = cc

module _ (env : Env) (req : NamespacedName) (law : IsLawful env req)
    (tasks_law : IsTaskLawful env req law) (kept : IsKept env req law) where
  open env use {World, Bmc}
  open law use {view}

  -- The job's task of that name is `t`.
  abbrev pub Holds : World → Task → Type 0
  Holds w t = (before : List Task) × (after : List Task) × IsAt (view w).tasks before t after

  -- A task is reconciled again and again; between two reconciliations anything may happen but to it.
  -- `Life t s u s'`: the task `t` at the state `s` has become `u` at `s'`.
  pub data Life (t : Task) (s : State World Bmc) : Task → State World Bmc → Type 0 where
    begin : Life t s t s
    reconciled :
        {u : Task} {s' : State World Bmc}
        → Life t s u s'
        → (timeout : ℕ) (u' : Task) → u'.object_meta ≡ u.object_meta
        → Holds (reconcile env (new_client_func env timeout) (key_of u) s').1.world u'
        → Life t s u' (reconcile env (new_client_func env timeout) (key_of u) s').1
    elsewhere :
        {u : Task} {s' : State World Bmc}
        → Life t s u s'
        → (w : World) → Holds w u
        → Life t s u (record s' { world = w })

  -- The number of calls of an action, since `s`, and whether a start is recorded.
  abbrev Spent : ℕ → State World Bmc → Task → State World Bmc → Type 0
  Spent n s u s' =
      (calls_of is_action s' ≡ calls_of is_action s)
      ⊎ ((calls_of is_action s' ≤ n + calls_of is_action s) × IsBegun u.status)

  held_unique :
      (w : World) (t u : Task) → Holds w t → Holds w u → u.object_meta ≡ t.object_meta → u ≡ t
  held_unique w t u (b, a, h) (b', a', h') m = ok-injective u t (
      sym (tasks_law.get_task_result w b' u a' h')
      ∙ ap
          (λ (x : ObjectMeta).
            (env.get_task (record { namespace = x.namespace; name = x.name }) w).0)
          m
      ∙ tasks_law.get_task_result w b t a h)

  -- A reconciliation of a task writes a status of `P`, or nothing.
  pub reconciled-IsStep :
      (P : TaskStatus → Type 0) (timeout : ℕ) (u : Task) (s : State World Bmc) (b a : List Task)
      → (h : IsAt (view s.world).tasks b u a) → MayWrite u P
      → IsStep P
          (view s.world)
          b
          u
          a
          (view (reconcile env (new_client_func env timeout) (key_of u) s).1.world)
  reconciled-IsStep P timeout u s b a h writes = elim (Bool-cases (is_settled u)) [
    | inl z ↦ inl (
        reconcile-settled_view env req law tasks_law P (view s.world) b u a h timeout s.world refl
          s.calls z)
    | inr z ↦
        reconcile-IsStep env req law tasks_law P (view s.world) b u a h timeout s.world refl s.calls
          writes z
  ]

  -- The task after a step.
  stepped :
      (P : TaskStatus → Type 0) (w w' : World) (u u' : Task) (b a : List Task)
      → IsAt (view w).tasks b u a
      → IsStep P (view w) b u a (view w')
      → Holds w' u'
      → u'.object_meta ≡ u.object_meta
      → (u' ≡ u) ⊎ ((status : TaskStatus) × P status × (u' ≡ record u { status = status }))
  stepped P w w' u u' b a h (inl same) held m = inl (held_unique w' u u' (b, a, rw same h) held m)
  stepped P w w' u u' b a h (inr (status, p, e)) held m = inr (
    status,
    p,
    held_unique w' (record u { status = status }) u' (b, a, rw e (IsAt-status _ b u a status h))
        held m,
  )

  module _ (timeout : ℕ) (s s' : State World Bmc) (u u' : Task) (b a : List Task)
      (h : IsAt (view s'.world).tasks b u a) (m : u'.object_meta ≡ u.object_meta)
      (held : Holds (reconcile env (new_client_func env timeout) (key_of u) s').1.world u') where
    abbrev s'' : State World Bmc
    s'' = (reconcile env (new_client_func env timeout) (key_of u) s').1

    step_spec : u'.spec ≡ u.spec
    step_spec =
        elim (stepped (λ _. Unit) s'.world s''.world u u' b a h
          (reconciled-IsStep (λ _. Unit) timeout u s' b a h (anything env req law tasks_law u)) held
          m) [
            | inl e ↦ ap (λ (x : Task). x.spec) e
            | inr (status, _, e) ↦ ap (λ (x : Task). x.spec) e
          ]

    step_quiet : IsBegun u.status → calls_of is_action s'' ≡ calls_of is_action s'
    step_quiet begun =
        reconcile-no_action env timeout (key_of u) s' u (tasks_law.get_task_result s'.world b u a h)
          begun

    step-IsBegun : IsBegun u.status → IsBegun u'.status
    step-IsBegun begun =
        elim (stepped IsBegun s'.world s''.world u u' b a h
          (reconciled-IsStep IsBegun timeout u s' b a h (IsBegun-MayWrite u begun)) held m) [
            | inl e ↦ rw e begun
            | inr (status, p, e) ↦ rw e p
          ]

    step-Spent :
        HasDevice u.spec.task.one_time_boot_device_action
        → Spent (parts u.spec.task) s u s'
        → Spent (parts u.spec.task) s u' s''
    step-Spent boots spent = elim spent [
      | inr (l, begun) ↦ inr (omega (arith, l, step_quiet begun), step-IsBegun begun)
      | inl same ↦ elim (Bool-cases (is_zero u.status.start_time)) [
        | inr begun ↦ inl (step_quiet begun ∙ same)
        | inl new ↦
            elim (reconcile_begins env req law tasks_law kept (view s'.world) b u a h boots new
              timeout s' refl) [
                | inl k ↦ inl (k ∙ same)
                | inr (l, (status, begun, e)) ↦
                    let now_is =
                      held_unique s''.world (record u { status = status }) u'
                        (b, a, rw e (IsAt-status _ b u a status h)) held m in
                    inr (omega (arith, l, same), rw now_is begun)
              ]
      ]
    ]

  module _ (t : Task) (s : State World Bmc) (h : Holds s.world t)
      (boots : HasDevice t.spec.task.one_time_boot_device_action) where
    Life_lem :
        {u : Task} {s' : State World Bmc}
        → Life t s u s'
        → Holds s'.world u × ((u.spec ≡ t.spec) × Spent (parts t.spec.task) s u s')
    Life_lem begin = (h, (refl, inl refl))
    Life_lem (reconciled {u} {s'} life timeout u' m held) =
        let ((b, a, placed), (same, spent)) = Life_lem life in
        (
          held,
          (
            step_spec timeout s s' u u' b a placed m held ∙ same,
            subst
                (λ x.
                  Spent (parts x.task) s u'
                    (reconcile env (new_client_func env timeout) (key_of u) s').1)
                same
                (step-Spent timeout s s' u u' b a placed m held (rw same boots) (rw same spent)),
          ),
        )
    Life_lem (elsewhere life w held) =
        let (_, (same, spent)) = Life_lem life in (held, (same, spent))

    -- In a lawful cluster (IsLawful, IsTaskLawful) in which every patch of a task against the stored
    -- task is written, whatever it returns, and the clock does not stand at the zero time (IsKept):
    -- however often a task whose boot action names a device is reconciled, whatever the machine
    -- answers, and with anything but a change of the task in between, the calls of an action on the
    -- machine are in all at most as many as its action has parts.
    pub Life-at_most_once :
        {u : Task} {s' : State World Bmc}
        → Life t s u s'
        → calls_of is_action s' ≤ parts t.spec.task + calls_of is_action s
    Life-at_most_once life = elim (Life_lem life).1.1 [
      | inl same ↦ omega (arith, same)
      | inr (l, begun) ↦ l
    ]
