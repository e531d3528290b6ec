-- ===== src/System/Tasks/Advances.antt =====
-- One reconciliation of a running Task in an obedient cluster: the action is run and the start
-- recorded, or the state is found reached and the task is completed.
use rufio.Prelude.{
  ℕ, ◌+◌, ◌<◌, ◌≡◌, ◌⊎◌, inl, inr, refl, ap, ◌∙◌, true, false, Option, none, some, List, [], ◌∷◌,
  ◌++◌, leb, arith, Bool-cases,
}
use rufio.Prelude.Text.{Text}
use rufio.Api.Meta.{NamespacedName, Time, is_zero}
use rufio.Api.Action.{Action, PowerAction}
use rufio.Api.Task.{Task, TaskStatus}
use rufio.Controller.Error.{Result, ok, err}
use rufio.Controller.Env.{Env, CtrlResult}
use rufio.Controller.Exec.{stop, no_requeue}
use rufio.Controller.Kube.{to_power_state}
use rufio.Controller.Client.{BmcOptions, new_client_func, open_in_time}
use rufio.Controller.Task.{
  error_of, run_task, check_power, check_task_status, task_timeout, time_of, mark_completed,
  mark_started, patch_status, complete_task, finish_task, follow_task, start_task, use_client,
  login, connected_task, is_settled, do_reconcile, reconcile_found, reconcile,
}
use rufio.Controller.Task.Outcomes.{since-timed_out, await_state-reached, reached}
use rufio.System.{View, running, phase_of_task, IsLawful}
use rufio.System.Refines.Ready.{at}
use rufio.System.Tasks.{key_of, IsAt, IsTaskLawful}
use rufio.System.Tasks.Gives.{
  IsOk, IsNil, Gives, GivesSame, Gives-pure, Gives-bind, Gives-then, Gives-weaken, Gives-perform,
  Gives-finally,
}
use rufio.System.Tasks.Steady.{perform-steady, mark_completed-object_meta, mark_started-object_meta}
use rufio.System.Tasks.Moves.{found_state, reconcile_is}
use rufio.System.Tasks.Runs.{HasDevice, run_task-Gives}
use rufio.System.Tasks.Obedient.{IsObedient, login_succeeds}

-- The view with another status of the task.
abbrev pub with_task : View → List Task → Task → List Task → TaskStatus → View
with_task v before t after status = record v {
  tasks = before ++ record t { status = status } ∷ after;
}

error_of-IsNil : {A : Type 0} (what : Text) (r : Result A) → IsOk r → IsNil (error_of what r)
error_of-IsNil what (ok a) h = tt
error_of-IsNil what (err e) h = absurd h

some-time_of : (o : Option Time) → is_zero o ≡ false → o ≡ some (time_of o)
some-time_of none h = cc
some-time_of (some t) h = refl

module _ (env : Env) (req : NamespacedName) (law : IsLawful env req)
    (tasks_law : IsTaskLawful env req law) (obedient : IsObedient env req law) (v : View) where
  open env use {World, Bmc}
  open law use {view}

  run_task_succeeds :
      (a : Action) (b : Bmc)
      → HasDevice a.one_time_boot_device_action
      → GivesSame view v IsNil (run_task env a b)
  run_task_succeeds a b h =
      run_task-Gives env view v IsOk IsNil tt error_of-IsNil
        (λ p b. Gives-perform view _ _ (λ w e.
          (obedient.set_power_state_result p b w, tasks_law.set_power_state_view p b w ∙ e)))
        (λ d x y b. Gives-perform view _ _ (λ w e. (
          obedient.set_boot_device_result d x y b w,
          tasks_law.set_boot_device_view d x y b w ∙ e,
        )))
        (λ k u b. Gives-perform view _ _ (λ w e. (
          obedient.set_virtual_media_result k u b w,
          tasks_law.set_virtual_media_view k u b w ∙ e,
        )))
        a b h

  module _ (before : List Task) (t : Task) (placed : IsAt v.tasks before t [])
      (is_running : phase_of_task t ≡ running) where
    patch_status-Gives :
        (u : Task)
        → u.object_meta ≡ t.object_meta
        → Gives view v (λ _ v'. v' ≡ with_task v before t [] u.status) (patch_status env u t)
    unfolding patch_status
    patch_status-Gives u m =
        Gives-then view _ _
          (Gives-perform view _ _ (λ w e.
            let (_, seen) = obedient.patch_task_status_lem u w before t [] (rw e placed) m in
            seen ∙ ap (λ (x : View). with_task x before t [] u.status) e))
          (elim [
            | none ↦ λ v'. Gives-pure view _ (tt, refl)
            | some e ↦ λ v'. Gives-pure view _ (tt, refl)
          ])

    is_split : (w : World) → view w ≡ v → (view w).tasks ≡ before ++ t ∷ []
    is_split w e = ap (λ (x : View). x.tasks) e ∙ placed.split

    start_task-Gives :
        (b : Bmc)
        → HasDevice t.spec.task.one_time_boot_device_action
        → Gives view v
            (λ _ v'.
              (now : Time) × (0 < now) × (v' ≡ with_task v before t [] (mark_started t now).status))
            (start_task env t b)
    unfolding start_task
    start_task-Gives b h =
        Gives-bind view {P = λ now. 0 < now} _ _
          (Gives-perform view _ _ (λ w e. (obedient.now_positive w, law.now_view w ∙ e)))
          λ now l. Gives-bind view {P = IsNil} _ _ (run_task_succeeds t.spec.task b h) (elim [
            | some e ↦ λ g. absurd g
            | none ↦ λ g.
                Gives-then view
                  {Q = λ v'.
                    (now : Time) × (0 < now)
                    × (v' ≡ with_task v before t [] (mark_started t now).status)}
                  _ _
                  (Gives-weaken view _ (λ p v' e. (now, l, e))
                    (patch_status-Gives (mark_started t now) (mark_started-object_meta t now)))
                  (λ p v'. Gives-pure view _ (tt, refl))
          ])

    complete_task-Gives :
        (r : CtrlResult)
        → Gives view v
            (λ _ v'. (now : Time) × (v' ≡ with_task v before t [] (mark_completed t now).status))
            (complete_task env t r)
    unfolding complete_task
    complete_task-Gives r =
        Gives-bind view {P = λ _. Unit {0}} _ _
          (Gives-perform view _ _ (λ w e. (tt, law.now_view w ∙ e)))
          λ now _.
            Gives-then view
              {Q = λ v'.
                (now : Time) × (v' ≡ with_task v before t [] (mark_completed t now).status)}
              _ _
              (Gives-weaken view _ (λ p v' e. (now, e))
                (patch_status-Gives (mark_completed t now) (mark_completed-object_meta t now)))
              (λ p v'. Gives-pure view _ (tt, refl))

    -- The state that was polled is the one that the action asks for.
    abbrev Polled : Bmc → PowerAction → Result Text → Type 0
    Polled b p (ok raw) = reached env b p (to_power_state raw) ≡ true
    Polled b p (err e) = ⊥

    check_power-Gives :
        (a : Option PowerAction) (b : Bmc)
        → t.spec.task.power_action ≡ a
        → GivesSame view v (λ r. r ≡ stop none) (check_power env a b)
    unfolding check_power
    check_power-Gives none b e = Gives-pure view _ (refl, refl)
    check_power-Gives (some p) b e =
        Gives-bind view {P = Polled b p} _ _
          (Gives-perform view _ _ (λ w k.
            let (raw, g, r) =
              obedient.get_power_state_result b w before t p (is_split w k) is_running e in
            (rw g r, tasks_law.get_power_state_view b w ∙ k)))
          (elim [
            | ok raw ↦ λ r. Gives-pure view _ (
              ap (λ (x : CtrlResult). record { result = x; error = none })
                  (await_state-reached env b p (to_power_state raw) ∙ rw r),
              refl,
            )
            | err x ↦ λ r. absurd r
          ])

    follow_task-Gives :
        (start : Time) (b : Bmc)
        → t.status.start_time ≡ some start
        → Gives view v
            (λ _ v'. (now : Time) × (v' ≡ with_task v before t [] (mark_completed t now).status))
            (follow_task env t start b)
    unfolding follow_task check_task_status finish_task
    follow_task-Gives start b h =
        Gives-bind view {P = λ now. now < start + task_timeout} _ _
          (Gives-perform view _ _ (λ w e.
            (obedient.now_prompt w before t start (is_split w e) is_running h, law.now_view w ∙ e)))
          λ now l.
            let early : leb (start + task_timeout) now ≡ false = ground arith in
            rw (since-timed_out start now, early)
              (Gives-bind view {P = λ r. r ≡ stop none} _ _
                (check_power-Gives t.spec.task.power_action b refl)
                (λ r k. rw (k, obedient.result_is_zero) (complete_task-Gives no_requeue)))

    -- The view after one reconciliation of a running task.
    abbrev pub IsAdvance : View → Type 0
    IsAdvance v' =
        (is_zero t.status.start_time ≡ true)
          × ((now : Time) × (0 < now) × (v' ≡ with_task v before t [] (mark_started t now).status))
        ⊎ ((now : Time) × (v' ≡ with_task v before t [] (mark_completed t now).status))

    use_client-Gives :
        (b : Bmc)
        → HasDevice t.spec.task.one_time_boot_device_action
        → Gives view v (λ _ v'. IsAdvance v') (use_client env t b)
    unfolding use_client
    use_client-Gives b h = elim (Bool-cases (is_zero t.status.start_time)) [
      | inl z ↦ rw z (Gives-weaken view _ (λ r v' k. inl (refl, k)) (start_task-Gives b h))
      | inr z ↦ rw z (
          Gives-weaken view _ (λ r v' k. inr k)
            (follow_task-Gives _ b (some-time_of t.status.start_time z)))
    ]

    connected_task-Gives :
        (timeout : ℕ) (username password : Text) (opts : BmcOptions)
        → HasDevice t.spec.task.one_time_boot_device_action
        → Gives view v
            (λ _ v'. IsAdvance v')
            (connected_task env (new_client_func env timeout) t username password opts)
    unfolding connected_task new_client_func open_in_time
    connected_task-Gives timeout username password opts h =
        Gives-bind view {P = IsOk} _ _
          (Gives-bind view {P = λ e. e ≡ none} _ _
            (Gives-perform view _ _ (λ w e. (
              obedient.open_client_result timeout _ w,
              tasks_law.open_client_view timeout _ w ∙ e,
            )))
            (elim [ none ↦ λ e. Gives-pure view _ (tt, refl) | some x ↦ λ e. cc ]))
          (elim [
            | err e ↦ λ g. absurd g
            | ok b ↦ λ g.
                Gives-finally view _ _ (use_client-Gives b h)
                  (perform-steady env req law tasks_law _ _ (tasks_law.close_client_view b))
          ])

    reconcile_found-Gives :
        (timeout : ℕ)
        → HasDevice t.spec.task.one_time_boot_device_action
        → is_zero t.object_meta.deletion_timestamp ≡ true
        → is_settled t ≡ false
        → Gives view v (λ _ v'. IsAdvance v') (reconcile_found env (new_client_func env timeout) t)
    unfolding reconcile_found do_reconcile login
    reconcile_found-Gives timeout h alive open_task =
        rw (alive, open_task)
          (Gives-bind view {P = IsOk} _ _ (login_succeeds env req law tasks_law obedient v _ _)
            (elim [
              | err e ↦ λ g. absurd g
              | ok (u, p, o) ↦ λ g. connected_task-Gives timeout u p o h
            ]))

    -- One reconciliation of the task, the last of its job, running and with a boot device where it
    -- asks for one: it returns, and the task has been started or completed.
    pub reconcile-IsAdvance :
        (timeout : ℕ) (w : World)
        → view w ≡ v
        → HasDevice t.spec.task.one_time_boot_device_action
        → is_settled t ≡ false
        → IsAdvance (
            view
              (reconcile env (new_client_func env timeout) (key_of t) (at env req law w)).1.world)
    reconcile-IsAdvance timeout w e h open_task =
        let alive = obedient.not_deleted w before t [] (is_split w e) in
        let (r, d, k) =
          (reconcile_found-Gives timeout h alive open_task).at
            (found_state env req law tasks_law (λ _. Unit) v before t [] placed timeout w e [])
            (tasks_law.get_task_view _ w ∙ e) in
        rw (reconcile_is env req law tasks_law (λ _. Unit) v before t [] placed timeout w e []) k
