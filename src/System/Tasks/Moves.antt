-- ===== src/System/Tasks/Moves.antt =====
-- What one reconciliation of a Task does to the view of its job: nothing, or a new status of the
-- task.
use rufio.Prelude.{
  Bool-cases, ℕ, ◌≡◌, inl, inr, refl, ap, ◌∙◌, true, false, not, Option, none, some, List, ◌∷◌,
  ◌++◌,
}
use rufio.Prelude.Text.{Text}
use rufio.Api.Meta.{NamespacedName, Time, is_zero}
use rufio.Api.Task.{Task, TaskStatus}
use rufio.Controller.Error.{Error, ok, err}
use rufio.Controller.Env.{Env, CtrlResult}
use rufio.Controller.Exec.{State, Call, Reconciled, perform_with, ◌>>=◌}
use rufio.Controller.Exec.Always.{Always-pure}
use rufio.Controller.Client.{new_client_func}
use rufio.Controller.Client.Calls.{new_client_func-Always}
use rufio.Controller.Task.{
  mark_failed, patch_status, fail_task, complete_task, finish_task, follow_task, start_task,
  use_client, connected_task, is_settled, do_reconcile, reconcile_found, reconcile,
}
use rufio.System.{View, IsLawful}
use rufio.System.Tasks.{key_of, IsAt, IsTaskLawful}
use rufio.System.Tasks.Leads.{Leads, Leads-steady, Leads-bind, Leads-then, Leads-finally, Leads-if}
use rufio.System.Tasks.Steady.{
  MayWrite, IsStep, mark_failed-object_meta, mark_completed-object_meta, mark_started-object_meta,
  perform-steady, steady, login-steady, run_task-steady, check_task_status-steady,
}

module _ (env : Env) (req : NamespacedName) (law : IsLawful env req)
    (tasks_law : IsTaskLawful env req law) where
  open env use {World, Bmc}
  open law use {view}

  module _ (P : TaskStatus → Type 0) (v : View) (before : List Task) (t : Task) (after : List Task)
      (placed : IsAt v.tasks before t after) where
    abbrev Q : View → Type 0
    Q = IsStep P v before t after

    patch_status-Leads :
        (u : Task)
        → u.object_meta ≡ t.object_meta
        → P u.status
        → Leads view v Q (patch_status env u t)
    unfolding patch_status perform_with
    patch_status-Leads u m p =
        Leads-then view _ _
          (record {
            at = λ s e.
                elim (tasks_law.patch_task_status_view u s.world before t after (rw e placed) m) [
                  | inl h ↦ inl (h ∙ e)
                  | inr h ↦ inr (
                    u.status,
                    p,
                    h
                        ∙ ap
                            (λ (x : View). record x {
                              tasks = before ++ record t { status = u.status } ∷ after;
                            })
                            e,
                  )
                ];
          })
          (elim [
            | none ↦ Always-pure (steady env req law tasks_law) _
            | some e ↦ Always-pure (steady env req law tasks_law) _
          ])

    fail_task-Leads :
        (u : Task) (text : Text) (e : Error)
        → u.object_meta ≡ t.object_meta
        → P (mark_failed u text).status
        → Leads view v Q (fail_task env u t text e)
    unfolding fail_task
    fail_task-Leads u text e m p =
        Leads-then view _ _ (patch_status-Leads _ (mark_failed-object_meta u text ∙ m) p) (elim [
          | none ↦ Always-pure (steady env req law tasks_law) _
          | some e ↦ Always-pure (steady env req law tasks_law) _
        ])

    module _ (writes : MayWrite t P) where
      complete_task-Leads : (r : CtrlResult) → Leads view v Q (complete_task env t r)
      unfolding complete_task
      complete_task-Leads r =
          Leads-bind view _ _ (inl refl) ((perform-steady env req law tasks_law) _ _ law.now_view)
            λ now.
              Leads-then view _ _
                (patch_status-Leads _ (mark_completed-object_meta t now) (writes.completing now))
                (λ patched. Always-pure (steady env req law tasks_law) _)

      finish_task-Leads : (r : Reconciled) → Leads view v Q (finish_task env t r)
      unfolding finish_task
      finish_task-Leads r = go r.error refl
        where
          go : (e : Option Error) → r.error ≡ e → Leads view v Q (finish_task env t r)
          go none e =
              rw (e, finish_task)
                (Leads-if view _ _ _
                  (Leads-steady view _ (inl refl) (Always-pure (steady env req law tasks_law) _))
                  (complete_task-Leads _))
          go (some x) e =
              rw (e, finish_task)
                (Leads-steady view _ (inl refl) (Always-pure (steady env req law tasks_law) _))

      follow_task-Leads : (start : Time) (b : Bmc) → Leads view v Q (follow_task env t start b)
      unfolding follow_task
      follow_task-Leads start b =
          Leads-bind view _ _ (inl refl) ((perform-steady env req law tasks_law) _ _ law.now_view)
            λ now. Leads-if view _ _ _ (fail_task-Leads t _ _ refl (writes.failing _)) (
              Leads-bind view _ _ (inl refl) ((check_task_status-steady env req law tasks_law) t b)
                finish_task-Leads)

      start_task-Leads :
          (b : Bmc) → is_zero t.status.start_time ≡ true → Leads view v Q (start_task env t b)
      unfolding start_task
      start_task-Leads b z =
          Leads-bind view _ _ (inl refl) ((perform-steady env req law tasks_law) _ _ law.now_view)
            λ now.
              Leads-bind view _ _ (inl refl) ((run_task-steady env req law tasks_law) t b) (elim [
                | some e ↦
                    fail_task-Leads _ _ _ (mark_started-object_meta t now)
                      (writes.start_failing z now _)
                | none ↦
                    Leads-then view _ _
                      (patch_status-Leads _ (mark_started-object_meta t now)
                        (writes.starting z now))
                      (λ patched. Always-pure (steady env req law tasks_law) _)
              ])

      use_client-Leads : (b : Bmc) → Leads view v Q (use_client env t b)
      unfolding use_client
      use_client-Leads b = elim (Bool-cases (is_zero t.status.start_time)) [
        | inl z ↦ rw z (start_task-Leads b z)
        | inr z ↦ rw z (follow_task-Leads _ b)
      ]

      do_reconcile-Leads :
          (timeout : ℕ) → Leads view v Q (do_reconcile env (new_client_func env timeout) t)
      unfolding do_reconcile connected_task
      do_reconcile-Leads timeout =
          Leads-bind view _ _ (inl refl) ((login-steady env req law tasks_law) t) (elim [
            | err e ↦ Leads-steady view _ (inl refl) (Always-pure (steady env req law tasks_law) _)
            | ok (u, w, o) ↦
                Leads-bind view _ _ (inl refl)
                  (new_client_func-Always env timeout (steady env req law tasks_law)
                    (λ b.
                      (perform-steady env req law tasks_law) _ _
                        (tasks_law.open_client_view timeout b))
                    _ u w _)
                  (elim [
                    | err e ↦ fail_task-Leads t _ _ refl (writes.failing _)
                    | ok b ↦
                        Leads-finally view _ _ (use_client-Leads b) (
                          (perform-steady env req law tasks_law) _ _
                            (tasks_law.close_client_view b))
                  ])
          ])

    -- A task that has completed or failed is left as it is.
    reconcile_found-settled :
        (timeout : ℕ)
        → is_settled t ≡ true
        → Leads view v (λ v'. v' ≡ v) (reconcile_found env (new_client_func env timeout) t)
    unfolding reconcile_found
    reconcile_found-settled timeout h = rw h (
        Leads-if view (not (is_zero t.object_meta.deletion_timestamp)) _ _
          (Leads-steady view _ refl (Always-pure (steady env req law tasks_law) _))
          (Leads-steady view _ refl (Always-pure (steady env req law tasks_law) _)))

    reconcile_found-Leads :
        (timeout : ℕ)
        → MayWrite t P
        → is_settled t ≡ false
        → Leads view v Q (reconcile_found env (new_client_func env timeout) t)
    unfolding reconcile_found
    reconcile_found-Leads timeout writes h = rw h (
        Leads-if view (not (is_zero t.object_meta.deletion_timestamp)) _ _
          (Leads-steady view _ (inl refl) (Always-pure (steady env req law tasks_law) _))
          (do_reconcile-Leads writes timeout))

    module _ (timeout : ℕ) (w : World) (now_is : view w ≡ v) (calls : List (Call Bmc)) where
      abbrev pub found_state : State World Bmc
      found_state = record {
        world = (env.get_task (key_of t) w).1;
        calls = Call.get_task (key_of t) ∷ calls;
      }

      pub reconcile_is :
          reconcile env
            (new_client_func env timeout)
            (key_of t)
            (record { world = w; calls = calls })
          ≡ reconcile_found env (new_client_func env timeout) t found_state
      unfolding reconcile ◌>>=◌
      reconcile_is = rw (tasks_law.get_task_result w before t after (rw now_is placed))

      pub reconcile-settled_view :
          is_settled t ≡ true
          → view
              (reconcile env
                (new_client_func env timeout)
                (key_of t)
                (record { world = w; calls = calls })).1.world
            ≡ v
      reconcile-settled_view h = rw reconcile_is (
          (reconcile_found-settled timeout h).at found_state (tasks_law.get_task_view _ w ∙ now_is))

      pub reconcile-IsStep :
          MayWrite t P
          → is_settled t ≡ false
          → Q (
              view
                (reconcile env
                  (new_client_func env timeout)
                  (key_of t)
                  (record { world = w; calls = calls })).1.world)
      reconcile-IsStep writes h = rw reconcile_is (
          (reconcile_found-Leads timeout writes h).at found_state
            (tasks_law.get_task_view _ w ∙ now_is))
