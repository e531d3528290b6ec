-- ===== src/Controller/Task/Outcomes.antt =====
-- What a Task's reconciliation comes to: the order of the actions, the timeout, and when the task
-- is completed.
use rufio.Prelude.{
  ◌+◌, ◌≤◌, ◌<◌, ◌≡◌, refl, Bool, true, false, ◌||◌, Option, none, some, List, [], ◌∷◌, ◌++◌, leb,
  arith, if◌then◌else◌, Option-cases, inl, inr,
}
use rufio.Prelude.Int.{leb_ℤ, pos}
use rufio.Prelude.Text.{Text, text_eq}
use rufio.Api.Meta.{Time}
use rufio.Api.Action.{
  Action, PowerAction, power_on, power_hard_off, power_soft_off, OneTimeBootDeviceAction,
  VirtualMediaAction,
}
use rufio.Api.Machine.{PowerState, on, off}
use rufio.Api.Task.{Task}
use rufio.Controller.Error.{Error, ok, message}
use rufio.Controller.Env.{Env, CtrlResult}
use rufio.Controller.Exec.{Call, State, done, ◌>>=◌, pure, stop, no_requeue, requeue_in}
use rufio.Controller.Kube.{to_power_state}
use rufio.Controller.Task.{
  since, task_timeout, timeout_error, power_action_requeue_after, await_state, mark_failed,
  mark_completed, patch_status, fail_task, complete_task, finish_task, follow_task, check_power,
  check_task_status, set_power, boot_first, set_boot, set_media, run_task, start_task, mark_started,
}

-- The test for the timeout is exact: it holds once ten minutes have passed since the start, also
-- where the start lies ahead of the clock, or too far back for a duration to hold.
pub since-timed_out :
    (start now : Time) → leb_ℤ (pos task_timeout) (since start now) ≡ leb (start + task_timeout) now
unfolding since
since-timed_out start now = ground arith

module _ {B : Type 0} (b : B) where
  -- The calls that the parts of an action ask for.
  abbrev pub power_calls : Option PowerAction → List (Call B)
  power_calls none = []
  power_calls (some p) = Call.set_power_state p b ∷ []

  abbrev pub boot_calls : Option OneTimeBootDeviceAction → List (Call B)
  boot_calls none = []
  boot_calls (some a) = elim a.devices [
    | [] ↦ []
    | d ∷ _ ↦ Call.set_boot_device d false a.efi_boot b ∷ []
  ]

  abbrev pub media_calls : Option VirtualMediaAction → List (Call B)
  media_calls none = []
  media_calls (some a) = Call.set_virtual_media a.kind a.media_url b ∷ []

module _ (env : Env) (b : env.Bmc) where
  open env use {World, Bmc}

  set_power_ok :
      (a : Option PowerAction) (s : State World Bmc)
      → (set_power env a b s).0 ≡ done none
      → (set_power env a b s).1.calls ≡ power_calls b a ++ s.calls
  unfolding set_power ◌>>=◌
  set_power_ok none s h = refl
  set_power_ok (some p) s h = refl

  set_boot_ok :
      (a : Option OneTimeBootDeviceAction) (s : State World Bmc)
      → (set_boot env a b s).0 ≡ done none
      → (set_boot env a b s).1.calls ≡ boot_calls b a ++ s.calls
  unfolding set_boot boot_first ◌>>=◌
  set_boot_ok none s h = refl
  set_boot_ok (some a) s h = ground arith

  set_media_ok :
      (a : Option VirtualMediaAction) (s : State World Bmc)
      → (set_media env a b s).0 ≡ done none
      → (set_media env a b s).1.calls ≡ media_calls b a ++ s.calls
  unfolding set_media ◌>>=◌
  set_media_ok none s h = refl
  set_media_ok (some p) s h = refl

  -- An action, of one part or of more, that runs with no error has made the calls of its parts in
  -- the order power, boot device, virtual media, each once, and no others.
  pub run_task-order :
      (a : Action) (s : State World Bmc)
      → (run_task env a b s).0 ≡ done none
      → (run_task env a b s).1.calls
        ≡ media_calls b a.virtual_media_action
          ++ (boot_calls b a.one_time_boot_device_action
              ++ (power_calls b a.power_action ++ s.calls))
  unfolding run_task ◌>>=◌
  run_task-order a s h =
      let s1 = (set_power env a.power_action b s).1 in
      let s2 = (set_boot env a.one_time_boot_device_action b s1).1 in
      ground (
        arith,
        set_power_ok a.power_action s,
        set_boot_ok a.one_time_boot_device_action s1,
        set_media_ok a.virtual_media_action s2,
      )

  -- A failure is patched once, and returned or aggregated.
  fail_task_lem :
      (task original : Task) (text : Text) (e : Error) (s : State World Bmc)
      → ((x : Error) × ((fail_task env task original text e s).0 ≡ done (stop (some x))))
        × ((fail_task env task original text e s).1.calls
            ≡ Call.patch_task_status (mark_failed task text) ∷ s.calls)
  unfolding fail_task patch_status ◌>>=◌
  fail_task_lem task original text e s =
      elim (Option-cases (env.patch_task_status (mark_failed task text) original s.world).0) [
        | inl p ↦ rw p ((e, refl), refl)
        | inr (x, p) ↦ rw p ((_, refl), refl)
      ]

  -- A Task that was started ten minutes ago or more is failed: its status is patched with the
  -- condition Failed and the text of the timeout error, no call is made of the machine, and the
  -- reconciliation returns an error, with no requeue.
  pub follow_task_timed_out :
      (task : Task) (start : Time) (s : State World Bmc)
      → start + task_timeout ≤ (env.now s.world).0
      → let timed_out = timeout_error (since start (env.now s.world).0) in
        ((e : Error) × ((follow_task env task start b s).0 ≡ done (stop (some e))))
        × ((follow_task env task start b s).1.calls
            ≡ Call.patch_task_status (mark_failed task (message timed_out))
              ∷ Call.read_clock
              ∷ s.calls)
  unfolding follow_task ◌>>=◌
  follow_task_timed_out task start s h =
      let late : leb (start + task_timeout) (env.now s.world).0 ≡ true = ground arith in
      rw (since-timed_out start (env.now s.world).0, late) (fail_task_lem task task _ _ _)

  -- The state in which the action of a new task is run.
  abbrev pub at_start : State World Bmc → State World Bmc
  at_start s = record { world = (env.now s.world).1; calls = Call.read_clock ∷ s.calls }

  -- A new Task whose action runs with no error: its status is patched once, after the calls of the
  -- action, with the time of the start and no new condition.
  pub start_task_starts :
      (task : Task) (s : State World Bmc)
      → (run_task env task.spec.task b (at_start s)).0 ≡ done none
      → (start_task env task b s).1.calls
        ≡ Call.patch_task_status (mark_started task (env.now s.world).0)
          ∷ (run_task env task.spec.task b (at_start s)).1.calls
  unfolding start_task patch_status ◌>>=◌
  start_task_starts task s ran =
      let started = mark_started task (env.now s.world).0 in
      let w = (run_task env task.spec.task b (at_start s)).1.world in
      elim (Option-cases (env.patch_task_status started task w).0) [
        | inl p ↦ rw (ran, p)
        | inr (x, p) ↦ rw (ran, p)
      ]

  -- A new Task whose action ends with an error: its status is patched once, after the calls of the
  -- action, with the time of the start and the condition Failed with the text of the error, and the
  -- reconciliation returns an error, with no requeue.
  pub start_task_fails :
      (task : Task) (s : State World Bmc) (e : Error)
      → (run_task env task.spec.task b (at_start s)).0 ≡ done (some e)
      → ((x : Error) × ((start_task env task b s).0 ≡ done (stop (some x))))
        × ((start_task env task b s).1.calls
            ≡ Call.patch_task_status
                (mark_failed (mark_started task (env.now s.world).0) (message e))
              ∷ (run_task env task.spec.task b (at_start s)).1.calls)
  unfolding start_task ◌>>=◌
  start_task_fails task s e failed =
      rw failed (fail_task_lem (mark_started task (env.now s.world).0) _ (message e) e _)

  complete_task_calls :
      (task : Task) (r : CtrlResult) (s : State World Bmc)
      → (complete_task env task r s).1.calls
        ≡ Call.patch_task_status (mark_completed task (env.now s.world).0)
          ∷ Call.read_clock
          ∷ s.calls
  unfolding complete_task patch_status ◌>>=◌
  complete_task_calls task r s =
      let w = (env.now s.world).1 in
      elim (Option-cases
        (env.patch_task_status (mark_completed task (env.now s.world).0) task w).0) [
          | inl p ↦ rw p
          | inr (x, p) ↦ rw p
        ]

  -- Whether a power action has reached its state; a power action other than on, off and soft is not
  -- waited for.
  abbrev pub reached : PowerAction → PowerState → Bool
  reached p state =
      if text_eq p power_on
      then text_eq state on
      else if text_eq p power_hard_off || text_eq p power_soft_off
      then text_eq off state
      else true

  pub await_state-reached :
      (p : PowerAction) (state : PowerState)
      → await_state p state
        ≡ (if reached p state then no_requeue else requeue_in power_action_requeue_after)
  unfolding await_state
  await_state-reached p state = ground arith

  -- The state in which the power state was read, for the check of a started task.
  abbrev pub polled : State World Bmc → State World Bmc
  polled s = record {
    world = (env.get_power_state b (env.now s.world).1).1;
    calls = Call.get_power_state b ∷ Call.read_clock ∷ s.calls;
  }

  module _ (task : Task) (start : Time) (s : State World Bmc) (p : PowerAction) (raw : Text)
      (early : (env.now s.world).0 < start + task_timeout)
      (action : task.spec.task.power_action ≡ some p)
      (got : (env.get_power_state b (env.now s.world).1).0 ≡ ok raw) where
    follow_task-polled :
        follow_task env task start b s
        ≡ finish_task env task
            (record { result = await_state p (to_power_state raw); error = none })
            (polled s)
    unfolding follow_task check_task_status check_power ◌>>=◌
    follow_task-polled =
        let running : leb (start + task_timeout) (env.now s.world).0 ≡ false = ground arith in
        rw (since-timed_out start (env.now s.world).0, running) (simp (action, got))

    -- A started Task with a power action, whose ten minutes are not over: where the machine has not
    -- reached the state that the action asks for, the task is requeued in three seconds, and no call
    -- is made but the reads of the clock and of the power state. `IsZero` does not hold of a result
    -- with a requeue.
    pub follow_task_waits :
        env.result_is_zero (requeue_in power_action_requeue_after) ≡ false
        → reached p (to_power_state raw) ≡ false
        → follow_task env task start b s ≡ (
          done (record { result = requeue_in power_action_requeue_after; error = none }),
          polled s,
        )
    unfolding finish_task pure
    follow_task_waits hr h = rw (follow_task-polled, await_state-reached, h, hr)

    -- A started Task with a power action, whose ten minutes are not over: where the machine has
    -- reached the state that the action asks for, and for each power action that has no such state,
    -- the task is patched once, with the condition Completed and the time of completion. `IsZero`
    -- holds of the empty result.
    pub follow_task_completes :
        env.result_is_zero no_requeue ≡ true
        → reached p (to_power_state raw) ≡ true
        → (follow_task env task start b s).1.calls
          ≡ Call.patch_task_status (mark_completed task (env.now (polled s).world).0)
            ∷ Call.read_clock
            ∷ (polled s).calls
    unfolding finish_task
    follow_task_completes hz h =
        rw (follow_task-polled, await_state-reached, h, hz) (complete_task_calls task _ (polled s))
