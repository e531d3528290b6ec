-- ===== src/Controller/Job/Calls.antt =====
-- Which calls the reconciler of Jobs makes, and how often.
use rufio.Prelude.{
  ℕ, ◌≡◌, ◌≤◌, ◌+◌, refl, Bool, false, true, not, Option, none, some, arith, inl, inr, ◌⊎◌, ◌∷◌,
}
use rufio.Prelude.Text.{Text}
use rufio.Api.Meta.{Time, NamespacedName, is_zero}
use rufio.Api.Action.{Action}
use rufio.Api.ProviderOpts.{Connection}
use rufio.Api.Machine.{Machine, condition_true}
use rufio.Api.Task.{Task}
use rufio.Api.Job.{Job, MachineRef, has_condition, job_running, job_completed, job_failed}
use rufio.Controller.Error.{Error, ok, err}
use rufio.Controller.Env.{Env}
use rufio.Controller.Exec.{Call, State, done, stop, ◌>>=◌}
use rufio.Controller.Exec.Keeps.{
  is_patch, is_create, calls_of, Quiet, Quiet-pure, Quiet-fault, Quiet-bind, Quiet-if, quiet_rules,
}
use rufio.Controller.Exec.Patches.{
  AtMost, AtMost-bind, AtMost-pure, AtMost-perform_with, AtMost-Quiet, AtMost-Quiet-bind, AtMost-if,
}
use rufio.Controller.Job.{
  Progress, all_completed, task_has_failed, in_progress, mark_failed, mark_completed, is_settled,
  patch_status, fail_job, get_machine, create_task, create_task_with_owner, task_created, next_task,
  advance, reconcile_tasks, reconcile_started, do_reconcile, reconcile_found, reconcile,
}

module _ (env : Env) (p : Call env.Bmc → Bool) where
  open env use {World, Bmc}

  patch_status-Quiet :
      (j original : Job)
      → p (Call.patch_job_status j) ≡ false
      → Quiet p (patch_status env j original)
  unfolding patch_status
  patch_status-Quiet j original h =
      Quiet-bind _ _ (search (quiet_rules, h))
        (elim [ none ↦ Quiet-pure _ | some e ↦ Quiet-pure _ ])

  get_machine-Quiet :
      (r : MachineRef)
      → ((k : NamespacedName) → p (Call.get_machine k) ≡ false)
      → Quiet p (get_machine env r)
  unfolding get_machine
  get_machine-Quiet r hm =
      Quiet-bind _ _ (search (quiet_rules, hm))
        (elim [ ok m ↦ Quiet-pure _ | err e ↦ Quiet-pure _ ])

  module _ (job original : Job)
      (hf : (m : Text) → p (Call.patch_job_status (mark_failed job m)) ≡ false) where
    fail_job-Quiet : (e : Error) → Quiet p (fail_job env job original e)
    unfolding fail_job
    fail_job-Quiet e =
        Quiet-bind _ _ (patch_status-Quiet _ _ (hf _))
          (elim [ none ↦ Quiet-pure _ | some x ↦ Quiet-pure _ ])

    task_created-Quiet :
        (r : Option Error)
        → p (Call.patch_job_status job) ≡ false
        → Quiet p (task_created env job original r)
    unfolding task_created
    task_created-Quiet none hj = Quiet-bind _ _ (patch_status-Quiet _ _ hj) (λ x. Quiet-pure _)
    task_created-Quiet (some e) hj = fail_job-Quiet e

-- A test that passes neither a read nor a creation, nor the patches that are named.
module _ (env : Env) (p : Call env.Bmc → Bool) (hc : p Call.read_clock ≡ false)
    (hm : (k : NamespacedName) → p (Call.get_machine k) ≡ false)
    (hl : (x y : Text) → p (Call.list_tasks x y) ≡ false)
    (hk : (t : Task) → p (Call.create_task t) ≡ false) where
  open env use {World, Bmc}

  create_task-Quiet :
      (j : Job) (n : ℕ) (conn : Connection) (a : Option Action)
      → Quiet p (create_task env j n conn a)
  unfolding create_task
  create_task-Quiet j n conn none = Quiet-fault
  create_task-Quiet j n conn (some a) =
      Quiet-bind _ _ (search (quiet_rules, hk))
        (elim [ none ↦ Quiet-pure _ | some e ↦ Quiet-pure _ ])

  -- The job that is patched, as it is, failed or completed.
  module _ (job original : Job) (hj : p (Call.patch_job_status job) ≡ false)
      (hf : (m : Text) → p (Call.patch_job_status (mark_failed job m)) ≡ false)
      (ht : (now : Time) → p (Call.patch_job_status (mark_completed job now)) ≡ false) where
    next_task-Quiet : (m : Machine) (n : ℕ) → Quiet p (next_task env job original m n)
    unfolding next_task create_task_with_owner
    next_task-Quiet m n =
        Quiet-if _ _ _
          (Quiet-bind _ _ (search (quiet_rules, hc))
            λ now. Quiet-bind _ _ (patch_status-Quiet env p _ _ (ht now)) (λ x. Quiet-pure _))
          (Quiet-bind _ _ (create_task-Quiet _ _ _ _)
            λ r. task_created-Quiet env p job original hf r hj)

    advance-Quiet : (m : Machine) (r : Progress) → Quiet p (advance env job original m r)
    unfolding advance
    advance-Quiet m (all_completed n) = next_task-Quiet m n
    advance-Quiet m (task_has_failed t) = fail_job-Quiet env p job original hf _
    advance-Quiet m in_progress = Quiet-pure _

    reconcile_tasks-Quiet : (m : Machine) → Quiet p (reconcile_tasks env job original m)
    unfolding reconcile_tasks
    reconcile_tasks-Quiet m =
        Quiet-bind _ _ (search (quiet_rules, hl))
          (elim [ ok items ↦ advance-Quiet m _ | err e ↦ Quiet-pure _ ])

    pub reconcile_started-Quiet : Quiet p (reconcile_started env job original)
    unfolding reconcile_started
    reconcile_started-Quiet =
        Quiet-bind _ _ (get_machine-Quiet env p _ hm)
          (elim [ ok m ↦ reconcile_tasks-Quiet m | err e ↦ Quiet-pure _ ])

-- At most one call that passes the test, where it passes patches or creations but no read.
module _ (env : Env) (p : Call env.Bmc → Bool) (hc : p Call.read_clock ≡ false)
    (hm : (k : NamespacedName) → p (Call.get_machine k) ≡ false)
    (hl : (x y : Text) → p (Call.list_tasks x y) ≡ false)
    (hg : (k : NamespacedName) → p (Call.get_job k) ≡ false)
    -- it passes patches only, or creations only
    (hk : ((j : Job) → p (Call.patch_job_status j) ≡ false)
      ⊎ ((t : Task) → p (Call.create_task t) ≡ false)) where
  open env use {World, Bmc}

  patch_status-AtMost : (j original : Job) → AtMost 1 p (patch_status env j original)
  unfolding patch_status
  patch_status-AtMost j original =
      AtMost-bind 1 0 _ _ (AtMost-perform_with 0 _ _)
        (elim [ none ↦ AtMost-pure 0 _ | some e ↦ AtMost-pure 0 _ ])

  fail_job-AtMost : (j original : Job) (e : Error) → AtMost 1 p (fail_job env j original e)
  unfolding fail_job
  fail_job-AtMost j original e =
      AtMost-bind 1 0 _ _ (patch_status-AtMost _ _)
        (elim [ none ↦ AtMost-pure 0 _ | some x ↦ AtMost-pure 0 _ ])

  task_created-AtMost :
      (j original : Job) (r : Option Error) → AtMost 1 p (task_created env j original r)
  unfolding task_created
  task_created-AtMost j original none =
      AtMost-bind 1 0 _ _ (patch_status-AtMost _ _) (λ x. AtMost-pure 0 _)
  task_created-AtMost j original (some e) = fail_job-AtMost j original e

  create_task-AtMost :
      (j : Job) (n : ℕ) (conn : Connection) (a : Option Action)
      → AtMost 1 p (create_task env j n conn a)
  unfolding create_task
  create_task-AtMost j n conn none = AtMost-Quiet 1 _ Quiet-fault
  create_task-AtMost j n conn (some a) =
      AtMost-bind 1 0 _ _ (AtMost-perform_with 0 _ _)
        (elim [ none ↦ AtMost-pure 0 _ | some e ↦ AtMost-pure 0 _ ])

  -- The creation and the patch that follows it: one of the two does not pass.
  created_and_patched-AtMost :
      (j original : Job) (n : ℕ) (conn : Connection) (a : Option Action)
      → AtMost 1 p (create_task env j n conn a >>= task_created env j original)
  created_and_patched-AtMost j original n conn a = elim hk [
    | inl hp ↦
        AtMost-bind 1 0 _ _ (create_task-AtMost j n conn a)
          (λ r. AtMost-Quiet 0 _ (task_created-Quiet env p j original (λ m. hp _) r (hp j)))
    | inr hk ↦
        AtMost-Quiet-bind 1 _ _ (create_task-Quiet env p hc hm hl hk j n conn a)
          (task_created-AtMost j original)
  ]

  next_task-AtMost :
      (j original : Job) (m : Machine) (n : ℕ) → AtMost 1 p (next_task env j original m n)
  unfolding next_task create_task_with_owner
  next_task-AtMost j original m n =
      AtMost-if 1 _ _ _
        (AtMost-Quiet-bind 1 _ _ (search (quiet_rules, hc))
          λ now. AtMost-bind 1 0 _ _ (patch_status-AtMost _ _) (λ x. AtMost-pure 0 _))
        (created_and_patched-AtMost j original n _ _)

  advance-AtMost :
      (j original : Job) (m : Machine) (r : Progress) → AtMost 1 p (advance env j original m r)
  unfolding advance
  advance-AtMost j original m (all_completed n) = next_task-AtMost j original m n
  advance-AtMost j original m (task_has_failed t) = fail_job-AtMost j original _
  advance-AtMost j original m in_progress = AtMost-pure 1 _

  reconcile_started-AtMost : (j original : Job) → AtMost 1 p (reconcile_started env j original)
  unfolding reconcile_started reconcile_tasks
  reconcile_started-AtMost j original =
      AtMost-Quiet-bind 1 _ _ (get_machine-Quiet env p _ hm) (elim [
        | err e ↦ AtMost-pure 1 _
        | ok m ↦
            AtMost-Quiet-bind 1 _ _ (search (quiet_rules, hl))
              (elim [ ok items ↦ advance-AtMost j original m _ | err e ↦ AtMost-pure 1 _ ])
      ])

  reconcile_found-AtMost : (j : Job) → AtMost 1 p (reconcile_found env j)
  unfolding reconcile_found do_reconcile
  reconcile_found-AtMost j =
      AtMost-if 1 (not (is_zero j.object_meta.deletion_timestamp)) _ _ (AtMost-pure 1 _) (
        AtMost-if 1 (is_settled j) _ _ (AtMost-pure 1 _) (
          AtMost-if 1 (not (has_condition j job_running condition_true)) _ _
            (AtMost-Quiet-bind 1 _ _ (search (quiet_rules, hc))
              (λ now. reconcile_started-AtMost _ _))
            (reconcile_started-AtMost _ _)))

  reconcile-AtMost : (req : NamespacedName) → AtMost 1 p (reconcile env req)
  unfolding reconcile
  reconcile-AtMost req =
      AtMost-Quiet-bind 1 _ _ (search (quiet_rules, hg))
        (elim [ ok j ↦ reconcile_found-AtMost j | err e ↦ AtMost-pure 1 _ ])

module _ (env : Env) (req : NamespacedName) (s : State env.World env.Bmc) where
  -- A reconciliation of a Job creates at most one Task and makes at most one status patch, whatever
  -- the calls return, and also where it panics.
  pub reconcile-one_each :
      (calls_of is_create (reconcile env req s).1 ≤ 1 + calls_of is_create s)
      × (calls_of is_patch (reconcile env req s).1 ≤ 1 + calls_of is_patch s)
  reconcile-one_each = (
    (reconcile-AtMost env is_create refl (λ k. refl) (λ x y. refl) (λ k. refl) (inl (λ j. refl))
          req).at
        s,
    (reconcile-AtMost env is_patch refl (λ k. refl) (λ x y. refl) (λ k. refl) (inr (λ t. refl))
          req).at
        s,
  )

  -- A reconciliation of a Job that is being deleted, or has the condition Completed or Failed, makes
  -- no call but the one that reads the job, and ends with no error and no requeue.
  pub reconcile-settled_job :
      (job : Job)
      → (env.get_job req s.world).0 ≡ ok job
      → (is_zero job.object_meta.deletion_timestamp ≡ false)
        ⊎ (has_condition job job_completed condition_true ≡ true)
        ⊎ (has_condition job job_failed condition_true ≡ true)
      → reconcile env req s ≡ (
        done (stop none),
        record { world = (env.get_job req s.world).1; calls = Call.get_job req ∷ s.calls },
      )
  unfolding reconcile reconcile_found is_settled ◌>>=◌
  reconcile-settled_job job got settled = rw got (ground arith)
