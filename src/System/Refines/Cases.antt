-- ===== src/System/Refines/Cases.antt =====
-- The cases of a reconciliation of a Job, each with its step of the plan.
use rufio.Prelude.{
  ◌≡◌, refl, ap, sym, ◌∙◌, Bool, true, false, ◌==◌, Option, none, some, List, [], ◌∷◌, ◌++◌, arith,
  length, get_elem?, count_if, Bool-cases, inl, inr,
}
use native.Mathlib.Nat.{zero-add}
use rufio.Prelude.Text.{Text}
use rufio.Api.Meta.{NamespacedName, ObjectMeta, TypeMeta}
use rufio.Api.Action.{Action}
use rufio.Api.Machine.{Machine, condition_true}
use rufio.Api.Task.{Task}
use rufio.Api.Job.{Job, JobSpec, job_completed, job_failed, has_condition}
use rufio.Controller.Error.{Error, message}
use rufio.Controller.Env.{Env}
use rufio.Controller.Exec.{State, Outcome, Reconciled, pure}
use rufio.Controller.Job.{
  scan_tasks, fail_job, all_completed, advance, owned_task, mark_completed, mark_failed,
}
use rufio.Controller.Job.Scan.{scan_tasks-completed}
use rufio.Controller.Job.Ownership.{task_owner_index_func-owned_task}
use rufio.System.{
  running, failed, Plan, unfinished, failures, start_next, go_on, next_in, next, phase_of_job, View,
  plan_of, IsNamed, IsFresh, IsLawful,
}
use rufio.System.Scan.{
  is_open, has_failed, All-IsCompleted, scan-waits, scan-fails, unfinished-steps_of,
  failures-steps_of, length-steps_of, length-count_if,
}
use rufio.System.Plans.{IsOrdered, unfinished-IsOrdered, get_elem?-none, get_elem?-some}
use rufio.System.Effects.{IsDone, with_status, fail_job_view, completes_view, creates_view}
use rufio.System.Refines.Facts.{
  plan_of-with_status, phase-mark_completed, phase-mark_failed, IsNamed-same, IsNamed-append,
  IsFresh-IsNamed, format_task_name-same, steps_of-owned_task,
}

go_on_done :
    (p : Plan)
    → unfinished p.tasks ≡ 0
    → go_on p ≡ start_next p (get_elem? p.actions (length p.tasks))
go_on_done p h = rw h

go_on_waits : (p : Plan) → unfinished p.tasks ≡ 1 → failures p.tasks ≡ 0 → go_on p ≡ p
go_on_waits p h k = rw (h, k)

go_on_fails :
    (p : Plan)
    → unfinished p.tasks ≡ 1
    → failures p.tasks ≡ 1
    → go_on p ≡ record p { phase = failed }
go_on_fails p h k = rw (h, k)

module _ (env : Env) (req : NamespacedName) (law : IsLawful env req) where
  open env use {World, Bmc}
  open law use {view}

  -- A result that does what the plan promises of a view.
  pub record IsRefined (v : View) (r : Outcome Reconciled × State World Bmc) : Type 0 where
    pub returned : IsDone r.0
    pub refined : plan_of (view r.1.world) ≡ next (plan_of v)
    pub named : IsNamed (view r.1.world).job 0 (view r.1.world).tasks
    pub kept : (view r.1.world).job.object_meta ≡ v.job.object_meta

  with_status-IsRefined :
      (v : View) (j : Job) (r : Outcome Reconciled × State World Bmc)
      → IsDone r.0 × (view r.1.world ≡ with_status v j)
      → IsNamed v.job 0 v.tasks
      → record (plan_of v) { phase = phase_of_job j } ≡ next (plan_of v)
      → IsRefined v r
  with_status-IsRefined v j r (d, e) n h = record {
    returned = d;
    refined = rw e (plan_of-with_status v j ∙ h);
    named = rw e (IsNamed-same v.job (record v.job { status = j.status }) 0 v.tasks refl n);
    kept = rw e;
  }

  -- A live job that has neither completed nor failed, as it is when its tasks have been listed.
  module _ (v : View) (j original : Job) (m : Machine) (items : List Task) (s : State World Bmc)
      (seen : view s.world ≡ v) (base : original ≡ v.job)
      (counts : (p : Task → Bool) → count_if p items ≡ count_if p v.tasks)
      (object_meta : j.object_meta ≡ v.job.object_meta) (type_meta : j.type_meta ≡ v.job.type_meta)
      (spec : j.spec ≡ v.job.spec)
      (not_completed : has_condition j job_completed condition_true ≡ false)
      (not_failed : has_condition j job_failed condition_true ≡ false)
      (unsettled : phase_of_job v.job ≡ running) (named : IsNamed v.job 0 v.tasks)
      (ordered : IsOrdered (plan_of v)) where
    abbrev outcome : Outcome Reconciled × State World Bmc
    outcome = advance env j original m (scan_tasks 0 items) s

    read_base : original ≡ (view s.world).job
    read_base = base ∙ ap (λ (u : View). u.job) (sym seen)

    goes_on : next (plan_of v) ≡ go_on (plan_of v)
    goes_on = ap (λ ph. next_in ph (plan_of v)) unsettled

    waits-IsRefined :
        count_if is_open v.tasks ≡ 1 → count_if has_failed v.tasks ≡ 0 → IsRefined v outcome
    unfolding advance pure
    waits-IsRefined h k =
        rw (scan-waits 0 items (counts is_open ∙ h) (counts has_failed ∙ k)) (record {
          returned = (_, refl);
          refined =
              ap plan_of seen
              ∙ sym (
                  goes_on
                  ∙ go_on_waits (plan_of v) (unfinished-steps_of v.tasks ∙ h)
                      (failures-steps_of v.tasks ∙ k));
          named = rw seen named;
          kept = rw seen;
        })

    failed-IsRefined :
        (e : Error)
        → next (plan_of v) ≡ record (plan_of v) { phase = failed }
        → IsRefined v (fail_job env j original e s)
    failed-IsRefined e h =
        let (d, q) = fail_job_view env req law j original e s read_base in
        let marked = mark_failed j (message e) in
        with_status-IsRefined v marked (fail_job env j original e s)
          (d, q ∙ ap (λ u. with_status u marked) seen) named
          (ap (λ ph. record (plan_of v) { phase = ph })
              (phase-mark_failed j (message e) not_completed)
            ∙ sym h)

    fails-IsRefined :
        count_if is_open v.tasks ≡ 1 → count_if has_failed v.tasks ≡ 1 → IsRefined v outcome
    unfolding advance
    fails-IsRefined h k =
        let (t, e) = scan-fails 0 items (counts is_open ∙ h) (counts has_failed ∙ k) in
        rw e (
          failed-IsRefined _ (
            goes_on
            ∙ go_on_fails (plan_of v) (unfinished-steps_of v.tasks ∙ h)
                (failures-steps_of v.tasks ∙ k)))

    length-items : length items ≡ length v.tasks
    length-items = sym (length-count_if items) ∙ counts (λ t. true) ∙ length-count_if v.tasks

    promised :
        (a : Option Action)
        → count_if is_open v.tasks ≡ 0
        → get_elem? v.job.spec.tasks (length v.tasks) ≡ a
        → next (plan_of v) ≡ start_next (plan_of v) a
    promised a h e =
        goes_on
        ∙ go_on_done (plan_of v) (unfinished-steps_of v.tasks ∙ h)
        ∙ ap (start_next (plan_of v))
            (ap (get_elem? v.job.spec.tasks) (length-steps_of v.tasks) ∙ e)

    scanned : count_if is_open v.tasks ≡ 0 → scan_tasks 0 items ≡ all_completed (length items)
    scanned h =
        scan_tasks-completed 0 items (All-IsCompleted items (counts is_open ∙ h))
        ∙ ap all_completed (zero-add (length items))

    completes-IsRefined :
        count_if is_open v.tasks ≡ 0
        → get_elem? v.job.spec.tasks (length v.tasks) ≡ none
        → IsRefined v outcome
    completes-IsRefined h e =
        let full : length items ≡ length j.spec.tasks = omega (
          arith,
          length-items,
          ap (λ (x : JobSpec). length x.tasks) spec,
          get_elem?-none v.job.spec.tasks (length v.tasks) e,
          length-steps_of v.tasks,
          unfinished-IsOrdered (plan_of v) ordered,
        ) in
        let (d, q) = completes_view env req law j original m (length items) s read_base full in
        let marked = mark_completed j (env.now s.world).0 in
        rw (scanned h) (
          with_status-IsRefined v marked (advance env j original m (all_completed (length items)) s)
            (d, q ∙ ap (λ u. with_status u marked) seen) named
            (ap (λ ph. record (plan_of v) { phase = ph })
                (phase-mark_completed j (env.now s.world).0)
              ∙ sym (promised none h e)))

    creates-IsRefined :
        (action : Action)
        → count_if is_open v.tasks ≡ 0
        → get_elem? v.job.spec.tasks (length v.tasks) ≡ some action
        → IsRefined v outcome
    unfolding owned_task
    creates-IsRefined action h e =
        let n = length items in
        let found : get_elem? j.spec.tasks n ≡ some action =
          ap (λ (x : JobSpec). get_elem? x.tasks n) spec
          ∙ ap (get_elem? v.job.spec.tasks) length-items
          ∙ e in
        let task = owned_task j n action m.spec.connection in
        let same_name = ap (λ (x : ObjectMeta). x.name) object_meta in
        let fresh : IsFresh task.object_meta.name (view s.world).tasks =
          rw (seen, format_task_name-same j v.job n same_name)
            (IsFresh-IsNamed v.job 0 n v.tasks named (omega (arith, length-items))) in
        let (d, q) =
          creates_view env req law j original m n action s read_base
            (get_elem?-some j.spec.tasks n action found) found fresh
            (task_owner_index_func-owned_task env law.controller_of j n action m.spec.connection
                (ap (λ (x : TypeMeta). x.kind) type_meta
                  ∙ ap (λ (u : View). u.job.type_meta.kind) (sym seen)
                  ∙ law.kind s.world)
                (ap (λ (x : TypeMeta). x.api_version) type_meta
                  ∙ ap (λ (u : View). u.job.type_meta.api_version) (sym seen)
                  ∙ law.api_version s.world)
              ∙ ap (λ (x : Text). x ∷ [])
                  (same_name ∙ ap (λ (u : View). u.job.object_meta.name) (sym seen)))
            (ap (λ (x : ObjectMeta). x.namespace) object_meta
              ∙ ap (λ (u : View). u.job.object_meta.namespace) (sym seen)) in
        let grown : View → View = λ u. with_status (record u { tasks = u.tasks ++ task ∷ [] }) j in
        let now_is = q ∙ ap grown seen in
        let v' : View = record v { tasks = v.tasks ++ task ∷ [] } in
        let tasks_are = steps_of-owned_task j n action m.spec.connection v.tasks in
        let phase_is : phase_of_job j ≡ phase_of_job v.job =
          rw (not_completed, not_failed) (sym unsettled) in
        rw (scanned h) (record {
          returned = d;
          refined =
              ap plan_of now_is
              ∙ plan_of-with_status v' j
              ∙ (λ i. record (plan_of v) { tasks = tasks_are i; phase = phase_is i })
              ∙ sym (promised (some action) h e);
          named = rw now_is (
              IsNamed-same v.job (record v.job { status = j.status }) 0 (v.tasks ++ task ∷ []) refl
                (IsNamed-append v.job 0 n v.tasks task named (omega (arith, length-items))
                  (format_task_name-same j v.job n same_name)));
          kept = rw now_is;
        })

    some_open-IsRefined : count_if is_open v.tasks ≡ 1 → IsRefined v outcome
    some_open-IsRefined h =
        let (u, f, l) = unfinished-IsOrdered (plan_of v) ordered in
        let open_is = unfinished-steps_of v.tasks in
        let failed_is = failures-steps_of v.tasks in
        elim (Bool-cases (count_if has_failed v.tasks == 0)) [
          | inl z ↦ waits-IsRefined h (ground arith)
          | inr z ↦
              let one : count_if has_failed v.tasks ≡ 1 = ground arith in fails-IsRefined h one
        ]

    none_open-IsRefined :
        (a : Option Action)
        → get_elem? v.job.spec.tasks (length v.tasks) ≡ a
        → count_if is_open v.tasks ≡ 0
        → IsRefined v outcome
    none_open-IsRefined none e h = completes-IsRefined h e
    none_open-IsRefined (some action) e h = creates-IsRefined action h e

    -- In each case, the job does what the plan promises.
    pub advance-IsRefined : IsRefined v outcome
    advance-IsRefined =
        let (u, f, l) = unfinished-IsOrdered (plan_of v) ordered in
        let open_is = unfinished-steps_of v.tasks in
        elim (Bool-cases (count_if is_open v.tasks == 0)) [
          | inl z ↦ none_open-IsRefined _ refl (ground arith)
          | inr z ↦ let one : count_if is_open v.tasks ≡ 1 = ground arith in some_open-IsRefined one
        ]
