-- ===== src/System/Refines/Ready.antt =====
-- The reads of a reconciliation of a Job, in a lawful cluster.
use rufio.Prelude.{
  ◌≡◌, refl, ap, sym, ◌∙◌, Bool, true, false, List, [], count_if, Bool-cases, inl, inr,
}
use rufio.Api.Meta.{NamespacedName, ObjectMeta, is_zero}
use rufio.Api.Machine.{Machine, condition_true}
use rufio.Api.Task.{Task}
use rufio.Api.Job.{Job, job_running, has_condition, set_condition}
use rufio.Controller.Env.{Env}
use rufio.Controller.Exec.{State}
use rufio.Controller.Job.{is_settled, mark_running, scan_tasks, advance, reconcile}
use rufio.Controller.Job.Runs.{
  machine_key, started, read_job, read_machine, running_job, prepared, listing, started-spec,
  reconcile-advance,
}
use rufio.System.{View, IsLawful}

module _ (env : Env) (req : NamespacedName) (law : IsLawful env req) where
  open env use {World, Bmc}
  open law use {view}

  -- A reconciliation begins with no calls behind it.
  abbrev pub at : World → State World Bmc
  at w = record { world = w; calls = [] }

  -- The job with its start recorded, and the state after the reads.
  abbrev pub job_at : World → Job
  job_at w = running_job env req (at w) (view w).job

  abbrev pub listed_at : World → State World Bmc
  listed_at w = listing env req (at w) (view w).job

  started-object_meta :
      (job : Job) (s : State World Bmc)
      → ((started env job s).0.object_meta ≡ job.object_meta)
        × ((started env job s).0.type_meta ≡ job.type_meta)
        × (view (started env job s).1.world ≡ view s.world)
  unfolding mark_running set_condition
  started-object_meta job s = elim (Bool-cases (has_condition job job_running condition_true)) [
    | inl e ↦ rw e (refl, refl, refl)
    | inr e ↦ rw e (refl, refl, law.now_view s.world)
  ]

  pub job_at-same :
      (w : World)
      → ((job_at w).object_meta ≡ (view w).job.object_meta)
        × ((job_at w).type_meta ≡ (view w).job.type_meta)
        × ((job_at w).spec ≡ (view w).job.spec)
  job_at-same w =
      let s = read_job env req (at w) in
      let (o, t, v) = started-object_meta (view w).job s in (o, t, started-spec env (view w).job s)

  view-prepared : (w : World) → view (prepared env req (at w) (view w).job).world ≡ view w
  view-prepared w =
      let s = read_job env req (at w) in
      let (o, t, v) = started-object_meta (view w).job s in v ∙ law.get_job_view w

  abbrev found_at : World → World
  found_at w = (read_machine env (job_at w) (prepared env req (at w) (view w).job)).world

  view-found_at : (w : World) → view (found_at w) ≡ view w
  view-found_at w = law.get_machine_view _ _ ∙ view-prepared w

  pub view-listed_at : (w : World) → view (listed_at w).world ≡ view w
  view-listed_at w = law.list_tasks_view _ _ _ ∙ view-found_at w

  -- What the reads of a live job that is not settled come to.
  pub record IsReady (w : World) : Type 0 where
    pub machine : Machine
    pub items : List Task
    pub counts : (p : Task → Bool) → count_if p items ≡ count_if p (view w).tasks
    pub advances :
        reconcile env req (at w)
        ≡ advance env (job_at w) (view w).job machine (scan_tasks 0 items) (listed_at w)

  pub ready :
      (w : World)
      → is_zero (view w).job.object_meta.deletion_timestamp ≡ true
      → is_settled (view w).job ≡ false
      → IsReady w
  ready w live unsettled =
      let job = (view w).job in
      let (machine, found) =
        law.get_machine_result (machine_key env (job_at w)) (prepared env req (at w) job).world in
      let (o, t, p) = job_at-same w in
      let (items, listed, counts) =
        law.list_tasks_result (job_at w).object_meta.name (job_at w).object_meta.namespace
          (found_at w)
          (ap (λ (m : ObjectMeta). m.name) o
            ∙ ap (λ (v : View). v.job.object_meta.name) (sym (view-found_at w)))
          (ap (λ (m : ObjectMeta). m.namespace) o
            ∙ ap (λ (v : View). v.job.object_meta.namespace) (sym (view-found_at w))) in
      record {
        machine = machine;
        items = items;
        counts = λ q. counts q ∙ ap (λ (v : View). count_if q v.tasks) (view-found_at w);
        advances =
            reconcile-advance env req (at w) job machine items (law.get_job_result w) live unsettled
              found listed;
      }
