-- ===== src/System/Effects.antt =====
-- What the parts of the reconciler of Jobs change of a lawful cluster.
use rufio.Prelude.{
  sym, ℕ, ◌≡◌, ◌<◌, refl, ap, ◌∙◌, true, false, ◌==◌, none, some, [], ◌∷◌, ◌++◌, length, get_elem?,
  arith,
}
use rufio.Api.Meta.{NamespacedName}
use rufio.Api.Action.{Action}
use rufio.Api.ProviderOpts.{Connection}
use rufio.Api.Machine.{Machine}
use rufio.Api.Task.{Task}
use rufio.Api.Job.{Job}
use rufio.Controller.Error.{Error, message}
use rufio.Controller.Env.{Env}
use rufio.Controller.Exec.{Call, State, Outcome, done, stop, pure, ◌>>=◌}
use rufio.Controller.Job.{
  patch_status, fail_job, create_task, task_created, create_task_with_owner, next_task, advance,
  owned_task, mark_completed, mark_failed, all_completed, task_object, task_owner_index_func,
}
use rufio.System.{View, IsFresh, IsLawful}

-- A call that returned.
abbrev pub IsDone : {A : Type 0} → Outcome A → Type 0
IsDone {A} r = (a : A) × (r ≡ done a)

-- A view with another status of the job.
abbrev pub with_status : View → Job → View
with_status v j = record v { job = record v.job { status = j.status } }

owned_task-alive :
    (j : Job) (n : ℕ) (action : Action) (conn : Connection)
    → (owned_task j n action conn).object_meta.deletion_timestamp ≡ none
unfolding owned_task
owned_task-alive j n action conn = refl

module _ (env : Env) (req : NamespacedName) (law : IsLawful env req) where
  open env use {World, Bmc}
  open law use {view}

  abbrev after_clock : State World Bmc → State World Bmc
  after_clock s = record { world = (env.now s.world).1; calls = Call.read_clock ∷ s.calls }

  abbrev after_create : Task → State World Bmc → State World Bmc
  after_create t s = record {
    world = (env.create_task t s.world).1;
    calls = Call.create_task t ∷ s.calls;
  }

  patched_lem :
      (j original : Job) (s : State World Bmc)
      → original ≡ (view s.world).job
      → let r = (patch_status env j original >>= λ p. pure (stop p)) s in
        IsDone r.0 × (view r.1.world ≡ with_status (view s.world) j)
  unfolding patch_status ◌>>=◌
  patched_lem j original s base =
      let (e, v) = law.patch_job_status_lem j original s.world base in rw e ((_, refl), v)

  pub fail_job_view :
      (j original : Job) (e : Error) (s : State World Bmc)
      → original ≡ (view s.world).job
      → let r = fail_job env j original e s in
        IsDone r.0 × (view r.1.world ≡ with_status (view s.world) (mark_failed j (message e)))
  unfolding fail_job patch_status ◌>>=◌
  fail_job_view j original e s base =
      let (p, v) = law.patch_job_status_lem (mark_failed j (message e)) original s.world base in
      rw p ((_, refl), v)

  pub completes_view :
      (j original : Job) (m : Machine) (n : ℕ) (s : State World Bmc)
      → original ≡ (view s.world).job
      → n ≡ length j.spec.tasks
      → let r = advance env j original m (all_completed n) s in
        IsDone r.0
        × (view r.1.world ≡ with_status (view s.world) (mark_completed j (env.now s.world).0))
  unfolding advance next_task
  completes_view j original m n s base e =
      let full : (n == length j.spec.tasks) ≡ true = ground arith in
      let now = (env.now s.world).0 in
      let (r, v) =
        patched_lem (mark_completed j now) original (after_clock s)
          (base ∙ ap (λ (u : View). u.job) (sym (law.now_view s.world))) in
      rw full (
        unfold ◌>>=◌ in
        (r, v ∙ ap (λ u. with_status u (mark_completed j now)) (law.now_view s.world)))

  pub creates_view :
      (j original : Job) (m : Machine) (n : ℕ) (action : Action) (s : State World Bmc)
      → original ≡ (view s.world).job
      → n < length j.spec.tasks
      → get_elem? j.spec.tasks n ≡ some action
      → let task = owned_task j n action m.spec.connection in
        IsFresh task.object_meta.name (view s.world).tasks
        → task_owner_index_func env (task_object task) ≡ (view s.world).job.object_meta.name ∷ []
        → task.object_meta.namespace ≡ (view s.world).job.object_meta.namespace
        → let r = advance env j original m (all_completed n) s in
          IsDone r.0
          × (view r.1.world
              ≡ with_status (record (view s.world) { tasks = (view s.world).tasks ++ task ∷ [] }) j)
  unfolding advance next_task create_task_with_owner create_task task_created
  creates_view j original m n action s base h found fresh indexed placed =
      let partial : (n == length j.spec.tasks) ≡ false = ground arith in
      let task = owned_task j n action m.spec.connection in
      let (e, v) =
        law.create_task_lem task s.world fresh indexed placed
          (owned_task-alive j n action m.spec.connection) in
      let (r, v') =
        patched_lem j original (after_create task s) (base ∙ ap (λ (u : View). u.job) (sym v)) in
      rw (partial, found) (unfold ◌>>=◌ in rw e (r, v' ∙ ap (λ u. with_status u j) v))
