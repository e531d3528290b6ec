-- ===== src/Controller/Job/Status.antt =====
-- The status that the reconciler of Jobs writes.
use rufio.Prelude.{
  ◌≡◌, refl, ◌∙◌, Bool, true, false, not, ◌&&◌, Option, none, some, [], ◌∷◌, arith, Bool-cases, inl,
  inr,
}
use rufio.Prelude.Text.{Text, text_eq}
use rufio.Api.Meta.{Time, NamespacedName, is_zero}
use rufio.Api.Machine.{condition_true}
use rufio.Api.Job.{
  Job, JobConditionType, has_condition, set_condition, job_failed, job_completed, job_running,
}
use rufio.Api.Job.Laws.{has_condition-set_condition_job}
use rufio.Controller.Error.{ok}
use rufio.Controller.Env.{Env}
use rufio.Controller.Exec.{Call, State, ◌>>=◌}
use rufio.Controller.Exec.Keeps.{calls_of, Quiet, Quiet-pure, Quiet-bind, Quiet-if, quiet_rules}
use rufio.Controller.Job.{
  mark_failed, mark_completed, mark_running, is_settled, reconcile_started, do_reconcile,
  reconcile_found, reconcile,
}
use rufio.Controller.Job.Calls.{reconcile_started-Quiet}

abbrev pub is_true : Job → JobConditionType → Bool
is_true j t = has_condition j t condition_true

abbrev pub is_some : {A : Type 0} → Option A → Bool
is_some none = false
is_some (some a) = true

abbrev pub same : Bool → Bool → Bool
same true b = b
same false b = not b

-- The status of a job is coherent: it is Running, not both Completed and Failed, and has a
-- completion time exactly if it is Completed.
unfoldable pub is_coherent : Job → Bool
is_coherent j =
    is_true j job_running
    && (not (is_true j job_completed && is_true j job_failed)
        && same (is_true j job_completed) (is_some j.status.completion_time))

module _ (j : Job) (m : Text) where
  pub mark_failed-failed : is_true (mark_failed j m) job_failed ≡ true
  unfolding mark_failed text_eq
  mark_failed-failed =
      has_condition-set_condition_job j job_failed job_failed condition_true condition_true (m ∷ [])

  pub mark_failed-completed : is_true (mark_failed j m) job_completed ≡ is_true j job_completed
  unfolding mark_failed text_eq
  mark_failed-completed =
      has_condition-set_condition_job j job_failed job_completed condition_true condition_true
        (m ∷ [])

  mark_failed-running : is_true (mark_failed j m) job_running ≡ is_true j job_running
  unfolding mark_failed text_eq
  mark_failed-running =
      has_condition-set_condition_job j job_failed job_running condition_true condition_true
        (m ∷ [])

  completion_time-mark_failed : (mark_failed j m).status.completion_time ≡ j.status.completion_time
  unfolding mark_failed set_condition
  completion_time-mark_failed = refl

module _ (j : Job) (now : Time) where
  pub mark_completed-completed : is_true (mark_completed j now) job_completed ≡ true
  unfolding mark_completed text_eq has_condition
  mark_completed-completed =
      has_condition-set_condition_job j job_completed job_completed condition_true condition_true []

  pub mark_completed-failed : is_true (mark_completed j now) job_failed ≡ is_true j job_failed
  unfolding mark_completed text_eq has_condition
  mark_completed-failed =
      has_condition-set_condition_job j job_completed job_failed condition_true condition_true []

  pub mark_completed-running : is_true (mark_completed j now) job_running ≡ is_true j job_running
  unfolding mark_completed text_eq has_condition
  mark_completed-running =
      has_condition-set_condition_job j job_completed job_running condition_true condition_true []

  pub completion_time-mark_completed : (mark_completed j now).status.completion_time ≡ some now
  unfolding mark_completed
  completion_time-mark_completed = refl

-- A running job that is not settled and has no completion time.
pub record IsUnderWay (j : Job) : Type 0 where
  pub running : is_true j job_running ≡ true
  pub not_completed : is_true j job_completed ≡ false
  pub not_failed : is_true j job_failed ≡ false
  pub not_timed : j.status.completion_time ≡ none

module _ (j : Job) (now : Time) where
  pub mark_running-running : is_true (mark_running j now) job_running ≡ true
  unfolding mark_running text_eq
  mark_running-running =
      has_condition-set_condition_job _ job_running job_running condition_true condition_true []

  pub mark_running-completed : is_true (mark_running j now) job_completed ≡ is_true j job_completed
  unfolding mark_running text_eq has_condition
  mark_running-completed =
      has_condition-set_condition_job _ job_running job_completed condition_true condition_true []

  pub mark_running-failed : is_true (mark_running j now) job_failed ≡ is_true j job_failed
  unfolding mark_running text_eq has_condition
  mark_running-failed =
      has_condition-set_condition_job _ job_running job_failed condition_true condition_true []

  completion_time-mark_running :
      (mark_running j now).status.completion_time ≡ j.status.completion_time
  unfolding mark_running set_condition
  completion_time-mark_running = refl

mark_running-IsUnderWay :
    (j : Job) (now : Time)
    → is_true j job_completed ≡ false
    → is_true j job_failed ≡ false
    → j.status.completion_time ≡ none
    → IsUnderWay (mark_running j now)
mark_running-IsUnderWay j now hc hf ht = record {
  running = mark_running-running j now;
  not_completed = mark_running-completed j now ∙ hc;
  not_failed = mark_running-failed j now ∙ hf;
  not_timed = completion_time-mark_running j now ∙ ht;
}

module _ (j : Job) (h : IsUnderWay j) where
  is_coherent_under_way : is_coherent j ≡ true
  unfolding is_coherent
  is_coherent_under_way = rw (h.running, h.not_completed, h.not_timed)

  mark_failed-is_coherent : (m : Text) → is_coherent (mark_failed j m) ≡ true
  unfolding is_coherent
  mark_failed-is_coherent m = rw (
    mark_failed-running, mark_failed-completed, mark_failed-failed, completion_time-mark_failed,
    h.running, h.not_completed, h.not_timed,
  )

  mark_completed-is_coherent : (now : Time) → is_coherent (mark_completed j now) ≡ true
  unfolding is_coherent
  mark_completed-is_coherent now = rw (
    mark_completed-running, mark_completed-completed, mark_completed-failed,
    completion_time-mark_completed, h.running, h.not_failed,
  )

module _ {B : Type 0} where
  -- A patch of a Job to a status that is not coherent.
  abbrev pub is_incoherent : Call B → Bool
  is_incoherent (Call.patch_job_status j) = not (is_coherent j)
  is_incoherent _ = false

module _ (env : Env) where
  open env use {World, Bmc}

  reconcile_started-coherent :
      (j original : Job) → IsUnderWay j → Quiet is_incoherent (reconcile_started env j original)
  reconcile_started-coherent j original h =
      reconcile_started-Quiet env is_incoherent refl (λ k. refl) (λ x y. refl) (λ t. refl) j
        original (rw (is_coherent_under_way j h)) (λ m. rw (mark_failed-is_coherent j h m))
        (λ now. rw (mark_completed-is_coherent j h now))

  do_reconcile-coherent :
      (j : Job)
      → is_true j job_completed ≡ false
      → is_true j job_failed ≡ false
      → j.status.completion_time ≡ none
      → Quiet is_incoherent (do_reconcile env j)
  unfolding do_reconcile
  do_reconcile-coherent j hc hf ht = elim (Bool-cases (is_true j job_running)) [
    | inl r ↦ rw r (
        reconcile_started-coherent j j
          (record { running = r; not_completed = hc; not_failed = hf; not_timed = ht }))
    | inr r ↦ rw r (
        Quiet-bind _ _ (search quiet_rules)
          (λ now. reconcile_started-coherent _ j (mark_running-IsUnderWay j now hc hf ht)))
  ]

  reconcile_found-coherent :
      (j : Job) → j.status.completion_time ≡ none → Quiet is_incoherent (reconcile_found env j)
  unfolding reconcile_found
  reconcile_found-coherent j h =
      Quiet-if (not (is_zero j.object_meta.deletion_timestamp)) _ _ (Quiet-pure _)
        (elim (Bool-cases (is_settled j)) [
          | inl e ↦ rw e (Quiet-pure _)
          | inr e ↦
              rw e (unfold is_settled in do_reconcile-coherent j (ground arith) (ground arith) h)
        ])

  -- Every status of a Job that its reconciliation writes is coherent: it has the condition Running,
  -- which stays when the Job is Completed or Failed, never both Completed
  -- and Failed, with a completion time exactly where it is Completed. The Job that was read has no
  -- completion time; nothing is assumed of what the calls return.
  pub reconcile-coherent_job :
      (req : NamespacedName) (s : State World Bmc) (j : Job)
      → (env.get_job req s.world).0 ≡ ok j
      → j.status.completion_time ≡ none
      → calls_of is_incoherent (reconcile env req s).1 ≡ calls_of is_incoherent s
  unfolding reconcile ◌>>=◌
  reconcile-coherent_job req s j got h = rw got ((reconcile_found-coherent j h).at _)
