-- ===== src/Controller/Exec.antt =====
-- Stateful calls. A function that calls out is a function of the world and of the calls made so
-- far; it returns, or it panics as Go does on an index out of range. The calls are kept newest
-- first, so that a theorem can speak of which calls were made and in which order.
pub mod Keeps
pub mod Balance
pub mod Patches
pub mod Always
use rufio.Prelude.{ℕ, Bool, false, List, ◌∷◌, Option}
use rufio.Prelude.Text.{Text}
use rufio.Api.Meta.{NamespacedName}
use rufio.Api.Machine.{Machine}
use rufio.Api.Job.{Job}
use rufio.Api.Task.{Task}
use rufio.Controller.Error.{Error}
use rufio.Controller.Env.{CtrlResult}

-- One call of `Env`, with its arguments; `B` is the type of bmclib clients.
pub data Call (B : Type 0) : Type 0 where
  get_machine : NamespacedName → Call B
  get_job : NamespacedName → Call B
  get_task : NamespacedName → Call B
  get_secret : NamespacedName → Call B
  list_tasks : Text → Text → Call B
  create_task : Task → Call B
  patch_machine_status : Machine → Call B
  patch_job_status : Job → Call B
  patch_task_status : Task → Call B
  read_clock : Call B
  eventf : Text → Text → Text → Call B
  -- the client, and the error of its `Open`
  open_client : B → Option Error → Call B
  close_client : B → Call B
  get_power_state : B → Call B
  set_power_state : Text → B → Call B
  set_boot_device : Text → Bool → Bool → B → Call B
  set_virtual_media : Text → Text → B → Call B

pub record State (W B : Type 0) : Type 0 where
  pub world : W
  pub calls : List (Call B)

pub data Outcome (A : Type 0) : Type 0 where
  done : A → Outcome A
  panic : Outcome A

abbrev pub Exec : Type 0 → Type 0 → Type 0 → Type 0
Exec W B A = State W B → Outcome A × State W B

module _ {W B : Type 0} where
  unfoldable pub pure : {A : Type 0} → A → Exec W B A
  pure a s = (done a, s)

  -- a run-time panic
  unfoldable pub fault : {A : Type 0} → Exec W B A
  fault s = (panic, s)

  -- a call, whose entry among the calls may hold its result
  unfoldable pub perform_with : {A : Type 0} → (A → Call B) → (W → A × W) → Exec W B A
  perform_with c op s =
      let (a, w) = op s.world in (done a, record { world = w; calls = c a ∷ s.calls })

  abbrev pub perform : {A : Type 0} → Call B → (W → A × W) → Exec W B A
  perform c = perform_with (λ _. c)

  -- `defer`: the second runs after the first, whether that returns or panics
  unfoldable pub finally : {A C : Type 0} → Exec W B A → Exec W B C → Exec W B A
  finally m cleanup s = let (r, s') = m s in (r, (cleanup s').1)

  -- a panic skips the rest
  abbrev pub resume : {A C : Type 0} → (A → Exec W B C) → Outcome A → Exec W B C
  resume f (done a) s = f a s
  resume f panic s = (panic, s)

  infixl 5 ◌>>=◌ ◌>>◌
  -- opening this opens `pure`, `fault`, `perform_with` and `finally` too
  unfoldable pub ◌>>=◌ : {A C : Type 0} → Exec W B A → (A → Exec W B C) → Exec W B C
  unfolding pure fault perform_with finally
  ◌>>=◌ m f s = let (r, s') = m s in resume f r s'

  abbrev pub ◌>>◌ : {A C : Type 0} → Exec W B A → Exec W B C → Exec W B C
  m >> k = m >>= λ _. k

-- What Reconcile returns.
pub record Reconciled : Type 0 where
  pub result : CtrlResult
  pub error : Option Error

-- `ctrl.Result{}`, and `ctrl.Result{RequeueAfter: d}`.
abbrev pub no_requeue : CtrlResult
no_requeue = record { requeue = false; requeue_after = 0 }

abbrev pub requeue_in : ℕ → CtrlResult
requeue_in d = record { requeue = false; requeue_after = d }

-- `return ctrl.Result{}, err`.
abbrev pub stop : Option Error → Reconciled
stop e = record { result = no_requeue; error = e }
