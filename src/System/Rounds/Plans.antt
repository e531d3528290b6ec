-- ===== src/System/Rounds/Plans.antt =====
-- A plan whose running action is completed between two steps.
use rufio.Prelude.{
  ℕ, zero, suc, ◌+◌, ◌-◌, ◌≡◌, ◌≤◌, ◌<◌, refl, ap, ◌∙◌, Bool, true, false, ◌==◌, none, List, [],
  ◌∷◌, ◌++◌, length, get_elem?, length-append, arith, Option-cases, inl, inr, Bool-cases,
}
use rufio.Api.Meta.{ObjectMeta}
use rufio.Api.Action.{Action}
use rufio.Api.Task.{Task}
use rufio.Api.Job.{Job}
use rufio.System.{
  Phase, running, completed, failed, is_failed, Plan, unfinished, failures, start_next, next_in,
  next, phase_of, phase_of_task, steps_of, IsNamed,
}
use rufio.System.Plans.{
  IsOrdered, IsPrefix, IsSerial, Says, failures-le-unfinished, count_if-append, get_elem?-some,
}

abbrev pub finished : Phase → Phase
finished running = completed
finished completed = completed
finished failed = failed

abbrev pub finish_all : List (Action × Phase) → List (Action × Phase)
finish_all [] = []
finish_all (t ∷ ts) = (t.0, finished t.1) ∷ finish_all ts

-- The second list is the first, with each running task completed.
abbrev pub Finishes : List Task → List Task → Type 0
Finishes [] [] = Unit
Finishes [] (u ∷ us) = ⊥
Finishes (t ∷ ts) [] = ⊥
Finishes (t ∷ ts) (u ∷ us) =
    (u.object_meta ≡ t.object_meta)
    × (u.spec ≡ t.spec)
    × (phase_of_task u ≡ finished (phase_of_task t))
    × Finishes ts us

unfinished-finish_all :
    (ts : List (Action × Phase)) → failures ts ≡ 0 → unfinished (finish_all ts) ≡ 0
unfinished-finish_all [] h = refl
unfinished-finish_all ((a, running) ∷ ts) h = unfinished-finish_all ts h
unfinished-finish_all ((a, completed) ∷ ts) h = unfinished-finish_all ts h
unfinished-finish_all ((a, failed) ∷ ts) h = absurd (omega arith)

failures-finish_all : (ts : List (Action × Phase)) → failures (finish_all ts) ≡ failures ts
failures-finish_all [] = refl
failures-finish_all ((a, running) ∷ ts) = failures-finish_all ts
failures-finish_all ((a, completed) ∷ ts) = failures-finish_all ts
failures-finish_all ((a, failed) ∷ ts) = omega (arith, failures-finish_all ts)

length-finish_all : (ts : List (Action × Phase)) → length (finish_all ts) ≡ length ts
length-finish_all [] = refl
length-finish_all (t ∷ ts) = omega (arith, length-finish_all ts)

pub steps_of-Finishes :
    (ts us : List Task) → Finishes ts us → steps_of us ≡ finish_all (steps_of ts)
steps_of-Finishes [] [] h = refl
steps_of-Finishes [] (u ∷ us) h = absurd h
steps_of-Finishes (t ∷ ts) [] h = absurd h
steps_of-Finishes (t ∷ ts) (u ∷ us) (m, s, e, h) =
    λ i. ((s i).task, e i) ∷ steps_of-Finishes ts us h i

pub IsNamed-Finishes :
    (j : Job) (i : ℕ) (ts us : List Task) → Finishes ts us → IsNamed j i ts → IsNamed j i us
IsNamed-Finishes j i [] [] h n = tt
IsNamed-Finishes j i [] (u ∷ us) h n = absurd h
IsNamed-Finishes j i (t ∷ ts) [] h n = absurd h
IsNamed-Finishes j i (t ∷ ts) (u ∷ us) (m, s, e, h) n =
    (ap (λ (x : ObjectMeta). x.name) m ∙ n.0, IsNamed-Finishes j (suc i) ts us h n.1)

-- One round of a plan.
abbrev pub round_of : Plan → Plan
round_of p = record (next p) { tasks = finish_all (next p).tasks }

abbrev pub rounds_of : ℕ → Plan → Plan
rounds_of zero p = p
rounds_of (suc n) p = rounds_of n (round_of p)

stays_completed : (n : ℕ) (p : Plan) → p.phase ≡ completed → (rounds_of n p).phase ≡ completed
stays_completed zero p h = h
stays_completed (suc n) p h =
    stays_completed n (round_of p) (ap (λ (q : Plan). q.phase) (ap (λ ph. next_in ph p) h) ∙ h)

start_next-none : (p : Plan) → (start_next p none).phase ≡ completed
start_next-none p = refl

-- With all started actions completed, a job with `k` actions left is completed after more than `k`
-- rounds.
completes_from :
    (n k : ℕ) (p : Plan)
    → p.phase ≡ running
    → unfinished p.tasks ≡ 0
    → failures p.tasks ≡ 0
    → length p.tasks + k ≡ length p.actions
    → k < n
    → (rounds_of n p).phase ≡ completed
completes_from zero k p r u f l h = absurd (omega arith)
completes_from (suc n) k p r u f l h =
    let promised : next p ≡ start_next p (get_elem? p.actions (length p.tasks)) =
      ap (λ ph. next_in ph p) r ∙ rw u refl in
    elim (Option-cases (get_elem? p.actions (length p.tasks))) [
      | inl e ↦
          stays_completed n (round_of p)
            (ap (λ (q : Plan). q.phase) (promised ∙ ap (start_next p) e))
      | inr (a, e) ↦
          let now_is : round_of p ≡ record p { tasks = finish_all (p.tasks ++ (a, running) ∷ []) } =
            ap (λ (q : Plan). record q { tasks = finish_all q.tasks })
              (promised ∙ ap (start_next p) e) in
          let grown = p.tasks ++ (a, running) ∷ [] in
          let none_failed : failures grown ≡ 0 =
            count_if-append (λ (t : Action × Phase). is_failed t.1) p.tasks ((a, running) ∷ [])
            ∙ omega (arith, f) in
          let more = get_elem?-some p.actions (length p.tasks) a e in
          ap (λ (q : Plan). (rounds_of n q).phase) now_is
          ∙ completes_from n (k - 1) (record p { tasks = finish_all grown }) r
              (unfinished-finish_all grown none_failed) (failures-finish_all grown ∙ none_failed)
              (omega (
                arith,
                l,
                more,
                length-finish_all grown,
                length-append p.tasks ((a, running) ∷ []),
              ))
              (omega (arith, h, l, more))
    ]

-- A job none of whose tasks has failed is completed after more rounds than it has actions left, and
-- one for the task that is running.
pub rounds_complete :
    (n : ℕ) (p : Plan)
    → p.phase ≡ running
    → failures p.tasks ≡ 0
    → length p.tasks ≤ length p.actions
    → length p.actions + 1 < n
    → (rounds_of n p).phase ≡ completed
rounds_complete zero p r f l h = absurd (omega arith)
rounds_complete (suc n) p r f l h = elim (Bool-cases (unfinished p.tasks == 0)) [
  | inl u ↦
      completes_from (suc n) (length p.actions - length p.tasks) p r (ground arith) f (omega arith)
        (omega arith)
  | inr u ↦
      let waits : next p ≡ p = ap (λ ph. next_in ph p) r ∙ rw (u, f) refl in
      let now_is : round_of p ≡ record p { tasks = finish_all p.tasks } =
        ap (λ (q : Plan). record q { tasks = finish_all q.tasks }) waits in
      ap (λ (q : Plan). (rounds_of n q).phase) now_is
      ∙ completes_from n (length p.actions - length p.tasks)
          (record p { tasks = finish_all p.tasks }) r (unfinished-finish_all p.tasks f)
          (failures-finish_all p.tasks ∙ f) (omega (arith, length-finish_all p.tasks)) (omega arith)
]

IsPrefix-finish_all :
    (ts : List (Action × Phase)) (actions : List Action)
    → IsPrefix ts actions
    → IsPrefix (finish_all ts) actions
IsPrefix-finish_all [] actions h = tt
IsPrefix-finish_all (t ∷ ts) [] h = h
IsPrefix-finish_all (t ∷ ts) (a ∷ actions) h = (h.0, IsPrefix-finish_all ts actions h.1)

IsSerial-finish_all : (ts : List (Action × Phase)) → IsSerial ts → IsSerial (finish_all ts)
IsSerial-finish_all [] h = tt
IsSerial-finish_all (t ∷ []) h = tt
IsSerial-finish_all (t ∷ u ∷ ts) h = (rw h.0, IsSerial-finish_all (u ∷ ts) h.1)

unfinished_done : (ts : List (Action × Phase)) → unfinished ts ≡ 0 → unfinished (finish_all ts) ≡ 0
unfinished_done ts h = unfinished-finish_all ts (omega (arith, failures-le-unfinished ts))

Says-finish_all :
    (q : Phase) (actions : List Action) (ts : List (Action × Phase))
    → Says q (record { actions = actions; tasks = ts; phase = q })
    → Says q (record { actions = actions; tasks = finish_all ts; phase = q })
Says-finish_all running actions ts h = tt
Says-finish_all completed actions ts h = (unfinished_done ts h.0, length-finish_all ts ∙ h.1)
Says-finish_all failed actions ts h = failures-finish_all ts ∙ h

pub finish_all-IsOrdered :
    (p : Plan) → IsOrdered p → IsOrdered (record p { tasks = finish_all p.tasks })
finish_all-IsOrdered p h = record {
  prefix = IsPrefix-finish_all p.tasks p.actions h.prefix;
  serial = IsSerial-finish_all p.tasks h.serial;
  says = Says-finish_all p.phase p.actions p.tasks h.says;
}

pub completed_of_phase : (a b : Bool) → phase_of a b ≡ completed → a ≡ true
completed_of_phase true b h = refl
completed_of_phase false true h = cc
completed_of_phase false false h = cc

pub next_in-actions : (ph : Phase) (p : Plan) → (next_in ph p).actions ≡ p.actions
next_in-actions completed p = refl
next_in-actions failed p = refl
next_in-actions running p = elim (Bool-cases (unfinished p.tasks == 0)) [
  | inl u ↦ rw u (elim (Option-cases (get_elem? p.actions (length p.tasks))) [
    | inl e ↦ rw e refl
    | inr (a, e) ↦ rw e refl
  ])
  | inr u ↦
      rw u (elim (Bool-cases (failures p.tasks == 0)) [ inl f ↦ rw f refl | inr f ↦ rw f refl ])
]
