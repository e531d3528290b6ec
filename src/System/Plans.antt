-- ===== src/System/Plans.antt =====
-- The rounds of a plan: what holds of each plan that `next` and the tasks lead to.
use rufio.Prelude.{
  ℕ, zero, suc, ◌+◌, ◌≡◌, ◌≤◌, ◌<◌, refl, Bool, false, ◌==◌, Option, none, some, List, [], ◌∷◌,
  ◌++◌, length, get_elem?, count_if, arith, Bool-cases, inl, inr,
}
use rufio.Api.Action.{Action}
use rufio.System.{
  Phase, running, completed, failed, is_unfinished, is_failed, Plan, unfinished, failures,
  start_next, go_on, next_in, next,
}

-- The started actions are the first of the job's, in order.
abbrev pub IsPrefix : List (Action × Phase) → List Action → Type 0
IsPrefix [] actions = Unit
IsPrefix (t ∷ ts) [] = ⊥
IsPrefix (t ∷ ts) (a ∷ actions) = (t.0 ≡ a) × IsPrefix ts actions

-- Every started action but the last is completed.
abbrev pub IsSerial : List (Action × Phase) → Type 0
IsSerial [] = Unit
IsSerial (t ∷ []) = Unit
IsSerial (t ∷ u ∷ ts) = (t.1 ≡ completed) × IsSerial (u ∷ ts)

-- What the phase of the job says of its tasks.
abbrev pub Says : Phase → Plan → Type 0
Says running p = Unit
Says failed p = failures p.tasks ≡ 1
Says completed p = (unfinished p.tasks ≡ 0) × (length p.tasks ≡ length p.actions)

pub record IsOrdered (p : Plan) : Type 0 where
  pub prefix : IsPrefix p.tasks p.actions
  pub serial : IsSerial p.tasks
  pub says : Says p.phase p

module _ (a : Action) where
  IsPrefix-append :
      (ts : List (Action × Phase)) (actions : List Action)
      → IsPrefix ts actions
      → get_elem? actions (length ts) ≡ some a
      → IsPrefix (ts ++ (a, running) ∷ []) actions
  IsPrefix-append [] [] h e = cc
  IsPrefix-append [] (b ∷ actions) h e = ground arith
  IsPrefix-append (t ∷ ts) [] h e = h
  IsPrefix-append (t ∷ ts) (b ∷ actions) h e = (h.0, IsPrefix-append ts actions h.1 e)

done_of_finished : (ph : Phase) → is_unfinished ph ≡ false → ph ≡ completed
done_of_finished completed e = refl
done_of_finished running e = cc
done_of_finished failed e = cc

-- A list of completed tasks can be followed by any task.
IsSerial-append :
    (x : Action × Phase) (ts : List (Action × Phase)) → unfinished ts ≡ 0 → IsSerial (ts ++ x ∷ [])
IsSerial-append x [] e = tt
IsSerial-append x (t ∷ []) e = (done_of_finished t.1 (ground arith), tt)
IsSerial-append x (t ∷ u ∷ ts) e =
    let h : is_unfinished t.1 ≡ false = ground arith in
    let k : unfinished (u ∷ ts) ≡ 0 = ground arith in
    (done_of_finished t.1 h, IsSerial-append x (u ∷ ts) k)

-- At most the last is not completed.
unfinished-IsSerial : (ts : List (Action × Phase)) → IsSerial ts → unfinished ts ≤ 1
unfinished-IsSerial [] h = omega arith
unfinished-IsSerial (t ∷ []) h = ground arith
unfinished-IsSerial (t ∷ u ∷ ts) h = let k = unfinished-IsSerial (u ∷ ts) h.1 in rw h.0 k

pub failures-le-unfinished : (ts : List (Action × Phase)) → failures ts ≤ unfinished ts
failures-le-unfinished [] = omega arith
failures-le-unfinished ((a, running) ∷ ts) = omega (arith, failures-le-unfinished ts)
failures-le-unfinished ((a, completed) ∷ ts) = failures-le-unfinished ts
failures-le-unfinished ((a, failed) ∷ ts) = omega (arith, failures-le-unfinished ts)

-- A running task is the last, and those before it are completed.
pub IsSerial-split :
    (a : Action) (before after : List (Action × Phase))
    → IsSerial (before ++ (a, running) ∷ after)
    → (after ≡ []) × (unfinished before ≡ 0)
IsSerial-split a [] [] h = (refl, refl)
IsSerial-split a [] (u ∷ after) h = cc
IsSerial-split a (t ∷ []) after h = let (e, k) = IsSerial-split a [] after h.1 in (e, rw h.0)
IsSerial-split a (t ∷ u ∷ before) after h =
    let (e, k) = IsSerial-split a (u ∷ before) after h.1 in (e, rw h.0 k)

IsPrefix-change :
    (a : Action) (x y : Phase) (before after : List (Action × Phase)) (actions : List Action)
    → IsPrefix (before ++ (a, x) ∷ after) actions
    → IsPrefix (before ++ (a, y) ∷ after) actions
IsPrefix-change a x y [] after [] h = h
IsPrefix-change a x y [] after (b ∷ actions) h = h
IsPrefix-change a x y (t ∷ before) after [] h = h
IsPrefix-change a x y (t ∷ before) after (b ∷ actions) h =
    (h.0, IsPrefix-change a x y before after actions h.1)

pub count_if-append {ℓ} :
    {A : Type ℓ} (p : A → Bool) (xs ys : List A)
    → count_if p (xs ++ ys) ≡ count_if p xs + count_if p ys
count_if-append p [] ys = omega arith
count_if-append p (x ∷ xs) ys = ground (arith, count_if-append p xs ys)

length-IsPrefix :
    (ts : List (Action × Phase)) (actions : List Action)
    → IsPrefix ts actions
    → length ts ≤ length actions
length-IsPrefix [] actions h = omega arith
length-IsPrefix (t ∷ ts) [] h = absurd h
length-IsPrefix (t ∷ ts) (b ∷ actions) h = omega (arith, length-IsPrefix ts actions h.1)

pub get_elem?-none :
    (actions : List Action) (i : ℕ) → get_elem? actions i ≡ none → length actions ≤ i
get_elem?-none [] i h = omega arith
get_elem?-none (a ∷ actions) zero h = cc
get_elem?-none (a ∷ actions) (suc i) h = omega (arith, get_elem?-none actions i h)

pub get_elem?-some :
    (actions : List Action) (i : ℕ) (a : Action) → get_elem? actions i ≡ some a → i < length actions
get_elem?-some [] i a h = cc
get_elem?-some (b ∷ actions) zero a h = omega arith
get_elem?-some (b ∷ actions) (suc i) a h = omega (arith, get_elem?-some actions i a h)

start_next-IsOrdered :
    (p : Plan) (a : Option Action)
    → p.phase ≡ running
    → get_elem? p.actions (length p.tasks) ≡ a
    → unfinished p.tasks ≡ 0
    → IsOrdered p
    → IsOrdered (start_next p a)
start_next-IsOrdered p none r e done h = record {
  prefix = h.prefix;
  serial = h.serial;
  says = (
    done,
    omega (
      arith,
      length-IsPrefix p.tasks p.actions h.prefix,
      get_elem?-none p.actions (length p.tasks) e,
    ),
  );
}
start_next-IsOrdered p (some a) r e done h = record {
  prefix = IsPrefix-append a p.tasks p.actions h.prefix e;
  serial = IsSerial-append (a, running) p.tasks done;
  says = rw r tt;
}

go_on-IsOrdered : (p : Plan) → p.phase ≡ running → IsOrdered p → IsOrdered (go_on p)
go_on-IsOrdered p r h = elim (Bool-cases (unfinished p.tasks == 0)) [
  | inl d ↦ rw d (start_next-IsOrdered p _ r refl (ground arith) h)
  | inr d ↦ rw d (elim (Bool-cases (failures p.tasks == 0)) [
    | inl f ↦ rw f h
    | inr f ↦ rw f (record {
      prefix = h.prefix;
      serial = h.serial;
      says = ground (arith, failures-le-unfinished p.tasks, unfinished-IsSerial p.tasks h.serial);
    })
  ])
]

next_in-IsOrdered : (ph : Phase) (p : Plan) → p.phase ≡ ph → IsOrdered p → IsOrdered (next_in ph p)
next_in-IsOrdered completed p r h = h
next_in-IsOrdered failed p r h = h
next_in-IsOrdered running p r h = go_on-IsOrdered p r h

-- Each reconciliation keeps the order.
pub next-IsOrdered : (p : Plan) → IsOrdered p → IsOrdered (next p)
next-IsOrdered p h = next_in-IsOrdered p.phase p refl h

-- A running task becomes completed or failed.
Says-change :
    (a : Action) (ph : Phase) (before after : List (Action × Phase)) (actions : List Action)
    (q : Phase)
    → Says q (record { actions = actions; tasks = before ++ (a, running) ∷ after; phase = q })
    → IsSerial (before ++ (a, running) ∷ after)
    → Says q (record { actions = actions; tasks = before ++ (a, ph) ∷ after; phase = q })
Says-change a ph before after actions running h k = tt
Says-change a ph before after actions completed h k = absurd (
    omega (
      arith,
      h.0,
      count_if-append (λ (t : Action × Phase). is_unfinished t.1) before ((a, running) ∷ after),
    ))
Says-change a ph before after actions failed h k =
    let (e, d) = IsSerial-split a before after k in
    absurd (
      ground (
        arith,
        h,
        e,
        d,
        failures-le-unfinished before,
        count_if-append (λ (t : Action × Phase). is_failed t.1) before ((a, running) ∷ after),
      ))

pub change-IsOrdered :
    (actions : List Action) (q : Phase) (a : Action) (ph : Phase)
    (before after : List (Action × Phase))
    → IsOrdered (record { actions = actions; tasks = before ++ (a, running) ∷ after; phase = q })
    → IsOrdered (record { actions = actions; tasks = before ++ (a, ph) ∷ after; phase = q })
change-IsOrdered actions q a ph before after h = record {
  prefix = IsPrefix-change a running ph before after actions h.prefix;
  serial =
      let (e, d) = IsSerial-split a before after h.serial in
      rw e (IsSerial-append (a, ph) before d);
  says = Says-change a ph before after actions q h.says h.serial;
}

-- In an ordered plan at most one task is not completed, and no more were started than there are
-- actions.
pub unfinished-IsOrdered :
    (p : Plan)
    → IsOrdered p
    → (unfinished p.tasks ≤ 1)
      × (failures p.tasks ≤ unfinished p.tasks)
      × (length p.tasks ≤ length p.actions)
unfinished-IsOrdered p h = (
  unfinished-IsSerial p.tasks h.serial,
  failures-le-unfinished p.tasks,
  length-IsPrefix p.tasks p.actions h.prefix,
)
