-- ===== src/Api/Memory/Conditions.antt =====
-- SetCondition of api/v1alpha1/{job,task,machine}.go on a slice of conditions in memory: a condition
-- is found by its index and changed through a pointer into the array, or appended first.
pub mod Arrays
pub mod Laws
use rufio.Prelude.{
  ℕ, zero, suc, ◌-◌, Bool, Option, none, some, List, [], ◌∷◌, ◌++◌, length, take, ltb,
  if◌then◌else◌,
}
use rufio.Api.Stored.{Slice}
use rufio.Api.Memory.{Element, Item, array_of, Heap, write, allocate}

module _ {C : Type 0} where
  abbrev pub set : List C → ℕ → C → List C
  set [] i v = []
  set (x ∷ xs) zero v = v ∷ xs
  set (x ∷ xs) (suc i) v = x ∷ set xs i v

  abbrev pub modify : (C → C) → List C → ℕ → List C
  modify f [] i = []
  modify f (x ∷ xs) zero = f x ∷ xs
  modify f (x ∷ xs) (suc i) = x ∷ modify f xs i

  -- `for i, c := range conditions`: the index of the first condition of the type.
  unfoldable pub find_index : (C → Bool) → List C → Option ℕ
  find_index same [] = none
  find_index same (c ∷ cs) =
      if same c then some 0 else elim (find_index same cs) [ none ↦ none | some i ↦ some (suc i) ]

module _ (e : Element) where
  abbrev pub contents : Heap → Option Slice → List (Item e)
  contents h none = []
  contents h (some s) = take s.len (h.cells (array_of e) s.array)

  -- `append`: in place where the array has room, and into a new array where it has not; `spare` is
  -- the rest of the new array.
  unfoldable pub append_to : (ℕ → List (Item e)) → Heap → Option Slice → Item e → Heap × Slice
  unfolding write allocate
  append_to spare h none c =
      (allocate (array_of e) (c ∷ spare 0) h, record { array = h.next; len = 1 })
  append_to spare h (some s) c =
      let cs = h.cells (array_of e) s.array in
      if ltb s.len (length cs)
      then (write (array_of e) s.array (set cs s.len c) h, record s { len = suc s.len })
      else (
        allocate (array_of e) (take s.len cs ++ c ∷ spare s.len) h,
        record { array = h.next; len = suc s.len },
      )

  -- The status and the options, through the pointer `&conditions[i]`.
  unfoldable pub change_at : (Item e → Item e) → Heap → Slice → ℕ → Heap
  unfolding write
  change_at change h s i =
      write (array_of e) s.array (modify change (h.cells (array_of e) s.array) i) h

  unfoldable pub change_found :
      (ℕ → List (Item e))
      → Item e
      → (Item e → Item e)
      → Heap
      → Option Slice
      → Option ℕ
      → Heap × Option Slice
  unfolding append_to change_at
  change_found spare fresh change h (some s) (some i) = (change_at change h s i, some s)
  change_found spare fresh change h none (some i) = (h, none)
  change_found spare fresh change h o none =
      let (h1, s) = append_to spare h o fresh in (change_at change h1 s (s.len - 1), some s)

  -- SetCondition: `same` tests the type, `fresh` is the condition that is appended, and `change` sets
  -- the status and runs the options.
  unfoldable pub set_condition_at :
      (ℕ → List (Item e))
      → (Item e → Bool)
      → Item e
      → (Item e → Item e)
      → Heap
      → Option Slice
      → Heap × Option Slice
  unfolding find_index change_found
  set_condition_at spare same fresh change h o =
      change_found spare fresh change h o (find_index same (contents h o))
