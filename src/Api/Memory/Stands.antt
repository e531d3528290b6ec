-- ===== src/Api/Memory/Stands.antt =====
-- What it means that a stored thing stands for a value, with all its cells between two addresses.
use rufio.Prelude.{ℕ, ◌≡◌, ◌≤◌, ◌<◌, Option, none, some, List, [], ◌∷◌, length, take}
use rufio.Prelude.Text.{Text}
use rufio.Api.Stored.{Slice}
use rufio.Api.Memory.{Struct, Element, Item, Kind, one, array_of, entries, Pointee, Heap}

-- The heaps have the same cells at the addresses from `lo` to below `hi`.
abbrev pub Agree : ℕ → ℕ → Heap → Heap → Type 0
Agree lo hi h h' = (k : Kind) (a : ℕ) → lo ≤ a → a < hi → h'.cells k a ≡ h.cells k a

-- A relation between what is stored and the value that it stands for, in which all the addresses
-- that are followed lie between two bounds.
abbrev pub Stands : Type 0 → Type 0 → Type 1
Stands A V = ℕ → ℕ → Heap → A → V → Type 0

abbrev pub IsValue : {A : Type 0} → Stands A A
IsValue lo hi h x v = x ≡ v

abbrev pub IsPointer :
    {V : Type 0} → (s : Struct) → Stands (Pointee s) V → Stands (Option ℕ) (Option V)
IsPointer s R lo hi h none none = Unit
IsPointer s R lo hi h none (some v) = ⊥
IsPointer s R lo hi h (some a) none = ⊥
IsPointer s R lo hi h (some a) (some v) = (lo ≤ a) × (a < hi) × R lo hi h (h.cells (one s) a) v

abbrev pub IsEach : {A V : Type 0} → Stands A V → Stands (List A) (List V)
IsEach R lo hi h [] [] = Unit
IsEach R lo hi h [] (v ∷ vs) = ⊥
IsEach R lo hi h (x ∷ xs) [] = ⊥
IsEach R lo hi h (x ∷ xs) (v ∷ vs) = R lo hi h x v × IsEach R lo hi h xs vs

-- The slice lies within its array.
abbrev pub IsSlice :
    {V : Type 0} → (e : Element) → Stands (Item e) V → Stands (Option Slice) (List V)
IsSlice e R lo hi h none vs = vs ≡ []
IsSlice e R lo hi h (some s) vs =
    (lo ≤ s.array)
    × (s.array < hi)
    × (s.len ≤ length (h.cells (array_of e) s.array))
    × IsEach R lo hi h (take s.len (h.cells (array_of e) s.array)) vs

abbrev pub IsEntry : (e : Element) → Stands (Text × Option Slice) (Text × List (Item e))
IsEntry e lo hi h entry v = (entry.0 ≡ v.0) × IsSlice e IsValue lo hi h entry.1 v.1

abbrev pub IsMap : (e : Element) → Stands (Option ℕ) (List (Text × List (Item e)))
IsMap e lo hi h none vs = vs ≡ []
IsMap e lo hi h (some a) vs =
    (lo ≤ a) × (a < hi) × IsEach (IsEntry e) lo hi h (h.cells entries a) vs
