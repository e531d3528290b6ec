-- ===== src/Api/Memory/Copies.antt =====
-- What the generated DeepCopyInto functions of zz_generated.deepcopy.go do with a pointer, a slice
-- and a map. `copy` is what they do with what a pointer points to and with the elements. A struct is
-- written into its cell when its own fields have been copied.
use rufio.Prelude.{ℕ, Option, none, some, List, [], ◌∷◌, take}
use rufio.Prelude.Text.{Text}
use rufio.Api.Stored.{Slice}
use rufio.Api.Memory.{Struct, Element, Item, one, array_of, entries, Pointee, Heap, allocate}

-- `*out = *in`, where no pointer is copied.
abbrev pub copy_value : {A : Type 0} → Heap → A → Heap × A
copy_value h x = (h, x)

-- `*out = new(T)`, with what `in` points to.
unfoldable pub copy_pointer :
    (s : Struct) → (Heap → Pointee s → Heap × Pointee s) → Heap → Option ℕ → Heap × Option ℕ
unfolding allocate
copy_pointer s copy h none = (h, none)
copy_pointer s copy h (some a) =
    let (h1, v) = copy h (h.cells (one s) a) in (allocate (one s) v h1, some h1.next)

-- The loop over the elements.
unfoldable pub copy_items : {A : Type 0} → (Heap → A → Heap × A) → Heap → List A → Heap × List A
copy_items copy h [] = (h, [])
copy_items copy h (x ∷ xs) =
    let (h1, y) = copy h x in let (h2, ys) = copy_items copy h1 xs in (h2, y ∷ ys)

-- `*out = make([]T, len(*in))`, and the elements.
unfoldable pub copy_slice :
    (e : Element) → (Heap → Item e → Heap × Item e) → Heap → Option Slice → Heap × Option Slice
unfolding allocate copy_items
copy_slice e copy h none = (h, none)
copy_slice e copy h (some s) =
    let (h1, xs) = copy_items copy h (take s.len (h.cells (array_of e) s.array)) in
    (allocate (array_of e) xs h1, some (record { array = h1.next; len = s.len }))

-- An entry of a map of slices: `outVal` is nil where `val` is.
unfoldable pub copy_entry :
    (e : Element) → Heap → Text × Option Slice → Heap × (Text × Option Slice)
unfolding copy_slice
copy_entry e h entry =
    let (h1, out_val) = copy_slice e copy_value h entry.1 in (h1, (entry.0, out_val))

-- `*out = make(M, len(*in))`, and the entries.
unfoldable pub copy_map : (e : Element) → Heap → Option ℕ → Heap × Option ℕ
unfolding allocate copy_items copy_entry
copy_map e h none = (h, none)
copy_map e h (some a) =
    let (h1, es) = copy_items (copy_entry e) h (h.cells entries a) in
    (allocate entries es h1, some h1.next)
