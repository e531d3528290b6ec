-- ===== src/Api/Memory/Copiers.antt =====
-- The copies of pointers, slices and maps as copiers, for copiers of what they hold.
use rufio.Prelude.{
  ℕ, suc, ◌≡◌, ◌≤◌, Option, none, some, List, [], ◌∷◌, length, take, length-take, take-length,
  subst, sym, ap, ◌∙◌, refl, arith,
}
use rufio.Prelude.Text.{Text}
use rufio.Api.Stored.{Slice}
use rufio.Api.Memory.{Struct, Element, Item, one, array_of, entries, Pointee, Heap}
use rufio.Api.Memory.Copies.{copy_value, copy_pointer, copy_items, copy_slice, copy_entry, copy_map}
use rufio.Api.Memory.Stands.{Stands, IsValue, IsPointer, IsEach, IsSlice, IsEntry, IsMap}
use rufio.Api.Memory.Extends.{
  IsStable, Extends, IsCopier, fixed, both, begin, and_then_at, and_then, as_of, and_new,
}

pub copy_value-IsCopier : {A : Type 0} → IsCopier (IsValue {A = A}) copy_value
copy_value-IsCopier = record { stable = λ x v. fixed; deep = λ h x v r. begin r }

module _ {V : Type 0} (s : Struct) {R : Stands (Pointee s) V}
    {copy : Heap → Pointee s → Heap × Pointee s} (c : IsCopier R copy) where
  IsPointer-IsStable :
      (p : Option ℕ) (o : Option V) → IsStable (λ lo hi h. IsPointer s R lo hi h p o)
  IsPointer-IsStable none none = fixed
  IsPointer-IsStable none (some v) = fixed
  IsPointer-IsStable (some a) none = fixed
  IsPointer-IsStable (some a) (some v) = record {
    carry = λ lo hi lo' hi' h h' l g e r.
        let l0 = r.0 in
        let l1 = r.1 in
        (
          omega arith,
          omega arith,
          subst (λ w. R lo' hi' h' w v) (sym (e (one s) a l0 l1))
              ((c.stable (h.cells (one s) a) v).carry lo hi lo' hi' h h' l g e r.2),
        );
  }

  copy_pointer_deep :
      (h : Heap) (p : Option ℕ) (o : Option V)
      → IsPointer s R 0 h.next h p o
      → Extends h
          (copy_pointer s copy h p).0
          (λ lo hi g. IsPointer s R lo hi g (copy_pointer s copy h p).1 o)
  unfolding copy_pointer
  copy_pointer_deep h none none r = begin r
  copy_pointer_deep h none (some v) r = absurd r
  copy_pointer_deep h (some a) none r = absurd r
  copy_pointer_deep h (some a) (some v) r =
      let y = (copy h (h.cells (one s) a)).1 in
      as_of (λ lo hi g q. (q.0, q.1, subst (λ w. R lo hi g w v) (sym q.2) q.3))
        (and_new (one s) y (c.stable y v) (c.deep h (h.cells (one s) a) v r.2))

  pub copy_pointer-IsCopier : IsCopier (IsPointer s R) (copy_pointer s copy)
  copy_pointer-IsCopier = record { stable = IsPointer-IsStable; deep = copy_pointer_deep }

module _ {A V : Type 0} {R : Stands A V} {copy : Heap → A → Heap × A} (c : IsCopier R copy) where
  pub IsEach-IsStable : (xs : List A) (vs : List V) → IsStable (λ lo hi h. IsEach R lo hi h xs vs)
  IsEach-IsStable [] [] = fixed
  IsEach-IsStable [] (v ∷ vs) = fixed
  IsEach-IsStable (x ∷ xs) [] = fixed
  IsEach-IsStable (x ∷ xs) (v ∷ vs) = both (c.stable x v) (IsEach-IsStable xs vs)

  pub copy_items_deep :
      (xs : List A) (vs : List V) (h : Heap)
      → IsEach R 0 h.next h xs vs
      → Extends h (copy_items copy h xs).0 (λ lo hi g. IsEach R lo hi g (copy_items copy h xs).1 vs)
  unfolding copy_items
  copy_items_deep [] [] h r = begin r
  copy_items_deep [] (v ∷ vs) h r = absurd r
  copy_items_deep (x ∷ xs) [] h r = absurd r
  copy_items_deep (x ∷ xs) (v ∷ vs) h r =
      and_then_at (copy_items copy) IsEach-IsStable (copy_items_deep xs vs)
        (c.stable (copy h x).1 v) (c.deep h x v r.0) r.1

length-copy_items :
    {A : Type 0}
    → (copy : Heap → A → Heap × A) (h : Heap) (xs : List A)
    → length (copy_items copy h xs).1 ≡ length xs
unfolding copy_items
length-copy_items copy h [] = refl
length-copy_items copy h (x ∷ xs) = ap suc (length-copy_items copy (copy h x).0 xs)

module _ {V : Type 0} (k : Element) {R : Stands (Item k) V} {copy : Heap → Item k → Heap × Item k}
    (c : IsCopier R copy) where
  IsSlice-IsStable :
      (o : Option Slice) (vs : List V) → IsStable (λ lo hi h. IsSlice k R lo hi h o vs)
  IsSlice-IsStable none vs = fixed
  IsSlice-IsStable (some s) vs = record {
    carry = λ lo hi lo' hi' h h' l g e r.
        let l0 = r.0 in
        let l1 = r.1 in
        let xs = h.cells (array_of k) s.array in
        let same = sym (e (array_of k) s.array l0 l1) in
        (
          omega arith,
          omega arith,
          subst (λ w. s.len ≤ length w) same r.2,
          subst (λ w. IsEach R lo' hi' h' (take s.len w) vs) same
              ((IsEach-IsStable c (take s.len xs) vs).carry lo hi lo' hi' h h' l g e r.3),
        );
  }

  copy_slice_deep :
      (h : Heap) (o : Option Slice) (vs : List V)
      → IsSlice k R 0 h.next h o vs
      → Extends h
          (copy_slice k copy h o).0
          (λ lo hi g. IsSlice k R lo hi g (copy_slice k copy h o).1 vs)
  unfolding copy_slice
  copy_slice_deep h none vs r = begin r
  copy_slice_deep h (some s) vs r =
      let xs = take s.len (h.cells (array_of k) s.array) in
      let ys = (copy_items copy h xs).1 in
      let len : length ys ≡ s.len = length-copy_items copy h xs ∙ length-take s.len _ r.2 in
      as_of
        (λ lo hi g q. (
          q.0,
          q.1,
          subst (λ w. s.len ≤ length w) (sym q.2) (omega (arith, len)),
          subst (λ w. IsEach R lo hi g w vs) (sym (ap (take s.len) q.2 ∙ take-length s.len ys len))
              q.3,
        ))
        (and_new (array_of k) ys (IsEach-IsStable c ys vs) (copy_items_deep c xs vs h r.3))

  pub copy_slice-IsCopier : IsCopier (IsSlice k R) (copy_slice k copy)
  copy_slice-IsCopier = record { stable = IsSlice-IsStable; deep = copy_slice_deep }

module _ (k : Element) where
  copy_entry-IsCopier : IsCopier (IsEntry k) (copy_entry k)
  unfolding copy_entry
  copy_entry-IsCopier =
      let c = copy_slice-IsCopier k copy_value-IsCopier in
      record {
        stable = λ x v. both fixed (c.stable x.1 v.1);
        deep = λ h x v r. and_then c fixed (begin r.0) r.1;
      }

  IsMap-IsStable :
      (o : Option ℕ) (vs : List (Text × List (Item k))) → IsStable (λ lo hi h. IsMap k lo hi h o vs)
  IsMap-IsStable none vs = fixed
  IsMap-IsStable (some a) vs = record {
    carry = λ lo hi lo' hi' h h' l g e r.
        let l0 = r.0 in
        let l1 = r.1 in
        (
          omega arith,
          omega arith,
          subst (λ w. IsEach (IsEntry k) lo' hi' h' w vs) (sym (e entries a l0 l1))
              ((IsEach-IsStable copy_entry-IsCopier (h.cells entries a) vs).carry lo hi lo' hi' h h'
                l g e r.2),
        );
  }

  copy_map_deep :
      (h : Heap) (o : Option ℕ) (vs : List (Text × List (Item k)))
      → IsMap k 0 h.next h o vs
      → Extends h (copy_map k h o).0 (λ lo hi g. IsMap k lo hi g (copy_map k h o).1 vs)
  unfolding copy_map
  copy_map_deep h none vs r = begin r
  copy_map_deep h (some a) vs r =
      let es = (copy_items (copy_entry k) h (h.cells entries a)).1 in
      as_of (λ lo hi g q. (q.0, q.1, subst (λ w. IsEach (IsEntry k) lo hi g w vs) (sym q.2) q.3))
        (and_new entries es (IsEach-IsStable copy_entry-IsCopier es vs)
          (copy_items_deep copy_entry-IsCopier (h.cells entries a) vs h r.2))

  pub copy_map-IsCopier : IsCopier (IsMap k) (copy_map k)
  copy_map-IsCopier = record { stable = IsMap-IsStable; deep = copy_map_deep }
