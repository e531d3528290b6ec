-- ===== src/Api/Memory/Conditions/Laws.antt =====
-- SetCondition in memory beside update_condition of Api/Conditions.antt, which works on a list.
use rufio.Prelude.{
  ℕ, suc, ◌-◌, ◌≡◌, ◌<◌, ◌≤◌, Bool, Option, none, some, List, [], ◌∷◌, ◌++◌, length, take, ltb,
  Bool-cases, inl, inr, ◌⊎◌, refl, sym, ap, subst, ◌∙◌, arith, length-take, length-append,
}
use rufio.Api.Stored.{Slice}
use rufio.Api.Conditions.{update_condition}
use rufio.Api.Memory.{Element, Item, array_of, Heap, write, allocate}
use rufio.Api.Memory.Writes.{write_same, write_above, write_below}
use rufio.Api.Memory.Stands.{Agree, IsValue, IsEach, IsSlice}
use rufio.Api.Memory.Conditions.{
  set, modify, find_index, contents, append_to, change_at, change_found, set_condition_at,
}
use rufio.Api.Memory.Conditions.Arrays.{
  length-modify, length-set, take-modify, take-set, take-append, modify-append, changed,
  update-changed,
}

module _ {A : Type 0} (lo hi : ℕ) (h : Heap) where
  IsEach-same : (xs : List A) → IsEach IsValue lo hi h xs xs
  IsEach-same [] = tt
  IsEach-same (x ∷ xs) = (refl, IsEach-same xs)

  same-IsEach : (xs ys : List A) → IsEach IsValue lo hi h xs ys → xs ≡ ys
  same-IsEach [] [] r = refl
  same-IsEach [] (y ∷ ys) r = absurd r
  same-IsEach (x ∷ xs) [] r = absurd r
  same-IsEach (x ∷ xs) (y ∷ ys) r = rw (r.0, same-IsEach xs ys r.1)

-- What a change of a slice keeps: the memory grows, the new slice is in it and holds the list, and
-- no cell from `hi` on, that was there before, has changed.
pub record IsChanged (e : Element) (lo hi : ℕ) (h h' : Heap) (o : Option Slice) (vs : List (Item e))
    : Type 0 where
  pub grows : h.next ≤ h'.next
  pub holds : IsSlice e IsValue lo h'.next h' o vs
  pub keeps : Agree hi h.next h h'

-- A slice in a later heap: it holds the list, and its array is below `hi` or is new.
record IsIn (e : Element) (lo hi : ℕ) (h h1 : Heap) (s : Slice) (vs : List (Item e)) : Type 0 where
  grows : h.next ≤ h1.next
  above : lo ≤ s.array
  below : s.array < h1.next
  apart : (s.array < hi) ⊎ (h.next ≤ s.array)
  fits : s.len ≤ length (h1.cells (array_of e) s.array)
  holds : take s.len (h1.cells (array_of e) s.array) ≡ vs
  keeps : Agree hi h.next h h1

module _ (e : Element) (lo hi : ℕ) (h : Heap) where
  -- An array is written that is below `hi`, or new.
  write_keeps :
      (h1 : Heap) (a : ℕ) (cs : List (Item e))
      → (a < hi) ⊎ (h.next ≤ a)
      → Agree hi h.next h h1
      → Agree hi h.next h (write (array_of e) a cs h1)
  write_keeps h1 a cs (inl below) keeps k b l g =
      write_below (array_of e) a cs h1 k b (omega arith) ∙ keeps k b l g
  write_keeps h1 a cs (inr above) keeps k b l g =
      write_above (array_of e) a cs h1 k b (omega arith) ∙ keeps k b l g

  written-IsIn :
      (h1 : Heap) (s : Slice) (cs vs : List (Item e))
      → h.next ≤ h1.next
      → lo ≤ s.array
      → s.array < h1.next
      → (s.array < hi) ⊎ (h.next ≤ s.array)
      → s.len ≤ length cs
      → take s.len cs ≡ vs
      → Agree hi h.next h h1
      → IsIn e lo hi h (write (array_of e) s.array cs h1) s vs
  unfolding write
  written-IsIn h1 s cs vs grows above below apart fits holds keeps =
      let same = write_same (array_of e) s.array cs h1 in
      record {
        grows = grows;
        above = above;
        below = below;
        apart = apart;
        fits = subst (λ w. s.len ≤ length w) (sym same) fits;
        holds = ap (take s.len) same ∙ holds;
        keeps = write_keeps h1 s.array cs apart keeps;
      }

  change_lem :
      (change : Item e → Item e) (h1 : Heap) (s : Slice) (vs : List (Item e)) (i : ℕ)
      → IsIn e lo hi h h1 s vs
      → IsChanged e lo hi h (change_at e change h1 s i) (some s) (modify change vs i)
  unfolding change_at write
  change_lem change h1 s vs i r =
      let arr = h1.cells (array_of e) s.array in
      let fits = r.fits in
      let w =
        written-IsIn h1 s (modify change arr i) (modify change vs i) r.grows r.above r.below r.apart
          (rw (length-modify change arr i) fits)
          (take-modify change s.len arr i ∙ ap (λ xs. modify change xs i) r.holds) r.keeps in
      let h2 = change_at e change h1 s i in
      record {
        grows = w.grows;
        holds = (
          w.above,
          w.below,
          w.fits,
          subst (λ xs. IsEach IsValue lo h2.next h2 xs (modify change vs i)) (sym w.holds)
              (IsEach-same lo h2.next h2 (modify change vs i)),
        );
        keeps = w.keeps;
      }

  start_lem :
      (s : Slice) (vs : List (Item e))
      → hi ≤ h.next
      → IsSlice e IsValue lo hi h (some s) vs
      → IsIn e lo hi h h s vs
  start_lem s vs g r =
      let below = r.1 in
      record {
        grows = omega arith;
        above = r.0;
        below = omega arith;
        apart = inl r.1;
        fits = r.2;
        holds = same-IsEach lo hi h _ vs r.3;
        keeps = λ k a l g'. refl;
      }

  allocated-IsIn :
      (n : ℕ) (cs vs : List (Item e))
      → lo ≤ hi
      → hi ≤ h.next
      → n ≤ length cs
      → take n cs ≡ vs
      → IsIn e lo hi h (allocate (array_of e) cs h) (record { array = h.next; len = n }) vs
  unfolding allocate write
  allocated-IsIn n cs vs l g fits holds =
      written-IsIn (record h { next = suc h.next }) (record { array = h.next; len = n }) cs vs
        (omega arith) (omega arith) (omega arith) (inr (omega arith)) fits holds (λ k a l' g'. refl)

  append_lem :
      (spare : ℕ → List (Item e)) (fresh : Item e) (o : Option Slice) (vs : List (Item e))
      → lo ≤ hi
      → hi ≤ h.next
      → IsSlice e IsValue lo hi h o vs
      → let (h1, s) = append_to e spare h o fresh in
        IsIn e lo hi h h1 s (vs ++ fresh ∷ []) × (s.len ≡ suc (length vs))
  unfolding append_to
  append_lem spare fresh none vs l g r =
      rw r (allocated-IsIn 1 (fresh ∷ spare 0) (fresh ∷ []) l g (omega arith) refl, refl)
  append_lem spare fresh (some s) vs l g r =
      let arr = h.cells (array_of e) s.array in
      let i = start_lem s vs g r in
      let len : length vs ≡ s.len = ap length (sym i.holds) ∙ length-take s.len arr i.fits in
      elim (Bool-cases (ltb s.len (length arr))) [
        | inl room ↦
            let lt : s.len < length arr = ground arith in
            rw room (
              written-IsIn h (record s { len = suc s.len }) (set arr s.len fresh) (vs ++ fresh ∷ [])
                  (omega arith) i.above i.below i.apart (rw (length-set arr s.len fresh) lt)
                  (take-set s.len arr fresh lt ∙ ap (λ xs. xs ++ fresh ∷ []) i.holds) i.keeps,
              ap suc (sym len),
            )
        | inr full ↦
            let ys = take s.len arr in
            let n = length-take s.len arr i.fits in
            let len_ys = length-append ys (fresh ∷ spare s.len) in
            rw full (
              allocated-IsIn (suc s.len) (ys ++ fresh ∷ spare s.len) (vs ++ fresh ∷ []) l g
                  (omega (arith, n, len_ys))
                  (ap (λ m. take (suc m) (ys ++ fresh ∷ spare s.len)) (sym n)
                    ∙ take-append ys fresh (spare s.len)
                    ∙ ap (λ xs. xs ++ fresh ∷ []) i.holds),
              ap suc (sym len),
            )
      ]

  appended_lem :
      (spare : ℕ → List (Item e)) (fresh : Item e) (change : Item e → Item e) (o : Option Slice)
      (vs : List (Item e))
      → lo ≤ hi
      → hi ≤ h.next
      → IsSlice e IsValue lo hi h o vs
      → let (h1, s) = append_to e spare h o fresh in
        IsChanged e lo hi h (change_at e change h1 s (s.len - 1)) (some s) (vs ++ change fresh ∷ [])
  appended_lem spare fresh change o vs l g r =
      let (h1, s) = append_to e spare h o fresh in
      let (i, len) = append_lem spare fresh o vs l g r in
      let last : s.len - 1 ≡ length vs = omega (arith, len) in
      rw (last, sym (modify-append change vs fresh))
        (change_lem change h1 s (vs ++ fresh ∷ []) (length vs) i)

  change_found_lem :
      (spare : ℕ → List (Item e)) (fresh : Item e) (change : Item e → Item e) (o : Option Slice)
      (vs : List (Item e)) (i : Option ℕ)
      → lo ≤ hi
      → hi ≤ h.next
      → IsSlice e IsValue lo hi h o vs
      → let (h', o') = change_found e spare fresh change h o i in
        IsChanged e lo hi h h' o' (changed fresh change vs i)
  unfolding change_found
  change_found_lem spare fresh change none vs none l g r =
      appended_lem spare fresh change none vs l g r
  change_found_lem spare fresh change (some s) vs none l g r =
      appended_lem spare fresh change (some s) vs l g r
  change_found_lem spare fresh change none vs (some i) l g r = record {
    grows = omega arith;
    holds = rw r refl;
    keeps = λ k a l' g'. refl;
  }
  change_found_lem spare fresh change (some s) vs (some i) l g r =
      change_lem change h s vs i (start_lem s vs g r)

  contents_lem :
      (o : Option Slice) (vs : List (Item e)) → IsSlice e IsValue lo hi h o vs → contents e h o ≡ vs
  contents_lem none vs r = sym r
  contents_lem (some s) vs r = same-IsEach lo hi h _ vs r.3

  pub set_condition_at_lem :
      (spare : ℕ → List (Item e)) (same : Item e → Bool) (fresh : Item e) (change : Item e → Item e)
      (o : Option Slice) (vs : List (Item e))
      → lo ≤ hi
      → hi ≤ h.next
      → IsSlice e IsValue lo hi h o vs
      → let (h', o') = set_condition_at e spare same fresh change h o in
        IsChanged e lo hi h h' o' (update_condition same fresh change vs)
  unfolding set_condition_at
  set_condition_at_lem spare same fresh change o vs l g r =
      rw (contents_lem o vs r, update-changed same fresh change vs)
        (change_found_lem spare fresh change o vs (find_index same vs) l g r)
