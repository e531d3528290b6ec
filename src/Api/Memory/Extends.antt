-- ===== src/Api/Memory/Extends.antt =====
-- What it means that a copy is deep: it stands for the same value in cells that are all new, and the
-- old cells are as before. A chain of copies has these laws.
use rufio.Prelude.{ℕ, suc, ◌≡◌, ◌≤◌, ◌<◌, ◌∙◌, refl, arith}
use rufio.Api.Memory.{Kind, Cell, Heap, allocate, write}
use rufio.Api.Memory.Writes.{write_same, write_above, write_below, ==_lt}
use rufio.Api.Memory.Stands.{Agree, Stands}

-- A fact about the cells between two bounds, which holds between wider ones, and in any heap that
-- has the same cells between the first.
pub record IsStable (Q : ℕ → ℕ → Heap → Type 0) : Type 0 where
  pub carry :
      (lo hi lo' hi' : ℕ) (h h' : Heap)
      → lo' ≤ lo
      → hi ≤ hi'
      → Agree lo hi h h'
      → Q lo hi h
      → Q lo' hi' h'

-- The second heap has the cells of the first, and in its new cells `Q` holds.
pub record Extends (h h' : Heap) (Q : ℕ → ℕ → Heap → Type 0) : Type 0 where
  pub grows : h.next ≤ h'.next
  pub keeps : Agree 0 h.next h h'
  pub fresh : Q h.next h'.next h'

pub record IsCopier {A V : Type 0} (R : Stands A V) (copy : Heap → A → Heap × A) : Type 0 where
  pub stable : (x : A) (v : V) → IsStable (λ lo hi h. R lo hi h x v)
  pub deep :
      (h : Heap) (x : A) (v : V)
      → R 0 h.next h x v
      → Extends h (copy h x).0 (λ lo hi g. R lo hi g (copy h x).1 v)

pub fixed : {P : Type 0} → IsStable (λ _ _ _. P)
fixed = record { carry = λ lo hi lo' hi' h h' l g a p. p }

pub both :
    {Q R : ℕ → ℕ → Heap → Type 0}
    → IsStable Q
    → IsStable R
    → IsStable (λ lo hi h. Q lo hi h × R lo hi h)
both q r = record {
  carry = λ lo hi lo' hi' h h' l g a p.
      (q.carry lo hi lo' hi' h h' l g a p.0, r.carry lo hi lo' hi' h h' l g a p.1);
}

pub begin : {h : Heap} → {P : Type 0} → P → Extends h h (λ _ _ _. P)
begin {h} p = record { grows = omega arith; keeps = λ k a l g. refl; fresh = p }

module _ {A V : Type 0} {R : Stands A V} (copy : Heap → A → Heap × A) {h h1 : Heap}
    {Q : ℕ → ℕ → Heap → Type 0} {x : A} {v : V} where
  pub and_then_at :
      ((y : A) (w : V) → IsStable (λ lo hi g. R lo hi g y w))
      → ((g : Heap)
          → R 0 g.next g x v
          → Extends g (copy g x).0 (λ lo hi g'. R lo hi g' (copy g x).1 v))
      → IsStable Q
      → Extends h h1 Q
      → R 0 h.next h x v
      → Extends h (copy h1 x).0 (λ lo hi g. Q lo hi g × R lo hi g (copy h1 x).1 v)
  and_then_at stable deep q e r =
      let h2 = (copy h1 x).0 in
      let d =
        deep h1 ((stable x v).carry 0 h.next 0 h1.next h h1 (omega arith) e.grows e.keeps r) in
      let g = e.grows in
      let g2 = d.grows in
      record {
        grows = omega arith;
        keeps = λ k a l b. d.keeps k a l (omega arith) ∙ e.keeps k a l b;
        fresh = (
          q.carry h.next h1.next h.next h2.next h1 h2 (omega arith) g2
              (λ k a l b. d.keeps k a (omega arith) b) e.fresh,
          (stable (copy h1 x).1 v).carry h1.next h2.next h.next h2.next h2 h2 g (omega arith)
              (λ k a l b. refl) d.fresh,
        );
      }

module _ {A V : Type 0} {R : Stands A V} {copy : Heap → A → Heap × A} {h h1 : Heap}
    {Q : ℕ → ℕ → Heap → Type 0} {x : A} {v : V} where
  -- One more field is copied.
  pub and_then :
      IsCopier R copy
      → IsStable Q
      → Extends h h1 Q
      → R 0 h.next h x v
      → Extends h (copy h1 x).0 (λ lo hi g. Q lo hi g × R lo hi g (copy h1 x).1 v)
  and_then c = and_then_at copy c.stable (λ g. c.deep g x v)

-- The fact is said in another way.
pub as_of :
    {h h1 : Heap}
    → {Q R : ℕ → ℕ → Heap → Type 0} → ((lo hi : ℕ) (g : Heap) → Q lo hi g → R lo hi g)
    → Extends h h1 Q
    → Extends h h1 R
as_of {h} {h1} f e = record {
  grows = e.grows;
  keeps = e.keeps;
  fresh = f h.next h1.next h1 e.fresh;
}

-- A cell is added.
pub and_new :
    {h h1 : Heap}
    → {Q : ℕ → ℕ → Heap → Type 0} → (k : Kind) → (new : Cell k) → IsStable Q
    → Extends h h1 Q
    → Extends h
        (allocate k new h1)
        (λ lo hi g. (lo ≤ h1.next) × (h1.next < hi) × (g.cells k h1.next ≡ new) × Q lo hi g)
unfolding allocate write
and_new {h} {h1} k new q e =
    let g = e.grows in
    let keeps : Agree 0 h1.next h1 (allocate k new h1) = λ k' a l b. rw (==_lt a h1.next b) in
    record {
      grows = omega arith;
      keeps = λ k' a l b. keeps k' a l (omega arith) ∙ e.keeps k' a l b;
      fresh = (
        g,
        omega arith,
        write_same k h1.next new h1,
        q.carry h.next h1.next h.next (suc h1.next) h1 (allocate k new h1) (omega arith)
            (omega arith) (λ k' a l b. keeps k' a (omega arith) b) e.fresh,
      );
    }

-- A write to an old cell leaves the copy as it is, and a write to a new one the original.
pub copy_apart :
    {A V : Type 0}
    → {R : Stands A V} → {copy : Heap → A → Heap × A} → IsCopier R copy
    → (h : Heap) (x : A) (v : V) → R 0 h.next h x v
    → (k : Kind) (a : ℕ) (new : Cell k) → a < h.next
    → (k' : Kind) (b : ℕ) (new' : Cell k') → h.next ≤ b
    → R h.next (copy h x).0.next (write k a new (copy h x).0) (copy h x).1 v
      × R 0 h.next (write k' b new' (copy h x).0) x v
copy_apart {copy = copy} c h x v r k a new l k' b new' g =
    let h1 = (copy h x).0 in
    let e = c.deep h x v r in
    (
      (c.stable (copy h x).1 v).carry h.next h1.next h.next h1.next h1 (write k a new h1)
          (omega arith) (omega arith) (λ k'' a' lo hi. write_below k a new h1 k'' a' (omega arith))
          e.fresh,
      (c.stable x v).carry 0 h.next 0 h.next h (write k' b new' h1) (omega arith) (omega arith)
          (λ k'' a' lo hi. write_above k' b new' h1 k'' a' (omega arith) ∙ e.keeps k'' a' lo hi) r,
    )
