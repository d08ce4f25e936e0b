-- ===== src/Linked/Double/Ends.antt =====
-- The two parts of `DLinkedObject::delist`, and the objects at the ends of a list.
use commoncpp.Common.{
  ◌≡◌, ◌≢◌, inl, inr, refl, subst, arith, true, false, List, [], ◌∷◌, some, ◌==◌, if◌then◌else◌,
  Bool-cases,
}
use commoncpp.Linked.{Ptr, null, Heap, put}
use commoncpp.Linked.Chain.{has, Distinct, before, has-before, ne_of_out}
use commoncpp.Linked.Ordered.Last.{last_of, has-last_of}
use commoncpp.Linked.Double.{Store, past_prev, past_next}
use commoncpp.Linked.Double.Links.{Links, Links-null}

pub record PrevPassed (s u : Store) (r q n : Ptr) : Type 0 where
  pub next_is : (a : Ptr) → a ≢ null → u.heap.next a ≡ (if q == a then n else s.heap.next a)
  pub same_prev : u.heap.prev ≡ s.heap.prev
  pub same_root : u.heap.root ≡ s.heap.root
  pub same_live : u.heap.live ≡ s.heap.live
  pub head_is : (u.index r).head ≡ (if q == null then n else (s.index r).head)
  pub same_tail : (u.index r).tail ≡ (s.index r).tail
  pub other_index : (i : Ptr) → i ≢ r → u.index i ≡ s.index i

pub past_prev-lem :
    (s : Store) (r this : Ptr)
    → s.heap.root this ≡ r
    → (s.heap.prev this ≡ null → (s.index r).head ≡ this)
    → (s.heap.prev this ≢ null → s.heap.live (s.heap.prev this) ≡ true)
    → (u : Store) × (past_prev s this ≡ some u)
      × PrevPassed s u r (s.heap.prev this) (s.heap.next this)
past_prev-lem s r this e first live = elim (Bool-cases (s.heap.prev this == null)) [
  | inl z ↦
      let f : ((s.index r).head == this) ≡ true = ground (arith, first, z) in
      (
        record s { index = put s.index r (record (s.index r) { head = s.heap.next this }) },
        rw (z, e, f) refl,
        record {
          next_is = λ a n. ground (arith, z);
          same_prev = refl;
          same_root = refl;
          same_live = refl;
          head_is = ground (arith, z);
          same_tail = ground arith;
          other_index = λ i n. ground arith;
        },
      )
  | inr z ↦
      let l : s.heap.live (s.heap.prev this) ≡ true = live (ground (arith, z)) in
      (
        record s {
          heap = record s.heap { next = put s.heap.next (s.heap.prev this) (s.heap.next this) };
        },
        rw (z, l) refl,
        record {
          next_is = λ a n. ground arith;
          same_prev = refl;
          same_root = refl;
          same_live = refl;
          head_is = ground (arith, z);
          same_tail = refl;
          other_index = λ i n. refl;
        },
      )
]

pub record NextPassed (s u : Store) (r q n : Ptr) : Type 0 where
  pub prev_is : (a : Ptr) → a ≢ null → u.heap.prev a ≡ (if n == a then q else s.heap.prev a)
  pub same_next : u.heap.next ≡ s.heap.next
  pub same_root : u.heap.root ≡ s.heap.root
  pub same_live : u.heap.live ≡ s.heap.live
  pub tail_is : (u.index r).tail ≡ (if n == null then q else (s.index r).tail)
  pub same_head : (u.index r).head ≡ (s.index r).head
  pub other_index : (i : Ptr) → i ≢ r → u.index i ≡ s.index i

pub past_next-lem :
    (s : Store) (r this : Ptr)
    → s.heap.root this ≡ r
    → (s.heap.next this ≡ null → (s.index r).tail ≡ this)
    → (s.heap.next this ≢ null → s.heap.live (s.heap.next this) ≡ true)
    → (u : Store) × (past_next s this ≡ some u)
      × NextPassed s u r (s.heap.prev this) (s.heap.next this)
past_next-lem s r this e last live = elim (Bool-cases (s.heap.next this == null)) [
  | inl z ↦
      let f : ((s.index r).tail == this) ≡ true = ground (arith, last, z) in
      (
        record s { index = put s.index r (record (s.index r) { tail = s.heap.prev this }) },
        rw (z, e, f) refl,
        record {
          prev_is = λ a n. ground (arith, z);
          same_next = refl;
          same_root = refl;
          same_live = refl;
          tail_is = ground (arith, z);
          same_head = ground arith;
          other_index = λ i n. ground arith;
        },
      )
  | inr z ↦
      let l : s.heap.live (s.heap.next this) ≡ true = live (ground (arith, z)) in
      (
        record s {
          heap = record s.heap { prev = put s.heap.prev (s.heap.next this) (s.heap.prev this) };
        },
        rw (z, l) refl,
        record {
          prev_is = λ a n. ground arith;
          same_next = refl;
          same_root = refl;
          same_live = refl;
          tail_is = ground (arith, z);
          same_head = refl;
          other_index = λ i n. refl;
        },
      )
]

-- The first object is the one with none before it, the last the one with none after it.
pub first_is :
    (h : Heap) (r p a : Ptr) (xs : List Ptr)
    → Links h r null p xs
    → has a xs ≡ true
    → before a null xs ≡ null
    → p ≡ a
first_is h r p a [] c i b = cc
first_is h r p a (x ∷ xs) (e, n, o, k, t, c) i b =
    ground
      (arith, e, i, b, has-before a x xs, Links-null h r x (h.next x) xs c, ne_of_out null x xs)

pub last_is :
    (h : Heap) (r prior p a : Ptr) (xs : List Ptr)
    → Links h r prior p xs
    → Distinct xs
    → has a xs ≡ true
    → (h.next a == null) ≡ (a == last_of prior xs)
last_is h r prior p a [] c d i = cc
last_is h r prior p a (x ∷ xs) (e, n, o, k, t, c) (out, d) i = elim (Bool-cases (x == a)) [
  | inl z ↦
      subst (λ b. (h.next b == null) ≡ (b == last_of x xs)) (ground (arith, z)) (at_first xs c out)
  | inr z ↦ last_is h r x (h.next x) a xs c d (ground (arith, z, i))
]
  where
    at_first :
        (xs : List Ptr)
        → Links h r x (h.next x) xs
        → has x xs ≡ false
        → (h.next x == null) ≡ (x == last_of x xs)
    at_first [] c out = ground (arith, c)
    at_first (y ∷ ys) (f, m, l, b, g, c) out =
        ground (arith, f, m, out, has-last_of y ys, ne_of_out x (last_of y ys) (y ∷ ys))
