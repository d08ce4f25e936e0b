-- ===== src/Linked/Double/Delist.antt =====
-- DLinkedObject's `delist`, and `enlistTail` of an object that is in no list.
use commoncpp.Common.{
  ◌≡◌, ◌≢◌, refl, sym, ap, subst, ◌∙◌, arith, true, false, List, some, ◌==◌, if◌then◌else◌,
}
use commoncpp.Linked.{Ptr, null, Heap, put}
use commoncpp.Linked.Chain.{has, erase, has-before, Distinct-erase, ne_of_out, before_ne}
use commoncpp.Linked.Ordered.Last.{last-erase}
use commoncpp.Linked.Double.{Store, set_links, past_prev, past_next, delist}
use commoncpp.Linked.Double.Links.{
  Links, IsDouble, SameLinks, Links-null, Links-Placed, Links-erase,
}
use commoncpp.Linked.Double.Ends.{
  PrevPassed, past_prev-lem, NextPassed, past_next-lem, first_is, last_is,
}

pub record Removed (s u : Store) (r this : Ptr) (xs : List Ptr) : Type 0 where
  pub list : IsDouble u r (erase this xs)
  pub same_live : (a : Ptr) → u.heap.live a ≡ s.heap.live a
  pub next_cut : u.heap.next this ≡ null
  pub prev_cut : u.heap.prev this ≡ null
  pub root_cut : u.heap.root this ≡ null
  pub others : (a : Ptr) → a ≢ null → has a xs ≡ false → SameLinks s.heap u.heap a
  pub other_index : (i : Ptr) → i ≢ r → u.index i ≡ s.index i

pub set_links-lem :
    (h : Heap) (p a b r : Ptr)
    → p ≢ null
    → h.live p ≡ true
    → set_links h p a b r
      ≡ some (record h { prev = put h.prev p a; next = put h.next p b; root = put h.root p r })
set_links-lem h p a b r n l = ground (arith, l)

-- The store when the links of `this` are null.
abbrev cut : Store → Ptr → Store
cut s this = record s {
  heap = record s.heap {
    prev = put s.heap.prev this null;
    next = put s.heap.next this null;
    root = put s.heap.root this null;
  };
}

delist-cut :
    (s s1 s2 : Store) (r this : Ptr)
    → this ≢ null
    → s.heap.live this ≡ true
    → s.heap.root this ≡ r
    → r ≢ null
    → past_prev s this ≡ some s1
    → past_next s1 this ≡ some s2
    → s2.heap.live this ≡ true
    → delist s this ≡ some (cut s2 this)
unfolding delist
delist-cut s s1 s2 r this n l t rn e1 e2 l2 =
    let z : (this == null) ≡ false = ground arith in
    let y : (r == null) ≡ false = ground arith in
    rw (e1, e2, set_links-lem s2.heap this null null null n l2, z, l, t, y) refl

cut-Removed :
    (s s1 s2 : Store) (r this : Ptr) (xs : List Ptr)
    → IsDouble s r xs
    → has this xs ≡ true
    → PrevPassed s s1 r (s.heap.prev this) (s.heap.next this)
    → NextPassed s1 s2 r (s.heap.prev this) (s.heap.next this)
    → Removed s (cut s2 this) r this xs
cut-Removed s s1 s2 r this xs i t p1 p2 =
    let h : Heap = s.heap in
    let pl = Links-Placed h r null (s.index r).head this xs i.links i.distinct t in
    let q : Ptr = h.prev this in
    let n : Ptr = h.next this in
    let u : Store = cut s2 this in
    let next_is : (a : Ptr)
        → a ≢ null
        → (a == this) ≡ false
        → u.heap.next a ≡ (if q == a then n else h.next a) =
      λ a z y. ground (arith, y, p1.next_is a z, ap (λ f. f a) p2.same_next) in
    let prev_is : (a : Ptr)
        → a ≢ null
        → (a == this) ≡ false
        → u.heap.prev a ≡ (if n == a then q else h.prev a) =
      λ a z y. ground (arith, y, p2.prev_is a z, ap (λ f. f a) p1.same_prev) in
    let kept : (a : Ptr)
        → (a == this) ≡ false
        → (u.heap.live a ≡ h.live a) × (u.heap.root a ≡ h.root a) =
      λ a y. (
        ap (λ f. f a) p2.same_live ∙ ap (λ f. f a) p1.same_live,
        ground (arith, y, ap (λ f. f a) p2.same_root, ap (λ f. f a) p1.same_root),
      ) in
    let lt = last_is h r null (s.index r).head this xs i.links i.distinct t in
    record {
      list = record {
        links =
            subst (λ p. Links u.heap r null p (erase this xs)) (sym (p2.same_head ∙ p1.head_is))
              (Links-erase h u.heap r this null (s.index r).head q xs i.links i.distinct
                (Links-null h r null (s.index r).head xs i.links) t (sym pl.prev_is) kept next_is
                prev_is);
        distinct = Distinct-erase this xs i.distinct;
        tail_is = ground (
          arith,
          p2.tail_is,
          p1.same_tail,
          i.tail_is,
          last-erase this null xs i.distinct t,
          lt,
          pl.prev_is,
        );
      };
      same_live = λ a. ap (λ f. f a) p2.same_live ∙ ap (λ f. f a) p1.same_live;
      next_cut = ground arith;
      prev_cut = ground arith;
      root_cut = ground arith;
      others = λ a z f.
          let y : (a == this) ≡ false = ground (arith, ne_of_out a this xs f t) in
          let qa : (q == a) ≡ false =
            ground (arith, pl.prev_is, has-before this null xs, ne_of_out a q xs f) in
          let na : (n == a) ≡ false = ground (arith, pl.next_in, ne_of_out a n xs f) in
          let (lv, rt) = kept a y in
          (ground (arith, next_is a z y, qa), ground (arith, prev_is a z y, na), rt, lv);
      other_index = λ j z. p2.other_index j z ∙ p1.other_index j z;
    }

delist-next :
    (s s1 : Store) (r this : Ptr) (xs : List Ptr)
    → r ≢ null
    → IsDouble s r xs
    → has this xs ≡ true
    → past_prev s this ≡ some s1
    → PrevPassed s s1 r (s.heap.prev this) (s.heap.next this)
    → s1.heap.next this ≡ s.heap.next this
    → s1.heap.prev this ≡ s.heap.prev this
    → (u : Store) × (delist s this ≡ some u) × Removed s u r this xs
delist-next s s1 r this xs rn i t e1 p1 n1 q1 =
    let h : Heap = s.heap in
    let p : Ptr = (s.index r).head in
    let pl = Links-Placed h r null p this xs i.links i.distinct t in
    let lt = last_is h r null p this xs i.links i.distinct t in
    let live1 : (a : Ptr) → s1.heap.live a ≡ h.live a = λ a. ap (λ f. f a) p1.same_live in
    let inside : s1.heap.next this ≢ null → has (s1.heap.next this) xs ≡ true =
      λ z. ap (λ a. has a xs) n1 ∙ ground (arith, pl.next_in, z, n1) in
    let (s2, e2, p2) =
      past_next-lem s1 r this (ap (λ f. f this) p1.same_root ∙ pl.rooted)
        (λ z. p1.same_tail ∙ (i.tail_is ∙ ground (arith, lt, z, n1)))
        (λ z.
          live1 (s1.heap.next this)
          ∙ (Links-Placed h r null p (s1.heap.next this) xs i.links i.distinct (inside z)).lives) in
    let passed : NextPassed s1 s2 r (h.prev this) (h.next this) =
      subst (λ a. NextPassed s1 s2 r a (h.next this)) q1
        (subst (λ a. NextPassed s1 s2 r (s1.heap.prev this) a) n1 p2) in
    let alive : s2.heap.live this ≡ true =
      ap (λ f. f this) p2.same_live ∙ (live1 this ∙ pl.lives) in
    (
      cut s2 this,
      delist-cut s s1 s2 r this pl.ne_null pl.lives pl.rooted rn e1 e2 alive,
      cut-Removed s s1 s2 r this xs i t p1 passed,
    )

-- `DLinkedObject::delist` of an object of a list that is linked both ways leaves the list without
-- it, linked both ways and with the head and the tail of what is left; the links of the object are
-- null, and the links of objects outside the list and the other indexes stay.
pub delist-IsDouble :
    (s : Store) (r this : Ptr) (xs : List Ptr)
    → r ≢ null
    → IsDouble s r xs
    → has this xs ≡ true
    → (u : Store) × (delist s this ≡ some u) × Removed s u r this xs
delist-IsDouble s r this xs rn i t =
    let h : Heap = s.heap in
    let p : Ptr = (s.index r).head in
    let pl = Links-Placed h r null p this xs i.links i.distinct t in
    let ne : this ≢ null = pl.ne_null in
    let qne : (h.prev this == this) ≡ false =
      ground (arith, before_ne this null xs (λ e. ne (sym e)), pl.prev_is) in
    let lives = λ (a : Ptr) (m : has a xs ≡ true).
      (Links-Placed h r null p a xs i.links i.distinct m).lives in
    let (s1, e1, p1) =
      past_prev-lem s r this pl.rooted (λ z. first_is h r p this xs i.links t (sym pl.prev_is ∙ z))
        (λ z. lives (h.prev this) (ground (arith, has-before this null xs, pl.prev_is))) in
    let n1 : s1.heap.next this ≡ h.next this = ground (arith, p1.next_is this ne, qne) in
    let q1 : s1.heap.prev this ≡ h.prev this = ap (λ f. f this) p1.same_prev in
    delist-next s s1 r this xs rn i t e1 p1 n1 q1
