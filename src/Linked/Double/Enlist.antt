-- ===== src/Linked/Double/Enlist.antt =====
-- DLinkedObject's `enlistTail`: at the end of a list, and from one list to another.
use commoncpp.Common.{
  ◌≡◌, ◌≢◌, refl, sym, subst, ◌∙◌, arith, true, false, List, [], ◌∷◌, ◌++◌, some, ◌==◌,
  if◌then◌else◌,
}
use commoncpp.Linked.{Ptr, null, Heap, put}
use commoncpp.Linked.Chain.{has, Distinct, erase, has-erase, ne_of_out}
use commoncpp.Linked.Ordered.Last.{last_of, has-last_of, last-append, Distinct-append}
use commoncpp.Linked.Double.{Store, set_tail, enlist_tail, join_tail, at_end}
use commoncpp.Linked.Double.Links.{Links, IsDouble, SameLinks, IsDouble-frame, Links-Placed}
use commoncpp.Linked.Double.Delist.{set_links-lem, delist-IsDouble}

-- The links after the last object is linked to `a`.
pub Links-append :
    (h g : Heap) (r a prior p x : Ptr) (xs : List Ptr)
    → a ≢ null
    → g.live a ≡ true
    → g.root a ≡ r
    → g.next a ≡ null
    → g.prev a ≡ last_of x xs
    → Links h r prior p (x ∷ xs)
    → Distinct (x ∷ xs)
    → has a (x ∷ xs) ≡ false
    → ((b : Ptr)
        → (b == a) ≡ false
        → (g.live b ≡ h.live b) × (g.prev b ≡ h.prev b) × (g.root b ≡ h.root b))
    → ((b : Ptr) → (b == a) ≡ false → g.next b ≡ (if b == last_of x xs then a else h.next b))
    → Links g r prior p ((x ∷ xs) ++ (a ∷ []))
Links-append h g r a prior p x [] n l t nx pv (e, m, o, k, y, c) d out v w =
    let i : (x == a) ≡ false = ground (arith, out) in
    let (lv, pr, rt) = v x i in
    (e, m, lv ∙ o, pr ∙ k, rt ∙ y, (ground (arith, w x i), n, l, pv, t, nx))
Links-append h g r a prior p x (z ∷ zs) n l t nx pv (e, m, o, k, y, c) (f, d) out v w =
    let i : (x == a) ≡ false = ground (arith, out) in
    let (lv, pr, rt) = v x i in
    let other : (x == last_of z zs) ≡ false =
      ground (arith, f, has-last_of z zs, ne_of_out x (last_of z zs) (z ∷ zs)) in
    let same : g.next x ≡ h.next x = ground (arith, w x i, other) in
    (
      e,
      m,
      lv ∙ o,
      pr ∙ k,
      rt ∙ y,
      rw same (Links-append h g r a x (h.next x) z zs n l t nx pv c d (ground (arith, out)) v w),
    )

pub record Added (s u : Store) (r this : Ptr) (xs : List Ptr) : Type 0 where
  pub list : IsDouble u r (xs ++ (this ∷ []))
  pub others :
      (a : Ptr) → a ≢ null → (a == this) ≡ false → has a xs ≡ false → SameLinks s.heap u.heap a
  pub other_index : (i : Ptr) → i ≢ r → u.index i ≡ s.index i

-- The store when `this` has the root r and no links, and when it is after the last object.
abbrev fresh : Store → Ptr → Ptr → Store
fresh s this r = record s {
  heap = record s.heap {
    prev = put s.heap.prev this null;
    next = put s.heap.next this null;
    root = put s.heap.root this r;
  };
}

abbrev after_last : Store → Ptr → Ptr → Ptr → Store
after_last s t this r =
    set_tail
      (record s {
        heap = record s.heap { prev = put s.heap.prev this t; next = put s.heap.next t this };
      })
      r this

at_end-lem :
    (s : Store) (t this r : Ptr)
    → this ≢ null
    → s.heap.live this ≡ true
    → t ≢ null
    → s.heap.live t ≡ true
    → (s.index r).tail ≡ t
    → at_end s this r ≡ some (after_last s t this r)
at_end-lem s t this r n l m k e = rw e (ground (arith, l, k))

-- An object that is in no list, behind the objects of one.
join_tail-Added :
    (s : Store) (r this : Ptr) (xs : List Ptr)
    → this ≢ null
    → s.heap.live this ≡ true
    → has this xs ≡ false
    → IsDouble s r xs
    → (u : Store) × (join_tail (fresh s this r) this r ≡ some u) × Added s u r this xs
join_tail-Added s r this [] n l out i =
    let e : (this == this) ≡ true = ground arith in
    let y : (r == r) ≡ true = ground arith in
    let z : ((s.index r).head == null) ≡ true = ground (arith, i.links) in
    let g : Store = fresh s this r in
    (
      record g { index = put s.index r (record { head = this; tail = this }) },
      rw z refl,
      record {
        list = record {
          links = rw y (refl, n, l, ground arith, ground arith, ground arith);
          distinct = (refl, tt);
          tail_is = rw y refl;
        };
        others = λ a m f o. (ground (arith, f), ground (arith, f), ground (arith, f), refl);
        other_index = λ j o. ground arith;
      },
    )
join_tail-Added s r this (x ∷ xs) n l out i =
    let (e, m, o, k, y, c) = i.links in
    let t : Ptr = last_of x xs in
    let inside : has t (x ∷ xs) ≡ true = has-last_of x xs in
    let pt = Links-Placed s.heap r null (s.index r).head t (x ∷ xs) i.links i.distinct inside in
    let z : ((s.index r).head == null) ≡ false = ground (arith, e) in
    let q : (t == this) ≡ false = ground (arith, ne_of_out this t (x ∷ xs) out inside) in
    let g : Store = fresh s this r in
    let u : Store = after_last g t this r in
    let hd : (u.index r).head ≡ (s.index r).head = ground arith in
    (
      after_last g t this r,
      rw z (at_end-lem g t this r n l pt.ne_null pt.lives i.tail_is),
      record {
        list = record {
          links =
              subst (λ p. Links u.heap r null p ((x ∷ xs) ++ (this ∷ []))) (sym hd)
                (Links-append s.heap u.heap r this null (s.index r).head x xs n l (ground arith)
                  (ground (arith, q)) (ground arith) i.links i.distinct out
                  (λ b w. (refl, ground (arith, w), ground (arith, w))) (λ b w. ground (arith, w)));
          distinct = Distinct-append this (x ∷ xs) i.distinct out;
          tail_is = ground (arith, last-append x this xs);
        };
        others = λ a m f w.
            let v : (t == a) ≡ false = ground (arith, ne_of_out a t (x ∷ xs) w inside) in
            (ground (arith, f, v), ground (arith, f), ground (arith, f), refl);
        other_index = λ j w. ground arith;
      },
    )

-- An object that is in no list comes behind the last one of a list.
pub enlist_tail-IsDouble :
    (s : Store) (r this : Ptr) (xs : List Ptr)
    → this ≢ null
    → s.heap.live this ≡ true
    → s.heap.root this ≡ null
    → has this xs ≡ false
    → IsDouble s r xs
    → (u : Store) × (enlist_tail s this r ≡ some u) × Added s u r this xs
unfolding enlist_tail
enlist_tail-IsDouble s r this xs n l t out i =
    let (u, e, a) = join_tail-Added s r this xs n l out i in
    (u, rw (t, set_links-lem s.heap this null null r n l) e, a)

-- `DLinkedObject::enlistTail` of an object of one list into another that has no object of the first
-- moves it: the first list is left without it, and it is the last object of the second; both are
-- linked both ways.
pub enlist_tail-moves :
    (s : Store) (r from this : Ptr) (xs ys : List Ptr)
    → from ≢ null
    → r ≢ from
    → IsDouble s from ys
    → has this ys ≡ true
    → IsDouble s r xs
    → ((a : Ptr) → has a xs ≡ true → has a ys ≡ false)
    → (u : Store) × (enlist_tail s this r ≡ some u)
      × IsDouble u from (erase this ys)
      × IsDouble u r (xs ++ (this ∷ []))
unfolding enlist_tail
enlist_tail-moves s r from this xs ys n m i t j apart =
    let pl = Links-Placed s.heap from null (s.index from).head this ys i.links i.distinct t in
    let (v, e, w) = delist-IsDouble s from this ys n i t in
    let z : (s.heap.root this == null) ≡ false = ground (arith, pl.rooted) in
    let out : has this xs ≡ false = ground (arith, apart this, t) in
    let j' : IsDouble v r xs =
      IsDouble-frame s v r xs j (w.other_index r m) (λ a k o. w.others a k (apart a o)) in
    let (u, f, a) = join_tail-Added v r this xs pl.ne_null (w.same_live this ∙ pl.lives) out j' in
    let kept : (b : Ptr) → b ≢ null → has b (erase this ys) ≡ true → SameLinks v.heap u.heap b =
      λ b k o.
        let (inside, other) = kept_of b o in a.others b k other (ground (arith, apart b, inside)) in
    (
      u,
      rw (z, e, set_links-lem v.heap this null null r pl.ne_null (w.same_live this ∙ pl.lives)) f,
      IsDouble-frame v u from (erase this ys) w.list (a.other_index from (λ k. m (sym k))) kept,
      a.list,
    )
  where
    kept_of : (b : Ptr) → has b (erase this ys) ≡ true → (has b ys ≡ true) × ((b == this) ≡ false)
    kept_of b o = (
      ground (arith, has-erase b this ys i.distinct, o),
      ground (arith, has-erase b this ys i.distinct, o),
    )
