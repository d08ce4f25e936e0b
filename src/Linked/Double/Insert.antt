-- ===== src/Linked/Double/Insert.antt =====
-- DLinkedObject's `insertTail` and `insertHead`: next to an object of a list.
use commoncpp.Common.{
  ◌≡◌, ◌≢◌, inl, inr, refl, sym, ap, subst, ◌∙◌, arith, true, false, List, [], ◌∷◌, ◌++◌, some,
  ◌==◌,
}
use commoncpp.Linked.{Ptr, null, Heap, put}
use commoncpp.Linked.Chain.{has, has-before, ne_of_out}
use commoncpp.Linked.Ordered.Last.{last_of, has-last_of, last-append, Distinct-append}
use commoncpp.Linked.Double.{Store, set_tail, insert_tail, insert_head}
use commoncpp.Linked.Double.Links.{Links, IsDouble, Links-Placed, Links-forth}
use commoncpp.Linked.Double.Delist.{set_links-lem}
use commoncpp.Linked.Double.Ends.{last_is}
use commoncpp.Linked.Double.Enlist.{Added, Links-append}

pub insert_tail-prev :
    (s : Store) (r this o : Ptr) (xs : List Ptr)
    → IsDouble s r xs
    → has this xs ≡ true
    → s.heap.next this ≢ null
    → o ≢ null
    → s.heap.live o ≡ true
    → s.heap.root o ≡ null
    → has o xs ≡ false
    → (u : Store) × (insert_tail s this o ≡ some u)
      × (u.heap.next this ≡ o)
      × (u.heap.prev o ≡ this)
      × (u.heap.next o ≡ s.heap.next this)
      × (u.heap.prev (s.heap.next this) ≡ this)
unfolding insert_tail
insert_tail-prev s r this o xs i t m n l z out =
    let h : Heap = s.heap in
    let pl = Links-Placed h r null (s.index r).head this xs i.links i.distinct t in
    let g : Heap = record h {
      prev = put h.prev o this;
      next = put (put h.next o (h.next this)) this o;
      root = put h.root o (h.root this);
    } in
    let e : (h.next this == null) ≡ false = ground arith in
    let lt : h.live this ≡ true = pl.lives in
    let nt : (this == null) ≡ false = ground (arith, pl.ne_null) in
    let apart : (o == this) ≡ false = ground (arith, ne_of_out o this xs out t) in
    let next_o : (h.next this == o) ≡ false =
      ground (arith, pl.next_in, ne_of_out o (h.next this) xs out) in
    (
      record s { heap = g },
      rw (z, set_links-lem h o this (h.next this) (h.root this) n l, e, nt, lt) refl,
      ground arith,
      ground arith,
      ground (arith, apart),
      ground (arith, pl.back m, next_o),
    )

pub insert_head-next :
    (s : Store) (r this o : Ptr) (xs : List Ptr)
    → IsDouble s r xs
    → has this xs ≡ true
    → s.heap.prev this ≢ null
    → o ≢ null
    → s.heap.live o ≡ true
    → s.heap.root o ≡ null
    → has o xs ≡ false
    → (u : Store) × (insert_head s this o ≡ some u)
      × (u.heap.prev this ≡ o)
      × (u.heap.next o ≡ this)
      × (u.heap.prev o ≡ s.heap.prev this)
      × (u.heap.next (s.heap.prev this) ≡ this)
unfolding insert_head
insert_head-next s r this o xs i t m n l z out =
    let h : Heap = s.heap in
    let pl = Links-Placed h r null (s.index r).head this xs i.links i.distinct t in
    let g : Heap = record h {
      prev = put (put h.prev o (h.prev this)) this o;
      next = put h.next o this;
      root = put h.root o (h.root this);
    } in
    let e : (h.prev this == null) ≡ false = ground arith in
    let lt : h.live this ≡ true = pl.lives in
    let nt : (this == null) ≡ false = ground (arith, pl.ne_null) in
    let apart : (o == this) ≡ false = ground (arith, ne_of_out o this xs out t) in
    let prev_o : (h.prev this == o) ≡ false =
      ground (arith, pl.prev_is, has-before this null xs, ne_of_out o (h.prev this) xs out, m) in
    (
      record s { heap = g },
      rw (z, set_links-lem h o (h.prev this) this (h.root this) n l, e, nt, lt) refl,
      ground arith,
      ground arith,
      ground (arith, apart),
      ground (
        arith,
        Links-forth h r null (s.index r).head this (h.prev this) xs i.links t pl.prev_is,
        prev_o,
      ),
    )

-- `DLinkedObject::insertTail` of an object that is in no list, behind an object of a list that is
-- not its last, goes through, but no list of the index that has the object is linked both ways
-- then.
pub insert_tail-broken :
    (s : Store) (r this o : Ptr) (xs : List Ptr)
    → IsDouble s r xs
    → has this xs ≡ true
    → s.heap.next this ≢ null
    → o ≢ null
    → s.heap.live o ≡ true
    → s.heap.root o ≡ null
    → has o xs ≡ false
    → (u : Store) × (insert_tail s this o ≡ some u)
      × ((ys : List Ptr) → has o ys ≡ true → ¬ IsDouble u r ys)
insert_tail-broken s r this o xs i t m n l z out =
    let (u, e, a, b, c, d) = insert_tail-prev s r this o xs i t m n l z out in
    (
      u,
      e,
      λ ys k j.
          let po = Links-Placed u.heap r null (u.index r).head o ys j.links j.distinct k in
          ne_of_out o this xs out t (sym (po.back (λ f. m (sym c ∙ f))) ∙ (ap u.heap.prev c ∙ d)),
    )

-- `insertHead` before an object that is not the first leaves no list that is linked both ways.
pub insert_head-broken :
    (s : Store) (r this o : Ptr) (xs : List Ptr)
    → IsDouble s r xs
    → has this xs ≡ true
    → s.heap.prev this ≢ null
    → o ≢ null
    → s.heap.live o ≡ true
    → s.heap.root o ≡ null
    → has o xs ≡ false
    → (u : Store) × (insert_head s this o ≡ some u)
      × ((ys : List Ptr) → has o ys ≡ true → ¬ IsDouble u r ys)
insert_head-broken s r this o xs i t m n l z out =
    let (u, e, a, b, c, d) = insert_head-next s r this o xs i t m n l z out in
    (
      u,
      e,
      λ ys k j.
          let po = Links-Placed u.heap r null (u.index r).head o ys j.links j.distinct k in
          elim (Links-forth u.heap r null (u.index r).head o (u.heap.prev o) ys j.links k
            po.prev_is) [
              | inl (f, g) ↦ m (sym c ∙ f)
              | inr f ↦ ne_of_out o this xs out t (sym f ∙ (ap u.heap.next c ∙ d))
            ],
    )

-- Behind the last object `insertTail` does what `enlistTail` does.
pub insert_tail-Added :
    (s : Store) (r o x : Ptr) (xs : List Ptr)
    → r ≢ null
    → IsDouble s r (x ∷ xs)
    → o ≢ null
    → s.heap.live o ≡ true
    → s.heap.root o ≡ null
    → has o (x ∷ xs) ≡ false
    → (u : Store) × (insert_tail s (last_of x xs) o ≡ some u) × Added s u r o (x ∷ xs)
unfolding insert_tail
insert_tail-Added s r o x xs rn i n l z out =
    let h : Heap = s.heap in
    let this : Ptr = last_of x xs in
    let t : has this (x ∷ xs) ≡ true = has-last_of x xs in
    let pl = Links-Placed h r null (s.index r).head this (x ∷ xs) i.links i.distinct t in
    let lt = last_is h r null (s.index r).head this (x ∷ xs) i.links i.distinct t in
    let w : h.next this ≡ null = ground (arith, lt) in
    let g : Heap = record h {
      prev = put h.prev o this;
      next = put (put h.next o null) this o;
      root = put h.root o r;
    } in
    let u : Store = set_tail (record s { heap = g }) r o in
    let y : (r == null) ≡ false = ground arith in
    let nt : (this == null) ≡ false = ground (arith, pl.ne_null) in
    let apart : (this == o) ≡ false = ground (arith, ne_of_out o this (x ∷ xs) out t) in
    let hd : (u.index r).head ≡ (s.index r).head = ground arith in
    (
      u,
      rw (z, w, pl.rooted, y, set_links-lem h o this null r n l, nt, pl.lives) refl,
      record {
        list = record {
          links =
              subst (λ p. Links u.heap r null p ((x ∷ xs) ++ (o ∷ []))) (sym hd)
                (Links-append h u.heap r o null (s.index r).head x xs n l (ground arith)
                  (ground (arith, apart)) (ground arith) i.links i.distinct out
                  (λ b f. (refl, ground (arith, f), ground (arith, f))) (λ b f. ground (arith, f)));
          distinct = Distinct-append o (x ∷ xs) i.distinct out;
          tail_is = ground (arith, last-append x o xs);
        };
        others = λ a m f k.
            let v : (this == a) ≡ false = ground (arith, ne_of_out a this (x ∷ xs) k t) in
            (ground (arith, f, v), ground (arith, f), ground (arith, f), refl);
        other_index = λ j f. ground arith;
      },
    )
