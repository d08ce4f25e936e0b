-- ===== src/Linked/Ordered/Order.antt =====
-- The list of an OrderedIndex under its operations.
use commoncpp.Common.{
  ℕ, zero, suc, ◌+◌, ◌-◌, ◌<◌, ◌≡◌, ◌≢◌, inl, inr, refl, sym, ap, ◌∙◌, arith, true, false, List, [],
  ◌∷◌, ◌++◌, some, ◌==◌, if◌then◌else◌, length, get_or, Bool-cases, ltb,
}
use commoncpp.Linked.{Ptr, null, Heap, put}
use commoncpp.Linked.Chain.{
  has, Distinct, Chain, erase, before, seek-before, Chain-frame, Chain-live, Chain-null,
  erase-absent, ne_of_out,
}
use commoncpp.Linked.Objects.{Relinked, unlink-IsChain}
use commoncpp.Linked.Ordered.{
  Index, enlist, enlist_head, delist, get, index_from, index, find_from, find,
}
use commoncpp.Linked.Ordered.Last.{last_of, has-last_of, last-append, Distinct-append, last-erase}

-- From the head of the index the objects of a list follow, each once, and its tail is the last.
pub record IsIndex (h : Heap) (i : Index) (xs : List Ptr) : Type 0 where
  pub chain : Chain h i.head xs
  pub distinct : Distinct xs
  pub tail_is : i.tail ≡ last_of null xs

-- The chain after its last object is linked to `a`.
Chain-append :
    (h g : Heap) (a p x : Ptr) (xs : List Ptr)
    → a ≢ null
    → h.live a ≡ true
    → Chain h p (x ∷ xs)
    → Distinct (x ∷ xs)
    → has a (x ∷ xs) ≡ false
    → ((b : Ptr) → g.live b ≡ h.live b)
    → ((b : Ptr) → g.next b ≡ (if b == last_of x xs then a else if b == a then null else h.next b))
    → Chain g p ((x ∷ xs) ++ (a ∷ []))
Chain-append h g a p x [] n l (e, m, o, c) d out k w =
    (e, m, k x ∙ o, (ground (arith, w x), n, k a ∙ l, ground (arith, w a, out)))
Chain-append h g a p x (y ∷ ys) n l (e, m, o, c) (f, d) out k w =
    let other : (x == last_of y ys) ≡ false =
      ground (arith, f, has-last_of y ys, ne_of_out x (last_of y ys) (y ∷ ys)) in
    let same : g.next x ≡ h.next x = ground (arith, w x, other, out) in
    (e, m, k x ∙ o, rw same (Chain-append h g a (h.next x) y ys n l c d (ground (arith, out)) k w))

pub enlist-IsIndex :
    (h : Heap) (this : Ptr) (root : Index) (xs : List Ptr)
    → this ≢ null
    → h.live this ≡ true
    → IsIndex h root xs
    → has this xs ≡ false
    → (g : Heap) × (root' : Index) × (enlist h this root ≡ some (g, root'))
      × IsIndex g root' (xs ++ (this ∷ []))
      × ((a : Ptr) → g.live a ≡ h.live a)
unfolding enlist
enlist-IsIndex h this root [] n l i out =
    let g : Heap = record h { next = put h.next this null } in
    let z : (this == null) ≡ false = ground arith in
    let e : (this == this) ≡ true = ground arith in
    (
      g,
      record { head = this; tail = this },
      rw (z, l, i.chain) refl,
      record { chain = (refl, n, l, rw e refl); distinct = (refl, tt); tail_is = refl },
      λ a. refl,
    )
enlist-IsIndex h this root (x ∷ xs) n l i out =
    let (e, m, o, c) = i.chain in
    let t : Ptr = last_of x xs in
    let inside : has t (x ∷ xs) ≡ true = has-last_of x xs in
    let g : Heap = record h { next = put (put h.next this null) t this } in
    let z : (this == null) ≡ false = ground arith in
    let y : (x == null) ≡ false = ground arith in
    let u : (t == null) ≡ false =
      ground (arith, Chain-null h root.head (x ∷ xs) i.chain, ne_of_out null t (x ∷ xs)) in
    (
      g,
      record { head = root.head; tail = this },
      rw (z, l, e, y, i.tail_is, u, Chain-live h root.head t (x ∷ xs) i.chain inside) refl,
      record {
        chain =
            Chain-append h g this root.head x xs n l i.chain i.distinct out (λ b. refl)
              (λ b. ground arith);
        distinct = Distinct-append this (x ∷ xs) i.distinct out;
        tail_is = sym (last-append x this xs);
      },
      λ a. refl,
    )

pub enlist_head-IsIndex :
    (h : Heap) (this : Ptr) (root : Index) (xs : List Ptr)
    → this ≢ null
    → h.live this ≡ true
    → IsIndex h root xs
    → has this xs ≡ false
    → (g : Heap) × (root' : Index) × (enlist_head h this root ≡ some (g, root'))
      × IsIndex g root' (this ∷ xs)
unfolding enlist_head
enlist_head-IsIndex h this root [] n l i out =
    let z : (this == null) ≡ false = ground arith in
    let e : (this == this) ≡ true = ground arith in
    (
      record h { next = put h.next this null },
      record { head = this; tail = this },
      rw (z, l, i.tail_is) refl,
      record { chain = (refl, n, l, rw e refl); distinct = (refl, tt); tail_is = refl },
    )
enlist_head-IsIndex h this root (x ∷ xs) n l i out =
    let (e, m, o, c) = i.chain in
    let t : Ptr = last_of x xs in
    let g : Heap = record h { next = put (put h.next this null) this root.head } in
    let z : (this == null) ≡ false = ground arith in
    let y : (x == null) ≡ false = ground arith in
    let s : (this == this) ≡ true = ground arith in
    let u : (t == null) ≡ false = ground (
      arith,
      Chain-null h root.head (x ∷ xs) i.chain,
      has-last_of x xs,
      ne_of_out null t (x ∷ xs),
    ) in
    (
      g,
      record { head = this; tail = root.tail },
      rw (z, l, i.tail_is, u, e, y, l) refl,
      record {
        chain = (
          refl,
          n,
          l,
          rw s (
              Chain-frame h g root.head (x ∷ xs)
                (λ a b k. (ground (arith, ne_of_out this a (x ∷ xs) out k), refl)) i.chain),
        );
        distinct = (out, i.distinct);
        tail_is = i.tail_is;
      },
    )

pub delist-IsIndex :
    (fuel : ℕ) (h : Heap) (this : Ptr) (root : Index) (xs : List Ptr)
    → this ≢ null
    → IsIndex h root xs
    → length xs < fuel
    → (g : Heap) × (root' : Index) × (delist fuel h this root ≡ some (g, root'))
      × IsIndex g root' (erase this xs)
      × Relinked h xs g
unfolding delist
delist-IsIndex fuel h this root xs n i l =
    rw (seek-before fuel h this null root.head xs n i.chain l) (elim (Bool-cases (has this xs)) [
      | inr f ↦ rw f (
        h,
        root,
        refl,
        rw (erase-absent this xs f) i,
        record { same_live = λ a. refl; same_next = λ a m. refl; same_ident = refl },
      )
      | inl t ↦
          let z : (this == null) ≡ false = ground arith in
          let (g, head, e, (c, d), r) =
            unlink-IsChain h this root.head xs n (i.chain, i.distinct) t in
          let tail : Ptr = if this == root.tail then before this null xs else root.tail in
          rw t (
            g,
            record { head = head; tail = tail },
            rw (e, z) refl,
            record {
              chain = c;
              distinct = d;
              tail_is = rw i.tail_is (sym (last-erase this null xs i.distinct t));
            },
            r,
          )
    ])

pub get-IsIndex :
    (h : Heap) (root : Index) (x : Ptr) (xs : List Ptr)
    → IsIndex h root (x ∷ xs)
    → (root' : Index) × (get h root ≡ some (x, root')) × IsIndex h root' xs
unfolding get
get-IsIndex h root x xs i =
    let (e, n, o, c) = i.chain in
    let y : (x == null) ≡ false = ground arith in
    (
      record { head = h.next x; tail = if h.next x == null then null else root.tail },
      rw (e, y, o) refl,
      record { chain = c; distinct = i.distinct.1; tail_is = ends xs c i.tail_is },
    )
  where
    ends :
        (xs : List Ptr)
        → Chain h (h.next x) xs
        → root.tail ≡ last_of x xs
        → (if h.next x == null then null else root.tail) ≡ last_of null xs
    ends [] c t = ground arith
    ends (y ∷ ys) (e, n, o, c) t = let z : (h.next x == null) ≡ false = ground arith in rw z t

pub get-empty : (h : Heap) (root : Index) → IsIndex h root [] → get h root ≡ some (null, root)
unfolding get
get-empty h root i = rw i.chain refl

index_from-Chain :
    (fuel : ℕ) (h : Heap) (p : Ptr) (xs : List Ptr)
    → Chain h p xs
    → length xs < fuel
    → index_from fuel h p ≡ some xs
unfolding index_from
index_from-Chain zero h p xs c l = absurd (omega arith)
index_from-Chain (suc fuel) h p [] c l = ground arith
index_from-Chain (suc fuel) h p (x ∷ xs) (e, n, o, c) l =
    ground (arith, index_from-Chain fuel h (h.next x) xs c)

pub index-IsIndex :
    (fuel : ℕ) (h : Heap) (root : Index) (xs : List Ptr)
    → IsIndex h root xs
    → length xs < fuel
    → index fuel h root ≡ some xs
unfolding index
index-IsIndex fuel h root xs i l = index_from-Chain fuel h root.head xs i.chain l

find_from-get_or :
    (fuel : ℕ) (h : Heap) (p : Ptr) (xs : List Ptr) (n c : ℕ)
    → Chain h p xs
    → length xs < fuel
    → find_from fuel h p n c ≡ some (get_or xs (n - c - 1) null)
unfolding find_from
find_from-get_or zero h p xs n c w l = absurd (omega arith)
find_from-get_or (suc fuel) h p [] n c w l = ground arith
find_from-get_or (suc fuel) h p (x ∷ xs) n c (e, m, o, w) l =
    let z : (x == null) ≡ false = ground arith in
    elim (Bool-cases (ltb (c + 1) n)) [
      | inl k ↦
          let q : n - c - 1 ≡ suc (n - (c + 1) - 1) = ground (arith, k) in
          rw (e, z, k, o, q) (find_from-get_or fuel h (h.next x) xs n (c + 1) w (omega arith))
      | inr k ↦ let q : n - c - 1 ≡ 0 = ground (arith, k) in rw (e, z, k, q) refl
    ]

pub find-get_or :
    (fuel : ℕ) (h : Heap) (root : Index) (xs : List Ptr) (n : ℕ)
    → IsIndex h root xs
    → length xs < fuel
    → find fuel h root n ≡ some (get_or xs (n - 1) null)
unfolding find
find-get_or fuel h root xs n i l =
    find_from-get_or fuel h root.head xs n 0 i.chain l
    ∙ ap (λ k. some (get_or xs (k - 1) null)) (omega arith)
