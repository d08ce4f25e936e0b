-- ===== src/Linked/Named/Add.antt =====
-- NamedObject's `add`: an object with a new id, and one that takes the place of another.
use commoncpp.Common.{
  ℕ, suc, ◌<◌, ◌≡◌, ◌≢◌, refl, sym, ap, subst, ◌∙◌, arith, Bool, true, false, List, [], ◌∷◌, none,
  some, ◌==◌, if◌then◌else◌, length,
}
use commoncpp.Linked.{Ptr, null, Heap, put, release}
use commoncpp.Linked.Chain.{
  has, Chain, IsChain, before, has-before, Chain-frame, Chain-live, Chain-null, ne_of_out,
  before_ne,
}
use commoncpp.Linked.Named.{Text, Slots, slot, find, seek_id, replace, add}
use commoncpp.Linked.Named.Lookup.{
  HasIds, matches, answers, first, has-first, seek_id-first, find-first,
}
use commoncpp.Linked.Named.Swap.{swap, Distinct-swap, Chain-swap, no_loop}

-- The heap when `this` has taken the place of `a`, behind `q`, and `a` is deleted.
abbrev replaced : Heap → Ptr → Ptr → Ptr → Heap
replaced h this q a = record h {
  next = put (put (put h.next q this) this (h.next a)) a a;
  live = put h.live a false;
}

replace-lem :
    (h : Heap) (root : Slots) (this : Ptr) (k : ℕ) (q a : Ptr)
    → q ≢ null
    → h.live q ≡ true
    → a ≢ null
    → h.live a ≡ true
    → this ≢ null
    → h.live this ≡ true
    → q ≢ a
    → this ≢ a
    → h.next a ≢ a
    → replace h root this k q a ≡ some (replaced h this q a, root)
unfolding replace release
replace-lem h root this k q a nq lq na la nt lt qa ta loop =
    ground (arith, lq, la, lt, qa, ta, loop)

-- The heap when the object in front is taken out and deleted.
abbrev taken : Heap → Ptr → Heap
taken h a = record h { next = put h.next a a; live = put h.live a false }

front-lem :
    (h : Heap) (root : Slots) (k : ℕ) (a : Ptr)
    → a ≢ null
    → h.live a ≡ true
    → h.next a ≢ a
    → (this : Ptr) → replace h root this k null a ≡ some (taken h a, put root k (h.next a))
unfolding replace release
front-lem h root k a na la loop this = ground (arith, la, loop)

module _ (same : Text → Text → Bool) where
  pub HasIds-frame :
      (h g : Heap) (xs : List Ptr)
      → ((a : Ptr) → has a xs ≡ true → g.ident a ≡ h.ident a)
      → HasIds h xs
      → HasIds g xs
  HasIds-frame h g [] s m = tt
  HasIds-frame h g (x ∷ xs) s ((t, i), m) =
      ((t, s x (ground arith) ∙ i), HasIds-frame h g xs (λ a k. s a (ground (arith, k))) m)

  pub first-frame :
      (h g : Heap) (id : Text) (xs : List Ptr)
      → ((a : Ptr) → has a xs ≡ true → g.ident a ≡ h.ident a)
      → first same g id xs ≡ first same h id xs
  first-frame h g id [] s = refl
  first-frame h g id (x ∷ xs) s =
      let e : answers same g id x ≡ answers same h id x =
        ap (matches same id) (s x (ground arith)) in
      rw (e, first-frame h g id xs (λ a k. s a (ground (arith, k)))) refl

  -- The heap when the id of `this` is cleared, and the search in it.
  abbrev cleared : Heap → Ptr → Heap
  cleared h this = record h { ident = put h.ident this none }

  seek-cleared :
      (fuel : ℕ) (h : Heap) (this p : Ptr) (nid : Text) (xs : List Ptr)
      → IsChain h p xs
      → HasIds h xs
      → length xs < fuel
      → has this xs ≡ false
      → seek_id same fuel (cleared h this) nid null p
        ≡ some (before (first same h nid xs) null xs, first same h nid xs)
  seek-cleared fuel h this p nid xs (c, d) m l out =
      let g : Heap = cleared h this in
      let kept : (a : Ptr) → has a xs ≡ true → g.ident a ≡ h.ident a =
        λ a k. ground (arith, ne_of_out this a xs out k) in
      let e = first-frame h g nid xs kept in
      seek_id-first same fuel g nid null p xs (Chain-frame h g p xs (λ a z k. (refl, refl)) c) d
        (HasIds-frame h g xs kept m) l
      ∙ ap (λ a. some (before a null xs, a)) e

  -- An object with a new id comes in front of its list.
  pub add-IsChain :
      (fuel : ℕ) (h : Heap) (root : Slots) (this : Ptr) (nid : Text) (max : ℕ) (xs : List Ptr)
      → IsChain h (root (slot nid max)) xs
      → HasIds h xs
      → length xs < fuel
      → this ≢ null
      → h.live this ≡ true
      → has this xs ≡ false
      → first same h nid xs ≡ null
      → (g : Heap) × (add same fuel h root this nid max ≡ some (g, put root (slot nid max) this))
        × IsChain g this (this ∷ xs)
        × HasIds g (this ∷ xs)
        × (same nid nid ≡ true → find same (suc fuel) g this nid ≡ some this)
        × ((p : Ptr) (ys : List Ptr) → IsChain h p ys → has this ys ≡ false → IsChain g p ys)
  unfolding add
  add-IsChain fuel h root this nid max xs (c, d) m l n o out f =
      let k : ℕ = slot nid max in
      let z : (this == null) ≡ false = ground arith in
      let e : (this == this) ≡ true = ground arith in
      let g : Heap = record h {
        ident = put (put h.ident this none) this (some nid);
        next = put h.next this (root k);
      } in
      let kept : (a : Ptr) → has a xs ≡ true → g.ident a ≡ h.ident a =
        λ a i. ground (arith, ne_of_out this a xs out i) in
      let c' : Chain g (root k) xs =
        Chain-frame h g (root k) xs (λ a w i. (ground (arith, ne_of_out this a xs out i), refl))
          c in
      let chain : Chain g this (this ∷ xs) = (refl, n, o, rw e c') in
      let ids : HasIds g (this ∷ xs) = ((nid, ground arith), HasIds-frame h g xs kept m) in
      let found : same nid nid ≡ true → first same g nid (this ∷ xs) ≡ this = λ w. rw (e, w) refl in
      (
        g,
        rw (z, o, seek-cleared fuel h this (root k) nid xs (c, d) m l out, f, o) (rw o refl),
        (chain, (out, d)),
        ids,
        λ w.
            find-first same (suc fuel) g this nid (this ∷ xs) chain ids (omega arith)
            ∙ ap some (found w),
        λ p ys (cy, dy) oy. (
          Chain-frame h g p ys (λ a w i. (ground (arith, ne_of_out this a ys oy i), refl)) cy,
          dy,
        ),
      )

  -- `NamedObject::add` with an id that an object of the list has, where that is not the first
  -- object, puts the new object with this id in the place of that one, and deletes that one.
  pub add-replaces :
      (fuel : ℕ) (h : Heap) (root : Slots) (this : Ptr) (nid : Text) (max : ℕ) (xs : List Ptr)
      → IsChain h (root (slot nid max)) xs
      → HasIds h xs
      → length xs < fuel
      → this ≢ null
      → h.live this ≡ true
      → has this xs ≡ false
      → first same h nid xs ≢ null
      → before (first same h nid xs) null xs ≢ null
      → (g : Heap) × (add same fuel h root this nid max ≡ some (g, root))
        × IsChain g (root (slot nid max)) (swap (first same h nid xs) this xs)
        × (g.ident this ≡ some nid)
        × (g.live (first same h nid xs) ≡ false)
  unfolding add
  add-replaces fuel h root this nid max xs (c, d) m l n o out f p =
      let k : ℕ = slot nid max in
      let a : Ptr = first same h nid xs in
      let q : Ptr = before a null xs in
      let t : has a xs ≡ true = ground (arith, f, has-first same h nid xs) in
      let tq : has q xs ≡ true = ground (arith, p, has-before a null xs) in
      let z : (this == null) ≡ false = ground arith in
      let za : (a == null) ≡ false = ground arith in
      let la : h.live a ≡ true = Chain-live h (root k) a xs c t in
      let lq : h.live q ≡ true = Chain-live h (root k) q xs c tq in
      let ta : this ≢ a = ne_of_out this a xs out t in
      let r =
        replace-lem (cleared h this) root this k q a p lq f la n o
          (before_ne a null xs (λ e. f (sym e))) ta (no_loop h (root k) a xs c d t) in
      let u : Heap = replaced (cleared h this) this q a in
      let g : Heap = record u { ident = put u.ident this (some nid) } in
      let live_g : u.live this ≡ true = ground (arith, ta, o) in
      let zq : (q == null) ≡ false = ground arith in
      (
        g,
        rw (z, o, seek-cleared fuel h this (root k) nid xs (c, d) m l out, za, r) (rw live_g refl),
        (
          subst (λ b. Chain g (if b then this else root k) (swap a this xs)) zq
              (Chain-swap h g this a null (root k) q xs c d (Chain-null h (root k) xs c) t refl
                (ground (arith, out)) n live_g (ground (arith, ta)) (λ b x y. ground (arith, x))
                (λ b w x y. ground (arith, x, y))),
          Distinct-swap a this xs d out,
        ),
        ground arith,
        ground arith,
      )

  -- `NamedObject::add` with an id that the first object of the list has takes that object out and
  -- does not put the new one in: what is left is the rest of the list, and where no other object
  -- has the id, it is not found any more.
  pub add-lost :
      (fuel : ℕ) (h : Heap) (root : Slots) (this : Ptr) (nid : Text) (max : ℕ) (x : Ptr)
      (xs : List Ptr)
      → IsChain h (root (slot nid max)) (x ∷ xs)
      → HasIds h (x ∷ xs)
      → length (x ∷ xs) < fuel
      → this ≢ null
      → h.live this ≡ true
      → has this (x ∷ xs) ≡ false
      → answers same h nid x ≡ true
      → first same h nid xs ≡ null
      → (g : Heap) × (root' : Slots) × (add same fuel h root this nid max ≡ some (g, root'))
        × IsChain g (root' (slot nid max)) xs
        × (find same fuel g (root' (slot nid max)) nid ≡ some null)
  unfolding add
  add-lost fuel h root this nid max x xs ((e, w, lx, c), (nx, d)) ((t, i), m) l n o out y f =
      let k : ℕ = slot nid max in
      let kc : IsChain h (root k) (x ∷ xs) = ((e, w, lx, c), (nx, d)) in
      let a1 : first same h nid (x ∷ xs) ≡ x = rw y refl in
      let s : seek_id same fuel (cleared h this) nid null (root k) ≡ some (null, x) =
        seek-cleared fuel h this (root k) nid (x ∷ xs) kc ((t, i), m) l out
        ∙ (ap (λ a. some (before a null (x ∷ xs), a)) a1 ∙ ground arith) in
      let r =
        front-lem (cleared h this) root k x w lx
          (no_loop h (root k) x (x ∷ xs) (e, w, lx, c) (nx, d) (ground arith)) this in
      let u : Heap = taken (cleared h this) x in
      let g : Heap = record u { ident = put u.ident this (some nid) } in
      let z : (this == null) ≡ false = ground arith in
      let zx : (x == null) ≡ false = ground arith in
      let live_g : u.live this ≡ true = ground (arith, out, o) in
      let first_is : put root k (h.next x) k ≡ h.next x = ground arith in
      let kept : (a : Ptr) → has a xs ≡ true → g.ident a ≡ h.ident a =
        λ a q. ground (arith, ne_of_out this a xs, out, q) in
      let c' : Chain g (h.next x) xs =
        Chain-frame h g (h.next x) xs
          (λ a v q.
            let b : (a == x) ≡ false = ground (arith, ne_of_out x a xs nx q) in
            (ground (arith, b), ground (arith, b)))
          c in
      (
        g,
        put root k (h.next x),
        rw (z, o, s, zx, r) (rw live_g refl),
        rw first_is (c', d),
        rw first_is (
            find-first same fuel g (h.next x) nid xs c' (HasIds-frame h g xs kept m) (omega arith)
            ∙ ap some (first-frame h g nid xs kept ∙ f)),
      )
