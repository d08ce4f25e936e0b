-- ===== src/Linked/Objects.antt =====
-- LinkedObject's operations on a proper list.
use commoncpp.Common.{
  ℕ, zero, suc, ◌+◌, ◌<◌, ◌≡◌, ◌≢◌, inl, inr, refl, ap, subst, ◌∙◌, arith, true, false, not, ◌&&◌,
  List, [], ◌∷◌, some, ◌==◌, if◌then◌else◌, length, get_or, Bool-cases,
}
use commoncpp.Linked.{
  Ptr, null, Heap, put, enlist, unlink, delist, is_member, count_from, count, get_indexed, release,
  purge,
}
use commoncpp.Linked.Chain.{
  has, Chain, IsChain, erase, before, seek-before, has-before, Chain-erase, Chain-frame, Chain-live,
  Chain-null, Distinct-erase, erase-absent, ne_of_out, Chain-ne_out,
}

-- An object comes in front of a list.
pub enlist-IsChain :
    (h : Heap) (this root : Ptr) (xs : List Ptr)
    → this ≢ null
    → h.live this ≡ true
    → IsChain h root xs
    → has this xs ≡ false
    → (g : Heap) × (enlist h this root ≡ some (g, this)) × IsChain g this (this ∷ xs)
unfolding enlist
enlist-IsChain h this root xs n l (c, d) out =
    let g : Heap = record h { next = put h.next this root } in
    let e : (this == this) ≡ true = ground arith in
    (
      g,
      ground (arith, l),
      (
        (
          refl,
          n,
          l,
          rw e (
              Chain-frame h g root xs (λ a z m. (ground (arith, ne_of_out this a xs out m), refl))
                c),
        ),
        (out, d),
      ),
    )

-- What a list is after a change that leaves all but its own objects as they were.
pub record Relinked (h : Heap) (xs : List Ptr) (g : Heap) : Type 0 where
  pub same_live : (a : Ptr) → g.live a ≡ h.live a
  pub same_next : (a : Ptr) → has a xs ≡ false → g.next a ≡ h.next a
  pub same_ident : g.ident ≡ h.ident

pub unlink-IsChain :
    (h : Heap) (this root : Ptr) (xs : List Ptr)
    → this ≢ null
    → IsChain h root xs
    → has this xs ≡ true
    → (g : Heap) × (root' : Ptr) × (unlink h this root (before this null xs) ≡ some (g, root'))
      × IsChain g root' (erase this xs)
      × Relinked h xs g
unlink-IsChain h this root xs n (c, d) t =
    let q : Ptr = before this null xs in
    let nn : has null xs ≡ false = Chain-null h root xs c in
    let live : h.live this ≡ true = Chain-live h root this xs c t in
    let z : (this == null) ≡ false = ground arith in
    elim (Bool-cases (q == null)) [
      | inl e ↦ (
        h,
        h.next this,
        rw (z, live, e) refl,
        (
          subst (λ b. Chain h (if b then h.next this else root) (erase this xs)) e
              (Chain-erase h h this null root q xs c d nn t refl (λ a. refl)
                (λ a m. ground (arith, e))),
          Distinct-erase this xs d,
        ),
        record { same_live = λ a. refl; same_next = λ a m. refl; same_ident = refl },
      )
      | inr e ↦
          let g : Heap = record h { next = put h.next q (h.next this) } in
          let inside : has q xs ≡ true = ground (arith, e, has-before this null xs) in
          (
            g,
            root,
            rw (z, live, e, Chain-live h root q xs c inside) refl,
            (
              subst (λ b. Chain g (if b then h.next this else root) (erase this xs)) e
                  (Chain-erase h g this null root q xs c d nn t refl (λ a. refl)
                    (λ a m. ground arith)),
              Distinct-erase this xs d,
            ),
            record {
              same_live = λ a. refl;
              same_next = λ a m. ground (arith, ne_of_out a q xs m inside);
              same_ident = refl;
            },
          )
    ]

-- An object is taken out of a list, and a list that does not have it stays.
pub delist-IsChain :
    (fuel : ℕ) (h : Heap) (this root : Ptr) (xs : List Ptr)
    → this ≢ null
    → IsChain h root xs
    → length xs < fuel
    → (g : Heap) × (root' : Ptr) × (delist fuel h this root ≡ some (g, root'))
      × IsChain g root' (erase this xs)
      × Relinked h xs g
unfolding delist
delist-IsChain fuel h this root xs n (c, d) l =
    rw (seek-before fuel h this null root xs n c l) (elim (Bool-cases (has this xs)) [
      | inr f ↦ rw f (
        h,
        root,
        refl,
        (rw (erase-absent this xs f) c, Distinct-erase this xs d),
        record { same_live = λ a. refl; same_next = λ a m. refl; same_ident = refl },
      )
      | inl t ↦
          let z : (this == null) ≡ false = ground arith in
          let (g, root', e, k, r) = unlink-IsChain h this root xs n (c, d) t in
          rw t (
            g,
            root',
            ap (λ b. if b then some (h, root) else unlink h this root (before this null xs)) z ∙ e,
            k,
            r,
          )
    ])

pub count_from-length :
    (fuel : ℕ) (h : Heap) (p : Ptr) (xs : List Ptr) (c : ℕ)
    → Chain h p xs
    → length xs < fuel
    → count_from fuel h p c ≡ some (c + length xs)
unfolding count_from
count_from-length zero h p xs c w l = absurd (omega arith)
count_from-length (suc fuel) h p [] c w l = ground arith
count_from-length (suc fuel) h p (x ∷ xs) c (e, n, o, w) l =
    ground (arith, count_from-length fuel h (h.next x) xs (c + 1) w)

-- `count` is the number of objects.
pub count-length :
    (fuel : ℕ) (h : Heap) (root : Ptr) (xs : List Ptr)
    → Chain h root xs
    → length xs < fuel
    → count fuel h root ≡ some (length xs)
unfolding count
count-length fuel h root xs c l = ground (arith, count_from-length fuel h root xs 0 c l)

-- `is_member` tells whether the object is in the list.
pub is_member-has :
    (fuel : ℕ) (h : Heap) (this list : Ptr) (xs : List Ptr)
    → Chain h list xs
    → length xs < fuel
    → is_member fuel h this list ≡ some (has this xs)
unfolding is_member
is_member-has zero h this list xs c l = absurd (omega arith)
is_member-has (suc fuel) h this list [] c l = ground arith
is_member-has (suc fuel) h this list (x ∷ xs) (e, n, o, c) l =
    ground (arith, is_member-has fuel h this (h.next x) xs c)

-- `getIndexed` gives the object at a place, null behind the last.
pub get_indexed-get_or :
    (h : Heap) (root : Ptr) (xs : List Ptr) (index : ℕ)
    → Chain h root xs
    → get_indexed h root index ≡ some (get_or xs index null)
unfolding get_indexed
get_indexed-get_or h root [] zero c = ground arith
get_indexed-get_or h root [] (suc index) c = ground arith
get_indexed-get_or h root (x ∷ xs) zero (e, n, o, c) = ground arith
get_indexed-get_or h root (x ∷ xs) (suc index) (e, n, o, c) =
    ground (arith, get_indexed-get_or h (h.next x) xs index c)

-- Each object of the list is deleted, and no other.
pub record Deleted (h : Heap) (xs : List Ptr) (g : Heap) : Type 0 where
  pub lives : (a : Ptr) → g.live a ≡ (h.live a && not (has a xs))
  pub others : (a : Ptr) → has a xs ≡ false → g.next a ≡ h.next a

-- An object that is not linked to itself.
release-Deleted :
    (h : Heap) (x : Ptr)
    → x ≢ null
    → h.live x ≡ true
    → h.next x ≢ x
    → (g : Heap) × (release h x ≡ some g) × Deleted h (x ∷ []) g
unfolding release
release-Deleted h x n o r = (
  record h { next = put h.next x x; live = put h.live x false },
  ground arith,
  record { lives = λ a. ground arith; others = λ a m. ground arith },
)

-- `LinkedObject::purge` of a list, with more fuel than the list has objects, reads no object that
-- is deleted, and deletes the objects of the list and no other.
pub purge-Deleted :
    (fuel : ℕ) (h : Heap) (root : Ptr) (xs : List Ptr)
    → IsChain h root xs
    → length xs < fuel
    → (g : Heap) × (purge fuel h root ≡ some g) × Deleted h xs g
unfolding purge
purge-Deleted zero h root xs c l = absurd (omega arith)
purge-Deleted (suc fuel) h root [] (c, d) l =
    (h, ground arith, record { lives = λ a. ground arith; others = λ a m. refl })
purge-Deleted (suc fuel) h root (x ∷ xs) ((e, n, o, c), (out, d)) l =
    let z : (x == null) ≡ false = ground arith in
    let (h', r, del) = release-Deleted h x n o (Chain-ne_out h (h.next x) x xs n c out) in
    let c' : Chain h' (h.next x) xs =
      Chain-frame h h' (h.next x) xs
        (λ a m i. (
          del.others a (ground (arith, ne_of_out x a xs out i)),
          ground (arith, del.lives a, ne_of_out x a xs out i),
        ))
        c in
    let (g, s, rest) = purge-Deleted fuel h' (h.next x) xs (c', d) (omega arith) in
    (
      g,
      rw (e, z, o, r, s) refl,
      record {
        lives = λ a. ground (arith, rest.lives a, del.lives a);
        others = λ a m. ground (arith, rest.others a, del.others a);
      },
    )
