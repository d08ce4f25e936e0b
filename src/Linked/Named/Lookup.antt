-- ===== src/Linked/Named/Lookup.antt =====
-- Looking for an id in a list of named objects, and taking the object out.
use commoncpp.Common.{
  ℕ, zero, suc, ◌<◌, ◌≡◌, ◌≢◌, inl, inr, refl, sym, ap, ◌∙◌, arith, Bool, true, false, List, [],
  ◌∷◌, Option, none, some, ◌==◌, if◌then◌else◌, ◌>>=◌, length, Bool-cases,
}
use commoncpp.Linked.{Ptr, null, Heap, unlink}
use commoncpp.Linked.Chain.{
  has, Distinct, Chain, IsChain, erase, before, Chain-null, ne_of_out, erase-absent,
}
use commoncpp.Linked.Objects.{Relinked, unlink-IsChain}
use commoncpp.Linked.Named.{Text, equal, find, seek_id, remove}

-- The objects of a list have ids.
abbrev pub HasIds : Heap → List Ptr → Type 0
HasIds h [] = Unit {0}
HasIds h (x ∷ xs) = ((t : Text) × (h.ident x ≡ some t)) × HasIds h xs

module _ (same : Text → Text → Bool) where
  abbrev pub matches : Text → Option Text → Bool
  matches id none = false
  matches id (some t) = same t id

  abbrev pub answers : Heap → Text → Ptr → Bool
  answers h id a = matches id (h.ident a)

  -- The first object of a list with an id, null if there is none.
  abbrev pub first : Heap → Text → List Ptr → Ptr
  first h id [] = null
  first h id (x ∷ xs) = if answers h id x then x else first h id xs

  pub equal-answers :
      (h : Heap) (x : Ptr) (id t : Text)
      → x ≢ null
      → h.live x ≡ true
      → h.ident x ≡ some t
      → equal same h x id ≡ some (answers h id x)
  equal-answers h x id t n l e =
      let z : (x == null) ≡ false = ground arith in
      (rw (z, l, e) refl) ∙ ap (λ o. some (matches id o)) (sym e)

  pub has-first : (h : Heap) (id : Text) (xs : List Ptr) → has (first h id xs) (null ∷ xs) ≡ true
  has-first h id [] = refl
  has-first h id (x ∷ xs) = ground (arith, has-first h id xs)

  pub seek_id-first :
      (fuel : ℕ) (h : Heap) (id : Text) (prior p : Ptr) (xs : List Ptr)
      → Chain h p xs
      → Distinct xs
      → HasIds h xs
      → length xs < fuel
      → seek_id same fuel h id prior p ≡ some (before (first h id xs) prior xs, first h id xs)
  unfolding seek_id
  seek_id-first zero h id prior p xs c d m l = absurd (omega arith)
  seek_id-first (suc fuel) h id prior p [] c d m l = ground (arith, c)
  seek_id-first (suc fuel) h id prior p (x ∷ xs) (e, z, o, c) (out, d) ((t, i), m) l =
      let r = seek_id-first fuel h id x (h.next x) xs c d m (omega arith) in
      let y : (x == null) ≡ false = ground arith in
      let q = equal-answers h x id t z o i in
      elim (Bool-cases (answers h id x)) [
        | inl b ↦ let w : (x == x) ≡ true = ground arith in rw (e, q, y, b, w) refl
        | inr b ↦
            let same_first : first h id (x ∷ xs) ≡ first h id xs = rw b refl in
            let w : (x == first h id xs) ≡ false =
              ground (arith, has-first h id xs, out, ne_of_out x (first h id xs) xs) in
            rw (e, q, y, b, o, w)
              (r ∙ ap (λ a. some (before a x xs, first h id xs)) (sym same_first))
      ]

  -- `find` gives the first object with the id.
  pub find-first :
      (fuel : ℕ) (h : Heap) (p : Ptr) (id : Text) (xs : List Ptr)
      → Chain h p xs
      → HasIds h xs
      → length xs < fuel
      → find same fuel h p id ≡ some (first h id xs)
  unfolding find
  find-first zero h p id xs c m l = absurd (omega arith)
  find-first (suc fuel) h p id [] c m l = ground (arith, c)
  find-first (suc fuel) h p id (x ∷ xs) (e, z, o, c) ((t, i), m) l =
      let y : (x == null) ≡ false = ground arith in
      let r = find-first fuel h (h.next x) id xs c m (omega arith) in
      let q = equal-answers h x id t z o i in
      elim (Bool-cases (answers h id x)) [
        | inl b ↦ rw (e, q, y, b) refl
        | inr b ↦ rw (e, q, y, b, o) r
      ]

  -- `remove` takes the first object with the id out of the list.
  pub remove-first :
      (fuel : ℕ) (h : Heap) (root : Ptr) (id : Text) (xs : List Ptr)
      → IsChain h root xs
      → HasIds h xs
      → length xs < fuel
      → (g : Heap) × (root' : Ptr) × (remove same fuel h root id ≡ some (g, root', first h id xs))
        × IsChain g root' (erase (first h id xs) xs)
        × Relinked h xs g
  unfolding remove
  remove-first fuel h root id xs (c, d) m l =
      let a : Ptr = first h id xs in
      rw (seek_id-first fuel h id null root xs c d m l) (elim (Bool-cases (a == null)) [
        | inl z ↦
            let n : a ≡ null = ground (arith, z) in
            rw (z, erase-absent a xs (ap (λ b. has b xs) n ∙ Chain-null h root xs c))
              (
                h,
                root,
                ap (λ b. some (h, root, b)) (sym n),
                (c, d),
                record { same_live = λ b. refl; same_next = λ b k. refl; same_ident = refl },
              )
        | inr z ↦
            let t : has a xs ≡ true = ground (arith, z, has-first h id xs) in
            let (g, root', e, k, r) = unlink-IsChain h a root xs (ground (arith, z)) (c, d) t in
            let taken : Option (Heap × Ptr) → Option (Heap × Ptr × Ptr) =
              λ v. v >>= λ (h1, p). some (h1, p, a) in
            let q : Ptr = before a null xs in
            (
              g,
              root',
              ap (λ b. if b then some (h, root, null) else taken (unlink h a root q)) z
                  ∙ ap taken e,
              k,
              r,
            )
      ])
