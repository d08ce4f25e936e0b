-- ===== src/Linked/Named/Table/Keys.antt =====
-- A table's keys, and an id that was added, looked up and removed.
use commoncpp.Common.{
  ℕ, suc, ◌≤◌, ◌<◌, ◌≡◌, ◌≢◌, inl, inr, refl, ap, ◌∙◌, arith, Bool, true, false, List, [], ◌∷◌,
  some, ◌==◌, length, Bool-cases,
}
use commoncpp.Linked.{Ptr, null, Heap, put}
use commoncpp.Linked.Chain.{has, IsChain, erase}
use commoncpp.Linked.Named.{Text, Slots, slot, keyindex, find, add}
use commoncpp.Linked.Named.Lookup.{HasIds, first, find-first, remove-first}
use commoncpp.Linked.Named.Add.{HasIds-frame, first-frame, add-IsChain}
use commoncpp.Linked.Named.Table.{map, remove_in, remove_from, purge, purge_down}

-- The key is the place of a list of the table.
pub slot_bounded : (id : Text) (max : ℕ) → 1 ≤ max → slot id max < max
unfolding keyindex
slot_bounded id max m = ground (arith, m)

-- A table of one list is not purged.
pub purge-one : (fuel : ℕ) (h : Heap) (idx : Slots) → purge fuel h idx 1 ≡ some h
unfolding purge purge_down
purge-one fuel h idx = refl

HasIds-erase : (h : Heap) (a : Ptr) (xs : List Ptr) → HasIds h xs → HasIds h (erase a xs)
HasIds-erase h a [] m = tt
HasIds-erase h a (x ∷ xs) (i, m) = elim (Bool-cases (x == a)) [
  | inl y ↦ rw y m
  | inr y ↦ rw y (i, HasIds-erase h a xs m)
]

length-erase : (a : Ptr) (xs : List Ptr) → length (erase a xs) ≤ length xs
length-erase a [] = omega arith
length-erase a (x ∷ xs) = ground (arith, length-erase a xs)

module _ (same : Text → Text → Bool) where
  map-slot :
      (fuel : ℕ) (h : Heap) (idx : Slots) (id : Text) (max : ℕ)
      → map same fuel h idx id max ≡ find same fuel h (idx (slot id max)) id
  unfolding map
  map-slot fuel h idx id max = ground arith

  -- After `NamedObject::add` of an object that is not yet listed, with an id that no object of its
  -- list has and that equals itself, `map` finds the object by the id, its list has it in front of
  -- the objects that were there, and every other list of the table that it is not in has the same
  -- objects in the same order.
  pub map-add :
      (fuel : ℕ) (h : Heap) (root : Slots) (this : Ptr) (nid : Text) (max : ℕ) (xs : List Ptr)
      → IsChain h (root (slot nid max)) xs
      → HasIds h xs
      → length xs < fuel
      → this ≢ null
      → h.live this ≡ true
      → has this xs ≡ false
      → first same h nid xs ≡ null
      → same nid nid ≡ true
      → (g : Heap) × (root' : Slots) × (add same fuel h root this nid max ≡ some (g, root'))
        × (map same (suc fuel) g root' nid max ≡ some this)
        × IsChain g (root' (slot nid max)) (this ∷ xs)
        × ((k : ℕ) (ys : List Ptr)
            → k ≢ slot nid max
            → IsChain h (root k) ys
            → has this ys ≡ false
            → IsChain g (root' k) ys)
  map-add fuel h root this nid max xs c m l n o out f r =
      let (g, e, k, i, w, frame) = add-IsChain same fuel h root this nid max xs c m l n o out f in
      let here : put root (slot nid max) this (slot nid max) ≡ this = ground arith in
      (
        g,
        put root (slot nid max) this,
        e,
        map-slot (suc fuel) g (put root (slot nid max) this) nid max
            ∙ (ap (λ p. find same (suc fuel) g p nid) here ∙ w r),
        rw here k,
        λ j ys q c' out'.
            let there : put root (slot nid max) this j ≡ root j = ground arith in
            rw there (frame (root j) ys c' out'),
      )

  remove-slot :
      (fuel : ℕ) (h : Heap) (idx : Slots) (id : Text) (max : ℕ)
      → remove_from same fuel h idx id max ≡ remove_in same fuel h idx id (slot id max)
  unfolding remove_from
  remove-slot fuel h idx id max = ground arith

  -- `NamedObject::remove` of an id that one object of its list has at most gives that object, or
  -- null, and leaves the list without it, in which `map` then finds no object with the id.
  pub map-remove_from :
      (fuel : ℕ) (h : Heap) (idx : Slots) (id : Text) (max : ℕ) (xs : List Ptr)
      → IsChain h (idx (slot id max)) xs
      → HasIds h xs
      → length xs < fuel
      → first same h id (erase (first same h id xs) xs) ≡ null
      → (g : Heap) × (idx' : Slots) × (remove_from same fuel h idx id max
          ≡ some (g, idx', first same h id xs))
        × IsChain g (idx' (slot id max)) (erase (first same h id xs) xs)
        × (map same fuel g idx' id max ≡ some null)
  map-remove_from fuel h idx id max xs c m l f =
      let (g, root, e, k, r) = remove-first same fuel h (idx (slot id max)) id xs c m l in
      let a : Ptr = first same h id xs in
      let kept : (b : Ptr) → has b (erase a xs) ≡ true → g.ident b ≡ h.ident b =
        λ b q. ap (λ f. f b) r.same_ident in
      let here : put idx (slot id max) root (slot id max) ≡ root = ground arith in
      (
        g,
        put idx (slot id max) root,
        remove-slot fuel h idx id max ∙ rw e refl,
        rw here k,
        map-slot fuel g (put idx (slot id max) root) id max
            ∙ rw here (
                find-first same fuel g root id (erase a xs) (k.0)
                  (HasIds-frame same h g (erase a xs) kept (HasIds-erase h a xs m))
                  (omega (arith, length-erase a xs))
                ∙ ap some (first-frame same h g id (erase a xs) kept ∙ f)),
      )
