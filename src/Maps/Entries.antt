-- ===== src/Maps/Entries.antt =====
-- The lists of a map and the list of its free entries, when an entry goes.
use commoncpp.Common.{
  ℕ, ◌+◌, ◌-◌, ◌%◌, ◌<◌, ◌≡◌, ◌≢◌, refl, ap, ◌∙◌, arith, true, false, not, ◌&&◌, List, ◌∷◌, some,
  ◌==◌, length, inl, inr, Bool-cases,
}
use commoncpp.Linked.{Ptr, null, Heap, put, enlist}
use commoncpp.Linked.Chain.{
  has, IsChain, Distinct, erase, Chain-frame, Chain-live, has-erase, ne_of_out,
}
use commoncpp.Linked.Objects.{Relinked, delist-IsChain}
use commoncpp.Refs.{Objects}
use commoncpp.Refs.Counts.{one, IsCounted, release_any-IsCounted}
use commoncpp.Maps.{Map, remove}

abbrev pub Lists : Type 0
Lists = ℕ → List Ptr

-- An entry is in one list at most, or free.
pub record IsMap (size : ℕ) (h : Heap) (list : ℕ → Ptr) (free : Ptr) (lists : Lists)
    (frees : List Ptr) : Type 0 where
  pub chains : (i : ℕ) → i < size → IsChain h (list i) (lists i)
  pub free_chain : IsChain h free frees
  pub apart :
      (i j : ℕ) (a : Ptr)
      → i < size
      → j < size
      → i ≢ j
      → has a (lists i) ≡ true
      → has a (lists j) ≡ false
  pub not_free : (i : ℕ) (a : Ptr) → i < size → has a frees ≡ true → has a (lists i) ≡ false

abbrev pub Holds : Map → Lists → List Ptr → Type 0
Holds m lists frees = IsMap m.size m.heap m.list m.free lists frees

-- Lists whose entries keep their links.
pub IsChain-frame :
    (h g : Heap) (p : Ptr) (xs : List Ptr)
    → ((a : Ptr) → has a xs ≡ true → (g.next a ≡ h.next a) × (g.live a ≡ h.live a))
    → IsChain h p xs
    → IsChain g p xs
IsChain-frame h g p xs s (c, d) = (Chain-frame h g p xs (λ a n t. s a t) c, d)

has-put :
    (lists : Lists) (k j : ℕ) (index a : Ptr)
    → Distinct (lists k)
    → has a (put lists k (erase index (lists k)) j)
      ≡ (has a (lists j) && not ((j == k) && (a == index)))
has-put lists k j index a d = elim (Bool-cases (j == k)) [
  | inl e ↦
      let same : has a (lists k) ≡ has a (lists j) = ground (arith, e, ap (λ n. has a (lists n))) in
      rw e (ground (arith, has-erase a index (lists k) d, same))
  | inr e ↦ rw e (ground arith)
]

-- The heap when the entry is taken out of its list and is free.
removed-IsMap :
    (size : ℕ) (h g : Heap) (list : ℕ → Ptr) (free index root : Ptr) (k : ℕ) (lists : Lists)
    (frees : List Ptr)
    → IsMap size h list free lists frees
    → k < size
    → index ≢ null
    → has index (lists k) ≡ true
    → IsChain g root (erase index (lists k))
    → Relinked h (lists k) g
    → IsMap size
        (record g { next = put g.next index free })
        (put list k root)
        index
        (put lists k (erase index (lists k)))
        (index ∷ frees)
removed-IsMap size h g list free index root k lists frees i l n t c r =
    let h' : Heap = record g { next = put g.next index free } in
    let er : List Ptr = erase index (lists k) in
    let d : Distinct (lists k) = (i.chains k l).1 in
    let gone : has index er ≡ false = ground (arith, has-erase index index (lists k) d) in
    let in_use : has index frees ≡ false = ground (arith, i.not_free k index l, t) in
    let here = λ (j : ℕ) (a : Ptr). has-put lists k j index a d in
    let live : h.live index ≡ true = Chain-live h (list k) index (lists k) (i.chains k l).0 t in
    let keeps : (a : Ptr)
        → index ≢ a
        → has a (lists k) ≡ false
        → (h'.next a ≡ h.next a) × (h'.live a ≡ h.live a) =
      λ a m o. (ground (arith, r.same_next a o), r.same_live a) in
    record {
      chains = λ j m. elim (Bool-cases (j == k)) [
        | inl e ↦ rw e (
            IsChain-frame g h' root er (λ a s. (ground (arith, ne_of_out index a er gone s), refl))
              c)
        | inr e ↦
            let jk : j ≢ k = ground (arith, e) in
            let kj : k ≢ j = ground (arith, e) in
            rw e (
              IsChain-frame h h' (list j) (lists j)
                (λ a s.
                  keeps a (ne_of_out index a (lists j) (i.apart k j index l m kj t) s)
                    (i.apart j k a m l jk s))
                (i.chains j m))
      ];
      free_chain =
          let y : (index == index) ≡ true = ground arith in
          (
            (
              refl,
              n,
              r.same_live index ∙ live,
              rw y (
                  Chain-frame h h' free frees
                    (λ a z s. keeps a (ne_of_out index a frees in_use s) (i.not_free k a l s))
                    i.free_chain.0),
            ),
            (in_use, i.free_chain.1),
          );
      apart = λ u v a lu lv uv s. ground (arith, here u a, here v a, i.apart u v a lu lv uv, s);
      not_free = λ j a lj s. elim (Bool-cases (index == a)) [
        | inl e ↦ elim (Bool-cases (j == k)) [
          | inl f ↦ ground (arith, here j a, e, f)
          | inr f ↦
              let kj : k ≢ j = ground (arith, f) in
              let same : has index (lists j) ≡ has a (lists j) =
                ground (arith, e, ap (λ z. has z (lists j))) in
              ground (arith, here j a, same, i.apart k j index l lj kj t)
        ]
        | inr e ↦ ground (arith, here j a, s, e, i.not_free j a lj)
      ];
    }

-- Of a map to which nothing was appended, `Map::remove` of an entry of the list of the path, with
-- more fuel than that list has entries, takes it out of the list and makes it the first that is
-- free, and leaves the other lists; each entry is in one list or free again, the count goes down by
-- one, and the counts of the objects are those of the references held without those to its key and
-- its value.
pub remove-IsMap :
    (fuel : ℕ) (o : Objects) (m : Map) (index : Ptr) (path : ℕ) (held : Ptr → ℕ) (lists : Lists)
    (frees : List Ptr)
    → 0 < m.size
    → Holds m lists frees
    → m.last ≡ null
    → index ≢ null
    → has index (lists (path % m.size)) ≡ true
    → length (lists (path % m.size)) < fuel
    → IsCounted o (λ p. held p + one (m.value index) p + one (m.key index) p)
    → (o' : Objects) × (m' : Map) × (remove fuel o m index path ≡ some (o', m'))
      × Holds m' (put lists (path % m.size) (erase index (lists (path % m.size)))) (index ∷ frees)
      × IsCounted o' held
      × (m'.count ≡ m.count - 1)
unfolding remove enlist
remove-IsMap fuel o m index path held lists frees z i last n t l c =
    let k : ℕ = path % m.size in
    let inside : k < m.size = omega arith in
    let (o1, e1, c1, f1) =
      release_any-IsCounted o (m.key index) (λ p. held p + one (m.value index) p) c in
    let (o2, e2, c2, f2) = release_any-IsCounted o1 (m.value index) held c1 in
    let (g, root, ed, cd, r) =
      delist-IsChain fuel m.heap index (m.list k) (lists k) n (i.chains k inside) l in
    let y : (index == null) ≡ false = ground arith in
    let w : not (m.last == null) ≡ false = ground (arith, last) in
    let live : g.live index ≡ true =
      r.same_live index ∙ Chain-live m.heap (m.list k) index (lists k) (i.chains k inside).0 t in
    (
      o2,
      record m {
        heap = record g { next = put g.next index m.free };
        list = put m.list k root;
        free = index;
        count = m.count - 1;
      },
      rw (y, e1, e2, w, ed, live) refl,
      removed-IsMap m.size m.heap g m.list m.free index root k lists frees i inside n t cd r,
      c2,
      refl,
    )
