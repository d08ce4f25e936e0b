-- ===== src/Maps/Adds.antt =====
-- The lists of a map and the list of its free entries, when an entry comes.
use commoncpp.Common.{
  ℕ, ◌+◌, ◌%◌, ◌<◌, ◌≡◌, ◌≢◌, refl, sym, ap, ◌∙◌, arith, true, false, ◌&&◌, ◌||◌, List, [], ◌∷◌,
  some, ◌==◌, inl, inr, Bool-cases,
}
use commoncpp.Linked.{Ptr, null, Heap, put, enlist}
use commoncpp.Linked.Chain.{has, ne_of_out}
use commoncpp.Refs.{Objects}
use commoncpp.Refs.Counts.{one, IsCounted, retain_any-IsCounted}
use commoncpp.Maps.{Map, allocate, new_index, create, add}
use commoncpp.Maps.Entries.{Lists, IsMap, Holds, IsChain-frame}

-- The entry that the next one is: the first that is free, or the one that the pool gives.
abbrev pub taken : Ptr → List Ptr → Ptr
taken fresh [] = fresh
taken fresh (p ∷ frees) = p

abbrev pub left : List Ptr → List Ptr
left [] = []
left (p ∷ frees) = frees

-- The map when a live entry that is in no list is put in front of one.
entered-IsMap :
    (size : ℕ) (h : Heap) (list : ℕ → Ptr) (free index : Ptr) (k : ℕ) (lists : Lists)
    (frees : List Ptr)
    → IsMap size h list free lists frees
    → k < size
    → index ≢ null
    → h.live index ≡ true
    → has index frees ≡ false
    → ((j : ℕ) → j < size → has index (lists j) ≡ false)
    → IsMap size
        (record h { next = put h.next index (list k) })
        (put list k index)
        free
        (put lists k (index ∷ lists k))
        frees
entered-IsMap size h list free index k lists frees i l n live out f =
    let h' : Heap = record h { next = put h.next index (list k) } in
    let keeps : (a : Ptr) → index ≢ a → (h'.next a ≡ h.next a) × (h'.live a ≡ h.live a) =
      λ a m. (ground arith, refl) in
    let here : (j : ℕ) (a : Ptr)
        → has a (put lists k (index ∷ lists k) j)
          ≡ (((j == k) && (index == a)) || has a (lists j)) =
      λ j a. elim (Bool-cases (j == k)) [
        | inl e ↦ let same : lists k ≡ lists j = ground (arith, e, ap lists) in rw (e, same) refl
        | inr e ↦ rw e refl
      ] in
    record {
      chains = λ j m. elim (Bool-cases (j == k)) [
        | inl e ↦
            let y : (index == index) ≡ true = ground arith in
            rw (e, y)
              (
                (
                  refl,
                  n,
                  live,
                  (IsChain-frame h h' (list k) (lists k)
                      (λ a s. keeps a (ne_of_out index a (lists k) (f k l) s)) (i.chains k l)).0,
                ),
                (f k l, (i.chains k l).1),
              )
        | inr e ↦ rw e (
            IsChain-frame h h' (list j) (lists j)
              (λ a s. keeps a (ne_of_out index a (lists j) (f j m) s)) (i.chains j m))
      ];
      free_chain =
          IsChain-frame h h' free frees (λ a s. keeps a (ne_of_out index a frees out s))
            i.free_chain;
      apart = λ u v a lu lv uv s.
          let absent : (j : ℕ) → j < size → (index == a) ≡ true → has a (lists j) ≡ false = λ j m e.
            let q : index ≡ a = ground (arith, e) in sym (ap (λ z. has z (lists j)) q) ∙ f j m in
          ground
            (arith, here u a, here v a, s, uv, absent u lu, absent v lv, i.apart u v a lu lv uv);
      not_free =
          λ j a lj s. ground (arith, here j a, ne_of_out index a frees out s, i.not_free j a lj s);
    }

-- The entry that is taken is live and in no list, and the others are as they were.
new_index-IsMap :
    (m : Map) (fresh : Ptr) (lists : Lists) (frees : List Ptr)
    → Holds m lists frees
    → fresh ≢ null
    → ((j : ℕ) → j < m.size → has fresh (lists j) ≡ false)
    → (h : Heap) × (free : Ptr) × (alloc : ℕ) × (new_index m fresh
        ≡ some (
          record m { heap = h; free = free; alloc = alloc; count = m.count + 1 },
          taken fresh frees,
        ))
      × IsMap m.size h m.list free lists (left frees)
      × (taken fresh frees ≢ null)
      × (h.live (taken fresh frees) ≡ true)
      × (has (taken fresh frees) (left frees) ≡ false)
      × ((j : ℕ) → j < m.size → has (taken fresh frees) (lists j) ≡ false)
unfolding new_index
new_index-IsMap m fresh lists [] i n f =
    let (c, d) = i.free_chain in
    let y : (m.free == null) ≡ true = ground (arith, c) in
    let h : Heap = allocate m.heap fresh in
    let keeps : (xs : List Ptr) (a : Ptr)
        → has fresh xs ≡ false
        → has a xs ≡ true
        → (h.next a ≡ m.heap.next a) × (h.live a ≡ m.heap.live a) =
      λ xs a o s. (refl, ground (arith, ne_of_out fresh a xs o s)) in
    (
      h,
      m.free,
      m.alloc + 1,
      rw y refl,
      record {
        chains = λ j l.
            IsChain-frame m.heap h (m.list j) (lists j) (λ a s. keeps (lists j) a (f j l) s)
              (i.chains j l);
        free_chain = (c, d);
        apart = i.apart;
        not_free = i.not_free;
      },
      n,
      ground arith,
      refl,
      f,
    )
new_index-IsMap m fresh (lists) (p ∷ frees) i n f =
    let ((e, z, live, c), (out, d)) = i.free_chain in
    let y : (m.free == null) ≡ false = ground (arith, e, z) in
    let lf : m.heap.live m.free ≡ true = ap m.heap.live e ∙ live in
    (
      m.heap,
      m.heap.next p,
      m.alloc,
      rw (y, lf) (ap (λ q. some (record m { free = m.heap.next q; count = m.count + 1 }, q)) e),
      record {
        chains = i.chains;
        free_chain = (c, d);
        apart = i.apart;
        not_free = λ j a l s. i.not_free j a l (ground (arith, s));
      },
      z,
      live,
      out,
      λ j l. i.not_free j p l (ground arith),
    )

-- Of a map whose entries are each in one list or free, `MapRef::add` of a live key and a live
-- value, or of null ones, puts in front of the list of the path an entry with both, the first that
-- is free or else the new one that the pool gives, and leaves the other lists; each entry is in one
-- list or free again, the count goes up by one, and the counts of the objects are those of the
-- references held, the two new ones included.
pub add-IsMap :
    (o : Objects) (m : Map) (path : ℕ) (key value fresh : Ptr) (held : Ptr → ℕ) (lists : Lists)
    (frees : List Ptr)
    → 0 < m.size
    → Holds m lists frees
    → fresh ≢ null
    → ((j : ℕ) → j < m.size → has fresh (lists j) ≡ false)
    → IsCounted o held
    → (key ≢ null → o.live key ≡ true)
    → (value ≢ null → o.live value ≡ true)
    → (o' : Objects) × (m' : Map) × (add o m path key value fresh ≡ some (o', m'))
      × Holds m'
          (put lists (path % m.size) (taken fresh frees ∷ lists (path % m.size)))
          (left frees)
      × (m'.key (taken fresh frees) ≡ key)
      × (m'.value (taken fresh frees) ≡ value)
      × IsCounted o' (λ p. held p + one key p + one value p)
      × (m'.count ≡ m.count + 1)
unfolding add create enlist
add-IsMap o m path key value fresh held lists frees z i n f c lk lv =
    let k : ℕ = path % m.size in
    let inside : k < m.size = omega arith in
    let p : Ptr = taken fresh frees in
    let (h, free, alloc, e, j, np, live, out, g) = new_index-IsMap m fresh lists frees i n f in
    let y : (p == null) ≡ false = ground (arith, np) in
    let (o1, e1, c1, l1) = retain_any-IsCounted o key held c lk in
    let (o2, e2, c2, l2) =
      retain_any-IsCounted o1 value (λ q. held q + one key q) c1
        (λ v. ap (λ w. w value) l1 ∙ lv v) in
    let x : (p == p) ≡ true = ground arith in
    (
      o2,
      record m {
        heap = record h { next = put h.next p (m.list k) };
        key = put (put m.key p null) p key;
        value = put (put m.value p null) p value;
        list = put m.list k p;
        free = free;
        alloc = alloc;
        count = m.count + 1;
      },
      rw (e, y, live, e1, e2) refl,
      entered-IsMap m.size h m.list free p k lists (left frees) j inside np live out g,
      rw x refl,
      rw x refl,
      c2,
      refl,
    )
