-- ===== src/Memory/Blocks.antt =====
-- The memory that a memalloc has handed out: none of it overlaps, as long as its pages hold whole words.
use commoncpp.Common.{
  ℕ, ◌+◌, ◌-◌, ◌*◌, ◌%◌, ◌^◌, ◌≤◌, ◌<◌, ◌≡◌, ◌≢◌, ◌⊎◌, inl, inr, refl, ap, arith, true, false, not,
  ◌&&◌, List, [], ◌∷◌, none, some, ltb, leb, ◌==◌, if◌then◌else◌, Bool-cases,
}
use commoncpp.Memory.{
  word, header, Page, Pager, Place, memalloc, new_page, pager, rounded, minus, grow, place, alloc,
}
use commoncpp.Memory.Pages.{
  listed, used_at, Sound, used_at-absent, rounded-lem, Taken, grow-Taken, place-Taken,
}

pub record Block : Type 0 where
  pub base : ℕ
  pub offset : ℕ
  pub size : ℕ

abbrev pub Apart : Block → Block → Type 0
Apart a b = (a.base ≢ b.base) ⊎ ((a.offset + a.size ≤ b.offset) ⊎ (b.offset + b.size ≤ a.offset))

abbrev pub ApartFrom : Block → List Block → Type 0
ApartFrom a [] = Unit {0}
ApartFrom a (b ∷ bs) = Apart a b × ApartFrom a bs

abbrev pub Separate : List Block → Type 0
Separate [] = Unit {0}
Separate (a ∷ bs) = ApartFrom a bs × Separate bs

-- The blocks are in what is used of the pages.
abbrev pub Covered : List Page → List Block → Type 0
Covered ps [] = Unit {0}
Covered ps (b ∷ bs) = (b.offset + b.size ≤ used_at b.base ps) × Covered ps bs

pub record IsPager (m : Pager) (bs : List Block) : Type 0 where
  pub words : m.pagesize % word ≡ 0
  pub room : header ≤ m.pagesize
  pub bound : m.pagesize < 2 ^ 32
  pub sound : Sound m.pagesize m.page
  pub covered : Covered m.page bs
  pub separate : Separate bs

Covered-mono :
    (ps qs : List Page) (bs : List Block)
    → ((a : ℕ) → used_at a ps ≤ used_at a qs)
    → Covered ps bs
    → Covered qs bs
Covered-mono ps qs [] le c = tt
Covered-mono ps qs (b ∷ bs) le (u, c) = (omega (arith, le b.base, u), Covered-mono ps qs bs le c)

-- A block where the page was used up to its start is apart from all the blocks.
start-ApartFrom :
    (ps : List Page) (a : Block) (bs : List Block)
    → used_at a.base ps ≡ a.offset
    → Covered ps bs
    → ApartFrom a bs
start-ApartFrom ps a [] e c = tt
start-ApartFrom ps a (b ∷ bs) e (u, c) =
    (apart (Bool-cases (a.base == b.base)), start-ApartFrom ps a bs e c)
  where
    apart : ((a.base == b.base) ≡ true) ⊎ ((a.base == b.base) ≡ false) → Apart a b
    apart (inl y) =
        let s : a.base ≡ b.base = ground (arith, y) in
        inr (inr (omega (arith, u, e, ap (λ k. used_at k ps) s)))
    apart (inr n) = inl (ground (arith, n))

pub Taken-IsPager :
    (m : Pager) (size r : ℕ) (b : Place) (qs : List Page) (bs : List Block)
    → IsPager m bs
    → size ≤ r
    → Taken m.pagesize r m.page b qs
    → IsPager
        (record m { page = qs })
        (record { base = b.base; offset = b.offset; size = size } ∷ bs)
Taken-IsPager m size r b qs bs i le t = record {
  words = i.words;
  room = i.room;
  bound = i.bound;
  sound = t.sound;
  covered = (omega (arith, t.end), Covered-mono m.page qs bs more i.covered);
  separate = (
    start-ApartFrom m.page (record { base = b.base; offset = b.offset; size = size }) bs t.start
        i.covered,
    i.separate,
  );
}
  where
    more : (a : ℕ) → used_at a m.page ≤ used_at a qs
    more a = elim (Bool-cases (a == b.base)) [
      | inl y ↦
          let s : a ≡ b.base = ground (arith, y) in
          let p = ap (λ k. used_at k m.page) s in
          let q = ap (λ k. used_at k qs) s in omega (arith, t.start, t.end, p, q)
      | inr n ↦ omega (arith, t.others a n)
    ]

pub new-IsPager :
    (m : Pager) (a : ℕ) (bs : List Block)
    → IsPager m bs
    → a % word ≡ 0
    → listed a m.page ≡ false
    → IsPager (record m { count = (m.count + 1) % 2 ^ 32; page = new_page a ∷ m.page }) bs
new-IsPager m a bs i w f =
    let u : (new_page a).used ≡ header = ground (arith, w) in
    record {
      words = i.words;
      room = i.room;
      bound = i.bound;
      sound = (omega (arith, u), omega (arith, u, i.room), rw u refl, f, i.sound);
      covered =
          Covered-mono m.page (new_page a ∷ m.page) bs
            (λ k. ground (arith, used_at-absent k m.page, f, ap (λ c. listed c m.page))) i.covered;
      separate = i.separate;
    }

-- Of a memalloc whose page size is a multiple of 8 below 2 ^ 32, whose pages hold their header and
-- whole words, and whose blocks lie in what is used of them and do not overlap, `_alloc` of a size
-- that fits in a page, with a limit that is not reached and memory that is given for a page at a
-- new address that is a multiple of 8, gives a block at a multiple of 8, behind the header and
-- within the page, and all this holds of the memalloc and its blocks again, the new one included.
pub alloc-IsPager :
    (m : Pager) (a size : ℕ) (bs : List Block)
    → IsPager m bs
    → a % word ≡ 0
    → listed a m.page ≡ false
    → (m.limit ≡ 0) ⊎ (m.count < m.limit)
    → header + size ≤ m.pagesize
    → (b : Place) × (m' : Pager) × (alloc m (some a) size ≡ some (b, m'))
      × IsPager m' (record { base = b.base; offset = b.offset; size = size } ∷ bs)
      × (header ≤ b.offset)
      × (b.offset + size ≤ m.pagesize)
      × (b.offset % word ≡ 0)
unfolding alloc pager
alloc-IsPager m a size bs i w f c fits =
    let (rw8, le, lt) = rounded-lem size in
    let small : ltb (minus m.pagesize header) size ≡ false = ground (arith, i.bound) in
    elim (place-Taken m.pagesize (rounded 7 size) m.page i.bound rw8 i.sound) [
      | inr (b, qs, e, t) ↦ (
        b,
        record m { page = qs },
        rw (small, e) refl,
        Taken-IsPager m size (rounded 7 size) b qs bs i le t,
        t.past_header,
        omega (arith, t.in_page),
        t.aligned,
      )
      | inl e ↦
          let r : ℕ = rounded 7 size in
          let n : Pager = record m { count = (m.count + 1) % 2 ^ 32; page = new_page a ∷ m.page } in
          let j : IsPager n bs = new-IsPager m a bs i w f in
          let used : (new_page a).used ≡ header = ground (arith, w) in
          let full : (not (m.limit == 0) && leb m.limit m.count) ≡ false = ground (arith, c) in
          let t =
            grow-Taken m.pagesize r (new_page a) m.page i.bound rw8 j.sound
              (omega (arith, used, i.words)) in
          (
            record { base = a; offset = (new_page a).used },
            record n { page = grow (new_page a) r ∷ m.page },
            rw (small, e, full) refl,
            Taken-IsPager n size r (record { base = a; offset = (new_page a).used })
                (grow (new_page a) r ∷ m.page) bs j le t,
            t.past_header,
            omega (arith, t.in_page),
            t.aligned,
          )
    ]

-- With a page size from 32 on, not above that of the system, that is not a multiple of 8, the
-- largest block that `_alloc` takes fills a new page past its end, and the next block of any size
-- that it takes is placed behind the end of that page.
pub alloc-past_end :
    (paging ps a size : ℕ)
    → 2 * header ≤ ps
    → ps ≤ paging
    → paging < 2 ^ 31
    → (ps % word ≡ 0 → ⊥)
    → a % word ≡ 0
    → 1 ≤ size
    → header + size ≤ ps
    → (b : Place) × (m : Pager) × (c : Place) × (m' : Pager) × (alloc
          (memalloc paging ps)
          (some a)
          (ps - header)
        ≡ some (b, m))
      × (alloc m none size ≡ some (c, m'))
      × (ps < c.offset)
unfolding alloc pager memalloc place
alloc-past_end paging ps a size l le bound odd w one fits =
    let r : ℕ = rounded 7 (ps - header) in
    let (rm, rle, rlt) = rounded-lem (ps - header) in
    let past : ps < header + r = omega (arith, odd) in
    let z : (ps == 0) ≡ false = ground arith in
    let y : ltb paging ps ≡ false = ground arith in
    let fit1 : ltb (minus ps header) (ps - header) ≡ false = ground arith in
    let u : (new_page a).used ≡ header = ground (arith, w) in
    let g : (header + r % 2 ^ 32) % 2 ^ 32 ≡ header + r = omega arith in
    let p : Page = record { addr = a; used = header + r } in
    let m : Pager = record {
      pagesize = ps;
      align = if leb paging ps then word else 0;
      count = 1;
      limit = 0;
      page = p ∷ [];
    } in
    let (sm, sle, slt) = rounded-lem size in
    let fit2 : ltb (minus ps header) size ≡ false = ground arith in
    let found : leb (rounded 7 size) (minus ps (header + r)) ≡ true = ground (arith, past) in
    (
      record { base = a; offset = header },
      m,
      record { base = a; offset = header + r },
      record m { page = grow p (rounded 7 size) ∷ [] },
      rw (z, y, fit1, u, g) refl,
      rw (fit2, found) refl,
      past,
    )

-- A new memalloc has handed out nothing: its pages are those of the system or hold whole words.
pub memalloc-IsPager :
    (paging ps : ℕ)
    → paging % word ≡ 0
    → header ≤ paging
    → paging < 2 ^ 32
    → ps ≤ paging
    → ps % word ≡ 0
    → (ps ≡ 0) ⊎ (header ≤ ps)
    → IsPager (memalloc paging ps) []
unfolding memalloc
memalloc-IsPager paging ps w h b le m c = record {
  words = ground (arith, w, m);
  room = ground (arith, h, c);
  bound = ground (arith, b);
  sound = tt;
  covered = tt;
  separate = tt;
}
