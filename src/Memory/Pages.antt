-- ===== src/Memory/Pages.antt =====
-- The pages of a memalloc, and what taking memory in one of them changes.
use commoncpp.Common.{
  ℕ, zero, suc, ◌+◌, ◌-◌, ◌*◌, ◌%◌, ◌^◌, ◌≤◌, ◌<◌, ◌≡◌, ◌≢◌, ◌⊎◌, inl, inr, refl, ap, ◌∙◌, arith,
  Bool, true, false, ◌||◌, List, [], ◌∷◌, none, some, leb, ◌==◌, if◌then◌else◌, Bool-cases,
}
use commoncpp.Memory.{word, header, Page, Place, rounded, minus, grow, place}

abbrev pub listed : ℕ → List Page → Bool
listed a [] = false
listed a (p ∷ ps) = (p.addr == a) || listed a ps

-- What is used of the page at an address.
abbrev pub used_at : ℕ → List Page → ℕ
used_at a [] = 0
used_at a (p ∷ ps) = if p.addr == a then p.used else used_at a ps

-- Each page has its header, whole words and no more than its size, and no address is there twice.
abbrev pub Sound : ℕ → List Page → Type 0
Sound size [] = Unit {0}
Sound size (p ∷ ps) =
    (header ≤ p.used)
    × (p.used ≤ size)
    × (p.used % word ≡ 0)
    × (listed p.addr ps ≡ false)
    × Sound size ps

pub used_at-absent : (a : ℕ) (ps : List Page) → listed a ps ≡ false → used_at a ps ≡ 0
used_at-absent a [] f = refl
used_at-absent a (p ∷ ps) f = ground (arith, used_at-absent a ps)

rounded_by :
    (fuel k size : ℕ)
    → k ≤ fuel
    → (size + k) % word ≡ 0
    → k < word
    → (rounded fuel size % word ≡ 0) × (size ≤ rounded fuel size) × (rounded fuel size ≤ size + k)
unfolding rounded
rounded_by zero k size l e w = (omega arith, omega arith, omega arith)
rounded_by (suc fuel) k size l e w = elim (Bool-cases (size % word == 0)) [
  | inl y ↦ rw y (ground (arith, y), omega arith, omega arith)
  | inr n ↦
      let k0 : k ≢ 0 = λ z. ground (arith, n, e, z) in
      let (a, b, c) =
        rounded_by fuel (k - 1) (size + 1) (omega arith) (omega arith) (omega arith) in
      rw n (a, omega arith, omega arith)
]

pub rounded-lem :
    (size : ℕ)
    → (rounded 7 size % word ≡ 0) × (size ≤ rounded 7 size) × (rounded 7 size < size + word)
rounded-lem size =
    let (a, b, c) = rounded_by 7 ((7 * size) % 8) size (omega arith) (omega arith) (omega arith) in
    (a, b, omega arith)

-- Memory of `size` bytes at b, before which the page was used up to it.
pub record Taken (pagesize size : ℕ) (ps : List Page) (b : Place) (qs : List Page) : Type 0 where
  pub sound : Sound pagesize qs
  pub start : used_at b.base ps ≡ b.offset
  pub end : used_at b.base qs ≡ b.offset + size
  pub others : (a : ℕ) → (a == b.base) ≡ false → used_at a qs ≡ used_at a ps
  pub same_pages : (a : ℕ) → listed a qs ≡ listed a ps
  pub inside : listed b.base ps ≡ true
  pub past_header : header ≤ b.offset
  pub in_page : b.offset + size ≤ pagesize
  pub aligned : b.offset % word ≡ 0

pub grow-Taken :
    (pagesize size : ℕ) (p : Page) (ps : List Page)
    → pagesize < 2 ^ 32
    → size % word ≡ 0
    → Sound pagesize (p ∷ ps)
    → p.used + size ≤ pagesize
    → Taken pagesize size (p ∷ ps) (record { base = p.addr; offset = p.used }) (grow p size ∷ ps)
grow-Taken pagesize size p ps w m (h, u, a, o, s) r =
    let g : (p.used + size % 2 ^ 32) % 2 ^ 32 ≡ p.used + size = omega arith in
    record {
      sound = (omega arith, omega arith, omega arith, o, s);
      start = ground arith;
      end = ground (arith, g);
      others = λ b n. ground (arith, n);
      same_pages = λ b. refl;
      inside = ground arith;
      past_header = h;
      in_page = r;
      aligned = a;
    }

pub place-Taken :
    (pagesize size : ℕ) (ps : List Page)
    → pagesize < 2 ^ 32
    → size % word ≡ 0
    → Sound pagesize ps
    → (place pagesize size ps ≡ none)
      ⊎ ((b : Place) × (qs : List Page) × (place pagesize size ps ≡ some (b, qs))
          × Taken pagesize size ps b qs)
unfolding place
place-Taken pagesize size [] w m s = inl refl
place-Taken pagesize size (p ∷ ps) w m (h, u, a, o, s) =
    elim (Bool-cases (leb size (minus pagesize p.used))) [
      | inl y ↦
          let r : p.used + size ≤ pagesize = ground (arith, y) in
          rw y (
            inr (
              record { base = p.addr; offset = p.used },
              grow p size ∷ ps,
              refl,
              grow-Taken pagesize size p ps w m (h, u, a, o, s) r,
            ))
      | inr n ↦ rw n (elim (place-Taken pagesize size ps w m s) [
        | inl e ↦ inl (rw e refl)
        | inr (b, qs, e, t) ↦ inr (b, p ∷ qs, rw e refl, behind b qs t)
      ])
    ]
  where
    behind :
        (b : Place) (qs : List Page)
        → Taken pagesize size ps b qs
        → Taken pagesize size (p ∷ ps) b (p ∷ qs)
    behind b qs t =
        let n : (p.addr == b.base) ≡ false = ground (arith, t.inside, o, ap (λ c. listed c ps)) in
        record {
          sound = (h, u, a, t.same_pages p.addr ∙ o, t.sound);
          start = ground (arith, n, t.start);
          end = ground (arith, n, t.end);
          others = λ c k. ground (arith, t.others c k);
          same_pages = λ c. ground (arith, t.same_pages c);
          inside = ground (arith, t.inside);
          past_header = t.past_header;
          in_page = t.in_page;
          aligned = t.aligned;
        }
