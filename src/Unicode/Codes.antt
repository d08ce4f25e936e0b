-- ===== src/Unicode/Codes.antt =====
-- `put`, then `get`, `codepoint` or `size`, at the code that was put.
use commoncpp.Common.{
  ℕ, suc, ◌+◌, ◌-◌, ◌/◌, ◌^◌, ◌≤◌, ◌<◌, ◌≡◌, ◌≢◌, refl, sym, ap, ◌∙◌, arith, true, false, [], ◌∷◌,
  ◌++◌, some, ◌==◌, if◌then◌else◌, ltb, leb, length, ◌⊎◌, inl, inr, ◌↔◌, Bool-cases,
}
use commoncpp.Unicode.{
  Text, first, follow, get, size_of_byte, size, join, codepoint, chars, tail_byte, lead_byte, put,
}
use commoncpp.Unicode.Joins.{
  follow_one, follow_two, follow_three, follow_four, follow_five, join_one, join_two, join_three,
  join_four, join_five,
}
use commoncpp.Unicode.Bytes.{Lead, Lead-two, Lead-three, Lead-four, Lead-five, Lead-six}

-- What `get`, `size` and `codepoint` make of a code's bytes, whatever follows them.
pub record Reads (code : ℕ) (t s : Text) : Type 0 where
  pub gets : get (t ++ s) ≡ some code
  pub points : codepoint (t ++ s) ≡ some code
  pub sizes : size (t ++ s) ≡ length t
  pub begins : first (t ++ s) ≢ 0

module _ (mark k x : ℕ) (lead : Lead mark (suc k) x) (high : 0x80 ≤ mark) (t : Text) where
  get-lead : get ((mark + x) ∷ t) ≡ follow (suc k) t x
  unfolding get
  get-lead =
      let z : (mark + x == 0) ≡ false = ground arith in
      let l : ltb (mark + x) 0x80 ≡ false = ground arith in rw (z, l, lead.bits) refl

  codepoint-lead : codepoint ((mark + x) ∷ t) ≡ some (join (suc k) t x)
  unfolding codepoint
  codepoint-lead =
      let z : (mark + x == 0) ≡ false = ground arith in
      let e0 : (suc k + 1 == 0) ≡ false = ground arith in
      let e1 : (suc k + 1 == 1) ≡ false = ground arith in
      let back : suc k + 1 - 1 ≡ suc k = omega arith in
      rw (z, lead.sized, e0, e1, lead.head, back) refl

  Reads-lead :
      (code : ℕ) (u s : Text)
      → t ≡ u ++ s
      → follow (suc k) t x ≡ some code
      → join (suc k) t x ≡ code
      → length u ≡ suc k
      → Reads code (lead_byte x mark ∷ u) s
  Reads-lead code u s e f j n = record {
    gets = rw (lead.made, sym e) (get-lead ∙ f);
    points = rw (lead.made, sym e) (codepoint-lead ∙ ap some j);
    sizes = rw (lead.made, lead.sized, n) (omega arith);
    begins = rw lead.made (omega arith);
  }

-- The codes by the length of what `put` writes.
put_two : (c : ℕ) → 0x80 ≤ c → c < 0x7ff → put c ≡ lead_byte (c / 2 ^ 6) 0xc0 ∷ tail_byte c ∷ []
unfolding put
put_two c lo hi = ground arith

Reads-two : (c : ℕ) (s : Text) → 0x80 ≤ c → c < 0x7ff → Reads c (put c) s
Reads-two c s lo hi = rw (put_two c lo hi) (
    Reads-lead 192 0 (c / 2 ^ 6) (Lead-two (c / 2 ^ 6) (omega arith)) (omega arith)
      (tail_byte c ∷ s) c (tail_byte c ∷ []) s refl (follow_one c s) (join_one c s) refl)

put_three :
    (c : ℕ)
    → 0x7ff ≤ c
    → c ≤ 0xffff
    → put c ≡ lead_byte (c / 2 ^ 12) 0xe0 ∷ tail_byte (c / 2 ^ 6) ∷ tail_byte c ∷ []
unfolding put
put_three c lo hi = ground arith

Reads-three : (c : ℕ) (s : Text) → 0x7ff ≤ c → c ≤ 0xffff → Reads c (put c) s
Reads-three c s lo hi = rw (put_three c lo hi) (
    Reads-lead 224 1 (c / 2 ^ 12) (Lead-three (c / 2 ^ 12) (omega arith)) (omega arith)
      (tail_byte (c / 2 ^ 6) ∷ tail_byte c ∷ s) c (tail_byte (c / 2 ^ 6) ∷ tail_byte c ∷ []) s refl
      (follow_two c s) (join_two c s) refl)

put_four :
    (c : ℕ)
    → 0x10000 ≤ c
    → c ≤ 0x1fffff
    → put c
      ≡ lead_byte (c / 2 ^ 18) 0xf0
        ∷ tail_byte (c / 2 ^ 12)
        ∷ tail_byte (c / 2 ^ 6)
        ∷ tail_byte c
        ∷ []
unfolding put
put_four c lo hi = ground arith

Reads-four : (c : ℕ) (s : Text) → 0x10000 ≤ c → c ≤ 0x1fffff → Reads c (put c) s
Reads-four c s lo hi = rw (put_four c lo hi) (
    Reads-lead 240 2 (c / 2 ^ 18) (Lead-four (c / 2 ^ 18) (omega arith)) (omega arith)
      (tail_byte (c / 2 ^ 12) ∷ tail_byte (c / 2 ^ 6) ∷ tail_byte c ∷ s) c
      (tail_byte (c / 2 ^ 12) ∷ tail_byte (c / 2 ^ 6) ∷ tail_byte c ∷ []) s refl (follow_three c s)
      (join_three c s) refl)

put_five :
    (c : ℕ)
    → 0x200000 ≤ c
    → c ≤ 0x3ffffff
    → put c
      ≡ lead_byte (c / 2 ^ 24) 0xf8
        ∷ tail_byte (c / 2 ^ 18)
        ∷ tail_byte (c / 2 ^ 12)
        ∷ tail_byte (c / 2 ^ 6)
        ∷ tail_byte c
        ∷ []
unfolding put
put_five c lo hi = ground arith

Reads-five : (c : ℕ) (s : Text) → 0x200000 ≤ c → c ≤ 0x3ffffff → Reads c (put c) s
Reads-five c s lo hi = rw (put_five c lo hi) (
    Reads-lead 248 3 (c / 2 ^ 24) (Lead-five (c / 2 ^ 24) (omega arith)) (omega arith)
      (tail_byte (c / 2 ^ 18) ∷ tail_byte (c / 2 ^ 12) ∷ tail_byte (c / 2 ^ 6) ∷ tail_byte c ∷ s) c
      (tail_byte (c / 2 ^ 18) ∷ tail_byte (c / 2 ^ 12) ∷ tail_byte (c / 2 ^ 6) ∷ tail_byte c ∷ []) s
      refl (follow_four c s) (join_four c s) refl)

put_six :
    (c : ℕ)
    → 0x4000000 ≤ c
    → c < 2 ^ 31
    → put c
      ≡ lead_byte (c / 2 ^ 30) 0xfc
        ∷ tail_byte (c / 2 ^ 24)
        ∷ tail_byte (c / 2 ^ 18)
        ∷ tail_byte (c / 2 ^ 12)
        ∷ tail_byte (c / 2 ^ 6)
        ∷ tail_byte c
        ∷ []
unfolding put
put_six c lo hi = ground arith

Reads-six : (c : ℕ) (s : Text) → 0x4000000 ≤ c → c < 2 ^ 31 → Reads c (put c) s
Reads-six c s lo hi = rw (put_six c lo hi) (
    Reads-lead 252 4 (c / 2 ^ 30) (Lead-six (c / 2 ^ 30) (omega arith)) (omega arith)
      (tail_byte (c / 2 ^ 24)
        ∷ tail_byte (c / 2 ^ 18)
        ∷ tail_byte (c / 2 ^ 12)
        ∷ tail_byte (c / 2 ^ 6)
        ∷ tail_byte c
        ∷ s)
      c
      (tail_byte (c / 2 ^ 24)
        ∷ tail_byte (c / 2 ^ 18)
        ∷ tail_byte (c / 2 ^ 12)
        ∷ tail_byte (c / 2 ^ 6)
        ∷ tail_byte c
        ∷ [])
      s refl (follow_five c s) (join_five c s) refl)

Reads-one : (c : ℕ) (s : Text) → 0 < c → c < 0x80 → Reads c (put c) s
unfolding put get codepoint size_of_byte
Reads-one c s lo hi =
    let z : (c == 0) ≡ false = ground arith in
    let l : ltb c 0x80 ≡ true = ground arith in
    rw l (record {
      gets = rw (z, l) refl;
      points = rw (z, l) refl;
      sizes = rw l refl;
      begins = λ e. omega arith;
    })

below_or : (a b : ℕ) → (a < b) ⊎ (b ≤ a)
below_or a b = elim (Bool-cases (ltb a b)) [
  | inl e ↦ inl (ground (arith, e))
  | inr e ↦ inr (ground (arith, e))
]

-- For every code from 1 to 2 ^ 31 - 1 and whatever follows its bytes, `get` and `codepoint` read
-- the code back from what `put` writes, `size` is the number of those bytes, and the first of them
-- is no terminator.
pub put-Reads : (c : ℕ) (s : Text) → 0 < c → c < 2 ^ 31 → Reads c (put c) s
put-Reads c s lo hi = elim (below_or c 0x80) [
  | inl h ↦ Reads-one c s lo h
  | inr h ↦ elim (below_or c 0x7ff) [
    | inl k ↦ Reads-two c s h k
    | inr k ↦ elim (below_or c 0x10000) [
      | inl m ↦ Reads-three c s k (omega arith)
      | inr m ↦ elim (below_or c 0x200000) [
        | inl n ↦ Reads-four c s m (omega arith)
        | inr n ↦ elim (below_or c 0x4000000) [
          | inl o ↦ Reads-five c s n (omega arith)
          | inr o ↦ Reads-six c s o hi
        ]
      ]
    ]
  ]
]

written :
    (c : ℕ)
    → length (put c) ≡ (
        if ltb c 0x80
        then 1
        else if ltb c 0x7ff
        then 2
        else if leb c 0xffff
        then 3
        else if leb c 0x1fffff
        then 4
        else if leb c 0x3ffffff
        then 5
        else 6)
unfolding put
written c = ground arith

pub length-put_pos : (c : ℕ) → 0 < length (put c)
length-put_pos c = rw (written c) (ground arith)

-- `chars` is the number of bytes that `put` writes for every code but 0x80 and 0x7ff, for which
-- `put` writes one byte more.
pub length-put :
    (c : ℕ)
    → ((length (put c) ≡ chars c) ↔ ((c ≢ 0x80) × (c ≢ 0x7ff)))
      × ((c ≡ 0x80) ⊎ (c ≡ 0x7ff) → length (put c) ≡ chars c + 1)
unfolding chars
length-put c = rw (written c) (ground arith, ground arith)
