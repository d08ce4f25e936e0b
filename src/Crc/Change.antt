-- ===== src/Crc/Change.antt =====
-- The checks find every change of one byte.
use Prim.Native.Nat.{bit_xor}
use commoncpp.Common.{ℕ, ◌*◌, ◌<◌, ◌≡◌, ◌≢◌, refl, sym, ◌∙◌, arith, List, [], ◌∷◌, ◌++◌}
use commoncpp.Common.Bits.{shift}
use commoncpp.Common.Xor.{xor-bits, xor_bits_comm, xor_bits-cancel}
use commoncpp.Hex.Trips.{AreBytes}
use commoncpp.Crc.Rounds.{
  IsReversible, rounds-IsReversible, xor-IsReversible, round16-IsReversible, round24-IsReversible,
}
use commoncpp.Crc.{rounds, round24, crc24_from, crc24, round16, crc16_from, crc16}

-- A check that takes one byte after the other into a number.
pub record IsCheck (k : ℕ) (place : ℕ → ℕ) (round : ℕ → ℕ) (check : List ℕ → ℕ → ℕ) : Type 0 where
  pub reversible : IsReversible (shift 1 k) round
  pub placed : (b : ℕ) → b < 256 → place b < shift 1 k
  pub apart : (b c : ℕ) → place b ≡ place c → b ≡ c
  pub ends : (c : ℕ) → check [] c ≡ c
  pub steps :
      (b c : ℕ) (bs : List ℕ) → check (b ∷ bs) c ≡ check bs (rounds round 8 (bit_xor c (place b)))

module _ {k : ℕ} {place : ℕ → ℕ} {round : ℕ → ℕ} {check : List ℕ → ℕ → ℕ}
    (i : IsCheck k place round check) where
  step-IsReversible :
      (b : ℕ) → b < 256 → IsReversible (shift 1 k) (λ c. rounds round 8 (bit_xor c (place b)))
  step-IsReversible b l =
      let x = xor-IsReversible k (place b) (i.placed b l) in
      let r = rounds-IsReversible (shift 1 k) round 8 i.reversible in
      record {
        stays = λ c m. r.stays (bit_xor c (place b)) (x.stays c m);
        cancels = λ c d m n e.
            x.cancels c d m n
              (r.cancels (bit_xor c (place b)) (bit_xor d (place b)) (x.stays c m) (x.stays d n) e);
      }

  check-cancels :
      (bs : List ℕ) (c d : ℕ)
      → AreBytes bs
      → c < shift 1 k
      → d < shift 1 k
      → check bs c ≡ check bs d
      → c ≡ d
  check-cancels [] c d v l m e = sym (i.ends c) ∙ (e ∙ i.ends d)
  check-cancels (b ∷ bs) c d (h, v) l m e =
      let s = step-IsReversible b h in
      s.cancels c d l m (
        check-cancels bs (rounds round 8 (bit_xor c (place b)))
          (rounds round 8 (bit_xor d (place b))) v (s.stays c l) (s.stays d m)
          (sym (i.steps b c bs) ∙ (e ∙ i.steps b d bs)))

  check-below : (bs : List ℕ) (c : ℕ) → AreBytes bs → c < shift 1 k → check bs c < shift 1 k
  check-below [] c v l = let e = i.ends c in rw e l
  check-below (b ∷ bs) c (h, v) l =
      let e = i.steps b c bs in
      rw e (
        check-below bs (rounds round 8 (bit_xor c (place b))) v ((step-IsReversible b h).stays c l))

  byte-cancels :
      (b d c : ℕ) (ys : List ℕ)
      → b < 256
      → d < 256
      → c < shift 1 k
      → AreBytes ys
      → check (b ∷ ys) c ≡ check (d ∷ ys) c
      → b ≡ d
  byte-cancels b d c ys l m n v e =
      let r = rounds-IsReversible (shift 1 k) round 8 i.reversible in
      let p = i.placed b l in
      let q = i.placed d m in
      let s = step-IsReversible b l in
      let t = step-IsReversible d m in
      let same =
        check-cancels ys (rounds round 8 (bit_xor c (place b)))
          (rounds round 8 (bit_xor c (place d))) v (s.stays c n) (t.stays c n)
          (sym (i.steps b c ys) ∙ (e ∙ i.steps d c ys)) in
      let mixed =
        r.cancels (bit_xor c (place b)) (bit_xor c (place d))
          ((xor-IsReversible k (place b) p).stays c n) ((xor-IsReversible k (place d) q).stays c n)
          same in
      let swapped =
        xor_bits_comm k (place b) c
        ∙ (sym (xor-bits k c (place b) n p)
            ∙ (mixed ∙ (xor-bits k c (place d) n q ∙ xor_bits_comm k c (place d)))) in
      i.apart b d (xor_bits-cancel k (place b) (place d) c p q swapped)

  check-change :
      (xs ys : List ℕ) (b d c : ℕ)
      → AreBytes (xs ++ (b ∷ ys))
      → d < 256
      → c < shift 1 k
      → check (xs ++ (b ∷ ys)) c ≡ check (xs ++ (d ∷ ys)) c
      → b ≡ d
  check-change [] ys b d c (l, v) m n e = byte-cancels b d c ys l m n v e
  check-change (x ∷ xs) ys b d c (l, v) m n e =
      check-change xs ys b d (rounds round 8 (bit_xor c (place x))) v m
        ((step-IsReversible x l).stays c n)
        (sym (i.steps x c (xs ++ (b ∷ ys))) ∙ (e ∙ i.steps x c (xs ++ (d ∷ ys))))

crc16-IsCheck : IsCheck 16 (λ b. b) round16 crc16_from
unfolding crc16_from
crc16-IsCheck = record {
  reversible = round16-IsReversible;
  placed = λ b l. omega arith;
  apart = λ b c e. e;
  ends = λ c. refl;
  steps = λ b c bs. refl;
}

crc24-IsCheck : IsCheck 24 (λ b. b * 0x10000) round24 crc24_from
unfolding crc24_from
crc24-IsCheck = record {
  reversible = round24-IsReversible;
  placed = λ b l. omega arith;
  apart = λ b c e. omega arith;
  ends = λ c. refl;
  steps = λ b c bs. refl;
}

AreBytes-other :
    (xs ys : List ℕ) (b d : ℕ) → AreBytes (xs ++ (b ∷ ys)) → d < 256 → AreBytes (xs ++ (d ∷ ys))
AreBytes-other [] ys b d (l, v) m = (m, v)
AreBytes-other (x ∷ xs) ys b d (l, v) m = (l, AreBytes-other xs ys b d v m)

-- `crc16` and `crc24` find every change of one byte: two texts of bytes that differ at one place
-- have different checks.
pub crc16-change :
    (xs ys : List ℕ) (b d : ℕ)
    → AreBytes (xs ++ (b ∷ ys))
    → d < 256
    → b ≢ d
    → (crc16 (xs ++ (b ∷ ys)) ≢ crc16 (xs ++ (d ∷ ys)))
      × (crc24 (xs ++ (b ∷ ys)) ≢ crc24 (xs ++ (d ∷ ys)))
unfolding crc16 crc24
crc16-change xs ys b d v m n =
    let w = AreBytes-other xs ys b d v m in
    let p = check-below crc24-IsCheck (xs ++ (b ∷ ys)) 0xb704ce v (omega arith) in
    let q = check-below crc24-IsCheck (xs ++ (d ∷ ys)) 0xb704ce w (omega arith) in
    (
      λ e. n (check-change crc16-IsCheck xs ys b d 0xffff v m (omega arith) e),
      λ e. n (
          check-change crc24-IsCheck xs ys b d 0xb704ce v m (omega arith) (omega (arith, e, p, q))),
    )
