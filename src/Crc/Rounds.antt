-- ===== src/Crc/Rounds.antt =====
-- Rounds that give no number twice.
use Prim.Native.Nat.{bit_and, bit_xor}
use commoncpp.Common.{
  ℕ, zero, suc, ◌*◌, ◌/◌, ◌%◌, ◌≤◌, ◌<◌, ◌≡◌, refl, sym, ◌∙◌, arith, ◌==◌, ◌⊎◌, inl, inr,
  Bool-cases, true, false, ltb,
}
use commoncpp.Common.Bits.{bit_and-low, bit_and-high, shift, bit_and_bit}
use commoncpp.Common.Xor.{
  xor_bits, xor-bits, xor_bits-below, xor_bits-odd, xor_bits-top, xor_bits-both, xor_bits-cancel,
}
use commoncpp.Crc.{rounds, round24, round16}

-- A round that keeps numbers below a bound, and gives no number twice.
pub record IsReversible (bound : ℕ) (round : ℕ → ℕ) : Type 0 where
  pub stays : (c : ℕ) → c < bound → round c < bound
  pub cancels : (c d : ℕ) → c < bound → d < bound → round c ≡ round d → c ≡ d

pub rounds-IsReversible :
    (bound : ℕ) (round : ℕ → ℕ) (i : ℕ)
    → IsReversible bound round
    → IsReversible bound (rounds round i)
unfolding rounds
rounds-IsReversible bound round zero r = record { stays = λ c l. l; cancels = λ c d l m e. e }
rounds-IsReversible bound round (suc i) r =
    let s = rounds-IsReversible bound round i r in
    record {
      stays = λ c l. s.stays (round c) (r.stays c l);
      cancels = λ c d l m e.
          r.cancels c d l m (s.cancels (round c) (round d) (r.stays c l) (r.stays d m) e);
    }

pub xor-IsReversible : (k b : ℕ) → b < shift 1 k → IsReversible (shift 1 k) (λ c. bit_xor c b)
xor-IsReversible k b l = record {
  stays = λ c m. let e = xor-bits k c b m l in let f = xor_bits-below k c b in rw e f;
  cancels = λ c d m n e.
      xor_bits-cancel k c d b m n (sym (xor-bits k c b m l) ∙ (e ∙ xor-bits k d b n l));
}

-- Both branches of a round.
abbrev Cases16 : ℕ → Type 0
Cases16 c =
    ((c % 2 ≡ 0) × (round16 c ≡ c / 2))
    ⊎ ((c % 2 ≡ 1)
        × (round16 c ≡ xor_bits 16 (c / 2) 0xa001)
        × (0x8000 ≤ round16 c)
        × (round16 c < 0x10000))

round16-cases : (c : ℕ) → c < 0x10000 → Cases16 c
unfolding round16
round16-cases c l =
    let e : bit_and c 1 ≡ c % 2 = bit_and_bit 0 c 1 refl in
    let x = xor-bits 16 (c / 2) 0xa001 (omega arith) (omega arith) in
    let t = xor_bits-top 15 (c / 2) 0xa001 (omega arith) (omega arith) (omega arith) in
    let b = xor_bits-below 16 (c / 2) 0xa001 in
    elim (Bool-cases (bit_and c 1 == 0)) [
      | inl z ↦ inl (ground (arith, z, e), rw z refl)
      | inr z ↦ rw (z, x) (inr (ground (arith, z, e), refl, t, b))
    ]

pub round16-IsReversible : IsReversible 0x10000 round16
round16-IsReversible = record {
  stays = λ c l. elim (round16-cases c l) [ inl (p, e) ↦ omega (arith, e) | inr (p, e, t, b) ↦ b ];
  cancels = λ c d l m e. both c d l m e (round16-cases c l) (round16-cases d m);
}
  where
    both :
        (c d : ℕ)
        → c < 0x10000
        → d < 0x10000
        → round16 c ≡ round16 d
        → Cases16 c
        → Cases16 d
        → c ≡ d
    both c d l m e (inl (p, f)) (inl (q, g)) = omega arith
    both c d l m e (inl (p, f)) (inr (q, g, t, b)) = absurd (omega arith)
    both c d l m e (inr (p, f, t, b)) (inl (q, g)) = absurd (omega arith)
    both c d l m e (inr (p, f, t, b)) (inr (q, g, u, h)) =
        let half =
          xor_bits-cancel 16 (c / 2) (d / 2) 0xa001 (omega arith) (omega arith) (sym f ∙ (e ∙ g)) in
        omega (arith, half)

below_or : (a b : ℕ) → (a < b) ⊎ (b ≤ a)
below_or a b = elim (Bool-cases (ltb a b)) [
  | inl e ↦ inl (ground (arith, e))
  | inr e ↦ inr (ground (arith, e))
]

abbrev Cases24 : ℕ → Type 0
Cases24 c =
    ((round24 c ≡ c * 2) × (c * 2 < 0x1000000))
    ⊎ ((round24 c ≡ xor_bits 25 (c * 2) 0x1864cfb) × (round24 c % 2 ≡ 1) × (round24 c < 0x1000000))

round24-cases : (c : ℕ) → c < 0x1000000 → Cases24 c
unfolding round24
round24-cases c l =
    let w : c * 2 % 0x100000000 ≡ c * 2 = omega arith in
    let x = xor-bits 25 (c * 2) 0x1864cfb (omega arith) (omega arith) in
    let o : xor_bits 25 (c * 2) 0x1864cfb % 2 ≡ 1 =
      xor_bits-odd 24 (c * 2) 0x1864cfb ∙ omega arith in
    elim (below_or (c * 2) 0x1000000) [
      | inl h ↦
          let z : (bit_and (c * 2) 0x1000000 == 0) ≡ true =
            bit_and-low 24 0x1000000 (c * 2) refl h in
          rw (w, z) (inl (refl, h))
      | inr h ↦
          let z : (bit_and (c * 2) 0x1000000 == 0) ≡ false =
            bit_and-high 24 0x1000000 (c * 2) refl (omega arith) h (omega arith) in
          let b = xor_bits-both 24 (c * 2) 0x1864cfb h (omega arith) (omega arith) (omega arith) in
          rw (w, z, x) (inr (refl, o, b))
    ]

pub round24-IsReversible : IsReversible 0x1000000 round24
round24-IsReversible = record {
  stays = λ c l. elim (round24-cases c l) [ inl (e, b) ↦ omega (arith, e, b) | inr (e, o, b) ↦ b ];
  cancels = λ c d l m e. both c d l m e (round24-cases c l) (round24-cases d m);
}
  where
    both :
        (c d : ℕ)
        → c < 0x1000000
        → d < 0x1000000
        → round24 c ≡ round24 d
        → Cases24 c
        → Cases24 d
        → c ≡ d
    both c d l m e (inl (f, b)) (inl (g, h)) = omega arith
    both c d l m e (inl (f, b)) (inr (g, o, h)) = absurd (omega arith)
    both c d l m e (inr (f, o, b)) (inl (g, h)) = absurd (omega arith)
    both c d l m e (inr (f, o, b)) (inr (g, u, h)) =
        let twice =
          xor_bits-cancel 25 (c * 2) (d * 2) 0x1864cfb (omega arith) (omega arith)
            (sym f ∙ (e ∙ g)) in
        omega (arith, twice)
