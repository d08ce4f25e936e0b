-- ===== src/Common/Bits.antt =====
-- The bit operations of C on bytes and on codes that are put together from six bits at a time.
use Prim.Native.Nat.{
  ℕ, zero, suc, ◌+◌, ◌*◌, ◌/◌, ◌%◌, ◌≤◌, ◌<◌, min, max, bit_and, bit_or, digits, bit_and-bitwise,
  bit_or-bitwise,
}
use mathlib.Core.Path.{◌≡◌, refl, sym, ◌∙◌}
use mathlib.Core.Bool.{Bool, true, false, ◌&&◌}
use native.Mathlib.Omega.{arith}
use commoncpp.Common.Tests.{◌==◌}

-- A test at every number below n.
unfoldable pub everywhere : ℕ → (ℕ → Bool) → Bool
everywhere zero test = true
everywhere (suc n) test = everywhere n test && test n

pub everywhere-below :
    (n : ℕ) (test : ℕ → Bool) (x : ℕ) → everywhere n test ≡ true → x < n → test x ≡ true
unfolding everywhere
everywhere-below zero test x h lt = absurd (omega arith)
everywhere-below (suc n) test x h lt = ground (arith, everywhere-below n test x)

-- `a << k`, the k lowest bits of a number, and the mask of them.
abbrev pub shift : ℕ → ℕ → ℕ
shift a zero = a
shift a (suc k) = shift a k * 2

abbrev lowest : ℕ → ℕ → ℕ
lowest a zero = 0
lowest a (suc k) = lowest (a / 2) k * 2 + a % 2

abbrev ones : ℕ → ℕ
ones zero = 0
ones (suc k) = ones k * 2 + 1

or-nothing : (fuel a : ℕ) → a ≤ fuel → digits (λ b. b) max fuel a 0 ≡ a
or-nothing zero zero h = refl
or-nothing zero (suc a) h = absurd (omega arith)
or-nothing (suc n) zero h = refl
or-nothing (suc n) (suc a) h = omega (arith, or-nothing n (suc a / 2) (omega arith))

or-shift :
    (k fuel a b c : ℕ)
    → c ≡ shift a k
    → b < shift 1 k
    → c ≤ fuel
    → digits (λ b. b) max fuel c b ≡ c + b
or-shift zero fuel a zero c e hb h = omega (arith, or-nothing fuel c h)
or-shift zero fuel a (suc b) c e hb h = absurd (omega arith)
or-shift (suc k) zero a b zero e hb h = omega arith
or-shift (suc k) zero a b (suc c) e hb h = absurd (omega arith)
or-shift (suc k) (suc n) a b zero e hb h = omega arith
or-shift (suc k) (suc n) a b (suc c) e hb h =
    omega (arith, or-shift k n a (b / 2) (suc c / 2) (omega arith) (omega arith) (omega arith))

lowest-zero : (k : ℕ) → lowest 0 k ≡ 0
lowest-zero zero = refl
lowest-zero (suc k) = omega (arith, lowest-zero k)

and-nothing : (fuel a : ℕ) → digits (λ b. 0) min fuel a 0 ≡ 0
and-nothing zero a = refl
and-nothing (suc n) zero = refl
and-nothing (suc n) (suc a) = omega (arith, and-nothing n (suc a / 2))

and-ones : (k fuel a : ℕ) → a ≤ fuel → digits (λ b. 0) min fuel a (ones k) ≡ lowest a k
and-ones zero fuel a h = and-nothing fuel a
and-ones (suc k) zero zero h = sym (lowest-zero (suc k))
and-ones (suc k) zero (suc a) h = absurd (omega arith)
and-ones (suc k) (suc n) zero h = sym (lowest-zero (suc k))
and-ones (suc k) (suc n) (suc a) h =
    let half : (ones k * 2 + 1) / 2 ≡ ones k = omega arith in
    rw half (omega (arith, and-ones k n (suc a / 2) (omega arith)))

-- `(a << 6) | b` for six bits b, and `a & 0x3f`.
pub bit_or_six : (a b : ℕ) → b < 64 → bit_or (a * 64) b ≡ a * 64 + b
bit_or_six a b h =
    bit_or-bitwise (a * 64) b ∙ or-shift 6 (a * 64) a b (a * 64) (omega arith) h (omega arith)

pub bit_and_six : (a : ℕ) → bit_and a 0x3f ≡ a % 64
bit_and_six a = bit_and-bitwise a 63 ∙ (and-ones 6 a a (omega arith) ∙ omega arith)

-- `(a << k) | b` for k bits b, where c is the number shifted.
pub bit_or-shift : (k a b c : ℕ) → c ≡ shift a k → b < shift 1 k → bit_or c b ≡ c + b
bit_or-shift k a b c e h = bit_or-bitwise c b ∙ or-shift k c a b c e h (omega arith)

-- The bit k of a number, by itself.
abbrev pub bit_at : ℕ → ℕ → ℕ
bit_at a zero = a % 2
bit_at a (suc k) = bit_at (a / 2) k * 2

bit_at-zero : (k : ℕ) → bit_at 0 k ≡ 0
bit_at-zero zero = refl
bit_at-zero (suc k) = omega (arith, bit_at-zero k)

and-bit : (k fuel a : ℕ) → a ≤ fuel → digits (λ b. 0) min fuel a (shift 1 k) ≡ bit_at a k
and-bit zero zero zero h = refl
and-bit zero zero (suc a) h = absurd (omega arith)
and-bit zero (suc n) zero h = refl
and-bit zero (suc n) (suc a) h = omega (arith, and-nothing n (suc a / 2))
and-bit (suc k) zero zero h = sym (bit_at-zero (suc k))
and-bit (suc k) zero (suc a) h = absurd (omega arith)
and-bit (suc k) (suc n) zero h = sym (bit_at-zero (suc k))
and-bit (suc k) (suc n) (suc a) h =
    let half : shift 1 k * 2 / 2 ≡ shift 1 k = omega arith in
    rw half (omega (arith, and-bit k n (suc a / 2) (omega arith)))

-- `a & c` for a c with one bit.
pub bit_and_bit : (k a c : ℕ) → c ≡ shift 1 k → bit_and a c ≡ bit_at a k
bit_and_bit k a c e = rw e (bit_and-bitwise a (shift 1 k) ∙ and-bit k a a (omega arith))

pub bit_at-below : (k a : ℕ) → a < shift 1 k → bit_at a k ≡ 0
bit_at-below zero a h = omega arith
bit_at-below (suc k) a h = omega (arith, bit_at-below k (a / 2) (omega arith))

pub bit_at-top : (k a : ℕ) → shift 1 k ≤ a → a < shift 2 k → bit_at a k ≡ shift 1 k
bit_at-top zero a h l = omega arith
bit_at-top (suc k) a h l = omega (arith, bit_at-top k (a / 2) (omega arith) (omega arith))

-- Bits that have not come to a bit, and bits that have just come to it.
pub bit_and-low : (k c bits : ℕ) → c ≡ shift 1 k → bits < c → (bit_and bits c == 0) ≡ true
bit_and-low k c bits e l =
    let z : bit_and bits c ≡ 0 = bit_and_bit k bits c e ∙ bit_at-below k bits (omega (arith, e)) in
    ground (arith, z)

pub bit_and-high :
    (k c bits : ℕ) → c ≡ shift 1 k → 0 < c → c ≤ bits → bits < 2 * c → (bit_and bits c == 0) ≡ false
bit_and-high k c bits e p l m =
    let z : bit_and bits c ≡ c =
      bit_and_bit k bits c e
      ∙ (bit_at-top k bits (omega (arith, e)) (omega (arith, e, twice k)) ∙ sym e) in
    ground (arith, z, p)
  where
    twice : (k : ℕ) → shift 2 k ≡ 2 * shift 1 k
    twice zero = refl
    twice (suc k) = omega (arith, twice k)
