-- ===== src/Common/Xor.antt =====
-- The exclusive or of C, on numbers of k bits.
use Prim.Native.Nat.{
  ℕ, zero, suc, ◌+◌, ◌*◌, ◌/◌, ◌%◌, ◌≤◌, ◌<◌, bit_xor, differ, digits, bit_xor-bitwise,
}
use mathlib.Core.Path.{◌≡◌, refl, sym, ap, ◌∙◌}
use native.Mathlib.Omega.{arith}
use commoncpp.Common.Bits.{shift}

-- The exclusive or of the k lowest bits.
abbrev pub xor_bits : ℕ → ℕ → ℕ → ℕ
xor_bits zero a b = 0
xor_bits (suc k) a b = xor_bits k (a / 2) (b / 2) * 2 + differ (a % 2) (b % 2)

differ-one : (x y : ℕ) → x < 2 → y < 2 → differ x y ≡ (x + y) % 2
differ-one zero y l m = omega arith
differ-one (suc zero) zero l m = refl
differ-one (suc zero) (suc zero) l m = refl
differ-one (suc zero) (suc (suc y)) l m = absurd (omega arith)
differ-one (suc (suc x)) y l m = absurd (omega arith)

-- One bit of two numbers, as a sum.
bit-sum : (a b : ℕ) → differ (a % 2) (b % 2) ≡ (a + b) % 2
bit-sum a b = differ-one (a % 2) (b % 2) (omega arith) (omega arith) ∙ omega arith

xor_bits-zero : (k b : ℕ) → b < shift 1 k → xor_bits k 0 b ≡ b
xor_bits-zero zero b l = omega arith
xor_bits-zero (suc k) b l = omega (arith, xor_bits-zero k (b / 2) (omega arith), bit-sum 0 b)

digits-xor_bits :
    (k fuel a b : ℕ)
    → a ≤ fuel
    → a < shift 1 k
    → b < shift 1 k
    → digits (λ b. b) differ fuel a b ≡ xor_bits k a b
digits-xor_bits zero zero zero b f l m = omega arith
digits-xor_bits zero (suc n) zero b f l m = omega arith
digits-xor_bits zero fuel (suc a) b f l m = absurd (omega arith)
digits-xor_bits (suc k) zero zero b f l m = sym (xor_bits-zero (suc k) b m)
digits-xor_bits (suc k) zero (suc a) b f l m = absurd (omega arith)
digits-xor_bits (suc k) (suc n) zero b f l m = sym (xor_bits-zero (suc k) b m)
digits-xor_bits (suc k) (suc n) (suc a) b f l m =
    ap (λ d. d * 2 + differ (suc a % 2) (b % 2))
      (digits-xor_bits k n (suc a / 2) (b / 2) (omega arith) (omega arith) (omega arith))

pub xor-bits : (k a b : ℕ) → a < shift 1 k → b < shift 1 k → bit_xor a b ≡ xor_bits k a b
xor-bits k a b l m = bit_xor-bitwise a b ∙ digits-xor_bits k a a b (omega arith) l m

pub xor_bits-below : (k a b : ℕ) → xor_bits k a b < shift 1 k
xor_bits-below zero a b = omega arith
xor_bits-below (suc k) a b = omega (arith, xor_bits-below k (a / 2) (b / 2), bit-sum a b)

pub xor_bits-odd : (k a b : ℕ) → xor_bits (suc k) a b % 2 ≡ (a + b) % 2
xor_bits-odd k a b = omega (arith, bit-sum a b)

-- The highest bit is set if it is set in b alone, and not if it is set in both.
pub xor_bits-top :
    (k a b : ℕ) → a < shift 1 k → shift 1 k ≤ b → b < shift 2 k → shift 1 k ≤ xor_bits (suc k) a b
xor_bits-top zero a b l m n = omega (arith, bit-sum a b)
xor_bits-top (suc k) a b l m n =
    omega (arith, xor_bits-top k (a / 2) (b / 2) (omega arith) (omega arith) (omega arith))

pub xor_bits-both :
    (k a b : ℕ)
    → shift 1 k ≤ a
    → a < shift 2 k
    → shift 1 k ≤ b
    → b < shift 2 k
    → xor_bits (suc k) a b < shift 1 k
xor_bits-both zero a b l m n o = omega (arith, bit-sum a b)
xor_bits-both (suc k) a b l m n o = omega (
  arith,
  xor_bits-both k (a / 2) (b / 2) (omega arith) (omega arith) (omega arith) (omega arith),
  bit-sum a b,
)

pub xor_bits_comm : (k a b : ℕ) → xor_bits k a b ≡ xor_bits k b a
xor_bits_comm zero a b = refl
xor_bits_comm (suc k) a b = omega (arith, xor_bits_comm k (a / 2) (b / 2), bit-sum a b, bit-sum b a)

pub xor_bits-cancel :
    (k a c b : ℕ) → a < shift 1 k → c < shift 1 k → xor_bits k a b ≡ xor_bits k c b → a ≡ c
xor_bits-cancel zero a c b l m e = omega arith
xor_bits-cancel (suc k) a c b l m e =
    let half =
      xor_bits-cancel k (a / 2) (c / 2) (b / 2) (omega arith) (omega arith)
        (omega (arith, e, bit-sum a b, bit-sum c b)) in
    omega (arith, half, e, bit-sum a b, bit-sum c b)
