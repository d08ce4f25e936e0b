-- ===== src/Unicode/Bytes.antt =====
-- The bytes of a code: what `put` makes of its bits, and what `get` and `codepoint` make of them.
use Prim.Native.Nat.{bit_and, bit_or}
use commoncpp.Common.{
  ℕ, suc, ◌+◌, ◌*◌, ◌%◌, ◌<◌, ◌≡◌, refl, ap, ◌∙◌, arith, Bool, true, false, ◌&&◌, ◌∷◌, Option, none,
  some, ◌==◌, ==_iff,
}
use commoncpp.Common.Bits.{everywhere, everywhere-below, bit_or_six, bit_and_six}
use commoncpp.Unicode.{
  Text, masked, lead_bits, follow, size_of_byte, head_bits, join, tail_byte, lead_byte,
}

abbrev is_pair : Option (ℕ × ℕ) → ℕ → ℕ → Bool
is_pair none a b = false
is_pair (some (x, y)) a b = (x == a) && (y == b)

is_pair-eq : (o : Option (ℕ × ℕ)) (a b : ℕ) → is_pair o a b ≡ true → o ≡ some (a, b)
is_pair-eq none a b h = absurd (ground (arith, h))
is_pair-eq (some (x, y)) a b h =
    let e : x ≡ a = ground (arith, h) in let f : y ≡ b = ground (arith, h) in rw (e, f) refl

-- A first byte `mark + x` holds the bits x of its code, and says that k bytes follow.
pub record Lead (mark k x : ℕ) : Type 0 where
  pub made : lead_byte x mark ≡ mark + x
  pub bits : lead_bits (mark + x) ≡ some (x, k)
  pub sized : size_of_byte (mark + x) ≡ k + 1
  pub head : head_bits (k + 1) (mark + x) ≡ x

abbrev lead_test : ℕ → ℕ → ℕ → Bool
lead_test mark k x =
    (lead_byte x mark == mark + x)
    && (is_pair (lead_bits (mark + x)) x k
        && ((size_of_byte (mark + x) == k + 1) && (head_bits (k + 1) (mark + x) == x)))

and_left : (a b : Bool) → (a && b) ≡ true → a ≡ true
and_left true b h = refl
and_left false b h = absurd (ground (arith, h))

and_right : (a b : Bool) → (a && b) ≡ true → b ≡ true
and_right true b h = h
and_right false b h = absurd (ground (arith, h))

lead_test-Lead : (mark k x : ℕ) → lead_test mark k x ≡ true → Lead mark k x
lead_test-Lead mark k x h =
    let r = and_right (lead_byte x mark == mark + x) _ h in
    let q = and_right (is_pair (lead_bits (mark + x)) x k) _ r in
    record {
      made = (==_iff _ (mark + x)).0 (and_left _ _ h);
      bits = is_pair-eq _ x k (and_left _ _ r);
      sized = (==_iff _ (k + 1)).0 (and_left _ _ q);
      head = (==_iff _ x).0 (and_right (size_of_byte (mark + x) == k + 1) _ q);
    }

pub Lead-two : (x : ℕ) → x < 32 → Lead 192 1 x
unfolding everywhere lead_bits size_of_byte
Lead-two x h = lead_test-Lead 192 1 x (everywhere-below 32 (lead_test 192 1) x refl h)

pub Lead-three : (x : ℕ) → x < 16 → Lead 224 2 x
unfolding everywhere lead_bits size_of_byte
Lead-three x h = lead_test-Lead 224 2 x (everywhere-below 16 (lead_test 224 2) x refl h)

pub Lead-four : (x : ℕ) → x < 8 → Lead 240 3 x
unfolding everywhere lead_bits size_of_byte
Lead-four x h = lead_test-Lead 240 3 x (everywhere-below 8 (lead_test 240 3) x refl h)

pub Lead-five : (x : ℕ) → x < 4 → Lead 248 4 x
unfolding everywhere lead_bits size_of_byte
Lead-five x h = lead_test-Lead 248 4 x (everywhere-below 4 (lead_test 248 4) x refl h)

pub Lead-six : (x : ℕ) → x < 2 → Lead 252 5 x
unfolding everywhere lead_bits size_of_byte
Lead-six x h = lead_test-Lead 252 5 x (everywhere-below 2 (lead_test 252 5) x refl h)

-- A byte that follows holds six bits.
abbrev tail_test : ℕ → Bool
tail_test w = (bit_or w 0x80 % 256 == 128 + w) && masked 0xc0 0x80 (128 + w)

tail_test-all : (w : ℕ) → w < 64 → tail_test w ≡ true
unfolding everywhere
tail_test-all w h = everywhere-below 64 tail_test w refl h

tail_byte-six : (v : ℕ) → tail_byte v ≡ 128 + v % 64
tail_byte-six v =
    rw (bit_and_six v)
      ((==_iff _ (128 + v % 64)).0 (and_left _ _ (tail_test-all (v % 64) (omega arith))))

tail_byte-masked : (v : ℕ) → masked 0xc0 0x80 (tail_byte v) ≡ true
tail_byte-masked v = rw (tail_byte-six v) (and_right _ _ (tail_test-all (v % 64) (omega arith)))

tail_byte-bits : (v : ℕ) → bit_and (tail_byte v) 0x3f ≡ v % 64
tail_byte-bits v = bit_and_six (tail_byte v) ∙ (ap (λ b. b % 64) (tail_byte-six v) ∙ omega arith)

tail_byte-nonzero : (v : ℕ) → (tail_byte v == 0) ≡ false
tail_byte-nonzero v = rw (tail_byte-six v) (ground arith)

pub follow-tail :
    (n v : ℕ) (s : Text) (code : ℕ)
    → follow (suc n) (tail_byte v ∷ s) code ≡ follow n s (code * 64 + v % 64)
unfolding follow
follow-tail n v s code =
    rw (tail_byte-nonzero v, tail_byte-masked v, tail_byte-bits v)
      (ap (follow n s) (bit_or_six code (v % 64) (omega arith)))

pub join-tail :
    (n v : ℕ) (s : Text) (code : ℕ)
    → join (suc n) (tail_byte v ∷ s) code ≡ join n s (code * 64 + v % 64)
unfolding join
join-tail n v s code =
    rw (tail_byte-masked v, tail_byte-bits v)
      (ap (join n s) (bit_or_six code (v % 64) (omega arith)))
