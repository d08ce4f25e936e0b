-- ===== src/Numbers/Padded.antt =====
-- ZNumber of corelib/numbers.cpp: a number in a field of fixed width, with leading zeros.
use commoncpp.Common.{ℕ, suc, ◌+◌, ◌^◌, ◌≤◌, ◌<◌, ◌≡◌, ap, ◌∙◌, true, some, arith, length}
use commoncpp.Common.Int.{pos}
use commoncpp.Numbers.{Number, Buffer, char_at, is_digit, read_digits, get, put_digits, znumber_set}
use commoncpp.Numbers.Fields.{
  scale-pow, put_digits-frame, put_digits-beyond, put_digits-is_digit, length-put_digits,
  read-put_digits,
}

-- `c` is `b` with the number `v` written into the field of `n`.
pub record Holds (n : Number) (v : ℕ) (b c : Buffer) : Type 0 where
  pub reads : get n c ≡ pos v
  pub same_length : length c ≡ length b
  pub before : (i : ℕ) → i < n.buffer → char_at c i ≡ char_at b i
  pub after : (i : ℕ) → n.buffer + n.size ≤ i → char_at c i ≡ char_at b i
  pub digits : (i : ℕ) → n.buffer ≤ i → i < n.buffer + n.size → is_digit (char_at c i) ≡ true

-- A first char that is a digit is no sign.
pub get-unsigned :
    (n : Number) (b : Buffer)
    → is_digit (char_at b n.buffer) ≡ true
    → get n b ≡ pos (read_digits n.size b n.buffer 0)
unfolding get
get-unsigned n b h = ground arith

abbrev pub field : ℕ → ℕ → Number
field at j = record { buffer = at; size = suc j }

abbrev written : ℕ → ℕ → ℕ → Buffer → Buffer
written at j v b = put_digits (suc j) (10 ^ j) v at b

module _ (at j v : ℕ) (b : Buffer) (hv : v < 10 ^ suc j) (hb : at + suc j ≤ length b) where
  written-Holds : Holds (field at j) v b (written at j v b)
  written-Holds =
      let digits = λ (i : ℕ). put_digits-is_digit j (suc j) v at i b (omega arith) hv hb in
      record {
        reads =
            get-unsigned (field at j) (written at j v b) (digits at (omega arith) (omega arith))
            ∙ ap pos (read-put_digits j (suc j) v at 0 b (omega arith) hv hb ∙ omega arith);
        same_length = length-put_digits (suc j) (10 ^ j) v at b;
        before = λ i h. put_digits-frame (suc j) (10 ^ j) v at i b h;
        after = λ i h. put_digits-beyond j (suc j) v at i b (omega arith) h;
        digits = digits;
      }

-- `ZNumber::set` of a value of at least 0 that has room in its field writes nothing but digits
-- there, which read back as the value, and leaves the rest of the buffer as it was.
pub znumber_set-Holds :
    (at j v : ℕ) (b : Buffer)
    → v < 10 ^ suc j
    → at + suc j ≤ length b
    → (c : Buffer) × (znumber_set (field at j) (pos v) b ≡ some c) × Holds (field at j) v b c
unfolding znumber_set
znumber_set-Holds at j v b hv hb = (
  written at j v b,
  rw (scale-pow j 1) (ap (λ t. some (put_digits (suc j) t v at b)) (omega arith)),
  written-Holds at j v b hv hb,
)
