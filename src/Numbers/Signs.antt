-- ===== src/Numbers/Signs.antt =====
-- Stores of a signed value in a Number of corelib/numbers.cpp, zero included, and the operators.
use commoncpp.Common.{
  ℕ, zero, suc, ◌+◌, ◌^◌, ◌≤◌, ◌<◌, ◌≡◌, refl, ◌≢◌, ◌⊎◌, ◌∙◌, some, arith, length, Bool-cases, inl,
  inr, false, set, get_or-set_self,
}
use commoncpp.Common.Int.{ℤ, pos, negsuc, ◌+ℤ◌}
use commoncpp.Numbers.{Buffer, char_at, is_digit, get, blank, number_set, add_assign}
use commoncpp.Numbers.Padded.{field}
use commoncpp.Numbers.Trimmed.{get-number_set-pos, get-number_set-negsuc, number_set-zero}
use commoncpp.Numbers.Blanks.{read_digits-stop, KeepsRest, KeepsRest-blank, blank-frame}

-- The values that a field of `suc j` chars can show: a negative one gives a char to its sign.
abbrev pub Fits : ℕ → ℤ → Type 0
Fits j (pos v) = v < 10 ^ suc j
Fits j (negsuc w) = suc w < 10 ^ j

-- `Number::set`, then `Number::get`: a value other than zero that has room in its field, the sign
-- of a negative one included, and whose field is within the buffer, is stored and read back,
-- whatever the field held before; the length of the buffer and every char outside the field stay as
-- they were.
pub get-number_set :
    (at j : ℕ) (z : ℤ) (b : Buffer)
    → z ≢ pos 0
    → Fits j z
    → at + suc j ≤ length b
    → (c : Buffer) × (number_set (field at j) z b ≡ some c)
      × (get (field at j) c ≡ z)
      × KeepsRest at (suc j) b c
get-number_set at j (pos zero) b nz hf hb = absurd (nz refl)
get-number_set at j (pos (suc v)) b nz hf hb = get-number_set-pos at j (suc v) b (omega arith) hf hb
get-number_set at zero (negsuc w) b nz hf hb = absurd (omega arith)
get-number_set at (suc j) (negsuc w) b nz hf hb = get-number_set-negsuc at j w b hf hb

get-nondigit :
    (at j : ℕ) (b : Buffer)
    → is_digit (char_at b at) ≡ false
    → char_at b at ≢ b'-'
    → char_at b at ≢ b'+'
    → get (field at j) b ≡ pos 0
unfolding get
get-nondigit at j b h hm hp = ground (arith, read_digits-stop (suc j) at 0 b h)

get-blank :
    (at j : ℕ) (b : Buffer)
    → at + suc j ≤ length b
    → char_at b at ≢ b'-'
    → char_at b at ≢ b'+'
    → get (field at j) (blank (suc j) at b) ≡ pos 0
unfolding blank
get-blank at j b hb hm hp = elim (Bool-cases (is_digit (char_at b at))) [
  | inl d ↦
      let c : Buffer = blank j (at + 1) (set b at 32) in
      let e : char_at c at ≡ 32 =
        blank-frame j (at + 1) at (set b at 32) (omega arith)
        ∙ get_or-set_self b at 32 0 (omega arith) in
      rw d (get-nondigit at j c (rw e refl) (omega arith) (omega arith))
  | inr d ↦ rw d (get-nondigit at j b d hm hp)
]

-- Into a field that begins with no sign `Number::set` stores zero, and `Number::get` reads it
-- back; the rest of the buffer is kept.
pub get-number_set-zero :
    (at j : ℕ) (b : Buffer)
    → char_at b at ≢ b'-'
    → char_at b at ≢ b'+'
    → at + suc j ≤ length b
    → (c : Buffer) × (number_set (field at j) (pos 0) b ≡ some c)
      × (get (field at j) c ≡ pos 0)
      × KeepsRest at (suc j) b c
get-number_set-zero at j b hm hp hb = (
  blank (suc j) at b,
  number_set-zero at j b,
  get-blank at j b hb hm hp,
  KeepsRest-blank at (suc j) at (suc j) b (omega arith) (omega arith),
)

-- Into a field that begins with a sign `Number::set` does not write zero at all: the buffer stays
-- as it was, so that the field goes on to show its old number.
pub number_set-zero_sign :
    (at j : ℕ) (b : Buffer)
    → (char_at b at ≡ b'-') ⊎ (char_at b at ≡ b'+')
    → number_set (field at j) (pos 0) b ≡ some b
unfolding blank
number_set-zero_sign at j b (inl e) = rw (number_set-zero at j b, e) refl
number_set-zero_sign at j b (inr e) = rw (number_set-zero at j b, e) refl

-- `operator+=` stores the sum and returns it, where the sum is not zero and has room in its field.
pub get-add_assign :
    (at j : ℕ) (v : ℤ) (b : Buffer)
    → get (field at j) b +ℤ v ≢ pos 0
    → Fits j (get (field at j) b +ℤ v)
    → at + suc j ≤ length b
    → (c : Buffer) × (add_assign (field at j) v b ≡ some (get (field at j) b +ℤ v, c))
      × (get (field at j) c ≡ get (field at j) b +ℤ v)
unfolding add_assign
get-add_assign at j v b nz hf hb =
    let (c, e, r, k) = get-number_set at j (get (field at j) b +ℤ v) b nz hf hb in (c, rw e refl, r)
