-- ===== src/Numbers/Blanks.antt =====
-- The loop of Number::set over the digits behind the number, and reading past a run of digits.
use commoncpp.Common.{
  ℕ, zero, suc, ◌+◌, ◌-◌, ◌*◌, ◌≤◌, ◌<◌, ◌≡◌, refl, true, false, arith, length, set, length-set,
  get_or-set_self, get_or-set_ne, Bool-cases, inl, inr,
}
use commoncpp.Numbers.{Buffer, char_at, is_digit, read_digits, blank}

pub read_digits-stop :
    (count bp ret : ℕ) (b : Buffer)
    → is_digit (char_at b bp) ≡ false
    → read_digits count b bp ret ≡ ret
unfolding read_digits
read_digits-stop zero bp ret b h = refl
read_digits-stop (suc count) bp ret b h = rw h

pub blank-frame :
    (count bp i : ℕ) (b : Buffer) → i < bp → char_at (blank count bp b) i ≡ char_at b i
unfolding blank
blank-frame zero bp i b h = refl
blank-frame (suc count) bp i b h =
    ground (arith, blank-frame count (bp + 1) i (set b bp 32), get_or-set_ne b bp i 32 0)

pub blank-beyond :
    (count bp i : ℕ) (b : Buffer) → bp + count ≤ i → char_at (blank count bp b) i ≡ char_at b i
unfolding blank
blank-beyond zero bp i b h = refl
blank-beyond (suc count) bp i b h =
    ground (arith, blank-beyond count (bp + 1) i (set b bp 32), get_or-set_ne b bp i 32 0)

pub length-blank : (count bp : ℕ) (b : Buffer) → length (blank count bp b) ≡ length b
unfolding blank
length-blank zero bp b = refl
length-blank (suc count) bp b =
    ground (arith, length-blank count (bp + 1) (set b bp 32), length-set b bp 32)

-- `c` is `b` but for the chars of a field.
pub record KeepsRest (at size : ℕ) (b c : Buffer) : Type 0 where
  pub same_length : length c ≡ length b
  pub before : (i : ℕ) → i < at → char_at c i ≡ char_at b i
  pub after : (i : ℕ) → at + size ≤ i → char_at c i ≡ char_at b i

pub KeepsRest-blank :
    (at size m k : ℕ) (b : Buffer) → at ≤ m → m + k ≤ at + size → KeepsRest at size b (blank k m b)
KeepsRest-blank at size m k b lo hi = record {
  same_length = length-blank k m b;
  before = λ i h. blank-frame k m i b (omega arith);
  after = λ i h. blank-beyond k m i b (omega arith);
}

-- After `blank` the field goes on with no digit, so nothing more is read.
pub read_digits-blank :
    (count bp ret : ℕ) (b : Buffer)
    → bp + count ≤ length b
    → read_digits count (blank count bp b) bp ret ≡ ret
unfolding blank
read_digits-blank zero bp ret b h = unfold read_digits in refl
read_digits-blank (suc count) bp ret b h = elim (Bool-cases (is_digit (char_at b bp))) [
  | inl d ↦ rw d (
      read_digits-stop (suc count) bp ret _ (
        rw
          (
            blank-frame count (bp + 1) bp (set b bp 32) (omega arith),
            get_or-set_self b bp 32 0 (omega arith),
          )
          refl))
  | inr d ↦ rw d (read_digits-stop (suc count) bp ret b d)
]

-- Past a run of digits the reading goes on behind it.
pub read_digits-append :
    (k m n bp ret : ℕ) (b : Buffer)
    → n ≡ k + m
    → ((i : ℕ) → bp ≤ i → i < bp + k → is_digit (char_at b i) ≡ true)
    → read_digits n b bp ret ≡ read_digits m b (bp + k) (read_digits k b bp ret)
unfolding read_digits
read_digits-append zero m n bp ret b e h =
    let e' : n ≡ m = omega arith in let e'' : bp + 0 ≡ bp = omega arith in rw (e', e'')
read_digits-append (suc k) m zero bp ret b e h = absurd (omega arith)
read_digits-append (suc k) m (suc n) bp ret b e h =
    let e' : bp + suc k ≡ bp + 1 + k = omega arith in
    rw (h bp (omega arith) (omega arith), e')
      (read_digits-append k m n (bp + 1) (ret * 10 + (char_at b bp - 48)) b (omega arith)
        (λ i lo hi. h i (omega arith) (omega arith)))
