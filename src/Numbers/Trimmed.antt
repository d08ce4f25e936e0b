-- ===== src/Numbers/Trimmed.antt =====
-- Number of corelib/numbers.cpp: a number in a field without leading zeros, blanks behind it.
use commoncpp.Common.{
  ℕ, suc, ◌+◌, ◌-◌, ◌*◌, ◌^◌, ◌≤◌, ◌<◌, ◌≡◌, refl, ap, ◌∙◌, true, false, some, arith, length, set,
  length-set, get_or-set_self, get_or-set_ne, ◌>>=◌,
}
use commoncpp.Common.Int.{pos, negsuc}
use commoncpp.Numbers.{
  Buffer, char_at, is_digit, read_digits, get, put_trim, blank, set_digits, number_set, put_digits,
}
use commoncpp.Numbers.Padded.{field, get-unsigned}
use commoncpp.Numbers.Fields.{
  scale-pow, put_digits-frame, put_digits-beyond, put_digits-is_digit, length-put_digits,
  read_digits-congr, read-put_digits,
}
use commoncpp.Numbers.Blanks.{
  blank-frame, blank-beyond, length-blank, KeepsRest, read_digits-blank, read_digits-append,
}
use commoncpp.Numbers.Leading.{put_trim-written, put_trim-leading, put_trim-none}

-- What `set_digits` leaves for a positive number that fits.
record Stored (at count v : ℕ) (b c : Buffer) : Type 0 where
  unsigned : is_digit (char_at c at) ≡ true
  reads : read_digits count c at 0 ≡ v
  rest : KeepsRest at count b c

module _ (at m i fuel v : ℕ) (b : Buffer) (hv : v < 10 ^ suc i) (hf : i < fuel) where
  blanked-digits :
      (k : ℕ)
      → at + suc i ≤ length b
      → at ≤ k
      → k < at + suc i
      → is_digit (char_at (blank m (at + suc i) (put_digits fuel (10 ^ i) v at b)) k) ≡ true
  blanked-digits k hb lo hi =
      rw (blank-frame m (at + suc i) k (put_digits fuel (10 ^ i) v at b) hi)
        (put_digits-is_digit i fuel v at k b hf hv hb lo hi)

  blanked-Stored :
      (count : ℕ)
      → count ≡ suc i + m
      → at + count ≤ length b
      → Stored at count v b (blank m (at + suc i) (put_digits fuel (10 ^ i) v at b))
  blanked-Stored count e hb =
      let text : Buffer = put_digits fuel (10 ^ i) v at b in
      let digits = λ (k : ℕ). blanked-digits k (omega arith) in
      record {
        unsigned = digits at (omega arith) (omega arith);
        reads =
            read_digits-append (suc i) m count at 0 _ e digits
            ∙ (read_digits-blank m (at + suc i) _ text
                  (omega (arith, length-put_digits fuel (10 ^ i) v at b))
                ∙ (read_digits-congr (suc i) at 0 _ text
                      (λ k lo hi. blank-frame m (at + suc i) k text hi)
                    ∙ (read-put_digits i fuel v at 0 b hf hv (omega arith) ∙ omega arith)));
        rest = record {
          same_length = length-blank m (at + suc i) text ∙ length-put_digits fuel (10 ^ i) v at b;
          before = λ k h.
              blank-frame m (at + suc i) k text (omega arith)
              ∙ put_digits-frame fuel (10 ^ i) v at k b h;
          after = λ k h.
              blank-beyond m (at + suc i) k text (omega arith)
              ∙ put_digits-beyond i fuel v at k b hf (omega arith);
        };
      }

set_digits-eq :
    (at j v i f : ℕ) (b : Buffer)
    → i < f
    → put_trim (suc j) (10 ^ j) v false (record { count = suc j; bp = at; text = b })
      ≡ put_trim f (10 ^ i) v true (record { count = suc j; bp = at; text = b })
    → set_digits (suc j) at v b
      ≡ some (blank (suc j - suc i) (at + suc i) (put_digits f (10 ^ i) v at b))
unfolding set_digits
set_digits-eq at j v i f b hf e =
    let one : 1 * 10 ^ j ≡ 10 ^ j = omega arith in
    rw
      (
        scale-pow j 1,
        ◌>>=◌,
        one,
        e,
        put_trim-written i f v (record { count = suc j; bp = at; text = b }) hf,
      )
      refl

set_digits-Stored :
    (at j v : ℕ) (b : Buffer)
    → 0 < v
    → v < 10 ^ suc j
    → at + suc j ≤ length b
    → (c : Buffer) × (set_digits (suc j) at v b ≡ some c) × Stored at (suc j) v b c
set_digits-Stored at j v b h0 hv hb =
    let (i, f, hi, hf, small, e) =
      put_trim-leading j (suc j) v (record { count = suc j; bp = at; text = b }) h0 hv
        (omega arith) in
    (
      blank (suc j - suc i) (at + suc i) (put_digits f (10 ^ i) v at b),
      set_digits-eq at j v i f b hf e,
      blanked-Stored at (suc j - suc i) i f v b small hf (suc j) (omega arith) hb,
    )

-- A positive number that fits is read back, and the rest of the buffer is kept.
pub get-number_set-pos :
    (at j v : ℕ) (b : Buffer)
    → 0 < v
    → v < 10 ^ suc j
    → at + suc j ≤ length b
    → (c : Buffer) × (number_set (field at j) (pos v) b ≡ some c)
      × (get (field at j) c ≡ pos v)
      × KeepsRest at (suc j) b c
unfolding number_set
get-number_set-pos at j v b h0 hv hb =
    let (c, e, s) = set_digits-Stored at j v b h0 hv hb in
    (c, e, get-unsigned (field at j) c s.unsigned ∙ ap pos s.reads, s.rest)

-- So is a negative one, if a char is left for the sign.
pub get-number_set-negsuc :
    (at j w : ℕ) (b : Buffer)
    → suc w < 10 ^ suc j
    → at + suc (suc j) ≤ length b
    → (c : Buffer) × (number_set (field at (suc j)) (negsuc w) b ≡ some c)
      × (get (field at (suc j)) c ≡ negsuc w)
      × KeepsRest at (suc (suc j)) b c
unfolding number_set get
get-number_set-negsuc at j w b hv hb =
    let (c, e, s) =
      set_digits-Stored (at + 1) j (suc w) (set b at 45) (omega arith) hv
        (omega (arith, length-set b at 45)) in
    let sign : char_at c at ≡ 45 =
      s.rest.before at (omega arith) ∙ get_or-set_self b at 45 0 (omega arith) in
    let count : suc (suc j) - 1 ≡ suc j = omega arith in
    (
      c,
      rw count e,
      rw (sign, count, s.reads) refl,
      record {
        same_length = s.rest.same_length ∙ length-set b at 45;
        before =
            λ i h. s.rest.before i (omega arith) ∙ get_or-set_ne b at i 45 0 (λ e. omega arith);
        after = λ i h. s.rest.after i (omega arith) ∙ get_or-set_ne b at i 45 0 (λ e. omega arith);
      },
    )

-- Zero is written as blanks over the digits that the field begins with.
pub number_set-zero :
    (at j : ℕ) (b : Buffer) → number_set (field at j) (pos 0) b ≡ some (blank (suc j) at b)
unfolding number_set set_digits
number_set-zero at j b =
    let one : 1 * 10 ^ j ≡ 10 ^ j = omega arith in
    rw
      (
        scale-pow j 1,
        ◌>>=◌,
        one,
        put_trim-none j (suc j) (record { count = suc j; bp = at; text = b }) (omega arith),
      )
      refl
