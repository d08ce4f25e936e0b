-- ===== src/Numbers/Fields.antt =====
-- What a field reads after a write: corelib/numbers.cpp without the sign.
use native.Mathlib.Nat.{pow-suc, div-lt_iff_lt-mul, div-mul-le_self, lt-div-mul-add}
use native.Mathlib.Decide.{dec_lt}
use commoncpp.Common.{
  ℕ, zero, suc, ◌+◌, ◌-◌, ◌*◌, ◌/◌, ◌^◌, ◌≤◌, ◌<◌, ◌≡◌, refl, sym, ap, ◌∙◌, true, some, arith,
  length, set, length-set, get_or-set_self, get_or-set_ne,
}
use commoncpp.Numbers.{Number, Buffer, char_at, is_digit, read_digits, get, scale, lead, put_digits}

pub pow_pos : (j : ℕ) → 0 < 10 ^ j
pow_pos zero = omega arith
pow_pos (suc j) = omega (arith, pow-suc 10 j, pow_pos j)

pub pow-suc-div : (j : ℕ) → 10 ^ suc j / 10 ≡ 10 ^ j
pow-suc-div j = omega (arith, pow-suc 10 j)

mul_ten : (m p : ℕ) → m * 10 * p ≡ m * (p * 10)
mul_ten m p = omega arith

pub scale-pow : (j max : ℕ) → scale (suc j) max ≡ some (max * 10 ^ j)
unfolding scale
scale-pow zero max = ground arith
scale-pow (suc j) max =
    scale-pow j (max * 10) ∙ ap some (mul_ten max (10 ^ j) ∙ ap (λ t. max * t) (sym (pow-suc 10 j)))

-- The writes of a number stay in its field.
pub put_digits-frame :
    (fuel max value bp i : ℕ) (b : Buffer)
    → i < bp
    → char_at (put_digits fuel max value bp b) i ≡ char_at b i
unfolding put_digits
put_digits-frame zero max value bp i b h = refl
put_digits-frame (suc fuel) max value bp i b h = ground (
  arith,
  put_digits-frame fuel (max / 10) (value - value / max * max) (bp + 1) i
      (set b bp (lead value max)),
  get_or-set_ne b bp i (lead value max) 0,
)

-- Division by a power of ten leaves one digit and a smaller rest.
pub split_digit :
    (p v : ℕ)
    → 0 < p
    → v < p * 10
    → (v / p < 10) × (v - v / p * p < p) × (v / p * p + (v - v / p * p) ≡ v)
split_digit p v hp h = (
  (div-lt_iff_lt-mul hp).1 (omega arith),
  omega (arith, lt-div-mul-add {a = v} hp, div-mul-le_self v p),
  omega (arith, div-mul-le_self v p),
)

pub put_digits-zero : (fuel v bp : ℕ) (b : Buffer) → put_digits fuel 0 v bp b ≡ b
unfolding put_digits
put_digits-zero zero v bp b = refl
put_digits-zero (suc fuel) v bp b = refl

pub put_digits-step :
    (fuel max v bp : ℕ) (b : Buffer)
    → 0 < max
    → put_digits (suc fuel) max v bp b
      ≡ put_digits fuel (max / 10) (v - v / max * max) (bp + 1) (set b bp (lead v max))
unfolding put_digits
put_digits-step fuel max v bp b h = ground arith

pub read_digits-step :
    (count bp ret q : ℕ) (b : Buffer)
    → char_at b bp ≡ 48 + q
    → q < 10
    → read_digits (suc count) b bp ret ≡ read_digits count b (bp + 1) (ret * 10 + q)
unfolding read_digits
read_digits-step count bp ret q b e h = ground arith

pub lead-digit : (p v : ℕ) → v / p < 10 → lead v p ≡ 48 + v / p
lead-digit p v h = omega arith

pub shift_digit :
    (j acc q r v : ℕ) → q * 10 ^ j + r ≡ v → (acc * 10 + q) * 10 ^ j + r ≡ acc * 10 ^ suc j + v
shift_digit j acc q r v e =
    let s : acc * 10 ^ suc j ≡ acc * (10 ^ j * 10) = ap (λ t. acc * t) (pow-suc 10 j) in omega arith

read_digits-zero : (b : Buffer) (bp ret : ℕ) → read_digits 0 b bp ret ≡ ret
unfolding read_digits
read_digits-zero b bp ret = refl

-- What `ZNumber::set` wrote is read back.
pub read-put_digits :
    (j fuel v bp acc : ℕ) (b : Buffer)
    → j < fuel
    → v < 10 ^ suc j
    → bp + suc j ≤ length b
    → read_digits (suc j) (put_digits fuel (10 ^ j) v bp b) bp acc ≡ acc * 10 ^ suc j + v
read-put_digits j zero v bp acc b hf hv hb = absurd (omega arith)
read-put_digits zero (suc f) v bp acc b hf hv hb =
    rw
      (
        put_digits-step f 1 v bp b (omega arith),
        put_digits-zero f (v - v / 1 * 1) (bp + 1) (set b bp (lead v 1)),
      )
      (rw
        (read_digits-step 0 bp acc v (set b bp (lead v 1))
          (omega (arith, get_or-set_self b bp (lead v 1) 0)) (omega arith))
        (read_digits-zero _ _ _ ∙ omega arith))
read-put_digits (suc j) (suc f) v bp acc b hf hv hb =
    let p : ℕ = 10 ^ suc j in
    let (small, rest, whole) =
      split_digit p v (pow_pos (suc j)) (omega (arith, pow-suc 10 (suc j))) in
    let b' : Buffer = set b bp (lead v p) in
    let after : Buffer = put_digits f (10 ^ j) (v - v / p * p) (bp + 1) b' in
    let written : put_digits (suc f) p v bp b ≡ after =
      put_digits-step f p v bp b (pow_pos (suc j))
      ∙ ap (λ t. put_digits f t (v - v / p * p) (bp + 1) b') (pow-suc-div j) in
    let first : char_at after bp ≡ 48 + v / p =
      put_digits-frame f (10 ^ j) (v - v / p * p) (bp + 1) bp b' (omega arith)
      ∙ (get_or-set_self b bp (lead v p) 0 (omega arith) ∙ lead-digit p v small) in
    rw written (
      read_digits-step (suc j) bp acc (v / p) after first small
      ∙ (read-put_digits j f (v - v / p * p) (bp + 1) (acc * 10 + v / p) b' (omega arith) rest
            (omega (arith, length-set b bp (lead v p)))
          ∙ shift_digit (suc j) acc (v / p) (v - v / p * p) v whole))

pub length-put_digits :
    (fuel max v bp : ℕ) (b : Buffer) → length (put_digits fuel max v bp b) ≡ length b
unfolding put_digits
length-put_digits zero max v bp b = refl
length-put_digits (suc fuel) max v bp b = ground (
  arith,
  length-put_digits fuel (max / 10) (v - v / max * max) (bp + 1) (set b bp (lead v max)),
  length-set b bp (lead v max),
)

-- Nor do they pass its end.
pub put_digits-beyond :
    (j fuel v bp i : ℕ) (b : Buffer)
    → j < fuel
    → bp + suc j ≤ i
    → char_at (put_digits fuel (10 ^ j) v bp b) i ≡ char_at b i
put_digits-beyond j zero v bp i b hf hi = absurd (omega arith)
put_digits-beyond zero (suc f) v bp i b hf hi =
    rw (put_digits-step f 1 v bp b (omega arith), put_digits-zero f (v - v / 1 * 1) (bp + 1) _)
      (get_or-set_ne b bp i (lead v 1) 0 (omega arith))
put_digits-beyond (suc j) (suc f) v bp i b hf hi =
    let p : ℕ = 10 ^ suc j in
    rw (put_digits-step f p v bp b (pow_pos (suc j)), pow-suc-div j)
      (put_digits-beyond j f (v - v / p * p) (bp + 1) i (set b bp (lead v p)) (omega arith)
          (omega arith)
        ∙ get_or-set_ne b bp i (lead v p) 0 (omega arith))

-- Each char of the field is a digit.
pub put_digits-is_digit :
    (j fuel v bp i : ℕ) (b : Buffer)
    → j < fuel
    → v < 10 ^ suc j
    → bp + suc j ≤ length b
    → bp ≤ i
    → i < bp + suc j
    → is_digit (char_at (put_digits fuel (10 ^ j) v bp b) i) ≡ true
put_digits-is_digit j zero v bp i b hf hv hb lo hi = absurd (omega arith)
put_digits-is_digit zero (suc f) v bp i b hf hv hb lo hi =
    let e : bp ≡ i = omega arith in
    rw (put_digits-step f 1 v bp b (omega arith), put_digits-zero f (v - v / 1 * 1) (bp + 1) _, ← e)
      (rw (get_or-set_self b bp (lead v 1) 0 (omega arith)) (ground arith))
put_digits-is_digit (suc j) (suc f) v bp i b hf hv hb lo hi =
    let p : ℕ = 10 ^ suc j in
    let (small, rest, whole) =
      split_digit p v (pow_pos (suc j)) (omega (arith, pow-suc 10 (suc j))) in
    rw (put_digits-step f p v bp b (pow_pos (suc j)), pow-suc-div j)
      (elim (dec_lt bp i) [
        | yes later ↦
            put_digits-is_digit j f (v - v / p * p) (bp + 1) i (set b bp (lead v p)) (omega arith)
              rest (omega (arith, length-set b bp (lead v p))) (omega arith) (omega arith)
        | no here ↦
            let e : i ≡ bp = omega arith in
            rw
              (
                e,
                put_digits-frame f (10 ^ j) (v - v / p * p) (bp + 1) bp (set b bp (lead v p))
                    (omega arith),
                get_or-set_self b bp (lead v p) 0 (omega arith),
              )
              (ground arith)
      ])

-- A field reads its own chars only.
pub read_digits-congr :
    (count bp ret : ℕ) (b c : Buffer)
    → ((i : ℕ) → bp ≤ i → i < bp + count → char_at b i ≡ char_at c i)
    → read_digits count b bp ret ≡ read_digits count c bp ret
unfolding read_digits
read_digits-congr zero bp ret b c h = refl
read_digits-congr (suc count) bp ret b c h = rw (
  h bp (omega arith) (omega arith),
  read_digits-congr count (bp + 1) (ret * 10 + (char_at c bp - 48)) b c
      (λ i lo hi. h i (omega arith) (omega arith)),
)

pub get-congr :
    (n : Number) (b c : Buffer)
    → 0 < n.size
    → ((i : ℕ) → n.buffer ≤ i → i < n.buffer + n.size → char_at b i ≡ char_at c i)
    → get n b ≡ get n c
unfolding get
get-congr n b c hs h = rw (
  h n.buffer (omega arith) (omega arith),
  read_digits-congr n.size n.buffer 0 b c h,
  read_digits-congr (n.size - 1) (n.buffer + 1) 0 b c (λ i lo hi. h i (omega arith) (omega arith)),
)
