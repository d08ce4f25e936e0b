-- ===== src/Numbers/Leading.antt =====
-- The loop of Number::set over the digits of a number, from the leading zeros on.
use native.Mathlib.Nat.{div-eq_of_lt}
use commoncpp.Common.{
  ℕ, zero, suc, ◌+◌, ◌-◌, ◌*◌, ◌/◌, ◌^◌, ◌≤◌, ◌<◌, ◌≡◌, refl, sym, ap, ◌∙◌, Bool, true, false, ◌||◌,
  arith, set, leb, Bool-cases, inl, inr,
}
use commoncpp.Numbers.{Cursor, lead, put_trim, put_digits}
use commoncpp.Numbers.Fields.{pow_pos, pow-suc-div, put_digits-step, put_digits-zero}

unfoldable pub next : ℕ → ℕ → Cursor → Cursor
next max v c = record { count = c.count - 1; bp = c.bp + 1; text = set c.text c.bp (lead v max) }

pub put_trim-zero : (fuel v : ℕ) (z : Bool) (c : Cursor) → put_trim fuel 0 v z c ≡ c
unfolding put_trim
put_trim-zero zero v z c = refl
put_trim-zero (suc fuel) v z c = refl

pub small_rest : (max v : ℕ) → v < max → v - v / max * max ≡ v
small_rest max v h = rw (div-eq_of_lt h) (omega arith)

pub put_trim-step :
    (fuel max v : ℕ) (z : Bool) (c : Cursor)
    → 0 < max
    → (leb max v || z) ≡ true
    → put_trim (suc fuel) max v z c
      ≡ put_trim fuel (max / 10) (v - v / max * max) true (next max v c)
unfolding put_trim next
put_trim-step fuel max v true c h w = ground (arith, small_rest max v)
put_trim-step fuel max v false c h w = ground arith

pub put_trim-skip :
    (fuel max v : ℕ) (c : Cursor)
    → 0 < max
    → leb max v ≡ false
    → put_trim (suc fuel) max v false c ≡ put_trim fuel (max / 10) v false c
unfolding put_trim
put_trim-skip fuel max v c h w = ground arith

-- Once a digit is written the rest goes as in `ZNumber::set`.
pub put_trim-written :
    (j fuel v : ℕ) (c : Cursor)
    → j < fuel
    → put_trim fuel (10 ^ j) v true c ≡ record {
      count = c.count - suc j;
      bp = c.bp + suc j;
      text = put_digits fuel (10 ^ j) v c.bp c.text;
    }
unfolding next
put_trim-written j zero v c h = absurd (omega arith)
put_trim-written zero (suc f) v c h =
    put_trim-step f 1 v true c (omega arith) (ground arith)
    ∙ (put_trim-zero f (v - v / 1 * 1) true (next 1 v c)
        ∙ ground (
          arith,
          put_digits-step f 1 v c.bp c.text,
          put_digits-zero f (v - v / 1 * 1) (c.bp + 1) (set c.text c.bp (lead v 1)),
        ))
put_trim-written (suc j) (suc f) v c h =
    let p : ℕ = 10 ^ suc j in
    put_trim-step f p v true c (pow_pos (suc j)) (ground arith)
    ∙ rw (pow-suc-div j) (
        put_trim-written j f (v - v / p * p) (next p v c) (omega arith)
        ∙ ground (arith, put_digits-step f p v c.bp c.text (pow_pos (suc j)), pow-suc-div j))

-- The leading zeros are passed over.
pub put_trim-leading :
    (j fuel v : ℕ) (c : Cursor)
    → 0 < v
    → v < 10 ^ suc j
    → j < fuel
    → (i : ℕ) × (fuel' : ℕ) × (i ≤ j)
      × (i < fuel')
      × (v < 10 ^ suc i)
      × (put_trim fuel (10 ^ j) v false c ≡ put_trim fuel' (10 ^ i) v true c)
put_trim-leading j zero v c h0 hv hf = absurd (omega arith)
put_trim-leading zero (suc f) v c h0 hv hf = (
  0,
  suc f,
  omega arith,
  omega arith,
  hv,
  put_trim-step f 1 v false c (omega arith) (ground arith)
      ∙ sym (put_trim-step f 1 v true c (omega arith) (ground arith)),
)
put_trim-leading (suc j) (suc f) v c h0 hv hf = elim (Bool-cases (leb (10 ^ suc j) v)) [
  | inl d ↦ (
    suc j,
    suc f,
    omega arith,
    omega arith,
    hv,
    put_trim-step f (10 ^ suc j) v false c (pow_pos (suc j)) (rw d)
        ∙ sym (put_trim-step f (10 ^ suc j) v true c (pow_pos (suc j)) (rw d)),
  )
  | inr d ↦
      let (i, f', hi, hf', hv', e) = put_trim-leading j f v c h0 (ground arith) (omega arith) in
      (
        i,
        f',
        omega arith,
        hf',
        hv',
        put_trim-skip f (10 ^ suc j) v c (pow_pos (suc j)) d
            ∙ (ap (λ t. put_trim f t v false c) (pow-suc-div j) ∙ e),
      )
]

pub put_trim-none : (j fuel : ℕ) (c : Cursor) → j < fuel → put_trim fuel (10 ^ j) 0 false c ≡ c
put_trim-none j zero c h = absurd (omega arith)
put_trim-none zero (suc f) c h =
    put_trim-skip f 1 0 c (omega arith) (ground arith) ∙ put_trim-zero f 0 false c
put_trim-none (suc j) (suc f) c h =
    put_trim-skip f (10 ^ suc j) 0 c (pow_pos (suc j)) (ground (arith, pow_pos (suc j)))
    ∙ (ap (λ t. put_trim f t 0 false c) (pow-suc-div j) ∙ put_trim-none j f c (omega arith))
