-- ===== src/Unicode/Joins.antt =====
-- The bytes that follow the first, put together again.
use commoncpp.Common.{ℕ, ◌+◌, ◌*◌, ◌/◌, ◌%◌, ◌^◌, ◌≡◌, ap, ◌∙◌, arith, ◌∷◌, some}
use commoncpp.Unicode.{Text, follow, join, tail_byte}
use commoncpp.Unicode.Bytes.{follow-tail, join-tail}

-- The code that its bits, those of the bytes that follow, make up.
bits_one : (c : ℕ) → c / 2 ^ 6 * 64 + c % 64 ≡ c
bits_one c = omega arith

bits_two : (c : ℕ) → c / 2 ^ 12 * 64 + c / 2 ^ 6 % 64 ≡ c / 2 ^ 6
bits_two c = omega arith

bits_three : (c : ℕ) → c / 2 ^ 18 * 64 + c / 2 ^ 12 % 64 ≡ c / 2 ^ 12
bits_three c = omega arith

bits_four : (c : ℕ) → c / 2 ^ 24 * 64 + c / 2 ^ 18 % 64 ≡ c / 2 ^ 18
bits_four c = omega arith

bits_five : (c : ℕ) → c / 2 ^ 30 * 64 + c / 2 ^ 24 % 64 ≡ c / 2 ^ 24
bits_five c = omega arith

pub follow_one : (c : ℕ) (s : Text) → follow 1 (tail_byte c ∷ s) (c / 2 ^ 6) ≡ some c
unfolding follow
follow_one c s = follow-tail 0 c s (c / 2 ^ 6) ∙ ap some (bits_one c)

pub follow_two :
    (c : ℕ) (s : Text) → follow 2 (tail_byte (c / 2 ^ 6) ∷ tail_byte c ∷ s) (c / 2 ^ 12) ≡ some c
unfolding follow
follow_two c s =
    follow-tail 1 (c / 2 ^ 6) (tail_byte c ∷ s) (c / 2 ^ 12)
    ∙ (ap (follow 1 (tail_byte c ∷ s)) (bits_two c) ∙ follow_one c s)

pub follow_three :
    (c : ℕ) (s : Text)
    → follow 3 (tail_byte (c / 2 ^ 12) ∷ tail_byte (c / 2 ^ 6) ∷ tail_byte c ∷ s) (c / 2 ^ 18)
      ≡ some c
unfolding follow
follow_three c s =
    follow-tail 2 (c / 2 ^ 12) (tail_byte (c / 2 ^ 6) ∷ tail_byte c ∷ s) (c / 2 ^ 18)
    ∙ (ap (follow 2 (tail_byte (c / 2 ^ 6) ∷ tail_byte c ∷ s)) (bits_three c) ∙ follow_two c s)

pub follow_four :
    (c : ℕ) (s : Text)
    → follow 4
        (tail_byte (c / 2 ^ 18) ∷ tail_byte (c / 2 ^ 12) ∷ tail_byte (c / 2 ^ 6) ∷ tail_byte c ∷ s)
        (c / 2 ^ 24)
      ≡ some c
unfolding follow
follow_four c s =
    follow-tail 3 (c / 2 ^ 18) (tail_byte (c / 2 ^ 12) ∷ tail_byte (c / 2 ^ 6) ∷ tail_byte c ∷ s)
      (c / 2 ^ 24)
    ∙ (ap (follow 3 (tail_byte (c / 2 ^ 12) ∷ tail_byte (c / 2 ^ 6) ∷ tail_byte c ∷ s))
          (bits_four c)
        ∙ follow_three c s)

pub follow_five :
    (c : ℕ) (s : Text)
    → follow 5
        (tail_byte (c / 2 ^ 24)
          ∷ tail_byte (c / 2 ^ 18)
          ∷ tail_byte (c / 2 ^ 12)
          ∷ tail_byte (c / 2 ^ 6)
          ∷ tail_byte c
          ∷ s)
        (c / 2 ^ 30)
      ≡ some c
unfolding follow
follow_five c s =
    follow-tail 4 (c / 2 ^ 24)
      (tail_byte (c / 2 ^ 18) ∷ tail_byte (c / 2 ^ 12) ∷ tail_byte (c / 2 ^ 6) ∷ tail_byte c ∷ s)
      (c / 2 ^ 30)
    ∙ (ap
          (follow 4 (
            tail_byte (c / 2 ^ 18)
            ∷ tail_byte (c / 2 ^ 12)
            ∷ tail_byte (c / 2 ^ 6)
            ∷ tail_byte c
            ∷ s))
          (bits_five c)
        ∙ follow_four c s)

pub join_one : (c : ℕ) (s : Text) → join 1 (tail_byte c ∷ s) (c / 2 ^ 6) ≡ c
unfolding join
join_one c s = join-tail 0 c s (c / 2 ^ 6) ∙ bits_one c

pub join_two :
    (c : ℕ) (s : Text) → join 2 (tail_byte (c / 2 ^ 6) ∷ tail_byte c ∷ s) (c / 2 ^ 12) ≡ c
unfolding join
join_two c s =
    join-tail 1 (c / 2 ^ 6) (tail_byte c ∷ s) (c / 2 ^ 12)
    ∙ (ap (join 1 (tail_byte c ∷ s)) (bits_two c) ∙ join_one c s)

pub join_three :
    (c : ℕ) (s : Text)
    → join 3 (tail_byte (c / 2 ^ 12) ∷ tail_byte (c / 2 ^ 6) ∷ tail_byte c ∷ s) (c / 2 ^ 18) ≡ c
unfolding join
join_three c s =
    join-tail 2 (c / 2 ^ 12) (tail_byte (c / 2 ^ 6) ∷ tail_byte c ∷ s) (c / 2 ^ 18)
    ∙ (ap (join 2 (tail_byte (c / 2 ^ 6) ∷ tail_byte c ∷ s)) (bits_three c) ∙ join_two c s)

pub join_four :
    (c : ℕ) (s : Text)
    → join 4
        (tail_byte (c / 2 ^ 18) ∷ tail_byte (c / 2 ^ 12) ∷ tail_byte (c / 2 ^ 6) ∷ tail_byte c ∷ s)
        (c / 2 ^ 24)
      ≡ c
unfolding join
join_four c s =
    join-tail 3 (c / 2 ^ 18) (tail_byte (c / 2 ^ 12) ∷ tail_byte (c / 2 ^ 6) ∷ tail_byte c ∷ s)
      (c / 2 ^ 24)
    ∙ (ap (join 3 (tail_byte (c / 2 ^ 12) ∷ tail_byte (c / 2 ^ 6) ∷ tail_byte c ∷ s)) (bits_four c)
        ∙ join_three c s)

pub join_five :
    (c : ℕ) (s : Text)
    → join 5
        (tail_byte (c / 2 ^ 24)
          ∷ tail_byte (c / 2 ^ 18)
          ∷ tail_byte (c / 2 ^ 12)
          ∷ tail_byte (c / 2 ^ 6)
          ∷ tail_byte c
          ∷ s)
        (c / 2 ^ 30)
      ≡ c
unfolding join
join_five c s =
    join-tail 4 (c / 2 ^ 24)
      (tail_byte (c / 2 ^ 18) ∷ tail_byte (c / 2 ^ 12) ∷ tail_byte (c / 2 ^ 6) ∷ tail_byte c ∷ s)
      (c / 2 ^ 30)
    ∙ (ap
          (join 4 (
            tail_byte (c / 2 ^ 18)
            ∷ tail_byte (c / 2 ^ 12)
            ∷ tail_byte (c / 2 ^ 6)
            ∷ tail_byte c
            ∷ s))
          (bits_five c)
        ∙ join_four c s)
