-- ===== src/Date/Text.antt =====
-- The text that `Date::put` writes, "YYYY-MM-DD", and what the other members read from it.
use native.Mathlib.Decide.{dec_lt}
use commoncpp.Common.{
  ℕ, ◌+◌, ◌≤◌, ◌<◌, ◌≡◌, refl, ◌∙◌, some, arith, length, true, set, length-set, get_or-set_self,
  get_or-set_ne, ◌>>=◌, ◌⊎◌, inl, inr, ◌≢◌,
}
use commoncpp.Common.Int.{pos}
use commoncpp.Numbers.{Buffer, char_at, is_digit, get, number}
use commoncpp.Numbers.Fields.{get-congr}
use commoncpp.Numbers.Padded.{field, Holds, znumber_set-Holds}
use commoncpp.Date.{put_civil}

-- `c` is `b` with the text of a date from place `at`.
pub record IsoDate (at y m d : ℕ) (b c : Buffer) : Type 0 where
  pub year_reads : get (field at 3) c ≡ pos y
  pub month_reads : get (field (at + 5) 1) c ≡ pos m
  pub day_reads : get (field (at + 8) 1) c ≡ pos d
  pub first_dash : char_at c (at + 4) ≡ b'-'
  pub second_dash : char_at c (at + 7) ≡ b'-'
  pub end : char_at c (at + 10) ≡ 0
  pub digits :
      (i : ℕ) → at ≤ i → i < at + 10 → i ≢ at + 4 → i ≢ at + 7 → is_digit (char_at c i) ≡ true
  pub same_length : length c ≡ length b
  pub before : (i : ℕ) → i < at → char_at c i ≡ char_at b i
  pub after : (i : ℕ) → at + 11 ≤ i → char_at c i ≡ char_at b i

pub char_at-set_ne : (b : Buffer) (i j v : ℕ) → i ≢ j → char_at (set b i v) j ≡ char_at b j
char_at-set_ne b i j v h = get_or-set_ne b i j v 0 h

module _ (at y m d : ℕ) (b b1 b2 b3 : Buffer) (room : at + 11 ≤ length b)
    (h1 : Holds (field at 3) y (set (set b (at + 4) 45) (at + 7) 45) b1)
    (h2 : Holds (field (at + 5) 1) m b1 b2) (h3 : Holds (field (at + 8) 1) d b2 b3) where
  dashed : Buffer
  dashed = set (set b (at + 4) 45) (at + 7) 45

  dashed-length : length dashed ≡ length b
  unfolding dashed
  dashed-length = length-set _ _ _ ∙ length-set _ _ _

  -- A place that no field covers keeps what stood there before the fields were written.
  kept :
      (i : ℕ)
      → (i < at) ⊎ ((i ≡ at + 4) ⊎ ((i ≡ at + 7) ⊎ (at + 11 ≤ i)))
      → char_at (set b3 (at + 10) 0) i ≡ char_at dashed i
  unfolding dashed
  kept i (inl h) =
      char_at-set_ne b3 (at + 10) i 0 (omega arith)
      ∙ (h3.before i (omega arith) ∙ (h2.before i (omega arith) ∙ h1.before i h))
  kept i (inr (inl e)) =
      char_at-set_ne b3 (at + 10) i 0 (omega arith)
      ∙ (h3.before i (omega arith) ∙ (h2.before i (omega arith) ∙ h1.after i (omega arith)))
  kept i (inr (inr (inl e))) =
      char_at-set_ne b3 (at + 10) i 0 (omega arith)
      ∙ (h3.before i (omega arith) ∙ (h2.after i (omega arith) ∙ h1.after i (omega arith)))
  kept i (inr (inr (inr h))) =
      char_at-set_ne b3 (at + 10) i 0 (omega arith)
      ∙ (h3.after i (omega arith) ∙ (h2.after i (omega arith) ∙ h1.after i (omega arith)))

  abbrev final : Buffer
  final = set b3 (at + 10) 0

  in_year : (i : ℕ) → at ≤ i → i < at + 4 → char_at final i ≡ char_at b1 i
  in_year i lo hi =
      char_at-set_ne b3 (at + 10) i 0 (omega arith)
      ∙ (h3.before i (omega arith) ∙ h2.before i (omega arith))

  in_month : (i : ℕ) → at + 5 ≤ i → i < at + 5 + 2 → char_at final i ≡ char_at b2 i
  in_month i lo hi = char_at-set_ne b3 (at + 10) i 0 (omega arith) ∙ h3.before i (omega arith)

  in_day : (i : ℕ) → at + 8 ≤ i → i < at + 8 + 2 → char_at final i ≡ char_at b3 i
  in_day i lo hi = char_at-set_ne b3 (at + 10) i 0 (omega arith)

  final-is_digit :
      (i : ℕ) → at ≤ i → i < at + 10 → i ≢ at + 4 → i ≢ at + 7 → is_digit (char_at final i) ≡ true
  final-is_digit i lo hi n4 n7 = elim (dec_lt i (at + 4)) [
    | yes p ↦ rw (in_year i lo p) (h1.digits i lo p)
    | no p ↦ elim (dec_lt i (at + 7)) [
      | yes q ↦
          rw (in_month i (omega arith) (omega arith)) (h2.digits i (omega arith) (omega arith))
      | no q ↦ rw (in_day i (omega arith) (omega arith)) (h3.digits i (omega arith) (omega arith))
    ]
  ]

  final-IsoDate : IsoDate at y m d b final
  unfolding dashed
  final-IsoDate = record {
    year_reads = get-congr (field at 3) final b1 (omega arith) in_year ∙ h1.reads;
    month_reads = get-congr (field (at + 5) 1) final b2 (omega arith) in_month ∙ h2.reads;
    day_reads = get-congr (field (at + 8) 1) final b3 (omega arith) in_day ∙ h3.reads;
    first_dash =
        kept (at + 4) (inr (inl refl))
        ∙ (char_at-set_ne _ (at + 7) (at + 4) 45 (omega arith)
            ∙ get_or-set_self b (at + 4) 45 0 (omega arith));
    second_dash =
        kept (at + 7) (inr (inr (inl refl)))
        ∙ get_or-set_self _ (at + 7) 45 0 (omega (arith, length-set b (at + 4) 45));
    end =
        get_or-set_self b3 (at + 10) 0 0
          (omega (arith, h1.same_length, h2.same_length, h3.same_length, dashed-length));
    digits = final-is_digit;
    same_length =
        length-set b3 (at + 10) 0
        ∙ (h3.same_length ∙ (h2.same_length ∙ (h1.same_length ∙ dashed-length)));
    before = λ i h.
        kept i (inl h)
        ∙ (char_at-set_ne _ (at + 7) i 45 (omega arith)
            ∙ char_at-set_ne b (at + 4) i 45 (omega arith));
    after = λ i h.
        kept i (inr (inr (inr h)))
        ∙ (char_at-set_ne _ (at + 7) i 45 (omega arith)
            ∙ char_at-set_ne b (at + 4) i 45 (omega arith));
  }

pub put_civil-IsoDate :
    (at y m d : ℕ) (b : Buffer)
    → y < 10000
    → m < 100
    → d < 100
    → at + 11 ≤ length b
    → (c : Buffer) × (put_civil (record { year = pos y; month = pos m; day = pos d }) at b ≡ some c)
      × IsoDate at y m d b c
unfolding put_civil number
put_civil-IsoDate at y m d b hy hm hd room =
    let dash : Buffer = set (set b (at + 4) 45) (at + 7) 45 in
    let len : length dash ≡ length b = length-set _ _ _ ∙ length-set _ _ _ in
    let (b1, e1, h1) = znumber_set-Holds at 3 y dash hy (omega arith) in
    let (b2, e2, h2) = znumber_set-Holds (at + 5) 1 m b1 hm (omega (arith, h1.same_length)) in
    let (b3, e3, h3) =
      znumber_set-Holds (at + 8) 1 d b2 hd (omega (arith, h1.same_length, h2.same_length)) in
    (
      set b3 (at + 10) 0,
      rw (e1, ◌>>=◌, e2, e3) refl,
      final-IsoDate at y m d b b1 b2 b3 room h1 h2 h3,
    )
