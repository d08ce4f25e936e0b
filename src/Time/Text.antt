-- ===== src/Time/Text.antt =====
-- The text that `Time::put` writes, "HH:MM:SS", and the reading of it by `Time::set`.
use native.Mathlib.Decide.{dec_lt, ℕ_discrete}
use commoncpp.Common.{
  ℕ, ◌+◌, ◌/◌, ◌%◌, ◌≤◌, ◌<◌, ◌≡◌, ◌≢◌, ◌⊎◌, inl, inr, refl, ap, ◌∙◌, some, arith, length, true,
  set, drop, length-set, get_or-set_self, get_or-drop, ◌>>=◌, ◌==◌, if◌then◌else◌,
}
use commoncpp.Common.Int.{pos, ◌-ℤ◌, ◌*ℤ◌, ◌/ℤ◌, ◌%ℤ◌}
use commoncpp.Numbers.{Buffer, char_at, is_digit, get, number}
use commoncpp.Numbers.Fields.{get-congr}
use commoncpp.Numbers.Padded.{field, Holds, znumber_set-Holds}
use commoncpp.Date.{strlen}
use commoncpp.Date.Text.{char_at-set_ne}
use commoncpp.Date.RoundTrip.{strlen-eq, digit-ne_zero}
use commoncpp.Time.{c_day, put, set_text, set_time}
use commoncpp.Time.Laws.{at_second, set_time-pos}

-- `c` is `b` with the text of a time from place `at`.
pub record IsoTime (at h m s : ℕ) (b c : Buffer) : Type 0 where
  pub hour_reads : get (field at 1) c ≡ pos h
  pub minute_reads : get (field (at + 3) 1) c ≡ pos m
  pub second_reads : get (field (at + 6) 1) c ≡ pos s
  pub first_colon : char_at c (at + 2) ≡ b':'
  pub second_colon : char_at c (at + 5) ≡ b':'
  pub end : char_at c (at + 8) ≡ 0
  pub digits :
      (i : ℕ) → at ≤ i → i < at + 8 → i ≢ at + 2 → i ≢ at + 5 → is_digit (char_at c i) ≡ true
  pub same_length : length c ≡ length b
  pub before : (i : ℕ) → i < at → char_at c i ≡ char_at b i
  pub after : (i : ℕ) → at + 9 ≤ i → char_at c i ≡ char_at b i

abbrev coloned : ℕ → Buffer → Buffer
coloned at b = set (set b (at + 2) 58) (at + 5) 58

module _ (at h m s : ℕ) (b b1 b2 b3 : Buffer) (room : at + 9 ≤ length b)
    (h1 : Holds (field at 1) h (coloned at b) b1) (h2 : Holds (field (at + 3) 1) m b1 b2)
    (h3 : Holds (field (at + 6) 1) s b2 b3) where
  coloned-length : length (coloned at b) ≡ length b
  coloned-length = length-set _ _ _ ∙ length-set _ _ _

  abbrev final : Buffer
  final = set b3 (at + 8) 0

  -- A place that no field covers keeps what stood there before the fields were written.
  kept :
      (i : ℕ)
      → (i < at) ⊎ ((i ≡ at + 2) ⊎ ((i ≡ at + 5) ⊎ (at + 9 ≤ i)))
      → char_at final i ≡ char_at (coloned at b) i
  kept i (inl p) =
      char_at-set_ne b3 (at + 8) i 0 (omega arith)
      ∙ (h3.before i (omega arith) ∙ (h2.before i (omega arith) ∙ h1.before i p))
  kept i (inr (inl e)) =
      char_at-set_ne b3 (at + 8) i 0 (omega arith)
      ∙ (h3.before i (omega arith) ∙ (h2.before i (omega arith) ∙ h1.after i (omega arith)))
  kept i (inr (inr (inl e))) =
      char_at-set_ne b3 (at + 8) i 0 (omega arith)
      ∙ (h3.before i (omega arith) ∙ (h2.after i (omega arith) ∙ h1.after i (omega arith)))
  kept i (inr (inr (inr p))) =
      char_at-set_ne b3 (at + 8) i 0 (omega arith)
      ∙ (h3.after i (omega arith) ∙ (h2.after i (omega arith) ∙ h1.after i (omega arith)))

  in_hour : (i : ℕ) → at ≤ i → i < at + 2 → char_at final i ≡ char_at b1 i
  in_hour i lo hi =
      char_at-set_ne b3 (at + 8) i 0 (omega arith)
      ∙ (h3.before i (omega arith) ∙ h2.before i (omega arith))

  in_minute : (i : ℕ) → at + 3 ≤ i → i < at + 3 + 2 → char_at final i ≡ char_at b2 i
  in_minute i lo hi = char_at-set_ne b3 (at + 8) i 0 (omega arith) ∙ h3.before i (omega arith)

  in_second : (i : ℕ) → at + 6 ≤ i → i < at + 6 + 2 → char_at final i ≡ char_at b3 i
  in_second i lo hi = char_at-set_ne b3 (at + 8) i 0 (omega arith)

  final-is_digit :
      (i : ℕ) → at ≤ i → i < at + 8 → i ≢ at + 2 → i ≢ at + 5 → is_digit (char_at final i) ≡ true
  final-is_digit i lo hi n2 n5 = elim (dec_lt i (at + 2)) [
    | yes p ↦ rw (in_hour i lo p) (h1.digits i lo p)
    | no p ↦ elim (dec_lt i (at + 5)) [
      | yes q ↦
          rw (in_minute i (omega arith) (omega arith)) (h2.digits i (omega arith) (omega arith))
      | no q ↦
          rw (in_second i (omega arith) (omega arith)) (h3.digits i (omega arith) (omega arith))
    ]
  ]

  final-IsoTime : IsoTime at h m s b final
  final-IsoTime = record {
    hour_reads = get-congr (field at 1) final b1 (omega arith) in_hour ∙ h1.reads;
    minute_reads = get-congr (field (at + 3) 1) final b2 (omega arith) in_minute ∙ h2.reads;
    second_reads = get-congr (field (at + 6) 1) final b3 (omega arith) in_second ∙ h3.reads;
    first_colon =
        kept (at + 2) (inr (inl refl))
        ∙ (char_at-set_ne _ (at + 5) (at + 2) 58 (omega arith)
            ∙ get_or-set_self b (at + 2) 58 0 (omega arith));
    second_colon =
        kept (at + 5) (inr (inr (inl refl)))
        ∙ get_or-set_self _ (at + 5) 58 0 (omega (arith, length-set b (at + 2) 58));
    end =
        get_or-set_self b3 (at + 8) 0 0
          (omega (arith, h1.same_length, h2.same_length, h3.same_length, coloned-length));
    digits = final-is_digit;
    same_length =
        length-set b3 (at + 8) 0
        ∙ (h3.same_length ∙ (h2.same_length ∙ (h1.same_length ∙ coloned-length)));
    before = λ i p.
        kept i (inl p)
        ∙ (char_at-set_ne _ (at + 5) i 58 (omega arith)
            ∙ char_at-set_ne b (at + 2) i 58 (omega arith));
    after = λ i p.
        kept i (inr (inr (inr p)))
        ∙ (char_at-set_ne _ (at + 5) i 58 (omega arith)
            ∙ char_at-set_ne b (at + 2) i 58 (omega arith));
  }

-- The three values that `Time::put` stores.
hour_value : (s : ℕ) → s < c_day → (pos s /ℤ 3600) %ℤ 24 ≡ pos (s / 3600)
unfolding ◌/ℤ◌ ◌%ℤ◌
hour_value s h = ground arith

minute_value : (s : ℕ) → (pos s -ℤ 3600 *ℤ pos (s / 3600)) /ℤ 60 ≡ pos (s / 60 % 60)
unfolding ◌-ℤ◌ ◌*ℤ◌ ◌/ℤ◌
minute_value s = ground arith

second_value : (s : ℕ) → pos s -ℤ 3600 *ℤ pos (s / 3600) -ℤ 60 *ℤ pos (s / 60 % 60) ≡ pos (s % 60)
unfolding ◌-ℤ◌ ◌*ℤ◌
second_value s = ground arith

-- `Time::put` writes the hour, the minute and the second of a time of the day.
pub put-IsoTime :
    (s at : ℕ) (b : Buffer)
    → s < c_day
    → at + 9 ≤ length b
    → (c : Buffer) × (put (at_second s) at b ≡ some c)
      × IsoTime at (s / 3600) (s / 60 % 60) (s % 60) b c
unfolding put number
put-IsoTime s at b hs room =
    let len : length (coloned at b) ≡ length b = length-set _ _ _ ∙ length-set _ _ _ in
    let (b1, e1, h1) =
      znumber_set-Holds at 1 (s / 3600) (coloned at b) (omega arith) (omega arith) in
    let (b2, e2, h2) =
      znumber_set-Holds (at + 3) 1 (s / 60 % 60) b1 (omega arith) (omega (arith, h1.same_length)) in
    let (b3, e3, h3) =
      znumber_set-Holds (at + 6) 1 (s % 60) b2 (omega arith)
        (omega (arith, h1.same_length, h2.same_length)) in
    let r : get (field at 1) b2 ≡ pos (s / 3600) =
      get-congr (field at 1) b2 b1 (omega arith) (λ i lo hi. h2.before i (omega arith))
      ∙ h1.reads in
    (
      set b3 (at + 8) 0,
      rw (hour_value s hs, e1, ◌>>=◌, h1.reads, minute_value s, e2, r, h2.reads, second_value s, e3)
          refl,
      final-IsoTime at (s / 3600) (s / 60 % 60) (s % 60) b b1 b2 b3 room h1 h2 h3,
    )

module _ (at h m s : ℕ) (b c : Buffer) (iso : IsoTime at h m s b c) where
  pub text_char : (i : ℕ) → i < 8 → char_at (drop at c) i ≢ 0
  text_char i hi = rw (get_or-drop at i c 0) (elim (ℕ_discrete i 2) [
    | yes p ↦ rw p (λ e. omega (arith, iso.first_colon))
    | no p ↦ elim (ℕ_discrete i 5) [
      | yes q ↦ rw q (λ e. omega (arith, iso.second_colon))
      | no q ↦
          digit-ne_zero c (at + i)
            (iso.digits (at + i) (omega arith) (omega arith) (omega arith) (omega arith))
    ]
  ])

  strlen-IsoTime : strlen (drop at c) ≡ 8
  strlen-IsoTime = strlen-eq 8 (drop at c) text_char (get_or-drop at 8 c 0 ∙ iso.end)

  text_size :
      (size : ℕ) → (size ≡ 0) ⊎ (size ≡ 8) → (if size == 0 then strlen (drop at c) else size) ≡ 8
  text_size size (inl e) = rw e strlen-IsoTime
  text_size size (inr e) = rw e refl

  pub set_text-IsoTime :
      (size : ℕ) → (size ≡ 0) ⊎ (size ≡ 8) → set_text c at size ≡ set_time (pos h) (pos m) (pos s)
  unfolding set_text number
  set_text-IsoTime size e =
      rw (text_size size e, iso.hour_reads, iso.minute_reads, iso.second_reads) refl

-- For a second of the day and a buffer with 9 chars from the given place on, `Time::put` writes a
-- text that `Time::set` reads back as the same time, whether its size is given as 8 or left to be
-- found.
pub time_text-put :
    (s at size : ℕ) (b : Buffer)
    → (size ≡ 0) ⊎ (size ≡ 8)
    → s < c_day
    → at + 9 ≤ length b
    → (c : Buffer) × (put (at_second s) at b ≡ some c) × (set_text c at size ≡ at_second s)
time_text-put s at size b h hs room =
    let (c, e, iso) = put-IsoTime s at b hs room in
    (
      c,
      e,
      set_text-IsoTime at (s / 3600) (s / 60 % 60) (s % 60) b c iso size h
          ∙ (set_time-pos (s / 3600) (s / 60 % 60) (s % 60) (omega arith) (omega arith)
                (omega arith)
              ∙ ap at_second (omega arith)),
    )
