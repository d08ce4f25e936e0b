-- ===== src/IsoTime/Examples.antt =====
-- A date that shows 2024-02-29 is read over with 1999-12-31.
use commoncpp.Common.{ℕ, refl, List, [], ◌∷◌, ◌++◌, replicate}
use commoncpp.Date.{Tm, set_date}
use commoncpp.Time.{unset}
use commoncpp.Common.Int.{pos}
use commoncpp.IsoTime.{IsoTime, date}
use commoncpp.IsoTime.Feeding.{SameForm, last_digit, digit, other}

abbrev now : Tm
now = record {
  tm_year = pos 124;
  tm_mon = pos 0;
  tm_mday = pos 1;
  tm_hour = pos 0;
  tm_min = pos 0;
  tm_sec = pos 0;
}

abbrev old_text : List ℕ
old_text = b'2' ∷ b'0' ∷ b'2' ∷ b'4' ∷ b'-' ∷ b'0' ∷ b'2' ∷ b'-' ∷ b'2' ∷ b'9' ∷ []

abbrev new_text : List ℕ
new_text = b'1' ∷ b'9' ∷ b'9' ∷ b'9' ∷ b'-' ∷ b'1' ∷ b'2' ∷ b'-' ∷ b'3' ∷ b'1' ∷ []

abbrev reader : IsoTime
reader = record {
  d = set_date (pos 2024) (pos 2) (pos 29);
  t = unset;
  mode = date;
  pos = 0;
  buf = old_text ++ (0 ∷ replicate 21 0);
}

same_form : SameForm new_text old_text
same_form = digit b'1' b'2' refl refl (
    digit b'9' b'0' refl refl (
      digit b'9' b'2' refl refl (
        digit b'9' b'4' refl refl (
          other b'-' refl refl (
            digit b'1' b'0' refl refl (
              digit b'2' b'2' refl refl (
                other b'-' refl refl
                  (digit b'3' b'2' refl refl (last_digit b'1' b'9' refl refl)))))))))
