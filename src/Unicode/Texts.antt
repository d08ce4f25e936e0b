-- ===== src/Unicode/Texts.antt =====
-- Strings of codes, each written by `put`, as `utf8` counts, copies and searches them.
use commoncpp.Common.{
  ℕ, zero, suc, ◌+◌, ◌^◌, ◌≤◌, ◌<◌, ◌≡◌, refl, sym, ap, ◌∙◌, arith, true, false, List, [], ◌∷◌,
  ◌++◌, some, ◌==◌, if◌then◌else◌, ltb, drop, length, length-append, Bool-cases, inl, inr,
}
use commoncpp.Unicode.{Text, first, size, codepoint, put}
use commoncpp.Unicode.Codes.{put-Reads, length-put_pos}
use commoncpp.Unicode.Strings.{
  count_loop, count, advance, offset, copied, udup_loop, udup, ccount_loop, ccount,
}

unfoldable pub encode : List ℕ → Text
encode [] = []
encode (c ∷ cs) = put c ++ encode cs

-- Codes that a `ucs4_t` holds, the terminator not among them.
unfoldable pub AreCodes : List ℕ → Type 0
AreCodes [] = Unit {0}
AreCodes (c ∷ cs) = (0 < c) × (c < 2 ^ 31) × AreCodes cs

unfoldable pub occurrences : ℕ → List ℕ → ℕ
occurrences code [] = 0
occurrences code (c ∷ cs) = (if c == code then 1 else 0) + occurrences code cs

pub append_assoc : (t s u : Text) → (t ++ s) ++ u ≡ t ++ (s ++ u)
append_assoc [] s u = refl
append_assoc (c ∷ t) s u = ap (λ l. c ∷ l) (append_assoc t s u)

pub drop-append : (t s : Text) → drop (length t) (t ++ s) ≡ s
drop-append [] s = refl
drop-append (c ∷ t) s = drop-append t s

length-encode_le : (cs : List ℕ) → length cs ≤ length (encode cs)
unfolding encode
length-encode_le [] = omega arith
length-encode_le (c ∷ cs) =
    omega (arith, length-put_pos c, length-append (put c) (encode cs), length-encode_le cs)

-- What a loop meets at the next code of a string.
record Next (c : ℕ) (s : Text) : Type 0 where
  goes_on : (first (put c ++ s) == 0) ≡ false
  has_size : (size (put c ++ s) == 0) ≡ false
  moves : drop (size (put c ++ s)) (put c ++ s) ≡ s
  points : codepoint (put c ++ s) ≡ some c
  sizes : size (put c ++ s) ≡ length (put c)

next : (c : ℕ) (s : Text) → 0 < c → c < 2 ^ 31 → Next c s
next c s lo hi =
    let r = put-Reads c s lo hi in
    record {
      goes_on = ground (arith, r.begins);
      has_size = ground (arith, r.sizes, length-put_pos c);
      moves = rw r.sizes (drop-append (put c) s);
      points = r.points;
      sizes = r.sizes;
    }

count_loop-encode :
    (fuel : ℕ) (cs : List ℕ) (pos : ℕ)
    → AreCodes cs
    → length cs ≤ fuel
    → count_loop fuel (encode cs) pos ≡ pos + length cs
unfolding count_loop encode AreCodes
count_loop-encode zero [] pos v h = omega arith
count_loop-encode zero (c ∷ cs) pos v h = absurd (omega arith)
count_loop-encode (suc fuel) [] pos v h = omega arith
count_loop-encode (suc fuel) (c ∷ cs) pos (lo, hi, v) h =
    let n = next c (encode cs) lo hi in
    rw (n.goes_on, n.has_size, n.moves)
      (omega (arith, count_loop-encode fuel cs (pos + 1) v (omega arith)))

-- `count` of a text of codes from 1 to 2 ^ 31 - 1, each written by `put`, is the number of the
-- codes.
pub count-encode : (cs : List ℕ) → AreCodes cs → count (encode cs) ≡ length cs
unfolding count
count-encode cs v =
    count_loop-encode (length (encode cs)) cs 0 v (length-encode_le cs) ∙ omega arith

udup_loop-encode :
    (fuel : ℕ) (cs : List ℕ)
    → AreCodes cs
    → length cs ≤ fuel
    → udup_loop fuel (encode cs) ≡ copied cs
unfolding udup_loop encode AreCodes
udup_loop-encode zero [] v h = refl
udup_loop-encode zero (c ∷ cs) v h = absurd (omega arith)
udup_loop-encode (suc fuel) [] v h = refl
udup_loop-encode (suc fuel) (c ∷ cs) (lo, hi, v) h =
    let n = next c (encode cs) lo hi in
    rw (n.goes_on, n.moves, n.points, udup_loop-encode fuel cs v (omega arith)) refl

-- `udup` of codes from 1 to 2 ^ 31 - 1, each written by `put`, gives the codes back, with the fuel
-- that the model takes.
pub udup-encode : (cs : List ℕ) → AreCodes cs → udup (encode cs) ≡ copied cs
unfolding udup
udup-encode cs v = udup_loop-encode (length (encode cs)) cs v (length-encode_le cs)

ccount_loop-encode :
    (fuel : ℕ) (cs : List ℕ) (code total : ℕ)
    → AreCodes cs
    → length cs ≤ fuel
    → ccount_loop fuel (encode cs) code total ≡ total + occurrences code cs
unfolding ccount_loop encode AreCodes occurrences
ccount_loop-encode zero [] code total v h = omega arith
ccount_loop-encode zero (c ∷ cs) code total v h = absurd (omega arith)
ccount_loop-encode (suc fuel) [] code total v h = omega arith
ccount_loop-encode (suc fuel) (c ∷ cs) code total (lo, hi, v) h =
    let n = next c (encode cs) lo hi in
    let total' : ℕ = if c == code then total + 1 else total in
    rw (n.goes_on, n.has_size, n.moves, n.points)
      (ground (arith, ccount_loop-encode fuel cs code total' v (omega arith)))

-- `ccount` of a text of codes from 1 to 2 ^ 31 - 1, each written by `put`, is the number of times
-- that the code is among them.
pub ccount-encode :
    (cs : List ℕ) (code : ℕ) → AreCodes cs → ccount (encode cs) code ≡ occurrences code cs
unfolding ccount
ccount-encode cs code v =
    ccount_loop-encode (length (encode cs)) cs code 0 v (length-encode_le cs) ∙ omega arith

AreCodes-append : (cs ds : List ℕ) → AreCodes cs → AreCodes ds → AreCodes (cs ++ ds)
unfolding AreCodes
AreCodes-append [] ds v w = w
AreCodes-append (c ∷ cs) ds (lo, hi, v) w = (lo, hi, AreCodes-append cs ds v w)

advance-encode :
    (cs ds : List ℕ) (at : ℕ)
    → AreCodes cs
    → advance (length cs) (encode (cs ++ ds)) at ≡ some (at + length (encode cs))
unfolding advance encode AreCodes
advance-encode [] ds at v = ap some (omega arith)
advance-encode (c ∷ cs) ds at (lo, hi, v) =
    let n = next c (encode (cs ++ ds)) lo hi in
    rw (n.has_size, n.moves, n.sizes)
      (advance-encode cs ds (at + length (put c)) v
        ∙ ap some (omega (arith, length-append (put c) (encode cs))))

encode-append : (cs ds : List ℕ) → encode (cs ++ ds) ≡ encode cs ++ encode ds
unfolding encode
encode-append [] ds = refl
encode-append (c ∷ cs) ds =
    ap (λ t. put c ++ t) (encode-append cs ds) ∙ sym (append_assoc (put c) (encode cs) (encode ds))

no_bytes : (cs : List ℕ) → (length cs == 0) ≡ true → 0 ≡ length (encode cs)
unfolding encode
no_bytes [] e = refl
no_bytes (c ∷ cs) e = absurd (ground (arith, e))

-- `offset` of a position in a text of codes from 1 to 2 ^ 31 - 1, each written by `put`, is the
-- place at which the text of the codes from that position on begins.
pub offset-encode :
    (cs ds : List ℕ)
    → AreCodes cs
    → AreCodes ds
    → (offset (encode (cs ++ ds)) (length cs) ≡ some (length (encode cs)))
      × (drop (length (encode cs)) (encode (cs ++ ds)) ≡ encode ds)
unfolding offset
offset-encode cs ds v w =
    let total : count (encode (cs ++ ds)) ≡ length cs + length ds =
      count-encode (cs ++ ds) (AreCodes-append cs ds v w) ∙ length-append cs ds in
    let enough : ltb (count (encode (cs ++ ds))) (length cs) ≡ false = ground (arith, total) in
    (
      rw enough (elim (Bool-cases (length cs == 0)) [
        | inl e ↦ rw e (ap some (no_bytes cs e))
        | inr e ↦ rw e (advance-encode cs ds 0 v ∙ ap some (omega arith))
      ]),
      rw (encode-append cs ds) (drop-append (encode cs) (encode ds)),
    )
