-- ===== src/Unicode/Packing.antt =====
-- `pack` and `unpack`, which step over a text by the bytes that `chars` says.
use commoncpp.Common.{
  ℕ, zero, suc, ◌+◌, ◌-◌, ◌%◌, ◌^◌, ◌≤◌, ◌<◌, ◌≡◌, ◌≢◌, refl, sym, ap, ◌∙◌, arith, false, not, ◌&&◌,
  List, [], ◌∷◌, ◌++◌, none, ◌==◌, ltb, drop, length, get_or, set, length-set, length-append,
  get_or-set_self, get_or-set_ne, subst, Bool-cases, inl, inr,
}
use commoncpp.Unicode.{Text, get, chars, put}
use commoncpp.Unicode.Codes.{put-Reads, length-put}
use commoncpp.Unicode.Strings.{pack, pack_loop, unpack, write}
use commoncpp.Unicode.Texts.{encode, AreCodes, drop-append, append_assoc}

-- The codes whose bytes `chars` counts right.
unfoldable pub AreCounted : List ℕ → Type 0
AreCounted [] = Unit {0}
AreCounted (c ∷ cs) = (c ≢ 0x80) × (c ≢ 0x7ff) × AreCounted cs

unfoldable pub take : ℕ → List ℕ → List ℕ
take zero cs = []
take (suc n) [] = []
take (suc n) (c ∷ cs) = c ∷ take n cs

get_end : get [] ≡ none
unfolding get
get_end = refl

pack_loop-encode :
    (room : ℕ) (cs : List ℕ)
    → AreCodes cs
    → AreCounted cs
    → pack_loop room (encode cs) ≡ take room cs
unfolding pack_loop encode take AreCodes AreCounted
pack_loop-encode zero cs v w = refl
pack_loop-encode (suc room) [] v w = rw (pack_loop, get_end) refl
pack_loop-encode (suc room) (c ∷ cs) (lo, hi, v) (x, y, w) =
    let r = put-Reads c (encode cs) lo hi in
    let z : (c == 0) ≡ false = ground arith in
    let moves : drop (chars c) (put c ++ encode cs) ≡ encode cs =
      ap (λ n. drop n (put c ++ encode cs)) (sym ((length-put c).0.1 (x, y)))
      ∙ drop-append (put c) (encode cs) in
    rw (pack_loop, r.gets, z, moves) (ap (λ l. c ∷ l) (pack_loop-encode room cs v w))

-- `pack` of a text of codes from 1 to 2 ^ 31 - 1 other than 0x80 and 0x7ff, each written by `put`,
-- stores the codes up to the room that it has besides the terminator.
pub pack-encode :
    (room : ℕ) (cs : List ℕ)
    → room + 1 < 2 ^ 64
    → AreCodes cs
    → AreCounted cs
    → pack (encode cs) (room + 1) ≡ take room cs
unfolding pack
pack-encode room cs h v w =
    let e : (room + 1 + 2 ^ 64 - 1) % 2 ^ 64 ≡ room = omega arith in
    rw e (pack_loop-encode room cs v w)

chars_le : (c : ℕ) → chars c ≤ 6
unfolding chars
chars_le c = ground arith

-- The memory `c` is `b` with a text written to it from place `at`.
pub record Written (at : ℕ) (t : Text) (b c : Text) : Type 0 where
  pub same_length : length c ≡ length b
  pub before : (i : ℕ) → i < at → get_or c i 0 ≡ get_or b i 0
  pub after : (i : ℕ) → at + length t ≤ i → get_or c i 0 ≡ get_or b i 0
  pub text : (i : ℕ) → i < length t → get_or c (at + i) 0 ≡ get_or t i 0

write-Written :
    (t : Text) (at : ℕ) (b : Text) → at + length t ≤ length b → Written at t b (write t at b)
unfolding write
write-Written [] at b room = record {
  same_length = refl;
  before = λ i h. refl;
  after = λ i h. refl;
  text = λ i h. absurd (omega arith);
}
write-Written (x ∷ t) at b room =
    let w = write-Written t (at + 1) (set b at x) (omega (arith, length-set b at x)) in
    record {
      same_length = w.same_length ∙ length-set b at x;
      before = λ i h. w.before i (omega arith) ∙ get_or-set_ne b at i x 0 (λ e. omega arith);
      after = λ i h. w.after i (omega arith) ∙ get_or-set_ne b at i x 0 (λ e. omega arith);
      text = chars_in w;
    }
  where
    chars_in :
        Written (at + 1) t (set b at x) (write t (at + 1) (set b at x))
        → (i : ℕ) → i < length (x ∷ t)
        → get_or (write t (at + 1) (set b at x)) (at + i) 0 ≡ get_or (x ∷ t) i 0
    chars_in w zero h =
        let e : at + 0 ≡ at = omega arith in
        rw e (w.before at (omega arith) ∙ get_or-set_self b at x 0 (omega arith))
    chars_in w (suc i) h =
        let e : at + suc i ≡ at + 1 + i = omega arith in rw e (w.text i (omega arith))

append_front : (t s : Text) (i : ℕ) → i < length t → get_or (t ++ s) i 0 ≡ get_or t i 0
append_front [] s i h = absurd (omega arith)
append_front (c ∷ t) s zero h = refl
append_front (c ∷ t) s (suc i) h = append_front t s i (omega arith)

append_back : (t s : Text) (i : ℕ) → get_or (t ++ s) (length t + i) 0 ≡ get_or s i 0
append_back [] s i = let e : 0 + i ≡ i = omega arith in rw e refl
append_back (c ∷ t) s i =
    let e : suc (length t) + i ≡ suc (length t + i) = omega arith in rw e (append_back t s i)

Written-append :
    (at : ℕ) (t s b c d : Text)
    → Written at t b c
    → Written (at + length t) s c d
    → Written at (t ++ s) b d
Written-append at t s b c d v w = record {
  same_length = w.same_length ∙ v.same_length;
  before = λ i h. w.before i (omega arith) ∙ v.before i h;
  after = λ i h.
      w.after i (omega (arith, length-append t s)) ∙ v.after i (omega (arith, length-append t s));
  text = λ i h. elim (Bool-cases (ltb i (length t))) [
    | inl e ↦
        w.before (at + i) (ground (arith, e))
        ∙ (v.text i (ground (arith, e)) ∙ sym (append_front t s i (ground (arith, e))))
    | inr e ↦
        let j : ℕ = i - length t in
        let k : i ≡ length t + j = ground (arith, e) in
        let m : at + (length t + j) ≡ at + length t + j = omega arith in
        let u : get_or d (at + length t + j) 0 ≡ get_or s j 0 =
          w.text j (ground (arith, e, length-append t s)) in
        let g : get_or d (at + (length t + j)) 0 ≡ get_or (t ++ s) (length t + j) 0 =
          ap (λ n. get_or d n 0) m ∙ (u ∙ sym (append_back t s j)) in
        subst (λ n. get_or d (at + n) 0 ≡ get_or (t ++ s) n 0) (sym k) g
  ];
}

-- Whatever size above 6 `unpack` is given, it writes every byte of the whole string and its
-- terminator from where its buffer begins, be they more bytes than the size, and leaves the rest of
-- the memory as it was, for codes from 1 to 2 ^ 31 - 1 other than 0x80 and 0x7ff, and a memory that
-- goes on far enough.
pub unpack-Written :
    (cs : List ℕ) (at bufsize : ℕ) (b : Text)
    → AreCodes cs
    → AreCounted cs
    → 6 < bufsize
    → at + length (encode cs) + 1 ≤ length b
    → Written at (encode cs ++ (0 ∷ [])) b (unpack cs at bufsize b).0
      × ((unpack cs at bufsize b).1 ≡ at + length (encode cs))
unfolding unpack write encode AreCodes AreCounted
unpack-Written [] at bufsize b v w h room = (write-Written (0 ∷ []) at b (omega arith), omega arith)
unpack-Written (c ∷ cs) at bufsize b (lo, hi, v) (x, y, w) h room =
    let fits : (not (bufsize == 0) && ltb (bufsize - 1) (chars c)) ≡ false =
      ground (arith, chars_le c) in
    let n : chars c ≡ length (put c) = sym ((length-put c).0.1 (x, y)) in
    let total = length-append (put c) (encode cs) in
    let first = write-Written (put c) at b (omega (arith, total)) in
    let (rest, stop) =
      unpack-Written cs (at + length (put c)) bufsize (write (put c) at b) v w h
        (omega (arith, total, first.same_length)) in
    rw (fits, n)
      (
        subst (λ t. Written at t b (unpack cs (at + length (put c)) bufsize (write (put c) at b)).0)
            (sym (append_assoc (put c) (encode cs) (0 ∷ [])))
            (Written-append at (put c) (encode cs ++ (0 ∷ [])) b (write (put c) at b)
              (unpack cs (at + length (put c)) bufsize (write (put c) at b)).0 first rest),
        omega (arith, stop, total),
      )
