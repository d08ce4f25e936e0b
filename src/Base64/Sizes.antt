-- ===== src/Base64/Sizes.antt =====
-- The sizes of what `b64encode` and `b64decode` write.
use Prim.Native.Nat.{bit_and}
use commoncpp.Common.{
  ℕ, suc, ◌+◌, ◌-◌, ◌*◌, ◌/◌, ◌≤◌, ◌<◌, ◌≡◌, ◌≢◌, refl, arith, Bool, true, false, List, [], ◌∷◌,
  ltb, leb, ◌==◌, if◌then◌else◌, get_or, length, length-append, inl, inr, Bool-cases,
}
use commoncpp.Hex.{is_space}
use commoncpp.Base64.{
  decode, b64size, four, tail_one, tail_two, encode_from, width, b64encode, written, three,
  last_bytes, Step, stops, passes, takes, decode_round, decode_from, b64decode,
}

-- The bytes for which there is room: three for four chars, besides the terminator.
abbrev pub room : ℕ → ℕ
room dsize = 3 * ((dsize - 1) / 4)

abbrev Fits : List ℕ → ℕ → List ℕ × ℕ → Type 0
Fits bin dsize (out, count) =
    (length out ≡ 4 * ((count + 2) / 3) + 1)
    × (count ≡ (if leb (length bin) (room dsize) then length bin else room dsize))

encode_from-Fits : (bin : List ℕ) (dsize : ℕ) → 0 < dsize → Fits bin dsize (encode_from bin dsize)
unfolding encode_from tail_one tail_two four
encode_from-Fits [] dsize p = (refl, ground arith)
encode_from-Fits (a ∷ []) dsize p = elim (Bool-cases (ltb 4 dsize)) [
  | inl e ↦ rw e (refl, ground (arith, e))
  | inr e ↦ rw e (refl, ground (arith, e, p))
]
encode_from-Fits (a ∷ b ∷ []) dsize p = elim (Bool-cases (ltb 4 dsize)) [
  | inl e ↦ rw e (refl, ground (arith, e))
  | inr e ↦ rw e (refl, ground (arith, e, p))
]
encode_from-Fits (a ∷ b ∷ c ∷ bin) dsize p = elim (Bool-cases (ltb 4 dsize)) [
  | inl e ↦
      let (f, g) = encode_from-Fits bin (dsize - 4) (ground (arith, e)) in
      rw e (omega (arith, f), ground (arith, e, g))
  | inr e ↦ rw e (refl, ground (arith, e, p))
]

-- `b64encode` writes no more chars than the width, or than `b64size` where that is 0: four for each
-- three bytes that it counts, begun ones included, and the terminator. It counts all bytes if the
-- width is 0, else those up to three for each four chars that the width has besides the terminator.
pub length-b64encode :
    (bin : List ℕ) (dsize : ℕ)
    → (length (b64encode bin dsize).0 ≤ width bin dsize)
      × (length (b64encode bin dsize).0 ≡ 4 * (((b64encode bin dsize).1 + 2) / 3) + 1)
      × ((b64encode bin dsize).1 ≡ (
          if dsize == 0
          then length bin
          else if leb (length bin) (room dsize)
          then length bin
          else room dsize))
unfolding b64encode b64size
length-b64encode bin dsize =
    let (f, g) = encode_from-Fits bin (width bin dsize) (ground arith) in
    (ground (arith, f, g), f, ground (arith, g))

last_bytes-size : (bits size : ℕ) → length (last_bytes bits size) ≤ size
unfolding last_bytes
last_bytes-size bits size = ground arith

-- Both branches of a test.
if-holds :
    {A : Type 0}
    → (P : A → Type 0) (b : Bool) (x y : A) → (b ≡ true → P x)
    → (b ≡ false → P y)
    → P (if b then x else y)
if-holds P true x y f g = f refl
if-holds P false x y f g = g refl

-- A round has read the chars that it counts, and had the size for what it writes.
abbrev Sized : ℕ → ℕ → Step → Type 0
Sized after size (stops n left) = (n ≤ 2) × (after ≢ 0x3d → n ≤ 1)
Sized after size passes = Unit {0}
Sized after size (takes next left bytes) = left + length bytes ≤ size

decode_round-Sized :
    (ws : Bool) (c after bits size : ℕ) → Sized after size (decode_round ws c after bits size)
unfolding decode_round
decode_round-Sized ws c after bits size =
    let P = Sized after size in
    let next : ℕ = bits * 0x40 + decode c in
    let last : Step = if ltb size 3 then stops 1 1 else takes 1 (size - 3) (three next) in
    let more : Step = if bit_and next 0x1000000 == 0 then takes next size [] else last in
    let known : Step = if decode c == 64 then stops 0 bits else more in
    let pad : Step = stops (if after == 0x3d then 2 else 1) bits in
    let blank : Step = if ws then passes else stops 0 bits in
    let none_read : P (stops 0 bits) = (omega arith, λ n. omega arith) in
    if-holds P (is_space c) blank (if c == 0x3d then pad else known)
      (λ e. if-holds P ws passes (stops 0 bits) (λ e. tt) (λ e. none_read))
      (λ e.
        if-holds P (c == 0x3d) pad known (λ e. (ground arith, λ n. ground arith))
          (λ e.
            if-holds P (decode c == 64) (stops 0 bits) more (λ e. none_read)
              (λ e.
                if-holds P (bit_and next 0x1000000 == 0) (takes next size []) last
                  (λ e. omega arith)
                  (λ e.
                    if-holds P (ltb size 3) (stops 1 1) (takes 1 (size - 3) (three next))
                      (λ e. (omega arith, λ n. omega arith)) (λ e. ground (arith, e))))))

decode_from-size :
    (ws : Bool) (src : List ℕ) (bits size count : ℕ)
    → (length (decode_from ws src bits size count).1 ≤ size)
      × ((decode_from ws src bits size count).0 ≤ count + length src)
unfolding decode_from
decode_from-size ws [] bits size count = (last_bytes-size bits size, omega arith)
decode_from-size ws (c ∷ src) bits size count =
    by_step (decode_round ws c (get_or src 0 0) bits size)
      (decode_round-Sized ws c (get_or src 0 0) bits size) (decode_from-size ws src)
  where
    seen : (src : List ℕ) (n : ℕ) → n ≤ 2 → (get_or src 0 0 ≢ 0x3d → n ≤ 1) → n ≤ suc (length src)
    seen [] n l f = f (ground arith)
    seen (x ∷ src) n l f = omega (arith, l)

    by_step :
        (s : Step)
        → Sized (get_or src 0 0) size s
        → ((bits size count : ℕ)
            → (length (decode_from ws src bits size count).1 ≤ size)
              × ((decode_from ws src bits size count).0 ≤ count + length src))
        → let r : ℕ × List ℕ = elim s [
          | stops n left ↦ (count + n, last_bytes left size)
          | passes ↦ decode_from ws src bits size (count + 1)
          | takes next left bytes ↦ written bytes (decode_from ws src next left (count + 1))
        ] in
          (length r.1 ≤ size) × (r.0 ≤ count + suc (length src))
    by_step (stops n left) (l, f) ih = (last_bytes-size left size, omega (arith, seen src n l f))
    by_step passes u ih = let (l, m) = ih bits size (count + 1) in (l, omega (arith, m))
    by_step (takes next left bytes) f ih =
        let (l, m) = ih next left (count + 1) in
        (
          omega (arith, f, l, length-append bytes (decode_from ws src next left (count + 1)).1),
          omega (arith, m),
        )

-- Whatever the text, `b64decode` writes no more bytes than the size it is given, and counts no more
-- chars than the text has.
pub b64decode-size :
    (src : List ℕ) (size : ℕ) (ws : Bool)
    → (length (b64decode src size ws).1 ≤ size) × ((b64decode src size ws).0 ≤ length src)
unfolding b64decode
b64decode-size src size ws = let (l, m) = decode_from-size ws src 1 size 0 in (l, omega (arith, m))
