-- ===== src/Numbers.antt =====
-- corelib/numbers.cpp: numbers held as text in a field of a caller's buffer.
-- A `Number` is the place of its field, the buffer is passed along. Reads past the end of the
-- buffer give the terminator; `none` is the loop of the code whose counter starts below one.
pub mod Fields
pub mod Padded
pub mod Blanks
pub mod Leading
pub mod Trimmed
pub mod Signs
mod Examples
use commoncpp.Common.{
  ℕ, zero, suc, ◌+◌, ◌-◌, ◌*◌, ◌/◌, ◌%◌, Bool, true, false, ◌&&◌, ◌||◌, List, Option, none, some,
  ltb, leb, ◌==◌, if◌then◌else◌, ◌>>=◌, get_or, set,
}
use commoncpp.Common.Int.{ℤ, pos, negsuc, ◌+ℤ◌, ◌-ℤ◌}

abbrev pub Buffer : Type 0
Buffer = List ℕ

abbrev pub char_at : Buffer → ℕ → ℕ
char_at b i = get_or b i 0

pub record Number : Type 0 where
  pub buffer : ℕ
  pub size : ℕ

-- The constructor, which ZNumber's calls too.
unfoldable pub number : ℕ → ℕ → Number
number buf width =
    let width' = if ltb 10 width then 10 else width in
    record { buffer = buf; size = if ltb width' 1 then 1 else width' }

abbrev pub is_digit : ℕ → Bool
is_digit c = leb b'0' c && leb c b'9'

-- The loop of `Number::get`, with `count` chars left at `bp`.
unfoldable pub read_digits : ℕ → Buffer → ℕ → ℕ → ℕ
read_digits zero b bp ret = ret
read_digits (suc count) b bp ret =
    let rest = read_digits count b (bp + 1) (ret * 10 + (char_at b bp - b'0')) in
    if is_digit (char_at b bp) then rest else ret

abbrev negate : ℕ → ℤ
negate zero = pos 0
negate (suc n) = negsuc n

unfoldable pub get : Number → Buffer → ℤ
unfolding read_digits
get n b =
    let c = char_at b n.buffer in
    if c == b'-'
    then negate (read_digits (n.size - 1) b (n.buffer + 1) 0)
    else if c == b'+'
    then pos (read_digits (n.size - 1) b (n.buffer + 1) 0)
    else pos (read_digits n.size b n.buffer 0)

-- `exp = count; while(--exp) max *= 10;`
unfoldable pub scale : ℕ → ℕ → Option ℕ
scale zero max = none
scale (suc zero) max = some max
scale (suc (suc exp)) max = scale (suc exp) (max * 10)

-- What the first loop of `Number::set` leaves: the chars left, the next place, the text.
pub record Cursor : Type 0 where
  pub count : ℕ
  pub bp : ℕ
  pub text : Buffer

-- The char of the leading digit, `'0' + (char)(value / max)`.
abbrev pub lead : ℕ → ℕ → ℕ
lead value max = (b'0' + value / max) % 256

-- The loop `while(max)` of `Number::set`; the fuel bounds the decimal digits of `max`.
unfoldable pub put_trim : ℕ → ℕ → ℕ → Bool → Cursor → Cursor
put_trim zero max value z c = c
put_trim (suc fuel) max value z c =
    let written = record c {
      count = c.count - 1;
      bp = c.bp + 1;
      text = set c.text c.bp (lead value max);
    } in
    let c' = if leb max value || z then written else c in
    let left = if leb max value then value - value / max * max else value in
    let rest = put_trim fuel (max / 10) left (leb max value || z) c' in if max == 0 then c else rest

-- `while(count-- && *bp >= '0' && *bp <= '9') *(bp++) = ' ';`
unfoldable pub blank : ℕ → ℕ → Buffer → Buffer
blank zero bp b = b
blank (suc count) bp b =
    let rest = blank count (bp + 1) (set b bp b' ') in if is_digit (char_at b bp) then rest else b

abbrev finish : Cursor → Buffer
finish c = blank c.count c.bp c.text

-- `Number::set` past the sign.
unfoldable pub set_digits : ℕ → ℕ → ℕ → Buffer → Option Buffer
unfolding scale put_trim blank
set_digits count bp value b = do
  max ← scale count 1
  some (finish (put_trim count max value false (record { count = count; bp = bp; text = b })))

unfoldable pub number_set : Number → ℤ → Buffer → Option Buffer
unfolding set_digits
number_set n (pos v) b = set_digits n.size n.buffer v b
number_set n (negsuc v) b = set_digits (n.size - 1) (n.buffer + 1) (suc v) (set b n.buffer b'-')

-- `ZNumber::set` past the sign: the loop, with fuel as above, and the call of it.
unfoldable pub put_digits : ℕ → ℕ → ℕ → ℕ → Buffer → Buffer
put_digits zero max value bp b = b
put_digits (suc fuel) max value bp b =
    let rest =
      put_digits fuel (max / 10) (value - value / max * max) (bp + 1) (set b bp (lead value max)) in
    if max == 0 then b else rest

unfoldable pub zset_digits : ℕ → ℕ → ℕ → Buffer → Option Buffer
unfolding scale put_digits
zset_digits count bp value b = do max ← scale count 1; some (put_digits count max value bp b)

unfoldable pub znumber_set : Number → ℤ → Buffer → Option Buffer
unfolding zset_digits
znumber_set n (pos v) b = zset_digits n.size n.buffer v b
znumber_set n (negsuc v) b = zset_digits (n.size - 1) (n.buffer + 1) (suc v) (set b n.buffer b'-')

-- The operators return the value that they were asked to store, not what `get` reads back.
abbrev store : Number → ℤ → Buffer → Option (ℤ × Buffer)
store n v b = do b' ← number_set n v b; some (v, b')

unfoldable pub add_assign : Number → ℤ → Buffer → Option (ℤ × Buffer)
add_assign n v b = store n (get n b +ℤ v) b

unfoldable pub sub_assign : Number → ℤ → Buffer → Option (ℤ × Buffer)
sub_assign n v b = store n (get n b -ℤ v) b

unfoldable pub increment : Number → Buffer → Option (ℤ × Buffer)
increment n b = store n (get n b +ℤ pos 1) b

unfoldable pub decrement : Number → Buffer → Option (ℤ × Buffer)
decrement n b = store n (get n b -ℤ pos 1) b

-- `operator=(const Number&)` returns what it reads back; the two fields share the buffer's list.
unfoldable pub assign_number : Number → Number → Buffer → Option (ℤ × Buffer)
assign_number n num b = do b' ← number_set n (get num b) b; some (get n b', b')
