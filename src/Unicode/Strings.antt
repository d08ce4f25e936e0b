-- ===== src/Unicode/Strings.antt =====
-- corelib/unicode.cpp, the functions of `utf8` that go over a whole string.
use commoncpp.Common.{
  ℕ, zero, suc, ◌+◌, ◌-◌, ◌%◌, ◌^◌, not, ◌&&◌, List, [], ◌∷◌, Option, none, some, ltb, leb, ◌==◌,
  if◌then◌else◌, drop, length, set,
}
use commoncpp.Unicode.{Text, first, size, codepoint, get, chars, put}

-- The loop of `count`; the fuel is the bytes of the string, as each round takes one at least.
unfoldable pub count_loop : ℕ → Text → ℕ → ℕ
count_loop zero s pos = pos
count_loop (suc fuel) s pos =
    let rest = count_loop fuel (drop (size s) s) (pos + 1) in
    if first s == 0 then pos else if size s == 0 then pos else rest

unfoldable pub count : Text → ℕ
count s = count_loop (length s) s 0

-- The loop of `offset`: the bytes to the place of a code.
unfoldable pub advance : ℕ → Text → ℕ → Option ℕ
advance zero s at = some at
advance (suc pos) s at =
    let rest = advance pos (drop (size s) s) (at + size s) in if size s == 0 then none else rest

-- `offset` at a position from the start, and `offset_back` at one from the end, `-pos`.
unfoldable pub offset : Text → ℕ → Option ℕ
offset s pos = if ltb (count s) pos then none else if pos == 0 then some 0 else advance pos s 0

unfoldable pub offset_back : Text → ℕ → Option ℕ
offset_back s pos = if ltb (count s) pos then none else advance (count s - pos) s 0

-- `udup` (the codes before the terminator, room for `count` of them is taken) and the loops of
-- `wdup`, `ccount`, `find` and `rfind`; the fuel is as for `count`. A code of no size does not
-- end the loop of `udup`, which `stuck` stands for.
pub data Copied : Type 0 where
  stuck null : Copied
  copied : List ℕ → Copied

abbrev prepend : ℕ → Copied → Copied
prepend code stuck = stuck
prepend code null = null
prepend code (copied out) = copied (code ∷ out)

-- What `codepoint` gives, as stored where -1 cannot stand alone: EOF is 0xffffffff.
abbrev pub stored : Option ℕ → ℕ
stored none = 0xffffffff
stored (some code) = code

unfoldable pub udup_loop : ℕ → Text → Copied
udup_loop zero s = if first s == 0 then copied [] else stuck
udup_loop (suc fuel) s =
    let rest = udup_loop fuel (drop (size s) s) in
    if first s == 0 then copied [] else prepend (stored (codepoint s)) rest

unfoldable pub udup : Text → Copied
udup s = udup_loop (length s) s

unfoldable pub wdup_loop : ℕ → Text → Copied
wdup_loop zero s = if first s == 0 then copied [] else stuck
wdup_loop (suc fuel) s =
    let rest = wdup_loop fuel (drop (size s) s) in
    if first s == 0
    then copied []
    else if leb 0x10000 (stored (codepoint s))
    then null
    else prepend (stored (codepoint s)) rest

unfoldable pub wdup : Text → Copied
wdup s = wdup_loop (length s) s

unfoldable pub ccount_loop : ℕ → Text → ℕ → ℕ → ℕ
ccount_loop zero s code total = total
ccount_loop (suc fuel) s code total =
    let rest =
      ccount_loop fuel (drop (size s) s) code
        (if stored (codepoint s) == code then total + 1 else total) in
    if first s == 0 then total else if size s == 0 then total else rest

unfoldable pub ccount : Text → ℕ → ℕ
ccount s code = ccount_loop (length s) s code 0

-- `find` gives the bytes to the place; `pos` is the number of codes to look at, 0 for all.
unfoldable pub find_loop : ℕ → Text → ℕ → ℕ → ℕ → ℕ → Option ℕ
find_loop zero s code pos cpos at = none
find_loop (suc fuel) s code pos cpos at =
    let cpos' = if pos == 0 then cpos else cpos + 1 in
    let rest = find_loop fuel (drop (size s) s) code pos cpos' (at + size s) in
    if first s == 0
    then none
    else if not (pos == 0) && ltb pos cpos'
    then none
    else if size s == 0
    then none
    else if stored (codepoint s) == code
    then some at
    else rest

unfoldable pub find : Text → ℕ → ℕ → Option ℕ
find s code pos = find_loop (length s) s code pos 0 0

unfoldable pub rfind_loop : ℕ → Text → ℕ → ℕ → ℕ → ℕ → Option ℕ → Option ℕ
rfind_loop zero s code pos cpos at result = result
rfind_loop (suc fuel) s code pos cpos at result =
    let result' = if stored (codepoint s) == code then some at else result in
    let rest = rfind_loop fuel (drop (size s) s) code pos (cpos + 1) (at + size s) result' in
    if first s == 0
    then result
    else if size s == 0
    then result
    else if ltb pos (cpos + 1)
    then result'
    else rest

unfoldable pub rfind : Text → ℕ → ℕ → Option ℕ
rfind s code pos = rfind_loop (length s) s code pos 0 0 none

-- The loop of `pack`: the codes that it stores before the terminator, whose number it returns.
unfoldable pub pack_loop : ℕ → Text → List ℕ
pack_loop zero s = []
pack_loop (suc room) s = elim (get s) [
  | none ↦ []
  | some code ↦ if code == 0 then [] else code ∷ pack_loop room (drop (chars code) s)
]

-- `--len` wraps at 0.
unfoldable pub pack : Text → ℕ → List ℕ
pack s len = pack_loop ((len + 2 ^ 64 - 1) % 2 ^ 64) s

-- `unpack` into a buffer from place `at`: the buffer, and the place of the terminator. What it
-- returns is 0.
unfoldable pub write : Text → ℕ → Text → Text
write [] at b = b
write (c ∷ s) at b = write s (at + 1) (set b at c)

unfoldable pub unpack : List ℕ → ℕ → ℕ → Text → Text × ℕ
unpack [] at bufsize b = (set b at 0, at)
unpack (code ∷ cs) at bufsize b =
    let rest = unpack cs (at + chars code) bufsize (write (put code) at b) in
    if not (bufsize == 0) && ltb (bufsize - 1) (chars code) then (set b at 0, at) else rest
