-- ===== src/Tokenizer.antt =====
-- commoncpp/tokenizer.cpp and inc/commoncpp/tokenizer.h, StringTokenizer and its iterator. A text is
-- the list of its chars, without the terminator.
pub mod Splits
pub mod Tokens
mod Examples
use commoncpp.Common.{
  ℕ, zero, suc, ◌+◌, ◌-◌, Bool, true, false, not, ◌&&◌, ◌||◌, List, [], ◌∷◌, Option, none, some,
  ltb, leb, ◌==◌, if◌then◌else◌, ◌>>=◌, length, get_or, drop, take,
}

-- `strchr` of a char that is no terminator finds it.
abbrev pub has : List ℕ → ℕ → Bool
has [] c = false
has (d ∷ ds) c = (d == c) || has ds c

-- " \t\n\r\f\v".
abbrev pub space : List ℕ
space = 0x20 ∷ 0x09 ∷ 0x0a ∷ 0x0d ∷ 0x0c ∷ 0x0b ∷ []

pub record StringTokenizer : Type 0 where
  pub str : List ℕ
  pub delim : List ℕ
  pub skip_all : Bool
  pub trim : Bool

-- `past` is the place behind `endp`, which begins before the text. `tok_end` is `none` for null.
pub record Iterator : Type 0 where
  pub start : ℕ
  pub tok_end : Option ℕ
  pub past : ℕ
  pub token : Option (List ℕ)

-- The iterator that marks the end, and the comparison of one with it.
abbrev pub it_end : StringTokenizer → ℕ
it_end t = length t.str + 2

abbrev pub is_end : StringTokenizer → Iterator → Bool
is_end t i = i.past == it_end t

-- How far it is to the next delimiter, or to the end of the text.
abbrev pub to_delim : List ℕ → List ℕ → ℕ
to_delim delim [] = 0
to_delim delim (c ∷ cs) = if has delim c then 0 else suc (to_delim delim cs)

-- How many delimiters a text begins with.
abbrev pub delims : List ℕ → List ℕ → ℕ
delims delim [] = 0
delims delim (c ∷ cs) = if has delim c then suc (delims delim cs) else 0

-- `operator ++`; `none` is the exception.
unfoldable pub advance : StringTokenizer → Iterator → Option Iterator
advance t i =
    let endp : ℕ = i.past in
    let stop : ℕ = endp + to_delim t.delim (drop endp t.str) in
    let skipped : ℕ =
      if ltb stop (length t.str) && t.skip_all then delims t.delim (drop (stop + 1) t.str) else 0 in
    if is_end t i
    then none
    else if endp + 1 == it_end t
    then some (record { start = endp; tok_end = i.tok_end; past = endp + 1; token = none })
    else some
        (record { start = endp; tok_end = some stop; past = stop + skipped + 1; token = none })

unfoldable pub begin : StringTokenizer → Option Iterator
begin t = advance t (record { start = 0; tok_end = none; past = 0; token = none })

unfoldable pub next_delimiter : StringTokenizer → Iterator → ℕ
next_delimiter t i = elim i.tok_end [ none ↦ 0 | some e ↦ get_or t.str e 0 ]

-- The two loops that trim a token: the blanks in front, and those behind.
abbrev pub front_blanks : List ℕ → ℕ
front_blanks cs = delims space cs

unfoldable pub drop_back : List ℕ → List ℕ
drop_back [] = []
drop_back (c ∷ cs) =
    let rest = drop_back cs in
    elim rest [ [] ↦ if has space c then [] else c ∷ [] | d ∷ ds ↦ c ∷ d ∷ ds ]

unfoldable pub trimmed : Bool → List ℕ → List ℕ
trimmed trim cs = if trim then drop_back (drop (front_blanks cs) cs) else cs

-- `operator *`: the token, which the iterator keeps.
unfoldable pub value : StringTokenizer → Iterator → Option (List ℕ × Iterator)
value t i =
    let made : ℕ → List ℕ × Iterator = λ e.
      let cs : List ℕ = take (e - i.start) (drop i.start t.str) in
      let text : List ℕ = trimmed t.trim cs in
      let skipped : ℕ = if t.trim then front_blanks cs else 0 in
      (text, record i { start = i.start + skipped; token = some text }) in
    if is_end t i then none else elim i.token [
      | some text ↦ some (text, i)
      | none ↦ elim i.tok_end [ none ↦ some (made i.start) | some e ↦ some (made e) ]
    ]

-- The loop of a client, `for (i = begin(); i != end(); ++i)`, over the tokens.
unfoldable pub tokens_from : ℕ → StringTokenizer → Iterator → Option (List (List ℕ))
tokens_from zero t i = none
tokens_from (suc fuel) t i =
    let rest = (do
      (text, i') ← value t i
      i'' ← advance t i'
      out ← tokens_from fuel t i''
      some (text ∷ out)) in
    if is_end t i then some [] else rest

unfoldable pub tokens : ℕ → StringTokenizer → Option (List (List ℕ))
tokens fuel t = begin t >>= λ i. tokens_from fuel t i

-- The copy and the assignment of an iterator, which leave out its token.
unfoldable pub copy : Iterator → Iterator
copy i = record i { token = none }

unfoldable pub set_delimiters : StringTokenizer → List ℕ → StringTokenizer
set_delimiters t d = record t { delim = d }

-- `begin` with other delimiters.
unfoldable pub begin_with : StringTokenizer → List ℕ → Option (StringTokenizer × Iterator)
unfolding set_delimiters
begin_with t d = let t' : StringTokenizer = set_delimiters t d in begin t' >>= λ i. some (t', i)
