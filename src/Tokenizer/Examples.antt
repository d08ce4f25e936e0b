-- ===== src/Tokenizer/Examples.antt =====
-- Texts with delimiters at their ends, side by side, and changed on the way.
use commoncpp.Common.{◌+◌, ◌≡◌, refl, arith, true, false, [], ◌∷◌, none, some, ◌>>=◌, map, length}
use commoncpp.Tokenizer.{
  StringTokenizer, advance, begin, next_delimiter, space, drop_back, trimmed, value, tokens_from,
  tokens, copy, set_delimiters, begin_with,
}
use commoncpp.Tokenizer.Splits.{split_at, squeeze, pieces}
use commoncpp.Tokenizer.Tokens.{tokens-pieces}

-- ",a ,,b" at "," with trimming.
abbrev fields : StringTokenizer
fields = record {
  str = 0x2c ∷ 0x61 ∷ 0x20 ∷ 0x2c ∷ 0x2c ∷ 0x62 ∷ [];
  delim = 0x2c ∷ [];
  skip_all = true;
  trim = true;
}

-- "a  b" at blanks with trimming.
abbrev blanks : StringTokenizer
blanks = record {
  str = 0x61 ∷ 0x20 ∷ 0x20 ∷ 0x62 ∷ [];
  delim = space;
  skip_all = false;
  trim = true;
}

abbrev nothing : StringTokenizer
nothing = record fields { str = [] }

tokens-pieces_example :
    tokens 8 fields ≡ some (map (trimmed true) (pieces true (0x2c ∷ []) fields.str))
tokens-pieces_example = tokens-pieces fields 8 (omega arith)

-- With runs of delimiters as one, and with an empty token between two.
token_lists :
    (tokens 8 fields ≡ some ([] ∷ (0x61 ∷ []) ∷ (0x62 ∷ []) ∷ []))
    × (tokens 8 (record fields { skip_all = false; trim = false })
        ≡ some ([] ∷ (0x61 ∷ 0x20 ∷ []) ∷ [] ∷ (0x62 ∷ []) ∷ []))
    × (tokens 2 (record fields { str = [] }) ≡ some ([] ∷ []))
    × (tokens 4 (record fields { str = 0x2c ∷ 0x2c ∷ [] }) ≡ some ([] ∷ [] ∷ []))
    × (split_at (0x2c ∷ []) (squeeze (0x2c ∷ []) false fields.str)
        ≡ [] ∷ (0x61 ∷ 0x20 ∷ []) ∷ (0x62 ∷ []) ∷ [])
    × (tokens 8 blanks ≡ some ((0x61 ∷ []) ∷ [] ∷ (0x62 ∷ []) ∷ []))
unfolding tokens tokens_from begin advance value trimmed drop_back split_at squeeze
token_lists = (refl, refl, refl, refl, refl, refl)

-- The first token's delimiter, other delimiters, and a step beyond the end.
iterators :
    ((begin fields >>= λ i. some (next_delimiter fields i)) ≡ some 0x2c)
    × ((begin_with fields space >>= λ (t, i).
          value t i >>= λ (text, j). some (length text + j.start))
        ≡ some 2)
    × ((begin fields >>= λ i.
          value fields (copy i) >>= λ (text, j). value fields j >>= λ (again, k). some again)
        ≡ some [])
    × ((begin nothing >>= λ i. advance nothing i >>= λ j. advance nothing j) ≡ none)
unfolding begin begin_with set_delimiters advance value trimmed drop_back copy next_delimiter
iterators = (refl, refl, refl, refl)
