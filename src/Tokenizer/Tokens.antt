-- ===== src/Tokenizer/Tokens.antt =====
-- The tokens that a client is given, one after the other.
use commoncpp.Common.{
  ℕ, zero, suc, ◌+◌, ◌-◌, ◌≤◌, ◌<◌, ◌≡◌, refl, sym, ap, ap₂, ◌∙◌, arith, Bool, true, false, not,
  ◌&&◌, List, [], ◌∷◌, none, some, ltb, leb, ◌==◌, if◌then◌else◌, ◌>>=◌, length, drop, take, map,
  drop-drop, length-drop, inl, inr, Bool-cases,
}
use commoncpp.Tokenizer.{
  StringTokenizer, Iterator, is_end, to_delim, delims, advance, begin, front_blanks, trimmed, value,
  tokens_from, tokens,
}
use commoncpp.Tokenizer.Splits.{pieces, behind, to_delim-length, pieces-Cut}

-- Where the token ends that begins at a place, and how many delimiters are skipped behind it.
abbrev stop : StringTokenizer → ℕ → ℕ
stop t p = p + to_delim t.delim (drop p t.str)

abbrev skipped : StringTokenizer → ℕ → ℕ
skipped t p =
    if ltb (stop t p) (length t.str) && t.skip_all
    then delims t.delim (drop (stop t p + 1) t.str)
    else 0

abbrev found : StringTokenizer → ℕ → Iterator
found t p = record {
  start = p;
  tok_end = some (stop t p);
  past = stop t p + skipped t p + 1;
  token = none;
}

abbrev raw : StringTokenizer → ℕ → List ℕ
raw t p = take (stop t p - p) (drop p t.str)

delims-length : (delim cs : List ℕ) → delims delim cs ≤ length cs
delims-length delim [] = omega arith
delims-length delim (c ∷ cs) = ground (arith, delims-length delim cs)

-- The place behind is in the text, or one behind its end, which is so if the token is the last.
found-past :
    (t : StringTokenizer) (p : ℕ)
    → p ≤ length t.str
    → (stop t p ≤ length t.str)
      × ((found t p).past ≤ length t.str + 1)
      × (ltb (stop t p) (length t.str) ≡ true → (found t p).past ≤ length t.str)
      × (ltb (stop t p) (length t.str) ≡ false → (found t p).past ≡ length t.str + 1)
found-past t p l =
    let n : ℕ = length t.str in
    let s : ℕ = stop t p in
    let a : length (drop p t.str) ≡ n - p = length-drop p t.str in
    let b : to_delim t.delim (drop p t.str) ≤ length (drop p t.str) =
      to_delim-length t.delim (drop p t.str) in
    let inside : s ≤ n = omega arith in
    let c : length (drop (s + 1) t.str) ≡ n - (s + 1) = length-drop (s + 1) t.str in
    let d = delims-length t.delim (drop (s + 1) t.str) in
    (
      inside,
      ground (arith, inside, c, d),
      λ e. ground (arith, inside, c, d, e),
      λ e. ground (arith, inside, e),
    )

advance-found :
    (t : StringTokenizer) (i : Iterator)
    → i.past ≤ length t.str
    → advance t i ≡ some (found t i.past)
unfolding advance
advance-found t i l =
    let a : (i.past == length t.str + 2) ≡ false = ground arith in
    let b : (i.past + 1 == length t.str + 2) ≡ false = ground arith in rw (a, b) refl

advance-last :
    (t : StringTokenizer) (i : Iterator)
    → i.past ≡ length t.str + 1
    → advance t i
      ≡ some (record { start = i.past; tok_end = i.tok_end; past = i.past + 1; token = none })
unfolding advance
advance-last t i e =
    let a : (i.past == length t.str + 2) ≡ false = ground (arith, e) in
    let b : (i.past + 1 == length t.str + 2) ≡ true = ground (arith, e) in rw (a, b) refl

abbrev seen : StringTokenizer → ℕ → Iterator
seen t p = record (found t p) {
  start = p + (if t.trim then front_blanks (raw t p) else 0);
  token = some (trimmed t.trim (raw t p));
}

value-found :
    (t : StringTokenizer) (p : ℕ)
    → is_end t (found t p) ≡ false
    → value t (found t p) ≡ some (trimmed t.trim (raw t p), seen t p)
unfolding value
value-found t p e = rw e refl

-- The end, and the pieces from a place on.
abbrev rest : StringTokenizer → ℕ → List (List ℕ)
rest t p = map (trimmed t.trim) (pieces t.skip_all t.delim (drop p t.str))

rest-cut :
    (t : StringTokenizer) (p : ℕ)
    → p ≤ length t.str
    → rest t p
      ≡ trimmed t.trim (raw t p)
        ∷ (if ltb (stop t p) (length t.str) then rest t (found t p).past else [])
rest-cut t p l =
    let xs : List ℕ = drop p t.str in
    let n : ℕ = to_delim t.delim xs in
    let cut = pieces-Cut t.skip_all t.delim xs in
    let a : length xs ≡ length t.str - p = length-drop p t.str in
    let same : leb (length xs) n ≡ not (ltb (p + n) (length t.str)) = ground (arith, a, l) in
    let short : p + n - p ≡ n = omega arith in
    let back : drop (suc n) xs ≡ drop (p + n + 1) t.str =
      drop-drop (suc n) p t.str ∙ ap (λ k. drop k t.str) (omega arith) in
    let more : List ℕ → List (List ℕ) = λ ys. take n xs ∷ pieces t.skip_all t.delim ys in
    let following : List ℕ = behind t.skip_all t.delim (drop (suc n) xs) in
    let split : (b : Bool)
        → leb (length xs) n ≡ b
        → pieces t.skip_all t.delim xs
          ≡ take n xs ∷ (if b then [] else pieces t.skip_all t.delim following) =
      λ b z.
        cut ∙ ap (λ b. take n xs ∷ (if b then [] else pieces t.skip_all t.delim following)) z in
    let onto : (b : Bool)
        → ltb (p + n) (length t.str) ≡ b
        → trimmed t.trim (take n xs) ∷ (if b then rest t (found t p).past else [])
          ≡ trimmed t.trim (raw t p)
            ∷ (if ltb (stop t p) (length t.str) then rest t (found t p).past else []) =
      λ b e.
        ap₂ (λ k b. trimmed t.trim (take k xs) ∷ (if b then rest t (found t p).past else []))
          (sym short) (sym e) in
    elim (Bool-cases (ltb (p + n) (length t.str))) [
      | inl e ↦
          let d : ℕ = delims t.delim (drop (p + n + 1) t.str) in
          let places : p + n + 1 + (if t.skip_all then d else 0) ≡ (found t p).past =
            ground (arith, e) in
          let onward : following ≡ drop (found t p).past t.str =
            ap (behind t.skip_all t.delim) back
            ∙ (drop-drop (if t.skip_all then d else 0) (p + n + 1) t.str
                ∙ ap (λ k. drop k t.str) places) in
          ap (map (trimmed t.trim)) (split false (same ∙ ap not e) ∙ ap more onward) ∙ onto true e
      | inr e ↦ ap (map (trimmed t.trim)) (split true (same ∙ ap not e)) ∙ onto false e
    ]

-- At the end there is no token left.
tokens_from-end :
    (fuel : ℕ) (t : StringTokenizer) (i : Iterator)
    → 0 < fuel
    → is_end t i ≡ true
    → tokens_from fuel t i ≡ some []
unfolding tokens_from
tokens_from-end zero t i l e = absurd (omega arith)
tokens_from-end (suc fuel) t i l e = rw e refl

tokens_from-rest :
    (fuel : ℕ) (t : StringTokenizer) (i : Iterator)
    → i.past ≤ length t.str
    → length t.str + 2 ≤ fuel + i.past
    → (advance t i >>= λ j. tokens_from fuel t j) ≡ some (rest t i.past)
unfolding tokens_from
tokens_from-rest zero t i l f = absurd (omega arith)
tokens_from-rest (suc fuel) t i l f =
    let p : ℕ = i.past in
    let q : ℕ = (found t p).past in
    let (a, b, c, d) = found-past t p l in
    let e : is_end t (found t p) ≡ false = ground (arith, b) in
    let j = advance-found t i l in
    let v = value-found t p e in
    let cut = rest-cut t p l in
    let text : List ℕ = trimmed t.trim (raw t p) in
    elim (Bool-cases (ltb (stop t p) (length t.str))) [
      | inl m ↦
          let k = advance-found t (seen t p) (c m) in
          let ih = tokens_from-rest fuel t (seen t p) (c m) (omega arith) in
          let next : tokens_from fuel t (found t q) ≡ some (rest t q) =
            sym (ap (λ o. o >>= λ j. tokens_from fuel t j) k) ∙ ih in
          rw (j, e, v, k, next)
            (ap some (sym (cut ∙ ap (λ b. text ∷ (if b then rest t q else [])) m)))
      | inr m ↦
          let k = advance-last t (seen t p) (d m) in
          let last : Iterator = record {
            start = q;
            tok_end = some (stop t p);
            past = q + 1;
            token = none;
          } in
          let next : tokens_from fuel t last ≡ some [] =
            tokens_from-end fuel t last (omega arith) (ground (arith, d m)) in
          rw (j, e, v, k, next)
            (ap some (sym (cut ∙ ap (λ b. text ∷ (if b then rest t q else [])) m)))
    ]

-- The loop of a client of StringTokenizer over the tokens, from `begin` to `end`, ends after no
-- more rounds than the text has chars and one, throws no exception, and gives the pieces of the
-- text between its delimiters, the empty ones included, where with skipAll a run of delimiters
-- counts as one; with trim each is without the blanks at its ends.
pub tokens-pieces :
    (t : StringTokenizer) (fuel : ℕ)
    → length t.str + 2 ≤ fuel
    → tokens fuel t ≡ some (map (trimmed t.trim) (pieces t.skip_all t.delim t.str))
unfolding tokens begin
tokens-pieces t fuel l =
    tokens_from-rest fuel t (record { start = 0; tok_end = none; past = 0; token = none })
      (omega arith) (omega arith)
