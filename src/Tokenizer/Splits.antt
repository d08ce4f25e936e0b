-- ===== src/Tokenizer/Splits.antt =====
-- A text cut at its delimiters, told independently of the tokenizer.
use commoncpp.Common.{
  ℕ, suc, ◌≤◌, ◌≡◌, refl, sym, ap, ◌∙◌, arith, Bool, true, false, ◌&&◌, List, [], ◌∷◌, leb,
  if◌then◌else◌, length, drop, take, inl, inr, Bool-cases,
}
use commoncpp.Tokenizer.{has, to_delim, delims}

-- The first token gets a char more.
abbrev cons_first : ℕ → List (List ℕ) → List (List ℕ)
cons_first c [] = (c ∷ []) ∷ []
cons_first c (w ∷ ws) = (c ∷ w) ∷ ws

-- What is between the delimiters, empty or not.
unfoldable pub split_at : List ℕ → List ℕ → List (List ℕ)
split_at delim [] = [] ∷ []
split_at delim (c ∷ cs) =
    let rest = split_at delim cs in if has delim c then [] ∷ rest else cons_first c rest

-- A text without the delimiters that follow another one.
unfoldable pub squeeze : List ℕ → Bool → List ℕ → List ℕ
squeeze delim after [] = []
squeeze delim after (c ∷ cs) =
    let rest = squeeze delim (has delim c) cs in if after && has delim c then rest else c ∷ rest

-- The pieces of a text, where runs of delimiters count as one or not.
abbrev pub pieces : Bool → List ℕ → List ℕ → List (List ℕ)
pieces skip delim cs = split_at delim (if skip then squeeze delim false cs else cs)

-- What is behind the first delimiter, and those that are skipped with it.
abbrev pub behind : Bool → List ℕ → List ℕ → List ℕ
behind skip delim cs = drop (if skip then delims delim cs else 0) cs

squeeze-behind :
    (delim cs : List ℕ) → squeeze delim true cs ≡ squeeze delim false (behind true delim cs)
unfolding squeeze
squeeze-behind delim [] = refl
squeeze-behind delim (c ∷ cs) = elim (Bool-cases (has delim c)) [
  | inl e ↦ rw e (squeeze-behind delim cs)
  | inr e ↦ rw e (ap (λ b. c ∷ squeeze delim b cs) (sym e))
]

pub to_delim-length : (delim cs : List ℕ) → to_delim delim cs ≤ length cs
to_delim-length delim [] = omega arith
to_delim-length delim (c ∷ cs) = ground (arith, to_delim-length delim cs)

-- The first piece, and the others.
abbrev pub Cut : Bool → List ℕ → List ℕ → List (List ℕ) → Type 0
Cut skip delim cs ws =
    let n : ℕ = to_delim delim cs in
    ws
    ≡ take n cs
      ∷ (if leb (length cs) n then [] else pieces skip delim (behind skip delim (drop (suc n) cs)))

leb-suc : (m n : ℕ) → leb (suc m) (suc n) ≡ leb m n
leb-suc m n = ground arith

cons_first-Cut :
    (skip : Bool) (delim cs : List ℕ) (c : ℕ) (ws : List (List ℕ))
    → has delim c ≡ false
    → Cut skip delim cs ws
    → Cut skip delim (c ∷ cs) (cons_first c ws)
cons_first-Cut skip delim cs c ws e f =
    let s = leb-suc (length cs) (to_delim delim cs) in rw (e, s, f) refl

pub pieces-Cut : (skip : Bool) (delim cs : List ℕ) → Cut skip delim cs (pieces skip delim cs)
unfolding split_at squeeze
pieces-Cut true delim [] = refl
pieces-Cut false delim [] = refl
pieces-Cut true delim (c ∷ cs) = elim (Bool-cases (has delim c)) [
  | inl e ↦
      let z : leb (suc (length cs)) 0 ≡ false = ground arith in
      rw (e, z) (ap (λ t. [] ∷ split_at delim t) (squeeze-behind delim cs))
  | inr e ↦
      let i = cons_first-Cut true delim cs c (pieces true delim cs) e (pieces-Cut true delim cs) in
      let same : pieces true delim (c ∷ cs) ≡ cons_first c (pieces true delim cs) =
        rw (e, squeeze, split_at) refl in
      same ∙ i
]
pieces-Cut false delim (c ∷ cs) = elim (Bool-cases (has delim c)) [
  | inl e ↦ let z : leb (suc (length cs)) 0 ≡ false = ground arith in rw (e, z) refl
  | inr e ↦
      let i =
        cons_first-Cut false delim cs c (pieces false delim cs) e (pieces-Cut false delim cs) in
      let same : pieces false delim (c ∷ cs) ≡ cons_first c (pieces false delim cs) = rw e refl in
      same ∙ i
]
