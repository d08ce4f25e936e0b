-- ===== src/IsoTime/Feeding.antt =====
-- A text of the form of the old one, char by char.
use commoncpp.Common.{
  ℕ, suc, ◌+◌, ◌≡◌, refl, sym, ap, ap₂, ◌∙◌, arith, true, false, List, [], ◌∷◌, ◌++◌, Option, none,
  some, ◌==◌, if◌then◌else◌, set, length,
}
use commoncpp.Numbers.{Buffer, char_at, is_digit}
use commoncpp.Date.{Tm}
use commoncpp.IsoTime.{IsoTime, finish_mode, input, feed}

-- A text of the same form as another: digits stand where digits stand, all else is the same, and
-- the last char is a digit.
pub data SameForm : List ℕ → List ℕ → Type 0 where
  last_digit : (c o : ℕ) → is_digit c ≡ true → is_digit o ≡ true → SameForm (c ∷ []) (o ∷ [])
  digit :
      (c o : ℕ) {cs os : List ℕ}
      → is_digit c ≡ true
      → is_digit o ≡ true
      → SameForm cs os
      → SameForm (c ∷ cs) (o ∷ os)
  other :
      (c : ℕ) {cs os : List ℕ}
      → (c == 0) ≡ false
      → is_digit c ≡ false
      → SameForm cs os
      → SameForm (c ∷ cs) (c ∷ os)

char_at-append : (p : Buffer) (c : ℕ) (s : Buffer) → char_at (p ++ (c ∷ s)) (length p) ≡ c
char_at-append [] c s = refl
char_at-append (x ∷ p) c s = char_at-append p c s

set-append : (p : Buffer) (c v : ℕ) (s : Buffer) → set (p ++ (c ∷ s)) (length p) v ≡ p ++ (v ∷ s)
set-append [] c v s = refl
set-append (x ∷ p) c v s = ap (λ l. x ∷ l) (set-append p c v s)

snoc : (p : Buffer) (c : ℕ) (s : Buffer) → (p ++ (c ∷ [])) ++ s ≡ p ++ (c ∷ s)
snoc [] c s = refl
snoc (x ∷ p) c s = ap (λ l. x ∷ l) (snoc p c s)

length-snoc : (p : Buffer) (c : ℕ) → length (p ++ (c ∷ [])) ≡ length p + 1
length-snoc [] c = refl
length-snoc (x ∷ p) c = omega (arith, length-snoc p c)

abbrev at_place : IsoTime → ℕ → Buffer → IsoTime
at_place r n b = record r { pos = n; buf = b }

char_at-next : (p : Buffer) (c x : ℕ) (s : Buffer) → char_at (p ++ (c ∷ x ∷ s)) (length p + 1) ≡ x
char_at-next [] c x s = refl
char_at-next (y ∷ p) c x s =
    let e : length (y ∷ p) + 1 ≡ suc (length p + 1) = omega arith in rw e (char_at-next p c x s)

set-zero :
    (p : Buffer) (c : ℕ) (s : Buffer) → set (p ++ (c ∷ 0 ∷ s)) (length p + 1) 0 ≡ p ++ (c ∷ 0 ∷ s)
set-zero [] c s = refl
set-zero (y ∷ p) c s =
    let e : length (y ∷ p) + 1 ≡ suc (length p + 1) = omega arith in
    rw e (ap (λ l. y ∷ l) (set-zero p c s))

step_digit :
    (now : Tm) (r : IsoTime) (p s : Buffer) (c o x : ℕ)
    → is_digit c ≡ true
    → is_digit o ≡ true
    → (x == 0) ≡ false
    → input now (at_place r (length p) (p ++ (o ∷ x ∷ s))) c
      ≡ (at_place r (length p + 1) (p ++ (c ∷ x ∷ s)), some 0)
unfolding input
step_digit now r p s c o x hc ho hx =
    rw (char_at-append p o (x ∷ s), ho, hc, set-append p o c (x ∷ s), char_at-next p c x s, hx) refl

step_other :
    (now : Tm) (r : IsoTime) (p s : Buffer) (c : ℕ)
    → is_digit c ≡ false
    → input now (at_place r (length p) (p ++ (c ∷ s))) c
      ≡ (at_place r (length p + 1) (p ++ (c ∷ s)), some 0)
unfolding input
step_other now r p s c h =
    let e : (c == c) ≡ true = ground arith in rw (char_at-append p c s, h, e) refl

step_last :
    (now : Tm) (r : IsoTime) (p s : Buffer) (c o : ℕ)
    → is_digit c ≡ true
    → is_digit o ≡ true
    → input now (at_place r (length p) (p ++ (o ∷ 0 ∷ s))) c
      ≡ (finish_mode now r.mode (at_place r (length p + 1) (p ++ (c ∷ 0 ∷ s))), none)
unfolding input
step_last now r p s c o hc ho =
    rw
      (
        char_at-append p o (0 ∷ s),
        ho,
        hc,
        set-append p o c (0 ∷ s),
        char_at-next p c 0 s,
        set-zero p c s,
      )
      refl

record Begins (os : List ℕ) : Type 0 where
  head : ℕ
  tail : List ℕ
  is : os ≡ head ∷ tail
  nonzero : (head == 0) ≡ false

SameForm-Begins : {cs os : List ℕ} → SameForm cs os → Begins os
SameForm-Begins (last_digit c o hc ho) = record {
  head = o;
  tail = [];
  is = refl;
  nonzero = ground (arith, ho);
}
SameForm-Begins (digit c o {cs} {os} hc ho f) = record {
  head = o;
  tail = os;
  is = refl;
  nonzero = ground (arith, ho);
}
SameForm-Begins (other c {cs} {os} h0 h f) = record { head = c; tail = os; is = refl; nonzero = h0 }

-- What `feed` does once a char is in.
go_on : Tm → List ℕ → IsoTime × Option ℕ → IsoTime × Option ℕ
go_on now cs (r, none) = (r, none)
go_on now cs (r, some code) = if code == 0 then feed now r cs else (r, some code)

feed-go_on :
    (now : Tm) (r : IsoTime) (c : ℕ) (cs : List ℕ)
    → feed now r (c ∷ cs) ≡ go_on now cs (input now r c)
unfolding feed go_on
feed-go_on now r c cs = go_on-eq (input now r c)
  where
    go_on-eq :
        (x : IsoTime × Option ℕ)
        → (elim x.1 [
          | none ↦ (x.0, none)
          | some code ↦ if code == 0 then feed now x.0 cs else (x.0, some code)
        ])
          ≡ go_on now cs x
    go_on-eq (r, none) = refl
    go_on-eq (r, some code) = refl

feed-next :
    (now : Tm) (r r' : IsoTime) (c : ℕ) (cs : List ℕ)
    → input now r c ≡ (r', some 0)
    → feed now r (c ∷ cs) ≡ feed now r' cs
unfolding go_on
feed-next now r r' c cs e = feed-go_on now r c cs ∙ ap (go_on now cs) e

feed-end :
    (now : Tm) (r r' : IsoTime) (c : ℕ) (cs : List ℕ)
    → input now r c ≡ (r', none)
    → feed now r (c ∷ cs) ≡ (r', none)
unfolding go_on
feed-end now r r' c cs e = feed-go_on now r c cs ∙ ap (go_on now cs) e

module _ (now : Tm) (r : IsoTime) (rest : Buffer) where
  onward :
      (p : Buffer) (c : ℕ) (cs os : List ℕ)
      → feed now (at_place r (length (p ++ (c ∷ []))) ((p ++ (c ∷ [])) ++ (os ++ (0 ∷ rest)))) cs
        ≡ (
          finish_mode now r.mode (
              at_place r
                (length (p ++ (c ∷ [])) + length cs)
                ((p ++ (c ∷ [])) ++ (cs ++ (0 ∷ rest)))),
          none,
        )
      → feed now (at_place r (length p + 1) (p ++ (c ∷ (os ++ (0 ∷ rest))))) cs ≡ (
        finish_mode now r.mode
            (at_place r (length p + suc (length cs)) (p ++ (c ∷ (cs ++ (0 ∷ rest))))),
        none,
      )
  onward p c cs os ih =
      let e : length (p ++ (c ∷ [])) + length cs ≡ length p + suc (length cs) =
        omega (arith, length-snoc p c) in
      ap₂ (λ n b. feed now (at_place r n b) cs) (sym (length-snoc p c))
        (sym (snoc p c (os ++ (0 ∷ rest))))
      ∙ (ih
          ∙ ap₂ (λ n b. (finish_mode now r.mode (at_place r n b), none)) e
              (snoc p c (cs ++ (0 ∷ rest))))

  feed-SameForm :
      {cs os : List ℕ}
      → SameForm cs os
      → (p : Buffer)
      → feed now (at_place r (length p) (p ++ (os ++ (0 ∷ rest)))) cs ≡ (
        finish_mode now r.mode (at_place r (length p + length cs) (p ++ (cs ++ (0 ∷ rest)))),
        none,
      )
  feed-SameForm (last_digit c o hc ho) p = feed-end now _ _ c [] (step_last now r p rest c o hc ho)
  feed-SameForm (digit c o {cs} {os} hc ho f) p =
      let b = SameForm-Begins f in
      let e : input now (at_place r (length p) (p ++ (o ∷ (os ++ (0 ∷ rest))))) c
          ≡ (at_place r (length p + 1) (p ++ (c ∷ (os ++ (0 ∷ rest)))), some 0) =
        rw b.is (step_digit now r p (b.tail ++ (0 ∷ rest)) c o b.head hc ho b.nonzero) in
      feed-next now _ _ c cs e ∙ onward p c cs os (feed-SameForm f (p ++ (c ∷ [])))
  feed-SameForm (other c {cs} {os} h0 h f) p =
      feed-next now _ _ c cs (step_other now r p (os ++ (0 ∷ rest)) c h)
      ∙ onward p c cs os (feed-SameForm f (p ++ (c ∷ [])))

-- A text of the form of the old one (digits where it has digits, the same char elsewhere, a digit
-- at the end), fed char by char to an isotime at its start, is taken as a whole and ends the
-- reading: the buffer holds the new text, from which the date, the time or both are set.
pub feed_takes :
    (now : Tm) (r : IsoTime) (rest : Buffer) {cs os : List ℕ}
    → SameForm cs os
    → r.pos ≡ 0
    → r.buf ≡ os ++ (0 ∷ rest)
    → feed now r cs
      ≡ (finish_mode now r.mode (record r { pos = length cs; buf = cs ++ (0 ∷ rest) }), none)
feed_takes now r rest {cs} f ep eb =
    ap₂ (λ n b. feed now (at_place r n b) cs) ep eb
    ∙ (feed-SameForm now r rest f []
        ∙ ap (λ n. (finish_mode now r.mode (at_place r n (cs ++ (0 ∷ rest))), none)) (omega arith))
