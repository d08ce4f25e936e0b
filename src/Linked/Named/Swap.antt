-- ===== src/Linked/Named/Swap.antt =====
-- A list with an object in the place of another, and the links of an object to another one.
use commoncpp.Common.{
  ◌≡◌, ◌≢◌, inl, inr, refl, sym, subst, ◌∙◌, arith, true, false, List, [], ◌∷◌, ◌==◌, if◌then◌else◌,
  Bool-cases,
}
use commoncpp.Linked.{Ptr, null, Heap}
use commoncpp.Linked.Chain.{has, Distinct, Chain, before, has-before, Chain-frame, ne_of_out}

-- A list with an object in the place of another.
abbrev pub swap : Ptr → Ptr → List Ptr → List Ptr
swap a b [] = []
swap a b (x ∷ xs) = if x == a then b ∷ xs else x ∷ swap a b xs

pub swap-out :
    (a b c : Ptr) (xs : List Ptr)
    → has c xs ≡ false
    → (b == c) ≡ false
    → has c (swap a b xs) ≡ false
swap-out a b c [] f n = refl
swap-out a b c (x ∷ xs) f n = ground (arith, swap-out a b c xs)

pub Distinct-swap :
    (a b : Ptr) (xs : List Ptr) → Distinct xs → has b xs ≡ false → Distinct (swap a b xs)
Distinct-swap a b [] d f = tt
Distinct-swap a b (x ∷ xs) (out, d) f = elim (Bool-cases (x == a)) [
  | inl y ↦ rw y (ground (arith, f), d)
  | inr y ↦
      rw y (swap-out a b x xs out (ground (arith, f)), Distinct-swap a b xs d (ground (arith, f)))
]

-- The chain of a heap `g` in which `this` has the place of `a`.
pub Chain-swap :
    (h g : Heap) (this a prior p q : Ptr) (xs : List Ptr)
    → Chain h p xs
    → Distinct xs
    → has prior xs ≡ false
    → has a xs ≡ true
    → before a prior xs ≡ q
    → has this (prior ∷ xs) ≡ false
    → this ≢ null
    → g.live this ≡ true
    → g.next this ≡ h.next a
    → ((b : Ptr) → (b == a) ≡ false → (b == this) ≡ false → g.live b ≡ h.live b)
    → ((b : Ptr)
        → b ≢ null
        → (b == a) ≡ false
        → (b == this) ≡ false
        → g.next b ≡ (if q == b then this else h.next b))
    → Chain g (if q == prior then this else p) (swap a this xs)
Chain-swap h g this a prior p q [] c d f t b o n l w lv nx = cc
Chain-swap h g this a prior p q (x ∷ xs) (e, m, k, c) (out, d) f t b o n l w lv nx =
    elim (Bool-cases (x == a)) [
      | inl y ↦
          let xa : x ≡ a = ground (arith, y) in
          let qp : q ≡ prior = ground (arith, y, b) in
          let qe : (q == prior) ≡ true = ground (arith, qp) in
          let apart : (b : Ptr)
              → b ≢ null
              → has b xs ≡ true
              → (g.next b ≡ h.next b) × (g.live b ≡ h.live b) =
            λ b z i.
              let ba : (b == a) ≡ false = ground (arith, ne_of_out x b xs out i, xa) in
              let bt : (b == this) ≡ false = ground (arith, ne_of_out this b xs, o, i) in
              (ground (arith, nx b z ba bt, qp, ne_of_out prior b xs, f, i), lv b ba bt) in
          rw (y, qe)
            (
              refl,
              n,
              l,
              rw w (Chain-frame h g (h.next a) xs apart (subst (λ z. Chain h (h.next z) xs) xa c)),
            )
      | inr y ↦
          let be : before a x xs ≡ q = ground (arith, y, b) in
          let qe : (q == prior) ≡ false =
            ground (arith, be, f, has-before a x xs, ne_of_out prior q (x ∷ xs)) in
          let xt : (x == this) ≡ false = ground (arith, o) in
          rw (y, qe)
            (
              e,
              m,
              lv x y xt ∙ k,
              rw (nx x m y xt) (
                  Chain-swap h g this a x (h.next x) q xs c d out (ground (arith, y, t)) be
                    (ground (arith, o)) n l w lv nx),
            )
    ]

pub no_loop :
    (h : Heap) (p a : Ptr) (xs : List Ptr)
    → Chain h p xs
    → Distinct xs
    → has a xs ≡ true
    → h.next a ≢ a
no_loop h p a [] c d t = cc
no_loop h p a (x ∷ xs) (e, n, o, c) (out, d) t = elim (Bool-cases (x == a)) [
  | inl y ↦ subst (λ b. h.next b ≢ b) (ground (arith, y)) (apart xs c out)
  | inr y ↦ no_loop h (h.next x) a xs c d (ground (arith, y, t))
]
  where
    apart : (xs : List Ptr) → Chain h (h.next x) xs → has x xs ≡ false → h.next x ≢ x
    apart [] c f k = n (sym k ∙ c)
    apart (y ∷ ys) (g, m, w, r) f k = ground (arith, f, g, k)
