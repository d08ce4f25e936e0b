-- ===== src/Linked/Chain.antt =====
-- The objects that a pointer leads to, one after the other, up to a null.
use commoncpp.Common.{
  ℕ, zero, suc, ◌<◌, ◌≡◌, ◌≢◌, inl, inr, refl, sym, ap, subst, ◌∙◌, arith, Bool, true, false, not,
  ◌&&◌, ◌||◌, List, [], ◌∷◌, some, ◌==◌, if◌then◌else◌, length, Bool-cases,
}
use commoncpp.Linked.{Ptr, null, Heap, seek}

abbrev pub has : Ptr → List Ptr → Bool
has a [] = false
has a (x ∷ xs) = (x == a) || has a xs

abbrev pub Distinct : List Ptr → Type 0
Distinct [] = Unit {0}
Distinct (x ∷ xs) = (has x xs ≡ false) × Distinct xs

abbrev pub Chain : Heap → Ptr → List Ptr → Type 0
Chain h p [] = p ≡ null
Chain h p (x ∷ xs) = (p ≡ x) × (x ≢ null) × (h.live x ≡ true) × Chain h (h.next x) xs

-- A list of objects, each of them once.
abbrev pub IsChain : Heap → Ptr → List Ptr → Type 0
IsChain h p xs = Chain h p xs × Distinct xs

pub ne_of_out : (a x : Ptr) (xs : List Ptr) → has a xs ≡ false → has x xs ≡ true → a ≢ x
ne_of_out a x xs f t e = ground (arith, f, t, ap (λ b. has b xs) e)

-- A chain stays where its objects are as they were.
pub Chain-frame :
    (h g : Heap) (p : Ptr) (xs : List Ptr)
    → ((a : Ptr) → a ≢ null → has a xs ≡ true → (g.next a ≡ h.next a) × (g.live a ≡ h.live a))
    → Chain h p xs
    → Chain g p xs
Chain-frame h g p [] s c = c
Chain-frame h g p (x ∷ xs) s (e, n, o, c) =
    let (m, l) = s x n (ground arith) in
    (e, n, l ∙ o, rw m (Chain-frame h g (h.next x) xs (λ a z t. s a z (ground (arith, t))) c))

-- A list without one of its members, and what stands before that one, `prior` if it is the first.
abbrev pub erase : Ptr → List Ptr → List Ptr
erase a [] = []
erase a (x ∷ xs) = if x == a then xs else x ∷ erase a xs

abbrev pub before : Ptr → Ptr → List Ptr → Ptr
before a prior [] = prior
before a prior (x ∷ xs) = if x == a then prior else before a x xs

abbrev pub found : Ptr → List Ptr → Ptr
found a xs = if has a xs then a else null

pub seek-before :
    (fuel : ℕ) (h : Heap) (this prior p : Ptr) (xs : List Ptr)
    → this ≢ null
    → Chain h p xs
    → length xs < fuel
    → seek fuel h this prior p ≡ some (before this prior xs, found this xs)
unfolding seek
seek-before zero h this prior p xs n c l = absurd (omega arith)
seek-before (suc fuel) h this prior p [] n c l = ground arith
seek-before (suc fuel) h this prior p (x ∷ xs) n (e, z, o, c) l =
    ground (arith, seek-before fuel h this x (h.next x) xs n c)

pub has-before : (a prior : Ptr) (xs : List Ptr) → has (before a prior xs) (prior ∷ xs) ≡ true
has-before a prior [] = ground arith
has-before a prior (x ∷ xs) = ground (arith, has-before a x xs)

-- The objects that the unlinking of `this` leaves, in any heap `g` in which the object before `this`
-- points past it and the others are as they were.
pub Chain-erase :
    (h g : Heap) (this prior p q : Ptr) (xs : List Ptr)
    → Chain h p xs
    → Distinct xs
    → has prior xs ≡ false
    → has this xs ≡ true
    → before this prior xs ≡ q
    → ((a : Ptr) → g.live a ≡ h.live a)
    → ((a : Ptr) → a ≢ null → g.next a ≡ (if q == a then h.next this else h.next a))
    → Chain g (if q == prior then h.next this else p) (erase this xs)
Chain-erase h g this prior p q [] c d f t b l w = cc
Chain-erase h g this prior p q (x ∷ xs) (e, n, o, c) (out, d) f t b l w =
    elim (Bool-cases (x == this)) [
      | inl y ↦
          let xe : x ≡ this = ground (arith, y) in
          let qe : (q == prior) ≡ true = ground (arith, y, b) in
          let apart : (a : Ptr)
              → a ≢ null
              → has a xs ≡ true
              → (g.next a ≡ h.next a) × (g.live a ≡ h.live a) =
            λ a z m. (ground (arith, w a z, m, f, qe, ne_of_out prior a xs), l a) in
          rw (y, qe)
            (Chain-frame h g (h.next this) xs apart (subst (λ z. Chain h (h.next z) xs) xe c))
      | inr y ↦
          let be : before this x xs ≡ q = ground (arith, y, b) in
          let qe : (q == prior) ≡ false =
            ground (arith, be, f, has-before this x xs, ne_of_out prior q (x ∷ xs)) in
          rw (y, qe)
            (
              e,
              n,
              l x ∙ o,
              rw (w x n)
                  (Chain-erase h g this x (h.next x) q xs c d out (ground (arith, y, t)) be l w),
            )
    ]

pub Chain-live :
    (h : Heap) (p a : Ptr) (xs : List Ptr) → Chain h p xs → has a xs ≡ true → h.live a ≡ true
Chain-live h p a [] c t = cc
Chain-live h p a (x ∷ xs) (e, n, o, c) t =
    ground (arith, Chain-live h (h.next x) a xs c, λ (k : x ≡ a). ap h.live (sym k) ∙ o)

pub Chain-null : (h : Heap) (p : Ptr) (xs : List Ptr) → Chain h p xs → has null xs ≡ false
Chain-null h p [] c = refl
Chain-null h p (x ∷ xs) (e, n, o, c) = ground (arith, Chain-null h (h.next x) xs c)

pub has-erase :
    (a b : Ptr) (xs : List Ptr) → Distinct xs → has a (erase b xs) ≡ (has a xs && not (a == b))
has-erase a b [] d = refl
has-erase a b (x ∷ xs) (out, d) =
    ground (arith, has-erase a b xs d, out, λ (k : x ≡ a). ap (λ z. has z xs) k)

pub Distinct-erase : (b : Ptr) (xs : List Ptr) → Distinct xs → Distinct (erase b xs)
Distinct-erase b [] d = tt
Distinct-erase b (x ∷ xs) (out, d) = elim (Bool-cases (x == b)) [
  | inl y ↦ rw y d
  | inr y ↦ rw y (ground (arith, has-erase x b xs d, out), Distinct-erase b xs d)
]

pub erase-absent : (a : Ptr) (xs : List Ptr) → has a xs ≡ false → erase a xs ≡ xs
erase-absent a [] f = refl
erase-absent a (x ∷ xs) f = ground (arith, erase-absent a xs)

pub Chain-ne_out :
    (h : Heap) (p a : Ptr) (xs : List Ptr) → a ≢ null → Chain h p xs → has a xs ≡ false → p ≢ a
Chain-ne_out h p a [] n c out e = n (sym e ∙ c)
Chain-ne_out h p a (x ∷ xs) n (e, z, o, c) out k = ground (arith, out, e, k)

-- What stands before an object is another one.
pub before_ne : (a prior : Ptr) (xs : List Ptr) → prior ≢ a → before a prior xs ≢ a
before_ne a prior [] n = n
before_ne a prior (x ∷ xs) n = ground (arith, before_ne a x xs)
