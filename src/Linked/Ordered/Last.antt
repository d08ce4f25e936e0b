-- ===== src/Linked/Ordered/Last.antt =====
-- The last object of a list, after one is added and after one is taken out.
use commoncpp.Common.{
  ◌≡◌, inl, inr, refl, arith, true, false, ◌||◌, List, [], ◌∷◌, ◌++◌, ◌==◌, if◌then◌else◌,
  Bool-cases,
}
use commoncpp.Linked.{Ptr}
use commoncpp.Linked.Chain.{has, Distinct, erase, before, ne_of_out}

abbrev pub last_of : Ptr → List Ptr → Ptr
last_of d [] = d
last_of d (x ∷ xs) = last_of x xs

pub has-last_of : (d : Ptr) (xs : List Ptr) → has (last_of d xs) (d ∷ xs) ≡ true
has-last_of d [] = ground arith
has-last_of d (x ∷ xs) = ground (arith, has-last_of x xs)

pub last-append : (d a : Ptr) (xs : List Ptr) → last_of d (xs ++ (a ∷ [])) ≡ a
last-append d a [] = refl
last-append d a (x ∷ xs) = last-append x a xs

pub has-append : (a b : Ptr) (xs : List Ptr) → has a (xs ++ (b ∷ [])) ≡ (has a xs || (b == a))
has-append a b [] = ground arith
has-append a b (x ∷ xs) = ground (arith, has-append a b xs)

pub Distinct-append :
    (a : Ptr) (xs : List Ptr) → Distinct xs → has a xs ≡ false → Distinct (xs ++ (a ∷ []))
Distinct-append a [] d out = (refl, tt)
Distinct-append a (x ∷ xs) (f, d) out =
    (ground (arith, has-append x a xs, f, out), Distinct-append a xs d (ground (arith, out)))

-- What is last once `a` is out.
pub last-erase :
    (a prior : Ptr) (xs : List Ptr)
    → Distinct xs
    → has a xs ≡ true
    → last_of prior (erase a xs)
      ≡ (if a == last_of prior xs then before a prior xs else last_of prior xs)
last-erase a prior [] d t = cc
last-erase a prior (x ∷ []) (f, d) t = ground arith
last-erase a prior (x ∷ y ∷ ys) (f, d) t = elim (Bool-cases (x == a)) [
  | inl e ↦
      let xa : x ≡ a = ground (arith, e) in
      let other : (a == last_of y ys) ≡ false =
        ground (arith, f, xa, has-last_of y ys, ne_of_out x (last_of y ys) (y ∷ ys)) in
      rw (e, other) refl
  | inr e ↦ rw e (last-erase a x (y ∷ ys) d (ground (arith, e, t)))
]
