-- ===== src/Linked/Double/Links.antt =====
-- A list linked both ways, and what taking an object out of it leaves.
use commoncpp.Common.{
  ◌≡◌, ◌≢◌, ◌⊎◌, inl, inr, refl, sym, ap, subst, ◌∙◌, arith, true, false, List, [], ◌∷◌, ◌==◌,
  if◌then◌else◌, Bool-cases,
}
use commoncpp.Linked.{Ptr, null, Heap}
use commoncpp.Linked.Chain.{has, Distinct, erase, before, has-before, ne_of_out}
use commoncpp.Linked.Ordered.{Index}
use commoncpp.Linked.Ordered.Last.{last_of}
use commoncpp.Linked.Double.{Store}

-- From p the objects of a list follow, each with the one before it and the root r.
abbrev pub Links : Heap → Ptr → Ptr → Ptr → List Ptr → Type 0
Links h r prior p [] = p ≡ null
Links h r prior p (x ∷ xs) =
    (p ≡ x)
    × (x ≢ null)
    × (h.live x ≡ true)
    × (h.prev x ≡ prior)
    × (h.root x ≡ r)
    × Links h r x (h.next x) xs

pub record IsDouble (s : Store) (r : Ptr) (xs : List Ptr) : Type 0 where
  pub links : Links s.heap r null (s.index r).head xs
  pub distinct : Distinct xs
  pub tail_is : (s.index r).tail ≡ last_of null xs

-- `g` is as `h` at an object.
abbrev pub SameLinks : Heap → Heap → Ptr → Type 0
SameLinks h g a =
    (g.next a ≡ h.next a) × (g.prev a ≡ h.prev a) × (g.root a ≡ h.root a) × (g.live a ≡ h.live a)

pub Links-frame :
    (h g : Heap) (r prior p : Ptr) (xs : List Ptr)
    → ((a : Ptr) → a ≢ null → has a xs ≡ true → SameLinks h g a)
    → Links h r prior p xs
    → Links g r prior p xs
Links-frame h g r prior p [] s c = c
Links-frame h g r prior p (x ∷ xs) s (e, n, o, b, t, c) =
    let (m, k, w, l) = s x n (ground arith) in
    (
      e,
      n,
      l ∙ o,
      k ∙ b,
      w ∙ t,
      rw m (Links-frame h g r x (h.next x) xs (λ a z i. s a z (ground (arith, i))) c),
    )

pub IsDouble-frame :
    (s u : Store) (r : Ptr) (xs : List Ptr)
    → IsDouble s r xs
    → u.index r ≡ s.index r
    → ((a : Ptr) → a ≢ null → has a xs ≡ true → SameLinks s.heap u.heap a)
    → IsDouble u r xs
IsDouble-frame s u r xs i e same = record {
  links =
      subst (λ p. Links u.heap r null p xs) (ap (λ (j : Index). j.head) (sym e))
        (Links-frame s.heap u.heap r null (s.index r).head xs same i.links);
  distinct = i.distinct;
  tail_is = ap (λ (j : Index). j.tail) e ∙ i.tail_is;
}

pub Links-null :
    (h : Heap) (r prior p : Ptr) (xs : List Ptr) → Links h r prior p xs → has null xs ≡ false
Links-null h r prior p [] c = refl
Links-null h r prior p (x ∷ xs) (e, n, o, b, t, c) =
    ground (arith, Links-null h r x (h.next x) xs c)

-- What the links of a member say.
pub record Placed (h : Heap) (r prior a : Ptr) (xs : List Ptr) : Type 0 where
  pub lives : h.live a ≡ true
  pub rooted : h.root a ≡ r
  pub prev_is : h.prev a ≡ before a prior xs
  pub ne_null : a ≢ null
  pub next_ne : h.next a ≢ a
  pub back : h.next a ≢ null → h.prev (h.next a) ≡ a
  pub next_in : (h.next a ≡ null) ⊎ (has (h.next a) xs ≡ true)

pub Links-Placed :
    (h : Heap) (r prior p a : Ptr) (xs : List Ptr)
    → Links h r prior p xs
    → Distinct xs
    → has a xs ≡ true
    → Placed h r prior a xs
Links-Placed h r prior p a [] c d i = cc
Links-Placed h r prior p a (x ∷ xs) (e, n, o, b, t, c) (out, d) i = elim (Bool-cases (x == a)) [
  | inl y ↦
      let xa : x ≡ a = ground (arith, y) in
      let nx : (h.next x ≡ null) ⊎ (has (h.next x) (x ∷ xs) ≡ true) = after xs c in
      subst (λ z. Placed h r prior z (x ∷ xs)) xa
        (record {
          lives = o;
          rooted = t;
          prev_is = ground (arith, b);
          ne_null = n;
          next_ne = no_loop xs c out;
          back = λ z. back_to xs c z;
          next_in = nx;
        })
  | inr y ↦
      let k = Links-Placed h r x (h.next x) a xs c d (ground (arith, y, i)) in
      record {
        lives = k.lives;
        rooted = k.rooted;
        prev_is = rw y k.prev_is;
        ne_null = k.ne_null;
        next_ne = k.next_ne;
        back = k.back;
        next_in = ground (arith, k.next_in);
      }
]
  where
    after :
        (xs : List Ptr)
        → Links h r x (h.next x) xs
        → (h.next x ≡ null) ⊎ (has (h.next x) (x ∷ xs) ≡ true)
    after [] c = inl c
    after (y ∷ ys) (f, m, l, b, t, c) = inr (ground (arith, f))

    back_to : (xs : List Ptr) → Links h r x (h.next x) xs → h.next x ≢ null → h.prev (h.next x) ≡ x
    back_to [] c z = absurd (z c)
    back_to (y ∷ ys) (f, m, l, b, t, c) z = ap h.prev f ∙ b

    no_loop : (xs : List Ptr) → Links h r x (h.next x) xs → has x xs ≡ false → h.next x ≢ x
    no_loop [] c f k = n (sym k ∙ c)
    no_loop (y ∷ ys) (g, m, l, b, t, c) f k = ground (arith, f, g, k)

-- What stands before an object leads to it.
pub Links-forth :
    (h : Heap) (r prior p a q : Ptr) (xs : List Ptr)
    → Links h r prior p xs
    → has a xs ≡ true
    → q ≡ before a prior xs
    → ((q ≡ prior) × (p ≡ a)) ⊎ (h.next q ≡ a)
Links-forth h r prior p a q [] c i e = cc
Links-forth h r prior p a q (x ∷ xs) (f, n, o, b, t, c) i e = elim (Bool-cases (x == a)) [
  | inl y ↦ inl (ground (arith, y, e), ground (arith, y, f))
  | inr y ↦
      elim (Links-forth h r x (h.next x) a q xs c (ground (arith, y, i)) (ground (arith, y, e))) [
        | inl (g, k) ↦ inr (ap h.next g ∙ k)
        | inr g ↦ inr g
      ]
]

-- The links after the first object, once that is out.
Links-first :
    (h g : Heap) (r this prior p : Ptr) (xs : List Ptr)
    → Links h r this p xs
    → Distinct xs
    → p ≡ h.next this
    → has this xs ≡ false
    → has prior xs ≡ false
    → ((a : Ptr) → (a == this) ≡ false → (g.live a ≡ h.live a) × (g.root a ≡ h.root a))
    → ((a : Ptr)
        → a ≢ null
        → (a == this) ≡ false
        → g.next a ≡ (if prior == a then h.next this else h.next a))
    → ((a : Ptr)
        → a ≢ null
        → (a == this) ≡ false
        → g.prev a ≡ (if h.next this == a then prior else h.prev a))
    → Links g r prior p xs
Links-first h g r this prior p [] c d s i f l w v = c
Links-first h g r this prior p (y ∷ ys) (e, n, o, k, t, c) (out, d) s i f l w v =
    let m : (y == this) ≡ false = ground (arith, i) in
    let (lv, rt) = l y m in
    let nx : g.next y ≡ h.next y = ground (arith, w y n m, f) in
    let pv : g.prev y ≡ prior = ground (arith, v y n m, e, s) in
    let same : (a : Ptr) → a ≢ null → has a ys ≡ true → SameLinks h g a = λ a z j.
      let ma : (a == this) ≡ false = ground (arith, ne_of_out this a ys, i, j) in
      let my : y ≢ a = ne_of_out y a ys out j in
      let mp : prior ≢ a = ne_of_out prior a ys (ground (arith, f)) j in
      let (la, ra) = l a ma in
      (ground (arith, w a z ma, mp), ground (arith, v a z ma, my, e, s), ra, la) in
    (e, n, lv ∙ o, pv, rt ∙ t, rw nx (Links-frame h g r y (h.next y) ys same c))

-- The links once `this` is out: the object before it and the one after it point past it.
pub Links-erase :
    (h g : Heap) (r this prior p q : Ptr) (xs : List Ptr)
    → Links h r prior p xs
    → Distinct xs
    → has prior xs ≡ false
    → has this xs ≡ true
    → before this prior xs ≡ q
    → ((a : Ptr) → (a == this) ≡ false → (g.live a ≡ h.live a) × (g.root a ≡ h.root a))
    → ((a : Ptr)
        → a ≢ null
        → (a == this) ≡ false
        → g.next a ≡ (if q == a then h.next this else h.next a))
    → ((a : Ptr)
        → a ≢ null
        → (a == this) ≡ false
        → g.prev a ≡ (if h.next this == a then q else h.prev a))
    → Links g r prior (if q == prior then h.next this else p) (erase this xs)
Links-erase h g r this prior p q [] c d f t b l w v = cc
Links-erase h g r this prior p q (x ∷ xs) (e, n, o, k, y, c) (out, d) f t b l w v =
    elim (Bool-cases (x == this)) [
      | inl z ↦
          let xt : x ≡ this = ground (arith, z) in
          let qp : q ≡ prior = ground (arith, z, b) in
          let qe : (q == prior) ≡ true = ground (arith, qp) in
          rw (z, qe)
            (Links-first h g r this prior (h.next this) xs
              (subst (λ a. Links h r a (h.next a) xs) xt c) d refl
              (subst (λ a. has a xs ≡ false) xt out) (ground (arith, f)) l
              (λ a m i. ground (arith, w a m i, qp)) (λ a m i. ground (arith, v a m i, qp)))
      | inr z ↦
          let be : before this x xs ≡ q = ground (arith, z, b) in
          let qe : (q == prior) ≡ false =
            ground (arith, be, f, has-before this x xs, ne_of_out prior q (x ∷ xs)) in
          let i : has this xs ≡ true = ground (arith, z, t) in
          let (lv, rt) = l x z in
          let nm : (h.next this == x) ≡ false =
            ground (arith, (Links-Placed h r x (h.next x) this xs c d i).next_in, out, n) in
          let pv : g.prev x ≡ h.prev x = ground (arith, v x n z, nm) in
          rw (z, qe)
            (
              e,
              n,
              lv ∙ o,
              pv ∙ k,
              rt ∙ y,
              rw (w x n z) (Links-erase h g r this x (h.next x) q xs c d out i be l w v),
            )
    ]
