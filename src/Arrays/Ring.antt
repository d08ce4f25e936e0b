-- ===== src/Arrays/Ring.antt =====
-- The objects of an array round its ring, and one turn of `push` and of `pull` on a queue.
use commoncpp.Common.{
  ℕ, zero, suc, ◌+◌, ◌-◌, ◌≤◌, ◌<◌, ◌≡◌, ◌≢◌, refl, sym, ap, ◌∙◌, arith, List, [], ◌∷◌, ◌++◌, some,
  leb, ◌==◌, length, set, get_or, length-set, get_or-set_self, true, false,
}
use commoncpp.Linked.{Ptr, null}
use commoncpp.Refs.{Objects}
use commoncpp.Refs.Counts.{
  one, IsCounted, IsCounted-eq, retain_any-IsCounted, release_any-IsCounted,
}
use commoncpp.Arrays.{
  queue, Array, waits, done, is_plain, count, next, remove, assign, push, take_by, pull,
}
use commoncpp.Arrays.Slots.{
  refs_in, refs_in-set, place, window, window-last, window-next, window-set,
}

pub record IsRing (a : Array) : Type 0 where
  pub slots_are : length a.slots ≡ a.size
  pub head_in : a.head < a.size
  pub tail_in : a.tail < a.size

abbrev pub contents : Array → List Ptr
contents a = window a.slots a.size a.head 0 (count a)

pub length-contents : (a : Array) → length (contents a) ≡ count a
length-contents a = len a.slots a.size a.head 0 (count a)
  where
    len : (xs : List Ptr) (size i k n : ℕ) → length (window xs size i k n) ≡ n
    len xs size i k zero = refl
    len xs size i k (suc n) = ap suc (len xs size i (k + 1) n)

pub count_bound : (a : Array) → IsRing a → count a < a.size
count_bound a r = ground (arith, r.head_in, r.tail_in)

-- `held` references are held outside the array, and the slots hold theirs.
abbrev pub AllCounted : Objects → Array → (Ptr → ℕ) → Type 0
AllCounted o a held = IsCounted o (λ p. held p + refs_in a.slots p)

-- A write to a slot: the reference to the old object is given up, one to the new is taken.
pub assign-AllCounted :
    (o : Objects) (a : Array) (i : ℕ) (object : Ptr) (held : Ptr → ℕ)
    → length a.slots ≡ a.size
    → i < a.size
    → AllCounted o a held
    → (object ≢ null → o.live object ≡ true)
    → (o' : Objects) × (assign o a i object ≡ some (o', record a { slots = set a.slots i object }))
      × AllCounted o' (record a { slots = set a.slots i object }) held
unfolding assign
assign-AllCounted o a i object held s l c live =
    let old : Ptr = get_or a.slots i null in
    let after : Ptr → ℕ = λ p. held p + refs_in (set a.slots i object) p in
    let (o1, e1, c1, l1) = retain_any-IsCounted o object (λ p. held p + refs_in a.slots p) c live in
    let same = λ (p : Ptr) (n : p ≢ null). refs_in-set a.slots i object p (omega (arith, s)) in
    let c2 =
      IsCounted-eq o1 (λ p. held p + refs_in a.slots p + one object p) (λ p. after p + one old p) c1
        (λ p n. omega (arith, same p n)) in
    let (o2, e2, c3, f) = release_any-IsCounted o1 old after c2 in
    let z : leb a.size i ≡ false = ground arith in (o2, rw (z, e1, e2) refl, c3)

-- The place behind the last object is the tail.
pub place-count : (a : Array) → IsRing a → place a.size a.head (count a) ≡ a.tail
place-count a r = ground (arith, r.head_in, r.tail_in)

pub push-full :
    (o : Objects) (a : Array) (object : Ptr)
    → is_plain a.mode ≡ false
    → a.size ≤ count a + 1
    → push o a object ≡ some (o, a, waits)
unfolding push
push-full o a object m f = ground (arith, m, f)

abbrev pub pushed : Array → Ptr → Array
pushed a object = record a { slots = set a.slots a.tail object; tail = next a.size a.tail }

pub push-done :
    (o : Objects) (a : Array) (object : Ptr) (held : Ptr → ℕ)
    → is_plain a.mode ≡ false
    → IsRing a
    → count a + 1 < a.size
    → AllCounted o a held
    → (object ≢ null → o.live object ≡ true)
    → (o' : Objects) × (push o a object ≡ some (o', pushed a object, done))
      × AllCounted o' (pushed a object) held
unfolding push
push-done o a object held m r room c live =
    let (o', e, c') = assign-AllCounted o a a.tail object held r.slots_are r.tail_in c live in
    let f : leb (a.size - 1) (count a) ≡ false = ground (arith, room) in (o', rw (m, f, e) refl, c')

pub pushed-IsRing : (a : Array) (object : Ptr) → IsRing a → IsRing (pushed a object)
pushed-IsRing a object r =
    ground (arith, r.slots_are, r.head_in, r.tail_in, length-set a.slots a.tail object)

pub contents-pushed :
    (a : Array) (object : Ptr)
    → IsRing a
    → count a + 1 < a.size
    → contents (pushed a object) ≡ contents a ++ (object ∷ [])
contents-pushed a object r room =
    let n : ℕ = count a in
    let xs : List Ptr = set a.slots a.tail object in
    let at : place a.size a.head n ≡ a.tail = place-count a r in
    let more : count (pushed a object) ≡ suc n = ground (arith, room, r.head_in, r.tail_in) in
    let kept =
      window-set a.slots a.size a.head 0 n a.tail object
        (λ j l m. ground (arith, at, l, r.head_in, r.tail_in, room)) in
    let e : 0 + n ≡ n = omega arith in
    let last : get_or xs (place a.size a.head (0 + n)) null ≡ object =
      ap (λ j. get_or xs (place a.size a.head j) null) e
      ∙ (ap (λ j. get_or xs j null) at
          ∙ get_or-set_self a.slots a.tail object null (omega (arith, r.slots_are, r.tail_in))) in
    ap (window xs a.size a.head 0) more
    ∙ (window-last xs a.size a.head 0 n
        ∙ (ap (λ q. window xs a.size a.head 0 n ++ (q ∷ [])) last
            ∙ ap (λ w. w ++ (object ∷ [])) kept))

abbrev pub pulled : Array → Array
pulled a = record a { slots = set a.slots a.head null; head = next a.size a.head }

pub pull-empty :
    (a : Array) → is_plain a.mode ≡ false → IsRing a → count a ≡ 0 → pull a ≡ (a, waits, null)
unfolding pull
pull-empty a m r e =
    let z : (a.head == a.tail) ≡ true = ground (arith, e, r.head_in, r.tail_in) in rw (m, z) refl

pub pulled-IsRing : (a : Array) → IsRing a → IsRing (pulled a)
pulled-IsRing a r =
    ground (arith, r.slots_are, r.head_in, r.tail_in, length-set a.slots a.head null)

pub contents-pulled :
    (a : Array) (x : Ptr) (xs : List Ptr)
    → IsRing a
    → contents a ≡ x ∷ xs
    → (x ≡ get_or a.slots a.head null) × (contents (pulled a) ≡ xs)
contents-pulled a x xs r e =
    let n : ℕ = length xs in
    let len : count a ≡ suc n = sym (length-contents a) ∙ ap length e in
    let first : place a.size a.head 0 ≡ a.head = ground (arith, r.head_in) in
    let whole : get_or a.slots (place a.size a.head 0) null ∷ window a.slots a.size a.head 1 n
        ≡ x ∷ xs =
      ap (window a.slots a.size a.head 0) (sym len) ∙ e in
    let less : count (pulled a) ≡ n = ground (arith, len, r.head_in, r.tail_in) in
    let small : n < a.size = omega (arith, count_bound a r, len) in
    let kept =
      window-set a.slots a.size (next a.size a.head) 0 n a.head null
        (λ j l m. ground (arith, l, small, len, count_bound a r, r.head_in)) in
    let rest = window-next a.slots a.size a.head 0 n r.head_in (omega arith) in
    (
      cc (whole, first),
      ap (window (set a.slots a.head null) a.size (next a.size a.head) 0) less
          ∙ (kept ∙ (rest ∙ cc whole)),
    )

pub pulled-AllCounted :
    (o : Objects) (a : Array) (x : Ptr) (held : Ptr → ℕ)
    → IsRing a
    → x ≡ get_or a.slots a.head null
    → AllCounted o a held
    → AllCounted o (pulled a) (λ p. held p + one x p)
pulled-AllCounted o a x held r e c =
    IsCounted-eq o (λ p. held p + refs_in a.slots p)
      (λ p. held p + one x p + refs_in (pulled a).slots p) c
      (λ p n. omega (
        arith,
        refs_in-set a.slots a.head null p (omega (arith, r.slots_are, r.head_in)),
        ap (λ q. one q p) e,
      ))

pub pull-done :
    (a : Array) (x : Ptr) (xs : List Ptr)
    → a.mode ≡ queue
    → IsRing a
    → contents a ≡ x ∷ xs
    → x ≢ null
    → pull a ≡ (pulled a, done, x)
unfolding pull take_by remove
pull-done a x xs m r e n =
    let (h, w) = contents-pulled a x xs r e in
    let p : is_plain a.mode ≡ false = ap is_plain m in
    let len : count a ≡ suc (length xs) = sym (length-contents a) ∙ ap length e in
    let z : (a.head == a.tail) ≡ false = ground (arith, len, r.head_in, r.tail_in) in
    let by : take_by a.mode a ≡ take_by queue a = ap (λ k. take_by k a) m in
    let inside : leb a.size a.head ≡ false = ground (arith, r.head_in) in
    let v : (get_or a.slots a.head null == null) ≡ false = ground (arith, h, n) in
    rw (p, z, by, inside, v) (ap (λ q. (pulled a, done, q)) (sym h))
