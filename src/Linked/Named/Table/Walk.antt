-- ===== src/Linked/Named/Table/Walk.antt =====
-- A table's walk from object to object, and the count of them.
use commoncpp.Common.{
  ℕ, zero, suc, ◌+◌, ◌-◌, ◌≤◌, ◌<◌, ◌≡◌, ◌≢◌, refl, sym, ap, subst, ◌∙◌, arith, true, false, List,
  [], ◌∷◌, ◌++◌, some, ◌==◌, if◌then◌else◌, ltb, length,
}
use commoncpp.Linked.{Ptr, null, Heap}
use commoncpp.Linked.Chain.{Chain}
use commoncpp.Linked.Objects.{count_from-length}
use commoncpp.Linked.Named.{Text, Slots, keyindex}
use commoncpp.Linked.Named.Table.{count_down, count, scan, skip, index_from, index}

-- The objects of a list have ids of its key.
abbrev pub InSlot : Heap → ℕ → ℕ → List Ptr → Type 0
InSlot h max k [] = Unit {0}
InSlot h max k (x ∷ xs) =
    ((t : Text) × (h.ident x ≡ some t) × (keyindex t max ≡ k)) × InSlot h max k xs

-- The objects of `left` lists from a key on.
abbrev pub all_from : (ℕ → List Ptr) → ℕ → ℕ → List Ptr
all_from lists key zero = []
all_from lists key (suc left) = lists key ++ all_from lists (key + 1) left

pub record IsTable (h : Heap) (idx : Slots) (max : ℕ) (lists : ℕ → List Ptr) : Type 0 where
  pub chain : (k : ℕ) → k < max → Chain h (idx k) (lists k)
  pub keys : (k : ℕ) → k < max → InSlot h max k (lists k)

length-append : (xs ys : List Ptr) → length (xs ++ ys) ≡ length xs + length ys
length-append [] ys = omega arith
length-append (x ∷ xs) ys = ground (arith, length-append xs ys)

append-nil : (xs : List Ptr) → xs ++ [] ≡ xs
append-nil [] = refl
append-nil (x ∷ xs) = ap (λ ys. x ∷ ys) (append-nil xs)

skip-next :
    (h : Heap) (idx : Slots) (p max : ℕ)
    → p ≢ null
    → h.live p ≡ true
    → h.next p ≢ null
    → skip h idx p max ≡ some (h.next p)
unfolding skip
skip-next h idx p max n o m =
    let z : (p == null) ≡ false = ground arith in
    let y : (h.next p == null) ≡ false = ground arith in rw (z, o, y) refl

skip-last :
    (h : Heap) (idx : Slots) (p max k : ℕ) (id : Text)
    → p ≢ null
    → h.live p ≡ true
    → h.next p ≡ null
    → h.ident p ≡ some id
    → keyindex id max ≡ k
    → skip h idx p max ≡ some (scan (max - (k + 1)) idx (k + 1))
unfolding skip
skip-last h idx p max k id n o m i w =
    let z : (p == null) ≡ false = ground arith in rw (z, o, m, i, w) refl

index-cons :
    (fuel : ℕ) (h : Heap) (idx : Slots) (p q max : ℕ) (rest : List Ptr)
    → p ≢ null
    → skip h idx p max ≡ some q
    → index_from fuel h idx q max ≡ some rest
    → index_from (suc fuel) h idx p max ≡ some (p ∷ rest)
unfolding index_from
index-cons fuel h idx p q max rest n e r =
    let z : (p == null) ≡ false = ground arith in rw (z, e, r) refl

-- From an object the walk goes through the rest of its list, and on to the next ones.
walk_list :
    (h : Heap) (idx : Slots) (max k n fuel : ℕ) (p y : Ptr) (ys rest : List Ptr)
    → Chain h p (y ∷ ys)
    → InSlot h max k (y ∷ ys)
    → index_from fuel h idx (scan (max - (k + 1)) idx (k + 1)) max ≡ some rest
    → n ≡ length (y ∷ ys) + fuel
    → index_from n h idx p max ≡ some ((y ∷ ys) ++ rest)
walk_list h idx max k zero fuel p y ys rest c s r l = absurd (omega arith)
walk_list h idx max k (suc n) fuel p y [] rest (e, m, o, c) ((id, i, w), s) r l =
    let l' : fuel ≡ n = omega arith in
    rw e (
      index-cons n h idx y (scan (max - (k + 1)) idx (k + 1)) max rest m
        (skip-last h idx y max k id m o c i w)
        (subst (λ f. index_from f h idx (scan (max - (k + 1)) idx (k + 1)) max ≡ some rest) l' r))
walk_list h idx max k (suc n) fuel p y (x ∷ xs) rest (e, m, o, (f, v, u, c)) ((id, i, w), s) r l =
    let g = walk_list h idx max k n fuel (h.next y) x xs rest (f, v, u, c) s r (omega arith) in
    rw e (
      index-cons n h idx y (h.next y) max ((x ∷ xs) ++ rest) m
        (skip-next h idx y max m o (λ q. v (sym f ∙ q))) g)

-- From the start of a list on, when the walk is known from the start of the next one.
walk_from :
    (h : Heap) (idx : Slots) (max left key n : ℕ) (ys later : List Ptr)
    → key + suc left ≡ max
    → Chain h (idx key) ys
    → InSlot h max key ys
    → length (ys ++ later) < n
    → ((n : ℕ) → length later < n → index_from n h idx (scan left idx (key + 1)) max ≡ some later)
    → index_from n h idx (scan (suc left) idx key) max ≡ some (ys ++ later)
unfolding scan
walk_from h idx max left key n [] later e c s l next =
    let z : (idx key == null) ≡ true = ground (arith, c) in rw z (next n l)
walk_from h idx max left key n (y ∷ ys) later e (f, m, o, c) s l next =
    let z : (idx key == null) ≡ false = ground (arith, f) in
    let fuel : ℕ = n - length (y ∷ ys) in
    let la = length-append (y ∷ ys) later in
    let r = next fuel (omega arith) in
    let le : left ≡ max - (key + 1) = omega arith in
    rw z (
      walk_list h idx max key n fuel (idx key) y ys later (f, m, o, c) s
        (subst (λ w. index_from fuel h idx (scan w idx (key + 1)) max ≡ some later) le r)
        (omega arith))

walk_lists :
    (h : Heap) (idx : Slots) (max : ℕ) (lists : ℕ → List Ptr)
    → IsTable h idx max lists
    → (left key n : ℕ) → key + left ≡ max
    → length (all_from lists key left) < n
    → index_from n h idx (scan left idx key) max ≡ some (all_from lists key left)
unfolding scan index_from
walk_lists h idx max lists t zero key zero e l = absurd (omega arith)
walk_lists h idx max lists t zero key (suc n) e l = refl
walk_lists h idx max lists t (suc left) key n e l =
    walk_from h idx max left key n (lists key) (all_from lists (key + 1) left) e
      (t.chain key (omega arith)) (t.keys key (omega arith)) l
      (λ m b. walk_lists h idx max lists t left (key + 1) m (omega arith) b)

all_from-last :
    (lists : ℕ → List Ptr) (key left : ℕ)
    → length (all_from lists key (suc left))
      ≡ length (all_from lists key left) + length (lists (key + left))
all_from-last lists key zero =
    let k : length (lists key) ≡ length (lists (key + 0)) =
      ap (λ j. length (lists j)) (omega arith) in
    ap length (append-nil (lists key)) ∙ omega (arith, k)
all_from-last lists key (suc left) =
    let later : List Ptr = all_from lists (key + 1) left in
    let i = all_from-last lists (key + 1) left in
    let a1 = length-append (lists key) (all_from lists (key + 1) (suc left)) in
    let a2 = length-append (lists key) later in
    let k : length (lists (key + 1 + left)) ≡ length (lists (key + suc left)) =
      ap (λ j. length (lists j)) (omega arith) in
    omega (arith, i, a1, a2, k)

count_down-length :
    (fuel : ℕ) (h : Heap) (idx : Slots) (lists : ℕ → List Ptr) (max c : ℕ)
    → ((k : ℕ) → k < max → Chain h (idx k) (lists k))
    → length (all_from lists 0 max) < fuel
    → count_down fuel h idx max c ≡ some (c + length (all_from lists 0 max))
unfolding count_down
count_down-length fuel h idx lists zero c t l = ground arith
count_down-length fuel h idx lists (suc max) c t l =
    let k : length (lists (0 + max)) ≡ length (lists max) =
      ap (λ j. length (lists j)) (omega arith) in
    let e : length (all_from lists 0 (suc max))
        ≡ length (all_from lists 0 max) + length (lists max) =
      omega (arith, all_from-last lists 0 max, k) in
    let n = count_from-length fuel h (idx max) (lists max) c (t max (omega arith)) (omega arith) in
    rw n (
      count_down-length fuel h idx lists max (c + length (lists max)) (λ k b. t k (omega arith))
        (omega arith)
      ∙ ap some (omega arith))

-- Of a table of at least two lists whose objects are in the lists of their keys,
-- `NamedObject::index` writes all of them, list after list, and `count`, by which it sizes its
-- array, is their number; both end with more fuel than there are objects.
pub index-count :
    (fuel : ℕ) (h : Heap) (idx : Slots) (max : ℕ) (lists : ℕ → List Ptr)
    → 2 ≤ max
    → IsTable h idx max lists
    → length (all_from lists 0 max) < fuel
    → (index fuel h idx max ≡ some (all_from lists 0 max))
      × (count fuel h idx max ≡ some (length (all_from lists 0 max)))
unfolding index skip count
index-count fuel h idx max lists m t l = (
  walk_lists h idx max lists t max 0 fuel (omega arith) l,
  rw one (count_down-length fuel h idx lists max 0 (λ k b. t.chain k b) l ∙ ap some (omega arith)),
)
  where
    one : (if ltb max 2 then 1 else max) ≡ max
    one = ground arith
