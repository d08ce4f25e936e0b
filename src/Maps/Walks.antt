-- ===== src/Maps/Walks.antt =====
-- An instance comes to every entry once.
use commoncpp.Common.{
  ℕ, zero, suc, ◌+◌, ◌-◌, ◌<◌, ◌≡◌, refl, sym, ap, subst, ◌∙◌, arith, true, false, List, [], ◌∷◌,
  ◌++◌, some, ◌==◌, length, length-append,
}
use commoncpp.Linked.{Ptr, null}
use commoncpp.Linked.Chain.{Chain}
use commoncpp.Maps.{Map, Instance, scan, settle, rewind, walk}

-- The entries of the n lists from a path on.
abbrev pub gather : (ℕ → List Ptr) → ℕ → ℕ → List Ptr
gather lists zero path = []
gather lists (suc n) path = lists path ++ gather lists n (path + 1)

-- The lists of a map.
abbrev pub HasLists : Map → (ℕ → List Ptr) → Type 0
HasLists m lists = (i : ℕ) → i < m.size → Chain m.heap (m.list i) (lists i)

walk-settle :
    (fuel left : ℕ) (m : Map) (lists : ℕ → List Ptr) (path : ℕ) (p : Ptr) (xs : List Ptr)
    → HasLists m lists
    → Chain m.heap p xs
    → path + 1 + left ≡ m.size
    → length xs + length (gather lists left (path + 1)) < fuel
    → walk fuel m (settle m (record { index = p; path = path })).0
      ≡ some (xs ++ gather lists left (path + 1))
unfolding walk
walk-settle zero left m lists path p xs a c e l = absurd (omega arith)
walk-settle (suc fuel) left m lists path p (x ∷ xs) a (q, n, o, c) e l =
    let y : (p == null) ≡ false = ground (arith, q, n) in
    let live : m.heap.live p ≡ true = ap m.heap.live q ∙ o in
    let step : Chain m.heap (m.heap.next p) xs =
      subst (λ z. Chain m.heap (m.heap.next z) xs) (sym q) c in
    let ih = walk-settle fuel left m lists path (m.heap.next p) xs a step e (omega arith) in
    let i : Instance = record { index = p; path = path } in
    let here : settle m i ≡ (i, true) = rw y refl in
    ap (λ s. walk (suc fuel) m s.0) here
    ∙ rw (y, live, ih) (ap (λ z. some (z ∷ xs ++ gather lists left (path + 1))) q)
walk-settle (suc fuel) zero m lists path p [] a c e l =
    let y : (p == null) ≡ true = ground (arith, c) in
    let k : m.size - (path + 1) ≡ 0 = omega arith in rw (y, k) refl
walk-settle (suc fuel) (suc left) m lists path p [] a c e l =
    let ih =
      walk-settle (suc fuel) left m lists (path + 1) (m.list (path + 1)) (lists (path + 1)) a
        (a (path + 1) (omega arith)) (omega arith)
        (omega (arith, l, length-append (lists (path + 1)) (gather lists left (path + 1 + 1)))) in
    let y : (p == null) ≡ true = ground (arith, c) in
    let k : m.size - (path + 1) ≡ suc left = omega arith in
    let k' : m.size - (path + 1 + 1) ≡ left = omega arith in
    let same : scan m (suc left) path
        ≡ settle m (record { index = m.list (path + 1); path = path + 1 }) =
      rw (scan, k') refl in
    rw (y, k) (ap (λ s. walk (suc fuel) m s.0) same ∙ ih)

-- `rewind` and then `next`, until the instance is at no entry, comes to all entries of a map of at
-- least one list, list after list, each as often as it is in them, with more fuel than there are
-- entries.
pub walk-gather :
    (m : Map) (lists : ℕ → List Ptr) (fuel : ℕ)
    → 0 < m.size
    → HasLists m lists
    → length (gather lists m.size 0) < fuel
    → walk fuel m (rewind m) ≡ some (gather lists m.size 0)
unfolding rewind
walk-gather m lists fuel n a l =
    let k : m.size ≡ suc (m.size - 1) = omega arith in
    let whole : gather lists m.size 0 ≡ lists 0 ++ gather lists (m.size - 1) (0 + 1) =
      ap (λ n. gather lists n 0) k in
    walk-settle fuel (m.size - 1) m lists 0 (m.list 0) (lists 0) a (a 0 n) (omega arith)
      (omega (arith, ap length whole, length-append (lists 0) (gather lists (m.size - 1) (0 + 1))))
    ∙ ap some (sym whole)
