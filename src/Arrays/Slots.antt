-- ===== src/Arrays/Slots.antt =====
-- The references that the slots of an array hold, and the objects round a ring of slots.
use commoncpp.Common.{
  ℕ, zero, suc, ◌+◌, ◌-◌, ◌≤◌, ◌<◌, ◌≡◌, ◌≢◌, refl, sym, ap, ap₂, ◌∙◌, arith, List, [], ◌∷◌, ◌++◌,
  ltb, if◌then◌else◌, length, set, get_or, get_or-set_ne,
}
use commoncpp.Linked.{Ptr, null}
use commoncpp.Refs.Counts.{one}
use commoncpp.Arrays.{next}

abbrev pub refs_in : List Ptr → Ptr → ℕ
refs_in [] p = 0
refs_in (x ∷ xs) p = one x p + refs_in xs p

pub refs_in-set :
    (xs : List Ptr) (i : ℕ) (v p : Ptr)
    → i < length xs
    → refs_in (set xs i v) p + one (get_or xs i null) p ≡ refs_in xs p + one v p
refs_in-set [] i v p l = absurd (omega arith)
refs_in-set (x ∷ xs) zero v p l = omega arith
refs_in-set (x ∷ xs) (suc i) v p l = omega (arith, refs_in-set xs i v p)

-- The place k behind i.
abbrev pub place : ℕ → ℕ → ℕ → ℕ
place size i k = if ltb (i + k) size then i + k else i + k - size

-- The n objects from the place k behind i on.
abbrev pub window : List Ptr → ℕ → ℕ → ℕ → ℕ → List Ptr
window xs size i k zero = []
window xs size i k (suc n) = get_or xs (place size i k) null ∷ window xs size i (k + 1) n

pub window-last :
    (xs : List Ptr) (size i k n : ℕ)
    → window xs size i k (suc n)
      ≡ window xs size i k n ++ (get_or xs (place size i (k + n)) null ∷ [])
window-last xs size i k zero =
    let e : k + 0 ≡ k = omega arith in ap (λ j. get_or xs (place size i j) null ∷ []) (sym e)
window-last xs size i k (suc n) =
    let e : k + 1 + n ≡ k + suc n = omega arith in
    let rest = window-last xs size i (k + 1) n in
    ap (◌∷◌ (get_or xs (place size i k) null))
      (rest ∙ ap (λ j. window xs size i (k + 1) n ++ (get_or xs (place size i j) null ∷ [])) e)

pub window-next :
    (xs : List Ptr) (size i k n : ℕ)
    → i < size
    → k + n < size
    → window xs size (next size i) k n ≡ window xs size i (k + 1) n
window-next xs size i k zero l m = refl
window-next xs size i k (suc n) l m =
    let e : place size (next size i) k ≡ place size i (k + 1) = ground arith in
    ap₂ ◌∷◌ (ap (λ j. get_or xs j null) e) (window-next xs size i (k + 1) n l (omega arith))

-- A write at another place leaves the window.
pub window-set :
    (xs : List Ptr) (size i k n t : ℕ) (v : Ptr)
    → ((j : ℕ) → j < k + n → k ≤ j → place size i j ≢ t)
    → window (set xs t v) size i k n ≡ window xs size i k n
window-set xs size i k zero t v f = refl
window-set xs size i k (suc n) t v f =
    ap₂ ◌∷◌
      (get_or-set_ne xs t (place size i k) v null (λ e. f k (omega arith) (omega arith) (sym e)))
      (window-set xs size i (k + 1) n t v (λ j l m. f j (omega arith) (omega arith)))
