-- ===== src/Linked/Named/Table.antt =====
-- NamedObject's functions on a whole table: `map`, `remove`, `count`, `purge`, `skip` and `index`.
pub mod Walk
pub mod Keys
use commoncpp.Common.{
  ℕ, zero, suc, ◌+◌, ◌-◌, ◌*◌, ◌%◌, ◌^◌, ◌≤◌, ◌<◌, ◌≡◌, Bool, true, false, not, ◌&&◌, List, [], ◌∷◌,
  Option, none, some, ◌==◌, if◌then◌else◌, ◌>>=◌, ltb,
}
use commoncpp.Linked
use commoncpp.Linked.{Ptr, null, Heap, put, is_object, next_of, count_from}
use commoncpp.Linked.Named.{Text, Slots, keyindex, find, remove}

module _ (same : Text → Text → Bool) where
  unfoldable pub map : ℕ → Heap → Slots → Text → ℕ → Option Ptr
  map fuel h idx id max =
      if ltb max 2 then find same fuel h (idx 0) id else find same fuel h (idx (keyindex id max)) id

  abbrev remove_in : ℕ → Heap → Slots → Text → ℕ → Option (Heap × Slots × Ptr)
  remove_in fuel h idx id k =
      remove same fuel h (idx k) id >>= λ (g, root, node). some (g, put idx k root, node)

  unfoldable pub remove_from : ℕ → Heap → Slots → Text → ℕ → Option (Heap × Slots × Ptr)
  remove_from fuel h idx id max =
      if ltb max 2 then remove_in fuel h idx id 0 else remove_in fuel h idx id (keyindex id max)

-- The loops from the last list to the first.
unfoldable pub count_down : ℕ → Heap → Slots → ℕ → ℕ → Option ℕ
count_down fuel h idx zero c = some c
count_down fuel h idx (suc max) c =
    count_from fuel h (idx max) c >>= λ n. count_down fuel h idx max n

unfoldable pub count : ℕ → Heap → Slots → ℕ → Option ℕ
count fuel h idx max = count_down fuel h idx (if ltb max 2 then 1 else max) 0

unfoldable pub purge_down : ℕ → Heap → Slots → ℕ → Option Heap
purge_down fuel h idx zero = some h
purge_down fuel h idx (suc max) = Linked.purge fuel h (idx max) >>= λ g. purge_down fuel g idx max

unfoldable pub purge : ℕ → Heap → Slots → ℕ → Option Heap
purge fuel h idx max = purge_down fuel h idx (if ltb max 2 then 0 else max)

-- The loop of `skip`, with the number of lists that are left: the first object of the next list.
unfoldable pub scan : ℕ → Slots → ℕ → Ptr
scan zero idx key = null
scan (suc left) idx key =
    let rest = scan left idx (key + 1) in if idx key == null then rest else idx key

unfoldable pub skip : Heap → Slots → Ptr → ℕ → Option Ptr
skip h idx rec max =
    let past =
      h.ident rec >>= λ id. some (scan (max - (keyindex id max + 1)) idx (keyindex id max + 1)) in
    let after = next_of h rec >>= λ q. if q == null then past else some q in
    if rec == null then some (scan max idx 0) else after

-- The loop of `index`: what it writes to the array `op`.
unfoldable pub index_from : ℕ → Heap → Slots → Ptr → ℕ → Option (List Ptr)
index_from zero h idx node max = none
index_from (suc fuel) h idx node max =
    let rest = skip h idx node max >>= λ q. index_from fuel h idx q max in
    if node == null then some [] else rest >>= λ op. some (node ∷ op)

unfoldable pub index : ℕ → Heap → Slots → ℕ → Option (List Ptr)
index fuel h idx max = skip h idx null max >>= λ node. index_from fuel h idx node max
